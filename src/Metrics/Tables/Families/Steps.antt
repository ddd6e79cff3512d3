-- ===== src/Metrics/Tables/Families/Steps.antt =====
-- What an event counts in the hash of each family: one value, or none.
use eventify.Common.{ℕ, ◌≡◌, refl, true, List, ◌++◌, Option, some, String}
use eventify.Common.Number.{decimal}
use eventify.Metrics.Commands.{
  Command, or_else, get_country_from_ip, update_volume_metrics, update_user_metrics,
  update_last_activity_time, event_commands,
}
use eventify.Metrics.Keys.{time_key, hour_key, day_key}
use eventify.Metrics.Keys.Apart.{differ, last_activity-differ}
use eventify.Metrics.Store.{MetricsStore}
use eventify.Metrics.Tables.{table_key, noted, Step, Step-behind, Step-before, Step-noted}
use eventify.Metrics.Tables.Families.{
  event_type_of, country_of, device_of, referrer_of, conversion_of, t, users, session, of_user,
  performance, from_referrers, from_devices, from_countries, from_event_types, event_commands_lem,
  update_user_metrics_lem,
}
use eventify.Metrics.Volume.{Processed}
use eventify.Metrics.Volume.Untouched.{
  AllOther, metric_key-IsOf, AllOther-counted, AllOther-session, AllOther-performance,
  AllOther-volumes, AllOther-users, AllOther-from_referrers, AllOther-from_devices,
  AllOther-from_countries, AllOther-from_event_types,
}

-- All commands of an event count one value in the hash of the family, if it has one.
abbrev pub CountsValues : MetricsStore → String → (Processed → Option String) → Type 0
CountsValues ms family value =
    (field : String) (m : ℕ) (e : Processed)
    → Step family field m ms e.now (value e)
        (event_commands e.now e.event_time e.index e.event e.payload)

module _ (ms : MetricsStore) (family : String) (value : Processed → Option String)
    (a : differ family "last_activity" ≡ true) (b : differ "volume" family ≡ true)
    (c : differ "volume:hour" family ≡ true) (d : differ "volume:day" family ≡ true) where
  -- The last activity and the volumes come first, and go to other keys.
  counts_behind_volumes :
      ((field : String) (m : ℕ) (e : Processed)
        → Step family field m ms e.now
            (value e)
            (update_user_metrics (t e) e.event e.payload ++ from_event_types e))
      → CountsValues ms family value
  unfolding update_last_activity_time
  counts_behind_volumes step field m e = rw (event_commands_lem e) (
      Step-behind family field m ms e.now (value e) (update_last_activity_time e.now) _
        (last_activity-differ family (decimal m) a, tt)
        (Step-behind family field m ms e.now (value e)
          (update_volume_metrics (time_key e.now) (hour_key e.now) (day_key e.now) e.event) _
          (AllOther-volumes family (table_key family m) (metric_key-IsOf family m) (time_key e.now)
            (hour_key e.now) (day_key e.now) e.event b c d)
          (step field m e)))

-- The commands of an event one method after the other, for a family that counts none of the values
-- that come before its own.
module _ (ms : MetricsStore) (family field : String) (m : ℕ) (e : Processed)
    (value : Option String) where
  abbrev Does : List Command → Type 0
  Does cs = Step family field m ms e.now value cs

  noted_here : Does (noted family (t e) value)
  unfolding time_key
  noted_here = Step-noted family field m ms e.now value

  noted_before :
      (ys : List Command) → AllOther (table_key family m) ys → Does (noted family (t e) value ++ ys)
  noted_before ys others =
      Step-before family field m ms e.now value (noted family (t e) value) ys noted_here others

  behind_user :
      differ "users" family ≡ true
      → differ "sessions" family ≡ true
      → differ "conversions" family ≡ true
      → Does (from_event_types e)
      → Does (update_user_metrics (t e) e.event e.payload ++ from_event_types e)
  behind_user u s c =
      Step-behind family field m ms e.now value (update_user_metrics (t e) e.event e.payload)
        (from_event_types e)
        (AllOther-users family (table_key family m) (metric_key-IsOf family m) (t e) e.event
          e.payload u s c)

  behind_event_types :
      differ "event_types" family ≡ true → Does (from_countries e) → Does (from_event_types e)
  behind_event_types d =
      Step-behind family field m ms e.now value (noted "event_types" (t e) (event_type_of e))
        (from_countries e)
        (AllOther-counted family (table_key family m) (metric_key-IsOf family m) "event_types" (t e)
          (e.event.event_name) d)

  behind_countries :
      differ "countries" family ≡ true → Does (from_devices e) → Does (from_countries e)
  behind_countries d =
      Step-behind family field m ms e.now value (noted "countries" (t e) (country_of e))
        (from_devices e)
        (AllOther-counted family (table_key family m) (metric_key-IsOf family m) "countries" (t e)
          (or_else e.payload.country (or_else (some (get_country_from_ip e.index)) "Unknown")) d)

  behind_devices : differ "devices" family ≡ true → Does (from_referrers e) → Does (from_devices e)
  behind_devices d =
      Step-behind family field m ms e.now value (noted "devices" (t e) (device_of e))
        (from_referrers e)
        (AllOther-counted family (table_key family m) (metric_key-IsOf family m) "devices" (t e)
          (or_else e.payload.device "unknown") d)

module _ (ms : MetricsStore) where
  pub counts_event_types : CountsValues ms "event_types" event_type_of
  counts_event_types =
      counts_behind_volumes ms "event_types" event_type_of refl refl refl refl (λ field m e.
        let others =
          AllOther-from_countries "event_types" (table_key "event_types" m)
            (metric_key-IsOf "event_types" m) e.now e.event_time e.index e.event e.payload refl refl
            refl refl in
        behind_user ms "event_types" field m e (event_type_of e) refl refl refl
          (noted_before ms "event_types" field m e (event_type_of e) (from_countries e) others))

  pub counts_countries : CountsValues ms "countries" country_of
  counts_countries =
      counts_behind_volumes ms "countries" country_of refl refl refl refl (λ field m e.
        let others =
          AllOther-from_devices "countries" (table_key "countries" m)
            (metric_key-IsOf "countries" m) e.now e.event_time e.index e.event e.payload refl refl
            refl in
        behind_user ms "countries" field m e (country_of e) refl refl refl (
          behind_event_types ms "countries" field m e (country_of e) refl
            (noted_before ms "countries" field m e (country_of e) (from_devices e) others)))

  pub counts_devices : CountsValues ms "devices" device_of
  counts_devices = counts_behind_volumes ms "devices" device_of refl refl refl refl (λ field m e.
      let others =
        AllOther-from_referrers "devices" (table_key "devices" m) (metric_key-IsOf "devices" m)
          e.now e.event_time e.index e.event e.payload refl refl in
      behind_user ms "devices" field m e (device_of e) refl refl refl (
        behind_event_types ms "devices" field m e (device_of e) refl (
          behind_countries ms "devices" field m e (device_of e) refl
            (noted_before ms "devices" field m e (device_of e) (from_referrers e) others))))

  pub counts_referrers : CountsValues ms "referrers" referrer_of
  counts_referrers =
      counts_behind_volumes ms "referrers" referrer_of refl refl refl refl (λ field m e.
        let others =
          AllOther-performance "referrers" (table_key "referrers" m) (metric_key-IsOf "referrers" m)
            (t e) e.now e.event_time refl in
        behind_user ms "referrers" field m e (referrer_of e) refl refl refl (
          behind_event_types ms "referrers" field m e (referrer_of e) refl (
            behind_countries ms "referrers" field m e (referrer_of e) refl (
              behind_devices ms "referrers" field m e (referrer_of e) refl
                (noted_before ms "referrers" field m e (referrer_of e) (performance e) others)))))

  pub counts_conversions : CountsValues ms "conversions" conversion_of
  counts_conversions =
      counts_behind_volumes ms "conversions" conversion_of refl refl refl refl (λ field m e.
        let value = conversion_of e in
        let own = noted "conversions" (t e) value in
        let behind = Step-behind "conversions" field m ms e.now value in
        let away = metric_key-IsOf "conversions" m in
        let user = away "users" (t e) refl in
        rw (update_user_metrics_lem e) (
          Step-before "conversions" field m ms e.now value (of_user e) (from_event_types e)
            (behind (users e) (session e ++ own) (user, (user, tt))
              (behind (session e) own
                (AllOther-session "conversions" (table_key "conversions" m) away (t e)
                  e.payload.session_id refl)
                (noted_here ms "conversions" field m e value)))
            (AllOther-from_event_types "conversions" (table_key "conversions" m) away e.now
              e.event_time e.index e.event e.payload refl refl refl refl refl)))
