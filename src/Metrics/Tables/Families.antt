-- ===== src/Metrics/Tables/Families.antt =====
-- The commands of an event as lists behind each other, each of which counts a value in one family of
-- hashes.
pub mod Steps
pub mod Users
use eventify.Common.{
  ◌≡◌, refl, Bool, true, false, List, [], ◌∷◌, ◌++◌, Option, none, some, String, if◌then◌else◌,
  Bool-cases, inl, inr,
}
use eventify.Metrics.Commands.{
  Command, expire, sadd, or_else, window_seconds, session_commands, is_conversion,
  get_country_from_ip, update_volume_metrics, update_user_metrics, update_event_type_metrics,
  update_geographic_metrics, update_device_metrics, update_referrer_metrics,
  update_performance_metrics, update_last_activity_time, after_volume, event_commands,
}
use eventify.Metrics.Keys.{metric_key, time_key, hour_key, day_key}
use eventify.Metrics.Tables.{noted}
use eventify.Metrics.Volume.{Processed}

-- The value that each method counts for an event.
abbrev pub event_type_of : Processed → Option String
event_type_of e = some e.event.event_name

abbrev pub country_of : Processed → Option String
country_of e =
    some (or_else e.payload.country (or_else (some (get_country_from_ip e.index)) "Unknown"))

abbrev pub device_of : Processed → Option String
device_of e = some (or_else e.payload.device "unknown")

abbrev pub referrer_of : Processed → Option String
referrer_of e = some (or_else e.payload.referrer "Direct")

abbrev pub conversion_of : Processed → Option String
conversion_of e = if is_conversion e.event.event_name then some e.event.event_name else none

module _ (e : Processed) where
  abbrev t : String
  t = time_key e.now

  abbrev users : List Command
  users =
      sadd (metric_key "users" t) (or_else e.payload.user_id "anonymous")
      ∷ expire (metric_key "users" t) window_seconds
      ∷ []

  abbrev session : List Command
  session = session_commands t e.payload.session_id

  abbrev of_user : List Command
  of_user = users ++ (session ++ noted "conversions" t (conversion_of e))

  abbrev performance : List Command
  performance = update_performance_metrics t e.now e.event_time

  abbrev from_referrers : List Command
  from_referrers = noted "referrers" t (referrer_of e) ++ performance

  abbrev from_devices : List Command
  from_devices = noted "devices" t (device_of e) ++ from_referrers

  abbrev from_countries : List Command
  from_countries = noted "countries" t (country_of e) ++ from_devices

  abbrev from_event_types : List Command
  from_event_types = noted "event_types" t (event_type_of e) ++ from_countries

  event_commands_lem :
      event_commands e.now e.event_time e.index e.event e.payload
      ≡ update_last_activity_time e.now
        ++ (update_volume_metrics t (hour_key e.now) (day_key e.now) e.event
            ++ (update_user_metrics t e.event e.payload ++ from_event_types))
  unfolding event_commands after_volume update_event_type_metrics update_geographic_metrics
      update_device_metrics update_referrer_metrics
  event_commands_lem = refl

  -- The commands of the conversion as a value that is counted.
  update_user_metrics_lem : update_user_metrics t e.event e.payload ≡ of_user
  unfolding update_user_metrics
  update_user_metrics_lem = elim (Bool-cases (is_conversion e.event.event_name)) [
    | inl c ↦ rw c refl
    | inr c ↦ rw c refl
  ]
