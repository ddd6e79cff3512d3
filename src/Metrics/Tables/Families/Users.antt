-- ===== src/Metrics/Tables/Families/Users.antt =====
-- The sets of the users of each minute: what an event does to them, and what a read finds there after
-- a history.
use eventify.Common.{
  ℕ, ◌+◌, ◌*◌, ◌≡◌, refl, ap, ◌∙◌, true, List, [], ◌∷◌, ◌++◌, ==_iff, Option, none, some, String,
  eq_iff, ◌==◌, ltb, lt→ltb, arith, Bool-cases, inl, inr,
}
use eventify.Metrics.Commands.{
  Command, sadd, expire, window_seconds, or_else, update_volume_metrics, update_last_activity_time,
}
use eventify.Metrics.Keys.{time_key, hour_key, day_key}
use eventify.Metrics.Keys.Apart.{last_activity-differ}
use eventify.Common.Number.{decimal}
use eventify.Metrics.Keys.Laws.{metric_key_eq}
use eventify.Metrics.Store.{Roster, present, is_member, MetricsStore}
use eventify.Metrics.Tables.{table_key, gain_of, noted}
use eventify.Metrics.Tables.Families.{
  conversion_of, t, users, session, of_user, from_event_types, event_commands_lem,
  update_user_metrics_lem,
}
use eventify.Metrics.Tables.History.{gain}
use eventify.Metrics.Volume.{Processed, minute_of, execute_all, process, process_all}
use eventify.Metrics.Volume.Counting.{
  Summary, total_of, touched, seen, live_kept, execute_all-append,
}
use eventify.Metrics.Volume.History.{known_after, readable}
use eventify.Metrics.Volume.Untouched.{
  AllOther, AllOther-append, AllOther-session, AllOther-volumes, AllOther-from_event_types, IsOf,
  metric_key-IsOf,
}

-- The user of an event.
abbrev pub user_of : Processed → Option String
user_of e = some (or_else e.payload.user_id "anonymous")

-- The set of a minute agrees with what is known of one user in it: how many events it had.
abbrev pub Fits : String → ℕ → Summary → Roster → Type 0
Fits user m none r = r ≡ record { members = []; deadline = none }
Fits user m (some (n, last)) r =
    (minute_of last ≡ m)
    × (is_member user r.members ≡ ltb 0 n)
    × (r.deadline ≡ some (last + window_seconds * 1000))

module _ (ms : MetricsStore) (user : String) (m : ℕ) where
  open ms use {Store, roster, execute, roster_ne, is_member-sadd, deadline-sadd, roster-expire}

  roster-execute_all :
      (now : ℕ) (cs : List Command) (s : Store)
      → AllOther (table_key "users" m) cs
      → roster (table_key "users" m) (execute_all ms now cs s) ≡ roster (table_key "users" m) s
  unfolding execute_all
  roster-execute_all now [] s h = refl
  roster-execute_all now (c ∷ cs) s (differ, h) =
      roster-execute_all now cs (execute now c s) h ∙ roster_ne now c (table_key "users" m) s differ

  present-now :
      (now : ℕ) (known : Summary) (r : Roster)
      → minute_of now ≡ m
      → Fits user m known r
      → is_member user (present now r) ≡ ltb 0 (total_of known)
  present-now now none r here f = rw f refl
  present-now now (some (n, last)) r here (same, member, kept) =
      let live : ltb now (last + window_seconds * 1000) ≡ true = lt→ltb _ _ (omega arith) in
      rw (kept, live) member

  -- What the user of an event does to the set of its own minute.
  Fits-added :
      (now : ℕ) (who : String) (known : Summary) (s : Store)
      → minute_of now ≡ m
      → Fits user m known (roster (table_key "users" m) s)
      → Fits user m (touched (gain_of user (some who)) now known) (
          roster (table_key "users" m) (
            execute_all ms now
              (sadd (table_key "users" m) who ∷ expire (table_key "users" m) window_seconds ∷ [])
              s))
  unfolding execute_all
  Fits-added now who known s here f =
      let own = table_key "users" m in
      let once = execute now (sadd own who) s in
      let shown : present now (roster own once) ≡ (roster own once).members =
        rw (deadline-sadd now own who s, live_kept now (roster own s).deadline) refl in
      let there : is_member who (present now (roster own once)) ≡ true =
        rw (shown, is_member-sadd now own who who s, (eq_iff who who).1 refl) refl in
      let before = present-now now known (roster own s) here f in
      rw
        (
          roster-expire now own window_seconds who once there,
          shown,
          is_member-sadd now own who user s,
          before,
        )
        (here, ground arith, refl)

  Fits-users :
      (e : Processed) (known : Summary) (s : Store)
      → Fits user m known (roster (table_key "users" m) s)
      → Fits user m
          (seen minute_of (gain user_of user) m e known)
          (roster (table_key "users" m) (execute_all ms e.now (users e) s))
  unfolding time_key
  Fits-users e known s f = elim (Bool-cases (minute_of e.now == m)) [
    | inl here ↦ rw here (
        let same = (==_iff (minute_of e.now) m).0 here in
        rw (ap (table_key "users") same)
          (Fits-added e.now (or_else e.payload.user_id "anonymous") known s same f))
    | inr elsewhere ↦
        let other = metric_key_eq "users" (minute_of e.now) m ∙ elsewhere in
        rw (elsewhere, roster-execute_all e.now (users e) s (other, (other, tt))) f
  ]

  abbrev behind : Processed → List Command
  behind e = session e ++ noted "conversions" (t e) (conversion_of e)

  abbrev volumes : Processed → List Command
  volumes e = update_volume_metrics (t e) (hour_key e.now) (day_key e.now) e.event

  away : IsOf "users" (table_key "users" m)
  away = metric_key-IsOf "users" m

  AllOther-noted :
      (time : String) (value : Option String)
      → AllOther (table_key "users" m) (noted "conversions" time value)
  AllOther-noted time none = tt
  AllOther-noted time (some value) =
      (away "conversions" time refl, (away "conversions" time refl, tt))

  AllOther-behind : (e : Processed) → AllOther (table_key "users" m) (behind e)
  AllOther-behind e =
      AllOther-append (table_key "users" m) (session e)
        (noted "conversions" (t e) (conversion_of e))
        (AllOther-session "users" (table_key "users" m) away (t e) e.payload.session_id refl)
        (AllOther-noted (t e) (conversion_of e))

  process-Fits :
      (e : Processed) (known : Summary) (s : Store)
      → Fits user m known (roster (table_key "users" m) s)
      → Fits user m
          (seen minute_of (gain user_of user) m e known)
          (roster (table_key "users" m) (process ms e s))
  unfolding process update_last_activity_time
  process-Fits e known s f =
      let now = e.now in
      let first = execute_all ms now (update_last_activity_time now) s in
      let second = execute_all ms now (volumes e) first in
      let third = execute_all ms now (users e) second in
      let fourth = execute_all ms now (behind e) third in
      let before : roster (table_key "users" m) second ≡ roster (table_key "users" m) s =
        roster-execute_all now (volumes e) first (
          AllOther-volumes "users" (table_key "users" m) away (t e) (hour_key e.now) (day_key e.now)
            e.event refl refl refl)
        ∙ roster-execute_all now (update_last_activity_time now) s
            (last_activity-differ "users" (decimal m) refl, tt) in
      let after : roster (table_key "users" m) (execute_all ms now (from_event_types e) fourth)
          ≡ roster (table_key "users" m) third =
        roster-execute_all now (from_event_types e) fourth (
          AllOther-from_event_types "users" (table_key "users" m) away e.now e.event_time e.index
            e.event e.payload refl refl refl refl refl)
        ∙ roster-execute_all now (behind e) third (AllOther-behind e) in
      rw
        (
          event_commands_lem e,
          update_user_metrics_lem e,
          execute_all-append ms now (update_last_activity_time now)
              (volumes e ++ (of_user e ++ from_event_types e)) s,
          execute_all-append ms now (volumes e) (of_user e ++ from_event_types e) first,
          execute_all-append ms now (of_user e) (from_event_types e) second,
          execute_all-append ms now (users e) (behind e) second,
          after,
        )
        (Fits-users e known second (rw before f))

  process_all-Fits :
      (known : Summary) (es : List Processed) (s : Store)
      → Fits user m known (roster (table_key "users" m) s)
      → Fits user m
          (known_after minute_of (gain user_of user) m known es)
          (roster (table_key "users" m) (process_all ms es s))
  unfolding process_all
  process_all-Fits known [] s f = f
  process_all-Fits known (e ∷ es) s f =
      process_all-Fits (seen minute_of (gain user_of user) m e known) es (process ms e s)
        (process-Fits e known s f)

  present-readable :
      (now : ℕ) (known : Summary) (r : Roster)
      → Fits user m known r
      → is_member user (present now r) ≡ ltb 0 (readable window_seconds now known)
  present-readable now none r f = rw f refl
  present-readable now (some (n, last)) r (same, member, kept) =
      elim (Bool-cases (ltb now (last + window_seconds * 1000))) [
        | inl e ↦ rw (kept, e) member
        | inr e ↦ rw (kept, e) refl
      ]

  -- A read of a minute has the user if an event that is not over counts for it.
  pub is_member-smembers :
      (now : ℕ) (es : List Processed) (s : Store)
      → roster (table_key "users" m) s ≡ record { members = []; deadline = none }
      → is_member user (ms.smembers now (table_key "users" m) (process_all ms es s))
        ≡ ltb 0 (readable window_seconds now (known_after minute_of (gain user_of user) m none es))
  is_member-smembers now es s fresh =
      rw (ms.smembers_lem now (table_key "users" m) (process_all ms es s)) (
        present-readable now (known_after minute_of (gain user_of user) m none es) _
          (process_all-Fits none es s fresh))
