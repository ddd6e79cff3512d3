-- ===== src/Metrics/Dashboard/Laws.antt =====
-- When the dashboard is active.
use eventify.Common.{
  ℕ, ◌+◌, ◌-◌, ◌*◌, ◌≡◌, refl, ap, ◌∙◌, false, List, [], ◌∷◌, ◌++◌, none, some, String, str_eq,
  if◌then◌else◌, arith, ltb, leb, All-append, Bool-cases, inl, inr,
}
use eventify.Common.Number.{decimal}
use eventify.Common.Number.RoundTrip.{parse_digits-decimal, decimal-StartsDigit}
use eventify.Metrics.Commands.{
  Command, update_last_activity_time, event_commands, update_volume_metrics, after_volume,
}
use eventify.Metrics.Keys.{time_key, hour_key, day_key}
use eventify.Metrics.Merge.Laws.{not_empty}
use eventify.Metrics.Dashboard.{
  get_last_activity_time, is_system_active, active_dashboard, generate_dashboard_metrics,
  generate_inactive_metrics,
}
use eventify.Metrics.Live.{LiveEvent}
use eventify.Metrics.Store.{MetricsStore, target}
use eventify.Metrics.Volume.{Processed, process, execute_all}
use eventify.Metrics.Volume.Counting.{execute_all-append}
use eventify.Metrics.Volume.Untouched.{
  AllOther, AllOther-rest, AllOther-volumes, last_activity-IsOf,
}

module _ (ms : MetricsStore) where
  open ms use {Store, execute, get, get-setex, get_ne}

  get-execute_all :
      (now later : ℕ) (key : String) (cs : List Command) (s : Store)
      → AllOther key cs
      → get later key (execute_all ms now cs s) ≡ get later key s
  unfolding execute_all
  get-execute_all now later key [] s h = refl
  get-execute_all now later key (c ∷ cs) s (differ, h) =
      get-execute_all now later key cs (execute now c s) h ∙ get_ne now later c key s differ

  module _ (later : ℕ) (e : Processed) (s : Store) where
    -- The stored time of the last activity is that of the last event, for an hour.
    get-process :
        get later "metrics:last_activity" (process ms e s)
        ≡ (if ltb later (e.now + 3600 * 1000) then some (decimal e.now) else none)
    unfolding process event_commands update_last_activity_time
    get-process =
        ap (get later "metrics:last_activity")
          (execute_all-append ms e.now (update_last_activity_time e.now) (volume ++ rest) s)
        ∙ get-execute_all e.now later "metrics:last_activity" (volume ++ rest) _ (
            All-append (λ c. str_eq (target c) "metrics:last_activity" ≡ false) volume rest
              (AllOther-volumes "last_activity" "metrics:last_activity" last_activity-IsOf
                (time_key e.now) (hour_key e.now) (day_key e.now) e.event refl refl refl)
              (AllOther-rest "last_activity" "metrics:last_activity" last_activity-IsOf e.now
                e.event_time e.index e.event e.payload
                (refl, refl, refl, refl, refl, refl, refl, refl)))
        ∙ get-setex e.now later "metrics:last_activity" 3600 (decimal e.now) s
      where
        volume : List Command
        volume = update_volume_metrics (time_key e.now) (hour_key e.now) (day_key e.now) e.event

        rest : List Command
        rest = after_volume e.now e.event_time e.index e.event e.payload

    pub is_system_active-process :
        is_system_active ms later (process ms e s) ≡ leb (later - e.now) 120000
    unfolding is_system_active get_last_activity_time
    is_system_active-process = elim (Bool-cases (ltb later (e.now + 3600 * 1000))) [
      | inl l ↦
          rw
            (
              is_system_active,
              get_last_activity_time,
              get-process,
              l,
              not_empty (decimal e.now) (decimal-StartsDigit e.now),
              parse_digits-decimal,
            )
            refl
      | inr l ↦ rw (is_system_active, get_last_activity_time, get-process, l) (ground arith)
    ]

  -- At any time after an event, the dashboard shows the windows if at most two minutes have passed, and
  -- zeros otherwise.
  pub generate_dashboard_metrics-process :
      (time_label : ℕ → String) (later : ℕ) (live_events : List LiveEvent) (e : Processed)
      (s : Store)
      → generate_dashboard_metrics time_label ms later live_events (process ms e s) ≡ (
          if leb (later - e.now) 120000
          then active_dashboard time_label ms later live_events (process ms e s)
          else generate_inactive_metrics time_label later)
  unfolding generate_dashboard_metrics
  generate_dashboard_metrics-process time_label later live_events e s =
      ap
        (λ b.
          if b
          then active_dashboard time_label ms later live_events (process ms e s)
          else generate_inactive_metrics time_label later)
        (is_system_active-process later e s)
