-- ===== src/Metrics/Dashboard.antt =====
-- The dashboard: `generateDashboardMetrics`, `generateInactiveMetrics`, `generate24HourData` and
-- `isSystemActive` of src/metrics/metrics-aggregation.service.ts. All readings of the clock in one call
-- agree. The label of a time, `toLocaleTimeString`, is a parameter. Rates in percent are given in
-- hundredths.
pub mod Laws
pub mod Chart
use eventify.Common.{
  ℕ, zero, suc, ◌-◌, ◌*◌, ◌+◌, Bool, true, false, List, [], ◌∷◌, Option, none, some, String, str_eq,
  if◌then◌else◌, leb,
}
use eventify.Common.Dict
use eventify.Common.Number.{Number, pos, negsuc, gt_number, parse_digits}
use eventify.Metrics.Keys.{metric_key, hour_key}
use eventify.Metrics.Live.{LiveEvent}
use eventify.Metrics.Ranking.{
  Ranked, Distribution, process_top_events, process_event_distribution, process_geographic_data,
  process_device_data, process_referrer_data,
}
use eventify.Metrics.Rounding.{Share, nothing, calculate_percentage_change}
use eventify.Metrics.Store.{MetricsStore}
use eventify.Metrics.Window.{count_of, get_active_window_metrics, get_previous_window_metrics}

pub record PerformanceMetrics : Type 0 where
  pub avg_response_time : Number
  pub processing_rate : Number
  pub error_rate : ℕ
  pub uptime : ℕ

pub record VolumePoint : Type 0 where
  pub time : String
  pub events : Number

pub record MetricsDashboard : Type 0 where
  pub total_events : Number
  pub total_events_change : Number
  pub active_users : Number
  pub active_users_change : Number
  pub events_per_hour : Number
  pub events_per_hour_change : Number
  pub conversion_rate : Share
  pub conversion_rate_change : Number
  pub event_volume_data : List VolumePoint
  pub top_events : List Ranked
  pub event_distribution : List Distribution
  pub geographic_distribution : List Ranked
  pub device_types : List Ranked
  pub top_referrers : List Ranked
  pub performance_metrics : PerformanceMetrics
  pub live_events : List LiveEvent

abbrev pub inactive_threshold_minutes : ℕ
inactive_threshold_minutes = 2

abbrev pub hour : ℕ
hour = 60 * 60 * 1000

-- A count times 12; no count is negative.
abbrev pub twelvefold : Number → Number
twelvefold none = none
twelvefold (some (pos n)) = some (pos (n * 12))
twelvefold (some (negsuc n)) = some (negsuc (n * 12 + 11))

-- `Math.max(value, 1)`.
abbrev pub at_least_one : Number → Number
at_least_one none = none
at_least_one (some n) = if gt_number (some n) (some (pos 1)) then some n else some (pos 1)

module _ (ms : MetricsStore) where
  open ms use {Store, get}

  -- The stored time, if the key is there.
  unfoldable pub get_last_activity_time : ℕ → Store → Option ℕ
  get_last_activity_time now s = elim (get now "metrics:last_activity" s) [
    | none ↦ none
    | some text ↦ if str_eq text "" then none else parse_digits text
  ]

  -- The difference in minutes is a fraction: at most 2 minutes are at most 120,000 milliseconds.
  abbrev pub active_since : ℕ → Option ℕ → Bool
  active_since now none = false
  active_since now (some last_activity) =
      leb (now - last_activity) (inactive_threshold_minutes * (1000 * 60))

  unfoldable pub is_system_active : ℕ → Store → Bool
  unfolding get_last_activity_time
  is_system_active now s = active_since now (get_last_activity_time now s)

module _ (time_label : ℕ → String) where
  -- The points of the last 24 hours without events: the first argument counts those that are left.
  unfoldable pub zero_points : ℕ → ℕ → List VolumePoint
  zero_points zero now = []
  zero_points (suc i) now =
      record { time = time_label (now - i * hour); events = some (pos 0) } ∷ zero_points i now

  unfoldable pub generate_inactive_metrics : ℕ → MetricsDashboard
  unfolding zero_points
  generate_inactive_metrics now = record {
    total_events = some (pos 0);
    total_events_change = some (pos 0);
    active_users = some (pos 0);
    active_users_change = some (pos 0);
    events_per_hour = some (pos 0);
    events_per_hour_change = some (pos 0);
    conversion_rate = nothing;
    conversion_rate_change = some (pos 0);
    event_volume_data = zero_points 24 now;
    top_events = [];
    event_distribution = [];
    geographic_distribution = [];
    device_types = [];
    top_referrers = [];
    performance_metrics = record {
      avg_response_time = some (pos 0);
      processing_rate = some (pos 0);
      error_rate = 0;
      uptime = 9998;
    };
    live_events = [];
  }

  module _ (ms : MetricsStore) where
    open ms use {Store, hgetall}

    -- The hours from `i` on, oldest first: the first argument counts those that are left.
    unfoldable pub hour_points : ℕ → ℕ → Store → List VolumePoint
    hour_points zero now s = []
    hour_points (suc i) now s =
        let time = now - i * hour in
        record {
          time = time_label time;
          events =
              count_of (
                Dict.get "total_events" (hgetall now (metric_key "volume:hour" (hour_key time)) s));
        }
        ∷ hour_points i now s

    unfoldable pub generate_24_hour_data : ℕ → Store → List VolumePoint
    unfolding hour_points
    generate_24_hour_data now s = hour_points 24 now s

    unfoldable pub active_dashboard : ℕ → List LiveEvent → Store → MetricsDashboard
    unfolding generate_24_hour_data
    active_dashboard now live_events s =
        let active = get_active_window_metrics ms now s in
        let previous = get_previous_window_metrics ms now s in
        let total_events_change =
          calculate_percentage_change active.total_events previous.total_events in
        record {
          total_events = active.total_events;
          total_events_change = total_events_change;
          active_users = some (pos active.active_users);
          active_users_change =
              calculate_percentage_change (some (pos active.active_users))
                (some (pos previous.active_users));
          events_per_hour = twelvefold active.total_events;
          events_per_hour_change = total_events_change;
          conversion_rate = active.conversion_rate;
          conversion_rate_change = some (pos 0);
          event_volume_data = generate_24_hour_data now s;
          top_events = process_top_events active.event_types;
          event_distribution = process_event_distribution active.event_types active.total_events;
          geographic_distribution = process_geographic_data active.countries;
          device_types = process_device_data active.devices;
          top_referrers = process_referrer_data active.referrers;
          performance_metrics = record {
            avg_response_time = active.avg_response_time;
            processing_rate = at_least_one (twelvefold active.total_events);
            error_rate = 2;
            uptime = 9998;
          };
          live_events = live_events;
        }

    unfoldable pub generate_dashboard_metrics : ℕ → List LiveEvent → Store → MetricsDashboard
    unfolding is_system_active generate_inactive_metrics active_dashboard
    generate_dashboard_metrics now live_events s =
        if is_system_active ms now s
        then active_dashboard now live_events s
        else generate_inactive_metrics now
