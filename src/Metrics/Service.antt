-- ===== src/Metrics/Service.antt =====
-- `MetricsAggregationService` of src/metrics/metrics-aggregation.service.ts: the events it processes,
-- its interval, and what it broadcasts. What `JSON.parse` and `new Date` read from a text is a
-- parameter; a time that is not one is none, and so is the payload `null`. Redis does not fail here.
pub mod Laws
use eventify.Common.{
  ℕ, Bool, true, false, List, ◌++◌, [], Option, none, some, String, str_eq, if◌then◌else◌,
}
use eventify.Common.Exec.{Outcome, ok, throw}
use eventify.Events.Request.{EventRequest}
use eventify.Gateway.{Gateway, broadcast_metrics}
use eventify.Metrics.Commands.{
  Command, ParsedPayload, event_commands, update_last_activity_time, update_volume_metrics,
  update_event_type_metrics, update_performance_metrics,
}
use eventify.Metrics.Dashboard.{MetricsDashboard, generate_dashboard_metrics}
use eventify.Metrics.Keys.{time_key, hour_key, day_key}
use eventify.Metrics.Live.{LiveEvent, add_to_live_events, update_live_events_time_ago}
use eventify.Metrics.Store.{MetricsStore}
use eventify.Metrics.Volume.{execute_all}

-- What the service reads from its surroundings: times and payloads as texts, and labels of times.
pub record Reading : Type 0 where
  pub read_time : String → Option ℕ
  pub parse_payload : String → Option ParsedPayload
  pub time_label : ℕ → String

-- The clock and the random choices of one call.
pub record Chance : Type 0 where
  pub now : ℕ
  pub index : ℕ
  pub random : String

pub record Service (Redis : Type 0) : Type 0 where
  pub redis : Redis
  pub live_events : List LiveEvent
  pub last_activity_time : ℕ
  pub interval : Bool
  pub gateway : Gateway MetricsDashboard

-- The commands of an event whose payload is `null`: the updates that read the payload throw before they
-- send any.
abbrev pub null_commands : ℕ → ℕ → EventRequest → List Command
null_commands now event_time event =
    let time = time_key now in
    update_last_activity_time now
    ++ (update_volume_metrics time (hour_key now) (day_key now) event
        ++ (update_event_type_metrics time event ++ update_performance_metrics time now event_time))

-- The room of an update: the user's, or `all` without one.
abbrev pub audience : Option String → String
audience none = "all"
audience (some user_id) = if str_eq user_id "" then "all" else user_id

module _ (r : Reading) (ms : MetricsStore) where
  open ms use {Store}

  unfoldable pub calculate_and_broadcast_dashboard_metrics :
      ℕ → Option String → Service Store → Service Store
  unfolding generate_dashboard_metrics
  calculate_and_broadcast_dashboard_metrics now user_id s = record s {
    gateway =
        broadcast_metrics (audience user_id)
          (generate_dashboard_metrics r.time_label ms now s.live_events s.redis) s.gateway;
  }

  -- What follows once the time of the event is known.
  abbrev pub process_at :
      Chance
      → String
      → EventRequest
      → ℕ
      → Option ParsedPayload
      → Service Store
      → Outcome String (Unit {0}) × Service Store
  process_at c user_id event event_time none s = (
    throw "TypeError",
    record s { redis = execute_all ms c.now (null_commands c.now event_time event) s.redis },
  )
  process_at c user_id event event_time (some payload) s = (
    ok tt,
    calculate_and_broadcast_dashboard_metrics c.now (some user_id) (record s {
      redis = execute_all ms c.now (event_commands c.now event_time c.index event payload) s.redis;
      live_events = add_to_live_events c.now c.random event event_time payload s.live_events;
    }),
  )

  unfoldable pub process_event :
      Chance → String → EventRequest → Service Store → Outcome String (Unit {0}) × Service Store
  unfolding calculate_and_broadcast_dashboard_metrics
  process_event c user_id event s =
      let started = record s { last_activity_time = c.now } in
      elim (r.read_time event.timestamp) [
        | none ↦ (ok tt, started)
        | some event_time ↦
            process_at c user_id event event_time (r.parse_payload event.payload) started
      ]

  -- One round of the interval.
  unfoldable pub on_interval : ℕ → Service Store → Service Store
  unfolding calculate_and_broadcast_dashboard_metrics
  on_interval now s =
      let after = calculate_and_broadcast_dashboard_metrics now none s in
      record after { live_events = update_live_events_time_ago now after.live_events }

  -- `startMetricsAggregation`, which the constructor calls.
  unfoldable pub start_metrics_aggregation : Service Store → Service Store
  start_metrics_aggregation s = record s { interval = true }

  unfoldable pub on_module_destroy : Service Store → Service Store
  on_module_destroy s = if s.interval then record s { interval = false } else s

  unfoldable pub test_metrics_aggregation : ℕ → String → Service Store → MetricsDashboard
  unfolding generate_dashboard_metrics
  test_metrics_aggregation now user_id s =
      generate_dashboard_metrics r.time_label ms now s.live_events s.redis
