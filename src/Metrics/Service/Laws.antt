-- ===== src/Metrics/Service/Laws.antt =====
-- What an event does to the service, and what holds of it however long it runs.
pub mod Steps
pub mod Interval
use eventify.Common.{
  ℕ, ◌+◌, ◌-◌, ◌*◌, ◌≤◌, ◌≡◌, refl, sym, ap, ◌∙◌, Bool, true, false, List, [], ◌∷◌, ◌++◌, take,
  length, Option, none, some, String, str_eq, if◌then◌else◌, arith, leb, All, All-append,
  Bool-cases, inl, inr,
}
use eventify.Common.Exec.{Outcome, ok, throw}
use eventify.Events.Request.{EventRequest}
use eventify.Gateway.{Gateway, emit, to_room, user_room, dashboard_data, broadcast_metrics}
use eventify.Metrics.Commands.{
  Command, ParsedPayload, event_commands, update_last_activity_time, update_event_type_metrics,
  update_performance_metrics, update_volume_metrics,
}
use eventify.Metrics.Dashboard.{
  MetricsDashboard, active_dashboard, generate_dashboard_metrics, generate_inactive_metrics,
}
use eventify.Metrics.Dashboard.Laws.{generate_dashboard_metrics-process}
use eventify.Metrics.Live.{LiveEvent, live_event, add_to_live_events}
use eventify.Metrics.Live.Laws.{add_to_live_events-take}
use eventify.Metrics.Service.{
  Service, Reading, Chance, audience, process_event, null_commands,
  calculate_and_broadcast_dashboard_metrics,
}
use eventify.Metrics.Store.{MetricsStore}
use eventify.Metrics.Keys.{time_key}
use eventify.Metrics.Volume.Minute.{view-volume_first_whole}
use eventify.Metrics.Volume.Untouched.{AllOther-unread, metric_key-IsOf}
use eventify.Metrics.Volume.{Processed, process, execute_all, volume_key}

pub broadcast_metrics_lem :
    (user_id : String) (d : MetricsDashboard) (g : Gateway MetricsDashboard)
    → g.is_initialized ≡ true
    → broadcast_metrics user_id d g ≡ emit (to_room (user_room user_id) (dashboard_data d)) g
unfolding broadcast_metrics
broadcast_metrics_lem user_id d g h =
    ap (λ b. if b then emit (to_room (user_room user_id) (dashboard_data d)) g else g) h

module _ (r : Reading) (ms : MetricsStore) where
  open ms use {Store, view}

  module _ (c : Chance) (user_id : String) (event : EventRequest) (event_time : ℕ)
      (s : Service Store) (readable : r.read_time event.timestamp ≡ some event_time) where
    -- The event as the history knows it.
    abbrev pub recorded : ParsedPayload → Processed
    recorded payload = record {
      now = c.now;
      event_time = event_time;
      index = c.index;
      event = event;
      payload = payload;
    }

    module _ (payload : ParsedPayload) (parsed : r.parse_payload event.payload ≡ some payload) where
      counted : Store
      counted = process ms (recorded payload) s.redis

      shown : List LiveEvent → Gateway MetricsDashboard → Outcome String (Unit {0}) × Service Store
      shown live gateway = (
        ok tt,
        record {
          redis = counted;
          live_events = live;
          last_activity_time = c.now;
          interval = s.interval;
          gateway = gateway;
        },
      )

      added : List LiveEvent
      added = add_to_live_events c.now c.random event event_time payload s.live_events

      process_event_steps :
          process_event r ms c user_id event s
          ≡ shown added (
              broadcast_metrics
                (audience (some user_id))
                (generate_dashboard_metrics r.time_label ms c.now added counted)
                s.gateway)
      unfolding process_event calculate_and_broadcast_dashboard_metrics process shown counted added
      process_event_steps = rw (process_event, readable, parsed) refl

      dashboard_counted :
          (live : List LiveEvent)
          → generate_dashboard_metrics r.time_label ms c.now live counted
            ≡ active_dashboard r.time_label ms c.now live counted
      unfolding counted
      dashboard_counted live =
          generate_dashboard_metrics-process ms r.time_label c.now live (recorded payload) s.redis
          ∙ ap
              (λ b.
                if b
                then active_dashboard r.time_label ms c.now live counted
                else generate_inactive_metrics r.time_label c.now)
              {x = leb (c.now - c.now) 120000} {y = true} (ground arith)

      -- An event with a readable time and a payload, of a user with a name, while the gateway is
      -- initialised and at most fifty live events are there: it is counted, goes in front of the live
      -- events, of which fifty are kept, and the user's room gets a dashboard of the windows over the
      -- new counts.
      pub process_event_lem :
          length s.live_events ≤ 50
          → s.gateway.is_initialized ≡ true
          → str_eq user_id "" ≡ false
          → let live = live_event c.now c.random event event_time payload ∷ take 49 s.live_events in
            let redis = process ms (recorded payload) s.redis in
            process_event r ms c user_id event s ≡ (
              ok tt,
              record {
                redis = redis;
                live_events = live;
                last_activity_time = c.now;
                interval = s.interval;
                gateway =
                    emit
                      (to_room
                        (user_room user_id)
                        (dashboard_data (active_dashboard r.time_label ms c.now live redis)))
                      s.gateway;
              },
            )
      unfolding shown counted added
      process_event_lem few initialised named =
          let live = live_event c.now c.random event event_time payload ∷ take 49 s.live_events in
          process_event_steps
          ∙ ap
              (λ l. shown l (
                broadcast_metrics (audience (some user_id))
                  (generate_dashboard_metrics r.time_label ms c.now l counted) s.gateway))
              (add_to_live_events-take c.now c.random event event_time payload s.live_events few)
          ∙ ap (λ d. shown live (broadcast_metrics (audience (some user_id)) d s.gateway))
              (dashboard_counted live)
          ∙ ap (shown live) (
              broadcast_metrics_lem _ _ _ initialised
              ∙ ap
                  (λ u.
                    emit
                      (to_room (user_room u)
                        (dashboard_data (active_dashboard r.time_label ms c.now live counted)))
                      s.gateway)
                  (rw named refl))

    -- An event with a readable time whose payload is `null` fails, and yet it is counted: every minute
    -- holds what it would hold after an event with a payload. The live events and what was broadcast
    -- stay as they were.
    pub process_event_null :
        r.parse_payload event.payload ≡ none
        → let result = process_event r ms c user_id event s in
          (result.0 ≡ throw "TypeError")
          × (result.1.live_events ≡ s.live_events)
          × (result.1.gateway ≡ s.gateway)
          × ((m : ℕ) (payload : ParsedPayload)
              → view (volume_key m) result.1.redis
                ≡ view (volume_key m) (process ms (recorded payload) s.redis))
    unfolding process_event
    process_event_null unread =
        rw (process_event, readable, unread)
          (
            refl,
            refl,
            refl,
            λ m payload.
                view-volume_first_whole ms m (recorded payload) s.redis
                  (update_event_type_metrics (time_key c.now) event
                    ++ update_performance_metrics (time_key c.now) c.now event_time)
                  (AllOther-unread "volume" (volume_key m) (metric_key-IsOf "volume" m) c.now
                    event_time 0 event (recorded payload).payload refl refl),
          )
