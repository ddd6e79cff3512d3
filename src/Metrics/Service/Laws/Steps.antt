-- ===== src/Metrics/Service/Laws/Steps.antt =====
-- The service as a transition system: whatever happens, in whatever order.
use eventify.Common.{
  ℕ, ◌≤◌, ◌≡◌, refl, true, List, [], ◌∷◌, length, Option, none, some, String, arith, All,
  All-append, Bool-cases, Option-cases, inl, inr, map,
}
use eventify.Events.Request.{EventRequest}
use eventify.Gateway.{Gateway, Emitted, to_room, user_room, dashboard_data, emit, broadcast_metrics}
use eventify.Metrics.Dashboard.{MetricsDashboard}
use eventify.Metrics.Commands.{ParsedPayload, event_commands}
use eventify.Metrics.Volume.{execute_all}
use eventify.Metrics.Live.{
  LiveEvent, add_to_live_events, update_live_events_time_ago, with_time_ago,
}
use eventify.Metrics.Live.Laws.{length-add_to_live_events}
use eventify.Metrics.Service.{
  Service, Reading, Chance, process_event, on_interval, on_module_destroy,
  calculate_and_broadcast_dashboard_metrics,
}
use eventify.Metrics.Store.{MetricsStore}

-- A dashboard for a room of a user.
abbrev pub IsDashboard : Emitted MetricsDashboard → Type 0
IsDashboard m =
    (user_id : String) × (d : MetricsDashboard) × (m
      ≡ to_room (user_room user_id) (dashboard_data d))

-- At most fifty live events, and nothing emitted but dashboards for rooms of users.
abbrev pub IsSound : {Redis : Type 0} → Service Redis → Type 0
IsSound s = (length s.live_events ≤ 50) × All IsDashboard s.gateway.emitted

All-broadcast_metrics :
    (user_id : String) (d : MetricsDashboard) (g : Gateway MetricsDashboard)
    → All IsDashboard g.emitted
    → All IsDashboard (broadcast_metrics user_id d g).emitted
unfolding broadcast_metrics emit
All-broadcast_metrics user_id d g sent = elim (Bool-cases g.is_initialized) [
  | inl e ↦
      rw (broadcast_metrics, e) (All-append IsDashboard g.emitted _ sent ((user_id, d, refl), tt))
  | inr e ↦ rw (broadcast_metrics, e) sent
]

length-with_time_ago :
    (now : ℕ) (live : List LiveEvent) → length (map (with_time_ago now) live) ≡ length live
length-with_time_ago now [] = refl
length-with_time_ago now (e ∷ es) = omega (arith, length-with_time_ago now es)

module _ (r : Reading) (ms : MetricsStore) where
  open ms use {Store}

  -- An event, a round of the interval while it is set, or the end of the module.
  pub data Step : Service Store → Service Store → Type 0 where
    processed :
        (c : Chance) (user_id : String) (event : EventRequest) (s : Service Store)
        → Step s (process_event r ms c user_id event s).1
    round : (now : ℕ) (s : Service Store) → s.interval ≡ true → Step s (on_interval r ms now s)
    destroyed : (s : Service Store) → Step s (on_module_destroy r ms s)

  pub data Reaches : Service Store → Service Store → Type 0 where
    here : (s : Service Store) → Reaches s s
    later : (s t u : Service Store) → Step s t → Reaches t u → Reaches s u

  broadcast-IsSound :
      (now : ℕ) (user_id : Option String) (s : Service Store)
      → IsSound s
      → IsSound (calculate_and_broadcast_dashboard_metrics r ms now user_id s)
  unfolding calculate_and_broadcast_dashboard_metrics
  broadcast-IsSound now user_id s (few, sent) = (few, All-broadcast_metrics _ _ s.gateway sent)

  abbrev counted : Chance → EventRequest → ℕ → ParsedPayload → Service Store → Service Store
  counted c event event_time payload s = record s {
    redis = execute_all ms c.now (event_commands c.now event_time c.index event payload) s.redis;
    live_events = add_to_live_events c.now c.random event event_time payload s.live_events;
    last_activity_time = c.now;
  }

  processed-IsSound :
      (c : Chance) (user_id : String) (event : EventRequest) (s : Service Store)
      → IsSound s
      → IsSound (process_event r ms c user_id event s).1
  unfolding process_event
  processed-IsSound c user_id event s (few, sent) =
      elim (Option-cases (r.read_time event.timestamp)) [
        | inl e ↦ rw (process_event, e) (few, sent)
        | inr (event_time, e) ↦ elim (Option-cases (r.parse_payload event.payload)) [
          | inl f ↦ rw (process_event, e, f) (few, sent)
          | inr (payload, f) ↦
              rw (process_event, e, f)
                (broadcast-IsSound c.now (some user_id) (counted c event event_time payload s) (
                  length-add_to_live_events c.now c.random event event_time payload s.live_events
                      few,
                  sent,
                ))
        ]
      ]

  Step-IsSound : (s t : Service Store) → Step s t → IsSound s → IsSound t
  unfolding on_interval on_module_destroy update_live_events_time_ago
  Step-IsSound s _ (processed c user_id event _) sound = processed-IsSound c user_id event s sound
  Step-IsSound s _ (round now _ set) sound =
      let (few, sent) = broadcast-IsSound now none s sound in
      (omega (arith, few, length-with_time_ago now s.live_events), sent)
  Step-IsSound s _ (destroyed _) sound = elim (Bool-cases s.interval) [
    | inl e ↦ rw (on_module_destroy, e) sound
    | inr e ↦ rw (on_module_destroy, e) sound
  ]

  -- From a sound service, every sequence of steps leads to a sound one.
  pub Reaches-IsSound : (s t : Service Store) → Reaches s t → IsSound s → IsSound t
  Reaches-IsSound s _ (here _) sound = sound
  Reaches-IsSound s u (later _ t _ step rest) sound =
      Reaches-IsSound t u rest (Step-IsSound s t step sound)
