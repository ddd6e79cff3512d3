-- ===== src/Metrics/Tests.antt =====
-- Rankings of a few counts, and a small history on a store in memory.
use eventify.Common.{
  ℕ, ◌-◌, ◌≤◌, ◌≡◌, refl, [], ◌∷◌, ◌++◌, List, String, str_eq, map, length, ltb, none, some, true,
  leb, if◌then◌else◌, arith,
}
use eventify.Common.Exec.{ok, throw}
use eventify.Common.Dict
use eventify.Common.Number.{pos}
use eventify.Events.Request.{EventRequest}
use eventify.Iam.Platform.Plain.{plain}
use eventify.Gateway.Rooms
use eventify.Gateway.Rooms.{NobodyIn}
use eventify.Gateway.{Gateway, disconnect, emit, to_room, user_room, dashboard_data}
use eventify.Metrics.Commands.{ParsedPayload}
use eventify.Metrics.Volume.Hour.{hour_of}
use eventify.Metrics.Dashboard.Chart.{events_of, zeros, generate_24_hour_data_lem}
use eventify.Metrics.Dashboard.{
  MetricsDashboard, generate_24_hour_data, active_dashboard, generate_dashboard_metrics,
  generate_inactive_metrics,
}
use eventify.Metrics.Dashboard.Laws.{generate_dashboard_metrics-process}
use eventify.Metrics.Live.{live_event}
use eventify.Metrics.Service.{Service, Reading, Chance, process_event, on_interval}
use eventify.Metrics.Service.Laws.{process_event_lem, process_event_null}
use eventify.Metrics.Service.Laws.Interval.{on_interval-NobodyIn}
use eventify.Metrics.Service.Laws.Steps.{IsSound, Reaches-IsSound, processed, here, later}
use eventify.Metrics.Store.Memory.{Memory, Entry, empty}
use eventify.Metrics.Tables.Families.{
  event_type_of, country_of, device_of, referrer_of, conversion_of,
}
use eventify.Metrics.Tables.History.{happened}
use eventify.Metrics.Merge.{is_inherited}
use eventify.Metrics.Rounding.{Share, share}
use eventify.Metrics.Window.Sums.{converted}
use eventify.Metrics.Window.Conversions.{get_active_window_metrics-conversion_rate}
use eventify.Metrics.Window.Users.{IsUnique, get_active_window_metrics-active_users}
use eventify.Metrics.Tables.Families.Users.{user_of}
use eventify.Metrics.Store.{is_member}
use eventify.Metrics.Window.Tables.{get_active_window_metrics-tables}
use eventify.Metrics.Volume.{Processed, minute_of, volume_key, process, process_all}
use eventify.Metrics.Volume.History.{Counts, total_between}
use eventify.Metrics.Window.{get_active_window_metrics, get_previous_window_metrics}
use eventify.Metrics.Window.Laws.{
  get_active_window_metrics-total_events, get_previous_window_metrics-total_events,
}

abbrev counts : List (String × String)
counts = ("web", "3") ∷ ("mobile", "12") ∷ ("total_events", "15") ∷ []

abbrev click : EventRequest
click = record {
  event_name = "click";
  payload = "{}";
  timestamp = "0";
  tags = [];
  category = none;
  severity = none;
}

abbrev unnamed : ParsedPayload
unnamed = record {
  user_id = none;
  session_id = none;
  country = none;
  device = none;
  referrer = none;
}

abbrev at : ℕ → Processed
at now = record { now = now; event_time = now; index = 0; event = click; payload = unnamed }

-- Two clicks in the tenth minute, one in the fifth and one in the second.
abbrev history : List Processed
history = at 120000 ∷ at 300000 ∷ at 600000 ∷ at 601000 ∷ []

get_active_window_metrics-total_events_example :
    (get_active_window_metrics Memory 660000 (process_all Memory history empty)).total_events
    ≡ some (pos (total_between minute_of 7 (minute_of 660000) history))
get_active_window_metrics-total_events_example =
    get_active_window_metrics-total_events Memory 660000 history empty (λ m. refl) 7 refl

get_active_window_metrics-tables_example :
    let window = get_active_window_metrics Memory 660000 (process_all Memory history empty) in
    Counts (Dict.get "click" window.event_types) (happened event_type_of "click" 7 11 history)
    × Counts (Dict.get "click" window.countries) (happened country_of "click" 7 11 history)
    × Counts (Dict.get "click" window.devices) (happened device_of "click" 7 11 history)
    × Counts (Dict.get "click" window.referrers) (happened referrer_of "click" 7 11 history)
    × Counts (Dict.get "click" window.conversions) (happened conversion_of "click" 7 11 history)
unfolding is_inherited
get_active_window_metrics-tables_example =
    get_active_window_metrics-tables Memory 660000 history empty (λ family m. refl) 7 refl "click"
      refl

get_active_window_metrics-active_users_example :
    (members : List String) × IsUnique members
    × ((user : String) → is_member user members ≡ ltb 0 (happened user_of user 7 11 history))
    × ((get_active_window_metrics Memory 660000 (process_all Memory history empty)).active_users
        ≡ length members)
get_active_window_metrics-active_users_example =
    get_active_window_metrics-active_users Memory 660000 history empty (λ m. refl) 7 refl

-- The history and a signup in the tenth minute.
abbrev with_signup : List Processed
with_signup = history ++ record (at 610000) { event = record click { event_name = "signup" } } ∷ []

get_active_window_metrics-conversion_rate_example :
    (get_active_window_metrics Memory 660000 (process_all Memory with_signup empty)).conversion_rate
    ≡ (if ltb 0 (total_between minute_of 7 11 with_signup)
        then share
            (some (pos (converted 7 11 with_signup)))
            (some (pos (total_between minute_of 7 11 with_signup)))
        else Share.nothing)
get_active_window_metrics-conversion_rate_example =
    get_active_window_metrics-conversion_rate Memory 660000 with_signup empty (λ family m. refl) 7
      refl

get_previous_window_metrics-total_events_example :
    (n : ℕ) × ((get_previous_window_metrics Memory 660000
        (process_all Memory history empty)).total_events
      ≡ some (pos n))
    × (total_between minute_of 5 6 history ≤ n)
    × (n ≤ total_between minute_of 4 6 history)
get_previous_window_metrics-total_events_example =
    get_previous_window_metrics-total_events Memory 660000 history empty (λ m. refl) 2 refl

generate_24_hour_data_lem_example :
    (n : ℕ) × (n ≤ total_between hour_of 22 22 history)
    × (map events_of
          (generate_24_hour_data (λ t. "") Memory 82800000 (process_all Memory history empty))
        ≡ zeros 22 ++ some (pos n) ∷ some (pos (total_between hour_of 23 23 history)) ∷ [])
generate_24_hour_data_lem_example =
    generate_24_hour_data_lem (λ t. "") Memory 82800000 history empty (λ h. refl) 0 refl

generate_dashboard_metrics-process_example :
    generate_dashboard_metrics (λ t. "") Memory 700000 [] (process Memory (at 600000) empty) ≡ (
      if leb (700000 - 600000) 120000
      then active_dashboard (λ t. "") Memory 700000 [] (process Memory (at 600000) empty)
      else generate_inactive_metrics (λ t. "") 700000)
generate_dashboard_metrics-process_example =
    generate_dashboard_metrics-process Memory (λ t. "") 700000 [] (at 600000) empty

abbrev reading : Reading
reading = record {
  read_time = λ t. some 0;
  parse_payload = λ t. if str_eq t "null" then none else some unnamed;
  time_label = λ t. "";
}

abbrev chance : Chance
chance = record { now = 600000; index = 0; random = "0.5" }

abbrev service : Service (String → Entry)
service = record {
  redis = empty;
  live_events = [];
  last_activity_time = 0;
  interval = true;
  gateway = record {
    connected_clients = [];
    users = [];
    rooms = [];
    is_initialized = true;
    emitted = [];
  };
}

process_event_lem_example :
    let live = live_event 600000 "0.5" click 0 unnamed ∷ [] in
    let redis = process Memory (record (at 600000) { event_time = 0 }) empty in
    process_event reading Memory chance "ann" click service ≡ (
      ok tt,
      record {
        redis = redis;
        live_events = live;
        last_activity_time = 600000;
        interval = true;
        gateway =
            emit
              (to_room
                (user_room "ann")
                (dashboard_data (active_dashboard (λ t. "") Memory 600000 live redis)))
              service.gateway;
      },
    )
process_event_lem_example =
    process_event_lem reading Memory chance "ann" click 0 service refl unnamed refl (omega arith)
      refl refl

abbrev nothing : EventRequest
nothing = record click { payload = "null" }

process_event_null_example :
    let result = process_event reading Memory chance "ann" nothing service in
    (result.0 ≡ throw "TypeError")
    × (result.1.live_events ≡ [])
    × (result.1.gateway ≡ service.gateway)
    × ((m : ℕ) (payload : ParsedPayload)
        → Memory.view (volume_key m) result.1.redis
          ≡ Memory.view (volume_key m) (
              process Memory
                (record {
                  now = 600000;
                  event_time = 0;
                  index = 0;
                  event = nothing;
                  payload = payload;
                })
                empty))
process_event_null_example =
    process_event_null reading Memory chance "ann" nothing 0 service refl refl

Reaches-IsSound_example : IsSound (process_event reading Memory chance "ann" click service).1
Reaches-IsSound_example =
    Reaches-IsSound reading Memory service
      (process_event reading Memory chance "ann" click service).1
      (later service (process_event reading Memory chance "ann" click service).1
        (process_event reading Memory chance "ann" click service).1
        (processed chance "ann" click service)
        (here (process_event reading Memory chance "ann" click service).1))
      (omega arith, tt)

-- A socket has gone before the round.
abbrev quiet : Gateway MetricsDashboard
quiet = disconnect "s1" service.gateway

on_interval-NobodyIn_example :
    let s = record service { gateway = quiet } in
    ((on_interval reading Memory 600000 s).gateway
      ≡ emit
          (to_room
            (user_room "all")
            (dashboard_data (generate_dashboard_metrics (λ t. "") Memory 600000 [] empty)))
          quiet)
    × NobodyIn (on_interval reading Memory 600000 s).gateway
unfolding disconnect
on_interval-NobodyIn_example =
    on_interval-NobodyIn reading Memory plain 600000 service.gateway
      (record service { gateway = quiet }) tt
      (Rooms.Reaches.later service.gateway quiet quiet
        (Rooms.Step.disconnected "s1" service.gateway) (Rooms.Reaches.here quiet))
      refl
