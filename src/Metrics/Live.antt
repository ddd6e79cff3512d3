-- ===== src/Metrics/Live.antt =====
-- The buffer of live events: `addToLiveEvents`, `updateLiveEventsTimeAgo` and `getTimeAgo` of
-- src/metrics/metrics-aggregation.service.ts. Times are milliseconds; the random number of an id is
-- given as its text. A time in the future is 'just now' in the source as well, whose difference is
-- then negative.
pub mod Laws
use eventify.Common.{ℕ, ◌-◌, ◌/◌, List, [], ◌∷◌, length, map, String, if◌then◌else◌, ltb}
use eventify.Common.Number.{decimal}
use eventify.Events.Request.{EventRequest}
use eventify.Metrics.Commands.{ParsedPayload, or_else}
use eventify.Metrics.Keys.{join}

pub record LiveEvent : Type 0 where
  pub id : String
  pub event_name : String
  pub user_id : String
  pub country : String
  pub device : String
  pub timestamp : ℕ
  pub time_ago : String

unfoldable pub get_time_ago : ℕ → ℕ → String
get_time_ago now date =
    let diff_in_minutes = (now - date) / 60000 in
    let diff_in_hours = diff_in_minutes / 60 in
    if ltb diff_in_minutes 1
    then "just now"
    else if ltb diff_in_minutes 60
    then join (decimal diff_in_minutes) "m ago"
    else if ltb diff_in_hours 24
    then join (decimal diff_in_hours) "h ago"
    else join (decimal (diff_in_hours / 24)) "d ago"

-- `Array.prototype.pop`, whose result is not used.
abbrev pub pop : {A : Type 0} → List A → List A
pop [] = []
pop (x ∷ []) = []
pop (x ∷ y ∷ ys) = x ∷ pop (y ∷ ys)

unfoldable pub live_event : ℕ → String → EventRequest → ℕ → ParsedPayload → LiveEvent
unfolding get_time_ago
live_event now random event event_time payload = record {
  id = join (decimal now) (join "_" random);
  event_name = event.event_name;
  user_id = or_else payload.user_id "anonymous";
  country = or_else payload.country "US";
  device = or_else payload.device "web";
  timestamp = event_time;
  time_ago = get_time_ago now event_time;
}

unfoldable pub add_to_live_events :
    ℕ → String → EventRequest → ℕ → ParsedPayload → List LiveEvent → List LiveEvent
unfolding live_event
add_to_live_events now random event event_time payload buffer =
    let added = live_event now random event event_time payload ∷ buffer in
    if ltb 50 (length added) then pop added else added

abbrev pub with_time_ago : ℕ → LiveEvent → LiveEvent
with_time_ago now e = record e { time_ago = get_time_ago now e.timestamp }

unfoldable pub update_live_events_time_ago : ℕ → List LiveEvent → List LiveEvent
unfolding get_time_ago
update_live_events_time_ago now buffer = map (with_time_ago now) buffer
