-- ===== src/Metrics/Volume.antt =====
-- The counts of events by minute, over a history of processed events.
pub mod Untouched
pub mod Counting
pub mod Minute
pub mod Hour
pub mod History
use eventify.Common.{
  ℕ, suc, ◌+◌, ◌*◌, ◌/◌, ◌≤◌, ◌≡◌, List, [], ◌∷◌, Option, none, some, String, ◌==◌, if◌then◌else◌,
  str_eq, false,
}
use eventify.Common.Number.{decimal}
use eventify.Events.Request.{EventRequest}
use eventify.Metrics.Keys.{metric_key}
use eventify.Metrics.Commands.{Command, ParsedPayload, event_commands}
use eventify.Metrics.Store.{MetricsStore}

-- A call of `processEvent` for an event with a readable time: the time of the call, the event's own,
-- the index of the random country, the event and its payload.
pub record Processed : Type 0 where
  pub now : ℕ
  pub event_time : ℕ
  pub index : ℕ
  pub event : EventRequest
  pub payload : ParsedPayload

abbrev pub minute_of : ℕ → ℕ
minute_of now = now / (1000 * 60)

abbrev pub volume_key : ℕ → String
volume_key m = metric_key "volume" (decimal m)

module _ (ms : MetricsStore) where
  open ms use {Store, execute}

  unfoldable pub execute_all : ℕ → List Command → Store → Store
  execute_all now [] s = s
  execute_all now (c ∷ cs) s = execute_all now cs (execute now c s)

  unfoldable pub process : Processed → Store → Store
  unfolding execute_all
  process e s = execute_all e.now (event_commands e.now e.event_time e.index e.event e.payload) s

  unfoldable pub process_all : List Processed → Store → Store
  process_all [] s = s
  process_all (e ∷ es) s = process_all es (process e s)
