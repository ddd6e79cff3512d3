-- ===== src/Metrics/Debug.antt =====
-- src/metrics/metrics-aggregation.processor.ts and src/metrics/metrics-debug.controller.ts: the two callers
-- of `processEvent`. `JSON.stringify` and `toISOString` are parameters.
use eventify.Common.{ℕ, [], ◌∷◌, Option, none, some, String}
use eventify.Common.Exec.{Outcome, ok, throw}
use eventify.Common.Number.{pos}
use eventify.Events.Request.{EventRequest, code}
use eventify.Events.Service.{OwnedEvent}
use eventify.Metrics.Commands.{ParsedPayload, or_else}
use eventify.Metrics.Service.{Service, Reading, Chance, process_event}
use eventify.Metrics.Store.{MetricsStore}

-- What a spread object puts in place of a default.
abbrev pub instead : Option String → String → Option String
instead none default_value = some default_value
instead (some v) default_value = some v

-- The payload of a simulated event without its address, which nothing reads.
abbrev pub mock_payload : String → ParsedPayload → ParsedPayload
mock_payload user_id given = record {
  user_id = instead given.user_id user_id;
  session_id = instead given.session_id "test-session-123";
  country = instead given.country "United States";
  device = instead given.device "web";
  referrer = instead given.referrer "google.com";
}

module _ (r : Reading) (ms : MetricsStore) where
  open ms use {Store}

  -- `process`, of one job.
  unfoldable pub process_job :
      Chance → OwnedEvent → Service Store → Outcome String (Unit {0}) × Service Store
  unfolding process_event
  process_job c job s = process_event r ms c job.owner_id job.event s

  module _ (stringify : ParsedPayload → String) (to_iso : ℕ → String) where
    unfoldable pub mock_event : ℕ → String → Option String → ParsedPayload → EventRequest
    mock_event now user_id event_name given = record {
      event_name = or_else event_name "test_event";
      payload = stringify (mock_payload user_id given);
      timestamp = to_iso now;
      tags = "test" ∷ [];
      category = some "test";
      severity = some (code (pos 1));
    }

    abbrev pub simulated :
        EventRequest
        → Outcome String (Unit {0}) × Service Store
        → Outcome String EventRequest × Service Store
    simulated event (ok _, s) = (ok event, s)
    simulated event (throw m, s) = (throw m, s)

    unfoldable pub simulate_event :
        Chance
        → String
        → Option String
        → ParsedPayload
        → Service Store
        → Outcome String EventRequest × Service Store
    unfolding mock_event process_event
    simulate_event c user_id event_name given s =
        let event = mock_event c.now user_id event_name given in
        simulated event (process_event r ms c user_id event s)
