-- ===== src/Events/Request.antt =====
-- The `EventRequest` message: src/proto/events.proto and its generated interface, as src/main.ts has it
-- loaded, with the names of enum values.
use eventify.Common.{List, Option, String}
use eventify.Common.Number.{ℤ}

-- The name of a severity, or the number of one that has no name.
pub data Severity : Type 0 where
  named : String → Severity
  code : ℤ → Severity

pub record EventRequest : Type 0 where
  pub event_name : String
  pub payload : String
  pub timestamp : String
  pub tags : List String
  pub category : Option String
  pub severity : Option Severity
