-- ===== src/Server/Health.antt =====
-- src/health/health.service.ts and the two routes of its controller. What a ping of Redis and the
-- readings of the process give, or throw, are arguments; the uptime is in milliseconds.
use eventify.Common.{
  ℕ, ◌+◌, ◌*◌, ◌/◌, ◌≡◌, ◌↔◌, ◌⊎◌, refl, ap, arith, Bool, true, false, ◌||◌, Option, none, some,
  String, str_eq, if◌then◌else◌, inl, inr,
}
use eventify.Common.Exec.{Outcome, ok, throw}

pub record Reading : Type 0 where
  pub rss : ℕ
  pub heap_total : ℕ
  pub heap_used : ℕ
  pub uptime : ℕ

-- Megabytes and seconds, as they are printed with their unit.
pub record Details : Type 0 where
  pub rss : ℕ
  pub heap_total : ℕ
  pub heap_used : ℕ
  pub uptime : ℕ

pub record Service : Type 0 where
  pub status : String
  pub message : String
  pub error : Option String
  pub details : Option Details

pub record Health : Type 0 where
  pub status : String
  pub database : Service
  pub redis : Service
  pub system : Service

-- The answer of the simple route, with the time in milliseconds for its ISO text.
pub record SimpleHealth : Type 0 where
  pub status : String
  pub timestamp : ℕ
  pub uptime : ℕ
  pub service : String
  pub version : String

abbrev simple_health : ℕ → ℕ → SimpleHealth
simple_health now uptime = record {
  status = "ok";
  timestamp = now;
  uptime = uptime;
  service = "eventify";
  version = "1.0.0";
}

-- `Math.round(bytes / 1024 / 1024)`.
abbrev pub megabytes : ℕ → ℕ
megabytes bytes = (2 * bytes + 1024 * 1024) / (2 * (1024 * 1024))

abbrev pub up : String → Option Details → Service
up message details = record { status = "ok"; message = message; error = none; details = details }

abbrev pub down : String → String → Service
down message text = record {
  status = "error";
  message = message;
  error = some text;
  details = none;
}

-- A mock in the source, too.
unfoldable pub check_database : Service
check_database = up "Database connection is healthy" none

unfoldable pub check_redis : Outcome String (Unit {0}) → Service
check_redis (ok _) = up "Redis connection is healthy" none
check_redis (throw text) = down "Redis connection failed" text

unfoldable pub check_system : Outcome String Reading → Service
check_system (ok r) = up "System resources are healthy" (
    some (record {
      rss = megabytes r.rss;
      heap_total = megabytes r.heap_total;
      heap_used = megabytes r.heap_used;
      uptime = (r.uptime + 500) / 1000;
    }))
check_system (throw text) = down "System check failed" text

abbrev pub is_down : Service → Bool
is_down s = str_eq s.status "error"

unfoldable pub check_health : Outcome String (Unit {0}) → Outcome String Reading → Health
unfolding check_database check_redis check_system
check_health ping reading =
    let redis = check_redis ping in
    let system = check_system reading in
    record {
      status = if is_down check_database || is_down redis || is_down system then "error" else "ok";
      database = check_database;
      redis = redis;
      system = system;
    }

-- Something that threw.
abbrev pub Failed : {A : Type 0} → Outcome String A → Type 0
Failed (ok a) = ⊥
Failed (throw m) = Unit {0}

-- The health is an error exactly if the ping of Redis or a reading of the process failed; the database
-- makes no difference.
pub check_health_iff :
    (ping : Outcome String (Unit {0})) (reading : Outcome String Reading)
    → ((check_health ping reading).status ≡ "error") ↔ (Failed ping ⊎ Failed reading)
unfolding check_health
check_health_iff (ok _) (ok r) = (
  λ h. let x : false ≡ true = ap (λ t. str_eq t "error") h in absurd (ground arith),
  λ h. elim h [ inl x ↦ absurd x | inr x ↦ absurd x ],
)
check_health_iff (throw m) reading = (λ h. inl tt, λ h. refl)
check_health_iff (ok _) (throw m) = (λ h. inr tt, λ h. refl)
