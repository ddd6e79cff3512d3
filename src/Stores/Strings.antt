-- ===== src/Stores/Strings.antt =====
-- The string commands of Redis, with expiry. Times are milliseconds; `setex` takes seconds. A value
-- is read while its time to live has not run out.
use eventify.Common.{ℕ, ◌+◌, ◌*◌, ◌≤◌, ◌≡◌, Option, none, some, String, str_eq, if◌then◌else◌, ltb}

pub record Strings : Type 1 where
  pub Store : Type 0
  pub get : ℕ → String → Store → Option String
  pub set : String → String → Store → Store
  pub setex : ℕ → String → ℕ → String → Store → Store
  pub del : String → Store → Store
  pub get-set :
      (now : ℕ) (k j v : String) (s : Store)
      → get now j (set k v s) ≡ (if str_eq k j then some v else get now j s)
  pub get-setex :
      (t now : ℕ) (k j v : String) (seconds : ℕ) (s : Store)
      → t ≤ now
      → get now j (setex t k seconds v s) ≡ (
          if str_eq k j
          then (if ltb now (t + seconds * 1000) then some v else none)
          else get now j s)
  pub get-del :
      (now : ℕ) (k j : String) (s : Store)
      → get now j (del k s) ≡ (if str_eq k j then none else get now j s)
