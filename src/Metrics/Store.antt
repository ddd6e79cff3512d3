-- ===== src/Metrics/Store.antt =====
-- What the metrics use of Redis: commands, with keys that expire. A hash is seen as its fields and
-- the time at which it expires, if any; what has expired is as if it were not there.
pub mod Memory
use eventify.Common.{
  ℕ, suc, ◌+◌, ◌*◌, ◌≡◌, Bool, true, false, ◌||◌, List, [], ◌∷◌, Option, none, some, String, str_eq,
  if◌then◌else◌, ltb,
}
use eventify.Common.Dict
use eventify.Common.Number.{decimal, parse_digits}
use eventify.Metrics.Commands.{Command, hincrby, expire, sadd, lpush, ltrim, setex}

pub record Hash : Type 0 where
  pub fields : List (String × String)
  pub deadline : Option ℕ

abbrev pub is_live : ℕ → Option ℕ → Bool
is_live now none = true
is_live now (some d) = ltb now d

abbrev pub visible : ℕ → Hash → List (String × String)
visible now h = if is_live now h.deadline then h.fields else []

-- A set is seen as its members and the time at which it expires.
pub record Roster : Type 0 where
  pub members : List String
  pub deadline : Option ℕ

abbrev pub present : ℕ → Roster → List String
present now r = if is_live now r.deadline then r.members else []

abbrev pub is_member : String → List String → Bool
is_member x [] = false
is_member x (y ∷ ys) = if str_eq x y then true else is_member x ys

abbrev bumped : Option ℕ → ℕ
bumped none = 1
bumped (some n) = suc n

-- A count in decimal, one higher; a field that is not there counts from 0.
abbrev pub next_count : Option String → String
next_count none = decimal 1
next_count (some t) = decimal (bumped (parse_digits t))

abbrev pub is_nil : List (String × String) → Bool
is_nil [] = true
is_nil (x ∷ xs) = false

abbrev pub target : Command → String
target (hincrby k f) = k
target (expire k n) = k
target (sadd k v) = k
target (lpush k v) = k
target (ltrim k a b) = k
target (setex k n v) = k

pub record MetricsStore : Type 1 where
  pub Store : Type 0
  pub view : String → Store → Hash
  pub execute : ℕ → Command → Store → Store
  pub hgetall : ℕ → String → Store → List (String × String)
  pub smembers : ℕ → String → Store → List String
  pub lrange : ℕ → String → Store → List String
  pub get : ℕ → String → Store → Option String
  pub hgetall_lem : (now : ℕ) (k : String) (s : Store) → hgetall now k s ≡ visible now (view k s)
  -- The object that `hgetall` gives has each key once.
  pub hgetall-IsDistinct : (now : ℕ) (k : String) (s : Store) → Dict.IsDistinct (hgetall now k s)
  -- A command changes the key that it names, and no other.
  pub view_ne :
      (now : ℕ) (c : Command) (j : String) (s : Store)
      → str_eq (target c) j ≡ false
      → view j (execute now c s) ≡ view j s
  pub fields-hincrby :
      (now : ℕ) (k f g : String) (s : Store)
      → Dict.get g (view k (execute now (hincrby k f) s)).fields ≡ (
          if str_eq f g
          then some (next_count (Dict.get f (visible now (view k s))))
          else Dict.get g (visible now (view k s)))
  pub deadline-hincrby :
      (now : ℕ) (k f : String) (s : Store)
      → (view k (execute now (hincrby k f) s)).deadline
        ≡ (if is_live now (view k s).deadline then (view k s).deadline else none)
  -- A key that is there gets a new time to live.
  pub view-expire :
      (now : ℕ) (k : String) (seconds : ℕ) (s : Store)
      → is_nil (visible now (view k s)) ≡ false
      → view k (execute now (expire k seconds) s)
        ≡ record { fields = visible now (view k s); deadline = some (now + seconds * 1000) }
  -- A text is there until its time is over.
  pub get-setex :
      (now later : ℕ) (k : String) (seconds : ℕ) (v : String) (s : Store)
      → get later k (execute now (setex k seconds v) s)
        ≡ (if ltb later (now + seconds * 1000) then some v else none)
  pub get_ne :
      (now later : ℕ) (c : Command) (j : String) (s : Store)
      → str_eq (target c) j ≡ false
      → get later j (execute now c s) ≡ get later j s
  pub roster : String → Store → Roster
  pub smembers_lem :
      (now : ℕ) (k : String) (s : Store) → smembers now k s ≡ present now (roster k s)
  pub roster_ne :
      (now : ℕ) (c : Command) (j : String) (s : Store)
      → str_eq (target c) j ≡ false
      → roster j (execute now c s) ≡ roster j s
  pub is_member-sadd :
      (now : ℕ) (k v x : String) (s : Store)
      → is_member x (roster k (execute now (sadd k v) s)).members
        ≡ (str_eq v x || is_member x (present now (roster k s)))
  pub deadline-sadd :
      (now : ℕ) (k v : String) (s : Store)
      → (roster k (execute now (sadd k v) s)).deadline
        ≡ (if is_live now (roster k s).deadline then (roster k s).deadline else none)
  pub roster-expire :
      (now : ℕ) (k : String) (seconds : ℕ) (x : String) (s : Store)
      → is_member x (present now (roster k s)) ≡ true
      → roster k (execute now (expire k seconds) s)
        ≡ record { members = present now (roster k s); deadline = some (now + seconds * 1000) }
