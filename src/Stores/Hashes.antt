-- ===== src/Stores/Hashes.antt =====
-- The hash commands of Redis. `hgetall` gives the fields of a hash, none for a key that is not there
-- (Redis keeps no empty hash). Values are texts; ioredis sends any other argument as its text.
use eventify.Common.{
  ℕ, suc, ◌≡◌, false, ◌&&◌, List, [], Option, none, some, String, str_eq, if◌then◌else◌,
}
use eventify.Common.Dict
use eventify.Common.Number.{ℤ, pos, decimal}

-- The fields that an `HSET` leaves: those given, over those that are there.
abbrev pub over : Option String → Option String → Option String
over none old = old
over (some v) old = some v

pub record Hashes : Type 1 where
  pub Store : Type 0
  pub hgetall : String → Store → List (String × String)
  pub hset : String → List (String × String) → Store → Store
  pub del : String → Store → Store
  -- By one; gives the new value too.
  pub hincrby : String → String → Store → ℤ × Store
  pub get-hset :
      (k j f : String) (fields : List (String × String)) (s : Store)
      → Dict.get f (hgetall j (hset k fields s)) ≡ (
          if str_eq k j
          then over (Dict.get f fields) (Dict.get f (hgetall j s))
          else Dict.get f (hgetall j s))
  pub hgetall-hset_ne :
      (k j : String) (fields : List (String × String)) (s : Store)
      → str_eq k j ≡ false
      → hgetall j (hset k fields s) ≡ hgetall j s
  pub hgetall-del :
      (k j : String) (s : Store) → hgetall j (del k s) ≡ (if str_eq k j then [] else hgetall j s)
  -- A field that is not there counts from 0.
  pub hincrby_value :
      (k f : String) (n : ℕ) (s : Store)
      → Dict.get f (hgetall k s) ≡ some (decimal n)
      → (hincrby k f s).0 ≡ pos (suc n)
  pub get-hincrby :
      (k f j g : String) (n : ℕ) (s : Store)
      → Dict.get f (hgetall k s) ≡ some (decimal n)
      → Dict.get g (hgetall j (hincrby k f s).1)
        ≡ (if str_eq k j && str_eq f g then some (decimal (suc n)) else Dict.get g (hgetall j s))
  pub hincrby_fresh :
      (k f : String) (s : Store) → Dict.get f (hgetall k s) ≡ none → (hincrby k f s).0 ≡ pos 1
  pub get-hincrby_fresh :
      (k f j g : String) (s : Store)
      → Dict.get f (hgetall k s) ≡ none
      → Dict.get g (hgetall j (hincrby k f s).1)
        ≡ (if str_eq k j && str_eq f g then some (decimal 1) else Dict.get g (hgetall j s))
  pub hgetall-hincrby_ne :
      (k f j : String) (s : Store) → str_eq k j ≡ false → hgetall j (hincrby k f s).1 ≡ hgetall j s
