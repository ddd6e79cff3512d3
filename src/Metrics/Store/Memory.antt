-- ===== src/Metrics/Store/Memory.antt =====
-- A store of metrics held in memory: the commands on a function from keys to entries.
use eventify.Common.{
  ℕ, suc, ◌+◌, ◌-◌, ◌*◌, ◌≡◌, refl, Bool, true, false, ◌||◌, List, [], ◌∷◌, take, drop, Option,
  none, some, String, str_eq, ltb, if◌then◌else◌, Bool-cases, inl, inr, arith, eq_iff,
}
use eventify.Common.Dict
use eventify.Common.Dict.{IsDistinct, get-put, put-IsDistinct}
use eventify.Metrics.Commands.{Command, hincrby, expire, sadd, lpush, ltrim, setex}
use eventify.Metrics.Store.{
  Roster, present, is_member, MetricsStore, Hash, is_live, visible, next_count, is_nil, target,
}

pub record Entry : Type 0 where
  pub fields : List (String × String)
  pub distinct : IsDistinct fields
  pub members : List String
  pub items : List String
  pub text : Option String
  pub deadline : Option ℕ

abbrev pub no_entry : Entry
no_entry = record {
  fields = [];
  distinct = tt;
  members = [];
  items = [];
  text = none;
  deadline = none;
}

abbrev pub live : ℕ → Entry → Entry
live now e = if is_live now e.deadline then e else no_entry

abbrev pub nothing_there : List (String × String) → List String → List String → Option String → Bool
nothing_there [] [] [] none = true
nothing_there _ _ _ _ = false

abbrev pub include : String → List String → List String
include x [] = x ∷ []
include x (y ∷ ys) = if str_eq x y then y ∷ ys else y ∷ include x ys

abbrev pub update : ℕ → Command → Entry → Entry
update now (hincrby k f) e = record e {
  fields = Dict.put f (next_count (Dict.get f e.fields)) e.fields;
  distinct = put-IsDistinct f (next_count (Dict.get f e.fields)) e.fields e.distinct;
}
update now (expire k n) e =
    if nothing_there e.fields e.members e.items e.text
    then no_entry
    else record e { deadline = some (now + n * 1000) }
update now (sadd k v) e = record e { members = include v e.members }
update now (lpush k v) e = record e { items = v ∷ e.items }
update now (ltrim k a b) e = record e { items = take (suc b - a) (drop a e.items) }
update now (setex k n v) e = record no_entry { text = some v; deadline = some (now + n * 1000) }

abbrev pub execute_in_memory : ℕ → Command → (String → Entry) → String → Entry
execute_in_memory now c s j = if str_eq (target c) j then update now c (live now (s j)) else s j

abbrev pub hash_of : Entry → Hash
hash_of e = record { fields = e.fields; deadline = e.deadline }

pub fields-live : (now : ℕ) (e : Entry) → (live now e).fields ≡ visible now (hash_of e)
fields-live now e = elim (Bool-cases (is_live now e.deadline)) [
  | inl h ↦ rw h refl
  | inr h ↦ rw h refl
]

pub deadline-live :
    (now : ℕ) (e : Entry)
    → (live now e).deadline ≡ (if is_live now e.deadline then e.deadline else none)
deadline-live now e = elim (Bool-cases (is_live now e.deadline)) [
  | inl h ↦ rw h refl
  | inr h ↦ rw h refl
]

pub something_there :
    (fields : List (String × String)) (members items : List String) (text : Option String)
    → is_nil fields ≡ false
    → nothing_there fields members items text ≡ false
something_there [] members items text h = absurd (ground arith)
something_there (x ∷ xs) members items text h = refl

pub hash_of-expire :
    (now n : ℕ) (k : String) (e : Entry)
    → is_nil e.fields ≡ false
    → hash_of (update now (expire k n) e)
      ≡ record { fields = e.fields; deadline = some (now + n * 1000) }
hash_of-expire now n k e h = rw (something_there e.fields e.members e.items e.text h) refl

pub text-live :
    (now : ℕ) (e : Entry) (v : String) (d : ℕ)
    → e.text ≡ some v
    → e.deadline ≡ some d
    → (live now e).text ≡ (if ltb now d then some v else none)
text-live now e v d h k = elim (Bool-cases (ltb now d)) [
  | inl l ↦ rw (k, l) h
  | inr l ↦ rw (k, l) refl
]

pub str_eq_refl : (k : String) → str_eq k k ≡ true
str_eq_refl k = (eq_iff k k).1 refl

abbrev pub roster_of : Entry → Roster
roster_of e = record { members = e.members; deadline = e.deadline }

pub members-live : (now : ℕ) (e : Entry) → (live now e).members ≡ present now (roster_of e)
members-live now e = elim (Bool-cases (is_live now e.deadline)) [
  | inl h ↦ rw h refl
  | inr h ↦ rw h refl
]

pub is_member-include :
    (v x : String) (xs : List String) → is_member x (include v xs) ≡ (str_eq v x || is_member x xs)
is_member-include v x [] = ground (arith, eq_iff v x, eq_iff x v)
is_member-include v x (y ∷ ys) =
    ground (arith, eq_iff v x, eq_iff x v, eq_iff v y, eq_iff x y, is_member-include v x ys)

pub some_member :
    (fields : List (String × String)) (members items : List String) (text : Option String)
    (x : String)
    → is_member x members ≡ true
    → nothing_there fields members items text ≡ false
some_member [] [] items text x h = absurd (ground arith)
some_member [] (m ∷ ms) items text x h = refl
some_member (f ∷ fs) members items text x h = refl

pub roster_of-expire :
    (now n : ℕ) (k x : String) (e : Entry)
    → is_member x e.members ≡ true
    → roster_of (update now (expire k n) e)
      ≡ record { members = e.members; deadline = some (now + n * 1000) }
roster_of-expire now n k x e h = rw (some_member e.fields e.members e.items e.text x h) refl

abbrev pub Memory : MetricsStore
Memory = record {
  Store = String → Entry;
  view = λ k s. hash_of (s k);
  execute = execute_in_memory;
  hgetall = λ now k s. (live now (s k)).fields;
  smembers = λ now k s. (live now (s k)).members;
  lrange = λ now k s. (live now (s k)).items;
  get = λ now k s. (live now (s k)).text;
  hgetall_lem = λ now k s. fields-live now (s k);
  hgetall-IsDistinct = λ now k s. (live now (s k)).distinct;
  view_ne = λ now c j s h. rw h refl;
  fields-hincrby = λ now k f g s.
      rw
        (
          str_eq_refl k,
          get-put f g (next_count (Dict.get f (live now (s k)).fields)) (live now (s k)).fields,
          fields-live now (s k),
        )
        refl;
  deadline-hincrby = λ now k f s. rw (str_eq_refl k) (deadline-live now (s k));
  view-expire = λ now k n s h.
      rw
        (
          str_eq_refl k,
          hash_of-expire now n k (live now (s k)) (rw (fields-live now (s k)) h),
          fields-live now (s k),
        )
        refl;
  get-setex = λ now later k n v s. rw (str_eq_refl k) (
      text-live later (record no_entry { text = some v; deadline = some (now + n * 1000) }) v
        (now + n * 1000) refl refl);
  get_ne = λ now later c j s h. rw h refl;
  roster = λ k s. roster_of (s k);
  smembers_lem = λ now k s. members-live now (s k);
  roster_ne = λ now c j s h. rw h refl;
  is_member-sadd = λ now k v x s.
      rw (str_eq_refl k, is_member-include v x (live now (s k)).members, members-live now (s k))
        refl;
  deadline-sadd = λ now k v s. rw (str_eq_refl k) (deadline-live now (s k));
  roster-expire = λ now k n x s h.
      rw
        (
          str_eq_refl k,
          roster_of-expire now n k x (live now (s k)) (rw (members-live now (s k)) h),
          members-live now (s k),
        )
        refl;
}

abbrev pub empty : String → Entry
empty k = no_entry
