-- ===== src/Stores/Memory.antt =====
-- The string commands of Redis on a function from keys to values, each with the time at which it
-- expires, if any.
use eventify.Common.{
  ℕ, ◌+◌, ◌*◌, ◌≡◌, refl, Option, none, some, String, str_eq, if◌then◌else◌, ltb, Bool-cases, inl,
  inr,
}
use eventify.Stores.Strings.{Strings}

abbrev pub Table : Type 0
Table = String → Option (String × Option ℕ)

abbrev pub alive : ℕ → Option (String × Option ℕ) → Option String
alive now none = none
alive now (some (v, none)) = some v
alive now (some (v, some d)) = if ltb now d then some v else none

abbrev pub write : String → Option (String × Option ℕ) → Table → Table
write k e s j = if str_eq k j then e else s j

pub alive-write :
    (now : ℕ) (k j : String) (e : Option (String × Option ℕ)) (s : Table)
    → alive now (write k e s j) ≡ (if str_eq k j then alive now e else alive now (s j))
alive-write now k j e s = elim (Bool-cases (str_eq k j)) [ inl h ↦ rw h refl | inr h ↦ rw h refl ]

abbrev pub table_strings : Strings
table_strings = record {
  Store = Table;
  get = λ now k s. alive now (s k);
  set = λ k v s. write k (some (v, none)) s;
  setex = λ t k n v s. write k (some (v, some (t + n * 1000))) s;
  del = λ k s. write k none s;
  get-set = λ now k j v s. alive-write now k j (some (v, none)) s;
  get-setex = λ t now k j v n s h. alive-write now k j (some (v, some (t + n * 1000))) s;
  get-del = λ now k j s. alive-write now k j none s;
}
