-- ===== src/Common/Exec.antt =====
-- Methods that change a state and may throw: a new state in every case, and a value or an error.

pub data Outcome (E A : Type 0) : Type 0 where
  ok : A → Outcome E A
  throw : E → Outcome E A

abbrev pub Exec : Type 0 → Type 0 → Type 0 → Type 0
Exec S E A = S → Outcome E A × S

-- What follows a step: it runs if the step gave a value.
abbrev pub follow : {S E A B : Type 0} → Outcome E A × S → (A → Exec S E B) → Outcome E B × S
follow (ok a, s) k = k a s
follow (throw e, s) k = (throw e, s)

infixl 5 ◌>>=◌ ◌>>◌
abbrev pub ◌>>=◌ : {S E A B : Type 0} → Exec S E A → (A → Exec S E B) → Exec S E B
◌>>=◌ m k s = follow (m s) k

abbrev pub ◌>>◌ : {S E B : Type 0} → Exec S E (Unit {0}) → Exec S E B → Exec S E B
◌>>◌ m k s = follow (m s) (λ _. k)

abbrev pub return : {S E A : Type 0} → A → Exec S E A
return a s = (ok a, s)

abbrev pub fail : {S E A : Type 0} → E → Exec S E A
fail e s = (throw e, s)

-- Reads from the state, and changes of it.
abbrev pub reads : {S E A : Type 0} → (S → A) → Exec S E A
reads f s = (ok (f s), s)

abbrev pub modify : {S E : Type 0} → (S → S) → Exec S E (Unit {0})
modify f s = (ok tt, f s)
