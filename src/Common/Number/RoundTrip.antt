-- ===== src/Common/Number/RoundTrip.antt =====
-- `parseInt` reads back what `toString` prints.
use Prim.Native.Nat.{ℕ, zero, suc, ◌+◌, ◌*◌, ◌/◌, ◌%◌, ◌<◌}
use Prim.Native.Char.{char, code}
use Prim.Native.String.{String}
use mathlib.Core.Path.{◌≡◌, refl, ap, ◌∙◌}
use mathlib.Core.Bool.{true}
use mathlib.Core.Option.{some}
use mathlib.Core.WellFounded.{Acc}
use mathlib.Core.Logic.{dif_pos, dif_neg, inl, inr}
use native.Mathlib.Bridge.{le_prop}
use native.Mathlib.Decide.{dec_lt}
use native.Mathlib.Omega.{arith}
use eventify.Common.Tests.{◌==◌, Bool-cases}
use eventify.Common.Number.{
  ℤ, pos, negsuc, digit, emit, tenth-lt, lt_wf, decimal, to_string, is_digit, scan, parse_digits,
  parse_int, unsigned, negate,
}

code-digit : (d : ℕ) → d < 10 → code (digit d) ≡ d + 48
code-digit zero h = refl
code-digit (suc zero) h = refl
code-digit (suc (suc zero)) h = refl
code-digit (suc (suc (suc zero))) h = refl
code-digit (suc (suc (suc (suc zero)))) h = refl
code-digit (suc (suc (suc (suc (suc zero))))) h = refl
code-digit (suc (suc (suc (suc (suc (suc zero)))))) h = refl
code-digit (suc (suc (suc (suc (suc (suc (suc zero))))))) h = refl
code-digit (suc (suc (suc (suc (suc (suc (suc (suc zero)))))))) h = refl
code-digit (suc (suc (suc (suc (suc (suc (suc (suc (suc zero))))))))) h = refl
code-digit (suc (suc (suc (suc (suc (suc (suc (suc (suc (suc d)))))))))) h = absurd (omega arith)

scan-digit : (d n : ℕ) (s : String) → d < 10 → scan (String.◌∷◌ (digit d) s) n ≡ scan s (n * 10 + d)
unfolding scan
scan-digit d n s h = ground (arith, code-digit d h)

-- The text begins with a digit, so it has no sign.
abbrev pub StartsDigit : String → Type 0
StartsDigit String.[] = ⊥
StartsDigit (String.◌∷◌ c s) = is_digit c ≡ true

scan-emit : (n : ℕ) (w : Acc ◌<◌ n) (out : String) → scan (emit n w out) 0 ≡ scan out n
unfolding emit
scan-emit n (Acc.intro _ smaller) out = elim (dec_lt 0 n) [
  | yes h ↦ rw (dif_pos _ le_prop h) (
      scan-emit (n / 10) (smaller (n / 10) (tenth-lt n h)) (String.◌∷◌ (digit (n % 10)) out)
      ∙ scan-digit (n % 10) (n / 10) out (omega arith)
      ∙ ap (scan out) (omega arith))
  | no h ↦ rw (dif_neg _ h) (ap (scan out) (omega arith))
]

emit-StartsDigit :
    (n : ℕ) (w : Acc ◌<◌ n) (out : String) → (n ≡ 0 → StartsDigit out) → StartsDigit (emit n w out)
unfolding emit
emit-StartsDigit n (Acc.intro _ smaller) out k = elim (dec_lt 0 n) [
  | yes h ↦ rw (dif_pos _ le_prop h) (
      emit-StartsDigit (n / 10) (smaller (n / 10) (tenth-lt n h)) (String.◌∷◌ (digit (n % 10)) out)
        (λ _. ground (arith, code-digit (n % 10) (omega arith))))
  | no h ↦ rw (dif_neg _ h) (k (omega arith))
]

parse_digits-scan : (s : String) → StartsDigit s → parse_digits s ≡ some (scan s 0)
unfolding parse_digits scan
parse_digits-scan String.[] h = absurd h
parse_digits-scan (String.◌∷◌ c s) h = rw h refl

parse_minus : (s : String) → parse_int (String.◌∷◌ (char 45 tt) s) ≡ negate (parse_digits s)
unfolding parse_int
parse_minus s = refl

pub decimal-StartsDigit : (n : ℕ) → StartsDigit (decimal n)
unfolding decimal
decimal-StartsDigit n = elim (Bool-cases (n == 0)) [
  | inl z ↦ rw (z, decimal) refl
  | inr z ↦ rw (z, decimal) (emit-StartsDigit n (lt_wf.apply n) "" (λ e. ground arith))
]

scan-decimal : (n : ℕ) → scan (decimal n) 0 ≡ n
unfolding decimal scan
scan-decimal n = elim (Bool-cases (n == 0)) [
  | inl z ↦ rw (z, decimal) (ground arith)
  | inr z ↦ rw (z, decimal) (scan-emit n (lt_wf.apply n) "")
]

pub parse_digits-decimal : (n : ℕ) → parse_digits (decimal n) ≡ some n
parse_digits-decimal n =
    parse_digits-scan (decimal n) (decimal-StartsDigit n) ∙ ap some (scan-decimal n)

parse_int-StartsDigit : (s : String) → StartsDigit s → parse_int s ≡ unsigned (parse_digits s)
unfolding parse_int
parse_int-StartsDigit String.[] h = absurd h
parse_int-StartsDigit (String.◌∷◌ c s) h = ground arith

-- Every integer survives being written to Redis and read back.
pub parse_int-to_string : (z : ℤ) → parse_int (to_string (some z)) ≡ some z
unfolding to_string
parse_int-to_string (pos n) =
    parse_int-StartsDigit (decimal n) (decimal-StartsDigit n) ∙ ap unsigned (parse_digits-decimal n)
parse_int-to_string (negsuc n) =
    parse_minus (decimal (suc n)) ∙ ap negate (parse_digits-decimal (suc n))
