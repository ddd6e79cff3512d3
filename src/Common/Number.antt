-- ===== src/Common/Number.antt =====
-- JavaScript numbers as the program uses them: integers, and NaN where `parseInt` finds no digit.
-- `parseInt` is modelled on texts without leading white space and without the prefix 0x, which the
-- program never stores in Redis; `-0` is 0.
pub mod RoundTrip
use Prim.Native.Nat.{ℕ, zero, suc, ◌+◌, ◌-◌, ◌*◌, ◌/◌, ◌%◌, ◌<◌}
use Prim.Native.Char.{Char, char, code}
use Prim.Native.String
use Prim.Native.String.{String}
use mathlib.Core.Path.{◌≡◌, refl}
use mathlib.Core.Bool.{Bool, true, false, ◌&&◌, ◌||◌}
use mathlib.Core.Logic.{dite}
use mathlib.Core.Option.{Option, none, some}
use mathlib.Core.WellFounded.{Acc, WellFounded}
use native.Mathlib.Decide.{dec_lt}
use native.Mathlib.Omega.{arith}
use eventify.Common.Tests.{ltb, leb, ◌==◌, if◌then◌else◌}

-- `negsuc n` is -(n + 1).
pub data ℤ : Type 0 where
  pos : ℕ → ℤ
  negsuc : ℕ → ℤ

-- a - b, as an integer.
abbrev pub sub_ℕ : ℕ → ℕ → ℤ
sub_ℕ a b = if leb b a then pos (a - b) else negsuc (b - a - 1)

abbrev pub pos_part : ℤ → ℕ
pos_part (pos n) = n
pos_part (negsuc n) = 0

abbrev pub neg_part : ℤ → ℕ
neg_part (pos n) = 0
neg_part (negsuc n) = suc n

infixl 65 ◌+ℤ◌
abbrev pub ◌+ℤ◌ : ℤ → ℤ → ℤ
a +ℤ b = sub_ℕ (pos_part a + pos_part b) (neg_part a + neg_part b)

abbrev pub ltb_ℤ : ℤ → ℤ → Bool
ltb_ℤ a b = ltb (pos_part a + neg_part b) (pos_part b + neg_part a)

abbrev pub leb_ℤ : ℤ → ℤ → Bool
leb_ℤ a b = leb (pos_part a + neg_part b) (pos_part b + neg_part a)

-- An integer, or NaN.
abbrev pub Number : Type 0
Number = Option ℤ

abbrev pub add_number : Number → Number → Number
add_number (some a) (some b) = some (a +ℤ b)
add_number _ _ = none

-- a > b, which is false if either is NaN.
abbrev pub gt_number : Number → Number → Bool
gt_number (some a) (some b) = ltb_ℤ b a
gt_number _ _ = false

-- a >= b, which is false if either is NaN.
abbrev pub ge_number : Number → Number → Bool
ge_number (some a) (some b) = leb_ℤ b a
ge_number _ _ = false

abbrev pub digit : ℕ → Char
digit zero = char 48 tt
digit (suc zero) = char 49 tt
digit (suc (suc zero)) = char 50 tt
digit (suc (suc (suc zero))) = char 51 tt
digit (suc (suc (suc (suc zero)))) = char 52 tt
digit (suc (suc (suc (suc (suc zero))))) = char 53 tt
digit (suc (suc (suc (suc (suc (suc zero)))))) = char 54 tt
digit (suc (suc (suc (suc (suc (suc (suc zero))))))) = char 55 tt
digit (suc (suc (suc (suc (suc (suc (suc (suc zero)))))))) = char 56 tt
digit _ = char 57 tt

below_Acc : (k n : ℕ) → n < k → Acc ◌<◌ n
below_Acc zero n h = elim h [ ]
below_Acc (suc k) n h = Acc.intro n (λ m hm. below_Acc k m (omega arith))

lt_wf : WellFounded ◌<◌
unfolding below_Acc
lt_wf = record { apply = λ n. below_Acc (suc n) n (omega arith) }

pub tenth-lt : (n : ℕ) → 0 < n → n / 10 < n
tenth-lt n h = omega arith

-- The decimal digits of a number in front of a text; none for 0.
emit : (n : ℕ) → Acc ◌<◌ n → String → String
emit n (Acc.intro _ smaller) out =
    dite (dec_lt 0 n)
      (λ h. emit (n / 10) (smaller (n / 10) (tenth-lt n h)) (String.◌∷◌ (digit (n % 10)) out))
      (λ _. out)

unfoldable pub decimal : ℕ → String
unfolding emit lt_wf dec_lt
decimal n = if n == 0 then "0" else emit n (lt_wf.apply n) ""

-- `toString`, and the conversion of a number that a text or a Redis argument makes.
unfoldable pub to_string : Number → String
unfolding decimal
to_string none = "NaN"
to_string (some (pos n)) = decimal n
to_string (some (negsuc n)) = String.◌∷◌ (char 45 tt) (decimal (suc n))

abbrev pub is_digit : Char → Bool
is_digit c = leb 48 (code c) && leb (code c) 57

-- The longest run of digits, read after the digits whose value is `n`.
unfoldable pub scan : String → ℕ → ℕ
scan String.[] n = n
scan (String.◌∷◌ c s) n = elim (is_digit c) [ true ↦ scan s (n * 10 + (code c - 48)) | false ↦ n ]

unfoldable pub parse_digits : String → Option ℕ
unfolding scan
parse_digits String.[] = none
parse_digits (String.◌∷◌ c s) = if is_digit c then some (scan (String.◌∷◌ c s) 0) else none

abbrev pub negate : Option ℕ → Number
negate none = none
negate (some zero) = some (pos 0)
negate (some (suc n)) = some (negsuc n)

abbrev pub unsigned : Option ℕ → Number
unsigned none = none
unsigned (some n) = some (pos n)

-- `parseInt(text, 10)`.
unfoldable pub parse_int : String → Number
unfolding parse_digits
parse_int String.[] = none
parse_int (String.◌∷◌ c s) =
    if code c == 45
    then negate (parse_digits s)
    else if code c == 43
    then unsigned (parse_digits s)
    else unsigned (parse_digits (String.◌∷◌ c s))

decimal_tests : (decimal 0 ≡ "0") × (decimal 10203 ≡ "10203")
unfolding decimal
decimal_tests = (refl, refl)

parse_int_tests :
    (parse_int "5000" ≡ some (pos 5000))
    × (parse_int "-12ms" ≡ some (negsuc 11))
    × (parse_int "true" ≡ none)
unfolding parse_int
parse_int_tests = (refl, refl, refl)
