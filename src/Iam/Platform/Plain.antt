-- ===== src/Iam/Platform/Plain.antt =====
-- A platform whose hashes and tokens hide nothing: what the laws of a platform ask for can be met.
-- A token is its five texts, one after the other, each character of a text behind an `a` and each
-- text closed by a `b`; the last is the second at which it expires.
use Prim.Native.Char.{char, code}
use text.Mathlib.TextPositions.{eq_refl}
use mathlib.Core.Path.{subst}
use eventify.Common.{
  ℕ, ◌+◌, ◌/◌, ◌<◌, ◌≤◌, ◌≡◌, refl, ap, Bool, true, false, Option, none, some, String, str_eq,
  if◌then◌else◌, ◌==◌, ltb, lt→ltb, Bool-cases, inl, inr, eq_iff,
}
use eventify.Common.Exec.{Outcome, ok, throw}
use eventify.Common.Number.{decimal, parse_digits}
use eventify.Common.Number.RoundTrip.{parse_digits-decimal}
use eventify.Iam.Platform.{Payload, Platform}

unfoldable pub close : String → String → String
close String.[] rest = String.◌∷◌ (char b'b' tt) rest
close (String.◌∷◌ c s) rest = String.◌∷◌ (char b'a' tt) (String.◌∷◌ c (close s rest))

unfoldable pub read : Bool → String → String × String
read b String.[] = ("", "")
read true (String.◌∷◌ c s) = let (text, rest) = read false s in (String.◌∷◌ c text, rest)
read false (String.◌∷◌ c s) = let inside = read true s in if code c == b'b' then ("", s) else inside

read-close : (s rest : String) → read false (close s rest) ≡ (s, rest)
unfolding read close
read-close String.[] rest = refl
read-close (String.◌∷◌ c s) rest = ap (λ x. (String.◌∷◌ c x.0, x.1)) (read-close s rest)

abbrev pub text_of : Option String → String
text_of none = ""
text_of (some s) = String.◌∷◌ (char b's' tt) s

abbrev pub option_of : String → Option String
option_of String.[] = none
option_of (String.◌∷◌ c s) = some s

option_of-text_of : (o : Option String) → option_of (text_of o) ≡ o
option_of-text_of none = refl
option_of-text_of (some s) = refl

unfoldable pub sign : ℕ → ℕ → Payload → String
sign t ttl p = close p.sub (
    close (text_of p.email)
      (close (text_of p.role) (close (text_of p.refresh_token_id) (decimal (t / 1000 + ttl)))))

abbrev pub in_time : ℕ → Option ℕ → Payload → Outcome String Payload
in_time now none p = throw "jwt malformed"
in_time now (some e) p = if ltb (now / 1000) e then ok p else throw "jwt expired"

unfoldable pub verify : ℕ → String → Outcome String Payload
verify now token =
    let (sub, rest) = read false token in
    let (email, rest1) = read false rest in
    let (role, rest2) = read false rest1 in
    let (id, rest3) = read false rest2 in
    in_time now (parse_digits rest3) (record {
      sub = sub;
      email = option_of email;
      role = option_of role;
      refresh_token_id = option_of id;
    })

pub verify-sign :
    (t now ttl : ℕ) (p : Payload)
    → t ≤ now
    → now / 1000 < t / 1000 + ttl
    → verify now (sign t ttl p) ≡ ok p
unfolding verify sign
verify-sign t now ttl p early late =
    simp (
      read-close,
      option_of-text_of,
      parse_digits-decimal,
      lt→ltb (now / 1000) (t / 1000 + ttl) late,
    )

abbrev pub plain : Platform
plain = record {
  hash = λ salt text. text;
  compare = str_eq;
  sha256 = λ text. text;
  normalize_email = λ e. e;
  access_token_ttl = 3600;
  refresh_token_ttl = 86400;
  sign = sign;
  verify = verify;
  compare-hash = λ salt text. eq_refl text;
  normalize_email_idem = λ e. refl;
  verify-sign = verify-sign;
}

abbrev IsFilled : String → Type 0
IsFilled String.[] = ⊥
IsFilled (String.◌∷◌ c s) = Unit {0}

close-IsFilled : (s rest : String) → IsFilled (close s rest)
unfolding close
close-IsFilled String.[] rest = tt
close-IsFilled (String.◌∷◌ c s) rest = tt

close_filled : (s rest : String) → str_eq (close s rest) "" ≡ false
close_filled s rest = elim (Bool-cases (str_eq (close s rest) "")) [
  | inl e ↦ absurd (subst IsFilled ((eq_iff (close s rest) "").0 e) (close-IsFilled s rest))
  | inr e ↦ e
]

-- No token is empty.
pub sign_filled : (t ttl : ℕ) (p : Payload) → str_eq (sign t ttl p) "" ≡ false
unfolding sign
sign_filled t ttl p = close_filled p.sub _
