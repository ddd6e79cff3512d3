-- ===== src/Iam/RedisService.antt =====
-- src/integrations/redis/redis.service.ts
pub mod Laws
use Prim.Native.Char.{char, code}
use Prim.Native.String
use text.Mathlib.TextLemmas.{append_cancel_left, cons-append, head-eq_of_cons-eq}
use eventify.Common.{
  ℕ, ◌≡◌, refl, sym, ap, ◌∙◌, Bool, true, false, Option, some, String, str_eq, eq_iff, Bool-cases,
  inl, inr, arith,
}
use eventify.Stores.Strings.{Strings}

unfoldable pub get_key : String → String
get_key user_id = String.◌++◌ "user-" user_id

unfoldable pub otp_key : String → String
otp_key email = String.◌++◌ "otp:" email

abbrev pub is_same : Option String → Option String → Bool
is_same (some a) (some b) = str_eq a b
is_same _ _ = false

module _ (r : Strings) where
  open r use {Store, get, set, setex, del}

  unfoldable pub insert : String → String → Store → Store
  insert user_id token_id = set (get_key user_id) token_id

  -- A token without an id is never valid: null and undefined differ.
  unfoldable pub validate : ℕ → String → Option String → Store → Bool
  validate now user_id token_id s = is_same (get now (get_key user_id) s) token_id

  unfoldable pub in_validate : String → Store → Store
  in_validate user_id = del (get_key user_id)

  unfoldable pub set_otp : ℕ → String → String → Store → Store
  set_otp now email hashed_otp = setex now (otp_key email) 600 hashed_otp

  unfoldable pub get_otp : ℕ → String → Store → Option String
  get_otp now email = get now (otp_key email)

  unfoldable pub invalidate_otp : String → Store → Store
  invalidate_otp email = del (otp_key email)
