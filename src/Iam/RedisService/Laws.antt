-- ===== src/Iam/RedisService/Laws.antt =====
-- The session of a user and the code of an address are kept apart, each under its own key.
use Prim.Native.Char.{char, code}
use Prim.Native.String
use text.Mathlib.TextLemmas.{append_cancel_left, cons-append, head-eq_of_cons-eq}
use eventify.Common.{
  ℕ, ◌+◌, ◌*◌, ◌≤◌, ◌≡◌, refl, sym, ap, ◌∙◌, Bool, true, false, Option, none, some, String, str_eq,
  eq_iff, Bool-cases, inl, inr, arith, if◌then◌else◌, ltb,
}
use eventify.Stores.Strings.{Strings}
use eventify.Iam.RedisService.{
  get_key, otp_key, is_same, insert, validate, set_otp, get_otp, invalidate_otp,
}

pub append_eq : (p a b : String) → str_eq (String.◌++◌ p a) (String.◌++◌ p b) ≡ str_eq a b
append_eq p a b = elim (Bool-cases (str_eq a b)) [
  | inl e ↦ rw e ((eq_iff _ _).1 (ap (String.◌++◌ p) ((eq_iff a b).0 e)))
  | inr e ↦ rw e (differ (str_eq (String.◌++◌ p a) (String.◌++◌ p b)) refl e)
]
  where
    differ :
        (t : Bool) → str_eq (String.◌++◌ p a) (String.◌++◌ p b) ≡ t → str_eq a b ≡ false → t ≡ false
    differ false _ _ = refl
    differ true h e =
        absurd (ground (arith, eq_iff a b, append_cancel_left p a b ((eq_iff _ _).0 h)))

-- Session keys and code keys never meet.
pub get_key_ne_otp_key : (a b : String) → str_eq (get_key a) (otp_key b) ≡ false
unfolding get_key otp_key
get_key_ne_otp_key a b = differ (str_eq (get_key a) (otp_key b)) refl
  where
    heads : String.◌++◌ "user-" a ≡ String.◌++◌ "otp:" b → char 117 tt ≡ char 111 tt
    heads e =
        head-eq_of_cons-eq
          (sym (cons-append (char 117 tt) "ser-" a) ∙ e ∙ cons-append (char 111 tt) "tp:" b)

    differ : (t : Bool) → str_eq (get_key a) (otp_key b) ≡ t → t ≡ false
    differ false _ = refl
    differ true h =
        let e : ◌≡◌ {A = ℕ} 117 111 = ap code (heads ((eq_iff _ _).0 h)) in absurd (omega arith)

module _ (r : Strings) where
  open r use {Store, get, set, setex, del, get-set, get-setex, get-del}

  -- A code is read back for 600 seconds, and under no other address.
  pub get_otp-set_otp :
      (t now : ℕ) (e e' hashed : String) (s : Store)
      → t ≤ now
      → get_otp r now e' (set_otp r t e hashed s) ≡ (
          if str_eq e e'
          then (if ltb now (t + 600 * 1000) then some hashed else none)
          else get_otp r now e' s)
  unfolding get_otp set_otp otp_key
  get_otp-set_otp t now e e' hashed s h =
      rw (get-setex t now _ _ hashed 600 s h, append_eq "otp:" e e') refl

  pub get_otp-invalidate_otp :
      (now : ℕ) (e e' : String) (s : Store)
      → get_otp r now e' (invalidate_otp r e s) ≡ (if str_eq e e' then none else get_otp r now e' s)
  unfolding get_otp invalidate_otp otp_key
  get_otp-invalidate_otp now e e' s = rw (get-del, append_eq "otp:" e e') refl

  -- The session of a user after an insertion, and after a removal.
  pub validate-insert :
      (now : ℕ) (id j token : String) (claimed : Option String) (s : Store)
      → validate r now j claimed (insert r id token s)
        ≡ (if str_eq id j then is_same (some token) claimed else validate r now j claimed s)
  unfolding validate insert get_key
  validate-insert now id j token claimed s =
      rw (get-set, append_eq "user-" id j) (split (str_eq id j))
    where
      split :
          (b : Bool)
          → is_same (if b then some token else get now (String.◌++◌ "user-" j) s) claimed ≡ (
              if b
              then is_same (some token) claimed
              else is_same (get now (String.◌++◌ "user-" j) s) claimed)
      split true = refl
      split false = refl

  pub get_otp-insert :
      (now : ℕ) (id token e : String) (s : Store)
      → get_otp r now e (insert r id token s) ≡ get_otp r now e s
  unfolding get_otp insert
  get_otp-insert now id token e s = rw (get-set, get_key_ne_otp_key id e) refl
