-- ===== src/Iam/Guards/Laws.antt =====
-- Who gets past the guards.
use Prim.Native.String
use eventify.Common.{
  ℕ, ◌≡◌, refl, sym, ap, ◌∙◌, ◌↔◌, true, false, List, [], ◌∷◌, Option, none, some, String, str_eq,
  arith, Bool-cases, Option-cases, ◌⊎◌, inl, inr,
}
use eventify.Common.Exec.{Outcome, ok, throw}
use eventify.Http.Exception.{Exception, unauthorized}
use eventify.Iam.Platform.{Platform, Payload}
use eventify.Iam.Guards.{
  AuthType, bearer, nothing, Request, Declared, extract_token_from_header, access_token_guard,
  auth_type_guard_map, run_guards, can_activate, types_of,
}

module _ (p : Platform) where
  open p use {verify}

  -- The request carries a token that verifies, and its payload.
  abbrev pub Carries : ℕ → Request → Payload → Type 0
  Carries now request payload =
      (token : String) × (extract_token_from_header request ≡ some token)
      × (str_eq token "" ≡ false)
      × (verify now token ≡ ok payload)

  -- The user is put on the request.
  abbrev pub with_user : Request → Payload → Request
  with_user request payload = record { authorization = request.authorization; user = some payload }

  Outcome-cases :
      (o : Outcome String Payload)
      → ((m : String) × (o ≡ throw m)) ⊎ ((payload : Payload) × (o ≡ ok payload))
  Outcome-cases (ok payload) = inr (payload, refl)
  Outcome-cases (throw m) = inl (m, refl)

  -- The three ways in which the token guard ends.
  pub access_token_guard_cases :
      (now : ℕ) (request : Request)
      → ((m : String) × (access_token_guard p now request ≡ (throw (unauthorized m), request)))
        ⊎ ((payload : Payload) × (Carries now request payload
              × (access_token_guard p now request ≡ (ok true, with_user request payload))))
  unfolding access_token_guard
  access_token_guard_cases now request = elim (Option-cases (extract_token_from_header request)) [
    | inl e ↦ inl ("Authentication token is missing. Please log in to continue", rw e refl)
    | inr (token, e) ↦ elim (Bool-cases (str_eq token "")) [
      | inl h ↦ inl ("Authentication token is missing. Please log in to continue", rw (e, h) refl)
      | inr h ↦ elim (Outcome-cases (verify now token)) [
        | inl (m, v) ↦ inl (String.◌++◌ "Invalid token: " m, rw (e, h, v) refl)
        | inr (payload, v) ↦ inr (payload, ((token, e, h, v), rw (e, h, v) refl))
      ]
    ]
  ]

  carried_passes :
      (now : ℕ) (request : Request) (payload : Payload)
      → Carries now request payload
      → access_token_guard p now request ≡ (ok true, with_user request payload)
  unfolding access_token_guard
  carried_passes now request payload (token, e, h, v) = rw (e, h, v) refl

  -- Where nothing is declared, a request gets through exactly if it carries a token that verifies; it
  -- then has the token's payload as its user, and is otherwise unchanged.
  pub can_activate_iff :
      (now : ℕ) (request changed : Request)
      → (can_activate p now none none request ≡ (ok true, changed)) ↔ (
          (payload : Payload) × (Carries now request payload
            × (changed ≡ with_user request payload)))
  unfolding can_activate run_guards auth_type_guard_map
  can_activate_iff now request changed = (there, back)
    where
      passed :
          (r : Request)
          → access_token_guard p now request ≡ (ok true, r)
          → can_activate p now none none request ≡ (ok true, r)
      passed r e = rw (run_guards, auth_type_guard_map, e, ap (λ x. x.1) e) refl

      refused :
          (m : String)
          → access_token_guard p now request ≡ (throw (unauthorized m), request)
          → can_activate p now none none request ≡ (throw (unauthorized m), request)
      refused m e = rw (run_guards, auth_type_guard_map, e, ap (λ x. x.1) e) refl

      there :
          can_activate p now none none request ≡ (ok true, changed)
          → (payload : Payload) × (Carries now request payload
              × (changed ≡ with_user request payload))
      there h = elim (access_token_guard_cases now request) [
        | inl (m, e) ↦ absurd (ground (arith, e, h, refused m e))
        | inr (payload, (c, e)) ↦
            (payload, (c, sym (ap (λ x. x.1) (sym (passed (with_user request payload) e) ∙ h))))
      ]

      back :
          (payload : Payload) × (Carries now request payload
              × (changed ≡ with_user request payload))
          → can_activate p now none none request ≡ (ok true, changed)
      back (payload, (c, e)) =
          rw e (passed (with_user request payload) (carried_passes now request payload c))

  -- Every refusal is a 401, and leaves the request as it was.
  run_guards_refused :
      (now : ℕ) (ts : List AuthType) (last_error : Exception) (request : Request)
      → ((m : String) × (last_error ≡ unauthorized m))
      → ((m : String) × (run_guards p now ts last_error request
            ≡ (throw (unauthorized m), request)))
        ⊎ ((run_guards p now ts last_error request).0 ≡ ok true)
  unfolding run_guards auth_type_guard_map
  run_guards_refused now [] last_error request (m, e) = inl (m, rw e refl)
  run_guards_refused now (bearer ∷ ts) last_error request h =
      elim (access_token_guard_cases now request) [
        | inl (m, e) ↦
            rw (run_guards, auth_type_guard_map, e, ap (λ x. x.1) e)
              (run_guards_refused now ts (unauthorized m) request (m, refl))
        | inr (payload, (c, e)) ↦ inr (rw (run_guards, auth_type_guard_map, e) refl)
      ]
  run_guards_refused now (nothing ∷ ts) last_error request h = inr refl

  -- Whatever is declared, a request gets through or is refused as unauthorized and left unchanged.
  pub can_activate_refused :
      (now : ℕ) (handler class : Option Declared) (request : Request)
      → ((m : String) × (can_activate p now handler class request
            ≡ (throw (unauthorized m), request)))
        ⊎ ((can_activate p now handler class request).0 ≡ ok true)
  unfolding can_activate
  can_activate_refused now handler class request =
      run_guards_refused now (types_of p handler class) (unauthorized "Unauthorized") request
        ("Unauthorized", refl)
