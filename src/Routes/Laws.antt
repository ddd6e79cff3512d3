-- ===== src/Routes/Laws.antt =====
-- Who can do what through the routes.
use eventify.Common.{
  ℕ, ◌≡◌, ◌⊎◌, refl, ap, ◌∙◌, true, false, List, none, some, String, str_eq, inl, inr, ◌≤◌, ◌<◌,
  ◌/◌, ◌+◌,
}
use eventify.Common.Exec.{ok, throw}
use eventify.Http.Exception.{Exception, unauthorized}
use eventify.EventsHttp.Repository.{EventCollection}
use eventify.EventsHttp.Service as Events
use eventify.EventsHttp.Service.Deletion.{owned, delete_batch_events-owned}
use eventify.Iam.Authentication.{tokens_for, refresh_payload}
use eventify.Iam.Platform.{Platform, Payload}
use eventify.Iam.Users.{User}
use eventify.Iam.Guards.{
  Request, can_activate, run_guards, auth_type_guard_map, extract_token_from_header,
}
use eventify.Iam.Guards.Laws.{Carries, with_user, access_token_guard_cases, can_activate_iff}
use eventify.Routes.{guarded, active_user, delete_patch_events}

module _ (p : Platform) where
  -- The guard refuses a request, or lets it in as the user of its token.
  pub can_activate_cases :
      (now : ℕ) (request : Request)
      → ((e : Exception) × (can_activate p now none none request ≡ (throw e, request)))
        ⊎ ((payload : Payload) × (Carries p now request payload
              × (can_activate p now none none request ≡ (ok true, with_user p request payload))))
  unfolding can_activate run_guards auth_type_guard_map
  can_activate_cases now request = elim (access_token_guard_cases p now request) [
    | inl (m, e) ↦ inl (
      unauthorized m,
      rw (can_activate, run_guards, auth_type_guard_map, e, ap (λ x. x.1) e) refl,
    )
    | inr (payload, (carries, e)) ↦ inr (
      payload,
      (carries, rw (can_activate, run_guards, auth_type_guard_map, e, ap (λ x. x.1) e) refl),
    )
  ]

  -- A request that carries a refresh token in its header is let in as its user, as long as the token is
  -- in time: the guard asks neither what the token is for nor whether it was replaced.
  pub can_activate_refresh_token :
      (t now : ℕ) (id : String) (u : User) (request : Request)
      → extract_token_from_header request ≡ some (tokens_for p t id u).refresh_token
      → str_eq (tokens_for p t id u).refresh_token "" ≡ false
      → t ≤ now
      → now / 1000 < t / 1000 + p.refresh_token_ttl
      → can_activate p now none none request ≡ (ok true, with_user p request (refresh_payload id u))
  can_activate_refresh_token t now id u request sent filled after live =
      (can_activate_iff p now request (with_user p request (refresh_payload id u))).1 (
        refresh_payload id u,
        (
          (
            (tokens_for p t id u).refresh_token,
            sent,
            filled,
            p.verify-sign t now p.refresh_token_ttl (refresh_payload id u) after live,
          ),
          refl,
        ),
      )

module _ (p : Platform) (new_date : String → ℕ) (c : EventCollection)
    (works : (owner : String) (ids : List String) (s : c.Docs)
      → (n : ℕ) × (t : c.Docs) × (c.delete_many owner ids s ≡ (ok n, t))) where
  -- When the database deletes: a batch deletion over HTTP leaves the events of a user as they were, if
  -- the request carries no token of that user.
  pub delete_patch_events-owned :
      (now : ℕ) (request : Request) (ids : List String) (other : String) (s : c.Docs)
      → ((payload : Payload) → Carries p now request payload → str_eq payload.sub other ≡ false)
      → owned c other (delete_patch_events p new_date c now request ids s).1 ≡ owned c other s
  unfolding delete_patch_events active_user
  delete_patch_events-owned now request ids other s differ =
      elim (can_activate_cases p now request) [
        | inl (e, h) ↦
            ap
              (λ x.
                owned c other
                  (guarded x (λ r. Events.delete_batch_events c (active_user r) ids) s).1)
              h
        | inr (payload, (carries, h)) ↦
            let (n, t, deleted) = works payload.sub ids s in
            ap
              (λ x.
                owned c other
                  (guarded x (λ r. Events.delete_batch_events c (active_user r) ids) s).1)
              h
            ∙ delete_batch_events-owned c payload.sub other ids n s t deleted
                (differ payload carries)
      ]
