-- ===== src/Routes/Keys.antt =====
-- Whose API keys a request can change.
use mathlib.Core.List.{append-nil}
use eventify.Common.{
  ℕ, ◌≡◌, refl, ap, ◌∙◌, Bool, true, false, List, [], ◌∷◌, keep, keep-append, none, String, str_eq,
  eq_iff, arith, Option-cases, inl, inr,
}
use eventify.Common.Exec.{Exec}
use eventify.Http.Exception.{Exception}
use eventify.Stores.Collection.{Collection, update_first, delete_first}
use eventify.ApiKey.Repository
use eventify.ApiKey.Repository.{ApiKey, api_key_key, has_owner_and_key}
use eventify.ApiKey.Service
use eventify.ApiKey.Service.{or_duplicate, generate_api_key}
use eventify.ApiKey.Service.Laws.{document, create_docs, save_inv}
use eventify.Iam.Guards.{Request, can_activate}
use eventify.Iam.Guards.Laws.{Carries, with_user}
use eventify.Iam.Platform.{Platform, Payload}
use eventify.Routes.{
  guarded, done, active_user, class_type, create_api_key, delete_api_key, update_api_key_activation,
}
use eventify.Routes.Laws.{can_activate_cases}

module _ {A : Type 0} (p q : A → Bool) (apart : (x : A) → p x ≡ true → q x ≡ false) where
  keep-delete_first : (xs : List A) → keep q (delete_first p xs) ≡ keep q xs
  keep-delete_first [] = refl
  keep-delete_first (x ∷ xs) = ground (arith, apart x, keep-delete_first xs)

  keep-update_first :
      (f : A → A)
      → ((x : A) → q (f x) ≡ q x)
      → (xs : List A) → keep q (update_first p f xs) ≡ keep q xs
  keep-update_first f same [] = refl
  keep-update_first f same (x ∷ xs) = ground (arith, apart x, same x, keep-update_first f same xs)

module _ (c : Collection ApiKey api_key_key) where
  open c use {Docs, all, all-update_one, all-delete_one, save}

  abbrev pub keys_of : String → Docs → List ApiKey
  keys_of owner d = keep (λ k. str_eq k.owner_id owner) (all d)

  module _ (owner other : String) (differ : str_eq owner other ≡ false) (d : Docs) where
    apart :
        (key : String) (k : ApiKey)
        → has_owner_and_key owner key k ≡ true
        → str_eq k.owner_id other ≡ false
    apart key k h =
        ground (arith, eq_iff k.owner_id owner, eq_iff k.owner_id other, eq_iff owner other)

    keys_of-delete_api_key :
        (key : String) → keys_of other (Service.delete_api_key c owner key d) ≡ keys_of other d
    unfolding Service.delete_api_key Repository.delete_api_key
    keys_of-delete_api_key key =
        rw all-delete_one (keep-delete_first (has_owner_and_key owner key) _ (apart key) (all d))

    keys_of-update_api_key_activation :
        (key : String) (b : Bool)
        → keys_of other (Service.update_api_key_activation c owner key b d) ≡ keys_of other d
    unfolding Service.update_api_key_activation Repository.update_api_key_activation
    keys_of-update_api_key_activation key b =
        rw all-update_one
          (keep-update_first (has_owner_and_key owner key) _ (apart key) _ (λ k. refl) (all d))

    keys_of-create_api_key :
        (name bytes : String)
        → keys_of other (Service.create_api_key c owner name bytes d).1 ≡ keys_of other d
    keys_of-create_api_key name bytes =
        let k = document c owner name (generate_api_key owner bytes) in
        ap (keys_of other) (create_docs c owner name bytes d) ∙ elim (Option-cases (save k d)) [
          | inl e ↦ rw e refl
          | inr (d', e) ↦
              rw (e, (save_inv c k d d' e).1)
                (keep-append (λ x. str_eq x.owner_id other) (all d) (k ∷ [])
                  ∙ rw differ (append-nil _))
        ]

module _ (p : Platform) (c : Collection ApiKey api_key_key) (now : ℕ) (request : Request)
    (other : String)
    (differ : (payload : Payload)
      → Carries p now request payload
      → str_eq payload.sub other ≡ false) where
  class_type_lem :
      can_activate p now none (class_type p c) request ≡ can_activate p now none none request
  unfolding can_activate
  class_type_lem = refl

  -- A handler that leaves the keys of others alone, behind the guard.
  guarded_keys :
      {R : Type 0} (handler : Request → Exec c.Docs Exception R) (s : c.Docs)
      → ((payload : Payload)
          → str_eq payload.sub other ≡ false
          → keys_of c other (handler (with_user p request payload) s).1 ≡ keys_of c other s)
      → keys_of c other (guarded (can_activate p now none (class_type p c) request) handler s).1
        ≡ keys_of c other s
  guarded_keys handler s keeps =
      ap (λ x. keys_of c other (guarded x handler s).1) class_type_lem
      ∙ elim (can_activate_cases p now request) [
        | inl (e, h) ↦ ap (λ x. keys_of c other (guarded x handler s).1) h
        | inr (payload, (carries, h)) ↦
            ap (λ x. keys_of c other (guarded x handler s).1) h
            ∙ keeps payload (differ payload carries)
      ]

  -- A request that carries no token of a user leaves the keys of that user as they were, whichever key is
  -- created, deleted or switched.
  pub keys_of-routes :
      (bytes name key : String) (b : Bool) (s : c.Docs)
      → (keys_of c other (create_api_key p c now bytes request name s).1 ≡ keys_of c other s)
        × (keys_of c other (delete_api_key p c now request key s).1 ≡ keys_of c other s)
        × (keys_of c other (update_api_key_activation p c now request key b s).1
            ≡ keys_of c other s)
  unfolding create_api_key delete_api_key update_api_key_activation active_user
  keys_of-routes bytes name key b s = (
    guarded_keys (λ r. Service.create_api_key c (active_user r) name bytes) s
        (λ payload apart'. keys_of-create_api_key c payload.sub other apart' s name bytes),
    guarded_keys (λ r. done (Service.delete_api_key c (active_user r) key)) s
        (λ payload apart'. keys_of-delete_api_key c payload.sub other apart' s key),
    guarded_keys (λ r. done (Service.update_api_key_activation c (active_user r) key b)) s
        (λ payload apart'. keys_of-update_api_key_activation c payload.sub other apart' s key b),
  )
