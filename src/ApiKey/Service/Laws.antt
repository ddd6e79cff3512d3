-- ===== src/ApiKey/Service/Laws.antt =====
-- Who passes `validateApiKey`, and what the operations on keys do to it.
use eventify.Common.{
  ◌≡◌, ◌↔◌, refl, ◌∙◌, Bool, true, false, List, [], ◌∷◌, ◌++◌, none, some, String, eq_iff, arith,
  Option-cases, inl, inr,
}
use text.Mathlib.TextPositions.{eq_refl}
use eventify.Common.Exec.{ok, throw}
use eventify.Common.Number.{pos, ge_number}
use eventify.Http.Exception.{bad_request}
use eventify.Stores.Collection.{Collection, first, first-append, first_holds}
use eventify.ApiKey.Repository
use eventify.ApiKey.Repository.{
  ApiKey, NewApiKey, api_key_key, has_key, has_owner_and_key, new_document,
}
use eventify.ApiKey.Repository.Laws.{
  Distinct, drop_if, change_if, first-delete_first, first-update_key, Distinct-delete_first,
  Distinct-update_first, Distinct-append,
}
use eventify.ApiKey.Service.{
  Operation, create, remove, activate, record_usage, step, run, or_duplicate, generate_api_key,
  validate_api_key, create_api_key, delete_api_key, update_api_key_activation, update_api_key_usage,
}

module _ (c : Collection ApiKey api_key_key) where
  open c use {Docs, all, find_one_lem, all-delete_one, all-update_one, save_taken, save_free, save}

  -- A key is accepted, with its document, exactly when it is stored, active, and below its limit.
  pub validate_api_key_ok_iff :
      (key : String) (d : Docs) (k : ApiKey)
      → (validate_api_key c key d ≡ (ok k, d)) ↔ (
          (first (has_key key) (all d) ≡ some k)
          × (k.active ≡ true)
          × (ge_number k.usage_count k.usage_limit ≡ false))
  unfolding validate_api_key
  validate_api_key_ok_iff key d k = ground (arith, find_one_lem (has_key key) d)

  -- A key is accepted, with its document, exactly when it is stored, active, and below its limit; the
  -- check changes nothing, whether it accepts the key or refuses it.
  pub validate_api_key_iff :
      (key : String) (d : Docs) (k : ApiKey)
      → (((validate_api_key c key d).0 ≡ ok k) ↔ (
          (first (has_key key) (all d) ≡ some k)
          × (k.active ≡ true)
          × (ge_number k.usage_count k.usage_limit ≡ false)))
        × ((validate_api_key c key d).1 ≡ d)
  unfolding validate_api_key
  validate_api_key_iff key d k = ground (arith, find_one_lem (has_key key) d)

  validate_missing :
      (key : String) (d : Docs)
      → first (has_key key) (all d) ≡ none
      → validate_api_key c key d
        ≡ (throw (bad_request "Invalid API key. Please provide a valid key."), d)
  unfolding validate_api_key
  validate_missing key d h = ground (arith, find_one_lem (has_key key) d)

  validate_inactive :
      (key : String) (d : Docs) (k : ApiKey)
      → first (has_key key) (all d) ≡ some k
      → k.active ≡ false
      → validate_api_key c key d
        ≡ (throw (bad_request "This API key has been deactivated. Please request a new one."), d)
  unfolding validate_api_key
  validate_inactive key d k h e = ground (arith, find_one_lem (has_key key) d)

  pub validate_used_up :
      (key : String) (d : Docs) (k : ApiKey)
      → first (has_key key) (all d) ≡ some k
      → k.active ≡ true
      → ge_number k.usage_count k.usage_limit ≡ true
      → validate_api_key c key d ≡ (
        throw (
            bad_request
              "API key usage limit reached. Please upgrade your plan to continue using the service."),
        d,
      )
  unfolding validate_api_key
  validate_used_up key d k h e u = ground (arith, find_one_lem (has_key key) d)

  -- What a look-up of any key finds after a deletion: a key goes exactly if it is the given one and
  -- belongs to the given owner, and every other key is found as before.
  pub find-delete_api_key :
      (owner key j : String) (d : Docs)
      → Distinct (all d)
      → Repository.find_api_key c j (delete_api_key c owner key d)
        ≡ drop_if (has_owner_and_key owner key) (Repository.find_api_key c j d)
  unfolding delete_api_key Repository.find_api_key
  find-delete_api_key owner key j d u =
      simp (find_one_lem, all-delete_one) (first-delete_first owner key j (all d) u)

  -- What a look-up of any key finds after a change of the activation: the given key has the new flag
  -- if it belongs to the given owner, and every other key is found as before.
  pub find-update_api_key_activation :
      (owner key j : String) (b : Bool) (d : Docs)
      → Repository.find_api_key c j (update_api_key_activation c owner key b d)
        ≡ change_if
            (has_owner_and_key owner key)
            (λ k. record k { active = b })
            (Repository.find_api_key c j d)
  unfolding update_api_key_activation Repository.find_api_key
  find-update_api_key_activation owner key j b d =
      simp (find_one_lem, all-update_one) (first-update_key owner key j b (all d))

  module _ (owner key : String) (d : Docs) (k : ApiKey)
      (found : first (has_key key) (all d) ≡ some k) (owned : k.owner_id ≡ owner) where
    is_owned : has_owner_and_key owner key k ≡ true
    is_owned = ground (arith, first_holds (has_key key) (all d) k found, eq_iff k.owner_id owner)

    -- After a key's owner deletes it, the key is refused as unknown.
    pub validate-delete :
        Distinct (all d)
        → validate_api_key c key (delete_api_key c owner key d) ≡ (
          throw (bad_request "Invalid API key. Please provide a valid key."),
          delete_api_key c owner key d,
        )
    unfolding delete_api_key
    validate-delete u =
        validate_missing key _ (
          rw (all-delete_one, first-delete_first owner key key (all d) u, found) (rw is_owned refl))

    -- After the owner switches it off, the key is refused as deactivated.
    pub validate_deactivated :
        validate_api_key c key (update_api_key_activation c owner key false d) ≡ (
          throw (bad_request "This API key has been deactivated. Please request a new one."),
          update_api_key_activation c owner key false d,
        )
    unfolding update_api_key_activation
    validate_deactivated =
        validate_inactive key _ (record k { active = false })
          (rw (all-update_one, first-update_key owner key key false (all d), found)
            (rw is_owned refl))
          refl

  pub save_inv :
      (k : ApiKey) (d d' : Docs)
      → save k d ≡ some d'
      → (first (has_key k.key) (all d) ≡ none) × (all d' ≡ all d ++ k ∷ [])
  save_inv k d d' h = elim (Option-cases (first (has_key k.key) (all d))) [
    | inl e ↦ let (d'', saved, grown) = save_free k d e in (e, ground arith)
    | inr (b, e) ↦ let refused : save k d ≡ none = save_taken k b d e in absurd (ground arith)
  ]

  abbrev pub document : String → String → String → ApiKey
  document owner name key = record {
    name = name;
    key = key;
    owner_id = owner;
    active = true;
    usage_count = some (pos 0);
    usage_limit = some (pos 5000);
  }

  pub create_inv :
      (owner name bytes : String) (d d' : Docs) (key : String)
      → create_api_key c owner name bytes d ≡ (ok key, d')
      → (key ≡ generate_api_key owner bytes) × (save (document owner name key) d ≡ some d')
  unfolding create_api_key new_document
  create_inv owner name bytes d d' key h =
      elim (Option-cases (save (document owner name (generate_api_key owner bytes)) d)) [
        | inl e ↦ absurd (ground arith)
        | inr (x, e) ↦ ground arith
      ]

  -- A key that was created is accepted at once, with no use and a limit of 5000.
  pub validate-create :
      (owner name bytes : String) (d d' : Docs) (key : String)
      → create_api_key c owner name bytes d ≡ (ok key, d')
      → validate_api_key c key d' ≡ (ok (document owner name key), d')
  validate-create owner name bytes d d' key h =
      let saved = (create_inv owner name bytes d d' key h).1 in
      let (free, grown) = save_inv (document owner name key) d d' saved in
      (validate_api_key_ok_iff key d' (document owner name key)).1
        (rw grown (first-append (has_key key) (all d) _ free ∙ rw (eq_refl key) refl), refl, refl)

  pub create_docs :
      (owner name bytes : String) (d : Docs)
      → (create_api_key c owner name bytes d).1
        ≡ (or_duplicate (save (document owner name (generate_api_key owner bytes)) d) d).1
  unfolding create_api_key new_document
  create_docs owner name bytes d = ground arith

  or_duplicate-Distinct :
      (k : ApiKey) (d : Docs) → Distinct (all d) → Distinct (all (or_duplicate (save k d) d).1)
  or_duplicate-Distinct k d u = elim (Option-cases (save k d)) [
    | inl e ↦ rw e u
    | inr (d', e) ↦
        let (free, grown) = save_inv k d d' e in rw (e, grown) (Distinct-append k (all d) free u)
  ]

  step-Distinct : (d : Docs) (o : Operation) → Distinct (all d) → Distinct (all (step c d o))
  unfolding step delete_api_key update_api_key_activation update_api_key_usage
  step-Distinct d (create owner name bytes) u =
      rw create_docs
        (or_duplicate-Distinct (document owner name (generate_api_key owner bytes)) d u)
  step-Distinct d (remove owner key) u =
      rw all-delete_one (Distinct-delete_first owner key (all d) u)
  step-Distinct d (activate owner key b) u =
      rw all-update_one (Distinct-update_first _ _ (all d) (λ k. refl) u)
  step-Distinct d (record_usage key n) u =
      rw all-update_one (Distinct-update_first _ _ (all d) (λ k. refl) u)

  -- No history of creations, deletions, activations and usage updates leaves two documents with
  -- one key.
  pub run-Distinct :
      (d : Docs) (os : List Operation) → Distinct (all d) → Distinct (all (run c d os))
  unfolding run
  run-Distinct d [] u = u
  run-Distinct d (o ∷ os) u = run-Distinct (step c d o) os (step-Distinct d o u)
