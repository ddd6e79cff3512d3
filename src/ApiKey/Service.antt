-- ===== src/ApiKey/Service.antt =====
-- src/api-key/api-key.service.ts. The random bytes of a key are an argument, in hexadecimal.
pub mod Laws
use Prim.Native.String
use Prim.Native.String.{slice}
use eventify.Common.{
  [], ◌∷◌, ℕ, Bool, true, false, not, List, Option, none, some, String, if◌then◌else◌,
}
use eventify.Common.Exec.{
  Exec, Outcome, ok, throw, follow, ◌>>=◌, ◌>>◌, return, fail, reads, modify,
}
use eventify.Common.Number.{Number, gt_number, ge_number}
use eventify.Http.Exception.{Exception, bad_request, error}
use eventify.Stores.Collection.{Collection}
use eventify.ApiKey.Repository
use eventify.ApiKey.Repository.{ApiKey, api_key_key}

infixr 65 ◌+++◌
abbrev ◌+++◌ : String → String → String
a +++ b = String.◌++◌ a b

unfoldable pub generate_api_key : String → String → String
generate_api_key owner random_bytes = "evntfy_" +++ slice owner 0 4 +++ "_" +++ random_bytes

-- A found document, or the error.
abbrev pub or_fail : {S A : Type 0} → Option A → Exception → Exec S Exception A
or_fail none e s = (throw e, s)
or_fail (some a) e s = (ok a, s)

abbrev pub fail_if : {S : Type 0} → Bool → Exception → Exec S Exception (Unit {0})
fail_if true e s = (throw e, s)
fail_if false e s = (ok tt, s)

-- `save`: a new collection, or the database's error.
abbrev pub or_duplicate : {D : Type 0} → Option D → Exec D Exception (Unit {0})
or_duplicate none s = (throw (error "E11000 duplicate key error"), s)
or_duplicate (some d) s = (ok tt, d)

module _ (c : Collection ApiKey api_key_key) where
  open c use {Docs}

  unfoldable pub validate_api_key : String → Exec Docs Exception ApiKey
  unfolding Repository.find_api_key
  validate_api_key key = do
    found ← reads (Repository.find_api_key c key)
    api_key ← or_fail found (bad_request "Invalid API key. Please provide a valid key.")
    fail_if (not api_key.active)
        (bad_request "This API key has been deactivated. Please request a new one.")
    fail_if (ge_number api_key.usage_count api_key.usage_limit) (
        bad_request
          "API key usage limit reached. Please upgrade your plan to continue using the service.")
    return api_key

  unfoldable pub create_api_key : String → String → String → Exec Docs Exception String
  unfolding Repository.create_api_key
  create_api_key owner name random_bytes = do
    let key = generate_api_key owner random_bytes
    docs ← reads (λ d. d)
    or_duplicate (
        Repository.create_api_key c
          (record { key = key; name = name; owner_id = owner; usage_limit = none }) docs)
    return key

  unfoldable pub delete_api_key : String → String → Docs → Docs
  unfolding Repository.delete_api_key
  delete_api_key owner key = Repository.delete_api_key c owner key

  unfoldable pub update_api_key_activation : String → String → Bool → Docs → Docs
  unfolding Repository.update_api_key_activation
  update_api_key_activation owner key is_active =
      Repository.update_api_key_activation c owner key is_active

  unfoldable pub find_user_api_keys : String → Docs → List ApiKey
  unfolding Repository.find_user_api_keys
  find_user_api_keys owner = Repository.find_user_api_keys c owner

  unfoldable pub update_api_key_usage : String → Number → Docs → Docs
  unfolding Repository.update_api_key_usage
  update_api_key_usage key count = Repository.update_api_key_usage c key count

-- A call that changes the collection, and a history of them; one that throws changes nothing more.
pub data Operation : Type 0 where
  create : String → String → String → Operation
  remove : String → String → Operation
  activate : String → String → Bool → Operation
  record_usage : String → Number → Operation

module _ (c : Collection ApiKey api_key_key) where
  open c use {Docs}

  unfoldable pub step : Docs → Operation → Docs
  step d (create owner name bytes) = (create_api_key c owner name bytes d).1
  step d (remove owner key) = delete_api_key c owner key d
  step d (activate owner key b) = update_api_key_activation c owner key b d
  step d (record_usage key n) = update_api_key_usage c key n d

  unfoldable pub run : Docs → List Operation → Docs
  run d [] = d
  run d (o ∷ os) = run (step d o) os
