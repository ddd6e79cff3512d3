-- ===== src/Routes.antt =====
-- The routes behind the global guard: src/events-http/events-http.controller.ts,
-- src/api-key/api-key.controller.ts and src/users/users.controller.ts. NestJS asks the guard first and calls the handler with the request
-- that it leaves; `@ActiveUser('sub')` is the user's id, which a request has once the guard let it in.
pub mod Laws
pub mod Accounts
pub mod Keys
pub mod Tests
use eventify.Common.{ℕ, Bool, true, false, List, Option, none, some, String}
use eventify.Common.Exec.{Exec, Outcome, ok, throw}
use eventify.Http.Exception.{Exception, http}
use eventify.Stores.Collection.{Collection}
use eventify.ApiKey.Repository.{ApiKey, api_key_key}
use eventify.ApiKey.Service
use eventify.EventsHttp.Repository.{EventCollection}
use eventify.EventsHttp.Service as Events
use eventify.EventsHttp.Service.{GetEventsDto, Page, DeleteReply}
use eventify.Iam.Platform.{Platform, Payload}
use eventify.Iam.Guards.{Request, Declared, one, bearer, nothing, can_activate}
use eventify.Iam.Users.{User, user_key, foo}

-- The handler runs only for a request that the guard lets in.
abbrev pub guarded :
    {S A : Type 0}
    → Outcome Exception Bool × Request
    → (Request → Exec S Exception A)
    → Exec S Exception A
guarded (ok true, request) handler s = handler request s
guarded (ok false, request) handler s = (throw (http 403 "Forbidden resource"), s)
guarded (throw e, request) handler s = (throw e, s)

abbrev pub sub_of : Option Payload → String
sub_of none = ""
sub_of (some payload) = payload.sub

-- `@ActiveUser('sub')`.
unfoldable pub active_user : Request → String
active_user request = sub_of request.user

-- A handler whose result is that of a change that cannot fail.
abbrev pub done : {S : Type 0} → (S → S) → Exec S Exception (Unit {0})
done f s = (ok tt, f s)

module _ (p : Platform) (new_date : String → ℕ) (c : EventCollection) where
  open c use {Docs}

  unfoldable pub get_events : ℕ → Request → GetEventsDto → Exec Docs Exception Page
  unfolding Events.get_events can_activate active_user
  get_events now request query =
      guarded (can_activate p now none none request)
        (λ r. Events.get_events new_date c (active_user r) query)

  unfoldable pub delete_event : ℕ → Request → String → Exec Docs Exception DeleteReply
  unfolding Events.delete_event can_activate active_user
  delete_event now request id =
      guarded (can_activate p now none none request) (λ r. Events.delete_event c (active_user r) id)

  unfoldable pub delete_patch_events : ℕ → Request → List String → Exec Docs Exception DeleteReply
  unfolding Events.delete_batch_events can_activate active_user
  delete_patch_events now request ids =
      guarded (can_activate p now none none request)
        (λ r. Events.delete_batch_events c (active_user r) ids)

module _ (p : Platform) (c : Collection ApiKey api_key_key) where
  open c use {Docs}

  -- `@Auth(AuthType.Bearer)` on the class.
  abbrev pub class_type : Option Declared
  class_type = some (one bearer)

  unfoldable pub find_user_api_keys : ℕ → Request → Exec Docs Exception (List ApiKey)
  unfolding Service.find_user_api_keys can_activate active_user
  find_user_api_keys now request =
      guarded (can_activate p now none class_type request)
        (λ r s. (ok (Service.find_user_api_keys c (active_user r) s), s))

  unfoldable pub create_api_key : ℕ → String → Request → String → Exec Docs Exception String
  unfolding Service.create_api_key can_activate active_user
  create_api_key now random_bytes request name =
      guarded (can_activate p now none class_type request)
        (λ r. Service.create_api_key c (active_user r) name random_bytes)

  unfoldable pub validate_api_key : ℕ → Request → String → Exec Docs Exception ApiKey
  unfolding Service.validate_api_key can_activate
  validate_api_key now request key =
      guarded (can_activate p now none class_type request) (λ r. Service.validate_api_key c key)

  unfoldable pub delete_api_key : ℕ → Request → String → Exec Docs Exception (Unit {0})
  unfolding Service.delete_api_key can_activate active_user
  delete_api_key now request key =
      guarded (can_activate p now none class_type request)
        (λ r. done (Service.delete_api_key c (active_user r) key))

  unfoldable pub update_api_key_activation :
      ℕ → Request → String → Bool → Exec Docs Exception (Unit {0})
  unfolding Service.update_api_key_activation can_activate active_user
  update_api_key_activation now request key is_active =
      guarded (can_activate p now none class_type request)
        (λ r. done (Service.update_api_key_activation c (active_user r) key is_active))

module _ (p : Platform) (c : Collection User user_key) where
  -- `@Auth(AuthType.None)` on the handler.
  unfoldable pub get_all : ℕ → Request → Exec c.Docs Exception (List User)
  unfolding can_activate foo
  get_all now request =
      guarded (can_activate p now (some (one nothing)) none request) (λ r s. (ok (foo c s), s))
