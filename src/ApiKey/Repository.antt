-- ===== src/ApiKey/Repository.antt =====
-- src/api-key/schemas/api-key.schema.ts and src/api-key/repository/api-key.repository.ts.
-- The `try` blocks of the repository return promises that they do not await, so a failure of the
-- database reaches the caller as it is; only `save` fails in the model, on a key that is taken.
pub mod Laws
use Prim.Native.Nat.{zero}
use eventify.Common.{Bool, true, ◌&&◌, List, Option, none, some, String, str_eq}
use eventify.Common.Number.{Number, pos}
use eventify.Stores.Collection.{Collection}

pub record ApiKey : Type 0 where
  pub name : String
  pub key : String
  pub owner_id : String
  pub active : Bool
  pub usage_count : Number
  pub usage_limit : Number

-- The data of `new ApiKeyModel(data)`, with the defaults of the schema.
pub record NewApiKey : Type 0 where
  pub key : String
  pub name : String
  pub owner_id : String
  pub usage_limit : Option Number

abbrev pub limit_or_default : Option Number → Number
limit_or_default none = some (pos 5000)
limit_or_default (some n) = n

unfoldable pub new_document : NewApiKey → ApiKey
new_document data' = record {
  name = data'.name;
  key = data'.key;
  owner_id = data'.owner_id;
  active = true;
  usage_count = some (pos zero);
  usage_limit = limit_or_default data'.usage_limit;
}

abbrev pub api_key_key : ApiKey → String
api_key_key k = k.key

-- The filters { key } and { ownerId, key }.
abbrev pub has_key : String → ApiKey → Bool
has_key key k = str_eq k.key key

abbrev pub has_owner_and_key : String → String → ApiKey → Bool
has_owner_and_key owner key k = str_eq k.owner_id owner && str_eq k.key key

module _ (c : Collection ApiKey api_key_key) where
  open c use {Docs, find_one, find, update_one, delete_one, save}

  unfoldable pub update_api_key_activation : String → String → Bool → Docs → Docs
  update_api_key_activation owner key is_active =
      update_one (has_owner_and_key owner key) (λ k. record k { active = is_active })

  unfoldable pub delete_api_key : String → String → Docs → Docs
  delete_api_key owner key = delete_one (has_owner_and_key owner key)

  unfoldable pub update_api_key_usage : String → Number → Docs → Docs
  update_api_key_usage key count = update_one (has_key key) (λ k. record k { usage_count = count })

  unfoldable pub find_api_key : String → Docs → Option ApiKey
  find_api_key key = find_one (has_key key)

  unfoldable pub find_user_api_keys : String → Docs → List ApiKey
  find_user_api_keys owner = find (λ k. str_eq k.owner_id owner)

  unfoldable pub create_api_key : NewApiKey → Docs → Option Docs
  create_api_key data' = save (new_document data')
