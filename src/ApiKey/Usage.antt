-- ===== src/ApiKey/Usage.antt =====
-- src/api-key/api-key-usage.service.ts, with the Lua script of constants/lua-scripts.constant.ts.
-- The write that every thousandth call makes to MongoDB is not awaited there; here it takes effect
-- with the call. ioredis sends `true` and `false` as these words.
pub mod Laws
pub mod Apart
pub mod Increment
pub mod Metered
pub mod Sync
pub mod Race
use Prim.Native.String
use eventify.Common.{
  ℕ, ◌+◌, ◌%◌, Bool, true, false, not, List, [], ◌∷◌, Option, none, some, String, str_eq, ◌==◌,
  if◌then◌else◌,
}
use eventify.Common.Dict
use eventify.Common.Exec.{Outcome, ok}
use eventify.Common.Number.{ℤ, pos, Number, to_string, parse_int, gt_number}
use eventify.Stores.Collection.{Collection}
use eventify.Stores.Hashes.{Hashes}
use eventify.ApiKey.Repository
use eventify.ApiKey.Repository.{ApiKey, api_key_key}

-- `ApiKeyStatus`.
pub record Status : Type 0 where
  pub key : String
  pub owner_id : String
  pub active : Bool
  pub usage_count : Number
  pub usage_limit : Number

-- What `incrementUsage` and `getUsage` return: a status, where a text may be missing, and
-- `limitExceeded`.
pub record Usage : Type 0 where
  pub key : Option String
  pub owner_id : Option String
  pub active : Bool
  pub usage_count : Number
  pub usage_limit : Number
  pub limit_exceeded : Bool

unfoldable pub key_name : String → String
key_name id = String.◌++◌ "api_key:" id

abbrev pub bool_text : Bool → String
bool_text true = "true"
bool_text false = "false"

unfoldable pub status_fields : Status → List (String × String)
unfolding to_string
status_fields s =
    ("key", s.key)
    ∷ ("ownerId", s.owner_id)
    ∷ ("usageCount", to_string s.usage_count)
    ∷ ("usageLimit", to_string s.usage_limit)
    ∷ ("active", bool_text s.active)
    ∷ []

-- `Boolean(text)` of a text or null, and `parseInt` of one.
abbrev pub truthy : Option String → Bool
truthy none = false
truthy (some t) = not (str_eq t "")

abbrev pub parse_field : Option String → Number
parse_field none = none
parse_field (some t) = parse_int t

abbrev pub is_text : Option String → String → Bool
is_text none t = false
is_text (some u) t = str_eq u t

abbrev pub is_empty : {A : Type 0} → List A → Bool
is_empty [] = true
is_empty (x ∷ xs) = false

abbrev pub count_or_zero : Option ℕ → ℕ
count_or_zero none = 0
count_or_zero (some n) = n

module _ (h : Hashes) where
  open h use {Store, hgetall, hset, del, hincrby}

  abbrev pub field : String → String → Store → Option String
  field id f s = Dict.get f (hgetall (key_name id) s)

  unfoldable pub initialize_api_key_usage : String → Status → Store → Store
  initialize_api_key_usage id status s =
      if is_empty (hgetall (key_name id) s) then hset (key_name id) (status_fields status) s else s

  unfoldable pub register_api_key : String → Status → Store → Store
  register_api_key id status s =
      let cleared = if is_empty (hgetall (key_name id) s) then s else del (key_name id) s in
      hset (key_name id) (status_fields status) cleared

  unfoldable pub get_usage : String → Store → Option Usage
  get_usage id s =
      if is_empty (hgetall (key_name id) s)
      then none
      else let usage_count = parse_field (field id "usageCount" s) in
        let usage_limit = parse_field (field id "usageLimit" s) in
        some (record {
          key = field id "key" s;
          owner_id = field id "ownerId" s;
          active = is_text (field id "active" s) "1";
          usage_count = usage_count;
          usage_limit = usage_limit;
          limit_exceeded = gt_number usage_count usage_limit;
        })

  unfoldable pub reset_usage : String → Store → Store
  reset_usage id s = hset (key_name id) (("usageCount", "0") ∷ []) s

  unfoldable pub delete_api_key_usage : String → Store → Store
  delete_api_key_usage id s = del (key_name id) s

  -- The service's state: Redis, its own counters of calls, and the collection that it updates.
  pub record State (c : Collection ApiKey api_key_key) : Type 0 where
    pub redis : Store
    pub sync_counter : List (String × ℕ)
    pub api_keys : c.Docs

  module _ (c : Collection ApiKey api_key_key) where
    -- `updateApiKeyUsage(apiKey, …)` with the key that the script returned; a null matches nothing.
    abbrev pub sync_usage : Option String → Number → c.Docs → c.Docs
    sync_usage none count d = d
    sync_usage (some key) count d = Repository.update_api_key_usage c key count d

    unfoldable pub increment_usage : String → State c → Usage × State c
    increment_usage id s =
        let (count, redis) = hincrby (key_name id) "usageCount" s.redis in
        let usage_count = parse_int (to_string (some count)) in
        let usage_limit = parse_field (field id "usageLimit" redis) in
        let key = field id "key" redis in
        let calls = count_or_zero (Dict.get id s.sync_counter) + 1 in
        let synced = calls % 1000 == 0 in
        (
          record {
            key = key;
            owner_id = field id "ownerId" redis;
            active = truthy (field id "active" redis);
            usage_count = usage_count;
            usage_limit = usage_limit;
            limit_exceeded = gt_number usage_count usage_limit;
          },
          record {
            redis = redis;
            sync_counter =
                if synced
                then Dict.put id 0 (Dict.put id calls s.sync_counter)
                else Dict.put id calls s.sync_counter;
            api_keys = if synced then sync_usage key usage_count s.api_keys else s.api_keys;
          },
        )

    unfoldable pub increment_all : List String → State c → State c
    increment_all [] s = s
    increment_all (id ∷ ids) s = increment_all ids (increment_usage id s).1
