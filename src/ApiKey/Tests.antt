-- ===== src/ApiKey/Tests.antt =====
-- API keys and their usage at concrete values: a list for the documents, a table for the hashes.
use eventify.Common.{◌≡◌, ◌↔◌, refl, true, false, [], ◌∷◌, List, some}
use eventify.Common.Exec.{ok}
use eventify.Common.Number.{pos, decimal, to_string, ge_number, gt_number}
use eventify.Stores.Collection.{Collection, first}
use eventify.Stores.InMemory.{list_collection, table_hashes}
use eventify.ApiKey.Repository.{ApiKey, api_key_key, has_key}
use eventify.ApiKey.Service.{validate_api_key}
use eventify.ApiKey.Service.Laws.{validate_api_key_iff}
use eventify.ApiKey.Usage.{
  Status, State, register_api_key, get_usage, increment_usage, increment_all,
}
use eventify.ApiKey.Usage.Laws.{
  Holds, register_api_key-Holds, get_usage_of_Holds, increment_usage_answer,
}
use eventify.ApiKey.Usage.Increment.{Registered, counter}
use eventify.ApiKey.Usage.Race.{
  initialize_begin, initialize_finish, initialize_finish-increment_all,
}
use eventify.ApiKey.Usage.Sync.{IsSynced, increment_all-IsSynced}

abbrev keys : Collection ApiKey api_key_key
keys = list_collection api_key_key

abbrev first_key : ApiKey
first_key = record {
  name = "first";
  key = "k1";
  owner_id = "ann";
  active = true;
  usage_count = some (pos 3);
  usage_limit = some (pos 5000);
}

abbrev docs : List ApiKey
docs = first_key ∷ []

validate_api_key_iff_example :
    (((validate_api_key keys "k1" docs).0 ≡ ok first_key) ↔ (
      (first (has_key "k1") docs ≡ some first_key)
      × (true ≡ true)
      × (ge_number (some (pos 3)) (some (pos 5000)) ≡ false)))
    × ((validate_api_key keys "k1" docs).1 ≡ docs)
validate_api_key_iff_example = validate_api_key_iff keys "k1" docs first_key

abbrev status : Status
status = record {
  key = "k1";
  owner_id = "ann";
  active = true;
  usage_count = some (pos 3);
  usage_limit = some (pos 5000);
}

register_api_key-Holds_example :
    Holds table_hashes "k1" status (register_api_key table_hashes "k1" status [])
register_api_key-Holds_example = register_api_key-Holds table_hashes "k1" status []

abbrev registered : State table_hashes keys
registered = record {
  redis = register_api_key table_hashes "k1" status [];
  sync_counter = [];
  api_keys = docs;
}

get_usage_of_Holds_example :
    get_usage table_hashes "k1" registered.redis
    ≡ some (record {
      key = some "k1";
      owner_id = some "ann";
      active = false;
      usage_count = some (pos 3);
      usage_limit = some (pos 5000);
      limit_exceeded = gt_number (some (pos 3)) (some (pos 5000));
    })
get_usage_of_Holds_example =
    get_usage_of_Holds table_hashes "k1" status registered.redis
      (register_api_key-Holds table_hashes "k1" status [])

increment_usage_answer_example : (increment_usage table_hashes keys "k1" registered).0 ≡ record {
  key = some "k1";
  owner_id = some "ann";
  active = true;
  usage_count = some (pos 4);
  usage_limit = some (pos 5000);
  limit_exceeded = gt_number (some (pos 4)) (some (pos 5000));
}
increment_usage_answer_example =
    increment_usage_answer table_hashes keys "k1" status 3 registered refl
      (register_api_key-Holds table_hashes "k1" status [])

increment_all-IsSynced_example :
    IsSynced table_hashes keys "k1" 3
      (some (pos 3))
      2
      (increment_all table_hashes keys ("k1" ∷ "k1" ∷ []) registered)
unfolding decimal to_string
increment_all-IsSynced_example =
    let held = register_api_key-Holds table_hashes "k1" status [] in
    let there : Registered table_hashes keys "k1" registered.redis =
      (3, held.count_field, held.key_field) in
    increment_all-IsSynced table_hashes keys "k1" 3 (some (pos 3)) ("k1" ∷ "k1" ∷ []) registered
      (there, (there, tt)) held.count_field held.key_field refl refl

abbrev unseen : State table_hashes keys
unseen = record { redis = []; sync_counter = []; api_keys = docs }

initialize_finish-increment_all_example :
    let counted = increment_all table_hashes keys ("k1" ∷ "k1" ∷ []) unseen in
    (counter table_hashes keys "k1" counted ≡ 2)
    × Holds table_hashes "k1" status (
        initialize_finish table_hashes
          (initialize_begin table_hashes "k1" [])
          "k1"
          status
          counted.redis)
initialize_finish-increment_all_example =
    initialize_finish-increment_all table_hashes keys "k1" status (true ∷ true ∷ []) unseen refl
      refl
