-- ===== src/Routes/Tests.antt =====
-- A deletion and a listing without a token, and a refresh token in the header.
use Prim.Native.String
use eventify.Common.{◌≡◌, refl, true, false, List, [], ◌∷◌, none, some, arith}
use eventify.Common.Exec.{ok}
use eventify.Common.Number.{decimal}
use eventify.EventsHttp.Service.Deletion.{owned}
use eventify.EventsHttp.Tests.{documents, docs}
use eventify.Iam.Authentication.{tokens_for, refresh_payload}
use eventify.Iam.Guards.{Request, can_activate, extract_token_from_header}
use eventify.Iam.Guards.Laws.{with_user}
use eventify.Iam.Platform.Plain
use eventify.Iam.Platform.Plain.{plain}
use eventify.Iam.Authentication.{State, sing_up}
use eventify.Iam.Authentication.Signing.{registered}
use eventify.Iam.Users.{User, NewUser, user_key}
use eventify.Stores.Collection.{Collection}
use eventify.Stores.InMemory.{list_collection}
use eventify.Stores.Memory.{table_strings}
use eventify.Routes.Accounts.{sing_up-get_all}
use eventify.ApiKey.Repository.{ApiKey, api_key_key}
use eventify.ApiKey.Service.Laws.{document}
use eventify.Routes.Keys.{keys_of, keys_of-routes}
use eventify.Routes.{
  delete_patch_events, get_all, create_api_key, delete_api_key, update_api_key_activation,
}
use eventify.Routes.Laws.{can_activate_refresh_token, delete_patch_events-owned}

abbrev anonymous : Request
anonymous = record { authorization = none; user = none }

delete_patch_events-owned_example :
    owned documents "ann"
      (delete_patch_events plain (λ t. 0) documents 0 anonymous ("1" ∷ []) docs).1
    ≡ owned documents "ann" docs
unfolding extract_token_from_header
delete_patch_events-owned_example =
    delete_patch_events-owned plain (λ t. 0) documents (λ owner ids s. (_, _, refl)) 0 anonymous
      ("1" ∷ []) "ann" docs (λ payload (token, e, h, v). absurd (ground (arith, e)))

abbrev ann : User
ann = record {
  id = "u1";
  name = "Ann";
  email = "ann@example.org";
  password = "secret";
  is_email_verified = true;
  role = "user";
}

abbrev request : Request
request = record {
  authorization = some (String.◌++◌ "Bearer " (tokens_for plain 0 "t0" ann).refresh_token);
  user = none;
}

can_activate_refresh_token_example :
    can_activate plain 5000 none none request
    ≡ (ok true, with_user plain request (refresh_payload "t0" ann))
unfolding extract_token_from_header Plain.sign Plain.close decimal
can_activate_refresh_token_example =
    can_activate_refresh_token plain 0 5000 "t0" ann request refl refl (omega arith) (omega arith)

abbrev users : Collection User user_key
users = list_collection user_key

abbrev empty : State users table_strings
empty = record { users = []; redis = λ k. none; mails = [] }

abbrev bob : NewUser
bob = record { name = "Bob"; email = "bob@example.org"; password = "hidden" }

sing_up-get_all_example :
    let after = (sing_up plain users table_strings 0 "u2" "salt" 123456 bob empty).1 in
    let u = registered plain "u2" "salt" bob in
    (get_all plain users 1000 anonymous after.users ≡ (ok (u ∷ []), after.users))
    × (plain.compare "hidden" u.password ≡ true)
sing_up-get_all_example =
    sing_up-get_all plain users table_strings 0 1000 "u2" "salt" 123456 bob anonymous empty refl

abbrev keys : Collection ApiKey api_key_key
keys = list_collection api_key_key

abbrev stored_keys : List ApiKey
stored_keys = document keys "u1" "first" "k1" ∷ []

keys_of-routes_example :
    (keys_of keys "u1" (create_api_key plain keys 0 "ff" anonymous "mine" stored_keys).1
      ≡ stored_keys)
    × (keys_of keys "u1" (delete_api_key plain keys 0 anonymous "k1" stored_keys).1 ≡ stored_keys)
    × (keys_of keys "u1" (update_api_key_activation plain keys 0 anonymous "k1" false stored_keys).1
        ≡ stored_keys)
unfolding extract_token_from_header
keys_of-routes_example =
    keys_of-routes plain keys 0 anonymous "u1"
      (λ payload (token, e, h, v). absurd (ground (arith, e))) "ff" "mine" "k1" false stored_keys
