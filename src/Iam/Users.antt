-- ===== src/Iam/Users.antt =====
-- src/users/schemas/user.schema.ts, src/users/repository/user.repository.ts and src/users/users.service.ts.
-- No field of the schema is left out of a document that is read.
use eventify.Common.{Bool, true, false, List, Option, String, str_eq}
use eventify.Stores.Collection.{Collection}
use eventify.Iam.Platform.{Platform}

pub record User : Type 0 where
  pub id : String
  pub name : String
  pub email : String
  pub password : String
  pub is_email_verified : Bool
  pub role : String

-- `IUser`.
pub record NewUser : Type 0 where
  pub name : String
  pub email : String
  pub password : String

abbrev pub user_key : User → String
user_key u = u.email

abbrev pub has_id : String → User → Bool
has_id id u = str_eq u.id id

abbrev pub has_email : String → User → Bool
has_email email u = str_eq u.email email

-- The document of a new user: the id is Mongoose's, the role the default one.
abbrev pub new_user : Platform → String → NewUser → User
new_user p id user = record {
  id = id;
  name = user.name;
  email = p.normalize_email user.email;
  password = user.password;
  is_email_verified = false;
  role = "user";
}

module _ (p : Platform) (c : Collection User user_key) where
  open c use {Docs, find_one, update_one, save}

  unfoldable pub find_by_id : String → Docs → Option User
  find_by_id id = find_one (has_id id)

  unfoldable pub find_by_email : String → Docs → Option User
  find_by_email email = find_one (has_email (p.normalize_email email))

  unfoldable pub update_email_verification_status : String → Bool → Docs → Docs
  update_email_verification_status email verified =
      update_one (has_email (p.normalize_email email))
        (λ u. record u { is_email_verified = verified })

  unfoldable pub create_user : String → NewUser → Docs → Option Docs
  create_user id user = save (new_user p id user)

-- `foo` of `UsersService`.
module _ (c : Collection User user_key) where
  unfoldable pub foo : c.Docs → List User
  foo = c.find (λ u. true)
