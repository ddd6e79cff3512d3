-- ===== src/ApiKey/Usage/Laws.antt =====
-- What the hash of a key holds after each operation.
use Prim.Native.String
use text.Mathlib.TextPositions.{eq_refl}
use text.Mathlib.TextLemmas.{append_cancel_left}
use eventify.Common.{
  ℕ, suc, ◌≡◌, refl, ap, ◌∙◌, Bool, true, false, not, List, [], ◌∷◌, none, some, String, str_eq,
  eq_iff, arith, Bool-cases, inl, inr, ◌⊎◌,
}
use eventify.Common.Dict
use eventify.Common.Number.{pos, Number, to_string, decimal, parse_int, gt_number}
use eventify.Common.Number.RoundTrip.{parse_int-to_string}
use eventify.Stores.Collection.{Collection}
use eventify.Stores.Hashes.{Hashes}
use eventify.ApiKey.Repository.{ApiKey, api_key_key}
use eventify.ApiKey.Usage.{
  Status, State, key_name, bool_text, status_fields, is_empty, field, initialize_api_key_usage,
  register_api_key, get_usage, increment_usage,
}

-- Different ids have different keys in Redis.
pub key_name_eq : (a b : String) → str_eq (key_name a) (key_name b) ≡ str_eq a b
unfolding key_name
key_name_eq a b = elim (Bool-cases (str_eq a b)) [
  | inl e ↦ rw e ((eq_iff _ _).1 (ap (String.◌++◌ "api_key:") ((eq_iff a b).0 e)))
  | inr e ↦ rw e (differ (str_eq (key_name a) (key_name b)) refl e)
]
  where
    differ : (t : Bool) → str_eq (key_name a) (key_name b) ≡ t → str_eq a b ≡ false → t ≡ false
    differ false _ _ = refl
    differ true h e =
        absurd (ground (arith, eq_iff a b, append_cancel_left "api_key:" a b ((eq_iff _ _).0 h)))

pub parse_int-number : (n : Number) → parse_int (to_string n) ≡ n
unfolding parse_int to_string
parse_int-number none = refl
parse_int-number (some z) = unfold to_string in parse_int-to_string z

get-nil : (f : String) (fs : List (String × String)) → is_empty fs ≡ true → Dict.get f fs ≡ none
get-nil f [] e = refl
get-nil f (x ∷ fs) e = absurd (ground arith)

flag_unread : (b : Bool) → str_eq (bool_text b) "1" ≡ false
flag_unread true = refl
flag_unread false = refl

flag_truthy : (b : Bool) → not (str_eq (bool_text b) "") ≡ true
flag_truthy true = refl
flag_truthy false = refl

module _ (h : Hashes) where
  open h use {
    Store, hgetall, hset, del, hincrby, get-hset, hgetall-hset_ne, hgetall-del, get-hincrby,
    hincrby_value, hgetall-hincrby_ne,
  }

  pub not_empty :
      (k f : String) (s : Store) {v : String}
      → Dict.get f (hgetall k s) ≡ some v
      → is_empty (hgetall k s) ≡ false
  not_empty k f s e = elim (Bool-cases (is_empty (hgetall k s))) [
    | inl z ↦ absurd (ground (arith, get-nil f (hgetall k s) z))
    | inr z ↦ z
  ]

  -- The hash of a key holds the fields of a status.
  pub record Holds (id : String) (status : Status) (s : Store) : Type 0 where
    pub key_field : field h id "key" s ≡ some status.key
    pub owner_field : field h id "ownerId" s ≡ some status.owner_id
    pub count_field : field h id "usageCount" s ≡ some (to_string status.usage_count)
    pub limit_field : field h id "usageLimit" s ≡ some (to_string status.usage_limit)
    pub active_field : field h id "active" s ≡ some (bool_text status.active)

  pub hset-Holds :
      (id : String) (status : Status) (s : Store)
      → Holds id status (hset (key_name id) (status_fields status) s)
  unfolding status_fields
  hset-Holds id status s = record {
    key_field = written "key" refl;
    owner_field = written "ownerId" refl;
    count_field = written "usageCount" refl;
    limit_field = written "usageLimit" refl;
    active_field = written "active" refl;
  }
    where
      written :
          (f : String) {v : String}
          → Dict.get f (status_fields status) ≡ some v
          → field h id f (hset (key_name id) (status_fields status) s) ≡ some v
      written f e = rw (get-hset, eq_refl, e) refl

  -- A registration replaces whatever was there by the status.
  pub register_api_key-Holds :
      (id : String) (status : Status) (s : Store) → Holds id status (register_api_key h id status s)
  unfolding register_api_key
  register_api_key-Holds id status s = hset-Holds id status _

  -- The first event of a key stores the status; a hash that is there is left as it is.
  pub initialize_api_key_usage_lem :
      (id : String) (status : Status) (s : Store)
      → ((is_empty (hgetall (key_name id) s) ≡ true)
          × Holds id status (initialize_api_key_usage h id status s))
        ⊎ ((is_empty (hgetall (key_name id) s) ≡ false)
            × (initialize_api_key_usage h id status s ≡ s))
  unfolding initialize_api_key_usage
  initialize_api_key_usage_lem id status s =
      elim (Bool-cases (is_empty (hgetall (key_name id) s))) [
        | inl e ↦ inl (e, rw (e, initialize_api_key_usage) (hset-Holds id status s))
        | inr e ↦ inr (e, rw (e, initialize_api_key_usage) refl)
      ]

  module _ (id : String) (status : Status) (s : Store) (held : Holds id status s) where
    -- What is read back is what was registered, key, owner, count and limit, and whether the limit is
    -- exceeded; but the flag is never active, since it is written as a word and compared with 1.
    pub get_usage_of_Holds :
        get_usage h id s
        ≡ some (record {
          key = some status.key;
          owner_id = some status.owner_id;
          active = false;
          usage_count = status.usage_count;
          usage_limit = status.usage_limit;
          limit_exceeded = gt_number status.usage_count status.usage_limit;
        })
    unfolding get_usage
    get_usage_of_Holds =
        rw (not_empty (key_name id) "key" s held.key_field, get_usage)
          (simp (
            held.key_field, held.owner_field, held.count_field, held.limit_field, held.active_field,
            parse_int-number, flag_unread,
          ))

  -- The state before a counted call of a registered key.
  module _ (c : Collection ApiKey api_key_key) (id : String) (status : Status) (n : ℕ)
      (st : State h c) (counted : status.usage_count ≡ some (pos n))
      (held : Holds id status st.redis) where
    count_text : field h id "usageCount" st.redis ≡ some (decimal n)
    unfolding to_string
    count_text = held.count_field ∙ rw counted refl

    field_kept :
        (f : String) {v : String}
        → str_eq "usageCount" f ≡ false
        → field h id f st.redis ≡ some v
        → field h id f (hincrby (key_name id) "usageCount" st.redis).1 ≡ some v
    field_kept f differ e =
        rw
          (
            get-hincrby (key_name id) "usageCount" (key_name id) f n st.redis count_text,
            differ,
            eq_refl,
          )
          e

    -- A counted call of a key with a registered status leaves in Redis that status with a count that is
    -- higher by one.
    pub increment_usage-Holds :
        Holds id
          (record status { usage_count = some (pos (suc n)) })
          (increment_usage h c id st).1.redis
    unfolding increment_usage to_string
    increment_usage-Holds = record {
      key_field = field_kept "key" refl held.key_field;
      owner_field = field_kept "ownerId" refl held.owner_field;
      count_field =
          rw
            (
              get-hincrby (key_name id) "usageCount" (key_name id) "usageCount" n st.redis
                  count_text,
              eq_refl,
            )
            refl;
      limit_field = field_kept "usageLimit" refl held.limit_field;
      active_field = field_kept "active" refl held.active_field;
    }

    -- A counted call of a key with a registered status answers with the count that is higher by one, and
    -- says that the limit is exceeded exactly above it; the flag of the answer is active for a key that
    -- is switched off too.
    pub increment_usage_answer : (increment_usage h c id st).0 ≡ record {
      key = some status.key;
      owner_id = some status.owner_id;
      active = true;
      usage_count = some (pos (suc n));
      usage_limit = status.usage_limit;
      limit_exceeded = gt_number (some (pos (suc n))) status.usage_limit;
    }
    unfolding increment_usage
    increment_usage_answer = simp (
      hincrby_value (key_name id) "usageCount" n st.redis count_text,
      field_kept "key" refl held.key_field,
      field_kept "ownerId" refl held.owner_field,
      field_kept "usageLimit" refl held.limit_field,
      field_kept "active" refl held.active_field,
      parse_int-number,
      flag_truthy,
    )
