-- ===== src/Metrics/Volume/Untouched.antt =====
-- The commands of an event that leave a key alone, by the name that the key begins with: families whose
-- names differ from it in a letter have other keys.
use eventify.Common.{
  ℕ, ◌≡◌, Bool, true, false, List, [], ◌∷◌, ◌++◌, Option, none, some, String, str_eq, Bool-cases,
  inl, inr, if◌then◌else◌, All, All-append,
}
use eventify.Common.Number.{decimal}
use eventify.Events.Request.{EventRequest}
use eventify.Metrics.Keys.{metric_key, time_key}
use eventify.Metrics.Keys.Apart.{differ, metric_key-differ, last_activity-differ}
use eventify.Metrics.Keys.Laws.{str_eq_sym}
use eventify.Metrics.Commands.{
  Command, ParsedPayload, hincrby, expire, update_user_metrics, update_event_type_metrics,
  update_geographic_metrics, update_device_metrics, update_referrer_metrics,
  update_performance_metrics, update_volume_metrics, after_volume, window_seconds, session_commands,
  is_conversion, counted, or_else, get_country_from_ip,
}
use eventify.Metrics.Store.{target}

-- A key that is in no family whose name differs from a name.
abbrev pub IsOf : String → String → Type 0
IsOf name key = (g time : String) → differ g name ≡ true → str_eq (metric_key g time) key ≡ false

pub metric_key-IsOf : (family : String) (m : ℕ) → IsOf family (metric_key family (decimal m))
metric_key-IsOf family m g time d = metric_key-differ g family time (decimal m) d

pub last_activity-IsOf : IsOf "last_activity" "metrics:last_activity"
last_activity-IsOf g time d = str_eq_sym _ _ (last_activity-differ g time d)

-- None of the commands names the key.
abbrev pub AllOther : String → List Command → Type 0
AllOther key = All (λ c. str_eq (target c) key ≡ false)

pub AllOther-append :
    (key : String) (xs ys : List Command)
    → AllOther key xs
    → AllOther key ys
    → AllOther key (xs ++ ys)
AllOther-append key xs ys = All-append (λ c. str_eq (target c) key ≡ false) xs ys

-- The families of the tables, the users and the times, all of which differ from a name.
abbrev pub AreApart : String → Type 0
AreApart name =
    (differ "users" name ≡ true)
    × (differ "sessions" name ≡ true)
    × (differ "conversions" name ≡ true)
    × (differ "response_times" name ≡ true)
    × (differ "referrers" name ≡ true)
    × (differ "devices" name ≡ true)
    × (differ "countries" name ≡ true)
    × (differ "event_types" name ≡ true)

module _ (name key : String) (away : IsOf name key) where
  pub AllOther-counted : (g t f : String) → differ g name ≡ true → AllOther key (counted g t f)
  AllOther-counted g t f d = (away g t d, (away g t d, tt))

  pub AllOther-session :
      (t : String) (session : Option String)
      → differ "sessions" name ≡ true
      → AllOther key (session_commands t session)
  AllOther-session t none d = tt
  AllOther-session t (some session) d = elim (Bool-cases (str_eq session "")) [
    | inl e ↦ rw e tt
    | inr e ↦ rw e (away "sessions" t d, (away "sessions" t d, tt))
  ]

  AllOther-conversion :
      (t f : String) (b : Bool)
      → differ "conversions" name ≡ true
      → AllOther key (
          if b
          then hincrby (metric_key "conversions" t) f
            ∷ expire (metric_key "conversions" t) window_seconds
            ∷ []
          else [])
  AllOther-conversion t f true d = (away "conversions" t d, (away "conversions" t d, tt))
  AllOther-conversion t f false d = tt

  pub AllOther-performance :
      (t : String) (now event_time : ℕ)
      → differ "response_times" name ≡ true
      → AllOther key (update_performance_metrics t now event_time)
  unfolding update_performance_metrics
  AllOther-performance t now event_time d = let h = away "response_times" t d in (h, (h, (h, tt)))

  pub AllOther-volumes :
      (time hour day : String) (event : EventRequest)
      → differ "volume" name ≡ true
      → differ "volume:hour" name ≡ true
      → differ "volume:day" name ≡ true
      → AllOther key (update_volume_metrics time hour day event)
  unfolding update_volume_metrics
  AllOther-volumes time hour day event a b c =
      let minutes = away "volume" time a in
      let hours = away "volume:hour" hour b in
      let days = away "volume:day" day c in
      (minutes, (minutes, (minutes, (hours, (hours, (hours, (days, (days, tt))))))))

  pub AllOther-users :
      (t : String) (event : EventRequest) (payload : ParsedPayload)
      → differ "users" name ≡ true
      → differ "sessions" name ≡ true
      → differ "conversions" name ≡ true
      → AllOther key (update_user_metrics t event payload)
  unfolding update_user_metrics
  AllOther-users t event payload u s c = (
    away "users" t u,
    (
      away "users" t u,
      AllOther-append key (session_commands t payload.session_id) _
          (AllOther-session t payload.session_id s)
          (AllOther-conversion t event.event_name (is_conversion event.event_name) c),
    ),
  )

  module _ (now event_time index : ℕ) (event : EventRequest) (payload : ParsedPayload) where
    abbrev t : String
    t = time_key now

    abbrev performance : List Command
    performance = update_performance_metrics t now event_time

    abbrev from_referrers : List Command
    from_referrers = counted "referrers" t (or_else payload.referrer "Direct") ++ performance

    abbrev from_devices : List Command
    from_devices = counted "devices" t (or_else payload.device "unknown") ++ from_referrers

    abbrev country : String
    country = or_else payload.country (or_else (some (get_country_from_ip index)) "Unknown")

    abbrev from_countries : List Command
    from_countries = counted "countries" t country ++ from_devices

    abbrev from_event_types : List Command
    from_event_types = counted "event_types" t event.event_name ++ from_countries

    pub AllOther-from_referrers :
        differ "response_times" name ≡ true
        → differ "referrers" name ≡ true
        → AllOther key from_referrers
    AllOther-from_referrers p r =
        AllOther-append key (counted "referrers" t (or_else payload.referrer "Direct")) performance
          (AllOther-counted "referrers" t (or_else payload.referrer "Direct") r)
          (AllOther-performance t now event_time p)

    pub AllOther-from_devices :
        differ "response_times" name ≡ true
        → differ "referrers" name ≡ true
        → differ "devices" name ≡ true
        → AllOther key from_devices
    AllOther-from_devices p r d =
        AllOther-append key (counted "devices" t (or_else payload.device "unknown")) from_referrers
          (AllOther-counted "devices" t (or_else payload.device "unknown") d)
          (AllOther-from_referrers p r)

    pub AllOther-from_countries :
        differ "response_times" name ≡ true
        → differ "referrers" name ≡ true
        → differ "devices" name ≡ true
        → differ "countries" name ≡ true
        → AllOther key from_countries
    AllOther-from_countries p r d c =
        AllOther-append key (counted "countries" t country) from_devices
          (AllOther-counted "countries" t country c) (AllOther-from_devices p r d)

    pub AllOther-from_event_types :
        differ "response_times" name ≡ true
        → differ "referrers" name ≡ true
        → differ "devices" name ≡ true
        → differ "countries" name ≡ true
        → differ "event_types" name ≡ true
        → AllOther key from_event_types
    AllOther-from_event_types p r d c n =
        AllOther-append key (counted "event_types" t event.event_name) from_countries
          (AllOther-counted "event_types" t event.event_name n) (AllOther-from_countries p r d c)

    -- What follows the commands on the volume, for a name that differs from all of these.
    pub AllOther-rest :
        AreApart name → AllOther key (after_volume now event_time index event payload)
    unfolding after_volume update_event_type_metrics update_geographic_metrics update_device_metrics
        update_referrer_metrics
    AllOther-rest (u, s, v, p, r, d, c, n) =
        AllOther-append key (update_user_metrics t event payload) from_event_types
          (AllOther-users t event payload u s v) (AllOther-from_event_types p r d c n)

    -- What follows them if the payload cannot be read.
    pub AllOther-unread :
        differ "response_times" name ≡ true
        → differ "event_types" name ≡ true
        → AllOther key (update_event_type_metrics t event ++ performance)
    unfolding update_event_type_metrics
    AllOther-unread p n =
        AllOther-append key (update_event_type_metrics t event) performance
          (AllOther-counted "event_types" t event.event_name n)
          (AllOther-performance t now event_time p)
