-- ===== src/Metrics/Commands.antt =====
-- What `processEvent` writes to Redis: the commands of the seven update methods, in the order in which
-- they stand. Promise.all may interleave the methods, which write to different keys. The metrics
-- belong to no owner: no key names one.
use eventify.Common.{
  ℕ, ◌+◌, ◌*◌, zero, suc, Bool, ◌||◌, List, [], ◌∷◌, ◌++◌, Option, none, some, String, str_eq,
  if◌then◌else◌,
}
use eventify.Common.Number.{decimal, to_string, sub_ℕ}
use eventify.Events.Request.{EventRequest}
use eventify.Metrics.Keys.{metric_key, time_key, hour_key, day_key}

pub data Command : Type 0 where
  hincrby : String → String → Command
  expire : String → ℕ → Command
  sadd : String → String → Command
  lpush : String → String → Command
  ltrim : String → ℕ → ℕ → Command
  setex : String → ℕ → String → Command

-- The fields of a parsed payload that are read.
pub record ParsedPayload : Type 0 where
  pub user_id : Option String
  pub session_id : Option String
  pub country : Option String
  pub device : Option String
  pub referrer : Option String

abbrev pub active_window_minutes : ℕ
active_window_minutes = 5

abbrev pub window_seconds : ℕ
window_seconds = (active_window_minutes + 2) * 60

-- `value || other`: a missing value and an empty text give way.
abbrev pub or_else : Option String → String → String
or_else none other = other
or_else (some v) other = if str_eq v "" then other else v

unfoldable pub update_volume_metrics : String → String → String → EventRequest → List Command
update_volume_metrics time hour day event =
    hincrby (metric_key "volume" time) "total_events"
    ∷ hincrby (metric_key "volume" time) event.event_name
    ∷ expire (metric_key "volume" time) window_seconds
    ∷ hincrby (metric_key "volume:hour" hour) "total_events"
    ∷ hincrby (metric_key "volume:hour" hour) event.event_name
    ∷ expire (metric_key "volume:hour" hour) 3600
    ∷ hincrby (metric_key "volume:day" day) "total_events"
    ∷ expire (metric_key "volume:day" day) 86400
    ∷ []

abbrev pub session_commands : String → Option String → List Command
session_commands time none = []
session_commands time (some session) =
    if str_eq session ""
    then []
    else sadd (metric_key "sessions" time) session
      ∷ expire (metric_key "sessions" time) window_seconds
      ∷ []

unfoldable pub is_conversion : String → Bool
is_conversion name = str_eq name "purchase" || str_eq name "signup" || str_eq name "subscribe"

unfoldable pub update_user_metrics : String → EventRequest → ParsedPayload → List Command
unfolding is_conversion
update_user_metrics time event payload =
    (sadd (metric_key "users" time) (or_else payload.user_id "anonymous")
      ∷ expire (metric_key "users" time) window_seconds
      ∷ [])
    ++ (session_commands time payload.session_id
        ++ (if is_conversion event.event_name
            then hincrby (metric_key "conversions" time) event.event_name
              ∷ expire (metric_key "conversions" time) window_seconds
              ∷ []
            else []))

-- One count in one hash, kept for the window.
abbrev pub counted : String → String → String → List Command
counted family time field =
    hincrby (metric_key family time) field ∷ expire (metric_key family time) window_seconds ∷ []

unfoldable pub update_event_type_metrics : String → EventRequest → List Command
update_event_type_metrics time event = counted "event_types" time event.event_name

-- The country that stands in for a missing one is picked at random, whatever the address; the index
-- is below 5.
unfoldable pub get_country_from_ip : ℕ → String
get_country_from_ip zero = "United States"
get_country_from_ip (suc zero) = "United Kingdom"
get_country_from_ip (suc (suc zero)) = "Canada"
get_country_from_ip (suc (suc (suc zero))) = "Germany"
get_country_from_ip _ = "France"

unfoldable pub update_geographic_metrics : String → ℕ → ParsedPayload → List Command
update_geographic_metrics time index payload =
    counted "countries" time
      (or_else payload.country (or_else (some (get_country_from_ip index)) "Unknown"))

unfoldable pub update_device_metrics : String → ParsedPayload → List Command
update_device_metrics time payload = counted "devices" time (or_else payload.device "unknown")

unfoldable pub update_referrer_metrics : String → ParsedPayload → List Command
update_referrer_metrics time payload = counted "referrers" time (or_else payload.referrer "Direct")

unfoldable pub update_performance_metrics : String → ℕ → ℕ → List Command
update_performance_metrics time now event_time =
    lpush (metric_key "response_times" time) (to_string (some (sub_ℕ now event_time)))
    ∷ ltrim (metric_key "response_times" time) 0 99
    ∷ expire (metric_key "response_times" time) 3600
    ∷ []

-- `updateLastActivityTime`, with the time in milliseconds for its ISO text.
unfoldable pub update_last_activity_time : ℕ → List Command
update_last_activity_time now = setex "metrics:last_activity" 3600 (decimal now) ∷ []

-- The six updates behind the volume.
unfoldable pub after_volume : ℕ → ℕ → ℕ → EventRequest → ParsedPayload → List Command
after_volume now event_time index event payload =
    let time = time_key now in
    update_user_metrics time event payload
    ++ (update_event_type_metrics time event
        ++ (update_geographic_metrics time index payload
            ++ (update_device_metrics time payload
                ++ (update_referrer_metrics time payload
                    ++ update_performance_metrics time now event_time))))

-- All that an event with a readable time writes.
unfoldable pub event_commands : ℕ → ℕ → ℕ → EventRequest → ParsedPayload → List Command
unfolding after_volume
event_commands now event_time index event payload =
    update_last_activity_time now
    ++ (update_volume_metrics (time_key now) (hour_key now) (day_key now) event
        ++ after_volume now event_time index event payload)
