-- ===== src/Metrics/Window.antt =====
-- The two windows of the dashboard: `getActiveWindowMetrics` and `getPreviousWindowMetrics` of
-- src/metrics/metrics-aggregation.service.ts. The reads of one call all happen at its time.
pub mod Reading
pub mod Laws
pub mod Tables
pub mod Users
pub mod Sums
pub mod Conversions
use eventify.Common.{
  ℕ, zero, suc, ◌+◌, ◌-◌, ◌*◌, Bool, true, false, List, [], ◌∷◌, ◌++◌, map, length, Option, none,
  some, String, str_eq, if◌then◌else◌,
}
use eventify.Common.Dict
use eventify.Common.Number.{Number, pos, add_number, gt_number, parse_int}
use eventify.Metrics.Commands.{active_window_minutes, or_else}
use eventify.Metrics.Keys.{metric_key, time_key}
use eventify.Metrics.Merge.{merge_redis_data_in_place}
use eventify.Metrics.Rounding.{Share, nothing, share, round_div}
use eventify.Metrics.Store.{MetricsStore, is_member}

-- `parseInt(text || '0')`.
abbrev pub count_of : Option String → Number
count_of text = parse_int (or_else text "0")

-- `Set.prototype.add`, for each of a list.
unfoldable pub add_all : List String → List String → List String
add_all [] set = set
add_all (x ∷ xs) set = add_all xs (if is_member x set then set else set ++ x ∷ [])

unfoldable pub sum_numbers : List Number → Number
sum_numbers [] = some (pos 0)
sum_numbers (x ∷ xs) = add_number x (sum_numbers xs)

-- What the loop over the minutes has gathered.
pub record Gathered : Type 0 where
  pub volume_data : List (String × String)
  pub event_types : List (String × String)
  pub countries : List (String × String)
  pub devices : List (String × String)
  pub referrers : List (String × String)
  pub conversions : List (String × String)
  pub response_times : List String
  pub unique_users : List String

abbrev pub nothing_gathered : Gathered
nothing_gathered = record {
  volume_data = [];
  event_types = [];
  countries = [];
  devices = [];
  referrers = [];
  conversions = [];
  response_times = [];
  unique_users = [];
}

pub record ActiveWindow : Type 0 where
  pub total_events : Number
  pub active_users : ℕ
  pub event_types : List (String × String)
  pub countries : List (String × String)
  pub devices : List (String × String)
  pub referrers : List (String × String)
  pub conversions : List (String × String)
  pub conversion_rate : Share
  pub avg_response_time : Number

pub record PreviousWindow : Type 0 where
  pub total_events : Number
  pub active_users : ℕ

-- `Math.round(sum / length)` of the times, and 0 for none.
unfoldable pub calculate_average_response_time : List String → Number
unfolding sum_numbers
calculate_average_response_time [] = some (pos 0)
calculate_average_response_time (t ∷ ts) =
    round_div (sum_numbers (map parse_int (t ∷ ts))) (length (t ∷ ts))

unfoldable pub conversion_rate : Number → Number → Share
conversion_rate conversions total =
    if gt_number total (some (pos 0)) then share conversions total else nothing

module _ (ms : MetricsStore) where
  open ms use {Store, hgetall, smembers, lrange}

  -- One round of the loop, for the minute of a time.
  unfoldable pub gather : ℕ → ℕ → Store → Gathered → Gathered
  unfolding add_all
  gather now time s g =
      let read = λ (family : String). hgetall now (metric_key family (time_key time)) s in
      record {
        volume_data = merge_redis_data_in_place g.volume_data (read "volume");
        event_types = merge_redis_data_in_place g.event_types (read "event_types");
        countries = merge_redis_data_in_place g.countries (read "countries");
        devices = merge_redis_data_in_place g.devices (read "devices");
        referrers = merge_redis_data_in_place g.referrers (read "referrers");
        conversions = merge_redis_data_in_place g.conversions (read "conversions");
        response_times =
            g.response_times ++ lrange now (metric_key "response_times" (time_key time)) s;
        unique_users = add_all (smembers now (metric_key "users" (time_key time)) s) g.unique_users;
      }

  -- The rounds from `i` on: the first argument counts those that are left.
  unfoldable pub gather_rounds : ℕ → ℕ → ℕ → Store → Gathered → Gathered
  gather_rounds zero i now s g = g
  gather_rounds (suc n) i now s g =
      gather_rounds n (i + 1) now s (gather now (now - i * 60 * 1000) s g)

  unfoldable pub get_active_window_metrics : ℕ → Store → ActiveWindow
  unfolding conversion_rate sum_numbers
  get_active_window_metrics now s =
      let g = gather_rounds active_window_minutes 0 now s nothing_gathered in
      let total_events = count_of (Dict.get "total_events" g.volume_data) in
      let total_conversions = sum_numbers (map (λ e. count_of (some e.1)) g.conversions) in
      record {
        total_events = total_events;
        active_users = length g.unique_users;
        event_types = g.event_types;
        countries = g.countries;
        devices = g.devices;
        referrers = g.referrers;
        conversions = g.conversions;
        conversion_rate = conversion_rate total_conversions total_events;
        avg_response_time = calculate_average_response_time g.response_times;
      }

  -- The volumes and users that the second loop gathers.
  unfoldable pub gather_previous :
      ℕ
      → ℕ
      → ℕ
      → Store
      → List (String × String) × List String
      → List (String × String) × List String
  unfolding add_all
  gather_previous zero i now s g = g
  gather_previous (suc n) i now s (volume_data, unique_users) =
      let time = now - active_window_minutes * 60 * 1000 - i * 60 * 1000 in
      gather_previous n (i + 1) now s (
        merge_redis_data_in_place volume_data (hgetall now (metric_key "volume" (time_key time)) s),
        add_all (smembers now (metric_key "users" (time_key time)) s) unique_users,
      )

  unfoldable pub get_previous_window_metrics : ℕ → Store → PreviousWindow
  get_previous_window_metrics now s =
      let (volume_data, unique_users) = gather_previous active_window_minutes 0 now s ([], []) in
      record {
        total_events = count_of (Dict.get "total_events" volume_data);
        active_users = length unique_users;
      }
