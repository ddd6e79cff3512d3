-- ===== src/Metrics/Ranking.antt =====
-- The ranked lists of the dashboard: src/metrics/metrics-aggregation.service.ts. The entries of an
-- object come in insertion order, and `Array.prototype.sort` is stable.
pub mod Laws
use eventify.Common.{
  ℕ, not, Bool, List, [], ◌∷◌, map, take, keep, String, str_eq, if◌then◌else◌, some,
}
use eventify.Common.Number.{Number, pos, parse_int, gt_number}
use eventify.Metrics.Rounding.{Share, share, nothing}

pub record Ranked : Type 0 where
  pub name : String
  pub count : Number

-- `{ name, count: parseInt(count) }`.
unfoldable pub ranked : String × String → Ranked
ranked (name, count) = record { name = name; count = parse_int count }

module _ {A : Type 0} (value : A → Number) where
  -- An entry goes before those that are not above it.
  unfoldable pub insert_by : A → List A → List A
  insert_by x [] = x ∷ []
  insert_by x (y ∷ ys) =
      let rest = insert_by x ys in if gt_number (value y) (value x) then y ∷ rest else x ∷ y ∷ ys

  -- `.sort((a, b) => value(b) - value(a))`.
  unfoldable pub sort_by : List A → List A
  unfolding insert_by
  sort_by [] = []
  sort_by (x ∷ xs) = insert_by x (sort_by xs)

abbrev pub count_of_ranked : Ranked → Number
count_of_ranked r = r.count

abbrev pub is_event : String × String → Bool
is_event (name, count) = not (str_eq name "total_events")

unfoldable pub process_top_events : List (String × String) → List Ranked
unfolding sort_by ranked
process_top_events event_types =
    take 10 (sort_by count_of_ranked (map ranked (keep is_event event_types)))

unfoldable pub process_geographic_data : List (String × String) → List Ranked
unfolding sort_by ranked
process_geographic_data countries = take 5 (sort_by count_of_ranked (map ranked countries))

unfoldable pub process_device_data : List (String × String) → List Ranked
unfolding sort_by ranked
process_device_data devices = sort_by count_of_ranked (map ranked devices)

unfoldable pub process_referrer_data : List (String × String) → List Ranked
unfolding sort_by ranked
process_referrer_data referrers = take 5 (sort_by count_of_ranked (map ranked referrers))

-- An event type with its share of the total, which is 0 if there is no event.
pub record Distribution : Type 0 where
  pub name : String
  pub value : Number
  pub percentage : Share

unfoldable pub distributed : Number → String × String → Distribution
distributed total (name, count) =
    let value = parse_int count in
    record {
      name = name;
      value = value;
      percentage = if gt_number total (some (pos 0)) then share value total else nothing;
    }

abbrev pub value_of : Distribution → Number
value_of d = d.value

unfoldable pub process_event_distribution : List (String × String) → Number → List Distribution
unfolding sort_by distributed
process_event_distribution event_types total =
    sort_by value_of (map (distributed total) (keep is_event event_types))
