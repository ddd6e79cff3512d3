-- ===== src/Metrics/Dashboard/Chart.antt =====
-- What the chart of the last 24 hours shows, after a history of events.
use eventify.Common.{
  ℕ, zero, suc, ◌+◌, ◌-◌, ◌*◌, ◌≤◌, ◌≡◌, refl, ap, ◌∙◌, List, [], ◌∷◌, ◌++◌, map, none, some,
  String, arith,
}
use eventify.Common.Number.{Number, pos}
use eventify.Metrics.Dashboard.{VolumePoint, hour, hour_points, generate_24_hour_data}
use eventify.Metrics.Keys.{hour_key}
use eventify.Metrics.Store.{MetricsStore}
use eventify.Metrics.Volume.{Processed, process_all}
use eventify.Metrics.Volume.History.{
  IsFresh, hgetall-Counts, known_after, readable, readable_recent, readable_old, readable-le,
  total_between,
}
use eventify.Metrics.Volume.Counting.{weighed}
use eventify.Metrics.Volume.Hour.{hours, hour_of}
use eventify.Metrics.Window.Reading.{count_of-Counts}

abbrev pub events_of : VolumePoint → Number
events_of p = p.events

abbrev pub zeros : ℕ → List Number
zeros zero = []
zeros (suc n) = some (pos 0) ∷ zeros n

module _ (time_label : ℕ → String) (ms : MetricsStore) (now : ℕ) (es : List Processed)
    (s : ms.Store) (fresh : IsFresh ms (hours ms) s) where
  later : ms.Store
  later = process_all ms es s

  -- What is read for the hour that was some hours ago.
  hour_count : ℕ → ℕ
  hour_count i = readable 3600 now (known_after hour_of weighed (hour_of (now - i * hour)) none es)

  points : ℕ → List VolumePoint
  points n = hour_points time_label ms n now later

  events_of-points :
      (i : ℕ)
      → map events_of (points (suc i)) ≡ some (pos (hour_count i)) ∷ map events_of (points i)
  unfolding points hour_points hour_key later hour_count
  events_of-points i =
      ap (λ x. x ∷ map events_of (points i))
        (count_of-Counts _ _
          (hgetall-Counts ms (hours ms) now (hour_of (now - i * hour)) es s fresh))

  hour_count_old : (i h : ℕ) → h + i ≡ hour_of now → 2 ≤ i → hour_count i ≡ 0
  unfolding hour_count
  hour_count_old i h e old =
      readable_old hour_of weighed 3600 now (hour_of (now - i * hour)) es
        (λ last inside. omega arith)

  hour_back : (i h : ℕ) → h + i ≡ hour_of now → hour_of (now - i * hour) ≡ h
  hour_back i h e = omega arith

  hour_count-le : (i h : ℕ) → h + i ≡ hour_of now → hour_count i ≤ total_between hour_of h h es
  unfolding hour_count
  hour_count-le i h e = rw (hour_back i h e) (readable-le hour_of weighed 3600 now h es)

  hour_count_this : (h : ℕ) → h ≡ hour_of now → hour_count 0 ≡ total_between hour_of h h es
  unfolding hour_count
  hour_count_this h e =
      rw (hour_back 0 h (omega arith))
        (readable_recent hour_of weighed 3600 now h es (λ last inside. omega arith))

  -- The first of the points are those of hours that have expired.
  points_old :
      (n : ℕ)
      → n + 1 ≤ hour_of now
      → map events_of (points (suc (suc n))) ≡ zeros n ++ map events_of (points 2)
  points_old zero h = refl
  points_old (suc n) h =
      events_of-points (suc (suc n))
      ∙ ap (λ k. some (pos k) ∷ map events_of (points (suc (suc n))))
          (hour_count_old (suc (suc n)) (hour_of now - suc (suc n)) (omega arith) (omega arith))
      ∙ ap (◌∷◌ (some (pos 0))) (points_old n (omega arith))

  no_points : map events_of (points 0) ≡ []
  unfolding points hour_points
  no_points = refl

  -- After any history on a fresh store, with 23 hours on the clock, the chart shows 0 for the first 22 of its 24 hours, whatever happened in
  -- them; for the hour before this one at most the events of that hour; and the events of this hour.
  pub generate_24_hour_data_lem :
      (h : ℕ)
      → h + 23 ≡ hour_of now
      → (n : ℕ) × (n ≤ total_between hour_of (h + 22) (h + 22) es)
        × (map events_of (generate_24_hour_data time_label ms now (process_all ms es s))
            ≡ zeros 22
              ++ some (pos n) ∷ some (pos (total_between hour_of (h + 23) (h + 23) es)) ∷ [])
  unfolding generate_24_hour_data points later
  generate_24_hour_data_lem h e = (
    hour_count 1,
    hour_count-le 1 (h + 22) (omega arith),
    points_old 22 (omega arith)
        ∙ ap (◌++◌ (zeros 22)) (
            events_of-points 1
            ∙ ap (◌∷◌ (some (pos (hour_count 1)))) (
                events_of-points 0
                ∙ ap (λ k. some (pos k) ∷ map events_of (points 0)) (hour_count_this (h + 23) e)
                ∙ ap (◌∷◌ (some (pos (total_between hour_of (h + 23) (h + 23) es)))) no_points)),
  )
