-- ===== src/Metrics/Window/Laws.antt =====
-- How many events the windows of the dashboard count, after a history of events.
use eventify.Common.{
  false, ℕ, zero, suc, ◌+◌, ◌-◌, ◌*◌, ◌≤◌, ◌≡◌, refl, ap, ◌∙◌, List, [], some, String, arith,
}
use eventify.Common.Dict
use eventify.Common.Number.{pos}
use eventify.Metrics.Merge.{is_inherited}
use eventify.Metrics.Store.{MetricsStore}
use eventify.Metrics.Volume.{Processed, minute_of, process_all}
use eventify.Metrics.Volume.Counting.{weighed}
use eventify.Metrics.Volume.Minute.{minutes}
use eventify.Metrics.Volume.History.{
  Counts, IsFresh, hgetall-Counts, total_between, gained_between_split,
}
use eventify.Metrics.Window.{
  nothing_gathered, gather, gather_previous, get_active_window_metrics, get_previous_window_metrics,
}
use eventify.Metrics.Window.Reading.{
  Reading, Counts-zero, Counts-assoc, Counts-read, Counts-rounds, count_of-Counts, read_back,
  read_back_recent, round_old, round-le,
}

total_own : is_inherited "total_events" ≡ false
unfolding is_inherited
total_own = refl

module _ (ms : MetricsStore) where
  open ms use {Store}

  module _ (now : ℕ) (es : List Processed) (s : Store) (fresh : IsFresh ms (minutes ms) s) where
    later : Store
    later = process_all ms es s

    abbrev total : Reading ms now es later
    total = record {
      family = "volume";
      field = "total_events";
      own = total_own;
      gain = weighed;
      Counts-minute = λ m. unfold later in hgetall-Counts ms (minutes ms) now m es s fresh;
    }

    Counts-previous :
        (n i : ℕ) (g : List (String × String) × List String) (c : ℕ)
        → Counts (Dict.get "total_events" g.0) c
        → Counts
            (Dict.get "total_events" (gather_previous ms n i now later g).0)
            (c + read_back now es weighed n i (now - 5 * 60 * 1000))
    unfolding gather_previous
    Counts-previous zero i g c h = Counts-zero _ c h
    Counts-previous (suc n) i (v, users) c h = Counts-assoc _ c _ _ (
        Counts-previous n (i + 1) _ _
          (Counts-read ms now es later total v c (now - 5 * 60 * 1000 - i * 60 * 1000) h))

    -- After any history on a fresh store, once the clock is past its first four minutes, the active
    -- window counts the events of this minute and the four before it, each by its weight.
    pub get_active_window_metrics-total_events :
        (first : ℕ)
        → first + 4 ≡ minute_of now
        → (get_active_window_metrics ms now (process_all ms es s)).total_events
          ≡ some (pos (total_between minute_of first (minute_of now) es))
    unfolding get_active_window_metrics later
    get_active_window_metrics-total_events first h =
        count_of-Counts _ _ (
          Counts-rounds ms now es later total (λ g. g.volume_data) (λ time g. unfold gather in refl)
            5 0 nothing_gathered 0 refl)
        ∙ ap (λ n. some (pos n))
            (omega (
              arith,
              read_back_recent now es weighed 4 0 now first (minute_of now) h (omega arith)
                  (omega arith),
            ))

    -- After any history on a fresh store, once the clock is past its first nine minutes: of the window
    -- before, the two later minutes are counted in full, the third at most, and the two earlier ones
    -- not at all.
    pub get_previous_window_metrics-total_events :
        (first : ℕ)
        → first + 9 ≡ minute_of now
        → (n : ℕ) × ((get_previous_window_metrics ms now (process_all ms es s)).total_events
            ≡ some (pos n))
          × (total_between minute_of (first + 3) (first + 4) es ≤ n)
          × (n ≤ total_between minute_of (first + 2) (first + 4) es)
    unfolding get_previous_window_metrics later
    get_previous_window_metrics-total_events first h =
        let start : ℕ = now - 5 * 60 * 1000 in
        let late =
          read_back_recent now es weighed 1 0 start (first + 3) (first + 4) (omega arith)
            (omega arith) (omega arith) in
        let third = round-le now es weighed (first + 2) 2 start (omega arith) in
        let fourth = round_old now es weighed (first + 1) 3 start (omega arith) (omega arith) in
        let fifth = round_old now es weighed first 4 start (omega arith) (omega arith) in
        let split =
          gained_between_split minute_of weighed (first + 2) (first + 2) (first + 3) (first + 4) es
            (omega arith) (omega arith) (omega arith) in
        (
          0 + read_back now es weighed 5 0 start,
          count_of-Counts _ _ (Counts-previous 5 0 ([], []) 0 refl),
          omega (arith, late),
          omega (arith, late, third, fourth, fifth, split),
        )
