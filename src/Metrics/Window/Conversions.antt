-- ===== src/Metrics/Window/Conversions.antt =====
-- The conversion rate of the active window, after a history of events.
use eventify.Common.{
  none, ℕ, zero, suc, ◌+◌, ◌-◌, ◌*◌, ◌≡◌, refl, ap, ◌∙◌, false, List, map, some, String,
  if◌then◌else◌, ltb, arith,
}
use eventify.Common.Dict
use eventify.Common.Dict.{IsDistinct}
use eventify.Common.Number.{pos, gt_number}
use eventify.Metrics.Commands.{is_conversion, window_seconds}
use eventify.Metrics.Keys.{metric_key, time_key}
use eventify.Metrics.Merge.{is_inherited}
use eventify.Metrics.Merge.Laws.{merge-IsDistinct, get-merge_none}
use eventify.Metrics.Rounding.{share, nothing}
use eventify.Metrics.Store.{MetricsStore}
use eventify.Metrics.Tables.Families.{conversion_of}
use eventify.Metrics.Tables.History.{gain, happened, gained_between-happened, hgetall-absent}
use eventify.Metrics.Tables.{table_key}
use eventify.Metrics.Tables.Families.Steps.{counts_conversions}
use eventify.Metrics.Volume.{Processed, minute_of, process_all}
use eventify.Metrics.Volume.History.{Counts, total_between, readable-le}
use eventify.Metrics.Window
use eventify.Metrics.Window.{
  count_of, sum_numbers, Gathered, nothing_gathered, gather, gather_rounds,
  get_active_window_metrics,
}
use eventify.Metrics.Window.Laws.{get_active_window_metrics-total_events}
use eventify.Metrics.Window.Tables.{AreFresh, get_active_window_metrics-tables}
use eventify.Metrics.Window.Sums.{
  by_name, not_conversion, sum_numbers-three, converted, three-happened, happened_other,
}

gt_number-zero : (n : ℕ) → gt_number (some (pos n)) (some (pos 0)) ≡ ltb 0 n
gt_number-zero n = ground arith

module _ (ms : MetricsStore) where
  open ms use {Store, hgetall}

  IsDistinct-rounds :
      (n i now : ℕ) (s : Store) (g : Gathered)
      → IsDistinct g.conversions
      → IsDistinct (gather_rounds ms n i now s g).conversions
  unfolding gather_rounds gather
  IsDistinct-rounds zero i now s g d = d
  IsDistinct-rounds (suc n) i now s g d =
      let time = now - i * 60 * 1000 in
      IsDistinct-rounds n (i + 1) now s (gather ms now time s g) (
        merge-IsDistinct g.conversions (hgetall now (metric_key "conversions" (time_key time)) s) d)

  module _ (now : ℕ) (es : List Processed) (s : Store) (fresh : AreFresh ms s) where
    -- A name that is no conversion is in no table of conversions.
    absent-read :
        (k : String) (m : ℕ)
        → is_conversion k ≡ false
        → Dict.get k (hgetall now (table_key "conversions" m) (process_all ms es s)) ≡ none
    absent-read k m c =
        hgetall-absent ms "conversions" conversion_of (counts_conversions ms) k now m es s
          (fresh "conversions" m)
          (omega (
            arith,
            readable-le minute_of (gain conversion_of k) window_seconds now m es,
            gained_between-happened conversion_of k m m es,
            happened_other m m k es c,
          ))

    absent-rounds :
        (k : String) (n i : ℕ) (g : Gathered)
        → is_conversion k ≡ false
        → Dict.get k g.conversions ≡ none
        → Dict.get k (gather_rounds ms n i now (process_all ms es s) g).conversions ≡ none
    unfolding gather_rounds gather time_key
    absent-rounds k zero i g c h = h
    absent-rounds k (suc n) i g c h =
        let time = now - i * 60 * 1000 in
        absent-rounds k n (i + 1) (gather ms now time (process_all ms es s) g) c (
          get-merge_none k g.conversions
            (hgetall now (table_key "conversions" (minute_of time)) (process_all ms es s)) h
            (absent-read k (minute_of time) c))

    gathered : List (String × String)
    gathered = (gather_rounds ms 5 0 now (process_all ms es s) nothing_gathered).conversions

    total_conversions :
        (first : ℕ)
        → first + 4 ≡ minute_of now
        → sum_numbers (map (λ e. count_of (some e.1)) gathered)
          ≡ some (pos (converted first (minute_of now) es))
    unfolding gathered get_active_window_metrics is_inherited
    total_conversions first h =
        sum_numbers-three gathered (λ k. happened conversion_of k first (minute_of now) es)
          (IsDistinct-rounds 5 0 now (process_all ms es s) nothing_gathered tt)
          (by_name
            (λ k. Counts (Dict.get k gathered) (happened conversion_of k first (minute_of now) es))
            (get_active_window_metrics-tables ms now es s fresh first h "purchase" refl).4
            (get_active_window_metrics-tables ms now es s fresh first h "signup" refl).4
            (get_active_window_metrics-tables ms now es s fresh first h "subscribe" refl).4
            (λ k a b d.
              let c = not_conversion k a b d in
              rw
                (
                  absent-rounds k 5 0 nothing_gathered c refl,
                  happened_other first (minute_of now) k es c,
                )
                refl))
          (λ k. happened_other first (minute_of now) k es)
        ∙ ap (λ n. some (pos n)) (three-happened first (minute_of now) es)

    -- After any history of events with a readable time and a payload that is not null, on a fresh
    -- store, once the clock is past its first four minutes: the conversion rate of the active window is the share of the events of this minute and the four
    -- before it that are conversions in the total of these minutes, or 0 if the total is 0.
    pub get_active_window_metrics-conversion_rate :
        (first : ℕ)
        → first + 4 ≡ minute_of now
        → let total = total_between minute_of first (minute_of now) es in
          let conversions = converted first (minute_of now) es in
          (get_active_window_metrics ms now (process_all ms es s)).conversion_rate
          ≡ (if ltb 0 total then share (some (pos conversions)) (some (pos total)) else nothing)
    unfolding get_active_window_metrics Window.conversion_rate gathered
    get_active_window_metrics-conversion_rate first h =
        rw
          (
            total_conversions first h,
            get_active_window_metrics-total_events ms now es s (λ m. fresh "volume" m) first h,
            gt_number-zero (total_between minute_of first (minute_of now) es),
          )
          refl
