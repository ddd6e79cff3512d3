-- ===== src/Metrics/Window/Tables.antt =====
-- What the tables of the active window count, after a history of events.
use mathlib.Core.Path.{subst}
use eventify.Common.{false, ℕ, ◌+◌, ◌≡◌, refl, List, [], Option, none, String, arith}
use eventify.Common.Dict
use eventify.Metrics.Keys.{metric_key, time_key}
use eventify.Metrics.Merge.{is_inherited, merge_redis_data_in_place}
use eventify.Metrics.Store.{MetricsStore}
use eventify.Metrics.Tables.{table_key}
use eventify.Metrics.Tables.Families.{
  event_type_of, country_of, device_of, referrer_of, conversion_of,
}
use eventify.Metrics.Tables.Families.Steps.{
  CountsValues, counts_event_types, counts_countries, counts_devices, counts_referrers,
  counts_conversions,
}
use eventify.Metrics.Tables.History.{gain, happened, gained_between-happened, hgetall-Counts}
use eventify.Metrics.Volume.{Processed, minute_of, process_all}
use eventify.Metrics.Volume.History.{Counts}
use eventify.Metrics.Window.{
  Gathered, nothing_gathered, gather, gather_rounds, get_active_window_metrics,
}
use eventify.Metrics.Window.Reading.{Reading, Counts-rounds, read_back_recent}

module _ (ms : MetricsStore) where
  open ms use {Store, view, hgetall}

  -- No table of any minute has been written to.
  abbrev pub AreFresh : Store → Type 0
  AreFresh s =
      (family : String) (m : ℕ)
      → view (table_key family m) s ≡ record { fields = []; deadline = none }

  module _ (now : ℕ) (es : List Processed) (s : Store) (fresh : AreFresh s) (field : String)
      (own : is_inherited field ≡ false) where
    later : Store
    later = process_all ms es s

    reading :
        (family : String) (value : Processed → Option String)
        → CountsValues ms family value
        → Reading ms now es later
    unfolding later
    reading family value counts = record {
      family = family;
      field = field;
      own = own;
      gain = gain value field;
      Counts-minute = λ m. hgetall-Counts ms family value counts field now m es s (fresh family m);
    }

    table_lem :
        (family : String) (value : Processed → Option String)
        → CountsValues ms family value
        → (table : Gathered → List (String × String)) → table nothing_gathered ≡ []
        → ((time : ℕ) (g : Gathered)
            → table (gather ms now time later g)
              ≡ merge_redis_data_in_place
                  (table g)
                  (hgetall now (metric_key family (time_key time)) later))
        → (first : ℕ) → first + 4 ≡ minute_of now
        → Counts
            (Dict.get field (table (gather_rounds ms 5 0 now later nothing_gathered)))
            (happened value field first (minute_of now) es)
    unfolding reading
    table_lem family value counts table empty table-gather first h =
        subst (Counts _)
          (omega (
            arith,
            read_back_recent now es (gain value field) 4 0 now first (minute_of now) h (omega arith)
                (omega arith),
            gained_between-happened value field first (minute_of now) es,
          ))
          (Counts-rounds ms now es later (reading family value counts) table table-gather 5 0
            nothing_gathered 0 (rw empty refl))

  -- After any history of events with a readable time and a payload that is not null, on a fresh store,
  -- once the clock is past its first four minutes: the tables of the active window hold, for each
  -- value that is not the name of a property that every JavaScript object inherits, how many events
  -- of this minute and the four before it have that event type, country, device, referrer or
  -- conversion; such a value that a table lacks is one that none of them has.
  pub get_active_window_metrics-tables :
      (now : ℕ) (es : List Processed) (s : Store)
      → AreFresh s
      → (first : ℕ) → first + 4 ≡ minute_of now
      → (field : String) → is_inherited field ≡ false
      → let window = get_active_window_metrics ms now (process_all ms es s) in
        Counts
          (Dict.get field window.event_types)
          (happened event_type_of field first (minute_of now) es)
        × Counts
            (Dict.get field window.countries)
            (happened country_of field first (minute_of now) es)
        × Counts (Dict.get field window.devices) (happened device_of field first (minute_of now) es)
        × Counts
            (Dict.get field window.referrers)
            (happened referrer_of field first (minute_of now) es)
        × Counts
            (Dict.get field window.conversions)
            (happened conversion_of field first (minute_of now) es)
  unfolding get_active_window_metrics later gather
  get_active_window_metrics-tables now es s fresh first h field own = (
    table_lem now es s fresh field own "event_types" event_type_of (counts_event_types ms)
        (λ g. g.event_types) refl (λ time g. refl) first h,
    table_lem now es s fresh field own "countries" country_of (counts_countries ms)
        (λ g. g.countries) refl (λ time g. refl) first h,
    table_lem now es s fresh field own "devices" device_of (counts_devices ms) (λ g. g.devices) refl
        (λ time g. refl) first h,
    table_lem now es s fresh field own "referrers" referrer_of (counts_referrers ms)
        (λ g. g.referrers) refl (λ time g. refl) first h,
    table_lem now es s fresh field own "conversions" conversion_of (counts_conversions ms)
        (λ g. g.conversions) refl (λ time g. refl) first h,
  )
