-- ===== src/Metrics/Window/Reading.antt =====
-- What the rounds of the two windows count for one field of one family of hashes, given what a read of
-- one minute counts.
use mathlib.Core.Path.{subst}
use eventify.Common.{
  false, ℕ, zero, suc, ◌+◌, ◌-◌, ◌*◌, ◌≤◌, ◌≡◌, refl, ap, List, Option, none, some, String, arith,
}
use eventify.Common.Dict
use eventify.Common.Number.{pos, decimal, parse_int}
use eventify.Common.Number.RoundTrip.{decimal-StartsDigit}
use eventify.Metrics.Keys.{metric_key, time_key}
use eventify.Metrics.Merge.{is_inherited, merge_redis_data_in_place, merged_value}
use eventify.Metrics.Merge.Laws.{
  merged, get-merge_redis_data_in_place, not_empty, parse_int-decimal, merged_value-decimal,
}
use eventify.Metrics.Store.{MetricsStore}
use eventify.Metrics.Volume.{Processed, minute_of}
use eventify.Metrics.Commands.{window_seconds}
use eventify.Metrics.Volume.History.{
  Counts, known_after, readable, readable_recent, readable-le, readable_old, gained_between,
  gained_between_split,
}
use eventify.Metrics.Window.{count_of, Gathered, gather, gather_rounds}

-- A count and a count merged.
Counts-merged :
    (a b : Option String) (n m : ℕ) → Counts a n → Counts b m → Counts (merged a b) (n + m)
unfolding merged_value
Counts-merged none none n m h k = omega arith
Counts-merged (some a) none n m h k = rw h (ap decimal {x = n} {y = n + m} (omega arith))
Counts-merged none (some b) n m h k = rw k (ap decimal {x = m} {y = n + m} (omega arith))
Counts-merged (some a) (some b) n m h k = rw (h, k) (merged_value-decimal n m)

pub Counts-zero : (a : Option String) (n : ℕ) → Counts a n → Counts a (n + 0)
Counts-zero a n h = subst (Counts a) (omega arith) h

pub Counts-assoc : (a : Option String) (n m k : ℕ) → Counts a (n + m + k) → Counts a (n + (m + k))
Counts-assoc a n m k h = subst (Counts a) (omega arith) h

pub count_of-Counts : (a : Option String) (n : ℕ) → Counts a n → count_of a ≡ some (pos n)
unfolding parse_int
count_of-Counts none n h = rw h refl
count_of-Counts (some a) n h =
    rw (h, not_empty (decimal n) (decimal-StartsDigit n)) (parse_int-decimal n)

module _ (now : ℕ) (es : List Processed) (gain : Processed → Option ℕ) where
  -- What `n` rounds of either loop read, from a time back in steps of a minute.
  abbrev pub read_back : ℕ → ℕ → ℕ → ℕ
  read_back zero i start = 0
  read_back (suc n) i start =
      readable window_seconds now
        (known_after minute_of gain (minute_of (start - i * 60 * 1000)) none es)
      + read_back n (i + 1) start

  minute_back : (m i start : ℕ) → m + i ≡ minute_of start → minute_of (start - i * 60 * 1000) ≡ m
  minute_back m i start h = omega arith

  round_recent :
      (m i start : ℕ)
      → m + i ≡ minute_of start
      → minute_of now ≤ m + 6
      → readable window_seconds now
          (known_after minute_of gain (minute_of (start - i * 60 * 1000)) none es)
        ≡ gained_between minute_of gain m m es
  round_recent m i start h recent =
      rw (minute_back m i start h)
        (readable_recent minute_of gain window_seconds now m es (λ last inside. omega arith))

  pub round_old :
      (m i start : ℕ)
      → m + i ≡ minute_of start
      → m + 8 ≤ minute_of now
      → readable window_seconds now
          (known_after minute_of gain (minute_of (start - i * 60 * 1000)) none es)
        ≡ 0
  round_old m i start h old =
      rw (minute_back m i start h)
        (readable_old minute_of gain window_seconds now m es (λ last inside. omega arith))

  -- Rounds that all read recent minutes count what happened in them.
  pub read_back_recent :
      (n i start first last : ℕ)
      → first + n ≡ last
      → last + i ≡ minute_of start
      → minute_of now ≤ first + 6
      → read_back (suc n) i start ≡ gained_between minute_of gain first last es
  read_back_recent zero i start first last e f recent =
      omega (arith, round_recent last i start f (omega arith), same)
    where
      same :
          gained_between minute_of gain last last es ≡ gained_between minute_of gain first last es
      same = ap (λ m. gained_between minute_of gain m last es) (omega arith)
  read_back_recent (suc n) i start first last e f recent = omega (
    arith,
    round_recent last i start f (omega arith),
    read_back_recent n (i + 1) start first (last - 1) (omega arith) (omega arith) recent,
    gained_between_split minute_of gain first (last - 1) last last es (omega arith) (omega arith)
        (omega arith),
  )

  pub round-le :
      (m i start : ℕ)
      → m + i ≡ minute_of start
      → readable window_seconds now
          (known_after minute_of gain (minute_of (start - i * 60 * 1000)) none es)
        ≤ gained_between minute_of gain m m es
  round-le m i start h =
      rw (minute_back m i start h) (readable-le minute_of gain window_seconds now m es)

-- One table of what is gathered: its family of keys, where it is, and one field of it, with what an
-- event adds to that field and what a read of a minute counts there.
pub record Reading (ms : MetricsStore) (now : ℕ) (es : List Processed) (later : ms.Store)
    : Type 0 where
  pub family : String
  pub field : String
  -- No plain object inherits the field.
  pub own : is_inherited field ≡ false
  pub gain : Processed → Option ℕ
  pub Counts-minute :
      (m : ℕ)
      → Counts
          (Dict.get field (ms.hgetall now (metric_key family (decimal m)) later))
          (readable window_seconds now (known_after minute_of gain m none es))

module _ (ms : MetricsStore) (now : ℕ) (es : List Processed) (later : ms.Store)
    (reading : Reading ms now es later) where
  open ms use {hgetall, hgetall-IsDistinct}
  open reading use {family, field, own, gain, Counts-minute}

  -- What the read of a minute adds to a count.
  pub Counts-read :
      (acc : List (String × String)) (n time : ℕ)
      → Counts (Dict.get field acc) n
      → Counts
          (Dict.get field
            (merge_redis_data_in_place acc (hgetall now (metric_key family (time_key time)) later)))
          (n + readable window_seconds now (known_after minute_of gain (minute_of time) none es))
  unfolding time_key
  Counts-read acc n time h =
      rw
        (get-merge_redis_data_in_place field acc
          (hgetall now (metric_key family (decimal (minute_of time))) later) own
          (hgetall-IsDistinct now (metric_key family (decimal (minute_of time))) later))
        (Counts-merged (Dict.get field acc) _ n _ h (Counts-minute (minute_of time)))

  module _ (table : Gathered → List (String × String))
      (table-gather : (time : ℕ) (g : Gathered)
        → table (gather ms now time later g)
          ≡ merge_redis_data_in_place
              (table g)
              (hgetall now (metric_key family (time_key time)) later)) where
    pub Counts-rounds :
        (n i : ℕ) (g : Gathered) (c : ℕ)
        → Counts (Dict.get field (table g)) c
        → Counts
            (Dict.get field (table (gather_rounds ms n i now later g)))
            (c + read_back now es gain n i now)
    unfolding gather_rounds
    Counts-rounds zero i g c h = Counts-zero _ c h
    Counts-rounds (suc n) i g c h = Counts-assoc _ c _ _ (
        Counts-rounds n (i + 1) (gather ms now (now - i * 60 * 1000) later g) _ (
          rw (table-gather (now - i * 60 * 1000) g)
            (Counts-read (table g) c (now - i * 60 * 1000) h)))
