-- ===== src/Metrics/Tables/History.antt =====
-- What a history of events leaves in the hashes of one family, and what a read finds there.
use eventify.Common.{
  ℕ, suc, ◌+◌, ◌*◌, ◌≡◌, refl, List, [], ◌∷◌, ◌&&◌, Bool, false, Option, none, some, String, str_eq,
  ltb, leb, if◌then◌else◌, arith, Bool-cases, inl, inr,
}
use eventify.Common.Dict
use eventify.Metrics.Commands.{window_seconds}
use eventify.Metrics.Store.{Hash, visible, MetricsStore}
use eventify.Metrics.Tables.{table_key, gain_of, Fits}
use eventify.Metrics.Tables.Families.Steps.{CountsValues}
use eventify.Metrics.Volume.{Processed, minute_of, process, process_all}
use eventify.Metrics.Volume.Counting.{Summary, seen}
use eventify.Metrics.Volume.History.{Counts, known_after, readable, gained_between}

abbrev pub is_value : Option String → String → Bool
is_value none field = false
is_value (some value) field = str_eq value field

-- How many events from one minute to another, both included, have a value.
abbrev pub happened : (Processed → Option String) → String → ℕ → ℕ → List Processed → ℕ
happened value field first last [] = 0
happened value field first last (e ∷ es) =
    let rest = happened value field first last es in
    if leb first (minute_of e.now) && leb (minute_of e.now) last && is_value (value e) field
    then suc rest
    else rest

module _ (value : Processed → Option String) (field : String) where
  abbrev pub gain : Processed → Option ℕ
  gain e = gain_of field (value e)

  pub gained_between-happened :
      (first last : ℕ) (es : List Processed)
      → gained_between minute_of gain first last es ≡ happened value field first last es
  gained_between-happened first last [] = refl
  gained_between-happened first last (e ∷ es) =
      ground (arith, gained_between-happened first last es)

module _ (ms : MetricsStore) (family : String) (value : Processed → Option String)
    (counts : CountsValues ms family value) (field : String) where
  open ms use {Store, view, hgetall, hgetall_lem}

  process_all-Fits :
      (m : ℕ) (known : Summary) (es : List Processed) (s : Store)
      → Fits family field m known (view (table_key family m) s)
      → Fits family field m
          (known_after minute_of (gain value field) m known es)
          (view (table_key family m) (process_all ms es s))
  unfolding process_all process
  process_all-Fits m known [] s f = f
  process_all-Fits m known (e ∷ es) s f =
      process_all-Fits m (seen minute_of (gain value field) m e known) es (process ms e s)
        (counts field m e known s f)

  Counts-visible :
      (now m : ℕ) (known : Summary) (h : Hash)
      → Fits family field m known h
      → Counts (Dict.get field (visible now h)) (readable window_seconds now known)
  Counts-visible now m none h f = rw f refl
  Counts-visible now m (some (n, last)) h (same, count, absent, kept) =
      elim (Bool-cases (ltb now (last + window_seconds * 1000))) [
        | inl e ↦ rw (kept, e) count
        | inr e ↦ rw (kept, e) refl
      ]

  absent-visible :
      (now m : ℕ) (known : Summary) (h : Hash)
      → Fits family field m known h
      → readable window_seconds now known ≡ 0
      → Dict.get field (visible now h) ≡ none
  absent-visible now m none h f e = rw f refl
  absent-visible now m (some (n, last)) h (same, count, absent, kept) e =
      elim (Bool-cases (ltb now (last + window_seconds * 1000))) [
        | inl l ↦ rw (kept, l) (absent (rw l at e))
        | inr l ↦ rw (kept, l) refl
      ]

  -- What a read of a minute does not count is not there.
  pub hgetall-absent :
      (now m : ℕ) (es : List Processed) (s : Store)
      → view (table_key family m) s ≡ record { fields = []; deadline = none }
      → readable window_seconds now (known_after minute_of (gain value field) m none es) ≡ 0
      → Dict.get field (hgetall now (table_key family m) (process_all ms es s)) ≡ none
  hgetall-absent now m es s fresh e =
      rw (hgetall_lem now (table_key family m) (process_all ms es s)) (
        absent-visible now m (known_after minute_of (gain value field) m none es) _
          (process_all-Fits m none es s fresh) e)

  -- What a read of a minute counts, after a history.
  pub hgetall-Counts :
      (now m : ℕ) (es : List Processed) (s : Store)
      → view (table_key family m) s ≡ record { fields = []; deadline = none }
      → Counts
          (Dict.get field (hgetall now (table_key family m) (process_all ms es s)))
          (readable window_seconds now (known_after minute_of (gain value field) m none es))
  hgetall-Counts now m es s fresh =
      rw (hgetall_lem now (table_key family m) (process_all ms es s)) (
        Counts-visible now m (known_after minute_of (gain value field) m none es) _
          (process_all-Fits m none es s fresh))
