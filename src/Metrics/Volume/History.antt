-- ===== src/Metrics/Volume/History.antt =====
-- What a history of events leaves in the hashes of a counter, and what a read finds there.
use eventify.Common.{
  ℕ, ◌+◌, ◌*◌, ◌≤◌, ◌<◌, ◌≡◌, refl, ◌∙◌, List, [], ◌∷◌, ◌&&◌, Option, none, some, String, ◌==◌,
  ==_iff, ltb, lt→ltb, ltb→lt, leb, if◌then◌else◌, arith, Bool-cases, inl, inr,
}
use eventify.Common.Dict
use eventify.Common.Number.{decimal}
use eventify.Metrics.Store.{Hash, visible, MetricsStore}
use eventify.Metrics.Volume.{Processed, process, process_all}
use eventify.Metrics.Volume.Counting.{
  Counter, weighed, touched, Summary, total_of, seen, Fits, process-Fits,
}

abbrev or_nothing : Option ℕ → ℕ
or_nothing none = 0
or_nothing (some n) = n

module _ (bucket : ℕ → ℕ) (gain : Processed → Option ℕ) where
  -- What is known of a bucket after more events.
  abbrev pub known_after : ℕ → Summary → List Processed → Summary
  known_after m known [] = known
  known_after m known (e ∷ es) = known_after m (seen bucket gain m e known) es

  -- What the events from one bucket to another add, both included.
  abbrev pub gained_between : ℕ → ℕ → List Processed → ℕ
  gained_between first last [] = 0
  gained_between first last (e ∷ es) =
      let rest = gained_between first last es in
      if leb first (bucket e.now) && leb (bucket e.now) last
      then or_nothing (gain e) + rest
      else rest

  total_of-known_after :
      (m : ℕ) (known : Summary) (es : List Processed)
      → total_of (known_after m known es) ≡ total_of known + gained_between m m es
  total_of-known_after m known [] = omega arith
  total_of-known_after m known (e ∷ es) =
      ground (arith, total_of-known_after m (seen bucket gain m e known) es)

  -- Buckets next to each other.
  pub gained_between_split :
      (first middle next last : ℕ) (es : List Processed)
      → first ≤ middle
      → middle + 1 ≡ next
      → middle < last
      → gained_between next last es + gained_between first middle es ≡ gained_between first last es
  gained_between_split first middle next last [] h e k = refl
  gained_between_split first middle next last (x ∷ es) h e k =
      ground (arith, gained_between_split first middle next last es h e k)

  -- The last event of a bucket is in that bucket.
  abbrev IsInside : ℕ → Summary → Type 0
  IsInside m none = Unit {0}
  IsInside m (some (n, last)) = bucket last ≡ m

  touched-IsInside :
      (m : ℕ) (n : Option ℕ) (now : ℕ) (known : Summary)
      → bucket now ≡ m
      → IsInside m known
      → IsInside m (touched n now known)
  touched-IsInside m none now known same h = h
  touched-IsInside m (some n) now known same h = same

  known_after-IsInside :
      (m : ℕ) (known : Summary) (es : List Processed)
      → IsInside m known
      → IsInside m (known_after m known es)
  known_after-IsInside m known [] h = h
  known_after-IsInside m known (e ∷ es) h =
      known_after-IsInside m (seen bucket gain m e known) es inside
    where
      inside : IsInside m (seen bucket gain m e known)
      inside = elim (Bool-cases (bucket e.now == m)) [
        | inl same ↦
            rw same (touched-IsInside m (gain e) e.now known ((==_iff (bucket e.now) m).0 same) h)
        | inr differ ↦ rw differ h
      ]

-- The weight of the events from one bucket to another.
abbrev pub total_between : (ℕ → ℕ) → ℕ → ℕ → List Processed → ℕ
total_between bucket first last es = gained_between bucket weighed first last es

-- What a read at a time counts for a bucket that is kept for some seconds: its total, or 0 once the hash
-- has expired.
abbrev pub readable : ℕ → ℕ → Summary → ℕ
readable seconds now none = 0
readable seconds now (some (n, last)) = if ltb now (last + seconds * 1000) then n else 0

module _ (bucket : ℕ → ℕ) (gain : Processed → Option ℕ) (seconds now m : ℕ)
    (es : List Processed) where
  -- A bucket whose events are all recent enough is read in full.
  pub readable_recent :
      ((last : ℕ) → bucket last ≡ m → now < last + seconds * 1000)
      → readable seconds now (known_after bucket gain m none es) ≡ gained_between bucket gain m m es
  readable_recent recent =
      live (known_after bucket gain m none es) (known_after-IsInside bucket gain m none es tt)
      ∙ omega (arith, total_of-known_after bucket gain m none es)
    where
      live :
          (known : Summary)
          → IsInside bucket gain m known
          → readable seconds now known ≡ total_of known
      live none inside = refl
      live (some (n, last)) inside =
          rw (lt→ltb now (last + seconds * 1000) (recent last inside)) refl

  -- One whose events are all too old has expired.
  pub readable_old :
      ((last : ℕ) → bucket last ≡ m → last + seconds * 1000 ≤ now)
      → readable seconds now (known_after bucket gain m none es) ≡ 0
  readable_old old =
      dead (known_after bucket gain m none es) (known_after-IsInside bucket gain m none es tt)
    where
      dead : (known : Summary) → IsInside bucket gain m known → readable seconds now known ≡ 0
      dead none inside = refl
      dead (some (n, last)) inside = elim (Bool-cases (ltb now (last + seconds * 1000))) [
        | inl e ↦ absurd (omega (arith, ltb→lt now (last + seconds * 1000) e, old last inside))
        | inr e ↦ rw e refl
      ]

  -- No read counts more than happened.
  pub readable-le :
      readable seconds now (known_after bucket gain m none es) ≤ gained_between bucket gain m m es
  readable-le = omega (
    arith,
    at_most (known_after bucket gain m none es),
    total_of-known_after bucket gain m none es,
  )
    where
      at_most : (known : Summary) → readable seconds now known ≤ total_of known
      at_most none = omega arith
      at_most (some (n, last)) = ground arith

-- A text that counts: none for 0.
abbrev pub Counts : Option String → ℕ → Type 0
Counts none n = n ≡ 0
Counts (some t) n = t ≡ decimal n

Counts-visible :
    (bucket : ℕ → ℕ) (seconds now m : ℕ) (known : Summary) (h : Hash)
    → Fits bucket seconds m known h
    → Counts (Dict.get "total_events" (visible now h)) (readable seconds now known)
Counts-visible bucket seconds now m none h f = rw f refl
Counts-visible bucket seconds now m (some (n, last)) h (same, total, kept) =
    elim (Bool-cases (ltb now (last + seconds * 1000))) [
      | inl e ↦ rw (kept, e, total) refl
      | inr e ↦ rw (kept, e) refl
    ]

module _ (ms : MetricsStore) (counter : Counter ms) where
  open ms use {Store, view, hgetall, hgetall_lem}
  open counter use {bucket, key, seconds}

  -- No event has been counted.
  abbrev pub IsFresh : Store → Type 0
  IsFresh s = (m : ℕ) → view (key m) s ≡ record { fields = []; deadline = none }

  process_all-Fits :
      (m : ℕ) (known : Summary) (es : List Processed) (s : Store)
      → Fits bucket seconds m known (view (key m) s)
      → Fits bucket seconds m
          (known_after bucket weighed m known es)
          (view (key m) (process_all ms es s))
  unfolding process_all
  process_all-Fits m known [] s f = f
  process_all-Fits m known (e ∷ es) s f =
      process_all-Fits m (seen bucket weighed m e known) es (process ms e s)
        (process-Fits ms counter m e known s f)

  -- What a read of a bucket counts, after a history.
  pub hgetall-Counts :
      (now m : ℕ) (es : List Processed) (s : Store)
      → IsFresh s
      → Counts
          (Dict.get "total_events" (hgetall now (key m) (process_all ms es s)))
          (readable seconds now (known_after bucket weighed m none es))
  hgetall-Counts now m es s fresh = rw (hgetall_lem now (key m) (process_all ms es s)) (
      Counts-visible bucket seconds now m (known_after bucket weighed m none es) _
        (process_all-Fits m none es s (fresh m)))
