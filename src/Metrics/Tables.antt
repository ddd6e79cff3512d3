-- ===== src/Metrics/Tables.antt =====
-- The hashes that count the values of a field of events by minute: event types, countries, devices,
-- referrers and conversions. What one event does to one of them.
pub mod Families
pub mod History
use mathlib.Core.Path.{subst}
use eventify.Common.{
  ℕ, suc, ◌<◌, ◌+◌, ◌*◌, ◌≡◌, refl, sym, ap, ◌∙◌, true, false, List, [], ◌∷◌, ◌++◌, ==_iff, Option,
  none, some, String, str_eq, eq_iff, ◌==◌, ltb, lt→ltb, if◌then◌else◌, arith, Bool-cases, inl, inr,
}
use eventify.Common.Dict
use eventify.Common.Number.{decimal}
use eventify.Common.Number.RoundTrip.{parse_digits-decimal}
use eventify.Metrics.Commands.{Command, hincrby, expire, counted, window_seconds}
use eventify.Metrics.Keys.{metric_key}
use eventify.Metrics.Keys.Laws.{metric_key_eq}
use eventify.Metrics.Store.{Hash, visible, next_count, is_nil, MetricsStore}
use eventify.Metrics.Volume.{minute_of, execute_all}
use eventify.Metrics.Volume.Counting.{
  Summary, total_of, touched, after, visible-hincrby, execute_all-append, view-execute_all,
}
use eventify.Metrics.Volume.History.{Counts}
use eventify.Metrics.Volume.Untouched.{AllOther}

-- What a value adds to the count of a field, if there is a value at all.
abbrev pub gain_of : String → Option String → Option ℕ
gain_of field none = none
gain_of field (some value) = some (if str_eq value field then 1 else 0)

-- The commands that count a value.
abbrev pub noted : String → String → Option String → List Command
noted family time none = []
noted family time (some value) = counted family time value

next_count-Counts : (a : Option String) (n : ℕ) → Counts a n → next_count a ≡ decimal (suc n)
next_count-Counts none n h = ap decimal {x = 1} {y = suc n} (omega arith)
next_count-Counts (some t) n h = rw (h, parse_digits-decimal) refl

not_nil :
    (m : List (String × String)) (f : String) {v : String}
    → Dict.get f m ≡ some v
    → is_nil m ≡ false
not_nil [] f e = absurd (ground arith)
not_nil (x ∷ m) f e = refl

abbrev pub table_key : String → ℕ → String
table_key family m = metric_key family (decimal m)

module _ (family field : String) (m : ℕ) where
  abbrev key : String
  key = table_key family m

  -- The hash of a minute agrees with what is known of it.
  abbrev pub Fits : Summary → Hash → Type 0
  Fits none h = h ≡ record { fields = []; deadline = none }
  Fits (some (n, last)) h =
      (minute_of last ≡ m)
      × Counts (Dict.get field h.fields) n
      × (n ≡ 0 → Dict.get field h.fields ≡ none)
      × (h.deadline ≡ some (last + window_seconds * 1000))

  Counts-now :
      (now : ℕ) (known : Summary) (h : Hash)
      → minute_of now ≡ m
      → Fits known h
      → Counts (Dict.get field (visible now h)) (total_of known)
  Counts-now now none h here f = rw f refl
  Counts-now now (some (n, last)) h here (same, count, absent, kept) =
      let live : ltb now (last + window_seconds * 1000) ≡ true = lt→ltb _ _ (omega arith) in
      rw (kept, live) count

  absent-now :
      (now : ℕ) (known : Summary) (h : Hash)
      → minute_of now ≡ m
      → Fits known h
      → total_of known ≡ 0
      → Dict.get field (visible now h) ≡ none
  absent-now now none h here f e = rw f refl
  absent-now now (some (n, last)) h here (same, count, absent, kept) e =
      let live : ltb now (last + window_seconds * 1000) ≡ true = lt→ltb _ _ (omega arith) in
      rw (kept, live) (absent e)

  module _ (ms : MetricsStore) where
    open ms use {Store, view, execute, fields-hincrby, view-expire}

    -- What commands do to the hash, if all that they do is to count a value.
    abbrev pub Step : ℕ → Option String → List Command → Type 0
    Step now value cs =
        (known : Summary) (s : Store)
        → Fits known (view key s)
        → Fits (if minute_of now == m then touched (gain_of field value) now known else known)
            (view key (execute_all ms now cs s))

    pub Step-behind :
        (now : ℕ) (value : Option String) (xs ys : List Command)
        → AllOther key xs
        → Step now value ys
        → Step now value (xs ++ ys)
    Step-behind now value xs ys others step known s f =
        rw (execute_all-append ms now xs ys s)
          (step known (execute_all ms now xs s) (rw (view-execute_all ms key now xs s others) f))

    pub Step-before :
        (now : ℕ) (value : Option String) (xs ys : List Command)
        → Step now value xs
        → AllOther key ys
        → Step now value (xs ++ ys)
    Step-before now value xs ys step others known s f =
        rw
          (
            execute_all-append ms now xs ys s,
            view-execute_all ms key now ys (execute_all ms now xs s) others,
          )
          (step known s f)

    -- The count of the field after a value was counted.
    Counts-hincrby :
        (now n : ℕ) (value : String) (s : Store)
        → Counts (Dict.get field (visible now (view key s))) n
        → Counts
            (Dict.get field (view key (execute now (hincrby key value) s)).fields)
            (n + (if str_eq value field then 1 else 0))
    Counts-hincrby now n value s h =
        rw (fields-hincrby now key value field s) (elim (Bool-cases (str_eq value field)) [
          | inl e ↦ rw e (
              ap (λ f. next_count (Dict.get f (visible now (view key s))))
                ((eq_iff value field).0 e)
              ∙ next_count-Counts _ n h
              ∙ ap decimal {x = suc n} {y = n + 1} (omega arith))
          | inr e ↦ rw e (
              subst (Counts (Dict.get field (visible now (view key s)))) {x = n} {y = n + 0}
                (omega arith) h)
        ])

    -- A field that was not counted is not there.
    absent-hincrby :
        (now n : ℕ) (value : String) (s : Store)
        → (n ≡ 0 → Dict.get field (visible now (view key s)) ≡ none)
        → n + (if str_eq value field then 1 else 0) ≡ 0
        → Dict.get field (view key (execute now (hincrby key value) s)).fields ≡ none
    absent-hincrby now n value s absent h =
        rw (fields-hincrby now key value field s) (elim (Bool-cases (str_eq value field)) [
          | inl e ↦ absurd (ground arith)
          | inr e ↦ rw e (absent (ground arith))
        ])

    -- What a counted value does to the hash of its own minute.
    Fits-counted :
        (now : ℕ) (value : String) (known : Summary) (s : Store)
        → minute_of now ≡ m
        → Fits known (view key s)
        → Fits
            (touched (gain_of field (some value)) now known)
            (view key (execute_all ms now (hincrby key value ∷ expire key window_seconds ∷ []) s))
    unfolding execute_all after
    Fits-counted now value known s here f =
        let once = execute now (hincrby key value) s in
        let shown : visible now (view key once) ≡ (view key once).fields =
          visible-hincrby ms now key value s in
        let first : Dict.get value (view key once).fields
            ≡ some (next_count (Dict.get value (visible now (view key s)))) =
          rw (fields-hincrby now key value value s, (eq_iff value value).1 refl) refl in
        let there : is_nil (visible now (view key once)) ≡ false =
          rw shown (not_nil (view key once).fields value first) in
        rw (view-expire now key window_seconds once there, shown)
          (
            here,
            Counts-hincrby now (total_of known) value s (Counts-now now known (view key s) here f),
            absent-hincrby now (total_of known) value s (absent-now now known (view key s) here f),
            refl,
          )

    AllOther-noted :
        (now : ℕ) (value : Option String)
        → (minute_of now == m) ≡ false
        → AllOther key (noted family (decimal (minute_of now)) value)
    AllOther-noted now none h = tt
    AllOther-noted now (some value) h =
        let other = metric_key_eq family (minute_of now) m ∙ h in (other, (other, tt))

    pub Step-noted :
        (now : ℕ) (value : Option String)
        → Step now value (noted family (decimal (minute_of now)) value)
    unfolding execute_all
    Step-noted now value known s f = elim (Bool-cases (minute_of now == m)) [
      | inl here ↦ rw here (own value ((==_iff (minute_of now) m).0 here))
      | inr elsewhere ↦
          rw (elsewhere, view-execute_all ms key now _ s (AllOther-noted now value elsewhere)) f
    ]
      where
        own :
            (value : Option String)
            → minute_of now ≡ m
            → Fits
                (touched (gain_of field value) now known)
                (view key (execute_all ms now (noted family (decimal (minute_of now)) value) s))
        own none here = f
        own (some value) here = rw (ap decimal here) (Fits-counted now value known s here f)
