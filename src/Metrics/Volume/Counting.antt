-- ===== src/Metrics/Volume/Counting.antt =====
-- A hash that counts the events of a bucket of time, a minute or an hour: three commands on it, and what
-- they leave behind.
use mathlib.Core.Path.{subst}
use eventify.Common.{
  ℕ, suc, ◌<◌, ◌+◌, ◌*◌, ◌≡◌, refl, sym, ap, ◌∙◌, true, false, List, [], ◌∷◌, ◌++◌, ==_iff, Option,
  none, some, String, str_eq, eq_iff, ◌==◌, ltb, lt→ltb, if◌then◌else◌, arith, Bool-cases, inl, inr,
}
use eventify.Common.Dict
use eventify.Common.Number.{decimal}
use eventify.Common.Number.RoundTrip.{parse_digits-decimal}
use eventify.Metrics.Commands.{Command, hincrby, expire}
use eventify.Metrics.Store.{Hash, is_live, visible, next_count, is_nil, MetricsStore}
use eventify.Metrics.Volume.{Processed, execute_all, process}
use eventify.Metrics.Volume.Untouched.{AllOther}

-- How much an event adds to the total of its bucket: one, and one more if its name is that of the
-- total.
abbrev pub weight : Processed → ℕ
weight e = if str_eq e.event.event_name "total_events" then 2 else 1

-- What an event adds to a count in its bucket, if it writes to the hash at all: its weight, to the total.
abbrev pub weighed : Processed → Option ℕ
weighed e = some (weight e)

-- What is known of a bucket: nothing, or the count and the time of its last event.
abbrev pub Summary : Type 0
Summary = Option (ℕ × ℕ)

abbrev pub total_of : Summary → ℕ
total_of none = 0
total_of (some (n, last)) = n

abbrev pub touched : Option ℕ → ℕ → Summary → Summary
touched none now known = known
touched (some n) now known = some (total_of known + n, now)

abbrev pub seen : (ℕ → ℕ) → (Processed → Option ℕ) → ℕ → Processed → Summary → Summary
seen bucket gain m e known = if bucket e.now == m then touched (gain e) e.now known else known

-- The hash of a bucket agrees with what is known of it; it is kept for some seconds after the last event.
abbrev pub Fits : (ℕ → ℕ) → ℕ → ℕ → Summary → Hash → Type 0
Fits bucket seconds m none h = h ≡ record { fields = []; deadline = none }
Fits bucket seconds m (some (n, last)) h =
    (bucket last ≡ m)
    × (Dict.get "total_events" h.fields ≡ some (decimal n))
    × (h.deadline ≡ some (last + seconds * 1000))

-- The commands on the hash of a bucket.
abbrev pub counting : String → ℕ → String → List Command
counting key seconds name = hincrby key "total_events" ∷ hincrby key name ∷ expire key seconds ∷ []

-- What is there after a command is not over yet.
pub live_kept : (now : ℕ) (d : Option ℕ) → is_live now (if is_live now d then d else none) ≡ true
live_kept now d = elim (Bool-cases (is_live now d)) [ inl e ↦ rw e e | inr e ↦ rw e refl ]

module _ (ms : MetricsStore) where
  open ms use {Store, view, execute, view_ne, fields-hincrby, deadline-hincrby, view-expire}

  pub execute_all-append :
      (now : ℕ) (cs ds : List Command) (s : Store)
      → execute_all ms now (cs ++ ds) s ≡ execute_all ms now ds (execute_all ms now cs s)
  unfolding execute_all
  execute_all-append now [] ds s = refl
  execute_all-append now (c ∷ cs) ds s = execute_all-append now cs ds (execute now c s)

  pub view-execute_all :
      (key : String) (now : ℕ) (cs : List Command) (s : Store)
      → AllOther key cs
      → view key (execute_all ms now cs s) ≡ view key s
  unfolding execute_all
  view-execute_all key now [] s h = refl
  view-execute_all key now (c ∷ cs) s (differ, h) =
      view-execute_all key now cs (execute now c s) h ∙ view_ne now c key s differ

  -- One count in a hash: what the field holds, and that the hash is there.
  module _ (now : ℕ) (key name : String) (s : Store) where
    unfoldable pub after : Store
    after = execute now (hincrby key name) s

    pub is_live-hincrby : is_live now (view key after).deadline ≡ true
    unfolding after
    is_live-hincrby = rw (deadline-hincrby now key name s) (live_kept now (view key s).deadline)

    pub visible-hincrby : visible now (view key after) ≡ (view key after).fields
    visible-hincrby = rw is_live-hincrby refl

  -- The three commands.
  module _ (now seconds : ℕ) (key name : String) (s : Store) (n : ℕ)
      (counted : next_count (Dict.get "total_events" (visible now (view key s)))
        ≡ decimal (suc n)) where
    once : Store
    once = after now key "total_events" s

    twice : Store
    twice = after now key name once

    total-once : Dict.get "total_events" (visible now (view key once)) ≡ some (decimal (suc n))
    unfolding once after
    total-once =
        ap (Dict.get "total_events") (visible-hincrby now key "total_events" s)
        ∙ fields-hincrby now key "total_events" "total_events" s
        ∙ ap some counted

    total-twice :
        Dict.get "total_events" (view key twice).fields
        ≡ some (decimal (n + (if str_eq name "total_events" then 2 else 1)))
    unfolding twice after
    total-twice =
        fields-hincrby now key name "total_events" once
        ∙ elim (Bool-cases (str_eq name "total_events")) [
          | inl e ↦ rw e (
              ap (λ f. some (next_count (Dict.get f (visible now (view key once)))))
                ((eq_iff name _).0 e)
              ∙ rw (total-once, parse_digits-decimal) (ap (λ k. some (decimal k)) (omega arith)))
          | inr e ↦ rw e (total-once ∙ ap (λ k. some (decimal k)) (omega arith))
        ]

    thrice : Store
    thrice = execute now (expire key seconds) twice

    not_nil :
        (m : List (String × String)) {v : String}
        → Dict.get "total_events" m ≡ some v
        → is_nil m ≡ false
    not_nil [] e = absurd (ground arith)
    not_nil (x ∷ m) e = refl

    view-thrice :
        view key thrice
        ≡ record { fields = (view key twice).fields; deadline = some (now + seconds * 1000) }
    unfolding thrice twice after
    view-thrice =
        view-expire now key seconds twice (
          not_nil _
            (ap (Dict.get "total_events") (visible-hincrby now key name once) ∙ total-twice))
        ∙ ap (λ f. record { fields = f; deadline = some (now + seconds * 1000) })
            (visible-hincrby now key name once)

-- A family of hashes, one for each bucket, of which every event counts in its own.
pub record Counter (ms : MetricsStore) : Type 0 where
  pub bucket : ℕ → ℕ
  pub key : ℕ → String
  pub seconds : ℕ
  pub lives : (now last : ℕ) → bucket last ≡ bucket now → now < last + seconds * 1000
  pub hit :
      (e : Processed) (s : ms.Store)
      → (t : ms.Store) × (ms.view (key (bucket e.now)) t ≡ ms.view (key (bucket e.now)) s)
        × (ms.view (key (bucket e.now)) (process ms e s)
            ≡ ms.view
                (key (bucket e.now))
                (execute_all ms e.now (counting (key (bucket e.now)) seconds e.event.event_name) t))
  pub miss :
      (m : ℕ) (e : Processed) (s : ms.Store)
      → (bucket e.now == m) ≡ false
      → ms.view (key m) (process ms e s) ≡ ms.view (key m) s

module _ (ms : MetricsStore) (counter : Counter ms) where
  open ms use {Store, view}
  open counter use {bucket, key, seconds, lives, hit, miss}

  -- An event adds its weight to the total of its bucket, and the hash is kept for another while.
  process_eq :
      (e : Processed) (s : Store) (n : ℕ)
      → next_count (Dict.get "total_events" (visible e.now (view (key (bucket e.now)) s)))
        ≡ decimal (suc n)
      → Fits bucket seconds
          (bucket e.now)
          (some (n + weight e, e.now))
          (view (key (bucket e.now)) (process ms e s))
  unfolding thrice twice once after execute_all
  process_eq e s n counted =
      let own = key (bucket e.now) in
      let name = e.event.event_name in
      let (t, same, counts) = hit e s in
      let counted' : next_count (Dict.get "total_events" (visible e.now (view own t)))
          ≡ decimal (suc n) =
        ap (λ h. next_count (Dict.get "total_events" (visible e.now h))) same ∙ counted in
      let h = counts ∙ view-thrice ms e.now seconds own name t n counted' in
      rw h (refl, total-twice ms e.now seconds own name t n counted', refl)

  -- The total that an event finds in its own bucket.
  next-Fits :
      (now : ℕ) (known : Summary) (h : Hash)
      → Fits bucket seconds (bucket now) known h
      → next_count (Dict.get "total_events" (visible now h)) ≡ decimal (suc (total_of known))
  next-Fits now none h f = rw f refl
  next-Fits now (some (n, last)) h (same, total, kept) =
      let live : ltb now (last + seconds * 1000) ≡ true = lt→ltb _ _ (lives now last same) in
      rw (kept, live, total, parse_digits-decimal) refl

  pub process-Fits :
      (m : ℕ) (e : Processed) (known : Summary) (s : Store)
      → Fits bucket seconds m known (view (key m) s)
      → Fits bucket seconds m (seen bucket weighed m e known) (view (key m) (process ms e s))
  process-Fits m e known s f = elim (Bool-cases (bucket e.now == m)) [
    | inl here ↦ rw here (
        subst
          (λ k.
            Fits bucket seconds k known (view (key k) s)
            → Fits bucket seconds k (some (total_of known + weight e, e.now))
                (view (key k) (process ms e s)))
          ((==_iff (bucket e.now) m).0 here)
          (λ g. process_eq e s (total_of known) (next-Fits e.now known _ g)) f)
    | inr elsewhere ↦
        rw elsewhere (subst (Fits bucket seconds m known) (sym (miss m e s elsewhere)) f)
  ]
