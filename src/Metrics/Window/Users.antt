-- ===== src/Metrics/Window/Users.antt =====
-- Which users the active window counts, after a history of events.
use eventify.Common.{
  ℕ, zero, suc, ◌+◌, ◌-◌, ◌*◌, ◌≡◌, refl, ap, ◌∙◌, true, false, ◌||◌, List, [], ◌∷◌, ◌++◌, length,
  none, String, str_eq, eq_iff, ltb, arith, Bool-cases, inl, inr,
}
use eventify.Metrics.Keys.{metric_key, time_key}
use eventify.Metrics.Commands.{window_seconds}
use eventify.Metrics.Store.{MetricsStore, is_member}
use eventify.Metrics.Tables.{table_key}
use eventify.Metrics.Tables.Families.Users.{user_of, is_member-smembers}
use eventify.Metrics.Tables.History.{gain, happened, gained_between-happened}
use eventify.Metrics.Volume.{Processed, minute_of, process_all}
use eventify.Metrics.Volume.History.{readable, known_after}
use eventify.Metrics.Window.{
  add_all, Gathered, nothing_gathered, gather, gather_rounds, get_active_window_metrics,
}
use eventify.Metrics.Window.Reading.{read_back, read_back_recent}

is_member-append :
    (x : String) (xs ys : List String) → is_member x (xs ++ ys) ≡ (is_member x xs || is_member x ys)
is_member-append x [] ys = refl
is_member-append x (y ∷ xs) ys = ground (arith, is_member-append x xs ys)

-- A set holds what was added to it.
is_member-add_all :
    (x : String) (xs set : List String)
    → is_member x (add_all xs set) ≡ (is_member x xs || is_member x set)
unfolding add_all
is_member-add_all x [] set = refl
is_member-add_all x (y ∷ xs) set = elim (Bool-cases (is_member y set)) [
  | inl e ↦
      rw (e, is_member-add_all x xs set)
        (elim (Bool-cases (str_eq x y)) [
          | inl same ↦
              let there : is_member x set ≡ true =
                ap (λ z. is_member z set) ((eq_iff x y).0 same) ∙ e in
              ground (arith, there)
          | inr other ↦ rw other refl
        ])
  | inr e ↦
      rw (e, is_member-add_all x xs (set ++ y ∷ []), is_member-append x set (y ∷ [])) (ground arith)
]

-- No member twice.
abbrev pub IsUnique : List String → Type 0
IsUnique [] = Unit {0}
IsUnique (x ∷ xs) = (is_member x xs ≡ false) × IsUnique xs

IsUnique-snoc :
    (y : String) (set : List String)
    → is_member y set ≡ false
    → IsUnique set
    → IsUnique (set ++ y ∷ [])
IsUnique-snoc y [] e u = (refl, tt)
IsUnique-snoc y (x ∷ set) e (fresh, u) = (
  ground (arith, is_member-append x set (y ∷ []), eq_iff x y, eq_iff y x),
  IsUnique-snoc y set (ground arith) u,
)

add_all-IsUnique : (xs set : List String) → IsUnique set → IsUnique (add_all xs set)
unfolding add_all
add_all-IsUnique [] set u = u
add_all-IsUnique (y ∷ xs) set u = elim (Bool-cases (is_member y set)) [
  | inl e ↦ rw e (add_all-IsUnique xs set u)
  | inr e ↦ rw e (add_all-IsUnique xs (set ++ y ∷ []) (IsUnique-snoc y set e u))
]

ltb-add : (a b : ℕ) → (ltb 0 b || ltb 0 a) ≡ ltb 0 (a + b)
ltb-add a b = ground arith

module _ (ms : MetricsStore) where
  open ms use {Store, roster, smembers}

  -- No set of users of any minute has been written to.
  abbrev pub NobodyYet : Store → Type 0
  NobodyYet s = (m : ℕ) → roster (table_key "users" m) s ≡ record { members = []; deadline = none }

  module _ (now : ℕ) (es : List Processed) (s : Store) (fresh : NobodyYet s) where
    later : Store
    later = process_all ms es s

    abbrev users_at : ℕ → List String
    users_at time = smembers now (metric_key "users" (time_key time)) later

    IsUnique-rounds :
        (n i : ℕ) (g : Gathered)
        → IsUnique g.unique_users
        → IsUnique (gather_rounds ms n i now later g).unique_users
    unfolding gather_rounds gather
    IsUnique-rounds zero i g u = u
    IsUnique-rounds (suc n) i g u =
        IsUnique-rounds n (i + 1) (gather ms now (now - i * 60 * 1000) later g)
          (add_all-IsUnique (users_at (now - i * 60 * 1000)) g.unique_users u)

    is_member-rounds :
        (user : String) (n i : ℕ) (g : Gathered) (c : ℕ)
        → is_member user g.unique_users ≡ ltb 0 c
        → is_member user (gather_rounds ms n i now later g).unique_users
          ≡ ltb 0 (c + read_back now es (gain user_of user) n i now)
    unfolding gather_rounds gather time_key later
    is_member-rounds user zero i g c h = h ∙ ap (ltb 0) (omega arith)
    is_member-rounds user (suc n) i g c h =
        let time = now - i * 60 * 1000 in
        let known = known_after minute_of (gain user_of user) (minute_of time) none es in
        let read = readable window_seconds now known in
        is_member-rounds user n (i + 1) (gather ms now time later g) (c + read) (
          is_member-add_all user (users_at time) g.unique_users
          ∙ rw (is_member-smembers ms user (minute_of time) now es s (fresh (minute_of time)), h)
              (ltb-add c read))
        ∙ ap (ltb 0) (omega arith)

    -- After any history of events with a readable time and a payload that is not null, on a fresh
    -- store, once the clock is past its first four minutes: the active
    -- users are as many as the members of a list without repetitions, which has exactly those who
    -- are the user of an event of this minute or the four before it.
    pub get_active_window_metrics-active_users :
        (first : ℕ)
        → first + 4 ≡ minute_of now
        → (members : List String) × IsUnique members
          × ((user : String)
              → is_member user members ≡ ltb 0 (happened user_of user first (minute_of now) es))
          × ((get_active_window_metrics ms now (process_all ms es s)).active_users ≡ length members)
    unfolding get_active_window_metrics later
    get_active_window_metrics-active_users first h = (
      (gather_rounds ms 5 0 now later nothing_gathered).unique_users,
      IsUnique-rounds 5 0 nothing_gathered tt,
      (λ user.
          is_member-rounds user 5 0 nothing_gathered 0 refl
          ∙ ap (ltb 0) (
              omega (
                arith,
                read_back_recent now es (gain user_of user) 4 0 now first (minute_of now) h
                    (omega arith) (omega arith),
                gained_between-happened user_of user first (minute_of now) es,
              ))),
      refl,
    )
