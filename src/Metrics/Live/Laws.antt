-- ===== src/Metrics/Live/Laws.antt =====
-- What the buffer of live events holds, and in which order.
use eventify.Common.{
  ℕ, zero, suc, ◌≤◌, ◌≡◌, refl, sym, ap, List, [], ◌∷◌, length, take, length-take, String, arith,
  Bool-cases, inl, inr, ltb,
}
use eventify.Events.Request.{EventRequest}
use eventify.Metrics.Commands.{ParsedPayload}
use eventify.Metrics.Live.{LiveEvent, pop, live_event, add_to_live_events}

take_all : {A : Type 0} (n : ℕ) (xs : List A) → length xs ≤ n → take n xs ≡ xs
take_all zero [] h = refl
take_all zero (x ∷ xs) h = absurd (omega arith)
take_all (suc n) [] h = refl
take_all (suc n) (x ∷ xs) h = ap (◌∷◌ x) (take_all n xs (omega arith))

pop_lem : {A : Type 0} (n : ℕ) (xs : List A) → length xs ≡ suc n → pop xs ≡ take n xs
pop_lem n [] h = absurd (omega arith)
pop_lem zero (x ∷ []) h = refl
pop_lem (suc n) (x ∷ []) h = absurd (omega arith)
pop_lem zero (x ∷ y ∷ ys) h = absurd (omega arith)
pop_lem (suc n) (x ∷ y ∷ ys) h = ap (◌∷◌ x) (pop_lem n (y ∷ ys) (omega arith))

-- A buffer of at most fifty events has, once an event is added, that event in front and the newest of
-- the others, fifty in all.
pub add_to_live_events-take :
    (now : ℕ) (random : String) (event : EventRequest) (event_time : ℕ) (payload : ParsedPayload)
    (buffer : List LiveEvent)
    → length buffer ≤ 50
    → add_to_live_events now random event event_time payload buffer
      ≡ live_event now random event event_time payload ∷ take 49 buffer
unfolding add_to_live_events
add_to_live_events-take now random event event_time payload buffer h =
    let added = live_event now random event event_time payload ∷ buffer in
    elim (Bool-cases (ltb 50 (length added))) [
      | inl e ↦ rw e (pop_lem 50 added (ground arith))
      | inr e ↦ rw e (
          ap (◌∷◌ (live_event now random event event_time payload))
            (sym (take_all 49 buffer (ground arith))))
    ]

pub length-add_to_live_events :
    (now : ℕ) (random : String) (event : EventRequest) (event_time : ℕ) (payload : ParsedPayload)
    (buffer : List LiveEvent)
    → length buffer ≤ 50
    → length (add_to_live_events now random event event_time payload buffer) ≤ 50
length-add_to_live_events now random event event_time payload buffer h =
    rw (add_to_live_events-take now random event event_time payload buffer h)
      (omega (arith, length-take 49 buffer))
