-- ===== src/Events/Batcher/Laws.antt =====
-- What reaches the event_process queue, and how large the buffer and its batches get.
use mathlib.Core.List.{append-nil, append_assoc}
use eventify.Common.{
  ℕ, ◌≤◌, ◌<◌, ◌≡◌, refl, sym, ap, ◌∙◌, List, [], ◌∷◌, ◌++◌, arith, length, leb, ◌==◌, inl, inr,
  Bool-cases, All, All-append, length-append, length-eq-zero,
}
use eventify.Events.Batcher.{
  StreamEventBatcher, Stamped, Action, add, tick, init, flush_batch, add_stream_event, step, run,
}

module _ {E : Type 0} where
  -- The entries of a history, in the order in which they came.
  abbrev pub entries : List (Action E) → List (Stamped E)
  entries [] = []
  entries (add now event ∷ rest) = record { event = event; received_at = now } ∷ entries rest
  entries (tick ∷ rest) = entries rest

  abbrev pub concat : List (List (Stamped E)) → List (Stamped E)
  concat [] = []
  concat (b ∷ bs) = b ++ concat bs

  -- All that the batcher has taken: what it queued, and behind that what it holds.
  abbrev pub taken : StreamEventBatcher E → List (Stamped E)
  taken s = concat s.jobs ++ s.buffer

  concat-append :
      (bs : List (List (Stamped E))) (b : List (Stamped E)) → concat (bs ++ b ∷ []) ≡ concat bs ++ b
  concat-append [] b = append-nil b
  concat-append (c ∷ bs) b = rw (concat-append bs b) (sym (append_assoc c (concat bs) b))

  taken-flush_batch : (s : StreamEventBatcher E) → taken (flush_batch s) ≡ taken s
  unfolding flush_batch
  taken-flush_batch s = elim (Bool-cases (length s.buffer == 0)) [
    | inl e ↦ rw (e, flush_batch) refl
    | inr e ↦ rw (e, flush_batch) (append-nil _ ∙ concat-append s.jobs s.buffer)
  ]

  -- A batch is not empty, and no larger than the limit.
  abbrev pub IsSized : ℕ → List (Stamped E) → Type 0
  IsSized limit b = (0 < length b) × (length b ≤ limit)

  pub record IsValid (s : StreamEventBatcher E) : Type 0 where
    pub held : length s.buffer < s.batch
    pub sized : All (IsSized s.batch) s.jobs

  taken-step :
      (s : StreamEventBatcher E) (a : Action E) → taken (step s a) ≡ taken s ++ entries (a ∷ [])
  unfolding step add_stream_event
  taken-step s tick = taken-flush_batch s ∙ sym (append-nil _)
  taken-step s (add now event) = elim (Bool-cases (leb s.batch (length pushed.buffer))) [
    | inl e ↦ rw (e, add_stream_event) (taken-flush_batch pushed ∙ joined)
    | inr e ↦ rw (e, add_stream_event) joined
  ]
    where
      entry : Stamped E
      entry = record { event = event; received_at = now }

      pushed : StreamEventBatcher E
      pushed = record s { buffer = s.buffer ++ entry ∷ [] }

      joined : taken pushed ≡ taken s ++ entry ∷ []
      joined = sym (append_assoc (concat s.jobs) s.buffer (entry ∷ []))

  taken-run :
      (s : StreamEventBatcher E) (h : List (Action E)) → taken (run s h) ≡ taken s ++ entries h
  unfolding run
  taken-run s [] = sym (append-nil _)
  taken-run s (a ∷ h) =
      rw (taken-run (step s a) h, taken-step s a)
        (append_assoc (taken s) (entries (a ∷ [])) (entries h) ∙ ap (◌++◌ (taken s)) (joined a))
    where
      joined : (a : Action E) → entries (a ∷ []) ++ entries h ≡ entries (a ∷ h)
      joined (add now event) = refl
      joined tick = refl

  -- Whatever the interleaving of incoming events with timer ticks, the queued batches followed by
  -- the buffer are exactly the events that came in, with their times, each once and in order.
  pub run-init-conserves :
      (h : List (Action E)) → concat (run init h).jobs ++ (run init h).buffer ≡ entries h
  unfolding init
  run-init-conserves h = taken-run init h

  flush_batch-buffer : (s : StreamEventBatcher E) → (flush_batch s).buffer ≡ []
  unfolding flush_batch
  flush_batch-buffer s = elim (Bool-cases (length s.buffer == 0)) [
    | inl e ↦ rw (e, flush_batch) (length-eq-zero s.buffer (ground arith))
    | inr e ↦ rw (e, flush_batch) refl
  ]

  -- After a tick nothing waits: every event that came in before it is in a batch of the queue.
  pub tick_delivers : (h : List (Action E)) → concat (flush_batch (run init h)).jobs ≡ entries h
  tick_delivers h =
      sym (append-nil _)
      ∙ ap (◌++◌ (concat (flush_batch (run init h)).jobs)) (sym (flush_batch-buffer (run init h)))
      ∙ taken-flush_batch (run init h)
      ∙ run-init-conserves h

  flush_batch-IsValid :
      (s : StreamEventBatcher E)
      → 0 < s.batch
      → length s.buffer ≤ s.batch
      → All (IsSized s.batch) s.jobs
      → IsValid (flush_batch s)
  unfolding flush_batch
  flush_batch-IsValid s p h k = elim (Bool-cases (length s.buffer == 0)) [
    | inl e ↦ rw (e, flush_batch) (record { held = ground arith; sized = k })
    | inr e ↦
        rw (e, flush_batch)
          (record {
            held = p;
            sized = All-append (IsSized s.batch) s.jobs (s.buffer ∷ []) k ((ground arith, h), tt);
          })
  ]

  step-IsValid : (s : StreamEventBatcher E) (a : Action E) → IsValid s → IsValid (step s a)
  unfolding step add_stream_event
  step-IsValid s tick v = flush_batch-IsValid s (omega arith) (omega arith) v.sized
  step-IsValid s (add now event) v = elim (Bool-cases (leb s.batch (length pushed.buffer))) [
    | inl e ↦ rw (e, add_stream_event) (flush_batch-IsValid pushed (omega arith) grown v.sized)
    | inr e ↦ rw (e, add_stream_event) (record { held = ground arith; sized = v.sized })
  ]
    where
      pushed : StreamEventBatcher E
      pushed = record s { buffer = s.buffer ++ record { event = event; received_at = now } ∷ [] }

      grown : length pushed.buffer ≤ s.batch
      grown =
          omega (arith, length-append s.buffer (record { event = event; received_at = now } ∷ []))

  batch-step : (s : StreamEventBatcher E) (a : Action E) → (step s a).batch ≡ s.batch
  unfolding step add_stream_event flush_batch
  batch-step s tick = ground arith
  batch-step s (add now event) = ground arith

  batch-run : (s : StreamEventBatcher E) (h : List (Action E)) → (run s h).batch ≡ s.batch
  unfolding run
  batch-run s [] = refl
  batch-run s (a ∷ h) = batch-run (step s a) h ∙ batch-step s a

  run-IsValid : (s : StreamEventBatcher E) (h : List (Action E)) → IsValid s → IsValid (run s h)
  unfolding run
  run-IsValid s [] v = v
  run-IsValid s (a ∷ h) v = run-IsValid (step s a) h (step-IsValid s a v)

  -- The buffer never reaches 10000 entries between two actions, and no batch is empty or larger.
  pub run-init-IsValid :
      (h : List (Action E)) → (IsValid (run init h)) × ((run (init {E = E}) h).batch ≡ 10000)
  unfolding init
  run-init-IsValid h =
      (run-IsValid init h (record { held = omega arith; sized = tt }), batch-run init h)
