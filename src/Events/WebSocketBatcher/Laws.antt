-- ===== src/Events/WebSocketBatcher/Laws.antt =====
-- What each owner's sockets are sent, and how large the buffers get.
use mathlib.Core.List.{append-nil, append_assoc}
use eventify.Common.{
  ◌<◌, ◌≡◌, refl, sym, ap, ◌∙◌, List, [], ◌∷◌, ◌++◌, arith, length, leb, ◌==◌, if◌then◌else◌, inl,
  inr, Bool-cases, length-eq-zero, String, str_eq, eq_iff, Option, none, some, true, false, Bool,
}
use eventify.Common.Dict
use eventify.Common.Dict.{get-put}
use eventify.Events.WebSocketBatcher.{
  StreamWebSocketBatcher, Broadcast, Action, add, tick, init, array, buffered, flush_user_batch,
  flush_keys, flush_all_batches, add_event, step, run,
}

module _ {E : Type 0} (o : String) where
  -- The events of one owner in a history, in the order in which they came.
  abbrev pub sent : List (Action E) → List E
  sent [] = []
  sent (add owner event ∷ rest) =
      let later = sent rest in if str_eq owner o then event ∷ later else later
  sent (tick ∷ rest) = sent rest

  -- The events of one owner in the queued jobs.
  abbrev pub broadcast_to : List (Broadcast E) → List E
  broadcast_to [] = []
  broadcast_to (b ∷ bs) =
      let later = broadcast_to bs in if str_eq b.owner_id o then b.events ++ later else later

  abbrev pub taken : StreamWebSocketBatcher E → List E
  taken s = broadcast_to s.jobs ++ buffered o s

  broadcast_to-append :
      (bs cs : List (Broadcast E)) → broadcast_to (bs ++ cs) ≡ broadcast_to bs ++ broadcast_to cs
  broadcast_to-append [] cs = refl
  broadcast_to-append (b ∷ bs) cs = elim (Bool-cases (str_eq b.owner_id o)) [
    | inl e ↦ rw (e, broadcast_to-append bs cs) (sym (append_assoc b.events _ _))
    | inr e ↦ rw (e, broadcast_to-append bs cs) refl
  ]

  array-if :
      (b : Bool) (a : Option (List E))
      → array (if b then some [] else a) ≡ (if b then [] else array a)
  array-if true a = refl
  array-if false a = refl

  buffered-flush_user_batch :
      (k : String) (s : StreamWebSocketBatcher E)
      → buffered o (flush_user_batch k s) ≡ (if str_eq k o then [] else buffered o s)
  unfolding flush_user_batch
  buffered-flush_user_batch k s = elim (Bool-cases (length (buffered k s) == 0)) [
    | inl e ↦
        rw (e, flush_user_batch)
          (elim (Bool-cases (str_eq k o)) [
            | inl q ↦
                rw q (
                  ap (λ x. buffered x s) (sym ((eq_iff k o).0 q)) ∙ length-eq-zero _ (ground arith))
            | inr q ↦ rw q refl
          ])
    | inr e ↦ rw (e, flush_user_batch, get-put) (array-if (str_eq k o) (Dict.get o s.buffer_map))
  ]

  taken-flush_user_batch :
      (k : String) (s : StreamWebSocketBatcher E) → taken (flush_user_batch k s) ≡ taken s
  unfolding flush_user_batch
  taken-flush_user_batch k s = elim (Bool-cases (length (buffered k s) == 0)) [
    | inl e ↦ rw (e, flush_user_batch) refl
    | inr e ↦
        rw (e, flush_user_batch, broadcast_to-append, get-put)
          (elim (Bool-cases (str_eq k o)) [
            | inl q ↦
                rw q (
                  simp append-nil
                    (ap (λ x. broadcast_to s.jobs ++ buffered x s) ((eq_iff k o).0 q)))
            | inr q ↦ rw q (ap (λ x. x ++ buffered o s) (append-nil (broadcast_to s.jobs)))
          ])
  ]

  taken-flush_keys :
      (ks : List String) (s : StreamWebSocketBatcher E) → taken (flush_keys ks s) ≡ taken s
  unfolding flush_keys
  taken-flush_keys [] s = refl
  taken-flush_keys (k ∷ ks) s =
      taken-flush_keys ks (flush_user_batch k s) ∙ taken-flush_user_batch k s

  taken-step :
      (s : StreamWebSocketBatcher E) (a : Action E) → taken (step s a) ≡ taken s ++ sent (a ∷ [])
  unfolding step add_event flush_all_batches
  taken-step s tick = taken-flush_keys (Dict.keys s.buffer_map) s ∙ sym (append-nil _)
  taken-step s (add owner event) =
      elim (Bool-cases (leb s.batch_size (length (buffered owner s ++ event ∷ [])))) [
        | inl e ↦ rw (e, add_event) (taken-flush_keys _ pushed ∙ joined)
        | inr e ↦ rw (e, add_event) joined
      ]
    where
      pushed : StreamWebSocketBatcher E
      pushed = record s {
        buffer_map = Dict.put owner (buffered owner s ++ event ∷ []) s.buffer_map;
      }

      joined : taken pushed ≡ taken s ++ sent (add owner event ∷ [])
      joined = rw get-put (elim (Bool-cases (str_eq owner o)) [
        | inl q ↦ rw q (
            ap (λ x. broadcast_to s.jobs ++ (buffered x s ++ event ∷ [])) ((eq_iff owner o).0 q)
            ∙ sym (append_assoc (broadcast_to s.jobs) (buffered o s) (event ∷ [])))
        | inr q ↦ rw q (sym (append-nil _))
      ])

  taken-run :
      (s : StreamWebSocketBatcher E) (h : List (Action E)) → taken (run s h) ≡ taken s ++ sent h
  unfolding run
  taken-run s [] = sym (append-nil _)
  taken-run s (a ∷ h) =
      rw (taken-run (step s a) h, taken-step s a)
        (append_assoc (taken s) (sent (a ∷ [])) (sent h) ∙ ap (◌++◌ (taken s)) (joined a))
    where
      joined : (a : Action E) → sent (a ∷ []) ++ sent h ≡ sent (a ∷ h)
      joined (add owner event) = elim (Bool-cases (str_eq owner o)) [
        | inl q ↦ rw q refl
        | inr q ↦ rw q refl
      ]
      joined tick = refl

  -- For every owner, the jobs that carry that owner's id followed by the owner's buffer are exactly
  -- the events that came in for that owner, each once and in order, whatever the interleaving with
  -- other owners and with timer ticks. So no owner is sent an event of another.
  pub owner_run-conserves :
      (h : List (Action E)) → broadcast_to (run init h).jobs ++ buffered o (run init h) ≡ sent h
  unfolding init
  owner_run-conserves h = taken-run init h

  buffered-flush_keys_nil :
      (ks : List String) (s : StreamWebSocketBatcher E)
      → buffered o s ≡ []
      → buffered o (flush_keys ks s) ≡ []
  unfolding flush_keys
  buffered-flush_keys_nil [] s e = e
  buffered-flush_keys_nil (k ∷ ks) s e =
      buffered-flush_keys_nil ks (flush_user_batch k s)
        (ground (arith, buffered-flush_user_batch k s))

  buffered-flush_keys :
      (m : List (String × List E)) (s : StreamWebSocketBatcher E)
      → (Dict.get o m ≡ none → buffered o s ≡ [])
      → buffered o (flush_keys (Dict.keys m) s) ≡ []
  unfolding flush_keys
  buffered-flush_keys [] s h = h refl
  buffered-flush_keys ((k, v) ∷ m) s h = elim (Bool-cases (str_eq k o)) [
    | inl q ↦
        buffered-flush_keys_nil (Dict.keys m) (flush_user_batch k s)
          (buffered-flush_user_batch k s ∙ rw q refl)
    | inr q ↦
        buffered-flush_keys m (flush_user_batch k s)
          (λ e. buffered-flush_user_batch k s ∙ rw q (h (rw q e)))
  ]

  buffered-flush_all_batches :
      (s : StreamWebSocketBatcher E) → buffered o (flush_all_batches s) ≡ []
  unfolding flush_all_batches
  buffered-flush_all_batches s = buffered-flush_keys s.buffer_map s (ap array)

  -- A timer tick empties every buffer: right after it, the jobs of an owner carry all of the
  -- owner's events.
  pub owner_tick_delivers :
      (h : List (Action E)) → broadcast_to (flush_all_batches (run init h)).jobs ≡ sent h
  unfolding flush_all_batches
  owner_tick_delivers h =
      sym (append-nil _)
      ∙ ap (◌++◌ (broadcast_to (flush_all_batches (run init h)).jobs))
          (sym (buffered-flush_all_batches (run init h)))
      ∙ taken-flush_keys (Dict.keys (run (init {E = E}) h).buffer_map) (run init h)
      ∙ owner_run-conserves h

  buffered-step-lt :
      (s : StreamWebSocketBatcher E) (a : Action E)
      → 0 < s.batch_size
      → length (buffered o s) < s.batch_size
      → length (buffered o (step s a)) < s.batch_size
  unfolding step add_event
  buffered-step-lt s tick p h = rw (buffered-flush_all_batches s) (omega arith)
  buffered-step-lt s (add owner event) p h =
      elim (Bool-cases (leb s.batch_size (length (buffered owner s ++ event ∷ [])))) [
        | inl e ↦ rw (e, add_event, buffered-flush_all_batches) (omega arith)
        | inr e ↦
            rw (e, add_event, get-put)
              (elim (Bool-cases (str_eq owner o)) [ inl q ↦ rw q (ground arith) | inr q ↦ rw q h ])
      ]

  batch_size-flush_keys :
      (ks : List String) (s : StreamWebSocketBatcher E)
      → (flush_keys ks s).batch_size ≡ s.batch_size
  unfolding flush_keys flush_user_batch
  batch_size-flush_keys [] s = refl
  batch_size-flush_keys (k ∷ ks) s = ground (arith, batch_size-flush_keys ks (flush_user_batch k s))

  batch_size-step :
      (s : StreamWebSocketBatcher E) (a : Action E) → (step s a).batch_size ≡ s.batch_size
  unfolding step add_event flush_all_batches
  batch_size-step s tick = batch_size-flush_keys _ s
  batch_size-step s (add owner event) =
      elim (Bool-cases (leb s.batch_size (length (buffered owner s ++ event ∷ [])))) [
        | inl e ↦ rw (e, add_event) (batch_size-flush_keys _ _)
        | inr e ↦ rw (e, add_event) refl
      ]

  buffered-run-lt :
      (s : StreamWebSocketBatcher E) (h : List (Action E))
      → 0 < s.batch_size
      → length (buffered o s) < s.batch_size
      → length (buffered o (run s h)) < s.batch_size
  unfolding run
  buffered-run-lt s [] p b = b
  buffered-run-lt s (a ∷ h) p b =
      ground (arith, batch_size-step s a, buffered-step-lt s a p b, buffered-run-lt (step s a) h)

  -- Between two actions no owner's buffer holds 5000 events.
  pub owner_run-lt : (h : List (Action E)) → length (buffered o (run init h)) < 5000
  unfolding init
  owner_run-lt h = buffered-run-lt init h (omega arith) (omega arith)
