-- ===== src/Events/Broadcasting/Laws.antt =====
-- Who receives which events.
use mathlib.Core.List.{append_assoc, append-nil, map-append}
use mathlib.Core.Path.{subst}
use eventify.Common.{
  ◌≡◌, refl, sym, ap, ◌∙◌, List, [], ◌∷◌, ◌++◌, map, Option, some, String, str_eq, Bool-cases,
  Option-cases, inl, inr, if◌then◌else◌, All, All-append_inv,
}
use eventify.Common.Traverse.{traverse, traverse-some}
use eventify.Events.Request.{EventRequest}
use eventify.Events.Broadcasting.{with_parsed, broadcast_job, broadcast_jobs}
use eventify.Events.WebSocketBatcher.{Broadcast, Action, init, run, flush_all_batches}
use eventify.Events.WebSocketBatcher.Laws.{sent, broadcast_to, owner_tick_delivers}
use eventify.Gateway.Laws.{user_room_eq}
use eventify.Gateway.{
  Gateway, Emitted, to_room, to_client, events, dashboard_data, initial_data, error, user_room,
  emit, broadcast_to_user,
}

-- The events that were emitted to the room of a user, oldest first.
abbrev pub received : String → List (Emitted (List EventRequest)) → List EventRequest
received o [] = []
received o (to_room room (events es) ∷ ms) =
    let later = received o ms in if str_eq room (user_room o) then es ++ later else later
received o (_ ∷ ms) = received o ms

received-append :
    (o : String) (ms ns : List (Emitted (List EventRequest)))
    → received o (ms ++ ns) ≡ received o ms ++ received o ns
received-append o [] ns = refl
received-append o (to_room room (events es) ∷ ms) ns =
    elim (Bool-cases (str_eq room (user_room o))) [
      | inl e ↦
          rw (e, received-append o ms ns) (sym (append_assoc es (received o ms) (received o ns)))
      | inr e ↦ rw e (received-append o ms ns)
    ]
received-append o (to_room room (dashboard_data d) ∷ ms) ns = received-append o ms ns
received-append o (to_room room (initial_data d) ∷ ms) ns = received-append o ms ns
received-append o (to_room room (error a b) ∷ ms) ns = received-append o ms ns
received-append o (to_client id m ∷ ms) ns = received-append o ms ns

module _ (parse_json : String → Option String) (value : String → String) where
  abbrev pub HasValue : EventRequest → Type 0
  HasValue e = parse_json e.payload ≡ some (value e.payload)

  abbrev pub parsed : EventRequest → EventRequest
  parsed e = record e { payload = value e.payload }

  with_parsed_values :
      (es : List EventRequest)
      → All HasValue es
      → All (λ e. with_parsed parse_json e ≡ some (parsed e)) es
  unfolding with_parsed
  with_parsed_values [] h = tt
  with_parsed_values (e ∷ es) (v, h) = (rw (with_parsed, v) refl, with_parsed_values es h)

  module _ (o : String) where
    sent_to :
        (owner : String) (es : List EventRequest) (g : Gateway (List EventRequest))
        → received o (broadcast_to_user owner es g).emitted
          ≡ received o g.emitted
            ++ (if str_eq (user_room owner) (user_room o) then es ++ [] else [])
    unfolding broadcast_to_user emit
    sent_to owner es g = received-append o g.emitted (to_room (user_room owner) (events es) ∷ [])

    received-broadcast_job :
        (job : Broadcast EventRequest) (g : Gateway (List EventRequest))
        → All HasValue (broadcast_to o (job ∷ []))
        → received o (broadcast_job parse_json job g).1.emitted
          ≡ received o g.emitted ++ map parsed (broadcast_to o (job ∷ []))
    unfolding broadcast_job
    received-broadcast_job job g h = elim (Bool-cases (str_eq job.owner_id o)) [
      | inl e ↦
          let readable : All HasValue (job.events ++ []) = rw e at h in
          rw
            (
              broadcast_job,
              traverse-some (with_parsed parse_json) parsed job.events (
                  with_parsed_values job.events (All-append_inv HasValue job.events [] readable).0),
              e,
            )
            (sent_to job.owner_id (map parsed job.events) g
              ∙ ap (λ b. received o g.emitted ++ (if b then map parsed job.events ++ [] else []))
                  (user_room_eq job.owner_id o ∙ e)
              ∙ ap (◌++◌ (received o g.emitted)) (sym (map-append parsed job.events [])))
      | inr e ↦ elim (Option-cases (traverse (with_parsed parse_json) job.events)) [
        | inl f ↦ rw (broadcast_job, f, e) (sym (append-nil _))
        | inr (es, f) ↦
            rw (broadcast_job, f, e)
              (sent_to job.owner_id es g
                ∙ ap (λ b. received o g.emitted ++ (if b then es ++ [] else []))
                    (user_room_eq job.owner_id o ∙ e))
      ]
    ]

    broadcast_to_cons :
        (job : Broadcast EventRequest) (jobs : List (Broadcast EventRequest))
        → broadcast_to o (job ∷ jobs) ≡ broadcast_to o (job ∷ []) ++ broadcast_to o jobs
    broadcast_to_cons job jobs = elim (Bool-cases (str_eq job.owner_id o)) [
      | inl e ↦ rw (e, append-nil job.events) refl
      | inr e ↦ rw e refl
    ]

    received-broadcast_jobs :
        (jobs : List (Broadcast EventRequest)) (g : Gateway (List EventRequest))
        → All HasValue (broadcast_to o jobs)
        → received o (broadcast_jobs parse_json jobs g).emitted
          ≡ received o g.emitted ++ map parsed (broadcast_to o jobs)
    unfolding broadcast_jobs
    received-broadcast_jobs [] g h = sym (append-nil _)
    received-broadcast_jobs (job ∷ jobs) g h =
        let (first, rest) =
          All-append_inv HasValue (broadcast_to o (job ∷ [])) (broadcast_to o jobs)
            (subst (All HasValue) (broadcast_to_cons job jobs) h) in
        received-broadcast_jobs jobs (broadcast_job parse_json job g).1 rest
        ∙ ap (λ l. l ++ map parsed (broadcast_to o jobs)) (received-broadcast_job job g first)
        ∙ append_assoc (received o g.emitted) (map parsed (broadcast_to o (job ∷ [])))
            (map parsed (broadcast_to o jobs))
        ∙ ap (◌++◌ (received o g.emitted)) (
            sym (
              ap (map parsed) (broadcast_to_cons job jobs)
              ∙ map-append parsed (broadcast_to o (job ∷ [])) (broadcast_to o jobs)))

    -- From the stream to the sockets: after a tick and the jobs of the queue, the room of a user has
    -- been sent exactly the events that came in for that user, each once and in order, if their
    -- payloads are JSON. Those of other users may be anything.
    pub flush_all_batches-broadcast_jobs :
        (h : List (Action EventRequest)) (g : Gateway (List EventRequest))
        → All HasValue (sent o h)
        → received o (broadcast_jobs parse_json (flush_all_batches (run init h)).jobs g).emitted
          ≡ received o g.emitted ++ map parsed (sent o h)
    flush_all_batches-broadcast_jobs h g readable =
        let jobs = (flush_all_batches (run init h)).jobs in
        received-broadcast_jobs jobs g
          (subst (All HasValue) (sym (owner_tick_delivers o h)) readable)
        ∙ ap (λ l. received o g.emitted ++ map parsed l) (owner_tick_delivers o h)
