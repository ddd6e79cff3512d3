-- ===== src/Server/Shutdown.antt =====
-- src/common/services/unhandled-exception.service.ts: the process-wide handlers. `cleanup` only logs, so
-- that a shutdown ends at once; once the process has ended, nothing is handled.
use Prim.Native.String
use eventify.Common.{
  ℕ, ◌+◌, ◌≡◌, refl, ap, ◌∙◌, Bool, true, false, ◌||◌, List, [], ◌∷◌, ◌++◌, Option, none, some,
  String, if◌then◌else◌, Bool-cases, inl, inr,
}

-- The stack of an `Error`, or the text of another reason; the stack, name and message of an error.
pub data ProcessEvent : Type 0 where
  unhandled_rejection : String → String → ProcessEvent
  uncaught_exception : String → String → String → ProcessEvent
  sigterm : ProcessEvent
  sigint : ProcessEvent

pub data LogEntry : Type 0 where
  info : String → LogEntry
  failure : String → List String → LogEntry
  fatal : String → List String → LogEntry

-- The log, oldest first, the timers of ten seconds that were set, and the code of the exit.
pub record Process : Type 0 where
  pub log : List LogEntry
  pub timers : ℕ
  pub exit_code : Option ℕ

abbrev pub logged : LogEntry → Process → Process
logged entry s = record s { log = s.log ++ entry ∷ [] }

unfoldable pub cleanup : Process → Process
cleanup s = logged (info "Cleanup completed") s

unfoldable pub graceful_shutdown : String → Process → Process
unfolding cleanup
graceful_shutdown signal s =
    let announced = logged (info (String.◌++◌ "Graceful shutdown initiated by " signal)) s in
    let cleaned = cleanup (record announced { timers = announced.timers + 1 }) in
    record (logged (info "Graceful shutdown completed") cleaned) { exit_code = some 0 }

unfoldable pub handle : Bool → ProcessEvent → Process → Process
unfolding graceful_shutdown
handle production (unhandled_rejection reason promise) s =
    let noted = logged (failure "Unhandled Promise Rejection" (reason ∷ promise ∷ [])) s in
    if production then graceful_shutdown "unhandledRejection" noted else noted
handle production (uncaught_exception stack name message) s =
    graceful_shutdown "uncaughtException"
      (logged (fatal "Uncaught Exception" (stack ∷ name ∷ message ∷ [])) s)
handle production sigterm s =
    graceful_shutdown "SIGTERM" (logged (info "SIGTERM received, shutting down gracefully") s)
handle production sigint s =
    graceful_shutdown "SIGINT" (logged (info "SIGINT received, shutting down gracefully") s)

abbrev while_running : Option ℕ → Process → Process → Process
while_running none next s = next
while_running (some code) next s = s

unfoldable pub run : Bool → List ProcessEvent → Process → Process
unfolding handle
run production [] s = s
run production (e ∷ es) s = run production es (while_running s.exit_code (handle production e s) s)

-- An event that ends the process: all but a rejection outside production.
abbrev pub is_fatal : Bool → ProcessEvent → Bool
is_fatal production (unhandled_rejection reason promise) = production
is_fatal production _ = true

abbrev pub has_fatal : Bool → List ProcessEvent → Bool
has_fatal production [] = false
has_fatal production (e ∷ es) = is_fatal production e || has_fatal production es

exit_code-handle :
    (production : Bool) (e : ProcessEvent) (s : Process)
    → s.exit_code ≡ none
    → (handle production e s).exit_code ≡ (if is_fatal production e then some 0 else none)
unfolding handle graceful_shutdown cleanup
exit_code-handle true (unhandled_rejection reason promise) s h = refl
exit_code-handle false (unhandled_rejection reason promise) s h = h
exit_code-handle production (uncaught_exception a b c) s h = refl
exit_code-handle production sigterm s h = refl
exit_code-handle production sigint s h = refl

exit_code-run_ended :
    (production : Bool) (es : List ProcessEvent) (s : Process) {n : ℕ}
    → s.exit_code ≡ some n
    → (run production es s).exit_code ≡ some n
unfolding run
exit_code-run_ended production [] s h = h
exit_code-run_ended production (e ∷ es) s h =
    ap (λ c. (run production es (while_running c (handle production e s) s)).exit_code) h
    ∙ exit_code-run_ended production es s h

-- A process that runs ends exactly if some event is fatal, and whatever the event, a crash included, it
-- ends with code 0.
pub exit_code-run :
    (production : Bool) (es : List ProcessEvent) (s : Process)
    → s.exit_code ≡ none
    → (run production es s).exit_code ≡ (if has_fatal production es then some 0 else none)
unfolding run
exit_code-run production [] s h = h
exit_code-run production (e ∷ es) s h =
    ap (λ c. (run production es (while_running c (handle production e s) s)).exit_code) h
    ∙ elim (Bool-cases (is_fatal production e)) [
      | inl f ↦
          exit_code-run_ended production es (handle production e s) {n = 0}
            (exit_code-handle production e s h ∙ rw f refl)
          ∙ rw f refl
      | inr f ↦
          exit_code-run production es (handle production e s)
            (exit_code-handle production e s h ∙ rw f refl)
          ∙ rw f refl
    ]
