-- ===== src/Server/Tests.antt =====
-- A process that is told to end.
use eventify.Common.{◌≡◌, refl, false, List, [], ◌∷◌, none, some}
use eventify.Server.Shutdown.{
  Process, ProcessEvent, unhandled_rejection, sigterm, run, exit_code-run,
}

abbrev running : Process
running = record { log = []; timers = 0; exit_code = none }

abbrev events : List ProcessEvent
events = unhandled_rejection "timeout" "[object Promise]" ∷ sigterm ∷ []

exit_code-run_example : (run false events running).exit_code ≡ some 0
exit_code-run_example = exit_code-run false events running refl
