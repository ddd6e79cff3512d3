-- ===== src/Server/Notification.antt =====
-- src/integrations/notification: the worker of the mails. Sending over SMTP is a parameter, which gives or
-- throws a message; the log is a list of messages, oldest first.
use eventify.Common.{◌≡◌, refl, List, [], ◌∷◌, ◌++◌, Option, String}
use eventify.Common.Exec.{Outcome, ok, throw}

pub record MailOptions : Type 0 where
  pub to : String
  pub subject : String
  pub text : Option String
  pub html : Option String

module _ (send_mail : String → MailOptions → Outcome String (Unit {0})) (user : String) where
  abbrev caught : Outcome String (Unit {0}) → List String → Outcome String (Unit {0}) × List String
  caught (ok _) log = (ok tt, log)
  caught (throw m) log = (ok tt, log ++ m ∷ [])

  -- `send` of the Gmail client, from the configured address: an error is logged and ends there.
  unfoldable pub send : MailOptions → List String → Outcome String (Unit {0}) × List String
  send mail log = caught (send_mail user mail) log

  unfoldable pub send_email : MailOptions → List String → Outcome String (Unit {0}) × List String
  unfolding send
  send_email options log = send options log

  -- `process`, of one job.
  unfoldable pub process_mail : MailOptions → List String → Outcome String (Unit {0}) × List String
  unfolding send_email
  process_mail job log = send_email job log

  -- No job fails, whatever becomes of its mail: so none is tried again.
  pub process_mail_ok : (job : MailOptions) (log : List String) → (process_mail job log).0 ≡ ok tt
  unfolding process_mail
  process_mail_ok job log = settled (send_mail user job)
    where
      settled : (o : Outcome String (Unit {0})) → (caught o log).0 ≡ ok tt
      settled (ok _) = refl
      settled (throw m) = refl
