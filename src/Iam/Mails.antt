-- ===== src/Iam/Mails.antt =====
-- src/iam/email-templates/verify-email.templete.ts and the jobs that authentication adds to the queue of the
-- mails. A text of several lines is a list of lines, joined by line feeds.
use Prim.Native.String
use text.Mathlib.TextLemmas.{append_cancel_left, append_cancel_right}
use eventify.Common.{◌≡◌, List, [], ◌∷◌, ◌++◌, String, none, some}
use eventify.Iam.Authentication.{Mail}
use eventify.Server.Notification.{MailOptions}

-- The lines one after the other, each with a line feed in front.
abbrev pub lines : List String → String
lines [] = ""
lines (l ∷ ls) = String.◌++◌ "\n" (String.◌++◌ l (lines ls))

abbrev pub html_head : List String
html_head =
    "    <div style=\"max-width: 500px; margin: 0 auto; font-family: -apple-system, BlinkMacSystemFont, 'Segoe UI', sans-serif; color: #333; line-height: 1.6;\">"
    ∷ "      " ∷ "      <!-- Header -->"
    ∷ "      <div style=\"text-align: center; padding: 40px 20px 30px; background: #4CAF50; border-radius: 8px 8px 0 0;\">"
    ∷ "        <h1 style=\"color: white; margin: 0; font-size: 24px; font-weight: 600;\">Welcome to Eventify! 🎉</h1>"
    ∷ "      </div>" ∷ "" ∷ "      <!-- Content -->"
    ∷ "      <div style=\"padding: 30px 20px; background: white; border: 1px solid #e0e0e0; border-top: none; border-radius: 0 0 8px 8px;\">"
    ∷ []

abbrev pub html_middle : List String
html_middle =
    "        "
    ∷ "        <p style=\"margin: 0 0 25px; color: #555;\">Thanks for signing up! Please verify your email address to activate your account and start creating amazing events.</p>"
    ∷ "        " ∷ "        <!-- OTP Code -->"
    ∷ "        <div style=\"text-align: center; margin: 30px 0;\">"
    ∷ "          <p style=\"margin: 0 0 15px; color: #333; font-size: 16px; font-weight: 600;\">Your verification code:</p>"
    ∷ "          <div style=\"display: inline-block; "
    ∷ "                      background: #f8f9fa; "
    ∷ "                      border: 2px solid #4CAF50; "
    ∷ "                      padding: 20px 30px; " ∷ "                      border-radius: 8px; "
    ∷ "                      font-size: 28px; " ∷ "                      font-weight: 700; "
    ∷ "                      color: #4CAF50; " ∷ "                      letter-spacing: 8px; "
    ∷ "                      font-family: 'Courier New', monospace;\">" ∷ []

abbrev pub html_foot : List String
html_foot =
    "          </div>"
    ∷ "          <p style=\"margin: 15px 0 0; color: #e53e3e; font-size: 14px; font-weight: 600;\">"
    ∷ "            ⏰ This code expires in 10 minutes" ∷ "          </p>" ∷ "        </div>" ∷ ""
    ∷ "        <p style=\"margin: 20px 0; color: #666; font-size: 14px; text-align: center;\">"
    ∷ "          Enter this code in the verification form to complete your registration."
    ∷ "        </p>" ∷ ""
    ∷ "        <hr style=\"border: none; border-top: 1px solid #eee; margin: 25px 0;\">"
    ∷ "        " ∷ "        <p style=\"margin: 0; color: #888; font-size: 12px;\">"
    ∷ "          If you didn't create this account, you can ignore this email.<br>"
    ∷ "          This is an automated message, please don't reply." ∷ "        </p>"
    ∷ "      </div>" ∷ "    </div>" ∷ "  " ∷ []

abbrev pub verify_account_subject : String → String
verify_account_subject username =
    String.◌++◌ "Welcome to Eventify, " (String.◌++◌ username "! Please Verify Your Email")

abbrev pub greeting_line : String → String
greeting_line username =
    String.◌++◌ "        <h2 style=\"color: #333; margin: 0 0 15px; font-size: 20px;\">Hi "
      (String.◌++◌ username ",</h2>")

abbrev pub otp_line : String → String
otp_line otp = String.◌++◌ "            " otp

-- The body, with the name as it is: nothing in it is escaped.
unfoldable pub verify_account_html : String → String → String
verify_account_html username otp =
    lines ((html_head ++ greeting_line username ∷ html_middle) ++ otp_line otp ∷ html_foot)

-- The job of a mail: its address and `generateVerifyAccountEmailTemplate`.
unfoldable pub mail_job : Mail → MailOptions
mail_job mail = record {
  to = mail.to;
  subject = verify_account_subject mail.user_name;
  text = none;
  html = some (verify_account_html mail.user_name mail.otp);
}

-- Two texts that differ in one line at most have the same line there.
line-of_lines-eq :
    (before after : List String) (a b : String)
    → lines (before ++ a ∷ after) ≡ lines (before ++ b ∷ after)
    → a ≡ b
line-of_lines-eq [] after a b e =
    append_cancel_right a b (lines after) (append_cancel_left "\n" _ _ e)
line-of_lines-eq (l ∷ ls) after a b e =
    line-of_lines-eq ls after a b (append_cancel_left l _ _ (append_cancel_left "\n" _ _ e))

-- Two bodies for one name that are equal show the same code.
pub verify_account_html-otp :
    (username otp other : String)
    → verify_account_html username otp ≡ verify_account_html username other
    → otp ≡ other
unfolding verify_account_html
verify_account_html-otp username otp other e = append_cancel_left "            " otp other (
    line-of_lines-eq (html_head ++ greeting_line username ∷ html_middle) html_foot (otp_line otp)
      (otp_line other) e)
