-- ===== src/Gateway/Mail.antt =====
-- mailer.py: the modes of sending, and the text of the sign-in message.
--
-- What Resend answers (a status, or an `HTTPError`) and whether the SMTP relay took the message are
-- parameters.
use opendss_designer_cloud.Base.{
  ℕ, String, Bool, true, not, Option, none, some, List, [], ◌∷◌, ◌++◌, same, leb, if◌then◌else◌,
}
use opendss_designer_cloud.Base.Text.{join, decimal}

pub record Message : Type 0 where
  pub to : String
  pub subject : String
  pub body : String

pub record Mailer : Type 0 where
  pub mode : String
  pub from_address : String
  pub resend_api_key : String
  pub smtp_url : String
  pub sent : List Message

-- `Mailer.configured`
unfoldable pub configured : Mailer → Bool
configured m =
    if same m.mode "resend"
    then not (same m.resend_api_key "")
    else if same m.mode "smtp"
    then not (same m.smtp_url "")
    else true

-- `_resend`; `none` is a `MailError`.
unfoldable pub resend : Mailer → Option ℕ → Option Mailer
resend m none = none
resend m (some status) = if leb 300 status then none else some m

unfoldable pub smtp : Mailer → Bool → Option Mailer
smtp m taken = if taken then some m else none

-- `Mailer.send`
unfoldable pub send :
    (Mailer → Message → Option ℕ) → (Mailer → Message → Bool) → Mailer → Message → Option Mailer
send post relay m mail =
    if same m.mode "resend"
    then resend m (post m mail)
    else if same m.mode "smtp"
    then smtp m (relay m mail)
    else some (record m { sent = m.sent ++ mail ∷ [] })

-- `magic_link_text`
unfoldable pub magic_link_text : String → ℕ → String
magic_link_text link minutes = join "Here is your sign-in link for OpenDSS Designer:\n\n    " (
    join link (
      join "\n\nIt works once and expires in " (
        join (decimal minutes)
          " minutes. If you did not ask for it, ignore this message; nothing happens unless the link is opened.\n")))
