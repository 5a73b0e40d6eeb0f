-- ===== src/Gateway/Smtp.antt =====
-- `Mailer._smtp` of mailer.py as the calls of smtplib that it makes, in their order.
--
-- What `urlparse` and `unquote` of the standard library make of the relay's URL is `SmtpUrl`.
use opendss_designer_cloud.Base.{
  ℕ, ◌==◌, ◌≡◌, refl, String, Bool, true, false, ◌&&◌, Option, none, some, List, [], ◌∷◌, ◌++◌,
  same, if◌then◌else◌, Bool-cases, inl, inr,
}
use opendss_designer_cloud.Gateway.Mail.{Message}

-- The user name and the password are unquoted.
pub record SmtpUrl : Type 0 where
  pub scheme : String
  pub hostname : Option String
  pub port : Option ℕ
  pub username : Option String
  pub password : Option String

pub data SmtpStep : Type 0 where
  connect_tls connect_plain : String → ℕ → SmtpStep
  starttls : SmtpStep
  login : String → String → SmtpStep
  send_message : (from : String) → Message → SmtpStep

abbrev pub text_or : Option String → String → String
text_or none d = d
text_or (some s) d = if same s "" then d else s

-- `url.port or default`
abbrev pub port_or : Option ℕ → ℕ → ℕ
port_or none d = d
port_or (some n) d = if n == 0 then d else n

unfoldable pub is_smtps : SmtpUrl → Bool
is_smtps url = same url.scheme "smtps"

unfoldable pub connect_steps : SmtpUrl → List SmtpStep
connect_steps url =
    let host = text_or url.hostname "localhost" in
    if is_smtps url
    then connect_tls host (port_or url.port 465) ∷ []
    else connect_plain host (port_or url.port 587) ∷ starttls ∷ []

abbrev login_as : String → Option String → List SmtpStep
login_as name password = if same name "" then [] else login name (text_or password "") ∷ []

abbrev pub login_steps : Option String → Option String → List SmtpStep
login_steps none password = []
login_steps (some name) password = login_as name password

-- Every call may raise; then those behind it are not made.
unfoldable pub smtp_steps : String → SmtpUrl → Message → List SmtpStep
smtp_steps from url mail =
    connect_steps url ++ (login_steps url.username url.password ++ send_message from mail ∷ [])

-- No user name, password or message is given out before TLS has started.
unfoldable pub is_private : Bool → List SmtpStep → Bool
is_private tls [] = true
is_private tls (connect_tls host port ∷ steps) = is_private true steps
is_private tls (connect_plain host port ∷ steps) = is_private false steps
is_private tls (starttls ∷ steps) = is_private true steps
is_private tls (login name password ∷ steps) = tls && is_private tls steps
is_private tls (send_message from mail ∷ steps) = tls && is_private tls steps

login-is_private :
    (name password : Option String) (steps : List SmtpStep)
    → is_private true steps ≡ true
    → is_private true (login_steps name password ++ steps) ≡ true
unfolding is_private
login-is_private none password steps h = h
login-is_private (some name) password steps h = elim (Bool-cases (same name "")) [
  | inl e ↦ rw e h
  | inr e ↦ rw e h
]

-- Whatever the relay's URL is, the user name, the password and the message are handed over only after TLS has
-- started.
pub smtp_steps-is_private :
    (from : String) (url : SmtpUrl) (mail : Message)
    → is_private false (smtp_steps from url mail) ≡ true
unfolding smtp_steps connect_steps is_private
smtp_steps-is_private from url mail = elim (Bool-cases (is_smtps url)) [
  | inl e ↦ rw e (login-is_private url.username url.password (send_message from mail ∷ []) refl)
  | inr e ↦ rw e (login-is_private url.username url.password (send_message from mail ∷ []) refl)
]
