-- ===== src/Gateway/Providers.antt =====
-- GitHub and Google: `Provider`, `ExternalIdentity` and `exchange_code` of auth.py. The providers' answers are
-- parameters.
use opendss_designer_cloud.Base.{
  ℕ, String, Bool, not, ◌&&◌, Option, none, some, List, same, ◌==◌, if◌then◌else◌, find?,
}
use opendss_designer_cloud.Base.Text.{decimal}
use opendss_designer_cloud.Gateway.Emails.{valid_email}

pub record Provider : Type 0 where
  pub id : String
  pub label : String
  pub client_id : String
  pub client_secret : String
  pub authorize_url : String
  pub token_url : String
  pub userinfo_url : String
  pub scope : String
  pub emails_url : Option String

unfoldable pub enabled : Provider → Bool
enabled p = not (same p.client_id "") && not (same p.client_secret "")

unfoldable pub github_provider : String → String → Provider
github_provider client_id client_secret = record {
  id = "github";
  label = "GitHub";
  client_id = client_id;
  client_secret = client_secret;
  authorize_url = "https://github.com/login/oauth/authorize";
  token_url = "https://github.com/login/oauth/access_token";
  userinfo_url = "https://api.github.com/user";
  scope = "read:user user:email";
  emails_url = some "https://api.github.com/user/emails";
}

unfoldable pub google_provider : String → String → Provider
google_provider client_id client_secret = record {
  id = "google";
  label = "Google";
  client_id = client_id;
  client_secret = client_secret;
  authorize_url = "https://accounts.google.com/o/oauth2/v2/auth";
  token_url = "https://oauth2.googleapis.com/token";
  userinfo_url = "https://openidconnect.googleapis.com/v1/userinfo";
  scope = "openid email profile";
  emails_url = none;
}

pub record UserInfo : Type 0 where
  pub id : Option ℕ
  pub sub : Option String
  pub name : Option String
  pub login : Option String
  pub email : Option String
  pub email_verified : Bool

pub record EmailEntry : Type 0 where
  pub email : Option String
  pub verified : Bool
  pub primary : Bool

-- An answer: an `HTTPError`, which `raise_for_status` raises too, a body that is no JSON, or its value.
pub data Answer (A : Type 0) : Type 0 where
  http_error not_json : Answer A
  body : A → Answer A

-- The three requests of `exchange_code`: the token for the code, the user and, for GitHub, the emails.
pub record Answers : Type 0 where
  pub token : Answer (Option String)
  pub info : Answer UserInfo
  pub emails : Answer (List EmailEntry)

pub record ExternalIdentity : Type 0 where
  pub provider : String
  pub subject : String
  pub email : String
  pub name : Option String

pub data AuthError : Type 0 where
  no_access_token unverified no_verified_email unreachable no_account unusable_email : AuthError

-- How `exchange_code` ends; `raised` is the `ValueError` of a body that is no JSON.
pub data Exchange : Type 0 where
  identity : ExternalIdentity → Exchange
  auth_error : AuthError → Exchange
  raised : Exchange

-- `next(e for e in entries if ...)`, with its email; `break` after the first.
unfoldable pub first_email : (EmailEntry → Bool) → List EmailEntry → Option String
first_email p es = elim (find? p es) [ none ↦ none | some e ↦ e.email ]

abbrev pub is_primary : EmailEntry → Bool
is_primary e = e.verified && e.primary

abbrev pub is_verified : EmailEntry → Bool
is_verified e = e.verified

unfoldable pub github_email : List EmailEntry → Option String
github_email es = elim (first_email is_primary es) [
  | some e ↦ some e
  | none ↦ first_email is_verified es
]

-- `str(info.get("id") or "")`
unfoldable pub github_subject : Option ℕ → String
github_subject none = ""
github_subject (some n) = if n == 0 then "" else decimal n

abbrev pub text_or_empty : Option String → String
text_or_empty none = ""
text_or_empty (some s) = s

-- `a or b`
abbrev pub or_else : Option String → Option String → Option String
or_else none b = b
or_else (some a) b = if same a "" then b else some a

-- The tests after the requests: the subject, then the address.
unfoldable pub usable : Provider → String → Option String → Option String → Exchange
usable p subject name none = auth_error unusable_email
usable p subject name (some email) =
    identity (record { provider = p.id; subject = subject; email = email; name = name })

unfoldable pub checked : Provider → String → Option String → Option String → Exchange
checked p subject name email =
    if same subject ""
    then auth_error no_account
    else usable p subject name (valid_email (text_or_empty email))

unfoldable pub github_identity : Provider → UserInfo → Answer (List EmailEntry) → Exchange
github_identity p info http_error = auth_error unreachable
github_identity p info not_json = raised
github_identity p info (body es) =
    if same (text_or_empty (github_email es)) ""
    then auth_error no_verified_email
    else checked p (github_subject info.id) (or_else info.name info.login) (github_email es)

unfoldable pub google_identity : Provider → UserInfo → Exchange
google_identity p info =
    if info.email_verified
    then checked p (text_or_empty info.sub) info.name info.email
    else auth_error unverified

unfoldable pub exchange_info : Provider → Answers → Answer UserInfo → Exchange
exchange_info p a http_error = auth_error unreachable
exchange_info p a not_json = raised
exchange_info p a (body info) =
    if same p.id "github" then github_identity p info a.emails else google_identity p info

unfoldable pub exchange_code : Provider → Answers → Answer (Option String) → Exchange
exchange_code p a http_error = auth_error unreachable
exchange_code p a not_json = raised
exchange_code p a (body access) =
    if same (text_or_empty access) "" then auth_error no_access_token else exchange_info p a a.info
