-- ===== src/Gateway/Cookies.antt =====
-- The cookies of auth.py and app.py: the session's, set and cleared, and the state's of an OAuth sign-in.
--
-- A cookie is the arguments of Starlette's `set_cookie`; `delete_cookie` is `set_cookie` with an empty value and a
-- `max_age` of 0, and its defaults are neither secure nor HttpOnly.
use opendss_designer_cloud.Base.{ℕ, String, Bool, true, false, Option, none, some}
use opendss_designer_cloud.Config.{Config, secure_cookies}
use opendss_designer_cloud.Store.{User}
use opendss_designer_cloud.Gateway.Tokens.{
  Signer, session_token, session_max_age, state_max_age, seconds,
}

-- No value is the empty text.
pub record Cookie (Token : Type 0) : Type 0 where
  pub key : String
  pub value : Option Token
  pub max_age : ℕ
  pub path : String
  pub http_only : Bool
  pub is_secure : Bool
  pub same_site : String

-- `SESSION_COOKIE` and `STATE_COOKIE`
abbrev pub session_key : String
session_key = "odg_session"

abbrev pub state_key : String
state_key = "odg_oauth"

module _ {Token : Type 0} where
  -- The cookie of `set_session`, with its token.
  unfoldable pub session_cookie : Token → Bool → Cookie Token
  session_cookie token secure = record {
    key = session_key;
    value = some token;
    max_age = session_max_age;
    path = "/";
    http_only = true;
    is_secure = secure;
    same_site = "lax";
  }

  unfoldable pub clear_session : Bool → Cookie Token
  clear_session secure = record {
    key = session_key;
    value = none;
    max_age = 0;
    path = "/";
    http_only = true;
    is_secure = secure;
    same_site = "lax";
  }

  -- The cookie of `oauth_start`.
  unfoldable pub state_cookie : Token → Bool → Cookie Token
  state_cookie state secure = record {
    key = state_key;
    value = some state;
    max_age = state_max_age;
    path = "/auth/";
    http_only = true;
    is_secure = secure;
    same_site = "lax";
  }

  -- `response.delete_cookie(STATE_COOKIE, path="/auth/")`
  unfoldable pub delete_state : Cookie Token
  delete_state = record {
    key = state_key;
    value = none;
    max_age = 0;
    path = "/auth/";
    http_only = false;
    is_secure = false;
    same_site = "lax";
  }

  unfoldable pub set_session : {F : Type 0} → Signer Token → Config F → User → ℕ → Cookie Token
  set_session s cfg u now =
      session_cookie (session_token s u.id u.session_epoch (seconds now)) (secure_cookies cfg)
