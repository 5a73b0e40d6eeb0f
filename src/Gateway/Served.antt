-- ===== src/Gateway/Served.antt =====
-- The answers of the handlers that serve people, of `/api/me` and of `proxy`, and the cookies in them.
use opendss_designer_cloud.Base.{ℕ, String, Bool, Option, none, some, List}
use opendss_designer_cloud.Config.{Config}
use opendss_designer_cloud.Store.{User}
use opendss_designer_cloud.Gateway.Callers.{Gateway, Caller}
use opendss_designer_cloud.Gateway.Checkout.{Reply}
use opendss_designer_cloud.Gateway.OAuth.{OAuthReply, oauth_signed_in}
use opendss_designer_cloud.Gateway.Plans.{Today}
use opendss_designer_cloud.Gateway.Providers.{Provider}
use opendss_designer_cloud.Gateway.Proxy.{me}
use opendss_designer_cloud.Gateway.Shapes.{Shape, shape_status}
use opendss_designer_cloud.Gateway.SignIn.{MagicReply, VerifyReply, signed_in}
use opendss_designer_cloud.Gateway.Tokens.{Signer}
use opendss_designer_cloud.Gateway.Site.{
  Response, me_json, forwarded, signin_response, magic_response, confirm_response, verify_response,
  start_response, callback_response, signout_response,
}
use opendss_designer_cloud.Gateway.Account.{
  account_response, refresh_cookies, billing_response, privacy_response, terms_response,
}

-- The handlers with what they answer from.
pub data Served (Token : Type 0) : Type 0 where
  signin : List Provider → Option User → Served Token
  magic : List Provider → String → MagicReply → Served Token
  confirm : String → Token → Option (String × String) → Served Token
  verify : String → VerifyReply → Served Token
  start : Option (Provider × Token) → Served Token
  callback : String → OAuthReply → Served Token
  signout privacy terms : Served Token
  account : Bool → Gateway → Caller → Today → String → Served Token
  billing : String → Reply → Served Token
  api_me : Gateway → Caller → Today → Served Token
  proxied : Caller → Shape → Served Token

-- Whom the answer is for: the user who has just signed in, or the caller of the account page, of `/api/me` or
-- of a forwarded call.
abbrev pub verified_user : VerifyReply → Option User
verified_user (signed_in u) = some u
verified_user _ = none

abbrev pub callback_user : OAuthReply → Option User
callback_user (oauth_signed_in u) = some u
callback_user _ = none

unfoldable pub user_of : {Token : Type 0} → Served Token → Option User
user_of (signin ps user) = none
user_of (magic ps address reply) = none
user_of (confirm reason token link) = none
user_of (verify reason reply) = verified_user reply
user_of (start o) = none
user_of (callback label reply) = callback_user reply
user_of signout = none
user_of privacy = none
user_of terms = none
user_of (account on g caller today n) = caller.user
user_of (billing reason reply) = none
user_of (api_me g caller today) = caller.user
user_of (proxied caller shape) = caller.user

-- The state that the answer of `oauth_start` has in its page's address.
unfoldable pub state_of : {Token : Type 0} → Served Token → Option Token
state_of (start (some (p, state))) = some state
state_of _ = none

module _ {F Token : Type 0} (s : Signer Token) (cfg : Config F) (show : Token → String)
    (now : ℕ) where
  -- The answer of `/api/me`, after `finish`.
  unfoldable pub api_me_response : Gateway → Caller → Today → Response Token
  api_me_response g caller today = record {
    status = 200;
    content = me_json (me g caller today);
    cookies = refresh_cookies s cfg show now caller.refresh_session caller.user;
  }

  unfoldable pub proxy_status : Caller → Shape → Option ℕ → Option (Response Token)
  proxy_status caller shape none = none
  proxy_status caller shape (some status) = some (record {
    status = status;
    content = forwarded shape;
    cookies = refresh_cookies s cfg show now caller.refresh_session caller.user;
  })

  -- The answer of `proxy`, after `finish`.
  unfoldable pub proxy_response : Caller → Shape → Option (Response Token)
  proxy_response caller shape = proxy_status caller shape (shape_status shape)

  unfoldable pub respond : Served Token → Option (Response Token)
  respond (signin ps user) = some (signin_response s cfg show ps user)
  respond (magic ps address reply) = magic_response s cfg show ps address reply
  respond (confirm reason token link) = some (confirm_response s cfg show reason token link)
  respond (verify reason reply) = verify_response s cfg show reason now reply
  respond (start o) = some (start_response s cfg show o)
  respond (callback label reply) = callback_response s cfg show label now reply
  respond signout = some (signout_response s cfg show)
  respond privacy = some (privacy_response s cfg show)
  respond terms = some (terms_response s cfg show)
  respond (account on g caller today n) = some (account_response s cfg show on g caller today now n)
  respond (billing reason reply) = billing_response s cfg show reason reply
  respond (api_me g caller today) = some (api_me_response g caller today)
  respond (proxied caller shape) = proxy_response caller shape
