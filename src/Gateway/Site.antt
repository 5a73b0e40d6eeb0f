-- ===== src/Gateway/Site.antt =====
-- What the browser is sent: the pages, redirects and cookies of app.py's handlers.
--
-- A `Response` is a page with its status, a redirect, the JSON of `/api/me` or what was forwarded, and the
-- cookies that the gateway sets. The headers of a page are
-- `page_headers`. Where a handler raises, Starlette answers 500 in its own words: that is `none`.
use opendss_designer_cloud.Base.{
  ◌&&◌, ◌==◌, ℕ, String, Bool, true, false, Option, none, some, List, [], ◌∷◌, if◌then◌else◌,
  select, map,
}
use opendss_designer_cloud.Base.Text.{join}
use Prim.Native.Char.{code}
use opendss_designer_cloud.Config.{Config, secure_cookies}
use opendss_designer_cloud.Store.{User}
use opendss_designer_cloud.Pages.Page.{Page, signin_page, confirm_page, email_page, message_page}
use opendss_designer_cloud.Gateway.Authorize.{authorize_url, redirect_uri}
use opendss_designer_cloud.Gateway.Cookies.{
  Cookie, set_session, clear_session, state_cookie, delete_state,
}
use opendss_designer_cloud.Gateway.Headers.{email_signin}
use opendss_designer_cloud.Gateway.OAuth.{
  OAuthReply, no_provider, sign_in_cancelled, not_started, exchange_failed, oauth_signed_in,
  oauth_crashed,
}
use opendss_designer_cloud.Gateway.Providers.{
  Provider, AuthError, enabled, no_access_token, unverified, no_verified_email, unreachable,
  no_account, unusable_email,
}
use opendss_designer_cloud.Gateway.Proxy.{Me}
use opendss_designer_cloud.Gateway.Shapes.{Shape}
use opendss_designer_cloud.Gateway.SignIn.{
  MagicReply, not_available, bad_address, slow_down, email_failed, check_email, magic_crashed,
  VerifyReply, bad_link, link_used, signed_in, verify_crashed,
}
use opendss_designer_cloud.Gateway.Tokens.{Signer}

-- `_PAGE_HEADERS`
abbrev pub page_headers : List (String × String)
page_headers =
    (
      "Content-Security-Policy",
      "default-src 'none'; style-src 'unsafe-inline'; img-src 'self' data:; form-action 'self' https://checkout.stripe.com https://billing.stripe.com; base-uri 'none'; frame-ancestors 'none'",
    )
    ∷ ("X-Content-Type-Options", "nosniff")
    ∷ ("Referrer-Policy", "no-referrer")
    ∷ ("Cache-Control", "no-store")
    ∷ []

pub data Content : Type 0 where
  html : Page → Content
  redirect : String → Content
  me_json : Me → Content
  forwarded : Shape → Content

pub record Response (Token : Type 0) : Type 0 where
  pub status : ℕ
  pub content : Content
  pub cookies : List (Cookie Token)

-- `_page`
abbrev pub page : {Token : Type 0} → Page → ℕ → Response Token
page p status = record { status = status; content = html p; cookies = [] }

abbrev pub redirect_to : {Token : Type 0} → String → ℕ → List (Cookie Token) → Response Token
redirect_to url status cookies = record {
  status = status;
  content = redirect url;
  cookies = cookies;
}

-- `pages.message(title, text, error=True)`
abbrev error_page : String → String → Page
error_page title words = message_page title words true "/auth/signin" "Back to sign in"

-- The first two slashes, of which one may have been read, and what is behind them.
unfoldable pub behind_slashes : Bool → String → Option String
behind_slashes read String.[] = none
behind_slashes read (String.◌∷◌ c s) =
    let later = behind_slashes (code c == b'/') s in
    if read && code c == b'/' then some s else later

abbrev or_whole : Option String → String → String
or_whole none s = s
or_whole (some rest) s = rest

-- `public_url.split("//", 1)[-1]`
unfoldable pub public_host : String → String
public_host public_url = or_whole (behind_slashes false public_url) public_url

-- `[(p.id, p.label) for p in gw.providers.values()]`
unfoldable pub provider_links : List Provider → List (String × String)
provider_links ps = map (λ p. (p.id, p.label)) (select enabled ps)

-- The message of an `AuthError` of `exchange_code`, where the provider has the label.
unfoldable pub auth_message : String → AuthError → String
auth_message label no_access_token = join label " did not return an access token."
auth_message label unverified = "Google reports that email address as unverified."
auth_message label no_verified_email =
    "Your GitHub account has no verified email address, which is what the account is keyed on."
auth_message label unreachable = join "Could not talk to " (join label ". Try again in a moment.")
auth_message label no_account = join label " did not identify the account."
auth_message label unusable_email = join label " returned an unusable email address."

module _ {F Token : Type 0} (s : Signer Token) (cfg : Config F) (show : Token → String) where
  unfoldable pub signed_in_response : User → ℕ → Response Token
  signed_in_response u now =
      redirect_to (join cfg.public_url "/") 303 (set_session s cfg u now ∷ [])

  unfoldable pub signin_response : List Provider → Option User → Response Token
  signin_response ps none = page (signin_page (provider_links ps) none (email_signin cfg)) 200
  signin_response ps (some u) = redirect_to "/account" 303 []

  -- The answer of `magic_request`; the address is that of the form.
  unfoldable pub magic_response : List Provider → String → MagicReply → Option (Response Token)
  magic_response ps address not_available =
      some (page (error_page "Sign in" "Email sign-in is not available on this instance.") 404)
  magic_response ps address bad_address = some (
      page (signin_page (provider_links ps) (some "That does not look like an email address.") true)
        400)
  magic_response ps address slow_down = some (
      page
        (error_page "Slow down"
          "Too many sign-in links requested. Wait a while, or use one already in your inbox.")
        429)
  magic_response ps address email_failed = some (
      page
        (error_page "Email failed"
          "The sign-in email could not be sent. Try again in a few minutes or use another method.")
        502)
  magic_response ps address check_email = some (page (email_page address) 200)
  magic_response ps address (magic_crashed e) = none

  -- `magic_confirm`: the link is what `read_magic` makes of the token, and the reason is the message of its
  -- `AuthError`.
  unfoldable pub confirm_response : String → Token → Option (String × String) → Response Token
  confirm_response reason token none = page (error_page "Sign-in link" reason) 400
  confirm_response reason token (some link) = page (confirm_page (show token)) 200

  unfoldable pub verify_response : String → ℕ → VerifyReply → Option (Response Token)
  verify_response reason now bad_link = some (page (error_page "Sign-in link" reason) 400)
  verify_response reason now link_used = some (
      page
        (error_page "Sign-in link"
          "That link has already been used or has expired. Request a new one.")
        400)
  verify_response reason now (signed_in u) = some (signed_in_response u now)
  verify_response reason now verify_crashed = none

  -- The answer of `oauth_start`, whose state is the token.
  unfoldable pub start_response : Option (Provider × Token) → Response Token
  start_response none = page (error_page "Sign in" "That sign-in method is not available here.") 404
  start_response (some (p, state)) =
      redirect_to (authorize_url p (redirect_uri cfg.public_url p.id) (show state)) 302
        (state_cookie state (secure_cookies cfg) ∷ [])

  -- The answer of `oauth_callback`, where the provider has the label.
  unfoldable pub callback_response : String → ℕ → OAuthReply → Option (Response Token)
  callback_response label now no_provider =
      some (page (error_page "Sign in" "That sign-in method is not available here.") 404)
  callback_response label now sign_in_cancelled =
      some (page (error_page "Sign in cancelled" (join label " did not complete the sign-in.")) 400)
  callback_response label now not_started = some (
      page
        (error_page "Sign in"
          "The sign-in did not start from this browser, or took too long. Start again.")
        400)
  callback_response label now (exchange_failed e) =
      some (page (error_page "Sign in" (auth_message label e)) 400)
  callback_response label now (oauth_signed_in u) =
      some (redirect_to (join cfg.public_url "/") 303 (set_session s cfg u now ∷ delete_state ∷ []))
  callback_response label now oauth_crashed = none

  unfoldable pub signout_response : Response Token
  signout_response =
      redirect_to (join cfg.public_url "/") 303 (clear_session (secure_cookies cfg) ∷ [])
