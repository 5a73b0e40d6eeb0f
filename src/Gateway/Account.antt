-- ===== src/Gateway/Account.antt =====
-- The account page of app.py, the answers of the billing handlers, and the legal pages.
use opendss_designer_cloud.Base.{
  ℕ, String, Bool, true, false, Option, none, some, List, [], ◌∷◌, if◌then◌else◌,
}
use opendss_designer_cloud.Config.{Config}
use opendss_designer_cloud.Store.{User}
use opendss_designer_cloud.Store.Users
use opendss_designer_cloud.Store.Ledger
use opendss_designer_cloud.Store.Subscriptions
use opendss_designer_cloud.Pages.Page.{
  Account, billing_page, account_page, privacy_page, terms_page,
}
use opendss_designer_cloud.Gateway.Callers.{Gateway, Caller, usage}
use opendss_designer_cloud.Gateway.Cookies.{Cookie, set_session}
use opendss_designer_cloud.Gateway.Checkout.{
  Reply, billing_off, sign_in_first, form_expired, to_account, no_subscription, stripe_down,
  to_stripe, welcome, almost_there, crashed,
}
use opendss_designer_cloud.Gateway.Plans.{Today, lookup}
use opendss_designer_cloud.Gateway.Tokens.{Signer, csrf_token, seconds}
use opendss_designer_cloud.Gateway.Site.{html, Response, page, redirect_to, public_host}

-- `identities`, `recent` and what else `account_page` reads; `csrf` is the text of the form's token.
unfoldable pub account_of :
    {F : Type 0} → Config F → Bool → Gateway → Caller → User → Today → String → Account
account_of cfg billing_on g caller u today csrf = record {
  user = u;
  plan = caller.plan;
  used = (usage g caller today).1;
  identities = Users.identities g.store u.id;
  csrf = csrf;
  recent = Ledger.recent g.store 10 (some caller.client);
  support_email = cfg.support_email;
  billing = some (record {
    enabled = billing_on;
    price_text = cfg.pro_price_text;
    subscription = Subscriptions.get g.store u.id;
  });
  pro = lookup g.plans "pro";
}

module _ {F Token : Type 0} (s : Signer Token) (cfg : Config F) (show : Token → String) where
  -- `account_page`; `refresh` is the cookie that `finish` adds, and `n` is the random text of the form's token.
  unfoldable pub account_user :
      Bool
      → Gateway
      → Caller
      → Today
      → ℕ
      → String
      → List (Cookie Token)
      → Option User
      → Response Token
  account_user billing_on g caller today now n refresh none = redirect_to "/auth/signin" 303 []
  account_user billing_on g caller today now n refresh (some u) = record {
    status = 200;
    content = html (
        account_page
          (account_of cfg billing_on g caller u today (show (csrf_token s u.id n (seconds now)))));
    cookies = refresh;
  }

  unfoldable pub refresh_cookies : ℕ → Bool → Option User → List (Cookie Token)
  refresh_cookies now refresh none = []
  refresh_cookies now refresh (some u) = if refresh then set_session s cfg u now ∷ [] else []

  unfoldable pub account_response : Bool → Gateway → Caller → Today → ℕ → String → Response Token
  account_response billing_on g caller today now n =
      account_user billing_on g caller today now n
        (refresh_cookies now caller.refresh_session caller.user) caller.user

  -- The answers of the three billing handlers; the reason is the message of a `StripeError`.
  unfoldable pub billing_response : String → Reply → Option (Response Token)
  billing_response reason billing_off =
      some (page (billing_page "Billing" "Paid plans are not available on this instance." true) 404)
  billing_response reason sign_in_first = some (redirect_to "/auth/signin" 303 [])
  billing_response reason form_expired =
      some (page (billing_page "Billing" "That form had expired. Try again." true) 400)
  billing_response reason to_account = some (redirect_to "/account" 303 [])
  billing_response reason no_subscription =
      some (page (billing_page "Billing" "There is no subscription on this account yet." true) 404)
  billing_response reason stripe_down = some (page (billing_page "Billing" reason true) 503)
  billing_response reason (to_stripe url) = some (redirect_to url 303 [])
  billing_response reason welcome = some (
      page
        (billing_page "Welcome to Pro"
          "Your plan is active. The designer picks it up on the next request; reload it if the banner still says Free."
          false)
        200)
  billing_response reason almost_there = some (
      page
        (billing_page "Almost there"
          "Stripe is still confirming the payment. Your account page will show Pro within a minute; no need to pay again."
          false)
        200)
  billing_response reason (crashed e) = none

  unfoldable pub privacy_response : Response Token
  privacy_response =
      page (privacy_page cfg.operator_name cfg.support_email (public_host cfg.public_url)) 200

  unfoldable pub terms_response : Response Token
  terms_response =
      page (terms_page cfg.operator_name cfg.support_email (public_host cfg.public_url)) 200
