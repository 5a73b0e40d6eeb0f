-- ===== src/Gateway/SiteTests.antt =====
-- Answers, cookies and checkouts at concrete inputs.
use opendss_designer_cloud.Base.{
  ℕ, ◌≡◌, ◌≢◌, ◌<◌, refl, String, true, false, none, some, [], ◌∷◌, All, map, same, arith, ◌==◌,
}
use opendss_designer_cloud.Base.Text.{join, decimal, strip}
use opendss_designer_cloud.Base.Text.Numbers.{int_of, read_int, read_digits}
use opendss_designer_cloud.Base.Text.Query.{codes, is_ascii}
use opendss_designer_cloud.Base.Text.Split.{is_free}
use opendss_designer_cloud.Base.Text.Query.Reads.{bytes_of}
use opendss_designer_cloud.Config.Tests.{cfg}
use opendss_designer_cloud.Store.{User, empty, Identity}
use opendss_designer_cloud.Store.Users
use opendss_designer_cloud.Store.Subscriptions
use opendss_designer_cloud.Billing.{
  StripeSubscription, by_id, no_subscription, apply_checkout_session, apply_subscription, resolve,
  done,
}
use opendss_designer_cloud.Billing.Sets.{Sets}
use opendss_designer_cloud.Billing.Client.{
  Stripe, Post, answered, post_request, checkout_form, enabled,
}
use opendss_designer_cloud.Pages.Page.{Account, account_page}
use opendss_designer_cloud.Billing.Client.{create_checkout, send_post, of_post, page_of, field_of}
use opendss_designer_cloud.Billing.{Fetch}
use opendss_designer_cloud.Gateway.Account.{account_of, account_user, account_response}
use opendss_designer_cloud.Gateway.Authorize.{
  authorize_url, asked, last_params, authorize_url-asked,
}
use opendss_designer_cloud.Gateway.Callers.{Gateway, Caller}
use opendss_designer_cloud.Gateway.Cookies.{set_session, delete_state}
use opendss_designer_cloud.Gateway.Checkout.{
  Looked, to_stripe, customer_of, is_confirmed, billing_checkout, sent,
}
use opendss_designer_cloud.Gateway.Guarded.{Fit, respond-Fit}
use opendss_designer_cloud.Gateway.OAuth.{oauth_signed_in}
use opendss_designer_cloud.Gateway.Own.{Own, account_response-Own}
use opendss_designer_cloud.Gateway.Payments.{
  Echoes, post_checkout, success_url, account_url, start_checkout, value_of, reference_of,
  checkout_form-comes_back,
}
use opendss_designer_cloud.Gateway.Plans.{Today}
use opendss_designer_cloud.Gateway.Providers.{Provider, google_provider}
use opendss_designer_cloud.Gateway.Redirects.{post_checkout-Redirected}
use opendss_designer_cloud.Gateway.Served.{Served, callback, respond, user_of, state_of}
use opendss_designer_cloud.Gateway.Site.{
  html, redirect, callback_response, Response, public_host, behind_slashes,
}
use opendss_designer_cloud.Gateway.Tests.{ada, gateway, plan}
use opendss_designer_cloud.Gateway.Tokens.{check_csrf, csrf_token}
use opendss_designer_cloud.Gateway.Trials.{Token, signer, signer-Signs}

abbrev show : Token → String
show t = "token"

abbrev caller : Caller
caller = record {
  client = "user:7";
  plan = record plan { id = "free" };
  user = some ada;
  refresh_session = true;
}

abbrev today : Today
today = record { month = "2026-01"; date = "2026-01-31" }

abbrev mine : Identity
mine = record { provider = "github"; subject = "42"; user_id = 7; email = none; created = 5 }

abbrev theirs : Identity
theirs = record { provider = "github"; subject = "43"; user_id = 8; email = none; created = 4 }

abbrev busy : Gateway
busy = record gateway { store = record empty { users = ada ∷ []; identities = theirs ∷ mine ∷ [] } }

abbrev form_token : Token
form_token = csrf_token signer 7 "ab" 5

abbrev shown : Account
shown = account_of cfg true busy caller ada today "token"

shown_lem :
    (account_response signer cfg show true busy caller today 5000 "ab").content
    ≡ html (account_page shown)
unfolding account_response account_user
shown_lem = refl

account_response-Own_example :
    (u : User) × (token : Token) × (caller.user ≡ some u)
    × Own caller.client u shown
    × (shown.csrf ≡ show token)
    × (check_csrf signer token 8 60 ≡ (u.id == 8))
account_response-Own_example =
    account_response-Own signer cfg show true busy caller today 5000 "ab" shown 8 60 signer-Signs
      shown_lem (omega arith) (omega arith)

abbrev back : Served Token
back = callback "Google" (oauth_signed_in ada)

abbrev welcomed : Response Token
welcomed = record {
  status = 303;
  content = redirect (join cfg.public_url "/");
  cookies = set_session signer cfg ada 5000 ∷ delete_state ∷ [];
}

welcomed_lem : respond signer cfg show 5000 back ≡ some welcomed
unfolding respond callback_response
welcomed_lem = refl

respond-Fit_example : All (Fit signer cfg show 5000 (user_of back) (state_of back)) welcomed.cookies
respond-Fit_example = respond-Fit signer cfg show 5000 back welcomed welcomed_lem

host : (public_host "https://grid.example" ≡ "grid.example") × (public_host "grid" ≡ "grid")
unfolding public_host behind_slashes
host = (refl, refl)

abbrev google : Provider
google = google_provider "id" "secret"

authorize_url-asked_example :
    asked (authorize_url google "https://grid.example/auth/google/callback" "a&b=c")
    ≡ some (
      google.authorize_url,
      (codes "client_id", codes google.client_id)
          ∷ (codes "redirect_uri", codes "https://grid.example/auth/google/callback")
          ∷ (codes "scope", codes google.scope)
          ∷ (codes "state", codes "a&b=c")
          ∷ map bytes_of (last_params (same google.id "google")),
    )
unfolding is_free google_provider is_ascii
authorize_url-asked_example =
    authorize_url-asked google "https://grid.example/auth/google/callback" "a&b=c" refl refl refl
      refl refl

abbrev stripe : Stripe
stripe = record {
  secret_key = "sk";
  webhook_secret = "";
  price_id = "price_1";
  automatic_tax = true;
}

abbrev http : Post
http request = answered 200 (some "https://checkout.stripe.com/c/1")

abbrev page : String
page = "https://checkout.stripe.com/c/1"

started : post_checkout http stripe "https://grid.example" busy caller true ≡ to_stripe page
unfolding post_checkout billing_checkout start_checkout create_checkout send_post of_post page_of
    value_of sent enabled same Subscriptions.get
started = refl

post_checkout-Redirected_example :
    (u : User) × (status : ℕ) × (caller.user ≡ some u)
    × (enabled stripe ≡ true)
    × (true ≡ true)
    × (same caller.plan.id "pro" ≡ false)
    × (http (
          post_request stripe "/v1/checkout/sessions" (
            checkout_form stripe u.id u.email
              (customer_of (Subscriptions.get busy.store u.id))
              (success_url "https://grid.example")
              (account_url "https://grid.example")))
        ≡ answered status (some page))
    × (status < 400)
    × (page ≢ "")
post_checkout-Redirected_example =
    post_checkout-Redirected http stripe "https://grid.example" busy caller true page started

abbrev paid : Looked
paid = record {
  session = record {
    reference = some (some 7);
    customer = some "cus_1";
    mode = some "subscription";
    payment_status = some "paid";
    subscription = by_id "sub_1";
  };
  client_reference = some "7";
}

abbrev fetch : Fetch
fetch k = some (record no_subscription { id = some k; status = some "active" })

paid-Echoes : Echoes (checkout_form stripe 7 "ada@example.com" none "s" "c") paid
unfolding checkout_form field_of same reference_of int_of read_int read_digits strip decimal
paid-Echoes = record { client_reference-echo = refl; reference-echo = refl; mode-echo = refl }

abbrev told : StripeSubscription
told = record no_subscription { id = some "sub_1"; status = some "active" }

checkout_form-comes_back_example :
    (is_confirmed ada paid ≡ (ada.id == 7))
    × ((w : Sets busy.store 7 ada "cus_1" told
          (apply_subscription busy.store 9 7 "cus_1" (some told)))
        × (apply_checkout_session fetch busy.store 9 paid.session ≡ done (some w.plan, w.after)))
unfolding same Users.get resolve
checkout_form-comes_back_example =
    checkout_form-comes_back stripe 7 "ada@example.com" none "s" "c" paid ada ada fetch busy.store 9
      "cus_1" (some told) paid-Echoes refl refl (λ e. cc) refl refl refl
