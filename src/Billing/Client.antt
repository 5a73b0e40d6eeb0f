-- ===== src/Billing/Client.antt =====
-- `Stripe` of billing.py: the requests that it sends and what it makes of the answers.
--
-- The HTTP client is a parameter. `Answer` is what it gives back for a request: `httpx.HTTPError`, or a status and
-- the fields that are read of the JSON object in the body.
use opendss_designer_cloud.Base.{
  ℕ, String, Bool, true, false, not, ◌&&◌, Option, none, some, List, [], ◌∷◌, ◌++◌, leb, same,
  if◌then◌else◌,
}
use opendss_designer_cloud.Base.Text.{join, decimal}
use opendss_designer_cloud.Billing.{truthy}

-- The client of the dataclass is the parameter.
pub record Stripe : Type 0 where
  pub secret_key : String
  pub webhook_secret : String
  pub price_id : String
  pub automatic_tax : Bool

unfoldable pub enabled : Stripe → Bool
enabled stripe = not (same stripe.secret_key "") && not (same stripe.price_id "")

-- The data of a request: a dict, in the order of its insertion.
abbrev pub Form : Type 0
Form = List (String × String)

unfoldable pub field_of : Form → String → Option String
field_of [] k = none
field_of ((j, v) ∷ form) k = if same j k then some v else field_of form k

pub data Method : Type 0 where
  get : Method
  post : Form → Method

pub record Request : Type 0 where
  pub method : Method
  pub path : String
  pub authorization : String

pub data Answer (A : Type 0) : Type 0 where
  unreachable : Answer A
  answered : ℕ → A → Answer A

-- What a call returns, or the message of its `StripeError`.
pub data Called (A : Type 0) : Type 0 where
  returned : A → Called A
  refused : String → Called A

unfoldable pub bearer : Stripe → String
bearer stripe = join "Bearer " stripe.secret_key

abbrev out_of_reach : String
out_of_reach = "Could not reach the payment provider. Try again in a moment."

unfoldable pub of_post : {A : Type 0} → Answer A → Called A
of_post unreachable = refused out_of_reach
of_post (answered status body) =
    if leb 400 status
    then refused
        "The payment provider refused the request. This has been logged; try again later or email support."
    else returned body

unfoldable pub of_get : {A : Type 0} → Answer A → Called A
of_get unreachable = refused out_of_reach
of_get (answered status body) =
    if leb 400 status
    then refused "The payment provider refused the request. Try again in a moment."
    else returned body

unfoldable pub post_request : Stripe → String → Form → Request
post_request stripe path form = record {
  method = post form;
  path = path;
  authorization = bearer stripe;
}

unfoldable pub get_request : Stripe → String → Request
get_request stripe path = record { method = get; path = path; authorization = bearer stripe }

-- `_post` and `_get`
unfoldable pub send_post : {A : Type 0} → (Request → Answer A) → Stripe → String → Form → Called A
send_post http stripe path form = of_post (http (post_request stripe path form))

unfoldable pub send_get : {A : Type 0} → (Request → Answer A) → Stripe → String → Called A
send_get http stripe path = of_get (http (get_request stripe path))

abbrev customer_fields : Option String → String → Form
customer_fields none email = ("customer_email", email) ∷ []
customer_fields (some customer) email = ("customer", customer) ∷ []

abbrev address_fields : Option String → Form
address_fields none = []
address_fields (some customer) = ("customer_update[address]", "auto") ∷ []

abbrev tax_fields : Bool → Option String → Form
tax_fields false customer = []
tax_fields true customer = ("automatic_tax[enabled]", "true") ∷ address_fields customer

-- The data of `create_checkout`; the keys are different, so an assignment adds at the end.
unfoldable pub checkout_form : Stripe → ℕ → String → Option String → String → String → Form
checkout_form stripe user_id email customer_id success_url cancel_url =
    ("mode", "subscription")
    ∷ ("line_items[0][price]", stripe.price_id)
    ∷ ("line_items[0][quantity]", "1")
    ∷ ("success_url", success_url)
    ∷ ("cancel_url", cancel_url)
    ∷ ("client_reference_id", decimal user_id)
    ∷ ("metadata[user_id]", decimal user_id)
    ∷ ("allow_promotion_codes", "true")
    ∷ (customer_fields (truthy customer_id) email
        ++ tax_fields stripe.automatic_tax (truthy customer_id))

-- `session.get("url")` of what `_post` returned; a missing or empty one raises.
unfoldable pub page_of : String → Called (Option String) → Called String
page_of message (refused m) = refused m
page_of message (returned url) = elim (truthy url) [
  | none ↦ refused message
  | some page ↦ returned page
]

-- The `url` of the session that Stripe makes.
abbrev pub Post : Type 0
Post = Request → Answer (Option String)

unfoldable pub create_checkout :
    Post → Stripe → ℕ → String → Option String → String → String → Called String
create_checkout http stripe user_id email customer_id success_url cancel_url =
    page_of "The payment provider did not return a checkout page." (
      send_post http stripe "/v1/checkout/sessions"
        (checkout_form stripe user_id email customer_id success_url cancel_url))

unfoldable pub create_portal : Post → Stripe → String → String → Called String
create_portal http stripe customer_id return_url =
    page_of "The payment provider did not return a billing page." (
      send_post http stripe "/v1/billing_portal/sessions"
        (("customer", customer_id) ∷ ("return_url", return_url) ∷ []))

unfoldable pub checkout_session : {A : Type 0} → (Request → Answer A) → Stripe → String → Called A
checkout_session http stripe session_id =
    send_get http stripe (join "/v1/checkout/sessions/" session_id)

unfoldable pub subscription : {A : Type 0} → (Request → Answer A) → Stripe → String → Called A
subscription http stripe subscription_id =
    send_get http stripe (join "/v1/subscriptions/" subscription_id)
