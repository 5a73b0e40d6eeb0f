-- ===== src/Gateway/Payments.antt =====
-- The handlers of Gateway.Checkout with the calls of Billing.Client in them, and the session of a checkout from
-- the form that starts it to the store.
use opendss_designer_cloud.Base.{
  ℕ, ◌≡◌, ◌≢◌, refl, ap, ◌∙◌, String, Bool, true, Option, none, some, ◌==◌, same, same_refl,
  same_ne, arith, Bool-cases, inl, inr, find?, ◌&&◌, not,
}
use opendss_designer_cloud.Base.Int.{ℤ, pos, negsuc}
use opendss_designer_cloud.Base.Text.{join, decimal, strip}
use opendss_designer_cloud.Base.Text.Numbers.{int_of, read_int, int_of-decimal}
use opendss_designer_cloud.Config.{Config}
use opendss_designer_cloud.Store.{User, Store}
use opendss_designer_cloud.Store.Users
use opendss_designer_cloud.Billing.{
  CheckoutSession, StripeSubscription, Fetch, apply_checkout_session, checkout_guard,
  checkout_number, checkout_user, apply_resolved, resolve, truthy, checkout_done, done,
  apply_subscription, sub_or_empty,
}
use opendss_designer_cloud.Billing.Sets.{Sets, apply_subscription-Sets}
use opendss_designer_cloud.Billing.Client.{
  Stripe, Form, field_of, Request, Answer, Called, returned, refused, Post, checkout_form,
  create_checkout, create_portal, checkout_session, subscription, enabled,
}
use opendss_designer_cloud.Gateway.Callers.{Gateway, Caller}
use opendss_designer_cloud.Gateway.Checkout.{
  Reply, billing_checkout, billing_portal, billing_success, Looked, is_paid, is_confirmed,
}

-- The `Stripe` that `Gateway.__init__` makes.
unfoldable pub stripe_of : {F : Type 0} → Config F → Stripe
stripe_of cfg = record {
  secret_key = cfg.stripe_secret_key;
  webhook_secret = cfg.stripe_webhook_secret;
  price_id = cfg.stripe_price_id;
  automatic_tax = cfg.stripe_automatic_tax;
}

-- The handlers read the message of a `StripeError` only to show it.
unfoldable pub value_of : {A : Type 0} → Called A → Option A
value_of (returned a) = some a
value_of (refused message) = none

unfoldable pub success_url : String → String
success_url public_url = join public_url "/billing/success?session_id={CHECKOUT_SESSION_ID}"

unfoldable pub account_url : String → String
account_url public_url = join public_url "/account"

unfoldable pub start_checkout : Post → Stripe → String → ℕ → String → Option String → Option String
start_checkout http stripe public_url user_id email customer_id = value_of (
    create_checkout http stripe user_id email customer_id (success_url public_url)
      (account_url public_url))

unfoldable pub start_portal : Post → Stripe → String → String → Option String
start_portal http stripe public_url customer_id =
    value_of (create_portal http stripe customer_id (account_url public_url))

unfoldable pub post_checkout : Post → Stripe → String → Gateway → Caller → Bool → Reply
post_checkout http stripe public_url g caller csrf =
    billing_checkout (start_checkout http stripe public_url) (enabled stripe) g caller csrf

unfoldable pub post_portal : Post → Stripe → String → Gateway → Caller → Bool → Reply
post_portal http stripe public_url g caller csrf =
    billing_portal (start_portal http stripe public_url) (enabled stripe) g caller csrf

-- The client's answers to the two kinds of GET.
pub record Gets : Type 0 where
  pub session : Request → Answer Looked
  pub sub : Request → Answer StripeSubscription

unfoldable pub get_success : Gets → Stripe → Gateway → ℕ → Caller → String → Reply × Gateway
get_success http stripe g now caller session_id =
    billing_success (λ k. value_of (checkout_session http.session stripe k))
      (λ k. value_of (subscription http.sub stripe k)) (enabled stripe) g now caller session_id

-- What `apply_checkout_session` makes of `client_reference_id` and `metadata.user_id`. No user has a negative id,
-- so a negative number is left out as an error of `int` is.
abbrev natural : Option ℤ → Option ℕ
natural none = none
natural (some (pos n)) = some n
natural (some (negsuc n)) = none

abbrev number_of : Option String → Option (Option ℕ)
number_of none = none
number_of (some s) = some (natural (int_of s))

abbrev or_else_text : Option String → Option String → Option String
or_else_text none b = b
or_else_text (some a) b = some a

unfoldable pub reference_of : Option String → Option String → Option (Option ℕ)
reference_of client_reference user_id =
    number_of (or_else_text (truthy client_reference) (truthy user_id))

-- Stripe's documented behaviour: a session carries the reference, the metadata and the mode it was made with.
pub record Echoes (form : Form) (l : Looked) : Type 0 where
  pub client_reference-echo : l.client_reference ≡ field_of form "client_reference_id"
  pub reference-echo :
      l.session.reference
      ≡ reference_of (field_of form "client_reference_id") (field_of form "metadata[user_id]")
  pub mode-echo : l.session.mode ≡ field_of form "mode"

module _ (stripe : Stripe) (user_id : ℕ) (email : String) (customer : Option String)
    (success cancel : String) where
  form : Form
  form = checkout_form stripe user_id email customer success cancel

  form-client_reference : field_of form "client_reference_id" ≡ some (decimal user_id)
  unfolding form checkout_form field_of same
  form-client_reference = refl

  form-metadata : field_of form "metadata[user_id]" ≡ some (decimal user_id)
  unfolding form checkout_form field_of same
  form-metadata = refl

  form-mode : field_of form "mode" ≡ some "subscription"
  unfolding form checkout_form field_of same
  form-mode = refl

decimal-injective : (m n : ℕ) → decimal m ≡ decimal n → m ≡ n
decimal-injective m n e = cc (int_of-decimal m, int_of-decimal n, ap int_of e)

-- The text of a number says which number it is.
same-decimal : (m n : ℕ) → same (decimal m) (decimal n) ≡ (n == m)
same-decimal m n = elim (Bool-cases (n == m)) [
  | inl e ↦ let p : n ≡ m = ground arith in rw (e, p) (same_refl (decimal m))
  | inr e ↦
      rw e (same_ne (decimal m) (decimal n) (λ p. let q = decimal-injective m n p in ground arith))
]

int_of_empty : int_of "" ≡ none
unfolding int_of read_int strip
int_of_empty = refl

decimal-truthy : (n : ℕ) → truthy (some (decimal n)) ≡ some (decimal n)
decimal-truthy n =
    rw (same_ne (decimal n) "" (λ p. cc (int_of-decimal n, ap int_of p, int_of_empty))) refl

reference_of-decimal : (n : ℕ) → reference_of (some (decimal n)) (some (decimal n)) ≡ some (some n)
unfolding reference_of
reference_of-decimal n = rw (decimal-truthy n, int_of-decimal n) refl

truthy_ne : (c : String) → c ≢ "" → truthy (some c) ≡ some c
truthy_ne c h = rw (same_ne c "" h) refl

apply_checkout_session_at :
    (fetch : Fetch) (s : Store) (now user_id : ℕ) (customer : String) (u : User)
    (session : CheckoutSession)
    → session.reference ≡ some (some user_id)
    → session.mode ≡ some "subscription"
    → session.customer ≡ some customer
    → customer ≢ ""
    → Users.get s user_id ≡ some u
    → apply_checkout_session fetch s now session
      ≡ apply_resolved s now user_id customer (resolve fetch session.subscription)
unfolding apply_checkout_session checkout_guard checkout_number checkout_user same
apply_checkout_session_at fetch s now user_id customer u session r m c n h =
    rw (r, c, truthy_ne customer n, m, h) refl

-- A checkout that is started for a user comes back to that user: if the session of the form that
-- `create_checkout` sends for a user id carries, as Stripe documents, the reference, the metadata and the mode
-- of the form, and it is paid, then the success page confirms it for the user with that id and for no other;
-- and if it has a customer whom no other user's row has, the user exists and Stripe tells the session's
-- subscription or that it has none, then `apply_checkout_session` succeeds, gives that user's row the customer and the
-- subscription's id and status, sets that user's plan to Pro if the subscription is active, trialing or
-- past due and to Free otherwise, and changes no other user and no other user's row.
pub checkout_form-comes_back :
    (stripe : Stripe) (user_id : ℕ) (email : String) (known : Option String)
    (success cancel : String) (l : Looked) (v u : User) (fetch : Fetch) (s : Store) (now : ℕ)
    (customer : String) (sub : Option StripeSubscription)
    → Echoes (checkout_form stripe user_id email known success cancel) l
    → is_paid l.session.payment_status ≡ true
    → l.session.customer ≡ some customer
    → customer ≢ ""
    → Users.get s user_id ≡ some u
    → find? (λ r. same r.customer_id customer && not (r.user_id == user_id)) s.subscriptions ≡ none
    → resolve fetch l.session.subscription ≡ some sub
    → (is_confirmed v l ≡ (v.id == user_id))
      × ((w : Sets s user_id u customer
            (sub_or_empty sub)
            (apply_subscription s now user_id customer sub))
          × (apply_checkout_session fetch s now l.session ≡ done (some w.plan, w.after)))
unfolding is_confirmed form apply_resolved checkout_done
checkout_form-comes_back stripe user_id email known success cancel l v u fetch s now customer sub e
      p c n h rival told =
    let reference : l.client_reference ≡ some (decimal user_id) =
      e.client_reference-echo ∙ form-client_reference stripe user_id email known success cancel in
    let session_reference : l.session.reference ≡ some (some user_id) =
      rw
        (
          e.reference-echo,
          form-client_reference stripe user_id email known success cancel,
          form-metadata stripe user_id email known success cancel,
        )
        (reference_of-decimal user_id) in
    let w = apply_subscription-Sets s now user_id u customer sub h rival in
    (
      rw (p, reference) (same-decimal user_id v.id),
      (
        w,
        apply_checkout_session_at fetch s now user_id customer u l.session session_reference
              (e.mode-echo ∙ form-mode stripe user_id email known success cancel) c n h
            ∙ ap (apply_resolved s now user_id customer) told
            ∙ ap checkout_done w.applied,
      ),
    )
