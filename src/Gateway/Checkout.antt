-- ===== src/Gateway/Checkout.antt =====
-- The handlers of app.py that start a checkout, confirm it and open the portal. Stripe's calls are parameters,
-- with `none` for a `StripeError`.
use opendss_designer_cloud.Base.{
  ℕ, String, Bool, true, false, not, ◌&&◌, ◌||◌, Option, none, some, same, if◌then◌else◌,
}
use opendss_designer_cloud.Base.Text.{decimal}
use opendss_designer_cloud.Store.{User, Subscription, Store, DbError}
use opendss_designer_cloud.Store.Subscriptions
use opendss_designer_cloud.Billing.{
  CheckoutSession, Fetch, Applied, done, fail, stripe_error, db_error, apply_checkout_session,
}
use opendss_designer_cloud.Billing.Keeps.{Leaves, apply_checkout_session-keeps}
use opendss_designer_cloud.Billing.Plans.{PlansAgree, apply_subscription-PlansAgree}
use opendss_designer_cloud.Gateway.Callers.{Gateway, Caller}

-- The pages and redirects: 404, to sign-in, 400, to the account, 404 for no subscription, 503, to a
-- page of Stripe, the two pages of `billing_success`, and a 500.
pub data Reply : Type 0 where
  billing_off sign_in_first form_expired to_account no_subscription stripe_down : Reply
  to_stripe : String → Reply
  welcome almost_there : Reply
  crashed : DbError → Reply

unfoldable pub sent : Option String → Reply
sent none = stripe_down
sent (some url) = to_stripe url

abbrev pub customer_of : Option Subscription → Option String
customer_of none = none
customer_of (some sub) = some sub.customer_id

-- `billing_checkout`; `create` is `Stripe.create_checkout` of a user id, an email and a customer.
unfoldable pub billing_checkout :
    (create : ℕ → String → Option String → Option String) → Bool → Gateway → Caller → Bool → Reply
billing_checkout create enabled g caller csrf =
    if not enabled then billing_off else elim caller.user [
      | none ↦ sign_in_first
      | some u ↦
          if not csrf
          then form_expired
          else if same caller.plan.id "pro"
          then to_account
          else sent (create u.id u.email (customer_of (Subscriptions.get g.store u.id)))
    ]

-- `billing_portal`; `create` is `Stripe.create_portal` of a customer.
unfoldable pub billing_portal :
    (create : String → Option String) → Bool → Gateway → Caller → Bool → Reply
billing_portal create enabled g caller csrf =
    if not enabled then billing_off else elim caller.user [
      | none ↦ sign_in_first
      | some u ↦ if not csrf then form_expired else elim (Subscriptions.get g.store u.id) [
        | none ↦ no_subscription
        | some sub ↦ sent (create sub.customer_id)
      ]
    ]

-- A session that Stripe returns, with its `client_reference_id` as a text.
pub record Looked : Type 0 where
  pub session : CheckoutSession
  pub client_reference : Option String

-- `str(x)`
abbrev pub str_or_none : Option String → String
str_or_none none = "None"
str_or_none (some s) = s

-- `payment_status in ("paid", "no_payment_required")`
abbrev pub is_paid : Option String → Bool
is_paid none = false
is_paid (some status) = same status "paid" || same status "no_payment_required"

unfoldable pub is_confirmed : User → Looked → Bool
is_confirmed u l =
    is_paid l.session.payment_status && same (str_or_none l.client_reference) (decimal u.id)

abbrev pub is_pro : Option String → Bool
is_pro none = false
is_pro (some plan) = same plan "pro"

unfoldable pub confirmed : Gateway → Applied → Reply × Gateway
confirmed g (done (plan, s)) =
    (if is_pro plan then welcome else almost_there, record g { store = s })
confirmed g (fail stripe_error) = (almost_there, g)
confirmed g (fail (db_error e)) = (crashed e, g)

unfoldable pub success_session : Fetch → Gateway → ℕ → User → Option Looked → Reply × Gateway
success_session fetch g now u none = (almost_there, g)
success_session fetch g now u (some l) =
    if is_confirmed u l
    then confirmed g (apply_checkout_session fetch g.store now l.session)
    else (almost_there, g)

unfoldable pub success_user :
    (look : String → Option Looked) → Fetch → Gateway → ℕ → String → Option User → Reply × Gateway
success_user look fetch g now session_id none = (sign_in_first, g)
success_user look fetch g now session_id (some u) =
    if same session_id ""
    then (almost_there, g)
    else success_session fetch g now u (look session_id)

-- `billing_success`; `look` is `Stripe.checkout_session` of a session id.
unfoldable pub billing_success :
    (look : String → Option Looked) → Fetch → Bool → Gateway → ℕ → Caller → String → Reply × Gateway
billing_success look fetch enabled g now caller session_id =
    if not enabled then (billing_off, g) else success_user look fetch g now session_id caller.user

either :
    (P : Store → Type 0) (b : Bool) (x y : Reply × Gateway)
    → P x.1.store
    → P y.1.store
    → P (if b then x else y).1.store
either P true x y h k = h
either P false x y h k = k

confirmed-PlansAgree :
    (g : Gateway) (o : Applied)
    → PlansAgree g.store
    → Leaves PlansAgree o
    → PlansAgree (confirmed g o).1.store
unfolding confirmed
confirmed-PlansAgree g (done (plan, s)) a l = l
confirmed-PlansAgree g (fail stripe_error) a l = a
confirmed-PlansAgree g (fail (db_error e)) a l = a

success_session-PlansAgree :
    (fetch : Fetch) (g : Gateway) (now : ℕ) (u : User) (o : Option Looked)
    → PlansAgree g.store
    → PlansAgree (success_session fetch g now u o).1.store
unfolding success_session
success_session-PlansAgree fetch g now u none a = a
success_session-PlansAgree fetch g now u (some l) a =
    either PlansAgree (is_confirmed u l)
      (confirmed g (apply_checkout_session fetch g.store now l.session)) (almost_there, g)
      (confirmed-PlansAgree g (apply_checkout_session fetch g.store now l.session) a (
        apply_checkout_session-keeps PlansAgree
          (λ s t now k customer sub plan q a.
            (apply_subscription-PlansAgree s t now k customer sub plan q a).1)
          g.store now a fetch l.session))
      a

success_user-PlansAgree :
    (look : String → Option Looked) (fetch : Fetch) (g : Gateway) (now : ℕ) (session_id : String)
    (o : Option User)
    → PlansAgree g.store
    → PlansAgree (success_user look fetch g now session_id o).1.store
unfolding success_user
success_user-PlansAgree look fetch g now session_id none a = a
success_user-PlansAgree look fetch g now session_id (some u) a =
    either PlansAgree (same session_id "") (almost_there, g)
      (success_session fetch g now u (look session_id)) a
      (success_session-PlansAgree fetch g now u (look session_id) a)

-- Whatever Stripe answers, the success page keeps every user's plan in agreement with the user's
-- subscription.
pub billing_success-PlansAgree :
    (look : String → Option Looked) (fetch : Fetch) (enabled : Bool) (g : Gateway) (now : ℕ)
    (caller : Caller) (session_id : String)
    → PlansAgree g.store
    → PlansAgree (billing_success look fetch enabled g now caller session_id).1.store
unfolding billing_success
billing_success-PlansAgree look fetch enabled g now caller session_id a =
    either PlansAgree (not enabled) (billing_off, g)
      (success_user look fetch g now session_id caller.user) a
      (success_user-PlansAgree look fetch g now session_id caller.user a)
