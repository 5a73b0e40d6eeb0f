-- ===== src/Billing.antt =====
-- billing.py: what Stripe says is applied to the store.
--
-- A JSON object that Stripe sends is a record of the fields that the code reads. A missing key and
-- `null` are `none`; the `metadata`, `items` and `data` levels are flattened to the field that is
-- read. The REST calls are parameters.
pub mod Keeps
pub mod Plans
pub mod Sets
pub mod Webhook
pub mod Kept
pub mod Signature
pub mod Client
mod Tests
use opendss_designer_cloud.Base.{
  ℕ, ◌-◌, String, Bool, true, false, not, ◌&&◌, ◌||◌, Option, none, some, List, [], ◌∷◌, same, ltb,
  if◌then◌else◌, is_some, ◌++◌,
}
use opendss_designer_cloud.Store.{Store, User, Subscription, Result, ok, err, DbError, ◌>>=◌}
use opendss_designer_cloud.Store.Users
use opendss_designer_cloud.Store.Subscriptions

-- A Stripe subscription object. `item_period_end` is `items.data[0].current_period_end`.
pub record StripeSubscription : Type 0 where
  pub id : Option String
  pub status : Option String
  pub customer : Option String
  pub current_period_end : Option ℕ
  pub item_period_end : Option ℕ
  pub cancel_at : Option ℕ
  pub cancel_at_period_end : Bool

-- The field `subscription` of a Checkout session: an id, the expanded object, or neither.
pub data SubscriptionRef : Type 0 where
  absent : SubscriptionRef
  by_id : String → SubscriptionRef
  expanded : StripeSubscription → SubscriptionRef

-- A Checkout session. `reference` is what `int` makes of `client_reference_id` or
-- `metadata.user_id`: `none` where both are missing or empty, `some none` where `int` raises.
pub record CheckoutSession : Type 0 where
  pub reference : Option (Option ℕ)
  pub customer : Option String
  pub mode : Option String
  pub payment_status : Option String
  pub subscription : SubscriptionRef

abbrev pub pro_statuses : List String
pro_statuses = "active" ∷ "trialing" ∷ "past_due" ∷ []

-- `in`, on texts
unfoldable pub member : String → List String → Bool
member s [] = false
member s (t ∷ ts) = same s t || member s ts

unfoldable pub plan_for : String → String
plan_for status = if member status pro_statuses then "pro" else "free"

abbrev pub first_of {ℓ} : {A : Type ℓ} → Option A → Option A → Option A
first_of none b = b
first_of (some a) b = some a

unfoldable pub period_end : StripeSubscription → Option ℕ
period_end sub = first_of sub.current_period_end sub.item_period_end

unfoldable pub cancel_scheduled : StripeSubscription → Bool
cancel_scheduled sub = sub.cancel_at_period_end || is_some sub.cancel_at

-- `{}`
abbrev pub no_subscription : StripeSubscription
no_subscription = record {
  id = none;
  status = none;
  customer = none;
  current_period_end = none;
  item_period_end = none;
  cancel_at = none;
  cancel_at_period_end = false;
}

-- `x or default`, on texts: the empty text is falsy too.
abbrev pub text_or : Option String → String → String
text_or none d = d
text_or (some s) d = if same s "" then d else s

unfoldable pub status_of : StripeSubscription → String
status_of sub = text_or sub.status "none"

abbrev pub sub_or_empty : Option StripeSubscription → StripeSubscription
sub_or_empty none = no_subscription
sub_or_empty (some sub) = sub

unfoldable pub subscription_row : ℕ → ℕ → String → StripeSubscription → Subscription
subscription_row now user_id customer_id sub = record {
  user_id = user_id;
  customer_id = customer_id;
  subscription_id = sub.id;
  status = status_of sub;
  current_period_end = first_of sub.cancel_at (period_end sub);
  cancel_at_period_end = cancel_scheduled sub;
  updated = now;
}

-- `apply_subscription`: the plan, and the store with the subscription and the user's plan set.
unfoldable pub apply_subscription :
    Store → ℕ → ℕ → String → Option StripeSubscription → Result (String × Store)
apply_subscription s now user_id customer_id sub = do
  t ← Subscriptions.upsert s (subscription_row now user_id customer_id (sub_or_empty sub))
  let plan = plan_for (status_of (sub_or_empty sub))
  ok (plan, Users.set_plan t user_id plan)

-- What stops a webhook: Stripe could not be asked, or the store raised.
pub data Failure : Type 0 where
  stripe_error : Failure
  db_error : DbError → Failure

pub data Outcome {ℓ} (A : Type ℓ) : Type ℓ where
  done : A → Outcome A
  fail : Failure → Outcome A

abbrev pub of_result {ℓ} : {A : Type ℓ} → Result A → Outcome A
of_result (ok a) = done a
of_result (err e) = fail (db_error e)

-- `Stripe.subscription`: a GET that returns an object, or raises `StripeError`.
abbrev pub Fetch : Type 0
Fetch = String → Option StripeSubscription

-- The subscription of a session: fetched, expanded or `None`; the outer `none` is a `StripeError`.
unfoldable pub resolve : Fetch → SubscriptionRef → Option (Option StripeSubscription)
resolve fetch absent = some none
resolve fetch (expanded sub) = some (some sub)
resolve fetch (by_id k) = elim (fetch k) [ none ↦ none | some sub ↦ some (some sub) ]

-- A plan, or `None` for a session that is not ours.
abbrev pub Applied : Type 0
Applied = Outcome (Option String × Store)

unfoldable pub checkout_done : Result (String × Store) → Applied
checkout_done (err e) = fail (db_error e)
checkout_done (ok (plan, t)) = done (some plan, t)

unfoldable pub apply_resolved :
    Store → ℕ → ℕ → String → Option (Option StripeSubscription) → Applied
apply_resolved s now user_id customer none = fail stripe_error
apply_resolved s now user_id customer (some sub) =
    checkout_done (apply_subscription s now user_id customer sub)

-- `session.get("mode") not in (None, "subscription")`
abbrev pub is_other_mode : Option String → Bool
is_other_mode none = false
is_other_mode (some mode) = not (same mode "subscription")

-- A customer that is missing or empty is falsy.
abbrev pub truthy : Option String → Option String
truthy none = none
truthy (some s) = if same s "" then none else some s

-- The tests of `apply_checkout_session`, in their order: the user, the number, the session.
unfoldable pub checkout_user :
    Fetch → Store → ℕ → CheckoutSession → String → ℕ → Option User → Applied
checkout_user fetch s now session customer user_id none = done (none, s)
checkout_user fetch s now session customer user_id (some _) =
    apply_resolved s now user_id customer (resolve fetch session.subscription)

unfoldable pub checkout_number : Fetch → Store → ℕ → CheckoutSession → String → Option ℕ → Applied
checkout_number fetch s now session customer none = done (none, s)
checkout_number fetch s now session customer (some user_id) =
    checkout_user fetch s now session customer user_id (Users.get s user_id)

unfoldable pub checkout_guard :
    Fetch → Store → ℕ → CheckoutSession → Option (Option ℕ) → Option String → Applied
checkout_guard fetch s now session none customer = done (none, s)
checkout_guard fetch s now session (some ref) none = done (none, s)
checkout_guard fetch s now session (some ref) (some customer) =
    if is_other_mode session.mode
    then done (none, s)
    else checkout_number fetch s now session customer ref

unfoldable pub apply_checkout_session : Fetch → Store → ℕ → CheckoutSession → Applied
apply_checkout_session fetch s now session =
    checkout_guard fetch s now session session.reference (truthy session.customer)

-- A verified event, by its `type`. `subscription_changed` is any other type that begins with
-- `customer.subscription.`.
pub data Event : Type 0 where
  checkout_completed : CheckoutSession → Event
  subscription_changed : StripeSubscription → Event
  subscription_deleted : StripeSubscription → Event
  other : Event

-- The text that `apply_event` returns for the log.
pub data Report : Type 0 where
  checkout_unpaid : Report
  checkout_applied : String → Report
  checkout_ignored : Report
  subscription_unknown_customer : Report
  subscription_applied : String → Report
  ignored : Report

-- `payment_status not in (None, "paid", "no_payment_required")`
abbrev pub is_unpaid : Option String → Bool
is_unpaid none = false
is_unpaid (some status) = not (same status "paid" || same status "no_payment_required")

unfoldable pub report_checkout : Applied → Outcome (Report × Store)
report_checkout (fail f) = fail f
report_checkout (done (none, s)) = done (checkout_ignored, s)
report_checkout (done (some plan, s)) = done (checkout_applied plan, s)

-- The branch of `customer.subscription.*`: the customer, the customer's row, the change.
unfoldable pub change_done : Result (String × Store) → Outcome (Report × Store)
change_done (err e) = fail (db_error e)
change_done (ok (plan, t)) = done (subscription_applied plan, t)

unfoldable pub change_row :
    Store → ℕ → StripeSubscription → String → Option Subscription → Outcome (Report × Store)
change_row s now sub customer none = done (subscription_unknown_customer, s)
change_row s now sub customer (some row) =
    change_done (apply_subscription s now row.user_id customer (some sub))

unfoldable pub change_customer :
    Store → ℕ → StripeSubscription → Option String → Outcome (Report × Store)
change_customer s now sub none = done (subscription_unknown_customer, s)
change_customer s now sub (some customer) =
    change_row s now sub customer (Subscriptions.by_customer s customer)

unfoldable pub apply_change : Store → ℕ → StripeSubscription → Outcome (Report × Store)
apply_change s now sub = change_customer s now sub (truthy sub.customer)

unfoldable pub apply_event : Fetch → Store → ℕ → Event → Outcome (Report × Store)
apply_event fetch s now (checkout_completed session) =
    if is_unpaid session.payment_status
    then done (checkout_unpaid, s)
    else report_checkout (apply_checkout_session fetch s now session)
apply_event fetch s now (subscription_changed sub) = apply_change s now sub
apply_event fetch s now (subscription_deleted sub) =
    apply_change s now (record sub { status = some "canceled" })
apply_event fetch s now other = done (ignored, s)
