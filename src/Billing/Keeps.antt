-- ===== src/Billing/Keeps.antt =====
-- A rule for what every event keeps of the store: it has to be kept by `apply_subscription`.
use opendss_designer_cloud.Base.{ℕ, ◌≡◌, refl, String, inl, inr, Option, none, some, Bool-cases}
use opendss_designer_cloud.Store.{Store, User, Subscription, Result, ok, err}
use opendss_designer_cloud.Store.Users
use opendss_designer_cloud.Store.Subscriptions
use opendss_designer_cloud.Billing.{
  StripeSubscription, CheckoutSession, Fetch, Event, Applied, Outcome, done, fail,
  apply_subscription, apply_event, apply_change, apply_checkout_session, apply_resolved, resolve,
  report_checkout, truthy, is_other_mode, is_unpaid, checkout_done, change_done, change_row,
  change_customer, checkout_user, checkout_number, checkout_guard, checkout_completed,
  subscription_changed, subscription_deleted, other,
}

-- A predicate of the store that an outcome leaves; a failure leaves the store as it was.
abbrev pub Leaves : (Store → Type 0) → {A : Type 0} → Outcome (A × Store) → Type 0
Leaves P (done (_, t)) = P t
Leaves P (fail _) = Unit {0}

module _ (P : Store → Type 0)
    (keeps : (s t : Store) (now k : ℕ) (customer : String) (sub : Option StripeSubscription)
        (plan : String)
      → apply_subscription s now k customer sub ≡ ok (plan, t)
      → P s
      → P t)
    (s : Store) (now : ℕ) (a : P s) where
  checkout_done-keeps :
      (r : Result (String × Store))
      → ((plan : String) (t : Store) → r ≡ ok (plan, t) → P t)
      → Leaves P (checkout_done r)
  unfolding checkout_done
  checkout_done-keeps (err e) h = tt
  checkout_done-keeps (ok (plan, t)) h = h plan t refl

  change_done-keeps :
      (r : Result (String × Store))
      → ((plan : String) (t : Store) → r ≡ ok (plan, t) → P t)
      → Leaves P (change_done r)
  unfolding change_done
  change_done-keeps (err e) h = tt
  change_done-keeps (ok (plan, t)) h = h plan t refl

  apply_resolved-keeps :
      (k : ℕ) (customer : String) (o : Option (Option StripeSubscription))
      → Leaves P (apply_resolved s now k customer o)
  unfolding apply_resolved
  apply_resolved-keeps k customer none = tt
  apply_resolved-keeps k customer (some sub) =
      checkout_done-keeps (apply_subscription s now k customer sub)
        (λ plan t q. keeps s t now k customer sub plan q a)

  change_row-keeps :
      (sub : StripeSubscription) (customer : String) (o : Option Subscription)
      → Leaves P (change_row s now sub customer o)
  unfolding change_row
  change_row-keeps sub customer none = a
  change_row-keeps sub customer (some row) =
      change_done-keeps (apply_subscription s now row.user_id customer (some sub))
        (λ plan t q. keeps s t now row.user_id customer (some sub) plan q a)

  change_customer-keeps :
      (sub : StripeSubscription) (o : Option String) → Leaves P (change_customer s now sub o)
  unfolding change_customer
  change_customer-keeps sub none = a
  change_customer-keeps sub (some customer) =
      change_row-keeps sub customer (Subscriptions.by_customer s customer)

  module _ (fetch : Fetch) (session : CheckoutSession) where
    checkout_user-keeps :
        (customer : String) (k : ℕ) (o : Option User)
        → Leaves P (checkout_user fetch s now session customer k o)
    unfolding checkout_user
    checkout_user-keeps customer k none = a
    checkout_user-keeps customer k (some _) =
        apply_resolved-keeps k customer (resolve fetch session.subscription)

    checkout_number-keeps :
        (customer : String) (o : Option ℕ)
        → Leaves P (checkout_number fetch s now session customer o)
    unfolding checkout_number
    checkout_number-keeps customer none = a
    checkout_number-keeps customer (some k) = checkout_user-keeps customer k (Users.get s k)

    checkout_guard-keeps :
        (o : Option (Option ℕ)) (c : Option String)
        → Leaves P (checkout_guard fetch s now session o c)
    unfolding checkout_guard
    checkout_guard-keeps none c = a
    checkout_guard-keeps (some ref) none = a
    checkout_guard-keeps (some ref) (some customer) =
        elim (Bool-cases (is_other_mode session.mode)) [
          | inl e ↦ rw (e, Leaves) a
          | inr e ↦ rw (e, Leaves) (checkout_number-keeps customer ref)
        ]

  pub apply_checkout_session-keeps :
      (fetch : Fetch) (session : CheckoutSession)
      → Leaves P (apply_checkout_session fetch s now session)
  unfolding apply_checkout_session
  apply_checkout_session-keeps fetch session =
      checkout_guard-keeps fetch session session.reference (truthy session.customer)

  report_checkout-keeps : (o : Applied) → Leaves P o → Leaves P (report_checkout o)
  unfolding report_checkout
  report_checkout-keeps (fail f) h = h
  report_checkout-keeps (done (none, t)) h = h
  report_checkout-keeps (done (some plan, t)) h = h

  pub apply_event-keeps : (fetch : Fetch) (e : Event) → Leaves P (apply_event fetch s now e)
  unfolding apply_event apply_change
  apply_event-keeps fetch (checkout_completed session) =
      elim (Bool-cases (is_unpaid session.payment_status)) [
        | inl e ↦ rw (e, Leaves) a
        | inr e ↦
            rw (e, Leaves)
              (report_checkout-keeps (apply_checkout_session fetch s now session)
                (apply_checkout_session-keeps fetch session))
      ]
  apply_event-keeps fetch (subscription_changed sub) =
      change_customer-keeps sub (truthy sub.customer)
  apply_event-keeps fetch (subscription_deleted sub) =
      change_customer-keeps (record sub { status = some "canceled" }) (truthy sub.customer)
  apply_event-keeps fetch other = a
