-- ===== src/Gateway/Kept/Paid.antt =====
-- The handlers of app.py that Stripe's answers reach keep what holds of the whole store.
use opendss_designer_cloud.Base.{ℕ, String, Bool, true, false, not, Option, none, some, same}
use opendss_designer_cloud.Store.{User, Store}
use opendss_designer_cloud.Store.Subscriptions
use opendss_designer_cloud.Billing.{
  Fetch, Applied, Outcome, Report, done, fail, stripe_error, db_error, apply_event,
  apply_checkout_session,
}
use opendss_designer_cloud.Billing.Keeps.{Leaves, apply_event-keeps, apply_checkout_session-keeps}
use opendss_designer_cloud.Billing.Webhook.{Delivery, answer, apply_recorded, webhook}
use opendss_designer_cloud.Billing.Kept.{Kept, record_event-Kept}
use opendss_designer_cloud.Billing.Kept.Applied.{apply_subscription-Kept}
use opendss_designer_cloud.Gateway.Callers.{Gateway, Caller}
use opendss_designer_cloud.Gateway.Checkout.{
  Looked, billing_success, success_user, success_session, confirmed, is_confirmed,
}
use opendss_designer_cloud.Gateway.Kept.{either, written}

answer-Kept :
    (s : Store) (o : Outcome (Report × Store)) → Kept s → Leaves Kept o → Kept (answer s o).1
unfolding answer
answer-Kept s (done (r, t)) h l = l
answer-Kept s (fail stripe_error) h l = h
answer-Kept s (fail (db_error e)) h l = h

apply_recorded-Kept :
    (fetch : Fetch) (now : ℕ) (d : Delivery) (r : Bool × Store)
    → Kept r.1
    → Kept (apply_recorded fetch now d r).1
unfolding apply_recorded
apply_recorded-Kept fetch now d (false, s) h = h
apply_recorded-Kept fetch now d (true, s) h =
    answer-Kept s (apply_event fetch s now d.event) h
      (apply_event-keeps Kept apply_subscription-Kept s now h fetch d.event)

pub webhook-Kept :
    (enabled : Bool) (fetch : Fetch) (s : Store) (now : ℕ) (d : Delivery)
    → Kept s
    → Kept (webhook enabled fetch s now d).1
unfolding webhook
webhook-Kept enabled fetch s now d h =
    written (not enabled) (_, s) _ h
      (written (not d.fits) (_, s) _ h
        (written (not d.signed) (_, s) _ h
          (written (same d.id "") (_, s) _ h
            (apply_recorded-Kept fetch now d (Subscriptions.record_event s now d.id d.kind)
              (record_event-Kept s now d.id d.kind h)))))

confirmed-Kept :
    (g : Gateway) (o : Applied) → Kept g.store → Leaves Kept o → Kept (confirmed g o).1.store
unfolding confirmed
confirmed-Kept g (done (plan, s)) h l = l
confirmed-Kept g (fail stripe_error) h l = h
confirmed-Kept g (fail (db_error e)) h l = h

success_session-Kept :
    (fetch : Fetch) (g : Gateway) (now : ℕ) (u : User) (o : Option Looked)
    → Kept g.store
    → Kept (success_session fetch g now u o).1.store
unfolding success_session
success_session-Kept fetch g now u none h = h
success_session-Kept fetch g now u (some l) h =
    either (is_confirmed u l) (confirmed g (apply_checkout_session fetch g.store now l.session))
      (_, g)
      (confirmed-Kept g (apply_checkout_session fetch g.store now l.session) h
        (apply_checkout_session-keeps Kept apply_subscription-Kept g.store now h fetch l.session))
      h

success_user-Kept :
    (look : String → Option Looked) (fetch : Fetch) (g : Gateway) (now : ℕ) (id : String)
    (o : Option User)
    → Kept g.store
    → Kept (success_user look fetch g now id o).1.store
unfolding success_user
success_user-Kept look fetch g now id none h = h
success_user-Kept look fetch g now id (some u) h =
    either (same id "") (_, g) (success_session fetch g now u (look id)) h
      (success_session-Kept fetch g now u (look id) h)

pub billing_success-Kept :
    (look : String → Option Looked) (fetch : Fetch) (enabled : Bool) (g : Gateway) (now : ℕ)
    (caller : Caller) (id : String)
    → Kept g.store
    → Kept (billing_success look fetch enabled g now caller id).1.store
unfolding billing_success
billing_success-Kept look fetch enabled g now caller id h =
    either (not enabled) (_, g) (success_user look fetch g now id caller.user) h
      (success_user-Kept look fetch g now id caller.user h)
