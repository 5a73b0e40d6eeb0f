-- ===== src/Billing/Webhook.antt =====
-- `billing_webhook` of app.py: verify, record the event's id, apply the event.
use opendss_designer_cloud.Base.{
  ℕ, ◌≡◌, refl, ap, subst, ◌∙◌, ◌⊎◌, String, Bool, true, false, not, inl, inr, Option, arith, same,
  same_refl, if◌then◌else◌, find?, is_some, Bool-cases,
}
use opendss_designer_cloud.Store.{Store, DbError, ok}
use opendss_designer_cloud.Store.Subscriptions
use opendss_designer_cloud.Store.Users
use opendss_designer_cloud.Billing.Keeps.{Leaves, apply_event-keeps}
use opendss_designer_cloud.Billing.{
  StripeSubscription, apply_subscription, Fetch, Event, Report, Outcome, done, fail, stripe_error,
  db_error, apply_event,
}

-- A delivery as the handler sees it: whether the body is within the limit and the signature and the
-- JSON are good, and the fields that it reads. `id` is empty where the event has none.
pub record Delivery : Type 0 where
  pub fits : Bool
  pub signed : Bool
  pub id : String
  pub kind : String
  pub event : Event

-- The answers 404, 413, 400, 200 for a duplicate, 503, 500 for an exception of the store, and 200.
pub data Reply : Type 0 where
  billing_off too_large bad_signature duplicate deferred : Reply
  crashed : DbError → Reply
  received : Report → Reply

unfoldable pub answer : Store → Outcome (Report × Store) → Reply × Store
answer s (done (r, t)) = (received r, t)
answer s (fail stripe_error) = (deferred, s)
answer s (fail (db_error e)) = (crashed e, s)

unfoldable pub apply_recorded : Fetch → ℕ → Delivery → Bool × Store → Reply × Store
apply_recorded fetch now d (false, s) = (duplicate, s)
apply_recorded fetch now d (true, s) = answer s (apply_event fetch s now d.event)

unfoldable pub webhook : Bool → Fetch → Store → ℕ → Delivery → Reply × Store
webhook enabled fetch s now d =
    if not enabled
    then (billing_off, s)
    else if not d.fits
    then (too_large, s)
    else if not d.signed
    then (bad_signature, s)
    else if same d.id ""
    then (duplicate, s)
    else apply_recorded fetch now d (Subscriptions.record_event s now d.id d.kind)

record Seen (k : String) (s : Store) : Type 0 where
  recorded : is_some (find? (Subscriptions.is_event k) s.stripe_events) ≡ true

apply_subscription-Seen :
    (k : String) (s t : Store) (now j : ℕ) (customer : String) (sub : Option StripeSubscription)
    (plan : String)
    → apply_subscription s now j customer sub ≡ ok (plan, t)
    → Seen k s
    → Seen k t
unfolding apply_subscription Subscriptions.upsert Users.set_plan
apply_subscription-Seen k s t now j customer sub plan h v = ground (arith, v.recorded)

answer-Seen :
    (k : String) (s : Store) (o : Outcome (Report × Store))
    → Seen k s
    → Leaves (Seen k) o
    → Seen k (answer s o).1
unfolding answer
answer-Seen k s (done (r, t)) v l = l
answer-Seen k s (fail stripe_error) v l = v
answer-Seen k s (fail (db_error e)) v l = v

record_event-Seen :
    (s : Store) (now : ℕ) (k kind : String) → Seen k (Subscriptions.record_event s now k kind).1
unfolding Subscriptions.record_event
record_event-Seen s now k kind = record { recorded = ground (arith, same_refl k) }

apply_recorded-Seen :
    (fetch : Fetch) (now : ℕ) (d : Delivery) (r : Bool × Store)
    → Seen d.id r.1
    → Seen d.id (apply_recorded fetch now d r).1
unfolding apply_recorded
apply_recorded-Seen fetch now d (false, s) v = v
apply_recorded-Seen fetch now d (true, s) v =
    answer-Seen d.id s (apply_event fetch s now d.event) v
      (apply_event-keeps (Seen d.id) (apply_subscription-Seen d.id) s now v fetch d.event)

webhook_verified :
    (fetch : Fetch) (s : Store) (now : ℕ) (d : Delivery)
    → d.fits ≡ true
    → d.signed ≡ true
    → webhook true fetch s now d ≡ (
        if same d.id ""
        then (duplicate, s)
        else apply_recorded fetch now d (Subscriptions.record_event s now d.id d.kind))
unfolding webhook
webhook_verified fetch s now d f g = rw (f, g)

Seen-duplicate :
    (fetch : Fetch) (s : Store) (now : ℕ) (d : Delivery)
    → Seen d.id s
    → apply_recorded fetch now d (Subscriptions.record_event s now d.id d.kind) ≡ (duplicate, s)
unfolding apply_recorded Subscriptions.record_event
Seen-duplicate fetch s now d v = rw v.recorded

after-Seen :
    (fetch : Fetch) (s : Store) (now : ℕ) (d : Delivery)
    → d.fits ≡ true
    → d.signed ≡ true
    → (same d.id "" ≡ true) ⊎ Seen d.id s
    → webhook true fetch s now d ≡ (duplicate, s)
after-Seen fetch s now d f g (inl e) = webhook_verified fetch s now d f g ∙ rw e
after-Seen fetch s now d f g (inr v) = elim (Bool-cases (same d.id "")) [
  | inl e ↦ webhook_verified fetch s now d f g ∙ rw e
  | inr e ↦ webhook_verified fetch s now d f g ∙ rw e (Seen-duplicate fetch s now d v)
]

pub webhook_once :
    (fetch later_fetch : Fetch) (s : Store) (now later : ℕ) (d e : Delivery)
    → d.fits ≡ true
    → d.signed ≡ true
    → e.fits ≡ true
    → e.signed ≡ true
    → e.id ≡ d.id
    → let t = (webhook true fetch s now d).1 in webhook true later_fetch t later e ≡ (duplicate, t)
webhook_once fetch later_fetch s now later d e df ds ef es i = elim (Bool-cases (same d.id "")) [
  | inl b ↦ after-Seen later_fetch _ later e ef es (inl (rw i b))
  | inr b ↦ after-Seen later_fetch _ later e ef es (
      inr (
        rw (i, webhook_verified fetch s now d df ds, b)
          (apply_recorded-Seen fetch now d (Subscriptions.record_event s now d.id d.kind)
            (record_event-Seen s now d.id d.kind))))
]

deferred_recorded :
    (fetch : Fetch) (s t : Store) (now : ℕ) (d : Delivery) (r : Bool × Store)
    → r.1.users ≡ s.users
    → r.1.subscriptions ≡ s.subscriptions
    → apply_recorded fetch now d r ≡ (deferred, t)
    → (t.users ≡ s.users) × (t.subscriptions ≡ s.subscriptions)
unfolding apply_recorded answer
deferred_recorded fetch s t now d (new, r) u v h = ground arith

record_event-users :
    (s : Store) (now : ℕ) (id kind : String)
    → (Subscriptions.record_event s now id kind).1.users ≡ s.users
unfolding Subscriptions.record_event
record_event-users s now id kind = ground arith

record_event-subscriptions :
    (s : Store) (now : ℕ) (id kind : String)
    → (Subscriptions.record_event s now id kind).1.subscriptions ≡ s.subscriptions
unfolding Subscriptions.record_event
record_event-subscriptions s now id kind = ground arith

-- Where billing is on and a delivery has a good signature and a body within the limit: where Stripe
-- could not be asked the answer 503 asks for a retry, but the event stays recorded: no
-- user and no subscription has changed, and the retry, though Stripe can now be asked, is
-- answered as a duplicate and changes nothing. The event is never applied.
pub deferred_is_lost :
    (fetch later_fetch : Fetch) (s t : Store) (now later : ℕ) (d : Delivery)
    → d.fits ≡ true
    → d.signed ≡ true
    → webhook true fetch s now d ≡ (deferred, t)
    → (t.users ≡ s.users)
      × (t.subscriptions ≡ s.subscriptions)
      × (webhook true later_fetch t later d ≡ (duplicate, t))
deferred_is_lost fetch later_fetch s t now later d f g h =
    let (u, v) = unchanged in
    (
      u,
      v,
      subst (λ x. webhook true later_fetch x later d ≡ (duplicate, x))
          (ap (λ (r : Reply × Store). r.1) h)
          (webhook_once fetch later_fetch s now later d d f g f g refl),
    )
  where
    unchanged : (t.users ≡ s.users) × (t.subscriptions ≡ s.subscriptions)
    unchanged = elim (Bool-cases (same d.id "")) [
      | inl b ↦ absurd (ground (arith, webhook_verified fetch s now d f g))
      | inr b ↦
          deferred_recorded fetch s t now d (Subscriptions.record_event s now d.id d.kind)
            (record_event-users s now d.id d.kind) (record_event-subscriptions s now d.id d.kind)
            (ground (arith, webhook_verified fetch s now d f g))
    ]
