-- ===== src/Billing/Tests.antt =====
-- Stripe's events at concrete inputs.
use opendss_designer_cloud.Base.{
  ◌≡◌, refl, true, false, none, some, [], ◌∷◌, same, if◌then◌else◌, arith,
}
use opendss_designer_cloud.Store.{User, Store, empty}
use opendss_designer_cloud.Store.Users
use opendss_designer_cloud.Store.Subscriptions
use opendss_designer_cloud.Billing.{
  StripeSubscription, CheckoutSession, absent, by_id, Fetch, Event, checkout_completed,
  subscription_changed, Outcome, done, apply_event, no_subscription, Report,
}
use opendss_designer_cloud.Billing
use opendss_designer_cloud.Billing.Signature.{
  Bytes, Hmac, accepted, verify_signature, sign, verify_signature-sign, expected_mac, encode,
  str_of, skew, tolerance,
}
use opendss_designer_cloud.Base.{◌≤◌, length}
use opendss_designer_cloud.Base.Int.{pos}
use opendss_designer_cloud.Base.Text.Split.{is_free}
use opendss_designer_cloud.Base.Text.{join, decimal}
use opendss_designer_cloud.Billing.Plans.{PlansAgree, apply_event-PlansAgree}
use opendss_designer_cloud.Billing.Webhook.{
  Delivery, duplicate, deferred, webhook, deferred_is_lost, apply_recorded, answer,
}

abbrev ada : User
ada = record {
  id = 7;
  email = "ada@example.com";
  name = none;
  plan = "free";
  created = 1;
  last_seen = 2;
  session_epoch = 0;
  disabled = false;
}

abbrev shop : Store
shop = record empty { users = ada ∷ [] }

-- Stripe knows one subscription.
abbrev active : StripeSubscription
active = record no_subscription {
  id = some "sub_1";
  status = some "active";
  customer = some "cus_1";
}

abbrev stripe : Fetch
stripe k = if same k "sub_1" then some active else none

abbrev stripe_down : Fetch
stripe_down k = none

abbrev paid : CheckoutSession
paid = record {
  reference = some (some 7);
  customer = some "cus_1";
  mode = some "subscription";
  payment_status = some "paid";
  subscription = by_id "sub_1";
}

abbrev bought : Delivery
bought = record {
  fits = true;
  signed = true;
  id = "evt_1";
  kind = "checkout.session.completed";
  event = checkout_completed paid;
}

-- What a run by evaluation opens.
machine : Unit {0}
unfolding same webhook apply_recorded answer Subscriptions.record_event apply_event Billing.resolve
    Billing.checkout_done Billing.apply_resolved Billing.checkout_user Billing.checkout_number
    Billing.checkout_guard Billing.apply_checkout_session Billing.report_checkout
    Billing.apply_subscription Billing.subscription_row Billing.period_end Billing.cancel_scheduled
    Billing.plan_for Billing.status_of Billing.member Users.get Users.set_plan Subscriptions.upsert
    Subscriptions.get
machine = tt

abbrev upgraded : Store
upgraded = record shop {
  users = record ada { plan = "pro" } ∷ [];
  subscriptions =
      record {
        user_id = 7;
        customer_id = "cus_1";
        subscription_id = some "sub_1";
        status = "active";
        current_period_end = none;
        cancel_at_period_end = false;
        updated = 5;
      }
      ∷ [];
}

bought_pro :
    apply_event stripe shop 5 (checkout_completed paid)
    ≡ done (Billing.checkout_applied "pro", upgraded)
unfolding machine
bought_pro = refl

shop-PlansAgree : PlansAgree shop
unfolding Users.get Subscriptions.get
shop-PlansAgree k u g = ground arith

apply_event-PlansAgree_example : PlansAgree upgraded
apply_event-PlansAgree_example =
    apply_event-PlansAgree stripe shop upgraded 5 (checkout_completed paid)
      (Billing.checkout_applied "pro") shop-PlansAgree bought_pro

abbrev unapplied : Store
unapplied = record shop {
  stripe_events = record { id = "evt_1"; kind = "checkout.session.completed"; received = 5 } ∷ [];
}

put_off : webhook true stripe_down shop 5 bought ≡ (deferred, unapplied)
unfolding machine
put_off = refl

deferred_is_lost_example :
    (unapplied.users ≡ shop.users)
    × (unapplied.subscriptions ≡ shop.subscriptions)
    × (webhook true stripe unapplied 60 bought ≡ (duplicate, unapplied))
deferred_is_lost_example =
    deferred_is_lost stripe_down stripe shop unapplied 5 60 bought refl refl put_off

-- A digest of the secret and the length of the message, in hex digits.
abbrev digest : Hmac
digest secret message = join secret (decimal (length message))

abbrev payload : Bytes
payload = 123 ∷ 125 ∷ []

signing : Unit {0}
unfolding same expected_mac encode str_of join decimal is_free skew
signing = tt

filled : same "abc" "" ≡ false
unfolding signing
filled = refl

no_comma : is_free "," (expected_mac digest "abc" payload (pos 1700000000)) ≡ true
unfolding signing
no_comma = refl

near : skew 1700000200500 (pos 1700000000) ≤ tolerance
unfolding signing
near = omega arith

verify_signature-sign_example :
    verify_signature digest payload
      (some (sign digest payload "abc" 1700000000))
      "abc"
      1700000200500
    ≡ accepted
verify_signature-sign_example =
    verify_signature-sign digest payload "abc" 1700000000 1700000200500 filled no_comma near
