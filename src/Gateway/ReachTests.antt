-- ===== src/Gateway/ReachTests.antt =====
-- Calls that an empty store goes through.
use opendss_designer_cloud.Base.{
  ◌≡◌, refl, true, false, none, some, List, [], ◌∷◌, same, if◌then◌else◌, arith,
}
use opendss_designer_cloud.Store.{empty}
use opendss_designer_cloud.Store.Users
use opendss_designer_cloud.Store.Subscriptions
use opendss_designer_cloud.Billing.{
  Event, Fetch, StripeSubscription, checkout_completed, by_id, no_subscription,
}
use opendss_designer_cloud.Billing.Webhook.{Delivery}
use opendss_designer_cloud.Billing.Kept.{Kept}
use opendss_designer_cloud.Scheduler.Calls.{Lease}
use opendss_designer_cloud.Gateway.Callers.{Gateway, Caller}
use opendss_designer_cloud.Gateway.Engine.{Request, response, job_of}
use opendss_designer_cloud.Gateway.Reach.{
  Call, asks_link, uses_link, signs_out, delivers, ends_call, handle, handle_all, handle_all-Kept,
}
use opendss_designer_cloud.Base.Text.{lower, strip}
use opendss_designer_cloud.Gateway.Callers.{signout}
use opendss_designer_cloud.Gateway.Window.{allow, drop_old}
use opendss_designer_cloud.Gateway.SignIn
use opendss_designer_cloud.Gateway.Engine.{finish_call}
use opendss_designer_cloud.Store.Ledger
use opendss_designer_cloud.Billing
use opendss_designer_cloud.Billing.Webhook.{webhook, apply_recorded, answer}
use opendss_designer_cloud.Gateway.Trials.{Token, signer}
use opendss_designer_cloud.Gateway.Tests.{ada, plan, gateway}

abbrev new_gateway : Gateway
new_gateway = record gateway { store = empty }

new_gateway-Kept : Kept new_gateway.store
unfolding Users.get Subscriptions.get
new_gateway-Kept = record {
  valid = record { users = tt; identities = tt; owned = tt; magic = tt };
  agree = λ k u g. ground arith;
  owned = λ k g. refl;
  balanced = record { keyed = tt; seconds = λ c. refl; calls = λ c. refl };
}

abbrev caller : Caller
caller = record {
  client = "user:1";
  plan = plan;
  user = some (record ada { id = 1 });
  refresh_session = false;
}

abbrev request : Request
request = record { period = "2026-01"; used = 0; body = []; job = job_of caller }

abbrev lease : Lease
lease = record { worker = "w1"; waited = 4; released = false }

-- Stripe knows one subscription.
abbrev stripe : Fetch
stripe k =
    if same k "sub_1"
    then some (record no_subscription { id = some "sub_1"; status = some "active" })
    else none

abbrev bought : Delivery
bought = record {
  fits = true;
  signed = true;
  id = "evt_1";
  kind = "checkout.session.completed";
  event = checkout_completed (record {
    reference = some (some 1);
    customer = some "cus_1";
    mode = none;
    payment_status = some "paid";
    subscription = by_id "sub_1";
  });
}

abbrev calls : List (Call Token)
calls =
    asks_link 5000 true "9.9.9.9" "n1" (some "ada@example.com") true
    ∷ uses_link 9000 (some ("ada@example.com", "n1"))
    ∷ delivers true stripe 9500 bought
    ∷ ends_call caller request 9900 "/api/solve" (response 200 (some (some 120))) lease "r1"
    ∷ signs_out (some caller) true true
    ∷ []

handle_all-Kept_example : Kept (handle_all signer calls new_gateway).store
handle_all-Kept_example = handle_all-Kept signer calls new_gateway new_gateway-Kept

-- The user of the link has paid and has signed out everywhere.
handled :
    Users.get (handle_all signer calls new_gateway).store 1
    ≡ some (record {
      id = 1;
      email = "ada@example.com";
      name = none;
      plan = "pro";
      created = 9000;
      last_seen = 9000;
      session_epoch = 1;
      disabled = false;
    })
unfolding handle_all handle same signout allow drop_old lower strip finish_call webhook answer
    apply_recorded SignIn.magic_request SignIn.request_allowed SignIn.allow_both SignIn.send_link
    SignIn.magic_verify SignIn.sign_in_email Subscriptions.record_event Billing.apply_event
    Billing.resolve Billing.checkout_done Billing.apply_resolved Billing.checkout_user
    Billing.checkout_number Billing.checkout_guard Billing.apply_checkout_session
    Billing.report_checkout Billing.apply_subscription Billing.subscription_row Billing.period_end
    Billing.cancel_scheduled Billing.plan_for Billing.status_of Billing.member Users.get
    Users.set_plan Users.issue_magic Users.consume_magic Users.sign_in Users.bump_epoch
    Subscriptions.upsert Subscriptions.get Ledger.record_run Users.find_or_create
    Users.identity_user Users.email_user Users.insert_user Users.insert_identity Users.next_id
handled = refl
