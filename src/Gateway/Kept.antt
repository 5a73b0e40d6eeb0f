-- ===== src/Gateway/Kept.antt =====
-- The handlers of app.py keep what holds of the whole store: a call and a stream that end.
pub mod SignIn
pub mod Paid
use opendss_designer_cloud.Base.{
  ℕ, ◌≡◌, refl, String, Bool, true, false, not, ◌&&◌, inl, inr, Option, none, some, List, [], ◌∷◌,
  same, if◌then◌else◌, Bool-cases, Option-cases,
}
use opendss_designer_cloud.Store.{User, Run, Store, Result, DbError, ok, err}
use opendss_designer_cloud.Store.Users
use opendss_designer_cloud.Store.Subscriptions
use opendss_designer_cloud.Scheduler.Calls.{Lease, release_lease}
use opendss_designer_cloud.Billing.{
  Fetch, Applied, Outcome, Report, done, fail, stripe_error, db_error, apply_event,
  apply_checkout_session,
}
use opendss_designer_cloud.Billing.Keeps.{Leaves, apply_event-keeps, apply_checkout_session-keeps}
use opendss_designer_cloud.Billing.Webhook.{Delivery, answer, apply_recorded, webhook}
use opendss_designer_cloud.Billing.Kept.{
  Kept, sign_in-Kept, bump_epoch-Kept, record_run-Kept, issue_magic-Kept, consume_magic-Kept,
  record_event-Kept,
}
use opendss_designer_cloud.Billing.Kept.Applied.{apply_subscription-Kept}
use opendss_designer_cloud.Gateway.Callers.{Gateway, Caller, signout}
use opendss_designer_cloud.Gateway.Tokens.{Signer, seconds}
use opendss_designer_cloud.Gateway.Providers.{
  Provider, Answers, Exchange, identity, auth_error, raised, exchange_code,
}
use opendss_designer_cloud.Gateway.Window.{allow}
use opendss_designer_cloud.Gateway.OAuth.{
  oauth_identity, oauth_callback, callback, find_provider, is_started,
}
use opendss_designer_cloud.Gateway.SignIn.{
  magic_request, request_allowed, allow_both, send_link, magic_verify, sign_in_email,
}
use opendss_designer_cloud.Gateway.Checkout.{
  Looked, billing_success, success_user, success_session, confirmed, is_confirmed,
}
use opendss_designer_cloud.Gateway.Engine.{Request, Upstream, finish_call}
use opendss_designer_cloud.Gateway.Stream.{
  StreamEnd, finish_stream, stream_store, stream_status, stream_seconds,
}

pub either :
    {A : Type 0} (b : Bool) (x y : A × Gateway)
    → Kept x.1.store
    → Kept y.1.store
    → Kept (if b then x else y).1.store
either true x y h k = h
either false x y h k = k

pub written :
    {A : Type 0} (b : Bool) (x y : A × Store) → Kept x.1 → Kept y.1 → Kept (if b then x else y).1
written true x y h k = h
written false x y h k = k

pub stream_store-Kept :
    (g : Gateway) (caller : Caller) (r : Request) (now : ℕ) (path status : String) (lease : Lease)
    (id : String) (o : Option ℕ)
    → Kept g.store
    → Kept (stream_store g caller r now path status lease id o).store
unfolding stream_store
stream_store-Kept g caller r now path status lease id none h = h
stream_store-Kept g caller r now path status lease id (some n) h =
    record_run-Kept g.store r.period _ h
