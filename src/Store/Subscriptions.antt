-- ===== src/Store/Subscriptions.antt =====
-- `class Subscriptions`: one row per user who has reached Checkout, and the Stripe events seen.
use opendss_designer_cloud.Base.{
  ℕ, String, Bool, true, false, not, ◌&&◌, Option, ◌∷◌, ◌==◌, same, if◌then◌else◌, find?,
  update_where, is_some,
}
use opendss_designer_cloud.Store.{
  Subscription, StripeEvent, Store, Result, ok, err, integrity_error, has_id,
}

abbrev pub of_user : ℕ → Subscription → Bool
of_user k r = r.user_id == k

abbrev pub of_customer : String → Subscription → Bool
of_customer c r = same r.customer_id c

unfoldable pub get : Store → ℕ → Option Subscription
get s k = find? (of_user k) s.subscriptions

unfoldable pub by_customer : Store → String → Option Subscription
by_customer s c = find? (of_customer c) s.subscriptions

-- A row of another user with the same customer: what the unique index refuses.
abbrev pub is_rival : Subscription → Subscription → Bool
is_rival row r = same r.customer_id row.customer_id && not (r.user_id == row.user_id)

-- `INSERT ... ON CONFLICT(user_id) DO UPDATE`. The user must exist, and a customer belongs to
-- one user.
unfoldable pub upsert : Store → Subscription → Result Store
upsert s row =
    if is_some (find? (is_rival row) s.subscriptions)
    then err integrity_error
    else if is_some (find? (has_id row.user_id) s.users)
    then ok (record s {
      subscriptions =
          if is_some (get s row.user_id)
          then update_where (of_user row.user_id) (λ _. row) s.subscriptions
          else row ∷ s.subscriptions;
    })
    else err integrity_error

abbrev pub is_event : String → StripeEvent → Bool
is_event k e = same e.id k

-- `INSERT OR IGNORE`: whether the event is new.
unfoldable pub record_event : Store → ℕ → String → String → Bool × Store
record_event s now id kind = if is_some (find? (is_event id) s.stripe_events) then (false, s) else (
  true,
  record s { stripe_events = record { id = id; kind = kind; received = now } ∷ s.stripe_events },
)
