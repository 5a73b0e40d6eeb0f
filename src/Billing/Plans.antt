-- ===== src/Billing/Plans.antt =====
-- Every user's plan is the one that the user's subscription row stands for.
use opendss_designer_cloud.Base.{
  ℕ, ◌≡◌, refl, sym, ap, subst, String, true, inl, inr, Option, none, some, List, [], ◌∷◌, arith,
  ◌==◌, if◌then◌else◌, find?, update_where, is_some, Option-cases,
}
use opendss_designer_cloud.Store.{Store, User, Subscription, ok, has_id, Result-cases}
use opendss_designer_cloud.Store.Users
use opendss_designer_cloud.Store.Users.Valid.{find?-has_id, has_id_of_find}
use opendss_designer_cloud.Store.Subscriptions
use opendss_designer_cloud.Billing.{
  StripeSubscription, Fetch, Event, Report, done, plan_for, status_of, sub_or_empty,
  subscription_row, apply_subscription, apply_event,
}
use opendss_designer_cloud.Billing.Keeps.{Leaves, apply_event-keeps}

-- The plan that a subscription row, or its absence, stands for.
abbrev pub plan_of : Option Subscription → String
plan_of none = "free"
plan_of (some r) = plan_for r.status

abbrev pub PlansAgree : Store → Type 0
PlansAgree s =
    (k : ℕ) (u : User) → Users.get s k ≡ some u → u.plan ≡ plan_of (Subscriptions.get s k)

replaced :
    (j : ℕ) (row : Subscription) (rs : List Subscription)
    → find?
        (Subscriptions.of_user j)
        (update_where (Subscriptions.of_user row.user_id) (λ _. row) rs)
      ≡ (if j == row.user_id
          then (if is_some (find? (Subscriptions.of_user j) rs) then some row else none)
          else find? (Subscriptions.of_user j) rs)
replaced j row [] = ground arith
replaced j row (r ∷ rs) = ground (arith, replaced j row rs)

-- A successful `upsert` sets the row of its user, and no other user's; the user exists.
pub upsert_lem :
    (s t : Store) (row : Subscription)
    → Subscriptions.upsert s row ≡ ok t
    → ((j : ℕ)
        → Subscriptions.get t j ≡ (if j == row.user_id then some row else Subscriptions.get s j))
      × (t.users ≡ s.users)
      × (is_some (Users.get s row.user_id) ≡ true)
unfolding Subscriptions.upsert Subscriptions.get Users.get
upsert_lem s t row h =
    (λ j. ground (arith, replaced j row s.subscriptions), ground arith, ground arith)

pub set_plan-get :
    (s : Store) (k j : ℕ) (plan : String)
    → Users.get (Users.set_plan s k plan) j ≡ elim (Users.get s j) [
      | none ↦ none
      | some u ↦ some (if u.id == k then record u { plan = plan } else u)
    ]
unfolding Users.get Users.set_plan
set_plan-get s k j plan = ground (
  arith,
  find?-has_id (has_id k) (λ u. record u { plan = plan }) (λ u. refl) (λ u. refl) j s.users,
)

pub set_plan_subscriptions :
    (s : Store) (k j : ℕ) (plan : String)
    → Subscriptions.get (Users.set_plan s k plan) j ≡ Subscriptions.get s j
unfolding Subscriptions.get Users.set_plan
set_plan_subscriptions s k j plan = refl

pub get_id : (s : Store) (k : ℕ) (u : User) → Users.get s k ≡ some u → u.id ≡ k
unfolding Users.get
get_id s k u h = has_id_of_find k s.users u h

pub same_users : (s t : Store) (k : ℕ) → t.users ≡ s.users → Users.get t k ≡ Users.get s k
unfolding Users.get
same_users s t k e = ap (find? (has_id k)) e

applied :
    (s t : Store) (row : Subscription) (plan : String)
    → Subscriptions.upsert s row ≡ ok t
    → plan ≡ plan_for row.status
    → PlansAgree s
    → PlansAgree (Users.set_plan t row.user_id plan)
applied s t row plan h e a k u g =
    let (subs, users, exists) = upsert_lem s t row h in
    elim (Option-cases (Users.get s k)) [
      | inl no_user ↦
          absurd (ground (arith, set_plan-get t row.user_id k plan, same_users s t k users))
      | inr (v, was) ↦ ground (
        arith,
        a k v was,
        get_id s k v was,
        subs k,
        set_plan-get t row.user_id k plan,
        set_plan_subscriptions t row.user_id k plan,
        same_users s t k users,
      )
    ]

-- A successful `apply_subscription` returns the plan for the status, and keeps every user's plan in
-- agreement with the subscriptions.
pub apply_subscription-PlansAgree :
    (s t : Store) (now k : ℕ) (customer : String) (sub : Option StripeSubscription) (plan : String)
    → apply_subscription s now k customer sub ≡ ok (plan, t)
    → PlansAgree s
    → (plan ≡ plan_for (status_of (sub_or_empty sub))) × PlansAgree t
unfolding apply_subscription subscription_row
apply_subscription-PlansAgree s t now k customer sub plan h a =
    let row = subscription_row now k customer (sub_or_empty sub) in
    elim (Result-cases (Subscriptions.upsert s row)) [
      | inl (e, q) ↦ absurd (ground arith)
      | inr (r, q) ↦
          let set = plan_for (status_of (sub_or_empty sub)) in
          let e : plan ≡ set = ground arith in
          let f : t ≡ Users.set_plan r k set = ground arith in
          (e, subst PlansAgree (sym f) (applied s r row set q refl a))
    ]

-- Whatever Stripe answers, an event that is applied keeps every user's plan in agreement with the
-- user's subscription: Pro for the statuses in `pro_statuses`, Free for the others and for none.
pub apply_event-PlansAgree :
    (fetch : Fetch) (s t : Store) (now : ℕ) (e : Event) (r : Report)
    → PlansAgree s
    → apply_event fetch s now e ≡ done (r, t)
    → PlansAgree t
apply_event-PlansAgree fetch s t now e r a h = subst (Leaves PlansAgree) h (
    apply_event-keeps PlansAgree
      (λ s t now k customer sub plan q a.
        (apply_subscription-PlansAgree s t now k customer sub plan q a).1)
      s now a fetch e)
