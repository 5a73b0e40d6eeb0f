-- ===== src/Billing/Sets.antt =====
-- What `apply_subscription` writes, said of the tables that it leaves.
use opendss_designer_cloud.Base.{
  ℕ, ◌≡◌, refl, ◌∙◌, String, false, not, ◌&&◌, inl, inr, Option, none, some, [], ◌∷◌, arith, find?,
  ◌==◌, same, if◌then◌else◌, Option-cases,
}
use opendss_designer_cloud.Store.{Store, User, Subscription, Result, ok, Result-cases}
use opendss_designer_cloud.Store.Users
use opendss_designer_cloud.Store.Subscriptions
use opendss_designer_cloud.Billing.{
  StripeSubscription, apply_subscription, subscription_row, sub_or_empty, status_of, plan_for,
  text_or, member,
}
use opendss_designer_cloud.Billing.Plans.{
  upsert_lem, set_plan-get, set_plan_subscriptions, get_id, same_users,
}

-- The result of setting a user's subscription and plan from what Stripe says: the row has the customer, the
-- subscription's id and its status, the plan is Pro for an active, trialing or past due subscription and
-- Free otherwise, and no other user's plan or row changes.
pub record Sets (s : Store) (k : ℕ) (u : User) (customer : String) (sub : StripeSubscription)
    (r : Result (String × Store)) : Type 0 where
  pub plan : String
  pub after : Store
  pub applied : r ≡ ok (plan, after)
  pub pro : plan ≡ (
      if member (text_or sub.status "none") ("active" ∷ "trialing" ∷ "past_due" ∷ [])
      then "pro"
      else "free")
  pub user_set : Users.get after k ≡ some (record u { plan = plan })
  pub row : Subscription
  pub row_set : Subscriptions.get after k ≡ some row
  pub row_customer : row.customer_id ≡ customer
  pub row_id : row.subscription_id ≡ sub.id
  pub row_status : row.status ≡ text_or sub.status "none"
  pub other_users : (j : ℕ) → (j == k) ≡ false → Users.get after j ≡ Users.get s j
  pub other_rows : (j : ℕ) → (j == k) ≡ false → Subscriptions.get after j ≡ Subscriptions.get s j

upsert-ok :
    (s : Store) (row : Subscription) (u : User)
    → Users.get s row.user_id ≡ some u
    → find? (Subscriptions.is_rival row) s.subscriptions ≡ none
    → (t : Store) × (Subscriptions.upsert s row ≡ ok t)
unfolding Subscriptions.upsert Users.get
upsert-ok s row u h n = elim (Result-cases (Subscriptions.upsert s row)) [
  | inl (x, e) ↦ let bad : ⊥ = ground arith in absurd bad
  | inr (t, e) ↦ (t, e)
]

pub apply_subscription-Sets :
    (s : Store) (now k : ℕ) (u : User) (customer : String) (sub : Option StripeSubscription)
    → Users.get s k ≡ some u
    → find? (λ r. same r.customer_id customer && not (r.user_id == k)) s.subscriptions ≡ none
    → Sets s k u customer (sub_or_empty sub) (apply_subscription s now k customer sub)
unfolding apply_subscription subscription_row status_of plan_for
apply_subscription-Sets s now k u customer sub h n =
    let row = subscription_row now k customer (sub_or_empty sub) in
    let (t, e) = upsert-ok s row u h n in
    let (rows, users, exists) = upsert_lem s t row e in
    let plan = plan_for (status_of (sub_or_empty sub)) in
    record {
      plan = plan;
      after = Users.set_plan t k plan;
      applied = rw e refl;
      pro = refl;
      user_set = ground (arith, set_plan-get t k k plan, same_users s t k users, h, get_id s k u h);
      row = row;
      row_set = set_plan_subscriptions t k k plan ∙ rows k ∙ ground arith;
      row_customer = refl;
      row_id = refl;
      row_status = refl;
      other_users = λ j d. elim (Option-cases (Users.get s j)) [
        | inl e ↦ ground (arith, set_plan-get t k j plan, same_users s t j users)
        | inr (v, e) ↦
            ground (arith, set_plan-get t k j plan, same_users s t j users, get_id s j v e)
      ];
      other_rows = λ j d. set_plan_subscriptions t k j plan ∙ rows j ∙ rw d refl;
    }
