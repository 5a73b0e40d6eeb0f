-- ===== src/Billing/Kept/Applied.antt =====
-- The writes of billing.py keep what holds of the whole store.
use opendss_designer_cloud.Base.{
  ℕ, ◌≡◌, refl, sym, ◌∙◌, subst, inl, inr, String, true, Option, none, arith, Option-cases,
  Bool-cases, find?, ◌==◌, is_some,
}
use opendss_designer_cloud.Store.{Store, Subscription, ok, Result-cases, has_id}
use opendss_designer_cloud.Store.Users
use opendss_designer_cloud.Store.Users.Valid.{IsValid, update_users-IsValid, find?-has_id}
use opendss_designer_cloud.Store.Subscriptions
use opendss_designer_cloud.Store.Ledger.Totals.{Balanced}
use opendss_designer_cloud.Billing.{
  StripeSubscription, apply_subscription, subscription_row, sub_or_empty, plan_for, status_of,
}
use opendss_designer_cloud.Billing.Plans.{apply_subscription-PlansAgree, upsert_lem}
use opendss_designer_cloud.Billing.Kept.{Kept, Owned, get_grown}

-- A row of subscriptions that is written leaves the other tables alone.
upsert-others :
    (s t : Store) (row : Subscription)
    → Subscriptions.upsert s row ≡ ok t
    → (t.users ≡ s.users)
      × (t.identities ≡ s.identities)
      × (t.magic_tokens ≡ s.magic_tokens)
      × (t.runs ≡ s.runs)
      × (t.usage ≡ s.usage)
unfolding Subscriptions.upsert
upsert-others s t row h = (ground arith, ground arith, ground arith, ground arith, ground arith)

upsert-Owned :
    (s t : Store) (row : Subscription) → Subscriptions.upsert s row ≡ ok t → Owned s → Owned t
upsert-Owned s t row h o k g =
    let (subs, users, exists) = upsert_lem s t row h in
    let n : Users.get s k ≡ none = sym (get_grown s t k users) ∙ g in
    elim (Bool-cases (k == row.user_id)) [
      | inl q ↦
          let p : k ≡ row.user_id = ground arith in
          absurd (gone s row.user_id (subst (λ j. Users.get s j ≡ none) p n) exists)
      | inr q ↦ subs k ∙ rw q (o k n)
    ]
  where
    gone : (s : Store) (j : ℕ) → Users.get s j ≡ none → is_some (Users.get s j) ≡ true → ⊥
    gone s j n e = cc

set_plan-Owned : (s : Store) (k : ℕ) (plan : String) → Owned s → Owned (Users.set_plan s k plan)
unfolding Users.set_plan Users.get Subscriptions.get
set_plan-Owned s k plan o j g = elim (Option-cases (find? (has_id j) s.users)) [
  | inl n ↦ o j n
  | inr (v, n) ↦ absurd (
      ground (
        arith,
        find?-has_id (has_id k) (λ u. record u { plan = plan }) (λ x. refl) (λ x. refl) j s.users,
      ))
]

set_plan-IsValid :
    (s : Store) (k : ℕ) (plan : String) → IsValid s → IsValid (Users.set_plan s k plan)
unfolding Users.set_plan
set_plan-IsValid s k plan v =
    update_users-IsValid (has_id k) (λ u. record u { plan = plan }) (λ x. refl) (λ x. refl) s v

set_plan-Balanced :
    (s : Store) (k : ℕ) (plan : String) → Balanced s → Balanced (Users.set_plan s k plan)
unfolding Users.set_plan
set_plan-Balanced s k plan b = record { keyed = b.keyed; seconds = b.seconds; calls = b.calls }

pub apply_subscription-Kept :
    (s t : Store) (now k : ℕ) (customer : String) (sub : Option StripeSubscription) (plan : String)
    → apply_subscription s now k customer sub ≡ ok (plan, t)
    → Kept s
    → Kept t
unfolding apply_subscription
apply_subscription-Kept s t now k customer sub plan h a =
    let row = subscription_row now k customer (sub_or_empty sub) in
    let set = plan_for (status_of (sub_or_empty sub)) in
    elim (Result-cases (Subscriptions.upsert s row)) [
      | inl (e, q) ↦ let bad : ⊥ = ground arith in absurd bad
      | inr (r, q) ↦
          let (users, identities, magic, runs, usage) = upsert-others s r row q in
          let f : Users.set_plan r k set ≡ t = ground arith in
          record {
            valid = subst IsValid f (
                set_plan-IsValid r k set (record {
                  users = rw users a.valid.users;
                  identities = rw identities a.valid.identities;
                  owned = rw (users, identities) a.valid.owned;
                  magic = rw magic a.valid.magic;
                }));
            agree = (apply_subscription-PlansAgree s t now k customer sub plan h a.agree).1;
            owned = subst Owned f (set_plan-Owned r k set (upsert-Owned s r row q a.owned));
            balanced = subst Balanced f (
                set_plan-Balanced r k set (record {
                  keyed = rw usage a.balanced.keyed;
                  seconds = λ c. rw (usage, runs) (a.balanced.seconds c);
                  calls = λ c. rw (usage, runs) (a.balanced.calls c);
                }));
          }
    ]
