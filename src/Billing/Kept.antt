-- ===== src/Billing/Kept.antt =====
-- What holds of the whole store at every moment, and that the writes of store.py and ledger.py keep it.
pub mod Applied
use mathlib.Core.Option
use opendss_designer_cloud.Base.{
  ◌+◌, ℕ, ◌≡◌, ◌≢◌, refl, sym, ap, ◌∙◌, subst, inl, inr, String, Bool, true, false, Option, none,
  some, List, [], ◌∷◌, arith, Option-cases, Bool-cases, find?, ◌==◌, if◌then◌else◌, update_where,
  is_some, changed,
}
use opendss_designer_cloud.Base.Text.{lower, strip, lower_idem}
use opendss_designer_cloud.Store.{
  Store, User, Subscription, Run, ok, err, Result, Result-cases, has_id,
}
use opendss_designer_cloud.Store.Users
use opendss_designer_cloud.Store.Users.SignIn.{found_or_created}
use opendss_designer_cloud.Store.Users.Magic.{issue_magic-IsValid, consume_magic-IsValid}
use opendss_designer_cloud.Store.Users.Grown.{Grown, Aside, find_or_create-Grown}
use opendss_designer_cloud.Store.Users.Valid.{
  IsValid, update_users-IsValid, find?-has_id, has_id_of_find,
}
use opendss_designer_cloud.Store.Subscriptions
use opendss_designer_cloud.Store.Ledger
use opendss_designer_cloud.Store.Ledger.Totals.{Balanced, record_run-Balanced}
use opendss_designer_cloud.Billing.{
  StripeSubscription, apply_subscription, subscription_row, sub_or_empty, plan_for, status_of,
}
use opendss_designer_cloud.Billing.Plans.{
  PlansAgree, plan_of, apply_subscription-PlansAgree, upsert_lem,
}

-- A subscription belongs to a user.
abbrev pub Owned : Store → Type 0
Owned s = (k : ℕ) → Users.get s k ≡ none → Subscriptions.get s k ≡ none

pub record Kept (s : Store) : Type 0 where
  pub valid : IsValid s
  pub agree : PlansAgree s
  pub owned : Owned s
  pub balanced : Balanced s

-- A change of users that keeps ids, emails and plans.
module _ (p : User → Bool) (f : User → User) (keeps_id : (u : User) → (f u).id ≡ u.id)
    (keeps_email : (u : User) → (f u).email ≡ u.email)
    (keeps_plan : (u : User) → (f u).plan ≡ u.plan) where
  changed_plan : (u : User) → (changed p f u).plan ≡ u.plan
  changed_plan u = ground (arith, keeps_plan u)

  pub update_users-Kept :
      (s : Store) → Kept s → Kept (record s { users = update_where p f s.users })
  unfolding Users.get Subscriptions.get
  update_users-Kept s h = record {
    valid = update_users-IsValid p f keeps_id keeps_email s h.valid;
    agree = λ k u e. elim (Option-cases (find? (has_id k) s.users)) [
      | inl n ↦ absurd (ground (arith, find?-has_id p f keeps_id keeps_email k s.users))
      | inr (v, n) ↦
          let q : u ≡ changed p f v =
            ground (arith, find?-has_id p f keeps_id keeps_email k s.users) in
          ap (λ x. x.plan) q ∙ changed_plan v ∙ h.agree k v n
    ];
    owned = λ k e. elim (Option-cases (find? (has_id k) s.users)) [
      | inl n ↦ h.owned k n
      | inr (v, n) ↦ absurd (ground (arith, find?-has_id p f keeps_id keeps_email k s.users))
    ];
    balanced = record {
      keyed = h.balanced.keyed;
      seconds = h.balanced.seconds;
      calls = h.balanced.calls;
    };
  }

pub get_grown : (s t : Store) (k : ℕ) → t.users ≡ s.users → Users.get t k ≡ Users.get s k
unfolding Users.get
get_grown s t k e = ap (find? (has_id k)) e

get_new :
    (s t : Store) (u : User) (k : ℕ)
    → t.users ≡ u ∷ s.users
    → Users.get t k ≡ (if u.id == k then some u else Users.get s k)
unfolding Users.get
get_new s t u k e = ap (find? (has_id k)) e

sub_same :
    (s t : Store) (k : ℕ)
    → t.subscriptions ≡ s.subscriptions
    → Subscriptions.get t k ≡ Subscriptions.get s k
unfolding Subscriptions.get
sub_same s t k e = ap (find? (Subscriptions.of_user k)) e

Balanced-Aside : (s t : Store) → Aside s t → Balanced s → Balanced t
Balanced-Aside s t a b = record {
  keyed = rw a.usage b.keyed;
  seconds = λ c. rw (a.usage, a.runs) (b.seconds c);
  calls = λ c. rw (a.usage, a.runs) (b.calls c);
}

-- A user without a row has no subscription, so a new user's plan is the one of no subscription.
Grown-Kept : (s t : Store) → Kept s → IsValid t → Grown s t → Kept t
unfolding Users.get
Grown-Kept s t h v (a, inl e) = record {
  valid = v;
  agree = λ k u g. rw (sub_same s t k a.subscriptions) (h.agree k u (sym (get_grown s t k e) ∙ g));
  owned = λ k g. rw (sub_same s t k a.subscriptions) (h.owned k (sym (get_grown s t k e) ∙ g));
  balanced = Balanced-Aside s t a h.balanced;
}
Grown-Kept s t h v (a, inr (w, e, (plan, fresh))) = record {
  valid = v;
  agree = λ k u g. rw (sub_same s t k a.subscriptions) (elim (Bool-cases (w.id == k)) [
    | inl q ↦
        let p : w.id ≡ k = ground arith in
        let no_user : Users.get s k ≡ none = subst (λ j. Users.get s j ≡ none) p fresh in
        let new : w ≡ u = ground (arith, get_new s t w k e) in
        rw (h.owned k no_user) (ap (λ x. x.plan) (sym new) ∙ plan)
    | inr q ↦ h.agree k u (ground (arith, get_new s t w k e))
  ]);
  owned = λ k g. rw (sub_same s t k a.subscriptions) (elim (Bool-cases (w.id == k)) [
    | inl q ↦ let bad : ⊥ = ground (arith, get_new s t w k e) in absurd bad
    | inr q ↦ h.owned k (ground (arith, get_new s t w k e))
  ]);
  balanced = Balanced-Aside s t a h.balanced;
}

pub sign_in-Kept :
    (s : Store) (now : ℕ) (provider subject email : String) (name : Option String)
    → Kept s
    → Kept (Users.sign_in s now provider subject email name).1
unfolding Users.sign_in
sign_in-Kept s now provider subject email name h =
    let (u, r, e, f) =
      found_or_created s now provider subject (lower (strip email)) name h.valid
        (lower_idem (strip email)) in
    rw (e, Users.sign_in)
      (update_users-Kept (has_id u.id) (Users.seen now name) (λ x. refl) (λ x. refl) (λ x. refl) r
        (Grown-Kept s r h f.valid
          (find_or_create-Grown now name s r provider subject (lower (strip email)) u e)))

pub bump_epoch-Kept : (s : Store) (k : ℕ) → Kept s → Kept (Users.bump_epoch s k)
unfolding Users.bump_epoch
bump_epoch-Kept s k h =
    update_users-Kept (has_id k) (λ u. record u { session_epoch = u.session_epoch + 1 }) (λ x. refl)
      (λ x. refl) (λ x. refl) s h

-- A change of the other tables alone.
others_alike : (s t : Store) → Kept s → IsValid t → t.users ≡ s.users → Aside s t → Kept t
others_alike s t h v e a = Grown-Kept s t h v (a, inl e)

pub record_run-Kept :
    (s : Store) (period : String) (r : Run) → Kept s → Kept (Ledger.record_run s period r)
unfolding Ledger.record_run Users.get Subscriptions.get
record_run-Kept s period r h = record {
  valid = record {
    users = h.valid.users;
    identities = h.valid.identities;
    owned = h.valid.owned;
    magic = h.valid.magic;
  };
  agree = λ k u g. h.agree k u g;
  owned = λ k g. h.owned k g;
  balanced = record_run-Balanced s period r h.balanced;
}

pub issue_magic-Kept :
    (s t : Store) (now : ℕ) (nonce email : String)
    → Users.issue_magic s now nonce email ≡ ok t
    → Kept s
    → Kept t
unfolding Users.issue_magic
issue_magic-Kept s t now nonce email e h =
    others_alike s t h (issue_magic-IsValid s t now nonce email h.valid e) (ground arith)
      (record { subscriptions = ground arith; runs = ground arith; usage = ground arith })

pub consume_magic-Kept :
    (s : Store) (now : ℕ) (nonce email : String)
    → Kept s
    → Kept (Users.consume_magic s now nonce email).1
unfolding Users.consume_magic
consume_magic-Kept s now nonce email h =
    others_alike s (Users.consume_magic s now nonce email).1 h
      (consume_magic-IsValid s now nonce email h.valid) refl
      (record { subscriptions = refl; runs = refl; usage = refl })

pub record_event-Kept :
    (s : Store) (now : ℕ) (k kind : String)
    → Kept s
    → Kept (Subscriptions.record_event s now k kind).1
unfolding Subscriptions.record_event
record_event-Kept s now k kind h =
    elim (Bool-cases (is_some (find? (Subscriptions.is_event k) s.stripe_events))) [
      | inl e ↦ rw (e, Subscriptions.record_event) h
      | inr e ↦
          rw (e, Subscriptions.record_event)
            (others_alike s
              (record s {
                stripe_events = record { id = k; kind = kind; received = now } ∷ s.stripe_events;
              })
              h
              (record {
                users = h.valid.users;
                identities = h.valid.identities;
                owned = h.valid.owned;
                magic = h.valid.magic;
              })
              refl (record { subscriptions = refl; runs = refl; usage = refl }))
    ]
