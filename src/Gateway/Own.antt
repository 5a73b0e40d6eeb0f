-- ===== src/Gateway/Own.antt =====
-- What the account page shows is the caller's own.
use opendss_designer_cloud.Base.{
  ℕ, ◌+◌, ◌≤◌, ◌≡◌, refl, sym, ap, ◌∙◌, subst, String, Bool, true, Option, none, some, List, All,
  ◌==◌, same, same_iff, select, find?-holds, All-map, All-select, All-take, length-take, length,
  arith,
}
use opendss_designer_cloud.Config.{Config}
use opendss_designer_cloud.Store.{User, Store, Subscription}
use opendss_designer_cloud.Store.Users.Owned.{identities-own}
use opendss_designer_cloud.Store.Ledger
use opendss_designer_cloud.Store.Subscriptions
use opendss_designer_cloud.Pages.Page.{Account}
use opendss_designer_cloud.Pages.Billing.{BillingBlock}
use opendss_designer_cloud.Pages.Page.{account_page}
use opendss_designer_cloud.Gateway.Callers.{Gateway, Caller}
use opendss_designer_cloud.Gateway.Cookies.{Cookie}
use opendss_designer_cloud.Gateway.Plans.{Today}
use opendss_designer_cloud.Gateway.Site.{html}
use opendss_designer_cloud.Gateway.Account.{
  account_of, account_user, account_response, refresh_cookies,
}
use opendss_designer_cloud.Gateway.Tokens.{
  Signer, Signs, csrf_token, check_csrf, csrf_max_age, seconds,
}
use opendss_designer_cloud.Gateway.Purposes.{check_csrf-csrf_token}

recent-own :
    (s : Store) (n : ℕ) (client : String)
    → All (λ r. r.client ≡ client) (Ledger.recent s n (some client))
unfolding Ledger.recent
recent-own s n client =
    All-take (λ r. r.client ≡ client) n (select (λ r. same r.client client) s.runs)
      (All-map (λ r. same r.client client ≡ true) (λ r. r.client ≡ client)
        (λ r h. (same_iff r.client client).0 h) (select (λ r. same r.client client) s.runs)
        (All-select (λ r. same r.client client) s.runs))

recent-short : (s : Store) (n : ℕ) (client : String) → length (Ledger.recent s n (some client)) ≤ n
unfolding Ledger.recent
recent-short s n client = length-take n (select (λ r. same r.client client) s.runs)

-- The subscription in the billing part, if there is one, is the user's.
unfoldable pub OwnBilling : ℕ → Option BillingBlock → Type 0
OwnBilling k none = Unit
OwnBilling k (some block) = elim block.subscription [ none ↦ Unit | some sub ↦ sub.user_id ≡ k ]

own_subscription :
    (on : Bool) (price : String) (k : ℕ) (o : Option Subscription)
    → ((sub : Subscription) → o ≡ some sub → sub.user_id ≡ k)
    → OwnBilling k (some (record { enabled = on; price_text = price; subscription = o }))
unfolding OwnBilling
own_subscription on price k none h = tt
own_subscription on price k (some sub) h = h sub refl

subscription-own :
    (s : Store) (k : ℕ) (sub : Subscription) → Subscriptions.get s k ≡ some sub → sub.user_id ≡ k
unfolding Subscriptions.get
subscription-own s k sub h =
    let e = find?-holds (Subscriptions.of_user k) s.subscriptions sub h in ground arith

-- The account page of a user: it names the user, its rows and its subscription are the user's, and its runs, of
-- which there are at most ten, are those of the caller's key.
pub record Own (client : String) (u : User) (a : Account) : Type 0 where
  pub of_user : a.user ≡ u
  pub own_identities : All (λ i. i.user_id ≡ u.id) a.identities
  pub own_runs : All (λ r. r.client ≡ client) a.recent
  pub few_runs : length a.recent ≤ 10
  pub own_billing : OwnBilling u.id a.billing

account_of-Own :
    {F : Type 0} (cfg : Config F) (on : Bool) (g : Gateway) (caller : Caller) (u : User)
    (today : Today) (csrf : String)
    → Own caller.client u (account_of cfg on g caller u today csrf)
unfolding account_of
account_of-Own cfg on g caller u today csrf = record {
  of_user = refl;
  own_identities = identities-own g.store u.id;
  own_runs = recent-own g.store 10 caller.client;
  few_runs = recent-short g.store 10 caller.client;
  own_billing =
      own_subscription on cfg.pro_price_text u.id (Subscriptions.get g.store u.id)
        (subscription-own g.store u.id);
}

account_of-csrf :
    {F : Type 0} (cfg : Config F) (on : Bool) (g : Gateway) (caller : Caller) (u : User)
    (today : Today) (csrf : String)
    → (account_of cfg on g caller u today csrf).csrf ≡ csrf
unfolding account_of
account_of-csrf cfg on g caller u today csrf = refl

module _ {F Token : Type 0} (s : Signer Token) (cfg : Config F) (show : Token → String) (on : Bool)
    (g : Gateway) (caller : Caller) (today : Today) (now : ℕ) (n : String) where
  account_user-Own :
      (cookies : List (Cookie Token)) (user : Option User) (a : Account)
      → (account_user s cfg show on g caller today now n cookies user).content
        ≡ html (account_page a)
      → (u : User) × (user ≡ some u)
        × Own caller.client u a
        × (a.csrf ≡ show (csrf_token s u.id n (seconds now)))
  unfolding account_user
  account_user-Own cookies none a h = cc
  account_user-Own cookies (some u) a h =
      let csrf = show (csrf_token s u.id n (seconds now)) in
      let e : account_of cfg on g caller u today csrf ≡ a = cc in
      (
        u,
        refl,
        subst (Own caller.client u) e (account_of-Own cfg on g caller u today csrf),
        ap (λ b. b.csrf) (sym e) ∙ account_of-csrf cfg on g caller u today csrf,
      )

-- The account page is shown only to a signed-in caller, and it shows that caller's own account: the
-- identities and the subscription are the user's, the runs are those of the caller's key and at most ten,
-- and the token in its forms is accepted for a day, from that user and from no other.
pub account_response-Own :
    {F Token : Type 0} (s : Signer Token) (cfg : Config F) (show : Token → String) (on : Bool)
    (g : Gateway) (caller : Caller) (today : Today) (now : ℕ) (n : String) (a : Account)
    (other later : ℕ)
    → Signs s
    → (account_response s cfg show on g caller today now n).content ≡ html (account_page a)
    → seconds now ≤ later
    → later ≤ seconds now + csrf_max_age
    → (u : User) × (token : Token) × (caller.user ≡ some u)
      × Own caller.client u a
      × (a.csrf ≡ show token)
      × (check_csrf s token other later ≡ (u.id == other))
unfolding account_response
account_response-Own s cfg show on g caller today now n a other later signs h from to =
    let (u, user, own, csrf) =
      account_user-Own s cfg show on g caller today now n
        (refresh_cookies s cfg show now caller.refresh_session caller.user) caller.user a h in
    (
      u,
      csrf_token s u.id n (seconds now),
      user,
      own,
      csrf,
      check_csrf-csrf_token s signs u.id other (seconds now) later n from to,
    )
