-- ===== src/Gateway/Redirects.antt =====
-- Where a checkout sends the browser, and for whom it was made.
use opendss_designer_cloud.Base.{
  ℕ, ◌≡◌, ◌≢◌, refl, String, Bool, true, false, not, Option, none, some, ◌<◌, leb, same, same_iff,
  if◌then◌else◌, arith, Bool-cases, inl, inr,
}
use opendss_designer_cloud.Store.{User}
use opendss_designer_cloud.Store.Subscriptions
use opendss_designer_cloud.Billing.Client.{
  Stripe, Answer, answered, unreachable, Called, returned, refused, Post, post_request, send_post,
  of_post, page_of, checkout_form, create_checkout, enabled,
}
use opendss_designer_cloud.Gateway.Callers.{Gateway, Caller}
use opendss_designer_cloud.Gateway.Checkout.{
  Reply, billing_off, sign_in_first, form_expired, to_account, to_stripe, sent, customer_of,
  billing_checkout,
}
use opendss_designer_cloud.Gateway.Payments.{
  value_of, start_checkout, post_checkout, success_url, account_url,
}

of_post-returned :
    (a : Answer (Option String)) (b : Option String)
    → of_post a ≡ returned b
    → (status : ℕ) × (a ≡ answered status b) × (status < 400)
unfolding of_post
of_post-returned unreachable b h = cc
of_post-returned (answered status body) b h = elim (Bool-cases (leb 400 status)) [
  | inl e ↦ let bad : ⊥ = ground arith in absurd bad
  | inr e ↦ (status, ground arith, ground arith)
]

page_of-returned :
    (message : String) (c : Called (Option String)) (page : String)
    → page_of message c ≡ returned page
    → (c ≡ returned (some page)) × (page ≢ "")
unfolding page_of
page_of-returned message (refused m) page h = cc
page_of-returned message (returned none) page h = cc
page_of-returned message (returned (some url)) page h = elim (Bool-cases (same url "")) [
  | inl e ↦ (ground arith, ground arith)
  | inr e ↦
      (ground arith, λ p. let q : same url "" ≡ true = (same_iff url "").1 (ground arith) in cc)
]

sent-to_stripe :
    (c : Called String) (page : String) → sent (value_of c) ≡ to_stripe page → c ≡ returned page
unfolding sent value_of
sent-to_stripe (refused m) page h = cc
sent-to_stripe (returned url) page h = cc

-- The tests of `billing_checkout` before the call, by their results.
guards_passed :
    (on csrf pro : Bool) (user : Option User) (start : User → Reply) (page : String)
    → (if not on then billing_off else elim user [
      | none ↦ sign_in_first
      | some u ↦ if not csrf then form_expired else if pro then to_account else start u
    ])
      ≡ to_stripe page
    → (u : User) × (user ≡ some u)
      × (on ≡ true)
      × (csrf ≡ true)
      × (pro ≡ false)
      × (start u ≡ to_stripe page)
guards_passed false csrf pro user start page h = cc
guards_passed true csrf pro none start page h = cc
guards_passed true false pro (some u) start page h = cc
guards_passed true true true (some u) start page h = cc
guards_passed true true false (some u) start page h = (u, refl, refl, refl, refl, h)

create_checkout-returned :
    (http : Post) (stripe : Stripe) (user_id : ℕ) (email : String) (customer : Option String)
    (success cancel page : String)
    → create_checkout http stripe user_id email customer success cancel ≡ returned page
    → (status : ℕ) × (http (
          post_request stripe "/v1/checkout/sessions"
            (checkout_form stripe user_id email customer success cancel))
        ≡ answered status (some page))
      × (status < 400)
      × (page ≢ "")
unfolding create_checkout send_post
create_checkout-returned http stripe user_id email customer success cancel page h =
    let form = checkout_form stripe user_id email customer success cancel in
    let answer = http (post_request stripe "/v1/checkout/sessions" form) in
    let (e, n) =
      page_of-returned "The payment provider did not return a checkout page." (of_post answer) page
        h in
    let (status, a, b) = of_post-returned answer (some page) e in (status, a, b, n)

-- A checkout leads to a page of Stripe only for a signed-in user who is not on Pro, with a good form and with
-- billing switched on; the page is the URL, not empty, that Stripe returned with a status below 400 for the form of
-- that very user: it has the user's id, email and, where one is known, the user's own customer.
pub post_checkout-Redirected :
    (http : Post) (stripe : Stripe) (public_url : String) (g : Gateway) (caller : Caller)
    (csrf : Bool) (page : String)
    → post_checkout http stripe public_url g caller csrf ≡ to_stripe page
    → (u : User) × (status : ℕ) × (caller.user ≡ some u)
      × (enabled stripe ≡ true)
      × (csrf ≡ true)
      × (same caller.plan.id "pro" ≡ false)
      × (http (
            post_request stripe "/v1/checkout/sessions" (
              checkout_form stripe u.id u.email
                (customer_of (Subscriptions.get g.store u.id))
                (success_url public_url)
                (account_url public_url)))
          ≡ answered status (some page))
      × (status < 400)
      × (page ≢ "")
unfolding post_checkout billing_checkout start_checkout
post_checkout-Redirected http stripe public_url g caller csrf page h =
    let (u, user, on, good, free, start) =
      guards_passed (enabled stripe) csrf (same caller.plan.id "pro") caller.user
        (λ u. sent (
          start_checkout http stripe public_url u.id u.email
            (customer_of (Subscriptions.get g.store u.id))))
        page h in
    let customer = customer_of (Subscriptions.get g.store u.id) in
    let made =
      create_checkout http stripe u.id u.email customer (success_url public_url)
        (account_url public_url) in
    let (status, answer, below, filled) =
      create_checkout-returned http stripe u.id u.email customer (success_url public_url)
        (account_url public_url) page (sent-to_stripe made page start) in
    (u, status, user, on, good, free, answer, below, filled)
