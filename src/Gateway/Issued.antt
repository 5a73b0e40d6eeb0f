-- ===== src/Gateway/Issued.antt =====
-- What a request for a magic link that was answered with "check your email" has done, and what the link then does.
use opendss_designer_cloud.Base.{
  ℕ, ◌≡◌, refl, ap, sym, subst, ◌∙◌, String, Bool, true, false, Option, none, some, same_refl,
  arith,
}
use opendss_designer_cloud.Base.Text.{lower}
use opendss_designer_cloud.Store.{User, Store, Result, ok, err}
use opendss_designer_cloud.Store.Users
use opendss_designer_cloud.Store.Users.Accounts.{sign_in_total}
use opendss_designer_cloud.Store.Users.Magic.{
  issued_once, issue_magic-IsValid, consume_magic-IsValid,
}
use opendss_designer_cloud.Store.Users.Untouched.{sign_in-links}
use opendss_designer_cloud.Store.Users.Valid.{IsValid}
use opendss_designer_cloud.Gateway.Callers.{Gateway}
use opendss_designer_cloud.Gateway.SignIn.{
  check_email, magic_request, request_allowed, send_link, allow_both, signed_in, link_used,
  magic_verify, sign_in_email, verify_reply,
}

allow_both-store :
    (g : Gateway) (now : ℕ) (ip address : String) → (allow_both g now ip address).1.store ≡ g.store
unfolding allow_both
allow_both-store g now ip address = ground arith

-- The store after a request that was answered with "check your email".
pub record Requested (g : Gateway) (now : ℕ) (nonce : String) (o : Option String) (sent : Bool)
    (h : Gateway) : Type 0 where
  pub address : String
  pub valid : o ≡ some address
  pub mailed : sent ≡ true
  pub issued : Users.issue_magic g.store now nonce address ≡ ok h.store

send_link-issued :
    (g h : Gateway) (sent : Bool) (r : Result Store)
    → send_link g sent r ≡ (check_email, h)
    → r ≡ ok h.store
unfolding send_link
send_link-issued g h sent (ok t) e = ap (λ x. ok x) (ap (λ x. x.1.store) e)
send_link-issued g h sent (err x) e = cc (ap (λ y. y.0) e)

send_link-sent :
    (g h : Gateway) (sent : Bool) (r : Result Store)
    → send_link g sent r ≡ (check_email, h)
    → sent ≡ true
unfolding send_link
send_link-sent g h true r e = refl
send_link-sent g h false (ok t) e = cc (ap (λ y. y.0) e)
send_link-sent g h false (err x) e = cc (ap (λ y. y.0) e)

request_allowed-sent :
    (now : ℕ) (nonce address : String) (sent : Bool) (r : Bool × Gateway) (h : Gateway)
    → request_allowed now nonce address sent r ≡ (check_email, h)
    → sent ≡ true
unfolding request_allowed
request_allowed-sent now nonce address sent (true, g) h e =
    send_link-sent g h sent (Users.issue_magic g.store now nonce address) e
request_allowed-sent now nonce address sent (false, g) h e = cc (ap (λ y. y.0) e)

request_allowed-issued :
    (now : ℕ) (nonce address : String) (sent : Bool) (r : Bool × Gateway) (h : Gateway)
    → request_allowed now nonce address sent r ≡ (check_email, h)
    → Users.issue_magic r.1.store now nonce address ≡ ok h.store
unfolding request_allowed
request_allowed-issued now nonce address sent (true, g) h e =
    send_link-issued g h sent (Users.issue_magic g.store now nonce address) e
request_allowed-issued now nonce address sent (false, g) h e = cc (ap (λ y. y.0) e)

pub magic_request-issued :
    (g h : Gateway) (now : ℕ) (b sent : Bool) (ip nonce : String) (o : Option String)
    → magic_request g now b ip nonce o sent ≡ (check_email, h)
    → Requested g now nonce o sent h
unfolding magic_request
magic_request-issued g h now true sent ip nonce none e = cc (ap (λ y. y.0) e)
magic_request-issued g h now false sent ip nonce none e = cc (ap (λ y. y.0) e)
magic_request-issued g h now true sent ip nonce (some a) e = record {
  address = a;
  valid = refl;
  mailed = request_allowed-sent now nonce a sent (allow_both g now ip a) h e;
  issued =
      subst (λ t. Users.issue_magic t now nonce a ≡ ok h.store) (allow_both-store g now ip a)
        (request_allowed-issued now nonce a sent (allow_both g now ip a) h e);
}
magic_request-issued g h now false sent ip nonce (some a) e = cc (ap (λ y. y.0) e)

consumed_alike :
    (s t : Store) (now : ℕ) (nonce email : String)
    → t.magic_tokens ≡ s.magic_tokens
    → (Users.consume_magic t now nonce email).0 ≡ (Users.consume_magic s now nonce email).0
unfolding Users.consume_magic
consumed_alike s t now nonce email h = rw h refl

-- A link that is used for the first time, and one that was used.
module _ (g : Gateway) (now : ℕ) (nonce address : String) where
  first_use :
      (Users.consume_magic g.store now nonce address).0 ≡ true
      → let s = (Users.consume_magic g.store now nonce address).1 in
        let (r, t) = Users.sign_in s now "email" address address none in
        magic_verify g now (some (address, nonce)) ≡ (verify_reply r, record g { store = t })
  unfolding magic_verify sign_in_email
  first_use h = ground arith

  used_link :
      (Users.consume_magic g.store now nonce address).0 ≡ false
      → (magic_verify g now (some (address, nonce))).0 ≡ link_used
  unfolding magic_verify sign_in_email
  used_link h = ground arith

-- A link that was issued signs its address in, once.
pub record Verified (h : Gateway) (now : ℕ) (nonce address : String) : Type 0 where
  pub user : User
  pub after : Gateway
  pub replied : magic_verify h now (some (address, nonce)) ≡ (signed_in user, after)
  pub owner : Users.identity_user after.store "email" address ≡ some user
  pub once : (last : ℕ) → (magic_verify after last (some (address, nonce))).0 ≡ link_used

pub verified :
    (g h : Gateway) (made now : ℕ) (nonce address : String)
    → IsValid g.store
    → Users.issue_magic g.store made nonce address ≡ ok h.store
    → Verified h now nonce address
unfolding verify_reply
verified g h made now nonce address v e =
    let once =
      λ (last : ℕ). issued_once g.store h.store made now last nonce address address address e in
    let hit = (once now).0 ∙ same_refl (lower address) in
    let s = (Users.consume_magic h.store now nonce address).1 in
    let s_valid =
      consume_magic-IsValid h.store now nonce address
        (issue_magic-IsValid g.store h.store made nonce address v e) in
    let (u, t, run, f) = sign_in_total s now "email" address address none s_valid in
    let same_links =
      ap (λ x. x.1.magic_tokens) (sym run) ∙ sign_in-links now none s "email" address address in
    record {
      user = u;
      after = record h { store = t };
      replied = first_use h now nonce address hit ∙ rw run refl;
      owner = f.owner;
      once = λ last.
          used_link (record h { store = t }) last nonce address
            (consumed_alike s t last nonce address same_links ∙ (once last).1 hit);
    }
