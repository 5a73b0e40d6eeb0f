-- ===== src/Gateway/Kept/SignIn.antt =====
-- The handlers of app.py that sign in and out keep what holds of the whole store.
use opendss_designer_cloud.Base.{
  ℕ, ◌≡◌, refl, String, Bool, true, false, ◌&&◌, inl, inr, Option, none, some, Bool-cases,
  Option-cases,
}
use opendss_designer_cloud.Store.{Store, Result, ok, err}
use opendss_designer_cloud.Store.Users
use opendss_designer_cloud.Billing.Kept.{
  Kept, sign_in-Kept, bump_epoch-Kept, issue_magic-Kept, consume_magic-Kept,
}
use opendss_designer_cloud.Gateway.Callers.{Gateway, Caller, signout}
use opendss_designer_cloud.Gateway.Tokens.{Signer, seconds}
use opendss_designer_cloud.Gateway.Providers.{
  Provider, Answers, Exchange, identity, auth_error, raised, exchange_code,
}
use opendss_designer_cloud.Gateway.Window.{allow}
use opendss_designer_cloud.Gateway.OAuth.{oauth_identity, callback, is_started}
use opendss_designer_cloud.Gateway.SignIn.{
  magic_request, request_allowed, allow_both, send_link, magic_verify, sign_in_email,
}
use opendss_designer_cloud.Gateway.Kept.{either}

send_link-Kept :
    (g : Gateway) (now : ℕ) (nonce address : String) (sent : Bool) (r : Result Store)
    → Users.issue_magic g.store now nonce address ≡ r
    → Kept g.store
    → Kept (send_link g sent r).1.store
unfolding send_link
send_link-Kept g now nonce address sent (err e) q h = h
send_link-Kept g now nonce address sent (ok s) q h =
    issue_magic-Kept g.store s now nonce address q h

request_allowed-Kept :
    (now : ℕ) (nonce address : String) (sent : Bool) (r : Bool × Gateway)
    → Kept r.1.store
    → Kept (request_allowed now nonce address sent r).1.store
unfolding request_allowed
request_allowed-Kept now nonce address sent (false, g) h = h
request_allowed-Kept now nonce address sent (true, g) h =
    send_link-Kept g now nonce address sent (Users.issue_magic g.store now nonce address) refl h

allow_both-Kept :
    (g : Gateway) (now : ℕ) (ip address : String)
    → Kept g.store
    → Kept (allow_both g now ip address).1.store
unfolding allow_both
allow_both-Kept g now ip address h = either (allow g.magic_ip now ip).0 (_, _) (_, _) h h

pub magic_request-Kept :
    (g : Gateway) (now : ℕ) (on : Bool) (ip nonce : String) (o : Option String) (sent : Bool)
    → Kept g.store
    → Kept (magic_request g now on ip nonce o sent).1.store
unfolding magic_request
magic_request-Kept g now on ip nonce none sent h = h
magic_request-Kept g now on ip nonce (some address) sent h =
    either on (request_allowed now nonce address sent (allow_both g now ip address)) (_, g)
      (request_allowed-Kept now nonce address sent (allow_both g now ip address)
        (allow_both-Kept g now ip address h))
      h

sign_in_email-Kept :
    (g : Gateway) (now : ℕ) (address : String) (r : Bool × Store)
    → Kept r.1
    → Kept (sign_in_email g now address r).1.store
unfolding sign_in_email
sign_in_email-Kept g now address (false, s) h = h
sign_in_email-Kept g now address (true, s) h = sign_in-Kept s now "email" address address none h

pub magic_verify-Kept :
    (g : Gateway) (now : ℕ) (o : Option (String × String))
    → Kept g.store
    → Kept (magic_verify g now o).1.store
unfolding magic_verify
magic_verify-Kept g now none h = h
magic_verify-Kept g now (some (address, nonce)) h =
    sign_in_email-Kept g now address (Users.consume_magic g.store now nonce address)
      (consume_magic-Kept g.store now nonce address h)

oauth_identity-Kept :
    (g : Gateway) (now : ℕ) (e : Exchange) → Kept g.store → Kept (oauth_identity g now e).1.store
unfolding oauth_identity
oauth_identity-Kept g now raised h = h
oauth_identity-Kept g now (auth_error e) h = h
oauth_identity-Kept g now (identity i) h =
    sign_in-Kept g.store now i.provider i.subject i.email i.name h

pub signout-Kept :
    (g : Gateway) (o : Option Caller) (csrf everywhere : Bool)
    → Kept g.store
    → Kept (signout g o csrf everywhere).store
unfolding signout
signout-Kept g none csrf everywhere h = h
signout-Kept g (some caller) csrf everywhere h = elim (Option-cases caller.user) [
  | inl e ↦ rw e h
  | inr (u, e) ↦ rw e (elim (Bool-cases (csrf && everywhere)) [
    | inl q ↦ rw q (bump_epoch-Kept g.store u.id h)
    | inr q ↦ rw q h
  ])
]

module _ {Token : Type 0} (s : Signer Token) where
  pub callback-Kept :
      (g : Gateway) (now : ℕ) (k : String) (state cookie : Token) (error : Bool)
      (answers : Provider → Answers) (o : Option Provider)
      → Kept g.store
      → Kept (callback s g now k state cookie error answers o).1.store
  unfolding callback
  callback-Kept g now k state cookie error answers none h = h
  callback-Kept g now k state cookie error answers (some p) h =
      either error (_, g) _ h
        (either (is_started s k state cookie (seconds now))
          (oauth_identity g now (exchange_code p (answers p) (answers p).token)) (_, g)
          (oauth_identity-Kept g now (exchange_code p (answers p) (answers p).token) h) h)
