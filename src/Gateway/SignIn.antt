-- ===== src/Gateway/SignIn.antt =====
-- The sign-in handlers of app.py: a magic link is asked for, and is used. `read_magic` and `valid_email` of
-- auth.py enter by their results, and the mailer by whether it sent.
use opendss_designer_cloud.Base.{ℕ, String, Bool, true, false, Option, none, some, if◌then◌else◌}
use opendss_designer_cloud.Store.{User, Store, Result, DbError, ok, err}
use opendss_designer_cloud.Store.Users
use opendss_designer_cloud.Gateway.Window.{allow}
use opendss_designer_cloud.Gateway.Callers.{Gateway}

-- The pages 404, 400, 429, 502 and 200, and a 500.
pub data MagicReply : Type 0 where
  not_available bad_address slow_down email_failed check_email : MagicReply
  magic_crashed : DbError → MagicReply

unfoldable pub send_link : Gateway → Bool → Result Store → MagicReply × Gateway
send_link g sent (err e) = (magic_crashed e, g)
send_link g sent (ok s) = (if sent then check_email else email_failed, record g { store = s })

-- Both windows: the second is asked only where the first allows.
unfoldable pub allow_both : Gateway → ℕ → String → String → Bool × Gateway
allow_both g now ip address =
    let (a, w) = allow g.magic_ip now ip in
    let (b, v) = allow g.magic_email now address in
    if a
    then (b, record g { magic_ip = w; magic_email = v })
    else (false, record g { magic_ip = w })

unfoldable pub request_allowed : ℕ → String → String → Bool → Bool × Gateway → MagicReply × Gateway
request_allowed now nonce address sent (false, g) = (slow_down, g)
request_allowed now nonce address sent (true, g) =
    send_link g sent (Users.issue_magic g.store now nonce address)

-- `magic_request`: the nonce is fresh and the address is `valid_email` of the form's field.
unfoldable pub magic_request :
    Gateway → ℕ → Bool → String → String → Option String → Bool → MagicReply × Gateway
magic_request g now email_signin ip nonce none sent =
    (if email_signin then bad_address else not_available, g)
magic_request g now email_signin ip nonce (some address) sent =
    if email_signin
    then request_allowed now nonce address sent (allow_both g now ip address)
    else (not_available, g)

-- The pages of a link that is not valid and of one that has been used, the signed-in answer, and a
-- 500: the store raised, or `sign_in` returned no user.
pub data VerifyReply : Type 0 where
  bad_link link_used : VerifyReply
  signed_in : User → VerifyReply
  verify_crashed : VerifyReply

unfoldable pub verify_reply : Result (Option User) → VerifyReply
verify_reply (err e) = verify_crashed
verify_reply (ok none) = verify_crashed
verify_reply (ok (some u)) = signed_in u

unfoldable pub sign_in_email : Gateway → ℕ → String → Bool × Store → VerifyReply × Gateway
sign_in_email g now address (false, s) = (link_used, record g { store = s })
sign_in_email g now address (true, s) =
    let (r, t) = Users.sign_in s now "email" address address none in
    (verify_reply r, record g { store = t })

-- `magic_verify`: the link is the address and the nonce that `read_magic` finds in a good token.
unfoldable pub magic_verify : Gateway → ℕ → Option (String × String) → VerifyReply × Gateway
magic_verify g now none = (bad_link, g)
magic_verify g now (some (address, nonce)) =
    sign_in_email g now address (Users.consume_magic g.store now nonce address)
