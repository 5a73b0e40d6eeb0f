-- ===== src/Gateway/Purposes.antt =====
-- What the tokens of auth.py are good for: each opens as what was put in, in time, and for no other purpose.
use opendss_designer_cloud.Base.{
  arith, ℕ, ◌+◌, ◌*◌, ◌≤◌, ◌<◌, ◌≡◌, refl, String, false, none, some, same, ◌==◌,
}
use opendss_designer_cloud.Gateway.OAuth.{state_token, state_payload, is_started}
use opendss_designer_cloud.Gateway.Tokens.{
  state_max_age, Payload, Signer, Signs, session, no_session, session_max_age, magic_max_age,
  csrf_max_age, session_payload, csrf_payload, magic_payload, session_token, read_session,
  csrf_token, check_csrf, magic_token, read_magic, session_user, claims_of, int_value, is_user,
  link_of, str_value, get,
}

-- What a token is no good for.
module _ {Token : Type 0} (s : Signer Token) where
  abbrev pub NoSession : Token → ℕ → Type 0
  NoSession t now = read_session s (some t) now ≡ no_session

  abbrev pub NoForm : Token → ℕ → Type 0
  NoForm t now = (user_id : ℕ) → check_csrf s t user_id now ≡ false

  abbrev pub NoLink : Token → ℕ → Type 0
  NoLink t now = read_magic s t now ≡ none

  abbrev pub NoState : Token → ℕ → Type 0
  NoState t now = (k : String) (cookie : Token) → is_started s k t cookie now ≡ false

module _ {Token : Type 0} (s : Signer Token) (g : Signs s) where
  -- Within its 30 days the session cookie of a user is read as that user's claims, with its time.
  pub read_session-session_token :
      (user_id epoch made now : ℕ)
      → made ≤ now
      → now ≤ made + session_max_age
      → read_session s (some (session_token s user_id epoch made)) now
        ≡ session (record { user_id = user_id; epoch = epoch; issued_at = made * 1000 })
  unfolding read_session session_token session_payload session_user claims_of int_value get same
  read_session-session_token user_id epoch made now a b =
      rw (g.filled _ "session" made, g.opens _ "session" made session_max_age now a b) refl

  -- Within its day a form's token passes for the user whom it was made for and for no other.
  pub check_csrf-csrf_token :
      (user_id other made now : ℕ) (n : String)
      → made ≤ now
      → now ≤ made + csrf_max_age
      → check_csrf s (csrf_token s user_id n made) other now ≡ user_id == other
  unfolding check_csrf csrf_token csrf_payload is_user get same
  check_csrf-csrf_token user_id other made now n a b =
      rw (g.opens _ "csrf" made csrf_max_age now a b) refl

  -- Within its quarter of an hour a magic link's token is read as its address and nonce.
  pub read_magic-magic_token :
      (email nonce : String) (made now : ℕ)
      → made ≤ now
      → now ≤ made + magic_max_age
      → read_magic s (magic_token s email nonce made) now ≡ some (email, nonce)
  unfolding read_magic magic_token magic_payload link_of str_value get same
  read_magic-magic_token email nonce made now a b =
      rw (g.opens _ "magic" made magic_max_age now a b) refl

  -- A session cookie older than its 30 days is no session.
  pub session_expires :
      (user_id epoch made now : ℕ)
      → made + session_max_age < now
      → read_session s (some (session_token s user_id epoch made)) now ≡ no_session
  unfolding read_session session_token session_payload
  session_expires user_id epoch made now a =
      rw (g.filled _ "session" made, g.expires _ "session" made session_max_age now a) refl

  -- A magic link older than its quarter of an hour is refused.
  pub magic_expires :
      (email nonce : String) (made now : ℕ)
      → made + magic_max_age < now
      → read_magic s (magic_token s email nonce made) now ≡ none
  unfolding read_magic magic_token magic_payload
  magic_expires email nonce made now a = rw (g.expires _ "magic" made magic_max_age now a) refl

  module _ (p : Payload) (salt : String) (made now : ℕ) where
    salted-NoSession : same salt "session" ≡ false → NoSession s (s.dumps p salt made) now
    unfolding read_session session_payload
    salted-NoSession n =
        rw (g.filled p salt made, g.salted p salt "session" made session_max_age now n) refl

    salted-NoForm : same salt "csrf" ≡ false → NoForm s (s.dumps p salt made) now
    unfolding check_csrf csrf_payload
    salted-NoForm n user_id = rw (g.salted p salt "csrf" made csrf_max_age now n) refl

    salted-NoLink : same salt "magic" ≡ false → NoLink s (s.dumps p salt made) now
    unfolding read_magic magic_payload
    salted-NoLink n = rw (g.salted p salt "magic" made magic_max_age now n) refl

    salted-NoState : same salt "oauth-state" ≡ false → NoState s (s.dumps p salt made) now
    unfolding is_started state_payload
    salted-NoState n k cookie =
        rw (g.filled p salt made, g.salted p salt "oauth-state" made state_max_age now n)
          (ground arith)

  -- A token for one purpose is never read for another, whatever the times: a session cookie passes for
  -- no form's token, no magic link and no state of a sign-in, and so on round.
  pub purposes_apart :
      (user_id epoch made now : ℕ) (email nonce n provider : String)
      → let cookie = session_token s user_id epoch made in
        let form = csrf_token s user_id n made in
        let link = magic_token s email nonce made in
        let state = state_token s provider n made in
        (NoForm s cookie now × NoLink s cookie now × NoState s cookie now)
        × (NoSession s form now × NoLink s form now × NoState s form now)
        × (NoSession s link now × NoForm s link now × NoState s link now)
        × NoSession s state now
        × NoForm s state now
        × NoLink s state now
  unfolding session_token magic_token csrf_token state_token same
  purposes_apart user_id epoch made now email nonce n provider = (
    (
      salted-NoForm _ "session" made now refl,
      salted-NoLink _ "session" made now refl,
      salted-NoState _ "session" made now refl,
    ),
    (
      salted-NoSession _ "csrf" made now refl,
      salted-NoLink _ "csrf" made now refl,
      salted-NoState _ "csrf" made now refl,
    ),
    (
      salted-NoSession _ "magic" made now refl,
      salted-NoForm _ "magic" made now refl,
      salted-NoState _ "magic" made now refl,
    ),
    salted-NoSession _ "oauth-state" made now refl,
    salted-NoForm _ "oauth-state" made now refl,
    salted-NoLink _ "oauth-state" made now refl,
  )
