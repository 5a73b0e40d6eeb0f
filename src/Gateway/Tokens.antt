-- ===== src/Gateway/Tokens.antt =====
-- The signed tokens of auth.py: the session cookie, the forms' CSRF token, magic links and OAuth's state.
--
-- The serializer of itsdangerous is the parameter `Signer`, with what the code relies on in `Signs`: a token
-- opens under the salt that it was made with, for `max_age` from its time on, and under no other.
-- Its clock counts whole seconds, from which a session's time in milliseconds is taken. A token is
-- opaque. A payload's numbers are natural, as in all that the gateway signs.
use Prim.Native.Nat.{◌/◌}
use opendss_designer_cloud.Base.{
  ℕ, ◌+◌, ◌*◌, ◌≤◌, ◌<◌, ◌≡◌, ◌↔◌, String, Bool, true, false, Option, none, some, List, [], ◌∷◌,
  same, ◌==◌, if◌then◌else◌, find?,
}
use opendss_designer_cloud.Base.Int.{ℤ, pos, negsuc}
use opendss_designer_cloud.Base.Text.{decimal}
use opendss_designer_cloud.Base.Text.Numbers.{int_of}
use opendss_designer_cloud.Gateway.Callers.{SessionClaims}

-- What a token holds: a `dict`, or another JSON value.
pub data Value : Type 0 where
  number : ℕ → Value
  text : String → Value
  null : Value

abbrev pub Dict : Type 0
Dict = List (String × Value)

pub data Payload : Type 0 where
  dict : Dict → Payload
  not_dict : Value → Payload

abbrev named : String → String × Value → Bool
named k e = same e.0 k

-- `payload.get(k)`, and `k in payload` where it is not `none`.
unfoldable pub get : Dict → String → Option Value
get d k = elim (find? (named k) d) [ none ↦ none | some e ↦ some e.1 ]

pub record Signer (Token : Type 0) : Type 0 where
  pub dumps : Payload → String → ℕ → Token
  -- the payload and the time of a token, or an `AuthError`
  pub loads : Token → String → ℕ → ℕ → Option (Payload × ℕ)
  pub blank : Token
  pub is_blank : Token → Bool
  pub compare_digest : Token → Token → Bool

pub record Signs {Token : Type 0} (s : Signer Token) : Type 0 where
  pub opens :
      (p : Payload) (salt : String) (made max_age now : ℕ)
      → made ≤ now
      → now ≤ made + max_age
      → s.loads (s.dumps p salt made) salt max_age now ≡ some (p, made)
  pub expires :
      (p : Payload) (salt : String) (made max_age now : ℕ)
      → made + max_age < now
      → s.loads (s.dumps p salt made) salt max_age now ≡ none
  pub salted :
      (p : Payload) (salt other : String) (made max_age now : ℕ)
      → same salt other ≡ false
      → s.loads (s.dumps p salt made) other max_age now ≡ none
  pub filled : (p : Payload) (salt : String) (made : ℕ) → s.is_blank (s.dumps p salt made) ≡ false
  pub compares : (a b : Token) → (s.compare_digest a b ≡ true) ↔ (a ≡ b)

-- The serializer's time at a time in milliseconds.
abbrev pub seconds : ℕ → ℕ
seconds now = now / 1000

abbrev pub session_max_age : ℕ
session_max_age = 2592000

abbrev pub magic_max_age : ℕ
magic_max_age = 900

abbrev pub state_max_age : ℕ
state_max_age = 600

abbrev pub csrf_max_age : ℕ
csrf_max_age = 86400

-- `int(v)`: `none` is its exception.
unfoldable pub int_value : Value → Option ℤ
int_value (number n) = some (pos n)
int_value (text s) = int_of s
int_value null = none

-- `payload.get("e", 0)`
abbrev pub value_or_0 : Option Value → Value
value_or_0 none = number 0
value_or_0 (some v) = v

-- No session, the claims, or an exception of `int`. Claims with a negative number, which are those
-- of no user, count as no session.
pub data Session : Type 0 where
  no_session raised : Session
  session : SessionClaims → Session

unfoldable pub claims_of : ℕ → Option ℤ → Option ℤ → Session
claims_of issued (some (pos u)) (some (pos e)) =
    session (record { user_id = u; epoch = e; issued_at = issued * 1000 })
claims_of issued (some (pos u)) (some (negsuc e)) = no_session
claims_of issued (some (negsuc u)) (some e) = no_session
claims_of issued none e = raised
claims_of issued (some u) none = raised

unfoldable pub session_user : ℕ → Dict → Option Value → Session
session_user issued d none = no_session
session_user issued d (some u) = claims_of issued (int_value u) (int_value (value_or_0 (get d "e")))

unfoldable pub session_payload : Option (Payload × ℕ) → Session
session_payload none = no_session
session_payload (some (not_dict v, issued)) = no_session
session_payload (some (dict d, issued)) = session_user issued d (get d "u")

-- `isinstance(payload, dict) and payload.get("u") == user_id`
unfoldable pub is_user : ℕ → Option Value → Bool
is_user user_id none = false
is_user user_id (some (number n)) = n == user_id
is_user user_id (some (text s)) = false
is_user user_id (some null) = false

unfoldable pub csrf_payload : ℕ → Option (Payload × ℕ) → Bool
csrf_payload user_id none = false
csrf_payload user_id (some (not_dict v, issued)) = false
csrf_payload user_id (some (dict d, issued)) = is_user user_id (get d "u")

-- `str(v)`
unfoldable pub str_value : Value → String
str_value (number n) = decimal n
str_value (text s) = s
str_value null = "None"

unfoldable pub link_of : Option Value → Option Value → Option (String × String)
link_of (some e) (some n) = some (str_value e, str_value n)
link_of none n = none
link_of (some e) none = none

unfoldable pub magic_payload : Option (Payload × ℕ) → Option (String × String)
magic_payload none = none
magic_payload (some (not_dict v, issued)) = none
magic_payload (some (dict d, issued)) = link_of (get d "e") (get d "n")

module _ {Token : Type 0} (s : Signer Token) where
  -- The token of `set_session`.
  unfoldable pub session_token : ℕ → ℕ → ℕ → Token
  session_token user_id epoch now =
      s.dumps (dict (("u", number user_id) ∷ ("e", number epoch) ∷ [])) "session" now

  -- The cookie is `none` where the request has none.
  unfoldable pub read_session : Option Token → ℕ → Session
  read_session none now = no_session
  read_session (some token) now =
      if s.is_blank token
      then no_session
      else session_payload (s.loads token "session" session_max_age now)

  -- `n` is the random text of the token.
  unfoldable pub csrf_token : ℕ → String → ℕ → Token
  csrf_token user_id n now = s.dumps (dict (("u", number user_id) ∷ ("n", text n) ∷ [])) "csrf" now

  unfoldable pub check_csrf : Token → ℕ → ℕ → Bool
  check_csrf token user_id now = csrf_payload user_id (s.loads token "csrf" csrf_max_age now)

  unfoldable pub magic_token : String → String → ℕ → Token
  magic_token email nonce now =
      s.dumps (dict (("e", text email) ∷ ("n", text nonce) ∷ [])) "magic" now

  unfoldable pub read_magic : Token → ℕ → Option (String × String)
  read_magic token now = magic_payload (s.loads token "magic" magic_max_age now)
