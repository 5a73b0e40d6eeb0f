-- ===== src/Gateway/OAuth.antt =====
-- Sign-in by GitHub and Google: `oauth_start` and `oauth_callback` of app.py.
use opendss_designer_cloud.Base.{
  ℕ, String, Bool, false, not, ◌&&◌, Option, none, some, List, [], ◌∷◌, same, if◌then◌else◌, find?,
}
use opendss_designer_cloud.Store.{User, Result, ok, err}
use opendss_designer_cloud.Store.Users
use opendss_designer_cloud.Gateway.Callers.{Gateway}
use opendss_designer_cloud.Gateway.Tokens.{
  Signer, Payload, dict, not_dict, Value, text, number, null, get, state_max_age, seconds,
}
use opendss_designer_cloud.Gateway.Providers.{
  Answers, AuthError, Exchange, Provider, auth_error, enabled, exchange_code, identity, raised,
}

-- The dict of `Gateway.__init__`: the enabled providers by their ids.
unfoldable pub find_provider : List Provider → String → Option Provider
find_provider ps k = find? (λ p. enabled p && same p.id k) ps

-- The pages 404 and 400, the signed-in answer, and a 500.
pub data OAuthReply : Type 0 where
  no_provider sign_in_cancelled not_started : OAuthReply
  exchange_failed : AuthError → OAuthReply
  oauth_signed_in : User → OAuthReply
  oauth_crashed : OAuthReply

unfoldable pub oauth_reply : Result (Option User) → OAuthReply
oauth_reply (err e) = oauth_crashed
oauth_reply (ok none) = oauth_crashed
oauth_reply (ok (some u)) = oauth_signed_in u

unfoldable pub oauth_identity : Gateway → ℕ → Exchange → OAuthReply × Gateway
oauth_identity g now raised = (oauth_crashed, g)
oauth_identity g now (auth_error e) = (exchange_failed e, g)
oauth_identity g now (identity i) =
    let (r, t) = Users.sign_in g.store now i.provider i.subject i.email i.name in
    (oauth_reply r, record g { store = t })

-- `isinstance(payload, dict) and payload.get("p") == provider_id`
unfoldable pub is_provider : String → Option Value → Bool
is_provider k none = false
is_provider k (some (text s)) = same s k
is_provider k (some (number n)) = false
is_provider k (some null) = false

unfoldable pub state_payload : String → Option (Payload × ℕ) → Bool
state_payload k none = false
state_payload k (some (not_dict v, issued)) = false
state_payload k (some (dict d, issued)) = is_provider k (get d "p")

module _ {Token : Type 0} (s : Signer Token) where
  -- The state of `oauth_start`, which is also its cookie; `n` is random.
  unfoldable pub state_token : String → String → ℕ → Token
  state_token k n now = s.dumps (dict (("p", text k) ∷ ("n", text n) ∷ [])) "oauth-state" now

  -- The answer of `oauth_start`: the provider's page with the state in it, and the state's cookie.
  unfoldable pub oauth_start : List Provider → String → String → ℕ → Option (Provider × Token)
  oauth_start ps k n now = elim (find_provider ps k) [
    | none ↦ none
    | some p ↦ some (p, state_token k n (seconds now))
  ]

  -- The cookie is blank where the request has none.
  unfoldable pub is_started : String → Token → Token → ℕ → Bool
  is_started k state cookie now =
      not (s.is_blank state)
      && (s.compare_digest state cookie
          && state_payload k (s.loads state "oauth-state" state_max_age now))

  unfoldable pub callback :
      Gateway
      → ℕ
      → String
      → Token
      → Token
      → Bool
      → (Provider → Answers)
      → Option Provider
      → OAuthReply × Gateway
  callback g now k state cookie error answers none = (no_provider, g)
  callback g now k state cookie error answers (some p) =
      if error
      then (sign_in_cancelled, g)
      else if is_started k state cookie (seconds now)
      then oauth_identity g now (exchange_code p (answers p) (answers p).token)
      else (not_started, g)

  -- `oauth_callback`; `error` is whether the provider sent one.
  unfoldable pub oauth_callback :
      List Provider
      → Gateway
      → ℕ
      → String
      → Token
      → Token
      → Bool
      → (Provider → Answers)
      → OAuthReply × Gateway
  oauth_callback ps g now k state cookie error answers =
      callback g now k state cookie error answers (find_provider ps k)
