-- ===== src/Gateway/Guarded.antt =====
-- What every cookie of an answer is.
use opendss_designer_cloud.Base.{
  ℕ, ◌≡◌, refl, subst, ◌⊎◌, inl, inr, String, Bool, true, false, Option, none, some, List, All,
}
use opendss_designer_cloud.Config.{Config, secure_cookies}
use opendss_designer_cloud.Store.{User}
use opendss_designer_cloud.Gateway.Callers.{Gateway, Caller}
use opendss_designer_cloud.Gateway.Cookies.{
  Cookie, state_key, session_key, session_cookie, set_session, clear_session, state_cookie,
  delete_state,
}
use opendss_designer_cloud.Gateway.Checkout.{
  Reply, billing_off, sign_in_first, form_expired, to_account, no_subscription, stripe_down,
  to_stripe, welcome, almost_there, crashed,
}
use opendss_designer_cloud.Gateway.OAuth.{
  OAuthReply, no_provider, sign_in_cancelled, not_started, exchange_failed, oauth_signed_in,
  oauth_crashed,
}
use opendss_designer_cloud.Gateway.Plans.{Today}
use opendss_designer_cloud.Gateway.Providers.{Provider}
use opendss_designer_cloud.Gateway.SignIn.{
  MagicReply, not_available, bad_address, slow_down, email_failed, check_email, magic_crashed,
  VerifyReply, bad_link, link_used, signed_in, verify_crashed,
}
use opendss_designer_cloud.Gateway.Tokens.{Signer, session_token, seconds}
use opendss_designer_cloud.Gateway.Site.{
  Response, signin_response, magic_response, confirm_response, verify_response, start_response,
  callback_response, signout_response, signed_in_response,
}
use opendss_designer_cloud.Gateway.Account.{
  account_response, account_user, refresh_cookies, billing_response, privacy_response,
  terms_response,
}
use opendss_designer_cloud.Gateway.Shapes.{Shape, shape_status}
use opendss_designer_cloud.Gateway.Served.{
  Served, respond, user_of, state_of, api_me, proxied, api_me_response, proxy_status,
  proxy_response, verified_user, callback_user, signin, magic, confirm, verify, start, callback,
  signout, privacy, terms, account, billing,
}

module _ {F Token : Type 0} (s : Signer Token) (cfg : Config F) (show : Token → String)
    (now : ℕ) where
  -- Out of reach of scripts and of other sites' forms, and secure where the settings say so.
  pub record Guarded (c : Cookie Token) : Type 0 where
    pub hidden : c.http_only ≡ true
    pub lax : c.same_site ≡ "lax"
    pub guarded_secure : c.is_secure ≡ secure_cookies cfg

  -- The state of an OAuth sign-in, for ten minutes and for the paths of sign-in alone, or the session of the
  -- user, for thirty days.
  pub Kind : Option User → Option Token → Cookie Token → Type 0
  Kind user state c =
      ((c.key ≡ state_key)
        × (c.path ≡ "/auth/")
        × (c.max_age ≡ 600)
        × ((t : Token) × (state ≡ some t) × (c.value ≡ some t)))
      ⊎ ((c.key ≡ session_key)
          × (c.path ≡ "/")
          × (c.max_age ≡ 2592000)
          × ((u : User) × (user ≡ some u)
              × (c.value ≡ some (session_token s u.id u.session_epoch (seconds now)))))

  -- An empty value that is out of date at once, under the key and the path of one of the two.
  pub Deletes : Cookie Token → Type 0
  Deletes c =
      (c.value ≡ none)
      × (c.max_age ≡ 0)
      × (((c.key ≡ state_key) × (c.path ≡ "/auth/")) ⊎ ((c.key ≡ session_key) × (c.path ≡ "/")))

  pub Fit : Option User → Option Token → Cookie Token → Type 0
  Fit user state c = Deletes c ⊎ (Guarded c × Kind user state c)

  session_fits : (state : Option Token) (u : User) → Fit (some u) state (set_session s cfg u now)
  unfolding Fit set_session session_cookie Kind
  session_fits state u = inr (
    record { hidden = refl; lax = refl; guarded_secure = refl },
    inr (refl, refl, refl, (u, refl, refl)),
  )

  -- The cookies of a response, if there is one.
  Fits : Option User → Option Token → Option (Response Token) → Type 0
  Fits user state none = Unit
  Fits user state (some r) = All (Fit user state) r.cookies

  magic-Fits :
      (ps : List Provider) (address : String) (reply : MagicReply)
      → Fits none none (magic_response s cfg show ps address reply)
  unfolding Fits magic_response
  magic-Fits ps address not_available = tt
  magic-Fits ps address bad_address = tt
  magic-Fits ps address slow_down = tt
  magic-Fits ps address email_failed = tt
  magic-Fits ps address check_email = tt
  magic-Fits ps address (magic_crashed e) = tt

  verify-Fits :
      (reason : String) (reply : VerifyReply)
      → Fits (verified_user reply) none (verify_response s cfg show reason now reply)
  unfolding Fits verify_response signed_in_response
  verify-Fits reason bad_link = tt
  verify-Fits reason link_used = tt
  verify-Fits reason (signed_in u) = (session_fits none u, tt)
  verify-Fits reason verify_crashed = tt

  callback-Fits :
      (label : String) (reply : OAuthReply)
      → Fits (callback_user reply) none (callback_response s cfg show label now reply)
  unfolding Fits callback_response delete_state Fit Deletes
  callback-Fits label no_provider = tt
  callback-Fits label sign_in_cancelled = tt
  callback-Fits label not_started = tt
  callback-Fits label (exchange_failed e) = tt
  callback-Fits label (oauth_signed_in u) =
      (session_fits none u, (inl (refl, refl, inl (refl, refl)), tt))
  callback-Fits label oauth_crashed = tt

  billing-Fits :
      (reason : String) (reply : Reply) → Fits none none (billing_response s cfg show reason reply)
  unfolding Fits billing_response
  billing-Fits reason billing_off = tt
  billing-Fits reason sign_in_first = tt
  billing-Fits reason form_expired = tt
  billing-Fits reason to_account = tt
  billing-Fits reason no_subscription = tt
  billing-Fits reason stripe_down = tt
  billing-Fits reason (to_stripe url) = tt
  billing-Fits reason welcome = tt
  billing-Fits reason almost_there = tt
  billing-Fits reason (crashed e) = tt

  refresh-Fits :
      (refresh : Bool) (user : Option User)
      → All (Fit user none) (refresh_cookies s cfg show now refresh user)
  unfolding refresh_cookies
  refresh-Fits refresh none = tt
  refresh-Fits true (some u) = (session_fits none u, tt)
  refresh-Fits false (some u) = tt

  account-Fits :
      (on : Bool) (g : Gateway) (caller : Caller) (today : Today) (n : String) (user : Option User)
      (cookies : List (Cookie Token))
      → All (Fit user none) cookies
      → All (Fit user none) (account_user s cfg show on g caller today now n cookies user).cookies
  unfolding account_user
  account-Fits on g caller today n none cookies h = tt
  account-Fits on g caller today n (some u) cookies h = h

  shape-Fits :
      (caller : Caller) (shape : Shape) (status : Option ℕ)
      → Fits caller.user none (proxy_status s cfg show now caller shape status)
  unfolding Fits proxy_status
  shape-Fits caller shape none = tt
  shape-Fits caller shape (some status) = refresh-Fits caller.refresh_session caller.user

  served-Fits : (x : Served Token) → Fits (user_of x) (state_of x) (respond s cfg show now x)
  unfolding Fits respond user_of state_of Deletes api_me_response proxy_response signin_response
      confirm_response start_response state_cookie signout_response clear_session privacy_response
      terms_response account_response Fit Kind
  served-Fits (signin ps none) = tt
  served-Fits (signin ps (some u)) = tt
  served-Fits (magic ps address reply) = magic-Fits ps address reply
  served-Fits (confirm reason token none) = tt
  served-Fits (confirm reason token (some link)) = tt
  served-Fits (verify reason reply) = verify-Fits reason reply
  served-Fits (start none) = tt
  served-Fits (start (some (p, state))) = (
    inr (
      record { hidden = refl; lax = refl; guarded_secure = refl },
      inl (refl, refl, refl, (state, refl, refl)),
    ),
    tt,
  )
  served-Fits (callback label reply) = callback-Fits label reply
  served-Fits signout = (inl (refl, refl, inr (refl, refl)), tt)
  served-Fits privacy = tt
  served-Fits terms = tt
  served-Fits (account on g caller today n) =
      account-Fits on g caller today n caller.user
        (refresh_cookies s cfg show now caller.refresh_session caller.user)
        (refresh-Fits caller.refresh_session caller.user)
  served-Fits (billing reason reply) = billing-Fits reason reply
  served-Fits (api_me g caller today) = refresh-Fits caller.refresh_session caller.user
  served-Fits (proxied caller shape) = shape-Fits caller shape (shape_status shape)

  -- Every cookie that the gateway sets, in the answers to people, to `/api/me` and to what it forwards, either
  -- deletes the state or the session, or is HttpOnly, SameSite=Lax and secure where the settings say so, and
  -- is the state that the answer of `oauth_start` goes with, for ten minutes, or the session, at its present
  -- epoch and for thirty days, of the user whom the answer is for: the one who has just signed in,
  -- or the caller.
  pub respond-Fit :
      (x : Served Token) (r : Response Token)
      → respond s cfg show now x ≡ some r
      → All (Fit (user_of x) (state_of x)) r.cookies
  unfolding Fits
  respond-Fit x r h = subst (Fits (user_of x) (state_of x)) h (served-Fits x)
