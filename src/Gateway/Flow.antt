-- ===== src/Gateway/Flow.antt =====
-- What the OAuth handlers promise: when a callback goes on to the exchange, and when it signs nobody in.
use opendss_designer_cloud.Base.{
  ℕ, ◌+◌, ◌≤◌, ◌<◌, ◌≡◌, ◌≢◌, ◌⊎◌, refl, sym, subst, String, Bool, true, false, Option, none, some,
  List, [], ◌∷◌, same, same_refl, same_ne, dec_lt, arith, Bool-cases, inl, inr,
}
use opendss_designer_cloud.Gateway.Callers.{Gateway}
use opendss_designer_cloud.Gateway.Tokens.{Signer, Signs, dict, text, get, state_max_age, seconds}
use opendss_designer_cloud.Gateway.OAuth.{
  oauth_identity, is_provider, state_payload, state_token, is_started, callback, oauth_callback,
  find_provider, OAuthReply, no_provider, sign_in_cancelled, not_started,
}
use opendss_designer_cloud.Gateway.Providers.{Provider, Answers, exchange_code}

-- The answer of a callback for which there is no flow of this browser.
abbrev pub refusal : Bool → Option Provider → OAuthReply
refusal error none = no_provider
refusal true (some p) = sign_in_cancelled
refusal false (some p) = not_started

-- A flow that this browser started for the provider, within ten minutes.
module _ {Token : Type 0} (s : Signer Token) (g : Signs s) where
  is_started-state_token :
      (k other n : String) (made now : ℕ)
      → made ≤ now
      → now ≤ made + state_max_age
      → is_started s other (state_token s k n made) (state_token s k n made) now ≡ same k other
  unfolding is_started state_token state_payload is_provider get same
  is_started-state_token k other n made now a b =
      let token = s.dumps (dict (("p", text k) ∷ ("n", text n) ∷ [])) "oauth-state" made in
      rw
        (
          g.filled (dict (("p", text k) ∷ ("n", text n) ∷ [])) "oauth-state" made,
          (g.compares token token).1 refl,
          g.opens (dict (("p", text k) ∷ ("n", text n) ∷ [])) "oauth-state" made state_max_age now a
              b,
        )
        refl

  -- Within ten minutes, a callback that brings the state of `oauth_start` for an enabled provider, in
  -- its address and in its cookie, and no error, goes on to the exchange of the code.
  pub oauth_started :
      (ps : List Provider) (h : Gateway) (k n : String) (p : Provider) (made now : ℕ)
      (answers : Provider → Answers)
      → find_provider ps k ≡ some p
      → seconds made ≤ seconds now
      → seconds now ≤ seconds made + state_max_age
      → let state = state_token s k n (seconds made) in
        oauth_callback s ps h now k state state false answers
        ≡ oauth_identity h now (exchange_code p (answers p) (answers p).token)
  unfolding oauth_callback callback
  oauth_started ps h k n p made now answers f a b =
      rw (f, is_started-state_token k k n (seconds made) (seconds now) a b, same_refl k) refl

  not_started_keeps :
      (h : Gateway) (now : ℕ) (k : String) (state cookie : Token) (error : Bool)
      (answers : Provider → Answers) (o : Option Provider)
      → is_started s k state cookie (seconds now) ≡ false
      → callback s h now k state cookie error answers o ≡ (refusal error o, h)
  unfolding callback
  not_started_keeps h now k state cookie error answers none e = refl
  not_started_keeps h now k state cookie true answers (some p) e = refl
  not_started_keeps h now k state cookie false answers (some p) e = rw e refl

  state_refused :
      (k other n : String) (made now : ℕ)
      → made ≤ now
      → (k ≢ other) ⊎ (made + state_max_age < now)
      → state_payload other (s.loads (state_token s k n made) "oauth-state" state_max_age now)
        ≡ false
  unfolding state_token state_payload is_provider get same
  state_refused k other n made now a (inr late) =
      rw
        (g.expires (dict (("p", text k) ∷ ("n", text n) ∷ [])) "oauth-state" made state_max_age now
          late)
        refl
  state_refused k other n made now a (inl d) = elim (dec_lt (made + state_max_age) now) [
    | yes late ↦
        rw
          (g.expires (dict (("p", text k) ∷ ("n", text n) ∷ [])) "oauth-state" made state_max_age
            now late)
          refl
    | no b ↦
        rw
          (g.opens (dict (("p", text k) ∷ ("n", text n) ∷ [])) "oauth-state" made state_max_age now
            a (omega arith))
          (same_ne k other d)
  ]

  -- A callback whose state is not the one in the browser's cookie, whatever else it brings, is answered
  -- with the page for no provider, a cancelled sign-in or no flow, and leaves the gateway as it was.
  pub oauth_foreign_state :
      (ps : List Provider) (h : Gateway) (k : String) (state cookie : Token) (now : ℕ)
      (error : Bool) (answers : Provider → Answers)
      → state ≢ cookie
      → oauth_callback s ps h now k state cookie error answers
        ≡ (refusal error (find_provider ps k), h)
  unfolding oauth_callback is_started
  oauth_foreign_state ps h k state cookie now error answers d =
      elim (Bool-cases (s.compare_digest state cookie)) [
        | inl e ↦ absurd (d ((g.compares state cookie).0 e))
        | inr e ↦
            not_started_keeps h now k state cookie error answers (find_provider ps k) (ground arith)
      ]

  -- A state that was made for another provider, or that is older than ten minutes, is answered with one
  -- of the same pages and leaves the gateway as it was.
  pub oauth_wrong_state :
      (ps : List Provider) (h : Gateway) (k other n : String) (cookie : Token) (made now : ℕ)
      (error : Bool) (answers : Provider → Answers)
      → seconds made ≤ seconds now
      → (k ≢ other) ⊎ (seconds made + state_max_age < seconds now)
      → oauth_callback s ps h now other (state_token s k n (seconds made)) cookie error answers
        ≡ (refusal error (find_provider ps other), h)
  unfolding oauth_callback is_started
  oauth_wrong_state ps h k other n cookie made now error answers a d =
      not_started_keeps h now other (state_token s k n (seconds made)) cookie error answers
        (find_provider ps other)
        (ground (arith, state_refused k other n (seconds made) (seconds now) a d))

  -- A callback whose state is not the one in the browser's cookie, or was made for another provider, or is older
  -- than ten minutes, whatever else it brings, signs nobody in: it is answered with the page for an unknown
  -- provider, for a cancelled sign-in where it brings an error, and otherwise for a flow that did not start in
  -- this browser, and it leaves the gateway as it was.
  pub oauth_bad_state :
      (ps : List Provider) (h : Gateway) (provider : String) (state cookie : Token) (now : ℕ)
      (error : Bool) (answers : Provider → Answers) (k n : String) (made : ℕ)
      → seconds made ≤ seconds now
      → (state ≢ cookie)
        ⊎ ((state ≡ state_token s k n (seconds made))
            × ((k ≢ provider) ⊎ (seconds made + state_max_age < seconds now)))
      → oauth_callback s ps h now provider state cookie error answers
        ≡ (refusal error (find_provider ps provider), h)
  oauth_bad_state ps h provider state cookie now error answers k n made a d = elim d [
    | inl f ↦ oauth_foreign_state ps h provider state cookie now error answers f
    | inr (e, w) ↦
        subst
          (λ t.
            oauth_callback s ps h now provider t cookie error answers
            ≡ (refusal error (find_provider ps provider), h))
          (sym e) (oauth_wrong_state ps h k provider n cookie made now error answers a w)
  ]
