-- ===== src/Gateway/Slides.antt =====
-- A session from its sign-in on, and the turns of the workers in `_passthrough`.
use mathlib.Core.List.{append-nil, append_assoc}
use opendss_designer_cloud.Base.{
  ℕ, zero, suc, ◌+◌, ◌*◌, ◌≤◌, ◌≡◌, ap, sym, ◌∙◌, String, true, false, Option, some, List, [], ◌∷◌,
  ◌++◌, map, length, arith,
}
use opendss_designer_cloud.Store.{User}
use opendss_designer_cloud.Store.Users
use opendss_designer_cloud.Gateway.Callers.{
  Gateway, Caller, identify, identify_user, is_current, user_caller,
}
use opendss_designer_cloud.Gateway.Plans.{PlanDict}
use opendss_designer_cloud.Gateway.Proxy.{
  identify_session, identify_request, finish, refreshed, next_worker,
}
use opendss_designer_cloud.Gateway.Purposes.{read_session-session_token}
use opendss_designer_cloud.Gateway.Tokens.{Signer, Signs, session_token, session_max_age, seconds}

module _ {Token : Type 0} (s : Signer Token) (sg : Signs s) where
  -- The cookie that a sign-in sets makes its requests those of the user, for 30 days, as long as the
  -- user is not disabled and has not signed out everywhere.
  pub signed_in_identified :
      (g : Gateway) (u : User) (made now : ℕ) (ip : String)
      → Users.get g.store u.id ≡ some u
      → u.disabled ≡ false
      → seconds made ≤ seconds now
      → seconds now ≤ seconds made + session_max_age
      → identify_request s g now ip (some (session_token s u.id u.session_epoch (seconds made)))
        ≡ user_caller g.plans now
            (record { user_id = u.id; epoch = u.session_epoch; issued_at = seconds made * 1000 })
            u
  unfolding identify_request identify_session identify identify_user is_current
  signed_in_identified g u made now ip stored active a b =
      rw
        (
          read_session-session_token s sg u.id u.session_epoch (seconds made) (seconds now) a b,
          stored,
        )
        (current g.plans)
    where
      current :
          (d : PlanDict)
          → identify_user d now ip
              (record { user_id = u.id; epoch = u.session_epoch; issued_at = seconds made * 1000 })
              (some u)
            ≡ user_caller d now
                (record {
                  user_id = u.id;
                  epoch = u.session_epoch;
                  issued_at = seconds made * 1000;
                })
                u
      current d = ground arith

  -- A cookie that `finish` sets is, for 30 days from then on, the same user's with the same epoch: the
  -- user stays signed in for as long as a request comes within 30 days of the last refresh.
  pub finish_slides :
      (g : Gateway) (u : User) (caller : Caller) (now later : ℕ) (ip : String)
      → caller.user ≡ some u
      → caller.refresh_session ≡ true
      → Users.get g.store u.id ≡ some u
      → u.disabled ≡ false
      → seconds now ≤ seconds later
      → seconds later ≤ seconds now + session_max_age
      → identify_request s g later ip (finish s caller now)
        ≡ user_caller g.plans later
            (record { user_id = u.id; epoch = u.session_epoch; issued_at = seconds now * 1000 })
            u
  unfolding finish refreshed
  finish_slides g u caller now later ip user stale stored active a b =
      rw (user, stale) (signed_in_identified g u now later ip stored active a b)

-- So many calls of `next_worker`: what they return, and the order after them.
unfoldable pub turns : ℕ → List String → List (Option String) × List String
turns zero rr = ([], rr)
turns (suc n) rr = let (w, rr') = next_worker rr in let (ws, rr'') = turns n rr' in (w ∷ ws, rr'')

turns_from : (ws rr : List String) → turns (length ws) (ws ++ rr) ≡ (map (λ w. some w) ws, rr ++ ws)
unfolding turns next_worker
turns_from [] rr = ap (λ l. ([], l)) (sym (append-nil rr))
turns_from (w ∷ ws) rr =
    let rest =
      ap (turns (length ws)) (append_assoc ws rr (w ∷ []))
      ∙ turns_from ws (rr ++ w ∷ [])
      ∙ ap (λ l. (map (λ v. some v) ws, l)) (append_assoc rr (w ∷ []) ws) in
    ap (λ r. (some w ∷ r.0, r.1)) rest

-- As many passed calls as there are workers go to each worker once, in the order of the workers, and
-- leave the turns as they were.
pub round_robin :
    (workers : List String) → turns (length workers) workers ≡ (map (λ w. some w) workers, workers)
round_robin workers = ap (turns (length workers)) (sym (append-nil workers)) ∙ turns_from workers []
