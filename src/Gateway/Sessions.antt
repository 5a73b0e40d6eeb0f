-- ===== src/Gateway/Sessions.antt =====
-- How `identify` and `signout` of app.py work together.
use opendss_designer_cloud.Base.{
  ℕ, ◌+◌, ◌≡◌, ◌≤◌, refl, String, true, some, find?-update_where, arith,
}
use opendss_designer_cloud.Store.{User, Store, has_id}
use opendss_designer_cloud.Store.Users
use opendss_designer_cloud.Gateway.Plans.{PlanDict}
use opendss_designer_cloud.Gateway.Callers.{
  Gateway, Caller, SessionClaims, identify, identify_user, guest_caller, is_current, signout,
}

bumped : User → User
bumped u = record u { session_epoch = u.session_epoch + 1 }

get-bump_epoch :
    (s : Store) (k : ℕ) (u : User)
    → Users.get s k ≡ some u
    → Users.get (Users.bump_epoch s u.id) k ≡ some (bumped u)
unfolding Users.get Users.bump_epoch bumped
get-bump_epoch s k u h =
    ground (arith, find?-update_where (has_id u.id) (has_id k) bumped (λ x. refl) s.users)

outdated :
    (d : PlanDict) (now : ℕ) (ip : String) (c : SessionClaims) (u : User)
    → c.epoch ≤ u.session_epoch
    → identify_user d now ip c (some (bumped u)) ≡ guest_caller d ip
unfolding identify_user is_current bumped
outdated d now ip c u h = ground arith

signout-store :
    (g : Gateway) (caller : Caller) (u : User)
    → caller.user ≡ some u
    → signout g (some caller) true true ≡ record g { store = Users.bump_epoch g.store u.id }
unfolding signout
signout-store g caller u h = rw h

-- After a user has signed out of every browser, every session of that user that was issued until then
-- makes only a guest, from any address and at any time.
pub signout_everywhere :
    (g : Gateway) (later : ℕ) (ip : String) (c : SessionClaims) (u : User) (caller : Caller)
    → caller.user ≡ some u
    → Users.get g.store c.user_id ≡ some u
    → c.epoch ≤ u.session_epoch
    → identify (signout g (some caller) true true) later ip (some c) ≡ guest_caller g.plans ip
unfolding identify
signout_everywhere g later ip c u caller user found old =
    rw (signout-store g caller u user, get-bump_epoch g.store c.user_id u found)
      (outdated g.plans later ip c u old)
