-- ===== src/Gateway/Callers.antt =====
-- `Gateway` of app.py: its state, and who is calling.
use opendss_designer_cloud.Base.{
  ℕ, ◌+◌, String, Bool, false, not, ◌&&◌, Option, none, some, ltb, ◌==◌, if◌then◌else◌,
}
use opendss_designer_cloud.Base.Text.{decimal, join}
use opendss_designer_cloud.Store.{User, Store}
use opendss_designer_cloud.Store.Users
use opendss_designer_cloud.Store.Ledger
use opendss_designer_cloud.Scheduler.{Scheduler}
use opendss_designer_cloud.Gateway.Plans.{Plan, PlanDict, Today, lookup, period_key}
use opendss_designer_cloud.Gateway.Window.{RateWindow}

-- The pieces of the gateway that the handlers change, and its plans.
pub record Gateway : Type 0 where
  pub plans : PlanDict
  pub store : Store
  pub sched : Scheduler
  pub magic_ip : RateWindow
  pub magic_email : RateWindow

pub record Caller : Type 0 where
  pub client : String
  pub plan : Plan
  pub user : Option User
  pub refresh_session : Bool

-- `SessionClaims`: what a cookie with a good signature says. `issued_at` is its time stamp.
pub record SessionClaims : Type 0 where
  pub user_id : ℕ
  pub epoch : ℕ
  pub issued_at : ℕ

-- `SESSION_REFRESH_AFTER`, in milliseconds.
abbrev pub session_refresh_after : ℕ
session_refresh_after = 86400000

unfoldable pub is_stale : ℕ → SessionClaims → Bool
is_stale now c = ltb (c.issued_at + session_refresh_after) now

-- `User.client_key`
unfoldable pub client_key : User → String
client_key u = join "user:" (decimal u.id)

-- `self.plans.get(user.plan) or self.plans["free"]`; `none` is a `KeyError`.
unfoldable pub plan_of : PlanDict → User → Option Plan
plan_of d u = elim (lookup d u.plan) [ none ↦ lookup d "free" | some p ↦ some p ]

unfoldable pub guest_caller : PlanDict → String → Option Caller
guest_caller d ip = elim (lookup d "guest") [
  | none ↦ none
  | some p ↦
      some (record { client = join "ip:" ip; plan = p; user = none; refresh_session = false })
]

unfoldable pub user_caller : PlanDict → ℕ → SessionClaims → User → Option Caller
user_caller d now c u = elim (plan_of d u) [
  | none ↦ none
  | some p ↦
      some (record {
        client = client_key u;
        plan = p;
        user = some u;
        refresh_session = is_stale now c;
      })
]

-- The tests of `identify` on the user of the session.
unfoldable pub is_current : SessionClaims → User → Bool
is_current c u = not u.disabled && u.session_epoch == c.epoch

unfoldable pub identify_user : PlanDict → ℕ → String → SessionClaims → Option User → Option Caller
identify_user d now ip c none = guest_caller d ip
identify_user d now ip c (some u) =
    if is_current c u then user_caller d now c u else guest_caller d ip

-- `identify`: the claims are those of the cookie, if `read_session` accepts it.
unfoldable pub identify : Gateway → ℕ → String → Option SessionClaims → Option Caller
identify g now ip none = guest_caller g.plans ip
identify g now ip (some c) = identify_user g.plans now ip c (Users.get g.store c.user_id)

unfoldable pub usage : Gateway → Caller → Today → String × ℕ
usage g caller today =
    let period = period_key caller.plan today in (period, Ledger.used g.store caller.client period)

-- `signout`: the session of every browser ends where that is asked for with a good token.
unfoldable pub signout : Gateway → Option Caller → Bool → Bool → Gateway
signout g none csrf everywhere = g
signout g (some caller) csrf everywhere = elim caller.user [
  | none ↦ g
  | some u ↦ if csrf && everywhere then record g { store = Users.bump_epoch g.store u.id } else g
]
