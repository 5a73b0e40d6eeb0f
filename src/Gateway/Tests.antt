-- ===== src/Gateway/Tests.antt =====
-- The handlers at concrete inputs.
use opendss_designer_cloud.Base.{
  ℕ, ◌+◌, ◌≡◌, refl, true, false, ◌&&◌, none, some, [], ◌∷◌, same, if◌then◌else◌, arith,
}
use opendss_designer_cloud.Store.{User, empty}
use opendss_designer_cloud.Store.Users
use opendss_designer_cloud.Store.Ledger
use opendss_designer_cloud.Scheduler.{idle, release_worker}
use opendss_designer_cloud.Scheduler.Calls.{Lease}
use opendss_designer_cloud.Gateway.Plans.{
  Plan, PlansFile, PlanDict, Today, default_plans, load_plans, add_plans, assign_plan, has_plan,
  lookup, Named, load_plans-Named,
}
use opendss_designer_cloud.Gateway.Body.{read_body, concat, fits, read_body-fits}
use opendss_designer_cloud.Gateway.Window.{RateWindow, allow, drop_old}
use opendss_designer_cloud.Gateway.Callers.{
  Gateway, Caller, SessionClaims, identify, guest_caller, signout, usage,
}
use opendss_designer_cloud.Gateway.Sessions.{signout_everywhere}
use opendss_designer_cloud.Gateway.Engine.{
  Request, answered, admitted, over_budget, too_large, response, admit, job_of, is_exhausted,
  finish_call, seconds_of, admit_lem, finish_charges,
}
use opendss_designer_cloud.Gateway.SignIn
use opendss_designer_cloud.Gateway.Rates.{allowed, hits_at, rate_bounded}
use opendss_designer_cloud.Base.{◌≤◌}
use opendss_designer_cloud.Gateway.Stream.{finish_stream, cancelled, cost, finish_stream-cost}
use opendss_designer_cloud.Gateway.Checkout.{Looked, billing_success, billing_success-PlansAgree}
use opendss_designer_cloud.Billing.{absent}
use opendss_designer_cloud.Billing.Plans.{PlansAgree}
use opendss_designer_cloud.Store.Subscriptions

abbrev pub ada : User
ada = record {
  id = 7;
  email = "ada@example.com";
  name = none;
  plan = "pro";
  created = 1;
  last_seen = 2;
  session_epoch = 3;
  disabled = false;
}

abbrev pub per_hour : ℕ → RateWindow
per_hour n = record { limit = n; window = 3600000; hits = λ k. [] }

abbrev pub gateway : Gateway
gateway = record {
  plans = default_plans;
  store = record empty { users = ada ∷ [] };
  sched = idle ("w1" ∷ "w2" ∷ []) (λ p. none) 4;
  magic_ip = per_hour 2;
  magic_email = per_hour 1;
}

abbrev pub plan : Plan
plan = record {
  id = "pro";
  name = "Pro";
  priority = 1;
  limits = [];
  budget_seconds = some 1000;
  budget_period = "month";
  concurrency = 2;
  pool = "member";
  message = "";
  links = [];
}

abbrev caller : Caller
caller = record { client = "user:7"; plan = plan; user = some ada; refresh_session = false }

abbrev today : Today
today = record { month = "2026-01"; date = "2026-01-31" }

abbrev claims : SessionClaims
claims = record { user_id = 7; epoch = 3; issued_at = 0 }

stored : Users.get gateway.store 7 ≡ some ada
unfolding Users.get
stored = refl

signout_everywhere_example :
    identify (signout gateway (some caller) true true) 50 "1.2.3.4" (some claims)
    ≡ guest_caller default_plans "1.2.3.4"
signout_everywhere_example =
    signout_everywhere gateway 50 "1.2.3.4" claims ada caller refl stored (omega arith)

abbrev lease : Lease
lease = record { worker = "w1"; waited = 4; released = false }

abbrev request : Request
request = record { period = "2026-01"; used = 0; body = []; job = job_of caller }

finish_charges_example :
    let (reply, l, h) =
      finish_call gateway caller request 9 "/api/solve"
        (response 200 (some (some 120)))
        lease
        "r1" in
    (l.released ≡ true)
    × (h.sched ≡ release_worker gateway.sched "w1" (job_of caller))
    × (Ledger.used h.store "user:7" "2026-01"
        ≡ Ledger.used gateway.store "user:7" "2026-01"
          + (if same "user:7" "user:7" && same "2026-01" "2026-01"
              then seconds_of (response 200 (some (some 120)))
              else 0))
finish_charges_example =
    finish_charges gateway caller request 9 "/api/solve" (response 200 (some (some 120))) lease "r1"
      "user:7" "2026-01" refl

read_body-fits_example : read_body (some 3) ((1 ∷ 2 ∷ []) ∷ (3 ∷ []) ∷ []) ≡ (
    if fits (some 3) ((1 ∷ 2 ∷ []) ∷ (3 ∷ []) ∷ [])
    then some (concat ((1 ∷ 2 ∷ []) ∷ (3 ∷ []) ∷ []))
    else none)
read_body-fits_example = read_body-fits (some 3) ((1 ∷ 2 ∷ []) ∷ (3 ∷ []) ∷ [])

admit_lem_test : admit gateway caller today none ((1 ∷ 2 ∷ []) ∷ []) ≡ (
    if is_exhausted plan (usage gateway caller today).1
    then answered over_budget
    else if fits none ((1 ∷ 2 ∷ []) ∷ [])
    then admitted (record {
      period = (usage gateway caller today).0;
      used = (usage gateway caller today).1;
      body = concat ((1 ∷ 2 ∷ []) ∷ []);
      job = job_of caller;
    })
    else answered too_large)
admit_lem_test = admit_lem gateway caller today none ((1 ∷ 2 ∷ []) ∷ [])

-- A plans file with a comment, a value that is no object, and the three plans.
abbrev file : PlansFile
file =
    ("_comment", none)
    ∷ ("_old", some plan)
    ∷ ("guest", some plan)
    ∷ ("free", some plan)
    ∷ ("pro", some plan)
    ∷ []

abbrev loaded : PlanDict
loaded =
    ("guest", record plan { id = "guest" })
    ∷ ("free", record plan { id = "free" })
    ∷ ("pro", record plan { id = "pro" })
    ∷ []

file_loads : load_plans (some file) ≡ some loaded
unfolding load_plans add_plans assign_plan has_plan lookup same
file_loads = refl

load_plans-Named_test :
    Named loaded
    × (has_plan loaded "guest" ≡ true)
    × (has_plan loaded "free" ≡ true)
    × (has_plan loaded "pro" ≡ true)
load_plans-Named_test = load_plans-Named (some file) loaded file_loads

-- The second link of the hour to one address is refused; an hour later it is sent.
asked_twice :
    let w = (allow (per_hour 1) 10 "a").1 in
    (allow w 20 "a").0 ∷ (allow w 3600010 "a").0 ∷ (allow w 3600011 "a").0 ∷ []
    ≡ false ∷ false ∷ true ∷ []
unfolding allow drop_old same
asked_twice = refl

link_asked :
    (SignIn.magic_request gateway 5 true "ip" "n2" (some "ada@example.com") true).0
    ≡ SignIn.check_email
unfolding SignIn.magic_request SignIn.allow_both SignIn.request_allowed SignIn.send_link allow
    drop_old same Users.issue_magic
link_asked = refl

finish_stream-cost_test :
    let (l, h) =
      finish_stream gateway caller request 9 "/api/run" cancelled true none 700 lease "r2" in
    (l.released ≡ true)
    × (h.sched ≡ release_worker gateway.sched "w1" (job_of caller))
    × (Ledger.used h.store "user:7" "2026-01"
        ≡ Ledger.used gateway.store "user:7" "2026-01"
          + (if same "user:7" "user:7" && same "2026-01" "2026-01"
              then cost cancelled none 700
              else 0))
finish_stream-cost_test =
    finish_stream-cost gateway caller request 9 "/api/run" cancelled none 700 lease "r2" "user:7"
      "2026-01" refl

-- A gateway whose one user is on Free and has no subscription, and a paid session of that user.
abbrev shop : Gateway
shop = record gateway { store = record empty { users = record ada { plan = "free" } ∷ [] } }

abbrev paid : Looked
paid = record {
  session = record {
    reference = some (some 7);
    customer = some "cus_1";
    mode = none;
    payment_status = some "paid";
    subscription = absent;
  };
  client_reference = some "7";
}

shop-PlansAgree : PlansAgree shop.store
unfolding Users.get Subscriptions.get
shop-PlansAgree k u g = ground arith

billing_success-PlansAgree_test :
    PlansAgree (billing_success (λ k. some paid) (λ k. none) true shop 5 caller "cs_1").1.store
billing_success-PlansAgree_test =
    billing_success-PlansAgree (λ k. some paid) (λ k. none) true shop 5 caller "cs_1"
      shop-PlansAgree

rate_bounded_example :
    hits_at 3600000 40 (allowed (per_hour 2) "a" (10 ∷ 20 ∷ 30 ∷ 4000000 ∷ [])) ≤ 2
rate_bounded_example =
    rate_bounded (per_hour 2) "a" (10 ∷ 20 ∷ 30 ∷ 4000000 ∷ []) 40 refl
      (omega arith, (omega arith, (omega arith, (omega arith, tt))))

third_refused : allowed (per_hour 2) "a" (10 ∷ 20 ∷ 30 ∷ 4000000 ∷ []) ≡ 10 ∷ 20 ∷ 4000000 ∷ []
unfolding allowed allow drop_old same
third_refused = refl
