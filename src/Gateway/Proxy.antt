-- ===== src/Gateway/Proxy.antt =====
-- The rest of app.py's request path: the caller of a request's cookie, the session that slides, `/api/me`,
-- `/gw/health`, the choice of the forwarding shape, and `_passthrough`.
use opendss_designer_cloud.Base.{
  ℕ, String, Bool, not, ◌&&◌, Option, none, some, List, [], ◌∷◌, ◌++◌, same, if◌then◌else◌, length,
  is_some,
}
use opendss_designer_cloud.Billing.{member}
use opendss_designer_cloud.Config.{Config}
use opendss_designer_cloud.Scheduler.{Scheduler, depth, inflight}
use opendss_designer_cloud.Store.{User}
use opendss_designer_cloud.Gateway.Body.{Bytes, read_body}
use opendss_designer_cloud.Gateway.Callers.{Gateway, Caller, identify, usage}
use opendss_designer_cloud.Gateway.Headers.{Headers, Items, upstream_headers, downstream_headers}
use opendss_designer_cloud.Gateway.Messages.{Fixed, period_phrase}
use opendss_designer_cloud.Gateway.Providers.{Provider}
use opendss_designer_cloud.Gateway.Plans.{Today}
use opendss_designer_cloud.Gateway.Tokens.{
  Signer, Session, session, no_session, raised, read_session, session_token, seconds,
}

-- `identify` on what `read_session` finds; `none` is an exception.
unfoldable pub identify_session : Gateway → ℕ → String → Session → Option Caller
identify_session g now ip no_session = identify g now ip none
identify_session g now ip (session c) = identify g now ip (some c)
identify_session g now ip raised = none

module _ {Token : Type 0} (s : Signer Token) where
  unfoldable pub identify_request : Gateway → ℕ → String → Option Token → Option Caller
  identify_request g now ip cookie = identify_session g now ip (read_session s cookie (seconds now))

  unfoldable pub refreshed : ℕ → Option User → Bool → Option Token
  refreshed now none refresh = none
  refreshed now (some u) refresh =
      if refresh then some (session_token s u.id u.session_epoch (seconds now)) else none

  -- `finish`: the cookie that the answer sets, if it sets one.
  unfoldable pub finish : Caller → ℕ → Option Token
  finish caller now = refreshed now caller.user caller.refresh_session

-- The answer of `/api/me`.
pub record Me : Type 0 where
  pub signed_in : Bool
  pub plan_id : String
  pub plan_name : String
  pub engine_seconds : ℕ
  pub budget_seconds : Option ℕ
  pub period : String
  pub resets : String
  pub email : Option String
  pub name : Option String

abbrev email_of : Option User → Option String
email_of none = none
email_of (some u) = some u.email

abbrev name_of : Option User → Option String
name_of none = none
name_of (some u) = u.name

unfoldable pub me : Gateway → Caller → Today → Me
me g caller today = record {
  signed_in = is_some caller.user;
  plan_id = caller.plan.id;
  plan_name = caller.plan.name;
  engine_seconds = (usage g caller today).1;
  budget_seconds = caller.plan.budget_seconds;
  period = (usage g caller today).0;
  resets = period_phrase caller.plan;
  email = email_of caller.user;
  name = name_of caller.user;
}

-- The answer of `/gw/health`.
pub record Health : Type 0 where
  pub ok : Bool
  pub workers : ℕ
  pub inflight : ℕ
  pub queued : ℕ
  pub draining : Bool

unfoldable pub gw_health : {F : Type 0} → Config F → Scheduler → Health
gw_health cfg s = record {
  ok = not s.draining;
  workers = length cfg.workers;
  inflight = inflight s;
  queued = depth s;
  draining = s.draining;
}

abbrev engine_paths : List String
engine_paths = "/api/solve" ∷ "/api/faultstudy" ∷ "/api/import/dss" ∷ []

-- The three forwarding shapes of `proxy`.
pub data Route : Type 0 where
  engine stream passthrough : Route

unfoldable pub route : String → String → Route
route full method =
    if member full engine_paths
    then engine
    else if same full "/api/timeseries" && same method "POST"
    then stream
    else passthrough

-- `itertools.cycle`: the workers in the order in which they come next. `none` is its end, on no
-- workers.
unfoldable pub next_worker : List String → Option String × List String
next_worker [] = (none, [])
next_worker (w ∷ ws) = (some w, ws ++ w ∷ [])

-- The answer 413, the worker's own with its headers, and a 500: no worker, no answer, or a message
-- of the plan that cannot be formatted.
pub data PassReply : Type 0 where
  pass_too_large pass_crashed : PassReply
  passed : String → Headers → ℕ → Headers → PassReply

-- A worker's answer: its status and headers, or an `HTTPError`.
abbrev pub Response : Type 0
Response = Option (ℕ × Items)

unfoldable pub answer_of : String → Headers → Response → PassReply
answer_of worker sent none = pass_crashed
answer_of worker sent (some (code, items)) = passed worker sent code (downstream_headers items)

unfoldable pub ask_worker :
    (String → Headers → Bytes → Response) → Bytes → Option String → Option Headers → PassReply
ask_worker send body none sent = pass_crashed
ask_worker send body (some worker) none = pass_crashed
ask_worker send body (some worker) (some sent) = answer_of worker sent (send worker sent body)

-- `_passthrough`; `send` is the request to a worker.
unfoldable pub pass_body :
    (String → Headers → Bytes → Response)
    → Option Headers
    → List String
    → Option Bytes
    → PassReply × List String
pass_body send sent rr none = (pass_too_large, rr)
pass_body send sent rr (some body) =
    (ask_worker send body (next_worker rr).0 sent, (next_worker rr).1)

unfoldable pub pass_call :
    {F : Type 0}
    → (String → Headers → Bytes → Response)
    → Fixed
    → Config F
    → List Provider
    → Gateway
    → Caller
    → Today
    → Items
    → Option ℕ
    → List Bytes
    → String
    → List String
    → PassReply × List String
pass_call send fixed cfg ps g caller today items declared chunks id rr =
    pass_body send (upstream_headers fixed cfg ps items caller.plan (usage g caller today).1 id) rr
      (read_body declared chunks)
