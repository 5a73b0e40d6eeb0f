-- ===== src/Gateway/Engine.antt =====
-- `_engine_call` and `_record` of app.py: one call of the solver. The handler is cut where it awaits: before
-- `acquire`, and from the worker's answer on.
use opendss_designer_cloud.Base.{
  ℕ, ◌+◌, ◌≡◌, String, Bool, true, false, ◌&&◌, Option, none, some, List, ltb, leb, if◌then◌else◌,
  arith, same,
}
use opendss_designer_cloud.Base.Text.{decimal, join}
use opendss_designer_cloud.Store.{Run}
use opendss_designer_cloud.Store.Ledger
use opendss_designer_cloud.Store.Ledger.Totals.{used-record_run}
use opendss_designer_cloud.Scheduler.{
  Job, Refusal, queue_full, queue_timeout, draining, release_worker,
}
use opendss_designer_cloud.Scheduler.Calls.{Lease, release_lease}
use opendss_designer_cloud.Gateway.Plans.{Plan, Today}
use opendss_designer_cloud.Gateway.Body.{Bytes, read_body, concat, fits, read_body-fits}
use opendss_designer_cloud.Gateway.Callers.{Gateway, Caller, usage}

-- The answers of the handler: 429, 413, the three 503 of a refusal, the 503 for a worker that did
-- not answer, the worker's own answer, and the 500 of an exception that nothing catches.
pub data Reply : Type 0 where
  over_budget too_large : Reply
  busy : String → ℕ → Reply
  relayed : ℕ → Reply
  crashed : Reply

-- What goes on to `acquire`: the period, what was used in it, the body and the job.
pub record Request : Type 0 where
  pub period : String
  pub used : ℕ
  pub body : Bytes
  pub job : Job

pub data Admitted : Type 0 where
  answered : Reply → Admitted
  admitted : Request → Admitted

unfoldable pub job_of : Caller → Job
job_of caller = record {
  client = caller.client;
  plan_id = caller.plan.id;
  priority = caller.plan.priority;
  pool = caller.plan.pool;
  concurrency = caller.plan.concurrency;
}

-- `plan.budget_seconds is not None and used >= plan.budget_seconds`
unfoldable pub is_exhausted : Plan → ℕ → Bool
is_exhausted p used = elim p.budget_seconds [ none ↦ false | some b ↦ leb b used ]

unfoldable pub admit_body : Caller → String × ℕ → Option Bytes → Admitted
admit_body caller (period, used) none = answered too_large
admit_body caller (period, used) (some body) =
    admitted (record { period = period; used = used; body = body; job = job_of caller })

unfoldable pub admit : Gateway → Caller → Today → Option ℕ → List Bytes → Admitted
admit g caller today declared chunks =
    if is_exhausted caller.plan (usage g caller today).1
    then answered over_budget
    else admit_body caller (usage g caller today) (read_body declared chunks)

-- The `except` clauses around `acquire`, with the `Retry-After` of each (10 where none is given).
unfoldable pub refuse : Refusal → Reply
refuse queue_full =
    busy "The solver is busy with other visitors right now. Try again in a moment." 10
refuse queue_timeout = busy "Waited for a solver for too long. Try again in a moment." 15
refuse draining = busy "The service is restarting. Try again in a few seconds." 5

-- What the worker does: no answer (`httpx.HTTPError`), or a status and the header
-- `x-engine-seconds`: `none` where it is missing or empty, `some none` where `float` raises. The number is
-- milliseconds that passed; what `float` reads as negative, infinite or nan is left out.
pub data Upstream : Type 0 where
  http_error : Upstream
  response : ℕ → Option (Option ℕ) → Upstream

unfoldable pub seconds_of : Upstream → ℕ
seconds_of http_error = 0
seconds_of (response code none) = 0
seconds_of (response code (some none)) = 0
seconds_of (response code (some (some n))) = n

-- A header that is no number leaves the status as it was set first.
unfoldable pub status_of : Upstream → String
status_of http_error = "upstream-error"
status_of (response code (some none)) = "ok"
status_of (response code none) = if ltb code 400 then "ok" else join "http-" (decimal code)
status_of (response code (some (some n))) =
    if ltb code 400 then "ok" else join "http-" (decimal code)

unfoldable pub reply_of : Upstream → Reply
reply_of http_error = busy "The solver did not answer. Try again in a moment." 5
reply_of (response code (some none)) = crashed
reply_of (response code none) = relayed code
reply_of (response code (some (some n))) = relayed code

-- `_record`; its own errors are caught, and the ledger raises none.
unfoldable pub run_row : Caller → ℕ → String → Upstream → Lease → String → Run
run_row caller now path up lease request_id = record {
  ts = now;
  client = caller.client;
  plan = caller.plan.id;
  path = path;
  engine_seconds = seconds_of up;
  queue_seconds = lease.waited;
  status = status_of up;
  worker = some lease.worker;
  request_id = some request_id;
}

-- From the worker's answer on: the `finally` block, then the answer.
unfoldable pub finish_call :
    Gateway → Caller → Request → ℕ → String → Upstream → Lease → String → Reply × Lease × Gateway
finish_call g caller r now path up lease request_id =
    let (l, s) = release_lease r.job lease g.sched in
    (
      reply_of up,
      l,
      record g {
        sched = s;
        store = Ledger.record_run g.store r.period (run_row caller now path up lease request_id);
      },
    )

-- What `admit` answers before it queues: 429 for a spent budget, 413 for a body past the limit, and
-- otherwise the body in full and a job with the caller's own limits.
pub admit_lem :
    (g : Gateway) (caller : Caller) (today : Today) (declared : Option ℕ) (chunks : List Bytes)
    → admit g caller today declared chunks ≡ (
        if is_exhausted caller.plan (usage g caller today).1
        then answered over_budget
        else if fits declared chunks
        then admitted (record {
          period = (usage g caller today).0;
          used = (usage g caller today).1;
          body = concat chunks;
          job = job_of caller;
        })
        else answered too_large)
unfolding admit admit_body
admit_lem g caller today declared chunks = ground (arith, read_body-fits declared chunks)

-- However the worker answers, a lease that is not released yet is given back, and the caller's usage of the
-- period in which the call was admitted grows by the seconds that the worker reported; no other
-- client's usage and no other period's changes.
pub finish_charges :
    (g : Gateway) (caller : Caller) (r : Request) (now : ℕ) (path : String) (up : Upstream)
    (lease : Lease) (request_id c p : String)
    → lease.released ≡ false
    → let (reply, l, h) = finish_call g caller r now path up lease request_id in
      (l.released ≡ true)
      × (h.sched ≡ release_worker g.sched lease.worker r.job)
      × (Ledger.used h.store c p
          ≡ Ledger.used g.store c p
            + (if same caller.client c && same r.period p then seconds_of up else 0))
unfolding finish_call release_lease run_row
finish_charges g caller r now path up lease request_id c p h =
    ground
      (arith, used-record_run g.store r.period (run_row caller now path up lease request_id) c p)
