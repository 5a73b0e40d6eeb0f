-- ===== src/Gateway/Stream.antt =====
-- `_stream_call` of app.py from the granted lease on: the worker's event stream is relayed, and what is known at its
-- end is charged. Its guards before `acquire` are those of `_engine_call`.
use Prim.Native.Char.{code}
use opendss_designer_cloud.Base.{
  refuted, ℕ, ◌+◌, ◌≡◌, refl, ap, sym, ◌∙◌, ◌==◌, same_ne, String, Bool, true, false, ◌&&◌, Option,
  none, some, if◌then◌else◌, arith, same,
}
use opendss_designer_cloud.Base.Text.{decimal, join}
use opendss_designer_cloud.Store.{Run}
use opendss_designer_cloud.Store.Ledger
use opendss_designer_cloud.Store.Ledger.Totals.{used-record_run}
use opendss_designer_cloud.Scheduler.{Refusal, queue_full, queue_timeout, draining, release_worker}
use opendss_designer_cloud.Scheduler.Calls.{Lease, release_lease}
use opendss_designer_cloud.Gateway.Callers.{Gateway, Caller}
use opendss_designer_cloud.Gateway.Engine.{Request}

-- The error event that a refusal of `acquire` becomes.
unfoldable pub refuse_stream : Refusal → String
refuse_stream queue_full =
    "The solver is busy with other visitors right now. Try again in a moment."
refuse_stream queue_timeout = "Waited for a solver for too long. Try again in a moment."
refuse_stream draining = "The service is restarting. Try again in a few seconds."

-- How the relaying ends: the worker refuses with a status that is not 200, its stream ends, the
-- connection breaks, the task is cancelled at an `await`, or the generator is closed at a `yield`.
pub data StreamEnd : Type 0 where
  not_started : ℕ → StreamEnd
  completed upstream_error cancelled closed : StreamEnd

unfoldable pub stream_status : StreamEnd → String
stream_status (not_started code) = join "http-" (decimal code)
stream_status completed = "ok"
stream_status upstream_error = "upstream-error"
stream_status cancelled = "cancelled"
stream_status closed = "ok"

-- `status in ("cancelled", "upstream-error")`
unfoldable pub is_abandoned : String → Bool
is_abandoned status = if same status "cancelled" then true else same status "upstream-error"

-- The engine seconds of a call that ran for `elapsed`. `found` is the last match of
-- `_ENGINE_SECONDS` in the tail of the stream; the inner `none` is a match that is no number.
unfoldable pub stream_seconds : Option (Option ℕ) → String → ℕ → Option ℕ
stream_seconds (some n) status elapsed = n
stream_seconds none status elapsed = some (if is_abandoned status then elapsed else 0)

unfoldable pub stream_row : Caller → ℕ → String → String → ℕ → Lease → String → Run
stream_row caller now path status seconds lease request_id = record {
  ts = now;
  client = caller.client;
  plan = caller.plan.id;
  path = path;
  engine_seconds = seconds;
  queue_seconds = lease.waited;
  status = status;
  worker = some lease.worker;
  request_id = some request_id;
}

-- `_record` is skipped where the `finally` block raises on the number.
unfoldable pub stream_store :
    Gateway → Caller → Request → ℕ → String → String → Lease → String → Option ℕ → Gateway
stream_store g caller r now path status lease request_id none = g
stream_store g caller r now path status lease request_id (some n) = record g {
  store = Ledger.record_run g.store r.period (stream_row caller now path status n lease request_id);
}

-- The `finally` block. `closes` is whether there is no `upstream` or `await upstream.aclose()` returns; where that
-- raises or is cancelled, what follows it is skipped.
unfoldable pub finish_stream :
    Gateway
    → Caller
    → Request
    → ℕ
    → String
    → StreamEnd
    → Bool
    → Option (Option ℕ)
    → ℕ
    → Lease
    → String
    → Lease × Gateway
finish_stream g caller r now path end false found elapsed lease request_id = (lease, g)
finish_stream g caller r now path end true found elapsed lease request_id =
    let (l, s) = release_lease r.job lease g.sched in
    (
      l,
      stream_store (record g { sched = s }) caller r now path (stream_status end) lease request_id
          (stream_seconds found (stream_status end) elapsed),
    )

-- What a stream costs, by how it ends.
unfoldable pub cost : StreamEnd → Option (Option ℕ) → ℕ → ℕ
cost end (some (some n)) elapsed = n
cost end (some none) elapsed = 0
cost (not_started code) none elapsed = 0
cost completed none elapsed = 0
cost upstream_error none elapsed = elapsed
cost cancelled none elapsed = elapsed
cost closed none elapsed = 0

is_http : String → Bool
is_http String.[] = false
is_http (String.◌∷◌ c s) = code c == b'h'

http-is_http : (s : String) → is_http (join "http-" s) ≡ true
unfolding is_http join
http-is_http s = refl

http_differs : (s t : String) → is_http t ≡ false → same (join "http-" s) t ≡ false
http_differs s t h =
    same_ne (join "http-" s) t (λ e. refuted (sym (sym (http-is_http s) ∙ ap is_http e ∙ h)))

http_not_abandoned : (s : String) → is_abandoned (join "http-" s) ≡ false
unfolding is_abandoned is_http
http_not_abandoned s =
    rw (http_differs s "cancelled" refl, http_differs s "upstream-error" refl) refl

abbrev charged : Option ℕ → ℕ
charged none = 0
charged (some n) = n

charged-stream_seconds :
    (end : StreamEnd) (found : Option (Option ℕ)) (elapsed : ℕ)
    → charged (stream_seconds found (stream_status end) elapsed) ≡ cost end found elapsed
unfolding stream_seconds stream_status cost is_abandoned same
charged-stream_seconds end (some (some n)) elapsed = refl
charged-stream_seconds end (some none) elapsed = refl
charged-stream_seconds (not_started code) none elapsed = rw (http_not_abandoned (decimal code)) refl
charged-stream_seconds completed none elapsed = refl
charged-stream_seconds upstream_error none elapsed = refl
charged-stream_seconds cancelled none elapsed = refl
charged-stream_seconds closed none elapsed = refl

stream_store-used :
    (g : Gateway) (caller : Caller) (r : Request) (now : ℕ) (path status : String) (lease : Lease)
    (request_id c p : String) (n : Option ℕ)
    → Ledger.used (stream_store g caller r now path status lease request_id n).store c p
      ≡ Ledger.used g.store c p + (if same caller.client c && same r.period p then charged n else 0)
unfolding stream_store stream_row
stream_store-used g caller r now path status lease request_id c p none = ground arith
stream_store-used g caller r now path status lease request_id c p (some n) =
    used-record_run g.store r.period (stream_row caller now path status n lease request_id) c p

stream_store-sched :
    (g : Gateway) (caller : Caller) (r : Request) (now : ℕ) (path status : String) (lease : Lease)
    (request_id : String) (n : Option ℕ)
    → (stream_store g caller r now path status lease request_id n).sched ≡ g.sched
unfolding stream_store
stream_store-sched g caller r now path status lease request_id none = refl
stream_store-sched g caller r now path status lease request_id (some n) = refl

-- Where the closing of the worker's answer returns: however the stream ended, its lease, if it is not released yet, is
-- given back, and the caller's usage of the period, and no other, grows by what the stream costs.
pub finish_stream-cost :
    (g : Gateway) (caller : Caller) (r : Request) (now : ℕ) (path : String) (end : StreamEnd)
    (found : Option (Option ℕ)) (elapsed : ℕ) (lease : Lease) (request_id c p : String)
    → lease.released ≡ false
    → let (l, h) = finish_stream g caller r now path end true found elapsed lease request_id in
      (l.released ≡ true)
      × (h.sched ≡ release_worker g.sched lease.worker r.job)
      × (Ledger.used h.store c p
          ≡ Ledger.used g.store c p
            + (if same caller.client c && same r.period p then cost end found elapsed else 0))
unfolding finish_stream release_lease
finish_stream-cost g caller r now path end found elapsed lease request_id c p h =
    let status = stream_status end in
    let n = stream_seconds found status elapsed in
    let after = record g { sched = (release_lease r.job lease g.sched).1 } in
    (
      ground arith,
      stream_store-sched after caller r now path status lease request_id n ∙ rw h,
      stream_store-used after caller r now path status lease request_id c p n
          ∙ ap
              (λ m.
                Ledger.used g.store c p
                + (if same caller.client c && same r.period p then m else 0))
              (charged-stream_seconds end found elapsed),
    )
