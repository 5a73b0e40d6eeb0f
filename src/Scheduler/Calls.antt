-- ===== src/Scheduler/Calls.antt =====
-- The coroutines around the scheduler: each call of `acquire` from its `await` on, and the lease that it
-- returns. The event loop and the callers choose the order of the steps.
use opendss_designer_cloud.Base.{
  ℕ, ◌-◌, String, Bool, true, false, none, some, List, [], ◌∷◌, ◌==◌, if◌then◌else◌, find?,
  update_where, assign,
}
use opendss_designer_cloud.Scheduler.{
  Job, Future, Scheduler, Refusal, Admission, pending, result, failed, cancelled, refused, queued,
  queue_timeout, draining, acquire, release_worker, remove_waiter, drain,
}

pub record Lease : Type 0 where
  pub worker : String
  pub waited : ℕ
  pub released : Bool

-- `expired`: the timeout or a cancellation has arrived and the `except` block is still to run.
pub data Phase : Type 0 where
  awaiting expired : Phase
  leased : Lease → Phase
  over : Refusal → Phase

pub record Call : Type 0 where
  pub seq : ℕ
  pub job : Job
  pub enqueued : ℕ
  pub phase : Phase

pub record System : Type 0 where
  pub sched : Scheduler
  pub calls : List Call

abbrev pub has_seq : ℕ → Call → Bool
has_seq k c = c.seq == k

abbrev pub with_phase : Phase → Call → Call
with_phase p c = record c { phase = p }

abbrev pub set_phase : ℕ → Phase → List Call → List Call
set_phase k p = update_where (has_seq k) (with_phase p)

pub data Event : Type 0 where
  -- a request calls `acquire`
  arrive : Job → ℕ → Event
  -- the awaited future is done and the call goes on, at a time
  resume : ℕ → ℕ → Event
  -- `wait_for` times out, or the request is cancelled: its future is cancelled unless it is done
  expire : ℕ → Event
  -- the `except` block of `acquire` runs
  unwind : ℕ → Event
  -- `Lease.release`
  release : ℕ → Event
  -- `Scheduler.drain` begins
  shutdown : Event

-- `Lease.release`: only the first call reaches the scheduler.
unfoldable pub release_lease : Job → Lease → Scheduler → Lease × Scheduler
release_lease job l s =
    if l.released then (l, s) else (record l { released = true }, release_worker s l.worker job)

abbrev on_arrival : System → Job → ℕ → Admission × Scheduler → System
on_arrival y job now (refused r, s) = record y { sched = s }
on_arrival y job now (queued k, s) = record {
  sched = s;
  calls = record { seq = k; job = job; enqueued = now; phase = awaiting } ∷ y.calls;
}

-- `await` on a future that is done returns its result or raises its exception.
unfoldable pub on_resume : System → Call → ℕ → Phase → Future → System
on_resume y c now awaiting (result worker) = record y {
  calls =
      set_phase c.seq
        (leased (record { worker = worker; waited = now - c.enqueued; released = false })) y.calls;
}
on_resume y c now awaiting failed = record y { calls = set_phase c.seq (over draining) y.calls }
on_resume y c now _ _ = y

abbrev pub cancel : Future → Future
cancel pending = cancelled
cancel (result w) = result w
cancel failed = failed
cancel cancelled = cancelled

unfoldable pub on_expire : System → Call → Phase → System
on_expire y c awaiting = record {
  sched = record y.sched {
    futures = assign c.seq (cancel (y.sched.futures c.seq)) y.sched.futures;
  };
  calls = set_phase c.seq expired y.calls;
}
on_expire y c _ = y

-- `_forget`, the hand-back of a worker granted in the same tick, and the exception that results.
abbrev pub forget : Scheduler → Call → Scheduler
forget s c = record s { waiting = remove_waiter c.job.priority c.seq s.waiting }

unfoldable pub give_back : Scheduler → Job → Future → Scheduler × Refusal
give_back s job (result worker) = (release_worker s worker job, queue_timeout)
give_back s job failed = (s, draining)
give_back s job pending = (s, queue_timeout)
give_back s job cancelled = (s, queue_timeout)

unfoldable pub on_unwind : System → Call → Phase → System
on_unwind y c expired =
    let (s, r) = give_back (forget y.sched c) c.job (y.sched.futures c.seq) in
    record { sched = s; calls = set_phase c.seq (over r) y.calls }
on_unwind y c _ = y

unfoldable pub on_release : System → Call → Phase → System
on_release y c (leased l) =
    let (l', s) = release_lease c.job l y.sched in
    record { sched = s; calls = set_phase c.seq (leased l') y.calls }
on_release y c _ = y

-- An event for a call that does not exist, or is not in the phase for it, cannot happen: no change.
abbrev pub at_call : System → ℕ → (Call → System) → System
at_call y k f = elim (find? (has_seq k) y.calls) [ none ↦ y | some c ↦ f c ]

unfoldable pub step : System → Event → System
step y (arrive job now) = on_arrival y job now (acquire y.sched job now)
step y (resume k now) = at_call y k (λ c. on_resume y c now c.phase (y.sched.futures k))
step y (expire k) = at_call y k (λ c. on_expire y c c.phase)
step y (unwind k) = at_call y k (λ c. on_unwind y c c.phase)
step y (release k) = at_call y k (λ c. on_release y c c.phase)
step y shutdown = record y { sched = drain y.sched }

unfoldable pub run : System → List Event → System
run y [] = y
run y (e ∷ es) = run (step y e) es
