-- ===== src/Gateway/WaitTests.antt =====
-- A stream that is closed in the queue, at a concrete run.
use opendss_designer_cloud.Base.{
  ◌≤◌, ◌≡◌, refl, String, none, some, List, [], ◌∷◌, ◌++◌, same, find?, ◌==◌,
}
use opendss_designer_cloud.Scheduler.{
  Job, Scheduler, idle, init, inflight, acquire, dispatch, dispatch_loop, verdict, eligible, grant,
  push_all, heappush, result, release_worker,
}
use opendss_designer_cloud.Scheduler.Calls.{
  Call, Event, Lease, leased, with_phase, arrive, resume, release, awaiting, step, run, on_resume,
  on_release, release_lease,
}
use opendss_designer_cloud.Scheduler.Reachable.{start}
use opendss_designer_cloud.Gateway.Waits.{
  stop_wait, wait_closed, after_wait, wait_reply, closed_wait_keeps,
}

abbrev job : String → Job
job c = record { client = c; plan_id = "free"; priority = 5; pool = "member"; concurrency = 1 }

abbrev one_worker : Scheduler
one_worker = idle ("w1" ∷ []) (λ p. none) 4

-- "a" runs and a stream of "b" waits; "a" gives its worker back, and the stream is closed before it resumes.
abbrev before : List Event
before = arrive (job "a") 0 ∷ resume 0 1 ∷ arrive (job "b") 2 ∷ release 0 ∷ []

abbrev stream : Call
stream = record { seq = 1; job = job "b"; enqueued = 2; phase = awaiting }

machine : Unit {0}
unfolding init run step acquire dispatch dispatch_loop verdict eligible grant push_all heappush same
    on_resume on_release release_lease release_worker stop_wait
machine = tt

made : init ("w1" ∷ []) (λ p. none) 4 ≡ some one_worker
unfolding machine
made = refl

abandoned_found : find? (λ d. d.seq == 1) (run (start one_worker) before).calls ≡ some stream
unfolding machine
abandoned_found = refl

granted : (run (start one_worker) before).sched.futures 1 ≡ result "w1"
unfolding machine
granted = refl

-- A later request waits for ever.
closed_wait_keeps_example :
    let y = run (start one_worker) (before ++ (stop_wait wait_closed 1 ++ resume 1 9 ∷ [])) in
    (l : Lease) × (find? (λ d. d.seq == 1) y.calls ≡ some (with_phase (leased l) stream))
    × (1
        ≤ inflight
            (run y (
              (arrive (job "c") 10 ∷ [])
              ++ (after_wait (wait_reply wait_closed (leased l)) 1 ++ resume 2 11 ∷ []))).sched)
closed_wait_keeps_example =
    closed_wait_keeps ("w1" ∷ []) (λ p. none) 4 one_worker before (arrive (job "c") 10 ∷ [])
      (resume 2 11 ∷ []) 1 9 stream "w1" made abandoned_found refl granted (refl, tt) (refl, tt)
