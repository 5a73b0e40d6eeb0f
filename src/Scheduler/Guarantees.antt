-- ===== src/Scheduler/Guarantees.antt =====
-- What the scheduler promises in every state that its callers can bring it to, whatever the order
-- of arrivals, timeouts, cancellations, releases and the shutdown.
use mathlib.Core.Option.{some-injective}
use opendss_designer_cloud.Base.{
  ℕ, ◌+◌, ◌≤◌, ◌≡◌, refl, ap, ◌∙◌, subst, ◌⊎◌, String, false, Option, some, List, [], ◌∷◌, arith,
  All, total, length,
}
use opendss_designer_cloud.Scheduler.{
  Job, Scheduler, init, idle, depth, inflight, eligible, release_worker,
}
use opendss_designer_cloud.Scheduler.Calls.{System, Event, run}
use opendss_designer_cloud.Scheduler.Slots.{held, in_pool}
use opendss_designer_cloud.Scheduler.Priority.{NotOvertaken, release_worker-NotOvertaken}
use opendss_designer_cloud.Scheduler.Reachable.{IsSound, start, run-IsSound, init-IsSound}
use opendss_designer_cloud.Scheduler.Config.{SameConfig, unchanged, run-SameConfig}

init-SameConfig :
    (workers : List String) (caps : String → Option ℕ) (n : ℕ) (s : Scheduler)
    → init workers caps n ≡ some s
    → SameConfig (idle workers caps n) s
unfolding init
init-SameConfig [] caps n s e = cc
init-SameConfig (w ∷ ws) caps n s e =
    subst (SameConfig (idle (w ∷ ws) caps n)) (some-injective (idle (w ∷ ws) caps n) s e)
      (unchanged (idle (w ∷ ws) caps n))

total_one : {A : Type 0} (xs : List A) → total (λ _. 1) xs ≡ length xs
total_one [] = refl
total_one (x ∷ xs) = omega (arith, total_one xs)

module _ (workers : List String) (caps : String → Option ℕ) (n : ℕ) (s : Scheduler)
    (made : init workers caps n ≡ some s) (es : List Event) where
  abbrev now : System
  now = run (start s) es

  sound : IsSound now
  sound = run-IsSound (start s) es (init-IsSound workers caps n s made)

  config : SameConfig (idle workers caps n) now.sched
  config =
      let a = init-SameConfig workers caps n s made in
      let b = run-SameConfig (start s) es (init-IsSound workers caps n s made) in
      record {
        workers = b.workers ∙ a.workers;
        caps = b.caps ∙ a.caps;
        max_queue = b.max_queue ∙ a.max_queue;
      }

  -- A scheduler that was made from a list of workers, after any events, has neither lost a worker nor
  -- handed one out twice: for every weight of workers, the free list and the calls that hold a
  -- worker together weigh what the list weighed.
  pub workers_conserved :
      (φ : String → ℕ)
      → total φ now.sched.free + held (λ w _. φ w) now.sched.futures now.calls ≡ total φ workers
  workers_conserved φ = rw (← config.workers) (sound.books.stock φ)

  -- After any events `inflight` is the number of calls that hold a worker.
  pub inflight_holders : inflight now.sched ≡ held (λ _ _. 1) now.sched.futures now.calls
  inflight_holders =
      omega
        (arith, sound.books.stock (λ _. 1), total_one now.sched.free, total_one now.sched.workers)

  -- After any events the calls that hold a worker for a capped pool are at most the cap.
  pub pool_capped :
      (p : String) (cap : ℕ)
      → caps p ≡ some cap
      → held (in_pool p) now.sched.futures now.calls ≤ cap
  pool_capped p cap e = omega (
    arith,
    sound.books.pools p,
    sound.capped p cap (ap (λ (f : String → Option ℕ). f p) config.caps ∙ e),
  )

  -- After any events at most `max_queue` requests wait.
  pub queue_bounded : depth now.sched ≤ n
  queue_bounded = omega (arith, sound.bounded, config.max_queue)

  -- After any events either no worker is free, or nobody who waits is eligible for one: a waiter
  -- that is blocked holds up nobody behind it.
  pub work_conserving :
      (now.sched.free ≡ []) ⊎ All (λ w. eligible now.sched w.job ≡ false) now.sched.waiting
  work_conserving = sound.settled

  -- After any events, when a worker comes back, every waiter that is still in the queue and eligible
  -- was overtaken by nobody: the future of each waiter behind it is as it was.
  pub never_overtaken :
      (worker : String) (job : Job)
      → let t = release_worker now.sched worker job in
        All (NotOvertaken now.sched.waiting now.sched t) t.waiting
  never_overtaken worker job = release_worker-NotOvertaken now.sched worker job sound.order
