-- ===== src/Scheduler/Tests.antt =====
-- Runs of the scheduler, and each guarantee at one of them.
use opendss_designer_cloud.Base.{
  ℕ, ◌+◌, ◌≤◌, ◌≡◌, refl, ◌⊎◌, String, true, false, Option, none, some, List, [], ◌∷◌, arith, All,
  total, same, if◌then◌else◌,
}
use opendss_designer_cloud.Scheduler.{
  Job, Waiter, Scheduler, Refusal, init, idle, depth, inflight, eligible, release_worker, acquire,
  refused, dispatch, dispatch_loop, push_all, heappush, verdict, grant, remove_waiter, drain,
  fail_all,
}
use opendss_designer_cloud.Scheduler.Calls.{
  System, Event, Lease, arrive, resume, expire, unwind, release, shutdown, step, run, release_lease,
  on_resume, on_expire, on_unwind, on_release, give_back,
}
use opendss_designer_cloud.Scheduler.Slots.{held, in_pool, of_client, holding, weigh}
use opendss_designer_cloud.Scheduler.Priority.{NotOvertaken}
use opendss_designer_cloud.Scheduler.Reachable.{start}
use opendss_designer_cloud.Scheduler.Settle.{give_up_all}
use opendss_designer_cloud.Scheduler.Rest.{seqs, comes_to_rest}
use opendss_designer_cloud.Scheduler.Wait.{Waited, drain_wait, drain_ends}
use opendss_designer_cloud.Scheduler.Queue.{InOrder}
use opendss_designer_cloud.Scheduler.Limits.{Settled}
use opendss_designer_cloud.Scheduler.Refines.{Serves, dispatch-Serves}
use opendss_designer_cloud.Scheduler.Guarantees.{
  workers_conserved, inflight_holders, pool_capped, queue_bounded, work_conserving, never_overtaken,
}
use opendss_designer_cloud.Scheduler.Callers.{caller_limited, drained_for_good, release_twice}

abbrev workers : List String
workers = "w1" ∷ "w2" ∷ []

-- `{"guest": 1}`
abbrev caps : String → Option ℕ
caps p = if same p "guest" then some 1 else none

abbrev guest : String → Job
guest c = record { client = c; plan_id = "guest"; priority = 10; pool = "guest"; concurrency = 1 }

abbrev member : Job
member = record { client = "m"; plan_id = "free"; priority = 5; pool = "member"; concurrency = 1 }

-- A guest runs, a second one is blocked by the cap, a member behind it runs at once.
abbrev events : List Event
events = arrive (guest "a") 0 ∷ resume 0 1 ∷ arrive (guest "b") 2 ∷ arrive member 3 ∷ []

abbrev busy : System
busy = run (start (idle workers caps 2)) events

-- What a run by evaluation opens.
machine : Unit {0}
unfolding init run step acquire dispatch dispatch_loop verdict eligible grant push_all heappush same
    on_resume on_expire on_unwind on_release give_back release_lease release_worker remove_waiter
    drain fail_all holding weigh
machine = tt

busy_depth : depth busy.sched ≡ 1
unfolding machine
busy_depth = refl

busy_free : busy.sched.free ≡ []
unfolding machine
busy_free = refl

-- The call of "b" times out in the queue, and "a" gives its worker back.
later : (run busy (expire 1 ∷ unwind 1 ∷ release 0 ∷ [])).sched.free ≡ "w1" ∷ []
unfolding machine
later = refl

-- The worker comes free in the tick in which "b" gives up: it is handed back.
same_tick : (run busy (release 0 ∷ expire 1 ∷ unwind 1 ∷ [])).sched.free ≡ "w1" ∷ []
unfolding machine
same_tick = refl

-- With a queue of one, the blocked guest fills it: a member is refused although a worker is free
-- and the member is eligible for it.
abbrev crowded : System
crowded = run (start (idle workers caps 1)) (arrive (guest "a") 0 ∷ arrive (guest "b") 2 ∷ [])

member_refused : (acquire crowded.sched member 3).0 ≡ refused Refusal.queue_full
unfolding machine
member_refused = refl

member_could_run : (crowded.sched.free ≡ "w2" ∷ []) × (eligible crowded.sched member ≡ true)
unfolding machine
member_could_run = (refl, refl)

workers_conserved_example :
    total (λ w. if same w "w2" then 1 else 0) busy.sched.free
      + held (λ w _. if same w "w2" then 1 else 0) busy.sched.futures busy.calls
    ≡ 1
unfolding machine
workers_conserved_example =
    workers_conserved workers caps 2 (idle workers caps 2) refl events
      (λ w. if same w "w2" then 1 else 0)

inflight_holders_test : inflight busy.sched ≡ held (λ _ _. 1) busy.sched.futures busy.calls
unfolding init
inflight_holders_test = inflight_holders workers caps 2 (idle workers caps 2) refl events

pool_capped_example : held (in_pool "guest") busy.sched.futures busy.calls ≤ 1
unfolding init same
pool_capped_example = pool_capped workers caps 2 (idle workers caps 2) refl events "guest" 1 refl

queue_bounded_test : depth busy.sched ≤ 2
unfolding init
queue_bounded_test = queue_bounded workers caps 2 (idle workers caps 2) refl events

work_conserving_example :
    (busy.sched.free ≡ []) ⊎ All (λ w. eligible busy.sched w.job ≡ false) busy.sched.waiting
unfolding init
work_conserving_example = work_conserving workers caps 2 (idle workers caps 2) refl events

never_overtaken_example :
    let t = release_worker busy.sched "w1" (guest "a") in
    All (NotOvertaken busy.sched.waiting busy.sched t) t.waiting
unfolding init
never_overtaken_example =
    never_overtaken workers caps 2 (idle workers caps 2) refl events "w1" (guest "a")

caller_limited_example : held (of_client "a") busy.sched.futures busy.calls ≤ 1
unfolding init
caller_limited_example =
    caller_limited (λ _. 1) workers caps 2 (idle workers caps 2) events "a" refl (omega arith)

drained_for_good_example :
    let y = run (step busy shutdown) (release 0 ∷ []) in
    (y.sched.waiting ≡ []) × (acquire y.sched member 9 ≡ (refused Refusal.draining, y.sched))
unfolding init
drained_for_good_example =
    drained_for_good workers caps 2 (idle workers caps 2) events (release 0 ∷ []) member 9 refl

abbrev lease : Lease
lease = record { worker = "w1"; waited = 1; released = false }

release_twice_test :
    let (l, t) = release_lease (guest "a") lease busy.sched in
    release_lease (guest "a") l t ≡ (l, t)
release_twice_test = release_twice (guest "a") lease busy.sched

-- "a" holds the worker and "b" waits.
comes_to_rest_example :
    let z = run busy (give_up_all (seqs busy.calls)) in
    (z.sched.waiting ≡ [])
    × (inflight z.sched ≡ 0)
    × ((φ : String → ℕ) → total φ z.sched.free ≡ total φ workers)
unfolding init
comes_to_rest_example = comes_to_rest workers caps 2 (idle workers caps 2) events refl

-- Nothing ends in the sleeps: `drain` gives up after its second, with a run in flight.
drain_ends_example :
    Waited
      (λ k. ([], 5))
      0
      (step busy shutdown)
      100
      1100
      (drain_wait 1001 (λ k. ([], 5)) busy 100 1000)
drain_ends_example = drain_ends (λ k. ([], 5)) busy 100 1000

abbrev waiter : ℕ → Job → Waiter
waiter k job = record { priority = job.priority; seq = k; job = job; enqueued = 0 }

-- A member and two guests wait for two workers, with room for one guest.
abbrev waiting : Scheduler
waiting = record (idle workers caps 4) {
  waiting = waiter 2 member ∷ waiter 0 (guest "b") ∷ waiter 1 (guest "c") ∷ [];
  next_seq = 3;
}

waiting-InOrder : InOrder waiting.waiting
waiting-InOrder = (((refl, refl), ((refl, refl), tt)), (((refl, refl), tt), (tt, tt)))

one_guest_left : depth (dispatch waiting) ≡ 1
unfolding machine
one_guest_left = refl

dispatch-Serves_example : Serves waiting (dispatch waiting) × Settled (dispatch waiting)
dispatch-Serves_example = dispatch-Serves waiting waiting-InOrder
