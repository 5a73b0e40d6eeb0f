-- ===== src/Scheduler.antt =====
-- scheduler.py: one dispatch slot per worker, handed out in priority order.
--
-- `heapq` orders the waiters by (priority, seq), so the heap is the sorted list of its entries. A
-- waiter's `asyncio.Future` is the entry of `futures` at the waiter's `seq`, which the queue and
-- the suspended call share. Times are whole milliseconds.
pub mod Calls
pub mod Queue
pub mod Slots
pub mod Dispatch
pub mod Refines
pub mod Books
pub mod Limits
pub mod Invariant
pub mod Arrival
pub mod Steps
pub mod Forget
pub mod Expiry
pub mod Drain
pub mod Reachable
pub mod Induction
pub mod Config
pub mod Callers
pub mod Priority
pub mod Guarantees
pub mod Settle
pub mod Rest
pub mod Wait
pub mod Lost
mod Tests
use opendss_designer_cloud.Base.{
  ℕ, suc, ◌+◌, ◌-◌, String, Bool, true, false, not, ◌&&◌, ◌||◌, Option, none, some, List, [], ◌∷◌,
  ◌++◌, ltb, leb, ◌==◌, if◌then◌else◌, length, Counter, increment, decrement, assign,
}

pub record Job : Type 0 where
  pub client : String
  pub plan_id : String
  pub priority : ℕ
  pub pool : String
  pub concurrency : ℕ

pub record Waiter : Type 0 where
  pub priority : ℕ
  pub seq : ℕ
  pub job : Job
  pub enqueued : ℕ

-- `failed` holds the exception `Draining`, the only one that the scheduler sets.
pub data Future : Type 0 where
  pending : Future
  result : String → Future
  failed : Future
  cancelled : Future

-- `Future.done`
abbrev pub is_done : Future → Bool
is_done pending = false
is_done (result _) = true
is_done failed = true
is_done cancelled = true

pub record Scheduler : Type 0 where
  pub workers : List String
  pub pool_caps : String → Option ℕ
  pub max_queue : ℕ
  pub free : List String
  pub waiting : List Waiter
  pub pool_inuse : Counter
  pub client_inuse : Counter
  pub next_seq : ℕ
  pub draining : Bool
  pub futures : ℕ → Future

abbrev pub idle : List String → (String → Option ℕ) → ℕ → Scheduler
idle workers pool_caps max_queue = record {
  workers = workers;
  pool_caps = pool_caps;
  max_queue = max_queue;
  free = workers;
  waiting = [];
  pool_inuse = λ _. 0;
  client_inuse = λ _. 0;
  next_seq = 0;
  draining = false;
  futures = λ _. pending;
}

-- `Scheduler.__init__`; `none` is the `ValueError` on an empty list of workers.
unfoldable pub init : List String → (String → Option ℕ) → ℕ → Option Scheduler
init [] pool_caps max_queue = none
init (w ∷ ws) pool_caps max_queue = some (idle (w ∷ ws) pool_caps max_queue)

abbrev pub depth : Scheduler → ℕ
depth s = length s.waiting

abbrev pub inflight : Scheduler → ℕ
inflight s = length s.workers - length s.free

-- The order of the dataclass `_Waiter`.
abbrev pub before : Waiter → Waiter → Bool
before v w = ltb v.priority w.priority || (v.priority == w.priority && ltb v.seq w.seq)

unfoldable pub heappush : List Waiter → Waiter → List Waiter
heappush [] w = w ∷ []
heappush (v ∷ vs) w = if before w v then w ∷ v ∷ vs else v ∷ heappush vs w

unfoldable pub push_all : List Waiter → List Waiter → List Waiter
push_all waiting [] = waiting
push_all waiting (w ∷ ws) = push_all (heappush waiting w) ws

-- Whether the cap of a pool, if it has one, leaves room for one more.
abbrev pub under_cap : Option ℕ → ℕ → Bool
under_cap none n = true
under_cap (some cap) n = ltb n cap

unfoldable pub eligible : Scheduler → Job → Bool
eligible s job =
    under_cap (s.pool_caps job.pool) (s.pool_inuse job.pool)
    && ltb (s.client_inuse job.client) job.concurrency

-- What `_dispatch` makes of the waiter that it has popped while a worker is free.
pub data Verdict : Type 0 where
  abandoned skipped granted : Verdict

unfoldable pub verdict : Scheduler → Waiter → Verdict
verdict s w =
    if is_done (s.futures w.seq) then abandoned else if eligible s w.job then granted else skipped

unfoldable pub grant : Scheduler → String → List String → Waiter → Scheduler
grant s worker free w = record s {
  free = free;
  pool_inuse = increment w.job.pool s.pool_inuse;
  client_inuse = increment w.job.client s.client_inuse;
  futures = assign w.seq (result worker) s.futures;
}

-- The `while` loop of `_dispatch` over the popped waiters: the state that it ends in, with the
-- waiters not popped, and the skipped ones in the order of their popping.
unfoldable pub dispatch_loop : List Waiter → Scheduler → Scheduler × List Waiter
dispatch_loop [] s = (record s { waiting = [] }, [])
dispatch_loop (w ∷ rest) s = elim s.free [
  | [] ↦ (record s { waiting = w ∷ rest }, [])
  | worker ∷ free ↦ elim (verdict s w) [
    | abandoned ↦ dispatch_loop rest s
    | skipped ↦ let (t, passed) = dispatch_loop rest s in (t, w ∷ passed)
    | granted ↦ dispatch_loop rest (grant s worker free w)
  ]
]

requeue : Scheduler × List Waiter → Scheduler
requeue (s, passed) = record s { waiting = push_all s.waiting passed }

unfoldable pub dispatch : Scheduler → Scheduler
unfolding requeue
dispatch s = elim s.free [
  | [] ↦ s
  | _ ∷ _ ↦ elim s.waiting [ [] ↦ s | _ ∷ _ ↦ requeue (dispatch_loop s.waiting s) ]
]

-- `_release`
unfoldable pub release_worker : Scheduler → String → Job → Scheduler
release_worker s worker job = dispatch (record s {
  free = s.free ++ worker ∷ [];
  pool_inuse = decrement job.pool s.pool_inuse;
  client_inuse = decrement job.client s.client_inuse;
})

-- `_forget`: `list.remove` compares waiters by (priority, seq).
unfoldable pub remove_waiter : ℕ → ℕ → List Waiter → List Waiter
remove_waiter priority seq [] = []
remove_waiter priority seq (v ∷ vs) =
    if v.priority == priority && v.seq == seq then vs else v ∷ remove_waiter priority seq vs

-- What `acquire` raises.
pub data Refusal : Type 0 where
  queue_full queue_timeout draining : Refusal

pub data Admission : Type 0 where
  refused : Refusal → Admission
  queued : ℕ → Admission

abbrev pub enqueue : Scheduler → Job → ℕ → Scheduler
enqueue s job now = record s {
  waiting =
      heappush s.waiting
        (record { priority = job.priority; seq = s.next_seq; job = job; enqueued = now });
  next_seq = suc s.next_seq;
  futures = assign s.next_seq pending s.futures;
}

-- `acquire` up to its `await`: the waiter's seq, or the exception.
unfoldable pub acquire : Scheduler → Job → ℕ → Admission × Scheduler
acquire s job now =
    if s.draining
    then (refused draining, s)
    else if leb s.max_queue (length s.waiting)
    then (refused queue_full, s)
    else (queued s.next_seq, dispatch (enqueue s job now))

-- `drain` up to its wait: every waiter whose future is not done gets the exception.
unfoldable pub fail_all : List Waiter → (ℕ → Future) → ℕ → Future
fail_all [] futures = futures
fail_all (w ∷ ws) futures =
    fail_all ws (if is_done (futures w.seq) then futures else assign w.seq failed futures)

unfoldable pub drain : Scheduler → Scheduler
drain s = record s { draining = true; waiting = []; futures = fail_all s.waiting s.futures }
