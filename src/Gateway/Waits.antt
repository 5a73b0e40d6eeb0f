-- ===== src/Gateway/Waits.antt =====
-- The wait of `_stream_call` for its lease: the generator yields comments until its `acquire` task is done.
use opendss_designer_cloud.Base.{
  ℕ, zero, suc, ◌-◌, ◌≤◌, ◌≡◌, refl, subst, String, false, Option, some, List, [], ◌∷◌, ◌++◌, arith,
  All, All-append, find?,
}
use opendss_designer_cloud.Scheduler.{Scheduler, init, inflight, result}
use opendss_designer_cloud.Scheduler.Calls.{
  Call, Phase, Lease, System, Event, resume, expire, release, at_call, awaiting, expired, leased,
  over, has_seq, with_phase, step, run, on_resume,
}
use opendss_designer_cloud.Scheduler.Slots.{find?-set_phase}
use opendss_designer_cloud.Scheduler.Steps.{seq_of_found}
use opendss_designer_cloud.Scheduler.Reachable.{start}
use opendss_designer_cloud.Scheduler.Rest.{run-append}
use opendss_designer_cloud.Scheduler.Lost.{is_release, lost_lease}
use opendss_designer_cloud.Gateway.Stream.{refuse_stream}

-- How the wait ends: the `acquire` task is done, the generator is cancelled at `asyncio.wait`, or it is
-- closed at a `yield`, which is a `GeneratorExit` and no `CancelledError`.
pub data WaitEnd : Type 0 where
  acquired wait_cancelled wait_closed : WaitEnd

abbrev pub opened : String
opened = ": open\n\n"

abbrev pub still_queued : String
still_queued = ": queued\n\n"

-- What it has yielded after so many timeouts of ten seconds.
unfoldable pub comments : ℕ → List String
comments zero = opened ∷ []
comments (suc n) = comments n ++ still_queued ∷ []

-- What the end of the wait does to the `acquire` task, whose seq is `k`: `acquire.cancel()` or nothing.
unfoldable pub stop_wait : WaitEnd → ℕ → List Event
stop_wait acquired k = []
stop_wait wait_cancelled k = expire k ∷ []
stop_wait wait_closed k = []

-- What comes next: the relaying under the lease, the error event of a refusal, or nothing.
pub data WaitReply : Type 0 where
  relaying : Lease → WaitReply
  wait_refused : String → WaitReply
  stopped : WaitReply

unfoldable pub wait_reply : WaitEnd → Phase → WaitReply
wait_reply acquired (leased l) = relaying l
wait_reply acquired (over r) = wait_refused (refuse_stream r)
wait_reply acquired awaiting = stopped
wait_reply acquired expired = stopped
wait_reply wait_cancelled p = stopped
wait_reply wait_closed p = stopped

module _ (y : System) (k now : ℕ) (c : Call) (worker : String)
    (found : find? (has_seq k) y.calls ≡ some c) (waits : c.phase ≡ awaiting)
    (given : y.sched.futures k ≡ result worker) where
  abbrev lease : Lease
  lease = record { worker = worker; waited = now - c.enqueued; released = false }

  resumed-found :
      find? (has_seq k) (step y (resume k now)).calls ≡ some (with_phase (leased lease) c)
  unfolding step on_resume
  resumed-found =
      let same_seq : c.seq ≡ k = seq_of_found k y.calls c found in
      rw (found, at_call, waits, given, same_seq)
        (ground (arith, find?-set_phase k k (leased lease) y.calls, found))

-- What the generator does to the lease at last: it releases the one that it relays under.
unfoldable pub after_wait : WaitReply → ℕ → List Event
after_wait (relaying l) k = release k ∷ []
after_wait (wait_refused message) k = []
after_wait stopped k = []

-- When the generator of a stream is closed at a `yield` of its wait, and its `acquire` task has been granted a worker
-- and has not resumed, then the task returns a lease to which the generator does nothing more, and once it
-- has resumed, as nobody else has that lease to release it, a call is in flight in every later state.
pub closed_wait_keeps :
    (workers : List String) (caps : String → Option ℕ) (n : ℕ) (s : Scheduler)
    (es fs gs : List Event) (k now : ℕ) (c : Call) (worker : String)
    → init workers caps n ≡ some s
    → find? (has_seq k) (run (start s) es).calls ≡ some c
    → c.phase ≡ awaiting
    → (run (start s) es).sched.futures k ≡ result worker
    → All (λ e. is_release k e ≡ false) fs
    → All (λ e. is_release k e ≡ false) gs
    → let y = run (start s) (es ++ (stop_wait wait_closed k ++ resume k now ∷ [])) in
      (l : Lease) × (find? (has_seq k) y.calls ≡ some (with_phase (leased l) c))
      × (1
          ≤ inflight (run y (fs ++ (after_wait (wait_reply wait_closed (leased l)) k ++ gs))).sched)
unfolding run stop_wait after_wait wait_reply
closed_wait_keeps workers caps n s es fs gs k now c worker made found waits given a b =
    let y = run (start s) es in
    let l = lease y k now c worker found waits given in
    let before = es ++ resume k now ∷ [] in
    let leased_found : find? (has_seq k) (run (start s) before).calls
        ≡ some (with_phase (leased l) c) =
      subst (λ z. find? (has_seq k) z.calls ≡ some (with_phase (leased l) c))
        (run-append (start s) es (resume k now ∷ []))
        (resumed-found y k now c worker found waits given) in
    (
      l,
      leased_found,
      lost_lease workers caps n s before (fs ++ gs) k (with_phase (leased l) c) l made leased_found
          refl refl (All-append (λ e. is_release k e ≡ false) fs gs a b),
    )
