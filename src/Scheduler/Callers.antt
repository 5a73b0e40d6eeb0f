-- ===== src/Scheduler/Callers.antt =====
-- The limit per caller, the shutdown, and the double release.
use mathlib.Core.Option.{some-injective}
use opendss_designer_cloud.Base.{
  subst, ◌∙◌, ℕ, ◌≤◌, ◌≡◌, refl, inl, inr, String, true, Option, some, List, [], ◌∷◌, arith, All,
  Bool-cases,
}
use opendss_designer_cloud.Scheduler.{
  Job, Scheduler, Refusal, refused, init, idle, remove_waiter, dispatch, drain, enqueue, acquire,
}
use opendss_designer_cloud.Scheduler.Calls.{
  Call, Lease, System, Event, shutdown, step, run, release_lease, forget,
}
use opendss_designer_cloud.Scheduler.Queue.{InOrder, All-heappush, All-remove_waiter}
use opendss_designer_cloud.Scheduler.Slots.{held, of_client}
use opendss_designer_cloud.Scheduler.Limits.{
  Asks, Limited, dispatch-All, dispatch-Grows, dispatch-Limited,
}
use opendss_designer_cloud.Scheduler.Invariant.{dispatch_drained}
use opendss_designer_cloud.Scheduler.Induction.{Admissible, run_induction, returned}
use opendss_designer_cloud.Scheduler.Reachable.{
  IsSound, start, run-IsSound, init-IsSound, release_lease_again, release_lease_first,
  acquire_draining, step-IsSound,
}
use opendss_designer_cloud.Scheduler.Config.{any_event}

module _ (limit : String → ℕ) where
  abbrev pub AsksWithin : Job → Type 0
  AsksWithin job = job.concurrency ≤ limit job.client

  record Modest (s : Scheduler) : Type 0 where
    asks : All (Asks limit) s.waiting
    limited : Limited limit s

  enqueue-Modest :
      (s : Scheduler) (job : Job) (now : ℕ) → AsksWithin job → Modest s → Modest (enqueue s job now)
  enqueue-Modest s job now a m = record {
    asks = All-heappush (Asks limit) s.waiting _ a m.asks;
    limited = m.limited;
  }

  dispatch-Modest : (s : Scheduler) → InOrder s.waiting → Modest s → Modest (dispatch s)
  dispatch-Modest s o m = record {
    asks = dispatch-All s o (Asks limit) m.asks;
    limited = dispatch-Limited s o limit m.asks m.limited;
  }

  returned-Modest : (s : Scheduler) (w : String) (job : Job) → Modest s → Modest (returned s w job)
  returned-Modest s w job m = record { asks = m.asks; limited = λ k. ground (arith, m.limited k) }

  forget-Modest : (s : Scheduler) (c : Call) → Modest s → Modest (forget s c)
  forget-Modest s c m = record {
    asks = All-remove_waiter (Asks limit) c.job.priority c.seq s.waiting m.asks;
    limited = m.limited;
  }

  drain-Modest : (s : Scheduler) → Modest s → Modest (drain s)
  unfolding drain
  drain-Modest s m = record { asks = tt; limited = m.limited }

  run-Modest :
      (y : System) (es : List Event)
      → All (Admissible AsksWithin) es
      → IsSound y
      → Modest y.sched
      → Modest (run y es).sched
  run-Modest =
      run_induction Modest AsksWithin (λ s job now a e m. enqueue-Modest s job now a m)
        dispatch-Modest returned-Modest forget-Modest
        (λ s f m. record { asks = m.asks; limited = m.limited }) drain-Modest

init-Modest :
    (limit : String → ℕ) (workers : List String) (caps : String → Option ℕ) (n : ℕ) (s : Scheduler)
    → init workers caps n ≡ some s
    → Modest limit s
unfolding init
init-Modest limit [] caps n s e = cc
init-Modest limit (w ∷ ws) caps n s e =
    subst (Modest limit) (some-injective (idle (w ∷ ws) caps n) s e)
      (record { asks = tt; limited = λ k. omega arith })

-- After any events in which no job of a caller asks for more than the caller's limit, the caller
-- holds at most that many workers.
pub caller_limited :
    (limit : String → ℕ) (workers : List String) (caps : String → Option ℕ) (n : ℕ) (s : Scheduler)
    (es : List Event) (client : String)
    → init workers caps n ≡ some s
    → All (Admissible (AsksWithin limit)) es
    → let y = run (start s) es in held (of_client client) y.sched.futures y.calls ≤ limit client
caller_limited limit workers caps n s es client made asked =
    let i = init-IsSound workers caps n s made in
    let m = run-Modest limit (start s) es asked i (init-Modest limit workers caps n s made) in
    omega (arith, (run-IsSound (start s) es i).books.clients client, m.limited client)

record Closed (s : Scheduler) : Type 0 where
  draining : s.draining ≡ true
  nobody : s.waiting ≡ []

drain-Closed : (s : Scheduler) → Closed (drain s)
unfolding drain
drain-Closed s = record { draining = refl; nobody = refl }

dispatch-Closed : (s : Scheduler) → InOrder s.waiting → Closed s → Closed (dispatch s)
dispatch-Closed s o h = record {
  draining = (dispatch-Grows s o).draining ∙ h.draining;
  nobody = dispatch_drained s h.nobody;
}

forget-Closed : (s : Scheduler) (c : Call) → Closed s → Closed (forget s c)
unfolding remove_waiter
forget-Closed s c h = record { draining = h.draining; nobody = rw h.nobody }

-- Once `drain` has begun, and whatever happens from then on, nobody waits, and each call of
-- `acquire` raises `Draining` and leaves the scheduler as it was.
pub drained_for_good :
    (workers : List String) (caps : String → Option ℕ) (n : ℕ) (s : Scheduler)
    (before after : List Event) (job : Job) (now : ℕ)
    → init workers caps n ≡ some s
    → let y = run (step (run (start s) before) shutdown) after in
      (y.sched.waiting ≡ []) × (acquire y.sched job now ≡ (refused Refusal.draining, y.sched))
unfolding step
drained_for_good workers caps n s before after job now made =
    let y = run (start s) before in
    let i = run-IsSound (start s) before (init-IsSound workers caps n s made) in
    let c =
      run_induction Closed (λ _. Unit {0}) (λ t j m a e h. cc (h.draining)) dispatch-Closed
        (λ t w j h. record { draining = h.draining; nobody = h.nobody }) forget-Closed
        (λ t f h. record { draining = h.draining; nobody = h.nobody }) (λ t h. drain-Closed t)
        (step y shutdown) after (any_event after) (step-IsSound y shutdown i)
        (drain-Closed y.sched) in
    (c.nobody, acquire_draining _ job now c.draining)

-- A second `release` of a lease changes nothing.
pub release_twice :
    (job : Job) (l : Lease) (s : Scheduler)
    → let (l', t) = release_lease job l s in release_lease job l' t ≡ (l', t)
release_twice job l s = elim (Bool-cases l.released) [
  | inl e ↦ rw (release_lease_again job l s e) (release_lease_again job l s e)
  | inr e ↦ rw (release_lease_first job l s e) (release_lease_again job _ _ refl)
]
