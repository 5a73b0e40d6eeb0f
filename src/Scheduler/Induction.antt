-- ===== src/Scheduler/Induction.antt =====
-- A rule for what every event keeps of the scheduler: one premise for each way in which it changes.
use opendss_designer_cloud.Base.{
  ℕ, ◌≡◌, inl, inr, String, false, List, [], ◌∷◌, ◌++◌, arith, dec_lt, length, Bool-cases,
  Option-cases, find?, decrement, All,
}
use opendss_designer_cloud.Scheduler.{
  Job, Future, Scheduler, pending, result, failed, cancelled, enqueue, release_worker, dispatch,
  drain,
}
use opendss_designer_cloud.Scheduler.Calls.{
  Call, Phase, System, Event, arrive, resume, expire, unwind, release, shutdown, awaiting, expired,
  leased, has_seq, step, run, on_resume, on_expire, on_unwind, on_release, give_back, forget,
  at_call,
}
use opendss_designer_cloud.Scheduler.Queue.{InOrder, remove_waiter-InOrder}
use opendss_designer_cloud.Scheduler.Arrival.{enqueue-Tidy}
use opendss_designer_cloud.Scheduler.Reachable.{
  IsSound, step-IsSound, acquire_draining, acquire_full, acquire_room, release_lease_again,
  release_lease_first,
}

-- The state in which `_release` dispatches.
abbrev pub returned : Scheduler → String → Job → Scheduler
returned s w job = record s {
  free = s.free ++ w ∷ [];
  pool_inuse = decrement job.pool s.pool_inuse;
  client_inuse = decrement job.client s.client_inuse;
}

-- What is asked of the jobs that arrive.
abbrev pub Admissible : (Job → Type 0) → Event → Type 0
Admissible Asked (arrive job _) = Asked job
Admissible Asked (resume _ _) = Unit {0}
Admissible Asked (expire _) = Unit {0}
Admissible Asked (unwind _) = Unit {0}
Admissible Asked (release _) = Unit {0}
Admissible Asked shutdown = Unit {0}

module _ (P : Scheduler → Type 0) (Asked : Job → Type 0)
    (enqueues : (s : Scheduler) (job : Job) (now : ℕ)
      → Asked job
      → s.draining ≡ false
      → P s
      → P (enqueue s job now))
    (dispatches : (s : Scheduler) → InOrder s.waiting → P s → P (dispatch s))
    (returns : (s : Scheduler) (w : String) (job : Job) → P s → P (returned s w job))
    (forgets : (s : Scheduler) (c : Call) → P s → P (forget s c))
    (refutures : (s : Scheduler) (f : ℕ → Future) → P s → P (record s { futures = f }))
    (drains : (s : Scheduler) → P s → P (drain s)) where
  release_worker-keeps :
      (s : Scheduler) (w : String) (job : Job)
      → InOrder s.waiting
      → P s
      → P (release_worker s w job)
  unfolding release_worker
  release_worker-keeps s w job o p = dispatches (returned s w job) o (returns s w job p)

  arrive-keeps :
      (y : System) (job : Job) (now : ℕ)
      → Asked job
      → IsSound y
      → P y.sched
      → P (step y (arrive job now)).sched
  unfolding step
  arrive-keeps y job now a i p = elim (Bool-cases y.sched.draining) [
    | inl e ↦ rw (acquire_draining y.sched job now e) p
    | inr e ↦ elim (dec_lt (length y.sched.waiting) y.sched.max_queue) [
      | no f ↦ rw (acquire_full y.sched job now e (omega arith)) p
      | yes f ↦ rw (acquire_room y.sched job now e f) (
          dispatches (enqueue y.sched job now)
            (enqueue-Tidy y.sched y.calls job now i.tidy f e).order
            (enqueues y.sched job now a e p))
    ]
  ]

  module _ (y : System) (i : IsSound y) (c : Call) (p : P y.sched) where
    resume-keeps : (q : Phase) (f : Future) (now : ℕ) → P (on_resume y c now q f).sched
    unfolding on_resume
    resume-keeps awaiting (result worker) now = p
    resume-keeps awaiting failed now = p
    resume-keeps awaiting pending now = p
    resume-keeps awaiting cancelled now = p
    resume-keeps _ _ now = p

    expire-keeps : (q : Phase) → P (on_expire y c q).sched
    unfolding on_expire
    expire-keeps awaiting = refutures y.sched _ p
    expire-keeps _ = p

    give_back-keeps : (f : Future) → P (give_back (forget y.sched c) c.job f).0
    unfolding give_back
    give_back-keeps (result worker) =
        release_worker-keeps (forget y.sched c) worker c.job
          (remove_waiter-InOrder c.job.priority c.seq y.sched.waiting i.order) (forgets y.sched c p)
    give_back-keeps pending = forgets y.sched c p
    give_back-keeps failed = forgets y.sched c p
    give_back-keeps cancelled = forgets y.sched c p

    unwind-keeps : (q : Phase) → P (on_unwind y c q).sched
    unfolding on_unwind
    unwind-keeps expired = give_back-keeps (y.sched.futures c.seq)
    unwind-keeps _ = p

    release-keeps : (q : Phase) → P (on_release y c q).sched
    unfolding on_release
    release-keeps (leased l) = elim (Bool-cases l.released) [
      | inl r ↦ rw (release_lease_again c.job l y.sched r) p
      | inr r ↦
          rw (release_lease_first c.job l y.sched r)
            (release_worker-keeps y.sched l.worker c.job i.order p)
    ]
    release-keeps _ = p

  at_call-keeps :
      (y : System) (k : ℕ) (f : Call → System)
      → P y.sched
      → ((c : Call) → P (f c).sched)
      → P (at_call y k f).sched
  at_call-keeps y k f p h = elim (Option-cases (find? (has_seq k) y.calls)) [
    | inl e ↦ rw (e, at_call) p
    | inr (c, e) ↦ rw (e, at_call) (h c)
  ]

  step-keeps :
      (y : System) (e : Event) → Admissible Asked e → IsSound y → P y.sched → P (step y e).sched
  unfolding step
  step-keeps y (arrive job now) a i p = arrive-keeps y job now a i p
  step-keeps y (resume k now) a i p =
      at_call-keeps y k (λ c. on_resume y c now c.phase (y.sched.futures k)) p
        (λ c. resume-keeps y i c p c.phase (y.sched.futures k) now)
  step-keeps y (expire k) a i p =
      at_call-keeps y k (λ c. on_expire y c c.phase) p (λ c. expire-keeps y i c p c.phase)
  step-keeps y (unwind k) a i p =
      at_call-keeps y k (λ c. on_unwind y c c.phase) p (λ c. unwind-keeps y i c p c.phase)
  step-keeps y (release k) a i p =
      at_call-keeps y k (λ c. on_release y c c.phase) p (λ c. release-keeps y i c p c.phase)
  step-keeps y shutdown a i p = drains y.sched p

  pub run_induction :
      (y : System) (es : List Event)
      → All (Admissible Asked) es
      → IsSound y
      → P y.sched
      → P (run y es).sched
  unfolding run
  run_induction y [] a i p = p
  run_induction y (e ∷ es) a i p =
      run_induction (step y e) es a.1 (step-IsSound y e i) (step-keeps y e a.0 i p)
