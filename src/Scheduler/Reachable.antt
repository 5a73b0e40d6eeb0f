-- ===== src/Scheduler/Reachable.antt =====
-- Every event keeps the invariant, so it holds in every reachable state.
use mathlib.Core.Option.{some-injective}
use opendss_designer_cloud.Base.{
  ℕ, ◌≤◌, ◌<◌, ◌≡◌, refl, sym, subst, inl, inr, String, true, false, Option, some, List, [], ◌∷◌,
  arith, dec_lt, ap, find?, length, Bool-cases, Option-cases,
}
use opendss_designer_cloud.Scheduler.{
  Job, Future, Scheduler, pending, result, failed, cancelled, init, idle, acquire, dispatch,
  enqueue, release_worker, Refusal, refused, queued, draining, queue_full, queue_timeout,
}
use opendss_designer_cloud.Scheduler.Calls.{
  Call, Phase, Lease, System, Event, arrive, resume, expire, unwind, release, shutdown, at_call,
  awaiting, expired, leased, over, has_seq, set_phase, step, run, on_resume, on_expire, on_unwind,
  on_release, release_lease, give_back, forget,
}
use opendss_designer_cloud.Scheduler.Slots.{holding, is_unset}
use opendss_designer_cloud.Scheduler.Invariant.{Inv, dispatch-Inv}
use opendss_designer_cloud.Scheduler.Arrival.{newcomer, enqueue-Tidy}
use opendss_designer_cloud.Scheduler.Steps.{
  rephase-Inv, release_worker-Inv, Other-of_set, Other-of_shut, seq_of_found,
}
use opendss_designer_cloud.Scheduler.Forget.{forget-Inv, forget-Other}
use opendss_designer_cloud.Scheduler.Expiry.{expire-Inv}
use opendss_designer_cloud.Scheduler.Drain.{drain-Inv}

abbrev pub IsSound : System → Type 0
IsSound y = Inv y.sched y.calls

abbrev pub start : Scheduler → System
start s = record { sched = s; calls = [] }

-- `acquire` on each of its branches.
module _ (s : Scheduler) (job : Job) (now : ℕ) where
  pub acquire_draining : s.draining ≡ true → acquire s job now ≡ (refused draining, s)
  unfolding acquire
  acquire_draining e = ground arith

  module _ (e : s.draining ≡ false) where
    pub acquire_full : s.max_queue ≤ length s.waiting → acquire s job now ≡ (refused queue_full, s)
    unfolding acquire
    acquire_full f = ground arith

    pub acquire_room :
        length s.waiting < s.max_queue
        → acquire s job now ≡ (queued s.next_seq, dispatch (enqueue s job now))
    unfolding acquire
    acquire_room f = ground arith

-- `Lease.release` on both of its branches.
module _ (job : Job) (l : Lease) (s : Scheduler) where
  pub release_lease_again : l.released ≡ true → release_lease job l s ≡ (l, s)
  unfolding release_lease
  release_lease_again e = ground arith

  pub release_lease_first :
      l.released ≡ false
      → release_lease job l s ≡ (record l { released = true }, release_worker s l.worker job)
  unfolding release_lease
  release_lease_first e = ground arith

arrive-IsSound : (y : System) (job : Job) (now : ℕ) → IsSound y → IsSound (step y (arrive job now))
unfolding step
arrive-IsSound y job now i = elim (Bool-cases y.sched.draining) [
  | inl e ↦ rw (acquire_draining y.sched job now e) i
  | inr e ↦ elim (dec_lt (length y.sched.waiting) y.sched.max_queue) [
    | no f ↦ rw (acquire_full y.sched job now e (omega arith)) i
    | yes f ↦ rw (acquire_room y.sched job now e f) (
        dispatch-Inv (enqueue y.sched job now) (newcomer y.sched y.calls job now i.tidy ∷ y.calls)
          (enqueue-Tidy y.sched y.calls job now i.tidy f e))
  ]
]

module _ (y : System) (c : Call) (found : find? (has_seq c.seq) y.calls ≡ some c)
    (i : IsSound y) where
  -- The waiter of a call whose future is set is no longer in the queue.
  resumed :
      (p : Phase)
      → is_unset (y.sched.futures c.seq) ≡ false
      → holding p (y.sched.futures c.seq) ≡ holding c.phase (y.sched.futures c.seq)
      → Inv y.sched (set_phase c.seq p y.calls)
  resumed p u h =
      rephase-Inv y.sched y.calls c c.seq found p h
        (Other-of_set y.sched.futures c.seq y.calls y.sched.waiting u i.links) i

  resume-IsSound :
      (p : Phase) (f : Future) (now : ℕ)
      → c.phase ≡ p
      → y.sched.futures c.seq ≡ f
      → IsSound (on_resume y c now p f)
  unfolding on_resume holding
  resume-IsSound awaiting (result worker) now e h = resumed _ (ground arith) (ground arith)
  resume-IsSound awaiting failed now e h = resumed _ (ground arith) (ground arith)
  resume-IsSound awaiting pending now e h = i
  resume-IsSound awaiting cancelled now e h = i
  resume-IsSound _ _ now e h = i

  expire-IsSound : (p : Phase) → c.phase ≡ p → IsSound (on_expire y c p)
  unfolding on_expire
  expire-IsSound awaiting e = expire-Inv y.sched y.calls c c.seq found e i
  expire-IsSound _ e = i

  quiet :
      (r : Refusal)
      → holding (over r) (y.sched.futures c.seq) ≡ holding c.phase (y.sched.futures c.seq)
      → Inv (forget y.sched c) (set_phase c.seq (over r) y.calls)
  quiet r h =
      rephase-Inv (forget y.sched c) y.calls c c.seq found (over r) h
        (forget-Other y.sched y.calls c c.seq found i.tidy)
        (forget-Inv y.sched y.calls c c.seq found i)

  given_back :
      (f : Future)
      → c.phase ≡ expired
      → y.sched.futures c.seq ≡ f
      → let r = give_back (forget y.sched c) c.job f in Inv r.0 (set_phase c.seq (over r.1) y.calls)
  unfolding give_back holding
  given_back (result worker) e h =
      release_worker-Inv (forget y.sched c) y.calls c c.seq found (over queue_timeout) worker
        i.distinct (ground arith) refl (forget-Other y.sched y.calls c c.seq found i.tidy)
        (forget-Inv y.sched y.calls c c.seq found i).tidy
  given_back pending e h = quiet queue_timeout (ground arith)
  given_back failed e h = quiet draining (ground arith)
  given_back cancelled e h = quiet queue_timeout (ground arith)

  unwind-IsSound : (p : Phase) → c.phase ≡ p → IsSound (on_unwind y c p)
  unfolding on_unwind
  unwind-IsSound expired e = given_back (y.sched.futures c.seq) e refl
  unwind-IsSound _ e = i

  release-IsSound : (p : Phase) → c.phase ≡ p → IsSound (on_release y c p)
  unfolding on_release holding
  release-IsSound (leased l) e = elim (Bool-cases l.released) [
    | inl r ↦ rw (release_lease_again c.job l y.sched r) (
        rephase-Inv y.sched y.calls c c.seq found (leased l) (ground arith)
          (Other-of_shut y.sched.futures c.seq y.calls c y.sched.waiting found (ground arith)
            i.links)
          i)
    | inr r ↦ rw (release_lease_first c.job l y.sched r) (
        release_worker-Inv y.sched y.calls c c.seq found (leased (record l { released = true }))
          l.worker i.distinct (ground arith) refl
          (Other-of_shut y.sched.futures c.seq y.calls c y.sched.waiting found (ground arith)
            i.links)
          i.tidy)
  ]
  release-IsSound _ e = i

-- An event at a call: the call is the one of that seq.
at_found :
    (y : System) (k : ℕ) (f : Call → System)
    → ((c : Call) → find? (has_seq c.seq) y.calls ≡ some c → c.seq ≡ k → IsSound (f c))
    → IsSound y
    → IsSound (at_call y k f)
at_found y k f h i = elim (Option-cases (find? (has_seq k) y.calls)) [
  | inl e ↦ rw (e, at_call) i
  | inr (c, e) ↦
      let m = seq_of_found k y.calls c e in
      rw (e, at_call) (h c (subst (λ j. find? (has_seq j) y.calls ≡ some c) (sym m) e) m)
]

-- Every event keeps the invariant.
pub step-IsSound : (y : System) (e : Event) → IsSound y → IsSound (step y e)
unfolding step
step-IsSound y (arrive job now) i = arrive-IsSound y job now i
step-IsSound y (resume k now) i =
    at_found y k (λ c. on_resume y c now c.phase (y.sched.futures k))
      (λ c e m. resume-IsSound y c e i c.phase (y.sched.futures k) now refl (ap y.sched.futures m))
      i
step-IsSound y (expire k) i =
    at_found y k (λ c. on_expire y c c.phase) (λ c e m. expire-IsSound y c e i c.phase refl) i
step-IsSound y (unwind k) i =
    at_found y k (λ c. on_unwind y c c.phase) (λ c e m. unwind-IsSound y c e i c.phase refl) i
step-IsSound y (release k) i =
    at_found y k (λ c. on_release y c c.phase) (λ c e m. release-IsSound y c e i c.phase refl) i
step-IsSound y shutdown i = drain-Inv y.sched y.calls i

pub run-IsSound : (y : System) (es : List Event) → IsSound y → IsSound (run y es)
unfolding run
run-IsSound y [] i = i
run-IsSound y (e ∷ es) i = run-IsSound (step y e) es (step-IsSound y e i)

-- A new scheduler is sound.
idle-IsSound :
    (workers : List String) (caps : String → Option ℕ) (n : ℕ)
    → IsSound (start (idle workers caps n))
idle-IsSound workers caps n = record {
  tidy = record {
    distinct = tt;
    fresh = tt;
    below = tt;
    order = tt;
    links = tt;
    books = record { pools = λ p. refl; clients = λ k. refl; stock = λ φ. omega arith };
    capped = λ p cap e. omega arith;
    bounded = omega arith;
    drained = λ e. refl;
  };
  settled = inr tt;
}

pub init-IsSound :
    (workers : List String) (caps : String → Option ℕ) (n : ℕ) (s : Scheduler)
    → init workers caps n ≡ some s
    → IsSound (start s)
unfolding init
init-IsSound [] caps n s e = cc
init-IsSound (w ∷ ws) caps n s e =
    subst (λ t. IsSound (start t)) (some-injective (idle (w ∷ ws) caps n) s e)
      (idle-IsSound (w ∷ ws) caps n)
