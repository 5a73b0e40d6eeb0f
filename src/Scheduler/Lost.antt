-- ===== src/Scheduler/Lost.antt =====
-- A lease that nobody releases: its worker is never free again.
use mathlib.Core.Option.{some-injective}
use opendss_designer_cloud.Base.{
  ℕ, ◌≤◌, ◌<◌, ◌≡◌, refl, sym, ap, subst, ◌∙◌, ◌⊎◌, inl, inr, String, Bool, true, false, Option,
  some, List, [], ◌∷◌, ◌++◌, arith, ◌==◌, All, Bool-cases, Option-cases, dec_lt, find?, length,
}
use opendss_designer_cloud.Scheduler.{
  Job, Future, Scheduler, init, inflight, pending, result, failed, cancelled,
}
use opendss_designer_cloud.Scheduler.Calls.{
  Call, Phase, Lease, System, Event, arrive, resume, expire, unwind, release, shutdown, at_call,
  awaiting, expired, leased, over, has_seq, set_phase, step, run, on_resume, on_expire, on_unwind,
  on_release,
}
use opendss_designer_cloud.Scheduler.Slots.{held, weigh, holding, find?-set_phase}
use opendss_designer_cloud.Scheduler.Steps.{seq_of_found}
use opendss_designer_cloud.Scheduler.Reachable.{
  IsSound, start, step-IsSound, run-IsSound, init-IsSound, acquire_draining, acquire_full,
  acquire_room,
}
use opendss_designer_cloud.Scheduler.Rest.{run-append}
use opendss_designer_cloud.Scheduler.Guarantees.{inflight_holders}

abbrev pub is_release : ℕ → Event → Bool
is_release k (release j) = j == k
is_release k (arrive job now) = false
is_release k (resume j now) = false
is_release k (expire j) = false
is_release k (unwind j) = false
is_release k shutdown = false

-- A step at one call changes the phase of no other.
abbrev Touches : System → ℕ → System → Type 0
Touches y j z = (z.calls ≡ y.calls) ⊎ ((q : Phase) × (z.calls ≡ set_phase j q y.calls))

resume-Touches :
    (y : System) (c : Call) (now : ℕ) (p : Phase) (f : Future)
    → Touches y c.seq (on_resume y c now p f)
unfolding on_resume
resume-Touches y c now awaiting (result worker) = inr (_, refl)
resume-Touches y c now awaiting failed = inr (_, refl)
resume-Touches y c now awaiting pending = inl refl
resume-Touches y c now awaiting cancelled = inl refl
resume-Touches y c now expired f = inl refl
resume-Touches y c now (leased l) f = inl refl
resume-Touches y c now (over r) f = inl refl

expire-Touches : (y : System) (c : Call) (p : Phase) → Touches y c.seq (on_expire y c p)
unfolding on_expire
expire-Touches y c awaiting = inr (_, refl)
expire-Touches y c expired = inl refl
expire-Touches y c (leased l) = inl refl
expire-Touches y c (over r) = inl refl

unwind-Touches : (y : System) (c : Call) (p : Phase) → Touches y c.seq (on_unwind y c p)
unfolding on_unwind
unwind-Touches y c expired = inr (_, refl)
unwind-Touches y c awaiting = inl refl
unwind-Touches y c (leased l) = inl refl
unwind-Touches y c (over r) = inl refl

release-Touches : (y : System) (c : Call) (p : Phase) → Touches y c.seq (on_release y c p)
unfolding on_release
release-Touches y c (leased l) = inr (_, refl)
release-Touches y c awaiting = inl refl
release-Touches y c expired = inl refl
release-Touches y c (over r) = inl refl

module _ (k : ℕ) (c : Call) where
  untouched :
      (y z : System) (j : ℕ)
      → (k == j) ≡ false
      → Touches y j z
      → find? (has_seq k) y.calls ≡ some c
      → find? (has_seq k) z.calls ≡ some c
  untouched y z j d (inl e) h = ap (find? (has_seq k)) e ∙ h
  untouched y z j d (inr (q, e)) h =
      ap (find? (has_seq k)) e ∙ find?-set_phase k j q y.calls ∙ rw d h

  -- An event at a call: another one, or the leased one, which it leaves alone.
  at_call-kept :
      (y : System) (j : ℕ) (f : Call → System)
      → find? (has_seq k) y.calls ≡ some c
      → (((k == j) ≡ true) → f c ≡ y)
      → ((d : Call) → Touches y d.seq (f d))
      → find? (has_seq k) (at_call y j f).calls ≡ some c
  at_call-kept y j f h own other = elim (Option-cases (find? (has_seq j) y.calls)) [
    | inl e ↦ rw (e, at_call) h
    | inr (d, e) ↦ elim (Bool-cases (k == j)) [
      | inl m ↦
          let same_seq : k ≡ j = ground arith in
          let same_call : d ≡ c =
            some-injective d c
              (sym e ∙ subst (λ i. find? (has_seq i) y.calls ≡ some c) same_seq h) in
          rw (e, at_call)
            (subst (λ x. find? (has_seq k) (f x).calls ≡ some c) (sym same_call)
              (ap (λ z. find? (has_seq k) z.calls) (own m) ∙ h))
      | inr m ↦
          let at_j : d.seq ≡ j = seq_of_found j y.calls d e in
          rw (e, at_call)
            (untouched y (f d) d.seq (subst (λ i. (k == i) ≡ false) (sym at_j) m) (other d) h)
    ]
  ]

fresh_found :
    (n k : ℕ) (cs : List Call) (c : Call)
    → All (λ d. d.seq < n) cs
    → find? (has_seq k) cs ≡ some c
    → k < n
fresh_found n k [] c a h = cc
fresh_found n k (d ∷ cs) c a h = ground (arith, fresh_found n k cs c)

-- The call of a lease that is not released.
record IsLeased (y : System) (k : ℕ) (c : Call) : Type 0 where
  lease : Lease
  found : find? (has_seq k) y.calls ≡ some c
  phase : c.phase ≡ leased lease
  unreleased : lease.released ≡ false

module _ (k : ℕ) (c : Call) (y : System) (i : IsSound y) (h : IsLeased y k c) where
  on_call :
      (j : ℕ) (f : Call → Phase → System)
      → ((d : Call) → Touches y d.seq (f d d.phase))
      → f c (leased h.lease) ≡ y
      → find? (has_seq k) (at_call y j (λ d. f d d.phase)).calls ≡ some c
  on_call j f other own =
      at_call-kept k c y j (λ d. f d d.phase) h.found (λ m. ap (f c) h.phase ∙ own) other

  arrive-kept : (job : Job) (now : ℕ) → find? (has_seq k) (step y (arrive job now)).calls ≡ some c
  unfolding step
  arrive-kept job now = elim (Bool-cases y.sched.draining) [
    | inl e ↦ rw (acquire_draining y.sched job now e) h.found
    | inr e ↦ elim (dec_lt (length y.sched.waiting) y.sched.max_queue) [
      | no f ↦ rw (acquire_full y.sched job now e (omega arith)) h.found
      | yes f ↦
          rw (acquire_room y.sched job now e f)
            (ground (arith, fresh_found y.sched.next_seq k y.calls c i.fresh h.found, h.found))
    ]
  ]

  step-kept : (e : Event) → is_release k e ≡ false → find? (has_seq k) (step y e).calls ≡ some c
  unfolding step on_resume on_expire on_unwind
  step-kept (arrive job now) n = arrive-kept job now
  step-kept (resume j now) n =
      on_call j (λ d p. on_resume y d now p (y.sched.futures j))
        (λ d. resume-Touches y d now d.phase (y.sched.futures j)) refl
  step-kept (expire j) n = on_call j (on_expire y) (λ d. expire-Touches y d d.phase) refl
  step-kept (unwind j) n = on_call j (on_unwind y) (λ d. unwind-Touches y d d.phase) refl
  step-kept (release j) n =
      at_call-kept k c y j (λ d. on_release y d d.phase) h.found (λ m. absurd (ground arith))
        (λ d. release-Touches y d d.phase)
  step-kept shutdown n = h.found

run-IsLeased :
    (k : ℕ) (c : Call) (y : System) (es : List Event)
    → IsSound y
    → IsLeased y k c
    → All (λ e. is_release k e ≡ false) es
    → IsLeased (run y es) k c
unfolding run
run-IsLeased k c y [] i h a = h
run-IsLeased k c y (e ∷ es) i h a =
    run-IsLeased k c (step y e) es (step-IsSound y e i)
      (record {
        lease = h.lease;
        found = step-kept k c y i h e a.0;
        phase = h.phase;
        unreleased = h.unreleased;
      })
      a.1

held_found :
    (futures : ℕ → Future) (k : ℕ) (cs : List Call) (c : Call) (l : Lease)
    → find? (has_seq k) cs ≡ some c
    → c.phase ≡ leased l
    → l.released ≡ false
    → 1 ≤ held (λ _ _. 1) futures cs
unfolding weigh holding
held_found futures k [] c l h p r = cc
held_found futures k (d ∷ cs) c l h p r = elim (Bool-cases (d.seq == k)) [
  | inl e ↦
      let same_call : d ≡ c = some-injective d c (ground arith) in
      rw (ap (λ (x : Call). x.phase) same_call, p, r) (omega arith)
  | inr e ↦ omega (arith, held_found futures k cs c l (ground arith) p r)
]

-- A scheduler that was made and then used, with a call that has been granted a lease: if nobody
-- releases it, its worker is never free again, whatever else happens.
pub lost_lease :
    (workers : List String) (caps : String → Option ℕ) (n : ℕ) (s : Scheduler) (es fs : List Event)
    (k : ℕ) (c : Call) (l : Lease)
    → init workers caps n ≡ some s
    → find? (has_seq k) (run (start s) es).calls ≡ some c
    → c.phase ≡ leased l
    → l.released ≡ false
    → All (λ e. is_release k e ≡ false) fs
    → 1 ≤ inflight (run (run (start s) es) fs).sched
lost_lease workers caps n s es fs k c l made found phase unreleased a =
    let y = run (start s) es in
    let sound = run-IsSound (start s) es (init-IsSound workers caps n s made) in
    let h =
      run-IsLeased k c y fs sound
        (record { lease = l; found = found; phase = phase; unreleased = unreleased }) a in
    let z = run y fs in
    subst (λ x. 1 ≤ inflight x.sched) (sym (run-append (start s) es fs))
      (subst (λ m. 1 ≤ m) (sym (inflight_holders workers caps n s made (es ++ fs)))
        (subst (λ x. 1 ≤ held (λ _ _. 1) x.sched.futures x.calls) (run-append (start s) es fs)
          (held_found z.sched.futures k z.calls c h.lease h.found h.phase h.unreleased)))
