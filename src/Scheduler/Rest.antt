-- ===== src/Scheduler/Rest.antt =====
-- Every reachable state can come to rest: its calls end, nobody waits and every worker is free.
use opendss_designer_cloud.Base.{
  ℕ, ◌+◌, ◌≡◌, ◌⊎◌, refl, sym, subst, ◌∙◌, String, Bool, true, false, ◌||◌, inl, inr, Option, none,
  some, List, [], ◌∷◌, ◌++◌, arith, ◌==◌, find?, All, Bool-cases, Option-cases, List-cases, total,
}
use opendss_designer_cloud.Scheduler.{Job, Future, Scheduler, init, inflight}
use opendss_designer_cloud.Scheduler.Calls.{
  Call, Phase, System, Event, expire, unwind, release, awaiting, expired, leased, over, has_seq,
  step, run, on_expire, on_unwind, on_release,
}
use opendss_designer_cloud.Scheduler.Slots.{Distinct, Linked, held, weigh, holding, is_open}
use opendss_designer_cloud.Scheduler.Reachable.{start, run-IsSound, init-IsSound}
use opendss_designer_cloud.Scheduler.Guarantees.{workers_conserved, inflight_holders}
use opendss_designer_cloud.Scheduler.Settle.{
  give_up, give_up_all, is_cut, is_unwound, is_settled, at, at_found, at-none, IsProgress,
  at_call-at, expire-keeps, unwind-keeps, release-keeps, on_expire-cut, on_unwind-unwound,
  on_release-settled,
}

cut : IsProgress is_cut
cut = record { waits = refl; ends = λ r. refl; returns = λ l h. refl }

unwound : IsProgress is_unwound
unwound = record { waits = refl; ends = λ r. refl; returns = λ l h. refl }

settled : IsProgress is_settled
settled = record { waits = refl; ends = λ r. refl; returns = λ l h. refl }

module _ (y : System) (k : ℕ) where
  expire-cut : at is_cut (step y (expire k)).calls k ≡ true
  unfolding step
  expire-cut =
      at_call-at is_cut y k k (λ c. on_expire y c c.phase)
        (λ c e m.
          subst (λ i. at is_cut (on_expire y c c.phase).calls i ≡ true) m
            (on_expire-cut y c e c.phase refl))
        (λ e. at-none is_cut y.calls k e)

  unwind-unwound : at is_cut y.calls k ≡ true → at is_unwound (step y (unwind k)).calls k ≡ true
  unfolding step
  unwind-unwound h =
      at_call-at is_unwound y k k (λ c. on_unwind y c c.phase)
        (λ c e m.
          subst (λ i. at is_unwound (on_unwind y c c.phase).calls i ≡ true) m
            (on_unwind-unwound y c e c.phase refl
              (subst (λ i. at is_cut y.calls i ≡ true) (sym m) h)))
        (λ e. at-none is_unwound y.calls k e)

  release-settled :
      at is_unwound y.calls k ≡ true → at is_settled (step y (release k)).calls k ≡ true
  unfolding step
  release-settled h =
      at_call-at is_settled y k k (λ c. on_release y c c.phase)
        (λ c e m.
          subst (λ i. at is_settled (on_release y c c.phase).calls i ≡ true) m
            (on_release-settled y c e c.phase refl
              (subst (λ i. at is_unwound y.calls i ≡ true) (sym m) h)))
        (λ e. at-none is_settled y.calls k e)

-- The state after one call was given up.
abbrev given_up : System → ℕ → System
given_up y k = step (step (step y (expire k)) (unwind k)) (release k)

given_up-settled : (y : System) (k : ℕ) → at is_settled (given_up y k).calls k ≡ true
given_up-settled y k =
    release-settled (step (step y (expire k)) (unwind k)) k
      (unwind-unwound (step y (expire k)) k (expire-cut y k))

given_up-keeps :
    (y : System) (k j : ℕ)
    → at is_settled y.calls j ≡ true
    → at is_settled (given_up y k).calls j ≡ true
given_up-keeps y k j a =
    release-keeps is_settled settled (step (step y (expire k)) (unwind k)) k j (
      unwind-keeps is_settled settled (step y (expire k)) k j
        (expire-keeps is_settled settled y k j a))

abbrev mem : ℕ → List ℕ → Bool
mem j [] = false
mem j (k ∷ ks) = j == k || mem j ks

abbrev pub seqs : List Call → List ℕ
seqs [] = []
seqs (c ∷ cs) = c.seq ∷ seqs cs

all_given_up :
    (y : System) (ks : List ℕ) (j : ℕ)
    → (at is_settled y.calls j ≡ true) ⊎ (mem j ks ≡ true)
    → at is_settled (run y (give_up_all ks)).calls j ≡ true
unfolding run give_up_all give_up
all_given_up y [] j (inl a) = a
all_given_up y [] j (inr m) = cc
all_given_up y (k ∷ ks) j h = all_given_up (given_up y k) ks j (next h)
  where
    next :
        (at is_settled y.calls j ≡ true) ⊎ (mem j (k ∷ ks) ≡ true)
        → (at is_settled (given_up y k).calls j ≡ true) ⊎ (mem j ks ≡ true)
    next (inl a) = inl (given_up-keeps y k j a)
    next (inr m) = elim (Bool-cases (j == k)) [
      | inl e ↦
          let same_seq : k ≡ j = ground arith in
          inl (
            subst (λ i. at is_settled (given_up y k).calls i ≡ true) same_seq
              (given_up-settled y k))
      | inr e ↦ inr (ground arith)
    ]

-- A call's seq is on the list of all of them.
listed : (cs : List Call) (j : ℕ) → (find? (has_seq j) cs ≡ none) ⊎ (mem j (seqs cs) ≡ true)
listed [] j = inl refl
listed (c ∷ cs) j = elim (Bool-cases (c.seq == j)) [
  | inl e ↦ inr (ground arith)
  | inr e ↦ elim (listed cs j) [ inl n ↦ inl (rw e n) | inr m ↦ inr (ground arith) ]
]

-- Calls that are all settled hold no worker, and none of them is suspended.
settled_empty : (p : Phase) (f : Future) → is_settled p ≡ true → holding p f ≡ none
unfolding holding
settled_empty awaiting f h = cc
settled_empty expired f h = cc
settled_empty (leased l) f h = rw h refl
settled_empty (over r) f h = refl

at_head : (c : Call) (cs : List Call) → at is_settled (c ∷ cs) c.seq ≡ is_settled c.phase
at_head c cs = at_found is_settled (c ∷ cs) c.seq c (ground arith)

at_tail :
    (c : Call) (cs : List Call) (j : ℕ)
    → find? (has_seq c.seq) cs ≡ none
    → at is_settled (c ∷ cs) j ≡ true
    → at is_settled cs j ≡ true
at_tail c cs j n h = elim (Bool-cases (c.seq == j)) [
  | inl e ↦
      let m : c.seq ≡ j = ground arith in
      at-none is_settled cs j (subst (λ i. find? (has_seq i) cs ≡ none) m n)
  | inr e ↦ elim (Option-cases (find? (has_seq j) cs)) [
    | inl f ↦ at-none is_settled cs j f
    | inr (d, f) ↦
        at_found is_settled cs j d f ∙ sym (at_found is_settled (c ∷ cs) j d (rw e f)) ∙ h
  ]
]

settled-held :
    (φ : String → Job → ℕ) (futures : ℕ → Future) (cs : List Call)
    → Distinct cs
    → ((j : ℕ) → at is_settled cs j ≡ true)
    → held φ futures cs ≡ 0
unfolding weigh
settled-held φ futures [] d h = refl
settled-held φ futures (c ∷ cs) d h =
    let empty = settled_empty c.phase (futures c.seq) (sym (at_head c cs) ∙ h c.seq) in
    rw empty (omega (arith, settled-held φ futures cs d.1 (λ j. at_tail c cs j d.0 (h j))))

open_unsettled : (p : Phase) → is_open p ≡ true → is_settled p ≡ false
open_unsettled p h = ground arith

settled-waiting :
    (s : Scheduler) (cs : List Call)
    → All (Linked s.futures cs) s.waiting
    → ((j : ℕ) → at is_settled cs j ≡ true)
    → s.waiting ≡ []
settled-waiting s cs l h = elim (List-cases s.waiting) [
  | inl e ↦ e
  | inr (w, ws, e) ↦
      let link = (subst (All (Linked s.futures cs)) e l).0 in
      cc (
        at_found is_settled cs w.seq link.call link.found,
        open_unsettled link.call.phase link.suspended,
        h w.seq,
      )
]

pub run-append : (y : System) (es fs : List Event) → run (run y es) fs ≡ run y (es ++ fs)
unfolding run
run-append y [] fs = refl
run-append y (e ∷ es) fs = run-append (step y e) es fs

all_settled :
    (y : System) (j : ℕ) → at is_settled (run y (give_up_all (seqs y.calls))).calls j ≡ true
all_settled y j =
    all_given_up y (seqs y.calls) j
      (elim (listed y.calls j) [ inl n ↦ inl (at-none is_settled y.calls j n) | inr m ↦ inr m ])

-- From every state that a scheduler can be brought to: if each call is cut off where it waits and
-- gives back the worker that it has, then nobody waits, no call is in flight, and the
-- free workers are those that the scheduler was made with, in some order.
pub comes_to_rest :
    (workers : List String) (caps : String → Option ℕ) (n : ℕ) (s : Scheduler) (es : List Event)
    → init workers caps n ≡ some s
    → let y = run (start s) es in
      let z = run y (give_up_all (seqs y.calls)) in
      (z.sched.waiting ≡ [])
      × (inflight z.sched ≡ 0)
      × ((φ : String → ℕ) → total φ z.sched.free ≡ total φ workers)
comes_to_rest workers caps n s es made =
    let y = run (start s) es in
    let fs = give_up_all (seqs y.calls) in
    let z = run y fs in
    let m : z ≡ run (start s) (es ++ fs) = run-append (start s) es fs in
    let i = run-IsSound y fs (run-IsSound (start s) es (init-IsSound workers caps n s made)) in
    let idle =
      λ (φ : String → Job → ℕ). settled-held φ z.sched.futures z.calls i.distinct (all_settled y) in
    (
      settled-waiting z.sched z.calls i.links (all_settled y),
      subst (λ x. inflight x.sched ≡ held (λ _ _. 1) x.sched.futures x.calls) (sym m)
            (inflight_holders workers caps n s made (es ++ fs))
          ∙ idle (λ _ _. 1),
      λ φ. omega (
        arith,
        idle (λ w _. φ w),
        subst
            (λ x.
              total φ x.sched.free + held (λ w _. φ w) x.sched.futures x.calls ≡ total φ workers)
            (sym m) (workers_conserved workers caps n s made (es ++ fs) φ),
      ),
    )
