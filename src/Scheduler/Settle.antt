-- ===== src/Scheduler/Settle.antt =====
-- The way to rest: each call in turn is given up, or gives its worker back.
use opendss_designer_cloud.Base.{
  ℕ, ◌≡◌, refl, ap, sym, subst, ◌∙◌, Bool, true, false, inl, inr, none, some, List, [], ◌∷◌, arith,
  ◌==◌, find?, Bool-cases, Option-cases,
}
use opendss_designer_cloud.Scheduler.{Job, Scheduler, Refusal}
use opendss_designer_cloud.Scheduler.Calls.{
  Call, Phase, Lease, System, Event, expire, unwind, release, at_call, awaiting, expired, leased,
  over, has_seq, set_phase, with_phase, step, on_expire, on_unwind, on_release, release_lease,
  give_back, forget,
}
use opendss_designer_cloud.Scheduler.Slots.{find?-set_phase}
use opendss_designer_cloud.Scheduler.Steps.{seq_of_found}

-- What a request does at the end of its call, whatever it is in: its wait is cut off and unwound, and
-- its lease is released.
unfoldable pub give_up : ℕ → List Event → List Event
give_up k es = expire k ∷ unwind k ∷ release k ∷ es

unfoldable pub give_up_all : List ℕ → List Event
give_up_all [] = []
give_up_all (k ∷ ks) = give_up k (give_up_all ks)

-- How far a call is: past its wait, past its `except` block, and with no worker.
abbrev pub is_cut : Phase → Bool
is_cut awaiting = false
is_cut expired = true
is_cut (leased _) = true
is_cut (over _) = true

abbrev pub is_unwound : Phase → Bool
is_unwound awaiting = false
is_unwound expired = false
is_unwound (leased _) = true
is_unwound (over _) = true

abbrev pub is_settled : Phase → Bool
is_settled awaiting = false
is_settled expired = false
is_settled (leased l) = l.released
is_settled (over _) = true

-- A test of the call of a seq, if there is one.
abbrev pub at : (Phase → Bool) → List Call → ℕ → Bool
at p cs k = elim (find? (has_seq k) cs) [ none ↦ true | some c ↦ p c.phase ]

pub at_found :
    (p : Phase → Bool) (cs : List Call) (k : ℕ) (c : Call)
    → find? (has_seq k) cs ≡ some c
    → at p cs k ≡ p c.phase
at_found p cs k c e = rw (e, at) refl

pub at-none :
    (p : Phase → Bool) (cs : List Call) (k : ℕ) → find? (has_seq k) cs ≡ none → at p cs k ≡ true
at-none p cs k e = rw (e, at) refl

-- A new phase of the call of `k` passes a test there, and keeps what passed before.
module _ (p : Phase → Bool) (k : ℕ) (q : Phase) (cs : List Call) where
  at-set_phase_self : p q ≡ true → at p (set_phase k q cs) k ≡ true
  at-set_phase_self h = elim (Option-cases (find? (has_seq k) cs)) [
    | inl e ↦ at-none p (set_phase k q cs) k (ground (arith, find?-set_phase k k q cs))
    | inr (c, e) ↦
        at_found p (set_phase k q cs) k (with_phase q c) (ground (arith, find?-set_phase k k q cs))
        ∙ h
  ]

  at-set_phase_keep :
      (j : ℕ) (c : Call)
      → find? (has_seq k) cs ≡ some c
      → (p c.phase ≡ true → p q ≡ true)
      → at p cs j ≡ true
      → at p (set_phase k q cs) j ≡ true
  at-set_phase_keep j c e h a = elim (Bool-cases (j == k)) [
    | inl same_seq ↦
        let m : j ≡ k = ground arith in
        subst (λ i. at p (set_phase k q cs) i ≡ true) (sym m)
          (at-set_phase_self (h (sym (at_found p cs k c e) ∙ ap (at p cs) (sym m) ∙ a)))
    | inr other ↦ elim (Option-cases (find? (has_seq j) cs)) [
      | inl n ↦ at-none p (set_phase k q cs) j (find?-set_phase j k q cs ∙ rw other n)
      | inr (d, f) ↦
          at_found p (set_phase k q cs) j d (find?-set_phase j k q cs ∙ rw other f)
          ∙ sym (at_found p cs j d f)
          ∙ a
    ]
  ]

released_lem :
    (job : Job) (l : Lease) (s : Scheduler)
    → (release_lease job l s).0 ≡ record l { released = true }
unfolding release_lease
released_lem job l s = ground arith

-- A test that only calls past their wait pass, and that no event takes back.
pub record IsProgress (p : Phase → Bool) : Type 0 where
  pub waits : p awaiting ≡ false
  pub ends : (r : Refusal) → p (over r) ≡ true
  pub returns : (l : Lease) → p (leased l) ≡ true → p (leased (record l { released = true })) ≡ true

module _ (p : Phase → Bool) (w : IsProgress p) (y : System) (c : Call)
    (found : find? (has_seq c.seq) y.calls ≡ some c) (j : ℕ) (a : at p y.calls j ≡ true) where
  on_expire-keeps : (q : Phase) → c.phase ≡ q → at p (on_expire y c q).calls j ≡ true
  unfolding on_expire
  on_expire-keeps awaiting e =
      at-set_phase_keep p c.seq expired y.calls j c found (λ h. cc (ap p e, w.waits, h)) a
  on_expire-keeps expired e = a
  on_expire-keeps (leased l) e = a
  on_expire-keeps (over r) e = a

  on_unwind-keeps : (q : Phase) → c.phase ≡ q → at p (on_unwind y c q).calls j ≡ true
  unfolding on_unwind
  on_unwind-keeps expired e =
      at-set_phase_keep p c.seq
        (over (give_back (forget y.sched c) c.job (y.sched.futures c.seq)).1) y.calls j c found
        (λ h. w.ends (give_back (forget y.sched c) c.job (y.sched.futures c.seq)).1) a
  on_unwind-keeps awaiting e = a
  on_unwind-keeps (leased l) e = a
  on_unwind-keeps (over r) e = a

  on_release-keeps : (q : Phase) → c.phase ≡ q → at p (on_release y c q).calls j ≡ true
  unfolding on_release
  on_release-keeps (leased l) e =
      at-set_phase_keep p c.seq (leased (release_lease c.job l y.sched).0) y.calls j c found
        (λ h.
          subst (λ x. p (leased x) ≡ true) (sym (released_lem c.job l y.sched))
            (w.returns l (sym (ap p e) ∙ h)))
        a
  on_release-keeps awaiting e = a
  on_release-keeps expired e = a
  on_release-keeps (over r) e = a

-- An event at a call that is not there changes nothing.
pub at_call-at :
    (p : Phase → Bool) (y : System) (k j : ℕ) (f : Call → System)
    → ((c : Call) → find? (has_seq c.seq) y.calls ≡ some c → c.seq ≡ k → at p (f c).calls j ≡ true)
    → (find? (has_seq k) y.calls ≡ none → at p y.calls j ≡ true)
    → at p (at_call y k f).calls j ≡ true
at_call-at p y k j f h n = elim (Option-cases (find? (has_seq k) y.calls)) [
  | inl e ↦ rw (e, at_call) (n e)
  | inr (c, e) ↦
      let m = seq_of_found k y.calls c e in
      rw (e, at_call) (h c (subst (λ i. find? (has_seq i) y.calls ≡ some c) (sym m) e) m)
]

module _ (p : Phase → Bool) (w : IsProgress p) (y : System) (k j : ℕ)
    (a : at p y.calls j ≡ true) where
  pub expire-keeps : at p (step y (expire k)).calls j ≡ true
  unfolding step
  expire-keeps =
      at_call-at p y k j (λ c. on_expire y c c.phase)
        (λ c e m. on_expire-keeps p w y c e j a c.phase refl) (λ e. a)

  pub unwind-keeps : at p (step y (unwind k)).calls j ≡ true
  unfolding step
  unwind-keeps =
      at_call-at p y k j (λ c. on_unwind y c c.phase)
        (λ c e m. on_unwind-keeps p w y c e j a c.phase refl) (λ e. a)

  pub release-keeps : at p (step y (release k)).calls j ≡ true
  unfolding step
  release-keeps =
      at_call-at p y k j (λ c. on_release y c c.phase)
        (λ c e m. on_release-keeps p w y c e j a c.phase refl) (λ e. a)

-- What each of the three events brings about at its own call.
module _ (y : System) (c : Call) (found : find? (has_seq c.seq) y.calls ≡ some c) where
  pub on_expire-cut : (q : Phase) → c.phase ≡ q → at is_cut (on_expire y c q).calls c.seq ≡ true
  unfolding on_expire
  on_expire-cut awaiting e = at-set_phase_self is_cut c.seq expired y.calls refl
  on_expire-cut expired e = at_found is_cut y.calls c.seq c found ∙ rw e refl
  on_expire-cut (leased l) e = at_found is_cut y.calls c.seq c found ∙ rw e refl
  on_expire-cut (over r) e = at_found is_cut y.calls c.seq c found ∙ rw e refl

  pub on_unwind-unwound :
      (q : Phase)
      → c.phase ≡ q
      → at is_cut y.calls c.seq ≡ true
      → at is_unwound (on_unwind y c q).calls c.seq ≡ true
  unfolding on_unwind
  on_unwind-unwound awaiting e h = cc (at_found is_cut y.calls c.seq c found, ap is_cut e, h)
  on_unwind-unwound expired e h = at-set_phase_self is_unwound c.seq _ y.calls refl
  on_unwind-unwound (leased l) e h = at_found is_unwound y.calls c.seq c found ∙ rw e refl
  on_unwind-unwound (over r) e h = at_found is_unwound y.calls c.seq c found ∙ rw e refl

  pub on_release-settled :
      (q : Phase)
      → c.phase ≡ q
      → at is_unwound y.calls c.seq ≡ true
      → at is_settled (on_release y c q).calls c.seq ≡ true
  unfolding on_release
  on_release-settled awaiting e h =
      cc (at_found is_unwound y.calls c.seq c found, ap is_unwound e, h)
  on_release-settled expired e h =
      cc (at_found is_unwound y.calls c.seq c found, ap is_unwound e, h)
  on_release-settled (leased l) e h =
      at-set_phase_self is_settled c.seq _ y.calls
        (ap (λ (x : Lease). x.released) (released_lem c.job l y.sched))
  on_release-settled (over r) e h = at_found is_settled y.calls c.seq c found ∙ rw e refl
