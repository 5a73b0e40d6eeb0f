-- ===== src/Scheduler/Slots.antt =====
-- Who holds a worker: the calls that were granted one and have not released it. Each counter of
-- scheduler.py is the number of holders that it should count.
use mathlib.Core.Option
use opendss_designer_cloud.Base.{
  ℕ, ◌+◌, ◌≡◌, refl, String, Bool, true, false, Option, none, some, List, [], ◌∷◌, arith, ◌==◌,
  if◌then◌else◌, same, find?, total, assign,
}
use opendss_designer_cloud.Scheduler.{
  Job, Waiter, Future, Scheduler, pending, result, failed, cancelled, grant,
}
use opendss_designer_cloud.Scheduler.Calls.{
  Call, Phase, awaiting, expired, leased, over, has_seq, set_phase, with_phase,
}

abbrev pub of_future : Future → Option String
of_future (result worker) = some worker
of_future pending = none
of_future failed = none
of_future cancelled = none

abbrev pub is_open : Phase → Bool
is_open awaiting = true
is_open expired = true
is_open (leased _) = false
is_open (over _) = false

-- A future with neither a worker nor an exception in it.
abbrev pub is_unset : Future → Bool
is_unset pending = true
is_unset cancelled = true
is_unset (result _) = false
is_unset failed = false

pub unset_empty : (f : Future) → is_unset f ≡ true → of_future f ≡ none
unset_empty f h = ground arith

-- The worker that a call in a phase holds.
unfoldable pub holding : Phase → Future → Option String
holding awaiting f = of_future f
holding expired f = of_future f
holding (leased l) f = if l.released then none else some l.worker
holding (over _) f = none

pub open_holding : (p : Phase) (f : Future) → is_open p ≡ true → holding p f ≡ of_future f
unfolding holding
open_holding p f h = ground arith

unfoldable pub weigh : (String → Job → ℕ) → Job → Option String → ℕ
weigh φ job none = 0
weigh φ job (some worker) = φ worker job

abbrev pub weight : (String → Job → ℕ) → (ℕ → Future) → Call → ℕ
weight φ futures c = weigh φ c.job (holding c.phase (futures c.seq))

-- The sum of a weight over the holders.
abbrev pub held : (String → Job → ℕ) → (ℕ → Future) → List Call → ℕ
held φ futures = total (weight φ futures)

abbrev pub in_pool : String → String → Job → ℕ
in_pool p _ job = if same job.pool p then 1 else 0

abbrev pub of_client : String → String → Job → ℕ
of_client k _ job = if same job.client k then 1 else 0

abbrev pub Distinct : List Call → Type 0
Distinct [] = Unit {0}
Distinct (c ∷ cs) = (find? (has_seq c.seq) cs ≡ none) × Distinct cs

pub held-assign_other :
    (φ : String → Job → ℕ) (k : ℕ) (f : Future) (futures : ℕ → Future) (cs : List Call)
    → find? (has_seq k) cs ≡ none
    → held φ (assign k f futures) cs ≡ held φ futures cs
held-assign_other φ k f futures [] h = refl
held-assign_other φ k f futures (c ∷ cs) h = ground (arith, held-assign_other φ k f futures cs)

-- A new value of one call's future changes the sum by what that call holds.
pub held-assign :
    (φ : String → Job → ℕ) (k : ℕ) (f : Future) (futures : ℕ → Future) (cs : List Call) (c : Call)
    → Distinct cs
    → find? (has_seq k) cs ≡ some c
    → held φ (assign k f futures) cs + weigh φ c.job (holding c.phase (futures k))
      ≡ held φ futures cs + weigh φ c.job (holding c.phase f)
held-assign φ k f futures [] c d h = cc
held-assign φ k f futures (x ∷ cs) c d h =
    ground (arith, held-assign φ k f futures cs c d.1, held-assign_other φ k f futures cs)

-- So does a new phase of one call.
held-set_phase_other :
    (φ : String → Job → ℕ) (k : ℕ) (p : Phase) (futures : ℕ → Future) (cs : List Call)
    → find? (has_seq k) cs ≡ none
    → held φ futures (set_phase k p cs) ≡ held φ futures cs
held-set_phase_other φ k p futures [] h = refl
held-set_phase_other φ k p futures (c ∷ cs) h =
    ground (arith, held-set_phase_other φ k p futures cs)

pub held-set_phase :
    (φ : String → Job → ℕ) (k : ℕ) (p : Phase) (futures : ℕ → Future) (cs : List Call) (c : Call)
    → Distinct cs
    → find? (has_seq k) cs ≡ some c
    → held φ futures (set_phase k p cs) + weigh φ c.job (holding c.phase (futures k))
      ≡ held φ futures cs + weigh φ c.job (holding p (futures k))
held-set_phase φ k p futures [] c d h = cc
held-set_phase φ k p futures (x ∷ cs) c d h =
    ground (arith, held-set_phase φ k p futures cs c d.1, held-set_phase_other φ k p futures cs)

-- A changed phase moves no call and keeps the seqs apart.
pub find?-set_phase :
    (j k : ℕ) (p : Phase) (cs : List Call)
    → find? (has_seq j) (set_phase k p cs)
      ≡ (if j == k then Option.map (with_phase p) (find? (has_seq j) cs) else find? (has_seq j) cs)
find?-set_phase j k p [] = ground arith
find?-set_phase j k p (c ∷ cs) = ground (arith, find?-set_phase j k p cs)

pub set_phase-Distinct :
    (k : ℕ) (p : Phase) (cs : List Call) → Distinct cs → Distinct (set_phase k p cs)
set_phase-Distinct k p [] d = tt
set_phase-Distinct k p (c ∷ cs) d =
    ground (arith, set_phase-Distinct k p cs d.1, find?-set_phase c.seq k p cs)

-- The counters and the list of free workers agree with what the calls hold.
pub record Accounts (s : Scheduler) (cs : List Call) : Type 0 where
  pub pools : (p : String) → s.pool_inuse p ≡ held (in_pool p) s.futures cs
  pub clients : (k : String) → s.client_inuse k ≡ held (of_client k) s.futures cs
  pub stock : (φ : String → ℕ) → total φ s.free + held (λ w _. φ w) s.futures cs ≡ total φ s.workers

-- A waiter in the queue belongs to a call that is suspended on a future with no worker.
pub record Linked (futures : ℕ → Future) (cs : List Call) (w : Waiter) : Type 0 where
  pub call : Call
  pub found : find? (has_seq w.seq) cs ≡ some call
  pub job : call.job ≡ w.job
  pub ranked : w.priority ≡ w.job.priority
  pub suspended : is_open call.phase ≡ true
  pub empty : is_unset (futures w.seq) ≡ true

grant_total :
    (φ : String → Job → ℕ) (futures : ℕ → Future) (cs : List Call) (w : Waiter) (worker : String)
    → Distinct cs
    → Linked futures cs w
    → held φ (assign w.seq (result worker) futures) cs ≡ held φ futures cs + φ worker w.job
unfolding weigh
grant_total φ futures cs w worker d l = ground (
  arith,
  held-assign φ w.seq (result worker) futures cs l.call d l.found,
  open_holding l.call.phase (result worker) l.suspended,
  open_holding l.call.phase (futures w.seq) l.suspended,
  unset_empty (futures w.seq) l.empty,
)

pub grant-Accounts :
    (s : Scheduler) (cs : List Call) (w : Waiter) (worker : String) (free : List String)
    → Distinct cs
    → s.free ≡ worker ∷ free
    → Linked s.futures cs w
    → Accounts s cs
    → Accounts (grant s worker free w) cs
unfolding grant
grant-Accounts s cs w worker free d e l a = record {
  pools = λ p. ground (arith, a.pools p, grant_total (in_pool p) s.futures cs w worker d l);
  clients = λ k. ground (arith, a.clients k, grant_total (of_client k) s.futures cs w worker d l);
  stock = λ φ. ground (arith, a.stock φ, grant_total (λ v _. φ v) s.futures cs w worker d l);
}
