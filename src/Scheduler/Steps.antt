-- ===== src/Scheduler/Steps.antt =====
-- The steps of a suspended call and of a lease keep the invariant.
use opendss_designer_cloud.Base.{
  ℕ, ◌+◌, ◌<◌, ◌≡◌, refl, inl, inr, String, true, false, none, some, List, [], ◌∷◌, ◌++◌, arith,
  ◌==◌, find?, All, total-append, decrement, same_refl, subst, Bool-cases,
}
use opendss_designer_cloud.Scheduler.{Job, Waiter, Future, Scheduler, release_worker}
use opendss_designer_cloud.Scheduler.Calls.{Call, Phase, has_seq, set_phase}
use opendss_designer_cloud.Scheduler.Queue.{Ahead}
use opendss_designer_cloud.Scheduler.Slots.{
  Accounts, Linked, Distinct, held, weigh, holding, is_unset, is_open, in_pool, of_client,
  held-set_phase, find?-set_phase, set_phase-Distinct,
}
use opendss_designer_cloud.Scheduler.Books.{Other}
use opendss_designer_cloud.Scheduler.Invariant.{Tidy, Inv, Accounts-same, dispatch-Inv}

pub set_phase-fresh :
    (n k : ℕ) (p : Phase) (cs : List Call)
    → All (λ c. c.seq < n) cs
    → All (λ c. c.seq < n) (set_phase k p cs)
set_phase-fresh n k p [] h = tt
set_phase-fresh n k p (c ∷ cs) h = ground (arith, set_phase-fresh n k p cs h.1)

set_phase-Linked :
    (f : ℕ → Future) (k : ℕ) (p : Phase) (cs : List Call) (ws : List Waiter)
    → All (Other k) ws
    → All (Linked f cs) ws
    → All (Linked f (set_phase k p cs)) ws
set_phase-Linked f k p cs [] o l = tt
set_phase-Linked f k p cs (v ∷ ws) o l = (
  record {
    call = l.0.call;
    found = ground (arith, find?-set_phase v.seq k p cs, l.0.found);
    job = l.0.job;
    ranked = l.0.ranked;
    suspended = l.0.suspended;
    empty = l.0.empty;
  },
  set_phase-Linked f k p cs ws o.1 l.1,
)

-- Nobody waits in the queue for a call whose future is set, or that is not suspended.
pub Other-of_set :
    (f : ℕ → Future) (k : ℕ) (cs : List Call) (ws : List Waiter)
    → is_unset (f k) ≡ false
    → All (Linked f cs) ws
    → All (Other k) ws
Other-of_set f k cs [] h l = tt
Other-of_set f k cs (v ∷ ws) h l = (ground (arith, l.0.empty), Other-of_set f k cs ws h l.1)

-- A waiter with the call's seq is linked to that call.
pub Linked-call :
    (f : ℕ → Future) (k : ℕ) (cs : List Call) (c : Call) (v : Waiter)
    → find? (has_seq k) cs ≡ some c
    → (v.seq == k) ≡ true
    → (l : Linked f cs v) → l.call ≡ c
Linked-call f k cs c v e q l =
    let m : v.seq ≡ k = ground arith in
    ground (arith, subst (λ j. find? (has_seq j) cs ≡ some l.call) m l.found)

pub Other-of_Ahead :
    (k : ℕ) (v : Waiter) (ws : List Waiter)
    → (v.seq == k) ≡ true
    → All (Ahead v) ws
    → All (Other k) ws
Other-of_Ahead k v [] q a = tt
Other-of_Ahead k v (w ∷ ws) q a = (ground arith, Other-of_Ahead k v ws q a.1)

pub seq_of_found : (k : ℕ) (cs : List Call) (c : Call) → find? (has_seq k) cs ≡ some c → c.seq ≡ k
seq_of_found k [] c e = cc
seq_of_found k (x ∷ cs) c e = ground (arith, seq_of_found k cs c)

pub Other-of_shut :
    (f : ℕ → Future) (k : ℕ) (cs : List Call) (c : Call) (ws : List Waiter)
    → find? (has_seq k) cs ≡ some c
    → is_open c.phase ≡ false
    → All (Linked f cs) ws
    → All (Other k) ws
Other-of_shut f k cs c [] e h l = tt
Other-of_shut f k cs c (v ∷ ws) e h l = (
  elim (Bool-cases (v.seq == k)) [
    | inl q ↦ ground (arith, Linked-call f k cs c v e q l.0, l.0.suspended)
    | inr q ↦ q
  ],
  Other-of_shut f k cs c ws e h l.1,
)

module _ (s : Scheduler) (cs : List Call) (c : Call) (k : ℕ)
    (found : find? (has_seq k) cs ≡ some c) where
  -- A new phase that holds what the old one held.
  pub rephase-Tidy :
      (p : Phase)
      → holding p (s.futures k) ≡ holding c.phase (s.futures k)
      → All (Other k) s.waiting
      → Tidy s cs
      → Tidy s (set_phase k p cs)
  rephase-Tidy p h o t = record {
    distinct = set_phase-Distinct k p cs t.distinct;
    fresh = set_phase-fresh s.next_seq k p cs t.fresh;
    below = t.below;
    order = t.order;
    links = set_phase-Linked s.futures k p cs s.waiting o t.links;
    books =
        Accounts-same s s cs (set_phase k p cs) refl refl refl refl
          (λ φ. ground (arith, held-set_phase φ k p s.futures cs c t.distinct found)) t.books;
    capped = t.capped;
    bounded = t.bounded;
    drained = t.drained;
  }

  pub rephase-Inv :
      (p : Phase)
      → holding p (s.futures k) ≡ holding c.phase (s.futures k)
      → All (Other k) s.waiting
      → Inv s cs
      → Inv s (set_phase k p cs)
  rephase-Inv p h o i = record { tidy = rephase-Tidy p h o i.tidy; settled = i.settled }

  -- A holder gives its worker back: the state in which `_release` calls `_dispatch`.
  abbrev pub surrendered : String → Scheduler
  surrendered worker = record s {
    free = s.free ++ worker ∷ [];
    pool_inuse = decrement c.job.pool s.pool_inuse;
    client_inuse = decrement c.job.client s.client_inuse;
  }

  module _ (p : Phase) (worker : String) (d : Distinct cs)
      (before : holding c.phase (s.futures k) ≡ some worker)
      (after : holding p (s.futures k) ≡ none) where
    surrender_held :
        (φ : String → Job → ℕ)
        → held φ s.futures (set_phase k p cs) + φ worker c.job ≡ held φ s.futures cs
    unfolding weigh
    surrender_held φ = ground (arith, held-set_phase φ k p s.futures cs c d found)

    -- No counter that is lowered is 0, so the truncated subtraction is Python's.
    pub counters_positive :
        Accounts s cs → (0 < s.pool_inuse c.job.pool) × (0 < s.client_inuse c.job.client)
    counters_positive a = (
      ground (arith, a.pools c.job.pool, surrender_held (in_pool c.job.pool), same_refl c.job.pool),
      ground (
        arith,
        a.clients c.job.client,
        surrender_held (of_client c.job.client),
        same_refl c.job.client,
      ),
    )

    surrender-Accounts : Accounts s cs → Accounts (surrendered worker) (set_phase k p cs)
    surrender-Accounts a = record {
      pools = λ q. ground (arith, a.pools q, surrender_held (in_pool q));
      clients = λ q. ground (arith, a.clients q, surrender_held (of_client q));
      stock = λ φ.
          ground
            (arith, a.stock φ, surrender_held (λ w _. φ w), total-append φ s.free (worker ∷ []));
    }

    surrender-Tidy :
        All (Other k) s.waiting → Tidy s cs → Tidy (surrendered worker) (set_phase k p cs)
    surrender-Tidy o t = record {
      distinct = set_phase-Distinct k p cs t.distinct;
      fresh = set_phase-fresh s.next_seq k p cs t.fresh;
      below = t.below;
      order = t.order;
      links = set_phase-Linked s.futures k p cs s.waiting o t.links;
      books = surrender-Accounts t.books;
      capped = λ q cap e. ground (arith, t.capped q cap e);
      bounded = t.bounded;
      drained = t.drained;
    }

    pub release_worker-Inv :
        All (Other k) s.waiting → Tidy s cs → Inv (release_worker s worker c.job) (set_phase k p cs)
    unfolding release_worker
    release_worker-Inv o t =
        dispatch-Inv (surrendered worker) (set_phase k p cs) (surrender-Tidy o t)
