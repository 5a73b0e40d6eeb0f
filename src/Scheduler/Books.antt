-- ===== src/Scheduler/Books.antt =====
-- The counters, the free list and the suspended calls through `_dispatch`.
use opendss_designer_cloud.Base.{
  ℕ, ◌≡◌, refl, ◌∙◌, String, false, List, [], ◌∷◌, arith, ◌==◌, All, assign,
}
use opendss_designer_cloud.Scheduler.{
  Waiter, Future, Scheduler, result, grant, dispatch_loop, dispatch,
}
use opendss_designer_cloud.Scheduler.Calls.{Call}
use opendss_designer_cloud.Scheduler.Queue.{InOrder, Ahead}
use opendss_designer_cloud.Scheduler.Slots.{Accounts, Linked, Distinct, grant-Accounts}
use opendss_designer_cloud.Scheduler.Dispatch.{loop_induction, left_over, dispatch_lem}

-- A waiter's entry in the books depends on its own future alone.
pub Linked-stable :
    (f g : ℕ → Future) (cs : List Call) (w : Waiter)
    → g w.seq ≡ f w.seq
    → Linked f cs w
    → Linked g cs w
Linked-stable f g cs w e l = record {
  call = l.call;
  found = l.found;
  job = l.job;
  ranked = l.ranked;
  suspended = l.suspended;
  empty = rw e l.empty;
}

pub Linked-assign :
    (f : ℕ → Future) (cs : List Call) (w : Waiter) (x : Future) (ws : List Waiter)
    → All (Ahead w) ws
    → All (Linked f cs) ws
    → All (Linked (assign w.seq x f) cs) ws
Linked-assign f cs w x [] a l = tt
Linked-assign f cs w x (v ∷ ws) a l =
    (Linked-stable f (assign w.seq x f) cs v (ground arith) l.0, Linked-assign f cs w x ws a.1 l.1)

Accounts-waiting :
    (s : Scheduler) (cs : List Call) (ws : List Waiter)
    → Accounts s cs
    → Accounts (record s { waiting = ws }) cs
Accounts-waiting s cs ws a = record { pools = a.pools; clients = a.clients; stock = a.stock }

abbrev pub Other : ℕ → Waiter → Type 0
Other j v = (v.seq == j) ≡ false

pub Other-of_Ahead : (w : Waiter) (ws : List Waiter) → All (Ahead w) ws → All (Other w.seq) ws
Other-of_Ahead w [] a = tt
Other-of_Ahead w (v ∷ ws) a = (ground arith, Other-of_Ahead w ws a.1)

module _ (cs : List Call) (d : Distinct cs) where
  abbrev LoopBooks : List Waiter → Scheduler → Scheduler × List Waiter → Type 0
  LoopBooks ws s r =
      ((j : ℕ) → All (Other j) ws → r.0.futures j ≡ s.futures j)
      × (InOrder ws
          → All (Linked s.futures cs) ws
          → Accounts s cs
          → Accounts r.0 cs × All (Linked r.0.futures cs) (left_over r))

  skip-Books :
      (w : Waiter) (ws : List Waiter) (s : Scheduler) (r : Scheduler × List Waiter)
      → LoopBooks ws s r
      → LoopBooks (w ∷ ws) s (r.0, w ∷ r.1)
  skip-Books w ws s r (stable, keep) = (
    λ j h. stable j h.1,
    λ o l a.
        let (a', l') = keep o.1 l.1 a in
        (
          a',
          (
            Linked-stable s.futures r.0.futures cs w (stable w.seq (Other-of_Ahead w ws o.0)) l.0,
            l',
          ),
        ),
  )

  grant-Books :
      (w : Waiter) (ws : List Waiter) (s : Scheduler) (worker : String) (free : List String)
      (r : Scheduler × List Waiter)
      → s.free ≡ worker ∷ free
      → LoopBooks ws (grant s worker free w) r
      → LoopBooks (w ∷ ws) s r
  unfolding grant
  grant-Books w ws s worker free r e (stable, keep) = (
    λ j h. stable j h.1 ∙ ground arith,
    λ o l a.
        keep o.1 (Linked-assign s.futures cs w (result worker) ws o.0 l.1)
          (grant-Accounts s cs w worker free d e l.0 a),
  )

  loop-Books : (ws : List Waiter) (s : Scheduler) → LoopBooks ws s (dispatch_loop ws s)
  loop-Books =
      loop_induction LoopBooks (λ ws s h. (λ j o. refl, λ o l a. (Accounts-waiting s cs ws a, l)))
        (λ w ws s r q. (λ j h. q.0 j h.1, λ o l a. q.1 o.1 l.1 a))
        (λ w ws s r e q. skip-Books w ws s r q)
        (λ w ws s worker free r e el q. grant-Books w ws s worker free r e q)

  -- `_dispatch` keeps the counters true and every queued waiter tied to a suspended call.
  pub dispatch-Books :
      (s : Scheduler)
      → InOrder s.waiting
      → All (Linked s.futures cs) s.waiting
      → Accounts s cs
      → Accounts (dispatch s) cs × All (Linked (dispatch s).futures cs) (dispatch s).waiting
  dispatch-Books s o l a =
      let r = dispatch_loop s.waiting s in
      let (a', l') = (loop-Books s.waiting s).1 o l a in
      rw (dispatch_lem s o) (Accounts-waiting r.0 cs (left_over r) a', l')
