-- ===== src/Scheduler/Dispatch.antt =====
-- `_dispatch`: what its loop keeps, and what is true of the queue when it ends.
use opendss_designer_cloud.Base.{
  ◌≤◌, ◌≡◌, refl, ◌⊎◌, inl, inr, String, true, false, List, [], ◌∷◌, ◌++◌, arith, All, List-cases,
}
use opendss_designer_cloud.Scheduler.{
  Job, Waiter, Scheduler, Verdict, abandoned, skipped, granted, eligible, verdict, grant,
  dispatch_loop, requeue, dispatch,
}
use opendss_designer_cloud.Scheduler.Queue.{InOrder, Ahead, push_all-append}

pub Verdict-cases : (v : Verdict) → (v ≡ abandoned) ⊎ (v ≡ skipped) ⊎ (v ≡ granted)
Verdict-cases abandoned = inl refl
Verdict-cases skipped = inr (inl refl)
Verdict-cases granted = inr (inr refl)

pub loop_nil : (s : Scheduler) → dispatch_loop [] s ≡ (record s { waiting = [] }, [])
unfolding dispatch_loop
loop_nil s = refl

module _ (w : Waiter) (ws : List Waiter) (s : Scheduler) where
  pub loop_stop : s.free ≡ [] → dispatch_loop (w ∷ ws) s ≡ (record s { waiting = w ∷ ws }, [])
  unfolding dispatch_loop
  loop_stop e = ground arith

  module _ (worker : String) (free : List String) (e : s.free ≡ worker ∷ free) where
    pub loop_drop : verdict s w ≡ abandoned → dispatch_loop (w ∷ ws) s ≡ dispatch_loop ws s
    unfolding dispatch_loop
    loop_drop v = ground arith

    pub loop_skip :
        verdict s w ≡ skipped
        → dispatch_loop (w ∷ ws) s ≡ ((dispatch_loop ws s).0, w ∷ (dispatch_loop ws s).1)
    unfolding dispatch_loop
    loop_skip v = ground arith

    pub loop_grant :
        verdict s w ≡ granted → dispatch_loop (w ∷ ws) s ≡ dispatch_loop ws (grant s worker free w)
    unfolding dispatch_loop
    loop_grant v = ground arith

pub verdict-skipped :
    (s : Scheduler) (w : Waiter) → verdict s w ≡ skipped → eligible s w.job ≡ false
unfolding verdict
verdict-skipped s w v = ground arith

pub verdict-granted : (s : Scheduler) (w : Waiter) → verdict s w ≡ granted → eligible s w.job ≡ true
unfolding verdict
verdict-granted s w v = ground arith

-- The loop, case by case, as one induction rule over its calls: `Q` relates the remaining heap and the
-- state before to the state after and the skipped waiters.
module _ {ℓ} (Q : List Waiter → Scheduler → Scheduler × List Waiter → Type ℓ)
    (stops : (ws : List Waiter) (s : Scheduler)
      → (ws ≡ []) ⊎ (s.free ≡ [])
      → Q ws s (record s { waiting = ws }, []))
    (drops : (w : Waiter) (ws : List Waiter) (s : Scheduler) (r : Scheduler × List Waiter)
      → Q ws s r
      → Q (w ∷ ws) s r)
    (skips : (w : Waiter) (ws : List Waiter) (s : Scheduler) (r : Scheduler × List Waiter)
      → eligible s w.job ≡ false
      → Q ws s r
      → Q (w ∷ ws) s (r.0, w ∷ r.1))
    (grants : (w : Waiter) (ws : List Waiter) (s : Scheduler) (worker : String) (free : List String)
        (r : Scheduler × List Waiter)
      → s.free ≡ worker ∷ free
      → eligible s w.job ≡ true
      → Q ws (grant s worker free w) r
      → Q (w ∷ ws) s r) where
  pub loop_induction : (ws : List Waiter) (s : Scheduler) → Q ws s (dispatch_loop ws s)
  loop_induction [] s = rw loop_nil (stops [] s (inl refl))
  loop_induction (w ∷ ws) s = elim (List-cases s.free) [
    | inl e ↦ rw (loop_stop w ws s e) (stops (w ∷ ws) s (inr e))
    | inr (worker, free, e) ↦ elim (Verdict-cases (verdict s w)) [
      | inl v ↦ rw (loop_drop w ws s worker free e v) (drops w ws s _ (loop_induction ws s))
      | inr (inl v) ↦
          rw (loop_skip w ws s worker free e v)
            (skips w ws s _ (verdict-skipped s w v) (loop_induction ws s))
      | inr (inr v) ↦ rw (loop_grant w ws s worker free e v) (
          grants w ws s worker free _ e (verdict-granted s w v)
            (loop_induction ws (grant s worker free w)))
    ]
  ]

-- What a dispatch leaves alone, and the counters that it can only raise.
pub record Grows (s t : Scheduler) : Type 0 where
  pub workers : t.workers ≡ s.workers
  pub caps : t.pool_caps ≡ s.pool_caps
  pub max_queue : t.max_queue ≡ s.max_queue
  pub draining : t.draining ≡ s.draining
  pub next_seq : t.next_seq ≡ s.next_seq
  pub pools : (p : String) → s.pool_inuse p ≤ t.pool_inuse p
  pub clients : (k : String) → s.client_inuse k ≤ t.client_inuse k

pub grant-Grows :
    (s t : Scheduler) (worker : String) (free : List String) (w : Waiter)
    → Grows (grant s worker free w) t
    → Grows s t
unfolding grant
grant-Grows s t worker free w g = record {
  workers = g.workers;
  caps = g.caps;
  max_queue = g.max_queue;
  draining = g.draining;
  next_seq = g.next_seq;
  pools = λ p. ground (arith, g.pools p);
  clients = λ k. ground (arith, g.clients k);
}

pub with_waiting-Grows : (s : Scheduler) (ws : List Waiter) → Grows s (record s { waiting = ws })
with_waiting-Grows s ws = record {
  workers = refl;
  caps = refl;
  max_queue = refl;
  draining = refl;
  next_seq = refl;
  pools = λ p. omega arith;
  clients = λ k. omega arith;
}

abbrev pub LoopGrows : List Waiter → Scheduler → Scheduler × List Waiter → Type 0
LoopGrows ws s r = Grows s r.0

pub loop-Grows : (ws : List Waiter) (s : Scheduler) → Grows s (dispatch_loop ws s).0
loop-Grows =
    loop_induction LoopGrows (λ ws s h. with_waiting-Grows s ws) (λ w ws s r g. g)
      (λ w ws s r e g. g) (λ w ws s worker free r e el g. grant-Grows s r.0 worker free w g)

-- A job that is refused stays refused while the loop goes on.
pub eligible_antitone :
    (s t : Scheduler) (job : Job) → Grows s t → eligible s job ≡ false → eligible t job ≡ false
unfolding eligible
eligible_antitone s t job g h = rw g.caps (ground (arith, g.pools job.pool, g.clients job.client))

abbrev pub Blocked : Scheduler → Waiter → Type 0
Blocked s w = eligible s w.job ≡ false

abbrev pub LoopSettles : List Waiter → Scheduler → Scheduler × List Waiter → Type 0
LoopSettles ws s r = Grows s r.0 × All (Blocked r.0) r.1 × ((r.0.waiting ≡ []) ⊎ (r.0.free ≡ []))

pub loop-settles : (ws : List Waiter) (s : Scheduler) → LoopSettles ws s (dispatch_loop ws s)
loop-settles =
    loop_induction LoopSettles (λ ws s h. (with_waiting-Grows s ws, tt, h)) (λ w ws s r q. q)
      (λ w ws s r e q. (q.0, (eligible_antitone s r.0 w.job q.0 e, q.1), q.2))
      (λ w ws s worker free r e el q. (grant-Grows s r.0 worker free w q.0, q.1, q.2))

-- The queue when the loop has ended and the skipped waiters are back.
abbrev pub left_over : Scheduler × List Waiter → List Waiter
left_over r = r.1 ++ r.0.waiting

abbrev pub LoopKeeps : List Waiter → Scheduler → Scheduler × List Waiter → Type 1
LoopKeeps ws s r = (P : Waiter → Type 0) → All P ws → All P (left_over r)

loop-keeps : (ws : List Waiter) (s : Scheduler) → LoopKeeps ws s (dispatch_loop ws s)
loop-keeps =
    loop_induction LoopKeeps (λ ws s h P a. a) (λ w ws s r q P a. q P a.1)
      (λ w ws s r e q P a. (a.0, q P a.1)) (λ w ws s worker free r e el q P a. q P a.1)

abbrev pub LoopInOrder : List Waiter → Scheduler → Scheduler × List Waiter → Type 1
LoopInOrder ws s r = LoopKeeps ws s r × (InOrder ws → InOrder (left_over r))

pub loop-InOrder : (ws : List Waiter) (s : Scheduler) → LoopInOrder ws s (dispatch_loop ws s)
loop-InOrder =
    loop_induction LoopInOrder (λ ws s h. (λ P a. a, λ o. o))
      (λ w ws s r q. (λ P a. q.0 P a.1, λ o. q.1 o.1))
      (λ w ws s r e q. (λ P a. (a.0, q.0 P a.1), λ o. (q.0 (Ahead w) o.0, q.1 o.1)))
      (λ w ws s worker free r e el q. (λ P a. q.0 P a.1, λ o. q.1 o.1))

loop_idle :
    (ws : List Waiter) (s : Scheduler)
    → s.free ≡ []
    → dispatch_loop ws s ≡ (record s { waiting = ws }, [])
loop_idle [] s e = loop_nil s
loop_idle (w ∷ ws) s e = loop_stop w ws s e

-- `_dispatch` is its loop, with the queue left in order.
pub dispatch_lem :
    (s : Scheduler)
    → InOrder s.waiting
    → let r = dispatch_loop s.waiting s in dispatch s ≡ record r.0 { waiting = left_over r }
unfolding dispatch requeue
dispatch_lem s o = elim (List-cases s.free) [
  | inl e ↦ ground (arith, loop_idle s.waiting s e)
  | inr (x, xs, e) ↦ elim (List-cases s.waiting) [
    | inl f ↦ ground (arith, loop_nil s)
    | inr (w, ws, f) ↦ ground (
      arith,
      push_all-append (dispatch_loop s.waiting s).1 (dispatch_loop s.waiting s).0.waiting
          ((loop-InOrder s.waiting s).1 o),
    )
  ]
]
