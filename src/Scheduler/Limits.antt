-- ===== src/Scheduler/Limits.antt =====
-- The pool caps, the limits per caller, and the queue through `_dispatch`.
use opendss_designer_cloud.Base.{
  ℕ, ◌≤◌, ◌≡◌, ◌⊎◌, inl, inr, String, true, some, List, [], ◌++◌, arith, All, All-append, All-map,
  same_iff, length,
}
use opendss_designer_cloud.Scheduler.{Waiter, Scheduler, eligible, grant, dispatch_loop, dispatch}
use opendss_designer_cloud.Scheduler.Queue.{InOrder}
use opendss_designer_cloud.Scheduler.Dispatch.{
  Grows, Blocked, loop_induction, loop-Grows, loop-settles, loop-InOrder, left_over, dispatch_lem,
}

-- No pool holds more workers than its cap.
abbrev pub Capped : Scheduler → Type 0
Capped s = (p : String) (cap : ℕ) → s.pool_caps p ≡ some cap → s.pool_inuse p ≤ cap

-- No caller holds more workers than its limit.
abbrev pub Limited : (String → ℕ) → Scheduler → Type 0
Limited limit s = (k : String) → s.client_inuse k ≤ limit k

-- Every job of a caller asks for at most the caller's limit.
abbrev pub Asks : (String → ℕ) → Waiter → Type 0
Asks limit w = w.job.concurrency ≤ limit w.job.client

grant-Capped :
    (s : Scheduler) (worker : String) (free : List String) (w : Waiter)
    → eligible s w.job ≡ true
    → Capped s
    → Capped (grant s worker free w)
unfolding grant eligible
grant-Capped s worker free w e h p cap k = ground (arith, h p cap, same_iff w.job.pool p)

grant-Limited :
    (limit : String → ℕ) (s : Scheduler) (worker : String) (free : List String) (w : Waiter)
    → eligible s w.job ≡ true
    → Asks limit w
    → Limited limit s
    → Limited limit (grant s worker free w)
unfolding grant eligible
grant-Limited limit s worker free w e a h k = ground (arith, h k, same_iff w.job.client k)

abbrev LoopCapped : List Waiter → Scheduler → Scheduler × List Waiter → Type 0
LoopCapped ws s r = Capped s → Capped r.0

loop-Capped : (ws : List Waiter) (s : Scheduler) → LoopCapped ws s (dispatch_loop ws s)
loop-Capped =
    loop_induction LoopCapped (λ ws s h c. c) (λ w ws s r q. q) (λ w ws s r e q. q)
      (λ w ws s worker free r e el q c. q (grant-Capped s worker free w el c))

module _ (limit : String → ℕ) where
  abbrev LoopLimited : List Waiter → Scheduler → Scheduler × List Waiter → Type 0
  LoopLimited ws s r = All (Asks limit) ws → Limited limit s → Limited limit r.0

  loop-Limited : (ws : List Waiter) (s : Scheduler) → LoopLimited ws s (dispatch_loop ws s)
  loop-Limited =
      loop_induction LoopLimited (λ ws s h a c. c) (λ w ws s r q a c. q a.1 c)
        (λ w ws s r e q a c. q a.1 c)
        (λ w ws s worker free r e el q a c. q a.1 (grant-Limited limit s worker free w el a.0 c))

abbrev LoopShorter : List Waiter → Scheduler → Scheduler × List Waiter → Type 0
LoopShorter ws s r = length (left_over r) ≤ length ws

loop-Shorter : (ws : List Waiter) (s : Scheduler) → LoopShorter ws s (dispatch_loop ws s)
loop-Shorter =
    loop_induction LoopShorter (λ ws s h. omega arith) (λ w ws s r q. omega arith)
      (λ w ws s r e q. omega arith) (λ w ws s worker free r e el q. omega arith)

-- Either every worker is taken, or nobody in the queue may have one.
abbrev pub Settled : Scheduler → Type 0
Settled s = (s.free ≡ []) ⊎ All (Blocked s) s.waiting

waiting-Grows :
    {s t : Scheduler} {ws : List Waiter} → Grows s t → Grows s (record t { waiting = ws })
waiting-Grows g = record {
  workers = g.workers;
  caps = g.caps;
  max_queue = g.max_queue;
  draining = g.draining;
  next_seq = g.next_seq;
  pools = g.pools;
  clients = g.clients;
}

waiting-Blocked :
    (t : Scheduler) (ws : List Waiter) (w : Waiter)
    → Blocked t w
    → Blocked (record t { waiting = ws }) w
unfolding eligible
waiting-Blocked t ws w b = b

All-Blocked :
    (t : Scheduler) (ws passed rest : List Waiter)
    → rest ≡ []
    → All (Blocked t) passed
    → All (Blocked (record t { waiting = ws })) (passed ++ rest)
All-Blocked t ws passed rest e b =
    All-append (Blocked (record t { waiting = ws })) passed rest
      (All-map (Blocked t) (Blocked (record t { waiting = ws })) (waiting-Blocked t ws) passed b)
      (rw e tt)

left_over-Settled :
    (ws : List Waiter) (s : Scheduler)
    → let r = dispatch_loop ws s in Settled (record r.0 { waiting = left_over r })
left_over-Settled ws s =
    let r = dispatch_loop ws s in
    let (g, b, end) = loop-settles ws s in
    elim end [ inl e ↦ inr (All-Blocked r.0 (left_over r) r.1 r.0.waiting e b) | inr e ↦ inl e ]

module _ (s : Scheduler) (o : InOrder s.waiting) where
  pub dispatch-InOrder : InOrder (dispatch s).waiting
  dispatch-InOrder = rw (dispatch_lem s o) ((loop-InOrder s.waiting s).1 o)

  pub dispatch-All : (P : Waiter → Type 0) → All P s.waiting → All P (dispatch s).waiting
  dispatch-All P a = rw (dispatch_lem s o) ((loop-InOrder s.waiting s).0 P a)

  pub dispatch-Capped : Capped s → Capped (dispatch s)
  dispatch-Capped c = rw (dispatch_lem s o) (loop-Capped s.waiting s c)

  pub dispatch-Limited :
      (limit : String → ℕ)
      → All (Asks limit) s.waiting
      → Limited limit s
      → Limited limit (dispatch s)
  dispatch-Limited limit a c = rw (dispatch_lem s o) (loop-Limited limit s.waiting s a c)

  pub dispatch-Shorter : length (dispatch s).waiting ≤ length s.waiting
  dispatch-Shorter = rw (dispatch_lem s o) (loop-Shorter s.waiting s)

  pub dispatch-Grows : Grows s (dispatch s)
  dispatch-Grows = rw (dispatch_lem s o) (waiting-Grows (loop-Grows s.waiting s))

  -- After `_dispatch` no free worker could serve anybody who waits.
  pub dispatch-Settled : Settled (dispatch s)
  dispatch-Settled = rw (dispatch_lem s o) (left_over-Settled s.waiting s)
