-- ===== src/Scheduler/Priority.antt =====
-- `_dispatch` serves by priority, then arrival: who may run is never overtaken.
use opendss_designer_cloud.Base.{ℕ, ◌≡◌, refl, ◌∙◌, String, true, false, List, [], ◌∷◌, arith, All}
use opendss_designer_cloud.Scheduler.{
  Job, Waiter, Scheduler, eligible, grant, dispatch_loop, dispatch, before, release_worker,
}
use opendss_designer_cloud.Scheduler.Queue.{InOrder, Ahead}
use opendss_designer_cloud.Scheduler.Dispatch.{
  Grows, loop_induction, left_over, dispatch_lem, eligible_antitone, grant-Grows,
  with_waiting-Grows, LoopKeeps,
}
use opendss_designer_cloud.Scheduler.Induction.{returned}
use opendss_designer_cloud.Scheduler.Books.{Other}

-- Nobody in a list behind `v` got or lost anything: its future is as it was.
abbrev pub Untouched : Scheduler → Scheduler → Waiter → Waiter → Type 0
Untouched s t v w = before v w ≡ true → t.futures w.seq ≡ s.futures w.seq

-- If `v` may run then nobody behind it was served.
abbrev pub NotOvertaken : List Waiter → Scheduler → Scheduler → Waiter → Type 0
NotOvertaken ws s t v = eligible t v.job ≡ true → All (Untouched s t v) ws

record LoopServes (ws : List Waiter) (s : Scheduler) (r : Scheduler × List Waiter) : Type 1 where
  grows : Grows s r.0
  keeps : LoopKeeps ws s r
  stable : (j : ℕ) → All (Other j) ws → r.0.futures j ≡ s.futures j
  serves : InOrder ws → All (NotOvertaken ws s r.0) (left_over r)

abbrev Same : Scheduler → Scheduler → Type 0
Same s t = (w : Waiter) → t.futures w.seq ≡ s.futures w.seq

Untouched-All :
    (s t : Scheduler) (v : Waiter) (ws : List Waiter) → Same s t → All (Untouched s t v) ws
Untouched-All s t v [] h = tt
Untouched-All s t v (w ∷ ws) h = (λ b. h w, Untouched-All s t v ws h)

stop-All : (s t : Scheduler) (us ws : List Waiter) → Same s t → All (NotOvertaken us s t) ws
stop-All s t us [] h = tt
stop-All s t us (w ∷ ws) h = (λ e. Untouched-All s t w us h, stop-All s t us ws h)

-- A head of the queue that is not behind `v` cannot have overtaken it.
Ahead-All :
    (s t : Scheduler) (w : Waiter) (ws vs : List Waiter)
    → All (Ahead w) vs
    → All (NotOvertaken ws s t) vs
    → All (NotOvertaken (w ∷ ws) s t) vs
Ahead-All s t w ws [] a h = tt
Ahead-All s t w ws (v ∷ vs) a h =
    (λ e. (λ b. absurd (ground arith), h.0 e), Ahead-All s t w ws vs a.1 h.1)

module _ (s t : Scheduler) (worker : String) (free : List String) (w : Waiter) where
  granted-Untouched :
      (v : Waiter) (ws : List Waiter)
      → All (Ahead w) ws
      → All (Untouched (grant s worker free w) t v) ws
      → All (Untouched s t v) ws
  unfolding grant
  granted-Untouched v [] a h = tt
  granted-Untouched v (u ∷ ws) a h = (λ b. h.0 b ∙ ground arith, granted-Untouched v ws a.1 h.1)

  granted-All :
      (ws vs : List Waiter)
      → All (Ahead w) ws
      → All (NotOvertaken ws (grant s worker free w) t) vs
      → All (NotOvertaken ws s t) vs
  granted-All ws [] a h = tt
  granted-All ws (v ∷ vs) a h = (λ e. granted-Untouched v ws a (h.0 e), granted-All ws vs a h.1)

  granted_stable : (j : ℕ) → Other j w → (grant s worker free w).futures j ≡ s.futures j
  unfolding grant
  granted_stable j o = ground arith

drop-Serves :
    (w : Waiter) (ws : List Waiter) (s : Scheduler) (r : Scheduler × List Waiter)
    → LoopServes ws s r
    → LoopServes (w ∷ ws) s r
drop-Serves w ws s r q = record {
  grows = q.grows;
  keeps = λ P a. q.keeps P a.1;
  stable = λ j h. q.stable j h.1;
  serves = λ o. Ahead-All s r.0 w ws (left_over r) (q.keeps (Ahead w) o.0) (q.serves o.1);
}

skip-Serves :
    (w : Waiter) (ws : List Waiter) (s : Scheduler) (r : Scheduler × List Waiter)
    → eligible s w.job ≡ false
    → LoopServes ws s r
    → LoopServes (w ∷ ws) s (r.0, w ∷ r.1)
skip-Serves w ws s r e q = record {
  grows = q.grows;
  keeps = λ P a. (a.0, q.keeps P a.1);
  stable = λ j h. q.stable j h.1;
  serves = λ o. (
    λ may. absurd (ground (arith, eligible_antitone s r.0 w.job q.grows e)),
    Ahead-All s r.0 w ws (left_over r) (q.keeps (Ahead w) o.0) (q.serves o.1),
  );
}

grant-Serves :
    (w : Waiter) (ws : List Waiter) (s : Scheduler) (worker : String) (free : List String)
    (r : Scheduler × List Waiter)
    → LoopServes ws (grant s worker free w) r
    → LoopServes (w ∷ ws) s r
grant-Serves w ws s worker free r q = record {
  grows = grant-Grows s r.0 worker free w q.grows;
  keeps = λ P a. q.keeps P a.1;
  stable = λ j h. q.stable j h.1 ∙ granted_stable s r.0 worker free w j h.0;
  serves = λ o.
      Ahead-All s r.0 w ws (left_over r) (q.keeps (Ahead w) o.0)
        (granted-All s r.0 worker free w ws (left_over r) o.0 (q.serves o.1));
}

loop-Serves : (ws : List Waiter) (s : Scheduler) → LoopServes ws s (dispatch_loop ws s)
loop-Serves =
    loop_induction LoopServes
      (λ ws s h. record {
        grows = with_waiting-Grows s ws;
        keeps = λ P a. a;
        stable = λ j o. refl;
        serves = λ o. stop-All s (record s { waiting = ws }) ws ws (λ w. refl);
      })
      drop-Serves skip-Serves (λ w ws s worker free r e el q. grant-Serves w ws s worker free r q)

shown_waiting :
    (s t : Scheduler) (us ws vs : List Waiter)
    → All (NotOvertaken us s t) vs
    → All (NotOvertaken us s (record t { waiting = ws })) vs
unfolding eligible
shown_waiting s t us ws [] h = tt
shown_waiting s t us ws (v ∷ vs) h = (h.0, shown_waiting s t us ws vs h.1)

pub dispatch-NotOvertaken :
    (s : Scheduler)
    → InOrder s.waiting
    → All (NotOvertaken s.waiting s (dispatch s)) (dispatch s).waiting
dispatch-NotOvertaken s o =
    let r = dispatch_loop s.waiting s in
    rw (dispatch_lem s o) (
      shown_waiting s r.0 s.waiting (left_over r) (left_over r)
        ((loop-Serves s.waiting s).serves o))

pub release_worker-NotOvertaken :
    (s : Scheduler) (worker : String) (job : Job)
    → InOrder s.waiting
    → let t = release_worker s worker job in All (NotOvertaken s.waiting s t) t.waiting
unfolding release_worker
release_worker-NotOvertaken s worker job o = dispatch-NotOvertaken (returned s worker job) o
