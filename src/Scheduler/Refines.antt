-- ===== src/Scheduler/Refines.antt =====
-- `_dispatch` against its specification, one worker at a time: the first waiter in the queue who may run is
-- served, until no worker is free or nobody may.
use mathlib.Core.List.{append_assoc}
use opendss_designer_cloud.Base.{
  ◌≡◌, refl, subst, inl, inr, String, true, false, List, [], ◌∷◌, ◌++◌, arith, All, All-append,
  All-map, List-cases,
}
use opendss_designer_cloud.Scheduler.{
  Waiter, Scheduler, abandoned, granted, eligible, verdict, grant, is_done, dispatch_loop, dispatch,
}
use opendss_designer_cloud.Scheduler.Dispatch.{
  Verdict-cases, loop_nil, loop_stop, loop_drop, loop_skip, loop_grant, verdict-skipped,
  verdict-granted, grant-Grows, with_waiting-Grows, eligible_antitone, Blocked, left_over,
  dispatch_lem,
}
use opendss_designer_cloud.Scheduler.Limits.{Settled, dispatch-Settled}
use opendss_designer_cloud.Scheduler.Queue.{InOrder}

-- The specification. Its state is the scheduler's; a step serves the first waiter who may run with the
-- first free worker, or takes a waiter out of the queue whose future is done.
pub data Serves : Scheduler → Scheduler → Type 0 where
  at_rest : {s : Scheduler} → Serves s s
  serve :
      {s t : Scheduler} (front : List Waiter) (w : Waiter) (back : List Waiter) (worker : String)
      (free : List String)
      → s.waiting ≡ front ++ w ∷ back
      → s.free ≡ worker ∷ free
      → All (Blocked s) front
      → is_done (s.futures w.seq) ≡ false
      → eligible s w.job ≡ true
      → Serves (record (grant s worker free w) { waiting = front ++ back }) t
      → Serves s t
  purge :
      {s t : Scheduler} (front : List Waiter) (w : Waiter) (back : List Waiter)
      → s.waiting ≡ front ++ w ∷ back
      → is_done (s.futures w.seq) ≡ true
      → Serves (record s { waiting = front ++ back }) t
      → Serves s t

verdict-abandoned :
    (s : Scheduler) (w : Waiter) → verdict s w ≡ abandoned → is_done (s.futures w.seq) ≡ true
unfolding verdict
verdict-abandoned s w v = ground arith

verdict_open :
    (s : Scheduler) (w : Waiter) → verdict s w ≡ granted → is_done (s.futures w.seq) ≡ false
unfolding verdict
verdict_open s w v = ground arith

abbrev queued : List Waiter → Scheduler → Scheduler
queued ws s = record s { waiting = ws }

queued-Blocked :
    (s : Scheduler) (ws front : List Waiter)
    → All (Blocked s) front
    → All (Blocked (queued ws s)) front
unfolding eligible
queued-Blocked s ws front b = All-map (Blocked s) (Blocked (queued ws s)) (λ w h. h) front b

grant-Blocked :
    (s : Scheduler) (worker : String) (free : List String) (w : Waiter) (front : List Waiter)
    → All (Blocked s) front
    → All (Blocked (grant s worker free w)) front
grant-Blocked s worker free w front b =
    let t = grant s worker free w in
    All-map (Blocked s) (Blocked t)
      (λ v h.
        eligible_antitone s t v.job (grant-Grows s t worker free w (with_waiting-Grows t t.waiting))
          h)
      front b

-- The loop, with the waiters that it has skipped in front.
abbrev LoopServes : List Waiter → List Waiter → Scheduler → Type 0
LoopServes front ws s =
    let r = dispatch_loop ws s in
    Serves (queued (front ++ ws) s) (queued (front ++ left_over r) r.0)

loop-Serves :
    (ws : List Waiter) (s : Scheduler) (front : List Waiter)
    → All (Blocked s) front
    → LoopServes front ws s
unfolding grant eligible
loop-Serves [] s front b = rw loop_nil at_rest
loop-Serves (w ∷ ws) s front b = elim (List-cases s.free) [
  | inl e ↦ rw (loop_stop w ws s e) at_rest
  | inr (worker, free, e) ↦ elim (Verdict-cases (verdict s w)) [
    | inl v ↦
        rw (loop_drop w ws s worker free e v)
          (purge front w ws refl (verdict-abandoned s w v) (loop-Serves ws s front b))
    | inr (inl v) ↦
        let r = dispatch_loop ws s in
        let passed = front ++ w ∷ [] in
        rw (loop_skip w ws s worker free e v) (
          subst (λ x. Serves (queued x s) (queued (front ++ w ∷ left_over r) r.0))
            (append_assoc front (w ∷ []) ws)
            (subst (λ x. Serves (queued (passed ++ ws) s) (queued x r.0))
              (append_assoc front (w ∷ []) (left_over r))
              (loop-Serves ws s passed
                (All-append (Blocked s) front (w ∷ []) b (verdict-skipped s w v, tt)))))
    | inr (inr v) ↦ rw (loop_grant w ws s worker free e v) (
        serve front w ws worker free refl e (queued-Blocked s (front ++ w ∷ ws) front b)
          (verdict_open s w v) (verdict-granted s w v)
          (loop-Serves ws (grant s worker free w) front (grant-Blocked s worker free w front b)))
  ]
]

-- For a queue in order, one pass of `_dispatch` is a run of the specification `Serves`, which looks from
-- the front of the queue each time, and it ends where no worker is free or nobody who waits may run.
pub dispatch-Serves :
    (s : Scheduler) → InOrder s.waiting → Serves s (dispatch s) × Settled (dispatch s)
dispatch-Serves s o = (rw (dispatch_lem s o) (loop-Serves s.waiting s [] tt), dispatch-Settled s o)
