-- ===== src/Scheduler/Forget.antt =====
-- `_forget` takes a call's waiter out of the queue, and the invariant holds on.
use opendss_designer_cloud.Base.{
  ℕ, ◌≡◌, refl, inl, inr, true, false, some, List, [], ◌∷◌, arith, ◌==◌, ◌&&◌, find?, All, All-map,
  Bool-cases,
}
use opendss_designer_cloud.Scheduler.{Waiter, Scheduler, remove_waiter, eligible}
use opendss_designer_cloud.Scheduler.Calls.{Call, has_seq}
use opendss_designer_cloud.Scheduler.Queue.{
  InOrder, All-remove_waiter, remove_waiter-InOrder, length-remove_waiter-le,
}
use opendss_designer_cloud.Scheduler.Slots.{Linked}
use opendss_designer_cloud.Scheduler.Books.{Other}
use opendss_designer_cloud.Scheduler.Dispatch.{Blocked}
use opendss_designer_cloud.Scheduler.Invariant.{Tidy, Inv, Below, Accounts-same}
use opendss_designer_cloud.Scheduler.Steps.{Linked-call, Other-of_Ahead}

module _ (s : Scheduler) (cs : List Call) (c : Call) (k : ℕ)
    (found : find? (has_seq k) cs ≡ some c) where
  -- `_forget` takes the call's waiter out of the queue, if it is there.
  removed_Other :
      (ws : List Waiter)
      → InOrder ws
      → All (Linked s.futures cs) ws
      → All (Other k) (remove_waiter c.job.priority k ws)
  unfolding remove_waiter
  removed_Other [] o l = tt
  removed_Other (v ∷ ws) o l = elim (Bool-cases (v.seq == k)) [
    | inl q ↦
        let hit : (v.priority == c.job.priority && v.seq == k) ≡ true =
          ground (arith, Linked-call s.futures k cs c v found q l.0, l.0.ranked, l.0.job) in
        rw hit (Other-of_Ahead k v ws q o.0)
    | inr q ↦
        let miss : (v.priority == c.job.priority && v.seq == k) ≡ false = ground arith in
        rw miss (q, removed_Other ws o.1 l.1)
  ]

  abbrev pub forgotten : Scheduler
  forgotten = record s { waiting = remove_waiter c.job.priority k s.waiting }

  pub forget-Other : Tidy s cs → All (Other k) forgotten.waiting
  forget-Other t = removed_Other s.waiting t.order t.links

  forget_drained : Tidy s cs → s.draining ≡ true → forgotten.waiting ≡ []
  unfolding remove_waiter
  forget_drained t e = rw (t.drained e)

  pub forget-Tidy : Tidy s cs → Tidy forgotten cs
  forget-Tidy t = record {
    distinct = t.distinct;
    fresh = t.fresh;
    below = All-remove_waiter (Below s.next_seq) c.job.priority k s.waiting t.below;
    order = remove_waiter-InOrder c.job.priority k s.waiting t.order;
    links = All-remove_waiter (Linked s.futures cs) c.job.priority k s.waiting t.links;
    books = Accounts-same s forgotten cs cs refl refl refl refl (λ φ. refl) t.books;
    capped = t.capped;
    bounded = omega (arith, t.bounded, length-remove_waiter-le c.job.priority k s.waiting);
    drained = forget_drained t;
  }

  forget_Blocked : (w : Waiter) → Blocked s w → Blocked forgotten w
  unfolding eligible
  forget_Blocked w b = b

  pub forget-Inv : Inv s cs → Inv forgotten cs
  forget-Inv i = record {
    tidy = forget-Tidy i.tidy;
    settled = elim i.settled [
      | inl e ↦ inl e
      | inr b ↦ inr (
          All-remove_waiter (Blocked forgotten) c.job.priority k s.waiting
            (All-map (Blocked s) (Blocked forgotten) forget_Blocked s.waiting b))
    ];
  }
