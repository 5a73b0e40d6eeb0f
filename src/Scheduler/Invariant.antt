-- ===== src/Scheduler/Invariant.antt =====
-- The invariant of the scheduler with its callers, which every event keeps.
use opendss_designer_cloud.Base.{
  ℕ, ◌≤◌, ◌<◌, ◌≡◌, sym, ◌∙◌, String, true, List, [], arith, All, length,
}
use opendss_designer_cloud.Scheduler.{Job, Waiter, Scheduler, dispatch}
use opendss_designer_cloud.Scheduler.Calls.{Call}
use opendss_designer_cloud.Scheduler.Queue.{InOrder}
use opendss_designer_cloud.Scheduler.Slots.{Accounts, Linked, Distinct, held, in_pool, of_client}
use opendss_designer_cloud.Scheduler.Books.{dispatch-Books}
use opendss_designer_cloud.Scheduler.Limits.{
  Capped, Settled, dispatch-InOrder, dispatch-All, dispatch-Capped, dispatch-Shorter,
  dispatch-Grows, dispatch-Settled,
}

-- The books depend on the counters, the free list and who holds what.
pub Accounts-same :
    (s t : Scheduler) (cs ds : List Call)
    → t.free ≡ s.free
    → t.workers ≡ s.workers
    → t.pool_inuse ≡ s.pool_inuse
    → t.client_inuse ≡ s.client_inuse
    → ((φ : String → Job → ℕ) → held φ t.futures ds ≡ held φ s.futures cs)
    → Accounts s cs
    → Accounts t ds
Accounts-same s t cs ds f w p c h a = record {
  pools = λ k. rw (p, h (in_pool k)) (a.pools k);
  clients = λ k. rw (c, h (of_client k)) (a.clients k);
  stock = λ φ. rw (f, w, h (λ v _. φ v)) (a.stock φ);
}

abbrev pub Below : ℕ → Waiter → Type 0
Below n w = w.seq < n

-- All that holds between the steps of a method too.
pub record Tidy (s : Scheduler) (cs : List Call) : Type 0 where
  pub distinct : Distinct cs
  pub fresh : All (λ c. c.seq < s.next_seq) cs
  pub below : All (Below s.next_seq) s.waiting
  pub order : InOrder s.waiting
  pub links : All (Linked s.futures cs) s.waiting
  pub books : Accounts s cs
  pub capped : Capped s
  pub bounded : length s.waiting ≤ s.max_queue
  pub drained : s.draining ≡ true → s.waiting ≡ []

pub record Inv (s : Scheduler) (cs : List Call) : Type 0 where
  pub tidy : Tidy s cs
  pub open tidy use *
  pub settled : Settled s

pub dispatch_drained : (s : Scheduler) → s.waiting ≡ [] → (dispatch s).waiting ≡ []
unfolding dispatch
dispatch_drained s e = ground arith

-- `_dispatch` keeps what is tidy, and leaves nobody waiting who could run.
pub dispatch-Inv : (s : Scheduler) (cs : List Call) → Tidy s cs → Inv (dispatch s) cs
dispatch-Inv s cs t =
    let g = dispatch-Grows s t.order in
    let (books, links) = dispatch-Books cs t.distinct s t.order t.links t.books in
    record {
      tidy = record {
        distinct = t.distinct;
        fresh = rw g.next_seq t.fresh;
        below = rw g.next_seq (dispatch-All s t.order (Below s.next_seq) t.below);
        order = dispatch-InOrder s t.order;
        links = links;
        books = books;
        capped = dispatch-Capped s t.order t.capped;
        bounded = omega (arith, dispatch-Shorter s t.order, t.bounded, g.max_queue);
        drained = λ e. dispatch_drained s (t.drained (sym g.draining ∙ e));
      };
      settled = dispatch-Settled s t.order;
    }
