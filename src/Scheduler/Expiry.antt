-- ===== src/Scheduler/Expiry.antt =====
-- The timeout, or a cancellation, arrives at a suspended call, and the invariant holds on.
use opendss_designer_cloud.Base.{
  ℕ, ◌≡◌, refl, String, some, List, [], ◌∷◌, arith, ◌==◌, if◌then◌else◌, find?, All, assign,
}
use opendss_designer_cloud.Scheduler.{Job, Waiter, Scheduler, eligible}
use opendss_designer_cloud.Scheduler.Calls.{
  Call, awaiting, expired, has_seq, set_phase, with_phase, cancel,
}
use opendss_designer_cloud.Scheduler.Slots.{
  Linked, Distinct, held, holding, held-set_phase, held-assign, find?-set_phase, set_phase-Distinct,
}
use opendss_designer_cloud.Scheduler.Invariant.{Inv, Accounts-same}
use opendss_designer_cloud.Scheduler.Steps.{set_phase-fresh}

module _ (s : Scheduler) (cs : List Call) (c : Call) (k : ℕ)
    (found : find? (has_seq k) cs ≡ some c) where
  abbrev pub timed_out : Scheduler
  timed_out = record s { futures = assign k (cancel (s.futures k)) s.futures }

  expire_found : find? (has_seq k) (set_phase k expired cs) ≡ some (with_phase expired c)
  expire_found = ground (arith, find?-set_phase k k expired cs)

  expire_held :
      (φ : String → Job → ℕ)
      → Distinct cs
      → c.phase ≡ awaiting
      → held φ timed_out.futures (set_phase k expired cs) ≡ held φ s.futures cs
  unfolding holding
  expire_held φ d e = ground (
    arith,
    held-set_phase φ k expired s.futures cs c d found,
    held-assign φ k (cancel (s.futures k)) s.futures (set_phase k expired cs) (with_phase expired c)
        (set_phase-Distinct k expired cs d) expire_found,
  )

  expire-Linked :
      (ws : List Waiter)
      → All (Linked s.futures cs) ws
      → All (Linked timed_out.futures (set_phase k expired cs)) ws
  expire-Linked [] l = tt
  expire-Linked (v ∷ ws) l = (
    record {
      call = if v.seq == k then with_phase expired l.0.call else l.0.call;
      found = ground (arith, find?-set_phase v.seq k expired cs, l.0.found);
      job = ground (arith, l.0.job);
      ranked = l.0.ranked;
      suspended = ground (arith, l.0.suspended);
      empty = ground (arith, l.0.empty);
    },
    expire-Linked ws l.1,
  )

  pub expire-Inv : c.phase ≡ awaiting → Inv s cs → Inv timed_out (set_phase k expired cs)
  unfolding eligible
  expire-Inv e i = record {
    tidy = record {
      distinct = set_phase-Distinct k expired cs i.distinct;
      fresh = set_phase-fresh s.next_seq k expired cs i.fresh;
      below = i.below;
      order = i.order;
      links = expire-Linked s.waiting i.links;
      books =
          Accounts-same s timed_out cs (set_phase k expired cs) refl refl refl refl
            (λ φ. expire_held φ i.distinct e) i.books;
      capped = i.capped;
      bounded = i.bounded;
      drained = i.drained;
    };
    settled = i.settled;
  }
