-- ===== src/Scheduler/Drain.antt =====
-- `drain`: the queue is failed, and the invariant holds on.
use opendss_designer_cloud.Base.{
  ℕ, ◌≡◌, refl, ◌∙◌, inl, inr, String, List, [], ◌∷◌, arith, All, assign, Bool-cases,
}
use opendss_designer_cloud.Scheduler.{
  Job, Waiter, Future, Scheduler, failed, is_done, fail_all, drain,
}
use opendss_designer_cloud.Scheduler.Calls.{Call}
use opendss_designer_cloud.Scheduler.Queue.{InOrder}
use opendss_designer_cloud.Scheduler.Slots.{
  Linked, Distinct, held, held-assign, open_holding, unset_empty,
}
use opendss_designer_cloud.Scheduler.Books.{Linked-assign}
use opendss_designer_cloud.Scheduler.Invariant.{Inv, Accounts-same}

fail_held :
    (φ : String → Job → ℕ) (f : ℕ → Future) (cs : List Call) (w : Waiter)
    → Distinct cs
    → Linked f cs w
    → held φ (assign w.seq failed f) cs ≡ held φ f cs
fail_held φ f cs w d l = ground (
  arith,
  held-assign φ w.seq failed f cs l.call d l.found,
  open_holding l.call.phase failed l.suspended,
  open_holding l.call.phase (f w.seq) l.suspended,
  unset_empty (f w.seq) l.empty,
)

pub fail_all-held :
    (φ : String → Job → ℕ) (cs : List Call) (ws : List Waiter) (f : ℕ → Future)
    → Distinct cs
    → InOrder ws
    → All (Linked f cs) ws
    → held φ (fail_all ws f) cs ≡ held φ f cs
unfolding fail_all
fail_all-held φ cs [] f d o l = refl
fail_all-held φ cs (w ∷ ws) f d o l = elim (Bool-cases (is_done (f w.seq))) [
  | inl e ↦ rw e (fail_all-held φ cs ws f d o.1 l.1)
  | inr e ↦ rw e (
      fail_all-held φ cs ws (assign w.seq failed f) d o.1 (Linked-assign f cs w failed ws o.0 l.1)
      ∙ fail_held φ f cs w d l.0)
]

pub drain-Inv : (s : Scheduler) (cs : List Call) → Inv s cs → Inv (drain s) cs
unfolding drain
drain-Inv s cs i = record {
  tidy = record {
    distinct = i.distinct;
    fresh = i.fresh;
    below = tt;
    order = tt;
    links = tt;
    books =
        Accounts-same s (drain s) cs cs refl refl refl refl
          (λ φ. fail_all-held φ cs s.waiting s.futures i.distinct i.order i.links) i.books;
    capped = i.capped;
    bounded = omega arith;
    drained = λ e. refl;
  };
  settled = inr tt;
}
