-- ===== src/Scheduler/Arrival.antt =====
-- A call that arrives: it is queued under a seq of its own, and the invariant holds on.
use opendss_designer_cloud.Base.{
  ℕ, suc, ◌<◌, ◌≡◌, refl, String, false, none, List, [], ◌∷◌, arith, find?, All, assign, length,
}
use opendss_designer_cloud.Scheduler.{Job, Waiter, Scheduler, pending, enqueue}
use opendss_designer_cloud.Scheduler.Calls.{Call, awaiting, has_seq}
use opendss_designer_cloud.Scheduler.Queue.{
  Differs, All-heappush, heappush-InOrder, length-heappush,
}
use opendss_designer_cloud.Scheduler.Slots.{Linked, held, weigh, holding, held-assign_other}
use opendss_designer_cloud.Scheduler.Invariant.{Tidy, Below, Accounts-same}

find?_fresh : (n : ℕ) (cs : List Call) → All (λ c. c.seq < n) cs → find? (has_seq n) cs ≡ none
find?_fresh n [] h = refl
find?_fresh n (c ∷ cs) h = ground (arith, find?_fresh n cs h.1)

fresh_suc : (n : ℕ) (cs : List Call) → All (λ c. c.seq < n) cs → All (λ c. c.seq < suc n) cs
fresh_suc n [] h = tt
fresh_suc n (c ∷ cs) h = (omega arith, fresh_suc n cs h.1)

Below-suc : (n : ℕ) (ws : List Waiter) → All (Below n) ws → All (Below (suc n)) ws
Below-suc n [] h = tt
Below-suc n (w ∷ ws) h = (omega arith, Below-suc n ws h.1)

Differs-of_Below : (w : Waiter) (ws : List Waiter) → All (Below w.seq) ws → All (Differs w) ws
Differs-of_Below w [] h = tt
Differs-of_Below w (v ∷ ws) h = (ground arith, Differs-of_Below w ws h.1)

module _ (s : Scheduler) (cs : List Call) (job : Job) (now : ℕ) (i : Tidy s cs) where
  abbrev pub newcomer : Call
  newcomer = record { seq = s.next_seq; job = job; enqueued = now; phase = awaiting }

  held-newcomer :
      (φ : String → Job → ℕ)
      → held φ (assign s.next_seq pending s.futures) (newcomer ∷ cs) ≡ held φ s.futures cs
  unfolding weigh holding
  held-newcomer φ = ground (
    arith,
    held-assign_other φ s.next_seq pending s.futures cs (find?_fresh s.next_seq cs i.fresh),
  )

  newcomer-Linked :
      (v : Waiter)
      → Below s.next_seq v
      → Linked s.futures cs v
      → Linked (enqueue s job now).futures (newcomer ∷ cs) v
  newcomer-Linked v b l = record {
    call = l.call;
    found = ground (arith, l.found);
    job = l.job;
    ranked = l.ranked;
    suspended = l.suspended;
    empty = ground (arith, l.empty);
  }

  newcomer-All :
      (ws : List Waiter)
      → All (Below s.next_seq) ws
      → All (Linked s.futures cs) ws
      → All (Linked (enqueue s job now).futures (newcomer ∷ cs)) ws
  newcomer-All [] b l = tt
  newcomer-All (v ∷ ws) b l = (newcomer-Linked v b.0 l.0, newcomer-All ws b.1 l.1)

  waiter : Waiter
  waiter = record { priority = job.priority; seq = s.next_seq; job = job; enqueued = now }

  waiter-Linked : Linked (enqueue s job now).futures (newcomer ∷ cs) waiter
  unfolding waiter
  waiter-Linked = record {
    call = newcomer;
    found = ground arith;
    job = refl;
    ranked = refl;
    suspended = refl;
    empty = ground arith;
  }

  pub enqueue-Tidy :
      length s.waiting < s.max_queue → s.draining ≡ false → Tidy (enqueue s job now) (newcomer ∷ cs)
  unfolding waiter
  enqueue-Tidy room open_ = record {
    distinct = (find?_fresh s.next_seq cs i.fresh, i.distinct);
    fresh = (omega arith, fresh_suc s.next_seq cs i.fresh);
    below =
        All-heappush (Below (suc s.next_seq)) s.waiting waiter (omega arith)
          (Below-suc s.next_seq s.waiting i.below);
    order = heappush-InOrder s.waiting waiter i.order (Differs-of_Below waiter s.waiting i.below);
    links =
        All-heappush (Linked (enqueue s job now).futures (newcomer ∷ cs)) s.waiting waiter
          waiter-Linked (newcomer-All s.waiting i.below i.links);
    books =
        Accounts-same s (enqueue s job now) cs (newcomer ∷ cs) refl refl refl refl held-newcomer
          i.books;
    capped = i.capped;
    bounded = omega (arith, length-heappush s.waiting waiter);
    drained = λ e. cc;
  }
