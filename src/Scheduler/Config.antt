-- ===== src/Scheduler/Config.antt =====
-- No event changes the workers, the pool caps or the queue's limit.
use opendss_designer_cloud.Base.{◌≡◌, refl, List, [], ◌∷◌, All, ◌∙◌}
use opendss_designer_cloud.Scheduler.{Scheduler, dispatch, drain}
use opendss_designer_cloud.Scheduler.Calls.{
  System, Event, arrive, resume, expire, unwind, release, shutdown, run,
}
use opendss_designer_cloud.Scheduler.Queue.{InOrder}
use opendss_designer_cloud.Scheduler.Limits.{dispatch-Grows}
use opendss_designer_cloud.Scheduler.Reachable.{IsSound}
use opendss_designer_cloud.Scheduler.Induction.{Admissible, run_induction}

pub record SameConfig (s t : Scheduler) : Type 0 where
  pub workers : t.workers ≡ s.workers
  pub caps : t.pool_caps ≡ s.pool_caps
  pub max_queue : t.max_queue ≡ s.max_queue

abbrev pub unchanged : (s : Scheduler) → SameConfig s s
unchanged s = record { workers = refl; caps = refl; max_queue = refl }

module _ (s : Scheduler) where
  dispatch-SameConfig :
      (t : Scheduler) → InOrder t.waiting → SameConfig s t → SameConfig s (dispatch t)
  dispatch-SameConfig t o h =
      let g = dispatch-Grows t o in
      record {
        workers = g.workers ∙ h.workers;
        caps = g.caps ∙ h.caps;
        max_queue = g.max_queue ∙ h.max_queue;
      }

  drain-SameConfig : (t : Scheduler) → SameConfig s t → SameConfig s (drain t)
  unfolding drain
  drain-SameConfig t h = record { workers = h.workers; caps = h.caps; max_queue = h.max_queue }

  copy :
      (t u : Scheduler)
      → u.workers ≡ t.workers
      → u.pool_caps ≡ t.pool_caps
      → u.max_queue ≡ t.max_queue
      → SameConfig s t
      → SameConfig s u
  copy t u a b c h = record {
    workers = a ∙ h.workers;
    caps = b ∙ h.caps;
    max_queue = c ∙ h.max_queue;
  }

pub any_event : (es : List Event) → All (λ e. Admissible (λ _. Unit {0}) e) es
any_event [] = tt
any_event (arrive job now ∷ es) = (tt, any_event es)
any_event (resume k now ∷ es) = (tt, any_event es)
any_event (expire k ∷ es) = (tt, any_event es)
any_event (unwind k ∷ es) = (tt, any_event es)
any_event (release k ∷ es) = (tt, any_event es)
any_event (shutdown ∷ es) = (tt, any_event es)

pub run-SameConfig :
    (y : System) (es : List Event) → IsSound y → SameConfig y.sched (run y es).sched
run-SameConfig y es i =
    let s = y.sched in
    run_induction (SameConfig s) (λ _. Unit {0}) (λ t job now a e h. copy s t _ refl refl refl h)
      (dispatch-SameConfig s) (λ t w job h. copy s t _ refl refl refl h)
      (λ t c h. copy s t _ refl refl refl h) (λ t f h. copy s t _ refl refl refl h)
      (drain-SameConfig s) y es (any_event es) i (unchanged s)
