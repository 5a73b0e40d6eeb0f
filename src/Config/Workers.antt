-- ===== src/Config/Workers.antt =====
-- What the settings promise the scheduler: there is a worker, and guests leave room where they are told to.
use opendss_designer_cloud.Base.{
  ℕ, suc, ◌≤◌, ◌<◌, ◌≡◌, refl, ap, ◌∙◌, String, Option, none, some, List, [], ◌∷◌, arith, length,
  same,
}
use opendss_designer_cloud.Base.Int.{ℤ, pos, negsuc, pos_part}
use opendss_designer_cloud.Config.{
  Config, Env, from_env, or_workers, asked, clamp, guest_workers, guest_cap, scheduler_of,
}
use opendss_designer_cloud.Scheduler.{Scheduler, init, idle}
use opendss_designer_cloud.Scheduler.Calls.{Event, run}
use opendss_designer_cloud.Scheduler.Slots.{held, in_pool}
use opendss_designer_cloud.Scheduler.Reachable.{start}
use opendss_designer_cloud.Scheduler.Guarantees.{pool_capped}

or_workers-length : (ws : List String) → 0 < length (or_workers ws)
or_workers-length [] = omega arith
or_workers-length (w ∷ ws) = omega arith

init-some :
    (ws : List String) (caps : String → Option ℕ) (n : ℕ)
    → 0 < length ws
    → init ws caps n ≡ some (idle ws caps n)
unfolding init
init-some [] caps n h = absurd (omega arith)
init-some (w ∷ ws) caps n h = refl

asked_bounds :
    (o : Option ℤ) (n : ℕ) → 0 < n → (1 ≤ clamp (asked o n) n) × (clamp (asked o n) n ≤ n)
unfolding asked clamp
asked_bounds none n h = omega arith
asked_bounds (some (pos m)) n h = ground arith
asked_bounds (some (negsuc m)) n h = omega arith

-- From any environment a scheduler is made (its constructor does not raise), with at least one
-- worker, and the guests' share is at least one worker and at most all.
pub from_env_serves :
    {F : Type 0} (float : String → Option F) (seconds : ℕ → F) (random : String) (env : Env)
    → let cfg = from_env float seconds random env in
      (scheduler_of cfg
        ≡ some (idle cfg.workers (guest_cap (guest_workers cfg)) (pos_part cfg.max_queue)))
      × (0 < length cfg.workers)
      × (1 ≤ guest_workers cfg)
      × (guest_workers cfg ≤ length cfg.workers)
unfolding from_env scheduler_of guest_workers
from_env_serves float seconds random env =
    let cfg = from_env float seconds random env in
    let some_worker : 0 < length cfg.workers = or_workers-length _ in
    let bounds = asked_bounds cfg.guest_max_workers (length cfg.workers) some_worker in
    (init-some cfg.workers _ _ some_worker, some_worker, bounds.0, bounds.1)

capped : (n : ℕ) → guest_cap n "guest" ≡ some n
unfolding same
capped n = refl

asked_share : (n len : ℕ) → suc n < len → clamp (asked (some (pos (suc n))) len) len ≡ suc n
unfolding asked clamp
asked_share n len h = ground arith

-- With a share of the guests that is set to less than the number of workers, and after any events,
-- guests hold at most that share, so that they never hold every worker.
pub guests_leave_room :
    {F : Type 0} (cfg : Config F) (n : ℕ) (s : Scheduler) (es : List Event)
    → cfg.guest_max_workers ≡ some (pos (suc n))
    → suc n < length cfg.workers
    → scheduler_of cfg ≡ some s
    → let y = run (start s) es in
      (held (in_pool "guest") y.sched.futures y.calls ≤ suc n)
      × (held (in_pool "guest") y.sched.futures y.calls < length cfg.workers)
unfolding scheduler_of guest_workers
guests_leave_room cfg n s es set below made =
    let share : guest_workers cfg ≡ suc n =
      ap (λ o. clamp (asked o (length cfg.workers)) (length cfg.workers)) set
      ∙ asked_share n (length cfg.workers) below in
    let cap : held (in_pool "guest") (run (start s) es).sched.futures (run (start s) es).calls
        ≤ guest_workers cfg =
      pool_capped cfg.workers (guest_cap (guest_workers cfg)) (pos_part cfg.max_queue) s made es
        "guest" (guest_workers cfg) (capped (guest_workers cfg)) in
    omega (arith, cap, share)
