-- ===== src/Config/Tests.antt =====
-- Settings at concrete environments.
use opendss_designer_cloud.Base.{
  ℕ, ◌≤◌, ◌<◌, ◌≡◌, refl, String, true, none, some, List, [], ◌∷◌, arith, length, same,
  if◌then◌else◌,
}
use opendss_designer_cloud.Base.Int.{pos, negsuc, pos_part}
use opendss_designer_cloud.Base.Text.{lower, strip}
use opendss_designer_cloud.Base.Text.Numbers.{int_of, read_int, read_digits}
use opendss_designer_cloud.Base.Text.Split.{split_on}
use opendss_designer_cloud.Config.{
  Config, Env, from_env, guest_workers, guest_cap, scheduler_of, worker_urls, rstrip_slash,
  starts_with, optional_int, num, str, secure_cookies, asked, clamp, bool_of, is_yes, cookie_of,
}
use opendss_designer_cloud.Config.Workers.{from_env_serves, guests_leave_room}
use opendss_designer_cloud.Scheduler.{Scheduler, Job, init, idle}
use opendss_designer_cloud.Scheduler.Calls.{Event, arrive, resume, run}
use opendss_designer_cloud.Scheduler.Slots.{held, in_pool}
use opendss_designer_cloud.Scheduler.Reachable.{start}

-- Three workers, two of them for guests.
abbrev pub env : Env
env k =
    if same k "GATEWAY_WORKERS"
    then some " http://a:1/ ,, http://b:2,http://c:3//"
    else if same k "GATEWAY_GUEST_MAX_WORKERS"
    then some "2"
    else if same k "GATEWAY_PUBLIC_URL"
    then some "https://grid.example/"
    else if same k "GATEWAY_MAX_QUEUE"
    then some "many"
    else none

-- Floats stay shut: here they are whole seconds, and no text is read as one.
abbrev pub cfg : Config ℕ
cfg = from_env (λ s. none) (λ n. n) "secret" env

machine : Unit {0}
unfolding from_env worker_urls rstrip_slash starts_with optional_int num str strip split_on int_of
    read_int read_digits same guest_workers asked clamp scheduler_of init secure_cookies bool_of
    is_yes lower cookie_of
machine = tt

urls : cfg.workers ≡ "http://a:1" ∷ "http://b:2" ∷ "http://c:3" ∷ []
unfolding machine
urls = refl

queue : cfg.max_queue ≡ pos 16
unfolding machine
queue = refl

share : guest_workers cfg ≡ 2
unfolding machine
share = refl

https_cookies : secure_cookies cfg ≡ true
unfolding machine
https_cookies = refl

-- A negative share is one worker.
negative_share : guest_workers (record cfg { guest_max_workers = some (negsuc 4) }) ≡ 1
unfolding machine
negative_share = refl

abbrev made : Scheduler
made = idle ("http://a:1" ∷ "http://b:2" ∷ "http://c:3" ∷ []) (guest_cap 2) 16

made_lem : scheduler_of cfg ≡ some made
unfolding machine
made_lem = refl

set : cfg.guest_max_workers ≡ some (pos 2)
unfolding machine
set = refl

workers_3 : length cfg.workers ≡ 3
unfolding machine
workers_3 = refl

abbrev guest : String → Job
guest c = record { client = c; plan_id = "guest"; priority = 10; pool = "guest"; concurrency = 1 }

abbrev events : List Event
events = arrive (guest "a") 0 ∷ arrive (guest "b") 1 ∷ arrive (guest "c") 2 ∷ resume 0 3 ∷ []

guests_leave_room_example :
    let y = run (start made) events in
    (held (in_pool "guest") y.sched.futures y.calls ≤ 2)
    × (held (in_pool "guest") y.sched.futures y.calls < length cfg.workers)
guests_leave_room_example =
    guests_leave_room cfg 1 made events set (omega (arith, workers_3)) made_lem

from_env_serves_example :
    (scheduler_of cfg
      ≡ some (idle cfg.workers (guest_cap (guest_workers cfg)) (pos_part cfg.max_queue)))
    × (0 < length cfg.workers)
    × (1 ≤ guest_workers cfg)
    × (guest_workers cfg ≤ length cfg.workers)
from_env_serves_example = from_env_serves (λ s. none) (λ n. n) "secret" env
