-- ===== src/Scheduler/Wait.antt =====
-- The loop at the end of `drain`: it polls `inflight` until nothing runs or the time is up.
use opendss_designer_cloud.Base.{
  ℕ, zero, suc, ◌+◌, ◌≤◌, ◌<◌, ◌≡◌, ◌⊎◌, refl, ap, subst, ◌∙◌, ◌&&◌, not, inl, inr, Option, none,
  some, List, [], ◌++◌, arith, ◌==◌, ltb, if◌then◌else◌, Bool-cases,
}
use opendss_designer_cloud.Scheduler.{inflight}
use opendss_designer_cloud.Scheduler.Calls.{System, Event, shutdown, step, run}
use opendss_designer_cloud.Scheduler.Rest.{run-append}

-- What happens during each `sleep`, and by how much it oversleeps.
abbrev pub Sleeps : Type 0
Sleeps = ℕ → List Event × ℕ

-- `while self.inflight and time.monotonic() < deadline`, from the `k`th turn on; `none` is out of fuel.
-- Times are in milliseconds. The result is the state, and the time, at the `return`.
unfoldable pub wait_loop : ℕ → Sleeps → ℕ → System → ℕ → ℕ → Option (System × ℕ)
wait_loop zero sleeps k y now deadline = none
wait_loop (suc fuel) sleeps k y now deadline =
    let rest =
      wait_loop fuel sleeps (suc k) (run y (sleeps k).0) (now + 200 + (sleeps k).1) deadline in
    if not (inflight y.sched == 0) && ltb now deadline then rest else some (y, now)

-- The events of so many sleeps, from the `k`th on.
unfoldable pub slept : Sleeps → ℕ → ℕ → List Event
slept sleeps k zero = []
slept sleeps k (suc n) = (sleeps k).0 ++ slept sleeps (suc k) n

-- The time after so many sleeps, from the `k`th on: each takes 200 ms and what it oversleeps.
unfoldable pub woken : Sleeps → ℕ → ℕ → ℕ → ℕ
woken sleeps k now zero = now
woken sleeps k now (suc n) = woken sleeps (suc k) (now + 200 + (sleeps k).1) n

-- How the loop ends: after so many sleeps, at the time that they took, with nothing running or at the deadline;
-- each sleep begins before the deadline, while a call is in flight.
pub record Waited (sleeps : Sleeps) (k : ℕ) (y : System) (now deadline : ℕ)
    (r : Option (System × ℕ)) : Type 0 where
  pub turns : ℕ
  pub end : ℕ
  pub returns : r ≡ some (run y (slept sleeps k turns), end)
  pub ends_at : end ≡ woken sleeps k now turns
  pub begins : (i : ℕ) → i < turns → woken sleeps k now i < deadline
  pub busy : (i : ℕ) → i < turns → 1 ≤ inflight (run y (slept sleeps k i)).sched
  pub reason : (inflight (run y (slept sleeps k turns)).sched ≡ 0) ⊎ (deadline ≤ end)

each_below :
    {n : ℕ} (P : ℕ → Type 0) → P 0 → ((j : ℕ) → j < n → P (suc j)) → (i : ℕ) → i < suc n → P i
each_below P z f zero h = z
each_below P z f (suc j) h = f j (omega arith)

wait_ends :
    (fuel : ℕ) (sleeps : Sleeps) (k : ℕ) (y : System) (now deadline : ℕ)
    → deadline ≤ now + fuel
    → Waited sleeps k y now deadline (wait_loop (suc fuel) sleeps k y now deadline)
unfolding wait_loop slept run woken
wait_ends zero sleeps k y now deadline h = record {
  turns = 0;
  end = now;
  returns = ground arith;
  ends_at = refl;
  begins = λ i h. absurd (omega arith);
  busy = λ i h. absurd (omega arith);
  reason = inr (omega arith);
}
wait_ends (suc fuel) sleeps k y now deadline h =
    elim (Bool-cases (not (inflight y.sched == 0) && ltb now deadline)) [
      | inl go ↦
          let later = run y (sleeps k).0 in
          let w =
            wait_ends fuel sleeps (suc k) later (now + 200 + (sleeps k).1) deadline (omega arith) in
          let same_state = run-append y (sleeps k).0 (slept sleeps (suc k) w.turns) in
          record {
            turns = suc w.turns;
            end = w.end;
            returns = rw go (w.returns ∙ ap (λ z. some (z, w.end)) same_state);
            ends_at = w.ends_at;
            begins = each_below (λ i. woken sleeps k now i < deadline) (ground arith) w.begins;
            busy =
                each_below (λ i. 1 ≤ inflight (run y (slept sleeps k i)).sched) (ground arith)
                  (λ j h.
                    subst (λ z. 1 ≤ inflight z.sched)
                      (run-append y (sleeps k).0 (slept sleeps (suc k) j)) (w.busy j h));
            reason = subst (λ z. (inflight z.sched ≡ 0) ⊎ (deadline ≤ w.end)) same_state w.reason;
          }
      | inr stop ↦ record {
        turns = 0;
        end = now;
        returns = rw stop refl;
        ends_at = refl;
        begins = λ i h. absurd (omega arith);
        busy = λ i h. absurd (omega arith);
        reason = ground arith;
      }
    ]

-- `drain`: the shutdown, then the wait; its result is `inflight` at the end.
unfoldable pub drain_wait : ℕ → Sleeps → System → ℕ → ℕ → Option (System × ℕ)
drain_wait fuel sleeps y now timeout = wait_loop fuel sleeps 0 (step y shutdown) now (now + timeout)

-- Whatever happens during its sleeps, and however long they take, `drain` returns, at the time that they took: each
-- sleep begins before its timeout, while a call is in flight, and at the end no call is in
-- flight or the timeout has passed.
pub drain_ends :
    (sleeps : Sleeps) (y : System) (now timeout : ℕ)
    → Waited sleeps 0
        (step y shutdown)
        now
        (now + timeout)
        (drain_wait (suc timeout) sleeps y now timeout)
unfolding drain_wait
drain_ends sleeps y now timeout =
    wait_ends timeout sleeps 0 (step y shutdown) now (now + timeout) (omega arith)
