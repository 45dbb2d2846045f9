-- ===== src/Simulation/Contract.antt =====
-- What the driver (src/sim/sim.cpp) relies on of the scheduler's methods
-- (src/sim/scheduler_base.hpp).
use mathlib.Core.List.{Perm}
use dr_evt.Base.{ℕ, ◌≤◌, ◌<◌, ◌≡◌, List, [], ◌∷◌, ◌++◌, arith, ltb, All, ◌⊎◌, if◌then◌else◌}
use dr_evt.Base.Sums.{sum_of, occurs}
use dr_evt.Scheduler.{RunningJobs, CapacityChange, max_time}
use dr_evt.Simulation.{SchedulerMethods}

-- The jobs that have not arrived by `t`, and those that have. `submit_of` is the submit time of
-- each job.
abbrev pub is_ahead : (ℕ → ℕ) → ℕ → ℕ → ℕ
is_ahead submit_of t j = if ltb t (submit_of j) then 1 else 0

abbrev pub has_come : (ℕ → ℕ) → ℕ → ℕ → ℕ
has_come submit_of t j = if ltb t (submit_of j) then 0 else 1

abbrev pub ahead : (ℕ → ℕ) → ℕ → List ℕ → ℕ
ahead submit_of t = sum_of (is_ahead submit_of t)

abbrev pub arrived : (ℕ → ℕ) → ℕ → List ℕ → ℕ
arrived submit_of t = sum_of (has_come submit_of t)

-- Nobody comes back.
pub ahead-later :
    (submit_of : ℕ → ℕ) (now time : ℕ) (jobs : List ℕ)
    → now ≤ time
    → ahead submit_of time jobs ≤ ahead submit_of now jobs
ahead-later submit_of now time [] le = omega arith
ahead-later submit_of now time (j ∷ jobs) le =
    ground (arith, ahead-later submit_of now time jobs le, le)

-- `Inv s latest`: the state is well-formed, and no job in it was submitted later than `latest`.
-- `size` is the number of nodes of each job.
pub record Contract (S : SchedulerMethods) (size submit_of : ℕ → ℕ) : Type 1 where
  pub Inv : S.State → ℕ → Type 0
  pub tracked : S.State → ℕ
  pub pending : S.State → List ℕ
  -- A job submitted no earlier than those before it joins the pending jobs.
  pub inserts :
      (s : S.State) (latest job run_time : ℕ)
      → Inv s latest
      → latest ≤ submit_of job
      → let s' = S.insert_job s job (submit_of job) run_time (size job) in
        Inv s' (submit_of job) × (pending s' ≡ pending s ++ job ∷ []) × (tracked s' ≡ tracked s)
  -- Synchronising moves the tracked time forward alone.
  pub syncs :
      (s : S.State) (latest now : ℕ)
      → Inv s latest
      → tracked s ≤ now
      → let s' = S.sync_to s now in Inv s' latest × (pending s' ≡ pending s) × (tracked s' ≡ now)
  pub looks :
      (s : S.State) (latest capacity occupied : ℕ) (changes : List CapacityChange)
      → Inv s latest
      → let s' = S.set_capacity_outlook s capacity occupied changes in
        Inv s' latest × (pending s' ≡ pending s) × (tracked s' ≡ tracked s)
  -- A pass divides the pending jobs into those started, which fit and have arrived, and the others.
  pub schedules :
      (s : S.State) (latest free now : ℕ) (running : RunningJobs)
      → Inv s latest
      → tracked s ≤ now
      → let r = S.schedule s free running now in
        Inv r.0 latest
        × Perm (pending s) (r.1 ++ pending r.0)
        × (sum_of size r.1 ≤ free)
        × All (λ j. submit_of j ≤ now) r.1
        × (tracked r.0 ≡ now)
  -- The active jobs are the pending ones that have arrived.
  pub counts :
      (s : S.State) (latest : ℕ)
      → Inv s latest
      → S.active_job_count s ≡ arrived submit_of (tracked s) (pending s)
  -- The next arrival is ahead, none comes before it, and some job comes then.
  pub arrives :
      (s : S.State) (latest : ℕ)
      → Inv s latest
      → (S.get_next_arrival_time s ≡ max_time)
        ⊎ ((tracked s < S.get_next_arrival_time s)
            × (ahead submit_of (S.get_next_arrival_time s) (pending s)
                < ahead submit_of (tracked s) (pending s)))
  pub first :
      (s : S.State) (latest j : ℕ)
      → Inv s latest
      → 0 < occurs j (pending s)
      → tracked s < submit_of j
      → submit_of j < max_time
      → S.get_next_arrival_time s ≤ submit_of j
