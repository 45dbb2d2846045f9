-- ===== src/Simulation/Running.antt =====
-- The maps of the driver (src/sim/sim.cpp): the running jobs by number, and the arrivals by time.
use dr_evt.Base.{
  ℕ, ◌+◌, Bool, true, false, Option, none, some, List, [], ◌∷◌, ltb, ◌==◌, if◌then◌else◌,
}
use dr_evt.Scheduler.{RunningJob, RunningJobs}

-- `m_running_jobs[job] = value`.
unfoldable pub assign : ℕ → RunningJob → RunningJobs → RunningJobs
assign job value [] = (job, value) ∷ []
assign job value ((k, v) ∷ m) =
    let rest = assign job value m in
    if k == job
    then (job, value) ∷ m
    else if ltb job k
    then (job, value) ∷ (k, v) ∷ m
    else (k, v) ∷ rest

-- `m_running_jobs.erase(job)`.
unfoldable pub erase : ℕ → RunningJobs → RunningJobs
erase job [] = []
erase job ((k, v) ∷ m) = let rest = erase job m in if k == job then m else (k, v) ∷ rest

-- The number of entries that `erase` removes is not 0.
unfoldable pub contains : ℕ → RunningJobs → Bool
contains job [] = false
contains job ((k, v) ∷ m) = let rest = contains job m in if k == job then true else rest

-- `++m_pending_queue_arrivals[time]`.
unfoldable pub count_arrival : ℕ → List (ℕ × ℕ) → List (ℕ × ℕ)
count_arrival time [] = (time, 1) ∷ []
count_arrival time ((k, n) ∷ m) =
    let rest = count_arrival time m in
    if k == time
    then (k, n + 1) ∷ m
    else if ltb time k
    then (time, 1) ∷ (k, n) ∷ m
    else (k, n) ∷ rest

unfoldable pub find_arrivals : ℕ → List (ℕ × ℕ) → Option ℕ
find_arrivals time [] = none
find_arrivals time ((k, n) ∷ m) =
    let rest = find_arrivals time m in if k == time then some n else rest

-- `m_pending_queue_arrivals.erase(arrivals)`; the keys of a map are all different.
unfoldable pub erase_arrivals : ℕ → List (ℕ × ℕ) → List (ℕ × ℕ)
erase_arrivals time [] = []
erase_arrivals time ((k, n) ∷ m) =
    let rest = erase_arrivals time m in if k == time then rest else (k, n) ∷ rest
