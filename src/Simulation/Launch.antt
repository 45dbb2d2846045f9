-- ===== src/Simulation/Launch.antt =====
-- The start of one job by the driver (src/sim/sim.cpp) keeps the simulation well-formed.
use dr_evt.Base.{
  ℕ, ◌+◌, ◌≡◌, refl, Option, none, some, List, [], ◌∷◌, arith, ltb, ◌==◌, Bool-cases, if_ind, inl,
  inr,
}
use dr_evt.Base.Results.{ok}
use dr_evt.Base.Sums.{sum_of}
use dr_evt.Scheduler.{RunningJob, RunningJobs}
use dr_evt.Trace.{JobRecord, Trace}
use dr_evt.Trace.Store.{Has}
use dr_evt.Trace.Start.{started_job, inserted, insert_job-inserted}
use dr_evt.Simulation.{SchedulerMethods, QueryRecord, Simulation}
use dr_evt.Simulation.Running.{assign}
use dr_evt.Simulation.Start.{set_start, record_appended_job_start, running_entry, launch}
use dr_evt.Simulation.Invariant.{keys_at}

-- Assigning to a key that is not there adds an entry.
pub assign-adds :
    (f : ℕ × RunningJob → ℕ) (j : ℕ) (entry : RunningJob) (m : RunningJobs)
    → keys_at j m ≡ 0
    → sum_of f (assign j entry m) ≡ f (j, entry) + sum_of f m
unfolding assign
assign-adds f j entry [] absent = refl
assign-adds f j entry ((k, v) ∷ m) absent = elim (Bool-cases (k == j)) [
  | inl same ↦ absurd (ground (arith, same, absent))
  | inr other ↦
      let rest = assign-adds f j entry m (omega (arith, absent)) in
      rw other (
        if_ind (λ l. sum_of f l ≡ f (j, entry) + sum_of f ((k, v) ∷ m)) (ltb j k) _ _
          (λ before. refl) (λ behind. omega (arith, rest)))
]

module _ (S : SchedulerMethods) (sample : ℕ → ℕ → ℕ) where
  -- A start notes the times of a tracked job, and changes nothing else.
  set_start-query :
      (s : Simulation S.State) (offset : ℕ) (job : JobRecord) (query : Option QueryRecord)
      → (qs : List QueryRecord) × (set_start S sample s offset job query
          ≡ record s { query_records = qs })
  unfolding set_start
  set_start-query s offset job none = (s.query_records, refl)
  set_start-query s offset job (some query) =
      if_ind (λ r. (qs : List QueryRecord) × (r ≡ record s { query_records = qs })) query.tracked _
        _ (λ h. (_, refl)) (λ h. (s.query_records, refl))

  start-query :
      (s : Simulation S.State) (j : ℕ) (job : JobRecord)
      → (qs : List QueryRecord) × (record_appended_job_start S sample s j job
          ≡ record s { query_records = qs })
  unfolding record_appended_job_start
  start-query s j job =
      if_ind (λ r. (qs : List QueryRecord) × (r ≡ record s { query_records = qs }))
        (ltb j s.first_appended_job_idx) _ _ (λ h. (s.query_records, refl))
        (λ h. set_start-query s _ job _)

  -- The state with the job launched.
  abbrev pub launched :
      (ℕ → ℕ)
      → Simulation S.State
      → ℕ
      → JobRecord
      → List QueryRecord
      → RunningJob
      → Trace
      → Simulation S.State
  launched size s j job qs entry t = record s {
    trace = t;
    query_records = qs;
    running_jobs = assign j entry s.running_jobs;
    jobs_started = s.jobs_started + 1;
  }

  pub launch-launched :
      (size : ℕ → ℕ) (s : Simulation S.State) (j : ℕ) (job : JobRecord)
      → Has s.trace.store j job
      → Has (inserted size s.trace j s.current_time job).store j (started_job job s.current_time)
      → (qs : List QueryRecord) × (entry : RunningJob) × (launch S sample s j
          ≡ ok (launched size s j job qs entry (inserted size s.trace j s.current_time job)))
  unfolding launch
  launch-launched size s j job has there =
      let t = inserted size s.trace j s.current_time job in
      let (qs, eq) = start-query (record s { trace = t }) j (started_job job s.current_time) in
      (
        qs,
        running_entry S sample (record s { trace = t; query_records = qs })
            (started_job job s.current_time),
        rw (insert_job-inserted size s.trace j s.current_time job has, there, eq) refl,
      )
