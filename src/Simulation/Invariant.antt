-- ===== src/Simulation/Invariant.antt =====
-- What a well-formed simulation (src/sim/sim.hpp) is.
use dr_evt.Base.{ℕ, ◌+◌, ◌^◌, ◌≤◌, ◌<◌, ◌≡◌, List, [], ◌∷◌, ◌++◌, ◌==◌, All, length, if◌then◌else◌}
use dr_evt.Base.Sums.{sum_of, occurs}
use dr_evt.Events.Order.{total, about}
use dr_evt.Scheduler.{RunningJob, RunningJobs, CapacityChange}
use dr_evt.Trace.{JobRecord, JobStore, unscheduled_sentinel}
use dr_evt.Trace.Store.{Has}
use dr_evt.Trace.Ledger.{TraceInv, runs, releases}
use dr_evt.Trace.Start.{IsStartable}
use dr_evt.Simulation.{SchedulerMethods, Simulation}
use dr_evt.Simulation.Contract.{Contract}

-- A pending job has a record that may start and has not.
abbrev pub Waits : JobStore → ℕ → Type 0
Waits s j =
    (job : JobRecord) × Has s j job × IsStartable job × (job.end_time ≡ unscheduled_sentinel)

-- The keys of the running jobs, and the arrivals noted for a time.
abbrev pub keys_at : ℕ → RunningJobs → ℕ
keys_at j = sum_of (λ (entry : ℕ × RunningJob). if entry.0 == j then 1 else 0)

abbrev pub noted : ℕ → List (ℕ × ℕ) → ℕ
noted t [] = 0
noted t ((k, n) ∷ m) = (if k == t then n else 0) + noted t m

-- The pending jobs submitted at a time.
abbrev pub comes_at : (ℕ → ℕ) → ℕ → ℕ → ℕ
comes_at submit_of t j = if submit_of j == t then 1 else 0

abbrev pub coming : (ℕ → ℕ) → ℕ → List ℕ → ℕ
coming submit_of t = sum_of (comes_at submit_of t)

module _ (S : SchedulerMethods) (size submit_of : ℕ → ℕ) (C : Contract S size submit_of) where
  -- The jobs that the scheduler returned and that the driver has still to start, and the pending
  -- ones.
  abbrev pub waiting : List ℕ → Simulation S.State → List ℕ
  waiting todo s = todo ++ C.pending s.scheduler

  -- What holds while the clock shows `current_time`: the accounts of the trace, the scheduler and
  -- the driver agree.
  pub record Accounts (todo : List ℕ) (s : Simulation S.State) : Type 0 where
    pub trace : TraceInv size s.current_time s.trace
    pub scheduler : C.Inv s.scheduler s.latest_submit_time
    pub tracked : C.tracked s.scheduler ≤ s.current_time
    pub apart : (j : ℕ) → occurs j (waiting todo s) + total (about j) s.trace.ctx.evtq ≤ 1
    pub waits : (j : ℕ) → 0 < occurs j (waiting todo s) → Waits s.trace.store j
    pub running : (j : ℕ) → keys_at j s.running_jobs ≡ total (about j) s.trace.ctx.evtq
    pub entries :
        length s.running_jobs ≡ total runs s.trace.ctx.evtq + total releases s.trace.ctx.evtq
    pub released : s.jobs_releasing ≡ total releases s.trace.ctx.evtq
    pub started : s.jobs_started ≡ s.jobs_completed + total runs s.trace.ctx.evtq
    pub submitted : s.jobs_submitted ≡ s.jobs_started + length (waiting todo s)
    pub noted_arrivals :
        (t : ℕ)
        → s.current_time ≤ t
        → noted t s.pending_queue_arrivals ≤ coming submit_of t (waiting todo s)
    pub area_time : s.capacity_area_time ≤ s.current_time
    pub capacity : s.current_capacity < 2 ^ 32
    pub changes : All (λ (c : CapacityChange). c.total_nodes < 2 ^ 32) s.capacity_changes
    pub clock : s.current_time < unscheduled_sentinel

  -- The accounts, and every event is later.
  pub record SimInv (todo : List ℕ) (s : Simulation S.State) : Type 0 where
    pub accounts : Accounts todo s
    pub open accounts use *
    pub later : All (λ e. s.current_time < e.time) s.trace.ctx.evtq
