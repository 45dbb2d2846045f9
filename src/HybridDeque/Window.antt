-- ===== src/HybridDeque/Window.antt =====
-- `calculate_hybrid_window` (src/sim/scheduler_fcfs_hybrid_deque.cpp), the window that builds with
-- DR_EVT_LEGACY_RESERVATION_BARRIER ask for.
use dr_evt.Base.{
  ℕ, zero, suc, not, ◌&&◌, Option, none, some, List, [], ◌∷◌, leb, ltb, ◌==◌, if◌then◌else◌,
}
use dr_evt.Timeline.{Timeline}
use dr_evt.Timeline
use dr_evt.Scheduler.{
  RunningJobs, RunningJob, reservation_timeline, reservation_within_horizon, release_estimate,
  max_time,
}
use dr_evt.Deque.{JobEntry}
use dr_evt.HybridDeque.{HybridDeque, context}
use dr_evt.HybridDeque.Backfill.{ScanContext, duration_now}

-- The loop of `calculate_hybrid_window`: the plan, the reservations counted and the earliest so
-- far.
unfoldable pub window_job : ScanContext → Timeline → ℕ → ℕ → JobEntry → Option ℕ → Timeline × ℕ × ℕ
window_job c plan reserved earliest j none = (plan, reserved, earliest)
window_job c plan reserved earliest j (some r) =
    if reservation_within_horizon c.base r c.now
    then (
      Timeline.reserve plan r j.nodes_requested (release_estimate c.base r j.run_time_estimate),
      suc reserved,
      if ltb r earliest then r else earliest,
    )
    else (plan, reserved, earliest)

unfoldable pub window_loop : ScanContext → Timeline → ℕ → ℕ → ℕ → List JobEntry → ℕ
window_loop c plan reserved earliest zero q = earliest
window_loop c plan reserved earliest (suc n) [] = earliest
window_loop c plan reserved earliest (suc n) (j ∷ q) =
    let (plan', reserved', earliest') =
      window_job c plan reserved earliest j
        (Timeline.earliest_fit plan j.nodes_requested (duration_now c j) c.now) in
    let skipped = window_loop c plan reserved earliest n q in
    let rest = window_loop c plan' reserved' earliest' n q in
    if j.removed
    then skipped
    else if not (c.protected_depth == 0) && leb c.protected_depth reserved
    then earliest
    else rest

unfoldable pub calculate_hybrid_window : HybridDeque → ℕ → ℕ → RunningJobs → ℕ → List RunningJob → ℕ
calculate_hybrid_window e index free running now projected =
    window_loop (context e now) (reservation_timeline e.base free running now projected) 0 max_time
      index e.deque.wait_queue
