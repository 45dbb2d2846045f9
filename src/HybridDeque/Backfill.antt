-- ===== src/HybridDeque/Backfill.antt =====
-- The backfill scan of FCFSHybridDequeScheduler::schedule
-- (src/sim/scheduler_fcfs_hybrid_deque.cpp).
use dr_evt.Base.{
  ℕ, zero, suc, ◌-◌, Bool, false, not, ◌&&◌, ◌||◌, Option, none, some, List, [], ◌∷◌, leb, ltb,
  ◌==◌, if◌then◌else◌,
}
use dr_evt.Timeline.{Timeline}
use dr_evt.Timeline
use dr_evt.Scheduler.{SchedulerBase, reservation_within_horizon, release_estimate, value_or_max}
use dr_evt.Deque.{JobEntry, mark}

-- What the scan reads.
pub record ScanContext : Type 0 where
  pub base : SchedulerBase
  pub now : ℕ
  pub protected_depth : ℕ
  pub queue_depth : ℕ

-- What the scan changes beside the queue and the jobs to run.
pub record ScanState : Type 0 where
  pub available : ℕ
  pub availability_plan : Timeline
  pub protected_plan : Timeline
  pub protected_count : ℕ
  pub examined : ℕ

-- `release_estimate(current_time, job.run_time_estimate)`.
unfoldable pub duration_now : ScanContext → JobEntry → ℕ
duration_now c j = release_estimate c.base c.now j.run_time_estimate

unfoldable pub protected_start : ScanContext → ScanState → JobEntry → Option ℕ
protected_start c s j =
    Timeline.earliest_fit s.protected_plan j.nodes_requested (duration_now c j) c.now

-- `protect_job` with its reservation.
unfoldable pub place : ScanContext → ScanState → JobEntry → Option ℕ → ScanState
place c s j none = s
place c s j (some r) =
    if reservation_within_horizon c.base r c.now
    then record s {
      protected_count = suc s.protected_count;
      protected_plan =
          Timeline.reserve s.protected_plan r j.nodes_requested
            (release_estimate c.base r j.run_time_estimate);
    }
    else s

unfoldable pub given_or : Option ℕ → Option ℕ → Option ℕ
given_or none found = found
given_or (some r) found = some r

-- The lambda `protect_job`.
unfoldable pub protect_job : ScanContext → ScanState → JobEntry → Option ℕ → ScanState
protect_job c s j reservation =
    if not (c.protected_depth == 0) && leb c.protected_depth s.protected_count
    then s
    else place c s j (given_or reservation (protected_start c s j))

-- The entries that take no slot: those marked, and those with no projection within the horizon.
unfoldable pub takes_no_slot : ScanContext → ScanState → JobEntry → Bool
takes_no_slot c s j =
    j.removed
    || not (
        reservation_within_horizon c.base
          (value_or_max (Timeline.earliest_fit s.availability_plan j.nodes_requested 0 c.now))
          c.now)

unfoldable pub slots_used : ScanContext → ScanState → Bool
slots_used c s = not (c.queue_depth == 0) && leb c.queue_depth s.examined

unfoldable pub is_now : ℕ → Option ℕ → Bool
is_now now none = false
is_now now (some r) = r == now

-- The job starts: both plans and the free nodes change.
unfoldable pub start_job : ScanContext → ScanState → JobEntry → ScanState
start_job c s j = record s {
  available = s.available - j.nodes_requested;
  availability_plan =
      Timeline.reserve s.availability_plan c.now j.nodes_requested (duration_now c j);
  protected_plan = Timeline.reserve s.protected_plan c.now j.nodes_requested (duration_now c j);
}

-- How the body of the scan ends: it leaves the loop, goes on past the entry, or starts its job.
pub data Round : Type 0 where
  breaks : ScanState → Round
  passes : ScanState → Round
  starts : ScanState → Round

unfoldable pub examine : ScanContext → ScanState → JobEntry → Round
examine c s j =
    if ltb s.available j.nodes_requested
    then passes (protect_job c s j none)
    else if is_now c.now (protected_start c s j)
    then starts (start_job c s j)
    else passes (protect_job c s j (protected_start c s j))

-- The body of the scan.
unfoldable pub round : ScanContext → ScanState → JobEntry → Round
round c s j =
    if takes_no_slot c s j
    then passes s
    else if slots_used c s
    then breaks s
    else examine c (record s { examined = suc s.examined }) j

-- What the scan leaves: the entries behind the head, the jobs started, and its state.
pub record Scan : Type 0 where
  pub queue : List JobEntry
  pub started : List JobEntry
  pub state : ScanState

abbrev pub stop_scan : List JobEntry → ScanState → Scan
stop_scan queue s = record { queue = queue; started = []; state = s }

abbrev pub pass_entry : JobEntry → Scan → Scan
pass_entry j k = record k { queue = j ∷ k.queue }

abbrev pub start_entry : JobEntry → Scan → Scan
start_entry j k = record k { queue = mark j ∷ k.queue; started = j ∷ k.started }

-- A round, and the rest of the loop after it.
unfoldable pub follow : (ScanState → Scan) → JobEntry → List JobEntry → Round → Scan
follow rest j q (breaks s) = stop_scan (j ∷ q) s
follow rest j q (passes s) = pass_entry j (rest s)
follow rest j q (starts s) =
    let on = rest s in if s.available == 0 then start_entry j (stop_scan q s) else start_entry j on

-- The `for` loop over the entries behind the head; the number is how many are left to visit.
unfoldable pub scan : ScanContext → ℕ → List JobEntry → ScanState → Scan
unfolding follow
scan c zero q s = stop_scan q s
scan c (suc n) [] s = stop_scan [] s
scan c (suc n) (j ∷ q) s =
    let rest : (ScanState → Scan) = scan c n q in follow rest j q (round c s j)
