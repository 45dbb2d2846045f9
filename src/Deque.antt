-- ===== src/Deque.antt =====
-- The deque-backed wait queue: the members and methods that
-- src/sim/scheduler_fcfs_easy_deque.hpp/.cpp and src/sim/scheduler_fcfs_hybrid_deque.hpp/.cpp
-- share.
pub mod Invariant
pub mod Front
pub mod Keeps
pub mod Pass
pub mod Plan
mod Tests
use dr_evt.Base.{
  ℕ, zero, suc, ◌+◌, ◌-◌, ◌*◌, Bool, true, false, not, ◌&&◌, ◌||◌, Option, none, some, List, [],
  ◌∷◌, ◌++◌, ltb, leb, ◌==◌, if◌then◌else◌, length, take, drop,
}
use dr_evt.Scheduler.{SchedulerBase, RunningJob, release_estimate, max_time}

pub record JobEntry : Type 0 where
  pub job_id : ℕ
  pub submit_time : ℕ
  pub run_time_estimate : ℕ
  pub nodes_requested : ℕ
  pub removed : Bool

-- `m_wait_queue`, `m_eligible_end_idx`, `m_current_tracked_time` and `m_removed_count`.
pub record Deque : Type 0 where
  pub wait_queue : List JobEntry
  pub eligible_end_idx : ℕ
  pub current_tracked_time : ℕ
  pub removed_count : ℕ

unfoldable pub empty : Deque
empty = record {
  wait_queue = [];
  eligible_end_idx = 0;
  current_tracked_time = 0;
  removed_count = 0;
}

unfoldable pub insert_job : Deque → ℕ → ℕ → ℕ → ℕ → Deque
insert_job d job_id submit_time run_time nodes =
    let entry : JobEntry = record {
      job_id = job_id;
      submit_time = submit_time;
      run_time_estimate = run_time;
      nodes_requested = nodes;
      removed = false;
    } in
    let queue = d.wait_queue ++ entry ∷ [] in
    record d {
      wait_queue = queue;
      eligible_end_idx =
          if leb submit_time d.current_tracked_time then length queue else d.eligible_end_idx;
    }

-- The `while` loop of `sync_to`, over the entries from the index on: how often it increments.
unfoldable pub arrivals : ℕ → List JobEntry → ℕ
arrivals now [] = 0
arrivals now (j ∷ q) = let more = suc (arrivals now q) in if leb j.submit_time now then more else 0

unfoldable pub sync_to : Deque → ℕ → Deque
sync_to d now = if leb now d.current_tracked_time then d else record d {
  eligible_end_idx = d.eligible_end_idx + arrivals now (drop d.eligible_end_idx d.wait_queue);
  current_tracked_time = now;
}

unfoldable pub mark : JobEntry → JobEntry
mark j = record j { removed = true }

-- The loop of `mark_removed`: the queue, and whether an entry was marked.
unfoldable pub mark_first : ℕ → List JobEntry → List JobEntry × Bool
mark_first job_id [] = ([], false)
mark_first job_id (j ∷ q) =
    let (rest, done) = mark_first job_id q in
    if j.job_id == job_id && not j.removed then (mark j ∷ q, true) else (j ∷ rest, done)

unfoldable pub mark_removed : Deque → ℕ → Deque
mark_removed d job_id =
    let (queue, done) = mark_first job_id d.wait_queue in
    record d {
      wait_queue = queue;
      removed_count = if done then d.removed_count + 1 else d.removed_count;
    }

unfoldable pub count_removed : List JobEntry → ℕ
count_removed [] = 0
count_removed (j ∷ q) = if j.removed then suc (count_removed q) else count_removed q

-- `std::remove_if` and `erase` of the entries that are marked.
unfoldable pub compact : List JobEntry → List JobEntry
compact [] = []
compact (j ∷ q) = if j.removed then compact q else j ∷ compact q

-- Garbage collection at the top of `schedule`.
unfoldable pub collect : Deque → Deque
collect d =
    if ltb 0 d.removed_count && ltb (length d.wait_queue) (d.removed_count * 2)
    then record d {
      wait_queue = compact d.wait_queue;
      eligible_end_idx = d.eligible_end_idx - count_removed (take d.eligible_end_idx d.wait_queue);
      removed_count = 0;
    }
    else d

unfoldable pub active_job_count : Deque → ℕ
active_job_count d = d.eligible_end_idx - d.removed_count

unfoldable pub has_eligible_jobs : Deque → Bool
has_eligible_jobs d = ltb 0 (active_job_count d)

unfoldable pub first_arrival : List JobEntry → ℕ
first_arrival [] = max_time
first_arrival (j ∷ q) = let rest = first_arrival q in if not j.removed then j.submit_time else rest

unfoldable pub get_next_arrival_time : Deque → ℕ
get_next_arrival_time d = first_arrival (drop d.eligible_end_idx d.wait_queue)

unfoldable pub pending : List JobEntry → List ℕ
pending [] = []
pending (j ∷ q) = if not j.removed then j.job_id ∷ pending q else pending q

unfoldable pub pending_job_ids : Deque → List ℕ
pending_job_ids d = pending d.wait_queue

unfoldable pub area : List JobEntry → ℕ
area [] = 0
area (j ∷ q) = (if not j.removed then j.nodes_requested * j.run_time_estimate else 0) + area q

unfoldable pub waiting_resource_area : Deque → ℕ
waiting_resource_area d = area (take d.eligible_end_idx d.wait_queue)

-- What the loop that starts jobs from the front leaves, and the jobs that it starts.
pub record Heads : Type 0 where
  pub queue : List JobEntry
  pub eligible : ℕ
  pub removed_count : ℕ
  pub available : ℕ
  pub started : List JobEntry
  pub projected : List RunningJob

pub stop_heads : List JobEntry → ℕ → ℕ → ℕ → Heads
stop_heads queue eligible removed_count available = record {
  queue = queue;
  eligible = eligible;
  removed_count = removed_count;
  available = available;
  started = [];
  projected = [];
}

-- `{current_time, release_estimate(current_time, run_time), nodes}`.
unfoldable pub started_now : SchedulerBase → ℕ → JobEntry → RunningJob
started_now b now j = record {
  start_time = now;
  run_time = release_estimate b now j.run_time_estimate;
  nodes = j.nodes_requested;
}

unfoldable pub consume : SchedulerBase → ℕ → List JobEntry → ℕ → ℕ → ℕ → Heads
unfolding stop_heads
consume b now [] eligible removed_count available = stop_heads [] eligible removed_count available
consume b now (j ∷ q) zero removed_count available = stop_heads (j ∷ q) zero removed_count available
consume b now (j ∷ q) (suc eligible) removed_count available =
    let dropped = consume b now q eligible (removed_count - 1) available in
    let after = consume b now q eligible removed_count (available - j.nodes_requested) in
    let with_head : Heads = record after {
      started = j ∷ after.started;
      projected = started_now b now j ∷ after.projected;
    } in
    if j.removed
    then dropped
    else if leb j.nodes_requested available
    then with_head
    else stop_heads (j ∷ q) (suc eligible) removed_count available

-- `queue_depth_scan_end` over the entries from `begin` on: how many of them the scan visits.
unfoldable pub scan_length : ℕ → ℕ → List JobEntry → ℕ
scan_length zero remaining q = 0
scan_length (suc n) remaining [] = 0
scan_length (suc n) zero (j ∷ q) = 0
scan_length (suc n) (suc remaining) (j ∷ q) =
    suc (scan_length n (if j.removed then suc remaining else remaining) q)

unfoldable pub queue_depth_scan_end : List JobEntry → ℕ → ℕ → ℕ → Bool → ℕ
queue_depth_scan_end queue begin end queue_depth head_planned =
    if queue_depth == 0
    then end
    else begin
      + scan_length (end - begin) (queue_depth - (if head_planned then 1 else 0)) (drop begin queue)

-- The queue after the loop over its front.
unfoldable pub after_heads : Deque → Heads → Deque
after_heads d h = record d {
  wait_queue = h.queue;
  eligible_end_idx = h.eligible;
  removed_count = h.removed_count;
}

-- The queue after the scan behind the blocked head, with the entries and the jobs it leaves.
unfoldable pub after_scan_behind : Deque → JobEntry → List JobEntry → List JobEntry → Deque
after_scan_behind d head queue started = record d {
  wait_queue = head ∷ queue;
  removed_count = d.removed_count + length started;
}

-- What a pass does first: `sync_to` and the garbage collection.
unfoldable pub prepare : Deque → ℕ → Deque
prepare d now = collect (sync_to d now)

-- The loop over the front, on a queue and the free nodes.
unfoldable pub take_heads : SchedulerBase → ℕ → Deque → ℕ → Heads
take_heads b now d free = consume b now d.wait_queue d.eligible_end_idx d.removed_count free
