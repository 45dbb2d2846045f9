-- ===== src/HybridDeque/Queue.antt =====
-- The methods of FCFSHybridDequeScheduler (src/sim/scheduler_fcfs_hybrid_deque.hpp and .cpp) that
-- only touch its queue.
use dr_evt.Base.{ℕ, Bool, List, length}
use dr_evt.Deque
use dr_evt.HybridDeque.{HybridDeque}

unfoldable pub insert_job : HybridDeque → ℕ → ℕ → ℕ → ℕ → HybridDeque
insert_job e job_id submit_time run_time nodes = record e {
  deque = Deque.insert_job e.deque job_id submit_time run_time nodes;
}

unfoldable pub sync_to : HybridDeque → ℕ → HybridDeque
sync_to e now = record e { deque = Deque.sync_to e.deque now }

pub mark_removed : HybridDeque → ℕ → HybridDeque
mark_removed e job_id = record e { deque = Deque.mark_removed e.deque job_id }

pub active_job_count : HybridDeque → ℕ
active_job_count e = Deque.active_job_count e.deque

pub get_next_arrival_time : HybridDeque → ℕ
get_next_arrival_time e = Deque.get_next_arrival_time e.deque

pub has_eligible_jobs : HybridDeque → Bool
has_eligible_jobs e = Deque.has_eligible_jobs e.deque

pub pending_job_ids : HybridDeque → List ℕ
pending_job_ids e = Deque.pending_job_ids e.deque

pub wait_queue_size : HybridDeque → ℕ
wait_queue_size e = length e.deque.wait_queue
