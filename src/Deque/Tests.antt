-- ===== src/Deque/Tests.antt =====
-- The wait queue on a few jobs.
use dr_evt.Base.{ℕ, ◌≤◌, ◌≡◌, refl, Bool, true, false, [], ◌∷◌, arith}
use dr_evt.Deque.{
  JobEntry, Deque, insert_job, sync_to, collect, active_job_count, pending, pending_job_ids,
  get_next_arrival_time, count_removed, arrivals, first_arrival,
}
use dr_evt.Deque.Invariant.{
  Inv, insert_job-Inv, sync_to-Inv, collect-Inv, collect_same, active_job_count_lem, IsNextArrival,
  get_next_arrival_time_lem,
}

abbrev entry : ℕ → ℕ → Bool → JobEntry
entry id submit gone = record {
  job_id = id;
  submit_time = submit;
  run_time_estimate = 10;
  nodes_requested = 2;
  removed = gone;
}

-- At 5, jobs 1 and 3 have started, job 2 waits, and job 4 arrives at 9.
abbrev queue : Deque
queue = record {
  wait_queue = entry 1 0 true ∷ entry 2 1 false ∷ entry 3 1 true ∷ entry 4 9 false ∷ [];
  eligible_end_idx = 3;
  current_tracked_time = 5;
  removed_count = 2;
}

queue-Inv : Inv queue
unfolding count_removed
queue-Inv = record {
  split = (omega arith, (omega arith, (omega arith, ((omega arith, refl), tt))));
  counted = refl;
  rising = omega arith;
}

insert_job-Inv_example : Inv (insert_job queue 5 9 20 1)
insert_job-Inv_example = insert_job-Inv queue 5 9 20 1 queue-Inv (omega arith)

sync_to-Inv_example : Inv (sync_to queue 12)
sync_to-Inv_example = sync_to-Inv queue 12 queue-Inv

collect-Inv_example : Inv (collect queue)
collect-Inv_example = collect-Inv queue queue-Inv

collect_same_example :
    (pending_job_ids (collect queue) ≡ pending_job_ids queue)
    × (active_job_count (collect queue) ≡ active_job_count queue)
collect_same_example = collect_same queue queue-Inv

active_job_count_lem_example : (2 ≤ 3) × (active_job_count queue ≡ 1)
unfolding pending
active_job_count_lem_example = active_job_count_lem queue queue-Inv

get_next_arrival_time_lem_example :
    IsNextArrival 5 (entry 4 9 false ∷ []) (get_next_arrival_time queue)
get_next_arrival_time_lem_example = get_next_arrival_time_lem queue queue-Inv

pending_after : pending_job_ids (sync_to queue 12) ≡ 2 ∷ 4 ∷ []
unfolding pending_job_ids sync_to pending arrivals
pending_after = refl

next_arrival : get_next_arrival_time queue ≡ 9
unfolding get_next_arrival_time first_arrival
next_arrival = refl
