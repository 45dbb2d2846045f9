-- ===== src/BlockQueue/Tests.antt =====
-- A queue with blocks of four job IDs.
use dr_evt.Base.{ℕ, ◌≡◌, refl, none, some, [], ◌∷◌, arith}
use dr_evt.BlockQueue.{
  BlockJob, BlockWaitQueue, no_stats, insert_job, insert_behind, block_index, grow, modify, is_full,
  get_job_info, remove, find_id, erase_id, block_of, is_some, get_min_run_time, get_min_nodes,
  first_run_time, first_nodes, least_run_time, least_nodes, for_each_active, active_ids,
  waiting_resource_area, area_of_blocks, area_of,
}
use dr_evt.BlockQueue.Backfill.{
  find_and_remove_backfill_candidate, search_blocks, check_block, take_found, scan_block,
  is_candidate,
}
use dr_evt.BlockQueue.Flat.{flat, waiting}
use dr_evt.BlockQueue.Blocks.{Inv, remove_lem}
use dr_evt.BlockQueue.Candidate.{TakesFirst, find_and_remove-TakesFirst}
use dr_evt.BlockQueue.Insert.{InsertsLast, insert_job-InsertsLast}

abbrev job : ℕ → ℕ → ℕ → ℕ → BlockJob
job id submit run nodes = record {
  job_id = id;
  submit_time = submit;
  run_time_estimate = run;
  nodes_requested = nodes;
}

-- IDs 10 to 13 and 14 to 17; 12 has been removed, and 13, 15 and 17 were never used.
abbrev queue : BlockWaitQueue
queue = record {
  blocks =
      record { block = job 10 0 50 4 ∷ job 11 0 60 2 ∷ []; active_count = 2 }
      ∷ record { block = job 14 1 30 8 ∷ job 16 1 20 3 ∷ []; active_count = 2 }
      ∷ [];
  current_block_idx = 1;
  first_job_id = 10;
  last_job_id = 16;
  total_jobs = 5;
  active_count = 4;
  stats = no_stats;
}

program : Unit {0}
unfolding insert_job insert_behind block_index grow modify is_full get_job_info remove find_id
    erase_id block_of is_some find_and_remove_backfill_candidate search_blocks check_block
    take_found scan_block is_candidate get_min_run_time get_min_nodes first_run_time first_nodes
    least_run_time least_nodes for_each_active active_ids waiting_resource_area area_of_blocks
    area_of flat
program = tt

queue-Inv : Inv 2 queue
unfolding flat
queue-Inv = record {
  blocks = (omega arith, refl, (omega arith, refl, tt));
  counted = refl;
  last = omega arith;
  first = λ pos. omega arith;
  fresh = λ none_yet. absurd (omega arith);
}

-- The first block is skipped by time, job 14 by its nodes.
find_skips : (find_and_remove_backfill_candidate queue 5 100 140).1 ≡ some (job 16 1 20 3)
unfolding program
find_skips = refl

find_counts : (find_and_remove_backfill_candidate queue 5 100 140).0.stats ≡ record {
  blocks_skipped_empty = 0;
  blocks_checked = 2;
  blocks_skipped_time = 1;
  blocks_skipped_resource = 0;
  jobs_scanned = 2;
}
unfolding program
find_counts = refl

lookup_gap : get_job_info 2 queue 13 ≡ none
unfolding program
lookup_gap = refl

insert_order : insert_job 2 queue (job 15 2 10 1) ≡ none
unfolding program
insert_order = refl

remove_example :
    (waiting (remove 2 queue 14) ≡ erase_id 14 (waiting queue)) × Inv 2 (remove 2 queue 14)
remove_example = remove_lem 2 queue 14 queue-Inv

find_and_remove-TakesFirst_example :
    let r = find_and_remove_backfill_candidate queue 5 100 140 in
    TakesFirst 5 100 140 (waiting queue) r.1 (waiting r.0) × Inv 2 r.0
find_and_remove-TakesFirst_example = find_and_remove-TakesFirst 5 100 140 2 queue queue-Inv

insert_job-InsertsLast_example :
    InsertsLast 2 queue (job 23 5 10 1) (insert_job 2 queue (job 23 5 10 1))
insert_job-InsertsLast_example =
    insert_job-InsertsLast 2 queue (job 23 5 10 1) queue-Inv (λ pos. omega arith)
