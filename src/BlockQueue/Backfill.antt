-- ===== src/BlockQueue/Backfill.antt =====
-- `find_and_remove_backfill_candidate` of BlockWaitQueue (src/sim/block_wait_queue.hpp).
use dr_evt.Base.{
  ℕ, suc, ◌+◌, ◌-◌, Bool, ◌&&◌, Option, none, some, List, [], ◌∷◌, ltb, leb, ◌==◌, if◌then◌else◌,
}
use dr_evt.BlockQueue.{
  BlockJob, BlockInfo, BlockWaitQueue, Stats, is_some, get_min_run_time, get_min_nodes,
}

-- The tests on one job in a search.
unfoldable pub is_candidate : ℕ → ℕ → ℕ → BlockJob → Bool
is_candidate available now reservation j =
    leb j.submit_time now
    && (leb j.nodes_requested available && ltb (now + j.run_time_estimate) reservation)

-- What a search of a block finds: the jobs it scanned, the candidate and the block without it.
pub record Found : Type 0 where
  pub scanned : ℕ
  pub job : Option BlockJob
  pub rest : List BlockJob

-- The search of one block.
unfoldable pub scan_block : ℕ → ℕ → ℕ → List BlockJob → Found
scan_block available now reservation [] = record { scanned = 0; job = none; rest = [] }
scan_block available now reservation (j ∷ js) =
    let f = scan_block available now reservation js in
    if is_candidate available now reservation j
    then record { scanned = 1; job = some j; rest = js }
    else record f { scanned = suc f.scanned; rest = j ∷ f.rest }

-- What a search leaves: the blocks, the counters and the job that it took.
pub record Searched : Type 0 where
  pub blocks : List BlockInfo
  pub stats : Stats
  pub job : Option BlockJob

-- Past a block: its counters are in `s`, the rest of the search in `r`.
abbrev pub pass_block : BlockInfo → Searched → Searched
pass_block b r = record r { blocks = b ∷ r.blocks }

-- The block in which a job was found, or the rest of the search.
unfoldable pub take_found :
    BlockInfo
    → List BlockInfo
    → Stats
    → List BlockJob
    → (Stats → Searched)
    → Option BlockJob
    → Searched
take_found b bs s left again none = pass_block b (again s)
take_found b bs s left again (some j) = record {
  blocks = record { block = left; active_count = b.active_count - 1 } ∷ bs;
  stats = s;
  job = some j;
}

-- The body of the loop over the blocks for a block that is not empty.
unfoldable pub check_block :
    ℕ → ℕ → ℕ → BlockInfo → List BlockInfo → Stats → (Stats → Searched) → Searched
check_block available now reservation b bs s again =
    let f = scan_block available now reservation b.block in
    if leb reservation (now + get_min_run_time b)
    then pass_block b (again (record s { blocks_skipped_time = suc s.blocks_skipped_time }))
    else if ltb available (get_min_nodes b)
    then pass_block b (again (record s { blocks_skipped_resource = suc s.blocks_skipped_resource }))
    else take_found b bs (record s { jobs_scanned = s.jobs_scanned + f.scanned }) f.rest again f.job

-- The loop over the blocks.
unfoldable pub search_blocks : ℕ → ℕ → ℕ → List BlockInfo → Stats → Searched
search_blocks available now reservation [] s = record { blocks = []; stats = s; job = none }
search_blocks available now reservation (b ∷ bs) s =
    let again : (Stats → Searched) = search_blocks available now reservation bs in
    if b.active_count == 0
    then pass_block b (again (record s { blocks_skipped_empty = suc s.blocks_skipped_empty }))
    else check_block available now reservation b bs
        (record s { blocks_checked = suc s.blocks_checked }) again

unfoldable pub find_and_remove_backfill_candidate :
    BlockWaitQueue → ℕ → ℕ → ℕ → BlockWaitQueue × Option BlockJob
find_and_remove_backfill_candidate q available now reservation =
    let r = search_blocks available now reservation q.blocks q.stats in
    (
      record q {
        blocks = r.blocks;
        active_count = if is_some r.job then q.active_count - 1 else q.active_count;
        stats = r.stats;
      },
      r.job,
    )
