-- ===== src/BlockQueue.antt =====
-- BlockWaitQueue (src/sim/block_wait_queue.hpp): waiting jobs in blocks of 2 ^ shift job IDs. The
-- template parameter BlockSize is 2 ^ shift. A block's multi-index container is the list of its
-- first index; the first entry of an ordered index is the least value over that list.
pub mod Backfill
pub mod Flat
pub mod Blocks
pub mod Search
pub mod Candidate
pub mod Insert
pub mod Iterate
mod Tests
use dr_evt.Base.{
  ℕ, zero, suc, ◌+◌, ◌-◌, ◌*◌, ◌/◌, ◌^◌, Bool, true, false, not, ◌&&◌, ◌||◌, Option, none, some,
  List, [], ◌∷◌, ◌++◌, ltb, leb, ◌==◌, if◌then◌else◌, length, get_elem?, map,
}
use dr_evt.Scheduler.{max_time}

-- `JobEntry`.
pub record BlockJob : Type 0 where
  pub job_id : ℕ
  pub submit_time : ℕ
  pub run_time_estimate : ℕ
  pub nodes_requested : ℕ

pub record BlockInfo : Type 0 where
  pub block : List BlockJob
  pub active_count : ℕ

-- The counters of `Stats`; `num_blocks` is never written.
pub record Stats : Type 0 where
  pub blocks_skipped_empty : ℕ
  pub blocks_checked : ℕ
  pub blocks_skipped_time : ℕ
  pub blocks_skipped_resource : ℕ
  pub jobs_scanned : ℕ

pub record BlockWaitQueue : Type 0 where
  pub blocks : List BlockInfo
  pub current_block_idx : ℕ
  pub first_job_id : ℕ
  pub last_job_id : ℕ
  pub total_jobs : ℕ
  pub active_count : ℕ
  pub stats : Stats

abbrev pub no_stats : Stats
no_stats = record {
  blocks_skipped_empty = 0;
  blocks_checked = 0;
  blocks_skipped_time = 0;
  blocks_skipped_resource = 0;
  jobs_scanned = 0;
}

abbrev pub empty_queue : BlockWaitQueue
empty_queue = record {
  blocks = [];
  current_block_idx = 0;
  first_job_id = 0;
  last_job_id = 0;
  total_jobs = 0;
  active_count = 0;
  stats = no_stats;
}

abbrev pub empty_block : BlockInfo
empty_block = record { block = []; active_count = 0 }

-- std::numeric_limits<num_nodes_t>::max().
abbrev pub max_nodes : ℕ
max_nodes = 2 ^ 32 - 1

abbrev pub smaller : ℕ → ℕ → ℕ
smaller a b = if leb a b then a else b

unfoldable pub least_run_time : BlockJob → List BlockJob → ℕ
least_run_time j [] = j.run_time_estimate
least_run_time j (k ∷ js) = smaller j.run_time_estimate (least_run_time k js)

unfoldable pub least_nodes : BlockJob → List BlockJob → ℕ
least_nodes j [] = j.nodes_requested
least_nodes j (k ∷ js) = smaller j.nodes_requested (least_nodes k js)

unfoldable pub first_run_time : List BlockJob → ℕ
first_run_time [] = max_time
first_run_time (j ∷ js) = least_run_time j js

unfoldable pub first_nodes : List BlockJob → ℕ
first_nodes [] = max_nodes
first_nodes (j ∷ js) = least_nodes j js

unfoldable pub get_min_run_time : BlockInfo → ℕ
get_min_run_time b = if b.active_count == 0 then max_time else first_run_time b.block

unfoldable pub get_min_nodes : BlockInfo → ℕ
get_min_nodes b = if b.active_count == 0 then max_nodes else first_nodes b.block

-- `(job_id - m_first_job_id) >> shift`.
unfoldable pub block_index : ℕ → ℕ → ℕ → ℕ
block_index shift first job_id = (job_id - first) / 2 ^ shift

-- `while (m_blocks.size() <= block_idx) m_blocks.emplace_back()`.
unfoldable pub grow : ℕ → List BlockInfo → List BlockInfo
grow zero [] = empty_block ∷ []
grow (suc i) [] = empty_block ∷ grow i []
grow zero (b ∷ bs) = b ∷ bs
grow (suc i) (b ∷ bs) = b ∷ grow i bs

-- A block of the queue, changed in place.
unfoldable pub modify : (BlockInfo → BlockInfo) → ℕ → List BlockInfo → List BlockInfo
modify f i [] = []
modify f zero (b ∷ bs) = f b ∷ bs
modify f (suc i) (b ∷ bs) = b ∷ modify f i bs

abbrev pub push_back : BlockJob → BlockInfo → BlockInfo
push_back j b = record { block = b.block ++ j ∷ []; active_count = suc b.active_count }

unfoldable pub is_full : ℕ → Option BlockInfo → Bool
is_full size none = true
is_full size (some b) = leb size (length b.block)

-- The part of `insert_job` behind the check of the order of the job IDs; `none` is the exception
-- for a block that is full.
unfoldable pub insert_behind : ℕ → BlockWaitQueue → BlockJob → Option BlockWaitQueue
insert_behind shift q j =
    let index = block_index shift q.first_job_id j.job_id in
    let blocks = grow index q.blocks in
    if is_full (2 ^ shift) (get_elem? blocks index)
    then none
    else some (record q {
      blocks = modify (push_back j) index blocks;
      current_block_idx = index;
      last_job_id = j.job_id;
      total_jobs = suc q.total_jobs;
      active_count = suc q.active_count;
    })

-- `insert_job`; `none` is an exception.
unfoldable pub insert_job : ℕ → BlockWaitQueue → BlockJob → Option BlockWaitQueue
insert_job shift q j =
    if q.total_jobs == 0
    then insert_behind shift (record q { first_job_id = j.job_id }) j
    else if leb j.job_id q.last_job_id
    then none
    else insert_behind shift q j

-- The first entry with the ID leaves the list.
unfoldable pub erase_id : ℕ → List BlockJob → List BlockJob
erase_id id [] = []
erase_id id (j ∷ js) = if j.job_id == id then js else j ∷ erase_id id js

unfoldable pub find_id : ℕ → List BlockJob → Option BlockJob
find_id id [] = none
find_id id (j ∷ js) = let rest = find_id id js in if j.job_id == id then some j else rest

unfoldable pub is_some : Option BlockJob → Bool
is_some none = false
is_some (some j) = true

unfoldable pub block_of : Option BlockInfo → List BlockJob
block_of none = []
block_of (some b) = b.block

abbrev pub erase_in : ℕ → BlockInfo → BlockInfo
erase_in id b = record { block = erase_id id b.block; active_count = b.active_count - 1 }

-- `get_job_info`: the fields of the entry, if it is there.
unfoldable pub get_job_info : ℕ → BlockWaitQueue → ℕ → Option BlockJob
get_job_info shift q id =
    if ltb id q.first_job_id
    then none
    else find_id id (block_of (get_elem? q.blocks (block_index shift q.first_job_id id)))

-- `remove`: the loop erases the entry that `get_job_info` finds; without one nothing changes.
unfoldable pub remove : ℕ → BlockWaitQueue → ℕ → BlockWaitQueue
remove shift q id =
    if is_some (get_job_info shift q id)
    then record q {
      blocks = modify (erase_in id) (block_index shift q.first_job_id id) q.blocks;
      active_count = q.active_count - 1;
    }
    else q

unfoldable pub area_of : ℕ → List BlockJob → ℕ
area_of now [] = 0
area_of now (j ∷ js) =
    (if leb j.submit_time now then j.nodes_requested * j.run_time_estimate else 0) + area_of now js

unfoldable pub area_of_blocks : ℕ → List BlockInfo → ℕ
area_of_blocks now [] = 0
area_of_blocks now (b ∷ bs) =
    (if b.active_count == 0 then 0 else area_of now b.block) + area_of_blocks now bs

unfoldable pub waiting_resource_area : BlockWaitQueue → ℕ → ℕ
waiting_resource_area q now = area_of_blocks now q.blocks

-- The IDs that `for_each_active` visits, in order.
unfoldable pub active_ids : List BlockInfo → List ℕ
active_ids [] = []
active_ids (b ∷ bs) =
    (if b.active_count == 0 then [] else map (λ j. j.job_id) b.block) ++ active_ids bs

unfoldable pub for_each_active : BlockWaitQueue → List ℕ
for_each_active q = active_ids q.blocks
