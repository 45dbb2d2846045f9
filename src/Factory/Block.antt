-- ===== src/Factory/Block.antt =====
-- The choice of the block size in create_scheduler (src/sim/scheduler_base.cpp).
use dr_evt.Base.{
  ℕ, zero, suc, ◌+◌, ◌-◌, ◌*◌, ◌/◌, ◌%◌, ◌^◌, Bool, not, ◌||◌, ltb, ◌==◌, if◌then◌else◌,
}
use dr_evt.Factory.Choices.{Config, Creation, created, exited, fcfs_easy_block}

-- `a & b` on the lowest bits, as many as the first number.
unfoldable pub bit_and : ℕ → ℕ → ℕ → ℕ
bit_and zero a b = 0
bit_and (suc n) a b = (a % 2) * (b % 2) + 2 * bit_and n (a / 2) (b / 2)

-- `block_size == 0 || (block_size & (block_size - 1)) != 0`, on a 64-bit size_t.
unfoldable pub is_no_power : ℕ → Bool
is_no_power n = n == 0 || not (bit_and 64 n (n - 1) == 0)

-- `while (temp > 1) { temp >>= 1; log2_size++; }`. Each step halves a 64-bit number, so 64 steps
-- are enough.
unfoldable pub log2_of : ℕ → ℕ → ℕ
log2_of zero temp = 0
log2_of (suc n) temp = let more = suc (log2_of n (temp / 2)) in if ltb 1 temp then more else 0

unfoldable pub block_scheduler : Config → ℕ → Creation
block_scheduler c size =
    created (fcfs_easy_block size c.total_nodes c.backfill_policy c.backfill_queue_depth)

-- `switch (log2_size)`.
unfoldable pub by_log2 : Config → ℕ → Creation
by_log2 c log2 =
    if log2 == 2
    then block_scheduler c 4
    else if log2 == 3
    then block_scheduler c 8
    else if log2 == 4
    then block_scheduler c 16
    else if log2 == 5
    then block_scheduler c 32
    else if log2 == 6
    then block_scheduler c 64
    else if log2 == 7
    then block_scheduler c 128
    else if log2 == 8
    then block_scheduler c 256
    else exited

-- The branch of the block queue.
unfoldable pub create_block_scheduler : Config → Creation
create_block_scheduler c =
    let log2 = log2_of 64 c.block_size in
    if is_no_power c.block_size
    then exited
    else if not (2 ^ log2 == c.block_size)
    then exited
    else by_log2 c log2
