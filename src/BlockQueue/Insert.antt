-- ===== src/BlockQueue/Insert.antt =====
-- Insertion puts a job at the end of the waiting jobs, in the block of its ID.
use mathlib.Core.List.{append_assoc, append-nil}
use dr_evt.Base.{
  ℕ, zero, suc, ◌+◌, ◌^◌, ◌≤◌, ◌<◌, ◌≡◌, refl, sym, ◌∙◌, ap, false, Option, some, List, [], ◌∷◌,
  ◌++◌, arith, leb, ◌==◌, length, Bool-cases, inl, inr, subst, length-append, get_elem?, ==_iff,
}
use dr_evt.BlockQueue.{
  BlockJob, BlockInfo, BlockWaitQueue, push_back, grow, modify, is_full, block_index, insert_behind,
  insert_job, empty_queue,
}
use dr_evt.BlockQueue.Flat.{
  flat, waiting, AreBlocks, Ids, IsInBlock, IsBelow, IsFrom, All-weaken, All-part, All-join,
  AreBlocks-IsFrom,
}
use dr_evt.BlockQueue.Blocks.{Inv, block_index-IsInBlock}

Ids-snoc :
    (lo hi : ℕ) (js : List BlockJob) (j : BlockJob)
    → Ids lo hi js
    → IsBelow j.job_id js
    → lo ≤ j.job_id
    → j.job_id < hi
    → Ids lo hi (js ++ j ∷ [])
Ids-snoc lo hi [] j ids below from to = (from, omega arith)
Ids-snoc lo hi (k ∷ js) j ids below from to =
    (ids.0, Ids-snoc (suc k.job_id) hi js j ids.1 below.1 (omega arith) to)

-- Ascending IDs below `id` are no more than the numbers up to it.
length-le_id :
    (lo hi id : ℕ) (js : List BlockJob)
    → Ids lo hi js
    → IsBelow id js
    → lo ≤ id
    → lo + length js ≤ id
length-le_id lo hi id [] ids below le = omega arith
length-le_id lo hi id (j ∷ js) ids below le =
    omega (arith, length-le_id (suc j.job_id) hi id js ids.1 below.1 (omega arith))

none_between : (a b : ℕ) (js : List BlockJob) → b ≤ a → IsFrom a js → IsBelow b js → js ≡ []
none_between a b [] le from below = refl
none_between a b (j ∷ js) le from below = absurd (omega arith)

-- What inserting a job in the block with the index makes of the blocks.
record Inserts (size lo i : ℕ) (bs : List BlockInfo) (j : BlockJob) : Type 0 where
  room : is_full size (get_elem? (grow i bs) i) ≡ false
  inserted : flat (modify (push_back j) i (grow i bs)) ≡ flat bs ++ j ∷ []
  blocks : AreBlocks size lo (modify (push_back j) i (grow i bs))

insert_block :
    (size lo i : ℕ) (bs : List BlockInfo) (j : BlockJob)
    → AreBlocks size lo bs
    → IsInBlock size lo i j.job_id
    → IsBelow j.job_id (flat bs)
    → Inserts size lo i bs j
unfolding modify grow flat is_full
insert_block size lo zero [] j v at below = record {
  room = ground arith;
  inserted = refl;
  blocks = ((at.0, omega arith), omega arith, tt);
}
insert_block size lo (suc i) [] j v at below =
    let rest = insert_block size (lo + size) i [] j tt at tt in
    record {
      room = rest.room;
      inserted = rest.inserted;
      blocks = (omega arith, omega arith, rest.blocks);
    }
insert_block size lo zero (b ∷ bs) j v at below =
    let (mine, others) = All-part _ b.block (flat bs) below in
    let behind : flat bs ≡ [] =
      none_between (lo + size) j.job_id (flat bs) (omega arith)
        (AreBlocks-IsFrom size (lo + size) bs v.2) others in
    record {
      room = has_room (length-le_id lo (lo + size) j.job_id b.block v.0 mine at.0) at.1;
      inserted =
          append_assoc b.block (j ∷ []) (flat bs)
          ∙ ap (λ l. b.block ++ j ∷ l) behind
          ∙ sym (
              ap (λ l. (b.block ++ l) ++ j ∷ []) behind
              ∙ ap (λ l. l ++ j ∷ []) (append-nil b.block));
      blocks = (
        Ids-snoc lo (lo + size) b.block j v.0 mine at.0 at.1,
        omega (arith, v.1, length-append b.block (j ∷ [])),
        v.2,
      );
    }
  where
    has_room :
        lo + length b.block ≤ j.job_id → j.job_id < lo + size → leb size (length b.block) ≡ false
    has_room le lt = ground arith
insert_block size lo (suc i) (b ∷ bs) j v at below =
    let (mine, others) = All-part _ b.block (flat bs) below in
    let rest = insert_block size (lo + size) i bs j v.2 at others in
    record {
      room = rest.room;
      inserted =
          ap (λ l. b.block ++ l) rest.inserted ∙ sym (append_assoc b.block (flat bs) (j ∷ []));
      blocks = (v.0, v.1, rest.blocks);
    }

pub empty-Inv : (shift : ℕ) → Inv shift empty_queue
unfolding flat
empty-Inv shift = record {
  blocks = tt;
  counted = refl;
  last = tt;
  first = λ pos. omega arith;
  fresh = λ none_yet. refl;
}

-- The queue with the job put in.
abbrev inserted_in : ℕ → BlockWaitQueue → BlockJob → BlockWaitQueue
inserted_in shift q j =
    let index = block_index shift q.first_job_id j.job_id in
    record q {
      blocks = modify (push_back j) index (grow index q.blocks);
      current_block_idx = index;
      last_job_id = j.job_id;
      total_jobs = suc q.total_jobs;
      active_count = suc q.active_count;
    }

-- What an insertion promises.
abbrev pub InsertsLast : ℕ → BlockWaitQueue → BlockJob → Option BlockWaitQueue → Type 0
InsertsLast shift q j r =
    (q' : BlockWaitQueue) × (r ≡ some q')
    × (waiting q' ≡ waiting q ++ j ∷ [])
    × (q'.last_job_id ≡ j.job_id)
    × Inv shift q'

insert_behind-InsertsLast :
    (shift : ℕ) (q : BlockWaitQueue) (j : BlockJob)
    → AreBlocks (2 ^ shift) q.first_job_id q.blocks
    → q.active_count ≡ length (waiting q)
    → q.first_job_id ≤ j.job_id
    → IsBelow j.job_id (waiting q)
    → InsertsLast shift q j (insert_behind shift q j)
unfolding insert_behind
insert_behind-InsertsLast shift q j blocks counted first below =
    let index = block_index shift q.first_job_id j.job_id in
    let i =
      insert_block (2 ^ shift) q.first_job_id index q.blocks j blocks
        (block_index-IsInBlock shift q.first_job_id j.job_id first) below in
    let below' : IsBelow (suc j.job_id) (waiting q ++ j ∷ []) =
      All-join _ (waiting q) (j ∷ []) (All-weaken _ _ (λ k lt. omega arith) (waiting q) below)
        (omega arith, tt) in
    rw i.room (
      inserted_in shift q j,
      refl,
      i.inserted,
      refl,
      record {
        blocks = i.blocks;
        counted = omega (arith, counted, ap length i.inserted, length-append (waiting q) (j ∷ []));
        last = subst (IsBelow (suc j.job_id)) (sym i.inserted) below';
        first = λ pos. first;
        fresh = λ none_yet. absurd (omega arith);
      },
    )

no_blocks-IsBelow : (q : BlockWaitQueue) (id : ℕ) → q.blocks ≡ [] → IsBelow id (waiting q)
unfolding flat
no_blocks-IsBelow q id eq = subst (λ bs. IsBelow id (flat bs)) (sym eq) tt

-- Inserting a job in a well-formed queue, with an ID beyond the last one inserted or in a queue
-- that never had a job: no exception is thrown, so no block is ever full; the job comes last among
-- the waiting ones; its ID is the last one inserted; and the queue is well-formed.
pub insert_job-InsertsLast :
    (shift : ℕ) (q : BlockWaitQueue) (j : BlockJob)
    → Inv shift q
    → (0 < q.total_jobs → q.last_job_id < j.job_id)
    → InsertsLast shift q j (insert_job shift q j)
unfolding insert_job
insert_job-InsertsLast shift q j v later = elim (Bool-cases (q.total_jobs == 0)) [
  | inl none_yet ↦
      let empty = v.fresh ((==_iff _ 0).0 none_yet) in
      rw none_yet (
        insert_behind-InsertsLast shift (record q { first_job_id = j.job_id }) j
          (subst (AreBlocks (2 ^ shift) j.job_id) (sym empty) tt) v.counted (omega arith)
          (no_blocks-IsBelow q j.job_id empty))
  | inr some_before ↦
      let pos : 0 < q.total_jobs = ground arith in
      let new : leb j.job_id q.last_job_id ≡ false = in_order (later pos) in
      rw some_before (
        rw new (
          insert_behind-InsertsLast shift q j v.blocks v.counted
            (omega (arith, v.first pos, later pos))
            (All-weaken _ _ (λ k lt. omega (arith, later pos)) (waiting q) v.last)))
]
  where
    in_order : q.last_job_id < j.job_id → leb j.job_id q.last_job_id ≡ false
    in_order lt = ground arith
