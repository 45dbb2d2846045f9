-- ===== src/BlockQueue/Blocks.antt =====
-- The arithmetic on job IDs finds the right block: lookup and removal in a block are those in the
-- flat list.
use native.Mathlib.Nat.{div-eq-sub-div, div-eq_of_lt}
use dr_evt.Base.{
  ℕ, zero, suc, ◌+◌, ◌-◌, ◌/◌, ◌^◌, ◌≤◌, ◌<◌, ◌≡◌, refl, sym, ◌∙◌, ap, true, false, none, List, [],
  ◌∷◌, ◌++◌, arith, ltb, length, Bool-cases, inl, inr, subst, get_elem?, leb, leb→le, leb→lt,
}
use dr_evt.BlockQueue.{
  BlockInfo, BlockWaitQueue, erase_id, find_id, is_some, block_of, block_index, modify, erase_in,
  get_job_info, remove,
}
use dr_evt.BlockQueue.Flat.{
  flat, waiting, Ids, AreBlocks, IsInBlock, IsBelow, All-weaken, Ids-IsBelow, AreBlocks-IsFrom,
  find_id-from, erase_id-absent, find_id-append_none, find_id-none_append, erase_id-append_some,
  erase_id-none_append, length-erase_id, erase_id-Ids, erase_id-All,
}

quotient_zero : (n size : ℕ) → 0 < size → n / size ≡ 0 → n < size
quotient_zero n size pos eq = elim (Bool-cases (leb size n)) [
  | inl large ↦ absurd (omega (arith, eq, div-eq-sub-div pos (leb→le size n large)))
  | inr small ↦ leb→lt size n small
]

quotient_suc : (n size i : ℕ) → 0 < size → n / size ≡ suc i → (size ≤ n) × ((n - size) / size ≡ i)
quotient_suc n size i pos eq = elim (Bool-cases (leb size n)) [
  | inl large ↦ let le = leb→le size n large in (le, omega (arith, eq, div-eq-sub-div pos le))
  | inr small ↦ absurd (omega (arith, eq, div-eq_of_lt (leb→lt size n small)))
]

in_block : (size lo i id : ℕ) → 0 < size → lo ≤ id → (id - lo) / size ≡ i → IsInBlock size lo i id
in_block size lo zero id pos le eq = (le, omega (arith, quotient_zero (id - lo) size pos eq))
in_block size lo (suc i) id pos le eq =
    let (large, rest) = quotient_suc (id - lo) size i pos eq in
    let moved : id - (lo + size) ≡ id - lo - size = omega arith in
    in_block size (lo + size) i id pos (omega arith) (subst (λ n. n / size ≡ i) (sym moved) rest)

pow_pos : (n : ℕ) → 0 < 2 ^ n
pow_pos zero = omega arith
pow_pos (suc n) = omega (arith, pow_pos n)

-- The index that the queue computes is that of the block of the ID.
pub block_index-IsInBlock :
    (shift first id : ℕ) → first ≤ id → IsInBlock (2 ^ shift) first (block_index shift first id) id
unfolding block_index
block_index-IsInBlock shift first id le = in_block (2 ^ shift) first _ id (pow_pos shift) le refl

pub in_block-from : (size lo i id : ℕ) → IsInBlock size lo i id → lo ≤ id
in_block-from size lo zero id h = h.0
in_block-from size lo (suc i) id h = omega (arith, in_block-from size (lo + size) i id h)

-- The IDs of the blocks behind the first one are beyond it.
pub behind-absent :
    (size lo id : ℕ) (bs : List BlockInfo)
    → AreBlocks size (lo + size) bs
    → id < lo + size
    → find_id id (flat bs) ≡ none
behind-absent size lo id bs v lt =
    find_id-from id (lo + size) (flat bs) lt (AreBlocks-IsFrom size (lo + size) bs v)

pub first-IsBelow :
    (size lo id : ℕ) (b : BlockInfo)
    → Ids lo (lo + size) b.block
    → lo + size ≤ id
    → IsBelow id b.block
first-IsBelow size lo id b ids le =
    All-weaken _ _ (λ k lt. omega arith) b.block (Ids-IsBelow lo (lo + size) b.block ids)

pub find_in_block :
    (size lo i id : ℕ) (bs : List BlockInfo)
    → AreBlocks size lo bs
    → IsInBlock size lo i id
    → find_id id (block_of (get_elem? bs i)) ≡ find_id id (flat bs)
unfolding block_of flat
find_in_block size lo zero id [] v h = refl
find_in_block size lo (suc i) id [] v h = refl
find_in_block size lo zero id (b ∷ bs) v h =
    sym (find_id-append_none id b.block (flat bs) (behind-absent size lo id bs v.2 h.1))
find_in_block size lo (suc i) id (b ∷ bs) v h =
    find_in_block size (lo + size) i id bs v.2 h
    ∙ sym (
        find_id-none_append id b.block (flat bs)
          (first-IsBelow size lo id b v.0 (in_block-from size (lo + size) i id h)))

-- What erasing an ID that is there makes of the blocks.
record Erases (size lo i id : ℕ) (bs : List BlockInfo) : Type 0 where
  blocks : AreBlocks size lo (modify (erase_in id) i bs)
  erased : flat (modify (erase_in id) i bs) ≡ erase_id id (flat bs)

erase_in_block :
    (size lo i id : ℕ) (bs : List BlockInfo)
    → AreBlocks size lo bs
    → IsInBlock size lo i id
    → is_some (find_id id (flat bs)) ≡ true
    → Erases size lo i id bs
unfolding modify flat
erase_in_block size lo i id [] v h found = absurd (nothing found)
  where
    nothing : is_some (find_id id []) ≡ true → ⊥
    nothing found = unfold is_some find_id in cc found
erase_in_block size lo zero id (b ∷ bs) v h found =
    let here : is_some (find_id id b.block) ≡ true =
      subst (λ o. is_some o ≡ true)
        (find_id-append_none id b.block (flat bs) (behind-absent size lo id bs v.2 h.1)) found in
    record {
      blocks = (
        erase_id-Ids id lo (lo + size) b.block v.0,
        omega (arith, v.1, length-erase_id id b.block here),
        v.2,
      );
      erased = sym (erase_id-append_some id b.block (flat bs) here);
    }
erase_in_block size lo (suc i) id (b ∷ bs) v h found =
    let below = first-IsBelow size lo id b v.0 (in_block-from size (lo + size) i id h) in
    let e =
      erase_in_block size (lo + size) i id bs v.2 h
        (subst (λ o. is_some o ≡ true) (find_id-none_append id b.block (flat bs) below) found) in
    record {
      blocks = (v.0, v.1, e.blocks);
      erased =
          ap (λ l. b.block ++ l) e.erased ∙ sym (erase_id-none_append id b.block (flat bs) below);
    }

-- A queue is well-formed: its blocks are, its count is that of its jobs, and no ID is before the
-- first or beyond the last one inserted.
pub record Inv (shift : ℕ) (q : BlockWaitQueue) : Type 0 where
  pub blocks : AreBlocks (2 ^ shift) q.first_job_id q.blocks
  pub counted : q.active_count ≡ length (waiting q)
  pub last : IsBelow (suc q.last_job_id) (waiting q)
  pub first : 0 < q.total_jobs → q.first_job_id ≤ q.last_job_id
  pub fresh : q.total_jobs ≡ 0 → q.blocks ≡ []

module _ (shift : ℕ) (q : BlockWaitQueue) (id : ℕ) (v : Inv shift q) where
  pub get_job_info_lem : get_job_info shift q id ≡ find_id id (waiting q)
  unfolding get_job_info
  get_job_info_lem = elim (Bool-cases (ltb id q.first_job_id)) [
    | inl before ↦ rw before (
        sym (
          find_id-from id q.first_job_id (waiting q) (ground arith)
            (AreBlocks-IsFrom (2 ^ shift) q.first_job_id q.blocks v.blocks)))
    | inr from ↦ rw from (
        find_in_block (2 ^ shift) q.first_job_id _ id q.blocks v.blocks
          (block_index-IsInBlock shift q.first_job_id id (ground arith)))
  ]

  present-from : is_some (get_job_info shift q id) ≡ true → q.first_job_id ≤ id
  unfolding get_job_info is_some
  present-from h = elim (Bool-cases (ltb id q.first_job_id)) [
    | inl before ↦ absurd (ground arith)
    | inr from ↦ ground arith
  ]

  removed-Inv :
      is_some (get_job_info shift q id) ≡ true
      → is_some (find_id id (waiting q)) ≡ true
      → Erases (2 ^ shift) q.first_job_id (block_index shift q.first_job_id id) id q.blocks
      → Inv shift (record q {
        blocks = modify (erase_in id) (block_index shift q.first_job_id id) q.blocks;
        active_count = q.active_count - 1;
      })
  unfolding modify
  removed-Inv present found e = record {
    blocks = e.blocks;
    counted = omega (arith, ap length e.erased, length-erase_id id (waiting q) found, v.counted);
    last =
        subst (IsBelow (suc q.last_job_id)) (sym e.erased) (erase_id-All _ id (waiting q) v.last);
    first = v.first;
    fresh = λ none_yet.
        ap (modify (erase_in id) (block_index shift q.first_job_id id)) (v.fresh none_yet);
  }

  -- Removing an ID from a well-formed queue takes exactly the job with the ID out of the waiting
  -- jobs, changes nothing if there is none, and leaves a well-formed queue.
  pub remove_lem :
      (waiting (remove shift q id) ≡ erase_id id (waiting q)) × Inv shift (remove shift q id)
  unfolding remove
  remove_lem = elim (Bool-cases (is_some (get_job_info shift q id))) [
    | inr absent ↦ rw absent (
      sym (erase_id-absent id (waiting q) (subst (λ o. is_some o ≡ false) get_job_info_lem absent)),
      v,
    )
    | inl present ↦
        let found : is_some (find_id id (waiting q)) ≡ true =
          subst (λ o. is_some o ≡ true) get_job_info_lem present in
        let e =
          erase_in_block (2 ^ shift) q.first_job_id (block_index shift q.first_job_id id) id
            q.blocks v.blocks (block_index-IsInBlock shift q.first_job_id id (present-from present))
            found in
        rw present (e.erased, removed-Inv present found e)
  ]
