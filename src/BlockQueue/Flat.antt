-- ===== src/BlockQueue/Flat.antt =====
-- The view of a block queue as one list in the order of the job IDs, and the well-formedness of its
-- blocks.
use dr_evt.Base.{
  ℕ, zero, suc, ◌+◌, ◌≤◌, ◌<◌, ◌≡◌, refl, ap, true, false, none, List, [], ◌∷◌, ◌++◌, arith, ◌==◌,
  length, All, Bool-cases, inl, inr,
}
use dr_evt.BlockQueue.{BlockJob, BlockInfo, BlockWaitQueue, erase_id, find_id, is_some}

unfoldable pub flat : List BlockInfo → List BlockJob
flat [] = []
flat (b ∷ bs) = b.block ++ flat bs

abbrev pub waiting : BlockWaitQueue → List BlockJob
waiting q = flat q.blocks

-- The IDs ascend strictly within [lo, hi).
abbrev pub Ids : ℕ → ℕ → List BlockJob → Type 0
Ids lo hi [] = lo ≤ hi
Ids lo hi (j ∷ js) = (lo ≤ j.job_id) × Ids (suc j.job_id) hi js

-- Consecutive blocks of `size` IDs from `lo` on, with their counts.
abbrev pub AreBlocks : ℕ → ℕ → List BlockInfo → Type 0
AreBlocks size lo [] = Unit {0}
AreBlocks size lo (b ∷ bs) =
    Ids lo (lo + size) b.block × (b.active_count ≡ length b.block) × AreBlocks size (lo + size) bs

-- The ID belongs to the block with the index, counted from the block that begins at `lo`.
abbrev pub IsInBlock : ℕ → ℕ → ℕ → ℕ → Type 0
IsInBlock size lo zero id = (lo ≤ id) × (id < lo + size)
IsInBlock size lo (suc i) id = IsInBlock size (lo + size) i id

abbrev pub IsBelow : ℕ → List BlockJob → Type 0
IsBelow id js = All (λ j. j.job_id < id) js

abbrev pub IsFrom : ℕ → List BlockJob → Type 0
IsFrom lo js = All (λ j. lo ≤ j.job_id) js

pub All-weaken :
    (P Q : BlockJob → Type 0)
    → ((j : BlockJob) → P j → Q j)
    → (js : List BlockJob) → All P js
    → All Q js
All-weaken P Q step [] all = tt
All-weaken P Q step (j ∷ js) all = (step j all.0, All-weaken P Q step js all.1)

pub All-join :
    (P : BlockJob → Type 0) (xs ys : List BlockJob) → All P xs → All P ys → All P (xs ++ ys)
All-join P [] ys a b = b
All-join P (x ∷ xs) ys a b = (a.0, All-join P xs ys a.1 b)

pub All-part :
    (P : BlockJob → Type 0) (xs ys : List BlockJob) → All P (xs ++ ys) → All P xs × All P ys
All-part P [] ys all = (tt, all)
All-part P (x ∷ xs) ys all = let (a, b) = All-part P xs ys all.1 in ((all.0, a), b)

pub Ids-le : (lo hi : ℕ) (js : List BlockJob) → Ids lo hi js → lo ≤ hi
Ids-le lo hi [] ids = ids
Ids-le lo hi (j ∷ js) ids = omega (arith, Ids-le (suc j.job_id) hi js ids.1)

pub Ids-IsFrom : (lo hi : ℕ) (js : List BlockJob) → Ids lo hi js → IsFrom lo js
Ids-IsFrom lo hi [] ids = tt
Ids-IsFrom lo hi (j ∷ js) ids =
    (ids.0, All-weaken _ _ (λ k above. omega arith) js (Ids-IsFrom (suc j.job_id) hi js ids.1))

pub Ids-IsBelow : (lo hi : ℕ) (js : List BlockJob) → Ids lo hi js → IsBelow hi js
Ids-IsBelow lo hi [] ids = tt
Ids-IsBelow lo hi (j ∷ js) ids =
    (omega (arith, Ids-le (suc j.job_id) hi js ids.1), Ids-IsBelow (suc j.job_id) hi js ids.1)

pub Ids-lower : (lo lo' hi : ℕ) (js : List BlockJob) → lo' ≤ lo → Ids lo hi js → Ids lo' hi js
Ids-lower lo lo' hi [] le ids = omega arith
Ids-lower lo lo' hi (j ∷ js) le ids = (omega arith, ids.1)

pub AreBlocks-IsFrom :
    (size lo : ℕ) (bs : List BlockInfo) → AreBlocks size lo bs → IsFrom lo (flat bs)
unfolding flat
AreBlocks-IsFrom size lo [] v = tt
AreBlocks-IsFrom size lo (b ∷ bs) v =
    All-join _ b.block (flat bs) (Ids-IsFrom lo (lo + size) b.block v.0)
      (All-weaken _ _ (λ k above. omega arith) (flat bs) (AreBlocks-IsFrom size (lo + size) bs v.2))

-- Searches for an ID that the list does not have.
pub find_id-below : (id : ℕ) (js : List BlockJob) → IsBelow id js → find_id id js ≡ none
unfolding find_id
find_id-below id [] below = refl
find_id-below id (j ∷ js) below =
    let other : (j.job_id == id) ≡ false = ground arith in rw other (find_id-below id js below.1)

pub find_id-from : (id lo : ℕ) (js : List BlockJob) → id < lo → IsFrom lo js → find_id id js ≡ none
unfolding find_id
find_id-from id lo [] lt from = refl
find_id-from id lo (j ∷ js) lt from =
    let other : (j.job_id == id) ≡ false = ground arith in
    rw other (find_id-from id lo js lt from.1)

pub erase_id-absent :
    (id : ℕ) (js : List BlockJob) → is_some (find_id id js) ≡ false → erase_id id js ≡ js
unfolding erase_id find_id is_some
erase_id-absent id [] h = refl
erase_id-absent id (j ∷ js) h = elim (Bool-cases (j.job_id == id)) [
  | inl here ↦ absurd (ground arith)
  | inr other ↦ rw other (ap (λ l. j ∷ l) (erase_id-absent id js (skip other)))
]
  where
    skip : (j.job_id == id) ≡ false → is_some (find_id id js) ≡ false
    skip other = ground arith

pub find_id-append_none :
    (id : ℕ) (xs ys : List BlockJob) → find_id id ys ≡ none → find_id id (xs ++ ys) ≡ find_id id xs
unfolding find_id
find_id-append_none id [] ys h = h
find_id-append_none id (x ∷ xs) ys h = rw (find_id-append_none id xs ys h) refl

pub find_id-none_append :
    (id : ℕ) (xs ys : List BlockJob) → IsBelow id xs → find_id id (xs ++ ys) ≡ find_id id ys
unfolding find_id
find_id-none_append id [] ys below = refl
find_id-none_append id (x ∷ xs) ys below =
    let other : (x.job_id == id) ≡ false = ground arith in
    rw other (find_id-none_append id xs ys below.1)

pub erase_id-append_some :
    (id : ℕ) (xs ys : List BlockJob)
    → is_some (find_id id xs) ≡ true
    → erase_id id (xs ++ ys) ≡ erase_id id xs ++ ys
unfolding erase_id find_id is_some
erase_id-append_some id [] ys h = absurd (cc h)
erase_id-append_some id (x ∷ xs) ys h = elim (Bool-cases (x.job_id == id)) [
  | inl here ↦ rw here refl
  | inr other ↦ rw other (ap (λ l. x ∷ l) (erase_id-append_some id xs ys (skip other)))
]
  where
    skip : (x.job_id == id) ≡ false → is_some (find_id id xs) ≡ true
    skip other = ground arith

pub erase_id-none_append :
    (id : ℕ) (xs ys : List BlockJob) → IsBelow id xs → erase_id id (xs ++ ys) ≡ xs ++ erase_id id ys
unfolding erase_id
erase_id-none_append id [] ys below = refl
erase_id-none_append id (x ∷ xs) ys below =
    let other : (x.job_id == id) ≡ false = ground arith in
    rw other (ap (λ l. x ∷ l) (erase_id-none_append id xs ys below.1))

pub length-erase_id :
    (id : ℕ) (js : List BlockJob)
    → is_some (find_id id js) ≡ true
    → suc (length (erase_id id js)) ≡ length js
unfolding erase_id find_id is_some
length-erase_id id [] h = absurd (cc h)
length-erase_id id (x ∷ xs) h = elim (Bool-cases (x.job_id == id)) [
  | inl here ↦ rw here (omega arith)
  | inr other ↦ rw other (omega (arith, length-erase_id id xs (skip other)))
]
  where
    skip : (x.job_id == id) ≡ false → is_some (find_id id xs) ≡ true
    skip other = ground arith

pub erase_id-Ids : (id lo hi : ℕ) (js : List BlockJob) → Ids lo hi js → Ids lo hi (erase_id id js)
unfolding erase_id
erase_id-Ids id lo hi [] ids = ids
erase_id-Ids id lo hi (j ∷ js) ids = elim (Bool-cases (j.job_id == id)) [
  | inl here ↦ rw here (Ids-lower (suc j.job_id) lo hi js (omega arith) ids.1)
  | inr other ↦ rw other (ids.0, erase_id-Ids id (suc j.job_id) hi js ids.1)
]

pub erase_id-All :
    (P : BlockJob → Type 0) (id : ℕ) (js : List BlockJob) → All P js → All P (erase_id id js)
unfolding erase_id
erase_id-All P id [] all = tt
erase_id-All P id (j ∷ js) all = elim (Bool-cases (j.job_id == id)) [
  | inl here ↦ rw here all.1
  | inr other ↦ rw other (all.0, erase_id-All P id js all.1)
]
