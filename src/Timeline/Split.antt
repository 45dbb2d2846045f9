-- ===== src/Timeline/Split.antt =====
-- `split_at`: the boundary it finds or creates, and what it leaves alone.
use dr_evt.Base.{
  ℕ, zero, suc, ◌-◌, ◌≤◌, ◌<◌, ◌≡◌, refl, [], ◌∷◌, true, false, arith, ltb, get_elem?, Bool-cases,
  inl, inr, ltb→lt, ltb→le, lt→ltb, le→ltb, ==_iff,
}
use dr_evt.Timeline.{
  Segment, Timeline, lower_bound, insert_at, free_of, free_at_index, begins_at, split_at,
}
use dr_evt.Timeline.Free.{value_from, free_at, Ascends, IsSorted, StartsBy}

-- The segment at an index begins at `t`.
abbrev pub BoundaryAt : Timeline → ℕ → ℕ → Type 0
BoundaryAt [] i t = ⊥
BoundaryAt (s ∷ r) zero t = s.time ≡ t
BoundaryAt (s ∷ r) (suc i) t = BoundaryAt r i t

pub BoundaryAt-after : (a : ℕ) (l : Timeline) (i t : ℕ) → Ascends a l → BoundaryAt l i t → a < t
BoundaryAt-after a [] i t asc b = elim b [ ]
BoundaryAt-after a (s ∷ r) zero t asc b = omega arith
BoundaryAt-after a (s ∷ r) (suc i) t asc b = omega (arith, BoundaryAt-after s.time r i t asc.1 b)

BoundaryAt-found :
    (l : Timeline) (i time : ℕ) → begins_at time (get_elem? l i) ≡ true → BoundaryAt l i time
unfolding begins_at
BoundaryAt-found [] i time h = cc
BoundaryAt-found (s ∷ r) zero time h = (==_iff _ _).0 h
BoundaryAt-found (s ∷ r) (suc i) time h = BoundaryAt-found r i time h

-- The boundary that a split creates, behind a segment with `v` free nodes.
module _ (time : ℕ) where
  abbrev IsNew : Timeline → Type 0
  IsNew l = begins_at time (get_elem? l (lower_bound time l)) ≡ false

  abbrev with_boundary : ℕ → Timeline → Timeline
  with_boundary w l = insert_at (lower_bound time l) (record { time = time; free = w }) l

  IsNew-next : (s : Segment) (r : Timeline) → s.time < time → IsNew (s ∷ r) → IsNew r
  unfolding lower_bound
  IsNew-next s r lt new = rw (lt→ltb _ _ lt) at new

  IsNew-here : (s : Segment) (r : Timeline) → time ≤ s.time → IsNew (s ∷ r) → time < s.time
  unfolding lower_bound begins_at
  IsNew-here s r le new = let here = rw (le→ltb _ _ le) at new in ground arith

  before_boundary :
      (s : Segment) (r : Timeline)
      → IsNew r
      → free_at_index (s ∷ r) (lower_bound time r) ≡ value_from s.free r time
  unfolding lower_bound free_at_index free_of value_from
  before_boundary s [] new = refl
  before_boundary s (u ∷ r) new = elim (Bool-cases (ltb u.time time)) [
    | inl lt ↦
        let rest = before_boundary u r (IsNew-next u r (ltb→lt _ _ lt) new) in
        rw lt (ground (arith, rest))
    | inr ge ↦ let past = IsNew-here u r (ltb→le _ _ ge) new in rw ge (ground arith)
  ]

  with_boundary_view :
      (v : ℕ) (l : Timeline) (t : ℕ)
      → IsNew l
      → value_from v (with_boundary (value_from v l time) l) t ≡ value_from v l t
  unfolding lower_bound value_from insert_at
  with_boundary_view v [] t new = ground arith
  with_boundary_view v (s ∷ r) t new = elim (Bool-cases (ltb s.time time)) [
    | inl lt ↦
        let rest = with_boundary_view s.free r t (IsNew-next s r (ltb→lt _ _ lt) new) in
        rw (lt, insert_at) (ground (arith, rest, ltb→lt _ _ lt))
    | inr ge ↦ let past = IsNew-here s r (ltb→le _ _ ge) new in rw (ge, insert_at) (ground arith)
  ]

  with_boundary-Ascends :
      (a w : ℕ) (l : Timeline) → a < time → Ascends a l → IsNew l → Ascends a (with_boundary w l)
  unfolding lower_bound insert_at
  with_boundary-Ascends a w [] lt asc new = (lt, tt)
  with_boundary-Ascends a w (s ∷ r) lt asc new = elim (Bool-cases (ltb s.time time)) [
    | inl before ↦
        rw (before, insert_at)
          (
            asc.0,
            with_boundary-Ascends s.time w r (ltb→lt _ _ before) asc.1
                (IsNew-next s r (ltb→lt _ _ before) new),
          )
    | inr ge ↦ rw (ge, insert_at) (lt, (IsNew-here s r (ltb→le _ _ ge) new, asc.1))
  ]

  BoundaryAt-created :
      (w : ℕ) (l : Timeline) → BoundaryAt (with_boundary w l) (lower_bound time l) time
  unfolding lower_bound insert_at
  BoundaryAt-created w [] = refl
  BoundaryAt-created w (s ∷ r) = elim (Bool-cases (ltb s.time time)) [
    | inl before ↦ rw (before, insert_at) (BoundaryAt-created w r)
    | inr ge ↦ rw (ge, insert_at) refl
  ]

  -- A boundary before `time` keeps its index, which is below the new one.
  BoundaryAt-kept :
      (w : ℕ) (a : ℕ) (l : Timeline) (i t : ℕ)
      → Ascends a l
      → BoundaryAt l i t
      → t < time
      → BoundaryAt (with_boundary w l) i t × (i < lower_bound time l)
  unfolding lower_bound insert_at
  BoundaryAt-kept w a [] i t asc b lt = elim b [ ]
  BoundaryAt-kept w a (s ∷ r) zero t asc b lt =
      rw (lt→ltb s.time time (omega arith), insert_at) (b, omega arith)
  BoundaryAt-kept w a (s ∷ r) (suc i) t asc b lt =
      let past = BoundaryAt-after s.time r i t asc.1 b in
      let rest = BoundaryAt-kept w s.time r i t asc.1 b lt in
      rw (lt→ltb s.time time (omega arith), insert_at) (rest.0, omega (arith, rest.1))

-- What a split returns.
pub record Splits (l : Timeline) (time : ℕ) (l' : Timeline) (index : ℕ) : Type 0 where
  pub view : (t : ℕ) → free_at l' t ≡ free_at l t
  pub sorted : IsSorted l'
  pub begun : (t : ℕ) → StartsBy t l → StartsBy t l'
  pub back : (t : ℕ) → StartsBy t l' → StartsBy t l
  pub boundary : BoundaryAt l' index time
  pub kept : (i t : ℕ) → BoundaryAt l i t → t < time → BoundaryAt l' i t × (i < index)

kept_below :
    (s : Segment) (r : Timeline) (time i t : ℕ)
    → Ascends s.time r
    → s.time < time
    → BoundaryAt (s ∷ r) i t
    → t < time
    → i < suc (lower_bound time r)
kept_below s r time zero t asc lt b h = omega arith
kept_below s r time (suc i) t asc lt b h =
    omega (arith, (BoundaryAt-kept time 0 s.time r i t asc b h).1)

kept_boundary :
    (s : Segment) (r : Timeline) (time w i t : ℕ)
    → Ascends s.time r
    → BoundaryAt (s ∷ r) i t
    → t < time
    → BoundaryAt (s ∷ with_boundary time w r) i t
kept_boundary s r time w zero t asc b h = b
kept_boundary s r time w (suc i) t asc b h = (BoundaryAt-kept time w s.time r i t asc b h).0

-- The boundary exists already.
split_found :
    (s : Segment) (r : Timeline) (time : ℕ)
    → Ascends s.time r
    → s.time < time
    → begins_at time (get_elem? r (lower_bound time r)) ≡ true
    → Splits (s ∷ r) time (s ∷ r) (suc (lower_bound time r))
split_found s r time asc lt found = record {
  view = λ t. refl;
  sorted = asc;
  begun = λ t b. b;
  back = λ t b. b;
  boundary = BoundaryAt-found r (lower_bound time r) time found;
  kept = λ i t b h. (b, kept_below s r time i t asc lt b h);
}

split_new :
    (s : Segment) (r : Timeline) (time w : ℕ)
    → Ascends s.time r
    → s.time < time
    → IsNew time r
    → w ≡ value_from s.free r time
    → Splits (s ∷ r) time (s ∷ with_boundary time w r) (suc (lower_bound time r))
unfolding free_at
split_new s r time w asc lt new e = record {
  view = λ t. rw e (with_boundary_view time s.free r t new);
  sorted = with_boundary-Ascends time s.time w r lt asc new;
  begun = λ t b. b;
  back = λ t b. b;
  boundary = BoundaryAt-created time w r;
  kept = λ i t b h. (kept_boundary s r time w i t asc b h, kept_below s r time i t asc lt b h);
}

split_first :
    (s : Segment) (r : Timeline) (time : ℕ)
    → Ascends s.time r
    → s.time ≡ time
    → Splits (s ∷ r) time (s ∷ r) 0
split_first s r time asc e = record {
  view = λ t. refl;
  sorted = asc;
  begun = λ t b. b;
  back = λ t b. b;
  boundary = e;
  kept = λ i t b h. absurd (early i t b h);
}
  where
    early : (i t : ℕ) → BoundaryAt (s ∷ r) i t → t < time → ⊥
    early zero t b h = omega arith
    early (suc i) t b h = omega (arith, BoundaryAt-after s.time r i t asc b)

suc_sub : (n : ℕ) → suc n - 1 ≡ n
suc_sub n = omega arith

pub split_at-Splits :
    (l : Timeline) (time : ℕ)
    → IsSorted l
    → StartsBy time l
    → Splits l time (split_at l time).0 (split_at l time).1
unfolding split_at
split_at-Splits [] time sorted begun = elim begun [ ]
split_at-Splits (s ∷ r) time sorted begun = elim (Bool-cases (ltb s.time time)) [
  | inl lt ↦ elim (Bool-cases (begins_at time (get_elem? r (lower_bound time r)))) [
    | inl found ↦ rw (lt, found) (split_found s r time sorted (ltb→lt _ _ lt) found)
    | inr new ↦
        rw (lt, new, insert_at, suc_sub)
          (split_new s r time _ sorted (ltb→lt _ _ lt) new (before_boundary time s r new))
  ]
  | inr ge ↦
      let same : s.time ≡ time = omega (arith, ltb→le _ _ ge) in
      rw (ge, (==_iff _ _).1 same) (split_first s r time sorted same)
]
