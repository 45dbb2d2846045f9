-- ===== src/Timeline/Reserve.antt =====
-- `reserve` takes its nodes from the view on its interval, and changes nothing else.
use dr_evt.Base.{
  ℕ, zero, suc, true, ◌+◌, ◌-◌, ◌≤◌, ◌<◌, ◌≡◌, refl, [], ◌∷◌, ◌&&◌, arith, leb, ltb, ◌==◌,
  if◌then◌else◌, ==-zero, Bool-cases, inl, inr, ==_iff, subst,
}
use dr_evt.Timeline.{
  Segment, Timeline, sub_nodes, free_of, free_at_index, erase_at, subtract_range, split_at,
  coalesce, reserve,
}
use dr_evt.Timeline.Free.{
  value_from, free_at, Ascends, IsSorted, StartsBy, value_from_before, Ascends-weaken,
}
use dr_evt.Timeline.Split.{BoundaryAt, BoundaryAt-after, Splits, split_at-Splits}

-- The same start times: what sortedness and the boundaries depend on.
abbrev SameTimes : Timeline → Timeline → Type 0
SameTimes [] [] = Unit {0}
SameTimes [] (s ∷ r) = ⊥
SameTimes (s ∷ r) [] = ⊥
SameTimes (s ∷ r) (s' ∷ r') = (s'.time ≡ s.time) × SameTimes r r'

SameTimes-refl : (l : Timeline) → SameTimes l l
SameTimes-refl [] = tt
SameTimes-refl (s ∷ r) = (refl, SameTimes-refl r)

subtract_range-SameTimes :
    (first count nodes : ℕ) (l : Timeline) → SameTimes l (subtract_range first count nodes l)
unfolding subtract_range
subtract_range-SameTimes first count nodes [] = tt
subtract_range-SameTimes (suc first) count nodes (s ∷ r) =
    (refl, subtract_range-SameTimes first count nodes r)
subtract_range-SameTimes zero zero nodes (s ∷ r) = SameTimes-refl (s ∷ r)
subtract_range-SameTimes zero (suc count) nodes (s ∷ r) =
    (refl, subtract_range-SameTimes zero count nodes r)

SameTimes-Ascends : (a : ℕ) (l l' : Timeline) → SameTimes l l' → Ascends a l → Ascends a l'
SameTimes-Ascends a [] [] e asc = tt
SameTimes-Ascends a [] (s ∷ r) e asc = elim e [ ]
SameTimes-Ascends a (s ∷ r) [] e asc = elim e [ ]
SameTimes-Ascends a (s ∷ r) (s' ∷ r') e asc =
    (omega arith, rw e.0 (SameTimes-Ascends s.time r r' e.1 asc.1))

SameTimes-IsSorted : (l l' : Timeline) → SameTimes l l' → IsSorted l → IsSorted l'
SameTimes-IsSorted [] [] e sorted = tt
SameTimes-IsSorted [] (s ∷ r) e sorted = elim e [ ]
SameTimes-IsSorted (s ∷ r) [] e sorted = elim e [ ]
SameTimes-IsSorted (s ∷ r) (s' ∷ r') e sorted = rw e.0 (SameTimes-Ascends s.time r r' e.1 sorted)

SameTimes-StartsBy : (t : ℕ) (l l' : Timeline) → SameTimes l l' → StartsBy t l → StartsBy t l'
SameTimes-StartsBy t [] l' e b = elim b [ ]
SameTimes-StartsBy t (s ∷ r) [] e b = elim e [ ]
SameTimes-StartsBy t (s ∷ r) (s' ∷ r') e b = omega arith

IsSorted-tail : (s : Segment) (r : Timeline) → Ascends s.time r → IsSorted r
IsSorted-tail s [] asc = tt
IsSorted-tail s (u ∷ r) asc = asc.1

SameTimes-StartsBy_back : (t : ℕ) (l l' : Timeline) → SameTimes l l' → StartsBy t l' → StartsBy t l
SameTimes-StartsBy_back t [] [] e b = elim b [ ]
SameTimes-StartsBy_back t [] (s ∷ r) e b = elim e [ ]
SameTimes-StartsBy_back t (s ∷ r) [] e b = elim e [ ]
SameTimes-StartsBy_back t (s ∷ r) (s' ∷ r') e b = omega arith

-- The range from the front to the boundary at `finish`.
subtract_front :
    (v count nodes finish t : ℕ) (l : Timeline)
    → BoundaryAt l count finish
    → IsSorted l
    → value_from (sub_nodes v nodes) (subtract_range zero count nodes l) t
      ≡ (if ltb t finish then sub_nodes (value_from v l t) nodes else value_from v l t)
unfolding subtract_range value_from
subtract_front v zero nodes finish t [] b sorted = elim b [ ]
subtract_front v (suc count) nodes finish t [] b sorted = elim b [ ]
subtract_front v zero nodes finish t (s ∷ r) b sorted = ground arith
subtract_front v (suc count) nodes finish t (s ∷ r) b sorted = ground (
  arith,
  BoundaryAt-after s.time r count finish sorted b,
  subtract_front s.free count nodes finish t r b (IsSorted-tail s r sorted),
)

-- The range between two boundaries.
subtract_between :
    (v first last count nodes start finish t : ℕ) (l : Timeline)
    → last ≡ first + count
    → BoundaryAt l first start
    → BoundaryAt l last finish
    → start ≤ finish
    → IsSorted l
    → value_from v (subtract_range first count nodes l) t ≡ (
        if leb start t && ltb t finish
        then sub_nodes (value_from v l t) nodes
        else value_from v l t)
unfolding subtract_range value_from
subtract_between v first last count nodes start finish t [] e b c le sorted = absurd b
subtract_between v zero last zero nodes start finish t (s ∷ r) e b c le sorted =
    let c' : BoundaryAt (s ∷ r) zero finish =
      subst (λ i. BoundaryAt (s ∷ r) i finish) {y = zero} (omega arith) c in
    ground arith
subtract_between v zero last (suc count) nodes start finish t (s ∷ r) e b c le sorted =
    let c' : BoundaryAt (s ∷ r) (suc count) finish =
      subst (λ i. BoundaryAt (s ∷ r) i finish) {y = suc count} (omega arith) c in
    ground (arith, subtract_front s.free count nodes finish t r c' (IsSorted-tail s r sorted))
subtract_between v (suc first) zero count nodes start finish t (s ∷ r) e b c le sorted =
    absurd (omega arith)
subtract_between v (suc first) (suc last) count nodes start finish t (s ∷ r) e b c le sorted =
    ground (
      arith,
      BoundaryAt-after s.time r first start sorted b,
      subtract_between s.free first last count nodes start finish t r (omega arith) b c le
          (IsSorted-tail s r sorted),
    )

value_from-free_at : (t : ℕ) (l : Timeline) → StartsBy t l → value_from 0 l t ≡ free_at l t
unfolding value_from free_at
value_from-free_at t [] begun = absurd begun
value_from-free_at t (s ∷ r) begun = ground arith

-- The same on the whole timeline, from the first boundary on.
subtract_view :
    (first last nodes start finish t : ℕ) (l : Timeline)
    → first ≤ last
    → BoundaryAt l first start
    → BoundaryAt l last finish
    → start ≤ finish
    → IsSorted l
    → StartsBy t l
    → free_at (subtract_range first (last - first) nodes l) t
      ≡ (if leb start t && ltb t finish then sub_nodes (free_at l t) nodes else free_at l t)
subtract_view first last nodes start finish t l le b c order sorted begun =
    let count = last - first in
    rw
      (
        ← value_from-free_at t l begun,
        ← value_from-free_at t (subtract_range first count nodes l)
            (SameTimes-StartsBy t l _ (subtract_range-SameTimes first count nodes l) begun),
      )
      (subtract_between 0 first last count nodes start finish t l (omega arith) b c order sorted)

-- Erasing a boundary between equal capacities leaves the view.
erase_view :
    (b t : ℕ) (s : Segment) (l : Timeline)
    → free_at_index (s ∷ l) b ≡ free_at_index l b
    → IsSorted (s ∷ l)
    → value_from s.free (erase_at b l) t ≡ value_from s.free l t
unfolding erase_at value_from free_at_index free_of
erase_view b t s [] e sorted = refl
erase_view zero t s (u ∷ r) e sorted = ground (arith, value_from_before s.free u.time t r sorted.1)
erase_view (suc b) t s (u ∷ r) e sorted = ground (arith, erase_view b t u r e sorted.1)

erase-Ascends : (a b : ℕ) (l : Timeline) → Ascends a l → Ascends a (erase_at b l)
unfolding erase_at
erase-Ascends a b [] asc = tt
erase-Ascends a zero (s ∷ r) asc = Ascends-weaken a s.time r (omega arith) asc.1
erase-Ascends a (suc b) (s ∷ r) asc = (asc.0, erase-Ascends s.time b r asc.1)

-- What `coalesce` and `reserve` promise besides the view.
pub record Keeps (l l' : Timeline) : Type 0 where
  pub sorted : IsSorted l'
  pub begun : (t : ℕ) → StartsBy t l → StartsBy t l'
  pub back : (t : ℕ) → StartsBy t l' → StartsBy t l

coalesce_view : (l : Timeline) (b t : ℕ) → IsSorted l → free_at (coalesce l b).0 t ≡ free_at l t
unfolding coalesce free_at erase_at
coalesce_view l zero t sorted = refl
coalesce_view [] (suc b) t sorted = ground arith
coalesce_view (s ∷ r) (suc b) t sorted =
    elim (Bool-cases (free_at_index (s ∷ r) b == free_at_index (s ∷ r) (suc b))) [
      | inl same ↦ rw (same, erase_at) (erase_view b t s r ((==_iff _ _).0 same) sorted)
      | inr differ ↦ rw differ
    ]

coalesce-Keeps : (l : Timeline) (b : ℕ) → IsSorted l → Keeps l (coalesce l b).0
unfolding coalesce free_at_index free_of erase_at
coalesce-Keeps l zero sorted = record {
  sorted = sorted;
  begun = λ t begun. begun;
  back = λ t begun. begun;
}
coalesce-Keeps [] (suc b) sorted = record {
  sorted = tt;
  begun = λ t begun. absurd begun;
  back = λ t begun. absurd begun;
}
coalesce-Keeps (s ∷ r) (suc b) sorted =
    elim (Bool-cases (free_at_index (s ∷ r) b == free_at_index (s ∷ r) (suc b))) [
      | inl same ↦
          rw (same, erase_at)
            (record {
              sorted = erase-Ascends s.time b r sorted;
              begun = λ t begun. begun;
              back = λ t begun. begun;
            })
      | inr differ ↦
          rw differ (record { sorted = sorted; begun = λ t begun. begun; back = λ t begun. begun })
    ]

pub StartsBy-later : (a b : ℕ) (l : Timeline) → a ≤ b → StartsBy a l → StartsBy b l
StartsBy-later a b [] le begun = begun
StartsBy-later a b (s ∷ r) le begun = omega arith

module _ (l : Timeline) (start nodes duration : ℕ) (sorted : IsSorted l) (begun : StartsBy start l)
    (pos : 0 < duration) where
  one : Splits l start (split_at l start).0 (split_at l start).1
  one = split_at-Splits l start sorted begun

  abbrev finish : ℕ
  finish = start + duration

  two :
      Splits
        (split_at l start).0
        finish
        (split_at (split_at l start).0 finish).0
        (split_at (split_at l start).0 finish).1
  two =
      split_at-Splits (split_at l start).0 finish one.sorted
        (StartsBy-later start finish _ (omega arith) (one.begun start begun))

  -- The timeline with both boundaries and the nodes subtracted, before it is coalesced.
  abbrev taken : Timeline
  taken =
      let last = (split_at (split_at l start).0 finish).1 in
      subtract_range (split_at l start).1 (last - (split_at l start).1) nodes
        (split_at (split_at l start).0 finish).0

  taken-Keeps : Keeps l taken
  taken-Keeps =
      let same =
        subtract_range-SameTimes (split_at l start).1
          ((split_at (split_at l start).0 finish).1 - (split_at l start).1) nodes
          (split_at (split_at l start).0 finish).0 in
      record {
        sorted = SameTimes-IsSorted _ _ same two.sorted;
        begun = λ t b. SameTimes-StartsBy t _ _ same (two.begun t (one.begun t b));
        back = λ t b. one.back t (two.back t (SameTimes-StartsBy_back t _ _ same b));
      }

  taken_view :
      (t : ℕ)
      → StartsBy t l
      → free_at taken t
        ≡ (if leb start t && ltb t finish then sub_nodes (free_at l t) nodes else free_at l t)
  taken_view t begun_t =
      let kept = two.kept (split_at l start).1 start one.boundary (omega arith) in
      rw (← one.view t, ← two.view t)
        (subtract_view (split_at l start).1 (split_at (split_at l start).0 finish).1 nodes start
          finish t (split_at (split_at l start).0 finish).0 (omega (arith, kept.1)) kept.0
          two.boundary (omega arith) two.sorted (two.begun t (one.begun t begun_t)))

  -- A reservation subtracts its nodes at every time of [start, start + duration), and leaves the
  -- free nodes at every other time.
  pub free_at-reserve :
      (t : ℕ)
      → StartsBy t l
      → free_at (reserve l start nodes duration) t ≡ (
          if leb start t && ltb t (start + duration)
          then sub_nodes (free_at l t) nodes
          else free_at l t)
  unfolding reserve
  free_at-reserve t begun_t =
      rw
        (
          ==-zero duration pos,
          coalesce_view (coalesce taken (split_at l start).1).0 _ t
              (coalesce-Keeps taken (split_at l start).1 taken-Keeps.sorted).sorted,
          coalesce_view taken (split_at l start).1 t taken-Keeps.sorted,
        )
        (taken_view t begun_t)

  reserve_pos-Keeps : Keeps l (reserve l start nodes duration)
  unfolding reserve
  reserve_pos-Keeps =
      let merged = coalesce-Keeps taken (split_at l start).1 taken-Keeps.sorted in
      rw (==-zero duration pos) (record {
        sorted = (coalesce-Keeps _ _ merged.sorted).sorted;
        begun = λ t b.
            (coalesce-Keeps _ _ merged.sorted).begun t (merged.begun t (taken-Keeps.begun t b));
        back =
            λ t b. taken-Keeps.back t (merged.back t ((coalesce-Keeps _ _ merged.sorted).back t b));
      })

-- A reservation keeps the timeline sorted and begun, whatever its duration.
pub reserve-Keeps :
    (l : Timeline) (start nodes duration : ℕ)
    → IsSorted l
    → StartsBy start l
    → Keeps l (reserve l start nodes duration)
unfolding reserve
reserve-Keeps l start nodes zero sorted begun = record {
  sorted = sorted;
  begun = λ t b. b;
  back = λ t b. b;
}
reserve-Keeps l start nodes (suc d) sorted begun =
    reserve_pos-Keeps l start nodes (suc d) sorted begun (omega arith)

pub reserve_zero :
    (plan : Timeline) (start nodes duration : ℕ)
    → (duration == 0) ≡ true
    → reserve plan start nodes duration ≡ plan
unfolding reserve
reserve_zero plan start nodes duration z = rw z
