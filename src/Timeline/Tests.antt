-- ===== src/Timeline/Tests.antt =====
-- The timeline operations on small plans.
use dr_evt.Base.{ℕ, ◌+◌, ◌≡◌, ◌↔◌, refl, true, none, some, [], ◌∷◌, arith}
use dr_evt.Timeline.{
  Segment, Timeline, sub_nodes, earliest_fit, can_fit, split_at, subtract_range, coalesce, reserve,
}
use dr_evt.Timeline.Free.{free_at}
use dr_evt.Timeline.Spec.{Fits, IsEarliest}
use dr_evt.Timeline.Fit.{
  IsFirstPoint, earliest_fit-IsEarliest, earliest_fit-IsFirstPoint, can_fit-iff-Fits,
}
use dr_evt.Timeline.Reserve.{free_at-reserve, Keeps, reserve-Keeps}
use dr_evt.Timeline.Safe.{IsUnsigned, free_at-reserve_exact, free_at-reserve_wraps}

abbrev segment : ℕ → ℕ → Segment
segment time free = record { time = time; free = free }

-- Four nodes are free from 0, six from 10, two from 20.
abbrev plan : Timeline
plan = segment 0 4 ∷ segment 10 6 ∷ segment 20 2 ∷ []

fit_later : earliest_fit plan 5 8 3 ≡ some 10
unfolding earliest_fit
fit_later = refl

fit_never : earliest_fit plan 5 11 3 ≡ none
unfolding earliest_fit
fit_never = refl

point_later : earliest_fit plan 5 0 3 ≡ some 10
unfolding earliest_fit
point_later = refl

-- A reservation splits both ends; a boundary between equal capacities goes away.
reserve_splits :
    reserve plan 5 2 10
    ≡ segment 0 4 ∷ segment 5 2 ∷ segment 10 4 ∷ segment 15 6 ∷ segment 20 2 ∷ []
unfolding reserve split_at subtract_range coalesce sub_nodes
reserve_splits = refl

reserve_merges : reserve plan 10 2 10 ≡ segment 0 4 ∷ segment 20 2 ∷ []
unfolding reserve split_at subtract_range coalesce sub_nodes
reserve_merges = refl

plan_small : IsUnsigned plan
unfolding free_at
plan_small t begun = ground arith

plan-Fits : Fits plan 4 15 0
unfolding free_at
plan-Fits t at within = ground arith

earliest_fit-IsEarliest_example : IsEarliest plan 5 8 3 (some 10)
unfolding earliest_fit
earliest_fit-IsEarliest_example =
    earliest_fit-IsEarliest plan 5 8 3 (omega arith) (omega arith) (omega arith)

earliest_fit-IsFirstPoint_example : IsFirstPoint plan 5 3 (some 10)
unfolding earliest_fit
earliest_fit-IsFirstPoint_example = earliest_fit-IsFirstPoint plan 5 3 (omega arith) (omega arith)

can_fit-iff-Fits_example : (can_fit plan 0 4 15 ≡ true) ↔ Fits plan 4 15 0
can_fit-iff-Fits_example = can_fit-iff-Fits plan 0 4 15 (omega arith) (omega arith) (omega arith)

free_at-reserve_example : free_at (reserve plan 5 2 10) 12 ≡ 4
unfolding free_at sub_nodes
free_at-reserve_example =
    free_at-reserve plan 5 2 10 (omega arith) (omega arith) (omega arith) 12 (omega arith)

reserve-Keeps_example : Keeps plan (reserve plan 5 2 10)
reserve-Keeps_example = reserve-Keeps plan 5 2 10 (omega arith) (omega arith)

free_at-reserve_exact_example : free_at (reserve plan 0 4 15) 12 + 4 ≡ 6
unfolding free_at
free_at-reserve_exact_example =
    free_at-reserve_exact plan 0 4 15 (omega arith) (omega arith) (omega arith) plan_small plan-Fits
      12 (omega arith)

free_at-reserve_wraps_example : free_at (reserve plan 10 6 15) 22 + 6 ≡ 2 + 4294967296
unfolding free_at
free_at-reserve_wraps_example =
    free_at-reserve_wraps plan 10 6 15 22 (omega arith) (omega arith) (omega arith) (omega arith)
      (omega arith) (omega arith) (omega arith)
