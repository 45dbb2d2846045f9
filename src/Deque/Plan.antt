-- ===== src/Deque/Plan.antt =====
-- Plans that the deque-backed schedulers extend: what a planned job holds, and what a reservation
-- takes from the plan.
use dr_evt.Base.{
  some, ℕ, zero, suc, ◌+◌, ◌≤◌, ◌≡◌, true, ◌&&◌, List, [], ◌∷◌, arith, leb, ltb, ◌==◌,
  if◌then◌else◌, Bool-cases, inl, inr, subst,
}
use dr_evt.Timeline.{Timeline}
use dr_evt.Timeline
use dr_evt.Timeline.Free.{free_at, IsSorted, StartsBy}
use dr_evt.Timeline.Spec.{Fits}
use dr_evt.Timeline.Fit.{
  can_fit-iff-Fits, IsFirstPoint, earliest_fit-IsFirstPoint, earliest_fit-IsEarliest,
}
use dr_evt.Timeline.Spec.{IsEarliest}
use dr_evt.Timeline.Reserve.{reserve_zero, reserve-Keeps}
use dr_evt.Timeline.Safe.{IsUnsigned, free_at-reserve_exact, reserve-IsUnsigned}
use dr_evt.Scheduler.{SchedulerBase, release_estimate}
use dr_evt.Deque.{JobEntry}

-- The nodes that a job holds at `t` by its estimate, if it runs from `start`.
abbrev pub holds : SchedulerBase → ℕ → ℕ → JobEntry → ℕ
holds b t start j =
    if leb start t && ltb t (start + release_estimate b start j.run_time_estimate)
    then j.nodes_requested
    else 0

unfoldable pub usage : SchedulerBase → ℕ → ℕ → List JobEntry → ℕ
usage b t start [] = 0
usage b t start (j ∷ q) = holds b t start j + usage b t start q

-- A plan on which searches and reservations from `now` on are defined.
pub record IsPlan (now : ℕ) (plan : Timeline) : Type 0 where
  pub sorted : IsSorted plan
  pub begun : (t : ℕ) → now ≤ t → StartsBy t plan
  pub small : IsUnsigned plan

pub reserve-IsPlan :
    (now start nodes duration : ℕ) (plan : Timeline)
    → now ≤ start
    → IsPlan now plan
    → IsPlan now (Timeline.reserve plan start nodes duration)
reserve-IsPlan now start nodes duration plan le p =
    let keeps = reserve-Keeps plan start nodes duration p.sorted (p.begun start le) in
    record {
      sorted = keeps.sorted;
      begun = λ t from. keeps.begun t (p.begun t from);
      small = reserve-IsUnsigned plan start nodes duration p.sorted (p.begun start le) p.small;
    }

-- Where the interval fits, or is empty, a reservation takes its nodes from the interval.
pub reserve-holds :
    (b : SchedulerBase) (now start t : ℕ) (j : JobEntry) (plan : Timeline)
    → now ≤ start
    → now ≤ t
    → IsPlan now plan
    → Fits plan j.nodes_requested (release_estimate b start j.run_time_estimate) start
    → free_at
          (Timeline.reserve plan start j.nodes_requested
            (release_estimate b start j.run_time_estimate))
          t
        + holds b t start j
      ≡ free_at plan t
reserve-holds b now start t j plan le from p fits =
    elim (Bool-cases (release_estimate b start j.run_time_estimate == 0)) [
      | inl empty ↦ rw (reserve_zero plan start j.nodes_requested _ empty) (ground arith)
      | inr pos ↦
          free_at-reserve_exact plan start j.nodes_requested
            (release_estimate b start j.run_time_estimate) p.sorted (p.begun start le)
            (ground arith) p.small fits t (p.begun t from)
    ]

pub can_fit→Fits :
    (l : Timeline) (start nodes duration : ℕ)
    → IsSorted l
    → StartsBy start l
    → Timeline.can_fit l start nodes duration ≡ true
    → Fits l nodes duration start
can_fit→Fits l start nodes zero sorted begun h = λ t at within. absurd (omega arith)
can_fit→Fits l start nodes (suc d) sorted begun h =
    (can_fit-iff-Fits l start nodes (suc d) sorted begun (omega arith)).0 h

-- What any search on a plan finds: a start from `now` on whose interval fits.
pub found-Fits :
    (plan : Timeline) (now nodes duration y : ℕ)
    → IsPlan now plan
    → Timeline.earliest_fit plan nodes duration now ≡ some y
    → (now ≤ y) × Fits plan nodes duration y
found-Fits plan now nodes zero y p eq =
    let first =
      subst (IsFirstPoint plan nodes now) eq
        (earliest_fit-IsFirstPoint plan nodes now p.sorted (p.begun now (omega arith))) in
    (first.0, λ t at within. absurd (omega arith))
found-Fits plan now nodes (suc d) y p eq =
    let first = subst (IsEarliest plan nodes (suc d) now) eq (
      earliest_fit-IsEarliest plan nodes (suc d) now p.sorted (p.begun now (omega arith))
        (omega arith)) in
    (first.0, first.1)
