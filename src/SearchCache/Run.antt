-- ===== src/SearchCache/Run.antt =====
-- `reserve` keeps the bounds justified, so any sequence of searches and reservations on the cache
-- gives the answers of the bare plan.
use dr_evt.Base.{
  ℕ, zero, suc, ◌≤◌, ◌<◌, ◌≡◌, refl, true, Option, none, some, List, [], ◌∷◌, arith, ◌==◌,
  if◌then◌else◌, All, Bool-cases, inl, inr, ap, ◌∙◌, All-mono, ap₂, sym,
}
use dr_evt.Timeline.{Timeline}
use dr_evt.Timeline
use dr_evt.Timeline.Free.{free_at, IsSorted, StartsBy}
use dr_evt.Timeline.Spec.{Fits}
use dr_evt.Timeline.Reserve.{reserve_zero, Keeps, reserve-Keeps, StartsBy-later}
use dr_evt.Timeline.Safe.{span, IsUnsigned, free_at-reserve_exact, reserve-IsUnsigned}
use dr_evt.SearchCache.{Bound, Fit, SearchCache, init, earliest_fit, covered, reserve}
use dr_evt.SearchCache.Refine.{
  NoneBefore, IsJustified, FitHolds, Inv, init-Inv, earliest_fit-Answers,
}

-- Less capacity cannot move an interval earlier.
module _ (plan plan' : Timeline) (keeps : Keeps plan plan')
    (less : (t : ℕ) → StartsBy t plan → free_at plan' t ≤ free_at plan t) where
  NoneBefore-less :
      (nodes duration origin : ℕ) (o : Option ℕ)
      → StartsBy origin plan
      → NoneBefore plan nodes duration origin o
      → NoneBefore plan' nodes duration origin o
  NoneBefore-less nodes duration origin none begun h = λ x from.
      let (t, at, within, few) = h x from in
      (t, at, within, omega (arith, less t (StartsBy-later origin t plan (omega arith) begun)))
  NoneBefore-less nodes duration origin (some y) begun (le, h) = (
    le,
    λ x from before.
        let (t, at, within, few) = h x from before in
        (t, at, within, omega (arith, less t (StartsBy-later origin t plan (omega arith) begun))),
  )

  IsJustified-less : (bs : List Bound) → All (IsJustified plan) bs → All (IsJustified plan') bs
  IsJustified-less [] all = tt
  IsJustified-less (b ∷ bs) ((begun, bound), rest) = (
    (
      keeps.begun b.origin begun,
      NoneBefore-less b.nodes (span b.duration) b.origin b.earliest begun bound,
    ),
    IsJustified-less bs rest,
  )

-- The last fit covers the reservation, so its interval fits.
covered-Fits :
    (plan : Timeline) (o : Option Fit) (start nodes duration : ℕ)
    → 0 < duration
    → FitHolds plan o
    → covered o start nodes duration ≡ true
    → Fits plan nodes duration start
unfolding covered
covered-Fits plan none start nodes duration pos holds e = cc
covered-Fits plan (some f) start nodes duration pos holds e = λ t at within.
    let (n, s, d) = parts in
    omega (arith, holds t (omega arith) (omega (arith, span_pos f.duration (omega arith))))
  where
    parts : (f.nodes ≡ nodes) × (f.start ≡ start) × (duration ≤ f.duration)
    parts = ground arith

    span_pos : (d : ℕ) → 0 < d → span d ≡ d
    span_pos zero h = absurd (omega arith)
    span_pos (suc d) h = refl

module _ (c : SearchCache) (start nodes duration : ℕ) (v : Inv c)
    (begun : StartsBy start c.plan) where
  reserve-IsJustified :
      0 < duration
      → All
          (IsJustified (Timeline.reserve c.plan start nodes duration))
          (if covered c.last_fit start nodes duration then c.bounds else [])
  reserve-IsJustified pos = elim (Bool-cases (covered c.last_fit start nodes duration)) [
    | inl yes_covered ↦
        let fits = covered-Fits c.plan c.last_fit start nodes duration pos v.fit yes_covered in
        rw yes_covered (
          IsJustified-less c.plan _ (reserve-Keeps c.plan start nodes duration v.sorted begun)
            (λ t b. omega (
              arith,
              free_at-reserve_exact c.plan start nodes duration v.sorted begun pos v.small fits t b,
            ))
            c.bounds v.justified)
    | inr not_covered ↦ rw not_covered tt
  ]

  -- A cached reservation reserves on the plan, and keeps every remaining bound justified.
  pub reserve-Inv :
      Inv (reserve c start nodes duration)
      × ((reserve c start nodes duration).plan ≡ Timeline.reserve c.plan start nodes duration)
  unfolding reserve
  reserve-Inv = elim (Bool-cases (duration == 0)) [
    | inl z ↦ rw z (v, sym (reserve_zero c.plan start nodes duration z))
    | inr pos ↦ rw pos (
      record {
        sorted = (reserve-Keeps c.plan start nodes duration v.sorted begun).sorted;
        small = reserve-IsUnsigned c.plan start nodes duration v.sorted begun v.small;
        justified = reserve-IsJustified (ground arith);
        fit = tt;
      },
      refl,
    )
  ]

-- What a scheduling pass does with its plan.
pub data Request : Type 0 where
  ask : ℕ → ℕ → ℕ → Request
  book : ℕ → ℕ → ℕ → Request

abbrev pub start_of : Request → ℕ
start_of (ask nodes duration start) = start
start_of (book start nodes duration) = start

-- The answers of the cache, and of the bare plan.
unfoldable pub answers_cached : SearchCache → List Request → List (Option ℕ)
answers_cached c [] = []
answers_cached c (ask nodes duration start ∷ rs) =
    let (c', fit) = earliest_fit c nodes duration start in fit ∷ answers_cached c' rs
answers_cached c (book start nodes duration ∷ rs) =
    answers_cached (reserve c start nodes duration) rs

unfoldable pub answers_plain : Timeline → List Request → List (Option ℕ)
answers_plain plan [] = []
answers_plain plan (ask nodes duration start ∷ rs) =
    Timeline.earliest_fit plan nodes duration start ∷ answers_plain plan rs
answers_plain plan (book start nodes duration ∷ rs) =
    answers_plain (Timeline.reserve plan start nodes duration) rs

answers_agree :
    (c : SearchCache) (plan : Timeline) (rs : List Request)
    → c.plan ≡ plan
    → Inv c
    → All (λ r. StartsBy (start_of r) plan) rs
    → answers_cached c rs ≡ answers_plain plan rs
unfolding answers_cached answers_plain
answers_agree c plan [] e v begun = refl
answers_agree c plan (ask nodes duration start ∷ rs) e v (b, begun) =
    let found = earliest_fit-Answers c nodes duration start v (rw e b) in
    let ih =
      answers_agree (earliest_fit c nodes duration start).0 plan rs (found.same_plan ∙ e) found.inv
        begun in
    ap₂ ◌∷◌ (found.answer ∙ ap (λ p. Timeline.earliest_fit p nodes duration start) e) ih
answers_agree c plan (book start nodes duration ∷ rs) e v (b, begun) =
    let kept = reserve-Inv c start nodes duration v (rw e b) in
    answers_agree (reserve c start nodes duration) (Timeline.reserve plan start nodes duration) rs
      (kept.1 ∙ ap (λ p. Timeline.reserve p start nodes duration) e) kept.0
      (All-mono rs
        (λ r. (reserve-Keeps plan start nodes duration (rw e at v.sorted) b).begun (start_of r))
        begun)

-- On a sorted plan of unsigned capacities, any sequence of searches and reservations that begin
-- on the plan gets the same answers from the cache and from the plan itself.
pub answers_cached-eq-plain :
    (plan : Timeline) (rs : List Request)
    → IsSorted plan
    → IsUnsigned plan
    → All (λ r. StartsBy (start_of r) plan) rs
    → answers_cached (init plan) rs ≡ answers_plain plan rs
unfolding init
answers_cached-eq-plain plan rs sorted small begun =
    answers_agree (init plan) plan rs refl (init-Inv plan sorted small) begun
