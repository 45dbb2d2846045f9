-- ===== src/SearchCache/Refine.antt =====
-- The cache answers as the bare plan does: what its bounds mean, and that every operation keeps it.
use dr_evt.Base.{
  ℕ, ◌≤◌, ◌<◌, ◌≡◌, refl, Bool, true, false, ◌&&◌, Option, none, some, List, [], ◌∷◌, arith, ltb,
  ◌==◌, All, length, Bool-cases, inl, inr, ltb→lt, ltb→le, ==_iff, subst,
}
use dr_evt.Timeline.{Timeline}
use dr_evt.Timeline
use dr_evt.Timeline.Free.{IsSorted, StartsBy}
use dr_evt.Timeline.Spec.{Fits, Blocked, IsEarliest}
use dr_evt.Timeline.Reserve.{StartsBy-later}
use dr_evt.Timeline.Safe.{span, earliest_fit_lem, IsEarliest-unique, IsUnsigned}
use dr_evt.SearchCache.{
  Bound, Fit, SearchCache, init, max_cached_shapes, find, update, store, fit_of, search, from_bound,
  recall, earliest_fit,
}

-- No interval that begins between the origin and the bound fits.
abbrev pub NoneBefore : Timeline → ℕ → ℕ → ℕ → Option ℕ → Type 0
NoneBefore plan nodes duration origin none = (x : ℕ) → origin ≤ x → Blocked plan nodes duration x
NoneBefore plan nodes duration origin (some y) =
    (origin ≤ y) × ((x : ℕ) → origin ≤ x → x < y → Blocked plan nodes duration x)

abbrev pub IsJustified : Timeline → Bound → Type 0
IsJustified plan b =
    StartsBy b.origin plan × NoneBefore plan b.nodes (span b.duration) b.origin b.earliest

abbrev pub FitHolds : Timeline → Option Fit → Type 0
FitHolds plan none = Unit {0}
FitHolds plan (some f) = Fits plan f.nodes (span f.duration) f.start

pub record Inv (c : SearchCache) : Type 0 where
  pub sorted : IsSorted c.plan
  pub small : IsUnsigned c.plan
  pub justified : All (IsJustified c.plan) c.bounds
  pub fit : FitHolds c.plan c.last_fit

pub init-Inv : (plan : Timeline) → IsSorted plan → IsUnsigned plan → Inv (init plan)
unfolding init
init-Inv plan sorted small = record { sorted = sorted; small = small; justified = tt; fit = tt }

find-IsJustified :
    (plan : Timeline) (nodes duration : ℕ) (b : Bound) (bs : List Bound)
    → All (IsJustified plan) bs
    → find nodes duration bs ≡ some b
    → IsJustified plan b × (b.nodes ≡ nodes) × (b.duration ≡ duration)
unfolding find
find-IsJustified plan nodes duration b [] all e = cc
find-IsJustified plan nodes duration b (c ∷ bs) all e =
    elim (Bool-cases (c.nodes == nodes && c.duration == duration)) [
      | inl hit ↦
          let same : c ≡ b = ground arith in
          subst (λ z. IsJustified plan z × (z.nodes ≡ nodes) × (z.duration ≡ duration)) same
            (all.0, ground arith, ground arith)
      | inr miss ↦ find-IsJustified plan nodes duration b bs all.1 (rw miss at e)
    ]

update-IsJustified :
    (plan : Timeline) (new : Bound) (bs : List Bound)
    → IsJustified plan new
    → All (IsJustified plan) bs
    → All (IsJustified plan) (update new bs)
unfolding update
update-IsJustified plan new [] j all = tt
update-IsJustified plan new (b ∷ bs) j all =
    elim (Bool-cases (b.nodes == new.nodes && b.duration == new.duration)) [
      | inl hit ↦ rw hit (j, all.1)
      | inr miss ↦ rw miss (all.0, update-IsJustified plan new bs j all.1)
    ]

store-IsJustified :
    (plan : Timeline) (known : Bool) (new : Bound) (bs : List Bound)
    → IsJustified plan new
    → All (IsJustified plan) bs
    → All (IsJustified plan) (store known new bs)
unfolding store
store-IsJustified plan true new bs j all = update-IsJustified plan new bs j all
store-IsJustified plan false new bs j all = elim (Bool-cases (ltb (length bs) max_cached_shapes)) [
  | inl room ↦ rw room (j, all)
  | inr full ↦ rw full all
]

NoneBefore-of_IsEarliest :
    (plan : Timeline) (nodes duration start : ℕ) (o : Option ℕ)
    → IsEarliest plan nodes duration start o
    → NoneBefore plan nodes duration start o
NoneBefore-of_IsEarliest plan nodes duration start none e = e
NoneBefore-of_IsEarliest plan nodes duration start (some y) (from, fits, first) = (from, first)

fit_of-FitHolds :
    (plan : Timeline) (nodes duration start : ℕ) (o : Option ℕ)
    → IsEarliest plan nodes (span duration) start o
    → FitHolds plan (fit_of nodes duration o)
unfolding fit_of
fit_of-FitHolds plan nodes duration start none e = tt
fit_of-FitHolds plan nodes duration start (some y) e = e.1

-- A search from a bound answers the search from the origin.
IsEarliest-from_bound :
    (plan : Timeline) (nodes duration origin y : ℕ) (o : Option ℕ)
    → NoneBefore plan nodes duration origin (some y)
    → IsEarliest plan nodes duration y o
    → IsEarliest plan nodes duration origin o
IsEarliest-from_bound plan nodes duration origin y none (le, early) e = λ x from.
    elim (Bool-cases (ltb x y)) [
      | inl lt ↦ early x from (ltb→lt _ _ lt)
      | inr ge ↦ e x (ltb→le _ _ ge)
    ]
IsEarliest-from_bound plan nodes duration origin y (some z) (le, early) (from, fits, first) = (
  omega arith,
  fits,
  λ x from_x before. elim (Bool-cases (ltb x y)) [
    | inl lt ↦ early x from_x (ltb→lt _ _ lt)
    | inr ge ↦ first x (ltb→le _ _ ge) before
  ],
)

-- The answer is that of the plan, the plan stays, and the invariant holds.
pub record Answers (c : SearchCache) (nodes duration start : ℕ) (r : SearchCache × Option ℕ)
    : Type 0 where
  pub answer : r.1 ≡ Timeline.earliest_fit c.plan nodes duration start
  pub same_plan : r.0.plan ≡ c.plan
  pub inv : Inv r.0

module _ (c : SearchCache) (nodes duration start : ℕ) (v : Inv c)
    (begun : StartsBy start c.plan) where
  search-Answers :
      (known : Bool) (from : ℕ)
      → StartsBy from c.plan
      → ((o : Option ℕ)
          → IsEarliest c.plan nodes (span duration) from o
          → IsEarliest c.plan nodes (span duration) start o)
      → Answers c nodes duration start (search c nodes duration start known from)
  unfolding search
  search-Answers known from begun_from lift =
      let found = lift _ (earliest_fit_lem c.plan nodes duration from v.sorted begun_from) in
      record {
        answer =
            IsEarliest-unique c.plan nodes (span duration) start _ _ found
              (earliest_fit_lem c.plan nodes duration start v.sorted begun);
        same_plan = refl;
        inv = record {
          sorted = v.sorted;
          small = v.small;
          justified =
              store-IsJustified c.plan known _ c.bounds
                (begun, NoneBefore-of_IsEarliest c.plan nodes (span duration) start _ found)
                v.justified;
          fit = fit_of-FitHolds c.plan nodes duration start _ found;
        };
      }

  from_bound-Answers :
      (o : Option ℕ)
      → NoneBefore c.plan nodes (span duration) start o
      → Answers c nodes duration start (from_bound c nodes duration start o)
  unfolding from_bound
  from_bound-Answers none none_fits = record {
    answer =
        IsEarliest-unique c.plan nodes (span duration) start none _ none_fits
          (earliest_fit_lem c.plan nodes duration start v.sorted begun);
    same_plan = refl;
    inv = record { sorted = v.sorted; small = v.small; justified = v.justified; fit = tt };
  }
  from_bound-Answers (some y) bound =
      search-Answers true y (StartsBy-later start y c.plan bound.0 begun)
        (λ o. IsEarliest-from_bound c.plan nodes (span duration) start y o bound)

  recall-Answers :
      (o : Option Bound)
      → find nodes duration c.bounds ≡ o
      → Answers c nodes duration start (recall c nodes duration start o)
  unfolding recall
  recall-Answers none e = search-Answers false start begun (λ o h. h)
  recall-Answers (some b) e = elim (Bool-cases (b.origin == start)) [
    | inl same ↦
        let (justified, same_nodes, same_duration) =
          find-IsJustified c.plan nodes duration b c.bounds v.justified e in
        rw same (
          from_bound-Answers b.earliest (
            subst (λ z. NoneBefore c.plan nodes (span duration) z b.earliest) ((==_iff _ _).0 same)
              (subst (λ z. NoneBefore c.plan nodes (span z) b.origin b.earliest) same_duration
                (subst (λ z. NoneBefore c.plan z (span b.duration) b.origin b.earliest) same_nodes
                  justified.1))))
    | inr other ↦ rw other (search-Answers true start begun (λ o h. h))
  ]

  -- A cached search answers as a search of the plan from its start, and keeps the plan.
  pub earliest_fit-Answers : Answers c nodes duration start (earliest_fit c nodes duration start)
  unfolding earliest_fit
  earliest_fit-Answers = recall-Answers (find nodes duration c.bounds) refl
