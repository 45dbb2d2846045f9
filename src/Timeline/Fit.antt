-- ===== src/Timeline/Fit.antt =====
-- `earliest_fit` and `can_fit` meet their contract on every sorted timeline that has begun.
mod Scan
use dr_evt.Base.{
  ℕ, zero, suc, ◌+◌, ◌≤◌, ◌<◌, ◌≡◌, ◌↔◌, refl, sym, List, [], ◌∷◌, Option, none, some, Bool, true,
  false, arith, leb, ltb, ◌==◌, if◌then◌else◌, length, Bool-cases, ==-zero, Option-cases, inl, inr,
  leb→le, leb→lt, ltb→lt, ltb→le, le→leb, lt→leb, subst, ==_iff,
}
use dr_evt.Timeline.{
  Segment, Timeline, seek, scan_fitting, skip_short, point_fit, first_of_segment, resume, retry,
  after_scan, fit_loop, fit_from, earliest_fit, is_at, can_fit,
}
use dr_evt.Timeline.Free.{
  value_from, free_at, Ascends, IsSorted, StartsBy, InForce, Seeks, seek-Seeks, value_from_before,
  Ascends-weaken,
}
use dr_evt.Timeline.Spec.{Fits, Blocked, IsEarliest}
use Scan.{Tail, Skips, skip_short-Skips, Scans, scan_fitting-Scans}

-- A search from `t` on answers a search from `start` on, where the interval meets too few at `t`.
IsEarliest-later :
    (l l' : Timeline) (nodes duration start t : ℕ) (o : Option ℕ)
    → start ≤ t
    → t < start + duration
    → free_at l t < nodes
    → ((x : ℕ) → t ≤ x → free_at l x ≡ free_at l' x)
    → IsEarliest l' nodes duration t o
    → IsEarliest l nodes duration start o
IsEarliest-later l l' nodes duration start t none le lt short view e = λ x from.
    elim (Bool-cases (leb x t)) [
      | inl before ↦ (t, leb→le _ _ before, omega arith, short)
      | inr past ↦
          let (y, at, within, few) = e x (omega (arith, leb→lt _ _ past)) in
          (y, at, within, rw (view y (omega (arith, leb→lt _ _ past))) few)
    ]
IsEarliest-later l l' nodes duration start t (some y) le lt short view (from_t, fits, first) = (
  omega arith,
  λ x at within. rw (view x (omega arith)) (fits x at within),
  λ x from before. elim (Bool-cases (leb x t)) [
    | inl early ↦ (t, leb→le _ _ early, omega arith, short)
    | inr past ↦
        let (z, at, within, few) = first x (omega (arith, leb→lt _ _ past)) before in
        (z, at, within, rw (view z (omega (arith, leb→lt _ _ past))) few)
  ],
)

-- What the rest of the loop does on a suffix that is shorter than `bound`.
abbrev Searches : ℕ → ℕ → ℕ → (ℕ → Timeline → Option ℕ) → Type 0
Searches bound nodes duration again =
    (s : Segment) (r : Timeline)
    → length (s ∷ r) ≤ bound
    → Ascends s.time r
    → IsEarliest (s ∷ r) nodes duration s.time (again s.time (s ∷ r))

module _ (nodes duration bound : ℕ) (again : ℕ → Timeline → Option ℕ) (pos : 0 < duration)
    (searches : Searches bound nodes duration again) where
  resume_lem :
      (t : Segment) (u p : Timeline) (start : ℕ)
      → t.free < nodes
      → InForce start (t ∷ u)
      → length u ≤ bound
      → Skips t.free start nodes u p
      → IsEarliest (t ∷ u) nodes duration start (resume again p)
  unfolding resume free_at
  resume_lem t u [] start few (le, asc) short all_few =
      λ x from. (x, omega arith, omega arith, all_few x)
  resume_lem t u (s ∷ r) start few (le, asc) short (tail, enough, gap) =
      extend (again s.time (s ∷ r)) (searches s r (omega (arith, tail.shorter)) tail.sorted)
    where
      extend :
          (o : Option ℕ)
          → IsEarliest (s ∷ r) nodes duration s.time o
          → IsEarliest (t ∷ u) nodes duration start o
      extend none e = λ x from. elim (Bool-cases (leb s.time x)) [
        | inl past ↦
            let (y, at, within, less) = e x (leb→le _ _ past) in
            (y, at, within, rw (tail.view y (omega (arith, leb→le _ _ past))) less)
        | inr before ↦ (x, omega arith, omega arith, gap x (leb→lt _ _ before))
      ]
      extend (some y) (from_s, fits, first) = (
        omega (arith, tail.after),
        λ x at within. rw (tail.view x (omega arith)) (fits x at within),
        λ x from early. elim (Bool-cases (leb s.time x)) [
          | inl past ↦
              let (z, at, within, less) = first x (leb→le _ _ past) early in
              (z, at, within, rw (tail.view z (omega (arith, leb→le _ _ past))) less)
          | inr before ↦ (x, omega arith, omega arith, gap x (leb→lt _ _ before))
        ],
      )

  -- Behind a segment with too few nodes.
  retry_lem :
      (t : Segment) (u : Timeline) (start : ℕ)
      → t.free < nodes
      → InForce start (t ∷ u)
      → length u ≤ bound
      → IsEarliest (t ∷ u) nodes duration start (retry again nodes u)
  unfolding retry
  retry_lem t u start few (le, asc) short =
      resume_lem t u (skip_short nodes u) start few (le, asc) short
        (skip_short-Skips t.free start nodes u few asc)

  after_scan_lem :
      (s : Segment) (r p : Timeline) (start : ℕ)
      → nodes ≤ s.free
      → InForce start (s ∷ r)
      → length r ≤ bound
      → Scans s.free start nodes (start + duration) r p
      → IsEarliest (s ∷ r) nodes duration start (after_scan again nodes start (start + duration) p)
  unfolding after_scan free_at
  after_scan_lem s r [] start enough (le, asc) short all_fit =
      (omega arith, λ x at within. all_fit x, λ x from before. absurd (omega arith))
  after_scan_lem s r (t ∷ u) start enough (le, asc) short (tail, why, fitting) =
      elim (Bool-cases (leb (start + duration) t.time)) [
        | inl ends ↦ rw ends (
          omega arith,
          λ x at within. fitting x (omega (arith, leb→le _ _ ends)),
          λ x from before. absurd (omega arith),
        )
        | inr meets ↦
            let few : t.free < nodes = omega (arith, why, leb→lt _ _ meets) in
            rw meets (
              IsEarliest-later (s ∷ r) (t ∷ u) nodes duration start t.time (retry again nodes u)
                (omega (arith, tail.after)) (leb→lt _ _ meets)
                (rw
                  (
                    tail.view t.time (omega arith),
                    value_from_before t.free t.time t.time u tail.sorted (omega arith),
                  )
                  few)
                tail.view
                (retry_lem t u t.time few (omega arith, tail.sorted) (omega (arith, tail.shorter))))
      ]

pub fit_loop_lem :
    (fuel nodes duration start : ℕ) (l : Timeline)
    → 0 < duration
    → length l ≤ fuel
    → InForce start l
    → IsEarliest l nodes duration start (fit_loop fuel nodes duration start l)
unfolding fit_loop
fit_loop_lem fuel nodes duration start [] pos enough f = elim f [ ]
fit_loop_lem zero nodes duration start (s ∷ r) pos enough f = absurd (omega arith)
fit_loop_lem (suc fuel) nodes duration start (s ∷ r) pos enough f =
    let searches : Searches fuel nodes duration (fit_loop fuel nodes duration) = λ s r short asc.
      fit_loop_lem fuel nodes duration s.time (s ∷ r) pos short (omega arith, asc) in
    elim (Bool-cases (leb nodes s.free)) [
      | inl fits ↦ rw fits (
          after_scan_lem nodes duration fuel (fit_loop fuel nodes duration) pos searches s r _ start
            (leb→le _ _ fits) f (omega arith)
            (scan_fitting-Scans s.free start nodes (start + duration) r (leb→le _ _ fits) f.1))
      | inr few ↦ rw few (
          retry_lem nodes duration fuel (fit_loop fuel nodes duration) pos searches s r start
            (leb→lt _ _ few) f (omega arith))
    ]

-- The free nodes at the very start of the interval decide a point query.
abbrev pub IsFirstPoint : Timeline → ℕ → ℕ → Option ℕ → Type 0
IsFirstPoint l nodes start none = (x : ℕ) → start ≤ x → free_at l x < nodes
IsFirstPoint l nodes start (some y) =
    (start ≤ y) × (nodes ≤ free_at l y) × ((x : ℕ) → start ≤ x → x < y → free_at l x < nodes)

pub point_fit_lem :
    (nodes start : ℕ) (l : Timeline)
    → InForce start l
    → IsFirstPoint l nodes start (point_fit nodes start l)
unfolding point_fit skip_short free_at
point_fit_lem nodes start [] f = elim f [ ]
point_fit_lem nodes start (s ∷ r) (le, asc) = elim (Bool-cases (ltb s.free nodes)) [
  | inl few ↦
      rw few
        (later (skip_short nodes r) (skip_short-Skips s.free start nodes r (ltb→lt _ _ few) asc))
  | inr enough ↦
      rw (enough, first_of_segment, le→leb _ _ le)
        (
          omega arith,
          rw (value_from_before s.free start start r asc (omega arith)) (ltb→le _ _ enough),
          λ x from before. absurd (omega arith),
        )
]
  where
    later :
        (p : Timeline)
        → Skips s.free start nodes r p
        → IsFirstPoint (s ∷ r) nodes start (first_of_segment start p)
    later [] all_few = λ x from. all_few x
    later (t ∷ u) (tail, enough, gap) =
        rw (lt→leb _ _ tail.after, first_of_segment)
          (
            omega (arith, tail.after),
            rw
                (
                  tail.view t.time (omega arith),
                  value_from_before t.free t.time t.time u tail.sorted (omega arith),
                )
                enough,
            λ x from before. gap x before,
          )

-- A search reads the view from its start on only.
IsEarliest-view :
    (l l' : Timeline) (nodes duration start : ℕ) (o : Option ℕ)
    → ((t : ℕ) → start ≤ t → free_at l' t ≡ free_at l t)
    → IsEarliest l' nodes duration start o
    → IsEarliest l nodes duration start o
IsEarliest-view l l' nodes duration start none view e = λ x from.
    let (y, at, within, few) = e x from in (y, at, within, rw (← view y (omega arith)) few)
IsEarliest-view l l' nodes duration start (some y) view (from_start, fits, first) = (
  from_start,
  λ x at within. rw (← view x (omega arith)) (fits x at within),
  λ x from before.
      let (z, at, within, few) = first x from before in
      (z, at, within, rw (← view z (omega arith)) few),
)

IsFirstPoint-view :
    (l l' : Timeline) (nodes start : ℕ) (o : Option ℕ)
    → ((t : ℕ) → start ≤ t → free_at l' t ≡ free_at l t)
    → IsFirstPoint l' nodes start o
    → IsFirstPoint l nodes start o
IsFirstPoint-view l l' nodes start none view e = λ x from. rw (← view x from) (e x from)
IsFirstPoint-view l l' nodes start (some y) view (from_start, enough, first) = (
  from_start,
  rw (← view y from_start) enough,
  λ x from before. rw (← view x from) (first x from before),
)

-- On a sorted timeline that has begun by `start`, a search for a positive duration returns the
-- earliest time from `start` on at which the whole interval has enough free nodes, and none
-- exactly if every interval from `start` on meets a time with too few.
pub earliest_fit-IsEarliest :
    (l : Timeline) (nodes duration start : ℕ)
    → IsSorted l
    → StartsBy start l
    → 0 < duration
    → IsEarliest l nodes duration start (earliest_fit l nodes duration start)
unfolding earliest_fit fit_from
earliest_fit-IsEarliest [] nodes duration start sorted begun pos = elim begun [ ]
earliest_fit-IsEarliest (s ∷ r) nodes duration start sorted begun pos =
    let sought = seek-Seeks start (s ∷ r) sorted begun in
    rw (==-zero duration pos) (
      IsEarliest-view (s ∷ r) (seek start (s ∷ r)) nodes duration start _ sought.view (
        fit_loop_lem _ nodes duration start (seek start (s ∷ r)) pos (omega arith) sought.in_force))

-- A point query returns the first time from `start` on at which enough nodes are free, and none
-- exactly if there is no such time.
pub earliest_fit-IsFirstPoint :
    (l : Timeline) (nodes start : ℕ)
    → IsSorted l
    → StartsBy start l
    → IsFirstPoint l nodes start (earliest_fit l nodes 0 start)
unfolding earliest_fit fit_from
earliest_fit-IsFirstPoint [] nodes start sorted begun = elim begun [ ]
earliest_fit-IsFirstPoint (s ∷ r) nodes start sorted begun =
    let sought = seek-Seeks start (s ∷ r) sorted begun in
    IsFirstPoint-view (s ∷ r) (seek start (s ∷ r)) nodes start _ sought.view
      (point_fit_lem nodes start (seek start (s ∷ r)) sought.in_force)

can_fit_of_result :
    (l : Timeline) (nodes duration start : ℕ) (o : Option ℕ)
    → 0 < duration
    → IsEarliest l nodes duration start o
    → (is_at start o ≡ true) ↔ Fits l nodes duration start
unfolding is_at
can_fit_of_result l nodes duration start none pos e = (
  λ h. cc,
  λ fits.
      let (t, at, within, few) = e start (omega arith) in absurd (omega (arith, fits t at within)),
)
can_fit_of_result l nodes duration start (some y) pos (from, fits, first) = (
  λ h. subst (Fits l nodes duration) ((==_iff _ _).0 h) fits,
  λ fit. elim (Bool-cases (ltb start y)) [
    | inl late ↦
        let (t, at, within, few) = first start (omega arith) (ltb→lt _ _ late) in
        absurd (omega (arith, fit t at within))
    | inr same ↦ (==_iff _ _).1 (omega (arith, ltb→le _ _ same))
  ],
)

-- can_fit holds exactly if enough nodes are free throughout the interval.
pub can_fit-iff-Fits :
    (l : Timeline) (start nodes duration : ℕ)
    → IsSorted l
    → StartsBy start l
    → 0 < duration
    → (can_fit l start nodes duration ≡ true) ↔ Fits l nodes duration start
unfolding can_fit
can_fit-iff-Fits l start nodes duration sorted begun pos =
    can_fit_of_result l nodes duration start _ pos
      (earliest_fit-IsEarliest l nodes duration start sorted begun pos)
