-- ===== src/Timeline/Safe.antt =====
-- Reservations that a search has found: the unsigned subtraction does not wrap, and no capacity
-- appears. The contract of `earliest_fit` in one form for every duration.
use dr_evt.Base.{
  ℕ, zero, suc, ◌+◌, ◌^◌, ◌≤◌, ◌<◌, ◌≡◌, refl, Option, none, some, arith, leb, ltb, ◌&&◌,
  if◌then◌else◌, Bool-cases, inl, inr, ltb→lt, ltb→le, ap, subst,
}
use dr_evt.Timeline.{Timeline, sub_nodes, earliest_fit, reserve}
use dr_evt.Timeline.Free.{free_at, IsSorted, StartsBy}
use dr_evt.Timeline.Spec.{Fits, Blocked, IsEarliest}
use dr_evt.Timeline.Fit.{IsFirstPoint, earliest_fit-IsEarliest, earliest_fit-IsFirstPoint}
use dr_evt.Timeline.Reserve.{free_at-reserve, reserve-Keeps}

-- A point query asks for one tick.
abbrev pub span : ℕ → ℕ
span zero = 1
span (suc d) = suc d

-- The ticks are natural numbers, so a point query is a search for an interval of one tick.
first_point-IsEarliest :
    (l : Timeline) (nodes start : ℕ) (o : Option ℕ)
    → IsFirstPoint l nodes start o
    → IsEarliest l nodes 1 start o
first_point-IsEarliest l nodes start none e = λ x from. (x, omega arith, omega arith, e x from)
first_point-IsEarliest l nodes start (some y) (from, enough, first) = (
  from,
  λ x at within. subst (λ z. nodes ≤ free_at l z) {x = y} {y = x} (omega arith) enough,
  λ x at before. (x, omega arith, omega arith, first x at before),
)

pub earliest_fit_lem :
    (l : Timeline) (nodes duration start : ℕ)
    → IsSorted l
    → StartsBy start l
    → IsEarliest l nodes (span duration) start (earliest_fit l nodes duration start)
earliest_fit_lem l nodes zero start sorted begun =
    first_point-IsEarliest l nodes start _ (earliest_fit-IsFirstPoint l nodes start sorted begun)
earliest_fit_lem l nodes (suc d) start sorted begun =
    earliest_fit-IsEarliest l nodes (suc d) start sorted begun (omega arith)

Fits-not-Blocked :
    (l : Timeline) (nodes duration x : ℕ) → Fits l nodes duration x → Blocked l nodes duration x → ⊥
Fits-not-Blocked l nodes duration x fits (t, at, within, few) = omega (arith, fits t at within)

-- The contract determines the answer.
pub IsEarliest-unique :
    (l : Timeline) (nodes duration start : ℕ) (o p : Option ℕ)
    → IsEarliest l nodes duration start o
    → IsEarliest l nodes duration start p
    → o ≡ p
IsEarliest-unique l nodes duration start none none a b = refl
IsEarliest-unique l nodes duration start none (some y) a (from, fits, first) =
    absurd (Fits-not-Blocked l nodes duration y fits (a y from))
IsEarliest-unique l nodes duration start (some x) none (from, fits, first) b =
    absurd (Fits-not-Blocked l nodes duration x fits (b x from))
IsEarliest-unique l nodes duration start (some x) (some y) (from, fits, first)
      (from', fits', first') =
    elim (Bool-cases (ltb x y)) [
      | inl lt ↦ absurd (Fits-not-Blocked l nodes duration x fits (first' x from (ltb→lt _ _ lt)))
      | inr ge ↦ elim (Bool-cases (ltb y x)) [
        | inl gt ↦
            absurd (Fits-not-Blocked l nodes duration y fits' (first y from' (ltb→lt _ _ gt)))
        | inr le ↦ ap some (omega (arith, ltb→le _ _ ge, ltb→le _ _ le))
      ]
    ]

sub_nodes_exact : (a b : ℕ) → b ≤ a → a < 2 ^ 32 → sub_nodes a b + b ≡ a
unfolding sub_nodes
sub_nodes_exact a b le small = omega arith

pub sub_nodes-lt : (a b : ℕ) → sub_nodes a b < 2 ^ 32
unfolding sub_nodes
sub_nodes-lt a b = omega arith

-- Every capacity is an `unsigned`.
abbrev pub IsUnsigned : Timeline → Type 0
IsUnsigned l = (t : ℕ) → StartsBy t l → free_at l t < 2 ^ 32

-- Where the interval fits, a reservation takes exactly its nodes from each time of the interval.
pub free_at-reserve_exact :
    (l : Timeline) (start nodes duration : ℕ)
    → IsSorted l
    → StartsBy start l
    → 0 < duration
    → IsUnsigned l
    → Fits l nodes duration start
    → (t : ℕ) → StartsBy t l
    → free_at (reserve l start nodes duration) t
        + (if leb start t && ltb t (start + duration) then nodes else 0)
      ≡ free_at l t
free_at-reserve_exact l start nodes duration sorted begun pos small fits t begun_t = ground (
  arith,
  free_at-reserve l start nodes duration sorted begun pos t begun_t,
  small t begun_t,
  fits t,
  sub_nodes_exact (free_at l t) nodes,
)

pub reserve-IsUnsigned :
    (l : Timeline) (start nodes duration : ℕ)
    → IsSorted l
    → StartsBy start l
    → IsUnsigned l
    → IsUnsigned (reserve l start nodes duration)
reserve-IsUnsigned l start nodes zero sorted begun small = unfold reserve in small
reserve-IsUnsigned l start nodes (suc d) sorted begun small = λ t b.
    let begun_t = (reserve-Keeps l start nodes (suc d) sorted begun).back t b in
    ground (
      arith,
      free_at-reserve l start nodes (suc d) sorted begun (omega arith) t begun_t,
      small t begun_t,
      sub_nodes-lt (free_at l t) nodes,
    )

sub_nodes_wraps : (a b : ℕ) → a < b → b ≤ 2 ^ 32 → sub_nodes a b + b ≡ a + 2 ^ 32
unfolding sub_nodes
sub_nodes_wraps a b short small = omega arith

-- A reservation whose interval meets a time with too few free nodes wraps there: the free nodes
-- afterwards and those reserved are together 2 ^ 32 more than the free nodes before.
pub free_at-reserve_wraps :
    (l : Timeline) (start nodes duration t : ℕ)
    → IsSorted l
    → StartsBy start l
    → StartsBy t l
    → start ≤ t
    → t < start + duration
    → free_at l t < nodes
    → nodes < 2 ^ 32
    → free_at (reserve l start nodes duration) t + nodes ≡ free_at l t + 2 ^ 32
free_at-reserve_wraps l start nodes duration t sorted begun begun_t from before short small =
    ground (
      arith,
      free_at-reserve l start nodes duration sorted begun (omega arith) t begun_t,
      sub_nodes_wraps (free_at l t) nodes,
    )
