-- ===== src/Timeline.antt =====
-- Reservation_Timeline (src/sim/scheduler_base.hpp): the free-node profile that reservation
-- searches read and extend. A time and a duration are numbers of ticks; node counts are `unsigned`.
pub mod Free
pub mod Fit
pub mod Spec
pub mod Split
pub mod Reserve
pub mod Safe
mod Tests
use dr_evt.Base.{
  ℕ, zero, suc, ◌+◌, ◌-◌, ◌%◌, ◌^◌, Bool, true, false, ◌&&◌, Option, none, some, List, [], ◌∷◌, ltb,
  leb, ◌==◌, if◌then◌else◌, length, get_elem?,
}

-- `segment_t`: the time at which a constant-capacity segment begins, and its free nodes.
pub record Segment : Type 0 where
  pub time : ℕ
  pub free : ℕ

abbrev pub Timeline : Type 0
Timeline = List Segment

-- a - b on `unsigned`.
unfoldable pub sub_nodes : ℕ → ℕ → ℕ
sub_nodes a b = (a + 2 ^ 32 - b) % 2 ^ 32

-- The iterator `prev(upper_bound(start))` as the suffix that begins there. Before the first
-- segment the source has no predecessor; the model stays at the first segment.
pub seek : ℕ → Timeline → Timeline
seek start [] = []
seek start (s ∷ []) = s ∷ []
seek start (s ∷ u ∷ r) =
    let rest = seek start (u ∷ r) in if ltb start u.time then s ∷ u ∷ r else rest

-- `while (scan != end && scan->first < finish && scan->second >= nodes) ++scan`.
pub scan_fitting : ℕ → ℕ → Timeline → Timeline
scan_fitting nodes finish [] = []
scan_fitting nodes finish (s ∷ r) =
    let rest = scan_fitting nodes finish r in
    if ltb s.time finish && leb nodes s.free then rest else s ∷ r

-- `while (segment != end && segment->second < nodes) ++segment`.
pub skip_short : ℕ → Timeline → Timeline
skip_short nodes [] = []
skip_short nodes (s ∷ r) = let rest = skip_short nodes r in if ltb s.free nodes then rest else s ∷ r

-- The earliest time of the segment at which a point query stopped.
pub first_of_segment : ℕ → Timeline → Option ℕ
first_of_segment start [] = none
first_of_segment start (s ∷ r) = some (if leb s.time start then start else s.time)

-- The branch of a nonpositive duration: a query of the capacity at a point in time.
pub point_fit : ℕ → ℕ → Timeline → Option ℕ
unfolding skip_short first_of_segment
point_fit nodes start segment = first_of_segment start (skip_short nodes segment)

-- The search goes on at the segment where `scan` stands, if it is not the end.
pub resume : (ℕ → Timeline → Option ℕ) → Timeline → Option ℕ
resume again [] = none
resume again (s ∷ r) = again s.time (s ∷ r)

-- A round whose interval met a segment with too few nodes, `rest` behind it:
-- `do ++scan; while (scan != end && scan->second < nodes)`.
pub retry : (ℕ → Timeline → Option ℕ) → ℕ → Timeline → Option ℕ
unfolding skip_short resume
retry again nodes rest = resume again (skip_short nodes rest)

-- What a round does with the position at which its scan stopped.
pub after_scan : (ℕ → Timeline → Option ℕ) → ℕ → ℕ → ℕ → Timeline → Option ℕ
unfolding retry
after_scan again nodes start finish [] = some start
after_scan again nodes start finish (t ∷ u) =
    if leb finish t.time then some start else retry again nodes u

-- The loop `for (;;)` from the suffix `segment`. Each round leaves a shorter suffix, so the length
-- of the suffix is enough fuel.
pub fit_loop : ℕ → ℕ → ℕ → ℕ → Timeline → Option ℕ
unfolding scan_fitting after_scan
fit_loop zero nodes duration start segment = none
fit_loop (suc fuel) nodes duration start [] = some start
fit_loop (suc fuel) nodes duration start (s ∷ r) =
    let again : (ℕ → Timeline → Option ℕ) = fit_loop fuel nodes duration in
    if leb nodes s.free
    then after_scan again nodes start (start + duration) (scan_fitting nodes (start + duration) r)
    else retry again nodes r

pub fit_from : ℕ → ℕ → ℕ → Timeline → Option ℕ
unfolding point_fit fit_loop
fit_from nodes duration start segment =
    if duration == 0
    then point_fit nodes start segment
    else fit_loop (length segment) nodes duration start segment

unfoldable pub earliest_fit : Timeline → ℕ → ℕ → ℕ → Option ℕ
unfolding seek fit_from
earliest_fit [] nodes duration start = none
earliest_fit (s ∷ r) nodes duration start = fit_from nodes duration start (seek start (s ∷ r))

pub is_at : ℕ → Option ℕ → Bool
is_at start none = false
is_at start (some x) = x == start

-- `can_fit(start, nodes, duration)`.
unfoldable pub can_fit : Timeline → ℕ → ℕ → ℕ → Bool
unfolding earliest_fit is_at
can_fit l start nodes duration = is_at start (earliest_fit l nodes duration start)

-- The index of the first segment that does not begin before `time`.
pub lower_bound : ℕ → Timeline → ℕ
lower_bound time [] = 0
lower_bound time (s ∷ r) =
    let rest = suc (lower_bound time r) in if ltb s.time time then rest else 0

pub insert_at : ℕ → Segment → Timeline → Timeline
insert_at zero x l = x ∷ l
insert_at (suc i) x [] = x ∷ []
insert_at (suc i) x (s ∷ r) = s ∷ insert_at i x r

pub erase_at : ℕ → Timeline → Timeline
erase_at i [] = []
erase_at zero (s ∷ r) = r
erase_at (suc i) (s ∷ r) = s ∷ erase_at i r

pub free_of : Option Segment → ℕ
free_of none = 0
free_of (some s) = s.free

-- The free nodes of the segment at an index.
pub free_at_index : Timeline → ℕ → ℕ
unfolding free_of
free_at_index l i = free_of (get_elem? l i)

pub begins_at : ℕ → Option Segment → Bool
begins_at time none = false
begins_at time (some s) = s.time == time

-- The boundary at `time`, created if it is not there, and its index.
unfoldable pub split_at : Timeline → ℕ → Timeline × ℕ
unfolding lower_bound insert_at free_at_index begins_at
split_at l time =
    let index = lower_bound time l in
    if begins_at time (get_elem? l index)
    then (l, index)
    else (insert_at index (record { time = time; free = free_at_index l (index - 1) }) l, index)

-- `for (segment = first; segment != last; ++segment) m_free_nodes[segment].second -= nodes`, over
-- the rest of the list: `first` segments are passed, `count` are changed.
unfoldable pub subtract_range : ℕ → ℕ → ℕ → Timeline → Timeline
subtract_range first count nodes [] = []
subtract_range (suc first) count nodes (s ∷ r) = s ∷ subtract_range first count nodes r
subtract_range zero zero nodes (s ∷ r) = s ∷ r
subtract_range zero (suc count) nodes (s ∷ r) =
    record s { free = sub_nodes s.free nodes } ∷ subtract_range zero count nodes r

-- The lambda `coalesce(boundary)`: the new timeline, and whether the boundary went away.
unfoldable pub coalesce : Timeline → ℕ → Timeline × Bool
unfolding free_at_index erase_at
coalesce l zero = (l, false)
coalesce l (suc b) =
    if free_at_index l b == free_at_index l (suc b) then (erase_at (suc b) l, true) else (l, false)

unfoldable pub reserve : Timeline → ℕ → ℕ → ℕ → Timeline
reserve l start nodes duration =
    if duration == 0
    then l
    else let (with_start, first) = split_at l start in
      let (with_end, last) = split_at with_start (start + duration) in
      let taken = subtract_range first (last - first) nodes with_end in
      let (merged, gone) = coalesce taken first in
      (coalesce merged (if gone then last - 1 else last)).0
