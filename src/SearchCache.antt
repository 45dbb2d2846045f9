-- ===== src/SearchCache.antt =====
-- Reservation_Search_Cache (src/sim/reservation_search_cache.hpp): a plan with lower bounds from
-- earlier searches. `std::map` is an association list with one entry for each key; `mutable`
-- members are part of the state that a search returns.
pub mod Refine
pub mod Run
mod Tests
use dr_evt.Base.{
  ℕ, zero, suc, ◌+◌, Bool, true, false, not, ◌&&◌, ◌||◌, Option, none, some, List, [], ◌∷◌, ltb,
  leb, ◌==◌, if◌then◌else◌, length,
}
use dr_evt.Timeline.{Timeline}
use dr_evt.Timeline

-- `Bound`, with its key: the node count and the duration.
pub record Bound : Type 0 where
  pub nodes : ℕ
  pub duration : ℕ
  pub origin : ℕ
  pub earliest : Option ℕ

pub record Fit : Type 0 where
  pub nodes : ℕ
  pub duration : ℕ
  pub start : ℕ

pub record SearchCache : Type 0 where
  pub plan : Timeline
  pub bounds : List Bound
  pub last_fit : Option Fit

abbrev pub max_cached_shapes : ℕ
max_cached_shapes = 256

unfoldable pub init : Timeline → SearchCache
init plan = record { plan = plan; bounds = []; last_fit = none }

-- `m_bounds.find(key)`.
pub find : ℕ → ℕ → List Bound → Option Bound
find nodes duration [] = none
find nodes duration (b ∷ bs) =
    let rest = find nodes duration bs in
    if b.nodes == nodes && b.duration == duration then some b else rest

-- `cached->second = {origin, earliest}` for the entry with the key.
pub update : Bound → List Bound → List Bound
update new [] = []
update new (b ∷ bs) =
    let rest = update new bs in
    if b.nodes == new.nodes && b.duration == new.duration then new ∷ bs else b ∷ rest

-- What a search with the answer `fit` leaves in the table.
pub store : Bool → Bound → List Bound → List Bound
unfolding update
store true new bs = update new bs
store false new bs = if ltb (length bs) max_cached_shapes then new ∷ bs else bs

pub fit_of : ℕ → ℕ → Option ℕ → Option Fit
fit_of nodes duration none = none
fit_of nodes duration (some x) = some (record { nodes = nodes; duration = duration; start = x })

-- The search proper, from `from`; `known` tells whether the table has the key.
pub search : SearchCache → ℕ → ℕ → ℕ → Bool → ℕ → SearchCache × Option ℕ
search c nodes duration start known from =
    let fit = Timeline.earliest_fit c.plan nodes duration from in
    let new : Bound = record {
      nodes = nodes;
      duration = duration;
      origin = start;
      earliest = fit;
    } in
    (record c { bounds = store known new c.bounds; last_fit = fit_of nodes duration fit }, fit)

-- A bound for this origin: an earlier failure is final, an earlier answer is where to begin.
pub from_bound : SearchCache → ℕ → ℕ → ℕ → Option ℕ → SearchCache × Option ℕ
from_bound c nodes duration start none = (record c { last_fit = none }, none)
from_bound c nodes duration start (some y) = search c nodes duration start true y

pub recall : SearchCache → ℕ → ℕ → ℕ → Option Bound → SearchCache × Option ℕ
recall c nodes duration start none = search c nodes duration start false start
recall c nodes duration start (some b) =
    if b.origin == start
    then from_bound c nodes duration start b.earliest
    else search c nodes duration start true start

unfoldable pub earliest_fit : SearchCache → ℕ → ℕ → ℕ → SearchCache × Option ℕ
earliest_fit c nodes duration start = recall c nodes duration start (find nodes duration c.bounds)

-- Whether the last successful query covers the update.
pub covered : Option Fit → ℕ → ℕ → ℕ → Bool
covered none start nodes duration = false
covered (some f) start nodes duration =
    f.nodes == nodes && f.start == start && leb duration f.duration

unfoldable pub reserve : SearchCache → ℕ → ℕ → ℕ → SearchCache
reserve c start nodes duration = if duration == 0 then c else record {
  plan = Timeline.reserve c.plan start nodes duration;
  bounds = if covered c.last_fit start nodes duration then c.bounds else [];
  last_fit = none;
}
