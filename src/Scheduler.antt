-- ===== src/Scheduler.antt =====
-- SchedulerBase (src/sim/scheduler_base.hpp, src/sim/scheduler_base.cpp): the state that all
-- schedulers share, and the projection of free nodes on which they plan reservations.
pub mod Policy
pub mod Project
pub mod Outlook
mod Tests
use dr_evt.Base.{
  ℕ, zero, suc, ◌+◌, ◌-◌, ◌*◌, ◌/◌, ◌%◌, ◌^◌, Bool, true, false, not, ◌&&◌, ◌||◌, Option, none,
  some, List, [], ◌∷◌, ◌++◌, ltb, leb, ◌==◌, if◌then◌else◌, length,
}
use dr_evt.Base.Int.{ℤ, pos, negsuc, sub_ℕ, ◌+ℤ◌, ltb_ℤ}
use dr_evt.Timeline.{Segment, Timeline}
use dr_evt.Timeline
use Policy.{BackfillPolicy}

-- `Running_Job`.
pub record RunningJob : Type 0 where
  pub start_time : ℕ
  pub run_time : ℕ
  pub nodes : ℕ

-- `Capacity_Change`: the absolute capacity from a time on.
pub record CapacityChange : Type 0 where
  pub time : ℕ
  pub total_nodes : ℕ

-- `std::map<job_no_t, Running_Job>`, in the order of its keys.
abbrev pub RunningJobs : Type 0
RunningJobs = List (ℕ × RunningJob)

-- The members of the base class. The pointers to the scheduled changes are the list between them.
pub record SchedulerBase : Type 0 where
  pub total_nodes : ℕ
  pub backfill_policy : BackfillPolicy
  pub fcfs_reservation_time : ℕ
  pub planning_time_resolution : ℕ
  pub outlook_capacity : ℕ
  pub outlook_occupied : ℕ
  pub outlook_changes : List CapacityChange
  pub planning_horizon : ℕ

-- std::numeric_limits<double>::max(), which is a whole number.
unfoldable pub max_time : ℕ
max_time = 2 ^ 1024 - 2 ^ 971

unfoldable pub init : ℕ → BackfillPolicy → SchedulerBase
init total_nodes policy = record {
  total_nodes = total_nodes;
  backfill_policy = policy;
  fcfs_reservation_time = 0;
  planning_time_resolution = 0;
  outlook_capacity = 0;
  outlook_occupied = 0;
  outlook_changes = [];
  planning_horizon = max_time;
}

unfoldable pub set_capacity_outlook : SchedulerBase → ℕ → ℕ → List CapacityChange → SchedulerBase
set_capacity_outlook b capacity occupied changes = record b {
  outlook_capacity = capacity;
  outlook_occupied = occupied;
  outlook_changes = changes;
}

-- The difference of a reservation before the current time is negative in the source and 0 here;
-- both are within every horizon.
unfoldable pub reservation_within_horizon : SchedulerBase → ℕ → ℕ → Bool
reservation_within_horizon b reservation now =
    if reservation == max_time then false else leb (reservation - now) b.planning_horizon

-- The planned release offset; a positive resolution rounds the release up to its grid.
unfoldable pub release_estimate : SchedulerBase → ℕ → ℕ → ℕ
release_estimate b start run_time =
    let resolution = b.planning_time_resolution in
    if resolution == 0
    then run_time
    else (start + run_time + (resolution - 1)) / resolution * resolution - start

-- A change of the number of free nodes: `std::pair<sim_time_t, std::int64_t>`.
pub record Delta : Type 0 where
  pub time : ℕ
  pub change : ℤ

-- The release of a job that ends after `now`.
pub release_of : ℕ → RunningJob → List Delta
release_of now job =
    let ends = job.start_time + job.run_time in
    if ltb now ends then record { time = ends; change = pos job.nodes } ∷ [] else []

pub running_releases : ℕ → RunningJobs → List Delta
unfolding release_of
running_releases now [] = []
running_releases now ((_, job) ∷ jobs) = release_of now job ++ running_releases now jobs

pub projected_releases : ℕ → List RunningJob → List Delta
unfolding release_of
projected_releases now [] = []
projected_releases now (job ∷ jobs) = release_of now job ++ projected_releases now jobs

-- The scheduled changes as differences from the capacity in force before each. Those that are due
-- already only move the reference: the first loop passes the leading ones, the second skips others.
pub capacity_deltas : ℕ → ℕ → List CapacityChange → List Delta
capacity_deltas now reference [] = []
capacity_deltas now reference (c ∷ cs) =
    let rest = capacity_deltas now c.total_nodes cs in
    if ltb now c.time
    then record { time = c.time; change = sub_ℕ c.total_nodes reference } ∷ rest
    else rest

-- The free nodes now; negative when a capacity reduction left the system overcommitted.
unfoldable pub initial_balance : SchedulerBase → ℕ → ℤ
initial_balance b free =
    if free == 0 && ltb b.outlook_capacity b.outlook_occupied
    then sub_ℕ b.outlook_capacity b.outlook_occupied
    else pos free

-- `value > 0 ? static_cast<num_nodes_t>(value) : 0`.
unfoldable pub clamp : ℤ → ℕ
clamp (pos n) = n % 2 ^ 32
clamp (negsuc n) = 0

-- `std::pair` compares times first. Equal pairs are alike, so every sort has this result.
pub delta_lt : Delta → Delta → Bool
delta_lt a b = ltb a.time b.time || a.time == b.time && ltb_ℤ a.change b.change

pub insert_delta : Delta → List Delta → List Delta
unfolding delta_lt
insert_delta d [] = d ∷ []
insert_delta d (e ∷ es) =
    let rest = insert_delta d es in if delta_lt e d then e ∷ rest else d ∷ e ∷ es

unfoldable pub sort_deltas : List Delta → List Delta
unfolding insert_delta
sort_deltas [] = []
sort_deltas (d ∷ ds) = insert_delta d (sort_deltas ds)

-- The inner `do … while`: nets the changes that share `time`, and returns those behind.
pub net_at : ℕ → ℤ → List Delta → ℤ × List Delta
net_at time net [] = (net, [])
net_at time net (d ∷ ds) =
    let rest = net_at time (net +ℤ d.change) ds in if d.time == time then rest else (net, d ∷ ds)

-- The outer loop. Each round consumes a change, so their number is enough fuel.
unfoldable pub profile_from : ℕ → ℤ → List Delta → Timeline
unfolding net_at clamp
profile_from zero balance ds = []
profile_from (suc fuel) balance [] = []
profile_from (suc fuel) balance (d ∷ ds) =
    let (net, rest) = net_at d.time d.change ds in
    let after = balance +ℤ net in
    record { time = d.time; free = clamp after } ∷ profile_from fuel after rest

unfoldable pub all_deltas : SchedulerBase → RunningJobs → ℕ → List RunningJob → List Delta
unfolding running_releases projected_releases capacity_deltas
all_deltas b running now projected =
    running_releases now running
    ++ (projected_releases now projected
        ++ capacity_deltas now b.outlook_capacity b.outlook_changes)

unfoldable pub reservation_timeline :
    SchedulerBase → ℕ → RunningJobs → ℕ → List RunningJob → Timeline
reservation_timeline b free running now projected =
    let deltas = sort_deltas (all_deltas b running now projected) in
    let balance = initial_balance b free in
    record { time = now; free = clamp balance } ∷ profile_from (length deltas) balance deltas

unfoldable pub value_or_max : Option ℕ → ℕ
value_or_max none = max_time
value_or_max (some t) = t

unfoldable pub calculate_fcfs_reservation :
    SchedulerBase → ℕ → ℕ → RunningJobs → ℕ → List RunningJob → ℕ
calculate_fcfs_reservation b nodes free running now projected =
    value_or_max
      (Timeline.earliest_fit (reservation_timeline b free running now projected) nodes 0 now)
