-- ===== src/Simulation/Capacity.antt =====
-- The capacity of the machine in the driver (src/sim/sim.hpp, src/sim/sim.cpp).
use dr_evt.Base.{
  ℕ, ◌+◌, ◌-◌, ◌*◌, ◌/◌, max, Bool, false, List, [], ◌∷◌, ltb, leb, ◌==◌, if◌then◌else◌,
}
use dr_evt.Base.Results.{Result, ok, throw, logic_error}
use dr_evt.Scheduler.{CapacityChange}
use dr_evt.Trace.{get_nodes_occupied}
use dr_evt.Trace.Output.{set_resource_capacity}
use dr_evt.Simulation.{SchedulerMethods, Simulation}

module _ (S : SchedulerMethods) where
  unfoldable pub get_available_nodes : Simulation S.State → ℕ
  get_available_nodes s =
      let occupied = get_nodes_occupied s.trace in
      if ltb occupied s.current_capacity then s.current_capacity - occupied else 0

  unfoldable pub accounting_available_nodes : Simulation S.State → ℕ
  accounting_available_nodes s =
      let used = s.trace.ctx.nodes_in_use in
      if ltb used s.current_capacity then s.current_capacity - used else 0

  unfoldable pub publish_capacity_outlook : Simulation S.State → Simulation S.State
  publish_capacity_outlook s = record s {
    scheduler =
        S.set_capacity_outlook s.scheduler s.current_capacity (get_nodes_occupied s.trace)
          s.capacity_changes;
  }

  -- A release time is rounded up to the grid of a positive resolution.
  unfoldable pub planning_run_time : Simulation S.State → ℕ → ℕ → ℕ
  planning_run_time s start_time run_time_estimate =
      let resolution = s.planning_time_resolution in
      let release_time = start_time + run_time_estimate in
      (if resolution == 0
        then release_time
        else (release_time + (resolution - 1)) / resolution * resolution)
      - start_time

  unfoldable pub reset_capacity_accounting : Simulation S.State → ℕ → Simulation S.State
  reset_capacity_accounting s start_time = record s {
    capacity_area = 0;
    capacity_area_time = start_time;
  }

  unfoldable pub effective_capacity : Simulation S.State → ℕ
  effective_capacity s = max s.current_capacity (get_nodes_occupied s.trace)

  -- Times are finite here.
  unfoldable pub advance_capacity_accounting_to :
      Simulation S.State → ℕ → Result (Simulation S.State)
  advance_capacity_accounting_to s current_time =
      if ltb current_time s.capacity_area_time
      then throw logic_error
      else ok (record s {
        capacity_area =
            s.capacity_area + effective_capacity s * (current_time - s.capacity_area_time);
        capacity_area_time = current_time;
      })

  unfoldable pub capacity_area_through : Simulation S.State → ℕ → ℕ
  capacity_area_through s through_time =
      if ltb s.capacity_area_time through_time
      then s.capacity_area + effective_capacity s * (through_time - s.capacity_area_time)
      else s.capacity_area

  -- The loop of `apply_capacity_changes` over the changes from the cursor on.
  unfoldable pub apply_changes : Simulation S.State → ℕ → List CapacityChange → Simulation S.State
  apply_changes s current_time [] = record s { capacity_changes = [] }
  apply_changes s current_time (change ∷ changes) =
      let next : Simulation S.State = record s {
        current_capacity = change.total_nodes;
        trace = set_resource_capacity s.trace change.time change.total_nodes;
      } in
      let rest = apply_changes next current_time changes in
      if leb change.time current_time
      then rest
      else record s { capacity_changes = change ∷ changes }

  -- The first change is due.
  unfoldable pub is_change_due : List CapacityChange → ℕ → Bool
  is_change_due [] current_time = false
  is_change_due (change ∷ changes) current_time = leb change.time current_time

  unfoldable pub apply_capacity_changes : Simulation S.State → ℕ → Simulation S.State × Bool
  apply_capacity_changes s current_time = (
    apply_changes s current_time s.capacity_changes,
    is_change_due s.capacity_changes current_time,
  )
