-- ===== src/Simulation/Advance.antt =====
-- `advance_to` (src/sim/sim.cpp) without resource accounting, warm start or periodic backfill:
-- `advance_to_impl<false, false>`. Automatic checkpoints are not modelled.
use dr_evt.Base.{
  ℕ, zero, suc, ◌+◌, ◌-◌, ◌^◌, max, Bool, true, false, not, ◌&&◌, ◌||◌, Option, none, some, List,
  [], ◌∷◌, ltb, leb, ◌==◌, if◌then◌else◌,
}
use dr_evt.Base.Results.{Result, ok, throw, runtime_error, out_of_fuel, ◌>>=◌}
use dr_evt.Events.{DrEvent, EventQueue, is_departure, is_release}
use dr_evt.Scheduler.{CapacityChange, max_time}
use dr_evt.Trace.Step.{process_event}
use dr_evt.Simulation.{SchedulerMethods, Simulation}
use dr_evt.Simulation.Running.{erase, contains}
use dr_evt.Simulation.Capacity.{advance_capacity_accounting_to, apply_capacity_changes}
use dr_evt.Simulation.Submit.{record_queue_arrivals}
use dr_evt.Simulation.Start.{start_first, start_next, schedule_loop}

-- The times of the next event and of the next capacity change.
abbrev pub next_replay_time : EventQueue → ℕ
next_replay_time [] = max_time
next_replay_time (e ∷ q) = e.time

abbrev pub next_change_time : List CapacityChange → ℕ
next_change_time [] = max_time
next_change_time (c ∷ cs) = c.time

abbrev pub is_queue_empty : EventQueue → Bool
is_queue_empty [] = true
is_queue_empty (e ∷ q) = false

-- `--count` of a 64-bit unsigned integer.
abbrev pub pred_size : ℕ → ℕ
pred_size n = if n == 0 then 2 ^ 64 - 1 else n - 1

abbrev pub selected {ℓ} : {A : Type ℓ} → Result A → Result (Option A)
selected r = r >>= λ a. ok (some a)

module _ (S : SchedulerMethods) (sample : ℕ → ℕ → ℕ) where
  -- What the source does for an event around `process_single_event`: the state, and whether nodes
  -- were freed.
  unfoldable pub finish_event : Simulation S.State → DrEvent → Simulation S.State × Bool
  finish_event s e =
      let freed : Simulation S.State = record s { running_jobs = erase e.job_idx s.running_jobs } in
      let released : Simulation S.State = record freed {
        jobs_releasing =
            if contains e.job_idx s.running_jobs
            then pred_size s.jobs_releasing
            else s.jobs_releasing;
      } in
      if is_departure e
      then if s.trace.delay.last_departure_delayed
        then (record s { jobs_releasing = s.jobs_releasing + 1 }, false)
        else (freed, true)
      else if is_release e
      then (released, true)
      else (s, false)

  unfoldable pub handle_event :
      Simulation S.State → DrEvent → EventQueue → Result (Simulation S.State × Bool)
  handle_event s e q = do
    let counted : Simulation S.State = record s {
      jobs_completed = s.jobs_completed + (if is_departure e then 1 else 0);
    }
    let trace = (← process_event sample counted.trace e q)
    ok (finish_event (record counted { trace = trace }) e)

  -- The loop over all events at the current time.
  unfoldable pub events_at :
      ℕ → Simulation S.State → EventQueue → Bool → Result (Simulation S.State × Bool)
  events_at zero s q freed = throw out_of_fuel
  events_at (suc fuel) s [] freed = ok (s, freed)
  events_at (suc fuel) s (e ∷ q) freed =
      let rest = handle_event s e q >>= λ r. events_at fuel r.0 r.0.trace.ctx.evtq (freed || r.1) in
      if not (e.time == s.current_time) then ok (s, freed) else rest

  -- What every branch does first.
  unfoldable pub move_to : Simulation S.State → ℕ → Result (Simulation S.State)
  move_to s time = do
    let a = (← advance_capacity_accounting_to S (record s { current_time = time }) time)
    let r = (← record_queue_arrivals S (record a { scheduler = S.sync_to a.scheduler time }) time)
    ok r.0

  unfoldable pub replay_branch : ℕ → Simulation S.State → ℕ → ℕ → Result (Simulation S.State × Bool)
  replay_branch fuel s time next_arrival = do
    let m = (← move_to s time)
    let r = (← events_at fuel m m.trace.ctx.evtq false)
    let c = apply_capacity_changes S r.0 time
    ok (c.0, r.1 || (c.1 || next_arrival == time))

  unfoldable pub arrival_branch : Simulation S.State → ℕ → Result (Simulation S.State × Bool)
  arrival_branch s time = do
    let m = (← move_to s time)
    ok ((apply_capacity_changes S m time).0, true)

  -- The body of the main loop: the state and whether to schedule, or none to leave the loop.
  unfoldable pub select_event :
      ℕ → Simulation S.State → ℕ → Result (Option (Simulation S.State × Bool))
  select_event fuel s target_time =
      let next_arrival = S.get_next_arrival_time s.scheduler in
      let next_capacity = next_change_time s.capacity_changes in
      let next_replay = next_replay_time s.trace.ctx.evtq in
      if not (is_queue_empty s.trace.ctx.evtq)
        && (leb next_replay next_arrival
            && (leb next_replay next_capacity && leb next_replay target_time))
      then selected (replay_branch fuel s next_replay next_arrival)
      else if ltb next_arrival max_time
          && (leb next_arrival next_capacity && leb next_arrival target_time)
      then selected (arrival_branch s next_arrival)
      else if ltb next_capacity max_time && leb next_capacity target_time
      then selected (arrival_branch s next_capacity)
      else ok none

  unfoldable pub note_peak : Simulation S.State → Simulation S.State
  note_peak s = record s {
    queue_length_peak = max s.queue_length_peak (S.active_job_count s.scheduler);
  }

  unfoldable pub schedule_if : Bool → ℕ → Simulation S.State → Result (Simulation S.State)
  schedule_if true fuel s = schedule_loop S sample (start_next S sample) fuel s
  schedule_if false fuel s = ok s

  -- The condition of the main loop.
  unfoldable pub has_work : Simulation S.State → ℕ → Bool
  has_work s target_time =
      let next_capacity = next_change_time s.capacity_changes in
      ltb 0 (S.active_job_count s.scheduler)
      || (not (is_queue_empty s.trace.ctx.evtq)
          || (ltb (S.get_next_arrival_time s.scheduler) max_time
              || ltb target_time max_time && leb next_capacity target_time))

  -- The rest of the main loop's body, with what follows it.
  unfoldable pub after_event :
      (Simulation S.State → Result (Simulation S.State))
      → ℕ
      → Simulation S.State
      → Option (Simulation S.State × Bool)
      → Result (Simulation S.State)
  after_event next fuel s none = ok s
  after_event next fuel s (some r) = schedule_if r.1 fuel r.0 >>= λ s'. next (note_peak s')

  unfoldable pub main_loop : ℕ → Simulation S.State → ℕ → Result (Simulation S.State)
  main_loop zero s target_time = throw out_of_fuel
  main_loop (suc fuel) s target_time =
      let next = select_event fuel s target_time >>= λ selected.
      after_event (λ s'. main_loop fuel s' target_time) fuel s selected in
      if has_work s target_time then next else ok s

  -- What precedes the main loop.
  unfoldable pub enter : ℕ → Simulation S.State → Result (Simulation S.State)
  enter fuel s = do
    let synced : Simulation S.State = record s { scheduler = S.sync_to s.scheduler s.current_time }
    let r = (← record_queue_arrivals S synced s.current_time)
    let c = apply_capacity_changes S r.0 r.0.current_time
    let e =
        (← if S.has_eligible_jobs c.0.scheduler
          then schedule_loop S sample (start_first S sample) fuel c.0
          else ok c.0)
    ok (note_peak e)

  -- The target `max_time` drains the simulation and leaves the clock at the last event.
  unfoldable pub leave : Simulation S.State → ℕ → Simulation S.State
  leave s target_time =
      if target_time == max_time then s else record s { current_time = target_time }

  unfoldable pub advance_to : ℕ → Simulation S.State → ℕ → Result (Simulation S.State)
  advance_to fuel s target_time = if ltb target_time s.current_time then throw runtime_error else do
    let e = (← enter fuel s)
    let m = (← main_loop fuel e target_time)
    ok (leave m target_time)
