-- ===== src/Scheduler/Tests.antt =====
-- Projections of a small system.
use dr_evt.Base.{ℕ, ◌≡◌, refl, arith, Option, List, [], ◌∷◌}
use dr_evt.Base.Int.{◌+ℤ◌}
use dr_evt.Timeline.Free.{free_at}
use dr_evt.Scheduler.Policy.{easy}
use dr_evt.Scheduler.{
  RunningJob, RunningJobs, CapacityChange, SchedulerBase, init, set_capacity_outlook, all_deltas,
  sort_deltas, profile_from, initial_balance, capacity_deltas, reservation_timeline,
  calculate_fcfs_reservation, value_or_max, release_estimate,
}
use dr_evt.Scheduler.Outlook.{reservation_timeline_lem}
use dr_evt.Scheduler.Project.{IsReservation, calculate_fcfs_reservation_lem}

-- Ten nodes, which fall to five at 20 and rise to eight at 30.
abbrev changes : List CapacityChange
changes = record { time = 20; total_nodes = 5 } ∷ record { time = 30; total_nodes = 8 } ∷ []

abbrev base : SchedulerBase
base = set_capacity_outlook (init 10 easy) 10 7 changes

job : ℕ → ℕ → ℕ → RunningJob
job start run nodes = record { start_time = start; run_time = run; nodes = nodes }

-- Three nodes are released at 15 and four at 25.
abbrev running : RunningJobs
running = (1, job 5 20 4) ∷ (2, job 0 15 3) ∷ []

timeline_runs :
    reservation_timeline base 3 running 10 []
    ≡ record { time = 10; free = 3 }
      ∷ record { time = 15; free = 6 }
      ∷ record { time = 20; free = 1 }
      ∷ record { time = 25; free = 5 }
      ∷ record { time = 30; free = 8 }
      ∷ []
unfolding reservation_timeline all_deltas capacity_deltas sort_deltas profile_from initial_balance
    ◌+ℤ◌ set_capacity_outlook init job
timeline_runs = refl

rounded_up : release_estimate (record base { planning_time_resolution = 60 }) 10 100 ≡ 110
unfolding release_estimate set_capacity_outlook init
rounded_up = refl

-- Two nodes of the ten are taken by a job that starts now and ends at 18.
reservation_timeline_lem_example :
    free_at (reservation_timeline base 3 running 10 (job 10 8 2 ∷ [])) 22 ≡ 3
unfolding set_capacity_outlook init job
reservation_timeline_lem_example =
    reservation_timeline_lem base 3 running 10 (job 10 8 2 ∷ []) 22 (omega arith)
      (omega arith, (omega arith, tt))

calculate_fcfs_reservation_lem_example :
    (o : Option ℕ) × IsReservation base 3 running 10 [] 6 o
    × (calculate_fcfs_reservation base 6 3 running 10 [] ≡ value_or_max o)
calculate_fcfs_reservation_lem_example = calculate_fcfs_reservation_lem base 3 running 10 [] 6
