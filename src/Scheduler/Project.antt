-- ===== src/Scheduler/Project.antt =====
-- The projected timeline against the plain sum of the changes that are due.
mod Net
pub mod Rise
unfoldable pub use Net.{change_by}
use dr_evt.Base.{
  ℕ, zero, suc, ◌+◌, ◌%◌, ◌^◌, ◌≤◌, ◌<◌, ◌≡◌, refl, sym, ap, ◌∙◌, Option, none, some, List, [], ◌∷◌,
  ◌++◌, arith, leb, ltb, if◌then◌else◌, length, Bool-cases, inl, inr, ltb→lt, subst,
}
use dr_evt.Base.Int.{ℤ, pos, negsuc, ◌+ℤ◌}
use dr_evt.Timeline.{Segment, Timeline}
use dr_evt.Timeline
use dr_evt.Timeline.Free.{value_from, free_at, IsSorted, StartsBy}
use dr_evt.Timeline.Fit.{IsFirstPoint, earliest_fit-IsFirstPoint}
use dr_evt.Timeline.Safe.{IsUnsigned}
use dr_evt.Scheduler.{
  RunningJob, RunningJobs, SchedulerBase, Delta, CapacityChange, all_deltas, initial_balance, clamp,
  sort_deltas, release_of, running_releases, projected_releases, capacity_deltas, profile_from,
  reservation_timeline, value_or_max, calculate_fcfs_reservation, max_time,
}
use Net.{AllAfter, sort_change_by, sort-OrderedAfter, profile_view, profile-Ascends}

append-AllAfter :
    (a : ℕ) (xs ys : List Delta) → AllAfter a xs → AllAfter a ys → AllAfter a (xs ++ ys)
append-AllAfter a [] ys hx hy = hy
append-AllAfter a (x ∷ xs) ys hx hy = (hx.0, append-AllAfter a xs ys hx.1 hy)

release-AllAfter : (now : ℕ) (job : RunningJob) → AllAfter now (release_of now job)
unfolding release_of
release-AllAfter now job = elim (Bool-cases (ltb now (job.start_time + job.run_time))) [
  | inl later ↦ rw later (ltb→lt _ _ later, tt)
  | inr ended ↦ rw ended tt
]

running-AllAfter : (now : ℕ) (jobs : RunningJobs) → AllAfter now (running_releases now jobs)
unfolding running_releases
running-AllAfter now [] = tt
running-AllAfter now ((i, job) ∷ jobs) =
    append-AllAfter now (release_of now job) _ (release-AllAfter now job)
      (running-AllAfter now jobs)

projected-AllAfter : (now : ℕ) (jobs : List RunningJob) → AllAfter now (projected_releases now jobs)
unfolding projected_releases
projected-AllAfter now [] = tt
projected-AllAfter now (job ∷ jobs) =
    append-AllAfter now (release_of now job) _ (release-AllAfter now job)
      (projected-AllAfter now jobs)

capacity-AllAfter :
    (now reference : ℕ) (cs : List CapacityChange) → AllAfter now (capacity_deltas now reference cs)
unfolding capacity_deltas
capacity-AllAfter now reference [] = tt
capacity-AllAfter now reference (c ∷ cs) = elim (Bool-cases (ltb now c.time)) [
  | inl later ↦ rw later (ltb→lt _ _ later, capacity-AllAfter now c.total_nodes cs)
  | inr due ↦ rw due (capacity-AllAfter now c.total_nodes cs)
]

module _ (b : SchedulerBase) (free : ℕ) (running : RunningJobs) (now : ℕ)
    (projected : List RunningJob) where
  deltas-AllAfter : AllAfter now (all_deltas b running now projected)
  unfolding all_deltas
  deltas-AllAfter = append-AllAfter now _ _ (running-AllAfter now running) (
      append-AllAfter now _ _ (projected-AllAfter now projected)
        (capacity-AllAfter now b.outlook_capacity b.outlook_changes))

  pub timeline-IsSorted : IsSorted (reservation_timeline b free running now projected)
  unfolding reservation_timeline
  timeline-IsSorted =
      profile-Ascends _ _ _ now
        (sort-OrderedAfter now (all_deltas b running now projected) deltas-AllAfter)

  pub timeline-StartsBy :
      (t : ℕ) → now ≤ t → StartsBy t (reservation_timeline b free running now projected)
  unfolding reservation_timeline
  timeline-StartsBy t le = le

  -- The free nodes of the projection at every time from `now` on are the balance at `now` plus all
  -- releases and capacity changes that are due by then, whatever their order, cut off at zero.
  pub free_at-reservation_timeline :
      (t : ℕ)
      → free_at (reservation_timeline b free running now projected) t
        ≡ clamp (initial_balance b free +ℤ change_by t (all_deltas b running now projected))
  unfolding reservation_timeline free_at
  free_at-reservation_timeline t =
      profile_view _ (initial_balance b free) _ now t (omega arith)
        (sort-OrderedAfter now (all_deltas b running now projected) deltas-AllAfter)
      ∙ ap (λ (z : ℤ). clamp (initial_balance b free +ℤ z))
          (sort_change_by t (all_deltas b running now projected))

  clamp-lt : (z : ℤ) → clamp z < 2 ^ 32
  unfolding clamp
  clamp-lt (pos n) = omega arith
  clamp-lt (negsuc n) = omega arith

  pub timeline-IsUnsigned : IsUnsigned (reservation_timeline b free running now projected)
  timeline-IsUnsigned t begun = rw (free_at-reservation_timeline t) (clamp-lt _)

  -- What `calculate_fcfs_reservation` returns: the first time from `now` on at which the projection
  -- has the nodes, or the maximal time where there is none.
  abbrev pub IsReservation : ℕ → Option ℕ → Type 0
  IsReservation nodes none =
      (t : ℕ)
      → now ≤ t
      → clamp (initial_balance b free +ℤ change_by t (all_deltas b running now projected)) < nodes
  IsReservation nodes (some r) =
      (now ≤ r)
      × (nodes ≤ clamp (initial_balance b free +ℤ change_by r (all_deltas b running now projected)))
      × ((t : ℕ)
          → now ≤ t
          → t < r
          → clamp (initial_balance b free +ℤ change_by t (all_deltas b running now projected))
            < nodes)

  IsReservation-of_point :
      (nodes : ℕ) (o : Option ℕ)
      → IsFirstPoint (reservation_timeline b free running now projected) nodes now o
      → IsReservation nodes o
  IsReservation-of_point nodes none h = λ t le. rw (← free_at-reservation_timeline t) (h t le)
  IsReservation-of_point nodes (some r) h = (
    h.0,
    rw (← free_at-reservation_timeline r) h.1,
    λ t le before. rw (← free_at-reservation_timeline t) (h.2 t le before),
  )

  -- The reservation of the queue head is the first time from `now` on at which the balance plus the
  -- changes that are due leave at least the requested nodes; the maximal time is returned exactly
  -- where the search finds no such time.
  pub calculate_fcfs_reservation_lem :
      (nodes : ℕ)
      → (o : Option ℕ) × IsReservation nodes o
        × (calculate_fcfs_reservation b nodes free running now projected ≡ value_or_max o)
  unfolding calculate_fcfs_reservation
  calculate_fcfs_reservation_lem nodes = (
    Timeline.earliest_fit (reservation_timeline b free running now projected) nodes 0 now,
    IsReservation-of_point nodes _ (
        earliest_fit-IsFirstPoint (reservation_timeline b free running now projected) nodes now
          timeline-IsSorted (timeline-StartsBy now (omega arith))),
    refl,
  )
