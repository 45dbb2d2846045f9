-- ===== src/EasyDeque/Steady.antt =====
-- The EASY guarantee of a system without scheduled capacity changes: there the head's interval
-- always fits.
use dr_evt.Base.{ℕ, ◌+◌, ◌^◌, ◌≤◌, ◌<◌, ◌≡◌, true, List, [], ◌∷◌, ◌++◌, arith}
use dr_evt.Timeline.Free.{free_at}
use dr_evt.Scheduler.{RunningJobs, reservation_within_horizon}
use dr_evt.Scheduler.Project.{free_at-reservation_timeline}
use dr_evt.Scheduler.Project.Rise.{running_nodes, projected_nodes, projection_rises}
use dr_evt.Deque.{JobEntry, Heads}
use dr_evt.EasyDeque.{EasyDeque, backfill}
use dr_evt.EasyDeque.Guarantee.{
  projection, projection-IsPlan, reserved, reservation_found, Guarantees, backfill_guarantee,
}

module _ (e : EasyDeque) (h : Heads) (running : RunningJobs) (now : ℕ) (head : JobEntry)
    (rest : List JobEntry) where
  free_at-rises :
      (t u : ℕ)
      → e.base.outlook_changes ≡ []
      → h.available + running_nodes running + projected_nodes h.projected < 2 ^ 32
      → t ≤ u
      → free_at (projection e h running now head rest) t
        ≤ free_at (projection e h running now head rest) u
  free_at-rises t u none_ahead small le =
      rw (free_at-reservation_timeline e.base h.available running now h.projected t) (
        rw (free_at-reservation_timeline e.base h.available running now h.projected u)
          (projection_rises e.base h.available running now h.projected t u none_ahead small le))

  -- Where no capacity change is scheduled, the free nodes and those of the running jobs stay below
  -- 2^32 together, and the head's reservation lies within the planning horizon: the jobs that the
  -- pass starts behind the head leave its whole planned interval free. At every time from `now` on,
  -- the projection has the nodes of the head, if its interval covers the time, and those of every
  -- job started behind it that still runs by its estimate.
  pub steady_guarantee :
      e.base.outlook_changes ≡ []
      → h.available + running_nodes running + projected_nodes h.projected < 2 ^ 32
      → reservation_within_horizon e.base (reserved e h running now head rest) now ≡ true
      → (backfilled : List JobEntry) × ((backfill e h running now (head ∷ rest)).1
          ≡ h.started ++ backfilled)
        × Guarantees e h running now head rest backfilled
  steady_guarantee none_ahead small within =
      let found =
        reservation_found e.base (projection e h running now head rest) now head
          (projection-IsPlan e h running now head rest) within in
      backfill_guarantee e h running now head rest within (λ t from to. omega (
        arith,
        found.1,
        free_at-rises (reserved e h running now head rest) t none_ahead small from,
      ))
