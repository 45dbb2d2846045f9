-- ===== src/EasyDeque/Correct.antt =====
-- `schedule` as a whole: the queue stays well-formed, no job is lost or started twice, the jobs
-- started fit the free nodes, and they have arrived.
use dr_evt.Base.{
  ℕ, ◌-◌, ◌≤◌, ◌≡◌, refl, false, ◌||◌, List, [], ◌∷◌, arith, ◌==◌, Bool-cases, inl, inr,
}
use dr_evt.Timeline.{Timeline}
use dr_evt.Scheduler.{RunningJobs}
use dr_evt.Deque.{
  JobEntry, Deque, prepare, active_job_count, queue_depth_scan_end, Heads, take_heads, after_heads,
}
use dr_evt.Deque.Invariant.{Inv}
use dr_evt.Deque.Front.{KeepsEntries, Consumes}
use dr_evt.Deque.Pass.{
  Selects, PassSelects, idle-Selects, take_heads-Consumes, heads-Selects, behind-Selects,
  prepare-KeepsEntries, some_eligible, no_active, scan_end-le, prepare-Inv, prepare-PassSelects,
}
use dr_evt.EasyDeque.{
  EasyDeque, ScanContext, scan, scan_behind, backfill, backfill_disabled, with_heads, select,
  schedule_entries, with_reservation,
}
use dr_evt.EasyDeque.Scanning.{scan-ScanKeeps}

abbrev PassFrom : ℕ → Deque → EasyDeque × List JobEntry → Type 0
PassFrom free d r = Selects d.current_tracked_time free d r.0.deque r.1

module _ (e : EasyDeque) (free now : ℕ) (h : Heads)
    (c : Consumes e.base now e.deque.current_tracked_time e.deque.wait_queue free h) where
  scan_behind-Selects :
      (ctx : ScanContext) (reservation : ℕ) (plan : Timeline) (head : JobEntry)
      (rest : List JobEntry)
      → h.queue ≡ head ∷ rest
      → 1 ≤ h.eligible
      → PassFrom free e.deque
          (scan_behind (with_reservation (with_heads e h) reservation) h ctx plan head rest)
  unfolding scan_behind after_heads
  scan_behind-Selects ctx reservation plan head rest eq some =
      let n =
        queue_depth_scan_end (head ∷ rest) 1 h.eligible e.backfill_queue_depth ctx.within - 1 in
      let s = scan ctx n plan h.available rest in
      behind-Selects e.base e.deque free now h c head rest s.queue s.started n s.available eq
        (omega (arith, scan_end-le (head ∷ rest) h.eligible e.backfill_queue_depth ctx.within some))
        (scan-ScanKeeps ctx n plan h.available rest)

  backfill-Selects :
      (running : RunningJobs) (queue : List JobEntry)
      → h.queue ≡ queue
      → (active_job_count (after_heads e.deque h) == 0) ≡ false
      → PassFrom free e.deque (backfill (with_heads e h) h running now queue)
  unfolding backfill
  backfill-Selects running [] eq active = heads-Selects e.base e.deque free now h c
  backfill-Selects running (head ∷ rest) eq active = elim (Bool-cases (h.available == 0)) [
    | inl none_free ↦ rw none_free (heads-Selects e.base e.deque free now h c)
    | inr some_free ↦
        rw some_free (
          scan_behind-Selects _ _ _ head rest eq (some_eligible e.base e.deque free now h c active))
  ]

-- Every pass on a well-formed queue.
select-Selects :
    (e : EasyDeque) (free : ℕ) (running : RunningJobs) (now : ℕ)
    → Inv e.deque
    → PassFrom free e.deque (select e free running now)
unfolding select
select-Selects e free running now v =
    let h = take_heads e.base now e.deque free in
    let c = take_heads-Consumes e.base now free e.deque v in
    elim (Bool-cases (e.deque.eligible_end_idx == 0)) [
      | inl none_eligible ↦ rw none_eligible (idle-Selects e.deque free v)
      | inr some_eligible ↦
          rw some_eligible
            (elim (Bool-cases (
              active_job_count (after_heads e.deque h) == 0
              || backfill_disabled e.base.backfill_policy)) [
                | inl done ↦ rw done (heads-Selects e.base e.deque free now h c)
                | inr blocked ↦
                    rw blocked
                      (backfill-Selects e free now h c running h.queue refl (no_active _ _ blocked))
              ])
    ]

-- A scheduling pass on a well-formed queue that is not ahead of `now`: the queue is well-formed
-- afterwards; the jobs started and those still pending are together exactly the jobs that were
-- pending, each as often; the jobs started request at most the free nodes together, and each was
-- submitted by `now`.
pub schedule-Selects :
    (e : EasyDeque) (free : ℕ) (running : RunningJobs) (now : ℕ)
    → Inv e.deque
    → e.deque.current_tracked_time ≤ now
    → let r = schedule_entries e free running now in PassSelects now free e.deque r.0.deque r.1
unfolding schedule_entries
schedule-Selects e free running now v le = prepare-PassSelects e.deque _ _ free now v le (
    select-Selects (record e { deque = prepare e.deque now }) free running now
      (prepare-Inv e.deque now v))

-- The pass changes the facts of no entry.
pub schedule-KeepsEntries :
    (e : EasyDeque) (free : ℕ) (running : RunningJobs) (now : ℕ)
    → Inv e.deque
    → let r = schedule_entries e free running now in
      KeepsEntries e.deque.wait_queue r.0.deque.wait_queue r.1
unfolding schedule_entries
schedule-KeepsEntries e free running now v = prepare-KeepsEntries e.deque _ _ free now (
    select-Selects (record e { deque = prepare e.deque now }) free running now
      (prepare-Inv e.deque now v))
