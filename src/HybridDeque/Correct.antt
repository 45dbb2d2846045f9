-- ===== src/HybridDeque/Correct.antt =====
-- `schedule` as a whole: the queue stays well-formed, no job is lost or started twice, the jobs
-- started fit the free nodes, and they have arrived.
use dr_evt.Base.{
  ℕ, suc, ◌-◌, ◌≤◌, ◌≡◌, refl, sym, ap, false, not, ◌&&◌, ◌||◌, Option, none, some, List, [], ◌∷◌,
  ◌++◌, arith, leb, ◌==◌, Bool-cases, inl, inr, subst,
}
use dr_evt.Timeline.{Timeline}
use dr_evt.Scheduler.{RunningJobs, reservation_within_horizon}
use dr_evt.Deque.{
  JobEntry, Deque, prepare, active_job_count, Heads, take_heads, after_heads, after_scan_behind,
}
use dr_evt.Deque.Invariant.{Inv}
use dr_evt.Deque.Front.{Consumes}
use dr_evt.Deque.Pass.{
  Selects, PassSelects, idle-Selects, take_heads-Consumes, heads-Selects, behind-Selects,
  some_eligible, no_active, prepare-Inv, prepare-PassSelects,
}
use dr_evt.Deque.Keeps.{ScanKeeps, stop-ScanKeeps, pass-ScanKeeps, start-ScanKeeps}
use dr_evt.HybridDeque.{
  HybridDeque, scan_behind, backfill, backfill_disabled, with_heads, select, schedule_entries,
  head_protected, first_state, account_head, begin_timestamp,
}
use dr_evt.HybridDeque.Backfill.{
  ScanContext, ScanState, Scan, scan, protect_job, place, given_or, protected_start, takes_no_slot,
  start_job, is_now,
}
use dr_evt.HybridDeque.Rounds.{Rounds, examining, scan_ind}

-- The scan behind the head, as the queue module reads it.
abbrev Keeping : ℕ → List JobEntry → ScanState → Scan → Type 0
Keeping n q s k = ScanKeeps n s.available q k.queue k.started k.state.available

place-available :
    (c : ScanContext) (s : ScanState) (j : JobEntry) (r : Option ℕ)
    → (place c s j r).available ≡ s.available
unfolding place
place-available c s j none = refl
place-available c s j (some r) = elim (Bool-cases (reservation_within_horizon c.base r c.now)) [
  | inl within ↦ rw within refl
  | inr beyond ↦ rw beyond refl
]

pub protect_job-available :
    (c : ScanContext) (s : ScanState) (j : JobEntry) (r : Option ℕ)
    → (protect_job c s j r).available ≡ s.available
unfolding protect_job
protect_job-available c s j r =
    elim (Bool-cases (not (c.protected_depth == 0) && leb c.protected_depth s.protected_count)) [
      | inl used ↦ rw used refl
      | inr free ↦ rw free (place-available c s j (given_or r (protected_start c s j)))
    ]

takes-present :
    (c : ScanContext) (s : ScanState) (j : JobEntry)
    → takes_no_slot c s j ≡ false
    → j.removed ≡ false
unfolding takes_no_slot
takes-present c s j slot = ground arith

rounds-ScanKeeps : (c : ScanContext) → Rounds c Keeping
unfolding start_job
rounds-ScanKeeps c = record {
  stops = λ n q s over. stop-ScanKeeps n s.available q;
  skips = λ n j q s k no_slot. pass-ScanKeeps n s.available j q k.queue k.started k.state.available;
  protects = λ n j q s k r free slot waits given kept.
      pass-ScanKeeps n s.available j q k.queue k.started k.state.available (
        subst (λ a. ScanKeeps n a q k.queue k.started k.state.available)
          (protect_job-available c (examining s) j r) kept);
  begins = λ n j q s k free slot fits here kept.
      start-ScanKeeps n s.available j q k.queue k.started k.state.available
        (takes-present c s j slot) fits kept;
}

scan-ScanKeeps :
    (c : ScanContext) (n : ℕ) (q : List JobEntry) (s : ScanState) → Keeping n q s (scan c n q s)
scan-ScanKeeps c = scan_ind c Keeping (rounds-ScanKeeps c)

head_protected-available :
    (c : ScanContext) (e : HybridDeque) (available : ℕ) (plan : Timeline) (head : JobEntry)
    → (head_protected c e available plan head).available ≡ available
unfolding head_protected first_state
head_protected-available c e available plan head =
    protect_job-available c (first_state e available plan) head none

pub accounted-deque :
    (e : HybridDeque) (now reservation : ℕ)
    → (account_head (begin_timestamp e now) reservation now).deque ≡ e.deque
unfolding account_head begin_timestamp
accounted-deque e now reservation = elim (Bool-cases (is_now now e.backfill_depth_time)) [
  | inl same ↦ rw same (ground arith)
  | inr new ↦ rw new (ground arith)
]

abbrev PassFrom : ℕ → Deque → HybridDeque × List JobEntry → Type 0
PassFrom free d r = Selects d.current_tracked_time free d r.0.deque r.1

module _ (e : HybridDeque) (free now : ℕ) (h : Heads)
    (c : Consumes e.base now e.deque.current_tracked_time e.deque.wait_queue free h) where
  scan_behind-Selects :
      (e' : HybridDeque) (ctx : ScanContext) (plan : Timeline) (head : JobEntry)
      (rest : List JobEntry)
      → e'.deque ≡ after_heads e.deque h
      → h.queue ≡ head ∷ rest
      → 1 ≤ h.eligible
      → PassFrom free e.deque (scan_behind e' h ctx plan head rest)
  unfolding scan_behind
  scan_behind-Selects e' ctx plan head rest same eq any =
      let n = e'.deque.eligible_end_idx - 1 in
      let s0 = head_protected ctx e' h.available plan head in
      let k = scan ctx n rest s0 in
      let keeps =
        subst (λ free. ScanKeeps n free rest k.queue k.started k.state.available)
          (head_protected-available ctx e' h.available plan head) (scan-ScanKeeps ctx n rest s0) in
      subst
        (λ d.
          Selects e.deque.current_tracked_time free e.deque
            (after_scan_behind d head k.queue k.started) (h.started ++ k.started))
        (sym same)
        (behind-Selects e.base e.deque free now h c head rest k.queue k.started n k.state.available
          eq (eligible_behind e' same any) keeps)
    where
      eligible_behind :
          (e' : HybridDeque)
          → e'.deque ≡ after_heads e.deque h
          → 1 ≤ h.eligible
          → suc (e'.deque.eligible_end_idx - 1) ≤ h.eligible
      eligible_behind e' same any =
          let index : e'.deque.eligible_end_idx ≡ h.eligible =
            unfold after_heads in ap (λ d. d.eligible_end_idx) same in
          omega arith

  backfill-Selects :
      (running : RunningJobs) (queue : List JobEntry)
      → h.queue ≡ queue
      → (active_job_count (after_heads e.deque h) == 0) ≡ false
      → PassFrom free e.deque (backfill (with_heads e h) h running now queue)
  unfolding backfill
  backfill-Selects running [] eq active = heads-Selects e.base e.deque free now h c
  backfill-Selects running (head ∷ rest) eq active = elim (Bool-cases (h.available == 0)) [
    | inl none_free ↦ rw none_free (heads-Selects e.base e.deque free now h c)
    | inr some_free ↦ rw some_free (
        scan_behind-Selects _ _ _ head rest (accounted-deque _ now _) eq
          (some_eligible e.base e.deque free now h c active))
  ]

-- Every pass on a well-formed queue.
select-Selects :
    (e : HybridDeque) (free : ℕ) (running : RunningJobs) (now : ℕ)
    → Inv e.deque
    → PassFrom free e.deque (select e free running now)
unfolding select
select-Selects e free running now v =
    let h = take_heads e.base now e.deque free in
    let c = take_heads-Consumes e.base now free e.deque v in
    elim (Bool-cases (e.deque.eligible_end_idx == 0)) [
      | inl none_eligible ↦ rw none_eligible (idle-Selects e.deque free v)
      | inr some_eligible ↦
          rw some_eligible
            (elim (Bool-cases (
              active_job_count (after_heads e.deque h) == 0
              || backfill_disabled e.base.backfill_policy)) [
                | inl done ↦ rw done (heads-Selects e.base e.deque free now h c)
                | inr blocked ↦
                    rw blocked
                      (backfill-Selects e free now h c running h.queue refl (no_active _ _ blocked))
              ])
    ]

-- A scheduling pass on a well-formed queue that is not ahead of `now`: the queue is well-formed
-- afterwards; the jobs started and those still pending are together exactly the jobs that were
-- pending, each as often; the jobs started request at most the free nodes together, and each was
-- submitted by `now`.
pub schedule-PassSelects :
    (e : HybridDeque) (free : ℕ) (running : RunningJobs) (now : ℕ)
    → Inv e.deque
    → e.deque.current_tracked_time ≤ now
    → let r = schedule_entries e free running now in PassSelects now free e.deque r.0.deque r.1
unfolding schedule_entries
schedule-PassSelects e free running now v le = prepare-PassSelects e.deque _ _ free now v le (
    select-Selects (record e { deque = prepare e.deque now }) free running now
      (prepare-Inv e.deque now v))
