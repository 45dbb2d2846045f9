-- ===== src/HybridDeque/Depth.antt =====
-- The budget of examined jobs that all passes at one timestamp share.
use dr_evt.Base.{
  ℕ, suc, ◌+◌, ◌-◌, ◌≤◌, ◌<◌, ◌≡◌, refl, false, not, ◌&&◌, Option, none, some, List, arith, leb,
  ◌==◌, if◌then◌else◌, length, Bool-cases, inl, inr,
}
use dr_evt.Scheduler.{reservation_within_horizon}
use dr_evt.Deque.{JobEntry}
use dr_evt.HybridDeque.{HybridDeque}
use dr_evt.HybridDeque.Backfill.{
  ScanContext, ScanState, Scan, scan, protect_job, place, given_or, protected_start, start_job,
  is_now, slots_used,
}
use dr_evt.HybridDeque.Rounds.{Rounds, examining, scan_ind}

-- The slot of the blocked head.
abbrev pub head_slot : HybridDeque → ℕ
head_slot e = if e.backfill_depth_head_accounted then 1 else 0

-- The head's slot is among the slots counted, and the others are within the depth.
pub record IsBudgeted (e : HybridDeque) : Type 0 where
  pub counted : head_slot e ≤ e.backfill_depth_examined
  pub within :
      0 < e.backfill_queue_depth → e.backfill_depth_examined ≤ e.backfill_queue_depth + head_slot e

-- The slots that the passes at `now` have used up to here, the head's apart.
unfoldable pub used : HybridDeque → ℕ → ℕ
used e now = if is_now now e.backfill_depth_time then e.backfill_depth_examined - head_slot e else 0

place-examined :
    (c : ScanContext) (s : ScanState) (j : JobEntry) (r : Option ℕ)
    → (place c s j r).examined ≡ s.examined
unfolding place
place-examined c s j none = refl
place-examined c s j (some r) = elim (Bool-cases (reservation_within_horizon c.base r c.now)) [
  | inl within ↦ rw within refl
  | inr beyond ↦ rw beyond refl
]

pub protect_job-examined :
    (c : ScanContext) (s : ScanState) (j : JobEntry) (r : Option ℕ)
    → (protect_job c s j r).examined ≡ s.examined
unfolding protect_job
protect_job-examined c s j r =
    elim (Bool-cases (not (c.protected_depth == 0) && leb c.protected_depth s.protected_count)) [
      | inl full ↦ rw full refl
      | inr free ↦ rw free (place-examined c s j (given_or r (protected_start c s j)))
    ]

-- Every job that a scan starts takes a slot, and no slot beyond the depth is given.
pub record Counts (c : ScanContext) (s : ScanState) (k : Scan) : Type 0 where
  pub started : s.examined + length k.started ≤ k.state.examined
  pub bounded :
      (extra : ℕ)
      → 0 < c.queue_depth
      → s.examined ≤ c.queue_depth + extra
      → k.state.examined ≤ c.queue_depth + extra

slot_free :
    (c : ScanContext) (s : ScanState)
    → slots_used c s ≡ false
    → 0 < c.queue_depth
    → s.examined < c.queue_depth
unfolding slots_used
slot_free c s free pos = ground arith

slot-Counts :
    (c : ScanContext) (s s' : ScanState) (k : Scan)
    → slots_used c s ≡ false
    → s'.examined ≡ suc s.examined
    → Counts c s' k
    → (s.examined + suc (length k.started) ≤ k.state.examined)
      × ((extra : ℕ)
          → 0 < c.queue_depth
          → s.examined ≤ c.queue_depth + extra
          → k.state.examined ≤ c.queue_depth + extra)
slot-Counts c s s' k free one rest = (
  omega (arith, rest.started),
  λ extra pos le. rest.bounded extra pos (omega (arith, slot_free c s free pos)),
)

rounds-Counts : (c : ScanContext) → Rounds c (λ n q s k. Counts c s k)
unfolding start_job
rounds-Counts c = record {
  stops = λ n q s over. record { started = omega arith; bounded = λ extra pos le. le };
  skips = λ n j q s k no_slot rest. record { started = rest.started; bounded = rest.bounded };
  protects = λ n j q s k r free slot waits given rest.
      let m =
        slot-Counts c s (protect_job c (examining s) j r) k free
          (protect_job-examined c (examining s) j r) rest in
      record { started = omega (arith, m.0); bounded = m.1 };
  begins = λ n j q s k free slot fits here rest.
      let m = slot-Counts c s (start_job c (examining s) j) k free refl rest in
      record { started = m.0; bounded = m.1 };
}

pub scan-Counts :
    (c : ScanContext) (n : ℕ) (q : List JobEntry) (s : ScanState) → Counts c s (scan c n q s)
scan-Counts c = scan_ind c (λ n q s k. Counts c s k) (rounds-Counts c)
