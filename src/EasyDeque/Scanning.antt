-- ===== src/EasyDeque/Scanning.antt =====
-- The backfill scan: which entries it marks, and what it keeps of the queue.
use dr_evt.Base.{
  ℕ, zero, suc, ◌-◌, ◌≤◌, ◌≡◌, sym, true, false, List, [], ◌∷◌, arith, ◌==◌, Bool-cases, inl, inr,
  subst,
}
use dr_evt.Timeline.{Timeline}
use dr_evt.Deque.{JobEntry}
use dr_evt.Deque.Keeps.{ScanKeeps, stop-ScanKeeps, pass-ScanKeeps, start-ScanKeeps}
use dr_evt.EasyDeque.{
  ScanContext, Scan, stop_scan, pass_entry, start_entry, admits, plan_after, preserves_reservations,
  scan,
}

-- The three ways of one round.
module _ (c : ScanContext) (n : ℕ) (plan : Timeline) (available : ℕ) (j : JobEntry)
    (q : List JobEntry) where
  pub scan_passes :
      admits c plan available j ≡ false
      → scan c (suc n) plan available (j ∷ q) ≡ pass_entry j (scan c n plan available q)
  unfolding scan
  scan_passes no_start = rw no_start

  pub scan_fills :
      admits c plan available j ≡ true
      → (available - j.nodes_requested == 0) ≡ true
      → scan c (suc n) plan available (j ∷ q)
        ≡ start_entry j (stop_scan q (plan_after c plan j) (available - j.nodes_requested))
  unfolding scan
  scan_fills start full = rw (start, full)

  pub scan_starts :
      admits c plan available j ≡ true
      → (available - j.nodes_requested == 0) ≡ false
      → scan c (suc n) plan available (j ∷ q)
        ≡ start_entry j (scan c n (plan_after c plan j) (available - j.nodes_requested) q)
  unfolding scan
  scan_starts start more = rw (start, more)

  pub admits_parts :
      admits c plan available j ≡ true
      → (j.removed ≡ false)
        × (j.nodes_requested ≤ available)
        × (preserves_reservations c plan j ≡ true)
  unfolding admits
  admits_parts start = ground arith

-- An induction over the rounds of a scan, for a predicate on what a scan leaves of a queue.
pub record Rounds (c : ScanContext) (P : ℕ → Timeline → ℕ → List JobEntry → Scan → Type 0)
    : Type 0 where
  pub stops :
      (n : ℕ) (plan : Timeline) (available : ℕ) (q : List JobEntry)
      → P n plan available q (stop_scan q plan available)
  pub passes :
      (n : ℕ) (plan : Timeline) (available : ℕ) (j : JobEntry) (q : List JobEntry) (s : Scan)
      → P n plan available q s
      → P (suc n) plan available (j ∷ q) (pass_entry j s)
  pub starts :
      (n : ℕ) (plan : Timeline) (available : ℕ) (j : JobEntry) (q : List JobEntry) (s : Scan)
      → j.removed ≡ false
      → j.nodes_requested ≤ available
      → preserves_reservations c plan j ≡ true
      → P n (plan_after c plan j) (available - j.nodes_requested) q s
      → P (suc n) plan available (j ∷ q) (start_entry j s)

pub scan_ind :
    (c : ScanContext) (P : ℕ → Timeline → ℕ → List JobEntry → Scan → Type 0)
    → Rounds c P
    → (n : ℕ) (plan : Timeline) (available : ℕ) (q : List JobEntry)
    → P n plan available q (scan c n plan available q)
scan_ind c P rounds zero plan available q = unfold scan in rounds.stops zero plan available q
scan_ind c P rounds (suc n) plan available [] =
    unfold scan in rounds.stops (suc n) plan available []
scan_ind c P rounds (suc n) plan available (j ∷ q) = elim (Bool-cases (admits c plan available j)) [
  | inr no_start ↦
      subst (P (suc n) plan available (j ∷ q)) (sym (scan_passes c n plan available j q no_start))
        (rounds.passes n plan available j q _ (scan_ind c P rounds n plan available q))
  | inl start ↦
      let (here, fits, kept) = admits_parts c n plan available j q start in
      let plan' = plan_after c plan j in
      let left = available - j.nodes_requested in
      elim (Bool-cases (left == 0)) [
        | inl full ↦
            subst (P (suc n) plan available (j ∷ q))
              (sym (scan_fills c n plan available j q start full))
              (rounds.starts n plan available j q _ here fits kept (rounds.stops n plan' left q))
        | inr more ↦
            subst (P (suc n) plan available (j ∷ q))
              (sym (scan_starts c n plan available j q start more))
              (rounds.starts n plan available j q _ here fits kept
                (scan_ind c P rounds n plan' left q))
      ]
]

abbrev Keeping : ℕ → Timeline → ℕ → List JobEntry → Scan → Type 0
Keeping n plan available q s = ScanKeeps n available q s.queue s.started s.available

rounds-ScanKeeps : (c : ScanContext) → Rounds c Keeping
unfolding stop_scan
rounds-ScanKeeps c = record {
  stops = λ n plan available q. stop-ScanKeeps n available q;
  passes = λ n plan available j q s. pass-ScanKeeps n available j q s.queue s.started s.available;
  starts = λ n plan available j q s here fits kept.
      start-ScanKeeps n available j q s.queue s.started s.available here fits;
}

pub scan-ScanKeeps :
    (c : ScanContext) (n : ℕ) (plan : Timeline) (available : ℕ) (q : List JobEntry)
    → Keeping n plan available q (scan c n plan available q)
scan-ScanKeeps c = scan_ind c Keeping (rounds-ScanKeeps c)
