-- ===== src/HybridDeque/Rounds.antt =====
-- One induction over the rounds of the scan, for a predicate on what the scan makes of a queue and
-- a state.
use dr_evt.Base.{
  ℕ, zero, suc, ◌≤◌, ◌<◌, ◌≡◌, refl, sym, true, false, Option, List, [], ◌∷◌, arith, ltb, ◌==◌, ◌⊎◌,
  inl, inr, Bool-cases, subst,
}
use dr_evt.Deque.{JobEntry}
use dr_evt.HybridDeque.Backfill.{
  ScanContext, ScanState, Scan, stop_scan, pass_entry, start_entry, follow, scan, round, examine,
  protect_job, protected_start, start_job, takes_no_slot, slots_used, is_now,
}

-- The state with one more job examined.
abbrev pub examining : ScanState → ScanState
examining s = record s { examined = suc s.examined }

-- Why the scan ends: there is no entry left to visit, no slot, or no free node.
abbrev pub IsOver : ScanContext → ℕ → List JobEntry → ScanState → Type 0
IsOver c n q s = (n ≡ 0) ⊎ ((q ≡ []) ⊎ ((slots_used c s ≡ true) ⊎ (s.available ≡ 0)))

-- The rounds by what they require of the state and the entry.
pub record Rounds (c : ScanContext) (P : ℕ → List JobEntry → ScanState → Scan → Type 0)
    : Type 0 where
  pub stops : (n : ℕ) (q : List JobEntry) (s : ScanState) → IsOver c n q s → P n q s (stop_scan q s)
  pub skips :
      (n : ℕ) (j : JobEntry) (q : List JobEntry) (s : ScanState) (k : Scan)
      → takes_no_slot c s j ≡ true
      → P n q s k
      → P (suc n) (j ∷ q) s (pass_entry j k)
  pub protects :
      (n : ℕ) (j : JobEntry) (q : List JobEntry) (s : ScanState) (k : Scan) (r : Option ℕ)
      → slots_used c s ≡ false
      → takes_no_slot c s j ≡ false
      → (s.available < j.nodes_requested)
        ⊎ (is_now c.now (protected_start c (examining s) j) ≡ false)
      → (r ≡ Option.none) ⊎ (r ≡ protected_start c (examining s) j)
      → P n q (protect_job c (examining s) j r) k
      → P (suc n) (j ∷ q) s (pass_entry j k)
  pub begins :
      (n : ℕ) (j : JobEntry) (q : List JobEntry) (s : ScanState) (k : Scan)
      → slots_used c s ≡ false
      → takes_no_slot c s j ≡ false
      → j.nodes_requested ≤ s.available
      → is_now c.now (protected_start c (examining s) j) ≡ true
      → P n q (start_job c (examining s) j) k
      → P (suc n) (j ∷ q) s (start_entry j k)

module _ (c : ScanContext) (P : ℕ → List JobEntry → ScanState → Scan → Type 0) (rounds : Rounds c P)
    (n : ℕ) (j : JobEntry) (q : List JobEntry) (s : ScanState) (rest : ScanState → Scan)
    (hyp : (s' : ScanState) → P n q s' (rest s')) where
  follow_examine :
      slots_used c s ≡ false
      → takes_no_slot c s j ≡ false
      → P (suc n) (j ∷ q) s (follow rest j q (examine c (examining s) j))
  unfolding examine follow
  follow_examine free slot = elim (Bool-cases (ltb s.available j.nodes_requested)) [
    | inl short ↦ rw short (
        rounds.protects n j q s _ Option.none free slot (inl (ground (arith, short))) (inl refl)
          (hyp _))
    | inr fits ↦ rw fits (elim (Bool-cases (is_now c.now (protected_start c (examining s) j))) [
      | inr later ↦ rw later (rounds.protects n j q s _ _ free slot (inr later) (inr refl) (hyp _))
      | inl here ↦ rw here (elim (Bool-cases ((start_job c (examining s) j).available == 0)) [
        | inl full ↦ rw full (
            rounds.begins n j q s _ free slot (ground arith) here
              (rounds.stops n q _ (inr (inr (inr (ground (arith, full)))))))
        | inr more ↦ rw more (rounds.begins n j q s _ free slot (ground arith) here (hyp _))
      ])
    ])
  ]

  pub follow_round : P (suc n) (j ∷ q) s (follow rest j q (round c s j))
  unfolding round follow
  follow_round = elim (Bool-cases (takes_no_slot c s j)) [
    | inl no_slot ↦ rw no_slot (rounds.skips n j q s _ no_slot (hyp s))
    | inr slot ↦ rw slot (elim (Bool-cases (slots_used c s)) [
      | inl used ↦ rw used (rounds.stops (suc n) (j ∷ q) s (inr (inr (inl used))))
      | inr free ↦ rw free (follow_examine free slot)
    ])
  ]

scan_step :
    (c : ScanContext) (n : ℕ) (j : JobEntry) (q : List JobEntry) (s : ScanState)
    → scan c (suc n) (j ∷ q) s ≡ follow (scan c n q) j q (round c s j)
unfolding scan
scan_step c n j q s = refl

pub scan_ind :
    (c : ScanContext) (P : ℕ → List JobEntry → ScanState → Scan → Type 0)
    → Rounds c P
    → (n : ℕ) (q : List JobEntry) (s : ScanState) → P n q s (scan c n q s)
scan_ind c P rounds zero q s = unfold scan in rounds.stops zero q s (inl refl)
scan_ind c P rounds (suc n) [] s = unfold scan in rounds.stops (suc n) [] s (inr (inl refl))
scan_ind c P rounds (suc n) (j ∷ q) s =
    subst (P (suc n) (j ∷ q) s) (sym (scan_step c n j q s))
      (follow_round c P rounds n j q s (scan c n q) (λ s'. scan_ind c P rounds n q s'))
