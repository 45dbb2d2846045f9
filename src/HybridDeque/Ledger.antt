-- ===== src/HybridDeque/Ledger.antt =====
-- What a scan takes from the protected plan: the jobs that it starts, and the reservations of the
-- jobs that it protects.
use dr_evt.Base.{
  ℕ, suc, ◌+◌, ◌≤◌, ◌<◌, ◌≡◌, refl, sym, ap, true, false, not, ◌&&◌, Option, none, some, List, [],
  ◌∷◌, ◌++◌, arith, leb, ◌==◌, if◌then◌else◌, length, All, Bool-cases, ◌⊎◌, inl, inr, subst,
}
use dr_evt.Timeline.{Timeline}
use dr_evt.Timeline
use dr_evt.Timeline.Free.{free_at}
use dr_evt.Timeline.Spec.{Fits}
use dr_evt.Scheduler.{SchedulerBase, release_estimate, reservation_within_horizon}
use dr_evt.Deque.{JobEntry}
use dr_evt.Deque.Plan.{holds, usage, IsPlan, reserve-IsPlan, reserve-holds, found-Fits}
use dr_evt.HybridDeque.Backfill.{
  ScanContext, ScanState, place, given_or, protected_start, duration_now, start_job, is_now,
}

-- A reservation: a waiting job, and the time at which it is planned to start.
pub record Claim : Type 0 where
  pub start : ℕ
  pub job : JobEntry

-- What the reservations hold at `t` together.
unfoldable pub claimed : SchedulerBase → ℕ → List Claim → ℕ
claimed b t [] = 0
claimed b t (k ∷ ks) = holds b t k.start k.job + claimed b t ks

-- The reservation of a job whose search had the answer.
unfoldable pub claim_of : SchedulerBase → ℕ → JobEntry → Option ℕ → List Claim
claim_of b now j none = []
claim_of b now j (some r) =
    if reservation_within_horizon b r now then record { start = r; job = j } ∷ [] else []

abbrev pub IsPlanned : SchedulerBase → ℕ → Claim → Type 0
IsPlanned b now k = (now ≤ k.start) × (reservation_within_horizon b k.start now ≡ true)

-- From the state `s` to `s'`, the jobs `started` and the reservations `claims` were planned.
pub record Ledger (c : ScanContext) (s s' : ScanState) (started : List JobEntry)
    (claims : List Claim) : Type 0 where
  pub is_plan : IsPlan c.now s'.protected_plan
  pub balance :
      (t : ℕ)
      → c.now ≤ t
      → free_at s'.protected_plan t + usage c.base t c.now started + claimed c.base t claims
        ≡ free_at s.protected_plan t
  pub counted : s.protected_count + length claims ≡ s'.protected_count
  pub limited :
      0 < c.protected_depth
      → s.protected_count ≤ c.protected_depth
      → s'.protected_count ≤ c.protected_depth
  pub planned : All (IsPlanned c.base c.now) claims

pub refl-Ledger :
    (c : ScanContext) (s : ScanState) → IsPlan c.now s.protected_plan → Ledger c s s [] []
unfolding usage claimed
refl-Ledger c s p = record {
  is_plan = p;
  balance = λ t from. omega arith;
  counted = omega arith;
  limited = λ pos le. le;
  planned = tt;
}

pub usage-append :
    (b : SchedulerBase) (t start : ℕ) (xs ys : List JobEntry)
    → usage b t start (xs ++ ys) ≡ usage b t start xs + usage b t start ys
unfolding usage
usage-append b t start [] ys = omega arith
usage-append b t start (x ∷ xs) ys = omega (arith, usage-append b t start xs ys)

pub claimed-append :
    (b : SchedulerBase) (t : ℕ) (xs ys : List Claim)
    → claimed b t (xs ++ ys) ≡ claimed b t xs + claimed b t ys
unfolding claimed
claimed-append b t [] ys = omega arith
claimed-append b t (x ∷ xs) ys = omega (arith, claimed-append b t xs ys)

-- With no planning grid, an estimate is the requested time wherever the job starts.
pub estimate_same :
    (b : SchedulerBase) (x y run_time : ℕ)
    → b.planning_time_resolution ≡ 0
    → release_estimate b x run_time ≡ release_estimate b y run_time
unfolding release_estimate
estimate_same b x y run_time flat = rw flat refl

module _ (c : ScanContext) (flat : c.base.planning_time_resolution ≡ 0) where
  place-Ledger :
      (s : ScanState) (j : JobEntry) (r : Option ℕ)
      → s.protected_count < c.protected_depth ⊎ (c.protected_depth ≡ 0)
      → protected_start c s j ≡ r
      → IsPlan c.now s.protected_plan
      → Ledger c s (place c s j r) [] (claim_of c.base c.now j r)
  unfolding place usage claimed claim_of protected_start duration_now
  place-Ledger s j none room eq p = refl-Ledger c s p
  place-Ledger s j (some r) room eq p =
      elim (Bool-cases (reservation_within_horizon c.base r c.now)) [
        | inr beyond ↦ rw beyond (refl-Ledger c s p)
        | inl within ↦ rw within (placed within)
      ]
    where
      placed :
          reservation_within_horizon c.base r c.now ≡ true
          → Ledger c s
              (record s {
                protected_count = suc s.protected_count;
                protected_plan =
                    Timeline.reserve s.protected_plan r j.nodes_requested
                      (release_estimate c.base r j.run_time_estimate);
              })
              []
              (record { start = r; job = j } ∷ [])
      placed within =
          let found =
            found-Fits s.protected_plan c.now j.nodes_requested (duration_now c j) r p eq in
          let fits =
            subst (λ d. Fits s.protected_plan j.nodes_requested d r)
              (estimate_same c.base c.now r j.run_time_estimate flat) found.1 in
          record {
            is_plan = reserve-IsPlan c.now r j.nodes_requested _ s.protected_plan found.0 p;
            balance = λ t from.
                omega
                  (arith, reserve-holds c.base c.now r t j s.protected_plan found.0 from p fits);
            counted = omega arith;
            limited = λ pos le. has_room pos room;
            planned = ((found.0, within), tt);
          }
        where
          has_room :
              0 < c.protected_depth
              → s.protected_count < c.protected_depth ⊎ (c.protected_depth ≡ 0)
              → suc s.protected_count ≤ c.protected_depth
          has_room pos r = omega arith

  pub protected-Ledger :
      (s : ScanState) (j : JobEntry) (r : Option ℕ)
      → r ≡ protected_start c s j
      → IsPlan c.now s.protected_plan
      → (not (c.protected_depth == 0) && leb c.protected_depth s.protected_count) ≡ false
      → Ledger c s (place c s j r) [] (claim_of c.base c.now j r)
  protected-Ledger s j r eq p free = place-Ledger s j r (room free) (sym eq) p
    where
      room :
          (not (c.protected_depth == 0) && leb c.protected_depth s.protected_count) ≡ false
          → s.protected_count < c.protected_depth ⊎ (c.protected_depth ≡ 0)
      room h = ground arith

  pub given_or_same :
      (s : ScanState) (j : JobEntry) (r : Option ℕ)
      → (r ≡ none) ⊎ (r ≡ protected_start c s j)
      → given_or r (protected_start c s j) ≡ protected_start c s j
  unfolding given_or
  given_or_same s j r (inl none_given) = rw none_given refl
  given_or_same s j none (inr searched) = refl
  given_or_same s j (some y) (inr searched) = searched

  pub is_now-some : (now : ℕ) (o : Option ℕ) → is_now now o ≡ true → o ≡ some now
  unfolding is_now
  is_now-some now none h = absurd (cc h)
  is_now-some now (some y) h = ap some (ground arith)

  pub start_job-Ledger :
      (s : ScanState) (j : JobEntry)
      → is_now c.now (protected_start c s j) ≡ true
      → IsPlan c.now s.protected_plan
      → Ledger c s (start_job c s j) (j ∷ []) []
  unfolding start_job usage claimed protected_start duration_now
  start_job-Ledger s j here p =
      let found =
        found-Fits s.protected_plan c.now j.nodes_requested (duration_now c j) c.now p
          (is_now-some c.now _ here) in
      record {
        is_plan =
            reserve-IsPlan c.now c.now j.nodes_requested (duration_now c j) s.protected_plan found.0
              p;
        balance = λ t from.
            omega
              (arith, reserve-holds c.base c.now c.now t j s.protected_plan found.0 from p found.1);
        counted = omega arith;
        limited = λ pos le. le;
        planned = tt;
      }
