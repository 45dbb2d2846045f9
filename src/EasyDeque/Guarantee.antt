-- ===== src/EasyDeque/Guarantee.antt =====
-- The EASY guarantee: whatever the scan starts, the nodes of the head's planned interval stay free.
use mathlib.Core.List.{append-nil}
use dr_evt.Base.{
  Option, none, some, ℕ, ◌+◌, ◌-◌, ◌≤◌, ◌≡◌, refl, sym, ap, true, false, List, [], ◌∷◌, ◌++◌, arith,
  ◌==◌, Bool-cases, inl, inr, subst, ==_iff,
}
use dr_evt.Timeline.{Timeline}
use dr_evt.Timeline
use dr_evt.Timeline.Free.{free_at}
use dr_evt.Timeline.Spec.{Fits}
use dr_evt.Timeline.Fit.{IsFirstPoint, earliest_fit-IsFirstPoint}
use dr_evt.Scheduler.{
  value_or_max, max_time, reservation_within_horizon, SchedulerBase, RunningJobs, release_estimate,
  reservation_timeline,
}
use dr_evt.Scheduler.Project.{timeline-IsSorted, timeline-StartsBy, timeline-IsUnsigned}
use dr_evt.Deque.{JobEntry, Heads, queue_depth_scan_end}
use dr_evt.Deque.Plan.{holds, usage, IsPlan, reserve-IsPlan, reserve-holds, can_fit→Fits}
use dr_evt.EasyDeque.{
  EasyDeque, ScanContext, Scan, stop_scan, start_entry, plan_after, preserves_reservations, scan,
  scan_behind, backfill, head_reservation, context, protected_plan,
}
use dr_evt.EasyDeque.Scanning.{Rounds, scan_ind}

-- The plan that a scan leaves, and what the jobs that it started hold.
pub record ScanHolds (c : ScanContext) (plan : Timeline) (s : Scan) : Type 0 where
  pub is_plan : IsPlan c.now s.plan
  pub balance :
      (t : ℕ) → c.now ≤ t → free_at s.plan t + usage c.base t c.now s.started ≡ free_at plan t

preserves_can_fit :
    (c : ScanContext) (plan : Timeline) (j : JobEntry)
    → c.within ≡ true
    → preserves_reservations c plan j ≡ true
    → Timeline.can_fit plan c.now j.nodes_requested
        (release_estimate c.base c.now j.run_time_estimate)
      ≡ true
unfolding preserves_reservations
preserves_can_fit c plan j within h = ground arith

plan_after_within :
    (c : ScanContext) (plan : Timeline) (j : JobEntry)
    → c.within ≡ true
    → plan_after c plan j
      ≡ Timeline.reserve plan c.now j.nodes_requested
          (release_estimate c.base c.now j.run_time_estimate)
unfolding plan_after
plan_after_within c plan j within = rw within

abbrev Holding : ScanContext → Timeline → Scan → Type 0
Holding c plan s = IsPlan c.now plan → ScanHolds c plan s

starts-Holding :
    (c : ScanContext) (plan : Timeline) (j : JobEntry) (s : Scan)
    → c.within ≡ true
    → preserves_reservations c plan j ≡ true
    → Holding c (plan_after c plan j) s
    → Holding c plan (start_entry j s)
unfolding usage
starts-Holding c plan j s within kept rest p =
    let fits =
      can_fit→Fits plan c.now j.nodes_requested _ p.sorted (p.begun c.now (omega arith))
        (preserves_can_fit c plan j within kept) in
    let after = plan_after_within c plan j within in
    let k = rest (
      subst (IsPlan c.now) (sym after)
        (reserve-IsPlan c.now c.now j.nodes_requested _ plan (omega arith) p)) in
    record {
      is_plan = k.is_plan;
      balance = λ t from.
          let one = reserve-holds c.base c.now c.now t j plan (omega arith) from p fits in
          let both = k.balance t from in
          let moved = ap (λ l. free_at l t) after in omega (arith, one, both, moved);
    }

rounds-Holding :
    (c : ScanContext) → c.within ≡ true → Rounds c (λ n plan available q s. Holding c plan s)
unfolding stop_scan usage
rounds-Holding c within = record {
  stops = λ n plan available q p. record { is_plan = p; balance = λ t from. omega arith };
  passes = λ n plan available j q s rest p.
      let k = rest p in record { is_plan = k.is_plan; balance = k.balance };
  starts = λ n plan available j q s here fits kept rest. starts-Holding c plan j s within kept rest;
}

-- With the head within the planning horizon, the free nodes of the plan at every time from `now` on
-- are those that the scan leaves plus those that the jobs it started hold.
scan-ScanHolds :
    (c : ScanContext) (n : ℕ) (plan : Timeline) (available : ℕ) (q : List JobEntry)
    → c.within ≡ true
    → IsPlan c.now plan
    → ScanHolds c plan (scan c n plan available q)
scan-ScanHolds c n plan available q within p =
    scan_ind c (λ n plan available q s. Holding c plan s) (rounds-Holding c within) n plan available
      q p

within_not_max :
    (b : SchedulerBase) (r now : ℕ)
    → reservation_within_horizon b r now ≡ true
    → (r == max_time) ≡ false
unfolding reservation_within_horizon
within_not_max b r now h = ground arith

-- A reservation within the horizon is one that the search found.
pub reservation_found :
    (b : SchedulerBase) (plan : Timeline) (now : ℕ) (head : JobEntry)
    → IsPlan now plan
    → reservation_within_horizon b (head_reservation plan now head) now ≡ true
    → (now ≤ head_reservation plan now head)
      × (head.nodes_requested ≤ free_at plan (head_reservation plan now head))
unfolding head_reservation value_or_max
reservation_found b plan now head p within =
    of_result (Timeline.earliest_fit plan head.nodes_requested 0 now)
      (earliest_fit-IsFirstPoint plan head.nodes_requested now p.sorted (p.begun now (omega arith)))
      within
  where
    of_result :
        (o : Option ℕ)
        → IsFirstPoint plan head.nodes_requested now o
        → reservation_within_horizon b (value_or_max o) now ≡ true
        → (now ≤ value_or_max o) × (head.nodes_requested ≤ free_at plan (value_or_max o))
    of_result none first within = absurd (no_max within)
      where
        no_max : reservation_within_horizon b max_time now ≡ true → ⊥
        no_max h = cc (within_not_max b max_time now h, (==_iff max_time max_time).1 refl)
    of_result (some y) first within = (first.0, first.1)

protected_within :
    (c : ScanContext) (plan : Timeline) (r : ℕ) (head : JobEntry)
    → c.within ≡ true
    → protected_plan c plan r head
      ≡ Timeline.reserve plan r head.nodes_requested
          (release_estimate c.base r head.run_time_estimate)
unfolding protected_plan
protected_within c plan r head within = rw within

module _ (e : EasyDeque) (h : Heads) (running : RunningJobs) (now : ℕ) (head : JobEntry)
    (rest : List JobEntry) where
  abbrev pub projection : Timeline
  projection = reservation_timeline e.base h.available running now h.projected

  pub projection-IsPlan : IsPlan now projection
  projection-IsPlan = record {
    sorted = timeline-IsSorted e.base h.available running now h.projected;
    begun = timeline-StartsBy e.base h.available running now h.projected;
    small = timeline-IsUnsigned e.base h.available running now h.projected;
  }

  abbrev pub reserved : ℕ
  reserved = head_reservation projection now head

  -- The head's interval, and what the jobs behind it hold if they start now.
  abbrev pub Guarantees : List JobEntry → Type 0
  Guarantees backfilled =
      (t : ℕ)
      → now ≤ t
      → holds e.base t reserved head + usage e.base t now backfilled ≤ free_at projection t

  abbrev visits : ScanContext → ℕ
  visits c =
      queue_depth_scan_end (head ∷ rest) 1 e.deque.eligible_end_idx e.backfill_queue_depth c.within
      - 1

  -- Where the head's reservation lies within the planning horizon and its whole interval fits the
  -- projection, the jobs that the pass starts behind the head leave that interval free: at every
  -- time from `now` on, the projection has the nodes of the head, if its planned interval covers
  -- the time, and those of every job started behind it that still runs by its estimate.
  pub backfill_guarantee :
      reservation_within_horizon e.base reserved now ≡ true
      → Fits projection head.nodes_requested
          (release_estimate e.base reserved head.run_time_estimate)
          reserved
      → (backfilled : List JobEntry) × ((backfill e h running now (head ∷ rest)).1
          ≡ h.started ++ backfilled)
        × Guarantees backfilled
  unfolding backfill scan_behind context usage
  backfill_guarantee within fits =
      let c = context e.base now reserved in
      let le = (reservation_found e.base projection now head projection-IsPlan within).0 in
      let head_holds = λ (t : ℕ) (from : now ≤ t).
        reserve-holds e.base now reserved t head projection le from projection-IsPlan fits in
      elim (Bool-cases (h.available == 0)) [
        | inl none_free ↦ (
          [],
          rw none_free (sym (append-nil h.started)),
          λ t from. omega (arith, head_holds t from),
        )
        | inr some_free ↦
            let planned = protected_within c projection reserved head within in
            let scanned =
              scan-ScanHolds c (visits c) (protected_plan c projection reserved head) h.available
                rest within
                (subst (IsPlan now) (sym planned) (
                  reserve-IsPlan now reserved head.nodes_requested _ projection le
                    projection-IsPlan)) in
            (
              (scan c (visits c) (protected_plan c projection reserved head) h.available
                  rest).started,
              rw some_free refl,
              λ t from.
                  omega (
                    arith,
                    head_holds t from,
                    scanned.balance t from,
                    ap (λ l. free_at l t) planned,
                  ),
            )
      ]
