-- ===== src/HybridDeque/Agrees.antt =====
-- The two plans of the scan of FCFSHybridDequeScheduler::schedule
-- (src/sim/scheduler_fcfs_hybrid_deque.cpp) are what the books of the walk leave.
use dr_evt.Base.{
  ℕ, zero, suc, ◌+◌, ◌-◌, ◌≤◌, ◌<◌, ◌≡◌, refl, sym, ◌∙◌, ap, subst, true, false, not, ◌&&◌, ◌||◌,
  Option, none, some, List, [], ◌∷◌, ◌++◌, arith, ltb, leb, ◌==◌, length, length-append, All,
  Bool-cases, ◌⊎◌, inl, inr,
}
use dr_evt.Timeline.{Timeline}
use dr_evt.Timeline
use dr_evt.Timeline.Free.{free_at}
use dr_evt.Timeline.Spec.{Fits, IsEarliest}
use dr_evt.Timeline.Fit.{IsFirstPoint, earliest_fit-IsEarliest, earliest_fit-IsFirstPoint}
use dr_evt.Scheduler.{reservation_within_horizon}
use dr_evt.Deque.{JobEntry}
use dr_evt.Deque.Invariant.{All-append}
use dr_evt.Deque.Plan.{usage, IsPlan, reserve-IsPlan, reserve-holds, found-Fits}
use dr_evt.HybridDeque.Backfill.{
  ScanContext, ScanState, protect_job, place, protected_start, duration_now, start_job, is_now,
}
use dr_evt.HybridDeque.Rounds.{examining}
use dr_evt.HybridDeque.Ledger.{
  Claim, claimed, claim_of, IsPlanned, Ledger, usage-append, claimed-append, protected-Ledger,
  given_or_same, is_now-some, start_job-Ledger,
}
use dr_evt.HybridDeque.Walk.{Books, IsFirst, unreserved, unclaimed, reserved, Walk}

-- Any search on a plan finds the first time at which what the plan shows has room.
module _ (now : ℕ) (plan : Timeline) (p : IsPlan now plan) (room : ℕ → ℕ)
    (view : (t : ℕ) → now ≤ t → free_at plan t ≡ room t) (nodes : ℕ) where
  IsFirst-of_point : (o : Option ℕ) → IsFirstPoint plan nodes now o → IsFirst now room nodes 0 o
  IsFirst-of_point none h =
      λ x from. (x, omega arith, omega arith, omega (arith, view x from, h x from))
  IsFirst-of_point (some y) (from_now, enough, first) = (
    from_now,
    λ t at within.
        let same : t ≡ y = omega (arith, at, within) in
        subst (λ i. nodes ≤ room i) (sym same) (omega (arith, view y from_now, enough)),
    λ x from before. (x, omega arith, omega arith, omega (arith, view x from, first x from before)),
  )

  IsFirst-of_earliest :
      (d : ℕ) (o : Option ℕ)
      → IsEarliest plan nodes (suc d) now o
      → IsFirst now room nodes (suc d) o
  IsFirst-of_earliest d none h = λ x from.
      let (t, at, within, few) = h x from in
      (t, at, omega (arith, within), omega (arith, view t (omega (arith, at, from)), few))
  IsFirst-of_earliest d (some y) (from_now, fits, first) = (
    from_now,
    λ t at within.
        omega (arith, view t (omega (arith, at, from_now)), fits t at (omega (arith, within))),
    λ x from before.
        let (t, at, within, few) = first x from before in
        (t, at, omega (arith, within), omega (arith, view t (omega (arith, at, from)), few)),
  )

  pub earliest_fit-IsFirst :
      (duration : ℕ)
      → IsFirst now room nodes duration (Timeline.earliest_fit plan nodes duration now)
  earliest_fit-IsFirst zero =
      IsFirst-of_point _
        (earliest_fit-IsFirstPoint plan nodes now p.sorted (p.begun now (omega arith)))
  earliest_fit-IsFirst (suc d) = IsFirst-of_earliest d _ (
      earliest_fit-IsEarliest plan nodes (suc d) now p.sorted (p.begun now (omega arith))
        (omega arith))

module _ (c : ScanContext) (flat : c.base.planning_time_resolution ≡ 0) (supply : ℕ → ℕ) where
  -- The plans show what the books leave.
  pub record Agrees (s : ScanState) (bk : Books) : Type 0 where
    pub protected : IsPlan c.now s.protected_plan
    pub available : IsPlan c.now s.availability_plan
    pub balance :
        (t : ℕ)
        → c.now ≤ t
        → free_at s.protected_plan t + usage c.base t c.now bk.starts + claimed c.base t bk.claims
          ≡ supply t
    pub leftover :
        (t : ℕ)
        → c.now ≤ t
        → free_at s.availability_plan t + usage c.base t c.now bk.starts ≡ supply t
    pub counted : s.protected_count ≡ length bk.claims
    pub slots : s.examined ≡ bk.slots
    pub free : s.available ≡ bk.free
    pub limited : 0 < c.protected_depth → length bk.claims ≤ c.protected_depth
    pub planned : All (IsPlanned c.base c.now) bk.claims

  abbrev Walks : ℕ → List JobEntry → Books → Books → Type 0
  Walks = Walk c.base c.now c.protected_depth c.queue_depth supply

  abbrev reserves_for : Books → JobEntry → Option ℕ → Books
  reserves_for = reserved c.base c.now c.protected_depth c.queue_depth supply

  abbrev left_by : Books → ℕ → ℕ
  left_by = unclaimed c.base c.now c.protected_depth c.queue_depth supply

  abbrev left_by_starts : Books → ℕ → ℕ
  left_by_starts = unreserved c.base c.now c.protected_depth c.queue_depth supply

  pub Agrees-examining :
      (s : ScanState) (bk : Books)
      → Agrees s bk
      → Agrees (examining s) (record bk { slots = suc bk.slots })
  Agrees-examining s bk a = record {
    protected = a.protected;
    available = a.available;
    balance = a.balance;
    leftover = a.leftover;
    counted = a.counted;
    slots = ap suc a.slots;
    free = a.free;
    limited = a.limited;
    planned = a.planned;
  }

  -- Reservations were entered.
  Agrees-claims :
      (s s' : ScanState) (bk : Books) (k : List Claim)
      → Ledger c s s' [] k
      → s'.availability_plan ≡ s.availability_plan
      → s'.examined ≡ s.examined
      → s'.available ≡ s.available
      → Agrees s bk
      → Agrees s' (record bk { claims = bk.claims ++ k })
  unfolding usage
  Agrees-claims s s' bk k l same_plan same_slots same_free a = record {
    protected = l.is_plan;
    available = subst (IsPlan c.now) (sym same_plan) a.available;
    balance = λ t from.
        omega (arith, l.balance t from, a.balance t from, claimed-append c.base t bk.claims k);
    leftover = λ t from. omega (arith, a.leftover t from, ap (λ p. free_at p t) same_plan);
    counted = sym l.counted ∙ ap (λ n. n + length k) a.counted ∙ sym (length-append bk.claims k);
    slots = same_slots ∙ a.slots;
    free = same_free ∙ a.free;
    limited = λ pos. omega (
      arith,
      l.limited pos (omega (arith, a.counted, a.limited pos)),
      l.counted,
      a.counted,
      length-append bk.claims k,
    );
    planned = All-append (IsPlanned c.base c.now) bk.claims k a.planned l.planned;
  }

  place_same :
      (s : ScanState) (j : JobEntry) (r : Option ℕ)
      → ((place c s j r).availability_plan ≡ s.availability_plan)
        × ((place c s j r).examined ≡ s.examined)
        × ((place c s j r).available ≡ s.available)
  unfolding place
  place_same s j none = (refl, refl, refl)
  place_same s j (some r) = elim (Bool-cases (reservation_within_horizon c.base r c.now)) [
    | inl within ↦ rw within (refl, refl, refl)
    | inr beyond ↦ rw beyond (refl, refl, refl)
  ]

  -- A job that does not start is reserved the answer of its search.
  pub protect_job-Agrees :
      (s : ScanState) (bk : Books) (j : JobEntry) (r : Option ℕ)
      → (r ≡ none) ⊎ (r ≡ protected_start c s j)
      → Agrees s bk
      → Agrees (protect_job c s j r) (reserves_for bk j (protected_start c s j))
  unfolding protect_job
  protect_job-Agrees s bk j r given a =
      elim (Bool-cases (not (c.protected_depth == 0) && leb c.protected_depth s.protected_count)) [
        | inl used ↦
            let closed : (c.protected_depth == 0 || ltb (length bk.claims) c.protected_depth)
                ≡ false =
              ground (arith, used, a.counted) in
            rw (used, closed) a
        | inr room ↦
            let opened : (c.protected_depth == 0 || ltb (length bk.claims) c.protected_depth)
                ≡ true =
              ground (arith, room, a.counted) in
            let o = protected_start c s j in
            let same = place_same s j o in
            rw (room, opened)
              (subst
                (λ x.
                  Agrees (place c s j x)
                    (record bk { claims = bk.claims ++ claim_of c.base c.now j o }))
                (sym (given_or_same c flat s j r given))
                (Agrees-claims s (place c s j o) bk (claim_of c.base c.now j o)
                  (protected-Ledger c flat s j o refl a.protected room) same.0 same.1 same.2 a))
      ]

  -- A job starts: both plans give its nodes.
  pub start_job-Agrees :
      (s : ScanState) (bk : Books) (j : JobEntry)
      → is_now c.now (protected_start c s j) ≡ true
      → Agrees s bk
      → Agrees
          (start_job c s j)
          (record bk { starts = bk.starts ++ j ∷ []; free = bk.free - j.nodes_requested })
  unfolding start_job usage claimed protected_start duration_now
  start_job-Agrees s bk j here a =
      let l = start_job-Ledger c flat s j here a.protected in
      let found =
        found-Fits s.protected_plan c.now j.nodes_requested (duration_now c j) c.now a.protected
          (is_now-some c flat c.now _ here) in
      let fits : Fits s.availability_plan j.nodes_requested (duration_now c j) c.now =
        λ t at within. omega (arith, found.1 t at within, a.balance t at, a.leftover t at) in
      record {
        protected = l.is_plan;
        available =
            reserve-IsPlan c.now c.now j.nodes_requested (duration_now c j) s.availability_plan
              found.0 a.available;
        balance = λ t from. omega (
          arith,
          l.balance t from,
          a.balance t from,
          usage-append c.base t c.now bk.starts (j ∷ []),
        );
        leftover = λ t from. omega (
          arith,
          a.leftover t from,
          usage-append c.base t c.now bk.starts (j ∷ []),
          reserve-holds c.base c.now c.now t j s.availability_plan found.0 from a.available fits,
        );
        counted = a.counted;
        slots = a.slots;
        free = ap (λ n. n - j.nodes_requested) a.free;
        limited = a.limited;
        planned = a.planned;
      }

  pub search_near :
      (s : ScanState) (bk : Books) (j : JobEntry)
      → Agrees s bk
      → IsFirst c.now
          (left_by_starts bk)
          j.nodes_requested
          0
          (Timeline.earliest_fit s.availability_plan j.nodes_requested 0 c.now)
  search_near s bk j a =
      earliest_fit-IsFirst c.now s.availability_plan a.available (left_by_starts bk)
        (λ t from. omega (arith, a.leftover t from)) j.nodes_requested 0

  pub search_start :
      (s : ScanState) (bk : Books) (j : JobEntry)
      → Agrees s bk
      → IsFirst c.now (left_by bk) j.nodes_requested (duration_now c j) (protected_start c s j)
  unfolding protected_start
  search_start s bk j a =
      earliest_fit-IsFirst c.now s.protected_plan a.protected (left_by bk)
        (λ t from. omega (arith, a.balance t from)) j.nodes_requested (duration_now c j)
