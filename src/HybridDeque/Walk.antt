-- ===== src/HybridDeque/Walk.antt =====
-- What a conservative or hybrid pass promises, told without its plans: the walk of `schedule`
-- (src/sim/scheduler_fcfs_hybrid_deque.cpp) over the jobs behind the blocked head.
use dr_evt.Base.{
  ℕ, suc, ◌+◌, ◌-◌, ◌≤◌, ◌<◌, ◌≡◌, ◌≢◌, max, Bool, true, false, ◌||◌, Option, none, some, List, [],
  ◌∷◌, ◌++◌, ltb, ◌==◌, if◌then◌else◌, length, ◌⊎◌,
}
use dr_evt.Scheduler.{SchedulerBase, release_estimate, reservation_within_horizon, value_or_max}
use dr_evt.Scheduler.Policy.{BackfillPolicy}
use dr_evt.Deque.{JobEntry}
use dr_evt.Deque.Plan.{usage}
use dr_evt.HybridDeque.Ledger.{Claim, claimed, claim_of}

-- How many jobs a policy promises a reservation, where 0 is no limit: conservative backfilling
-- promises one to every job, hybrid backfilling to as many as the reservation depth.
abbrev pub promised_depth : BackfillPolicy → ℕ → ℕ
promised_depth BackfillPolicy.conservative depth = 0
promised_depth BackfillPolicy.hybrid depth = depth
promised_depth BackfillPolicy.easy depth = 0
promised_depth BackfillPolicy.no_backfill depth = 0

-- What a pass has done so far: the jobs that it starts now, the reservations, the jobs examined,
-- and the free nodes left.
pub record Books : Type 0 where
  pub starts : List JobEntry
  pub claims : List Claim
  pub slots : ℕ
  pub free : ℕ

-- The answer is the first time from `now` on at which there is room for the nodes throughout the
-- duration, and at the time itself where the duration is 0; or there is none.
abbrev pub IsRoom : (ℕ → ℕ) → ℕ → ℕ → ℕ → Type 0
IsRoom room nodes duration x = (t : ℕ) → x ≤ t → t < x + max 1 duration → nodes ≤ room t

abbrev pub IsShort : (ℕ → ℕ) → ℕ → ℕ → ℕ → Type 0
IsShort room nodes duration x = (t : ℕ) × (x ≤ t) × (t < x + max 1 duration) × (room t < nodes)

abbrev pub IsFirst : ℕ → (ℕ → ℕ) → ℕ → ℕ → Option ℕ → Type 0
IsFirst now room nodes duration none = (x : ℕ) → now ≤ x → IsShort room nodes duration x
IsFirst now room nodes duration (some y) =
    (now ≤ y)
    × IsRoom room nodes duration y
    × ((x : ℕ) → now ≤ x → x < y → IsShort room nodes duration x)

-- On a machine that has `supply t` nodes at `t` for the queue, a pass at `now` that reserves for at
-- most `limit` jobs and examines at most `depth`, where 0 is no limit.
module _ (b : SchedulerBase) (now limit depth : ℕ) (supply : ℕ → ℕ) where
  -- The nodes left by the jobs that start now; and by the reservations as well.
  abbrev pub unreserved : Books → ℕ → ℕ
  unreserved bk t = supply t - usage b t now bk.starts

  abbrev pub unclaimed : Books → ℕ → ℕ
  unclaimed bk t = supply t - (usage b t now bk.starts + claimed b t bk.claims)

  abbrev pub duration_of : JobEntry → ℕ
  duration_of j = release_estimate b now j.run_time_estimate

  abbrev pub is_open : Books → Bool
  is_open bk = limit == 0 || ltb (length bk.claims) limit

  -- The job gets a reservation for the answer of its search, while there are any left to give.
  abbrev pub reserved : Books → JobEntry → Option ℕ → Books
  reserved bk j o =
      if is_open bk then record bk { claims = bk.claims ++ claim_of b now j o } else bk

  abbrev pub with_slot : Books → Books
  with_slot bk = record bk { slots = suc bk.slots }

  abbrev pub with_start : Books → JobEntry → Books
  with_start bk j = record bk { starts = bk.starts ++ j ∷ []; free = bk.free - j.nodes_requested }

  -- Whether the nodes are ever left by what runs, and within the horizon: then the job is `near`.
  abbrev pub IsNear : Books → JobEntry → Bool → Type 0
  IsNear bk j near =
      (o : Option ℕ) × IsFirst now (unreserved bk) j.nodes_requested 0 o
      × (reservation_within_horizon b (value_or_max o) now ≡ near)

  -- Jobs that started and jobs that are not near are passed over and take no slot.
  abbrev pub IsPassed : Books → JobEntry → Type 0
  IsPassed bk j = (j.removed ≡ true) ⊎ IsNear bk j false

  abbrev pub IsExamined : Books → JobEntry → Type 0
  IsExamined bk j = (j.removed ≡ false) × IsNear bk j true × ((depth ≡ 0) ⊎ (bk.slots < depth))

  -- The walk ends behind the eligible jobs, when the slots are used, and when no node is free.
  abbrev pub IsDone : ℕ → List JobEntry → Books → Type 0
  IsDone n q bk = (n ≡ 0) ⊎ ((q ≡ []) ⊎ (((0 < depth) × (depth ≤ bk.slots)) ⊎ (bk.free ≡ 0)))

  -- The walk over the first `n` jobs of a queue. A job starts if there is room for it from `now`
  -- on, beside all that start and all reservations; each other job examined is
  -- reserved its earliest start beside them.
  pub data Walk : ℕ → List JobEntry → Books → Books → Type 0 where
    ends : {n : ℕ} {q : List JobEntry} {bk : Books} → IsDone n q bk → Walk n q bk bk
    passes_by :
        {n : ℕ} {j : JobEntry} {q : List JobEntry} {bk bk' : Books}
        → IsPassed bk j
        → Walk n q bk bk'
        → Walk (suc n) (j ∷ q) bk bk'
    starts_now :
        {n : ℕ} {j : JobEntry} {q : List JobEntry} {bk bk' : Books}
        → IsExamined bk j
        → j.nodes_requested ≤ bk.free
        → IsFirst now (unclaimed bk) j.nodes_requested (duration_of j) (some now)
        → Walk n q (with_start (with_slot bk) j) bk'
        → Walk (suc n) (j ∷ q) bk bk'
    reserves :
        {n : ℕ} {j : JobEntry} {q : List JobEntry} {bk bk' : Books} {o : Option ℕ}
        → IsExamined bk j
        → (bk.free < j.nodes_requested) ⊎ (o ≢ some now)
        → IsFirst now (unclaimed bk) j.nodes_requested (duration_of j) o
        → Walk n q (reserved (with_slot bk) j o) bk'
        → Walk (suc n) (j ∷ q) bk bk'
