-- ===== src/HybridDeque/Guarantee.antt =====
-- The guarantee of conservative and hybrid backfilling (`schedule`,
-- src/sim/scheduler_fcfs_hybrid_deque.cpp): which jobs a pass starts behind the blocked head and
-- which it reserves nodes for, and that it leaves every reservation its nodes.
use dr_evt.Base.{
  ℕ, ◌+◌, ◌-◌, ◌≤◌, ◌<◌, ◌≡◌, refl, sym, ◌∙◌, ap, false, Option, none, List, [], ◌∷◌, ◌++◌, arith,
  ◌==◌, length, All, inl, subst,
}
use dr_evt.Timeline.{Timeline}
use dr_evt.Timeline
use dr_evt.Timeline.Free.{free_at}
use dr_evt.Scheduler.{
  RunningJobs, release_estimate, reservation_timeline, calculate_fcfs_reservation,
}
use dr_evt.Scheduler.Policy.{BackfillPolicy}
use dr_evt.Scheduler.Project.{timeline-IsSorted, timeline-StartsBy, timeline-IsUnsigned}
use dr_evt.Deque.{JobEntry, Heads}
use dr_evt.Deque.Plan.{usage, IsPlan}
use dr_evt.HybridDeque.{
  HybridDeque, context, backfill, scan_behind, head_protected, first_state, begin_timestamp,
  account_head, with_reservation, protected_depth,
}
use dr_evt.HybridDeque.Backfill.{ScanContext, Scan, scan, protected_start, duration_now}
use dr_evt.HybridDeque.Correct.{accounted-deque}
use dr_evt.HybridDeque.Ledger.{claimed, IsPlanned}
use dr_evt.HybridDeque.Walk.{Books, IsFirst, reserved, Walk, promised_depth}
use dr_evt.HybridDeque.Agrees.{Agrees, earliest_fit-IsFirst, protect_job-Agrees}
use dr_evt.HybridDeque.Follow.{reserved_starts, scan-Follows}

-- The source protects as many jobs as the policy promises.
protected-promised :
    (policy : BackfillPolicy) (depth : ℕ)
    → protected_depth policy depth ≡ promised_depth policy depth
unfolding protected_depth
protected-promised BackfillPolicy.easy depth = refl
protected-promised BackfillPolicy.conservative depth = refl
protected-promised BackfillPolicy.no_backfill depth = refl
protected-promised BackfillPolicy.hybrid depth = refl

-- The scan behind the head, from the state in which the head is protected.
abbrev scan_of : ScanContext → HybridDeque → ℕ → Timeline → JobEntry → List JobEntry → Scan
scan_of c e available plan head rest =
    scan c (e.deque.eligible_end_idx - 1) rest (head_protected c e available plan head)

module _ (e : HybridDeque) (h : Heads) (running : RunningJobs) (now : ℕ) (head : JobEntry)
    (rest : List JobEntry) where
  abbrev pub projection : Timeline
  projection = reservation_timeline e.base h.available running now h.projected

  projection-IsPlan : IsPlan now projection
  projection-IsPlan = record {
    sorted = timeline-IsSorted e.base h.available running now h.projected;
    begun = timeline-StartsBy e.base h.available running now h.projected;
    small = timeline-IsUnsigned e.base h.available running now h.projected;
  }

  -- The members when the scan begins.
  abbrev accounted : HybridDeque
  accounted =
      let reservation =
        calculate_fcfs_reservation e.base head.nodes_requested h.available running now
          h.projected in
      account_head (begin_timestamp (with_reservation e reservation) now) reservation now

  -- Nothing has started yet, and nothing is reserved.
  abbrev pub first_books : Books
  first_books = record {
    starts = [];
    claims = [];
    slots = accounted.backfill_depth_examined;
    free = h.available;
  }

  -- What the pass starts behind the head, and the reservations that it makes, with at most `limit`
  -- reservations unless that is 0.
  pub record Guarantees (limit : ℕ) (books : Books) : Type 0 where
    pub started : (backfill e h running now (head ∷ rest)).1 ≡ h.started ++ books.starts
    pub room :
        (t : ℕ)
        → now ≤ t
        → usage e.base t now books.starts + claimed e.base t books.claims ≤ free_at projection t
    pub head_start : Option ℕ
    pub head_first :
        IsFirst now
          (free_at projection)
          head.nodes_requested
          (release_estimate e.base now head.run_time_estimate)
          head_start
    pub walk :
        Walk e.base now limit e.backfill_queue_depth
          (free_at projection)
          (e.deque.eligible_end_idx - 1)
          rest
          (reserved e.base now limit e.backfill_queue_depth
            (free_at projection)
            first_books
            head
            head_start)
          books
    pub planned : All (IsPlanned e.base now) books.claims
    pub limited : 0 < limit → length books.claims ≤ limit

  abbrev ctx : ScanContext
  ctx = record {
    base = e.base;
    now = now;
    protected_depth = promised_depth e.base.backfill_policy e.reservation_depth;
    queue_depth = e.backfill_queue_depth;
  }

  context-promised : context e now ≡ ctx
  unfolding context
  context-promised =
      ap (λ n. record ctx { protected_depth = n })
        (protected-promised e.base.backfill_policy e.reservation_depth)

  first-Agrees :
      (flat : e.base.planning_time_resolution ≡ 0)
      → Agrees ctx flat
          (free_at projection)
          (first_state accounted h.available projection)
          first_books
  unfolding first_state usage claimed
  first-Agrees flat = record {
    protected = projection-IsPlan;
    available = projection-IsPlan;
    balance = λ t from. omega arith;
    leftover = λ t from. omega arith;
    counted = refl;
    slots = refl;
    free = refl;
    limited = λ pos. omega arith;
    planned = tt;
  }

  abbrev start_of_head : Option ℕ
  start_of_head =
      Timeline.earliest_fit projection head.nodes_requested
        (release_estimate e.base now head.run_time_estimate) now

  head-Agrees :
      (flat : e.base.planning_time_resolution ≡ 0)
      → Agrees ctx flat
          (free_at projection)
          (head_protected ctx accounted h.available projection head)
          (reserved e.base now ctx.protected_depth e.backfill_queue_depth
            (free_at projection)
            first_books
            head
            start_of_head)
  unfolding head_protected protected_start duration_now first_state
  head-Agrees flat =
      protect_job-Agrees ctx flat (free_at projection)
        (first_state accounted h.available projection) first_books head none (inl refl)
        (first-Agrees flat)

  accounted_index : accounted.deque.eligible_end_idx ≡ e.deque.eligible_end_idx
  accounted_index = ap (λ d. d.eligible_end_idx) (accounted-deque _ now _)

  -- On a pass that finds free nodes behind the jobs started from the front, and with no planning
  -- grid: the pass starts and reserves exactly as the walk over the eligible jobs behind the head
  -- does. The head has the first reservation, at the earliest start at which the projection has
  -- its nodes throughout. In the order of the queue, until the slots or the free nodes are used
  -- up, each job behind it is examined that is not marked as removed and for which the projection,
  -- less the jobs started, has the nodes at some time within the horizon. Such a job starts if it
  -- fits the free nodes and its nodes are there from now on beside all jobs started and all
  -- reservations; else it is reserved its earliest start beside those, unless that is beyond the
  -- horizon. The reservations are at most as many as the policy promises: without limit for
  -- conservative backfilling, the reservation depth for hybrid. The projection has, at every time
  -- from now on, the nodes of every job started behind the head that still runs by its estimate
  -- and those of every reservation that covers the time; and every reservation starts within the
  -- horizon, from now on.
  pub reservations_hold :
      e.base.planning_time_resolution ≡ 0
      → (h.available == 0) ≡ false
      → (books : Books) × Guarantees
          (promised_depth e.base.backfill_policy e.reservation_depth)
          books
  unfolding backfill scan_behind
  reservations_hold flat some_free =
      let head_books =
        reserved e.base now ctx.protected_depth e.backfill_queue_depth (free_at projection)
          first_books head start_of_head in
      let f =
        scan-Follows ctx flat (free_at projection) (accounted.deque.eligible_end_idx - 1) rest
          (head_protected ctx accounted h.available projection head) head_books
          (head-Agrees flat) in
      let starts : f.books.starts
          ≡ (scan_of ctx accounted h.available projection head rest).started =
        f.started
        ∙ ap (λ l. l ++ (scan_of ctx accounted h.available projection head rest).started)
            (reserved_starts ctx flat (free_at projection) first_books head start_of_head) in
      (
        f.books,
        record {
          started = rw some_free (
              ap (λ c. h.started ++ (scan_of c accounted h.available projection head rest).started)
                context-promised
              ∙ ap (λ l. h.started ++ l) (sym starts));
          room = λ t from. omega (arith, f.agrees.balance t from);
          head_start = start_of_head;
          head_first =
              earliest_fit-IsFirst now projection projection-IsPlan (free_at projection)
                (λ t from. refl) head.nodes_requested _;
          walk =
              subst
                (λ n.
                  Walk e.base now ctx.protected_depth e.backfill_queue_depth (free_at projection)
                    (n - 1) rest head_books f.books)
                accounted_index f.walk;
          planned = f.agrees.planned;
          limited = f.agrees.limited;
        },
      )
