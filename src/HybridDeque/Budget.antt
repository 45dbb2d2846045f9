-- ===== src/HybridDeque/Budget.antt =====
-- The budget over whole passes, and over all passes at one timestamp.
use mathlib.Core.List.{append-nil}
use dr_evt.Base.{
  ℕ, ◌+◌, ◌-◌, ◌≤◌, ◌<◌, ◌≡◌, refl, sym, ap, ◌∙◌, true, ◌||◌, none, List, [], ◌∷◌, ◌++◌, arith,
  ◌==◌, length, Bool-cases, inl, inr, subst, ==_iff, length-append,
}
use dr_evt.Timeline.{Timeline}
use dr_evt.Scheduler.{SchedulerBase, RunningJobs, reservation_timeline, calculate_fcfs_reservation}
use dr_evt.Deque.{
  JobEntry, Deque, Heads, prepare, take_heads, after_heads, active_job_count, consume,
}
use dr_evt.HybridDeque.{
  HybridDeque, context, select, schedule_entries, backfill, backfill_disabled, scan_behind,
  with_heads, head_protected, first_state, begin_timestamp, account_head, with_reservation,
}
use dr_evt.HybridDeque.Backfill.{ScanContext, scan, is_now}
use dr_evt.HybridDeque.Accounting.{
  Spends, used_same, begin_timestamp-Spends, begin_timestamp-time, account_head-Spends,
  account_head-time,
}
use dr_evt.HybridDeque.Depth.{head_slot, IsBudgeted, used, scan-Counts, protect_job-examined}

trans-Spends :
    (now : ℕ) (e e' e'' : HybridDeque) (n : ℕ)
    → Spends now e e' 0
    → Spends now e' e'' n
    → Spends now e e'' n
trans-Spends now e e' e'' n a b = record {
  inv = b.inv;
  depth = b.depth ∙ a.depth;
  spent = omega (arith, a.spent, b.spent);
}

-- The scan, from a state whose timestamp is the pass's.
scan_behind-Spends :
    (e : HybridDeque) (h : Heads) (c : ScanContext) (plan : Timeline) (now : ℕ) (head : JobEntry)
    (rest : List JobEntry)
    → IsBudgeted e
    → is_now now e.backfill_depth_time ≡ true
    → c.queue_depth ≡ e.backfill_queue_depth
    → let r = scan_behind e h c plan head rest in
      (backfilled : List JobEntry) × (r.1 ≡ h.started ++ backfilled)
      × Spends now e r.0 (length backfilled)
unfolding scan_behind head_protected first_state
scan_behind-Spends e h c plan now head rest v same depth =
    let s = head_protected c e h.available plan head in
    let k = scan c (e.deque.eligible_end_idx - 1) rest s in
    let counts = scan-Counts c (e.deque.eligible_end_idx - 1) rest s in
    let begun = protect_job-examined c (first_state e h.available plan) head none in
    let e' = (scan_behind e h c plan head rest).0 in
    (
      k.started,
      refl,
      record {
        inv = record {
          counted = omega (arith, v.counted, counts.started);
          within = λ pos.
              omega
                (arith, counts.bounded (head_slot e) (omega arith) (omega (arith, v.within pos)));
        };
        depth = refl;
        spent =
            omega (arith, used_same e now same, used_same e' now same, counts.started, v.counted);
      },
    )

-- The jobs of a pass behind those from the front, and what they take of the budget.
abbrev pub PassSpends : ℕ → HybridDeque → List JobEntry → HybridDeque × List JobEntry → Type 0
PassSpends now e heads r =
    (backfilled : List JobEntry) × (r.1 ≡ heads ++ backfilled)
    × Spends now e r.0 (length backfilled)

none_started :
    (now : ℕ) (e e' : HybridDeque) (heads : List JobEntry)
    → IsBudgeted e'
    → e'.backfill_queue_depth ≡ e.backfill_queue_depth
    → used e' now ≡ used e now
    → PassSpends now e heads (e', heads)
none_started now e e' heads v depth same =
    ([], sym (append-nil heads), record { inv = v; depth = depth; spent = omega arith })

same_budget : {r : ℕ} (e : HybridDeque) → IsBudgeted e → IsBudgeted (with_reservation e r)
same_budget e v = record { counted = v.counted; within = v.within }

blocked-PassSpends :
    (e : HybridDeque) (h : Heads) (c : ScanContext) (plan : Timeline) (reservation now : ℕ)
    (head : JobEntry) (rest : List JobEntry)
    → IsBudgeted e
    → c.queue_depth ≡ e.backfill_queue_depth
    → PassSpends now e h.started
        (scan_behind (account_head (begin_timestamp e now) reservation now) h c plan head rest)
blocked-PassSpends e h c plan reservation now head rest v depth =
    let begun = begin_timestamp e now in
    let first = begin_timestamp-Spends e now v in
    let time = begin_timestamp-time e now in
    let second = account_head-Spends begun reservation now first.inv time in
    let accounted = account_head begun reservation now in
    let (backfilled, jobs, third) =
      scan_behind-Spends accounted h c plan now head rest second.inv
        (subst (λ t. is_now now t ≡ true) (sym (account_head-time begun reservation now)) time)
        (depth ∙ sym (second.depth ∙ first.depth)) in
    (
      backfilled,
      jobs,
      trans-Spends now e begun _ (length backfilled) first
          (trans-Spends now begun accounted _ (length backfilled) second third),
    )

backfill-PassSpends :
    (e : HybridDeque) (h : Heads) (running : RunningJobs) (now : ℕ) (queue : List JobEntry)
    → IsBudgeted e
    → PassSpends now e h.started (backfill e h running now queue)
unfolding backfill
backfill-PassSpends e h running now [] v = none_started now e e h.started v refl refl
backfill-PassSpends e h running now (head ∷ rest) v =
    let reservation =
      calculate_fcfs_reservation e.base head.nodes_requested h.available running now h.projected in
    let e' = with_reservation e reservation in
    let same : used e' now ≡ used e now = unfold used in refl in
    elim (Bool-cases (h.available == 0)) [
      | inl none_free ↦ rw none_free (none_started now e e' h.started (same_budget e v) refl same)
      | inr some_free ↦
          let (backfilled, jobs, spends) =
            blocked-PassSpends e' h (context e now)
              (reservation_timeline e.base h.available running now h.projected) reservation now head
              rest (same_budget e v) (unfold context in refl) in
          rw some_free (
            backfilled,
            jobs,
            record { inv = spends.inv; depth = spends.depth; spent = omega (arith, spends.spent) },
          )
    ]

no_heads :
    (base : SchedulerBase) (now free : ℕ) (d : Deque)
    → d.eligible_end_idx ≡ 0
    → (take_heads base now d free).started ≡ []
unfolding take_heads consume
no_heads base now free d none_eligible = rw none_eligible (of_queue d.wait_queue)
  where
    of_queue : (q : List JobEntry) → (consume base now q 0 d.removed_count free).started ≡ []
    of_queue [] = refl
    of_queue (j ∷ q) = refl

select-PassSpends :
    (e : HybridDeque) (free : ℕ) (running : RunningJobs) (now : ℕ)
    → IsBudgeted e
    → PassSpends now e (take_heads e.base now e.deque free).started (select e free running now)
unfolding select
select-PassSpends e free running now v =
    let h = take_heads e.base now e.deque free in
    let e' = with_heads e h in
    let v' : IsBudgeted e' = record { counted = v.counted; within = v.within } in
    let same : used e' now ≡ used e now = unfold used in refl in
    elim (Bool-cases (e.deque.eligible_end_idx == 0)) [
      | inl idle ↦ rw idle (
        [],
        ap (λ l. l ++ []) (sym (no_heads e.base now free e.deque ((==_iff _ 0).0 idle))),
        record { inv = v; depth = refl; spent = omega arith },
      )
      | inr some_eligible ↦
          rw some_eligible
            (elim (Bool-cases (
              active_job_count (after_heads e.deque h) == 0
              || backfill_disabled e.base.backfill_policy)) [
                | inl done ↦ rw done (none_started now e e' h.started v' refl same)
                | inr blocked ↦
                    let (backfilled, jobs, spends) =
                      backfill-PassSpends e' h running now h.queue v' in
                    rw blocked (
                      backfilled,
                      jobs,
                      record {
                        inv = spends.inv;
                        depth = spends.depth;
                        spent = omega (arith, spends.spent, same);
                      },
                    )
              ])
    ]

-- The jobs that a pass starts behind those from the front of the prepared queue.
abbrev pub backfilled_by : HybridDeque → ℕ → RunningJobs → ℕ → ℕ
backfilled_by e free running now =
    length (schedule_entries e free running now).1
    - length (take_heads e.base now (prepare e.deque now) free).started

-- Passes at one timestamp, each with its free nodes and running jobs; how many jobs they start
-- behind the front together.
unfoldable pub passes_at : ℕ → HybridDeque → List (ℕ × RunningJobs) → HybridDeque × ℕ
passes_at now e [] = (e, 0)
passes_at now e ((free, running) ∷ ps) =
    let (e', n) = passes_at now (schedule_entries e free running now).0 ps in
    (e', backfilled_by e free running now + n)

schedule-Spends :
    (e : HybridDeque) (free : ℕ) (running : RunningJobs) (now : ℕ)
    → IsBudgeted e
    → Spends now e (schedule_entries e free running now).0 (backfilled_by e free running now)
unfolding schedule_entries
schedule-Spends e free running now v =
    let e' : HybridDeque = record e { deque = prepare e.deque now } in
    let v' : IsBudgeted e' = record { counted = v.counted; within = v.within } in
    let same : used e' now ≡ used e now = unfold used in refl in
    let (backfilled, jobs, spends) = select-PassSpends e' free running now v' in
    let heads = (take_heads e.base now (prepare e.deque now) free).started in
    record {
      inv = spends.inv;
      depth = spends.depth;
      spent = omega (arith, spends.spent, same, ap length jobs, length-append heads backfilled);
    }

passes-Spends :
    (now : ℕ) (e : HybridDeque) (ps : List (ℕ × RunningJobs))
    → IsBudgeted e
    → let r = passes_at now e ps in Spends now e r.0 r.1
unfolding passes_at
passes-Spends now e [] v = record { inv = v; depth = refl; spent = omega arith }
passes-Spends now e ((free, running) ∷ ps) v =
    let one = schedule-Spends e free running now v in
    let rest = passes-Spends now (schedule_entries e free running now).0 ps one.inv in
    record {
      inv = rest.inv;
      depth = rest.depth ∙ one.depth;
      spent = omega (arith, one.spent, rest.spent);
    }

-- All passes at one timestamp, from members whose slots are within the depth, start together no
-- more jobs behind the front of the queue than the backfill queue depth, where that is positive;
-- and the slots are within the depth after them.
pub backfill_budget :
    (now : ℕ) (e : HybridDeque) (ps : List (ℕ × RunningJobs))
    → IsBudgeted e
    → 0 < e.backfill_queue_depth
    → let r = passes_at now e ps in (r.1 ≤ e.backfill_queue_depth) × IsBudgeted r.0
backfill_budget now e ps v pos =
    let all = passes-Spends now e ps v in
    (omega (arith, all.spent, used-le (passes_at now e ps).0 now all.inv, all.depth), all.inv)
  where
    used-le :
        (e : HybridDeque) (now : ℕ)
        → IsBudgeted e
        → 0 < e.backfill_queue_depth
        → used e now ≤ e.backfill_queue_depth
    used-le e now v pos = unfold used in ground (arith, v.within pos)
