-- ===== src/Simulation/Appending.antt =====
-- A job appended through the streaming API (`append_job`, src/sim/sim.cpp) keeps the simulation
-- well-formed.
use dr_evt.Base.{
  ℕ, false, get_elem?, ==_iff, ◌-◌, ◌+◌, ◌^◌, ◌≤◌, ◌<◌, ◌≡◌, refl, sym, ◌∙◌, ap, subst, true,
  Option, none, some, [], ◌∷◌, ◌++◌, arith, ◌==◌, All, ◌⊎◌, inl, inr,
}
use dr_evt.Base.Results.{ok, ◌>>=◌, Returns, Returns-bind}
use dr_evt.Base.Sums.{occurs}
use dr_evt.Events.{DrEvent}
use dr_evt.Events.Order.{total, about}
use dr_evt.Trace.{JobRecord, Trace, Context, make_record, unscheduled_sentinel}
use dr_evt.Trace.Append.{with_run_time}
use dr_evt.Trace.Append as TraceAppend
use dr_evt.Trace.Step.{with_duration}
use dr_evt.Trace.Store.{Has}
use dr_evt.Trace.Ledger.{runs, releases}
use dr_evt.Trace.Start.{IsStartable}
use dr_evt.Trace.Appended.{next_number, HasRoom, new_record, Appends, append_job-Appends}
use dr_evt.Simulation.{SchedulerMethods, QueryRecord, Simulation}
use dr_evt.Simulation.Submit.{is_rejected, submit_job}
use dr_evt.Simulation.Append.{
  checked_streaming_limit, is_run_time_valid, first_idx, record_appended_job, check_request,
  append_job,
}
use dr_evt.Simulation.Contract.{Contract}
use dr_evt.Simulation.Invariant.{Waits, SimInv}
use dr_evt.Simulation.Submission.{Submits, IsNew, submit_job-Submits}
use dr_evt.Simulation.WithRecord.{appended-TraceInv}
use dr_evt.Simulation.Queries.{IsQuery, record-queries, same_first, with_queries}

-- The record of a request that passes the checks may start.
new-IsStartable :
    (submit_time nodes limit : ℕ) (run_time : Option ℕ)
    → submit_time < unscheduled_sentinel
    → 1 ≤ limit
    → is_run_time_valid limit run_time ≡ true
    → IsStartable (new_record submit_time nodes limit run_time)
unfolding with_duration with_run_time make_record is_run_time_valid
new-IsStartable submit_time nodes limit none before some_limit valid =
    (ground (arith, before), omega (arith, some_limit))
new-IsStartable submit_time nodes limit (some run_time) before some_limit valid =
    (ground (arith, before), ground (arith, valid))

new_unscheduled :
    (submit_time nodes limit : ℕ) (run_time : Option ℕ)
    → ((new_record submit_time nodes limit run_time).end_time ≡ unscheduled_sentinel)
      × ((new_record submit_time nodes limit run_time).num_nodes ≡ nodes)
unfolding with_run_time make_record
new_unscheduled submit_time nodes limit none = (refl, refl)
new_unscheduled submit_time nodes limit (some run_time) = (refl, refl)

module _ (S : SchedulerMethods) (size submit_of : ℕ → ℕ) (C : Contract S size submit_of) where
  with_trace :
      (s : Simulation S.State) (job : JobRecord) (r : Trace × ℕ)
      → SimInv S size submit_of C [] s
      → Appends s.current_time s.trace job r
      → job.num_nodes ≡ size r.1
      → SimInv S size submit_of C [] (record s { trace = r.0 })
  with_trace s job r v a same =
      let queue : r.0.ctx.evtq ≡ s.trace.ctx.evtq = ap (λ (c : Context). c.evtq) a.ctx in
      let sums : (f : DrEvent → ℕ) → total f r.0.ctx.evtq ≡ total f s.trace.ctx.evtq =
        λ f. ap (total f) queue in
      record {
        later = subst (All (λ e. s.current_time < e.time)) (sym queue) v.later;
        accounts = record {
          trace = appended-TraceInv size s.current_time s.trace job r v.trace v.later a same;
          scheduler = v.scheduler;
          tracked = v.tracked;
          apart = λ j. omega (arith, v.apart j, sums (about j));
          waits = λ j some_j.
              let (x, has, startable, unscheduled) = v.waits j some_j in
              (
                x,
                a.live j x has (startable.0, omega (arith, unscheduled, v.clock)),
                startable,
                unscheduled,
              );
          running = λ j. v.running j ∙ sym (sums (about j));
          entries = omega (arith, v.entries, sums runs, sums releases);
          released = v.released ∙ sym (sums releases);
          started = omega (arith, v.started, sums runs);
          submitted = v.submitted;
          noted_arrivals = v.noted_arrivals;
          area_time = v.area_time;
          capacity = v.capacity;
          changes = v.changes;
          clock = v.clock;
        };
      }

  check_passes :
      (s : Simulation S.State) (submit_time limit : ℕ) (run_time : Option ℕ)
      → s.current_time ≤ submit_time
      → s.latest_submit_time ≤ submit_time
      → 1 ≤ limit
      → limit < 2 ^ 32
      → is_run_time_valid limit run_time ≡ true
      → check_request S s submit_time limit run_time ≡ ok limit
  unfolding check_request checked_streaming_limit
  check_passes s submit_time limit run_time not_past in_order some_limit small valid =
      ground (arith, not_past, in_order, some_limit, small, valid)

  -- The job can never run and its record is marked as rejected; or it is the last of the pending
  -- ones, and its record waits.
  abbrev pub Outcome : Simulation S.State → ℕ → JobRecord → Simulation S.State → Type 0
  Outcome s j job b =
      ((is_rejected S s job ≡ true)
        × (C.pending b.scheduler ≡ C.pending s.scheduler)
        × (b.jobs_submitted ≡ s.jobs_submitted)
        × Has b.trace.store j (record job { submit_time = unscheduled_sentinel }))
      ⊎ ((is_rejected S s job ≡ false)
          × (C.pending b.scheduler ≡ C.pending s.scheduler ++ j ∷ [])
          × (b.jobs_submitted ≡ s.jobs_submitted + 1)
          × Waits b.trace.store j)

  -- The number is that of the record, which was submitted and can be asked about.
  pub record Numbered (s : Simulation S.State) (j : ℕ) (job : JobRecord) (limit : ℕ)
      (r : Simulation S.State × ℕ) : Type 0 where
    pub number : r.1 ≡ j
    pub inv : SimInv S size submit_of C [] r.0
    pub outcome : Outcome s j job r.0
    pub query : QueryRecord
    pub kept : get_elem? r.0.query_records (j - r.0.first_appended_job_idx) ≡ some query
    pub answers :
        IsQuery S size submit_of C (submit_of j) (size j) limit (is_rejected S s job) query

  module _ (s : Simulation S.State) (limit : ℕ) (run_time : Option ℕ)
      (v : SimInv S size submit_of C [] s) (grows : s.trace.store.grows ≡ true)
      (room : HasRoom s.trace.store)
      (unknown : occurs (next_number s.trace.store) (C.pending s.scheduler)
          + total (about (next_number s.trace.store)) s.trace.ctx.evtq
        ≡ 0)
      (first : (first_idx S s (next_number s.trace.store)) ≤ next_number s.trace.store)
      (not_past : s.current_time ≤ submit_of (next_number s.trace.store))
      (in_order : s.latest_submit_time ≤ submit_of (next_number s.trace.store))
      (before : submit_of (next_number s.trace.store) < unscheduled_sentinel)
      (some_limit : 1 ≤ limit) (small : limit < 2 ^ 32)
      (valid : is_run_time_valid limit run_time ≡ true) where
    abbrev n : ℕ
    n = next_number s.trace.store

    abbrev job : JobRecord
    job = new_record (submit_of n) (size n) limit run_time

    abbrev NumberedBy : Simulation S.State × ℕ → Type 0
    NumberedBy = Numbered s n job limit

    Outcome-of :
        (t : Trace) (a : Simulation S.State)
        → Submits S size submit_of C (record s { trace = t }) n job a
        → Outcome s n job a
    unfolding is_rejected
    Outcome-of t a h = h.outcome

    -- The record of the job after its submission, which shows whether it was rejected.
    Has-of :
        (a : Simulation S.State)
        → Outcome s n job a
        → (x : JobRecord) × Has a.trace.store n x
          × ((x.submit_time == unscheduled_sentinel) ≡ is_rejected S s job)
    Has-of a h = elim h [
      | inl (refused, same, count, has) ↦
          (_, has, (==_iff unscheduled_sentinel unscheduled_sentinel).1 refl ∙ sym refused)
      | inr (admitted, more, count, waits) ↦ (waits.0, waits.1, waits.2.0 ∙ sym admitted)
    ]

    recorded :
        (t : Trace) (a : Simulation S.State)
        → Submits S size submit_of C (record s { trace = t }) n job a
        → Returns
            (record_appended_job S a n (submit_of n) (size n) limit >>= λ x. ok (x, n))
            NumberedBy
    recorded t a h =
        let out = Outcome-of t a h in
        let (x, has, marked) = Has-of a out in
        let le : first_idx S a n ≤ n =
          subst (λ f. f ≤ n) (sym (same_first S size submit_of C s a n h.queries h.first_idx))
            first in
        Returns-bind _ NumberedBy (record_appended_job S a n (submit_of n) (size n) limit)
          (λ b. ok (b, n))
          (record-queries S size submit_of C a n (submit_of n) (size n) limit x has le)
          (λ b (queries, q, eq, kept, answers).
            subst (λ (y : Simulation S.State). NumberedBy (y, n)) (sym eq)
              (record {
                number = refl;
                inv = with_queries S size submit_of C a (first_idx S a n) queries h.inv;
                outcome = out;
                query = q;
                kept = kept;
                answers =
                    subst
                      (λ rejected.
                        IsQuery S size submit_of C (submit_of n) (size n) limit rejected q)
                      marked answers;
              }))

    submitted :
        (r : Trace × ℕ)
        → Appends s.current_time s.trace job r
        → Returns
            (submit_job S (record s { trace = r.0 }) r.1 (submit_of n) (submit_of n) >>= λ a.
              record_appended_job S a r.1 (submit_of n) (size n) limit >>= λ x. ok (x, r.1))
            NumberedBy
    submitted r a =
        let queue : r.0.ctx.evtq ≡ s.trace.ctx.evtq = ap (λ (c : Context). c.evtq) a.ctx in
        let (unscheduled, nodes) = new_unscheduled (submit_of n) (size n) limit run_time in
        let inv = with_trace s job r v a (nodes ∙ ap size (sym a.number)) in
        let new : IsNew S size submit_of C (record s { trace = r.0 }) n job = record {
          has = subst (λ i. Has r.0.store i job) a.number a.has;
          startable = new-IsStartable (submit_of n) (size n) limit run_time before some_limit valid;
          unscheduled = unscheduled;
          unknown = omega (arith, unknown, ap (total (about n)) queue);
        } in
        subst
          (λ i.
            Returns
              (submit_job S (record s { trace = r.0 }) i (submit_of n) (submit_of n) >>= λ a.
                record_appended_job S a i (submit_of n) (size n) limit >>= λ x. ok (x, i))
              NumberedBy)
          (sym a.number)
          (Returns-bind (Submits S size submit_of C (record s { trace = r.0 }) n job) NumberedBy
            (submit_job S (record s { trace = r.0 }) n (submit_of n) (submit_of n))
            (λ a. record_appended_job S a n (submit_of n) (size n) limit >>= λ x. ok (x, n))
            (submit_job-Submits S size submit_of C (record s { trace = r.0 }) n job inv new not_past
              in_order)
            (λ b h. recorded r.0 b h))

    -- A request that passes the checks, with a submit time below the sentinel, on a well-formed
    -- simulation whose store may grow and whose store's capacity is set or has room for the
    -- records, throws nothing when the next number has no event, is not pending and is not before
    -- the numbers of the records for queries. The job has the next number. Exactly if it can never
    -- run, its record is marked as rejected and the pending jobs and their count stay; else it
    -- joins the pending jobs as the last, is counted, and its record waits. The query of its
    -- number is answered with what was requested, and with whether it was rejected; and the
    -- simulation stays well-formed.
    pub append_job-Numbered :
        Returns (append_job S s (submit_of n) (size n) limit run_time) (Numbered s n job limit)
    unfolding append_job
    append_job-Numbered =
        rw (check_passes s (submit_of n) limit run_time not_past in_order some_limit small valid) (
          Returns-bind (Appends s.current_time s.trace job) NumberedBy
            (TraceAppend.append_job s.trace s.current_time (submit_of n) (size n) limit run_time) _
            (append_job-Appends s.trace s.current_time (submit_of n) (size n) limit run_time
              v.trace.written grows room)
            submitted)
