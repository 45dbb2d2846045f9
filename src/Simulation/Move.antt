-- ===== src/Simulation/Move.antt =====
-- The move of the clock to the next event, in the driver (src/sim/sim.cpp): the capacity account,
-- the scheduler's clock, and the statistics of the arrivals.
use dr_evt.Base.{
  ℕ, max, ◌+◌, ◌-◌, ◌*◌, ◌≤◌, ◌<◌, ◌≡◌, refl, sym, ◌∙◌, ap, subst, Bool, false, List, [], arith,
  ◌==◌, All, length, le→ltb, if◌then◌else◌,
}
use dr_evt.Base.Results.{ok, ◌>>=◌, Returns, Returns-bind, Returns-mono}
use dr_evt.Base.Sums.{sum_of}
use dr_evt.Trace.{Trace, get_nodes_occupied, unscheduled_sentinel}
use dr_evt.Trace.Ledger.{TraceInv}
use dr_evt.Simulation.{SchedulerMethods, Simulation}
use dr_evt.Simulation.Capacity.{advance_capacity_accounting_to, effective_capacity}
use dr_evt.Simulation.Submit.{record_queue_arrivals}
use dr_evt.Simulation.Advance.{move_to}
use dr_evt.Simulation.Contract.{Contract, arrived}
use dr_evt.Simulation.Invariant.{noted, coming, comes_at, Accounts}
use dr_evt.Simulation.Arrivals.{
  noted_first, found_waiting, recorded, Records, record_queue_arrivals-Records,
}

module _ (S : SchedulerMethods) (size submit_of : ℕ → ℕ) (C : Contract S size submit_of) where
  -- The clock shows `time`, and nothing else has happened.
  pub record Shows (time : ℕ) (s s' : Simulation S.State) : Type 0 where
    pub inv : Accounts S size submit_of C [] s'
    pub current_time : s'.current_time ≡ time
    pub synced : C.tracked s'.scheduler ≡ time
    pub quiet : noted time s'.pending_queue_arrivals ≡ 0
    pub trace : s'.trace ≡ s.trace
    pub pending : C.pending s'.scheduler ≡ C.pending s.scheduler
    pub changes : s'.capacity_changes ≡ s.capacity_changes
    pub current_capacity : s'.current_capacity ≡ s.current_capacity
    pub submitted : s'.jobs_submitted ≡ s.jobs_submitted

  -- The state at `time`, with the noted arrivals `rest` left. The capacity account has grown by
  -- what the machine offers, or by what is occupied if that is more, since its last entry; and
  -- each arrival at `time` was counted with the jobs that it found waiting.
  abbrev pub moved_to : Simulation S.State → ℕ → List (ℕ × ℕ) → Simulation S.State
  moved_to s time rest =
      let n = noted_first time s.pending_queue_arrivals in
      record s {
        current_time = time;
        capacity_area =
            s.capacity_area
            + max s.current_capacity (get_nodes_occupied s.trace) * (time - s.capacity_area_time);
        capacity_area_time = time;
        scheduler = S.sync_to s.scheduler time;
        queue_length_sum =
            s.queue_length_sum
            + found_waiting (arrived submit_of time (C.pending s.scheduler) - n) n;
        queue_length_samples = s.queue_length_samples + n;
        pending_queue_arrivals = rest;
      }

  -- The clock shows `time`, the accounts of capacity and queue lengths are brought up to it, and
  -- the arrivals noted for it are taken off, those alone.
  pub record Moves (time : ℕ) (s s' : Simulation S.State) : Type 0 where
    pub shows : Shows time s s'
    pub rest : List (ℕ × ℕ)
    pub state : s' ≡ moved_to s time rest
    pub taken : noted time rest ≡ 0
    pub others : (i : ℕ) → (i == time) ≡ false → noted i rest ≡ noted i s.pending_queue_arrivals

  abbrev pub synced_at : Simulation S.State → ℕ → ℕ → ℕ → Simulation S.State
  synced_at s area area_time time = record s {
    current_time = time;
    capacity_area = area;
    capacity_area_time = area_time;
    scheduler = S.sync_to s.scheduler time;
  }

  pub at_time :
      (size : ℕ → ℕ) (now time : ℕ) (t : Trace)
      → All (λ e. time ≤ e.time) t.ctx.evtq
      → TraceInv size now t
      → TraceInv size time t
  at_time size now time t due v = record {
    ordered = v.ordered;
    due = due;
    known = v.known;
    once = v.once;
    in_use = v.in_use;
    releasing = v.releasing;
    small = v.small;
    sized = v.sized;
    written = v.written;
    prompt = v.prompt;
  }

  module _ (sample : ℕ → ℕ → ℕ) (s : Simulation S.State) (time : ℕ)
      (v : Accounts S size submit_of C [] s) (le : s.current_time ≤ time)
      (due : All (λ e. time ≤ e.time) s.trace.ctx.evtq) (before : time < unscheduled_sentinel) where
    pub moved :
        (area area_time sum samples : ℕ) (rest : List (ℕ × ℕ))
        → area_time ≤ time
        → ((i : ℕ) → noted i rest ≤ noted i s.pending_queue_arrivals)
        → noted time rest ≡ 0
        → Shows time s
            (recorded S size submit_of C (synced_at s area area_time time) sum samples rest)
    moved area area_time sum samples rest accounted_before fewer quiet =
        let (inv, same, at) =
          C.syncs s.scheduler s.latest_submit_time time v.scheduler (omega (arith, v.tracked)) in
        let sums : (f : ℕ → ℕ)
            → sum_of f (C.pending (S.sync_to s.scheduler time)) ≡ sum_of f (C.pending s.scheduler) =
          λ f. ap (sum_of f) same in
        record {
          inv = record {
            trace = at_time size s.current_time time s.trace due v.trace;
            scheduler = inv;
            tracked = omega (arith, at);
            apart = λ j. omega (arith, sums (λ k. if k == j then 1 else 0), v.apart j);
            waits =
                λ j some_j. v.waits j (omega (arith, sums (λ k. if k == j then 1 else 0), some_j));
            running = v.running;
            entries = v.entries;
            released = v.released;
            started = v.started;
            submitted = omega (arith, v.submitted, ap length same);
            noted_arrivals = λ t later.
                omega
                  (arith, fewer t, sums (comes_at submit_of t), v.noted_arrivals t (omega arith));
            area_time = accounted_before;
            capacity = v.capacity;
            changes = v.changes;
            clock = before;
          };
          current_time = refl;
          synced = at;
          quiet = quiet;
          trace = refl;
          pending = same;
          changes = refl;
          current_capacity = refl;
          submitted = refl;
        }

    abbrev area : ℕ
    area =
        s.capacity_area
        + max s.current_capacity (get_nodes_occupied s.trace) * (time - s.capacity_area_time)

    accounted :
        advance_capacity_accounting_to S (record s { current_time = time }) time
        ≡ ok (record s { current_time = time; capacity_area = area; capacity_area_time = time })
    unfolding advance_capacity_accounting_to effective_capacity
    accounted = rw (le→ltb time s.capacity_area_time (omega (arith, v.area_time))) refl

    abbrev at_clock : Simulation S.State
    at_clock = synced_at s area time time

    -- The active jobs are those that have arrived at `time`.
    active :
        S.active_job_count (S.sync_to s.scheduler time)
        ≡ arrived submit_of time (C.pending s.scheduler)
    active =
        let (inv, same, at) =
          C.syncs s.scheduler s.latest_submit_time time v.scheduler (omega (arith, v.tracked)) in
        C.counts (S.sync_to s.scheduler time) s.latest_submit_time inv
        ∙ ap (λ i. arrived submit_of i (C.pending (S.sync_to s.scheduler time))) at
        ∙ ap (arrived submit_of time) same

    recorded-Moves :
        (x : Simulation S.State × Bool)
        → Records S size submit_of C time at_clock x
        → Moves time s x.0
    recorded-Moves x d =
        let n = noted_first time s.pending_queue_arrivals in
        record {
          shows =
              subst (Shows time s) (sym d.state)
                (moved area time d.sum d.samples d.rest (omega arith) d.fewer d.quiet);
          rest = d.rest;
          state =
              d.state
              ∙ ap (λ i. recorded S size submit_of C at_clock i d.samples d.rest)
                  (d.summed ∙ ap (λ i. s.queue_length_sum + found_waiting (i - n) n) active)
              ∙ ap
                  (λ i.
                    recorded S size submit_of C at_clock
                      (s.queue_length_sum
                        + found_waiting (arrived submit_of time (C.pending s.scheduler) - n) n)
                      i d.rest)
                  d.sampled;
          taken = d.quiet;
          others = d.others;
        }

    -- A move of the clock of a well-formed simulation forward to a time below the sentinel that no
    -- event lies before throws nothing: neither does the capacity account run backwards, nor are
    -- more arrivals noted than jobs are active. The clock and the scheduler's time show the time;
    -- the capacity account grows by the time since its last entry, times the capacity or the
    -- occupied nodes, whichever are more; each arrival noted for the time is one more sample, and
    -- adds the jobs that it found waiting to the sum; exactly the arrivals noted for the time are
    -- taken off. Nothing else changes, and the simulation is well-formed up to the events at the
    -- time.
    pub move_to-Moves : Returns (move_to S sample s time) (Moves time s)
    unfolding move_to
    move_to-Moves =
        let (inv, same, at) =
          C.syncs s.scheduler s.latest_submit_time time v.scheduler (omega (arith, v.tracked)) in
        let noted_here : noted time s.pending_queue_arrivals
            ≤ coming submit_of time (C.pending (S.sync_to s.scheduler time)) =
          omega (arith, v.noted_arrivals time le, ap (coming submit_of time) same) in
        subst
          (λ r.
            Returns
              (r >>= λ a.
                record_queue_arrivals S (record a { scheduler = S.sync_to a.scheduler time }) time
                >>= λ x. ok x.0)
              (Moves time s))
          (sym accounted)
          (Returns-bind (Records S size submit_of C time at_clock) (Moves time s)
            (record_queue_arrivals S at_clock time) (λ x. ok x.0)
            (record_queue_arrivals-Records S size submit_of C at_clock time inv at noted_here)
            recorded-Moves)

    pub move_to-Shows : Returns (move_to S sample s time) (Shows time s)
    move_to-Shows =
        Returns-mono {P = Moves time s} {Q = Shows time s} (move_to S sample s time) move_to-Moves
          (λ s' m. m.shows)
