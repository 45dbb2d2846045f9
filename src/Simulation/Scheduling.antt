-- ===== src/Simulation/Scheduling.antt =====
-- The calls of the scheduler until it starts nothing (`while (true)` in `advance_to_impl`,
-- src/sim/sim.cpp).
use mathlib.Core.List.{Perm}
use dr_evt.Base.{
  ℕ, zero, suc, ◌+◌, ◌≤◌, ◌<◌, ◌≡◌, refl, sym, ◌∙◌, ap, subst, List, [], ◌∷◌, ◌++◌, arith, max, ltb,
  ◌==◌, All, length, if_ind, ltb→lt, if◌then◌else◌,
}
use dr_evt.Base.Results.{ok, ◌>>=◌, Returns, Returns-bind, Returns-mono}
use dr_evt.Base.Sums.{sum_of, sum_of-append, sum_of-Perm, sum_of-one}
use dr_evt.Events.Order.{total}
use dr_evt.Trace.{get_nodes_occupied}
use dr_evt.Trace.Ledger.{runs, releases}
use dr_evt.Trace.Process.{add_nodes-exact}
use dr_evt.Simulation.{SchedulerMethods, Simulation}
use dr_evt.Simulation.Capacity.{get_available_nodes, publish_capacity_outlook}
use dr_evt.Simulation.Start.{Starter, start_jobs, call_scheduler, schedule_loop}
use dr_evt.Simulation.Contract.{Contract, is_ahead, ahead}
use dr_evt.Simulation.Invariant.{noted, comes_at, SimInv}
use dr_evt.Simulation.StartOne.{Stays, occupied}
use dr_evt.Simulation.StartAll.{IsStarter, StartsAll, start_jobs-StartsAll}

module _ (S : SchedulerMethods) (size submit_of : ℕ → ℕ) (C : Contract S size submit_of) where
  -- Between two events: the scheduler has seen the current time, and so have the statistics of the
  -- arrivals.
  pub record Ready (s : Simulation S.State) : Type 0 where
    pub inv : SimInv S size submit_of C [] s
    pub synced : C.tracked s.scheduler ≡ s.current_time
    pub quiet : noted s.current_time s.pending_queue_arrivals ≡ 0

  -- The free nodes, and the nodes occupied, stay within the capacity or what is occupied already.
  available_room :
      (s : Simulation S.State)
      → SimInv S size submit_of C [] s
      → occupied S s + get_available_nodes S s ≤ max s.current_capacity (occupied S s)
  unfolding get_available_nodes get_nodes_occupied
  available_room s v =
      let exact = add_nodes-exact _ _ v.trace.small in
      rw exact (
        if_ind (λ n. occupied S s + n ≤ max s.current_capacity (occupied S s))
          (ltb (occupied S s) s.current_capacity) _ _ (λ below. omega (arith, ltb→lt _ _ below))
          (λ above. omega arith))

  -- The jobs that a call returned, and the state with the scheduler called.
  pub record Calls (s a : Simulation S.State) (jobs : List ℕ) : Type 0 where
    pub inv : SimInv S size submit_of C jobs a
    pub synced : C.tracked a.scheduler ≡ a.current_time
    pub due : All (λ j. submit_of j ≤ a.current_time) jobs
    pub room : occupied S a + sum_of size jobs ≤ max s.current_capacity (occupied S s)
    pub split :
        (f : ℕ → ℕ)
        → sum_of f (C.pending s.scheduler) ≡ sum_of f jobs + sum_of f (C.pending a.scheduler)

  -- The call of the scheduler on the published outlook.
  abbrev pass : Simulation S.State → S.State × List ℕ
  pass s =
      S.schedule
        (S.set_capacity_outlook s.scheduler s.current_capacity (get_nodes_occupied s.trace)
          s.capacity_changes)
        (get_available_nodes S s) s.running_jobs s.current_time

  abbrev called : Simulation S.State → Simulation S.State
  called s = record s { scheduler = (pass s).0 }

  pass-Calls : (s : Simulation S.State) → Ready s → Calls s (called s) (pass s).1
  pass-Calls s r =
      let v = r.inv in
      let free = get_available_nodes S s in
      let jobs = (pass s).1 in
      let (looked, same, kept) =
        C.looks s.scheduler s.latest_submit_time s.current_capacity (get_nodes_occupied s.trace)
          s.capacity_changes v.scheduler in
      let (inv, perm, budget, due, synced) =
        C.schedules _ s.latest_submit_time free s.current_time s.running_jobs looked
          (omega (arith, kept, v.tracked)) in
      let divided : Perm (C.pending s.scheduler) (jobs ++ C.pending (pass s).0) =
        subst (λ l. Perm l (jobs ++ C.pending (pass s).0)) same perm in
      let sums : (f : ℕ → ℕ)
          → sum_of f (jobs ++ C.pending (pass s).0) ≡ sum_of f (C.pending s.scheduler) =
        λ f. sym (sum_of-Perm f divided) in
      record {
        inv = record {
          later = v.later;
          accounts = record {
            trace = v.trace;
            scheduler = inv;
            tracked = omega (arith, synced);
            apart = λ j. omega (arith, sums (λ k. if k == j then 1 else 0), v.apart j);
            waits =
                λ j some_j. v.waits j (omega (arith, sums (λ k. if k == j then 1 else 0), some_j));
            running = v.running;
            entries = v.entries;
            released = v.released;
            started = v.started;
            submitted = omega (
              arith,
              v.submitted,
              sum_of-one (C.pending s.scheduler),
              sum_of-one (jobs ++ C.pending (pass s).0),
              sums (λ k. 1),
            );
            noted_arrivals =
                λ t le. omega (arith, sums (comes_at submit_of t), v.noted_arrivals t le);
            area_time = v.area_time;
            capacity = v.capacity;
            changes = v.changes;
            clock = v.clock;
          };
        };
        synced = synced;
        due = due;
        room = omega (arith, budget, available_room s v);
        split = λ f. sym (sums f) ∙ sum_of-append f jobs (C.pending (pass s).0);
      }

  -- What the calls of the scheduler leave.
  pub record Schedules (s s' : Simulation S.State) : Type 0 where
    pub ready : Ready s'
    pub current_time : s'.current_time ≡ s.current_time
    pub changes : s'.capacity_changes ≡ s.capacity_changes
    pub current_capacity : s'.current_capacity ≡ s.current_capacity
    pub submitted : s'.jobs_submitted ≡ s.jobs_submitted
    pub completed : s'.jobs_completed ≡ s.jobs_completed
    pub room : occupied S s' ≤ max s.current_capacity (occupied S s)
    pub moved :
        length (C.pending s'.scheduler) + total runs s'.trace.ctx.evtq
        ≡ length (C.pending s.scheduler) + total runs s.trace.ctx.evtq
    pub more_run : total runs s.trace.ctx.evtq ≤ total runs s'.trace.ctx.evtq
    pub none_released : total releases s'.trace.ctx.evtq ≡ total releases s.trace.ctx.evtq
    pub ahead_same :
        ahead submit_of s'.current_time (C.pending s'.scheduler)
        ≡ ahead submit_of s.current_time (C.pending s.scheduler)

  due_not_ahead :
      (now : ℕ) (jobs : List ℕ) → All (λ j. submit_of j ≤ now) jobs → ahead submit_of now jobs ≡ 0
  due_not_ahead now [] due = refl
  due_not_ahead now (j ∷ jobs) due = ground (arith, due.0, due_not_ahead now jobs due.1)

  stopped :
      (s : Simulation S.State) (jobs : List ℕ)
      → (pass s).1 ≡ jobs
      → length jobs ≡ 0
      → Ready s
      → Schedules s (called s)
  stopped s (j ∷ jobs) eq none_left r = absurd (omega arith)
  stopped s [] eq none_left r =
      let c = pass-Calls s r in
      let split : (f : ℕ → ℕ)
          → sum_of f (C.pending s.scheduler) ≡ 0 + sum_of f (C.pending (pass s).0) =
        λ f. c.split f ∙ ap (λ l. sum_of f l + sum_of f (C.pending (pass s).0)) eq in
      record {
        ready = record {
          inv = subst (λ l. SimInv S size submit_of C l (called s)) eq c.inv;
          synced = c.synced;
          quiet = r.quiet;
        };
        current_time = refl;
        changes = refl;
        current_capacity = refl;
        submitted = refl;
        completed = refl;
        room = omega arith;
        moved = omega (
          arith,
          sum_of-one (C.pending s.scheduler),
          sum_of-one (C.pending (pass s).0),
          split (λ k. 1),
        );
        more_run = omega arith;
        none_released = refl;
        ahead_same = omega (arith, split (is_ahead submit_of s.current_time));
      }

  -- Some jobs were started, and the loop went on.
  went_on :
      (s a s' : Simulation S.State) (jobs : List ℕ)
      → a.current_time ≡ s.current_time
      → a.capacity_changes ≡ s.capacity_changes
      → a.current_capacity ≡ s.current_capacity
      → a.jobs_submitted ≡ s.jobs_submitted
      → a.jobs_completed ≡ s.jobs_completed
      → occupied S a ≤ max s.current_capacity (occupied S s)
      → total runs a.trace.ctx.evtq ≡ total runs s.trace.ctx.evtq + length jobs
      → total releases a.trace.ctx.evtq ≡ total releases s.trace.ctx.evtq
      → length (C.pending s.scheduler) ≡ length jobs + length (C.pending a.scheduler)
      → ahead submit_of a.current_time (C.pending a.scheduler)
        ≡ ahead submit_of s.current_time (C.pending s.scheduler)
      → Schedules a s'
      → Schedules s s'
  went_on s a s' jobs time changes capacity submitted completed room ran freed left front rest =
      record {
        ready = rest.ready;
        current_time = rest.current_time ∙ time;
        changes = rest.changes ∙ changes;
        current_capacity = rest.current_capacity ∙ capacity;
        submitted = rest.submitted ∙ submitted;
        completed = rest.completed ∙ completed;
        room = omega (arith, rest.room, room, capacity);
        moved = omega (arith, rest.moved, ran, left);
        more_run = omega (arith, rest.more_run, ran);
        none_released = rest.none_released ∙ freed;
        ahead_same = rest.ahead_same ∙ front;
      }

  module _ (sample : ℕ → ℕ → ℕ) (start : Starter S sample) where
    loop_step :
        (fuel : ℕ) (s : Simulation S.State)
        → schedule_loop S sample start (suc fuel) s ≡ (
            if length (pass s).1 == 0
            then ok (called s)
            else start_jobs S sample start fuel (called s) (pass s).1 >>= λ s'.
                schedule_loop S sample start fuel s')
    unfolding schedule_loop call_scheduler publish_capacity_outlook
    loop_step fuel s = refl

    length_of_pass :
        (s : Simulation S.State)
        → Ready s
        → length (C.pending s.scheduler) ≡ length (pass s).1 + length (C.pending (pass s).0)
    length_of_pass s r = omega (
      arith,
      sum_of-one (C.pending s.scheduler),
      sum_of-one (C.pending (pass s).0),
      sum_of-one (pass s).1,
      (pass-Calls s r).split (λ k. 1),
    )

    front_same :
        (s a : Simulation S.State)
        → Ready s
        → Stays S (called s) a
        → ahead submit_of a.current_time (C.pending a.scheduler)
          ≡ ahead submit_of s.current_time (C.pending s.scheduler)
    front_same s a r st =
        let c = pass-Calls s r in
        let none_ahead = due_not_ahead s.current_time (pass s).1 c.due in
        ap (λ t. ahead submit_of t (C.pending a.scheduler)) st.current_time
        ∙ ap (λ x. ahead submit_of s.current_time (C.pending x)) st.scheduler
        ∙ omega (arith, c.split (is_ahead submit_of s.current_time), none_ahead)

    Ready-after :
        (s a : Simulation S.State)
        → Ready s
        → StartsAll S sample size submit_of C (pass s).1 (called s) a
        → Ready a
    Ready-after s a r all =
        let st = all.stays in
        record {
          inv = all.inv;
          synced = ap C.tracked st.scheduler ∙ (pass-Calls s r).synced ∙ sym st.current_time;
          quiet =
              subst (λ now. noted now a.pending_queue_arrivals ≡ 0) (sym st.current_time)
                (ap (noted s.current_time) st.arrivals ∙ r.quiet);
        }

    -- Between two events the calls of the scheduler end and throw nothing, on fuel that exceeds the
    -- number of the pending jobs by 4, with either way of starting a job. Every job returned moves
    -- from the pending to the running ones, the nodes occupied do not exceed the capacity or what
    -- was occupied before, no job completes, and the simulation is well-formed.
    pub schedule_loop-Schedules :
        (fuel : ℕ) (s : Simulation S.State)
        → IsStarter S sample size submit_of C start
        → length (C.pending s.scheduler) + 4 ≤ fuel
        → Ready s
        → Returns (schedule_loop S sample start fuel s) (Schedules s)
    schedule_loop-Schedules zero s good enough r = absurd (omega arith)
    schedule_loop-Schedules (suc fuel) s good enough r =
        let jobs = (pass s).1 in
        let c = pass-Calls s r in
        let v = r.inv in
        let left = length_of_pass s r in
        subst (λ x. Returns x (Schedules s)) (sym (loop_step fuel s))
          (if_ind (λ x. Returns x (Schedules s)) (length jobs == 0) _ _
            (λ none_left. stopped s jobs refl (ground (arith, none_left)) r)
            (λ some_left.
              Returns-bind (StartsAll S sample size submit_of C jobs (called s)) (Schedules s)
                (start_jobs S sample start fuel (called s) jobs)
                (λ s'. schedule_loop S sample start fuel s')
                (start_jobs-StartsAll S sample size submit_of C start fuel (called s) jobs good
                  (omega (arith, enough)) c.inv c.due r.quiet
                  (omega (arith, c.room, v.capacity, v.trace.small)))
                (λ a all.
                  let st = all.stays in
                  let moved : length (C.pending s.scheduler)
                      ≡ length jobs + length (C.pending a.scheduler) =
                    left ∙ ap (λ x. length jobs + length (C.pending x)) (sym st.scheduler) in
                  let some_job : 0 < length jobs = ground (arith, some_left) in
                  Returns-mono {Q = Schedules s} _
                    (schedule_loop-Schedules fuel a good (omega (arith, enough, moved, some_job))
                      (Ready-after s a r all))
                    (λ s' rest.
                      went_on s a s' jobs st.current_time st.capacity_changes st.current_capacity
                        st.submitted st.completed (omega (arith, all.used, c.room)) all.all_run
                        all.none_released moved (front_same s a r st) rest))))
