-- ===== src/Simulation/StartOne.antt =====
-- The start of one job, in the main loop and in the first one (src/sim/sim.cpp).
use dr_evt.Base.{
  ℕ, suc, ◌+◌, ◌^◌, ◌≤◌, ◌<◌, ◌≡◌, refl, sym, ◌∙◌, ap, subst, true, false, not, List, ◌∷◌, arith,
  ◌==◌,
}
use dr_evt.Base.Results.{ok, ◌>>=◌, Returns, Returns-bind}
use dr_evt.Base.Sums.{is}
use dr_evt.Events.{DrEvent, EventQueue, make_event, is_arrival}
use dr_evt.Events.Order.{total}
use dr_evt.Scheduler.{RunningJob}
use dr_evt.Trace.{JobRecord, Trace}
use dr_evt.Trace.Step.{process_event, run_until_inclusive}
use dr_evt.Trace.RunStart.{run_start}
use dr_evt.Trace.Ledger.{runs, releases}
use dr_evt.Trace.Start.{
  start_event, inserted, with_end, inserted-Has, inserted_evtq, process_start, Starts,
}
use dr_evt.Simulation.{SchedulerMethods, QueryRecord, Simulation}
use dr_evt.Simulation.Start.{process_start_event, start_next, start_first}
use dr_evt.Simulation.Contract.{Contract}
use dr_evt.Simulation.Invariant.{noted, SimInv}
use dr_evt.Simulation.Launch.{launched, launch-launched}
use dr_evt.Simulation.Started.{job_absent, started-SimInv}

self : (j : ℕ) → is j j ≡ 1
self j = ground arith

same_time : (a b : ℕ) → a ≡ b → not (a == b) ≡ false
same_time a b h = ground arith

start_time : (j now : ℕ) → (start_event j now).time ≡ now
unfolding make_event
start_time j now = refl

start_kind : (j now : ℕ) → is_arrival (start_event j now) ≡ true
unfolding make_event
start_kind j now = refl

module _ (S : SchedulerMethods) where
  -- What the start of jobs leaves alone.
  pub record Stays (s s' : Simulation S.State) : Type 0 where
    pub current_time : s'.current_time ≡ s.current_time
    pub scheduler : s'.scheduler ≡ s.scheduler
    pub capacity_changes : s'.capacity_changes ≡ s.capacity_changes
    pub current_capacity : s'.current_capacity ≡ s.current_capacity
    pub arrivals : s'.pending_queue_arrivals ≡ s.pending_queue_arrivals
    pub submitted : s'.jobs_submitted ≡ s.jobs_submitted
    pub completed : s'.jobs_completed ≡ s.jobs_completed

  -- The nodes in use and those being released.
  abbrev pub occupied : Simulation S.State → ℕ
  occupied s = s.trace.ctx.nodes_in_use + s.trace.ctx.nodes_releasing

  -- One job is running and the rest is as before.
  pub record StartsOne (size submit_of : ℕ → ℕ) (C : Contract S size submit_of) (todo : List ℕ)
      (j : ℕ) (s s' : Simulation S.State) : Type 0 where
    pub inv : SimInv S size submit_of C todo s'
    pub stays : Stays s s'
    pub used : occupied s' ≡ occupied s + size j
    pub one_runs : total runs s'.trace.ctx.evtq ≡ total runs s.trace.ctx.evtq + 1
    pub none_released : total releases s'.trace.ctx.evtq ≡ total releases s.trace.ctx.evtq

  module _ (sample : ℕ → ℕ → ℕ) where
    -- The front event is the start of a job.
    process_front_start :
        (s : Simulation S.State) (e : DrEvent) (q : EventQueue)
        → e.time ≡ s.current_time
        → is_arrival e ≡ true
        → process_start_event S sample s (e ∷ q)
          ≡ (process_event sample s.trace e q >>= λ trace. ok (record s { trace = trace }))
    unfolding process_start_event
    process_front_start s e q at starts = rw (same_time e.time s.current_time at, starts) refl

    module _ (size submit_of : ℕ → ℕ) (C : Contract S size submit_of) (todo : List ℕ)
        (s : Simulation S.State) (j : ℕ) (v : SimInv S size submit_of C (j ∷ todo) s)
        (due : submit_of j ≤ s.current_time)
        (quiet : noted s.current_time s.pending_queue_arrivals ≡ 0)
        (room : occupied s + size j < 2 ^ 32) where
      abbrev pub One : Simulation S.State → Type 0
      One = StartsOne size submit_of C todo j s

      from_Starts :
          (job : JobRecord) (qs : List QueryRecord) (entry : RunningJob) (t' : Trace)
          → Starts size s.current_time j s.trace t'
          → One (launched S sample size s j job qs entry t')
      from_Starts job qs entry t' st = record {
        inv = started-SimInv S sample size submit_of C todo s j v due quiet t' st job qs entry;
        stays = record {
          current_time = refl;
          scheduler = refl;
          capacity_changes = refl;
          current_capacity = refl;
          arrivals = refl;
          submitted = refl;
          completed = refl;
        };
        used = omega (arith, st.used, st.released);
        one_runs = unfold make_event in omega (arith, st.totals runs);
        none_released = unfold make_event in omega (arith, st.totals releases);
      }

      pub start_next-StartsOne : (fuel : ℕ) → Returns (start_next S sample fuel s j) One
      unfolding start_next
      start_next-StartsOne fuel =
          let now = s.current_time in
          let t = s.trace in
          let (job, has, startable, unscheduled) = v.waits j (omega (arith, v.apart j, self j)) in
          let absent = job_absent S sample size submit_of C todo s j v due quiet in
          let there = inserted-Has size t j now job v.trace has startable v.later absent room in
          let evtq = inserted_evtq size t j now job v.trace has startable v.later absent room in
          let (qs, entry, eq) = launch-launched S sample size s j job has there in
          let l = launched S sample size s j job qs entry (inserted size t j now job) in
          let front : process_start_event S sample l l.trace.ctx.evtq ≡ (
              process_event sample l.trace (start_event j now) (with_end size t j now job)
              >>= λ trace. ok (record l { trace = trace })) =
            ap (process_start_event S sample l) evtq
            ∙ process_front_start l (start_event j now) (with_end size t j now job)
                (start_time j now) (start_kind j now) in
          subst (λ r. Returns (r >>= λ k. process_start_event S sample k k.trace.ctx.evtq) One)
            (sym eq)
            (subst (λ r. Returns r One) (sym front)
              (Returns-bind (Starts size now j t) One
                (process_event sample l.trace (start_event j now) (with_end size t j now job))
                (λ trace. ok (record l { trace = trace }))
                (process_start size t j now job v.trace has startable v.later absent room sample)
                (λ t' st. from_Starts job qs entry t' st)))

      pub start_first-StartsOne :
          (fuel : ℕ) → Returns (start_first S sample (suc (suc (suc fuel))) s j) One
      unfolding start_first
      start_first-StartsOne fuel =
          let now = s.current_time in
          let t = s.trace in
          let (job, has, startable, unscheduled) = v.waits j (omega (arith, v.apart j, self j)) in
          let absent = job_absent S sample size submit_of C todo s j v due quiet in
          let there = inserted-Has size t j now job v.trace has startable v.later absent room in
          let (qs, entry, eq) = launch-launched S sample size s j job has there in
          let l = launched S sample size s j job qs entry (inserted size t j now job) in
          subst
            (λ r.
              Returns
                (r >>= λ k.
                  run_until_inclusive sample (suc (suc (suc fuel))) k.trace k.current_time
                  >>= λ trace. ok (record k { trace = trace }))
                One)
            (sym eq)
            (Returns-bind (Starts size now j t) One
              (run_until_inclusive sample (suc (suc (suc fuel))) l.trace now)
              (λ trace. ok (record l { trace = trace }))
              (run_start sample size t j now job v.trace has startable v.later absent room fuel)
              (λ t' st. from_Starts job qs entry t' st))
