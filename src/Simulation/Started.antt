-- ===== src/Simulation/Started.antt =====
-- A job that the driver (src/sim/sim.cpp) has started: the simulation is well-formed, with one job
-- less to start.
use dr_evt.Base.{
  ℕ, ◌≤◌, ◌<◌, ◌≡◌, ◌≢◌, ◌∙◌, subst, List, ◌∷◌, arith, ◌==◌, Bool-cases, inl, inr, ==_iff,
  if◌then◌else◌,
}
use dr_evt.Base.Sums.{sum_of-one, occurs, is}
use dr_evt.Events.{make_event}
use dr_evt.Events.Order.{total, about}
use dr_evt.Scheduler.{RunningJob}
use dr_evt.Trace.{JobRecord, Trace}
use dr_evt.Trace.Ledger.{runs, releases}
use dr_evt.Trace.Start.{Starts}
use dr_evt.Simulation.{SchedulerMethods, QueryRecord, Simulation}
use dr_evt.Simulation.Running.{assign}
use dr_evt.Simulation.Contract.{Contract}
use dr_evt.Simulation.Invariant.{Waits, noted, coming, waiting, SimInv}
use dr_evt.Simulation.Launch.{assign-adds, launched}

module _ (S : SchedulerMethods) (sample : ℕ → ℕ → ℕ) (size submit_of : ℕ → ℕ)
    (C : Contract S size submit_of) (todo : List ℕ) (s : Simulation S.State) (j : ℕ)
    (v : SimInv S size submit_of C (j ∷ todo) s) (due : submit_of j ≤ s.current_time)
    (quiet : noted s.current_time s.pending_queue_arrivals ≡ 0) where
  self : is j j ≡ 1
  self = ground arith

  pub job_absent : total (about j) s.trace.ctx.evtq ≡ 0
  job_absent = omega (arith, v.apart j, self)

  other_than : (k : ℕ) → 0 < occurs k (waiting S size submit_of C todo s) → k ≢ j
  other_than k some_k same =
      let some_j : 0 < occurs j (waiting S size submit_of C todo s) =
        subst (λ i. 0 < occurs i (waiting S size submit_of C todo s)) same some_k in
      absurd (omega (arith, v.apart j, self, some_j))

  noted_still :
      (t : ℕ)
      → s.current_time ≤ t
      → noted t s.pending_queue_arrivals ≤ coming submit_of t (waiting S size submit_of C todo s)
  noted_still t le = elim (Bool-cases (s.current_time == t)) [
    | inl same ↦
        let eq = (==_iff s.current_time t).0 same in
        let none_noted : noted t s.pending_queue_arrivals ≡ 0 =
          subst (λ i. noted i s.pending_queue_arrivals ≡ 0) eq quiet in
        omega (arith, none_noted)
    | inr other ↦ ground (arith, v.noted_arrivals t le, other, due)
  ]

  module _ (t' : Trace) (st : Starts size s.current_time j s.trace t') (job : JobRecord)
      (qs : List QueryRecord) (entry : RunningJob) where
    Waits-still : (k : ℕ) → 0 < occurs k (waiting S size submit_of C todo s) → Waits t'.store k
    Waits-still k some_k =
        let (r, has, startable, unscheduled) = v.waits k (omega (arith, some_k)) in
        (
          r,
          st.live k r (other_than k some_k) has (startable.0, omega (arith, unscheduled, v.clock)),
          startable,
          unscheduled,
        )

    pub started-SimInv : SimInv S size submit_of C todo (launched S sample size s j job qs entry t')
    unfolding make_event
    started-SimInv = record {
      later = st.later;
      accounts = record {
        trace = st.inv;
        scheduler = v.scheduler;
        tracked = v.tracked;
        apart = λ k. omega (arith, st.totals (about k), v.apart k);
        waits = Waits-still;
        running = λ k. omega (
          arith,
          assign-adds (λ m. if m.0 == k then 1 else 0) j entry s.running_jobs
              (v.running j ∙ job_absent),
          v.running k,
          st.totals (about k),
        );
        entries = omega (
          arith,
          sum_of-one (assign j entry s.running_jobs),
          sum_of-one s.running_jobs,
          assign-adds (λ m. 1) j entry s.running_jobs (v.running j ∙ job_absent),
          v.entries,
          st.totals runs,
          st.totals releases,
        );
        released = omega (arith, v.released, st.totals releases);
        started = omega (arith, v.started, st.totals runs);
        submitted = omega (arith, v.submitted);
        noted_arrivals = noted_still;
        area_time = v.area_time;
        capacity = v.capacity;
        changes = v.changes;
        clock = v.clock;
      };
    }
