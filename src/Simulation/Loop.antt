-- ===== src/Simulation/Loop.antt =====
-- The branches of the main loop of `advance_to_impl` (src/sim/sim.cpp): each moves the clock to an
-- event and leaves less to do.
use dr_evt.Base.{
  ℕ, ◌+◌, ◌*◌, ◌≤◌, ◌<◌, ◌≡◌, refl, sym, ◌∙◌, ap, subst, Bool, false, [], ◌∷◌, arith, All, All-mono,
  length, ◌⊎◌, inl, inr,
}
use dr_evt.Base.Results.{ok, Returns, Returns-bind}
use dr_evt.Events.{DrEvent, EventQueue}
use dr_evt.Events.Order.{Ordered, front_first}
use dr_evt.Trace.{unscheduled_sentinel}
use dr_evt.Simulation.{SchedulerMethods, Simulation}
use dr_evt.Simulation.Capacity.{apply_changes, apply_capacity_changes}
use dr_evt.Simulation.Advance.{move_to, events_at, replay_branch, arrival_branch}
use dr_evt.Simulation.Contract.{Contract, ahead, ahead-later}
use dr_evt.Simulation.Invariant.{noted, Accounts}
use dr_evt.Simulation.Scheduling.{Ready}
use dr_evt.Simulation.Handle.{energy, Handles}
use dr_evt.Simulation.Drain.{front_due, Drained, Handles-refl, events_at-Drains}
use dr_evt.Simulation.Move.{Shows, move_to-Shows}
use dr_evt.Simulation.Change.{HeadLater, change_due, Changes, apply_changes-Changes}

module _ (S : SchedulerMethods) (size submit_of : ℕ → ℕ) (C : Contract S size submit_of) where
  -- What is left to do: pending jobs have to arrive, start, depart and release their nodes.
  abbrev pub work : Simulation S.State → ℕ
  work s =
      3 * length (C.pending s.scheduler)
      + ahead submit_of s.current_time (C.pending s.scheduler)
      + energy s.trace.ctx.evtq
      + length s.capacity_changes

  -- Ready for the scheduler at `time`, with less to do than before.
  pub record Settled (time : ℕ) (s s' : Simulation S.State) : Type 0 where
    pub ready : Ready S size submit_of C s'
    pub current_time : s'.current_time ≡ time
    pub head : HeadLater time s'.capacity_changes
    pub submitted : s'.jobs_submitted ≡ s.jobs_submitted
    pub less : work s' + 1 ≤ work s

  module _ (sample : ℕ → ℕ → ℕ) (s : Simulation S.State) (time : ℕ)
      (v : Accounts S size submit_of C [] s) (le : s.current_time ≤ time)
      (before : time < unscheduled_sentinel) where
    -- The clock moved, all events due were handled, and the changes due are in force.
    settled :
        (m d c : Simulation S.State)
        → Shows S size submit_of C time s m
        → Handles S size submit_of C m d
        → All (λ e. d.current_time < e.time) d.trace.ctx.evtq
        → Changes S size submit_of C time d.capacity_changes d c
        → ahead submit_of time (C.pending s.scheduler)
            + energy d.trace.ctx.evtq
            + length c.capacity_changes
            + 1
          ≤ ahead submit_of s.current_time (C.pending s.scheduler)
            + energy s.trace.ctx.evtq
            + length s.capacity_changes
        → Settled time s c
    settled m d c mv h later ch less =
        let at : c.current_time ≡ time = ch.current_time ∙ h.current_time ∙ mv.current_time in
        let sched : c.scheduler ≡ m.scheduler = ch.scheduler ∙ h.scheduler in
        let pend : C.pending c.scheduler ≡ C.pending s.scheduler =
          ap C.pending sched ∙ mv.pending in
        record {
          ready = record {
            inv = record {
              accounts = ch.inv;
              later =
                  subst (All (λ e. c.current_time < e.time)) (sym ch.evtq) (
                    subst (λ t. All (λ e. t < e.time) d.trace.ctx.evtq) (sym ch.current_time)
                      later);
            };
            synced = ap C.tracked sched ∙ mv.synced ∙ sym at;
            quiet =
                subst (λ t. noted t c.pending_queue_arrivals ≡ 0) (sym at)
                  (ap (noted time) (ch.arrivals ∙ h.arrivals) ∙ mv.quiet);
          };
          current_time = at;
          head = ch.left;
          submitted = ch.submitted ∙ h.submitted ∙ mv.submitted;
          less = omega (
            arith,
            less,
            ap length pend,
            ap energy ch.evtq,
            ap (λ t. ahead submit_of t (C.pending c.scheduler)) at,
            ap (ahead submit_of time) pend,
          );
        }

    abbrev SettledBy : Simulation S.State × Bool → Type 0
    SettledBy r = Settled time s r.0

    small-Changes :
        (d : Simulation S.State)
        → Accounts S size submit_of C [] d
        → Changes S size submit_of C time d.capacity_changes d
            (apply_changes S d time d.capacity_changes)
    small-Changes d dv =
        apply_changes-Changes S size submit_of C time d.capacity_changes d dv.changes dv

    pub replay_settles :
        (fuel next : ℕ) (e : DrEvent) (q : EventQueue)
        → s.trace.ctx.evtq ≡ e ∷ q
        → e.time ≡ time
        → energy s.trace.ctx.evtq + 1 ≤ fuel
        → Returns (replay_branch S sample fuel s time next) SettledBy
    unfolding replay_branch apply_capacity_changes
    replay_settles fuel next e q eq at enough =
        let ordered = subst Ordered eq v.trace.ordered in
        let due : All (λ x. time ≤ x.time) s.trace.ctx.evtq =
          subst (All (λ x. time ≤ x.time)) (sym eq) (
            subst (λ t. All (λ x. t ≤ x.time) (e ∷ q)) at (omega arith, front_first e q ordered)) in
        Returns-bind (Shows S size submit_of C time s) SettledBy (move_to S sample s time) _
          (move_to-Shows S size submit_of C sample s time v le due before)
          (λ m mv.
            let queue : m.trace.ctx.evtq ≡ s.trace.ctx.evtq = ap (λ t. t.ctx.evtq) mv.trace in
            Returns-bind (Drained S sample size submit_of C m) SettledBy
              (events_at S sample fuel m m.trace.ctx.evtq false)
              (λ r. ok (apply_changes S r.0 time r.0.capacity_changes, _))
              (events_at-Drains S sample size submit_of C fuel m m.trace.ctx.evtq false
                (omega (arith, ap energy queue, enough)) mv.inv refl)
              (λ r d.
                let ch = small-Changes r.0 d.handles.inv in
                let due_now =
                  front_due m.current_time e q m.trace.ctx.evtq (queue ∙ eq)
                    (at ∙ sym mv.current_time) in
                settled m r.0 _ mv d.handles d.later ch (
                  omega (
                    arith,
                    d.less,
                    due_now,
                    ap energy queue,
                    ch.fewer,
                    ap length d.handles.changes,
                    ap length mv.changes,
                    ahead-later submit_of s.current_time time (C.pending s.scheduler) le,
                  ))))

    pub arrival_settles :
        All (λ x. time < x.time) s.trace.ctx.evtq
        → ahead submit_of time (C.pending s.scheduler) + 1
            ≤ ahead submit_of s.current_time (C.pending s.scheduler)
          ⊎ (1 ≤ change_due time s.capacity_changes)
        → Returns (arrival_branch S sample s time) SettledBy
    unfolding arrival_branch apply_capacity_changes
    arrival_settles later progress =
        Returns-bind (Shows S size submit_of C time s) SettledBy (move_to S sample s time) _
          (move_to-Shows S size submit_of C sample s time v le
            (All-mono s.trace.ctx.evtq (λ x lt. omega (arith, lt)) later) before)
          (λ m mv.
            let queue : m.trace.ctx.evtq ≡ s.trace.ctx.evtq = ap (λ t. t.ctx.evtq) mv.trace in
            let ch = small-Changes m mv.inv in
            settled m m _ mv (Handles-refl S sample size submit_of C m mv.inv)
              (subst (λ t. All (λ x. t < x.time) m.trace.ctx.evtq) (sym mv.current_time)
                (subst (All (λ x. time < x.time)) (sym queue) later))
              ch
              (elim progress [
                | inl comes ↦ omega (arith, comes, ap energy queue, ch.fewer, ap length mv.changes)
                | inr changes ↦ omega (
                  arith,
                  changes,
                  ap energy queue,
                  ch.fewer,
                  ap length mv.changes,
                  ap (change_due time) mv.changes,
                  ahead-later submit_of s.current_time time (C.pending s.scheduler) le,
                )
              ]))
