-- ===== src/Simulation/Entry.antt =====
-- What `advance_to_impl` (src/sim/sim.cpp) does before and after its main loop, and the whole.
use dr_evt.Base.{
  ℕ, ◌+◌, ◌≤◌, ◌<◌, ◌≡◌, refl, sym, ◌∙◌, ap, subst, [], arith, ◌==◌, All, All-mono, length, if_ind,
  le→ltb, if◌then◌else◌,
}
use dr_evt.Base.Results.{ok, ◌>>=◌, Returns, Returns-bind, Returns-mono}
use dr_evt.Scheduler.{max_time}
use dr_evt.Trace.{unscheduled_sentinel}
use dr_evt.Simulation.{SchedulerMethods, Simulation}
use dr_evt.Simulation.Capacity.{apply_changes, apply_capacity_changes}
use dr_evt.Simulation.Submit.{record_queue_arrivals}
use dr_evt.Simulation.Start.{start_first, schedule_loop}
use dr_evt.Simulation.Advance.{note_peak, main_loop, enter, leave, advance_to}
use dr_evt.Simulation.Contract.{Contract, ahead}
use dr_evt.Simulation.Invariant.{noted, coming, SimInv}
use dr_evt.Simulation.StartAll.{start_first-IsStarter}
use dr_evt.Simulation.Scheduling.{Ready, Schedules, schedule_loop-Schedules}
use dr_evt.Simulation.Handle.{energy}
use dr_evt.Simulation.Arrivals.{Records, record_queue_arrivals-Records}
use dr_evt.Simulation.Move.{Shows, synced_at, at_time, moved}
use dr_evt.Simulation.Change.{HeadLater, Changes, apply_changes-Changes}
use dr_evt.Simulation.Loop.{work}
use dr_evt.Simulation.Select.{Exhausted, sentinel_before_max}
use dr_evt.Simulation.Total.{Goes, note_peak-Goes, Schedules-Goes, Ends, main_loop-Ends}

module _ (S : SchedulerMethods) (size submit_of : ℕ → ℕ) (C : Contract S size submit_of)
    (sample : ℕ → ℕ → ℕ) where
  -- The clock of the scheduler was set, and the changes due are in force.
  entered :
      (s m c : Simulation S.State)
      → All (λ e. s.current_time < e.time) s.trace.ctx.evtq
      → Shows S size submit_of C s.current_time s m
      → Changes S size submit_of C s.current_time m.capacity_changes m c
      → Goes S size submit_of C s c
  entered s m c later mv ch =
      let at : c.current_time ≡ s.current_time = ch.current_time ∙ mv.current_time in
      let pend : C.pending c.scheduler ≡ C.pending s.scheduler =
        ap C.pending ch.scheduler ∙ mv.pending in
      let queue : c.trace.ctx.evtq ≡ s.trace.ctx.evtq = ch.evtq ∙ ap (λ t. t.ctx.evtq) mv.trace in
      record {
        ready = record {
          inv = record {
            accounts = ch.inv;
            later =
                subst (All (λ e. c.current_time < e.time)) (sym queue)
                  (subst (λ t. All (λ e. t < e.time) s.trace.ctx.evtq) (sym at) later);
          };
          synced = ap C.tracked ch.scheduler ∙ mv.synced ∙ sym at;
          quiet =
              subst (λ t. noted t c.pending_queue_arrivals ≡ 0) (sym at)
                (ap (noted s.current_time) ch.arrivals ∙ mv.quiet);
        };
        current_time = at;
        head = subst (λ t. HeadLater t c.capacity_changes) (sym at) ch.left;
        submitted = ch.submitted ∙ mv.submitted;
        less = omega (
          arith,
          ap length pend,
          ap energy queue,
          ch.fewer,
          ap length mv.changes,
          ap (λ t. ahead submit_of t (C.pending c.scheduler)) at,
          ap (ahead submit_of s.current_time) pend,
        );
      }

  Goes-trans :
      (a b c : Simulation S.State)
      → Goes S size submit_of C a b
      → Goes S size submit_of C b c
      → Goes S size submit_of C a c
  Goes-trans a b c g h = record {
    ready = h.ready;
    current_time = h.current_time ∙ g.current_time;
    head = h.head;
    submitted = h.submitted ∙ g.submitted;
    less = omega (arith, g.less, h.less);
  }

  -- The first calls of the scheduler, if some job waits.
  first_calls :
      (fuel : ℕ) (a : Simulation S.State)
      → length (C.pending a.scheduler) + 4 ≤ fuel
      → Ready S size submit_of C a
      → HeadLater a.current_time a.capacity_changes
      → Returns
          (if S.has_eligible_jobs a.scheduler
            then schedule_loop S sample (start_first S sample) fuel a
            else ok a)
          (Goes S size submit_of C a)
  first_calls fuel a enough r head =
      if_ind (λ x. Returns x (Goes S size submit_of C a)) (S.has_eligible_jobs a.scheduler) _ _
        (λ some_wait.
          Returns-mono {P = Schedules S size submit_of C a} {Q = Goes S size submit_of C a}
            (schedule_loop S sample (start_first S sample) fuel a)
            (schedule_loop-Schedules S size submit_of C sample (start_first S sample) fuel a
              (start_first-IsStarter S sample size submit_of C) enough r)
            (λ s'. Schedules-Goes S size submit_of C sample a s' head))
        (λ none_wait. record {
          ready = r;
          current_time = refl;
          head = head;
          submitted = refl;
          less = omega arith;
        })

  -- What follows the statistics of the arrivals.
  after_arrivals :
      (fuel : ℕ) (s m : Simulation S.State)
      → SimInv S size submit_of C [] s
      → work S size submit_of C s + 6 ≤ fuel
      → Shows S size submit_of C s.current_time s m
      → let c = apply_changes S m m.current_time m.capacity_changes in
        Returns
          ((if S.has_eligible_jobs c.scheduler
              then schedule_loop S sample (start_first S sample) fuel c
              else ok c)
            >>= λ e. ok (note_peak S sample e))
          (Goes S size submit_of C s)
  after_arrivals fuel s m v enough mv =
      let c = apply_changes S m m.current_time m.capacity_changes in
      let ch =
        apply_changes-Changes S size submit_of C m.current_time m.capacity_changes m mv.inv.changes
          mv.inv in
      let g =
        entered s m c v.later mv
          (subst (λ t. Changes S size submit_of C t m.capacity_changes m c) mv.current_time ch) in
      Returns-bind (Goes S size submit_of C c) (Goes S size submit_of C s) _
        (λ e. ok (note_peak S sample e))
        (first_calls fuel c (omega (arith, g.less, enough)) g.ready g.head)
        (λ e f. note_peak-Goes S size submit_of C sample s e (Goes-trans s c e g f))

  enter-Goes :
      (fuel : ℕ) (s : Simulation S.State)
      → SimInv S size submit_of C [] s
      → work S size submit_of C s + 6 ≤ fuel
      → Returns (enter S sample fuel s) (Goes S size submit_of C s)
  unfolding enter apply_capacity_changes
  enter-Goes fuel s v enough =
      let now = s.current_time in
      let (inv, same, at) = C.syncs s.scheduler s.latest_submit_time now v.scheduler v.tracked in
      let y = synced_at S size submit_of C s s.capacity_area s.capacity_area_time now in
      let noted_here : noted now s.pending_queue_arrivals
          ≤ coming submit_of now (C.pending (S.sync_to s.scheduler now)) =
        omega (arith, v.noted_arrivals now (omega arith), ap (coming submit_of now) same) in
      Returns-bind (λ r. Shows S size submit_of C now s r.0) (Goes S size submit_of C s)
        (record_queue_arrivals S y now) _
        (Returns-mono {P = Records S size submit_of C now y}
          {Q = λ r. Shows S size submit_of C now s r.0} (record_queue_arrivals S y now)
          (record_queue_arrivals-Records S size submit_of C y now inv at noted_here)
          (λ r d. subst (Shows S size submit_of C now s) (sym d.state) (
            moved S size submit_of C sample s now v.accounts (omega arith) v.trace.due v.clock
              s.capacity_area s.capacity_area_time d.sum d.samples d.rest v.area_time d.fewer
              d.quiet)))
        (λ r mv. after_arrivals fuel s r.0 v enough mv)

  -- The clock stands at the target, and nothing is left to do by then.
  pub record Arrives (target : ℕ) (s s' : Simulation S.State) : Type 0 where
    pub inv : SimInv S size submit_of C [] s'
    pub current_time : s'.current_time ≡ target
    pub exhausted : Exhausted S size submit_of C sample target s'
    pub submitted : s'.jobs_submitted ≡ s.jobs_submitted

  leave-Arrives :
      (s m : Simulation S.State) (target : ℕ)
      → target < unscheduled_sentinel
      → Ends S size submit_of C sample target s m
      → Arrives target s (leave S sample m target)
  unfolding leave
  leave-Arrives s m target before e =
      let below = sentinel_before_max in
      let v = e.ready.inv in
      if_ind (Arrives target s) (target == max_time) _ _
        (λ at_max. absurd (ground (arith, at_max, before, below)))
        (λ finite. record {
          inv = record {
            accounts = record {
              trace =
                  at_time S size submit_of C size m.current_time target m.trace
                    (All-mono m.trace.ctx.evtq (λ x lt. omega (arith, lt)) e.exhausted.later)
                    v.trace;
              scheduler = v.scheduler;
              tracked = omega (arith, v.tracked, e.not_after);
              apart = v.apart;
              waits = v.waits;
              running = v.running;
              entries = v.entries;
              released = v.released;
              started = v.started;
              submitted = v.submitted;
              noted_arrivals = λ t le. v.noted_arrivals t (omega (arith, le, e.not_after));
              area_time = omega (arith, v.area_time, e.not_after);
              capacity = v.capacity;
              changes = v.changes;
              clock = before;
            };
            later = e.exhausted.later;
          };
          current_time = refl;
          exhausted = record {
            later = e.exhausted.later;
            head = e.exhausted.head;
            arrival = e.exhausted.arrival;
          };
          submitted = e.submitted;
        })

  in_order :
      (fuel : ℕ) (s : Simulation S.State) (target : ℕ)
      → s.current_time ≤ target
      → advance_to S sample fuel s target ≡ (
          enter S sample fuel s >>= λ e.
          main_loop S sample fuel e target >>= λ m. ok (leave S sample m target))
  unfolding advance_to
  in_order fuel s target le = rw (le→ltb target s.current_time le) refl

  -- For every scheduler that meets its contract, every well-formed simulation and every target that
  -- is neither behind the clock nor the sentinel or later, `advance_to` ends and throws nothing, on
  -- fuel that exceeds by 6 the work left (the pending jobs, events and capacity changes). The clock
  -- then stands at the target, every event, capacity change and arrival left is later, no job was
  -- submitted meanwhile, and the simulation is well-formed.
  pub advance_to-Arrives :
      (fuel : ℕ) (s : Simulation S.State) (target : ℕ)
      → SimInv S size submit_of C [] s
      → s.current_time ≤ target
      → target < unscheduled_sentinel
      → work S size submit_of C s + 6 ≤ fuel
      → Returns (advance_to S sample fuel s target) (Arrives target s)
  unfolding advance_to
  advance_to-Arrives fuel s target v le before enough =
      subst (λ x. Returns x (Arrives target s)) (sym (in_order fuel s target le))
        (Returns-bind (Goes S size submit_of C s) (Arrives target s) (enter S sample fuel s)
          (λ e. main_loop S sample fuel e target >>= λ m. ok (leave S sample m target))
          (enter-Goes fuel s v enough)
          (λ e g.
            Returns-bind (Ends S size submit_of C sample target e) (Arrives target s)
              (main_loop S sample fuel e target) (λ m. ok (leave S sample m target))
              (main_loop-Ends S size submit_of C sample target before fuel e g.ready g.head
                (omega (arith, g.current_time, le)) (omega (arith, g.less, enough)))
              (λ m x.
                let a = leave-Arrives e m target before x in
                record {
                  inv = a.inv;
                  current_time = a.current_time;
                  exhausted = a.exhausted;
                  submitted = a.submitted ∙ g.submitted;
                })))
