-- ===== src/Simulation/Total.antt =====
-- The main loop of `advance_to_impl` (src/sim/sim.cpp) up to its target: it ends, throws nothing,
-- and leaves nothing to do by then.
use dr_evt.Base.{
  ℕ, zero, suc, ◌+◌, ◌≤◌, ◌<◌, ◌≡◌, refl, sym, ◌∙◌, ap, subst, Bool, true, false, not, Option, none,
  some, [], ◌∷◌, arith, All, length, if_ind,
}
use dr_evt.Base.Results.{Returns, Returns-bind, Returns-mono}
use dr_evt.Events.{EventQueue}
use dr_evt.Trace.{unscheduled_sentinel}
use dr_evt.Simulation.{SchedulerMethods, Simulation}
use dr_evt.Simulation.Start.{start_next, schedule_loop}
use dr_evt.Simulation.Advance.{
  is_queue_empty, select_event, note_peak, schedule_if, has_work, after_event, main_loop,
}
use dr_evt.Simulation.Contract.{Contract}
use dr_evt.Simulation.Invariant.{Accounts}
use dr_evt.Simulation.StartAll.{start_next-IsStarter}
use dr_evt.Simulation.Scheduling.{Ready, Schedules, schedule_loop-Schedules}
use dr_evt.Simulation.Change.{HeadLater}
use dr_evt.Simulation.Loop.{work, Settled}
use dr_evt.Simulation.Select.{
  Exhausted, Selects, select_event-Selects, sentinel_before_max, head_later,
}

empty_later :
    (target : ℕ) (q : EventQueue) → not (is_queue_empty q) ≡ false → All (λ e. target < e.time) q
empty_later target [] h = tt
empty_later target (e ∷ q) h = absurd (cc h)

module _ (S : SchedulerMethods) (size submit_of : ℕ → ℕ) (C : Contract S size submit_of) where
  peak_kept :
      (s : Simulation S.State) (n : ℕ)
      → Accounts S size submit_of C [] s
      → Accounts S size submit_of C [] (record s { queue_length_peak = n })
  peak_kept s n v = record {
    trace = v.trace;
    scheduler = v.scheduler;
    tracked = v.tracked;
    apart = v.apart;
    waits = v.waits;
    running = v.running;
    entries = v.entries;
    released = v.released;
    started = v.started;
    submitted = v.submitted;
    noted_arrivals = v.noted_arrivals;
    area_time = v.area_time;
    capacity = v.capacity;
    changes = v.changes;
    clock = v.clock;
  }

  -- The clock stands, and no more is left to do than before.
  pub record Goes (s s' : Simulation S.State) : Type 0 where
    pub ready : Ready S size submit_of C s'
    pub current_time : s'.current_time ≡ s.current_time
    pub head : HeadLater s'.current_time s'.capacity_changes
    pub submitted : s'.jobs_submitted ≡ s.jobs_submitted
    pub less : work S size submit_of C s' ≤ work S size submit_of C s

  module _ (sample : ℕ → ℕ → ℕ) where
    pub note_peak-Goes : (s s' : Simulation S.State) → Goes s s' → Goes s (note_peak S sample s')
    unfolding note_peak
    note_peak-Goes s s' g = record {
      ready = record {
        inv = record { accounts = peak_kept s' _ g.ready.inv.accounts; later = g.ready.inv.later };
        synced = g.ready.synced;
        quiet = g.ready.quiet;
      };
      current_time = g.current_time;
      head = g.head;
      submitted = g.submitted;
      less = g.less;
    }

    pub Schedules-Goes :
        (s s' : Simulation S.State)
        → HeadLater s.current_time s.capacity_changes
        → Schedules S size submit_of C s s'
        → Goes s s'
    Schedules-Goes s s' head r = record {
      ready = r.ready;
      current_time = r.current_time;
      head =
          subst (HeadLater s'.current_time) (sym r.changes)
            (subst (λ t. HeadLater t s.capacity_changes) (sym r.current_time) head);
      submitted = r.submitted;
      less = omega (arith, r.moved, r.more_run, r.none_released, r.ahead_same, ap length r.changes);
    }

    schedule_if-Goes :
        (b : Bool) (fuel : ℕ) (s : Simulation S.State)
        → length (C.pending s.scheduler) + 4 ≤ fuel
        → Ready S size submit_of C s
        → HeadLater s.current_time s.capacity_changes
        → Returns (schedule_if S sample b fuel s) (Goes s)
    unfolding schedule_if
    schedule_if-Goes true fuel s enough r head =
        Returns-mono {P = Schedules S size submit_of C s} {Q = Goes s}
          (schedule_loop S sample (start_next S sample) fuel s)
          (schedule_loop-Schedules S size submit_of C sample (start_next S sample) fuel s
            (start_next-IsStarter S sample size submit_of C) enough r)
          (λ s'. Schedules-Goes s s' head)
    schedule_if-Goes false fuel s enough r head = record {
      ready = r;
      current_time = refl;
      head = head;
      submitted = refl;
      less = omega arith;
    }

    -- The loop has come to its end, with nothing to do up to the target.
    pub record Ends (target : ℕ) (s s' : Simulation S.State) : Type 0 where
      pub ready : Ready S size submit_of C s'
      pub not_after : s'.current_time ≤ target
      pub exhausted : Exhausted S size submit_of C sample target s'
      pub submitted : s'.jobs_submitted ≡ s.jobs_submitted

    no_work :
        (s : Simulation S.State) (target : ℕ)
        → target < unscheduled_sentinel
        → has_work S sample s target ≡ false
        → Exhausted S size submit_of C sample target s
    unfolding has_work
    no_work s target before none_left =
        let below = sentinel_before_max in
        record {
          later = empty_later target s.trace.ctx.evtq (ground (arith, none_left));
          head = head_later target s.capacity_changes (ground (arith, none_left, before, below));
          arrival = ground (arith, none_left, before, below);
        }

    module _ (target : ℕ) (before : target < unscheduled_sentinel) where
      -- The rest of the loop's body, after the next event was handled.
      after-Settled :
          (fuel time : ℕ) (s a : Simulation S.State) (b : Bool)
          → ((x : Simulation S.State)
              → Ready S size submit_of C x
              → HeadLater x.current_time x.capacity_changes
              → x.current_time ≤ target
              → work S size submit_of C x + 6 ≤ fuel
              → Returns (main_loop S sample fuel x target) (Ends target x))
          → time ≤ target
          → work S size submit_of C s + 6 ≤ suc fuel
          → Settled S size submit_of C time s a
          → Returns
              (after_event S sample (λ x. main_loop S sample fuel x target) fuel s (some (a, b)))
              (Ends target s)
      unfolding after_event
      after-Settled fuel time s a b again to enough settled =
          Returns-bind (Goes a) (Ends target s) (schedule_if S sample b fuel a)
            (λ x. main_loop S sample fuel (note_peak S sample x) target)
            (schedule_if-Goes b fuel a (omega (arith, enough, settled.less)) settled.ready
              (subst (λ t. HeadLater t a.capacity_changes) (sym settled.current_time) settled.head))
            (λ x g.
              let p = note_peak-Goes a x g in
              Returns-mono {P = Ends target (note_peak S sample x)} {Q = Ends target s}
                (main_loop S sample fuel (note_peak S sample x) target)
                (again (note_peak S sample x) p.ready p.head
                  (omega (arith, p.current_time, settled.current_time, to))
                  (omega (arith, p.less, settled.less, enough)))
                (λ s' e. record {
                  ready = e.ready;
                  not_after = e.not_after;
                  exhausted = e.exhausted;
                  submitted = e.submitted ∙ p.submitted ∙ settled.submitted;
                }))

      after_selected :
          (fuel : ℕ) (s : Simulation S.State) (o : Option (Simulation S.State × Bool))
          → ((x : Simulation S.State)
              → Ready S size submit_of C x
              → HeadLater x.current_time x.capacity_changes
              → x.current_time ≤ target
              → work S size submit_of C x + 6 ≤ fuel
              → Returns (main_loop S sample fuel x target) (Ends target x))
          → Ready S size submit_of C s
          → s.current_time ≤ target
          → work S size submit_of C s + 6 ≤ suc fuel
          → Selects S size submit_of C sample target s o
          → Returns
              (after_event S sample (λ x. main_loop S sample fuel x target) fuel s o)
              (Ends target s)
      unfolding after_event
      after_selected fuel s none again r to enough done = record {
        ready = r;
        not_after = to;
        exhausted = done;
        submitted = refl;
      }
      after_selected fuel s (some (a, b)) again r to enough (time, le, up, settled) =
          after-Settled fuel time s a b again up enough settled

      pub main_loop-Ends :
          (fuel : ℕ) (s : Simulation S.State)
          → Ready S size submit_of C s
          → HeadLater s.current_time s.capacity_changes
          → s.current_time ≤ target
          → work S size submit_of C s + 6 ≤ fuel
          → Returns (main_loop S sample fuel s target) (Ends target s)
      unfolding main_loop
      main_loop-Ends zero s r head to enough = absurd (omega arith)
      main_loop-Ends (suc fuel) s r head to enough =
          if_ind (λ x. Returns x (Ends target s)) (has_work S sample s target) _ _
            (λ some_left.
              Returns-bind (Selects S size submit_of C sample target s) (Ends target s)
                (select_event S sample fuel s target)
                (λ o. after_event S sample (λ x. main_loop S sample fuel x target) fuel s o)
                (select_event-Selects S size submit_of C sample fuel s target r head before
                  (omega (arith, enough)))
                (λ o. after_selected fuel s o (main_loop-Ends fuel) r to enough))
            (λ none_left. record {
              ready = r;
              not_after = to;
              exhausted = no_work s target before none_left;
              submitted = refl;
            })
