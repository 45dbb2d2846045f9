-- ===== src/Simulation/Change.antt =====
-- The capacity changes that are due, in the driver (src/sim/sim.cpp).
use dr_evt.Base.{
  ℕ, ◌+◌, ◌^◌, ◌≤◌, ◌<◌, ◌≡◌, refl, sym, ◌∙◌, ap, subst, true, List, [], ◌∷◌, arith, leb, All,
  length, if_ind, leb→lt, if◌then◌else◌,
}
use dr_evt.Events.Order.{total, about}
use dr_evt.Scheduler.{CapacityChange}
use dr_evt.Trace.{Trace}
use dr_evt.Trace.Output.{set_resource_capacity}
use dr_evt.Trace.Ledger.{runs, releases}
use dr_evt.Trace.Process.{same-TraceInv}
use dr_evt.Trace.Settle.{SameLedger, record_resource_sample-SameLedger}
use dr_evt.Simulation.{SchedulerMethods, Simulation}
use dr_evt.Simulation.Capacity.{apply_changes}
use dr_evt.Simulation.Contract.{Contract}
use dr_evt.Simulation.Invariant.{Waits, Accounts}
use dr_evt.Simulation.StartOne.{occupied}
use dr_evt.Simulation.Sampled.{Samples, Samples-at, then-Samples, set_resource_capacity-Samples}

set_resource_capacity-SameLedger :
    (t : Trace) (time capacity : ℕ) → SameLedger t (set_resource_capacity t time capacity)
unfolding set_resource_capacity
set_resource_capacity-SameLedger t time capacity =
    let r =
      record_resource_sample-SameLedger (record t { current_capacity = capacity }) time
        t.ctx.nodes_in_use in
    record {
      evtq = r.evtq;
      in_use = r.in_use;
      releasing = r.releasing;
      store = r.store;
      delay = r.delay;
    }

-- No change is due.
abbrev pub HeadLater : ℕ → List CapacityChange → Type 0
HeadLater now [] = Unit {0}
HeadLater now (c ∷ cs) = now < c.time

-- 1 if a change is due, which the loop applies.
abbrev pub change_due : ℕ → List CapacityChange → ℕ
change_due now [] = 0
change_due now (c ∷ cs) = if leb c.time now then 1 else 0

-- The capacity of the last change in the front that is due.
abbrev pub capacity_at : ℕ → ℕ → List CapacityChange → ℕ
capacity_at now capacity [] = capacity
capacity_at now capacity (c ∷ cs) =
    let rest = capacity_at now c.total_nodes cs in if leb c.time now then rest else capacity

-- The changes behind the front that is due.
abbrev pub changes_after : ℕ → List CapacityChange → List CapacityChange
changes_after now [] = []
changes_after now (c ∷ cs) =
    let rest = changes_after now cs in if leb c.time now then rest else c ∷ cs

no_change :
    (now capacity : ℕ) (l : List CapacityChange)
    → change_due now l ≡ 0
    → (capacity_at now capacity l ≡ capacity) × (changes_after now l ≡ l)
no_change now capacity [] h = (refl, refl)
no_change now capacity (c ∷ cs) h = (ground (arith, h), ground (arith, h))

module _ (S : SchedulerMethods) (size submit_of : ℕ → ℕ) (C : Contract S size submit_of) where
  -- The changes `l` that were due at `now` are in force.
  pub record Changes (now : ℕ) (l : List CapacityChange) (s s' : Simulation S.State) : Type 0 where
    pub inv : Accounts S size submit_of C [] s'
    pub state : s' ≡ record s {
      trace = s'.trace;
      current_capacity = capacity_at now s.current_capacity l;
      capacity_changes = changes_after now l;
    }
    pub trace : Samples s.trace (capacity_at now s.trace.current_capacity l) s'.trace
    pub current_time : s'.current_time ≡ s.current_time
    pub scheduler : s'.scheduler ≡ s.scheduler
    pub arrivals : s'.pending_queue_arrivals ≡ s.pending_queue_arrivals
    pub submitted : s'.jobs_submitted ≡ s.jobs_submitted
    pub evtq : s'.trace.ctx.evtq ≡ s.trace.ctx.evtq
    pub same_occupied : occupied S s' ≡ occupied S s
    pub capacity : s'.current_capacity ≡ capacity_at now s.current_capacity l
    pub left : HeadLater now s'.capacity_changes
    pub fewer : length s'.capacity_changes + change_due now l ≤ length l

  abbrev in_force : Simulation S.State → CapacityChange → Simulation S.State
  in_force s c = record s {
    current_capacity = c.total_nodes;
    trace = set_resource_capacity s.trace c.time c.total_nodes;
  }

  in_force-Accounts :
      (s : Simulation S.State) (c : CapacityChange)
      → c.total_nodes < 2 ^ 32
      → Accounts S size submit_of C [] s
      → Accounts S size submit_of C [] (in_force s c)
  in_force-Accounts s c small v =
      let same = set_resource_capacity-SameLedger s.trace c.time c.total_nodes in
      let t' = set_resource_capacity s.trace c.time c.total_nodes in
      let sums : (f : _ → ℕ) → total f t'.ctx.evtq ≡ total f s.trace.ctx.evtq =
        λ f. ap (total f) same.evtq in
      record {
        trace = same-TraceInv size s.current_time s.trace t' same v.trace;
        scheduler = v.scheduler;
        tracked = v.tracked;
        apart = λ j. omega (arith, v.apart j, sums (about j));
        waits = λ j some_j. subst (λ st. Waits st j) (sym same.store) (v.waits j some_j);
        running = λ j. v.running j ∙ sym (sums (about j));
        entries = omega (arith, v.entries, sums runs, sums releases);
        released = v.released ∙ sym (sums releases);
        started = omega (arith, v.started, sums runs);
        submitted = v.submitted;
        noted_arrivals = v.noted_arrivals;
        area_time = v.area_time;
        capacity = small;
        changes = v.changes;
        clock = v.clock;
      }

  kept_changes :
      (s : Simulation S.State) (l : List CapacityChange)
      → All (λ (c : CapacityChange). c.total_nodes < 2 ^ 32) l
      → Accounts S size submit_of C [] s
      → Accounts S size submit_of C [] (record s { capacity_changes = l })
  kept_changes s l small v = record {
    trace = v.trace;
    scheduler = v.scheduler;
    tracked = v.tracked;
    apart = v.apart;
    waits = v.waits;
    running = v.running;
    entries = v.entries;
    released = v.released;
    started = v.started;
    submitted = v.submitted;
    noted_arrivals = v.noted_arrivals;
    area_time = v.area_time;
    capacity = v.capacity;
    changes = small;
    clock = v.clock;
  }

  none_due :
      (now : ℕ) (s : Simulation S.State) (l : List CapacityChange)
      → All (λ (c : CapacityChange). c.total_nodes < 2 ^ 32) l
      → Accounts S size submit_of C [] s
      → HeadLater now l
      → change_due now l ≡ 0
      → Changes now l s (record s { capacity_changes = l })
  none_due now s l small v head none_now = record {
    inv = kept_changes s l small v;
    state =
        ap (λ n. record s { trace = s.trace; current_capacity = n; capacity_changes = l })
          (sym (no_change now s.current_capacity l none_now).0)
        ∙ ap
            (λ rest. record s {
              trace = s.trace;
              current_capacity = capacity_at now s.current_capacity l;
              capacity_changes = rest;
            })
            (sym (no_change now s.current_capacity l none_now).1);
    trace =
        subst (λ n. Samples s.trace n s.trace)
          (sym (no_change now s.trace.current_capacity l none_now).0)
          (Samples-at s.trace s.trace.current_capacity _ _ _ _);
    current_time = refl;
    scheduler = refl;
    arrivals = refl;
    submitted = refl;
    evtq = refl;
    same_occupied = refl;
    capacity = sym (no_change now s.current_capacity l none_now).0;
    left = head;
    fewer = omega (arith, none_now);
  }

  due_first :
      (now : ℕ) (s s' : Simulation S.State) (c : CapacityChange) (l : List CapacityChange)
      → (leb c.time now) ≡ true
      → Changes now l (in_force s c) s'
      → Changes now (c ∷ l) s s'
  due_first now s s' c l due r =
      let same = set_resource_capacity-SameLedger s.trace c.time c.total_nodes in
      record {
        inv = r.inv;
        state = rw due r.state;
        trace = rw due (
            then-Samples s.trace _ s'.trace c.total_nodes _
              (set_resource_capacity-Samples s.trace c.time c.total_nodes)
              (subst (λ n. Samples (in_force s c).trace (capacity_at now n l) s'.trace)
                (ap (λ (x : Trace). x.current_capacity)
                  (set_resource_capacity-Samples s.trace c.time c.total_nodes).trace)
                r.trace));
        current_time = r.current_time;
        scheduler = r.scheduler;
        arrivals = r.arrivals;
        submitted = r.submitted;
        evtq = r.evtq ∙ same.evtq;
        same_occupied = omega (arith, r.same_occupied, same.in_use, same.releasing);
        capacity = ground (arith, r.capacity, due);
        left = r.left;
        fewer = ground (arith, r.fewer, due);
      }

  -- On a well-formed simulation with changes to numbers of nodes below 2^32: the changes that are
  -- due in the front of the list are in force afterwards, the capacity of the driver and of the
  -- trace is that of the last of them, and exactly the changes behind them are left. Nothing but
  -- the two capacities, the list of the changes and the resource samples of the trace, with the
  -- size of their buffer, changes, and the simulation is well-formed.
  pub apply_changes-Changes :
      (now : ℕ) (l : List CapacityChange) (s : Simulation S.State)
      → All (λ (c : CapacityChange). c.total_nodes < 2 ^ 32) l
      → Accounts S size submit_of C [] s
      → Changes now l s (apply_changes S s now l)
  unfolding apply_changes
  apply_changes-Changes now [] s small v = none_due now s [] tt v tt refl
  apply_changes-Changes now (c ∷ l) s small v =
      if_ind (Changes now (c ∷ l) s) (leb c.time now) _ _
        (λ due.
          due_first now s _ c l due
            (apply_changes-Changes now l (in_force s c) small.1 (in_force-Accounts s c small.0 v)))
        (λ later. none_due now s (c ∷ l) small v (leb→lt _ _ later) (ground (arith, later)))
