-- ===== src/Simulation/StartAll.antt =====
-- The start of all jobs that one call of the scheduler returned (src/sim/sim.cpp).
use dr_evt.Base.{
  ℕ, suc, ◌+◌, ◌-◌, ◌^◌, ◌≤◌, ◌<◌, ◌≡◌, refl, sym, ◌∙◌, ap, subst, List, [], ◌∷◌, arith, All,
  length,
}
use dr_evt.Base.Results.{Returns, Returns-bind, Returns-mono}
use dr_evt.Base.Sums.{sum_of}
use dr_evt.Events.Order.{total}
use dr_evt.Trace.Ledger.{runs, releases}
use dr_evt.Simulation.{SchedulerMethods, Simulation}
use dr_evt.Simulation.Start.{Starter, start_first, start_next, start_jobs}
use dr_evt.Simulation.Contract.{Contract}
use dr_evt.Simulation.Invariant.{noted, SimInv}
use dr_evt.Simulation.StartOne.{
  Stays, occupied, StartsOne, start_next-StartsOne, start_first-StartsOne,
}

module _ (S : SchedulerMethods) where
  abbrev pub same_state : (s : Simulation S.State) → Stays S s s
  same_state s = record {
    current_time = refl;
    scheduler = refl;
    capacity_changes = refl;
    current_capacity = refl;
    arrivals = refl;
    submitted = refl;
    completed = refl;
  }

  pub Stays-trans : (a b c : Simulation S.State) → Stays S a b → Stays S b c → Stays S a c
  Stays-trans a b c h k = record {
    current_time = k.current_time ∙ h.current_time;
    scheduler = k.scheduler ∙ h.scheduler;
    capacity_changes = k.capacity_changes ∙ h.capacity_changes;
    current_capacity = k.current_capacity ∙ h.current_capacity;
    arrivals = k.arrivals ∙ h.arrivals;
    submitted = k.submitted ∙ h.submitted;
    completed = k.completed ∙ h.completed;
  }

  module _ (sample : ℕ → ℕ → ℕ) (size submit_of : ℕ → ℕ) (C : Contract S size submit_of) where
    -- A way to start one job, which needs three rounds at most.
    abbrev pub IsStarter : Starter S sample → Type 0
    IsStarter start =
        (fuel : ℕ) (todo : List ℕ) (s : Simulation S.State) (j : ℕ)
        → 3 ≤ fuel
        → SimInv S size submit_of C (j ∷ todo) s
        → submit_of j ≤ s.current_time
        → noted s.current_time s.pending_queue_arrivals ≡ 0
        → occupied S s + size j < 2 ^ 32
        → Returns (start fuel s j) (StartsOne S size submit_of C todo j s)

    pub start_next-IsStarter : IsStarter (start_next S sample)
    start_next-IsStarter fuel todo s j enough v due quiet room =
        start_next-StartsOne S sample size submit_of C todo s j v due quiet room fuel

    pub start_first-IsStarter : IsStarter (start_first S sample)
    start_first-IsStarter fuel todo s j enough v due quiet room =
        let eq : suc (suc (suc (fuel - 3))) ≡ fuel = omega arith in
        subst (λ n. Returns (start_first S sample n s j) (StartsOne S size submit_of C todo j s)) eq
          (start_first-StartsOne S sample size submit_of C todo s j v due quiet room (fuel - 3))

    -- All the jobs are running.
    pub record StartsAll (jobs : List ℕ) (s s' : Simulation S.State) : Type 0 where
      pub inv : SimInv S size submit_of C [] s'
      pub stays : Stays S s s'
      pub used : occupied S s' ≡ occupied S s + sum_of size jobs
      pub all_run : total runs s'.trace.ctx.evtq ≡ total runs s.trace.ctx.evtq + length jobs
      pub none_released : total releases s'.trace.ctx.evtq ≡ total releases s.trace.ctx.evtq

    after_one :
        (j : ℕ) (jobs : List ℕ) (s a s' : Simulation S.State)
        → StartsOne S size submit_of C jobs j s a
        → StartsAll jobs a s'
        → StartsAll (j ∷ jobs) s s'
    after_one j jobs s a s' o r = record {
      inv = r.inv;
      stays = Stays-trans s a s' o.stays r.stays;
      used = omega (arith, o.used, r.used);
      all_run = omega (arith, o.one_runs, r.all_run);
      none_released = r.none_released ∙ o.none_released;
    }

    pub start_jobs-StartsAll :
        (start : Starter S sample) (fuel : ℕ) (s : Simulation S.State) (jobs : List ℕ)
        → IsStarter start
        → 3 ≤ fuel
        → SimInv S size submit_of C jobs s
        → All (λ j. submit_of j ≤ s.current_time) jobs
        → noted s.current_time s.pending_queue_arrivals ≡ 0
        → occupied S s + sum_of size jobs < 2 ^ 32
        → Returns (start_jobs S sample start fuel s jobs) (StartsAll jobs s)
    unfolding start_jobs
    start_jobs-StartsAll start fuel s [] good enough v due quiet room = record {
      inv = v;
      stays = same_state s;
      used = omega arith;
      all_run = omega arith;
      none_released = refl;
    }
    start_jobs-StartsAll start fuel s (j ∷ jobs) good enough v due quiet room =
        Returns-bind (StartsOne S size submit_of C jobs j s) (StartsAll (j ∷ jobs) s)
          (start fuel s j) (λ a. start_jobs S sample start fuel a jobs)
          (good fuel jobs s j enough v due.0 quiet (omega (arith, room)))
          (λ a o.
            let same = o.stays in
            Returns-mono {Q = StartsAll (j ∷ jobs) s} _
              (start_jobs-StartsAll start fuel a jobs good enough o.inv
                (subst (λ now. All (λ k. submit_of k ≤ now) jobs) (sym same.current_time) due.1)
                (subst (λ now. noted now a.pending_queue_arrivals ≡ 0) (sym same.current_time)
                  (ap (noted s.current_time) same.arrivals ∙ quiet))
                (omega (arith, o.used, room)))
              (λ s' r. after_one j jobs s a s' o r))
