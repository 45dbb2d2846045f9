-- ===== src/Simulation/Drain.antt =====
-- All events at the current time, in the driver (src/sim/sim.cpp).
use dr_evt.Base.{
  ℕ, zero, suc, ◌+◌, ◌≤◌, ◌<◌, ◌≡◌, refl, sym, ◌∙◌, ap, subst, Bool, true, false, not, ◌||◌, [],
  ◌∷◌, arith, ◌==◌, All, if_ind, inl, inr, ==_iff, if◌then◌else◌,
}
use dr_evt.Base.Results.{ok, Returns, Returns-bind, Returns-mono}
use dr_evt.Events.{departure, DrEvent, EventQueue, is_departure, is_release, kind_value}
use dr_evt.Events.Order.{Ordered, drained_later}
use dr_evt.Trace.{Trace}
use dr_evt.Trace.Step.{process_event}
use dr_evt.Trace.Flush.{KeepsLive}
use dr_evt.Trace.Ledger.{KnownAs, Known}
use dr_evt.Trace.Depart.{LeftBy, Departs, process_departure}
use dr_evt.Trace.Release.{process_release}
use dr_evt.Simulation.{SchedulerMethods, Simulation}
use dr_evt.Simulation.Running.{erase, contains}
use dr_evt.Simulation.Advance.{finish_event, handle_event, events_at, pred_size}
use dr_evt.Simulation.Contract.{Contract}
use dr_evt.Simulation.Invariant.{Accounts}
use dr_evt.Simulation.Handle.{
  contains_key, energy, kind-cases, Handles, Lighter, key_there, departed-Lighter, delayed-Lighter,
  released-Lighter,
}

-- 1 if an event is due at the time, which the loop processes.
abbrev pub is_due : ℕ → EventQueue → ℕ
is_due now [] = 0
is_due now (e ∷ q) = if e.time == now then 1 else 0

due_le : (now : ℕ) (q : EventQueue) → is_due now q ≤ 1
due_le now [] = omega arith
due_le now (e ∷ q) = ground arith

-- An event at the front at the time is due.
pub front_due :
    (now : ℕ) (e : DrEvent) (q l : EventQueue) → l ≡ e ∷ q → e.time ≡ now → is_due now l ≡ 1
front_due now e q l eq at = subst (λ x. is_due now x ≡ 1) (sym eq) (ground (arith, at))

module _ (S : SchedulerMethods) (sample : ℕ → ℕ → ℕ) where
  -- The state that the event leaves to be finished.
  abbrev counted : Simulation S.State → DrEvent → Trace → Simulation S.State
  counted s e t' = record s {
    jobs_completed = s.jobs_completed + (if is_departure e then 1 else 0);
    trace = t';
  }

  finish_departed :
      (s : Simulation S.State) (e : DrEvent) (t' : Trace)
      → is_departure e ≡ true
      → t'.delay.last_departure_delayed ≡ false
      → (finish_event S sample (counted s e t') e).0 ≡ record s {
        trace = t';
        running_jobs = erase e.job_idx s.running_jobs;
        jobs_completed = s.jobs_completed + 1;
      }
  unfolding finish_event
  finish_departed s e t' departs prompt = rw (departs, prompt) refl

  finish_delayed :
      (s : Simulation S.State) (e : DrEvent) (t' : Trace)
      → is_departure e ≡ true
      → t'.delay.last_departure_delayed ≡ true
      → (finish_event S sample (counted s e t') e).0 ≡ record s {
        trace = t';
        jobs_completed = s.jobs_completed + 1;
        jobs_releasing = s.jobs_releasing + 1;
      }
  unfolding finish_event
  finish_delayed s e t' departs delayed = rw (departs, delayed) refl

  finish_released :
      (s : Simulation S.State) (e : DrEvent) (t' : Trace)
      → is_departure e ≡ false
      → is_release e ≡ true
      → contains e.job_idx s.running_jobs ≡ true
      → (finish_event S sample (counted s e t') e).0 ≡ record s {
        trace = t';
        running_jobs = erase e.job_idx s.running_jobs;
        jobs_completed = s.jobs_completed + 0;
        jobs_releasing = pred_size s.jobs_releasing;
      }
  unfolding finish_event
  finish_released s e t' stays releases there = rw (stays, releases, there) refl

  module _ (size submit_of : ℕ → ℕ) (C : Contract S size submit_of) where
    module _ (s : Simulation S.State) (e : DrEvent) (q : EventQueue)
        (v : Accounts S size submit_of C [] s) (eq : s.trace.ctx.evtq ≡ e ∷ q)
        (at : e.time ≡ s.current_time) where
      abbrev Light : Simulation S.State → Type 0
      Light = Lighter S size submit_of C s e q v eq at

      Light-by : (a b : Simulation S.State) → a ≡ b → Light b → Light a
      Light-by a b same l = subst Light (sym same) l

      departed :
          (departs : e.kind ≡ departure) (t' : Trace)
          → Departs size e q t'
          → KeepsLive e.time s.trace.store t'.store
          → LeftBy size e q t'.delay.last_departure_delayed t'.ctx.evtq
          → Light (finish_event S sample (counted s e t') e).0
      departed departs t' d kept (inl (prompt, left)) =
          Light-by _ _ (finish_departed s e t' (ap (λ k. kind_value k == 0) departs) prompt)
            (departed-Lighter S size submit_of C s e q v eq at t' d.inv kept departs left)
      departed departs t' d kept (inr (delayed, later)) =
          Light-by _ _ (finish_delayed s e t' (ap (λ k. kind_value k == 0) departs) delayed)
            (delayed-Lighter S size submit_of C s e q v eq at t' d.inv kept departs later.0 later.2)

      pub handle_event-Lighter : Returns (handle_event S sample s e q) (λ r. Light r.0)
      unfolding handle_event
      handle_event-Lighter = elim (kind-cases e.kind) [
        | inl departs ↦
            Returns-bind _ (λ r. Light r.0) (process_event sample s.trace e q)
              (λ t'. ok (finish_event S sample (counted s e t') e))
              (process_departure sample size s.trace e q s.current_time eq v.trace departs)
              (λ t' d. departed departs t' d.0 d.1 d.0.left)
        | inr (inl frees) ↦
            Returns-bind _ (λ r. Light r.0) (process_event sample s.trace e q)
              (λ t'. ok (finish_event S sample (counted s e t') e))
              (process_release sample size s.trace e q s.current_time eq v.trace frees)
              (λ t' d.
                Light-by _ _
                  (finish_released s e t' (ap (λ k. kind_value k == 0) frees)
                    (ap (λ k. kind_value k == 1) frees)
                    (contains_key e.job_idx s.running_jobs
                      (key_there S size submit_of C s e q v eq at)))
                  (released-Lighter S size submit_of C s e q v eq at t' d.0 d.2 frees d.1))
        | inr (inr comes) ↦ absurd (
            subst (KnownAs s.trace.store e) comes
              (subst (All (Known s.trace.store)) eq v.trace.known).0)
      ]

    pub Handles-refl :
        (s : Simulation S.State) → Accounts S size submit_of C [] s → Handles S size submit_of C s s
    Handles-refl s v = record {
      inv = v;
      current_time = refl;
      scheduler = refl;
      changes = refl;
      current_capacity = refl;
      arrivals = refl;
      submitted = refl;
      room = omega arith;
    }

    Handles-trans :
        (a b c : Simulation S.State)
        → Handles S size submit_of C a b
        → Handles S size submit_of C b c
        → Handles S size submit_of C a c
    Handles-trans a b c h k = record {
      inv = k.inv;
      current_time = k.current_time ∙ h.current_time;
      scheduler = k.scheduler ∙ h.scheduler;
      changes = k.changes ∙ h.changes;
      current_capacity = k.current_capacity ∙ h.current_capacity;
      arrivals = k.arrivals ∙ h.arrivals;
      submitted = k.submitted ∙ h.submitted;
      room = omega (arith, h.room, k.room);
    }

    -- No event at the current time is left.
    pub record Drains (s s' : Simulation S.State) : Type 0 where
      pub handles : Handles S size submit_of C s s'
      pub later : All (λ e. s'.current_time < e.time) s'.trace.ctx.evtq
      pub less :
          energy s'.trace.ctx.evtq + is_due s.current_time s.trace.ctx.evtq
          ≤ energy s.trace.ctx.evtq

    abbrev pub Drained : Simulation S.State → Simulation S.State × Bool → Type 0
    Drained s r = Drains s r.0

    nothing_due :
        (s : Simulation S.State) (e : DrEvent) (q : EventQueue)
        → Accounts S size submit_of C [] s
        → s.trace.ctx.evtq ≡ e ∷ q
        → (e.time == s.current_time) ≡ false
        → Drains s s
    nothing_due s e q v eq other =
        let due = subst (All (λ x. s.current_time ≤ x.time)) eq v.trace.due in
        let ordered = subst Ordered eq v.trace.ordered in
        record {
          handles = Handles-refl s v;
          later =
              subst (All (λ x. s.current_time < x.time)) (sym eq)
                (drained_later s.current_time e q ordered (ground (arith, due.0, other)));
          less =
              subst (λ l. energy l + is_due s.current_time l ≤ energy l) (sym eq)
                (ground (arith, other));
        }

    drained_one :
        (s a s' : Simulation S.State)
        → Handles S size submit_of C s a
        → energy a.trace.ctx.evtq + 1 ≤ energy s.trace.ctx.evtq
        → Drains a s'
        → Drains s s'
    drained_one s a s' h less d = record {
      handles = Handles-trans s a s' h d.handles;
      later = d.later;
      less = omega (arith, less, d.less, due_le s.current_time s.trace.ctx.evtq);
    }

    -- Each round lowers the energy of the queue, which bounds the rounds.
    pub events_at-Drains :
        (fuel : ℕ) (s : Simulation S.State) (q : EventQueue) (freed : Bool)
        → energy q + 1 ≤ fuel
        → Accounts S size submit_of C [] s
        → s.trace.ctx.evtq ≡ q
        → Returns (events_at S sample fuel s q freed) (Drained s)
    unfolding events_at
    events_at-Drains zero s q freed enough v eq = absurd (omega arith)
    events_at-Drains (suc fuel) s [] freed enough v eq = record {
      handles = Handles-refl s v;
      later = subst (All (λ x. s.current_time < x.time)) (sym eq) tt;
      less = subst (λ l. energy l + is_due s.current_time l ≤ energy l) (sym eq) (omega arith);
    }
    events_at-Drains (suc fuel) s (e ∷ q) freed enough v eq =
        if_ind (λ r. Returns r (Drained s)) (not (e.time == s.current_time)) _ _
          (λ other. nothing_due s e q v eq (ground (arith, other)))
          (λ same.
            let at : e.time ≡ s.current_time = (==_iff _ _).0 (ground (arith, same)) in
            Returns-bind _ (Drained s) (handle_event S sample s e q)
              (λ r. events_at S sample fuel r.0 r.0.trace.ctx.evtq (freed || r.1))
              (handle_event-Lighter s e q v eq at)
              (λ r l.
                Returns-mono {Q = Drained s} _
                  (events_at-Drains fuel r.0 r.0.trace.ctx.evtq (freed || r.1)
                    (omega (arith, l.1, enough, ap energy eq)) l.0.inv refl)
                  (λ x d. drained_one s r.0 x.0 l.0 l.1 d)))
