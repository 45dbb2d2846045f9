-- ===== src/Trace/Start.antt =====
-- The start of a job (`insert_job` and the processing of its start event, src/trace/trace.cpp).
use dr_evt.Base.{
  ℕ, ◌+◌, ◌^◌, ◌≤◌, ◌<◌, ◌≡◌, ◌≢◌, refl, sym, ◌∙◌, ap, subst, false, [], ◌∷◌, arith, max, ◌==◌, All,
  All-mono, Bool-cases, if_ind, inl, inr, ==_iff,
}
use dr_evt.Base.Results.{ok, Returns, Returns-mono}
use dr_evt.Events.{departure, arrival, DrEvent, EventQueue, make_event, insert, event_lt}
use dr_evt.Events.Order.{
  Fresh, total, about, insert-All, insert-Ordered, total-insert, absent-Fresh,
}
use dr_evt.Trace.{
  JobRecord, JobStore, Trace, add_nodes, set_job, set_begin_time, compute_end_time,
  unscheduled_sentinel,
}
use dr_evt.Trace.Output.{record_resource_sample}
use dr_evt.Trace.Step.{
  with_duration, insert_job, pop_front, apply_event, flush_after, process_event,
}
use dr_evt.Trace.Store.{Has, set_job-Has, set_job-other}
use dr_evt.Trace.Edit.{Known-others, set_job-Sized}
use dr_evt.Trace.Flush.{IsLive}
use dr_evt.Trace.Ledger.{held, given, Known, Sized, TraceInv}
use dr_evt.Trace.Process.{add_nodes-exact, Leaves, settle-Leaves, step_from}

-- Events at a time before all others come first.
insert_first : (e : DrEvent) (q : EventQueue) → All (λ x. e.time < x.time) q → insert e q ≡ e ∷ q
unfolding insert event_lt
insert_first e [] later = refl
insert_first e (x ∷ q) later = ground (arith, later.0)

insert_second :
    (e x : DrEvent) (q : EventQueue) → x.time < e.time → insert e (x ∷ q) ≡ x ∷ insert e q
unfolding insert event_lt
insert_second e x q lt = ground (arith, lt)

-- The record of a job that may start: it was not rejected and runs for a while.
abbrev pub IsStartable : JobRecord → Type 0
IsStartable job =
    ((job.submit_time == unscheduled_sentinel) ≡ false) × (1 ≤ (with_duration job).actual_run_time)

-- The record that a start leaves, the two events, and the trace with them.
abbrev pub started_job : JobRecord → ℕ → JobRecord
started_job job now = compute_end_time (set_begin_time (with_duration job) now)

abbrev pub start_event : ℕ → ℕ → DrEvent
start_event j now = make_event j now arrival

abbrev pub end_event : JobRecord → ℕ → ℕ → DrEvent
end_event job j now = make_event j (now + (with_duration job).actual_run_time) departure

started_same :
    (job : JobRecord) (now : ℕ)
    → ((started_job job now).num_nodes ≡ job.num_nodes)
      × ((started_job job now).submit_time ≡ job.submit_time)
      × ((started_job job now).limit_time ≡ job.limit_time)
      × ((started_job job now).end_time ≡ now + (with_duration job).actual_run_time)
unfolding compute_end_time set_begin_time with_duration
started_same job now =
    if_ind
      (λ (d : JobRecord).
        (d.num_nodes ≡ job.num_nodes)
        × (d.submit_time ≡ job.submit_time)
        × (d.limit_time ≡ job.limit_time)
        × (now + d.actual_run_time ≡ now + d.actual_run_time))
      (job.actual_run_time == 0) (record job { actual_run_time = job.limit_time }) job
      (λ h. (refl, refl, refl, refl)) (λ h. (refl, refl, refl, refl))

-- The records of the other jobs that have not ended are kept.
abbrev pub KeepsOthers : ℕ → ℕ → JobStore → JobStore → Type 0
KeepsOthers now j s w =
    (k : ℕ) (job : JobRecord) → k ≢ j → Has s k job → IsLive now job → Has w k job

-- The job has started at `now` on its nodes, and its departure is the only new event.
pub record Starts (size : ℕ → ℕ) (now j : ℕ) (t t' : Trace) : Type 0 where
  pub inv : TraceInv size now t'
  pub at : ℕ
  pub after : now < at
  pub totals :
      (f : DrEvent → ℕ) → total f t'.ctx.evtq ≡ f (make_event j at departure) + total f t.ctx.evtq
  pub used : t'.ctx.nodes_in_use ≡ t.ctx.nodes_in_use + size j
  pub released : t'.ctx.nodes_releasing ≡ t.ctx.nodes_releasing
  pub later : All (λ x. now < x.time) t'.ctx.evtq
  pub live : KeepsOthers now j t.store t'.store
  pub delay : t'.delay ≡ t.delay

module _ (size : ℕ → ℕ) (t : Trace) (j now : ℕ) (job : JobRecord) where
  abbrev pub inserted : Trace
  inserted = record t {
    ctx = record t.ctx {
      evtq = insert (end_event job j now) (insert (start_event j now) t.ctx.evtq);
    };
    store = set_job t.store j (started_job job now);
    replay_jobs_enqueued = max t.replay_jobs_enqueued (j + 1);
  }

  -- The queue behind the start.
  abbrev pub with_end : EventQueue
  with_end = insert (end_event job j now) t.ctx.evtq

  pub insert_job-inserted : Has t.store j job → insert_job t j now ≡ ok inserted
  unfolding insert_job
  insert_job-inserted has = rw has refl

  module _ (v : TraceInv size now t) (has : Has t.store j job) (startable : IsStartable job)
      (later : All (λ x. now < x.time) t.ctx.evtq) (absent : total (about j) t.ctx.evtq ≡ 0)
      (room : t.ctx.nodes_in_use + t.ctx.nodes_releasing + size j < 2 ^ 32) where
    pub inserted_evtq : inserted.ctx.evtq ≡ start_event j now ∷ with_end
    inserted_evtq =
        unfold make_event in
        (ap (insert (end_event job j now)) (insert_first (start_event j now) t.ctx.evtq later)
          ∙ insert_second (end_event job j now) (start_event j now) t.ctx.evtq
              (omega (arith, startable.1)))

    pub inserted-Has : Has inserted.store j (started_job job now)
    inserted-Has = set_job-Has t.store j (started_job job now) job has

    Fresh-end : Fresh (end_event job j now) t.ctx.evtq
    Fresh-end = unfold make_event in absent-Fresh _ t.ctx.evtq absent

    Known-end : Known inserted.store (end_event job j now)
    unfolding make_event
    Known-end =
        let (nodes, submit, limit, ends) = started_same job now in
        (
          started_job job now,
          inserted-Has,
          ap (λ s. s == unscheduled_sentinel) submit ∙ startable.0,
          ends,
        )

    inserted-Sized : Sized size inserted.store
    inserted-Sized =
        set_job-Sized t.store j job (started_job job now) has size v.sized
          ((started_same job now).0 ∙ v.sized j job has)

    abbrev pub running : Trace
    running = record (pop_front inserted with_end) {
      ctx = record t.ctx {
        nodes_in_use = add_nodes t.ctx.nodes_in_use (started_job job now).num_nodes;
        evtq = with_end;
      };
    }

    in_use_more : running.ctx.nodes_in_use ≡ t.ctx.nodes_in_use + size j
    in_use_more =
        let nodes : (started_job job now).num_nodes ≡ size j =
          (started_same job now).0 ∙ v.sized j job has in
        ap (add_nodes t.ctx.nodes_in_use) nodes ∙ add_nodes-exact _ _ (omega (arith, room))

    about_end :
        (k : ℕ)
        → total (about k) with_end ≡ about k (start_event j now) + total (about k) t.ctx.evtq
    about_end k = unfold make_event in total-insert (about k) _ t.ctx.evtq Fresh-end

    held_end : total (held size) with_end ≡ size j + total (held size) t.ctx.evtq
    held_end = unfold make_event in total-insert (held size) _ t.ctx.evtq Fresh-end

    given_end : total given with_end ≡ 0 + total given t.ctx.evtq
    given_end = unfold make_event in total-insert given _ t.ctx.evtq Fresh-end

    pub later_end : All (λ x. now < x.time) with_end
    later_end =
        unfold make_event in
        insert-All (λ x. now < x.time) _ t.ctx.evtq (omega (arith, startable.1)) later

    once_end : (k : ℕ) → total (about k) with_end ≤ 1
    once_end k = elim (Bool-cases (j == k)) [
      | inl same ↦
          let eq = (==_iff j k).0 same in
          let none_here : total (about k) t.ctx.evtq ≡ 0 =
            subst (λ i. total (about i) t.ctx.evtq ≡ 0) eq absent in
          unfold make_event in ground (arith, about_end k, none_here)
      | inr other ↦ unfold make_event in ground (arith, about_end k, v.once k, other)
    ]

    pub running-TraceInv : TraceInv size now running
    unfolding set_job
    running-TraceInv = record {
      ordered = insert-Ordered _ t.ctx.evtq v.ordered;
      due = All-mono with_end (λ x lt. omega (arith, lt)) later_end;
      known =
          insert-All (Known inserted.store) _ t.ctx.evtq Known-end
            (Known-others t.store j job (started_job job now) has t.ctx.evtq absent v.known);
      once = once_end;
      in_use = in_use_more ∙ omega (arith, held_end, v.in_use);
      releasing = v.releasing ∙ sym (given_end ∙ omega arith);
      small = omega (arith, in_use_more, room);
      sized = inserted-Sized;
      written = v.written;
      prompt = v.prompt;
    }

    running_live : KeepsOthers now j t.store inserted.store
    running_live k r ne h l =
        set_job-other t.store j k (started_job job now) job r has (λ e. ne (sym e)) h

    -- Whatever keeps the ledger of the running job has started it.
    pub left-Starts : (t' : Trace) → Leaves size now running t' → Starts size now j t t'
    left-Starts t' l = record {
      inv = l.inv;
      at = now + (with_duration job).actual_run_time;
      after = omega (arith, startable.1);
      totals =
          λ f. ap (total f) l.evtq ∙ (unfold make_event in total-insert f _ t.ctx.evtq Fresh-end);
      used = l.inv.in_use ∙ ap (total (held size)) l.evtq ∙ omega (arith, held_end, v.in_use);
      released = l.inv.releasing ∙ ap (total given) l.evtq ∙ omega (arith, given_end, v.releasing);
      later = subst (All (λ x. now < x.time)) (sym l.evtq) later_end;
      live = λ k r ne h late. l.store.live k r (running_live k r ne h late) late;
      delay = l.delay;
    }

    module _ (sample : ℕ → ℕ → ℕ) where
      pub apply_start :
          apply_event sample (pop_front inserted with_end) (start_event j now) ≡ ok running
      unfolding apply_event make_event
      apply_start = rw inserted-Has refl

      settled :
          Returns
            (flush_after
              (record_resource_sample running (start_event j now).time running.ctx.nodes_in_use)
              (start_event j now))
            (Leaves size now running)
      unfolding make_event
      settled =
          settle-Leaves size running (start_event j now) running.ctx.nodes_in_use running-TraceInv

      -- Processing the start event of a job behind `insert_job`.
      pub process_start :
          Returns (process_event sample inserted (start_event j now) with_end) (Starts size now j t)
      unfolding process_event
      process_start =
          step_from (Starts size now j t) _ running (start_event j now) apply_start
            (Returns-mono {P = Leaves size now running} _ settled left-Starts)
