-- ===== src/Trace/RunStart.antt =====
-- The start of a job through `run_until_inclusive` (src/trace/trace.cpp), when all other events are
-- later.
use dr_evt.Base.{
  ℕ, suc, ◌+◌, ◌^◌, ◌<◌, ◌≡◌, refl, sym, ◌∙◌, ap, subst, false, [], ◌∷◌, arith, ltb, All, lt→ltb,
}
use dr_evt.Base.Results.{ok, Returns}
use dr_evt.Events.{DrEvent, EventQueue, make_event, is_departure}
use dr_evt.Events.Order.{total, about}
use dr_evt.Trace.{JobRecord, Trace}
use dr_evt.Trace.Output.{record_resource_sample}
use dr_evt.Trace.Step.{
  pop_front, apply_event, process_loop, process_events_until, run_loop, run_until_inclusive,
}
use dr_evt.Trace.Store.{Has}
use dr_evt.Trace.Ledger.{TraceInv}
use dr_evt.Trace.Process.{sampled-Leaves}
use dr_evt.Trace.Start.{
  IsStartable, start_event, inserted, with_end, inserted_evtq, running, running-TraceInv,
  apply_start, left-Starts, Starts,
}

not_before : (a b : ℕ) → a ≡ b → ltb b a ≡ false
not_before a b h = ground arith

module _ (sample : ℕ → ℕ → ℕ) where
  process_loop-done :
      (fuel : ℕ) (t : Trace) (q : EventQueue) (now n : ℕ)
      → All (λ x. now < x.time) q
      → process_loop sample (suc fuel) t q now n ≡ ok (t, n)
  unfolding process_loop
  process_loop-done fuel t [] now n later = refl
  process_loop-done fuel t (e ∷ q) now n later = rw (lt→ltb _ _ later.0) refl

  pub run_loop-done :
      (fuel : ℕ) (t : Trace) (q : EventQueue) (now : ℕ)
      → All (λ x. now < x.time) q
      → run_loop sample (suc fuel) t q now ≡ ok t
  unfolding run_loop
  run_loop-done fuel t [] now later = refl
  run_loop-done fuel t (e ∷ q) now later = rw (lt→ltb _ _ later.0) refl

  -- One event at the time, and none behind it that is due.
  process_loop-one :
      (fuel : ℕ) (t a : Trace) (e : DrEvent) (q : EventQueue) (now : ℕ)
      → e.time ≡ now
      → is_departure e ≡ false
      → apply_event sample (pop_front t q) e ≡ ok a
      → let r = record_resource_sample a e.time a.ctx.nodes_in_use in
        All (λ x. now < x.time) r.ctx.evtq
        → process_loop sample (suc (suc fuel)) t (e ∷ q) now 0 ≡ ok (r, 0)
  unfolding process_loop
  process_loop-one fuel t a e q now at no_end applied later =
      rw (not_before e.time now at, applied, no_end)
        (process_loop-done fuel (record_resource_sample a e.time a.ctx.nodes_in_use) _ now 0 later)

  until_one :
      (fuel : ℕ) (t a : Trace) (e : DrEvent) (q : EventQueue) (now : ℕ)
      → t.ctx.evtq ≡ e ∷ q
      → e.time ≡ now
      → is_departure e ≡ false
      → apply_event sample (pop_front t q) e ≡ ok a
      → let r = record_resource_sample a e.time a.ctx.nodes_in_use in
        All (λ x. now < x.time) r.ctx.evtq
        → process_events_until sample (suc (suc fuel)) t now ≡ ok r
  unfolding process_events_until
  until_one fuel t a e q now eq at no_end applied later =
      let looped : process_loop sample (suc (suc fuel)) t t.ctx.evtq now 0 ≡ ok (_, 0) =
        ap (λ p. process_loop sample (suc (suc fuel)) t p now 0) eq
        ∙ process_loop-one fuel t a e q now at no_end applied later in
      rw looped refl

  run_one :
      (fuel : ℕ) (t a : Trace) (e : DrEvent) (q : EventQueue) (now : ℕ)
      → t.ctx.evtq ≡ e ∷ q
      → e.time ≡ now
      → is_departure e ≡ false
      → apply_event sample (pop_front t q) e ≡ ok a
      → let r = record_resource_sample a e.time a.ctx.nodes_in_use in
        All (λ x. now < x.time) r.ctx.evtq
        → run_loop sample (suc (suc (suc fuel))) t (e ∷ q) now ≡ ok r
  unfolding run_loop
  run_one fuel t a e q now eq at no_end applied later =
      let until = until_one fuel t a e q now eq at no_end applied later in
      let until' : process_events_until sample (suc (suc fuel)) t e.time ≡ ok _ =
        ap (process_events_until sample (suc (suc fuel)) t) at ∙ until in
      rw (not_before e.time now at, until')
        (run_loop-done (suc fuel) (record_resource_sample a e.time a.ctx.nodes_in_use) _ now later)

  entered :
      (fuel : ℕ) (t : Trace) (e : DrEvent) (q : EventQueue) (now : ℕ)
      → t.ctx.evtq ≡ e ∷ q
      → run_until_inclusive sample (suc (suc (suc fuel))) t now
        ≡ run_loop sample (suc (suc (suc fuel))) t (e ∷ q) now
  unfolding run_until_inclusive
  entered fuel t e q now eq = ap (λ p. run_loop sample (suc (suc (suc fuel))) t p now) eq

  module _ (size : ℕ → ℕ) (t : Trace) (j now : ℕ) (job : JobRecord) (v : TraceInv size now t)
      (has : Has t.store j job) (startable : IsStartable job)
      (later : All (λ x. now < x.time) t.ctx.evtq) (absent : total (about j) t.ctx.evtq ≡ 0)
      (room : t.ctx.nodes_in_use + t.ctx.nodes_releasing + size j < 2 ^ 32) where
    -- Behind `insert_job` for a job of a well-formed trace that may start, has no event and whose
    -- nodes do not overflow the counters, when all other events are later, the loop over the due
    -- events ends after three rounds: the job has its nodes, its departure is the only new event,
    -- the other records that have not ended are kept, and the trace is well-formed.
    pub run_start :
        (fuel : ℕ)
        → Returns
            (run_until_inclusive sample (suc (suc (suc fuel))) (inserted size t j now job) now)
            (Starts size now j t)
    run_start fuel =
        let a = running size t j now job v has startable later absent room in
        let e = start_event j now in
        let l =
          sampled-Leaves size a now e.time a.ctx.nodes_in_use
            (running-TraceInv size t j now job v has startable later absent room) in
        let s = left-Starts size t j now job v has startable later absent room _ l in
        let eq = inserted_evtq size t j now job v has startable later absent room in
        let at : e.time ≡ now = unfold make_event in refl in
        let no_end : is_departure e ≡ false = unfold make_event in refl in
        let applied = apply_start size t j now job v has startable later absent room sample in
        let ran : run_until_inclusive sample (suc (suc (suc fuel))) (inserted size t j now job) now
            ≡ ok (record_resource_sample a e.time a.ctx.nodes_in_use) =
          entered fuel (inserted size t j now job) e (with_end size t j now job) now eq
          ∙ run_one fuel (inserted size t j now job) a e (with_end size t j now job) now eq at
              no_end applied s.later in
        subst (λ r. Returns r (Starts size now j t)) (sym ran) s
