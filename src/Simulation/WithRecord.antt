-- ===== src/Simulation/WithRecord.antt =====
-- A record more in the store keeps the trace well-formed (`append_job`, src/trace/trace.cpp).
use dr_evt.Base.{ℕ, ◌<◌, ◌≡◌, sym, ◌∙◌, ap, subst, [], ◌∷◌, arith, All, inl, inr}
use dr_evt.Events.{DrEventKind, departure, node_release, arrival, DrEvent, EventQueue}
use dr_evt.Trace.{JobRecord, Trace}
use dr_evt.Trace.Flush.{IsWritten}
use dr_evt.Trace.Ledger.{KnownAs, Known, Sized, TraceInv}
use dr_evt.Trace.Appended.{Appends}

module _ (size : ℕ → ℕ) (now : ℕ) (t : Trace) (job : JobRecord) (r : Trace × ℕ)
    (v : TraceInv size now t) (later : All (λ e. now < e.time) t.ctx.evtq)
    (a : Appends now t job r) where
  still_known :
      (e : DrEvent) (kind : DrEventKind)
      → now < e.time
      → KnownAs t.store e kind
      → KnownAs r.0.store e kind
  still_known e departure lt (x, has, here, ends) =
      (x, a.live e.job_idx x has (here, omega (arith, ends, lt)), here, ends)
  still_known e node_release lt h = tt
  still_known e arrival lt h = absurd h

  all-Known :
      (q : EventQueue) → All (λ e. now < e.time) q → All (Known t.store) q → All (Known r.0.store) q
  all-Known [] lt h = tt
  all-Known (e ∷ q) lt h = (still_known e e.kind lt.0 h.0, all-Known q lt.1 h.1)

  Sized-with : job.num_nodes ≡ size r.1 → Sized size r.0.store
  Sized-with same k x h = elim (a.back k x h) [
    | inl old ↦ v.sized k x old
    | inr new ↦ ap (λ (y : JobRecord). y.num_nodes) new.1 ∙ same ∙ ap size (sym new.0)
  ]

  -- The trace is well-formed with the record.
  pub appended-TraceInv : job.num_nodes ≡ size r.1 → TraceInv size now r.0
  appended-TraceInv same =
      let (w, eq) = a.only_store in
      subst (TraceInv size now) (sym eq) (record {
        ordered = v.ordered;
        due = v.due;
        known =
            subst (λ (x : Trace). All (Known x.store) t.ctx.evtq) eq
              (all-Known t.ctx.evtq later v.known);
        once = v.once;
        in_use = v.in_use;
        releasing = v.releasing;
        small = v.small;
        sized = subst (λ (x : Trace). Sized size x.store) eq (Sized-with same);
        written = subst (λ (x : Trace). IsWritten x.store) eq a.written;
        prompt = v.prompt;
      })
