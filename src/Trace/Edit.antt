-- ===== src/Trace/Edit.antt =====
-- A write to the record of a job with no event (`job_at`, src/trace/trace.cpp).
use dr_evt.Base.{
  ℕ, ◌≡◌, ◌≢◌, sym, ◌∙◌, ap, subst, [], ◌∷◌, arith, ◌==◌, All, Bool-cases, inl, inr, ==_iff,
}
use dr_evt.Events.{DrEventKind, departure, node_release, arrival, DrEvent, EventQueue}
use dr_evt.Events.Order.{total, about}
use dr_evt.Trace.{JobRecord, JobStore, Trace, set_job}
use dr_evt.Trace.Store.{Has, set_job-Has, set_job-other, set_job-back, Has-unique}
use dr_evt.Trace.Ledger.{KnownAs, Known, Sized, TraceInv}

module _ (s : JobStore) (j : ℕ) (job job' : JobRecord) (has : Has s j job) where
  known_other :
      (e : DrEvent) (kind : DrEventKind)
      → j ≢ e.job_idx
      → KnownAs s e kind
      → KnownAs (set_job s j job') e kind
  known_other e departure ne (r, h, here, ends) =
      (r, set_job-other s j e.job_idx job' job r has ne h, here, ends)
  known_other e node_release ne h = tt
  known_other e arrival ne h = absurd h

  pub Known-others :
      (q : EventQueue) → total (about j) q ≡ 0 → All (Known s) q → All (Known (set_job s j job')) q
  Known-others [] none_here h = tt
  Known-others (e ∷ q) none_here h = (
    known_other e e.kind (λ same. absurd (ground (arith, none_here, same))) h.0,
    Known-others q (omega (arith, none_here)) h.1,
  )

  pub set_job-Sized :
      (size : ℕ → ℕ) → Sized size s → job'.num_nodes ≡ size j → Sized size (set_job s j job')
  set_job-Sized size sized same_size k r h = elim (Bool-cases (j == k)) [
    | inl same ↦
        let eq = (==_iff j k).0 same in
        ap (λ (x : JobRecord). x.num_nodes)
          (Has-unique (set_job s j job') j r job'
            (subst (λ i. Has (set_job s j job') i r) (sym eq) h) (set_job-Has s j job' job has))
        ∙ same_size
        ∙ ap size eq
    | inr other ↦
        sized k r (set_job-back s j k job' job r has (λ e. absurd (cc (other, (==_iff j k).1 e))) h)
  ]

-- The trace stays well-formed when the record keeps its nodes.
pub edited-TraceInv :
    (size : ℕ → ℕ) (now : ℕ) (t : Trace) (j : ℕ) (job job' : JobRecord)
    → TraceInv size now t
    → Has t.store j job
    → job'.num_nodes ≡ job.num_nodes
    → total (about j) t.ctx.evtq ≡ 0
    → TraceInv size now (record t { store = set_job t.store j job' })
unfolding set_job
edited-TraceInv size now t j job job' v has nodes absent = record {
  ordered = v.ordered;
  due = v.due;
  known = Known-others t.store j job job' has t.ctx.evtq absent v.known;
  once = v.once;
  in_use = v.in_use;
  releasing = v.releasing;
  small = v.small;
  sized = set_job-Sized t.store j job job' has size v.sized (nodes ∙ v.sized j job has);
  written = v.written;
  prompt = v.prompt;
}
