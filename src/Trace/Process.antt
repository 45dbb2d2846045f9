-- ===== src/Trace/Process.antt =====
-- The processing of departures and node releases (src/trace/trace.cpp) keeps the trace well-formed.
use dr_evt.Base.{ℕ, ◌+◌, ◌-◌, ◌^◌, ◌≤◌, ◌<◌, ◌≡◌, sym, ◌∙◌, ap, subst, false, arith, All}
use dr_evt.Base.Results.{Result, ok, ◌>>=◌, Returns, Returns-mono}
use dr_evt.Events.{DrEvent}
use dr_evt.Events.Order.{Ordered, total, about}
use dr_evt.Trace.{Trace, add_nodes, sub_nodes}
use dr_evt.Trace.Output.{record_resource_sample}
use dr_evt.Trace.Step.{flush_after}
use dr_evt.Trace.Flush.{IsWritten, KeepsLive, same-KeepsLive}
use dr_evt.Trace.Ledger.{held, given, Known, Sized, TraceInv}
use dr_evt.Trace.Settle.{
  SameLedger, record_resource_sample-SameLedger, Settles, flush_after-Settles,
}

pub add_nodes-exact : (a b : ℕ) → a + b < 2 ^ 32 → add_nodes a b ≡ a + b
unfolding add_nodes
add_nodes-exact a b lt = omega arith

pub sub_nodes-exact : (a b : ℕ) → b ≤ a → a < 2 ^ 32 → sub_nodes a b ≡ a - b
unfolding sub_nodes
sub_nodes-exact a b le lt = omega arith

pub same-TraceInv :
    (size : ℕ → ℕ) (now : ℕ) (a r : Trace)
    → SameLedger a r
    → TraceInv size now a
    → TraceInv size now r
same-TraceInv size now a r s v = record {
  ordered = subst Ordered (sym s.evtq) v.ordered;
  due = subst (All (λ e. now ≤ e.time)) (sym s.evtq) v.due;
  known =
      subst (λ w. All (Known w) r.ctx.evtq) (sym s.store)
        (subst (All (Known a.store)) (sym s.evtq) v.known);
  once = λ j. subst (λ q. total (about j) q ≤ 1) (sym s.evtq) (v.once j);
  in_use = s.in_use ∙ v.in_use ∙ ap (total (held size)) (sym s.evtq);
  releasing = s.releasing ∙ v.releasing ∙ ap (total given) (sym s.evtq);
  small = omega (arith, s.in_use, s.releasing, v.small);
  sized = subst (Sized size) (sym s.store) v.sized;
  written = subst IsWritten (sym s.store) v.written;
  prompt = subst (λ d. d.active ≡ false → d.last_departure_delayed ≡ false) (sym s.delay) v.prompt;
}

settled-TraceInv :
    (size : ℕ → ℕ) (now : ℕ) (r t : Trace)
    → Settles now r t
    → TraceInv size now r
    → TraceInv size now t
settled-TraceInv size now r t s v = record {
  ordered = subst (λ c. Ordered c.evtq) (sym s.ctx) v.ordered;
  due = subst (λ c. All (λ e. now ≤ e.time) c.evtq) (sym s.ctx) v.due;
  known = subst (λ c. All (Known t.store) c.evtq) (sym s.ctx) (s.known v.known);
  once = λ j. subst (λ c. total (about j) c.evtq ≤ 1) (sym s.ctx) (v.once j);
  in_use = subst (λ c. c.nodes_in_use ≡ total (held size) c.evtq) (sym s.ctx) v.in_use;
  releasing = subst (λ c. c.nodes_releasing ≡ total given c.evtq) (sym s.ctx) v.releasing;
  small = subst (λ c. c.nodes_in_use + c.nodes_releasing < 2 ^ 32) (sym s.ctx) v.small;
  sized = λ j job h. v.sized j job (s.store.back j job h);
  written = s.store.written;
  prompt = subst (λ d. d.active ≡ false → d.last_departure_delayed ≡ false) (sym s.delay) v.prompt;
}

-- What the sample and the flush behind an event leave of the trace `a`.
pub record Leaves (size : ℕ → ℕ) (now : ℕ) (a t : Trace) : Type 0 where
  pub inv : TraceInv size now t
  pub evtq : t.ctx.evtq ≡ a.ctx.evtq
  pub delay : t.delay ≡ a.delay
  pub store : KeepsLive now a.store t.store

pub settle-Leaves :
    (size : ℕ → ℕ) (a : Trace) (e : DrEvent) (allocated : ℕ)
    → TraceInv size e.time a
    → Returns (flush_after (record_resource_sample a e.time allocated) e) (Leaves size e.time a)
settle-Leaves size a e allocated v =
    let r = record_resource_sample a e.time allocated in
    let same = record_resource_sample-SameLedger a e.time allocated in
    let rv = same-TraceInv size e.time a r same v in
    Returns-mono (flush_after r e) (flush_after-Settles r e rv.written rv.ordered) (λ t s. record {
      inv = settled-TraceInv size e.time r t s rv;
      evtq = ap (λ c. c.evtq) s.ctx ∙ same.evtq;
      delay = s.delay ∙ same.delay;
      store = subst (λ w. KeepsLive e.time w t.store) same.store s.store;
    })

-- A sample alone.
pub sampled-Leaves :
    (size : ℕ → ℕ) (a : Trace) (now time allocated : ℕ)
    → TraceInv size now a
    → Leaves size now a (record_resource_sample a time allocated)
sampled-Leaves size a now time allocated v =
    let r = record_resource_sample a time allocated in
    let same = record_resource_sample-SameLedger a time allocated in
    let rv = same-TraceInv size now a r same v in
    record {
      inv = rv;
      evtq = same.evtq;
      delay = same.delay;
      store =
          same-KeepsLive now a.store r.store
            (ap (λ s. s.records) same.store, ap (λ s. s.num_reclaimed) same.store) rv.written;
    }

-- A step that starts from an event already applied.
pub step_from :
    (P : Trace → Type 0) (r : Result Trace) (a : Trace) (e : DrEvent)
    → r ≡ ok a
    → Returns (flush_after (record_resource_sample a e.time a.ctx.nodes_in_use) e) P
    → Returns (r >>= λ b. flush_after (record_resource_sample b e.time b.ctx.nodes_in_use) e) P
step_from P r a e eq h =
    subst
      (λ x.
        Returns (x >>= λ b. flush_after (record_resource_sample b e.time b.ctx.nodes_in_use) e) P)
      (sym eq) h
