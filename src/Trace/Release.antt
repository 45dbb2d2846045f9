-- ===== src/Trace/Release.antt =====
-- The release of the nodes of an ended job (`process_single_event`, src/trace/trace.cpp).
use dr_evt.Base.{ℕ, ◌+◌, ◌≤◌, ◌≡◌, refl, ◌∙◌, ap, subst, ◌∷◌, arith, ◌==◌, All}
use dr_evt.Base.Results.{ok, Returns, Returns-mono}
use dr_evt.Events.{node_release, DrEvent, EventQueue, kind_value}
use dr_evt.Events.Order.{Ordered, total, about, front_first}
use dr_evt.Trace.{Trace, sub_nodes}
use dr_evt.Trace.Step.{pop_front, apply_event, process_event}
use dr_evt.Trace.Flush.{KeepsLive}
use dr_evt.Trace.Ledger.{held_as, given_as, held, given, Known, TraceInv}
use dr_evt.Trace.Process.{sub_nodes-exact, settle-Leaves, step_from}

module _ (sample : ℕ → ℕ → ℕ) (size : ℕ → ℕ) (t : Trace) (e : DrEvent) (q : EventQueue) where
  front_total : (f : DrEvent → ℕ) → t.ctx.evtq ≡ e ∷ q → total f t.ctx.evtq ≡ f e + total f q
  front_total f eq = ap (total f) eq

  module _ (now : ℕ) (eq : t.ctx.evtq ≡ e ∷ q) (v : TraceInv size now t) where
    front_once : (j : ℕ) → about j e + total (about j) q ≤ 1
    front_once j = omega (arith, front_total (about j) eq, v.once j)

    front-Known : All (Known t.store) (e ∷ q)
    front-Known = subst (All (Known t.store)) eq v.known

    front-Ordered : Ordered (e ∷ q)
    front-Ordered = subst Ordered eq v.ordered

    module _ (frees : e.kind ≡ node_release) where
      given_released : total given t.ctx.evtq ≡ e.nodes + total given q
      given_released = front_total given eq ∙ ap (λ k. given_as e.nodes k + total given q) frees

      held_released : total (held size) t.ctx.evtq ≡ 0 + total (held size) q
      held_released =
          front_total (held size) eq
          ∙ ap (λ k. held_as (size e.job_idx) k + total (held size) q) frees

      abbrev released : Trace
      released = record (pop_front t q) {
        ctx = record t.ctx { nodes_releasing = sub_nodes t.ctx.nodes_releasing e.nodes; evtq = q };
      }

      releasing_left : sub_nodes t.ctx.nodes_releasing e.nodes ≡ total given q
      releasing_left =
          sub_nodes-exact _ _ (omega (arith, given_released, v.releasing)) (omega (arith, v.small))
          ∙ omega (arith, given_released, v.releasing)

      released-TraceInv : TraceInv size e.time released
      released-TraceInv = record {
        ordered = front-Ordered.1;
        due = front_first e q front-Ordered;
        known = front-Known.1;
        once = λ j. omega (arith, front_once j);
        in_use = v.in_use ∙ held_released ∙ omega arith;
        releasing = releasing_left;
        small = omega (arith, releasing_left, given_released, v.releasing, v.small);
        sized = v.sized;
        written = v.written;
        prompt = v.prompt;
      }

      apply_release : apply_event sample (pop_front t q) e ≡ ok released
      unfolding apply_event
      apply_release = rw (ap (λ k. kind_value k == 1) frees) refl

      abbrev Released : Trace → Type 0
      Released t' = TraceInv size e.time t' × (t'.ctx.evtq ≡ q) × KeepsLive e.time t.store t'.store

      -- A release at the front is processed without an error, and leaves the rest of the queue.
      pub process_release : Returns (process_event sample t e q) Released
      unfolding process_event
      process_release = step_from Released _ released e apply_release (
          Returns-mono {Q = Released} _
            (settle-Leaves size released e t.ctx.nodes_in_use released-TraceInv)
            (λ t' l. (l.inv, l.evtq, l.store)))
