-- ===== src/Trace/Depart.antt =====
-- A departure at the front of the queue (`process_single_event`,
-- src/trace/trace.cpp).
use dr_evt.Base.{
  ℕ, ◌+◌, ◌≤◌, ◌≡◌, refl, sym, ◌∙◌, ap, subst, Bool, true, false, ◌∷◌, arith, leb, ◌==◌, All,
  if_ind, ◌⊎◌, inl, inr,
}
use dr_evt.Base.Results.{ok, Returns, Returns-mono}
use dr_evt.Events.{departure, DrEvent, EventQueue, make_event, release, insert, kind_value}
use dr_evt.Events.Order.{
  Ordered, Fresh, total, about, insert-All, insert-Ordered, total-insert, absent-Fresh, front_first,
}
use dr_evt.Trace.{JobRecord, ReleaseDelay, Trace, add_nodes, sub_nodes}
use dr_evt.Trace.Step.{
  pop_front, hold_nodes, free_nodes, finish_job_nodes, apply_event, process_event,
}
use dr_evt.Trace.Store.{Has}
use dr_evt.Trace.Flush.{KeepsLive}
use dr_evt.Trace.Ledger.{held_as, given_as, held, given, KnownAs, Known, TraceInv}
use dr_evt.Trace.Process.{add_nodes-exact, sub_nodes-exact, Leaves, settle-Leaves, step_from}

-- What is left of a queue whose front departs: a delayed departure adds the release of its nodes.
abbrev pub LeftBy : (ℕ → ℕ) → DrEvent → EventQueue → Bool → EventQueue → Type 0
LeftBy size e q delayed left =
    ((delayed ≡ false) × (left ≡ q))
    ⊎ ((delayed ≡ true)
        × ((at : ℕ) × (e.time ≤ at) × (left ≡ insert (release e.job_idx at (size e.job_idx)) q)))

pub record Departs (size : ℕ → ℕ) (e : DrEvent) (q : EventQueue) (a : Trace) : Type 0 where
  pub inv : TraceInv size e.time a
  pub left : LeftBy size e q a.delay.last_departure_delayed a.ctx.evtq

Departs-Leaves :
    (size : ℕ → ℕ) (e : DrEvent) (q : EventQueue) (a t : Trace)
    → Leaves size e.time a t
    → Departs size e q a
    → Departs size e q t
Departs-Leaves size e q a t l d = record {
  inv = l.inv;
  left =
      subst (λ k. LeftBy size e q k.last_departure_delayed t.ctx.evtq) (sym l.delay)
        (subst (LeftBy size e q a.delay.last_departure_delayed) (sym l.evtq) d.left);
}

module _ (sample : ℕ → ℕ → ℕ) (size : ℕ → ℕ) (t : Trace) (e : DrEvent) (q : EventQueue) where
  front_total : (f : DrEvent → ℕ) → t.ctx.evtq ≡ e ∷ q → total f t.ctx.evtq ≡ f e + total f q
  front_total f eq = ap (total f) eq

  module _ (now : ℕ) (eq : t.ctx.evtq ≡ e ∷ q) (v : TraceInv size now t) where
    front_once : (j : ℕ) → about j e + total (about j) q ≤ 1
    front_once j = omega (arith, front_total (about j) eq, v.once j)

    front-Known : All (Known t.store) (e ∷ q)
    front-Known = subst (All (Known t.store)) eq v.known

    front-Ordered : Ordered (e ∷ q)
    front-Ordered = subst Ordered eq v.ordered

    self : about e.job_idx e ≡ 1
    self = ground arith

    absent : total (about e.job_idx) q ≡ 0
    absent = omega (arith, front_once e.job_idx, self)

    module _ (departs : e.kind ≡ departure) where
      held_front : total (held size) t.ctx.evtq ≡ size e.job_idx + total (held size) q
      held_front =
          front_total (held size) eq
          ∙ ap (λ k. held_as (size e.job_idx) k + total (held size) q) departs

      given_front : total given t.ctx.evtq ≡ 0 + total given q
      given_front = front_total given eq ∙ ap (λ k. given_as e.nodes k + total given q) departs

      module _ (n : ℕ) (same : n ≡ size e.job_idx) where
        held_enough : n ≤ t.ctx.nodes_in_use
        held_enough = omega (arith, held_front, v.in_use, same)

        in_use_left : sub_nodes t.ctx.nodes_in_use n ≡ total (held size) q
        in_use_left =
            sub_nodes-exact _ _ held_enough (omega (arith, v.small))
            ∙ omega (arith, held_front, v.in_use, same)

        freed-TraceInv :
            (d : ReleaseDelay)
            → (d.active ≡ false → d.last_departure_delayed ≡ false)
            → TraceInv size e.time (free_nodes sample (record (pop_front t q) { delay = d }) n)
        unfolding free_nodes
        freed-TraceInv d prompt = record {
          ordered = front-Ordered.1;
          due = front_first e q front-Ordered;
          known = front-Known.1;
          once = λ j. omega (arith, front_once j);
          in_use = in_use_left;
          releasing = v.releasing ∙ given_front ∙ omega arith;
          small = omega (arith, in_use_left, held_front, v.in_use, v.small);
          sized = v.sized;
          written = v.written;
          prompt = prompt;
        }

        abbrev released_at : ℕ
        released_at = e.time + sample t.delay.drawn n

        Fresh-release : Fresh (release e.job_idx released_at n) q
        unfolding release make_event
        Fresh-release = absent-Fresh _ q absent

        about-release :
            (j : ℕ)
            → total (about j) (insert (release e.job_idx released_at n) q)
              ≡ about j e + total (about j) q
        about-release j = unfold release make_event in total-insert (about j) _ q Fresh-release

        given-release : total given (insert (release e.job_idx released_at n) q) ≡ n + total given q
        given-release = unfold release make_event in total-insert given _ q Fresh-release

        held-release :
            total (held size) (insert (release e.job_idx released_at n) q) ≡ 0 + total (held size) q
        held-release = unfold release make_event in total-insert (held size) _ q Fresh-release

        releasing_more : add_nodes t.ctx.nodes_releasing n ≡ t.ctx.nodes_releasing + n
        releasing_more = add_nodes-exact _ _ (omega (arith, v.small, held_enough))

        Known-release : Known t.store (release e.job_idx released_at n)
        unfolding release make_event
        Known-release = tt

        later_release : e.time ≤ (release e.job_idx released_at n).time
        unfolding release make_event
        later_release = omega arith

        held-TraceInv :
            t.delay.active ≡ true
            → TraceInv size e.time (hold_nodes sample (pop_front t q) e.job_idx e.time n)
        unfolding hold_nodes
        held-TraceInv on = record {
          ordered = insert-Ordered _ q front-Ordered.1;
          due = insert-All (λ x. e.time ≤ x.time) _ q later_release (front_first e q front-Ordered);
          known = insert-All (Known t.store) _ q Known-release front-Known.1;
          once = λ j. omega (arith, front_once j, about-release j);
          in_use = in_use_left ∙ sym (held-release ∙ omega arith);
          releasing = releasing_more ∙ omega (arith, given-release, v.releasing, given_front);
          small = omega (arith, in_use_left, held_front, v.in_use, v.small, releasing_more, same);
          sized = v.sized;
          written = v.written;
          prompt = λ off. absurd (cc (off, on));
        }

        abbrev Finished : Trace → Type 0
        Finished a = Departs size e q a × (a.store ≡ t.store)

        freed-Finished :
            (d : ReleaseDelay)
            → (d.active ≡ false → d.last_departure_delayed ≡ false)
            → d.last_departure_delayed ≡ false
            → Finished (free_nodes sample (record (pop_front t q) { delay = d }) n)
        freed-Finished d prompt at_once = (
          record { inv = freed-TraceInv d prompt; left = unfold free_nodes in inl (at_once, refl) },
          unfold free_nodes in refl,
        )

        held-Finished :
            t.delay.active ≡ true → Finished (hold_nodes sample (pop_front t q) e.job_idx e.time n)
        held-Finished on = (
          record {
            inv = held-TraceInv on;
            left =
                unfold hold_nodes in
                inr (
                  refl,
                  (
                    released_at,
                    omega arith,
                    ap (λ m. insert (release e.job_idx released_at m) q) same,
                  ),
                );
          },
          unfold hold_nodes in refl,
        )

        finish_job_nodes-Finished :
            Finished (finish_job_nodes sample (pop_front t q) e.job_idx e.time n)
        unfolding finish_job_nodes
        finish_job_nodes-Finished =
            if_ind Finished t.delay.active _ _
              (λ on.
                if_ind Finished (leb t.delay.from_time e.time) _ _ (λ within. held-Finished on)
                  (λ before.
                    freed-Finished (record t.delay { last_departure_delayed = false }) (λ off. refl)
                      refl))
              (λ off. freed-Finished t.delay v.prompt (v.prompt off))

      departing_job : KnownAs t.store e departure
      departing_job = subst (KnownAs t.store e) departs front-Known.0

      apply_departure :
          (job : JobRecord)
          → Has t.store e.job_idx job
          → apply_event sample (pop_front t q) e
            ≡ ok (finish_job_nodes sample (pop_front t q) e.job_idx e.time job.num_nodes)
      unfolding apply_event
      apply_departure job has =
          rw (ap (λ k. kind_value k == 1) departs, has, ap (λ k. kind_value k == 2) departs) refl

      abbrev Departed : Trace → Type 0
      Departed t' = Departs size e q t' × KeepsLive e.time t.store t'.store

      -- A departure at the front is processed without an error. It gives the nodes back, or holds
      -- them until a release that it adds, and the trace stays well-formed.
      pub process_departure : Returns (process_event sample t e q) Departed
      unfolding process_event
      process_departure =
          let (job, has, here, ends) = departing_job in
          let same = v.sized e.job_idx job has in
          let a = finish_job_nodes sample (pop_front t q) e.job_idx e.time job.num_nodes in
          let (d, store) = finish_job_nodes-Finished job.num_nodes same in
          step_from Departed _ a e (apply_departure job has) (
            Returns-mono {Q = Departed} _ (settle-Leaves size a e a.ctx.nodes_in_use d.inv) (λ t' l.
              (
                Departs-Leaves size e q a t' l d,
                subst (λ s. KeepsLive e.time s t'.store) store l.store,
              )))
      -- A release at the front.
