-- ===== src/Trace/Settle.antt =====
-- What the processing of an event does behind the accounting (src/trace/trace.cpp): the resource
-- sample, and the periodic flush of the completed jobs.
use dr_evt.Base.{
  ℕ, ◌<◌, ◌≡◌, refl, ◌∙◌, Bool, true, false, ◌&&◌, [], ◌∷◌, arith, ltb, leb, ◌==◌, length, All,
  Bool-cases, inl, inr, if◌then◌else◌,
}
use dr_evt.Base.Results.{Returns, Returns-mono}
use dr_evt.Events.{DrEventKind, departure, node_release, arrival, DrEvent, EventQueue, is_departure}
use dr_evt.Events.Order.{Ordered, drained_later}
use dr_evt.Trace.{JobStore, Trace}
use dr_evt.Trace.Output.{
  record_resource_sample, resolve_resource_history_capacity, flush_resource_history, push_sample,
  drained_until, effective_job_flush_interval,
}
use dr_evt.Trace.Step.{count_departure, flush_after}
use dr_evt.Trace.Flush.{
  IsWritten, SameRecords, KeepsLive, KeepsLive-trans, same-KeepsLive, Has-same, Flushes,
  flush_completed_jobs-Flushes,
}
use dr_evt.Trace.Ledger.{KnownAs, Known}

-- The trace has the same events, nodes, records and delays.
pub record SameLedger (t t' : Trace) : Type 0 where
  pub evtq : t'.ctx.evtq ≡ t.ctx.evtq
  pub in_use : t'.ctx.nodes_in_use ≡ t.ctx.nodes_in_use
  pub releasing : t'.ctx.nodes_releasing ≡ t.ctx.nodes_releasing
  pub store : t'.store ≡ t.store
  pub delay : t'.delay ≡ t.delay

SameLedger-trans : (a b c : Trace) → SameLedger a b → SameLedger b c → SameLedger a c
SameLedger-trans a b c h k = record {
  evtq = k.evtq ∙ h.evtq;
  in_use = k.in_use ∙ h.in_use;
  releasing = k.releasing ∙ h.releasing;
  store = k.store ∙ h.store;
  delay = k.delay ∙ h.delay;
}

abbrev untouched : (t : Trace) → SameLedger t t
untouched t = record { evtq = refl; in_use = refl; releasing = refl; store = refl; delay = refl }

same_if : (b : Bool) (t u : Trace) → SameLedger t u → SameLedger t (if b then t else u)
same_if true t u h = untouched t
same_if false t u h = h

resolve-SameLedger : (t : Trace) → SameLedger t (resolve_resource_history_capacity t)
unfolding resolve_resource_history_capacity
resolve-SameLedger t =
    same_if t.resource_history_resolved t _
      (record { evtq = refl; in_use = refl; releasing = refl; store = refl; delay = refl })

flush_history-SameLedger :
    (t : Trace) (b : Bool) → SameLedger t (if b then flush_resource_history t else t)
unfolding flush_resource_history
flush_history-SameLedger t true = record {
  evtq = refl;
  in_use = refl;
  releasing = refl;
  store = refl;
  delay = refl;
}
flush_history-SameLedger t false = untouched t

-- A sample changes the resource history alone.
pub record_resource_sample-SameLedger :
    (t : Trace) (time allocated : ℕ) → SameLedger t (record_resource_sample t time allocated)
unfolding record_resource_sample push_sample
record_resource_sample-SameLedger t time allocated =
    let r = resolve_resource_history_capacity t in
    let b = length r.ctx.resource_history == r.resource_history_capacity in
    let f = if b then flush_resource_history r else r in
    SameLedger-trans t f _
      (SameLedger-trans t r f (resolve-SameLedger t) (flush_history-SameLedger r b))
      (record { evtq = refl; in_use = refl; releasing = refl; store = refl; delay = refl })

-- What is known of events stays known when the records of jobs that have not ended are kept.
known_live :
    (now : ℕ) (s w : JobStore) (e : DrEvent) (kind : DrEventKind)
    → KeepsLive now s w
    → now < e.time
    → KnownAs s e kind
    → KnownAs w e kind
known_live now s w e departure k lt (job, has, here, ends) =
    (job, k.live e.job_idx job has (here, omega (arith, ends)), here, ends)
known_live now s w e node_release k lt h = tt
known_live now s w e arrival k lt h = absurd h

pub Known-KeepsLive :
    (now : ℕ) (s w : JobStore) (q : EventQueue)
    → KeepsLive now s w
    → All (λ e. now < e.time) q
    → All (Known s) q
    → All (Known w) q
Known-KeepsLive now s w [] k later h = tt
Known-KeepsLive now s w (e ∷ q) k later h =
    (known_live now s w e e.kind k later.0 h.0, Known-KeepsLive now s w q k later.1 h.1)

known_same :
    (s w : JobStore) (e : DrEvent) (kind : DrEventKind)
    → SameRecords s w
    → KnownAs s e kind
    → KnownAs w e kind
known_same s w e departure same (job, has, here, ends) =
    (job, Has-same s w e.job_idx job same has, here, ends)
known_same s w e node_release same h = tt
known_same s w e arrival same h = absurd h

Known-SameRecords :
    (s w : JobStore) (q : EventQueue) → SameRecords s w → All (Known s) q → All (Known w) q
Known-SameRecords s w [] same h = tt
Known-SameRecords s w (e ∷ q) same h =
    (known_same s w e e.kind same h.0, Known-SameRecords s w q same h.1)

count_departure-SameRecords :
    (s : JobStore) (e : DrEvent)
    → SameRecords s (count_departure s e)
      × ((count_departure s e).next_job_to_write ≡ s.next_job_to_write)
unfolding count_departure
count_departure-SameRecords s e = elim (Bool-cases (is_departure e && s.output_open)) [
  | inr other ↦ rw other ((refl, refl), refl)
  | inl departs ↦
      elim (Bool-cases (ltb s.departures_since_job_flush (effective_job_flush_interval s))) [
        | inl below ↦ rw (departs, below) ((refl, refl), refl)
        | inr at_interval ↦ rw (departs, at_interval) ((refl, refl), refl)
      ]
]

-- What the flush behind an event keeps.
pub record Settles (now : ℕ) (t t' : Trace) : Type 0 where
  pub ctx : t'.ctx ≡ t.ctx
  pub delay : t'.delay ≡ t.delay
  pub store : KeepsLive now t.store t'.store
  pub known : All (Known t.store) t.ctx.evtq → All (Known t'.store) t.ctx.evtq

later_of_drained :
    (q : EventQueue) (now : ℕ) → Ordered q → drained_until q now ≡ true → All (λ e. now < e.time) q
unfolding drained_until
later_of_drained [] now o h = tt
later_of_drained (e ∷ q) now o h = drained_later now e q o (ground (arith, h))

and_middle : (a b c : Bool) → (a && (b && c)) ≡ true → b ≡ true
and_middle a b c h = ground arith

quiet :
    (t : Trace) (e : DrEvent)
    → IsWritten t.store
    → Settles e.time t (record t { store = count_departure t.store e })
quiet t e written =
    let (same, next) = count_departure-SameRecords t.store e in
    record {
      ctx = refl;
      delay = refl;
      store = same-KeepsLive e.time t.store _ same (omega (arith, same.1, next));
      known = Known-SameRecords t.store _ t.ctx.evtq same;
    }

flush-Settles :
    (t : Trace) (e : DrEvent) (t' : Trace)
    → IsWritten t.store
    → All (λ x. e.time < x.time) t.ctx.evtq
    → Flushes e.time (record t { store = count_departure t.store e }) t'
    → Settles e.time t t'
flush-Settles t e t' written later f =
    let q = quiet t e written in
    record {
      ctx = f.ctx;
      delay = f.delay;
      store = KeepsLive-trans e.time t.store _ t'.store q.store f.store;
      known = λ h. Known-KeepsLive e.time _ t'.store t.ctx.evtq f.store later (q.known h);
    }

pub flush_after-Settles :
    (t : Trace) (e : DrEvent)
    → IsWritten t.store
    → Ordered t.ctx.evtq
    → Returns (flush_after t e) (Settles e.time t)
unfolding flush_after
flush_after-Settles t e written o =
    let s = count_departure t.store e in
    elim (Bool-cases (
      s.output_open
      && (drained_until t.ctx.evtq e.time
          && leb (effective_job_flush_interval s) s.departures_since_job_flush))) [
            | inr waits ↦ rw waits (quiet t e written)
            | inl flushes ↦ rw flushes (
                Returns-mono _
                  (flush_completed_jobs-Flushes (record t { store = s }) e.time
                    (quiet t e written).store.written)
                  (λ t' f.
                    flush-Settles t e t' written
                      (later_of_drained t.ctx.evtq e.time o (and_middle _ _ _ flushes)) f))
          ]
