-- ===== src/Simulation/Sampled.antt =====
-- What a change of the capacity does to the trace (`set_resource_capacity`, src/trace/trace.cpp).
use dr_evt.Base.{ℕ, ◌≡◌, refl, ◌∙◌, ap, Bool, true, false, List, length, ◌==◌, if◌then◌else◌}
use dr_evt.Trace.{ResourceSample, Trace}
use dr_evt.Trace.Output.{
  set_resource_capacity, record_resource_sample, push_sample, flush_resource_history,
  resolve_resource_history_capacity,
}

-- The trace with another capacity and other resource samples, and nothing else changed.
abbrev pub sampled : Trace → ℕ → List ResourceSample → ℕ → Bool → List ResourceSample → Trace
sampled t capacity history limit resolved rows = record t {
  ctx = record t.ctx { resource_history = history };
  resource_history_capacity = limit;
  resource_history_resolved = resolved;
  resource_rows = rows;
  current_capacity = capacity;
}

-- Only the resource samples of the trace differ, and its capacity is `capacity`.
pub record Samples (t : Trace) (capacity : ℕ) (t' : Trace) : Type 0 where
  pub history : List ResourceSample
  pub limit : ℕ
  pub resolved : Bool
  pub rows : List ResourceSample
  pub trace : t' ≡ sampled t capacity history limit resolved rows

pub Samples-at :
    (t : Trace) (capacity : ℕ) (history : List ResourceSample) (limit : ℕ) (resolved : Bool)
    (rows : List ResourceSample)
    → Samples t capacity (sampled t capacity history limit resolved rows)
Samples-at t capacity history limit resolved rows = record {
  history = history;
  limit = limit;
  resolved = resolved;
  rows = rows;
  trace = refl;
}

if-Samples :
    (t : Trace) (capacity : ℕ) (b : Bool) (x y : Trace)
    → Samples t capacity x
    → Samples t capacity y
    → Samples t capacity (if b then x else y)
if-Samples t capacity true x y h k = h
if-Samples t capacity false x y h k = k

-- Other samples change nothing else again.
more-Samples :
    (t a : Trace) (capacity : ℕ) (history : List ResourceSample) (limit : ℕ) (resolved : Bool)
    (rows : List ResourceSample)
    → Samples t capacity a
    → Samples t capacity (sampled a a.current_capacity history limit resolved rows)
more-Samples t a capacity history limit resolved rows h = record {
  history = history;
  limit = limit;
  resolved = resolved;
  rows = rows;
  trace = ap (λ (x : Trace). sampled x x.current_capacity history limit resolved rows) h.trace;
}

pub then-Samples :
    (t a b : Trace) (capacity next : ℕ) → Samples t capacity a → Samples a next b → Samples t next b
then-Samples t a b capacity next h k = record {
  history = k.history;
  limit = k.limit;
  resolved = k.resolved;
  rows = k.rows;
  trace = k.trace ∙ ap (λ (x : Trace). sampled x next k.history k.limit k.resolved k.rows) h.trace;
}

pub set_resource_capacity-Samples :
    (t : Trace) (time capacity : ℕ) → Samples t capacity (set_resource_capacity t time capacity)
unfolding set_resource_capacity record_resource_sample push_sample flush_resource_history
    resolve_resource_history_capacity
set_resource_capacity-Samples t time capacity =
    let t' : Trace = record t { current_capacity = capacity } in
    let r = resolve_resource_history_capacity t' in
    let b = length r.ctx.resource_history == r.resource_history_capacity in
    let resolves : Samples t capacity r =
      if-Samples t capacity t.resource_history_resolved t' _ (Samples-at t capacity _ _ _ _)
        (Samples-at t capacity _ _ _ _) in
    let f = if b then flush_resource_history r else r in
    let flushes : Samples t capacity f =
      if-Samples t capacity b (flush_resource_history r) r
        (more-Samples t r capacity _ _ _ _ resolves) resolves in
    more-Samples t f capacity _ _ _ _ flushes
