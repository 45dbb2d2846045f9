-- ===== src/Trace/Ledger.antt =====
-- What a well-formed trace (src/trace/trace.hpp) is between two events: its queue of events
-- accounts for the nodes in use and for those being released.
use dr_evt.Base.{ℕ, ◌+◌, ◌^◌, ◌≤◌, ◌<◌, ◌≡◌, false, ◌==◌, All}
use dr_evt.Events.{DrEventKind, departure, node_release, arrival, DrEvent}
use dr_evt.Events.Order.{Ordered, total, about}
use dr_evt.Trace.{JobRecord, JobStore, Trace, unscheduled_sentinel}
use dr_evt.Trace.Store.{Has}
use dr_evt.Trace.Flush.{IsWritten}

-- The nodes that a running job gives back when the event is processed, and those that an ended one
-- does. `size` is the number of nodes of each job.
abbrev pub held_as : ℕ → DrEventKind → ℕ
held_as n departure = n
held_as n node_release = 0
held_as n arrival = 0

abbrev pub held : (ℕ → ℕ) → DrEvent → ℕ
held size e = held_as (size e.job_idx) e.kind

abbrev pub given_as : ℕ → DrEventKind → ℕ
given_as n departure = 0
given_as n node_release = n
given_as n arrival = 0

abbrev pub given : DrEvent → ℕ
given e = given_as e.nodes e.kind

-- The number of jobs that run, and of those whose nodes are being released.
abbrev pub runs : DrEvent → ℕ
runs e = held_as 1 e.kind

abbrev pub releases : DrEvent → ℕ
releases e = given_as 1 e.kind

-- The event stands for a job that runs or has ended: the record of a running job is there, and says
-- that it ends when the event is due.
abbrev pub KnownAs : JobStore → DrEvent → DrEventKind → Type 0
KnownAs s e departure =
    (job : JobRecord) × Has s e.job_idx job
    × ((job.submit_time == unscheduled_sentinel) ≡ false)
    × (job.end_time ≡ e.time)
KnownAs s e node_release = Unit {0}
KnownAs s e arrival = ⊥

abbrev pub Known : JobStore → DrEvent → Type 0
Known s e = KnownAs s e e.kind

-- Each record has the nodes of its job.
abbrev pub Sized : (ℕ → ℕ) → JobStore → Type 0
Sized size s = (j : ℕ) (job : JobRecord) → Has s j job → job.num_nodes ≡ size j

pub record TraceInv (size : ℕ → ℕ) (now : ℕ) (t : Trace) : Type 0 where
  pub ordered : Ordered t.ctx.evtq
  pub due : All (λ e. now ≤ e.time) t.ctx.evtq
  pub known : All (Known t.store) t.ctx.evtq
  pub once : (j : ℕ) → total (about j) t.ctx.evtq ≤ 1
  pub in_use : t.ctx.nodes_in_use ≡ total (held size) t.ctx.evtq
  pub releasing : t.ctx.nodes_releasing ≡ total given t.ctx.evtq
  pub small : t.ctx.nodes_in_use + t.ctx.nodes_releasing < 2 ^ 32
  pub sized : Sized size t.store
  pub written : IsWritten t.store
  pub prompt : t.delay.active ≡ false → t.delay.last_departure_delayed ≡ false
