-- ===== src/Simulation/Select.antt =====
-- Which branch of the main loop (`advance_to_impl`, src/sim/sim.cpp) is taken, and when none is.
use dr_evt.Base.{
  ℕ, ◌+◌, ◌≤◌, ◌<◌, ◌≡◌, refl, ap, subst, Bool, true, false, not, ◌&&◌, Option, none, some, List,
  [], ◌∷◌, arith, ltb, leb, All, if_ind, inl, inr,
}
use dr_evt.Base.Results.{Result, ok, Returns}
use dr_evt.Events.{DrEvent, EventQueue}
use dr_evt.Events.Order.{Ordered, drained_later}
use dr_evt.Scheduler.{CapacityChange, max_time}
use dr_evt.Trace.{unscheduled_sentinel}
use dr_evt.Simulation.{SchedulerMethods, Simulation}
use dr_evt.Simulation.Advance.{
  next_replay_time, next_change_time, is_queue_empty, selected, replay_branch, arrival_branch,
  select_event,
}
use dr_evt.Simulation.Contract.{Contract, ahead}
use dr_evt.Simulation.Scheduling.{Ready}
use dr_evt.Simulation.Handle.{energy}
use dr_evt.Simulation.Change.{HeadLater, change_due}
use dr_evt.Simulation.Loop.{Settled, replay_settles, arrival_settles}

-- The test of the replay branch.
abbrev replays : EventQueue → ℕ → ℕ → ℕ → Bool
replays q next_arrival next_capacity target =
    not (is_queue_empty q)
    && (leb (next_replay_time q) next_arrival
        && (leb (next_replay_time q) next_capacity && leb (next_replay_time q) target))

abbrev arrives_first : ℕ → ℕ → ℕ → Bool
arrives_first next_arrival next_capacity target =
    ltb next_arrival max_time && (leb next_arrival next_capacity && leb next_arrival target)

abbrev changes_first : ℕ → ℕ → Bool
changes_first next_capacity target = ltb next_capacity max_time && leb next_capacity target

-- Without the replay branch, every event is later than a time that is not behind the others.
later_than :
    (q : EventQueue) (na nc target time : ℕ)
    → Ordered q
    → replays q na nc target ≡ false
    → time ≤ na
    → time ≤ nc
    → time ≤ target
    → All (λ e. time < e.time) q
later_than [] na nc target time o no_replay a b c = tt
later_than (e ∷ q) na nc target time o no_replay a b c =
    drained_later time e q o (ground (arith, no_replay, a, b, c))

replay_front :
    (q : EventQueue) (na nc target : ℕ)
    → replays q na nc target ≡ true
    → (e : DrEvent) × (l : EventQueue) × (q ≡ e ∷ l)
      × (e.time ≡ next_replay_time q)
      × (next_replay_time q ≤ target)
replay_front [] na nc target h = absurd (cc h)
replay_front (e ∷ l) na nc target h = (e, l, refl, refl, ground (arith, h))

change_front :
    (l : List CapacityChange)
    → next_change_time l < max_time
    → 1 ≤ change_due (next_change_time l) l
change_front [] lt = absurd (omega arith)
change_front (c ∷ l) lt = ground arith

head_after :
    (now : ℕ) (l : List CapacityChange)
    → HeadLater now l
    → next_change_time l < max_time
    → now ≤ next_change_time l
head_after now [] h lt = absurd (omega arith)
head_after now (c ∷ l) h lt = omega (arith, h)

pub head_later : (time : ℕ) (l : List CapacityChange) → time < next_change_time l → HeadLater time l
head_later time [] lt = tt
head_later time (c ∷ l) lt = lt

-- The sentinel of the records is an ordinary time.
pub sentinel_before_max : unscheduled_sentinel < max_time
unfolding unscheduled_sentinel max_time
sentinel_before_max = omega arith

module _ (S : SchedulerMethods) (size submit_of : ℕ → ℕ) (C : Contract S size submit_of)
    (sample : ℕ → ℕ → ℕ) where
  -- Nothing is left to do up to the target.
  pub record Exhausted (target : ℕ) (s : Simulation S.State) : Type 0 where
    pub later : All (λ e. target < e.time) s.trace.ctx.evtq
    pub head : HeadLater target s.capacity_changes
    pub arrival : target < S.get_next_arrival_time s.scheduler

  -- What the selection leads to: a state at an event up to the target, or the end.
  abbrev pub Selects : ℕ → Simulation S.State → Option (Simulation S.State × Bool) → Type 0
  Selects target s none = Exhausted target s
  Selects target s (some r) =
      (time : ℕ) × (s.current_time ≤ time) × (time ≤ target) × Settled S size submit_of C time s r.0

  chosen :
      (target time : ℕ) (s : Simulation S.State) (r : Result (Simulation S.State × Bool))
      → s.current_time ≤ time
      → time ≤ target
      → Returns r (λ x. Settled S size submit_of C time s x.0)
      → Returns (selected r) (Selects target s)
  chosen target time s (ok x) le to h = (time, le, to, h)
  chosen target time s (Result.throw e) le to h = absurd h

  module _ (fuel : ℕ) (s : Simulation S.State) (target : ℕ) (r : Ready S size submit_of C s)
      (head : HeadLater s.current_time s.capacity_changes) (before : target < unscheduled_sentinel)
      (enough : energy s.trace.ctx.evtq + 1 ≤ fuel) where
    abbrev na : ℕ
    na = S.get_next_arrival_time s.scheduler

    abbrev nc : ℕ
    nc = next_change_time s.capacity_changes

    abbrev q : EventQueue
    q = s.trace.ctx.evtq

    arrival_ahead :
        na < max_time
        → (s.current_time < na)
          × (ahead submit_of na (C.pending s.scheduler) + 1
              ≤ ahead submit_of s.current_time (C.pending s.scheduler))
    arrival_ahead finite = elim (C.arrives s.scheduler s.latest_submit_time r.inv.scheduler) [
      | inl never ↦ absurd (omega (arith, never, finite))
      | inr comes ↦ (
        omega (arith, comes.0, r.synced),
        omega (arith, comes.1, ap (λ t. ahead submit_of t (C.pending s.scheduler)) r.synced),
      )
    ]

    select_replay :
        replays q na nc target ≡ true
        → Returns
            (selected (replay_branch S sample fuel s (next_replay_time q) na))
            (Selects target s)
    select_replay h =
        let (e, l, eq, at, to) = replay_front q na nc target h in
        let first = subst (All (λ x. s.current_time < x.time)) eq r.inv.later in
        let le : s.current_time ≤ next_replay_time q = omega (arith, first.0, at) in
        chosen target (next_replay_time q) s _ le to (
          replay_settles S size submit_of C sample s (next_replay_time q) r.inv.accounts le
            (omega (arith, to, before)) fuel na e l eq at enough)

    select_arrival :
        replays q na nc target ≡ false
        → arrives_first na nc target ≡ true
        → Returns (selected (arrival_branch S sample s na)) (Selects target s)
    select_arrival no_replay h =
        let finite : na < max_time = ground (arith, h) in
        let to : na ≤ target = ground (arith, h) in
        let (le, comes) = arrival_ahead finite in
        chosen target na s _ (omega (arith, le)) to (
          arrival_settles S size submit_of C sample s na r.inv.accounts (omega (arith, le))
            (omega (arith, to, before))
            (later_than q na nc target na r.inv.trace.ordered no_replay (omega arith)
              (ground (arith, h)) to)
            (inl comes))

    select_change :
        replays q na nc target ≡ false
        → arrives_first na nc target ≡ false
        → changes_first nc target ≡ true
        → Returns (selected (arrival_branch S sample s nc)) (Selects target s)
    select_change no_replay no_arrival h =
        let finite : nc < max_time = ground (arith, h) in
        let to : nc ≤ target = ground (arith, h) in
        let behind : nc ≤ na = ground (arith, h, no_arrival) in
        let le = head_after s.current_time s.capacity_changes head finite in
        chosen target nc s _ le to (
          arrival_settles S size submit_of C sample s nc r.inv.accounts le
            (omega (arith, to, before))
            (later_than q na nc target nc r.inv.trace.ordered no_replay behind (omega arith) to)
            (inr (change_front s.capacity_changes finite)))

    select_none :
        replays q na nc target ≡ false
        → arrives_first na nc target ≡ false
        → changes_first nc target ≡ false
        → Exhausted target s
    select_none no_replay no_arrival no_change =
        let below = sentinel_before_max in
        let change_later : target < nc = ground (arith, no_change, before, below) in
        let arrival_later : target < na = ground (arith, no_arrival, change_later, before, below) in
        record {
          later =
              later_than q na nc target target r.inv.trace.ordered no_replay
                (omega (arith, arrival_later)) (omega (arith, change_later)) (omega arith);
          head = head_later target s.capacity_changes change_later;
          arrival = arrival_later;
        }

    pub select_event-Selects : Returns (select_event S sample fuel s target) (Selects target s)
    unfolding select_event
    select_event-Selects =
        if_ind (λ x. Returns x (Selects target s)) (replays q na nc target) _ _ select_replay
          (λ no_replay.
            if_ind (λ x. Returns x (Selects target s)) (arrives_first na nc target) _ _
              (select_arrival no_replay)
              (λ no_arrival.
                if_ind (λ x. Returns x (Selects target s)) (changes_first nc target) _ _
                  (select_change no_replay no_arrival) (select_none no_replay no_arrival)))
