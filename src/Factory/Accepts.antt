-- ===== src/Factory/Accepts.antt =====
-- The configurations of event-driven scheduling that create_scheduler accepts.
use dr_evt.Base.{
  ◌<◌, ◌≡◌, refl, ◌∙◌, ap, Bool, true, false, not, ◌&&◌, arith, ◌==◌, if◌then◌else◌, Bool-cases,
  inl, inr,
}
use dr_evt.Scheduler.Policy.{PriorityPolicy, fcfs, fcfs_alt, fcfs_conservative, sjf, ljf}
use dr_evt.Factory.{
  unless, hybrid_backfill, create_fcfs, by_priority, event_driven, behind_dispatch,
  create_scheduler,
}
use dr_evt.Factory.Choices.{
  QueueImplementation, circular, deque, multimap, block, ticks, Config, Created, Refusal, Creation,
  created, is_hybrid, is_fcfs_order, is_positive, is_at_most_zero, is_invalid,
}

abbrev pub IsCreated : Creation → Type 0
IsCreated x = (s : Created) × (x ≡ created s)

-- Event-driven scheduling: no interval, and none of the settings that ask for one.
pub record IsEventDriven (c : Config) : Type 0 where
  pub no_dispatch : c.dispatch_interval ≡ ticks 0
  pub no_backfill_interval : c.backfill_interval ≡ ticks 0
  pub no_dispatch_depth : c.dispatch_queue_depth ≡ 0
  pub no_events : c.dispatch_on_events ≡ false

passes : (bad : Bool) (why : Refusal) (rest : Creation) → bad ≡ false → unless bad why rest ≡ rest
unfolding unless
passes bad why rest ok = rw ok refl

otherwise : (b : Bool) (x y : Creation) → b ≡ false → (if b then x else y) ≡ y
otherwise b x y off = rw off refl

-- A queue that is not the block queue, whose sizes are checked.
abbrev pub IsPlain : QueueImplementation → Type 0
IsPlain circular = Unit {0}
IsPlain deque = Unit {0}
IsPlain multimap = Unit {0}
IsPlain block = ⊥

fcfs-IsCreated : (c : Config) (q : QueueImplementation) → IsPlain q → IsCreated (create_fcfs c q)
unfolding create_fcfs
fcfs-IsCreated c circular plain = (_, refl)
fcfs-IsCreated c deque plain = (_, refl)
fcfs-IsCreated c multimap plain = (_, refl)
fcfs-IsCreated c block plain = absurd plain

priority-IsCreated :
    (c : Config) (order : PriorityPolicy) → IsPlain c.queue_impl → IsCreated (by_priority c order)
unfolding by_priority
priority-IsCreated c fcfs plain = fcfs-IsCreated c c.queue_impl plain
priority-IsCreated c fcfs_alt plain = (_, refl)
priority-IsCreated c fcfs_conservative plain = (_, refl)
priority-IsCreated c sjf plain = (_, refl)
priority-IsCreated c ljf plain = (_, refl)

event_driven-IsCreated :
    (c : Config)
    → IsPlain c.queue_impl
    → (is_hybrid c.backfill_policy ≡ true
        → (0 < c.reservation_depth) × (is_fcfs_order c.priority_policy ≡ true))
    → IsCreated (event_driven c)
unfolding event_driven hybrid_backfill
event_driven-IsCreated c plain depth = elim (Bool-cases (is_hybrid c.backfill_policy)) [
  | inr other ↦ rw other (priority-IsCreated c _ plain)
  | inl hybrid ↦
      let (pos, order) = depth hybrid in
      rw hybrid (
        _,
        passes (c.reservation_depth == 0) _ _ (ground arith)
            ∙ passes (not (is_fcfs_order c.priority_policy)) _ _ (ground arith),
      )
]

-- Every configuration of event-driven scheduling with a queue other than the block queue is
-- accepted, if HYBRID comes with a positive reservation depth and an FCFS ordering: a scheduler is
-- constructed.
pub create_scheduler-IsCreated :
    (c : Config)
    → IsEventDriven c
    → IsPlain c.queue_impl
    → (is_hybrid c.backfill_policy ≡ true
        → (0 < c.reservation_depth) × (is_fcfs_order c.priority_policy ≡ true))
    → IsCreated (create_scheduler c)
unfolding create_scheduler behind_dispatch is_positive is_invalid
create_scheduler-IsCreated c e plain depth =
    let (s, eq) = event_driven-IsCreated c plain depth in
    (
      s,
      passes (c.dispatch_on_events && is_at_most_zero c.dispatch_interval) _ _ (quiet e.no_events)
          ∙ passes (is_invalid c.dispatch_interval) _ _ (ap is_invalid e.no_dispatch)
          ∙ otherwise (is_positive c.dispatch_interval) _ _ (ap is_positive e.no_dispatch)
          ∙ passes (not (c.dispatch_queue_depth == 0)) _ _ (none_set e.no_dispatch_depth)
          ∙ passes (is_invalid c.backfill_interval) _ _ (ap is_invalid e.no_backfill_interval)
          ∙ otherwise (is_positive c.backfill_interval) _ _ (ap is_positive e.no_backfill_interval)
          ∙ eq,
    )
  where
    quiet :
        c.dispatch_on_events ≡ false
        → (c.dispatch_on_events && is_at_most_zero c.dispatch_interval) ≡ false
    quiet no_events = ap (λ b. b && is_at_most_zero c.dispatch_interval) no_events

    none_set : c.dispatch_queue_depth ≡ 0 → not (c.dispatch_queue_depth == 0) ≡ false
    none_set zero_depth = ground arith
