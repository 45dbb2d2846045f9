-- ===== src/Factory/Sound.antt =====
-- What create_scheduler promises of the scheduler that it constructs.
use dr_evt.Base.{
  ℕ, ◌^◌, ◌<◌, ◌≡◌, refl, sym, ◌∙◌, ap, Bool, true, false, not, arith, ◌==◌, if◌then◌else◌,
  Bool-cases, inl, inr, ==_iff,
}
use dr_evt.Scheduler.Policy.{
  BackfillPolicy, PriorityPolicy, fcfs, fcfs_alt, fcfs_conservative, sjf, ljf,
}
use dr_evt.Factory.{
  unless, lacks_depth, create_hybrid_scheduler, fixed_dispatch, periodic_scheduler,
  periodic_backfill, hybrid_backfill, served_order, create_fcfs, by_priority, event_driven,
  behind_dispatch, create_scheduler,
}
use dr_evt.Factory.Choices.{
  QueueImplementation, circular, deque, multimap, block, Config, Created, fcfs_hybrid_deque,
  fcfs_hybrid_circular, periodic_fcfs_hybrid_circular, fcfs_periodic_easy_circular,
  fcfs_periodic_hybrid_circular, fcfs_easy_block, fcfs_easy_multimap, fcfs_easy_deque,
  fcfs_easy_circular, sjf_easy, ljf_easy, Refusal, Creation, created, refused, exited, is_easy,
  is_no_backfill, is_hybrid, is_positive,
}
use dr_evt.Factory.Block.{is_no_power, log2_of, block_scheduler, by_log2, create_block_scheduler}

-- A depth stands where HYBRID asks for one.
abbrev pub HasDepth : BackfillPolicy → ℕ → Type 0
HasDepth policy depth = is_hybrid policy ≡ true → 0 < depth

-- The policy is one that the hybrid classes accept: their constructors throw on EASY.
abbrev pub IsReserving : BackfillPolicy → ℕ → Type 0
IsReserving policy depth = (is_easy policy ≡ false) × HasDepth policy depth

-- The constructed scheduler fits the configuration.
abbrev pub IsSound : Config → Created → Type 0
IsSound c (fcfs_hybrid_deque total policy depth slots) = IsReserving policy depth
IsSound c (fcfs_hybrid_circular total jobs policy capacity overflow depth slots) =
    IsReserving policy depth
IsSound c (periodic_fcfs_hybrid_circular total jobs policy capacity overflow depth slots) =
    HasDepth policy depth
IsSound c (fcfs_periodic_easy_circular total jobs capacity overflow slots) =
    is_easy c.backfill_policy ≡ true
IsSound c (fcfs_periodic_hybrid_circular total jobs capacity overflow policy depth slots) =
    IsReserving policy depth × (is_no_backfill policy ≡ false)
IsSound c (fcfs_easy_block size total policy slots) =
    (is_hybrid policy ≡ false) × (size ≡ c.block_size)
IsSound c (fcfs_easy_multimap total policy slots) = is_hybrid policy ≡ false
IsSound c (fcfs_easy_deque total policy slots) = is_hybrid policy ≡ false
IsSound c (fcfs_easy_circular total jobs policy capacity overflow slots) = is_hybrid policy ≡ false
IsSound c (sjf_easy total policy slots) = is_hybrid policy ≡ false
IsSound c (ljf_easy total policy slots) = is_hybrid policy ≡ false

abbrev pub Promises : Config → Creation → Type 0
Promises c (created s) = IsSound c s
Promises c (refused why) = Unit {0}
Promises c exited = Unit {0}

unless-Promises :
    (c : Config) (bad : Bool) (why : Refusal) (rest : Creation)
    → (bad ≡ false → Promises c rest)
    → Promises c (unless bad why rest)
unfolding unless
unless-Promises c true why rest h = tt
unless-Promises c false why rest h = h refl

split :
    (c : Config) (b : Bool) (x y : Creation)
    → (b ≡ true → Promises c x)
    → (b ≡ false → Promises c y)
    → Promises c (if b then x else y)
split c true x y l r = l refl
split c false x y l r = r refl

has_depth : (c : Config) → lacks_depth c ≡ false → HasDepth c.backfill_policy c.reservation_depth
unfolding lacks_depth
has_depth c h hybrid = ground arith

block-Promises :
    (c : Config) (log2 k size : ℕ)
    → is_hybrid c.backfill_policy ≡ false
    → 2 ^ log2 ≡ c.block_size
    → 2 ^ k ≡ size
    → (log2 == k) ≡ true
    → Promises c (block_scheduler c size)
unfolding block_scheduler
block-Promises c log2 k size no_hybrid eq power at =
    (no_hybrid, sym power ∙ sym (ap (λ n. 2 ^ n) ((==_iff log2 k).0 at)) ∙ eq)

by_log2-Promises :
    (c : Config) (log2 : ℕ)
    → is_hybrid c.backfill_policy ≡ false
    → 2 ^ log2 ≡ c.block_size
    → Promises c (by_log2 c log2)
unfolding by_log2
by_log2-Promises c log2 no_hybrid eq =
    split c (log2 == 2) _ _ (block-Promises c log2 2 4 no_hybrid eq refl) (λ a.
      split c (log2 == 3) _ _ (block-Promises c log2 3 8 no_hybrid eq refl) (λ b.
        split c (log2 == 4) _ _ (block-Promises c log2 4 16 no_hybrid eq refl) (λ d.
          split c (log2 == 5) _ _ (block-Promises c log2 5 32 no_hybrid eq refl) (λ e.
            split c (log2 == 6) _ _ (block-Promises c log2 6 64 no_hybrid eq refl) (λ f.
              split c (log2 == 7) _ _ (block-Promises c log2 7 128 no_hybrid eq refl) (λ g.
                split c (log2 == 8) _ _ (block-Promises c log2 8 256 no_hybrid eq refl)
                  (λ h. tt)))))))

create_block-Promises :
    (c : Config) → is_hybrid c.backfill_policy ≡ false → Promises c (create_block_scheduler c)
unfolding create_block_scheduler
create_block-Promises c no_hybrid =
    split c (is_no_power c.block_size) _ _ (λ bad. tt)
      (λ power.
        split c (not (2 ^ log2_of 64 c.block_size == c.block_size)) _ _ (λ bad. tt)
          (λ same. by_log2-Promises c (log2_of 64 c.block_size) no_hybrid (equal same)))
  where
    equal :
        not (2 ^ log2_of 64 c.block_size == c.block_size) ≡ false
        → 2 ^ log2_of 64 c.block_size ≡ c.block_size
    equal h = ground arith

create_fcfs-Promises :
    (c : Config) (q : QueueImplementation)
    → is_hybrid c.backfill_policy ≡ false
    → Promises c (create_fcfs c q)
unfolding create_fcfs
create_fcfs-Promises c block no_hybrid = create_block-Promises c no_hybrid
create_fcfs-Promises c multimap no_hybrid = no_hybrid
create_fcfs-Promises c deque no_hybrid = no_hybrid
create_fcfs-Promises c circular no_hybrid = no_hybrid

hybrid-IsSound :
    (c : Config) (q : QueueImplementation)
    → IsReserving c.backfill_policy c.reservation_depth
    → IsSound c (create_hybrid_scheduler c q)
unfolding create_hybrid_scheduler
hybrid-IsSound c block r = r
hybrid-IsSound c multimap r = r
hybrid-IsSound c deque r = r
hybrid-IsSound c circular r = r

conservative-Promises :
    (c : Config)
    → is_hybrid c.backfill_policy ≡ false
    → Promises c (by_priority c (served_order c.backfill_policy fcfs_conservative))
unfolding by_priority served_order
conservative-Promises c no_hybrid = elim (Bool-cases (is_easy c.backfill_policy)) [
  | inl easy ↦ rw easy (create_fcfs-Promises c c.queue_impl no_hybrid)
  | inr other ↦
      rw other (hybrid-IsSound c c.queue_impl (other, λ hybrid. absurd (cc (hybrid, no_hybrid))))
]

by_priority-Promises :
    (c : Config) (order : PriorityPolicy)
    → is_hybrid c.backfill_policy ≡ false
    → Promises c (by_priority c (served_order c.backfill_policy order))
unfolding by_priority served_order
by_priority-Promises c fcfs no_hybrid = create_fcfs-Promises c c.queue_impl no_hybrid
by_priority-Promises c fcfs_alt no_hybrid = no_hybrid
by_priority-Promises c fcfs_conservative no_hybrid = conservative-Promises c no_hybrid
by_priority-Promises c sjf no_hybrid = no_hybrid
by_priority-Promises c ljf no_hybrid = no_hybrid

hybrid_not_easy : (policy : BackfillPolicy) → is_hybrid policy ≡ true → is_easy policy ≡ false
unfolding is_hybrid is_easy
hybrid_not_easy BackfillPolicy.easy h = absurd (cc h)
hybrid_not_easy BackfillPolicy.conservative h = refl
hybrid_not_easy BackfillPolicy.no_backfill h = refl
hybrid_not_easy BackfillPolicy.hybrid h = refl

event_driven-Promises : (c : Config) → Promises c (event_driven c)
unfolding event_driven hybrid_backfill
event_driven-Promises c =
    split c (is_hybrid c.backfill_policy) _ _
      (λ hybrid. unless-Promises c _ _ _ (λ depth. unless-Promises c _ _ _ (λ order.
        hybrid-IsSound c c.queue_impl
          (hybrid_not_easy c.backfill_policy hybrid, λ again. positive depth))))
      (λ no_hybrid. by_priority-Promises c c.priority_policy no_hybrid)
  where
    positive : (c.reservation_depth == 0) ≡ false → 0 < c.reservation_depth
    positive h = ground arith

periodic-IsSound :
    (c : Config)
    → is_no_backfill c.backfill_policy ≡ false
    → lacks_depth c ≡ false
    → IsSound c (periodic_scheduler c)
unfolding periodic_scheduler
periodic-IsSound c enabled depth = elim (Bool-cases (is_easy c.backfill_policy)) [
  | inl easy ↦ rw easy easy
  | inr other ↦ rw other ((other, has_depth c depth), enabled)
]

behind_dispatch-Promises : (c : Config) → Promises c (behind_dispatch c)
unfolding behind_dispatch periodic_backfill
behind_dispatch-Promises c = unless-Promises c _ _ _ (λ a. unless-Promises c _ _ _ (λ b.
    split c (is_positive c.backfill_interval) _ _
      (λ positive. unless-Promises c _ _ _ (λ enabled. unless-Promises c _ _ _ (λ order.
        unless-Promises c _ _ _
          (λ queue. unless-Promises c _ _ _ (λ depth. periodic-IsSound c enabled depth)))))
      (λ none. event_driven-Promises c)))

-- The scheduler that is constructed fits the configuration: a class that maintains reservations
-- never gets the EASY policy, on which its constructor throws; wherever the policy is HYBRID, the
-- class is one that maintains reservations and its depth is positive; periodic backfilling has an
-- enabled policy, and is EASY only in its own class; a block queue has the configured block size,
-- whichever of the sizes supported it is.
pub create_scheduler-Promises : (c : Config) → Promises c (create_scheduler c)
unfolding create_scheduler fixed_dispatch
create_scheduler-Promises c = unless-Promises c _ _ _ (λ events. unless-Promises c _ _ _ (λ finite.
    split c (is_positive c.dispatch_interval) _ _
      (λ positive. unless-Promises c _ _ _ (λ exclusive. unless-Promises c _ _ _ (λ order.
        unless-Promises c _ _ _ (λ queue.
          unless-Promises c _ _ _
            (λ slots. unless-Promises c _ _ _ (λ depth. has_depth c depth))))))
      (λ none. behind_dispatch-Promises c)))
