-- ===== src/Scheduler/Outlook.antt =====
-- What a projection of the free nodes shows (`reservation_timeline`, src/sim/scheduler_base.cpp):
-- the releases of the running jobs and of those that start in the pass, and the capacity outlook.
use dr_evt.Base.{
  ℕ, ◌+◌, ◌-◌, ◌%◌, ◌^◌, ◌≤◌, ◌<◌, ◌≡◌, refl, ap, ◌∙◌, false, ◌&&◌, List, [], ◌∷◌, ◌++◌, map, arith,
  leb, ltb, ◌==◌, if◌then◌else◌, Bool-cases, inl, inr, leb→lt, ltb→lt, ltb→le, le→leb, lt→leb,
}
use dr_evt.Base.Int.{ℤ, pos, negsuc, ◌+ℤ◌, pos_part, neg_part, sub_ℕ, +ℤ_parts}
use dr_evt.Timeline.Free.{free_at}
use dr_evt.Scheduler.{
  RunningJob, RunningJobs, SchedulerBase, Delta, CapacityChange, all_deltas, initial_balance, clamp,
  release_of, running_releases, projected_releases, capacity_deltas, reservation_timeline,
}
use dr_evt.Scheduler.Project.{change_by, free_at-reservation_timeline}

-- The nodes of the jobs that end after `now` and by `t`.
abbrev pub released_by : ℕ → ℕ → List RunningJob → ℕ
released_by now t [] = 0
released_by now t (job ∷ jobs) =
    (if ltb now (job.start_time + job.run_time) && leb (job.start_time + job.run_time) t
      then job.nodes
      else 0)
    + released_by now t jobs

-- The capacity at `t`: that of the last change by then, in a list in the order of time.
abbrev pub capacity_by : ℕ → ℕ → List CapacityChange → ℕ
capacity_by t capacity [] = capacity
capacity_by t capacity (c ∷ cs) =
    let rest = capacity_by t c.total_nodes cs in if leb c.time t then rest else capacity

-- The order that a capacity schedule has (src/sim/capacity_schedule.hpp), equal times included.
abbrev pub InOrder : ℕ → List CapacityChange → Type 0
InOrder a [] = Unit {0}
InOrder a (c ∷ cs) = (a ≤ c.time) × InOrder c.time cs

-- The nodes occupied beyond the capacity, while none is free.
abbrev pub overcommitted : SchedulerBase → ℕ → ℕ
overcommitted b free = if free == 0 then b.outlook_occupied - b.outlook_capacity else 0

-- The integer is a - b.
abbrev IsDifference : ℤ → ℕ → ℕ → Type 0
IsDifference z a b = pos_part z + b ≡ neg_part z + a

IsDifference-add :
    (z w : ℤ) (a b c d : ℕ)
    → IsDifference z a b
    → IsDifference w c d
    → IsDifference (z +ℤ w) (a + c) (b + d)
IsDifference-add z w a b c d h k = omega (arith, +ℤ_parts z w, h, k)

IsDifference-sub : (a b : ℕ) → IsDifference (sub_ℕ a b) a b
IsDifference-sub a b = ground arith

clamp-difference : (z : ℤ) (a b : ℕ) → IsDifference z a b → clamp z ≡ (a - b) % 2 ^ 32
unfolding clamp
clamp-difference (pos n) a b h = ap (λ i. i % 2 ^ 32) (omega (arith, h))
clamp-difference (negsuc n) a b h = omega (arith, h)

initial-IsDifference :
    (b : SchedulerBase) (free : ℕ)
    → IsDifference (initial_balance b free) free (overcommitted b free)
unfolding initial_balance
initial-IsDifference b free = ground arith

-- The changes of two lists together.
append-IsDifference :
    (t : ℕ) (xs ys : List Delta) (a b c d : ℕ)
    → IsDifference (change_by t xs) a b
    → IsDifference (change_by t ys) c d
    → IsDifference (change_by t (xs ++ ys)) (a + c) (b + d)
unfolding change_by
append-IsDifference t [] ys a b c d h k = omega (arith, h, k)
append-IsDifference t (x ∷ xs) ys a b c d h k =
    let v : ℤ = if leb x.time t then x.change else pos 0 in
    let rest =
      append-IsDifference t xs ys (pos_part (change_by t xs)) (neg_part (change_by t xs)) c d
        (omega arith) k in
    omega (arith, +ℤ_parts v (change_by t xs), +ℤ_parts v (change_by t (xs ++ ys)), rest, h)

release-IsDifference :
    (now t : ℕ) (job : RunningJob)
    → IsDifference (change_by t (release_of now job)) (released_by now t (job ∷ [])) 0
unfolding change_by release_of ◌+ℤ◌
release-IsDifference now t job = ground arith

running-IsDifference :
    (now t : ℕ) (jobs : RunningJobs)
    → IsDifference
        (change_by t (running_releases now jobs))
        (released_by now t (map (λ e. e.1) jobs))
        0
unfolding running_releases
running-IsDifference now t [] = unfold change_by in refl
running-IsDifference now t ((i, job) ∷ jobs) = omega (
  arith,
  append-IsDifference t (release_of now job) (running_releases now jobs) _ _ _ _
      (release-IsDifference now t job) (running-IsDifference now t jobs),
)

projected-IsDifference :
    (now t : ℕ) (jobs : List RunningJob)
    → IsDifference (change_by t (projected_releases now jobs)) (released_by now t jobs) 0
unfolding projected_releases
projected-IsDifference now t [] = unfold change_by in refl
projected-IsDifference now t (job ∷ jobs) = omega (
  arith,
  append-IsDifference t (release_of now job) (projected_releases now jobs) _ _ _ _
      (release-IsDifference now t job) (projected-IsDifference now t jobs),
)

-- No change has come before all of them.
capacity_by_before :
    (t a capacity : ℕ) (cs : List CapacityChange)
    → InOrder a cs
    → t < a
    → capacity_by t capacity cs ≡ capacity
capacity_by_before t a capacity [] o lt = refl
capacity_by_before t a capacity (c ∷ cs) o lt = rw (lt→leb c.time t (omega (arith, o.0, lt))) refl

-- A change that is still ahead counts from its time on.
ahead-IsDifference :
    (t reference x y : ℕ) (c : CapacityChange) (ds : List Delta)
    → IsDifference (change_by t ds) x y
    → y ≡ c.total_nodes
    → (leb c.time t ≡ false → x ≡ c.total_nodes)
    → IsDifference
        (change_by t (record { time = c.time; change = sub_ℕ c.total_nodes reference } ∷ ds))
        (if leb c.time t then x else reference)
        reference
unfolding change_by
ahead-IsDifference t reference x y c ds rest now_before before = elim (Bool-cases (leb c.time t)) [
  | inl come ↦ rw come (
      omega (
        arith,
        +ℤ_parts (sub_ℕ c.total_nodes reference) (change_by t ds),
        IsDifference-sub c.total_nodes reference,
        rest,
        now_before,
      ))
  | inr later ↦
      rw later (omega (arith, +ℤ_parts (pos 0) (change_by t ds), rest, now_before, before later))
]

capacity-IsDifference :
    (now t reference a : ℕ) (cs : List CapacityChange)
    → now ≤ t
    → InOrder a cs
    → IsDifference
        (change_by t (capacity_deltas now reference cs))
        (capacity_by t reference cs)
        (capacity_by now reference cs)
unfolding capacity_deltas
capacity-IsDifference now t reference a [] le o = unfold change_by in omega arith
capacity-IsDifference now t reference a (c ∷ cs) le o =
    let rest = capacity-IsDifference now t c.total_nodes c.time cs le o.1 in
    elim (Bool-cases (ltb now c.time)) [
      | inr due ↦
          let past = ltb→le _ _ due in
          rw (due, le→leb c.time now past, le→leb c.time t (omega (arith, past, le))) rest
      | inl ahead ↦
          let lt = ltb→lt _ _ ahead in
          rw (ahead, lt→leb c.time now lt)
            (ahead-IsDifference t reference _ _ c _ rest
              (capacity_by_before now c.time c.total_nodes cs o.1 lt)
              (λ later. capacity_by_before t c.time c.total_nodes cs o.1 (leb→lt _ _ later)))
    ]

module _ (b : SchedulerBase) (free : ℕ) (running : RunningJobs) (now : ℕ)
    (projected : List RunningJob) where
  -- What the projection shows at `t`.
  abbrev pub outlook : ℕ → ℕ
  outlook t =
      (free
        + released_by now t (map (λ e. e.1) running)
        + released_by now t projected
        + capacity_by t b.outlook_capacity b.outlook_changes
        - (capacity_by now b.outlook_capacity b.outlook_changes + overcommitted b free))
      % 2 ^ 32

  -- With the scheduled capacity changes in the order of time, the projection shows at every time
  -- from `now` on: the free nodes, less those occupied beyond the capacity where none is free; the
  -- nodes of all running jobs, and of all jobs that start in the pass, that end after `now` and by
  -- the time; and the difference of the capacity at the time from that at `now`. Where this is
  -- negative, no node is free; it is cut off to 32 bits.
  pub reservation_timeline_lem :
      (t : ℕ)
      → now ≤ t
      → InOrder 0 b.outlook_changes
      → free_at (reservation_timeline b free running now projected) t ≡ outlook t
  unfolding all_deltas
  reservation_timeline_lem t le ordered =
      let cs = capacity-IsDifference now t b.outlook_capacity 0 b.outlook_changes le ordered in
      let ps =
        append-IsDifference t (projected_releases now projected) _ _ _ _ _
          (projected-IsDifference now t projected) cs in
      let ds =
        append-IsDifference t (running_releases now running) _ _ _ _ _
          (running-IsDifference now t running) ps in
      free_at-reservation_timeline b free running now projected t
      ∙ clamp-difference
          (initial_balance b free +ℤ change_by t (all_deltas b running now projected)) _ _
          (IsDifference-add _ _ _ _ _ _ (initial-IsDifference b free) ds)
      ∙ ap (λ i. i % 2 ^ 32) (omega arith)
