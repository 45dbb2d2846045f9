-- ===== src/Scheduler/Project/Rise.antt =====
-- With no scheduled capacity change ahead, the projected free nodes never fall.
use dr_evt.Base.{
  ℕ, ◌+◌, ◌-◌, ◌^◌, ◌≤◌, ◌<◌, ◌≡◌, refl, sym, ap, ◌∙◌, List, [], ◌∷◌, ◌++◌, arith, leb, ltb, ◌==◌,
  ◌&&◌, if◌then◌else◌, All, Bool-cases, inl, inr, subst,
}
use dr_evt.Base.Int.{ℤ, pos, negsuc, ◌+ℤ◌, pos_part, neg_part, sub_ℕ, +ℤ_parts, eq_of_parts}
use dr_evt.Scheduler.{
  RunningJob, RunningJobs, SchedulerBase, Delta, CapacityChange, all_deltas, initial_balance, clamp,
  release_of, running_releases, projected_releases, capacity_deltas,
}
use dr_evt.Scheduler.Project.Net.{change_by}

-- Every change adds nodes.
abbrev Gains : List Delta → Type 0
Gains ds = All (λ d. d.change ≡ pos (pos_part d.change)) ds

-- The nodes of the changes due at `t`, and of all.
due : ℕ → List Delta → ℕ
due t [] = 0
due t (d ∷ ds) = (if leb d.time t then pos_part d.change else 0) + due t ds

gain : List Delta → ℕ
gain [] = 0
gain (d ∷ ds) = pos_part d.change + gain ds

due-le : (t : ℕ) (ds : List Delta) → due t ds ≤ gain ds
unfolding due gain
due-le t [] = omega arith
due-le t (d ∷ ds) = ground (arith, due-le t ds)

due_mono : (t u : ℕ) (ds : List Delta) → t ≤ u → due t ds ≤ due u ds
unfolding due
due_mono t u [] le = omega arith
due_mono t u (d ∷ ds) le = ground (arith, due_mono t u ds le)

pos_add : (a b : ℕ) → pos a +ℤ pos b ≡ pos (a + b)
pos_add a b = omega (arith, +ℤ_parts, eq_of_parts)

change_by-due : (t : ℕ) (ds : List Delta) → Gains ds → change_by t ds ≡ pos (due t ds)
unfolding change_by due
change_by-due t [] g = refl
change_by-due t (d ∷ ds) g =
    let rest = change_by-due t ds g.1 in
    elim (Bool-cases (leb d.time t)) [
      | inl now ↦ rw now (
          ap (λ c. c +ℤ change_by t ds) g.0
          ∙ ap (λ c. pos (pos_part d.change) +ℤ c) rest
          ∙ pos_add (pos_part d.change) (due t ds))
      | inr later ↦ rw later (ap (λ c. pos 0 +ℤ c) rest ∙ pos_add 0 (due t ds))
    ]

release-Gains : (now : ℕ) (job : RunningJob) → Gains (release_of now job)
unfolding release_of
release-Gains now job = elim (Bool-cases (ltb now (job.start_time + job.run_time))) [
  | inl later ↦ rw later (refl, tt)
  | inr ended ↦ rw ended tt
]

release-le : (now : ℕ) (job : RunningJob) → gain (release_of now job) ≤ job.nodes
unfolding release_of gain
release-le now job = elim (Bool-cases (ltb now (job.start_time + job.run_time))) [
  | inl later ↦ rw later (omega arith)
  | inr ended ↦ rw ended (omega arith)
]

append-Gains : (xs ys : List Delta) → Gains xs → Gains ys → Gains (xs ++ ys)
append-Gains [] ys a b = b
append-Gains (x ∷ xs) ys a b = (a.0, append-Gains xs ys a.1 b)

gain-append : (xs ys : List Delta) → gain (xs ++ ys) ≡ gain xs + gain ys
unfolding gain
gain-append [] ys = omega arith
gain-append (x ∷ xs) ys = omega (arith, gain-append xs ys)

-- The nodes of running jobs, and of jobs that start in the pass.
unfoldable pub running_nodes : RunningJobs → ℕ
running_nodes [] = 0
running_nodes ((_, job) ∷ jobs) = job.nodes + running_nodes jobs

unfoldable pub projected_nodes : List RunningJob → ℕ
projected_nodes [] = 0
projected_nodes (job ∷ jobs) = job.nodes + projected_nodes jobs

running-Gains :
    (now : ℕ) (jobs : RunningJobs)
    → Gains (running_releases now jobs) × (gain (running_releases now jobs) ≤ running_nodes jobs)
unfolding running_releases running_nodes
running-Gains now [] = (tt, unfold gain in omega arith)
running-Gains now ((i, job) ∷ jobs) =
    let rest = running-Gains now jobs in
    (
      append-Gains (release_of now job) _ (release-Gains now job) rest.0,
      omega (
        arith,
        gain-append (release_of now job) (running_releases now jobs),
        release-le now job,
        rest.1,
      ),
    )

projected-Gains :
    (now : ℕ) (jobs : List RunningJob)
    → Gains (projected_releases now jobs)
      × (gain (projected_releases now jobs) ≤ projected_nodes jobs)
unfolding projected_releases projected_nodes
projected-Gains now [] = (tt, unfold gain in omega arith)
projected-Gains now (job ∷ jobs) =
    let rest = projected-Gains now jobs in
    (
      append-Gains (release_of now job) _ (release-Gains now job) rest.0,
      omega (
        arith,
        gain-append (release_of now job) (projected_releases now jobs),
        release-le now job,
        rest.1,
      ),
    )

pos_part-sub : (a b : ℕ) → pos_part (sub_ℕ a b) ≡ a - b
pos_part-sub a b = elim (Bool-cases (leb b a)) [
  | inl le ↦ rw le refl
  | inr gt ↦ rw gt (ground arith)
]

pos_part-add : (z : ℤ) (n : ℕ) → pos_part (z +ℤ pos n) ≡ pos_part z + n - neg_part z
unfolding ◌+ℤ◌
pos_part-add z n =
    let no_more : neg_part z + 0 ≡ neg_part z = omega arith in
    pos_part-sub (pos_part z + n) (neg_part z + 0) ∙ ap (λ k. pos_part z + n - k) no_more

clamp_small : (z : ℤ) → pos_part z < 2 ^ 32 → clamp z ≡ pos_part z
unfolding clamp
clamp_small (pos n) small = omega arith
clamp_small (negsuc n) small = refl

clamp_rise :
    (z : ℤ) (m n : ℕ) → m ≤ n → pos_part z + n < 2 ^ 32 → clamp (z +ℤ pos m) ≤ clamp (z +ℤ pos n)
clamp_rise z m n le small =
    let a = pos_part-add z m in
    let b = pos_part-add z n in
    omega (
      arith,
      a,
      b,
      clamp_small (z +ℤ pos m) (omega (arith, a)),
      clamp_small (z +ℤ pos n) (omega (arith, b)),
    )

all-Gains :
    (b : SchedulerBase) (running : RunningJobs) (now : ℕ) (projected : List RunningJob)
    → b.outlook_changes ≡ []
    → Gains (all_deltas b running now projected)
      × (gain (all_deltas b running now projected)
          ≤ running_nodes running + projected_nodes projected)
unfolding all_deltas
all-Gains b running now projected none_ahead =
    let r = running-Gains now running in
    let p = projected-Gains now projected in
    let cs = capacity_deltas now b.outlook_capacity b.outlook_changes in
    let no_cs : cs ≡ [] = no_capacity now b.outlook_capacity b.outlook_changes none_ahead in
    (
      append-Gains _ _ r.0 (append-Gains _ _ p.0 (subst Gains (sym no_cs) tt)),
      omega (
        arith,
        gain-append (running_releases now running) (projected_releases now projected ++ cs),
        gain-append (projected_releases now projected) cs,
        no_gain no_cs,
        r.1,
        p.1,
      ),
    )
  where
    no_capacity :
        (now reference : ℕ) (l : List CapacityChange)
        → l ≡ []
        → capacity_deltas now reference l ≡ []
    no_capacity now reference l eq =
        ap (capacity_deltas now reference) eq ∙ (unfold capacity_deltas in refl)

    no_gain : {l : List Delta} → l ≡ [] → gain l ≡ 0
    no_gain eq = ap gain eq ∙ (unfold gain in refl)

initial-le : (b : SchedulerBase) (free : ℕ) → pos_part (initial_balance b free) ≤ free
unfolding initial_balance
initial-le b free = elim (Bool-cases (free == 0 && ltb b.outlook_capacity b.outlook_occupied)) [
  | inl over ↦ rw over (no_balance (ground arith))
  | inr other ↦ rw other (omega arith)
]
  where
    no_balance :
        b.outlook_capacity < b.outlook_occupied
        → pos_part (sub_ℕ b.outlook_capacity b.outlook_occupied) ≤ free
    no_balance lt = omega (arith, pos_part-sub b.outlook_capacity b.outlook_occupied)

-- With no scheduled capacity change, the projected free nodes do not fall from one time to a later
-- one, as long as the free nodes and those of the running jobs stay below 2^32 together.
pub projection_rises :
    (b : SchedulerBase) (free : ℕ) (running : RunningJobs) (now : ℕ) (projected : List RunningJob)
    (t u : ℕ)
    → b.outlook_changes ≡ []
    → free + running_nodes running + projected_nodes projected < 2 ^ 32
    → t ≤ u
    → clamp (initial_balance b free +ℤ change_by t (all_deltas b running now projected))
      ≤ clamp (initial_balance b free +ℤ change_by u (all_deltas b running now projected))
projection_rises b free running now projected t u none_ahead small le =
    let ds = all_deltas b running now projected in
    let (gains, bound) = all-Gains b running now projected none_ahead in
    rw (change_by-due t ds gains) (
      rw (change_by-due u ds gains) (
        clamp_rise (initial_balance b free) (due t ds) (due u ds) (due_mono t u ds le)
          (omega (arith, initial-le b free, due-le u ds))))
