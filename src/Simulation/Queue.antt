-- ===== src/Simulation/Queue.antt =====
-- The deque-backed queue (src/sim/scheduler_fcfs_easy_deque.cpp) seen from the driver: its counts
-- and its next arrival in terms of the submit times of the pending jobs.
use dr_evt.Base.{
  ℕ, zero, suc, ◌≤◌, ◌<◌, ◌≡◌, refl, sym, ap, subst, false, List, [], ◌∷◌, arith, ◌==◌, All, length,
  take, drop, Bool-cases, ◌⊎◌, inl, inr, ==_iff,
}
use dr_evt.Base.Sums.{sum_of, occurs}
use dr_evt.Scheduler.{max_time}
use dr_evt.Deque.{JobEntry, pending, first_arrival}
use dr_evt.Deque.Invariant.{Split, Rising, first_arrival_here}
use dr_evt.Deque.Front.{ids, total_nodes, IsOf}
use dr_evt.Simulation.Contract.{ahead, arrived, ahead-later}

pending_here :
    (j : JobEntry) (q : List JobEntry) → j.removed ≡ false → pending (j ∷ q) ≡ j.job_id ∷ pending q
unfolding pending
pending_here j q here = rw here refl

module _ (size submit_of : ℕ → ℕ) (latest : ℕ) where
  abbrev Genuine : List JobEntry → Type 0
  Genuine = All (IsOf size submit_of latest)

  pub nodes_of : (q : List JobEntry) → Genuine q → total_nodes q ≡ sum_of size (ids q)
  unfolding total_nodes
  nodes_of [] all = refl
  nodes_of (j ∷ q) all = omega (arith, all.0.1, nodes_of q all.1)

  pub submits_of :
      (now : ℕ) (q : List JobEntry)
      → Genuine q
      → All (λ j. j.submit_time ≤ now) q
      → All (λ j. submit_of j ≤ now) (ids q)
  submits_of now [] all due = tt
  submits_of now (j ∷ q) all due = (omega (arith, all.0.0, due.0), submits_of now q all.1 due.1)

  -- The pending jobs that have arrived are those before the index.
  pub arrived_of_Split :
      (t e : ℕ) (q : List JobEntry)
      → Split t e q
      → Genuine q
      → arrived submit_of t (pending q) ≡ length (pending (take e q))
  unfolding pending
  arrived_of_Split t zero [] s all = refl
  arrived_of_Split t zero (j ∷ q) s all =
      ground (arith, s.0.1, s.0.0, all.0.0, arrived_of_Split t zero q s.1 all.1)
  arrived_of_Split t (suc e) [] s all = absurd s
  arrived_of_Split t (suc e) (j ∷ q) s all =
      ground (arith, s.0, all.0.0, arrived_of_Split t e q s.1 all.1)

  abbrev Comes : ℕ → List JobEntry → ℕ → Type 0
  Comes t q next = (t < next) × (ahead submit_of next (pending q) < ahead submit_of t (pending q))

  Comes-first :
      (t : ℕ) (j : JobEntry) (q : List JobEntry)
      → (j.removed ≡ false)
      → t < j.submit_time
      → j.submit_time ≡ submit_of j.job_id
      → Comes t (j ∷ q) (first_arrival (j ∷ q))
  Comes-first t j q here lt eq =
      let later = ahead-later submit_of t j.submit_time (pending q) (omega arith) in
      let less : ahead submit_of j.submit_time (j.job_id ∷ pending q)
          < ahead submit_of t (j.job_id ∷ pending q) =
        ground (arith, later, lt, eq) in
      subst (Comes t (j ∷ q)) (sym (first_arrival_here j q here)) (
        lt,
        subst (λ l. ahead submit_of j.submit_time l < ahead submit_of t l)
            (sym (pending_here j q here)) less,
      )

  Comes-behind :
      (t next : ℕ) (j : JobEntry) (q : List JobEntry) → Comes t q next → Comes t (j ∷ q) next
  unfolding pending
  Comes-behind t next j q (lt, less) = (lt, ground (arith, lt, less))

  pub next_of_Split :
      (t e : ℕ) (q : List JobEntry)
      → Split t e q
      → Genuine q
      → (first_arrival (drop e q) ≡ max_time) ⊎ Comes t q (first_arrival (drop e q))
  unfolding first_arrival
  next_of_Split t zero [] s all = inl refl
  next_of_Split t zero (j ∷ q) s all = inr (Comes-first t j q s.0.1 s.0.0 all.0.0)
  next_of_Split t (suc e) [] s all = absurd s
  next_of_Split t (suc e) (j ∷ q) s all = elim (next_of_Split t e q s.1 all.1) [
    | inl never ↦ inl never
    | inr comes ↦ inr (Comes-behind t (first_arrival (drop e q)) j q comes)
  ]

  no_earlier :
      (x i : ℕ) (q : List JobEntry)
      → Genuine q
      → All (λ k. x ≤ k.submit_time) q
      → 0 < occurs i (pending q)
      → x ≤ submit_of i
  unfolding pending
  no_earlier x i [] all above there = absurd (omega arith)
  no_earlier x i (j ∷ q) all above there = elim (Bool-cases (j.job_id == i)) [
    | inl same ↦ omega (arith, above.0, all.0.0, ap submit_of ((==_iff j.job_id i).0 same))
    | inr other ↦ no_earlier x i q all.1 above.1 (ground (arith, there, other))
  ]

  -- No pending job ahead comes before the first arrival.
  pub first_of_Split :
      (t e i : ℕ) (q : List JobEntry)
      → Split t e q
      → Rising q
      → Genuine q
      → 0 < occurs i (pending q)
      → t < submit_of i
      → first_arrival (drop e q) ≤ submit_of i
  unfolding pending first_arrival
  first_of_Split t zero i [] s r all there lt = absurd (omega arith)
  first_of_Split t zero i (j ∷ q) s r all there lt =
      rw (s.0.1) (no_earlier j.submit_time i (j ∷ q) all (omega arith, r.0) there)
  first_of_Split t (suc e) i [] s r all there lt = absurd s
  first_of_Split t (suc e) i (j ∷ q) s r all there lt = elim (Bool-cases (j.job_id == i)) [
    | inl same ↦ absurd (omega (arith, s.0, all.0.0, lt, ap submit_of ((==_iff j.job_id i).0 same)))
    | inr other ↦ first_of_Split t e i q s.1 r.1 all.1 (ground (arith, there, other)) lt
  ]
