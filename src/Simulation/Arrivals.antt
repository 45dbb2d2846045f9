-- ===== src/Simulation/Arrivals.antt =====
-- The statistics of the arrivals at a time (`record_queue_arrivals`, src/sim/sim.cpp).
use dr_evt.Base.{
  ℕ, zero, suc, Option, ◌+◌, ◌-◌, ◌≤◌, ◌≡◌, refl, sym, ◌∙◌, ap, subst, Bool, true, false, none,
  some, List, [], ◌∷◌, arith, ◌==◌, Bool-cases, inl, inr, le→ltb, Option-cases, if◌then◌else◌,
}
use dr_evt.Base.Results.{Returns}
use dr_evt.Simulation.{SchedulerMethods, Simulation}
use dr_evt.Simulation.Running.{find_arrivals, erase_arrivals}
use dr_evt.Simulation.Submit.{count_arrivals, record_queue_arrivals, sum_from}
use dr_evt.Simulation.Contract.{Contract, arrived}
use dr_evt.Simulation.Invariant.{noted, coming}

abbrev value_or_zero : Option ℕ → ℕ
value_or_zero none = 0
value_or_zero (some n) = n

some_inj : (a b : ℕ) → some a ≡ some b → a ≡ b
some_inj a b h = cc

find_here : (t k n : ℕ) (m : List (ℕ × ℕ)) → (k == t) ≡ true → find_arrivals t ((k, n) ∷ m) ≡ some n
unfolding find_arrivals
find_here t k n m same = rw same refl

find_behind :
    (t k n : ℕ) (m : List (ℕ × ℕ))
    → (k == t) ≡ false
    → find_arrivals t ((k, n) ∷ m) ≡ find_arrivals t m
unfolding find_arrivals
find_behind t k n m other = rw other refl

-- The number noted for a time, in the first entry for it.
abbrev pub noted_first : ℕ → List (ℕ × ℕ) → ℕ
noted_first t [] = 0
noted_first t ((k, n) ∷ m) = let rest = noted_first t m in if k == t then n else rest

-- What `count` arrivals find waiting together: the last one finds those that waited before and
-- all others that come with it.
abbrev pub found_waiting : ℕ → ℕ → ℕ
found_waiting waiting zero = 0
found_waiting waiting (suc count) = found_waiting waiting count + (waiting + count)

found_waiting-first :
    (waiting count : ℕ)
    → found_waiting waiting (suc count) ≡ waiting + found_waiting (waiting + 1) count
found_waiting-first waiting zero = omega arith
found_waiting-first waiting (suc count) = omega (arith, found_waiting-first waiting count)

sum_from-found_waiting :
    (S : SchedulerMethods) (waiting count : ℕ)
    → sum_from S waiting count ≡ found_waiting waiting count
unfolding sum_from
sum_from-found_waiting S waiting zero = refl
sum_from-found_waiting S waiting (suc count) =
    omega (arith, sum_from-found_waiting S (waiting + 1) count, found_waiting-first waiting count)

find_arrivals-noted_first :
    (t : ℕ) (m : List (ℕ × ℕ)) (o : Option ℕ)
    → find_arrivals t m ≡ o
    → value_or_zero o ≡ noted_first t m
unfolding find_arrivals
find_arrivals-noted_first t [] o h = ap value_or_zero (sym h)
find_arrivals-noted_first t ((k, n) ∷ m) o h = elim (Bool-cases (k == t)) [
  | inl same ↦ rw same (ap value_or_zero (sym h ∙ find_here t k n m same))
  | inr other ↦ rw other (find_arrivals-noted_first t m o (sym (find_behind t k n m other) ∙ h))
]

find_arrivals-none : (t : ℕ) (m : List (ℕ × ℕ)) → find_arrivals t m ≡ none → noted t m ≡ 0
unfolding find_arrivals
find_arrivals-none t [] h = refl
find_arrivals-none t ((k, n) ∷ m) h = elim (Bool-cases (k == t)) [
  | inl same ↦ absurd (cc (find_here t k n m same, h))
  | inr other ↦ ground (arith, other, find_arrivals-none t m (sym (find_behind t k n m other) ∙ h))
]

find_arrivals-some : (t n : ℕ) (m : List (ℕ × ℕ)) → find_arrivals t m ≡ some n → n ≤ noted t m
unfolding find_arrivals
find_arrivals-some t n [] h = cc
find_arrivals-some t n ((k, i) ∷ m) h = elim (Bool-cases (k == t)) [
  | inl same ↦ ground (arith, same, some_inj i n (sym (find_here t k i m same) ∙ h))
  | inr other ↦
      ground (arith, other, find_arrivals-some t n m (sym (find_behind t k i m other) ∙ h))
]

erase_arrivals-less : (t i : ℕ) (m : List (ℕ × ℕ)) → noted i (erase_arrivals t m) ≤ noted i m
unfolding erase_arrivals
erase_arrivals-less t i [] = omega arith
erase_arrivals-less t i ((k, n) ∷ m) = ground (arith, erase_arrivals-less t i m)

erase_arrivals-other :
    (t i : ℕ) (m : List (ℕ × ℕ)) → (i == t) ≡ false → noted i (erase_arrivals t m) ≡ noted i m
unfolding erase_arrivals
erase_arrivals-other t i [] other = refl
erase_arrivals-other t i ((k, n) ∷ m) other =
    ground (arith, other, erase_arrivals-other t i m other)

erase_arrivals-quiet : (t : ℕ) (m : List (ℕ × ℕ)) → noted t (erase_arrivals t m) ≡ 0
unfolding erase_arrivals
erase_arrivals-quiet t [] = refl
erase_arrivals-quiet t ((k, n) ∷ m) = ground (arith, erase_arrivals-quiet t m)

-- Those that come at a time have arrived by it.
coming-arrived :
    (submit_of : ℕ → ℕ) (t : ℕ) (jobs : List ℕ) → coming submit_of t jobs ≤ arrived submit_of t jobs
coming-arrived submit_of t [] = omega arith
coming-arrived submit_of t (j ∷ jobs) = ground (arith, coming-arrived submit_of t jobs)

module _ (S : SchedulerMethods) (size submit_of : ℕ → ℕ) (C : Contract S size submit_of) where
  abbrev pub recorded : Simulation S.State → ℕ → ℕ → List (ℕ × ℕ) → Simulation S.State
  recorded s sum samples m = record s {
    queue_length_sum = sum;
    queue_length_samples = samples;
    pending_queue_arrivals = m;
  }

  -- The statistics of the arrivals at `t` are taken, and none is left to take.
  pub record Records (t : ℕ) (s : Simulation S.State) (r : Simulation S.State × Bool) : Type 0 where
    pub sum : ℕ
    pub samples : ℕ
    pub rest : List (ℕ × ℕ)
    pub state : r.0 ≡ recorded s sum samples rest
    pub fewer : (i : ℕ) → noted i rest ≤ noted i s.pending_queue_arrivals
    pub quiet : noted t rest ≡ 0
    pub others : (i : ℕ) → (i == t) ≡ false → noted i rest ≡ noted i s.pending_queue_arrivals
    pub summed :
        let n = noted_first t s.pending_queue_arrivals in
        sum ≡ s.queue_length_sum + found_waiting (S.active_job_count s.scheduler - n) n
    pub sampled : samples ≡ s.queue_length_samples + noted_first t s.pending_queue_arrivals

  count_some :
      (s : Simulation S.State) (t n : ℕ)
      → n ≤ S.active_job_count s.scheduler
      → n ≡ noted_first t s.pending_queue_arrivals
      → Returns (count_arrivals S s t (some n)) (Records t s)
  unfolding count_arrivals
  count_some s t n enough first = rw (le→ltb (S.active_job_count s.scheduler) n enough) (record {
    sum = s.queue_length_sum + sum_from S (S.active_job_count s.scheduler - n) n;
    samples = s.queue_length_samples + n;
    rest = erase_arrivals t s.pending_queue_arrivals;
    state = refl;
    fewer = λ i. erase_arrivals-less t i s.pending_queue_arrivals;
    quiet = erase_arrivals-quiet t s.pending_queue_arrivals;
    others = λ i. erase_arrivals-other t i s.pending_queue_arrivals;
    summed =
        subst
          (λ k.
            s.queue_length_sum + sum_from S (S.active_job_count s.scheduler - n) n
            ≡ s.queue_length_sum + found_waiting (S.active_job_count s.scheduler - k) k)
          first
          (ap (λ k. s.queue_length_sum + k)
            (sum_from-found_waiting S (S.active_job_count s.scheduler - n) n));
    sampled = ap (λ k. s.queue_length_samples + k) first;
  })

  count_none :
      (s : Simulation S.State) (t : ℕ)
      → noted t s.pending_queue_arrivals ≡ 0
      → 0 ≡ noted_first t s.pending_queue_arrivals
      → Returns (count_arrivals S s t none) (Records t s)
  unfolding count_arrivals
  count_none s t quiet first = record {
    sum = s.queue_length_sum;
    samples = s.queue_length_samples;
    rest = s.pending_queue_arrivals;
    state = refl;
    fewer = λ i. omega arith;
    quiet = quiet;
    others = λ i other. refl;
    summed =
        subst
          (λ k.
            s.queue_length_sum
            ≡ s.queue_length_sum + found_waiting (S.active_job_count s.scheduler - k) k)
          first (omega arith);
    sampled = subst (λ k. s.queue_length_samples ≡ s.queue_length_samples + k) first (omega arith);
  }

  -- The queue holds the jobs that arrived: the check of the source never throws.
  pub record_queue_arrivals-Records :
      (s : Simulation S.State) (t : ℕ)
      → C.Inv s.scheduler s.latest_submit_time
      → C.tracked s.scheduler ≡ t
      → noted t s.pending_queue_arrivals ≤ coming submit_of t (C.pending s.scheduler)
      → Returns (record_queue_arrivals S s t) (Records t s)
  unfolding record_queue_arrivals
  record_queue_arrivals-Records s t inv at enough =
      elim (Option-cases (find_arrivals t s.pending_queue_arrivals)) [
        | inl none_noted ↦
            subst (λ o. Returns (count_arrivals S s t o) (Records t s)) (sym none_noted)
              (count_none s t (find_arrivals-none t s.pending_queue_arrivals none_noted)
                (find_arrivals-noted_first t s.pending_queue_arrivals none none_noted))
        | inr (n, some_noted) ↦
            let here = find_arrivals-some t n s.pending_queue_arrivals some_noted in
            let active : S.active_job_count s.scheduler
                ≡ arrived submit_of t (C.pending s.scheduler) =
              C.counts s.scheduler s.latest_submit_time inv
              ∙ ap (λ i. arrived submit_of i (C.pending s.scheduler)) at in
            subst (λ o. Returns (count_arrivals S s t o) (Records t s)) (sym some_noted)
              (count_some s t n
                (omega
                  (arith, here, active, enough, coming-arrived submit_of t (C.pending s.scheduler)))
                (find_arrivals-noted_first t s.pending_queue_arrivals (some n) some_noted))
      ]
