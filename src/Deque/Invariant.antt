-- ===== src/Deque/Invariant.antt =====
-- What a well-formed wait queue is, and that each method but `schedule` keeps it so.
use dr_evt.Base.{
  subst, ℕ, zero, suc, ◌+◌, ◌-◌, ◌*◌, ◌≤◌, ◌<◌, ◌≡◌, refl, sym, ◌∙◌, false, ◌&&◌, List, [], ◌∷◌,
  ◌++◌, arith, ltb, leb, length, take, drop, All, All-mono, Bool-cases, inl, inr, leb→le, leb→lt,
}
use dr_evt.Scheduler.{max_time}
use dr_evt.Deque.{
  first_arrival, get_next_arrival_time, JobEntry, Deque, empty, insert_job, arrivals, sync_to,
  count_removed, compact, collect, active_job_count, pending, pending_job_ids,
}

-- The first `e` entries have arrived by `t`; those behind have not, and none of them is marked.
abbrev pub Split : ℕ → ℕ → List JobEntry → Type 0
Split t zero q = All (λ j. (t < j.submit_time) × (j.removed ≡ false)) q
Split t (suc e) [] = ⊥
Split t (suc e) (j ∷ q) = (j.submit_time ≤ t) × Split t e q

-- Entries stand in the order of their submit times.
abbrev pub Rising : List JobEntry → Type 0
Rising [] = Unit {0}
Rising (j ∷ q) = All (λ k. j.submit_time ≤ k.submit_time) q × Rising q

pub record Inv (d : Deque) : Type 0 where
  pub split : Split d.current_tracked_time d.eligible_end_idx d.wait_queue
  pub counted : d.removed_count ≡ count_removed d.wait_queue
  pub rising : Rising d.wait_queue

pub empty-Inv : Inv empty
unfolding empty count_removed
empty-Inv = record { split = tt; counted = refl; rising = tt }

pub All-append {ℓ κ} :
    {A : Type ℓ} (P : A → Type κ) (xs ys : List A) → All P xs → All P ys → All P (xs ++ ys)
All-append P [] ys hx hy = hy
All-append P (x ∷ xs) ys hx hy = (hx.0, All-append P xs ys hx.1 hy)

Rising-append :
    (q : List JobEntry) (x : JobEntry)
    → Rising q
    → All (λ j. j.submit_time ≤ x.submit_time) q
    → Rising (q ++ x ∷ [])
Rising-append [] x r all = (tt, tt)
Rising-append (j ∷ q) x r all =
    (All-append _ q (x ∷ []) r.0 (all.0, tt), Rising-append q x r.1 all.1)

Split-later :
    (t e : ℕ) (q : List JobEntry) (x : JobEntry)
    → Split t e q
    → t < x.submit_time
    → x.removed ≡ false
    → Split t e (q ++ x ∷ [])
Split-later t zero q x s lt fresh = All-append _ q (x ∷ []) s ((lt, fresh), tt)
Split-later t (suc e) [] x s lt fresh = absurd s
Split-later t (suc e) (j ∷ q) x s lt fresh = (s.0, Split-later t e q x s.1 lt fresh)

Split-All : (t : ℕ) (q : List JobEntry) → All (λ j. j.submit_time ≤ t) q → Split t (length q) q
Split-All t [] all = tt
Split-All t (j ∷ q) all = (all.0, Split-All t q all.1)

count_removed-append :
    (q : List JobEntry) (x : JobEntry)
    → x.removed ≡ false
    → count_removed (q ++ x ∷ []) ≡ count_removed q
unfolding count_removed
count_removed-append [] x fresh = rw fresh
count_removed-append (j ∷ q) x fresh = ground (arith, count_removed-append q x fresh)

-- A job submitted no earlier than those in the queue keeps it well-formed.
pub insert_job-Inv :
    (d : Deque) (job_id submit_time run_time nodes : ℕ)
    → Inv d
    → All (λ j. j.submit_time ≤ submit_time) d.wait_queue
    → Inv (insert_job d job_id submit_time run_time nodes)
unfolding insert_job
insert_job-Inv d job_id submit_time run_time nodes v all = record {
  split = elim (Bool-cases (leb submit_time d.current_tracked_time)) [
    | inl due ↦ rw due (
        Split-All d.current_tracked_time _ (
          All-append _ d.wait_queue (_ ∷ [])
            (All-mono d.wait_queue (λ j le. omega (arith, leb→le _ _ due)) all)
            (leb→le _ _ due, tt)))
    | inr later ↦ rw later (
        Split-later d.current_tracked_time d.eligible_end_idx d.wait_queue _ v.split
          (leb→lt _ _ later) refl)
  ];
  counted = v.counted ∙ sym (count_removed-append d.wait_queue _ refl);
  rising = Rising-append d.wait_queue _ v.rising all;
}

All-later :
    (t now : ℕ) (j : JobEntry) (q : List JobEntry)
    → now < j.submit_time
    → All (λ k. j.submit_time ≤ k.submit_time) q
    → All (λ k. (t < k.submit_time) × (k.removed ≡ false)) q
    → All (λ k. (now < k.submit_time) × (k.removed ≡ false)) q
All-later t now j [] lt above all = tt
All-later t now j (k ∷ q) lt above all =
    ((omega arith, all.0.1), All-later t now j q lt above.1 all.1)

arrivals-Split :
    (t now : ℕ) (q : List JobEntry) → Rising q → Split t zero q → Split now (arrivals now q) q
unfolding arrivals
arrivals-Split t now [] r s = tt
arrivals-Split t now (j ∷ q) r s = elim (Bool-cases (leb j.submit_time now)) [
  | inl due ↦ rw due (leb→le _ _ due, arrivals-Split t now q r.1 s.1)
  | inr later ↦ rw later ((leb→lt _ _ later, s.0.1), All-later t now j q (leb→lt _ _ later) r.0 s.1)
]

suc_add : (a b : ℕ) → suc a + b ≡ suc (a + b)
suc_add a b = omega arith

zero_add : (b : ℕ) → zero + b ≡ b
zero_add b = omega arith

sync_to-Split :
    (t now e : ℕ) (q : List JobEntry)
    → t ≤ now
    → Rising q
    → Split t e q
    → Split now (e + arrivals now (drop e q)) q
sync_to-Split t now zero q le r s = rw zero_add (arrivals-Split t now q r s)
sync_to-Split t now (suc e) [] le r s = absurd s
sync_to-Split t now (suc e) (j ∷ q) le r s =
    rw suc_add (omega arith, sync_to-Split t now e q le r.1 s.1)

-- Synchronising to any time keeps the queue well-formed: exactly the jobs submitted by the tracked
-- time are eligible.
pub sync_to-Inv : (d : Deque) (now : ℕ) → Inv d → Inv (sync_to d now)
unfolding sync_to
sync_to-Inv d now v = elim (Bool-cases (leb now d.current_tracked_time)) [
  | inl past ↦ rw past v
  | inr ahead ↦ rw ahead (record {
    split =
        sync_to-Split d.current_tracked_time now d.eligible_end_idx d.wait_queue
          (omega (arith, leb→lt _ _ ahead)) v.rising v.split;
    counted = v.counted;
    rising = v.rising;
  })
]

-- The entries behind the index are not marked.
pub count_removed-take :
    (t e : ℕ) (q : List JobEntry) → Split t e q → count_removed (take e q) ≡ count_removed q
unfolding count_removed
count_removed-take t zero [] s = refl
count_removed-take t zero (j ∷ q) s = rw (s.0.1) (count_removed-take t zero q s.1)
count_removed-take t (suc e) [] s = absurd s
count_removed-take t (suc e) (j ∷ q) s = ground (arith, count_removed-take t e q s.1)

pub count_removed-le : (t e : ℕ) (q : List JobEntry) → Split t e q → count_removed q ≤ e
unfolding count_removed
count_removed-le t zero [] s = omega arith
count_removed-le t zero (j ∷ q) s = rw (s.0.1) (count_removed-le t zero q s.1)
count_removed-le t (suc e) [] s = absurd s
count_removed-le t (suc e) (j ∷ q) s = ground (arith, count_removed-le t e q s.1)

pub compact-All : (P : JobEntry → Type 0) (q : List JobEntry) → All P q → All P (compact q)
unfolding compact
compact-All P [] all = tt
compact-All P (j ∷ q) all = ground (arith, compact-All P q all.1)

compact-Rising : (q : List JobEntry) → Rising q → Rising (compact q)
unfolding compact
compact-Rising [] r = tt
compact-Rising (j ∷ q) r = elim (Bool-cases j.removed) [
  | inl gone ↦ rw gone (compact-Rising q r.1)
  | inr here ↦ rw here (compact-All _ q r.0, compact-Rising q r.1)
]

count_removed-compact : (q : List JobEntry) → count_removed (compact q) ≡ 0
unfolding compact count_removed
count_removed-compact [] = refl
count_removed-compact (j ∷ q) = elim (Bool-cases j.removed) [
  | inl gone ↦ rw gone (count_removed-compact q)
  | inr here ↦ rw here (ground (arith, count_removed-compact q))
]

zero_sub : (c : ℕ) → 0 - c ≡ 0
zero_sub c = omega arith

suc_sub_suc : (e c : ℕ) → suc e - suc c ≡ e - c
suc_sub_suc e c = omega arith

sub_suc : (e c : ℕ) → c ≤ e → suc e - c ≡ suc (e - c)
sub_suc e c le = omega arith

compact-Split :
    (t e : ℕ) (q : List JobEntry) → Split t e q → Split t (e - count_removed q) (compact q)
unfolding compact count_removed
compact-Split t zero [] s = tt
compact-Split t zero (j ∷ q) s =
    rw (s.0.1, zero_sub)
      ((s.0.0, refl), compact-All (λ k. (t < k.submit_time) × (k.removed ≡ false)) q s.1)
compact-Split t (suc e) [] s = absurd s
compact-Split t (suc e) (j ∷ q) s = elim (Bool-cases j.removed) [
  | inl gone ↦ rw (gone, suc_sub_suc) (compact-Split t e q s.1)
  | inr here ↦
      rw (here, sub_suc e (count_removed q) (count_removed-le t e q s.1))
        (s.0, compact-Split t e q s.1)
]

-- Garbage collection keeps the queue well-formed.
pub collect-Inv : (d : Deque) → Inv d → Inv (collect d)
unfolding collect
collect-Inv d v =
    elim (Bool-cases (ltb 0 d.removed_count && ltb (length d.wait_queue) (d.removed_count * 2))) [
      | inl full ↦ rw full (record {
        split =
            rw (count_removed-take d.current_tracked_time d.eligible_end_idx d.wait_queue v.split)
              (compact-Split d.current_tracked_time d.eligible_end_idx d.wait_queue v.split);
        counted = sym (count_removed-compact d.wait_queue);
        rising = compact-Rising d.wait_queue v.rising;
      })
      | inr little ↦ rw little v
    ]

pub pending-compact : (q : List JobEntry) → pending (compact q) ≡ pending q
unfolding pending compact
pending-compact [] = refl
pending-compact (j ∷ q) = ground (arith, pending-compact q)

-- Garbage collection changes neither the pending jobs nor the count of the active ones.
pub collect_same :
    (d : Deque)
    → Inv d
    → (pending_job_ids (collect d) ≡ pending_job_ids d)
      × (active_job_count (collect d) ≡ active_job_count d)
unfolding collect active_job_count pending_job_ids
collect_same d v =
    elim (Bool-cases (ltb 0 d.removed_count && ltb (length d.wait_queue) (d.removed_count * 2))) [
      | inl full ↦ rw full (
        pending-compact d.wait_queue,
        rw
            (
              count_removed-take d.current_tracked_time d.eligible_end_idx d.wait_queue v.split,
              v.counted,
            )
            (omega arith),
      )
      | inr little ↦ rw little (refl, refl)
    ]

active_of_Split :
    (t e : ℕ) (q : List JobEntry) → Split t e q → e - count_removed q ≡ length (pending (take e q))
unfolding count_removed pending
active_of_Split t zero q s = omega arith
active_of_Split t (suc e) [] s = absurd s
active_of_Split t (suc e) (j ∷ q) s =
    ground (arith, active_of_Split t e q s.1, count_removed-le t e q s.1)

-- The count of active jobs, a difference of two counters that cannot go below zero, is the number
-- of pending jobs among those that have arrived.
pub active_job_count_lem :
    (d : Deque)
    → Inv d
    → (d.removed_count ≤ d.eligible_end_idx)
      × (active_job_count d ≡ length (pending (take d.eligible_end_idx d.wait_queue)))
unfolding active_job_count
active_job_count_lem d v = (
  omega (
    arith,
    v.counted,
    count_removed-le d.current_tracked_time d.eligible_end_idx d.wait_queue v.split,
  ),
  rw v.counted (active_of_Split d.current_tracked_time d.eligible_end_idx d.wait_queue v.split),
)

-- `next` is no later than any job of `future`, and lies ahead of `t` or stands for no job.
abbrev pub IsNextArrival : ℕ → List JobEntry → ℕ → Type 0
IsNextArrival t [] next = next ≡ max_time
IsNextArrival t (j ∷ future) next = (t < next) × All (λ k. next ≤ k.submit_time) (j ∷ future)

pub first_arrival_here :
    (j : JobEntry) (q : List JobEntry) → j.removed ≡ false → first_arrival (j ∷ q) ≡ j.submit_time
unfolding first_arrival
first_arrival_here j q fresh = rw fresh

next_of_Split :
    (t e : ℕ) (q : List JobEntry)
    → Split t e q
    → Rising q
    → IsNextArrival t (drop e q) (first_arrival (drop e q))
unfolding first_arrival
next_of_Split t zero [] s r = refl
next_of_Split t zero (j ∷ q) s r =
    subst (IsNextArrival t (j ∷ q)) (sym (first_arrival_here j q s.0.1)) (s.0.0, (omega arith, r.0))
next_of_Split t (suc e) [] s r = absurd s
next_of_Split t (suc e) (j ∷ q) s r = next_of_Split t e q s.1 r.1

-- The next arrival is ahead of the tracked time and no later than any job yet to arrive; the
-- maximal time stands for no such job.
pub get_next_arrival_time_lem :
    (d : Deque)
    → Inv d
    → IsNextArrival d.current_tracked_time
        (drop d.eligible_end_idx d.wait_queue)
        (get_next_arrival_time d)
unfolding get_next_arrival_time
get_next_arrival_time_lem d v =
    next_of_Split d.current_tracked_time d.eligible_end_idx d.wait_queue v.split v.rising
