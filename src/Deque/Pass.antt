-- ===== src/Deque/Pass.antt =====
-- What a scheduling pass on a deque-backed queue promises, for the parts that the schedulers share:
-- the front of the queue, the scan behind the blocked head, and the preparation of the queue.
use mathlib.Core.List.Perm
use mathlib.Core.List.{Perm, map-append, append_assoc}
use dr_evt.Base.{
  ℕ, zero, suc, ◌+◌, ◌-◌, ◌≤◌, ◌≡◌, refl, sym, ◌∙◌, ap, Bool, false, ◌||◌, List, [], ◌∷◌, ◌++◌,
  arith, ◌==◌, if◌then◌else◌, length, drop, All, Bool-cases, inl, inr, subst,
}
use dr_evt.Scheduler.{SchedulerBase}
use dr_evt.Deque.{
  JobEntry, Deque, sync_to, collect, count_removed, pending, pending_job_ids, active_job_count,
  scan_length, queue_depth_scan_end, Heads, take_heads, after_heads, after_scan_behind, prepare,
}
use dr_evt.Deque.Invariant.{
  compact-All, Split, Rising, Inv, All-append, sync_to-Inv, collect-Inv, collect_same,
}
use dr_evt.Deque.Front.{ids, total_nodes, IsOf, KeepsEntries, Consumes, consume-Consumes}
use dr_evt.Deque.Keeps.{ScanKeeps, pass_pending}

scan_length-le : (n r : ℕ) (q : List JobEntry) → scan_length n r q ≤ n
unfolding scan_length
scan_length-le zero r q = omega arith
scan_length-le (suc n) r [] = omega arith
scan_length-le (suc n) zero (j ∷ q) = omega arith
scan_length-le (suc n) (suc r) (j ∷ q) =
    omega (arith, scan_length-le n (if j.removed then suc r else r) q)

pub scan_end-le :
    (queue : List JobEntry) (end depth : ℕ) (planned : Bool)
    → 1 ≤ end
    → queue_depth_scan_end queue 1 end depth planned ≤ end
unfolding queue_depth_scan_end
scan_end-le queue end depth planned le = elim (Bool-cases (depth == 0)) [
  | inl unlimited ↦ rw unlimited (omega arith)
  | inr limited ↦
      rw limited (
        omega (arith, scan_length-le (end - 1) (depth - (if planned then 1 else 0)) (drop 1 queue)))
]

total_nodes-append :
    (xs ys : List JobEntry) → total_nodes (xs ++ ys) ≡ total_nodes xs + total_nodes ys
unfolding total_nodes
total_nodes-append [] ys = omega arith
total_nodes-append (x ∷ xs) ys = omega (arith, total_nodes-append xs ys)

count_behind :
    (count : ℕ) (all : List JobEntry) (head : JobEntry) (rest queue started : List JobEntry)
    → count ≡ count_removed all
    → all ≡ head ∷ rest
    → count_removed queue ≡ count_removed rest + length started
    → count + length started ≡ count_removed (head ∷ queue)
unfolding count_removed
count_behind count all head rest queue started counted eq k = ground (arith, ap count_removed eq)

-- What a scheduling pass at the tracked time `t` on the queue `d` promises of the queue and of the
-- jobs that it leaves.
pub record Selects (t free : ℕ) (d d' : Deque) (started : List JobEntry) : Type 0 where
  pub inv : Inv d'
  pub kept : Perm (pending d.wait_queue) (ids started ++ pending d'.wait_queue)
  pub budget : total_nodes started ≤ free
  pub arrived : All (λ j. j.submit_time ≤ t) started
  pub entries : KeepsEntries d.wait_queue d'.wait_queue started
  pub tracked : d'.current_tracked_time ≡ t

pub idle-Selects : (d : Deque) (free : ℕ) → Inv d → Selects d.current_tracked_time free d d []
unfolding total_nodes
idle-Selects d free v = record {
  inv = v;
  kept = Perm.rfl;
  budget = omega arith;
  arrived = tt;
  entries = λ size submit_of latest all. (all, tt);
  tracked = refl;
}

pub take_heads-Consumes :
    (b : SchedulerBase) (now free : ℕ) (d : Deque)
    → Inv d
    → Consumes b now d.current_tracked_time d.wait_queue free (take_heads b now d free)
unfolding take_heads
take_heads-Consumes b now free d v =
    consume-Consumes b now d.current_tracked_time d.wait_queue d.eligible_end_idx d.removed_count
      free v.split v.counted v.rising

module _ (b : SchedulerBase) (d : Deque) (free now : ℕ) (h : Heads)
    (c : Consumes b now d.current_tracked_time d.wait_queue free h) where
  -- The heads alone.
  pub heads-Selects : Selects d.current_tracked_time free d (after_heads d h) h.started
  unfolding after_heads
  heads-Selects = record {
    inv = record { split = c.split; counted = c.counted; rising = c.rising };
    kept = subst (λ l. Perm l (ids h.started ++ pending h.queue)) (sym c.kept) Perm.rfl;
    budget = omega (arith, c.budget);
    arrived = c.arrived;
    entries = c.entries;
    tracked = refl;
  }

  pending_behind :
      (head : JobEntry) (rest queue : List JobEntry) (started : List JobEntry)
      → h.queue ≡ head ∷ rest
      → Perm (pending rest) (ids started ++ pending queue)
      → Perm (pending d.wait_queue) (ids (h.started ++ started) ++ pending (head ∷ queue))
  pending_behind head rest queue started eq p =
      subst (λ l. Perm l (ids (h.started ++ started) ++ pending (head ∷ queue)))
        (sym (c.kept ∙ ap (λ q. ids h.started ++ pending q) eq))
        (subst (Perm (ids h.started ++ pending (head ∷ rest)))
          (sym (append_assoc (ids h.started) (ids started) (pending (head ∷ queue)))
            ∙ ap (λ l. l ++ pending (head ∷ queue))
                (sym (map-append (λ (j : JobEntry). j.job_id) h.started started)))
          (Perm.append_left (ids h.started) (pass_pending head rest queue (ids started) p)))

  -- The heads and a scan of at most `n` entries behind the blocked head, all of them eligible.
  pub behind-Selects :
      (head : JobEntry) (rest queue started : List JobEntry) (n left : ℕ)
      → h.queue ≡ head ∷ rest
      → suc n ≤ h.eligible
      → ScanKeeps n h.available rest queue started left
      → Selects d.current_tracked_time free d
          (after_scan_behind (after_heads d h) head queue started)
          (h.started ++ started)
  unfolding after_heads after_scan_behind
  behind-Selects head rest queue started n left eq le k =
      let t = d.current_tracked_time in
      let el : h.eligible ≡ suc (h.eligible - 1) = omega arith in
      let split : Split t (suc (h.eligible - 1)) (head ∷ rest) =
        subst (λ i. Split t i (head ∷ rest)) el (subst (Split t h.eligible) eq c.split) in
      let rising : Rising (head ∷ rest) = subst Rising eq c.rising in
      record {
        inv = record {
          split =
              subst (λ i. Split t i (head ∷ queue)) (sym el)
                (split.0, k.split t (h.eligible - 1) (omega arith) split.1);
          counted =
              count_behind h.removed_count h.queue head rest queue started c.counted eq k.counted;
          rising = (k.above head.submit_time rising.0, k.rising rising.1);
        };
        kept = pending_behind head rest queue started eq k.kept;
        budget = omega (arith, total_nodes-append h.started started, k.budget, c.budget);
        entries = λ size submit_of latest all.
            let (queue_kept, heads_kept) = c.entries size submit_of latest all in
            let behind = subst (All (IsOf size submit_of latest)) eq queue_kept in
            let (rest_kept, started_kept) = k.entries size submit_of latest behind.1 in
            (
              (behind.0, rest_kept),
              All-append (IsOf size submit_of latest) h.started started heads_kept started_kept,
            );
        arrived =
            All-append _ h.started started c.arrived
              (k.arrived t (h.eligible - 1) (omega arith) split.1);
        tracked = refl;
      }

  pub some_eligible : (active_job_count (after_heads d h) == 0) ≡ false → 1 ≤ h.eligible
  unfolding active_job_count after_heads
  some_eligible active = ground arith

pub no_active : (a b : Bool) → (a || b) ≡ false → a ≡ false
no_active a b h = ground arith

prepared_time :
    (d : Deque) (now : ℕ)
    → d.current_tracked_time ≤ now
    → (collect (sync_to d now)).current_tracked_time ≡ now
unfolding collect sync_to
prepared_time d now le = ground arith

sync_to-pending : (d : Deque) (now : ℕ) → pending_job_ids (sync_to d now) ≡ pending_job_ids d
unfolding sync_to pending_job_ids
sync_to-pending d now = ground arith

prepare-entries :
    (P : JobEntry → Type 0) (d : Deque) (now : ℕ)
    → All P d.wait_queue
    → All P (prepare d now).wait_queue
unfolding prepare collect sync_to
prepare-entries P d now all = ground (arith, all, compact-All P d.wait_queue all)

pub prepare-KeepsEntries :
    (d d' : Deque) (started : List JobEntry) (free now : ℕ)
    → Selects (prepare d now).current_tracked_time free (prepare d now) d' started
    → KeepsEntries d.wait_queue d'.wait_queue started
prepare-KeepsEntries d d' started free now s size submit_of latest all =
    s.entries size submit_of latest (prepare-entries (IsOf size submit_of latest) d now all)

pub prepare-Inv : (d : Deque) (now : ℕ) → Inv d → Inv (prepare d now)
unfolding prepare
prepare-Inv d now v = collect-Inv (sync_to d now) (sync_to-Inv d now v)

-- The promise of a whole pass, for the queue before it.
abbrev pub PassSelects : ℕ → ℕ → Deque → Deque → List JobEntry → Type 0
PassSelects now free d d' started =
    Inv d'
    × Perm (pending_job_ids d) (ids started ++ pending_job_ids d')
    × (total_nodes started ≤ free)
    × All (λ j. j.submit_time ≤ now) started
    × (d'.current_tracked_time ≡ now)

pub prepare-PassSelects :
    (d d' : Deque) (started : List JobEntry) (free now : ℕ)
    → Inv d
    → d.current_tracked_time ≤ now
    → Selects (prepare d now).current_tracked_time free (prepare d now) d' started
    → PassSelects now free d d' started
unfolding prepare pending_job_ids
prepare-PassSelects d d' started free now v le s =
    let at = prepared_time d now le in
    (
      s.inv,
      subst (λ l. Perm l (ids started ++ pending_job_ids d'))
          ((collect_same (sync_to d now) (sync_to-Inv d now v)).0 ∙ sync_to-pending d now) s.kept,
      s.budget,
      subst (λ t. All (λ (j : JobEntry). j.submit_time ≤ t) started) at s.arrived,
      s.tracked ∙ at,
    )
