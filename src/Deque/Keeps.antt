-- ===== src/Deque/Keeps.antt =====
-- What a scan of the entries behind the blocked head keeps of the queue, whichever of them it
-- starts: the facts that the scans of the deque-backed schedulers share.
use mathlib.Core.List.Perm
use mathlib.Core.List.{Perm, perm_middle}
use dr_evt.Base.{
  ℕ, zero, suc, ◌+◌, ◌-◌, ◌≤◌, ◌≡◌, false, List, [], ◌∷◌, ◌++◌, arith, length, All, Bool-cases, inl,
  inr,
}
use dr_evt.Deque.{JobEntry, mark, count_removed, pending}
use dr_evt.Deque.Invariant.{Split, Rising}
use dr_evt.Deque.Front.{ids, total_nodes, KeepsEntries}

-- What a scan of at most `n` entries keeps of a queue.
pub record ScanKeeps (n : ℕ) (available : ℕ) (q queue started : List JobEntry) (left : ℕ)
    : Type 0 where
  pub entries : KeepsEntries q queue started
  pub split : (t e : ℕ) → n ≤ e → Split t e q → Split t e queue
  pub above : (x : ℕ) → All (λ k. x ≤ k.submit_time) q → All (λ k. x ≤ k.submit_time) queue
  pub rising : Rising q → Rising queue
  pub counted : count_removed queue ≡ count_removed q + length started
  pub kept : Perm (pending q) (ids started ++ pending queue)
  pub budget : total_nodes started + left ≡ available
  pub arrived : (t e : ℕ) → n ≤ e → Split t e q → All (λ j. j.submit_time ≤ t) started

pub stop-ScanKeeps :
    (n : ℕ) (available : ℕ) (q : List JobEntry) → ScanKeeps n available q q [] available
unfolding total_nodes
stop-ScanKeeps n available q = record {
  entries = λ size submit_of latest all. (all, tt);
  split = λ t e le s. s;
  above = λ x all. all;
  rising = λ r. r;
  counted = omega arith;
  kept = Perm.rfl;
  budget = omega arith;
  arrived = λ t e le s. tt;
}

pass-Split :
    (n available t e : ℕ) (j : JobEntry) (q queue started : List JobEntry) (left : ℕ)
    → ScanKeeps n available q queue started left
    → suc n ≤ e
    → Split t e (j ∷ q)
    → Split t e (j ∷ queue)
pass-Split n available t zero j q queue started left k le sp = absurd (omega arith)
pass-Split n available t (suc e) j q queue started left k le sp =
    (sp.0, k.split t e (omega arith) sp.1)

start-Split :
    (n available t e : ℕ) (j : JobEntry) (q queue started : List JobEntry) (left : ℕ)
    → ScanKeeps n available q queue started left
    → suc n ≤ e
    → Split t e (j ∷ q)
    → Split t e (mark j ∷ queue)
unfolding mark
start-Split n available t zero j q queue started left k le sp = absurd (omega arith)
start-Split n available t (suc e) j q queue started left k le sp =
    (sp.0, k.split t e (omega arith) sp.1)

pass_arrived :
    (n available t e : ℕ) (j : JobEntry) (q queue started : List JobEntry) (left : ℕ)
    → ScanKeeps n available q queue started left
    → suc n ≤ e
    → Split t e (j ∷ q)
    → (j.submit_time ≤ t) × All (λ k. k.submit_time ≤ t) started
pass_arrived n available t zero j q queue started left k le sp = absurd (omega arith)
pass_arrived n available t (suc e) j q queue started left k le sp =
    (sp.0, k.arrived t e (omega arith) sp.1)

pub pass_pending :
    (j : JobEntry) (q q' : List JobEntry) (l : List ℕ)
    → Perm (pending q) (l ++ pending q')
    → Perm (pending (j ∷ q)) (l ++ pending (j ∷ q'))
unfolding pending
pass_pending j q q' l p = elim (Bool-cases j.removed) [
  | inl gone ↦ rw gone p
  | inr here ↦ rw here (Perm.trans (Perm.cons j.job_id p) (Perm.symm (perm_middle l (pending q'))))
]

start_pending :
    (j : JobEntry) (q q' : List JobEntry) (l : List ℕ)
    → j.removed ≡ false
    → Perm (pending q) (l ++ pending q')
    → Perm (pending (j ∷ q)) (j.job_id ∷ (l ++ pending (mark j ∷ q')))
unfolding pending mark
start_pending j q q' l here p = rw here (Perm.cons j.job_id p)

-- An entry that the scan passes.
pub pass-ScanKeeps :
    (n available : ℕ) (j : JobEntry) (q queue started : List JobEntry) (left : ℕ)
    → ScanKeeps n available q queue started left
    → ScanKeeps (suc n) available (j ∷ q) (j ∷ queue) started left
unfolding count_removed
pass-ScanKeeps n available j q queue started left k = record {
  entries = λ size submit_of latest all.
      let rest = k.entries size submit_of latest all.1 in ((all.0, rest.0), rest.1);
  split = λ t e. pass-Split n available t e j q queue started left k;
  above = λ x all. (all.0, k.above x all.1);
  rising = λ r. (k.above j.submit_time r.0, k.rising r.1);
  counted = ground (arith, k.counted);
  kept = pass_pending j q queue (ids started) k.kept;
  budget = k.budget;
  arrived = λ t e le sp. (pass_arrived n available t e j q queue started left k le sp).1;
}

-- An entry that the scan starts.
pub start-ScanKeeps :
    (n available : ℕ) (j : JobEntry) (q queue started : List JobEntry) (left : ℕ)
    → j.removed ≡ false
    → j.nodes_requested ≤ available
    → ScanKeeps n (available - j.nodes_requested) q queue started left
    → ScanKeeps (suc n) available (j ∷ q) (mark j ∷ queue) (j ∷ started) left
unfolding count_removed total_nodes mark
start-ScanKeeps n available j q queue started left here fits k = record {
  entries = λ size submit_of latest all.
      let rest = k.entries size submit_of latest all.1 in ((all.0, rest.0), (all.0, rest.1));
  split = λ t e. start-Split n (available - j.nodes_requested) t e j q queue started left k;
  above = λ x all. (all.0, k.above x all.1);
  rising = λ r. (k.above j.submit_time r.0, k.rising r.1);
  counted = ground (arith, k.counted);
  kept = start_pending j q queue (ids started) here k.kept;
  budget = omega (arith, k.budget);
  arrived = λ t e. pass_arrived n (available - j.nodes_requested) t e j q queue started left k;
}
