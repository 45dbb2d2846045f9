-- ===== src/Deque/Front.antt =====
-- The loop that starts jobs from the front of the queue.
use dr_evt.Base.{
  ℕ, zero, suc, ◌+◌, ◌-◌, ◌≤◌, ◌<◌, ◌≡◌, refl, ap, true, false, List, [], ◌∷◌, ◌++◌, map, arith,
  leb, All, Bool-cases, ◌⊎◌, inl, inr, leb→le, leb→lt, subst, sym,
}
use dr_evt.Scheduler.{SchedulerBase}
use dr_evt.Deque.{JobEntry, Heads, stop_heads, started_now, consume, count_removed, pending}
use dr_evt.Deque.Invariant.{Split, Rising}

abbrev pub ids : List JobEntry → List ℕ
ids = map (λ j. j.job_id)

-- The nodes that jobs request together.
unfoldable pub total_nodes : List JobEntry → ℕ
total_nodes [] = 0
total_nodes (j ∷ q) = j.nodes_requested + total_nodes q

-- The loop stops at the end of the eligible entries, or at a waiting job that does not fit.
abbrev pub IsStopped : ℕ → ℕ → List JobEntry → Type 0
IsStopped available eligible [] = Unit {0}
IsStopped available eligible (j ∷ q) =
    (eligible ≡ 0) ⊎ ((j.removed ≡ false) × (available < j.nodes_requested))

-- The entry has the submit time and the nodes of its job, and was submitted by `latest`.
abbrev pub IsOf : (ℕ → ℕ) → (ℕ → ℕ) → ℕ → JobEntry → Type 0
IsOf size submit_of latest j =
    (j.submit_time ≡ submit_of j.job_id)
    × (j.nodes_requested ≡ size j.job_id)
    × (j.submit_time ≤ latest)

-- The entries left in the queue and those started are as those before.
abbrev pub KeepsEntries : List JobEntry → List JobEntry → List JobEntry → Type 0
KeepsEntries q queue started =
    (size submit_of : ℕ → ℕ) (latest : ℕ)
    → All (IsOf size submit_of latest) q
    → All (IsOf size submit_of latest) queue × All (IsOf size submit_of latest) started

pub record Consumes (b : SchedulerBase) (now t : ℕ) (q : List JobEntry) (available : ℕ) (h : Heads)
    : Type 0 where
  pub split : Split t h.eligible h.queue
  pub counted : h.removed_count ≡ count_removed h.queue
  pub rising : Rising h.queue
  pub kept : pending q ≡ ids h.started ++ pending h.queue
  pub budget : total_nodes h.started + h.available ≡ available
  pub arrived : All (λ j. j.submit_time ≤ t) h.started
  pub stopped : IsStopped h.available h.eligible h.queue
  pub entries : KeepsEntries q h.queue h.started
  pub overlay : h.projected ≡ map (started_now b now) h.started

stop-Consumes :
    (b : SchedulerBase) (now t e rc available : ℕ) (q : List JobEntry)
    → Split t e q
    → rc ≡ count_removed q
    → Rising q
    → IsStopped available e q
    → Consumes b now t q available (stop_heads q e rc available)
unfolding stop_heads total_nodes
stop-Consumes b now t e rc available q s counted r stop = record {
  split = s;
  counted = counted;
  rising = r;
  kept = refl;
  budget = omega arith;
  arrived = tt;
  stopped = stop;
  entries = λ size submit_of latest all. (all, tt);
  overlay = refl;
}

-- A placeholder at the front.
dropped :
    (b : SchedulerBase) (now t : ℕ) (j : JobEntry) (q : List JobEntry) (available : ℕ) (h : Heads)
    → j.removed ≡ true
    → Consumes b now t q available h
    → Consumes b now t (j ∷ q) available h
unfolding pending
dropped b now t j q available h gone c = record {
  split = c.split;
  counted = c.counted;
  rising = c.rising;
  kept = ground (arith, c.kept);
  budget = c.budget;
  arrived = c.arrived;
  stopped = c.stopped;
  entries = λ size submit_of latest all. c.entries size submit_of latest all.1;
  overlay = c.overlay;
}

-- A waiting job at the front that fits.
taken :
    (b : SchedulerBase) (now t : ℕ) (j : JobEntry) (q : List JobEntry) (available : ℕ) (h : Heads)
    → j.removed ≡ false
    → j.nodes_requested ≤ available
    → j.submit_time ≤ t
    → Consumes b now t q (available - j.nodes_requested) h
    → Consumes b now t
        (j ∷ q)
        available
        (record h { started = j ∷ h.started; projected = started_now b now j ∷ h.projected })
unfolding pending total_nodes
taken b now t j q available h here fits due c = record {
  split = c.split;
  counted = c.counted;
  rising = c.rising;
  kept = ground (arith, c.kept);
  budget = omega (arith, c.budget);
  arrived = (due, c.arrived);
  stopped = c.stopped;
  entries = λ size submit_of latest all.
      let rest = c.entries size submit_of latest all.1 in (rest.0, (all.0, rest.1));
  overlay = ap (◌∷◌ (started_now b now j)) c.overlay;
}

gone_count :
    (j : JobEntry) (q : List JobEntry) (rc : ℕ)
    → j.removed ≡ true
    → rc ≡ count_removed (j ∷ q)
    → rc - 1 ≡ count_removed q
unfolding count_removed
gone_count j q rc gone h = ground arith

here_count :
    (j : JobEntry) (q : List JobEntry) (rc : ℕ)
    → j.removed ≡ false
    → rc ≡ count_removed (j ∷ q)
    → rc ≡ count_removed q
unfolding count_removed
here_count j q rc here h = ground arith

module _ (b : SchedulerBase) (now : ℕ) (j : JobEntry) (q : List JobEntry) (e rc available : ℕ) where
  consume_gone :
      j.removed ≡ true
      → consume b now (j ∷ q) (suc e) rc available ≡ consume b now q e (rc - 1) available
  unfolding consume
  consume_gone gone = ground arith

  consume_fits :
      j.removed ≡ false
      → j.nodes_requested ≤ available
      → consume b now (j ∷ q) (suc e) rc available ≡ (
          let after = consume b now q e rc (available - j.nodes_requested) in
          record after {
            started = j ∷ after.started;
            projected = started_now b now j ∷ after.projected;
          })
  unfolding consume
  consume_fits here fits = ground arith

  consume_short :
      j.removed ≡ false
      → available < j.nodes_requested
      → consume b now (j ∷ q) (suc e) rc available ≡ stop_heads (j ∷ q) (suc e) rc available
  unfolding consume
  consume_short here short = ground arith

pub consume-Consumes :
    (b : SchedulerBase) (now t : ℕ) (q : List JobEntry) (e rc available : ℕ)
    → Split t e q
    → rc ≡ count_removed q
    → Rising q
    → Consumes b now t q available (consume b now q e rc available)
consume-Consumes b now t [] e rc available s counted r =
    unfold consume in stop-Consumes b now t e rc available [] s counted r tt
consume-Consumes b now t (j ∷ q) zero rc available s counted r =
    unfold consume in stop-Consumes b now t zero rc available (j ∷ q) s counted r (inl refl)
consume-Consumes b now t (j ∷ q) (suc e) rc available s counted r =
    let P = Consumes b now t (j ∷ q) available in
    elim (Bool-cases j.removed) [
      | inl gone ↦
          let rest =
            consume-Consumes b now t q e (rc - 1) available s.1 (gone_count j q rc gone counted)
              r.1 in
          subst P (sym (consume_gone b now j q e rc available gone))
            (dropped b now t j q available _ gone rest)
      | inr here ↦ elim (Bool-cases (leb j.nodes_requested available)) [
        | inl fits ↦
            let rest =
              consume-Consumes b now t q e rc (available - j.nodes_requested) s.1
                (here_count j q rc here counted) r.1 in
            subst P (sym (consume_fits b now j q e rc available here (leb→le _ _ fits)))
              (taken b now t j q available _ here (leb→le _ _ fits) s.0 rest)
        | inr short ↦
            subst P (sym (consume_short b now j q e rc available here (leb→lt _ _ short))) (
              stop-Consumes b now t (suc e) rc available (j ∷ q) s counted r
                (inr (here, leb→lt _ _ short)))
      ]
    ]
