-- ===== src/Simulation/Handle.antt =====
-- One event at the current time in the driver (src/sim/sim.cpp): a departure, or the release of the
-- nodes of an ended job.
use dr_evt.Base.{
  ℕ, ◌+◌, ◌*◌, ◌≤◌, ◌<◌, ◌≡◌, refl, sym, ◌∙◌, ap, subst, true, [], ◌∷◌, arith, ◌==◌, length,
  Bool-cases, if_ind, ==_iff, ◌⊎◌, inl, inr, if◌then◌else◌,
}
use dr_evt.Base.Sums.{sum_of, sum_of-one, occurs}
use dr_evt.Events.{
  DrEventKind, departure, node_release, arrival, DrEvent, EventQueue, make_event, release, insert,
}
use dr_evt.Events.Order.{total, about, total-insert, absent-Fresh}
use dr_evt.Scheduler.{RunningJob, RunningJobs}
use dr_evt.Trace.{Trace}
use dr_evt.Trace.Flush.{KeepsLive}
use dr_evt.Trace.Ledger.{held_as, given_as, held, given, runs, releases, TraceInv}
use dr_evt.Simulation.{SchedulerMethods, Simulation}
use dr_evt.Simulation.Running.{erase, contains}
use dr_evt.Simulation.Advance.{pred_size}
use dr_evt.Simulation.Contract.{Contract}
use dr_evt.Simulation.Invariant.{Waits, keys_at, Accounts}
use dr_evt.Simulation.StartOne.{occupied}

erased_front :
    (f : ℕ × RunningJob → ℕ) (j k : ℕ) (v : RunningJob) (m : RunningJobs)
    → (k == j) ≡ true
    → f (k, v) + sum_of f m ≡ f (j, v) + sum_of f (if k == j then m else (k, v) ∷ erase j m)
erased_front f j k v m same =
    if_ind (λ l. f (k, v) + sum_of f m ≡ f (j, v) + sum_of f l) (k == j) m ((k, v) ∷ erase j m)
      (λ h. ap (λ i. f (i, v) + sum_of f m) ((==_iff k j).0 same)) (λ h. absurd (cc (h, same)))

-- Erasing a key that is there removes one entry.
pub erase-removes :
    (f : ℕ × RunningJob → ℕ) (j : ℕ) (m : RunningJobs)
    → 1 ≤ keys_at j m
    → (entry : RunningJob) × (sum_of f m ≡ f (j, entry) + sum_of f (erase j m))
unfolding erase
erase-removes f j [] there = absurd (omega arith)
erase-removes f j ((k, v) ∷ m) there = elim (Bool-cases (k == j)) [
  | inl same ↦ (v, erased_front f j k v m same)
  | inr other ↦
      let (entry, rest) = erase-removes f j m (ground (arith, there, other)) in
      (entry, rw other (omega (arith, rest)))
]

pub contains_key : (j : ℕ) (m : RunningJobs) → 1 ≤ keys_at j m → contains j m ≡ true
unfolding contains
contains_key j [] there = absurd (omega arith)
contains_key j ((k, v) ∷ m) there = ground (arith, there, contains_key j m)

-- What is left to process: a departure may become a release.
abbrev pub energy : EventQueue → ℕ
energy q = 2 * total runs q + total releases q

pub kind-cases : (k : DrEventKind) → (k ≡ departure) ⊎ ((k ≡ node_release) ⊎ (k ≡ arrival))
kind-cases departure = inl refl
kind-cases node_release = inr (inl refl)
kind-cases arrival = inr (inr refl)

module _ (S : SchedulerMethods) (size submit_of : ℕ → ℕ) (C : Contract S size submit_of) where
  -- What an event at the current time changes.
  pub record Handles (s s' : Simulation S.State) : Type 0 where
    pub inv : Accounts S size submit_of C [] s'
    pub current_time : s'.current_time ≡ s.current_time
    pub scheduler : s'.scheduler ≡ s.scheduler
    pub changes : s'.capacity_changes ≡ s.capacity_changes
    pub current_capacity : s'.current_capacity ≡ s.current_capacity
    pub arrivals : s'.pending_queue_arrivals ≡ s.pending_queue_arrivals
    pub submitted : s'.jobs_submitted ≡ s.jobs_submitted
    pub room : occupied S s' ≤ occupied S s

  module _ (s : Simulation S.State) (e : DrEvent) (q : EventQueue)
      (v : Accounts S size submit_of C [] s) (eq : s.trace.ctx.evtq ≡ e ∷ q)
      (at : e.time ≡ s.current_time) where
    split : (f : DrEvent → ℕ) → total f s.trace.ctx.evtq ≡ f e + total f q
    split f = ap (total f) eq

    self : about e.job_idx e ≡ 1
    self = ground arith

    pub key_there : 1 ≤ keys_at e.job_idx s.running_jobs
    key_there = omega (arith, v.running e.job_idx, split (about e.job_idx), self)

    absent : total (about e.job_idx) q ≡ 0
    absent = omega (arith, v.trace.once e.job_idx, split (about e.job_idx), self)

    Waits-kept :
        (t' : Trace)
        → KeepsLive e.time s.trace.store t'.store
        → (j : ℕ) → 0 < occurs j (C.pending s.scheduler)
        → Waits t'.store j
    Waits-kept t' kept j some_j =
        let (r, has, startable, unscheduled) = v.waits j some_j in
        (
          r,
          kept.live j r has (startable.0, omega (arith, unscheduled, v.clock, at)),
          startable,
          unscheduled,
        )

    -- The job has left the machine.
    left_keys : (j : ℕ) → keys_at j (erase e.job_idx s.running_jobs) ≡ total (about j) q
    left_keys j =
        let (entry, removed) =
          erase-removes (λ m. if m.0 == j then 1 else 0) e.job_idx s.running_jobs key_there in
        omega (arith, removed, v.running j, split (about j))

    left_entries : length s.running_jobs ≡ 1 + length (erase e.job_idx s.running_jobs)
    left_entries =
        let (entry, removed) = erase-removes (λ m. 1) e.job_idx s.running_jobs key_there in
        omega
          (arith, removed, sum_of-one s.running_jobs, sum_of-one (erase e.job_idx s.running_jobs))

    trace_now : (t' : Trace) → TraceInv size e.time t' → TraceInv size s.current_time t'
    trace_now t' tv = subst (λ now. TraceInv size now t') at tv

    abbrev pub handled : Trace → RunningJobs → ℕ → ℕ → Simulation S.State
    handled t' m' completed releasing = record s {
      trace = t';
      running_jobs = m';
      jobs_completed = completed;
      jobs_releasing = releasing;
    }

    -- The accounts agree when the counters and the map follow the new queue.
    handled-Handles :
        (t' : Trace) (m' : RunningJobs) (completed releasing : ℕ)
        → TraceInv size e.time t'
        → KeepsLive e.time s.trace.store t'.store
        → ((j : ℕ) → total (about j) t'.ctx.evtq ≤ total (about j) s.trace.ctx.evtq)
        → ((j : ℕ) → keys_at j m' ≡ total (about j) t'.ctx.evtq)
        → length m' ≡ total runs t'.ctx.evtq + total releases t'.ctx.evtq
        → releasing ≡ total releases t'.ctx.evtq
        → s.jobs_started ≡ completed + total runs t'.ctx.evtq
        → total (held size) t'.ctx.evtq + total given t'.ctx.evtq
          ≤ total (held size) s.trace.ctx.evtq + total given s.trace.ctx.evtq
        → Handles s (handled t' m' completed releasing)
    handled-Handles t' m' completed releasing tv kept fewer keys entries released started room =
        record {
          inv = record {
            trace = trace_now t' tv;
            scheduler = v.scheduler;
            tracked = v.tracked;
            apart = λ j. omega (arith, v.apart j, fewer j);
            waits = Waits-kept t' kept;
            running = keys;
            entries = entries;
            released = released;
            started = started;
            submitted = v.submitted;
            noted_arrivals = v.noted_arrivals;
            area_time = v.area_time;
            capacity = v.capacity;
            changes = v.changes;
            clock = v.clock;
          };
          current_time = refl;
          scheduler = refl;
          changes = refl;
          current_capacity = refl;
          arrivals = refl;
          submitted = refl;
          room = omega (arith, tv.in_use, tv.releasing, v.trace.in_use, v.trace.releasing, room);
        }

    -- The state is well-formed, and there is less to process.
    abbrev pub Lighter : Simulation S.State → Type 0
    Lighter s' = Handles s s' × (energy s'.trace.ctx.evtq + 1 ≤ energy s.trace.ctx.evtq)

    module _ (t' : Trace) (tv : TraceInv size e.time t')
        (kept : KeepsLive e.time s.trace.store t'.store) where
      module _ (departs : e.kind ≡ departure) where
        runs_front : total runs s.trace.ctx.evtq ≡ 1 + total runs q
        runs_front = split runs ∙ ap (λ k. held_as 1 k + total runs q) departs

        releases_front : total releases s.trace.ctx.evtq ≡ 0 + total releases q
        releases_front = split releases ∙ ap (λ k. given_as 1 k + total releases q) departs

        held_front : total (held size) s.trace.ctx.evtq ≡ size e.job_idx + total (held size) q
        held_front =
            split (held size) ∙ ap (λ k. held_as (size e.job_idx) k + total (held size) q) departs

        given_front : total given s.trace.ctx.evtq ≡ 0 + total given q
        given_front = split given ∙ ap (λ k. given_as e.nodes k + total given q) departs

        -- The nodes are free at once.
        pub departed-Lighter :
            t'.ctx.evtq ≡ q
            → Lighter (
                handled t' (erase e.job_idx s.running_jobs) (s.jobs_completed + 1) s.jobs_releasing)
        departed-Lighter left =
            let now : (f : DrEvent → ℕ) → total f t'.ctx.evtq ≡ total f q =
              λ f. ap (total f) left in
            (
              handled-Handles t' _ _ _ tv kept (λ j. omega (arith, now (about j), split (about j)))
                  (λ j. left_keys j ∙ sym (now (about j)))
                  (omega (
                    arith,
                    left_entries,
                    v.entries,
                    runs_front,
                    releases_front,
                    now runs,
                    now releases,
                  ))
                  (omega (arith, v.released, releases_front, now releases))
                  (omega (arith, v.started, runs_front, now runs))
                  (omega (arith, now (held size), now given, held_front, given_front)),
              omega (arith, runs_front, releases_front, now runs, now releases),
            )

        -- The nodes stay unavailable until a release.
        pub delayed-Lighter :
            (later : ℕ)
            → t'.ctx.evtq ≡ insert (release e.job_idx later (size e.job_idx)) q
            → Lighter (handled t' s.running_jobs (s.jobs_completed + 1) (s.jobs_releasing + 1))
        unfolding release make_event
        delayed-Lighter later left =
            let fresh = absent-Fresh (release e.job_idx later (size e.job_idx)) q absent in
            let now : (f : DrEvent → ℕ)
                → total f t'.ctx.evtq ≡ f (release e.job_idx later (size e.job_idx)) + total f q =
              λ f. ap (total f) left ∙ total-insert f _ q fresh in
            (
              handled-Handles t' _ _ _ tv kept (λ j. omega (arith, now (about j), split (about j)))
                  (λ j. omega (arith, now (about j), split (about j), v.running j))
                  (omega (arith, v.entries, runs_front, releases_front, now runs, now releases))
                  (omega (arith, v.released, releases_front, now releases))
                  (omega (arith, v.started, runs_front, now runs))
                  (omega (arith, now (held size), now given, held_front, given_front)),
              omega (arith, runs_front, releases_front, now runs, now releases),
            )

      module _ (frees : e.kind ≡ node_release) where
        runs_back : total runs s.trace.ctx.evtq ≡ 0 + total runs q
        runs_back = split runs ∙ ap (λ k. held_as 1 k + total runs q) frees

        releases_back : total releases s.trace.ctx.evtq ≡ 1 + total releases q
        releases_back = split releases ∙ ap (λ k. given_as 1 k + total releases q) frees

        pub released-Lighter :
            t'.ctx.evtq ≡ q
            → Lighter (
                handled t'
                  (erase e.job_idx s.running_jobs)
                  (s.jobs_completed + 0)
                  (pred_size s.jobs_releasing))
        released-Lighter left =
            let now : (f : DrEvent → ℕ) → total f t'.ctx.evtq ≡ total f q =
              λ f. ap (total f) left in
            (
              handled-Handles t' _ _ _ tv kept (λ j. omega (arith, now (about j), split (about j)))
                  (λ j. left_keys j ∙ sym (now (about j)))
                  (omega (
                    arith,
                    left_entries,
                    v.entries,
                    runs_back,
                    releases_back,
                    now runs,
                    now releases,
                  ))
                  (ground (arith, v.released, releases_back, now releases))
                  (omega (arith, v.started, runs_back, now runs))
                  (omega (arith, now (held size), now given, split (held size), split given)),
              omega (arith, runs_back, releases_back, now runs, now releases),
            )
