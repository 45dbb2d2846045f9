-- ===== src/Simulation/Submission.antt =====
-- The submission of a job (`submit_job`, src/sim/sim.cpp) keeps the simulation well-formed.
use dr_evt.Base.{
  ℕ, ◌+◌, ◌≤◌, ◌<◌, ◌≡◌, ◌≢◌, refl, sym, ◌∙◌, ap, subst, true, false, List, [], ◌∷◌, ◌++◌, max,
  arith, ltb, ◌==◌, length, Bool-cases, if_ind, ◌⊎◌, inl, inr, ==_iff, le→ltb, if◌then◌else◌,
}
use dr_evt.Base.Results.{Returns}
use dr_evt.Base.Sums.{sum_of, sum_of-append, occurs, is}
use dr_evt.Events.Order.{total, about}
use dr_evt.Trace.{JobRecord, set_job, unscheduled_sentinel}
use dr_evt.Trace.Store.{Has, set_job-Has, set_job-other}
use dr_evt.Trace.Step.{with_duration}
use dr_evt.Trace.Start.{IsStartable}
use dr_evt.Trace.Edit.{edited-TraceInv}
use dr_evt.Simulation.{SchedulerMethods, Simulation}
use dr_evt.Simulation.Running.{count_arrival}
use dr_evt.Simulation.Submit.{reject, accept, is_rejected, submit_job}
use dr_evt.Simulation.Contract.{Contract}
use dr_evt.Simulation.Invariant.{Waits, noted, comes_at, SimInv}

noted-count :
    (t time : ℕ) (m : List (ℕ × ℕ))
    → noted t (count_arrival time m) ≡ noted t m + (if time == t then 1 else 0)
unfolding count_arrival
noted-count t time [] = omega arith
noted-count t time ((k, n) ∷ m) = elim (Bool-cases (k == time)) [
  | inl same ↦ let eq = (==_iff k time).0 same in rw same (ground (arith, ap (λ i. i == t) eq))
  | inr other ↦
      let rest = noted-count t time m in
      rw other (
        if_ind (λ l. noted t l ≡ noted t ((k, n) ∷ m) + (if time == t then 1 else 0)) (ltb time k) _
          _ (λ before. omega arith) (λ behind. omega (arith, rest)))
]

length-snoc : (xs : List ℕ) (x : ℕ) → length (xs ++ x ∷ []) ≡ length xs + 1
length-snoc [] x = refl
length-snoc (y ∷ xs) x = omega (arith, length-snoc xs x)

busy-IsStartable :
    (job : JobRecord) (busy : ℕ) → IsStartable job → IsStartable (record job { busy_nodes = busy })
unfolding with_duration
busy-IsStartable job busy h = (h.0, ground (arith, h.1))

module _ (S : SchedulerMethods) (size submit_of : ℕ → ℕ) (C : Contract S size submit_of) where
  -- A job is rejected, or joins the pending ones.
  pub record Submits (s : Simulation S.State) (j : ℕ) (job : JobRecord) (s' : Simulation S.State)
      : Type 0 where
    pub inv : SimInv S size submit_of C [] s'
    pub current_time : s'.current_time ≡ s.current_time
    pub queries : s'.query_records ≡ s.query_records
    pub first_idx : s'.first_appended_job_idx ≡ s.first_appended_job_idx
    pub outcome :
        ((is_rejected S s job ≡ true)
          × (C.pending s'.scheduler ≡ C.pending s.scheduler)
          × (s'.jobs_submitted ≡ s.jobs_submitted)
          × Has s'.trace.store j (record job { submit_time = unscheduled_sentinel }))
        ⊎ ((is_rejected S s job ≡ false)
            × (C.pending s'.scheduler ≡ C.pending s.scheduler ++ j ∷ [])
            × (s'.jobs_submitted ≡ s.jobs_submitted + 1)
            × Waits s'.trace.store j)

  -- A job that the store holds and that neither waits nor runs.
  pub record IsNew (s : Simulation S.State) (j : ℕ) (job : JobRecord) : Type 0 where
    pub has : Has s.trace.store j job
    pub startable : IsStartable job
    pub unscheduled : job.end_time ≡ unscheduled_sentinel
    pub unknown : occurs j (C.pending s.scheduler) + total (about j) s.trace.ctx.evtq ≡ 0

  module _ (s : Simulation S.State) (j : ℕ) (job : JobRecord) (v : SimInv S size submit_of C [] s)
      (new : IsNew s j job) (not_past : s.current_time ≤ submit_of j)
      (in_order : s.latest_submit_time ≤ submit_of j) where
    absent : total (about j) s.trace.ctx.evtq ≡ 0
    absent = omega (arith, new.unknown)

    Waits-others :
        (job' : JobRecord) (k : ℕ)
        → 0 < occurs k (C.pending s.scheduler)
        → Waits (set_job s.trace.store j job') k
    Waits-others job' k some_k =
        let ne : j ≢ k = λ eq. absurd (
          omega (
            arith,
            new.unknown,
            subst (λ i. 0 < occurs i (C.pending s.scheduler)) (sym eq) some_k,
          )) in
        let (r, has, startable, unscheduled) = v.waits k some_k in
        (r, set_job-other s.trace.store j k job' job r new.has ne has, startable, unscheduled)

    rejected : is_rejected S s job ≡ true → Submits s j job (reject S s j job)
    unfolding reject
    rejected refused = record {
      inv = record {
        later = v.later;
        accounts = record {
          trace = edited-TraceInv size s.current_time s.trace j job _ v.trace new.has refl absent;
          scheduler = v.scheduler;
          tracked = v.tracked;
          apart = v.apart;
          waits = Waits-others _;
          running = v.running;
          entries = v.entries;
          released = v.released;
          started = v.started;
          submitted = v.submitted;
          noted_arrivals = v.noted_arrivals;
          area_time = v.area_time;
          capacity = v.capacity;
          changes = v.changes;
          clock = v.clock;
        };
      };
      current_time = refl;
      queries = refl;
      first_idx = refl;
      outcome = inl (refused, refl, refl, set_job-Has s.trace.store j _ job new.has);
    }

    abbrev inserted : ℕ → S.State
    inserted n = S.insert_job s.scheduler j (submit_of j) job.limit_time n

    insertion :
        C.Inv (inserted job.num_nodes) (submit_of j)
        × (C.pending (inserted job.num_nodes) ≡ C.pending s.scheduler ++ j ∷ [])
        × (C.tracked (inserted job.num_nodes) ≡ C.tracked s.scheduler)
    insertion =
        subst
          (λ n.
            C.Inv (inserted n) (submit_of j)
            × (C.pending (inserted n) ≡ C.pending s.scheduler ++ j ∷ [])
            × (C.tracked (inserted n) ≡ C.tracked s.scheduler))
          (sym (v.trace.sized j job new.has))
          (C.inserts s.scheduler s.latest_submit_time j job.limit_time v.scheduler in_order)

    grown :
        (f : ℕ → ℕ)
        → sum_of f (C.pending (inserted job.num_nodes)) ≡ sum_of f (C.pending s.scheduler) + f j
    grown f =
        let (inv, more, same) = insertion in
        let sum = sum_of-append f (C.pending s.scheduler) (j ∷ []) in
        ap (sum_of f) more ∙ omega (arith, sum)

    abbrev busy : JobRecord
    busy = record job { busy_nodes = s.trace.ctx.nodes_in_use }

    Waits-now :
        (k : ℕ)
        → 0 < occurs k (C.pending (inserted job.num_nodes))
        → Waits (set_job s.trace.store j busy) k
    Waits-now k some_k = elim (Bool-cases (j == k)) [
      | inl same ↦ subst (Waits (set_job s.trace.store j busy)) ((==_iff j k).0 same) (
        busy,
        set_job-Has s.trace.store j busy job new.has,
        busy-IsStartable job _ new.startable,
        new.unscheduled,
      )
      | inr other ↦ Waits-others busy k (ground (arith, grown (is k), other, some_k))
    ]

    apart_now :
        (k : ℕ)
        → occurs k (C.pending (inserted job.num_nodes)) + total (about k) s.trace.ctx.evtq ≤ 1
    apart_now k = elim (Bool-cases (j == k)) [
      | inl same ↦
          let eq = (==_iff j k).0 same in
          let none_yet : occurs k (C.pending s.scheduler) + total (about k) s.trace.ctx.evtq ≡ 0 =
            subst (λ i. occurs i (C.pending s.scheduler) + total (about i) s.trace.ctx.evtq ≡ 0) eq
              new.unknown in
          ground (arith, grown (is k), none_yet)
      | inr other ↦ ground (arith, grown (is k), v.apart k, other)
    ]

    accepted :
        is_rejected S s job ≡ false → Submits s j job (accept S s j job (submit_of j) (submit_of j))
    unfolding accept
    accepted admitted =
        let (inv, more, same) = insertion in
        let later : max s.latest_submit_time (submit_of j) ≡ submit_of j =
          omega (arith, in_order) in
        record {
          inv = record {
            later = v.later;
            accounts = record {
              trace =
                  edited-TraceInv size s.current_time s.trace j job busy v.trace new.has refl
                    absent;
              scheduler = subst (C.Inv (inserted job.num_nodes)) (sym later) inv;
              tracked = omega (arith, same, v.tracked);
              apart = apart_now;
              waits = Waits-now;
              running = v.running;
              entries = v.entries;
              released = v.released;
              started = v.started;
              submitted =
                  omega (arith, v.submitted, ap length more, length-snoc (C.pending s.scheduler) j);
              noted_arrivals = λ t le. omega (
                arith,
                noted-count t (submit_of j) s.pending_queue_arrivals,
                grown (comes_at submit_of t),
                v.noted_arrivals t le,
              );
              area_time = v.area_time;
              capacity = v.capacity;
              changes = v.changes;
              clock = v.clock;
            };
          };
          current_time = refl;
          queries = refl;
          first_idx = refl;
          outcome = inr (admitted, more, refl, Waits-now j (ground (arith, grown (is j))));
        }

    -- The submission of a job whose record the store holds, that is new and may start, at a submit
    -- time that is neither behind the clock nor before that of an earlier submission, throws
    -- nothing. Exactly when the job can never run it is marked as rejected and nothing is counted;
    -- else it joins the pending jobs as the last and is counted. The simulation stays well-formed.
    pub submit_job-Submits :
        Returns (submit_job S s j (submit_of j) (submit_of j)) (Submits s j job)
    unfolding submit_job
    submit_job-Submits =
        rw (le→ltb (submit_of j) s.current_time not_past, new.has)
          (if_ind (λ x. Returns x (Submits s j job)) (is_rejected S s job) _ _ rejected accepted)
