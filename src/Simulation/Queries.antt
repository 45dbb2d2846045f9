-- ===== src/Simulation/Queries.antt =====
-- The records that answer queries about appended jobs (`record_appended_job`, src/sim/sim.cpp).
use dr_evt.Base.{
  ℕ, zero, suc, Bool, get_elem?, set, ◌-◌, ◌+◌, ◌≤◌, ◌≡◌, refl, ◌∙◌, ap, subst, true, some, List,
  [], ◌∷◌, arith, ◌==◌, length, le→ltb, if◌then◌else◌,
}
use dr_evt.Base.Results.{Returns}
use dr_evt.Trace.{JobRecord, unscheduled_sentinel}
use dr_evt.Trace.Store.{Has}
use dr_evt.Simulation.{SchedulerMethods, QueryRecord, Simulation}
use dr_evt.Simulation.Append.{first_idx, record_appended_job, padded}
use dr_evt.Simulation.Contract.{Contract}
use dr_evt.Simulation.Invariant.{SimInv}

-- The record written at an index of the padded list is found there.
get_elem?-set :
    (k : ℕ) (rs : List QueryRecord) (q : QueryRecord)
    → get_elem? (set (padded (suc k) rs) k q) k ≡ some q
unfolding padded
get_elem?-set zero [] q = refl
get_elem?-set zero (x ∷ rs) q = refl
get_elem?-set (suc k) [] q = get_elem?-set k [] q
get_elem?-set (suc k) (x ∷ rs) q = get_elem?-set k rs q

query_kept :
    (k : ℕ) (rs : List QueryRecord) (q : QueryRecord)
    → get_elem? (set (padded (k + 1) rs) k q) k ≡ some q
query_kept k rs q =
    subst (λ n. get_elem? (set (padded n rs) k q) k ≡ some q) (omega arith) (get_elem?-set k rs q)

module _ (S : SchedulerMethods) (size submit_of : ℕ → ℕ) (C : Contract S size submit_of) where
  pub with_queries :
      (s : Simulation S.State) (first : ℕ) (queries : List QueryRecord)
      → SimInv S size submit_of C [] s
      → SimInv S size submit_of C []
          (record s { first_appended_job_idx = first; query_records = queries })
  with_queries s first queries v = record {
    later = v.later;
    accounts = record {
      trace = v.trace;
      scheduler = v.scheduler;
      tracked = v.tracked;
      apart = v.apart;
      waits = v.waits;
      running = v.running;
      entries = v.entries;
      released = v.released;
      started = v.started;
      submitted = v.submitted;
      noted_arrivals = v.noted_arrivals;
      area_time = v.area_time;
      capacity = v.capacity;
      changes = v.changes;
      clock = v.clock;
    };
  }

  -- What a query about a job is answered from: what was requested, and whether it was rejected.
  abbrev pub IsQuery : ℕ → ℕ → ℕ → Bool → QueryRecord → Type 0
  IsQuery submit_time nodes limit rejected q = q ≡ record q {
    submit_time = submit_time;
    limit_time = limit;
    num_nodes = nodes;
    tracked = true;
    rejected = rejected;
  }

  -- The record of queries is written for a job that the store holds.
  pub record-queries :
      (s : Simulation S.State) (j submit_time nodes limit : ℕ) (job : JobRecord)
      → Has s.trace.store j job
      → first_idx S s j ≤ j
      → Returns (record_appended_job S s j submit_time nodes limit) (λ x.
        (queries : List QueryRecord) × (q : QueryRecord) × (x
          ≡ record s { first_appended_job_idx = first_idx S s j; query_records = queries })
        × (get_elem? queries (j - first_idx S s j) ≡ some q)
        × IsQuery submit_time nodes limit (job.submit_time == unscheduled_sentinel) q)
  unfolding record_appended_job
  record-queries s j submit_time nodes limit job has le =
      rw (le→ltb j (first_idx S s j) le, has)
        (_, _, refl, query_kept (j - first_idx S s j) s.query_records _, refl)

  pub same_first :
      (s a : Simulation S.State) (j : ℕ)
      → a.query_records ≡ s.query_records
      → a.first_appended_job_idx ≡ s.first_appended_job_idx
      → first_idx S a j ≡ first_idx S s j
  unfolding first_idx
  same_first s a j queries first =
      ap (λ (q : List QueryRecord). if length q == 0 then j else a.first_appended_job_idx) queries
      ∙ ap (λ f. if length s.query_records == 0 then j else f) first
