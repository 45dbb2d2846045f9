-- ===== src/Simulation/Append.antt =====
-- The streaming API of the simulation (src/sim/sim.cpp): the checks of appended jobs, and the
-- records that answer queries about them. The outputs that it opens are not modelled.
use dr_evt.Base.{
  ℕ, zero, suc, ◌+◌, ◌-◌, ◌^◌, Bool, true, false, ◌&&◌, ◌||◌, Option, none, some, List, [], ◌∷◌,
  ltb, leb, ◌==◌, if◌then◌else◌, length, get_elem?, set,
}
use dr_evt.Base.Results.{Result, ok, throw, runtime_error, invalid_argument, logic_error, ◌>>=◌}
use dr_evt.Trace.{job_at, unscheduled_sentinel}
use dr_evt.Trace.Append.{JobAppendRequest}
use dr_evt.Simulation.{SchedulerMethods, QueryRecord, Simulation}
use dr_evt.Simulation.Submit.{submit_job}
use dr_evt.Trace.Append as TraceAppend

-- `timeout_t` is a 32-bit unsigned integer, and times are whole seconds here.
unfoldable pub checked_streaming_limit : ℕ → Result ℕ
checked_streaming_limit limit_time =
    if limit_time == 0 || ltb (2 ^ 32 - 1) limit_time then throw invalid_argument else ok limit_time

unfoldable pub is_run_time_valid : ℕ → Option ℕ → Bool
is_run_time_valid limit none = true
is_run_time_valid limit (some run_time) = ltb 0 run_time && leb run_time limit

abbrev pub no_query : QueryRecord
no_query = record {
  submit_time = 0;
  limit_time = 0;
  num_nodes = 0;
  start_time = 0;
  end_time = 0;
  tracked = false;
  scheduled = false;
  rejected = false;
}

-- `resize` to a size that is not smaller.
unfoldable pub padded : ℕ → List QueryRecord → List QueryRecord
padded zero rs = rs
padded (suc n) [] = no_query ∷ padded n []
padded (suc n) (r ∷ rs) = r ∷ padded n rs

unfoldable pub found_query : Option QueryRecord → QueryRecord
found_query none = no_query
found_query (some r) = r

module _ (S : SchedulerMethods) where
  unfoldable pub first_idx : Simulation S.State → ℕ → ℕ
  first_idx s job_idx = if length s.query_records == 0 then job_idx else s.first_appended_job_idx

  unfoldable pub record_appended_job :
      Simulation S.State → ℕ → ℕ → ℕ → ℕ → Result (Simulation S.State)
  record_appended_job s job_idx submit_time num_nodes limit_time =
      let first = first_idx s job_idx in
      let offset = job_idx - first in
      let records = padded (offset + 1) s.query_records in
      if ltb job_idx first then throw logic_error else do
        let job = (← job_at s.trace.store job_idx)
        let query : QueryRecord = record (found_query (get_elem? records offset)) {
          submit_time = submit_time;
          limit_time = limit_time;
          num_nodes = num_nodes;
          tracked = true;
          rejected = job.submit_time == unscheduled_sentinel;
        }
        ok (record s { first_appended_job_idx = first; query_records = set records offset query })

  -- What `append_job` requires of a job, and what `append_jobs` requires of each.
  unfoldable pub check_request : Simulation S.State → ℕ → ℕ → Option ℕ → Result ℕ
  check_request s submit_time limit_time actual_run_time =
      if ltb submit_time s.current_time
      then throw runtime_error
      else if ltb submit_time s.latest_submit_time
      then throw invalid_argument
      else do
        let limit = (← checked_streaming_limit limit_time)
        if is_run_time_valid limit actual_run_time then ok limit else throw invalid_argument

  unfoldable pub append_job :
      Simulation S.State → ℕ → ℕ → ℕ → Option ℕ → Result (Simulation S.State × ℕ)
  append_job s submit_time num_nodes limit_time actual_run_time = do
    let limit = (← check_request s submit_time limit_time actual_run_time)
    let (trace, job_idx) =
        (← TraceAppend.append_job s.trace s.current_time submit_time num_nodes limit
          actual_run_time)
    let s1 = (← submit_job S (record s { trace = trace }) job_idx submit_time submit_time)
    let s2 = (← record_appended_job s1 job_idx submit_time num_nodes limit)
    ok (s2, job_idx)

  unfoldable pub check_requests : Simulation S.State → List JobAppendRequest → Result (Unit {0})
  check_requests s [] = ok tt
  check_requests s (r ∷ rs) =
      check_request s r.submit_time r.limit_time r.actual_run_time >>= λ limit. check_requests s rs

  -- The loop that submits the jobs appended.
  unfoldable pub submit_requests :
      Simulation S.State → List JobAppendRequest → List ℕ → Result (Simulation S.State)
  submit_requests s [] job_nos = ok s
  submit_requests s (r ∷ rs) [] = ok s
  submit_requests s (r ∷ rs) (job_idx ∷ job_nos) =
      submit_job S s job_idx r.submit_time r.submit_time >>= λ s1.
      record_appended_job s1 job_idx r.submit_time r.num_nodes r.limit_time >>= λ s2.
      submit_requests s2 rs job_nos

  unfoldable pub append_jobs :
      Simulation S.State → List JobAppendRequest → Result (Simulation S.State × List ℕ)
  append_jobs s requests = do
    let checked = (← check_requests s requests)
    let (trace, job_nos) = (← TraceAppend.append_jobs s.trace s.current_time requests)
    let s1 = (← submit_requests (record s { trace = trace }) requests job_nos)
    ok (s1, job_nos)
