-- ===== src/Trace/Append.antt =====
-- How jobs enter the job store (src/trace/trace.cpp), without the check of the memory pressure.
use dr_evt.Base.{
  ℕ, zero, suc, ◌+◌, ◌-◌, ◌*◌, max, Bool, true, false, not, ◌&&◌, Option, none, some, List, [], ◌∷◌,
  ◌++◌, ltb, leb, ◌==◌, if◌then◌else◌, length, take,
}
use dr_evt.Base.Results.{Result, ok, throw, runtime_error, ◌>>=◌}
use dr_evt.Trace.{JobRecord, JobStore, Trace, make_record}
use dr_evt.Trace.Output.{is_job_reclaimable, reclaim, flush_simulated_trace_buffer}

-- `set_capacity` keeps as many records as there is room for.
unfoldable pub resolve_job_store_capacity : JobStore → ℕ → JobStore
resolve_job_store_capacity s hint =
    let cap = if s.capacity == 0 then max hint 4096 else s.capacity in
    if s.capacity_resolved
    then s
    else record s { capacity = cap; capacity_resolved = true; records = take cap s.records }

-- The scan of `reclaim_front_jobs`: `room` counts the slots that are missing.
unfoldable pub reclaimable_for : Trace → ℕ → ℕ → ℕ → List JobRecord → ℕ
reclaimable_for t current_time zero job_id jobs = 0
reclaimable_for t current_time (suc room) job_id [] = 0
reclaimable_for t current_time (suc room) job_id (job ∷ jobs) =
    let rest = suc (reclaimable_for t current_time room (suc job_id) jobs) in
    if is_job_reclaimable t job_id job current_time then rest else 0

unfoldable pub is_full : JobStore → Bool
is_full s = length s.records == s.capacity

unfoldable pub grow : JobStore → JobStore
grow s = record s { capacity = max (s.capacity * 2) 1 }

-- Grow or abort when the store is full.
unfoldable pub handle_full : JobStore → Result JobStore
handle_full s = if is_full s then if s.grows then ok (grow s) else throw runtime_error else ok s

unfoldable pub flush_reclaimed : JobStore → ℕ → JobStore
flush_reclaimed s count =
    if count == 0
    then s
    else record (flush_simulated_trace_buffer s) { departures_since_job_flush = 0 }

unfoldable pub reclaim_front_jobs : Trace → ℕ → ℕ → Bool → Result JobStore
reclaim_front_jobs t current_time min_free handle_overflow =
    let s = t.store in
    let room = length s.records + min_free - s.capacity in
    let count = reclaimable_for t current_time room s.num_reclaimed s.records in
    if leb (length s.records + min_free) s.capacity
    then ok s
    else reclaim s count current_time >>= λ r.
        let f = flush_reclaimed r count in if handle_overflow then handle_full f else ok f

unfoldable pub push_back : JobStore → JobRecord → JobStore
push_back s job = record s { records = s.records ++ job ∷ [] }

unfoldable pub with_run_time : JobRecord → Option ℕ → JobRecord
with_run_time job none = job
with_run_time job (some run_time) = record job { actual_run_time = run_time }

-- The number of the job and the trace with it.
unfoldable pub append_job : Trace → ℕ → ℕ → ℕ → ℕ → Option ℕ → Result (Trace × ℕ)
append_job t current_time submit_time num_nodes limit_time actual_run_time = do
  let s : JobStore = resolve_job_store_capacity t.store (length t.store.records)
  let r = (← reclaim_front_jobs (record t { store = s }) current_time 1 true)
  let g = (← handle_full r)
  let p = push_back g (with_run_time (make_record submit_time num_nodes limit_time) actual_run_time)
  ok (record t { store = p }, g.num_reclaimed + length g.records)

-- The doubling loop of `ensure_batch_capacity`, over at most `fuel` rounds.
unfoldable pub doubled : ℕ → ℕ → ℕ → ℕ
doubled zero needed cap = cap
doubled (suc fuel) needed cap =
    let rest = doubled fuel needed (max (cap * 2) 1) in if ltb cap needed then rest else cap

unfoldable pub ensure_batch_capacity : Trace → ℕ → ℕ → Result JobStore
ensure_batch_capacity t current_time batch_size = do
  let s : JobStore = resolve_job_store_capacity t.store (length t.store.records)
  let r = (← reclaim_front_jobs (record t { store = s }) current_time batch_size false)
  let needed = length r.records + batch_size
  if leb needed r.capacity
      then ok r
      else if r.grows
      then ok (record r { capacity = doubled needed needed r.capacity })
      else throw runtime_error

-- `Job_Append_Request`.
pub record JobAppendRequest : Type 0 where
  pub submit_time : ℕ
  pub num_nodes : ℕ
  pub limit_time : ℕ
  pub actual_run_time : Option ℕ

-- The requests come in the order of their submit times.
unfoldable pub are_sorted : List JobAppendRequest → Bool
are_sorted [] = true
are_sorted (r ∷ []) = true
are_sorted (r ∷ n ∷ rs) = leb r.submit_time n.submit_time && are_sorted (n ∷ rs)

unfoldable pub push_requests : JobStore → List JobAppendRequest → JobStore × List ℕ
push_requests s [] = (s, [])
push_requests s (r ∷ rs) =
    let job =
      with_run_time (make_record r.submit_time r.num_nodes r.limit_time) r.actual_run_time in
    let (s', job_nos) = push_requests (push_back s job) rs in
    (s', (s.num_reclaimed + length s.records) ∷ job_nos)

unfoldable pub append_jobs : Trace → ℕ → List JobAppendRequest → Result (Trace × List ℕ)
append_jobs t current_time requests = if not (are_sorted requests) then throw runtime_error else do
  let s = (← ensure_batch_capacity t current_time (length requests))
  let (s', job_nos) = push_requests s requests
  ok (record t { store = s' }, job_nos)
