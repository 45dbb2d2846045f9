-- ===== src/Trace/Flush.antt =====
-- What a flush of the completed jobs (`flush_completed_jobs_impl` and its callers,
-- src/trace/trace.cpp) keeps of the job store.
use dr_evt.Base.{
  ℕ, zero, suc, ◌+◌, ◌-◌, ◌≤◌, ◌<◌, ◌≡◌, refl, sym, ◌∙◌, ap, Bool, true, false, ◌&&◌, some, List,
  [], ◌∷◌, arith, leb, ◌==◌, length, get_elem?, drop, take, Bool-cases, inl, inr, leb→le, lt→leb,
  le→ltb, ==-zero, if◌then◌else◌, subst,
}
use dr_evt.Base.Results.{Result, ok, ◌>>=◌, Returns, Returns-bind}
use dr_evt.Trace.{JobRecord, JobStore, Trace, unscheduled_sentinel, is_scheduled}
use dr_evt.Trace.Output.{
  is_job_reclaimable, drained_until, write_job_line, write_lines, write_job_range,
  flush_simulated_trace_buffer, reclaim, reclaimable, flush_completed_jobs,
}
use dr_evt.Trace.Store.{Has, Has-index, index-Has}

-- The store keeps its records, their numbers and what it has to write.
abbrev pub SameRecords : JobStore → JobStore → Type 0
SameRecords s w = (w.records ≡ s.records) × (w.num_reclaimed ≡ s.num_reclaimed)

write_job_line-SameRecords : (s : JobStore) (job : JobRecord) → SameRecords s (write_job_line s job)
unfolding write_job_line
write_job_line-SameRecords s job = elim (Bool-cases (is_scheduled job)) [
  | inl yes_it_is ↦ rw yes_it_is (refl, refl)
  | inr no_it_is ↦ rw no_it_is (refl, refl)
]

line_same :
    (b : Bool) (s : JobStore) (job : JobRecord)
    → SameRecords s (if b then write_job_line s job else s)
line_same true s job = write_job_line-SameRecords s job
line_same false s job = (refl, refl)

write_lines-SameRecords :
    (s : JobStore) (through : ℕ) (jobs : List JobRecord)
    → SameRecords s (write_lines s through jobs)
unfolding write_lines
write_lines-SameRecords s through [] = (refl, refl)
write_lines-SameRecords s through (job ∷ jobs) =
    let (a, b) = line_same (is_scheduled job && leb job.end_time through) s job in
    let (c, d) =
      write_lines-SameRecords
        (if is_scheduled job && leb job.end_time through then write_job_line s job else s) through
        jobs in
    (c ∙ a, d ∙ b)

-- The output cursor does not lie before the records.
abbrev pub IsWritten : JobStore → Type 0
IsWritten s = s.num_reclaimed ≤ s.next_job_to_write

write_job_range-Returns :
    (s : JobStore) (range : List JobRecord) (first through : ℕ)
    → first ≤ s.next_job_to_write
    → Returns
        (write_job_range s range first through)
        (λ w. SameRecords s w × (first + length range ≤ w.next_job_to_write))
unfolding write_job_range
write_job_range-Returns s range first through le =
    let skip = s.next_job_to_write - first in
    elim (Bool-cases (leb (length range) skip)) [
      | inl done ↦
          rw (le→ltb s.next_job_to_write first le, done)
            ((refl, refl), omega (arith, leb→le _ _ done))
      | inr more ↦
          rw (le→ltb s.next_job_to_write first le, more)
            (write_lines-SameRecords s through (drop skip range), omega arith)
    ]

length-take_le : (n : ℕ) (xs : List JobRecord) → n ≤ length xs → length (take n xs) ≡ n
length-take_le zero xs le = refl
length-take_le (suc n) [] le = absurd (omega arith)
length-take_le (suc n) (x ∷ xs) le = omega (arith, length-take_le n xs (omega arith))

abbrev pub Removes : JobStore → ℕ → JobStore → Type 0
Removes s count w =
    (w.records ≡ drop count s.records) × (w.num_reclaimed ≡ s.num_reclaimed + count) × IsWritten w

abbrev pub removed_from : ℕ → JobStore → Result JobStore
removed_from count w =
    ok (record w { records = drop count w.records; num_reclaimed = w.num_reclaimed + count })

pub reclaim-suc :
    (s : JobStore) (n through : ℕ)
    → reclaim s (suc n) through ≡ (
        write_job_range s (take (suc n) s.records) s.num_reclaimed through >>= removed_from (suc n))
unfolding reclaim
reclaim-suc s n through = rw (==-zero (suc n) (omega arith)) refl

pub reclaim-Removes :
    (s : JobStore) (count through : ℕ)
    → count ≤ length s.records
    → IsWritten s
    → Returns (reclaim s count through) (Removes s count)
reclaim-Removes s zero through le written = unfold reclaim in (refl, omega arith, omega arith)
reclaim-Removes s (suc n) through le written =
    subst (λ r. Returns r (Removes s (suc n))) (sym (reclaim-suc s n through))
      (Returns-bind _ (Removes s (suc n)) (write_job_range s _ _ _) (removed_from (suc n))
        (write_job_range-Returns s (take (suc n) s.records) s.num_reclaimed through written)
        (λ w h. (
          ap (drop (suc n)) h.0.0,
          ap (λ k. k + suc n) h.0.1,
          omega (arith, h.0.1, h.1, length-take_le (suc n) s.records le),
        )))

-- The job ends after `now`, and was not rejected.
abbrev pub IsLive : ℕ → JobRecord → Type 0
IsLive now job = ((job.submit_time == unscheduled_sentinel) ≡ false) × (now < job.end_time)

pub is_job_reclaimable-live :
    (t : Trace) (id : ℕ) (job : JobRecord) (now : ℕ)
    → IsLive now job
    → is_job_reclaimable t id job now ≡ false
unfolding is_job_reclaimable
is_job_reclaimable-live t id job now l =
    let late = lt→leb job.end_time now l.1 in
    elim (Bool-cases (t.replay_mode && leb t.replay_jobs_enqueued id)) [
      | inl waits ↦ rw (l.0, waits) refl
      | inr enqueued ↦ elim (Bool-cases (drained_until t.ctx.evtq now)) [
        | inl drained ↦ rw (l.0, enqueued, drained, late) refl
        | inr queued ↦ rw (l.0, enqueued, queued) refl
      ]
    ]

reclaimable-le :
    (t : Trace) (now id : ℕ) (jobs : List JobRecord) → reclaimable t now id jobs ≤ length jobs
unfolding reclaimable
reclaimable-le t now id [] = omega arith
reclaimable-le t now id (job ∷ jobs) = ground (arith, reclaimable-le t now (suc id) jobs)

pub some_eq : (x y : JobRecord) → some x ≡ some y → x ≡ y
some_eq x y h = cc

-- The scan stops at the first job that has not ended.
reclaimable-stops :
    (t : Trace) (now id : ℕ) (jobs : List JobRecord) (i : ℕ) (job : JobRecord)
    → get_elem? jobs i ≡ some job
    → IsLive now job
    → reclaimable t now id jobs ≤ i
unfolding reclaimable
reclaimable-stops t now id [] i job h l = omega arith
reclaimable-stops t now id (x ∷ jobs) zero job h l =
    let x_live : IsLive now x = subst (IsLive now) (sym (some_eq x job h)) l in
    rw (is_job_reclaimable-live t id x now x_live) (omega arith)
reclaimable-stops t now id (x ∷ jobs) (suc i) job h l =
    elim (Bool-cases (is_job_reclaimable t id x now)) [
      | inl gone ↦ rw gone (omega (arith, reclaimable-stops t now (suc id) jobs i job h l))
      | inr stays ↦ rw stays (omega arith)
    ]

-- What a store keeps of another at time `now`: the records of the jobs that have not ended by then,
-- under their numbers.
pub record KeepsLive (now : ℕ) (s w : JobStore) : Type 0 where
  pub written : IsWritten w
  pub live : (j : ℕ) (job : JobRecord) → Has s j job → IsLive now job → Has w j job
  pub back : (j : ℕ) (job : JobRecord) → Has w j job → Has s j job

pub Has-same :
    (s w : JobStore) (j : ℕ) (job : JobRecord) → SameRecords s w → Has s j job → Has w j job
Has-same s w j job (records, num) h =
    let (le, at) = Has-index s j job h in
    index-Has w j job (omega (arith, num)) (
      subst (λ k. get_elem? w.records (j - k) ≡ some job) (sym num)
        (ap (λ l. get_elem? l (j - s.num_reclaimed)) records ∙ at))

pub same-KeepsLive : (now : ℕ) (s w : JobStore) → SameRecords s w → IsWritten w → KeepsLive now s w
same-KeepsLive now s w (records, num) written = record {
  written = written;
  live = λ j job h l. Has-same s w j job (records, num) h;
  back = λ j job h. Has-same w s j job (sym records, sym num) h;
}

pub KeepsLive-trans :
    (now : ℕ) (s v w : JobStore) → KeepsLive now s v → KeepsLive now v w → KeepsLive now s w
KeepsLive-trans now s v w a b = record {
  written = b.written;
  live = λ j job h l. b.live j job (a.live j job h l) l;
  back = λ j job h. a.back j job (b.back j job h);
}

get_elem?-drop :
    (count i : ℕ) (xs : List JobRecord) → get_elem? (drop count xs) i ≡ get_elem? xs (count + i)
get_elem?-drop zero i xs = ap (get_elem? xs) (omega arith)
get_elem?-drop (suc count) i [] = refl
get_elem?-drop (suc count) i (x ∷ xs) =
    get_elem?-drop count i xs ∙ ap (get_elem? (x ∷ xs)) {x = suc (count + i)} (omega arith)

Removes-index :
    (s w : JobStore) (count j : ℕ)
    → Removes s count w
    → s.num_reclaimed + count ≤ j
    → get_elem? w.records (j - w.num_reclaimed) ≡ get_elem? s.records (j - s.num_reclaimed)
Removes-index s w count j (records, num, written) le =
    ap (λ l. get_elem? l (j - w.num_reclaimed)) records
    ∙ get_elem?-drop count (j - w.num_reclaimed) s.records
    ∙ ap (get_elem? s.records) (omega (arith, num))

-- Removing the records in front of the first live one keeps the live ones.
pub Removes-KeepsLive :
    (now : ℕ) (s w : JobStore) (count : ℕ)
    → Removes s count w
    → ((i : ℕ) (job : JobRecord) → get_elem? s.records i ≡ some job → IsLive now job → count ≤ i)
    → KeepsLive now s w
Removes-KeepsLive now s w count r stops = record {
  written = r.2;
  live = λ j job h l.
      let (le, at) = Has-index s j job h in
      let below = stops (j - s.num_reclaimed) job at l in
      index-Has w j job (omega (arith, r.1)) (Removes-index s w count j r (omega arith) ∙ at);
  back = λ j job h.
      let (le, at) = Has-index w j job h in
      index-Has s j job (omega (arith, r.1))
        (sym (Removes-index s w count j r (omega (arith, r.1))) ∙ at);
}

-- What a flush keeps of the trace.
pub record Flushes (now : ℕ) (t t' : Trace) : Type 0 where
  pub ctx : t'.ctx ≡ t.ctx
  pub delay : t'.delay ≡ t.delay
  pub store : KeepsLive now t.store t'.store

flushed_buffer :
    (s : JobStore)
    → IsWritten s
    → let w : JobStore = record (flush_simulated_trace_buffer s) {
      departures_since_job_flush = 0;
    } in
      SameRecords s w × IsWritten w
unfolding flush_simulated_trace_buffer
flushed_buffer s written = elim (Bool-cases s.output_open) [
  | inl open_it_is ↦ rw open_it_is ((refl, refl), written)
  | inr closed ↦ rw closed ((refl, refl), written)
]

-- A flush does not throw when the output cursor is not before the records, keeps the records of all
-- jobs that were not rejected and end later than the given time, under their numbers, adds or
-- changes none, and keeps the output cursor not before the records.
pub flush_completed_jobs-Flushes :
    (t : Trace) (now : ℕ) → IsWritten t.store → Returns (flush_completed_jobs t now) (Flushes now t)
unfolding flush_completed_jobs
flush_completed_jobs-Flushes t now written =
    let s = t.store in
    let count = reclaimable t now s.num_reclaimed s.records in
    Returns-bind (Removes s count) (Flushes now t) (reclaim s count now) _
      (reclaim-Removes s count now (reclaimable-le t now s.num_reclaimed s.records) written)
      (λ w r.
        let (same, written') = flushed_buffer w r.2 in
        record {
          ctx = refl;
          delay = refl;
          store =
              KeepsLive-trans now s w _
                (Removes-KeepsLive now s w count r
                  (λ i job h l. reclaimable-stops t now s.num_reclaimed s.records i job h l))
                (same-KeepsLive now w _ same written');
        })
