-- ===== src/Trace/Appended.antt =====
-- An appended job (`append_job`, src/trace/trace.cpp): it is found under the number returned.
use dr_evt.Base.{
  ℕ, zero, suc, ◌+◌, ◌-◌, ◌≤◌, ◌≡◌, refl, sym, ◌∙◌, ap, subst, true, ◌&&◌, false, Option, some,
  List, [], max, ◌∷◌, ◌++◌, arith, leb, ◌==◌, length, get_elem?, take, drop, Bool-cases, if_ind,
  ◌⊎◌, inl, inr, le→ltb, if◌then◌else◌,
}
use dr_evt.Base.Results.{Result, ok, Returns, Returns-bind, Returns-mono, Returns-both}
use dr_evt.Trace.{JobRecord, JobStore, Trace, make_record, is_scheduled}
use dr_evt.Trace.Output.{
  is_job_reclaimable, write_job_line, write_lines, write_job_range, flush_simulated_trace_buffer,
  reclaim,
}
use dr_evt.Trace.Append.{
  resolve_job_store_capacity, reclaimable_for, is_full, grow, handle_full, flush_reclaimed,
  reclaim_front_jobs, push_back, with_run_time, append_job,
}
use dr_evt.Trace.Store.{Has, Has-index, index-Has}
use dr_evt.Trace.Flush.{
  IsWritten, IsLive, SameRecords, KeepsLive, same-KeepsLive, KeepsLive-trans, Removes, removed_from,
  reclaim-suc, reclaim-Removes, Removes-KeepsLive, is_job_reclaimable-live, some_eq,
}

line-grows : (s : JobStore) (job : JobRecord) → (write_job_line s job).grows ≡ s.grows
unfolding write_job_line
line-grows s job =
    if_ind (λ (w : JobStore). w.grows ≡ s.grows) (is_scheduled job) _ s (λ h. refl) (λ h. refl)

lines-grows :
    (s : JobStore) (through : ℕ) (jobs : List JobRecord)
    → (write_lines s through jobs).grows ≡ s.grows
unfolding write_lines
lines-grows s through [] = refl
lines-grows s through (job ∷ jobs) =
    lines-grows (if is_scheduled job && leb job.end_time through then write_job_line s job else s)
      through jobs
    ∙ if_ind (λ (w : JobStore). w.grows ≡ s.grows) _ (write_job_line s job) s
        (λ h. line-grows s job) (λ h. refl)

range-grows :
    (s : JobStore) (range : List JobRecord) (first through : ℕ)
    → first ≤ s.next_job_to_write
    → Returns (write_job_range s range first through) (λ w. w.grows ≡ s.grows)
unfolding write_job_range
range-grows s range first through le =
    let skip = s.next_job_to_write - first in
    rw (le→ltb s.next_job_to_write first le) (
      if_ind (λ r. Returns r (λ (w : JobStore). w.grows ≡ s.grows)) (leb (length range) skip) _ _
        (λ h. refl) (λ h. lines-grows s through (drop skip range)))

reclaim-grows :
    (s : JobStore) (count through : ℕ)
    → IsWritten s
    → Returns (reclaim s count through) (λ w. w.grows ≡ s.grows)
reclaim-grows s zero through written = unfold reclaim in refl
reclaim-grows s (suc n) through written =
    subst (λ r. Returns r (λ (w : JobStore). w.grows ≡ s.grows)) (sym (reclaim-suc s n through))
      (Returns-bind (λ (w : JobStore). w.grows ≡ s.grows) (λ (w : JobStore). w.grows ≡ s.grows)
        (write_job_range s _ _ _) (removed_from (suc n))
        (range-grows s (take (suc n) s.records) s.num_reclaimed through written) (λ w h. h))

-- The scan for room stops at the first job that has not ended, and at the end of the records.
room-stops :
    (t : Trace) (now room id : ℕ) (jobs : List JobRecord) (i : ℕ) (job : JobRecord)
    → get_elem? jobs i ≡ some job
    → IsLive now job
    → reclaimable_for t now room id jobs ≤ i
unfolding reclaimable_for
room-stops t now zero id jobs i job h l = omega arith
room-stops t now (suc room) id [] i job h l = omega arith
room-stops t now (suc room) id (x ∷ jobs) zero job h l =
    let x_live : IsLive now x = subst (IsLive now) (sym (some_eq x job h)) l in
    rw (is_job_reclaimable-live t id x now x_live) (omega arith)
room-stops t now (suc room) id (x ∷ jobs) (suc i) job h l =
    elim (Bool-cases (is_job_reclaimable t id x now)) [
      | inl gone ↦ rw gone (omega (arith, room-stops t now room (suc id) jobs i job h l))
      | inr stays ↦ rw stays (omega arith)
    ]

room-le :
    (t : Trace) (now room id : ℕ) (jobs : List JobRecord)
    → reclaimable_for t now room id jobs ≤ length jobs
unfolding reclaimable_for
room-le t now zero id jobs = omega arith
room-le t now (suc room) id [] = omega arith
room-le t now (suc room) id (x ∷ jobs) = ground (arith, room-le t now room (suc id) jobs)

-- The number that the next job gets.
abbrev pub next_number : JobStore → ℕ
next_number s = s.num_reclaimed + length s.records

-- The records of the live jobs and the next number are kept, and the store may grow.
abbrev Kept : ℕ → JobStore → JobStore → Type 0
Kept now s w = KeepsLive now s w × (w.grows ≡ true) × (next_number w ≡ next_number s)

length-drop : (n : ℕ) (xs : List JobRecord) → n ≤ length xs → n + length (drop n xs) ≡ length xs
length-drop zero xs le = omega arith
length-drop (suc n) [] le = absurd (omega arith)
length-drop (suc n) (x ∷ xs) le = omega (arith, length-drop n xs (omega arith))

same_number : (s w : JobStore) → SameRecords s w → next_number w ≡ next_number s
same_number s w same = omega (arith, ap length same.0, same.1)

flushed-SameRecords :
    (s : JobStore) (count : ℕ)
    → SameRecords s (flush_reclaimed s count)
      × ((flush_reclaimed s count).next_job_to_write ≡ s.next_job_to_write)
      × ((flush_reclaimed s count).grows ≡ s.grows)
unfolding flush_reclaimed flush_simulated_trace_buffer
flushed-SameRecords s count =
    let P : JobStore → Type 0 =
      λ w. SameRecords s w × (w.next_job_to_write ≡ s.next_job_to_write) × (w.grows ≡ s.grows) in
    if_ind P (count == 0) s _ (λ h. ((refl, refl), refl, refl))
      (λ h.
        if_ind (λ (w : JobStore). P (record w { departures_since_job_flush = 0 })) s.output_open _ s
          (λ k. ((refl, refl), refl, refl)) (λ k. ((refl, refl), refl, refl)))

full-Kept :
    (now : ℕ) (s : JobStore) → IsWritten s → s.grows ≡ true → Returns (handle_full s) (Kept now s)
unfolding handle_full grow
full-Kept now s written grows =
    let P : Result JobStore → Type 0 = λ r. Returns r (Kept now s) in
    if_ind P (is_full s) _ _
      (λ h.
        if_ind P s.grows (ok (grow s)) _
          (λ k. (same-KeepsLive now s (grow s) (refl, refl) written, grows, refl))
          (λ k. absurd (cc (k, grows))))
      (λ h. (same-KeepsLive now s s (refl, refl) written, grows, refl))

reclaimed-Kept :
    (t : Trace) (now min_free : ℕ)
    → IsWritten t.store
    → t.store.grows ≡ true
    → Returns (reclaim_front_jobs t now min_free true) (Kept now t.store)
unfolding reclaim_front_jobs
reclaimed-Kept t now min_free written grows =
    let s = t.store in
    let room = length s.records + min_free - s.capacity in
    let count = reclaimable_for t now room s.num_reclaimed s.records in
    if_ind (λ r. Returns r (Kept now s)) (leb (length s.records + min_free) s.capacity) _ _
      (λ h. (same-KeepsLive now s s (refl, refl) written, grows, refl))
      (λ h.
        Returns-bind (λ w. Removes s count w × (w.grows ≡ s.grows)) (Kept now s)
          (reclaim s count now) (λ w. handle_full (flush_reclaimed w count))
          (Returns-both (Removes s count) (λ w. w.grows ≡ s.grows) (reclaim s count now)
            (reclaim-Removes s count now (room-le t now room s.num_reclaimed s.records) written)
            (reclaim-grows s count now written))
          (λ w r.
            let f = flush_reclaimed w count in
            let (same, next, grows') = flushed-SameRecords w count in
            let written' : IsWritten f = omega (arith, same.1, next, r.0.2) in
            Returns-mono {P = Kept now f} {Q = Kept now s} (handle_full f)
              (full-Kept now f written' (grows' ∙ r.1 ∙ grows))
              (λ x k. (
                KeepsLive-trans now s f x
                    (KeepsLive-trans now s w f
                      (Removes-KeepsLive now s w count r.0
                        (λ i job at l. room-stops t now room s.num_reclaimed s.records i job at l))
                      (same-KeepsLive now w f same written'))
                    k.0,
                k.1,
                omega (
                  arith,
                  k.2,
                  same_number w f same,
                  ap length r.0.0,
                  r.0.1,
                  length-drop count s.records (room-le t now room s.num_reclaimed s.records),
                ),
              ))))

abbrev pub new_record : ℕ → ℕ → ℕ → Option ℕ → JobRecord
new_record submit_time num_nodes limit_time run_time =
    with_run_time (make_record submit_time num_nodes limit_time) run_time

get_elem?-snoc :
    (xs : List JobRecord) (x : JobRecord) → get_elem? (xs ++ x ∷ []) (length xs) ≡ some x
get_elem?-snoc [] x = refl
get_elem?-snoc (y ∷ xs) x = get_elem?-snoc xs x

get_elem?-append :
    (xs : List JobRecord) (x y : JobRecord) (i : ℕ)
    → get_elem? xs i ≡ some y
    → get_elem? (xs ++ x ∷ []) i ≡ some y
get_elem?-append [] x y i h = cc
get_elem?-append (z ∷ xs) x y zero h = h
get_elem?-append (z ∷ xs) x y (suc i) h = get_elem?-append xs x y i h

get_elem?-back :
    (xs : List JobRecord) (x y : JobRecord) (i : ℕ)
    → get_elem? (xs ++ x ∷ []) i ≡ some y
    → (get_elem? xs i ≡ some y) ⊎ ((i ≡ length xs) × (y ≡ x))
get_elem?-back [] x y zero h = inr (refl, sym (some_eq x y h))
get_elem?-back [] x y (suc i) h = cc
get_elem?-back (z ∷ xs) x y zero h = inl h
get_elem?-back (z ∷ xs) x y (suc i) h = elim (get_elem?-back xs x y i h) [
  | inl old ↦ inl old
  | inr new ↦ inr (omega (arith, new.0), new.1)
]

-- The record is found under the number, and the live ones are kept.
pub record Appends (now : ℕ) (t : Trace) (job : JobRecord) (r : Trace × ℕ) : Type 0 where
  pub has : Has r.0.store r.1 job
  pub live : (k : ℕ) (old : JobRecord) → Has t.store k old → IsLive now old → Has r.0.store k old
  pub back :
      (k : ℕ) (old : JobRecord)
      → Has r.0.store k old
      → Has t.store k old ⊎ ((k ≡ r.1) × (old ≡ job))
  pub number : r.1 ≡ next_number t.store
  pub only_store : (w : JobStore) × (r.0 ≡ record t { store = w })
  pub ctx : r.0.ctx ≡ t.ctx
  pub delay : r.0.delay ≡ t.delay
  pub written : IsWritten r.0.store

pushed-Appends :
    (now : ℕ) (t : Trace) (g : JobStore) (job : JobRecord)
    → KeepsLive now t.store g
    → next_number g ≡ next_number t.store
    → Appends now t job (record t { store = push_back g job }, g.num_reclaimed + length g.records)
unfolding push_back
pushed-Appends now t g job k number = record {
  number = number;
  only_store = (_, refl);
  has =
      index-Has _ _ job (omega arith)
        (ap (get_elem? (g.records ++ job ∷ [])) (omega arith) ∙ get_elem?-snoc g.records job);
  live = λ i old h l.
      let (le, at) = Has-index g i old (k.live i old h l) in
      index-Has _ i old le (get_elem?-append g.records job old _ at);
  back = λ i old h.
      let (le, at) = Has-index (push_back g job) i old h in
      elim (get_elem?-back g.records job old _ at) [
        | inl here ↦ inl (k.back i old (index-Has g i old le here))
        | inr new ↦ inr (omega (arith, new.0, le), new.1)
      ];
  ctx = refl;
  delay = refl;
  written = k.written;
}

take_all : (n : ℕ) (xs : List JobRecord) → length xs ≤ n → take n xs ≡ xs
take_all zero [] le = refl
take_all zero (x ∷ xs) le = absurd (omega arith)
take_all (suc n) [] le = refl
take_all (suc n) (x ∷ xs) le = ap (◌∷◌ x) (take_all n xs (omega arith))

-- A capacity that was asked for and has still to be set has room for the records.
abbrev pub HasRoom : JobStore → Type 0
HasRoom s = s.capacity_resolved ≡ false → length s.records ≤ s.capacity

room_for :
    (s : JobStore) (hint : ℕ)
    → length s.records ≤ s.capacity
    → length s.records ≤ (if s.capacity == 0 then max hint 4096 else s.capacity)
room_for s hint le = ground (arith, le)

resolved-SameRecords :
    (s : JobStore) (hint : ℕ)
    → HasRoom s
    → SameRecords s (resolve_job_store_capacity s hint)
      × ((resolve_job_store_capacity s hint).next_job_to_write ≡ s.next_job_to_write)
      × ((resolve_job_store_capacity s hint).grows ≡ s.grows)
unfolding resolve_job_store_capacity
resolved-SameRecords s hint room =
    if_ind
      (λ (w : JobStore).
        SameRecords s w × (w.next_job_to_write ≡ s.next_job_to_write) × (w.grows ≡ s.grows))
      s.capacity_resolved s _ (λ h. ((refl, refl), refl, refl))
      (λ h. ((take_all _ s.records (room_for s hint (room h)), refl), refl, refl))

-- A store that may grow takes a job whatever its capacity, if the capacity is set or has room for
-- the records: the number returned finds the record appended and is the number of records so far,
-- every job that was not rejected and has not ended keeps its record and number, no other record
-- appears, and the events stay.
pub append_job-Appends :
    (t : Trace) (now submit_time num_nodes limit_time : ℕ) (run_time : Option ℕ)
    → IsWritten t.store
    → t.store.grows ≡ true
    → HasRoom t.store
    → Returns
        (append_job t now submit_time num_nodes limit_time run_time)
        (Appends now t (new_record submit_time num_nodes limit_time run_time))
unfolding append_job
append_job-Appends t now submit_time num_nodes limit_time run_time written grows room =
    let job = new_record submit_time num_nodes limit_time run_time in
    let s = resolve_job_store_capacity t.store (length t.store.records) in
    let (same, next, same_grows) = resolved-SameRecords t.store (length t.store.records) room in
    let written' : IsWritten s = omega (arith, same.1, next, written) in
    Returns-bind (Kept now s) (Appends now t job)
      (reclaim_front_jobs (record t { store = s }) now 1 true) _
      (reclaimed-Kept (record t { store = s }) now 1 written' (same_grows ∙ grows))
      (λ r k.
        Returns-bind (Kept now r) (Appends now t job) (handle_full r) _
          (full-Kept now r k.0.written k.1)
          (λ g l.
            pushed-Appends now t g job
              (KeepsLive-trans now t.store s g (same-KeepsLive now t.store s same written')
                (KeepsLive-trans now s r g k.0 l.0))
              (l.2 ∙ k.2 ∙ same_number t.store s same)))
