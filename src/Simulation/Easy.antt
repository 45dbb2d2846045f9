-- ===== src/Simulation/Easy.antt =====
-- FCFSEasyDequeScheduler (src/sim/scheduler_fcfs_easy_deque.hpp) behind the driver's interface.
use mathlib.Core.List.{Perm}
use dr_evt.Base.{
  ℕ, ◌≤◌, ◌<◌, ◌≡◌, refl, sym, ◌∙◌, ap, subst, true, false, List, [], ◌∷◌, ◌++◌, arith, All,
  All-mono, ◌⊎◌,
}
use dr_evt.Base.Sums.{sum_of, occurs}
use dr_evt.Scheduler.{RunningJobs, CapacityChange, max_time}
use dr_evt.Scheduler
use dr_evt.Deque.{
  JobEntry, Deque, insert_job, sync_to, pending, pending_job_ids, get_next_arrival_time,
}
use dr_evt.Deque
use dr_evt.Deque.Invariant.{Inv, All-append, insert_job-Inv, sync_to-Inv, active_job_count_lem}
use dr_evt.Deque.Front.{IsOf}
use dr_evt.EasyDeque.{EasyDeque}
use dr_evt.EasyDeque
use dr_evt.EasyDeque.Correct.{schedule-Selects, schedule-KeepsEntries}
use dr_evt.Simulation.{SchedulerMethods}
use dr_evt.Simulation.Contract.{Contract, ahead, arrived}
use dr_evt.Simulation.Queue.{nodes_of, submits_of, arrived_of_Split, next_of_Split, first_of_Split}

abbrev pub easy_outlook : EasyDeque → ℕ → ℕ → List CapacityChange → EasyDeque
easy_outlook e capacity occupied changes = record e {
  base = Scheduler.set_capacity_outlook e.base capacity occupied changes;
}

abbrev pub easy : SchedulerMethods
easy = record {
  State = EasyDeque;
  insert_job = λ e job_id submit_time run_time nodes. record e {
    deque = Deque.insert_job e.deque job_id submit_time run_time nodes;
  };
  sync_to = λ e time. record e { deque = Deque.sync_to e.deque time };
  set_capacity_outlook = easy_outlook;
  schedule = EasyDeque.schedule;
  has_eligible_jobs = λ e. Deque.has_eligible_jobs e.deque;
  active_job_count = λ e. Deque.active_job_count e.deque;
  get_next_arrival_time = λ e. Deque.get_next_arrival_time e.deque;
  can_ever_run = λ e nodes. true;
}

pending-append :
    (q : List JobEntry) (x : JobEntry)
    → x.removed ≡ false
    → pending (q ++ x ∷ []) ≡ pending q ++ x.job_id ∷ []
unfolding pending
pending-append [] x fresh = rw fresh refl
pending-append (j ∷ q) x fresh = ground (arith, pending-append q x fresh)

synced_time :
    (d : Deque) (now : ℕ)
    → d.current_tracked_time ≤ now
    → (sync_to d now).current_tracked_time ≡ now
unfolding sync_to
synced_time d now le = ground (arith, le)

synced_queue : (d : Deque) (now : ℕ) → (sync_to d now).wait_queue ≡ d.wait_queue
unfolding sync_to
synced_queue d now = ground arith

module _ (size submit_of : ℕ → ℕ) where
  -- A well-formed queue whose entries are those of their jobs.
  abbrev pub EasyInv : EasyDeque → ℕ → Type 0
  EasyInv e latest = Inv e.deque × All (IsOf size submit_of latest) e.deque.wait_queue

  pub easy_inserts :
      (e : EasyDeque) (latest job run_time : ℕ)
      → EasyInv e latest
      → latest ≤ submit_of job
      → let e' = easy.insert_job e job (submit_of job) run_time (size job) in
        EasyInv e' (submit_of job)
        × (pending_job_ids e'.deque ≡ pending_job_ids e.deque ++ job ∷ [])
        × (e'.deque.current_tracked_time ≡ e.deque.current_tracked_time)
  unfolding insert_job pending_job_ids
  easy_inserts e latest job run_time (v, all) le = (
    (
      insert_job-Inv e.deque job (submit_of job) run_time (size job) v
          (All-mono e.deque.wait_queue (λ j h. omega (arith, h.2, le)) all),
      All-append (IsOf size submit_of (submit_of job)) e.deque.wait_queue _
          (All-mono e.deque.wait_queue (λ j h. (h.0, h.1, omega (arith, h.2, le))) all)
          ((refl, refl, omega arith), tt),
    ),
    pending-append e.deque.wait_queue _ refl,
    refl,
  )

  pub easy_syncs :
      (e : EasyDeque) (latest now : ℕ)
      → EasyInv e latest
      → e.deque.current_tracked_time ≤ now
      → let e' = easy.sync_to e now in
        EasyInv e' latest
        × (pending_job_ids e'.deque ≡ pending_job_ids e.deque)
        × (e'.deque.current_tracked_time ≡ now)
  unfolding pending_job_ids
  easy_syncs e latest now (v, all) le =
      let same = synced_queue e.deque now in
      (
        (sync_to-Inv e.deque now v, subst (All (IsOf size submit_of latest)) (sym same) all),
        ap pending same,
        synced_time e.deque now le,
      )

  pub easy_schedules :
      (e : EasyDeque) (latest free now : ℕ) (running : RunningJobs)
      → EasyInv e latest
      → e.deque.current_tracked_time ≤ now
      → let r = easy.schedule e free running now in
        EasyInv r.0 latest
        × Perm (pending_job_ids e.deque) (r.1 ++ pending_job_ids r.0.deque)
        × (sum_of size r.1 ≤ free)
        × All (λ j. submit_of j ≤ now) r.1
        × (r.0.deque.current_tracked_time ≡ now)
  unfolding EasyDeque.schedule
  easy_schedules e latest free now running (v, all) le =
      let jobs = (EasyDeque.schedule_entries e free running now).1 in
      let (inv, perm, budget, arrived, tracked) = schedule-Selects e free running now v le in
      let (queue, started) = schedule-KeepsEntries e free running now v size submit_of latest all in
      (
        (inv, queue),
        perm,
        omega (arith, budget, nodes_of size submit_of latest jobs started),
        submits_of size submit_of latest now jobs started arrived,
        tracked,
      )

  pub easy_counts :
      (e : EasyDeque) (latest : ℕ)
      → EasyInv e latest
      → easy.active_job_count e
        ≡ arrived submit_of e.deque.current_tracked_time (pending_job_ids e.deque)
  unfolding pending_job_ids
  easy_counts e latest (v, all) =
      (active_job_count_lem e.deque v).1
      ∙ sym (
          arrived_of_Split size submit_of latest e.deque.current_tracked_time
            e.deque.eligible_end_idx e.deque.wait_queue v.split all)

  pub easy_arrives :
      (e : EasyDeque) (latest : ℕ)
      → EasyInv e latest
      → let next = easy.get_next_arrival_time e in
        let jobs = pending_job_ids e.deque in
        (next ≡ max_time)
        ⊎ ((e.deque.current_tracked_time < next)
            × (ahead submit_of next jobs < ahead submit_of e.deque.current_tracked_time jobs))
  unfolding pending_job_ids get_next_arrival_time
  easy_arrives e latest (v, all) =
      next_of_Split size submit_of latest e.deque.current_tracked_time e.deque.eligible_end_idx
        e.deque.wait_queue v.split all

  pub easy_first :
      (e : EasyDeque) (latest j : ℕ)
      → EasyInv e latest
      → 0 < occurs j (pending_job_ids e.deque)
      → e.deque.current_tracked_time < submit_of j
      → submit_of j < max_time
      → easy.get_next_arrival_time e ≤ submit_of j
  unfolding pending_job_ids get_next_arrival_time
  easy_first e latest j (v, all) there lt finite =
      first_of_Split size submit_of latest e.deque.current_tracked_time e.deque.eligible_end_idx j
        e.deque.wait_queue v.split v.rising all there lt

  -- The FCFS EASY scheduler keeps what the driver relies on.
  abbrev pub easy_contract : Contract easy size submit_of
  easy_contract = record {
    Inv = EasyInv;
    tracked = λ e. e.deque.current_tracked_time;
    pending = λ e. pending_job_ids e.deque;
    inserts = easy_inserts;
    syncs = easy_syncs;
    looks = λ e latest capacity occupied changes v. (v, refl, refl);
    schedules = easy_schedules;
    counts = easy_counts;
    arrives = easy_arrives;
    first = easy_first;
  }
