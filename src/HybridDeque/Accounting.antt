-- ===== src/HybridDeque/Accounting.antt =====
-- The budget through the accounting before a scan.
use dr_evt.Base.{
  ℕ, suc, ◌+◌, ◌-◌, ◌≤◌, ◌≡◌, refl, Bool, true, false, not, ◌&&◌, arith, Bool-cases, inl, inr,
}
use dr_evt.Scheduler.{reservation_within_horizon}
use dr_evt.HybridDeque.{HybridDeque, begin_timestamp, account_head}
use dr_evt.HybridDeque.Backfill.{is_now}
use dr_evt.HybridDeque.Depth.{head_slot, IsBudgeted, used}

-- What a part of a pass at `now` that starts `n` jobs behind the head does to the budget.
pub record Spends (now : ℕ) (e e' : HybridDeque) (n : ℕ) : Type 0 where
  pub inv : IsBudgeted e'
  pub depth : e'.backfill_queue_depth ≡ e.backfill_queue_depth
  pub spent : used e now + n ≤ used e' now

used_new : (e : HybridDeque) (now : ℕ) → is_now now e.backfill_depth_time ≡ false → used e now ≡ 0
unfolding used
used_new e now new = rw new refl

pub used_same :
    (e : HybridDeque) (now : ℕ)
    → is_now now e.backfill_depth_time ≡ true
    → used e now ≡ e.backfill_depth_examined - head_slot e
unfolding used
used_same e now same = rw same refl

pub begin_timestamp-Spends :
    (e : HybridDeque) (now : ℕ) → IsBudgeted e → Spends now e (begin_timestamp e now) 0
unfolding begin_timestamp
begin_timestamp-Spends e now v = elim (Bool-cases (is_now now e.backfill_depth_time)) [
  | inl same ↦ rw same (record { inv = v; depth = refl; spent = omega arith })
  | inr new ↦ rw new (record {
    inv = record { counted = omega arith; within = λ pos. omega arith };
    depth = refl;
    spent = omega (arith, used_new e now new);
  })
]

pub begin_timestamp-time :
    (e : HybridDeque) (now : ℕ) → is_now now (begin_timestamp e now).backfill_depth_time ≡ true
unfolding begin_timestamp is_now
begin_timestamp-time e now = elim (Bool-cases (is_now now e.backfill_depth_time)) [
  | inl same ↦ rw same same
  | inr new ↦ rw new (ground arith)
]

pub account_head-Spends :
    (e : HybridDeque) (reservation now : ℕ)
    → IsBudgeted e
    → is_now now e.backfill_depth_time ≡ true
    → Spends now e (account_head e reservation now) 0
unfolding account_head
account_head-Spends e reservation now v same =
    elim (Bool-cases
      (reservation_within_horizon e.base reservation now && not e.backfill_depth_head_accounted)) [
        | inr kept ↦ rw kept (record { inv = v; depth = refl; spent = omega arith })
        | inl first ↦ rw first (taken (none_before _ _ first))
      ]
  where
    none_before : (a b : Bool) → (a && not b) ≡ true → b ≡ false
    none_before a b h = ground arith

    taken :
        e.backfill_depth_head_accounted ≡ false
        → Spends now e
            (record e {
              backfill_depth_examined = suc e.backfill_depth_examined;
              backfill_depth_head_accounted = true;
            })
            0
    taken fresh =
        let e' : HybridDeque = record e {
          backfill_depth_examined = suc e.backfill_depth_examined;
          backfill_depth_head_accounted = true;
        } in
        let no_slot : head_slot e ≡ 0 = rw fresh refl in
        record {
          inv = record { counted = omega arith; within = λ pos. omega (arith, v.within pos) };
          depth = refl;
          spent = omega (arith, used_same e now same, used_same e' now same);
        }

pub account_head-time :
    (e : HybridDeque) (reservation now : ℕ)
    → (account_head e reservation now).backfill_depth_time ≡ e.backfill_depth_time
unfolding account_head
account_head-time e reservation now =
    elim (Bool-cases
      (reservation_within_horizon e.base reservation now && not e.backfill_depth_head_accounted)) [
        | inr kept ↦ rw kept refl
        | inl first ↦ rw first refl
      ]
