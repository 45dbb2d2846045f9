-- ===== src/Scheduler/Project/Net.antt =====
-- Sorting and netting the changes: what is due by a time stays the same.
use dr_evt.Base.{
  ℕ, zero, suc, ◌≤◌, ◌<◌, ◌≡◌, refl, sym, ap, ◌∙◌, List, [], ◌∷◌, arith, leb, ◌==◌, true, false,
  if◌then◌else◌, length, Bool-cases, inl, inr, ==_iff, leb→le, leb→lt, lt→leb, le→leb,
}
use dr_evt.Base.Int.{ℤ, pos, ◌+ℤ◌, +ℤ_assoc, +ℤ_zero, +ℤ_left_comm}
use dr_evt.Timeline.Free.{value_from, Ascends}
use dr_evt.Scheduler.{Delta, delta_lt, insert_delta, sort_deltas, net_at, profile_from, clamp}

-- The sum of the changes that are due by time `t`.
unfoldable pub change_by : ℕ → List Delta → ℤ
change_by t [] = pos 0
change_by t (d ∷ ds) = (if leb d.time t then d.change else pos 0) +ℤ change_by t ds

-- Times that do not fall, from `a` on; and the same after `a`.
abbrev pub Ordered : ℕ → List Delta → Type 0
Ordered a [] = Unit {0}
Ordered a (d ∷ ds) = (a ≤ d.time) × Ordered d.time ds

abbrev pub OrderedAfter : ℕ → List Delta → Type 0
OrderedAfter a [] = Unit {0}
OrderedAfter a (d ∷ ds) = (a < d.time) × Ordered d.time ds

insert_change_by :
    (t : ℕ) (d : Delta) (ds : List Delta)
    → change_by t (insert_delta d ds) ≡ (if leb d.time t then d.change else pos 0) +ℤ change_by t ds
unfolding change_by insert_delta
insert_change_by t d [] = refl
insert_change_by t d (e ∷ es) = elim (Bool-cases (delta_lt e d)) [
  | inl before ↦ rw before (ap (◌+ℤ◌ _) (insert_change_by t d es) ∙ +ℤ_left_comm _ _ _)
  | inr here ↦ rw here
]

pub sort_change_by : (t : ℕ) (ds : List Delta) → change_by t (sort_deltas ds) ≡ change_by t ds
unfolding change_by sort_deltas
sort_change_by t [] = refl
sort_change_by t (d ∷ ds) =
    insert_change_by t d (sort_deltas ds) ∙ ap (◌+ℤ◌ _) (sort_change_by t ds)

delta_lt_le : (e d : Delta) → delta_lt e d ≡ true → e.time ≤ d.time
unfolding delta_lt
delta_lt_le e d h = ground arith

delta_lt_ge : (e d : Delta) → delta_lt e d ≡ false → d.time ≤ e.time
unfolding delta_lt
delta_lt_ge e d h = ground arith

insert-Ordered :
    (a : ℕ) (d : Delta) (ds : List Delta)
    → a ≤ d.time
    → Ordered a ds
    → Ordered a (insert_delta d ds)
unfolding insert_delta
insert-Ordered a d [] le o = (le, tt)
insert-Ordered a d (e ∷ es) le o = elim (Bool-cases (delta_lt e d)) [
  | inl before ↦ rw before (o.0, insert-Ordered e.time d es (delta_lt_le e d before) o.1)
  | inr here ↦ rw here (le, (delta_lt_ge e d here, o.1))
]

abbrev pub AllAfter : ℕ → List Delta → Type 0
AllAfter a [] = Unit {0}
AllAfter a (d ∷ ds) = (a < d.time) × AllAfter a ds

insert-AllAfter :
    (a : ℕ) (d : Delta) (ds : List Delta)
    → a < d.time
    → AllAfter a ds
    → AllAfter a (insert_delta d ds)
unfolding insert_delta
insert-AllAfter a d [] lt all = (lt, tt)
insert-AllAfter a d (e ∷ es) lt all = elim (Bool-cases (delta_lt e d)) [
  | inl before ↦ rw before (all.0, insert-AllAfter a d es lt all.1)
  | inr here ↦ rw here (lt, all)
]

sort-Ordered : (ds : List Delta) → Ordered 0 (sort_deltas ds)
unfolding sort_deltas
sort-Ordered [] = tt
sort-Ordered (d ∷ ds) = insert-Ordered 0 d (sort_deltas ds) (omega arith) (sort-Ordered ds)

sort-AllAfter : (a : ℕ) (ds : List Delta) → AllAfter a ds → AllAfter a (sort_deltas ds)
unfolding sort_deltas
sort-AllAfter a [] all = tt
sort-AllAfter a (d ∷ ds) all = insert-AllAfter a d (sort_deltas ds) all.0 (sort-AllAfter a ds all.1)

after_of_parts : (a : ℕ) (ds : List Delta) → AllAfter a ds → Ordered 0 ds → OrderedAfter a ds
after_of_parts a [] all o = tt
after_of_parts a (d ∷ ds) all o = (all.0, o.1)

pub sort-OrderedAfter : (a : ℕ) (ds : List Delta) → AllAfter a ds → OrderedAfter a (sort_deltas ds)
sort-OrderedAfter a ds all =
    after_of_parts a (sort_deltas ds) (sort-AllAfter a ds all) (sort-Ordered ds)

change_by_before : (a t : ℕ) (ds : List Delta) → Ordered a ds → t < a → change_by t ds ≡ pos 0
unfolding change_by
change_by_before a t [] o lt = refl
change_by_before a t (d ∷ ds) o lt =
    rw (lt→leb d.time t (omega arith), change_by_before d.time t ds o.1 (omega arith), +ℤ_zero)

-- One round of the outer loop.
pub record Nets (time : ℕ) (acc : ℤ) (ds : List Delta) (r : ℤ × List Delta) : Type 0 where
  pub due : (t : ℕ) → time ≤ t → acc +ℤ change_by t ds ≡ r.0 +ℤ change_by t r.1
  pub ordered : OrderedAfter time r.1
  pub shorter : length r.1 ≤ length ds

net_at-Nets :
    (time : ℕ) (acc : ℤ) (ds : List Delta) → Ordered time ds → Nets time acc ds (net_at time acc ds)
unfolding net_at change_by
net_at-Nets time acc [] o = record { due = λ t le. refl; ordered = tt; shorter = omega arith }
net_at-Nets time acc (d ∷ ds) o = elim (Bool-cases (d.time == time)) [
  | inl same ↦
      let here : d.time ≡ time = (==_iff _ _).0 same in
      let rest = net_at-Nets time (acc +ℤ d.change) ds (rw here at o.1) in
      rw same (record {
        due = λ t le.
            rw (le→leb d.time t (omega arith))
              (sym (+ℤ_assoc acc d.change (change_by t ds)) ∙ rest.due t le);
        ordered = rest.ordered;
        shorter = omega (arith, rest.shorter);
      })
  | inr other ↦
      rw other (record { due = λ t le. refl; ordered = (ground arith, o.1); shorter = omega arith })
]

pub profile_view :
    (fuel : ℕ) (balance : ℤ) (ds : List Delta) (a t : ℕ)
    → length ds ≤ fuel
    → OrderedAfter a ds
    → value_from (clamp balance) (profile_from fuel balance ds) t
      ≡ clamp (balance +ℤ change_by t ds)
unfolding profile_from change_by value_from
profile_view zero balance [] a t enough o = ap clamp (sym (+ℤ_zero balance))
profile_view zero balance (d ∷ ds) a t enough o = absurd (omega arith)
profile_view (suc fuel) balance [] a t enough o = ap clamp (sym (+ℤ_zero balance))
profile_view (suc fuel) balance (d ∷ ds) a t enough o =
    let nets = net_at-Nets d.time d.change ds o.1 in
    elim (Bool-cases (leb d.time t)) [
      | inl due ↦ rw due (
          profile_view fuel (balance +ℤ (net_at d.time d.change ds).0) (net_at d.time d.change ds).1
            d.time t (omega (arith, nets.shorter)) nets.ordered
          ∙ ap clamp (
              +ℤ_assoc balance (net_at d.time d.change ds).0 _
              ∙ ap (◌+ℤ◌ balance) (sym (nets.due t (leb→le _ _ due)))))
      | inr early ↦ rw early (
          ap clamp (
            sym (
              ap (λ (z : ℤ). balance +ℤ (pos 0 +ℤ z))
                (change_by_before d.time t ds o.1 (leb→lt _ _ early))
              ∙ ap (◌+ℤ◌ balance) (+ℤ_zero (pos 0))
              ∙ +ℤ_zero balance)))
    ]

pub profile-Ascends :
    (fuel : ℕ) (balance : ℤ) (ds : List Delta) (a : ℕ)
    → OrderedAfter a ds
    → Ascends a (profile_from fuel balance ds)
unfolding profile_from
profile-Ascends zero balance ds a o = tt
profile-Ascends (suc fuel) balance [] a o = tt
profile-Ascends (suc fuel) balance (d ∷ ds) a o =
    let nets = net_at-Nets d.time d.change ds o.1 in
    (o.0, profile-Ascends fuel _ (net_at d.time d.change ds).1 d.time nets.ordered)
