-- ===== src/Timeline/Free.antt =====
-- The abstract view of a timeline: the free nodes at each time. What a timeline has to satisfy,
-- and what `seek` keeps of it.
use dr_evt.Base.{
  ℕ, ◌≤◌, ◌<◌, ◌≡◌, refl, [], ◌∷◌, arith, leb, if◌then◌else◌, Bool-cases, inl, inr, ltb, ltb→lt,
  ltb→le,
}
use dr_evt.Timeline.{Timeline, seek}

-- The free nodes at time `t`, where `v` are free before the first segment of `l`.
unfoldable pub value_from : ℕ → Timeline → ℕ → ℕ
value_from v [] t = v
value_from v (s ∷ r) t = let later = value_from s.free r t in if leb s.time t then later else v

unfoldable pub free_at : Timeline → ℕ → ℕ
unfolding value_from
free_at [] t = 0
free_at (s ∷ r) t = value_from s.free r t

-- Segments begin at strictly increasing times after `a`.
abbrev pub Ascends : ℕ → Timeline → Type 0
Ascends a [] = Unit {0}
Ascends a (s ∷ r) = (a < s.time) × Ascends s.time r

abbrev pub IsSorted : Timeline → Type 0
IsSorted [] = Unit {0}
IsSorted (s ∷ r) = Ascends s.time r

-- There is a first segment, and it begins at `start` or before.
abbrev pub StartsBy : ℕ → Timeline → Type 0
StartsBy start [] = ⊥
StartsBy start (s ∷ r) = s.time ≤ start

-- The first segment is the one in force at `start`, and the others are sorted.
abbrev pub InForce : ℕ → Timeline → Type 0
InForce start [] = ⊥
InForce start (s ∷ r) = (s.time ≤ start) × Ascends start r

pub value_from_before : (v a t : ℕ) (l : Timeline) → Ascends a l → t ≤ a → value_from v l t ≡ v
unfolding value_from
value_from_before v a t [] asc h = refl
value_from_before v a t (s ∷ r) asc h = ground arith

-- What `seek` returns: the segment in force at `start`, with the same view from there on.
pub record Seeks (start : ℕ) (l l' : Timeline) : Type 0 where
  pub view : (t : ℕ) → start ≤ t → free_at l' t ≡ free_at l t
  pub in_force : InForce start l'

pub Ascends-weaken : (a b : ℕ) (l : Timeline) → a ≤ b → Ascends b l → Ascends a l
Ascends-weaken a b [] le asc = tt
Ascends-weaken a b (s ∷ r) le asc = (omega arith, asc.1)

pub seek-Seeks :
    (start : ℕ) (l : Timeline) → IsSorted l → StartsBy start l → Seeks start l (seek start l)
unfolding seek free_at value_from
seek-Seeks start [] h b = elim b [ ]
seek-Seeks start (s ∷ []) h b = record { view = λ t le. refl; in_force = (b, tt) }
seek-Seeks start (s ∷ u ∷ r) h b = elim (Bool-cases (ltb start u.time)) [
  | inl later ↦ rw later (record { view = λ t le. refl; in_force = (b, (ltb→lt _ _ later, h.1)) })
  | inr passed ↦
      let rest = seek-Seeks start (u ∷ r) h.1 (ltb→le _ _ passed) in
      rw passed (record { view = λ t le. ground (arith, rest.view t le); in_force = rest.in_force })
]
