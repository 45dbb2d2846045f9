-- ===== src/Timeline/Fit/Scan.antt =====
-- The two inner loops of `earliest_fit`, against the view of the timeline.
use dr_evt.Base.{
  ℕ, ◌≤◌, ◌<◌, ◌≡◌, ◌⊎◌, inl, inr, [], ◌∷◌, arith, leb, ltb, ◌&&◌, true, false, length, Bool-cases,
  ltb→lt, ltb→le,
}
use dr_evt.Timeline.{Segment, Timeline, scan_fitting, skip_short}
use dr_evt.Timeline.Free.{value_from, Ascends}

-- The suffix `t ∷ u` of `l`: the same view from `t` on.
pub record Tail (v a : ℕ) (l : Timeline) (t : Segment) (u : Timeline) : Type 0 where
  pub view : (x : ℕ) → t.time ≤ x → value_from v l x ≡ value_from t.free u x
  pub after : a < t.time
  pub sorted : Ascends t.time u
  pub shorter : length u < length l

Tail-here : (v a : ℕ) (s : Segment) (r : Timeline) → Ascends a (s ∷ r) → Tail v a (s ∷ r) s r
unfolding value_from
Tail-here v a s r asc = record {
  view = λ x le. ground arith;
  after = asc.0;
  sorted = asc.1;
  shorter = omega arith;
}

Tail-next :
    {t : Segment} {u : Timeline} (v a : ℕ) (s : Segment) (r : Timeline)
    → a < s.time
    → Tail s.free s.time r t u
    → Tail v a (s ∷ r) t u
unfolding value_from
Tail-next v a s r h tail = record {
  view = λ x le. ground (arith, tail.view x le, tail.after);
  after = omega (arith, tail.after);
  sorted = tail.sorted;
  shorter = omega (arith, tail.shorter);
}

-- Before the position `l'` too few nodes are free, and at it there are enough.
abbrev pub Skips : ℕ → ℕ → ℕ → Timeline → Timeline → Type 0
Skips v a nodes l [] = (x : ℕ) → value_from v l x < nodes
Skips v a nodes l (t ∷ u) =
    Tail v a l t u × (nodes ≤ t.free) × ((x : ℕ) → x < t.time → value_from v l x < nodes)

Skips-next :
    (v a nodes : ℕ) (s : Segment) (r l' : Timeline)
    → v < nodes
    → a < s.time
    → Skips s.free s.time nodes r l'
    → Skips v a nodes (s ∷ r) l'
unfolding value_from
Skips-next v a nodes s r [] short h k = λ x. ground (arith, k x)
Skips-next v a nodes s r (t ∷ u) short h k =
    (Tail-next v a s r h k.0, k.1, λ x lt. ground (arith, k.2 x lt))

pub skip_short-Skips :
    (v a nodes : ℕ) (l : Timeline)
    → v < nodes
    → Ascends a l
    → Skips v a nodes l (skip_short nodes l)
unfolding skip_short value_from
skip_short-Skips v a nodes [] short asc = λ x. short
skip_short-Skips v a nodes (s ∷ r) short asc = elim (Bool-cases (ltb s.free nodes)) [
  | inl few ↦ rw few (
      Skips-next v a nodes s r (skip_short nodes r) short asc.0
        (skip_short-Skips s.free s.time nodes r (ltb→lt _ _ few) asc.1))
  | inr enough ↦ rw enough (Tail-here v a s r asc, ltb→le _ _ enough, λ x lt. ground (arith, short))
]

-- Before the position `l'` enough nodes are free, and at it the interval ends or too few are free.
abbrev pub Scans : ℕ → ℕ → ℕ → ℕ → Timeline → Timeline → Type 0
Scans v a nodes finish l [] = (x : ℕ) → nodes ≤ value_from v l x
Scans v a nodes finish l (t ∷ u) =
    Tail v a l t u
    × ((finish ≤ t.time) ⊎ (t.free < nodes))
    × ((x : ℕ) → x < t.time → nodes ≤ value_from v l x)

Scans-next :
    (v a nodes finish : ℕ) (s : Segment) (r l' : Timeline)
    → nodes ≤ v
    → a < s.time
    → Scans s.free s.time nodes finish r l'
    → Scans v a nodes finish (s ∷ r) l'
unfolding value_from
Scans-next v a nodes finish s r [] enough h k = λ x. ground (arith, k x)
Scans-next v a nodes finish s r (t ∷ u) enough h k =
    (Tail-next v a s r h k.0, k.1, λ x lt. ground (arith, k.2 x lt))

stop_reason : (a b c d : ℕ) → (ltb a b && leb c d) ≡ false → (b ≤ a) ⊎ (d < c)
stop_reason a b c d h = ground arith

pass_reason : (a b c d : ℕ) → (ltb a b && leb c d) ≡ true → c ≤ d
pass_reason a b c d h = ground arith

pub scan_fitting-Scans :
    (v a nodes finish : ℕ) (l : Timeline)
    → nodes ≤ v
    → Ascends a l
    → Scans v a nodes finish l (scan_fitting nodes finish l)
unfolding scan_fitting value_from
scan_fitting-Scans v a nodes finish [] enough asc = λ x. enough
scan_fitting-Scans v a nodes finish (s ∷ r) enough asc =
    elim (Bool-cases (ltb s.time finish && leb nodes s.free)) [
      | inl pass ↦ rw pass (
          Scans-next v a nodes finish s r (scan_fitting nodes finish r) enough asc.0
            (scan_fitting-Scans s.free s.time nodes finish r (pass_reason _ _ _ _ pass) asc.1))
      | inr stop ↦
          rw stop (Tail-here v a s r asc, stop_reason _ _ _ _ stop, λ x lt. ground (arith, enough))
    ]
