-- ===== src/Events/Order.antt =====
-- The order of the events, and what an insertion does to a queue in this order.
use dr_evt.Base.{
  ℕ, ◌+◌, ◌≤◌, ◌<◌, ◌≡◌, refl, true, false, [], ◌∷◌, arith, All, All-mono, Bool-cases, inl, inr,
  ◌==◌, if◌then◌else◌,
}
use dr_evt.Events.{DrEvent, EventQueue, event_lt, event_eq, insert}

-- Every event is before those behind it.
abbrev pub Ordered : EventQueue → Type 0
Ordered [] = Unit {0}
Ordered (x ∷ q) = All (λ y. event_lt x y ≡ true) q × Ordered q

pub event_lt_trans :
    (a b c : DrEvent) → event_lt a b ≡ true → event_lt b c ≡ true → event_lt a c ≡ true
unfolding event_lt
event_lt_trans a b c h k = ground arith

pub event_lt-connex :
    (a b : DrEvent) → event_lt a b ≡ false → event_lt b a ≡ false → event_eq a b ≡ true
unfolding event_lt event_eq
event_lt-connex a b h k = ground arith

pub event_lt-time : (a b : DrEvent) → event_lt a b ≡ true → a.time ≤ b.time
unfolding event_lt
event_lt-time a b h = ground arith

pub insert-All :
    (P : DrEvent → Type 0) (e : DrEvent) (q : EventQueue) → P e → All P q → All P (insert e q)
unfolding insert
insert-All P e [] p all = (p, tt)
insert-All P e (x ∷ q) p all = elim (Bool-cases (event_lt x e)) [
  | inl before ↦ rw before (all.0, insert-All P e q p all.1)
  | inr no_before ↦ elim (Bool-cases (event_lt e x)) [
    | inl behind ↦ rw (no_before, behind) (p, all)
    | inr same ↦ rw (no_before, same) all
  ]
]

before_all :
    (e x : DrEvent) (q : EventQueue)
    → event_lt e x ≡ true
    → All (λ y. event_lt x y ≡ true) q
    → All (λ y. event_lt e y ≡ true) q
before_all e x q lt all = All-mono q (λ y h. event_lt_trans e x y lt h) all

-- An insertion keeps the queue in order.
pub insert-Ordered : (e : DrEvent) (q : EventQueue) → Ordered q → Ordered (insert e q)
unfolding insert
insert-Ordered e [] o = (tt, tt)
insert-Ordered e (x ∷ q) o = elim (Bool-cases (event_lt x e)) [
  | inl before ↦
      rw before (insert-All (λ y. event_lt x y ≡ true) e q before o.0, insert-Ordered e q o.1)
  | inr no_before ↦ elim (Bool-cases (event_lt e x)) [
    | inl behind ↦ rw (no_before, behind) ((behind, before_all e x q behind o.0), o)
    | inr same ↦ rw (no_before, same) o
  ]
]

-- The sum of a weight over the queue.
abbrev pub total : (DrEvent → ℕ) → EventQueue → ℕ
total f [] = 0
total f (x ∷ q) = f x + total f q

-- No entry has the identity of the event.
abbrev pub Fresh : DrEvent → EventQueue → Type 0
Fresh e q = All (λ x. event_eq x e ≡ false) q

-- An insertion adds the event once, if no entry has its identity.
pub total-insert :
    (f : DrEvent → ℕ) (e : DrEvent) (q : EventQueue)
    → Fresh e q
    → total f (insert e q) ≡ f e + total f q
unfolding insert
total-insert f e [] fresh = refl
total-insert f e (x ∷ q) fresh = elim (Bool-cases (event_lt x e)) [
  | inl before ↦ rw before (omega (arith, total-insert f e q fresh.1))
  | inr no_before ↦ elim (Bool-cases (event_lt e x)) [
    | inl behind ↦ rw (no_before, behind) refl
    | inr same ↦ absurd (cc (event_lt-connex x e no_before same, fresh.0))
  ]
]

-- The events of a job.
abbrev pub about : ℕ → DrEvent → ℕ
about j e = if e.job_idx == j then 1 else 0

-- An event of a job that the queue knows nothing of is new to it.
pub absent-Fresh : (e : DrEvent) (q : EventQueue) → total (about e.job_idx) q ≡ 0 → Fresh e q
unfolding event_eq
absent-Fresh e [] h = tt
absent-Fresh e (x ∷ q) h = elim (Bool-cases (x.job_idx == e.job_idx)) [
  | inl same ↦ absurd (ground (arith, h, same))
  | inr other ↦ (rw other refl, absent-Fresh e q (omega (arith, h)))
]

-- Nothing at or before a time is left when the front of the queue is later.
pub drained_later :
    (n : ℕ) (x : DrEvent) (q : EventQueue)
    → Ordered (x ∷ q)
    → n < x.time
    → All (λ y. n < y.time) (x ∷ q)
drained_later n x q o lt = (lt, All-mono q (λ y h. omega (arith, event_lt-time x y h)) o.0)

pub front_first : (x : DrEvent) (q : EventQueue) → Ordered (x ∷ q) → All (λ y. x.time ≤ y.time) q
front_first x q o = All-mono q (λ y h. event_lt-time x y h) o.0
