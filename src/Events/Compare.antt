-- ===== src/Events/Compare.antt =====
-- What the comparison of events decides: `operator<` and `operator==` of DR_Event
-- (src/trace/dr_event.hpp), which LESS_OR (src/common.hpp) chains.
use dr_evt.Base.{
  ◌<◌, ◌≡◌, ◌↔◌, refl, ap, true, false, arith, ltb, Bool-cases, ◌⊎◌, inl, inr, ltb→lt,
}
use dr_evt.Events.{
  DrEventKind, departure, node_release, arrival, kind_value, DrEvent, event_lt, event_eq,
}

-- At one time, departures come before releases, and releases before arrivals.
abbrev pub KindBefore : DrEventKind → DrEventKind → Type 0
KindBefore departure departure = ⊥
KindBefore departure node_release = Unit {0}
KindBefore departure arrival = Unit {0}
KindBefore node_release departure = ⊥
KindBefore node_release node_release = ⊥
KindBefore node_release arrival = Unit {0}
KindBefore arrival departure = ⊥
KindBefore arrival node_release = ⊥
KindBefore arrival arrival = ⊥

-- Time decides first, then the kind, then the number of the job.
abbrev pub Precedes : DrEvent → DrEvent → Type 0
Precedes a b =
    (a.time < b.time)
    ⊎ ((a.time ≡ b.time)
        × (KindBefore a.kind b.kind ⊎ ((a.kind ≡ b.kind) × (a.job_idx < b.job_idx))))

-- An event of the same kind, for the same job, at the same time.
abbrev pub IsSame : DrEvent → DrEvent → Type 0
IsSame a b = (a.time ≡ b.time) × (a.kind ≡ b.kind) × (a.job_idx ≡ b.job_idx)

kind_before : (k l : DrEventKind) → (ltb (kind_value k) (kind_value l) ≡ true) ↔ KindBefore k l
kind_before departure departure = (λ h. absurd (cc h), λ h. absurd h)
kind_before departure node_release = (λ h. tt, λ h. refl)
kind_before departure arrival = (λ h. tt, λ h. refl)
kind_before node_release departure = (λ h. absurd (cc h), λ h. absurd h)
kind_before node_release node_release = (λ h. absurd (cc h), λ h. absurd h)
kind_before node_release arrival = (λ h. tt, λ h. refl)
kind_before arrival departure = (λ h. absurd (cc h), λ h. absurd h)
kind_before arrival node_release = (λ h. absurd (cc h), λ h. absurd h)
kind_before arrival arrival = (λ h. absurd (cc h), λ h. absurd h)

kind_same : (k l : DrEventKind) → kind_value k ≡ kind_value l → k ≡ l
kind_same departure departure h = refl
kind_same departure node_release h = absurd (omega (arith, h))
kind_same departure arrival h = absurd (omega (arith, h))
kind_same node_release departure h = absurd (omega (arith, h))
kind_same node_release node_release h = refl
kind_same node_release arrival h = absurd (omega (arith, h))
kind_same arrival departure h = absurd (omega (arith, h))
kind_same arrival node_release h = absurd (omega (arith, h))
kind_same arrival arrival h = refl

module _ (a b : DrEvent) where
  lt→Precedes : event_lt a b ≡ true → Precedes a b
  unfolding event_lt
  lt→Precedes h = elim (Bool-cases (ltb a.time b.time)) [
    | inl earlier ↦ inl (ltb→lt _ _ earlier)
    | inr late ↦ inr (
      ground (arith, h, late),
      elim (Bool-cases (ltb (kind_value a.kind) (kind_value b.kind))) [
        | inl kind ↦ inl ((kind_before a.kind b.kind).0 kind)
        | inr no_kind ↦ inr (
          kind_same a.kind b.kind (ground (arith, h, late, no_kind)),
          ground (arith, h, late, no_kind),
        )
      ],
    )
  ]

  Precedes→lt : Precedes a b → event_lt a b ≡ true
  unfolding event_lt
  Precedes→lt (inl earlier) = ground (arith, earlier)
  Precedes→lt (inr (at, inl kind)) =
      let before = (kind_before a.kind b.kind).1 kind in ground (arith, at, before)
  Precedes→lt (inr (at, inr (kind, number))) =
      let same = ap kind_value kind in ground (arith, at, same, number)

  -- What is pinned of the comparison of two events.
  pub record Compares : Type 0 where
    pub before : (event_lt a b ≡ true) ↔ Precedes a b
    pub same : (event_eq a b ≡ true) ↔ IsSame a b
    pub incomparable : ((event_lt a b ≡ false) × (event_lt b a ≡ false)) ↔ IsSame a b

  eq→IsSame : event_eq a b ≡ true → IsSame a b
  unfolding event_eq
  eq→IsSame h = (ground (arith, h), kind_same a.kind b.kind (ground (arith, h)), ground (arith, h))

  IsSame→eq : IsSame a b → event_eq a b ≡ true
  unfolding event_eq
  IsSame→eq (at, kind, number) = let same = ap kind_value kind in ground (arith, at, same, number)

  incomparable→eq : event_lt a b ≡ false → event_lt b a ≡ false → event_eq a b ≡ true
  unfolding event_lt event_eq
  incomparable→eq h k = ground arith

  IsSame→incomparable : IsSame a b → (event_lt a b ≡ false) × (event_lt b a ≡ false)
  unfolding event_lt
  IsSame→incomparable (at, kind, number) =
      let same = ap kind_value kind in
      (ground (arith, at, same, number), ground (arith, at, same, number))

  -- An event is before another exactly if its time is earlier; or at the same time, if its kind
  -- comes first of departure, release and arrival; or with the kind the same as well, if the
  -- number of its job is smaller. Two events are equal exactly if time, kind and job are the same,
  -- whatever their nodes, and exactly then neither is before the other.
  pub event_lt_lem : Compares
  event_lt_lem = record {
    before = (lt→Precedes, Precedes→lt);
    same = (eq→IsSame, IsSame→eq);
    incomparable = (λ h. eq→IsSame (incomparable→eq h.0 h.1), IsSame→incomparable);
  }
