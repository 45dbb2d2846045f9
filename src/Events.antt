-- ===== src/Events.antt =====
-- Resource events and their queue: DR_Event_Kind (src/dr_evt_types.hpp), DR_Event and event_q_t
-- (src/trace/dr_event.hpp), LESS_OR (src/common.hpp). A `std::set` is its entries in order.
pub mod Order
pub mod Compare
use dr_evt.Base.{ℕ, Bool, true, false, ◌&&◌, ◌||◌, List, [], ◌∷◌, ltb, ◌==◌, if◌then◌else◌}

pub data DrEventKind : Type 0 where
  departure node_release arrival : DrEventKind

-- The underlying values, which `<` compares.
abbrev pub kind_value : DrEventKind → ℕ
kind_value departure = 0
kind_value node_release = 1
kind_value arrival = 2

pub record DrEvent : Type 0 where
  pub job_idx : ℕ
  pub time : ℕ
  pub nodes : ℕ
  pub kind : DrEventKind

unfoldable pub make_event : ℕ → ℕ → DrEventKind → DrEvent
make_event idx t kind = record { job_idx = idx; time = t; nodes = 0; kind = kind }

unfoldable pub release : ℕ → ℕ → ℕ → DrEvent
unfolding make_event
release idx t nodes = record (make_event idx t node_release) { nodes = nodes }

abbrev pub is_arrival : DrEvent → Bool
is_arrival e = kind_value e.kind == 2

abbrev pub is_departure : DrEvent → Bool
is_departure e = kind_value e.kind == 0

abbrev pub is_release : DrEvent → Bool
is_release e = kind_value e.kind == 1

-- `operator<`.
unfoldable pub event_lt : DrEvent → DrEvent → Bool
event_lt a b =
    ltb a.time b.time
    || a.time == b.time
      && (ltb (kind_value a.kind) (kind_value b.kind)
          || kind_value a.kind == kind_value b.kind && ltb a.job_idx b.job_idx)

-- `operator==`.
unfoldable pub event_eq : DrEvent → DrEvent → Bool
event_eq a b =
    a.job_idx == b.job_idx && (kind_value a.kind == kind_value b.kind && a.time == b.time)

abbrev pub EventQueue : Type 0
EventQueue = List DrEvent

-- `insert` and `emplace` of the set: an event that is neither before nor behind an entry is not
-- inserted.
unfoldable pub insert : DrEvent → EventQueue → EventQueue
insert e [] = e ∷ []
insert e (x ∷ q) =
    let rest = insert e q in
    if event_lt x e then x ∷ rest else if event_lt e x then e ∷ x ∷ q else x ∷ q
