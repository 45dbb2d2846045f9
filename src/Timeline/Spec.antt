-- ===== src/Timeline/Spec.antt =====
-- What a search for a free interval promises, in terms of the view alone.
use dr_evt.Base.{ℕ, ◌+◌, ◌≤◌, ◌<◌, Option, none, some}
use dr_evt.Timeline.{Timeline}
use dr_evt.Timeline.Free.{free_at}

-- At least `nodes` are free throughout [x, x + duration).
abbrev pub Fits : Timeline → ℕ → ℕ → ℕ → Type 0
Fits l nodes duration x = (t : ℕ) → x ≤ t → t < x + duration → nodes ≤ free_at l t

-- At some time of [x, x + duration) fewer than `nodes` are free.
abbrev pub Blocked : Timeline → ℕ → ℕ → ℕ → Type 0
Blocked l nodes duration x = (t : ℕ) × (x ≤ t) × (t < x + duration) × (free_at l t < nodes)

-- The result is the earliest start from `start` on whose interval fits, or none fits.
abbrev pub IsEarliest : Timeline → ℕ → ℕ → ℕ → Option ℕ → Type 0
IsEarliest l nodes duration start none = (x : ℕ) → start ≤ x → Blocked l nodes duration x
IsEarliest l nodes duration start (some y) =
    (start ≤ y)
    × Fits l nodes duration y
    × ((x : ℕ) → start ≤ x → x < y → Blocked l nodes duration x)
