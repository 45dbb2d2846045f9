-- ===== src/Trace/Store.antt =====
-- The lookup by job number (`job_at`, src/trace/trace.cpp) through the writes to the job store.
use dr_evt.Base.{
  ℕ, zero, suc, ◌-◌, ◌≤◌, ◌<◌, ◌≡◌, ◌≢◌, refl, sym, ◌∙◌, ap, Option, none, some, List, [], ◌∷◌,
  arith, ltb, get_elem?, set, Bool-cases, inl, inr, ltb→lt, ltb→le, lt→ltb, le→ltb,
}
use dr_evt.Base.Results.{ok, throw, runtime_error}
use dr_evt.Trace.{JobRecord, JobStore, found, job_at, set_job}

-- The store has the record under the number.
abbrev pub Has : JobStore → ℕ → JobRecord → Type 0
Has s j r = job_at s j ≡ ok r

found-some : (o : Option JobRecord) (r : JobRecord) → found o ≡ ok r → o ≡ some r
unfolding found
found-some none r h = cc
found-some (some x) r h = cc

job_at-gone : (s : JobStore) (j : ℕ) → j < s.num_reclaimed → job_at s j ≡ throw runtime_error
unfolding job_at
job_at-gone s j lt = rw (lt→ltb _ _ lt) refl

job_at-here :
    (s : JobStore) (j : ℕ)
    → s.num_reclaimed ≤ j
    → job_at s j ≡ found (get_elem? s.records (j - s.num_reclaimed))
unfolding job_at
job_at-here s j le = rw (le→ltb _ _ le) refl

-- A record stands at the difference of its number and the number of records reclaimed.
pub Has-index :
    (s : JobStore) (j : ℕ) (r : JobRecord)
    → Has s j r
    → (s.num_reclaimed ≤ j) × (get_elem? s.records (j - s.num_reclaimed) ≡ some r)
Has-index s j r h = elim (Bool-cases (ltb j s.num_reclaimed)) [
  | inl gone ↦ absurd (cc (h, job_at-gone s j (ltb→lt _ _ gone)))
  | inr here ↦ (ltb→le _ _ here, found-some _ r (sym (job_at-here s j (ltb→le _ _ here)) ∙ h))
]

pub index-Has :
    (s : JobStore) (j : ℕ) (r : JobRecord)
    → s.num_reclaimed ≤ j
    → get_elem? s.records (j - s.num_reclaimed) ≡ some r
    → Has s j r
unfolding found
index-Has s j r le h = job_at-here s j le ∙ ap found h

get_elem?-set :
    (xs : List JobRecord) (i : ℕ) (r x : JobRecord)
    → get_elem? xs i ≡ some x
    → get_elem? (set xs i r) i ≡ some r
get_elem?-set [] i r x h = cc
get_elem?-set (y ∷ xs) zero r x h = refl
get_elem?-set (y ∷ xs) (suc i) r x h = get_elem?-set xs i r x h

get_elem?-set_other :
    (xs : List JobRecord) (i k : ℕ) (r : JobRecord)
    → i ≢ k
    → get_elem? (set xs i r) k ≡ get_elem? xs k
get_elem?-set_other [] i k r ne = refl
get_elem?-set_other (y ∷ xs) zero zero r ne = absurd (ne refl)
get_elem?-set_other (y ∷ xs) zero (suc k) r ne = refl
get_elem?-set_other (y ∷ xs) (suc i) zero r ne = refl
get_elem?-set_other (y ∷ xs) (suc i) (suc k) r ne =
    get_elem?-set_other xs i k r (λ e. ne (ap suc e))

-- A write is found under its number.
pub set_job-Has : (s : JobStore) (j : ℕ) (r x : JobRecord) → Has s j x → Has (set_job s j r) j r
unfolding set_job
set_job-Has s j r x h =
    let (le, at) = Has-index s j x h in
    index-Has _ j r le (get_elem?-set s.records (j - s.num_reclaimed) r x at)

-- It changes no other record.
pub set_job-other :
    (s : JobStore) (j k : ℕ) (r x y : JobRecord)
    → Has s j x
    → j ≢ k
    → Has s k y
    → Has (set_job s j r) k y
unfolding set_job
set_job-other s j k r x y h ne g =
    let (le, at) = Has-index s j x h in
    let (le', at') = Has-index s k y g in
    index-Has _ k y le' (
      get_elem?-set_other s.records (j - s.num_reclaimed) (k - s.num_reclaimed) r
        (λ e. ne (omega (arith, e)))
      ∙ at')

pub set_job-back :
    (s : JobStore) (j k : ℕ) (r x y : JobRecord)
    → Has s j x
    → j ≢ k
    → Has (set_job s j r) k y
    → Has s k y
unfolding set_job
set_job-back s j k r x y h ne g =
    let (le, at) = Has-index s j x h in
    let (le', at') = Has-index (set_job s j r) k y g in
    index-Has s k y le' (
      sym (
        get_elem?-set_other s.records (j - s.num_reclaimed) (k - s.num_reclaimed) r
          (λ e. ne (omega (arith, e))))
      ∙ at')

pub Has-unique : (s : JobStore) (j : ℕ) (r x : JobRecord) → Has s j r → Has s j x → r ≡ x
Has-unique s j r x h g = cc
