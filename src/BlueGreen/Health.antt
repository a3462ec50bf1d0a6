-- ===== src/BlueGreen/Health.antt =====
-- Proofs about the attempts of the health checks.
use confiture.Base.{
  map, ap, ap₂, sym, refl, ◌∙◌, ◌&&◌, ℕ, zero, suc, ◌+◌, ◌≤◌, ◌<◌, ◌≡◌, ◌⊎◌, Bool, true, false,
  ◌||◌, List, [], ◌∷◌, ◌++◌, allb, inl, inr, Bool-cases, arith,
}
use confiture.Base.Exec.{Outcome, ok, err}
use confiture.BlueGreen.{Problem, MigrationPhase, traffic_switching, HealthCheck, HealthCheckResult}
use confiture.BlueGreen.Steps.{noted, run_check, run_attempt, attempts}

abbrev pub all_passed : List HealthCheckResult → Bool
all_passed results = allb (λ r. r.passed) results

-- The results are those of the first attempt, from `attempt` on, that passes, or of the last one.
attempts_lem :
    (checks : List HealthCheck) (k attempt : ℕ) (results : List HealthCheckResult)
    → (a : ℕ) × (attempt ≤ a)
      × (a ≤ attempt + k)
      × (attempts checks (suc k) attempt results ≡ run_attempt checks a)
      × ((b : ℕ) → attempt ≤ b → b < a → all_passed (run_attempt checks b) ≡ false)
      × ((all_passed (run_attempt checks a) ≡ true) ⊎ (a ≡ attempt + k))
unfolding attempts
attempts_lem checks zero attempt results = (
  attempt,
  omega arith,
  omega arith,
  elim (Bool-cases (all_passed (run_attempt checks attempt))) [ inl e ↦ rw e | inr e ↦ rw e ],
  λ b h k. absurd (omega arith),
  inr (omega arith),
)
attempts_lem checks (suc k) attempt results =
    elim (Bool-cases (all_passed (run_attempt checks attempt))) [
      | inl e ↦ (attempt, omega arith, omega arith, rw e, λ b h k. absurd (omega arith), inl e)
      | inr e ↦
          let (a, low, high, same, before, last) =
            attempts_lem checks k (attempt + 1) (run_attempt checks attempt) in
          (
            a,
            omega arith,
            omega arith,
            rw e same,
            λ b h k. elim (earlier attempt b h) [
              | inl at_first ↦ rw (← at_first) e
              | inr later ↦ before b later k
            ],
            elim last [ inl p ↦ inl p | inr p ↦ inr (omega arith) ],
          )
    ]
  where
    earlier : (x b : ℕ) → x ≤ b → (x ≡ b) ⊎ (x + 1 ≤ b)
    earlier x b h = ground arith

-- The results of some attempt count: the first that passes, or the last one.
pub counted_attempt :
    (checks : List HealthCheck) (k : ℕ)
    → (a : ℕ) × (a ≤ k)
      × (attempts checks (suc k) 0 [] ≡ run_attempt checks a)
      × ((b : ℕ) → b < a → all_passed (run_attempt checks b) ≡ false)
      × ((all_passed (run_attempt checks a) ≡ true) ⊎ (a ≡ k))
counted_attempt checks k =
    let (a, low, high, same, before, last) = attempts_lem checks k 0 [] in
    (
      a,
      omega arith,
      same,
      λ b h. before b (omega arith) h,
      elim last [ inl p ↦ inl p | inr p ↦ inr (omega arith) ],
    )

-- The check answered, and answered true.
abbrev pub has_answered_true : Outcome Problem Bool → Bool
has_answered_true (ok b) = b
has_answered_true (err e) = false

-- In an attempt, the checks are made in their order, and which of them passed.
abbrev pub answers : List HealthCheck → ℕ → List Bool
answers checks a = map (λ h. has_answered_true (h.check a)) checks

abbrev pub is_passed : List HealthCheckResult → List Bool
is_passed results = map (λ r. r.passed) results

answered : (h : HealthCheck) (a : ℕ) → (run_check a h).passed ≡ has_answered_true (h.check a)
unfolding run_check
answered h a = go (h.check a)
  where
    go : (o : Outcome Problem Bool) → (noted h o).passed ≡ has_answered_true o
    go (ok b) = refl
    go (err p) = refl

passed_of :
    (checks : List HealthCheck) (a : ℕ) → is_passed (run_attempt checks a) ≡ answers checks a
unfolding run_attempt
passed_of [] a = refl
passed_of (h ∷ checks) a = ap₂ (λ b bs. b ∷ bs) (answered h a) (passed_of checks a)

all_answered :
    (checks : List HealthCheck) (a : ℕ)
    → all_passed (run_attempt checks a) ≡ allb (λ h. has_answered_true (h.check a)) checks
unfolding run_attempt
all_answered [] a = refl
all_answered (h ∷ checks) a = ap₂ (λ b c. b && c) (answered h a) (all_answered checks a)

-- With at least one attempt allowed, the checks that count are those of the first attempt in which
-- every check answers true, or of the last attempt if there is none: the results tell of each check
-- whether it answered true then. A check that raises has not passed.
pub health_attempts :
    (checks : List HealthCheck) (k : ℕ)
    → (a : ℕ) × (a ≤ k)
      × (is_passed (attempts checks (suc k) 0 []) ≡ answers checks a)
      × ((b : ℕ) → b < a → allb (λ h. has_answered_true (h.check b)) checks ≡ false)
      × ((allb (λ h. has_answered_true (h.check a)) checks ≡ true) ⊎ (a ≡ k))
health_attempts checks k =
    let (a, high, same, before, last) = counted_attempt checks k in
    (
      a,
      high,
      ap is_passed same ∙ passed_of checks a,
      λ b h. sym (all_answered checks b) ∙ before b h,
      elim last [ inl p ↦ inl (sym (all_answered checks a) ∙ p) | inr p ↦ inr p ],
    )

abbrev pub is_switching : MigrationPhase → Bool
is_switching traffic_switching = true
is_switching _ = false

-- Some change led to the switch of the traffic.
abbrev pub has_switched : List (MigrationPhase × MigrationPhase) → Bool
has_switched [] = false
has_switched ((p, q) ∷ rest) = is_switching q || has_switched rest

pub has_switched-snoc :
    (l : List (MigrationPhase × MigrationPhase)) (p q : MigrationPhase)
    → has_switched l ≡ false
    → is_switching q ≡ false
    → has_switched (l ++ ((p, q) ∷ [])) ≡ false
has_switched-snoc [] p q h k = rw k
has_switched-snoc ((a, b) ∷ rest) p q h k = ground (arith, has_switched-snoc rest p q)
