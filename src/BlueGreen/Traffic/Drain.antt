-- ===== src/BlueGreen/Traffic/Drain.antt =====
-- Proofs about the loops of `drain_connections` and `terminate_connections`.
use confiture.Base.{
  ℕ, zero, suc, ◌+◌, ◌≤◌, ◌<◌, ◌≡◌, refl, Bool, true, false, not, some, List, filterb, null, ltb,
  ltb→lt, Bool-cases, inl, inr, ◌⊎◌, arith,
}
use confiture.Base.Text.{Text}
use confiture.Base.Exec.{Outcome, ok, err, Exec}
use confiture.Base.Triple.{Triple}
use confiture.BlueGreen.{Problem}
use confiture.BlueGreen.Traffic.{Activity, Services, drain_connections, waiting, is_excluded}

module _ (elapsed : ℕ → ℕ) (active : ℕ → Outcome Problem (List Activity)) (timeout : ℕ)
    (apps : List Text) where
  -- The query of a test finds no connection to wait for.
  abbrev pub FindsNone : ℕ → Type 0
  FindsNone n = (found : List Activity) × (active n ≡ ok found) × (null (waiting apps found) ≡ true)

  -- It finds some.
  abbrev pub FindsSome : ℕ → Type 0
  FindsSome n =
      (found : List Activity) × (active n ≡ ok found) × (null (waiting apps found) ≡ false)

  -- All tests from `n` to before `m` are in time and find connections.
  abbrev pub Waits : ℕ → ℕ → Type 0
  Waits n m = (i : ℕ) → n ≤ i → i < m → (elapsed i < timeout) × FindsSome i

  -- How the tests from number `n` on end: which of them is the last one.
  abbrev pub Meaning : ℕ → Outcome Problem Bool → Type 0
  Meaning n (ok true) = (m : ℕ) × (n ≤ m) × (elapsed m < timeout) × FindsNone m × Waits n m
  Meaning n (ok false) = (m : ℕ) × (n ≤ m) × (timeout ≤ elapsed m) × Waits n m
  Meaning n (err e) = (m : ℕ) × (n ≤ m) × (elapsed m < timeout) × (active m ≡ err e) × Waits n m

  Drained : ℕ → ℕ → Type 0
  Drained fuel n =
      (o : Outcome Problem Bool) × (drain_connections elapsed active timeout apps fuel n ≡ some o)
      × Meaning n o

  Waits-too : (n m : ℕ) → (elapsed n < timeout) × FindsSome n → Waits (n + 1) m → Waits n m
  Waits-too n m h k i low high = elim (first n i low) [
    | inl same ↦ rw (← same) h
    | inr next ↦ k i next high
  ]
    where
      first : (n i : ℕ) → n ≤ i → (n ≡ i) ⊎ (n + 1 ≤ i)
      first n i h = ground arith

  later :
      (n : ℕ) (o : Outcome Problem Bool)
      → (elapsed n < timeout) × FindsSome n
      → Meaning (n + 1) o
      → Meaning n o
  later n (ok true) h (m, low, soon, here, before) =
      (m, omega arith, soon, here, Waits-too n m h before)
  later n (ok false) h (m, low, late, before) = (m, omega arith, late, Waits-too n m h before)
  later n (err e) h (m, low, soon, raised, before) =
      (m, omega arith, soon, raised, Waits-too n m h before)

  none_before : (n : ℕ) → Waits n n
  none_before n i low high = absurd (omega arith)

  -- A test in time, by what its query answers.
  in_time :
      (fuel n : ℕ)
      → ltb (elapsed n) timeout ≡ true
      → (answer : Outcome Problem (List Activity)) → active n ≡ answer
      → Drained fuel (n + 1)
      → Drained (suc fuel) n
  unfolding Drained drain_connections
  in_time fuel n e (err problem) h rest = (
    err problem,
    rw (e, h) refl,
    (n, omega arith, ltb→lt (elapsed n) timeout e, h, none_before n),
  )
  in_time fuel n e (ok found) h (o, run, meaning) =
      let soon : elapsed n < timeout = ltb→lt (elapsed n) timeout e in
      elim (Bool-cases (null (waiting apps found))) [
        | inl f ↦ (ok true, rw (e, h, f) refl, (n, omega arith, soon, (found, h, f), none_before n))
        | inr f ↦ (o, rw (e, h, f) run, later n o (soon, (found, h, f)) meaning)
      ]

  drain_from :
      ((n : ℕ) → elapsed n < elapsed (n + 1))
      → (fuel n : ℕ) → 0 < fuel
      → timeout < elapsed n + fuel
      → Drained fuel n
  unfolding Drained drain_connections
  drain_from grows zero n some_fuel h = absurd (omega arith)
  drain_from grows (suc fuel) n some_fuel h = elim (Bool-cases (ltb (elapsed n) timeout)) [
    | inr e ↦ (ok false, rw e refl, (n, omega arith, late (elapsed n) timeout e, none_before n))
    | inl e ↦
        let soon : elapsed n < timeout = ltb→lt (elapsed n) timeout e in
        in_time fuel n e (active n) refl
          (drain_from grows fuel (n + 1) (omega arith) (omega (arith, grows n)))
  ]
    where
      late : (a b : ℕ) → ltb a b ≡ false → b ≤ a
      late a b h = ground arith

-- If time passes between two tests of the loop, draining ends after at most one test more than the
-- timeout has units, with an answer or with an exception. It answers true if the query of a test in
-- time found no connection to wait for, and false if the timeout had passed at a test; it raises
-- what the query of a test in time raised. Every test before that one was in time, and its query
-- answered with connections to wait for.
pub drain_connections_ends :
    (elapsed : ℕ → ℕ) (active : ℕ → Outcome Problem (List Activity)) (timeout : ℕ)
    (apps : List Text)
    → ((n : ℕ) → elapsed n < elapsed (n + 1))
    → (o : Outcome Problem Bool) × (drain_connections elapsed active timeout apps (suc timeout) 0
        ≡ some o)
      × Meaning elapsed active timeout apps 0 o
unfolding Drained
drain_connections_ends elapsed active timeout apps grows =
    drain_from elapsed active timeout apps grows (suc timeout) 0 (omega arith) (omega arith)

-- The connections that may be terminated.
abbrev pub allowed : List Text → List Activity → List Activity
allowed apps active = filterb (λ c. not (is_excluded apps c.application_name)) active

module _ (services : Services) where
  abbrev Counted : ℕ → ℕ → ℕ → Type 0
  Counted n most count = (n ≤ count) × (count ≤ n + most)
