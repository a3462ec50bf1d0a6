-- ===== src/Rollback/Plan.antt =====
-- Proofs about the plan of `migrate down-to`.
use mathlib.Core.List.{reverse-reverse}
use confiture.Base.{
  ℕ, zero, suc, ◌-◌, ◌<◌, ◌≡◌, refl, ap, sym, true, false, not, some, List, [], ◌∷◌, ◌++◌, reverse,
  arith, inl, inr, Bool-cases, nat_beq, nat_beq_iff, length, take, drop, null, All, filterb, allb,
  none, if◌then◌else◌, ◌∙◌, length-append, contains-append, ◌+◌, filterb-nil, filterb_none,
  contains, index, index-lt-length, split_at_index, not-contains-take_index, nat_eq, list_eq,
}
use confiture.Base.Text.{Text, text_eq_iff}
use confiture.Rollback.{RollbackPlan, checked, plan_down_to, newer, lacking, irreversible}

drop_end {ℓ} : {A : Type ℓ} (n : ℕ) (xs : List A) → suc n ≡ length xs → drop (suc n) xs ≡ []
drop_end n [] h = absurd (omega arith)
drop_end zero (x ∷ []) h = refl
drop_end zero (x ∷ (y ∷ xs)) h = absurd (omega arith)
drop_end (suc n) (x ∷ xs) h = drop_end n xs (omega arith)

-- At the newest revision there is nothing newer.
newer_last :
    (applied : List Text) (target : Text)
    → contains applied target ≡ true
    → nat_beq (index applied target) (length applied - 1) ≡ true
    → newer applied target ≡ []
unfolding newer
newer_last applied target has last =
    let bound : index applied target < length applied = index-lt-length applied target has in
    let at_end : suc (index applied target) ≡ length applied =
      omega (arith, (nat_beq_iff (index applied target) (length applied - 1)).0 last) in
    ap reverse (drop_end (index applied target) applied at_end)

module _ (applied known : List Text) (target : Text) (down_available : List Text) where
  abbrev plan : RollbackPlan
  plan = plan_down_to applied known target down_available

  -- A valid plan names the applied target and exactly what is newer.
  valid_cases :
      plan.valid ≡ true
      → (contains applied target ≡ true)
        × (plan.to_rollback ≡ newer applied target)
        × (lacking down_available (newer applied target) ≡ [])
  unfolding plan_down_to
  valid_cases h = elim (Bool-cases (contains applied target)) [
    | inr absent ↦ ground arith
    | inl has ↦ elim (Bool-cases (nat_beq (index applied target) (length applied - 1))) [
      | inl last ↦
          let e = newer_last applied target has last in (has, rw (has, last) (sym e), rw e refl)
      | inr more ↦ ground arith
    ]
  ]

  not-false :
      (versions : List Text)
      → All (λ v. not (contains down_available v) ≡ false) versions
      → All (λ v. contains down_available v ≡ true) versions
  not-false [] h = tt
  not-false (v ∷ vs) h = (ground arith, not-false vs h.1)

  false-not :
      (versions : List Text)
      → All (λ v. contains down_available v ≡ true) versions
      → All (λ v. not (contains down_available v) ≡ false) versions
  false-not [] h = tt
  false-not (v ∷ vs) h = (ground arith, false-not vs h.1)

  -- A valid plan cuts the applied versions behind the first occurrence of the target: what it
  -- rolls back is what was applied later, newest first, and each of it has a down migration.
  pub plan_valid :
      plan.valid ≡ true
      → (older : List Text) × (applied ≡ older ++ (target ∷ reverse plan.to_rollback))
        × (contains older target ≡ false)
        × All (λ v. contains down_available v ≡ true) plan.to_rollback
  unfolding newer lacking
  plan_valid h =
      let (has, same, missing) = valid_cases h in
      let cut = drop (suc (index applied target)) applied in
      (
        take (index applied target) applied,
        rw (same, reverse-reverse) (split_at_index applied target has),
        not-contains-take_index applied target,
        rw same (not-false (reverse cut) (filterb-nil _ (reverse cut) missing)),
      )

  -- At the newest revision there is nothing to do.
  pub noop_rollback : plan.noop ≡ true → plan.to_rollback ≡ []
  unfolding plan_down_to
  noop_rollback h = ground arith

  -- A plan is valid if the target is applied and everything newer has a down migration.
  pub plan_complete :
      contains applied target ≡ true
      → All (λ v. contains down_available v ≡ true) (newer applied target)
      → plan.valid ≡ true
  unfolding plan_down_to lacking
  plan_complete has downs =
      let e = filterb_none _ (newer applied target) (false-not (newer applied target) downs) in
      rw (has, e) (ground arith)

cut-index :
    (older later : List Text) (target : Text)
    → contains older target ≡ false
    → index (older ++ (target ∷ later)) target ≡ length older
cut-index [] later target h = rw ((text_eq_iff target target).1 refl) refl
cut-index (v ∷ older) later target h =
    ground (arith, cut-index older later target, text_eq_iff target v)

drop-older :
    (older later : List Text) (target : Text)
    → drop (suc (length older)) (older ++ (target ∷ later)) ≡ later
drop-older [] later target = refl
drop-older (v ∷ older) later target = drop-older older later target

null-filterb :
    (down_available versions : List Text)
    → null (filterb (λ v. not (contains down_available v)) versions)
      ≡ allb (contains down_available) versions
null-filterb down_available [] = refl
null-filterb down_available (v ∷ versions) = elim (Bool-cases (contains down_available v)) [
  | inl h ↦ rw h (null-filterb down_available versions)
  | inr h ↦ rw h refl
]

null-nil {ℓ} : {A : Type ℓ} → (xs : List A) → null xs ≡ true → xs ≡ []
null-nil [] h = refl
null-nil (x ∷ xs) h = cc

module _ (later : List Text) (target : Text) (down_available : List Text) where
  abbrev missing : List Text → List Text
  missing versions = filterb (λ v. not (contains down_available v)) versions

  -- What a plan says, by what is newer than the target.
  abbrev pub Says : RollbackPlan → Type 0
  Says plan =
      (plan.to_rollback ≡ reverse later)
      × (plan.noop ≡ null later)
      × (plan.valid ≡ allb (contains down_available) (reverse later))
      × (plan.missing_down ≡ filterb (λ v. not (contains down_available v)) (reverse later))
      × (plan.reason
          ≡ (if allb (contains down_available) (reverse later) then none else some irreversible))

  checked-Says :
      null later ≡ false → Says (checked target (reverse later) (missing (reverse later)))
  unfolding checked
  checked-Says more = elim (Bool-cases (allb (contains down_available) (reverse later))) [
    | inl h ↦
        let e = null-filterb down_available (reverse later) ∙ h in
        rw (null-nil (missing (reverse later)) e, h, more) (refl, refl, refl, refl, refl)
    | inr h ↦
        rw (h, null-filterb down_available (reverse later) ∙ h, more) (refl, refl, refl, refl, refl)
  ]

last-cut :
    (older later : List Text) (target : Text)
    → nat_beq (length older) (length (older ++ (target ∷ later)) - 1) ≡ null later
last-cut older [] target =
    rw (length-append older (target ∷ []))
      (ground (arith, nat_beq_iff (length older) (length older + 1 - 1)))
last-cut older (v ∷ later) target =
    rw (length-append older (target ∷ (v ∷ later)))
      (ground (arith, nat_beq_iff (length older) (length older + suc (suc (length later)) - 1)))

has-cut :
    (older later : List Text) (target : Text) → contains (older ++ (target ∷ later)) target ≡ true
has-cut older later target =
    ground (arith, contains-append older (target ∷ later) target, text_eq_iff target target)

-- The whole plan where the target is applied: of the versions applied after its first occurrence, the
-- plan lists all, the newest first, and among them those without a down migration; it is valid
-- exactly if there are none of these, and says otherwise that some are irreversible; it has nothing
-- to do exactly if nothing was applied later.
pub plan_cut :
    (older later known : List Text) (target : Text) (down_available : List Text)
    → contains older target ≡ false
    → Says later target down_available
        (plan_down_to (older ++ (target ∷ later)) known target down_available)
unfolding plan_down_to newer lacking
plan_cut older [] known target down_available h =
    rw (has-cut older [] target, cut-index older [] target h, last-cut older [] target)
      (refl, refl, refl, refl, refl)
plan_cut older (v ∷ later) known target down_available h =
    rw
      (
        has-cut older (v ∷ later) target,
        cut-index older (v ∷ later) target h,
        last-cut older (v ∷ later) target,
        drop-older older (v ∷ later) target,
      )
      (checked-Says (v ∷ later) target down_available refl)
