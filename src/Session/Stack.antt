-- ===== src/Session/Stack.antt =====
-- The tracking table as a stack, the newest version first.
use mathlib.Core.List.{reverse-append, reverse-reverse}
use confiture.Base.{
  ◌≡◌, refl, sym, ◌∙◌, ap, subst, Bool, true, false, not, ◌||◌, Option, none, some, List, [], ◌∷◌,
  ◌++◌, map, reverse, if◌then◌else◌, arith, All, filterb, filterb-append, contains, contains-append,
  remove, remove_absent, IsDistinct, nat_eq, list_eq, ◌==◌, beq_refl, append-nil, append_assoc, inl,
  inr, Bool-cases,
}
use confiture.Base.Text.{Text, text_eq_iff}
use confiture.Base.Sets.{IsDistinct-snoc, contains-snoc}
use confiture.Discovery.{version_from_migration_filename}
use confiture.Postgres.{Connection}
use confiture.Session.{Call, by_version, or_else}
use confiture.Session.Sequence.{without, without_none, without-cons, has_file, is_some}

module _ {pg : Connection} where
  -- What is committed, the newest version first.
  abbrev pub stack : Call pg → List Text
  stack s = reverse (pg.versions (pg.committed s.engine.conn))

  -- Nothing is pending.
  abbrev pub IsSettled : Call pg → Type 0
  IsSettled s = pg.current s.engine.conn ≡ pg.committed s.engine.conn

-- Take versions off until `target` is on top.
unfoldable pub pop_to : Text → List Text → List Text
pop_to target [] = []
pop_to target (v ∷ vs) = if v == target then v ∷ vs else pop_to target vs

pub contains-reverse : (vs : List Text) (v : Text) → contains (reverse vs) v ≡ contains vs v
contains-reverse [] v = refl
contains-reverse (w ∷ vs) v =
    ap (λ l. contains l v) (reverse-append (w ∷ []) vs)
    ∙ contains-snoc (reverse vs) w v
    ∙ ground (arith, contains-reverse vs v)

pub IsDistinct-reverse : (vs : List Text) → IsDistinct vs → IsDistinct (reverse vs)
IsDistinct-reverse [] h = tt
IsDistinct-reverse (v ∷ vs) h =
    subst IsDistinct (sym (reverse-append (v ∷ []) vs))
      (IsDistinct-snoc (reverse vs) v (IsDistinct-reverse vs h.1) (contains-reverse vs v ∙ h.0))

pub filterb-reverse :
    (p : Text → Bool) (vs : List Text) → filterb p (reverse vs) ≡ reverse (filterb p vs)
filterb-reverse p [] = refl
filterb-reverse p (v ∷ vs) = elim (Bool-cases (p v)) [
  | inl e ↦
      rw
        (
          reverse-append (v ∷ []) vs,
          filterb-append p (reverse vs) (v ∷ []),
          filterb-reverse p vs,
          e,
        )
        (sym (reverse-append (v ∷ []) (filterb p vs)))
  | inr e ↦
      rw
        (
          reverse-append (v ∷ []) vs,
          filterb-append p (reverse vs) (v ∷ []),
          filterb-reverse p vs,
          e,
        )
        (append-nil (reverse (filterb p vs)))
]

remove_top : (v : Text) (vs : List Text) → contains vs v ≡ false → remove v (v ∷ vs) ≡ vs
remove_top v vs h = rw (beq_refl v) (remove_absent v vs h)

-- What is taken off the top is gone, and the rest stays.
pub without_top :
    (done more : List Text) → IsDistinct (done ++ more) → without done (done ++ more) ≡ more
without_top [] more h = without_none more
without_top (v ∷ done) more h =
    without-cons v done (v ∷ (done ++ more))
    ∙ ap (without done) (remove_top v (done ++ more) h.0)
    ∙ without_top done more h.1

pub pop_to_top :
    (target : Text) (roll older : List Text)
    → contains roll target ≡ false
    → pop_to target (roll ++ (target ∷ older)) ≡ target ∷ older
unfolding pop_to
pop_to_top target [] older h = rw (beq_refl target) refl
pop_to_top target (v ∷ roll) older h =
    ground (arith, pop_to_top target roll older, text_eq_iff v target, text_eq_iff target v)

-- A version among those that have a file which passes a test has a file.
or_left :
    (o : Option Text) (b : Bool) (f : Text)
    → is_some (or_else o (if b then some f else none)) ≡ (is_some o || b)
or_left none true f = refl
or_left none false f = refl
or_left (some g) b f = refl

pub reversible-has_file :
    (p : Text → Bool) (files : List Text) (v : Text)
    → contains (map version_from_migration_filename (filterb p files)) v ≡ true
    → has_file files v ≡ true
unfolding by_version
reversible-has_file p [] v h = cc
reversible-has_file p (f ∷ files) v h =
    or_left (by_version files v) (version_from_migration_filename f == v) f
    ∙ ground (
      arith,
      reversible-has_file p files v,
      text_eq_iff v (version_from_migration_filename f),
      text_eq_iff (version_from_migration_filename f) v,
    )

pub filterb_every :
    (p : Text → Bool) (vs : List Text) → All (λ v. p v ≡ true) vs → filterb p vs ≡ vs
filterb_every p [] h = refl
filterb_every p (v ∷ vs) h = rw h.0 (ap (λ l. v ∷ l) (filterb_every p vs h.1))

-- What is left after `pop_to` is the bottom of the stack.
pub pop_to_bottom :
    (target : Text) (vs : List Text) → (top : List Text) × (vs ≡ top ++ pop_to target vs)
unfolding pop_to
pop_to_bottom target [] = ([], refl)
pop_to_bottom target (v ∷ vs) = elim (Bool-cases (v == target)) [
  | inl e ↦ ([], rw e refl)
  | inr e ↦ let (top, p) = pop_to_bottom target vs in (v ∷ top, rw e (ap (λ l. v ∷ l) p))
]

All-map : (P Q : Text → Type 0) → ((v : Text) → P v → Q v) → (vs : List Text) → All P vs → All Q vs
All-map P Q f [] h = tt
All-map P Q f (v ∷ vs) h = (f v h.0, All-map P Q f vs h.1)

pub All-self : (vs : List Text) → All (λ v. contains vs v ≡ true) vs
All-self [] = tt
All-self (v ∷ vs) = (
  rw (beq_refl v) refl,
  All-map (λ w. contains vs w ≡ true) (λ w. contains (v ∷ vs) w ≡ true) (λ w h. ground arith) vs
      (All-self vs),
)

-- A table cut at a version, seen from its newest end.
module _ (applied older roll : List Text) (target : Text)
    (cut : applied ≡ older ++ (target ∷ reverse roll)) (distinct : IsDistinct applied) where
  pub stack_cut : reverse applied ≡ roll ++ (target ∷ reverse older)
  stack_cut =
      ap reverse cut
      ∙ reverse-append older (target ∷ reverse roll)
      ∙ ap (λ l. l ++ reverse older)
          (reverse-append (target ∷ []) (reverse roll)
            ∙ ap (λ l. l ++ (target ∷ [])) (reverse-reverse roll))
      ∙ append_assoc roll (target ∷ []) (reverse older)

  stack-IsDistinct : IsDistinct (roll ++ (target ∷ reverse older))
  stack-IsDistinct = subst IsDistinct stack_cut (IsDistinct-reverse applied distinct)

  distinct_middle :
      (roll rest : List Text) → IsDistinct (roll ++ (target ∷ rest)) → contains roll target ≡ false
  distinct_middle [] rest h = refl
  distinct_middle (v ∷ roll) rest h = ground (
    arith,
    contains-append roll (target ∷ rest) v,
    text_eq_iff target v,
    text_eq_iff v target,
    text_eq_iff v v,
    distinct_middle roll rest,
  )

  pub pop_to_cut : pop_to target (reverse applied) ≡ target ∷ reverse older
  pop_to_cut =
      ap (pop_to target) stack_cut
      ∙ pop_to_top target roll (reverse older)
          (distinct_middle roll (reverse older) stack-IsDistinct)

  -- Rolled back until `done`, the stack has lost just that.
  pub without_cut :
      (done rest : List Text)
      → roll ≡ done ++ rest
      → reverse (without done applied) ≡ rest ++ pop_to target (reverse applied)
  without_cut done rest e =
      let top : roll ++ (target ∷ reverse older) ≡ done ++ (rest ++ (target ∷ reverse older)) =
        ap (λ l. l ++ (target ∷ reverse older)) e
        ∙ append_assoc done rest (target ∷ reverse older) in
      sym (filterb-reverse (λ v. not (contains done v)) applied)
      ∙ ap (without done) (stack_cut ∙ top)
      ∙ without_top done (rest ++ (target ∷ reverse older)) (subst IsDistinct top stack-IsDistinct)
      ∙ ap (λ l. rest ++ l) (sym pop_to_cut)

  -- All that is rolled back was applied.
  pub roll-applied : All (λ v. contains applied v ≡ true) roll
  roll-applied =
      All-map (λ v. contains roll v ≡ true) (λ v. contains applied v ≡ true)
        (λ v h.
          sym (contains-reverse applied v)
          ∙ ap (λ l. contains l v) stack_cut
          ∙ contains-append roll (target ∷ reverse older) v
          ∙ rw h refl)
        roll (All-self roll)
