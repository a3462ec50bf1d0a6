-- ===== src/DependencyGraph/Relax.antt =====
-- What one turn of the sort does to the in-degrees and to the queue, and what the graph's helpers
-- give.
use confiture.Base.{
  ℕ, ◌-◌, ◌≡◌, refl, sym, ◌∙◌, ap, Bool, true, false, ◌&&◌, ◌||◌, List, [], ◌∷◌, ◌++◌, map,
  if◌then◌else◌, filterb, contains, ◌==◌, nat_eq, list_eq, IsDistinct, All, arith, Bool-cases, inl,
  inr,
}
use confiture.Base.Text.{Text, text_eq_iff, text_gt}
use confiture.Base.Sets.{
  add, contains-snoc, contains-add, add-IsDistinct, IsDistinct-snoc, contains-sort, sort-IsDistinct,
}
use confiture.DependencyGraph.{
  Edges, dependencies, dependents, add_all, all_tables, relax, set_degree,
}

pub relax-degree :
    (ds : List Text) (f : Text → ℕ) (queue : List Text) (t : Text)
    → IsDistinct ds
    → (relax ds f queue).0 t ≡ (if contains ds t then f t - 1 else f t)
unfolding relax
relax-degree [] f queue t h = refl
relax-degree (d ∷ ds) f queue t h = elim (Bool-cases (t == d)) [
  | inl s ↦
      let same : t ≡ d = (text_eq_iff t d).0 s in
      let gone : contains ds t ≡ false = rw same h.0 in
      relax-degree ds _ _ t h.1 ∙ rw (s, gone) (ap (λ x. f x - 1) (sym same))
  | inr o ↦ relax-degree ds _ _ t h.1 ∙ rw o refl
]

contains_if :
    (b : Bool) (queue : List Text) (d t : Text)
    → contains (if b then queue ++ (d ∷ []) else queue) t ≡ (contains queue t || (b && t == d))
contains_if true queue d t = contains-snoc queue d t
contains_if false queue d t = ground arith

pub relax-queue :
    (ds : List Text) (f : Text → ℕ) (queue : List Text) (t : Text)
    → IsDistinct ds
    → contains (relax ds f queue).1 t ≡ (contains queue t || (contains ds t && f t - 1 == 0))
unfolding relax
relax-queue [] f queue t h = ground arith
relax-queue (d ∷ ds) f queue t h =
    relax-queue ds _ _ t h.1
    ∙ ap (λ b. b || (contains ds t && set_degree d (f d - 1) f t - 1 == 0))
        (contains_if (f d - 1 == 0) queue d t)
    ∙ elim (Bool-cases (t == d)) [
      | inl s ↦
          let same : t ≡ d = (text_eq_iff t d).0 s in
          let gone : contains ds t ≡ false = rw same h.0 in
          rw (s, gone)
            (at_d (contains queue t) (f d - 1 == 0) (f t - 1 == 0)
              (ap (λ x. f x - 1 == 0) (sym same)))
      | inr o ↦ rw o (past_d (contains queue t) (f d - 1 == 0) (contains ds t && f t - 1 == 0))
    ]
  where
    at_d : (q b c : Bool) → b ≡ c → ((q || (b && true)) || (false && c)) ≡ (q || (true && c))
    at_d q b c h = ground arith

    past_d : (q b r : Bool) → ((q || (b && false)) || r) ≡ (q || r)
    past_d q b r = ground arith

pub relax-IsDistinct :
    (ds : List Text) (f : Text → ℕ) (queue : List Text)
    → IsDistinct ds
    → IsDistinct queue
    → All (λ d. contains queue d ≡ false) ds
    → IsDistinct (relax ds f queue).1
unfolding relax
relax-IsDistinct [] f queue h k apart = k
relax-IsDistinct (d ∷ ds) f queue h k apart =
    relax-IsDistinct ds _ _ h.1 (grown (f d - 1 == 0)) (still (f d - 1 == 0) ds h.0 apart.1)
  where
    grown : (b : Bool) → IsDistinct (if b then queue ++ (d ∷ []) else queue)
    grown true = IsDistinct-snoc queue d k apart.0
    grown false = k

    still :
        (b : Bool) (ds : List Text)
        → contains ds d ≡ false
        → All (λ x. contains queue x ≡ false) ds
        → All (λ x. contains (if b then queue ++ (d ∷ []) else queue) x ≡ false) ds
    still b [] h apart = tt
    still b (x ∷ ds) h apart = (
      contains_if b queue d x ∙ ground (arith, apart.0, text_eq_iff d x, text_eq_iff x d, h),
      still b ds (ground (arith, h)) apart.1,
    )

-- The dependents of a table are those that have it among their dependencies.
pub contains-dependents :
    (edges : Edges) (node t : Text)
    → IsDistinct (map (λ e. e.0) edges)
    → contains (dependents edges node) t ≡ contains (dependencies edges t) node
unfolding dependents dependencies
contains-dependents edges node t h = contains-sort text_gt _ t ∙ keys edges h
  where
    flip : (x t : Text) → (x == t) ≡ false → (t == x) ≡ false
    flip x t o = ground (arith, text_eq_iff x t, text_eq_iff t x)

    absent :
        (edges : Edges)
        → contains (map (λ e. e.0) edges) t ≡ false
        → contains (map (λ e. e.0) (filterb (λ e. contains e.1 node) edges)) t ≡ false
    absent [] h = refl
    absent ((x, deps) ∷ edges) h = ground (arith, absent edges)

    keys :
        (edges : Edges)
        → IsDistinct (map (λ e. e.0) edges)
        → contains (map (λ e. e.0) (filterb (λ e. contains e.1 node) edges)) t
          ≡ contains (dependencies edges t) node
    keys [] h = refl
    keys ((x, deps) ∷ edges) h = elim (Bool-cases (contains deps node)) [
      | inl c ↦ rw c (elim (Bool-cases (x == t)) [
        | inl s ↦ rw (s, (text_eq_iff t x).1 (sym ((text_eq_iff x t).0 s))) (sym c)
        | inr o ↦ rw (o, flip x t o) (keys edges h.1)
      ])
      | inr c ↦ rw c (elim (Bool-cases (x == t)) [
        | inl s ↦ rw s (absent edges (rw (← (text_eq_iff x t).0 s) h.0) ∙ sym c)
        | inr o ↦ rw o (keys edges h.1)
      ])
    ]

chosen-IsDistinct :
    (p : Text × List Text → Bool) (edges : Edges)
    → IsDistinct (map (λ e. e.0) edges)
    → IsDistinct (map (λ e. e.0) (filterb p edges))
chosen-IsDistinct p [] h = tt
chosen-IsDistinct p ((x, deps) ∷ edges) h = elim (Bool-cases (p (x, deps))) [
  | inl c ↦ rw c (left_out edges h.0, chosen-IsDistinct p edges h.1)
  | inr c ↦ rw c (chosen-IsDistinct p edges h.1)
]
  where
    left_out :
        (edges : Edges)
        → contains (map (λ e. e.0) edges) x ≡ false
        → contains (map (λ e. e.0) (filterb p edges)) x ≡ false
    left_out [] h = refl
    left_out ((y, deps) ∷ edges) h = ground (arith, left_out edges)

pub dependents-IsDistinct :
    (edges : Edges) (node : Text)
    → IsDistinct (map (λ e. e.0) edges)
    → IsDistinct (dependents edges node)
unfolding dependents
dependents-IsDistinct edges node h =
    sort-IsDistinct text_gt _ (chosen-IsDistinct (λ e. contains e.1 node) edges h)

pub dependencies-IsDistinct :
    (edges : Edges) (t : Text) → All (λ e. IsDistinct e.1) edges → IsDistinct (dependencies edges t)
unfolding dependencies
dependencies-IsDistinct [] t h = tt
dependencies-IsDistinct ((x, deps) ∷ edges) t h = elim (Bool-cases (x == t)) [
  | inl c ↦ rw c h.0
  | inr c ↦ rw c (dependencies-IsDistinct edges t h.1)
]

add_all-IsDistinct : (ts tables : List Text) → IsDistinct tables → IsDistinct (add_all ts tables)
unfolding add_all
add_all-IsDistinct [] tables h = h
add_all-IsDistinct (t ∷ ts) tables h =
    add_all-IsDistinct ts (add t tables) (add-IsDistinct t tables h)

pub all_tables-IsDistinct : (edges : Edges) → IsDistinct (all_tables edges)
unfolding all_tables
all_tables-IsDistinct [] = tt
all_tables-IsDistinct ((x, deps) ∷ edges) =
    add_all-IsDistinct deps (add x (all_tables edges))
      (add-IsDistinct x (all_tables edges) (all_tables-IsDistinct edges))

add_all_keeps :
    (ts tables : List Text) (t : Text)
    → contains tables t ≡ true
    → contains (add_all ts tables) t ≡ true
unfolding add_all
add_all_keeps [] tables t h = h
add_all_keeps (x ∷ ts) tables t h =
    add_all_keeps ts (add x tables) t (contains-add x t tables ∙ rw h refl)

-- A table with a dependency is one of the tables.
pub all_tables_keys :
    (edges : Edges) (t node : Text)
    → contains (dependencies edges t) node ≡ true
    → contains (all_tables edges) t ≡ true
unfolding all_tables dependencies
all_tables_keys [] t node h = cc
all_tables_keys ((x, deps) ∷ edges) t node h = add_all_keeps deps (add x (all_tables edges)) t (
    contains-add x t (all_tables edges) ∙ elim (Bool-cases (x == t)) [
      | inl c ↦
          rw ((text_eq_iff t x).1 (sym ((text_eq_iff x t).0 c)))
            (any_true (contains (all_tables edges) t))
      | inr c ↦ rw (all_tables_keys edges t node (rw c at h)) refl
    ])
  where
    any_true : (b : Bool) → (b || true) ≡ true
    any_true b = ground arith
