-- ===== src/DependencyGraph/Sorted.antt =====
-- Proofs about the whole topological sort.
use confiture.Base.{
  ℕ, zero, suc, ◌≤◌, ◌≡◌, ◌⊎◌, refl, sym, ◌∙◌, ap, Bool, true, false, not, ◌&&◌, ◌||◌, some, List,
  [], ◌∷◌, ◌++◌, length, filterb, anyb, ltb, contains, ◌==◌, nat_eq, list_eq, IsDistinct, arith,
  Bool-cases, inl, inr, contains-filterb, beq_refl, nat_beq_iff,
}
use confiture.Base.Text.{Text, text_gt}
use confiture.Base.Sort.{sort}
use confiture.Base.Sets.{
  unseen, unseen-positive, contains-sort, sort-IsDistinct, filterb-IsDistinct,
}
use confiture.DependencyGraph.{
  Edges, IsGraph, DependencyOrder, dependencies, degree, all_tables, kahn, cycles_of, order_of,
  topological_sort,
}
use confiture.DependencyGraph.Relax.{all_tables-IsDistinct}
use confiture.DependencyGraph.Turn.{Settled, Inv, turn}

module _ (edges : Edges) (graph : IsGraph edges) where
  -- The loop ends with nothing in the queue.
  EndsWell : ℕ → List Text → (Text → ℕ) → List Text → Type 0
  EndsWell fuel queue f done =
      (ordered : List Text) × (left : Text → ℕ) × (rest : ℕ) × (kahn edges fuel queue f done
        ≡ some (ordered, left))
      × Inv edges rest [] left ordered

  kahn_lem :
      (fuel : ℕ) (queue : List Text) (f : Text → ℕ) (done : List Text)
      → Inv edges fuel queue f done
      → EndsWell fuel queue f done
  unfolding kahn EndsWell
  kahn_lem zero [] f done inv = (done, f, zero, refl, inv)
  kahn_lem (suc fuel) [] f done inv = (done, f, suc fuel, refl, inv)
  kahn_lem zero (node ∷ queue) f done inv =
      absurd (stuck node queue f done inv (Bool-cases (contains done node)))
    where
      clash : {b : Bool} → b ≡ false → b ≡ true → ⊥
      clash h k = cc

      positive : {n : ℕ} → 1 ≤ n → n ≤ 0 → ⊥
      positive h k = omega arith

      stuck :
          (node : Text) (queue : List Text) (f : Text → ℕ) (done : List Text)
          → Inv edges zero (node ∷ queue) f done
          → (contains done node ≡ true) ⊎ (contains done node ≡ false)
          → ⊥
      stuck node queue f done inv (inl old) = clash (inv.apart node old) (rw (beq_refl node) refl)
      stuck node queue f done inv (inr new) =
          positive
            (unseen-positive done node (all_tables edges) new
              (inv.known node (rw (beq_refl node) refl)))
            inv.enough
  kahn_lem (suc fuel) (node ∷ queue) f done inv =
      kahn_lem fuel _ _ (done ++ (node ∷ [])) (turn edges graph fuel node queue f done inv)

  unseen_nil : (xs : List Text) → unseen [] xs ≡ length xs
  unseen_nil [] = refl
  unseen_nil (x ∷ xs) = ap suc (unseen_nil xs)

  degree_lem : (t : Text) → degree edges t ≡ length (dependencies edges t)
  unfolding degree
  degree_lem t = refl

  abbrev first_queue : List Text
  first_queue = sort text_gt (filterb (λ t. degree edges t == 0) (all_tables edges))

  first_queued :
      (t : Text) → contains first_queue t ≡ (contains (all_tables edges) t && degree edges t == 0)
  first_queued t =
      contains-sort text_gt (filterb (λ t. degree edges t == 0) (all_tables edges)) t
      ∙ contains-filterb (λ t. degree edges t == 0) (all_tables edges) t

  both : (a : Bool) (n : ℕ) → (a && n == 0) ≡ true → (a ≡ true) × (n ≡ 0)
  both true n h = (refl, (nat_beq_iff n 0).0 h)
  both false n h = cc

  start : Inv edges (length (all_tables edges)) first_queue (degree edges) []
  start = record {
    counts = λ t. degree_lem t ∙ sym (unseen_nil (dependencies edges t));
    ready =
        λ t h. (both (contains (all_tables edges) t) (degree edges t) (sym (first_queued t) ∙ h)).1;
    queue_set = sort-IsDistinct text_gt _ (
        filterb-IsDistinct (λ t. degree edges t == 0) (all_tables edges)
          (all_tables-IsDistinct edges));
    done_set = tt;
    apart = λ t h. cc;
    finished = λ t h. cc;
    settled = tt;
    full = λ t h k. first_queued t ∙ rw h ((nat_beq_iff (degree edges t) 0).1 k);
    known =
        λ t h. (both (contains (all_tables edges) t) (degree edges t) (sym (first_queued t) ∙ h)).0;
    done_known = λ t h. cc;
    enough = at_most _ _ (unseen_nil (all_tables edges));
  }
    where
      at_most : (n m : ℕ) → n ≡ m → n ≤ m
      at_most n m h = omega arith

  contains-cycles :
      (remaining : List Text) (t : Text)
      → anyb (λ c. contains c t) (cycles_of remaining) ≡ contains remaining t
  unfolding cycles_of
  contains-cycles [] t = refl
  contains-cycles (x ∷ xs) t =
      or_false (contains (sort text_gt (x ∷ xs)) t) ∙ contains-sort text_gt (x ∷ xs) t
    where
      or_false : (b : Bool) → (b || false) ≡ b
      or_false b = ground arith

  -- A table is in the order exactly when none of its in-degree is left.
  in_order :
      (rest : ℕ) (left : Text → ℕ) (ordered : List Text) (t : Text)
      → Inv edges rest [] left ordered
      → contains ordered t ≡ (
          contains (all_tables edges) t
          && not (
              anyb
                (λ c. contains c t)
                (cycles_of (filterb (λ t. ltb 0 (left t)) (all_tables edges)))))
  in_order rest left ordered t inv =
      rw
        (
          contains-cycles (filterb (λ t. ltb 0 (left t)) (all_tables edges)) t,
          contains-filterb (λ t. ltb 0 (left t)) (all_tables edges) t,
        )
        (decided (contains ordered t) (contains (all_tables edges) t) (left t) (inv.finished t)
          (inv.done_known t) (inv.full t))
    where
      off : false ≡ true → ⊥
      off h = cc

      decided :
          (d k : Bool) (n : ℕ)
          → (d ≡ true → n ≡ 0)
          → (d ≡ true → k ≡ true)
          → (k ≡ true → n ≡ 0 → (d || false) ≡ true)
          → d ≡ (k && not (k && ltb 0 n))
      decided true k n f g h = rw (g refl, f refl) refl
      decided false false n f g h = refl
      decided false true zero f g h = absurd (off (h refl refl))
      decided false true (suc n) f g h = ground arith

-- Of a graph given by a dictionary of sets, the sort always ends, the number of tables being fuel
-- enough. No table is in the order twice, every table in it comes behind all its dependencies, and a
-- table is in the order exactly when it is a table of the graph that is not reported in a cycle.
pub topological_sort_lem :
    (edges : Edges)
    → IsGraph edges
    → (order : DependencyOrder) × (topological_sort edges ≡ some order)
      × IsDistinct order.ordered
      × Settled edges [] order.ordered
      × ((t : Text)
          → contains order.ordered t
            ≡ (contains (all_tables edges) t && not (anyb (λ c. contains c t) order.cycles)))
unfolding topological_sort order_of EndsWell
topological_sort_lem edges graph =
    let (ordered, left, rest, run, inv) =
      kahn_lem edges graph (length (all_tables edges)) (first_queue edges graph) (degree edges) []
        (start edges graph) in
    (
      record {
        ordered = ordered;
        cycles = cycles_of (filterb (λ t. ltb 0 (left t)) (all_tables edges));
      },
      ap (order_of (all_tables edges)) run,
      inv.done_set,
      inv.settled,
      λ t. in_order edges graph rest left ordered t inv,
    )
