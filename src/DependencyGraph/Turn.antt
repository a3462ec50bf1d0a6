-- ===== src/DependencyGraph/Turn.antt =====
-- Proofs about one turn of the topological sort.
use confiture.Base.{
  ℕ, suc, ◌-◌, ◌≤◌, ◌≡◌, ◌⊎◌, refl, sym, subst, ◌∙◌, ap, Bool, true, false, ◌&&◌, ◌||◌, List, [],
  ◌∷◌, ◌++◌, if◌then◌else◌, contains, ◌==◌, nat_eq, list_eq, IsDistinct, All, arith, Bool-cases,
  inl, inr, append-nil, append_assoc, beq_refl, nat_beq_iff,
}
use confiture.Base.Text.{Text, text_eq_iff}
use confiture.Base.Sets.{unseen, unseen-snoc, unseen-positive, contains-snoc, IsDistinct-snoc}
use confiture.DependencyGraph.{Edges, IsGraph, dependencies, dependents, all_tables, relax}
use confiture.DependencyGraph.Relax.{
  relax-degree, relax-queue, relax-IsDistinct, contains-dependents, dependents-IsDistinct,
  dependencies-IsDistinct, all_tables-IsDistinct, all_tables_keys,
}

-- Every table comes behind its dependencies, of which some may have been seen before.
abbrev pub Settled : Edges → List Text → List Text → Type 0
Settled edges seen [] = Unit
Settled edges seen (t ∷ ts) =
    All (λ d. contains seen d ≡ true) (dependencies edges t) × Settled edges (seen ++ (t ∷ [])) ts

module _ (edges : Edges) where
  Settled-snoc :
      (seen ts : List Text) (t : Text)
      → Settled edges seen ts
      → All (λ d. contains (seen ++ ts) d ≡ true) (dependencies edges t)
      → Settled edges seen (ts ++ (t ∷ []))
  Settled-snoc seen [] t h k =
      (subst (λ l. All (λ d. contains l d ≡ true) (dependencies edges t)) (append-nil seen) k, tt)
  Settled-snoc seen (x ∷ ts) t h k = (
    h.0,
    Settled-snoc (seen ++ (x ∷ [])) ts t h.1 (
        subst (λ l. All (λ d. contains l d ≡ true) (dependencies edges t))
          (sym (append_assoc seen (x ∷ []) ts)) k),
  )

  -- What holds before each turn of the loop.
  pub record Inv (fuel : ℕ) (queue : List Text) (f : Text → ℕ) (done : List Text) : Type 0 where
    pub counts : (t : Text) → f t ≡ unseen done (dependencies edges t)
    pub ready : (t : Text) → contains queue t ≡ true → f t ≡ 0
    pub queue_set : IsDistinct queue
    pub done_set : IsDistinct done
    pub apart : (t : Text) → contains done t ≡ true → contains queue t ≡ false
    pub finished : (t : Text) → contains done t ≡ true → f t ≡ 0
    pub settled : Settled edges [] done
    pub full :
        (t : Text)
        → contains (all_tables edges) t ≡ true
        → f t ≡ 0
        → (contains done t || contains queue t) ≡ true
    pub known : (t : Text) → contains queue t ≡ true → contains (all_tables edges) t ≡ true
    pub done_known : (t : Text) → contains done t ≡ true → contains (all_tables edges) t ≡ true
    pub enough : unseen done (all_tables edges) ≤ fuel

  none_unseen : (seen xs : List Text) → unseen seen xs ≡ 0 → All (λ d. contains seen d ≡ true) xs
  none_unseen seen [] h = tt
  none_unseen seen (x ∷ xs) h = elim (Bool-cases (contains seen x)) [
    | inl c ↦ (c, none_unseen seen xs (rw c at h))
    | inr c ↦ absurd (positive (rw c at h))
  ]
    where
      positive : {n : ℕ} → suc n ≡ 0 → ⊥
      positive h = omega arith

  module _ (graph : IsGraph edges) (fuel : ℕ) (node : Text) (queue : List Text) (f : Text → ℕ)
      (done : List Text) (inv : Inv (suc fuel) (node ∷ queue) f done) where
    abbrev pub next : (Text → ℕ) × List Text
    next = relax (dependents edges node) f queue

    here : contains (node ∷ queue) node ≡ true
    here = rw (beq_refl node) refl

    fresh : contains done node ≡ false
    fresh = elim (Bool-cases (contains done node)) [
      | inl c ↦ absurd (clash (inv.apart node c) here)
      | inr c ↦ c
    ]
      where
        clash : {b : Bool} → b ≡ false → b ≡ true → ⊥
        clash h k = cc

    degree_of :
        (t : Text) → next.0 t ≡ (if contains (dependencies edges t) node then f t - 1 else f t)
    degree_of t =
        relax-degree (dependents edges node) f queue t (dependents-IsDistinct edges node graph.0)
        ∙ ap (λ b. if b then f t - 1 else f t) (contains-dependents edges node t graph.0)

    queued :
        (t : Text)
        → contains next.1 t
          ≡ (contains queue t || (contains (dependencies edges t) node && f t - 1 == 0))
    queued t =
        relax-queue (dependents edges node) f queue t (dependents-IsDistinct edges node graph.0)
        ∙ ap (λ b. contains queue t || (b && f t - 1 == 0))
            (contains-dependents edges node t graph.0)

    -- A table that waits for this one has a positive in-degree.
    waits : (t : Text) → contains (dependencies edges t) node ≡ true → 1 ≤ f t
    waits t h =
        omega (arith, inv.counts t, unseen-positive done node (dependencies edges t) fresh h)

    counts_next : (t : Text) → next.0 t ≡ unseen (done ++ (node ∷ [])) (dependencies edges t)
    counts_next t =
        degree_of t
        ∙ ap (λ n. if contains (dependencies edges t) node then n - 1 else n) (inv.counts t)
        ∙ sym (
            unseen-snoc done node (dependencies edges t) (dependencies-IsDistinct edges t graph.1)
              fresh)

    or_right : (a b : Bool) → b ≡ true → (a || b) ≡ true
    or_right a b h = ground arith

    later_ready : (t : Text) → contains queue t ≡ true → f t ≡ 0
    later_ready t h = inv.ready t (or_right (t == node) (contains queue t) h)

    zero_after :
        (q b : Bool) (n m : ℕ)
        → m ≡ (if b then n - 1 else n)
        → (q || (b && n - 1 == 0)) ≡ true
        → (q ≡ true → n ≡ 0)
        → m ≡ 0
    zero_after q b n m same h k = ground arith

    ready_next : (t : Text) → contains next.1 t ≡ true → next.0 t ≡ 0
    ready_next t h =
        zero_after (contains queue t) (contains (dependencies edges t) node) (f t) (next.0 t)
          (degree_of t) (sym (queued t) ∙ h) (later_ready t)

    waiting_apart :
        (ts : List Text)
        → ((t : Text) → contains ts t ≡ true → 1 ≤ f t)
        → All (λ d. contains queue d ≡ false) ts
    waiting_apart [] h = tt
    waiting_apart (t ∷ ts) h = (
      apart_at t (h t (rw (beq_refl t) refl)),
      waiting_apart ts (λ x k. h x (or_right (x == t) (contains ts x) k)),
    )
      where
        apart_at : (t : Text) → 1 ≤ f t → contains queue t ≡ false
        apart_at t h = elim (Bool-cases (contains queue t)) [
          | inl c ↦ absurd (omega (arith, later_ready t c))
          | inr c ↦ c
        ]

    queue_next : IsDistinct next.1
    queue_next =
        relax-IsDistinct (dependents edges node) f queue (dependents-IsDistinct edges node graph.0)
          inv.queue_set.1
          (waiting_apart (dependents edges node)
            (λ t h. waits t (sym (contains-dependents edges node t graph.0) ∙ h)))

    done_before :
        (t : Text) → contains (done ++ (node ∷ [])) t ≡ true → (contains done t ≡ true) ⊎ (t ≡ node)
    done_before t h =
        split (contains done t) (t == node) (sym (contains-snoc done node t) ∙ h)
          ((text_eq_iff t node).0)
      where
        split : (a b : Bool) → (a || b) ≡ true → (b ≡ true → t ≡ node) → (a ≡ true) ⊎ (t ≡ node)
        split true b h k = inl refl
        split false b h k = inr (k h)

    -- A table that is done, or is being done, has no in-degree left.
    settled_degree : (t : Text) → contains (done ++ (node ∷ [])) t ≡ true → f t ≡ 0
    settled_degree t h = elim (done_before t h) [
      | inl old ↦ inv.finished t old
      | inr now ↦ inv.ready t (rw (now, beq_refl node) refl)
    ]

    stays_zero : (b : Bool) (n : ℕ) → n ≡ 0 → (if b then n - 1 else n) ≡ 0
    stays_zero b n h = ground arith

    finished_next : (t : Text) → contains (done ++ (node ∷ [])) t ≡ true → next.0 t ≡ 0
    finished_next t h =
        degree_of t ∙ stays_zero (contains (dependencies edges t) node) (f t) (settled_degree t h)

    apart_next : (t : Text) → contains (done ++ (node ∷ [])) t ≡ true → contains next.1 t ≡ false
    apart_next t h =
        queued t
        ∙ neither (contains queue t) (contains (dependencies edges t) node) (f t)
            (elim (done_before t h) [
              | inl old ↦ tail_of (t == node) (contains queue t) (inv.apart t old)
              | inr now ↦ rw now inv.queue_set.0
            ])
            (settled_degree t h) (waits t)
      where
        tail_of : (a b : Bool) → (a || b) ≡ false → b ≡ false
        tail_of a b h = ground arith

        neither :
            (q b : Bool) (n : ℕ)
            → q ≡ false
            → n ≡ 0
            → (b ≡ true → 1 ≤ n)
            → (q || (b && n - 1 == 0)) ≡ false
        neither q b n h k w = ground arith

    Settled-next : Settled edges [] (done ++ (node ∷ []))
    Settled-next =
        Settled-snoc [] done node inv.settled
          (none_unseen done (dependencies edges node) (sym (inv.counts node) ∙ inv.ready node here))

    full_next :
        (t : Text)
        → contains (all_tables edges) t ≡ true
        → next.0 t ≡ 0
        → (contains (done ++ (node ∷ [])) t || contains next.1 t) ≡ true
    full_next t h zero_now =
        rw (contains-snoc done node t, queued t)
          (covered (contains done t) (t == node) (contains queue t)
            (contains (dependencies edges t) node) (f t) (sym (degree_of t) ∙ zero_now)
            (inv.full t h))
      where
        all_true : (d s q : Bool) → ((d || s) || (q || true)) ≡ true
        all_true d s q = ground arith

        clash : {b : Bool} → b ≡ false → b ≡ true → ⊥
        clash h k = cc

        shuffled : (d s q : Bool) → (d || (s || q)) ≡ true → ((d || s) || (q || false)) ≡ true
        shuffled d s q h = ground arith

        covered :
            (d s q b : Bool) (n : ℕ)
            → (if b then n - 1 else n) ≡ 0
            → (n ≡ 0 → (d || (s || q)) ≡ true)
            → ((d || s) || (q || (b && n - 1 == 0))) ≡ true
        covered d s q true n h k = elim (Bool-cases (n - 1 == 0)) [
          | inl e ↦ rw e (all_true d s q)
          | inr e ↦ absurd (clash e ((nat_beq_iff (n - 1) 0).1 h))
        ]
        covered d s q false n h k = shuffled d s q (k h)

    known_next : (t : Text) → contains next.1 t ≡ true → contains (all_tables edges) t ≡ true
    known_next t h =
        elim (which (contains queue t) (contains (dependencies edges t) node) (f t)
          (sym (queued t) ∙ h)) [
            | inl old ↦ inv.known t (or_right (t == node) (contains queue t) old)
            | inr new ↦ all_tables_keys edges t node new
          ]
      where
        which : (q b : Bool) (n : ℕ) → (q || (b && n - 1 == 0)) ≡ true → (q ≡ true) ⊎ (b ≡ true)
        which true b n h = inl refl
        which false true n h = inr refl
        which false false n h = cc

    done_known_next :
        (t : Text) → contains (done ++ (node ∷ [])) t ≡ true → contains (all_tables edges) t ≡ true
    done_known_next t h = elim (done_before t h) [
      | inl old ↦ inv.done_known t old
      | inr now ↦ rw now (inv.known node here)
    ]

    enough_next : unseen (done ++ (node ∷ [])) (all_tables edges) ≤ fuel
    enough_next =
        one_less (contains (all_tables edges) node) _ _ (inv.known node here)
          (unseen-snoc done node (all_tables edges) (all_tables-IsDistinct edges) fresh) inv.enough
      where
        one_less :
            (b : Bool) (n m : ℕ) → b ≡ true → m ≡ (if b then n - 1 else n) → n ≤ suc fuel → m ≤ fuel
        one_less b n m h k l = ground arith

    pub turn : Inv fuel next.1 next.0 (done ++ (node ∷ []))
    turn = record {
      counts = counts_next;
      ready = ready_next;
      queue_set = queue_next;
      done_set = IsDistinct-snoc done node inv.done_set fresh;
      apart = apart_next;
      finished = finished_next;
      settled = Settled-next;
      full = full_next;
      known = known_next;
      done_known = done_known_next;
      enough = enough_next;
    }
