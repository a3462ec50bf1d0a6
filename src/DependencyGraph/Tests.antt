-- ===== src/DependencyGraph/Tests.antt =====
-- A graph with a cycle, and a table that depends on it.
use confiture.Base.{
  ◌≡◌, refl, not, ◌&&◌, none, some, [], ◌∷◌, contains, anyb, nat_eq, list_eq, IsDistinct,
}
use confiture.Base.Text.{Text, codes}
use confiture.DependencyGraph.{
  Edges, DependencyOrder, dependencies, degree, add_edge, add_table, add_fks, from_introspection,
  add_all, all_tables, dependents, relax, kahn, cycles_of, order_of, topological_sort,
}
use confiture.DependencyGraph.Sorted.{topological_sort_lem}
use confiture.DependencyGraph.Turn.{Settled}

abbrev users : Text
users = codes "users"

abbrev posts : Text
posts = codes "posts"

abbrev a : Text
a = codes "a"

abbrev b : Text
b = codes "b"

abbrev c : Text
c = codes "c"

abbrev edges : Edges
edges = (posts, users ∷ []) ∷ (a, b ∷ []) ∷ (b, a ∷ []) ∷ (c, a ∷ []) ∷ []

program : Unit {0}
unfolding topological_sort kahn relax dependents all_tables add_all degree dependencies order_of
    cycles_of from_introspection add_table add_fks add_edge
program = tt

-- The table `c` is on no cycle, but it is reported with the cycle that it depends on.
sorts :
    topological_sort edges
    ≡ some (record { ordered = users ∷ posts ∷ []; cycles = (a ∷ b ∷ c ∷ []) ∷ [] })
unfolding program
sorts = refl

introspects :
    from_introspection
      (record { name = posts; outbound_fks = some users ∷ none ∷ some users ∷ [] } ∷ [])
      []
    ≡ (posts, users ∷ []) ∷ []
unfolding program
introspects = refl

topological_sort_example :
    (order : DependencyOrder) × (topological_sort edges ≡ some order)
    × IsDistinct order.ordered
    × Settled edges [] order.ordered
    × ((t : Text)
        → contains order.ordered t
          ≡ (contains (all_tables edges) t && not (anyb (λ c. contains c t) order.cycles)))
topological_sort_example =
    topological_sort_lem edges (
      (refl, (refl, (refl, (refl, tt)))),
      ((refl, tt), ((refl, tt), ((refl, tt), ((refl, tt), tt)))),
    )
