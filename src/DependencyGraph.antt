-- ===== src/DependencyGraph.antt =====
-- python/confiture/core/introspection/dependency_graph.py: the graph of foreign keys and its
-- topological sort. A set is a list without repetition.
pub mod Relax
pub mod Turn
pub mod Sorted
pub mod Tests
use confiture.Base.{
  ℕ, zero, suc, ◌+◌, ◌-◌, ◌≡◌, Bool, true, false, not, ◌&&◌, ◌||◌, Option, none, some, List, [],
  ◌∷◌, ◌++◌, map, if◌then◌else◌, length, filterb, null, ltb, contains, ◌==◌, nat_eq, list_eq,
  IsDistinct, All,
}
use confiture.Base.Text.{Text, text_gt}
use confiture.Base.Sort.{sort}
use confiture.Base.Sets.{add}

-- `edges`: for each table, the tables that it depends on.
abbrev pub Edges : Type 0
Edges = List (Text × List Text)

-- The keys of a dictionary are distinct, and so are the elements of a set.
abbrev pub IsGraph : Edges → Type 0
IsGraph edges = IsDistinct (map (λ e. e.0) edges) × All (λ e. IsDistinct e.1) edges

-- An outbound foreign key, by the table that it points to, if that is known.
pub record Table : Type 0 where
  pub name : Text
  pub outbound_fks : List (Option Text)

-- `edges.get(table, set())`
unfoldable pub dependencies : Edges → Text → List Text
dependencies [] table = []
dependencies ((t, deps) ∷ edges) table =
    let rest = dependencies edges table in if t == table then deps else rest

-- `edges[name].add(target)`
unfoldable pub add_edge : Text → Text → Edges → Edges
add_edge name target [] = []
add_edge name target ((t, deps) ∷ edges) =
    if t == name then (t, add target deps) ∷ edges else (t, deps) ∷ add_edge name target edges

-- `if name not in edges: edges[name] = set()`
unfoldable pub add_table : Text → Edges → Edges
add_table name edges =
    if contains (map (λ e. e.0) edges) name then edges else edges ++ ((name, []) ∷ [])

unfoldable pub add_fks : Text → List (Option Text) → Edges → Edges
unfolding add_edge
add_fks name [] edges = edges
add_fks name (none ∷ fks) edges = add_fks name fks edges
add_fks name (some target ∷ fks) edges = add_fks name fks (add_edge name target edges)

-- `from_introspection`, with the edges so far.
unfoldable pub from_introspection : List Table → Edges → Edges
unfolding add_table add_fks
from_introspection [] edges = edges
from_introspection (table ∷ tables) edges =
    from_introspection tables (add_fks table.name table.outbound_fks (add_table table.name edges))

unfoldable pub add_all : List Text → List Text → List Text
add_all [] tables = tables
add_all (t ∷ ts) tables = add_all ts (add t tables)

-- `_all_tables`: the keys and what they depend on.
unfoldable pub all_tables : Edges → List Text
unfolding add_all
all_tables [] = []
all_tables ((t, deps) ∷ edges) = add_all deps (add t (all_tables edges))

-- `sorted(reverse.get(node, set()))`
unfoldable pub dependents : Edges → Text → List Text
dependents edges node = sort text_gt (map (λ e. e.0) (filterb (λ e. contains e.1 node) edges))

-- `len(self._edges.get(table, set()))`
unfoldable pub degree : Edges → Text → ℕ
unfolding dependencies
degree edges table = length (dependencies edges table)

-- `in_deg[t] = n`
abbrev pub set_degree : Text → ℕ → (Text → ℕ) → Text → ℕ
set_degree table n in_deg t = if t == table then n else in_deg t

-- The loop over the dependents. An in-degree that is counted down is positive, so counting on
-- natural numbers does what the code's integers do.
unfoldable pub relax : List Text → (Text → ℕ) → List Text → (Text → ℕ) × List Text
relax [] in_deg queue = (in_deg, queue)
relax (d ∷ ds) in_deg queue =
    let n = in_deg d - 1 in
    relax ds (set_degree d n in_deg) (if n == 0 then queue ++ (d ∷ []) else queue)

-- `while queue`, on fuel: the tables in order, and the in-degrees that are left.
unfoldable pub kahn :
    Edges → ℕ → List Text → (Text → ℕ) → List Text → Option (List Text × (Text → ℕ))
unfolding relax dependents
kahn edges fuel [] in_deg ordered = some (ordered, in_deg)
kahn edges zero (node ∷ queue) in_deg ordered = none
kahn edges (suc fuel) (node ∷ queue) in_deg ordered =
    let next = relax (dependents edges node) in_deg queue in
    kahn edges fuel next.1 next.0 (ordered ++ (node ∷ []))

pub record DependencyOrder : Type 0 where
  pub ordered : List Text
  pub cycles : List (List Text)

unfoldable pub cycles_of : List Text → List (List Text)
cycles_of [] = []
cycles_of (t ∷ remaining) = sort text_gt (t ∷ remaining) ∷ []

unfoldable pub order_of : List Text → Option (List Text × (Text → ℕ)) → Option DependencyOrder
unfolding cycles_of
order_of tables none = none
order_of tables (some (ordered, in_deg)) =
    some (record { ordered = ordered; cycles = cycles_of (filterb (λ t. ltb 0 (in_deg t)) tables) })

-- The number of tables is the fuel.
unfoldable pub topological_sort : Edges → Option DependencyOrder
unfolding all_tables degree kahn order_of
topological_sort edges =
    let tables = all_tables edges in
    order_of tables (
      kahn edges (length tables) (sort text_gt (filterb (λ t. degree edges t == 0) tables))
        (degree edges) [])
