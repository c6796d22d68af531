-- ===== src/Digraph/Edges.antt =====
-- A graph as lists of nodes and edges: an instance of the interface, so that what it states of
-- networkx can hold, and so that the samples run.
use pypipegraph.Digraph.{Digraph}
use pypipegraph.Prelude.{
  Bool, Bool-cases, List, String, [], add, arith, contains, contains-add, contains-remove, eq_iff,
  false, if◌then◌else◌, inl, inr, leb, length, ltb, none, not, refl, remove, some, subst, suc, true,
  zero, ℕ, ◌&&◌, ◌<◌, ◌==◌, ◌||◌, ◌∙◌, ◌∷◌, ◌≡◌, ◌≤◌,
}

pub record EdgeList : Type 0 where
  pub nodes : List String
  pub edges : List (String × String)

-- u -> v is one of the edges
unfoldable pub has : List (String × String) → String → String → Bool
has [] u v = false
has ((a, b) ∷ es) u v = a == u && b == v || has es u v

unfoldable pub targets : List (String × String) → String → List String
targets [] u = []
targets ((a, b) ∷ es) u = let rest = targets es u in if a == u then b ∷ rest else rest

unfoldable pub sources : List (String × String) → String → List String
sources [] v = []
sources ((a, b) ∷ es) v = let rest = sources es v in if b == v then a ∷ rest else rest

-- The edges whose ends are nodes: what the operations keep, and what is read.
unfoldable pub inner : List String → List (String × String) → List (String × String)
inner ns [] = []
inner ns ((a, b) ∷ es) =
    let rest = inner ns es in if contains ns a && contains ns b then (a, b) ∷ rest else rest

unfoldable pub highest : (String → ℕ) → List String → ℕ
highest f [] = 0
highest f (x ∷ xs) = let rest = highest f xs in if leb rest (f x) then suc (f x) else rest

-- The length of the longest walk of at most `fuel` edges that ends in a node.
unfoldable pub depth : List (String × String) → ℕ → String → ℕ
depth es zero v = 0
depth es (suc fuel) v = highest (depth es fuel) (sources es v)

unfoldable pub all_rise : (String → ℕ) → List (String × String) → Bool
all_rise f [] = true
all_rise f ((a, b) ∷ es) = ltb (f a) (f b) && all_rise f es

has-inner :
    (ns : List String) (es : List (String × String)) (x y : String)
    → has (inner ns es) x y ≡ (contains ns x && (contains ns y && has es x y))
unfolding has inner
has-inner ns [] x y = ground arith
has-inner ns ((a, b) ∷ es) x y = ground (arith, has-inner ns es x y, eq_iff a x, eq_iff b y)

contains-targets :
    (es : List (String × String)) (u v : String) → contains (targets es u) v ≡ has es u v
unfolding has targets contains
contains-targets [] u v = refl
contains-targets ((a, b) ∷ es) u v = ground (arith, contains-targets es u v)

contains-sources :
    (es : List (String × String)) (u v : String) → contains (sources es v) u ≡ has es u v
unfolding has sources contains
contains-sources [] u v = refl
contains-sources ((a, b) ∷ es) u v = ground (arith, contains-sources es u v)

highest-le :
    (f : String → ℕ) (k : ℕ) (xs : List String) → ((x : String) → f x ≤ k) → highest f xs ≤ suc k
unfolding highest
highest-le f k [] h = omega arith
highest-le f k (x ∷ xs) h = ground (arith, highest-le f k xs h, h x)

depth-le : (es : List (String × String)) (fuel : ℕ) (v : String) → depth es fuel v ≤ fuel
unfolding depth
depth-le es zero v = omega arith
depth-le es (suc fuel) v = highest-le (depth es fuel) fuel (sources es v) (depth-le es fuel)

all_rise-has :
    (f : String → ℕ) (es : List (String × String)) (u v : String)
    → all_rise f es ≡ true
    → has es u v ≡ true
    → f u < f v
unfolding all_rise has
all_rise-has f [] u v rise h = cc
all_rise-has f ((a, b) ∷ es) u v rise h = elim (Bool-cases (a == u && b == v)) [
  | inl same ↦
      let (e1, e2) = both_true (a == u) (b == v) same in
      subst (λ x. f x < f v) ((eq_iff a u).0 e1)
        (subst (λ y. f a < f y) ((eq_iff b v).0 e2) (ground arith))
  | inr other ↦ all_rise-has f es u v (ground arith) (ground arith)
]
  where
    both_true : (p q : Bool) → (p && q) ≡ true → (p ≡ true) × (q ≡ true)
    both_true p q h = ground arith

pub add_node_edges :
    (u x y : String) (g : EdgeList)
    → (contains (add u g.nodes) x
        && (contains (add u g.nodes) y && has (inner g.nodes g.edges) x y))
      ≡ (contains g.nodes x && (contains g.nodes y && has g.edges x y))
add_node_edges u x y g =
    ground
      (arith, contains-add u x g.nodes, contains-add u y g.nodes, has-inner g.nodes g.edges x y)

pub add_edge_nodes :
    (u v w : String) (g : EdgeList)
    → contains (add u (add v g.nodes)) w ≡ (u == w || v == w || contains g.nodes w)
add_edge_nodes u v w g = ground (arith, contains-add u w (add v g.nodes), contains-add v w g.nodes)

pub add_edge_edges :
    (u v x y : String) (g : EdgeList)
    → (contains (add u (add v g.nodes)) x
        && (contains (add u (add v g.nodes)) y && has ((u, v) ∷ inner g.nodes g.edges) x y))
      ≡ (u == x && v == y || (contains g.nodes x && (contains g.nodes y && has g.edges x y)))
unfolding has
add_edge_edges u v x y g =
    ground (arith, add_edge_nodes u v x g, add_edge_nodes u v y g, has-inner g.nodes g.edges x y)

pub remove_node_edges :
    (u x y : String) (g : EdgeList)
    → (contains (remove u g.nodes) x && (contains (remove u g.nodes) y && has g.edges x y)) ≡ (
        not (u == x)
        && (not (u == y) && (contains g.nodes x && (contains g.nodes y && has g.edges x y))))
remove_node_edges u x y g = ground (arith, contains-remove u x g.nodes, contains-remove u y g.nodes)

pub edge_ends : (p q r : Bool) → (p && (q && r)) ≡ true → (p ≡ true) × (q ≡ true)
edge_ends p q r h = ground arith

pub found_successors :
    (g : EdgeList) (u : String)
    → contains g.nodes u ≡ true
    → (ks : List String) × ((if contains g.nodes u
          then some (targets (inner g.nodes g.edges) u)
          else none)
        ≡ some ks)
      × ((v : String)
          → contains ks v ≡ (contains g.nodes u && (contains g.nodes v && has g.edges u v)))
found_successors g u h = (
  targets (inner g.nodes g.edges) u,
  rw h,
  λ v. contains-targets (inner g.nodes g.edges) u v ∙ has-inner g.nodes g.edges u v,
)

pub found_predecessors :
    (g : EdgeList) (v : String)
    → contains g.nodes v ≡ true
    → (ks : List String) × ((if contains g.nodes v
          then some (sources (inner g.nodes g.edges) v)
          else none)
        ≡ some ks)
      × ((u : String)
          → contains ks u ≡ (contains g.nodes u && (contains g.nodes v && has g.edges u v)))
found_predecessors g v h = (
  sources (inner g.nodes g.edges) v,
  rw h,
  λ u. contains-sources (inner g.nodes g.edges) u v ∙ has-inner g.nodes g.edges u v,
)

pub order :
    (g : EdgeList)
    → all_rise (depth (inner g.nodes g.edges) (length g.nodes)) (inner g.nodes g.edges) ≡ true
    → (position : String → ℕ) × ((u v : String)
        → (contains g.nodes u && (contains g.nodes v && has g.edges u v)) ≡ true
        → position u < position v)
      × ((u : String) → position u ≤ length g.nodes)
order g h =
    let es = inner g.nodes g.edges in
    (
      depth es (length g.nodes),
      λ u v e.
          all_rise-has (depth es (length g.nodes)) es u v h (has-inner g.nodes g.edges u v ∙ e),
      depth-le es (length g.nodes),
    )

pub contains-nil : (v : String) → contains [] v ≡ false
unfolding contains
contains-nil v = refl

pub no_nodes : (u v : String) → (contains [] u && (contains [] v && has [] u v)) ≡ false
unfolding contains
no_nodes u v = refl

abbrev pub edge_lists : Digraph
edge_lists = record {
  Graph = EdgeList;
  empty = record { nodes = []; edges = [] };
  nodes = λ g. g.nodes;
  has_edge = λ g x y. contains g.nodes x && (contains g.nodes y && has g.edges x y);
  add_node = λ u g. record { nodes = add u g.nodes; edges = inner g.nodes g.edges };
  add_edge =
      λ u v g. record { nodes = add u (add v g.nodes); edges = (u, v) ∷ inner g.nodes g.edges };
  remove_node = λ u g. record g { nodes = remove u g.nodes };
  successors = λ g u. if contains g.nodes u then some (targets (inner g.nodes g.edges) u) else none;
  predecessors =
      λ g v. if contains g.nodes v then some (sources (inner g.nodes g.edges) v) else none;
  is_directed_acyclic_graph =
      λ g. let es = inner g.nodes g.edges in all_rise (depth es (length g.nodes)) es;
  nodes-empty = contains-nil;
  has_edge-empty = λ u v. no_nodes u v;
  nodes-add_node = λ u v g. contains-add u v g.nodes;
  has_edge-add_node = add_node_edges;
  nodes-add_edge = add_edge_nodes;
  has_edge-add_edge = add_edge_edges;
  nodes-remove_node = λ u v g. contains-remove u v g.nodes;
  has_edge-remove_node = remove_node_edges;
  has_edge-nodes =
      λ x y g h. edge_ends (contains g.nodes x) (contains g.nodes y) (has g.edges x y) h;
  successors_lem = found_successors;
  predecessors_lem = found_predecessors;
  topological_order = order;
}
