-- ===== src/Digraph.antt =====
-- The directed graphs that graph.py and runner.py take from networkx, as an interface: the
-- operations that the code calls, and what networkx documents of them.
pub mod Walk
pub mod Edges
use pypipegraph.Prelude.{
  Bool, List, Option, String, contains, false, length, not, some, true, ℕ, ◌&&◌, ◌<◌, ◌==◌, ◌||◌,
  ◌≡◌, ◌≤◌,
}

pub record Digraph : Type 1 where
  pub Graph : Type 0
  pub empty : Graph
  pub nodes : Graph → List String
  pub has_edge : Graph → String → String → Bool
  pub add_node : String → Graph → Graph
  pub add_edge : String → String → Graph → Graph
  -- for a node of the graph; the callers test for it, or catch the NetworkXError
  pub remove_node : String → Graph → Graph
  -- `none` is the NetworkXError for an id that is no node
  pub successors : Graph → String → Option (List String)
  pub predecessors : Graph → String → Option (List String)
  pub is_directed_acyclic_graph : Graph → Bool
  pub nodes-empty : (v : String) → contains (nodes empty) v ≡ false
  pub has_edge-empty : (u v : String) → has_edge empty u v ≡ false
  pub nodes-add_node :
      (u v : String) (g : Graph)
      → contains (nodes (add_node u g)) v ≡ (u == v || contains (nodes g) v)
  pub has_edge-add_node :
      (u x y : String) (g : Graph) → has_edge (add_node u g) x y ≡ has_edge g x y
  pub nodes-add_edge :
      (u v w : String) (g : Graph)
      → contains (nodes (add_edge u v g)) w ≡ (u == w || v == w || contains (nodes g) w)
  pub has_edge-add_edge :
      (u v x y : String) (g : Graph)
      → has_edge (add_edge u v g) x y ≡ (u == x && v == y || has_edge g x y)
  pub nodes-remove_node :
      (u v : String) (g : Graph)
      → contains (nodes (remove_node u g)) v ≡ (not (u == v) && contains (nodes g) v)
  pub has_edge-remove_node :
      (u x y : String) (g : Graph)
      → has_edge (remove_node u g) x y ≡ (not (u == x) && (not (u == y) && has_edge g x y))
  -- the ends of an edge are nodes
  pub has_edge-nodes :
      (x y : String) (g : Graph)
      → has_edge g x y ≡ true
      → (contains (nodes g) x ≡ true) × (contains (nodes g) y ≡ true)
  pub successors_lem :
      (g : Graph) (u : String)
      → contains (nodes g) u ≡ true
      → (ks : List String) × (successors g u ≡ some ks)
        × ((v : String) → contains ks v ≡ has_edge g u v)
  pub predecessors_lem :
      (g : Graph) (v : String)
      → contains (nodes g) v ≡ true
      → (ks : List String) × (predecessors g v ≡ some ks)
        × ((u : String) → contains ks u ≡ has_edge g u v)
  -- an acyclic graph has a topological order: positions in it that every edge goes up
  pub topological_order :
      (g : Graph)
      → is_directed_acyclic_graph g ≡ true
      → (position : String → ℕ) × ((u v : String) → has_edge g u v ≡ true → position u < position v)
        × ((u : String) → position u ≤ length (nodes g))
