-- ===== src/Core/Petgraph.antt =====
-- The crate petgraph, which the planner and the optimizer call: its directed graph is a parameter
-- of the model. A node carries a step id as its weight; `node_weights` lists the weights by node
-- index and `edges` the pairs of indices (source, target). The laws are those of its documentation.
pub mod ListGraph
use magna.Base.{
  ℕ, ◌<◌, ◌≡◌, ◌≢◌, ◌↔◌, List, [], ◌∷◌, ◌++◌, some, Memᴰ, length, get_elem?, IsDistinct,
}
use magna.Core.Order.{IsTopological}

-- `toposort`: an order of all node indices, or a node on a cycle.
pub data Sorted : Type 0 where
  sorted : List ℕ → Sorted
  cycle : ℕ → Sorted

abbrev pub Follows : List (ℕ × ℕ) → ℕ → ℕ → Type 0
Follows edges a b = Memᴰ (a, b) edges

-- The order holds each of `n` nodes once, each behind the sources of its edges.
pub record IsOrderOf (n : ℕ) (edges : List (ℕ × ℕ)) (order : List ℕ) : Type 0 where
  pub complete : (i : ℕ) → Memᴰ i order ↔ (i < n)
  pub distinct : IsDistinct order
  pub forward : IsTopological (Follows edges) [] order

pub record Petgraph : Type 1 where
  pub DiGraph : Type 0
  pub new : DiGraph
  pub add_node : ℕ → DiGraph → DiGraph
  pub add_edge : ℕ → ℕ → DiGraph → DiGraph
  pub clear_edges : DiGraph → DiGraph
  pub remove_node : ℕ → DiGraph → DiGraph
  pub node_weights : DiGraph → List ℕ
  pub edges : DiGraph → List (ℕ × ℕ)
  -- `neighbors_directed(index, Incoming)`
  pub incoming : DiGraph → ℕ → List ℕ
  pub toposort : DiGraph → Sorted
  pub new_nodes : node_weights new ≡ []
  pub new_edges : edges new ≡ []
  -- The new node has the next index.
  pub add_node_nodes :
      (w : ℕ) (g : DiGraph) → node_weights (add_node w g) ≡ node_weights g ++ w ∷ []
  pub add_node_edges : (w : ℕ) (g : DiGraph) → edges (add_node w g) ≡ edges g
  pub add_edge_nodes : (a b : ℕ) (g : DiGraph) → node_weights (add_edge a b g) ≡ node_weights g
  pub add_edge_edges : (a b : ℕ) (g : DiGraph) → edges (add_edge a b g) ≡ edges g ++ (a, b) ∷ []
  pub clear_edges_nodes : (g : DiGraph) → node_weights (clear_edges g) ≡ node_weights g
  pub clear_edges_edges : (g : DiGraph) → edges (clear_edges g) ≡ []
  -- Indices may move when a node is removed, so the law speaks of the weights.
  pub remove_node_nodes :
      (g : DiGraph) (i w : ℕ)
      → IsDistinct (node_weights g)
      → get_elem? (node_weights g) i ≡ some w
      → IsDistinct (node_weights (remove_node i g))
        × ((a : ℕ) → Memᴰ a (node_weights (remove_node i g)) ↔ (Memᴰ a (node_weights g) × (a ≢ w)))
  pub mem_incoming : (g : DiGraph) (a b : ℕ) → Memᴰ a (incoming g b) ↔ Memᴰ (a, b) (edges g)
  pub toposort_sorted :
      (g : DiGraph) (order : List ℕ)
      → toposort g ≡ sorted order
      → IsOrderOf (length (node_weights g)) (edges g) order
  -- The node that is reported is one of the graph.
  pub toposort_cycle :
      (g : DiGraph) (node : ℕ) → toposort g ≡ cycle node → node < length (node_weights g)
  -- No cycle is reported where an order exists.
  pub toposort_complete :
      (g : DiGraph) (order : List ℕ)
      → IsOrderOf (length (node_weights g)) (edges g) order
      → (order' : List ℕ) × (toposort g ≡ sorted order')
