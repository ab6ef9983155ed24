-- ===== src/Core/Petgraph/ListGraph/Instance.antt =====
-- The graph of two lists as a value of the interface.
use magna.Base.{
  ℕ, zero, suc, ◌≡◌, refl, sym, ◌∙◌, ◌≢◌, ◌↔◌, List, [], ◌∷◌, ◌++◌, some, some_inj, Memᴰ,
  mem_of_get, IsDistinct, get_elem?,
}
use magna.Core.Petgraph.{Petgraph}
use magna.Core.Petgraph.ListGraph.{ListGraph, sources, mem_sources, toposort}
use magna.Core.Petgraph.ListGraph.Sorts.{toposort_sorted, toposort_cycle, toposort_complete}

unfoldable pub remove_at : List ℕ → ℕ → List ℕ
remove_at [] i = []
remove_at (x ∷ xs) zero = xs
remove_at (x ∷ xs) (suc i) = x ∷ remove_at xs i

remove_at-mem :
    (xs : List ℕ) (i w : ℕ)
    → IsDistinct xs
    → get_elem? xs i ≡ some w
    → (a : ℕ) → Memᴰ a (remove_at xs i) ↔ (Memᴰ a xs × (a ≢ w))
unfolding remove_at
remove_at-mem [] i w d h a = cc
remove_at-mem (x ∷ xs) zero w d h a =
    let e : x ≡ w = some_inj h in
    (
      λ m. (Memᴰ.tail m, λ p. d.0 a m (e ∙ sym p)),
      λ (m, ne). elim m [ Memᴰ.head p ↦ absurd (ne (p ∙ e)) | Memᴰ.tail n ↦ n ],
    )
remove_at-mem (x ∷ xs) (suc i) w d h a =
    let ih = remove_at-mem xs i w d.1 h a in
    (
      λ m. elim m [
        | Memᴰ.head p ↦ (Memᴰ.head p, λ q. d.0 w (mem_of_get xs i h) (sym p ∙ q))
        | Memᴰ.tail n ↦ let (k, ne) = ih.0 n in (Memᴰ.tail k, ne)
      ],
      λ (m, ne). elim m [ Memᴰ.head p ↦ Memᴰ.head p | Memᴰ.tail n ↦ Memᴰ.tail (ih.1 (n, ne)) ],
    )

remove_at-IsDistinct :
    (xs : List ℕ) (i w : ℕ) → IsDistinct xs → get_elem? xs i ≡ some w → IsDistinct (remove_at xs i)
unfolding remove_at
remove_at-IsDistinct [] i w d h = tt
remove_at-IsDistinct (x ∷ xs) zero w d h = d.1
remove_at-IsDistinct (x ∷ xs) (suc i) w d h =
    (λ a m. d.0 a ((remove_at-mem xs i w d.1 h a).0 m).0, remove_at-IsDistinct xs i w d.1 h)

pub remove_law :
    (g : ListGraph) (i w : ℕ)
    → IsDistinct g.nodes
    → get_elem? g.nodes i ≡ some w
    → IsDistinct (remove_at g.nodes i)
      × ((a : ℕ) → Memᴰ a (remove_at g.nodes i) ↔ (Memᴰ a g.nodes × (a ≢ w)))
remove_law g i w d h = (remove_at-IsDistinct g.nodes i w d h, remove_at-mem g.nodes i w d h)

-- An edge of a removed node stays; the plan adds its edges anew after a removal.
abbrev pub list_petgraph : Petgraph
list_petgraph = record {
  DiGraph = ListGraph;
  new = record { nodes = []; links = [] };
  add_node = λ w g. record g { nodes = g.nodes ++ w ∷ [] };
  add_edge = λ a b g. record g { links = g.links ++ (a, b) ∷ [] };
  clear_edges = λ g. record g { links = [] };
  remove_node = λ i g. record g { nodes = remove_at g.nodes i };
  node_weights = λ g. g.nodes;
  edges = λ g. g.links;
  incoming = λ g b. sources g.links b;
  toposort = toposort;
  new_nodes = refl;
  new_edges = refl;
  add_node_nodes = λ w g. refl;
  add_node_edges = λ w g. refl;
  add_edge_nodes = λ a b g. refl;
  add_edge_edges = λ a b g. refl;
  clear_edges_nodes = λ g. refl;
  clear_edges_edges = λ g. refl;
  remove_node_nodes = remove_law;
  mem_incoming = λ g a b. mem_sources g.links a b;
  toposort_sorted = toposort_sorted;
  toposort_cycle = toposort_cycle;
  toposort_complete = toposort_complete;
}
