-- ===== src/Core/Planner/Orders.antt =====
-- Orders of node indices and orders of step ids say the same.
use magna.Base.{
  ℕ, ◌<◌, ◌≡◌, refl, sym, ap, ◌∙◌, ◌↔◌, List, [], ◌∷◌, map, none, some, Memᴰ, mem_cast, mem_map,
  mem_unmap, mem_of_get, IsDistinct, Map, lookup, nat_eq, length, get_elem?, get_of_lt,
  lt-length_of_get, get_unique, some_inj, subst,
}
use magna.Core.Step.{StepId}
use magna.Core.Order.{IsTopological}
use magna.Core.Petgraph.{Petgraph, Follows, IsOrderOf}
use magna.Core.Planner.{ExecutionPlan, dependencies_of, weight}
use magna.Core.Planner.Index.{IsIndexed, IsPlanned, DependsOn}
use magna.Core.Planner.Nodes.{index_of}
use magna.Core.Planner.Links.{Link}
use magna.Core.Planner.Wiring.{IsWired, IsWired-of_links}

-- The graph holds the steps of the plan, and its edges are their dependencies after `remap`.
pub record IsPlan (P : Petgraph) {A : Type 0} (remap : Map StepId StepId) (plan : ExecutionPlan P A)
    : Type 0 where
  pub indexed : IsIndexed P plan
  pub links :
      (a b : ℕ)
      → Memᴰ (a, b) (Petgraph.edges P plan.graph) ↔ Link remap plan.node_map plan.steps a b

pub IsPlan-IsWired :
    (P : Petgraph) {A : Type 0} (remap : Map StepId StepId) (plan : ExecutionPlan P A)
    → IsPlan P remap plan
    → IsWired P remap plan
IsPlan-IsWired P remap plan h = IsWired-of_links P remap plan h.indexed h.links

-- The steps of the plan, each once and behind its dependencies.
pub record IsIdOrder (P : Petgraph) {A : Type 0} (plan : ExecutionPlan P A) (order : List StepId)
    : Type 0 where
  pub complete : (id : StepId) → Memᴰ id order ↔ IsPlanned P plan id
  pub distinct : IsDistinct order
  pub forward : IsTopological (DependsOn P plan) [] order

module _ (P : Petgraph) {A : Type 0} (plan : ExecutionPlan P A) (ix : IsIndexed P plan) where
  open P use {node_weights, edges, incoming, mem_incoming}

  get-weight :
      (i : ℕ)
      → i < length (node_weights plan.graph)
      → get_elem? (node_weights plan.graph) i ≡ some (weight P plan.graph i)
  get-weight i h = let (w, e) = get_of_lt (node_weights plan.graph) i h in rw (e, weight)

  weight-IsPlanned :
      (i : ℕ) → i < length (node_weights plan.graph) → IsPlanned P plan (weight P plan.graph i)
  weight-IsPlanned i h = (ix.planned _).0 (mem_of_get (node_weights plan.graph) i (get-weight i h))

  weights-IsDistinct :
      (order : List ℕ)
      → ((i : ℕ) → Memᴰ i order → i < length (node_weights plan.graph))
      → IsDistinct order
      → IsDistinct (map (weight P plan.graph) order)
  weights-IsDistinct [] below d = tt
  weights-IsDistinct (i ∷ rest) below d = (
    λ w m e.
        let (j, n, p) = mem_unmap (weight P plan.graph) rest m in
        d.0 j n (
          get_unique (node_weights plan.graph) i j w ix.distinct
            (get-weight i (below i (Memᴰ.head refl)) ∙ ap some e)
            (get-weight j (below j (Memᴰ.tail n)) ∙ ap some (sym p))),
    weights-IsDistinct rest (λ j n. below j (Memᴰ.tail n)) d.1,
  )

  weights-forward :
      (seen order : List ℕ)
      → ((i : ℕ) → Memᴰ i order → i < length (node_weights plan.graph))
      → IsTopological (Follows (edges plan.graph)) seen order
      → IsTopological
          (DependsOn P plan)
          (map (weight P plan.graph) seen)
          (map (weight P plan.graph) order)
  unfolding dependencies_of
  weights-forward seen [] below t = tt
  weights-forward seen (i ∷ rest) below t = (
    λ a m.
        let at : lookup plan.node_map (weight P plan.graph i) ≡ some i =
          (ix.indexed _ i).1 (get-weight i (below i (Memᴰ.head refl))) in
        let (j, inc, e) =
          mem_unmap (weight P plan.graph) (incoming plan.graph i) (rw (at, dependencies_of) at m) in
        mem_cast (sym e)
          (mem_map (weight P plan.graph) seen (t.0 j ((mem_incoming plan.graph j i).0 inc))),
    weights-forward (i ∷ seen) rest (λ j n. below j (Memᴰ.tail n)) t.1,
  )

  pub ids_of_order :
      (order : List ℕ)
      → IsOrderOf (length (node_weights plan.graph)) (edges plan.graph) order
      → IsIdOrder P plan (map (weight P plan.graph) order)
  ids_of_order order o =
      let below = λ (i : ℕ) (m : Memᴰ i order). (o.complete i).0 m in
      record {
        complete = λ id. (
          λ m.
              let (i, n, e) = mem_unmap (weight P plan.graph) order m in
              subst (IsPlanned P plan) (sym e) (weight-IsPlanned i (below i n)),
          λ h.
              let (i, at, stands) = index_of P plan id ix h in
              let n = (o.complete i).1 (lt-length_of_get (node_weights plan.graph) i id stands) in
              mem_cast (some_inj (sym (get-weight i (below i n)) ∙ stands))
                (mem_map (weight P plan.graph) order n),
        );
        distinct = weights-IsDistinct order below o.distinct;
        forward = weights-forward [] order below o.forward;
      }

-- `node_map[id]`
abbrev pub index : {P : Petgraph} {A : Type 0} → ExecutionPlan P A → StepId → ℕ
index plan id = elim (lookup plan.node_map id) [ none ↦ 0 | some i ↦ i ]

module _ (P : Petgraph) {A : Type 0} (remap : Map StepId StepId) (plan : ExecutionPlan P A)
    (h : IsPlan P remap plan) where
  open P use {node_weights, edges, incoming, mem_incoming}

  get-index :
      (id : StepId)
      → IsPlanned P plan id
      → get_elem? (node_weights plan.graph) (index plan id) ≡ some id
  get-index id planned =
      let (i, at, stands) = index_of P plan id h.indexed planned in rw (at, index) stands

  index-weight :
      (i : ℕ) (id : StepId) → get_elem? (node_weights plan.graph) i ≡ some id → index plan id ≡ i
  index-weight i id stands = rw ((h.indexed.indexed id i).1 stands, index)

  indices-IsDistinct :
      (order : List StepId)
      → ((id : StepId) → Memᴰ id order → IsPlanned P plan id)
      → IsDistinct order
      → IsDistinct (map (index plan) order)
  indices-IsDistinct [] planned d = tt
  indices-IsDistinct (id ∷ rest) planned d = (
    λ i m e.
        let (b, n, p) = mem_unmap (index plan) rest m in
        d.0 b n (
          some_inj (
            sym (get-index id (planned id (Memᴰ.head refl)))
            ∙ ap (get_elem? (node_weights plan.graph)) (e ∙ p)
            ∙ get-index b (planned b (Memᴰ.tail n)))),
    indices-IsDistinct rest (λ b n. planned b (Memᴰ.tail n)) d.1,
  )

  edge-source :
      (a b : ℕ)
      → Memᴰ (a, b) (edges plan.graph)
      → (id : StepId) × (get_elem? (node_weights plan.graph) a ≡ some id)
  edge-source a b m = let l = (h.links a b).0 m in (_, (h.indexed.indexed _ a).0 l.from.found)

  indices-forward :
      (seen order : List StepId)
      → ((id : StepId) → Memᴰ id order → IsPlanned P plan id)
      → IsTopological (DependsOn P plan) seen order
      → IsTopological (Follows (edges plan.graph)) (map (index plan) seen) (map (index plan) order)
  unfolding dependencies_of
  indices-forward seen [] planned t = tt
  indices-forward seen (id ∷ rest) planned t = (
    λ a m.
        let (b, at, stands) = index_of P plan id h.indexed (planned id (Memᴰ.head refl)) in
        let (source, e) = edge-source a (index plan id) m in
        let inc : Memᴰ (weight P plan.graph a) (map (weight P plan.graph) (incoming plan.graph b)) =
          mem_map (weight P plan.graph) (incoming plan.graph b)
            ((mem_incoming plan.graph a b).1 (rw (at, index) at m)) in
        let before : Memᴰ source seen =
          t.0 source (rw (at, dependencies_of) (mem_cast (weighs a source e) inc)) in
        mem_cast (index-weight a source e) (mem_map (index plan) seen before),
    indices-forward (id ∷ seen) rest (λ b n. planned b (Memᴰ.tail n)) t.1,
  )
    where
      weighs :
          (a w : ℕ) → get_elem? (node_weights plan.graph) a ≡ some w → weight P plan.graph a ≡ w
      weighs a w e = rw (e, weight)

  pub IsOrderOf-ids :
      (order : List StepId)
      → IsIdOrder P plan order
      → IsOrderOf (length (node_weights plan.graph)) (edges plan.graph) (map (index plan) order)
  IsOrderOf-ids order o =
      let planned = λ (id : StepId) (m : Memᴰ id order). (o.complete id).0 m in
      record {
        complete = λ i. (
          λ m.
              let (id, n, e) = mem_unmap (index plan) order m in
              lt-length_of_get (node_weights plan.graph) i id (rw e (get-index id (planned id n))),
          λ below.
              let (id, e) = get_of_lt (node_weights plan.graph) i below in
              mem_cast (index-weight i id e) (
                mem_map (index plan) order (
                  (o.complete id).1
                    ((h.indexed.planned id).0 (mem_of_get (node_weights plan.graph) i e)))),
        );
        distinct = indices-IsDistinct order planned o.distinct;
        forward = indices-forward [] order planned o.forward;
      }
