-- ===== src/Core/Planner/Index.antt =====
-- The node map of a plan agrees with its graph and with its steps.
use magna.Base.{
  ℕ, ◌+◌, ◌≡◌, refl, sym, ap, ◌∙◌, ◌↔◌, inl, inr, List, [], ◌∷◌, ◌++◌, some, arith, Memᴰ, mem_cast,
  some_inj, mem_left, mem_right, mem_split, IsDistinct, IsDistinct-append_last, length,
  length-append, insert-IsDistinct, IsDistinct-middle, get_elem?, get_elem?-append_cases,
  get_elem?-append_left, get_elem?-append_last, lt-length_of_get, mem_of_get, Map, lookup, insert,
  keys, lookup-insert, nat_eq, ◌==◌, Bool-cases, eq_of_beq, ne_of_beq, append_assoc, append-nil,
  subst,
}
use magna.Core.Step.{StepId, ExecutableStep}
use magna.Core.Petgraph.{Petgraph}
use magna.Core.Planner.{ExecutionPlan, dependencies_of, index_nodes, empty_plan}

-- `m` maps each id to its position among the weights `ws`.
abbrev pub Indexes : List StepId → Map StepId ℕ → Type 0
Indexes ws m = (id i : ℕ) → (lookup m id ≡ some i) ↔ (get_elem? ws i ≡ some id)

Indexes-nil : Indexes [] []
unfolding lookup
Indexes-nil id i = (λ h. cc, λ h. cc)

Indexes-append :
    (ws : List StepId) (w : StepId) (m : Map StepId ℕ)
    → ¬ Memᴰ w ws
    → Indexes ws m
    → Indexes (ws ++ w ∷ []) (insert w (length ws) m)
Indexes-append ws w m new ix id i = elim (Bool-cases (w == id)) [
  | inl same ↦ rw lookup-insert (
      rw same (
        λ h. rw (← (eq_of_beq w id same), ← some_inj h) (get_elem?-append_last ws w),
        λ h. elim (get_elem?-append_cases ws w i id h) [
          | inl old ↦ absurd (new (mem_cast (sym (eq_of_beq w id same)) (mem_of_get ws i old)))
          | inr last ↦ ap some (sym last.0)
        ],
      ))
  | inr other ↦ rw lookup-insert (
      rw other (
        λ h.
            let old = (ix id i).0 h in
            get_elem?-append_left ws (w ∷ []) i (lt-length_of_get ws i id old) ∙ old,
        λ h. elim (get_elem?-append_cases ws w i id h) [
          | inl old ↦ (ix id i).1 old
          | inr last ↦ absurd (ne_of_beq w id other last.1)
        ],
      ))
]

-- The loop over the node indices, from where it stands.
index_nodes-Indexes :
    (done rest : List StepId) (m : Map StepId ℕ) (i : ℕ)
    → i ≡ length done
    → IsDistinct (done ++ rest)
    → Indexes done m
    → Indexes (done ++ rest) (index_nodes i rest m)
unfolding index_nodes
index_nodes-Indexes done [] m i e d ix = rw append-nil ix
index_nodes-Indexes done (w ∷ rest) m i e d ix =
    let shape : (done ++ w ∷ []) ++ rest ≡ done ++ w ∷ rest = append_assoc done (w ∷ []) rest in
    let next : Indexes (done ++ w ∷ []) (insert w i m) =
      rw e (Indexes-append done w m (IsDistinct-middle done w rest d) ix) in
    subst (λ ws. Indexes ws (index_nodes (i + 1) rest (insert w i m))) shape
      (index_nodes-Indexes (done ++ w ∷ []) rest (insert w i m) (i + 1)
        (omega (arith, length-append done (w ∷ []))) (subst IsDistinct (sym shape) d) next)

pub index_nodes_lem : (ws : List StepId) → IsDistinct ws → Indexes ws (index_nodes 0 ws [])
index_nodes_lem ws d = index_nodes-Indexes [] ws [] 0 refl d Indexes-nil

-- `b` has an edge from `a` in the plan's graph.
abbrev pub DependsOn : (P : Petgraph) {A : Type 0} → ExecutionPlan P A → StepId → StepId → Type 0
DependsOn P plan a b = Memᴰ a (dependencies_of P plan b)

abbrev pub IsPlanned : (P : Petgraph) {A : Type 0} → ExecutionPlan P A → StepId → Type 0
IsPlanned P {A} plan id = (step : ExecutableStep A) × (lookup plan.steps id ≡ some step)

-- The graph has one node for each step of the plan, and the node map knows its index.
pub record IsIndexed (P : Petgraph) {A : Type 0} (plan : ExecutionPlan P A) : Type 0 where
  pub distinct : IsDistinct (Petgraph.node_weights P plan.graph)
  pub indexed : Indexes (Petgraph.node_weights P plan.graph) plan.node_map
  pub planned : (id : StepId) → Memᴰ id (Petgraph.node_weights P plan.graph) ↔ IsPlanned P plan id
  pub keyed : IsDistinct (keys plan.steps)
  pub named :
      (id : StepId) (step : ExecutableStep A) → lookup plan.steps id ≡ some step → step.id ≡ id

module _ (P : Petgraph) {A : Type 0} where
  open P use {
    node_weights, edges, add_node, add_node_nodes, add_node_edges, new_nodes, new_edges,
    remove_node, remove_node_nodes,
  }

  -- One round of the first loop of `build`.
  abbrev pub add_one : ExecutableStep A → ExecutionPlan P A → ExecutionPlan P A
  add_one step plan = record plan {
    graph = add_node step.id plan.graph;
    node_map = insert step.id (length (node_weights plan.graph)) plan.node_map;
    steps = insert step.id step plan.steps;
  }

  add_one-IsPlanned :
      (step : ExecutableStep A) (plan : ExecutionPlan P A)
      → IsIndexed P plan
      → (id : StepId)
      → Memᴰ id (node_weights plan.graph ++ step.id ∷ []) ↔ IsPlanned P (add_one step plan) id
  add_one-IsPlanned step plan ix id = elim (Bool-cases (step.id == id)) [
    | inl same ↦ rw lookup-insert (
        rw same (
          λ m. (step, refl),
          λ h.
              mem_right (node_weights plan.graph) (step.id ∷ [])
                (Memᴰ.head (sym (eq_of_beq step.id id same))),
        ))
    | inr other ↦ rw lookup-insert (
        rw other (
          λ m. elim (mem_split (node_weights plan.graph) (step.id ∷ []) m) [
            | inl old ↦ (ix.planned id).0 old
            | inr (Memᴰ.head p) ↦ absurd (ne_of_beq step.id id other (sym p))
            | inr (Memᴰ.tail n) ↦ elim n [ ]
          ],
          λ h. mem_left (node_weights plan.graph) (step.id ∷ []) ((ix.planned id).1 h),
        ))
  ]

  add_one-named :
      (step : ExecutableStep A) (plan : ExecutionPlan P A)
      → IsIndexed P plan
      → (id : StepId) (found : ExecutableStep A)
      → lookup (insert step.id step plan.steps) id ≡ some found
      → found.id ≡ id
  add_one-named step plan ix id found h = elim (Bool-cases (step.id == id)) [
    | inl same ↦
        let e : some step ≡ some found = rw (lookup-insert, same) at h in
        cc (eq_of_beq step.id id same)
    | inr other ↦ ix.named id found (rw (lookup-insert, other) at h)
  ]

  pub add_one-IsIndexed :
      (step : ExecutableStep A) (plan : ExecutionPlan P A)
      → IsIndexed P plan
      → ¬ Memᴰ step.id (node_weights plan.graph)
      → IsIndexed P (add_one step plan)
  add_one-IsIndexed step plan ix new = record {
    distinct =
        rw add_node_nodes
          (IsDistinct-append_last (node_weights plan.graph) step.id ix.distinct new);
    indexed =
        rw add_node_nodes
          (Indexes-append (node_weights plan.graph) step.id plan.node_map new ix.indexed);
    planned = λ id. rw add_node_nodes (add_one-IsPlanned step plan ix id);
    keyed = insert-IsDistinct step.id step plan.steps ix.keyed;
    named = add_one-named step plan ix;
  }

  pub empty_plan-IsIndexed : (n : ℕ) → IsIndexed P {A = A} (empty_plan P n)
  unfolding lookup
  empty_plan-IsIndexed n = record {
    distinct = rw new_nodes tt;
    indexed = rw new_nodes Indexes-nil;
    planned = λ id. rw new_nodes (λ m. elim m [ ], λ h. cc h.1);
    keyed = tt;
    named = λ id step h. cc;
  }
