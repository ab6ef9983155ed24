-- ===== src/Core/Optimizer/Hoist.antt =====
-- Hoisting moves unary steps forward and keeps the order a topological one.
use mathlib.Core.List.{Perm, perm_middle}
use mathlib.Core.List.Perm
use magna.Base.{
  ℕ, ◌≡◌, sym, ◌∙◌, inl, inr, Bool, true, false, ◌&&◌, List, [], ◌∷◌, ◌++◌, none, some, arith, Memᴰ,
  Includes, mem_cast, mem_of_contains, Bool-cases, lookup, append_assoc, append-nil, nat_eq, All,
  IsDistinct, mem_left, mem_right, mem_split, ◌↔◌, refl,
}
use magna.Core.Step.{StepId}
use magna.Core.Order.{IsTopological, IsTopological-append}
use magna.Core.Petgraph.{Petgraph}
use magna.Core.Planner.{ExecutionPlan, dependencies_of}
use magna.Core.Planner.Index.{DependsOn, IsPlanned}
use magna.Core.Optimizer.Passes.{all_placed, split_unary, hoist_unary_steps}

all_placed_sound :
    (placed deps : List StepId) → all_placed placed deps ≡ true → Includes placed deps
unfolding all_placed
all_placed_sound placed [] h a m = elim m [ ]
all_placed_sound placed (dep ∷ deps) h a (Memᴰ.head p) =
    mem_cast (sym p) (mem_of_contains placed dep (ground arith))
all_placed_sound placed (dep ∷ deps) h a (Memᴰ.tail m) =
    all_placed_sound placed deps (ground arith) a m

module _ (P : Petgraph) {A : Type 0} (plan : ExecutionPlan P A) where
  -- The step is unary, and all that it depends on is placed.
  is_hoisted : List StepId → StepId → Bool
  is_hoisted placed id = elim (lookup plan.steps id) [
    | none ↦ false
    | some step ↦ step.is_unary && all_placed placed (dependencies_of P plan id)
  ]

  hoisted_of : List StepId → List StepId → List StepId
  hoisted_of placed [] = []
  hoisted_of placed (id ∷ rest) = elim (is_hoisted placed id) [
    | true ↦ id ∷ hoisted_of (id ∷ placed) rest
    | false ↦ hoisted_of placed rest
  ]

  deferred_of : List StepId → List StepId → List StepId
  deferred_of placed [] = []
  deferred_of placed (id ∷ rest) = elim (is_hoisted placed id) [
    | true ↦ deferred_of (id ∷ placed) rest
    | false ↦ id ∷ deferred_of placed rest
  ]

  split_unary_lem :
      (placed hoisted deferred order : List StepId)
      → All (IsPlanned P plan) order
      → split_unary P plan placed hoisted deferred order
        ≡ (hoisted ++ hoisted_of placed order, deferred ++ deferred_of placed order)
  unfolding split_unary hoisted_of deferred_of is_hoisted
  split_unary_lem placed hoisted deferred [] h = cc (append-nil hoisted, append-nil deferred)
  split_unary_lem placed hoisted deferred (id ∷ rest) ((step, e), h) =
      rw (e, split_unary, hoisted_of, deferred_of, is_hoisted)
        (elim (Bool-cases (step.is_unary && all_placed placed (dependencies_of P plan id))) [
          | inl yes' ↦ rw yes' (
              split_unary_lem (id ∷ placed) (hoisted ++ id ∷ []) deferred rest h
              ∙ cc (append_assoc hoisted (id ∷ []) (hoisted_of (id ∷ placed) rest)))
          | inr no' ↦ rw no' (
              split_unary_lem placed hoisted (deferred ++ id ∷ []) rest h
              ∙ cc (append_assoc deferred (id ∷ []) (deferred_of placed rest)))
        ])

  is_hoisted_sound :
      (placed : List StepId) (id : StepId)
      → is_hoisted placed id ≡ true
      → (a : ℕ) → DependsOn P plan a id
      → Memᴰ a placed
  unfolding is_hoisted
  is_hoisted_sound placed id h = all_placed_sound placed (dependencies_of P plan id) (ground arith)

  hoisted_of-IsTopological :
      (placed order : List StepId)
      → IsTopological (DependsOn P plan) placed (hoisted_of placed order)
  unfolding hoisted_of
  hoisted_of-IsTopological placed [] = tt
  hoisted_of-IsTopological placed (id ∷ rest) = elim (Bool-cases (is_hoisted placed id)) [
    | inl h ↦
        rw (h, hoisted_of)
          (is_hoisted_sound placed id h, hoisted_of-IsTopological (id ∷ placed) rest)
    | inr h ↦ rw (h, hoisted_of) (hoisted_of-IsTopological placed rest)
  ]

  -- `more` holds what stood before and all that is hoisted.
  deferred_of-IsTopological :
      (seen placed more order : List StepId)
      → IsTopological (DependsOn P plan) seen order
      → Includes more seen
      → Includes more (hoisted_of placed order)
      → IsTopological (DependsOn P plan) more (deferred_of placed order)
  unfolding hoisted_of deferred_of
  deferred_of-IsTopological seen placed more [] t old new = tt
  deferred_of-IsTopological seen placed more (id ∷ rest) t old new =
      elim (Bool-cases (is_hoisted placed id)) [
        | inl h ↦
            let new' : Includes more (id ∷ hoisted_of (id ∷ placed) rest) =
              rw (h, hoisted_of) at new in
            rw (h, deferred_of)
              (deferred_of-IsTopological (id ∷ seen) (id ∷ placed) more rest t.1
                (λ a. elim [ Memᴰ.head p ↦ new' a (Memᴰ.head p) | Memᴰ.tail m ↦ old a m ])
                (λ a m. new' a (Memᴰ.tail m)))
        | inr h ↦
            let new' : Includes more (hoisted_of placed rest) = rw (h, hoisted_of) at new in
            rw (h, deferred_of)
              (
                λ a d. old a (t.0 a d),
                deferred_of-IsTopological (id ∷ seen) placed (id ∷ more) rest t.1
                    (λ a. elim [ Memᴰ.head p ↦ Memᴰ.head p | Memᴰ.tail m ↦ Memᴰ.tail (old a m) ])
                    (λ a m. Memᴰ.tail (new' a m)),
              )
      ]

  split-perm :
      (placed order : List StepId)
      → Perm (hoisted_of placed order ++ deferred_of placed order) order
  unfolding hoisted_of deferred_of
  split-perm placed [] = Perm.refl []
  split-perm placed (id ∷ rest) = elim (Bool-cases (is_hoisted placed id)) [
    | inl h ↦ rw (h, hoisted_of, deferred_of) (Perm.cons id (split-perm (id ∷ placed) rest))
    | inr h ↦
        rw (h, hoisted_of, deferred_of)
          (Perm.trans (perm_middle _ _) (Perm.cons id (split-perm placed rest)))
  ]

  mem_split_of :
      (placed order : List StepId) (a : StepId)
      → Memᴰ a (hoisted_of placed order ++ deferred_of placed order) ↔ Memᴰ a order
  unfolding hoisted_of deferred_of
  mem_split_of placed [] a = (λ m. m, λ m. m)
  mem_split_of placed (id ∷ rest) a = elim (Bool-cases (is_hoisted placed id)) [
    | inl h ↦
        let ih = mem_split_of (id ∷ placed) rest a in
        rw (h, hoisted_of, deferred_of)
          (
            λ m. elim m [ Memᴰ.head p ↦ Memᴰ.head p | Memᴰ.tail n ↦ Memᴰ.tail (ih.0 n) ],
            λ m. elim m [ Memᴰ.head p ↦ Memᴰ.head p | Memᴰ.tail n ↦ Memᴰ.tail (ih.1 n) ],
          )
    | inr h ↦
        let ih = mem_split_of placed rest a in
        rw (h, hoisted_of, deferred_of)
          (
            λ m. elim (mem_split (hoisted_of placed rest) (id ∷ deferred_of placed rest) m) [
              | inl l ↦
                  Memᴰ.tail (ih.0 (mem_left (hoisted_of placed rest) (deferred_of placed rest) l))
              | inr (Memᴰ.head p) ↦ Memᴰ.head p
              | inr (Memᴰ.tail n) ↦
                  Memᴰ.tail (ih.0 (mem_right (hoisted_of placed rest) (deferred_of placed rest) n))
            ],
            λ m. elim m [
              | Memᴰ.head p ↦
                  mem_right (hoisted_of placed rest) (id ∷ deferred_of placed rest) (Memᴰ.head p)
              | Memᴰ.tail n ↦
                  elim (mem_split (hoisted_of placed rest) (deferred_of placed rest) (ih.1 n)) [
                    | inl l ↦ mem_left (hoisted_of placed rest) (id ∷ deferred_of placed rest) l
                    | inr r ↦
                        mem_right (hoisted_of placed rest) (id ∷ deferred_of placed rest)
                          (Memᴰ.tail r)
                  ]
            ],
          )
  ]

  IsDistinct-insert :
      (xs ys : List StepId) (a : StepId)
      → IsDistinct (xs ++ ys)
      → ¬ Memᴰ a (xs ++ ys)
      → IsDistinct (xs ++ a ∷ ys)
  IsDistinct-insert [] ys a d new = (λ b m p. new (mem_cast (sym p) m), d)
  IsDistinct-insert (x ∷ xs) ys a d new = (
    λ b m p. elim (mem_split xs (a ∷ ys) m) [
      | inl l ↦ d.0 b (mem_left xs ys l) p
      | inr (Memᴰ.head q) ↦ new (Memᴰ.head (sym (p ∙ q)))
      | inr (Memᴰ.tail r) ↦ d.0 b (mem_right xs ys r) p
    ],
    IsDistinct-insert xs ys a d.1 (λ m. new (Memᴰ.tail m)),
  )

  split-IsDistinct :
      (placed order : List StepId)
      → IsDistinct order
      → IsDistinct (hoisted_of placed order ++ deferred_of placed order)
  unfolding hoisted_of deferred_of
  split-IsDistinct placed [] d = tt
  split-IsDistinct placed (id ∷ rest) d = elim (Bool-cases (is_hoisted placed id)) [
    | inl h ↦
        rw (h, hoisted_of, deferred_of)
          (
            λ b m p. d.0 b ((mem_split_of (id ∷ placed) rest b).0 m) p,
            split-IsDistinct (id ∷ placed) rest d.1,
          )
    | inr h ↦
        rw (h, hoisted_of, deferred_of)
          (IsDistinct-insert (hoisted_of placed rest) (deferred_of placed rest) id
            (split-IsDistinct placed rest d.1)
            (λ m. d.0 id ((mem_split_of placed rest id).0 m) refl))
  ]

  -- The hoisted order has the steps of the order, each once.
  pub hoist-members :
      (order : List StepId)
      → All (IsPlanned P plan) order
      → IsDistinct order
      → IsDistinct (hoist_unary_steps P plan order)
        × ((a : StepId) → Memᴰ a (hoist_unary_steps P plan order) ↔ Memᴰ a order)
  unfolding hoist_unary_steps
  hoist-members order planned d =
      rw (split_unary_lem [] [] [] order planned)
        (split-IsDistinct [] order d, λ a. mem_split_of [] order a)

  -- Hoisting permutes an order of planned steps, and one in which every step stands behind its
  -- dependencies stays one, also where a unary step depends on a step that is not unary.
  pub hoist-IsTopological :
      (order : List StepId)
      → All (IsPlanned P plan) order
      → IsTopological (DependsOn P plan) [] order
      → IsTopological (DependsOn P plan) [] (hoist_unary_steps P plan order)
        × Perm (hoist_unary_steps P plan order) order
  unfolding hoist_unary_steps
  hoist-IsTopological order planned t = rw (split_unary_lem [] [] [] order planned) (
    IsTopological-append (DependsOn P plan) [] (hoisted_of [] order) (deferred_of [] order)
        (hoisted_of-IsTopological [] order)
        (λ more old new. deferred_of-IsTopological [] [] more order t old new),
    split-perm [] order,
  )
