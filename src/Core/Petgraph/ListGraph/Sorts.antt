-- ===== src/Core/Petgraph/ListGraph/Sorts.antt =====
-- The list is an order of the graph's nodes, and is found where there is one.
use magna.Base.{
  ℕ, zero, suc, ◌<◌, ◌≤◌, ◌≡◌, refl, sym, inl, inr, true, false, ◌||◌, List, [], ◌∷◌, ◌++◌, none,
  some, arith, Memᴰ, mem_cast, length, length-append, Option-cases, subst, nat_eq, ◌==◌, contains,
  mem_of_contains, not_mem_of_contains, if◌then◌else◌, Bool-cases, Includes, some_inj,
}
use magna.Core.Order.{IsTopological}
use magna.Core.Petgraph.{sorted, cycle, Follows, IsOrderOf}
use magna.Core.Petgraph.ListGraph.{
  ListGraph, range, mem_range, sources, mem_sources, all_in, all_in_iff, is_ready, pick, rounds,
  first_missing, order_nodes, toposort,
}
use magna.Core.Petgraph.ListGraph.Picks.{pick_sound, pick-none, Placed, rounds-Placed}

first_missing-none : (placed all : List ℕ) → first_missing placed all ≡ none → Includes placed all
unfolding first_missing
first_missing-none placed [] h a m = elim m [ ]
first_missing-none placed (x ∷ rest) h a m = elim (Bool-cases (contains placed x)) [
  | inl there ↦ elim m [
    | Memᴰ.head p ↦ mem_cast (sym p) (mem_of_contains placed x there)
    | Memᴰ.tail n ↦ first_missing-none placed rest (rw (there, first_missing) at h) a n
  ]
  | inr new ↦ let e : some x ≡ none = rw (new, first_missing) at h in cc
]

first_missing-some :
    (placed all : List ℕ) (i : ℕ) → first_missing placed all ≡ some i → Memᴰ i all × ¬ Memᴰ i placed
unfolding first_missing
first_missing-some placed [] i h = cc
first_missing-some placed (x ∷ rest) i h = elim (Bool-cases (contains placed x)) [
  | inl there ↦
      let (m, new) = first_missing-some placed rest i (rw (there, first_missing) at h) in
      (Memᴰ.tail m, new)
  | inr new ↦
      let e : x ≡ i = some_inj (rw (new, first_missing) at h) in
      (Memᴰ.head (sym e), λ m. not_mem_of_contains placed x new (mem_cast (sym e) m))
]

-- How many nodes are not placed: it falls in each round.
missing : List ℕ → List ℕ → ℕ
missing placed [] = 0
missing placed (x ∷ rest) =
    if contains placed x then missing placed rest else suc (missing placed rest)

contains_snoc :
    (placed : List ℕ) (i x : ℕ) → contains (placed ++ i ∷ []) x ≡ (contains placed x || i == x)
contains_snoc [] i x = ground arith
contains_snoc (y ∷ placed) i x = ground (arith, contains_snoc placed i x)

missing-snoc-le :
    (placed all : List ℕ) (i : ℕ) → missing (placed ++ i ∷ []) all ≤ missing placed all
unfolding missing
missing-snoc-le placed [] i = omega arith
missing-snoc-le placed (x ∷ rest) i =
    ground (arith, contains_snoc placed i x, missing-snoc-le placed rest i)

missing-snoc-lt :
    (placed all : List ℕ) (i : ℕ)
    → Memᴰ i all
    → contains placed i ≡ false
    → missing (placed ++ i ∷ []) all < missing placed all
unfolding missing
missing-snoc-lt placed [] i m h = elim m [ ]
missing-snoc-lt placed (x ∷ rest) i (Memᴰ.head p) h =
    ground (arith, contains_snoc placed i x, missing-snoc-le placed rest i)
missing-snoc-lt placed (x ∷ rest) i (Memᴰ.tail m) h =
    ground (arith, contains_snoc placed i x, missing-snoc-lt placed rest i m h)

missing-le-length : (placed all : List ℕ) → missing placed all ≤ length all
unfolding missing
missing-le-length placed [] = omega arith
missing-le-length placed (x ∷ rest) = ground (arith, missing-le-length placed rest)

pick_of_none-missing :
    (links : List (ℕ × ℕ)) (placed all : List ℕ)
    → missing placed all ≡ 0
    → pick links placed all ≡ none
unfolding missing pick is_ready
pick_of_none-missing links placed [] h = refl
pick_of_none-missing links placed (x ∷ rest) h =
    ground (arith, pick_of_none-missing links placed rest)

-- With fuel for all that is missing, the rounds go on until no node is ready.
rounds-stuck :
    (links : List (ℕ × ℕ)) (all : List ℕ) (fuel : ℕ) (placed : List ℕ)
    → missing placed all ≤ fuel
    → pick links (rounds links all fuel placed) all ≡ none
unfolding rounds
rounds-stuck links all zero placed h = pick_of_none-missing links placed all (omega arith)
rounds-stuck links all (suc fuel) placed h = elim (Option-cases (pick links placed all)) [
  | inl stuck ↦ rw (stuck, rounds) stuck
  | inr (i, e) ↦
      let (m, new, _) = pick_sound links placed all i e in
      let fresh : contains placed i ≡ false = elim (Bool-cases (contains placed i)) [
        | inl there ↦ absurd (new (mem_of_contains placed i there))
        | inr no' ↦ no'
      ] in
      rw (e, rounds)
        (rounds-stuck links all fuel (placed ++ i ∷ [])
          (omega (arith, missing-snoc-lt placed all i m fresh)))
]

-- In an order that holds a node which is not placed, some node is ready.
ready_in_order :
    (links : List (ℕ × ℕ)) (placed seen order : List ℕ)
    → IsTopological (Follows links) seen order
    → Includes placed seen
    → (i : ℕ) → Memᴰ i order
    → ¬ Memᴰ i placed
    → (j : ℕ) × Memᴰ j order × (is_ready links placed j ≡ true)
unfolding is_ready
ready_in_order links placed seen [] t old i m new = elim m [ ]
ready_in_order links placed seen (x ∷ rest) t old i m new = elim (Bool-cases (contains placed x)) [
  | inl there ↦ elim m [
    | Memᴰ.head p ↦ absurd (new (mem_cast (sym p) (mem_of_contains placed x there)))
    | Memᴰ.tail n ↦
        let (j, k, ready) =
          ready_in_order links placed (x ∷ seen) rest t.1
            (λ a. elim [
              | Memᴰ.head p ↦ mem_cast (sym p) (mem_of_contains placed x there)
              | Memᴰ.tail s ↦ old a s
            ])
            i n new in
        (j, Memᴰ.tail k, ready)
  ]
  | inr no' ↦
      let all : all_in placed (sources links x) ≡ true =
        (all_in_iff placed (sources links x)).1
          (λ a s. old a (t.0 a ((mem_sources links a x).0 s))) in
      (x, Memᴰ.head refl, rw (no', all))
]

length-range : (n : ℕ) → length (range n) ≡ n
length-range zero = refl
length-range (suc n) = omega (arith, length-append (range n) (n ∷ []), length-range n)

order_nodes-Placed : (g : ListGraph) → Placed g.links (range (length g.nodes)) (order_nodes g)
unfolding order_nodes
order_nodes-Placed g =
    rounds-Placed g.links (range (length g.nodes)) (length g.nodes) []
      (record { below = λ a m. elim m [ ]; distinct = tt; forward = tt })

pub toposort_sorted :
    (g : ListGraph) (order : List ℕ)
    → toposort g ≡ sorted order
    → IsOrderOf (length g.nodes) g.links order
unfolding toposort
toposort_sorted g order h =
    elim (Option-cases (first_missing (order_nodes g) (range (length g.nodes)))) [
      | inl full ↦
          let e : sorted (order_nodes g) ≡ sorted order = rw (full, toposort) at h in
          let placed = order_nodes-Placed g in
          subst (IsOrderOf (length g.nodes) g.links) (cc) (record {
            complete = λ i. (
              λ m. (mem_range (length g.nodes) i).0 (placed.below i m),
              λ b.
                  first_missing-none (order_nodes g) (range (length g.nodes)) full i
                    ((mem_range (length g.nodes) i).1 b),
            );
            distinct = placed.distinct;
            forward = placed.forward;
          })
      | inr (i, e) ↦ let clash : cycle i ≡ sorted order = rw (e, toposort) at h in cc
    ]

pub toposort_cycle : (g : ListGraph) (node : ℕ) → toposort g ≡ cycle node → node < length g.nodes
unfolding toposort
toposort_cycle g node h =
    elim (Option-cases (first_missing (order_nodes g) (range (length g.nodes)))) [
      | inl full ↦ let clash : sorted (order_nodes g) ≡ cycle node = rw (full, toposort) at h in cc
      | inr (i, e) ↦
          let same : cycle i ≡ cycle node = rw (e, toposort) at h in
          let (m, new) = first_missing-some (order_nodes g) (range (length g.nodes)) i e in
          subst (λ n. n < length g.nodes) (cc (same)) ((mem_range (length g.nodes) i).0 m)
    ]

pub toposort_complete :
    (g : ListGraph) (order : List ℕ)
    → IsOrderOf (length g.nodes) g.links order
    → (order' : List ℕ) × (toposort g ≡ sorted order')
unfolding toposort order_nodes
toposort_complete g order o =
    elim (Option-cases (first_missing (order_nodes g) (range (length g.nodes)))) [
      | inl full ↦ (order_nodes g, rw (full, toposort))
      | inr (i, e) ↦
          let (m, new) = first_missing-some (order_nodes g) (range (length g.nodes)) i e in
          let (j, k, ready) =
            ready_in_order g.links (order_nodes g) [] order o.forward (λ a s. elim s [ ]) i
              ((o.complete i).1 ((mem_range (length g.nodes) i).0 m)) new in
          let stuck = rounds-stuck g.links (range (length g.nodes)) (length g.nodes) [] (
            omega (
              arith,
              missing-le-length [] (range (length g.nodes)),
              length-range (length g.nodes),
            )) in
          let not_ready =
            pick-none g.links (order_nodes g) (range (length g.nodes)) j stuck
              ((mem_range (length g.nodes) j).1 ((o.complete j).0 k)) in
          cc (ready, not_ready)
    ]
