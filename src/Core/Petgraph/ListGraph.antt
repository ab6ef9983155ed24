-- ===== src/Core/Petgraph/ListGraph.antt =====
-- A graph kept as two lists, which meets the laws that the model asks of petgraph and runs in tests.
mod Picks
pub mod Sorts
pub mod Instance
use magna.Base.{
  ℕ, zero, suc, ◌+◌, ◌-◌, ◌<◌, ◌≤◌, ◌≡◌, refl, sym, ap, ◌∙◌, ◌↔◌, ◌≢◌, ◌⊎◌, inl, inr, Bool, true,
  false, not, ◌&&◌, ◌||◌, List, [], ◌∷◌, ◌++◌, map, Option, none, some, arith, Memᴰ, mem_cast,
  mem_left, mem_right, mem_split, mem_map, mem_unmap, IsDistinct, IsDistinct-append_last, length,
  length-append, get_elem?, Option-cases, subst, nat_eq, ◌==◌, contains, mem_of_contains,
  contains_of_mem, not_mem_of_contains, if◌then◌else◌, Bool-cases, Includes, ltb, some_inj,
  mem_of_get, eq_of_beq, ne_of_beq,
}
use magna.Core.Order.{IsTopological, IsTopological-append}
use magna.Core.Petgraph.{Sorted, sorted, cycle, Follows, IsOrderOf}

pub record ListGraph : Type 0 where
  pub nodes : List ℕ
  pub links : List (ℕ × ℕ)

abbrev pub range : ℕ → List ℕ
range zero = []
range (suc n) = range n ++ n ∷ []

pub mem_range : (n i : ℕ) → Memᴰ i (range n) ↔ (i < n)
mem_range zero i = (λ m. elim m [ ], λ h. elim h [ ])
mem_range (suc n) i = (
  λ m. elim (mem_split (range n) (n ∷ []) m) [
    | inl l ↦ omega (arith, (mem_range n i).0 l)
    | inr (Memᴰ.head p) ↦ omega arith
    | inr (Memᴰ.tail k) ↦ elim k [ ]
  ],
  λ h. elim (Bool-cases (i == n)) [
    | inl same ↦ mem_right (range n) (n ∷ []) (Memᴰ.head (eq_of_beq i n same))
    | inr other ↦ mem_left (range n) (n ∷ []) ((mem_range n i).1 (below h (ne_of_beq i n other)))
  ],
)
  where
    below : i < suc n → i ≢ n → i < n
    below h ne = omega arith

unfoldable pub sources : List (ℕ × ℕ) → ℕ → List ℕ
sources [] b = []
sources ((x, y) ∷ rest) b = if y == b then x ∷ sources rest b else sources rest b

pub mem_sources : (links : List (ℕ × ℕ)) (a b : ℕ) → Memᴰ a (sources links b) ↔ Memᴰ (a, b) links
unfolding sources
mem_sources [] a b = (λ m. elim m [ ], λ m. elim m [ ])
mem_sources ((x, y) ∷ rest) a b = elim (Bool-cases (y == b)) [
  | inl same ↦
      rw (same, sources)
        (
          λ m. elim m [
            | Memᴰ.head p ↦ Memᴰ.head (λ i. (p i, sym (eq_of_beq y b same) i))
            | Memᴰ.tail n ↦ Memᴰ.tail ((mem_sources rest a b).0 n)
          ],
          λ m. elim m [
            | Memᴰ.head p ↦ Memᴰ.head (ap (λ q. q.0) p)
            | Memᴰ.tail n ↦ Memᴰ.tail ((mem_sources rest a b).1 n)
          ],
        )
  | inr other ↦
      rw (other, sources)
        (
          λ m. Memᴰ.tail ((mem_sources rest a b).0 m),
          λ m. elim m [
            | Memᴰ.head p ↦ absurd (ne_of_beq y b other (sym (ap (λ q. q.1) p)))
            | Memᴰ.tail n ↦ (mem_sources rest a b).1 n
          ],
        )
]

unfoldable pub all_in : List ℕ → List ℕ → Bool
all_in placed [] = true
all_in placed (a ∷ rest) = contains placed a && all_in placed rest

pub all_in_iff : (placed xs : List ℕ) → (all_in placed xs ≡ true) ↔ Includes placed xs
unfolding all_in
all_in_iff placed [] = (λ h a m. elim m [ ], λ h. refl)
all_in_iff placed (x ∷ xs) = (
  λ h a m. elim m [
    | Memᴰ.head p ↦ mem_cast (sym p) (mem_of_contains placed x (ground arith))
    | Memᴰ.tail n ↦ (all_in_iff placed xs).0 (ground arith) a n
  ],
  λ h.
      rw (contains_of_mem placed x (h x (Memᴰ.head refl)), all_in)
        ((all_in_iff placed xs).1 (λ a m. h a (Memᴰ.tail m))),
)

-- A node that is not placed and whose sources all are.
unfoldable pub is_ready : List (ℕ × ℕ) → List ℕ → ℕ → Bool
is_ready links placed i = not (contains placed i) && all_in placed (sources links i)

unfoldable pub pick : List (ℕ × ℕ) → List ℕ → List ℕ → Option ℕ
pick links placed [] = none
pick links placed (i ∷ rest) = if is_ready links placed i then some i else pick links placed rest

unfoldable pub rounds : List (ℕ × ℕ) → List ℕ → ℕ → List ℕ → List ℕ
rounds links all zero placed = placed
rounds links all (suc fuel) placed = elim (pick links placed all) [
  | none ↦ placed
  | some i ↦ rounds links all fuel (placed ++ i ∷ [])
]

unfoldable pub first_missing : List ℕ → List ℕ → Option ℕ
first_missing placed [] = none
first_missing placed (i ∷ rest) = if contains placed i then first_missing placed rest else some i

unfoldable pub order_nodes : ListGraph → List ℕ
unfolding rounds pick is_ready all_in
order_nodes g = rounds g.links (range (length g.nodes)) (length g.nodes) []

unfoldable pub toposort : ListGraph → Sorted
unfolding order_nodes first_missing sources
toposort g = elim (first_missing (order_nodes g) (range (length g.nodes))) [
  | none ↦ sorted (order_nodes g)
  | some i ↦ cycle i
]
