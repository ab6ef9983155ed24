-- ===== src/Core/Petgraph/ListGraph/Picks.antt =====
-- What a round picks, and what it leaves true of the nodes placed so far.
use magna.Base.{
  ℕ, zero, suc, ◌≡◌, sym, inl, inr, true, false, List, [], ◌∷◌, ◌++◌, none, some, arith, Memᴰ,
  mem_cast, mem_split, IsDistinct, IsDistinct-append_last, Option-cases, nat_eq,
  not_mem_of_contains, Bool-cases, Includes, some_inj,
}
use magna.Core.Order.{IsTopological, IsTopological-append}
use magna.Core.Petgraph.{Follows}
use magna.Core.Petgraph.ListGraph.{sources, mem_sources, all_in_iff, is_ready, pick, rounds}

pub is_ready_sound :
    (links : List (ℕ × ℕ)) (placed : List ℕ) (i : ℕ)
    → is_ready links placed i ≡ true
    → ¬ Memᴰ i placed × Includes placed (sources links i)
unfolding is_ready
is_ready_sound links placed i h = (
  not_mem_of_contains placed i (ground arith),
  (all_in_iff placed (sources links i)).0 (ground arith),
)

pub pick_sound :
    (links : List (ℕ × ℕ)) (placed all : List ℕ) (i : ℕ)
    → pick links placed all ≡ some i
    → Memᴰ i all × ¬ Memᴰ i placed × Includes placed (sources links i)
unfolding pick
pick_sound links placed [] i h = cc
pick_sound links placed (x ∷ rest) i h = elim (Bool-cases (is_ready links placed x)) [
  | inl ready ↦
      let e : x ≡ i = some_inj (rw (ready, pick) at h) in
      let (new, old) = is_ready_sound links placed x ready in
      (Memᴰ.head (sym e), λ m. new (mem_cast (sym e) m), rw (← e) old)
  | inr other ↦
      let (m, new, old) = pick_sound links placed rest i (rw (other, pick) at h) in
      (Memᴰ.tail m, new, old)
]

pub pick-none :
    (links : List (ℕ × ℕ)) (placed all : List ℕ) (i : ℕ)
    → pick links placed all ≡ none
    → Memᴰ i all
    → is_ready links placed i ≡ false
unfolding pick
pick-none links placed [] i h m = elim m [ ]
pick-none links placed (x ∷ rest) i h m = elim (Bool-cases (is_ready links placed x)) [
  | inl ready ↦ let e : some x ≡ none = rw (ready, pick) at h in cc
  | inr other ↦ elim m [
    | Memᴰ.head p ↦ rw p other
    | Memᴰ.tail n ↦ pick-none links placed rest i (rw (other, pick) at h) n
  ]
]

-- The nodes placed so far.
pub record Placed (links : List (ℕ × ℕ)) (all placed : List ℕ) : Type 0 where
  pub below : Includes all placed
  pub distinct : IsDistinct placed
  pub forward : IsTopological (Follows links) [] placed

place :
    (links : List (ℕ × ℕ)) (all placed : List ℕ) (i : ℕ)
    → Placed links all placed
    → pick links placed all ≡ some i
    → Placed links all (placed ++ i ∷ [])
place links all placed i h e =
    let (m, new, old) = pick_sound links placed all i e in
    record {
      below = λ a n. elim (mem_split placed (i ∷ []) n) [
        | inl l ↦ h.below a l
        | inr (Memᴰ.head p) ↦ mem_cast (sym p) m
        | inr (Memᴰ.tail k) ↦ elim k [ ]
      ];
      distinct = IsDistinct-append_last placed i h.distinct new;
      forward =
          IsTopological-append (Follows links) [] placed (i ∷ []) h.forward
            (λ more _ has. (λ a d. has a (old a ((mem_sources links a i).1 d)), tt));
    }

pub rounds-Placed :
    (links : List (ℕ × ℕ)) (all : List ℕ) (fuel : ℕ) (placed : List ℕ)
    → Placed links all placed
    → Placed links all (rounds links all fuel placed)
unfolding rounds
rounds-Placed links all zero placed h = h
rounds-Placed links all (suc fuel) placed h = elim (Option-cases (pick links placed all)) [
  | inl stuck ↦ rw (stuck, rounds) h
  | inr (i, e) ↦
      rw (e, rounds)
        (rounds-Placed links all fuel (placed ++ i ∷ []) (place links all placed i h e))
]
