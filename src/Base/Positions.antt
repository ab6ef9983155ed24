-- ===== src/Base/Positions.antt =====
-- Positions in a list: where an item stands, and that it stands once in a list of distinct items.
use mathlib.Core.Path.{◌≡◌, refl, sym, ap}
use mathlib.Core.Logic.{◌⊎◌, inl, inr}
use mathlib.Core.Option.{some}
use mathlib.Core.List.{List, [], ◌∷◌, ◌++◌, Memᴰ}
use native.Mathlib.Omega.{arith}
use Prim.Native.Nat.{ℕ, zero, suc, ◌<◌}
use magna.Base.Lists.{length, get_elem?}
use magna.Base.Members.{mem_of_get, IsDistinct}

module _ {ℓ} {A : Type ℓ} where
  pub get_of_mem : {a : A} (xs : List A) → Memᴰ a xs → (i : ℕ) × (get_elem? xs i ≡ some a)
  get_of_mem [] m = elim m [ ]
  get_of_mem (x ∷ xs) (Memᴰ.head p) = (0, ap some (sym p))
  get_of_mem (x ∷ xs) (Memᴰ.tail m) = let (i, e) = get_of_mem xs m in (suc i, e)

  pub get_unique :
      (xs : List A) (i j : ℕ) (a : A)
      → IsDistinct xs
      → get_elem? xs i ≡ some a
      → get_elem? xs j ≡ some a
      → i ≡ j
  get_unique [] i j a d p q = cc
  get_unique (x ∷ xs) zero zero a d p q = refl
  get_unique (x ∷ xs) zero (suc j) a d p q = absurd (d.0 a (mem_of_get xs j q) (cc))
  get_unique (x ∷ xs) (suc i) zero a d p q = absurd (d.0 a (mem_of_get xs i p) (cc))
  get_unique (x ∷ xs) (suc i) (suc j) a d p q = ap suc (get_unique xs i j a d.1 p q)

  pub get_elem?-append_cases :
      (xs : List A) (w : A) (i : ℕ) (a : A)
      → get_elem? (xs ++ w ∷ []) i ≡ some a
      → (get_elem? xs i ≡ some a) ⊎ ((i ≡ length xs) × (w ≡ a))
  get_elem?-append_cases [] w zero a h = inr (refl, cc)
  get_elem?-append_cases [] w (suc i) a h = cc
  get_elem?-append_cases (x ∷ xs) w zero a h = inl h
  get_elem?-append_cases (x ∷ xs) w (suc i) a h = elim (get_elem?-append_cases xs w i a h) [
    | inl l ↦ inl l
    | inr r ↦ inr (ap suc r.0, r.1)
  ]

  pub get_of_lt : (xs : List A) (i : ℕ) → i < length xs → (a : A) × (get_elem? xs i ≡ some a)
  get_of_lt [] i h = elim h [ ]
  get_of_lt (x ∷ xs) zero h = (x, refl)
  get_of_lt (x ∷ xs) (suc i) h = get_of_lt xs i (omega arith)
