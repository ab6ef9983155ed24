-- ===== src/Base/Members.antt =====
-- Membership, inclusion and the Boolean search of a list.
use mathlib.Core.Path.{◌≡◌, refl, sym, ap, subst, ◌∙◌}
use mathlib.Core.Logic.{◌⊎◌, inl, inr, ◌≢◌, ◌↔◌}
use mathlib.Core.Bool.{Bool, true, false, ◌||◌}
use mathlib.Core.Option.{some}
use mathlib.Core.List.{List, [], ◌∷◌, ◌++◌, map, Memᴰ}
use native.Mathlib.Omega.{arith}
use Prim.Native.Nat.{ℕ, zero, suc}
use magna.Base.Tests.{Eq, ◌==◌, Bool-cases, eq_of_beq, beq_refl}
use magna.Base.Lists.{All, get_elem?}

module _ {ℓ} {A : Type ℓ} where
  abbrev pub Includes : List A → List A → Type ℓ
  Includes big small = (a : A) → Memᴰ a small → Memᴰ a big

  pub mem_left : {a : A} (xs ys : List A) → Memᴰ a xs → Memᴰ a (xs ++ ys)
  mem_left [] ys m = elim m [ ]
  mem_left (x ∷ xs) ys (Memᴰ.head e) = Memᴰ.head e
  mem_left (x ∷ xs) ys (Memᴰ.tail m) = Memᴰ.tail (mem_left xs ys m)

  pub mem_right : {a : A} (xs ys : List A) → Memᴰ a ys → Memᴰ a (xs ++ ys)
  mem_right [] ys m = m
  mem_right (x ∷ xs) ys m = Memᴰ.tail (mem_right xs ys m)

  pub mem_split : {a : A} (xs ys : List A) → Memᴰ a (xs ++ ys) → Memᴰ a xs ⊎ Memᴰ a ys
  mem_split [] ys m = inr m
  mem_split (x ∷ xs) ys (Memᴰ.head e) = inl (Memᴰ.head e)
  mem_split (x ∷ xs) ys (Memᴰ.tail m) = elim (mem_split xs ys m) [
    | inl l ↦ inl (Memᴰ.tail l)
    | inr r ↦ inr r
  ]

  pub mem-cons_cases : (a b : A) (xs : List A) → Memᴰ a (b ∷ xs) → (a ≡ b) ⊎ Memᴰ a xs
  mem-cons_cases a b xs (Memᴰ.head e) = inl e
  mem-cons_cases a b xs (Memᴰ.tail m) = inr m

  pub mem_last : (xs : List A) (a : A) → Memᴰ a (xs ++ a ∷ [])
  mem_last xs a = mem_right xs (a ∷ []) (Memᴰ.head refl)

  pub mem_cast : {a b : A} {xs : List A} → a ≡ b → Memᴰ a xs → Memᴰ b xs
  mem_cast {xs = xs} e m = subst (λ x. Memᴰ x xs) e m

  pub mem_of_get : {a : A} (xs : List A) (i : ℕ) → get_elem? xs i ≡ some a → Memᴰ a xs
  mem_of_get [] i h = cc
  mem_of_get (x ∷ xs) zero h = Memᴰ.head (cc)
  mem_of_get (x ∷ xs) (suc i) h = Memᴰ.tail (mem_of_get xs i h)

module _ {ℓ κ} {A : Type ℓ} {B : Type κ} where
  pub mem_map : {a : A} (f : A → B) (xs : List A) → Memᴰ a xs → Memᴰ (f a) (map f xs)
  mem_map f [] m = elim m [ ]
  mem_map f (x ∷ xs) (Memᴰ.head e) = Memᴰ.head (ap f e)
  mem_map f (x ∷ xs) (Memᴰ.tail m) = Memᴰ.tail (mem_map f xs m)

  pub mem_unmap :
      {b : B} (f : A → B) (xs : List A) → Memᴰ b (map f xs) → (a : A) × Memᴰ a xs × (b ≡ f a)
  mem_unmap f [] m = elim m [ ]
  mem_unmap f (x ∷ xs) (Memᴰ.head e) = (x, Memᴰ.head refl, e)
  mem_unmap f (x ∷ xs) (Memᴰ.tail m) = let (a, n, e) = mem_unmap f xs m in (a, Memᴰ.tail n, e)

module _ {ℓ κ} {A : Type ℓ} (P : A → Type κ) where
  pub All-get : {a : A} (xs : List A) → All P xs → Memᴰ a xs → P a
  All-get [] h m = elim m [ ]
  All-get (x ∷ xs) h (Memᴰ.head e) = subst P (sym e) h.0
  All-get (x ∷ xs) h (Memᴰ.tail m) = All-get xs h.1 m

  pub All-of : (xs : List A) → ((a : A) → Memᴰ a xs → P a) → All P xs
  All-of [] f = tt
  All-of (x ∷ xs) f = (f x (Memᴰ.head refl), All-of xs (λ a m. f a (Memᴰ.tail m)))

module _ {ℓ} {A : Type ℓ} ⦃e : Eq A⦄ where
  -- `xs.iter().any(|x| x == a)`, and `HashSet::contains`
  abbrev pub contains : List A → A → Bool
  contains [] a = false
  contains (x ∷ xs) a = x == a || contains xs a

  pub mem_of_contains : (xs : List A) (a : A) → contains xs a ≡ true → Memᴰ a xs
  mem_of_contains [] a h = cc
  mem_of_contains (x ∷ xs) a h = elim (Bool-cases (x == a)) [
    | inl same ↦ Memᴰ.head (sym (eq_of_beq x a same))
    | inr other ↦ Memᴰ.tail (mem_of_contains xs a (rw (← h) (rw other)))
  ]

  pub contains_of_mem : (xs : List A) (a : A) → Memᴰ a xs → contains xs a ≡ true
  contains_of_mem [] a m = elim m [ ]
  contains_of_mem (x ∷ xs) a (Memᴰ.head p) = rw p (rw (beq_refl x))
  contains_of_mem (x ∷ xs) a (Memᴰ.tail m) = ground (arith, contains_of_mem xs a m)

  pub not_mem_of_contains : (xs : List A) (a : A) → contains xs a ≡ false → ¬ Memᴰ a xs
  not_mem_of_contains xs a h m = cc (h, contains_of_mem xs a m)

module _ {ℓ} {A : Type ℓ} where
  -- No item stands twice.
  abbrev pub IsDistinct : List A → Type ℓ
  IsDistinct [] = Unit
  IsDistinct (x ∷ xs) = ((a : A) → Memᴰ a xs → x ≢ a) × IsDistinct xs

  pub IsDistinct-append_last :
      (xs : List A) (a : A) → IsDistinct xs → ¬ Memᴰ a xs → IsDistinct (xs ++ a ∷ [])
  IsDistinct-append_last [] a d new = (λ b m. elim m [ ], tt)
  IsDistinct-append_last (x ∷ xs) a d new = (
    λ b m. elim (mem_split xs (a ∷ []) m) [
      | inl l ↦ d.0 b l
      | inr (Memᴰ.head p) ↦ λ q. new (Memᴰ.head (sym (q ∙ p)))
      | inr (Memᴰ.tail n) ↦ elim n [ ]
    ],
    IsDistinct-append_last xs a d.1 (λ m. new (Memᴰ.tail m)),
  )

  pub IsDistinct-middle :
      (xs : List A) (w : A) (ys : List A) → IsDistinct (xs ++ w ∷ ys) → ¬ Memᴰ w xs
  IsDistinct-middle [] w ys d m = elim m [ ]
  IsDistinct-middle (x ∷ xs) w ys d (Memᴰ.head p) =
      d.0 w (mem_right xs (w ∷ ys) (Memᴰ.head refl)) (sym p)
  IsDistinct-middle (x ∷ xs) w ys d (Memᴰ.tail m) = IsDistinct-middle xs w ys d.1 m

-- Of some item of `a ∷ xs` the predicate holds: of `a` or of some item of `xs`.
module _ {ℓ κ} {A : Type ℓ} (P : A → Type κ) (a : A) (xs : List A) where
  pub any-cons_iff : (P a ⊎ ((b : A) × Memᴰ b xs × P b)) ↔ ((b : A) × Memᴰ b (a ∷ xs) × P b)
  any-cons_iff = (
    λ h. elim h [ inl p ↦ (a, Memᴰ.head refl, p) | inr (b, m, p) ↦ (b, Memᴰ.tail m, p) ],
    λ (b, m, p). split b p m,
  )
    where
      split : (b : A) → P b → Memᴰ b (a ∷ xs) → P a ⊎ ((c : A) × Memᴰ c xs × P c)
      split b p (Memᴰ.head e) = inl (subst P e p)
      split b p (Memᴰ.tail m) = inr (b, m, p)
