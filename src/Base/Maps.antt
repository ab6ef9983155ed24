-- ===== src/Base/Maps.antt =====
-- Hash maps with keys that have an equality, as association lists in the order of insertion.
use mathlib.Core.Path.{◌≡◌, refl, sym}
use mathlib.Core.Logic.{inl, inr}
use mathlib.Core.Option.{Option, none, some}
use mathlib.Core.List.{List, [], ◌∷◌, map, Memᴰ}
use native.Mathlib.Omega.{arith}
use magna.Base.Tests.{Eq, ◌==◌, Bool-cases, eq_of_beq, beq_refl, if◌then◌else◌}

abbrev pub Map {ℓ κ} : Type ℓ → Type κ → Type (ℓ ⊔ κ)
Map K V = List (K × V)

module _ {ℓ κ} {K : Type ℓ} {V : Type κ} ⦃e : Eq K⦄ where
  unfoldable pub lookup : Map K V → K → Option V
  lookup [] k = none
  lookup ((j, v) ∷ m) k = if j == k then some v else lookup m k

  unfoldable pub insert : K → V → Map K V → Map K V
  insert k v [] = (k, v) ∷ []
  insert k v ((j, w) ∷ m) = if j == k then (k, v) ∷ m else (j, w) ∷ insert k v m

  unfoldable pub remove : K → Map K V → Map K V
  remove k [] = []
  remove k ((j, w) ∷ m) = let rest = remove k m in if j == k then rest else (j, w) ∷ rest

  abbrev pub keys : Map K V → List K
  keys m = map (λ p. p.0) m

  pub lookup-insert :
      (k j : K) (v : V) (m : Map K V)
      → lookup (insert k v m) j ≡ (if k == j then some v else lookup m j)
  unfolding lookup insert
  lookup-insert k j v [] = refl
  lookup-insert k j v ((i, w) ∷ m) =
      ground (arith, e.beq_iff k j, e.beq_iff i k, e.beq_iff i j, lookup-insert k j v m)

  pub lookup-insert_self : (k : K) (v : V) (m : Map K V) → lookup (insert k v m) k ≡ some v
  lookup-insert_self k v m = rw (lookup-insert, beq_refl k)

  pub lookup-remove :
      (k j : K) (m : Map K V) → lookup (remove k m) j ≡ (if k == j then none else lookup m j)
  unfolding lookup remove
  lookup-remove k j [] = ground arith
  lookup-remove k j ((i, w) ∷ m) =
      ground (arith, e.beq_iff k j, e.beq_iff i k, e.beq_iff i j, lookup-remove k j m)

  pub mem-keys_of_lookup : (m : Map K V) (k : K) (v : V) → lookup m k ≡ some v → Memᴰ k (keys m)
  unfolding lookup
  mem-keys_of_lookup [] k v h = cc
  mem-keys_of_lookup ((j, w) ∷ m) k v h = elim (Bool-cases (j == k)) [
    | inl same ↦ Memᴰ.head (sym (eq_of_beq j k same))
    | inr other ↦ Memᴰ.tail (mem-keys_of_lookup m k v (rw (← h) (rw other)))
  ]

  pub lookup_of_mem-keys : (m : Map K V) (k : K) → Memᴰ k (keys m) → (v : V) × (lookup m k ≡ some v)
  unfolding lookup
  lookup_of_mem-keys [] k m = elim m [ ]
  lookup_of_mem-keys ((j, w) ∷ m) k (Memᴰ.head p) = (w, rw p (rw (beq_refl j)))
  lookup_of_mem-keys ((j, w) ∷ m) k (Memᴰ.tail n) =
      let (v, h) = lookup_of_mem-keys m k n in
      elim (Bool-cases (j == k)) [ inl same ↦ (w, rw same) | inr other ↦ (v, rw other h) ]

pub ruleset map_laws = (lookup-insert, lookup-remove)
