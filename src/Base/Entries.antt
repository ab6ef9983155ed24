-- ===== src/Base/Entries.antt =====
-- The entries of a map whose keys are distinct are what a lookup finds.
use mathlib.Core.Path.{◌≡◌, sym, ap, ◌∙◌}
use mathlib.Core.Logic.{◌⊎◌, inl, inr}
use mathlib.Core.Bool.{true, false}
use mathlib.Core.Option.{some}
use mathlib.Core.List.{[], ◌∷◌, Memᴰ}
use magna.Base.Tests.{Eq, ◌==◌, Bool-cases, eq_of_beq, beq_of_ne, ne_of_beq}
use magna.Base.Members.{IsDistinct, mem_map}
use magna.Base.Maps.{Map, lookup, insert, remove, keys}

module _ {ℓ κ} {K : Type ℓ} {V : Type κ} ⦃e : Eq K⦄ where
  pub mem-keys-insert :
      (k a : K) (v : V) (m : Map K V) → Memᴰ a (keys (insert k v m)) → (a ≡ k) ⊎ Memᴰ a (keys m)
  unfolding insert
  mem-keys-insert k a v [] (Memᴰ.head p) = inl p
  mem-keys-insert k a v [] (Memᴰ.tail n) = elim n [ ]
  mem-keys-insert k a v ((j, w) ∷ m) h = elim (Bool-cases (j == k)) [
    | inl same ↦ elim (rw (same, insert) at h) [
      | Memᴰ.head p ↦ inl p
      | Memᴰ.tail n ↦ inr (Memᴰ.tail n)
    ]
    | inr other ↦ elim (rw (other, insert) at h) [
      | Memᴰ.head p ↦ inr (Memᴰ.head p)
      | Memᴰ.tail n ↦ elim (mem-keys-insert k a v m n) [ inl p ↦ inl p | inr q ↦ inr (Memᴰ.tail q) ]
    ]
  ]

  pub insert-IsDistinct :
      (k : K) (v : V) (m : Map K V) → IsDistinct (keys m) → IsDistinct (keys (insert k v m))
  unfolding insert
  insert-IsDistinct k v [] d = (λ a n. elim n [ ], tt)
  insert-IsDistinct k v ((j, w) ∷ m) d = elim (Bool-cases (j == k)) [
    | inl same ↦ rw (same, insert) (λ a n q. d.0 a n (eq_of_beq j k same ∙ q), d.1)
    | inr other ↦
        rw (other, insert)
          (
            λ a n q. elim (mem-keys-insert k a v m n) [
              | inl p ↦ ne_of_beq j k other (q ∙ p)
              | inr old ↦ d.0 a old q
            ],
            insert-IsDistinct k v m d.1,
          )
  ]

  mem-keys-remove : (k a : K) (m : Map K V) → Memᴰ a (keys (remove k m)) → Memᴰ a (keys m)
  unfolding remove
  mem-keys-remove k a [] h = h
  mem-keys-remove k a ((j, w) ∷ m) h = elim (Bool-cases (j == k)) [
    | inl same ↦ Memᴰ.tail (mem-keys-remove k a m (rw (same, remove) at h))
    | inr other ↦ elim (rw (other, remove) at h) [
      | Memᴰ.head p ↦ Memᴰ.head p
      | Memᴰ.tail n ↦ Memᴰ.tail (mem-keys-remove k a m n)
    ]
  ]

  pub remove-IsDistinct :
      (k : K) (m : Map K V) → IsDistinct (keys m) → IsDistinct (keys (remove k m))
  unfolding remove
  remove-IsDistinct k [] d = tt
  remove-IsDistinct k ((j, w) ∷ m) d = elim (Bool-cases (j == k)) [
    | inl same ↦ rw (same, remove) (remove-IsDistinct k m d.1)
    | inr other ↦
        rw (other, remove) (λ a n. d.0 a (mem-keys-remove k a m n), remove-IsDistinct k m d.1)
  ]

  pub lookup_of_mem :
      (m : Map K V) (k : K) (v : V) → IsDistinct (keys m) → Memᴰ (k, v) m → lookup m k ≡ some v
  unfolding lookup
  lookup_of_mem [] k v d n = elim n [ ]
  lookup_of_mem ((j, w) ∷ m) k v d (Memᴰ.head p) =
      let same : (j == k) ≡ true = (e.beq_iff j k).1 (sym (ap (λ q. q.0) p)) in
      rw (same, lookup) (ap some (sym (ap (λ q. q.1) p)))
  lookup_of_mem ((j, w) ∷ m) k v d (Memᴰ.tail n) =
      let other : (j == k) ≡ false = beq_of_ne j k (d.0 k (mem_map (λ q. q.0) m n)) in
      rw (other, lookup) (lookup_of_mem m k v d.1 n)

  pub mem_of_lookup : (m : Map K V) (k : K) (v : V) → lookup m k ≡ some v → Memᴰ (k, v) m
  unfolding lookup
  mem_of_lookup [] k v h = cc
  mem_of_lookup ((j, w) ∷ m) k v h = elim (Bool-cases (j == k)) [
    | inl same ↦
        let found : some w ≡ some v = rw (same, lookup) at h in Memᴰ.head (cc (eq_of_beq j k same))
    | inr other ↦ Memᴰ.tail (mem_of_lookup m k v (rw (other, lookup) at h))
  ]
