-- ===== src/Core/Batch/Partition.antt =====
-- What each parent of a batch receives, and what is asked of the loader.
use magna.Base.{
  ◌≡◌, refl, ap, ap₂, sym, ◌↔◌, ◌⊎◌, inl, inr, List, [], ◌∷◌, ◌++◌, map, Option, none, some, arith,
  Memᴰ, mem_cast, IsDistinct-append_last, Eq, ◌==◌, Bool-cases, if◌then◌else◌, contains,
  mem_of_contains, not_mem_of_contains, IsDistinct, mem_left, mem_right, mem_split, Map, lookup,
  lookup-insert, append_assoc, append-nil,
}
use magna.Core.Batch.{unique_keys, push_row, bucket_rows, bucket_of, partition_rows}

module _ {K V : Type 0} ⦃e : Eq K⦄ where
  -- The rows whose key is `k`, in their order.
  unfoldable pub rows_for : (V → K) → K → List V → List V
  rows_for group_by k [] = []
  rows_for group_by k (row ∷ rows) =
      let rest = rows_for group_by k rows in if group_by row == k then row ∷ rest else rest

  -- The rows of one parent, by a search of its own.
  unfoldable pub children_of : (V → K) → List V → Option K → List V
  children_of group_by rows none = []
  children_of group_by rows (some k) = rows_for group_by k rows

  abbrev bucket : Map K (List V) → K → List V
  bucket buckets k = elim (lookup buckets k) [ none ↦ [] | some rows ↦ rows ]

  bucket-push_row :
      (group_by : V → K) (buckets : Map K (List V)) (row : V) (k : K)
      → bucket (push_row group_by buckets row) k
        ≡ (if group_by row == k then bucket buckets k ++ row ∷ [] else bucket buckets k)
  unfolding push_row
  bucket-push_row group_by buckets row k = ground (
    arith,
    lookup-insert (group_by row) k (row ∷ []) buckets,
    lookup-insert (group_by row) k (bucket buckets (group_by row) ++ row ∷ []) buckets,
    e.beq_iff (group_by row) k,
  )

  bucket-bucket_rows :
      (group_by : V → K) (buckets : Map K (List V)) (rows : List V) (k : K)
      → bucket (bucket_rows group_by buckets rows) k ≡ bucket buckets k ++ rows_for group_by k rows
  unfolding bucket_rows rows_for
  bucket-bucket_rows group_by buckets [] k = sym (append-nil _)
  bucket-bucket_rows group_by buckets (row ∷ rows) k =
      rw (bucket-bucket_rows group_by (push_row group_by buckets row) rows k) (
        rw (bucket-push_row group_by buckets row k) (elim (Bool-cases (group_by row == k)) [
          | inl same ↦ rw same (append_assoc (bucket buckets k) (row ∷ []) _)
          | inr other ↦ rw other
        ]))

  bucket_of-bucket_rows :
      (group_by : V → K) (rows : List V) (key : Option K)
      → bucket_of (bucket_rows group_by [] rows) key ≡ children_of group_by rows key
  unfolding bucket_of children_of lookup
  bucket_of-bucket_rows group_by rows none = refl
  bucket_of-bucket_rows group_by rows (some k) = bucket-bucket_rows group_by [] rows k

  -- One pass into buckets gives each parent what a search of its own would give.
  pub partition_rows_lem :
      (group_by : V → K) (rows : List V) (per_parent : List (Option K))
      → partition_rows group_by rows per_parent ≡ map (children_of group_by rows) per_parent
  unfolding partition_rows
  partition_rows_lem group_by rows [] = refl
  partition_rows_lem group_by rows (key ∷ keys) =
      ap₂ ◌∷◌ (bucket_of-bucket_rows group_by rows key) (partition_rows_lem group_by rows keys)

module _ {K : Type 0} ⦃e : Eq K⦄ where
  -- The keys that the parents name.
  pub data Named (k : K) : List (Option K) → Type 0 where
    here : {rest : List (Option K)} → Named k (some k ∷ rest)
    there : {key : Option K} {rest : List (Option K)} → Named k rest → Named k (key ∷ rest)

  push_unique : List K → K → List K
  push_unique unique k = if contains unique k then unique else unique ++ k ∷ []

  -- Both cases of a push at once: the list holds the key already, or it is put last.
  push_unique-mem :
      (unique : List K) (k a : K) → Memᴰ a (push_unique unique k) ↔ (Memᴰ a unique ⊎ (a ≡ k))
  unfolding push_unique
  push_unique-mem unique k a = elim (Bool-cases (contains unique k)) [
    | inl seen ↦
        rw seen (inl, elim [ inl m ↦ m | inr p ↦ mem_cast (sym p) (mem_of_contains unique k seen) ])
    | inr new ↦ rw new (
      λ m. elim (mem_split unique (k ∷ []) m) [
        | inl l ↦ inl l
        | inr (Memᴰ.head p) ↦ inr p
        | inr (Memᴰ.tail n) ↦ elim n [ ]
      ],
      elim [ inl m ↦ mem_left unique _ m | inr p ↦ mem_right unique _ (Memᴰ.head p) ],
    )
  ]

  push_unique-IsDistinct :
      (unique : List K) (k : K) → IsDistinct unique → IsDistinct (push_unique unique k)
  unfolding push_unique
  push_unique-IsDistinct unique k d = elim (Bool-cases (contains unique k)) [
    | inl seen ↦ rw seen d
    | inr new ↦ rw new (IsDistinct-append_last unique k d (not_mem_of_contains unique k new))
  ]

  unique_keys-IsDistinct :
      (unique : List K) (per_parent : List (Option K))
      → IsDistinct unique
      → IsDistinct (unique_keys unique per_parent)
  unfolding unique_keys push_unique
  unique_keys-IsDistinct unique [] d = d
  unique_keys-IsDistinct unique (none ∷ rest) d = unique_keys-IsDistinct unique rest d
  unique_keys-IsDistinct unique (some k ∷ rest) d =
      unique_keys-IsDistinct (push_unique unique k) rest (push_unique-IsDistinct unique k d)

  unique_keys-mem :
      (unique : List K) (per_parent : List (Option K)) (k : K)
      → Memᴰ k (unique_keys unique per_parent) ↔ (Memᴰ k unique ⊎ Memᴰ (some k) per_parent)
  unfolding unique_keys push_unique
  unique_keys-mem unique [] k = (inl, elim [ inl m ↦ m | inr m ↦ elim m [ ] ])
  unique_keys-mem unique (none ∷ rest) k =
      let ih = unique_keys-mem unique rest k in
      (
        λ m. elim (ih.0 m) [ inl l ↦ inl l | inr r ↦ inr (Memᴰ.tail r) ],
        elim [ inl l ↦ ih.1 (inl l) | inr (Memᴰ.head p) ↦ cc | inr (Memᴰ.tail r) ↦ ih.1 (inr r) ],
      )
  unique_keys-mem unique (some j ∷ rest) k =
      let ih = unique_keys-mem (push_unique unique j) rest k in
      let one = push_unique-mem unique j k in
      (
        λ m. elim (ih.0 m) [
          | inl l ↦ elim (one.0 l) [ inl u ↦ inl u | inr p ↦ inr (Memᴰ.head (ap some p)) ]
          | inr r ↦ inr (Memᴰ.tail r)
        ],
        elim [
          | inl l ↦ ih.1 (inl (one.1 (inl l)))
          | inr (Memᴰ.head p) ↦ ih.1 (inl (one.1 (inr (cc))))
          | inr (Memᴰ.tail r) ↦ ih.1 (inr r)
        ],
      )

  -- The keys asked of the loader stand once each, and are those that some parent names.
  pub unique_keys_lem :
      (per_parent : List (Option K))
      → IsDistinct (unique_keys [] per_parent)
        × ((k : K) → Memᴰ k (unique_keys [] per_parent) ↔ Memᴰ (some k) per_parent)
  unique_keys_lem per_parent = (
    unique_keys-IsDistinct [] per_parent tt,
    λ k.
        let both = unique_keys-mem [] per_parent k in
        (λ m. elim (both.0 m) [ inl l ↦ elim l [ ] | inr r ↦ r ], λ m. both.1 (inr m)),
  )
