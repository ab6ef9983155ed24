-- ===== src/Core/Order.antt =====
-- What it means that a list of steps is in an order that respects dependencies.
use magna.Base.{
  Bool, true, Bool-cases, if◌then◌else◌, ◌↔◌, ◌≡◌, inl, inr, ℕ, refl, List, [], ◌∷◌, ◌++◌, Memᴰ,
  Includes, IsDistinct, subst,
}

-- `D a b` says that `b` depends on `a`: every dependency stands in `seen` or before its dependent.
abbrev pub IsTopological : (ℕ → ℕ → Type 0) → List ℕ → List ℕ → Type 0
IsTopological D seen [] = Unit
IsTopological D seen (b ∷ rest) = ((a : ℕ) → D a b → Memᴰ a seen) × IsTopological D (b ∷ seen) rest

module _ (D : ℕ → ℕ → Type 0) where
  pub IsTopological-mono :
      (seen more order : List ℕ)
      → Includes more seen
      → IsTopological D seen order
      → IsTopological D more order
  IsTopological-mono seen more [] sub t = tt
  IsTopological-mono seen more (b ∷ rest) sub t = (
    λ a d. sub a (t.0 a d),
    IsTopological-mono (b ∷ seen) (b ∷ more) rest
        (λ a. elim [ Memᴰ.head p ↦ Memᴰ.head p | Memᴰ.tail m ↦ Memᴰ.tail (sub a m) ]) t.1,
  )

  pub IsTopological-append :
      (seen xs ys : List ℕ)
      → IsTopological D seen xs
      → ((more : List ℕ) → Includes more seen → Includes more xs → IsTopological D more ys)
      → IsTopological D seen (xs ++ ys)
  IsTopological-append seen [] ys t rest = rest seen (λ a m. m) (λ a m. elim m [ ])
  IsTopological-append seen (x ∷ xs) ys t rest = (
    t.0,
    IsTopological-append (x ∷ seen) xs ys t.1 (λ more old new.
        rest more (λ a m. old a (Memᴰ.tail m))
          λ a. elim [ Memᴰ.head p ↦ old a (Memᴰ.head p) | Memᴰ.tail m ↦ new a m ]),
  )

  -- Only the dependencies of listed steps matter.
  pub IsTopological-weaken :
      (E : ℕ → ℕ → Type 0) (seen order : List ℕ)
      → ((a b : ℕ) → Memᴰ b order → E a b → D a b)
      → IsTopological D seen order
      → IsTopological E seen order
  IsTopological-weaken E seen [] f t = tt
  IsTopological-weaken E seen (b ∷ rest) f t = (
    λ a d. t.0 a (f a b (Memᴰ.head refl) d),
    IsTopological-weaken E (b ∷ seen) rest (λ x y m. f x y (Memᴰ.tail m)) t.1,
  )

  -- An order that starts from nothing has all that its steps depend on.
  pub IsTopological-closed :
      (seen more order : List ℕ)
      → Includes more seen
      → Includes more order
      → IsTopological D seen order
      → (a b : ℕ) → Memᴰ b order
      → D a b
      → Memᴰ a more
  IsTopological-closed seen more [] old new t a b m dep = elim m [ ]
  IsTopological-closed seen more (x ∷ rest) old new t a b (Memᴰ.head p) dep =
      old a (t.0 a (subst (D a) p dep))
  IsTopological-closed seen more (x ∷ rest) old new t a b (Memᴰ.tail n) dep =
      IsTopological-closed (x ∷ seen) more rest
        (λ c. elim [ Memᴰ.head p ↦ new c (Memᴰ.head p) | Memᴰ.tail m ↦ old c m ])
        (λ c m. new c (Memᴰ.tail m)) t.1 a b n dep

-- The items that pass a test.
unfoldable pub filter : (ℕ → Bool) → List ℕ → List ℕ
filter keep [] = []
filter keep (x ∷ xs) = let rest = filter keep xs in if keep x then x ∷ rest else rest

pub mem_filter :
    (keep : ℕ → Bool) (xs : List ℕ) (a : ℕ)
    → Memᴰ a (filter keep xs) ↔ (Memᴰ a xs × (keep a ≡ true))
unfolding filter
mem_filter keep [] a = (λ m. elim m [ ], λ h. elim h.0 [ ])
mem_filter keep (x ∷ xs) a =
    let ih = mem_filter keep xs a in
    elim (Bool-cases (keep x)) [
      | inl kept ↦
          rw (kept, filter)
            (
              λ m. elim m [
                | Memᴰ.head p ↦ (Memᴰ.head p, rw p kept)
                | Memᴰ.tail n ↦ (Memᴰ.tail (ih.0 n).0, (ih.0 n).1)
              ],
              λ (m, k). elim m [
                | Memᴰ.head p ↦ Memᴰ.head p
                | Memᴰ.tail n ↦ Memᴰ.tail (ih.1 (n, k))
              ],
            )
      | inr dropped ↦
          rw (dropped, filter)
            (
              λ m. (Memᴰ.tail (ih.0 m).0, (ih.0 m).1),
              λ (m, k). elim m [
                | Memᴰ.head p ↦ let k' : keep x ≡ true = rw p at k in cc (dropped, k')
                | Memᴰ.tail n ↦ ih.1 (n, k)
              ],
            )
    ]

pub filter-IsDistinct :
    (keep : ℕ → Bool) (xs : List ℕ) → IsDistinct xs → IsDistinct (filter keep xs)
unfolding filter
filter-IsDistinct keep [] d = tt
filter-IsDistinct keep (x ∷ xs) d = elim (Bool-cases (keep x)) [
  | inl kept ↦
      rw (kept, filter) (λ a m. d.0 a ((mem_filter keep xs a).0 m).0, filter-IsDistinct keep xs d.1)
  | inr dropped ↦ rw (dropped, filter) (filter-IsDistinct keep xs d.1)
]

-- Dropping items drops what depends on them only.
pub IsTopological-filter :
    (D : ℕ → ℕ → Type 0) (keep : ℕ → Bool) (seen kept order : List ℕ)
    → ((a : ℕ) → Memᴰ a seen → keep a ≡ true → Memᴰ a kept)
    → IsTopological D seen order
    → IsTopological (λ a b. D a b × (keep a ≡ true)) kept (filter keep order)
unfolding filter
IsTopological-filter D keep seen kept [] sub t = tt
IsTopological-filter D keep seen kept (b ∷ rest) sub t = elim (Bool-cases (keep b)) [
  | inl k ↦
      rw (k, filter)
        (
          λ a d. sub a (t.0 a d.0) d.1,
          IsTopological-filter D keep (b ∷ seen) (b ∷ kept) rest
              (λ a m ka. elim m [
                | Memᴰ.head p ↦ Memᴰ.head p
                | Memᴰ.tail n ↦ Memᴰ.tail (sub a n ka)
              ])
              t.1,
        )
  | inr no' ↦
      rw (no', filter)
        (IsTopological-filter D keep (b ∷ seen) kept rest
          (λ a m ka. elim m [
            | Memᴰ.head p ↦ let kb : keep b ≡ true = rw p at ka in cc (no', kb)
            | Memᴰ.tail n ↦ sub a n ka
          ])
          t.1)
]
