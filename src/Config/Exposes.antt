-- ===== src/Config/Exposes.antt =====
-- Which relations an exposure allows.
use magna.Base.{
  ℕ, ◌≡◌, ◌↔◌, refl, sym, ap, true, ◌&&◌, List, [], ◌∷◌, ◌++◌, some, some_inj, Memᴰ, mem-cons_cases,
  Bytes, bytes_eq, nat_eq, ◌==◌, eq_of_beq, beq_refl, Bool-cases, Option-cases, inl, inr, subst,
}
use magna.Config.{
  Exposure, all, only, extensions_only, split_once, names_relation, any_names, allows,
}

split_once-append :
    (sep : ℕ) (a b : Bytes) → ¬ Memᴰ sep a → split_once sep (a ++ sep ∷ b) ≡ some (a, b)
unfolding split_once
split_once-append sep [] b h = rw (beq_refl sep) refl
split_once-append sep (c ∷ cs) b h = elim (Bool-cases (c == sep)) [
  | inl same ↦ absurd (h (Memᴰ.head (sym (eq_of_beq c sep same))))
  | inr other ↦ rw (other, split_once-append sep cs b (λ m. h (Memᴰ.tail m))) refl
]

split_once_parts :
    (sep : ℕ) (text : Bytes) (p : Bytes × Bytes)
    → split_once sep text ≡ some p
    → (text ≡ p.0 ++ sep ∷ p.1) × ¬ Memᴰ sep p.0
unfolding split_once
split_once_parts sep [] p h = cc
split_once_parts sep (c ∷ cs) p h = elim (Bool-cases (c == sep)) [
  | inl same ↦
      let e : some ([], cs) ≡ some p = rw (same, split_once) at h in
      subst (λ (q : Bytes × Bytes). (c ∷ cs ≡ q.0 ++ sep ∷ q.1) × ¬ Memᴰ sep q.0) (some_inj e)
        (ap (λ d. d ∷ cs) (eq_of_beq c sep same), λ m. elim m [ ])
  | inr other ↦ elim (Option-cases (split_once sep cs)) [
    | inl never ↦ cc (rw (other, split_once, never) at h)
    | inr (q, found) ↦
        let e : some (c ∷ q.0, q.1) ≡ some p = rw (other, split_once, found) at h in
        let ih = split_once_parts sep cs q found in
        subst (λ (r : Bytes × Bytes). (c ∷ cs ≡ r.0 ++ sep ∷ r.1) × ¬ Memᴰ sep r.0) (some_inj e)
          (
            ap (λ t. c ∷ t) ih.0,
            λ m. elim (mem-cons_cases sep c q.0 m) [
              | inl p ↦ cc (p, other, beq_refl c)
              | inr n ↦ ih.1 n
            ],
          )
  ]
]

names_relation_iff :
    (schema relation name : Bytes)
    → (names_relation schema relation name ≡ true)
      ↔ ((name ≡ schema ++ 46 ∷ relation) × ¬ Memᴰ 46 schema)
unfolding names_relation
names_relation_iff schema relation name = (
  λ h. elim (Option-cases (split_once 46 name)) [
    | inl never ↦ cc (rw (never, names_relation) at h)
    | inr (p, found) ↦ both p (split_once_parts 46 name p found) (rw (found, names_relation) at h)
  ],
  λ (e, no_dot).
      rw
        (
          e,
          names_relation,
          split_once-append 46 schema relation no_dot,
          beq_refl schema,
          beq_refl relation,
        )
        refl,
)
  where
    both :
        (p : Bytes × Bytes)
        → (name ≡ p.0 ++ 46 ∷ p.1) × ¬ Memᴰ 46 p.0
        → (p.0 == schema && p.1 == relation) ≡ true
        → (name ≡ schema ++ 46 ∷ relation) × ¬ Memᴰ 46 schema
    both p parts h = elim (Bool-cases (p.0 == schema)) [
      | inl same ↦ elim (Bool-cases (p.1 == relation)) [
        | inl same' ↦
            let e : p ≡ (schema, relation) =
              cc (eq_of_beq p.0 schema same, eq_of_beq p.1 relation same') in
            subst (λ (q : Bytes × Bytes). (name ≡ q.0 ++ 46 ∷ q.1) × ¬ Memᴰ 46 q.0) e parts
        | inr other ↦ cc (rw (same, other) at h)
      ]
      | inr other ↦ cc (rw other at h)
    ]

-- The names that an exposure admits, each with its schema before the first dot.
abbrev pub IsAllowed : Exposure → Bytes → Bytes → Type 0
IsAllowed all schema relation = Unit
IsAllowed extensions_only schema relation = ⊥
IsAllowed (only names) schema relation = Memᴰ (schema ++ 46 ∷ relation) names × ¬ Memᴰ 46 schema

any_names_iff :
    (schema relation : Bytes) (names : List Bytes)
    → (any_names schema relation names ≡ true)
      ↔ (Memᴰ (schema ++ 46 ∷ relation) names × ¬ Memᴰ 46 schema)
unfolding any_names
any_names_iff schema relation [] = (λ h. cc, λ h. elim h.0 [ ])
any_names_iff schema relation (n ∷ ns) =
    let first = names_relation_iff schema relation n in
    let rest = any_names_iff schema relation ns in
    (
      λ h. elim (Bool-cases (names_relation schema relation n)) [
        | inl does ↦ (Memᴰ.head (sym (first.0 does).0), (first.0 does).1)
        | inr not_it ↦ let more = rest.0 (rw (not_it, any_names) at h) in (Memᴰ.tail more.0, more.1)
      ],
      λ h. elim (mem-cons_cases (schema ++ 46 ∷ relation) n ns h.0) [
        | inl e ↦ rw (first.1 (sym e, h.1)) refl
        | inr m ↦ elim (Bool-cases (names_relation schema relation n)) [
          | inl does ↦ rw does refl
          | inr not_it ↦ rw not_it (rest.1 (m, h.1))
        ]
      ],
    )

-- Every relation is allowed, or none, or exactly the relations that are named, each as its schema,
-- a dot and itself; a schema with a dot in its name is never one of them.
pub allows_iff :
    (exposure : Exposure) (schema relation : Bytes)
    → (allows exposure schema relation ≡ true) ↔ IsAllowed exposure schema relation
unfolding allows
allows_iff all schema relation = (λ h. tt, λ h. refl)
allows_iff extensions_only schema relation = (λ h. cc, λ h. elim h [ ])
allows_iff (only names) schema relation = any_names_iff schema relation names
