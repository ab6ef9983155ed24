-- ===== src/Gqlmin/Validate/Declares.antt =====
-- What the loop over the variable definitions keeps, and when its comparison with the uses finds
-- no error.
use magna.Base.{
  ◌≡◌, ◌⊎◌, ◌↔◌, refl, sym, ◌∙◌, inl, inr, false, ◌==◌, List, [], ◌∷◌, ◌++◌, append_assoc,
  append-nil, Includes, some, map, Memᴰ, mem-cons_cases, mem_cast, mem_left, mem_split, mem_last,
  contains, mem_of_contains, not_mem_of_contains, subst, keys, lookup, insert, lookup-insert, Bytes,
  bytes_eq, eq_of_beq, beq_refl, Bool-cases, Option-cases,
}
use magna.Gqlmin.Token.{Span}
use magna.Gqlmin.Ast.{Name}
use magna.Gqlmin.Validate.{
  Spans, Declared, declare, declare_all, undefined_errors, unused_errors, ValidationError,
}

-- The names in the order are those with a span, and those that were declared.
pub record DeclaredAs (names : List Bytes) (d : Declared) : Type 0 where
  pub spanned : (x : Bytes) → Memᴰ x d.order → (v : Span) × (lookup d.spans x ≡ some v)
  pub ordered : (x : Bytes) (v : Span) → lookup d.spans x ≡ some v → Memᴰ x d.order
  pub known : (x : Bytes) → Memᴰ x d.order ↔ Memᴰ x names

DeclaredAs-none : DeclaredAs [] (record { order = []; spans = [] })
unfolding lookup
DeclaredAs-none = record {
  spanned = λ x m. elim m [ ];
  ordered = λ x v h. cc;
  known = λ x. (λ m. m, λ m. m);
}

module _ (names : List Bytes) (d : Declared) (n : Name) (h : DeclaredAs names d) where
  other :
      (x : Bytes)
      → (n.value == x) ≡ false
      → lookup (insert n.value n.span d.spans) x ≡ lookup d.spans x
  other x ne = rw (lookup-insert, ne) refl

  -- The spans after a declaration, whatever the order becomes.
  declare-by :
      (order : List Bytes)
      → ((x : Bytes) → Memᴰ x order ↔ (Memᴰ x d.order ⊎ (x ≡ n.value)))
      → DeclaredAs
          (names ++ n.value ∷ [])
          (record { order = order; spans = insert n.value n.span d.spans })
  declare-by order same = record {
    spanned = λ x m. rw lookup-insert (elim (Bool-cases (n.value == x)) [
      | inl e ↦ rw e (n.span, refl)
      | inr ne ↦
          rw ne (elim ((same x).0 m) [
            | inl old ↦ h.spanned x old
            | inr e ↦ cc (e, ne, beq_refl n.value)
          ])
    ]);
    ordered = λ x v e. (same x).1 (elim (Bool-cases (n.value == x)) [
      | inl q ↦ inr (sym (eq_of_beq n.value x q))
      | inr ne ↦ inl (h.ordered x v (sym (other x ne) ∙ e))
    ]);
    known = λ x. (
      λ m. elim ((same x).0 m) [
        | inl old ↦ mem_left names (n.value ∷ []) ((h.known x).0 old)
        | inr e ↦ mem_cast (sym e) (mem_last names n.value)
      ],
      λ m. (same x).1 (elim (mem_split names (n.value ∷ []) m) [
        | inl old ↦ inl ((h.known x).1 old)
        | inr new ↦ elim (mem-cons_cases x n.value [] new) [
          | inl e ↦ inr e
          | inr never ↦ elim never [ ]
        ]
      ]),
    );
  }

  declare-DeclaredAs : DeclaredAs (names ++ n.value ∷ []) (declare d n)
  unfolding declare
  declare-DeclaredAs = elim (Option-cases (lookup d.spans n.value)) [
    | inl new ↦ rw new (
        declare-by (d.order ++ n.value ∷ []) (λ x. (
          λ m. elim (mem_split d.order (n.value ∷ []) m) [
            | inl old ↦ inl old
            | inr last ↦ elim (mem-cons_cases x n.value [] last) [
              | inl e ↦ inr e
              | inr never ↦ elim never [ ]
            ]
          ],
          λ k. elim k [
            | inl old ↦ mem_left d.order (n.value ∷ []) old
            | inr e ↦ mem_cast (sym e) (mem_last d.order n.value)
          ],
        )))
    | inr (v, old) ↦ rw old (
        declare-by d.order (λ x. (
          λ m. inl m,
          λ k. elim k [ inl m ↦ m | inr e ↦ mem_cast (sym e) (h.ordered n.value v old) ],
        )))
  ]

declare_all-extends :
    (seen : List Bytes) (ns : List Name) (d : Declared)
    → DeclaredAs seen d
    → DeclaredAs (seen ++ map (λ (n : Name). n.value) ns) (declare_all ns d)
unfolding declare_all
declare_all-extends seen [] d h = subst (λ t. DeclaredAs t d) (sym (append-nil seen)) h
declare_all-extends seen (n ∷ ns) d h =
    subst (λ t. DeclaredAs t (declare_all ns (declare d n)))
      (append_assoc seen (n.value ∷ []) (map (λ (m : Name). m.value) ns))
      (declare_all-extends (seen ++ n.value ∷ []) ns (declare d n) (declare-DeclaredAs seen d n h))

pub declare_all-DeclaredAs :
    (ns : List Name)
    → DeclaredAs
        (map (λ (n : Name). n.value) ns)
        (declare_all ns (record { order = []; spans = [] }))
declare_all-DeclaredAs ns = declare_all-extends [] ns _ DeclaredAs-none

-- A loop that reports each name that is not in the list: there is no report when all are.
pub undefined_errors_iff :
    (declared used : Spans)
    → (undefined_errors declared used ≡ []) ↔ Includes (keys declared) (keys used)
unfolding undefined_errors
undefined_errors_iff declared [] = (λ e x m. elim m [ ], λ h. refl)
undefined_errors_iff declared ((name, span) ∷ used) =
    let ih = undefined_errors_iff declared used in
    elim (Bool-cases (contains (keys declared) name)) [
      | inl old ↦ rw old (
        λ e x m. elim (mem-cons_cases x name (keys used) m) [
          | inl p ↦ mem_cast (sym p) (mem_of_contains (keys declared) name old)
          | inr n ↦ ih.0 e x n
        ],
        λ h. ih.1 (λ x m. h x (Memᴰ.tail m)),
      )
      | inr new ↦ rw new (
        λ e. cc,
        λ h. absurd (not_mem_of_contains (keys declared) name new (h name (Memᴰ.head refl))),
      )
    ]

pub unused_errors_iff :
    (d : Declared) (used : Spans) (names : List Bytes)
    → ((x : Bytes) → Memᴰ x names → (v : Span) × (lookup d.spans x ≡ some v))
    → (l : List ValidationError) × (unused_errors d used names ≡ some l)
      × ((l ≡ []) ↔ Includes (keys used) names)
unfolding unused_errors
unused_errors_iff d used [] spanned = ([], refl, (λ e x m. elim m [ ], λ h. refl))
unused_errors_iff d used (name ∷ names) spanned =
    let (l, e, same) = unused_errors_iff d used names (λ x m. spanned x (Memᴰ.tail m)) in
    let (span, at) = spanned name (Memᴰ.head refl) in
    elim (Bool-cases (contains (keys used) name)) [
      | inl old ↦
          rw (e, old)
            (
              l,
              refl,
              (
                λ p x m. elim (mem-cons_cases x name names m) [
                  | inl q ↦ mem_cast (sym q) (mem_of_contains (keys used) name old)
                  | inr n ↦ same.0 p x n
                ],
                λ h. same.1 (λ x m. h x (Memᴰ.tail m)),
              ),
            )
      | inr new ↦
          rw (e, new, at)
            (
              _,
              refl,
              (
                λ p. cc,
                λ h. absurd (not_mem_of_contains (keys used) name new (h name (Memᴰ.head refl))),
              ),
            )
    ]
