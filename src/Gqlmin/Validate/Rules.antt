-- ===== src/Gqlmin/Validate/Rules.antt =====
-- All rules together: for which documents `validate_operations` reports nothing.
use magna.Base.{
  ℕ, ◌<◌, ◌*◌, ◌≡◌, ◌⊎◌, ◌↔◌, refl, ap, ◌∙◌, inl, inr, List, [], ◌∷◌, ◌++◌, append-nil_iff, Option,
  none, some, map, length, All, All-get, Memᴰ, mem_map, Map, keys, lookup, Bytes, bytes_eq, arith,
}
use magna.Gqlmin.Ast.{
  NodeRange, OperationDefinition, FragmentDefinition, Definition, operation, fragment, Document,
  slice_iter, definitions, project_selection,
}
use magna.Gqlmin.Parse.Arena.{InRange, FitsDefinition, IsOrdered}
use magna.Gqlmin.Parse.Moves.{Ensures, Ensures-mono}
use magna.Gqlmin.Parse.Definitions.{parse_executable_document}
use magna.Gqlmin.Parse.Read.{IsDocument, parse_executable_document-IsDocument}
use magna.Gqlmin.Validate.{
  ◌>>=◌, for_each, node_fuel, Fragments, Defined, Spreads, ValidationError, count_of, define_all,
  walk_fragment_spreads, unused_fragment_errors, validate_operations,
}
use magna.Gqlmin.Validate.Values.{InRange-end}
use magna.Gqlmin.Validate.Walked.{IsSpread}
use magna.Gqlmin.Validate.Names.{HasUniqueNames, check_unique_operation_names_iff}
use magna.Gqlmin.Validate.Checked.{UsesDeclared, check_operations_iff}
use magna.Gqlmin.Validate.Tallies.{
  Tallied, Tallies, Tallies-bind, for_each-Tallies, walk_fragment_spreads-Tallies,
}
use magna.Gqlmin.Validate.Defines.{
  operations_of, fragments_of, fragment_name, define_all-Collected, define_all-FragmentsFit,
  definitions-Fit, operations_of-Fit, fragments_of-Fit, unused_fragment_errors_iff,
}

abbrev nothing_defined : Defined
nothing_defined = record { fragments = []; counts = []; in_order = []; operations = [] }

-- The fragment of each name: the last definition of it.
abbrev pub fragments_by_name : List Definition → Fragments
fragments_by_name defs = (define_all defs nothing_defined).fragments

-- Some operation or some fragment spreads the fragment `x`.
abbrev pub IsSpreadIn : Document → List Definition → Bytes → Type 0
IsSpreadIn doc defs x =
    ((op : OperationDefinition) × Memᴰ op (operations_of defs)
      × IsSpread doc x op.selection_set.selections)
    ⊎ ((f : FragmentDefinition) × Memᴰ f (fragments_of defs)
        × IsSpread doc x f.selection_set.selections)

-- Names of operations are unique, each operation declares the variables that it uses and no other,
-- each spread is of a fragment of the document, and each fragment is spread.
abbrev pub IsValidDocument : Document → List Definition → Type 0
IsValidDocument doc defs =
    HasUniqueNames (operations_of defs)
    × All (UsesDeclared doc (fragments_by_name defs)) (operations_of defs)
    × ((x : Bytes) → IsSpreadIn doc defs x → Memᴰ x (map fragment_name (fragments_of defs)))
    × ((f : FragmentDefinition) → Memᴰ f (fragments_of defs) → IsSpreadIn doc defs f.name.value)

abbrev counts_by_name : List Definition → Map Bytes ℕ
counts_by_name defs = (define_all defs nothing_defined).counts

bind_through :
    {A B C : Type 0} (a : Option A) (f : A → Option B) (g : B → Option C) (b : B)
    → (a >>= f) ≡ some b
    → (a >>= λ x. f x >>= g) ≡ g b
bind_through none f g b e = cc
bind_through (some x) f g b e = rw e refl

-- Four lists of errors in a row, each empty under its own condition.
verdict :
    {A P Q R S : Type 0} (a b c d : List A)
    → ((a ≡ []) ↔ P)
    → ((b ≡ []) ↔ Q)
    → ((c ≡ []) ↔ R)
    → ((d ≡ []) ↔ S)
    → (((a ++ b) ++ c) ++ d ≡ []) ↔ (P × Q × R × S)
verdict a b c d p q r s = (
  λ e.
      let (abc, none_d) = (append-nil_iff ((a ++ b) ++ c) d).0 e in
      let (ab, none_c) = (append-nil_iff (a ++ b) c).0 abc in
      let (none_a, none_b) = (append-nil_iff a b).0 ab in
      (p.0 none_a, q.0 none_b, r.0 none_c, s.0 none_d),
  λ (x, y, z, w).
      (append-nil_iff ((a ++ b) ++ c) d).1
        ((append-nil_iff (a ++ b) c).1 ((append-nil_iff a b).1 (p.1 x, q.1 y), r.1 z), s.1 w),
)

module _ (doc : Document) (defs : List Definition) (ordered : IsOrdered [] doc.nodes)
    (reads : slice_iter (definitions doc) ≡ some defs) where
  fits : All (FitsDefinition doc.nodes) defs
  fits = definitions-Fit doc defs ordered reads

  abbrev walk_operations : Spreads → Option Spreads
  walk_operations st =
      for_each
        (λ op.
          walk_fragment_spreads (node_fuel doc) doc (fragments_by_name defs)
            op.selection_set.selections)
        (operations_of defs) st

  abbrev walk_fragments : Spreads → Option Spreads
  walk_fragments st =
      for_each
        (λ f.
          walk_fragment_spreads (node_fuel doc) doc (fragments_by_name defs)
            f.selection_set.selections)
        (fragments_of defs) st

  -- Both loops that count the spreads.
  walks-Tallies :
      (st : Spreads)
      → Tallies
          (fragments_by_name defs)
          (walk_operations st >>= walk_fragments)
          st
          (IsSpreadIn doc defs)
  walks-Tallies st =
      Tallies-bind (fragments_by_name defs) _ _ st _ _
        (for_each-Tallies (fragments_by_name defs) _
          (λ op x. IsSpread doc x op.selection_set.selections) (operations_of defs) st
          (λ op mid m.
            let h =
              All-get (λ op. FitsDefinition doc.nodes (operation op)) (operations_of defs)
                (operations_of-Fit doc.nodes defs fits) m in
            walked op.selection_set.selections mid h.2))
        (λ mid.
          for_each-Tallies (fragments_by_name defs) _
            (λ f x. IsSpread doc x f.selection_set.selections) (fragments_of defs) mid
            (λ f mid' m.
              let h =
                All-get (λ f. FitsDefinition doc.nodes (fragment f)) (fragments_of defs)
                  (fragments_of-Fit doc.nodes defs fits) m in
              walked f.selection_set.selections mid' h.1))
    where
      walked :
          (r : NodeRange) (mid : Spreads)
          → InRange project_selection doc.nodes r
          → Tallies
              (fragments_by_name defs)
              (walk_fragment_spreads (node_fuel doc) doc (fragments_by_name defs) r mid)
              mid
              (λ x. IsSpread doc x r)
      walked r mid h =
          walk_fragment_spreads-Tallies (fragments_by_name defs) doc ordered (node_fuel doc) r mid h
            (omega (arith, InRange-end project_selection doc.nodes r h))

  known_iff :
      (x : Bytes)
      → Memᴰ x (keys (fragments_by_name defs)) ↔ Memᴰ x (map fragment_name (fragments_of defs))
  known_iff x =
      let known = (define_all-Collected defs nothing_defined).known x in
      (λ m. elim (known.0 m) [ inl old ↦ elim old [ ] | inr n ↦ n ], λ n. known.1 (inr n))

  spreads_iff :
      (st last : Spreads) (t : Tallied (fragments_by_name defs) (IsSpreadIn doc defs) st last)
      → (t.added ≡ [])
        ↔ ((x : Bytes) → IsSpreadIn doc defs x → Memᴰ x (map fragment_name (fragments_of defs)))
  spreads_iff st last t = (
    λ e x p. (known_iff x).0 (t.quiet.0 e x p),
    λ all. t.quiet.1 (λ x p. (known_iff x).1 (all x p)),
  )

  counts_zero : (x : Bytes) → count_of (counts_by_name defs) x ≡ 0
  unfolding count_of lookup
  counts_zero = (define_all-Collected defs nothing_defined).counts (λ x. refl)

  left_iff :
      (es : List ValidationError) (last : Spreads)
      → Tallied
          (fragments_by_name defs)
          (IsSpreadIn doc defs)
          (record { counts = counts_by_name defs; errors = es })
          last
      → (unused_fragment_errors last.counts (fragments_of defs) ≡ [])
        ↔ ((f : FragmentDefinition) → Memᴰ f (fragments_of defs) → IsSpreadIn doc defs f.name.value)
  left_iff es last t =
      let unused = unused_fragment_errors_iff last.counts (fragments_of defs) in
      (
        λ e f m. elim ((t.counted f.name.value).0 (unused.0 e f m)) [
          | inl some_before ↦ absurd (omega (arith, some_before, counts_zero f.name.value))
          | inr (p, n) ↦ p
        ],
        λ all. unused.1 (λ f m. (t.counted f.name.value).1 (
            inr
              (all f m, (known_iff f.name.value).1 (mem_map fragment_name (fragments_of defs) m)))),
      )

  -- For a document whose nodes name only nodes before them and whose definitions can be read, the
  -- validation ends without a panic. It reports nothing exactly when the names of the operations are
  -- unique, each operation declares the variables that it uses and no other, each spread is of a
  -- fragment of the document, and each fragment is spread somewhere.
  pub validate_operations_iff :
      (errors : List ValidationError) × (validate_operations doc ≡ some errors)
      × ((errors ≡ []) ↔ IsValidDocument doc defs)
  unfolding validate_operations
  validate_operations_iff =
      let c = define_all-Collected defs nothing_defined in
      let fit = define_all-FragmentsFit doc defs nothing_defined fits tt in
      let (renamed, e, names) = check_unique_operation_names_iff (operations_of defs) [] in
      let (variables, e', used) =
        check_operations_iff doc ordered (fragments_by_name defs) fit (operations_of defs) renamed
          (operations_of-Fit doc.nodes defs fits) in
      let (last, e'', t) =
        walks-Tallies (record { counts = counts_by_name defs; errors = renamed ++ variables }) in
      let left = unused_fragment_errors last.counts (fragments_of defs) in
      (
        ((renamed ++ variables) ++ t.added) ++ left,
        rw (reads, c.operations, c.in_order, e, e')
            (bind_through
                (walk_operations
                  (record { counts = counts_by_name defs; errors = renamed ++ variables }))
                walk_fragments
                (λ st. some (st.errors ++ unused_fragment_errors st.counts (fragments_of defs)))
                last e''
              ∙ ap (λ l. some (l ++ left)) t.appended),
        verdict renamed variables t.added left names used (spreads_iff _ last t)
            (left_iff (renamed ++ variables) last t),
      )

-- For a source of less than 2 GiB, the parser refuses it or makes a document whose definitions can
-- be read and whose validation ends without a panic, with no report exactly when all rules hold.
pub validate_operations-parse_executable_document :
    (src : Bytes)
    → 2 * length src < 4294967296
    → Ensures
        (λ doc _.
          (defs : List Definition) × (slice_iter (definitions doc) ≡ some defs)
          × ((errors : List ValidationError) × (validate_operations doc ≡ some errors)
              × ((errors ≡ []) ↔ IsValidDocument doc defs)))
        (parse_executable_document src)
validate_operations-parse_executable_document src small =
    Ensures-mono (λ doc _. IsDocument doc) _ (parse_executable_document src)
      (λ doc _ h.
        let ((first, rest, reads), ranges, ordered) = h in
        (first ∷ rest, reads, validate_operations_iff doc (first ∷ rest) ordered reads))
      (parse_executable_document-IsDocument src small)
