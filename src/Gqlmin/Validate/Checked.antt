-- ===== src/Gqlmin/Validate/Checked.antt =====
-- The rules on the variables of one operation: there is no error of them exactly when the operation
-- declares what it uses.
use magna.Base.{
  ◌≡◌, ◌↔◌, refl, sym, ap, inl, inr, ◌∙◌, some_inj, List, [], ◌∷◌, ◌++◌, append_assoc, append-nil,
  append-nil_iff, some, map, Memᴰ, length, All, Includes, subst, keys, mem-keys_of_lookup,
  lookup_of_mem-keys, Bytes, bytes_eq,
}
use magna.Gqlmin.Ast.{
  Name, VariableDefinition, OperationDefinition, Document, slice_iter, variable_definitions,
  operation, project_variable_definition,
}
use magna.Gqlmin.Parse.Arena.{FitsDefinition, IsOrdered}
use magna.Gqlmin.Validate.{
  for_each, Fragments, Spans, Declared, ValidationError, declare_all, undefined_errors,
  check_variables_for_operation,
}
use magna.Gqlmin.Validate.Mentions.{Adds}
use magna.Gqlmin.Validate.Values.{InRange-end, slice-Within}
use magna.Gqlmin.Validate.Selections.{FragmentsFit}
use magna.Gqlmin.Validate.Variables.{IsUsed, IsDeclared, collect_uses-Collects}
use magna.Gqlmin.Validate.Declares.{
  DeclaredAs, declare_all-DeclaredAs, undefined_errors_iff, unused_errors_iff,
}

-- The variables that an operation declares are those that it uses.
abbrev pub UsesDeclared : Document → Fragments → OperationDefinition → Type 0
UsesDeclared doc fragments op =
    (vds : List VariableDefinition) × (slice_iter (variable_definitions doc op.variable_definitions)
      ≡ some vds)
    × ((x : Bytes) → IsUsed doc op fragments vds x ↔ IsDeclared vds x)

names_map :
    (vds : List VariableDefinition)
    → map (λ (n : Name). n.value) (map (λ (vd : VariableDefinition). vd.name) vds)
      ≡ map (λ (vd : VariableDefinition). vd.name.value) vds
names_map [] = refl
names_map (vd ∷ vds) = ap (λ t. vd.name.value ∷ t) (names_map vds)

-- The two loops over the names have no report exactly when the names used are those declared.
verdict :
    (P : Bytes → Type 0) (names : List Bytes) (d : Declared) (used : Spans)
    (unused : List ValidationError)
    → DeclaredAs names d
    → Adds [] P used
    → ((unused ≡ []) ↔ Includes (keys used) d.order)
    → (undefined_errors d.spans used ++ unused ≡ []) ↔ ((x : Bytes) → P x ↔ Memᴰ x names)
verdict P names d used unused h adds none_unused =
    let undefined = undefined_errors_iff d.spans used in
    (
      λ e.
          let (p, q) = (append-nil_iff (undefined_errors d.spans used) unused).0 e in
          λ x. (
            λ u.
                let (v, at) = lookup_of_mem-keys d.spans x (undefined.0 p x ((adds x).1 (inr u))) in
                (h.known x).0 (h.ordered x v at),
            λ m. elim ((adds x).0 (none_unused.0 q x ((h.known x).1 m))) [
              | inl old ↦ elim old [ ]
              | inr u ↦ u
            ],
          ),
      λ same. (append-nil_iff (undefined_errors d.spans used) unused).1 (
        undefined.1 (λ x m. elim ((adds x).0 m) [
          | inl old ↦ elim old [ ]
          | inr u ↦
              let (v, at) = h.spanned x ((h.known x).1 ((same x).0 u)) in
              mem-keys_of_lookup d.spans x v at
        ]),
        none_unused.1 (λ x m. (adds x).1 (inr ((same x).1 ((h.known x).0 m)))),
      ),
    )

module _ (doc : Document) (ordered : IsOrdered [] doc.nodes) (fragments : Fragments)
    (fit : FragmentsFit doc fragments) where
  -- In a document whose nodes name only nodes before them, and with fragments and an operation
  -- whose ranges can be read: the check of the operation ends without a panic and only adds errors,
  -- and it adds none exactly when the variables that the operation declares are those that it
  -- uses, in its directives, its definitions of variables and its selections, down to the
  -- fragments that they spread.
  pub check_variables_for_operation_iff :
      (op : OperationDefinition) (errors : List ValidationError)
      → FitsDefinition doc.nodes (operation op)
      → (added : List ValidationError) × (check_variables_for_operation doc op fragments errors
          ≡ some (errors ++ added))
        × ((added ≡ []) ↔ UsesDeclared doc fragments op)
  unfolding check_variables_for_operation variable_definitions
  check_variables_for_operation_iff op errors h =
      let (vds, e, within) =
        slice-Within doc ordered project_variable_definition (length doc.nodes)
          op.variable_definitions h.0
          (InRange-end project_variable_definition doc.nodes op.variable_definitions h.0) in
      let (used, e', adds) = collect_uses-Collects doc ordered fragments fit op vds h within in
      let declared : Declared =
        declare_all (map (λ (vd : VariableDefinition). vd.name) vds)
          (record { order = []; spans = [] }) in
      let names : DeclaredAs (map (λ (vd : VariableDefinition). vd.name.value) vds) declared =
        subst (λ l. DeclaredAs l declared) (names_map vds)
          (declare_all-DeclaredAs (map (λ (vd : VariableDefinition). vd.name) vds)) in
      let (unused, e'', none_unused) =
        unused_errors_iff declared used declared.order names.spanned in
      (
        undefined_errors declared.spans used ++ unused,
        rw (e, e', e'', append_assoc) refl,
        let same =
              verdict (IsUsed doc op fragments vds) _ declared used unused names adds none_unused in
            (
              λ p. (vds, e, same.0 p),
              λ (vds', p, q). same.1 (
                  subst (λ l. (x : Bytes) → IsUsed doc op fragments l x ↔ IsDeclared l x)
                    (some_inj (sym p ∙ e)) q),
            ),
      )

  -- The loop over all operations.
  pub check_operations_iff :
      (ops : List OperationDefinition) (errors : List ValidationError)
      → All (λ op. FitsDefinition doc.nodes (operation op)) ops
      → (added : List ValidationError) × (for_each
            (λ op es. check_variables_for_operation doc op fragments es)
            ops
            errors
          ≡ some (errors ++ added))
        × ((added ≡ []) ↔ All (UsesDeclared doc fragments) ops)
  unfolding for_each
  check_operations_iff [] errors h = ([], ap some (sym (append-nil errors)), (λ e. tt, λ k. refl))
  check_operations_iff (op ∷ ops) errors h =
      let (first, e, ok) = check_variables_for_operation_iff op errors h.0 in
      let (later, e', oks) = check_operations_iff ops (errors ++ first) h.1 in
      (
        first ++ later,
        rw (e, e', append_assoc) refl,
        (
          λ p. let (q, r) = (append-nil_iff first later).0 p in (ok.0 q, oks.0 r),
          λ k. (append-nil_iff first later).1 (ok.1 k.0, oks.1 k.1),
        ),
      )
