-- ===== src/Gqlmin/Validate/Variables.antt =====
-- The rules on variables: an operation has no error of them exactly when it declares what it uses.
use magna.Base.{
  suc, ◌<◌, ◌≡◌, ◌⊎◌, refl, ap, inl, inr, List, [], ◌∷◌, Option, none, some, length, map, Memᴰ, All,
  All-get, subst, some_inj, keys, lookup, Bytes, bytes_eq, arith,
}
use magna.Gqlmin.Ast.{
  NodeRange, Value, VariableDefinition, OperationDefinition, FragmentDefinition, Node, Document,
  operation, project_variable_definition, project_directive, project_selection,
}
use magna.Gqlmin.Parse.Arena.{
  InRange, InRange-grows, FitsDefault, FitsDefinition, Fits, IsOrdered, Grows,
}
use magna.Gqlmin.Validate.{
  for_each, Spans, Fragments, Uses, node_fuel, collect_uses_in_value, collect_uses_in_directives,
  collect_uses_in_selection_set, collect_uses_in_definition, collect_uses,
}
use magna.Gqlmin.Validate.Mentions.{
  InValue, InDirectives, InSelections, field_argument, field_directive, field_inner,
  spread_directive, fragment_directive, fragment_inner, inline_directive, inline_inner, Adds,
  Collects, Collects-none, Collects-bind, for_each-Collects,
}
use magna.Gqlmin.Validate.Values.{
  InRange-end, Within, collect_uses_in_value-Collects, collect_uses_in_directives-Collects,
}
use magna.Gqlmin.Validate.Walked.{spread, in_field, in_inline, Covered, CoveredFragment}
use magna.Gqlmin.Validate.Items.{unvisited}
use magna.Gqlmin.Validate.Selections.{FragmentsFit, collect_uses_in_selection_set-Walks}

-- All that a set uses is in a state that covers the set and the fragments that were visited.
used_of_covered :
    (doc : Document) (fragments : Fragments) (st : Uses) (x : Bytes)
    → ((name : Bytes) (f : FragmentDefinition)
        → Memᴰ name st.visited
        → lookup fragments name ≡ some f
        → CoveredFragment doc st f)
    → {r : NodeRange} → InSelections doc fragments x r
    → Covered doc st r
    → Memᴰ x (keys st.used)
used_of_covered doc fragments st x closed (field_argument e m u) c = c.0 x (field_argument e m u)
used_of_covered doc fragments st x closed (field_directive e m u) c = c.0 x (field_directive e m u)
used_of_covered doc fragments st x closed (field_inner e m p u) c =
    used_of_covered doc fragments st x closed u
      (λ y v. c.0 y (field_inner e m p v), λ n v. c.1 n (in_field e m p v))
used_of_covered doc fragments st x closed (spread_directive e m u) c =
    c.0 x (spread_directive e m u)
used_of_covered doc fragments st x closed (fragment_directive {s = s} {f = f} e m l u) c =
    (closed s.name.value f (c.1 s.name.value (spread e m refl)) l).0 x u
used_of_covered doc fragments st x closed (fragment_inner {s = s} {f = f} e m l u) c =
    used_of_covered doc fragments st x closed u
      (closed s.name.value f (c.1 s.name.value (spread e m refl)) l).1
used_of_covered doc fragments st x closed (inline_directive e m u) c =
    c.0 x (inline_directive e m u)
used_of_covered doc fragments st x closed (inline_inner e m u) c =
    used_of_covered doc fragments st x closed u
      (λ y v. c.0 y (inline_inner e m v), λ n v. c.1 n (in_inline e m v))

abbrev pub InDefault : Document → Bytes → Option Value → Type 0
InDefault doc x none = ⊥
InDefault doc x (some v) = InValue doc x v

abbrev pub InDefinition : Document → Bytes → VariableDefinition → Type 0
InDefinition doc x vd = InDefault doc x vd.default_value ⊎ InDirectives doc x vd.directives

-- The operation uses the variable `x`.
abbrev pub IsUsed :
    Document → OperationDefinition → Fragments → List VariableDefinition → Bytes → Type 0
IsUsed doc op fragments vds x =
    InDirectives doc x op.directives
    ⊎ (InSelections doc fragments x op.selection_set.selections
        ⊎ ((vd : VariableDefinition) × Memᴰ vd vds × InDefinition doc x vd))

abbrev pub IsDeclared : List VariableDefinition → Bytes → Type 0
IsDeclared vds x = Memᴰ x (map (λ (vd : VariableDefinition). vd.name.value) vds)

unvisited-nil : (ks : List Bytes) → unvisited ks [] ≡ length ks
unvisited-nil [] = refl
unvisited-nil (k ∷ ks) = ap suc (unvisited-nil ks)

length-keys : (m : Fragments) → length (keys m) ≡ length m
length-keys [] = refl
length-keys (p ∷ m) = ap suc (length-keys m)

module _ (doc : Document) (ordered : IsOrdered [] doc.nodes) (fragments : Fragments)
    (fit : FragmentsFit doc fragments) where
  set-Collects :
      (r : NodeRange) (out : Spans)
      → InRange project_selection doc.nodes r
      → (st : Uses) × (collect_uses_in_selection_set
            (length fragments)
            (node_fuel doc)
            doc
            fragments
            r
            (record { visited = []; used = out })
          ≡ some st)
        × Adds out (λ x. InSelections doc fragments x r) st.used
  set-Collects r out h =
      let (st, e, w, c) =
        collect_uses_in_selection_set-Walks doc ordered fragments fit (length fragments)
          (node_fuel doc) r (record { visited = []; used = out }) h
          (omega (arith, InRange-end project_selection doc.nodes r h))
          (omega (arith, unvisited-nil (keys fragments), length-keys fragments)) in
      (
        st,
        e,
        λ x. (
          w.sound x,
          λ k. elim k [
            | inl old ↦ w.extends.1 x old
            | inr u ↦
                used_of_covered doc fragments st x
                  (λ name f m l. elim (w.closed name f m l) [
                    | inl n ↦ elim n [ ]
                    | inr covered ↦ covered
                  ])
                  u c
          ],
        ),
      )

  FitsVariable-of :
      (seen : List Node) (n : Node) (v : VariableDefinition)
      → project_variable_definition n ≡ some v
      → Fits seen n
      → FitsDefault seen v.default_value × InRange project_directive seen v.directives
  unfolding project_variable_definition
  FitsVariable-of seen (Node.variable_definition w) v e h =
      subst
        (λ (t : VariableDefinition).
          FitsDefault seen t.default_value × InRange project_directive seen t.directives)
        (some_inj e) h
  FitsVariable-of seen _ v e h = cc

  default-Collects :
      (seen : List Node) (o : Option Value) (out : Spans)
      → Grows seen doc.nodes
      → length seen < node_fuel doc
      → FitsDefault seen o
      → Collects
          (elim o as (λ _. Option Spans) [
            | none ↦ some out
            | some v ↦ collect_uses_in_value (node_fuel doc) doc v out
          ])
          out
          (λ x. InDefault doc x o)
  default-Collects seen none out g less h = Collects-none out (λ x. ⊥) (λ x u. u)
  default-Collects seen (some v) out g less h =
      collect_uses_in_value-Collects doc ordered (node_fuel doc) v seen out g less h

  definition-Collects :
      (vd : VariableDefinition) (out : Spans)
      → Within doc project_variable_definition (length doc.nodes) vd
      → Collects (collect_uses_in_definition doc vd out) out (λ x. InDefinition doc x vd)
  unfolding collect_uses_in_definition
  definition-Collects vd out w =
      let fits = FitsVariable-of w.seen w.node vd w.reads w.fits in
      Collects-bind _ (collect_uses_in_directives doc vd.directives) out
        (λ x. InDefault doc x vd.default_value) (λ x. InDirectives doc x vd.directives)
        (default-Collects w.seen vd.default_value out w.before (omega (arith, w.bound)) fits.0)
        (λ mid.
          collect_uses_in_directives-Collects doc ordered vd.directives mid
            (InRange-grows w.seen doc.nodes w.before project_directive vd.directives fits.1))

  pub collect_uses-Collects :
      (op : OperationDefinition) (vds : List VariableDefinition)
      → FitsDefinition doc.nodes (operation op)
      → All (Within doc project_variable_definition (length doc.nodes)) vds
      → Collects (collect_uses doc op fragments vds) [] (IsUsed doc op fragments vds)
  unfolding collect_uses
  collect_uses-Collects op vds h within =
      Collects-bind (collect_uses_in_directives doc op.directives []) _ []
        (λ x. InDirectives doc x op.directives) _
        (collect_uses_in_directives-Collects doc ordered op.directives [] h.1)
        (λ out.
          let (st, e, adds) = set-Collects op.selection_set.selections out h.2 in
          rw e (
            Collects-bind (some st.used) (for_each (collect_uses_in_definition doc) vds) out
              (λ x. InSelections doc fragments x op.selection_set.selections)
              (λ x. (vd : VariableDefinition) × Memᴰ vd vds × InDefinition doc x vd)
              (st.used, refl, adds)
              (λ mid.
                for_each-Collects (collect_uses_in_definition doc) (λ vd x. InDefinition doc x vd)
                  vds mid
                  (λ vd out' m. definition-Collects vd out' (
                    All-get (Within doc project_variable_definition (length doc.nodes)) vds within
                      m)))))
