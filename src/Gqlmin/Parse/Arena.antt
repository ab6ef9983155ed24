-- ===== src/Gqlmin/Parse/Arena.antt =====
-- When a range of the shared node list is one that an accessor can read, and when each node names
-- only ranges before itself.
use magna.Base.{
  ◌≡◌, refl, sym, ap, ◌∙◌, List, [], ◌∷◌, ◌++◌, Option, none, some, length, All, All-mono,
  append_assoc, append-nil, subst,
}
use magna.Gqlmin.Ast.{
  NodeRange, empty_range, Value, list, object, SelectionSet, Selection, field, fragment_spread,
  inline_fragment, Definition, operation, fragment, Node, project_variable_definition,
  project_directive, project_argument, project_selection, project_object_field, project_value,
}

-- The node is of the kind that is read.
abbrev pub Projects : {T : Type 0} → (Node → Option T) → Node → Type 0
Projects {T} project n = (v : T) × (project n ≡ some v)

-- The range lies inside the nodes, and all its nodes are of the kind that is read.
pub record InRange {T : Type 0} (project : Node → Option T) (nodes : List Node) (r : NodeRange)
    : Type 0 where
  pub before : List Node
  pub items : List Node
  pub after : List Node
  pub split : nodes ≡ before ++ (items ++ after)
  pub starts : length before ≡ r.start
  pub spans : length items ≡ r.len
  pub kinds : All (Projects project) items

abbrev pub FitsSet : List Node → SelectionSet → Type 0
FitsSet nodes s = InRange project_selection nodes s.selections

abbrev pub FitsOptionalSet : List Node → Option SelectionSet → Type 0
FitsOptionalSet nodes none = Unit
FitsOptionalSet nodes (some s) = FitsSet nodes s

abbrev pub FitsValue : List Node → Value → Type 0
FitsValue nodes (list r) = InRange project_value nodes r
FitsValue nodes (object r) = InRange project_object_field nodes r
FitsValue nodes _ = Unit

abbrev pub FitsDefault : List Node → Option Value → Type 0
FitsDefault nodes none = Unit
FitsDefault nodes (some v) = FitsValue nodes v

abbrev pub FitsSelection : List Node → Selection → Type 0
FitsSelection nodes (field f) =
    InRange project_argument nodes f.arguments
    × InRange project_directive nodes f.directives
    × FitsOptionalSet nodes f.selection_set
FitsSelection nodes (fragment_spread s) = InRange project_directive nodes s.directives
FitsSelection nodes (inline_fragment s) =
    InRange project_directive nodes s.directives × FitsSet nodes s.selection_set

abbrev pub FitsDefinition : List Node → Definition → Type 0
FitsDefinition nodes (operation o) =
    InRange project_variable_definition nodes o.variable_definitions
    × InRange project_directive nodes o.directives
    × FitsSet nodes o.selection_set
FitsDefinition nodes (fragment f) =
    InRange project_directive nodes f.directives × FitsSet nodes f.selection_set

-- All ranges in the node are readable ranges of `nodes`.
abbrev pub Fits : List Node → Node → Type 0
Fits nodes (Node.definition d) = FitsDefinition nodes d
Fits nodes (Node.variable_definition v) =
    FitsDefault nodes v.default_value × InRange project_directive nodes v.directives
Fits nodes (Node.directive d) = InRange project_argument nodes d.arguments
Fits nodes (Node.argument a) = FitsValue nodes a.value
Fits nodes (Node.selection s) = FitsSelection nodes s
Fits nodes (Node.object_field f) = FitsValue nodes f.value
Fits nodes (Node.value v) = FitsValue nodes v

-- Behind `seen`, the ranges in each node are readable ranges of the nodes before it.
abbrev pub IsOrdered : List Node → List Node → Type 0
IsOrdered seen [] = Unit
IsOrdered seen (n ∷ ns) = Fits seen n × IsOrdered (seen ++ n ∷ []) ns

abbrev pub Grows : List Node → List Node → Type 0
Grows small big = (more : List Node) × (big ≡ small ++ more)

pub Grows-refl : (xs : List Node) → Grows xs xs
Grows-refl xs = ([], sym (append-nil xs))

pub Grows-trans : (xs ys zs : List Node) → Grows xs ys → Grows ys zs → Grows xs zs
Grows-trans xs ys zs (a, p) (b, q) = (a ++ b, q ∙ ap (λ t. t ++ b) p ∙ append_assoc xs a b)

pub InRange-empty :
    {T : Type 0} (project : Node → Option T) (nodes : List Node) → InRange project nodes empty_range
InRange-empty project nodes = record {
  before = [];
  items = [];
  after = nodes;
  split = refl;
  starts = refl;
  spans = refl;
  kinds = tt;
}

module _ (small big : List Node) (g : Grows small big) where
  pub InRange-grows :
      {T : Type 0} (project : Node → Option T) (r : NodeRange)
      → InRange project small r
      → InRange project big r
  InRange-grows project r h = record {
    before = h.before;
    items = h.items;
    after = h.after ++ g.0;
    split =
        g.1
        ∙ ap (λ t. t ++ g.0) h.split
        ∙ append_assoc h.before (h.items ++ h.after) g.0
        ∙ ap (λ t. h.before ++ t) (append_assoc h.items h.after g.0);
    starts = h.starts;
    spans = h.spans;
    kinds = h.kinds;
  }

  pub FitsValue-grows : (v : Value) → FitsValue small v → FitsValue big v
  FitsValue-grows (list r) h = InRange-grows project_value r h
  FitsValue-grows (object r) h = InRange-grows project_object_field r h
  FitsValue-grows _ h = tt

  pub FitsDefault-grows : (v : Option Value) → FitsDefault small v → FitsDefault big v
  FitsDefault-grows none h = tt
  FitsDefault-grows (some v) h = FitsValue-grows v h

  pub FitsSet-grows : (s : SelectionSet) → FitsSet small s → FitsSet big s
  FitsSet-grows s h = InRange-grows project_selection s.selections h

  pub FitsOptionalSet-grows :
      (s : Option SelectionSet) → FitsOptionalSet small s → FitsOptionalSet big s
  FitsOptionalSet-grows none h = tt
  FitsOptionalSet-grows (some s) h = FitsSet-grows s h

  FitsSelection-grows : (s : Selection) → FitsSelection small s → FitsSelection big s
  FitsSelection-grows (field f) h = (
    InRange-grows project_argument f.arguments h.0,
    InRange-grows project_directive f.directives h.1,
    FitsOptionalSet-grows f.selection_set h.2,
  )
  FitsSelection-grows (fragment_spread s) h = InRange-grows project_directive s.directives h
  FitsSelection-grows (inline_fragment s) h =
      (InRange-grows project_directive s.directives h.0, FitsSet-grows s.selection_set h.1)

  FitsDefinition-grows : (d : Definition) → FitsDefinition small d → FitsDefinition big d
  FitsDefinition-grows (operation o) h = (
    InRange-grows project_variable_definition o.variable_definitions h.0,
    InRange-grows project_directive o.directives h.1,
    FitsSet-grows o.selection_set h.2,
  )
  FitsDefinition-grows (fragment f) h =
      (InRange-grows project_directive f.directives h.0, FitsSet-grows f.selection_set h.1)

  pub Fits-grows : (n : Node) → Fits small n → Fits big n
  Fits-grows (Node.definition d) h = FitsDefinition-grows d h
  Fits-grows (Node.variable_definition v) h =
      (FitsDefault-grows v.default_value h.0, InRange-grows project_directive v.directives h.1)
  Fits-grows (Node.directive d) h = InRange-grows project_argument d.arguments h
  Fits-grows (Node.argument a) h = FitsValue-grows a.value h
  Fits-grows (Node.selection s) h = FitsSelection-grows s h
  Fits-grows (Node.object_field f) h = FitsValue-grows f.value h
  Fits-grows (Node.value v) h = FitsValue-grows v h

  pub All-Fits-grows : (ns : List Node) → All (Fits small) ns → All (Fits big) ns
  All-Fits-grows ns h = All-mono (Fits small) (Fits big) ns Fits-grows h

-- Nodes that fit what stands before them all can be appended together.
pub IsOrdered-append :
    (seen xs ys : List Node)
    → IsOrdered seen xs
    → All (Fits (seen ++ xs)) ys
    → IsOrdered seen (xs ++ ys)
IsOrdered-append seen [] [] h k = tt
IsOrdered-append seen [] (y ∷ ys) h k =
    let fits = subst (λ t. All (Fits t) (y ∷ ys)) (append-nil seen) k in
    let next = seen ++ y ∷ [] in
    let later = All-Fits-grows seen next (y ∷ [], refl) ys fits.1 in
    (
      fits.0,
      IsOrdered-append next [] ys tt (subst (λ t. All (Fits t) ys) (sym (append-nil next)) later),
    )
IsOrdered-append seen (x ∷ xs) ys h k =
    let fits = subst (λ t. All (Fits t) ys) (sym (append_assoc seen (x ∷ []) xs)) k in
    (h.0, IsOrdered-append (seen ++ x ∷ []) xs ys h.1 fits)
