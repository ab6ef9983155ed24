-- ===== src/Gqlmin/Parse/Read.antt =====
-- A parsed document can be read: no accessor of a range in it meets a node of another kind.
use magna.Base.{
  ℕ, suc, ◌+◌, ◌-◌, ◌*◌, ◌<◌, ◌≡◌, refl, ap, ◌∙◌, inr, true, List, [], ◌∷◌, ◌++◌, nat_eq, ◌==◌, leb,
  Option, none, some, length, length-append, All, All-mono, append_assoc, subst, Bytes, arith,
}
use magna.Gqlmin.Token.{as_u32}
use magna.Gqlmin.Scan.{drop}
use magna.Gqlmin.Lex.{new_lexer}
use magna.Gqlmin.Ast.{
  NodeRange, Value, list, object, SelectionSet, Selection, field, fragment_spread, inline_fragment,
  Definition, operation, fragment, Node, Document, NodeSlice, take, sub_slice, project_all,
  slice_iter, slice, definitions, variable_definitions, directives, arguments, selections,
  object_fields, list_values, project_definition, project_variable_definition, project_directive,
  project_argument, project_selection, project_object_field, project_value,
}
use magna.Gqlmin.Parse.{Parser, new_parser, ok, close_list}
use magna.Gqlmin.Parse.Definitions.{
  definition_items, finish_document, parse_document, parse_executable_document,
}
use magna.Gqlmin.Parse.Arena.{
  Projects, InRange, FitsValue, FitsSelection, FitsDefinition, FitsDefault, FitsOptionalSet, Fits,
  IsOrdered, Fits-grows,
}
use magna.Gqlmin.Parse.Moves.{
  IsValid, Moves, Ensures, holds, rejected, Ensures-if, Ensures-both, Ensures-bind,
}
use magna.Gqlmin.Parse.Basics.{Listed, close_list-Yields}
use magna.Gqlmin.Parse.Total.{definition_items-Listed}

-- The iteration over the slice comes to its end without a panic.
abbrev pub CanRead : {T : Type 0} → NodeSlice T → Type 0
CanRead {T} s = (items : List T) × (slice_iter s ≡ some items)

abbrev pub CanReadValue : Document → Value → Type 0
CanReadValue doc (list r) = CanRead (list_values doc r)
CanReadValue doc (object r) = CanRead (object_fields doc r)
CanReadValue doc _ = Unit

abbrev pub CanReadDefault : Document → Option Value → Type 0
CanReadDefault doc none = Unit
CanReadDefault doc (some v) = CanReadValue doc v

abbrev pub CanReadSet : Document → Option SelectionSet → Type 0
CanReadSet doc none = Unit
CanReadSet doc (some s) = CanRead (selections doc s.selections)

abbrev pub CanReadSelection : Document → Selection → Type 0
CanReadSelection doc (field f) =
    CanRead (arguments doc f.arguments)
    × CanRead (directives doc f.directives)
    × CanReadSet doc f.selection_set
CanReadSelection doc (fragment_spread s) = CanRead (directives doc s.directives)
CanReadSelection doc (inline_fragment s) =
    CanRead (directives doc s.directives) × CanRead (selections doc s.selection_set.selections)

abbrev pub CanReadDefinition : Document → Definition → Type 0
CanReadDefinition doc (operation o) =
    CanRead (variable_definitions doc o.variable_definitions)
    × CanRead (directives doc o.directives)
    × CanRead (selections doc o.selection_set.selections)
CanReadDefinition doc (fragment f) =
    CanRead (directives doc f.directives) × CanRead (selections doc f.selection_set.selections)

-- Each range in the node can be read by its accessor.
abbrev pub CanReadNode : Document → Node → Type 0
CanReadNode doc (Node.definition d) = CanReadDefinition doc d
CanReadNode doc (Node.variable_definition v) =
    CanReadDefault doc v.default_value × CanRead (directives doc v.directives)
CanReadNode doc (Node.directive d) = CanRead (arguments doc d.arguments)
CanReadNode doc (Node.argument a) = CanReadValue doc a.value
CanReadNode doc (Node.selection s) = CanReadSelection doc s
CanReadNode doc (Node.object_field f) = CanReadValue doc f.value
CanReadNode doc (Node.value v) = CanReadValue doc v

-- The ranges of the definitions and in all nodes can be read, there is a definition, and the
-- ranges in a node are of nodes before it.
abbrev pub IsDocument : Document → Type 0
IsDocument doc =
    ((first : Definition) × (rest : List Definition) × (slice_iter (definitions doc)
        ≡ some (first ∷ rest)))
    × All (CanReadNode doc) doc.nodes
    × IsOrdered [] doc.nodes

sub_slice-middle :
    (before items after : List Node)
    → sub_slice (before ++ (items ++ after)) (length before) (length items) ≡ items
unfolding sub_slice
sub_slice-middle before items after = rw (leb_true, drop_before before) (take_items items)
  where
    leb_true : leb (length before + length items) (length (before ++ (items ++ after))) ≡ true
    leb_true = ground (arith, length-append before (items ++ after), length-append items after)

    drop_before : (xs : List Node) → drop (length xs) (xs ++ (items ++ after)) ≡ items ++ after
    drop_before [] = refl
    drop_before (x ∷ xs) = drop_before xs

    take_items : (xs : List Node) → take (length xs) (xs ++ after) ≡ xs
    take_items [] = refl
    take_items (x ∷ xs) = ap (λ t. x ∷ t) (take_items xs)

project_all-Projects :
    {T : Type 0} (project : Node → Option T) (ns : List Node)
    → All (Projects project) ns
    → (vs : List T) × (project_all project ns ≡ some vs) × (length vs ≡ length ns)
unfolding project_all
project_all-Projects project [] h = ([], refl, refl)
project_all-Projects project (n ∷ ns) h =
    let rest = project_all-Projects project ns h.1 in
    (h.0.0 ∷ rest.0, rw (h.0.1, project_all, rest.1), ap suc rest.2)

pub sub_slice-InRange :
    {T : Type 0} (nodes : List Node) (project : Node → Option T) (r : NodeRange)
    (h : InRange project nodes r)
    → sub_slice nodes r.start r.len ≡ h.items
sub_slice-InRange nodes project r h =
    rw (h.split, ← h.starts, ← h.spans) (sub_slice-middle h.before h.items h.after)

slice-InRange :
    {T : Type 0} (doc : Document) (project : Node → Option T) (r : NodeRange)
    → InRange project doc.nodes r
    → (vs : List T) × (slice_iter (slice doc r project) ≡ some vs) × (length vs ≡ r.len)
unfolding slice_iter slice
slice-InRange doc project r h =
    let read = project_all-Projects project h.items h.kinds in
    (read.0, rw (sub_slice-InRange doc.nodes project r h) read.1, read.2 ∙ h.spans)

InRange-CanRead :
    {T : Type 0} (doc : Document) (project : Node → Option T) (r : NodeRange)
    → InRange project doc.nodes r
    → CanRead (slice doc r project)
InRange-CanRead doc project r h = let read = slice-InRange doc project r h in (read.0, read.1)

module _ (doc : Document) where
  FitsValue-CanRead : (v : Value) → FitsValue doc.nodes v → CanReadValue doc v
  unfolding list_values object_fields
  FitsValue-CanRead (list r) h = InRange-CanRead doc project_value r h
  FitsValue-CanRead (object r) h = InRange-CanRead doc project_object_field r h
  FitsValue-CanRead _ h = tt

  FitsDefault-CanRead : (v : Option Value) → FitsDefault doc.nodes v → CanReadDefault doc v
  FitsDefault-CanRead none h = tt
  FitsDefault-CanRead (some v) h = FitsValue-CanRead v h

  FitsSelection-CanRead : (s : Selection) → FitsSelection doc.nodes s → CanReadSelection doc s
  unfolding arguments directives selections
  FitsSelection-CanRead (field f) h = (
    InRange-CanRead doc project_argument f.arguments h.0,
    InRange-CanRead doc project_directive f.directives h.1,
    inner f.selection_set h.2,
  )
    where
      inner : (s : Option SelectionSet) → FitsOptionalSet doc.nodes s → CanReadSet doc s
      inner none h = tt
      inner (some s) h = InRange-CanRead doc project_selection s.selections h
  FitsSelection-CanRead (fragment_spread s) h = InRange-CanRead doc project_directive s.directives h
  FitsSelection-CanRead (inline_fragment s) h = (
    InRange-CanRead doc project_directive s.directives h.0,
    InRange-CanRead doc project_selection s.selection_set.selections h.1,
  )

  FitsDefinition-CanRead : (d : Definition) → FitsDefinition doc.nodes d → CanReadDefinition doc d
  unfolding variable_definitions directives selections
  FitsDefinition-CanRead (operation o) h = (
    InRange-CanRead doc project_variable_definition o.variable_definitions h.0,
    InRange-CanRead doc project_directive o.directives h.1,
    InRange-CanRead doc project_selection o.selection_set.selections h.2,
  )
  FitsDefinition-CanRead (fragment f) h = (
    InRange-CanRead doc project_directive f.directives h.0,
    InRange-CanRead doc project_selection f.selection_set.selections h.1,
  )

  Fits-CanRead : (n : Node) → Fits doc.nodes n → CanReadNode doc n
  unfolding directives arguments
  Fits-CanRead (Node.definition d) h = FitsDefinition-CanRead d h
  Fits-CanRead (Node.variable_definition v) h = (
    FitsDefault-CanRead v.default_value h.0,
    InRange-CanRead doc project_directive v.directives h.1,
  )
  Fits-CanRead (Node.directive d) h = InRange-CanRead doc project_argument d.arguments h
  Fits-CanRead (Node.argument a) h = FitsValue-CanRead a.value h
  Fits-CanRead (Node.selection s) h = FitsSelection-CanRead s h
  Fits-CanRead (Node.object_field f) h = FitsValue-CanRead f.value h
  Fits-CanRead (Node.value v) h = FitsValue-CanRead v h

-- What fits the nodes before it fits all nodes.
pub IsOrdered-Fits : (seen ns : List Node) → IsOrdered seen ns → All (Fits (seen ++ ns)) ns
IsOrdered-Fits seen [] h = tt
IsOrdered-Fits seen (n ∷ ns) h = (
  Fits-grows seen (seen ++ n ∷ ns) (n ∷ ns, refl) n h.0,
  subst (λ t. All (Fits t) ns) (append_assoc seen (n ∷ []) ns)
      (IsOrdered-Fits (seen ++ n ∷ []) ns h.1),
)

IsOrdered-CanRead : (doc : Document) → IsOrdered [] doc.nodes → All (CanReadNode doc) doc.nodes
IsOrdered-CanRead doc h =
    All-mono (Fits doc.nodes) (CanReadNode doc) doc.nodes (Fits-CanRead doc)
      (IsOrdered-Fits [] doc.nodes h)

close_list-len :
    (start : ℕ) (q : Parser)
    → Ensures (λ r _. r.len ≡ as_u32 (length q.scratch - start)) (close_list start q)
unfolding close_list
close_list-len start q = holds refl

some_definition :
    (doc : Document) (count : ℕ)
    → InRange project_definition doc.nodes doc.definitions_range
    → doc.definitions_range.len ≡ count
    → 0 < count
    → (first : Definition) × (rest : List Definition) × (slice_iter (definitions doc)
        ≡ some (first ∷ rest))
unfolding definitions
some_definition doc count h e more =
    let read = slice-InRange doc project_definition doc.definitions_range h in
    by_items read.0 read.1 (read.2 ∙ e)
  where
    by_items :
        (vs : List Definition)
        → slice_iter (definitions doc) ≡ some vs
        → length vs ≡ count
        → (first : Definition) × (rest : List Definition) × (slice_iter (definitions doc)
            ≡ some (first ∷ rest))
    by_items [] p k = absurd (omega (arith, k, more))
    by_items (d ∷ ds) p k = (d, ds, p)

finish_document-IsDocument :
    (p q : Parser) (items : List Node)
    → IsValid p
    → Listed project_definition 0 p items q
    → Ensures (λ doc _. IsDocument doc) (finish_document (length p.scratch) q)
unfolding finish_document
finish_document-IsDocument p q items v l =
    Ensures-if (λ doc _. IsDocument doc) (length q.scratch == length p.scratch) _ _ (λ _. rejected)
      (λ more.
        Ensures-bind _ (λ doc _. IsDocument doc) (close_list (length p.scratch) q)
          (λ r z. ok (record { definitions_range = r; nodes = z.nodes }) (record z { nodes = [] }))
          (Ensures-both (λ r after. Moves 0 p [] after × InRange project_definition after.nodes r) _
            _ (close_list-Yields project_definition 0 p q items v l)
            (close_list-len (length p.scratch) q))
          (λ r z m.
            let count : 0 < as_u32 (length q.scratch - length p.scratch) = ground (
              arith,
              more,
              ap length l.0.scratch,
              length-append p.scratch items,
              l.0.valid.room,
              l.0.valid.small,
            ) in
            let doc : Document = record { definitions_range = r; nodes = z.nodes } in
            holds (
              some_definition doc _ m.0.1 m.1 count,
              IsOrdered-CanRead doc m.0.0.valid.ordered,
              m.0.0.valid.ordered,
            )))

-- For a source of less than 2 GiB, the fuel is enough, and the parser returns an error or a
-- document. In a document there is at least one definition, the iteration over the definitions and
-- over every range in every node comes to its end without a panic, and the ranges in a node are of
-- nodes of the right kind that stand before it.
pub parse_executable_document-IsDocument :
    (src : Bytes)
    → 2 * length src < 4294967296
    → Ensures (λ doc _. IsDocument doc) (parse_executable_document src)
unfolding parse_executable_document parse_document new_parser new_lexer
parse_executable_document-IsDocument src small =
    Ensures-bind (λ _ q. (items : List Node) × Listed project_definition 0 (new_parser src) items q)
      (λ doc _. IsDocument doc) (definition_items fuel fuel (new_parser src)) _
      (definition_items-Listed fuel fuel (new_parser src) start (omega arith) (omega arith))
      (λ _ q (items, l). finish_document-IsDocument (new_parser src) q items start l)
  where
    fuel : ℕ
    fuel = suc (2 * length src)

    start : IsValid (new_parser src)
    start = record {
      inside = (omega arith, inr refl);
      small = small;
      room = omega arith;
      ordered = tt;
      fits = tt;
    }
