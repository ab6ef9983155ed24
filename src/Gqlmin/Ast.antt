-- ===== src/Gqlmin/Ast.antt =====
-- crates/magna-gqlmin/src/parse/mod.rs: the syntax tree, whose lists are ranges of one shared list
-- of nodes, and the accessors of a document. A panic is `none`.
use magna.Base.{
  ℕ, zero, suc, ◌+◌, Bool, if◌then◌else◌, nat_eq, ◌==◌, leb, List, [], ◌∷◌, Option, none, some,
  length, get_elem?, map_option, Bytes,
}
use magna.Gqlmin.Token.{Span}
use magna.Gqlmin.Scan.{drop}

pub record NodeRange : Type 0 where
  pub start : ℕ
  pub len : ℕ

-- `NodeRange::EMPTY`
abbrev pub empty_range : NodeRange
empty_range = record { start = 0; len = 0 }

unfoldable pub is_empty_range : NodeRange → Bool
is_empty_range r = r.len == 0

pub record Name : Type 0 where
  pub value : Bytes
  pub span : Span

pub record NamedType : Type 0 where
  pub name : Name

-- The enum `Type`.
pub data TypeRef : Type 0 where
  named : NamedType → TypeRef
  list_of non_null : TypeRef → TypeRef

pub record StringValue : Type 0 where
  pub raw : Bytes
  pub block : Bool
  pub span : Span

pub data Value : Type 0 where
  variable : Name → Value
  int float : Bytes → Value
  string : StringValue → Value
  boolean : Bool → Value
  null : Value
  enum : Name → Value
  list object : NodeRange → Value

pub record ObjectField : Type 0 where
  pub name : Name
  pub value : Value

pub record Argument : Type 0 where
  pub name : Name
  pub value : Value

pub record Directive : Type 0 where
  pub name : Name
  pub arguments : NodeRange

pub record SelectionSet : Type 0 where
  pub selections : NodeRange
  pub span : Span

pub record Field : Type 0 where
  pub alias : Option Name
  pub name : Name
  pub arguments : NodeRange
  pub directives : NodeRange
  pub selection_set : Option SelectionSet

pub record FragmentSpread : Type 0 where
  pub name : Name
  pub directives : NodeRange

pub record InlineFragment : Type 0 where
  pub type_condition : Option NamedType
  pub directives : NodeRange
  pub selection_set : SelectionSet

pub data Selection : Type 0 where
  field : Field → Selection
  fragment_spread : FragmentSpread → Selection
  inline_fragment : InlineFragment → Selection

pub record VariableDefinition : Type 0 where
  pub name : Name
  pub var_type : TypeRef
  pub default_value : Option Value
  pub directives : NodeRange

pub data OperationKind : Type 0 where
  query mutation subscription : OperationKind

pub record OperationDefinition : Type 0 where
  pub kind : OperationKind
  pub name : Option Name
  pub variable_definitions : NodeRange
  pub directives : NodeRange
  pub selection_set : SelectionSet
  pub span : Span
  pub shorthand : Bool

pub record FragmentDefinition : Type 0 where
  pub name : Name
  pub type_condition : NamedType
  pub directives : NodeRange
  pub selection_set : SelectionSet
  pub span : Span

pub data Definition : Type 0 where
  operation : OperationDefinition → Definition
  fragment : FragmentDefinition → Definition

pub data Node : Type 0 where
  definition : Definition → Node
  variable_definition : VariableDefinition → Node
  directive : Directive → Node
  argument : Argument → Node
  selection : Selection → Node
  object_field : ObjectField → Node
  value : Value → Node

pub record Document : Type 0 where
  pub definitions_range : NodeRange
  pub nodes : List Node

unfoldable pub project_definition : Node → Option Definition
project_definition n = elim n [ definition v ↦ some v | _ ↦ none ]

unfoldable pub project_variable_definition : Node → Option VariableDefinition
project_variable_definition n = elim n [ variable_definition v ↦ some v | _ ↦ none ]

unfoldable pub project_directive : Node → Option Directive
project_directive n = elim n [ directive v ↦ some v | _ ↦ none ]

unfoldable pub project_argument : Node → Option Argument
project_argument n = elim n [ argument v ↦ some v | _ ↦ none ]

unfoldable pub project_selection : Node → Option Selection
project_selection n = elim n [ selection v ↦ some v | _ ↦ none ]

unfoldable pub project_object_field : Node → Option ObjectField
project_object_field n = elim n [ object_field v ↦ some v | _ ↦ none ]

unfoldable pub project_value : Node → Option Value
project_value n = elim n [ value v ↦ some v | _ ↦ none ]

-- The nodes of a range, and how each is read.
pub record NodeSlice (T : Type 0) : Type 0 where
  pub nodes : List Node
  pub project : Node → Option T

module _ {T : Type 0} where
  unfoldable pub slice_len : NodeSlice T → ℕ
  slice_len s = length s.nodes

  unfoldable pub slice_get : NodeSlice T → ℕ → Option (Option T)
  slice_get s i = elim (get_elem? s.nodes i) [
    | none ↦ some none
    | some n ↦ map_option some (s.project n)
  ]

  unfoldable pub slice_index : NodeSlice T → ℕ → Option T
  slice_index s i = elim (get_elem? s.nodes i) [ none ↦ none | some n ↦ s.project n ]

  -- The items of an iteration up to its end.
  unfoldable pub project_all : (Node → Option T) → List Node → Option (List T)
  project_all project [] = some []
  project_all project (n ∷ ns) = elim (project n) [
    | none ↦ none
    | some v ↦ map_option (λ vs. v ∷ vs) (project_all project ns)
  ]

  unfoldable pub slice_iter : NodeSlice T → Option (List T)
  unfolding project_all
  slice_iter s = project_all s.project s.nodes

unfoldable pub take {ℓ} : {A : Type ℓ} → ℕ → List A → List A
take zero xs = []
take (suc n) [] = []
take (suc n) (x ∷ xs) = x ∷ take n xs

-- `xs.get(start..end).unwrap_or(&[])` with `end = start + len`
unfoldable pub sub_slice {ℓ} : {A : Type ℓ} → List A → ℕ → ℕ → List A
unfolding take drop
sub_slice xs start len = if leb (start + len) (length xs) then take len (drop start xs) else []

unfoldable pub slice : {T : Type 0} → Document → NodeRange → (Node → Option T) → NodeSlice T
unfolding sub_slice
slice doc r project = record { nodes = sub_slice doc.nodes r.start r.len; project = project }

unfoldable pub definitions : Document → NodeSlice Definition
unfolding slice project_definition
definitions doc = slice doc doc.definitions_range project_definition

unfoldable pub variable_definitions : Document → NodeRange → NodeSlice VariableDefinition
unfolding slice project_variable_definition
variable_definitions doc r = slice doc r project_variable_definition

unfoldable pub directives : Document → NodeRange → NodeSlice Directive
unfolding slice project_directive
directives doc r = slice doc r project_directive

unfoldable pub arguments : Document → NodeRange → NodeSlice Argument
unfolding slice project_argument
arguments doc r = slice doc r project_argument

unfoldable pub selections : Document → NodeRange → NodeSlice Selection
unfolding slice project_selection
selections doc r = slice doc r project_selection

unfoldable pub object_fields : Document → NodeRange → NodeSlice ObjectField
unfolding slice project_object_field
object_fields doc r = slice doc r project_object_field

unfoldable pub list_values : Document → NodeRange → NodeSlice Value
unfolding slice project_value
list_values doc r = slice doc r project_value
