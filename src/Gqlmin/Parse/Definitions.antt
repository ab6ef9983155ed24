-- ===== src/Gqlmin/Parse/Definitions.antt =====
-- crates/magna-gqlmin/src/parse/mod.rs: selections, operations, fragments and the document.
use magna.Base.{
  ℕ, zero, suc, ◌*◌, true, false, ◌&&◌, if◌then◌else◌, nat_eq, ◌==◌, Option, none, some, length, [],
  Bytes, bytes, bytes_eq,
}
use magna.Gqlmin.Token.{
  as_u32, Span, TokenKind, dollar, l_paren, r_paren, colon, equals, l_brace, r_brace, eof,
  unexpected_token, unexpected_eof, unknown_definition, empty_selection_set,
  expected_operation_kind, expected_dollar, expected_colon, expected_on_keyword, expected_name,
}
use magna.Gqlmin.Ast.{
  NodeRange, empty_range, Name, Value, SelectionSet, Selection, field, fragment_spread,
  inline_fragment, OperationKind, query, mutation, subscription, OperationDefinition,
  FragmentDefinition, Definition, operation, fragment, Node, Document,
}
use magna.Gqlmin.Parse.{
  new_parser, Outcome, ok, M, out_of_fuel, bind, ◌>>=◌, ◌>>◌, pure, fail, is_kind, peek, bump_tok,
  slice_str, slice_token, expect, open_list, push, close_list, parse_name, items_until,
}
use magna.Gqlmin.Parse.Values.{parse_type, parse_value, optional_arguments, parse_directives}

-- The default value of a variable.
unfoldable pub optional_default : ℕ → M (Option Value)
unfolding peek is_kind bump_tok parse_value
optional_default fuel = do
  t ← peek
  if is_kind equals t then (do bump_tok; v ← parse_value fuel true; pure (some v)) else pure none

unfoldable pub variable_item : ℕ → M (Unit {0})
unfolding expect parse_name parse_type optional_default parse_directives
variable_item fuel = do
  expect dollar expected_dollar
  n ← parse_name
  expect colon expected_colon
  type ← parse_type fuel
  default ← optional_default fuel
  r ← parse_directives fuel
  push (
      Node.variable_definition
        (record { name = n; var_type = type; default_value = default; directives = r }))

unfoldable pub parse_variable_definitions : ℕ → M NodeRange
unfolding expect items_until variable_item close_list
parse_variable_definitions fuel = do
  expect l_paren unexpected_token
  start ← open_list
  items_until fuel r_paren (variable_item fuel)
  close_list start

-- What follows `...`.
unfoldable pub parse_spread : ℕ → M SelectionSet → M Selection
unfolding peek is_kind bump_tok slice_str parse_name parse_directives
parse_spread fuel set = do
  next ← peek
  kw ← slice_token next
  if is_kind TokenKind.name next
      then (if kw == bytes "on"
          then (do
            bump_tok
            n ← parse_name
            r ← parse_directives fuel
            s ← set
            pure (
                inline_fragment (record {
                  type_condition = some (record { name = n });
                  directives = r;
                  selection_set = s;
                })))
          else (do
            n ← parse_name
            r ← parse_directives fuel
            pure (fragment_spread (record { name = n; directives = r }))))
      else (do
        r ← parse_directives fuel
        s ← set
        pure
            (inline_fragment (record { type_condition = none; directives = r; selection_set = s })))

-- The name behind an alias: the first name is the alias if a colon follows it.
unfoldable pub parse_alias : Name → M (Option Name × Name)
unfolding peek is_kind bump_tok parse_name
parse_alias first = do
  t ← peek
  if is_kind colon t
      then (do bump_tok; real ← parse_name; pure (some first, real))
      else pure (none, first)

unfoldable pub optional_set : M SelectionSet → M (Option SelectionSet)
unfolding peek is_kind
optional_set set = do t ← peek; if is_kind l_brace t then (do s ← set; pure (some s)) else pure none

unfoldable pub parse_field : ℕ → M SelectionSet → M Selection
unfolding parse_name parse_alias optional_arguments parse_directives optional_set
parse_field fuel set = do
  first ← parse_name
  names ← parse_alias first
  a ← optional_arguments fuel
  r ← parse_directives fuel
  s ← optional_set set
  pure (
      field (record {
        alias = names.0;
        name = names.1;
        arguments = a;
        directives = r;
        selection_set = s;
      }))

unfoldable pub parse_selection : ℕ → M SelectionSet → M Selection
unfolding peek is_kind bump_tok parse_spread parse_field
parse_selection fuel set = do
  t ← peek
  if is_kind TokenKind.spread t
      then (do bump_tok; parse_spread fuel set)
      else if is_kind TokenKind.name t
      then parse_field fuel set
      else fail t.span expected_name

abbrev pub selection_item : ℕ → M SelectionSet → M (Unit {0})
selection_item fuel set = parse_selection fuel set >>= λ s. push (Node.selection s)

-- Behind the closing brace, where the list on the scratch stack began at `start`.
unfoldable pub finish_set : Span → ℕ → Span → M SelectionSet
unfolding close_list
finish_set opening start close p =
    let span : Span = record { start = opening.start; end = close.end } in
    if length p.scratch == start
    then fail span empty_selection_set p
    else bind (close_list start p) λ r. pure (record { selections = r; span = span })

unfoldable pub parse_selection_set : ℕ → M SelectionSet
unfolding expect items_until parse_selection finish_set
parse_selection_set zero p = out_of_fuel
parse_selection_set (suc fuel) p = bind (expect l_brace unexpected_token p) λ opening.
    open_list >>= λ start.
    items_until fuel r_brace (selection_item fuel (parse_selection_set fuel)) >>= λ close.
    finish_set opening.span start close.span

unfoldable pub parse_shorthand_query : ℕ → M OperationDefinition
unfolding peek parse_selection_set
parse_shorthand_query fuel = do
  t ← peek
  s ← parse_selection_set fuel
  pure (record {
    kind = query;
    name = none;
    variable_definitions = empty_range;
    directives = empty_range;
    selection_set = s;
    span = record { start = t.span.start; end = s.span.end };
    shorthand = true;
  })

unfoldable pub operation_kind : Bytes → Option OperationKind
operation_kind kw =
    if kw == bytes "query"
    then some query
    else if kw == bytes "mutation"
    then some mutation
    else if kw == bytes "subscription"
    then some subscription
    else none

unfoldable pub optional_name : M (Option Name)
unfolding peek is_kind parse_name
optional_name = do
  t ← peek
  if is_kind TokenKind.name t then (do n ← parse_name; pure (some n)) else pure none

unfoldable pub optional_variables : ℕ → M NodeRange
unfolding peek is_kind parse_variable_definitions
optional_variables fuel = do
  t ← peek
  if is_kind l_paren t then parse_variable_definitions fuel else pure empty_range

-- Behind the keyword of an operation.
unfoldable pub parse_operation : ℕ → Span → OperationKind → M OperationDefinition
unfolding optional_name optional_variables parse_directives parse_selection_set
parse_operation fuel kw kind = do
  n ← optional_name
  v ← optional_variables fuel
  r ← parse_directives fuel
  s ← parse_selection_set fuel
  pure (record {
    kind = kind;
    name = n;
    variable_definitions = v;
    directives = r;
    selection_set = s;
    span = record { start = kw.start; end = s.span.end };
    shorthand = false;
  })

unfoldable pub parse_operation_definition : ℕ → M OperationDefinition
unfolding bump_tok slice_str operation_kind parse_operation
parse_operation_definition fuel = do
  t ← bump_tok
  kw ← slice_token t
  elim (operation_kind kw) [
    | none ↦ fail t.span expected_operation_kind
    | some kind ↦ parse_operation fuel t.span kind
  ]

-- Behind the keyword `on` of a fragment definition.
unfoldable pub parse_fragment : ℕ → Span → Name → M FragmentDefinition
unfolding bump_tok parse_name parse_directives parse_selection_set
parse_fragment fuel kw n = do
  bump_tok
  type ← parse_name
  r ← parse_directives fuel
  s ← parse_selection_set fuel
  pure (record {
    name = n;
    type_condition = record { name = type };
    directives = r;
    selection_set = s;
    span = record { start = kw.start; end = s.span.end };
  })

unfoldable pub parse_fragment_definition : ℕ → M FragmentDefinition
unfolding bump_tok parse_name peek is_kind slice_str parse_fragment
parse_fragment_definition fuel = do
  kw ← bump_tok
  n ← parse_name
  on ← peek
  word ← slice_token on
  if is_kind TokenKind.name on && word == bytes "on"
      then parse_fragment fuel kw.span n
      else fail on.span expected_on_keyword

unfoldable pub parse_definition : ℕ → M Definition
unfolding peek is_kind slice_str parse_shorthand_query parse_operation_definition
    parse_fragment_definition
parse_definition fuel = do
  t ← peek
  kw ← slice_token t
  if is_kind l_brace t
      then (do o ← parse_shorthand_query fuel; pure (operation o))
      else if is_kind TokenKind.name t
      then (if kw == bytes "query"
          then (do o ← parse_operation_definition fuel; pure (operation o))
          else if kw == bytes "mutation"
          then (do o ← parse_operation_definition fuel; pure (operation o))
          else if kw == bytes "subscription"
          then (do o ← parse_operation_definition fuel; pure (operation o))
          else if kw == bytes "fragment"
          then (do f ← parse_fragment_definition fuel; pure (fragment f))
          else fail t.span unknown_definition)
      else fail t.span unknown_definition

-- The loop over the definitions, with a bound on its rounds and the fuel of an item.
unfoldable pub definition_items : ℕ → ℕ → M (Unit {0})
unfolding peek is_kind parse_definition
definition_items zero fuel p = out_of_fuel
definition_items (suc rounds) fuel p = bind (peek p) λ t q.
    if is_kind eof t
    then pure tt q
    else bind (parse_definition fuel q)
        λ d r. bind (push (Node.definition d) r) (λ _. definition_items rounds fuel)

-- Behind the last definition, where the list on the scratch stack began at `start`.
unfoldable pub finish_document : ℕ → M Document
unfolding close_list
finish_document start p =
    if length p.scratch == start
    then fail (record { start = 0; end = as_u32 (length p.lexer.source) }) unexpected_eof p
    else bind (close_list start p)
        λ r q. ok (record { definitions_range = r; nodes = q.nodes }) (record q { nodes = [] })

unfoldable pub parse_document : ℕ → M Document
unfolding definition_items finish_document
parse_document fuel = do start ← open_list; definition_items fuel fuel; finish_document start

-- The fuel is the theorem's bound: twice the length and one.
unfoldable pub parse_executable_document : Bytes → Outcome Document
unfolding new_parser parse_document
parse_executable_document src = parse_document (suc (2 * length src)) (new_parser src)
