-- ===== src/Gqlmin/Parse/Values.antt =====
-- crates/magna-gqlmin/src/parse/mod.rs: types, values, arguments and directives.
use magna.Base.{
  ℕ, zero, suc, Bool, true, false, if◌then◌else◌, nat_eq, ◌==◌, Bytes, bytes, bytes_eq,
}
use magna.Gqlmin.Token.{
  Span, TokenKind, bang, dollar, l_paren, r_paren, colon, at_sign, l_bracket, r_bracket, l_brace,
  r_brace, int_value, float_value, string_value, block_string_value, unexpected_token,
  expected_type, expected_value, expected_colon, unclosed_delimiter,
}
use magna.Gqlmin.Ast.{
  NodeRange, empty_range, TypeRef, named, list_of, non_null, Value, variable, int, float, string,
  boolean, null, enum, list, object, Node,
}
use magna.Gqlmin.Parse.{
  M, out_of_fuel, bind, ◌>>=◌, ◌>>◌, pure, fail, is_kind, peek, bump_tok, slice_token, expect,
  open_list, push, close_list, parse_name, items_until,
}

-- A `!` behind a type.
unfoldable pub parse_bang : TypeRef → M TypeRef
unfolding peek is_kind bump_tok
parse_bang inner = do
  t ← peek
  if is_kind bang t then (do bump_tok; pure (non_null inner)) else pure inner

unfoldable pub parse_type : ℕ → M TypeRef
unfolding peek bump_tok expect parse_name parse_bang
parse_type zero p = out_of_fuel
parse_type (suc fuel) p = bind (peek p) λ t q. elim t.kind [
  | TokenKind.name ↦ bind (parse_name q) λ n. parse_bang (named (record { name = n }))
  | l_bracket ↦ bind (bump_tok q) λ _ r.
      bind (parse_type fuel r)
        λ elem. expect r_bracket unclosed_delimiter >>= λ _. parse_bang (list_of elem)
  | _ ↦ fail t.span expected_type q
]

-- A name that stands for a value.
unfoldable pub name_value : Bytes → Span → Value
name_value lex span =
    if lex == bytes "true"
    then boolean true
    else if lex == bytes "false"
    then boolean false
    else if lex == bytes "null"
    then null
    else enum (record { value = lex; span = span })

-- One item of a list value, and one field of an object value.
abbrev pub list_item : M Value → M (Unit {0})
list_item parse = parse >>= λ v. push (Node.value v)

unfoldable pub object_item : M Value → M (Unit {0})
unfolding parse_name expect
object_item parse = do
  n ← parse_name
  expect colon expected_colon
  v ← parse
  push (Node.object_field (record { name = n; value = v }))

unfoldable pub parse_value : ℕ → Bool → M Value
unfolding peek bump_tok parse_name items_until close_list name_value object_item
parse_value zero is_const p = out_of_fuel
parse_value (suc fuel) is_const p = bind (peek p) λ t. elim t.kind [
  | dollar ↦
      if is_const
      then fail t.span expected_value
      else (bump_tok >>= λ _. parse_name >>= λ n. pure (variable n))
  | int_value ↦ bump_tok >>= λ _. slice_token t >>= λ s. pure (int s)
  | float_value ↦ bump_tok >>= λ _. slice_token t >>= λ s. pure (float s)
  | string_value ↦ bump_tok >>= λ _.
      slice_token t >>= λ s. pure (string (record { raw = s; block = false; span = t.span }))
  | block_string_value ↦ bump_tok >>= λ _.
      slice_token t >>= λ s. pure (string (record { raw = s; block = true; span = t.span }))
  | TokenKind.name ↦ slice_token t >>= λ lex. bump_tok >>= λ _. pure (name_value lex t.span)
  | l_bracket ↦ bump_tok >>= λ _. open_list >>= λ start.
      items_until fuel r_bracket (list_item (parse_value fuel is_const)) >>= λ _.
      close_list start >>= λ r. pure (list r)
  | l_brace ↦ bump_tok >>= λ _. open_list >>= λ start.
      items_until fuel r_brace (object_item (parse_value fuel is_const)) >>= λ _.
      close_list start >>= λ r. pure (object r)
  | _ ↦ fail t.span expected_value
]

unfoldable pub argument_item : ℕ → M (Unit {0})
unfolding parse_name expect parse_value
argument_item fuel = do
  n ← parse_name
  expect colon expected_colon
  v ← parse_value fuel false
  push (Node.argument (record { name = n; value = v }))

unfoldable pub parse_arguments : ℕ → M NodeRange
unfolding expect items_until argument_item close_list
parse_arguments fuel = do
  expect l_paren unexpected_token
  start ← open_list
  items_until fuel r_paren (argument_item fuel)
  close_list start

-- `if self.peek()?.kind == TokenKind::LParen { self.parse_arguments()? } else { NodeRange::EMPTY }`
unfoldable pub optional_arguments : ℕ → M NodeRange
unfolding peek is_kind parse_arguments
optional_arguments fuel = do
  t ← peek
  if is_kind l_paren t then parse_arguments fuel else pure empty_range

unfoldable pub directive_item : ℕ → M (Unit {0})
unfolding bump_tok parse_name optional_arguments
directive_item fuel = do
  bump_tok
  n ← parse_name
  r ← optional_arguments fuel
  push (Node.directive (record { name = n; arguments = r }))

-- The loop over the directives, with a bound on its rounds and the fuel of an item.
unfoldable pub directive_items : ℕ → ℕ → M (Unit {0})
unfolding peek is_kind directive_item
directive_items zero fuel p = out_of_fuel
directive_items (suc rounds) fuel p = bind (peek p) λ t q.
    if is_kind at_sign t
    then bind (directive_item fuel q) (λ _. directive_items rounds fuel)
    else pure tt q

unfoldable pub parse_directives : ℕ → M NodeRange
unfolding directive_items close_list
parse_directives fuel = do start ← open_list; directive_items fuel fuel; close_list start
