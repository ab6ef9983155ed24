-- ===== src/Gqlmin/Parse.antt =====
-- crates/magna-gqlmin/src/parse/mod.rs: the parser's state and what all productions use.
pub mod Values
pub mod Definitions
pub mod Arena
pub mod Moves
pub mod Basics
pub mod Lists
pub mod Reads
pub mod Directives
pub mod Sets
pub mod Total
pub mod Read
use magna.Base.{
  ℕ, zero, suc, ◌+◌, ◌-◌, ◌*◌, Bool, true, false, ◌&&◌, ◌||◌, not, if◌then◌else◌, nat_eq, ◌==◌, leb,
  ltb, List, [], ◌∷◌, ◌++◌, Option, none, some, length, get_elem?, Bytes,
}
use magna.Gqlmin.Token.{
  as_u32, Span, TokenKind, bang, dollar, amp, l_paren, r_paren, spread, colon, equals, at_sign,
  l_bracket, r_bracket, l_brace, pipe, r_brace, int_value, float_value, string_value,
  block_string_value, eof, Token, ParseErrorKind, ParseError, unexpected_char, expected_name,
  unclosed_delimiter,
}
use magna.Gqlmin.Scan.{drop}
use magna.Gqlmin.Lex.{Lexer, new_lexer, Step, lexed, failed, next_token}
use magna.Gqlmin.Ast.{take, sub_slice, NodeRange, Name, Node}

pub record Parser : Type 0 where
  pub lexer : Lexer
  pub peeked : Option Token
  pub nodes : List Node
  pub scratch : List Node

unfoldable pub new_parser : Bytes → Parser
unfolding new_lexer
new_parser src = record { lexer = new_lexer src; peeked = none; nodes = []; scratch = [] }

-- The result of a production with the parser after it. An error ends the parse, so the parser is
-- dropped with it; `out_of_fuel` has no counterpart in the program.
pub data Outcome (A : Type 0) : Type 0 where
  ok : A → Parser → Outcome A
  err : ParseError → Outcome A
  out_of_fuel : Outcome A

abbrev pub M : Type 0 → Type 0
M A = Parser → Outcome A

module _ {A B : Type 0} where
  abbrev pub bind : Outcome A → (A → Parser → Outcome B) → Outcome B
  bind (ok a p) f = f a p
  bind (err e) f = err e
  bind out_of_fuel f = out_of_fuel

  infixl 1 ◌>>=◌ ◌>>◌
  abbrev pub ◌>>=◌ : M A → (A → M B) → M B
  m >>= f = λ p. bind (m p) f

  abbrev pub ◌>>◌ : M A → M B → M B
  m >> k = m >>= λ _. k

module _ {A : Type 0} where
  abbrev pub pure : A → M A
  pure a p = ok a p

  abbrev pub fail : Span → ParseErrorKind → M A
  fail span kind p = err (record { span = span; kind = kind })

-- The discriminant of a kind, by which the derived `==` compares.
unfoldable pub kind_code : TokenKind → ℕ
kind_code kind = elim kind [
  | bang ↦ 0
  | dollar ↦ 1
  | amp ↦ 2
  | l_paren ↦ 3
  | r_paren ↦ 4
  | spread ↦ 5
  | colon ↦ 6
  | equals ↦ 7
  | at_sign ↦ 8
  | l_bracket ↦ 9
  | r_bracket ↦ 10
  | l_brace ↦ 11
  | pipe ↦ 12
  | r_brace ↦ 13
  | TokenKind.name ↦ 14
  | int_value ↦ 15
  | float_value ↦ 16
  | string_value ↦ 17
  | block_string_value ↦ 18
  | eof ↦ 19
]

unfoldable pub is_kind : TokenKind → Token → Bool
unfolding kind_code
is_kind kind t = kind_code t.kind == kind_code kind

unfoldable pub peek : M Token
unfolding next_token
peek p = elim p.peeked [
  | some t ↦ ok t p
  | none ↦ elim (next_token p.lexer) [
    | lexed t after ↦ ok t (record p { lexer = after; peeked = some t })
    | failed e after ↦ err e
  ]
]

unfoldable pub bump_tok : M Token
unfolding next_token
bump_tok p = elim p.peeked [
  | some t ↦ ok t (record p { peeked = none })
  | none ↦ elim (next_token p.lexer) [
    | lexed t after ↦ ok t (record p { lexer = after })
    | failed e after ↦ err e
  ]
]

-- `str::is_char_boundary`: a byte of the form 10xxxxxx goes on with a character.
unfoldable pub is_char_boundary : Bytes → ℕ → Bool
is_char_boundary src i =
    if i == length src
    then true
    else elim (get_elem? src i) [ none ↦ false | some b ↦ ltb b 128 || leb 192 b ]

-- `src.get(start..end).unwrap_or("")`
unfoldable pub slice_str : Bytes → Span → Bytes
unfolding is_char_boundary sub_slice
slice_str src span =
    if leb span.start span.end && is_char_boundary src span.start && is_char_boundary src span.end
    then sub_slice src span.start (span.end - span.start)
    else []

abbrev pub slice_token : Token → M Bytes
slice_token t p = ok (slice_str p.lexer.source t.span) p

unfoldable pub expect : TokenKind → ParseErrorKind → M Token
unfolding peek is_kind bump_tok
expect kind error = do t ← peek; if is_kind kind t then bump_tok else fail t.span error

abbrev pub open_list : M ℕ
open_list p = ok (length p.scratch) p

abbrev pub push : Node → M (Unit {0})
push n p = ok tt (record p { scratch = p.scratch ++ n ∷ [] })

unfoldable pub close_list : ℕ → M NodeRange
unfolding take drop
close_list scratch_start p =
    ok (record { start = as_u32 (length p.nodes); len = as_u32 (length p.scratch - scratch_start) })
      (record p {
        nodes = p.nodes ++ drop scratch_start p.scratch;
        scratch = take scratch_start p.scratch;
      })

unfoldable pub parse_name : M Name
unfolding peek is_kind bump_tok slice_str
parse_name = do
  t ← peek
  if is_kind TokenKind.name t
      then (do bump_tok; value ← slice_token t; pure (record { value = value; span = t.span }))
      else fail t.span expected_name

-- The loop of a list between delimiters: up to the closing token, which it returns, the item is
-- parsed. The fuel is a bound on the rounds.
unfoldable pub items_until : ℕ → TokenKind → M (Unit {0}) → M Token
unfolding peek is_kind bump_tok
items_until zero close item p = out_of_fuel
items_until (suc fuel) close item p = bind (peek p) λ t q.
    if is_kind close t
    then bump_tok q
    else if is_kind eof t
    then fail t.span unclosed_delimiter q
    else bind (item q) λ _ r. items_until fuel close item r
