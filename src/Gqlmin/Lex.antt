-- ===== src/Gqlmin/Lex.antt =====
-- crates/magna-gqlmin/src/lex.rs: the lexer, a cursor over the bytes of a source.
pub mod Bounds
pub mod Strings
pub mod Steps
pub mod Runs
use magna.Base.{
  ℕ, zero, suc, ◌+◌, Bool, true, false, ◌&&◌, if◌then◌else◌, nat_eq, ◌==◌, leb, List, [], ◌∷◌,
  Option, none, some, length, Bytes,
}
use magna.Gqlmin.Token.{
  as_u32, Span, new_span, TokenKind, bang, dollar, amp, l_paren, r_paren, colon, equals, at_sign,
  l_bracket, r_bracket, l_brace, pipe, r_brace, eof, is_eof, Token, ParseErrorKind, unexpected_char,
  ParseError,
}
use magna.Gqlmin.Scan.{
  Scan, token, error, used, drop, has_at, between, insignificant, is_name_start, is_digit,
  lex_spread, lex_name, lex_number, lex_string,
}

pub record Lexer : Type 0 where
  pub source : Bytes
  pub pos : ℕ
  pub started : Bool

unfoldable pub new_lexer : Bytes → Lexer
new_lexer source = record { source = source; pos = 0; started = false }

-- The kind of a punctuator of one byte.
unfoldable pub single_kind : ℕ → Option TokenKind
single_kind b =
    if b == 33
    then some bang
    else if b == 36
    then some dollar
    else if b == 38
    then some amp
    else if b == 40
    then some l_paren
    else if b == 41
    then some r_paren
    else if b == 58
    then some colon
    else if b == 61
    then some equals
    else if b == 64
    then some at_sign
    else if b == 91
    then some l_bracket
    else if b == 93
    then some r_bracket
    else if b == 123
    then some l_brace
    else if b == 124
    then some pipe
    else if b == 125
    then some r_brace
    else none

-- The token that begins with `b`.
unfoldable pub scan_token : ℕ → Bytes → Scan
unfolding lex_spread lex_name lex_number lex_string is_name_start is_digit
scan_token b rest = elim (single_kind b) [
  | some kind ↦ token kind 1
  | none ↦
      if b == 46
      then lex_spread (b ∷ rest)
      else if is_name_start b
      then lex_name (b ∷ rest)
      else if b == 45
      then lex_number (b ∷ rest)
      else if is_digit b
      then lex_number (b ∷ rest)
      else if b == 34
      then lex_string (b ∷ rest)
      else error unexpected_char 1 0
]

-- A result of `next_token`, and the lexer after it.
pub data Step : Type 0 where
  lexed : Token → Lexer → Step
  failed : ParseError → Lexer → Step

-- The first call strips a byte order mark.
unfoldable pub start_pos : Lexer → ℕ
start_pos lexer =
    if lexer.started
    then lexer.pos
    else if has_at lexer.source 0 (λ b. b == 239)
        && has_at lexer.source 1 (λ b. b == 187)
        && has_at lexer.source 2 (λ b. b == 191)
    then lexer.pos + 3
    else lexer.pos

-- The token of a scan that began at `start`.
unfoldable pub step_of : Bytes → ℕ → Scan → Step
step_of source start (token kind n) =
    lexed (record { kind = kind; span = record { start = as_u32 start; end = as_u32 (start + n) } })
      (record { source = source; pos = start + n; started = true })
step_of source start (error kind end n) =
    failed
      (record { span = record { start = as_u32 start; end = as_u32 (start + end) }; kind = kind })
      (record { source = source; pos = start + n; started = true })

-- From the first significant byte on; behind the last byte stands `eof`.
unfoldable pub step_at : Bytes → ℕ → Bytes → Step
step_at source start [] = step_of source start (token eof 0)
step_at source start (b ∷ rest) = step_of source start (scan_token b rest)

unfoldable pub next_token : Lexer → Step
next_token lexer =
    let at = start_pos lexer in
    let start = at + insignificant false (drop at lexer.source) in
    step_at lexer.source start (drop start lexer.source)

-- All tokens up to `eof`, or the first error; `none` when the fuel is out.
pub data Lexed : Type 0 where
  tokens : List Token → Lexed
  lex_error : ParseError → Lexed

unfoldable pub lex_all : ℕ → Lexer → Option Lexed
lex_all zero lexer = none
lex_all (suc fuel) lexer = elim (next_token lexer) [
  | failed e after ↦ some (lex_error e)
  | lexed t after ↦
      let rest = lex_all fuel after in
      if is_eof t.kind then some (tokens (t ∷ [])) else elim rest [
        | none ↦ none
        | some (lex_error e) ↦ some (lex_error e)
        | some (tokens ts) ↦ some (tokens (t ∷ ts))
      ]
]
