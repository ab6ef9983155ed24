-- ===== src/Gqlmin/Token.antt =====
-- crates/magna-gqlmin/src/lex.rs and error.rs: spans, tokens and errors.
use magna.Base.{ℕ, ◌%◌, ◌-◌, Bool, true, false, ◌==◌, nat_eq}

-- `n as u32`
abbrev pub as_u32 : ℕ → ℕ
as_u32 n = n % 4294967296

pub record Span : Type 0 where
  pub start : ℕ
  pub end : ℕ

unfoldable pub new_span : ℕ → ℕ → Span
new_span start end = record { start = start; end = end }

unfoldable pub empty_span : ℕ → Span
empty_span at = record { start = at; end = at }

-- `saturating_sub`
unfoldable pub span_len : Span → ℕ
span_len span = span.end - span.start

unfoldable pub is_empty_span : Span → Bool
is_empty_span span = span.start == span.end

pub data TokenKind : Type 0 where
  bang dollar amp l_paren r_paren spread colon equals at_sign l_bracket r_bracket l_brace pipe
        r_brace :
      TokenKind
  name int_value float_value string_value block_string_value eof : TokenKind

-- `kind == TokenKind::Eof`
unfoldable pub is_eof : TokenKind → Bool
is_eof kind = elim kind [ eof ↦ true | _ ↦ false ]

pub record Token : Type 0 where
  pub kind : TokenKind
  pub span : Span

pub data ParseErrorKind : Type 0 where
  unexpected_char invalid_string invalid_block_string invalid_number invalid_escape : ParseErrorKind
  unexpected_eof unexpected_token empty_selection_set expected_operation_kind expected_name :
      ParseErrorKind
  expected_colon expected_type expected_value expected_dollar expected_on_keyword : ParseErrorKind
  unclosed_delimiter unknown_definition : ParseErrorKind

pub record ParseError : Type 0 where
  pub span : Span
  pub kind : ParseErrorKind
