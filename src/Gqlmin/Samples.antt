-- ===== src/Gqlmin/Samples.antt =====
-- Runs of the lexer and the parser of crates/magna-gqlmin on small sources, and the theorems there.
use magna.Base.{ℕ, ◌≡◌, refl, inl, true, [], ◌∷◌, none, some, Bytes, arith}
use magna.Gqlmin.Token.{
  TokenKind, l_brace, name, eof, is_eof, Token, invalid_number, empty_selection_set,
}
use magna.Gqlmin.Scan.{
  drop, count_while, insignificant, lex_name, lex_number, lex_integer, lex_fraction, lex_exponent,
  finish_number, is_name_start, is_name_continue, is_digit,
}
use magna.Gqlmin.Lex.{
  Lexer, new_lexer, single_kind, scan_token, start_pos, step_of, step_at, next_token, Lexed, tokens,
  lex_error, lex_all,
}
use magna.Gqlmin.Lex.Steps.{Advances, next_token-Advances}
use magna.Gqlmin.Lex.Runs.{IsLexed, lex_all-IsLexed}
use magna.Gqlmin.Ast.{empty_range, field, operation, query, Node}
use magna.Gqlmin.Parse.{ok, err}
use magna.Gqlmin.Parse.Definitions.{parse_executable_document}
use magna.Gqlmin.Parse.Moves.{Ensures}
use magna.Gqlmin.Parse.Read.{IsDocument, parse_executable_document-IsDocument}

-- `{ a1#x`
abbrev text : Bytes
text = 123 ∷ 32 ∷ 97 ∷ 49 ∷ 35 ∷ 120 ∷ []

abbrev token_at : TokenKind → ℕ → ℕ → Token
token_at kind start end = record { kind = kind; span = record { start = start; end = end } }

text_tokens :
    lex_all 7 (new_lexer text)
    ≡ some (tokens (token_at l_brace 0 1 ∷ token_at name 2 4 ∷ token_at eof 6 6 ∷ []))
unfolding lex_all new_lexer next_token start_pos step_at step_of scan_token single_kind is_eof
    insignificant lex_name drop count_while is_name_start is_name_continue
text_tokens = refl

-- `-0.` is no number: the fraction has no digit.
number_error :
    lex_all 4 (new_lexer (45 ∷ 48 ∷ 46 ∷ []))
    ≡ some (lex_error (record { span = record { start = 0; end = 3 }; kind = invalid_number }))
unfolding lex_all new_lexer next_token start_pos step_at step_of scan_token single_kind is_eof
    insignificant lex_number lex_integer lex_fraction lex_exponent finish_number drop count_while
    is_name_start is_digit
number_error = refl

abbrev after_brace : Lexer
after_brace = record { source = text; pos = 1; started = true }

next_token-Advances_example : Advances after_brace (next_token after_brace)
next_token-Advances_example = next_token-Advances after_brace (omega arith, inl refl) (omega arith)

lex_all-IsLexed_example : (out : Lexed) × (lex_all 7 (new_lexer text) ≡ some out) × IsLexed 6 0 out
lex_all-IsLexed_example = lex_all-IsLexed text (omega arith)

-- `{a}`
abbrev shorthand_text : Bytes
shorthand_text = 123 ∷ 97 ∷ 125 ∷ []

shorthand_parsed :
    parse_executable_document shorthand_text
    ≡ ok
        (record {
          definitions_range = record { start = 1; len = 1 };
          nodes =
              Node.selection (
                field (record {
                  alias = none;
                  name = record { value = 97 ∷ []; span = record { start = 1; end = 2 } };
                  arguments = empty_range;
                  directives = empty_range;
                  selection_set = none;
                }))
              ∷ Node.definition (
                  operation (record {
                    kind = query;
                    name = none;
                    variable_definitions = empty_range;
                    directives = empty_range;
                    selection_set = record {
                      selections = record { start = 0; len = 1 };
                      span = record { start = 0; end = 3 };
                    };
                    span = record { start = 0; end = 3 };
                    shorthand = true;
                  }))
              ∷ [];
        })
        (record {
          lexer = record { source = shorthand_text; pos = 3; started = true };
          peeked = some (token_at eof 3 3);
          nodes = [];
          scratch = [];
        })
unfolding parse_executable_document step_at start_pos insignificant step_of scan_token single_kind
shorthand_parsed = refl

-- `{a{}}`
empty_set_refused :
    parse_executable_document (123 ∷ 97 ∷ 123 ∷ 125 ∷ 125 ∷ [])
    ≡ err (record { span = record { start = 2; end = 4 }; kind = empty_selection_set })
unfolding parse_executable_document step_at start_pos insignificant step_of scan_token single_kind
empty_set_refused = refl

parse_executable_document-IsDocument_example :
    Ensures (λ doc _. IsDocument doc) (parse_executable_document shorthand_text)
parse_executable_document-IsDocument_example =
    parse_executable_document-IsDocument shorthand_text (omega arith)
