-- ===== src/Gqlmin/Parse/Reads.antt =====
-- Types, values, arguments and directives: enough fuel, and ranges that can be read.
use magna.Base.{
  ℕ, zero, suc, ◌<◌, ◌≡◌, refl, ap, inl, inr, true, false, List, [], Bool, if◌then◌else◌, nat_eq,
  ◌==◌, Option, some, Bytes, bytes, bytes_eq, Bool-cases, arith,
}
use magna.Gqlmin.Token.{
  is_eof, Span, Token, TokenKind, dollar, colon, l_bracket, r_bracket, l_brace, r_brace, int_value,
  float_value, string_value, block_string_value, bang, expected_type, expected_value,
  expected_colon, unclosed_delimiter,
}
use magna.Gqlmin.Ast.{
  Name, TypeRef, named, list_of, Value, variable, int, float, string, list, object, Node,
  project_value, project_object_field,
}
use magna.Gqlmin.Parse.{
  Parser, M, bind, ◌>>=◌, pure, fail, is_kind, bump_tok, slice_str, slice_token, expect, open_list,
  push, close_list, parse_name, items_until,
}
use magna.Gqlmin.Parse.Values.{
  parse_bang, parse_type, name_value, list_item, object_item, parse_value,
}
use magna.Gqlmin.Parse.Arena.{Projects, FitsValue, Fits}
use magna.Gqlmin.Parse.Moves.{
  pending, IsValid, Moves, Moves-trans, rejected, Ensures-bind, Yields, Any, Yields-pure,
  Yields-weaken, Yields-bind, Yields-if,
}
use magna.Gqlmin.Parse.Basics.{
  is_kind-eof, Item, push-Item, peek-Yields, expect-Yields, parse_name-Yields,
}
use magna.Gqlmin.Parse.Lists.{bump_then, list_then}

parse_bang-Yields : (inner : TypeRef) (p : Parser) → IsValid p → Yields 0 Any p (parse_bang inner p)
unfolding parse_bang is_eof
parse_bang-Yields inner p v = peek-Yields Any 0 p _ v λ t q m e.
    Yields-if Any 0 q (is_kind bang t) _ _
      (λ same. Yields-weaken Any 1 0 q _ (omega arith) (
        bump_then Any 0 q t _ m.valid e (is_kind-eof bang t refl same)
          (λ _ r n. Yields-pure Any r _ n.valid tt)))
      (λ _. Yields-pure Any q _ m.valid tt)

pub parse_type-Yields :
    (fuel : ℕ) (p : Parser) → IsValid p → pending p < fuel → Yields 1 Any p (parse_type fuel p)
unfolding parse_type is_eof
parse_type-Yields zero p v h = absurd (omega (arith, h))
parse_type-Yields (suc fuel) p v h =
    peek-Yields Any 1 p _ v
      λ t q m e. by_kind q t m e (λ r w k. parse_type-Yields fuel r w k) t.kind refl
  where
    by_kind :
        (q : Parser) (t : Token)
        → Moves 0 p [] q
        → q.peeked ≡ some t
        → ((r : Parser) → IsValid r → pending r < fuel → Yields 1 Any r (parse_type fuel r))
        → (k : TokenKind) → t.kind ≡ k
        → Yields {A = TypeRef} 1 Any q (elim k [
          | TokenKind.name ↦ bind (parse_name q) λ n. parse_bang (named (record { name = n }))
          | l_bracket ↦ bind (bump_tok q) λ _ r.
              bind
                (parse_type fuel r)
                λ elem. expect r_bracket unclosed_delimiter >>= λ _. parse_bang (list_of elem)
          | _ ↦ fail t.span expected_type q
        ])
    by_kind q t m e recur TokenKind.name k =
        Yields-bind Any Any 1 0 q (parse_name q) _ (parse_name-Yields q m.valid)
          (λ n r s _. parse_bang-Yields _ r s.valid)
    by_kind q t m e recur l_bracket k = Yields-weaken Any 3 1 q _ (omega arith) (
        bump_then Any 2 q t _ m.valid e (ap is_eof k) λ _ r s.
          Yields-bind Any Any 1 1 r (parse_type fuel r) _
            (recur r s.valid (omega (arith, h, m.ahead, s.ahead)))
            λ elem z w _.
              Yields-bind Any Any 1 0 z (expect r_bracket unclosed_delimiter z) _
                (expect-Yields r_bracket unclosed_delimiter z w.valid refl)
                (λ _ y x _. parse_bang-Yields _ y x.valid))
    by_kind q t m e recur _ k = rejected

name_value-Fits :
    (nodes : List Node) (lex : Bytes) (span : Span) → FitsValue nodes (name_value lex span)
unfolding name_value
name_value-Fits nodes lex span = elim (Bool-cases (lex == bytes "true")) [
  | inl e ↦ rw e tt
  | inr e ↦ elim (Bool-cases (lex == bytes "false")) [
    | inl f ↦ rw (e, f) tt
    | inr f ↦ elim (Bool-cases (lex == bytes "null")) [
      | inl g ↦ rw (e, f, g) tt
      | inr g ↦ rw (e, f, g) tt
    ]
  ]
]

-- What is asked of the parser of a value in a list or an object.
abbrev pub Values : ℕ → M Value → Type 0
Values fuel parse = (q : Parser) → IsValid q → pending q < fuel → Yields 1 FitsValue q (parse q)

list_item-Item :
    (fuel : ℕ) (parse : M Value)
    → Values fuel parse
    → (p : Parser) → IsValid p
    → pending p < fuel
    → Item project_value p (list_item parse p)
unfolding project_value
list_item-Item fuel parse good p v h =
    Ensures-bind (λ a q. Moves 1 p [] q × FitsValue q.nodes a) _ (parse p) _ (good p v h)
      (λ a q m. push-Item project_value 1 p q (Node.value a) v (omega arith) m.0 m.1 (a, refl))

-- A name, a colon and a value, which makes a node.
pub field-Item :
    {T : Type 0} (project : Node → Option T) (make : Name → Value → Node) (fuel : ℕ)
    (parse : M Value)
    → ((n : Name) (a : Value) → Projects project (make n a))
    → ((nodes : List Node) (n : Name) (a : Value) → FitsValue nodes a → Fits nodes (make n a))
    → Values fuel parse
    → (p : Parser) → IsValid p
    → pending p < fuel
    → Item project p (
        (parse_name >>= λ n. expect colon expected_colon >>= λ _. parse >>= λ a. push (make n a)) p)
unfolding is_eof
field-Item project make fuel parse kind fit good p v h =
    Ensures-bind (λ a q. Moves 1 p [] q × Any q.nodes a) _ (parse_name p) _ (parse_name-Yields p v)
      λ n q m.
        Ensures-bind (λ a r. Moves 1 q [] r × Any r.nodes a) _ (expect colon expected_colon q) _
          (expect-Yields colon expected_colon q m.0.valid refl)
          λ _ r s.
            Ensures-bind (λ a z. Moves 1 r [] z × FitsValue z.nodes a) _ (parse r) _
              (good r s.0.valid (omega (arith, h, m.0.ahead, s.0.ahead)))
              λ a z w.
                push-Item project 3 p z (make n a) v (omega arith)
                  (Moves-trans 2 1 p r z [] [] (Moves-trans 1 1 p q r [] [] m.0 s.0) w.0)
                  (fit z.nodes n a w.1) (kind n a)

object_item-Item :
    (fuel : ℕ) (parse : M Value)
    → Values fuel parse
    → (p : Parser) → IsValid p
    → pending p < fuel
    → Item project_object_field p (object_item parse p)
unfolding object_item project_object_field
object_item-Item fuel parse good =
    field-Item project_object_field (λ n a. Node.object_field (record { name = n; value = a })) fuel
      parse (λ n a. (_, refl)) (λ nodes n a f. f) good

pub parse_value-Yields :
    (fuel : ℕ) (is_const : Bool) (p : Parser)
    → IsValid p
    → pending p < fuel
    → Yields 1 FitsValue p (parse_value fuel is_const p)
unfolding parse_value is_eof
parse_value-Yields zero is_const p v h = absurd (omega (arith, h))
parse_value-Yields (suc fuel) is_const p v h =
    peek-Yields FitsValue 1 p _ v
      λ t q m e. by_kind q t m e (λ r w k. parse_value-Yields fuel is_const r w k) t.kind refl
  where
    -- One token, and a value without a range.
    lexeme :
        (q : Parser) (t : Token) (make : Bytes → Value)
        → Moves 0 p [] q
        → q.peeked ≡ some t
        → is_eof t.kind ≡ false
        → ((nodes : List Node) (s : Bytes) → FitsValue nodes (make s))
        → Yields 1 FitsValue q ((bump_tok >>= λ _. slice_token t >>= λ s. pure (make s)) q)
    lexeme q t make m e more fit =
        bump_then FitsValue 0 q t _ m.valid e more (λ _ r n.
          Yields-pure FitsValue r _ n.valid (fit r.nodes (slice_str r.lexer.source t.span)))

    by_kind :
        (q : Parser) (t : Token)
        → Moves 0 p [] q
        → q.peeked ≡ some t
        → Values fuel (parse_value fuel is_const)
        → (k : TokenKind) → t.kind ≡ k
        → Yields {A = Value} 1 FitsValue q (
            (elim k as (λ _. M Value) [
              | dollar ↦
                  if is_const
                  then fail t.span expected_value
                  else (bump_tok >>= λ _. parse_name >>= λ n. pure (variable n))
              | int_value ↦ bump_tok >>= λ _. slice_token t >>= λ s. pure (int s)
              | float_value ↦ bump_tok >>= λ _. slice_token t >>= λ s. pure (float s)
              | string_value ↦ bump_tok >>= λ _. slice_token t >>= λ s.
                  pure (string (record { raw = s; block = false; span = t.span }))
              | block_string_value ↦ bump_tok >>= λ _. slice_token t >>= λ s.
                  pure (string (record { raw = s; block = true; span = t.span }))
              | TokenKind.name ↦
                  slice_token t >>= λ lex. bump_tok >>= λ _. pure (name_value lex t.span)
              | l_bracket ↦ bump_tok >>= λ _. open_list >>= λ start.
                  items_until fuel r_bracket (list_item (parse_value fuel is_const)) >>= λ _.
                  close_list start >>= λ r. pure (list r)
              | l_brace ↦ bump_tok >>= λ _. open_list >>= λ start.
                  items_until fuel r_brace (object_item (parse_value fuel is_const)) >>= λ _.
                  close_list start >>= λ r. pure (object r)
              | _ ↦ fail t.span expected_value
            ])
              q)
    by_kind q t m e recur dollar k =
        Yields-if FitsValue 1 q is_const _ _ (λ _. rejected)
          λ _. Yields-weaken FitsValue 2 1 q _ (omega arith) (
            bump_then FitsValue 1 q t _ m.valid e (ap is_eof k) λ _ r s.
              Yields-bind Any FitsValue 1 0 r (parse_name r) _ (parse_name-Yields r s.valid)
                (λ n z w _. Yields-pure FitsValue z _ w.valid tt))
    by_kind q t m e recur int_value k = lexeme q t int m e (ap is_eof k) (λ _ _. tt)
    by_kind q t m e recur float_value k = lexeme q t float m e (ap is_eof k) (λ _ _. tt)
    by_kind q t m e recur string_value k =
        lexeme q t (λ s. string (record { raw = s; block = false; span = t.span })) m e
          (ap is_eof k) (λ _ _. tt)
    by_kind q t m e recur block_string_value k =
        lexeme q t (λ s. string (record { raw = s; block = true; span = t.span })) m e (ap is_eof k)
          (λ _ _. tt)
    by_kind q t m e recur TokenKind.name k =
        bump_then FitsValue 0 q t _ m.valid e (ap is_eof k) (λ _ r n.
          Yields-pure FitsValue r _ n.valid
            (name_value-Fits r.nodes (slice_str q.lexer.source t.span) t.span))
    by_kind q t m e recur l_bracket k = Yields-weaken FitsValue 2 1 q _ (omega arith) (
        bump_then FitsValue 1 q t _ m.valid e (ap is_eof k) λ _ r s.
          list_then project_value FitsValue 0 fuel r_bracket (list_item (parse_value fuel is_const))
            r _ refl (list_item-Item fuel (parse_value fuel is_const) recur) s.valid
            (omega (arith, h, m.ahead, s.ahead))
            (λ range z w fit. Yields-pure FitsValue z (list range) w.valid fit))
    by_kind q t m e recur l_brace k = Yields-weaken FitsValue 2 1 q _ (omega arith) (
        bump_then FitsValue 1 q t _ m.valid e (ap is_eof k) λ _ r s.
          list_then project_object_field FitsValue 0 fuel r_brace
            (object_item (parse_value fuel is_const)) r _ refl
            (object_item-Item fuel (parse_value fuel is_const) recur) s.valid
            (omega (arith, h, m.ahead, s.ahead))
            (λ range z w fit. Yields-pure FitsValue z (object range) w.valid fit))
    by_kind q t m e recur _ k = rejected
