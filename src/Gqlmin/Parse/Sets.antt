-- ===== src/Gqlmin/Parse/Sets.antt =====
-- Variable definitions and selections: enough fuel, and ranges that can be read.
use magna.Base.{
  ℕ, zero, suc, ◌<◌, refl, true, List, [], nat_eq, ◌==◌, none, some, length, bytes, bytes_eq, arith,
}
use magna.Gqlmin.Token.{
  is_eof, Span, TokenKind, dollar, l_paren, r_paren, spread, colon, equals, l_brace, r_brace,
  unexpected_token, expected_dollar, expected_colon,
}
use magna.Gqlmin.Ast.{
  NodeRange, Name, SelectionSet, Node, project_variable_definition, project_argument,
  project_directive, project_selection,
}
use magna.Gqlmin.Parse.{
  Parser, M, ◌>>=◌, pure, is_kind, slice_str, expect, close_list, parse_name, items_until,
}
use magna.Gqlmin.Parse.Values.{parse_type, parse_value, optional_arguments, parse_directives}
use magna.Gqlmin.Parse.Definitions.{
  optional_default, variable_item, parse_variable_definitions, parse_spread, parse_alias,
  optional_set, parse_field, parse_selection, selection_item, finish_set, parse_selection_set,
}
use magna.Gqlmin.Parse.Arena.{
  InRange, InRange-grows, FitsValue, FitsDefault, FitsDefault-grows, FitsSet, FitsOptionalSet,
  FitsSelection,
}
use magna.Gqlmin.Parse.Moves.{
  pending, IsValid, Moves, Moves-trans, Ensures, holds, rejected, Ensures-if, Ensures-bind, Yields,
  Any, Yields-pure, Yields-weaken, Yields-bind, Yields-if,
}
use magna.Gqlmin.Parse.Basics.{
  is_kind-eof, Listed, Item, push-Item, close_list-Yields, items_until-Listed, peek-Yields,
  expect-Yields, parse_name-Yields,
}
use magna.Gqlmin.Parse.Lists.{bump_then, list-Yields}
use magna.Gqlmin.Parse.Reads.{parse_type-Yields, parse_value-Yields}
use magna.Gqlmin.Parse.Directives.{optional_arguments-Yields, parse_directives-Yields}

optional_default-Yields :
    (fuel : ℕ) (p : Parser)
    → IsValid p
    → pending p < fuel
    → Yields 0 FitsDefault p (optional_default fuel p)
unfolding optional_default is_eof
optional_default-Yields fuel p v h = peek-Yields FitsDefault 0 p _ v λ t q m e.
    Yields-if FitsDefault 0 q (is_kind equals t) _ _
      (λ same. Yields-weaken FitsDefault 2 0 q _ (omega arith) (
        bump_then FitsDefault 1 q t _ m.valid e (is_kind-eof equals t refl same) λ _ r s.
          Yields-bind FitsValue FitsDefault 1 0 r (parse_value fuel true r) _
            (parse_value-Yields fuel true r s.valid (omega (arith, h, m.ahead, s.ahead)))
            (λ a z w fit. Yields-pure FitsDefault z (some a) w.valid fit)))
      (λ _. Yields-pure FitsDefault q none m.valid tt)

variable_item-Item :
    (fuel : ℕ) (p : Parser)
    → IsValid p
    → pending p < fuel
    → Item project_variable_definition p (variable_item fuel p)
unfolding variable_item project_variable_definition is_eof
variable_item-Item fuel p v h =
    Ensures-bind (λ a q. Moves 1 p [] q × Any q.nodes a) _ (expect dollar expected_dollar p) _
      (expect-Yields dollar expected_dollar p v refl)
      λ _ q m₁.
        Ensures-bind (λ a z. Moves 1 q [] z × Any z.nodes a) _ (parse_name q) _
          (parse_name-Yields q m₁.0.valid)
          λ n r m₂.
            Ensures-bind (λ a z. Moves 1 r [] z × Any z.nodes a) _ (expect colon expected_colon r) _
              (expect-Yields colon expected_colon r m₂.0.valid refl)
              λ _ s m₃.
                Ensures-bind (λ a z. Moves 1 s [] z × Any z.nodes a) _ (parse_type fuel s) _
                  (parse_type-Yields fuel s m₃.0.valid
                    (omega (arith, h, m₁.0.ahead, m₂.0.ahead, m₃.0.ahead)))
                  λ type t m₄.
                    let left : pending t < fuel =
                      omega (arith, h, m₁.0.ahead, m₂.0.ahead, m₃.0.ahead, m₄.0.ahead) in
                    Ensures-bind (λ a z. Moves 0 t [] z × FitsDefault z.nodes a) _
                      (optional_default fuel t) _ (optional_default-Yields fuel t m₄.0.valid left)
                      λ default u m₅.
                        Ensures-bind (λ a z. Moves 0 u [] z × InRange project_directive z.nodes a) _
                          (parse_directives fuel u) _
                          (parse_directives-Yields fuel u m₅.0.valid
                            (omega (arith, left, m₅.0.ahead)))
                          λ range w m₆.
                            push-Item project_variable_definition 4 p w
                              (Node.variable_definition (record {
                                name = n;
                                var_type = type;
                                default_value = default;
                                directives = range;
                              }))
                              v (omega arith)
                              (Moves-trans 4 0 p u w [] []
                                (Moves-trans 4 0 p t u [] []
                                  (Moves-trans 3 1 p s t [] []
                                    (Moves-trans 2 1 p r s [] []
                                      (Moves-trans 1 1 p q r [] [] m₁.0 m₂.0) m₃.0)
                                    m₄.0)
                                  m₅.0)
                                m₆.0)
                              (FitsDefault-grows u.nodes w.nodes m₆.0.grows default m₅.1, m₆.1)
                              (_, refl)

pub parse_variable_definitions-Yields :
    (fuel : ℕ) (p : Parser)
    → IsValid p
    → pending p < fuel
    → Yields 1 (InRange project_variable_definition) p (parse_variable_definitions fuel p)
unfolding parse_variable_definitions is_eof
parse_variable_definitions-Yields fuel p v h =
    Yields-weaken (InRange project_variable_definition) 2 1 p _ (omega arith) (
      Yields-bind Any (InRange project_variable_definition) 1 1 p
        (expect l_paren unexpected_token p) _ (expect-Yields l_paren unexpected_token p v refl)
        λ _ q m _.
          list-Yields project_variable_definition fuel r_paren (variable_item fuel) q refl
            (variable_item-Item fuel) m.valid (omega (arith, h, m.ahead)))

-- What is asked of the parser of a nested selection set.
module _ (fuel : ℕ) (set : M SelectionSet)
    (good : (q : Parser) → IsValid q → pending q < fuel → Yields 1 FitsSet q (set q)) where
  -- Directives and a selection set, which make a value.
  directed_set :
      {B : Type 0} (W : List Node → B → Type 0) (make : NodeRange → SelectionSet → B) (p : Parser)
      → ((nodes : List Node) (r : NodeRange) (s : SelectionSet)
          → InRange project_directive nodes r
          → FitsSet nodes s
          → W nodes (make r s))
      → IsValid p
      → pending p < fuel
      → Yields 1 W p ((parse_directives fuel >>= λ r. set >>= λ s. pure (make r s)) p)
  directed_set W make p fit v h =
      Yields-bind (InRange project_directive) W 0 1 p (parse_directives fuel p) _
        (parse_directives-Yields fuel p v h)
        λ r q m in_range.
          Yields-bind FitsSet W 1 0 q (set q) _ (good q m.valid (omega (arith, h, m.ahead)))
            λ s z w fits. Yields-pure W z (make r s) w.valid (
              fit z.nodes r s (InRange-grows q.nodes z.nodes w.grows project_directive r in_range)
                fits)

  parse_spread-Yields :
      (p : Parser)
      → IsValid p
      → pending p < fuel
      → Yields 0 FitsSelection p (parse_spread fuel set p)
  unfolding parse_spread is_eof
  parse_spread-Yields p v h = peek-Yields FitsSelection 0 p _ v λ t q m e.
      Yields-if FitsSelection 0 q (is_kind TokenKind.name t) _ _
        (λ same.
          Yields-if FitsSelection 0 q (slice_str q.lexer.source t.span == bytes "on") _ _
            (λ _. Yields-weaken FitsSelection 3 0 q _ (omega arith) (
              bump_then FitsSelection 2 q t _ m.valid e (is_kind-eof TokenKind.name t refl same)
                λ _ r s.
                  Yields-bind Any FitsSelection 1 1 r (parse_name r) _ (parse_name-Yields r s.valid)
                    λ n z w _.
                      directed_set FitsSelection _ z (λ _ _ _ a b. (a, b)) w.valid
                        (omega (arith, h, m.ahead, s.ahead, w.ahead))))
            (λ _. Yields-weaken FitsSelection 1 0 q _ (omega arith) (
              Yields-bind Any FitsSelection 1 0 q (parse_name q) _ (parse_name-Yields q m.valid)
                λ n r s _.
                  Yields-bind (InRange project_directive) FitsSelection 0 0 r
                    (parse_directives fuel r) _
                    (parse_directives-Yields fuel r s.valid (omega (arith, h, m.ahead, s.ahead)))
                    (λ range z w fit. Yields-pure FitsSelection z _ w.valid fit))))
        (λ _. Yields-weaken FitsSelection 1 0 q _ (omega arith) (
          directed_set FitsSelection _ q (λ _ _ _ a b. (a, b)) m.valid (omega (arith, h, m.ahead))))

  parse_alias-Yields :
      (first : Name) (p : Parser) → IsValid p → Yields 0 Any p (parse_alias first p)
  unfolding parse_alias is_eof
  parse_alias-Yields first p v = peek-Yields Any 0 p _ v λ t q m e.
      Yields-if Any 0 q (is_kind colon t) _ _
        (λ same. Yields-weaken Any 2 0 q _ (omega arith) (
          bump_then Any 1 q t _ m.valid e (is_kind-eof colon t refl same) λ _ r s.
            Yields-bind Any Any 1 0 r (parse_name r) _ (parse_name-Yields r s.valid)
              (λ n z w _. Yields-pure Any z _ w.valid tt)))
        (λ _. Yields-pure Any q _ m.valid tt)

  optional_set-Yields :
      (p : Parser) → IsValid p → pending p < fuel → Yields 0 FitsOptionalSet p (optional_set set p)
  unfolding optional_set
  optional_set-Yields p v h = peek-Yields FitsOptionalSet 0 p _ v λ t q m e.
      Yields-if FitsOptionalSet 0 q (is_kind l_brace t) _ _
        (λ _. Yields-weaken FitsOptionalSet 1 0 q _ (omega arith) (
          Yields-bind FitsSet FitsOptionalSet 1 0 q (set q) _
            (good q m.valid (omega (arith, h, m.ahead)))
            (λ s z w fit. Yields-pure FitsOptionalSet z (some s) w.valid fit)))
        (λ _. Yields-pure FitsOptionalSet q none m.valid tt)

  parse_field-Yields :
      (p : Parser)
      → IsValid p
      → pending p < fuel
      → Yields 1 FitsSelection p (parse_field fuel set p)
  unfolding parse_field
  parse_field-Yields p v h =
      Yields-bind Any FitsSelection 1 0 p (parse_name p) _ (parse_name-Yields p v) λ first q m₁ _.
        Yields-bind Any FitsSelection 0 0 q (parse_alias first q) _
          (parse_alias-Yields first q m₁.valid)
          λ names r m₂ _.
            Yields-bind (InRange project_argument) FitsSelection 0 0 r (optional_arguments fuel r) _
              (optional_arguments-Yields fuel r m₂.valid (omega (arith, h, m₁.ahead, m₂.ahead)))
              λ a s m₃ fits_a.
                Yields-bind (InRange project_directive) FitsSelection 0 0 s
                  (parse_directives fuel s) _
                  (parse_directives-Yields fuel s m₃.valid
                    (omega (arith, h, m₁.ahead, m₂.ahead, m₃.ahead)))
                  λ d t m₄ fits_d.
                    Yields-bind FitsOptionalSet FitsSelection 0 0 t (optional_set set t) _
                      (optional_set-Yields t m₄.valid
                        (omega (arith, h, m₁.ahead, m₂.ahead, m₃.ahead, m₄.ahead)))
                      λ inner u m₅ fits_s. Yields-pure FitsSelection u _ m₅.valid (
                        InRange-grows s.nodes u.nodes (Moves-trans 0 0 s t u [] [] m₄ m₅).grows
                            project_argument a fits_a,
                        InRange-grows t.nodes u.nodes m₅.grows project_directive d fits_d,
                        fits_s,
                      )

  parse_selection-Yields :
      (p : Parser)
      → IsValid p
      → pending p < fuel
      → Yields 1 FitsSelection p (parse_selection fuel set p)
  unfolding parse_selection is_eof
  parse_selection-Yields p v h = peek-Yields FitsSelection 1 p _ v λ t q m e.
      Yields-if FitsSelection 1 q (is_kind spread t) _ _
        (λ same.
          bump_then FitsSelection 0 q t _ m.valid e (is_kind-eof spread t refl same)
            (λ _ r s. parse_spread-Yields r s.valid (omega (arith, h, m.ahead, s.ahead))))
        (λ _.
          Yields-if FitsSelection 1 q (is_kind TokenKind.name t) _ _
            (λ _. parse_field-Yields q m.valid (omega (arith, h, m.ahead))) (λ _. rejected))

  selection_item-Item :
      (p : Parser)
      → IsValid p
      → pending p < fuel
      → Item project_selection p (selection_item fuel set p)
  unfolding project_selection
  selection_item-Item p v h =
      Ensures-bind (λ a q. Moves 1 p [] q × FitsSelection q.nodes a) _ (parse_selection fuel set p)
        _ (parse_selection-Yields p v h)
        (λ a q m.
          push-Item project_selection 1 p q (Node.selection a) v (omega arith) m.0 m.1 (a, refl))

finish_set-Yields :
    (opening close : Span) (p q : Parser) (items : List Node)
    → IsValid p
    → Listed project_selection 1 p items q
    → Ensures
        (λ s z. Moves 1 p [] z × FitsSet z.nodes s)
        (finish_set opening (length p.scratch) close q)
unfolding finish_set
finish_set-Yields opening close p q items v l =
    Ensures-if (λ s z. Moves 1 p [] z × FitsSet z.nodes s) (length q.scratch == length p.scratch) _
      _ (λ _. rejected)
      (λ _.
        Ensures-bind (λ r z. Moves 1 p [] z × InRange project_selection z.nodes r) _
          (close_list (length p.scratch) q)
          (λ r.
            pure
              (record { selections = r; span = record { start = opening.start; end = close.end } }))
          (close_list-Yields project_selection 1 p q items v l) (λ r z m. holds (m.0, m.1)))

pub parse_selection_set-Yields :
    (fuel : ℕ) (p : Parser)
    → IsValid p
    → pending p < fuel
    → Yields 1 FitsSet p (parse_selection_set fuel p)
unfolding parse_selection_set is_eof
parse_selection_set-Yields zero p v h = absurd (omega (arith, h))
parse_selection_set-Yields (suc fuel) p v h = Yields-weaken FitsSet 2 1 p _ (omega arith) (
    Yields-bind Any FitsSet 1 1 p (expect l_brace unexpected_token p) _
      (expect-Yields l_brace unexpected_token p v refl)
      λ opening q m _.
        let left : pending q < fuel = omega (arith, h, m.ahead) in
        Ensures-bind (λ _ r. (items : List Node) × Listed project_selection 1 q items r) _
          (items_until fuel r_brace (selection_item fuel (parse_selection_set fuel)) q) _
          (items_until-Listed project_selection fuel r_brace _ refl
            (λ r w k.
              selection_item-Item fuel (parse_selection_set fuel)
                (λ z x y. parse_selection_set-Yields fuel z x y) r w k)
            fuel q m.valid left left)
          (λ close r (items, l). finish_set-Yields opening.span close.span q r items m.valid l))
