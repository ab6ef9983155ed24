-- ===== src/Gqlmin/Parse/Total.antt =====
-- Operations, fragments and the document: enough fuel, and ranges that can be read.
use magna.Base.{
  ℕ, zero, suc, ◌<◌, ◌≡◌, refl, true, false, List, [], ◌∷◌, ◌++◌, Bool, ◌&&◌, if◌then◌else◌, nat_eq,
  ◌==◌, Option, none, some, bytes, bytes_eq, arith,
}
use magna.Gqlmin.Token.{
  is_eof, Span, Token, TokenKind, l_paren, l_brace, eof, expected_operation_kind,
  unknown_definition,
}
use magna.Gqlmin.Ast.{
  empty_range, Name, OperationKind, OperationDefinition, FragmentDefinition, operation, fragment,
  Node, project_definition, project_variable_definition, project_directive,
}
use magna.Gqlmin.Parse.{Parser, M, ◌>>=◌, pure, fail, is_kind, peek, slice_str, parse_name}
use magna.Gqlmin.Parse.Values.{parse_directives}
use magna.Gqlmin.Parse.Definitions.{
  parse_selection_set, parse_shorthand_query, operation_kind, optional_name, optional_variables,
  parse_operation, parse_operation_definition, parse_fragment, parse_fragment_definition,
  parse_definition, definition_items,
}
use magna.Gqlmin.Parse.Arena.{InRange, InRange-empty, InRange-grows, FitsSet, FitsDefinition}
use magna.Gqlmin.Parse.Moves.{
  pending, IsValid, Moves, Moves-trans, Ensures, holds, rejected, Ensures-if, Ensures-mono,
  Ensures-bind, Yields, Any, Yields-pure, Yields-weaken, Yields-bind, Yields-if,
}
use magna.Gqlmin.Parse.Basics.{
  is_kind-eof, Peeked, Listed, push-Moves, peek-Ensures, peek-Yields, parse_name-Yields, listed,
}
use magna.Gqlmin.Parse.Lists.{bump_then}
use magna.Gqlmin.Parse.Directives.{parse_directives-Yields}
use magna.Gqlmin.Parse.Sets.{parse_variable_definitions-Yields, parse_selection_set-Yields}

and_left : (a b : Bool) → a && b ≡ true → a ≡ true
and_left true b h = refl
and_left false b h = h

abbrev FitsOperation : List Node → OperationDefinition → Type 0
FitsOperation nodes o = FitsDefinition nodes (operation o)

abbrev FitsFragment : List Node → FragmentDefinition → Type 0
FitsFragment nodes f = FitsDefinition nodes (fragment f)

parse_shorthand_query-Yields :
    (fuel : ℕ) (p : Parser)
    → IsValid p
    → pending p < fuel
    → Yields 1 FitsOperation p (parse_shorthand_query fuel p)
unfolding parse_shorthand_query
parse_shorthand_query-Yields fuel p v h = peek-Yields FitsOperation 1 p _ v λ t q m e.
    Yields-bind FitsSet FitsOperation 1 0 q (parse_selection_set fuel q) _
      (parse_selection_set-Yields fuel q m.valid (omega (arith, h, m.ahead)))
      λ s r n fit. Yields-pure FitsOperation r _ n.valid (
        InRange-empty project_variable_definition r.nodes,
        InRange-empty project_directive r.nodes,
        fit,
      )

optional_name-Yields : (p : Parser) → IsValid p → Yields 0 Any p (optional_name p)
unfolding optional_name
optional_name-Yields p v = peek-Yields Any 0 p _ v λ t q m e.
    Yields-if Any 0 q (is_kind TokenKind.name t) _ _
      (λ _. Yields-weaken Any 1 0 q _ (omega arith) (
        Yields-bind Any Any 1 0 q (parse_name q) _ (parse_name-Yields q m.valid)
          (λ n r s _. Yields-pure Any r (some n) s.valid tt)))
      (λ _. Yields-pure Any q none m.valid tt)

optional_variables-Yields :
    (fuel : ℕ) (p : Parser)
    → IsValid p
    → pending p < fuel
    → Yields 0 (InRange project_variable_definition) p (optional_variables fuel p)
unfolding optional_variables
optional_variables-Yields fuel p v h =
    peek-Yields (InRange project_variable_definition) 0 p _ v λ t q m e.
      Yields-if (InRange project_variable_definition) 0 q (is_kind l_paren t) _ _
        (λ _.
          Yields-weaken (InRange project_variable_definition) 1 0 q _ (omega arith)
            (parse_variable_definitions-Yields fuel q m.valid (omega (arith, h, m.ahead))))
        (λ _.
          Yields-pure (InRange project_variable_definition) q empty_range m.valid
            (InRange-empty project_variable_definition q.nodes))

parse_operation-Yields :
    (fuel : ℕ) (kw : Span) (kind : OperationKind) (p : Parser)
    → IsValid p
    → pending p < fuel
    → Yields 1 FitsOperation p (parse_operation fuel kw kind p)
unfolding parse_operation
parse_operation-Yields fuel kw kind p v h =
    Yields-bind Any FitsOperation 0 1 p (optional_name p) _ (optional_name-Yields p v) λ n q m₁ _.
      Yields-bind (InRange project_variable_definition) FitsOperation 0 1 q
        (optional_variables fuel q) _
        (optional_variables-Yields fuel q m₁.valid (omega (arith, h, m₁.ahead)))
        λ a r m₂ fits_a.
          Yields-bind (InRange project_directive) FitsOperation 0 1 r (parse_directives fuel r) _
            (parse_directives-Yields fuel r m₂.valid (omega (arith, h, m₁.ahead, m₂.ahead)))
            λ d s m₃ fits_d.
              Yields-bind FitsSet FitsOperation 1 0 s (parse_selection_set fuel s) _
                (parse_selection_set-Yields fuel s m₃.valid
                  (omega (arith, h, m₁.ahead, m₂.ahead, m₃.ahead)))
                λ set t m₄ fits_s. Yields-pure FitsOperation t _ m₄.valid (
                  InRange-grows r.nodes t.nodes (Moves-trans 0 1 r s t [] [] m₃ m₄).grows
                      project_variable_definition a fits_a,
                  InRange-grows s.nodes t.nodes m₄.grows project_directive d fits_d,
                  fits_s,
                )

parse_operation_definition-Yields :
    (fuel : ℕ) (p : Parser) (t : Token)
    → IsValid p
    → p.peeked ≡ some t
    → is_eof t.kind ≡ false
    → pending p < fuel
    → Yields 1 FitsOperation p (parse_operation_definition fuel p)
unfolding parse_operation_definition
parse_operation_definition-Yields fuel p t v e more h =
    Yields-weaken FitsOperation 2 1 p _ (omega arith) (
      bump_then FitsOperation 1 p t _ v e more
        λ kw q m. by_kind kw q m (operation_kind (slice_str q.lexer.source kw.span)))
  where
    by_kind :
        (kw : Token) (q : Parser)
        → Moves 1 p [] q
        → (o : Option OperationKind)
        → Yields {A = OperationDefinition} 1 FitsOperation q (
            (elim o as (λ _. M OperationDefinition) [
              | none ↦ fail kw.span expected_operation_kind
              | some kind ↦ parse_operation fuel kw.span kind
            ])
              q)
    by_kind kw q m none = rejected
    by_kind kw q m (some kind) =
        parse_operation-Yields fuel kw.span kind q m.valid (omega (arith, h, m.ahead))

parse_fragment-Yields :
    (fuel : ℕ) (kw : Span) (n : Name) (p : Parser) (t : Token)
    → IsValid p
    → p.peeked ≡ some t
    → is_eof t.kind ≡ false
    → pending p < fuel
    → Yields 1 FitsFragment p (parse_fragment fuel kw n p)
unfolding parse_fragment
parse_fragment-Yields fuel kw n p t v e more h = Yields-weaken FitsFragment 3 1 p _ (omega arith) (
    bump_then FitsFragment 2 p t _ v e more λ _ q m₁.
      Yields-bind Any FitsFragment 1 1 q (parse_name q) _ (parse_name-Yields q m₁.valid)
        λ type r m₂ _.
          Yields-bind (InRange project_directive) FitsFragment 0 1 r (parse_directives fuel r) _
            (parse_directives-Yields fuel r m₂.valid (omega (arith, h, m₁.ahead, m₂.ahead)))
            λ d s m₃ fits_d.
              Yields-bind FitsSet FitsFragment 1 0 s (parse_selection_set fuel s) _
                (parse_selection_set-Yields fuel s m₃.valid
                  (omega (arith, h, m₁.ahead, m₂.ahead, m₃.ahead)))
                λ set z m₄ fits_s.
                  Yields-pure FitsFragment z _ m₄.valid
                    (InRange-grows s.nodes z.nodes m₄.grows project_directive d fits_d, fits_s))

parse_fragment_definition-Yields :
    (fuel : ℕ) (p : Parser) (t : Token)
    → IsValid p
    → p.peeked ≡ some t
    → is_eof t.kind ≡ false
    → pending p < fuel
    → Yields 1 FitsFragment p (parse_fragment_definition fuel p)
unfolding parse_fragment_definition is_eof
parse_fragment_definition-Yields fuel p t v e more h =
    Yields-weaken FitsFragment 3 1 p _ (omega arith) (
      bump_then FitsFragment 2 p t _ v e more λ kw q m₁.
        Yields-bind Any FitsFragment 1 1 q (parse_name q) _ (parse_name-Yields q m₁.valid)
          λ n r m₂ _. peek-Yields FitsFragment 1 r _ m₂.valid λ on s m₃ at.
            Yields-if FitsFragment 1 s
              (is_kind TokenKind.name on && slice_str s.lexer.source on.span == bytes "on") _ _
              (λ both.
                parse_fragment-Yields fuel kw.span n s on m₃.valid at
                  (is_kind-eof TokenKind.name on refl (and_left (is_kind TokenKind.name on) _ both))
                  (omega (arith, h, m₁.ahead, m₂.ahead, m₃.ahead)))
              (λ _. rejected))

parse_definition-Yields :
    (fuel : ℕ) (p : Parser)
    → IsValid p
    → pending p < fuel
    → Yields 1 FitsDefinition p (parse_definition fuel p)
unfolding parse_definition is_eof
parse_definition-Yields fuel p v h = peek-Yields FitsDefinition 1 p _ v λ t q m e.
    let left : pending q < fuel = omega (arith, h, m.ahead) in
    Yields-if FitsDefinition 1 q (is_kind l_brace t) _ _
      (λ _.
        Yields-bind FitsOperation FitsDefinition 1 0 q (parse_shorthand_query fuel q) _
          (parse_shorthand_query-Yields fuel q m.valid left)
          (λ o r n fit. Yields-pure FitsDefinition r (operation o) n.valid fit))
      (λ _.
        Yields-if FitsDefinition 1 q (is_kind TokenKind.name t) _ _
          (λ same.
            let more = is_kind-eof TokenKind.name t refl same in keyword q t m.valid e more left)
          (λ _. rejected))
  where
    op :
        (q : Parser) (t : Token)
        → IsValid q
        → q.peeked ≡ some t
        → is_eof t.kind ≡ false
        → pending q < fuel
        → Yields 1 FitsDefinition q
            ((parse_operation_definition fuel >>= λ o. pure (operation o)) q)
    op q t w e more left =
        Yields-bind FitsOperation FitsDefinition 1 0 q (parse_operation_definition fuel q)
          (λ o. pure (operation o)) (parse_operation_definition-Yields fuel q t w e more left)
          (λ o r n fit. Yields-pure FitsDefinition r (operation o) n.valid fit)

    keyword :
        (q : Parser) (t : Token)
        → IsValid q
        → q.peeked ≡ some t
        → is_eof t.kind ≡ false
        → pending q < fuel
        → Yields 1 FitsDefinition q (
            (if slice_str q.lexer.source t.span == bytes "query"
                then (parse_operation_definition fuel >>= λ o. pure (operation o))
                else if slice_str q.lexer.source t.span == bytes "mutation"
                then (parse_operation_definition fuel >>= λ o. pure (operation o))
                else if slice_str q.lexer.source t.span == bytes "subscription"
                then (parse_operation_definition fuel >>= λ o. pure (operation o))
                else if slice_str q.lexer.source t.span == bytes "fragment"
                then (parse_fragment_definition fuel >>= λ f. pure (fragment f))
                else fail t.span unknown_definition)
              q)
    keyword q t w e more left =
        let kw = slice_str q.lexer.source t.span in
        Yields-if FitsDefinition 1 q (kw == bytes "query") _ _ (λ _. op q t w e more left)
          (λ _.
            Yields-if FitsDefinition 1 q (kw == bytes "mutation") _ _ (λ _. op q t w e more left)
              (λ _.
                Yields-if FitsDefinition 1 q (kw == bytes "subscription") _ _
                  (λ _. op q t w e more left)
                  (λ _.
                    Yields-if FitsDefinition 1 q (kw == bytes "fragment") _ _
                      (λ _.
                        Yields-bind FitsFragment FitsDefinition 1 0 q
                          (parse_fragment_definition fuel q) (λ f. pure (fragment f))
                          (parse_fragment_definition-Yields fuel q t w e more left)
                          (λ f r n fit. Yields-pure FitsDefinition r (fragment f) n.valid fit))
                      (λ _. rejected))))

pub definition_items-Listed :
    (rounds fuel : ℕ) (p : Parser)
    → IsValid p
    → pending p < rounds
    → pending p < fuel
    → Ensures
        (λ _ q. (items : List Node) × Listed project_definition 0 p items q)
        (definition_items rounds fuel p)
unfolding definition_items project_definition
definition_items-Listed zero fuel p v h k = absurd (omega (arith, h))
definition_items-Listed (suc rounds) fuel p v h k =
    Ensures-bind (Peeked p) (λ _ q. (items : List Node) × Listed project_definition 0 p items q)
      (peek p) _ (peek-Ensures p v)
      λ t q m.
        Ensures-if (λ _ r. (items : List Node) × Listed project_definition 0 p items r)
          (is_kind eof t) _ _ (λ _. holds ([], (m.0, tt)))
          (λ _.
            Ensures-bind (λ d r. Moves 1 q [] r × FitsDefinition r.nodes d)
              (λ _ r. (items : List Node) × Listed project_definition 0 p items r)
              (parse_definition fuel q) _
              (parse_definition-Yields fuel q m.0.valid (omega (arith, m.0.ahead, k)))
              λ d r s.
                let pushed = push-Moves 1 q r (Node.definition d) m.0.valid (omega arith) s.0 s.1 in
                Ensures-mono
                  (λ _ z.
                    (items : List Node) × Listed project_definition 0
                      (record r { scratch = r.scratch ++ Node.definition d ∷ [] }) items z)
                  (λ _ z. (items : List Node) × Listed project_definition 0 p items z) _
                  (λ _ z (ns, (w, kinds)). (
                    Node.definition d ∷ ns,
                    (listed 0 p q _ z (Node.definition d) ns m.0 pushed w, ((d, refl), kinds)),
                  ))
                  (definition_items-Listed rounds fuel
                    (record r { scratch = r.scratch ++ Node.definition d ∷ [] }) pushed.valid
                    (omega (arith, h, m.0.ahead, pushed.ahead))
                    (omega (arith, k, m.0.ahead, pushed.ahead))))
