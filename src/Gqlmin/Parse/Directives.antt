-- ===== src/Gqlmin/Parse/Directives.antt =====
-- Arguments and directives: enough fuel, and ranges that can be read.
use magna.Base.{ℕ, zero, suc, ◌<◌, ◌≡◌, refl, false, List, [], ◌∷◌, some, arith}
use magna.Gqlmin.Token.{is_eof, Token, l_paren, r_paren, at_sign, unexpected_token}
use magna.Gqlmin.Ast.{empty_range, Node, project_argument, project_directive}
use magna.Gqlmin.Parse.{Parser, is_kind, peek, bump_tok, expect, parse_name}
use magna.Gqlmin.Parse.Values.{
  parse_value, argument_item, parse_arguments, optional_arguments, directive_item, directive_items,
  parse_directives,
}
use magna.Gqlmin.Parse.Arena.{Projects, InRange, InRange-empty}
use magna.Gqlmin.Parse.Moves.{
  pending, IsValid, Moves, Moves-trans, Ensures, holds, Ensures-if, Ensures-mono, Ensures-bind,
  Yields, Any, Yields-pure, Yields-weaken, Yields-bind, Yields-if,
}
use magna.Gqlmin.Parse.Basics.{
  is_kind-eof, Peeked, Listed, Item, push-Item, close_list-Yields, peek-Ensures, peek-Yields,
  bump_tok-Yields, expect-Yields, parse_name-Yields, listed,
}
use magna.Gqlmin.Parse.Lists.{list-Yields}
use magna.Gqlmin.Parse.Reads.{field-Item, parse_value-Yields}

argument_item-Item :
    (fuel : ℕ) (p : Parser)
    → IsValid p
    → pending p < fuel
    → Item project_argument p (argument_item fuel p)
unfolding argument_item project_argument
argument_item-Item fuel =
    field-Item project_argument (λ n a. Node.argument (record { name = n; value = a })) fuel
      (parse_value fuel false) (λ n a. (_, refl)) (λ nodes n a f. f)
      (λ q v h. parse_value-Yields fuel false q v h)

parse_arguments-Yields :
    (fuel : ℕ) (p : Parser)
    → IsValid p
    → pending p < fuel
    → Yields 1 (InRange project_argument) p (parse_arguments fuel p)
unfolding parse_arguments is_eof
parse_arguments-Yields fuel p v h = Yields-weaken (InRange project_argument) 2 1 p _ (omega arith) (
    Yields-bind Any (InRange project_argument) 1 1 p (expect l_paren unexpected_token p) _
      (expect-Yields l_paren unexpected_token p v refl)
      λ _ q m _.
        list-Yields project_argument fuel r_paren (argument_item fuel) q refl
          (argument_item-Item fuel) m.valid (omega (arith, h, m.ahead)))

pub optional_arguments-Yields :
    (fuel : ℕ) (p : Parser)
    → IsValid p
    → pending p < fuel
    → Yields 0 (InRange project_argument) p (optional_arguments fuel p)
unfolding optional_arguments
optional_arguments-Yields fuel p v h = peek-Yields (InRange project_argument) 0 p _ v λ t q m e.
    Yields-if (InRange project_argument) 0 q (is_kind l_paren t) _ _
      (λ _.
        Yields-weaken (InRange project_argument) 1 0 q _ (omega arith)
          (parse_arguments-Yields fuel q m.valid (omega (arith, h, m.ahead))))
      (λ _.
        Yields-pure (InRange project_argument) q empty_range m.valid
          (InRange-empty project_argument q.nodes))

directive_item-Item :
    (fuel : ℕ) (p : Parser) (t : Token)
    → IsValid p
    → p.peeked ≡ some t
    → is_eof t.kind ≡ false
    → pending p < fuel
    → Item project_directive p (directive_item fuel p)
unfolding directive_item project_directive
directive_item-Item fuel p t v at more h =
    Ensures-bind (λ a q. Moves 1 p [] q × Any q.nodes a) _ (bump_tok p) _
      (bump_tok-Yields p t v at more)
      λ _ q m.
        Ensures-bind (λ a r. Moves 1 q [] r × Any r.nodes a) _ (parse_name q) _
          (parse_name-Yields q m.0.valid)
          λ n r s.
            Ensures-bind (λ a z. Moves 0 r [] z × InRange project_argument z.nodes a) _
              (optional_arguments fuel r) _
              (optional_arguments-Yields fuel r s.0.valid (omega (arith, h, m.0.ahead, s.0.ahead)))
              λ a z w.
                push-Item project_directive 2 p z
                  (Node.directive (record { name = n; arguments = a })) v (omega arith)
                  (Moves-trans 2 0 p r z [] [] (Moves-trans 1 1 p q r [] [] m.0 s.0) w.0) w.1
                  (_, refl)

directive_items-Listed :
    (rounds fuel : ℕ) (p : Parser)
    → IsValid p
    → pending p < rounds
    → pending p < fuel
    → Ensures
        (λ _ q. (items : List Node) × Listed project_directive 0 p items q)
        (directive_items rounds fuel p)
unfolding directive_items is_eof
directive_items-Listed zero fuel p v h k = absurd (omega (arith, h))
directive_items-Listed (suc rounds) fuel p v h k =
    Ensures-bind (Peeked p) (λ _ q. (items : List Node) × Listed project_directive 0 p items q)
      (peek p) _ (peek-Ensures p v)
      λ t q m.
        Ensures-if (λ _ r. (items : List Node) × Listed project_directive 0 p items r)
          (is_kind at_sign t) _ _
          (λ same.
            Ensures-bind (λ _ r. (n : Node) × Moves 1 q (n ∷ []) r × Projects project_directive n)
              (λ _ r. (items : List Node) × Listed project_directive 0 p items r)
              (directive_item fuel q) _
              (directive_item-Item fuel q t m.0.valid m.1 (is_kind-eof at_sign t refl same)
                (omega (arith, m.0.ahead, k)))
              λ _ r (n, s, kind).
                Ensures-mono (λ _ z. (items : List Node) × Listed project_directive 0 r items z)
                  (λ _ z. (items : List Node) × Listed project_directive 0 p items z) _
                  (λ _ z (ns, (w, kinds)). (n ∷ ns, (listed 0 p q r z n ns m.0 s w, (kind, kinds))))
                  (directive_items-Listed rounds fuel r s.valid
                    (omega (arith, h, m.0.ahead, s.ahead)) (omega (arith, k, m.0.ahead, s.ahead))))
          (λ _. holds ([], (m.0, tt)))

pub parse_directives-Yields :
    (fuel : ℕ) (p : Parser)
    → IsValid p
    → pending p < fuel
    → Yields 0 (InRange project_directive) p (parse_directives fuel p)
unfolding parse_directives
parse_directives-Yields fuel p v h =
    Ensures-bind (λ _ q. (items : List Node) × Listed project_directive 0 p items q) _
      (directive_items fuel fuel p) _ (directive_items-Listed fuel fuel p v h h)
      (λ _ q (items, l). close_list-Yields project_directive 0 p q items v l)
