-- ===== src/Gqlmin/Parse/Lists.antt =====
-- A delimited list as a whole: its range can be read.
use magna.Base.{ℕ, ◌+◌, ◌<◌, ◌≡◌, false, List, [], Option, some, length}
use magna.Gqlmin.Token.{is_eof, Token, TokenKind}
use magna.Gqlmin.Ast.{NodeRange, Node}
use magna.Gqlmin.Parse.{Parser, Outcome, M, bind, bump_tok, close_list, items_until}
use magna.Gqlmin.Parse.Arena.{InRange}
use magna.Gqlmin.Parse.Moves.{
  pending, IsValid, Moves, Moves-trans, Ensures-mono, Ensures-bind, Yields, Any, Yields-bind,
}
use magna.Gqlmin.Parse.Basics.{Listed, Item, close_list-Yields, items_until-Listed, bump_tok-Yields}

-- A token that was peeked at is read, and the rest goes on behind it.
pub bump_then :
    {B : Type 0} (W : List Node → B → Type 0) (e : ℕ) (q : Parser) (t : Token)
    (f : Token → Parser → Outcome B)
    → IsValid q
    → q.peeked ≡ some t
    → is_eof t.kind ≡ false
    → ((a : Token) (r : Parser) → Moves 1 q [] r → Yields e W r (f a r))
    → Yields (1 + e) W q (bind (bump_tok q) f)
bump_then W e q t f v at more k =
    Yields-bind Any W 1 e q (bump_tok q) f (bump_tok-Yields q t v at more) (λ a r m _. k a r m)

module _ {T : Type 0} (project : Node → Option T) where
  pub list-Yields :
      (fuel : ℕ) (close : TokenKind) (item : M (Unit {0})) (p : Parser)
      → is_eof close ≡ false
      → ((q : Parser) → IsValid q → pending q < fuel → Item project q (item q))
      → IsValid p
      → pending p < fuel
      → Yields 1
          (InRange project)
          p
          (bind (items_until fuel close item p) (λ _ q. close_list (length p.scratch) q))
  list-Yields fuel close item p more good v h =
      Ensures-bind (λ _ q. (items : List Node) × Listed project 1 p items q) _
        (items_until fuel close item p) _
        (items_until-Listed project fuel close item more good fuel p v h h)
        (λ _ q (items, l). close_list-Yields project 1 p q items v l)

  -- The same, where the production goes on behind the list.
  pub list_then :
      {B : Type 0} (W : List Node → B → Type 0) (e fuel : ℕ) (close : TokenKind)
      (item : M (Unit {0})) (p : Parser) (k : NodeRange → Parser → Outcome B)
      → is_eof close ≡ false
      → ((q : Parser) → IsValid q → pending q < fuel → Item project q (item q))
      → IsValid p
      → pending p < fuel
      → ((r : NodeRange) (q : Parser)
          → Moves 1 p [] q
          → InRange project q.nodes r
          → Yields e W q (k r q))
      → Yields
          (1 + e)
          W
          p
          (bind (items_until fuel close item p) (λ _ q. bind (close_list (length p.scratch) q) k))
  list_then W e fuel close item p k more good v h next =
      Ensures-bind (λ _ q. (items : List Node) × Listed project 1 p items q) _
        (items_until fuel close item p) _
        (items_until-Listed project fuel close item more good fuel p v h h)
        (λ _ q (items, l).
          Ensures-bind (λ r z. Moves 1 p [] z × InRange project z.nodes r) _
            (close_list (length p.scratch) q) k (close_list-Yields project 1 p q items v l)
            (λ r z m.
              Ensures-mono (λ b w. Moves e z [] w × W w.nodes b) _ (k r z)
                (λ b w n. (Moves-trans 1 e p z w [] [] m.0 n.0, n.1)) (next r z m.0 m.1)))
