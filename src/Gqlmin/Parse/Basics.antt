-- ===== src/Gqlmin/Parse/Basics.antt =====
-- The lookahead, the tokens that are read, and the lists: what each keeps of the parser.
use magna.Base.{
  ℕ, zero, suc, ◌+◌, ◌-◌, ◌*◌, ◌≤◌, ◌<◌, ◌≡◌, refl, sym, ap, ◌∙◌, inl, inr, true, false, List, [],
  ◌∷◌, ◌++◌, nat_eq, ◌==◌, Option, none, some, length, length-append, All, All-append, All-left,
  All-right, append_assoc, append-nil, subst, arith,
}
use magna.Gqlmin.Token.{is_eof, Token, TokenKind, bang, eof, ParseErrorKind}
use magna.Gqlmin.Scan.{drop}
use magna.Gqlmin.Lex.{Lexer, Step, lexed, failed, next_token}
use magna.Gqlmin.Lex.Steps.{IsInside, Advances, next_token-Advances}
use magna.Gqlmin.Ast.{take, Node}
use magna.Gqlmin.Parse.{
  Parser, Outcome, ok, err, M, bind, fail, kind_code, is_kind, peek, bump_tok, expect, push,
  close_list, parse_name, items_until,
}
use magna.Gqlmin.Parse.Arena.{
  Projects, InRange, Fits, All-Fits-grows, IsOrdered-append, Grows-refl, Grows-trans,
}
use magna.Gqlmin.Parse.Moves.{
  peeked_weight, pending, IsValid, Moves, Moves-refl, Moves-trans, Moves-weaken, Ensures, holds,
  rejected, Ensures-if, Ensures-mono, Ensures-bind, Yields, Any, Yields-pure, Yields-bind,
  Yields-if,
}

is_eof-code : (kind : TokenKind) → is_eof kind ≡ (kind_code kind == 19)
unfolding is_eof kind_code
is_eof-code bang = refl
is_eof-code _ = refl

pub is_kind-eof :
    (kind : TokenKind) (t : Token)
    → is_eof kind ≡ false
    → is_kind kind t ≡ true
    → is_eof t.kind ≡ false
unfolding is_kind
is_kind-eof kind t h k = ground (arith, is_eof-code kind, is_eof-code t.kind, h, k)

pub not_eof : (t : Token) → is_kind eof t ≡ false → is_eof t.kind ≡ false
unfolding is_kind kind_code
not_eof t h = ground (arith, is_eof-code t.kind, h)

-- Only the lexer and the lookahead change.
Moves-lexer :
    (d : ℕ) (p : Parser) (after : Lexer) (peeked : Option Token)
    → IsValid p
    → after.source ≡ p.lexer.source
    → IsInside after
    → 2 * (length after.source - after.pos) + peeked_weight peeked + d ≤ pending p
    → Moves d p [] (record p { lexer = after; peeked = peeked })
Moves-lexer d p after peeked v e inside ahead = record {
  valid = record {
    inside = inside;
    small = omega (arith, v.small, ap length e);
    room = omega (arith, v.room, ahead, ap length e);
    ordered = v.ordered;
    fits = v.fits;
  };
  source = e;
  ahead = ahead;
  balance = omega (arith, ahead);
  grows = Grows-refl p.nodes;
  scratch = sym (append-nil p.scratch);
}

-- The token that is peeked at stays for the next call.
abbrev pub Peeked : Parser → Token → Parser → Type 0
Peeked p t q = Moves 0 p [] q × (q.peeked ≡ some t)

pub peek-Ensures : (p : Parser) → IsValid p → Ensures (Peeked p) (peek p)
unfolding peek
peek-Ensures p v = by_peeked p.peeked refl
  where
    by_step :
        p.peeked ≡ none
        → (s : Step) → Advances p.lexer s
        → Ensures (Peeked p) (elim s [
          | lexed t after ↦ ok t (record p { lexer = after; peeked = some t })
          | failed e after ↦ err e
        ])
    by_step e (failed bad after) h = rejected
    by_step e (lexed t after) h = holds (
      Moves-lexer 0 p after (some t) v h.0.0 (omega (arith, h.0.3, ap length h.0.0), inl h.0.1)
          (elim h.1 [
            | inl last ↦ rw (last.0, e) (omega (arith, ap length h.0.0, h.0.2))
            | inr next ↦
                rw (next.0, e) (omega (arith, ap length h.0.0, h.0.3, next.1, next.2, next.3))
          ]),
      refl,
    )

    by_peeked :
        (o : Option Token)
        → p.peeked ≡ o
        → Ensures (Peeked p) (elim o [
          | some t ↦ ok t p
          | none ↦ elim (next_token p.lexer) [
            | lexed t after ↦ ok t (record p { lexer = after; peeked = some t })
            | failed e after ↦ err e
          ]
        ])
    by_peeked (some t) e = holds (Moves-refl p v, e)
    by_peeked none e =
        by_step e (next_token p.lexer)
          (next_token-Advances p.lexer v.inside (omega (arith, v.small)))

pub peek-Yields :
    {B : Type 0} (W : List Node → B → Type 0) (d : ℕ) (p : Parser) (f : Token → Parser → Outcome B)
    → IsValid p
    → ((t : Token) (q : Parser) → Moves 0 p [] q → q.peeked ≡ some t → Yields d W q (f t q))
    → Yields d W p (bind (peek p) f)
peek-Yields W d p f v k =
    Ensures-bind (Peeked p) (λ b r. Moves d p [] r × W r.nodes b) (peek p) f (peek-Ensures p v)
      λ t q h.
        Ensures-mono (λ b r. Moves d q [] r × W r.nodes b) (λ b r. Moves d p [] r × W r.nodes b)
          (f t q)
          (λ b r n. (
            Moves-weaken (0 + d) d p r [] (omega arith) (Moves-trans 0 d p q r [] [] h.0 n.0),
            n.1,
          ))
          (k t q h.0 h.1)

pub bump_tok-Yields :
    (p : Parser) (t : Token)
    → IsValid p
    → p.peeked ≡ some t
    → is_eof t.kind ≡ false
    → Yields 1 Any p (bump_tok p)
unfolding bump_tok
bump_tok-Yields p t v e more = by_peeked p.peeked refl
  where
    by_peeked :
        (o : Option Token)
        → p.peeked ≡ o
        → Yields 1 Any p (elim o [
          | some t ↦ ok t (record p { peeked = none })
          | none ↦ elim (next_token p.lexer) [
            | lexed t after ↦ ok t (record p { lexer = after })
            | failed e after ↦ err e
          ]
        ])
    by_peeked none k = cc (k, e)
    by_peeked (some u) k =
        holds (Moves-lexer 1 p p.lexer none v refl v.inside (rw (e, more) (omega arith)), tt)

pub expect-Yields :
    (kind : TokenKind) (error : ParseErrorKind) (p : Parser)
    → IsValid p
    → is_eof kind ≡ false
    → Yields 1 Any p (expect kind error p)
unfolding expect
expect-Yields kind error p v more = peek-Yields Any 1 p _ v λ t q m e.
    Yields-if Any 1 q (is_kind kind t) bump_tok (fail t.span error)
      (λ same. bump_tok-Yields q t m.valid e (is_kind-eof kind t more same)) (λ _. rejected)

pub parse_name-Yields : (p : Parser) → IsValid p → Yields 1 Any p (parse_name p)
unfolding parse_name is_eof
parse_name-Yields p v = peek-Yields Any 1 p _ v λ t q m e.
    Yields-if Any 1 q (is_kind TokenKind.name t) _ _
      (λ same.
        Yields-bind Any Any 1 0 q (bump_tok q) _
          (bump_tok-Yields q t m.valid e (is_kind-eof TokenKind.name t refl same))
          (λ a r n _. Yields-pure Any r _ n.valid tt))
      (λ _. rejected)

-- A node that fits goes onto the scratch stack, and a token that was read pays for it.
pub push-Moves :
    (d : ℕ) (p q : Parser) (n : Node)
    → IsValid p
    → 1 ≤ d
    → Moves d p [] q
    → Fits q.nodes n
    → Moves d p (n ∷ []) (record q { scratch = q.scratch ++ n ∷ [] })
push-Moves d p q n v paid m fits = record {
  valid = record {
    inside = m.valid.inside;
    small = m.valid.small;
    room = omega (arith, m.balance, v.room, ap length m.source, length-append q.scratch (n ∷ []));
    ordered = m.valid.ordered;
    fits = All-append (Fits q.nodes) q.scratch (n ∷ []) m.valid.fits (fits, tt);
  };
  source = m.source;
  ahead = m.ahead;
  balance = omega (arith, m.balance, length-append q.scratch (n ∷ []));
  grows = m.grows;
  scratch = ap (λ t. t ++ n ∷ []) m.scratch ∙ append_assoc p.scratch [] (n ∷ []);
}

drop-append : (xs ys : List Node) → drop (length xs) (xs ++ ys) ≡ ys
unfolding drop
drop-append [] ys = refl
drop-append (x ∷ xs) ys = drop-append xs ys

take-append : (xs ys : List Node) → take (length xs) (xs ++ ys) ≡ xs
unfolding take
take-append [] ys = refl
take-append (x ∷ xs) ys = ap (λ t. x ∷ t) (take-append xs ys)

pub listed :
    (d : ℕ) (p q r z : Parser) (n : Node) (ns : List Node)
    → Moves 0 p [] q
    → Moves 1 q (n ∷ []) r
    → Moves (d + length ns) r ns z
    → Moves (d + length (n ∷ ns)) p (n ∷ ns) z
listed d p q r z n ns m s w =
    Moves-weaken (0 + 1 + (d + length ns)) (d + length (n ∷ ns)) p z (n ∷ ns) (omega arith) (
      Moves-trans (0 + 1) (d + length ns) p r z (n ∷ []) ns (Moves-trans 0 1 p q r [] (n ∷ []) m s)
        w)

module _ {T : Type 0} (project : Node → Option T) where
  abbrev pub Listed : ℕ → Parser → List Node → Parser → Type 0
  Listed d p items q = Moves (d + length items) p items q × All (Projects project) items

  -- An item of a list: one node of the kind, for at least one token.
  abbrev pub Item : Parser → Outcome (Unit {0}) → Type 0
  Item p = Ensures (λ _ q. (n : Node) × Moves 1 p (n ∷ []) q × Projects project n)

  pub push-Item :
      (d : ℕ) (p q : Parser) (n : Node)
      → IsValid p
      → 1 ≤ d
      → Moves d p [] q
      → Fits q.nodes n
      → Projects project n
      → Item p (push n q)
  push-Item d p q n v paid m fits k =
      holds (n, Moves-weaken d 1 p _ (n ∷ []) paid (push-Moves d p q n v paid m fits), k)

  -- The list that was opened at `p` becomes a range of the nodes.
  pub close_list-Yields :
      (d : ℕ) (p q : Parser) (items : List Node)
      → IsValid p
      → Listed d p items q
      → Ensures
          (λ r after. Moves d p [] after × InRange project after.nodes r)
          (close_list (length p.scratch) q)
  unfolding close_list
  close_list-Yields d p q items v (m, kinds) =
      let cut : drop (length p.scratch) q.scratch ≡ items =
        rw m.scratch (drop-append p.scratch items) in
      let rest : take (length p.scratch) q.scratch ≡ p.scratch =
        rw m.scratch (take-append p.scratch items) in
      let count = ap length m.scratch ∙ length-append p.scratch items in
      let fits = subst (All (Fits q.nodes)) m.scratch m.valid.fits in
      let old = All-left (Fits q.nodes) p.scratch items fits in
      let new = All-right (Fits q.nodes) p.scratch items fits in
      rw (cut, rest)
        (holds (
          record {
            valid = record {
              inside = m.valid.inside;
              small = m.valid.small;
              room = omega (
                arith,
                m.balance,
                v.room,
                count,
                ap length m.source,
                length-append q.nodes items,
              );
              ordered = IsOrdered-append [] q.nodes items m.valid.ordered new;
              fits = All-Fits-grows q.nodes (q.nodes ++ items) (items, refl) p.scratch old;
            };
            source = m.source;
            ahead = omega (arith, m.ahead);
            balance = omega (arith, m.balance, count, length-append q.nodes items);
            grows = Grows-trans p.nodes q.nodes (q.nodes ++ items) m.grows (items, refl);
            scratch = sym (append-nil p.scratch);
          },
          record {
            before = q.nodes;
            items = items;
            after = [];
            split = ap (λ t. q.nodes ++ t) (sym (append-nil items));
            starts = omega (arith, m.valid.room, m.valid.small);
            spans = omega (arith, m.valid.room, m.valid.small, count);
            kinds = kinds;
          },
        ))

  -- The loop of a delimited list: as many rounds as tokens are pending are enough.
  pub items_until-Listed :
      (limit : ℕ) (close : TokenKind) (item : M (Unit {0}))
      → is_eof close ≡ false
      → ((q : Parser) → IsValid q → pending q < limit → Item q (item q))
      → (rounds : ℕ) (p : Parser) → IsValid p
      → pending p < rounds
      → pending p < limit
      → Ensures (λ _ q. (items : List Node) × Listed 1 p items q) (items_until rounds close item p)
  unfolding items_until
  items_until-Listed limit close item more good zero p v h k = absurd (omega (arith, h))
  items_until-Listed limit close item more good (suc rounds) p v h k =
      Ensures-bind (Peeked p) (λ _ q. (items : List Node) × Listed 1 p items q) (peek p) _
        (peek-Ensures p v)
        λ t q m.
          Ensures-if (λ _ r. (items : List Node) × Listed 1 p items r) (is_kind close t) _ _
            (λ same.
              Ensures-mono (λ a r. Moves 1 q [] r × Any r.nodes a) _ _
                (λ a r n. ([], (Moves-trans 0 1 p q r [] [] m.0 n.0, tt)))
                (bump_tok-Yields q t m.0.valid m.1 (is_kind-eof close t more same)))
            (λ _.
              Ensures-if (λ _ r. (items : List Node) × Listed 1 p items r) (is_kind eof t) _ _
                (λ _. rejected)
                (λ _.
                  Ensures-bind (λ _ r. (n : Node) × Moves 1 q (n ∷ []) r × Projects project n)
                    (λ _ r. (items : List Node) × Listed 1 p items r) (item q) _
                    (good q m.0.valid (omega (arith, m.0.ahead, k)))
                    λ _ r (n, s, kind).
                      Ensures-mono (λ _ z. (items : List Node) × Listed 1 r items z)
                        (λ _ z. (items : List Node) × Listed 1 p items z) _
                        (λ _ z (ns, (w, kinds)).
                          (n ∷ ns, (listed 1 p q r z n ns m.0 s w, (kind, kinds))))
                        (items_until-Listed limit close item more good rounds r s.valid
                          (omega (arith, h, m.0.ahead, s.ahead))
                          (omega (arith, k, m.0.ahead, s.ahead)))))
