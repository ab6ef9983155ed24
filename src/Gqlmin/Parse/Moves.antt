-- ===== src/Gqlmin/Parse/Moves.antt =====
-- What a production keeps: the parser's invariant, and how far it gets.
use magna.Base.{
  ℕ, ◌+◌, ◌-◌, ◌*◌, ◌≤◌, ◌<◌, ◌≡◌, refl, sym, ap, ◌∙◌, true, false, List, [], ◌++◌, Bool,
  if◌then◌else◌, Option, none, some, length, length-append, All, append_assoc, append-nil, arith,
}
use magna.Gqlmin.Token.{is_eof, Token, ParseError}
use magna.Gqlmin.Lex.Steps.{IsInside}
use magna.Gqlmin.Ast.{Node}
use magna.Gqlmin.Parse.{Parser, Outcome, ok, err, out_of_fuel, M, bind}
use magna.Gqlmin.Parse.Arena.{Fits, IsOrdered, Grows, Grows-refl, Grows-trans}

abbrev pub peeked_weight : Option Token → ℕ
peeked_weight none = 0
peeked_weight (some t) = if is_eof t.kind then 0 else 1

-- A bound on the tokens that are left before `eof`: two for each byte, one for a peeked token.
abbrev pub pending : Parser → ℕ
pending p = 2 * (length p.lexer.source - p.lexer.pos) + peeked_weight p.peeked

-- The nodes that the parser holds, and those that the tokens left may add.
abbrev pub held : Parser → ℕ
held p = length p.nodes + length p.scratch + pending p

pub record IsValid (p : Parser) : Type 0 where
  pub inside : IsInside p.lexer
  pub small : 2 * length p.lexer.source < 4294967296
  pub room : held p ≤ 2 * length p.lexer.source
  pub ordered : IsOrdered [] p.nodes
  pub fits : All (Fits p.nodes) p.scratch

-- From `p` to `q` at least `d` tokens were read, and `items` were pushed.
pub record Moves (d : ℕ) (p : Parser) (items : List Node) (q : Parser) : Type 0 where
  pub valid : IsValid q
  pub source : q.lexer.source ≡ p.lexer.source
  pub ahead : pending q + d ≤ pending p
  pub balance : held q + d ≤ held p + length items
  pub grows : Grows p.nodes q.nodes
  pub scratch : q.scratch ≡ p.scratch ++ items

pub Moves-refl : (p : Parser) → IsValid p → Moves 0 p [] p
Moves-refl p v = record {
  valid = v;
  source = refl;
  ahead = omega arith;
  balance = omega arith;
  grows = Grows-refl p.nodes;
  scratch = sym (append-nil p.scratch);
}

pub Moves-trans :
    (d e : ℕ) (p q r : Parser) (xs ys : List Node)
    → Moves d p xs q
    → Moves e q ys r
    → Moves (d + e) p (xs ++ ys) r
Moves-trans d e p q r xs ys h k = record {
  valid = k.valid;
  source = k.source ∙ h.source;
  ahead = omega (arith, h.ahead, k.ahead);
  balance = omega (arith, h.balance, k.balance, length-append xs ys);
  grows = Grows-trans p.nodes q.nodes r.nodes h.grows k.grows;
  scratch = k.scratch ∙ ap (λ t. t ++ ys) h.scratch ∙ append_assoc p.scratch xs ys;
}

pub Moves-weaken :
    (d e : ℕ) (p q : Parser) (xs : List Node) → e ≤ d → Moves d p xs q → Moves e p xs q
Moves-weaken d e p q xs le h = record {
  valid = h.valid;
  source = h.source;
  ahead = omega (arith, h.ahead);
  balance = omega (arith, h.balance);
  grows = h.grows;
  scratch = h.scratch;
}

-- The production had enough fuel, and its result satisfies `P` if it made one.
pub data Ensures {A : Type 0} (P : A → Parser → Type 0) : Outcome A → Type 0 where
  holds : {a : A} {q : Parser} → P a q → Ensures P (ok a q)
  rejected : {e : ParseError} → Ensures P (err e)

module _ {A : Type 0} (P : A → Parser → Type 0) where
  pub Ensures-if :
      (b : Bool) (x y : Outcome A)
      → (b ≡ true → Ensures P x)
      → (b ≡ false → Ensures P y)
      → Ensures P (if b then x else y)
  Ensures-if true x y h k = h refl
  Ensures-if false x y h k = k refl

  pub Ensures-mono :
      (Q : A → Parser → Type 0) (o : Outcome A)
      → ((a : A) (q : Parser) → P a q → Q a q)
      → Ensures P o
      → Ensures Q o
  Ensures-mono Q _ f (holds {a} {q} h) = holds (f a q h)
  Ensures-mono Q _ f rejected = rejected

  pub Ensures-both :
      (Q : A → Parser → Type 0) (o : Outcome A)
      → Ensures P o
      → Ensures Q o
      → Ensures (λ a q. P a q × Q a q) o
  Ensures-both Q (ok a q) (holds h) (holds k) = holds (h, k)
  Ensures-both Q (err e) rejected k = rejected
  Ensures-both Q out_of_fuel h k = elim h [ ]

  pub Ensures-bind :
      {B : Type 0} (Q : B → Parser → Type 0) (o : Outcome A) (f : A → Parser → Outcome B)
      → Ensures P o
      → ((a : A) (q : Parser) → P a q → Ensures Q (f a q))
      → Ensures Q (bind o f)
  Ensures-bind Q _ f (holds {a} {q} h) k = k a q h
  Ensures-bind Q _ f rejected k = rejected

-- The production reads at least `d` tokens, leaves the scratch stack as it was, and its value
-- stands in the relation `V` to the nodes.
abbrev pub Yields : {A : Type 0} → ℕ → (List Node → A → Type 0) → Parser → Outcome A → Type 0
Yields d V p = Ensures (λ a q. Moves d p [] q × V q.nodes a)

-- No more is said of the value.
abbrev pub Any : {A : Type 0} → List Node → A → Type 0
Any nodes a = Unit {0}

module _ {A : Type 0} (V : List Node → A → Type 0) where
  pub Yields-pure : (p : Parser) (a : A) → IsValid p → V p.nodes a → Yields 0 V p (ok a p)
  Yields-pure p a v h = holds (Moves-refl p v, h)

  pub Yields-weaken :
      (d e : ℕ) (p : Parser) (o : Outcome A) → e ≤ d → Yields d V p o → Yields e V p o
  Yields-weaken d e p o le =
      Ensures-mono (λ a q. Moves d p [] q × V q.nodes a) (λ a q. Moves e p [] q × V q.nodes a) o
        (λ a q h. (Moves-weaken d e p q [] le h.0, h.1))

  pub Yields-if :
      (d : ℕ) (p : Parser) (b : Bool) (m n : M A)
      → (b ≡ true → Yields d V p (m p))
      → (b ≡ false → Yields d V p (n p))
      → Yields d V p ((if b then m else n) p)
  Yields-if d p true m n h k = h refl
  Yields-if d p false m n h k = k refl

  -- One production after another.
  pub Yields-bind :
      {B : Type 0} (W : List Node → B → Type 0) (d e : ℕ) (p : Parser) (o : Outcome A)
      (f : A → Parser → Outcome B)
      → Yields d V p o
      → ((a : A) (q : Parser) → Moves d p [] q → V q.nodes a → Yields e W q (f a q))
      → Yields (d + e) W p (bind o f)
  Yields-bind W d e p o f h k =
      Ensures-bind (λ a q. Moves d p [] q × V q.nodes a) (λ b r. Moves (d + e) p [] r × W r.nodes b)
        o f h
        λ a q m.
          Ensures-mono (λ b r. Moves e q [] r × W r.nodes b)
            (λ b r. Moves (d + e) p [] r × W r.nodes b) (f a q)
            (λ b r n. (Moves-trans d e p q r [] [] m.0 n.0, n.1)) (k a q m.0 m.1)
