-- ===== src/Sql/Pieces.antt =====
-- What a fragment stands for: the texts and the values that it writes, in order. A value becomes
-- the next placeholder.
use magna.Base.{
  ℕ, suc, ◌+◌, ◌≡◌, refl, sym, ap, ◌∙◌, inl, inr, false, nat_eq, ◌==◌, List, [], ◌∷◌, ◌++◌, Option,
  none, some, some_inj, length, get_elem?, get_elem?-append_left, Bytes, arith, Option-cases,
  lt-length_of_get,
}
use magna.Types.{PgValue}
use magna.Sql.Fragment.{
  literal, param, fragment, identifier, SqlParts, no_parts, a_part, SqlFragment, extend, one,
  append, push_raw, shift_each, shift_parts, quote, decimal,
}

pub data Piece : Type 0 where
  says : Bytes → Piece
  holds : PgValue → Piece

abbrev pub values : List Piece → List PgValue
values [] = []
values (says s ∷ ps) = values ps
values (holds v ∷ ps) = v ∷ values ps

-- The text, with the placeholders numbered from `n`.
unfoldable pub print : ℕ → List Piece → Bytes
print n [] = []
print n (says s ∷ ps) = s ++ print n ps
print n (holds v ∷ ps) = (36 ∷ decimal n) ++ print (n + 1) ps

-- The pieces of parts that hold no nested fragment; `none` where an index is out of the store.
unfoldable pub pieces : List PgValue → SqlParts → Option (List Piece)
unfolding quote
pieces store no_parts = some []
pieces store (a_part (literal s) parts) = elim (pieces store parts) [
  | none ↦ none
  | some ps ↦ some (says s ∷ ps)
]
pieces store (a_part (identifier s) parts) = elim (pieces store parts) [
  | none ↦ none
  | some ps ↦ some (says (quote s) ∷ ps)
]
pieces store (a_part (param i) parts) = elim (get_elem? store i) [
  | none ↦ none
  | some v ↦ elim (pieces store parts) [ none ↦ none | some ps ↦ some (holds v ∷ ps) ]
]
pieces store (a_part (fragment nested params) parts) = none

-- The fragment stands for `ps`.
abbrev pub Denotes : SqlFragment → List Piece → Type 0
Denotes f ps = pieces f.params f.parts ≡ some ps

pub some_cons :
    (x : Piece) (o : Option (List Piece)) (ps : List Piece)
    → elim o [ none ↦ none | some qs ↦ some (x ∷ qs) ] ≡ some ps
    → (qs : List Piece) × (o ≡ some qs) × (ps ≡ x ∷ qs)
some_cons x none ps h = cc h
some_cons x (some qs) ps h = (qs, refl, sym (some_inj h))

pub cons_some :
    (x : Piece) {o : Option (List Piece)} {ps : List Piece}
    → o ≡ some ps
    → elim o as (λ _. Option (List Piece)) [ none ↦ none | some qs ↦ some (x ∷ qs) ] ≡ some (x ∷ ps)
cons_some x e =
    ap (λ o. elim o as (λ _. Option (List Piece)) [ none ↦ none | some qs ↦ some (x ∷ qs) ]) e

-- Parts that write their values as they are read from the store: how `pieces` goes on.
pub pieces-param :
    (store : List PgValue) (i : ℕ) (parts : SqlParts) (ps : List Piece)
    → pieces store (a_part (param i) parts) ≡ some ps
    → (v : PgValue) × (qs : List Piece) × (get_elem? store i ≡ some v)
      × (pieces store parts ≡ some qs)
      × (ps ≡ holds v ∷ qs)
unfolding pieces
pieces-param store i parts ps h = elim (Option-cases (get_elem? store i)) [
  | inl e ↦ let clash : none ≡ some ps = rw (e, pieces) at h in cc
  | inr (v, e) ↦
      let (qs, e', p) = some_cons (holds v) (pieces store parts) ps (rw (e, pieces) at h) in
      (v, qs, e, e', p)
]

pieces-param_of :
    (store : List PgValue) (i : ℕ) (parts : SqlParts) (v : PgValue) (qs : List Piece)
    → get_elem? store i ≡ some v
    → pieces store parts ≡ some qs
    → pieces store (a_part (param i) parts) ≡ some (holds v ∷ qs)
unfolding pieces
pieces-param_of store i parts v qs e h = rw (e, pieces) (cons_some (holds v) h)

-- A change of the store that keeps what the parts read keeps what they stand for.
pieces-reread :
    (store store' : List PgValue) (d : ℕ) (parts : SqlParts) (ps : List Piece)
    → ((i : ℕ) (v : PgValue) → get_elem? store i ≡ some v → get_elem? store' (i + d) ≡ some v)
    → pieces store parts ≡ some ps
    → pieces store' (shift_each d parts) ≡ some ps
unfolding pieces shift_each
pieces-reread store store' d no_parts ps same h = h
pieces-reread store store' d (a_part (literal s) parts) ps same h =
    let (qs, e, p) = some_cons (says s) (pieces store parts) ps h in
    cons_some (says s) (pieces-reread store store' d parts qs same e) ∙ ap some (sym p)
pieces-reread store store' d (a_part (identifier s) parts) ps same h =
    let (qs, e, p) = some_cons (says (quote s)) (pieces store parts) ps h in
    cons_some (says (quote s)) (pieces-reread store store' d parts qs same e) ∙ ap some (sym p)
pieces-reread store store' d (a_part (param i) parts) ps same h =
    let (v, qs, at, e, p) = pieces-param store i parts ps h in
    pieces-param_of store' (i + d) (shift_each d parts) v qs (same i v at)
      (pieces-reread store store' d parts qs same e)
    ∙ ap some (sym p)
pieces-reread store store' d (a_part (fragment nested params) parts) ps same h = cc h

get-shifted :
    (xs ys : List PgValue) (i : ℕ) (v : PgValue)
    → get_elem? ys i ≡ some v
    → get_elem? (xs ++ ys) (i + length xs) ≡ some v
get-shifted [] ys i v h = rw (zero_right i) h
  where
    zero_right : (i : ℕ) → i + 0 ≡ i
    zero_right i = omega arith
get-shifted (x ∷ xs) ys i v h = rw (suc_right i (length xs)) (get-shifted xs ys i v h)
  where
    suc_right : (i n : ℕ) → i + suc n ≡ suc (i + n)
    suc_right i n = omega arith

-- A longer store.
pieces-widen :
    (store more : List PgValue) (parts : SqlParts) (ps : List Piece)
    → pieces store parts ≡ some ps
    → pieces (store ++ more) parts ≡ some ps
unfolding pieces
pieces-widen store more no_parts ps h = h
pieces-widen store more (a_part (literal s) parts) ps h =
    let (qs, e, p) = some_cons (says s) (pieces store parts) ps h in
    cons_some (says s) (pieces-widen store more parts qs e) ∙ ap some (sym p)
pieces-widen store more (a_part (identifier s) parts) ps h =
    let (qs, e, p) = some_cons (says (quote s)) (pieces store parts) ps h in
    cons_some (says (quote s)) (pieces-widen store more parts qs e) ∙ ap some (sym p)
pieces-widen store more (a_part (param i) parts) ps h =
    let (v, qs, at, e, p) = pieces-param store i parts ps h in
    pieces-param_of (store ++ more) i parts v qs
      (get_elem?-append_left store more i (lt-length_of_get store i v at) ∙ at)
      (pieces-widen store more parts qs e)
    ∙ ap some (sym p)
pieces-widen store more (a_part (fragment nested params) parts) ps h = cc h

pieces-shift :
    (before store : List PgValue) (parts : SqlParts) (ps : List Piece)
    → pieces store parts ≡ some ps
    → pieces (before ++ store) (shift_parts parts (length before)) ≡ some ps
unfolding shift_parts
pieces-shift [] store parts ps h = h
pieces-shift (x ∷ before) store parts ps h =
    let some_offset : (suc (length before) == 0) ≡ false = ground arith in
    rw some_offset (
      pieces-reread store (x ∷ before ++ store) (suc (length before)) parts ps
        (get-shifted (x ∷ before) store) h)

pieces-extend :
    (store : List PgValue) (parts more : SqlParts) (ps qs : List Piece)
    → pieces store parts ≡ some ps
    → pieces store more ≡ some qs
    → pieces store (extend parts more) ≡ some (ps ++ qs)
unfolding pieces extend
pieces-extend store no_parts more ps qs h k =
    k ∙ ap (λ (xs : List Piece). some (xs ++ qs)) (some_inj h)
pieces-extend store (a_part (literal s) parts) more ps qs h k =
    let (rest, e, p) = some_cons (says s) (pieces store parts) ps h in
    cons_some (says s) (pieces-extend store parts more rest qs e k)
    ∙ ap (λ (xs : List Piece). some (xs ++ qs)) (sym p)
pieces-extend store (a_part (identifier s) parts) more ps qs h k =
    let (rest, e, p) = some_cons (says (quote s)) (pieces store parts) ps h in
    cons_some (says (quote s)) (pieces-extend store parts more rest qs e k)
    ∙ ap (λ (xs : List Piece). some (xs ++ qs)) (sym p)
pieces-extend store (a_part (param i) parts) more ps qs h k =
    let (v, rest, at, e, p) = pieces-param store i parts ps h in
    pieces-param_of store i (extend parts more) v (rest ++ qs) at
      (pieces-extend store parts more rest qs e k)
    ∙ ap (λ (xs : List Piece). some (xs ++ qs)) (sym p)
pieces-extend store (a_part (fragment nested params) parts) more ps qs h k = cc h

-- What is appended is written after what was there, with its own values.
pub append-Denotes :
    (f g : SqlFragment) (ps qs : List Piece)
    → Denotes f ps
    → Denotes g qs
    → Denotes (append f g) (ps ++ qs)
unfolding append
append-Denotes f g ps qs h k =
    pieces-extend (f.params ++ g.params) f.parts (shift_parts g.parts (length f.params)) ps qs
      (pieces-widen f.params g.params f.parts ps h) (pieces-shift f.params g.params g.parts qs k)

pub push_raw-Denotes :
    (s : Bytes) (f : SqlFragment) (ps : List Piece)
    → Denotes f ps
    → Denotes (push_raw s f) (ps ++ says s ∷ [])
unfolding push_raw pieces
push_raw-Denotes s f ps h = pieces-extend f.params f.parts (one (literal s)) ps (says s ∷ []) h refl
