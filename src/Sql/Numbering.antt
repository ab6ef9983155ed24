-- ===== src/Sql/Numbering.antt =====
-- `SqlFragment::build` numbers the parameters in the order in which they are written.
use magna.Base.{
  ℕ, suc, ◌+◌, ◌≡◌, refl, sym, ap, ◌∙◌, inl, inr, true, false, List, [], ◌∷◌, ◌++◌, append_assoc,
  append-nil, Option, none, some, some_inj, length, get_elem?, Bytes, arith, Bool-cases,
}
use magna.Types.{PgValue}
use magna.Sql.Fragment.{
  literal, param, fragment, identifier, SqlParts, no_parts, a_part, SqlFragment, is_empty, push_raw,
  join, quote, decimal, BuildState, build_part, build_inner, build_sql,
}
use magna.Sql.Pieces.{
  Piece, says, holds, values, print, pieces, Denotes, some_cons, pieces-param, append-Denotes,
  push_raw-Denotes,
}

-- The state after the pieces are written.
abbrev wrote : BuildState → List Piece → BuildState
wrote st ps = record {
  sql = st.sql ++ print st.counter ps;
  params = st.params ++ values ps;
  counter = st.counter + length (values ps);
}

add_zero : (n : ℕ) → n + 0 ≡ n
add_zero n = omega arith

add_suc : (n m : ℕ) → n + suc m ≡ n + 1 + m
add_suc n m = omega arith

wrote_nil : (st : BuildState) → st ≡ wrote st []
unfolding print
wrote_nil st = λ i. record {
  sql = sym (append-nil st.sql) i;
  params = sym (append-nil st.params) i;
  counter = sym (add_zero st.counter) i;
}

wrote_says :
    (s : Bytes) (st : BuildState) (ps : List Piece)
    → wrote (record st { sql = st.sql ++ s }) ps ≡ wrote st (says s ∷ ps)
unfolding print
wrote_says s st ps = λ i. record {
  sql = append_assoc st.sql s (print st.counter ps) i;
  params = st.params ++ values ps;
  counter = st.counter + length (values ps);
}

abbrev numbered : PgValue → BuildState → BuildState
numbered v st = record {
  sql = st.sql ++ 36 ∷ decimal st.counter;
  params = st.params ++ v ∷ [];
  counter = st.counter + 1;
}

wrote_holds :
    (v : PgValue) (st : BuildState) (ps : List Piece)
    → wrote (numbered v st) ps ≡ wrote st (holds v ∷ ps)
unfolding print
wrote_holds v st ps = λ i. record {
  sql = append_assoc st.sql (36 ∷ decimal st.counter) (print (st.counter + 1) ps) i;
  params = append_assoc st.params (v ∷ []) (values ps) i;
  counter = sym (add_suc st.counter (length (values ps))) i;
}

build_part-param :
    (store : List PgValue) (i : ℕ) (v : PgValue) (st : BuildState)
    → get_elem? store i ≡ some v
    → build_part (param i) store st ≡ some (numbered v st)
unfolding build_part
build_part-param store i v st at =
    ap (λ o. elim o as (λ _. Option BuildState) [ none ↦ none | some w ↦ some (numbered w st) ]) at

build_inner-eq :
    (store : List PgValue) (parts : SqlParts) (st : BuildState) (ps : List Piece)
    → pieces store parts ≡ some ps
    → build_inner parts store st ≡ some (wrote st ps)
unfolding pieces build_inner
build_inner-eq store no_parts st ps h = ap some (wrote_nil st ∙ ap (wrote st) (some_inj h))
build_inner-eq store (a_part (literal s) parts) st ps h =
    let (qs, e, p) = some_cons (says s) (pieces store parts) ps h in
    build_inner-eq store parts (record st { sql = st.sql ++ s }) qs e
    ∙ ap some (wrote_says s st qs ∙ ap (wrote st) (sym p))
build_inner-eq store (a_part (identifier s) parts) st ps h =
    let (qs, e, p) = some_cons (says (quote s)) (pieces store parts) ps h in
    build_inner-eq store parts (record st { sql = st.sql ++ quote s }) qs e
    ∙ ap some (wrote_says (quote s) st qs ∙ ap (wrote st) (sym p))
build_inner-eq store (a_part (param i) parts) st ps h =
    let (v, qs, at, e, p) = pieces-param store i parts ps h in
    ap
      (λ o. elim o as (λ _. Option BuildState) [
        | none ↦ none
        | some next ↦ build_inner parts store next
      ])
      (build_part-param store i v st at)
    ∙ build_inner-eq store parts (numbered v st) qs e
    ∙ ap some (wrote_holds v st qs ∙ ap (wrote st) (sym p))
build_inner-eq store (a_part (fragment nested params) parts) st ps h = cc h

-- A fragment that stands for some pieces is built without a panic: its text is the texts in order,
-- with `$1`, `$2`, … in the places of the values, and its parameters are the values in the order of
-- their placeholders.
pub build_sql-eq-print :
    (f : SqlFragment) (ps : List Piece) → Denotes f ps → build_sql f ≡ some (print 1 ps, values ps)
unfolding build_sql
build_sql-eq-print f ps h =
    rw
      (
        build_inner-eq f.params f.parts (record { sql = []; params = []; counter = 1 }) ps h,
        build_sql,
      )
      refl

pieces-no_parts :
    (f : SqlFragment) (ps : List Piece) → is_empty f.parts ≡ true → Denotes f ps → ps ≡ []
unfolding pieces
pieces-no_parts f ps e h = go f.parts e h
  where
    go : (parts : SqlParts) → is_empty parts ≡ true → pieces f.params parts ≡ some ps → ps ≡ []
    go no_parts e h = sym (some_inj h)
    go (a_part p parts) e h = cc e

pieces-some_part :
    (f : SqlFragment) (ps : List Piece)
    → is_empty f.parts ≡ false
    → Denotes f ps
    → (x : Piece) × (xs : List Piece) × (ps ≡ x ∷ xs)
unfolding pieces
pieces-some_part f ps e h = go f.parts e h
  where
    go :
        (parts : SqlParts)
        → is_empty parts ≡ false
        → pieces f.params parts ≡ some ps
        → (x : Piece) × (xs : List Piece) × (ps ≡ x ∷ xs)
    go no_parts e h = cc e
    go (a_part (literal s) parts) e h =
        let (qs, _, p) = some_cons (says s) (pieces f.params parts) ps h in (_, qs, p)
    go (a_part (identifier s) parts) e h =
        let (qs, _, p) = some_cons (says (quote s)) (pieces f.params parts) ps h in (_, qs, p)
    go (a_part (param i) parts) e h =
        let (v, qs, _, _, p) = pieces-param f.params i parts ps h in (_, qs, p)
    go (a_part (fragment nested params) parts) e h = cc h

-- What `join` writes.
abbrev pub joined : Bytes → List Piece → List Piece → List Piece
joined separator [] qs = qs
joined separator (p ∷ ps) [] = p ∷ ps
joined separator (p ∷ ps) (q ∷ qs) = (p ∷ ps) ++ says separator ∷ q ∷ qs

-- `join` writes the separator between its two fragments, and only where both have parts; the
-- parameters of the second follow those of the first.
pub join-Denotes :
    (separator : Bytes) (f g : SqlFragment) (ps qs : List Piece)
    → Denotes f ps
    → Denotes g qs
    → Denotes (join separator f g) (joined separator ps qs)
unfolding join
join-Denotes separator f g ps qs h k = elim (Bool-cases (is_empty f.parts)) [
  | inl none_left ↦
      let p = pieces-no_parts f ps none_left h in
      rw (none_left, p) (append-Denotes f g [] qs (h ∙ ap some p) k)
  | inr some_left ↦
      let (x, xs, p) = pieces-some_part f ps some_left h in
      elim (Bool-cases (is_empty g.parts)) [
        | inl none_right ↦
            let q = pieces-no_parts g qs none_right k in
            rw (some_left, none_right, p, q)
              (append-Denotes f g (x ∷ xs) [] (h ∙ ap some p) (k ∙ ap some q)
                ∙ ap some (append-nil (x ∷ xs)))
        | inr some_right ↦
            let (y, ys, q) = pieces-some_part g qs some_right k in
            rw (some_left, some_right, p, q)
              (append-Denotes (push_raw separator f) g ((x ∷ xs) ++ says separator ∷ []) (y ∷ ys)
                  (push_raw-Denotes separator f (x ∷ xs) (h ∙ ap some p)) (k ∙ ap some q)
                ∙ ap some (append_assoc (x ∷ xs) (says separator ∷ []) (y ∷ ys)))
      ]
]

-- The pieces without their values.
abbrev pub shape : List Piece → List (Option Bytes)
shape [] = []
shape (says s ∷ ps) = some s ∷ shape ps
shape (holds v ∷ ps) = none ∷ shape ps

unfoldable pub print_shape : ℕ → List (Option Bytes) → Bytes
print_shape n [] = []
print_shape n (some s ∷ ss) = s ++ print_shape n ss
print_shape n (none ∷ ss) = (36 ∷ decimal n) ++ print_shape (n + 1) ss

-- The text of a query does not depend on its values.
pub print-shape : (n : ℕ) (ps : List Piece) → print n ps ≡ print_shape n (shape ps)
unfolding print print_shape
print-shape n [] = refl
print-shape n (says s ∷ ps) = ap (λ t. s ++ t) (print-shape n ps)
print-shape n (holds v ∷ ps) = ap (λ t. (36 ∷ decimal n) ++ t) (print-shape (n + 1) ps)
