-- ===== src/Sql/Builders/Loops.antt =====
-- What the loops of the builders write.
use magna.Base.{
  ℕ, ◌+◌, ◌≡◌, refl, sym, ap, ap₂, ◌∙◌, inl, inr, Bool, true, false, if◌then◌else◌, List, [], ◌∷◌,
  ◌++◌, map, append_assoc, append-nil, none, some, ltb, Bytes, bytes, Bool-cases,
}
use magna.Types.{PgValue}
use magna.Sql.Fragment.{
  SqlFragment, param_of, ident, qualified_ident, empty, append, push_raw, quote,
}
use magna.Sql.Pieces.{Piece, says, holds, values, pieces, Denotes, append-Denotes, push_raw-Denotes}
use magna.Sql.Numbering.{shape}
use magna.Sql.Builders.{push_each, push_ident, push_param, push_assignment}

-- The items with a separator between them; `i` is the index of the first.
unfoldable pub separated : Bytes → ℕ → List (List Piece) → List Piece
separated separator i [] = []
separated separator i (item ∷ items) =
    (if ltb 0 i then says separator ∷ [] else []) ++ (item ++ separated separator (i + 1) items)

pub started-Denotes :
    (separator : Bytes) (later : Bool) (f : SqlFragment) (ps : List Piece)
    → Denotes f ps
    → Denotes
        (if later then push_raw separator f else f)
        (ps ++ (if later then says separator ∷ [] else []))
started-Denotes separator true f ps h = push_raw-Denotes separator f ps h
started-Denotes separator false f ps h = h ∙ ap some (sym (append-nil ps))

pub push_each-Denotes {ℓ} :
    {X : Type ℓ} (separator : Bytes) (push : X → SqlFragment → SqlFragment) (item : X → List Piece)
    → ((x : X) (f : SqlFragment) (ps : List Piece)
        → Denotes f ps
        → Denotes (push x f) (ps ++ item x))
    → (i : ℕ) (xs : List X) (f : SqlFragment) (ps : List Piece) → Denotes f ps
    → Denotes (push_each separator push i xs f) (ps ++ separated separator i (map item xs))
unfolding push_each separated
push_each-Denotes separator push item step i [] f ps h = h ∙ ap some (sym (append-nil ps))
push_each-Denotes separator push item step i (x ∷ xs) f ps h =
    let start = if ltb 0 i then push_raw separator f else f in
    push_each-Denotes separator push item step (i + 1) xs (push x start) _
      (step x start _ (started-Denotes separator (ltb 0 i) f ps h))
    ∙ ap some (
        append_assoc (ps ++ (if ltb 0 i then says separator ∷ [] else [])) (item x) _
        ∙ append_assoc ps _ _)

abbrev pub ident_item : Bytes → List Piece
ident_item col = says (quote col) ∷ []

abbrev pub param_item : PgValue → List Piece
param_item v = holds v ∷ []

abbrev pub assignment_item : Bytes × PgValue → List Piece
assignment_item (col, v) = says (quote col) ∷ says (bytes " = ") ∷ holds v ∷ []

pub push_ident-Denotes :
    (col : Bytes) (f : SqlFragment) (ps : List Piece)
    → Denotes f ps
    → Denotes (push_ident col f) (ps ++ ident_item col)
unfolding push_ident ident pieces
push_ident-Denotes col f ps h = append-Denotes f (ident col) ps (ident_item col) h refl

pub push_param-Denotes :
    (v : PgValue) (f : SqlFragment) (ps : List Piece)
    → Denotes f ps
    → Denotes (push_param v f) (ps ++ param_item v)
unfolding push_param param_of pieces
push_param-Denotes v f ps h = append-Denotes f (param_of v) ps (param_item v) h refl

pub push_assignment-Denotes :
    (q : Bytes × PgValue) (f : SqlFragment) (ps : List Piece)
    → Denotes f ps
    → Denotes (push_assignment q f) (ps ++ assignment_item q)
unfolding push_assignment param_of ident pieces
push_assignment-Denotes (col, v) f ps h =
    append-Denotes (push_raw (bytes " = ") (append f (ident col))) (param_of v) _ (param_item v)
      (push_raw-Denotes (bytes " = ") (append f (ident col)) _
        (append-Denotes f (ident col) ps (ident_item col) h refl))
      refl
    ∙ ap some (
        append_assoc (ps ++ ident_item col) (says (bytes " = ") ∷ []) (param_item v)
        ∙ append_assoc ps (ident_item col) (says (bytes " = ") ∷ param_item v))

abbrev pub table_pieces : Bytes → Bytes → Bytes → List Piece
table_pieces verb schema table =
    says verb ∷ says (quote schema) ∷ says (bytes ".") ∷ says (quote table) ∷ []

-- The verb of a statement and its table.
pub table-Denotes :
    (verb schema table : Bytes)
    → Denotes
        (append (push_raw verb empty) (qualified_ident schema table))
        (table_pieces verb schema table)
unfolding empty qualified_ident pieces
table-Denotes verb schema table =
    append-Denotes (push_raw verb empty) (qualified_ident schema table) (says verb ∷ []) _
      (push_raw-Denotes verb empty [] refl) refl

pub values-append : (ps qs : List Piece) → values (ps ++ qs) ≡ values ps ++ values qs
values-append [] qs = refl
values-append (says s ∷ ps) qs = values-append ps qs
values-append (holds v ∷ ps) qs = ap (λ t. v ∷ t) (values-append ps qs)

pub shape-append : (ps qs : List Piece) → shape (ps ++ qs) ≡ shape ps ++ shape qs
shape-append [] qs = refl
shape-append (says s ∷ ps) qs = ap (λ t. some s ∷ t) (shape-append ps qs)
shape-append (holds v ∷ ps) qs = ap (λ t. none ∷ t) (shape-append ps qs)

values-separator :
    (i : ℕ) (separator : Bytes) → values (if ltb 0 i then says separator ∷ [] else []) ≡ []
values-separator i separator = elim (Bool-cases (ltb 0 i)) [ inl e ↦ rw e refl | inr e ↦ rw e refl ]

-- The values of a list of items, each of which has the values `of` it.
pub values-separated {ℓ} :
    {X : Type ℓ} (separator : Bytes) (item : X → List Piece) (own : List X → List PgValue)
    → own [] ≡ []
    → ((x : X) (xs : List X) → values (item x) ++ own xs ≡ own (x ∷ xs))
    → (i : ℕ) (xs : List X) → values (separated separator i (map item xs)) ≡ own xs
unfolding separated
values-separated separator item own base step i [] = sym base
values-separated separator item own base step i (x ∷ xs) =
    values-append (if ltb 0 i then says separator ∷ [] else []) _
    ∙ ap₂ ◌++◌ (values-separator i separator) (
        values-append (item x) _
        ∙ ap (λ t. values (item x) ++ t) (values-separated separator item own base step (i + 1) xs))
    ∙ step x xs

-- Items of the same shapes, one by one.
pub shape-separated {ℓ κ} :
    {X : Type ℓ} {Y : Type κ} (separator : Bytes) (item : X → List Piece) (other : Y → List Piece)
    (i : ℕ) (xs : List X) (ys : List Y)
    → map (λ x. shape (item x)) xs ≡ map (λ y. shape (other y)) ys
    → shape (separated separator i (map item xs)) ≡ shape (separated separator i (map other ys))
unfolding separated
shape-separated separator item other i [] [] h = refl
shape-separated separator item other i [] (y ∷ ys) h = cc h
shape-separated separator item other i (x ∷ xs) [] h = cc h
shape-separated separator item other i (x ∷ xs) (y ∷ ys) h =
    let sep = if ltb 0 i then says separator ∷ [] else [] in
    let same_item : shape (item x) ≡ shape (other y) = cc h in
    let same_rest : map (λ x. shape (item x)) xs ≡ map (λ y. shape (other y)) ys = cc h in
    shape-append sep _
    ∙ ap (λ t. shape sep ++ t)
        (shape-append (item x) _
          ∙ ap₂ ◌++◌ same_item (shape-separated separator item other (i + 1) xs ys same_rest)
          ∙ sym (shape-append (other y) _))
    ∙ sym (shape-append sep _)
