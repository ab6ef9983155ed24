-- ===== src/Sql/Builders/Select/Writes.antt =====
-- What a SELECT builder writes, clause by clause.
use magna.Base.{
  ℕ, ◌+◌, ◌≡◌, refl, sym, ap, ◌∙◌, if◌then◌else◌, List, [], ◌∷◌, ◌++◌, map, append_assoc,
  append-nil, Option, none, some, ltb, Bytes, bytes, All,
}
use magna.Sql.Fragment.{SqlFragment, ident, append, push_raw, quote}
use magna.Sql.Pieces.{Piece, says, pieces, Denotes, append-Denotes, push_raw-Denotes}
use magna.Sql.Builders.{push_each}
use magna.Sql.Builders.Loops.{separated, started-Denotes}
use magna.Sql.Builders.Select.{
  as_sql, JoinClause, ColumnExpr, push_alias, push_column, push_columns, push_join, push_joins,
}

unfoldable pub meaning : SqlFragment → List Piece
meaning f = elim (pieces f.params f.parts) [ none ↦ [] | some ps ↦ ps ]

-- The parameters of the fragment are in its store, and it nests no other fragment.
abbrev pub IsPlain : SqlFragment → Type 0
IsPlain f = Denotes f (meaning f)

-- Pushing `x` writes `item x`.
abbrev pub Pushes {ℓ} :
    {X : Type ℓ} → (X → SqlFragment → SqlFragment) → (X → List Piece) → X → Type 0
Pushes push item x =
    (f : SqlFragment) (ps : List Piece) → Denotes f ps → Denotes (push x f) (ps ++ item x)

pub push_all-Denotes {ℓ} :
    {X : Type ℓ} (separator : Bytes) (push : X → SqlFragment → SqlFragment) (item : X → List Piece)
    (i : ℕ) (xs : List X) (f : SqlFragment) (ps : List Piece)
    → All (Pushes push item) xs
    → Denotes f ps
    → Denotes (push_each separator push i xs f) (ps ++ separated separator i (map item xs))
unfolding push_each separated
push_all-Denotes separator push item i [] f ps all h = h ∙ ap some (sym (append-nil ps))
push_all-Denotes separator push item i (x ∷ xs) f ps (step, all) h =
    let start = if ltb 0 i then push_raw separator f else f in
    push_all-Denotes separator push item (i + 1) xs (push x start) _ all
      (step start _ (started-Denotes separator (ltb 0 i) f ps h))
    ∙ ap some (
        append_assoc (ps ++ (if ltb 0 i then says separator ∷ [] else [])) (item x) _
        ∙ append_assoc ps _ _)

abbrev pub alias_pieces : Option Bytes → List Piece
alias_pieces none = []
alias_pieces (some alias) = says (bytes " AS ") ∷ says (quote alias) ∷ []

pub push_alias-Denotes : (alias : Option Bytes) → Pushes push_alias alias_pieces alias
unfolding push_alias ident pieces
push_alias-Denotes none f ps h = h ∙ ap some (sym (append-nil ps))
push_alias-Denotes (some alias) f ps h =
    append-Denotes (push_raw (bytes " AS ") f) (ident alias) _ (says (quote alias) ∷ [])
      (push_raw-Denotes (bytes " AS ") f ps h) refl
    ∙ ap some (append_assoc ps (says (bytes " AS ") ∷ []) (says (quote alias) ∷ []))

abbrev pub column_item : ColumnExpr → List Piece
column_item col = meaning col.expr ++ alias_pieces col.alias

push_column-Denotes : (col : ColumnExpr) → IsPlain col.expr → Pushes push_column column_item col
unfolding push_column
push_column-Denotes col plain f ps h =
    push_alias-Denotes col.alias (append f col.expr) _
      (append-Denotes f col.expr ps (meaning col.expr) h plain)
    ∙ ap some (append_assoc ps (meaning col.expr) (alias_pieces col.alias))

abbrev pub columns_pieces : List ColumnExpr → List Piece
columns_pieces [] = says (bytes "*") ∷ []
columns_pieces (col ∷ cols) = separated (bytes ", ") 0 (map column_item (col ∷ cols))

pub push_columns-Denotes :
    (cols : List ColumnExpr)
    → All (λ c. IsPlain c.expr) cols
    → Pushes push_columns columns_pieces cols
unfolding push_columns
push_columns-Denotes [] plain f ps h = push_raw-Denotes (bytes "*") f ps h
push_columns-Denotes (col ∷ cols) plain f ps h =
    push_all-Denotes (bytes ", ") push_column column_item 0 (col ∷ cols) f ps
      (steps (col ∷ cols) plain) h
  where
    steps :
        (cs : List ColumnExpr)
        → All (λ c. IsPlain c.expr) cs
        → All (Pushes push_column column_item) cs
    steps [] plain = tt
    steps (c ∷ cs) (p, plain) = (push_column-Denotes c p, steps cs plain)

abbrev pub join_item : JoinClause → List Piece
join_item j =
    (((((says (bytes " ") ∷ says (as_sql j.join_type) ∷ says (bytes " ") ∷ []) ++ meaning j.table)
          ++ alias_pieces j.alias)
        ++ says (bytes " ON ") ∷ [])
      ++ meaning j.on)

push_join-Denotes : (j : JoinClause) → IsPlain j.table → IsPlain j.on → Pushes push_join join_item j
unfolding push_join
push_join-Denotes j plain plain_on f ps h =
    append-Denotes _ j.on _ (meaning j.on)
      (push_raw-Denotes (bytes " ON ") _ _ (
        push_alias-Denotes j.alias _ _ (
          append-Denotes _ j.table _ (meaning j.table)
            (push_raw-Denotes (bytes " ") _ _
              (push_raw-Denotes (as_sql j.join_type) _ _ (push_raw-Denotes (bytes " ") f ps h)))
            plain)))
      plain_on
    ∙ ap some shape
  where
    words : List Piece
    words = says (bytes " ") ∷ says (as_sql j.join_type) ∷ says (bytes " ") ∷ []

    start :
        ((ps ++ says (bytes " ") ∷ []) ++ says (as_sql j.join_type) ∷ []) ++ says (bytes " ") ∷ []
        ≡ ps ++ words
    start =
        append_assoc (ps ++ says (bytes " ") ∷ []) (says (as_sql j.join_type) ∷ [])
          (says (bytes " ") ∷ [])
        ∙ append_assoc ps (says (bytes " ") ∷ [])
            (says (as_sql j.join_type) ∷ says (bytes " ") ∷ [])

    shape :
        (((((((ps ++ says (bytes " ") ∷ []) ++ says (as_sql j.join_type) ∷ [])
                  ++ says (bytes " ") ∷ [])
                ++ meaning j.table)
              ++ alias_pieces j.alias)
            ++ says (bytes " ON ") ∷ [])
          ++ meaning j.on)
        ≡ ps ++ join_item j
    shape =
        ap
          (λ (t : List Piece).
            (((t ++ meaning j.table) ++ alias_pieces j.alias) ++ says (bytes " ON ") ∷ [])
            ++ meaning j.on)
          start
        ∙ ap
            (λ (t : List Piece).
              ((t ++ alias_pieces j.alias) ++ says (bytes " ON ") ∷ []) ++ meaning j.on)
            (append_assoc ps words (meaning j.table))
        ∙ ap (λ (t : List Piece). (t ++ says (bytes " ON ") ∷ []) ++ meaning j.on)
            (append_assoc ps (words ++ meaning j.table) (alias_pieces j.alias))
        ∙ ap (λ (t : List Piece). t ++ meaning j.on)
            (append_assoc ps ((words ++ meaning j.table) ++ alias_pieces j.alias)
              (says (bytes " ON ") ∷ []))
        ∙ append_assoc ps
            (((words ++ meaning j.table) ++ alias_pieces j.alias) ++ says (bytes " ON ") ∷ [])
            (meaning j.on)

abbrev pub joins_pieces : List JoinClause → List Piece
joins_pieces [] = []
joins_pieces (j ∷ js) = join_item j ++ joins_pieces js

pub push_joins-Denotes :
    (js : List JoinClause)
    → All (λ j. IsPlain j.table × IsPlain j.on) js
    → Pushes push_joins joins_pieces js
unfolding push_joins
push_joins-Denotes [] plain f ps h = h ∙ ap some (sym (append-nil ps))
push_joins-Denotes (j ∷ js) ((table, on), plain) f ps h =
    push_joins-Denotes js plain (push_join j f) _ (push_join-Denotes j table on f ps h)
    ∙ ap some (append_assoc ps (join_item j) (joins_pieces js))
