-- ===== src/Sql/Builders/Select/Renders.antt =====
-- The whole SELECT statement.
use magna.Base.{
  ℕ, ◌≡◌, refl, sym, ap, ◌∙◌, if◌then◌else◌, List, [], ◌∷◌, ◌++◌, map, append_assoc, append-nil,
  Option, none, some, Bytes, bytes, All,
}
use magna.Types.{int}
use magna.Sql.Fragment.{SqlFragment, param_of, qualified_ident, empty, append, push_raw, quote}
use magna.Sql.Pieces.{
  Piece, says, holds, values, print, pieces, Denotes, append-Denotes, push_raw-Denotes,
}
use magna.Sql.Numbering.{build_sql-eq-print}
use magna.Sql.Builders.Loops.{separated}
use magna.Sql.Builders.Select.{
  OrderByItem, SqlBuilder, push_condition, push_where, push_order_item, push_order_by, push_number,
  build_select, render,
}
use magna.Sql.Builders.Select.Writes.{
  meaning, IsPlain, Pushes, push_all-Denotes, alias_pieces, push_alias-Denotes, columns_pieces,
  push_columns-Denotes, joins_pieces, push_joins-Denotes,
}

abbrev pub condition_item : SqlFragment → List Piece
condition_item cond = ((says (bytes "(") ∷ []) ++ meaning cond) ++ says (bytes ")") ∷ []

push_condition-Denotes :
    (cond : SqlFragment) → IsPlain cond → Pushes push_condition condition_item cond
unfolding push_condition
push_condition-Denotes cond plain f ps h =
    push_raw-Denotes (bytes ")") _ _
      (append-Denotes _ cond _ (meaning cond) (push_raw-Denotes (bytes "(") f ps h) plain)
    ∙ ap some (
        ap (λ t. t ++ says (bytes ")") ∷ [])
          (append_assoc ps (says (bytes "(") ∷ []) (meaning cond))
        ∙ append_assoc ps ((says (bytes "(") ∷ []) ++ meaning cond) (says (bytes ")") ∷ []))

abbrev pub where_pieces : List SqlFragment → List Piece
where_pieces [] = []
where_pieces (c ∷ cs) =
    says (bytes " WHERE ") ∷ separated (bytes " AND ") 0 (map condition_item (c ∷ cs))

push_where-Denotes : (cs : List SqlFragment) → All IsPlain cs → Pushes push_where where_pieces cs
unfolding push_where
push_where-Denotes [] plain f ps h = h ∙ ap some (sym (append-nil ps))
push_where-Denotes (c ∷ cs) plain f ps h =
    push_all-Denotes (bytes " AND ") push_condition condition_item 0 (c ∷ cs) _ _
      (steps (c ∷ cs) plain) (push_raw-Denotes (bytes " WHERE ") f ps h)
    ∙ ap some (append_assoc ps (says (bytes " WHERE ") ∷ []) _)
  where
    steps : (xs : List SqlFragment) → All IsPlain xs → All (Pushes push_condition condition_item) xs
    steps [] plain = tt
    steps (x ∷ xs) (p, plain) = (push_condition-Denotes x p, steps xs plain)

abbrev pub order_item : OrderByItem → List Piece
order_item o = meaning o.column ++ says (if o.ascending then bytes " ASC" else bytes " DESC") ∷ []

push_order_item-Denotes : (o : OrderByItem) → IsPlain o.column → Pushes push_order_item order_item o
unfolding push_order_item
push_order_item-Denotes o plain f ps h =
    push_raw-Denotes _ _ _ (append-Denotes f o.column ps (meaning o.column) h plain)
    ∙ ap some (append_assoc ps (meaning o.column) _)

abbrev pub order_by_pieces : List OrderByItem → List Piece
order_by_pieces [] = []
order_by_pieces (o ∷ os) =
    says (bytes " ORDER BY ") ∷ separated (bytes ", ") 0 (map order_item (o ∷ os))

push_order_by-Denotes :
    (os : List OrderByItem)
    → All (λ o. IsPlain o.column) os
    → Pushes push_order_by order_by_pieces os
unfolding push_order_by
push_order_by-Denotes [] plain f ps h = h ∙ ap some (sym (append-nil ps))
push_order_by-Denotes (o ∷ os) plain f ps h =
    push_all-Denotes (bytes ", ") push_order_item order_item 0 (o ∷ os) _ _ (steps (o ∷ os) plain)
      (push_raw-Denotes (bytes " ORDER BY ") f ps h)
    ∙ ap some (append_assoc ps (says (bytes " ORDER BY ") ∷ []) _)
  where
    steps :
        (xs : List OrderByItem)
        → All (λ o. IsPlain o.column) xs
        → All (Pushes push_order_item order_item) xs
    steps [] plain = tt
    steps (x ∷ xs) (p, plain) = (push_order_item-Denotes x p, steps xs plain)

abbrev pub number_pieces : Bytes → Option ℕ → List Piece
number_pieces word none = []
number_pieces word (some n) = says word ∷ holds (int n) ∷ []

push_number-Denotes :
    (word : Bytes) (n : Option ℕ) → Pushes (push_number word) (number_pieces word) n
unfolding push_number param_of pieces
push_number-Denotes word none f ps h = h ∙ ap some (sym (append-nil ps))
push_number-Denotes word (some n) f ps h =
    append-Denotes (push_raw word f) (param_of (int n)) _ (holds (int n) ∷ [])
      (push_raw-Denotes word f ps h) refl
    ∙ ap some (append_assoc ps (says word ∷ []) (holds (int n) ∷ []))

abbrev pub from_pieces : SqlBuilder → List Piece
from_pieces b =
    says (bytes " FROM ") ∷ says (quote b.schema) ∷ says (bytes ".") ∷ says (quote b.table) ∷ []

-- The clauses of a SELECT in their order.
abbrev pub select_pieces : SqlBuilder → List Piece
select_pieces b =
    (((((((says (bytes "SELECT ") ∷ [] ++ columns_pieces b.columns) ++ from_pieces b)
              ++ alias_pieces b.table_alias)
            ++ joins_pieces b.joins)
          ++ where_pieces b.where_conditions)
        ++ order_by_pieces b.order_by)
      ++ number_pieces (bytes " LIMIT ") b.limit_val)
    ++ number_pieces (bytes " OFFSET ") b.offset_val

-- All fragments that the builder was given are plain.
pub record IsPlainBuilder (b : SqlBuilder) : Type 0 where
  pub columns : All (λ c. IsPlain c.expr) b.columns
  pub joins : All (λ j. IsPlain j.table × IsPlain j.on) b.joins
  pub conditions : All IsPlain b.where_conditions
  pub sorts : All (λ o. IsPlain o.column) b.order_by

push_from-Denotes :
    (b : SqlBuilder) (f : SqlFragment) (ps : List Piece)
    → Denotes f ps
    → Denotes
        (append (push_raw (bytes " FROM ") f) (qualified_ident b.schema b.table))
        (ps ++ from_pieces b)
unfolding qualified_ident pieces
push_from-Denotes b f ps h =
    append-Denotes (push_raw (bytes " FROM ") f) (qualified_ident b.schema b.table) _
      (says (quote b.schema) ∷ says (bytes ".") ∷ says (quote b.table) ∷ [])
      (push_raw-Denotes (bytes " FROM ") f ps h) refl
    ∙ ap some (append_assoc ps (says (bytes " FROM ") ∷ []) _)

build_select-Denotes :
    (b : SqlBuilder) → IsPlainBuilder b → Denotes (build_select b) (select_pieces b)
unfolding build_select empty pieces
build_select-Denotes b plain = push_number-Denotes (bytes " OFFSET ") b.offset_val _ _ (
    push_number-Denotes (bytes " LIMIT ") b.limit_val _ _ (
      push_order_by-Denotes b.order_by plain.sorts _ _ (
        push_where-Denotes b.where_conditions plain.conditions _ _ (
          push_joins-Denotes b.joins plain.joins _ _ (
            push_alias-Denotes b.table_alias _ _ (
              push_from-Denotes b _ _ (
                push_columns-Denotes b.columns plain.columns _ _
                  (push_raw-Denotes (bytes "SELECT ") empty [] refl))))))))

-- A SELECT built from plain fragments renders without a panic. Its text has the clauses in the order
-- SELECT, FROM, joins, WHERE, ORDER BY, LIMIT, OFFSET, with each value, the limit and the offset
-- included, replaced by a placeholder, and its parameters are these values in the order of their
-- placeholders `$1`, `$2`, ….
pub render-eq-print :
    (b : SqlBuilder)
    → IsPlainBuilder b
    → render b ≡ some (print 1 (select_pieces b), values (select_pieces b))
unfolding render
render-eq-print b plain =
    build_sql-eq-print (build_select b) (select_pieces b) (build_select-Denotes b plain)
