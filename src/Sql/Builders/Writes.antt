-- ===== src/Sql/Builders/Writes.antt =====
-- The statements that write rows.
use magna.Base.{
  ◌≡◌, refl, ap, true, nat_eq, ◌==◌, beq_refl, List, [], ◌∷◌, ◌++◌, map, some, length, Bytes, bytes,
  arith,
}
use magna.Types.{PgValue}
use magna.Sql.Fragment.{SqlFragment}
use magna.Sql.Pieces.{Piece, says, values, Denotes, push_raw-Denotes}
use magna.Sql.Builders.{
  push_ident, push_param, push_assignment, zip, InsertBuilder, build_insert, UpdateBuilder,
  build_update, DeleteBuilder, build_delete,
}
use magna.Sql.Builders.Loops.{
  separated, push_each-Denotes, ident_item, param_item, assignment_item, push_ident-Denotes,
  push_param-Denotes, push_assignment-Denotes, table_pieces, table-Denotes, values-separated,
}

-- What the builders write.
abbrev pub insert_pieces : InsertBuilder → List PgValue → List Piece
insert_pieces b vs =
    ((((table_pieces (bytes "INSERT INTO ") b.schema b.table ++ says (bytes " (") ∷ [])
          ++ separated (bytes ", ") 0 (map ident_item b.columns))
        ++ says (bytes ") VALUES (") ∷ [])
      ++ separated (bytes ", ") 0 (map param_item vs))
    ++ says (bytes ") RETURNING *") ∷ []

abbrev pub update_pieces :
    UpdateBuilder → List (Bytes × PgValue) → List (Bytes × PgValue) → List Piece
update_pieces b sets wheres =
    ((((table_pieces (bytes "UPDATE ") b.schema b.table ++ says (bytes " SET ") ∷ [])
          ++ separated (bytes ", ") 0 (map assignment_item sets))
        ++ says (bytes " WHERE ") ∷ [])
      ++ separated (bytes " AND ") 0 (map assignment_item wheres))
    ++ says (bytes " RETURNING *") ∷ []

abbrev pub delete_pieces : DeleteBuilder → List (Bytes × PgValue) → List Piece
delete_pieces b wheres =
    ((table_pieces (bytes "DELETE FROM ") b.schema b.table ++ says (bytes " WHERE ") ∷ [])
      ++ separated (bytes " AND ") 0 (map assignment_item wheres))
    ++ says (bytes " RETURNING *") ∷ []

pub insert-Denotes :
    (b : InsertBuilder) (vs : List PgValue)
    → length b.columns ≡ length vs
    → (f : SqlFragment) × (build_insert b vs ≡ some f) × Denotes f (insert_pieces b vs)
unfolding build_insert
insert-Denotes b vs e =
    let same : (length b.columns == length vs) ≡ true = rw e (beq_refl (length vs)) in
    rw same (
      _,
      refl,
      push_raw-Denotes (bytes ") RETURNING *") _ _ (
          push_each-Denotes (bytes ", ") push_param param_item push_param-Denotes 0 vs _ _ (
            push_raw-Denotes (bytes ") VALUES (") _ _ (
              push_each-Denotes (bytes ", ") push_ident ident_item push_ident-Denotes 0 b.columns _
                _
                (push_raw-Denotes (bytes " (") _ _
                  (table-Denotes (bytes "INSERT INTO ") b.schema b.table))))),
    )

pub update-Denotes :
    (b : UpdateBuilder) (sets wheres : List PgValue)
    → length b.set_columns ≡ length sets
    → length b.where_columns ≡ length wheres
    → (f : SqlFragment) × (build_update b sets wheres ≡ some f)
      × Denotes f (update_pieces b (zip b.set_columns sets) (zip b.where_columns wheres))
unfolding build_update
update-Denotes b sets wheres e e' =
    let same : (length b.set_columns == length sets) ≡ true = rw e (beq_refl (length sets)) in
    let same' : (length b.where_columns == length wheres) ≡ true =
      rw e' (beq_refl (length wheres)) in
    rw (same, same')
      (
        _,
        refl,
        push_raw-Denotes (bytes " RETURNING *") _ _ (
            push_each-Denotes (bytes " AND ") push_assignment assignment_item
              push_assignment-Denotes 0 (zip b.where_columns wheres) _ _
              (push_raw-Denotes (bytes " WHERE ") _ _ (
                push_each-Denotes (bytes ", ") push_assignment assignment_item
                  push_assignment-Denotes 0 (zip b.set_columns sets) _ _
                  (push_raw-Denotes (bytes " SET ") _ _
                    (table-Denotes (bytes "UPDATE ") b.schema b.table))))),
      )

pub delete-Denotes :
    (b : DeleteBuilder) (wheres : List PgValue)
    → length b.where_columns ≡ length wheres
    → (f : SqlFragment) × (build_delete b wheres ≡ some f)
      × Denotes f (delete_pieces b (zip b.where_columns wheres))
unfolding build_delete
delete-Denotes b wheres e =
    let same : (length b.where_columns == length wheres) ≡ true = rw e (beq_refl (length wheres)) in
    rw same (
      _,
      refl,
      push_raw-Denotes (bytes " RETURNING *") _ _ (
          push_each-Denotes (bytes " AND ") push_assignment assignment_item push_assignment-Denotes
            0 (zip b.where_columns wheres) _ _
            (push_raw-Denotes (bytes " WHERE ") _ _
              (table-Denotes (bytes "DELETE FROM ") b.schema b.table))),
    )

pub values-idents :
    (cols : List Bytes) → values (separated (bytes ", ") 0 (map ident_item cols)) ≡ []
values-idents cols = values-separated (bytes ", ") ident_item (λ _. []) refl (λ x xs. refl) 0 cols

pub values-params : (vs : List PgValue) → values (separated (bytes ", ") 0 (map param_item vs)) ≡ vs
values-params vs = values-separated (bytes ", ") param_item (λ xs. xs) refl (λ x xs. refl) 0 vs

pub values-assignments :
    (separator : Bytes) (qs : List (Bytes × PgValue))
    → values (separated separator 0 (map assignment_item qs)) ≡ map (λ q. q.1) qs
values-assignments separator qs =
    values-separated separator assignment_item (map (λ q. q.1)) refl (λ x xs. refl) 0 qs

pub map-zip :
    (cols : List Bytes) (vs : List PgValue)
    → length cols ≡ length vs
    → map (λ q. q.1) (zip cols vs) ≡ vs
unfolding zip
map-zip [] [] e = refl
map-zip [] (v ∷ vs) e = absurd (omega (arith, e))
map-zip (c ∷ cols) [] e = absurd (omega (arith, e))
map-zip (c ∷ cols) (v ∷ vs) e = ap (λ t. v ∷ t) (map-zip cols vs (omega (arith, e)))
