-- ===== src/Sql/Builders/Safe.antt =====
-- The text of a statement that writes rows is fixed by its builder, whatever the values are.
use magna.Base.{
  ◌≡◌, refl, sym, ap, ap₂, ◌∙◌, List, [], ◌∷◌, ◌++◌, map, append-nil, none, some, length, Bytes,
  bytes, arith,
}
use magna.Types.{PgValue, null}
use magna.Sql.Fragment.{SqlFragment, build_sql, quote}
use magna.Sql.Pieces.{Piece, says, values, print, Denotes}
use magna.Sql.Numbering.{shape, print_shape, print-shape, build_sql-eq-print}
use magna.Sql.Builders.{
  zip, InsertBuilder, build_insert, UpdateBuilder, build_update, DeleteBuilder, build_delete,
  render_built,
}
use magna.Sql.Builders.Loops.{
  separated, ident_item, param_item, assignment_item, table_pieces, values-append, shape-append,
  shape-separated,
}
use magna.Sql.Builders.Writes.{
  insert_pieces, insert-Denotes, update-Denotes, delete-Denotes, values-idents, values-params,
  values-assignments, map-zip,
}

shape-left : (ps ps' qs : List Piece) → shape ps ≡ shape ps' → shape (ps ++ qs) ≡ shape (ps' ++ qs)
shape-left ps ps' qs e = shape-append ps qs ∙ ap (λ t. t ++ shape qs) e ∙ sym (shape-append ps' qs)

shape-right : (ps qs qs' : List Piece) → shape qs ≡ shape qs' → shape (ps ++ qs) ≡ shape (ps ++ qs')
shape-right ps qs qs' e = shape-append ps qs ∙ ap (λ t. shape ps ++ t) e ∙ sym (shape-append ps qs')

shape-both :
    (ps ps' qs qs' : List Piece)
    → shape ps ≡ shape ps'
    → shape qs ≡ shape qs'
    → shape (ps ++ qs) ≡ shape (ps' ++ qs')
shape-both ps ps' qs qs' e e' = shape-left ps ps' qs e ∙ shape-right ps' qs qs' e'

values-end : (ps qs : List Piece) → values qs ≡ [] → values (ps ++ qs) ≡ values ps
values-end ps qs e = values-append ps qs ∙ ap (λ t. values ps ++ t) e ∙ append-nil (values ps)

values-both :
    (ps qs : List Piece) (us vs : List PgValue)
    → values ps ≡ us
    → values qs ≡ vs
    → values (ps ++ qs) ≡ us ++ vs
values-both ps qs us vs e e' = values-append ps qs ∙ ap₂ ◌++◌ e e'

-- One hole for each column.
holes_of :
    (cols : List Bytes) (vs : List PgValue)
    → length cols ≡ length vs
    → map (λ v. shape (param_item v)) vs ≡ map (λ (c : Bytes). shape (param_item null)) cols
holes_of [] [] e = refl
holes_of [] (v ∷ vs) e = absurd (omega (arith, e))
holes_of (c ∷ cols) [] e = absurd (omega (arith, e))
holes_of (c ∷ cols) (v ∷ vs) e = ap (λ t. (none ∷ []) ∷ t) (holes_of cols vs (omega (arith, e)))

assignments_of :
    (cols : List Bytes) (vs : List PgValue)
    → length cols ≡ length vs
    → map (λ q. shape (assignment_item q)) (zip cols vs)
      ≡ map (λ c. shape (assignment_item (c, null))) cols
unfolding zip
assignments_of [] [] e = refl
assignments_of [] (v ∷ vs) e = absurd (omega (arith, e))
assignments_of (c ∷ cols) [] e = absurd (omega (arith, e))
assignments_of (c ∷ cols) (v ∷ vs) e =
    ap (λ t. (some (quote c) ∷ some (bytes " = ") ∷ none ∷ []) ∷ t)
      (assignments_of cols vs (omega (arith, e)))

-- The text of pieces of this shape.
print-of_shape : (ps qs : List Piece) → shape ps ≡ shape qs → print 1 ps ≡ print 1 qs
print-of_shape ps qs e = print-shape 1 ps ∙ ap (print_shape 1) e ∙ sym (print-shape 1 qs)

rendered :
    (f : SqlFragment) (ps qs : List Piece) (vs : List PgValue)
    → Denotes f ps
    → shape ps ≡ shape qs
    → values ps ≡ vs
    → build_sql f ≡ some (print 1 qs, vs)
rendered f ps qs vs h same own =
    build_sql-eq-print f ps h ∙ ap₂ (λ t us. some (t, us)) (print-of_shape ps qs same) own

-- The pieces with a list of columns in the place of the values.
abbrev holes : List Bytes → List Piece
holes cols = separated (bytes ", ") 0 (map (λ c. param_item null) cols)

abbrev assignments : Bytes → List Bytes → List Piece
assignments separator cols = separated separator 0 (map (λ c. assignment_item (c, null)) cols)

-- An INSERT has one text, fixed by the table and the columns, for all lists of as many values as
-- columns, and its parameters are the values in their order.
pub insert-text :
    (b : InsertBuilder)
    → (sql : Bytes) × ((vs : List PgValue)
        → length b.columns ≡ length vs
        → render_built (build_insert b vs) ≡ some (sql, vs))
insert-text b = (
  print 1 (((head ++ holes b.columns)) ++ says (bytes ") RETURNING *") ∷ []),
  λ vs e.
      let (f, built, h) = insert-Denotes b vs e in
      let holes_ps = separated (bytes ", ") 0 (map param_item vs) in
      let same : shape (insert_pieces b vs)
          ≡ shape ((head ++ holes b.columns) ++ says (bytes ") RETURNING *") ∷ []) =
        shape-left (head ++ holes_ps) (head ++ holes b.columns) (says (bytes ") RETURNING *") ∷ [])
          (shape-right head holes_ps (holes b.columns) (
            shape-separated (bytes ", ") param_item (λ (c : Bytes). param_item null) 0 vs b.columns
              (holes_of b.columns vs e))) in
      let own : values (insert_pieces b vs) ≡ vs =
        values-end (head ++ holes_ps) (says (bytes ") RETURNING *") ∷ []) refl
        ∙ values-both head holes_ps [] vs head_values (values-params vs) in
      ap render_built built ∙ rendered f (insert_pieces b vs) _ vs h same own,
)
  where
    start : List Piece
    start = table_pieces (bytes "INSERT INTO ") b.schema b.table ++ says (bytes " (") ∷ []

    idents : List Piece
    idents = separated (bytes ", ") 0 (map ident_item b.columns)

    head : List Piece
    head = (start ++ idents) ++ says (bytes ") VALUES (") ∷ []

    head_values : values head ≡ []
    head_values =
        values-end (start ++ idents) (says (bytes ") VALUES (") ∷ []) refl
        ∙ values-both start idents [] [] refl (values-idents b.columns)

-- An UPDATE has one text, fixed by the table and the columns, for all values that fit the columns,
-- and its parameters are the values to set followed by those of the condition.
pub update-text :
    (b : UpdateBuilder)
    → (sql : Bytes) × ((sets wheres : List PgValue)
        → length b.set_columns ≡ length sets
        → length b.where_columns ≡ length wheres
        → render_built (build_update b sets wheres) ≡ some (sql, sets ++ wheres))
update-text b = (
  print 1 (
      (((start ++ assignments (bytes ", ") b.set_columns) ++ where_word)
        ++ assignments (bytes " AND ") b.where_columns)
      ++ last_words),
  λ sets wheres e e'.
      let (f, built, h) = update-Denotes b sets wheres e e' in
      let ps = separated (bytes ", ") 0 (map assignment_item (zip b.set_columns sets)) in
      let qs = separated (bytes " AND ") 0 (map assignment_item (zip b.where_columns wheres)) in
      let same_sets =
        shape-separated (bytes ", ") assignment_item (λ (c : Bytes). assignment_item (c, null)) 0
          (zip b.set_columns sets) b.set_columns (assignments_of b.set_columns sets e) in
      let same_wheres =
        shape-separated (bytes " AND ") assignment_item (λ (c : Bytes). assignment_item (c, null)) 0
          (zip b.where_columns wheres) b.where_columns (assignments_of b.where_columns wheres e') in
      let sets_a = assignments (bytes ", ") b.set_columns in
      let bs = assignments (bytes " AND ") b.where_columns in
      let same : shape ((((start ++ ps) ++ where_word) ++ qs) ++ last_words)
          ≡ shape (
              (((start ++ assignments (bytes ", ") b.set_columns) ++ where_word)
                ++ assignments (bytes " AND ") b.where_columns)
              ++ last_words) =
        shape-left (((start ++ ps) ++ where_word) ++ qs) (((start ++ sets_a) ++ where_word) ++ bs)
          last_words
          (shape-both ((start ++ ps) ++ where_word) ((start ++ sets_a) ++ where_word) qs bs
            (shape-left (start ++ ps) (start ++ sets_a) where_word
              (shape-right start ps sets_a same_sets))
            same_wheres) in
      let sets_own : values ((start ++ ps) ++ where_word) ≡ sets =
        values-end (start ++ ps) where_word refl
        ∙ values-both start ps [] sets refl (
            values-assignments (bytes ", ") (zip b.set_columns sets)
            ∙ map-zip b.set_columns sets e) in
      let own : values ((((start ++ ps) ++ where_word) ++ qs) ++ last_words) ≡ sets ++ wheres =
        values-end (((start ++ ps) ++ where_word) ++ qs) last_words refl
        ∙ values-both ((start ++ ps) ++ where_word) qs sets wheres sets_own (
            values-assignments (bytes " AND ") (zip b.where_columns wheres)
            ∙ map-zip b.where_columns wheres e') in
      ap render_built built ∙ rendered f _ _ (sets ++ wheres) h same own,
)
  where
    where_word : List Piece
    where_word = says (bytes " WHERE ") ∷ []

    last_words : List Piece
    last_words = says (bytes " RETURNING *") ∷ []

    start : List Piece
    start = table_pieces (bytes "UPDATE ") b.schema b.table ++ says (bytes " SET ") ∷ []

-- A DELETE has one text, fixed by the table and the columns, for all values that fit the columns,
-- and its parameters are the values in their order.
pub delete-text :
    (b : DeleteBuilder)
    → (sql : Bytes) × ((wheres : List PgValue)
        → length b.where_columns ≡ length wheres
        → render_built (build_delete b wheres) ≡ some (sql, wheres))
delete-text b = (
  print 1 ((start ++ assignments (bytes " AND ") b.where_columns) ++ last_words),
  λ wheres e.
      let (f, built, h) = delete-Denotes b wheres e in
      let qs = separated (bytes " AND ") 0 (map assignment_item (zip b.where_columns wheres)) in
      let same : shape ((start ++ qs) ++ last_words)
          ≡ shape ((start ++ assignments (bytes " AND ") b.where_columns) ++ last_words) =
        shape-left (start ++ qs) (start ++ assignments (bytes " AND ") b.where_columns) last_words (
          shape-right start qs (assignments (bytes " AND ") b.where_columns) (
            shape-separated (bytes " AND ") assignment_item
              (λ (c : Bytes). assignment_item (c, null)) 0 (zip b.where_columns wheres)
              b.where_columns (assignments_of b.where_columns wheres e))) in
      let own : values ((start ++ qs) ++ last_words) ≡ wheres =
        values-end (start ++ qs) last_words refl
        ∙ values-both start qs [] wheres refl (
            values-assignments (bytes " AND ") (zip b.where_columns wheres)
            ∙ map-zip b.where_columns wheres e) in
      ap render_built built ∙ rendered f _ _ wheres h same own,
)
  where
    start : List Piece
    start = table_pieces (bytes "DELETE FROM ") b.schema b.table ++ says (bytes " WHERE ") ∷ []

    last_words : List Piece
    last_words = says (bytes " RETURNING *") ∷ []
