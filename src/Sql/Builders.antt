-- ===== src/Sql/Builders.antt =====
-- crates/magna-sql/src/{builder,insert_builder,update_builder,delete_builder,render}.rs: the builders.
-- A failed assertion panics, which is `none` here.
pub mod Loops
pub mod Writes
pub mod Safe
pub mod Select
use magna.Base.{
  ℕ, ◌+◌, Bool, true, false, ◌&&◌, if◌then◌else◌, nat_eq, ◌==◌, List, [], ◌∷◌, ◌++◌, Option, none,
  some, length, ltb, Bytes, bytes,
}
use magna.Types.{PgValue, int}
use magna.Sql.Fragment.{
  SqlFragment, raw, param_of, ident, qualified_ident, empty, append, push_raw, build_sql,
}

-- `for (i, x) in xs.enumerate() { if i > 0 { push_raw(separator) } … }`
unfoldable pub push_each {ℓ} :
    {X : Type ℓ} → Bytes → (X → SqlFragment → SqlFragment) → ℕ → List X → SqlFragment → SqlFragment
push_each separator push i [] f = f
push_each separator push i (x ∷ xs) f =
    push_each separator push (i + 1) xs (push x (if ltb 0 i then push_raw separator f else f))

unfoldable pub zip {ℓ κ} : {X : Type ℓ} {Y : Type κ} → List X → List Y → List (X × Y)
zip [] ys = []
zip (x ∷ xs) [] = []
zip (x ∷ xs) (y ∷ ys) = (x, y) ∷ zip xs ys

pub record InsertBuilder : Type 0 where
  pub schema : Bytes
  pub table : Bytes
  pub columns : List Bytes

unfoldable pub new_insert : Bytes → Bytes → InsertBuilder
new_insert schema table = record { schema = schema; table = table; columns = [] }

unfoldable pub insert_column : Bytes → InsertBuilder → InsertBuilder
insert_column name b = record b { columns = b.columns ++ name ∷ [] }

unfoldable pub push_ident : Bytes → SqlFragment → SqlFragment
push_ident col f = append f (ident col)

unfoldable pub push_param : PgValue → SqlFragment → SqlFragment
push_param v f = append f (param_of v)

unfoldable pub build_insert : InsertBuilder → List PgValue → Option SqlFragment
build_insert b values =
    if length b.columns == length values
    then (let f1 =
          push_raw (bytes " (")
            (append (push_raw (bytes "INSERT INTO ") empty) (qualified_ident b.schema b.table)) in
        let f2 = push_each (bytes ", ") push_ident 0 b.columns f1 in
        let f3 = push_each (bytes ", ") push_param 0 values (push_raw (bytes ") VALUES (") f2) in
        some (push_raw (bytes ") RETURNING *") f3))
    else none

-- `"col" = $N`
unfoldable pub push_assignment : Bytes × PgValue → SqlFragment → SqlFragment
push_assignment (col, v) f = append (push_raw (bytes " = ") (append f (ident col))) (param_of v)

pub record UpdateBuilder : Type 0 where
  pub schema : Bytes
  pub table : Bytes
  pub set_columns : List Bytes
  pub where_columns : List Bytes

unfoldable pub new_update : Bytes → Bytes → UpdateBuilder
new_update schema table = record {
  schema = schema;
  table = table;
  set_columns = [];
  where_columns = [];
}

unfoldable pub update_set : Bytes → UpdateBuilder → UpdateBuilder
update_set column b = record b { set_columns = b.set_columns ++ column ∷ [] }

unfoldable pub update_where_eq : Bytes → UpdateBuilder → UpdateBuilder
update_where_eq column b = record b { where_columns = b.where_columns ++ column ∷ [] }

unfoldable pub build_update : UpdateBuilder → List PgValue → List PgValue → Option SqlFragment
build_update b set_values where_values =
    if length b.set_columns == length set_values && length b.where_columns == length where_values
    then (let f1 =
          push_raw (bytes " SET ")
            (append (push_raw (bytes "UPDATE ") empty) (qualified_ident b.schema b.table)) in
        let f2 = push_each (bytes ", ") push_assignment 0 (zip b.set_columns set_values) f1 in
        let f3 =
          push_each (bytes " AND ") push_assignment 0 (zip b.where_columns where_values)
            (push_raw (bytes " WHERE ") f2) in
        some (push_raw (bytes " RETURNING *") f3))
    else none

pub record DeleteBuilder : Type 0 where
  pub schema : Bytes
  pub table : Bytes
  pub where_columns : List Bytes

unfoldable pub new_delete : Bytes → Bytes → DeleteBuilder
new_delete schema table = record { schema = schema; table = table; where_columns = [] }

unfoldable pub delete_where_eq : Bytes → DeleteBuilder → DeleteBuilder
delete_where_eq column b = record b { where_columns = b.where_columns ++ column ∷ [] }

unfoldable pub build_delete : DeleteBuilder → List PgValue → Option SqlFragment
build_delete b where_values =
    if length b.where_columns == length where_values
    then (let f1 =
          push_raw (bytes " WHERE ")
            (append (push_raw (bytes "DELETE FROM ") empty) (qualified_ident b.schema b.table)) in
        let f2 =
          push_each (bytes " AND ") push_assignment 0 (zip b.where_columns where_values) f1 in
        some (push_raw (bytes " RETURNING *") f2))
    else none

-- `render_fragment`, after a builder that may panic.
abbrev pub render_built : Option SqlFragment → Option (Bytes × List PgValue)
render_built none = none
render_built (some f) = build_sql f
