-- ===== src/Sql/Samples.antt =====
-- Queries built from small fragments, and the theorems at them.
use magna.Base.{◌≡◌, refl, List, [], ◌∷◌, ◌++◌, none, some, length, Bytes, bytes, arith}
use magna.Types.{PgValue, int, text}
use magna.Sql.Fragment.{
  SqlFragment, extend, shift_part, shift_parts, append, push_raw, join, quote, decimal, build_part,
  build_sql, fragment, param, a_part, no_parts, literal,
}
use magna.Sql.Pieces.{says, holds, values, print, pieces, Denotes}
use magna.Sql.Numbering.{build_sql-eq-print, joined, join-Denotes}
use magna.Sql.Builders.{
  InsertBuilder, UpdateBuilder, DeleteBuilder, build_insert, build_update, build_delete,
  render_built,
}
use magna.Sql.Builders.Safe.{insert-text, update-text, delete-text}
use magna.Sql.Builders.Select.{SqlBuilder, render}
use magna.Sql.Builders.Select.Writes.{meaning}
use magna.Sql.Builders.Select.Renders.{select_pieces, IsPlainBuilder, render-eq-print}
use magna.Sql.Quoting.{read_identifier, read_identifier-quote}

-- `a = $1`
abbrev left_side : SqlFragment
left_side = record {
  parts = a_part (literal (bytes "a = ")) (a_part (param 0) no_parts);
  params = int 1 ∷ [];
}

abbrev right_side : SqlFragment
right_side = record {
  parts = a_part (literal (bytes "b = ")) (a_part (param 0) no_parts);
  params = text (bytes "hello") ∷ [];
}

left-Denotes : Denotes left_side (says (bytes "a = ") ∷ holds (int 1) ∷ [])
unfolding pieces
left-Denotes = refl

right-Denotes : Denotes right_side (says (bytes "b = ") ∷ holds (text (bytes "hello")) ∷ [])
unfolding pieces
right-Denotes = refl

join-sides :
    build_sql (join (bytes " AND ") left_side right_side)
    ≡ some (bytes "a = $1 AND b = $2", int 1 ∷ text (bytes "hello") ∷ [])
unfolding join append push_raw extend shift_parts shift_part build_sql build_part decimal
join-sides = refl

-- A nested fragment that is shifted keeps its store, and its parameter is out of it.
append-nested :
    build_sql (
      append left_side (record {
        parts = a_part (fragment (a_part (param 0) no_parts) (int 5 ∷ [])) no_parts;
        params = [];
      }))
    ≡ none
unfolding append extend shift_parts shift_part build_sql build_part decimal
append-nested = refl

join-Denotes_example : Denotes (join (bytes " AND ") left_side right_side) (
    joined
      (bytes " AND ")
      (says (bytes "a = ") ∷ holds (int 1) ∷ [])
      (says (bytes "b = ") ∷ holds (text (bytes "hello")) ∷ []))
join-Denotes_example =
    join-Denotes (bytes " AND ") left_side right_side _ _ left-Denotes right-Denotes

build_sql-eq-print_example :
    build_sql left_side ≡ some (print 1 (says (bytes "a = ") ∷ holds (int 1) ∷ []), int 1 ∷ [])
build_sql-eq-print_example =
    build_sql-eq-print left_side (says (bytes "a = ") ∷ holds (int 1) ∷ []) left-Denotes

abbrev sample_insert : InsertBuilder
sample_insert = record {
  schema = bytes "app";
  table = bytes "users";
  columns = bytes "id" ∷ bytes "name" ∷ [];
}

insert-text_example :
    (sql : Bytes) × ((vs : List PgValue)
      → 2 ≡ length vs
      → render_built (build_insert sample_insert vs) ≡ some (sql, vs))
insert-text_example = insert-text sample_insert

abbrev sample_update : UpdateBuilder
sample_update = record {
  schema = bytes "app";
  table = bytes "users";
  set_columns = bytes "name" ∷ [];
  where_columns = bytes "id" ∷ [];
}

update-text_example :
    (sql : Bytes) × ((sets wheres : List PgValue)
      → 1 ≡ length sets
      → 1 ≡ length wheres
      → render_built (build_update sample_update sets wheres) ≡ some (sql, sets ++ wheres))
update-text_example = update-text sample_update

abbrev sample_delete : DeleteBuilder
sample_delete = record {
  schema = bytes "app";
  table = bytes "users";
  where_columns = bytes "id" ∷ [];
}

delete-text_example :
    (sql : Bytes) × ((wheres : List PgValue)
      → 1 ≡ length wheres
      → render_built (build_delete sample_delete wheres) ≡ some (sql, wheres))
delete-text_example = delete-text sample_delete

read_identifier-quote_example :
    read_identifier (quote (bytes "a\"b") ++ bytes " = 1") ≡ some (bytes "a\"b", bytes " = 1")
read_identifier-quote_example = read_identifier-quote (bytes "a\"b") (bytes " = 1") (omega arith)

abbrev sample_select : SqlBuilder
sample_select = record {
  schema = bytes "app";
  table = bytes "users";
  table_alias = none;
  columns = record { expr = left_side; alias = some (bytes "x") } ∷ [];
  joins = [];
  where_conditions = right_side ∷ [];
  order_by = [];
  limit_val = some 10;
  offset_val = none;
}

sample_plain : IsPlainBuilder sample_select
unfolding meaning pieces
sample_plain = record { columns = (refl, tt); joins = tt; conditions = (refl, tt); sorts = tt }

render-eq-print_example :
    render sample_select
    ≡ some (print 1 (select_pieces sample_select), values (select_pieces sample_select))
render-eq-print_example = render-eq-print sample_select sample_plain
