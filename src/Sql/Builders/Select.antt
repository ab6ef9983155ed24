-- ===== src/Sql/Builders/Select.antt =====
-- crates/magna-sql/src/builder.rs: the SELECT builder.
pub mod Writes
pub mod Renders
use magna.Base.{
  ℕ, Bool, true, false, if◌then◌else◌, List, [], ◌∷◌, ◌++◌, Option, none, some, Bytes, bytes,
}
use magna.Types.{PgValue, int}
use magna.Sql.Fragment.{
  SqlFragment, raw, param_of, ident, qualified_ident, empty, append, push_raw, build_sql,
}
use magna.Sql.Builders.{push_each}

pub data JoinType : Type 0 where
  inner left right full : JoinType

unfoldable pub as_sql : JoinType → Bytes
as_sql inner = bytes "INNER JOIN"
as_sql left = bytes "LEFT JOIN"
as_sql right = bytes "RIGHT JOIN"
as_sql full = bytes "FULL JOIN"

pub record JoinClause : Type 0 where
  pub join_type : JoinType
  pub table : SqlFragment
  pub alias : Option Bytes
  pub on : SqlFragment

unfoldable pub new_join : JoinType → SqlFragment → SqlFragment → JoinClause
new_join join_type table on = record { join_type = join_type; table = table; alias = none; on = on }

unfoldable pub join_alias : Bytes → JoinClause → JoinClause
join_alias alias clause = record clause { alias = some alias }

pub record OrderByItem : Type 0 where
  pub column : SqlFragment
  pub ascending : Bool

pub record ColumnExpr : Type 0 where
  pub expr : SqlFragment
  pub alias : Option Bytes

-- The limit and the offset are bit patterns of `i64`s.
pub record SqlBuilder : Type 0 where
  pub schema : Bytes
  pub table : Bytes
  pub table_alias : Option Bytes
  pub columns : List ColumnExpr
  pub joins : List JoinClause
  pub where_conditions : List SqlFragment
  pub order_by : List OrderByItem
  pub limit_val : Option ℕ
  pub offset_val : Option ℕ

unfoldable pub from_table : Bytes → Bytes → SqlBuilder
from_table schema table = record {
  schema = schema;
  table = table;
  table_alias = none;
  columns = [];
  joins = [];
  where_conditions = [];
  order_by = [];
  limit_val = none;
  offset_val = none;
}

unfoldable pub with_table_alias : Bytes → SqlBuilder → SqlBuilder
with_table_alias alias b = record b { table_alias = some alias }

unfoldable pub with_column : SqlFragment → Option Bytes → SqlBuilder → SqlBuilder
with_column expr alias b = record b {
  columns = b.columns ++ record { expr = expr; alias = alias } ∷ [];
}

unfoldable pub column_star : SqlBuilder → SqlBuilder
column_star b = record b {
  columns = b.columns ++ record { expr = raw (bytes "*"); alias = none } ∷ [];
}

unfoldable pub where_clause : SqlFragment → SqlBuilder → SqlBuilder
where_clause cond b = record b { where_conditions = b.where_conditions ++ cond ∷ [] }

unfoldable pub with_join : JoinClause → SqlBuilder → SqlBuilder
with_join clause b = record b { joins = b.joins ++ clause ∷ [] }

unfoldable pub with_order_by : SqlFragment → Bool → SqlBuilder → SqlBuilder
with_order_by col ascending b = record b {
  order_by = b.order_by ++ record { column = col; ascending = ascending } ∷ [];
}

unfoldable pub with_limit : ℕ → SqlBuilder → SqlBuilder
with_limit n b = record b { limit_val = some n }

unfoldable pub with_offset : ℕ → SqlBuilder → SqlBuilder
with_offset n b = record b { offset_val = some n }

-- `if let Some(alias)`
unfoldable pub push_alias : Option Bytes → SqlFragment → SqlFragment
push_alias none f = f
push_alias (some alias) f = append (push_raw (bytes " AS ") f) (ident alias)

unfoldable pub push_column : ColumnExpr → SqlFragment → SqlFragment
push_column col f = push_alias col.alias (append f col.expr)

unfoldable pub push_columns : List ColumnExpr → SqlFragment → SqlFragment
push_columns [] f = push_raw (bytes "*") f
push_columns (col ∷ cols) f = push_each (bytes ", ") push_column 0 (col ∷ cols) f

unfoldable pub push_join : JoinClause → SqlFragment → SqlFragment
push_join j f =
    append
      (push_raw (bytes " ON ") (
        push_alias j.alias (
          append (push_raw (bytes " ") (push_raw (as_sql j.join_type) (push_raw (bytes " ") f)))
            j.table)))
      j.on

unfoldable pub push_joins : List JoinClause → SqlFragment → SqlFragment
push_joins [] f = f
push_joins (j ∷ js) f = push_joins js (push_join j f)

-- Each condition stands in parentheses.
unfoldable pub push_condition : SqlFragment → SqlFragment → SqlFragment
push_condition cond f = push_raw (bytes ")") (append (push_raw (bytes "(") f) cond)

unfoldable pub push_where : List SqlFragment → SqlFragment → SqlFragment
push_where [] f = f
push_where (c ∷ cs) f =
    push_each (bytes " AND ") push_condition 0 (c ∷ cs) (push_raw (bytes " WHERE ") f)

unfoldable pub push_order_item : OrderByItem → SqlFragment → SqlFragment
push_order_item item f =
    push_raw (if item.ascending then bytes " ASC" else bytes " DESC") (append f item.column)

unfoldable pub push_order_by : List OrderByItem → SqlFragment → SqlFragment
push_order_by [] f = f
push_order_by (o ∷ os) f =
    push_each (bytes ", ") push_order_item 0 (o ∷ os) (push_raw (bytes " ORDER BY ") f)

-- `LIMIT` and `OFFSET` bind their numbers as parameters.
unfoldable pub push_number : Bytes → Option ℕ → SqlFragment → SqlFragment
push_number word none f = f
push_number word (some n) f = append (push_raw word f) (param_of (int n))

unfoldable pub build_select : SqlBuilder → SqlFragment
build_select b =
    let selected = push_columns b.columns (push_raw (bytes "SELECT ") empty) in
    let source =
      push_alias b.table_alias
        (append (push_raw (bytes " FROM ") selected) (qualified_ident b.schema b.table)) in
    let filtered = push_where b.where_conditions (push_joins b.joins source) in
    let sorted = push_order_by b.order_by filtered in
    push_number (bytes " OFFSET ") b.offset_val (push_number (bytes " LIMIT ") b.limit_val sorted)

-- `render::render`
unfoldable pub render : SqlBuilder → Option (Bytes × List PgValue)
render b = build_sql (build_select b)
