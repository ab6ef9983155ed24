-- ===== src/Types.antt =====
-- crates/magna-types/src/pg.rs: the values that are bound to the parameters of a query.
-- A number of 64 bits stands for its bit pattern, a uuid and a timestamp for their numbers, and a
-- JSON document for its text.
use magna.Base.{ℕ, Bool, true, false, Option, none, some, Bytes}

mutual
  pub data PgValue : Type 0 where
    null : PgValue
    bool : Bool → PgValue
    int : ℕ → PgValue
    float : ℕ → PgValue
    text : Bytes → PgValue
    uuid : ℕ → PgValue
    timestamp : ℕ → PgValue
    json : Bytes → PgValue
    array : PgValues → PgValue

  pub data PgValues : Type 0 where
    no_values : PgValues
    a_value : PgValue → PgValues → PgValues

unfoldable pub is_null_value : PgValue → Bool
is_null_value null = true
is_null_value _ = false

unfoldable pub as_text : PgValue → Option Bytes
as_text (text s) = some s
as_text _ = none

unfoldable pub as_i64 : PgValue → Option ℕ
as_i64 (int n) = some n
as_i64 _ = none

unfoldable pub as_bool : PgValue → Option Bool
as_bool (bool b) = some b
as_bool _ = none
