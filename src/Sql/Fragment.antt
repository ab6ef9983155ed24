-- ===== src/Sql/Fragment.antt =====
-- crates/magna-sql/src/fragment.rs: a fragment is a list of parts and a store of parameter values,
-- and its parameters are numbered when it is built. Texts are lists of bytes. A parameter index
-- out of the store panics, which is `none` here.
use magna.Base.{
  ℕ, zero, suc, ◌+◌, ◌/◌, ◌%◌, Bool, true, false, if◌then◌else◌, nat_eq, ◌==◌, List, [], ◌∷◌, ◌++◌,
  Option, none, some, length, get_elem?, ltb, Bytes, bytes,
}
use magna.Types.{PgValue}

-- The list of parts is a type of its own, since a part may hold a nested fragment: its parts and
-- its own store.
mutual
  pub data SqlPart : Type 0 where
    literal : Bytes → SqlPart
    param : ℕ → SqlPart
    fragment : SqlParts → List PgValue → SqlPart
    identifier : Bytes → SqlPart

  pub data SqlParts : Type 0 where
    no_parts : SqlParts
    a_part : SqlPart → SqlParts → SqlParts

pub record SqlFragment : Type 0 where
  pub parts : SqlParts
  pub params : List PgValue

-- `parts.extend(more)`
unfoldable pub extend : SqlParts → SqlParts → SqlParts
extend no_parts more = more
extend (a_part p parts) more = a_part p (extend parts more)

abbrev pub one : SqlPart → SqlParts
one p = a_part p no_parts

abbrev pub is_empty : SqlParts → Bool
is_empty no_parts = true
is_empty (a_part p parts) = false

unfoldable pub raw : Bytes → SqlFragment
raw s = record { parts = one (literal s); params = [] }

unfoldable pub param_of : PgValue → SqlFragment
param_of v = record { parts = one (param 0); params = v ∷ [] }

unfoldable pub ident : Bytes → SqlFragment
ident name = record { parts = one (identifier name); params = [] }

unfoldable pub qualified_ident : Bytes → Bytes → SqlFragment
qualified_ident schema name = record {
  parts = a_part (identifier schema) (a_part (literal (bytes ".")) (one (identifier name)));
  params = [];
}

unfoldable pub empty : SqlFragment
empty = record { parts = no_parts; params = [] }

-- `shift_parts` returns its argument for the offset 0. A nested fragment keeps its own store.
unfoldable mutual
  pub shift_part : ℕ → SqlPart → SqlPart
  shift_part offset (literal s) = literal s
  shift_part offset (param i) = param (i + offset)
  shift_part offset (fragment parts params) = fragment (shift_each offset parts) params
  shift_part offset (identifier s) = identifier s

  pub shift_each : ℕ → SqlParts → SqlParts
  shift_each offset no_parts = no_parts
  shift_each offset (a_part p parts) = a_part (shift_part offset p) (shift_each offset parts)

unfoldable pub shift_parts : SqlParts → ℕ → SqlParts
unfolding shift_each
shift_parts parts offset = if offset == 0 then parts else shift_each offset parts

unfoldable pub append : SqlFragment → SqlFragment → SqlFragment
unfolding shift_parts
append self other = record {
  parts = extend self.parts (shift_parts other.parts (length self.params));
  params = self.params ++ other.params;
}

unfoldable pub push_raw : Bytes → SqlFragment → SqlFragment
push_raw s self = record self { parts = extend self.parts (one (literal s)) }

unfoldable pub join : Bytes → SqlFragment → SqlFragment → SqlFragment
unfolding append push_raw
join separator self other =
    let between =
      if is_empty self.parts
      then self
      else if is_empty other.parts
      then self
      else push_raw separator self in
    append between other

-- `s.replace('"', "\"\"")`
unfoldable pub escape : Bytes → Bytes
escape [] = []
escape (c ∷ s) = let rest = escape s in if c == 34 then 34 ∷ 34 ∷ rest else c ∷ rest

unfoldable pub quote : Bytes → Bytes
unfolding escape
quote s = 34 ∷ escape s ++ 34 ∷ []

-- `counter.to_string()`: a number below ten is its digit, and `n` steps are enough for `n`.
decimal_from : ℕ → ℕ → Bytes
decimal_from zero n = ((n % 10) + 48) ∷ []
decimal_from (suc fuel) n =
    let rest = decimal_from fuel (n / 10) in
    if ltb n 10 then (n + 48) ∷ [] else rest ++ ((n % 10) + 48) ∷ []

unfoldable pub decimal : ℕ → Bytes
unfolding decimal_from
decimal n = decimal_from n n

-- What `build_inner` writes to: the text, the values in order, and the next number.
pub record BuildState : Type 0 where
  pub sql : Bytes
  pub params : List PgValue
  pub counter : ℕ

abbrev pub put : Bytes → BuildState → BuildState
put s st = record st { sql = st.sql ++ s }

unfoldable mutual
  unfolding quote decimal

  pub build_part : SqlPart → List PgValue → BuildState → Option BuildState
  build_part (literal s) store st = some (put s st)
  build_part (identifier s) store st = some (put (quote s) st)
  build_part (param i) store st = elim (get_elem? store i) [
    | none ↦ none
    | some v ↦ some (record {
      sql = st.sql ++ 36 ∷ decimal st.counter;
      params = st.params ++ v ∷ [];
      counter = st.counter + 1;
    })
  ]
  build_part (fragment parts params) store st = build_inner parts params st

  pub build_inner : SqlParts → List PgValue → BuildState → Option BuildState
  build_inner no_parts store st = some st
  build_inner (a_part p parts) store st = elim (build_part p store st) [
    | none ↦ none
    | some next ↦ build_inner parts store next
  ]

unfoldable pub build_sql : SqlFragment → Option (Bytes × List PgValue)
build_sql f = elim (build_inner f.parts f.params (record { sql = []; params = []; counter = 1 })) [
  | none ↦ none
  | some st ↦ some (st.sql, st.params)
]
