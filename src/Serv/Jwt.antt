-- ===== src/Serv/Jwt.antt =====
-- crates/magna-serv/src/jwt.rs and rls.rs, crates/magna-types/src/auth.rs: the claims of a request,
-- and the settings under which the database applies its row-level security. JSON values, the
-- verification of tokens, uuids and the database are parameters; a text is its bytes.
pub mod Roles
pub mod Tokens
use magna.Base.{
  Outcome, done, failed, ℕ, ◌≡◌, Bool, true, false, if◌then◌else◌, List, [], ◌∷◌, Option, none,
  some, Bytes, bytes, bytes_eq, nat_eq, ◌==◌,
}

pub data JwtRole : Type 0 where
  anon authenticated service_role : JwtRole
  custom : Bytes → JwtRole

-- The role's `as_str`.
unfoldable pub role_str : JwtRole → Bytes
role_str anon = bytes "anon"
role_str authenticated = bytes "authenticated"
role_str service_role = bytes "service_role"
role_str (custom s) = s

unfoldable pub parse_role : Bytes → JwtRole
parse_role role =
    if role == bytes "anon"
    then anon
    else if role == bytes "authenticated"
    then authenticated
    else if role == bytes "service_role"
    then service_role
    else custom role

-- `strip_prefix`
unfoldable pub strip_prefix : Bytes → Bytes → Option Bytes
strip_prefix [] text = some text
strip_prefix (c ∷ cs) [] = none
strip_prefix (c ∷ cs) (d ∷ ds) = let rest = strip_prefix cs ds in if c == d then rest else none

unfoldable pub extract_bearer_token : Option Bytes → Option Bytes
unfolding strip_prefix
extract_bearer_token none = none
extract_bearer_token (some header) = elim (strip_prefix (bytes "Bearer ") header) [
  | some token ↦ some token
  | none ↦ some header
]

pub data ServError : Type 0 where
  jwt_error database_error schema_error web_socket_error config_error : Bytes → ServError

pub data Result (A : Type 0) : Type 0 where
  ok : A → Result A
  err : ServError → Result A

-- What the code uses of `serde_json::Value`; a number of 64 bits is its bit pattern.
pub record JsonApi (Json : Type 0) : Type 0 where
  pub get : Json → Bytes → Option Json
  pub as_str : Json → Option Bytes
  pub as_i64 : Json → Option ℕ
  pub empty_object : Json
  pub to_string : Json → Outcome Bytes

-- `decode` of the crate jsonwebtoken, with the algorithm HS256 and the check of expiry, and
-- `Uuid::parse_str` and its text; the nil uuid is 0.
pub record Libraries (Json : Type 0) : Type 0 where
  pub decode : Bytes → Bytes → Outcome Json
  pub parse_uuid : Bytes → Option ℕ
  pub uuid_str : ℕ → Bytes

pub record JwtClaims (Json : Type 0) : Type 0 where
  pub sub : ℕ
  pub role : JwtRole
  pub email : Option Bytes
  pub exp : ℕ
  pub raw : Json

abbrev pub unwrap_or : {A : Type 0} → A → Option A → A
unwrap_or default none = default
unwrap_or default (some a) = a

abbrev pub or_option : {A : Type 0} → Option A → Option A → Option A
or_option none other = other
or_option (some a) other = some a

abbrev pub and_then : {A B : Type 0} → Option A → (A → Option B) → Option B
and_then none f = none
and_then (some a) f = f a

unfoldable pub from_database : Outcome Unit → Result Unit
from_database (failed message) = err (database_error message)
from_database (done u) = ok u

module _ {Json : Type 0} (json : JsonApi Json) (libraries : Libraries Json) where
  unfoldable pub decode_jwt : Option Bytes → Bytes → Option Bytes → Result (JwtClaims Json)
  unfolding parse_role
  decode_jwt none secret default_role = ok (record {
    sub = 0;
    role = parse_role (unwrap_or (bytes "anon") default_role);
    email = none;
    exp = 0;
    raw = json.empty_object;
  })
  decode_jwt (some token) secret default_role = elim (libraries.decode token secret) [
    | failed message ↦ err (jwt_error message)
    | done claims ↦ ok (record {
      sub =
          unwrap_or 0
            (and_then (and_then (json.get claims (bytes "sub")) json.as_str) libraries.parse_uuid);
      role = parse_role (
          unwrap_or (bytes "anon")
            (or_option (and_then (json.get claims (bytes "role")) json.as_str) default_role));
      email = and_then (json.get claims (bytes "email")) json.as_str;
      exp = unwrap_or 0 (and_then (json.get claims (bytes "exp")) json.as_i64);
      raw = claims;
    })
  ]

  -- The three settings of a transaction, and what becomes of them at the database.
  unfoldable pub apply_rls_context :
      (List (Bytes × Bytes) → Outcome Unit) → JwtClaims Json → Result Unit
  unfolding role_str from_database
  apply_rls_context execute claims = elim (json.to_string claims.raw) [
    | failed message ↦ err (config_error message)
    | done text ↦ from_database (
        execute (
          (bytes "request.jwt.claims", text)
          ∷ (bytes "request.jwt.sub", libraries.uuid_str claims.sub)
          ∷ (bytes "role", role_str claims.role)
          ∷ []))
  ]
