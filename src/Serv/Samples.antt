-- ===== src/Serv/Samples.antt =====
-- Small runs of crates/magna-serv, and the theorems there.
use magna.Base.{
  Outcome, done, ℕ, ◌+◌, ◌≡◌, ◌≢◌, ◌⊎◌, ◌↔◌, refl, if◌then◌else◌, List, [], ◌∷◌, ◌++◌, Option, none,
  some, map, Bytes, bytes, bytes_eq, ◌==◌, nat_eq, arith,
}
use magna.Serv.PlanCache.{OperationHash, Plans, PlanCache, IsOrder, new_cache, get_or_plan}
use magna.Serv.PlanCache.Runs.{Call, gets, IsBounded, after_calls-IsBounded}
use magna.Serv.PlanCache.Answers.{answer_all, answer_all-eq-map}
use magna.Serv.Operations.{split_whitespace, normalize_operation, normalize_operation_iff}
use magna.Serv.Jwt.{
  custom, role_str, parse_role, extract_bearer_token, ok, JsonApi, Libraries, JwtClaims, decode_jwt,
  from_database, apply_rls_context,
}
use magna.Serv.Jwt.Roles.{
  IsProper, parse_role_inverse, expected_role, Decoded, HasRole, decode_jwt_cases,
  apply_rls_context-decode_jwt,
}
use magna.Serv.Jwt.Tokens.{extract_bearer_token_cases}
use magna.Serv.SchemaRegistry.{
  Server, new_server, current_schema, IsCurrent, reachable-IsCurrent, asks, reloads_to,
}
use magna.Serv.SchemaRegistry

-- Entries are visited in the order of the list.
abbrev in_order : Plans ℕ → Plans ℕ
in_order m = m

in_order-IsOrder : IsOrder in_order
in_order-IsOrder = record {
  entries = λ m e. (λ h. h, λ h. h);
  count = λ m. refl;
  distinct = λ m d. d;
}

abbrev one_plan : PlanCache ℕ
one_plan = record { inner = (7, 70) ∷ []; max_size = 1 }

abbrev two_calls : List (Call ℕ)
two_calls = gets 8 80 ∷ gets 7 70 ∷ []

after_calls-IsBounded_example : IsBounded in_order in_order-IsOrder 1 two_calls
after_calls-IsBounded_example = after_calls-IsBounded in_order in_order-IsOrder 1 two_calls

-- A full cache evicts the plan that is visited first.
evicts_first :
    get_or_plan in_order one_plan 8 80 ≡ (80, record { inner = (8, 80) ∷ []; max_size = 1 })
unfolding get_or_plan
evicts_first = refl

abbrev plan_of : OperationHash → ℕ
plan_of h = h + 1

answer_all-eq-map_example :
    answer_all in_order in_order-IsOrder plan_of (new_cache 1) (3 ∷ 4 ∷ 3 ∷ [])
    ≡ map plan_of (3 ∷ 4 ∷ 3 ∷ [])
answer_all-eq-map_example = answer_all-eq-map in_order in_order-IsOrder plan_of 1 (3 ∷ 4 ∷ 3 ∷ [])

-- White space in a string literal is collapsed as well.
normalized_string :
    normalize_operation (bytes "{a(b:\"x  y\")}") ≡ normalize_operation (bytes "{a(b:\"x y\")}")
unfolding normalize_operation
normalized_string = refl

-- White space is collapsed and not removed.
spaces_apart : normalize_operation (bytes "{a}") ≢ normalize_operation (bytes "{ a }")
unfolding normalize_operation
spaces_apart e = cc (e)

normalize_operation_iff_example :
    ((normalize_operation (bytes "{ a }") ≡ normalize_operation (bytes "{  a }"))
      ↔ (split_whitespace (bytes "{ a }") ≡ split_whitespace (bytes "{  a }")))
    × (split_whitespace (normalize_operation (bytes "{ a }")) ≡ split_whitespace (bytes "{ a }"))
normalize_operation_iff_example = normalize_operation_iff (bytes "{ a }") (bytes "{  a }")

parse_role_inverse_example :
    (role_str (parse_role (bytes "anon")) ≡ bytes "anon")
    × ((parse_role (role_str (custom (bytes "anon"))) ≡ custom (bytes "anon"))
        ↔ IsProper (custom (bytes "anon")))
parse_role_inverse_example = parse_role_inverse (bytes "anon") (custom (bytes "anon"))

-- A JSON value that is its own text, with a role and nothing else.
abbrev role_only : JsonApi Bytes
role_only = record {
  get = λ claims key. if key == bytes "role" then some claims else none;
  as_str = λ value. some value;
  as_i64 = λ value. none;
  empty_object = bytes "{}";
  to_string = λ value. done value;
}

-- Every token is verified, and is its own claims.
abbrev trusting : Libraries Bytes
trusting = record {
  decode = λ token secret. done token;
  parse_uuid = λ text. none;
  uuid_str = λ sub. bytes "nil";
}

decode_jwt_cases_example :
    (source : Option Bytes) × Decoded role_only trusting
      (some (bytes "admin"))
      []
      source
      (decode_jwt role_only trusting (some (bytes "admin")) [] none)
    × HasRole role_only trusting
        (expected_role role_only trusting source none)
        (decode_jwt role_only trusting (some (bytes "admin")) [] none)
decode_jwt_cases_example = decode_jwt_cases role_only trusting (some (bytes "admin")) [] none

abbrev admin : JwtClaims Bytes
admin = record {
  sub = 0;
  role = custom (bytes "admin");
  email = none;
  exp = 0;
  raw = bytes "admin";
}

admin_decoded : decode_jwt role_only trusting (some (bytes "admin")) [] none ≡ ok admin
unfolding decode_jwt
admin_decoded = refl

abbrev accepts : List (Bytes × Bytes) → Outcome Unit
accepts settings = done tt

apply_rls_context-decode_jwt_example :
    (source : Option Bytes) × Decoded role_only trusting (some (bytes "admin")) [] source (ok admin)
    × (apply_rls_context role_only trusting accepts admin
        ≡ from_database (
            accepts (
              (bytes "request.jwt.claims", bytes "admin")
              ∷ (bytes "request.jwt.sub", bytes "nil")
              ∷ (bytes "role", expected_role role_only trusting source none)
              ∷ [])))
apply_rls_context-decode_jwt_example =
    apply_rls_context-decode_jwt role_only trusting accepts (some (bytes "admin")) [] none admin
      (bytes "admin") admin_decoded refl

extract_bearer_token_cases_example :
    ((token : Bytes) × (bytes "Bearer x" ≡ bytes "Bearer " ++ token)
      × (extract_bearer_token (some (bytes "Bearer x")) ≡ some token))
    ⊎ (((token : Bytes) → bytes "Bearer x" ≢ bytes "Bearer " ++ token)
        × (extract_bearer_token (some (bytes "Bearer x")) ≡ some (bytes "Bearer x")))
extract_bearer_token_cases_example = extract_bearer_token_cases (bytes "Bearer x")

-- A request takes the first schema, and then the second is loaded.
abbrev reloaded : Server ℕ
reloaded = record {
  registry = record { current = record { generation = 2; schema = 20 } };
  held = record { generation = 1; schema = 10 } ∷ [];
  reloads = 1;
}

reloaded-Reaches : SchemaRegistry.Reaches (new_server 10) reloaded
unfolding current_schema SchemaRegistry.reload SchemaRegistry.new_registry
reloaded-Reaches =
    SchemaRegistry.Reaches.then_step
      (SchemaRegistry.Reaches.then_step SchemaRegistry.Reaches.here asks) (reloads_to 20)

reachable-IsCurrent_example : IsCurrent reloaded
reachable-IsCurrent_example = reachable-IsCurrent 10 reloaded reloaded-Reaches (omega arith)
