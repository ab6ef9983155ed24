-- ===== src/Serv/Jwt/Roles.antt =====
-- The role under which a request runs.
use magna.Base.{
  Outcome, done, failed, ◌≡◌, ◌≢◌, beq_of_ne, ◌↔◌, refl, sym, List, [], ◌∷◌, Option, none, some,
  Bytes, bytes, bytes_eq, nat_eq, ◌==◌, eq_of_beq, Bool-cases, inl, inr, subst,
}
use magna.Serv.Jwt.{
  JwtRole, anon, authenticated, service_role, custom, role_str, parse_role, jwt_error, Result, ok,
  err, JsonApi, Libraries, JwtClaims, unwrap_or, or_option, and_then, decode_jwt, from_database,
  apply_rls_context,
}

-- A custom role does not have the name of another role.
abbrev pub IsProper : JwtRole → Type 0
IsProper (custom s) = (s ≢ bytes "anon") × (s ≢ bytes "authenticated") × (s ≢ bytes "service_role")
IsProper _ = Unit

role_str-parse_role : (s : Bytes) → role_str (parse_role s) ≡ s
unfolding role_str parse_role
role_str-parse_role s = elim (Bool-cases (s == bytes "anon")) [
  | inl a ↦ rw a (sym (eq_of_beq s (bytes "anon") a))
  | inr a ↦ rw a (elim (Bool-cases (s == bytes "authenticated")) [
    | inl b ↦ rw b (sym (eq_of_beq s (bytes "authenticated") b))
    | inr b ↦ rw b (elim (Bool-cases (s == bytes "service_role")) [
      | inl c ↦ rw c (sym (eq_of_beq s (bytes "service_role") c))
      | inr c ↦ rw c refl
    ])
  ])
]

-- A role that is parsed from a name has that name, and parsing the name of a role gives the role
-- back exactly when it is not a custom role with the name of another role.
pub parse_role_inverse :
    (s : Bytes) (r : JwtRole)
    → (role_str (parse_role s) ≡ s) × ((parse_role (role_str r) ≡ r) ↔ IsProper r)
unfolding role_str parse_role
parse_role_inverse s anon = (role_str-parse_role s, (λ e. tt, λ h. refl))
parse_role_inverse s authenticated = (role_str-parse_role s, (λ e. tt, λ h. refl))
parse_role_inverse s service_role = (role_str-parse_role s, (λ e. tt, λ h. refl))
parse_role_inverse s (custom t) = (
  role_str-parse_role s,
  (
    λ e.
        let never : (name : Bytes) → parse_role name ≢ custom name → t ≢ name =
          λ name differs q. differs (subst (λ u. parse_role u ≡ custom u) q e) in
        (
          never (bytes "anon") (λ p. cc),
          never (bytes "authenticated") (λ p. cc),
          never (bytes "service_role") (λ p. cc),
        ),
    λ h.
        rw
          (
            beq_of_ne t (bytes "anon") h.0,
            beq_of_ne t (bytes "authenticated") h.1,
            beq_of_ne t (bytes "service_role") h.2,
          )
          refl,
  ),
)

module _ {Json : Type 0} (json : JsonApi Json) (libraries : Libraries Json) where
  -- The name that stands in the claims under `role`, or else the default, or else "anon".
  abbrev pub expected_role : Option Json → Option Bytes → Bytes
  expected_role source default_role = unwrap_or (bytes "anon") (
      or_option (and_then source (λ claims. and_then (json.get claims (bytes "role")) json.as_str))
        default_role)

  -- What the answer to a token is, and the verified claims that it rests on, if there are any.
  pub data Decoded (token : Option Bytes) (secret : Bytes)
      : Option Json → Result (JwtClaims Json) → Type 0 where
    anonymous :
        {c : JwtClaims Json}
        → token ≡ none
        → c.sub ≡ 0
        → c.email ≡ none
        → Decoded token secret none (ok c)
    verified :
        {t : Bytes} {claims : Json} {c : JwtClaims Json}
        → token ≡ some t
        → libraries.decode t secret ≡ done claims
        → c.raw ≡ claims
        → Decoded token secret (some claims) (ok c)
    refused :
        {t message : Bytes}
        → token ≡ some t
        → libraries.decode t secret ≡ failed message
        → Decoded token secret none (err (jwt_error message))

  abbrev pub HasRole : Bytes → Result (JwtClaims Json) → Type 0
  HasRole role (ok c) = role_str c.role ≡ role
  HasRole role (err e) = Unit

  -- A token that is not verified is refused with the error of the library; without a token the
  -- claims are those of nobody; and the role of the claims is that of the verified token, or else,
  -- without a token too, the default, or else "anon".
  pub decode_jwt_cases :
      (token : Option Bytes) (secret : Bytes) (default_role : Option Bytes)
      → (source : Option Json) × Decoded token secret source
          (decode_jwt json libraries token secret default_role)
        × HasRole
            (expected_role source default_role)
            (decode_jwt json libraries token secret default_role)
  unfolding decode_jwt
  decode_jwt_cases none secret default_role =
      (none, anonymous refl refl refl, role_str-parse_role _)
  decode_jwt_cases (some token) secret default_role = by_decode (libraries.decode token secret) refl
    where
      by_decode :
          (o : Outcome Json)
          → libraries.decode token secret ≡ o
          → (source : Option Json) × Decoded
              (some token)
              secret
              source
              (decode_jwt json libraries (some token) secret default_role)
            × HasRole
                (expected_role source default_role)
                (decode_jwt json libraries (some token) secret default_role)
      by_decode (failed message) e = rw (e, decode_jwt) (none, refused refl e, tt)
      by_decode (done claims) e =
          rw (e, decode_jwt) (some claims, verified refl e refl, role_str-parse_role _)

  -- When the claims of a request are accepted and can be printed, the database is given their
  -- text, their subject, and as its role that of the verified token, or else, without a token
  -- too, the default, or else "anon"; the answer is the database's.
  pub apply_rls_context-decode_jwt :
      (execute : List (Bytes × Bytes) → Outcome Unit) (token : Option Bytes) (secret : Bytes)
      (default_role : Option Bytes) (claims : JwtClaims Json) (text : Bytes)
      → decode_jwt json libraries token secret default_role ≡ ok claims
      → json.to_string claims.raw ≡ done text
      → (source : Option Json) × Decoded token secret source (ok claims)
        × (apply_rls_context json libraries execute claims
            ≡ from_database (
                execute (
                  (bytes "request.jwt.claims", text)
                  ∷ (bytes "request.jwt.sub", libraries.uuid_str claims.sub)
                  ∷ (bytes "role", expected_role source default_role)
                  ∷ [])))
  unfolding apply_rls_context
  apply_rls_context-decode_jwt execute token secret default_role claims text e printed =
      let (source, decoded, role) = decode_jwt_cases token secret default_role in
      let role' : role_str claims.role ≡ expected_role source default_role =
        subst (HasRole (expected_role source default_role)) e role in
      (
        source,
        subst (Decoded token secret source) e decoded,
        rw (printed, apply_rls_context, role') refl,
      )
