-- ===== src/Serv/Jwt/Tokens.antt =====
-- The token of a request.
use magna.Base.{
  ◌≡◌, ◌≢◌, ◌⊎◌, refl, [], ◌∷◌, ◌++◌, none, some, Bytes, bytes, nat_eq, ◌==◌, eq_of_beq, beq_refl,
  Bool-cases, inl, inr,
}
use magna.Serv.Jwt.{strip_prefix, extract_bearer_token}

strip_prefix_cases :
    (prefix text : Bytes)
    → ((rest : Bytes) × (text ≡ prefix ++ rest) × (strip_prefix prefix text ≡ some rest))
      ⊎ (((rest : Bytes) → text ≢ prefix ++ rest) × (strip_prefix prefix text ≡ none))
unfolding strip_prefix
strip_prefix_cases [] text = inl (text, refl, refl)
strip_prefix_cases (c ∷ cs) [] = inr (λ rest e. cc, refl)
strip_prefix_cases (c ∷ cs) (d ∷ ds) = elim (Bool-cases (c == d)) [
  | inl same ↦ elim (strip_prefix_cases cs ds) [
    | inl (rest, e, f) ↦ inl (rest, cc (e, eq_of_beq c d same), rw (same, strip_prefix) f)
    | inr (never, f) ↦ inr (λ rest e. never rest (cc (e)), rw (same, strip_prefix) f)
  ]
  | inr other ↦ inr (λ rest e. cc (e, other, beq_refl c), rw (other, strip_prefix) refl)
]

-- The token of a header is what stands behind "Bearer " at its start, or the whole header when it
-- does not start so.
pub extract_bearer_token_cases :
    (header : Bytes)
    → ((token : Bytes) × (header ≡ bytes "Bearer " ++ token)
        × (extract_bearer_token (some header) ≡ some token))
      ⊎ (((token : Bytes) → header ≢ bytes "Bearer " ++ token)
          × (extract_bearer_token (some header) ≡ some header))
unfolding extract_bearer_token
extract_bearer_token_cases header = elim (strip_prefix_cases (bytes "Bearer ") header) [
  | inl (token, e, f) ↦ inl (token, e, rw (f, extract_bearer_token) refl)
  | inr (never, f) ↦ inr (never, rw (f, extract_bearer_token) refl)
]
