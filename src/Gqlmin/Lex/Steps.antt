-- ===== src/Gqlmin/Lex/Steps.antt =====
-- A call of `next_token` moves the cursor forward inside the source.
use magna.Base.{
  ℕ, suc, ◌+◌, ◌≤◌, ◌<◌, ◌≡◌, ◌⊎◌, refl, inl, inr, Bool, true, false, ◌&&◌, if◌then◌else◌, nat_eq,
  ◌==◌, [], ◌∷◌, Option, none, some, length, Bytes, arith, Bool-cases,
}
use magna.Gqlmin.Token.{
  TokenKind, bang, dollar, amp, l_paren, r_paren, colon, equals, at_sign, l_bracket, r_bracket,
  l_brace, pipe, r_brace, is_eof, Token, unexpected_char,
}
use magna.Gqlmin.Scan.{
  Scan, token, error, drop, has_at, insignificant, lex_spread, lex_name, lex_number, lex_string,
  is_name_start, is_digit,
}
use magna.Gqlmin.Lex.{
  Lexer, single_kind, scan_token, Step, lexed, failed, start_pos, step_of, step_at, next_token,
}
use magna.Gqlmin.Lex.Bounds.{
  Fits, either_Fits, insignificant-bound, length-drop, lex_number-Fits, lex_name-Fits,
}
use magna.Gqlmin.Lex.Strings.{lex_spread-Fits, lex_string-Fits}

ends : Option TokenKind → Bool
unfolding is_eof
ends none = false
ends (some kind) = is_eof kind

either_ends :
    (c : Bool) (kind : TokenKind) (other : Option TokenKind)
    → is_eof kind ≡ false
    → ends other ≡ false
    → ends (if c then some kind else other) ≡ false
unfolding ends
either_ends true kind other h k = h
either_ends false kind other h k = k

single_kind-ends : (b : ℕ) → ends (single_kind b) ≡ false
unfolding single_kind is_eof ends
single_kind-ends b = either_ends (b == 33) bang _ refl (
    either_ends (b == 36) dollar _ refl (
      either_ends (b == 38) amp _ refl (
        either_ends (b == 40) l_paren _ refl (
          either_ends (b == 41) r_paren _ refl (
            either_ends (b == 58) colon _ refl (
              either_ends (b == 61) equals _ refl (
                either_ends (b == 64) at_sign _ refl (
                  either_ends (b == 91) l_bracket _ refl (
                    either_ends (b == 93) r_bracket _ refl (
                      either_ends (b == 123) l_brace _ refl (
                        either_ends (b == 124) pipe _ refl
                          (either_ends (b == 125) r_brace _ refl refl))))))))))))

scan_token-Fits : (b : ℕ) (rest : Bytes) → Fits 1 (suc (length rest)) (scan_token b rest)
unfolding scan_token is_eof ends
scan_token-Fits b rest = by_kind (single_kind b) (single_kind-ends b)
  where
    other : Fits 1 (suc (length rest)) (
        if b == 46
        then lex_spread (b ∷ rest)
        else if is_name_start b
        then lex_name (b ∷ rest)
        else if b == 45
        then lex_number (b ∷ rest)
        else if is_digit b
        then lex_number (b ∷ rest)
        else if b == 34
        then lex_string (b ∷ rest)
        else error unexpected_char 1 0)
    other = either_Fits (b == 46) _ _ 1 _ (lex_spread-Fits (b ∷ rest)) (
        either_Fits (is_name_start b) _ _ 1 _ (lex_name-Fits b rest) (
          either_Fits (b == 45) _ _ 1 _ (lex_number-Fits (b ∷ rest)) (
            either_Fits (is_digit b) _ _ 1 _ (lex_number-Fits (b ∷ rest))
              (either_Fits (b == 34) _ _ 1 _ (lex_string-Fits b rest) (omega arith)))))

    by_kind :
        (k : Option TokenKind)
        → ends k ≡ false
        → Fits 1 (suc (length rest)) (elim k [
          | some kind ↦ token kind 1
          | none ↦
              if b == 46
              then lex_spread (b ∷ rest)
              else if is_name_start b
              then lex_name (b ∷ rest)
              else if b == 45
              then lex_number (b ∷ rest)
              else if is_digit b
              then lex_number (b ∷ rest)
              else if b == 34
              then lex_string (b ∷ rest)
              else error unexpected_char 1 0
        ])
    by_kind (some kind) h = (omega arith, omega arith, h)
    by_kind none h = other

-- The cursor stands in the source, at its beginning before the first call.
abbrev pub IsInside : Lexer → Type 0
IsInside lexer = (lexer.pos ≤ length lexer.source) × ((lexer.started ≡ true) ⊎ (lexer.pos ≡ 0))

-- The token is the `eof` behind the source, or begins at or after `from` and ends at `to`.
abbrev pub IsNext : ℕ → ℕ → ℕ → Token → Type 0
IsNext from to total t =
    ((is_eof t.kind ≡ true) × (t.span.start ≡ total) × (t.span.end ≡ total))
    ⊎ ((is_eof t.kind ≡ false)
        × (from ≤ t.span.start)
        × (t.span.start < t.span.end)
        × (t.span.end ≡ to))

abbrev pub Moved : Lexer → Lexer → Type 0
Moved lexer after =
    (after.source ≡ lexer.source)
    × (after.started ≡ true)
    × (lexer.pos ≤ after.pos)
    × (after.pos ≤ length lexer.source)

abbrev pub Advances : Lexer → Step → Type 0
Advances lexer (lexed t after) =
    Moved lexer after × IsNext lexer.pos after.pos (length lexer.source) t
Advances lexer (failed e after) =
    Moved lexer after × ((lexer.pos ≤ e.span.start) × (e.span.start < length lexer.source))

step_of-Advances :
    (lexer : Lexer) (start n : ℕ) (s : Scan)
    → lexer.pos ≤ start
    → start + suc n ≡ length lexer.source
    → length lexer.source < 4294967296
    → Fits 1 (suc n) s
    → Advances lexer (step_of lexer.source start s)
unfolding step_of
step_of-Advances lexer start n (token kind k) h e small fits =
    let low = fits.0 in
    let high = fits.1 in
    (
      (refl, refl, omega (arith, h), omega (arith, e, high)),
      inr (
        fits.2,
        omega (arith, h, e, small),
        omega (arith, e, small, low, high),
        omega (arith, e, small, high),
      ),
    )
step_of-Advances lexer start n (error kind end k) h e small fits = (
  (refl, refl, omega (arith, h), omega (arith, e, fits)),
  (omega (arith, h, e, small), omega (arith, e, small)),
)

step_at-Advances :
    (lexer : Lexer) (start : ℕ) (bs : Bytes)
    → lexer.pos ≤ start
    → start + length bs ≡ length lexer.source
    → length lexer.source < 4294967296
    → Advances lexer (step_at lexer.source start bs)
unfolding step_at step_of is_eof
step_at-Advances lexer start [] h e small = (
  (refl, refl, omega (arith, h), omega (arith, e)),
  inl (refl, omega (arith, e, small), omega (arith, e, small)),
)
step_at-Advances lexer start (b ∷ rest) h e small =
    step_of-Advances lexer start (length rest) (scan_token b rest) h e small
      (scan_token-Fits b rest)

three_bytes : (bs : Bytes) (test : ℕ → Bool) → has_at bs 2 test ≡ true → 3 ≤ length bs
three_bytes [] test h = ground (arith, h)
three_bytes (a ∷ []) test h = ground (arith, h)
three_bytes (a ∷ b ∷ []) test h = ground (arith, h)
three_bytes (a ∷ b ∷ c ∷ bs) test h = omega arith

last_holds : (a b c : Bool) → a && b && c ≡ true → c ≡ true
last_holds true true c h = h
last_holds true false c h = ground (arith, h)
last_holds false b c h = ground (arith, h)

start_pos-bound :
    (lexer : Lexer)
    → IsInside lexer
    → (lexer.pos ≤ start_pos lexer) × (start_pos lexer ≤ length lexer.source)
unfolding start_pos
start_pos-bound lexer inside = elim (Bool-cases lexer.started) [
  | inl e ↦ rw e (omega arith, inside.0)
  | inr e ↦ elim inside.1 [
    | inl started ↦ absurd (ground (arith, e, started))
    | inr zero_pos ↦ rw e (
        first zero_pos _ (λ h.
          three_bytes lexer.source (λ b. b == 191)
            (last_holds (has_at lexer.source 0 (λ b. b == 239))
              (has_at lexer.source 1 (λ b. b == 187)) _ h)))
  ]
]
  where
    first :
        (zero_pos : lexer.pos ≡ 0) (mark : Bool)
        → (mark ≡ true → 3 ≤ length lexer.source)
        → (lexer.pos ≤ (if mark then lexer.pos + 3 else lexer.pos))
          × ((if mark then lexer.pos + 3 else lexer.pos) ≤ length lexer.source)
    first zero_pos true h = let three = h refl in (omega arith, omega (arith, three, zero_pos))
    first zero_pos false h = (omega arith, inside.0)

-- On a source of less than 4 GiB, `next_token` keeps the source and moves a cursor in the source
-- forward, to at most the source's end. The token is `eof` with the empty span at the end, or has
-- a span of at least one byte that begins at or after the old cursor and ends at the new one; an
-- error's span begins at a byte of the source at or after the old cursor.
pub next_token-Advances :
    (lexer : Lexer)
    → IsInside lexer
    → length lexer.source < 4294967296
    → Advances lexer (next_token lexer)
unfolding next_token
next_token-Advances lexer inside small =
    let at = start_pos lexer in
    let bound = start_pos-bound lexer inside in
    let low = bound.0 in
    let rest = length-drop at lexer.source bound.1 in
    let skipped = insignificant-bound false (drop at lexer.source) in
    let start = at + insignificant false (drop at lexer.source) in
    step_at-Advances lexer start (drop start lexer.source) (omega (arith, low))
      (length-drop start lexer.source (omega (arith, rest, skipped))) small
