-- ===== src/Gqlmin/Lex/Runs.antt =====
-- The calls of `next_token` up to `eof` end, with spans in order.
use magna.Base.{
  ℕ, zero, suc, ◌+◌, ◌≤◌, ◌<◌, ◌≡◌, refl, ap, ◌∙◌, inl, inr, true, false, if◌then◌else◌, nat_eq,
  List, [], ◌∷◌, Option, none, some, length, Bytes, arith,
}
use magna.Gqlmin.Token.{is_eof, Token}
use magna.Gqlmin.Lex.{
  Lexer, new_lexer, Step, lexed, failed, next_token, Lexed, tokens, lex_error, lex_all,
}
use magna.Gqlmin.Lex.Steps.{IsInside, Advances, next_token-Advances}

-- The spans of the tokens stand in order behind `from`, and the last token is `eof` at `total`.
pub data IsSpanned (total : ℕ) : ℕ → List Token → Type 0 where
  at_end :
      {from : ℕ} (t : Token)
      → is_eof t.kind ≡ true
      → t.span.start ≡ total
      → t.span.end ≡ total
      → IsSpanned total from (t ∷ [])
  later :
      {from : ℕ} {t : Token} {ts : List Token}
      → is_eof t.kind ≡ false
      → from ≤ t.span.start
      → t.span.start < t.span.end
      → IsSpanned total t.span.end ts
      → IsSpanned total from (t ∷ ts)

abbrev pub IsLexed : ℕ → ℕ → Lexed → Type 0
IsLexed total from (tokens ts) = IsSpanned total from ts
IsLexed total from (lex_error e) = (from ≤ e.span.start) × (e.span.start < total)

IsLexed-weaken :
    (total low from : ℕ) (r : Lexed) → low ≤ from → IsLexed total from r → IsLexed total low r
IsLexed-weaken total low from (lex_error e) h k = (omega (arith, h, k.0), k.1)
IsLexed-weaken total low from (tokens ts) h (at_end t a b c) = at_end t a b c
IsLexed-weaken total low from (tokens ts) h (later a b c rest) =
    later a (omega (arith, h, b)) c rest

-- What `lex_all` makes of a token that is not `eof` and the tokens behind it.
abbrev push : Token → Option Lexed → Option Lexed
push t rest = elim rest [
  | none ↦ none
  | some (lex_error e) ↦ some (lex_error e)
  | some (tokens ts) ↦ some (tokens (t ∷ ts))
]

push-IsLexed :
    (total from : ℕ) (t : Token) (r : Lexed)
    → is_eof t.kind ≡ false
    → from ≤ t.span.start
    → t.span.start < t.span.end
    → IsLexed total t.span.end r
    → (out : Lexed) × (push t (some r) ≡ some out) × IsLexed total from out
push-IsLexed total from t (tokens ts) other low high holds =
    (tokens (t ∷ ts), refl, later other low high holds)
push-IsLexed total from t (lex_error e) other low high holds =
    (lex_error e, refl, (omega (arith, low, high, holds.0), holds.1))

lex_all_from :
    (fuel : ℕ) (lexer : Lexer) (total : ℕ)
    → length lexer.source ≡ total
    → IsInside lexer
    → total < 4294967296
    → total < fuel + lexer.pos
    → (out : Lexed) × (lex_all fuel lexer ≡ some out) × IsLexed total lexer.pos out
unfolding lex_all
lex_all_from zero lexer total e inside small enough = absurd (omega (arith, inside.0, e, enough))
lex_all_from (suc fuel) lexer total e inside small enough =
    by_step (λ after. lex_all_from fuel after total) (next_token lexer)
      (next_token-Advances lexer inside (omega (arith, e, small)))
  where
    by_step :
        (recur : (after : Lexer)
          → length after.source ≡ total
          → IsInside after
          → total < 4294967296
          → total < fuel + after.pos
          → (out : Lexed) × (lex_all fuel after ≡ some out) × IsLexed total after.pos out)
        (s : Step)
        → Advances lexer s
        → (out : Lexed) × (elim s [
          | failed e after ↦ some (lex_error e)
          | lexed t after ↦
              if is_eof t.kind then some (tokens (t ∷ [])) else push t (lex_all fuel after)
        ]
            ≡ some out)
          × IsLexed total lexer.pos out
    by_step recur (failed err after) h = (lex_error err, refl, (h.1.0, omega (arith, h.1.1, e)))
    by_step recur (lexed t after) h = elim h.1 [
      | inl last ↦ rw last.0 (tokens (t ∷ []), refl, at_end t last.0 (last.1 ∙ e) (last.2 ∙ e))
      | inr next ↦
          let moved = h.0 in
          let ih =
            recur after (ap length moved.0 ∙ e)
              (omega (arith, moved.3, ap length moved.0), inl moved.1) small
              (omega (arith, enough, next.1, next.2, next.3)) in
          rw (next.0, ih.1)
            (push-IsLexed total lexer.pos t ih.0 next.0 next.1 next.2
              (IsLexed-weaken total t.span.end after.pos ih.0 (omega (arith, next.3)) ih.2))
    ]

-- Enough fuel for the calls up to `eof` is one more than the source's length: on a source of less
-- than 4 GiB they end. The tokens' spans stand in order without overlap, each but the last has at
-- least one byte and is not `eof`, and the last is `eof` with the empty span at the end; or the
-- calls end in an error whose span begins inside the source.
pub lex_all-IsLexed :
    (source : Bytes)
    → length source < 4294967296
    → (out : Lexed) × (lex_all (suc (length source)) (new_lexer source) ≡ some out)
      × IsLexed (length source) 0 out
unfolding new_lexer
lex_all-IsLexed source small =
    lex_all_from (suc (length source)) (new_lexer source) (length source) refl
      (omega arith, inr refl) small (omega arith)
