-- ===== src/Gqlmin/Lex/Strings.antt =====
-- The scanners of strings and of the spread stay within the source.
use magna.Base.{ℕ, zero, suc, ◌+◌, ◌≤◌, nat_eq, ◌==◌, [], ◌∷◌, length, Bytes, arith}
use magna.Gqlmin.Token.{invalid_escape, is_eof}
use magna.Gqlmin.Scan.{
  Scan, error, drop, is_simple_escape, lex_spread, lex_block, check_hex, HexCheck, all_hex, missing,
  not_hex, lex_escape, lex_body, lex_string,
}
use magna.Gqlmin.Lex.Bounds.{Fits, either_Fits}

pub lex_spread-Fits : (bs : Bytes) → Fits 1 (length bs) (lex_spread bs)
unfolding lex_spread is_eof
lex_spread-Fits [] = omega arith
lex_spread-Fits (b ∷ []) = omega arith
lex_spread-Fits (b ∷ c ∷ []) = ground arith
lex_spread-Fits (b ∷ c ∷ d ∷ bs) = ground arith

lex_block-Fits :
    (skip n total : ℕ) (bs : Bytes)
    → 1 ≤ n
    → n + length bs ≤ total
    → Fits 1 total (lex_block skip n bs)
unfolding lex_block is_eof
lex_block-Fits skip n total [] h k = omega (arith, k)
lex_block-Fits (suc skip) n total (b ∷ bs) h k =
    lex_block-Fits skip (n + 1) total bs (omega (arith, h)) (omega (arith, k))
lex_block-Fits zero n total (b ∷ bs) h k =
    let escaped = lex_block-Fits 3 (n + 1) total bs (omega (arith, h)) (omega (arith, k)) in
    let next = lex_block-Fits 0 (n + 1) total bs (omega (arith, h)) (omega (arith, k)) in
    closed bs k escaped next
  where
    closed :
        (bs : Bytes)
        → n + length (b ∷ bs) ≤ total
        → Fits 1 total (lex_block 3 (n + 1) bs)
        → Fits 1 total (lex_block 0 (n + 1) bs)
        → Fits 1 total (lex_block 0 n (b ∷ bs))
    closed [] k escaped next = ground (arith, escaped, next)
    closed (c ∷ []) k escaped next = ground (arith, escaped, next)
    closed (c ∷ d ∷ bs) k escaped next = ground (arith, escaped, next, k)

lex_escape-Fits :
    (n total : ℕ) (bs : Bytes) (next unicode : Scan)
    → n ≤ total
    → Fits 1 total next
    → Fits 1 total unicode
    → Fits 1 total (lex_escape n bs next unicode)
unfolding lex_escape
lex_escape-Fits n total [] next unicode k h h' = k
lex_escape-Fits n total (esc ∷ bs) next unicode k h h' =
    either_Fits (is_simple_escape esc) _ _ 1 total h
      (either_Fits (esc == 117) _ _ 1 total (checked (check_hex 4 2 bs)) k)
  where
    checked :
        (c : HexCheck)
        → Fits 1 total (elim c [
          | all_hex ↦ unicode
          | missing ↦ error invalid_escape n n
          | not_hex i ↦ error invalid_escape (n + i) n
        ])
    checked all_hex = h'
    checked missing = k
    checked (not_hex i) = k

lex_body-Fits :
    (skip n total : ℕ) (bs : Bytes)
    → 1 ≤ n
    → n + length bs ≤ total
    → Fits 1 total (lex_body skip n bs)
unfolding lex_body is_eof
lex_body-Fits skip n total [] h k = omega (arith, k)
lex_body-Fits (suc skip) n total (b ∷ bs) h k =
    lex_body-Fits skip (n + 1) total bs (omega (arith, h)) (omega (arith, k))
lex_body-Fits zero n total (b ∷ bs) h k =
    let next = lex_body-Fits 0 (n + 1) total bs (omega (arith, h)) (omega (arith, k)) in
    let simple = lex_body-Fits 1 (n + 1) total bs (omega (arith, h)) (omega (arith, k)) in
    let unicode = lex_body-Fits 5 (n + 1) total bs (omega (arith, h)) (omega (arith, k)) in
    let escape =
      lex_escape-Fits n total bs (lex_body 1 (n + 1) bs) (lex_body 5 (n + 1) bs) (omega (arith, k))
        simple unicode in
    ground (arith, next, escape, k)

pub lex_string-Fits : (b : ℕ) (bs : Bytes) → Fits 1 (suc (length bs)) (lex_string (b ∷ bs))
unfolding lex_string drop
lex_string-Fits b [] = lex_body-Fits 0 1 1 [] (omega arith) (omega arith)
lex_string-Fits b (c ∷ []) =
    let body = lex_body-Fits 0 1 2 (c ∷ []) (omega arith) (omega arith) in ground (arith, body)
lex_string-Fits b (c ∷ d ∷ bs) =
    let body =
      lex_body-Fits 0 1 (suc (suc (suc (length bs)))) (c ∷ d ∷ bs) (omega arith) (omega arith) in
    let block = lex_block-Fits 0 3 (suc (suc (suc (length bs)))) bs (omega arith) (omega arith) in
    ground (arith, body, block)
