-- ===== src/Sql/Quoting.antt =====
-- A quoted identifier against the way in which a server reads it back.
use magna.Base.{
  ℕ, ◌≡◌, ◌≢◌, refl, sym, ap, ◌∙◌, inl, inr, Bool, true, false, if◌then◌else◌, nat_eq, ◌==◌,
  beq_of_ne, eq_of_beq, [], ◌∷◌, ◌++◌, append_assoc, Option, none, some, Bytes, Bool-cases,
}
use magna.Sql.Fragment.{escape, quote}

abbrev pub put_front : ℕ → Option (Bytes × Bytes) → Option (Bytes × Bytes)
put_front c none = none
put_front c (some (name, rest)) = some (c ∷ name, rest)

-- The name up to the closing quote, and what follows; the flag says that the last byte was a quote
-- that may close the name or be the first of two.
unfoldable pub read_name : Bool → Bytes → Option (Bytes × Bytes)
read_name false [] = none
read_name false (c ∷ cs) =
    let more = read_name false cs in
    let closed = read_name true cs in if c == 34 then closed else put_front c more
read_name true [] = some ([], [])
read_name true (c ∷ cs) =
    let more = read_name false cs in if c == 34 then put_front 34 more else some ([], c ∷ cs)

unfoldable pub read_identifier : Bytes → Option (Bytes × Bytes)
unfolding read_name
read_identifier [] = none
read_identifier (c ∷ cs) = if c == 34 then read_name false cs else none

-- What follows does not go on with a quote.
abbrev pub NoQuote : Bytes → Type 0
NoQuote [] = Unit
NoQuote (c ∷ cs) = c ≢ 34

read_name-closed : (rest : Bytes) → NoQuote rest → read_name true rest ≡ some ([], rest)
unfolding read_name
read_name-closed [] h = refl
read_name-closed (c ∷ cs) h = rw (beq_of_ne c 34 h) refl

read_name-escape :
    (s rest : Bytes) → NoQuote rest → read_name false (escape s ++ 34 ∷ rest) ≡ some (s, rest)
unfolding read_name escape
read_name-escape [] rest h = read_name-closed rest h
read_name-escape (c ∷ s) rest h = elim (Bool-cases (c == 34)) [
  | inl same ↦
      rw (same, escape)
        (ap (put_front 34) (read_name-escape s rest h)
          ∙ ap (λ x. some (x ∷ s, rest)) (sym (eq_of_beq c 34 same)))
  | inr other ↦ rw (other, escape) (rw other (ap (put_front c) (read_name-escape s rest h)))
]

-- An identifier is read back whole, whatever bytes it has, quotes included, and the text after it
-- is what was written after it, if that does not begin with a quote.
pub read_identifier-quote :
    (name rest : Bytes) → NoQuote rest → read_identifier (quote name ++ rest) ≡ some (name, rest)
unfolding read_identifier quote
read_identifier-quote name rest h =
    ap (read_name false) (append_assoc (escape name) (34 ∷ []) rest) ∙ read_name-escape name rest h
