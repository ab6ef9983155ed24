-- ===== src/Gqlmin/Lex/Bounds.antt =====
-- No scanner passes the end of the source, and a token has at least one byte.
use magna.Base.{
  ℕ, zero, suc, ◌+◌, ◌≤◌, ◌≡◌, refl, inl, inr, Bool, true, false, ◌||◌, if◌then◌else◌, nat_eq, ◌==◌,
  [], ◌∷◌, length, Bytes, arith, Bool-cases,
}
use magna.Gqlmin.Token.{is_eof}
use magna.Gqlmin.Scan.{
  Scan, token, error, drop, count_while, insignificant, has_at, lex_name, finish_number,
  exponent_digits, lex_exponent, lex_fraction, lex_integer, lex_number, is_digit, is_name_continue,
}

pub count_while-bound : (test : ℕ → Bool) (bs : Bytes) → count_while test bs ≤ length bs
unfolding count_while
count_while-bound test [] = omega arith
count_while-bound test (c ∷ cs) =
    let ih = count_while-bound test cs in
    elim (Bool-cases (test c)) [
      | inl e ↦ rw (e, count_while) (omega (arith, ih))
      | inr e ↦ rw (e, count_while) (omega arith)
    ]

pub length-drop : (n : ℕ) (bs : Bytes) → n ≤ length bs → n + length (drop n bs) ≡ length bs
unfolding drop
length-drop zero bs h = omega arith
length-drop (suc n) [] h = absurd (omega (arith, h))
length-drop (suc n) (b ∷ bs) h = let ih = length-drop n bs (omega (arith, h)) in omega (arith, ih)

either_le : (b : Bool) (x y n : ℕ) → x ≤ n → y ≤ n → (if b then x else y) ≤ n
either_le true x y n h k = h
either_le false x y n h k = k

pub insignificant-bound : (in_comment : Bool) (bs : Bytes) → insignificant in_comment bs ≤ length bs
unfolding insignificant
insignificant-bound true [] = omega arith
insignificant-bound false [] = omega arith
insignificant-bound true (c ∷ cs) =
    let a = insignificant-bound false cs in
    let b = insignificant-bound true cs in ground (arith, a, b)
insignificant-bound false (c ∷ cs) =
    let a = insignificant-bound false cs in
    let b = insignificant-bound true cs in ground (arith, a, b)

-- The scan uses at most `n` bytes, and at least `m` of them where it makes a token; no scan makes
-- the token `eof`.
abbrev pub Fits : ℕ → ℕ → Scan → Type 0
Fits m n (token kind k) = (m ≤ k) × (k ≤ n) × (is_eof kind ≡ false)
Fits m n (error kind end k) = k ≤ n

pub either_Fits :
    (b : Bool) (x y : Scan) (m n : ℕ) → Fits m n x → Fits m n y → Fits m n (if b then x else y)
either_Fits true x y m n h k = h
either_Fits false x y m n h k = k

finish_number-Fits :
    (f : Bool) (n total : ℕ) (rest : Bytes)
    → 1 ≤ n
    → n ≤ total
    → Fits 1 total (finish_number f n rest)
unfolding finish_number is_eof
finish_number-Fits f n total rest h k = ground (arith, h, k)

exponent_digits-Fits :
    (n total : ℕ) (digits : Bytes)
    → 1 ≤ n
    → n + length digits ≤ total
    → Fits 1 total (exponent_digits n digits)
unfolding exponent_digits
exponent_digits-Fits n total digits h k =
    let b = count_while-bound is_digit digits in
    let last = drop (count_while is_digit digits) digits in
    let rest =
      finish_number-Fits true (n + count_while is_digit digits) total last (omega (arith, h))
        (omega (arith, k, b)) in
    ground (arith, rest, k)

lex_exponent-Fits :
    (f : Bool) (n total : ℕ) (rest : Bytes)
    → 1 ≤ n
    → n + length rest ≤ total
    → Fits 1 total (lex_exponent f n rest)
unfolding lex_exponent drop
lex_exponent-Fits f n total [] h k = finish_number-Fits f n total [] h (omega (arith, k))
lex_exponent-Fits f n total (c ∷ rest) h k =
    either_Fits _ _ _ 1 total (signed rest k)
      (finish_number-Fits f n total (c ∷ rest) h (omega (arith, k)))
  where
    signed :
        (rest : Bytes)
        → n + length (c ∷ rest) ≤ total
        → Fits 1 total (
            if has_at rest 0 (λ s. s == 43 || s == 45)
            then exponent_digits (n + 1 + 1) (drop 1 rest)
            else exponent_digits (n + 1) rest)
    signed [] k = exponent_digits-Fits (n + 1) total [] (omega (arith, h)) (omega (arith, k))
    signed (s ∷ rest) k =
        either_Fits _ _ _ 1 total
          (exponent_digits-Fits (n + 1 + 1) total rest (omega (arith, h)) (omega (arith, k)))
          (exponent_digits-Fits (n + 1) total (s ∷ rest) (omega (arith, h)) (omega (arith, k)))

lex_fraction-Fits :
    (n total : ℕ) (rest : Bytes)
    → 1 ≤ n
    → n + length rest ≤ total
    → Fits 1 total (lex_fraction n rest)
unfolding lex_fraction
lex_fraction-Fits n total [] h k = lex_exponent-Fits false n total [] h k
lex_fraction-Fits n total (c ∷ rest) h k =
    let b = count_while-bound is_digit rest in
    let d = length-drop (count_while is_digit rest) rest b in
    let float =
      lex_exponent-Fits true (n + 1 + count_while is_digit rest) total
        (drop (count_while is_digit rest) rest) (omega (arith, h)) (omega (arith, k, d)) in
    let plain = lex_exponent-Fits false n total (c ∷ rest) h k in ground (arith, float, plain, k)

count_while-some : (c : ℕ) (cs : Bytes) → is_digit c ≡ true → 1 ≤ count_while is_digit (c ∷ cs)
unfolding count_while
count_while-some c cs h = rw h (omega arith)

-- The sign has been passed over; at least one byte is there.
lex_integer-Fits :
    (n total : ℕ) (bs : Bytes) → n + length bs ≤ total → Fits 1 total (lex_integer n bs)
unfolding lex_integer
lex_integer-Fits n total [] k = omega (arith, k)
lex_integer-Fits n total (c ∷ rest) k =
    let b = count_while-bound is_digit (c ∷ rest) in
    let d = length-drop (count_while is_digit (c ∷ rest)) (c ∷ rest) b in
    let zero_first = lex_fraction-Fits (n + 1) total rest (omega arith) (omega (arith, k)) in
    elim (Bool-cases (is_digit c)) [
      | inl digit ↦
          let some_digit = count_while-some c rest digit in
          let more =
            lex_fraction-Fits (n + count_while is_digit (c ∷ rest)) total
              (drop (count_while is_digit (c ∷ rest)) (c ∷ rest)) (omega (arith, some_digit))
              (omega (arith, k, d)) in
          ground (arith, more, zero_first, k)
      | inr other ↦ ground (arith, zero_first, k, other)
    ]

pub lex_number-Fits : (bs : Bytes) → Fits 1 (length bs) (lex_number bs)
unfolding lex_number drop
lex_number-Fits [] = lex_integer-Fits 0 0 [] (omega arith)
lex_number-Fits (c ∷ rest) =
    let minus = lex_integer-Fits 1 (suc (length rest)) rest (omega arith) in
    let plain = lex_integer-Fits 0 (suc (length rest)) (c ∷ rest) (omega arith) in
    ground (arith, minus, plain)

pub lex_name-Fits : (b : ℕ) (bs : Bytes) → Fits 1 (suc (length bs)) (lex_name (b ∷ bs))
unfolding lex_name is_eof
lex_name-Fits b bs =
    (omega arith, let h = count_while-bound is_name_continue bs in omega (arith, h), refl)
