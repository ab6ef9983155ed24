-- ===== src/Gqlmin/Scan.antt =====
-- crates/magna-gqlmin/src/lex.rs: the scanners of one token. A scanner gets the bytes from the
-- token's first one on, and counts from there: `self.bytes.get(start + i)` is the byte `i`.
use magna.Base.{
  ℕ, zero, suc, ◌+◌, Bool, true, false, ◌&&◌, ◌||◌, if◌then◌else◌, nat_eq, ◌==◌, leb, List, [], ◌∷◌,
  none, some, get_elem?, Bytes,
}
use magna.Gqlmin.Token.{
  TokenKind, spread, name, int_value, float_value, string_value, block_string_value, ParseErrorKind,
  unexpected_char, invalid_string, invalid_block_string, invalid_number, invalid_escape,
}

-- A token of `used` bytes, or an error with the end of its span; `used` bytes were passed over.
pub data Scan : Type 0 where
  token : TokenKind → ℕ → Scan
  error : ParseErrorKind → ℕ → ℕ → Scan

abbrev pub used : Scan → ℕ
used (token kind n) = n
used (error kind end n) = n

unfoldable pub drop {ℓ} : {A : Type ℓ} → ℕ → List A → List A
drop zero xs = xs
drop (suc n) [] = []
drop (suc n) (x ∷ xs) = drop n xs

-- The bytes that the loop `while let Some(c) … { self.pos += 1 }` passes over.
unfoldable pub count_while : (ℕ → Bool) → Bytes → ℕ
count_while test [] = 0
count_while test (c ∷ cs) = let more = count_while test cs in if test c then suc more else 0

abbrev pub between : ℕ → ℕ → ℕ → Bool
between low high c = leb low c && leb c high

unfoldable pub is_digit : ℕ → Bool
is_digit = between 48 57

unfoldable pub is_hex_digit : ℕ → Bool
is_hex_digit c = between 48 57 c || between 65 70 c || between 97 102 c

unfoldable pub is_name_start : ℕ → Bool
is_name_start c = c == 95 || between 65 90 c || between 97 122 c

unfoldable pub is_name_continue : ℕ → Bool
is_name_continue c = c == 95 || between 48 57 c || between 65 90 c || between 97 122 c

-- `self.bytes.get(start + i).copied() == Some(c)`
abbrev pub has_at : Bytes → ℕ → (ℕ → Bool) → Bool
has_at bs i test = elim (get_elem? bs i) [ none ↦ false | some c ↦ test c ]

-- `skip_insignificant`; the flag says whether the byte stands in a comment.
unfoldable pub insignificant : Bool → Bytes → ℕ
insignificant in_comment [] = 0
insignificant true (c ∷ cs) =
    let after = suc (insignificant false cs) in
    let inside = suc (insignificant true cs) in if c == 10 || c == 13 then after else inside
insignificant false (c ∷ cs) =
    let after = suc (insignificant false cs) in
    let inside = suc (insignificant true cs) in
    if c == 32 || c == 9 || c == 13 || c == 10 || c == 44
    then after
    else if c == 35
    then inside
    else 0

unfoldable pub lex_spread : Bytes → Scan
lex_spread bs =
    if has_at bs 1 (λ c. c == 46) && has_at bs 2 (λ c. c == 46)
    then token spread 3
    else error unexpected_char 1 0

-- The first byte is known to begin a name.
unfoldable pub lex_name : Bytes → Scan
unfolding count_while is_name_continue
lex_name [] = token name 1
lex_name (b ∷ bs) = token name (suc (count_while is_name_continue bs))

-- What follows a number must not begin a name, and must not be a point.
unfoldable pub finish_number : Bool → ℕ → Bytes → Scan
finish_number is_float n rest =
    if has_at rest 0 (λ c. is_name_start c || c == 46)
    then error invalid_number (n + 1) n
    else token (if is_float then float_value else int_value) n

-- The exponent behind `n` bytes of a number; `rest` begins at its letter.
unfoldable pub exponent_digits : ℕ → Bytes → Scan
unfolding finish_number
exponent_digits n digits =
    let k = count_while is_digit digits in
    if k == 0 then error invalid_number n n else finish_number true (n + k) (drop k digits)

unfoldable pub lex_exponent : Bool → ℕ → Bytes → Scan
unfolding exponent_digits finish_number
lex_exponent is_float n [] = finish_number is_float n []
lex_exponent is_float n (c ∷ rest) =
    if c == 101 || c == 69
    then (if has_at rest 0 (λ s. s == 43 || s == 45)
        then exponent_digits (n + 1 + 1) (drop 1 rest)
        else exponent_digits (n + 1) rest)
    else finish_number is_float n (c ∷ rest)

unfoldable pub lex_fraction : ℕ → Bytes → Scan
unfolding lex_exponent
lex_fraction n [] = lex_exponent false n []
lex_fraction n (c ∷ rest) =
    if c == 46
    then (let k = count_while is_digit rest in
        if k == 0
        then error invalid_number (n + 1) (n + 1)
        else lex_exponent true (n + 1 + k) (drop k rest))
    else lex_exponent false n (c ∷ rest)

-- The integer part behind `n` bytes, the sign.
unfoldable pub lex_integer : ℕ → Bytes → Scan
unfolding lex_fraction
lex_integer n [] = error invalid_number (n + 1) n
lex_integer n (c ∷ rest) =
    if c == 48
    then (if has_at rest 0 is_digit
        then error invalid_number (n + 1 + 1) (n + 1)
        else lex_fraction (n + 1) rest)
    else (let k = count_while is_digit (c ∷ rest) in
        if is_digit c
        then lex_fraction (n + k) (drop k (c ∷ rest))
        else error invalid_number (n + 1) n)

unfoldable pub lex_number : Bytes → Scan
unfolding lex_integer
lex_number bs = if has_at bs 0 (λ c. c == 45) then lex_integer 1 (drop 1 bs) else lex_integer 0 bs

abbrev pub quotes_at : Bytes → ℕ → Bool
quotes_at bs i = has_at bs i (λ c. c == 34)

-- The body of a block string behind `n` bytes; the first number is how many bytes are passed over
-- without a look, behind a backslash and three quotes.
unfoldable pub lex_block : ℕ → ℕ → Bytes → Scan
lex_block skip n [] = error invalid_block_string n n
lex_block (suc skip) n (b ∷ bs) = lex_block skip (n + 1) bs
lex_block zero n (b ∷ bs) =
    let escaped = lex_block 3 (n + 1) bs in
    let next = lex_block 0 (n + 1) bs in
    if b == 92 && quotes_at bs 0 && quotes_at bs 1 && quotes_at bs 2
    then escaped
    else if b == 34 && quotes_at bs 0 && quotes_at bs 1
    then token block_string_value (n + 3)
    else next

abbrev pub is_simple_escape : ℕ → Bool
is_simple_escape c =
    c == 34 || c == 92 || c == 47 || c == 98 || c == 102 || c == 110 || c == 114 || c == 116

-- The index, from 2, of the first byte after `\u` that is missing or not a hexadecimal digit.
pub data HexCheck : Type 0 where
  all_hex : HexCheck
  missing : HexCheck
  not_hex : ℕ → HexCheck

unfoldable pub check_hex : ℕ → ℕ → Bytes → HexCheck
unfolding is_hex_digit
check_hex zero i bs = all_hex
check_hex (suc k) i [] = missing
check_hex (suc k) i (b ∷ bs) =
    let more = check_hex k (i + 1) bs in if is_hex_digit b then more else not_hex i

-- The escape after a backslash behind `n` bytes; `next` and `unicode` go on after it.
unfoldable pub lex_escape : ℕ → Bytes → Scan → Scan → Scan
unfolding check_hex
lex_escape n [] next unicode = error invalid_escape n n
lex_escape n (esc ∷ bs) next unicode =
    if is_simple_escape esc
    then next
    else if esc == 117
    then elim (check_hex 4 2 bs) [
      | all_hex ↦ unicode
      | missing ↦ error invalid_escape n n
      | not_hex i ↦ error invalid_escape (n + i) n
    ]
    else error invalid_escape (n + 2) n

-- The body of a string behind `n` bytes.
unfoldable pub lex_body : ℕ → ℕ → Bytes → Scan
unfolding lex_escape
lex_body skip n [] = error invalid_string n n
lex_body (suc skip) n (b ∷ bs) = lex_body skip (n + 1) bs
lex_body zero n (b ∷ bs) =
    let next = lex_body 0 (n + 1) bs in
    let simple = lex_body 1 (n + 1) bs in
    let unicode = lex_body 5 (n + 1) bs in
    if b == 34
    then token string_value (n + 1)
    else if b == 10 || b == 13
    then error invalid_string n n
    else if b == 92
    then lex_escape n bs simple unicode
    else next

unfoldable pub lex_string : Bytes → Scan
unfolding lex_block lex_body
lex_string bs =
    if quotes_at bs 1 && quotes_at bs 2 then lex_block 0 3 (drop 3 bs) else lex_body 0 1 (drop 1 bs)
