-- ===== src/Serv/Operations.antt =====
-- crates/magna-serv/src/plan_cache.rs: the key under which the plan of an operation is cached. A
-- text is the list of its characters, and the hash of a text and a name is a parameter.
use magna.Base.{
  ℕ, ◌≡◌, ◌↔◌, ◌≢◌, refl, sym, ap, ◌∙◌, Bool, false, ◌||◌, ◌&&◌, if◌then◌else◌, nat_eqb, leb, List,
  [], ◌∷◌, ◌++◌, append-nil, Option, All, Bool-cases, inl, inr, subst,
}

abbrev pub Text : Type 0
Text = List ℕ

-- `char::is_whitespace`: the property White_Space of Unicode.
unfoldable pub is_whitespace : ℕ → Bool
is_whitespace c =
    (leb 9 c && leb c 13)
    || nat_eqb c 32
    || nat_eqb c 133
    || nat_eqb c 160
    || nat_eqb c 5760
    || (leb 8192 c && leb c 8202)
    || nat_eqb c 8232
    || nat_eqb c 8233
    || nat_eqb c 8239
    || nat_eqb c 8287
    || nat_eqb c 12288

-- A word in front, unless it is empty.
unfoldable pub push_word : Text → List Text → List Text
push_word [] words = words
push_word (c ∷ cs) words = (c ∷ cs) ∷ words

-- The text up to its first white space, and the words behind that.
unfoldable pub split_first : Text → Text × List Text
unfolding is_whitespace push_word
split_first [] = ([], [])
split_first (c ∷ cs) =
    let rest = split_first cs in
    if is_whitespace c then ([], push_word rest.0 rest.1) else (c ∷ rest.0, rest.1)

-- `str::split_whitespace`
unfoldable pub split_whitespace : Text → List Text
unfolding split_first push_word
split_whitespace text = let parts = split_first text in push_word parts.0 parts.1

-- `join(" ")`
unfoldable pub join_words : List Text → Text
join_words [] = []
join_words (word ∷ []) = word
join_words (word ∷ next ∷ words) = word ++ 32 ∷ join_words (next ∷ words)

unfoldable pub normalize_operation : Text → Text
unfolding split_whitespace join_words
normalize_operation document = join_words (split_whitespace document)

unfoldable pub hash_operation : (Text → Option Text → ℕ) → Text → Option Text → ℕ
unfolding normalize_operation
hash_operation hash document operation_name = hash (normalize_operation document) operation_name

-- What a word of a text is: not empty, and without white space.
abbrev IsWord : Text → Type 0
IsWord word = (word ≢ []) × All (λ c. is_whitespace c ≡ false) word

push_word-IsWord :
    (word : Text) (words : List Text)
    → All (λ c. is_whitespace c ≡ false) word
    → All IsWord words
    → All IsWord (push_word word words)
unfolding push_word
push_word-IsWord [] words h k = k
push_word-IsWord (c ∷ cs) words h k = ((λ e. cc, h), k)

split_first-IsWord :
    (text : Text)
    → All (λ c. is_whitespace c ≡ false) (split_first text).0 × All IsWord (split_first text).1
unfolding split_first
split_first-IsWord [] = (tt, tt)
split_first-IsWord (c ∷ cs) =
    let rest = split_first-IsWord cs in
    elim (Bool-cases (is_whitespace c)) [
      | inl space ↦
          rw space (tt, push_word-IsWord (split_first cs).0 (split_first cs).1 rest.0 rest.1)
      | inr other ↦ rw other ((other, rest.0), rest.1)
    ]

split_first-append :
    (word rest : Text)
    → All (λ c. is_whitespace c ≡ false) word
    → split_first (word ++ rest) ≡ (word ++ (split_first rest).0, (split_first rest).1)
unfolding split_first
split_first-append [] rest h = refl
split_first-append (c ∷ cs) rest h = rw (h.0, split_first-append cs rest h.1) refl

push_word_some : (word : Text) (words : List Text) → word ≢ [] → push_word word words ≡ word ∷ words
unfolding push_word
push_word_some [] words h = absurd (h refl)
push_word_some (c ∷ cs) words h = refl

-- A word that ends the text, or that white space ends.
split_whitespace-word : (word : Text) → IsWord word → split_whitespace word ≡ word ∷ []
unfolding split_whitespace
split_whitespace-word word h =
    subst (λ t. push_word (split_first t).0 (split_first t).1 ≡ word ∷ []) (append-nil word)
      (rw (split_first-append word [] h.1, append-nil word) (push_word_some word [] h.0))

split_whitespace-next :
    (word rest : Text)
    → IsWord word
    → split_whitespace (word ++ 32 ∷ rest) ≡ word ∷ split_whitespace rest
unfolding split_whitespace
split_whitespace-next word rest h =
    rw (split_first-append word (32 ∷ rest) h.1, append-nil word) (push_word_some word _ h.0)

split_whitespace-join_words :
    (words : List Text) → All IsWord words → split_whitespace (join_words words) ≡ words
unfolding join_words split_whitespace
split_whitespace-join_words [] h = refl
split_whitespace-join_words (word ∷ []) h = split_whitespace-word word h.0
split_whitespace-join_words (word ∷ next ∷ words) h =
    split_whitespace-next word (join_words (next ∷ words)) h.0
    ∙ ap (λ t. word ∷ t) (split_whitespace-join_words (next ∷ words) h.1)

split_whitespace-IsWord : (text : Text) → All IsWord (split_whitespace text)
unfolding split_whitespace
split_whitespace-IsWord text =
    let h = split_first-IsWord text in
    push_word-IsWord (split_first text).0 (split_first text).1 h.0 h.1

-- Two documents have one normal form exactly when they have the same words in the same order,
-- and the normal form of a document has the words of the document.
pub normalize_operation_iff :
    (a b : Text)
    → ((normalize_operation a ≡ normalize_operation b) ↔ (split_whitespace a ≡ split_whitespace b))
      × (split_whitespace (normalize_operation a) ≡ split_whitespace a)
unfolding normalize_operation
normalize_operation_iff a b =
    let first = split_whitespace-join_words (split_whitespace a) (split_whitespace-IsWord a) in
    let second = split_whitespace-join_words (split_whitespace b) (split_whitespace-IsWord b) in
    ((λ e. sym first ∙ ap split_whitespace e ∙ second, λ e. ap join_words e), first)
