-- ===== src/Subscriptions/Sizes.antt =====
-- No payload that is built is refused for its size, and none that is too long is sent.
use magna.Base.{
  Outcome, done, failed, ◌≤◌, ◌<◌, ◌≡◌, ◌⊎◌, refl, leb, List, [], length, Map, Bytes, bytes_eq,
  Bool-cases, inl, inr, subst, arith,
}
use magna.Types.{PgValue, int, text, uuid}
use magna.Subscriptions.{
  SubscriptionError, payload_too_large, Result, ok, err, bind, max_payload_bytes, check_size,
  int_str, Texts, pk_to_text, collect_columns, composite_pk_to_text, from_database, notify_mutation,
}

-- What is accepted is short enough.
abbrev IsShort : Result Bytes → Type 0
IsShort (ok t) = length t < 7900
IsShort (err e) = Unit

check_size-IsShort : (t : Bytes) → IsShort (check_size t)
unfolding check_size
check_size-IsShort t = elim (Bool-cases (leb max_payload_bytes (length t))) [
  | inl long ↦ rw long tt
  | inr short ↦ rw short (ground (arith, short))
]

module _ (texts : Texts) where
  pk_to_text-IsShort : (pk : PgValue) → IsShort (pk_to_text texts pk)
  unfolding pk_to_text
  pk_to_text-IsShort (uuid u) = check_size-IsShort (texts.uuid_str u)
  pk_to_text-IsShort (int n) = check_size-IsShort (int_str n)
  pk_to_text-IsShort (text s) = check_size-IsShort s
  pk_to_text-IsShort _ = tt

  composite_pk_to_text-IsShort :
      (columns : List (Bytes × PgValue)) → IsShort (composite_pk_to_text texts columns)
  unfolding composite_pk_to_text
  composite_pk_to_text-IsShort columns = by_map (collect_columns texts columns [])
    where
      by_json :
          (o : Outcome Bytes)
          → IsShort (elim o as (λ _. Result Bytes) [
            | failed message ↦ err (SubscriptionError.serialization message)
            | done printed ↦ check_size printed
          ])
      by_json (failed message) = tt
      by_json (done printed) = check_size-IsShort printed

      by_map :
          (r : Result (Map Bytes Bytes))
          → IsShort (
              bind r (λ entries. elim (texts.json_str entries) as (λ _. Result Bytes) [
                | failed message ↦ err (SubscriptionError.serialization message)
                | done printed ↦ check_size printed
              ]))
      by_map (err e) = tt
      by_map (ok entries) = by_json (texts.json_str entries)

-- A payload of at least 7900 bytes is refused with its size and not sent, and any other is sent,
-- with the answer of the database.
notify_mutation_cases :
    (execute : Bytes → Bytes → Outcome Unit) (channel t : Bytes)
    → (7900 ≤ length t × (notify_mutation execute channel t ≡ err (payload_too_large (length t))))
      ⊎ (length t < 7900 × (notify_mutation execute channel t ≡ from_database (execute channel t)))
unfolding notify_mutation check_size
notify_mutation_cases execute channel t = elim (Bool-cases (leb max_payload_bytes (length t))) [
  | inl long ↦ inl (ground (arith, long), rw (long) refl)
  | inr short ↦ inr (ground (arith, short), rw (short) refl)
]

-- The text of a key of one column or of several is never refused for its size when it is sent.
pub notify_mutation-pk_to_text :
    (texts : Texts) (execute : Bytes → Bytes → Outcome Unit) (channel t : Bytes) (pk : PgValue)
    (columns : List (Bytes × PgValue))
    → ((pk_to_text texts pk ≡ ok t) ⊎ (composite_pk_to_text texts columns ≡ ok t))
    → notify_mutation execute channel t ≡ from_database (execute channel t)
notify_mutation-pk_to_text texts execute channel t pk columns built =
    elim (notify_mutation_cases execute channel t) [
      | inl (long, refused) ↦ absurd (omega (arith, long, short built))
      | inr (fits, sent) ↦ sent
    ]
  where
    short :
        (pk_to_text texts pk ≡ ok t) ⊎ (composite_pk_to_text texts columns ≡ ok t) → length t < 7900
    short (inl e) = subst IsShort e (pk_to_text-IsShort texts pk)
    short (inr e) = subst IsShort e (composite_pk_to_text-IsShort texts columns)
