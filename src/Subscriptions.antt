-- ===== src/Subscriptions.antt =====
-- crates/magna-subscriptions: the payloads of notifications, and the manager that listens to the
-- channels of the database and hands their messages on. A text is its bytes. The database, the text
-- of a uuid, of a JSON object and of the Debug output are parameters.
pub mod Sizes
pub mod Channels
mod Samples
use magna.Base.{
  Outcome, done, failed, ℕ, suc, ◌+◌, ◌-◌, ◌^◌, ◌≡◌, Bool, true, false, if◌then◌else◌, leb, ltb,
  List, [], ◌∷◌, ◌++◌, Option, none, some, length, Map, keys, lookup, insert, remove, Bytes, bytes,
  bytes_eq, ◌==◌,
}
use magna.Sql.Fragment.{decimal}
use magna.Types.{PgValue, null, int, text, uuid}

pub data SubscriptionError : Type 0 where
  database serialization channel_error : Bytes → SubscriptionError
  payload_too_large : ℕ → SubscriptionError

pub data Result (A : Type 0) : Type 0 where
  ok : A → Result A
  err : SubscriptionError → Result A

module _ {A B : Type 0} where
  abbrev pub bind : Result A → (A → Result B) → Result B
  bind (ok a) f = f a
  bind (err e) f = err e

abbrev pub max_payload_bytes : ℕ
max_payload_bytes = 7900

pub record NotifyPayload : Type 0 where
  pub channel : Bytes
  pub pk_text : Bytes

-- The check of the size that all three functions make.
unfoldable pub check_size : Bytes → Result Bytes
check_size t = if leb max_payload_bytes (length t) then err (payload_too_large (length t)) else ok t

-- `to_string` of the number of 64 bits with a sign that has the bit pattern `n`.
unfoldable pub int_str : ℕ → Bytes
unfolding decimal
int_str n = if ltb n (2 ^ 63) then decimal n else 45 ∷ decimal (2 ^ 64 - n)

-- The texts of libraries.
pub record Texts : Type 0 where
  pub uuid_str : ℕ → Bytes
  pub debug : PgValue → Bytes
  pub json_str : Map Bytes Bytes → Outcome Bytes

module _ (texts : Texts) where
  unfoldable pub pk_to_text : PgValue → Result Bytes
  unfolding check_size int_str
  pk_to_text (uuid u) = check_size (texts.uuid_str u)
  pk_to_text (int n) = check_size (int_str n)
  pk_to_text (text s) = check_size s
  pk_to_text null = err (serialization (bytes "NULL is not a valid primary key"))
  pk_to_text other =
      err
        (serialization (bytes "Unsupported PgValue variant for primary key: " ++ texts.debug other))

  unfoldable pub collect_columns :
      List (Bytes × PgValue) → Map Bytes Bytes → Result (Map Bytes Bytes)
  unfolding pk_to_text insert
  collect_columns [] entries = ok entries
  collect_columns ((col, val) ∷ columns) entries =
      bind (pk_to_text val) (λ text_val. collect_columns columns (insert col text_val entries))

  unfoldable pub composite_pk_to_text : List (Bytes × PgValue) → Result Bytes
  unfolding collect_columns check_size
  composite_pk_to_text columns = bind (collect_columns columns []) (λ entries.
      elim (texts.json_str entries) [
        | failed message ↦ err (serialization message)
        | done json ↦ check_size json
      ])

unfoldable pub from_database : Outcome Unit → Result Unit
from_database (done u) = ok u
from_database (failed message) = err (database message)

-- `execute` sends `SELECT pg_notify` with a channel and a payload.
unfoldable pub notify_mutation : (Bytes → Bytes → Outcome Unit) → Bytes → Bytes → Result Unit
unfolding check_size from_database
notify_mutation execute channel pk_text =
    bind (check_size pk_text) (λ t. from_database (execute channel t))

unfoldable pub mutation_channel : Bytes → Bytes → Bytes
mutation_channel schema table = schema ++ bytes "_" ++ table ++ bytes "_mutation"

-- The manager: the channels that its connection listens to, and the sender of each channel; a
-- sender is the number of its creation.
pub record Manager : Type 0 where
  pub listening : List Bytes
  pub channels : Map Bytes ℕ
  pub created : ℕ

abbrev pub empty_manager : Manager
empty_manager = record { listening = []; channels = []; created = 0 }

-- The database's answer to a new connection, LISTEN or UNLISTEN.
abbrev pub Reply : Type 0
Reply = Outcome Unit

unfoldable pub new_manager : Reply → Result Manager
new_manager (done u) = ok empty_manager
new_manager (failed message) = err (database message)

-- The sender to whose messages the new receiver is subscribed.
unfoldable pub subscribe : Manager → Bytes → Reply → Result ℕ × Manager
unfolding lookup insert
subscribe m channel reply = elim (lookup m.channels channel) [
  | some sender ↦ (ok sender, m)
  | none ↦ elim reply [
    | failed message ↦ (err (database message), m)
    | done u ↦ (
      ok m.created,
      record {
        listening = channel ∷ m.listening;
        channels = insert channel m.created m.channels;
        created = suc m.created;
      },
    )
  ]
]

abbrev pub forget : Bytes → List Bytes → List Bytes
forget c [] = []
forget c (d ∷ ds) = let rest = forget c ds in if d == c then rest else d ∷ rest

unfoldable pub unsubscribe : Manager → Bytes → Reply → Result Unit × Manager
unfolding remove
unsubscribe m channel reply = elim reply [
  | failed message ↦ (err (database message), m)
  | done u ↦ (
    ok u,
    record {
      listening = forget channel m.listening;
      channels = remove channel m.channels;
      created = m.created;
    },
  )
]

unfoldable pub channel_count : Manager → ℕ
channel_count m = length m.channels

-- One turn of the loop of `run`, for a message of the database: the sender to which its payload
-- goes, if there is one.
unfoldable pub dispatch_notification : Manager → Bytes → Bytes → Option (ℕ × NotifyPayload)
unfolding lookup
dispatch_notification m channel payload = elim (lookup m.channels channel) [
  | none ↦ none
  | some sender ↦ some (sender, record { channel = channel; pk_text = payload })
]
