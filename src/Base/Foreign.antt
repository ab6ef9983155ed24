-- ===== src/Base/Foreign.antt =====
-- What a call of a library or of the database returns.
use magna.Base.Text.{Bytes}

-- A failure has its message.
pub data Outcome (A : Type 0) : Type 0 where
  done : A → Outcome A
  failed : Bytes → Outcome A
