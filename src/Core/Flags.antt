-- ===== src/Core/Flags.antt =====
-- crates/magna-types/src/step.rs: the flags beside each output slot, a `u8` of independent bits.
use magna.Base.{ℕ, Bool, not, bit_and, bit_or, ◌==◌, nat_eq}

pub record StepFlags : Type 0 where
  pub bits : ℕ

abbrev pub flags_none : StepFlags
flags_none = record { bits = 0b0000 }

abbrev pub flags_null : StepFlags
flags_null = record { bits = 0b0001 }

abbrev pub flags_error : StepFlags
flags_error = record { bits = 0b0010 }

abbrev pub flags_inhibited : StepFlags
flags_inhibited = record { bits = 0b0100 }

unfoldable pub is_null : StepFlags → Bool
is_null f = not (bit_and f.bits 0b0001 == 0)

unfoldable pub is_error : StepFlags → Bool
is_error f = not (bit_and f.bits 0b0010 == 0)

unfoldable pub is_inhibited : StepFlags → Bool
is_inhibited f = not (bit_and f.bits 0b0100 == 0)

unfoldable pub is_value : StepFlags → Bool
is_value f = f.bits == 0

-- `StepFlags(a.0 | b.0)`
unfoldable pub join_flags : StepFlags → StepFlags → StepFlags
join_flags a b = record { bits = bit_or a.bits b.bits }
