-- ===== src/Core/Step.antt =====
-- crates/magna-core/src/step.rs and fingerprint.rs, and the errors of crates/magna-types.
-- A type-erased value is `AnyValue A`: what the engine itself makes, or a value of a step's own.
-- Texts that the engine formats are kept as data (`Message`). The context of a request is the same
-- for every step of a run, so `execute` stands already applied to it.
use magna.Base.{
  ℕ, ◌≡◌, refl, ◌↔◌, Bool, true, false, ◌&&◌, List, [], ◌∷◌, String, arith, Eq, ◌==◌, length,
  replicate, nat_eq,
}
use magna.Core.Flags.{StepFlags, flags_none}

abbrev pub StepId : Type 0
StepId = ℕ

pub data Message : Type 0 where
  missing_output : StepId → StepId → Message
  join_failure : Message
  no_parent_output text : String → Message

pub data FwGraphError : Type 0 where
  plan_cycle : List StepId → FwGraphError
  step_not_found : StepId → FwGraphError
  execution_error : Message → FwGraphError
  introspection_error config_error sql_build_error schema_build_error : String → FwGraphError

-- A Rust panic is a result too.
pub data Result {ℓ} (A : Type ℓ) : Type ℓ where
  ok : A → Result A
  err : FwGraphError → Result A
  panic : Result A

infixl 5 ◌>>=◌
abbrev pub ◌>>=◌ {ℓ κ} : {A : Type ℓ} {B : Type κ} → Result A → (A → Result B) → Result B
ok a >>= f = f a
err e >>= f = err e
panic >>= f = panic

-- `unit` is `Arc::new(())`, and `display e` is `Arc::new(format!("{}", e))`.
pub data AnyValue (A : Type 0) : Type 0 where
  unit : AnyValue A
  display : FwGraphError → AnyValue A
  value : A → AnyValue A

pub record StepOutput (A : Type 0) : Type 0 where
  pub values : List (AnyValue A)
  pub flags : List StepFlags

-- The index `i` of the inputs belongs to the index `i` of `dependencies`.
abbrev pub StepInputs : Type 0 → Type 0
StepInputs A = List (StepOutput A)

module _ {A : Type 0} where
  -- All items are values.
  unfoldable pub from_values : List (AnyValue A) → StepOutput A
  from_values vs = record { values = vs; flags = replicate (length vs) flags_none }

  abbrev pub len : StepOutput A → ℕ
  len o = length o.values

pub record StepFingerprint : Type 0 where
  pub type_id : ℕ
  pub dep_ids : List StepId
  pub config_hash : ℕ

-- `StepFingerprint::new`; the hasher of the standard library is the argument `hash`.
unfoldable pub new_fingerprint {ℓ} : {C : Type ℓ} → (C → ℕ) → ℕ → List StepId → C → StepFingerprint
new_fingerprint hash type_id dep_ids config = record {
  type_id = type_id;
  dep_ids = dep_ids;
  config_hash = hash config;
}

abbrev pub ids_eqb : List StepId → List StepId → Bool
ids_eqb [] [] = true
ids_eqb (x ∷ xs) (y ∷ ys) = x == y && ids_eqb xs ys
ids_eqb _ _ = false

pub ids_eqb_iff : (xs ys : List StepId) → (ids_eqb xs ys ≡ true) ↔ (xs ≡ ys)
ids_eqb_iff [] [] = (λ _. refl, λ _. refl)
ids_eqb_iff [] (y ∷ ys) = (λ h. cc, λ h. cc)
ids_eqb_iff (x ∷ xs) [] = (λ h. cc, λ h. cc)
ids_eqb_iff (x ∷ xs) (y ∷ ys) = ground (arith, ids_eqb_iff xs ys)

abbrev pub fingerprint_eqb : StepFingerprint → StepFingerprint → Bool
fingerprint_eqb a b =
    a.type_id == b.type_id && (ids_eqb a.dep_ids b.dep_ids && a.config_hash == b.config_hash)

pub fingerprint_eqb_iff : (a b : StepFingerprint) → (fingerprint_eqb a b ≡ true) ↔ (a ≡ b)
fingerprint_eqb_iff a b = ground (arith, ids_eqb_iff a.dep_ids b.dep_ids)

instance abbrev pub fingerprint_eq : Eq StepFingerprint
fingerprint_eq = record { beq = fingerprint_eqb; beq_iff = fingerprint_eqb_iff }

-- `execute` may panic; the task that runs it then ends with a join error.
pub record ExecutableStep (A : Type 0) : Type 0 where
  pub id : StepId
  pub dependencies : List StepId
  pub is_unary : Bool
  pub fingerprint : StepFingerprint
  pub execute : StepInputs A → Result (StepOutput A)
