-- ===== src/Serv/SchemaRegistry.antt =====
-- crates/magna-serv/src/schema_registry.rs: the registry of the live schema. A write lock is held
-- through a reload, so that readers meet the registry before or after it. The counter has 64 bits.
use magna.Base.{
  ℕ, suc, ◌+◌, ◌^◌, ◌%◌, ◌<◌, ◌≤◌, ◌≡◌, refl, ap, List, [], ◌∷◌, Memᴰ, mem-cons_cases, inl, inr,
  arith,
}

pub record SchemaGeneration (S : Type 0) : Type 0 where
  pub generation : ℕ
  pub schema : S

pub record SchemaRegistry (S : Type 0) : Type 0 where
  pub current : SchemaGeneration S

module _ {S : Type 0} where
  unfoldable pub new_registry : S → SchemaRegistry S
  new_registry schema = record { current = record { generation = 1; schema = schema } }

  unfoldable pub current_schema : SchemaRegistry S → SchemaGeneration S
  current_schema r = r.current

  unfoldable pub reload : SchemaRegistry S → S → SchemaRegistry S
  reload r schema = record {
    current = record { generation = (r.current.generation + 1) % 2 ^ 64; schema = schema };
  }

  unfoldable pub generation : SchemaRegistry S → ℕ
  generation r = r.current.generation

-- The registry, the snapshots that requests hold, the last of them first, and the number of reloads.
pub record Server (S : Type 0) : Type 0 where
  pub registry : SchemaRegistry S
  pub held : List (SchemaGeneration S)
  pub reloads : ℕ

abbrev pub new_server : {S : Type 0} → S → Server S
new_server schema = record { registry = new_registry schema; held = []; reloads = 0 }

module _ {S : Type 0} where
  pub data Step : Server S → Server S → Type 0 where
    asks :
        {s : Server S}
        → Step s (record {
          registry = s.registry;
          held = current_schema s.registry ∷ s.held;
          reloads = s.reloads;
        })
    reloads_to :
        {s : Server S} (schema : S)
        → Step s
            (record { registry = reload s.registry schema; held = s.held; reloads = suc s.reloads })

  pub data Reaches (s : Server S) : Server S → Type 0 where
    here : Reaches s s
    then_step : {a b : Server S} → Reaches s a → Step a b → Reaches s b

  -- The live generation counts the reloads, no snapshot that a request holds is of a later one, and
  -- a snapshot of the live generation is the live one.
  pub record IsCurrent (s : Server S) : Type 0 where
    pub counts : generation s.registry ≡ suc s.reloads
    pub older : (g : SchemaGeneration S) → Memᴰ g s.held → g.generation ≤ generation s.registry
    pub agrees :
        (g : SchemaGeneration S)
        → Memᴰ g s.held
        → g.generation ≡ generation s.registry
        → g ≡ current_schema s.registry

  step-IsCurrent : (a b : Server S) → Step a b → suc b.reloads < 2 ^ 64 → IsCurrent a → IsCurrent b
  unfolding generation current_schema reload
  step-IsCurrent a b asks less h = record {
    counts = h.counts;
    older = λ g m. elim (mem-cons_cases g a.registry.current a.held m) [
      | inl e ↦ omega (arith, ap (λ (t : SchemaGeneration S). t.generation) e)
      | inr n ↦ h.older g n
    ];
    agrees = λ g m e. elim (mem-cons_cases g a.registry.current a.held m) [
      | inl same ↦ same
      | inr n ↦ h.agrees g n e
    ];
  }
  step-IsCurrent a b (reloads_to schema) less h = record {
    counts = omega (arith, h.counts, less);
    older = λ g m. omega (arith, h.counts, less, h.older g m);
    agrees = λ g m e. absurd (omega (arith, h.counts, less, h.older g m, e));
  }

  reloads_mono : (a b : Server S) → Step a b → a.reloads ≤ b.reloads
  reloads_mono a b asks = omega arith
  reloads_mono a b (reloads_to schema) = omega arith

  -- From a new registry, after fewer than 2^64 - 1 reloads and any requests between them, the live
  -- generation is one more than the number of reloads; a snapshot that a request holds is of no
  -- later generation, and if it is of the live generation it is the live schema.
  pub reachable-IsCurrent :
      (schema : S) (s : Server S)
      → Reaches (new_server schema) s
      → suc s.reloads < 2 ^ 64
      → IsCurrent s
  unfolding generation current_schema new_registry
  reachable-IsCurrent schema s here less = record {
    counts = refl;
    older = λ g m. elim m [ ];
    agrees = λ g m e. elim m [ ];
  }
  reachable-IsCurrent schema s (then_step {a = mid} r step) less =
      step-IsCurrent mid s step less
        (reachable-IsCurrent schema mid r (omega (arith, less, reloads_mono mid s step)))
