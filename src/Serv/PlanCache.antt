-- ===== src/Serv/PlanCache.antt =====
-- crates/magna-serv/src/plan_cache.rs: the cache of plans. A `DashMap` is an association list, and
-- the order in which `retain` visits its entries is a parameter. The calls of the cache come one
-- after the other.
pub mod Bounds
pub mod Answers
pub mod Runs
use magna.Base.{
  ℕ, suc, ◌<◌, ◌≡◌, ◌↔◌, Bool, true, false, ◌&&◌, if◌then◌else◌, leb, ltb, List, [], ◌∷◌, ◌++◌,
  Option, none, some, length, Memᴰ, IsDistinct, Map, keys, lookup, insert, nat_eq,
}

-- `OperationHash`
abbrev pub OperationHash : Type 0
OperationHash = ℕ

abbrev pub Plans : Type 0 → Type 0
Plans P = Map OperationHash P

pub record PlanCache (P : Type 0) : Type 0 where
  pub inner : Plans P
  pub max_size : ℕ

-- What the documentation of `DashMap::retain` says of the order in which it visits the entries:
-- each entry comes once.
pub record IsOrder {P : Type 0} (visit : Plans P → Plans P) : Type 0 where
  pub entries : (m : Plans P) (e : OperationHash × P) → Memᴰ e (visit m) ↔ Memᴰ e m
  pub count : (m : Plans P) → length (visit m) ≡ length m
  pub distinct : (m : Plans P) → IsDistinct (keys m) → IsDistinct (keys (visit m))

-- `PlanCache::new`
abbrev pub new_cache : {P : Type 0} → ℕ → PlanCache P
new_cache max_size = record { inner = []; max_size = max_size }

module _ {P : Type 0} where
  unfoldable pub is_full : PlanCache P → Bool
  is_full c = leb c.max_size (length c.inner) && ltb 0 c.max_size

  -- The visit of `retain`, with the closure's `evicted`.
  unfoldable pub retain : Bool → Plans P → Plans P
  retain evicted [] = []
  retain evicted (e ∷ m) = let rest = retain true m in if evicted then e ∷ rest else rest

  unfoldable pub clear : PlanCache P → PlanCache P
  clear c = record { inner = []; max_size = c.max_size }

  unfoldable pub is_empty : PlanCache P → Bool
  is_empty c = leb (length c.inner) 0

  module _ (visit : Plans P → Plans P) where
    unfoldable pub evict : PlanCache P → PlanCache P
    unfolding retain
    evict c = record { inner = retain false (visit c.inner); max_size = c.max_size }

    unfoldable pub store : OperationHash → P → PlanCache P → PlanCache P
    unfolding insert
    store hash plan c = record { inner = insert hash plan c.inner; max_size = c.max_size }

    -- The plan that a call answers with, and the cache after it.
    unfoldable pub get_or_plan : PlanCache P → OperationHash → P → P × PlanCache P
    unfolding lookup is_full evict store
    get_or_plan c hash plan = elim (lookup c.inner hash) [
      | some existing ↦ (existing, c)
      | none ↦ (plan, store hash plan (if is_full c then evict c else c))
    ]
