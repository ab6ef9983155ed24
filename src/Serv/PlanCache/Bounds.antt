-- ===== src/Serv/PlanCache/Bounds.antt =====
-- What insertions and evictions are to the number of plans.
use magna.Base.{
  suc, ◌≤◌, ◌<◌, ◌≡◌, refl, ap, true, false, [], ◌∷◌, length, IsDistinct, keys, insert, nat_eq,
  arith, max,
}
use magna.Serv.PlanCache.{OperationHash, Plans, PlanCache, is_full, retain}

module _ {P : Type 0} where
  pub length-insert :
      (k : OperationHash) (p : P) (m : Plans P) → length (insert k p m) ≤ suc (length m)
  unfolding insert
  length-insert k p [] = omega arith
  length-insert k p ((j, q) ∷ m) = ground (arith, length-insert k p m)

  pub retain-true : (m : Plans P) → retain true m ≡ m
  unfolding retain
  retain-true [] = refl
  retain-true (e ∷ m) = ap (λ t. e ∷ t) (retain-true m)

  -- An eviction takes one plan out, if there is one.
  pub retain-false :
      (m : Plans P)
      → IsDistinct (keys m)
      → (suc (length (retain false m)) ≤ max 1 (length m)) × IsDistinct (keys (retain false m))
  unfolding retain
  retain-false [] d = (omega arith, tt)
  retain-false (e ∷ m) d = rw (retain-true m) (omega arith, d.1)

  pub is_full-room :
      (c : PlanCache P) → 0 < c.max_size → is_full c ≡ false → length c.inner < c.max_size
  unfolding is_full
  is_full-room c some_room e = ground (arith, e, some_room)
