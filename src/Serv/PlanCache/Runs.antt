-- ===== src/Serv/PlanCache/Runs.antt =====
-- How many plans the cache holds after any calls, one after the other, and which.
use magna.Base.{
  ℕ, ◌≤◌, ◌<◌, ◌≡◌, ◌⊎◌, refl, sym, ap, ◌∙◌, Bool, true, false, List, [], ◌∷◌, some, length,
  IsDistinct, keys, lookup, insert, lookup-insert, nat_eq, ◌==◌, arith, Option-cases, inl, inr,
}
use magna.Serv.PlanCache.{
  OperationHash, Plans, PlanCache, IsOrder, new_cache, is_full, clear, store, get_or_plan,
}
use magna.Serv.PlanCache.Answers.{get_or_plan-Answered}

-- A call that changes the cache: of `get_or_plan`, with what the closure would build, or of `clear`.
pub data Call (P : Type 0) : Type 0 where
  gets : OperationHash → P → Call P
  clears : Call P

module _ {P : Type 0} (visit : Plans P → Plans P) where
  abbrev pub after_call : PlanCache P → Call P → PlanCache P
  after_call c (gets hash plan) = (get_or_plan visit c hash plan).1
  after_call c clears = clear c

  -- The cache after the calls, the last call first.
  abbrev pub after_calls : ℕ → List (Call P) → PlanCache P
  after_calls max_size [] = new_cache max_size
  after_calls max_size (call ∷ earlier) = after_call (after_calls max_size earlier) call

-- The call for the hash is among the calls, the last call first, with no `clear` behind it.
abbrev pub IsAsked : {P : Type 0} → OperationHash → List (Call P) → Type 0
IsAsked hash [] = ⊥
IsAsked hash (gets h plan ∷ earlier) = (h ≡ hash) ⊎ IsAsked hash earlier
IsAsked hash (clears ∷ earlier) = ⊥

module _ {P : Type 0} (visit : Plans P → Plans P) (order : IsOrder visit) where
  -- A cache without a capacity is never full, and loses no plan.
  unbounded_keeps :
      (c : PlanCache P) (hash h : OperationHash) (plan p : P)
      → c.max_size ≡ 0
      → lookup c.inner h ≡ some p
      → (q : P) × (lookup (get_or_plan visit c hash plan).1.inner h ≡ some q)
  unfolding get_or_plan store is_full
  unbounded_keeps c hash h plan p unbounded e = elim (Option-cases (lookup c.inner hash)) [
    | inr (old, found) ↦ rw (found, get_or_plan) (p, e)
    | inl missing ↦ rw (missing, get_or_plan, never) (by_hash (hash == h) refl)
  ]
    where
      never : is_full c ≡ false
      never = ground (arith, unbounded)

      by_hash :
          (b : Bool) → (hash == h) ≡ b → (q : P) × (lookup (insert hash plan c.inner) h ≡ some q)
      by_hash true same = (plan, rw (lookup-insert, same) refl)
      by_hash false other = (p, rw (lookup-insert, other) e)

  -- What holds of the cache after any calls.
  pub record IsBounded (max_size : ℕ) (calls : List (Call P)) : Type 0 where
    pub distinct : IsDistinct (keys (after_calls visit max_size calls).inner)
    pub sized : (after_calls visit max_size calls).max_size ≡ max_size
    pub bound : 0 < max_size → length (after_calls visit max_size calls).inner ≤ max_size
    pub kept :
        max_size ≡ 0
        → (h : OperationHash) → IsAsked h calls
        → (p : P) × (lookup (after_calls visit max_size calls).inner h ≡ some p)

  -- After any calls of `get_or_plan` and `clear`, one after the other, a new cache has no hash
  -- twice; with a capacity it holds at most that many plans; and with the capacity 0 it is without
  -- a bound, and holds a plan for every hash that was asked for since it was last cleared.
  pub after_calls-IsBounded : (max_size : ℕ) (calls : List (Call P)) → IsBounded max_size calls
  unfolding clear
  after_calls-IsBounded max_size [] = record {
    distinct = tt;
    sized = refl;
    bound = λ some_room. omega arith;
    kept = λ unbounded h asked. elim asked [ ];
  }
  after_calls-IsBounded max_size (clears ∷ earlier) =
      let before = after_calls-IsBounded max_size earlier in
      record {
        distinct = tt;
        sized = before.sized;
        bound = λ some_room. omega arith;
        kept = λ unbounded h asked. elim asked [ ];
      }
  after_calls-IsBounded max_size (gets hash plan ∷ earlier) =
      let before = after_calls-IsBounded max_size earlier in
      let c = after_calls visit max_size earlier in
      let a = get_or_plan-Answered visit order c hash plan before.distinct in
      record {
        distinct = a.distinct;
        sized = a.sized ∙ before.sized;
        bound = λ some_room.
            let within =
              a.bound (omega (arith, some_room, before.sized))
                (omega (arith, before.bound some_room, before.sized)) in
            omega (arith, within, before.sized);
        kept = λ unbounded h asked. elim asked [
          | inl same ↦ (_, ap (lookup (get_or_plan visit c hash plan).1.inner) (sym same) ∙ a.kept)
          | inr old ↦
              let (p, found) = before.kept unbounded h old in
              unbounded_keeps c hash h plan p (before.sized ∙ unbounded) found
        ];
      }
