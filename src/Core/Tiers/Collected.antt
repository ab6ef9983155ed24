-- ===== src/Core/Tiers/Collected.antt =====
-- The lists of steps that `compute_tiers` returns.
use magna.Base.{
  ℕ, zero, suc, ◌+◌, ◌<◌, ◌≡◌, refl, sym, ap, ◌∙◌, ◌↔◌, ◌≢◌, inl, inr, Bool, true, false, List, [],
  ◌∷◌, ◌++◌, none, some, some_inj, arith, Memᴰ, mem_left, mem_right, mem_split, Map, lookup, nat_eq,
  ◌==◌, length, length-replicate, get_elem?-replicate, get_elem?, set, replicate, IsDistinct,
  Option-cases, Bool-cases, eq_of_beq, ne_of_beq, beq_refl, append_assoc, append-nil, get_of_mem,
  mem_of_get, get_of_lt, lt-length_of_get,
}
use magna.Core.Step.{StepId, ok}
use magna.Core.Order.{IsTopological, IsTopological-closed, filter, mem_filter, filter-IsDistinct}
use magna.Core.Petgraph.{Petgraph}
use magna.Core.Planner.{ExecutionPlan}
use magna.Core.Planner.Index.{DependsOn}
use magna.Core.Tiers.{assign_tiers, collect_tiers, compute_tiers}
use magna.Core.Tiers.Levels.{HasTier, assign_tiers_lem}

unfoldable in_tier : Map StepId ℕ → ℕ → StepId → Bool
in_tier tier_of k id = elim (lookup tier_of id) [ none ↦ false | some t ↦ t == k ]

in_tier_iff :
    (tier_of : Map StepId ℕ) (k id : ℕ)
    → (in_tier tier_of k id ≡ true) ↔ (lookup tier_of id ≡ some k)
unfolding in_tier
in_tier_iff tier_of k id = elim (Option-cases (lookup tier_of id)) [
  | inl e ↦ rw (e, in_tier) (λ h. cc, λ h. cc)
  | inr (t, e) ↦ rw (e, in_tier) (λ h. ap some (eq_of_beq t k h), λ h. rw (some_inj h) (beq_refl k))
]

length-set {ℓ} : {A : Type ℓ} (xs : List A) (i : ℕ) (a : A) → length (set xs i a) ≡ length xs
length-set [] i a = refl
length-set (x ∷ xs) zero a = refl
length-set (x ∷ xs) (suc i) a = ap suc (length-set xs i a)

get-set_same {ℓ} :
    {A : Type ℓ} (xs : List A) (i : ℕ) (a b : A)
    → get_elem? xs i ≡ some b
    → get_elem? (set xs i a) i ≡ some a
get-set_same [] i a b h = cc h
get-set_same (x ∷ xs) zero a b h = refl
get-set_same (x ∷ xs) (suc i) a b h = get-set_same xs i a b h

get-set_other {ℓ} :
    {A : Type ℓ} (xs : List A) (i k : ℕ) (a : A) → i ≢ k → get_elem? (set xs i a) k ≡ get_elem? xs k
get-set_other [] i k a ne = refl
get-set_other (x ∷ xs) zero zero a ne = absurd (ne refl)
get-set_other (x ∷ xs) zero (suc k) a ne = refl
get-set_other (x ∷ xs) (suc i) zero a ne = refl
get-set_other (x ∷ xs) (suc i) (suc k) a ne = get-set_other xs i k a (λ p. ne (ap suc p))

-- Each step of the order goes to the end of its tier.
collect_tiers_lem :
    (tier_of : Map StepId ℕ) (order : List StepId) (tiers : List (List StepId))
    → ((id : StepId) → Memᴰ id order → (t : ℕ) × (lookup tier_of id ≡ some t) × (t < length tiers))
    → (out : List (List StepId)) × (collect_tiers tier_of order tiers ≡ ok out)
      × (length out ≡ length tiers)
      × ((k : ℕ) (tier : List StepId)
          → get_elem? tiers k ≡ some tier
          → get_elem? out k ≡ some (tier ++ filter (in_tier tier_of k) order))
unfolding collect_tiers filter in_tier
collect_tiers_lem tier_of [] tiers h = (tiers, refl, refl, λ k tier e. rw append-nil e)
collect_tiers_lem tier_of (id ∷ order) tiers h =
    let (t, at, lt) = h id (Memᴰ.head refl) in
    let (old, here) = get_of_lt tiers t lt in
    let next = set tiers t (old ++ id ∷ []) in
    let (out, e, len, r) =
      collect_tiers_lem tier_of order next
        (λ b m. let (s, at', lt') = h b (Memᴰ.tail m) in (s, at', rw length-set lt')) in
    (
      out,
      rw (at, here, collect_tiers) e,
      len ∙ length-set tiers t (old ++ id ∷ []),
      λ k tier hk. elim (Bool-cases (t == k)) [
        | inl same ↦
            let p = eq_of_beq t k same in
            let own : old ≡ tier = some_inj (sym here ∙ ap (get_elem? tiers) p ∙ hk) in
            let keep : in_tier tier_of k id ≡ true =
              (in_tier_iff tier_of k id).1 (at ∙ ap some p) in
            let got : get_elem? next k ≡ some (tier ++ id ∷ []) =
              rw (← p, ← own) (get-set_same tiers t (old ++ id ∷ []) old here) in
            r k (tier ++ id ∷ []) got ∙ rw (keep, filter) (ap some (append_assoc tier (id ∷ []) _))
        | inr other ↦
            let keep : in_tier tier_of k id ≡ false = rw (at, in_tier) other in
            let got : get_elem? next k ≡ some tier =
              get-set_other tiers t k (old ++ id ∷ []) (ne_of_beq t k other) ∙ hk in
            rw (keep, filter) (r k tier got)
      ],
    )

-- The dependencies of each step stand in `seen` or in earlier tiers.
abbrev pub IsTiered : (ℕ → ℕ → Type 0) → List StepId → List (List StepId) → Type 0
IsTiered D seen [] = Unit
IsTiered D seen (tier ∷ tiers) =
    ((b : StepId) → Memᴰ b tier → (a : StepId) → D a b → Memᴰ a seen)
    × IsDistinct tier
    × ((b : StepId) → Memᴰ b tier → ¬ Memᴰ b seen)
    × IsTiered D (tier ++ seen) tiers

-- `id` stands in one of the tiers.
abbrev pub InTiers : StepId → List (List StepId) → Type 0
InTiers id tiers = (tier : List StepId) × Memᴰ tier tiers × Memᴰ id tier

module _ (D : ℕ → ℕ → Type 0) (order : List StepId) (tier_of : Map StepId ℕ) (max_tier : ℕ)
    (has : (id : StepId) → Memᴰ id order → HasTier D tier_of max_tier id) (d : IsDistinct order)
    (known : (a b : StepId) → Memᴰ b order → D a b → Memᴰ a order) where
  -- Tiers from number `k` on, where `seen` has the steps of the earlier ones.
  tiers-IsTiered :
      (k : ℕ) (seen : List StepId) (tiers : List (List StepId))
      → ((j : ℕ)
          → j < length tiers
          → get_elem? tiers j ≡ some (filter (in_tier tier_of (k + j)) order))
      → ((id t : ℕ) → Memᴰ id order → lookup tier_of id ≡ some t → (t < k) ↔ Memᴰ id seen)
      → IsTiered D seen tiers
  tiers-IsTiered k seen [] each below = tt
  tiers-IsTiered k seen (tier ∷ tiers) each below = (
    λ b m a dep.
        let (n, at) = inside b m in
        let h = has b n in
        let (t, at', lt) = h.above a dep in
        let same : h.tier ≡ k = some_inj (sym h.at ∙ at) in
        (below a t (known a b n dep) at').0 (omega (arith, lt, same)),
    rw own (filter-IsDistinct (in_tier tier_of k) order d),
    λ b m old.
        let (n, at) = inside b m in let lt : k < k = (below b k n at).1 old in omega (arith, lt),
    tiers-IsTiered (suc k) (tier ++ seen) tiers
        (λ j lt.
          each (suc j) (omega arith)
          ∙ ap (λ i. some (filter (in_tier tier_of i) order)) (omega arith))
        (λ id t n at. (
          λ lt. elim (Bool-cases (t == k)) [
            | inl same ↦ mem_left tier seen (outside id n (rw (eq_of_beq t k same) at at))
            | inr other ↦
                let ne = ne_of_beq t k other in
                mem_right tier seen ((below id t n at).0 (below_of t lt ne))
          ],
          λ m. elim (mem_split tier seen m) [
            | inl here ↦
                let same : t ≡ k = some_inj (sym at ∙ (inside id here).1) in omega (arith, same)
            | inr old ↦ let lt = (below id t n at).1 old in omega (arith, lt)
          ],
        )),
  )
    where
      own : tier ≡ filter (in_tier tier_of k) order
      own =
          some_inj
            (each 0 (omega arith) ∙ ap (λ i. some (filter (in_tier tier_of i) order)) (omega arith))

      inside : (b : StepId) → Memᴰ b tier → Memᴰ b order × (lookup tier_of b ≡ some k)
      inside b m =
          let (n, e) = (mem_filter (in_tier tier_of k) order b).0 (rw own at m) in
          (n, (in_tier_iff tier_of k b).0 e)

      outside : (b : StepId) → Memᴰ b order → lookup tier_of b ≡ some k → Memᴰ b tier
      outside b n e =
          rw own ((mem_filter (in_tier tier_of k) order b).1 (n, (in_tier_iff tier_of k b).1 e))

      below_of : (t : ℕ) → t < suc k → t ≢ k → t < k
      below_of t lt ne = ground arith

module _ (P : Petgraph) {A : Type 0} (plan : ExecutionPlan P A) where
  -- The steps of an order that respects dependencies are grouped into tiers without a panic: each
  -- step of the order stands in a tier, no tier has another step or a step twice, no step is in two
  -- tiers, and all that a step depends on stands in an earlier tier.
  pub compute_tiers-IsTiered :
      (order : List StepId)
      → IsDistinct order
      → IsTopological (DependsOn P plan) [] order
      → (tiers : List (List StepId)) × (compute_tiers P order plan ≡ ok tiers)
        × IsTiered (DependsOn P plan) [] tiers
        × ((id : StepId) → InTiers id tiers ↔ Memᴰ id order)
  unfolding compute_tiers
  compute_tiers-IsTiered [] d t = ([], refl, tt, λ id. (λ (t, m, n). elim m [ ], λ m. elim m [ ]))
  compute_tiers-IsTiered (x ∷ rest) d t = (
    out,
    made.1,
    tiers-IsTiered (DependsOn P plan) order tier_of max_tier has d known 0 [] out
        (λ j lt. each j lt ∙ ap (λ i. some (filter (in_tier tier_of i) order)) (omega arith))
        (λ id s m at. (λ lt. elim lt [ ], λ k. elim k [ ])),
    λ id. (
      λ (tier, there, m).
          let (j, at) = get_of_mem out there in
          let own = some_inj (sym at ∙ each j (lt-length_of_get out j tier at)) in
          ((mem_filter (in_tier tier_of j) order id).0 (rw own at m)).0,
      λ m.
          let h = has id m in
          let lt : h.tier < length out = omega (arith, h.bound, made.2, size) in
          (
            filter (in_tier tier_of h.tier) order,
            mem_of_get out h.tier (each h.tier lt),
            (mem_filter (in_tier tier_of h.tier) order id).1
                (m, (in_tier_iff tier_of h.tier id).1 h.at),
          ),
    ),
  )
    where
      order : List StepId
      order = x ∷ rest

      tier_of : Map StepId ℕ
      tier_of = (assign_tiers P plan [] 0 (x ∷ rest)).0

      max_tier : ℕ
      max_tier = (assign_tiers P plan [] 0 (x ∷ rest)).1

      empty : List (List StepId)
      empty = replicate (max_tier + 1) []

      size : length empty ≡ max_tier + 1
      size = length-replicate (max_tier + 1) []

      has : (id : StepId) → Memᴰ id order → HasTier (DependsOn P plan) tier_of max_tier id
      has = assign_tiers_lem P plan (x ∷ rest) d t

      known : (a b : StepId) → Memᴰ b order → DependsOn P plan a b → Memᴰ a order
      known =
          IsTopological-closed (DependsOn P plan) [] order order (λ c m. elim m [ ]) (λ c m. m) t

      made :
          (out : List (List StepId)) × (collect_tiers tier_of order empty ≡ ok out)
          × (length out ≡ length empty)
          × ((k : ℕ) (tier : List StepId)
              → get_elem? empty k ≡ some tier
              → get_elem? out k ≡ some (tier ++ filter (in_tier tier_of k) order))
      made =
          collect_tiers_lem tier_of order empty
            (λ id m. let h = has id m in (h.tier, h.at, omega (arith, h.bound, size)))

      out : List (List StepId)
      out = made.0

      each : (j : ℕ) → j < length out → get_elem? out j ≡ some (filter (in_tier tier_of j) order)
      each j lt =
          made.3 j [] (get_elem?-replicate (max_tier + 1) j [] (omega (arith, lt, made.2, size)))
