-- ===== src/Serv/PlanCache/Answers.antt =====
-- What a call of the cache answers, and what it leaves.
use magna.Base.{
  ℕ, suc, ◌≤◌, ◌<◌, ◌≡◌, ◌≢◌, refl, sym, ap, ◌∙◌, false, List, [], ◌∷◌, none, some, some_inj,
  length, map, Memᴰ, IsDistinct, keys, lookup, insert, lookup-insert, lookup-insert_self,
  lookup_of_mem, mem_of_lookup, insert-IsDistinct, nat_eq, ◌==◌, arith, Bool-cases, Option-cases,
  inl, inr, max,
}
use magna.Serv.PlanCache.{
  OperationHash, Plans, PlanCache, IsOrder, new_cache, is_full, retain, evict, store, get_or_plan,
}
use magna.Serv.PlanCache.Bounds.{retain-true, retain-false, is_full-room, length-insert}

module _ {P : Type 0} (visit : Plans P → Plans P) (order : IsOrder visit) where
  mem-retain : (m : Plans P) (e : OperationHash × P) → Memᴰ e (retain false m) → Memᴰ e m
  unfolding retain
  mem-retain [] e h = h
  mem-retain (x ∷ m) e h = Memᴰ.tail (rw (retain-true m) at h)

  -- What the cache after an eviction has, it had before.
  lookup-evict :
      (c : PlanCache P) (hash : OperationHash) (p : P)
      → IsDistinct (keys c.inner)
      → lookup (evict visit c).inner hash ≡ some p
      → lookup c.inner hash ≡ some p
  unfolding evict
  lookup-evict c hash p d e = lookup_of_mem c.inner hash p d (
      (order.entries c.inner (hash, p)).0 (
        mem-retain (visit c.inner) (hash, p)
          (mem_of_lookup (retain false (visit c.inner)) hash p e)))

  evict-IsDistinct :
      (c : PlanCache P) → IsDistinct (keys c.inner) → IsDistinct (keys (evict visit c).inner)
  unfolding evict
  evict-IsDistinct c d = (retain-false (visit c.inner) (order.distinct c.inner d)).1

  length-evict :
      (c : PlanCache P)
      → IsDistinct (keys c.inner)
      → suc (length (evict visit c).inner) ≤ max 1 (length c.inner)
  unfolding evict
  length-evict c d =
      omega
        (arith, (retain-false (visit c.inner) (order.distinct c.inner d)).0, order.count c.inner)

  -- What a call promises: the plan under its hash, nothing new under another hash, and a cache
  -- within its capacity if it has one.
  pub record Answered (c : PlanCache P) (hash : OperationHash) (plan : P) (answer : P)
      (c' : PlanCache P) : Type 0 where
    pub kept : lookup c'.inner hash ≡ some answer
    pub hit : (p : P) → lookup c.inner hash ≡ some p → (answer ≡ p) × (c' ≡ c)
    pub missed : lookup c.inner hash ≡ none → answer ≡ plan
    pub others :
        (h : OperationHash) (p : P)
        → hash ≢ h
        → lookup c'.inner h ≡ some p
        → lookup c.inner h ≡ some p
    pub distinct : IsDistinct (keys c'.inner)
    pub sized : c'.max_size ≡ c.max_size
    pub bound : 0 < c.max_size → length c.inner ≤ c.max_size → length c'.inner ≤ c.max_size

  store-Answered :
      (c mid : PlanCache P) (hash : OperationHash) (plan : P)
      → lookup c.inner hash ≡ none
      → ((h : OperationHash) (p : P) → lookup mid.inner h ≡ some p → lookup c.inner h ≡ some p)
      → IsDistinct (keys mid.inner)
      → mid.max_size ≡ c.max_size
      → (0 < c.max_size → length c.inner ≤ c.max_size → length mid.inner < c.max_size)
      → Answered c hash plan plan (store visit hash plan mid)
  unfolding store
  store-Answered c mid hash plan missing old d sized room = record {
    kept = lookup-insert_self hash plan mid.inner;
    hit = λ p e. cc (missing, e);
    missed = λ e. refl;
    others = λ h p other e. old h p (sym (elsewhere h other) ∙ e);
    distinct = insert-IsDistinct hash plan mid.inner d;
    sized = sized;
    bound = λ some_room fits. omega (arith, room some_room fits, length-insert hash plan mid.inner);
  }
    where
      elsewhere :
          (h : OperationHash)
          → hash ≢ h
          → lookup (insert hash plan mid.inner) h ≡ lookup mid.inner h
      elsewhere h other = rw lookup-insert (elim (Bool-cases (hash == h)) [
        | inl same ↦ absurd (other (ground (arith, same)))
        | inr ne ↦ rw ne refl
      ])

  pub get_or_plan-Answered :
      (c : PlanCache P) (hash : OperationHash) (plan : P)
      → IsDistinct (keys c.inner)
      → Answered c hash plan (get_or_plan visit c hash plan).0 (get_or_plan visit c hash plan).1
  unfolding get_or_plan
  get_or_plan-Answered c hash plan d = elim (Option-cases (lookup c.inner hash)) [
    | inr (p, e) ↦
        rw (e, get_or_plan)
          (record {
            kept = e;
            hit = λ q f. (some_inj (sym e ∙ f), refl);
            missed = λ f. cc (e, f);
            others = λ h q other f. f;
            distinct = d;
            sized = refl;
            bound = λ some_room fits. fits;
          })
    | inl missing ↦
        rw (missing, get_or_plan)
          (elim (Bool-cases (is_full c)) [
            | inl full ↦ rw full (
                store-Answered c (evict visit c) hash plan missing (λ h p e. lookup-evict c h p d e)
                  (evict-IsDistinct c d) refl
                  (λ some_room fits. omega (arith, length-evict c d, some_room, fits)))
            | inr free ↦ rw free (
                store-Answered c c hash plan missing (λ h p e. e) d refl
                  (λ some_room fits. is_full-room c some_room free))
          ])
  ]

  -- The calls for some hashes, one after the other, each with the plan of its hash to build.
  abbrev pub answer_all : (OperationHash → P) → PlanCache P → List OperationHash → List P
  answer_all plan_of c [] = []
  answer_all plan_of c (h ∷ hs) =
      let call = get_or_plan visit c h (plan_of h) in call.0 ∷ answer_all plan_of call.1 hs

  answer_all-extends :
      (plan_of : OperationHash → P) (c : PlanCache P) (hs : List OperationHash)
      → IsDistinct (keys c.inner)
      → ((h : OperationHash) (p : P) → lookup c.inner h ≡ some p → p ≡ plan_of h)
      → answer_all plan_of c hs ≡ map plan_of hs
  answer_all-extends plan_of c [] d right = refl
  answer_all-extends plan_of c (h ∷ hs) d right =
      let call = get_or_plan visit c h (plan_of h) in
      let a : Answered c h (plan_of h) call.0 call.1 = get_or_plan-Answered c h (plan_of h) d in
      let answered : call.0 ≡ plan_of h = elim (Option-cases (lookup c.inner h)) [
        | inl missing ↦ a.missed missing
        | inr (p, e) ↦ (a.hit p e).0 ∙ right h p e
      ] in
      let rest = answer_all-extends plan_of call.1 hs a.distinct (λ j p e.
        elim (Bool-cases (h == j)) [
          | inl same ↦
              let q : h ≡ j = ground (arith, same) in
              some_inj (sym e ∙ ap (lookup call.1.inner) (sym q) ∙ a.kept) ∙ answered ∙ ap plan_of q
          | inr ne ↦ right j p (a.others j p (λ q. ground (arith, q, ne)) e)
        ]) in
      rw (answered, rest) refl

  -- Through an empty cache of any capacity, calls in a row are answered as without a cache: each
  -- with the plan of its hash.
  pub answer_all-eq-map :
      (plan_of : OperationHash → P) (max_size : ℕ) (hs : List OperationHash)
      → answer_all plan_of (new_cache max_size) hs ≡ map plan_of hs
  unfolding lookup
  answer_all-eq-map plan_of max_size hs =
      answer_all-extends plan_of (new_cache max_size) hs tt (λ h p e. cc)
