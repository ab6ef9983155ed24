-- ===== src/Gqlmin/Validate/Tallies.antt =====
-- What the walk over fragment spreads counts and reports.
use magna.Base.{
  ℕ, zero, suc, ◌+◌, ◌<◌, ◌≡◌, ◌⊎◌, ◌↔◌, refl, sym, ap, ◌∙◌, inl, inr, Bool, true, false,
  if◌then◌else◌, ◌==◌, List, [], ◌∷◌, ◌++◌, append_assoc, append-nil, append-nil_iff, any-cons_iff,
  Option, none, some, length, All-get, Memᴰ, mem_cast, contains, mem_of_contains,
  not_mem_of_contains, subst, some_inj, Map, keys, lookup, insert, lookup-insert, Bytes, bytes_eq,
  eq_of_beq, beq_refl, arith, Bool-cases,
}
use magna.Gqlmin.Ast.{
  NodeRange, Selection, FragmentSpread, field, fragment_spread, inline_fragment, SelectionSet, Node,
  Document, slice_iter, selections, project_selection,
}
use magna.Gqlmin.Parse.Arena.{
  InRange, InRange-grows, FitsOptionalSet, FitsSelection, IsOrdered, Grows,
}
use magna.Gqlmin.Validate.{
  ◌>>=◌, for_each, Fragments, Spreads, count_of, walk_selection, walk_fragment_spreads,
  ValidationError,
}
use magna.Gqlmin.Validate.Values.{InRange-end, Within, slice-Within, FitsSelection-of}
use magna.Gqlmin.Validate.Walked.{IsSpread, spread, in_field, in_inline}

pub count_of-insert :
    (k : Bytes) (n : ℕ) (m : Map Bytes ℕ) (x : Bytes)
    → count_of (insert k n m) x ≡ (if k == x then n else count_of m x)
unfolding count_of
count_of-insert k n m x =
    ap (λ o. elim o as (λ _. ℕ) [ none ↦ 0 | some i ↦ i ]) (lookup-insert k x n m)
    ∙ by_test (k == x)
  where
    by_test :
        (b : Bool)
        → elim (if b then some n else lookup m x) as (λ _. ℕ) [ none ↦ 0 | some i ↦ i ]
          ≡ (if b then n else count_of m x)
    by_test true = refl
    by_test false = refl

module _ (fragments : Fragments) where
  -- For the names of which `P` holds: there is a report unless all are fragments, and the fragments
  -- among them are those that are counted now.
  pub record Tallied (P : Bytes → Type 0) (st st' : Spreads) : Type 0 where
    pub added : List ValidationError
    pub appended : st'.errors ≡ st.errors ++ added
    pub quiet : (added ≡ []) ↔ ((x : Bytes) → P x → Memᴰ x (keys fragments))
    pub counted :
        (x : Bytes)
        → (0 < count_of st'.counts x)
          ↔ ((0 < count_of st.counts x) ⊎ (P x × Memᴰ x (keys fragments)))

  abbrev pub Tallies : Option Spreads → Spreads → (Bytes → Type 0) → Type 0
  Tallies result st P = (st' : Spreads) × (result ≡ some st') × Tallied P st st'

  pub Tallies-none :
      (st : Spreads) (P : Bytes → Type 0) → ((x : Bytes) → ¬ P x) → Tallies (some st) st P
  Tallies-none st P never = (
    st,
    refl,
    record {
      added = [];
      appended = sym (append-nil st.errors);
      quiet = (λ e x p. absurd (never x p), λ h. refl);
      counted = λ x. (λ m. inl m, λ h. elim h [ inl m ↦ m | inr p ↦ absurd (never x p.0) ]);
    },
  )

  pub Tallies-iff :
      (result : Option Spreads) (st : Spreads) (P Q : Bytes → Type 0)
      → ((x : Bytes) → P x ↔ Q x)
      → Tallies result st P
      → Tallies result st Q
  Tallies-iff result st P Q same (st', e, h) = (
    st',
    e,
    record {
      added = h.added;
      appended = h.appended;
      quiet = (λ e x q. h.quiet.0 e x ((same x).1 q), λ k. h.quiet.1 (λ x p. k x ((same x).0 p)));
      counted = λ x. (
        λ m. elim ((h.counted x).0 m) [ inl old ↦ inl old | inr (p, n) ↦ inr ((same x).0 p, n) ],
        λ k. elim k [
          | inl old ↦ (h.counted x).1 (inl old)
          | inr (q, n) ↦ (h.counted x).1 (inr ((same x).1 q, n))
        ],
      );
    },
  )

  pub Tallies-bind :
      (result : Option Spreads) (next : Spreads → Option Spreads) (st : Spreads)
      (P Q : Bytes → Type 0)
      → Tallies result st P
      → ((mid : Spreads) → Tallies (next mid) mid Q)
      → Tallies (result >>= next) st (λ x. P x ⊎ Q x)
  Tallies-bind result next st P Q (mid, e, h) k =
      let (last, e', h') = k mid in
      (
        last,
        rw e e',
        record {
          added = h.added ++ h'.added;
          appended =
              h'.appended
              ∙ ap (λ t. t ++ h'.added) h.appended
              ∙ append_assoc st.errors h.added h'.added;
          quiet = (
            λ none_added.
                let (p, q) = (append-nil_iff h.added h'.added).0 none_added in
                λ x u. elim u [ inl a ↦ h.quiet.0 p x a | inr b ↦ h'.quiet.0 q x b ],
            λ all.
                (append-nil_iff h.added h'.added).1
                  (h.quiet.1 (λ x a. all x (inl a)), h'.quiet.1 (λ x b. all x (inr b))),
          );
          counted = λ x. (
            λ m. elim ((h'.counted x).0 m) [
              | inl first ↦ elim ((h.counted x).0 first) [
                | inl old ↦ inl old
                | inr (p, n) ↦ inr (inl p, n)
              ]
              | inr (q, n) ↦ inr (inr q, n)
            ],
            λ w. elim w [
              | inl old ↦ (h'.counted x).1 (inl ((h.counted x).1 (inl old)))
              | inr (u, n) ↦ elim u [
                | inl p ↦ (h'.counted x).1 (inl ((h.counted x).1 (inr (p, n))))
                | inr q ↦ (h'.counted x).1 (inr (q, n))
              ]
            ],
          );
        },
      )

  pub for_each-Tallies :
      {A : Type 0} (step : A → Spreads → Option Spreads) (P : A → Bytes → Type 0) (xs : List A)
      (st : Spreads)
      → ((a : A) (mid : Spreads) → Memᴰ a xs → Tallies (step a mid) mid (P a))
      → Tallies (for_each step xs st) st (λ x. (a : A) × Memᴰ a xs × P a x)
  unfolding for_each
  for_each-Tallies {A} step P [] st k =
      Tallies-none st (λ x. (a : A) × Memᴰ a [] × P a x) (λ x h. elim h.1 [ ])
  for_each-Tallies {A} step P (a ∷ xs) st k =
      Tallies-iff _ st (λ x. P a x ⊎ ((b : A) × Memᴰ b xs × P b x))
        (λ x. (b : A) × Memᴰ b (a ∷ xs) × P b x) (λ x. any-cons_iff (λ b. P b x) a xs)
        (Tallies-bind (step a st) (for_each step xs) st (P a) (λ x. (b : A) × Memᴰ b xs × P b x)
          (k a st (Memᴰ.head refl))
          (λ mid. for_each-Tallies step P xs mid (λ b z m. k b z (Memᴰ.tail m))))

  -- A spread of a known fragment is counted, and one of an unknown fragment is reported.
  spread-Tallies :
      (nested : NodeRange → Spreads → Option Spreads) (s : FragmentSpread) (st : Spreads)
      → Tallies (walk_selection fragments nested (fragment_spread s) st) st (λ x. s.name.value ≡ x)
  unfolding walk_selection
  spread-Tallies nested s st = elim (Bool-cases (contains (keys fragments) s.name.value)) [
    | inl old ↦ rw old (
      _,
      refl,
      record {
        added = [];
        appended = sym (append-nil st.errors);
        quiet =
            (λ e x p. mem_cast p (mem_of_contains (keys fragments) s.name.value old), λ h. refl);
        counted = λ x. rw count_of-insert (elim (Bool-cases (s.name.value == x)) [
          | inl same ↦
              let e : s.name.value ≡ x = eq_of_beq s.name.value x same in
              rw same (
                λ m. inr (e, mem_cast e (mem_of_contains (keys fragments) s.name.value old)),
                λ k. omega arith,
              )
          | inr other ↦
              rw other
                (λ m. inl m, λ k. elim k [ inl m ↦ m | inr (p, n) ↦ cc (p, other, beq_refl x) ])
        ]);
      },
    )
    | inr new ↦ rw new (
      _,
      refl,
      record {
        added = _;
        appended = refl;
        quiet = (
          λ e. cc,
          λ h. absurd (not_mem_of_contains (keys fragments) s.name.value new (h s.name.value refl)),
        );
        counted = λ x. (
          λ m. inl m,
          λ k. elim k [
            | inl m ↦ m
            | inr (p, n) ↦
                absurd (not_mem_of_contains (keys fragments) s.name.value new (mem_cast (sym p) n))
          ],
        );
      },
    )
  ]

  abbrev pub Spread : Document → Bytes → Selection → Type 0
  Spread doc x (field f) =
      (s : SelectionSet) × (f.selection_set ≡ some s) × IsSpread doc x s.selections
  Spread doc x (fragment_spread s) = s.name.value ≡ x
  Spread doc x (inline_fragment s) = IsSpread doc x s.selection_set.selections

  module _ (doc : Document) (ordered : IsOrdered [] doc.nodes) where
    -- What is asked of the walk of the selection sets that end before `k`.
    abbrev NestedOk : (NodeRange → Spreads → Option Spreads) → ℕ → Type 0
    NestedOk nested k =
        (r : NodeRange) (st : Spreads)
        → InRange project_selection doc.nodes r
        → r.start + r.len < k
        → Tallies (nested r st) st (λ x. IsSpread doc x r)

    selection-Tallies :
        (nested : NodeRange → Spreads → Option Spreads) (k : ℕ)
        → NestedOk nested k
        → (seen : List Node) → Grows seen doc.nodes
        → length seen < k
        → (s : Selection) (st : Spreads) → FitsSelection seen s
        → Tallies (walk_selection fragments nested s st) st (λ x. Spread doc x s)
    unfolding walk_selection
    selection-Tallies nested k go seen g less (field f) st h = by_set f.selection_set h.2
      where
        by_set :
            (o : Option SelectionSet)
            → FitsOptionalSet seen o
            → Tallies
                (elim o as (λ _. Option Spreads) [
                  | none ↦ some st
                  | some inner ↦ nested inner.selections st
                ])
                st
                (λ x. (s : SelectionSet) × (o ≡ some s) × IsSpread doc x s.selections)
        by_set none fits =
            Tallies-none st
              (λ x. (s : SelectionSet) × (none ≡ some s) × IsSpread doc x s.selections)
              (λ x p. cc (p.1))
        by_set (some s) fits =
            Tallies-iff _ st (λ x. IsSpread doc x s.selections)
              (λ x. (t : SelectionSet) × (some s ≡ some t) × IsSpread doc x t.selections)
              (λ x. (
                λ p. (s, refl, p),
                λ (t, e, p).
                    subst (λ (u : SelectionSet). IsSpread doc x u.selections) (sym (some_inj e)) p,
              ))
              (go s.selections st
                (InRange-grows seen doc.nodes g project_selection s.selections fits)
                (omega (arith, less, InRange-end project_selection seen s.selections fits)))
    selection-Tallies nested k go seen g less (fragment_spread s) st h = spread-Tallies nested s st
    selection-Tallies nested k go seen g less (inline_fragment s) st h =
        go s.selection_set.selections st
          (InRange-grows seen doc.nodes g project_selection s.selection_set.selections h.1)
          (omega (arith, less, InRange-end project_selection seen s.selection_set.selections h.1))

    Spread-IsSpread_iff :
        (r : NodeRange) (items : List Selection) (x : Bytes)
        → slice_iter (selections doc r) ≡ some items
        → ((s : Selection) × Memᴰ s items × Spread doc x s) ↔ IsSpread doc x r
    Spread-IsSpread_iff r items x e = (λ (s, m, p). into s m p, back)
      where
        into : (s : Selection) → Memᴰ s items → Spread doc x s → IsSpread doc x r
        into (field f) m (s, p, u) = in_field e m p u
        into (fragment_spread s) m p = spread e m p
        into (inline_fragment s) m u = in_inline e m u

        there :
            (l : List Selection) (s : Selection)
            → slice_iter (selections doc r) ≡ some l
            → Memᴰ s l
            → Memᴰ s items
        there l s p m = subst (λ k. Memᴰ s k) (some_inj (sym p ∙ e)) m

        back : IsSpread doc x r → (s : Selection) × Memᴰ s items × Spread doc x s
        back (spread {items = l} {s = s} p m q) =
            (fragment_spread s, there l (fragment_spread s) p m, q)
        back (in_field {items = l} {f = f} {s = s} p m q u) =
            (field f, there l (field f) p m, (s, q, u))
        back (in_inline {items = l} {s = s} p m u) =
            (inline_fragment s, there l (inline_fragment s) p m, u)

    pub walk_fragment_spreads-Tallies :
        (fuel : ℕ) (r : NodeRange) (st : Spreads)
        → InRange project_selection doc.nodes r
        → r.start + r.len < fuel
        → Tallies (walk_fragment_spreads fuel doc fragments r st) st (λ x. IsSpread doc x r)
    unfolding walk_fragment_spreads selections
    walk_fragment_spreads-Tallies zero r st h less = absurd (omega (arith, less))
    walk_fragment_spreads-Tallies (suc fuel) r st h less =
        let (items, e, within) =
          slice-Within doc ordered project_selection fuel r h (omega (arith, less)) in
        rw e (
          Tallies-iff _ st (λ x. (s : Selection) × Memᴰ s items × Spread doc x s)
            (λ x. IsSpread doc x r) (λ x. Spread-IsSpread_iff r items x e)
            (for_each-Tallies (walk_selection fragments (walk_fragment_spreads fuel doc fragments))
              (λ s x. Spread doc x s) items st
              (λ s mid m.
                let n = All-get (Within doc project_selection fuel) items within m in
                selection-Tallies (walk_fragment_spreads fuel doc fragments) fuel
                  (λ q t i below. walk_fragment_spreads-Tallies fuel q t i below) n.seen n.before
                  n.bound s mid (FitsSelection-of doc ordered n.seen n.node s n.reads n.fits))))
