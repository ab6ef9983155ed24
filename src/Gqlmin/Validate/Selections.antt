-- ===== src/Gqlmin/Validate/Selections.antt =====
-- The walk of the selections of an operation ends, and collects what they use.
use magna.Base.{
  ℕ, zero, suc, ◌+◌, ◌≤◌, ◌<◌, ◌≡◌, ◌⊎◌, refl, sym, inl, inr, false, List, [], ◌∷◌, Option, none,
  some, length, Memᴰ, mem-cons_cases, contains, mem_of_contains, All, All-get, subst, some_inj,
  keys, lookup, mem-keys_of_lookup, mem_of_lookup, Bytes, bytes_eq, arith, Bool-cases,
}
use magna.Gqlmin.Ast.{
  NodeRange, SelectionSet, Selection, field, fragment_spread, inline_fragment, Field,
  FragmentSpread, InlineFragment, FragmentDefinition, Document, slice_iter, selections,
  project_argument, project_directive, project_selection, Node, fragment,
}
use magna.Gqlmin.Parse.Arena.{
  InRange, InRange-grows, FitsSelection, FitsOptionalSet, FitsDefinition, IsOrdered, Grows,
}
use magna.Gqlmin.Validate.{
  ◌>>=◌, for_each, Spans, Fragments, Uses, node_fuel, collect_uses_in_directives,
  collect_uses_in_selection, collect_uses_in_selection_set,
}
use magna.Gqlmin.Validate.Mentions.{InArguments, InDirectives, InSelections, Adds}
use magna.Gqlmin.Validate.Values.{
  InRange-end, Within, slice-Within, FitsSelection-of, collect_uses_in_arguments-Collects,
  collect_uses_in_directives-Collects,
}
use magna.Gqlmin.Validate.Walked.{
  Has, Covered, CoveredFragment, CoveredSet, CoveredItem, Has-mono, CoveredItem-mono, Walked,
  Walked-trans, Walked-iff, Walks, for_each-Walks,
}
use magna.Gqlmin.Validate.Items.{
  unvisited, unvisited_mono, unvisited-visit, InItem, InItem-InSelections, CoveredItem-Covered,
}

-- The ranges of the fragments can be read.
abbrev pub FragmentsFit : Document → Fragments → Type 0
FragmentsFit doc fragments =
    All (λ (p : Bytes × FragmentDefinition). FitsDefinition doc.nodes (fragment p.1)) fragments

abbrev with_used : Uses → Spans → Uses
with_used st out = record { visited = st.visited; used = out }

Adds-Has :
    (st : Uses) (out : Spans) (P : Bytes → Type 0) → Adds st.used P out → Has (with_used st out) P
Adds-Has st out P h x p = (h x).1 (inr p)

module _ (doc : Document) (ordered : IsOrdered [] doc.nodes) (fragments : Fragments)
    (fit : FragmentsFit doc fragments) where
  fragment_fits :
      (name : Bytes) (f : FragmentDefinition)
      → lookup fragments name ≡ some f
      → FitsDefinition doc.nodes (fragment f)
  fragment_fits name f e =
      All-get (λ (p : Bytes × FragmentDefinition). FitsDefinition doc.nodes (fragment p.1))
        fragments fit (mem_of_lookup fragments name f e)

  Adds-Walked :
      (st : Uses) (out : Spans) (P : Bytes → Type 0)
      → Adds st.used P out
      → Walked doc fragments st (with_used st out) P
  Adds-Walked st out P h = record {
    extends = (λ x m. m, λ x m. (h x).1 (inl m));
    sound = λ x m. (h x).0 m;
    closed = λ name f m l. inl m;
  }

  -- What is asked of the walk of a selection set inside the document, and of that of a fragment.
  abbrev Collected : (NodeRange → Uses → Option Uses) → NodeRange → Uses → Type 0
  Collected walk r st =
      Walks doc fragments (walk r st) st (λ x. InSelections doc fragments x r)
        (λ st'. Covered doc st' r)

  abbrev NestedOk : (NodeRange → Uses → Option Uses) → ℕ → ℕ → Type 0
  NestedOk nested k jumps =
      (r : NodeRange) (st : Uses)
      → InRange project_selection doc.nodes r
      → r.start + r.len < k
      → unvisited (keys fragments) st.visited ≤ jumps
      → Collected nested r st

  abbrev JumpOk : (NodeRange → Uses → Option Uses) → ℕ → Type 0
  JumpOk jump jumps =
      (r : NodeRange) (st : Uses)
      → InRange project_selection doc.nodes r
      → suc (unvisited (keys fragments) st.visited) ≤ jumps
      → Collected jump r st

  module _ (nested jump : NodeRange → Uses → Option Uses) (k jumps : ℕ)
      (go_in : NestedOk nested k jumps) (go_to : JumpOk jump jumps) (seen : List Node)
      (grows : Grows seen doc.nodes) (less : length seen < k) (st : Uses)
      (left : unvisited (keys fragments) st.visited ≤ jumps) where
    -- A set behind directives: those were added already.
    then_set :
        (r : NodeRange) (out : Spans) (P : Bytes → Type 0)
        → Adds st.used P out
        → InRange project_selection seen r
        → Walks doc fragments
            (nested r (with_used st out))
            st
            (λ x. P x ⊎ InSelections doc fragments x r)
            (λ st'. Has st' P × Covered doc st' r)
    then_set r out P adds h =
        let (last, e, w, c) =
          go_in r (with_used st out) (InRange-grows seen doc.nodes grows project_selection r h)
            (omega (arith, InRange-end project_selection seen r h, less)) left in
        (
          last,
          e,
          Walked-trans doc fragments st (with_used st out) last P
              (λ x. InSelections doc fragments x r) (Adds-Walked st out P adds) w,
          (Has-mono doc (with_used st out) last w.extends P (Adds-Has st out P adds), c),
        )

    inline-Walks :
        (s : InlineFragment)
        → FitsSelection seen (inline_fragment s)
        → Walks doc fragments
            (collect_uses_in_selection doc fragments nested jump (inline_fragment s) st)
            st
            (λ x. InItem doc fragments x (inline_fragment s))
            (λ st'. CoveredItem doc st' (inline_fragment s))
    unfolding collect_uses_in_selection
    inline-Walks s h =
        let (out, e, adds) =
          collect_uses_in_directives-Collects doc ordered s.directives st.used
            (InRange-grows seen doc.nodes grows project_directive s.directives h.0) in
        rw e
          (then_set s.selection_set.selections out (λ x. InDirectives doc x s.directives) adds h.1)

    field-Walks :
        (f : Field)
        → FitsSelection seen (field f)
        → Walks doc fragments
            (collect_uses_in_selection doc fragments nested jump (field f) st)
            st
            (λ x. InItem doc fragments x (field f))
            (λ st'. CoveredItem doc st' (field f))
    unfolding collect_uses_in_selection
    field-Walks f h =
        let (out, e, adds) =
          collect_uses_in_arguments-Collects doc ordered f.arguments st.used
            (InRange-grows seen doc.nodes grows project_argument f.arguments h.0) in
        let (out', e', adds') =
          collect_uses_in_directives-Collects doc ordered f.directives out
            (InRange-grows seen doc.nodes grows project_directive f.directives h.1) in
        rw (e, e') (by_set out out' adds adds' f.selection_set refl h.2)
      where
        both :
            (out out' : Spans)
            → Adds st.used (λ x. InArguments doc x f.arguments) out
            → Adds out (λ x. InDirectives doc x f.directives) out'
            → Adds st.used
                (λ x. InArguments doc x f.arguments ⊎ InDirectives doc x f.directives)
                out'
        both out out' a b x = (
          λ m. elim ((b x).0 m) [
            | inl mid ↦ elim ((a x).0 mid) [ inl old ↦ inl old | inr u ↦ inr (inl u) ]
            | inr u ↦ inr (inr u)
          ],
          λ w. elim w [
            | inl old ↦ (b x).1 (inl ((a x).1 (inl old)))
            | inr u ↦ elim u [ inl p ↦ (b x).1 (inl ((a x).1 (inr p))) | inr q ↦ (b x).1 (inr q) ]
          ],
        )

        by_set :
            (out out' : Spans)
            → Adds st.used (λ x. InArguments doc x f.arguments) out
            → Adds out (λ x. InDirectives doc x f.directives) out'
            → (o : Option SelectionSet) → f.selection_set ≡ o
            → FitsOptionalSet seen o
            → Walks doc fragments
                (elim o as (λ _. Option Uses) [
                  | none ↦ some (with_used st out')
                  | some inner ↦ nested inner.selections (with_used st out')
                ])
                st
                (λ x. InItem doc fragments x (field f))
                (λ st'. CoveredItem doc st' (field f))
        by_set out out' a b none p h =
            let adds = both out out' a b in
            (
              with_used st out',
              refl,
              Walked-iff doc fragments st (with_used st out') _
                  (λ x. InItem doc fragments x (field f))
                  (λ x u. elim u [ inl q ↦ inl q | inr q ↦ inr (inl q) ])
                  (Adds-Walked st out' _ adds),
              (
                λ x u. (adds x).1 (inr (inl u)),
                λ x u. (adds x).1 (inr (inr u)),
                subst (CoveredSet doc (with_used st out')) (sym p) tt,
              ),
            )
        by_set out out' a b (some s) p h =
            let (last, e, w, c) =
              then_set s.selections out'
                (λ x. InArguments doc x f.arguments ⊎ InDirectives doc x f.directives)
                (both out out' a b) h in
            (
              last,
              e,
              Walked-iff doc fragments st last _ (λ x. InItem doc fragments x (field f))
                  (λ x u. elim u [
                    | inl q ↦ elim q [ inl v ↦ inl v | inr v ↦ inr (inl v) ]
                    | inr q ↦ inr (inr (s, p, q))
                  ])
                  w,
              (λ x u. c.0 x (inl u), λ x u. c.0 x (inr u), subst (CoveredSet doc last) (sym p) c.1),
            )

    -- A fragment that is not visited yet, behind the directives of its spread.
    visit :
        (s : FragmentSpread) (out : Spans)
        → Adds st.used (λ x. InDirectives doc x s.directives) out
        → contains st.visited s.name.value ≡ false
        → (o : Option FragmentDefinition) → lookup fragments s.name.value ≡ o
        → Walks doc fragments
            (elim o as (λ _. Option Uses) [
              | none ↦ some (record { visited = s.name.value ∷ st.visited; used = out })
              | some frag ↦ collect_uses_in_directives doc frag.directives out >>= λ out.
                  jump frag.selection_set.selections
                    (record { visited = s.name.value ∷ st.visited; used = out })
            ])
            st
            (λ x. InItem doc fragments x (fragment_spread s))
            (λ st'. CoveredItem doc st' (fragment_spread s))
    visit s out adds new none l =
        let last : Uses = record { visited = s.name.value ∷ st.visited; used = out } in
        (
          last,
          refl,
          record {
            extends = (λ x m. Memᴰ.tail m, λ x m. (adds x).1 (inl m));
            sound = λ x m. elim ((adds x).0 m) [ inl old ↦ inl old | inr u ↦ inr (inl u) ];
            closed = λ name f m l'. elim (mem-cons_cases name s.name.value st.visited m) [
              | inl e ↦ cc (e, l, l')
              | inr old ↦ inl old
            ];
          },
          (Adds-Has st out _ adds, Memᴰ.head refl),
        )
    visit s out adds new (some frag) l =
        let fits = fragment_fits s.name.value frag l in
        let (out', e', adds') =
          collect_uses_in_directives-Collects doc ordered frag.directives out fits.0 in
        let start : Uses = record { visited = s.name.value ∷ st.visited; used = out' } in
        let (last, e, w, c) = go_to frag.selection_set.selections start fits.1 (
          omega (
            arith,
            left,
            unvisited-visit (keys fragments) st.visited s.name.value new
                (mem-keys_of_lookup fragments s.name.value frag l),
          )) in
        let covered : CoveredFragment doc last frag =
          (λ x u. w.extends.1 x ((adds' x).1 (inr u)), c) in
        (
          last,
          rw e' e,
          record {
            extends = (
              λ x m. w.extends.0 x (Memᴰ.tail m),
              λ x m. w.extends.1 x ((adds' x).1 (inl ((adds x).1 (inl m)))),
            );
            sound = λ x m. elim (w.sound x m) [
              | inl mid ↦ elim ((adds' x).0 mid) [
                | inl first ↦ elim ((adds x).0 first) [ inl old ↦ inl old | inr u ↦ inr (inl u) ]
                | inr u ↦ inr (inr (frag, l, inl u))
              ]
              | inr u ↦ inr (inr (frag, l, inr u))
            ];
            closed = λ name f m l'. elim (w.closed name f m l') [
              | inl mid ↦ elim (mem-cons_cases name s.name.value st.visited mid) [
                | inl same ↦
                    let agree : some frag ≡ some f = cc (same, l, l') in
                    inr (subst (CoveredFragment doc last) (some_inj agree) covered)
                | inr old ↦ inl old
              ]
              | inr done ↦ inr done
            ];
          },
          (
            λ x u. w.extends.1 x ((adds' x).1 (inl ((adds x).1 (inr u)))),
            w.extends.0 s.name.value (Memᴰ.head refl),
          ),
        )

    spread-Walks :
        (s : FragmentSpread)
        → FitsSelection seen (fragment_spread s)
        → Walks doc fragments
            (collect_uses_in_selection doc fragments nested jump (fragment_spread s) st)
            st
            (λ x. InItem doc fragments x (fragment_spread s))
            (λ st'. CoveredItem doc st' (fragment_spread s))
    unfolding collect_uses_in_selection
    spread-Walks s h =
        let (out, e, adds) =
          collect_uses_in_directives-Collects doc ordered s.directives st.used
            (InRange-grows seen doc.nodes grows project_directive s.directives h) in
        rw e (elim (Bool-cases (contains st.visited s.name.value)) [
          | inl old ↦ rw old (
            with_used st out,
            refl,
            Walked-iff doc fragments st (with_used st out) _
                (λ x. InItem doc fragments x (fragment_spread s)) (λ x u. inl u)
                (Adds-Walked st out _ adds),
            (Adds-Has st out _ adds, mem_of_contains st.visited s.name.value old),
          )
          | inr new ↦ rw new (visit s out adds new (lookup fragments s.name.value) refl)
        ])

    selection-Walks :
        (s : Selection)
        → FitsSelection seen s
        → Walks doc fragments
            (collect_uses_in_selection doc fragments nested jump s st)
            st
            (λ x. InItem doc fragments x s)
            (λ st'. CoveredItem doc st' s)
    selection-Walks (field f) h = field-Walks f h
    selection-Walks (fragment_spread s) h = spread-Walks s h
    selection-Walks (inline_fragment s) h = inline-Walks s h

  -- A set, by its selections.
  set-Walks :
      (nested jump : NodeRange → Uses → Option Uses) (k jumps : ℕ) (r : NodeRange) (st : Uses)
      → NestedOk nested k jumps
      → JumpOk jump jumps
      → InRange project_selection doc.nodes r
      → r.start + r.len ≤ k
      → unvisited (keys fragments) st.visited ≤ jumps
      → Walks doc fragments
          (slice_iter (selections doc r) >>= λ items.
            for_each (collect_uses_in_selection doc fragments nested jump) items st)
          st
          (λ x. InSelections doc fragments x r)
          (λ st'. Covered doc st' r)
  unfolding selections
  set-Walks nested jump k jumps r st go_in go_to h le left =
      let (items, e, within) = slice-Within doc ordered project_selection k r h le in
      let (last, e', w, c) =
        for_each-Walks doc fragments (collect_uses_in_selection doc fragments nested jump)
          (λ s x. InItem doc fragments x s) (λ s st'. CoveredItem doc st' s)
          (λ st'. unvisited (keys fragments) st'.visited ≤ jumps) items st
          (λ s a b ext. CoveredItem-mono doc a b ext s)
          (λ a b ext ok.
            omega (arith, ok, unvisited_mono (keys fragments) a.visited b.visited ext.0))
          (λ s mid m ok.
            let n = All-get (Within doc project_selection k) items within m in
            selection-Walks nested jump k jumps go_in go_to n.seen n.before n.bound mid ok s
              (FitsSelection-of doc ordered n.seen n.node s n.reads n.fits))
          left in
      (
        last,
        rw e e',
        Walked-iff doc fragments st last _ (λ x. InSelections doc fragments x r)
            (λ x (s, m, u). InItem-InSelections doc fragments x r items s e m u) w,
        CoveredItem-Covered doc last r items e c,
      )

  pub collect_uses_in_selection_set-Walks :
      (jumps fuel : ℕ) (r : NodeRange) (st : Uses)
      → InRange project_selection doc.nodes r
      → r.start + r.len < fuel
      → unvisited (keys fragments) st.visited ≤ jumps
      → Walks doc fragments
          (collect_uses_in_selection_set jumps fuel doc fragments r st)
          st
          (λ x. InSelections doc fragments x r)
          (λ st'. Covered doc st' r)
  unfolding collect_uses_in_selection_set
  collect_uses_in_selection_set-Walks zero zero r st h less left = absurd (omega (arith, less))
  collect_uses_in_selection_set-Walks (suc jumps) zero r st h less left =
      absurd (omega (arith, less))
  collect_uses_in_selection_set-Walks zero (suc fuel) r st h less left =
      set-Walks (collect_uses_in_selection_set zero fuel doc fragments) (λ _ _. none) fuel 0 r st
        (λ q s g below ok. collect_uses_in_selection_set-Walks zero fuel q s g below ok)
        (λ q s g bad. absurd (omega (arith, bad))) h (omega (arith, less)) left
  collect_uses_in_selection_set-Walks (suc jumps) (suc fuel) r st h less left =
      set-Walks (collect_uses_in_selection_set (suc jumps) fuel doc fragments)
        (collect_uses_in_selection_set jumps (node_fuel doc) doc fragments) fuel (suc jumps) r st
        (λ q s g below ok. collect_uses_in_selection_set-Walks (suc jumps) fuel q s g below ok)
        (λ q s g ok.
          collect_uses_in_selection_set-Walks jumps (node_fuel doc) q s g
            (omega (arith, InRange-end project_selection doc.nodes q g)) (omega (arith, ok)))
        h (omega (arith, less)) left
