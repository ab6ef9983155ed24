-- ===== src/Gqlmin/Validate/Walked.antt =====
-- What a walk over selections keeps: it only adds, what it adds is used, and each fragment that it
-- visits is covered when it ends.
use magna.Base.{
  ◌≡◌, ◌⊎◌, refl, inl, inr, List, [], ◌∷◌, Option, none, some, Memᴰ, any-cons_iff, Includes, All,
  keys, lookup, Bytes, bytes_eq,
}
use magna.Gqlmin.Ast.{
  NodeRange, SelectionSet, Selection, field, fragment_spread, inline_fragment, Field,
  FragmentSpread, InlineFragment, FragmentDefinition, Document, slice_iter, selections,
}
use magna.Gqlmin.Validate.{for_each, Fragments, Uses}
use magna.Gqlmin.Validate.Mentions.{InArguments, InDirectives, InSelections}

-- The selection set spreads the fragment `name`, not counting what fragments spread.
pub data IsSpread (doc : Document) (name : Bytes) : NodeRange → Type 0 where
  spread :
      {r : NodeRange} {items : List Selection} {s : FragmentSpread}
      → slice_iter (selections doc r) ≡ some items
      → Memᴰ (fragment_spread s) items
      → s.name.value ≡ name
      → IsSpread doc name r
  in_field :
      {r : NodeRange} {items : List Selection} {f : Field} {s : SelectionSet}
      → slice_iter (selections doc r) ≡ some items
      → Memᴰ (field f) items
      → f.selection_set ≡ some s
      → IsSpread doc name s.selections
      → IsSpread doc name r
  in_inline :
      {r : NodeRange} {items : List Selection} {s : InlineFragment}
      → slice_iter (selections doc r) ≡ some items
      → Memᴰ (inline_fragment s) items
      → IsSpread doc name s.selection_set.selections
      → IsSpread doc name r

-- The state has all names of which `P` holds.
abbrev pub Has : Uses → (Bytes → Type 0) → Type 0
Has st P = (x : Bytes) → P x → Memᴰ x (keys st.used)

-- What stands in the selection set itself is in the state: with no fragments, `InSelections` is
-- about that only.
abbrev pub Covered : Document → Uses → NodeRange → Type 0
Covered doc st r =
    Has st (λ x. InSelections doc [] x r)
    × ((name : Bytes) → IsSpread doc name r → Memᴰ name st.visited)

abbrev pub CoveredFragment : Document → Uses → FragmentDefinition → Type 0
CoveredFragment doc st f =
    Has st (λ x. InDirectives doc x f.directives) × Covered doc st f.selection_set.selections

abbrev pub CoveredSet : Document → Uses → Option SelectionSet → Type 0
CoveredSet doc st none = Unit
CoveredSet doc st (some s) = Covered doc st s.selections

abbrev pub CoveredItem : Document → Uses → Selection → Type 0
CoveredItem doc st (field f) =
    Has st (λ x. InArguments doc x f.arguments)
    × Has st (λ x. InDirectives doc x f.directives)
    × CoveredSet doc st f.selection_set
CoveredItem doc st (fragment_spread s) =
    Has st (λ x. InDirectives doc x s.directives) × Memᴰ s.name.value st.visited
CoveredItem doc st (inline_fragment s) =
    Has st (λ x. InDirectives doc x s.directives) × Covered doc st s.selection_set.selections

abbrev pub Extends : Uses → Uses → Type 0
Extends st st' = Includes st'.visited st.visited × Includes (keys st'.used) (keys st.used)

module _ (doc : Document) (st st' : Uses) (e : Extends st st') where
  pub Has-mono : (P : Bytes → Type 0) → Has st P → Has st' P
  Has-mono P h x p = e.1 x (h x p)

  pub Covered-mono : (r : NodeRange) → Covered doc st r → Covered doc st' r
  Covered-mono r h = (λ x u. e.1 x (h.0 x u), λ n s. e.0 n (h.1 n s))

  CoveredFragment-mono :
      (f : FragmentDefinition) → CoveredFragment doc st f → CoveredFragment doc st' f
  CoveredFragment-mono f h = (λ x u. e.1 x (h.0 x u), Covered-mono f.selection_set.selections h.1)

  pub CoveredItem-mono : (s : Selection) → CoveredItem doc st s → CoveredItem doc st' s
  CoveredItem-mono (field f) h =
      (λ x u. e.1 x (h.0 x u), λ x u. e.1 x (h.1 x u), inner f.selection_set h.2)
    where
      inner : (s : Option SelectionSet) → CoveredSet doc st s → CoveredSet doc st' s
      inner none h = tt
      inner (some s) h = Covered-mono s.selections h
  CoveredItem-mono (fragment_spread s) h = (λ x u. e.1 x (h.0 x u), e.0 s.name.value h.1)
  CoveredItem-mono (inline_fragment s) h =
      (λ x u. e.1 x (h.0 x u), Covered-mono s.selection_set.selections h.1)

module _ (doc : Document) (fragments : Fragments) where
  -- From `st` to `st'` names of which `P` holds were added, and fragments visited and covered.
  pub record Walked (st st' : Uses) (P : Bytes → Type 0) : Type 0 where
    pub extends : Extends st st'
    pub sound : (x : Bytes) → Memᴰ x (keys st'.used) → Memᴰ x (keys st.used) ⊎ P x
    pub closed :
        (name : Bytes) (f : FragmentDefinition)
        → Memᴰ name st'.visited
        → lookup fragments name ≡ some f
        → Memᴰ name st.visited ⊎ CoveredFragment doc st' f

  pub Walked-trans :
      (a b c : Uses) (P Q : Bytes → Type 0)
      → Walked a b P
      → Walked b c Q
      → Walked a c (λ x. P x ⊎ Q x)
  Walked-trans a b c P Q h k = record {
    extends = (λ x m. k.extends.0 x (h.extends.0 x m), λ x m. k.extends.1 x (h.extends.1 x m));
    sound = λ x m. elim (k.sound x m) [
      | inl mid ↦ elim (h.sound x mid) [ inl old ↦ inl old | inr p ↦ inr (inl p) ]
      | inr q ↦ inr (inr q)
    ];
    closed = λ name f m l. elim (k.closed name f m l) [
      | inl mid ↦ elim (h.closed name f mid l) [
        | inl old ↦ inl old
        | inr covered ↦ inr (CoveredFragment-mono doc b c k.extends f covered)
      ]
      | inr covered ↦ inr covered
    ];
  }

  pub Walked-iff :
      (a b : Uses) (P Q : Bytes → Type 0) → ((x : Bytes) → P x → Q x) → Walked a b P → Walked a b Q
  Walked-iff a b P Q f h = record {
    extends = h.extends;
    sound = λ x m. elim (h.sound x m) [ inl old ↦ inl old | inr p ↦ inr (f x p) ];
    closed = h.closed;
  }

  -- The walk ends in a state of which `C` holds.
  abbrev pub Walks : Option Uses → Uses → (Bytes → Type 0) → (Uses → Type 0) → Type 0
  Walks result st P C = (st' : Uses) × (result ≡ some st') × Walked st st' P × C st'

  pub for_each-Walks :
      {A : Type 0} (step : A → Uses → Option Uses) (P : A → Bytes → Type 0) (C : A → Uses → Type 0)
      (Ok : Uses → Type 0) (xs : List A) (st : Uses)
      → ((a : A) (s t : Uses) → Extends s t → C a s → C a t)
      → ((s t : Uses) → Extends s t → Ok s → Ok t)
      → ((a : A) (mid : Uses) → Memᴰ a xs → Ok mid → Walks (step a mid) mid (P a) (C a))
      → Ok st
      → Walks
          (for_each step xs st)
          st
          (λ x. (a : A) × Memᴰ a xs × P a x)
          (λ st'. All (λ a. C a st') xs)
  unfolding for_each
  for_each-Walks step P C Ok [] st mono keep good ok = (
    st,
    refl,
    record { extends = (λ x m. m, λ x m. m); sound = λ x m. inl m; closed = λ name f m l. inl m },
    tt,
  )
  for_each-Walks {A} step P C Ok (a ∷ xs) st mono keep good ok =
      let (mid, e, w, c) = good a st (Memᴰ.head refl) ok in
      let (last, e', w', cs) =
        for_each-Walks step P C Ok xs mid mono keep (λ b s m k. good b s (Memᴰ.tail m) k)
          (keep st mid w.extends ok) in
      (
        last,
        rw e e',
        Walked-iff st last (λ x. P a x ⊎ ((b : A) × Memᴰ b xs × P b x))
            (λ x. (b : A) × Memᴰ b (a ∷ xs) × P b x) (λ x. (any-cons_iff (λ b. P b x) a xs).0)
            (Walked-trans st mid last (P a) (λ x. (b : A) × Memᴰ b xs × P b x) w w'),
        (mono a mid last w'.extends c, cs),
      )
