-- ===== src/Gqlmin/Validate/Items.antt =====
-- The walk of one selection, and what it is to cover all selections of a set.
use magna.Base.{
  ℕ, suc, ◌≤◌, ◌≡◌, ◌⊎◌, sym, inl, inr, Bool, true, false, if◌then◌else◌, List, [], ◌∷◌, some, Memᴰ,
  mem_cast, contains, mem_of_contains, Includes, All, All-get, subst, some_inj, ◌∙◌,
  contains_of_mem, beq_refl, keys, lookup, Bytes, bytes_eq, arith, Bool-cases,
}
use magna.Gqlmin.Ast.{
  NodeRange, SelectionSet, Selection, field, fragment_spread, inline_fragment, FragmentDefinition,
  Document, slice_iter, selections,
}
use magna.Gqlmin.Validate.{Fragments, Uses}
use magna.Gqlmin.Validate.Mentions.{
  InArguments, InDirectives, InSelections, field_argument, field_directive, field_inner,
  spread_directive, fragment_directive, fragment_inner, inline_directive, inline_inner,
}
use magna.Gqlmin.Validate.Walked.{
  IsSpread, spread, in_field, in_inline, Covered, CoveredSet, CoveredItem,
}

-- The fragments that are to be visited.
abbrev pub unvisited : List Bytes → List Bytes → ℕ
unvisited [] visited = 0
unvisited (k ∷ ks) visited =
    if contains visited k then unvisited ks visited else suc (unvisited ks visited)

pub unvisited_mono : (ks v w : List Bytes) → Includes w v → unvisited ks w ≤ unvisited ks v
unvisited_mono [] v w h = omega arith
unvisited_mono (k ∷ ks) v w h =
    let ih = unvisited_mono ks v w h in
    elim (Bool-cases (contains v k)) [
      | inl old ↦ rw (old, contains_of_mem w k (h k (mem_of_contains v k old))) ih
      | inr new ↦ rw new (by_test (contains w k) ih)
    ]
  where
    by_test :
        (b : Bool)
        → unvisited ks w ≤ unvisited ks v
        → (if b then unvisited ks w else suc (unvisited ks w)) ≤ suc (unvisited ks v)
    by_test true ih = omega arith
    by_test false ih = omega arith

pub unvisited-visit :
    (ks v : List Bytes) (n : Bytes)
    → contains v n ≡ false
    → Memᴰ n ks
    → suc (unvisited ks (n ∷ v)) ≤ unvisited ks v
unvisited-visit [] v n new m = elim m [ ]
unvisited-visit (k ∷ ks) v n new (Memᴰ.head e) =
    let ih = unvisited_mono ks v (n ∷ v) (λ x h. Memᴰ.tail h) in
    rw (← e, new, beq_refl n) (omega (arith, ih))
unvisited-visit (k ∷ ks) v n new (Memᴰ.tail m) =
    let ih = unvisited-visit ks v n new m in ground (arith, ih)

-- The names that one selection uses.
abbrev pub InItem : Document → Fragments → Bytes → Selection → Type 0
InItem doc fragments x (field f) =
    InArguments doc x f.arguments
    ⊎ (InDirectives doc x f.directives
        ⊎ ((s : SelectionSet) × (f.selection_set ≡ some s)
            × InSelections doc fragments x s.selections))
InItem doc fragments x (fragment_spread s) =
    InDirectives doc x s.directives
    ⊎ ((f : FragmentDefinition) × (lookup fragments s.name.value ≡ some f)
        × (InDirectives doc x f.directives
            ⊎ InSelections doc fragments x f.selection_set.selections))
InItem doc fragments x (inline_fragment s) =
    InDirectives doc x s.directives ⊎ InSelections doc fragments x s.selection_set.selections

pub InItem-InSelections :
    (doc : Document) (fragments : Fragments) (x : Bytes) (r : NodeRange) (items : List Selection)
    (s : Selection)
    → slice_iter (selections doc r) ≡ some items
    → Memᴰ s items
    → InItem doc fragments x s
    → InSelections doc fragments x r
InItem-InSelections doc fragments x r items (field f) e m (inl u) = field_argument e m u
InItem-InSelections doc fragments x r items (field f) e m (inr (inl u)) = field_directive e m u
InItem-InSelections doc fragments x r items (field f) e m (inr (inr (s, at, u))) =
    field_inner e m at u
InItem-InSelections doc fragments x r items (fragment_spread s) e m (inl u) = spread_directive e m u
InItem-InSelections doc fragments x r items (fragment_spread s) e m (inr (f, at, inl u)) =
    fragment_directive e m at u
InItem-InSelections doc fragments x r items (fragment_spread s) e m (inr (f, at, inr u)) =
    fragment_inner e m at u
InItem-InSelections doc fragments x r items (inline_fragment s) e m (inl u) = inline_directive e m u
InItem-InSelections doc fragments x r items (inline_fragment s) e m (inr u) = inline_inner e m u

-- A state that covers each selection covers the set.
pub CoveredItem-Covered :
    (doc : Document) (st : Uses) (r : NodeRange) (items : List Selection)
    → slice_iter (selections doc r) ≡ some items
    → All (CoveredItem doc st) items
    → Covered doc st r
unfolding lookup
CoveredItem-Covered doc st r items e all = (used, spreads)
  where
    at :
        {s : Selection} (found : List Selection)
        → slice_iter (selections doc r) ≡ some found
        → Memᴰ s found
        → CoveredItem doc st s
    at {s} found e' m =
        All-get (CoveredItem doc st) items all (subst (λ l. Memᴰ s l) (some_inj (sym e' ∙ e)) m)

    used : (x : Bytes) → InSelections doc [] x r → Memᴰ x (keys st.used)
    used x (field_argument {items = l} e' m u) = (at l e' m).0 x u
    used x (field_directive {items = l} e' m u) = (at l e' m).1 x u
    used x (field_inner {items = l} e' m p u) = (subst (CoveredSet doc st) p (at l e' m).2).0 x u
    used x (spread_directive {items = l} e' m u) = (at l e' m).0 x u
    used x (fragment_directive e' m p u) = cc
    used x (fragment_inner e' m p u) = cc
    used x (inline_directive {items = l} e' m u) = (at l e' m).0 x u
    used x (inline_inner {items = l} e' m u) = (at l e' m).1.0 x u

    spreads : (name : Bytes) → IsSpread doc name r → Memᴰ name st.visited
    spreads name (spread {items = l} e' m p) = mem_cast p (at l e' m).1
    spreads name (in_field {items = l} e' m p u) =
        (subst (CoveredSet doc st) p (at l e' m).2).1 name u
    spreads name (in_inline {items = l} e' m u) = (at l e' m).1.1 name u
