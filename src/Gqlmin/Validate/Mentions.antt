-- ===== src/Gqlmin/Validate/Mentions.antt =====
-- Which variables a part of a document uses, and what it means that a walk adds them.
use magna.Base.{
  ◌≡◌, ◌⊎◌, ◌↔◌, refl, sym, inl, inr, List, [], ◌∷◌, Option, some, Memᴰ, any-cons_iff, mem_cast,
  contains, mem_of_contains, Map, keys, lookup, Bytes, bytes_eq, Bool-cases,
}
use magna.Gqlmin.Token.{Span}
use magna.Gqlmin.Ast.{
  NodeRange, Name, Value, variable, list, object, ObjectField, Argument, Directive, Field,
  SelectionSet, FragmentSpread, InlineFragment, FragmentDefinition, Selection, field,
  fragment_spread, inline_fragment, Document, slice_iter, directives, arguments, selections,
  object_fields, list_values,
}
use magna.Gqlmin.Validate.{◌>>=◌, for_each, bytes_ltb, btree_insert, or_insert, Spans, Fragments}

-- The value holds the variable `x`.
pub data InValue (doc : Document) (x : Bytes) : Value → Type 0 where
  here : {n : Name} → n.value ≡ x → InValue doc x (variable n)
  item :
      {r : NodeRange} {vs : List Value} {v : Value}
      → slice_iter (list_values doc r) ≡ some vs
      → Memᴰ v vs
      → InValue doc x v
      → InValue doc x (list r)
  entry :
      {r : NodeRange} {fs : List ObjectField} {f : ObjectField}
      → slice_iter (object_fields doc r) ≡ some fs
      → Memᴰ f fs
      → InValue doc x f.value
      → InValue doc x (object r)

abbrev pub InArguments : Document → Bytes → NodeRange → Type 0
InArguments doc x r =
    (items : List Argument) × (slice_iter (arguments doc r) ≡ some items)
    × ((a : Argument) × Memᴰ a items × InValue doc x a.value)

abbrev pub InDirectives : Document → Bytes → NodeRange → Type 0
InDirectives doc x r =
    (ds : List Directive) × (slice_iter (directives doc r) ≡ some ds)
    × ((d : Directive) × Memᴰ d ds × InArguments doc x d.arguments)

-- The selection set uses `x`, in itself or in a fragment that it spreads, however far away.
pub data InSelections (doc : Document) (fragments : Fragments) (x : Bytes)
    : NodeRange → Type 0 where
  field_argument :
      {r : NodeRange} {items : List Selection} {f : Field}
      → slice_iter (selections doc r) ≡ some items
      → Memᴰ (field f) items
      → InArguments doc x f.arguments
      → InSelections doc fragments x r
  field_directive :
      {r : NodeRange} {items : List Selection} {f : Field}
      → slice_iter (selections doc r) ≡ some items
      → Memᴰ (field f) items
      → InDirectives doc x f.directives
      → InSelections doc fragments x r
  field_inner :
      {r : NodeRange} {items : List Selection} {f : Field} {s : SelectionSet}
      → slice_iter (selections doc r) ≡ some items
      → Memᴰ (field f) items
      → f.selection_set ≡ some s
      → InSelections doc fragments x s.selections
      → InSelections doc fragments x r
  spread_directive :
      {r : NodeRange} {items : List Selection} {s : FragmentSpread}
      → slice_iter (selections doc r) ≡ some items
      → Memᴰ (fragment_spread s) items
      → InDirectives doc x s.directives
      → InSelections doc fragments x r
  fragment_directive :
      {r : NodeRange} {items : List Selection} {s : FragmentSpread} {f : FragmentDefinition}
      → slice_iter (selections doc r) ≡ some items
      → Memᴰ (fragment_spread s) items
      → lookup fragments s.name.value ≡ some f
      → InDirectives doc x f.directives
      → InSelections doc fragments x r
  fragment_inner :
      {r : NodeRange} {items : List Selection} {s : FragmentSpread} {f : FragmentDefinition}
      → slice_iter (selections doc r) ≡ some items
      → Memᴰ (fragment_spread s) items
      → lookup fragments s.name.value ≡ some f
      → InSelections doc fragments x f.selection_set.selections
      → InSelections doc fragments x r
  inline_directive :
      {r : NodeRange} {items : List Selection} {s : InlineFragment}
      → slice_iter (selections doc r) ≡ some items
      → Memᴰ (inline_fragment s) items
      → InDirectives doc x s.directives
      → InSelections doc fragments x r
  inline_inner :
      {r : NodeRange} {items : List Selection} {s : InlineFragment}
      → slice_iter (selections doc r) ≡ some items
      → Memᴰ (inline_fragment s) items
      → InSelections doc fragments x s.selection_set.selections
      → InSelections doc fragments x r

-- The keys of `after` are those of `before` and the names of which `P` holds.
abbrev pub Adds : Spans → (Bytes → Type 0) → Spans → Type 0
Adds before P after = (x : Bytes) → Memᴰ x (keys after) ↔ (Memᴰ x (keys before) ⊎ P x)

-- The walk comes to its end, and adds those names.
abbrev pub Collects : Option Spans → Spans → (Bytes → Type 0) → Type 0
Collects result before P = (after : Spans) × (result ≡ some after) × Adds before P after

pub Collects-none :
    (out : Spans) (P : Bytes → Type 0) → ((x : Bytes) → ¬ P x) → Collects (some out) out P
Collects-none out P never =
    (out, refl, λ x. (λ m. inl m, λ h. elim h [ inl m ↦ m | inr p ↦ absurd (never x p) ]))

pub Collects-iff :
    (result : Option Spans) (out : Spans) (P Q : Bytes → Type 0)
    → ((x : Bytes) → P x ↔ Q x)
    → Collects result out P
    → Collects result out Q
Collects-iff result out P Q same (after, e, h) = (
  after,
  e,
  λ x. (
    λ m. elim ((h x).0 m) [ inl old ↦ inl old | inr p ↦ inr ((same x).0 p) ],
    λ k. elim k [ inl old ↦ (h x).1 (inl old) | inr q ↦ (h x).1 (inr ((same x).1 q)) ],
  ),
)

pub Collects-bind :
    (result : Option Spans) (next : Spans → Option Spans) (out : Spans) (P Q : Bytes → Type 0)
    → Collects result out P
    → ((mid : Spans) → Collects (next mid) mid Q)
    → Collects (result >>= next) out (λ x. P x ⊎ Q x)
Collects-bind result next out P Q (mid, e, h) k =
    let last = k mid in
    (
      last.0,
      rw e last.1,
      λ x. (
        λ m. elim ((last.2 x).0 m) [
          | inl old ↦ elim ((h x).0 old) [ inl first ↦ inl first | inr p ↦ inr (inl p) ]
          | inr q ↦ inr (inr q)
        ],
        λ w. elim w [
          | inl first ↦ (last.2 x).1 (inl ((h x).1 (inl first)))
          | inr pq ↦ elim pq [
            | inl p ↦ (last.2 x).1 (inl ((h x).1 (inr p)))
            | inr q ↦ (last.2 x).1 (inr q)
          ]
        ],
      ),
    )

pub for_each-Collects :
    {A : Type 0} (step : A → Spans → Option Spans) (P : A → Bytes → Type 0) (xs : List A)
    (out : Spans)
    → ((a : A) (mid : Spans) → Memᴰ a xs → Collects (step a mid) mid (P a))
    → Collects (for_each step xs out) out (λ x. (a : A) × Memᴰ a xs × P a x)
unfolding for_each
for_each-Collects {A} step P [] out k =
    Collects-none out (λ x. (a : A) × Memᴰ a [] × P a x) (λ x h. elim h.1 [ ])
for_each-Collects {A} step P (a ∷ xs) out k =
    Collects-iff _ out (λ x. P a x ⊎ ((b : A) × Memᴰ b xs × P b x))
      (λ x. (b : A) × Memᴰ b (a ∷ xs) × P b x) (λ x. any-cons_iff (λ b. P b x) a xs)
      (Collects-bind (step a out) (for_each step xs) out (P a) (λ x. (b : A) × Memᴰ b xs × P b x)
        (k a out (Memᴰ.head refl))
        (λ mid. for_each-Collects step P xs mid (λ b z m. k b z (Memᴰ.tail m))))

module _ {V : Type 0} (k : Bytes) (v : V) where
  -- What the insertion behind the first key does to its membership.
  behind :
      (x j : Bytes) (rest new : List Bytes)
      → (Memᴰ x new ↔ (Memᴰ x rest ⊎ (k ≡ x)))
      → Memᴰ x (j ∷ new) ↔ (Memᴰ x (j ∷ rest) ⊎ (k ≡ x))
  behind x j rest new ih = (into, out)
    where
      into : Memᴰ x (j ∷ new) → Memᴰ x (j ∷ rest) ⊎ (k ≡ x)
      into (Memᴰ.head e) = inl (Memᴰ.head e)
      into (Memᴰ.tail n) = elim (ih.0 n) [ inl old ↦ inl (Memᴰ.tail old) | inr e ↦ inr e ]

      out : Memᴰ x (j ∷ rest) ⊎ (k ≡ x) → Memᴰ x (j ∷ new)
      out (inl (Memᴰ.head e)) = Memᴰ.head e
      out (inl (Memᴰ.tail n)) = Memᴰ.tail (ih.1 (inl n))
      out (inr e) = Memᴰ.tail (ih.1 (inr e))

  front : (x : Bytes) (rest : List Bytes) → Memᴰ x (k ∷ rest) ↔ (Memᴰ x rest ⊎ (k ≡ x))
  front x rest = (into, out)
    where
      into : Memᴰ x (k ∷ rest) → Memᴰ x rest ⊎ (k ≡ x)
      into (Memᴰ.head e) = inr (sym e)
      into (Memᴰ.tail n) = inl n

      out : Memᴰ x rest ⊎ (k ≡ x) → Memᴰ x (k ∷ rest)
      out (inl n) = Memᴰ.tail n
      out (inr e) = Memᴰ.head (sym e)

  mem-btree_insert :
      (m : Map Bytes V) (x : Bytes)
      → Memᴰ x (keys (btree_insert k v m)) ↔ (Memᴰ x (keys m) ⊎ (k ≡ x))
  unfolding btree_insert
  mem-btree_insert [] x = front x []
  mem-btree_insert ((j, w) ∷ m) x =
      let ih = mem-btree_insert m x in
      elim (Bool-cases (bytes_ltb k j)) [
        | inl before ↦ rw before (front x (j ∷ keys m))
        | inr later ↦ rw later (behind x j (keys m) (keys (btree_insert k v m)) ih)
      ]

pub or_insert-Adds : (k : Bytes) (v : Span) (m : Spans) → Adds m (λ x. k ≡ x) (or_insert k v m)
unfolding or_insert
or_insert-Adds k v m x = elim (Bool-cases (contains (keys m) k)) [
  | inl old ↦
      rw old (
        λ n. inl n,
        λ h. elim h [ inl n ↦ n | inr e ↦ mem_cast e (mem_of_contains (keys m) k old) ],
      )
  | inr new ↦ rw new (mem-btree_insert k v m x)
]
