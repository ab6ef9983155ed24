-- ===== src/Gqlmin/Validate/Defines.antt =====
-- What the loop over the definitions of a document collects.
use magna.Base.{
  ℕ, zero, suc, ◌+◌, ◌<◌, leb, length, some_inj, Option-cases, ◌≡◌, ◌⊎◌, ◌↔◌, refl, sym, ◌∙◌, inl,
  inr, ◌==◌, List, [], ◌∷◌, ◌++◌, append_assoc, append-nil, some, map, All, Memᴰ, mem-cons_cases,
  subst, Map, keys, lookup, insert, lookup-insert, mem-keys-insert, eq_of_beq, nat_eq,
  mem-keys_of_lookup, lookup_of_mem-keys, Bytes, bytes_eq, beq_refl, arith, Bool-cases,
}
use magna.Gqlmin.Scan.{drop}
use magna.Gqlmin.Parse.Read.{IsOrdered-Fits}
use magna.Gqlmin.Ast.{
  OperationDefinition, FragmentDefinition, Definition, operation, fragment, Node, Document,
  slice_iter, slice, sub_slice, take, project_all, definitions, project_definition,
}
use magna.Gqlmin.Parse.Arena.{FitsDefinition, Fits, IsOrdered}
use magna.Gqlmin.Validate.{Fragments, Defined, define, define_all, count_of, unused_fragment_errors}
use magna.Gqlmin.Validate.Tallies.{count_of-insert}
use magna.Gqlmin.Validate.Selections.{FragmentsFit}

abbrev pub operations_of : List Definition → List OperationDefinition
operations_of [] = []
operations_of (operation op ∷ ds) = op ∷ operations_of ds
operations_of (fragment f ∷ ds) = operations_of ds

abbrev pub fragments_of : List Definition → List FragmentDefinition
fragments_of [] = []
fragments_of (operation op ∷ ds) = fragments_of ds
fragments_of (fragment f ∷ ds) = f ∷ fragments_of ds

abbrev pub fragment_name : FragmentDefinition → Bytes
fragment_name f = f.name.value

-- `d` collects what `old` has, and then `ds`.
pub record Collected (old d : Defined) (ds : List Definition) : Type 0 where
  pub operations : d.operations ≡ old.operations ++ operations_of ds
  pub in_order : d.in_order ≡ old.in_order ++ fragments_of ds
  pub known :
      (x : Bytes)
      → Memᴰ x (keys d.fragments)
        ↔ (Memᴰ x (keys old.fragments) ⊎ Memᴰ x (map fragment_name (fragments_of ds)))
  pub counts : ((x : Bytes) → count_of old.counts x ≡ 0) → (x : Bytes) → count_of d.counts x ≡ 0

mem-keys-insert_iff :
    {V : Type 0} (k : Bytes) (v : V) (m : Map Bytes V) (x : Bytes)
    → Memᴰ x (keys (insert k v m)) ↔ (Memᴰ x (keys m) ⊎ (x ≡ k))
mem-keys-insert_iff {V} k v m x = (
  λ h. elim (mem-keys-insert k x v m h) [ inl e ↦ inr e | inr old ↦ inl old ],
  λ h. let (w, e) = found h in mem-keys_of_lookup (insert k v m) x w e,
)
  where
    found : Memᴰ x (keys m) ⊎ (x ≡ k) → (w : V) × (lookup (insert k v m) x ≡ some w)
    found h = rw lookup-insert (elim (Bool-cases (k == x)) [
      | inl same ↦ rw same (v, refl)
      | inr other ↦
          rw other
            (elim h [ inl old ↦ lookup_of_mem-keys m x old | inr e ↦ cc (e, other, beq_refl k) ])
    ])

count_of-insert_zero :
    (k : Bytes) (m : Map Bytes ℕ)
    → ((x : Bytes) → count_of m x ≡ 0)
    → (x : Bytes) → count_of (insert k 0 m) x ≡ 0
count_of-insert_zero k m h x = rw count_of-insert (ground (arith, h x))

pub define_all-Collected : (ds : List Definition) (d : Defined) → Collected d (define_all ds d) ds
unfolding define_all define
define_all-Collected [] d = record {
  operations = sym (append-nil d.operations);
  in_order = sym (append-nil d.in_order);
  known = λ x. (λ m. inl m, λ h. elim h [ inl m ↦ m | inr n ↦ elim n [ ] ]);
  counts = λ h. h;
}
define_all-Collected (operation op ∷ ds) d =
    let c = define_all-Collected ds (define d (operation op)) in
    record {
      operations = c.operations ∙ append_assoc d.operations (op ∷ []) (operations_of ds);
      in_order = c.in_order;
      known = c.known;
      counts = c.counts;
    }
define_all-Collected (fragment f ∷ ds) d =
    let c = define_all-Collected ds (define d (fragment f)) in
    record {
      operations = c.operations;
      in_order = c.in_order ∙ append_assoc d.in_order (f ∷ []) (fragments_of ds);
      known = λ x.
          let added = mem-keys-insert_iff f.name.value f d.fragments x in
          (
            λ m. elim ((c.known x).0 m) [
              | inl mid ↦ elim (added.0 mid) [ inl old ↦ inl old | inr e ↦ inr (Memᴰ.head e) ]
              | inr later ↦ inr (Memᴰ.tail later)
            ],
            λ h. (c.known x).1 (elim h [
              | inl old ↦ inl (added.1 (inl old))
              | inr m ↦
                  elim (mem-cons_cases x f.name.value (map fragment_name (fragments_of ds)) m) [
                    | inl e ↦ inl (added.1 (inr e))
                    | inr later ↦ inr later
                  ]
            ]),
          );
      counts = λ h. c.counts (count_of-insert_zero f.name.value d.counts h);
    }

insert-FragmentsFit :
    (doc : Document) (k : Bytes) (f : FragmentDefinition) (m : Fragments)
    → FitsDefinition doc.nodes (fragment f)
    → FragmentsFit doc m
    → FragmentsFit doc (insert k f m)
unfolding insert
insert-FragmentsFit doc k f [] h fit = (h, tt)
insert-FragmentsFit doc k f ((j, g) ∷ m) h fit = elim (Bool-cases (j == k)) [
  | inl same ↦ rw same (h, fit.1)
  | inr other ↦ rw other (fit.0, insert-FragmentsFit doc k f m h fit.1)
]

pub define_all-FragmentsFit :
    (doc : Document) (ds : List Definition) (d : Defined)
    → All (FitsDefinition doc.nodes) ds
    → FragmentsFit doc d.fragments
    → FragmentsFit doc (define_all ds d).fragments
unfolding define_all define
define_all-FragmentsFit doc [] d h k = k
define_all-FragmentsFit doc (operation op ∷ ds) d h k =
    define_all-FragmentsFit doc ds (define d (operation op)) h.1 k
define_all-FragmentsFit doc (fragment f ∷ ds) d h k =
    define_all-FragmentsFit doc ds (define d (fragment f)) h.1
      (insert-FragmentsFit doc f.name.value f d.fragments h.0 k)

pub unused_fragment_errors_iff :
    (counts : Map Bytes ℕ) (fs : List FragmentDefinition)
    → (unused_fragment_errors counts fs ≡ [])
      ↔ ((f : FragmentDefinition) → Memᴰ f fs → 0 < count_of counts f.name.value)
unfolding unused_fragment_errors
unused_fragment_errors_iff counts [] = (λ e f m. elim m [ ], λ h. refl)
unused_fragment_errors_iff counts (f ∷ fs) =
    let ih = unused_fragment_errors_iff counts fs in
    elim (Bool-cases (count_of counts f.name.value == 0)) [
      | inl none_left ↦ rw none_left (
        λ h. cc,
        λ h. absurd (
            omega
              (arith, h f (Memᴰ.head refl), eq_of_beq (count_of counts f.name.value) 0 none_left)),
      )
      | inr some_left ↦ rw some_left (
        λ e g m. elim (mem-cons_cases g f fs m) [
          | inl p ↦ rw p (ground (arith, some_left))
          | inr n ↦ ih.0 e g n
        ],
        λ h. ih.1 (λ g m. h g (Memᴰ.tail m)),
      )
    ]

module _ {A : Type 0} (P : A → Type 0) where
  All-take : (n : ℕ) (xs : List A) → All P xs → All P (take n xs)
  unfolding take
  All-take zero xs h = tt
  All-take (suc n) [] h = tt
  All-take (suc n) (x ∷ xs) h = (h.0, All-take n xs h.1)

  All-drop : (n : ℕ) (xs : List A) → All P xs → All P (drop n xs)
  unfolding drop
  All-drop zero xs h = h
  All-drop (suc n) [] h = tt
  All-drop (suc n) (x ∷ xs) h = All-drop n xs h.1

  All-sub_slice : (xs : List A) (start len : ℕ) → All P xs → All P (sub_slice xs start len)
  unfolding sub_slice
  All-sub_slice xs start len h = elim (Bool-cases (leb (start + len) (length xs))) [
    | inl inside ↦ rw inside (All-take len (drop start xs) (All-drop start xs h))
    | inr outside ↦ rw outside tt
  ]

FitsDefinition-of :
    (nodes : List Node) (n : Node) (d : Definition)
    → project_definition n ≡ some d
    → Fits nodes n
    → FitsDefinition nodes d
unfolding project_definition
FitsDefinition-of nodes (Node.definition c) d e h = subst (FitsDefinition nodes) (some_inj e) h
FitsDefinition-of nodes _ d e h = cc

project_all-Fits :
    (nodes ns : List Node) (ds : List Definition)
    → All (Fits nodes) ns
    → project_all project_definition ns ≡ some ds
    → All (FitsDefinition nodes) ds
unfolding project_all
project_all-Fits nodes [] ds h e = subst (All (FitsDefinition nodes)) (some_inj e) tt
project_all-Fits nodes (n ∷ ns) ds h e = elim (Option-cases (project_definition n)) [
  | inl p ↦ cc (rw (p, project_all) at e)
  | inr (d, p) ↦ elim (Option-cases (project_all project_definition ns)) [
    | inl q ↦ cc (rw (p, project_all, q) at e)
    | inr (rest, q) ↦
        let same : some (d ∷ rest) ≡ some ds = rw (p, project_all, q) at e in
        subst (All (FitsDefinition nodes)) (some_inj same)
          (FitsDefinition-of nodes n d p h.0, project_all-Fits nodes ns rest h.1 q)
  ]
]

-- The definitions that are read stand among the nodes.
pub definitions-Fit :
    (doc : Document) (ds : List Definition)
    → IsOrdered [] doc.nodes
    → slice_iter (definitions doc) ≡ some ds
    → All (FitsDefinition doc.nodes) ds
unfolding definitions slice_iter slice
definitions-Fit doc ds ordered e =
    project_all-Fits doc.nodes _ ds
      (All-sub_slice (Fits doc.nodes) doc.nodes _ _ (IsOrdered-Fits [] doc.nodes ordered)) e

pub operations_of-Fit :
    (nodes : List Node) (ds : List Definition)
    → All (FitsDefinition nodes) ds
    → All (λ op. FitsDefinition nodes (operation op)) (operations_of ds)
operations_of-Fit nodes [] h = tt
operations_of-Fit nodes (operation op ∷ ds) h = (h.0, operations_of-Fit nodes ds h.1)
operations_of-Fit nodes (fragment f ∷ ds) h = operations_of-Fit nodes ds h.1

pub fragments_of-Fit :
    (nodes : List Node) (ds : List Definition)
    → All (FitsDefinition nodes) ds
    → All (λ f. FitsDefinition nodes (fragment f)) (fragments_of ds)
fragments_of-Fit nodes [] h = tt
fragments_of-Fit nodes (operation op ∷ ds) h = fragments_of-Fit nodes ds h.1
fragments_of-Fit nodes (fragment f ∷ ds) h = (h.0, fragments_of-Fit nodes ds h.1)
