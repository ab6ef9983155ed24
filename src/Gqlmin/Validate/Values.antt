-- ===== src/Gqlmin/Validate/Values.antt =====
-- In a document whose nodes name only nodes before them, the walk of a value, of arguments and of
-- directives ends, and collects the variables in them.
use magna.Base.{
  ℕ, zero, suc, ◌+◌, ◌≤◌, ◌<◌, ◌≡◌, ◌↔◌, refl, sym, ap, ◌∙◌, inl, inr, List, [], ◌∷◌, ◌++◌, Option,
  some, length, length-append, All, All-get, Memᴰ, append_assoc, append-nil, subst, some_inj, Bytes,
  arith,
}
use magna.Gqlmin.Ast.{
  NodeRange, Name, Value, variable, int, float, string, boolean, null, enum, list, object,
  ObjectField, Argument, Directive, Selection, Node, Document, project_all, slice_iter, slice,
  directives, arguments, object_fields, list_values, project_directive, project_argument,
  project_selection, project_object_field, project_value,
}
use magna.Gqlmin.Parse.Arena.{
  Projects, InRange, InRange-grows, FitsValue, FitsSelection, Fits, IsOrdered, Grows,
}
use magna.Gqlmin.Parse.Read.{sub_slice-InRange}
use magna.Gqlmin.Validate.{
  ◌>>=◌, for_each, Spans, node_fuel, collect_uses_in_value, collect_uses_in_arguments,
  collect_uses_in_directives, or_insert,
}
use magna.Gqlmin.Validate.Mentions.{
  InValue, here, item, entry, InArguments, InDirectives, Collects, Collects-none, Collects-iff,
  for_each-Collects, or_insert-Adds,
}

IsOrdered-right : (seen xs ys : List Node) → IsOrdered seen (xs ++ ys) → IsOrdered (seen ++ xs) ys
IsOrdered-right seen [] ys h = subst (λ t. IsOrdered t ys) (sym (append-nil seen)) h
IsOrdered-right seen (x ∷ xs) ys h =
    subst (λ t. IsOrdered t ys) (append_assoc seen (x ∷ []) xs)
      (IsOrdered-right (seen ++ x ∷ []) xs ys h.1)

pub InRange-end :
    {T : Type 0} (project : Node → Option T) (nodes : List Node) (r : NodeRange)
    → InRange project nodes r
    → r.start + r.len ≤ length nodes
InRange-end project nodes r h = omega (
  arith,
  ap length h.split,
  length-append h.before (h.items ++ h.after),
  length-append h.items h.after,
  h.starts,
  h.spans,
)

-- The item is read from a node with fewer than `k` nodes before it, which it fits.
pub record Within {T : Type 0} (doc : Document) (project : Node → Option T) (k : ℕ) (v : T)
    : Type 0 where
  pub node : Node
  pub seen : List Node
  pub reads : project node ≡ some v
  pub before : Grows seen doc.nodes
  pub bound : length seen < k
  pub fits : Fits seen node

module _ (doc : Document) (ordered : IsOrdered [] doc.nodes) where
  project_all-Within :
      {T : Type 0} (project : Node → Option T) (k : ℕ) (seen ns after : List Node)
      → IsOrdered seen (ns ++ after)
      → doc.nodes ≡ seen ++ (ns ++ after)
      → length seen + length ns ≤ k
      → All (Projects project) ns
      → (vs : List T) × (project_all project ns ≡ some vs) × All (Within doc project k) vs
  unfolding project_all
  project_all-Within project k seen [] after o e h p = ([], refl, tt)
  project_all-Within project k seen (n ∷ ns) after o e h p =
      let rest =
        project_all-Within project k (seen ++ n ∷ []) ns after o.1
          (e ∙ sym (append_assoc seen (n ∷ []) (ns ++ after)))
          (omega (arith, h, length-append seen (n ∷ []))) p.1 in
      (
        p.0.0 ∷ rest.0,
        rw (p.0.1, project_all, rest.1),
        (
          record {
            node = n;
            seen = seen;
            reads = p.0.1;
            before = (n ∷ (ns ++ after), e);
            bound = omega (arith, h);
            fits = o.0;
          },
          rest.2,
        ),
      )

  pub slice-Within :
      {T : Type 0} (project : Node → Option T) (k : ℕ) (r : NodeRange)
      → InRange project doc.nodes r
      → r.start + r.len ≤ k
      → (vs : List T) × (slice_iter (slice doc r project) ≡ some vs) × All (Within doc project k) vs
  unfolding slice_iter slice
  slice-Within project k r h le =
      let o =
        IsOrdered-right [] h.before (h.items ++ h.after) (subst (IsOrdered []) h.split ordered) in
      let read =
        project_all-Within project k h.before h.items h.after o h.split
          (omega (arith, le, h.starts, h.spans)) h.kinds in
      (read.0, rw (sub_slice-InRange doc.nodes project r h) read.1, read.2)

  FitsValue-of :
      (seen : List Node) (n : Node) (v : Value)
      → project_value n ≡ some v
      → Fits seen n
      → FitsValue seen v
  unfolding project_value
  FitsValue-of seen (Node.value w) v e f = subst (FitsValue seen) (some_inj e) f
  FitsValue-of seen _ v e f = cc

  FitsField-of :
      (seen : List Node) (n : Node) (f : ObjectField)
      → project_object_field n ≡ some f
      → Fits seen n
      → FitsValue seen f.value
  unfolding project_object_field
  FitsField-of seen (Node.object_field g) f e h =
      subst (λ (t : ObjectField). FitsValue seen t.value) (some_inj e) h
  FitsField-of seen _ f e h = cc

  FitsArgument-of :
      (seen : List Node) (n : Node) (a : Argument)
      → project_argument n ≡ some a
      → Fits seen n
      → FitsValue seen a.value
  unfolding project_argument
  FitsArgument-of seen (Node.argument b) a e h =
      subst (λ (t : Argument). FitsValue seen t.value) (some_inj e) h
  FitsArgument-of seen _ a e h = cc

  FitsDirective-of :
      (seen : List Node) (n : Node) (d : Directive)
      → project_directive n ≡ some d
      → Fits seen n
      → InRange project_argument seen d.arguments
  unfolding project_directive
  FitsDirective-of seen (Node.directive b) d e h =
      subst (λ (t : Directive). InRange project_argument seen t.arguments) (some_inj e) h
  FitsDirective-of seen _ d e h = cc

  pub FitsSelection-of :
      (seen : List Node) (n : Node) (s : Selection)
      → project_selection n ≡ some s
      → Fits seen n
      → FitsSelection seen s
  unfolding project_selection
  FitsSelection-of seen (Node.selection t) s e h = subst (FitsSelection seen) (some_inj e) h
  FitsSelection-of seen _ s e h = cc

  -- A loop over the items of a slice.
  pub slice-Collects :
      {T : Type 0} (project : Node → Option T) (k : ℕ) (r : NodeRange)
      (step : T → Spans → Option Spans) (P : T → Bytes → Type 0) (out : Spans)
      → InRange project doc.nodes r
      → r.start + r.len ≤ k
      → ((v : T) (mid : Spans) → Within doc project k v → Collects (step v mid) mid (P v))
      → Collects (slice_iter (slice doc r project) >>= λ items. for_each step items out) out (λ x.
        (items : List T) × (slice_iter (slice doc r project) ≡ some items)
        × ((v : T) × Memᴰ v items × P v x))
  slice-Collects {T} project k r step P out h le good =
      let (vs, e, within) = slice-Within project k r h le in
      rw e (
        Collects-iff _ out (λ x. (v : T) × Memᴰ v vs × P v x)
          (λ x. (items : List T) × (some vs ≡ some items) × ((v : T) × Memᴰ v items × P v x))
          (λ x. (
            λ w. (vs, refl, w),
            λ (items, p, w). subst (λ l. (v : T) × Memᴰ v l × P v x) (sym (some_inj p)) w,
          ))
          (for_each-Collects step P vs out
            (λ v mid m. good v mid (All-get (Within doc project k) vs within m))))

  list_iff :
      (r : NodeRange) (x : Bytes)
      → ((vs : List Value) × (slice_iter (list_values doc r) ≡ some vs)
          × ((v : Value) × Memᴰ v vs × InValue doc x v))
        ↔ InValue doc x (list r)
  list_iff r x = (λ (vs, e, (v, m, u)). item e m u, into)
    where
      into :
          InValue doc x (list r)
          → (vs : List Value) × (slice_iter (list_values doc r) ≡ some vs)
            × ((v : Value) × Memᴰ v vs × InValue doc x v)
      into (item {vs = vs} {v = v} e m u) = (vs, e, (v, m, u))

  object_iff :
      (r : NodeRange) (x : Bytes)
      → ((fs : List ObjectField) × (slice_iter (object_fields doc r) ≡ some fs)
          × ((f : ObjectField) × Memᴰ f fs × InValue doc x f.value))
        ↔ InValue doc x (object r)
  object_iff r x = (λ (fs, e, (f, m, u)). entry e m u, into)
    where
      into :
          InValue doc x (object r)
          → (fs : List ObjectField) × (slice_iter (object_fields doc r) ≡ some fs)
            × ((f : ObjectField) × Memᴰ f fs × InValue doc x f.value)
      into (entry {fs = fs} {f = f} e m u) = (fs, e, (f, m, u))

  pub collect_uses_in_value-Collects :
      (fuel : ℕ) (v : Value) (seen : List Node) (out : Spans)
      → Grows seen doc.nodes
      → length seen < fuel
      → FitsValue seen v
      → Collects (collect_uses_in_value fuel doc v out) out (λ x. InValue doc x v)
  unfolding collect_uses_in_value list_values object_fields
  collect_uses_in_value-Collects zero v seen out g h f = absurd (omega (arith, h))
  collect_uses_in_value-Collects (suc fuel) (variable n) seen out g h f = (
    or_insert n.value n.span out,
    refl,
    λ x.
        let both = or_insert-Adds n.value n.span out x in
        (
          λ m. elim (both.0 m) [ inl old ↦ inl old | inr e ↦ inr (here e) ],
          λ w. elim w [ inl old ↦ both.1 (inl old) | inr u ↦ both.1 (inr (name_of n x u)) ],
        ),
  )
    where
      name_of : (n : Name) (x : Bytes) → InValue doc x (variable n) → n.value ≡ x
      name_of n x (here e) = e
  collect_uses_in_value-Collects (suc fuel) (list r) seen out g h f =
      Collects-iff _ out _ (λ x. InValue doc x (list r)) (list_iff r)
        (slice-Collects project_value (length seen) r (collect_uses_in_value fuel doc)
          (λ v x. InValue doc x v) out (InRange-grows seen doc.nodes g project_value r f)
          (InRange-end project_value seen r f)
          (λ v mid w.
            collect_uses_in_value-Collects fuel v w.seen mid w.before (omega (arith, w.bound, h))
              (FitsValue-of w.seen w.node v w.reads w.fits)))
  collect_uses_in_value-Collects (suc fuel) (object r) seen out g h f =
      Collects-iff _ out _ (λ x. InValue doc x (object r)) (object_iff r)
        (slice-Collects project_object_field (length seen) r
          (λ f. collect_uses_in_value fuel doc f.value) (λ f x. InValue doc x f.value) out
          (InRange-grows seen doc.nodes g project_object_field r f)
          (InRange-end project_object_field seen r f)
          (λ v mid w.
            collect_uses_in_value-Collects fuel v.value w.seen mid w.before
              (omega (arith, w.bound, h)) (FitsField-of w.seen w.node v w.reads w.fits)))
  collect_uses_in_value-Collects (suc fuel) (int n) seen out g h f =
      Collects-none out _ (λ x u. elim u [ ])
  collect_uses_in_value-Collects (suc fuel) (float n) seen out g h f =
      Collects-none out _ (λ x u. elim u [ ])
  collect_uses_in_value-Collects (suc fuel) (string n) seen out g h f =
      Collects-none out _ (λ x u. elim u [ ])
  collect_uses_in_value-Collects (suc fuel) (boolean n) seen out g h f =
      Collects-none out _ (λ x u. elim u [ ])
  collect_uses_in_value-Collects (suc fuel) null seen out g h f =
      Collects-none out _ (λ x u. elim u [ ])
  collect_uses_in_value-Collects (suc fuel) (enum n) seen out g h f =
      Collects-none out _ (λ x u. elim u [ ])

  pub collect_uses_in_arguments-Collects :
      (r : NodeRange) (out : Spans)
      → InRange project_argument doc.nodes r
      → Collects (collect_uses_in_arguments doc r out) out (λ x. InArguments doc x r)
  unfolding collect_uses_in_arguments arguments
  collect_uses_in_arguments-Collects r out h =
      slice-Collects project_argument (length doc.nodes) r
        (λ a. collect_uses_in_value (node_fuel doc) doc a.value) (λ a x. InValue doc x a.value) out
        h (InRange-end project_argument doc.nodes r h)
        (λ a mid w.
          collect_uses_in_value-Collects (node_fuel doc) a.value w.seen mid w.before
            (omega (arith, w.bound)) (FitsArgument-of w.seen w.node a w.reads w.fits))

  pub collect_uses_in_directives-Collects :
      (r : NodeRange) (out : Spans)
      → InRange project_directive doc.nodes r
      → Collects (collect_uses_in_directives doc r out) out (λ x. InDirectives doc x r)
  unfolding collect_uses_in_directives directives
  collect_uses_in_directives-Collects r out h =
      slice-Collects project_directive (length doc.nodes) r
        (λ d. collect_uses_in_arguments doc d.arguments) (λ d x. InArguments doc x d.arguments) out
        h (InRange-end project_directive doc.nodes r h)
        (λ d mid w. collect_uses_in_arguments-Collects d.arguments mid (
          InRange-grows w.seen doc.nodes w.before project_argument d.arguments
            (FitsDirective-of w.seen w.node d w.reads w.fits)))
