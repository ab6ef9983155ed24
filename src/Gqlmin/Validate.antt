-- ===== src/Gqlmin/Validate.antt =====
-- crates/magna-gqlmin/src/validate.rs: the rules that need no schema. A panic is `none`, and so is
-- a walk whose fuel runs out. A `BTreeMap` that is iterated is an association list in the order
-- of its keys; one that is only looked up in is a map in the order of insertion, and a `BTreeSet`
-- is a list of its members.
pub mod Mentions
pub mod Values
pub mod Walked
pub mod Selections
pub mod Items
pub mod Variables
pub mod Declares
pub mod Checked
pub mod Tallies
pub mod Names
pub mod Defines
pub mod Rules
mod Samples
use magna.Base.{
  ℕ, zero, suc, ◌+◌, Bool, true, false, ◌&&◌, not, if◌then◌else◌, nat_eq, ◌==◌, ltb, nat_eqb, List,
  [], ◌∷◌, ◌++◌, Option, none, some, String, length, map, contains, Map, keys, lookup, insert,
  Bytes, bytes_eq,
}
use magna.Gqlmin.Token.{Span}
use magna.Gqlmin.Ast.{
  NodeRange, Name, Value, variable, list, object, SelectionSet, Selection, field, fragment_spread,
  inline_fragment, VariableDefinition, OperationDefinition, FragmentDefinition, Definition,
  operation, fragment, Document, slice_iter, definitions, variable_definitions, directives,
  arguments, selections, object_fields, list_values,
}

pub record ValidationError : Type 0 where
  pub rule : String
  pub span : Span
  pub message : String

abbrev pub rule_no_undefined_variables : String
rule_no_undefined_variables = "NoUndefinedVariables"

abbrev pub rule_no_unused_variables : String
rule_no_unused_variables = "NoUnusedVariables"

abbrev pub rule_no_unused_fragments : String
rule_no_unused_fragments = "NoUnusedFragments"

abbrev pub rule_known_fragment_names : String
rule_known_fragment_names = "KnownFragmentNames"

abbrev pub rule_unique_operation_names : String
rule_unique_operation_names = "UniqueOperationNames"

module _ {A B : Type 0} where
  infixl 1 ◌>>=◌
  abbrev pub ◌>>=◌ : Option A → (A → Option B) → Option B
  none >>= f = none
  some a >>= f = f a

-- A `for` loop over the items, with what it changes.
unfoldable pub for_each : {A S : Type 0} → (A → S → Option S) → List A → S → Option S
for_each step [] s = some s
for_each step (x ∷ xs) s = step x s >>= λ s'. for_each step xs s'

-- `Ord` of byte strings.
unfoldable pub bytes_ltb : Bytes → Bytes → Bool
bytes_ltb cs [] = false
bytes_ltb [] (d ∷ ds) = true
bytes_ltb (c ∷ cs) (d ∷ ds) =
    let rest = bytes_ltb cs ds in if ltb c d then true else if nat_eqb c d then rest else false

module _ {V : Type 0} where
  -- `BTreeMap::insert` of a key that is not there.
  unfoldable pub btree_insert : Bytes → V → Map Bytes V → Map Bytes V
  unfolding bytes_ltb
  btree_insert k v [] = (k, v) ∷ []
  btree_insert k v ((j, w) ∷ m) =
      if bytes_ltb k j then (k, v) ∷ (j, w) ∷ m else (j, w) ∷ btree_insert k v m

  -- `map.entry(k).or_insert(v)`
  unfoldable pub or_insert : Bytes → V → Map Bytes V → Map Bytes V
  unfolding btree_insert
  or_insert k v m = if contains (keys m) k then m else btree_insert k v m

abbrev pub Spans : Type 0
Spans = Map Bytes Span

abbrev pub Fragments : Type 0
Fragments = Map Bytes FragmentDefinition

-- The depth of a document is at most the number of its nodes.
abbrev pub node_fuel : Document → ℕ
node_fuel doc = suc (length doc.nodes)

unfoldable pub collect_uses_in_value : ℕ → Document → Value → Spans → Option Spans
unfolding slice_iter list_values object_fields for_each or_insert
collect_uses_in_value zero doc v out = none
collect_uses_in_value (suc fuel) doc v out = elim v [
  | variable name ↦ some (or_insert name.value name.span out)
  | list r ↦ slice_iter (list_values doc r) >>= λ items.
      for_each (collect_uses_in_value fuel doc) items out
  | object r ↦ slice_iter (object_fields doc r) >>= λ items.
      for_each (λ f. collect_uses_in_value fuel doc f.value) items out
  | _ ↦ some out
]

unfoldable pub collect_uses_in_arguments : Document → NodeRange → Spans → Option Spans
unfolding slice_iter arguments for_each collect_uses_in_value
collect_uses_in_arguments doc r out = slice_iter (arguments doc r) >>= λ items.
    for_each (λ a. collect_uses_in_value (node_fuel doc) doc a.value) items out

unfoldable pub collect_uses_in_directives : Document → NodeRange → Spans → Option Spans
unfolding slice_iter directives for_each collect_uses_in_arguments
collect_uses_in_directives doc r out = slice_iter (directives doc r) >>= λ items.
    for_each (λ d. collect_uses_in_arguments doc d.arguments) items out

-- The fragments that were visited, and the variables with the place of their first use.
pub record Uses : Type 0 where
  pub visited : List Bytes
  pub used : Spans

-- One selection. `nested` goes on in a selection set of the document, and `jump` in that of a
-- fragment that is visited for the first time.
unfoldable pub collect_uses_in_selection :
    Document
    → Fragments
    → (NodeRange → Uses → Option Uses)
    → (NodeRange → Uses → Option Uses)
    → Selection
    → Uses
    → Option Uses
unfolding collect_uses_in_arguments collect_uses_in_directives lookup
collect_uses_in_selection doc fragments nested jump (field f) st =
    collect_uses_in_arguments doc f.arguments st.used >>= λ out.
    collect_uses_in_directives doc f.directives out >>= λ out. elim f.selection_set [
      | none ↦ some (record st { used = out })
      | some inner ↦ nested inner.selections (record st { used = out })
    ]
collect_uses_in_selection doc fragments nested jump (fragment_spread s) st =
    collect_uses_in_directives doc s.directives st.used >>= λ out.
    if contains st.visited s.name.value
    then some (record st { used = out })
    else elim (lookup fragments s.name.value) [
      | none ↦ some (record { visited = s.name.value ∷ st.visited; used = out })
      | some frag ↦ collect_uses_in_directives doc frag.directives out >>= λ out.
          jump frag.selection_set.selections
            (record { visited = s.name.value ∷ st.visited; used = out })
    ]
collect_uses_in_selection doc fragments nested jump (inline_fragment s) st =
    collect_uses_in_directives doc s.directives st.used >>= λ out.
    nested s.selection_set.selections (record st { used = out })

-- The fuel is a bound on the fragments that are still to be visited, and one on the depth.
unfoldable pub collect_uses_in_selection_set :
    ℕ → ℕ → Document → Fragments → NodeRange → Uses → Option Uses
unfolding slice_iter selections for_each collect_uses_in_selection
collect_uses_in_selection_set jumps zero doc fragments r st = none
collect_uses_in_selection_set zero (suc fuel) doc fragments r st =
    slice_iter (selections doc r) >>= λ items.
    for_each
      (collect_uses_in_selection doc fragments
        (collect_uses_in_selection_set zero fuel doc fragments) (λ _ _. none))
      items st
collect_uses_in_selection_set (suc jumps) (suc fuel) doc fragments r st =
    slice_iter (selections doc r) >>= λ items.
    for_each
      (collect_uses_in_selection doc fragments
        (collect_uses_in_selection_set (suc jumps) fuel doc fragments)
        (collect_uses_in_selection_set jumps (node_fuel doc) doc fragments))
      items st

-- The names that are declared, in their order, and where each stands last.
pub record Declared : Type 0 where
  pub order : List Bytes
  pub spans : Spans

unfoldable pub declare : Declared → Name → Declared
unfolding lookup insert
declare d name = record {
  order = elim (lookup d.spans name.value) [ none ↦ d.order ++ name.value ∷ [] | some _ ↦ d.order ];
  spans = insert name.value name.span d.spans;
}

unfoldable pub declare_all : List Name → Declared → Declared
unfolding declare
declare_all [] d = d
declare_all (n ∷ ns) d = declare_all ns (declare d n)

-- The uses in the default value and the directives of a variable definition.
unfoldable pub collect_uses_in_definition : Document → VariableDefinition → Spans → Option Spans
unfolding collect_uses_in_value collect_uses_in_directives
collect_uses_in_definition doc vd out =
    elim vd.default_value [
      | none ↦ some out
      | some v ↦ collect_uses_in_value (node_fuel doc) doc v out
    ]
    >>= λ out. collect_uses_in_directives doc vd.directives out

-- All variables that an operation uses.
unfoldable pub collect_uses :
    Document → OperationDefinition → Fragments → List VariableDefinition → Option Spans
unfolding collect_uses_in_directives collect_uses_in_selection_set collect_uses_in_definition
    for_each
collect_uses doc op fragments vds = collect_uses_in_directives doc op.directives [] >>= λ out.
    collect_uses_in_selection_set (length fragments) (node_fuel doc) doc fragments
      op.selection_set.selections (record { visited = []; used = out })
    >>= λ st. for_each (collect_uses_in_definition doc) vds st.used

unfoldable pub undefined_errors : Spans → Spans → List ValidationError
undefined_errors declared [] = []
undefined_errors declared ((name, span) ∷ used) =
    let rest = undefined_errors declared used in
    if contains (keys declared) name
    then rest
    else record {
      rule = rule_no_undefined_variables;
      span = span;
      message = "variable is used but not declared in the operation";
    }
      ∷ rest

-- `declared_spans[name]` panics for a name that is not declared.
unfoldable pub unused_errors : Declared → Spans → List Bytes → Option (List ValidationError)
unfolding lookup
unused_errors declared used [] = some []
unused_errors declared used (name ∷ names) = unused_errors declared used names >>= λ rest.
    if contains (keys used) name
    then some rest
    else (lookup declared.spans name >>= λ span. some (
        record {
          rule = rule_no_unused_variables;
          span = span;
          message = "variable is declared but never used";
        }
        ∷ rest))

unfoldable pub check_variables_for_operation :
    Document
    → OperationDefinition
    → Fragments
    → List ValidationError
    → Option (List ValidationError)
unfolding slice_iter variable_definitions declare_all collect_uses undefined_errors unused_errors
check_variables_for_operation doc op fragments errors =
    slice_iter (variable_definitions doc op.variable_definitions) >>= λ vds.
    let declared = declare_all (map (λ vd. vd.name) vds) (record { order = []; spans = [] }) in
    collect_uses doc op fragments vds >>= λ used.
    unused_errors declared used declared.order >>= λ unused.
    some ((errors ++ undefined_errors declared.spans used) ++ unused)

-- The first error list of `check_unique_operation_names`: operations without a name.
unfoldable pub anonymous_errors : List OperationDefinition → List ValidationError
anonymous_errors [] = []
anonymous_errors (op ∷ ops) =
    let rest = anonymous_errors ops in
    elim op.name [
      | some _ ↦ rest
      | none ↦
          record {
            rule = rule_unique_operation_names;
            span = op.span;
            message = "anonymous operation is only allowed when it is the sole operation";
          }
          ∷ rest
    ]

-- The second: names that were seen before.
unfoldable pub reused_errors : List Bytes → List OperationDefinition → List ValidationError
reused_errors seen [] = []
reused_errors seen (op ∷ ops) = elim op.name [
  | none ↦ reused_errors seen ops
  | some n ↦
      let old = reused_errors seen ops in
      let new = reused_errors (n.value ∷ seen) ops in
      if contains seen n.value
      then record {
        rule = rule_unique_operation_names;
        span = n.span;
        message = "operation name is reused; operation names must be unique";
      }
        ∷ old
      else new
]

unfoldable pub check_unique_operation_names :
    List OperationDefinition → List ValidationError → List ValidationError
unfolding anonymous_errors reused_errors
check_unique_operation_names ops errors =
    (errors ++ (if ltb 1 (length ops) then anonymous_errors ops else [])) ++ reused_errors [] ops

-- How often each fragment is spread, and the errors.
pub record Spreads : Type 0 where
  pub counts : Map Bytes ℕ
  pub errors : List ValidationError

unfoldable pub count_of : Map Bytes ℕ → Bytes → ℕ
unfolding lookup
count_of counts name = elim (lookup counts name) [ none ↦ 0 | some n ↦ n ]

unfoldable pub walk_selection :
    Fragments → (NodeRange → Spreads → Option Spreads) → Selection → Spreads → Option Spreads
unfolding count_of insert
walk_selection fragments nested (field f) st = elim f.selection_set [
  | none ↦ some st
  | some inner ↦ nested inner.selections st
]
walk_selection fragments nested (fragment_spread s) st =
    if contains (keys fragments) s.name.value
    then some
        (record st { counts = insert s.name.value (count_of st.counts s.name.value + 1) st.counts })
    else some (record st {
      errors =
          st.errors
          ++ record {
            rule = rule_known_fragment_names;
            span = s.name.span;
            message = "fragment spread references an undefined fragment";
          }
            ∷ [];
    })
walk_selection fragments nested (inline_fragment s) st = nested s.selection_set.selections st

unfoldable pub walk_fragment_spreads :
    ℕ → Document → Fragments → NodeRange → Spreads → Option Spreads
unfolding slice_iter selections for_each walk_selection
walk_fragment_spreads zero doc fragments r st = none
walk_fragment_spreads (suc fuel) doc fragments r st = slice_iter (selections doc r) >>= λ items.
    for_each (walk_selection fragments (walk_fragment_spreads fuel doc fragments)) items st

-- What the first loop of `validate_operations` collects.
pub record Defined : Type 0 where
  pub fragments : Fragments
  pub counts : Map Bytes ℕ
  pub in_order : List FragmentDefinition
  pub operations : List OperationDefinition

unfoldable pub define : Defined → Definition → Defined
unfolding insert
define d (operation op) = record d { operations = d.operations ++ op ∷ [] }
define d (fragment f) = record {
  fragments = insert f.name.value f d.fragments;
  counts = insert f.name.value 0 d.counts;
  in_order = d.in_order ++ f ∷ [];
  operations = d.operations;
}

unfoldable pub define_all : List Definition → Defined → Defined
unfolding define
define_all [] d = d
define_all (x ∷ xs) d = define_all xs (define d x)

unfoldable pub unused_fragment_errors : Map Bytes ℕ → List FragmentDefinition → List ValidationError
unfolding count_of
unused_fragment_errors counts [] = []
unused_fragment_errors counts (f ∷ fs) =
    let rest = unused_fragment_errors counts fs in
    if count_of counts f.name.value == 0
    then record {
      rule = rule_no_unused_fragments;
      span = f.span;
      message = "fragment is defined but never spread";
    }
      ∷ rest
    else rest

unfoldable pub validate_operations : Document → Option (List ValidationError)
unfolding slice_iter definitions define_all check_unique_operation_names
    check_variables_for_operation walk_fragment_spreads unused_fragment_errors for_each
validate_operations doc = slice_iter (definitions doc) >>= λ defs.
    let d =
      define_all defs (record { fragments = []; counts = []; in_order = []; operations = [] }) in
    for_each (λ op errors. check_variables_for_operation doc op d.fragments errors) d.operations
      (check_unique_operation_names d.operations [])
    >>= λ errors.
        for_each
          (λ op. walk_fragment_spreads (node_fuel doc) doc d.fragments op.selection_set.selections)
          d.operations (record { counts = d.counts; errors = errors })
        >>= λ st.
            for_each
              (λ f.
                walk_fragment_spreads (node_fuel doc) doc d.fragments f.selection_set.selections)
              d.in_order st
            >>= λ st. some (st.errors ++ unused_fragment_errors st.counts d.in_order)
