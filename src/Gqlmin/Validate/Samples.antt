-- ===== src/Gqlmin/Validate/Samples.antt =====
-- Runs of the validation in crates/magna-gqlmin/src/validate.rs on a small document.
use magna.Base.{
  ℕ, ◌+◌, ◌≡◌, ◌↔◌, refl, false, true, List, [], ◌∷◌, ◌++◌, none, some, length, bytes, Bytes, arith,
}
use magna.Gqlmin.Ast.{
  empty_range, Name, named, Value, OperationDefinition, query, field, operation, Definition, Node,
  Document, slice_iter, definitions, project_selection, project_argument,
  project_variable_definition,
}
use magna.Gqlmin.Token.{eof}
use magna.Gqlmin.Scan.{insignificant}
use magna.Gqlmin.Lex.{step_at, start_pos, step_of, scan_token, single_kind}
use magna.Gqlmin.Parse.{ok}
use magna.Gqlmin.Parse.Arena.{InRange-empty, IsOrdered, FitsDefinition}
use magna.Gqlmin.Parse.Moves.{Ensures}
use magna.Gqlmin.Parse.Definitions.{parse_executable_document}
use magna.Gqlmin.Validate.{
  ValidationError, rule_no_undefined_variables, check_variables_for_operation,
  check_unique_operation_names, validate_operations,
}
use magna.Gqlmin.Validate.Names.{HasUniqueNames, check_unique_operation_names_iff}
use magna.Gqlmin.Validate.Checked.{UsesDeclared, check_variables_for_operation_iff}
use magna.Gqlmin.Validate.Rules.{
  IsValidDocument, validate_operations_iff, validate_operations-parse_executable_document,
}

abbrev text : Bytes
text = bytes "query($a:B){c(d:$a)}"

abbrev name_at : Bytes → ℕ → Name
name_at value start = record { value = value; span = record { start = start; end = start + 1 } }

abbrev declared : Node
declared = Node.variable_definition (record {
  name = name_at (bytes "a") 7;
  var_type = named (record { name = name_at (bytes "B") 9 });
  default_value = none;
  directives = empty_range;
})

abbrev given : Node
given =
    Node.argument
      (record { name = name_at (bytes "d") 14; value = Value.variable (name_at (bytes "a") 17) })

abbrev chosen : Node
chosen = Node.selection (
    field (record {
      alias = none;
      name = name_at (bytes "c") 12;
      arguments = record { start = 1; len = 1 };
      directives = record { start = 2; len = 0 };
      selection_set = none;
    }))

abbrev asked : OperationDefinition
asked = record {
  kind = query;
  name = none;
  variable_definitions = record { start = 0; len = 1 };
  directives = record { start = 1; len = 0 };
  selection_set = record {
    selections = record { start = 2; len = 1 };
    span = record { start = 11; end = 20 };
  };
  span = record { start = 0; end = 20 };
  shorthand = false;
}

abbrev doc : Document
doc = record {
  definitions_range = record { start = 3; len = 1 };
  nodes = declared ∷ given ∷ chosen ∷ Node.definition (operation asked) ∷ [];
}

asked-Fits :
    (more : List Node) → FitsDefinition (declared ∷ given ∷ chosen ∷ more) (operation asked)
unfolding project_variable_definition project_selection
asked-Fits more = (
  record {
    before = [];
    items = declared ∷ [];
    after = given ∷ chosen ∷ more;
    split = refl;
    starts = refl;
    spans = refl;
    kinds = ((_, refl), tt);
  },
  record {
    before = declared ∷ [];
    items = [];
    after = given ∷ chosen ∷ more;
    split = refl;
    starts = refl;
    spans = refl;
    kinds = tt;
  },
  record {
    before = declared ∷ given ∷ [];
    items = chosen ∷ [];
    after = more;
    split = refl;
    starts = refl;
    spans = refl;
    kinds = ((_, refl), tt);
  },
)

doc-IsOrdered : IsOrdered [] doc.nodes
unfolding project_argument
doc-IsOrdered = (
  (tt, InRange-empty _ _),
  (
    tt,
    (
      (
        record {
          before = declared ∷ [];
          items = given ∷ [];
          after = [];
          split = refl;
          starts = refl;
          spans = refl;
          kinds = ((_, refl), tt);
        },
        record {
          before = declared ∷ given ∷ [];
          items = [];
          after = [];
          split = refl;
          starts = refl;
          spans = refl;
          kinds = tt;
        },
        tt,
      ),
      (asked-Fits [], tt),
    ),
  ),
)

parsed :
    parse_executable_document text
    ≡ ok doc (record {
      lexer = record { source = text; pos = 20; started = true };
      peeked = some (record { kind = eof; span = record { start = 20; end = 20 } });
      nodes = [];
      scratch = [];
    })
unfolding parse_executable_document step_at start_pos insignificant step_of scan_token single_kind
parsed = refl

no_errors : validate_operations doc ≡ some []
unfolding validate_operations
no_errors = refl

check_variables_for_operation_iff_example :
    (added : List ValidationError) × (check_variables_for_operation doc asked [] []
      ≡ some ([] ++ added))
    × ((added ≡ []) ↔ UsesDeclared doc [] asked)
check_variables_for_operation_iff_example =
    check_variables_for_operation_iff doc doc-IsOrdered [] tt asked []
      (asked-Fits (Node.definition (operation asked) ∷ []))

check_unique_operation_names_iff_example :
    (added : List ValidationError) × (check_unique_operation_names (asked ∷ asked ∷ []) []
      ≡ [] ++ added)
    × ((added ≡ []) ↔ HasUniqueNames (asked ∷ asked ∷ []))
check_unique_operation_names_iff_example = check_unique_operation_names_iff (asked ∷ asked ∷ []) []

reads_definitions : slice_iter (definitions doc) ≡ some (operation asked ∷ [])
unfolding slice_iter definitions
reads_definitions = refl

validate_operations_iff_example :
    (errors : List ValidationError) × (validate_operations doc ≡ some errors)
    × ((errors ≡ []) ↔ IsValidDocument doc (operation asked ∷ []))
validate_operations_iff_example =
    validate_operations_iff doc (operation asked ∷ []) doc-IsOrdered reads_definitions

validate_operations-parse_executable_document_example :
    Ensures
      (λ doc _.
        (defs : List Definition) × (slice_iter (definitions doc) ≡ some defs)
        × ((errors : List ValidationError) × (validate_operations doc ≡ some errors)
            × ((errors ≡ []) ↔ IsValidDocument doc defs)))
      (parse_executable_document text)
validate_operations-parse_executable_document_example =
    validate_operations-parse_executable_document text (omega arith)

abbrev undeclared : OperationDefinition
undeclared = record asked { variable_definitions = empty_range }

-- The variable is used, but not declared.
undeclared_reported :
    check_variables_for_operation doc undeclared [] []
    ≡ some (
        record {
          rule = rule_no_undefined_variables;
          span = record { start = 17; end = 18 };
          message = "variable is used but not declared in the operation";
        }
        ∷ [])
unfolding check_variables_for_operation
undeclared_reported = refl

-- Two operations without a name.
anonymous_reported : length (check_unique_operation_names (asked ∷ asked ∷ []) []) ≡ 2
unfolding check_unique_operation_names
anonymous_reported = refl
