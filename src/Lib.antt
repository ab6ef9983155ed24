-- ===== src/Lib.antt =====
-- Verification of magna, a GraphQL engine over PostgreSQL.
--
-- A request becomes steps, which are registered with a planner. `Planner::build` makes a graph of
-- them, `optimize` merges steps that do the same work and orders the rest, and `Executor::execute`
-- runs them tier by tier. Steps that read the database write their SQL with fragments, whose
-- parameters are numbered when a statement is built.
--
-- Base              shared helpers: tests, lists, members, maps, what a library returns; models no code
-- Core              crates/magna-core
--   Core.Flags        magna-types/src/step.rs: StepFlags
--   Core.Step         magna-core/src/step.rs, fingerprint.rs: StepOutput, StepFingerprint, ExecutableStep
--   Core.Batch        magna-core/src/batch.rs: BatchStep::execute
--   Core.Petgraph     the crate petgraph as an interface; Core.Petgraph.ListGraph fills it
--   Core.Planner      magna-core/src/planner.rs: ExecutionPlan, Planner
--   Core.Optimizer    magna-core/src/optimizer.rs: optimize and its passes
--   Core.Tiers        magna-core/src/executor.rs: compute_tiers
--   Core.Executor     magna-core/src/executor.rs: Executor::execute, check_propagating_flags
-- Types             crates/magna-types/src/pg.rs: PgValue
-- Sql               crates/magna-sql
--   Sql.Fragment      magna-sql/src/fragment.rs: SqlFragment and its build
--   Sql.Builders      magna-sql/src/insert_builder.rs, update_builder.rs, delete_builder.rs, builder.rs
--   Sql.Quoting       a quoted identifier against a reader of it
-- Gqlmin            crates/magna-gqlmin
--   Gqlmin.Token      magna-gqlmin/src/lex.rs, error.rs: Span, Token, ParseError
--   Gqlmin.Scan       magna-gqlmin/src/lex.rs: lex_name, lex_number, lex_string, lex_spread
--   Gqlmin.Lex        magna-gqlmin/src/lex.rs: Lexer, next_token
--   Gqlmin.Ast        magna-gqlmin/src/parse/mod.rs: Document, Node and the types below them
--   Gqlmin.Parse      magna-gqlmin/src/parse/mod.rs: Parser and its productions
--   Gqlmin.Validate   magna-gqlmin/src/validate.rs: validate_operations and its rules
-- Serv              crates/magna-serv
--   Serv.PlanCache    magna-serv/src/plan_cache.rs: PlanCache, its answers and how many plans it holds
--   Serv.Operations   magna-serv/src/plan_cache.rs: normalize_operation, hash_operation
--   Serv.Jwt          magna-serv/src/jwt.rs, rls.rs, error.rs, magna-types/src/auth.rs
--   Serv.SchemaRegistry  magna-serv/src/schema_registry.rs
-- Config            crates/magna-config
--   Config            magna-config/src/preset.rs, resolve.rs: Preset, Exposure, merge, validate
--   Config.Exposes    what an exposure allows
--   Config.Merges     what a merge leaves, and which presets are valid
-- Subscriptions     crates/magna-subscriptions
--   Subscriptions     magna-subscriptions/src/publisher.rs, listener.rs, error.rs
--   Subscriptions.Sizes     the sizes of payloads
--   Subscriptions.Channels  the channels of the manager
--
-- State is passed explicitly, and each function keeps the name of the source's: a method that
-- changes `self` returns the new record. The Rust functions that fail return a `Result`, which in
-- Core has a case for a panic; in Sql and Gqlmin.Validate, where only a panic can occur, it is
-- `none`. Loops are recursions on the list that they walk. Step ids, node indices and counters are
-- numbers without a width: no operation of the modelled code computes with an id, counters grow
-- with lists in memory, and the generation of a schema keeps its 64 bits. The only fuels are that
-- of `decimal`, where a number is enough for its own digits, and that of the lexer's calls up to
-- the end of a source, where one more than its length is enough, and that of the parser, where
-- twice the length and one is enough, and those of the walks of the validation, which bound the
-- depth of a document and the fragments that are not visited yet, where the number of its nodes and
-- that of its fragments are enough. A source is the list of its bytes; the lexer's positions are
-- `usize`, its spans and the ranges of the syntax tree keep `as u32`.
--
-- petgraph is a parameter: the laws of `Core.Petgraph` are what its documentation says of the
-- nodes and edges after each operation and of `toposort`, and `Core.Petgraph.ListGraph` shows that
-- they can hold. A step's `execute` is a field, and what it returns is arbitrary. Tasks of one tier
-- read only the outputs of earlier tiers, so their schedule is not modelled. A hash map is an
-- association list, walked in the order in which its keys were inserted; the order in which the
-- plan cache's `DashMap` is visited is a parameter, with the law that each entry comes once. The
-- verification of tokens, JSON values, uuids, the hash of an operation and the database are
-- parameters of Serv and Subscriptions.
--
-- Not modelled: the GraphQL schema parser, the printer of errors, the rules of the validation
-- against a schema, schema building, introspection, the data plan, concurrent calls of the plan
-- cache, whose `DashMap` locks one shard after another, and what is I/O: the routes of the server,
-- the database, the runtime.
--
pub mod Base
pub mod Core
pub mod Types
pub mod Sql
pub mod Gqlmin
pub mod Serv
pub mod Config
pub mod Subscriptions
