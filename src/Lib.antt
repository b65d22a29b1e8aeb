-- ===== src/Lib.antt =====
-- dirbase serves JSON files as a REST resource each: collection queries, reads and writes of single
-- items, validation against a declared schema, and relations between tables that it finds itself.
--
-- The parts and their files (paths are from the repository's root):
--   src/query/types.rs, parser.rs, evaluator.rs, sort.rs, pagination.rs: Query/Types,
--     Query/Parser, Query/Evaluator, Query/Sort, Query/Pagination. A request's parameters are parsed
--     into filters, sort columns and a pagination; the rows are filtered, sorted and cut.
--   src/storage/index.rs and cache.rs: Storage/Index, Storage/Cache. The ids of rows, the index of a
--     cached snapshot, and the ids that are generated.
--   src/storage/validation.rs and validation/: Storage/Validation and its children.
--   src/app.rs: App/SchemaStore, App/Metrics and App/State. The schema store gives a resource a new
--     revision when its declared table is replaced; the state holds the store, the cache, the known
--     resources, the stored GraphQL schema, the counters, the events and the disk.
--   src/storage.rs, storage/cache.rs and storage/io.rs: Storage/Loading and its children,
--     Storage/Cache/Updates, Storage/Io and its children. A load takes the cached snapshot if it was
--     validated at the current revision, and else validates it or reads the file; a write goes to
--     the disk, to the cache and into the inferred schema.
--   src/resource_service.rs: Storage/Management, the creation and deletion of whole resources.
--   src/mutation_service.rs: Mutation and Mutation/Service. An operation is the closure that
--     update_locked_resource runs on a copy of the resource's value: it takes the value and returns
--     the changed value with the answer, or the error. Mutation/Service is the whole handler: load,
--     update, validation and write.
--   src/http/resource_routes.rs: Http/Items, the read of one item. src/http/embed.rs and
--     relations.rs: Http/Embed, related rows in place of ids.
--   src/sql/types.rs, executor.rs and export.rs: Sql/Types, Sql/Executor with Run and Fields, the
--     queries over the rows of several resources, from the parsed query on; Sql/Export, the resources
--     as statements.
--   src/schema/infer.rs: Schema/Infer and Storage/Loading/Source, the schema of the rows themselves.
--   src/schema/types.rs, relations.rs, validation.rs, merge.rs: Schema/Types with Names and Equal,
--     Schema/Relations with ManyToMany, Schema/Validation with Constraints, Schema/Merge.
--     A declared schema is laid over the inferred one, foreign keys are detected, and the result is
--     validated before the relations through junction tables are added.
--   src/error.rs: Error.
-- Storage/Admission puts the parts together: a world is a state and the validations under way, and an
-- event is what one handler does under one lock of the cache or of the schema store, so a list of
-- events is an interleaving of handlers. A handler as a whole is an Action: a function from the state
-- to the state it leaves and its result, an error included.
-- Definitions have the names of the functions that they model; a loop or a match with a name of its
-- own stands beside its function.
--
-- Shared: Prelude (numbers, lists, options), Text (strings of the standard library, decimal numerals),
-- BTreeMap (ordered maps as association lists in key order; a hash map is modelled the same way),
-- Json (serde_json's Value over an abstract type of numbers) and Runtime, the interface to what comes
-- from crates and from the floating-point unit: serde_json's numbers, f64, dates, UUIDs, patterns and
-- lowercase, and the JSON texts. App/FileSystem is the interface to the operating system and std::path.
-- The modules take both as instance arguments; a law that a theorem needs of one is a hypothesis of
-- that theorem. Runtime has no law that to_string_pretty and from_str undo each other: serde_json, as
-- the program uses it, may read a float back as a neighbour, and refuses more than 128 levels. An Arc is
-- the number of its allocation and its value. Numbers that compare equal are
-- taken to be the same, where a theorem says so: 0.0 and -0.0 are then one number.
--
-- Machine integers: a usize is 64 bits, with the wrapping of a release build written out; an i64 id
-- wraps in wrapping_suc; a revision and a counter wrap at 2 ^ 64 in wrapping_add. An Option that is none stands for a panic in Query/Pagination. The loops
-- are structural; only the decimal printing of a natural recurses on fuel, one more than the number
-- itself, which has fewer digits than that. The stable sort of the standard library is insertion sort
-- for a comparison that orders the items; for another, which the standard library allows to panic or to
-- give any order, the model promises nothing: sort_collection_data and run_sql_query are then none.
--
-- Not modelled: the locks themselves, the panic of a blocking task, the configuration and the text of
-- the metrics (src/app.rs), the parsers of schemas and the export of one (src/schema.rs,
-- src/schema/parse_*.rs), the parser of SQL (src/sql/parser.rs; the row offset that
-- run_sql_query parses again is an argument), GraphQL, OpenAPI and the HTTP glue, which are mostly
-- calls of crates.
pub mod Prelude
pub mod Text
pub mod BTreeMap
pub mod App
pub mod Error
pub mod Json
pub mod Runtime
pub mod Schema
pub mod Query
pub mod Storage
pub mod Mutation
pub mod Http
pub mod Sql
pub mod Tests
