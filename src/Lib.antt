-- ===== src/Lib.antt =====
-- Lancedb C bindings: a model of the functions that a C program calls, over the memory that the two sides share, and proofs
-- about what they return, what they free and what they leave.
--
-- The program is a layer of `extern "C"` functions over the lancedb crate. A caller holds opaque handles, which are boxes
-- that the functions make, read, change and consume; strings and arrays go both ways as raw pointers. The
-- parts of the program meet in three places: in the memory, in the result codes with their messages (src/error.rs), and
-- in expressions, which src/expr.rs and src/json.rs build and the queries of src/query.rs consume.
--
--   Prelude, Text   shared names, lists by native numbers, byte strings: substring search, UTF-8 and NUL bytes
--   External        what comes from other crates: lancedb, DataFusion and Arrow are the fields of one record, a parameter of
--                   everything else; only the variants of their enumerations that src/ matches on are written out
--   Memory          cells by address and commands that may fault. `Box::into_raw` and `CString::into_raw` allocate,
--                   `Box::from_raw` and `CString::from_raw` give back, and a pointer that is dangling, of another type
--                   or out of bounds is a fault, as is the read of an array element that was not written. `libc::malloc`
--                   may fail: the memory holds the decisions to come.
--   Error           src/error.rs: the codes, error_to_error_code, the message setters, lancedb_free_string
--   Expr            src/expr.rs: the lancedb_expr_ functions. Expr/Build is a client that builds a whole syntax tree.
--   Json            src/json.rs: the builders of JSON functions, and Json/Matches the evaluation of a filter on exported arrays
--   Columns         the loop over an array of column names, as in lancedb_query_select
--   Query           src/query.rs: LanceDBQuery. Query/Settings is a client with any list of settings.
--   VectorQuery     src/query.rs and src/types.rs: LanceDBVectorQuery and the distance types, with a client of its own
--   QueryResult     src/query.rs: the export of results to Arrow's C data interface and its release
--   StringList      src/connection.rs and src/index.rs: the listing functions and the functions that free a list. The source
--                   writes the export of the names out in each function; the model has it once.
--   TableNames      src/connection.rs: the builder of one page of table names
--   Database        src/connection.rs, src/table.rs and src/index.rs: the functions that make one change by names. The databases
--                   are a state that a function takes and returns besides its code. Database/Requests is a client.
--   Reader          src/types.rs and src/table.rs: the reader of one batch, its import, and lancedb_table_add
--   Merge           src/table.rs: lancedb_table_merge_insert with its configuration
--   Connect         src/connection.rs: the connect builder, with a client, and the connection with the text that it keeps
--   Table           src/connection.rs and src/table.rs: making, opening and reading table handles
--   Nearest         src/table.rs: lancedb_table_nearest_to, which searches and exports at once
--   Index           src/index.rs: the creation of vector, scalar and full text indices
--   Session         src/connection.rs: sessions and registries of object store providers
--   Tests           runs at concrete inputs
--
-- Functions have the names of the source. State is passed on explicitly: a function of the interface is a command, from a
-- memory to a result and a memory, or a fault. Loops are structural recursion on the number of rounds, so that
-- nothing runs out of fuel; a theorem about a command says at once that it does not fault. Futures are run to their end
-- by `block_on` in the source, and are plain calls here.
--
-- Not modelled: what lancedb, DataFusion and Arrow do with their values; the machine width of `usize`, but for the count of the
-- rows in lancedb_json_matches, the one sum that the source tests; the statistics of session caches and
-- lancedb_run_on_stack of src/connection.rs; the list of versions and the metadata of src/table.rs;
-- lancedb_table_index_stats of src/index.rs; the runtime of src/lib.rs. Addresses are not used again after they are freed, so that a use
-- after a free is always a fault.
mod Prelude
pub mod Text
pub mod External
pub mod Memory
pub mod Error
pub mod Expr
pub mod Columns
pub mod Query
pub mod StringList
pub mod VectorQuery
pub mod Json
pub mod QueryResult
pub mod TableNames
pub mod Database
pub mod Reader
pub mod Merge
pub mod Connect
pub mod Table
pub mod Nearest
pub mod Index
pub mod Session
mod Tests
