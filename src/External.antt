-- ===== src/External.antt =====
-- What the bindings take from other crates: lancedb, lance, DataFusion and Arrow. Their values and
-- functions are the fields of a record; the enumerations below list the variants that the
-- bindings match on or name.
use lancedb_c.Prelude.{Option, ℕ, ℤ, Bool, List}
use lancedb_c.Text.{Bytes}

-- `lance::Error`, as far as src/error.rs tells its variants apart.
pub data LanceSource : Type 0 where
  not_found index_not_found namespace other : LanceSource

-- `lancedb::error::Error`. A variant carries the text that src/error.rs reads of it: its message,
-- or the display of its source.
pub data Error : Type 0 where
  invalid_table_name : Error
  invalid_input : Bytes → Error
  table_not_found database_not_found database_already_exists index_not_found : Error
  embedding_function_not_found table_already_exists create_dir schema : Error
  runtime : Bytes → Error
  timeout : Error
  object_store : Bytes → Error
  lance : LanceSource → Bytes → Error
  http retry arrow not_supported other external : Error

-- `Result<T, E>`
pub data Result (A E : Type 0) : Type 0 where
  ok : A → Result A E
  err : E → Result A E

-- `datafusion_expr::Operator`, the variants that src/expr.rs names.
pub data Operator : Type 0 where
  eq not_eq lt lt_eq gt gt_eq and or plus minus multiply divide modulo : Operator

-- `lancedb::DistanceType`
pub data DistanceType : Type 0 where
  l2 cosine dot hamming : DistanceType

-- The user-defined functions of DataFusion that the bindings call.
pub data Udf : Type 0 where
  json_get_str json_get_int json_get_float json_get_bool json_contains json_get_array : Udf
  array_has concat : Udf

-- `datafusion_expr::ColumnarValue`
pub data ColumnarValue (A S : Type 0) : Type 0 where
  array : A → ColumnarValue A S
  scalar : S → ColumnarValue A S

-- The vector indices of `lancedb::index::Index` that the bindings build.
pub data IvfKind : Type 0 where
  flat pq hnsw_pq hnsw_sq : IvfKind

-- What a call that changes the databases returns, and the databases after it.
abbrev pub Effect : Type 0 → Type 0 → Type 0
Effect W A = Result A Error × W

pub record External : Type 1 where
  -- the databases behind the connections: a function that reads them takes their state
  pub World : Type 0
  -- DataFusion expressions and the functions that build them
  pub Expr : Type 0
  pub F64 : Type 0
  pub col : Bytes → Expr
  pub lit_string : Bytes → Expr
  pub lit_i64 : ℤ → Expr
  pub lit_f64 : F64 → Expr
  pub lit_bool : Bool → Expr
  pub binary_expr : Expr → Operator → Expr → Expr
  pub not_expr : Expr → Expr
  pub is_null_expr : Expr → Expr
  pub is_not_null_expr : Expr → Expr
  pub and_expr : Expr → Expr → Expr
  pub or_expr : Expr → Expr → Expr
  pub in_list_expr : Expr → List Expr → Bool → Expr
  pub scalar_function : Udf → List Expr → Expr
  pub cast_utf8 : Expr → Expr
  -- Arrow record batches, arrays and schemas, and what the C data interface makes of them
  pub Batch : Type 0
  pub Array : Type 0
  pub Schema : Type 0
  pub batch_schema : Batch → Schema
  pub export_schema : Schema → Result Schema Bytes
  pub export_batch : Batch → Array
  -- `FFI_ArrowArray.length`
  pub array_length : Array → ℤ
  -- the import of a schema, and the text of a failure
  pub ArrowSchema : Type 0
  pub import_schema : Schema → Result ArrowSchema Bytes
  pub num_rows : Batch → ℕ
  -- DataFusion: expressions made ready for a schema, and evaluated on a batch
  pub DfSchema : Type 0
  pub df_schema : ArrowSchema → Result DfSchema Bytes
  pub PhysicalExpr : Type 0
  pub create_physical_expr : Expr → DfSchema → Result PhysicalExpr Bytes
  pub Values : Type 0
  pub Scalar : Type 0
  pub evaluate : PhysicalExpr → Batch → Result (ColumnarValue Values Scalar) Bytes
  pub to_array_of_size : Scalar → ℕ → Result Values Bytes
  pub is_boolean : Values → Bool
  -- the debug text of the type of values, and the elements of Boolean values, `none` for a null
  pub data_type : Values → Bytes
  pub as_boolean : Values → List (Option Bool)
  -- lancedb tables, queries and result streams
  pub Table : Type 0
  pub Connection : Type 0
  pub F32 : Type 0
  pub Select : Type 0
  pub select_columns : List Bytes → Select
  pub Query : Type 0
  pub query : Table → Query
  pub query_limit : Query → ℕ → Query
  pub query_offset : Query → ℕ → Query
  pub query_select : Query → Select → Query
  pub query_df_filter : Query → Expr → Query
  pub query_only_if : Query → Bytes → Query
  pub VectorQuery : Type 0
  pub nearest_to : Query → List F32 → Result VectorQuery Error
  pub vector_column : VectorQuery → Bytes → VectorQuery
  pub vector_limit : VectorQuery → ℕ → VectorQuery
  pub vector_offset : VectorQuery → ℕ → VectorQuery
  pub vector_select : VectorQuery → Select → VectorQuery
  pub vector_df_filter : VectorQuery → Expr → VectorQuery
  pub vector_only_if : VectorQuery → Bytes → VectorQuery
  pub vector_distance_type : VectorQuery → DistanceType → VectorQuery
  pub vector_nprobes : VectorQuery → ℕ → VectorQuery
  pub vector_refine_factor : VectorQuery → ℕ → VectorQuery
  pub vector_ef : VectorQuery → ℕ → VectorQuery
  pub Stream : Type 0
  pub execute_query : World → Query → Result Stream Error
  pub execute_vector_query : World → VectorQuery → Result Stream Error
  pub collect : Stream → Result (List Batch) Error
  -- lancedb calls behind the listing functions
  pub TableNamesBuilder : Type 0
  pub table_names : Connection → TableNamesBuilder
  pub table_names_limit : TableNamesBuilder → ℕ → TableNamesBuilder
  pub table_names_start_after : TableNamesBuilder → Bytes → TableNamesBuilder
  pub execute_table_names : World → TableNamesBuilder → Result (List Bytes) Error
  pub list_namespaces : World → Connection → List Bytes → Result (List Bytes) Error
  pub list_indices : World → Table → Result (List Bytes) Error
  -- lancedb calls that change a database
  pub drop_table : World → Connection → Bytes → List Bytes → Effect World (Unit {0})
  pub rename_table :
      World → Connection → Bytes → Bytes → List Bytes → List Bytes → Effect World (Unit {0})
  pub drop_all_tables : World → Connection → List Bytes → Effect World (Unit {0})
  pub create_namespace : World → Connection → Bytes → Effect World (Unit {0})
  pub drop_namespace : World → Connection → Bytes → Effect World (Unit {0})
  pub delete : World → Table → Bytes → Effect World (Unit {0})
  pub df_delete : World → Table → Expr → Effect World (Unit {0})
  pub drop_index : World → Table → Bytes → Effect World (Unit {0})
  pub OptimizeAction : Type 0
  pub optimize_all : OptimizeAction
  pub optimize_compact : OptimizeAction
  pub optimize_prune : OptimizeAction
  pub optimize_index : OptimizeAction
  pub optimize : World → Table → OptimizeAction → Effect World (Unit {0})
  -- lancedb calls that take record batches: the schema and the batches of a reader
  pub add : World → Table → ArrowSchema → List Batch → Effect World (Unit {0})
  pub MergeBuilder : Type 0
  pub merge_insert : Table → List Bytes → MergeBuilder
  pub when_matched_update_all : MergeBuilder → Option Bytes → MergeBuilder
  pub when_matched_update_all_expr : MergeBuilder → Expr → MergeBuilder
  pub when_not_matched_insert_all : MergeBuilder → MergeBuilder
  pub execute_merge : World → MergeBuilder → ArrowSchema → List Batch → Effect World (Unit {0})
  pub validate_table_name : Bytes → Result (Unit {0}) Error
  pub create_table : World → Connection → Bytes → ArrowSchema → List Batch → Effect World Table
  pub open_table : World → Connection → Bytes → Result Table Error
  -- `from_ffi`, which may fail with a text, and `RecordBatch::from(&StructArray::from(…))`, with `none` for a panic of it
  pub struct_batch : Array → Schema → Result (Option Batch) Bytes
  pub table_schema : World → Table → Result Schema Error
  pub version : World → Table → Result ℕ Error
  pub count_rows : World → Table → Result ℕ Error
  -- lancedb connections, and the sessions and registries that they share
  pub Registry : Type 0
  pub default_registry : Registry
  pub Provider : Type 0
  pub insert_provider : Registry → Bytes → Provider → Registry
  pub Session : Type 0
  pub session_of : ℕ → ℕ → Registry → Session
  pub ConnectBuilder : Type 0
  pub connect : Bytes → ConnectBuilder
  pub storage_option : ConnectBuilder → Bytes → Bytes → ConnectBuilder
  pub with_session : ConnectBuilder → Session → ConnectBuilder
  pub execute_connect : World → ConnectBuilder → Effect World Connection
  pub uri : Connection → Bytes
  -- lancedb indices and their builders
  pub Index : Type 0
  pub auto_index : Index
  pub btree_index : Index
  pub bitmap_index : Index
  pub label_list_index : Index
  pub Ivf : IvfKind → Type 0
  pub ivf_default : (kind : IvfKind) → Ivf kind
  pub ivf_num_partitions : (kind : IvfKind) → Ivf kind → ℕ → Ivf kind
  pub ivf_num_sub_vectors : (kind : IvfKind) → Ivf kind → ℕ → Ivf kind
  pub ivf_max_iterations : (kind : IvfKind) → Ivf kind → ℕ → Ivf kind
  pub ivf_sample_rate : (kind : IvfKind) → Ivf kind → ℕ → Ivf kind
  pub ivf_distance_type : (kind : IvfKind) → Ivf kind → DistanceType → Ivf kind
  pub ivf_index : (kind : IvfKind) → Ivf kind → Index
  -- `x > 0.0`, `x as u32` and `0.0` of a `c_float`
  pub f32_positive : F32 → Bool
  pub f32_as_u32 : F32 → ℕ
  pub f32_zero : F32
  pub Fts : Type 0
  pub fts_default : Fts
  pub fts_base_tokenizer : Fts → Bytes → Fts
  pub fts_language : Fts → Bytes → Option Fts
  pub fts_max_token_length : Fts → Option ℕ → Fts
  pub fts_lower_case : Fts → Bool → Fts
  pub fts_stem : Fts → Bool → Fts
  pub fts_remove_stop_words : Fts → Bool → Fts
  pub fts_ascii_folding : Fts → Bool → Fts
  pub fts_index : Fts → Index
  pub IndexBuilder : Type 0
  pub create_index : Table → List Bytes → Index → IndexBuilder
  pub index_replace : IndexBuilder → Bool → IndexBuilder
  pub execute_index : World → IndexBuilder → Effect World (Unit {0})
  -- the text of an error
  pub display : Error → Bytes
