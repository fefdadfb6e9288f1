-- ===== src/VectorQuery.antt =====
-- src/query.rs, vector queries: the handle that collects a query's settings, and its execution. Also the distance types
-- of src/types.rs.
pub mod Settings
use mathlib.Core.Option
use lancedb_c.Prelude.{ℕ, zero, suc, Option, none, some, List, [], ◌∷◌}
use lancedb_c.Text.{Bytes}
use lancedb_c.External.{External, DistanceType, Error, Result, ok, err}
use lancedb_c.Memory.{
  LanceDbDistanceType, Ptr, null, addr, VectorQuery, vector_query, Cmd, pure, ◌>>=◌, ◌>>◌, alloc,
  store, load_str, take_expr, load_vector_query, take_vector_query, load_table, load_floats, expect,
}
use lancedb_c.Error.{LanceDbError, success, set_invalid_argument_message, reject}
use lancedb_c.Columns.{read_columns}
use lancedb_c.Query.{apply_if, apply_filter, stream_result}

-- `From<LanceDbDistanceType> for DistanceType`
unfoldable pub distance_type_of : LanceDbDistanceType → DistanceType
distance_type_of LanceDbDistanceType.l2 = DistanceType.l2
distance_type_of LanceDbDistanceType.cosine = DistanceType.cosine
distance_type_of LanceDbDistanceType.dot = DistanceType.dot
distance_type_of LanceDbDistanceType.hamming = DistanceType.hamming

-- `std::slice::from_raw_parts(vector, dimension).to_vec()`: a fault if the array is shorter
unfoldable pub read_floats : {A : Type 0} → ℕ → List A → Option (List A)
read_floats zero xs = some []
read_floats (suc n) [] = none
read_floats (suc n) (x ∷ xs) = Option.map (λ ys. x ∷ ys) (read_floats n xs)

module _ {X : External} where
  -- a handle as the constructor makes it
  abbrev pub new_vector_query : X.Table → List X.F32 → VectorQuery X
  new_vector_query tbl vec_data = record {
    table = tbl;
    query_vector = vec_data;
    column = none;
    limit = none;
    offset = none;
    select = none;
    filter = none;
    df_filter = none;
    distance_type = none;
    nprobes = none;
    refine_factor = none;
    ef = none;
  }

  unfoldable pub lancedb_vector_query_new : Ptr → Ptr → ℕ → Cmd X Ptr
  unfolding read_floats
  lancedb_vector_query_new null vector dimension = pure null
  lancedb_vector_query_new (addr t) null dimension = pure null
  lancedb_vector_query_new (addr t) (addr v) zero = pure null
  lancedb_vector_query_new (addr t) (addr v) (suc d) = do
    tbl ← load_table (addr t)
    slice ← load_floats (addr v)
    vec_data ← expect (read_floats (suc d) slice)
    alloc (vector_query (new_vector_query tbl vec_data))

  unfoldable pub lancedb_vector_query_limit : Ptr → ℕ → Ptr → Cmd X LanceDbError
  lancedb_vector_query_limit null limit error_message = reject error_message
  lancedb_vector_query_limit (addr a) limit error_message = do
    q ← load_vector_query (addr a)
    store (addr a) (vector_query (record q { limit = some limit }))
    pure success

  unfoldable pub lancedb_vector_query_offset : Ptr → ℕ → Ptr → Cmd X LanceDbError
  lancedb_vector_query_offset null offset error_message = reject error_message
  lancedb_vector_query_offset (addr a) offset error_message = do
    q ← load_vector_query (addr a)
    store (addr a) (vector_query (record q { offset = some offset }))
    pure success

  unfoldable pub lancedb_vector_query_nprobes : Ptr → ℕ → Ptr → Cmd X LanceDbError
  lancedb_vector_query_nprobes null nprobes error_message = reject error_message
  lancedb_vector_query_nprobes (addr a) nprobes error_message = do
    q ← load_vector_query (addr a)
    store (addr a) (vector_query (record q { nprobes = some nprobes }))
    pure success

  unfoldable pub lancedb_vector_query_refine_factor : Ptr → ℕ → Ptr → Cmd X LanceDbError
  lancedb_vector_query_refine_factor null refine_factor error_message = reject error_message
  lancedb_vector_query_refine_factor (addr a) refine_factor error_message = do
    q ← load_vector_query (addr a)
    store (addr a) (vector_query (record q { refine_factor = some refine_factor }))
    pure success

  unfoldable pub lancedb_vector_query_ef : Ptr → ℕ → Ptr → Cmd X LanceDbError
  lancedb_vector_query_ef null ef error_message = reject error_message
  lancedb_vector_query_ef (addr a) ef error_message = do
    q ← load_vector_query (addr a)
    store (addr a) (vector_query (record q { ef = some ef }))
    pure success

  unfoldable pub lancedb_vector_query_distance_type :
      Ptr → LanceDbDistanceType → Ptr → Cmd X LanceDbError
  lancedb_vector_query_distance_type null distance_type error_message = reject error_message
  lancedb_vector_query_distance_type (addr a) distance_type error_message = do
    q ← load_vector_query (addr a)
    store (addr a)
        (vector_query (record q { distance_type = some (distance_type_of distance_type) }))
    pure success

  unfoldable pub lancedb_vector_query_column : Ptr → Ptr → Ptr → Cmd X LanceDbError
  lancedb_vector_query_column null column error_message = reject error_message
  lancedb_vector_query_column (addr a) null error_message = reject error_message
  lancedb_vector_query_column (addr a) (addr c) error_message = do
    o ← load_str (addr c)
    elim o [
      | none ↦ reject error_message
      | some column_str ↦ do
        q ← load_vector_query (addr a)
        store (addr a) (vector_query (record q { column = some column_str }))
        pure success
    ]

  unfoldable pub lancedb_vector_query_select : Ptr → Ptr → ℕ → Ptr → Cmd X LanceDbError
  lancedb_vector_query_select null columns num_columns error_message = reject error_message
  lancedb_vector_query_select (addr a) null num_columns error_message = reject error_message
  lancedb_vector_query_select (addr a) (addr c) num_columns error_message = do
    names ← read_columns num_columns 0 (addr c) []
    elim names [
      | none ↦ reject error_message
      | some column_names ↦ do
        q ← load_vector_query (addr a)
        store (addr a) (vector_query (record q { select = some (X.select_columns column_names) }))
        pure success
    ]

  unfoldable pub lancedb_vector_query_where_filter : Ptr → Ptr → Ptr → Cmd X LanceDbError
  lancedb_vector_query_where_filter null filter error_message = reject error_message
  lancedb_vector_query_where_filter (addr a) null error_message = reject error_message
  lancedb_vector_query_where_filter (addr a) (addr f) error_message = do
    o ← load_str (addr f)
    elim o [
      | none ↦ reject error_message
      | some filter_str ↦ do
        q ← load_vector_query (addr a)
        store (addr a) (vector_query (record q { filter = some filter_str }))
        pure success
    ]

  unfoldable pub lancedb_vector_query_df_filter : Ptr → Ptr → Ptr → Cmd X LanceDbError
  lancedb_vector_query_df_filter null expr error_message = reject error_message
  lancedb_vector_query_df_filter (addr a) null error_message = reject error_message
  lancedb_vector_query_df_filter (addr a) (addr e) error_message = do
    expr_box ← take_expr (addr e)
    q ← load_vector_query (addr a)
    store (addr a) (vector_query (record q { df_filter = some expr_box }))
    pure success

  -- the settings of a handle on a lancedb query, in the order of the source
  unfoldable pub configure : VectorQuery X → X.VectorQuery → X.VectorQuery
  configure query_box rust_query = apply_if X.vector_ef query_box.ef (
      apply_if X.vector_refine_factor query_box.refine_factor (
        apply_if X.vector_nprobes query_box.nprobes (
          apply_if X.vector_distance_type query_box.distance_type (
            apply_filter X.vector_df_filter X.vector_only_if query_box.df_filter query_box.filter (
              apply_if X.vector_select query_box.select (
                apply_if X.vector_offset query_box.offset (
                  apply_if X.vector_limit query_box.limit
                    (apply_if X.vector_column query_box.column rust_query))))))))

  unfoldable pub execute_nearest :
      X.World → VectorQuery X → Result X.VectorQuery Error → Result X.Stream Error
  execute_nearest w query_box (ok rust_query) =
      X.execute_vector_query w (configure query_box rust_query)
  execute_nearest w query_box (err e) = err e

  -- what lancedb answers to the query of a handle
  unfoldable pub run_vector_query : X.World → VectorQuery X → Result X.Stream Error
  unfolding execute_nearest
  run_vector_query w query_box =
      execute_nearest w query_box (X.nearest_to (X.query query_box.table) query_box.query_vector)

  unfoldable pub lancedb_vector_query_execute : X.World → Ptr → Cmd X Ptr
  lancedb_vector_query_execute w null = pure null
  lancedb_vector_query_execute w (addr a) = do
    query_box ← take_vector_query (addr a)
    stream_result (run_vector_query w query_box)

  unfoldable pub lancedb_vector_query_free : Ptr → Cmd X (Unit {0})
  lancedb_vector_query_free null = pure tt
  lancedb_vector_query_free (addr a) = do take_vector_query (addr a); pure tt
