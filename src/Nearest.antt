-- ===== src/Nearest.antt =====
-- lancedb_table_nearest_to of src/table.rs: a search whose result is exported at once.
pub mod Laws
use lancedb_c.Prelude.{
  suc, replicate, ℕ, Bool, true, false, ◌||◌, ◌==◌, Option, none, some, List, [], ◌∷◌, length,
}
use lancedb_c.Text.{Bytes}
use lancedb_c.External.{External, Error, Result, ok, err}
use lancedb_c.Memory.{
  Ptr, null, addr, is_null, array, schema, pointers, Cmd, pure, expect, ◌>>=◌, ◌>>◌, alloc, malloc,
  release, as_schema, store_at, load_table, load_floats, load_str, write_count, write_pointer,
}
use lancedb_c.Error.{
  LanceDbError, success, unknown, reject, handle_error, set_unknown_error_message,
}
use lancedb_c.Query.{apply_if}
use lancedb_c.VectorQuery.{read_floats}

unfoldable pub searched :
    (X : External) → X.World → Option Bytes → Result X.VectorQuery Error → Result X.Stream Error
searched X w column_name (err e) = err e
searched X w column_name (ok query) =
    X.execute_vector_query w (apply_if X.vector_column column_name query)

unfoldable pub collected : (X : External) → Result X.Stream Error → Result (List X.Batch) Error
collected X (err e) = err e
collected X (ok stream) = X.collect stream

-- the batches that lancedb answers with, or the first error
unfoldable pub nearest_batches :
    (X : External) → X.World → X.Table → ℕ → List X.F32 → Option Bytes → Result (List X.Batch) Error
nearest_batches X w tbl limit vec_data column_name =
    collected X
      (searched X w column_name (X.nearest_to (X.query_limit (X.query tbl) limit) vec_data))

module _ {X : External} where
  -- the loop over the batches, from index `i`
  unfoldable pub put_arrays : Ptr → ℕ → List X.Batch → Cmd X (Unit {0})
  put_arrays arrays_ptr i [] = pure tt
  put_arrays arrays_ptr i (batch ∷ batches) = do
    ffi_array ← alloc (array (X.export_batch batch))
    store_at arrays_ptr i ffi_array
    put_arrays arrays_ptr (suc i) batches

  -- from the array on; without one the schema at `schema_ptr` is given back
  unfoldable pub fill_arrays : Ptr → List X.Batch → Ptr → Ptr → Ptr → Ptr → Cmd X LanceDbError
  fill_arrays null batches result_arrays result_schema schema_ptr error_message = do
    c ← release schema_ptr
    expect (as_schema c)
    write_pointer result_schema null
    set_unknown_error_message error_message
    pure unknown
  fill_arrays (addr l) batches result_arrays result_schema schema_ptr error_message = do
    put_arrays (addr l) 0 batches
    write_pointer result_arrays (addr l)
    pure success

  -- from the export of the schema on
  unfoldable pub export_nearest :
      Result X.Schema Bytes → List X.Batch → Ptr → Ptr → Ptr → Cmd X LanceDbError
  export_nearest (err e) batches result_arrays result_schema error_message = do
    set_unknown_error_message error_message
    pure unknown
  export_nearest (ok s) batches result_arrays result_schema error_message = do
    schema_ptr ← alloc (schema s)
    write_pointer result_schema schema_ptr
    arrays_ptr ← malloc (pointers (replicate (length batches) none))
    fill_arrays arrays_ptr batches result_arrays result_schema schema_ptr error_message

  unfoldable pub finish_nearest :
      Result (List X.Batch) Error → Ptr → Ptr → Ptr → Ptr → Cmd X LanceDbError
  finish_nearest (err e) result_arrays result_schema count_out error_message =
      handle_error e error_message
  finish_nearest (ok []) result_arrays result_schema count_out error_message = do
    write_count count_out 0
    write_pointer result_arrays null
    write_pointer result_schema null
    pure success
  finish_nearest (ok (batch ∷ batches)) result_arrays result_schema count_out error_message = do
    write_count count_out (length (batch ∷ batches))
    export_nearest (X.export_schema (X.batch_schema batch)) (batch ∷ batches) result_arrays
        result_schema error_message

  -- the optional column: `none` is the early return
  unfoldable pub column_name_of : Ptr → Cmd X (Option (Option Bytes))
  column_name_of null = pure (some none)
  column_name_of (addr c) = do
    o ← load_str (addr c)
    elim o [ none ↦ pure none | some s ↦ pure (some (some s)) ]

  -- from the column on
  unfoldable pub nearest_on :
      X.World
      → X.Table
      → List X.F32
      → ℕ
      → Option (Option Bytes)
      → Ptr
      → Ptr
      → Ptr
      → Ptr
      → Cmd X LanceDbError
  nearest_on w tbl vec_data limit none result_arrays result_schema count_out error_message =
      reject error_message
  nearest_on w tbl vec_data limit (some column_name) result_arrays result_schema count_out
        error_message =
      finish_nearest (nearest_batches X w tbl limit vec_data column_name) result_arrays
        result_schema count_out error_message

  unfoldable pub nearest_if :
      Bool → X.World → Ptr → Ptr → ℕ → ℕ → Ptr → Ptr → Ptr → Ptr → Ptr → Cmd X LanceDbError
  nearest_if true w table vector dimension limit column result_arrays result_schema count_out
        error_message =
      reject error_message
  nearest_if false w table vector dimension limit column result_arrays result_schema count_out
        error_message =
      do
        tbl ← load_table table
        vec_slice ← load_floats vector
        vec_data ← expect (read_floats dimension vec_slice)
        column_name ← column_name_of column
        nearest_on w tbl vec_data limit column_name result_arrays result_schema count_out
            error_message

  unfoldable pub lancedb_table_nearest_to :
      X.World → Ptr → Ptr → ℕ → ℕ → Ptr → Ptr → Ptr → Ptr → Ptr → Cmd X LanceDbError
  lancedb_table_nearest_to w table vector dimension limit column result_arrays result_schema
        count_out error_message =
      nearest_if
        (is_null table
          || is_null vector
          || (dimension == 0)
          || (limit == 0)
          || is_null result_arrays
          || is_null result_schema
          || is_null count_out)
        w table vector dimension limit column result_arrays result_schema count_out error_message
