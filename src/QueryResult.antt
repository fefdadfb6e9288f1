-- ===== src/QueryResult.antt =====
-- src/query.rs, the results of a query: the export of a stream's batches to Arrow's C data interface, and the functions
-- that free a result and the exported arrays.
pub mod Export
pub mod Laws
use lancedb_c.Prelude.{
  ℕ, zero, suc, true, false, ◌||◌, Option, none, some, List, [], ◌∷◌, ◌++◌, length, replicate,
}
use lancedb_c.Text.{Bytes, codes, has_nul}
use lancedb_c.External.{External, Error, Result, ok, err}
use lancedb_c.Memory.{
  as_array, as_schema, Ptr, null, addr, is_null, Cell, text, pointers, array, schema, Cmd, pure,
  ◌>>=◌, ◌>>◌, alloc, malloc, release, take_stream, load_at, store_at, write_pointer, write_count,
  expect,
}
use lancedb_c.Error.{LanceDbError, success, unknown, set_unknown_error_message, reject}

module _ {X : External} where
  -- `Box::from_raw` of an exported array or schema
  unfoldable pub take_array : Ptr → Cmd X X.Array
  take_array p = do c ← release p; expect (as_array c)

  unfoldable pub take_schema : Ptr → Cmd X X.Schema
  take_schema p = do c ← release p; expect (as_schema c)

  -- the loop over the batches, from index `i`
  unfoldable pub export_batches : Ptr → ℕ → List X.Batch → Cmd X (Unit {0})
  export_batches arrays_ptr i [] = pure tt
  export_batches arrays_ptr i (batch ∷ batches) = do
    ffi_array ← alloc (array (X.export_batch batch))
    store_at arrays_ptr i ffi_array
    export_batches arrays_ptr (suc i) batches

  -- the arrays of the batches, when the schema is exported to `schema_ptr`
  unfoldable pub export_arrays : Ptr → Ptr → Ptr → Ptr → Ptr → List X.Batch → Cmd X LanceDbError
  export_arrays null batches_out schema_out schema_ptr error_message batches = do
    take_schema schema_ptr
    write_pointer schema_out null
    set_unknown_error_message error_message
    pure unknown
  export_arrays (addr l) batches_out schema_out schema_ptr error_message batches = do
    export_batches (addr l) 0 batches
    write_pointer batches_out (addr l)
    pure success

  -- the message of a schema that Arrow's C data interface cannot hold; unlike the setters of src/error.rs, a text with
  -- a NUL byte leaves the caller's variable as it is
  write_schema_message : Ptr → Bytes → Cmd X (Unit {0})
  write_schema_message null error = pure tt
  write_schema_message (addr a) error =
      let error_str = codes "Failed to convert Arrow schema to C ABI: " ++ error in
      elim (has_nul error_str) [
        | true ↦ pure tt
        | false ↦ do c_str ← alloc (text error_str); write_pointer (addr a) c_str
      ]

  -- batches of which there is a first one, once their count is written
  unfoldable pub export_with :
      Result X.Schema Bytes → List X.Batch → Ptr → Ptr → Ptr → Cmd X LanceDbError
  unfolding write_schema_message export_arrays
  export_with (err e) batches batches_out schema_out error_message = do
    write_schema_message error_message e
    pure unknown
  export_with (ok s) batches batches_out schema_out error_message = do
    schema_ptr ← alloc (schema s)
    write_pointer schema_out schema_ptr
    arrays_ptr ← malloc (pointers (replicate (length batches) none))
    export_arrays arrays_ptr batches_out schema_out schema_ptr error_message batches

  unfoldable pub export_collected :
      Result (List X.Batch) Error → Ptr → Ptr → Ptr → Ptr → Cmd X LanceDbError
  unfolding export_with
  export_collected (err e) batches_out schema_out count_out error_message = do
    set_unknown_error_message error_message
    pure unknown
  export_collected (ok []) batches_out schema_out count_out error_message = do
    write_count count_out 0
    write_pointer batches_out null
    write_pointer schema_out null
    pure success
  export_collected (ok (batch ∷ batches)) batches_out schema_out count_out error_message = do
    write_count count_out (length (batch ∷ batches))
    export_with (X.export_schema (X.batch_schema batch)) (batch ∷ batches) batches_out schema_out
        error_message

  unfoldable pub lancedb_query_result_to_arrow : Ptr → Ptr → Ptr → Ptr → Ptr → Cmd X LanceDbError
  lancedb_query_result_to_arrow result batches_out schema_out count_out error_message =
      elim (is_null result || is_null batches_out || is_null schema_out || is_null count_out) [
        | true ↦ reject error_message
        | false ↦ do
          stream ← take_stream result
          export_collected (X.collect stream) batches_out schema_out count_out error_message
      ]

  unfoldable pub lancedb_query_result_free : Ptr → Cmd X (Unit {0})
  lancedb_query_result_free null = pure tt
  lancedb_query_result_free (addr a) = do take_stream (addr a); pure tt

  -- the loop of the freeing function: `n` rounds from `i`
  unfoldable pub free_batches : ℕ → ℕ → Ptr → Cmd X (Unit {0})
  free_batches zero i batches = pure tt
  free_batches (suc n) i batches = do
    batch_ptr ← load_at batches i
    elim batch_ptr [
      | null ↦ free_batches n (suc i) batches
      | addr a ↦ do take_array (addr a); free_batches n (suc i) batches
    ]

  unfoldable pub lancedb_free_arrow_arrays : Ptr → ℕ → Cmd X (Unit {0})
  lancedb_free_arrow_arrays null count = pure tt
  lancedb_free_arrow_arrays (addr l) count = do
    free_batches count 0 (addr l)
    release (addr l)
    pure tt
