-- ===== src/Reader.antt =====
-- LanceDBRecordBatchReader of src/types.rs and src/table.rs: readers of one batch, and the functions that make, free and add
-- them.
pub mod Laws
use lancedb_c.Prelude.{
  ℕ, zero, suc, Bool, true, false, Option, none, some, List, [], ◌∷◌, if◌then◌else◌, ◌||◌,
}
use lancedb_c.Text.{Bytes}
use lancedb_c.External.{External, Error, Result, ok, err}
use lancedb_c.Memory.{
  Ptr, null, addr, is_null, reader, SingleBatchReader, as_array, Cmd, pure, expect, ◌>>=◌, ◌>>◌,
  alloc, release, load_table, load_schema, take_reader, write_pointer,
}
use lancedb_c.Error.{LanceDbError, success, reject, handle_error}
use lancedb_c.Database.{Op, refuse, settle}

-- `SingleBatchReader::next`: the item, and the reader after it
unfoldable pub next : {X : External} → SingleBatchReader X → Option X.Batch × SingleBatchReader X
next r = if r.exhausted then (none, r) else (r.batch, record r { batch = none; exhausted = true })

-- the items of `n` calls of `next`, up to the first that has none
unfoldable pub drain : {X : External} → ℕ → SingleBatchReader X → List X.Batch
drain zero r = []
drain {X} (suc n) r =
    let (item, after) = next r in
    let rest = drain n after in elim item [ none ↦ [] | some batch ↦ batch ∷ rest ]

-- the items of a reader; that no more come later is proved
unfoldable pub contents : {X : External} → SingleBatchReader X → List X.Batch
contents r = drain 2 r

module _ {X : External} where
  -- `ptr::read(array)`, after which the caller's array must not be used
  unfoldable pub read_array : Ptr → Cmd X X.Array
  read_array p = do c ← release p; expect (as_array c)

  -- from the import of the array on
  unfoldable pub reader_of_array :
      X.ArrowSchema → Result (Option X.Batch) Bytes → Ptr → Ptr → Cmd X LanceDbError
  reader_of_array imported_schema (err e) reader_out error_message =
      handle_error Error.arrow error_message
  reader_of_array imported_schema (ok struct) reader_out error_message = do
    record_batch ← expect struct
    wrapper ←
        alloc (
          reader
            (record { schema = imported_schema; batch = some record_batch; exhausted = false }))
    write_pointer reader_out wrapper
    pure success

  -- from the import of the schema on
  unfoldable pub reader_of_schema :
      Result X.ArrowSchema Bytes → X.Schema → Ptr → Ptr → Ptr → Cmd X LanceDbError
  reader_of_schema (err e) schema array reader_out error_message =
      handle_error Error.arrow error_message
  reader_of_schema (ok imported_schema) schema array reader_out error_message = do
    array_ffi ← read_array array
    reader_of_array imported_schema (X.struct_batch array_ffi schema) reader_out error_message

  unfoldable pub lancedb_record_batch_reader_from_arrow : Ptr → Ptr → Ptr → Ptr → Cmd X LanceDbError
  lancedb_record_batch_reader_from_arrow array schema reader_out error_message =
      elim (is_null array || is_null schema || is_null reader_out) [
        | true ↦ reject error_message
        | false ↦ do
          sc ← load_schema schema
          reader_of_schema (X.import_schema sc) sc array reader_out error_message
      ]

  unfoldable pub lancedb_record_batch_reader_free : Ptr → Cmd X (Unit {0})
  lancedb_record_batch_reader_free null = pure tt
  lancedb_record_batch_reader_free (addr r) = do take_reader (addr r); pure tt

  unfoldable pub lancedb_table_add : X.World → Ptr → Ptr → Ptr → Op X
  lancedb_table_add w (addr t) (addr r) error_message = do
    tbl ← load_table (addr t)
    reader_box ← take_reader (addr r)
    settle (X.add w tbl reader_box.schema (contents reader_box)) error_message
  lancedb_table_add w _ _ error_message = refuse error_message w
