-- ===== src/Table.antt =====
-- The functions of src/connection.rs that make a table handle, and those of src/table.rs that read a table's schema, version and size.
pub mod Laws
use lancedb_c.Prelude.{ℕ, Bool, true, false, ◌||◌, Option, none, some, List, []}
use lancedb_c.Text.{Bytes, codes}
use lancedb_c.External.{External, Error, Effect, Result, ok, err}
use lancedb_c.Memory.{
  Ptr, null, addr, is_null, table, schema, Cmd, pure, expect, ◌>>=◌, ◌>>◌, alloc, release, as_table,
  as_schema, load_table, load_connection, load_schema, take_reader, write_pointer,
}
use lancedb_c.Error.{LanceDbError, success, reject, handle_error}
use lancedb_c.Database.{Op, refuse, with_str}
use lancedb_c.Reader.{contents}

module _ {X : External} where
  -- `Ok(table) => { *table_out = …; Success }, Err(e) => handle_error(&e, error_message)`
  unfoldable pub settle_table : Effect X.World X.Table → Ptr → Ptr → Op X
  settle_table (ok tbl, w) table_out error_message = do
    boxed_table ← alloc (table tbl)
    write_pointer table_out boxed_table
    pure (success, w)
  settle_table (err e, w) table_out error_message = do
    code ← handle_error e error_message
    pure (code, w)

  -- `reader_box.into_inner()`, or an empty reader for null: its schema and batches
  unfoldable pub batch_reader : X.ArrowSchema → Ptr → Cmd X (X.ArrowSchema × List X.Batch)
  batch_reader sc null = pure (sc, [])
  batch_reader sc (addr r) = do
    reader_box ← take_reader (addr r)
    pure (reader_box.schema, contents reader_box)

-- zero for an error
unfoldable pub or_zero : {E : Type 0} → Result ℕ E → ℕ
or_zero (ok n) = n
or_zero (err e) = 0

-- `FFI_ArrowSchema::try_from(&*schema).unwrap()`, with `none` for its panic
unfoldable pub exported_schema : (X : External) → X.Schema → Option X.Schema
exported_schema X sc = elim (X.export_schema sc) [ ok exported ↦ some exported | err e ↦ none ]

-- `validate_table_name(name)?`, and the call
unfoldable pub if_valid :
    (X : External)
    → X.World
    → Result (Unit {0}) Error
    → Effect X.World X.Table
    → Effect X.World X.Table
if_valid X w (err e) call = (err e, w)
if_valid X w (ok done) call = call

module _ {X : External} where
  -- from the import of the schema on
  unfoldable pub create_with :
      X.World → X.Connection → Bytes → Result X.ArrowSchema Bytes → Ptr → Ptr → Ptr → Op X
  create_with w conn table_name (err e) reader table_out error_message =
      settle_table (err (Error.invalid_input (codes "Failed to import Arrow schema from C ABI")), w)
        table_out error_message
  create_with w conn table_name (ok sc) reader table_out error_message = do
    (reader_schema, batches) ← batch_reader sc reader
    settle_table
        (if_valid X w (X.validate_table_name table_name)
          (X.create_table w conn table_name reader_schema batches))
        table_out error_message

  unfoldable pub lancedb_table_create : X.World → Ptr → Ptr → Ptr → Ptr → Ptr → Ptr → Op X
  lancedb_table_create w (addr c) (addr n) (addr s) reader (addr o) error_message =
      with_str (addr n) error_message w λ table_name. do
        conn ← load_connection (addr c)
        sc ← load_schema (addr s)
        create_with w conn table_name (X.import_schema sc) reader (addr o) error_message
  lancedb_table_create w _ _ _ reader _ error_message = refuse error_message w

  unfoldable pub lancedb_connection_open_table : X.World → Ptr → Ptr → Ptr → Ptr → Op X
  lancedb_connection_open_table w (addr c) (addr n) (addr o) error_message =
      with_str (addr n) error_message w λ table_name. do
        conn ← load_connection (addr c)
        settle_table
            (if_valid X w (X.validate_table_name table_name) (X.open_table w conn table_name, w))
            (addr o) error_message
  lancedb_connection_open_table w _ _ _ error_message = refuse error_message w

  unfoldable pub lancedb_table_free : Ptr → Cmd X (Unit {0})
  lancedb_table_free null = pure tt
  lancedb_table_free (addr t) = do c ← release (addr t); expect (as_table c); pure tt

  -- the exported schema; the function panics if it cannot be exported
  unfoldable pub settle_schema : Result X.Schema Error → Ptr → Ptr → Cmd X LanceDbError
  settle_schema (err e) schema_out error_message = handle_error e error_message
  settle_schema (ok sc) schema_out error_message = do
    exported ← expect (exported_schema X sc)
    ffi_schema ← alloc (schema exported)
    write_pointer schema_out ffi_schema
    pure success

  unfoldable pub lancedb_table_arrow_schema : X.World → Ptr → Ptr → Ptr → Cmd X LanceDbError
  lancedb_table_arrow_schema w (addr t) (addr o) error_message = do
    tbl ← load_table (addr t)
    settle_schema (X.table_schema w tbl) (addr o) error_message
  lancedb_table_arrow_schema w _ _ error_message = reject error_message

  unfoldable pub lancedb_free_arrow_schema : Ptr → Cmd X (Unit {0})
  lancedb_free_arrow_schema null = pure tt
  lancedb_free_arrow_schema (addr s) = do c ← release (addr s); expect (as_schema c); pure tt

  unfoldable pub lancedb_table_version : X.World → Ptr → Cmd X ℕ
  lancedb_table_version w null = pure 0
  lancedb_table_version w (addr t) = do tbl ← load_table (addr t); pure (or_zero (X.version w tbl))

  unfoldable pub lancedb_table_count_rows : X.World → Ptr → Cmd X ℕ
  lancedb_table_count_rows w null = pure 0
  lancedb_table_count_rows w (addr t) = do
    tbl ← load_table (addr t)
    pure (or_zero (X.count_rows w tbl))
