-- ===== src/TableNames.antt =====
-- src/connection.rs, the builder of a paginated listing of table names: each call takes its box over and returns a new one.
pub mod Page
use lancedb_c.Prelude.{ℕ, Bool, true, false, ◌||◌, Option, none, some}
use lancedb_c.Text.{Bytes}
use lancedb_c.External.{External}
use lancedb_c.Memory.{
  Ptr, null, addr, is_null, table_names_builder, Cmd, pure, ◌>>=◌, ◌>>◌, alloc, load_str,
  load_connection, take_table_names_builder,
}
use lancedb_c.Error.{LanceDbError, reject}
use lancedb_c.StringList.Listing.{listed}

module _ {X : External} where
  unfoldable pub lancedb_connection_table_names_builder : Ptr → Cmd X Ptr
  lancedb_connection_table_names_builder null = pure null
  lancedb_connection_table_names_builder (addr c) = do
    conn ← load_connection (addr c)
    alloc (table_names_builder (X.table_names conn))

  -- `limit` is a `u32`
  unfoldable pub lancedb_table_names_builder_limit : Ptr → ℕ → Cmd X Ptr
  lancedb_table_names_builder_limit null limit = pure null
  lancedb_table_names_builder_limit (addr b) limit = do
    builder ← take_table_names_builder (addr b)
    alloc (table_names_builder (X.table_names_limit builder limit))

  unfoldable pub lancedb_table_names_builder_start_after : Ptr → Ptr → Cmd X Ptr
  lancedb_table_names_builder_start_after null start_after = pure null
  lancedb_table_names_builder_start_after (addr b) null = do
    take_table_names_builder (addr b)
    pure null
  lancedb_table_names_builder_start_after (addr b) (addr s) = do
    builder ← take_table_names_builder (addr b)
    o ← load_str (addr s)
    elim o [
      | none ↦ pure null
      | some start_after_str ↦
          alloc (table_names_builder (X.table_names_start_after builder start_after_str))
    ]

  unfoldable pub lancedb_table_names_builder_execute :
      X.World → Ptr → Ptr → Ptr → Ptr → Cmd X LanceDbError
  lancedb_table_names_builder_execute w null names_out count_out error_message =
      reject error_message
  lancedb_table_names_builder_execute w (addr b) names_out count_out error_message = do
    builder ← take_table_names_builder (addr b)
    elim (is_null names_out || is_null count_out) [
      | true ↦ reject error_message
      | false ↦ listed (X.execute_table_names w builder) names_out count_out error_message
    ]

  unfoldable pub lancedb_table_names_builder_free : Ptr → Cmd X (Unit {0})
  lancedb_table_names_builder_free null = pure tt
  lancedb_table_names_builder_free (addr b) = do take_table_names_builder (addr b); pure tt
