-- ===== src/Connect.antt =====
-- The connect builder of src/connection.rs, connections, and the functions that make tables of them.
pub mod Client
pub mod Uri
use lancedb_c.Prelude.{if◌then◌else◌, Bool, true, false, ◌||◌, Option, none, some, List, []}
use lancedb_c.Text.{Bytes, codes, has_nul}
use lancedb_c.External.{External, Error, Effect, Result, ok, err}
use lancedb_c.Memory.{
  Ptr, null, addr, is_null, text, table, connection, connect_builder, reader, SingleBatchReader,
  Cmd, pure, ◌>>=◌, ◌>>◌, alloc, release, store, load_str, load_connection, load_session,
  load_schema, load_cached, take_reader, take_connect_builder, take_cached, write_pointer,
}
use lancedb_c.Error.{LanceDbError, success, handle_error}
use lancedb_c.Database.{Op, refuse, with_str}
use lancedb_c.Reader.{contents}

-- `CString::new(uri_str).unwrap_or_else(|_| CString::new("invalid_uri").unwrap())`
unfoldable pub uri_text : (X : External) → X.Connection → Bytes
uri_text X conn = if has_nul (X.uri conn) then codes "invalid_uri" else X.uri conn

module _ {X : External} where
  -- `let Ok(s) = CStr::from_ptr(p).to_str() else { return ptr::null_mut() }`
  unfoldable pub str_or_null : Ptr → (Bytes → Cmd X Ptr) → Cmd X Ptr
  str_or_null p rest = do o ← load_str p; elim o [ none ↦ pure null | some s ↦ rest s ]

  unfoldable pub lancedb_connect : Ptr → Cmd X Ptr
  lancedb_connect null = pure null
  lancedb_connect (addr u) =
      str_or_null (addr u) λ str_uri. alloc (connect_builder (X.connect str_uri))

  unfoldable pub lancedb_connect_builder_storage_option : Ptr → Ptr → Ptr → Cmd X Ptr
  lancedb_connect_builder_storage_option null key value = pure null
  lancedb_connect_builder_storage_option (addr b) key value = do
    builder ← take_connect_builder (addr b)
    elim (is_null key || is_null value) [
      | true ↦ pure null
      | false ↦ str_or_null key λ key_str.
          str_or_null value
            λ value_str. alloc (connect_builder (X.storage_option builder key_str value_str))
    ]

  unfoldable pub lancedb_connect_builder_session : Ptr → Ptr → Cmd X Ptr
  lancedb_connect_builder_session null session = pure null
  lancedb_connect_builder_session (addr b) null = do
    builder ← take_connect_builder (addr b)
    alloc (connect_builder builder)
  lancedb_connect_builder_session (addr b) (addr s) = do
    builder ← take_connect_builder (addr b)
    session_ref ← load_session (addr s)
    alloc (connect_builder (X.with_session builder session_ref))

  -- the result of the connection
  unfoldable pub settle_connection : Effect X.World X.Connection → Ptr → Ptr → Op X
  settle_connection (ok conn, w) out error_message = do
    boxed_connection ← alloc (connection conn none)
    write_pointer out boxed_connection
    pure (success, w)
  settle_connection (err e, w) out error_message = do
    code ← handle_error e error_message
    pure (code, w)

  unfoldable pub lancedb_connect_builder_execute : X.World → Ptr → Ptr → Ptr → Op X
  lancedb_connect_builder_execute w null out error_message = refuse error_message w
  lancedb_connect_builder_execute w (addr b) out error_message = do
    builder ← take_connect_builder (addr b)
    elim (is_null out) [
      | true ↦ refuse error_message w
      | false ↦ settle_connection (X.execute_connect w builder) out error_message
    ]

  unfoldable pub lancedb_connect_builder_free : Ptr → Cmd X (Unit {0})
  lancedb_connect_builder_free null = pure tt
  lancedb_connect_builder_free (addr b) = do take_connect_builder (addr b); pure tt

  -- `uri_cache.get_or_init(…)`: the cached string, or a new one that the connection keeps
  unfoldable pub cached_uri : Ptr → X.Connection → Option Ptr → Cmd X Ptr
  cached_uri p conn (some uri) = pure uri
  cached_uri p conn none = do
    uri ← alloc (text (uri_text X conn))
    store p (connection conn (some uri))
    pure uri

  unfoldable pub lancedb_connection_uri : Ptr → Cmd X Ptr
  lancedb_connection_uri null = pure null
  lancedb_connection_uri (addr c) = do
    (conn, cached) ← load_cached (addr c)
    cached_uri (addr c) conn cached

  -- the string that a connection keeps is dropped with it
  unfoldable pub lancedb_connection_free : Ptr → Cmd X (Unit {0})
  lancedb_connection_free null = pure tt
  lancedb_connection_free (addr c) = do
    (conn, cached) ← take_cached (addr c)
    elim cached [ none ↦ pure tt | some uri ↦ do release uri; pure tt ]
