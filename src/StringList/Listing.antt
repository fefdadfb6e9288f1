-- ===== src/StringList/Listing.antt =====
-- The listing functions of src/connection.rs and src/index.rs.
use lancedb_c.Prelude.{Option, none, some, List, [], ◌∷◌}
use lancedb_c.Text.{Bytes}
use lancedb_c.External.{External, Error, Result, ok, err}
use lancedb_c.Memory.{Ptr, null, addr, Cmd, pure, ◌>>=◌, load_str, load_table, load_connection}
use lancedb_c.Error.{LanceDbError, reject, handle_error}
use lancedb_c.StringList.{export_names}

module _ {X : External} where
  -- `match block_on(…) { Ok(names) => …, Err(e) => handle_error(&e, error_message) }`
  unfoldable pub listed : Result (List Bytes) Error → Ptr → Ptr → Ptr → Cmd X LanceDbError
  listed (ok names) names_out count_out error_message =
      export_names names names_out count_out error_message
  listed (err e) names_out count_out error_message = handle_error e error_message

  unfoldable pub lancedb_connection_table_names :
      X.World → Ptr → Ptr → Ptr → Ptr → Cmd X LanceDbError
  lancedb_connection_table_names w (addr c) (addr n) (addr m) error_message = do
    conn ← load_connection (addr c)
    listed (X.execute_table_names w (X.table_names conn)) (addr n) (addr m) error_message
  lancedb_connection_table_names w _ _ _ error_message = reject error_message

  -- the parent namespace: the root for null, and `none` for a text that is not UTF-8
  read_parent : Ptr → Cmd X (Option (List Bytes))
  read_parent null = pure (some [])
  read_parent (addr p) = do
    o ← load_str (addr p)
    pure (elim o [ none ↦ none | some parent_str ↦ some (parent_str ∷ []) ])

  unfoldable pub lancedb_connection_list_namespaces :
      X.World → Ptr → Ptr → Ptr → Ptr → Ptr → Cmd X LanceDbError
  unfolding read_parent
  lancedb_connection_list_namespaces w (addr c) namespace_parent (addr n) (addr m) error_message =
      do
        parent ← read_parent namespace_parent
        elim parent [
          | none ↦ reject error_message
          | some parent_namespace ↦ do
            conn ← load_connection (addr c)
            listed (X.list_namespaces w conn parent_namespace) (addr n) (addr m) error_message
        ]
  lancedb_connection_list_namespaces w _ _ _ _ error_message = reject error_message

  unfoldable pub lancedb_table_list_indices : X.World → Ptr → Ptr → Ptr → Ptr → Cmd X LanceDbError
  lancedb_table_list_indices w (addr t) (addr n) (addr m) error_message = do
    tbl ← load_table (addr t)
    listed (X.list_indices w tbl) (addr n) (addr m) error_message
  lancedb_table_list_indices w _ _ _ error_message = reject error_message
