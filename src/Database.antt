-- ===== src/Database.antt =====
-- The functions of src/connection.rs, src/table.rs and src/index.rs that make one change in a database and return a code. Their
-- arguments are a handle and C strings.
pub mod Delete
pub mod Requests
use lancedb_c.Prelude.{Option, none, some, List, [], ◌∷◌}
use lancedb_c.Text.{Bytes}
use lancedb_c.External.{External, Effect, Result, ok, err}
use lancedb_c.Memory.{
  Ptr, null, addr, Cmd, pure, ◌>>=◌, ◌>>◌, load_str, load_table, load_connection, take_expr,
}
use lancedb_c.Error.{
  LanceDbError, success, invalid_argument, set_invalid_argument_message, reject, handle_error,
}

-- What a function that may change a database leaves besides the memory: its code, and the databases.
abbrev pub Op : External → Type 0
Op X = Cmd X (LanceDbError × X.World)

pub data LanceDbOptimizeType : Type 0 where
  all compat prune index : LanceDbOptimizeType

module _ {X : External} where
  -- `set_invalid_argument_message(error_message); return LanceDBError::InvalidArgument`
  abbrev pub refuse : Ptr → X.World → Op X
  refuse error_message w = do code ← reject error_message; pure (code, w)

  -- `Ok(_) => LanceDBError::Success, Err(e) => handle_error(&e, error_message)`
  unfoldable pub settle : Effect X.World (Unit {0}) → Ptr → Op X
  settle (ok done, w) error_message = pure (success, w)
  settle (err e, w) error_message = do code ← handle_error e error_message; pure (code, w)

  -- `let Ok(s) = CStr::from_ptr(p).to_str() else { … }`
  unfoldable pub with_str : Ptr → Ptr → X.World → (Bytes → Op X) → Op X
  with_str p error_message w rest = do
    o ← load_str p
    elim o [ none ↦ refuse error_message w | some s ↦ rest s ]

  -- an optional namespace: the root for null
  unfoldable pub with_namespace : Ptr → Ptr → X.World → (List Bytes → Op X) → Op X
  with_namespace null error_message w rest = rest []
  with_namespace (addr p) error_message w rest =
      with_str (addr p) error_message w λ s. rest (s ∷ [])

  unfoldable pub lancedb_connection_drop_table : X.World → Ptr → Ptr → Ptr → Ptr → Op X
  lancedb_connection_drop_table w (addr c) (addr t) namespace error_message =
      with_str (addr t) error_message w λ table_name. do
        conn ← load_connection (addr c)
        with_namespace namespace error_message w
            λ names. settle (X.drop_table w conn table_name names) error_message
  lancedb_connection_drop_table w _ _ _ error_message = refuse error_message w

  unfoldable pub lancedb_connection_rename_table :
      X.World → Ptr → Ptr → Ptr → Ptr → Ptr → Ptr → Op X
  lancedb_connection_rename_table w (addr c) (addr o) (addr n) cur_namespace new_namespace
        error_message =
      with_str (addr o) error_message w λ old_name. with_str (addr n) error_message w λ new_name. do
        conn ← load_connection (addr c)
        with_namespace cur_namespace error_message w λ cur_names.
            with_namespace new_namespace error_message w λ new_names.
              settle (X.rename_table w conn old_name new_name cur_names new_names) error_message
  lancedb_connection_rename_table w _ _ _ _ _ error_message = refuse error_message w

  unfoldable pub lancedb_connection_drop_all_tables : X.World → Ptr → Ptr → Ptr → Op X
  lancedb_connection_drop_all_tables w null namespace error_message = refuse error_message w
  lancedb_connection_drop_all_tables w (addr c) namespace error_message = do
    conn ← load_connection (addr c)
    with_namespace namespace error_message w
        λ names. settle (X.drop_all_tables w conn names) error_message

  unfoldable pub lancedb_connection_create_namespace : X.World → Ptr → Ptr → Ptr → Op X
  lancedb_connection_create_namespace w (addr c) (addr n) error_message =
      with_str (addr n) error_message w λ name. do
        conn ← load_connection (addr c)
        settle (X.create_namespace w conn name) error_message
  lancedb_connection_create_namespace w _ _ error_message = refuse error_message w

  unfoldable pub lancedb_connection_drop_namespace : X.World → Ptr → Ptr → Ptr → Op X
  lancedb_connection_drop_namespace w (addr c) (addr n) error_message =
      with_str (addr n) error_message w λ name. do
        conn ← load_connection (addr c)
        settle (X.drop_namespace w conn name) error_message
  lancedb_connection_drop_namespace w _ _ error_message = refuse error_message w

  unfoldable pub lancedb_table_delete : X.World → Ptr → Ptr → Ptr → Op X
  lancedb_table_delete w (addr t) (addr p) error_message =
      with_str (addr p) error_message w
        λ predicate. do tbl ← load_table (addr t); settle (X.delete w tbl predicate) error_message
  lancedb_table_delete w _ _ error_message = refuse error_message w

  unfoldable pub lancedb_table_df_delete : X.World → Ptr → Ptr → Ptr → Op X
  lancedb_table_df_delete w table null error_message = refuse error_message w
  lancedb_table_df_delete w null (addr e) error_message = do
    take_expr (addr e)
    refuse error_message w
  lancedb_table_df_delete w (addr t) (addr e) error_message = do
    expr_box ← take_expr (addr e)
    tbl ← load_table (addr t)
    settle (X.df_delete w tbl expr_box) error_message

  unfoldable pub lancedb_table_drop_index : X.World → Ptr → Ptr → Ptr → Op X
  lancedb_table_drop_index w (addr t) (addr n) error_message =
      with_str (addr n) error_message w λ index_name. do
        tbl ← load_table (addr t)
        settle (X.drop_index w tbl index_name) error_message
  lancedb_table_drop_index w _ _ error_message = refuse error_message w

-- the action of each kind, with its options at their defaults
unfoldable pub action_of : (X : External) → LanceDbOptimizeType → X.OptimizeAction
action_of X all = X.optimize_all
action_of X compat = X.optimize_compact
action_of X prune = X.optimize_prune
action_of X index = X.optimize_index

unfoldable pub lancedb_table_optimize :
    {X : External} → X.World → Ptr → LanceDbOptimizeType → Ptr → Op X
lancedb_table_optimize w null optimize_type error_message = refuse error_message w
lancedb_table_optimize {X} w (addr t) optimize_type error_message = do
  tbl ← load_table (addr t)
  settle (X.optimize w tbl (action_of X optimize_type)) error_message
