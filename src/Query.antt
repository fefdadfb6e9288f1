-- ===== src/Query.antt =====
-- src/query.rs, plain queries: the handle that collects a query's settings, and its execution.
pub mod Settings
use lancedb_c.Prelude.{ℕ, Option, none, some, List, []}
use lancedb_c.Text.{Bytes}
use lancedb_c.External.{External, Error, Result, ok, err}
use lancedb_c.Memory.{
  Ptr, null, addr, Query, query, stream, Cmd, pure, ◌>>=◌, ◌>>◌, alloc, store, load_str, take_expr,
  load_query, take_query, load_table,
}
use lancedb_c.Error.{LanceDbError, success, set_invalid_argument_message, reject}
use lancedb_c.Columns.{read_columns}

module _ {X : External} where
  unfoldable pub lancedb_query_new : Ptr → Cmd X Ptr
  lancedb_query_new null = pure null
  lancedb_query_new (addr t) = do
    tbl ← load_table (addr t)
    alloc (
        query (record {
          table = tbl;
          limit = none;
          offset = none;
          select = none;
          filter = none;
          df_filter = none;
        }))

  unfoldable pub lancedb_query_limit : Ptr → ℕ → Ptr → Cmd X LanceDbError
  lancedb_query_limit null limit error_message = reject error_message
  lancedb_query_limit (addr a) limit error_message = do
    q ← load_query (addr a)
    store (addr a) (query (record q { limit = some limit }))
    pure success

  unfoldable pub lancedb_query_offset : Ptr → ℕ → Ptr → Cmd X LanceDbError
  lancedb_query_offset null offset error_message = reject error_message
  lancedb_query_offset (addr a) offset error_message = do
    q ← load_query (addr a)
    store (addr a) (query (record q { offset = some offset }))
    pure success

  unfoldable pub lancedb_query_select : Ptr → Ptr → ℕ → Ptr → Cmd X LanceDbError
  lancedb_query_select null columns num_columns error_message = reject error_message
  lancedb_query_select (addr a) null num_columns error_message = reject error_message
  lancedb_query_select (addr a) (addr c) num_columns error_message = do
    names ← read_columns num_columns 0 (addr c) []
    elim names [
      | none ↦ reject error_message
      | some column_names ↦ do
        q ← load_query (addr a)
        store (addr a) (query (record q { select = some (X.select_columns column_names) }))
        pure success
    ]

  unfoldable pub lancedb_query_where_filter : Ptr → Ptr → Ptr → Cmd X LanceDbError
  lancedb_query_where_filter null filter error_message = reject error_message
  lancedb_query_where_filter (addr a) null error_message = reject error_message
  lancedb_query_where_filter (addr a) (addr f) error_message = do
    o ← load_str (addr f)
    elim o [
      | none ↦ reject error_message
      | some filter_str ↦ do
        q ← load_query (addr a)
        store (addr a) (query (record q { filter = some filter_str }))
        pure success
    ]

  unfoldable pub lancedb_query_df_filter : Ptr → Ptr → Ptr → Cmd X LanceDbError
  lancedb_query_df_filter null expr error_message = reject error_message
  lancedb_query_df_filter (addr a) null error_message = reject error_message
  lancedb_query_df_filter (addr a) (addr e) error_message = do
    expr_box ← take_expr (addr e)
    q ← load_query (addr a)
    store (addr a) (query (record q { df_filter = some expr_box }))
    pure success

-- `if let Some(v) = setting { query = query.set(v) }`
abbrev pub apply_if : {Q A : Type 0} → (Q → A → Q) → Option A → Q → Q
apply_if set none q = q
apply_if set (some v) q = set q v

-- the filter of DataFusion, or else the one in SQL
abbrev pub apply_filter :
    {Q E : Type 0} → (Q → E → Q) → (Q → Bytes → Q) → Option E → Option Bytes → Q → Q
apply_filter df sql (some df_filter) filter q = df q df_filter
apply_filter df sql none filter q = apply_if sql filter q

module _ {X : External} where
  -- the query that is sent to lancedb
  unfoldable pub rust_query : Query X → X.Query
  rust_query query_box =
      apply_filter X.query_df_filter X.query_only_if query_box.df_filter query_box.filter (
        apply_if X.query_select query_box.select (
          apply_if X.query_offset query_box.offset
            (apply_if X.query_limit query_box.limit (X.query query_box.table))))

  unfoldable pub stream_result : Result X.Stream Error → Cmd X Ptr
  stream_result (ok s) = alloc (stream s)
  stream_result (err e) = pure null

  unfoldable pub lancedb_query_execute : X.World → Ptr → Cmd X Ptr
  lancedb_query_execute w null = pure null
  lancedb_query_execute w (addr a) = do
    query_box ← take_query (addr a)
    stream_result (X.execute_query w (rust_query query_box))

  unfoldable pub lancedb_query_free : Ptr → Cmd X (Unit {0})
  lancedb_query_free null = pure tt
  lancedb_query_free (addr a) = do take_query (addr a); pure tt
