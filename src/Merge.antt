-- ===== src/Merge.antt =====
-- lancedb_table_merge_insert of src/table.rs.
pub mod Laws
use lancedb_c.Prelude.{
  ℕ, zero, suc, ℤ, pos, negsuc, Bool, true, false, ◌||◌, ◌==◌, Option, none, some, List, [],
}
use mathlib.Core.Option
use lancedb_c.Text.{Bytes}
use lancedb_c.External.{External}
use lancedb_c.Memory.{
  Ptr, null, addr, is_null, LanceDbMergeInsertConfig, Cmd, pure, ◌>>=◌, load_table, load_expr,
  load_str, load_merge_config, take_reader, SingleBatchReader,
}
use lancedb_c.Columns.{read_columns}
use lancedb_c.Database.{Op, refuse, settle}
use lancedb_c.Reader.{contents}

-- `n != 0`
unfoldable pub non_zero : ℤ → Bool
non_zero (pos zero) = false
non_zero (pos (suc n)) = true
non_zero (negsuc n) = true

-- The condition for updates: its text or its expression.
abbrev pub Condition : External → Type 0
Condition X = Option Bytes × Option X.Expr

-- the calls on the builder for the updates and the insertions of a configuration
unfoldable pub update_with : (X : External) → Condition X → X.MergeBuilder → X.MergeBuilder
update_with X (sql, some e) b = X.when_matched_update_all_expr b e
update_with X (sql, none) b = X.when_matched_update_all b sql

unfoldable pub configure :
    (X : External) → Bool → Bool → Condition X → X.MergeBuilder → X.MergeBuilder
unfolding update_with
configure X false false condition b = b
configure X true false condition b = update_with X condition b
configure X false true condition b = X.when_not_matched_insert_all b
configure X true true condition b = X.when_not_matched_insert_all (update_with X condition b)

module _ {X : External} where
  -- the condition in the fields of a configuration; `none` is the early return
  unfoldable pub condition_in : Ptr → Ptr → Cmd X (Option (Condition X))
  condition_in (addr s) (addr e) = pure none
  condition_in null (addr e) = do x ← load_expr (addr e); pure (some (none, some x))
  condition_in (addr s) null = do
    o ← load_str (addr s)
    pure (Option.map (λ condition. (some condition, none)) o)
  condition_in null null = pure (some (none, none))

  unfoldable pub condition_if : Bool → LanceDbMergeInsertConfig → Cmd X (Option (Condition X))
  condition_if false cfg = pure (some (none, none))
  condition_if true cfg =
      condition_in cfg.when_matched_update_all_condition cfg.when_matched_update_all_expr

  unfoldable pub condition_of : Ptr → Cmd X (Option (Condition X))
  condition_of null = pure (some (none, none))
  condition_of (addr c) = do
    cfg ← load_merge_config (addr c)
    condition_if (non_zero cfg.when_matched_update_all) cfg

  -- the configured builder: updates and insertions for null
  unfoldable pub builder_for : Ptr → Condition X → X.MergeBuilder → Cmd X X.MergeBuilder
  builder_for null condition b = pure (configure X true true (none, none) b)
  builder_for (addr c) condition b = do
    cfg ← load_merge_config (addr c)
    pure (
        configure X (non_zero cfg.when_matched_update_all)
          (non_zero cfg.when_not_matched_insert_all) condition b)

  -- from the condition on
  unfoldable pub merge_on :
      X.World → Ptr → SingleBatchReader X → List Bytes → Ptr → Ptr → Option (Condition X) → Op X
  merge_on w table data_box column_names config error_message none = refuse error_message w
  merge_on w table data_box column_names config error_message (some condition) = do
    tbl ← load_table table
    merge_builder ← builder_for config condition (X.merge_insert tbl column_names)
    settle (X.execute_merge w merge_builder data_box.schema (contents data_box)) error_message

  -- from the column names on
  unfoldable pub merge_columns :
      X.World → Ptr → SingleBatchReader X → Ptr → Ptr → Option (List Bytes) → Op X
  merge_columns w table data_box config error_message none = refuse error_message w
  merge_columns w table data_box config error_message (some column_names) = do
    update_condition ← condition_of config
    merge_on w table data_box column_names config error_message update_condition

  unfoldable pub lancedb_table_merge_insert : X.World → Ptr → Ptr → Ptr → ℕ → Ptr → Ptr → Op X
  lancedb_table_merge_insert w table null on_columns num_columns config error_message =
      refuse error_message w
  lancedb_table_merge_insert w table (addr d) on_columns num_columns config error_message = do
    data_box ← take_reader (addr d)
    elim (is_null table || is_null on_columns || (num_columns == 0)) [
      | true ↦ refuse error_message w
      | false ↦ do
        column_names ← read_columns num_columns 0 on_columns []
        merge_columns w table data_box config error_message column_names
    ]
