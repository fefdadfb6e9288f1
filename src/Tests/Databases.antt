-- ===== src/Tests/Databases.antt =====
-- Runs of the functions that change databases: requests, merges, imports, and tables.
use lancedb_c.Prelude.{◌≡◌, refl, none, some, List, [], ◌∷◌, false, true, pos}
use lancedb_c.Text.{codes, is_utf8}
use lancedb_c.External.{Result}
use lancedb_c.Memory.{
  addr, null, Cell, text, table, connection, reader, schema, array, pointers, pointer_slot,
  merge_config, expr, ok, write,
}
use lancedb_c.Memory.Returns.{Returns}
use lancedb_c.Error.{LanceDbError, success, invalid_argument}
use lancedb_c.Database.{LanceDbOptimizeType}
use lancedb_c.Error.{error_to_error_code}
use lancedb_c.Database.{action_of}
use lancedb_c.Database.{lancedb_table_df_delete}
use lancedb_c.Database.Delete.{lancedb_table_df_delete-deleted}
use lancedb_c.Database.Requests.{
  Request, drop_table, delete, optimize, effect, perform, perform_all, send_all,
}
use lancedb_c.Database.Requests.Laws.{Yields, send_all-perform_all}
use lancedb_c.Table.{if_valid}
use lancedb_c.Table.Laws.{lancedb_connection_open_table-Handed}
use lancedb_c.Memory.{SingleBatchReader}
use lancedb_c.Merge.{lancedb_table_merge_insert}
use lancedb_c.Merge.Laws.{MergeConfig, merged_with, lancedb_table_merge_insert-merged}
use lancedb_c.Reader.{drain, contents}
use lancedb_c.Reader.Laws.{drain-contents}
use lancedb_c.Table.{lancedb_table_create, lancedb_connection_open_table}
use lancedb_c.Table.Laws.{Created, Handed, lancedb_table_create-Created}
use lancedb_c.Tests.{sample, heap_of, heap_of-IsWf, Term}

-- a merge on one column, with a condition that is an expression
abbrev merge_cells : List (Cell sample)
merge_cells =
    table 4
    ∷ reader (record { schema = tt; batch = some 9; exhausted = false })
    ∷ pointers (some (addr 3) ∷ [])
    ∷ text (codes "id")
    ∷ merge_config (record {
      when_matched_update_all = pos 1;
      when_not_matched_insert_all = pos 1;
      when_matched_update_all_condition = null;
      when_matched_update_all_expr = addr 5;
    })
    ∷ expr (Term.flag true)
    ∷ []

abbrev merge_settings : MergeConfig sample
merge_settings = record {
  update = true;
  insert = true;
  sql = none;
  condition = some (Term.flag true);
}

lancedb_table_merge_insert-merged_example :
    lancedb_table_merge_insert 10
      (addr 0)
      (addr 1)
      (addr 2)
      1
      (addr 4)
      null
      (heap_of merge_cells [])
    ≡ ok
        (merged_with sample 10
          (some 4)
          (record { schema = tt; batch = some 9; exhausted = false })
          (some (some (codes "id") ∷ []))
          (some merge_settings))
        (write (heap_of merge_cells []) 1 none)
unfolding is_utf8
lancedb_table_merge_insert-merged_example =
    lancedb_table_merge_insert-merged (heap_of merge_cells []) 10 (addr 0) 1 (addr 2) 1 (addr 4)
      (some 4) (record { schema = tt; batch = some 9; exhausted = false })
      (some (some (codes "id") ∷ [])) (some merge_settings) refl refl
      (some (addr 3) ∷ [], refl, (addr 3 ∷ [], (refl, tt), refl, (refl, tt)))
      (
        (record {
          when_matched_update_all = pos 1;
          when_not_matched_insert_all = pos 1;
          when_matched_update_all_condition = null;
          when_matched_update_all_expr = addr 5;
        }),
        refl,
        refl,
        refl,
        (refl, tt),
        refl,
      )

abbrev one_batch : SingleBatchReader sample
one_batch = record { schema = tt; batch = some 9; exhausted = false }

drain-contents_example : drain 7 one_batch ≡ contents one_batch
drain-contents_example = drain-contents 5 one_batch

abbrev import_cells : List (Cell sample)
import_cells = table 4 ∷ array 6 ∷ pointer_slot null ∷ schema 6 ∷ []

abbrev create_cells : List (Cell sample)
create_cells =
    connection 4 none ∷ text (codes "t") ∷ schema 6 ∷ reader one_batch ∷ pointer_slot null ∷ []

lancedb_table_create-Created_example :
    Returns
      (Created
        (heap_of create_cells [])
        10
        4
        (codes "t")
        (addr 3)
        (some one_batch)
        4
        true
        (Result.ok tt))
      (lancedb_table_create 10
        (addr 0)
        (addr 1)
        (addr 2)
        (addr 3)
        (addr 4)
        null
        (heap_of create_cells []))
unfolding is_utf8
lancedb_table_create-Created_example =
    lancedb_table_create-Created (heap_of create_cells []) 10 4 null 4 refl
      (heap_of-IsWf create_cells []) 0 1 (codes "t") refl refl 2 6 (addr 3) (some one_batch) refl
      refl

-- a name that is not valid: no handle
abbrev open_cells : List (Cell sample)
open_cells = connection 4 none ∷ text [] ∷ pointer_slot null ∷ []

lancedb_connection_open_table-Handed_example :
    Returns
      (λ v g. (v ≡ (LanceDbError.invalid_table_name, 10)) × Handed (heap_of open_cells []) 2 none g)
      (lancedb_connection_open_table 10 (addr 0) (addr 1) (addr 2) null (heap_of open_cells []))
unfolding is_utf8 if_valid error_to_error_code
lancedb_connection_open_table-Handed_example =
    lancedb_connection_open_table-Handed (heap_of open_cells []) 10 2 null 4 refl
      (heap_of-IsWf open_cells []) 0 1 [] refl refl

-- the second request has a broken text
abbrev requests : List Request
requests = drop_table (codes "t") none ∷ delete (255 ∷ []) ∷ optimize LanceDbOptimizeType.prune ∷ []

abbrev request_cells : List (Cell sample)
request_cells = connection 4 none ∷ table 4 ∷ []

send_all-perform_all_example :
    Returns
      (Yields ((success ∷ invalid_argument ∷ success ∷ [], 12)) (heap_of request_cells []))
      (send_all 10 (addr 0) (addr 1) requests (heap_of request_cells []))
unfolding is_utf8 perform perform_all effect action_of
send_all-perform_all_example =
    send_all-perform_all 0 1 4 4 requests 10 (heap_of request_cells []) refl refl
      (heap_of-IsWf request_cells [])

abbrev delete_cells : List (Cell sample)
delete_cells = table 4 ∷ expr (Term.flag true) ∷ []

lancedb_table_df_delete-deleted_example :
    lancedb_table_df_delete 10 (addr 0) (addr 1) null (heap_of delete_cells [])
    ≡ ok (success, 11) (write (heap_of delete_cells []) 1 none)
lancedb_table_df_delete-deleted_example =
    lancedb_table_df_delete-deleted (heap_of delete_cells []) 10 1 (Term.flag true) (addr 0)
      (some 4) refl refl
