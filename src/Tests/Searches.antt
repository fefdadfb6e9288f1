-- ===== src/Tests/Searches.antt =====
-- A run of lancedb_table_nearest_to of src/table.rs.
use lancedb_c.Prelude.{List, [], ◌∷◌}
use lancedb_c.Text.{codes}
use lancedb_c.Memory.{null, Cell, text, table, floats, stream, pointer_slot, count_slot}
use lancedb_c.Tests.{sample, Step}

abbrev search_cells : List (Cell sample)
search_cells =
    table 4
    ∷ floats (1 ∷ 2 ∷ 9 ∷ [])
    ∷ stream (Step.column (codes "v") ∷ Step.limit 5 ∷ [])
    ∷ pointer_slot null
    ∷ pointer_slot null
    ∷ count_slot 0
    ∷ text (codes "v")
    ∷ []
