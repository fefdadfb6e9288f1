-- ===== src/Tests/Results.antt =====
-- Runs of the export of results of src/query.rs.
use lancedb_c.Prelude.{false, ℕ, ◌==◌, ◌≡◌, refl, if◌then◌else◌, none, List, [], ◌∷◌}
use lancedb_c.Text.{codes}
use lancedb_c.Memory.{
  Heap, ◌>>◌, null, addr, Cell, pointer_slot, count_slot, pointers, text, stream,
}
use lancedb_c.Memory.Returns.{Returns}
use lancedb_c.Error.{success, unknown}
use lancedb_c.Error.Messages.{Reported}
use lancedb_c.QueryResult.{export_batches, lancedb_free_arrow_arrays, lancedb_query_result_to_arrow}
use lancedb_c.QueryResult.Laws.{export_batches-freed}
use lancedb_c.QueryResult.Export.{
  Received, Refused, lancedb_query_result_to_arrow-Received, lancedb_query_result_to_arrow-Refused,
}
use lancedb_c.Tests.{sample, heap_of, heap_of-IsWf}

abbrev export_cells : List (Cell sample)
export_cells = text (codes "x") ∷ pointers (none ∷ none ∷ []) ∷ []

export_batches-freed_example :
    Returns
      (λ _ k. (b : ℕ) → k.mem b ≡ (if b == 1 then none else (heap_of export_cells []).mem b))
      ((export_batches (addr 1) 0 (7 ∷ 8 ∷ []) >> lancedb_free_arrow_arrays (addr 1) 2)
        (heap_of export_cells []))
export_batches-freed_example =
    export_batches-freed 1 (heap_of export_cells []) (7 ∷ 8 ∷ []) refl
      (heap_of-IsWf export_cells [])

abbrev result_cells : List (Cell sample)
result_cells = stream [] ∷ pointer_slot null ∷ pointer_slot null ∷ count_slot 0 ∷ []

lancedb_query_result_to_arrow-Received_example :
    Returns
      (λ code g. (code ≡ success) × Received (heap_of result_cells []) 0 1 2 3 7 (7 ∷ 8 ∷ []) g)
      (lancedb_query_result_to_arrow
        (addr 0)
        (addr 1)
        (addr 2)
        (addr 3)
        null
        (heap_of result_cells []))
lancedb_query_result_to_arrow-Received_example =
    lancedb_query_result_to_arrow-Received (heap_of result_cells []) 0 1 2 3 0 [] null null null 7
      (8 ∷ []) 7 refl refl refl refl refl (heap_of-IsWf result_cells []) refl refl refl

abbrev refused_cells : List (Cell sample)
refused_cells =
    stream [] ∷ pointer_slot null ∷ pointer_slot null ∷ count_slot 0 ∷ pointer_slot null ∷ []

lancedb_query_result_to_arrow-Refused_example :
    Returns
      (λ code g.
        (code ≡ unknown)
        × ((b : Heap sample) × Refused (heap_of refused_cells (false ∷ [])) 0 2 3 2 b
            × Reported (codes "Unknown error") (addr 4) b g))
      (lancedb_query_result_to_arrow
        (addr 0)
        (addr 1)
        (addr 2)
        (addr 3)
        (addr 4)
        (heap_of refused_cells (false ∷ [])))
lancedb_query_result_to_arrow-Refused_example =
    lancedb_query_result_to_arrow-Refused (heap_of refused_cells (false ∷ [])) 0 1 2 3 0 [] null
      null (addr 4) 7 (8 ∷ []) 7 refl refl refl refl refl (heap_of-IsWf refused_cells (false ∷ []))
      refl refl refl (null, refl)
