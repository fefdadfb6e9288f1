-- ===== src/Tests/Errors.antt =====
-- Runs of src/error.rs.
use lancedb_c.Prelude.{ℕ, zero, suc, ◌==◌, false, ◌≡◌, refl, [], ◌∷◌, ◌<◌, ◌↔◌}
use lancedb_c.Text.{codes, has_nul}
use lancedb_c.External.{Error, LanceSource}
use lancedb_c.Memory.{null, addr, pointer_slot, text}
use lancedb_c.Memory.Returns.{Returns}
use lancedb_c.Error.{LanceDbError, code_of, error_to_error_code, handle_error, lancedb_free_string}
use lancedb_c.Error.Codes.{
  error_to_error_code_range, error_to_error_code-table_not_found_iff,
  error_to_error_code-permission_denied_iff, ReportsMissingTable, ReportsDenied,
}
use lancedb_c.Error.Messages.{Told, Delivered, handle_error-Told, lancedb_free_string-Delivered}
use lancedb_c.Tests.{heap_of, heap_of-IsWf}

abbrev wrapped : Error
wrapped = Error.lance LanceSource.namespace (codes "Table not found: t")

error_to_error_code_range_example :
    (1 < code_of (error_to_error_code wrapped)) × (code_of (error_to_error_code wrapped) < 99)
error_to_error_code_range_example = error_to_error_code_range wrapped

error_to_error_code-table_not_found_example :
    (error_to_error_code wrapped ≡ LanceDbError.table_not_found) ↔ ReportsMissingTable wrapped
error_to_error_code-table_not_found_example = error_to_error_code-table_not_found_iff wrapped

abbrev refused : Error
refused = Error.object_store (codes "AccessDenied")

error_to_error_code-permission_denied_example :
    (error_to_error_code refused ≡ LanceDbError.permission_denied) ↔ ReportsDenied refused
error_to_error_code-permission_denied_example = error_to_error_code-permission_denied_iff refused

handle_error-Told_example :
    Returns
      (λ code g.
        (code ≡ LanceDbError.timeout)
        × Told (codes "failed") (addr 0) (heap_of (pointer_slot null ∷ []) []) g)
      (handle_error Error.timeout (addr 0) (heap_of (pointer_slot null ∷ []) []))
unfolding error_to_error_code has_nul
handle_error-Told_example =
    handle_error-Told (heap_of (pointer_slot null ∷ []) []) Error.timeout (addr 0) (null, refl)
      (heap_of-IsWf (pointer_slot null ∷ []) [])

same_cell :
    (b : ℕ)
    → (b == 0) ≡ false
    → (b == 1) ≡ false
    → (heap_of (pointer_slot (addr 1) ∷ text (codes "failed") ∷ []) []).mem b
      ≡ (heap_of (pointer_slot null ∷ []) []).mem b
same_cell zero n c = absurd (cc)
same_cell (suc zero) n c = absurd (cc)
same_cell (suc (suc b)) n c = refl

abbrev delivered :
    Delivered
      (codes "failed")
      0
      (heap_of (pointer_slot null ∷ []) [])
      (heap_of (pointer_slot (addr 1) ∷ text (codes "failed") ∷ []) [])
delivered = record {
  at = 1;
  slot = refl;
  fresh = refl;
  holds = refl;
  same = same_cell;
  wf = heap_of-IsWf (pointer_slot (addr 1) ∷ text (codes "failed") ∷ []) [];
}

lancedb_free_string-Delivered_example :
    Returns
      (λ _ k. (b : ℕ) → (b == 0) ≡ false → k.mem b ≡ (heap_of (pointer_slot null ∷ []) []).mem b)
      (lancedb_free_string
        (addr 1)
        (heap_of (pointer_slot (addr 1) ∷ text (codes "failed") ∷ []) []))
lancedb_free_string-Delivered_example = lancedb_free_string-Delivered delivered
