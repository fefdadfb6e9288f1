-- ===== src/StringList.antt =====
-- The lists of strings that src/connection.rs and src/index.rs return: the array of C strings that each listing function
-- writes out in the same words, its clean-up on a name that is no C string, and the functions that free such a list.
pub mod Client
pub mod Laws
pub mod Listing
use lancedb_c.Prelude.{ℕ, zero, suc, Bool, true, false, none, List, [], ◌∷◌, length, replicate}
use lancedb_c.Text.{Bytes, has_nul}
use lancedb_c.External.{External}
use lancedb_c.Memory.{
  Ptr, null, addr, text, pointers, Cmd, pure, ◌>>=◌, ◌>>◌, alloc, malloc, release, take_text,
  load_at, store_at, write_pointer, write_count,
}
use lancedb_c.Error.{LanceDbError, success, unknown, set_unknown_error_message}

module _ {X : External} where
  -- `for j in 0..i { let _ = CString::from_raw(*array.add(j)); }`: `n` rounds from `j`
  unfoldable pub drop_written : ℕ → ℕ → Ptr → Cmd X (Unit {0})
  drop_written zero j array = pure tt
  drop_written (suc n) j array = do p ← load_at array j; take_text p; drop_written n (suc j) array

  -- the loop over the names from index `i`; `false` after the clean-up
  unfoldable pub write_names : ℕ → Ptr → List Bytes → Cmd X Bool
  write_names i array [] = pure true
  write_names i array (name ∷ names) = elim (has_nul name) [
    | true ↦ do drop_written i 0 array; release array; pure false
    | false ↦ do p ← alloc (text name); store_at array i p; write_names (suc i) array names
  ]

  -- the outcome of the loop
  unfoldable pub finish_names : Ptr → Ptr → Ptr → Bool → Cmd X LanceDbError
  finish_names array names_out error_message true = do write_pointer names_out array; pure success
  finish_names array names_out error_message false = do
    set_unknown_error_message error_message
    pure unknown

  -- a list that is not empty, in the array that `malloc` returned
  unfoldable pub export_array : Ptr → List Bytes → Ptr → Ptr → Cmd X LanceDbError
  export_array null names names_out error_message = do
    set_unknown_error_message error_message
    pure unknown
  export_array (addr l) names names_out error_message = do
    written ← write_names 0 (addr l) names
    finish_names (addr l) names_out error_message written

  -- what a listing function does with the names
  unfoldable pub export_names : List Bytes → Ptr → Ptr → Ptr → Cmd X LanceDbError
  export_names [] names_out count_out error_message = do
    write_count count_out 0
    write_pointer names_out null
    pure success
  export_names (name ∷ names) names_out count_out error_message = do
    write_count count_out (length (name ∷ names))
    array ← malloc (pointers (replicate (length (name ∷ names)) none))
    export_array array (name ∷ names) names_out error_message

  -- the loop of the freeing functions: `n` rounds from `i`, null elements passed over
  unfoldable pub free_elements : ℕ → ℕ → Ptr → Cmd X (Unit {0})
  free_elements zero i array = pure tt
  free_elements (suc n) i array = do
    p ← load_at array i
    elim p [
      | null ↦ free_elements n (suc i) array
      | addr a ↦ do take_text (addr a); free_elements n (suc i) array
    ]

  unfoldable pub lancedb_free_table_names : Ptr → ℕ → Cmd X (Unit {0})
  lancedb_free_table_names null count = pure tt
  lancedb_free_table_names (addr l) count = do
    free_elements count 0 (addr l)
    release (addr l)
    pure tt

  unfoldable pub lancedb_free_namespace_list : Ptr → ℕ → Cmd X (Unit {0})
  lancedb_free_namespace_list null count = pure tt
  lancedb_free_namespace_list (addr l) count = do
    free_elements count 0 (addr l)
    release (addr l)
    pure tt

  unfoldable pub lancedb_free_index_list : Ptr → ℕ → Cmd X (Unit {0})
  lancedb_free_index_list null count = pure tt
  lancedb_free_index_list (addr l) count = do
    free_elements count 0 (addr l)
    release (addr l)
    pure tt
