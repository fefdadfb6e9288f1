-- ===== src/Columns.antt =====
-- The loop over an array of C strings that src/query.rs, src/index.rs and src/table.rs write out in every function that
-- takes column names or keys: `n` rounds from index `i`. `none` is the early return with an invalid argument, for a
-- null element or one that is not UTF-8.
pub mod Laws
use lancedb_c.Prelude.{ℕ, zero, suc, Option, none, some, List, [], ◌∷◌, ◌++◌}
use lancedb_c.Text.{Bytes}
use lancedb_c.External.{External}
use lancedb_c.Memory.{Ptr, null, addr, Cmd, pure, ◌>>=◌, load_str, load_at}

unfoldable pub read_columns :
    {X : External} → ℕ → ℕ → Ptr → List Bytes → Cmd X (Option (List Bytes))
read_columns zero i columns column_names = pure (some column_names)
read_columns (suc n) i columns column_names = do
  col_ptr ← load_at columns i
  elim col_ptr [
    | null ↦ pure none
    | addr a ↦ do
      o ← load_str (addr a)
      elim o [
        | none ↦ pure none
        | some col_str ↦ read_columns n (suc i) columns (column_names ++ (col_str ∷ []))
      ]
  ]
