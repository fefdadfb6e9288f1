-- ===== src/Nearest/Laws.antt =====
-- lancedb_table_nearest_to against the conversion of a query's result, which has much the same code again.
use lancedb_c.Prelude.{true, ◌≡◌, Option, none, some, List, [], ◌∷◌}
use lancedb_c.Text.{Bytes, is_utf8}
use lancedb_c.External.{External, Result}
use lancedb_c.Memory.{◌>>◌, ok}

-- The schema of the batches can be exported.
abbrev pub Exportable : (X : External) → List X.Batch → Type 0
Exportable X [] = Unit {0}
Exportable X (b ∷ bs) = (s : X.Schema) × (X.export_schema (X.batch_schema b) ≡ Result.ok s)

-- The column is absent, or a name in UTF-8.
abbrev pub Utf8 : Option Bytes → Type 0
Utf8 none = Unit {0}
Utf8 (some s) = is_utf8 s ≡ true

-- A search with the column, if one is named.
abbrev pub on_column : (X : External) → Option Bytes → X.VectorQuery → X.VectorQuery
on_column X none q = q
on_column X (some s) q = X.vector_column q s
