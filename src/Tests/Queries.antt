-- ===== src/Tests/Queries.antt =====
-- Runs of src/query.rs.
use lancedb_c.Prelude.{refl, none, some, [], ◌∷◌, List}
use lancedb_c.Text.{codes, is_utf8}
use lancedb_c.External.{Result}
use lancedb_c.Memory.{LanceDbDistanceType, addr, table, VectorQuery}
use lancedb_c.Memory.Returns.{Returns}
use lancedb_c.Expr.Build.{column, IsText}
use lancedb_c.Query.Settings.{Setting, limit, where_filter, df_filter, select, session, intended}
use lancedb_c.Query.Settings.Laws.{Outcome, session-intended}
use lancedb_c.VectorQuery.Settings.{Tuning, nprobes, distance_type}
use lancedb_c.Tests.{sample, heap_of, heap_of-IsWf}

abbrev settings : List (Setting sample)
settings =
    limit 5
    ∷ where_filter (codes "x")
    ∷ select (codes "a" ∷ codes "b" ∷ [])
    ∷ df_filter (column (codes "c"))
    ∷ limit 9
    ∷ []

session-intended_example :
    Returns
      (Outcome (heap_of (table 4 ∷ []) []) (Result.ok (intended 4 settings)))
      (session 6 (addr 0) settings (heap_of (table 4 ∷ []) []))
unfolding is_utf8 IsText
session-intended_example =
    session-intended 6 (heap_of (table 4 ∷ []) []) 0 4 settings refl
      (heap_of-IsWf (table 4 ∷ []) []) (tt, (refl, ((refl, (refl, tt)), (refl, (tt, tt)))))

abbrev nearest : VectorQuery sample
nearest = record {
  table = 4;
  query_vector = 1 ∷ 2 ∷ [];
  column = none;
  limit = some 3;
  offset = none;
  select = none;
  filter = none;
  df_filter = none;
  distance_type = none;
  nprobes = none;
  refine_factor = none;
  ef = none;
}

abbrev tunings : List Tuning
tunings = nprobes 7 ∷ distance_type LanceDbDistanceType.dot ∷ nprobes 8 ∷ []
