-- ===== src/Tests/Tables.antt =====
-- Runs of the functions of src/index.rs that make indices, and of lancedb_json_matches of src/json.rs.
use lancedb_c.Prelude.{
  ℕ, ℤ, Bool, Option, ◌≡◌, refl, none, some, List, [], ◌∷◌, true, pos, negsuc, arith,
}
use lancedb_c.Text.{codes, is_utf8}
use lancedb_c.External.{Result}
use lancedb_c.Memory.{
  addr, null, Cell, text, table, pointers, pointer_slot, count_slot, array, schema, expr,
  vector_index_config, LanceDbDistanceType, LanceDbVectorIndexConfig, ok,
}
use lancedb_c.Memory.Returns.{Returns}
use lancedb_c.Index.{
  LanceDbIndexType, vector_index, default_scalar_config, default_fts_config,
  lancedb_table_create_vector_index, lancedb_table_create_scalar_index,
  lancedb_table_create_fts_index,
}
use lancedb_c.Index.Settings.{vector_index_of, vector_index-settings}
use lancedb_c.Index.Requests.{
  requested, fts_index_of, lancedb_table_create_vector_index-requested,
  lancedb_table_create_scalar_index-requested, lancedb_table_create_fts_index-requested,
}
use lancedb_c.Json.Matches.{count_rows}
use lancedb_c.Json.Matches.Rows.{count_rows_lem}
use lancedb_c.Tests.{sample, heap_of, Term}

abbrev vector_settings : LanceDbVectorIndexConfig sample
vector_settings = record {
  num_partitions = pos 8;
  num_sub_vectors = pos 4;
  max_iterations = negsuc 0;
  sample_rate = 2;
  distance_type = LanceDbDistanceType.dot;
  replace = pos 0;
}

vector_index-settings_example :
    vector_index sample LanceDbIndexType.ivf_pq vector_settings
    ≡ vector_index_of sample LanceDbIndexType.ivf_pq vector_settings
vector_index-settings_example = vector_index-settings sample LanceDbIndexType.ivf_pq vector_settings

abbrev index_cells : List (Cell sample)
index_cells =
    table 4
    ∷ pointers (some (addr 2) ∷ [])
    ∷ text (codes "v")
    ∷ vector_index_config vector_settings
    ∷ []

lancedb_table_create_vector_index-requested_example :
    lancedb_table_create_vector_index 7
      (addr 0)
      (addr 1)
      1
      LanceDbIndexType.ivf_pq
      (addr 3)
      null
      (heap_of index_cells [])
    ≡ ok
        (requested sample 7 4
          (some (codes "v" ∷ []))
          (vector_index_of sample LanceDbIndexType.ivf_pq vector_settings)
          (pos 0))
        (heap_of index_cells [])
unfolding is_utf8
lancedb_table_create_vector_index-requested_example =
    lancedb_table_create_vector_index-requested (heap_of index_cells []) 7 0 1 4
      (some (addr 2) ∷ []) refl refl (addr 3) (addr 2 ∷ []) (some (codes "v") ∷ []) (refl, tt)
      (refl, tt) LanceDbIndexType.ivf_pq vector_settings refl

lancedb_table_create_scalar_index-requested_example :
    lancedb_table_create_scalar_index 7
      (addr 0)
      (addr 1)
      1
      LanceDbIndexType.bitmap
      null
      null
      (heap_of index_cells [])
    ≡ ok
        (requested sample 7 4 (some (codes "v" ∷ [])) (some sample.bitmap_index) (pos 1))
        (heap_of index_cells [])
unfolding is_utf8 default_scalar_config
lancedb_table_create_scalar_index-requested_example =
    lancedb_table_create_scalar_index-requested (heap_of index_cells []) 7 0 1 4
      (some (addr 2) ∷ []) refl refl null (addr 2 ∷ []) (some (codes "v") ∷ []) (refl, tt)
      (refl, tt) LanceDbIndexType.bitmap default_scalar_config refl

lancedb_table_create_fts_index-requested_example :
    lancedb_table_create_fts_index 7 (addr 0) (addr 1) 1 null null (heap_of index_cells [])
    ≡ ok
        (requested sample 7 4
          (some (codes "v" ∷ []))
          (fts_index_of sample default_fts_config none none)
          (pos 1))
        (heap_of index_cells [])
unfolding is_utf8 default_fts_config
lancedb_table_create_fts_index-requested_example =
    lancedb_table_create_fts_index-requested (heap_of index_cells []) 7 0 1 4 (some (addr 2) ∷ [])
      refl refl null (addr 2 ∷ []) (some (codes "v") ∷ []) (refl, tt) (refl, tt) default_fts_config
      none none refl (refl, tt) (refl, tt)

abbrev match_cells : List (Cell sample)
match_cells =
    pointers (some (addr 1) ∷ some (addr 2) ∷ [])
    ∷ array 2
    ∷ array 1
    ∷ schema 0
    ∷ expr (Term.flag true)
    ∷ pointer_slot null
    ∷ count_slot 0
    ∷ []

count_rows_lem_example :
    count_rows 2 0 (addr 0) 0 (heap_of match_cells []) ≡ ok (Result.ok 3) (heap_of match_cells [])
count_rows_lem_example =
    count_rows_lem (heap_of match_cells []) 0 0 (some (addr 1) ∷ some (addr 2) ∷ [])
      (addr 1 ∷ addr 2 ∷ []) (2 ∷ 1 ∷ []) (2 ∷ 1 ∷ []) 0 refl (refl, (refl, tt)) (refl, (refl, tt))
      (refl, (refl, tt)) (omega arith)

abbrev magnitude : ℤ → ℕ
magnitude (pos n) = n
magnitude (negsuc n) = n

abbrev flags_in : {E : Type 0} → Result (List (Option Bool)) E → List (Option Bool)
flags_in (Result.ok flags) = flags
flags_in (Result.err e) = []
