-- ===== src/Index.antt =====
-- The functions of src/index.rs that make an index of a table.
pub mod Settings
pub mod Requests
use lancedb_c.Prelude.{
  ℕ, zero, suc, ℤ, pos, negsuc, Bool, true, false, not, ◌||◌, ◌==◌, Option, none, some, List, [],
  if◌then◌else◌,
}
use mathlib.Core.Option
use lancedb_c.Text.{Bytes}
use lancedb_c.External.{External, IvfKind}
use lancedb_c.Memory.{
  Ptr, null, addr, is_null, LanceDbVectorIndexConfig, LanceDbScalarIndexConfig,
  LanceDbFtsIndexConfig, LanceDbDistanceType, Cmd, pure, ◌>>=◌, load_table, load_str,
  load_vector_index_config, load_scalar_index_config, load_fts_index_config,
}
use lancedb_c.Columns.{read_columns}
use lancedb_c.Database.{Op, refuse, settle}
use lancedb_c.Merge.{non_zero}
use lancedb_c.VectorQuery.{distance_type_of}

pub data LanceDbIndexType : Type 0 where
  auto btree bitmap label_list fts ivf_flat ivf_pq ivf_hnsw_pq ivf_hnsw_sq : LanceDbIndexType

-- `impl Default for LanceDBVectorIndexConfig`
unfoldable pub default_vector_config : (X : External) → LanceDbVectorIndexConfig X
default_vector_config X = record {
  num_partitions = negsuc 0;
  num_sub_vectors = negsuc 0;
  max_iterations = negsuc 0;
  sample_rate = X.f32_zero;
  distance_type = LanceDbDistanceType.l2;
  replace = pos 1;
}

unfoldable pub default_scalar_config : LanceDbScalarIndexConfig
default_scalar_config = record { replace = pos 1 }

unfoldable pub default_fts_config : LanceDbFtsIndexConfig
default_fts_config = record {
  base_tokenizer = null;
  language = null;
  max_token_length = negsuc 0;
  lowercase = pos 1;
  stem = pos 0;
  remove_stop_words = pos 0;
  ascii_folding = pos 0;
  replace = pos 1;
}

-- `if n > 0 { builder = builder.set(n as u32) }`
unfoldable pub if_positive : {B : Type 0} → (B → ℕ → B) → ℤ → B → B
if_positive set (pos zero) builder = builder
if_positive set (pos (suc n)) builder = set builder (suc n)
if_positive set (negsuc n) builder = builder

unfoldable pub sampled : (X : External) → (kind : IvfKind) → X.F32 → X.Ivf kind → X.Ivf kind
sampled X kind rate builder =
    if X.f32_positive rate then X.ivf_sample_rate kind builder (X.f32_as_u32 rate) else builder

-- the end of every arm: iterations, sampling and distance
unfoldable pub trained :
    (X : External) → (kind : IvfKind) → LanceDbVectorIndexConfig X → X.Ivf kind → X.Index
trained X kind cfg builder = X.ivf_index kind (
    X.ivf_distance_type kind
      (sampled X kind cfg.sample_rate
        (if_positive (X.ivf_max_iterations kind) cfg.max_iterations builder))
      (distance_type_of cfg.distance_type))

unfoldable pub partitioned :
    (X : External) → (kind : IvfKind) → LanceDbVectorIndexConfig X → X.Ivf kind
partitioned X kind cfg =
    if_positive (X.ivf_num_partitions kind) cfg.num_partitions (X.ivf_default kind)

unfoldable pub quantized :
    (X : External) → (kind : IvfKind) → LanceDbVectorIndexConfig X → X.Ivf kind
quantized X kind cfg =
    if_positive (X.ivf_num_sub_vectors kind) cfg.num_sub_vectors (partitioned X kind cfg)

-- `let index = match index_type { … }`, with `none` for the early return
unfoldable pub vector_index :
    (X : External) → LanceDbIndexType → LanceDbVectorIndexConfig X → Option X.Index
vector_index X auto cfg = some X.auto_index
vector_index X ivf_flat cfg = some (trained X IvfKind.flat cfg (partitioned X IvfKind.flat cfg))
vector_index X ivf_pq cfg = some (trained X IvfKind.pq cfg (quantized X IvfKind.pq cfg))
vector_index X ivf_hnsw_pq cfg =
    some (trained X IvfKind.hnsw_pq cfg (quantized X IvfKind.hnsw_pq cfg))
vector_index X ivf_hnsw_sq cfg =
    some (trained X IvfKind.hnsw_sq cfg (partitioned X IvfKind.hnsw_sq cfg))
vector_index X _ cfg = none

unfoldable pub scalar_index : (X : External) → LanceDbIndexType → Option X.Index
scalar_index X btree = some X.btree_index
scalar_index X bitmap = some X.bitmap_index
scalar_index X label_list = some X.label_list_index
scalar_index X _ = none

-- a negative value leaves the token length unlimited
unfoldable pub token_length : ℤ → Option ℕ
token_length (pos n) = some n
token_length (negsuc n) = none

-- the flags of a full text index
unfoldable pub flagged : (X : External) → LanceDbFtsIndexConfig → X.Fts → X.Index
flagged X cfg builder = X.fts_index (
    X.fts_ascii_folding
      (X.fts_remove_stop_words
        (X.fts_stem
          (X.fts_lower_case (X.fts_max_token_length builder (token_length cfg.max_token_length))
            (non_zero cfg.lowercase))
          (non_zero cfg.stem))
        (non_zero cfg.remove_stop_words))
      (non_zero cfg.ascii_folding))

-- the tokenizer and the language of a full text index; `none` is the early return
unfoldable pub tokenized : (X : External) → Option Bytes → X.Fts → X.Fts
tokenized X none builder = builder
tokenized X (some tokenizer) builder = X.fts_base_tokenizer builder tokenizer

unfoldable pub in_language : (X : External) → Option Bytes → X.Fts → Option X.Fts
in_language X none builder = some builder
in_language X (some language) builder = X.fts_language builder language

module _ {X : External} where
  -- `(*config).clone()`, or the default for null
  unfoldable pub vector_config : Ptr → Cmd X (LanceDbVectorIndexConfig X)
  vector_config null = pure (default_vector_config X)
  vector_config (addr c) = load_vector_index_config (addr c)

  unfoldable pub scalar_config : Ptr → Cmd X LanceDbScalarIndexConfig
  scalar_config null = pure default_scalar_config
  scalar_config (addr c) = load_scalar_index_config (addr c)

  unfoldable pub fts_config : Ptr → Cmd X LanceDbFtsIndexConfig
  fts_config null = pure default_fts_config
  fts_config (addr c) = load_fts_index_config (addr c)

  -- a string that is used if it is there and in UTF-8, and passed over otherwise
  unfoldable pub usable_str : Ptr → Cmd X (Option Bytes)
  usable_str null = pure none
  usable_str (addr s) = load_str (addr s)

  -- the creation, with an index or the early return
  unfoldable pub create_with_index :
      X.World → X.Table → List Bytes → Option X.Index → ℤ → Ptr → Op X
  create_with_index w tbl column_names none replace error_message = refuse error_message w
  create_with_index w tbl column_names (some index) replace error_message =
      let builder = X.create_index tbl column_names index in
      settle
        (X.execute_index w (if non_zero replace then builder else X.index_replace builder false))
        error_message

  -- the table, when there are names
  unfoldable pub named_columns :
      X.World → Option (List Bytes) → Ptr → Ptr → (X.Table → List Bytes → Op X) → Op X
  named_columns w none table error_message rest = refuse error_message w
  named_columns w (some column_names) table error_message rest = do
    tbl ← load_table table
    rest tbl column_names

  -- the checks and the loop that all three functions start with
  unfoldable pub columns_unless :
      Bool → X.World → Ptr → Ptr → ℕ → Ptr → (X.Table → List Bytes → Op X) → Op X
  columns_unless true w table columns num_columns error_message rest = refuse error_message w
  columns_unless false w table columns num_columns error_message rest = do
    column_names ← read_columns num_columns 0 columns []
    named_columns w column_names table error_message rest

  unfoldable pub with_columns : X.World → Ptr → Ptr → ℕ → Ptr → (X.Table → List Bytes → Op X) → Op X
  with_columns w table columns num_columns error_message rest =
      columns_unless (is_null table || is_null columns || (num_columns == 0)) w table columns
        num_columns error_message rest

  unfoldable pub lancedb_table_create_vector_index :
      X.World → Ptr → Ptr → ℕ → LanceDbIndexType → Ptr → Ptr → Op X
  lancedb_table_create_vector_index w table columns num_columns index_type config error_message =
      with_columns w table columns num_columns error_message λ tbl column_names. do
        cfg ← vector_config config
        create_with_index w tbl column_names (vector_index X index_type cfg) cfg.replace
            error_message

  unfoldable pub lancedb_table_create_scalar_index :
      X.World → Ptr → Ptr → ℕ → LanceDbIndexType → Ptr → Ptr → Op X
  lancedb_table_create_scalar_index w table columns num_columns index_type config error_message =
      with_columns w table columns num_columns error_message λ tbl column_names. do
        cfg ← scalar_config config
        create_with_index w tbl column_names (scalar_index X index_type) cfg.replace error_message

  unfoldable pub lancedb_table_create_fts_index : X.World → Ptr → Ptr → ℕ → Ptr → Ptr → Op X
  lancedb_table_create_fts_index w table columns num_columns config error_message =
      with_columns w table columns num_columns error_message λ tbl column_names. do
        cfg ← fts_config config
        tokenizer ← usable_str cfg.base_tokenizer
        language ← usable_str cfg.language
        create_with_index w tbl column_names
            (Option.map (flagged X cfg)
              (in_language X language (tokenized X tokenizer X.fts_default)))
            cfg.replace error_message
