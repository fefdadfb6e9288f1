-- ===== src/Index/Requests.antt =====
-- The three functions that make an index against the requests that their arguments describe.
use lancedb_c.Prelude.{
  suc-ne-zero, ℕ, suc, ℤ, pos, negsuc, Bool, ◌≡◌, refl, false, Option, none, some, List, [], ◌∷◌,
  length, if◌then◌else◌, Bool-cases, inl, inr, ap, sym, ◌∙◌,
}
use mathlib.Core.Option
use lancedb_c.Text.{Bytes, is_utf8}
use lancedb_c.External.{External}
use lancedb_c.Memory.{
  LanceDbDistanceType, Ptr, null, addr, table, pointers, vector_index_config, scalar_index_config,
  fts_index_config, LanceDbVectorIndexConfig, LanceDbScalarIndexConfig, LanceDbFtsIndexConfig, Heap,
  ok,
}
use lancedb_c.Memory.Laws.{
  load_table-ok, load_vector_index_config-ok, load_scalar_index_config-ok, load_fts_index_config-ok,
  load_str-some, load_str-none,
}
use lancedb_c.Memory.Arrays.{Elements}
use lancedb_c.Columns.Laws.{Strings, all_valid, prefixed, read_columns_lem}
use lancedb_c.Error.{LanceDbError, invalid_argument, set_invalid_argument_message}
use lancedb_c.Database.{Op}
use lancedb_c.Database.Requests.{outcome}
use lancedb_c.Database.Requests.Laws.{settle-outcome}
use lancedb_c.Connect.Client.{valid}
use lancedb_c.Merge.{non_zero}
use lancedb_c.Merge.Laws.{is_set, non_zero-is_set}
use lancedb_c.Index.{
  LanceDbIndexType, default_vector_config, default_scalar_config, default_fts_config, vector_index,
  scalar_index, token_length, flagged, tokenized, in_language, vector_config, scalar_config,
  fts_config, usable_str, create_with_index, named_columns, columns_unless, with_columns,
  lancedb_table_create_vector_index, lancedb_table_create_scalar_index,
  lancedb_table_create_fts_index,
}
use lancedb_c.Index.Settings.{vector_index_of, vector_index-settings}

-- The names of the columns: there must be one at least, and all in UTF-8.
abbrev pub names_of : List (Option Bytes) → Option (List Bytes)
names_of [] = none
names_of (o ∷ os) = all_valid (o ∷ os)

-- The one call of lancedb that a request is, or its refusal. An index in place is kept only if the setting says so.
abbrev pub requested :
    (X : External)
    → X.World
    → X.Table
    → Option (List Bytes)
    → Option X.Index
    → ℤ
    → LanceDbError × X.World
requested X w tbl none index replace = (invalid_argument, w)
requested X w tbl (some names) none replace = (invalid_argument, w)
requested X w tbl (some names) (some index) replace = outcome (
    X.execute_index w (
      if is_set replace
      then X.create_index tbl names index
      else X.index_replace (X.create_index tbl names index) false))

-- The settings that a pointer stands for: the defaults for null.
abbrev pub VectorConfigured : {X : External} → Heap X → Ptr → LanceDbVectorIndexConfig X → Type 0
VectorConfigured {X} h null cfg = cfg ≡ (record {
  num_partitions = negsuc 0;
  num_sub_vectors = negsuc 0;
  max_iterations = negsuc 0;
  sample_rate = X.f32_zero;
  distance_type = LanceDbDistanceType.l2;
  replace = pos 1;
})
VectorConfigured h (addr a) cfg = h.mem a ≡ some (vector_index_config cfg)

abbrev pub ScalarConfigured : {X : External} → Heap X → Ptr → LanceDbScalarIndexConfig → Type 0
ScalarConfigured h null cfg = cfg ≡ (record { replace = pos 1 })
ScalarConfigured h (addr a) cfg = h.mem a ≡ some (scalar_index_config cfg)

abbrev pub FtsConfigured : {X : External} → Heap X → Ptr → LanceDbFtsIndexConfig → Type 0
FtsConfigured h null cfg = cfg ≡ (record {
  base_tokenizer = null;
  language = null;
  max_token_length = negsuc 0;
  lowercase = pos 1;
  stem = pos 0;
  remove_stop_words = pos 0;
  ascii_folding = pos 0;
  replace = pos 1;
})
FtsConfigured h (addr a) cfg = h.mem a ≡ some (fts_index_config cfg)

-- The scalar index of a type.
abbrev pub scalar_index_of : (X : External) → LanceDbIndexType → Option X.Index
scalar_index_of X t = elim t [
  | LanceDbIndexType.btree ↦ some X.btree_index
  | LanceDbIndexType.bitmap ↦ some X.bitmap_index
  | LanceDbIndexType.label_list ↦ some X.label_list_index
  | LanceDbIndexType.auto ↦ none
  | LanceDbIndexType.fts ↦ none
  | LanceDbIndexType.ivf_flat ↦ none
  | LanceDbIndexType.ivf_pq ↦ none
  | LanceDbIndexType.ivf_hnsw_pq ↦ none
  | LanceDbIndexType.ivf_hnsw_sq ↦ none
]

scalar_index-of : (X : External) (t : LanceDbIndexType) → scalar_index X t ≡ scalar_index_of X t
unfolding scalar_index
scalar_index-of X LanceDbIndexType.btree = refl
scalar_index-of X LanceDbIndexType.bitmap = refl
scalar_index-of X LanceDbIndexType.label_list = refl
scalar_index-of X LanceDbIndexType.auto = refl
scalar_index-of X LanceDbIndexType.fts = refl
scalar_index-of X LanceDbIndexType.ivf_flat = refl
scalar_index-of X LanceDbIndexType.ivf_pq = refl
scalar_index-of X LanceDbIndexType.ivf_hnsw_pq = refl
scalar_index-of X LanceDbIndexType.ivf_hnsw_sq = refl

-- A setting of a full text index.
pub data FtsSetting : Type 0 where
  max_token_length : Option ℕ → FtsSetting
  lower_case stem remove_stop_words ascii_folding : Bool → FtsSetting

abbrev pub fts_apply : (X : External) → X.Fts → FtsSetting → X.Fts
fts_apply X b (max_token_length n) = X.fts_max_token_length b n
fts_apply X b (lower_case on) = X.fts_lower_case b on
fts_apply X b (stem on) = X.fts_stem b on
fts_apply X b (remove_stop_words on) = X.fts_remove_stop_words b on
fts_apply X b (ascii_folding on) = X.fts_ascii_folding b on

abbrev pub fts_apply_all : (X : External) → List FtsSetting → X.Fts → X.Fts
fts_apply_all X [] b = b
fts_apply_all X (s ∷ ss) b = fts_apply_all X ss (fts_apply X b s)

-- The longest token, if there is a bound: there is none for a negative number.
abbrev pub bound_of : ℤ → Option ℕ
bound_of (negsuc n) = none
bound_of (pos n) = some n

-- The settings that a configuration always makes.
abbrev pub fts_settings : LanceDbFtsIndexConfig → List FtsSetting
fts_settings cfg =
    max_token_length (bound_of cfg.max_token_length)
    ∷ lower_case (is_set cfg.lowercase)
    ∷ stem (is_set cfg.stem)
    ∷ remove_stop_words (is_set cfg.remove_stop_words)
    ∷ ascii_folding (is_set cfg.ascii_folding)
    ∷ []

-- The tokenizer is one in UTF-8, or that of lancedb.
abbrev pub split : (X : External) → Option Bytes → X.Fts → X.Fts
split X none b = b
split X (some s) b = if is_utf8 s then X.fts_base_tokenizer b s else b

-- So is the language, which lancedb may not know.
abbrev pub spoken : (X : External) → Option Bytes → X.Fts → Option X.Fts
spoken X none b = some b
spoken X (some s) b = if is_utf8 s then X.fts_language b s else some b

token_length-bound_of : (n : ℤ) → token_length n ≡ bound_of n
unfolding token_length
token_length-bound_of (pos n) = refl
token_length-bound_of (negsuc n) = refl

flagged-settings :
    (X : External) (cfg : LanceDbFtsIndexConfig)
    → flagged X cfg ≡ (λ b. X.fts_index (fts_apply_all X (fts_settings cfg) b))
unfolding flagged token_length non_zero
flagged-settings X cfg =
    rw
      (
        token_length-bound_of cfg.max_token_length,
        non_zero-is_set cfg.lowercase,
        non_zero-is_set cfg.stem,
        non_zero-is_set cfg.remove_stop_words,
        non_zero-is_set cfg.ascii_folding,
      )
      refl

tokenized-split :
    (X : External) (o : Option Bytes) (b : X.Fts) → tokenized X (valid o) b ≡ split X o b
unfolding tokenized
tokenized-split X none b = refl
tokenized-split X (some s) b = elim (Bool-cases (is_utf8 s)) [
  | inl good ↦ rw good refl
  | inr broken ↦ rw broken refl
]

in_language-spoken :
    (X : External) (o : Option Bytes) (b : X.Fts) → in_language X (valid o) b ≡ spoken X o b
unfolding in_language
in_language-spoken X none b = refl
in_language-spoken X (some s) b = elim (Bool-cases (is_utf8 s)) [
  | inl good ↦ rw good refl
  | inr broken ↦ rw broken refl
]

-- The full text index of a configuration whose tokenizer and language are these, unless the language is unknown.
-- The tokenizer is set before the language, and the settings follow in the order of the table.
abbrev pub fts_index_of :
    (X : External) → LanceDbFtsIndexConfig → Option Bytes → Option Bytes → Option X.Index
fts_index_of X cfg tokenizer language =
    Option.map (λ b. X.fts_index (fts_apply_all X (fts_settings cfg) b))
      (spoken X language (split X tokenizer X.fts_default))

fts_index-settings :
    (X : External) (cfg : LanceDbFtsIndexConfig) (tokenizer language : Option Bytes)
    → Option.map
        (flagged X cfg)
        (in_language X (valid language) (tokenized X (valid tokenizer) X.fts_default))
      ≡ fts_index_of X cfg tokenizer language
fts_index-settings X cfg tokenizer language = rw (flagged-settings X cfg) (
    ap (Option.map (λ b. X.fts_index (fts_apply_all X (fts_settings cfg) b))) (
      in_language-spoken X language _
      ∙ ap (spoken X language) (tokenized-split X tokenizer X.fts_default)))

module _ {X : External} (h : Heap X) (w : X.World) where
  create_with_index-requested :
      (tbl : X.Table) (names : List Bytes) (index : Option X.Index) (replace : ℤ)
      → create_with_index w tbl names index replace null h
        ≡ ok (requested X w tbl (some names) index replace) h
  unfolding create_with_index set_invalid_argument_message
  create_with_index-requested tbl names none replace = refl
  create_with_index-requested tbl names (some index) replace = rw (non_zero-is_set replace) (
      settle-outcome h w (
        X.execute_index w (
          if is_set replace
          then X.create_index tbl names index
          else X.index_replace (X.create_index tbl names index) false)))

  usable_str-valid :
      (p : Ptr) (o : Option Bytes) → Strings h (p ∷ []) (o ∷ []) → usable_str p h ≡ ok (valid o) h
  unfolding usable_str
  usable_str-valid null none strings = refl
  usable_str-valid null (some s) (e, end) = absurd (cc)
  usable_str-valid (addr a) none strings = absurd strings
  usable_str-valid (addr a) (some s) (live, end) = elim (Bool-cases (is_utf8 s)) [
    | inl good ↦ rw (load_str-some h a s live good, good) refl
    | inr broken ↦ rw (load_str-none h a s live broken, broken) refl
  ]

  vector_config-ok :
      (c : Ptr) (cfg : LanceDbVectorIndexConfig X)
      → VectorConfigured h c cfg
      → vector_config c h ≡ ok cfg h
  unfolding vector_config default_vector_config
  vector_config-ok null cfg there = ap (λ x. ok x h) (sym there)
  vector_config-ok (addr a) cfg there = load_vector_index_config-ok h a cfg there

  scalar_config-ok :
      (c : Ptr) (cfg : LanceDbScalarIndexConfig)
      → ScalarConfigured h c cfg
      → scalar_config c h ≡ ok cfg h
  unfolding scalar_config default_scalar_config
  scalar_config-ok null cfg there = ap (λ x. ok x h) (sym there)
  scalar_config-ok (addr a) cfg there = load_scalar_index_config-ok h a cfg there

  fts_config-ok :
      (c : Ptr) (cfg : LanceDbFtsIndexConfig) → FtsConfigured h c cfg → fts_config c h ≡ ok cfg h
  unfolding fts_config default_fts_config
  fts_config-ok null cfg there = ap (λ x. ok x h) (sym there)
  fts_config-ok (addr a) cfg there = load_fts_index_config-ok h a cfg there

  module _ (t l : ℕ) (tbl : X.Table) (cells : List (Option Ptr))
      (opened : h.mem t ≡ some (table tbl)) (array : h.mem l ≡ some (pointers cells)) where
    named_columns-requested :
        (names : Option (List Bytes)) (rest : X.Table → List Bytes → Op X) (index : Option X.Index)
        (replace : ℤ)
        → ((ns : List Bytes) → rest tbl ns h ≡ ok (requested X w tbl (some ns) index replace) h)
        → named_columns w (prefixed [] names) (addr t) null rest h
          ≡ ok (requested X w tbl names index replace) h
    unfolding named_columns set_invalid_argument_message
    named_columns-requested none rest index replace right = refl
    named_columns-requested (some ns) rest index replace right =
        rw (load_table-ok h t tbl opened) (right ns)

    columns_unless-requested :
        (ps : List Ptr) (os : List (Option Bytes)) (rest : X.Table → List Bytes → Op X)
        (index : Option X.Index) (replace : ℤ)
        → Elements cells 0 ps
        → Strings h ps os
        → ((ns : List Bytes) → rest tbl ns h ≡ ok (requested X w tbl (some ns) index replace) h)
        → columns_unless false w (addr t) (addr l) (length ps) null rest h
          ≡ ok (requested X w tbl (all_valid os) index replace) h
    unfolding columns_unless
    columns_unless-requested ps os rest index replace at strings right =
        rw (read_columns_lem h l 0 cells ps os [] array at strings)
          (named_columns-requested (all_valid os) rest index replace right)

    with_columns-requested :
        (ps : List Ptr) (os : List (Option Bytes)) (rest : X.Table → List Bytes → Op X)
        (index : Option X.Index) (replace : ℤ)
        → Elements cells 0 ps
        → Strings h ps os
        → ((ns : List Bytes) → rest tbl ns h ≡ ok (requested X w tbl (some ns) index replace) h)
        → with_columns w (addr t) (addr l) (length ps) null rest h
          ≡ ok (requested X w tbl (names_of os) index replace) h
    unfolding with_columns columns_unless set_invalid_argument_message
    with_columns-requested [] [] rest index replace at strings right = refl
    with_columns-requested [] (o ∷ os) rest index replace at strings right = absurd strings
    with_columns-requested (p ∷ ps) [] rest index replace at strings right = absurd strings
    with_columns-requested (p ∷ ps) (o ∷ os) rest index replace at strings right =
        ap (λ b. columns_unless b w (addr t) (addr l) (suc (length ps)) null rest h)
          (suc-ne-zero (length ps))
        ∙ columns_unless-requested (p ∷ ps) (o ∷ os) rest index replace at strings right

    module _ (c : Ptr) (ps : List Ptr) (os : List (Option Bytes)) (at : Elements cells 0 ps)
        (strings : Strings h ps os) where
      -- With no place for a message, a vector index is made of a table's columns by one call of lancedb: with the settings of the table of settings for the type and the
      -- configuration, or the default one for null. Missing or broken column names, no names, and types of other indices are invalid arguments. Memory stays as it is.
      pub lancedb_table_create_vector_index-requested :
          (index_type : LanceDbIndexType) (cfg : LanceDbVectorIndexConfig X)
          → VectorConfigured h c cfg
          → lancedb_table_create_vector_index w (addr t) (addr l) (length ps) index_type c null h
            ≡ ok (requested X w tbl (names_of os) (vector_index_of X index_type cfg) cfg.replace) h
      unfolding lancedb_table_create_vector_index
      lancedb_table_create_vector_index-requested index_type cfg there =
          with_columns-requested ps os _ (vector_index_of X index_type cfg) cfg.replace at strings
            λ ns. rw (vector_config-ok c cfg there) (
              create_with_index-requested tbl ns (vector_index X index_type cfg) cfg.replace
              ∙ ap (λ index. ok (requested X w tbl (some ns) index cfg.replace) h)
                  (vector_index-settings X index_type cfg))

      -- A scalar index is made in the same way, with no place for a message: a tree, a bitmap or a list of labels, and an invalid argument for other types. Memory stays as it is.
      pub lancedb_table_create_scalar_index-requested :
          (index_type : LanceDbIndexType) (cfg : LanceDbScalarIndexConfig)
          → ScalarConfigured h c cfg
          → lancedb_table_create_scalar_index w (addr t) (addr l) (length ps) index_type c null h
            ≡ ok (requested X w tbl (names_of os) (scalar_index_of X index_type) cfg.replace) h
      unfolding lancedb_table_create_scalar_index
      lancedb_table_create_scalar_index-requested index_type cfg there =
          with_columns-requested ps os _ (scalar_index_of X index_type) cfg.replace at strings λ ns.
            rw (scalar_config-ok c cfg there, scalar_index-of X index_type)
              (create_with_index-requested tbl ns (scalar_index_of X index_type) cfg.replace)

      -- A full text index is made in the same way, with no place for a message. A tokenizer or a language that is not UTF-8 is passed over, and a language that lancedb does
      -- not know is an invalid argument.
      pub lancedb_table_create_fts_index-requested :
          (cfg : LanceDbFtsIndexConfig) (tokenizer language : Option Bytes)
          → FtsConfigured h c cfg
          → Strings h (cfg.base_tokenizer ∷ []) (tokenizer ∷ [])
          → Strings h (cfg.language ∷ []) (language ∷ [])
          → lancedb_table_create_fts_index w (addr t) (addr l) (length ps) c null h
            ≡ ok
                (requested X w tbl
                  (names_of os)
                  (fts_index_of X cfg tokenizer language)
                  cfg.replace)
                h
      unfolding lancedb_table_create_fts_index
      lancedb_table_create_fts_index-requested cfg tokenizer language there token tongue =
          with_columns-requested ps os _ (fts_index_of X cfg tokenizer language) cfg.replace at
            strings
            λ ns.
              rw
                (
                  fts_config-ok c cfg there,
                  usable_str-valid cfg.base_tokenizer tokenizer token,
                  usable_str-valid cfg.language language tongue,
                  fts_index-settings X cfg tokenizer language,
                )
                (create_with_index-requested tbl ns (fts_index_of X cfg tokenizer language)
                  cfg.replace)
