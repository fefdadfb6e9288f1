-- ===== src/Index/Settings.antt =====
-- The vector indices of lancedb_table_create_vector_index against a table of settings.
use lancedb_c.Prelude.{
  ℕ, zero, suc, ℤ, pos, negsuc, ◌≡◌, refl, Bool, true, false, Option, none, some, List, [], ◌∷◌,
  ◌++◌, if◌then◌else◌, Bool-cases, inl, inr, ap, sym, ◌∙◌,
}
use mathlib.Core.Option
use lancedb_c.External.{External, IvfKind, DistanceType}
use lancedb_c.Memory.{LanceDbVectorIndexConfig, LanceDbDistanceType}
use lancedb_c.VectorQuery.{distance_type_of}
use lancedb_c.Index.{
  LanceDbIndexType, if_positive, sampled, trained, partitioned, quantized, vector_index,
}

-- A setting of a vector index.
pub data Setting : Type 0 where
  partitions sub_vectors iterations samples : ℕ → Setting
  metric : DistanceType → Setting

abbrev pub apply : (X : External) → (kind : IvfKind) → X.Ivf kind → Setting → X.Ivf kind
apply X kind b (partitions n) = X.ivf_num_partitions kind b n
apply X kind b (sub_vectors n) = X.ivf_num_sub_vectors kind b n
apply X kind b (iterations n) = X.ivf_max_iterations kind b n
apply X kind b (samples n) = X.ivf_sample_rate kind b n
apply X kind b (metric d) = X.ivf_distance_type kind b d

abbrev pub apply_all : (X : External) → (kind : IvfKind) → List Setting → X.Ivf kind → X.Ivf kind
apply_all X kind [] b = b
apply_all X kind (s ∷ ss) b = apply_all X kind ss (apply X kind b s)

-- A number is a setting if it is positive.
abbrev pub positive : (ℕ → Setting) → ℤ → List Setting
positive setting (pos zero) = []
positive setting (pos (suc n)) = setting (suc n) ∷ []
positive setting (negsuc n) = []

abbrev pub has_quantizer : IvfKind → Bool
has_quantizer IvfKind.pq = true
has_quantizer IvfKind.hnsw_pq = true
has_quantizer _ = false

-- The distance of lancedb for one of the interface.
abbrev pub metric_for : LanceDbDistanceType → DistanceType
metric_for LanceDbDistanceType.l2 = DistanceType.l2
metric_for LanceDbDistanceType.cosine = DistanceType.cosine
metric_for LanceDbDistanceType.dot = DistanceType.dot
metric_for LanceDbDistanceType.hamming = DistanceType.hamming

distance_type_of-metric_for : (d : LanceDbDistanceType) → distance_type_of d ≡ metric_for d
unfolding distance_type_of
distance_type_of-metric_for LanceDbDistanceType.l2 = refl
distance_type_of-metric_for LanceDbDistanceType.cosine = refl
distance_type_of-metric_for LanceDbDistanceType.dot = refl
distance_type_of-metric_for LanceDbDistanceType.hamming = refl

-- The settings of the training and the distance, which all kinds have.
abbrev pub training : (X : External) → LanceDbVectorIndexConfig X → List Setting
training X cfg =
    positive iterations cfg.max_iterations
    ++ ((if X.f32_positive cfg.sample_rate then samples (X.f32_as_u32 cfg.sample_rate) ∷ [] else [])
        ++ (metric (metric_for cfg.distance_type) ∷ []))

-- The settings of a configuration for a kind of index: sub-vectors only for those with a product quantizer, and the distance always.
abbrev pub settings : (X : External) → IvfKind → LanceDbVectorIndexConfig X → List Setting
settings X kind cfg =
    positive partitions cfg.num_partitions
    ++ ((if has_quantizer kind then positive sub_vectors cfg.num_sub_vectors else [])
        ++ training X cfg)

abbrev pub kind_of : LanceDbIndexType → Option IvfKind
kind_of LanceDbIndexType.ivf_flat = some IvfKind.flat
kind_of LanceDbIndexType.ivf_pq = some IvfKind.pq
kind_of LanceDbIndexType.ivf_hnsw_pq = some IvfKind.hnsw_pq
kind_of LanceDbIndexType.ivf_hnsw_sq = some IvfKind.hnsw_sq
kind_of _ = none

abbrev pub configured : (X : External) → (kind : IvfKind) → LanceDbVectorIndexConfig X → X.Index
configured X kind cfg =
    X.ivf_index kind (apply_all X kind (settings X kind cfg) (X.ivf_default kind))

-- The vector index of a type: by its settings, automatic, or none.
abbrev pub vector_index_of :
    (X : External) → LanceDbIndexType → LanceDbVectorIndexConfig X → Option X.Index
vector_index_of X LanceDbIndexType.auto cfg = some X.auto_index
vector_index_of X t cfg = Option.map (λ kind. configured X kind cfg) (kind_of t)

module _ (X : External) (kind : IvfKind) where
  apply_all-append :
      (ss ts : List Setting) (b : X.Ivf kind)
      → apply_all X kind (ss ++ ts) b ≡ apply_all X kind ts (apply_all X kind ss b)
  apply_all-append [] ts b = refl
  apply_all-append (s ∷ ss) ts b = apply_all-append ss ts (apply X kind b s)

  if_positive-partitions :
      (n : ℤ) (b : X.Ivf kind)
      → if_positive (X.ivf_num_partitions kind) n b ≡ apply_all X kind (positive partitions n) b
  unfolding if_positive
  if_positive-partitions (pos zero) b = refl
  if_positive-partitions (pos (suc n)) b = refl
  if_positive-partitions (negsuc n) b = refl

  if_positive-sub_vectors :
      (n : ℤ) (b : X.Ivf kind)
      → if_positive (X.ivf_num_sub_vectors kind) n b ≡ apply_all X kind (positive sub_vectors n) b
  unfolding if_positive
  if_positive-sub_vectors (pos zero) b = refl
  if_positive-sub_vectors (pos (suc n)) b = refl
  if_positive-sub_vectors (negsuc n) b = refl

  if_positive-iterations :
      (n : ℤ) (b : X.Ivf kind)
      → if_positive (X.ivf_max_iterations kind) n b ≡ apply_all X kind (positive iterations n) b
  unfolding if_positive
  if_positive-iterations (pos zero) b = refl
  if_positive-iterations (pos (suc n)) b = refl
  if_positive-iterations (negsuc n) b = refl

  sampled-samples :
      (rate : X.F32) (b : X.Ivf kind)
      → sampled X kind rate b
        ≡ apply_all X kind (if X.f32_positive rate then samples (X.f32_as_u32 rate) ∷ [] else []) b
  unfolding sampled
  sampled-samples rate b = elim (Bool-cases (X.f32_positive rate)) [
    | inl yes_it_is ↦ rw yes_it_is refl
    | inr not_so ↦ rw not_so refl
  ]

  trained-settings :
      (cfg : LanceDbVectorIndexConfig X) (b : X.Ivf kind)
      → trained X kind cfg b ≡ X.ivf_index kind (apply_all X kind (training X cfg) b)
  unfolding trained sampled distance_type_of
  trained-settings cfg b =
      let iterated = positive iterations cfg.max_iterations in
      let sampling =
        if X.f32_positive cfg.sample_rate
        then samples (X.f32_as_u32 cfg.sample_rate) ∷ []
        else [] in
      let last = metric (metric_for cfg.distance_type) ∷ [] in
      rw (distance_type_of-metric_for cfg.distance_type) (
        ap (λ c. X.ivf_index kind (X.ivf_distance_type kind c (metric_for cfg.distance_type)))
          (ap (sampled X kind cfg.sample_rate) (if_positive-iterations cfg.max_iterations b)
            ∙ sampled-samples cfg.sample_rate (apply_all X kind iterated b))
        ∙ ap (X.ivf_index kind) (
            sym (apply_all-append sampling last (apply_all X kind iterated b))
            ∙ sym (apply_all-append iterated (sampling ++ last) b)))

module _ (X : External) (kind : IvfKind) (cfg : LanceDbVectorIndexConfig X) where
  partitioned-settings :
      partitioned X kind cfg
      ≡ apply_all X kind (positive partitions cfg.num_partitions) (X.ivf_default kind)
  unfolding partitioned
  partitioned-settings = if_positive-partitions X kind cfg.num_partitions (X.ivf_default kind)

  quantized-settings :
      quantized X kind cfg
      ≡ apply_all X kind
          (positive sub_vectors cfg.num_sub_vectors)
          (apply_all X kind (positive partitions cfg.num_partitions) (X.ivf_default kind))
  unfolding quantized
  quantized-settings =
      if_positive-sub_vectors X kind cfg.num_sub_vectors (partitioned X kind cfg)
      ∙ ap (apply_all X kind (positive sub_vectors cfg.num_sub_vectors)) partitioned-settings

  plain :
      settings X kind cfg ≡ positive partitions cfg.num_partitions ++ training X cfg
      → trained X kind cfg (partitioned X kind cfg) ≡ configured X kind cfg
  plain all =
      trained-settings X kind cfg (partitioned X kind cfg)
      ∙ ap (λ b. X.ivf_index kind (apply_all X kind (training X cfg) b)) partitioned-settings
      ∙ ap (X.ivf_index kind) (
          sym (
            apply_all-append X kind (positive partitions cfg.num_partitions) (training X cfg)
              (X.ivf_default kind))
          ∙ ap (λ ss. apply_all X kind ss (X.ivf_default kind)) (sym all))

  product :
      settings X kind cfg
        ≡ positive partitions cfg.num_partitions
          ++ (positive sub_vectors cfg.num_sub_vectors ++ training X cfg)
      → trained X kind cfg (quantized X kind cfg) ≡ configured X kind cfg
  product all =
      let parts = positive partitions cfg.num_partitions in
      let subs = positive sub_vectors cfg.num_sub_vectors in
      trained-settings X kind cfg (quantized X kind cfg)
      ∙ ap (λ b. X.ivf_index kind (apply_all X kind (training X cfg) b)) quantized-settings
      ∙ ap (X.ivf_index kind) (
          sym (
            apply_all-append X kind subs (training X cfg)
              (apply_all X kind parts (X.ivf_default kind)))
          ∙ sym (apply_all-append X kind parts (subs ++ training X cfg) (X.ivf_default kind))
          ∙ ap (λ ss. apply_all X kind ss (X.ivf_default kind)) (sym all))

-- The four arms of the function and the automatic one agree with the one table of settings.
pub vector_index-settings :
    (X : External) (t : LanceDbIndexType) (cfg : LanceDbVectorIndexConfig X)
    → vector_index X t cfg ≡ vector_index_of X t cfg
unfolding vector_index
vector_index-settings X LanceDbIndexType.auto cfg = refl
vector_index-settings X LanceDbIndexType.btree cfg = refl
vector_index-settings X LanceDbIndexType.bitmap cfg = refl
vector_index-settings X LanceDbIndexType.label_list cfg = refl
vector_index-settings X LanceDbIndexType.fts cfg = refl
vector_index-settings X LanceDbIndexType.ivf_flat cfg = ap some (plain X IvfKind.flat cfg refl)
vector_index-settings X LanceDbIndexType.ivf_pq cfg = ap some (product X IvfKind.pq cfg refl)
vector_index-settings X LanceDbIndexType.ivf_hnsw_pq cfg =
    ap some (product X IvfKind.hnsw_pq cfg refl)
vector_index-settings X LanceDbIndexType.ivf_hnsw_sq cfg =
    ap some (plain X IvfKind.hnsw_sq cfg refl)
