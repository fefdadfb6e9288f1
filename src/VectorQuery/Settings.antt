-- ===== src/VectorQuery/Settings.antt =====
-- A client of src/query.rs that tunes a vector query and executes it: the last value of each kind counts.
pub mod Laws
use lancedb_c.Prelude.{
  ℕ, ◌≡◌, refl, Bool, true, false, Option, none, some, List, [], ◌∷◌, ◌==◌, arith, ◌∙◌, ap, or_else,
  length, replicate,
}
use lancedb_c.External.{External, DistanceType, Result, Error}
use lancedb_c.Memory.{
  LanceDbDistanceType, Ptr, null, addr, Cell, vector_query, VectorQuery, stream, Heap, ok, Cmd,
  pure, ◌>>=◌, ◌>>◌, write, push, alloc,
}
use lancedb_c.Memory.Laws.{IsWf, load_vector_query-ok, take_vector_query-ok, store-ok}
use lancedb_c.Memory.Returns
use lancedb_c.Memory.Returns.{Returns}
use lancedb_c.Error.{LanceDbError, success}
use lancedb_c.Query.{stream_result}
use mathlib.Core.Option
use lancedb_c.Query.Settings.{last_of, changed}
use lancedb_c.VectorQuery.{
  distance_type_of, lancedb_vector_query_limit, lancedb_vector_query_offset,
  lancedb_vector_query_distance_type, lancedb_vector_query_nprobes,
  lancedb_vector_query_refine_factor, lancedb_vector_query_ef, lancedb_vector_query_execute,
  run_vector_query,
}

pub data Tuning : Type 0 where
  limit offset nprobes refine_factor ef : ℕ → Tuning
  distance_type : LanceDbDistanceType → Tuning

module _ {X : External} where
  unfoldable pub call : Ptr → Tuning → Cmd X LanceDbError
  call q (limit n) = lancedb_vector_query_limit q n null
  call q (offset n) = lancedb_vector_query_offset q n null
  call q (nprobes n) = lancedb_vector_query_nprobes q n null
  call q (refine_factor n) = lancedb_vector_query_refine_factor q n null
  call q (ef n) = lancedb_vector_query_ef q n null
  call q (distance_type d) = lancedb_vector_query_distance_type q d null

  unfoldable pub call_all : Ptr → List Tuning → Cmd X (List LanceDbError)
  call_all q [] = pure []
  call_all q (c ∷ cs) = do code ← call q c; codes ← call_all q cs; pure (code ∷ codes)

  unfoldable pub tune_and_execute : X.World → Ptr → List Tuning → Cmd X Ptr
  tune_and_execute w q cs = do call_all q cs; lancedb_vector_query_execute w q

abbrev pub limit_of : Tuning → Option ℕ
limit_of (limit n) = some n
limit_of _ = none

abbrev pub offset_of : Tuning → Option ℕ
offset_of (offset n) = some n
offset_of _ = none

abbrev pub nprobes_of : Tuning → Option ℕ
nprobes_of (nprobes n) = some n
nprobes_of _ = none

abbrev pub refine_factor_of : Tuning → Option ℕ
refine_factor_of (refine_factor n) = some n
refine_factor_of _ = none

abbrev pub ef_of : Tuning → Option ℕ
ef_of (ef n) = some n
ef_of _ = none

abbrev pub metric_of : Tuning → Option DistanceType
metric_of (distance_type LanceDbDistanceType.l2) = some DistanceType.l2
metric_of (distance_type LanceDbDistanceType.cosine) = some DistanceType.cosine
metric_of (distance_type LanceDbDistanceType.dot) = some DistanceType.dot
metric_of (distance_type LanceDbDistanceType.hamming) = some DistanceType.hamming
metric_of _ = none

-- the handle with the last value of each kind, and what it had before where there is none
unfoldable pub tuned : {X : External} → List Tuning → VectorQuery X → VectorQuery X
tuned cs q = record q {
  limit = or_else (last_of limit_of cs) q.limit;
  offset = or_else (last_of offset_of cs) q.offset;
  nprobes = or_else (last_of nprobes_of cs) q.nprobes;
  refine_factor = or_else (last_of refine_factor_of cs) q.refine_factor;
  ef = or_else (last_of ef_of cs) q.ef;
  distance_type = or_else (last_of metric_of cs) q.distance_type;
}

module _ {X : External} where
  -- The query that lancedb is to execute after some settings on a handle, with its changes in the order they are made in.
  abbrev pub intended : List Tuning → VectorQuery X → X.VectorQuery → X.VectorQuery
  intended cs q b =
      let latest : (Tuning → Option ℕ)
          → Option ℕ
          → (X.VectorQuery → ℕ → X.VectorQuery)
          → X.VectorQuery
          → X.VectorQuery =
        λ f before set. changed (Option.map (λ n b. set b n) (or_else (last_of f cs) before)) in
      let column = changed (Option.map (λ s b. X.vector_column b s) q.column) b in
      let bound = latest limit_of q.limit X.vector_limit column in
      let skipped = latest offset_of q.offset X.vector_offset bound in
      let selected =
        changed (Option.map (λ columns b. X.vector_select b columns) q.select) skipped in
      let filter =
        or_else (Option.map (λ e b. X.vector_df_filter b e) q.df_filter)
          (Option.map (λ s b. X.vector_only_if b s) q.filter) in
      let measured =
        changed
          (Option.map (λ d b. X.vector_distance_type b d)
            (or_else (last_of metric_of cs) q.distance_type))
          (changed filter selected) in
      let probed = latest nprobes_of q.nprobes X.vector_nprobes measured in
      let refined = latest refine_factor_of q.refine_factor X.vector_refine_factor probed in
      latest ef_of q.ef X.vector_ef refined

  -- What lancedb answers to it, or why it refuses the vector.
  abbrev pub answer : X.World → List Tuning → VectorQuery X → Result X.Stream Error
  answer w cs q = elim (X.nearest_to (X.query q.table) q.query_vector) [
    | Result.err e ↦ Result.err e
    | Result.ok b ↦ X.execute_vector_query w (intended cs q b)
  ]
