-- ===== src/Memory.antt =====
-- The memory that the C functions share with their caller: one cell for each allocation, by its
-- address, and commands that may stop in a fault, the model of undefined behaviour. `Box::into_raw`
-- and `CString::into_raw` are `alloc`, `Box::from_raw` and `CString::from_raw` are the `take`s,
-- `libc::malloc` may return null, and addresses are not used again.
pub mod Arrays
pub mod Laws
pub mod Returns
pub mod Texts
use lancedb_c.Prelude.{
  ℕ, ℤ, suc, Bool, true, false, Option, none, some, List, [], ◌∷◌, ◌==◌, if◌then◌else◌, get_elem?,
  set,
}
use lancedb_c.Text.{Bytes, to_str}
use lancedb_c.External.{External, DistanceType}

-- A C pointer. Allocations have addresses, and null is none of them.
pub data Ptr : Type 0 where
  null : Ptr
  addr : ℕ → Ptr

abbrev pub is_null : Ptr → Bool
is_null null = true
is_null (addr a) = false

-- `LanceDBQuery`
pub record Query (X : External) : Type 0 where
  pub table : X.Table
  pub limit : Option ℕ
  pub offset : Option ℕ
  pub select : Option X.Select
  pub filter : Option Bytes
  pub df_filter : Option X.Expr

-- `LanceDBVectorQuery`
pub record VectorQuery (X : External) : Type 0 where
  pub table : X.Table
  pub query_vector : List X.F32
  pub column : Option Bytes
  pub limit : Option ℕ
  pub offset : Option ℕ
  pub select : Option X.Select
  pub filter : Option Bytes
  pub df_filter : Option X.Expr
  pub distance_type : Option DistanceType
  pub nprobes : Option ℕ
  pub refine_factor : Option ℕ
  pub ef : Option ℕ

pub data LanceDbDistanceType : Type 0 where
  l2 cosine dot hamming : LanceDbDistanceType

-- `LanceDBVectorIndexConfig`
pub record LanceDbVectorIndexConfig (X : External) : Type 0 where
  pub num_partitions : ℤ
  pub num_sub_vectors : ℤ
  pub max_iterations : ℤ
  pub sample_rate : X.F32
  pub distance_type : LanceDbDistanceType
  pub replace : ℤ

-- `LanceDBScalarIndexConfig`
pub record LanceDbScalarIndexConfig : Type 0 where
  pub replace : ℤ

-- `LanceDBFtsIndexConfig`
pub record LanceDbFtsIndexConfig : Type 0 where
  pub base_tokenizer : Ptr
  pub language : Ptr
  pub max_token_length : ℤ
  pub lowercase : ℤ
  pub stem : ℤ
  pub remove_stop_words : ℤ
  pub ascii_folding : ℤ
  pub replace : ℤ

-- `SingleBatchReader`, the reader in a `LanceDBRecordBatchReader`
pub record SingleBatchReader (X : External) : Type 0 where
  pub schema : X.ArrowSchema
  pub batch : Option X.Batch
  pub exhausted : Bool

-- `LanceDBMergeInsertConfig`
pub record LanceDbMergeInsertConfig : Type 0 where
  pub when_matched_update_all : ℤ
  pub when_not_matched_insert_all : ℤ
  pub when_matched_update_all_condition : Ptr
  pub when_matched_update_all_expr : Ptr

-- `LanceDBSessionOptions`
pub record LanceDbSessionOptions : Type 0 where
  pub index_cache_bytes : ℕ
  pub metadata_cache_bytes : ℕ

-- What an address holds. The elements of a `malloc`ed array are `none` until they are written.
pub data Cell (X : External) : Type 0 where
  text : Bytes → Cell X
  expr : X.Expr → Cell X
  query : Query X → Cell X
  vector_query : VectorQuery X → Cell X
  stream : X.Stream → Cell X
  table : X.Table → Cell X
  -- a connection, and its `uri_cache`: the cached string
  connection : X.Connection → Option Ptr → Cell X
  table_names_builder : X.TableNamesBuilder → Cell X
  reader : SingleBatchReader X → Cell X
  connect_builder : X.ConnectBuilder → Cell X
  session : X.Session → Cell X
  registry : X.Registry → Cell X
  provider : Option X.Provider → Cell X
  session_options : LanceDbSessionOptions → Cell X
  merge_config : LanceDbMergeInsertConfig → Cell X
  vector_index_config : LanceDbVectorIndexConfig X → Cell X
  scalar_index_config : LanceDbScalarIndexConfig → Cell X
  fts_index_config : LanceDbFtsIndexConfig → Cell X
  array : X.Array → Cell X
  schema : X.Schema → Cell X
  floats : List X.F32 → Cell X
  pointers : List (Option Ptr) → Cell X
  bools : List (Option Bool) → Cell X
  -- a variable of the caller that receives a pointer or a count
  pointer_slot : Ptr → Cell X
  count_slot : ℕ → Cell X

-- `mallocs` decides the calls of `libc::malloc` to come; when it is used up they succeed.
pub record Heap (X : External) : Type 0 where
  pub mem : ℕ → Option (Cell X)
  pub next : ℕ
  pub mallocs : List Bool

pub data Run (X : External) (A : Type 0) : Type 0 where
  ok : A → Heap X → Run X A
  fault : Run X A

abbrev pub Cmd : External → Type 0 → Type 0
Cmd X A = Heap X → Run X A

-- whether the next `libc::malloc` succeeds, and the decisions after it
abbrev pub grants : List Bool → Bool
grants [] = true
grants (b ∷ r) = b

abbrev pub later : List Bool → List Bool
later [] = []
later (b ∷ r) = r

module _ {X : External} where
  unfoldable pub write : Heap X → ℕ → Option (Cell X) → Heap X
  write h a c = record h { mem = λ b. if b == a then c else h.mem b }

  unfoldable pub push : Heap X → Cell X → Heap X
  unfolding write
  push h c = record (write h h.next (some c)) { next = suc h.next }

  -- the heap after `malloc` has taken its decision
  unfoldable pub decided : Heap X → Heap X
  decided h = record h { mallocs = later h.mallocs }

module _ {X : External} {A : Type 0} where
  abbrev pub pure : A → Cmd X A
  pure = ok

  -- a value that must be there
  abbrev pub expect : Option A → Cmd X A
  expect none h = fault
  expect (some a) h = ok a h

module _ {X : External} {A B : Type 0} where
  abbrev pub and_then : Run X A → (A → Cmd X B) → Run X B
  and_then (ok a h) k = k a h
  and_then fault k = fault

  infixl 5 ◌>>=◌ ◌>>◌
  abbrev pub ◌>>=◌ : Cmd X A → (A → Cmd X B) → Cmd X B
  m >>= k = λ h. and_then (m h) k

  abbrev pub ◌>>◌ : Cmd X A → Cmd X B → Cmd X B
  m >> n = m >>= λ _. n

module _ {X : External} where
  -- `Box::into_raw(Box::new(…))`, `CString::into_raw`
  unfoldable pub alloc : Cell X → Cmd X Ptr
  alloc c h = ok (addr h.next) (push h c)

  -- `libc::malloc`
  unfoldable pub malloc : Cell X → Cmd X Ptr
  malloc c h =
      if grants h.mallocs then ok (addr h.next) (push (decided h) c) else ok null (decided h)

  -- a read through a pointer
  unfoldable pub load : Ptr → Cmd X (Cell X)
  load null h = fault
  load (addr a) h = elim (h.mem a) [ none ↦ fault | some c ↦ ok c h ]

  -- a write through a pointer
  unfoldable pub store : Ptr → Cell X → Cmd X (Unit {0})
  store null c h = fault
  store (addr a) c h = elim (h.mem a) [ none ↦ fault | some _ ↦ ok tt (write h a (some c)) ]

  -- an allocation given back
  unfoldable pub release : Ptr → Cmd X (Cell X)
  release null h = fault
  release (addr a) h = elim (h.mem a) [ none ↦ fault | some c ↦ ok c (write h a none) ]

  abbrev pub as_text : Cell X → Option Bytes
  as_text (text s) = some s
  as_text _ = none

  abbrev pub as_expr : Cell X → Option X.Expr
  as_expr (expr e) = some e
  as_expr _ = none

  abbrev pub as_query : Cell X → Option (Query X)
  as_query (query q) = some q
  as_query _ = none

  abbrev pub as_vector_query : Cell X → Option (VectorQuery X)
  as_vector_query (vector_query q) = some q
  as_vector_query _ = none

  abbrev pub as_stream : Cell X → Option X.Stream
  as_stream (stream s) = some s
  as_stream _ = none

  abbrev pub as_table : Cell X → Option X.Table
  as_table (table t) = some t
  as_table _ = none

  abbrev pub as_connection : Cell X → Option X.Connection
  as_connection (connection c cached) = some c
  as_connection _ = none

  abbrev pub as_table_names_builder : Cell X → Option X.TableNamesBuilder
  as_table_names_builder (table_names_builder b) = some b
  as_table_names_builder _ = none

  abbrev pub as_reader : Cell X → Option (SingleBatchReader X)
  as_reader (reader r) = some r
  as_reader _ = none

  abbrev pub as_connect_builder : Cell X → Option X.ConnectBuilder
  as_connect_builder (connect_builder b) = some b
  as_connect_builder _ = none

  abbrev pub as_session : Cell X → Option X.Session
  as_session (session s) = some s
  as_session _ = none

  abbrev pub as_registry : Cell X → Option X.Registry
  as_registry (registry r) = some r
  as_registry _ = none

  abbrev pub as_provider : Cell X → Option (Option X.Provider)
  as_provider (provider p) = some p
  as_provider _ = none

  abbrev pub as_session_options : Cell X → Option LanceDbSessionOptions
  as_session_options (session_options o) = some o
  as_session_options _ = none

  abbrev pub as_merge_config : Cell X → Option LanceDbMergeInsertConfig
  as_merge_config (merge_config c) = some c
  as_merge_config _ = none

  abbrev pub as_vector_index_config : Cell X → Option (LanceDbVectorIndexConfig X)
  as_vector_index_config (vector_index_config c) = some c
  as_vector_index_config _ = none

  abbrev pub as_scalar_index_config : Cell X → Option LanceDbScalarIndexConfig
  as_scalar_index_config (scalar_index_config c) = some c
  as_scalar_index_config _ = none

  abbrev pub as_fts_index_config : Cell X → Option LanceDbFtsIndexConfig
  as_fts_index_config (fts_index_config c) = some c
  as_fts_index_config _ = none

  abbrev pub as_cached : Cell X → Option (X.Connection × Option Ptr)
  as_cached (connection c cached) = some (c, cached)
  as_cached _ = none

  abbrev pub as_array : Cell X → Option X.Array
  as_array (array b) = some b
  as_array _ = none

  abbrev pub as_schema : Cell X → Option X.Schema
  as_schema (schema s) = some s
  as_schema _ = none

  abbrev pub as_floats : Cell X → Option (List X.F32)
  as_floats (floats xs) = some xs
  as_floats _ = none

  abbrev pub as_pointers : Cell X → Option (List (Option Ptr))
  as_pointers (pointers ps) = some ps
  as_pointers _ = none

  abbrev pub as_bools : Cell X → Option (List (Option Bool))
  as_bools (bools bs) = some bs
  as_bools _ = none

  abbrev pub as_pointer_slot : Cell X → Option Ptr
  as_pointer_slot (pointer_slot p) = some p
  as_pointer_slot _ = none

  abbrev pub as_count_slot : Cell X → Option ℕ
  as_count_slot (count_slot n) = some n
  as_count_slot _ = none

  -- `*out = p` for an output of pointer type
  unfoldable pub write_pointer : Ptr → Ptr → Cmd X (Unit {0})
  write_pointer out p = do c ← load out; expect (as_pointer_slot c); store out (pointer_slot p)

  -- `*out = n` for an output of type `usize`
  unfoldable pub write_count : Ptr → ℕ → Cmd X (Unit {0})
  write_count out n = do c ← load out; expect (as_count_slot c); store out (count_slot n)

  -- `CStr::from_ptr(p)`
  unfoldable pub load_text : Ptr → Cmd X Bytes
  load_text p = do c ← load p; expect (as_text c)

  -- `CStr::from_ptr(p).to_str()`, with `none` for its error
  unfoldable pub load_str : Ptr → Cmd X (Option Bytes)
  load_str p = do s ← load_text p; pure (to_str s)

  -- `(*Box::from_raw(p)).inner` of a `LanceDBExpr`
  unfoldable pub take_expr : Ptr → Cmd X X.Expr
  take_expr p = do c ← release p; expect (as_expr c)

  -- `(*p).inner` of a `LanceDBExpr`
  unfoldable pub load_expr : Ptr → Cmd X X.Expr
  load_expr p = do c ← load p; expect (as_expr c)

  -- `(*p)` of a handle, and the handle given back by `Box::from_raw(p)`
  unfoldable pub load_query : Ptr → Cmd X (Query X)
  load_query p = do c ← load p; expect (as_query c)

  unfoldable pub take_query : Ptr → Cmd X (Query X)
  take_query p = do c ← release p; expect (as_query c)

  unfoldable pub load_vector_query : Ptr → Cmd X (VectorQuery X)
  load_vector_query p = do c ← load p; expect (as_vector_query c)

  unfoldable pub take_vector_query : Ptr → Cmd X (VectorQuery X)
  take_vector_query p = do c ← release p; expect (as_vector_query c)

  unfoldable pub take_stream : Ptr → Cmd X X.Stream
  take_stream p = do c ← release p; expect (as_stream c)

  unfoldable pub load_table : Ptr → Cmd X X.Table
  load_table p = do c ← load p; expect (as_table c)

  unfoldable pub load_connection : Ptr → Cmd X X.Connection
  load_connection p = do c ← load p; expect (as_connection c)

  unfoldable pub take_table_names_builder : Ptr → Cmd X X.TableNamesBuilder
  take_table_names_builder p = do c ← release p; expect (as_table_names_builder c)

  -- the values of other handles, read through a pointer or taken by `Box::from_raw`
  unfoldable pub take_reader : Ptr → Cmd X (SingleBatchReader X)
  take_reader p = do c ← release p; expect (as_reader c)

  unfoldable pub take_connect_builder : Ptr → Cmd X X.ConnectBuilder
  take_connect_builder p = do c ← release p; expect (as_connect_builder c)

  unfoldable pub take_registry : Ptr → Cmd X X.Registry
  take_registry p = do c ← release p; expect (as_registry c)

  unfoldable pub take_provider : Ptr → Cmd X (Option X.Provider)
  take_provider p = do c ← release p; expect (as_provider c)

  unfoldable pub take_cached : Ptr → Cmd X (X.Connection × Option Ptr)
  take_cached p = do c ← release p; expect (as_cached c)

  unfoldable pub load_session : Ptr → Cmd X X.Session
  load_session p = do c ← load p; expect (as_session c)

  unfoldable pub load_registry : Ptr → Cmd X X.Registry
  load_registry p = do c ← load p; expect (as_registry c)

  unfoldable pub load_session_options : Ptr → Cmd X LanceDbSessionOptions
  load_session_options p = do c ← load p; expect (as_session_options c)

  unfoldable pub load_merge_config : Ptr → Cmd X LanceDbMergeInsertConfig
  load_merge_config p = do c ← load p; expect (as_merge_config c)

  unfoldable pub load_cached : Ptr → Cmd X (X.Connection × Option Ptr)
  load_cached p = do c ← load p; expect (as_cached c)

  unfoldable pub load_vector_index_config : Ptr → Cmd X (LanceDbVectorIndexConfig X)
  load_vector_index_config p = do c ← load p; expect (as_vector_index_config c)

  unfoldable pub load_scalar_index_config : Ptr → Cmd X LanceDbScalarIndexConfig
  load_scalar_index_config p = do c ← load p; expect (as_scalar_index_config c)

  unfoldable pub load_fts_index_config : Ptr → Cmd X LanceDbFtsIndexConfig
  load_fts_index_config p = do c ← load p; expect (as_fts_index_config c)

  unfoldable pub load_floats : Ptr → Cmd X (List X.F32)
  load_floats p = do c ← load p; expect (as_floats c)

  -- `*p.add(i)` of an array of pointers; out of bounds or uninitialised it is a fault
  unfoldable pub load_at : Ptr → ℕ → Cmd X Ptr
  load_at p i = do c ← load p; ps ← expect (as_pointers c); q ← expect (get_elem? ps i); expect q

  unfoldable pub load_array : Ptr → Cmd X X.Array
  load_array p = do c ← load p; expect (as_array c)

  unfoldable pub load_schema : Ptr → Cmd X X.Schema
  load_schema p = do c ← load p; expect (as_schema c)

  -- `*p.add(i) = b` of an array of `bool`
  unfoldable pub store_bool_at : Ptr → ℕ → Bool → Cmd X (Unit {0})
  store_bool_at p i b = do
    c ← load p
    bs ← expect (as_bools c)
    expect (get_elem? bs i)
    store p (bools (set bs i (some b)))

  -- `CString::from_raw(p)`
  unfoldable pub take_text : Ptr → Cmd X Bytes
  take_text p = do c ← release p; expect (as_text c)

  -- `*p.add(i) = q`
  unfoldable pub store_at : Ptr → ℕ → Ptr → Cmd X (Unit {0})
  store_at p i q = do
    c ← load p
    ps ← expect (as_pointers c)
    expect (get_elem? ps i)
    store p (pointers (set ps i (some q)))
