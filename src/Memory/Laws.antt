-- ===== src/Memory/Laws.antt =====
-- The commands at addresses that hold what they expect, and the invariant of the allocator.
use lancedb_c.Prelude.{
  Bool, ℕ, ◌<◌, ◌≤◌, ◌≡◌, true, false, ◌==◌, Option, none, some, List, get_elem?, set, arith,
}
use lancedb_c.Text.{Bytes, is_utf8}
use lancedb_c.External.{External}
use lancedb_c.Memory.{
  vector_index_config, load_vector_index_config, scalar_index_config, load_scalar_index_config,
  fts_index_config, load_fts_index_config, LanceDbVectorIndexConfig, LanceDbScalarIndexConfig,
  LanceDbFtsIndexConfig, reader, connect_builder, session, registry, provider, session_options,
  merge_config, SingleBatchReader, LanceDbSessionOptions, LanceDbMergeInsertConfig, take_reader,
  take_connect_builder, take_registry, take_provider, take_cached, load_session, load_registry,
  load_session_options, load_merge_config, load_cached, array, schema, bools, load_array,
  load_schema, store_bool_at, table_names_builder, take_table_names_builder, load_str, take_text,
  Query, VectorQuery, query, vector_query, stream, table, connection, floats, load_query,
  take_query, load_vector_query, take_vector_query, take_stream, load_table, load_connection,
  load_floats, Ptr, addr, Cell, text, expr, pointers, pointer_slot, count_slot, Heap, ok, write,
  push, load, store, release, load_text, take_expr, load_expr, load_at, store_at, write_pointer,
  write_count,
}

-- No address from `next` on is in use.
pub record IsWf {X : External} (h : Heap X) : Type 0 where
  pub unused : (a : ℕ) → h.next ≤ a → h.mem a ≡ none

module _ {X : External} (h : Heap X) where
  pub mem-write_self : (a : ℕ) (c : Option (Cell X)) → (write h a c).mem a ≡ c
  unfolding write
  mem-write_self a c = ground arith

  pub mem-write_ne :
      (a b : ℕ) (c : Option (Cell X)) → (b == a) ≡ false → (write h a c).mem b ≡ h.mem b
  unfolding write
  mem-write_ne a b c apart = rw apart

  pub mem-push_new : (c : Cell X) → (push h c).mem h.next ≡ some c
  unfolding push write
  mem-push_new c = ground arith

  pub release-ok :
      (a : ℕ) (c : Cell X) → h.mem a ≡ some c → release (addr a) h ≡ ok c (write h a none)
  unfolding release
  release-ok a c live = ground arith

  pub take_expr-ok :
      (a : ℕ) (e : X.Expr) → h.mem a ≡ some (expr e) → take_expr (addr a) h ≡ ok e (write h a none)
  unfolding take_expr release
  take_expr-ok a e live = ground (arith)

  pub load_expr-ok : (a : ℕ) (e : X.Expr) → h.mem a ≡ some (expr e) → load_expr (addr a) h ≡ ok e h
  unfolding load_expr load
  load_expr-ok a e live = ground (arith)

  pub load_text-ok : (a : ℕ) (s : Bytes) → h.mem a ≡ some (text s) → load_text (addr a) h ≡ ok s h
  unfolding load_text load
  load_text-ok a e live = ground (arith)

  pub load_str-some :
      (a : ℕ) (s : Bytes)
      → h.mem a ≡ some (text s)
      → is_utf8 s ≡ true
      → load_str (addr a) h ≡ ok (some s) h
  unfolding load_str
  load_str-some a s live valid = rw (load_text-ok a s live) (ground arith)

  pub load_str-none :
      (a : ℕ) (s : Bytes)
      → h.mem a ≡ some (text s)
      → is_utf8 s ≡ false
      → load_str (addr a) h ≡ ok none h
  unfolding load_str
  load_str-none a s live broken = rw (load_text-ok a s live) (ground arith)

  pub take_text-ok :
      (a : ℕ) (s : Bytes) → h.mem a ≡ some (text s) → take_text (addr a) h ≡ ok s (write h a none)
  unfolding take_text release
  take_text-ok a s live = ground arith

  pub load_query-ok :
      (a : ℕ) (q : Query X) → h.mem a ≡ some (query q) → load_query (addr a) h ≡ ok q h
  unfolding load_query load
  load_query-ok a q live = ground arith

  pub take_query-ok :
      (a : ℕ) (q : Query X)
      → h.mem a ≡ some (query q)
      → take_query (addr a) h ≡ ok q (write h a none)
  unfolding take_query release
  take_query-ok a q live = ground arith

  pub load_vector_query-ok :
      (a : ℕ) (q : VectorQuery X)
      → h.mem a ≡ some (vector_query q)
      → load_vector_query (addr a) h ≡ ok q h
  unfolding load_vector_query load
  load_vector_query-ok a q live = ground arith

  pub take_vector_query-ok :
      (a : ℕ) (q : VectorQuery X)
      → h.mem a ≡ some (vector_query q)
      → take_vector_query (addr a) h ≡ ok q (write h a none)
  unfolding take_vector_query release
  take_vector_query-ok a q live = ground arith

  pub take_stream-ok :
      (a : ℕ) (s : X.Stream)
      → h.mem a ≡ some (stream s)
      → take_stream (addr a) h ≡ ok s (write h a none)
  unfolding take_stream release
  take_stream-ok a s live = ground arith

  pub load_table-ok :
      (a : ℕ) (t : X.Table) → h.mem a ≡ some (table t) → load_table (addr a) h ≡ ok t h
  unfolding load_table load
  load_table-ok a t live = ground arith

  pub load_connection-ok :
      (a : ℕ) (c : X.Connection) (cached : Option Ptr)
      → h.mem a ≡ some (connection c cached)
      → load_connection (addr a) h ≡ ok c h
  unfolding load_connection load
  load_connection-ok a c cached live = ground arith

  pub take_table_names_builder-ok :
      (a : ℕ) (b : X.TableNamesBuilder)
      → h.mem a ≡ some (table_names_builder b)
      → take_table_names_builder (addr a) h ≡ ok b (write h a none)
  unfolding take_table_names_builder release
  take_table_names_builder-ok a b live = ground arith

  pub take_reader-ok :
      (a : ℕ) (r : SingleBatchReader X)
      → h.mem a ≡ some (reader r)
      → take_reader (addr a) h ≡ ok r (write h a none)
  unfolding take_reader release
  take_reader-ok a r live = ground arith

  pub take_connect_builder-ok :
      (a : ℕ) (b : X.ConnectBuilder)
      → h.mem a ≡ some (connect_builder b)
      → take_connect_builder (addr a) h ≡ ok b (write h a none)
  unfolding take_connect_builder release
  take_connect_builder-ok a b live = ground arith

  pub take_registry-ok :
      (a : ℕ) (r : X.Registry)
      → h.mem a ≡ some (registry r)
      → take_registry (addr a) h ≡ ok r (write h a none)
  unfolding take_registry release
  take_registry-ok a r live = ground arith

  pub take_provider-ok :
      (a : ℕ) (p : Option X.Provider)
      → h.mem a ≡ some (provider p)
      → take_provider (addr a) h ≡ ok p (write h a none)
  unfolding take_provider release
  take_provider-ok a p live = ground arith

  pub load_session-ok :
      (a : ℕ) (s : X.Session) → h.mem a ≡ some (session s) → load_session (addr a) h ≡ ok s h
  unfolding load_session load
  load_session-ok a s live = ground arith

  pub load_registry-ok :
      (a : ℕ) (r : X.Registry) → h.mem a ≡ some (registry r) → load_registry (addr a) h ≡ ok r h
  unfolding load_registry load
  load_registry-ok a r live = ground arith

  pub load_session_options-ok :
      (a : ℕ) (o : LanceDbSessionOptions)
      → h.mem a ≡ some (session_options o)
      → load_session_options (addr a) h ≡ ok o h
  unfolding load_session_options load
  load_session_options-ok a o live = ground arith

  pub load_merge_config-ok :
      (a : ℕ) (m : LanceDbMergeInsertConfig)
      → h.mem a ≡ some (merge_config m)
      → load_merge_config (addr a) h ≡ ok m h
  unfolding load_merge_config load
  load_merge_config-ok a m live = ground arith

  pub load_cached-ok :
      (a : ℕ) (c : X.Connection) (cached : Option Ptr)
      → h.mem a ≡ some (connection c cached)
      → load_cached (addr a) h ≡ ok (c, cached) h
  unfolding load_cached load
  load_cached-ok a c cached live = ground arith

  pub take_cached-ok :
      (a : ℕ) (c : X.Connection) (cached : Option Ptr)
      → h.mem a ≡ some (connection c cached)
      → take_cached (addr a) h ≡ ok (c, cached) (write h a none)
  unfolding take_cached release
  take_cached-ok a c cached live = ground arith

  pub load_vector_index_config-ok :
      (a : ℕ) (c : LanceDbVectorIndexConfig X)
      → h.mem a ≡ some (vector_index_config c)
      → load_vector_index_config (addr a) h ≡ ok c h
  unfolding load_vector_index_config load
  load_vector_index_config-ok a c live = ground arith

  pub load_scalar_index_config-ok :
      (a : ℕ) (c : LanceDbScalarIndexConfig)
      → h.mem a ≡ some (scalar_index_config c)
      → load_scalar_index_config (addr a) h ≡ ok c h
  unfolding load_scalar_index_config load
  load_scalar_index_config-ok a c live = ground arith

  pub load_fts_index_config-ok :
      (a : ℕ) (c : LanceDbFtsIndexConfig)
      → h.mem a ≡ some (fts_index_config c)
      → load_fts_index_config (addr a) h ≡ ok c h
  unfolding load_fts_index_config load
  load_fts_index_config-ok a c live = ground arith

  pub load_array-ok :
      (a : ℕ) (b : X.Array) → h.mem a ≡ some (array b) → load_array (addr a) h ≡ ok b h
  unfolding load_array load
  load_array-ok a b live = ground arith

  pub load_schema-ok :
      (a : ℕ) (s : X.Schema) → h.mem a ≡ some (schema s) → load_schema (addr a) h ≡ ok s h
  unfolding load_schema load
  load_schema-ok a s live = ground arith

  pub store_bool_at-ok :
      (a i : ℕ) (bs : List (Option Bool)) (b : Bool) (old : Option Bool)
      → h.mem a ≡ some (bools bs)
      → get_elem? bs i ≡ some old
      → store_bool_at (addr a) i b h ≡ ok tt (write h a (some (bools (set bs i (some b)))))
  unfolding store_bool_at load store
  store_bool_at-ok a i bs b old live at = ground (arith)

  pub load_floats-ok :
      (a : ℕ) (xs : List X.F32) → h.mem a ≡ some (floats xs) → load_floats (addr a) h ≡ ok xs h
  unfolding load_floats load
  load_floats-ok a xs live = ground arith

  pub store-ok :
      (a : ℕ) (c d : Cell X) → h.mem a ≡ some c → store (addr a) d h ≡ ok tt (write h a (some d))
  unfolding store
  store-ok a c d live = ground arith

  pub load_at-ok :
      (a i : ℕ) (ps : List (Option Ptr)) (q : Ptr)
      → h.mem a ≡ some (pointers ps)
      → get_elem? ps i ≡ some (some q)
      → load_at (addr a) i h ≡ ok q h
  unfolding load_at load
  load_at-ok a i ps q live at = ground (arith)

  pub store_at-ok :
      (a i : ℕ) (ps : List (Option Ptr)) (q : Ptr) (old : Option Ptr)
      → h.mem a ≡ some (pointers ps)
      → get_elem? ps i ≡ some old
      → store_at (addr a) i q h ≡ ok tt (write h a (some (pointers (set ps i (some q)))))
  unfolding store_at load store
  store_at-ok a i ps q old live at = ground (arith)

  pub write_pointer-ok :
      (a : ℕ) (old p : Ptr)
      → h.mem a ≡ some (pointer_slot old)
      → write_pointer (addr a) p h ≡ ok tt (write h a (some (pointer_slot p)))
  unfolding write_pointer load store
  write_pointer-ok a old p live = ground (arith)

  pub write_count-ok :
      (a n m : ℕ)
      → h.mem a ≡ some (count_slot n)
      → write_count (addr a) m h ≡ ok tt (write h a (some (count_slot m)))
  unfolding write_count load store
  write_count-ok a n m live = ground (arith)

module _ {X : External} {h : Heap X} where
  pub push-IsWf : (c : Cell X) → IsWf h → IsWf (push h c)
  unfolding push
  push-IsWf c wf = record { unused = λ a le. ground (arith, wf.unused a) }

  pub write-IsWf :
      (a : ℕ) (c : Cell X) (new : Option (Cell X))
      → h.mem a ≡ some c
      → IsWf h
      → IsWf (write h a new)
  unfolding write
  write-IsWf a c new live wf = record { unused = λ b le. ground (arith, wf.unused b) }

  -- An address in use lies below `next`.
  pub live-lt-next : (a : ℕ) (c : Cell X) → IsWf h → h.mem a ≡ some c → a < h.next
  live-lt-next a c wf live = ground (arith, wf.unused a)

  pub mem-push_old : (a : ℕ) (c d : Cell X) → IsWf h → h.mem a ≡ some c → (push h d).mem a ≡ some c
  unfolding push write
  mem-push_old a c d wf live = ground (arith, live-lt-next a c wf live)

-- From `h` to `g` only the address `a` changed, and holds `c`.
pub record Updated {X : External} (h : Heap X) (a : ℕ) (c : Cell X) (g : Heap X) : Type 0 where
  pub holds : g.mem a ≡ some c
  pub same : (b : ℕ) → (b == a) ≡ false → g.mem b ≡ h.mem b
  pub wf : IsWf g

pub write-Updated :
    {X : External} (h : Heap X) (a : ℕ) (old : Cell X)
    → IsWf h
    → h.mem a ≡ some old
    → (c : Cell X) → Updated h a c (write h a (some c))
unfolding write
write-Updated h a old wf live c = record {
  holds = ground arith;
  same = λ b out. ground arith;
  wf = record { unused = λ b le. ground (arith, wf.unused b) };
}
