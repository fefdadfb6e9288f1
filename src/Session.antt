-- ===== src/Session.antt =====
-- Sessions of src/connection.rs, and the registries of object store providers that they take.
pub mod Insertions
pub mod Laws
use lancedb_c.Prelude.{ℕ, ◌*◌, Bool, true, false, ◌||◌, ◌==◌, Option, none, some, if◌then◌else◌}
use lancedb_c.Text.{Bytes, codes}
use lancedb_c.External.{External}
use lancedb_c.Memory.{
  Ptr, null, addr, is_null, session, registry, LanceDbSessionOptions, Cmd, pure, expect, ◌>>=◌,
  ◌>>◌, alloc, release, store, as_session, load_str, load_registry, load_session_options,
  take_registry, take_provider,
}
use lancedb_c.Error.{
  LanceDbError, success, invalid_argument, invalid_input, reject, set_custom_error_message,
}

abbrev pub default_index_cache_size_bytes : ℕ
default_index_cache_size_bytes = 6 * (1024 * (1024 * 1024))

abbrev pub default_metadata_cache_size_bytes : ℕ
default_metadata_cache_size_bytes = 1024 * (1024 * 1024)

-- the sizes of the two caches: zero stands for the default
unfoldable pub cache_sizes : LanceDbSessionOptions → ℕ × ℕ
cache_sizes options = (
  if options.index_cache_bytes == 0
      then default_index_cache_size_bytes
      else options.index_cache_bytes,
  if options.metadata_cache_bytes == 0
      then default_metadata_cache_size_bytes
      else options.metadata_cache_bytes,
)

-- `registry.unwrap_or_else(…)`
unfoldable pub registry_or_default : (X : External) → Option X.Registry → X.Registry
registry_or_default X none = X.default_registry
registry_or_default X (some r) = r

module _ {X : External} where
  unfoldable pub cache_sizes_of : Ptr → Cmd X (ℕ × ℕ)
  cache_sizes_of null = pure (default_index_cache_size_bytes, default_metadata_cache_size_bytes)
  cache_sizes_of (addr o) = do options ← load_session_options (addr o); pure (cache_sizes options)

  unfoldable pub create_session_impl : Ptr → Option X.Registry → Cmd X Ptr
  create_session_impl options registry_arc = do
    (index_cache_bytes, metadata_cache_bytes) ← cache_sizes_of options
    alloc (
        session (
          X.session_of index_cache_bytes metadata_cache_bytes (registry_or_default X registry_arc)))

  unfoldable pub lancedb_session_new : Ptr → Cmd X Ptr
  lancedb_session_new options = create_session_impl options none

  unfoldable pub lancedb_session_new_with_registry : Ptr → Ptr → Cmd X Ptr
  lancedb_session_new_with_registry options null = create_session_impl options none
  lancedb_session_new_with_registry options (addr r) = do
    registry_box ← take_registry (addr r)
    create_session_impl options (some registry_box)

  unfoldable pub lancedb_registry_new : Cmd X Ptr
  lancedb_registry_new = alloc (registry X.default_registry)

  unfoldable pub lancedb_registry_free : Ptr → Cmd X (Unit {0})
  lancedb_registry_free null = pure tt
  lancedb_registry_free (addr r) = do take_registry (addr r); pure tt

  unfoldable pub lancedb_object_store_provider_free : Ptr → Cmd X (Unit {0})
  lancedb_object_store_provider_free null = pure tt
  lancedb_object_store_provider_free (addr p) = do take_provider (addr p); pure tt

  -- the insertion, once the provider's box is taken
  unfoldable pub insert_taken : Ptr → Bytes → Option X.Provider → Ptr → Cmd X LanceDbError
  insert_taken registry_ptr scheme_str none error_message = do
    set_custom_error_message error_message (codes "LanceDBObjectStoreProvider is not initialized")
    pure invalid_argument
  insert_taken registry_ptr scheme_str (some provider_arc) error_message = do
    registry_ref ← load_registry registry_ptr
    store registry_ptr (registry (X.insert_provider registry_ref scheme_str provider_arc))
    pure success

  unfoldable pub insert_named : Ptr → Option Bytes → Ptr → Ptr → Cmd X LanceDbError
  insert_named registry_ptr none provider error_message = do
    set_custom_error_message error_message (codes "Invalid URL scheme string")
    pure invalid_input
  insert_named registry_ptr (some scheme_str) provider error_message = do
    provider_box ← take_provider provider
    insert_taken registry_ptr scheme_str provider_box error_message

  unfoldable pub lancedb_registry_insert_provider : Ptr → Ptr → Ptr → Ptr → Cmd X LanceDbError
  lancedb_registry_insert_provider registry_ptr scheme provider error_message =
      elim (is_null registry_ptr || is_null scheme || is_null provider) [
        | true ↦ reject error_message
        | false ↦ do
          scheme_str ← load_str scheme
          insert_named registry_ptr scheme_str provider error_message
      ]

  unfoldable pub lancedb_session_free : Ptr → Cmd X (Unit {0})
  lancedb_session_free null = pure tt
  lancedb_session_free (addr s) = do c ← release (addr s); expect (as_session c); pure tt
