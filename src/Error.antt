-- ===== src/Error.antt =====
-- src/error.rs: the result codes of the C interface, the mapping of lancedb's errors to them, and the
-- functions that hand an error message to the caller.
pub mod Codes
pub mod Messages
use lancedb_c.Prelude.{
  ℕ, Bool, true, false, ◌||◌, Option, none, some, List, [], ◌∷◌, if◌then◌else◌, unwrap_or, or_else,
}
use lancedb_c.Text.{Bytes, codes, contains, has_nul}
use lancedb_c.External.{External, LanceSource, Error}
use lancedb_c.Memory.{
  Ptr, null, addr, is_null, text, Cmd, pure, ◌>>=◌, ◌>>◌, alloc, release, as_text, expect,
  write_pointer,
}

pub data LanceDbError : Type 0 where
  success invalid_argument invalid_table_name invalid_input table_not_found : LanceDbError
  database_not_found database_already_exists index_not_found : LanceDbError
  embedding_function_not_found table_already_exists create_dir schema runtime : LanceDbError
  timeout object_store lance http retry arrow not_supported other namespace : LanceDbError
  permission_denied not_found unknown : LanceDbError

-- the discriminant, as C sees it
unfoldable pub code_of : LanceDbError → ℕ
code_of success = 0
code_of invalid_argument = 1
code_of invalid_table_name = 2
code_of invalid_input = 3
code_of table_not_found = 4
code_of database_not_found = 5
code_of database_already_exists = 6
code_of index_not_found = 7
code_of embedding_function_not_found = 8
code_of table_already_exists = 9
code_of create_dir = 10
code_of schema = 11
code_of runtime = 12
code_of timeout = 13
code_of object_store = 14
code_of lance = 15
code_of http = 16
code_of retry = 17
code_of arrow = 18
code_of not_supported = 19
code_of other = 20
code_of namespace = 21
code_of permission_denied = 22
code_of not_found = 23
code_of unknown = 99

abbrev pub namespace_table_not_found : Bytes
namespace_table_not_found = codes "Table not found:"

abbrev pub namespace_not_found : Bytes
namespace_not_found = codes "Namespace not found:"

unfoldable pub not_found_from_message : Bytes → Option LanceDbError
not_found_from_message message =
    if contains namespace_table_not_found message
    then some table_not_found
    else if contains namespace_not_found message
    then some database_not_found
    else none

abbrev pub permission_denied_markers : List Bytes
permission_denied_markers =
    codes "PermissionDenied" ∷ codes "Permission denied" ∷ codes "AccessDenied" ∷ []

abbrev pub not_found_markers : List Bytes
not_found_markers = codes "NoSuchBucket" ∷ []

-- `markers.iter().any(|m| message.contains(m))`
abbrev pub any_contained : List Bytes → Bytes → Bool
any_contained [] message = false
any_contained (m ∷ ms) message = contains m message || any_contained ms message

unfoldable pub storage_failure_from_message : Bytes → Option LanceDbError
storage_failure_from_message message =
    if any_contained permission_denied_markers message
    then some permission_denied
    else if any_contained not_found_markers message
    then some not_found
    else none

abbrev pub namespace_connect_failed : Bytes
namespace_connect_failed = codes "Failed to connect to namespace:"

-- the `fallback` of the `Lance` case
abbrev pub lance_fallback : LanceSource → LanceDbError
lance_fallback LanceSource.not_found = not_found
lance_fallback LanceSource.index_not_found = index_not_found
lance_fallback LanceSource.namespace = namespace
lance_fallback LanceSource.other = lance

unfoldable pub error_to_error_code : Error → LanceDbError
error_to_error_code Error.invalid_table_name = invalid_table_name
error_to_error_code (Error.invalid_input message) =
    if contains namespace_connect_failed message
    then unwrap_or (storage_failure_from_message message) lance
    else invalid_input
error_to_error_code Error.table_not_found = table_not_found
error_to_error_code Error.database_not_found = database_not_found
error_to_error_code Error.database_already_exists = database_already_exists
error_to_error_code Error.index_not_found = index_not_found
error_to_error_code Error.embedding_function_not_found = embedding_function_not_found
error_to_error_code Error.table_already_exists = table_already_exists
error_to_error_code Error.create_dir = create_dir
error_to_error_code Error.schema = schema
error_to_error_code (Error.runtime message) = unwrap_or (not_found_from_message message) runtime
error_to_error_code Error.timeout = timeout
error_to_error_code (Error.object_store message) =
    unwrap_or (storage_failure_from_message message) object_store
error_to_error_code (Error.lance source message) =
    unwrap_or (or_else (not_found_from_message message) (storage_failure_from_message message))
      (lance_fallback source)
error_to_error_code Error.http = http
error_to_error_code Error.retry = retry
error_to_error_code Error.arrow = arrow
error_to_error_code Error.not_supported = not_supported
error_to_error_code Error.other = other
error_to_error_code Error.external = other

module _ {X : External} where
  -- `CString::new(msg)`, and the two outcomes of it
  write_c_string : Ptr → Bytes → Cmd X (Unit {0})
  write_c_string out message =
      if has_nul message
      then write_pointer out null
      else do p ← alloc (text message); write_pointer out p

  unfoldable pub set_custom_error_message : Ptr → Bytes → Cmd X (Unit {0})
  unfolding write_c_string
  set_custom_error_message null message = pure tt
  set_custom_error_message (addr a) message = write_c_string (addr a) message

  unfoldable pub set_error_message : Ptr → Error → Cmd X (Unit {0})
  unfolding write_c_string
  set_error_message null error = pure tt
  set_error_message (addr a) error = write_c_string (addr a) (X.display error)

  unfoldable pub set_invalid_argument_message : Ptr → Cmd X (Unit {0})
  unfolding write_c_string
  set_invalid_argument_message null = pure tt
  set_invalid_argument_message (addr a) = write_c_string (addr a) (codes "Invalid argument")

  -- `set_invalid_argument_message(error_message); return LanceDbError::InvalidArgument`
  abbrev pub reject : Ptr → Cmd X LanceDbError
  reject error_message = do set_invalid_argument_message error_message; pure invalid_argument

  unfoldable pub set_unknown_error_message : Ptr → Cmd X (Unit {0})
  unfolding write_c_string
  set_unknown_error_message null = pure tt
  set_unknown_error_message (addr a) = write_c_string (addr a) (codes "Unknown error")

  unfoldable pub set_not_supported_message : Ptr → Cmd X (Unit {0})
  unfolding write_c_string
  set_not_supported_message null = pure tt
  set_not_supported_message (addr a) = write_c_string (addr a) (codes "Not supported")

  unfoldable pub handle_error : Error → Ptr → Cmd X LanceDbError
  handle_error error null = pure (error_to_error_code error)
  handle_error error (addr a) = do
    set_error_message (addr a) error
    pure (error_to_error_code error)

  unfoldable pub lancedb_free_string : Ptr → Cmd X (Unit {0})
  lancedb_free_string null = pure tt
  lancedb_free_string (addr a) = do c ← release (addr a); expect (as_text c); pure tt
