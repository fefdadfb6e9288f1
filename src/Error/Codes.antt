-- ===== src/Error/Codes.antt =====
-- The mapping of errors to result codes (src/error.rs, error_to_error_code).
use lancedb_c.Prelude.{◌≡◌, refl, ◌↔◌, ◌⊎◌, ◌<◌, true, false, arith, Bool-cases, inl, inr}
use lancedb_c.Text.{Bytes, codes, contains}
use lancedb_c.Text.Laws.{Within, contains_iff}
use lancedb_c.External.{Error}
use lancedb_c.Error.{
  LanceDbError, code_of, not_found_from_message, storage_failure_from_message, error_to_error_code,
  namespace_table_not_found, namespace_not_found, namespace_connect_failed, any_contained,
  permission_denied_markers,
}

-- Every error of lancedb becomes a failure that is neither the success code, nor the code of a rejected
-- argument, nor the catch-all code: the discriminant lies strictly between 1 and 99.
pub error_to_error_code_range :
    (e : Error) → (1 < code_of (error_to_error_code e)) × (code_of (error_to_error_code e) < 99)
unfolding code_of error_to_error_code not_found_from_message storage_failure_from_message
error_to_error_code_range Error.invalid_table_name = omega arith
error_to_error_code_range e = ground arith

-- What makes an error a missing table: it says so, or it is a wrapped error with the text of the namespace
-- backend in its message.
abbrev pub ReportsMissingTable : Error → Type 0
ReportsMissingTable Error.table_not_found = Unit {0}
ReportsMissingTable (Error.runtime message) = Within namespace_table_not_found message
ReportsMissingTable (Error.lance source message) = Within namespace_table_not_found message
ReportsMissingTable _ = ⊥

missing_table-code :
    (e : Error) → ReportsMissingTable e → error_to_error_code e ≡ LanceDbError.table_not_found
unfolding error_to_error_code not_found_from_message
missing_table-code Error.table_not_found m = refl
missing_table-code (Error.runtime message) m =
    rw ((contains_iff namespace_table_not_found message).1 m) refl
missing_table-code (Error.lance source message) m =
    rw ((contains_iff namespace_table_not_found message).1 m) refl
missing_table-code _ m = absurd m

code-missing_table :
    (e : Error) → error_to_error_code e ≡ LanceDbError.table_not_found → ReportsMissingTable e
unfolding error_to_error_code not_found_from_message storage_failure_from_message
code-missing_table Error.table_not_found h = tt
code-missing_table (Error.runtime message) h =
    (contains_iff namespace_table_not_found message).0 (ground arith)
code-missing_table (Error.lance source message) h =
    (contains_iff namespace_table_not_found message).0 (ground arith)
code-missing_table _ h = ground arith

-- The table-not-found code is returned exactly for the errors that report a missing table.
pub error_to_error_code-table_not_found_iff :
    (e : Error) → (error_to_error_code e ≡ LanceDbError.table_not_found) ↔ ReportsMissingTable e
error_to_error_code-table_not_found_iff e = (code-missing_table e, missing_table-code e)

absent : (needle message : Bytes) → ¬ Within needle message → contains needle message ≡ false
absent needle message out = elim (Bool-cases (contains needle message)) [
  | inl h ↦ absurd (out ((contains_iff needle message).0 h))
  | inr h ↦ h
]

present : (needle message : Bytes) → contains needle message ≡ false → ¬ Within needle message
present needle message out w = let h = (contains_iff needle message).1 w in cc

-- The text of a failure for missing privileges: it holds one of the three markers.
abbrev pub Denied : Bytes → Type 0
Denied message =
    Within (codes "PermissionDenied") message
    ⊎ (Within (codes "Permission denied") message ⊎ Within (codes "AccessDenied") message)

any_contained-Denied :
    (message : Bytes) → (any_contained permission_denied_markers message ≡ true) ↔ Denied message
any_contained-Denied message = (forth, back)
  where
    forth : any_contained permission_denied_markers message ≡ true → Denied message
    forth h = elim (Bool-cases (contains (codes "PermissionDenied") message)) [
      | inl a ↦ inl ((contains_iff _ message).0 a)
      | inr a ↦ elim (Bool-cases (contains (codes "Permission denied") message)) [
        | inl b ↦ inr (inl ((contains_iff _ message).0 b))
        | inr b ↦ inr (inr ((contains_iff (codes "AccessDenied") message).0 (ground arith)))
      ]
    ]

    back : Denied message → any_contained permission_denied_markers message ≡ true
    back (inl w) = ground (arith, (contains_iff (codes "PermissionDenied") message).1 w)
    back (inr (inl w)) = ground (arith, (contains_iff (codes "Permission denied") message).1 w)
    back (inr (inr w)) = ground (arith, (contains_iff (codes "AccessDenied") message).1 w)

-- An error for which privileges are missing: a storage error, an error wrapped by lance that is no missing table or
-- namespace, or a failure to connect to the namespace client, with a marker in its text.
abbrev pub ReportsDenied : Error → Type 0
ReportsDenied (Error.invalid_input message) =
    Within namespace_connect_failed message × Denied message
ReportsDenied (Error.object_store message) = Denied message
ReportsDenied (Error.lance source message) =
    (¬ Within namespace_table_not_found message)
    × (¬ Within namespace_not_found message)
    × Denied message
ReportsDenied _ = ⊥

denied-code : (e : Error) → ReportsDenied e → error_to_error_code e ≡ LanceDbError.permission_denied
unfolding error_to_error_code not_found_from_message storage_failure_from_message
denied-code (Error.invalid_input message) (connect, denied) = rw (
  (contains_iff namespace_connect_failed message).1 connect,
  (any_contained-Denied message).1 denied,
)
denied-code (Error.object_store message) denied = rw ((any_contained-Denied message).1 denied)
denied-code (Error.lance source message) (no_table, no_namespace, denied) = rw (
  absent namespace_table_not_found message no_table,
  absent namespace_not_found message no_namespace,
  (any_contained-Denied message).1 denied,
)
denied-code _ m = absurd m

code-denied : (e : Error) → error_to_error_code e ≡ LanceDbError.permission_denied → ReportsDenied e
unfolding error_to_error_code not_found_from_message storage_failure_from_message
code-denied (Error.invalid_input message) h = (
  (contains_iff namespace_connect_failed message).0 (ground arith),
  (any_contained-Denied message).0 (ground arith),
)
code-denied (Error.object_store message) h = (any_contained-Denied message).0 (ground arith)
code-denied (Error.lance source message) h = (
  present namespace_table_not_found message (ground arith),
  present namespace_not_found message (ground arith),
  (any_contained-Denied message).0 (ground arith),
)
code-denied _ h = ground arith

-- The permission-denied code is returned exactly for the errors whose text shows missing privileges.
pub error_to_error_code-permission_denied_iff :
    (e : Error) → (error_to_error_code e ≡ LanceDbError.permission_denied) ↔ ReportsDenied e
error_to_error_code-permission_denied_iff e = (code-denied e, denied-code e)
