-- ===== src/Json/Matches.antt =====
-- lancedb_json_matches of src/json.rs: a filter evaluated on the rows of exported arrays, into a new array of flags.
pub mod Rows
pub mod Totals
pub mod Expected
pub mod Flags
pub mod Loop
pub mod Answers
pub mod Refines
use lancedb_c.Prelude.{
  ℕ, zero, suc, ◌+◌, ◌^◌, ℤ, pos, negsuc, Bool, true, false, ◌||◌, not, ltb, ◌==◌, Option, none,
  some, List, [], ◌∷◌, ◌++◌, length, replicate, if◌then◌else◌,
}
use mathlib.Core.Option
use lancedb_c.Text.{Bytes, codes}
use lancedb_c.External.{External, ColumnarValue, Result, ok, err}
use lancedb_c.Memory.{
  Ptr, null, addr, is_null, bools, Cmd, pure, expect, ◌>>=◌, ◌>>◌, malloc, release, load_at,
  load_array, load_schema, store_bool_at, write_pointer, write_count,
}
use lancedb_c.Error.{
  LanceDbError, success, invalid_argument, other, set_custom_error_message, reject,
}
use lancedb_c.Expr.{take_if_some}

-- one more than the largest `usize`
abbrev pub usize_mod : ℕ
usize_mod = 2 ^ 64

-- the length of one array, by `usize::try_from`, on top of the total, by `checked_add`
unfoldable pub add_length : ℤ → ℕ → Result ℕ Bytes
add_length (negsuc n) total = err (codes "Invalid array length in batch")
add_length (pos n) total =
    if ltb (total + n) usize_mod then ok (total + n) else err (codes "Total row count overflow")

-- `valid(j) && value(j)`
unfoldable pub is_match : Option Bool → Bool
is_match none = false
is_match (some b) = b

-- A failure: its code and the text of its message.
abbrev pub Failure : Type 0
Failure = LanceDbError × Bytes

unfoldable pub with_code : {A : Type 0} → LanceDbError → Result A Bytes → Result A Failure
with_code code (ok a) = ok a
with_code code (err message) = err (code, message)

-- `m?` on a result
infixl 5 ◌then_ok◌
abbrev pub ◌then_ok◌ : {A B E : Type 0} → Result A E → (A → Result B E) → Result B E
ok a then_ok k = k a
err e then_ok k = err e

-- `match result { Array(arr) => arr, Scalar(sv) => sv.to_array_of_size(batch.num_rows())? }`
unfoldable pub values_of :
    (X : External) → X.Batch → ColumnarValue X.Values X.Scalar → Result X.Values Failure
values_of X batch (ColumnarValue.array arr) = ok arr
values_of X batch (ColumnarValue.scalar sv) =
    with_code other (X.to_array_of_size sv (X.num_rows batch))

unfoldable pub booleans : (X : External) → X.Values → Result (List (Option Bool)) Failure
booleans X arr =
    if X.is_boolean arr
    then ok (X.as_boolean arr)
    else err (invalid_argument, codes "Expression must produce Boolean, got " ++ X.data_type arr)

-- `StructArray::from` and `RecordBatch::from` on what was imported, with `none` for a panic
unfoldable pub imported_batch : {B : Type 0} → Result (Option B) Bytes → Option (Result B Bytes)
imported_batch (err message) = some (err message)
imported_batch (ok none) = none
imported_batch (ok (some batch)) = some (ok batch)

-- the import of an array that its owner keeps
unfoldable pub non_owning_import :
    (X : External) → X.Array → X.Schema → Option (Result X.Batch Bytes)
non_owning_import X arr schema = imported_batch (X.struct_batch arr schema)

-- the flags of one array, or why there are none
unfoldable pub match_batch :
    (X : External) → X.PhysicalExpr → Result X.Batch Bytes → Result (List (Option Bool)) Failure
match_batch X physical_expr imported = with_code LanceDbError.arrow imported then_ok λ batch.
    with_code other (X.evaluate physical_expr batch) then_ok λ result.
    values_of X batch result then_ok booleans X

unfoldable pub match_array :
    (X : External)
    → X.PhysicalExpr
    → X.Schema
    → X.Array
    → Option (Result (List (Option Bool)) Failure)
match_array X physical_expr schema arr =
    Option.map (match_batch X physical_expr) (non_owning_import X arr schema)

-- the filter, made ready for the schema
unfoldable pub prepare : (X : External) → X.Schema → X.Expr → Result X.PhysicalExpr Failure
prepare X schema filter_expr =
    with_code LanceDbError.arrow (X.import_schema schema) then_ok λ arrow_schema.
    with_code other (X.df_schema arrow_schema) then_ok λ df_schema.
    with_code other (X.create_physical_expr filter_expr df_schema)

module _ {X : External} where
  -- a round of the loop that counts the rows
  unfoldable pub count_array : Ptr → ℕ → Cmd X (Result ℕ Bytes)
  count_array null total = pure (err (codes "Null array pointer in batch"))
  count_array (addr a) total = do
    raw ← load_array (addr a)
    pure (add_length (X.array_length raw) total)

  -- the loop that counts the rows: `n` rounds from index `i`, or the text of a failure
  unfoldable pub count_rows : ℕ → ℕ → Ptr → ℕ → Cmd X (Result ℕ Bytes)
  count_rows zero i arrays total = pure (ok total)
  count_rows (suc n) i arrays total = do
    arr_ptr ← load_at arrays i
    counted ← count_array arr_ptr total
    elim counted [ err message ↦ pure (err message) | ok t ↦ count_rows n (suc i) arrays t ]

  -- `*out.add(offset + j) = …` for the elements of one array
  unfoldable pub write_flags : Ptr → ℕ → List (Option Bool) → Cmd X (Unit {0})
  write_flags out position [] = pure tt
  write_flags out position (b ∷ bs) = do
    store_bool_at out position (is_match b)
    write_flags out (suc position) bs

  -- the end of a round: the flags are written, or a failure gives the array of flags back
  unfoldable pub finish_array :
      Result (List (Option Bool)) Failure → Ptr → ℕ → Cmd X (Result ℕ Failure)
  finish_array (err failure) out offset = do release out; pure (err failure)
  finish_array (ok bs) out offset = do write_flags out offset bs; pure (ok (offset + length bs))

  -- a round of the loop over the arrays
  unfoldable pub match_one : Ptr → X.Schema → X.PhysicalExpr → Ptr → ℕ → Cmd X (Result ℕ Failure)
  match_one arr_ptr schema physical_expr out offset = do
    arr ← load_array arr_ptr
    matched ← expect (match_array X physical_expr schema arr)
    finish_array matched out offset

  -- the loop over the arrays: `n` rounds from index `i`
  unfoldable pub match_loop :
      ℕ → ℕ → Ptr → X.Schema → X.PhysicalExpr → Ptr → ℕ → Cmd X (Result (Unit {0}) Failure)
  match_loop zero i arrays schema physical_expr out offset = pure (ok tt)
  match_loop (suc n) i arrays schema physical_expr out offset = do
    arr_ptr ← load_at arrays i
    matched ← match_one arr_ptr schema physical_expr out offset
    elim matched [
      | err failure ↦ pure (err failure)
      | ok next ↦ match_loop n (suc i) arrays schema physical_expr out next
    ]

  -- `set_custom_error_message(error_message, …); return …`
  unfoldable pub fail_with : Failure → Ptr → Cmd X LanceDbError
  fail_with (code, message) error_message = do
    set_custom_error_message error_message message
    pure code

  -- the end of the function, after the loop
  unfoldable pub finish_matches :
      Result (Unit {0}) Failure → Ptr → ℕ → Ptr → Ptr → Ptr → Cmd X LanceDbError
  finish_matches (err failure) out total results_out count_out error_message =
      fail_with failure error_message
  finish_matches (ok done) out total results_out count_out error_message = do
    write_pointer results_out out
    write_count count_out total
    pure success

  -- the evaluation, in the array that `malloc` returned
  unfoldable pub fill_matches :
      Ptr → Ptr → X.Schema → ℕ → X.PhysicalExpr → ℕ → Ptr → Ptr → Ptr → Cmd X LanceDbError
  fill_matches null arrays schema batch_count physical_expr total results_out count_out
        error_message =
      fail_with (other, codes "Failed to allocate results array") error_message
  fill_matches (addr o) arrays schema batch_count physical_expr total results_out count_out
        error_message =
      do
        done ← match_loop batch_count 0 arrays schema physical_expr (addr o) 0
        finish_matches done (addr o) total results_out count_out error_message

  -- from the number of rows on
  unfoldable pub match_rows :
      ℕ → Ptr → X.Schema → ℕ → X.PhysicalExpr → Ptr → Ptr → Ptr → Cmd X LanceDbError
  match_rows zero arrays schema batch_count physical_expr results_out count_out error_message = do
    write_pointer results_out null
    write_count count_out 0
    pure success
  match_rows (suc n) arrays schema batch_count physical_expr results_out count_out error_message =
      do
        out ← malloc (bools (replicate (suc n) none))
        fill_matches out arrays schema batch_count physical_expr (suc n) results_out count_out
            error_message

  -- with the rows counted, or a failure of the count
  unfoldable pub match_counted :
      Result ℕ Bytes → Ptr → X.Schema → ℕ → X.PhysicalExpr → Ptr → Ptr → Ptr → Cmd X LanceDbError
  match_counted (err message) arrays schema batch_count physical_expr results_out count_out
        error_message =
      fail_with (invalid_argument, message) error_message
  match_counted (ok total) arrays schema batch_count physical_expr results_out count_out
        error_message =
      match_rows total arrays schema batch_count physical_expr results_out count_out error_message

  -- with the filter made ready, or a failure of that
  unfoldable pub match_prepared :
      Result X.PhysicalExpr Failure → Ptr → X.Schema → ℕ → Ptr → Ptr → Ptr → Cmd X LanceDbError
  match_prepared (err failure) arrays schema batch_count results_out count_out error_message =
      fail_with failure error_message
  match_prepared (ok physical_expr) arrays schema batch_count results_out count_out error_message =
      do
        counted ← count_rows batch_count 0 arrays 0
        match_counted counted arrays schema batch_count physical_expr results_out count_out
            error_message

  -- the function with arguments that are there, when the filter's box is consumed
  unfoldable pub match_with : Ptr → Ptr → ℕ → X.Expr → Ptr → Ptr → Ptr → Cmd X LanceDbError
  match_with arrays schema_ptr batch_count filter_expr results_out count_out error_message = do
    schema ← load_schema schema_ptr
    match_prepared (prepare X schema filter_expr) arrays schema batch_count results_out count_out
        error_message

  unfoldable pub lancedb_json_matches : Ptr → Ptr → ℕ → Ptr → Ptr → Ptr → Ptr → Cmd X LanceDbError
  lancedb_json_matches arrays schema batch_count expr results_out count_out error_message = do
    filter_expr ← take_if_some expr
    elim (is_null arrays
        || is_null schema
        || is_null expr
        || is_null results_out
        || is_null count_out
        || (batch_count == 0)) [
          | true ↦ reject error_message
          | false ↦ do
            e ← expect filter_expr
            match_with arrays schema batch_count e results_out count_out error_message
        ]

  unfoldable pub lancedb_free_json_matches : Ptr → Cmd X (Unit {0})
  lancedb_free_json_matches null = pure tt
  lancedb_free_json_matches (addr a) = do release (addr a); pure tt
