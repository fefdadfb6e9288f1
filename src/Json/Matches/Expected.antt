-- ===== src/Json/Matches/Expected.antt =====
-- What lancedb_json_matches is to compute, without its memory and apart from its code.
use lancedb_c.Prelude.{
  ℕ, zero, suc, ◌≡◌, ◌≢◌, refl, Bool, false, Option, none, some, List, [], ◌∷◌, ◌++◌, map,
  if◌then◌else◌, fun_ext, ap,
}
use mathlib.Core.Option
use lancedb_c.Text.{Bytes, codes}
use lancedb_c.External.{External, ColumnarValue, Result}
use lancedb_c.Error.{LanceDbError, invalid_argument, other}
use lancedb_c.Json.Matches.{
  Failure, ◌then_ok◌, is_match, with_code, values_of, booleans, imported_batch, non_owning_import,
  match_batch, match_array, prepare,
}
use lancedb_c.Json.Matches.Totals.{counted, present}

-- A null in a column of truth values is no match.
abbrev pub hit : Option Bool → Bool
hit (some b) = b
hit none = false

-- A failure with its code.
abbrev pub coded : {A : Type 0} → LanceDbError → Result A Bytes → Result A Failure
coded code (Result.err message) = Result.err (code, message)
coded code (Result.ok a) = Result.ok a

-- The values of a column, which must be truth values.
abbrev pub truths : (X : External) → X.Values → Result (List (Option Bool)) Failure
truths X v =
    if X.is_boolean v
    then Result.ok (X.as_boolean v)
    else Result.err
        (invalid_argument, codes "Expression must produce Boolean, got " ++ X.data_type v)

-- What the filter answers for a batch: a column, or one value for all of its rows.
abbrev pub answered :
    (X : External) → X.Batch → ColumnarValue X.Values X.Scalar → Result (List (Option Bool)) Failure
answered X batch (ColumnarValue.array v) = truths X v
answered X batch (ColumnarValue.scalar s) =
    coded other (X.to_array_of_size s (X.num_rows batch)) then_ok truths X

-- The answer for an exported array, by its import.
abbrev pub rows_in :
    (X : External)
    → X.PhysicalExpr
    → Result (Option X.Batch) Bytes
    → Result (List (Option Bool)) Failure
rows_in X pe (Result.ok (some batch)) = coded other (X.evaluate pe batch) then_ok answered X batch
rows_in X pe (Result.ok none) = Result.ok []
rows_in X pe (Result.err message) = Result.err (LanceDbError.arrow, message)

abbrev pub rows_of :
    (X : External) → X.PhysicalExpr → X.Schema → X.Array → Result (List (Option Bool)) Failure
rows_of X pe sc b = rows_in X pe (X.struct_batch b sc)

-- No array makes the import panic.
abbrev pub Sound : (X : External) → X.Schema → List X.Array → Type 0
Sound X sc [] = Unit {0}
Sound X sc (b ∷ bs) = (X.struct_batch b sc ≢ Result.ok none) × Sound X sc bs

-- The flags of the arrays one after the other, or the first failure.
abbrev pub flags_of :
    (X : External) → X.PhysicalExpr → X.Schema → List X.Array → Result (List Bool) Failure
flags_of X pe sc [] = Result.ok []
flags_of X pe sc (b ∷ bs) = rows_of X pe sc b then_ok λ flags.
    flags_of X pe sc bs then_ok λ rest. Result.ok (map hit flags ++ rest)

-- The flags of some number of rows. Without rows the filter is not evaluated.
abbrev pub flags_of_rows :
    (X : External) → X.PhysicalExpr → X.Schema → List X.Array → ℕ → Result (List Bool) Failure
flags_of_rows X pe sc bs zero = Result.ok []
flags_of_rows X pe sc bs (suc n) = flags_of X pe sc bs

-- The filter on columns with the names and the types of the schema.
abbrev pub ready : (X : External) → X.Schema → X.Expr → Result X.PhysicalExpr Failure
ready X sc e = coded LanceDbError.arrow (X.import_schema sc) then_ok λ columns.
    coded other (X.df_schema columns) then_ok λ typed. coded other (X.create_physical_expr e typed)

-- What a filter yields on arrays that may be missing: the filter is made ready first, and the rows are counted before any array
-- is imported.
abbrev pub filter_rows :
    (X : External) → X.Schema → X.Expr → List (Option X.Array) → Result (List Bool) Failure
filter_rows X sc e os = ready X sc e then_ok λ pe.
    coded invalid_argument (counted X os 0) then_ok flags_of_rows X pe sc (present os)

-- The code agrees, piece by piece.
is_match-hit_at : (o : Option Bool) → is_match o ≡ hit o
unfolding is_match
is_match-hit_at none = refl
is_match-hit_at (some b) = refl

pub is_match-hit : is_match ≡ hit
is_match-hit = fun_ext is_match-hit_at

with_code-then_ok :
    {A B : Type 0} (code : LanceDbError) (r : Result A Bytes) (k l : A → Result B Failure)
    → ((a : A) → k a ≡ l a)
    → (with_code code r then_ok k) ≡ (coded code r then_ok l)
unfolding with_code
with_code-then_ok code (Result.ok a) k l same = same a
with_code-then_ok code (Result.err message) k l same = refl

with_code-coded :
    {A : Type 0} (code : LanceDbError) (r : Result A Bytes) → with_code code r ≡ coded code r
unfolding with_code
with_code-coded code (Result.ok a) = refl
with_code-coded code (Result.err message) = refl

pub prepare-ready : (X : External) (sc : X.Schema) (e : X.Expr) → prepare X sc e ≡ ready X sc e
unfolding prepare
prepare-ready X sc e = with_code-then_ok LanceDbError.arrow (X.import_schema sc) _ _ λ columns.
    with_code-then_ok other (X.df_schema columns) _ _
      λ typed. with_code-coded other (X.create_physical_expr e typed)

values_of-answered :
    (X : External) (batch : X.Batch) (r : ColumnarValue X.Values X.Scalar)
    → (values_of X batch r then_ok booleans X) ≡ answered X batch r
unfolding values_of booleans
values_of-answered X batch (ColumnarValue.array v) = refl
values_of-answered X batch (ColumnarValue.scalar s) =
    with_code-then_ok other (X.to_array_of_size s (X.num_rows batch)) _ _ λ v. refl

imported_batch-rows_in :
    (X : External) (pe : X.PhysicalExpr) (r : Result (Option X.Batch) Bytes)
    → r ≢ Result.ok none
    → Option.map (match_batch X pe) (imported_batch r) ≡ some (rows_in X pe r)
unfolding imported_batch match_batch with_code
imported_batch-rows_in X pe (Result.err message) sound = refl
imported_batch-rows_in X pe (Result.ok none) sound = absurd (sound refl)
imported_batch-rows_in X pe (Result.ok (some batch)) sound =
    ap some (with_code-then_ok other (X.evaluate pe batch) _ _ λ r. values_of-answered X batch r)

pub match_array-rows_of :
    (X : External) (pe : X.PhysicalExpr) (sc : X.Schema) (b : X.Array)
    → X.struct_batch b sc ≢ Result.ok none
    → match_array X pe sc b ≡ some (rows_of X pe sc b)
unfolding match_array non_owning_import
match_array-rows_of X pe sc b sound = imported_batch-rows_in X pe (X.struct_batch b sc) sound
