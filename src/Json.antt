-- ===== src/Json.antt =====
-- src/json.rs, the builders of JSON expressions: a path of C strings becomes literals after the JSON expression in
-- a call of a user-defined function.
pub mod Laws
pub mod Matches
pub mod Search
use lancedb_c.Prelude.{
  ℕ, zero, suc, Bool, true, false, Option, none, some, List, [], ◌∷◌, ◌++◌, if◌then◌else◌,
}
use lancedb_c.Text.{codes}
use lancedb_c.External.{External, Udf}
use lancedb_c.Memory.{
  Ptr, null, addr, expr, Cmd, pure, ◌>>=◌, ◌>>◌, alloc, load_str, load_at, take_expr,
}
use lancedb_c.Expr.{take_if_some}

-- the value as the elements of a JSON array are written
unfoldable pub search_val : (X : External) → Bool → X.Expr → X.Expr
search_val X true val =
    let quote = X.lit_string (codes "\"") in
    X.scalar_function Udf.concat (quote ∷ X.cast_utf8 val ∷ quote ∷ [])
search_val X false val = X.cast_utf8 val

module _ {X : External} where
  -- the loop over the path: `n` rounds from index `i`, with `none` for an early return
  unfoldable pub push_segments : ℕ → ℕ → Ptr → List X.Expr → Cmd X (Option (List X.Expr))
  push_segments zero i path args = pure (some args)
  push_segments (suc n) i path args = do
    seg ← load_at path i
    elim seg [
      | null ↦ pure none
      | addr a ↦ do
        o ← load_str (addr a)
        elim o [
          | none ↦ pure none
          | some s ↦ push_segments n (suc i) path (args ++ (X.lit_string s ∷ []))
        ]
    ]

  unfoldable pub build_json_udf_expr : Udf → Ptr → Ptr → ℕ → Cmd X Ptr
  build_json_udf_expr udf null path path_len = pure null
  build_json_udf_expr udf (addr a) null path_len = do take_expr (addr a); pure null
  build_json_udf_expr udf (addr a) (addr l) zero = do take_expr (addr a); pure null
  build_json_udf_expr udf (addr a) (addr l) (suc n) = do
    json ← take_expr (addr a)
    o ← push_segments (suc n) 0 (addr l) (json ∷ [])
    elim o [ none ↦ pure null | some args ↦ alloc (expr (X.scalar_function udf args)) ]

  unfoldable pub lancedb_expr_json_get_str : Ptr → Ptr → ℕ → Cmd X Ptr
  lancedb_expr_json_get_str = build_json_udf_expr Udf.json_get_str

  unfoldable pub lancedb_expr_json_get_int : Ptr → Ptr → ℕ → Cmd X Ptr
  lancedb_expr_json_get_int = build_json_udf_expr Udf.json_get_int

  unfoldable pub lancedb_expr_json_get_float : Ptr → Ptr → ℕ → Cmd X Ptr
  lancedb_expr_json_get_float = build_json_udf_expr Udf.json_get_float

  unfoldable pub lancedb_expr_json_get_bool : Ptr → Ptr → ℕ → Cmd X Ptr
  lancedb_expr_json_get_bool = build_json_udf_expr Udf.json_get_bool

  unfoldable pub lancedb_expr_json_contains : Ptr → Ptr → ℕ → Cmd X Ptr
  lancedb_expr_json_contains = build_json_udf_expr Udf.json_contains

  -- the rest of `lancedb_expr_json_array_has`, when `build_json_udf_expr` has returned
  unfoldable pub array_has_of : X.Expr → Bool → Ptr → Cmd X Ptr
  array_has_of val quote_value null = pure null
  array_has_of val quote_value (addr b) = do
    array_inner ← take_expr (addr b)
    alloc (expr (X.scalar_function Udf.array_has (array_inner ∷ search_val X quote_value val ∷ [])))

  unfoldable pub lancedb_expr_json_array_has : Ptr → Ptr → ℕ → Ptr → Bool → Cmd X Ptr
  lancedb_expr_json_array_has json_expr path path_len value_expr quote_value = do
    val ← take_if_some value_expr
    elim val [
      | none ↦ do take_if_some json_expr; pure null
      | some v ↦ do
        array_expr_ptr ← build_json_udf_expr Udf.json_get_array json_expr path path_len
        array_has_of v quote_value array_expr_ptr
    ]
