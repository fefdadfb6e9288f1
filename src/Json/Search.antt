-- ===== src/Json/Search.antt =====
-- lancedb_expr_json_array_has of src/json.rs: what it returns, and that it takes both expressions over.
use lancedb_c.Prelude.{
  ℕ, suc, ◌≡◌, refl, true, false, Bool, ◌||◌, Option, none, some, List, [], ◌∷◌, map, length, ◌==◌,
  arith, if◌then◌else◌,
}
use lancedb_c.Text.{Bytes}
use lancedb_c.External.{External, Udf}
use lancedb_c.Memory.{and_then, Ptr, null, addr, expr, pointers, Heap, write, push, alloc}
use lancedb_c.Memory.Laws.{IsWf, take_expr-ok, mem-push_new}
use lancedb_c.Memory.Returns.{Returns}
use lancedb_c.Memory.Arrays.{Elements}
use lancedb_c.Columns.Laws.{Strings, all_valid}
use lancedb_c.Expr.{take_if_some}
use lancedb_c.Expr.Consume.{produced}
use lancedb_c.Json.{search_val, array_has_of, build_json_udf_expr, lancedb_expr_json_array_has}
use lancedb_c.Json.Laws.{called, array-write, Strings-write, build_json_udf_expr-produced}

-- The value as the text of an element of a JSON array is written, with a quotation mark on both sides or without.
abbrev pub written : (X : External) → Bool → X.Expr → X.Expr
written X false val = X.cast_utf8 val
written X true val =
    X.scalar_function Udf.concat
      (X.lit_string (34 ∷ []) ∷ X.cast_utf8 val ∷ X.lit_string (34 ∷ []) ∷ [])

search_val-written :
    (X : External) (quote : Bool) (val : X.Expr) → search_val X quote val ≡ written X quote val
unfolding search_val
search_val-written X false val = refl
search_val-written X true val = refl

-- Without a path null comes back; with one, a new box with the search in the array at the path. Either way the boxes at
-- `a` and `v` are freed, and nothing else changes.
abbrev pub Searched :
    {X : External}
    → Heap X
    → ℕ
    → ℕ
    → X.Expr
    → X.Expr
    → Bool
    → Option (List Bytes)
    → Ptr
    → Heap X
    → Type 0
Searched h a v e val quote none p g =
    (p ≡ null) × ((b : ℕ) → g.mem b ≡ (if (b == a) || (b == v) then none else h.mem b))
Searched {X} h a v e val quote (some ss) p g =
    (at : ℕ) × (p ≡ addr at)
    × (h.mem at ≡ none)
    × (g.mem at
        ≡ some (
            expr (
              X.scalar_function Udf.array_has (
                X.scalar_function Udf.json_get_array (e ∷ map X.lit_string ss)
                ∷ written X quote val
                ∷ []))))
    × ((b : ℕ) → (b == at) ≡ false → g.mem b ≡ (if (b == a) || (b == v) then none else h.mem b))

module _ {X : External} (h : Heap X) (a l v : ℕ) (e val : X.Expr) (quote : Bool)
    (cells : List (Option Ptr)) (p : Ptr) (ps : List Ptr) (os : List (Option Bytes))
    (live : h.mem a ≡ some (expr e)) (value : h.mem v ≡ some (expr val)) (apart : (a == v) ≡ false)
    (array : h.mem l ≡ some (pointers cells)) (at : Elements cells 0 (p ∷ ps))
    (strings : Strings h (p ∷ ps) os) (wf : IsWf h) where
  json_live : (write h v none).mem a ≡ some (expr e)
  unfolding write
  json_live = ground arith

  built :
      build_json_udf_expr Udf.json_get_array (addr a) (addr l) (length (p ∷ ps)) (write h v none)
      ≡ produced (called X Udf.json_get_array e (all_valid os)) (write (write h v none) a none)
  built =
      build_json_udf_expr-produced Udf.json_get_array (write h v none) a l e cells p ps os json_live
        (array-write h v l val cells value array) at
        (Strings-write h v val (p ∷ ps) os value strings)

  searched :
      (o : Option (List Bytes))
      → Returns (Searched h a v e val quote o) (
          and_then
            (produced (called X Udf.json_get_array e o) (write (write h v none) a none))
            (array_has_of val quote))
  unfolding array_has_of alloc write push
  searched none = (refl, λ b. ground arith)
  searched (some ss) =
      let call = X.scalar_function Udf.json_get_array (e ∷ map X.lit_string ss) in
      let freed = write (write h v none) a none in
      rw
        (
          take_expr-ok (push freed (expr call)) h.next call (mem-push_new freed (expr call)),
          search_val-written X quote val,
        )
        (
          suc h.next,
          refl,
          wf.unused (suc h.next) (omega arith),
          ground arith,
          λ b out. ground (arith, wf.unused h.next),
        )

  -- A JSON expression and a value with boxes of their own are both freed by the search in an array, whether the path of
  -- strings and null pointers is valid or not. With a valid path the result is a new box with the search for the value,
  -- quoted if asked for, in the array at the path; else it is null. Nothing else changes.
  pub lancedb_expr_json_array_has-Searched :
      Returns
        (Searched h a v e val quote (all_valid os))
        (lancedb_expr_json_array_has (addr a) (addr l) (length (p ∷ ps)) (addr v) quote h)
  unfolding lancedb_expr_json_array_has take_if_some
  lancedb_expr_json_array_has-Searched =
      rw (take_expr-ok h v val value) (rw built (searched (all_valid os)))
