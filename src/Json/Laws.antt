-- ===== src/Json/Laws.antt =====
-- What the builders of JSON expressions return, and what they free.
use lancedb_c.Prelude.{
  ℕ, suc, ◌≡◌, refl, Option, none, some, List, [], ◌∷◌, ◌++◌, map, length, arith, ap, ◌∙◌,
  Bool-cases, inl, inr,
}
use mathlib.Core.Option
use mathlib.Core.List.{append_assoc, append-nil}
use lancedb_c.Text.{Bytes, is_utf8}
use lancedb_c.External.{External, Udf}
use lancedb_c.Memory.{Ptr, null, addr, expr, pointers, Heap, ok, write, alloc, pure, Cmd}
use lancedb_c.Memory.Laws.{load_str-some, load_str-none, load_at-ok, take_expr-ok}
use lancedb_c.Memory.Arrays.{Elements}
use lancedb_c.Columns.Laws.{Strings, all_valid}
use lancedb_c.Expr.Consume.{produced}
use lancedb_c.Json.{push_segments, build_json_udf_expr}

-- the arguments after a path, if all its segments are strings
abbrev with_segments : (X : External) → List X.Expr → Option (List Bytes) → Option (List X.Expr)
with_segments X args none = none
with_segments X args (some ss) = some (args ++ map X.lit_string ss)

with_segments-snoc :
    (X : External) (args : List X.Expr) (s : Bytes) (o : Option (List Bytes))
    → with_segments X (args ++ (X.lit_string s ∷ [])) o
      ≡ with_segments X args (Option.map (λ ss. s ∷ ss) o)
with_segments-snoc X args s none = refl
with_segments-snoc X args s (some ss) =
    ap some (append_assoc args (X.lit_string s ∷ []) (map X.lit_string ss))

-- the call of the function, on the expression and the path
abbrev pub called : (X : External) → Udf → X.Expr → Option (List Bytes) → Option X.Expr
called X udf e none = none
called X udf e (some ss) = some (X.scalar_function udf (e ∷ map X.lit_string ss))

module _ {X : External} where
  push_segments_lem :
      (h : Heap X) (l i : ℕ) (cells : List (Option Ptr)) (ps : List Ptr) (os : List (Option Bytes))
      (args : List X.Expr)
      → h.mem l ≡ some (pointers cells)
      → Elements cells i ps
      → Strings h ps os
      → push_segments (length ps) i (addr l) args h ≡ ok (with_segments X args (all_valid os)) h
  unfolding push_segments
  push_segments_lem h l i cells [] [] args array at strings = rw (append-nil args)
  push_segments_lem h l i cells [] (o ∷ os) args array at strings = absurd strings
  push_segments_lem h l i cells (p ∷ ps) [] args array at strings = absurd strings
  push_segments_lem h l i cells (null ∷ ps) (none ∷ os) args array (at, rest) strings =
      rw (load_at-ok h l i _ null array at)
  push_segments_lem h l i cells (null ∷ ps) (some s ∷ os) args array at (e, strings) = absurd (cc)
  push_segments_lem h l i cells (addr a ∷ ps) (none ∷ os) args array at strings = absurd strings
  push_segments_lem h l i cells (addr a ∷ ps) (some s ∷ os) args array (at, rest) (live, strings) =
      rw (load_at-ok h l i _ (addr a) array at) (elim (Bool-cases (is_utf8 s)) [
        | inl valid ↦ rw (load_str-some h a s live valid) (
            push_segments_lem h l (suc i) cells ps os (args ++ (X.lit_string s ∷ [])) array rest
              strings
            ∙ ap (λ r. ok r h) (with_segments-snoc X args s (all_valid os))
            ∙ rw valid refl)
        | inr broken ↦ rw (load_str-none h a s live broken, broken)
      ])

  -- The strings are still there when the box of an expression is gone.
  pub Strings-write :
      (h : Heap X) (a : ℕ) (e : X.Expr) (ps : List Ptr) (os : List (Option Bytes))
      → h.mem a ≡ some (expr e)
      → Strings h ps os
      → Strings (write h a none) ps os
  unfolding write
  Strings-write h a e [] [] live strings = strings
  Strings-write h a e [] (o ∷ os) live strings = strings
  Strings-write h a e (p ∷ ps) [] live strings = absurd strings
  Strings-write h a e (null ∷ ps) (o ∷ os) live (n, strings) =
      (n, Strings-write h a e ps os live strings)
  Strings-write h a e (addr b ∷ ps) (none ∷ os) live strings = absurd strings
  Strings-write h a e (addr b ∷ ps) (some s ∷ os) live (there, strings) =
      (ground (arith), Strings-write h a e ps os live strings)

  pub array-write :
      (h : Heap X) (a l : ℕ) (e : X.Expr) (cells : List (Option Ptr))
      → h.mem a ≡ some (expr e)
      → h.mem l ≡ some (pointers cells)
      → (write h a none).mem l ≡ some (pointers cells)
  unfolding write
  array-write h a l e cells live array = ground arith

  -- A builder of a JSON function with a path that is not empty takes the JSON expression over in any case. Its result is a
  -- new box with the call of the function on the expression and the segments of the path as literals, in their order, or
  -- null if a segment is null or not UTF-8.
  pub build_json_udf_expr-produced :
      (udf : Udf) (h : Heap X) (a l : ℕ) (e : X.Expr) (cells : List (Option Ptr)) (p : Ptr)
      (ps : List Ptr) (os : List (Option Bytes))
      → h.mem a ≡ some (expr e)
      → h.mem l ≡ some (pointers cells)
      → Elements cells 0 (p ∷ ps)
      → Strings h (p ∷ ps) os
      → build_json_udf_expr udf (addr a) (addr l) (length (p ∷ ps)) h
        ≡ produced (called X udf e (all_valid os)) (write h a none)
  unfolding build_json_udf_expr alloc
  build_json_udf_expr-produced udf h a l e cells p ps os live array at strings =
      rw
        (
          take_expr-ok h a e live,
          push_segments_lem (write h a none) l 0 cells (p ∷ ps) os (e ∷ [])
              (array-write h a l e cells live array) at
              (Strings-write h a e (p ∷ ps) os live strings),
        )
        (returned (all_valid os))
    where
      returned :
          (o : Option (List Bytes))
          → (elim (with_segments X (e ∷ []) o) as (λ _. Cmd X Ptr) [
            | none ↦ pure null
            | some args ↦ alloc (expr (X.scalar_function udf args))
          ])
              (write h a none)
            ≡ produced (called X udf e o) (write h a none)
      returned none = refl
      returned (some ss) = refl
