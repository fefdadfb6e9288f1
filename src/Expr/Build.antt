-- ===== src/Expr/Build.antt =====
-- A client of src/expr.rs that builds the filter of a syntax tree by the calls of the C interface, and what it gets:
-- the expression of the tree, in one box, with nothing else left behind.
pub mod Denotes
mod Steps
use lancedb_c.Prelude.{
  ℕ, suc, ◌≤◌, ℤ, ◌≡◌, refl, Bool, true, false, ◌||◌, Option, none, some, List, [], ◌∷◌, map, ◌==◌,
  arith, if◌then◌else◌, length, ◌∙◌, sym, Bool-cases, inl, inr,
}
use lancedb_c.Text.{Bytes, is_utf8}
use lancedb_c.External.{External, Operator, Udf}
use lancedb_c.Memory.{
  Ptr, null, addr, text, expr, pointers, Heap, Cmd, ok, pure, ◌>>=◌, ◌>>◌, write, push, alloc,
  release,
}
use lancedb_c.Memory.Laws.{IsWf, mem-write_ne, load_text-ok}
use lancedb_c.Memory.Arrays.{has}
use lancedb_c.Memory.Returns
use lancedb_c.Memory.Returns.{Returns}
use lancedb_c.Expr.{
  LanceDbBinaryOp, operator_of, lancedb_expr_column, lancedb_expr_literal_string,
  lancedb_expr_literal_i64, lancedb_expr_literal_f64, lancedb_expr_literal_bool,
  lancedb_expr_binary, lancedb_expr_not, lancedb_expr_is_null, lancedb_expr_is_not_null,
  lancedb_expr_and, lancedb_expr_or, lancedb_expr_in_list, lancedb_expr_array_has,
}
use lancedb_c.Expr.Consume.{
  produced, lancedb_expr_binary-produced, lancedb_expr_and-produced, lancedb_expr_or-produced,
  lancedb_expr_array_has-produced, lancedb_expr_not-produced, lancedb_expr_is_null-produced,
  lancedb_expr_is_not_null-produced,
}
use lancedb_c.Expr.InList.{AllOwned, somes, any_none, lancedb_expr_in_list-produced}

mutual
  pub data Filter (X : External) : Type 0 where
    column : Bytes → Filter X
    literal_string : Bytes → Filter X
    literal_i64 : ℤ → Filter X
    literal_f64 : X.F64 → Filter X
    literal_bool : Bool → Filter X
    binary : Filter X → LanceDbBinaryOp → Filter X → Filter X
    negation : Filter X → Filter X
    null_test : Filter X → Filter X
    not_null_test : Filter X → Filter X
    conjunction : Filter X → Filter X → Filter X
    disjunction : Filter X → Filter X → Filter X
    in_list : Filter X → Filters X → Bool → Filter X
    array_has : Filter X → Filter X → Filter X

  pub data Filters (X : External) : Type 0 where
    nil : Filters X
    cons : Filter X → Filters X → Filters X

-- the expression that a tree stands for
unfoldable mutual
  pub denote : {X : External} → Filter X → X.Expr
  denote {X} (column s) = X.col s
  denote {X} (literal_string s) = X.lit_string s
  denote {X} (literal_i64 n) = X.lit_i64 n
  denote {X} (literal_f64 x) = X.lit_f64 x
  denote {X} (literal_bool b) = X.lit_bool b
  denote {X} (binary l op r) = X.binary_expr (denote l) (operator_of op) (denote r)
  denote {X} (negation t) = X.not_expr (denote t)
  denote {X} (null_test t) = X.is_null_expr (denote t)
  denote {X} (not_null_test t) = X.is_not_null_expr (denote t)
  denote {X} (conjunction l r) = X.and_expr (denote l) (denote r)
  denote {X} (disjunction l r) = X.or_expr (denote l) (denote r)
  denote {X} (in_list t ts negated) = X.in_list_expr (denote t) (denote_all ts) negated
  denote {X} (array_has l r) = X.scalar_function Udf.array_has (denote l ∷ denote r ∷ [])

  pub denote_all : {X : External} → Filters X → List X.Expr
  denote_all nil = []
  denote_all (cons t ts) = denote t ∷ denote_all ts

-- All texts of the tree are UTF-8.
unfoldable mutual
  pub IsText : {X : External} → Filter X → Type 0
  IsText (column s) = is_utf8 s ≡ true
  IsText (literal_string s) = is_utf8 s ≡ true
  IsText (literal_i64 n) = Unit {0}
  IsText (literal_f64 x) = Unit {0}
  IsText (literal_bool b) = Unit {0}
  IsText (binary l op r) = IsText l × IsText r
  IsText (negation t) = IsText t
  IsText (null_test t) = IsText t
  IsText (not_null_test t) = IsText t
  IsText (conjunction l r) = IsText l × IsText r
  IsText (disjunction l r) = IsText l × IsText r
  IsText (in_list t ts negated) = IsText t × AllText ts
  IsText (array_has l r) = IsText l × IsText r

  pub AllText : {X : External} → Filters X → Type 0
  AllText nil = Unit {0}
  AllText (cons t ts) = IsText t × AllText ts

-- The calls: a text is handed over in a string of the client's, a list in an array of its own, both freed afterwards.
unfoldable mutual
  pub build : {X : External} → Filter X → Cmd X Ptr
  build (column s) = do p ← alloc (text s); q ← lancedb_expr_column p; release p; pure q
  build (literal_string s) = do
    p ← alloc (text s)
    q ← lancedb_expr_literal_string p
    release p
    pure q
  build (literal_i64 n) = lancedb_expr_literal_i64 n
  build (literal_f64 x) = lancedb_expr_literal_f64 x
  build (literal_bool b) = lancedb_expr_literal_bool b
  build (binary l op r) = do p ← build l; q ← build r; lancedb_expr_binary p op q
  build (negation t) = do p ← build t; lancedb_expr_not p
  build (null_test t) = do p ← build t; lancedb_expr_is_null p
  build (not_null_test t) = do p ← build t; lancedb_expr_is_not_null p
  build (conjunction l r) = do p ← build l; q ← build r; lancedb_expr_and p q
  build (disjunction l r) = do p ← build l; q ← build r; lancedb_expr_or p q
  build (in_list t ts negated) = do
    p ← build t
    ps ← build_all ts
    l ← alloc (pointers (map some ps))
    q ← lancedb_expr_in_list p l (length ps) negated null
    release l
    pure q
  build (array_has l r) = do p ← build l; q ← build r; lancedb_expr_array_has p q null

  pub build_all : {X : External} → Filters X → Cmd X (List Ptr)
  build_all nil = pure []
  build_all (cons t ts) = do p ← build t; ps ← build_all ts; pure (p ∷ ps)

-- From `h` to `g` one box was added, with this expression, and nothing else changed.
pub record Added {X : External} (h : Heap X) (e : X.Expr) (a : ℕ) (g : Heap X) : Type 0 where
  pub fresh : h.mem a ≡ none
  pub holds : g.mem a ≡ some (expr e)
  pub same : (b : ℕ) → (b == a) ≡ false → g.mem b ≡ h.mem b
  pub wf : IsWf g

abbrev pub Built : {X : External} → Heap X → X.Expr → Ptr → Heap X → Type 0
Built h e null g = ⊥
Built h e (addr a) g = Added h e a g

-- The same for a list: a box for each expression.
pub record BuiltAll {X : External} (h : Heap X) (es : List X.Expr) (ps : List Ptr) (g : Heap X)
    : Type 0 where
  pub owned : AllOwned g ps (map some es)
  pub fresh : (b : ℕ) → has b ps ≡ true → h.mem b ≡ none
  pub same : (b : ℕ) → has b ps ≡ false → g.mem b ≡ h.mem b
  pub wf : IsWf g
