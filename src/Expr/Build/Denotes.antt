-- ===== src/Expr/Build/Denotes.antt =====
-- The client gets the expression of its tree.
use lancedb_c.Prelude.{ℕ, ℤ, Bool, true, ◌≡◌, refl, ◌∷◌, [], some, map, length}
use lancedb_c.Text.{Bytes, is_utf8}
use lancedb_c.External.{External, Udf}
use lancedb_c.Memory.{
  Ptr, null, addr, expr, text, Heap, ok, push, alloc, ◌>>=◌, ◌>>◌, pure, pointers, release,
}
use lancedb_c.Memory.Laws.{IsWf, load_str-some}
use lancedb_c.Memory.Returns
use lancedb_c.Memory.Returns.{Returns}
use lancedb_c.Expr.{
  operator_of, lancedb_expr_column, lancedb_expr_literal_string, lancedb_expr_literal_i64,
  lancedb_expr_literal_f64, lancedb_expr_literal_bool, lancedb_expr_binary, lancedb_expr_not,
  lancedb_expr_is_null, lancedb_expr_is_not_null, lancedb_expr_and, lancedb_expr_or,
  lancedb_expr_array_has, lancedb_expr_in_list,
}
use lancedb_c.Expr.Consume.{
  lancedb_expr_binary-produced, lancedb_expr_and-produced, lancedb_expr_or-produced,
  lancedb_expr_array_has-produced, lancedb_expr_not-produced, lancedb_expr_is_null-produced,
  lancedb_expr_is_not_null-produced,
}
use lancedb_c.Expr.Build.{
  Filter, column, literal_string, literal_i64, literal_f64, literal_bool, binary, negation,
  null_test, not_null_test, conjunction, disjunction, in_list, array_has, Filters, nil, cons,
  denote, denote_all, IsText, AllText, build, build_all, Added, Built, BuiltAll,
}
use lancedb_c.Expr.Build.Steps.{
  alloc-Built, unary_call, binary_call, text_call, BuiltAll-nil, BuiltAll-cons, in_list_call,
}

module _ {X : External} where
  column_call :
      (s : Bytes)
      → is_utf8 s ≡ true
      → (k : Heap X) (a : ℕ) → k.mem a ≡ some (text s)
      → lancedb_expr_column (addr a) k ≡ ok (addr k.next) (push k (expr (X.col s)))
  unfolding lancedb_expr_column alloc
  column_call s valid k a live = rw (load_str-some k a s live valid)

  string_call :
      (s : Bytes)
      → is_utf8 s ≡ true
      → (k : Heap X) (a : ℕ) → k.mem a ≡ some (text s)
      → lancedb_expr_literal_string (addr a) k ≡ ok (addr k.next) (push k (expr (X.lit_string s)))
  unfolding lancedb_expr_literal_string alloc
  string_call s valid k a live = rw (load_str-some k a s live valid)

  module _ (h : Heap X) where
    i64_call : (n : ℤ) → IsWf h → Returns (Built h (X.lit_i64 n)) (lancedb_expr_literal_i64 n h)
    unfolding lancedb_expr_literal_i64 alloc
    i64_call n wf = alloc-Built h _ wf

    f64_call : (x : X.F64) → IsWf h → Returns (Built h (X.lit_f64 x)) (lancedb_expr_literal_f64 x h)
    unfolding lancedb_expr_literal_f64 alloc
    f64_call x wf = alloc-Built h _ wf

    bool_call :
        (b : Bool) → IsWf h → Returns (Built h (X.lit_bool b)) (lancedb_expr_literal_bool b h)
    unfolding lancedb_expr_literal_bool alloc
    bool_call b wf = alloc-Built h _ wf

module _ {X : External} (t : Filter X) (ts : Filters X) where
  list_call :
      (negated : Bool) (h : Heap X)
      → Returns (Built h (denote t)) (build t h)
      → ((g : Heap X) → IsWf g → Returns (BuiltAll g (denote_all ts)) (build_all ts g))
      → Returns (Built h (denote (in_list t ts negated))) (build (in_list t ts negated) h)
  unfolding build denote
  list_call negated h first rest =
      Returns.bind (Built h (denote t)) _ (build t h) _ first λ p g built. then_list p g built
    where
      then_list :
          (p : Ptr) (g : Heap X)
          → Built h (denote t) p g
          → Returns (Built h (X.in_list_expr (denote t) (denote_all ts) negated)) (
              (build_all ts >>= λ ps. alloc (pointers (map some ps)) >>= λ l.
              lancedb_expr_in_list p l (length ps) negated null >>= λ q. release l >> pure q)
                g)
      then_list null g built = absurd built
      then_list (addr a) g built =
          Returns.bind (BuiltAll g (denote_all ts)) _ (build_all ts g) _ (rest g built.wf)
            λ ps k all. in_list_call h g k (denote t) (denote_all ts) a ps negated built all

  cons_call :
      (h : Heap X)
      → Returns (Built h (denote t)) (build t h)
      → ((g : Heap X) → IsWf g → Returns (BuiltAll g (denote_all ts)) (build_all ts g))
      → Returns (BuiltAll h (denote_all (cons t ts))) (build_all (cons t ts) h)
  unfolding build denote
  cons_call h first rest =
      Returns.bind (Built h (denote t)) _ (build t h) _ first λ p g built. then_rest p g built
    where
      then_rest :
          (p : Ptr) (g : Heap X)
          → Built h (denote t) p g
          → Returns
              (BuiltAll h (denote t ∷ denote_all ts))
              ((build_all ts >>= λ ps. pure (p ∷ ps)) g)
      then_rest null g built = absurd built
      then_rest (addr a) g built =
          Returns.bind (BuiltAll g (denote_all ts)) _ (build_all ts g) _ (rest g built.wf)
            λ ps k all. BuiltAll-cons h g k (denote t) (denote_all ts) a ps built all

mutual
  unfolding build denote IsText

  build-Built :
      {X : External} (t : Filter X) (h : Heap X)
      → IsText t
      → IsWf h
      → Returns (Built h (denote t)) (build t h)
  build-Built {X} (column s) h ok_text wf =
      text_call lancedb_expr_column X.col s (column_call s ok_text) h wf
  build-Built {X} (literal_string s) h ok_text wf =
      text_call lancedb_expr_literal_string X.lit_string s (string_call s ok_text) h wf
  build-Built {X} (literal_i64 n) h _ wf = i64_call h n wf
  build-Built {X} (literal_f64 x) h _ wf = f64_call h x wf
  build-Built {X} (literal_bool b) h _ wf = bool_call h b wf
  build-Built {X} (binary l op r) h (tl, tr) wf =
      binary_call (λ p q. lancedb_expr_binary p op q) (λ d d'. X.binary_expr d (operator_of op) d')
        (λ k a b d d' live live' apart.
          lancedb_expr_binary-produced k (addr a) (addr b) (some d) (some d') live live' apart op)
        (build l) (build r) (denote l) (denote r) h (build-Built l h tl wf)
        (λ g wf'. build-Built r g tr wf')
  build-Built {X} (negation t) h tt' wf =
      unary_call lancedb_expr_not X.not_expr lancedb_expr_not-produced (build t) (denote t) h
        (build-Built t h tt' wf)
  build-Built {X} (null_test t) h tt' wf =
      unary_call lancedb_expr_is_null X.is_null_expr lancedb_expr_is_null-produced (build t)
        (denote t) h (build-Built t h tt' wf)
  build-Built {X} (not_null_test t) h tt' wf =
      unary_call lancedb_expr_is_not_null X.is_not_null_expr lancedb_expr_is_not_null-produced
        (build t) (denote t) h (build-Built t h tt' wf)
  build-Built {X} (conjunction l r) h (tl, tr) wf =
      binary_call lancedb_expr_and X.and_expr
        (λ k a b d d'. lancedb_expr_and-produced k (addr a) (addr b) (some d) (some d')) (build l)
        (build r) (denote l) (denote r) h (build-Built l h tl wf) (λ g wf'. build-Built r g tr wf')
  build-Built {X} (disjunction l r) h (tl, tr) wf =
      binary_call lancedb_expr_or X.or_expr
        (λ k a b d d'. lancedb_expr_or-produced k (addr a) (addr b) (some d) (some d')) (build l)
        (build r) (denote l) (denote r) h (build-Built l h tl wf) (λ g wf'. build-Built r g tr wf')
  build-Built {X} (in_list t ts negated) h (tl, tr) wf =
      list_call t ts negated h (build-Built t h tl wf) (λ g wf'. build_all-BuiltAll ts g tr wf')
  build-Built {X} (array_has l r) h (tl, tr) wf =
      binary_call (λ p q. lancedb_expr_array_has p q null)
        (λ d d'. X.scalar_function Udf.array_has (d ∷ d' ∷ []))
        (λ k a b d d' live live' apart.
          lancedb_expr_array_has-produced k (addr a) (addr b) (some d) (some d') live live' apart d
            d' refl refl null)
        (build l) (build r) (denote l) (denote r) h (build-Built l h tl wf)
        (λ g wf'. build-Built r g tr wf')

  build_all-BuiltAll :
      {X : External} (ts : Filters X) (h : Heap X)
      → AllText ts
      → IsWf h
      → Returns (BuiltAll h (denote_all ts)) (build_all ts h)
  build_all-BuiltAll nil h _ wf = BuiltAll-nil h wf
  build_all-BuiltAll (cons t ts) h (this, rest) wf =
      cons_call t ts h (build-Built t h this wf) (λ g wf'. build_all-BuiltAll ts g rest wf')

-- Every tree with UTF-8 texts is built without a fault: the client gets one new box with the expression of the tree, and
-- every other address holds what it held before, so that no part of the tree, no string and no array is left behind.
pub build-denote :
    {X : External} (t : Filter X) (h : Heap X)
    → IsText t
    → IsWf h
    → Returns (λ p g. (a : ℕ) × (p ≡ addr a) × Added h (denote t) a g) (build t h)
build-denote t h texts wf =
    Returns.mono (Built h (denote t)) _ (build t h) (build-Built t h texts wf)
      λ p g built. found p g built
  where
    found :
        (p : Ptr) (g : Heap _)
        → Built h (denote t) p g
        → (a : ℕ) × (p ≡ addr a) × Added h (denote t) a g
    found null g built = absurd built
    found (addr a) g built = (a, refl, built)
