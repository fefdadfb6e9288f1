-- ===== src/Expr.antt =====
-- src/expr.rs: the functions that build filter expressions. A handle is a `Box<LanceDBExpr>`; what the
-- builders consume is taken from memory on every path, as `Box::from_raw` does.
pub mod Build
pub mod Consume
pub mod InList
use lancedb_c.Prelude.{
  ℕ, zero, suc, ℤ, Bool, true, false, Option, none, some, List, [], ◌∷◌, ◌++◌, if◌then◌else◌,
}
use lancedb_c.External.{External, Operator, Udf}
use lancedb_c.Memory.{
  Ptr, null, addr, expr, Cmd, pure, ◌>>=◌, ◌>>◌, alloc, load_str, load_expr, take_expr, load_at,
}
use lancedb_c.Error.{set_invalid_argument_message}

pub data LanceDbBinaryOp : Type 0 where
  eq not_eq lt lt_eq gt gt_eq and or plus minus multiply divide modulo : LanceDbBinaryOp

-- `From<LanceDbBinaryOp> for Operator`
unfoldable pub operator_of : LanceDbBinaryOp → Operator
operator_of eq = Operator.eq
operator_of not_eq = Operator.not_eq
operator_of lt = Operator.lt
operator_of lt_eq = Operator.lt_eq
operator_of gt = Operator.gt
operator_of gt_eq = Operator.gt_eq
operator_of and = Operator.and
operator_of or = Operator.or
operator_of plus = Operator.plus
operator_of minus = Operator.minus
operator_of multiply = Operator.multiply
operator_of divide = Operator.divide
operator_of modulo = Operator.modulo

-- the discriminant, as C sees it
unfoldable pub binary_op_code : LanceDbBinaryOp → ℕ
binary_op_code eq = 0
binary_op_code not_eq = 1
binary_op_code lt = 2
binary_op_code lt_eq = 3
binary_op_code gt = 4
binary_op_code gt_eq = 5
binary_op_code and = 6
binary_op_code or = 7
binary_op_code plus = 8
binary_op_code minus = 9
binary_op_code multiply = 10
binary_op_code divide = 11
binary_op_code modulo = 12

module _ {X : External} where
  unfoldable pub lancedb_expr_column : Ptr → Cmd X Ptr
  lancedb_expr_column null = pure null
  lancedb_expr_column (addr a) = do
    o ← load_str (addr a)
    elim o [ none ↦ pure null | some name ↦ alloc (expr (X.col name)) ]

  unfoldable pub lancedb_expr_literal_string : Ptr → Cmd X Ptr
  lancedb_expr_literal_string null = pure null
  lancedb_expr_literal_string (addr a) = do
    o ← load_str (addr a)
    elim o [ none ↦ pure null | some value ↦ alloc (expr (X.lit_string value)) ]

  unfoldable pub lancedb_expr_literal_i64 : ℤ → Cmd X Ptr
  lancedb_expr_literal_i64 value = alloc (expr (X.lit_i64 value))

  unfoldable pub lancedb_expr_literal_f64 : X.F64 → Cmd X Ptr
  lancedb_expr_literal_f64 value = alloc (expr (X.lit_f64 value))

  unfoldable pub lancedb_expr_literal_bool : Bool → Cmd X Ptr
  lancedb_expr_literal_bool value = alloc (expr (X.lit_bool value))

  -- `if !p.is_null() { Some(Box::from_raw(p).inner) } else { None }`
  unfoldable pub take_if_some : Ptr → Cmd X (Option X.Expr)
  take_if_some null = pure none
  take_if_some (addr a) = do e ← take_expr (addr a); pure (some e)

  -- `let (Some(left), Some(right)) = (left, right) else { return null }`, and the box of the result
  unfoldable pub alloc_of_both :
      (X.Expr → X.Expr → X.Expr) → Option X.Expr → Option X.Expr → Cmd X Ptr
  alloc_of_both f none r = pure null
  alloc_of_both f (some l) none = pure null
  alloc_of_both f (some l) (some r) = alloc (expr (f l r))

  unfoldable pub lancedb_expr_binary : Ptr → LanceDbBinaryOp → Ptr → Cmd X Ptr
  lancedb_expr_binary left op right = do
    left_expr ← take_if_some left
    right_expr ← take_if_some right
    alloc_of_both (λ l r. X.binary_expr l (operator_of op) r) left_expr right_expr

  unfoldable pub lancedb_expr_not : Ptr → Cmd X Ptr
  lancedb_expr_not null = pure null
  lancedb_expr_not (addr a) = do inner ← take_expr (addr a); alloc (expr (X.not_expr inner))

  unfoldable pub lancedb_expr_is_null : Ptr → Cmd X Ptr
  lancedb_expr_is_null null = pure null
  lancedb_expr_is_null (addr a) = do inner ← take_expr (addr a); alloc (expr (X.is_null_expr inner))

  unfoldable pub lancedb_expr_is_not_null : Ptr → Cmd X Ptr
  lancedb_expr_is_not_null null = pure null
  lancedb_expr_is_not_null (addr a) = do
    inner ← take_expr (addr a)
    alloc (expr (X.is_not_null_expr inner))

  unfoldable pub lancedb_expr_and : Ptr → Ptr → Cmd X Ptr
  lancedb_expr_and left right = do
    left_expr ← take_if_some left
    right_expr ← take_if_some right
    alloc_of_both X.and_expr left_expr right_expr

  unfoldable pub lancedb_expr_or : Ptr → Ptr → Cmd X Ptr
  lancedb_expr_or left right = do
    left_expr ← take_if_some left
    right_expr ← take_if_some right
    alloc_of_both X.or_expr left_expr right_expr

  -- The loop over the items: `n` rounds from index `i`. Null items are noted and passed over.
  unfoldable pub in_list_loop : ℕ → (i : ℕ) → Ptr → List X.Expr → Bool → Cmd X (List X.Expr × Bool)
  in_list_loop zero i list list_exprs has_null = pure (list_exprs, has_null)
  in_list_loop (suc n) i list list_exprs has_null = do
    item ← load_at list i
    elim item [
      | null ↦ in_list_loop n (suc i) list list_exprs true
      | addr a ↦ do
        e ← take_expr (addr a)
        in_list_loop n (suc i) list (list_exprs ++ (e ∷ [])) has_null
    ]

  unfoldable pub lancedb_expr_in_list : Ptr → Ptr → ℕ → Bool → Ptr → Cmd X Ptr
  lancedb_expr_in_list null list list_len negated error_message = do
    set_invalid_argument_message error_message
    pure null
  lancedb_expr_in_list (addr a) null list_len negated error_message = do
    take_expr (addr a)
    set_invalid_argument_message error_message
    pure null
  lancedb_expr_in_list (addr a) (addr l) list_len negated error_message = do
    inner ← take_expr (addr a)
    (list_exprs, has_null) ← in_list_loop list_len 0 (addr l) [] false
    elim has_null [
      | true ↦ do set_invalid_argument_message error_message; pure null
      | false ↦ alloc (expr (X.in_list_expr inner list_exprs negated))
    ]

  unfoldable pub array_has_of_both : Option X.Expr → Option X.Expr → Ptr → Cmd X Ptr
  array_has_of_both (some arr) (some val) error_message =
      alloc (expr (X.scalar_function Udf.array_has (arr ∷ val ∷ [])))
  array_has_of_both _ _ error_message = do set_invalid_argument_message error_message; pure null

  unfoldable pub lancedb_expr_array_has : Ptr → Ptr → Ptr → Cmd X Ptr
  lancedb_expr_array_has array_expr value_expr error_message = do
    arr ← take_if_some array_expr
    val ← take_if_some value_expr
    array_has_of_both arr val error_message

  unfoldable pub lancedb_expr_clone : Ptr → Cmd X Ptr
  lancedb_expr_clone null = pure null
  lancedb_expr_clone (addr a) = do e ← load_expr (addr a); alloc (expr e)

  unfoldable pub lancedb_expr_free : Ptr → Cmd X (Unit {0})
  lancedb_expr_free null = pure tt
  lancedb_expr_free (addr a) = do take_expr (addr a); pure tt
