-- ===== src/Expr/Consume.antt =====
-- The builders of src/expr.rs that take their arguments over: what they return and what they free.
use lancedb_c.Prelude.{◌≡◌, refl, false, Option, none, some, [], ◌∷◌, ◌==◌, arith, ℕ}
use lancedb_c.External.{External, Udf}
use lancedb_c.Memory.{Ptr, null, addr, expr, Heap, Run, ok, write, push, alloc}
use lancedb_c.Memory.Laws.{take_expr-ok, load_expr-ok}
use lancedb_c.Memory.Arrays.{freed}
use lancedb_c.Expr.{
  LanceDbBinaryOp, operator_of, alloc_of_both, array_has_of_both, take_if_some, lancedb_expr_binary,
  lancedb_expr_and, lancedb_expr_or, lancedb_expr_not, lancedb_expr_is_null,
  lancedb_expr_is_not_null, lancedb_expr_array_has, lancedb_expr_clone, lancedb_expr_free,
}

-- The pointer is null and owns nothing, or it owns a box with the expression.
abbrev pub Owned : {X : External} → Heap X → Ptr → Option X.Expr → Type 0
Owned h null none = Unit {0}
Owned h null (some e) = ⊥
Owned h (addr a) none = ⊥
Owned h (addr a) (some e) = h.mem a ≡ some (expr e)

-- Two handles are not the same box.
abbrev pub Apart : Ptr → Ptr → Type 0
Apart null q = Unit {0}
Apart (addr a) null = Unit {0}
Apart (addr a) (addr b) = (a == b) ≡ false

abbrev pub both : {A : Type 0} → (A → A → A) → Option A → Option A → Option A
both f (some l) (some r) = some (f l r)
both f (some l) none = none
both f none r = none

module _ {X : External} where
  -- a new box for a result, or null for none
  abbrev pub produced : Option X.Expr → Heap X → Run X Ptr
  produced none h = ok null h
  produced (some e) h = ok (addr h.next) (push h (expr e))

module _ {X : External} (h : Heap X) where
  pub take_if_some-Owned :
      (p : Ptr) (o : Option X.Expr) → Owned h p o → take_if_some p h ≡ ok o (freed p h)
  unfolding take_if_some
  take_if_some-Owned null none own = refl
  take_if_some-Owned null (some e) own = absurd own
  take_if_some-Owned (addr a) none own = absurd own
  take_if_some-Owned (addr a) (some e) own = rw (take_expr-ok h a e own)

  Owned-freed : (p q : Ptr) (o : Option X.Expr) → Apart p q → Owned h q o → Owned (freed p h) q o
  unfolding write
  Owned-freed null q o apart own = own
  Owned-freed (addr a) null o apart own = own
  Owned-freed (addr a) (addr b) none apart own = own
  Owned-freed (addr a) (addr b) (some e) apart own = ground arith

  alloc_of_both-produced :
      (f : X.Expr → X.Expr → X.Expr) (l r : Option X.Expr)
      → alloc_of_both f l r h ≡ produced (both f l r) h
  unfolding alloc_of_both alloc
  alloc_of_both-produced f none r = refl
  alloc_of_both-produced f (some l) none = refl
  alloc_of_both-produced f (some l) (some r) = refl

module _ {X : External} (h : Heap X) (left right : Ptr) (l r : Option X.Expr) (own : Owned h left l)
    (own' : Owned h right r) (apart : Apart left right) where
  take_second : take_if_some right (freed left h) ≡ ok r (freed right (freed left h))
  take_second = take_if_some-Owned (freed left h) right r (Owned-freed h left right r apart own')

  -- With two handles that are each null or own a box, not the same one, a binary builder frees both boxes on every path.
  -- The result is a new box with the binary expression of the two, under the operator that the code stands for, or
  -- null if a handle was null.
  pub lancedb_expr_binary-produced :
      (op : LanceDbBinaryOp)
      → lancedb_expr_binary left op right h
        ≡ produced
            (both (λ a b. X.binary_expr a (operator_of op) b) l r)
            (freed right (freed left h))
  unfolding lancedb_expr_binary
  lancedb_expr_binary-produced op =
      rw (take_if_some-Owned h left l own, take_second) (alloc_of_both-produced _ _ l r)

  -- So does the builder of a conjunction.
  pub lancedb_expr_and-produced :
      lancedb_expr_and left right h ≡ produced (both X.and_expr l r) (freed right (freed left h))
  unfolding lancedb_expr_and
  lancedb_expr_and-produced =
      rw (take_if_some-Owned h left l own, take_second) (alloc_of_both-produced _ _ l r)

  -- And that of a disjunction.
  pub lancedb_expr_or-produced :
      lancedb_expr_or left right h ≡ produced (both X.or_expr l r) (freed right (freed left h))
  unfolding lancedb_expr_or
  lancedb_expr_or-produced =
      rw (take_if_some-Owned h left l own, take_second) (alloc_of_both-produced _ _ l r)

  -- And that of a membership test, which for a missing argument reports an invalid argument besides.
  pub lancedb_expr_array_has-produced :
      (arr val : X.Expr)
      → l ≡ some arr
      → r ≡ some val
      → (em : Ptr)
      → lancedb_expr_array_has left right em h
        ≡ produced
            (some (X.scalar_function Udf.array_has (arr ∷ val ∷ [])))
            (freed right (freed left h))
  unfolding lancedb_expr_array_has array_has_of_both alloc
  lancedb_expr_array_has-produced arr val el er em =
      rw (take_if_some-Owned h left l own, take_second, el, er)

module _ {X : External} (h : Heap X) (a : ℕ) (e : X.Expr) (live : h.mem a ≡ some (expr e)) where
  -- A unary builder frees its argument's box and returns a new one.
  pub lancedb_expr_not-produced :
      lancedb_expr_not (addr a) h ≡ produced (some (X.not_expr e)) (write h a none)
  unfolding lancedb_expr_not alloc
  lancedb_expr_not-produced = rw (take_expr-ok h a e live)

  pub lancedb_expr_is_null-produced :
      lancedb_expr_is_null (addr a) h ≡ produced (some (X.is_null_expr e)) (write h a none)
  unfolding lancedb_expr_is_null alloc
  lancedb_expr_is_null-produced = rw (take_expr-ok h a e live)

  pub lancedb_expr_is_not_null-produced :
      lancedb_expr_is_not_null (addr a) h ≡ produced (some (X.is_not_null_expr e)) (write h a none)
  unfolding lancedb_expr_is_not_null alloc
  lancedb_expr_is_not_null-produced = rw (take_expr-ok h a e live)

  pub lancedb_expr_clone-produced : lancedb_expr_clone (addr a) h ≡ produced (some e) h
  unfolding lancedb_expr_clone alloc
  lancedb_expr_clone-produced = rw (load_expr-ok h a e live)

  pub lancedb_expr_free-freed : lancedb_expr_free (addr a) h ≡ ok tt (write h a none)
  unfolding lancedb_expr_free
  lancedb_expr_free-freed = rw (take_expr-ok h a e live)
