-- ===== src/Expr/InList.antt =====
-- lancedb_expr_in_list of src/expr.rs: the loop over the items, and who owns them afterwards.
use lancedb_c.Prelude.{
  ℕ, suc, ◌≡◌, refl, Bool, true, false, ◌||◌, Option, none, some, List, [], ◌∷◌, ◌++◌, map, ◌==◌,
  arith, length, Bool-cases, inl, inr, ◌∙◌, sym, ap,
}
use lancedb_c.Text.{codes}
use lancedb_c.External.{External}
use lancedb_c.Memory.{Ptr, null, addr, expr, pointers, Heap, ok, write, alloc}
use lancedb_c.Memory.Laws.{IsWf, write-IsWf, mem-write_ne, take_expr-ok, load_at-ok}
use lancedb_c.Memory.Returns
use lancedb_c.Memory.Returns.{Returns}
use lancedb_c.Error.Messages.{MessageSlot, Reported, set_invalid_argument_message-Reported}
use lancedb_c.Expr.{in_list_loop, lancedb_expr_in_list}
use lancedb_c.Memory.Arrays.{has, freed_all, mem-freed_all, freed_all-IsWf, Elements, Elements-map}
use mathlib.Core.List.{append_assoc, append-nil}
use lancedb_c.Expr.Consume.{Owned, produced}

-- Each handle is null or owns a box of its own.
abbrev pub AllOwned : {X : External} → Heap X → List Ptr → List (Option X.Expr) → Type 0
AllOwned h [] [] = Unit {0}
AllOwned h [] (o ∷ os) = ⊥
AllOwned h (p ∷ ps) [] = ⊥
AllOwned h (null ∷ ps) (o ∷ os) = (o ≡ none) × AllOwned h ps os
AllOwned h (addr a ∷ ps) (o ∷ os) = Owned h (addr a) o × (has a ps ≡ false) × AllOwned h ps os

-- the expressions that are there
abbrev pub somes {ℓ} : {A : Type ℓ} → List (Option A) → List A
somes [] = []
somes (none ∷ os) = somes os
somes (some a ∷ os) = a ∷ somes os

abbrev pub any_none {ℓ} : {A : Type ℓ} → List (Option A) → Bool
any_none [] = false
any_none (none ∷ os) = true
any_none (some a ∷ os) = any_none os

or-false : (b : Bool) → (b || false) ≡ b
or-false true = refl
or-false false = refl

or-true : (b : Bool) → (b || true) ≡ true
or-true true = refl
or-true false = refl

module _ {X : External} where
  AllOwned-write :
      (a : ℕ) (h : Heap X) (ps : List Ptr) (os : List (Option X.Expr))
      → has a ps ≡ false
      → AllOwned h ps os
      → AllOwned (write h a none) ps os
  unfolding write
  AllOwned-write a h [] [] out own = own
  AllOwned-write a h [] (o ∷ os) out own = own
  AllOwned-write a h (p ∷ ps) [] out own = absurd own
  AllOwned-write a h (null ∷ ps) (o ∷ os) out (e, own) = (e, AllOwned-write a h ps os out own)
  AllOwned-write a h (addr b ∷ ps) (none ∷ os) out (live, apart, own) = absurd live
  AllOwned-write a h (addr b ∷ ps) (some e ∷ os) out (live, apart, own) =
      (ground arith, apart, AllOwned-write a h ps os (ground arith) own)

  -- The loop takes over every box, in order, and notes whether a handle was null.
  pub in_list_loop_lem :
      (l i : ℕ) (cells : List (Option Ptr)) (ps : List Ptr) (os : List (Option X.Expr))
      (acc : List X.Expr) (has_null : Bool) (h : Heap X)
      → h.mem l ≡ some (pointers cells)
      → Elements cells i ps
      → has l ps ≡ false
      → AllOwned h ps os
      → in_list_loop (length ps) i (addr l) acc has_null h
        ≡ ok (acc ++ somes os, has_null || any_none os) (freed_all ps h)
  unfolding in_list_loop
  in_list_loop_lem l i cells [] [] acc has_null h array at out own =
      rw (append-nil acc, or-false has_null)
  in_list_loop_lem l i cells [] (o ∷ os) acc has_null h array at out own = absurd own
  in_list_loop_lem l i cells (p ∷ ps) [] acc has_null h array at out own = absurd own
  in_list_loop_lem l i cells (null ∷ ps) (none ∷ os) acc has_null h array (at, rest) out (e, own) =
      rw (load_at-ok h l i _ null array at) (
        in_list_loop_lem l (suc i) cells ps os acc true h array rest out own
        ∙ ap (λ b. ok (acc ++ somes os, b) (freed_all ps h)) (sym (or-true has_null)))
  in_list_loop_lem l i cells (null ∷ ps) (some e ∷ os) acc has_null h array (at, rest) out
        (e', own) =
      absurd (cc)
  in_list_loop_lem l i cells (addr a ∷ ps) (none ∷ os) acc has_null h array at out
        (live, apart, own) =
      absurd live
  in_list_loop_lem l i cells (addr a ∷ ps) (some e ∷ os) acc has_null h array (at, rest) out
        (live, apart, own) =
      rw (load_at-ok h l i _ (addr a) array at) (
        rw (take_expr-ok h a e live) (
          in_list_loop_lem l (suc i) cells ps os (acc ++ (e ∷ [])) has_null (write h a none)
            (mem-write_ne h a l none (ground arith) ∙ array) rest (ground arith)
            (AllOwned-write a h ps os apart own)
          ∙ ap (λ es. ok (es, has_null || any_none os) (freed_all ps (write h a none)))
              (append_assoc acc (e ∷ []) (somes os))))

  pub AllOwned-live :
      (ps : List Ptr) (os : List (Option X.Expr)) (h : Heap X) (b : ℕ)
      → AllOwned h ps os
      → has b ps ≡ true
      → (e : X.Expr) × (h.mem b ≡ some (expr e))
  AllOwned-live [] os h b own in_ps = absurd (cc)
  AllOwned-live (p ∷ ps) [] h b own in_ps = absurd own
  AllOwned-live (null ∷ ps) (o ∷ os) h b (_, own) in_ps = AllOwned-live ps os h b own in_ps
  AllOwned-live (addr a ∷ ps) (none ∷ os) h b (live, _, own) in_ps = absurd live
  AllOwned-live (addr a ∷ ps) (some e ∷ os) h b (live, _, own) in_ps = elim (Bool-cases (b == a)) [
    | inl same ↦ (e, ground arith)
    | inr other ↦ AllOwned-live ps os h b own (ground arith)
  ]

  -- A variable of the caller is none of the boxes.
  freed_all-MessageSlot :
      (ps : List Ptr) (os : List (Option X.Expr)) (h : Heap X) (em : Ptr)
      → AllOwned h ps os
      → MessageSlot h em
      → MessageSlot (freed_all ps h) em
  freed_all-MessageSlot ps os h null own slot = tt
  freed_all-MessageSlot ps os h (addr m) own (old, live) = elim (Bool-cases (has m ps)) [
    | inl in_ps ↦ let (e, live') = AllOwned-live ps os h m own in_ps in absurd (cc)
    | inr out ↦ (old, rw (mem-freed_all ps h m, out) live)
  ]

  MessageSlot-write :
      (a : ℕ) (h : Heap X) (e : X.Expr) (em : Ptr)
      → h.mem a ≡ some (expr e)
      → MessageSlot h em
      → MessageSlot (write h a none) em
  unfolding write
  MessageSlot-write a h e null live slot = tt
  MessageSlot-write a h e (addr m) live (old, at) = (old, ground arith)

module _ {X : External} (h : Heap X) (a l : ℕ) (e : X.Expr) (ps : List Ptr)
    (os : List (Option X.Expr)) (negated : Bool) (em : Ptr) (live : h.mem a ≡ some (expr e))
    (array : h.mem l ≡ some (pointers (map some ps))) (a_l : (l == a) ≡ false)
    (l_out : has l ps ≡ false) (a_out : has a ps ≡ false) (own : AllOwned h ps os) where
  in_list_loop_after :
      in_list_loop (length ps) 0 (addr l) [] false (write h a none)
      ≡ ok (somes os, any_none os) (freed_all ps (write h a none))
  in_list_loop_after =
      in_list_loop_lem l 0 (map some ps) ps os [] false (write h a none)
        (mem-write_ne h a l none a_l ∙ array) (Elements-map ps) l_out
        (AllOwned-write a h ps os a_out own)

  -- Where the tested expression and the items have boxes of their own, apart from the array, and no item is null, the list
  -- builder frees the boxes of the tested expression and of every item, and returns a
  -- new box with the membership test over the items in their order.
  pub lancedb_expr_in_list-produced :
      any_none os ≡ false
      → lancedb_expr_in_list (addr a) (addr l) (length ps) negated em h
        ≡ produced (some (X.in_list_expr e (somes os) negated)) (freed_all ps (write h a none))
  unfolding lancedb_expr_in_list alloc
  lancedb_expr_in_list-produced all = rw (take_expr-ok h a e live, in_list_loop_after, all)

  -- Where the tested expression and the items that are not null have boxes of their own, apart from the array, and some item
  -- is null, the list builder still frees the box of the tested expression and of every item. It returns null and
  -- delivers the message of an invalid argument, or none for a null place.
  pub lancedb_expr_in_list-null_item :
      any_none os ≡ true
      → MessageSlot h em
      → IsWf h
      → Returns
          (λ p g.
            (p ≡ null) × Reported (codes "Invalid argument") em (freed_all ps (write h a none)) g)
          (lancedb_expr_in_list (addr a) (addr l) (length ps) negated em h)
  unfolding lancedb_expr_in_list
  lancedb_expr_in_list-null_item missing slot wf =
      rw (take_expr-ok h a e live, in_list_loop_after, missing)
        (Returns.bind
          (λ _ g. Reported (codes "Invalid argument") em (freed_all ps (write h a none)) g) _ _ _
          (set_invalid_argument_message-Reported _ em
            (freed_all-MessageSlot ps os (write h a none) em (AllOwned-write a h ps os a_out own)
              (MessageSlot-write a h e em live slot))
            (freed_all-IsWf ps (write h a none) (write-IsWf a _ none live wf)))
          λ _ g done. (refl, done))
