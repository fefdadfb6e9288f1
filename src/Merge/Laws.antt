-- ===== src/Merge/Laws.antt =====
-- lancedb_table_merge_insert against the merge that its arguments describe.
use lancedb_c.Prelude.{
  suc-ne-zero, ℕ, zero, suc, ℤ, pos, negsuc, subst, ap, ◌∙◌, ◌≡◌, refl, Bool, true, false, Option,
  none, some, List, [], ◌∷◌, length, arith, if◌then◌else◌, Bool-cases, inl, inr,
}
use mathlib.Core.Option
use lancedb_c.Text.{Bytes, is_utf8}
use lancedb_c.External.{External}
use lancedb_c.Memory.{
  Ptr, null, addr, expr, table, pointers, reader, merge_config, SingleBatchReader,
  LanceDbMergeInsertConfig, Heap, ok, write,
}
use lancedb_c.Memory.Laws.{
  take_reader-ok, load_merge_config-ok, load_expr-ok, load_table-ok, load_str-some, load_str-none,
}
use lancedb_c.Memory.Arrays.{Elements}
use lancedb_c.Columns.Laws.{Strings, Strings-kept, all_valid, prefixed, read_columns_lem}
use lancedb_c.Error.{LanceDbError, invalid_argument, set_invalid_argument_message}
use lancedb_c.Database.Delete.{OptionalTable}
use lancedb_c.Database.Requests.{outcome}
use lancedb_c.Database.Requests.Laws.{settle-outcome}
use lancedb_c.Reader.{contents}
use lancedb_c.Merge.{
  non_zero, Condition, update_with, configure, condition_in, condition_if, condition_of,
  builder_for, merge_columns, merge_on, lancedb_table_merge_insert,
}

-- An integer of C as a truth value.
abbrev pub is_set : ℤ → Bool
is_set (pos zero) = false
is_set _ = true

pub non_zero-is_set : (n : ℤ) → non_zero n ≡ is_set n
unfolding non_zero
non_zero-is_set (pos zero) = refl
non_zero-is_set (pos (suc n)) = refl
non_zero-is_set (negsuc n) = refl

-- A configuration without pointers.
pub record MergeConfig (X : External) : Type 0 where
  pub update : Bool
  pub insert : Bool
  pub sql : Option Bytes
  pub condition : Option X.Expr

-- The pointer is null, or to an expression.
abbrev pub OptionalExpr : {X : External} → Heap X → Ptr → Option X.Expr → Type 0
OptionalExpr h null none = Unit {0}
OptionalExpr h null (some e) = ⊥
OptionalExpr h (addr a) none = ⊥
OptionalExpr h (addr a) (some e) = h.mem a ≡ some (expr e)

-- The pointer is null, or to a structure with these settings.
abbrev pub Configured : {X : External} → Heap X → Ptr → Option (MergeConfig X) → Type 0
Configured h null none = Unit {0}
Configured h null (some m) = ⊥
Configured h (addr a) none = ⊥
Configured h (addr a) (some m) =
    (cfg : LanceDbMergeInsertConfig) × (h.mem a ≡ some (merge_config cfg))
    × (is_set cfg.when_matched_update_all ≡ m.update)
    × (is_set cfg.when_not_matched_insert_all ≡ m.insert)
    × Strings h (cfg.when_matched_update_all_condition ∷ []) (m.sql ∷ [])
    × OptionalExpr h cfg.when_matched_update_all_expr m.condition

-- The condition of the updates: one of the two kinds, with a text in UTF-8.
abbrev pub condition_among :
    {E : Type 0} → Option Bytes → Option E → Option (Option Bytes × Option E)
condition_among none none = some (none, none)
condition_among none (some e) = some (none, some e)
condition_among (some s) none = if is_utf8 s then some (some s, none) else none
condition_among (some s) (some e) = none

-- The updates of rows that match: all of them, or those that satisfy a condition, which is a text in UTF-8 or an expression and
-- not both.
abbrev pub updating :
    (X : External) → Option Bytes → Option X.Expr → X.MergeBuilder → Option X.MergeBuilder
updating X none none b = some (X.when_matched_update_all b none)
updating X none (some e) b = some (X.when_matched_update_all_expr b e)
updating X (some s) none b = if is_utf8 s then some (X.when_matched_update_all b (some s)) else none
updating X (some s) (some e) b = none

-- The builder that a configuration asks for, unless it is refused: the updates come first, and a condition without updates is
-- not looked at. Without a configuration it updates and inserts.
abbrev pub planned :
    (X : External) → Option (MergeConfig X) → X.MergeBuilder → Option X.MergeBuilder
planned X none b = some (X.when_not_matched_insert_all (X.when_matched_update_all b none))
planned X (some m) b =
    Option.map (λ u. if m.insert then X.when_not_matched_insert_all u else u)
      (if m.update then updating X m.sql m.condition b else some b)

configure-planned :
    (X : External) (u i : Bool) (s : Option Bytes) (e : Option X.Expr) (b : X.MergeBuilder)
    → Option.map
        (λ condition. configure X u i condition b)
        (if u then condition_among s e else some (none, none))
      ≡ planned X (some (record { update = u; insert = i; sql = s; condition = e })) b
unfolding configure update_with
configure-planned X false false s e b = refl
configure-planned X false true s e b = refl
configure-planned X true false none none b = refl
configure-planned X true true none none b = refl
configure-planned X true false none (some e) b = refl
configure-planned X true true none (some e) b = refl
configure-planned X true false (some s) (some e) b = refl
configure-planned X true true (some s) (some e) b = refl
configure-planned X true i (some s) none b = elim (Bool-cases (is_utf8 s)) [
  | inl valid ↦
      rw valid
        (elim i
          as (λ i.
            Option.map (λ condition. configure X true i condition b) (some (some s, none))
            ≡ Option.map (λ u. if i then X.when_not_matched_insert_all u else u)
                (some (X.when_matched_update_all b (some s)))) [ true ↦ refl | false ↦ refl ])
  | inr broken ↦ rw broken refl
]

abbrev pub executed :
    (X : External)
    → X.World
    → X.ArrowSchema
    → List X.Batch
    → Option X.MergeBuilder
    → LanceDbError × X.World
executed X w sc batches none = (invalid_argument, w)
executed X w sc batches (some b) = outcome (X.execute_merge w b sc batches)

-- The merge of a table with some batches on columns: refused without columns, or for names that are not all there in UTF-8.
abbrev pub merged_on :
    (X : External)
    → X.World
    → X.Table
    → SingleBatchReader X
    → Option (List Bytes)
    → Option (MergeConfig X)
    → LanceDbError × X.World
merged_on X w tbl r none m = (invalid_argument, w)
merged_on X w tbl r (some names) m =
    executed X w r.schema (contents r) (planned X m (X.merge_insert tbl names))

abbrev pub merged :
    (X : External)
    → X.World
    → X.Table
    → SingleBatchReader X
    → List (Option Bytes)
    → Option (MergeConfig X)
    → LanceDbError × X.World
merged X w tbl r [] m = (invalid_argument, w)
merged X w tbl r (o ∷ os) m = merged_on X w tbl r (all_valid (o ∷ os)) m

module _ {X : External} (g : Heap X) where
  condition_in-among :
      (p q : Ptr) (s : Option Bytes) (e : Option X.Expr)
      → Strings g (p ∷ []) (s ∷ [])
      → OptionalExpr g q e
      → condition_in p q g ≡ ok (condition_among s e) g
  unfolding condition_in
  condition_in-among null null none none strings there = refl
  condition_in-among null (addr b) none (some e) strings there = rw (load_expr-ok g b e there)
  condition_in-among (addr a) null (some s) none (live, end) there = elim (Bool-cases (is_utf8 s)) [
    | inl valid ↦ rw (load_str-some g a s live valid, valid) refl
    | inr broken ↦ rw (load_str-none g a s live broken, broken) refl
  ]
  condition_in-among (addr a) (addr b) (some s) (some e) strings there = refl
  condition_in-among null q (some s) e (none_some, end) there = absurd (cc)
  condition_in-among (addr a) q none e strings there = absurd strings
  condition_in-among null null none (some e) strings there = absurd there
  condition_in-among (addr a) null (some s) (some e) strings there = absurd there
  condition_in-among null (addr b) none none strings there = absurd there
  condition_in-among (addr a) (addr b) (some s) none strings there = absurd there

  condition_if-among :
      (b : Bool) (cfg : LanceDbMergeInsertConfig) (s : Option Bytes) (e : Option X.Expr)
      → Strings g (cfg.when_matched_update_all_condition ∷ []) (s ∷ [])
      → OptionalExpr g cfg.when_matched_update_all_expr e
      → condition_if b cfg g ≡ ok (if b then condition_among s e else some (none, none)) g
  unfolding condition_if
  condition_if-among false cfg s e strings there = refl
  condition_if-among true cfg s e strings there = condition_in-among _ _ s e strings there

  module _ (w : X.World) (t : ℕ) (tbl : X.Table) (opened : g.mem t ≡ some (table tbl))
      (r : SingleBatchReader X) (names : List Bytes) where
    merge_on-executed :
        (p : Ptr) (m : MergeConfig X) (o : Option (Condition X))
        → Configured g p (some m)
        → merge_on w (addr t) r names p null o g
          ≡ ok
              (executed X w r.schema (contents r) (
                Option.map
                  (λ condition. configure X m.update m.insert condition (X.merge_insert tbl names))
                  o))
              g
    unfolding merge_on builder_for set_invalid_argument_message
    merge_on-executed null m o there = absurd there
    merge_on-executed (addr c) m none there = refl
    merge_on-executed (addr c) m (some condition) (cfg, live, u, i, strings, there) =
        rw
          (
            load_table-ok g t tbl opened,
            load_merge_config-ok g c cfg live,
            non_zero-is_set cfg.when_matched_update_all,
            non_zero-is_set cfg.when_not_matched_insert_all,
            u,
            i,
          )
          (settle-outcome g w _)

    merge_on-upsert :
        merge_on w (addr t) r names null null (some (none, none)) g
        ≡ ok (executed X w r.schema (contents r) (planned X none (X.merge_insert tbl names))) g
    unfolding merge_on builder_for configure update_with
    merge_on-upsert = rw (load_table-ok g t tbl opened) (settle-outcome g w _)

    merge_columns-merged :
        (p : Ptr) (m : Option (MergeConfig X))
        → Configured g p m
        → merge_columns w (addr t) r p null (some names) g
          ≡ ok (merged_on X w tbl r (some names) m) g
    unfolding merge_columns condition_of
    merge_columns-merged null none there = merge_on-upsert
    merge_columns-merged null (some m) there = absurd there
    merge_columns-merged (addr c) none there = absurd there
    merge_columns-merged (addr c) (some m) (cfg, live, u, i, strings, there) =
        rw
          (
            load_merge_config-ok g c cfg live,
            condition_if-among (non_zero cfg.when_matched_update_all) cfg m.sql m.condition strings
                there,
            non_zero-is_set cfg.when_matched_update_all,
            u,
          )
          (merge_on-executed (addr c) m _ (cfg, live, u, i, strings, there)
            ∙ ap (λ b. ok (executed X w r.schema (contents r) b) g)
                (configure-planned X m.update m.insert m.sql m.condition
                  (X.merge_insert tbl names)))

OptionalExpr-freed :
    {X : External} (h : Heap X) (d : ℕ) (r : SingleBatchReader X) (p : Ptr) (e : Option X.Expr)
    → h.mem d ≡ some (reader r)
    → OptionalExpr h p e
    → OptionalExpr (write h d none) p e
unfolding write
OptionalExpr-freed h d r null none whole there = tt
OptionalExpr-freed h d r null (some e) whole there = absurd there
OptionalExpr-freed h d r (addr a) none whole there = absurd there
OptionalExpr-freed h d r (addr a) (some e) whole there = ground arith

Configured-freed :
    {X : External} (h : Heap X) (d : ℕ) (r : SingleBatchReader X) (p : Ptr)
    (m : Option (MergeConfig X))
    → h.mem d ≡ some (reader r)
    → Configured h p m
    → Configured (write h d none) p m
unfolding write
Configured-freed h d r null none whole there = tt
Configured-freed h d r null (some m) whole there = absurd there
Configured-freed h d r (addr a) none whole there = absurd there
Configured-freed h d r (addr a) (some m) whole (cfg, live, u, i, strings, there) = (
  cfg,
  ground arith,
  u,
  i,
  Strings-kept h (write h d none) (cfg.when_matched_update_all_condition ∷ []) (m.sql ∷ [])
      (λ b s string. ground arith) strings,
  OptionalExpr-freed h d r _ _ whole there,
)

merge_valid :
    {X : External} (g : Heap X) (w : X.World) (t : ℕ) (tbl : X.Table)
    → g.mem t ≡ some (table tbl)
    → (r : SingleBatchReader X) (p : Ptr) (m : Option (MergeConfig X)) → Configured g p m
    → (names : Option (List Bytes))
    → merge_columns w (addr t) r p null (prefixed [] names) g ≡ ok (merged_on X w tbl r names m) g
unfolding merge_columns set_invalid_argument_message
merge_valid g w t tbl opened r p m configured none = refl
merge_valid g w t tbl opened r p m configured (some names) =
    merge_columns-merged g w t tbl opened r names p m configured

merge_insert-valid :
    {X : External} (h : Heap X) (w : X.World) (t d l : ℕ) (p : Ptr) (tbl : X.Table)
    (r : SingleBatchReader X) (cells : List (Option Ptr)) (ps : List Ptr) (os : List (Option Bytes))
    (m : Option (MergeConfig X))
    → h.mem t ≡ some (table tbl)
    → h.mem d ≡ some (reader r)
    → h.mem l ≡ some (pointers cells)
    → Elements cells 0 ps
    → Strings h ps os
    → Configured h p m
    → lancedb_table_merge_insert w (addr t) (addr d) (addr l) (length ps) p null h
      ≡ ok (merged X w tbl r os m) (write h d none)
unfolding lancedb_table_merge_insert set_invalid_argument_message write
merge_insert-valid h w t d l p tbl r cells [] [] m opened whole array at strings configured =
    rw (take_reader-ok h d r whole) refl
merge_insert-valid h w t d l p tbl r cells [] (o ∷ os) m opened whole array at strings configured =
    absurd strings
merge_insert-valid h w t d l p tbl r cells (q ∷ ps) [] m opened whole array at strings configured =
    absurd strings
merge_insert-valid h w t d l p tbl r cells (q ∷ ps) (o ∷ os) m opened whole array at strings
      configured =
    rw
      (
        take_reader-ok h d r whole,
        suc-ne-zero (length ps),
        read_columns_lem (write h d none) l 0 cells (q ∷ ps) (o ∷ os) [] (ground (arith)) at
            (Strings-kept h (write h d none) (q ∷ ps) (o ∷ os) (λ a s live. ground arith) strings),
      )
      (merge_valid (write h d none) w t tbl (ground (arith)) r p m
        (Configured-freed h d r p m whole configured) (all_valid (o ∷ os)))

-- The pointer and the number of names are those of an array with these names, or the pointer is null.
abbrev pub Named : {X : External} → Heap X → Ptr → ℕ → Option (List (Option Bytes)) → Type 0
Named h null n none = Unit {0}
Named h null n (some os) = ⊥
Named h (addr a) n none = ⊥
Named h (addr a) n (some os) =
    (cells : List (Option Ptr)) × (h.mem a ≡ some (pointers cells))
    × ((ps : List Ptr) × Elements cells 0 ps × (length ps ≡ n) × Strings h ps os)

-- The merge of a call: none without a table or without columns.
abbrev pub merged_with :
    (X : External)
    → X.World
    → Option X.Table
    → SingleBatchReader X
    → Option (List (Option Bytes))
    → Option (MergeConfig X)
    → LanceDbError × X.World
merged_with X w none r os m = (invalid_argument, w)
merged_with X w (some tbl) r none m = (invalid_argument, w)
merged_with X w (some tbl) r (some os) m = merged X w tbl r os m

-- For a reader, and a table, columns and a configuration whose pointers are null or to what they should be, a call with no place for a
-- message consumes the reader on every path and changes nothing else in memory. The databases and the code are those
-- of the one merge that the arguments describe, and of no call of lancedb if they describe none.
pub lancedb_table_merge_insert-merged :
    {X : External} (h : Heap X) (w : X.World) (t : Ptr) (d : ℕ) (l : Ptr) (n : ℕ) (p : Ptr)
    (tbl : Option X.Table) (r : SingleBatchReader X) (os : Option (List (Option Bytes)))
    (m : Option (MergeConfig X))
    → OptionalTable h t tbl
    → h.mem d ≡ some (reader r)
    → Named h l n os
    → Configured h p m
    → lancedb_table_merge_insert w t (addr d) l n p null h
      ≡ ok (merged_with X w tbl r os m) (write h d none)
unfolding lancedb_table_merge_insert set_invalid_argument_message
lancedb_table_merge_insert-merged h w null d l n p none r os m opened whole named configured =
    rw (take_reader-ok h d r whole) refl
lancedb_table_merge_insert-merged h w null d l n p (some tbl) r os m opened whole named configured =
    absurd opened
lancedb_table_merge_insert-merged h w (addr t) d l n p none r os m opened whole named configured =
    absurd opened
lancedb_table_merge_insert-merged h w (addr t) d null n p (some tbl) r none m opened whole named
      configured =
    rw (take_reader-ok h d r whole) refl
lancedb_table_merge_insert-merged h w (addr t) d null n p (some tbl) r (some os) m opened whole
      named configured =
    absurd named
lancedb_table_merge_insert-merged h w (addr t) d (addr l) n p (some tbl) r none m opened whole named
      configured =
    absurd named
lancedb_table_merge_insert-merged {X} h w (addr t) d (addr l) n p (some tbl) r (some os) m opened
      whole (cells, array, (ps, at, many, strings)) configured =
    subst
      (λ n.
        lancedb_table_merge_insert w (addr t) (addr d) (addr l) n p null h
        ≡ ok (merged X w tbl r os m) (write h d none))
      many
      (merge_insert-valid h w t d l p tbl r cells ps os m opened whole array at strings configured)
