-- ===== src/Database/Delete.antt =====
-- lancedb_table_df_delete of src/table.rs and its ownership of the expression.
use lancedb_c.Prelude.{ℕ, ◌≡◌, refl, Option, none, some, arith}
use lancedb_c.External.{External}
use lancedb_c.Memory.{Ptr, null, addr, expr, table, Heap, ok, write}
use lancedb_c.Memory.Laws.{take_expr-ok, load_table-ok}
use lancedb_c.Error.{LanceDbError, invalid_argument, set_invalid_argument_message}
use lancedb_c.Database.{lancedb_table_df_delete}
use lancedb_c.Database.Requests.{outcome}
use lancedb_c.Database.Requests.Laws.{settle-outcome}

-- The pointer is null, or to a table.
abbrev pub OptionalTable : {X : External} → Heap X → Ptr → Option X.Table → Type 0
OptionalTable h null none = Unit {0}
OptionalTable h null (some tbl) = ⊥
OptionalTable h (addr a) none = ⊥
OptionalTable h (addr a) (some tbl) = h.mem a ≡ some (table tbl)

-- A deletion needs a table.
abbrev pub deleted : (X : External) → X.World → Option X.Table → X.Expr → LanceDbError × X.World
deleted X w none e = (invalid_argument, w)
deleted X w (some tbl) e = outcome (X.df_delete w tbl e)

-- A deletion by an expression, with a table or null and no place for a message, consumes the expression in either case and changes nothing else in memory. It is one
-- call of lancedb with the expression, and for null an invalid argument that leaves the databases as they are.
pub lancedb_table_df_delete-deleted :
    {X : External} (h : Heap X) (w : X.World) (x : ℕ) (e : X.Expr) (t : Ptr) (tbl : Option X.Table)
    → h.mem x ≡ some (expr e)
    → OptionalTable h t tbl
    → lancedb_table_df_delete w t (addr x) null h ≡ ok (deleted X w tbl e) (write h x none)
unfolding lancedb_table_df_delete set_invalid_argument_message write
lancedb_table_df_delete-deleted h w x e null none filter there = rw (take_expr-ok h x e filter) refl
lancedb_table_df_delete-deleted h w x e null (some tbl) filter there = absurd there
lancedb_table_df_delete-deleted h w x e (addr a) none filter there = absurd there
lancedb_table_df_delete-deleted {X} h w x e (addr a) (some tbl) filter there =
    rw (take_expr-ok h x e filter, load_table-ok (write h x none) a tbl (ground arith))
      (settle-outcome (write h x none) w (X.df_delete w tbl e))
