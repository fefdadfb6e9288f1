-- ===== src/TableNames/Page.antt =====
-- A client of src/connection.rs that lists one page of table names: a builder, its limit, where it starts, and its
-- execution.
use lancedb_c.Prelude.{Option, ℕ, suc, ◌≡◌, refl, true, none, some, arith}
use lancedb_c.Text.{Bytes, is_utf8}
use lancedb_c.External.{External}
use lancedb_c.Memory.{
  Ptr, addr, text, connection, table_names_builder, Heap, Cmd, ◌>>=◌, write, push, alloc,
}
use lancedb_c.Memory.Laws.{
  IsWf, load_connection-ok, take_table_names_builder-ok, load_str-some, mem-push_new, live-lt-next,
}
use lancedb_c.Error.{LanceDbError}
use lancedb_c.StringList.Listing.{listed}
use lancedb_c.TableNames.{
  lancedb_connection_table_names_builder, lancedb_table_names_builder_limit,
  lancedb_table_names_builder_start_after, lancedb_table_names_builder_execute,
}

module _ {X : External} where
  unfoldable pub page : X.World → Ptr → ℕ → Ptr → Ptr → Ptr → Ptr → Cmd X LanceDbError
  page w conn limit start_after names_out count_out error_message = do
    b ← lancedb_connection_table_names_builder conn
    c ← lancedb_table_names_builder_limit b limit
    d ← lancedb_table_names_builder_start_after c start_after
    lancedb_table_names_builder_execute w d names_out count_out error_message

-- `k` has the cells and the allocations to come of `h`; only its addresses are later.
pub record Restored {X : External} (h k : Heap X) : Type 0 where
  pub mem : (b : ℕ) → k.mem b ≡ h.mem b
  pub mallocs : k.mallocs ≡ h.mallocs
  pub wf : IsWf k

module _ {X : External} (w : X.World) (h : Heap X) (c s n m limit : ℕ) (conn : X.Connection)
    (after : Bytes) (em : Ptr) {cached : Option Ptr}
    (connected : h.mem c ≡ some (connection conn cached)) (string : h.mem s ≡ some (text after))
    (valid : is_utf8 after ≡ true) (wf : IsWf h) where
  -- the memory with each of the three builders
  first : Heap X
  first = push h (table_names_builder (X.table_names conn))

  second : Heap X
  unfolding first
  second =
      push (write first h.next none)
        (table_names_builder (X.table_names_limit (X.table_names conn) limit))

  third : Heap X
  unfolding second
  third = push (write second (suc h.next) none) (
      table_names_builder
        (X.table_names_start_after (X.table_names_limit (X.table_names conn) limit) after))

  last : Heap X
  unfolding third
  last = write third (suc (suc h.next)) none

  string_there : (write second (suc h.next) none).mem s ≡ some (text after)
  unfolding second first push write
  string_there = ground (arith, live-lt-next s (text after) wf string)

  last-Restored : Restored h last
  unfolding last third second first push write
  last-Restored = record {
    mem = λ b. ground (arith, wf.unused b);
    mallocs = refl;
    wf = record { unused = λ b le. ground (arith, wf.unused b) };
  }

  -- A client that makes a builder, sets a limit and a UTF-8 name to start after, and executes it gets what the listing of
  -- the page with this limit and start gives in the memory from before: none of the three builders is left.
  pub page-listed :
      (k : Heap X) × Restored h k
      × (page w (addr c) limit (addr s) (addr n) (addr m) em h
          ≡ listed
              (X.execute_table_names w
                (X.table_names_start_after (X.table_names_limit (X.table_names conn) limit) after))
              (addr n)
              (addr m)
              em
              k)
  unfolding page lancedb_connection_table_names_builder lancedb_table_names_builder_limit
      lancedb_table_names_builder_start_after lancedb_table_names_builder_execute alloc first second
      third last push write
  page-listed = (
    last,
    last-Restored,
    rw (load_connection-ok h c conn cached connected) (
        rw (take_table_names_builder-ok first h.next _ (mem-push_new h _)) (
          rw
            (take_table_names_builder-ok second (suc h.next) _
              (mem-push_new (write first h.next none) _))
            (rw (load_str-some (write second (suc h.next) none) s after string_there valid) (
              rw
                (take_table_names_builder-ok third (suc (suc h.next)) _
                  (mem-push_new (write second (suc h.next) none) _))
                refl)))),
  )
