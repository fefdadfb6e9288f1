-- ===== src/Reader/Laws.antt =====
-- Readers of one batch: they end, and what is added by them is what was imported.
use lancedb_c.Prelude.{
  ℕ, zero, suc, ◌≡◌, refl, true, false, ◌==◌, Option, none, some, [], ◌∷◌, Bool-cases, inl, inr,
}
use lancedb_c.Text.{Bytes}
use lancedb_c.External.{External, Result}
use lancedb_c.Memory.{
  Ptr, null, addr, array, schema, table, reader, pointer_slot, SingleBatchReader, Heap, Cmd, ok,
  pure, load, expect, as_pointer_slot, ◌>>=◌, write, push,
}
use lancedb_c.Memory.Laws.{IsWf}
use lancedb_c.Memory.Returns
use lancedb_c.Memory.Returns.{Returns}
use lancedb_c.Error.{LanceDbError, success, arrow}
use lancedb_c.Database.{Op}
use lancedb_c.Database.Requests.{outcome}
use lancedb_c.Reader.{
  next, drain, contents, lancedb_record_batch_reader_from_arrow, lancedb_table_add,
}

-- An exhausted reader has no items.
exhausted-drain :
    {X : External} (n : ℕ) (r : SingleBatchReader X) → r.exhausted ≡ true → drain n r ≡ []
unfolding drain next
exhausted-drain zero r done = refl
exhausted-drain (suc n) r done = rw done refl

-- A reader has at most one item: a call of `next` after two others finds no more, however many follow.
pub drain-contents :
    {X : External} (n : ℕ) (r : SingleBatchReader X) → drain (suc (suc n)) r ≡ contents r
unfolding drain next contents
drain-contents n r = elim (Bool-cases r.exhausted) [
  | inl done ↦ rw done refl
  | inr fresh ↦ rw fresh refl
]

-- the pointer in a variable
unfoldable pub load_pointer : {X : External} → Ptr → Cmd X Ptr
load_pointer slot = do c ← load slot; expect (as_pointer_slot c)

-- the second call of a client that makes a reader and, if that succeeds, adds it to a table
unfoldable pub add_if : {X : External} → X.World → Ptr → Ptr → LanceDbError → Op X
add_if w t slot success = do p ← load_pointer slot; lancedb_table_add w t p null
add_if w t slot code = pure (code, w)

unfoldable pub import_and_add : {X : External} → X.World → Ptr → Ptr → Ptr → Ptr → Op X
import_and_add w t a s slot = do
  code ← lancedb_record_batch_reader_from_arrow a s slot null
  add_if w t slot code

-- What making a reader leaves: the code, and a new reader in the variable at `o`, or what was consumed before a failure.
abbrev pub Made :
    {X : External}
    → Heap X
    → ℕ
    → ℕ
    → Result X.ArrowSchema Bytes
    → Result (Option X.Batch) Bytes
    → LanceDbError
    → Heap X
    → Type 0
Made h a o (Result.err e) struct code g = (code ≡ arrow) × (g ≡ h)
Made h a o (Result.ok s) (Result.err e) code g = (code ≡ arrow) × (g ≡ write h a none)
Made h a o (Result.ok s) (Result.ok none) code g = ⊥
Made h a o (Result.ok s) (Result.ok (some b)) code g =
    (code ≡ success)
    × (g
        ≡ write
            (push (write h a none)
              (reader (record { schema = s; batch = some b; exhausted = false })))
            o (some (pointer_slot (addr h.next))))

-- The code and the databases after an import that is added to a table.
abbrev pub added :
    (X : External)
    → X.World
    → X.Table
    → Result X.ArrowSchema Bytes
    → Result (Option X.Batch) Bytes
    → LanceDbError × X.World
added X w tbl (Result.ok s) (Result.ok (some b)) = outcome (X.add w tbl s (b ∷ []))
added X w tbl _ _ = (arrow, w)

-- An array is used up as soon as its schema is imported.
abbrev pub remains : {A : Type 0} {B : Type 0} → Result A Bytes → Option B → Option B
remains (Result.err e) cell = cell
remains (Result.ok s) cell = none

module _ {X : External} (h : Heap X) (w : X.World) (t a o : ℕ) (tbl : X.Table) (arr : X.Array)
    (old : Ptr) (opened : h.mem t ≡ some (table tbl)) (whole : h.mem a ≡ some (array arr))
    (out : h.mem o ≡ some (pointer_slot old)) (wf : IsWf h) where
  -- What the client is left with.
  abbrev Settled :
      Result X.ArrowSchema Bytes
      → Result (Option X.Batch) Bytes
      → LanceDbError × X.World
      → Heap X
      → Type 0
  Settled imported struct v g =
      (v ≡ added X w tbl imported struct)
      × (g.mem a ≡ remains imported (h.mem a))
      × ((c : ℕ) → (c == a) ≡ false → (c == o) ≡ false → g.mem c ≡ h.mem c)

  -- the memory with the new reader
  filled : X.ArrowSchema → X.Batch → Heap X
  filled s b =
      write
        (push (write h a none) (reader (record { schema = s; batch = some b; exhausted = false })))
        o (some (pointer_slot (addr h.next)))
