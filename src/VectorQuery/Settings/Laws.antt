-- ===== src/VectorQuery/Settings/Laws.antt =====
-- A whole client of the vector queries of src/query.rs: what it executes and what it leaves.
use lancedb_c.Prelude.{
  ℕ, ◌≡◌, false, Option, none, some, List, ◌==◌, length, replicate, if◌then◌else◌,
}
use lancedb_c.External.{External, Result, Error}
use lancedb_c.Memory.{Ptr, null, addr, vector_query, VectorQuery, stream, Heap, ok}
use lancedb_c.Memory.Laws.{Updated}
use lancedb_c.Memory.Returns
use lancedb_c.Memory.Returns.{Returns}
use lancedb_c.Error.{LanceDbError, success}
use mathlib.Core.Option
use lancedb_c.VectorQuery.Settings.{
  Tuning, limit, offset, nprobes, refine_factor, ef, distance_type, tuned, metric_of,
}

-- the handle after one call
abbrev set_on : {X : External} → Tuning → VectorQuery X → VectorQuery X
set_on (limit n) q = record q { limit = some n }
set_on (offset n) q = record q { offset = some n }
set_on (nprobes n) q = record q { nprobes = some n }
set_on (refine_factor n) q = record q { refine_factor = some n }
set_on (ef n) q = record q { ef = some n }
set_on (distance_type d) q = record q { distance_type = metric_of (distance_type d) }

module _ {X : External} where
  -- the memory from before but for the handle at `a`, which holds `q`
  abbrev Tuned : Heap X → ℕ → List Tuning → VectorQuery X → List LanceDbError → Heap X → Type 0
  Tuned h a cs q codes g =
      (codes ≡ replicate (length cs) success)
      × (g.next ≡ h.next)
      × Updated h a (vector_query (tuned cs q)) g

-- What the client is left with in place of its handle: a stream in a new box, or a null pointer.
abbrev pub Executed : {X : External} → Heap X → ℕ → Result X.Stream Error → Ptr → Heap X → Type 0
Executed h a (Result.ok s) p g =
    (p ≡ addr h.next)
    × (g.mem h.next ≡ some (stream s))
    × ((b : ℕ) → (b == h.next) ≡ false → g.mem b ≡ (if b == a then none else h.mem b))
Executed h a (Result.err e) p g =
    (p ≡ null) × ((b : ℕ) → g.mem b ≡ (if b == a then none else h.mem b))
