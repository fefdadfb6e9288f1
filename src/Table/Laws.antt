-- ===== src/Table/Laws.antt =====
-- What lancedb_table_create and lancedb_connection_open_table leave on each of their paths.
use lancedb_c.Prelude.{
  ℕ, subst, ◌≡◌, refl, Bool, true, false, ◌==◌, Option, none, some, List, [], arith, if◌then◌else◌,
  Bool-cases, inl, inr,
}
use mathlib.Core.Option
use lancedb_c.Text.{Bytes, is_utf8, contains}
use lancedb_c.External.{External, Effect, Error, Result}
use lancedb_c.Memory.{
  Ptr, null, addr, Cell, text, table, schema, connection, reader, pointer_slot, SingleBatchReader,
  Heap, write, push, alloc,
}
use lancedb_c.Memory.Laws.{
  IsWf, live-lt-next, load_schema-ok, load_connection-ok, take_reader-ok, write_pointer-ok,
  mem-push_old, write-IsWf,
}
use lancedb_c.Memory.Arrays.{freed}
use lancedb_c.Memory.Returns.{Returns}
use lancedb_c.Error.{LanceDbError, success, invalid_argument, handle_error, error_to_error_code}
use lancedb_c.Database.Requests.Laws.{with_str-cases}
use lancedb_c.Reader.{contents}
use lancedb_c.Connect.Client.{opened}
use lancedb_c.Table.{
  settle_table, batch_reader, if_valid, create_with, lancedb_table_create,
  lancedb_connection_open_table,
}

-- From `h` to `g` the variable at `o` got a new cell if there is one, and nothing else changed.
abbrev pub Handed : {X : External} → Heap X → ℕ → Option (Cell X) → Heap X → Type 0
Handed h o none g = g ≡ h
Handed h o (some cell) g =
    (at : ℕ) × (h.mem at ≡ none)
    × (g.mem at ≡ some cell)
    × (g.mem o ≡ some (pointer_slot (addr at)))
    × ((c : ℕ) → (c == o) ≡ false → (c == at) ≡ false → g.mem c ≡ h.mem c)

-- The pointer is null, or to a reader.
abbrev pub OptionalReader : {X : External} → Heap X → Ptr → Option (SingleBatchReader X) → Type 0
OptionalReader h null none = Unit {0}
OptionalReader h null (some r) = ⊥
OptionalReader h (addr a) none = ⊥
OptionalReader h (addr a) (some r) = h.mem a ≡ some (reader r)

-- The schema and the batches that a table is created from.
abbrev pub source :
    (X : External) → X.ArrowSchema → Option (SingleBatchReader X) → X.ArrowSchema × List X.Batch
source X s none = (s, [])
source X s (some r) = (r.schema, contents r)

-- What a call of lancedb comes to, by what the validation of the name answers: with a name that is refused there is no
-- call, so that the databases stay as they are and there is no table.
abbrev pub validated :
    {W T : Type 0} → W → Result (Unit {0}) Error → Effect W T → (LanceDbError × W) × Option T
validated w (Result.err refusal) call = ((error_to_error_code refusal, w), none)
validated w (Result.ok done) (Result.ok tbl, after) = ((success, after), some tbl)
validated w (Result.ok done) (Result.err e, after) = ((error_to_error_code e, after), none)

opened-validated :
    (X : External) (w : X.World) (v : Result (Unit {0}) Error) (call : Effect X.World X.Table)
    → opened (if_valid X w v call) ≡ validated w v call
unfolding if_valid
opened-validated X w (Result.err e) call = refl
opened-validated X w (Result.ok done) (Result.err e, after) = refl
opened-validated X w (Result.ok done) (Result.ok tbl, after) = refl

abbrev pub creation :
    (X : External)
    → X.World
    → X.Connection
    → Bytes
    → X.ArrowSchema × List X.Batch
    → (LanceDbError × X.World) × Option X.Table
creation X w conn name (s, batches) =
    validated w (X.validate_table_name name) (X.create_table w conn name s batches)

-- The end of a creation, by whether the name is UTF-8, and the import of the schema: before the import nothing changes, and after it the
-- reader is gone.
abbrev pub Created :
    {X : External}
    → Heap X
    → X.World
    → X.Connection
    → Bytes
    → Ptr
    → Option (SingleBatchReader X)
    → ℕ
    → Bool
    → Result X.ArrowSchema Bytes
    → LanceDbError × X.World
    → Heap X
    → Type 0
Created h w conn name p r o false imported v g = (v ≡ (invalid_argument, w)) × (g ≡ h)
Created h w conn name p r o true (Result.err e) v g =
    (v ≡ (LanceDbError.invalid_input, w)) × (g ≡ h)
Created {X} h w conn name p r o true (Result.ok s) v g =
    (v ≡ (creation X w conn name (source X s r)).0)
    × Handed (freed p h) o (Option.map table (creation X w conn name (source X s r)).1) g

module _ {X : External} (o : ℕ) (old : Ptr) where
  settle_table-Handed :
      (r : Effect X.World X.Table) (k : Heap X)
      → k.mem o ≡ some (pointer_slot old)
      → IsWf k
      → Returns
          (λ v g. (v ≡ (opened r).0) × Handed k o (Option.map table (opened r).1) g)
          (settle_table r (addr o) null k)
  unfolding settle_table handle_error alloc write push
  settle_table-Handed (Result.err e, w) k slot wf = (refl, refl)
  settle_table-Handed (Result.ok tbl, w) k slot wf =
      rw
        (write_pointer-ok (push k (table tbl)) o old (addr k.next)
          (mem-push_old o _ (table tbl) wf slot))
        (
          refl,
          (
            k.next,
            wf.unused k.next (omega arith),
            ground (arith, live-lt-next o _ wf slot),
            ground arith,
            λ c apart apart'. ground arith,
          ),
        )

module _ {X : External} (h : Heap X) (w : X.World) (o : ℕ) (old : Ptr) (conn : X.Connection)
    (slot : h.mem o ≡ some (pointer_slot old)) (wf : IsWf h) where
  valid-Handed :
      (name : Bytes) (call : Effect X.World X.Table) (k : Heap X)
      → k.mem o ≡ some (pointer_slot old)
      → IsWf k
      → Returns
          (λ v g.
            (v ≡ (validated w (X.validate_table_name name) call).0)
            × Handed k o (Option.map table (validated w (X.validate_table_name name) call).1) g)
          (settle_table (if_valid X w (X.validate_table_name name) call) (addr o) null k)
  valid-Handed name call k slot wf =
      subst
        (λ r.
          Returns (λ v g. (v ≡ r.0) × Handed k o (Option.map table r.1) g)
            (settle_table (if_valid X w (X.validate_table_name name) call) (addr o) null k))
        (opened-validated X w (X.validate_table_name name) call)
        (settle_table-Handed o old (if_valid X w (X.validate_table_name name) call) k slot wf)

  create_with-Created :
      (name : Bytes) (p : Ptr) (r : Option (SingleBatchReader X))
      (imported : Result X.ArrowSchema Bytes)
      → OptionalReader h p r
      → Returns
          (Created h w conn name p r o true imported)
          (create_with w conn name imported p (addr o) null h)
  unfolding create_with settle_table handle_error error_to_error_code batch_reader write contains
  create_with-Created name p r (Result.err e) there = (refl, refl)
  create_with-Created name null none (Result.ok s) there =
      valid-Handed name (X.create_table w conn name s []) h slot wf
  create_with-Created name null (some r) (Result.ok s) there = absurd there
  create_with-Created name (addr a) none (Result.ok s) there = absurd there
  create_with-Created name (addr a) (some r) (Result.ok s) there = rw (take_reader-ok h a r there) (
      valid-Handed name (X.create_table w conn name r.schema (contents r)) (write h a none)
        (ground (arith, there, slot)) (write-IsWf a _ none there wf))

  module _ (c n : ℕ) (name : Bytes) {cached : Option Ptr}
      (connected : h.mem c ≡ some (connection conn cached))
      (string : h.mem n ≡ some (text name)) where
    -- A table is created in a connection from a name, a schema, and a reader or none, with a place for the table and none for a message. For a name that is not
    -- UTF-8 and a schema that cannot be imported there is a code of its own, and the reader is not taken. Otherwise the reader is consumed,
    -- lancedb is asked to create only if the name is found valid, and the code and the new handle are those of the creation.
    pub lancedb_table_create-Created :
        (s : ℕ) (sc : X.Schema) (p : Ptr) (r : Option (SingleBatchReader X))
        → h.mem s ≡ some (schema sc)
        → OptionalReader h p r
        → Returns
            (Created h w conn name p r o (is_utf8 name) (X.import_schema sc))
            (lancedb_table_create w (addr c) (addr n) (addr s) p (addr o) null h)
    unfolding lancedb_table_create
    lancedb_table_create-Created s sc p r described there =
        rw (with_str-cases h w n name _ string) (elim (Bool-cases (is_utf8 name)) [
          | inl good ↦ rw good (
              rw (load_connection-ok h c conn cached connected, load_schema-ok h s sc described)
                (create_with-Created name p r (X.import_schema sc) there))
          | inr broken ↦ rw broken (refl, refl)
        ])

    -- A table is opened by its name, with a place for the table and none for a message: the name is checked to be UTF-8, and lancedb is asked for the table only if the
    -- name is found valid; the databases stay as they are, and the variable gets a new handle exactly if the code is success.
    pub lancedb_connection_open_table-Handed :
        Returns
          (λ v g.
            (v ≡ (
              if is_utf8 name
              then (validated w (X.validate_table_name name) (X.open_table w conn name, w)).0
              else (invalid_argument, w)))
            × Handed h o
                (if is_utf8 name
                  then Option.map table
                      (validated w (X.validate_table_name name) (X.open_table w conn name, w)).1
                  else none)
                g)
          (lancedb_connection_open_table w (addr c) (addr n) (addr o) null h)
    unfolding lancedb_connection_open_table
    lancedb_connection_open_table-Handed =
        rw (with_str-cases h w n name _ string) (elim (Bool-cases (is_utf8 name)) [
          | inl good ↦ rw good (
              rw (load_connection-ok h c conn cached connected)
                (valid-Handed name (X.open_table w conn name, w) h slot wf))
          | inr broken ↦ rw broken (refl, refl)
        ])
