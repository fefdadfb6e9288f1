-- ===== src/QueryResult/Export.antt =====
-- lancedb_query_result_to_arrow of src/query.rs: what a caller has when it succeeds.
use lancedb_c.Prelude.{
  ℕ, suc, ◌≤◌, ◌≡◌, refl, true, false, ◌||◌, none, some, List, [], ◌∷◌, map, length, replicate,
  ◌==◌, arith, Bool-cases, inl, inr, if◌then◌else◌,
}
use lancedb_c.External.{External, Result}
use lancedb_c.Memory.{
  Ptr, null, addr, schema, stream, pointers, pointer_slot, count_slot, Heap, ok, write, push, alloc,
  malloc, decided, grants, take_stream, write_count, write_pointer,
}
use lancedb_c.Memory.Laws.{
  release-ok, IsWf, live-lt-next, take_stream-ok, write_count-ok, write_pointer-ok,
}
use lancedb_c.Memory.Arrays.{has}
use lancedb_c.Memory.Returns
use lancedb_c.Memory.Returns.{Returns}
use lancedb_c.Text.{codes}
use lancedb_c.Error.{success, unknown, set_unknown_error_message}
use lancedb_c.Error.Messages.{MessageSlot, Reported, set_unknown_error_message-Reported}
use lancedb_c.QueryResult.{
  take_schema, export_batches, export_collected, export_with, export_arrays,
  lancedb_query_result_to_arrow,
}
use lancedb_c.QueryResult.Laws.{AllArrays, AllArrays-write, Filled, export_batches-Filled}

-- From `h` to `g` the result at `r` was consumed, and the variables at `n`, `m` and `c` got a new array of new exports of the
-- batches, a new export of the schema, and the number of batches. Nothing else changed.
pub record Received {X : External} (h : Heap X) (r n m c : ℕ) (sc : X.Schema)
    (batches : List X.Batch) (g : Heap X) : Type 0 where
  pub base : ℕ
  pub at : ℕ
  pub new : List Ptr
  pub freed : g.mem r ≡ none
  pub out : g.mem n ≡ some (pointer_slot (addr base))
  pub schema_out : g.mem m ≡ some (pointer_slot (addr at))
  pub count : g.mem c ≡ some (count_slot (length batches))
  pub exported : g.mem at ≡ some (schema sc)
  pub cells : g.mem base ≡ some (pointers (map some new))
  pub counted : length new ≡ length batches
  pub arrays : AllArrays g new (map X.export_batch batches)
  pub fresh : (b : ℕ) → ((b == base) || (b == at) || has b new) ≡ true → h.mem b ≡ none
  pub same :
      (b : ℕ)
      → ((b == r) || (b == n) || (b == m) || (b == c)) ≡ false
      → ((b == base) || (b == at) || has b new) ≡ false
      → g.mem b ≡ h.mem b

take_schema-ok :
    {X : External} (h : Heap X) (a : ℕ) (sc : X.Schema)
    → h.mem a ≡ some (schema sc)
    → take_schema (addr a) h ≡ ok sc (write h a none)
unfolding take_schema
take_schema-ok h a sc live = rw (release-ok h a (schema sc) live)

-- From `h` to `g` the result at `r` was consumed, the variable at `m` is null, and the one at `c` has the count.
abbrev pub Refused : {X : External} → Heap X → ℕ → ℕ → ℕ → ℕ → Heap X → Type 0
Refused h r m c count g =
    (b : ℕ)
    → g.mem b ≡ (
        if b == m
        then some (pointer_slot null)
        else if b == c
        then some (count_slot count)
        else if b == r
        then none
        else h.mem b)

module _ {X : External} (h : Heap X) (r n m c k : ℕ) (s : X.Stream) (o p : Ptr) (em : Ptr)
    (batch : X.Batch) (batches : List X.Batch) (sc : X.Schema) (result : h.mem r ≡ some (stream s))
    (out : h.mem n ≡ some (pointer_slot o)) (schema_out : h.mem m ≡ some (pointer_slot p))
    (apart : (n == m) ≡ false) (counter : h.mem c ≡ some (count_slot k)) (wf : IsWf h) where
  taken : Heap X
  taken = write h r none

  counted : Heap X
  unfolding taken
  counted = write taken c (some (count_slot (length (batch ∷ batches))))

  pushed : Heap X
  unfolding counted
  pushed = push counted (schema sc)

  described : Heap X
  unfolding pushed
  described = write pushed m (some (pointer_slot (addr h.next)))

  arrayed : Heap X
  unfolding described
  arrayed = push (decided described) (pointers (replicate (length (batch ∷ batches)) none))

  mem-arrayed :
      (b : ℕ)
      → arrayed.mem b ≡ (
          if b == suc h.next
          then some (pointers (replicate (length (batch ∷ batches)) none))
          else if b == m
          then some (pointer_slot (addr h.next))
          else if b == h.next
          then some (schema sc)
          else if b == c
          then some (count_slot (length (batch ∷ batches)))
          else if b == r
          then none
          else h.mem b)
  unfolding arrayed described pushed counted taken push write decided
  mem-arrayed b = refl

  next-arrayed : arrayed.next ≡ suc (suc h.next)
  unfolding arrayed described pushed counted taken push write decided
  next-arrayed = refl

  n_old : (n == h.next) ≡ false
  n_old = ground (arith, live-lt-next n _ wf out)

  facts : (suc m ≤ h.next) × (suc c ≤ h.next) × (suc r ≤ h.next) × (suc n ≤ h.next)
  facts = (
    live-lt-next m _ wf schema_out,
    live-lt-next c _ wf counter,
    live-lt-next r _ wf result,
    live-lt-next n _ wf out,
  )

  IsWf-arrayed : IsWf arrayed
  IsWf-arrayed = record {
    unused = λ b le. ground (arith, mem-arrayed b, next-arrayed, facts, wf.unused b);
  }

  n_c : (n == c) ≡ false
  n_c = ground (arith, out, counter)

  n_r : (n == r) ≡ false
  n_r = ground (arith, out, result)

  c_m : (c == m) ≡ false
  c_m = ground (arith, counter, schema_out)

  r_m : (r == m) ≡ false
  r_m = ground (arith, result, schema_out)

  r_c : (r == c) ≡ false
  r_c = ground (arith, result, counter)

  received :
      (g : Heap X)
      → Filled arrayed (suc h.next) [] (batch ∷ batches) g
      → Received h r n m c sc
          (batch ∷ batches)
          (write g n (some (pointer_slot (addr (suc h.next)))))
  unfolding write
  received g f = record {
    base = suc h.next;
    at = h.next;
    new = f.new;
    freed = ground (arith, old_out r, f.same r, mem-arrayed r, facts, n_r, r_m, r_c);
    out = ground arith;
    schema_out = ground (arith, old_out m, f.same m, mem-arrayed m, facts, apart);
    count = ground (arith, old_out c, f.same c, mem-arrayed c, facts, n_c, c_m);
    exported = ground (arith, old_out h.next, f.same h.next, mem-arrayed h.next, facts);
    cells = ground (arith, f.cells, facts);
    counted = f.count;
    arrays =
        AllArrays-write g n (some (pointer_slot (addr (suc h.next)))) f.new
          (map X.export_batch (batch ∷ batches)) (old_out n (ground (arith, facts))) f.arrays;
    fresh = λ b one. ground (arith, wf.unused b, f.beyond b, next-arrayed);
    same = λ b b_old b_out. ground (arith, f.same b, mem-arrayed b);
  }
    where
      old_out : (b : ℕ) → b ≤ h.next → has b f.new ≡ false
      old_out b old = elim (Bool-cases (has b f.new)) [
        | inl in_new ↦ absurd (ground (arith, f.beyond b in_new, next-arrayed))
        | inr free ↦ free
      ]

  step_take : take_stream (addr r) h ≡ ok s taken
  unfolding taken
  step_take = take_stream-ok h r s result

  step_count : write_count (addr c) (length (batch ∷ batches)) taken ≡ ok tt counted
  unfolding counted taken write
  step_count = write_count-ok taken c k (length (batch ∷ batches)) (ground arith)

  step_schema : alloc (schema sc) counted ≡ ok (addr h.next) pushed
  unfolding alloc pushed counted taken write
  step_schema = refl

  schema_out_there : pushed.mem m ≡ some (pointer_slot p)
  unfolding pushed counted taken push write
  schema_out_there = ground (arith, facts)

  step_schema_out : write_pointer (addr m) (addr h.next) pushed ≡ ok tt described
  unfolding described
  step_schema_out = write_pointer-ok pushed m p (addr h.next) schema_out_there

  step_malloc :
      grants h.mallocs ≡ true
      → malloc (pointers (replicate (length (batch ∷ batches)) none)) described
        ≡ ok (addr (suc h.next)) arrayed
  unfolding malloc arrayed described pushed counted taken push write
  step_malloc granted = rw granted

  -- The variable for the arrays is still the caller's after the loop.
  out_there :
      (g : Heap X)
      → Filled arrayed (suc h.next) [] (batch ∷ batches) g
      → g.mem n ≡ some (pointer_slot o)
  out_there g f = elim (Bool-cases (has n f.new)) [
    | inl in_new ↦ absurd (ground (arith, f.beyond n in_new, next-arrayed, facts))
    | inr free ↦ ground (arith, f.same n free, mem-arrayed n, facts)
  ]

  -- Where the result, two different pointer variables and the count are the caller's, the stream yields batches of which there is a
  -- first one, its schema can be exported and the allocation succeeds, the conversion reports success. The result is consumed,
  -- and the caller gets the exports of all batches in order, the export of the first one's schema, and the number of batches;
  -- nothing else changes.
  pub lancedb_query_result_to_arrow-Received :
      X.collect s ≡ Result.ok (batch ∷ batches)
      → X.export_schema (X.batch_schema batch) ≡ Result.ok sc
      → grants h.mallocs ≡ true
      → Returns
          (λ code g. (code ≡ success) × Received h r n m c sc (batch ∷ batches) g)
          (lancedb_query_result_to_arrow (addr r) (addr n) (addr m) (addr c) em h)
  unfolding lancedb_query_result_to_arrow export_collected export_with export_arrays
  lancedb_query_result_to_arrow-Received all schema_ok granted =
      rw (step_take, all)
        (rw (step_count, schema_ok)
          (rw step_schema (
            rw step_schema_out (
              rw (step_malloc granted) (
                Returns.bind (λ _ g. Filled arrayed (suc h.next) [] (batch ∷ batches) g) _
                  (export_batches (addr (suc h.next)) 0 (batch ∷ batches) arrayed) _
                  (export_batches-Filled (suc h.next) (batch ∷ batches) arrayed []
                    (ground (arith, mem-arrayed (suc h.next))) IsWf-arrayed)
                  λ _ g f.
                    rw (write_pointer-ok g n o (addr (suc h.next)) (out_there g f))
                      (refl, received g f))))))

  -- the memory when the array was refused and the schema given back
  refused : Heap X
  unfolding described
  refused = write (write (decided described) h.next none) m (some (pointer_slot null))

  refused-Refused : Refused h r m c (length (batch ∷ batches)) refused
  unfolding refused described pushed counted taken push write decided
  refused-Refused b = ground (arith, facts, wf.unused h.next)

  IsWf-refused : IsWf refused
  unfolding refused described pushed counted taken push write decided
  IsWf-refused = record { unused = λ b le. ground (arith, facts, wf.unused b) }

  slot_kept : (e : Ptr) → MessageSlot h e → MessageSlot refused e
  slot_kept null there = tt
  slot_kept (addr e) (old, there) = elim (Bool-cases (e == m)) [
    | inl same ↦ (null, ground (arith, refused-Refused e))
    | inr other ↦ (old, ground (arith, refused-Refused e))
  ]

  step_refused :
      grants h.mallocs ≡ false
      → malloc (pointers (replicate (length (batch ∷ batches)) none)) described
        ≡ ok null (decided described)
  unfolding malloc described pushed counted taken push write
  step_refused denied = rw denied

  step_taken_back :
      take_schema (addr h.next) (decided described) ≡ ok sc (write (decided described) h.next none)
  unfolding described pushed counted taken push write decided
  step_taken_back = take_schema-ok (decided described) h.next sc (ground (arith, facts))

  step_null : write_pointer (addr m) null (write (decided described) h.next none) ≡ ok tt refused
  unfolding refused described pushed counted taken push write decided
  step_null =
      write_pointer-ok (write (decided described) h.next none) m (addr h.next) null
        (ground (arith, facts))

  -- Where instead the array of pointers cannot be allocated, the conversion reports an unknown error. The result is consumed
  -- and the exported schema given back, with a null pointer in its variable; besides the message the count is all that
  -- has changed.
  pub lancedb_query_result_to_arrow-Refused :
      X.collect s ≡ Result.ok (batch ∷ batches)
      → X.export_schema (X.batch_schema batch) ≡ Result.ok sc
      → grants h.mallocs ≡ false
      → MessageSlot h em
      → Returns
          (λ code g.
            (code ≡ unknown)
            × ((b : Heap X) × Refused h r m c (length (batch ∷ batches)) b
                × Reported (codes "Unknown error") em b g))
          (lancedb_query_result_to_arrow (addr r) (addr n) (addr m) (addr c) em h)
  unfolding lancedb_query_result_to_arrow export_collected export_with export_arrays
  lancedb_query_result_to_arrow-Refused all schema_ok denied slot =
      rw (step_take, all)
        (rw (step_count, schema_ok)
          (rw step_schema (
            rw step_schema_out (
              rw (step_refused denied) (
                rw step_taken_back (
                  rw step_null (
                    Returns.bind (λ _ g. Reported (codes "Unknown error") em refused g) _
                      (set_unknown_error_message em refused) _
                      (set_unknown_error_message-Reported refused em (slot_kept em slot)
                        IsWf-refused)
                      λ _ g done. (refl, (refused, refused-Refused, done)))))))))
