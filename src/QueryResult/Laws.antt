-- ===== src/QueryResult/Laws.antt =====
-- The loop that exports the batches of a stream, and the function that frees the exported arrays.
use lancedb_c.Prelude.{
  ℕ, suc, ◌≤◌, ◌≡◌, refl, true, false, Option, none, some, List, [], ◌∷◌, ◌++◌, map, length,
  replicate, ◌==◌, arith, ◌∙◌, ap, sym, subst, Bool-cases, inl, inr, if◌then◌else◌,
}
use mathlib.Core.List.{append_assoc, append-nil}
use lancedb_c.External.{External}
use lancedb_c.Memory.{
  Ptr, null, addr, Cell, array, pointers, Heap, ok, write, push, alloc, store_at, ◌>>◌,
}
use lancedb_c.Memory.Laws.{
  IsWf, live-lt-next, mem-push_old, mem-write_ne, load_at-ok, store_at-ok, release-ok,
}
use lancedb_c.Memory.Arrays.{
  has, Elements, Elements-map, slots, slots_full, get_elem?-slots, set-slots, length-snoc,
  freed_all, mem-freed_all,
}
use lancedb_c.Memory.Returns
use lancedb_c.Memory.Returns.{Returns}
use lancedb_c.QueryResult.{take_array, export_batches, free_batches, lancedb_free_arrow_arrays}

-- The pointers are to exported arrays of their own.
abbrev pub AllArrays : {X : External} → Heap X → List Ptr → List X.Array → Type 0
AllArrays h [] [] = Unit {0}
AllArrays h [] (b ∷ bs) = ⊥
AllArrays h (p ∷ ps) [] = ⊥
AllArrays h (null ∷ ps) (b ∷ bs) = ⊥
AllArrays h (addr a ∷ ps) (b ∷ bs) =
    (h.mem a ≡ some (array b)) × (has a ps ≡ false) × AllArrays h ps bs

pub AllArrays-write :
    {X : External} (h : Heap X) (a : ℕ) (cell : Option (Cell X)) (ps : List Ptr) (bs : List X.Array)
    → has a ps ≡ false
    → AllArrays h ps bs
    → AllArrays (write h a cell) ps bs
unfolding write
AllArrays-write h a cell [] [] out arrays = arrays
AllArrays-write h a cell [] (b ∷ bs) out arrays = arrays
AllArrays-write h a cell (p ∷ ps) [] out arrays = absurd arrays
AllArrays-write h a cell (null ∷ ps) (b ∷ bs) out arrays = absurd arrays
AllArrays-write h a cell (addr c ∷ ps) (b ∷ bs) out (there, apart, arrays) =
    (ground arith, apart, AllArrays-write h a cell ps bs (ground arith) arrays)

-- From `h` to `g` the array at `l` was filled up: behind the pointers `ps` that it had stand new ones to the exports of
-- these batches.
pub record Filled {X : External} (h : Heap X) (l : ℕ) (ps : List Ptr) (batches : List X.Batch)
    (g : Heap X) : Type 0 where
  pub new : List Ptr
  pub cells : g.mem l ≡ some (pointers (map some (ps ++ new)))
  pub count : length new ≡ length batches
  pub apart : has l new ≡ false
  pub arrays : AllArrays g new (map X.export_batch batches)
  pub fresh : (b : ℕ) → has b new ≡ true → h.mem b ≡ none
  pub beyond : (b : ℕ) → has b new ≡ true → h.next ≤ b
  pub same : (b : ℕ) → has b new ≡ false → (b == l) ≡ false → g.mem b ≡ h.mem b
  pub wf : IsWf g

module _ {X : External} (h : Heap X) (l : ℕ) (ps : List Ptr) (n : ℕ) (batch : X.Batch)
    (live : h.mem l ≡ some (pointers (slots ps (suc n)))) (wf : IsWf h) where
  -- the memory after one round
  next_round : Heap X
  next_round =
      write (push h (array (X.export_batch batch))) l
        (some (pointers (slots (ps ++ (addr h.next ∷ [])) n)))

  mem-next_round :
      (b : ℕ)
      → next_round.mem b ≡ (
          if b == l
          then some (pointers (slots (ps ++ (addr h.next ∷ [])) n))
          else if b == h.next
          then some (array (X.export_batch batch))
          else h.mem b)
  unfolding next_round write push
  mem-next_round b = refl

  next-next_round : next_round.next ≡ suc h.next
  unfolding next_round write push
  next-next_round = refl

  below : (l == h.next) ≡ false
  below = ground (arith, live-lt-next l _ wf live)

  round_store :
      store_at (addr l) (length ps) (addr h.next) (push h (array (X.export_batch batch)))
      ≡ ok tt next_round
  unfolding next_round
  round_store =
      store_at-ok (push h (array (X.export_batch batch))) l (length ps) (slots ps (suc n))
        (addr h.next) none (mem-push_old l _ _ wf live) (get_elem?-slots ps n)
      ∙ ap (λ c. ok tt (write (push h (array (X.export_batch batch))) l (some (pointers c))))
          (set-slots ps n (addr h.next))

  IsWf-next_round : IsWf next_round
  unfolding next_round write push
  IsWf-next_round = record {
    unused = λ b le. ground (arith, wf.unused b, live-lt-next l _ wf live);
  }

  -- What the later rounds leave, seen from before this one.
  Filled-round :
      (batches : List X.Batch) (g : Heap X)
      → Filled next_round l (ps ++ (addr h.next ∷ [])) batches g
      → Filled h l ps (batch ∷ batches) g
  Filled-round batches g f = record {
    new = addr h.next ∷ f.new;
    cells =
        f.cells
        ∙ ap (λ qs. some (pointers (map some qs))) (append_assoc ps (addr h.next ∷ []) f.new);
    count = ap suc f.count;
    apart = ground (arith, below, f.apart);
    arrays = (f.same h.next next_out next_l ∙ next_array, next_out, f.arrays);
    fresh = λ c in_new. ground (arith, f.fresh c, mem-next_round c, wf.unused h.next);
    beyond = λ c in_new. ground (arith, f.beyond c, next-next_round);
    same = λ c c_out c_l. ground (arith, f.same c, mem-next_round c);
    wf = f.wf;
  }
    where
      next_l : (h.next == l) ≡ false
      next_l = ground (arith, below)

      next_array : next_round.mem h.next ≡ some (array (X.export_batch batch))
      next_array = ground (arith, mem-next_round h.next, below)

      next_out : has h.next f.new ≡ false
      next_out = elim (Bool-cases (has h.next f.new)) [
        | inl in_new ↦ absurd (ground (arith, f.fresh h.next in_new, next_array))
        | inr free ↦ free
      ]

module _ {X : External} (l : ℕ) where
  pub export_batches-Filled :
      (batches : List X.Batch) (h : Heap X) (ps : List Ptr)
      → h.mem l ≡ some (pointers (slots ps (length batches)))
      → IsWf h
      → Returns (λ _ g. Filled h l ps batches g) (export_batches (addr l) (length ps) batches h)
  unfolding export_batches alloc
  export_batches-Filled [] h ps live wf = record {
    new = [];
    cells = rw (append-nil ps) (live ∙ rw (slots_full ps) refl);
    count = refl;
    apart = refl;
    arrays = tt;
    fresh = λ b in_new. absurd (cc);
    beyond = λ b in_new. absurd (cc);
    same = λ b b_out b_l. refl;
    wf = wf;
  }
  export_batches-Filled (batch ∷ batches) h ps live wf =
      let next = next_round h l ps (length batches) batch live wf in
      rw (round_store h l ps (length batches) batch live wf) (
        Returns.mono (λ _ g. Filled next l (ps ++ (addr h.next ∷ [])) batches g) _ _
          (subst
            (λ i.
              Returns (λ _ g. Filled next l (ps ++ (addr h.next ∷ [])) batches g)
                (export_batches (addr l) i batches next))
            (length-snoc ps (addr h.next))
            (export_batches-Filled batches next (ps ++ (addr h.next ∷ []))
              (ground (arith, mem-next_round h l ps (length batches) batch live wf l))
              (IsWf-next_round h l ps (length batches) batch live wf)))
          (λ _ g f. Filled-round h l ps (length batches) batch live wf batches g f))

  -- The freeing loop takes every array.
  free_batches_lem :
      (cells : List (Option Ptr)) (h : Heap X) (j : ℕ) (ps : List Ptr) (bs : List X.Array)
      → h.mem l ≡ some (pointers cells)
      → Elements cells j ps
      → has l ps ≡ false
      → AllArrays h ps bs
      → free_batches (length ps) j (addr l) h ≡ ok tt (freed_all ps h)
  unfolding free_batches take_array
  free_batches_lem cells h j [] [] live at out arrays = refl
  free_batches_lem cells h j [] (b ∷ bs) live at out arrays = absurd arrays
  free_batches_lem cells h j (p ∷ ps) [] live at out arrays = absurd arrays
  free_batches_lem cells h j (null ∷ ps) (b ∷ bs) live at out arrays = absurd arrays
  free_batches_lem cells h j (addr a ∷ ps) (b ∷ bs) live (at, rest) out (there, apart, arrays) =
      rw (load_at-ok h l j cells (addr a) live at) (
        rw (release-ok h a (array b) there) (
          free_batches_lem cells (write h a none) (suc j) ps bs
            (mem-write_ne h a l none (ground arith) ∙ live) rest (ground arith)
            (AllArrays-write h a none ps bs apart arrays)))

  -- A caller that hands exported arrays and their number to the freeing function is left without the array of pointers, and
  -- with the memory from before the export otherwise.
  pub lancedb_free_arrow_arrays-Filled :
      (h g : Heap X) (batches : List X.Batch) (f : Filled h l [] batches g)
      → Returns
          (λ _ k. (b : ℕ) → k.mem b ≡ (if b == l then none else h.mem b))
          (lancedb_free_arrow_arrays (addr l) (length batches) g)
  unfolding lancedb_free_arrow_arrays write
  lancedb_free_arrow_arrays-Filled h g batches f = rw (sym f.count) (
      rw
        (free_batches_lem (map some f.new) g 0 f.new (map X.export_batch batches) f.cells
          (Elements-map f.new) f.apart f.arrays)
        (rw
          (release-ok (freed_all f.new g) l (pointers (map some f.new))
            (rw (mem-freed_all f.new g l, f.apart) f.cells))
          (λ b. ground (arith, mem-freed_all f.new g b, f.same b, f.fresh b))))

  -- Into an array of unwritten elements, one for each batch, the export of any batches runs without a fault. Freeing the array with
  -- the number of batches then leaves the memory from before the export, without the array.
  pub export_batches-freed :
      (h : Heap X) (batches : List X.Batch)
      → h.mem l ≡ some (pointers (replicate (length batches) none))
      → IsWf h
      → Returns
          (λ _ k. (b : ℕ) → k.mem b ≡ (if b == l then none else h.mem b))
          ((export_batches (addr l) 0 batches
              >> lancedb_free_arrow_arrays (addr l) (length batches))
            h)
  export_batches-freed h batches live wf =
      Returns.bind (λ _ g. Filled h l [] batches g) _ (export_batches (addr l) 0 batches h) _
        (export_batches-Filled batches h [] live wf)
        λ _ g f. lancedb_free_arrow_arrays-Filled h g batches f
