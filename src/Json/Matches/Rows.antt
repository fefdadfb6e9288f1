-- ===== src/Json/Matches/Rows.antt =====
-- The count of the rows in lancedb_json_matches: exact, or a failure when it does not fit.
use lancedb_c.Prelude.{
  ℕ, suc, ap, ◌+◌, ◌<◌, ◌≡◌, refl, false, ltb, pos, Option, some, List, [], ◌∷◌, length,
  if◌then◌else◌, arith, ◌∙◌, Bool-cases, inl, inr,
}
use lancedb_c.Text.{Bytes, codes}
use lancedb_c.External.{External, Result}
use lancedb_c.Memory.{Ptr, null, addr, array, pointers, Heap, ok}
use lancedb_c.Memory.Laws.{load_array-ok, load_at-ok}
use lancedb_c.Memory.Arrays.{Elements}
use lancedb_c.Json.Matches.{usize_mod, add_length, count_array, count_rows}

-- The pointers are to exported arrays.
abbrev pub Held : {X : External} → Heap X → List Ptr → List X.Array → Type 0
Held h [] [] = Unit {0}
Held h [] (b ∷ bs) = ⊥
Held h (p ∷ ps) [] = ⊥
Held h (null ∷ ps) (b ∷ bs) = ⊥
Held h (addr a ∷ ps) (b ∷ bs) = (h.mem a ≡ some (array b)) × Held h ps bs

-- They are after a change that keeps the arrays.
pub Held-kept :
    {X : External} (h g : Heap X) (ps : List Ptr) (bs : List X.Array)
    → ((a : ℕ) (b : X.Array) → h.mem a ≡ some (array b) → g.mem a ≡ some (array b))
    → Held h ps bs
    → Held g ps bs
Held-kept h g [] [] keep held = tt
Held-kept h g [] (b ∷ bs) keep held = absurd held
Held-kept h g (p ∷ ps) [] keep held = absurd held
Held-kept h g (null ∷ ps) (b ∷ bs) keep held = absurd held
Held-kept h g (addr a ∷ ps) (b ∷ bs) keep (there, held) =
    (keep a b there, Held-kept h g ps bs keep held)

-- The arrays have these lengths.
abbrev pub Lengths : (X : External) → List X.Array → List ℕ → Type 0
Lengths X [] [] = Unit {0}
Lengths X [] (n ∷ ns) = ⊥
Lengths X (b ∷ bs) [] = ⊥
Lengths X (b ∷ bs) (n ∷ ns) = (X.array_length b ≡ pos n) × Lengths X bs ns

abbrev pub sum : List ℕ → ℕ
sum [] = 0
sum (n ∷ ns) = n + sum ns

abbrev pub total_rows : ℕ → Result ℕ Bytes
total_rows n =
    if ltb n usize_mod then Result.ok n else Result.err (codes "Total row count overflow")

count_array-ok :
    {X : External} (h : Heap X) (a : ℕ) (b : X.Array) (n total : ℕ)
    → h.mem a ≡ some (array b)
    → X.array_length b ≡ pos n
    → count_array (addr a) total h ≡ ok (total_rows (total + n)) h
unfolding count_array add_length
count_array-ok h a b n total there len = rw (load_array-ok h a b there) (rw len refl)

total_rows-add_assoc : (a b c : ℕ) → total_rows ((a + b) + c) ≡ total_rows (a + (b + c))
total_rows-add_assoc a b c = ap total_rows (omega arith)

-- a sum that is too large already at a part of it
total_rows-overflows :
    (a b c : ℕ)
    → ltb (a + b) usize_mod ≡ false
    → total_rows (a + (b + c)) ≡ Result.err (codes "Total row count overflow")
total_rows-overflows a b c large = ground arith

-- For arrays with lengths that are not negative, the loop yields their sum with what was counted before, if it fits into a
-- `usize`, and fails for an overflow exactly if it does not. It changes nothing in memory.
pub count_rows_lem :
    {X : External} (h : Heap X) (l i : ℕ) (cells : List (Option Ptr)) (ps : List Ptr)
    (bs : List X.Array) (ns : List ℕ) (total : ℕ)
    → h.mem l ≡ some (pointers cells)
    → Elements cells i ps
    → Held h ps bs
    → Lengths X bs ns
    → total < usize_mod
    → count_rows (length ps) i (addr l) total h ≡ ok (total_rows (total + sum ns)) h
unfolding count_rows
count_rows_lem h l i cells [] [] [] total live at held lengths fits = ground arith
count_rows_lem h l i cells [] (b ∷ bs) ns total live at held lengths fits = absurd held
count_rows_lem h l i cells [] [] (n ∷ ns) total live at held lengths fits = absurd lengths
count_rows_lem h l i cells (p ∷ ps) [] ns total live at held lengths fits = absurd held
count_rows_lem h l i cells (null ∷ ps) (b ∷ bs) ns total live at held lengths fits = absurd held
count_rows_lem h l i cells (addr a ∷ ps) (b ∷ bs) [] total live at held lengths fits =
    absurd lengths
count_rows_lem h l i cells (addr a ∷ ps) (b ∷ bs) (n ∷ ns) total live (at, rest) (there, held)
      (len, lengths) fits =
    rw (load_at-ok h l i cells (addr a) live at) (
      rw (count_array-ok h a b n total there len) (elim (Bool-cases (ltb (total + n) usize_mod)) [
        | inl small ↦ rw small (
            count_rows_lem h l (suc i) cells ps bs ns (total + n) live rest held lengths
              (ground arith)
            ∙ ap (λ r. ok r h) (total_rows-add_assoc total n (sum ns)))
        | inr large ↦ rw large (rw (total_rows-overflows total n (sum ns) large) refl)
      ]))
