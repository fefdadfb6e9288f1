-- ===== src/Json/Matches/Totals.antt =====
-- The count of the rows in lancedb_json_matches for arrays that may be missing or have a negative length.
use lancedb_c.Prelude.{
  ℕ, ℤ, pos, negsuc, suc, ◌+◌, ◌≡◌, refl, ltb, Option, none, some, List, [], ◌∷◌, length,
  if◌then◌else◌, arith, ◌∙◌, sym, ap, Bool-cases, inl, inr,
}
use lancedb_c.Text.{Bytes, codes}
use lancedb_c.External.{External, Result}
use lancedb_c.Memory.{Ptr, null, addr, array, pointers, Heap, ok, Cmd, pure}
use lancedb_c.Memory.Laws.{load_array-ok, load_at-ok}
use lancedb_c.Memory.Arrays.{Elements}
use lancedb_c.Json.Matches.{◌then_ok◌, add_length, count_array, count_rows}
use lancedb_c.Json.Matches.Rows.{Held, Lengths, sum}

-- The pointers are null, or to exported arrays.
abbrev pub Given : {X : External} → Heap X → List Ptr → List (Option X.Array) → Type 0
Given h [] [] = Unit {0}
Given h [] (o ∷ os) = ⊥
Given h (p ∷ ps) [] = ⊥
Given h (null ∷ ps) (none ∷ os) = Given h ps os
Given h (null ∷ ps) (some b ∷ os) = ⊥
Given h (addr a ∷ ps) (none ∷ os) = ⊥
Given h (addr a ∷ ps) (some b ∷ os) = (h.mem a ≡ some (array b)) × Given h ps os

abbrev pub present : {A : Type 0} → List (Option A) → List A
present [] = []
present (none ∷ os) = present os
present (some b ∷ os) = b ∷ present os

-- A length on top of a total that is to fit into 64 bits.
abbrev pub added : ℕ → ℤ → Result ℕ Bytes
added total (negsuc n) = Result.err (codes "Invalid array length in batch")
added total (pos n) =
    if ltb (total + n) 18446744073709551616
    then Result.ok (total + n)
    else Result.err (codes "Total row count overflow")

-- The number of rows in some arrays, or the first reason why there is none.
abbrev pub counted : (X : External) → List (Option X.Array) → ℕ → Result ℕ Bytes
counted X [] total = Result.ok total
counted X (none ∷ os) total = Result.err (codes "Null array pointer in batch")
counted X (some b ∷ os) total = added total (X.array_length b) then_ok counted X os

add_length-added : (n : ℤ) (total : ℕ) → add_length n total ≡ added total n
unfolding add_length
add_length-added (pos n) total = refl
add_length-added (negsuc n) total = refl

pub Given-kept :
    {X : External} (h g : Heap X) (ps : List Ptr) (os : List (Option X.Array))
    → ((a : ℕ) (b : X.Array) → h.mem a ≡ some (array b) → g.mem a ≡ some (array b))
    → Given h ps os
    → Given g ps os
Given-kept h g [] [] keep given = tt
Given-kept h g [] (o ∷ os) keep given = absurd given
Given-kept h g (p ∷ ps) [] keep given = absurd given
Given-kept h g (null ∷ ps) (none ∷ os) keep given = Given-kept h g ps os keep given
Given-kept h g (null ∷ ps) (some b ∷ os) keep given = absurd given
Given-kept h g (addr a ∷ ps) (none ∷ os) keep given = absurd given
Given-kept h g (addr a ∷ ps) (some b ∷ os) keep (there, given) =
    (keep a b there, Given-kept h g ps os keep given)

-- The rounds after the first, when they are right from each total.
rounds_after :
    {X : External} (h : Heap X) (l i n : ℕ) (os : List (Option X.Array))
    → ((t : ℕ) → count_rows n i (addr l) t h ≡ ok (counted X os t) h)
    → (r : Result ℕ Bytes)
    → ((elim r as (λ _. Cmd X (Result ℕ Bytes)) [
      | Result.err message ↦ pure (Result.err message)
      | Result.ok t ↦ count_rows n i (addr l) t
    ])
        h)
      ≡ ok (r then_ok counted X os) h
rounds_after h l i n os right (Result.err message) = refl
rounds_after h l i n os right (Result.ok t) = right t

-- The loop yields that number or that reason, and changes nothing in memory.
pub count_rows-counted :
    {X : External} (h : Heap X) (l i : ℕ) (cells : List (Option Ptr)) (ps : List Ptr)
    (os : List (Option X.Array)) (total : ℕ)
    → h.mem l ≡ some (pointers cells)
    → Elements cells i ps
    → Given h ps os
    → count_rows (length ps) i (addr l) total h ≡ ok (counted X os total) h
unfolding count_rows count_array
count_rows-counted h l i cells [] [] total live at given = refl
count_rows-counted h l i cells [] (o ∷ os) total live at given = absurd given
count_rows-counted h l i cells (p ∷ ps) [] total live at given = absurd given
count_rows-counted h l i cells (null ∷ ps) (none ∷ os) total live (at, rest) given =
    rw (load_at-ok h l i cells null live at) refl
count_rows-counted h l i cells (null ∷ ps) (some b ∷ os) total live at given = absurd given
count_rows-counted h l i cells (addr a ∷ ps) (none ∷ os) total live at given = absurd given
count_rows-counted {X} h l i cells (addr a ∷ ps) (some b ∷ os) total live (at, rest)
      (there, given) =
    rw (load_at-ok h l i cells (addr a) live at) (
      rw (load_array-ok h a b there, add_length-added (X.array_length b) total)
        (rounds_after h l (suc i) (length ps) os
          (λ t. count_rows-counted h l (suc i) cells ps os t live rest given)
          (added total (X.array_length b))))

-- A count that goes on after an array had a length.
counted-rest :
    (X : External) (os : List (Option X.Array)) (total n : ℕ) (z : ℤ)
    → (added total z then_ok counted X os) ≡ Result.ok n
    → (m : ℕ) × (z ≡ pos m) × (counted X os (total + m) ≡ Result.ok n)
counted-rest X os total n (negsuc m) got = absurd (cc)
counted-rest X os total n (pos m) got = elim (Bool-cases (ltb (total + m) 18446744073709551616)) [
  | inl small ↦ (m, refl, sym (rw small refl) ∙ got)
  | inr large ↦ absurd (cc)
]

abbrev value_or : ℕ → Result ℕ Bytes → ℕ
value_or n (Result.ok m) = m
value_or n (Result.err message) = n

-- If there is a number, all arrays are there, and it is the sum of their lengths.
pub counted-ok :
    {X : External} (h : Heap X) (ps : List Ptr) (os : List (Option X.Array)) (total n : ℕ)
    → Given h ps os
    → counted X os total ≡ Result.ok n
    → Held h ps (present os) × ((ns : List ℕ) × Lengths X (present os) ns × (n ≡ total + sum ns))
counted-ok h [] [] total n given got = (tt, ([], tt, omega (arith, ap (value_or 0) got)))
counted-ok h [] (o ∷ os) total n given got = absurd given
counted-ok h (p ∷ ps) [] total n given got = absurd given
counted-ok h (null ∷ ps) (none ∷ os) total n given got = absurd (cc)
counted-ok h (null ∷ ps) (some b ∷ os) total n given got = absurd given
counted-ok h (addr a ∷ ps) (none ∷ os) total n given got = absurd given
counted-ok {X} h (addr a ∷ ps) (some b ∷ os) total n (there, given) got =
    let (m, len, rest) = counted-rest X os total n (X.array_length b) got in
    let (held, (ns, lengths, sums)) = counted-ok h ps os (total + m) n given rest in
    ((there, held), (m ∷ ns, (len, lengths), omega (arith, sums)))
