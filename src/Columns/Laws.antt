-- ===== src/Columns/Laws.antt =====
-- What the loop over column names reads, and when it stops early.
use lancedb_c.Prelude.{
  ℕ, suc, ◌≡◌, refl, Option, none, some, List, [], ◌∷◌, ◌++◌, length, ap, ◌∙◌, if◌then◌else◌,
  Bool-cases, inl, inr,
}
use mathlib.Core.Option
use mathlib.Core.List.{append_assoc, append-nil}
use lancedb_c.Text.{Bytes, is_utf8}
use lancedb_c.External.{External}
use lancedb_c.Memory.{Ptr, null, addr, text, pointers, Heap, ok}
use lancedb_c.Memory.Laws.{load_str-some, load_str-none, load_at-ok}
use lancedb_c.Memory.Arrays.{Elements}
use lancedb_c.Columns.{read_columns}

-- Each pointer is null, or a string of the caller.
abbrev pub Strings : {X : External} → Heap X → List Ptr → List (Option Bytes) → Type 0
Strings h [] [] = Unit {0}
Strings h [] (o ∷ os) = ⊥
Strings h (p ∷ ps) [] = ⊥
Strings h (null ∷ ps) (o ∷ os) = (o ≡ none) × Strings h ps os
Strings h (addr a ∷ ps) (none ∷ os) = ⊥
Strings h (addr a ∷ ps) (some s ∷ os) = (h.mem a ≡ some (text s)) × Strings h ps os

-- They are after a change that keeps the strings.
pub Strings-kept :
    {X : External} (h g : Heap X) (ps : List Ptr) (os : List (Option Bytes))
    → ((a : ℕ) (s : Bytes) → h.mem a ≡ some (text s) → g.mem a ≡ some (text s))
    → Strings h ps os
    → Strings g ps os
Strings-kept h g [] [] keep strings = tt
Strings-kept h g [] (o ∷ os) keep strings = absurd strings
Strings-kept h g (p ∷ ps) [] keep strings = absurd strings
Strings-kept h g (null ∷ ps) (o ∷ os) keep (e, strings) = (e, Strings-kept h g ps os keep strings)
Strings-kept h g (addr a ∷ ps) (none ∷ os) keep strings = absurd strings
Strings-kept h g (addr a ∷ ps) (some s ∷ os) keep (live, strings) =
    (keep a s live, Strings-kept h g ps os keep strings)

-- The names, if all are there and in UTF-8.
abbrev pub all_valid : List (Option Bytes) → Option (List Bytes)
all_valid [] = some []
all_valid (none ∷ os) = none
all_valid (some s ∷ os) = if is_utf8 s then Option.map (λ ss. s ∷ ss) (all_valid os) else none

abbrev pub prefixed : List Bytes → Option (List Bytes) → Option (List Bytes)
prefixed acc none = none
prefixed acc (some ss) = some (acc ++ ss)

prefixed-snoc :
    (acc : List Bytes) (s : Bytes) (o : Option (List Bytes))
    → prefixed (acc ++ (s ∷ [])) o ≡ prefixed acc (Option.map (λ ss. s ∷ ss) o)
prefixed-snoc acc s none = refl
prefixed-snoc acc s (some ss) = ap some (append_assoc acc (s ∷ []) ss)

-- Over elements that are each null or point to a string, the loop yields the names after those it has, in order, or stops
-- early if one is null or not UTF-8. It changes nothing in memory.
pub read_columns_lem :
    {X : External} (h : Heap X) (l i : ℕ) (cells : List (Option Ptr)) (ps : List Ptr)
    (os : List (Option Bytes)) (acc : List Bytes)
    → h.mem l ≡ some (pointers cells)
    → Elements cells i ps
    → Strings h ps os
    → read_columns (length ps) i (addr l) acc h ≡ ok (prefixed acc (all_valid os)) h
unfolding read_columns
read_columns_lem h l i cells [] [] acc array at strings = rw (append-nil acc)
read_columns_lem h l i cells [] (o ∷ os) acc array at strings = absurd strings
read_columns_lem h l i cells (p ∷ ps) [] acc array at strings = absurd strings
read_columns_lem h l i cells (null ∷ ps) (none ∷ os) acc array (at, rest) strings =
    rw (load_at-ok h l i _ null array at)
read_columns_lem h l i cells (null ∷ ps) (some s ∷ os) acc array at (e, strings) = absurd (cc)
read_columns_lem h l i cells (addr a ∷ ps) (none ∷ os) acc array at strings = absurd strings
read_columns_lem h l i cells (addr a ∷ ps) (some s ∷ os) acc array (at, rest) (live, strings) =
    rw (load_at-ok h l i _ (addr a) array at) (elim (Bool-cases (is_utf8 s)) [
      | inl valid ↦ rw (load_str-some h a s live valid) (
          read_columns_lem h l (suc i) cells ps os (acc ++ (s ∷ [])) array rest strings
          ∙ ap (λ r. ok r h) (prefixed-snoc acc s (all_valid os))
          ∙ rw valid refl)
      | inr broken ↦ rw (load_str-none h a s live broken, broken)
    ])
