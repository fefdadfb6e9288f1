-- ===== src/Memory/Arrays.antt =====
-- Arrays of pointers: what stands in their elements.
use lancedb_c.Prelude.{
  ℕ, suc, ◌≡◌, refl, Bool, false, ◌||◌, ◌==◌, if◌then◌else◌, arith, Option, none, some, List, [],
  ◌∷◌, map, length, replicate, set, ap, ◌++◌, get_elem?,
}
use mathlib.Core.List.{append-nil}
use lancedb_c.External.{External}
use lancedb_c.Memory.{Ptr, null, addr, Heap, write}
use lancedb_c.Memory.Laws.{IsWf}

-- From index `i` on the elements are these pointers, all of them written.
abbrev pub Elements : List (Option Ptr) → ℕ → List Ptr → Type 0
Elements cells i [] = Unit {0}
Elements cells i (p ∷ ps) = (get_elem? cells i ≡ some (some p)) × Elements cells (suc i) ps

Elements-cons :
    (c : Option Ptr) (cells : List (Option Ptr)) (i : ℕ) (ps : List Ptr)
    → Elements cells i ps
    → Elements (c ∷ cells) (suc i) ps
Elements-cons c cells i [] at = tt
Elements-cons c cells i (p ∷ ps) (here, rest) = (here, Elements-cons c cells (suc i) ps rest)

pub Elements-map : (ps : List Ptr) → Elements (map some ps) 0 ps
Elements-map [] = tt
Elements-map (p ∷ ps) = (refl, Elements-cons (some p) (map some ps) 0 ps (Elements-map ps))

-- whether an address is among the handles
abbrev pub has : ℕ → List Ptr → Bool
has a [] = false
has a (null ∷ ps) = has a ps
has a (addr b ∷ ps) = (a == b) || has a ps

module _ {X : External} where
  -- the memory without the box of a handle
  abbrev pub freed : Ptr → Heap X → Heap X
  freed null h = h
  freed (addr a) h = write h a none

  -- the memory without the boxes of the handles
  abbrev pub freed_all : List Ptr → Heap X → Heap X
  freed_all [] h = h
  freed_all (p ∷ ps) h = freed_all ps (freed p h)

  pub mem-freed_all :
      (ps : List Ptr) (h : Heap X) (b : ℕ)
      → (freed_all ps h).mem b ≡ (if has b ps then none else h.mem b)
  unfolding write
  mem-freed_all [] h b = refl
  mem-freed_all (null ∷ ps) h b = mem-freed_all ps h b
  mem-freed_all (addr a ∷ ps) h b = ground (arith, mem-freed_all ps (write h a none) b)

  pub next-freed_all : (ps : List Ptr) (h : Heap X) → (freed_all ps h).next ≡ h.next
  unfolding write
  next-freed_all [] h = refl
  next-freed_all (null ∷ ps) h = next-freed_all ps h
  next-freed_all (addr a ∷ ps) h = next-freed_all ps (write h a none)

  pub freed_all-IsWf : (ps : List Ptr) (h : Heap X) → IsWf h → IsWf (freed_all ps h)
  unfolding write
  freed_all-IsWf [] h wf = wf
  freed_all-IsWf (null ∷ ps) h wf = freed_all-IsWf ps h wf
  freed_all-IsWf (addr a ∷ ps) h wf =
      freed_all-IsWf ps (write h a none) (record { unused = λ b le. ground (arith, wf.unused b) })

-- An array that is written up to some element: the pointers so far, and the elements left.
abbrev pub slots : {A : Type 0} → List A → ℕ → List (Option A)
slots ps n = map some ps ++ replicate n none

pub get_elem?-slots :
    {A : Type 0} (ps : List A) (n : ℕ) → get_elem? (slots ps (suc n)) (length ps) ≡ some none
get_elem?-slots [] n = refl
get_elem?-slots (p ∷ ps) n = get_elem?-slots ps n

pub set-slots :
    {A : Type 0} (ps : List A) (n : ℕ) (q : A)
    → set (slots ps (suc n)) (length ps) (some q) ≡ slots (ps ++ (q ∷ [])) n
set-slots [] n q = refl
set-slots (p ∷ ps) n q = ap (λ l. some p ∷ l) (set-slots ps n q)

pub Elements-slots : (ps : List Ptr) (n : ℕ) → Elements (slots ps n) 0 ps
Elements-slots [] n = tt
Elements-slots (p ∷ ps) n = (refl, Elements-cons (some p) (slots ps n) 0 ps (Elements-slots ps n))

pub slots_full : {A : Type 0} (ps : List A) → slots ps 0 ≡ map some ps
slots_full ps = append-nil (map some ps)

pub has-append : (b : ℕ) (ps qs : List Ptr) → has b (ps ++ qs) ≡ (has b ps || has b qs)
has-append b [] qs = refl
has-append b (null ∷ ps) qs = has-append b ps qs
has-append b (addr a ∷ ps) qs = ground (arith, has-append b ps qs)

pub length-snoc : {A : Type 0} (ps : List A) (q : A) → length (ps ++ (q ∷ [])) ≡ suc (length ps)
length-snoc [] q = refl
length-snoc (p ∷ ps) q = ap suc (length-snoc ps q)
