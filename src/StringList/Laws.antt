-- ===== src/StringList/Laws.antt =====
-- The loop of a listing function: what the caller gets, what it frees, and that a failure leaves nothing behind.

use lancedb_c.Prelude.{
  ℕ, suc, ◌≡◌, refl, Bool, true, false, Option, none, some, List, [], ◌∷◌, ◌++◌, length, ◌==◌,
  arith, ◌∙◌, ap, subst, Bool-cases, inl, inr, if◌then◌else◌,
}
use mathlib.Core.List.{append_assoc, append-nil}
use lancedb_c.Text.{Bytes, has_nul}
use lancedb_c.External.{External}
use lancedb_c.Memory.{Ptr, null, addr, Cell, text, pointers, Heap, ok, write, push, alloc, store_at}
use lancedb_c.Memory.Laws.{
  IsWf, live-lt-next, mem-push_old, mem-write_ne, load_at-ok, store_at-ok, take_text-ok, release-ok,
}
use lancedb_c.Memory.Arrays.{
  has, Elements, Elements-slots, slots, get_elem?-slots, set-slots, has-append, length-snoc,
  freed_all, mem-freed_all, freed_all-IsWf,
}
use lancedb_c.Memory.Texts.{AllTexts, AllTexts-frame, AllTexts-live}
use lancedb_c.Memory.Returns
use lancedb_c.Memory.Returns.{Returns}
use lancedb_c.StringList.{drop_written, write_names, free_elements}

-- whether no name has a NUL byte
abbrev pub all_clean : List Bytes → Bool
all_clean [] = true
all_clean (n ∷ ns) = if has_nul n then false else all_clean ns

-- the strings without the box at `a`
AllTexts-write :
    {X : External} (h : Heap X) (a : ℕ) (c : Option (Cell X)) (ps : List Ptr) (ss : List Bytes)
    → has a ps ≡ false
    → AllTexts h ps ss
    → AllTexts (write h a c) ps ss
AllTexts-write h a c ps ss out texts =
    AllTexts-frame h (write h a c) ps ss (λ b in_ps. kept b in_ps) texts
  where
    kept : (b : ℕ) → has b ps ≡ true → (write h a c).mem b ≡ h.mem b
    kept b in_ps = elim (Bool-cases (b == a)) [
      | inl same ↦ absurd (ground arith)
      | inr other ↦ mem-write_ne h a b c other
    ]

module _ {X : External} (l : ℕ) (cells : List (Option Ptr)) where
  -- The clean-up loop takes every string that was written.
  pub drop_written_lem :
      (h : Heap X) (j : ℕ) (ps : List Ptr) (ss : List Bytes)
      → h.mem l ≡ some (pointers cells)
      → Elements cells j ps
      → has l ps ≡ false
      → AllTexts h ps ss
      → drop_written (length ps) j (addr l) h ≡ ok tt (freed_all ps h)
  unfolding drop_written
  drop_written_lem h j [] [] array at out texts = refl
  drop_written_lem h j [] (s ∷ ss) array at out texts = absurd texts
  drop_written_lem h j (p ∷ ps) [] array at out texts = absurd texts
  drop_written_lem h j (null ∷ ps) (s ∷ ss) array at out texts = absurd texts
  drop_written_lem h j (addr a ∷ ps) (s ∷ ss) array (at, rest) out (live, apart, texts) =
      rw (load_at-ok h l j cells (addr a) array at) (
        rw (take_text-ok h a s live) (
          drop_written_lem (write h a none) (suc j) ps ss
            (mem-write_ne h a l none (ground arith) ∙ array) rest (ground arith)
            (AllTexts-write h a none ps ss apart texts)))

  -- So does the loop of the freeing functions.
  pub free_elements_lem :
      (h : Heap X) (j : ℕ) (ps : List Ptr) (ss : List Bytes)
      → h.mem l ≡ some (pointers cells)
      → Elements cells j ps
      → has l ps ≡ false
      → AllTexts h ps ss
      → free_elements (length ps) j (addr l) h ≡ ok tt (freed_all ps h)
  unfolding free_elements
  free_elements_lem h j [] [] array at out texts = refl
  free_elements_lem h j [] (s ∷ ss) array at out texts = absurd texts
  free_elements_lem h j (p ∷ ps) [] array at out texts = absurd texts
  free_elements_lem h j (null ∷ ps) (s ∷ ss) array at out texts = absurd texts
  free_elements_lem h j (addr a ∷ ps) (s ∷ ss) array (at, rest) out (live, apart, texts) =
      rw (load_at-ok h l j cells (addr a) array at) (
        rw (take_text-ok h a s live) (
          free_elements_lem (write h a none) (suc j) ps ss
            (mem-write_ne h a l none (ground arith) ∙ array) rest (ground arith)
            (AllTexts-write h a none ps ss apart texts)))

-- From `h` to `g` the array at `l` was filled up: behind the strings `ps` that it had stand new ones with these names.
pub record Filled {X : External} (h : Heap X) (l : ℕ) (ps : List Ptr) (names : List Bytes)
    (g : Heap X) : Type 0 where
  pub new : List Ptr
  pub array : g.mem l ≡ some (pointers (slots (ps ++ new) 0))
  pub count : length new ≡ length names
  pub apart : has l new ≡ false
  pub texts : AllTexts g new names
  pub fresh : (b : ℕ) → has b new ≡ true → h.mem b ≡ none
  pub same : (b : ℕ) → has b new ≡ false → (b == l) ≡ false → g.mem b ≡ h.mem b
  pub wf : IsWf g

-- From `h` to `g` the array at `l` and the strings `ps` were given back, and nothing else changed.
pub record Dropped {X : External} (h : Heap X) (l : ℕ) (ps : List Ptr) (g : Heap X) : Type 0 where
  pub mem : (b : ℕ) → g.mem b ≡ (if has b ps then none else if b == l then none else h.mem b)
  pub wf : IsWf g

abbrev pub Written : {X : External} → Heap X → ℕ → List Ptr → List Bytes → Bool → Heap X → Type 0
Written h l ps names true g = (all_clean names ≡ true) × Filled h l ps names g
Written h l ps names false g = (all_clean names ≡ false) × Dropped h l ps g

AllTexts-snoc :
    {X : External} (h : Heap X) (a : ℕ) (s : Bytes) (ps : List Ptr) (ss : List Bytes)
    → AllTexts h ps ss
    → has a ps ≡ false
    → h.mem a ≡ some (text s)
    → AllTexts h (ps ++ (addr a ∷ [])) (ss ++ (s ∷ []))
AllTexts-snoc h a s [] [] texts out live = (live, refl, tt)
AllTexts-snoc h a s [] (t ∷ ss) texts out live = absurd texts
AllTexts-snoc h a s (p ∷ ps) [] texts out live = absurd texts
AllTexts-snoc h a s (null ∷ ps) (t ∷ ss) texts out live = absurd texts
AllTexts-snoc h a s (addr b ∷ ps) (t ∷ ss) (there, apart, texts) out live = (
  there,
  ground (arith, has-append b ps (addr a ∷ [])),
  AllTexts-snoc h a s ps ss texts (ground arith) live,
)

module _ {X : External} (h : Heap X) (l : ℕ) (ps : List Ptr) (n : ℕ) (name : Bytes)
    (array : h.mem l ≡ some (pointers (slots ps (suc n)))) (wf : IsWf h) where
  -- the memory after one round
  next_round : Heap X
  next_round = write (push h (text name)) l (some (pointers (slots (ps ++ (addr h.next ∷ [])) n)))

  mem-next_round :
      (b : ℕ)
      → next_round.mem b ≡ (
          if b == l
          then some (pointers (slots (ps ++ (addr h.next ∷ [])) n))
          else if b == h.next
          then some (text name)
          else h.mem b)
  unfolding next_round write push
  mem-next_round b = refl

  below : (l == h.next) ≡ false
  below = ground (arith, live-lt-next l _ wf array)

  round_store : store_at (addr l) (length ps) (addr h.next) (push h (text name)) ≡ ok tt next_round
  unfolding next_round
  round_store =
      store_at-ok (push h (text name)) l (length ps) (slots ps (suc n)) (addr h.next) none
        (mem-push_old l _ _ wf array) (get_elem?-slots ps n)
      ∙ ap (λ c. ok tt (write (push h (text name)) l (some (pointers c))))
          (set-slots ps n (addr h.next))

  array_next : next_round.mem l ≡ some (pointers (slots (ps ++ (addr h.next ∷ [])) n))
  array_next = ground (arith, mem-next_round l)

  out_next : has l ps ≡ false → has l (ps ++ (addr h.next ∷ [])) ≡ false
  out_next out = ground (arith, has-append l ps (addr h.next ∷ []), below)

  fresh_out : (ss : List Bytes) → AllTexts h ps ss → has h.next ps ≡ false
  fresh_out ss texts = elim (Bool-cases (has h.next ps)) [
    | inl in_ps ↦
        let (s, there) = AllTexts-live h h.next ps ss texts in_ps in
        absurd (ground (arith, wf.unused h.next))
    | inr out ↦ out
  ]

  texts_next :
      (ss : List Bytes)
      → has l ps ≡ false
      → AllTexts h ps ss
      → AllTexts next_round (ps ++ (addr h.next ∷ [])) (ss ++ (name ∷ []))
  texts_next ss out texts =
      AllTexts-snoc next_round h.next name ps ss
        (AllTexts-frame h next_round ps ss
          (λ b in_ps. ground (arith, mem-next_round b, out, fresh_out ss texts)) texts)
        (fresh_out ss texts) (ground (arith, mem-next_round h.next, below))

  IsWf-next_round : IsWf next_round
  unfolding next_round write push
  IsWf-next_round = record {
    unused = λ b le. ground (arith, wf.unused b, live-lt-next l _ wf array);
  }

  -- What the later rounds leave, seen from before this one.
  Written-round :
      (names : List Bytes) (b : Bool) (g : Heap X)
      → has_nul name ≡ false
      → has l ps ≡ false
      → has h.next ps ≡ false
      → Written next_round l (ps ++ (addr h.next ∷ [])) names b g
      → Written h l ps (name ∷ names) b g
  Written-round names true g clean out fresh_out (all, f) = (
    rw clean all,
    record {
      new = addr h.next ∷ f.new;
      array =
          f.array
          ∙ ap (λ qs. some (pointers (slots qs 0))) (append_assoc ps (addr h.next ∷ []) f.new);
      count = ap suc f.count;
      apart = ground (arith, below, f.apart);
      texts = (f.same h.next next_out next_l ∙ next_text, next_out, f.texts);
      fresh = λ c in_new. ground (arith, f.fresh c, mem-next_round c, wf.unused h.next);
      same = λ c c_out c_l. ground (arith, f.same c, mem-next_round c);
      wf = f.wf;
    },
  )
    where
      next_l : (h.next == l) ≡ false
      next_l = ground (arith, below)

      next_text : next_round.mem h.next ≡ some (text name)
      next_text = ground (arith, mem-next_round h.next, below)

      next_out : has h.next f.new ≡ false
      next_out = elim (Bool-cases (has h.next f.new)) [
        | inl in_new ↦ absurd (ground (arith, f.fresh h.next in_new, next_text))
        | inr free ↦ free
      ]
  Written-round names false g clean out fresh_out (some_dirty, d) = (
    rw clean some_dirty,
    record {
      mem = λ c. ground (
        arith,
        d.mem c,
        mem-next_round c,
        has-append c ps (addr h.next ∷ []),
        wf.unused h.next,
        below,
      );
      wf = d.wf;
    },
  )

-- Without the array and the strings.
dropped :
    {X : External} (h : Heap X) (l : ℕ) (ps : List Ptr)
    → IsWf h
    → Dropped h l ps (write (freed_all ps h) l none)
unfolding write
dropped h l ps wf = record {
  mem = λ b. ground (arith, mem-freed_all ps h b);
  wf = record { unused = λ b le. ground (arith, (freed_all-IsWf ps h wf).unused b) };
}

module _ {X : External} (l : ℕ) where
  -- The loop over the names fills the array, or takes everything back if some name is no C string.
  pub write_names-Written :
      (names : List Bytes) (h : Heap X) (ps : List Ptr) (ss : List Bytes)
      → h.mem l ≡ some (pointers (slots ps (length names)))
      → has l ps ≡ false
      → AllTexts h ps ss
      → IsWf h
      → Returns (Written h l ps names) (write_names (length ps) (addr l) names h)
  unfolding write_names alloc
  write_names-Written [] h ps ss array out texts wf = (
    refl,
    record {
      new = [];
      array = rw (append-nil ps) array;
      count = refl;
      apart = refl;
      texts = tt;
      fresh = λ b in_new. absurd (cc);
      same = λ b b_out b_l. refl;
      wf = wf;
    },
  )
  write_names-Written (name ∷ names) h ps ss array out texts wf = elim (Bool-cases (has_nul name)) [
    | inl dirty ↦
        rw (dirty, write_names)
          (rw
            (drop_written_lem l (slots ps (suc (length names))) h 0 ps ss array
              (Elements-slots ps (suc (length names))) out texts)
            (rw
              (release-ok (freed_all ps h) l (pointers (slots ps (suc (length names))))
                (rw (mem-freed_all ps h l, out) array))
              (rw dirty refl, dropped h l ps wf)))
    | inr clean ↦
        rw (clean, write_names)
          (rw (round_store h l ps (length names) name array wf) (
            Returns.mono
              (Written (next_round h l ps (length names) name array wf) l (ps ++ (addr h.next ∷ []))
                names)
              _ _
              (subst
                (λ i.
                  Returns
                    (Written (next_round h l ps (length names) name array wf) l
                      (ps ++ (addr h.next ∷ [])) names)
                    (write_names i (addr l) names (next_round h l ps (length names) name array wf)))
                (length-snoc ps (addr h.next))
                (write_names-Written names (next_round h l ps (length names) name array wf)
                  (ps ++ (addr h.next ∷ [])) (ss ++ (name ∷ []))
                  (array_next h l ps (length names) name array wf)
                  (out_next h l ps (length names) name array wf out)
                  (texts_next h l ps (length names) name array wf ss out texts)
                  (IsWf-next_round h l ps (length names) name array wf)))
              (λ b g.
                Written-round h l ps (length names) name array wf names b g clean out
                  (fresh_out h l ps (length names) name array wf ss texts))))
  ]
