-- ===== src/StringList/Client.antt =====
-- A caller of a listing function: the list that it gets, what the freeing function gives back, and a failure.
use lancedb_c.Prelude.{
  ℕ, suc, ◌≡◌, refl, ◌⊎◌, Bool, true, false, ◌&&◌, none, some, List, [], ◌∷◌, map, length,
  replicate, ◌==◌, arith, ◌∙◌, sym, if◌then◌else◌, Bool-cases, inl, inr,
}
use lancedb_c.Text.{Bytes, codes}
use lancedb_c.External.{External}
use lancedb_c.Memory.{
  Ptr, null, addr, pointers, pointer_slot, count_slot, Heap, ok, write, push, malloc, decided,
  grants, write_count, pure, ◌>>◌,
}
use lancedb_c.Memory.Laws.{IsWf, live-lt-next, write_pointer-ok, write_count-ok, release-ok}
use lancedb_c.Memory.Arrays.{has, slots_full, Elements-map, freed_all, mem-freed_all}
use lancedb_c.Memory.Texts.{AllTexts, AllTexts-frame}
use lancedb_c.Memory.Returns
use lancedb_c.Memory.Returns.{Returns}
use lancedb_c.Error.{success, unknown, set_unknown_error_message}
use lancedb_c.Error.Messages.{MessageSlot, Reported, set_unknown_error_message-Reported}
use lancedb_c.StringList.{
  write_names, finish_names, export_array, export_names, lancedb_free_table_names,
}
use lancedb_c.StringList.Laws.{all_clean, Filled, Written, write_names-Written, free_elements_lem}

-- From `h` to `g` the caller's variables at `n` and `c` got a new array of new strings and their count, and nothing else
-- changed.
pub record Exported {X : External} (h : Heap X) (n c : ℕ) (names : List Bytes) (g : Heap X)
    : Type 0 where
  pub base : ℕ
  pub strings : List Ptr
  pub out : g.mem n ≡ some (pointer_slot (addr base))
  pub count : g.mem c ≡ some (count_slot (length names))
  pub array : g.mem base ≡ some (pointers (map some strings))
  pub counted : length strings ≡ length names
  pub apart : has base strings ≡ false
  pub texts : AllTexts g strings names
  pub fresh : (b : ℕ) → ((b == base) ≡ true) ⊎ (has b strings ≡ true) → h.mem b ≡ none
  pub same :
      (b : ℕ)
      → (b == n) ≡ false
      → (b == c) ≡ false
      → (b == base) ≡ false
      → has b strings ≡ false
      → g.mem b ≡ h.mem b

-- A caller that hands the list and its count to the freeing function has the memory from before, but for its two variables.
pub lancedb_free_table_names-Exported :
    {X : External} (h g : Heap X) (n c : ℕ) (names : List Bytes) (x : Exported h n c names g)
    → Returns
        (λ _ k. (b : ℕ) → (b == n) ≡ false → (b == c) ≡ false → k.mem b ≡ h.mem b)
        (lancedb_free_table_names (addr x.base) (length names) g)
unfolding lancedb_free_table_names write
lancedb_free_table_names-Exported h g n c names x = rw (sym x.counted) (
    rw
      (free_elements_lem x.base (map some x.strings) g 0 x.strings names x.array
        (Elements-map x.strings) x.apart x.texts)
      (rw
        (release-ok (freed_all x.strings g) x.base (pointers (map some x.strings))
          (rw (mem-freed_all x.strings g x.base, x.apart) x.array))
        (λ b b_n b_c. ground (arith, mem-freed_all x.strings g b, x.same b, x.fresh b))))

module _ {X : External} (h : Heap X) (c old_count : ℕ) (name : Bytes) (names : List Bytes)
    (counter : h.mem c ≡ some (count_slot old_count)) (wf : IsWf h) where
  -- the memory with the count, and with the array
  counted : Heap X
  counted = write h c (some (count_slot (length (name ∷ names))))

  arrayed : Heap X
  unfolding counted
  arrayed = push (decided counted) (pointers (replicate (length (name ∷ names)) none))

  mem-arrayed :
      (b : ℕ)
      → arrayed.mem b ≡ (
          if b == h.next
          then some (pointers (replicate (length (name ∷ names)) none))
          else if b == c
          then some (count_slot (length (name ∷ names)))
          else h.mem b)
  unfolding arrayed counted push write decided
  mem-arrayed b = refl

  next-arrayed : arrayed.next ≡ suc h.next
  unfolding arrayed counted push write decided
  next-arrayed = refl

  IsWf-arrayed : IsWf arrayed
  IsWf-arrayed = record {
    unused = λ b le.
        ground (arith, mem-arrayed b, next-arrayed, wf.unused b, live-lt-next c _ wf counter);
  }

  write_counted : write_count (addr c) (length (name ∷ names)) h ≡ ok tt counted
  unfolding counted
  write_counted = write_count-ok h c old_count (length (name ∷ names)) counter

  malloc_granted :
      grants h.mallocs ≡ true
      → malloc (pointers (replicate (length (name ∷ names)) none)) counted
        ≡ ok (addr h.next) arrayed
  unfolding malloc arrayed counted write
  malloc_granted granted = rw granted

  malloc_denied :
      grants h.mallocs ≡ false
      → malloc (pointers (replicate (length (name ∷ names)) none)) counted
        ≡ ok null (decided counted)
  unfolding malloc counted write
  malloc_denied denied = rw denied

  written :
      Returns
        (Written arrayed h.next [] (name ∷ names))
        (write_names 0 (addr h.next) (name ∷ names) arrayed)
  written =
      write_names-Written h.next (name ∷ names) arrayed [] [] (ground (arith, mem-arrayed h.next))
        refl tt IsWf-arrayed

module _ {X : External} (h : Heap X) (n c old_count : ℕ) (old : Ptr) (em : Ptr) (name : Bytes)
    (names : List Bytes) (out : h.mem n ≡ some (pointer_slot old))
    (counter : h.mem c ≡ some (count_slot old_count)) (wf : IsWf h) where
  -- Without a NUL byte in a name the caller's variables get the list.
  finished :
      (g : Heap X)
      → Filled (arrayed h c old_count name names counter wf) h.next [] (name ∷ names) g
      → Returns
          (λ code k. (code ≡ success) × Exported h n c (name ∷ names) k)
          (finish_names (addr h.next) (addr n) em true g)
  unfolding finish_names write
  finished g f = rw (write_pointer-ok g n old (addr h.next) out_there) (
    refl,
    record {
      base = h.next;
      strings = f.new;
      out = ground arith;
      count = ground (arith, n_c, counter_there);
      array = ground (arith, f.array, slots_full f.new, n_l);
      counted = f.count;
      apart = f.apart;
      texts =
          AllTexts-frame g (write g n (some (pointer_slot (addr h.next)))) f.new (name ∷ names)
            (λ b in_new. ground (arith, n_out)) f.texts;
      fresh = λ b one.
          ground
            (arith, f.fresh b, mem-arrayed h c old_count name names counter wf b, wf.unused h.next);
      same = λ b b_n b_c b_l b_out.
          ground (arith, f.same b, mem-arrayed h c old_count name names counter wf b);
    },
  )
    where
      n_c : (c == n) ≡ false
      n_c = ground (arith, out, counter)

      n_l : (h.next == n) ≡ false
      n_l = ground (arith, live-lt-next n (pointer_slot old) wf out)

      c_l : (h.next == c) ≡ false
      c_l = ground (arith, live-lt-next c (count_slot old_count) wf counter)

      out_arrayed : (arrayed h c old_count name names counter wf).mem n ≡ some (pointer_slot old)
      out_arrayed = ground (arith, mem-arrayed h c old_count name names counter wf n, n_c, n_l, out)

      counter_arrayed :
          (arrayed h c old_count name names counter wf).mem c
          ≡ some (count_slot (length (name ∷ names)))
      counter_arrayed = ground (arith, mem-arrayed h c old_count name names counter wf c, c_l)

      n_out : has n f.new ≡ false
      n_out = elim (Bool-cases (has n f.new)) [
        | inl in_new ↦ absurd (ground (arith, f.fresh n in_new, out_arrayed))
        | inr free ↦ free
      ]

      c_out : has c f.new ≡ false
      c_out = elim (Bool-cases (has c f.new)) [
        | inl in_new ↦ absurd (ground (arith, f.fresh c in_new, counter_arrayed))
        | inr free ↦ free
      ]

      out_there : g.mem n ≡ some (pointer_slot old)
      out_there = f.same n n_out (ground (arith, n_l)) ∙ out_arrayed

      counter_there : g.mem c ≡ some (count_slot (length (name ∷ names)))
      counter_there = f.same c c_out (ground (arith, c_l)) ∙ counter_arrayed

  -- If the allocation succeeds and no name has a NUL byte, a listing function stores the count and a new array with a new
  -- string for each name, in order, and reports success.
  pub export_names-Exported :
      grants h.mallocs ≡ true
      → all_clean (name ∷ names) ≡ true
      → Returns
          (λ code g. (code ≡ success) × Exported h n c (name ∷ names) g)
          (export_names (name ∷ names) (addr n) (addr c) em h)
  unfolding export_names export_array
  export_names-Exported granted clean =
      rw
        (
          write_counted h c old_count name names counter wf,
          malloc_granted h c old_count name names counter wf granted,
        )
        (Returns.bind
          (Written (arrayed h c old_count name names counter wf) h.next [] (name ∷ names)) _
          (write_names 0 (addr h.next) (name ∷ names) (arrayed h c old_count name names counter wf))
          _ (written h c old_count name names counter wf) outcome)
    where
      outcome :
          (b : Bool) (g : Heap X)
          → Written (arrayed h c old_count name names counter wf) h.next [] (name ∷ names) b g
          → Returns
              (λ code k. (code ≡ success) × Exported h n c (name ∷ names) k)
              (finish_names (addr h.next) (addr n) em b g)
      outcome true g (_, f) = finished g f
      outcome false g (dirty, _) = absurd (cc)

-- The memory in which only the caller's count was written.
abbrev pub OnlyCount : {X : External} → Heap X → ℕ → ℕ → Heap X → Type 0
OnlyCount h c count k = (b : ℕ) → k.mem b ≡ (if b == c then some (count_slot count) else h.mem b)

module _ {X : External} (h : Heap X) (n c old_count : ℕ) (em : Ptr) (name : Bytes)
    (names : List Bytes) (counter : h.mem c ≡ some (count_slot old_count)) (slot : MessageSlot h em)
    (wf : IsWf h) where
  slot_kept :
      (k : Heap X) (p : Ptr)
      → MessageSlot h p
      → OnlyCount h c (length (name ∷ names)) k
      → MessageSlot k p
  slot_kept k null there only = tt
  slot_kept k (addr m) (old, there) only = (old, ground (arith, only m))

  unknown-Reported :
      (k : Heap X)
      → OnlyCount h c (length (name ∷ names)) k
      → IsWf k
      → Returns
          (λ code g.
            (code ≡ unknown)
            × ((k' : Heap X) × OnlyCount h c (length (name ∷ names)) k'
                × Reported (codes "Unknown error") em k' g))
          ((set_unknown_error_message em >> pure unknown) k)
  unknown-Reported k only wf' =
      Returns.bind (λ _ g. Reported (codes "Unknown error") em k g) _
        (set_unknown_error_message em k) _
        (set_unknown_error_message-Reported k em (slot_kept k em slot only) wf')
        λ _ g done. (refl, (k, only, done))

  -- If the array cannot be allocated, or some name has a NUL byte, a listing function reports an unknown error, and what
  -- it allocated for the list is given back: of the memory from before only the count changed, besides the message.
  pub export_names-unknown :
      (grants h.mallocs && all_clean (name ∷ names)) ≡ false
      → Returns
          (λ code g.
            (code ≡ unknown)
            × ((k : Heap X) × OnlyCount h c (length (name ∷ names)) k
                × Reported (codes "Unknown error") em k g))
          (export_names (name ∷ names) (addr n) (addr c) em h)
  unfolding export_names export_array finish_names counted decided write
  export_names-unknown failed = elim (Bool-cases (grants h.mallocs)) [
    | inl granted ↦
        rw
          (
            write_counted h c old_count name names counter wf,
            malloc_granted h c old_count name names counter wf granted,
          )
          (Returns.bind
            (Written (arrayed h c old_count name names counter wf) h.next [] (name ∷ names)) _
            (write_names 0 (addr h.next) (name ∷ names)
              (arrayed h c old_count name names counter wf))
            _ (written h c old_count name names counter wf) (outcome granted))
    | inr denied ↦
        rw
          (
            write_counted h c old_count name names counter wf,
            malloc_denied h c old_count name names counter wf denied,
          )
          (unknown-Reported (decided (counted h c old_count name names counter wf)) only_denied
            wf_denied)
  ]
    where
      only_denied :
          OnlyCount h c
            (length (name ∷ names))
            (decided (counted h c old_count name names counter wf))
      only_denied b = refl

      wf_denied : IsWf (decided (counted h c old_count name names counter wf))
      wf_denied = record {
        unused = λ b le. ground (arith, wf.unused b, live-lt-next c _ wf counter);
      }

      outcome :
          grants h.mallocs ≡ true
          → (b : Bool) (g : Heap X)
          → Written (arrayed h c old_count name names counter wf) h.next [] (name ∷ names) b g
          → Returns
              (λ code k.
                (code ≡ unknown)
                × ((k' : Heap X) × OnlyCount h c (length (name ∷ names)) k'
                    × Reported (codes "Unknown error") em k' k))
              (finish_names (addr h.next) (addr n) em b g)
      outcome granted true g (clean, _) = absurd (cc)
      outcome granted false g (_, d) =
          unknown-Reported g
            (λ b. ground (
              arith,
              d.mem b,
              mem-arrayed h c old_count name names counter wf b,
              wf.unused h.next,
              live-lt-next c (count_slot old_count) wf counter,
            ))
            d.wf
