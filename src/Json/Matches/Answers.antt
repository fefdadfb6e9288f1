-- ===== src/Json/Matches/Answers.antt =====
-- The answers of lancedb_json_matches, and the end of its run with flags or a failure.
use lancedb_c.Prelude.{
  ℕ, zero, suc, ◌+◌, ◌≡◌, refl, Bool, true, false, none, some, List, [], ◌∷◌, map, length,
  replicate, ◌==◌, arith, ap, ◌∙◌, subst, if◌then◌else◌,
}
use lancedb_c.External.{External, Result}
use lancedb_c.Memory.{
  Ptr, null, addr, Cell, expr, bools, pointer_slot, count_slot, Heap, ok, write, push, decided,
  grants, malloc,
}
use lancedb_c.Memory.Laws.{IsWf, write_pointer-ok, write_count-ok, live-lt-next}
use lancedb_c.Memory.Arrays.{slots, slots_full}
use lancedb_c.Memory.Returns
use lancedb_c.Memory.Returns.{Returns}
use lancedb_c.Error.{LanceDbError, success}
use lancedb_c.Error.Messages.{MessageSlot, Told, set_custom_error_message-Told}
use lancedb_c.Json.Matches.{Failure, fail_with, finish_matches, match_rows}
use lancedb_c.Json.Matches.Loop.{Looped, Counted}

-- From `k` to `g` the variables at `r` and `c` got a new array with the flags and their number, and nothing else changed.
pub record Listed {X : External} (k : Heap X) (r c : ℕ) (flags : List Bool) (g : Heap X)
    : Type 0 where
  pub at : ℕ
  pub fresh : k.mem at ≡ none
  pub out : g.mem r ≡ some (pointer_slot (addr at))
  pub count : g.mem c ≡ some (count_slot (length flags))
  pub holds : g.mem at ≡ some (bools (map some flags))
  pub same : (b : ℕ) → (b == r) ≡ false → (b == c) ≡ false → (b == at) ≡ false → g.mem b ≡ k.mem b

-- The answer of the function: flags in a new array, null for none, or a failure's code and message and no other change.
abbrev pub Answered :
    {X : External}
    → Heap X
    → ℕ
    → ℕ
    → Ptr
    → Result (List Bool) Failure
    → LanceDbError
    → Heap X
    → Type 0
Answered k r c em (Result.ok []) code g =
    (code ≡ success)
    × ((b : ℕ)
        → g.mem b ≡ (
            if b == c
            then some (count_slot 0)
            else if b == r
            then some (pointer_slot null)
            else k.mem b))
Answered k r c em (Result.ok (f ∷ fs)) code g = (code ≡ success) × Listed k r c (f ∷ fs) g
Answered {X} k r c em (Result.err (failed, message)) code g =
    (code ≡ failed) × ((m : Heap X) × ((b : ℕ) → m.mem b ≡ k.mem b) × Told message em m g)

pub MessageSlot-same :
    {X : External} (h g : Heap X) (p : Ptr)
    → ((b : ℕ) → g.mem b ≡ h.mem b)
    → MessageSlot h p
    → MessageSlot g p
MessageSlot-same h g null same slot = tt
MessageSlot-same h g (addr a) same (old, live) = (old, same a ∙ live)

pub MessageSlot-write :
    {X : External} (h : Heap X) (x : ℕ) (p : Ptr) (e : X.Expr)
    → h.mem x ≡ some (expr e)
    → MessageSlot h p
    → MessageSlot (write h x none) p
unfolding write
MessageSlot-write h x null e filter slot = tt
MessageSlot-write h x (addr a) e filter (old, live) = (old, ground arith)

pub add-zero : (n : ℕ) → 0 + n ≡ n
add-zero n = omega arith

module _ {X : External} (k : Heap X) where
  -- the memory with the new array of flags that are not written yet
  unfoldable pub roomy : ℕ → Heap X
  roomy n = push (decided k) (bools (replicate (suc n) none))

  pub below : (wf : IsWf k) (b : ℕ) (cell : Cell X) → k.mem b ≡ some cell → (b == k.next) ≡ false
  below wf b cell live = ground (arith, live-lt-next b cell wf live)

  pub kept :
      (wf : IsWf k) (n b : ℕ) (cell : Cell X) → k.mem b ≡ some cell → (roomy n).mem b ≡ some cell
  unfolding roomy push write decided
  kept wf n b cell live = ground (arith, below wf b cell live)

  pub malloc-roomy :
      (n : ℕ)
      → grants k.mallocs ≡ true
      → malloc (bools (replicate (suc n) none)) k ≡ ok (addr k.next) (roomy n)
  unfolding roomy malloc
  malloc-roomy n granted = rw granted refl

  pub mem-roomy_new : (n m : ℕ) → suc n ≡ m → (roomy n).mem k.next ≡ some (bools (slots [] m))
  unfolding roomy push write decided
  mem-roomy_new n m same =
      subst (λ m. (roomy n).mem k.next ≡ some (bools (slots [] m))) same (ground arith)

  pub IsWf-roomy : (n : ℕ) → IsWf k → IsWf (roomy n)
  unfolding roomy push write decided
  IsWf-roomy n wf = record { unused = λ b le. ground (arith, wf.unused b) }

module _ {X : External} (k : Heap X) (r c : ℕ) (em : Ptr) (old : Ptr) (old_count : ℕ)
    (out : k.mem r ≡ some (pointer_slot old)) (counter : k.mem c ≡ some (count_slot old_count))
    (slot : MessageSlot k em) (wf : IsWf k) where
  pub fail_with-Answered :
      (failure : Failure) (m : Heap X)
      → ((b : ℕ) → m.mem b ≡ k.mem b)
      → MessageSlot m em
      → IsWf m
      → Returns (Answered k r c em (Result.err failure)) (fail_with failure em m)
  unfolding fail_with
  fail_with-Answered (failed, message) m same m_slot m_wf =
      Returns.bind (λ _ g. Told message em m g) _ _ _
        (set_custom_error_message-Told m em message m_slot m_wf) λ _ g told. (refl, (m, same, told))

  pub none-Answered :
      (l : Ptr) (sc : X.Schema) (n : ℕ) (pe : X.PhysicalExpr)
      → Returns
          (Answered k r c em (Result.ok []))
          (match_rows zero l sc n pe (addr r) (addr c) em k)
  unfolding match_rows write
  none-Answered l sc n pe = rw (write_pointer-ok k r old null out) (
      rw
        (write_count-ok (write k r (some (pointer_slot null))) c old_count 0
          (ground (arith, out, counter)))
        (refl, λ b. ground arith))

  pub finish_matches-Answered :
      (n : ℕ) (flags : Result (List Bool) Failure) (done : Result (Unit {0}) Failure) (g : Heap X)
      → Counted flags (suc n)
      → Looped k.next (roomy k n) [] flags done g
      → Returns
          (Answered k r c em flags)
          (finish_matches done (addr k.next) (suc n) (addr r) (addr c) em g)
  unfolding finish_matches roomy push write decided
  finish_matches-Answered n (Result.err failure) done g counted (failed, freed, g_wf) =
      rw failed (fail_with-Answered failure g back (MessageSlot-same k g em back slot) g_wf)
    where
      back : (b : ℕ) → g.mem b ≡ k.mem b
      back b = ground (arith, freed b, wf.unused b)
  finish_matches-Answered n (Result.ok []) done g counted (passed, filled) =
      absurd (omega (arith, counted))
  finish_matches-Answered n (Result.ok (f ∷ fs)) done g counted (passed, filled) = rw passed (
      rw
        (write_pointer-ok g r old (addr k.next)
          (filled.same r (below k wf r _ out) ∙ kept k wf n r _ out))
        (rw
          (write_count-ok (write g r (some (pointer_slot (addr k.next)))) c old_count (suc n)
            (ground (arith, filled.same c, below k wf c _ counter, counter, out)))
          (
            refl,
            record {
              at = k.next;
              fresh = wf.unused k.next (omega arith);
              out = ground (arith, out, counter);
              count = ground (arith, counted);
              holds =
                  ground (arith, below k wf r _ out, below k wf c _ counter)
                  ∙ filled.holds
                  ∙ ap (λ l. some (bools l)) (slots_full (f ∷ fs));
              same = λ b b_r b_c b_at. ground (arith, filled.same b);
            },
          )))
