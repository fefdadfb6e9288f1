-- ===== src/Json/Matches/Loop.antt =====
-- The loop over the arrays in lancedb_json_matches, and the flags that it is to compute.
use lancedb_c.Prelude.{
  ℕ, suc, ◌+◌, ◌≡◌, ◌≢◌, refl, Bool, Option, none, some, List, [], ◌∷◌, ◌++◌, map, length, ◌==◌,
  arith, ap, sym, ◌∙◌, subst, pos, if◌then◌else◌,
}
use mathlib.Core.List.{append_assoc, append-nil}
use lancedb_c.External.{External, Result}
use lancedb_c.Memory.{Ptr, null, addr, array, bools, pointers, Heap, Cmd, pure, write}
use lancedb_c.Memory.Laws.{IsWf, write-IsWf, load_at-ok, load_array-ok, release-ok}
use lancedb_c.Memory.Arrays.{Elements, slots}
use lancedb_c.Memory.Returns
use lancedb_c.Memory.Returns.{Returns}
use lancedb_c.Json.Matches.{
  Failure, ◌then_ok◌, is_match, match_loop, match_one, finish_array, write_flags,
}
use lancedb_c.Json.Matches.Rows.{Held, Held-kept, Lengths, sum}
use lancedb_c.Json.Matches.Expected.{
  hit, rows_of, flags_of, Sound, is_match-hit, match_array-rows_of,
}
use lancedb_c.Json.Matches.Flags.{Flagged, Updated-trans, resized, write_flags-Flagged}

length-flags :
    (fs : List Bool) (flags : List (Option Bool))
    → length (fs ++ map hit flags) ≡ length fs + length flags
length-flags [] [] = omega arith
length-flags [] (b ∷ bs) = omega (arith, length-flags [] bs)
length-flags (f ∷ fs) flags = omega (arith, length-flags fs flags)

length-matches :
    (flags : List (Option Bool)) (more : List Bool)
    → length (map hit flags ++ more) ≡ length flags + length more
length-matches [] more = omega arith
length-matches (b ∷ bs) more = omega (arith, length-matches bs more)

module _ {X : External} (o : ℕ) where
  -- What the loop leaves: an array filled up with the flags, or no array.
  abbrev pub Looped :
      Heap X → List Bool → Result (List Bool) Failure → Result (Unit {0}) Failure → Heap X → Type 0
  Looped h fs (Result.ok flags) r g = (r ≡ Result.ok tt) × Flagged o h (fs ++ flags) 0 g
  Looped h fs (Result.err failure) r g =
      (r ≡ Result.err failure) × ((b : ℕ) → g.mem b ≡ (if b == o then none else h.mem b)) × IsWf g

  -- What a round leaves: the flags written, with room for `n` others, or no array.
  abbrev pub Matched :
      Heap X
      → List Bool
      → ℕ
      → Result (List (Option Bool)) Failure
      → Result ℕ Failure
      → Heap X
      → Type 0
  Matched h fs n (Result.ok flags) r g =
      (r ≡ Result.ok (length fs + length flags)) × Flagged o h (fs ++ map hit flags) n g
  Matched h fs n (Result.err failure) r g =
      (r ≡ Result.err failure) × ((b : ℕ) → g.mem b ≡ (if b == o then none else h.mem b)) × IsWf g

module _ {X : External} (o l : ℕ) (cells : List (Option Ptr)) (sc : X.Schema) (pe : X.PhysicalExpr)
    (exact : (b : X.Array) (n : ℕ) (flags : List (Option Bool))
      → X.array_length b ≡ pos n
      → rows_of X pe sc b ≡ Result.ok flags
      → length flags ≡ n) where
  finish_array-Matched :
      (h : Heap X) (fs : List Bool) (n : ℕ) (matched : Result (List (Option Bool)) Failure)
      → ((flags : List (Option Bool))
          → matched ≡ Result.ok flags
          → h.mem o ≡ some (bools (slots fs (length flags + n))))
      → (m : ℕ) → h.mem o ≡ some (bools (slots fs m))
      → IsWf h
      → Returns (Matched o h fs n matched) (finish_array matched (addr o) (length fs) h)
  unfolding finish_array write
  finish_array-Matched h fs n (Result.err failure) room m live wf =
      rw (release-ok h o (bools (slots fs m)) live) (refl, (λ b. refl), write-IsWf o _ none live wf)
  finish_array-Matched h fs n (Result.ok flags) room m live wf =
      Returns.bind (λ _ g. Flagged o h (fs ++ map is_match flags) n g) _
        (write_flags (addr o) (length fs) flags h) _
        (write_flags-Flagged o flags h fs n (room flags refl) wf)
        λ _ g done. (refl, subst (λ f. Flagged o h (fs ++ map f flags) n g) is_match-hit done)

  match_one-Matched :
      (h : Heap X) (fs : List Bool) (n a : ℕ) (b : X.Array)
      → h.mem a ≡ some (array b)
      → X.struct_batch b sc ≢ Result.ok none
      → ((flags : List (Option Bool))
          → rows_of X pe sc b ≡ Result.ok flags
          → h.mem o ≡ some (bools (slots fs (length flags + n))))
      → (m : ℕ) → h.mem o ≡ some (bools (slots fs m))
      → IsWf h
      → Returns
          (Matched o h fs n (rows_of X pe sc b))
          (match_one (addr a) sc pe (addr o) (length fs) h)
  unfolding match_one
  match_one-Matched h fs n a b there sound room m live wf =
      rw (load_array-ok h a b there, match_array-rows_of X pe sc b sound)
        (finish_array-Matched h fs n (rows_of X pe sc b) room m live wf)

  -- What the rounds after the first leave, seen from before it.
  Looped-after :
      (h g : Heap X) (fs flags : List Bool) (n : ℕ) (later : Result (List Bool) Failure)
      (r : Result (Unit {0}) Failure) (k : Heap X)
      → Flagged o h (fs ++ flags) n g
      → Looped o g (fs ++ flags) later r k
      → Looped o h fs (later then_ok λ rest. Result.ok (flags ++ rest)) r k
  Looped-after h g fs flags n (Result.ok rest) r k mid (done, end) = (
    done,
    subst (λ all. Flagged o h all 0 k) (append_assoc fs flags rest)
        (Updated-trans o h g k _ _ n 0 mid end),
  )
  Looped-after h g fs flags n (Result.err failure) r k mid (failed, freed, wf) =
      (failed, (λ b. ground (arith, freed b, mid.same b)), wf)

  -- The rounds after the first, when they are right from where it ends.
  rounds_after :
      (h : Heap X) (fs : List Bool) (bs : List X.Array) (n rounds i : ℕ)
      (matched : Result (List (Option Bool)) Failure)
      → ((g : Heap X) (gs : List Bool)
          → Flagged o h gs n g
          → Returns
              (Looped o g gs (flags_of X pe sc bs))
              (match_loop rounds (suc i) (addr l) sc pe (addr o) (length gs) g))
      → (r : Result ℕ Failure) (g : Heap X) → Matched o h fs n matched r g
      → Returns
          (Looped o h fs (
            matched then_ok λ flags.
            flags_of X pe sc bs then_ok λ rest. Result.ok (map hit flags ++ rest)))
          ((elim r as (λ _. Cmd X (Result (Unit {0}) Failure)) [
            | Result.err failure ↦ pure (Result.err failure)
            | Result.ok next ↦ match_loop rounds (suc i) (addr l) sc pe (addr o) next
          ])
            g)
  rounds_after h fs bs n rounds i (Result.err failure) again r g (failed, freed, wf) =
      rw failed (refl, freed, wf)
  rounds_after h fs bs n rounds i (Result.ok flags) again r g (passed, mid) = rw passed (
      Returns.mono (Looped o g (fs ++ map hit flags) (flags_of X pe sc bs)) _ _
        (subst
          (λ k.
            Returns (Looped o g (fs ++ map hit flags) (flags_of X pe sc bs))
              (match_loop rounds (suc i) (addr l) sc pe (addr o) k g))
          (length-flags fs flags) (again g (fs ++ map hit flags) mid))
        (λ r k. Looped-after h g fs (map hit flags) n (flags_of X pe sc bs) r k mid))

  pub match_loop-Looped :
      (ps : List Ptr) (bs : List X.Array) (ns : List ℕ) (h : Heap X) (i : ℕ) (fs : List Bool)
      → h.mem l ≡ some (pointers cells)
      → h.mem o ≡ some (bools (slots fs (sum ns)))
      → Elements cells i ps
      → Held h ps bs
      → Lengths X bs ns
      → Sound X sc bs
      → IsWf h
      → Returns
          (Looped o h fs (flags_of X pe sc bs))
          (match_loop (length ps) i (addr l) sc pe (addr o) (length fs) h)
  unfolding match_loop
  match_loop-Looped [] [] [] h i fs live room at held lengths sound wf =
      (refl, record { holds = rw (append-nil fs) room; same = λ b apart. refl; wf = wf })
  match_loop-Looped [] (b ∷ bs) ns h i fs live room at held lengths sound wf = absurd held
  match_loop-Looped [] [] (n ∷ ns) h i fs live room at held lengths sound wf = absurd lengths
  match_loop-Looped (p ∷ ps) [] ns h i fs live room at held lengths sound wf = absurd held
  match_loop-Looped (null ∷ ps) (b ∷ bs) ns h i fs live room at held lengths sound wf = absurd held
  match_loop-Looped (addr a ∷ ps) (b ∷ bs) [] h i fs live room at held lengths sound wf =
      absurd lengths
  match_loop-Looped (addr a ∷ ps) (b ∷ bs) (n ∷ ns) h i fs live room (at, rest) (there, held)
        (len, lengths) (good, sound) wf =
      rw (load_at-ok h l i cells (addr a) live at) (
        Returns.bind (Matched o h fs (sum ns) (rows_of X pe sc b))
          (Looped o h fs (flags_of X pe sc (b ∷ bs)))
          (match_one (addr a) sc pe (addr o) (length fs) h) _
          (match_one-Matched h fs (sum ns) a b there good
            (λ flags passed.
              resized o h fs (n + sum ns) (length flags + sum ns)
                (ap (λ k. k + sum ns) (sym (exact b n flags len passed))) room)
            (n + sum ns) room wf)
          (rounds_after h fs bs (sum ns) (length ps) i (rows_of X pe sc b) λ g gs mid.
            match_loop-Looped ps bs ns g (suc i) gs (mid.same l (ground (arith, live, room)) ∙ live)
              mid.holds rest
              (Held-kept h g ps bs (λ a b there. mid.same a (ground (arith, there, room)) ∙ there)
                held)
              lengths sound mid.wf))

-- If there are flags, there are as many.
abbrev pub Counted : Result (List Bool) Failure → ℕ → Type 0
Counted (Result.ok flags) n = length flags ≡ n
Counted (Result.err failure) n = Unit {0}

Counted-then_ok :
    (matched : Result (List (Option Bool)) Failure) (later : Result (List Bool) Failure) (m n : ℕ)
    → ((flags : List (Option Bool)) → matched ≡ Result.ok flags → length flags ≡ m)
    → Counted later n
    → Counted
        (matched then_ok λ flags. later then_ok λ rest. Result.ok (map hit flags ++ rest))
        (m + n)
Counted-then_ok (Result.err failure) later m n first rest = tt
Counted-then_ok (Result.ok flags) (Result.err failure) m n first rest = tt
Counted-then_ok (Result.ok flags) (Result.ok more) m n first rest =
    omega (arith, first flags refl, rest, length-matches flags more)

-- The flags are as many as the rows.
pub flags_of-Counted :
    (X : External) (sc : X.Schema) (pe : X.PhysicalExpr)
    → ((b : X.Array) (n : ℕ) (flags : List (Option Bool))
        → X.array_length b ≡ pos n
        → rows_of X pe sc b ≡ Result.ok flags
        → length flags ≡ n)
    → (bs : List X.Array) (ns : List ℕ) → Lengths X bs ns
    → Counted (flags_of X pe sc bs) (sum ns)
flags_of-Counted X sc pe exact [] [] lengths = refl
flags_of-Counted X sc pe exact [] (n ∷ ns) lengths = absurd lengths
flags_of-Counted X sc pe exact (b ∷ bs) [] lengths = absurd lengths
flags_of-Counted X sc pe exact (b ∷ bs) (n ∷ ns) (len, lengths) =
    Counted-then_ok (rows_of X pe sc b) (flags_of X pe sc bs) n (sum ns)
      (λ flags. exact b n flags len) (flags_of-Counted X sc pe exact bs ns lengths)
