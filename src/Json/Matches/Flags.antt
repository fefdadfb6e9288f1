-- ===== src/Json/Matches/Flags.antt =====
-- The loops of lancedb_json_matches that write the flags: what the array holds after them.
use lancedb_c.Prelude.{
  ℕ, suc, ◌+◌, ◌≡◌, refl, Bool, Option, none, some, List, [], ◌∷◌, ◌++◌, map, length, arith, ap,
  ◌∙◌, subst,
}
use mathlib.Core.List.{append_assoc, append-nil}
use lancedb_c.External.{External}
use lancedb_c.Memory.{addr, bools, Heap, ok, write}
use lancedb_c.Memory.Laws.{IsWf, Updated, write-Updated, store_bool_at-ok}
use lancedb_c.Memory.Arrays.{slots, get_elem?-slots, set-slots, length-snoc}
use lancedb_c.Memory.Returns
use lancedb_c.Memory.Returns.{Returns}
use lancedb_c.Json.Matches.{is_match, write_flags}

module _ {X : External} (o : ℕ) where
  -- From `h` to `g` the array at `o` has more flags, and room for `n` others.
  abbrev pub Flagged : Heap X → List Bool → ℕ → Heap X → Type 0
  Flagged h fs n g = Updated h o (bools (slots fs n)) g

  pub Updated-trans :
      (h g k : Heap X) (fs gs : List Bool) (m n : ℕ)
      → Flagged h fs m g
      → Flagged g gs n k
      → Flagged h gs n k
  Updated-trans h g k fs gs m n first second = record {
    holds = second.holds;
    same = λ b apart. second.same b apart ∙ first.same b apart;
    wf = second.wf;
  }

  -- an array with as much room
  pub resized :
      (h : Heap X) (fs : List Bool) (m n : ℕ)
      → m ≡ n
      → h.mem o ≡ some (bools (slots fs m))
      → h.mem o ≡ some (bools (slots fs n))
  resized h fs m n same live = subst (λ k. h.mem o ≡ some (bools (slots fs k))) same live

  pub write_flags-Flagged :
      (bs : List (Option Bool)) (h : Heap X) (fs : List Bool) (m : ℕ)
      → h.mem o ≡ some (bools (slots fs (length bs + m)))
      → IsWf h
      → Returns
          (λ _ g. Flagged h (fs ++ map is_match bs) m g)
          (write_flags (addr o) (length fs) bs h)
  unfolding write_flags
  write_flags-Flagged [] h fs m live wf = record {
    holds = rw (append-nil fs) (resized h fs (0 + m) m (omega arith) live);
    same = λ b apart. refl;
    wf = wf;
  }
  write_flags-Flagged (b ∷ bs) h fs m there wf =
      let live = resized h fs _ (suc (length bs + m)) (omega arith) there in
      let next = write h o (some (bools (slots (fs ++ (is_match b ∷ [])) (length bs + m)))) in
      let first =
        write-Updated h o _ wf live (bools (slots (fs ++ (is_match b ∷ [])) (length bs + m))) in
      rw
        (store_bool_at-ok h o (length fs) (slots fs (suc (length bs + m))) (is_match b) none live
            (get_elem?-slots fs (length bs + m))
          ∙ ap (λ c. ok tt (write h o (some (bools c))))
              (set-slots fs (length bs + m) (is_match b)))
        (Returns.mono (λ _ g. Flagged next ((fs ++ (is_match b ∷ [])) ++ map is_match bs) m g) _ _
          (subst
            (λ i.
              Returns (λ _ g. Flagged next ((fs ++ (is_match b ∷ [])) ++ map is_match bs) m g)
                (write_flags (addr o) i bs next))
            (length-snoc fs (is_match b))
            (write_flags-Flagged bs next (fs ++ (is_match b ∷ [])) m first.holds first.wf))
          (λ _ g rest.
            subst (λ l. Flagged h l m g) (append_assoc fs (is_match b ∷ []) (map is_match bs))
              (Updated-trans h next g _ _ _ m first rest)))
