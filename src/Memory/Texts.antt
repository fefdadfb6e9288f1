-- ===== src/Memory/Texts.antt =====
-- Strings of a client: allocated for a call, and freed after it.
use lancedb_c.Prelude.{
  ℕ, ◌≡◌, refl, true, false, none, some, List, [], ◌∷◌, ◌==◌, arith, ◌∙◌, Bool-cases, inl, inr,
}
use lancedb_c.Text.{Bytes}
use lancedb_c.External.{External}
use lancedb_c.Memory.{
  Ptr, null, addr, text, Heap, Cmd, ok, pure, ◌>>=◌, ◌>>◌, write, push, alloc, release,
}
use lancedb_c.Memory.Laws.{IsWf, push-IsWf, mem-write_ne, release-ok}
use lancedb_c.Memory.Arrays.{has, freed_all}
use lancedb_c.Memory.Returns
use lancedb_c.Memory.Returns.{Returns}

module _ {X : External} where
  unfoldable pub alloc_texts : List Bytes → Cmd X (List Ptr)
  alloc_texts [] = pure []
  alloc_texts (s ∷ ss) = do p ← alloc (text s); ps ← alloc_texts ss; pure (p ∷ ps)

  unfoldable pub release_all : List Ptr → Cmd X (Unit {0})
  release_all [] = pure tt
  release_all (p ∷ ps) = do release p; release_all ps

  -- The pointers are to strings of their own.
  abbrev pub AllTexts : Heap X → List Ptr → List Bytes → Type 0
  AllTexts h [] [] = Unit {0}
  AllTexts h [] (s ∷ ss) = ⊥
  AllTexts h (p ∷ ps) [] = ⊥
  AllTexts h (null ∷ ps) (s ∷ ss) = ⊥
  AllTexts h (addr a ∷ ps) (s ∷ ss) =
      (h.mem a ≡ some (text s)) × (has a ps ≡ false) × AllTexts h ps ss

-- From `h` to `g` the strings were added, and nothing else changed.
pub record TextsAdded {X : External} (h : Heap X) (ss : List Bytes) (ps : List Ptr) (g : Heap X)
    : Type 0 where
  pub texts : AllTexts g ps ss
  pub fresh : (b : ℕ) → has b ps ≡ true → h.mem b ≡ none
  pub same : (b : ℕ) → has b ps ≡ false → g.mem b ≡ h.mem b
  pub wf : IsWf g

module _ {X : External} where
  TextsAdded-cons :
      (h g : Heap X) (s : Bytes) (ss : List Bytes) (ps : List Ptr)
      → IsWf h
      → TextsAdded (push h (text s)) ss ps g
      → TextsAdded h (s ∷ ss) (addr h.next ∷ ps) g
  unfolding push write
  TextsAdded-cons h g s ss ps wf all = elim (Bool-cases (has h.next ps)) [
    | inl in_ps ↦ let gone = all.fresh h.next in_ps in absurd (ground arith)
    | inr out ↦ record {
      texts = (all.same h.next out ∙ new, out, all.texts);
      fresh = λ b in_ps. ground (arith, all.fresh b, wf.unused h.next);
      same = λ b out'. ground (arith, all.same b);
      wf = all.wf;
    }
  ]
    where
      new : (push h (text s)).mem h.next ≡ some (text s)
      new = ground arith

  pub alloc_texts-TextsAdded :
      (ss : List Bytes) (h : Heap X) → IsWf h → Returns (TextsAdded h ss) (alloc_texts ss h)
  unfolding alloc_texts alloc
  alloc_texts-TextsAdded [] h wf = record {
    texts = tt;
    fresh = λ b in_ps. absurd (cc);
    same = λ b out. refl;
    wf = wf;
  }
  alloc_texts-TextsAdded (s ∷ ss) h wf =
      Returns.bind (TextsAdded (push h (text s)) ss) _ (alloc_texts ss (push h (text s))) _
        (alloc_texts-TextsAdded ss (push h (text s)) (push-IsWf (text s) wf))
        λ ps g all. TextsAdded-cons h g s ss ps wf all

  -- Strings stay while other addresses change.
  pub AllTexts-frame :
      (h g : Heap X) (ps : List Ptr) (ss : List Bytes)
      → ((b : ℕ) → has b ps ≡ true → g.mem b ≡ h.mem b)
      → AllTexts h ps ss
      → AllTexts g ps ss
  AllTexts-frame h g [] [] same texts = tt
  AllTexts-frame h g [] (s ∷ ss) same texts = texts
  AllTexts-frame h g (p ∷ ps) [] same texts = absurd texts
  AllTexts-frame h g (null ∷ ps) (s ∷ ss) same texts = absurd texts
  AllTexts-frame h g (addr a ∷ ps) (s ∷ ss) same (live, apart, texts) = (
    same a (ground arith) ∙ live,
    apart,
    AllTexts-frame h g ps ss (λ b in_ps. same b (ground arith)) texts,
  )

  pub AllTexts-live :
      (h : Heap X) (b : ℕ) (ps : List Ptr) (ss : List Bytes)
      → AllTexts h ps ss
      → has b ps ≡ true
      → (s : Bytes) × (h.mem b ≡ some (text s))
  AllTexts-live h b [] ss texts in_ps = absurd (cc)
  AllTexts-live h b (p ∷ ps) [] texts in_ps = absurd texts
  AllTexts-live h b (null ∷ ps) (s ∷ ss) texts in_ps = absurd texts
  AllTexts-live h b (addr a ∷ ps) (s ∷ ss) (live, apart, texts) in_ps = elim (Bool-cases (b == a)) [
    | inl here ↦ (s, ground arith)
    | inr later ↦ AllTexts-live h b ps ss texts (ground arith)
  ]

  pub release_all_lem :
      (h : Heap X) (ps : List Ptr) (ss : List Bytes)
      → AllTexts h ps ss
      → release_all ps h ≡ ok tt (freed_all ps h)
  unfolding release_all
  release_all_lem h [] [] texts = refl
  release_all_lem h [] (s ∷ ss) texts = absurd texts
  release_all_lem h (p ∷ ps) [] texts = absurd texts
  release_all_lem h (null ∷ ps) (s ∷ ss) texts = absurd texts
  release_all_lem h (addr a ∷ ps) (s ∷ ss) (live, apart, texts) =
      rw (release-ok h a (text s) live) (
        release_all_lem (write h a none) ps ss
          (AllTexts-frame h (write h a none) ps ss (kept h a ps apart) texts))
    where
      kept :
          (h : Heap X) (a : ℕ) (ps : List Ptr)
          → has a ps ≡ false
          → (b : ℕ) → has b ps ≡ true
          → (write h a none).mem b ≡ h.mem b
      kept h a ps apart b in_ps = elim (Bool-cases (b == a)) [
        | inl same ↦ absurd (ground arith)
        | inr other ↦ mem-write_ne h a b none other
      ]
