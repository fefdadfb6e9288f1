-- ===== src/Text/Laws.antt =====
-- The search for a substring against its description.
use lancedb_c.Prelude.{◌≡◌, refl, ℕ, true, [], ◌∷◌, ◌++◌, arith, ap, ◌↔◌, inl, inr, Bool-cases}
use lancedb_c.Text.{Bytes, starts_with, contains}

-- `needle` stands somewhere in `s`.
abbrev pub Within : Bytes → Bytes → Type 0
Within needle s = (pre : Bytes) × (post : Bytes) × (s ≡ pre ++ (needle ++ post))

pub starts_with-append : (needle post : Bytes) → starts_with needle (needle ++ post) ≡ true
unfolding starts_with
starts_with-append [] post = refl
starts_with-append (n ∷ ns) post = ground (arith, starts_with-append ns post)

pub contains-append : (pre needle post : Bytes) → contains needle (pre ++ (needle ++ post)) ≡ true
unfolding contains
contains-append [] [] [] = refl
contains-append [] [] (p ∷ post) = refl
contains-append [] (n ∷ ns) post = ground (arith, starts_with-append (n ∷ ns) post)
contains-append (c ∷ pre) needle post = ground (arith, contains-append pre needle post)

starts_with-eq :
    (needle s : Bytes) → starts_with needle s ≡ true → (post : Bytes) × (s ≡ needle ++ post)
unfolding starts_with
starts_with-eq [] s h = (s, refl)
starts_with-eq (n ∷ ns) [] h = absurd (cc)
starts_with-eq (n ∷ ns) (c ∷ s) h =
    let (post, e) = starts_with-eq ns s (ground arith) in (post, ground arith)

Within-cons : (c : ℕ) (needle s : Bytes) → Within needle s → Within needle (c ∷ s)
Within-cons c needle s (pre, post, e) = (c ∷ pre, post, ap (λ l. c ∷ l) e)

contains-Within : (needle s : Bytes) → contains needle s ≡ true → Within needle s
unfolding contains
contains-Within needle [] h = let (post, e) = starts_with-eq needle [] h in ([], post, e)
contains-Within needle (c ∷ s) h = elim (Bool-cases (starts_with needle (c ∷ s))) [
  | inl front ↦ let (post, e) = starts_with-eq needle (c ∷ s) front in ([], post, e)
  | inr later ↦ Within-cons c needle s (contains-Within needle s (ground arith))
]

-- The search finds a text exactly where it stands.
pub contains_iff : (needle s : Bytes) → (contains needle s ≡ true) ↔ Within needle s
contains_iff needle s =
    (contains-Within needle s, λ (pre, post, e). rw e (contains-append pre needle post))
