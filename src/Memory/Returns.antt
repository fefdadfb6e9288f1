-- ===== src/Memory/Returns.antt =====
-- Total correctness of a run: no fault, and a postcondition on the result and the memory.
use lancedb_c.External.{External}
use lancedb_c.Memory.{Heap, Run, ok, fault, Cmd, and_then}

abbrev pub Returns : {X : External} {A : Type 0} → (A → Heap X → Type 0) → Run X A → Type 0
Returns P (ok a h) = P a h
Returns P fault = ⊥

module _ {X : External} {A : Type 0} where
  pub bind :
      {B : Type 0} (P : A → Heap X → Type 0) (Q : B → Heap X → Type 0) (r : Run X A)
      (k : A → Cmd X B)
      → Returns P r
      → ((a : A) (h : Heap X) → P a h → Returns Q (k a h))
      → Returns Q (and_then r k)
  bind P Q (ok a h) k p next = next a h p
  bind P Q fault k p next = p

  pub mono :
      (P Q : A → Heap X → Type 0) (r : Run X A)
      → Returns P r
      → ((a : A) (h : Heap X) → P a h → Q a h)
      → Returns Q r
  mono P Q (ok a h) p weaken = weaken a h p
  mono P Q fault p weaken = p
