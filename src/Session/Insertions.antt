-- ===== src/Session/Insertions.antt =====
-- Insertions into a registry of object store providers, one after the other.
use lancedb_c.Prelude.{
  ℕ, ◌≡◌, refl, Bool, false, ◌&&◌, ◌||◌, ◌==◌, Option, none, some, List, [], ◌∷◌, arith,
  if◌then◌else◌, Bool-cases, inl, inr, ◌∙◌,
}
use lancedb_c.Text.{Bytes, is_utf8}
use lancedb_c.External.{External}
use lancedb_c.Memory.{Ptr, null, addr, text, registry, provider, Heap, Cmd, pure, ◌>>=◌, write}
use lancedb_c.Memory.Laws.{
  IsWf, load_str-some, load_str-none, take_provider-ok, load_registry-ok, store-ok, write-IsWf,
}
use lancedb_c.Memory.Returns
use lancedb_c.Memory.Returns.{Returns}
use lancedb_c.Error.{
  LanceDbError, success, invalid_argument, invalid_input, set_custom_error_message,
}
use lancedb_c.Session.{insert_taken, insert_named, lancedb_registry_insert_provider}

-- the insertions one after the other, by the addresses of their schemes and providers
unfoldable pub insert_all : {X : External} → Ptr → List (ℕ × ℕ) → Cmd X (List LanceDbError)
insert_all r [] = pure []
insert_all r ((s, p) ∷ ps) = do
  code ← lancedb_registry_insert_provider r (addr s) (addr p) null
  later ← insert_all r ps
  pure (code ∷ later)

-- The code of an insertion, and the registry after it.
abbrev pub insertion :
    (X : External) → X.Registry → Bytes → Option X.Provider → LanceDbError × X.Registry
insertion X r t none = (if is_utf8 t then invalid_argument else invalid_input, r)
insertion X r t (some p) =
    if is_utf8 t then (success, X.insert_provider r t p) else (invalid_input, r)

abbrev pub insertions :
    (X : External) → X.Registry → List (Bytes × Option X.Provider) → List LanceDbError × X.Registry
insertions X r [] = ([], r)
insertions X r ((t, o) ∷ vs) = (
  (insertion X r t o).0 ∷ (insertions X (insertion X r t o).1 vs).0,
  (insertions X (insertion X r t o).1 vs).1,
)

-- whether an address is among the providers
abbrev pub among : ℕ → List (ℕ × ℕ) → Bool
among c [] = false
among c ((s, p) ∷ ps) = (c == p) || among c ps

-- whether an address is a provider whose scheme is UTF-8
abbrev pub taken : {P : Type 0} → ℕ → List (ℕ × ℕ) → List (Bytes × Option P) → Bool
taken c [] vs = false
taken c ((s, p) ∷ ps) [] = false
taken c ((s, p) ∷ ps) ((t, o) ∷ vs) = (is_utf8 t && (c == p)) || taken c ps vs

-- Schemes and providers in memory, the providers all at addresses of their own.
abbrev pub Providers :
    {X : External} → Heap X → List (ℕ × ℕ) → List (Bytes × Option X.Provider) → Type 0
Providers h [] [] = Unit {0}
Providers h [] (v ∷ vs) = ⊥
Providers h (p ∷ ps) [] = ⊥
Providers h ((s, p) ∷ ps) ((t, o) ∷ vs) =
    (h.mem s ≡ some (text t))
    × (h.mem p ≡ some (provider o))
    × (among p ps ≡ false)
    × Providers h ps vs

module _ {X : External} (h g : Heap X) (q : ℕ)
    (texts : (a : ℕ) (t : Bytes) → h.mem a ≡ some (text t) → g.mem a ≡ some (text t))
    (providers : (a : ℕ) (o : Option X.Provider)
      → (a == q) ≡ false
      → h.mem a ≡ some (provider o)
      → g.mem a ≡ some (provider o)) where
  pub Providers-kept :
      (ps : List (ℕ × ℕ)) (vs : List (Bytes × Option X.Provider))
      → among q ps ≡ false
      → Providers h ps vs
      → Providers g ps vs
  Providers-kept [] [] out there = tt
  Providers-kept [] (v ∷ vs) out there = absurd there
  Providers-kept (p ∷ ps) [] out there = absurd there
  Providers-kept ((s, p) ∷ ps) ((t, o) ∷ vs) out (string, box, apart, there) = (
    texts s t string,
    providers p o (ground (arith, out)) box,
    apart,
    Providers-kept ps vs (ground (arith, out)) there,
  )

module _ {X : External} (h : Heap X) (q s p : ℕ) (r : X.Registry) (t : Bytes)
    (held : h.mem q ≡ some (registry r)) (string : h.mem s ≡ some (text t)) (wf : IsWf h) where
  -- What an insertion leaves: its code, the registry, and no provider's box if the scheme is UTF-8.
  abbrev Inserted : Option X.Provider → LanceDbError → Heap X → Type 0
  Inserted o code g =
      (code ≡ (insertion X r t o).0)
      × IsWf g
      × (g.next ≡ h.next)
      × ((c : ℕ)
          → g.mem c ≡ (
              if c == q
              then some (registry (insertion X r t o).1)
              else if is_utf8 t && (c == p)
              then none
              else h.mem c))

  insert-Inserted :
      (o : Option X.Provider)
      → h.mem p ≡ some (provider o)
      → Returns (Inserted o) (lancedb_registry_insert_provider (addr q) (addr s) (addr p) null h)
  unfolding lancedb_registry_insert_provider insert_named insert_taken set_custom_error_message
      write
  insert-Inserted none box = elim (Bool-cases (is_utf8 t)) [
    | inl good ↦
        rw (load_str-some h s t string good, take_provider-ok h p none box)
          (rw good (refl, write-IsWf p _ none box wf, refl, λ c. ground (arith, held, box)))
    | inr broken ↦
        rw (load_str-none h s t string broken)
          (rw broken (refl, wf, refl, λ c. ground (arith, held)))
  ]
  insert-Inserted (some x) box = elim (Bool-cases (is_utf8 t)) [
    | inl good ↦
        rw (load_str-some h s t string good, take_provider-ok h p (some x) box)
          (rw
            (
              load_registry-ok (write h p none) q r (ground (arith, held, box)),
              store-ok (write h p none) q (registry r) (registry (X.insert_provider r t x))
                  (ground (arith, held, box)),
            )
            (rw good (
              refl,
              record { unused = λ b le. ground (arith, wf.unused b, held) },
              refl,
              λ c. ground (arith, held, box),
            )))
    | inr broken ↦
        rw (load_str-none h s t string broken)
          (rw broken (refl, wf, refl, λ c. ground (arith, held)))
  ]

-- What a run of insertions leaves.
abbrev pub Filled :
    {X : External}
    → Heap X
    → ℕ
    → X.Registry
    → List (ℕ × ℕ)
    → List (Bytes × Option X.Provider)
    → List LanceDbError
    → Heap X
    → Type 0
Filled {X} h q r ps vs codes g =
    (codes ≡ (insertions X r vs).0)
    × IsWf g
    × (g.next ≡ h.next)
    × ((c : ℕ)
        → g.mem c ≡ (
            if c == q
            then some (registry (insertions X r vs).1)
            else if taken c ps vs
            then none
            else h.mem c))

pub insert_all-Filled :
    {X : External} (q : ℕ) (ps : List (ℕ × ℕ)) (vs : List (Bytes × Option X.Provider)) (h : Heap X)
    (r : X.Registry)
    → h.mem q ≡ some (registry r)
    → Providers h ps vs
    → IsWf h
    → Returns (Filled h q r ps vs) (insert_all (addr q) ps h)
unfolding insert_all
insert_all-Filled q [] [] h r held there wf = (refl, wf, refl, λ c. ground (arith, held))
insert_all-Filled q [] (v ∷ vs) h r held there wf = absurd there
insert_all-Filled q (p ∷ ps) [] h r held there wf = absurd there
insert_all-Filled {X} q ((s, p) ∷ ps) ((t, o) ∷ vs) h r held (string, box, apart, there) wf =
    Returns.bind (Inserted h q s p r t held string wf o) (Filled h q r ((s, p) ∷ ps) ((t, o) ∷ vs))
      (lancedb_registry_insert_provider (addr q) (addr s) (addr p) null h) _
      (insert-Inserted h q s p r t held string wf o box)
      λ code g (code_is, g_wf, g_next, mem).
        Returns.bind (Filled g q (insertion X r t o).1 ps vs)
          (Filled h q r ((s, p) ∷ ps) ((t, o) ∷ vs)) (insert_all (addr q) ps g) _
          (insert_all-Filled q ps vs g (insertion X r t o).1 (ground (arith, mem q))
            (Providers-kept h g p (λ a u live. ground (arith, mem a, held, box))
              (λ a x out live. ground (arith, mem a, held)) ps vs apart there)
            g_wf)
          λ later k (codes_are, k_wf, k_next, mem'). (
            rw (code_is, codes_are) refl,
            k_wf,
            k_next ∙ g_next,
            λ c. ground (arith, mem c, mem' c),
          )
