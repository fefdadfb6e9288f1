-- ===== src/Session/Laws.antt =====
-- A client that fills a registry and starts a session with it.
use lancedb_c.Prelude.{
  zero, suc, ◌*◌, ◌≤◌, ℕ, ◌≡◌, refl, false, ◌==◌, Option, none, some, List, [], ◌∷◌, arith,
  if◌then◌else◌,
}
use lancedb_c.Text.{Bytes}
use lancedb_c.External.{External}
use lancedb_c.Memory.{
  Ptr, null, addr, session, registry, session_options, LanceDbSessionOptions, Heap, Cmd, ok, pure,
  ◌>>=◌, write, push, alloc,
}
use lancedb_c.Memory.Laws.{IsWf, take_registry-ok, load_session_options-ok, live-lt-next, push-IsWf}
use lancedb_c.Memory.Returns
use lancedb_c.Memory.Returns.{Returns}
use lancedb_c.Error.{LanceDbError}
use lancedb_c.Session.{
  default_index_cache_size_bytes, default_metadata_cache_size_bytes, cache_sizes,
  registry_or_default, cache_sizes_of, create_session_impl, lancedb_session_new_with_registry,
  lancedb_registry_new,
}
use lancedb_c.Session.Insertions.{
  insert_all, insertions, among, taken, Providers, Providers-kept, Filled, insert_all-Filled,
}

unfoldable pub session_with : {X : External} → Ptr → List (ℕ × ℕ) → Cmd X (List LanceDbError × Ptr)
session_with options ps = do
  r ← lancedb_registry_new
  inserted ← insert_all r ps
  s ← lancedb_session_new_with_registry options r
  pure (inserted, s)

-- The pointer is null, or to options.
abbrev pub OptionalOptions : {X : External} → Heap X → Ptr → Option LanceDbSessionOptions → Type 0
OptionalOptions h null none = Unit {0}
OptionalOptions h null (some o) = ⊥
OptionalOptions h (addr a) none = ⊥
OptionalOptions h (addr a) (some o) = h.mem a ≡ some (session_options o)

-- A size, or six gigabytes for an index and one for metadata where it is zero.
abbrev pub size_or : ℕ → ℕ → ℕ
size_or gigabytes zero = gigabytes * 1073741824
size_or gigabytes (suc n) = suc n

-- The sizes of the caches for the indices and for the metadata: the defaults without options.
abbrev pub sizes : Option LanceDbSessionOptions → ℕ × ℕ
sizes none = (size_or 6 0, size_or 1 0)
sizes (some o) = (size_or 6 o.index_cache_bytes, size_or 1 o.metadata_cache_bytes)

size_or-index : (n : ℕ) → (if n == 0 then default_index_cache_size_bytes else n) ≡ size_or 6 n
size_or-index zero = refl
size_or-index (suc n) = ground arith

size_or-metadata : (n : ℕ) → (if n == 0 then default_metadata_cache_size_bytes else n) ≡ size_or 1 n
size_or-metadata zero = refl
size_or-metadata (suc n) = ground arith

cache_sizes-sizes : (o : LanceDbSessionOptions) → cache_sizes o ≡ sizes (some o)
unfolding cache_sizes
cache_sizes-sizes o =
    rw (size_or-index o.index_cache_bytes, size_or-metadata o.metadata_cache_bytes) refl

-- From `h` to `g` there is a new session at `at`, and the providers that were taken are gone.
abbrev pub Started :
    {X : External}
    → Heap X
    → List (ℕ × ℕ)
    → List (Bytes × Option X.Provider)
    → X.Session
    → Ptr
    → Heap X
    → Type 0
Started h ps vs value p g =
    (at : ℕ) × (p ≡ addr at)
    × (h.mem at ≡ none)
    × (g.mem at ≡ some (session value))
    × ((c : ℕ) → (c == at) ≡ false → g.mem c ≡ (if taken c ps vs then none else h.mem c))

cache_sizes_of-sizes :
    {X : External} (g : Heap X) (p : Ptr) (o : Option LanceDbSessionOptions)
    → OptionalOptions g p o
    → cache_sizes_of p g ≡ ok (sizes o) g
unfolding cache_sizes_of
cache_sizes_of-sizes g null none there = refl
cache_sizes_of-sizes g null (some o) there = absurd there
cache_sizes_of-sizes g (addr a) none there = absurd there
cache_sizes_of-sizes g (addr a) (some o) there =
    rw (load_session_options-ok g a o there, cache_sizes-sizes o) refl

OptionalOptions-kept :
    {X : External} (h g : Heap X) (p : Ptr) (o : Option LanceDbSessionOptions)
    → ((a : ℕ) (x : LanceDbSessionOptions)
        → h.mem a ≡ some (session_options x)
        → g.mem a ≡ some (session_options x))
    → OptionalOptions h p o
    → OptionalOptions g p o
OptionalOptions-kept h g null none keep there = tt
OptionalOptions-kept h g null (some o) keep there = absurd there
OptionalOptions-kept h g (addr a) none keep there = absurd there
OptionalOptions-kept h g (addr a) (some o) keep there = keep a o there

module _ {X : External} (h : Heap X) (wf : IsWf h) where
  -- the memory with a new registry
  registered : Heap X
  registered = push h (registry X.default_registry)

  mem-registered :
      (c : ℕ)
      → registered.mem c ≡ (if c == h.next then some (registry X.default_registry) else h.mem c)
  unfolding registered push write
  mem-registered c = refl

  IsWf-registered : IsWf registered
  unfolding registered
  IsWf-registered = push-IsWf (registry X.default_registry) wf

  next-registered : h.next ≤ registered.next
  unfolding registered push write
  next-registered = omega arith

  among-fresh :
      (ps : List (ℕ × ℕ)) (vs : List (Bytes × Option X.Provider))
      → Providers h ps vs
      → among h.next ps ≡ false
  among-fresh [] vs there = refl
  among-fresh (p ∷ ps) [] there = absurd there
  among-fresh ((s, p) ∷ ps) ((t, o) ∷ vs) (string, box, apart, there) =
      ground (arith, live-lt-next p _ wf box, among-fresh ps vs there)

  taken-options :
      (ps : List (ℕ × ℕ)) (vs : List (Bytes × Option X.Provider)) (a : ℕ)
      (x : LanceDbSessionOptions)
      → Providers h ps vs
      → h.mem a ≡ some (session_options x)
      → taken a ps vs ≡ false
  taken-options [] vs a x there live = refl
  taken-options (p ∷ ps) [] a x there live = absurd there
  taken-options ((s, p) ∷ ps) ((t, o) ∷ vs) a x (string, box, apart, there) live =
      ground (arith, box, taken-options ps vs a x there live)

  module _ (g : Heap X) (ps : List (ℕ × ℕ)) (vs : List (Bytes × Option X.Provider)) where
    -- the memory after the insertions
    abbrev After : X.Registry → Type 0
    After r =
        (c : ℕ)
        → g.mem c ≡ (
            if c == h.next
            then some (registry r)
            else if taken c ps vs
            then none
            else registered.mem c)

  kept :
      (g : Heap X) (ps : List (ℕ × ℕ)) (vs : List (Bytes × Option X.Provider)) (r : X.Registry)
      → Providers h ps vs
      → After g ps vs r
      → (a : ℕ) (x : LanceDbSessionOptions) → h.mem a ≡ some (session_options x)
      → (write g h.next none).mem a ≡ some (session_options x)
  unfolding write
  kept g ps vs r there mem a x live =
      ground (
        arith,
        mem a,
        mem-registered a,
        taken-options ps vs a x there live,
        live-lt-next a _ wf live,
      )

  new_session-Started :
      (g : Heap X) (ps : List (ℕ × ℕ)) (vs : List (Bytes × Option X.Provider)) (r : X.Registry)
      → g.next ≡ registered.next
      → After g ps vs r
      → (value : X.Session)
      → Started h ps vs value (addr g.next) (push (write g h.next none) (session value))
  unfolding write push
  new_session-Started g ps vs r g_next mem value = (
    g.next,
    refl,
    wf.unused g.next (omega (arith, g_next, next-registered)),
    ground arith,
    λ c apart. ground (arith, mem c, mem-registered c, wf.unused c),
  )

  step_new : lancedb_registry_new h ≡ ok (addr h.next) registered
  unfolding lancedb_registry_new alloc registered
  step_new = refl

  step_session :
      (g : Heap X) (p : Ptr) (o : Option LanceDbSessionOptions) (r : X.Registry)
      → g.mem h.next ≡ some (registry r)
      → OptionalOptions (write g h.next none) p o
      → lancedb_session_new_with_registry p (addr h.next) g
        ≡ ok
            (addr g.next)
            (push (write g h.next none) (session (X.session_of (sizes o).0 (sizes o).1 r)))
  unfolding lancedb_session_new_with_registry create_session_impl alloc registry_or_default write
  step_session g p o r held options =
      rw (take_registry-ok g h.next r held, cache_sizes_of-sizes (write g h.next none) p o options)
        refl

  -- A client that makes a registry, inserts providers under schemes, the providers at addresses of their own, and starts a session with the registry and options or
  -- none: each insertion has its own code, the session has the cache sizes and the registry with the insertions that succeeded, and in memory only the session is new:
  -- the registry is gone, and so are the providers but those whose scheme is not UTF-8.
  pub session_with-Started :
      (p : Ptr) (o : Option LanceDbSessionOptions) (ps : List (ℕ × ℕ))
      (vs : List (Bytes × Option X.Provider))
      → OptionalOptions h p o
      → Providers h ps vs
      → Returns
          (λ v g.
            (v.0 ≡ (insertions X X.default_registry vs).0)
            × Started h ps vs
                (X.session_of (sizes o).0 (sizes o).1 (insertions X X.default_registry vs).1)
                v.1
                g)
          (session_with p ps h)
  unfolding session_with
  session_with-Started p o ps vs options there = rw step_new (
      Returns.bind (Filled registered h.next X.default_registry ps vs) _
        (insert_all (addr h.next) ps registered) _
        (insert_all-Filled h.next ps vs registered X.default_registry
          (ground (arith, mem-registered h.next))
          (Providers-kept h registered h.next
            (λ a t live. ground (arith, mem-registered a, wf.unused a))
            (λ a x out live. ground (arith, mem-registered a)) ps vs (among-fresh ps vs there)
            there)
          IsWf-registered)
        λ codes g (codes_are, g_wf, g_next, mem).
          rw
            (step_session g p o (insertions X X.default_registry vs).1 (ground (arith, mem h.next))
              (OptionalOptions-kept h (write g h.next none) p o
                (λ a x live. kept g ps vs (insertions X X.default_registry vs).1 there mem a x live)
                options))
            (
              codes_are,
              new_session-Started g ps vs (insertions X X.default_registry vs).1 g_next mem _,
            ))
