-- ===== src/Connect/Uri.antt =====
-- lancedb_connection_uri and lancedb_connection_free: the string that a connection keeps.
use lancedb_c.Prelude.{
  ℕ, zero, suc, replicate, [], ◌∷◌, ◌≡◌, refl, false, ◌==◌, none, some, arith, if◌then◌else◌, ap,
  Bool-cases, inl, inr, List,
}
use lancedb_c.Text.{has_nul}
use lancedb_c.External.{External}
use lancedb_c.Memory.{
  Ptr, addr, text, connection, Heap, Cmd, ok, pure, ◌>>=◌, ◌>>◌, write, push, alloc,
}
use lancedb_c.Memory.Laws.{
  IsWf, load_cached-ok, take_cached-ok, release-ok, store-ok, mem-push_old, live-lt-next,
}
use lancedb_c.Memory.Returns
use lancedb_c.Memory.Returns.{Returns}
use lancedb_c.Connect.{uri_text, cached_uri, lancedb_connection_uri, lancedb_connection_free}

-- A C string needs a text with no NUL byte.
pub has_nul-uri_text : (X : External) (conn : X.Connection) → has_nul (uri_text X conn) ≡ false
unfolding uri_text has_nul
has_nul-uri_text X conn = elim (Bool-cases (has_nul (X.uri conn))) [
  | inl dirty ↦ rw dirty refl
  | inr clean ↦ rw clean clean
]

-- From `h` to `g` the connection at `c` got a string of its own at `a`, and nothing else changed.
pub record Serving {X : External} (h : Heap X) (c : ℕ) (conn : X.Connection) (a : ℕ) (g : Heap X)
    : Type 0 where
  pub fresh : h.mem a ≡ none
  pub kept : g.mem c ≡ some (connection conn (some (addr a)))
  pub string : g.mem a ≡ some (text (uri_text X conn))
  pub same : (b : ℕ) → (b == c) ≡ false → (b == a) ≡ false → g.mem b ≡ h.mem b

-- A caller asks for the text `n` times.
unfoldable pub uris : {X : External} → ℕ → Ptr → Cmd X (List Ptr)
uris zero c = pure []
uris (suc n) c = do p ← lancedb_connection_uri c; ps ← uris n c; pure (p ∷ ps)

-- A caller asks for the text and then frees the connection.
unfoldable pub uris_and_free : {X : External} → ℕ → Ptr → Cmd X (List Ptr)
uris_and_free n c = do ps ← uris n c; lancedb_connection_free c; pure ps

module _ {X : External} (c : ℕ) (conn : X.Connection) where
  first_uri :
      (h : Heap X)
      → h.mem c ≡ some (connection conn none)
      → IsWf h
      → Returns
          (λ p g. (p ≡ addr h.next) × Serving h c conn h.next g)
          (lancedb_connection_uri (addr c) h)
  unfolding lancedb_connection_uri cached_uri alloc write push
  first_uri h live wf =
      let old = live-lt-next c _ wf live in
      rw (load_cached-ok h c conn none live) (
        rw
          (store-ok (push h (text (uri_text X conn))) c _ (connection conn (some (addr h.next)))
            (mem-push_old c _ (text (uri_text X conn)) wf live))
          (
            refl,
            record {
              fresh = wf.unused h.next (omega arith);
              kept = ground arith;
              string = ground arith;
              same = λ b b_c b_at. ground arith;
            },
          ))

  later_uri :
      (g : Heap X) (p : Ptr)
      → g.mem c ≡ some (connection conn (some p))
      → lancedb_connection_uri (addr c) g ≡ ok p g
  unfolding lancedb_connection_uri cached_uri
  later_uri g p live = rw (load_cached-ok g c conn (some p) live) refl

  later_uris :
      (n : ℕ) (g : Heap X) (p : Ptr)
      → g.mem c ≡ some (connection conn (some p))
      → uris n (addr c) g ≡ ok (replicate n p) g
  unfolding uris
  later_uris zero g p live = refl
  later_uris (suc n) g p live = rw (later_uri g p live) (rw (later_uris n g p live) refl)

  -- Every call returns the same pointer, to a string of the connection's that has no NUL byte.
  pub uris-same :
      (n : ℕ) (h : Heap X)
      → h.mem c ≡ some (connection conn none)
      → IsWf h
      → Returns
          (λ ps g. (ps ≡ replicate (suc n) (addr h.next)) × Serving h c conn h.next g)
          (uris (suc n) (addr c) h)
  unfolding uris
  uris-same n h live wf =
      Returns.bind (λ p g. (p ≡ addr h.next) × Serving h c conn h.next g) _
        (lancedb_connection_uri (addr c) h) _ (first_uri h live wf)
        λ p g (e, serving).
          rw (later_uris n g (addr h.next) serving.kept)
            (ap (λ q. q ∷ replicate n (addr h.next)) e, serving)

  free-Serving :
      (h g : Heap X) (a : ℕ)
      → Serving h c conn a g
      → Returns
          (λ _ k. (b : ℕ) → k.mem b ≡ (if b == c then none else h.mem b))
          (lancedb_connection_free (addr c) g)
  unfolding lancedb_connection_free write
  free-Serving h g a serving = rw (take_cached-ok g c conn (some (addr a)) serving.kept) (
      rw
        (release-ok (write g c none) a (text (uri_text X conn))
          (ground (arith, serving.kept, serving.string)))
        (λ b. ground (arith, serving.fresh, serving.same b)))

  -- A new connection whose caller asks for its text any number of times, at least once, and then frees it: all calls return the same
  -- pointer, and the memory afterwards is that from before without the connection, so the string is gone too.
  pub uris_and_free-restored :
      (n : ℕ) (h : Heap X)
      → h.mem c ≡ some (connection conn none)
      → IsWf h
      → Returns
          (λ ps k.
            (ps ≡ replicate (suc n) (addr h.next))
            × ((b : ℕ) → k.mem b ≡ (if b == c then none else h.mem b)))
          (uris_and_free (suc n) (addr c) h)
  unfolding uris_and_free
  uris_and_free-restored n h live wf =
      Returns.bind (λ ps g. (ps ≡ replicate (suc n) (addr h.next)) × Serving h c conn h.next g) _
        (uris (suc n) (addr c) h) _ (uris-same n h live wf)
        λ ps g (e, serving).
          Returns.bind (λ _ k. (b : ℕ) → k.mem b ≡ (if b == c then none else h.mem b)) _
            (lancedb_connection_free (addr c) g) _ (free-Serving h g h.next serving)
            λ _ k restored. (e, restored)
