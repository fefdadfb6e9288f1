-- ===== src/Tests/Sessions.antt =====
-- Runs of the connect builder, connections and sessions of src/connection.rs.
use lancedb_c.Prelude.{ℕ, ◌≡◌, refl, none, some, List, [], ◌∷◌, ◌==◌, if◌then◌else◌, replicate}
use lancedb_c.Text.{codes}
use lancedb_c.Memory.{
  addr, null, Cell, text, connection, session, session_options, provider, pointer_slot,
}
use lancedb_c.Memory.Returns.{Returns}
use lancedb_c.Connect.Client.{connect_with, connected, described, Opened}
use lancedb_c.Connect.Client.Laws.{connect_with-Opened}
use lancedb_c.Connect.Uri.{uris_and_free, uris_and_free-restored}
use lancedb_c.Session.{cache_sizes}
use lancedb_c.Session.Insertions.{insertions}
use lancedb_c.Session.Laws.{session_with, session_with-Started, Started}
use lancedb_c.Tests.{sample, heap_of, heap_of-IsWf}

abbrev connect_cells : List (Cell sample)
connect_cells =
    text (codes "u")
    ∷ text (codes "k")
    ∷ text (codes "v")
    ∷ session (1, 2, [])
    ∷ pointer_slot null
    ∷ []

connect_with-Opened_example :
    Returns
      (λ v k.
        (v
          ≡ (connected sample 7 (
              described sample
                (some (codes "u"))
                ((some (codes "k"), some (codes "v")) ∷ [])
                (some (1, 2, [])))).0)
        × Opened
            (heap_of connect_cells [])
            4
            (connected sample 7 (
              described sample
                (some (codes "u"))
                ((some (codes "k"), some (codes "v")) ∷ [])
                (some (1, 2, [])))).1
            k)
      (connect_with 7 (addr 0) ((addr 1, addr 2) ∷ []) (addr 3) (addr 4) (heap_of connect_cells []))
connect_with-Opened_example =
    connect_with-Opened (heap_of connect_cells []) 4 null refl 7 (addr 0) (addr 3)
      (some (codes "u")) ((addr 1, addr 2) ∷ []) ((some (codes "k"), some (codes "v")) ∷ [])
      (some (1, 2, [])) (refl, tt) ((refl, tt), (refl, tt), tt) refl (heap_of-IsWf connect_cells [])

abbrev uri_cells : List (Cell sample)
uri_cells = text (codes "x") ∷ connection 4 none ∷ []

uris_and_free-restored_example :
    Returns
      (λ ps k.
        (ps ≡ replicate 3 (addr 2))
        × ((b : ℕ) → k.mem b ≡ (if b == 1 then none else (heap_of uri_cells []).mem b)))
      (uris_and_free 3 (addr 1) (heap_of uri_cells []))
uris_and_free-restored_example =
    uris_and_free-restored 1 4 2 (heap_of uri_cells []) refl (heap_of-IsWf uri_cells [])

-- two providers, the second of which is not initialised
abbrev session_cells : List (Cell sample)
session_cells =
    text (codes "s3")
    ∷ provider (some 5)
    ∷ text (codes "gs")
    ∷ provider none
    ∷ session_options (record { index_cache_bytes = 0; metadata_cache_bytes = 100 })
    ∷ []

session_with-Started_example :
    Returns
      (λ v g.
        (v.0 ≡ (insertions sample [] ((codes "s3", some 5) ∷ (codes "gs", none) ∷ [])).0)
        × Started
            (heap_of session_cells [])
            ((0, 1) ∷ (2, 3) ∷ [])
            ((codes "s3", some 5) ∷ (codes "gs", none) ∷ [])
            (
              6442450944,
              100,
              (insertions sample [] ((codes "s3", some 5) ∷ (codes "gs", none) ∷ [])).1,
            )
            v.1
            g)
      (session_with (addr 4) ((0, 1) ∷ (2, 3) ∷ []) (heap_of session_cells []))
unfolding cache_sizes
session_with-Started_example =
    session_with-Started (heap_of session_cells []) (heap_of-IsWf session_cells []) (addr 4)
      (some (record { index_cache_bytes = 0; metadata_cache_bytes = 100 })) ((0, 1) ∷ (2, 3) ∷ [])
      ((codes "s3", some 5) ∷ (codes "gs", none) ∷ []) refl
      (refl, refl, refl, (refl, refl, refl, tt))
