-- ===== src/Connect/Client.antt =====
-- A client of the connect builder: options one after the other, a session, and the connection.
pub mod Laws
use lancedb_c.Prelude.{
  ℕ, zero, suc, ◌≡◌, refl, Bool, true, false, ◌==◌, ◌||◌, ◌&&◌, Option, none, some, List, [], ◌∷◌,
  arith, if◌then◌else◌, Bool-cases, inl, inr, ap, ◌∙◌, sym,
}
use lancedb_c.Text.{Bytes, is_utf8}
use lancedb_c.External.{External, Error, Effect, Result}
use lancedb_c.Memory.{
  Ptr, null, addr, text, connection, connect_builder, session, pointer_slot, Heap, Cmd, ok, pure,
  ◌>>=◌, write, push, alloc,
}
use lancedb_c.Memory.Laws.{
  IsWf, live-lt-next, load_str-some, load_str-none, take_connect_builder-ok, load_session-ok,
  write_pointer-ok, write-IsWf, push-IsWf,
}
use lancedb_c.Memory.Returns
use lancedb_c.Memory.Returns.{Returns}
use lancedb_c.Columns.Laws.{Strings, Strings-kept}
use lancedb_c.Error.{
  LanceDbError, success, invalid_argument, handle_error, set_invalid_argument_message,
  error_to_error_code,
}
use lancedb_c.Database.{Op, refuse}
use lancedb_c.Connect.{
  str_or_null, lancedb_connect, lancedb_connect_builder_storage_option,
  lancedb_connect_builder_session, settle_connection, lancedb_connect_builder_execute,
}

-- the options one after the other
unfoldable pub set_options : {X : External} → Ptr → List (Ptr × Ptr) → Cmd X Ptr
set_options b [] = pure b
set_options b ((key, value) ∷ rest) = do
  updated ← lancedb_connect_builder_storage_option b key value
  set_options updated rest

-- a whole connection
unfoldable pub connect_with : {X : External} → X.World → Ptr → List (Ptr × Ptr) → Ptr → Ptr → Op X
connect_with w uri options shared_session out = do
  b ← lancedb_connect uri
  configured ← set_options b options
  shared ← lancedb_connect_builder_session configured shared_session
  lancedb_connect_builder_execute w shared out null

-- A text that is there and in UTF-8.
abbrev pub valid : Option Bytes → Option Bytes
valid none = none
valid (some s) = if is_utf8 s then some s else none

-- An option of the builder: none of it is left if a text is missing or broken.
abbrev pub with_option :
    (X : External) → Option Bytes → Option Bytes → X.ConnectBuilder → Option X.ConnectBuilder
with_option X (some key) (some value) b = some (X.storage_option b key value)
with_option X _ _ b = none

abbrev pub option_step :
    (X : External) → Option Bytes → Option Bytes → Option X.ConnectBuilder → Option X.ConnectBuilder
option_step X key value none = none
option_step X key value (some b) = with_option X (valid key) (valid value) b

abbrev pub with_options :
    (X : External)
    → List (Option Bytes × Option Bytes)
    → Option X.ConnectBuilder
    → Option X.ConnectBuilder
with_options X [] b = b
with_options X ((key, value) ∷ os) b = with_options X os (option_step X key value b)

abbrev pub with_shared :
    (X : External) → Option X.Session → Option X.ConnectBuilder → Option X.ConnectBuilder
with_shared X s none = none
with_shared X none (some b) = some b
with_shared X (some s) (some b) = some (X.with_session b s)

abbrev pub started : (X : External) → Option Bytes → Option X.ConnectBuilder
started X none = none
started X (some s) = some (X.connect s)

-- The keys and values are null or strings.
abbrev pub Options :
    {X : External} → Heap X → List (Ptr × Ptr) → List (Option Bytes × Option Bytes) → Type 0
Options h [] [] = Unit {0}
Options h [] (o ∷ os) = ⊥
Options h (p ∷ ps) [] = ⊥
Options h (p ∷ ps) (o ∷ os) =
    Strings h (p.0 ∷ []) (o.0 ∷ []) × Strings h (p.1 ∷ []) (o.1 ∷ []) × Options h ps os

-- From `h` to `g` nothing changed, but that a builder was made if there is one.
abbrev pub Holding : {X : External} → Heap X → Option X.ConnectBuilder → Ptr → Heap X → Type 0
Holding h none null g = ((c : ℕ) → g.mem c ≡ h.mem c) × IsWf g
Holding h none (addr a) g = ⊥
Holding h (some b) null g = ⊥
Holding h (some b) (addr a) g =
    (g.mem a ≡ some (connect_builder b))
    × (h.mem a ≡ none)
    × ((c : ℕ) → (c == a) ≡ false → g.mem c ≡ h.mem c)
    × IsWf g

-- The pointer is null, or to a session.
abbrev pub Shared : {X : External} → Heap X → Ptr → Option X.Session → Type 0
Shared h null none = Unit {0}
Shared h null (some s) = ⊥
Shared h (addr a) none = ⊥
Shared h (addr a) (some s) = h.mem a ≡ some (session s)

-- The code and the databases of a connection, and the connection if there is one.
abbrev pub opened : {W C : Type 0} → Effect W C → (LanceDbError × W) × Option C
opened (Result.ok conn, w) = ((success, w), some conn)
opened (Result.err e, w) = ((error_to_error_code e, w), none)

abbrev pub connected :
    (X : External)
    → X.World
    → Option X.ConnectBuilder
    → (LanceDbError × X.World) × Option X.Connection
connected X w none = ((invalid_argument, w), none)
connected X w (some b) = opened (X.execute_connect w b)

-- The builder that the texts, the options and the session describe.
abbrev pub described :
    (X : External)
    → Option Bytes
    → List (Option Bytes × Option Bytes)
    → Option X.Session
    → Option X.ConnectBuilder
described X uri os shared = with_shared X shared (with_options X os (started X (valid uri)))

-- From `h` to `g` the variable at `out` got a new connection if there is one, and nothing else changed.
abbrev pub Opened : {X : External} → Heap X → ℕ → Option X.Connection → Heap X → Type 0
Opened h out none g = (c : ℕ) → g.mem c ≡ h.mem c
Opened h out (some conn) g =
    (at : ℕ) × (h.mem at ≡ none)
    × (g.mem at ≡ some (connection conn none))
    × (g.mem out ≡ some (pointer_slot (addr at)))
    × ((c : ℕ) → (c == out) ≡ false → (c == at) ≡ false → g.mem c ≡ h.mem c)
