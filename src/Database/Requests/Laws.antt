-- ===== src/Database/Requests/Laws.antt =====
-- The client of src/connection.rs, src/table.rs and src/index.rs is what its abstract view says.
use lancedb_c.Prelude.{
  ℕ, ◌≡◌, refl, Option, none, some, List, [], ◌∷◌, if◌then◌else◌, arith, ◌∙◌, Bool-cases, inl, inr,
}
use lancedb_c.Text.{Bytes, is_utf8}
use lancedb_c.External.{External, Effect, Result}
use lancedb_c.Memory.{
  Ptr, null, addr, Cell, text, connection, table, Heap, Cmd, ok, write, push, alloc,
}
use lancedb_c.Memory.Laws.{
  IsWf, push-IsWf, mem-push_old, mem-push_new, load_str-some, load_str-none, load_connection-ok,
  load_table-ok, release-ok,
}
use lancedb_c.Memory.Returns
use lancedb_c.Memory.Returns.{Returns}
use lancedb_c.Error.{invalid_argument, set_invalid_argument_message, handle_error}
use lancedb_c.Columns.Laws.{Strings}
use lancedb_c.Database.{
  Op, LanceDbOptimizeType, settle, with_str, with_namespace, lancedb_connection_drop_table,
  lancedb_connection_rename_table, lancedb_connection_drop_all_tables,
  lancedb_connection_create_namespace, lancedb_connection_drop_namespace, lancedb_table_delete,
  lancedb_table_drop_index, lancedb_table_optimize,
}
use lancedb_c.Database.Requests.{
  Request, drop_table, rename_table, drop_all_tables, create_namespace, drop_namespace, delete,
  drop_index, optimize, arguments, with_names, dispatch, send, send_all, namespace_of, all_utf8,
  effect, outcome, perform, perform_all,
}

-- What was allocated is there still.
abbrev Keeps : {X : External} → Heap X → Heap X → Type 0
Keeps {X} h g = (b : ℕ) (c : Cell X) → h.mem b ≡ some c → g.mem b ≡ some c

-- The value, with every cell as it was before.
abbrev pub Yields : {X : External} {A : Type 0} → A → Heap X → A → Heap X → Type 0
Yields v h a g = (a ≡ v) × ((b : ℕ) → g.mem b ≡ h.mem b) × IsWf g

module _ {X : External} (h g : Heap X) (s : Bytes)
    (same : (b : ℕ) → g.mem b ≡ (push h (text s)).mem b) where
  released-mem : IsWf h → (b : ℕ) → (write g h.next none).mem b ≡ h.mem b
  unfolding write push
  released-mem wf b = ground (arith, same b, wf.unused h.next)

  released-IsWf : IsWf g → IsWf (write g h.next none)
  unfolding write
  released-IsWf wf = record { unused = λ b le. ground (arith, wf.unused b) }

module _ {X : External} {A : Type 0} (v : A) where
  with_names-Yields :
      (os : List (Option Bytes)) (run : List Ptr → Cmd X A) (h : Heap X)
      → IsWf h
      → ((g : Heap X) (ps : List Ptr) → Keeps h g → Strings g ps os → run ps g ≡ ok v g)
      → Returns (Yields v h) (with_names os run h)
  unfolding with_names alloc
  with_names-Yields [] run h wf runs = rw (runs h [] (λ b c live. live) tt) (refl, (λ b. refl), wf)
  with_names-Yields (none ∷ os) run h wf runs =
      with_names-Yields os (λ ps. run (null ∷ ps)) h wf
        λ g ps keeps strings. runs g (null ∷ ps) keeps (refl, strings)
  with_names-Yields (some s ∷ os) run h wf runs =
      Returns.bind (Yields v (push h (text s))) (Yields v h)
        (with_names os (λ ps. run (addr h.next ∷ ps)) (push h (text s))) _
        (with_names-Yields os (λ ps. run (addr h.next ∷ ps)) (push h (text s))
          (push-IsWf (text s) wf)
          λ g ps keeps strings.
            runs g (addr h.next ∷ ps) (λ b c live. keeps b c (mem-push_old b c (text s) wf live))
              (keeps h.next (text s) (mem-push_new h (text s)), strings))
        λ a g (e, same, wf').
          rw (release-ok g h.next (text s) (same h.next ∙ mem-push_new h (text s)))
            (e, released-mem h g s same wf, released-IsWf h g s same wf')

module _ {X : External} (g : Heap X) (w : X.World) where
  pub settle-outcome : (r : Effect X.World (Unit {0})) → settle r null g ≡ ok (outcome r) g
  unfolding settle handle_error
  settle-outcome (Result.ok done, w') = refl
  settle-outcome (Result.err e, w') = refl

  -- A string is read, or the call refused.
  pub with_str-cases :
      (a : ℕ) (s : Bytes) (rest : Bytes → Op X)
      → g.mem a ≡ some (text s)
      → with_str (addr a) null w rest g
        ≡ (if is_utf8 s then rest s g else ok (invalid_argument, w) g)
  unfolding with_str set_invalid_argument_message
  with_str-cases a s rest live = elim (Bool-cases (is_utf8 s)) [
    | inl valid ↦ rw (load_str-some g a s live valid, valid) refl
    | inr broken ↦ rw (load_str-none g a s live broken, broken) refl
  ]

  with_namespace-cases :
      (p : Ptr) (o : Option Bytes) (rest : List Bytes → Op X)
      → Strings g (p ∷ []) (o ∷ [])
      → with_namespace p null w rest g
        ≡ (if all_utf8 (o ∷ []) then rest (namespace_of o) g else ok (invalid_argument, w) g)
  unfolding with_namespace
  with_namespace-cases null none rest strings = refl
  with_namespace-cases null (some s) rest (e, strings) = absurd (cc)
  with_namespace-cases (addr a) none rest strings = absurd strings
  with_namespace-cases (addr a) (some s) rest (live, strings) =
      rw (with_str-cases a s (λ t. rest (t ∷ [])) live) (ground arith)

module _ {X : External} (g : Heap X) where
  named :
      (ps : List Ptr) (s : Bytes) (os : List (Option Bytes))
      → Strings g ps (some s ∷ os)
      → (a : ℕ) × (qs : List Ptr) × (ps ≡ addr a ∷ qs) × (g.mem a ≡ some (text s)) × Strings g qs os
  named [] s os strings = absurd strings
  named (null ∷ ps) s os (e, strings) = absurd (cc)
  named (addr a ∷ ps) s os (live, strings) = (a, ps, refl, live, strings)

  optional :
      (ps : List Ptr) (o : Option Bytes) (os : List (Option Bytes))
      → Strings g ps (o ∷ os)
      → (p : Ptr) × (qs : List Ptr) × (ps ≡ p ∷ qs) × Strings g (p ∷ []) (o ∷ []) × Strings g qs os
  optional [] o os strings = absurd strings
  optional (null ∷ ps) o os (e, strings) = (null, ps, refl, (e, tt), strings)
  optional (addr a ∷ ps) none os strings = absurd strings
  optional (addr a ∷ ps) (some s) os (live, strings) = (addr a, ps, refl, (live, tt), strings)

  ended : (ps : List Ptr) → Strings g ps [] → ps ≡ []
  ended [] strings = refl
  ended (null ∷ ps) strings = absurd strings
  ended (addr a ∷ ps) strings = absurd strings

module _ {X : External} (g : Heap X) (w : X.World) (c t : ℕ) (conn : X.Connection) (tbl : X.Table)
    {cached : Option Ptr} (connected : g.mem c ≡ some (connection conn cached))
    (opened : g.mem t ≡ some (table tbl)) where
  drop_table-perform :
      (a : ℕ) (q : Ptr) (name : Bytes) (ns : Option Bytes)
      → g.mem a ≡ some (text name)
      → Strings g (q ∷ []) (ns ∷ [])
      → lancedb_connection_drop_table w (addr c) (addr a) q null g
        ≡ ok (perform X w conn tbl (drop_table name ns)) g
  unfolding lancedb_connection_drop_table perform effect
  drop_table-perform a q name ns live strings =
      rw
        (
          with_str-cases g w a name _ live,
          load_connection-ok g c conn cached connected,
          with_namespace-cases g w q ns _ strings,
          settle-outcome g w,
        )
        (ground arith)

  rename_table-perform :
      (a b : ℕ) (p q : Ptr) (old new : Bytes) (from to : Option Bytes)
      → g.mem a ≡ some (text old)
      → g.mem b ≡ some (text new)
      → Strings g (p ∷ []) (from ∷ [])
      → Strings g (q ∷ []) (to ∷ [])
      → lancedb_connection_rename_table w (addr c) (addr a) (addr b) p q null g
        ≡ ok (perform X w conn tbl (rename_table old new from to)) g
  unfolding lancedb_connection_rename_table perform effect
  rename_table-perform a b p q old new from to live live' strings strings' =
      rw
        (
          with_str-cases g w a old _ live,
          with_str-cases g w b new _ live',
          load_connection-ok g c conn cached connected,
          with_namespace-cases g w p from _ strings,
          with_namespace-cases g w q to _ strings',
          settle-outcome g w,
        )
        (ground arith)

  drop_all_tables-perform :
      (q : Ptr) (ns : Option Bytes)
      → Strings g (q ∷ []) (ns ∷ [])
      → lancedb_connection_drop_all_tables w (addr c) q null g
        ≡ ok (perform X w conn tbl (drop_all_tables ns)) g
  unfolding lancedb_connection_drop_all_tables perform effect
  drop_all_tables-perform q ns strings =
      rw
        (
          load_connection-ok g c conn cached connected,
          with_namespace-cases g w q ns _ strings,
          settle-outcome g w,
        )
        (ground arith)

  module _ (a : ℕ) (s : Bytes) (live : g.mem a ≡ some (text s)) where
    create_namespace-perform :
        lancedb_connection_create_namespace w (addr c) (addr a) null g
        ≡ ok (perform X w conn tbl (create_namespace s)) g
    unfolding lancedb_connection_create_namespace perform effect
    create_namespace-perform =
        rw
          (
            with_str-cases g w a s _ live,
            load_connection-ok g c conn cached connected,
            settle-outcome g w,
          )
          (ground arith)

    drop_namespace-perform :
        lancedb_connection_drop_namespace w (addr c) (addr a) null g
        ≡ ok (perform X w conn tbl (drop_namespace s)) g
    unfolding lancedb_connection_drop_namespace perform effect
    drop_namespace-perform =
        rw
          (
            with_str-cases g w a s _ live,
            load_connection-ok g c conn cached connected,
            settle-outcome g w,
          )
          (ground arith)

    delete-perform :
        lancedb_table_delete w (addr t) (addr a) null g ≡ ok (perform X w conn tbl (delete s)) g
    unfolding lancedb_table_delete perform effect
    delete-perform =
        rw (with_str-cases g w a s _ live, load_table-ok g t tbl opened, settle-outcome g w)
          (ground arith)

    drop_index-perform :
        lancedb_table_drop_index w (addr t) (addr a) null g
        ≡ ok (perform X w conn tbl (drop_index s)) g
    unfolding lancedb_table_drop_index perform effect
    drop_index-perform =
        rw (with_str-cases g w a s _ live, load_table-ok g t tbl opened, settle-outcome g w)
          (ground arith)

  optimize-perform :
      (kind : LanceDbOptimizeType)
      → lancedb_table_optimize w (addr t) kind null g ≡ ok (perform X w conn tbl (optimize kind)) g
  unfolding lancedb_table_optimize perform effect
  optimize-perform kind = rw (load_table-ok g t tbl opened, settle-outcome g w)

  -- The call of a request does what its abstract view says, and leaves the memory alone.
  dispatch-perform :
      (r : Request) (ps : List Ptr)
      → Strings g ps (arguments r)
      → dispatch w (addr c) (addr t) r ps g ≡ ok (perform X w conn tbl r) g
  unfolding dispatch
  dispatch-perform (drop_table name ns) ps strings =
      let (a, qs, e, live, rest) = named g ps name (ns ∷ []) strings in
      let (q, rs, e', there, last) = optional g qs ns [] rest in
      rw (e, e', ended g rs last) (drop_table-perform a q name ns live there)
  dispatch-perform (rename_table old new from to) ps strings =
      let (a, as', e, live, rest) = named g ps old (some new ∷ from ∷ to ∷ []) strings in
      let (b, bs, e', live', rest') = named g as' new (from ∷ to ∷ []) rest in
      let (p, qs, d, there, last) = optional g bs from (to ∷ []) rest' in
      let (q, rs, d', there', last') = optional g qs to [] last in
      rw (e, e', d, d', ended g rs last')
        (rename_table-perform a b p q old new from to live live' there there')
  dispatch-perform (drop_all_tables ns) ps strings =
      let (q, rs, e, there, last) = optional g ps ns [] strings in
      rw (e, ended g rs last) (drop_all_tables-perform q ns there)
  dispatch-perform (create_namespace s) ps strings =
      let (a, qs, e, live, last) = named g ps s [] strings in
      rw (e, ended g qs last) (create_namespace-perform a s live)
  dispatch-perform (drop_namespace s) ps strings =
      let (a, qs, e, live, last) = named g ps s [] strings in
      rw (e, ended g qs last) (drop_namespace-perform a s live)
  dispatch-perform (delete s) ps strings =
      let (a, qs, e, live, last) = named g ps s [] strings in
      rw (e, ended g qs last) (delete-perform a s live)
  dispatch-perform (drop_index s) ps strings =
      let (a, qs, e, live, last) = named g ps s [] strings in
      rw (e, ended g qs last) (drop_index-perform a s live)
  dispatch-perform (optimize kind) ps strings = rw (ended g ps strings) (optimize-perform kind)

module _ {X : External} (c t : ℕ) (conn : X.Connection) {cached : Option Ptr} (tbl : X.Table) where
  send-Yields :
      (w : X.World) (h : Heap X) (r : Request)
      → h.mem c ≡ some (connection conn cached)
      → h.mem t ≡ some (table tbl)
      → IsWf h
      → Returns (Yields (perform X w conn tbl r) h) (send w (addr c) (addr t) r h)
  unfolding send
  send-Yields w h r connected opened wf =
      with_names-Yields (perform X w conn tbl r) (arguments r) (dispatch w (addr c) (addr t) r) h wf
        λ g ps keeps strings.
          dispatch-perform g w c t conn tbl (keeps c _ connected) (keeps t _ opened) r ps strings

  -- A client that has a connection and a table sends any requests, one after the other, by the calls of the C interface. It gets
  -- the codes, and leaves the databases, of the abstract view: each request with texts in UTF-8 is one call of lancedb on the
  -- databases that the requests before it left, and its code is success or that of lancedb's error; any other is an
  -- invalid argument, and changes nothing. The client's memory is as before.
  pub send_all-perform_all :
      (rs : List Request) (w : X.World) (h : Heap X)
      → h.mem c ≡ some (connection conn cached)
      → h.mem t ≡ some (table tbl)
      → IsWf h
      → Returns (Yields (perform_all X w conn tbl rs) h) (send_all w (addr c) (addr t) rs h)
  unfolding send_all perform_all
  send_all-perform_all [] w h connected opened wf = (refl, (λ b. refl), wf)
  send_all-perform_all (r ∷ rs) w h connected opened wf =
      Returns.bind (Yields (perform X w conn tbl r) h) _ (send w (addr c) (addr t) r h) _
        (send-Yields w h r connected opened wf)
        λ a g (e, same, wf'). rw e (
          Returns.bind (Yields (perform_all X (perform X w conn tbl r).1 conn tbl rs) g) _
            (send_all (perform X w conn tbl r).1 (addr c) (addr t) rs g) _
            (send_all-perform_all rs (perform X w conn tbl r).1 g (same c ∙ connected)
              (same t ∙ opened) wf')
            λ b k (e', same', wf''). (rw e' refl, (λ x. same' x ∙ same x), wf''))
