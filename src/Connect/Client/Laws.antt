-- ===== src/Connect/Client/Laws.antt =====
-- The client of the connect builder gets the connection that its arguments describe, and leaves no builder.
use lancedb_c.Prelude.{
  ℕ, ◌≡◌, refl, Option, none, some, List, [], ◌∷◌, arith, if◌then◌else◌, Bool-cases, inl, inr, ◌∙◌,
  sym,
}
use lancedb_c.Text.{Bytes, is_utf8}
use lancedb_c.External.{External, Effect, Result}
use lancedb_c.Memory.{
  Ptr, null, addr, text, connection, connect_builder, pointer_slot, Heap, Cmd, ok, write, push,
  alloc,
}
use lancedb_c.Memory.Laws.{
  IsWf, live-lt-next, load_str-some, load_str-none, take_connect_builder-ok, load_session-ok,
  write_pointer-ok, write-IsWf, push-IsWf, mem-push_old,
}
use lancedb_c.Memory.Returns
use lancedb_c.Memory.Returns.{Returns}
use lancedb_c.Columns.Laws.{Strings}
use lancedb_c.Error.{handle_error, set_invalid_argument_message}
use lancedb_c.Connect.{
  str_or_null, lancedb_connect, lancedb_connect_builder_storage_option,
  lancedb_connect_builder_session, settle_connection, lancedb_connect_builder_execute,
}
use lancedb_c.Connect.Client.{
  set_options, connect_with, valid, with_option, option_step, with_options, with_shared, started,
  Options, Holding, Shared, opened, connected, described, Opened,
}

module _ {X : External} (h : Heap X) where
  -- a builder that is not there any more
  Holding-none :
      (a : ℕ) (b : X.ConnectBuilder) (g : Heap X)
      → Holding h (some b) (addr a) g
      → Holding h none null (write g a none)
  unfolding write
  Holding-none a b g (here, fresh, same, wf) =
      ((λ c. ground (arith, fresh, same c)), write-IsWf a _ none here wf)

  -- a builder in place of none
  Holding-some :
      (b : X.ConnectBuilder) (g : Heap X)
      → Holding h none null g
      → Holding h (some b) (addr g.next) (push g (connect_builder b))
  unfolding write push
  Holding-some b g (same, wf) = (
    ground arith,
    sym (same g.next) ∙ wf.unused g.next (omega arith),
    λ c apart. ground (arith, same c),
    push-IsWf (connect_builder b) wf,
  )

  module _ (g : Heap X) (a : ℕ) (b : X.ConnectBuilder)
      (holding : Holding h (some b) (addr a) g) where
    without : Heap X
    without = write g a none

    without-Holding : Holding h none null without
    unfolding without
    without-Holding = Holding-none a b g holding

    str_or_null-cases :
        (k : ℕ) (s : Bytes) (rest : Bytes → Cmd X Ptr)
        → h.mem k ≡ some (text s)
        → str_or_null (addr k) rest without
          ≡ (if is_utf8 s then rest s without else ok null without)
    unfolding str_or_null
    str_or_null-cases k s rest live =
        let there = without-Holding.0 k ∙ live in
        elim (Bool-cases (is_utf8 s)) [
          | inl good ↦ rw (load_str-some without k s there good, good) refl
          | inr broken ↦ rw (load_str-none without k s there broken, broken) refl
        ]

    two_strings :
        (k v : ℕ) (key value : Bytes)
        → h.mem k ≡ some (text key)
        → h.mem v ≡ some (text value)
        → Returns (Holding h (with_option X (valid (some key)) (valid (some value)) b)) (
            str_or_null
              (addr k)
              (λ key_str.
                str_or_null
                  (addr v)
                  λ value_str. alloc (connect_builder (X.storage_option b key_str value_str)))
              without)
    unfolding alloc
    two_strings k v key value live live' =
        rw (str_or_null-cases k key _ live) (elim (Bool-cases (is_utf8 key)) [
          | inr broken ↦ rw broken without-Holding
          | inl good ↦ rw good (
              rw (str_or_null-cases v value _ live') (elim (Bool-cases (is_utf8 value)) [
                | inr broken ↦ rw broken without-Holding
                | inl good' ↦ rw good' (Holding-some _ without without-Holding)
              ]))
        ])

    option-Holding :
        (p q : Ptr) (key value : Option Bytes)
        → Strings h (p ∷ []) (key ∷ [])
        → Strings h (q ∷ []) (value ∷ [])
        → Returns
            (Holding h (option_step X key value (some b)))
            (lancedb_connect_builder_storage_option (addr a) p q g)
    unfolding lancedb_connect_builder_storage_option without
    option-Holding null q none value keyed valued =
        rw (take_connect_builder-ok g a b holding.0) without-Holding
    option-Holding null q (some s) value (e, end) valued = absurd (cc)
    option-Holding (addr k) q none value keyed valued = absurd keyed
    option-Holding (addr k) null (some s) none keyed valued =
        rw (take_connect_builder-ok g a b holding.0) (elim (Bool-cases (is_utf8 s)) [
          | inl good ↦ rw good without-Holding
          | inr broken ↦ rw broken without-Holding
        ])
    option-Holding (addr k) null (some s) (some t) keyed (e, end) = absurd (cc)
    option-Holding (addr k) (addr v) (some s) none keyed valued = absurd valued
    option-Holding (addr k) (addr v) (some s) (some t) (live, end) (live', end') =
        rw (take_connect_builder-ok g a b holding.0) (two_strings k v s t live live')

  step-Holding :
      (g : Heap X) (o : Option X.ConnectBuilder) (r p q : Ptr) (key value : Option Bytes)
      → Strings h (p ∷ []) (key ∷ [])
      → Strings h (q ∷ []) (value ∷ [])
      → Holding h o r g
      → Returns
          (Holding h (option_step X key value o))
          (lancedb_connect_builder_storage_option r p q g)
  unfolding lancedb_connect_builder_storage_option
  step-Holding g none null p q key value keyed valued holding = holding
  step-Holding g none (addr a) p q key value keyed valued holding = absurd holding
  step-Holding g (some b) null p q key value keyed valued holding = absurd holding
  step-Holding g (some b) (addr a) p q key value keyed valued holding =
      option-Holding g a b holding p q key value keyed valued

  set_options-Holding :
      (ps : List (Ptr × Ptr)) (os : List (Option Bytes × Option Bytes)) (g : Heap X)
      (o : Option X.ConnectBuilder) (r : Ptr)
      → Options h ps os
      → Holding h o r g
      → Returns (Holding h (with_options X os o)) (set_options r ps g)
  unfolding set_options
  set_options-Holding [] [] g o r there holding = holding
  set_options-Holding [] (x ∷ os) g o r there holding = absurd there
  set_options-Holding (p ∷ ps) [] g o r there holding = absurd there
  set_options-Holding ((p, q) ∷ ps) ((key, value) ∷ os) g o r (keyed, valued, there) holding =
      Returns.bind (Holding h (option_step X key value o))
        (Holding h (with_options X ((key, value) ∷ os) o))
        (lancedb_connect_builder_storage_option r p q g) _
        (step-Holding g o r p q key value keyed valued holding)
        λ r' g'. set_options-Holding ps os g' (option_step X key value o) r' there

  start-Holding :
      (u : Ptr) (o : Option Bytes)
      → Strings h (u ∷ []) (o ∷ [])
      → IsWf h
      → Returns (Holding h (started X (valid o))) (lancedb_connect u h)
  unfolding lancedb_connect str_or_null alloc
  start-Holding null none strings wf = ((λ c. refl), wf)
  start-Holding null (some s) (e, end) wf = absurd (cc)
  start-Holding (addr u) none strings wf = absurd strings
  start-Holding (addr u) (some s) (live, end) wf = elim (Bool-cases (is_utf8 s)) [
    | inl good ↦
        rw (load_str-some h u s live good, good) (Holding-some (X.connect s) h ((λ c. refl), wf))
    | inr broken ↦ rw (load_str-none h u s live broken, broken) ((λ c. refl), wf)
  ]

  session-Holding :
      (g : Heap X) (o : Option X.ConnectBuilder) (r p : Ptr) (shared : Option X.Session)
      → Shared h p shared
      → Holding h o r g
      → Returns (Holding h (with_shared X shared o)) (lancedb_connect_builder_session r p g)
  unfolding lancedb_connect_builder_session alloc
  session-Holding g none null p shared there holding = holding
  session-Holding g none (addr a) p shared there holding = absurd holding
  session-Holding g (some b) null p shared there holding = absurd holding
  session-Holding g (some b) (addr a) null none there holding =
      rw (take_connect_builder-ok g a b holding.0)
        (Holding-some b (write g a none) (Holding-none a b g holding))
  session-Holding g (some b) (addr a) null (some s) there holding = absurd there
  session-Holding g (some b) (addr a) (addr c) none there holding = absurd there
  session-Holding g (some b) (addr a) (addr c) (some s) there holding =
      let none_left = Holding-none a b g holding in
      rw
        (
          take_connect_builder-ok g a b holding.0,
          load_session-ok (write g a none) c s (none_left.0 c ∙ there),
        )
        (Holding-some (X.with_session b s) (write g a none) none_left)

  module _ (out : ℕ) (old : Ptr) (slot : h.mem out ≡ some (pointer_slot old)) where
    settle-Opened :
        (r : Effect X.World X.Connection) (g : Heap X)
        → Holding h none null g
        → Returns
            (λ v k. (v ≡ (opened r).0) × Opened h out (opened r).1 k)
            (settle_connection r (addr out) null g)
    unfolding settle_connection handle_error alloc write push
    settle-Opened (Result.err e, w) g (same, wf) = (refl, same)
    settle-Opened (Result.ok conn, w) g (same, wf) =
        let there = same out ∙ slot in
        rw
          (write_pointer-ok (push g (connection conn none)) out old (addr g.next)
            (mem-push_old out _ (connection conn none) wf there))
          (
            refl,
            (
              g.next,
              sym (same g.next) ∙ wf.unused g.next (omega arith),
              ground (arith, live-lt-next out _ wf there),
              ground arith,
              λ c apart apart'. ground (arith, same c),
            ),
          )

    execute-Opened :
        (w : X.World) (g : Heap X) (o : Option X.ConnectBuilder) (r : Ptr)
        → Holding h o r g
        → Returns
            (λ v k. (v ≡ (connected X w o).0) × Opened h out (connected X w o).1 k)
            (lancedb_connect_builder_execute w r (addr out) null g)
    unfolding lancedb_connect_builder_execute set_invalid_argument_message
    execute-Opened w g none null (same, wf) = (refl, same)
    execute-Opened w g none (addr a) holding = absurd holding
    execute-Opened w g (some b) null holding = absurd holding
    execute-Opened w g (some b) (addr a) holding =
        rw (take_connect_builder-ok g a b holding.0)
          (settle-Opened (X.execute_connect w b) (write g a none) (Holding-none a b g holding))

    -- A client that starts a builder with a text, sets options, shares a session or none, and connects, where the texts are null or strings:
    -- the code and the databases are those of the connection that is described, an invalid argument if a text is missing or not UTF-8, and in memory nothing
    -- changes but that the variable gets the new connection if there is one. No builder is left, also where one was refused half way.
    pub connect_with-Opened :
        (w : X.World) (u p : Ptr) (uri : Option Bytes) (ps : List (Ptr × Ptr))
        (os : List (Option Bytes × Option Bytes)) (shared : Option X.Session)
        → Strings h (u ∷ []) (uri ∷ [])
        → Options h ps os
        → Shared h p shared
        → IsWf h
        → Returns
            (λ v k.
              (v ≡ (connected X w (described X uri os shared)).0)
              × Opened h out (connected X w (described X uri os shared)).1 k)
            (connect_with w u ps p (addr out) h)
    unfolding connect_with
    connect_with-Opened w u p uri ps os shared texts there session_there wf =
        Returns.bind (Holding h (started X (valid uri))) _ (lancedb_connect u h) _
          (start-Holding u uri texts wf)
          λ b g holding.
            Returns.bind (Holding h (with_options X os (started X (valid uri)))) _
              (set_options b ps g) _
              (set_options-Holding ps os g (started X (valid uri)) b there holding)
              λ b' g' holding'.
                Returns.bind (Holding h (described X uri os shared)) _
                  (lancedb_connect_builder_session b' p g') _
                  (session-Holding g' (with_options X os (started X (valid uri))) b' p shared
                    session_there holding')
                  λ b'' g''. execute-Opened w g'' (described X uri os shared) b''
