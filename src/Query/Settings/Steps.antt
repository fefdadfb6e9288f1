-- ===== src/Query/Settings/Steps.antt =====
-- What one call of the client does to the query's handle.
use lancedb_c.Prelude.{
  ℕ, suc, ◌≡◌, refl, true, false, none, some, List, [], ◌∷◌, map, length, ◌==◌, arith, ◌∙◌,
  Bool-cases, inl, inr, if◌then◌else◌,
}
use lancedb_c.Text.{Bytes, is_utf8}
use lancedb_c.External.{External}
use lancedb_c.Memory.{
  Ptr, null, addr, Cell, text, pointers, query, Query, Heap, ok, write, push, alloc, release, pure,
  ◌>>=◌, ◌>>◌,
}
use lancedb_c.Memory.Laws.{
  IsWf, Updated, write-Updated, mem-write_ne, live-lt-next, mem-push_old, mem-push_new,
  load_query-ok, store-ok, load_str-some, take_expr-ok, release-ok,
}
use lancedb_c.Memory.Arrays.{has, Elements-map, freed_all, mem-freed_all, freed_all-IsWf}
use lancedb_c.Memory.Texts.{
  AllTexts, TextsAdded, alloc_texts-TextsAdded, AllTexts-frame, AllTexts-live, release_all,
  release_all_lem,
}
use lancedb_c.Memory.Returns
use lancedb_c.Memory.Returns.{Returns}
use lancedb_c.Columns.Laws.{Strings, all_valid, read_columns_lem}
use lancedb_c.Error.{LanceDbError, success}
use lancedb_c.Columns.{read_columns}
use lancedb_c.Expr.Build.{denote, build, Added}
use lancedb_c.Expr.Build.Denotes.{build-denote}
use lancedb_c.Query.{
  lancedb_query_limit, lancedb_query_offset, lancedb_query_select, lancedb_query_where_filter,
  lancedb_query_df_filter,
}
use lancedb_c.Query.Settings.{
  Setting, limit, offset, select, where_filter, df_filter, AllUtf8, IsValid, call,
}

-- the handle's fields after a setting
abbrev pub set_on : {X : External} → Setting X → Query X → Query X
set_on (limit n) q = record q { limit = some n }
set_on (offset n) q = record q { offset = some n }
set_on {X} (select ss) q = record q { select = some (X.select_columns ss) }
set_on (where_filter s) q = record q { filter = some s }
set_on (df_filter t) q = record q { df_filter = some (denote t) }

abbrev pub Success : {X : External} → Heap X → ℕ → Query X → LanceDbError → Heap X → Type 0
Success h a q code g = (code ≡ success) × Updated h a (query q) g

-- A new cell, a write, and the new cell given back.
push-write-Updated :
    {X : External} (h : Heap X) (a : ℕ) (old new c : Cell X)
    → h.mem a ≡ some old
    → IsWf h
    → Updated h a c (write (write (push h new) a (some c)) h.next none)
unfolding write push
push-write-Updated h a old new c live wf = record {
  holds = ground (arith, live-lt-next a old wf live);
  same = λ b out. ground (arith, wf.unused h.next);
  wf = record { unused = λ b le. ground (arith, live-lt-next a old wf live, wf.unused b) };
}

-- The names of a client's strings are all there.
Strings-AllTexts :
    {X : External} (h : Heap X) (ps : List Ptr) (ss : List Bytes)
    → AllTexts h ps ss
    → Strings h ps (map some ss)
Strings-AllTexts h [] [] texts = tt
Strings-AllTexts h [] (s ∷ ss) texts = texts
Strings-AllTexts h (p ∷ ps) [] texts = absurd texts
Strings-AllTexts h (null ∷ ps) (s ∷ ss) texts = absurd texts
Strings-AllTexts h (addr a ∷ ps) (s ∷ ss) (live, _, texts) = (live, Strings-AllTexts h ps ss texts)

all_valid-AllUtf8 : (ss : List Bytes) → AllUtf8 ss → all_valid (map some ss) ≡ some ss
all_valid-AllUtf8 [] valid = refl
all_valid-AllUtf8 (s ∷ ss) (v, valid) = rw (v, all_valid-AllUtf8 ss valid)

module _ {X : External} (h : Heap X) (a : ℕ) (q : Query X) (live : h.mem a ≡ some (query q))
    (wf : IsWf h) where
  limit-Success : (n : ℕ) → Returns (Success h a (set_on (limit n) q)) (call (addr a) (limit n) h)
  unfolding call lancedb_query_limit
  limit-Success n =
      rw (load_query-ok h a q live, store-ok h a _ _ live) (refl, write-Updated h a _ wf live _)

  offset-Success :
      (n : ℕ) → Returns (Success h a (set_on (offset n) q)) (call (addr a) (offset n) h)
  unfolding call lancedb_query_offset
  offset-Success n =
      rw (load_query-ok h a q live, store-ok h a _ _ live) (refl, write-Updated h a _ wf live _)

  where_filter-Success :
      (s : Bytes)
      → is_utf8 s ≡ true
      → Returns (Success h a (set_on (where_filter s) q)) (call (addr a) (where_filter s) h)
  unfolding call lancedb_query_where_filter alloc
  where_filter-Success s valid =
      let before = mem-push_old a _ (text s) wf live in
      let new = mem-push_new h (text s) in
      rw
        (
          load_str-some (push h (text s)) h.next s new valid,
          load_query-ok (push h (text s)) a q before,
          store-ok (push h (text s)) a _ (query (set_on (where_filter s) q)) before,
        )
        (rw
          (release-ok (write (push h (text s)) a (some (query (set_on (where_filter s) q)))) h.next
            (text s) kept)
          (refl, done))
    where
      apart : (h.next == a) ≡ false
      apart = ground (arith, live-lt-next a (query q) wf live)

      kept :
          (write (push h (text s)) a (some (query (set_on (where_filter s) q)))).mem h.next
          ≡ some (text s)
      kept = mem-write_ne _ a h.next _ apart ∙ mem-push_new h (text s)

      done :
          Updated h a (query (set_on (where_filter s) q)) (
            write
              (write (push h (text s)) a (some (query (set_on (where_filter s) q))))
              h.next
              none)
      done = push-write-Updated h a _ (text s) _ live wf

-- The call that hands an expression over, once the expression is built.
module _ {X : External} (h g : Heap X) (a b : ℕ) (q : Query X) (e : X.Expr)
    (live : h.mem a ≡ some (query q)) (built : Added h e b g) where
  live_built : g.mem a ≡ some (query q)
  live_built = ground (arith, built.same a, built.fresh)

  live_taken : (write g b none).mem a ≡ some (query q)
  unfolding write
  live_taken = ground (arith, live_built, built.holds)

  taken-Updated : (c : Cell X) → Updated h a c (write (write g b none) a (some c))
  unfolding write
  taken-Updated c = record {
    holds = ground arith;
    same = λ d out. ground (arith, built.same d, built.fresh);
    wf = record { unused = λ d le. ground (arith, built.wf.unused d, live_built) };
  }

  df_filter_taken :
      Returns
        (Success h a (record q { df_filter = some e }))
        (lancedb_query_df_filter (addr a) (addr b) null g)
  unfolding lancedb_query_df_filter
  df_filter_taken =
      rw
        (
          take_expr-ok g b e built.holds,
          load_query-ok (write g b none) a q live_taken,
          store-ok (write g b none) a _ (query (record q { df_filter = some e })) live_taken,
        )
        (refl, taken-Updated _)

-- The call that selects columns, once their strings are there.
module _ {X : External} (h k : Heap X) (a : ℕ) (q : Query X) (ss : List Bytes) (ps : List Ptr)
    (live : h.mem a ≡ some (query q)) (valid : AllUtf8 ss) (all : TextsAdded h ss ps k) where
  a_out : has a ps ≡ false
  a_out = elim (Bool-cases (has a ps)) [
    | inl in_ps ↦ absurd (ground (arith, all.fresh a in_ps))
    | inr out ↦ out
  ]

  live_strings : k.mem a ≡ some (query q)
  live_strings = all.same a a_out ∙ live

  array_out : has k.next ps ≡ false
  array_out = elim (Bool-cases (has k.next ps)) [
    | inl in_ps ↦
        let (s, there) = AllTexts-live k k.next ps ss all.texts in_ps in
        absurd (ground (arith, all.wf.unused k.next))
    | inr out ↦ out
  ]

  array_apart : (k.next == a) ≡ false
  array_apart = ground (arith, live-lt-next a (query q) all.wf live_strings)

  -- the memory with the array, and with the setting made
  arrayed : Heap X
  arrayed = push k (pointers (map some ps))

  chosen : Query X
  chosen = record q { select = some (X.select_columns ss) }

  selected : Heap X
  unfolding arrayed chosen
  selected = write arrayed a (some (query chosen))

  mem-selected :
      (b : ℕ)
      → selected.mem b ≡ (
          if b == a
          then some (query chosen)
          else if b == k.next
          then some (pointers (map some ps))
          else k.mem b)
  unfolding selected write push
  mem-selected b = refl

  texts_arrayed : AllTexts arrayed ps ss
  unfolding arrayed push write
  texts_arrayed = AllTexts-frame k arrayed ps ss (λ b in_ps. ground (arith, array_out)) all.texts

  texts_selected : AllTexts (write selected k.next none) ps ss
  unfolding write
  texts_selected =
      AllTexts-frame k (write selected k.next none) ps ss
        (λ b in_ps. ground (arith, mem-selected b, array_out, a_out)) all.texts

  read : read_columns (length ps) 0 (addr k.next) [] arrayed ≡ ok (some ss) arrayed
  unfolding arrayed
  read =
      read_columns_lem arrayed k.next 0 (map some ps) ps (map some ss) [] (mem-push_new k _)
        (Elements-map ps) (Strings-AllTexts arrayed ps ss texts_arrayed)
      ∙ rw (all_valid-AllUtf8 ss valid)

  select_result :
      lancedb_query_select (addr a) (addr k.next) (length ps) null arrayed ≡ ok success selected
  unfolding lancedb_query_select selected
  select_result =
      let there : arrayed.mem a ≡ some (query q) = kept in
      rw (read, load_query-ok arrayed a q there, store-ok arrayed a _ (query chosen) there)
    where
      kept : arrayed.mem a ≡ some (query q)
      kept = mem-push_old a _ _ all.wf live_strings

  array_kept : selected.mem k.next ≡ some (pointers (map some ps))
  array_kept = ground (arith, mem-selected k.next, array_apart)

  next-selected : selected.next ≡ suc k.next
  unfolding selected arrayed write push
  next-selected = refl

  select-Updated : Updated h a (query chosen) (freed_all ps (write selected k.next none))
  unfolding write
  select-Updated = record {
    holds = ground (
      arith,
      mem-freed_all ps (write selected k.next none) a,
      mem-selected a,
      a_out,
      array_apart,
    );
    same = λ b out. ground (
      arith,
      mem-freed_all ps (write selected k.next none) b,
      mem-selected b,
      all.same b,
      all.fresh b,
      all.wf.unused k.next,
    );
    wf = freed_all-IsWf ps (write selected k.next none) (record {
      unused = λ b le. ground (
        arith,
        mem-selected b,
        next-selected,
        all.wf.unused b,
        live-lt-next a (query q) all.wf live_strings,
      );
    });
  }

  select_called : Returns (Success h a chosen) (
      (alloc (pointers (map some ps)) >>= λ l.
      lancedb_query_select (addr a) l (length ps) null >>= λ code.
      release l >> (release_all ps >> pure code))
        k)
  unfolding alloc arrayed
  select_called = rw select_result (
      rw (release-ok selected k.next _ array_kept) (
        rw (release_all_lem (write selected k.next none) ps ss texts_selected)
          (refl, select-Updated)))

-- Every valid setting is made on the handle with success, and the client's memory is otherwise as before.
pub call-Success :
    {X : External} (h : Heap X) (a : ℕ) (q : Query X) (c : Setting X)
    → h.mem a ≡ some (query q)
    → IsWf h
    → IsValid c
    → Returns (Success h a (set_on c q)) (call (addr a) c h)
unfolding call chosen
call-Success h a q (limit n) live wf valid = limit-Success h a q live wf n
call-Success h a q (offset n) live wf valid = offset-Success h a q live wf n
call-Success h a q (select ss) live wf valid =
    Returns.bind (TextsAdded h ss) _ _ _ (alloc_texts-TextsAdded ss h wf)
      λ ps k all. select_called h k a q ss ps live valid all
call-Success h a q (where_filter s) live wf valid = where_filter-Success h a q live wf s valid
call-Success h a q (df_filter t) live wf valid =
    Returns.bind (λ p g. (b : ℕ) × (p ≡ addr b) × Added h (denote t) b g) _ (build t h) _
      (build-denote t h valid wf)
      λ p g (b, e, built). rw e (df_filter_taken h g a b q (denote t) live built)
