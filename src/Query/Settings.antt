-- ===== src/Query/Settings.antt =====
-- A client of src/query.rs that collects settings on a query handle and executes it: the last setting of each kind
-- counts, and a DataFusion filter goes before one in SQL.
mod Steps
pub mod Laws
use mathlib.Core.Option
use lancedb_c.Prelude.{ℕ, ◌≡◌, Bool, true, Option, none, some, List, [], ◌∷◌, map, length, or_else}
use lancedb_c.Text.{Bytes, is_utf8}
use lancedb_c.External.{External}
use lancedb_c.Memory.{Ptr, null, text, pointers, Query, Cmd, pure, ◌>>=◌, ◌>>◌, alloc, release}
use lancedb_c.Memory.Texts.{alloc_texts, release_all}
use lancedb_c.Error.{LanceDbError}
use lancedb_c.Expr.Build.{Filter, denote, build, IsText}
use lancedb_c.Query.{
  lancedb_query_new, lancedb_query_limit, lancedb_query_offset, lancedb_query_select,
  lancedb_query_where_filter, lancedb_query_df_filter, lancedb_query_execute, apply_if,
  apply_filter,
}

pub data Setting (X : External) : Type 0 where
  limit : ℕ → Setting X
  offset : ℕ → Setting X
  select : List Bytes → Setting X
  where_filter : Bytes → Setting X
  df_filter : Filter X → Setting X

abbrev pub AllUtf8 : List Bytes → Type 0
AllUtf8 [] = Unit {0}
AllUtf8 (s ∷ ss) = (is_utf8 s ≡ true) × AllUtf8 ss

-- The texts of a setting are UTF-8.
abbrev pub IsValid : {X : External} → Setting X → Type 0
IsValid (limit n) = Unit {0}
IsValid (offset n) = Unit {0}
IsValid (select ss) = AllUtf8 ss
IsValid (where_filter s) = is_utf8 s ≡ true
IsValid (df_filter t) = IsText t

abbrev pub AllValid : {X : External} → List (Setting X) → Type 0
AllValid [] = Unit {0}
AllValid (c ∷ cs) = IsValid c × AllValid cs

-- One call, with the strings, the array or the expression that it needs.
unfoldable pub call : {X : External} → Ptr → Setting X → Cmd X LanceDbError
call q (limit n) = lancedb_query_limit q n null
call q (offset n) = lancedb_query_offset q n null
call q (select ss) = do
  ps ← alloc_texts ss
  l ← alloc (pointers (map some ps))
  code ← lancedb_query_select q l (length ps) null
  release l
  release_all ps
  pure code
call q (where_filter s) = do
  p ← alloc (text s)
  code ← lancedb_query_where_filter q p null
  release p
  pure code
call q (df_filter t) = do p ← build t; lancedb_query_df_filter q p null

unfoldable pub call_all : {X : External} → Ptr → List (Setting X) → Cmd X (List LanceDbError)
call_all q [] = pure []
call_all q (c ∷ cs) = do code ← call q c; codes ← call_all q cs; pure (code ∷ codes)

-- a query from its first call to its last
unfoldable pub session : {X : External} → X.World → Ptr → List (Setting X) → Cmd X Ptr
session w tbl cs = do q ← lancedb_query_new tbl; call_all q cs; lancedb_query_execute w q

-- The specification: the last value of each kind.
abbrev pub last_of : {S A : Type 0} → (S → Option A) → List S → Option A
last_of f [] = none
last_of f (c ∷ cs) = or_else (last_of f cs) (f c)

-- a change that is made if it is there
abbrev pub changed : {Q : Type 0} → Option (Q → Q) → Q → Q
changed none q = q
changed (some change) q = change q

module _ {X : External} where
  abbrev pub limit_of : Setting X → Option ℕ
  limit_of (limit n) = some n
  limit_of _ = none

  abbrev pub offset_of : Setting X → Option ℕ
  offset_of (offset n) = some n
  offset_of _ = none

  abbrev pub select_of : Setting X → Option X.Select
  select_of (select ss) = some (X.select_columns ss)
  select_of _ = none

  abbrev pub where_filter_of : Setting X → Option Bytes
  where_filter_of (where_filter s) = some s
  where_filter_of _ = none

  abbrev pub df_filter_of : Setting X → Option X.Expr
  df_filter_of (df_filter t) = some (denote t)
  df_filter_of _ = none

  -- the query that a list of settings stands for
  unfoldable pub intended : X.Table → List (Setting X) → X.Query
  intended t cs =
      let filter =
        or_else (Option.map (λ e q. X.query_df_filter q e) (last_of df_filter_of cs))
          (Option.map (λ s q. X.query_only_if q s) (last_of where_filter_of cs)) in
      let selection = Option.map (λ columns q. X.query_select q columns) (last_of select_of cs) in
      let skipped = Option.map (λ n q. X.query_offset q n) (last_of offset_of cs) in
      let bound = Option.map (λ n q. X.query_limit q n) (last_of limit_of cs) in
      changed filter (changed selection (changed skipped (changed bound (X.query t))))
