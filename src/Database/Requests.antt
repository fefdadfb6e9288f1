-- ===== src/Database/Requests.antt =====
-- A client that sends requests to a database by these functions, one after the other, and an abstract view of it that knows
-- neither memory nor pointers.
pub mod Laws
use lancedb_c.Prelude.{ℕ, Bool, true, ◌&&◌, Option, none, some, List, [], ◌∷◌, if◌then◌else◌}
use lancedb_c.Text.{Bytes, is_utf8}
use lancedb_c.External.{External, Effect, Result, ok, err}
use lancedb_c.Memory.{Ptr, null, addr, text, Cmd, fault, pure, ◌>>=◌, ◌>>◌, alloc, release}
use lancedb_c.Error.{LanceDbError, success, invalid_argument, error_to_error_code}
use lancedb_c.Database.{
  Op, LanceDbOptimizeType, action_of, lancedb_connection_drop_table,
  lancedb_connection_rename_table, lancedb_connection_drop_all_tables,
  lancedb_connection_create_namespace, lancedb_connection_drop_namespace, lancedb_table_delete,
  lancedb_table_drop_index, lancedb_table_optimize,
}

-- `none` for a namespace is the root.
pub data Request : Type 0 where
  drop_table : Bytes → Option Bytes → Request
  rename_table : Bytes → Bytes → Option Bytes → Option Bytes → Request
  drop_all_tables : Option Bytes → Request
  create_namespace drop_namespace delete drop_index : Bytes → Request
  optimize : LanceDbOptimizeType → Request

-- the texts of a request, with `none` for a null pointer
abbrev pub arguments : Request → List (Option Bytes)
arguments (drop_table name ns) = some name ∷ ns ∷ []
arguments (rename_table old new from to) = some old ∷ some new ∷ from ∷ to ∷ []
arguments (drop_all_tables ns) = ns ∷ []
arguments (create_namespace name) = some name ∷ []
arguments (drop_namespace name) = some name ∷ []
arguments (delete predicate) = some predicate ∷ []
arguments (drop_index name) = some name ∷ []
arguments (optimize t) = []

module _ {X : External} where
  -- The strings of a call live as long as the call.
  unfoldable pub with_names : {A : Type 0} → List (Option Bytes) → (List Ptr → Cmd X A) → Cmd X A
  with_names [] run = run []
  with_names (none ∷ os) run = with_names os λ ps. run (null ∷ ps)
  with_names (some s ∷ os) run = do
    p ← alloc (text s)
    a ← with_names os λ ps. run (p ∷ ps)
    release p
    pure a

  -- the call of a request, on a connection, a table and the strings
  unfoldable pub dispatch : X.World → Ptr → Ptr → Request → List Ptr → Op X
  dispatch w c t (drop_table name ns) (p ∷ q ∷ []) = lancedb_connection_drop_table w c p q null
  dispatch w c t (rename_table old new from to) (p ∷ q ∷ r ∷ s ∷ []) =
      lancedb_connection_rename_table w c p q r s null
  dispatch w c t (drop_all_tables ns) (p ∷ []) = lancedb_connection_drop_all_tables w c p null
  dispatch w c t (create_namespace name) (p ∷ []) = lancedb_connection_create_namespace w c p null
  dispatch w c t (drop_namespace name) (p ∷ []) = lancedb_connection_drop_namespace w c p null
  dispatch w c t (delete predicate) (p ∷ []) = lancedb_table_delete w t p null
  dispatch w c t (drop_index name) (p ∷ []) = lancedb_table_drop_index w t p null
  dispatch w c t (optimize kind) [] = lancedb_table_optimize w t kind null
  dispatch w c t _ _ = λ h. fault

  unfoldable pub send : X.World → Ptr → Ptr → Request → Op X
  send w c t r = with_names (arguments r) (dispatch w c t r)

  unfoldable pub send_all : X.World → Ptr → Ptr → List Request → Cmd X (List LanceDbError × X.World)
  send_all w c t [] = pure ([], w)
  send_all w c t (r ∷ rs) = do
    (code, w') ← send w c t r
    (codes, w'') ← send_all w' c t rs
    pure (code ∷ codes, w'')

-- The abstract view: a namespace is a list, and a request is one call of lancedb if all its texts are UTF-8.
abbrev pub namespace_of : Option Bytes → List Bytes
namespace_of none = []
namespace_of (some s) = s ∷ []

abbrev pub all_utf8 : List (Option Bytes) → Bool
all_utf8 [] = true
all_utf8 (none ∷ os) = all_utf8 os
all_utf8 (some s ∷ os) = is_utf8 s && all_utf8 os

unfoldable pub effect :
    (X : External) → X.World → X.Connection → X.Table → Request → Effect X.World (Unit {0})
effect X w c t (drop_table name ns) = X.drop_table w c name (namespace_of ns)
effect X w c t (rename_table old new from to) =
    X.rename_table w c old new (namespace_of from) (namespace_of to)
effect X w c t (drop_all_tables ns) = X.drop_all_tables w c (namespace_of ns)
effect X w c t (create_namespace name) = X.create_namespace w c name
effect X w c t (drop_namespace name) = X.drop_namespace w c name
effect X w c t (delete predicate) = X.delete w t predicate
effect X w c t (drop_index name) = X.drop_index w t name
effect X w c t (optimize kind) = X.optimize w t (action_of X kind)

abbrev pub outcome : {W : Type 0} → Effect W (Unit {0}) → LanceDbError × W
outcome (ok done, w) = (success, w)
outcome (err e, w) = (error_to_error_code e, w)

unfoldable pub perform :
    (X : External) → X.World → X.Connection → X.Table → Request → LanceDbError × X.World
perform X w c t r =
    if all_utf8 (arguments r) then outcome (effect X w c t r) else (invalid_argument, w)

unfoldable pub perform_all :
    (X : External) → X.World → X.Connection → X.Table → List Request → List LanceDbError × X.World
perform_all X w c t [] = ([], w)
perform_all X w c t (r ∷ rs) =
    let (code, w') = perform X w c t r in
    let (codes, w'') = perform_all X w' c t rs in (code ∷ codes, w'')
