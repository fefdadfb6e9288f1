-- ===== src/Query/Settings/Laws.antt =====
-- A whole client of src/query.rs: what its settings amount to, and what it is left with.
use mathlib.Core.Option
use lancedb_c.Prelude.{
  ℕ, ◌≡◌, refl, false, Option, none, some, List, [], ◌∷◌, length, replicate, ◌==◌, arith, ◌∙◌, ap,
  or_else,
}
use lancedb_c.Text.{Bytes}
use lancedb_c.External.{External, Result, ok, err, Error}
use lancedb_c.Memory.{Ptr, null, addr, Cell, query, stream, table, Query, Heap, write, push, alloc}
use lancedb_c.Memory.Laws.{IsWf, Updated, push-IsWf, mem-push_new, load_table-ok, take_query-ok}
use lancedb_c.Memory.Returns
use lancedb_c.Memory.Returns.{Returns}
use lancedb_c.Error.{success}
use lancedb_c.Query.{
  lancedb_query_new, lancedb_query_execute, rust_query, stream_result, apply_if, apply_filter,
}
use lancedb_c.Query.Settings.{
  Setting, limit, AllValid, call, call_all, session, last_of, limit_of, offset_of, select_of,
  where_filter_of, df_filter_of, intended, changed,
}
use lancedb_c.Query.Settings.Steps.{set_on, Success, call-Success}

set_all : {X : External} → List (Setting X) → Query X → Query X
set_all [] q = q
set_all (c ∷ cs) q = set_all cs (set_on c q)

or_else_assoc : {A : Type 0} (o p r : Option A) → or_else o (or_else p r) ≡ or_else (or_else o p) r
or_else_assoc none p r = refl
or_else_assoc (some a) p r = refl

or_else-none : {A : Type 0} (o : Option A) → or_else o none ≡ o
or_else-none none = refl
or_else-none (some a) = refl

apply_if-changed :
    {Q A : Type 0} (set : Q → A → Q) (o : Option A) (q : Q)
    → apply_if set o q ≡ changed (Option.map (λ v r. set r v) o) q
apply_if-changed set none q = refl
apply_if-changed set (some v) q = refl

apply_filter-changed :
    {Q E : Type 0} (df : Q → E → Q) (sql : Q → Bytes → Q) (o : Option E) (p : Option Bytes) (q : Q)
    → apply_filter df sql o p q
      ≡ changed (or_else (Option.map (λ e r. df r e) o) (Option.map (λ s r. sql r s) p)) q
apply_filter-changed df sql none none q = refl
apply_filter-changed df sql none (some s) q = refl
apply_filter-changed df sql (some e) p q = refl

module _ {X : External} where
  -- Each field holds the last value that was set, or what it held before.
  set_all-last :
      {A : Type 0} (field : Query X → Option A) (value : Setting X → Option A)
      → ((c : Setting X) (q : Query X) → field (set_on c q) ≡ or_else (value c) (field q))
      → (cs : List (Setting X)) (q : Query X)
      → field (set_all cs q) ≡ or_else (last_of value cs) (field q)
  unfolding set_all
  set_all-last field value step [] q = refl
  set_all-last field value step (c ∷ cs) q =
      set_all-last field value step cs (set_on c q)
      ∙ ap (or_else (last_of value cs)) (step c q)
      ∙ or_else_assoc (last_of value cs) (value c) (field q)

  set_on-limit : (c : Setting X) (q : Query X) → (set_on c q).limit ≡ or_else (limit_of c) q.limit
  set_on-limit (limit n) q = refl
  set_on-limit _ q = refl

  set_on-offset :
      (c : Setting X) (q : Query X) → (set_on c q).offset ≡ or_else (offset_of c) q.offset
  set_on-offset (limit n) q = refl
  set_on-offset _ q = refl

  set_on-select :
      (c : Setting X) (q : Query X) → (set_on c q).select ≡ or_else (select_of c) q.select
  set_on-select (limit n) q = refl
  set_on-select _ q = refl

  set_on-filter :
      (c : Setting X) (q : Query X) → (set_on c q).filter ≡ or_else (where_filter_of c) q.filter
  set_on-filter (limit n) q = refl
  set_on-filter _ q = refl

  set_on-df_filter :
      (c : Setting X) (q : Query X) → (set_on c q).df_filter ≡ or_else (df_filter_of c) q.df_filter
  set_on-df_filter (limit n) q = refl
  set_on-df_filter _ q = refl

  set_all-table : (cs : List (Setting X)) (q : Query X) → (set_all cs q).table ≡ q.table
  unfolding set_all
  set_all-table [] q = refl
  set_all-table (limit n ∷ cs) q = set_all-table cs (set_on (limit n) q)
  set_all-table (c ∷ cs) q = set_all-table cs (set_on c q)

  -- a handle as `lancedb_query_new` makes it
  abbrev empty_query : X.Table → Query X
  empty_query t = record {
    table = t;
    limit = none;
    offset = none;
    select = none;
    filter = none;
    df_filter = none;
  }

  rust_query-intended :
      (t : X.Table) (cs : List (Setting X))
      → rust_query (set_all cs (empty_query t)) ≡ intended t cs
  unfolding rust_query intended
  rust_query-intended t cs =
      rw
        (
          set_all-table cs (empty_query t),
          set_all-last (λ q. q.limit) limit_of set_on-limit cs (empty_query t),
          set_all-last (λ q. q.offset) offset_of set_on-offset cs (empty_query t),
          set_all-last (λ q. q.select) select_of set_on-select cs (empty_query t),
          set_all-last (λ q. q.filter) where_filter_of set_on-filter cs (empty_query t),
          set_all-last (λ q. q.df_filter) df_filter_of set_on-df_filter cs (empty_query t),
          or_else-none (last_of limit_of cs),
          or_else-none (last_of offset_of cs),
          or_else-none (last_of select_of cs),
          or_else-none (last_of where_filter_of cs),
          or_else-none (last_of df_filter_of cs),
        )
        (apply_filter-changed X.query_df_filter X.query_only_if (last_of df_filter_of cs)
            (last_of where_filter_of cs) _
          ∙ ap
              (changed (
                or_else (Option.map (λ e r. X.query_df_filter r e) (last_of df_filter_of cs))
                  (Option.map (λ s r. X.query_only_if r s) (last_of where_filter_of cs))))
              (apply_if-changed X.query_select (last_of select_of cs) _
                ∙ ap
                    (changed
                      (Option.map (λ columns r. X.query_select r columns) (last_of select_of cs)))
                    (apply_if-changed X.query_offset (last_of offset_of cs) _
                      ∙ ap (changed (Option.map (λ n r. X.query_offset r n) (last_of offset_of cs)))
                          (apply_if-changed X.query_limit (last_of limit_of cs) (X.query t)))))

  call_all-Updated :
      (cs : List (Setting X)) (h : Heap X) (a : ℕ) (q : Query X)
      → h.mem a ≡ some (query q)
      → IsWf h
      → AllValid cs
      → Returns
          (λ codes g.
            (codes ≡ replicate (length cs) success) × Updated h a (query (set_all cs q)) g)
          (call_all (addr a) cs h)
  unfolding call_all set_all
  call_all-Updated [] h a q live wf valid =
      (refl, record { holds = live; same = λ b out. refl; wf = wf })
  call_all-Updated (c ∷ cs) h a q live wf (v, valid) =
      Returns.bind (Success h a (set_on c q)) _ (call (addr a) c h) _
        (call-Success h a q c live wf v)
        λ code g (e, u).
          Returns.bind
            (λ codes k.
              (codes ≡ replicate (length cs) success)
              × Updated g a (query (set_all cs (set_on c q))) k)
            _ (call_all (addr a) cs g) _ (call_all-Updated cs g a (set_on c q) u.holds u.wf valid)
            λ codes k (es, u'). (
              ground arith,
              record { holds = u'.holds; same = λ b out. u'.same b out ∙ u.same b out; wf = u'.wf },
            )

-- What a client is left with: a new stream and nothing else, or a null pointer and the memory from before.
abbrev pub Outcome : {X : External} → Heap X → Result X.Stream Error → Ptr → Heap X → Type 0
Outcome h (ok s) p g =
    (a : ℕ) × (p ≡ addr a)
    × (h.mem a ≡ none)
    × (g.mem a ≡ some (stream s))
    × ((b : ℕ) → (b == a) ≡ false → g.mem b ≡ h.mem b)
Outcome h (err e) p g = (p ≡ null) × ((b : ℕ) → g.mem b ≡ h.mem b)

finish :
    {X : External} (h g : Heap X) (q q' : Cell X) (r : Result X.Stream Error)
    → IsWf h
    → Updated (push h q) h.next q' g
    → Returns (Outcome h r) (stream_result r (write g h.next none))
unfolding stream_result alloc push write
finish h g q q' (err e) wf u = (refl, λ b. ground (arith, u.same b, wf.unused h.next))
finish h g q q' (ok s) wf u = (
  g.next,
  refl,
  ground (arith, u.wf.unused g.next, u.holds, u.same g.next),
  ground arith,
  λ b out. ground (arith, u.same b, wf.unused h.next),
)

-- Whatever settings a client makes with texts in UTF-8, in whatever order and however often, the query that is executed has the last value of
-- each kind, and the DataFusion filter rather than the one in SQL if both were set. The client gets a new handle to the
-- stream of that query, or null if lancedb fails, and the query's handle and everything else that was
-- allocated on the way is gone.
pub session-intended :
    {X : External} (w : X.World) (h : Heap X) (t : ℕ) (tbl : X.Table) (cs : List (Setting X))
    → h.mem t ≡ some (table tbl)
    → IsWf h
    → AllValid cs
    → Returns (Outcome h (X.execute_query w (intended tbl cs))) (session w (addr t) cs h)
unfolding session lancedb_query_new lancedb_query_execute alloc
session-intended {X} w h t tbl cs there wf valid = rw (load_table-ok h t tbl there) (
    Returns.bind
      (λ codes g.
        (codes ≡ replicate (length cs) success)
        × Updated (push h (query (empty_query tbl))) h.next (query (set_all cs (empty_query tbl)))
            g)
      (Outcome h (X.execute_query w (intended tbl cs)))
      (call_all (addr h.next) cs (push h (query (empty_query tbl)))) _
      (call_all-Updated cs (push h (query (empty_query tbl))) h.next (empty_query tbl)
        (mem-push_new h _) (push-IsWf _ wf) valid)
      λ codes g (_, u).
        rw (take_query-ok g h.next _ u.holds, rust_query-intended tbl cs) (finish h g _ _ _ wf u))
