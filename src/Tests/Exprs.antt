-- ===== src/Tests/Exprs.antt =====
-- Runs of src/expr.rs, src/json.rs and the loop over column names.
use lancedb_c.Prelude.{ℕ, ◌≡◌, refl, true, false, none, some, List, [], ◌∷◌}
use lancedb_c.Text.{codes, is_utf8}
use lancedb_c.External.{Operator, Udf}
use lancedb_c.Memory.{null, addr, Cell, Heap, pointer_slot, text, expr, pointers, ok, write}
use lancedb_c.Memory.Returns.{Returns}
use lancedb_c.Memory.Arrays.{freed_all}
use lancedb_c.Error.Messages.{Reported}
use lancedb_c.Columns.{read_columns}
use lancedb_c.Columns.Laws.{read_columns_lem}
use lancedb_c.Expr.{LanceDbBinaryOp, operator_of, lancedb_expr_binary, lancedb_expr_in_list}
use lancedb_c.Expr.Consume.{produced, lancedb_expr_binary-produced}
use lancedb_c.Expr.InList.{lancedb_expr_in_list-produced, lancedb_expr_in_list-null_item}
use lancedb_c.Expr.Build.{
  Filter, column, literal_bool, in_list, cons, nil, build, denote, IsText, Added,
}
use lancedb_c.Expr.Build.Denotes.{build-denote}
use lancedb_c.Json.{build_json_udf_expr, lancedb_expr_json_array_has}
use lancedb_c.Json.Search.{Searched, lancedb_expr_json_array_has-Searched}
use lancedb_c.Json.Laws.{build_json_udf_expr-produced}
use lancedb_c.Tests.{sample, heap_of, heap_of-IsWf, Term, name, word, flag, terms}

abbrev two_exprs : Heap sample
two_exprs = heap_of (expr (name (codes "a")) ∷ expr (flag true) ∷ []) []

lancedb_expr_binary-produced_example :
    lancedb_expr_binary (addr 0) LanceDbBinaryOp.eq (addr 1) two_exprs
    ≡ produced
        (some (Term.binary (name (codes "a")) Operator.eq (flag true)))
        (write (write two_exprs 0 none) 1 none)
unfolding operator_of
lancedb_expr_binary-produced_example =
    lancedb_expr_binary-produced two_exprs (addr 0) (addr 1) (some (name (codes "a")))
      (some (flag true)) refl refl refl LanceDbBinaryOp.eq

abbrev full_list : List (Cell sample)
full_list =
    expr (name (codes "a"))
    ∷ pointers (some (addr 2) ∷ some (addr 3) ∷ [])
    ∷ expr (flag true)
    ∷ expr (flag false)
    ∷ []

lancedb_expr_in_list-produced_example :
    lancedb_expr_in_list (addr 0) (addr 1) 2 true null (heap_of full_list [])
    ≡ produced
        (some (Term.in_list (name (codes "a")) (terms (flag true ∷ flag false ∷ [])) true))
        (freed_all (addr 2 ∷ addr 3 ∷ []) (write (heap_of full_list []) 0 none))
lancedb_expr_in_list-produced_example =
    lancedb_expr_in_list-produced (heap_of full_list []) 0 1 (name (codes "a"))
      (addr 2 ∷ addr 3 ∷ []) (some (flag true) ∷ some (flag false) ∷ []) true null refl refl refl
      refl refl (refl, refl, (refl, refl, tt)) refl

abbrev gappy_list : List (Cell sample)
gappy_list =
    expr (name (codes "a"))
    ∷ pointers (some (addr 2) ∷ some null ∷ [])
    ∷ expr (flag true)
    ∷ pointer_slot null
    ∷ []

lancedb_expr_in_list-null_item_example :
    Returns
      (λ p g.
        (p ≡ null)
        × Reported
            (codes "Invalid argument")
            (addr 3)
            (freed_all (addr 2 ∷ null ∷ []) (write (heap_of gappy_list []) 0 none))
            g)
      (lancedb_expr_in_list (addr 0) (addr 1) 2 false (addr 3) (heap_of gappy_list []))
lancedb_expr_in_list-null_item_example =
    lancedb_expr_in_list-null_item (heap_of gappy_list []) 0 1 (name (codes "a"))
      (addr 2 ∷ null ∷ []) (some (flag true) ∷ none ∷ []) false (addr 3) refl refl refl refl refl
      (refl, refl, (refl, tt)) refl (null, refl) (heap_of-IsWf gappy_list [])

-- an `IN` over an array, with strings
abbrev membership : Filter sample
membership =
    in_list (column (codes "a")) (cons (literal_bool true) (cons (column (codes "b")) nil)) false

build-denote_example :
    Returns
      (λ p g. (a : ℕ) × (p ≡ addr a) × Added (heap_of [] []) (denote membership) a g)
      (build membership (heap_of [] []))
unfolding is_utf8 IsText
build-denote_example =
    build-denote membership (heap_of [] []) (refl, (tt, (refl, tt))) (heap_of-IsWf [] [])

abbrev path_cells : List (Cell sample)
path_cells =
    expr (name (codes "doc"))
    ∷ pointers (some (addr 2) ∷ some (addr 3) ∷ [])
    ∷ text (codes "k")
    ∷ text (codes "v")
    ∷ []

build_json_udf_expr-produced_example :
    build_json_udf_expr Udf.json_get_str (addr 0) (addr 1) 2 (heap_of path_cells [])
    ≡ produced
        (some (
          Term.application Udf.json_get_str
            (terms (name (codes "doc") ∷ word (codes "k") ∷ word (codes "v") ∷ []))))
        (write (heap_of path_cells []) 0 none)
unfolding is_utf8
build_json_udf_expr-produced_example =
    build_json_udf_expr-produced Udf.json_get_str (heap_of path_cells []) 0 1 (name (codes "doc"))
      (some (addr 2) ∷ some (addr 3) ∷ []) (addr 2) (addr 3 ∷ [])
      (some (codes "k") ∷ some (codes "v") ∷ []) refl refl (refl, (refl, tt)) (refl, (refl, tt))

read_columns-stops_example :
    read_columns 2 0
      (addr 1)
      []
      (heap_of (text (codes "x") ∷ pointers (some (addr 0) ∷ some null ∷ []) ∷ []) [])
    ≡ ok none (heap_of (text (codes "x") ∷ pointers (some (addr 0) ∷ some null ∷ []) ∷ []) [])
unfolding is_utf8
read_columns-stops_example =
    read_columns_lem
      (heap_of (text (codes "x") ∷ pointers (some (addr 0) ∷ some null ∷ []) ∷ []) []) 1 0
      (some (addr 0) ∷ some null ∷ []) (addr 0 ∷ null ∷ []) (some (codes "x") ∷ none ∷ []) [] refl
      (refl, (refl, tt)) (refl, (refl, tt))

abbrev search_cells : List (Cell sample)
search_cells =
    expr (name (codes "doc"))
    ∷ pointers (some (addr 2) ∷ [])
    ∷ text (codes "k")
    ∷ expr (flag true)
    ∷ []

lancedb_expr_json_array_has-Searched_example :
    Returns
      (Searched
        (heap_of search_cells [])
        0
        3
        (name (codes "doc"))
        (flag true)
        false
        (some (codes "k" ∷ [])))
      (lancedb_expr_json_array_has (addr 0) (addr 1) 1 (addr 3) false (heap_of search_cells []))
unfolding is_utf8
lancedb_expr_json_array_has-Searched_example =
    lancedb_expr_json_array_has-Searched (heap_of search_cells []) 0 1 3 (name (codes "doc"))
      (flag true) false (some (addr 2) ∷ []) (addr 2) [] (some (codes "k") ∷ []) refl refl refl refl
      (refl, tt) (refl, tt) (heap_of-IsWf search_cells [])
