-- ===== src/Tests.antt =====
-- Runs of the model at concrete inputs: a small stand-in for the crates that the bindings call, and memories that are
-- written out cell by cell.
mod Errors
mod Exprs
mod Queries
mod Lists
mod Results
mod Databases
mod Sessions
mod Tables
mod Searches
use lancedb_c.Prelude.{
  pos, replicate, ◌+◌, ℕ, zero, suc, ◌≤◌, ◌≡◌, refl, Bool, true, false, Option, none, some, List,
  [], ◌∷◌, ◌++◌, length, get_elem?, arith, ℤ,
}
use lancedb_c.Text.{Bytes, codes}
use lancedb_c.External.{ColumnarValue, External, Error, Result, ok, err, Operator, Udf}
use lancedb_c.Memory.{Cell, Heap}
use lancedb_c.Memory.Laws.{IsWf}

pub data Term : Type 0 where
  name : Bytes → Term
  word : Bytes → Term
  integer : ℤ → Term
  flag : Bool → Term
  binary : Term → Operator → Term → Term
  negation null_test not_null_test utf8 : Term → Term
  and or : Term → Term → Term
  nil : Term
  cons : Term → Term → Term
  in_list : Term → Term → Bool → Term
  application : Udf → Term → Term

abbrev pub terms : List Term → Term
terms [] = nil
terms (t ∷ ts) = cons t (terms ts)

pub data Step : Type 0 where
  limit offset nprobes refine_factor ef : ℕ → Step
  columns : List Bytes → Step
  filter : Term → Step
  sql : Bytes → Step
  column : Bytes → Step
  metric : Step

-- Expressions are syntax trees, and queries the list of the calls that were made on them.
abbrev pub sample : External
sample = record {
  World = ℕ;
  Expr = Term;
  F64 = Unit {0};
  col = name;
  lit_string = word;
  lit_i64 = integer;
  lit_f64 = λ x. flag false;
  lit_bool = flag;
  binary_expr = binary;
  not_expr = negation;
  is_null_expr = null_test;
  is_not_null_expr = not_null_test;
  and_expr = and;
  or_expr = or;
  in_list_expr = λ t ts negated. in_list t (terms ts) negated;
  scalar_function = λ udf ts. application udf (terms ts);
  cast_utf8 = utf8;
  Batch = ℕ;
  Array = ℕ;
  Schema = ℕ;
  batch_schema = λ b. b;
  export_schema = λ s. ok s;
  export_batch = λ b. b;
  array_length = pos;
  ArrowSchema = Unit {0};
  import_schema = λ s. ok tt;
  num_rows = λ b. b;
  DfSchema = Unit {0};
  df_schema = λ s. ok tt;
  PhysicalExpr = Unit {0};
  create_physical_expr = λ e s. ok tt;
  Values = ℕ;
  Scalar = Bool;
  evaluate = λ e b. ok (ColumnarValue.array b);
  to_array_of_size = λ b n. ok n;
  is_boolean = λ v. true;
  data_type = λ v. codes "Boolean";
  as_boolean = λ v. replicate v (some true);
  Table = ℕ;
  Connection = ℕ;
  F32 = ℕ;
  Select = List Bytes;
  select_columns = λ names. names;
  Query = List Step;
  query = λ t. [];
  query_limit = λ q n. limit n ∷ q;
  query_offset = λ q n. offset n ∷ q;
  query_select = λ q names. columns names ∷ q;
  query_df_filter = λ q e. filter e ∷ q;
  query_only_if = λ q s. sql s ∷ q;
  VectorQuery = List Step;
  nearest_to = λ q v. ok q;
  vector_column = λ q s. column s ∷ q;
  vector_limit = λ q n. limit n ∷ q;
  vector_offset = λ q n. offset n ∷ q;
  vector_select = λ q names. columns names ∷ q;
  vector_df_filter = λ q e. filter e ∷ q;
  vector_only_if = λ q s. sql s ∷ q;
  vector_distance_type = λ q d. metric ∷ q;
  vector_nprobes = λ q n. nprobes n ∷ q;
  vector_refine_factor = λ q n. refine_factor n ∷ q;
  vector_ef = λ q n. ef n ∷ q;
  Stream = List Step;
  execute_query = λ w q. ok q;
  execute_vector_query = λ w q. ok q;
  collect = λ s. ok (7 ∷ 8 ∷ []);
  TableNamesBuilder = ℕ;
  table_names = λ c. 3;
  table_names_limit = λ b n. n;
  table_names_start_after = λ b s. b;
  execute_table_names = λ w b. ok [];
  list_namespaces = λ w c parent. ok [];
  list_indices = λ w t. ok [];
  drop_table = λ w c name ns. (ok tt, w + 1);
  rename_table = λ w c old new from to. (ok tt, w + 1);
  drop_all_tables = λ w c ns. (ok tt, 0);
  create_namespace = λ w c name. (err Error.timeout, w);
  drop_namespace = λ w c name. (ok tt, w + 1);
  delete = λ w t predicate. (ok tt, w + 1);
  df_delete = λ w t e. (ok tt, w + 1);
  drop_index = λ w t name. (err Error.index_not_found, w);
  OptimizeAction = Unit {0};
  optimize_all = tt;
  optimize_compact = tt;
  optimize_prune = tt;
  optimize_index = tt;
  optimize = λ w t action. (ok tt, w + 1);
  add = λ w t schema batches. (ok tt, w + length batches);
  MergeBuilder = List Step;
  merge_insert = λ t names. columns names ∷ [];
  when_matched_update_all = λ b condition. metric ∷ b;
  when_matched_update_all_expr = λ b e. filter e ∷ b;
  when_not_matched_insert_all = λ b. limit 0 ∷ b;
  execute_merge = λ w b schema batches. (ok tt, w + length b);
  validate_table_name = λ s. elim s [ [] ↦ err Error.invalid_table_name | c ∷ cs ↦ ok tt ];
  create_table = λ w c name schema batches. (ok c, w + 1);
  open_table = λ w c name. ok c;
  struct_batch = λ b s. ok (some b);
  table_schema = λ w t. ok t;
  version = λ w t. ok w;
  count_rows = λ w t. err Error.timeout;
  Registry = List Bytes;
  default_registry = [];
  Provider = ℕ;
  insert_provider = λ r s p. s ∷ r;
  Session = ℕ × ℕ × List Bytes;
  session_of = λ index metadata r. (index, metadata, r);
  ConnectBuilder = List Bytes;
  connect = λ s. s ∷ [];
  storage_option = λ b key value. key ∷ value ∷ b;
  with_session = λ b s. b;
  execute_connect = λ w b. (ok 5, w + 1);
  uri = λ c. codes "memory://";
  Index = List Step;
  auto_index = [];
  btree_index = [];
  bitmap_index = [];
  label_list_index = [];
  Ivf = λ kind. List Step;
  ivf_default = λ kind. [];
  ivf_num_partitions = λ kind b n. limit n ∷ b;
  ivf_num_sub_vectors = λ kind b n. offset n ∷ b;
  ivf_max_iterations = λ kind b n. ef n ∷ b;
  ivf_sample_rate = λ kind b n. nprobes n ∷ b;
  ivf_distance_type = λ kind b d. metric ∷ b;
  ivf_index = λ kind b. b;
  f32_positive = λ x. true;
  f32_as_u32 = λ x. x;
  f32_zero = 0;
  Fts = List Step;
  fts_default = [];
  fts_base_tokenizer = λ b s. sql s ∷ b;
  fts_language = λ b s. none;
  fts_max_token_length = λ b n. b;
  fts_lower_case = λ b flag. b;
  fts_stem = λ b flag. b;
  fts_remove_stop_words = λ b flag. b;
  fts_ascii_folding = λ b flag. b;
  fts_index = λ b. b;
  IndexBuilder = List Step;
  create_index = λ t names index. columns names ∷ index;
  index_replace = λ b flag. metric ∷ b;
  execute_index = λ w b. (ok tt, w + length b);
  display = λ e. codes "failed";
}

-- the memory with these cells at the addresses from zero on
abbrev pub heap_of : List (Cell sample) → List Bool → Heap sample
heap_of cells mallocs = record { mem = get_elem? cells; next = length cells; mallocs = mallocs }

get_elem?-beyond :
    (cells : List (Cell sample)) (a : ℕ) → length cells ≤ a → get_elem? cells a ≡ none
get_elem?-beyond [] a le = refl
get_elem?-beyond (c ∷ cells) zero le = absurd (omega (arith))
get_elem?-beyond (c ∷ cells) (suc a) le = get_elem?-beyond cells a (omega (arith))

pub heap_of-IsWf : (cells : List (Cell sample)) (mallocs : List Bool) → IsWf (heap_of cells mallocs)
heap_of-IsWf cells mallocs = record { unused = get_elem?-beyond cells }
