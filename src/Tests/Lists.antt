-- ===== src/Tests/Lists.antt =====
-- Runs of the listing functions of src/connection.rs and src/index.rs.
use lancedb_c.Prelude.{
  ℕ, zero, suc, ◌==◌, ◌||◌, ◌⊎◌, ◌≡◌, refl, true, false, none, some, List, [], ◌∷◌, inl, inr,
}
use lancedb_c.Text.{codes, has_nul, is_utf8}
use lancedb_c.External.{Result}
use lancedb_c.Memory.{null, addr, Cell, Heap, pointer_slot, count_slot, pointers, text, connection}
use lancedb_c.Memory.Returns.{Returns}
use lancedb_c.Error.{success, unknown}
use lancedb_c.Error.Messages.{Reported}
use lancedb_c.StringList.{export_names, lancedb_free_table_names}
use lancedb_c.StringList.Client.{
  Exported, OnlyCount, export_names-Exported, export_names-unknown,
  lancedb_free_table_names-Exported,
}
use lancedb_c.StringList.Listing.{listed}
use lancedb_c.TableNames.Page.{page, Restored, page-listed}
use lancedb_c.Tests.{sample, heap_of, heap_of-IsWf}

abbrev slots : List (Cell sample)
slots = pointer_slot null ∷ count_slot 0 ∷ pointer_slot null ∷ []

export_names-Exported_example :
    Returns
      (λ code g. (code ≡ success) × Exported (heap_of slots []) 0 1 (codes "a" ∷ codes "b" ∷ []) g)
      (export_names (codes "a" ∷ codes "b" ∷ []) (addr 0) (addr 1) null (heap_of slots []))
unfolding has_nul
export_names-Exported_example =
    export_names-Exported (heap_of slots []) 0 1 0 null null (codes "a") (codes "b" ∷ []) refl refl
      (heap_of-IsWf slots []) refl refl

-- the second name has a NUL byte
export_names-unknown_example :
    Returns
      (λ code g.
        (code ≡ unknown)
        × ((k : Heap sample) × OnlyCount (heap_of slots []) 1 2 k
            × Reported (codes "Unknown error") (addr 2) k g))
      (export_names (codes "a" ∷ (98 ∷ 0 ∷ []) ∷ []) (addr 0) (addr 1) (addr 2) (heap_of slots []))
unfolding has_nul
export_names-unknown_example =
    export_names-unknown (heap_of slots []) 0 1 0 (addr 2) (codes "a") ((98 ∷ 0 ∷ []) ∷ []) refl
      (null, refl) (heap_of-IsWf slots []) refl

abbrev exported_cells : List (Cell sample)
exported_cells =
    pointer_slot (addr 2) ∷ count_slot 1 ∷ pointers (some (addr 3) ∷ []) ∷ text (codes "a") ∷ []

abbrev two_slots : List (Cell sample)
two_slots = pointer_slot null ∷ count_slot 0 ∷ []

fresh_cell :
    (b : ℕ) → ((b == 2) ≡ true) ⊎ (((b == 3) || false) ≡ true) → (heap_of two_slots []).mem b ≡ none
fresh_cell zero one = absurd (elim one [ inl e ↦ cc | inr e ↦ cc ])
fresh_cell (suc zero) one = absurd (elim one [ inl e ↦ cc | inr e ↦ cc ])
fresh_cell (suc (suc b)) one = refl

same_cell :
    (b : ℕ)
    → (b == 2) ≡ false
    → ((b == 3) || false) ≡ false
    → (b == 0) ≡ false
    → (b == 1) ≡ false
    → (heap_of exported_cells []).mem b ≡ (heap_of two_slots []).mem b
same_cell zero l out n c = absurd (cc)
same_cell (suc zero) l out n c = absurd (cc)
same_cell (suc (suc zero)) l out n c = absurd (cc)
same_cell (suc (suc (suc zero))) l out n c = absurd (cc)
same_cell (suc (suc (suc (suc b)))) l out n c = refl

abbrev exported : Exported (heap_of two_slots []) 0 1 (codes "a" ∷ []) (heap_of exported_cells [])
exported = record {
  base = 2;
  strings = addr 3 ∷ [];
  out = refl;
  count = refl;
  array = refl;
  counted = refl;
  apart = refl;
  texts = (refl, refl, tt);
  fresh = fresh_cell;
  same = λ b b_n b_c b_l b_out. same_cell b b_l b_out b_n b_c;
}

lancedb_free_table_names-Exported_example :
    Returns
      (λ _ k.
        (b : ℕ) → (b == 0) ≡ false → (b == 1) ≡ false → k.mem b ≡ (heap_of two_slots []).mem b)
      (lancedb_free_table_names (addr 2) 1 (heap_of exported_cells []))
lancedb_free_table_names-Exported_example =
    lancedb_free_table_names-Exported (heap_of two_slots []) (heap_of exported_cells []) 0 1
      (codes "a" ∷ []) exported

abbrev page_cells : List (Cell sample)
page_cells = connection 5 none ∷ text (codes "t") ∷ pointer_slot null ∷ count_slot 0 ∷ []

page-listed_example :
    (k : Heap sample) × Restored (heap_of page_cells []) k
    × (page 6 (addr 0) 10 (addr 1) (addr 2) (addr 3) null (heap_of page_cells [])
        ≡ listed (Result.ok []) (addr 2) (addr 3) null k)
unfolding is_utf8
page-listed_example =
    page-listed 6 (heap_of page_cells []) 0 1 2 3 10 5 (codes "t") null refl refl refl
      (heap_of-IsWf page_cells [])
