-- ===== src/Registry/NameIndex/Boot.antt =====
-- `name_index_init`: the arrays after the first allocations, granted or not.
use rendezv_os.Base.{ℕ, ◌≡◌, refl, Option, none, some, List, [], arith}
use rendezv_os.Base.{ok}
use rendezv_os.Base.Returns.{Gives, Gives-bind, Gives-ok}
use rendezv_os.Kalloc.{Kalloc, Answers, m_alloc}
use rendezv_os.Registry.NameIndex.{
  NameIndex, Hooks, Status, success, failed, free_head_invalid, ht_initial_cap, rows_initial_cap,
}
use rendezv_os.Registry.NameIndex.Table.{grow_into, grow_row_array, bootstrap, ht_rehash, and_then}
use rendezv_os.Registry.NameIndex.Calls.{init}
use rendezv_os.Registry.NameIndex.Total.{IsIndex}
use rendezv_os.Registry.NameIndex.Resize.{Left, ht_rehash-IsIndex}

abbrev blank : ℕ → Kalloc → NameIndex
blank name_len_max heap = record {
  rows = [];
  row_cap = 0;
  free_head = free_head_invalid;
  live = 0;
  ht = [];
  ht_cap = 0;
  ht_mask = 0;
  ht_tombs = 0;
  name_len_max = name_len_max;
  heap = heap;
}

module _ (get_name : Option (ℕ → Option (List ℕ))) (answers : Answers) where
  first_rows :
      (name_len_max : ℕ) (heap : Kalloc) (p : Option (List ℕ) × Kalloc)
      → Gives Left (grow_into get_name answers (blank name_len_max heap) rows_initial_cap p)
  first_rows name_len_max heap (none, h) = record {
    rows_sized = refl;
    table_sized = refl;
    mask_below = λ p. p;
    table_small = omega arith;
  }
  first_rows name_len_max heap (some mem, h) = record {
    rows_sized = refl;
    table_sized = refl;
    mask_below = λ p. p;
    table_small = omega arith;
  }

  bootstrap-IsIndex :
      (name_len_max : ℕ) (heap : Kalloc)
      → Gives Left (bootstrap get_name answers (blank name_len_max heap))
  unfolding bootstrap grow_row_array
  bootstrap-IsIndex name_len_max heap =
      Gives-bind Left Left
        (grow_into get_name answers (blank name_len_max heap) rows_initial_cap
          (m_alloc answers 768 heap))
        _ (first_rows name_len_max heap (m_alloc answers 768 heap)) tabled
    where
      tabled :
          (p : Status × NameIndex)
          → IsIndex (p.1)
          → Gives Left (and_then (ok p) (λ grown. ht_rehash get_name answers grown ht_initial_cap))
      tabled (success, grown) is =
          ht_rehash-IsIndex get_name answers grown ht_initial_cap is (omega arith)
      tabled (failed code, grown) is = is

-- `name_index_init` always returns an index whose arrays have the sizes that it says, also if the
-- allocator refuses the rows or the table.
pub init-IsIndex :
    {W : Type 0} (hooks : Hooks W) (answers : Answers) (name_len_max : ℕ) (heap : Kalloc)
    → (idx : NameIndex) × (init hooks answers name_len_max heap ≡ ok idx) × IsIndex idx
unfolding init
init-IsIndex hooks answers name_len_max heap = Gives-ok IsIndex _ (
    Gives-bind Left IsIndex (bootstrap (hooks.get_name) answers (blank name_len_max heap))
      (λ (p : Status × NameIndex). ok (p.1))
      (bootstrap-IsIndex (hooks.get_name) answers name_len_max heap) (λ p is. is))
