-- ===== src/Registry/Tests.antt =====
-- Runs of kernel/registry/name_index.c on concrete objects, and its theorems there.
use rendezv_os.Registry.NameIndex.Sound.{Named, search-Named}
use rendezv_os.Registry.NameIndex.Resolve.{Asked, resolve-lookup}
use rendezv_os.Registry.NameIndex.Stale.{resolve-unregister}
use rendezv_os.Registry.NameIndex.Register.{index_of}
use rendezv_os.Registry.NameIndex.Lifecycle.{Outcome}
use rendezv_os.Registry.NameIndex.Reach.{Reached, start, Reached-total, register-Outcome}
use rendezv_os.Registry.NameIndex.Boot.{init-IsIndex}
use rendezv_os.Registry.NameIndex.Total.{IsIndex}
use rendezv_os.Registry.NameIndex.RowSpec.{RowFreed, Called}
use rendezv_os.Base.{
  get_elem?, ◌^◌, ◌-◌, arith, ℕ, zero, suc, ◌+◌, ◌≡◌, refl, true, Option, none, some, List, [], ◌∷◌,
  replicate, ◌==◌, if◌then◌else◌,
}
use rendezv_os.Base.{Result, ok, ◌>>=◌}
use rendezv_os.Kalloc.{Answers}
use rendezv_os.Registry.NameIndex.{
  empty, Row, Bucket, row, NameIndex, Token, Hooks, hash_name, same_name,
}
use rendezv_os.Registry.NameIndex.Table.{
  free_rows, vacancy, place_rows, ht_rehash, grow_row_array, bootstrap, maybe_grow_ht, ht_insert,
}
use rendezv_os.Registry.NameIndex.Search.{find_from, ht_find_bucket, search, lookup, resolve}
use rendezv_os.Registry.NameIndex.Calls.{
  Registered, register_in, register_row, register, unregister, init,
}

-- An object is its address, and its name is one letter more than it. The world counts the references.
abbrev hooks : Hooks ℕ
hooks = record {
  get_name = some (λ value. some ((0x41 + value) ∷ []));
  hold = some (λ value w. (true, w + 1));
  drop = none;
  on_register = some (λ value w. w + 100);
  on_unregister = none;
}

abbrev answers : Answers
answers i n = some (replicate n 0)

abbrev fresh : Result NameIndex
fresh = init hooks answers 32 (record { calls = 0; live = 0 })

abbrev register_up_to : ℕ → Result NameIndex
register_up_to zero = fresh
register_up_to (suc n) =
    register_up_to n >>= λ idx. register hooks answers idx (suc n) 0 >>= λ r. ok (index_of r)

abbrev buckets_of : ℕ → List Bucket → ℕ
buckets_of i [] = 0
buckets_of i (row r ∷ bs) = if r == i then suc (buckets_of i bs) else buckets_of i bs
buckets_of i (b ∷ bs) = buckets_of i bs

-- The third object is found by its name.
search_run :
    (register_up_to 3 >>= λ idx. search (hooks.get_name) idx (some (0x44 ∷ []))) ≡ ok (3, 2)
unfolding init bootstrap grow_row_array ht_rehash place_rows vacancy register register_row
    register_in maybe_grow_ht ht_insert hash_name same_name find_from ht_find_bucket search
search_run = refl

-- The 45th registration makes the table grow. The rehash places the new row, which is in use by
-- then, and the insertion places it again.
abbrev sizes : Result NameIndex → Result (ℕ × ℕ × ℕ × ℕ)
sizes r = r >>= λ idx. ok (idx.ht_cap, idx.live, buckets_of 44 (idx.ht), buckets_of 43 (idx.ht))

twice_run : sizes (register_up_to 45) ≡ ok (128, 45, 2, 1)
unfolding init bootstrap grow_row_array ht_rehash place_rows vacancy register register_row
    register_in maybe_grow_ht ht_insert hash_name
twice_run = refl

-- One object, 3, in a table of one bucket.
abbrev only : Row
only = record { gen = 5; used = 1; storage = 3 }

abbrev small : NameIndex
small = record {
  rows = only ∷ [];
  row_cap = 1;
  free_head = 2 ^ 64 - 1;
  live = 1;
  ht = row 0 ∷ [];
  ht_cap = 1;
  ht_mask = 0;
  ht_tombs = 0;
  name_len_max = 32;
  heap = record { calls = 2; live = 2 };
}

abbrev its_token : Token
its_token = record { row_index = 0; row_gen = 5 }

search-Named_example :
    (r : Row) × (get_elem? (small.rows) 0 ≡ some r) × Named (hooks.get_name) small (0x44 ∷ []) 3 r
unfolding search ht_find_bucket find_from hash_name same_name
search-Named_example =
    search-Named (hooks.get_name) small (0x44 ∷ []) {v = 3} {i = 0} refl
      (λ e. absurd (omega (arith, e)))

resolve-lookup_example :
    (p : ℕ × ℕ) × (resolve hooks small (some its_token) (some (0x44 ∷ [])) 9 ≡ ok p)
    × Asked (hooks.hold) 3 9 p
unfolding lookup search ht_find_bucket find_from hash_name same_name
resolve-lookup_example =
    resolve-lookup hooks small (0x44 ∷ []) (omega arith) {v = 3} {tok = its_token} 7 {w' = 8} 9 refl
      (λ e. absurd (omega (arith, e)))

resolve-unregister_example :
    (p : NameIndex × ℕ) × (unregister hooks answers small 3 0 (some (0x44 ∷ [])) 7 ≡ ok p)
    × IsIndex (p.0)
    × RowFreed small 0 only (p.0)
    × Called (hooks.on_unregister) 3 7 (p.1)
    × ((name' : Option (List ℕ)) (w' : ℕ)
        → resolve hooks (p.0) (some its_token) name' w' ≡ ok (0, w'))
resolve-unregister_example =
    resolve-unregister hooks answers small only its_token (some (0x44 ∷ [])) 7
      (record {
        rows_sized = refl;
        table_sized = refl;
        mask_below = λ p. omega arith;
        table_small = omega arith;
      })
      refl refl refl

-- The allocator grants the rows and has no memory for the table.
abbrev scarce : Answers
scarce i n = if i == 0 then some (replicate n 0) else none

init-IsIndex_example :
    (idx : NameIndex) × (init hooks scarce 32 (record { calls = 0; live = 0 }) ≡ ok idx)
    × IsIndex idx
init-IsIndex_example = init-IsIndex hooks scarce 32 (record { calls = 0; live = 0 })

abbrev first : NameIndex
first = record {
  rows = free_rows 32 0 (2 ^ 64 - 1);
  row_cap = 32;
  free_head = 0;
  live = 0;
  ht = replicate 64 empty;
  ht_cap = 64;
  ht_mask = 63;
  ht_tombs = 0;
  name_len_max = 32;
  heap = record { calls = 2; live = 2 };
}

booted : Reached hooks answers first
unfolding init bootstrap grow_row_array ht_rehash place_rows vacancy
booted = start 32 (record { calls = 0; live = 0 }) refl

Reached-total_example :
    ((result : Registered ℕ) × (register hooks answers first 3 0 ≡ ok result))
    × ((p : NameIndex × ℕ) × (unregister hooks answers first 3 0 (some (0x44 ∷ [])) 0 ≡ ok p))
Reached-total_example = Reached-total hooks answers 3 0 (some (0x44 ∷ [])) 0 booted

-- The object of `small`, and a free row. The table is full.
abbrev vacant : Row
vacant = record { gen = 2; used = 0; storage = 2 ^ 64 - 1 }

abbrev roomy : NameIndex
roomy = record small { rows = only ∷ vacant ∷ []; row_cap = 2; free_head = 1 }

register-Outcome_example :
    (result : Registered ℕ) × (register hooks answers roomy 4 7 ≡ ok result)
    × Outcome hooks answers roomy 4 7 vacant result
register-Outcome_example =
    register-Outcome hooks answers {idx = roomy} 4 0x45 [] 7 vacant
      (record {
        rows_sized = refl;
        table_sized = refl;
        mask_below = λ p. omega arith;
        table_small = omega arith;
      })
      refl refl (omega arith) (omega arith) (λ e. absurd (omega (arith, e))) refl
