-- ===== src/Registry/NameIndex/Insert.antt =====
-- `name_index_ht_insert` and `name_index_register` always return: each call of the insertion doubles
-- the table, which an allocation cannot do more than 61 times.
use native.Mathlib.Nat.{pow-suc, mul_assoc, mul_comm}
use native.Mathlib.Decide.{dec_le}
use rendezv_os.Base.{
  ℕ, zero, suc, ◌*◌, ◌^◌, ◌≤◌, ◌<◌, ◌≡◌, sym, ap, ◌∙◌, ltb, leb, ◌==◌, ◌||◌, Option, none, some,
  List, get_elem?, length-set, arith,
}
use rendezv_os.Base.{Result, ok, ◌>>=◌, access}
use rendezv_os.Base.Returns.{Gives, Gives-bind, Gives-if, Gives-map}
use rendezv_os.Kalloc.{Answers}
use rendezv_os.Registry.NameIndex.{
  u64, Bucket, row, empty, tomb, NameIndex, Status, success, failed, ht_initial_cap, hash_name,
}
use rendezv_os.Registry.NameIndex.Table.{
  vacancy, ht_rehash, maybe_grow_ht, and_then, occupy, ht_insert,
}
use rendezv_os.Registry.NameIndex.Calls.{insert_calls}
use rendezv_os.Registry.NameIndex.Total.{IsIndex, Any, Vacant, access-Gives, vacancy-Gives}
use rendezv_os.Registry.NameIndex.Resize.{Left, Resized, ht_rehash-Resized}

module _ (get_name : Option (ℕ → Option (List ℕ))) (answers : Answers) where
  -- An index with a table of some cells, at least `n` of them.
  abbrev AtLeast : ℕ → Status × NameIndex → Type 0
  AtLeast n (success, idx) = IsIndex idx × (1 ≤ idx.ht_cap) × (n ≤ idx.ht_cap)
  AtLeast n (failed code, idx) = IsIndex idx

  resized :
      (n cells : ℕ) (p : Status × NameIndex) → 1 ≤ cells → n ≤ cells → Resized cells p → AtLeast n p
  resized n cells (success, idx) pos le (is, sized) =
      (is, omega (arith, sized), omega (arith, sized))
  resized n cells (failed code, idx) pos le is = is

  rehash-AtLeast :
      (idx : NameIndex) (n cells : ℕ)
      → IsIndex idx
      → 1 ≤ cells
      → n ≤ cells
      → Gives (AtLeast n) (ht_rehash get_name answers idx cells)
  rehash-AtLeast idx n cells is pos le =
      Gives-map (Resized cells) (AtLeast n) (ht_rehash get_name answers idx cells)
        (λ p. resized n cells p pos le) (ht_rehash-Resized get_name answers idx cells is pos)

  maybe_grow_ht-AtLeast :
      (idx : NameIndex)
      → IsIndex idx
      → Gives (AtLeast (idx.ht_cap)) (maybe_grow_ht get_name answers idx)
  unfolding maybe_grow_ht
  maybe_grow_ht-AtLeast idx is =
      Gives-if (AtLeast (idx.ht_cap)) (idx.ht_cap == 0) _ _
        (λ e. rehash-AtLeast idx (idx.ht_cap) ht_initial_cap is (omega arith) (ground (arith, e)))
        (λ e.
          let pos : 1 ≤ idx.ht_cap = ground (arith, e) in
          Gives-if (AtLeast (idx.ht_cap))
            (idx.live == 0 || leb (u64 (idx.live * 100)) (u64 (idx.ht_cap * 70))) _ _
            (λ e'. (is, pos, omega arith))
            (λ e'.
              Gives-if (AtLeast (idx.ht_cap)) (ltb (u64 (idx.ht_cap * 2)) (idx.ht_cap)) _ _
                (λ e''. is)
                (λ e''.
                  rehash-AtLeast idx (idx.ht_cap) (u64 (idx.ht_cap * 2)) is
                    (omega (arith, is.table_small)) (omega (arith, is.table_small)))))

  occupy-IsIndex :
      (idx : NameIndex) (i b : ℕ) (cur : Bucket)
      → IsIndex idx
      → IsIndex (occupy get_name answers idx i b cur)
  occupy-IsIndex idx i b tomb is = record {
    rows_sized = is.rows_sized;
    table_sized = length-set (idx.ht) b (row i) ∙ is.table_sized;
    mask_below = is.mask_below;
    table_small = is.table_small;
  }
  occupy-IsIndex idx i b empty is = record {
    rows_sized = is.rows_sized;
    table_sized = length-set (idx.ht) b (row i) ∙ is.table_sized;
    mask_below = is.mask_below;
    table_small = is.table_small;
  }
  occupy-IsIndex idx i b (row r) is = record {
    rows_sized = is.rows_sized;
    table_sized = length-set (idx.ht) b (row i) ∙ is.table_sized;
    mask_below = is.mask_below;
    table_small = is.table_small;
  }

  and_then-Gives :
      (n : ℕ) (m : Result (Status × NameIndex)) (f : NameIndex → Result (Status × NameIndex))
      → Gives (AtLeast n) m
      → ((idx : NameIndex) → IsIndex idx → 1 ≤ idx.ht_cap → n ≤ idx.ht_cap → Gives Left (f idx))
      → Gives Left (and_then m f)
  and_then-Gives n m f given next = Gives-bind (AtLeast n) Left m _ given go
    where
      go : (p : Status × NameIndex) → AtLeast n p → Gives Left (and_then (ok p) f)
      go (success, idx) (is, pos, le) = next idx is pos le
      go (failed code, idx) is = is

  doubled : (n fuel : ℕ) → n * 2 ^ suc fuel ≡ n * 2 * 2 ^ fuel
  doubled n fuel =
      ap (λ t. n * t) (pow-suc 2 fuel ∙ mul_comm (2 ^ fuel) 2) ∙ sym (mul_assoc n 2 (2 ^ fuel))

  bigger : {a c : ℕ} (n : ℕ) → (1 < n → n ≤ a) → 1 ≤ c → a ≤ c → n ≤ c
  bigger n big pos more = elim (dec_le n 1) [
    | yes small ↦ omega arith
    | no large ↦ omega (arith, big (omega arith))
  ]

  -- `n` is a bound from below on the table's size that doubles with each call.
  ht_insert-IsIndex :
      (fuel n : ℕ) (idx : NameIndex) (i : ℕ) (name : List ℕ)
      → IsIndex idx
      → (1 < n → n ≤ idx.ht_cap)
      → 2 ^ 61 ≤ n * 2 ^ fuel
      → Gives Left (ht_insert get_name answers fuel idx i name)
  unfolding ht_insert
  ht_insert-IsIndex zero n idx i name is big enough =
      absurd (omega (arith, is.table_small, big (omega arith)))
  ht_insert-IsIndex (suc fuel) n idx i name is big enough =
      and_then-Gives (idx.ht_cap) (maybe_grow_ht get_name answers idx) _
        (maybe_grow_ht-AtLeast idx is)
        (λ mid is' pos more.
          Gives-bind (Vacant (mid.ht)) Left
            (vacancy (mid.ht_cap) 0 (hash_name (mid.name_len_max) (some name)) (mid.ht_mask)
              (mid.ht))
            _
            (vacancy-Gives _ (mid.ht_mask) (mid.ht_cap) 0 (mid.ht)
              (λ p. omega (arith, is'.mask_below p, is'.table_sized)))
            (λ found inside.
              place mid is' found inside
                (rehash-AtLeast mid (2 * n) (u64 (mid.ht_cap * 2)) is'
                  (omega (arith, is'.table_small))
                  (omega (arith, bigger n big pos more, is'.table_small)))
                (λ next is'' pos' more'.
                  ht_insert-IsIndex fuel (n * 2) next i name is'' (λ p. omega arith)
                    (omega (arith, doubled n fuel)))))
    where
      place :
          (mid : NameIndex)
          → IsIndex mid
          → (found : Option ℕ) → Vacant (mid.ht) found
          → Gives (AtLeast (2 * n)) (ht_rehash get_name answers mid (u64 (mid.ht_cap * 2)))
          → ((next : NameIndex)
              → IsIndex next
              → 1 ≤ next.ht_cap
              → 2 * n ≤ next.ht_cap
              → Gives Left (ht_insert get_name answers fuel next i name))
          → Gives Left (elim found [
            | some b ↦ access (get_elem? (mid.ht) b) >>= λ cur.
                ok (success, occupy get_name answers mid i b cur)
            | none ↦
                and_then
                  (ht_rehash get_name answers mid (u64 (mid.ht_cap * 2)))
                  (λ next. ht_insert get_name answers fuel next i name)
          ])
      place mid is' (some b) inside grown again =
          Gives-bind Any Left (access (get_elem? (mid.ht) b)) _ (access-Gives (mid.ht) b inside)
            (λ cur any. occupy-IsIndex mid i b cur is')
      place mid is' none inside grown again =
          and_then-Gives (2 * n) (ht_rehash get_name answers mid (u64 (mid.ht_cap * 2))) _ grown
            again

-- With fuel 61 no call is missing.
pub ht_insert-total :
    (get_name : Option (ℕ → Option (List ℕ))) (answers : Answers) (idx : NameIndex) (i : ℕ)
    (name : List ℕ)
    → IsIndex idx
    → Gives Left (ht_insert get_name answers insert_calls idx i name)
ht_insert-total get_name answers idx i name is =
    ht_insert-IsIndex get_name answers insert_calls 1 idx i name is (λ p. omega arith) (omega arith)
