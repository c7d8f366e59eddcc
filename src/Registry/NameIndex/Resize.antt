-- ===== src/Registry/NameIndex/Resize.antt =====
-- The rehash of kernel/registry/name_index.c stays inside the row array and both tables.
use rendezv_os.Base.{
  refl, ℕ, zero, suc, ◌+◌, ◌*◌, ◌-◌, ◌/◌, ◌^◌, ◌≤◌, ◌<◌, ◌≡◌, ◌∙◌, Bool-cases, ltb, leb, ◌==◌, ◌||◌,
  Option, none, some, List, get_elem?, set, length, length-set, replicate, length-replicate, inl,
  inr, arith,
}
use rendezv_os.Base.{ok, access}
use rendezv_os.Base.Returns.{Gives, Gives-bind, Gives-if, Gives-map}
use rendezv_os.Kalloc.{Kalloc, Answers, m_alloc}
use rendezv_os.Registry.NameIndex.{
  u64, Bucket, empty, row, NameIndex, Status, success, failed, ht_initial_cap,
}
use rendezv_os.Registry.NameIndex.Table.{
  in_use, vacancy, place_rows, ht_rehash, rehash_into, maybe_shrink_ht, shrink_to, rehashed,
}
use rendezv_os.Registry.NameIndex.Total.{
  IsIndex, Any, access-Gives, vacancy-Gives, Vacant, same_arrays, half_pos,
}

abbrev Sized : ℕ → Option (List Bucket) → Type 0
Sized cells none = Unit
Sized cells (some table) = length table ≡ cells

-- What a call that can fail leaves.
abbrev pub Left : Status × NameIndex → Type 0
Left p = IsIndex (p.1)

-- A rehash that succeeds gives the number of cells that it was asked for.
abbrev pub Resized : ℕ → Status × NameIndex → Type 0
Resized cells (success, idx) = IsIndex idx × (idx.ht_cap ≡ cells)
Resized cells (failed code, idx) = IsIndex idx

module _ (get_name : Option (ℕ → Option (List ℕ))) (answers : Answers) where
  place_rows-Sized :
      (n i : ℕ) (idx : NameIndex) (cells mask : ℕ) (table : List Bucket)
      → n + i ≤ length (idx.rows)
      → length table ≡ cells
      → mask < cells
      → Gives (Sized cells) (place_rows get_name answers n i idx cells mask table)
  unfolding place_rows
  place_rows-Sized zero i idx cells mask table inside sized lt = sized
  place_rows-Sized (suc n) i idx cells mask table inside sized lt =
      Gives-bind Any (Sized cells) (access (get_elem? (idx.rows) i)) _
        (access-Gives (idx.rows) i (omega arith))
        (λ r got. elim (Bool-cases (in_use r)) [
          | inr e ↦ rw e (place_rows-Sized n (i + 1) idx cells mask table (omega arith) sized lt)
          | inl e ↦ rw e (
              Gives-bind (Vacant table) (Sized cells) (vacancy cells 0 _ mask table) _
                (vacancy-Gives _ mask cells 0 table (λ p. omega arith))
                (λ placed any. place placed (λ b.
                  place_rows-Sized n (i + 1) idx cells mask (set table b (row i)) (omega arith)
                    (length-set table b (row i) ∙ sized) lt)))
        ])
    where
      place :
          (placed : Option ℕ)
          → ((b : ℕ)
              → Gives
                  (Sized cells)
                  (place_rows get_name answers n (i + 1) idx cells mask (set table b (row i))))
          → Gives (Sized cells) (elim placed [
            | none ↦ ok none
            | some b ↦ place_rows get_name answers n (i + 1) idx cells mask (set table b (row i))
          ])
      place none rest = tt
      place (some b) rest = rest b

  rehash_into-Resized :
      (idx : NameIndex) (cells : ℕ) (p : Option (List ℕ) × Kalloc)
      → IsIndex idx
      → 1 ≤ cells
      → cells < 2 ^ 61
      → Gives (Resized cells) (rehash_into get_name answers idx cells p)
  rehash_into-Resized idx cells (none, h) is pos small = same_arrays is
  rehash_into-Resized idx cells (some mem, h) is pos small =
      Gives-bind (Sized cells) (Resized cells)
        (place_rows get_name answers (idx.row_cap) 0 idx cells (u64 (cells + (2 ^ 64 - 1)))
          (replicate cells empty))
        _
        (place_rows-Sized (idx.row_cap) 0 idx cells _ (replicate cells empty)
          (omega (arith, is.rows_sized)) (length-replicate cells empty) (omega arith))
        left
    where
      left :
          (placed : Option (List Bucket))
          → Sized cells placed
          → Resized cells (rehashed get_name answers idx cells h placed)
      left none sized = same_arrays is
      left (some table) sized = (
        record {
          rows_sized = is.rows_sized;
          table_sized = sized;
          mask_below = λ p. omega arith;
          table_small = small;
        },
        refl,
      )

  pub ht_rehash-Resized :
      (idx : NameIndex) (cells : ℕ)
      → IsIndex idx
      → 1 ≤ cells
      → Gives (Resized cells) (ht_rehash get_name answers idx cells)
  unfolding ht_rehash
  ht_rehash-Resized idx cells is pos =
      Gives-if (Resized cells) (ltb ((2 ^ 64 - 1) / 8) cells) _ _ (λ e. is)
        (λ e.
          rehash_into-Resized idx cells (m_alloc answers (cells * 8) (idx.heap)) is pos
            (ground (arith, e)))

  Resized→Left : (cells : ℕ) (p : Status × NameIndex) → Resized cells p → Left p
  Resized→Left cells (success, idx) (is, sized) = is
  Resized→Left cells (failed code, idx) is = is

  pub ht_rehash-IsIndex :
      (idx : NameIndex) (cells : ℕ)
      → IsIndex idx
      → 1 ≤ cells
      → Gives Left (ht_rehash get_name answers idx cells)
  ht_rehash-IsIndex idx cells is pos =
      Gives-map (Resized cells) Left (ht_rehash get_name answers idx cells) (Resized→Left cells)
        (ht_rehash-Resized idx cells is pos)

  shrink_to-IsIndex :
      (idx : NameIndex) (target : ℕ)
      → IsIndex idx
      → 1 ≤ target
      → Gives IsIndex (shrink_to get_name answers idx target)
  shrink_to-IsIndex idx target is pos =
      Gives-if IsIndex
        (ltb (u64 (idx.ht_tombs * 100)) (u64 (idx.ht_cap * 10)) || target == idx.ht_cap) (ok idx) _
        (λ e. is)
        (λ e.
          Gives-bind Left IsIndex (ht_rehash get_name answers idx target)
            (λ (p : Status × NameIndex). ok (p.1)) (ht_rehash-IsIndex idx target is pos)
            (λ p left. left))

  pub maybe_shrink_ht-IsIndex :
      (idx : NameIndex) → IsIndex idx → Gives IsIndex (maybe_shrink_ht get_name answers idx)
  unfolding maybe_shrink_ht
  maybe_shrink_ht-IsIndex idx is =
      Gives-if IsIndex (leb (idx.ht_cap) ht_initial_cap || idx.ht_tombs == 0) _ _ (λ e. is)
        (λ e.
          Gives-if IsIndex (idx.live == 0) _ _
            (λ e. shrink_to-IsIndex idx ht_initial_cap is (omega arith))
            (λ e.
              Gives-if IsIndex (ltb (u64 (idx.ht_cap * 25)) (u64 (idx.live * 100))) _ _ (λ e. is)
                (λ e. shrink_to-IsIndex idx _ is (half_pos (idx.ht_cap)))))
