-- ===== src/Registry/NameIndex/Keep.antt =====
-- The hash table's functions of kernel/registry/name_index.c change the table only: the rows, the
-- free list and the count of live rows stay.
use rendezv_os.Base.{
  ℕ, zero, suc, ◌+◌, ◌*◌, ◌/◌, ◌-◌, ◌^◌, ◌≡◌, refl, ◌∙◌, Bool, Bool-cases, set, true, false, ◌||◌,
  leb, ltb, ◌==◌, Option, none, some, List, if◌then◌else◌, get_elem?, inl, inr,
}
use rendezv_os.Base.{Result, ok, err, fault, ◌>>=◌, access}
use rendezv_os.Base.Returns.{Returns, Returns-bind, Returns-ok, Returns-map}
use rendezv_os.Kalloc.{Kalloc, Answers, m_alloc}
use rendezv_os.Registry.NameIndex.{
  u64, Bucket, empty, tomb, row, NameIndex, Status, success, failed, ht_initial_cap, hash_name,
}
use rendezv_os.Registry.NameIndex.Table.{
  place_rows, ht_rehash, rehash_into, maybe_grow_ht, maybe_shrink_ht, shrink_to, ht_insert, holder,
  ht_remove, and_then, vacancy, occupy, rehashed,
}

pub record SameRows (a b : NameIndex) : Type 0 where
  pub same_rows : b.rows ≡ a.rows
  pub same_cap : b.row_cap ≡ a.row_cap
  pub same_head : b.free_head ≡ a.free_head
  pub same_live : b.live ≡ a.live
  pub same_len : b.name_len_max ≡ a.name_len_max

-- Any table beside the same rows.
pub other_table :
    (a : NameIndex) (table : List Bucket) (cells mask tombs : ℕ) (h : Kalloc)
    → SameRows a
        (record a { ht = table; ht_cap = cells; ht_mask = mask; ht_tombs = tombs; heap = h })
other_table a table cells mask tombs h = record {
  same_rows = refl;
  same_cap = refl;
  same_head = refl;
  same_live = refl;
  same_len = refl;
}

pub SameRows-refl : (a : NameIndex) → SameRows a a
SameRows-refl a = other_table a (a.ht) (a.ht_cap) (a.ht_mask) (a.ht_tombs) (a.heap)

pub SameRows-trans : {a b c : NameIndex} → SameRows a b → SameRows b c → SameRows a c
SameRows-trans p q = record {
  same_rows = q.same_rows ∙ p.same_rows;
  same_cap = q.same_cap ∙ p.same_cap;
  same_head = q.same_head ∙ p.same_head;
  same_live = q.same_live ∙ p.same_live;
  same_len = q.same_len ∙ p.same_len;
}

abbrev pub Kept : NameIndex → Status × NameIndex → Type 0
Kept idx p = SameRows idx (p.1)

and_then-Kept :
    {idx : NameIndex} (m : Result (Status × NameIndex))
    (f : NameIndex → Result (Status × NameIndex))
    → Returns (Kept idx) m
    → ((mid : NameIndex) → SameRows idx mid → Returns (Kept idx) (f mid))
    → Returns (Kept idx) (and_then m f)
and_then-Kept (ok (success, mid)) f kept next = next mid kept
and_then-Kept (ok (failed code, mid)) f kept next = kept
and_then-Kept (err code) f kept next = tt
and_then-Kept fault f kept next = tt

module _ (get_name : Option (ℕ → Option (List ℕ))) (answers : Answers) where
  rehashed-Kept :
      (idx : NameIndex) (cells : ℕ) (h : Kalloc) (placed : Option (List Bucket))
      → Kept idx (rehashed get_name answers idx cells h placed)
  rehashed-Kept idx cells h none =
      other_table idx (idx.ht) (idx.ht_cap) (idx.ht_mask) (idx.ht_tombs) _
  rehashed-Kept idx cells h (some table) = other_table idx table cells _ 0 _

  rehash_into-Kept :
      (idx : NameIndex) (cells : ℕ) (p : Option (List ℕ) × Kalloc)
      → Returns (Kept idx) (rehash_into get_name answers idx cells p)
  rehash_into-Kept idx cells (none, h) =
      other_table idx (idx.ht) (idx.ht_cap) (idx.ht_mask) (idx.ht_tombs) h
  rehash_into-Kept idx cells (some mem, h) =
      Returns-bind (Kept idx) (place_rows get_name answers (idx.row_cap) 0 idx cells _ _) _
        (λ placed run. rehashed-Kept idx cells h placed)

  pub ht_rehash-Kept :
      (idx : NameIndex) (cells : ℕ) → Returns (Kept idx) (ht_rehash get_name answers idx cells)
  unfolding ht_rehash
  ht_rehash-Kept idx cells = elim (Bool-cases (ltb ((2 ^ 64 - 1) / 8) cells)) [
    | inl e ↦ rw e (SameRows-refl idx)
    | inr e ↦ rw e (rehash_into-Kept idx cells (m_alloc answers (cells * 8) (idx.heap)))
  ]

  -- A test whose two branches keep the rows.
  branch :
      {A : Type 0} (P : A → Type 0) (t : Bool) (a b : Result A)
      → Returns P a
      → Returns P b
      → Returns P (if t then a else b)
  branch P true a b p q = p
  branch P false a b p q = q

  maybe_grow_ht-Kept : (idx : NameIndex) → Returns (Kept idx) (maybe_grow_ht get_name answers idx)
  unfolding maybe_grow_ht
  maybe_grow_ht-Kept idx =
      branch (Kept idx) (idx.ht_cap == 0) _ _ (ht_rehash-Kept idx ht_initial_cap) (
        branch (Kept idx) (idx.live == 0 || leb (u64 (idx.live * 100)) (u64 (idx.ht_cap * 70))) _ _
          (SameRows-refl idx)
          (branch (Kept idx) (ltb (u64 (idx.ht_cap * 2)) (idx.ht_cap)) _ _ (SameRows-refl idx)
            (ht_rehash-Kept idx (u64 (idx.ht_cap * 2)))))

  after_rehash :
      (idx : NameIndex) (target : ℕ)
      → Returns
          (SameRows idx)
          (ht_rehash get_name answers idx target >>= λ (p : Status × NameIndex). ok (p.1))
  after_rehash idx target =
      Returns-bind (SameRows idx) (ht_rehash get_name answers idx target) _
        (λ p run. Returns-ok (Kept idx) (ht_rehash-Kept idx target) run)

  shrink_to-SameRows :
      (idx : NameIndex) (target : ℕ)
      → Returns (SameRows idx) (shrink_to get_name answers idx target)
  shrink_to-SameRows idx target =
      branch (SameRows idx)
        (ltb (u64 (idx.ht_tombs * 100)) (u64 (idx.ht_cap * 10)) || target == idx.ht_cap) (ok idx) _
        (SameRows-refl idx) (after_rehash idx target)

  pub maybe_shrink_ht-SameRows :
      (idx : NameIndex) → Returns (SameRows idx) (maybe_shrink_ht get_name answers idx)
  unfolding maybe_shrink_ht
  maybe_shrink_ht-SameRows idx =
      branch (SameRows idx) (leb (idx.ht_cap) ht_initial_cap || idx.ht_tombs == 0) (ok idx) _
        (SameRows-refl idx)
        (branch (SameRows idx) (idx.live == 0) _ _ (shrink_to-SameRows idx ht_initial_cap) (
          branch (SameRows idx) (ltb (u64 (idx.ht_cap * 25)) (u64 (idx.live * 100))) (ok idx) _
            (SameRows-refl idx) (shrink_to-SameRows idx _)))

  occupy-Kept :
      (idx : NameIndex) (row_idx b : ℕ) (cur : Bucket)
      → SameRows idx (occupy get_name answers idx row_idx b cur)
  occupy-Kept idx row_idx b tomb = other_table idx _ (idx.ht_cap) (idx.ht_mask) _ (idx.heap)
  occupy-Kept idx row_idx b empty =
      other_table idx _ (idx.ht_cap) (idx.ht_mask) (idx.ht_tombs) (idx.heap)
  occupy-Kept idx row_idx b (row r) =
      other_table idx _ (idx.ht_cap) (idx.ht_mask) (idx.ht_tombs) (idx.heap)

  pub ht_insert-Kept :
      (fuel : ℕ) (idx : NameIndex) (row_idx : ℕ) (name : List ℕ)
      → Returns (Kept idx) (ht_insert get_name answers fuel idx row_idx name)
  unfolding ht_insert
  ht_insert-Kept zero idx row_idx name = tt
  ht_insert-Kept (suc fuel) idx row_idx name =
      and_then-Kept (maybe_grow_ht get_name answers idx) _ (maybe_grow_ht-Kept idx) (λ mid same.
        Returns-bind (Kept idx) (vacancy (mid.ht_cap) 0 _ (mid.ht_mask) (mid.ht)) _
          (λ found run. place mid same (λ next. ht_insert-Kept fuel next row_idx name) found))
    where
      place :
          (mid : NameIndex)
          → SameRows idx mid
          → ((next : NameIndex)
              → Returns (Kept next) (ht_insert get_name answers fuel next row_idx name))
          → (found : Option ℕ)
          → Returns (Kept idx) (elim found [
            | some b ↦ access (get_elem? (mid.ht) b) >>= λ cur.
                ok (success, occupy get_name answers mid row_idx b cur)
            | none ↦
                and_then
                  (ht_rehash get_name answers mid (u64 (mid.ht_cap * 2)))
                  (λ next. ht_insert get_name answers fuel next row_idx name)
          ])
      place mid same again (some b) =
          Returns-bind (Kept idx) (access (get_elem? (mid.ht) b)) _
            (λ cur run. SameRows-trans same (occupy-Kept mid row_idx b cur))
      place mid same again none =
          and_then-Kept (ht_rehash get_name answers mid (u64 (mid.ht_cap * 2))) _
            (Returns-map (Kept mid) (Kept idx) _ (λ p kept. SameRows-trans same kept)
              (ht_rehash-Kept mid (u64 (mid.ht_cap * 2))))
            (λ next same'.
              Returns-map (Kept next) (Kept idx) _ (λ p kept. SameRows-trans same' kept)
                (again next))

  pub ht_remove-SameRows :
      (idx : NameIndex) (row_idx : ℕ) (name : List ℕ)
      → Returns (SameRows idx) (ht_remove idx row_idx name)
  unfolding ht_remove
  ht_remove-SameRows idx row_idx name =
      Returns-bind (SameRows idx) (holder (idx.ht_cap) 0 _ (idx.ht_mask) (idx.ht) row_idx) _ removed
    where
      removed :
          (found : Option ℕ)
          → holder
              (idx.ht_cap)
              0
              (hash_name (idx.name_len_max) (some name))
              (idx.ht_mask)
              (idx.ht)
              row_idx
            ≡ ok found
          → Returns (SameRows idx) (elim found [
            | none ↦ ok idx
            | some b ↦
                ok (record idx { ht = set (idx.ht) b tomb; ht_tombs = u64 (idx.ht_tombs + 1) })
          ])
      removed none run = SameRows-refl idx
      removed (some b) run = other_table idx _ (idx.ht_cap) (idx.ht_mask) _ (idx.heap)
