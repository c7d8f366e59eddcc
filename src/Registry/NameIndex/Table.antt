-- ===== src/Registry/NameIndex/Table.antt =====
-- kernel/registry/name_index.c: the row array and the hash table (open addressing with tombstones).
use rendezv_os.Base.{
  ℕ, zero, suc, ◌+◌, ◌-◌, ◌*◌, ◌/◌, ◌^◌, Bool, true, false, ◌&&◌, ◌||◌, not, ◌==◌, leb, ltb, Option,
  none, some, List, [], ◌∷◌, ◌++◌, if◌then◌else◌, length, take, replicate, get_elem?, set,
}
use rendezv_os.Base.{Result, ok, fault, ◌>>=◌, access, e_rendezvos}
use rendezv_os.Kalloc.{Kalloc, Answers, m_alloc, m_free}
use rendezv_os.Registry.NameIndex.{
  u64, free_head_invalid, rows_initial_cap, ht_initial_cap, Row, Bucket, empty, tomb, row,
  NameIndex, Status, success, failed, hash_name, bucket_at,
}

abbrev pub is_vacant : Bucket → Bool
is_vacant (row r) = false
is_vacant b = true

-- The probe for a vacant bucket: rounds left, and the round's number.
unfoldable pub vacancy : ℕ → ℕ → ℕ → ℕ → List Bucket → Result (Option ℕ)
vacancy zero probe h mask ht = ok none
vacancy (suc n) probe h mask ht = do
  cur ← access (get_elem? ht (bucket_at h probe mask))
  elim (is_vacant cur) [
    | true ↦ ok (some (bucket_at h probe mask))
    | false ↦ vacancy n (probe + 1) h mask ht
  ]

abbrev pub in_use : Row → Bool
in_use r = r.used == 1 && not (r.storage == 0)

-- A call that can fail, and what follows it on success.
abbrev pub and_then :
    Result (Status × NameIndex)
    → (NameIndex → Result (Status × NameIndex))
    → Result (Status × NameIndex)
and_then r next = r >>= λ (p : Status × NameIndex). elim (p.0) [
  | failed code ↦ ok (failed code, p.1)
  | success ↦ next (p.1)
]

abbrev pub free_if_any {ℓ} : {A : Type ℓ} → List A → Kalloc → Kalloc
free_if_any [] h = h
free_if_any (x ∷ xs) h = m_free h

-- `idx->get_name ? idx->get_name(value) : NULL`
abbrev pub name_of : Option (ℕ → Option (List ℕ)) → ℕ → Option (List ℕ)
name_of none value = none
name_of (some f) value = f value

-- Free rows from `i` on, chained, the last one to `tail`.
abbrev pub free_rows : ℕ → ℕ → ℕ → List Row
free_rows zero i tail = []
free_rows (suc zero) i tail = (record { gen = 0; used = 0; storage = tail }) ∷ []
free_rows (suc (suc n)) i tail =
    (record { gen = 0; used = 0; storage = i + 1 }) ∷ free_rows (suc n) (i + 1) tail

module _ (get_name : Option (ℕ → Option (List ℕ))) (answers : Answers) where
  -- The loop of the rehash over the rows from one on; `none` if a row finds no bucket.
  unfoldable pub place_rows :
      ℕ → ℕ → NameIndex → ℕ → ℕ → List Bucket → Result (Option (List Bucket))
  place_rows zero row_idx idx cap mask ht = ok (some ht)
  place_rows (suc n) row_idx idx cap mask ht = do
    r ← access (get_elem? (idx.rows) row_idx)
    elim (in_use r) [
      | false ↦ place_rows n (row_idx + 1) idx cap mask ht
      | true ↦ do
        placed ← vacancy cap 0 (hash_name (idx.name_len_max) (name_of get_name (r.storage))) mask ht
        elim placed [
          | none ↦ ok none
          | some b ↦ place_rows n (row_idx + 1) idx cap mask (set ht b (row row_idx))
        ]
    ]

  -- The end of the rehash, with the new table if all rows were placed.
  abbrev pub rehashed : NameIndex → ℕ → Kalloc → Option (List Bucket) → Status × NameIndex
  rehashed idx new_cap h none = (failed e_rendezvos, record idx { heap = m_free h })
  rehashed idx new_cap h (some new_ht) = (
    success,
    record idx {
      ht = new_ht;
      ht_cap = new_cap;
      ht_mask = u64 (new_cap + (2 ^ 64 - 1));
      ht_tombs = 0;
      heap = free_if_any (idx.ht) h;
    },
  )

  abbrev pub rehash_into : NameIndex → ℕ → Option (List ℕ) × Kalloc → Result (Status × NameIndex)
  rehash_into idx new_cap (none, h) = ok (failed e_rendezvos, record idx { heap = h })
  rehash_into idx new_cap (some mem, h) = do
    placed ←
        place_rows (idx.row_cap) 0 idx new_cap (u64 (new_cap + (2 ^ 64 - 1)))
          (replicate new_cap empty)
    ok (rehashed idx new_cap h placed)

  unfoldable pub ht_rehash : NameIndex → ℕ → Result (Status × NameIndex)
  ht_rehash idx new_cap =
      if ltb ((2 ^ 64 - 1) / 8) new_cap
      then ok (failed e_rendezvos, idx)
      else rehash_into idx new_cap (m_alloc answers (new_cap * 8) (idx.heap))

  -- The copy of the old rows reads `old_cap` of them.
  abbrev pub grow_from : NameIndex → ℕ → ℕ → Kalloc → Result (Status × NameIndex)
  grow_from idx zero new_cap h = ok (
    success,
    record idx {
      rows = free_rows new_cap 0 free_head_invalid;
      row_cap = new_cap;
      free_head = 0;
      heap = h;
    },
  )
  grow_from idx (suc old) new_cap h =
      if ltb (length (idx.rows)) (suc old)
      then fault
      else ok (
        success,
        record idx {
          rows =
              take (suc old) (idx.rows) ++ free_rows (new_cap - suc old) (suc old) (idx.free_head);
          row_cap = new_cap;
          free_head = suc old;
          heap = m_free h;
        },
      )

  abbrev pub grow_into : NameIndex → ℕ → Option (List ℕ) × Kalloc → Result (Status × NameIndex)
  grow_into idx new_cap (none, h) = ok (failed e_rendezvos, record idx { heap = h })
  grow_into idx new_cap (some mem, h) = grow_from idx (idx.row_cap) new_cap h

  abbrev pub grow_to : NameIndex → ℕ → Result (Status × NameIndex)
  grow_to idx new_cap =
      if not (idx.row_cap == 0) && ltb new_cap (idx.row_cap) || ltb ((2 ^ 64 - 1) / 24) new_cap
      then ok (failed e_rendezvos, idx)
      else grow_into idx new_cap (m_alloc answers (new_cap * 24) (idx.heap))

  unfoldable pub grow_row_array : NameIndex → Result (Status × NameIndex)
  grow_row_array idx =
      grow_to idx (if idx.row_cap == 0 then rows_initial_cap else u64 (idx.row_cap * 2))

  unfoldable pub bootstrap : NameIndex → Result (Status × NameIndex)
  bootstrap idx =
      if idx.row_cap == 0
      then and_then (grow_row_array idx) (λ grown_idx. ht_rehash grown_idx ht_initial_cap)
      else ok (success, idx)

  unfoldable pub maybe_grow_ht : NameIndex → Result (Status × NameIndex)
  maybe_grow_ht idx =
      if idx.ht_cap == 0
      then ht_rehash idx ht_initial_cap
      else if idx.live == 0 || leb (u64 (idx.live * 100)) (u64 (idx.ht_cap * 70))
      then ok (success, idx)
      else if ltb (u64 (idx.ht_cap * 2)) (idx.ht_cap)
      then ok (failed e_rendezvos, idx)
      else ht_rehash idx (u64 (idx.ht_cap * 2))

  -- The error of the rehash is dropped.
  abbrev pub shrink_to : NameIndex → ℕ → Result NameIndex
  shrink_to idx target =
      if ltb (u64 (idx.ht_tombs * 100)) (u64 (idx.ht_cap * 10)) || target == idx.ht_cap
      then ok idx
      else ht_rehash idx target >>= λ (p : Status × NameIndex). ok (p.1)

  unfoldable pub maybe_shrink_ht : NameIndex → Result NameIndex
  maybe_shrink_ht idx =
      if leb (idx.ht_cap) ht_initial_cap || idx.ht_tombs == 0
      then ok idx
      else if idx.live == 0
      then shrink_to idx ht_initial_cap
      else if ltb (u64 (idx.ht_cap * 25)) (u64 (idx.live * 100))
      then ok idx
      else shrink_to idx
          (if ltb (idx.ht_cap / 2) ht_initial_cap then ht_initial_cap else idx.ht_cap / 2)

  -- The row goes into a vacant bucket.
  abbrev pub occupy : NameIndex → ℕ → ℕ → Bucket → NameIndex
  occupy idx row_idx b tomb = record idx {
    ht = set (idx.ht) b (row row_idx);
    ht_tombs = (if ltb 0 (idx.ht_tombs) then idx.ht_tombs - 1 else idx.ht_tombs);
  }
  occupy idx row_idx b cur = record idx { ht = set (idx.ht) b (row row_idx) }

  -- The function calls itself after each rehash: the fuel is the number of calls.
  unfoldable pub ht_insert : ℕ → NameIndex → ℕ → List ℕ → Result (Status × NameIndex)
  ht_insert zero idx row_idx name = fault
  ht_insert (suc fuel) idx row_idx name = and_then (maybe_grow_ht idx) (λ idx. do
    found ← vacancy (idx.ht_cap) 0 (hash_name (idx.name_len_max) (some name)) (idx.ht_mask) (idx.ht)
    elim found [
      | some b ↦ do cur ← access (get_elem? (idx.ht) b); ok (success, occupy idx row_idx b cur)
      | none ↦
          and_then (ht_rehash idx (u64 (idx.ht_cap * 2))) (λ idx. ht_insert fuel idx row_idx name)
    ])

-- The probe for the bucket of a row.
unfoldable pub holder : ℕ → ℕ → ℕ → ℕ → List Bucket → ℕ → Result (Option ℕ)
holder zero probe h mask ht row_idx = ok none
holder (suc n) probe h mask ht row_idx = do
  cur ← access (get_elem? ht (bucket_at h probe mask))
  elim cur [
    | empty ↦ ok none
    | tomb ↦ holder n (probe + 1) h mask ht row_idx
    | row r ↦ elim (r == row_idx) [
      | true ↦ ok (some (bucket_at h probe mask))
      | false ↦ holder n (probe + 1) h mask ht row_idx
    ]
  ]

unfoldable pub ht_remove : NameIndex → ℕ → List ℕ → Result NameIndex
ht_remove idx row_idx name = do
  found ←
      holder (idx.ht_cap) 0 (hash_name (idx.name_len_max) (some name)) (idx.ht_mask) (idx.ht)
        row_idx
  elim found [
    | none ↦ ok idx
    | some b ↦ ok (record idx { ht = set (idx.ht) b tomb; ht_tombs = u64 (idx.ht_tombs + 1) })
  ]
