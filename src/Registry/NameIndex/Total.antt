-- ===== src/Registry/NameIndex/Total.antt =====
-- The functions of kernel/registry/name_index.c stay inside their two arrays.
use rendezv_os.Base.{
  ℕ, zero, suc, ◌+◌, ◌/◌, ◌^◌, ◌≤◌, ◌<◌, ◌≡◌, ◌∙◌, Bool-cases, true, false, ltb, ◌==◌, Option, none,
  some, List, if◌then◌else◌, get_elem?, get_elem?-some, set, length, length-set, inl, inr, arith,
}
use rendezv_os.Base.{ok, access}
use rendezv_os.Base.Bits.{bit_and-le}
use rendezv_os.Base.Returns.{Gives, Gives-bind}
use rendezv_os.Kalloc.{Kalloc}
use rendezv_os.Registry.NameIndex.{
  u64, Bucket, empty, tomb, row, NameIndex, bucket_at, ht_initial_cap,
}
use rendezv_os.Registry.NameIndex.Table.{is_vacant, vacancy, holder, ht_remove}

-- The arrays have the sizes that the index says.
pub record IsIndex (idx : NameIndex) : Type 0 where
  pub rows_sized : length (idx.rows) ≡ idx.row_cap
  pub table_sized : length (idx.ht) ≡ idx.ht_cap
  pub mask_below : 0 < idx.ht_cap → idx.ht_mask < idx.ht_cap
  pub table_small : idx.ht_cap < 2 ^ 61

abbrev pub Any {ℓ} : {A : Type ℓ} → A → Type 0
Any a = Unit

pub access-Gives {ℓ} :
    {A : Type ℓ} (xs : List A) (i : ℕ) → i < length xs → Gives Any (access (get_elem? xs i))
access-Gives xs i lt = let (a, got) = get_elem?-some xs i lt in rw got tt

-- A bucket that the probe for a vacant one names lies in the table.
abbrev pub Vacant : List Bucket → Option ℕ → Type 0
Vacant ht none = Unit
Vacant ht (some b) = b < length ht

-- A probe of `n` rounds reads inside the table if it reads at all.
module _ (h mask : ℕ) where
  bucket-lt : (probe n : ℕ) → mask < n → bucket_at h probe mask < n
  bucket-lt probe n lt = omega (arith, bit_and-le (u64 (h + probe)) mask)

  pub vacancy-Gives :
      (n probe : ℕ) (ht : List Bucket)
      → (0 < n → mask < length ht)
      → Gives (Vacant ht) (vacancy n probe h mask ht)
  unfolding vacancy
  vacancy-Gives zero probe ht lt = tt
  vacancy-Gives (suc n) probe ht lt =
      Gives-bind Any (Vacant ht) (access (get_elem? ht (bucket_at h probe mask))) _
        (access-Gives ht _ (bucket-lt probe (length ht) (lt (omega arith))))
        (λ cur got. elim (Bool-cases (is_vacant cur)) [
          | inl e ↦ rw e (bucket-lt probe (length ht) (lt (omega arith)))
          | inr e ↦ rw e (vacancy-Gives n (probe + 1) ht (λ p. lt (omega arith)))
        ])

  pub holder-Gives :
      (n probe : ℕ) (ht : List Bucket) (i : ℕ)
      → (0 < n → mask < length ht)
      → Gives Any (holder n probe h mask ht i)
  unfolding holder
  holder-Gives zero probe ht i lt = tt
  holder-Gives (suc n) probe ht i lt =
      Gives-bind Any Any (access (get_elem? ht (bucket_at h probe mask))) _
        (access-Gives ht _ (bucket-lt probe (length ht) (lt (omega arith))))
        (λ cur got. decide cur (holder-Gives n (probe + 1) ht i (λ p. lt (omega arith))))
    where
      decide :
          (cur : Bucket)
          → Gives Any (holder n (probe + 1) h mask ht i)
          → Gives Any (elim cur [
            | empty ↦ ok none
            | tomb ↦ holder n (probe + 1) h mask ht i
            | row r ↦ elim (r == i) [
              | true ↦ ok (some (bucket_at h probe mask))
              | false ↦ holder n (probe + 1) h mask ht i
            ]
          ])
      decide empty rest = tt
      decide tomb rest = rest
      decide (row r) rest = elim (Bool-cases (r == i)) [ inl e ↦ rw e tt | inr e ↦ rw e rest ]

pub half_pos : (n : ℕ) → 1 ≤ (if ltb (n / 2) ht_initial_cap then ht_initial_cap else n / 2)
half_pos n = ground arith

pub same_arrays : {idx : NameIndex} {h : Kalloc} → IsIndex idx → IsIndex (record idx { heap = h })
same_arrays is = record {
  rows_sized = is.rows_sized;
  table_sized = is.table_sized;
  mask_below = is.mask_below;
  table_small = is.table_small;
}

pub ht_remove-IsIndex :
    (idx : NameIndex) (i : ℕ) (name : List ℕ) → IsIndex idx → Gives IsIndex (ht_remove idx i name)
unfolding ht_remove
ht_remove-IsIndex idx i name is =
    Gives-bind Any IsIndex (holder (idx.ht_cap) 0 _ (idx.ht_mask) (idx.ht) i) _
      (holder-Gives _ (idx.ht_mask) (idx.ht_cap) 0 (idx.ht) i
        (λ p. omega (arith, is.mask_below p, is.table_sized)))
      (λ found got. removed found)
  where
    removed :
        (found : Option ℕ)
        → Gives IsIndex (elim found [
          | none ↦ ok idx
          | some b ↦ ok (record idx { ht = set (idx.ht) b tomb; ht_tombs = u64 (idx.ht_tombs + 1) })
        ])
    removed none = is
    removed (some b) = record {
      rows_sized = is.rows_sized;
      table_sized = length-set (idx.ht) b tomb ∙ is.table_sized;
      mask_below = is.mask_below;
      table_small = is.table_small;
    }
