-- ===== src/Registry/NameIndex.antt =====
-- kernel/registry/name_index.c and include/rendezvos/registry/name_index.h: the data. Pointers are
-- numbers, NULL is 0; a name is its bytes without the NUL; an array that is NULL is the empty list.
-- What the owner of an index passes to `name_index_init` is a parameter: the name of an object, and
-- the hooks, which act on a world of their own.
pub mod Table
pub mod Search
pub mod Calls
pub mod Sound
pub mod Resolve
pub mod Keep
pub mod RowSpec
pub mod Lifecycle
pub mod Stale
pub mod Total
pub mod Resize
pub mod Insert
pub mod Register
pub mod Reach
pub mod Boot
use Prim.Native.Nat.{bit_and, bit_xor}
use rendezv_os.Base.{
  ℕ, zero, suc, ◌+◌, ◌*◌, ◌%◌, ◌^◌, ◌-◌, Bool, true, false, ◌==◌, Option, none, some, List, [], ◌∷◌,
  if◌then◌else◌, take,
}
use rendezv_os.Base.{Error}
use rendezv_os.Kalloc.{Kalloc}

abbrev pub u64 : ℕ → ℕ
u64 n = n % 2 ^ 64

abbrev pub free_head_invalid : ℕ
free_head_invalid = 2 ^ 64 - 1

abbrev pub row_index_invalid : ℕ
row_index_invalid = 2 ^ 32 - 1

abbrev pub rows_initial_cap : ℕ
rows_initial_cap = 32

abbrev pub ht_initial_cap : ℕ
ht_initial_cap = 64

-- `storage` is the union: the value of a used row, the next free row of a free one.
pub record Row : Type 0 where
  pub gen : ℕ
  pub used : ℕ
  pub storage : ℕ

-- An `i64` of the hash table: -1, -2, or the number of a row.
pub data Bucket : Type 0 where
  empty tomb : Bucket
  row : ℕ → Bucket

-- `heap` is the allocator's state.
pub record NameIndex : Type 0 where
  pub rows : List Row
  pub row_cap : ℕ
  pub free_head : ℕ
  pub live : ℕ
  pub ht : List Bucket
  pub ht_cap : ℕ
  pub ht_mask : ℕ
  pub ht_tombs : ℕ
  pub name_len_max : ℕ
  pub heap : Kalloc

pub record Token : Type 0 where
  pub row_index : ℕ
  pub row_gen : ℕ

unfoldable pub name_index_token_invalidate : Token → Token
name_index_token_invalidate t = record { row_index = row_index_invalid; row_gen = 0 }

-- The function pointers, each of which can be NULL.
pub record Hooks (W : Type 0) : Type 0 where
  pub get_name : Option (ℕ → Option (List ℕ))
  pub hold : Option (ℕ → W → Bool × W)
  pub drop : Option (ℕ → W → W)
  pub on_register : Option (ℕ → W → W)
  pub on_unregister : Option (ℕ → W → W)

-- What an `error_t` function returns.
pub data Status : Type 0 where
  success : Status
  failed : Error → Status

-- The rounds of the hash, FNV-1a in 32 bits.
abbrev pub hash_bytes : ℕ → List ℕ → ℕ
hash_bytes hash [] = hash
hash_bytes hash (c ∷ cs) = hash_bytes (bit_xor hash (c % 2 ^ 8) * 16777619 % 2 ^ 32) cs

unfoldable pub hash_name : ℕ → Option (List ℕ) → ℕ
hash_name name_len_max none = 0
hash_name name_len_max (some name) =
    if name_len_max == 0 then 0 else hash_bytes 2166136261 (take name_len_max name)

-- `strcmp_s(a, b, n) == 0` of kernel/mm/string.c, for bytes that are not 0 before the end: after
-- `n` equal ones the next two are compared as well.
unfoldable pub same_name : List ℕ → List ℕ → ℕ → Bool
same_name [] [] n = true
same_name [] (y ∷ ys) n = false
same_name (x ∷ xs) [] n = false
same_name (x ∷ xs) (y ∷ ys) zero = x == y
same_name (x ∷ xs) (y ∷ ys) (suc n) = if x == y then same_name xs ys n else false

-- `((u64)h + probe) & mask`
abbrev pub bucket_at : ℕ → ℕ → ℕ → ℕ
bucket_at h probe mask = bit_and (u64 (h + probe)) mask
