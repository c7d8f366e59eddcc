-- ===== src/Mm/Bitmap.antt =====
-- include/common/dsa/bitmap.h at `asid_bitmap_t` of kernel/mm/asid.c: 65536 bits in u64 cells, with
-- the masks of include/common/bit.h.
pub mod Laws
use Prim.Native.Nat.{bit_and, bit_or}
use rendezv_os.Base.{
  ℕ, ◌+◌, ◌-◌, ◌/◌, ◌%◌, ◌^◌, Bool, true, false, not, ◌&&◌, List, [], ◌∷◌, ◌==◌, get_elem?, set,
  replicate, if◌then◌else◌,
}
use rendezv_os.Base.{Result, ok, ◌>>=◌, access}

abbrev pub cell_bits : ℕ
cell_bits = 64

abbrev pub nb_bits : ℕ
nb_bits = 65536

-- `BITMAP_NUM_CELLS(nb_bits)`
abbrev pub num_cells : ℕ
num_cells = (nb_bits + (cell_bits - 1)) / cell_bits

abbrev pub Bitmap : Type 0
Bitmap = List ℕ

-- `(u64)(1ull << n)`
abbrev pub bit_u64 : ℕ → ℕ
bit_u64 n = 2 ^ n % 2 ^ 64

abbrev pub set_mask_u64 : ℕ → ℕ → ℕ
set_mask_u64 w m = bit_or w m

-- `~m` in 64 bits is `2 ^ 64 - 1 - m`.
abbrev pub clear_mask_u64 : ℕ → ℕ → ℕ
clear_mask_u64 w m = bit_and w (2 ^ 64 - 1 - m)

-- `Name##_zero` writes 0 to each of the cells.
unfoldable pub bitmap_zero : Bitmap
bitmap_zero = replicate num_cells 0

unfoldable pub bitmap_is_zero : Bitmap → Bool
bitmap_is_zero [] = true
bitmap_is_zero (c ∷ cells) = c == 0 && bitmap_is_zero cells

-- A cell past the end is a fault.
unfoldable pub bitmap_test : Bitmap → ℕ → Result Bool
bitmap_test b bit = do
  cell ← access (get_elem? b (bit / cell_bits))
  ok (not (bit_and cell (bit_u64 (bit % cell_bits)) == 0))

unfoldable pub bitmap_set : Bitmap → ℕ → Result Bitmap
bitmap_set b bit = do
  cell ← access (get_elem? b (bit / cell_bits))
  ok (set b (bit / cell_bits) (set_mask_u64 cell (bit_u64 (bit % cell_bits))))

unfoldable pub bitmap_clear : Bitmap → ℕ → Result Bitmap
bitmap_clear b bit = do
  cell ← access (get_elem? b (bit / cell_bits))
  ok (set b (bit / cell_bits) (clear_mask_u64 cell (bit_u64 (bit % cell_bits))))
