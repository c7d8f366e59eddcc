-- ===== src/Mm/Asid.antt =====
-- kernel/mm/asid.c: the address space ids, handed out from a bitmap. The functions run under
-- `asid_lock`, so a call is one step; the width that the CPU reports is a parameter.
pub mod Laws
pub mod Reach
use rendezv_os.Base.{
  ℕ, zero, suc, ◌+◌, ◌-◌, ◌%◌, ◌^◌, true, false, ◌||◌, ◌==◌, leb, ltb, if◌then◌else◌,
}
use rendezv_os.Base.{Result, ok, fault, ◌>>=◌}
use rendezv_os.Mm.Bitmap.{Bitmap, bitmap_zero, bitmap_test, bitmap_set, bitmap_clear}

-- The static variables.
pub record Asid : Type 0 where
  pub asid_max : ℕ
  pub asid_bitmap : Bitmap

-- `(asid_t)((1u << width) - 1u)`
abbrev pub max_of_width : ℕ → ℕ
max_of_width width = (2 ^ width % 2 ^ 32 + (2 ^ 32 - 1)) % 2 ^ 32 % 2 ^ 16

unfoldable pub asid_init : ℕ → Result Asid
asid_init width = do
  b ← bitmap_set bitmap_zero 0
  ok (record { asid_max = max_of_width width; asid_bitmap = b })

unfoldable pub asid_get_max : Asid → ℕ
asid_get_max s = s.asid_max

-- The rounds of the loop from an id on. The fuel is at least the rounds that are left.
unfoldable pub asid_scan : ℕ → ℕ → Asid → Result (ℕ × Asid)
asid_scan zero asid s = fault
asid_scan (suc fuel) asid s = elim (leb asid (s.asid_max)) [
  | false ↦ ok (0, s)
  | true ↦ do
    used ← bitmap_test (s.asid_bitmap) asid
    elim used [
      | true ↦ asid_scan fuel (asid + 1) s
      | false ↦ do
        b ← bitmap_set (s.asid_bitmap) asid
        ok (asid % 2 ^ 16, record s { asid_bitmap = b })
    ]
]

unfoldable pub asid_alloc : Asid → Result (ℕ × Asid)
asid_alloc s = asid_scan (suc (s.asid_max)) 1 s

unfoldable pub asid_free : ℕ → Asid → Result Asid
asid_free asid s =
    if asid == 0 || ltb (s.asid_max) asid
    then ok s
    else do b ← bitmap_clear (s.asid_bitmap) asid; ok (record s { asid_bitmap = b })
