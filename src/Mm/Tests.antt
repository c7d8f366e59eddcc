-- ===== src/Mm/Tests.antt =====
-- Runs of kernel/mm/asid.c on a CPU with 8-bit ids, and its theorems there.
use rendezv_os.Base.{
  ℕ, ◌^◌, ◌≤◌, ◌<◌, ◌≡◌, refl, ◌⊎◌, true, false, [], ◌∷◌, arith, set, ◌&&◌, ◌==◌, leb, ltb,
  if◌then◌else◌,
}
use rendezv_os.Base.{ok}
use rendezv_os.Mm.Bitmap.{bitmap_zero, bitmap_test, bitmap_set, bitmap_clear}
use rendezv_os.Mm.Asid.{Asid, asid_init, asid_scan, asid_alloc, asid_free}
use rendezv_os.Mm.Asid.Laws.{IsAsid, in_use, Allocated, asid_alloc-Allocated, asid_free-frees}
use rendezv_os.Mm.Asid.Reach.{mem, Run, start, allocated, freed, asid_alloc-fresh}

-- The state in which the low bits of the first cell are `cell`.
abbrev state : ℕ → Asid
state cell = record { asid_max = 255; asid_bitmap = set bitmap_zero 0 cell }

-- Ids 1 and 2 are handed out, and 1 comes back.
two_then_one : Run 8 (2 ∷ []) (state 5)
unfolding asid_init asid_alloc asid_scan asid_free bitmap_test bitmap_set bitmap_clear bitmap_zero
two_then_one =
    freed {s = state 7} 1
      (allocated {s = state 3} {id = 1} (allocated {s = state 1} {id = 0} (start refl) refl) refl)
      refl

asid_alloc-fresh_example :
    (id : ℕ) × (s' : Asid) × (asid_alloc (state 5) ≡ ok (id, s'))
    × (((1 ≤ id) × (id < 2 ^ 8) × (mem id (2 ∷ []) ≡ false))
        ⊎ ((id ≡ 0) × ((i : ℕ) → 1 ≤ i → i < 2 ^ 8 → mem i (2 ∷ []) ≡ true)))
asid_alloc-fresh_example = asid_alloc-fresh (omega arith) two_then_one

opened : IsAsid (state 1)
unfolding bitmap_zero
opened = record { bits = record { cells = refl }; small = omega arith; reserved = refl }

asid_alloc-Allocated_example :
    (id : ℕ) × (s' : Asid) × (asid_alloc (state 1) ≡ ok (id, s'))
    × IsAsid s'
    × Allocated 1 (state 1) id s'
asid_alloc-Allocated_example = asid_alloc-Allocated opened

asid_free-frees_example :
    (s' : Asid) × (asid_free 1 (state 1) ≡ ok s')
    × IsAsid s'
    × (s'.asid_max ≡ 255)
    × ((i : ℕ)
        → in_use s' i ≡ (if ltb 0 1 && leb 1 255 && (i == 1) then false else in_use (state 1) i))
asid_free-frees_example = asid_free-frees 1 opened
