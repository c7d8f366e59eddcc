-- ===== src/Mm/Bitmap/Laws.antt =====
-- The bitmap of include/common/dsa/bitmap.h as a set of bit numbers: `set` adds one, `clear` removes
-- one, `test` asks.
use native.Mathlib.Decide.{ℕ_discrete}
use native.Mathlib.Nat.{pow-le-pow_right}
use rendezv_os.Base.{
  ℕ, zero, suc, ◌/◌, ◌%◌, ◌^◌, ◌≤◌, ◌<◌, ◌≡◌, ◌≢◌, refl, sym, ◌∙◌, Bool, true, false, not, ◌==◌,
  get_elem?, set, length, length-set, get_elem?-some, get_elem?-set_self, get_elem?-set_ne, some,
  none, Option, if◌then◌else◌, arith, replicate, length-replicate, Bool-cases, inl, inr,
}
use rendezv_os.Base.{ok}
use rendezv_os.Base.Bits.{bit, bit-zero, bit_or-pow, bit_and-hole, bit_and-pow}
use rendezv_os.Mm.Bitmap.{
  Bitmap, num_cells, nb_bits, cell_bits, bit_u64, bitmap_zero, bitmap_test, bitmap_set,
  bitmap_clear, set_mask_u64, clear_mask_u64,
}

-- A missing cell reads as empty.
abbrev cell_at : Option ℕ → ℕ
cell_at none = 0
cell_at (some cell) = cell

-- The set that a bitmap stands for.
abbrev pub holds : Bitmap → ℕ → Bool
holds b j = not (bit (j % cell_bits) (cell_at (get_elem? b (j / cell_bits))) == 0)

pub record IsBitmap (b : Bitmap) : Type 0 where
  pub cells : length b ≡ num_cells

bit_u64_lem : (n : ℕ) → n < 64 → bit_u64 n ≡ 2 ^ n
bit_u64_lem n lt =
    let below : n ≤ 63 = omega arith in
    let small : 2 ^ n ≤ 2 ^ 63 = pow-le-pow_right {n = 2} (omega arith) below in omega arith

-- Two bit numbers are equal exactly if cell and place are.
same_cell : (i j : ℕ) → i / 64 ≡ j / 64 → (i % 64 == j % 64) ≡ (i == j)
same_cell i j h = ground arith

other_cell : (i j : ℕ) → i / 64 ≢ j / 64 → (i == j) ≡ false
other_cell i j h = ground arith

module _ {b : Bitmap} (is : IsBitmap b) (j : ℕ) (lt : j < nb_bits) where
  found : (cell : ℕ) × (get_elem? b (j / 64) ≡ some cell)
  found = get_elem?-some b (j / 64) (omega (arith, is.cells))

  pub bitmap_test-holds : bitmap_test b j ≡ ok (holds b j)
  unfolding bitmap_test
  bitmap_test-holds =
      rw (found.1, bit_u64_lem (j % 64) (omega arith), bit_and-pow (found.0) (j % 64))

  -- A cell in which one bit is replaced.
  holds-set :
      (cell' d : ℕ)
      → ((k : ℕ) → k < 64 → bit k cell' ≡ (if k == j % 64 then d else bit k (found.0)))
      → (i : ℕ) → holds (set b (j / 64) cell') i ≡ (if i == j then not (d == 0) else holds b i)
  holds-set cell' d bits i = elim (ℕ_discrete (i / 64) (j / 64)) [
    | yes same ↦
        rw
          (
            same,
            get_elem?-set_self b (j / 64) cell' (omega (arith, is.cells)),
            found.1,
            bits (i % 64) (omega arith),
            same_cell i j same,
          )
          (elim (Bool-cases (i == j)) [ inl e ↦ rw e | inr e ↦ rw e ])
    | no other ↦
        rw (get_elem?-set_ne b (j / 64) (i / 64) cell' (λ e. other (sym e)), other_cell i j other)
  ]

  kept : (cell' : ℕ) → IsBitmap (set b (j / 64) cell')
  kept cell' = record { cells = length-set b (j / 64) cell' ∙ is.cells }

  pub bitmap_set-holds :
      (b' : Bitmap) × (bitmap_set b j ≡ ok b')
      × IsBitmap b'
      × ((i : ℕ) → holds b' i ≡ (if i == j then true else holds b i))
  unfolding bitmap_set
  bitmap_set-holds =
      let cell' : ℕ = set_mask_u64 (found.0) (2 ^ (j % 64)) in
      (
        set b (j / 64) cell',
        rw (found.1, bit_u64_lem (j % 64) (omega arith)),
        kept cell',
        holds-set cell' 1 (λ k small. bit_or-pow (found.0) (j % 64) k),
      )

  pub bitmap_clear-holds :
      (b' : Bitmap) × (bitmap_clear b j ≡ ok b')
      × IsBitmap b'
      × ((i : ℕ) → holds b' i ≡ (if i == j then false else holds b i))
  unfolding bitmap_clear
  bitmap_clear-holds =
      let cell' : ℕ = clear_mask_u64 (found.0) (2 ^ (j % 64)) in
      (
        set b (j / 64) cell',
        rw (found.1, bit_u64_lem (j % 64) (omega arith)),
        kept cell',
        holds-set cell' 0 (λ k small. bit_and-hole (found.0) 64 (j % 64) k small (omega arith)),
      )

pub bitmap_zero-IsBitmap : IsBitmap bitmap_zero
unfolding bitmap_zero
bitmap_zero-IsBitmap = record { cells = length-replicate {A = ℕ} num_cells 0 }

get_elem?-zeros : (n i : ℕ) → cell_at (get_elem? (replicate n 0) i) ≡ 0
get_elem?-zeros zero i = refl
get_elem?-zeros (suc n) zero = refl
get_elem?-zeros (suc n) (suc i) = get_elem?-zeros n i

pub bitmap_zero-holds : (i : ℕ) → holds bitmap_zero i ≡ false
unfolding bitmap_zero
bitmap_zero-holds i = rw (get_elem?-zeros num_cells (i / 64), bit-zero (i % 64))
