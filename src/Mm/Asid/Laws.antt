-- ===== src/Mm/Asid/Laws.antt =====
-- What `asid_alloc` and `asid_free` of kernel/mm/asid.c do to the ids in use.
use native.Mathlib.Nat.{pow-le-pow_right, one-le-pow}
use native.Mathlib.Decide.{ℕ_discrete, dec_le}
use rendezv_os.Base.{
  subst, ℕ, zero, suc, ◌+◌, ◌-◌, ◌%◌, ◌^◌, ◌≤◌, ◌<◌, ◌≡◌, refl, ◌∙◌, inl, inr, Bool, Bool-cases,
  true, false, ◌&&◌, ◌==◌, leb, ltb, lt→ltb, if◌then◌else◌, arith,
}
use rendezv_os.Base.{Result, ok}
use rendezv_os.Base.Memory.{le→leb, gt→leb}
use rendezv_os.Mm.Bitmap.{Bitmap, bitmap_test, bitmap_set}
use rendezv_os.Mm.Bitmap.Laws.{
  holds, IsBitmap, bitmap_test-holds, bitmap_set-holds, bitmap_clear-holds, bitmap_zero-IsBitmap,
  bitmap_zero-holds,
}
use rendezv_os.Mm.Asid.{Asid, max_of_width, asid_init, asid_scan, asid_alloc, asid_free}

-- Id 0 is reserved, and an `asid_t` can hold every id.
pub record IsAsid (s : Asid) : Type 0 where
  pub bits : IsBitmap (s.asid_bitmap)
  pub small : s.asid_max < 2 ^ 16
  pub reserved : holds (s.asid_bitmap) 0 ≡ true

abbrev pub in_use : Asid → ℕ → Bool
in_use s i = holds (s.asid_bitmap) i

-- The outcome of an allocation from `s`: the least id from `from` on that is not in use, or 0.
pub data Allocated (from : ℕ) (s : Asid) : ℕ → Asid → Type 0 where
  exhausted : ((i : ℕ) → from ≤ i → i ≤ s.asid_max → in_use s i ≡ true) → Allocated from s 0 s
  least :
      {s' : Asid} {id : ℕ}
      → from ≤ id
      → id ≤ s.asid_max
      → in_use s id ≡ false
      → ((i : ℕ) → from ≤ i → i < id → in_use s i ≡ true)
      → s'.asid_max ≡ s.asid_max
      → ((i : ℕ) → in_use s' i ≡ (if i == id then true else in_use s i))
      → Allocated from s id s'

further :
    {from id : ℕ} {s s' : Asid}
    → in_use s from ≡ true
    → Allocated (from + 1) s id s'
    → Allocated from s id s'
further {from} {s = s} used (exhausted all) = exhausted (λ i lo hi. elim (ℕ_discrete from i) [
  | yes e ↦ subst (λ j. in_use s j ≡ true) e used
  | no ne ↦ all i (omega arith) hi
])
further {from} {s = s} used (least lo hi free below max after) =
    least (omega arith) hi free
      (λ i lo' hi'. elim (ℕ_discrete from i) [
        | yes e ↦ subst (λ j. in_use s j ≡ true) e used
        | no ne ↦ below i (omega arith) hi'
      ])
      max after

word : {n : ℕ} → n < 2 ^ 16 → n % 2 ^ 16 ≡ n
word small = omega arith

-- One round of the loop.
module _ (fuel : ℕ) {from : ℕ} {s : Asid} (is : IsAsid s) where
  scan-past : s.asid_max < from → asid_scan (suc fuel) from s ≡ ok (0, s)
  unfolding asid_scan
  scan-past past = rw (asid_scan, gt→leb from (s.asid_max) past)

  module _ (inside : from ≤ s.asid_max) where
    tested : bitmap_test (s.asid_bitmap) from ≡ ok (in_use s from)
    tested = bitmap_test-holds (is.bits) from (omega (arith, is.small))

    scan-used : in_use s from ≡ true → asid_scan (suc fuel) from s ≡ asid_scan fuel (from + 1) s
    unfolding asid_scan
    scan-used used = rw (asid_scan, le→leb from (s.asid_max) inside, tested, used)

    scan-free :
        {b : Bitmap}
        → in_use s from ≡ false
        → bitmap_set (s.asid_bitmap) from ≡ ok b
        → asid_scan (suc fuel) from s ≡ ok (from, record s { asid_bitmap = b })
    unfolding asid_scan
    scan-free free set' = rw (
      asid_scan,
      le→leb from (s.asid_max) inside,
      tested,
      free,
      set',
      word {n = from} (omega (arith, is.small)),
    )

abbrev Scanned : ℕ → Asid → Result (ℕ × Asid) → Type 0
Scanned from s r = (id : ℕ) × (s' : Asid) × (r ≡ ok (id, s')) × IsAsid s' × Allocated from s id s'

taken :
    (fuel from : ℕ) (s : Asid)
    → IsAsid s
    → 1 ≤ from
    → from ≤ s.asid_max
    → in_use s from ≡ false
    → Scanned from s (asid_scan (suc fuel) from s)
taken fuel from s is pos inside free =
    let (b, set', isb, after) = bitmap_set-holds (is.bits) from (omega (arith, is.small)) in
    (
      from,
      record s { asid_bitmap = b },
      scan-free fuel is inside free set',
      record { bits = isb; small = is.small; reserved = after 0 ∙ rw (is.reserved) (ground arith) },
      least (omega arith) inside free (λ i lo hi. absurd (omega arith)) refl after,
    )

asid_scan-Allocated :
    (fuel from : ℕ) (s : Asid)
    → IsAsid s
    → 1 ≤ from
    → from ≤ s.asid_max + 1
    → s.asid_max + 1 < fuel + from
    → Scanned from s (asid_scan fuel from s)
asid_scan-Allocated zero from s is pos near enough = absurd (omega arith)
asid_scan-Allocated (suc fuel) from s is pos near enough = elim (dec_le from (s.asid_max)) [
  | no past ↦
      (0, s, scan-past fuel is (omega arith), is, exhausted (λ i lo hi. absurd (omega arith)))
  | yes inside ↦ elim (Bool-cases (in_use s from)) [
    | inl used ↦
        let (id, s', run, is', all) =
          asid_scan-Allocated fuel (from + 1) s is (omega arith) (omega arith) (omega arith) in
        (id, s', scan-used fuel is inside used ∙ run, is', further used all)
    | inr free ↦ taken fuel from s is pos inside free
  ]
]

-- Where the bitmap has its size, ids fit 16 bits and id 0 is reserved, `asid_alloc` returns the
-- least id in [1, asid_max] that is not in use and marks that id and no other, or returns 0 and
-- changes nothing if all of them are in use. It always returns, and keeps these conditions.
pub asid_alloc-Allocated :
    {s : Asid}
    → IsAsid s
    → (id : ℕ) × (s' : Asid) × (asid_alloc s ≡ ok (id, s')) × IsAsid s' × Allocated 1 s id s'
unfolding asid_alloc
asid_alloc-Allocated {s} is =
    asid_scan-Allocated (suc (s.asid_max)) 1 s is (omega arith) (omega arith) (omega arith)

not_zero : (n : ℕ) → (suc n == 0) ≡ false
not_zero n = ground arith

zero_not : (n : ℕ) → (0 == suc n) ≡ false
zero_not n = ground arith

le→not_ltb : (a b : ℕ) → b ≤ a → ltb a b ≡ false
le→not_ltb a b h = ground arith

-- Where the bitmap has its size, ids fit 16 bits and id 0 is reserved, which it keeps, `asid_free`
-- makes an id in [1, asid_max] available and no other; on 0 and on an id above asid_max it changes
-- nothing.
pub asid_free-frees :
    {s : Asid} (id : ℕ)
    → IsAsid s
    → (s' : Asid) × (asid_free id s ≡ ok s')
      × IsAsid s'
      × (s'.asid_max ≡ s.asid_max)
      × ((i : ℕ)
          → in_use s' i
            ≡ (if ltb 0 id && leb id (s.asid_max) && (i == id) then false else in_use s i))
unfolding asid_free
asid_free-frees {s} zero is = (s, refl, is, refl, λ i. refl)
asid_free-frees {s} (suc id) is = elim (dec_le (suc id) (s.asid_max)) [
  | no past ↦ (
    s,
    rw (not_zero id, lt→ltb (s.asid_max) (suc id) (omega arith)),
    is,
    refl,
    λ i. rw (lt→ltb 0 (suc id) (omega arith), gt→leb (suc id) (s.asid_max) (omega arith)) refl,
  )
  | yes inside ↦
      let (b, clear', isb, after) =
        bitmap_clear-holds (is.bits) (suc id) (omega (arith, is.small)) in
      (
        record s { asid_bitmap = b },
        rw (not_zero id, le→not_ltb (s.asid_max) (suc id) inside, clear'),
        record {
          bits = isb;
          small = is.small;
          reserved = after 0 ∙ rw (zero_not id) (is.reserved);
        },
        refl,
        λ i. rw (lt→ltb 0 (suc id) (omega arith), le→leb (suc id) (s.asid_max) inside) (after i),
      )
]

max_of_width-narrow : (width : ℕ) → width ≤ 16 → max_of_width width ≡ 2 ^ width - 1
max_of_width-narrow width narrow =
    let top : 2 ^ width ≤ 2 ^ 16 = pow-le-pow_right {n = 2} (omega arith) narrow in
    omega (arith, one-le-pow width 2 (omega arith))

-- After `asid_init` only id 0 is in use, on a CPU whose ids have at most 16 bits.
pub asid_init-IsAsid :
    (width : ℕ)
    → width ≤ 16
    → (s : Asid) × (asid_init width ≡ ok s)
      × IsAsid s
      × (s.asid_max ≡ 2 ^ width - 1)
      × ((i : ℕ) → in_use s i ≡ (i == 0))
unfolding asid_init
asid_init-IsAsid width narrow =
    let (b, set', isb, after) = bitmap_set-holds bitmap_zero-IsBitmap 0 (omega arith) in
    let max : max_of_width width ≡ 2 ^ width - 1 = max_of_width-narrow width narrow in
    (
      record { asid_max = max_of_width width; asid_bitmap = b },
      rw set',
      record { bits = isb; small = omega arith; reserved = after 0 },
      max,
      λ i.
          after i
          ∙ rw (bitmap_zero-holds i) (elim (Bool-cases (i == 0)) [ inl e ↦ rw e | inr e ↦ rw e ]),
    )
