-- ===== src/Mm/PageSlice/Count.antt =====
-- The live counts of kernel/mm/page_slice.c: how many indices below a bound pass a test.
use native.Mathlib.Decide.{ℕ_discrete}
use rendezv_os.Base.{
  ℕ, zero, suc, ◌+◌, ◌≤◌, ◌<◌, ◌≡◌, ◌≢◌, refl, ap, sym, ◌∙◌, subst, Bool, true, false, Bool-cases,
  if◌then◌else◌, ◌==◌, inl, inr, arith,
}
use rendezv_os.Mm.PageSlice.{at}

abbrev pub count : (ℕ → Bool) → ℕ → ℕ
count p zero = 0
count p (suc n) = count p n + (if p n then 1 else 0)

pub at-same : {A : Type 0} (i : ℕ) (a : A) (f : ℕ → A) → at i a f i ≡ a
at-same i a f = let same : (i == i) ≡ true = ground arith in rw same refl

pub at-other : {A : Type 0} (i j : ℕ) (a : A) (f : ℕ → A) → j ≢ i → at i a f j ≡ f j
at-other i j a f ne = let other : (j == i) ≡ false = ground (arith, ne) in rw other refl

pub count-same : (p q : ℕ → Bool) (n : ℕ) → ((j : ℕ) → j < n → q j ≡ p j) → count q n ≡ count p n
count-same p q zero same = refl
count-same p q (suc n) same =
    rw (same n (omega arith), count-same p q n (λ j lt. same j (omega arith))) refl

pub count-more :
    (p q : ℕ → Bool) (n i : ℕ)
    → i < n
    → p i ≡ false
    → q i ≡ true
    → ((j : ℕ) → j ≢ i → q j ≡ p j)
    → count q n ≡ count p n + 1
count-more p q zero i lt off on same = absurd (omega arith)
count-more p q (suc n) i lt off on same = elim (ℕ_discrete i n) [
  | yes e ↦
      let here' : (p n ≡ false) × (q n ≡ true) =
        (subst (λ z. p z ≡ false) e off, subst (λ z. q z ≡ true) e on) in
      rw (here'.0, here'.1, count-same p q n (λ j lt'. same j (λ h. absurd (omega (arith, h, e)))))
        (omega arith)
  | no ne ↦
      rw (same n (λ h. ne (sym h)), count-more p q n i (omega (arith, ne)) off on same)
        (omega arith)
]

pub count-le : (p : ℕ → Bool) (n : ℕ) → count p n ≤ n
count-le p zero = omega arith
count-le p (suc n) = elim (Bool-cases (p n)) [
  | inl on ↦ rw on (omega (arith, count-le p n))
  | inr off ↦ rw off (omega (arith, count-le p n))
]

pub count-pos : (p : ℕ → Bool) (n i : ℕ) → i < n → p i ≡ true → 1 ≤ count p n
count-pos p zero i lt on = absurd (omega arith)
count-pos p (suc n) i lt on = elim (ℕ_discrete i n) [
  | yes e ↦ rw (subst (λ z. p z ≡ true) e on) (omega arith)
  | no ne ↦ omega (arith, count-pos p n i (omega (arith, ne)) on)
]

-- An index that fails leaves room.
pub count-room : (p : ℕ → Bool) (n i : ℕ) → i < n → p i ≡ false → count p n < n
count-room p zero i lt off = absurd (omega arith)
count-room p (suc n) i lt off = elim (ℕ_discrete i n) [
  | yes e ↦ rw (subst (λ z. p z ≡ false) e off) (omega (arith, count-le p n))
  | no ne ↦ elim (Bool-cases (p n)) [
    | inl on ↦ rw on (omega (arith, count-room p n i (omega (arith, ne)) off))
    | inr off' ↦ rw off' (omega (arith, count-le p n))
  ]
]

pub count-zero : (p : ℕ → Bool) (n i : ℕ) → count p n ≡ 0 → i < n → p i ≡ false
count-zero p n i none_left lt = elim (Bool-cases (p i)) [
  | inr off ↦ off
  | inl on ↦ absurd (omega (arith, none_left, count-pos p n i lt on))
]

-- If one passes and it is the first, no other does.
pub count-one : (p : ℕ → Bool) (n i : ℕ) → count p n ≡ 1 → p 0 ≡ true → i < n → 0 < i → p i ≡ false
count-one p zero i one first lt pos = absurd (omega arith)
count-one p (suc n) i one first lt pos = elim (ℕ_discrete i n) [
  | yes e ↦ elim (Bool-cases (p n)) [
    | inr off ↦ subst (λ z. p z ≡ false) (sym e) off
    | inl on ↦
        let two : count p n + 1 ≡ 1 = subst (λ t. count p n + (if t then 1 else 0) ≡ 1) on one in
        absurd (omega (arith, two, count-pos p n 0 (omega (arith, e)) first))
  ]
  | no ne ↦ elim (Bool-cases (p n)) [
    | inr off ↦
        let rest : count p n + 0 ≡ 1 = subst (λ t. count p n + (if t then 1 else 0) ≡ 1) off one in
        count-one p n i (omega (arith, rest)) first (omega (arith, ne)) pos
    | inl on ↦
        let two : count p n + 1 ≡ 1 = subst (λ t. count p n + (if t then 1 else 0) ≡ 1) on one in
        absurd (omega (arith, two, count-pos p n 0 (omega (arith, ne)) first))
  ]
]

-- An update of a function of the index, under a test.
module _ {A : Type 0} (test : A → Bool) (f : ℕ → A) (n i : ℕ) (a : A) where
  after : (j : ℕ) → j ≢ i → test (at i a f j) ≡ test (f j)
  after j ne = ap test (at-other i j a f ne)

  pub count-gains :
      i < n
      → test (f i) ≡ false
      → test a ≡ true
      → count (λ j. test (at i a f j)) n ≡ count (λ j. test (f j)) n + 1
  count-gains lt off on =
      count-more (λ j. test (f j)) (λ j. test (at i a f j)) n i lt off
        (ap test (at-same i a f) ∙ on) after

  pub count-loses :
      i < n
      → test (f i) ≡ true
      → test a ≡ false
      → count (λ j. test (f j)) n ≡ count (λ j. test (at i a f j)) n + 1
  count-loses lt on off =
      count-more (λ j. test (at i a f j)) (λ j. test (f j)) n i lt (ap test (at-same i a f) ∙ off)
        on (λ j ne. sym (after j ne))

  pub count-keeps :
      test a ≡ test (f i) → count (λ j. test (at i a f j)) n ≡ count (λ j. test (f j)) n
  count-keeps same =
      count-same (λ j. test (f j)) (λ j. test (at i a f j)) n
        (λ j lt. elim (ℕ_discrete j i) [
          | yes e ↦
              subst (λ z. test (at i a f z) ≡ test (f z)) (sym e) (ap test (at-same i a f) ∙ same)
          | no ne ↦ after j ne
        ])
