-- ===== src/Base/Bits.antt =====
-- Single bits of a machine word under `|`, `&` and `& ~`, for every position.
-- The native operations stand for a recursion on binary digits; `bit j` is the digit that it meets
-- after `j` halvings.
use Prim.Native.Nat.{
  ℕ, zero, suc, ◌+◌, ◌-◌, ◌*◌, ◌/◌, ◌%◌, ◌^◌, ◌≤◌, ◌<◌, min, max, bit_and, bit_or, digits,
  bit_and-bitwise, bit_or-bitwise,
}
use mathlib.Core.Path.{◌≡◌, refl, sym, ap, ◌∙◌, subst}
use native.Mathlib.Omega.{arith}
use native.Mathlib.Nat.{pow-suc, zero-mul, one-mul, one-le-pow, pow-le-pow_right}
use mathlib.Core.Bool.{false}
use rendezv_os.Base.Tests.{◌==◌, if◌then◌else◌}

abbrev pub bit : ℕ → ℕ → ℕ
bit zero w = w % 2
bit (suc j) w = bit j (w / 2)

-- The digit recursions, on fuel that is at least the first word.
abbrev ors : ℕ → ℕ → ℕ → ℕ
ors n a b = digits (λ d. d) max n a b

abbrev ands : ℕ → ℕ → ℕ → ℕ
ands n a b = digits (λ d. 0) min n a b

bit_double : (j x d : ℕ) → d < 2 → bit (suc j) (x * 2 + d) ≡ bit j x
bit_double j x d h = ap (bit j) (omega arith)

pub bit-zero : (j : ℕ) → bit j 0 ≡ 0
bit-zero zero = refl
bit-zero (suc j) = bit-zero j

ors-zero : (n a : ℕ) → a ≤ n → ors n a 0 ≡ a
ors-zero zero zero h = refl
ors-zero zero (suc a) h = absurd (omega arith)
ors-zero (suc n) zero h = refl
ors-zero (suc n) (suc a) h = omega (arith, ors-zero n (suc a / 2) (omega arith))

ands-zero : (n a : ℕ) → a ≤ n → ands n a 0 ≡ 0
ands-zero zero zero h = refl
ands-zero zero (suc a) h = absurd (omega arith)
ands-zero (suc n) zero h = refl
ands-zero (suc n) (suc a) h = omega (arith, ands-zero n (suc a / 2) (omega arith))

half_pow : (k : ℕ) → 2 ^ suc k / 2 ≡ 2 ^ k
half_pow k = omega (arith, pow-suc 2 k)

even_pow : (k : ℕ) → 2 ^ suc k % 2 ≡ 0
even_pow k = omega (arith, pow-suc 2 k)

zero_suc : (k : ℕ) → (0 == suc k) ≡ false
zero_suc k = ground arith

suc_zero : (j : ℕ) → (suc j == 0) ≡ false
suc_zero j = ground arith

==-suc : (j k : ℕ) → (suc j == suc k) ≡ (j == k)
==-suc j k = ground arith

-- The bits of `1 << k`.
pub bit-pow : (k j : ℕ) → bit j (2 ^ k) ≡ (if j == k then 1 else 0)
bit-pow zero zero = refl
bit-pow zero (suc j) = rw suc_zero (bit-zero j)
bit-pow (suc k) zero = rw zero_suc (even_pow k)
bit-pow (suc k) (suc j) = rw (==-suc, half_pow k) (bit-pow k j)

bit-ors : (n a k j : ℕ) → a ≤ n → bit j (ors n a (2 ^ k)) ≡ (if j == k then 1 else bit j a)
bit-ors zero zero k j h = rw (bit-zero j) (bit-pow k j)
bit-ors zero (suc a) k j h = absurd (omega arith)
bit-ors (suc n) zero k j h = rw (bit-zero j) (bit-pow k j)
bit-ors (suc n) (suc a) zero zero h = omega arith
bit-ors (suc n) (suc a) zero (suc j) h =
    rw suc_zero (ap (bit j) (omega (arith, ors-zero n (suc a / 2) (omega arith))))
bit-ors (suc n) (suc a) (suc k) zero h = rw zero_suc (omega (arith, even_pow k))
bit-ors (suc n) (suc a) (suc k) (suc j) h =
    rw (==-suc, half_pow k, even_pow k)
      (ap (bit j) (omega arith) ∙ bit-ors n (suc a / 2) k j (omega arith))

-- All ones below `w`, but for a zero at `k`.
abbrev hole : ℕ → ℕ → ℕ
hole w k = 2 ^ w - 1 - 2 ^ k

ands_ones : (n a w j : ℕ) → a ≤ n → j < w → bit j (ands n a (2 ^ w - 1)) ≡ bit j a
ands_ones zero zero w j h lt = refl
ands_ones zero (suc a) w j h lt = absurd (omega arith)
ands_ones (suc n) zero w j h lt = refl
ands_ones (suc n) (suc a) zero j h lt = absurd (omega arith)
ands_ones (suc n) (suc a) (suc w) zero h lt = omega (arith, pow-suc 2 w, one-le-pow w 2)
ands_ones (suc n) (suc a) (suc w) (suc j) h lt =
    let half : (2 ^ suc w - 1) / 2 ≡ 2 ^ w - 1 = omega (arith, pow-suc 2 w) in
    rw half (ap (bit j) (omega arith) ∙ ands_ones n (suc a / 2) w j (omega arith) (omega arith))

hole-zero : (w : ℕ) → (hole (suc w) 0 / 2 ≡ 2 ^ w - 1) × (hole (suc w) 0 % 2 ≡ 0)
hole-zero w = omega (arith, pow-suc 2 w, one-le-pow w 2)

hole-suc :
    (w k : ℕ) → k < w → (hole (suc w) (suc k) / 2 ≡ hole w k) × (hole (suc w) (suc k) % 2 ≡ 1)
hole-suc w k lt =
    let below : 2 ^ suc k ≤ 2 ^ w = pow-le-pow_right {n = 2} (omega arith) lt in
    omega (arith, pow-suc 2 w, pow-suc 2 k, one-le-pow k 2)

bit-ands :
    (n a w k j : ℕ)
    → a ≤ n
    → j < w
    → k < w
    → bit j (ands n a (hole w k)) ≡ (if j == k then 0 else bit j a)
bit-ands zero zero w k j h lt lk = rw (bit-zero j) (ground arith)
bit-ands zero (suc a) w k j h lt lk = absurd (omega arith)
bit-ands (suc n) zero w k j h lt lk = rw (bit-zero j) (ground arith)
bit-ands (suc n) (suc a) zero k j h lt lk = absurd (omega arith)
bit-ands (suc n) (suc a) (suc w) zero zero h lt lk = rw ((hole-zero w).1) (omega arith)
bit-ands (suc n) (suc a) (suc w) zero (suc j) h lt lk =
    rw (suc_zero, (hole-zero w).0, (hole-zero w).1)
      (ap (bit j) (omega arith) ∙ ands_ones n (suc a / 2) w j (omega arith) (omega arith))
bit-ands (suc n) (suc a) (suc w) (suc k) zero h lt lk =
    rw (zero_suc, (hole-suc w k (omega arith)).1) (omega arith)
bit-ands (suc n) (suc a) (suc w) (suc k) (suc j) h lt lk =
    rw (==-suc, (hole-suc w k (omega arith)).0, (hole-suc w k (omega arith)).1)
      (ap (bit j) (omega arith)
        ∙ bit-ands n (suc a / 2) w k j (omega arith) (omega arith) (omega arith))

-- `w & (1 << k)` is not 0 exactly if the bit is 1.
ands_test : (n a k : ℕ) → a ≤ n → ands n a (2 ^ k) ≡ bit k a * 2 ^ k
ands_test zero zero k h = rw (bit-zero k) (omega arith)
ands_test zero (suc a) k h = absurd (omega arith)
ands_test (suc n) zero k h = rw (bit-zero k) (omega arith)
ands_test (suc n) (suc a) zero h = omega (arith, ands-zero n (suc a / 2) (omega arith))
ands_test (suc n) (suc a) (suc k) h =
    rw (half_pow k, even_pow k, pow-suc 2 k)
      (omega (arith, ap (λ (t : ℕ). 2 * t) (ands_test n (suc a / 2) k (omega arith))))

pub bit_or-pow : (w k j : ℕ) → bit j (bit_or w (2 ^ k)) ≡ (if j == k then 1 else bit j w)
bit_or-pow w k j = ap (bit j) (bit_or-bitwise w (2 ^ k)) ∙ bit-ors w w k j (omega arith)

-- `w & ~(1 << k)` in a word of `width` bits.
pub bit_and-hole :
    (w width k j : ℕ)
    → j < width
    → k < width
    → bit j (bit_and w (2 ^ width - 1 - 2 ^ k)) ≡ (if j == k then 0 else bit j w)
bit_and-hole w width k j lt lk =
    ap (bit j) (bit_and-bitwise w (hole width k)) ∙ bit-ands w w width k j (omega arith) lt lk

pub bit-lt : (k w : ℕ) → bit k w < 2
bit-lt zero w = omega arith
bit-lt (suc k) w = bit-lt k (w / 2)

flag_times : (x p : ℕ) → x < 2 → 1 ≤ p → (x * p == 0) ≡ (x == 0)
flag_times zero p small pos = rw zero-mul
flag_times (suc zero) p small pos = rw one-mul (ground arith)
flag_times (suc (suc x)) p small pos = absurd (omega arith)

-- `(w & (1 << k)) != 0` is the bit.
pub bit_and-pow : (w k : ℕ) → (bit_and w (2 ^ k) == 0) ≡ (bit k w == 0)
bit_and-pow w k =
    ap (λ x. x == 0) (bit_and-bitwise w (2 ^ k) ∙ ands_test w w k (omega arith))
    ∙ flag_times (bit k w) (2 ^ k) (bit-lt k w) (one-le-pow k 2 (omega arith))

ands-le : (n a b : ℕ) → ands n a b ≤ b
ands-le zero a b = omega arith
ands-le (suc n) zero b = omega arith
ands-le (suc n) (suc a) zero = omega (arith, ands-le n (suc a / 2) 0)
ands-le (suc n) (suc a) (suc b) = omega (arith, ands-le n (suc a / 2) (suc b / 2))

pub bit_and-le : (a b : ℕ) → bit_and a b ≤ b
bit_and-le a b = subst (λ x. x ≤ b) (sym (bit_and-bitwise a b)) (ands-le a a b)
