-- ===== src/Base/Xor.antt =====
-- Exclusive or with a power of two, which turns one digit round.
use Prim.Native.Nat.{
  ℕ, zero, suc, ◌+◌, ◌-◌, ◌*◌, ◌/◌, ◌%◌, ◌^◌, ◌≤◌, ◌<◌, bit_xor, differ, digits, bit_xor-bitwise,
}
use mathlib.Core.Path.{◌≡◌, refl, sym, subst}
use mathlib.Core.Logic.{◌⊎◌, inl, inr}
use native.Mathlib.Omega.{arith}
use native.Mathlib.Nat.{pow-suc}

abbrev xors : ℕ → ℕ → ℕ → ℕ
xors n a b = digits (λ d. d) differ n a b

differ-zero : (x : ℕ) → differ x 0 ≡ x
differ-zero zero = refl
differ-zero (suc x) = refl

differ-one : (x : ℕ) → x < 2 → differ x 1 ≡ 1 - x
differ-one zero lt = refl
differ-one (suc zero) lt = refl
differ-one (suc (suc x)) lt = absurd (omega arith)

xors-zero : (n a : ℕ) → a ≤ n → xors n a 0 ≡ a
xors-zero zero zero h = refl
xors-zero zero (suc a) h = absurd (omega arith)
xors-zero (suc n) zero h = refl
xors-zero (suc n) (suc a) h =
    omega (arith, xors-zero n (suc a / 2) (omega arith), differ-zero (suc a % 2))

-- The two numbers are a power apart.
abbrev pub Apart : ℕ → ℕ → ℕ → Type 0
Apart d a x = (x ≡ a + d) ⊎ (a ≡ x + d)

half_pow : (k : ℕ) → (2 ^ suc k / 2 ≡ 2 ^ k) × (2 ^ suc k % 2 ≡ 0)
half_pow k = omega (arith, pow-suc 2 k)

-- The lowest digit turned, and a higher one.
low : (a q r v w : ℕ) → a ≡ q * 2 + r → r < 2 → v ≡ q → w ≡ 1 - r → Apart 1 a (v * 2 + w)
low a q zero v w e lt same turned = inl (omega arith)
low a q (suc zero) v w e lt same turned = inr (omega arith)
low a q (suc (suc r)) v w e lt same turned = absurd (omega arith)

high : (d a q r v w : ℕ) → a ≡ q * 2 + r → w ≡ r → Apart d q v → Apart (2 * d) a (v * 2 + w)
high d a q r v w e same (inl up) = inl (omega arith)
high d a q r v w e same (inr down) = inr (omega arith)

xors-Apart : (n a k : ℕ) → a ≤ n → Apart (2 ^ k) a (xors n a (2 ^ k))
xors-Apart zero zero k h = inl (omega arith)
xors-Apart zero (suc a) k h = absurd (omega arith)
xors-Apart (suc n) zero k h = inl (omega arith)
xors-Apart (suc n) (suc a) zero h =
    low (suc a) (suc a / 2) (suc a % 2) (xors n (suc a / 2) 0) (differ (suc a % 2) 1) (omega arith)
      (omega arith) (xors-zero n (suc a / 2) (omega arith)) (differ-one (suc a % 2) (omega arith))
xors-Apart (suc n) (suc a) (suc k) h =
    let (half, even) = half_pow k in
    rw (half, even)
      (subst (λ d. Apart d (suc a) (xors n (suc a / 2) (2 ^ k) * 2 + differ (suc a % 2) 0))
        (omega (arith, pow-suc 2 k))
        (high (2 ^ k) (suc a) (suc a / 2) (suc a % 2) (xors n (suc a / 2) (2 ^ k))
          (differ (suc a % 2) 0) (omega arith) (differ-zero (suc a % 2))
          (xors-Apart n (suc a / 2) k (omega arith))))

pub bit_xor-Apart : (a k : ℕ) → Apart (2 ^ k) a (bit_xor a (2 ^ k))
bit_xor-Apart a k =
    subst (Apart (2 ^ k) a) (sym (bit_xor-bitwise a (2 ^ k))) (xors-Apart a a k (omega arith))
