-- ===== src/Mm/Buddy/Log.antt =====
-- `log2_of_next_power_of_two` of include/common/mm.h rounds up to a power of two.
use native.Mathlib.Nat.{
  one-mul, pow-suc, mul_assoc, mul-le-mul_left, mul_comm, one-le-pow, mul-le-mul_right,
  pow-le-pow_right, mul-div-le, lt-mul-div-succ,
}
use native.Mathlib.Decide.{dec_le}
use rendezv_os.Base.{
  subst, ℕ, zero, suc, ◌+◌, ◌-◌, ◌*◌, ◌/◌, ◌^◌, ◌≤◌, ◌<◌, ◌≡◌, refl, ap, sym, ◌∙◌, inl, inr,
  Bool-cases, false, ◌==◌, arith,
}
use rendezv_os.Mm.Buddy.{log_step, log_sum, log2_of_next_power_of_two}

-- The loop's pair splits `m` at a power of two: `n` is `m >> exponent`, and it is 0 only if `m` is.
record Shifted (m : ℕ) (p : ℕ × ℕ) : Type 0 where
  low : p.1 * 2 ^ p.0 ≤ m
  high : m < (p.1 + 1) * 2 ^ p.0
  alive : 1 ≤ m → 1 ≤ p.1
  idle : p.1 ≡ 0 → p.0 ≡ 0

plus_suc : (e s : ℕ) → e + suc s ≡ suc (e + s)
plus_suc e s = omega arith

pow-add : (e s : ℕ) → 2 ^ (e + s) ≡ 2 ^ s * 2 ^ e
pow-add e zero = let same : e + 0 ≡ e = omega arith in rw same (sym (one-mul (2 ^ e)))
pow-add e (suc s) =
    ap (λ t. 2 ^ t) (plus_suc e s)
    ∙ pow-suc 2 (e + s)
    ∙ ap (λ t. t * 2) (pow-add e s)
    ∙ mul_assoc (2 ^ s) (2 ^ e) 2
    ∙ ap (λ t. 2 ^ s * t) (mul_comm (2 ^ e) 2)
    ∙ sym (mul_assoc (2 ^ s) 2 (2 ^ e))
    ∙ ap (λ t. t * 2 ^ e) (sym (pow-suc 2 s))

-- A multiple of the longer power is one of the shorter.
regroup : (q e s : ℕ) → q * 2 ^ (e + s) ≡ 2 ^ s * q * 2 ^ e
regroup q e s =
    ap (λ t. q * t) (pow-add e s)
    ∙ sym (mul_assoc q (2 ^ s) (2 ^ e))
    ∙ ap (λ t. t * 2 ^ e) (mul_comm q (2 ^ s))

log_step-Shifted : (s m : ℕ) (p : ℕ × ℕ) → Shifted m p → Shifted m (log_step s p)
unfolding log_step
log_step-Shifted s m (e, n) h = elim (Bool-cases (n / 2 ^ s == 0)) [
  | inl none_left ↦ rw none_left h
  | inr some_left ↦
      let below : 2 ^ s * (n / 2 ^ s) * 2 ^ e ≤ n * 2 ^ e =
        mul-le-mul_right (2 ^ e) (mul-div-le n (2 ^ s)) in
      let over : n < 2 ^ s * (n / 2 ^ s + 1) = lt-mul-div-succ n (one-le-pow s 2 (omega arith)) in
      let above : (n + 1) * 2 ^ e ≤ 2 ^ s * (n / 2 ^ s + 1) * 2 ^ e =
        mul-le-mul_right (2 ^ e) (omega arith) in
      rw some_left (record {
        low = omega (arith, below, regroup (n / 2 ^ s) e s, h.low);
        high = omega (arith, above, regroup (n / 2 ^ s + 1) e s, h.high);
        alive = λ pos. ground (arith, some_left);
        idle = λ z. absurd (ground (arith, some_left, z));
      })
]

quotient-lt : (s n : ℕ) → n < 2 ^ s * 2 ^ s → n / 2 ^ s < 2 ^ s
quotient-lt s n small = elim (dec_le (2 ^ s) (n / 2 ^ s)) [
  | yes large ↦ absurd (omega (arith, mul-le-mul_left (2 ^ s) large, mul-div-le n (2 ^ s)))
  | no small' ↦ omega arith
]

log_step-lt : (s : ℕ) (p : ℕ × ℕ) → p.1 < 2 ^ s * 2 ^ s → (log_step s p).1 < 2 ^ s
unfolding log_step
log_step-lt s (e, n) small = elim (Bool-cases (n / 2 ^ s == 0)) [
  | inl none_left ↦
      let gone : n / 2 ^ s ≡ 0 = ground (arith, none_left) in
      let over : n < 2 ^ s * (n / 2 ^ s + 1) = lt-mul-div-succ n (one-le-pow s 2 (omega arith)) in
      rw none_left (omega (arith, subst (λ q. n < 2 ^ s * (q + 1)) gone over))
  | inr some_left ↦ rw some_left (quotient-lt s n small)
]

Least : ℕ → ℕ → Type 0
Least n e = (n ≤ 2 ^ e) × ((k : ℕ) → n ≤ 2 ^ k → e ≤ k)

least : (m e x : ℕ) → Shifted m (e, x) → x < 2 → Least (m + 1) (e + x)
unfolding Least
least m e zero h small =
    let none_set : m ≡ 0 = elim (dec_le 1 m) [
      | yes some_set ↦ absurd (omega (arith, h.alive some_set))
      | no unset ↦ omega arith
    ] in
    (omega (arith, one-le-pow (e + 0) 2 (omega arith)), λ k le. omega (arith, h.idle refl))
least m e (suc zero) h small =
    let next : e + 1 ≡ suc e = omega arith in
    rw next (
      omega (arith, pow-suc 2 e, h.high),
      λ k le. elim (dec_le (suc e) k) [
        | yes fits ↦ fits
        | no short ↦
            let power : 2 ^ k ≤ 2 ^ e = pow-le-pow_right {n = 2} (omega arith) (omega arith) in
            absurd (omega (arith, h.low, power, le))
      ],
    )
least m e (suc (suc x)) h small = absurd (omega arith)

log_sum-Least : (m : ℕ) (p : ℕ × ℕ) → Shifted m p → p.1 < 2 → Least (m + 1) (log_sum p)
unfolding log_sum
log_sum-Least m (e, x) = least m e x

stage :
    (s m : ℕ) (p : ℕ × ℕ)
    → Shifted m p
    → p.1 < 2 ^ s * 2 ^ s
    → Shifted m (log_step s p) × ((log_step s p).1 < 2 ^ s)
stage s m p is small = (log_step-Shifted s m p is, log_step-lt s p small)

abbrev rounds : ℕ → ℕ × ℕ
rounds n = log_step 1 (log_step 2 (log_step 4 (log_step 8 (log_step 16 (0, n - 1)))))

-- The result is the least exponent whose power is no smaller than a 32-bit number from 1 on.
pub log2_of_next_power_of_two-least :
    (n : ℕ)
    → 1 ≤ n
    → n < 2 ^ 32
    → (n ≤ 2 ^ log2_of_next_power_of_two n)
      × ((k : ℕ) → n ≤ 2 ^ k → log2_of_next_power_of_two n ≤ k)
unfolding log2_of_next_power_of_two Least
log2_of_next_power_of_two-least n pos small =
    let is : Shifted (n - 1) (0, n - 1) = record {
      low = omega arith;
      high = omega arith;
      alive = λ some_set. omega arith;
      idle = λ z. refl;
    } in
    let (is16, lt16) = stage 16 (n - 1) _ is (omega arith) in
    let (is8, lt8) = stage 8 (n - 1) _ is16 (omega arith) in
    let (is4, lt4) = stage 4 (n - 1) _ is8 (omega arith) in
    let (is2, lt2) = stage 2 (n - 1) _ is4 (omega arith) in
    let (is1, lt1) = stage 1 (n - 1) _ is2 (omega arith) in
    let positive : (n == 0) ≡ false = ground (arith, pos) in
    let back : n - 1 + 1 ≡ n = omega arith in
    rw positive
      (subst (λ k. Least k (log_sum (rounds n))) back (log_sum-Least (n - 1) (rounds n) is1 lt1))
