-- ===== src/Base/Memory.antt =====
-- A memory split at a position: what `load`, `store` and an index there give.
use Prim.Native.Nat.{ℕ, zero, suc, ◌+◌, ◌≤◌, ◌<◌}
use mathlib.Core.Path.{◌≡◌, refl, ap}
use mathlib.Core.Bool.{true, false}
use mathlib.Core.List.{List, [], ◌∷◌, ◌++◌, append_assoc}
use mathlib.Core.Option.{none, some}
use native.Mathlib.Omega.{arith}
use rendezv_os.Base.Tests.{leb}
use rendezv_os.Base.Lists.{length, get_elem?, take, drop, length-append, take-append, drop-append}
use rendezv_os.Base.Bytes.{load, store}

pub le→leb : (a b : ℕ) → a ≤ b → leb a b ≡ true
le→leb a b h = ground arith

pub gt→leb : (a b : ℕ) → b < a → leb a b ≡ false
gt→leb a b h = ground arith

module _ {ℓ} {A : Type ℓ} where
  pub drop-append_add :
      (xs ys : List A) (k n : ℕ) → n ≡ length xs + k → drop n (xs ++ ys) ≡ drop k ys
  drop-append_add [] ys k n h = ap (λ m. drop m ys) (omega arith)
  drop-append_add (x ∷ xs) ys k zero h = absurd (omega arith)
  drop-append_add (x ∷ xs) ys k (suc n) h = drop-append_add xs ys k n (omega arith)

pub store-append :
    (pre rest src : List ℕ) (off : ℕ)
    → off ≡ length pre
    → length src ≤ length rest
    → store (pre ++ rest) off src ≡ some ((pre ++ src) ++ drop (length src) rest)
store-append pre rest src off h fits = rw (
  le→leb (off + length src) (length (pre ++ rest)) (omega (arith, length-append {0} pre rest)),
  take-append off pre rest h,
  drop-append_add pre rest (length src) (off + length src) (omega arith),
  append_assoc,
)

pub load-append :
    (pre src rest : List ℕ) (off n : ℕ)
    → off ≡ length pre
    → n ≡ length src
    → load (pre ++ (src ++ rest)) off n ≡ some src
load-append pre src rest off n h k = rw (
  le→leb (off + n) (length (pre ++ (src ++ rest)))
      (omega (arith, length-append {0} pre (src ++ rest), length-append {0} src rest)),
  drop-append off pre (src ++ rest) h,
  take-append n src rest k,
)

pub load-some :
    (base : List ℕ) (off n : ℕ)
    → off + n ≤ length base
    → (bs : List ℕ) × (load base off n ≡ some bs)
load-some base off n fits = (take n (drop off base), rw (le→leb (off + n) (length base) fits))

module _ {ℓ} {A : Type ℓ} where
  pub get_elem?-none : (xs : List A) (n : ℕ) → length xs ≤ n → get_elem? xs n ≡ none
  get_elem?-none [] n h = refl
  get_elem?-none (x ∷ xs) zero h = absurd (omega arith)
  get_elem?-none (x ∷ xs) (suc n) h = get_elem?-none xs n (omega arith)
