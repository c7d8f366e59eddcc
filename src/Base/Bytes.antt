-- ===== src/Base/Bytes.antt =====
-- Bytes in memory: little-endian words, and reads and writes with `memcpy` through an offset.
-- Both targets (x86_64, aarch64) are little-endian.
use Prim.Native.Nat.{ℕ, zero, suc, ◌+◌, ◌*◌, ◌/◌, ◌%◌, ◌^◌, ◌<◌}
use mathlib.Core.Path.{◌≡◌, refl, ap}
use mathlib.Core.List.{List, [], ◌∷◌, ◌++◌}
use mathlib.Core.Option.{Option, none, some}
use native.Mathlib.Omega.{arith}
use native.Mathlib.Nat.{pow-suc, pow-zero}
use rendezv_os.Base.Tests.{leb, if◌then◌else◌}
use rendezv_os.Base.Lists.{length, take, drop}

abbrev pub u32 : ℕ → ℕ
u32 n = n % 2 ^ 32

-- The `n` bytes of the word `v`, lowest first.
abbrev pub bytes_of : ℕ → ℕ → List ℕ
bytes_of zero v = []
bytes_of (suc n) v = (v % 256) ∷ bytes_of n (v / 256)

abbrev pub of_bytes : List ℕ → ℕ
of_bytes [] = 0
of_bytes (b ∷ bs) = b + 256 * of_bytes bs

-- `memcpy(dst, base + off, n)`: `none` if that reads past the end.
abbrev pub load : List ℕ → ℕ → ℕ → Option (List ℕ)
load base off n = if leb (off + n) (length base) then some (take n (drop off base)) else none

-- `memcpy(base + off, src, n)` with `n` the length of `src`: `none` if that writes past the end.
abbrev pub store : List ℕ → ℕ → List ℕ → Option (List ℕ)
store base off src =
    if leb (off + length src) (length base)
    then some (take off base ++ (src ++ drop (off + length src) base))
    else none

pub length-bytes_of : (n v : ℕ) → length (bytes_of n v) ≡ n
length-bytes_of zero v = refl
length-bytes_of (suc n) v = ap suc (length-bytes_of n (v / 256))

pub of_bytes-bytes_of : (n v : ℕ) → v < 256 ^ n → of_bytes (bytes_of n v) ≡ v
of_bytes-bytes_of zero v h = omega (arith, pow-zero 256)
of_bytes-bytes_of (suc n) v h =
    omega (arith, of_bytes-bytes_of n (v / 256) (omega (arith, pow-suc 256 n)))
