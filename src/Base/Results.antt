-- ===== src/Base/Results.antt =====
-- What a kernel function ends with: a result, an error code (include/rendezvos/error.h), or a fault,
-- which is a memory access out of bounds or another use that C leaves undefined.
use mathlib.Core.Path.{◌≡◌, ap}
use mathlib.Core.Bool.{Bool, true, false}
use mathlib.Core.Option.{Option, none, some}

-- `enum Error_t`: the codes of which the callers return the negation.
pub data Error : Type 0 where
  e_rendezvos e_in_param e_rend_test e_rend_ipc e_rend_again e_rend_abandon e_rend_no_msg : Error
  e_rend_rc_unequal e_rend_nofound e_rend_overflow e_rend_no_mem e_rend_port_closed : Error

pub data Result {ℓ} (A : Type ℓ) : Type ℓ where
  ok : A → Result A
  err : Error → Result A
  fault : Result A

-- An error or a fault ends the function.
infixl 5 ◌>>=◌ ◌>>◌
abbrev pub ◌>>=◌ {ℓ κ} : {A : Type ℓ} {B : Type κ} → Result A → (A → Result B) → Result B
fault >>= next = fault
err code >>= next = err code
ok value >>= next = next value

abbrev pub ◌>>◌ {ℓ} : {B : Type ℓ} → Result (Unit {0}) → Result B → Result B
first >> second = first >>= λ done. second

-- `if (!b) return -code;`
abbrev pub guard : Bool → Error → Result (Unit {0})
guard false code = err code
guard true code = ok tt

-- A memory access: out of bounds is a fault.
abbrev pub access {ℓ} : {A : Type ℓ} → Option A → Result A
access none = fault
access (some a) = ok a

value {ℓ} : {A : Type ℓ} → A → Result A → A
value d (ok a) = a
value d (err code) = d
value d fault = d

pub ok_injective {ℓ} : {A : Type ℓ} {a b : A} → ok a ≡ ok b → a ≡ b
unfolding value
ok_injective {a = a} e = ap (value a) e
