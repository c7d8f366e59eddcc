-- ===== src/Base/Returns.antt =====
-- Reasoning on what a function returns if it does not fault or fail.
use mathlib.Core.Path.{◌≡◌, refl, ap, subst}
use mathlib.Core.Option.{Option, none, some}
use native.Mathlib.Omega.{arith}
use mathlib.Core.Bool.{Bool, true, false}
use rendezv_os.Base.Tests.{if◌then◌else◌}
use rendezv_os.Base.Results.{Result, ok, err, fault, ◌>>=◌, access, ok_injective}

abbrev pub Returns {ℓ} : {A : Type ℓ} → (A → Type 0) → Result A → Type 0
Returns P (ok a) = P a
Returns P (err code) = Unit
Returns P fault = Unit

pub Returns-bind {ℓ κ} :
    {A : Type ℓ} {B : Type κ} (P : B → Type 0) (m : Result A) (f : A → Result B)
    → ((a : A) → m ≡ ok a → Returns P (f a))
    → Returns P (m >>= f)
Returns-bind P (ok a) f all = all a refl
Returns-bind P (err code) f all = tt
Returns-bind P fault f all = tt

pub Returns-ok {ℓ} :
    {A : Type ℓ} (P : A → Type 0) {m : Result A} {a : A} → Returns P m → m ≡ ok a → P a
Returns-ok P all e = subst (Returns P) e all

pub access-some {ℓ} : {A : Type ℓ} (m : Option A) {a : A} → access m ≡ ok a → m ≡ some a
access-some (some b) e = ap some (ok_injective e)
access-some none e = absurd (ground (arith, e))

pub Returns-map {ℓ} :
    {A : Type ℓ} (P Q : A → Type 0) (m : Result A)
    → ((a : A) → P a → Q a)
    → Returns P m
    → Returns Q m
Returns-map P Q (ok a) f all = f a all
Returns-map P Q (err code) f all = tt
Returns-map P Q fault f all = tt

-- The function neither faults nor fails, and has the property.
abbrev pub Gives {ℓ} : {A : Type ℓ} → (A → Type 0) → Result A → Type 0
Gives P (ok a) = P a
Gives P (err code) = ⊥
Gives P fault = ⊥

pub Gives-bind {ℓ κ} :
    {A : Type ℓ} {B : Type κ} (P : A → Type 0) (Q : B → Type 0) (m : Result A) (f : A → Result B)
    → Gives P m
    → ((a : A) → P a → Gives Q (f a))
    → Gives Q (m >>= f)
Gives-bind P Q (ok a) f given all = all a given
Gives-bind P Q (err code) f given all = absurd given
Gives-bind P Q fault f given all = absurd given

pub Gives-ok {ℓ} :
    {A : Type ℓ} (P : A → Type 0) (m : Result A) → Gives P m → (a : A) × (m ≡ ok a) × P a
Gives-ok P (ok a) given = (a, refl, given)
Gives-ok P (err code) given = absurd given
Gives-ok P fault given = absurd given

pub Gives-if {ℓ} :
    {A : Type ℓ} (P : A → Type 0) (t : Bool) (a b : Result A)
    → (t ≡ true → Gives P a)
    → (t ≡ false → Gives P b)
    → Gives P (if t then a else b)
Gives-if P true a b p q = p refl
Gives-if P false a b p q = q refl

pub Gives-map {ℓ} :
    {A : Type ℓ} (P Q : A → Type 0) (m : Result A) → ((a : A) → P a → Q a) → Gives P m → Gives Q m
Gives-map P Q (ok a) f given = f a given
Gives-map P Q (err code) f given = given
Gives-map P Q fault f given = given

pub Gives-Returns {ℓ} :
    {A : Type ℓ} (P Q : A → Type 0) (m : Result A)
    → Gives P m
    → Returns Q m
    → Gives (λ a. P a × Q a) m
Gives-Returns P Q (ok a) given all = (given, all)
Gives-Returns P Q (err code) given all = given
Gives-Returns P Q fault given all = given

pub Gives-both {ℓ} :
    {A : Type ℓ} (P Q : A → Type 0) (m : Result A)
    → Gives P m
    → Gives Q m
    → Gives (λ a. P a × Q a) m
Gives-both P Q (ok a) given given' = (given, given')
Gives-both P Q (err code) given given' = given
Gives-both P Q fault given given' = given
