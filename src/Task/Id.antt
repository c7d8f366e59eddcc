-- ===== src/Task/Id.antt =====
-- kernel/task/id.c: numbers for threads, which stop at INVALID_ID. A call runs under the manager's
-- lock, and is one step. A manager that is NULL is `none`.
use rendezv_os.Base.{
  ℕ, zero, suc, ◌+◌, ◌-◌, ◌%◌, ◌^◌, ◌<◌, ◌≡◌, ◌≢◌, refl, ap, ◌∙◌, Bool, true, false, Option, none,
  some, ◌==◌, if◌then◌else◌, arith, min,
}

abbrev pub invalid_id : ℕ
invalid_id = 2 ^ 64 - 1

pub record IdManager : Type 0 where
  pub id : ℕ

unfoldable pub init_id_manager : Option IdManager → Option IdManager
init_id_manager none = none
init_id_manager (some idmng) = some (record { id = 0 })

unfoldable pub get_new_id : Option IdManager → ℕ × Option IdManager
get_new_id none = (invalid_id, none)
get_new_id (some idmng) = (
  idmng.id,
  some (if idmng.id == invalid_id then idmng else record { id = (idmng.id + 1) % 2 ^ 64 }),
)

-- The manager after a number of calls.
abbrev pub after_calls : ℕ → Option IdManager → Option IdManager
after_calls zero m = m
after_calls (suc n) m = (get_new_id (after_calls n m)).1

next_id :
    (n : ℕ)
    → (if min n invalid_id == invalid_id then min n invalid_id else (min n invalid_id + 1) % 2 ^ 64)
      ≡ min (suc n) invalid_id
next_id n = ground arith

abbrev manager : ℕ → IdManager
manager n = record { id = n }

manager-if :
    (t : Bool) (a b : ℕ) → (if t then manager a else manager b) ≡ manager (if t then a else b)
manager-if true a b = refl
manager-if false a b = refl

module _ (start : IdManager) where
  calls : (n : ℕ) → after_calls n (init_id_manager (some start)) ≡ some (manager (min n invalid_id))
  unfolding init_id_manager get_new_id
  calls zero = refl
  calls (suc n) =
      ap (λ m. (get_new_id m).1) (calls n)
      ∙ ap some (
          manager-if (min n invalid_id == invalid_id) (min n invalid_id) _ ∙ ap manager (next_id n))

  abbrev nth_id : ℕ → ℕ
  nth_id n = (get_new_id (after_calls n (init_id_manager (some start)))).0

  nth_id-min : (n : ℕ) → nth_id n ≡ min n invalid_id
  unfolding get_new_id
  nth_id-min n = ap (λ m. (get_new_id m).0) (calls n)

  -- After `init_id_manager`, the first 2^64 - 1 calls of `get_new_id` return ids that no later call
  -- returns, and none of them is INVALID_ID.
  pub get_new_id-distinct :
      (i j : ℕ)
      → i < j
      → i < invalid_id
      → ((get_new_id (after_calls i (init_id_manager (some start)))).0
          ≢ (get_new_id (after_calls j (init_id_manager (some start)))).0)
        × ((get_new_id (after_calls i (init_id_manager (some start)))).0 ≢ invalid_id)
  get_new_id-distinct i j lt small =
      (λ e. omega (arith, e, nth_id-min i, nth_id-min j), λ e. omega (arith, e, nth_id-min i))
