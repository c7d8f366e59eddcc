-- ===== src/Registry/NameIndex/Lifecycle.antt =====
-- What `name_index_register` and `name_index_unregister` leave in the rows, on success and on error.
use mathlib.Core.Option.{some-injective}
use rendezv_os.Base.{
  ℕ, zero, suc, ◌+◌, ◌-◌, ◌^◌, ◌<◌, ◌≡◌, refl, ap, sym, ◌∙◌, true, lt→ltb, ◌==◌, some, List, [],
  ◌∷◌, get_elem?, set, length, get_elem?-set_self, arith,
}
use rendezv_os.Base.{ok, access}
use rendezv_os.Base.Returns.{Returns, Returns-bind, Returns-ok, access-some}
use rendezv_os.Kalloc.{Answers}
use rendezv_os.Registry.NameIndex.{u64, Row, NameIndex, Hooks, Status, success, failed}
use rendezv_os.Registry.NameIndex.Table.{ht_insert}
use rendezv_os.Registry.NameIndex.Calls.{
  Registered, registered, refused, insert_calls, taken, inserted, put_back, register_in,
  register_row, dec_live,
}
use rendezv_os.Registry.NameIndex.RowSpec.{RowTaken, taken-RowTaken, Called, run_hook-Called}
use rendezv_os.Registry.NameIndex.Keep.{SameRows, Kept, ht_insert-Kept}

set-set {ℓ} : {A : Type ℓ} (xs : List A) (i : ℕ) (a b : A) → set (set xs i a) i b ≡ set xs i b
set-set [] i a b = refl
set-set (x ∷ xs) zero a b = refl
set-set (x ∷ xs) (suc i) a b = ap (λ ys. x ∷ ys) (set-set xs i a b)

set_same {ℓ} :
    {A : Type ℓ} (xs : List A) (i : ℕ) (a : A) → get_elem? xs i ≡ some a → set xs i a ≡ xs
set_same [] i a e = refl
set_same (x ∷ xs) zero a e = ap (λ y. y ∷ xs) (sym (some-injective x a e))
set_same (x ∷ xs) (suc i) a e = ap (λ ys. x ∷ ys) (set_same xs i a e)

pub get_elem?-lt {ℓ} :
    {A : Type ℓ} (xs : List A) (i : ℕ) {a : A} → get_elem? xs i ≡ some a → i < length xs
get_elem?-lt [] i e = absurd (ground (arith, e))
get_elem?-lt (x ∷ xs) zero e = omega arith
get_elem?-lt (x ∷ xs) (suc i) e = omega (arith, get_elem?-lt xs i e)

free_again :
    (q r : Row) → q.gen ≡ r.gen → r.used ≡ 0 → record q { used = 0; storage = r.storage } ≡ r
free_again q r g u = ground (arith, g, u)

-- Taking a free row and putting it back.
rolled_back :
    (xs : List Row) (i value : ℕ) (r q : Row)
    → get_elem? xs i ≡ some r
    → r.used ≡ 0
    → get_elem? (set xs i (record r { storage = value; used = 1 })) i ≡ some q
    → set
        (set xs i (record r { storage = value; used = 1 }))
        i
        (record q { used = 0; storage = r.storage })
      ≡ xs
rolled_back xs i value r q at free got =
    let is : record r { storage = value; used = 1 } ≡ q =
      some-injective _ _ (sym (get_elem?-set_self xs i _ (get_elem?-lt xs i at)) ∙ got) in
    rw (free_again q r (sym (ap (λ (z : Row). z.gen) is)) free, set-set) (set_same xs i r at)

live_back : (n : ℕ) → n < 2 ^ 64 - 1 → dec_live (u64 (n + 1)) ≡ n
live_back n small = ground arith

module _ {W : Type 0} (hooks : Hooks W) (answers : Answers) (idx : NameIndex) (value : ℕ)
    (w : W) where
  -- A registration fills the first free row and runs its hook, or leaves rows, free list, count and
  -- world.
  abbrev pub Outcome : Row → Registered W → Type 0
  Outcome r (registered i idx' w') =
      (i ≡ idx.free_head) × RowTaken idx value r idx' × Called (hooks.on_register) value w w'
  Outcome r (refused code idx' w') = SameRows idx idx' × (w' ≡ w)

  module _ (r : Row) (at : get_elem? (idx.rows) (idx.free_head) ≡ some r) (free : r.used ≡ 0)
      (small : idx.live < 2 ^ 64 - 1) where
    full : NameIndex
    full = taken idx (idx.free_head) value r

    restored :
        (mid : NameIndex) (q : Row)
        → SameRows full mid
        → get_elem? (mid.rows) (idx.free_head) ≡ some q
        → SameRows idx (put_back mid (idx.free_head) q)
    unfolding full
    restored mid q same got = record {
      same_rows =
          rw (same.same_rows, same.same_head)
            (rolled_back (idx.rows) (idx.free_head) value r q at free
              (sym (ap (λ rs. get_elem? rs (idx.free_head)) (same.same_rows)) ∙ got));
      same_cap = same.same_cap;
      same_head = refl;
      same_live = rw (same.same_live) (live_back (idx.live) small);
      same_len = same.same_len;
    }

    inserted-Outcome :
        (p : Status × NameIndex)
        → Kept full p
        → Returns (Outcome r) (inserted hooks answers (idx.free_head) value w p)
    unfolding full
    inserted-Outcome (success, mid) kept = (
      refl,
      taken-RowTaken idx value r (get_elem?-lt (idx.rows) (idx.free_head) at) small kept,
      run_hook-Called (hooks.on_register) value w,
    )
    inserted-Outcome (failed code, mid) kept =
        Returns-bind (Outcome r) (access (get_elem? (mid.rows) (idx.free_head))) _
          (λ q got. (restored mid q kept (access-some _ got), refl))

    register_in-Outcome :
        (name : List ℕ) → Returns (Outcome r) (register_in hooks answers idx value name w r)
    unfolding register_in full
    register_in-Outcome name =
        let is_free : (r.used == 0) ≡ true = ground (arith, free) in
        rw is_free (
          Returns-bind (Outcome r)
            (ht_insert (hooks.get_name) answers insert_calls full (idx.free_head) name) _
            (λ p run. inserted-Outcome p (
              Returns-ok (Kept full)
                (ht_insert-Kept (hooks.get_name) answers insert_calls full (idx.free_head) name)
                run)))

    -- With a free row at the head of the free list: a registration that succeeds returns that row,
    -- has put the value in it and run the hook once; one that is refused leaves rows, free list,
    -- live count and the world as they were.
    pub register_row-Outcome :
        (name : List ℕ) {result : Registered W}
        → idx.free_head < idx.row_cap
        → register_row hooks answers idx value name w ≡ ok result
        → Outcome r result
    unfolding register_row
    register_row-Outcome name below run =
        Returns-ok (Outcome r)
          (rw (lt→ltb (idx.free_head) (idx.row_cap) below, at) (register_in-Outcome name)) run
