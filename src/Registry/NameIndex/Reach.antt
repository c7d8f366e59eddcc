-- ===== src/Registry/NameIndex/Reach.antt =====
-- kernel/registry/name_index.c over any sequence of calls after `name_index_init`.
use rendezv_os.Base.{
  ℕ, ◌-◌, ◌^◌, ◌<◌, ◌≡◌, ◌≢◌, sym, ◌∙◌, false, Option, some, List, ◌∷◌, ◌==◌, get_elem?, subst,
  arith,
}
use rendezv_os.Base.{ok, ok_injective}
use rendezv_os.Base.Returns.{Gives, Gives-ok}
use rendezv_os.Kalloc.{Kalloc, Answers}
use rendezv_os.Registry.NameIndex.{NameIndex, Row, Hooks, free_head_invalid}
use rendezv_os.Registry.NameIndex.Table.{bootstrap, name_of}
use rendezv_os.Registry.NameIndex.Calls.{Registered, init, register, register_row, unregister}
use rendezv_os.Registry.NameIndex.Total.{IsIndex}
use rendezv_os.Registry.NameIndex.Register.{Whole, index_of, register-Whole, register_row-Whole}
use rendezv_os.Registry.NameIndex.Stale.{unregister-IsIndex}
use rendezv_os.Registry.NameIndex.Boot.{init-IsIndex}
use rendezv_os.Registry.NameIndex.Lifecycle.{get_elem?-lt, Outcome, register_row-Outcome}

module _ {W : Type 0} (hooks : Hooks W) (answers : Answers) where
  -- The indexes that calls reach, each call with any world.
  pub data Reached : NameIndex → Type 0 where
    start :
        (name_len_max : ℕ) (heap : Kalloc) {idx : NameIndex}
        → init hooks answers name_len_max heap ≡ ok idx
        → Reached idx
    after_register :
        {idx : NameIndex} (value : ℕ) (w : W) (result : Registered W)
        → Reached idx
        → register hooks answers idx value w ≡ ok result
        → Reached (index_of result)
    after_unregister :
        {idx : NameIndex} (value i : ℕ) (name : Option (List ℕ)) (w : W) (p : NameIndex × W)
        → Reached idx
        → unregister hooks answers idx value i name w ≡ ok p
        → Reached (p.0)

  Reached-IsIndex : {idx : NameIndex} → Reached idx → IsIndex idx
  Reached-IsIndex (start name_len_max heap {idx} run) =
      let (idx0, run0, is0) = init-IsIndex hooks answers name_len_max heap in
      subst IsIndex (ok_injective (sym run0 ∙ run)) is0
  Reached-IsIndex (after_register {idx} value w result before run) =
      subst (Gives Whole) run (register-Whole hooks answers idx value w (Reached-IsIndex before))
  Reached-IsIndex (after_unregister {idx} value i name w p before run) =
      subst (Gives (λ (q : NameIndex × W). IsIndex (q.0))) run
        (unregister-IsIndex hooks answers idx value i name w (Reached-IsIndex before))

  -- After `name_index_init` and any calls of `name_index_register` and `name_index_unregister`,
  -- whatever the allocator answered, each further call of these returns: no access leaves an array,
  -- and the insertion into the table ends.
  pub Reached-total :
      {idx : NameIndex} (value i : ℕ) (name : Option (List ℕ)) (w : W)
      → Reached idx
      → ((result : Registered W) × (register hooks answers idx value w ≡ ok result))
        × ((p : NameIndex × W) × (unregister hooks answers idx value i name w ≡ ok p))
  Reached-total {idx} value i name w before =
      let is = Reached-IsIndex before in
      let (result, run, whole) =
        Gives-ok Whole (register hooks answers idx value w)
          (register-Whole hooks answers idx value w is) in
      let (p, run', whole') =
        Gives-ok (λ (q : NameIndex × W). IsIndex (q.0))
          (unregister hooks answers idx value i name w)
          (unregister-IsIndex hooks answers idx value i name w is) in
      ((result, run), (p, run'))

  register-register_row :
      (idx : NameIndex) (value c : ℕ) (cs : List ℕ) (w : W)
      → name_of (hooks.get_name) value ≡ some (c ∷ cs)
      → (value == 0) ≡ false
      → (idx.row_cap == 0) ≡ false
      → (idx.free_head == free_head_invalid) ≡ false
      → register hooks answers idx value w ≡ register_row hooks answers idx value (c ∷ cs) w
  unfolding register bootstrap
  register-register_row idx value c cs w named e1 e2 e3 = rw (register, named, e1, e2, e3)

  -- In an index whose arrays have their sizes, with a free row at the head of the free list, a capacity below
  -- the mark of an empty free list and less than 2^64 - 1 live rows, `name_index_register` of a value that is
  -- not NULL and whose name is not empty returns. Either it succeeds with that row, which has the value and
  -- its old generation and is in use; the next free row is the head, one more row is live, every other row
  -- stays, and the hook, unless it is NULL, was called once. Or it returns an error, with rows, free list,
  -- count and world as before.
  pub register-Outcome :
      {idx : NameIndex} (value c : ℕ) (cs : List ℕ) (w : W) (r : Row)
      → IsIndex idx
      → get_elem? (idx.rows) (idx.free_head) ≡ some r
      → r.used ≡ 0
      → idx.live < 2 ^ 64 - 1
      → idx.row_cap < free_head_invalid
      → value ≢ 0
      → name_of (hooks.get_name) value ≡ some (c ∷ cs)
      → (result : Registered W) × (register hooks answers idx value w ≡ ok result)
        × Outcome hooks answers idx value w r result
  register-Outcome {idx} value c cs w r is at free small cap_small ne named =
      let below : idx.free_head < idx.row_cap =
        omega (arith, is.rows_sized, get_elem?-lt (idx.rows) (idx.free_head) at) in
      let (result, run, whole) =
        Gives-ok Whole (register_row hooks answers idx value (c ∷ cs) w)
          (register_row-Whole hooks answers idx value (c ∷ cs) w is) in
      let same =
        register-register_row idx value c cs w named (ground (arith, ne)) (ground (arith, below))
          (ground (arith, below, cap_small)) in
      (
        result,
        same ∙ run,
        register_row-Outcome hooks answers idx value w r at free small (c ∷ cs) below run,
      )
