-- ===== src/Registry/NameIndex/Register.antt =====
-- `name_index_register` always returns an index whose arrays have their sizes.
use rendezv_os.Base.{
  ℕ, zero, suc, ◌+◌, ◌*◌, ◌-◌, ◌/◌, ◌^◌, ◌≤◌, ◌<◌, ◌≡◌, refl, ap, ◌∙◌, Bool, false, ltb, ◌==◌, ◌||◌,
  ◌&&◌, not, Option, none, some, List, if◌then◌else◌, get_elem?, set, length, length-set,
  length-append, length-take, take, arith,
}
use rendezv_os.Base.{Result, ok, err, fault, ◌>>=◌, access, e_in_param}
use rendezv_os.Base.Returns.{Gives, Gives-bind, Gives-if, Gives-Returns}
use rendezv_os.Kalloc.{Kalloc, Answers, m_alloc}
use rendezv_os.Registry.NameIndex.{
  u64, Row, NameIndex, Hooks, Status, success, failed, ht_initial_cap, rows_initial_cap,
  free_head_invalid,
}
use rendezv_os.Registry.NameIndex.Table.{
  ht_insert, grow_row_array, grow_into, grow_from, free_rows, bootstrap, and_then, name_of,
}
use rendezv_os.Registry.NameIndex.Calls.{
  Registered, registered, refused, taken, inserted, insert_calls, register_in, register_row,
  with_free_row, prepared, register, is_empty,
}
use rendezv_os.Registry.NameIndex.Total.{IsIndex, Any, access-Gives}
use rendezv_os.Registry.NameIndex.Resize.{Left, ht_rehash-IsIndex}
use rendezv_os.Registry.NameIndex.Insert.{ht_insert-total}
use rendezv_os.Registry.NameIndex.Keep.{Kept, ht_insert-Kept}

length-free_rows : (n i tail : ℕ) → length (free_rows n i tail) ≡ n
length-free_rows zero i tail = refl
length-free_rows (suc zero) i tail = refl
length-free_rows (suc (suc n)) i tail = ap suc (length-free_rows (suc n) (i + 1) tail)

fits :
    (old cells : ℕ) (huge : Bool) → (not (old == 0) && ltb cells old || huge) ≡ false → old ≤ cells
fits old cells huge e = ground (arith, e)

-- Rows of another length, with the capacity that goes with it.
resized_rows :
    (idx : NameIndex) (rows : List Row) (cells head : ℕ) (h : Kalloc)
    → IsIndex idx
    → length rows ≡ cells
    → IsIndex (record idx { rows = rows; row_cap = cells; free_head = head; heap = h })
resized_rows idx rows cells head h is sized = record {
  rows_sized = sized;
  table_sized = is.table_sized;
  mask_below = is.mask_below;
  table_small = is.table_small;
}

module _ (get_name : Option (ℕ → Option (List ℕ))) (answers : Answers) where
  grow_from-IsIndex :
      (idx : NameIndex) (old new_cap : ℕ) (h : Kalloc)
      → IsIndex idx
      → idx.row_cap ≡ old
      → old ≤ new_cap
      → Gives Left (grow_from get_name answers idx old new_cap h)
  grow_from-IsIndex idx zero new_cap h is e le =
      resized_rows idx _ new_cap 0 h is (length-free_rows new_cap 0 free_head_invalid)
  grow_from-IsIndex idx (suc old) new_cap h is e le =
      Gives-if Left (ltb (length (idx.rows)) (suc old)) fault _
        (λ short. absurd (ground (arith, short, is.rows_sized, e)))
        (λ long. resized_rows idx _ new_cap (suc old) _ is (
          omega (
            arith,
            length-append {0} (take (suc old) (idx.rows))
                (free_rows (new_cap - suc old) (suc old) (idx.free_head)),
            length-take {0} (suc old) (idx.rows),
            length-free_rows (new_cap - suc old) (suc old) (idx.free_head),
            is.rows_sized,
            e,
          )))

  grow_into-IsIndex :
      (idx : NameIndex) (new_cap : ℕ) (p : Option (List ℕ) × Kalloc)
      → IsIndex idx
      → idx.row_cap ≤ new_cap
      → Gives Left (grow_into get_name answers idx new_cap p)
  grow_into-IsIndex idx new_cap (none, h) is le = record {
    rows_sized = is.rows_sized;
    table_sized = is.table_sized;
    mask_below = is.mask_below;
    table_small = is.table_small;
  }
  grow_into-IsIndex idx new_cap (some mem, h) is le =
      grow_from-IsIndex idx (idx.row_cap) new_cap h is refl le

  and_then-Left :
      (m : Result (Status × NameIndex)) (f : NameIndex → Result (Status × NameIndex))
      → Gives Left m
      → ((idx : NameIndex) → IsIndex idx → Gives Left (f idx))
      → Gives Left (and_then m f)
  and_then-Left (ok (success, idx)) f given next = next idx given
  and_then-Left (ok (failed code, idx)) f given next = given
  and_then-Left (err code) f given next = given
  and_then-Left fault f given next = given

  grow_row_array-IsIndex :
      (idx : NameIndex) → IsIndex idx → Gives Left (grow_row_array get_name answers idx)
  unfolding grow_row_array
  grow_row_array-IsIndex idx is =
      let cells : ℕ = if idx.row_cap == 0 then rows_initial_cap else u64 (idx.row_cap * 2) in
      Gives-if Left
        (not (idx.row_cap == 0) && ltb cells (idx.row_cap) || ltb ((2 ^ 64 - 1) / 24) cells) _ _
        (λ e. is)
        (λ e.
          grow_into-IsIndex idx cells (m_alloc answers (cells * 24) (idx.heap)) is
            (fits (idx.row_cap) cells _ e))

  bootstrap-IsIndex : (idx : NameIndex) → IsIndex idx → Gives Left (bootstrap get_name answers idx)
  unfolding bootstrap
  bootstrap-IsIndex idx is =
      Gives-if Left (idx.row_cap == 0) _ _
        (λ e.
          and_then-Left (grow_row_array get_name answers idx) _ (grow_row_array-IsIndex idx is)
            (λ mid is'. ht_rehash-IsIndex get_name answers mid ht_initial_cap is' (omega arith)))
        (λ e. is)

set_row :
    (idx : NameIndex) (i : ℕ) (r : Row) (head live : ℕ)
    → IsIndex idx
    → IsIndex (record idx { rows = set (idx.rows) i r; free_head = head; live = live })
set_row idx i r head live is = record {
  rows_sized = length-set (idx.rows) i r ∙ is.rows_sized;
  table_sized = is.table_sized;
  mask_below = is.mask_below;
  table_small = is.table_small;
}

-- The index that a registration leaves.
abbrev pub index_of : {W : Type 0} → Registered W → NameIndex
index_of (registered i idx w) = idx
index_of (refused code idx w) = idx

abbrev pub Whole : {W : Type 0} → Registered W → Type 0
Whole result = IsIndex (index_of result)

module _ {W : Type 0} (hooks : Hooks W) (answers : Answers) where
  inserted-Whole :
      (i value : ℕ) (w : W) (p : Status × NameIndex)
      → i < length (p.1.rows)
      → Left p
      → Gives Whole (inserted hooks answers i value w p)
  inserted-Whole i value w (success, idx) lt is = is
  inserted-Whole i value w (failed code, idx) lt is =
      Gives-bind Any Whole (access (get_elem? (idx.rows) i)) _ (access-Gives (idx.rows) i lt)
        (λ r any. set_row idx i _ i _ is)

  register_in-Whole :
      (idx : NameIndex) (value : ℕ) (name : List ℕ) (w : W) (r : Row)
      → IsIndex idx
      → idx.free_head < idx.row_cap
      → Gives Whole (register_in hooks answers idx value name w r)
  unfolding register_in
  register_in-Whole idx value name w r is below =
      let full : NameIndex = taken idx (idx.free_head) value r in
      let run = ht_insert (hooks.get_name) answers insert_calls full (idx.free_head) name in
      let whole : IsIndex full =
        set_row idx (idx.free_head) _ (r.storage) (u64 (idx.live + 1)) is in
      Gives-if Whole (r.used == 0) _ _
        (λ e.
          Gives-bind (λ p. Left p × Kept full p) Whole run _
            (Gives-Returns Left (Kept full) run
              (ht_insert-total (hooks.get_name) answers full (idx.free_head) name whole)
              (ht_insert-Kept (hooks.get_name) answers insert_calls full (idx.free_head) name))
            (λ p both.
              inserted-Whole (idx.free_head) value w p
                (rw (both.1.same_rows) (
                  omega (
                    arith,
                    length-set (idx.rows) (idx.free_head) (record r { storage = value; used = 1 }),
                    is.rows_sized,
                  )))
                (both.0)))
        (λ e. is)

  pub register_row-Whole :
      (idx : NameIndex) (value : ℕ) (name : List ℕ) (w : W)
      → IsIndex idx
      → Gives Whole (register_row hooks answers idx value name w)
  unfolding register_row
  register_row-Whole idx value name w is =
      Gives-if Whole (ltb (idx.free_head) (idx.row_cap)) _ _
        (λ e.
          let below : idx.free_head < idx.row_cap = ground (arith, e) in
          Gives-bind Any Whole (access (get_elem? (idx.rows) (idx.free_head))) _
            (access-Gives (idx.rows) (idx.free_head) (omega (arith, is.rows_sized)))
            (λ r any. register_in-Whole idx value name w r is below))
        (λ e. is)

  with_free_row-IsIndex :
      (idx : NameIndex) → IsIndex idx → Gives Left (with_free_row hooks answers idx)
  with_free_row-IsIndex idx is =
      Gives-if Left (idx.free_head == free_head_invalid) _ _
        (λ e. grow_row_array-IsIndex (hooks.get_name) answers idx is) (λ e. is)

  prepared-Whole :
      (value : ℕ) (name : List ℕ) (w : W) (p : Status × NameIndex)
      → Left p
      → Gives Whole (prepared hooks answers value name w p)
  prepared-Whole value name w (success, idx) is = register_row-Whole idx value name w is
  prepared-Whole value name w (failed code, idx) is = is

  pub register-Whole :
      (idx : NameIndex) (value : ℕ) (w : W)
      → IsIndex idx
      → Gives Whole (register hooks answers idx value w)
  unfolding register
  register-Whole idx value w is = named (name_of (hooks.get_name) value)
    where
      ready : Result (Status × NameIndex)
      ready = and_then (bootstrap (hooks.get_name) answers idx) (with_free_row hooks answers)

      named :
          (name : Option (List ℕ))
          → Gives Whole (elim name [
            | none ↦ ok (refused e_in_param idx w)
            | some n ↦
                if value == 0 || is_empty n
                then ok (refused e_in_param idx w)
                else and_then (bootstrap (hooks.get_name) answers idx) (with_free_row hooks answers)
                  >>= prepared hooks answers value n w
          ])
      named none = is
      named (some n) =
          Gives-if Whole (value == 0 || is_empty n) _ _ (λ e. is)
            (λ e.
              Gives-bind Left Whole ready _
                (and_then-Left (hooks.get_name) answers (bootstrap (hooks.get_name) answers idx) _
                  (bootstrap-IsIndex (hooks.get_name) answers idx is) with_free_row-IsIndex)
                (prepared-Whole value n w))
