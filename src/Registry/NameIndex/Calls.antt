-- ===== src/Registry/NameIndex/Calls.antt =====
-- kernel/registry/name_index.c: the calls. `lookup`, `resolve` and `fini` take the index's lock
-- themselves, and the callers of the others hold it: a call is one step.
use rendezv_os.Base.{
  ℕ, zero, suc, ◌+◌, ◌-◌, Bool, true, false, ◌&&◌, ◌||◌, ◌==◌, leb, ltb, Option, none, some, List,
  [], ◌∷◌, if◌then◌else◌, get_elem?, set,
}
use rendezv_os.Base.{Result, ok, ◌>>=◌, access, Error, e_rendezvos, e_in_param}
use rendezv_os.Kalloc.{Kalloc, Answers}
use rendezv_os.Registry.NameIndex.{
  u64, free_head_invalid, Row, NameIndex, Status, success, failed, Hooks,
}
use rendezv_os.Registry.NameIndex.Table.{
  in_use, name_of, bootstrap, grow_row_array, ht_insert, ht_remove, maybe_shrink_ht, free_if_any,
  and_then,
}

-- `if (idx->live) idx->live--;`
abbrev pub dec_live : ℕ → ℕ
dec_live live = if live == 0 then live else live - 1

abbrev pub is_empty : List ℕ → Bool
is_empty [] = true
is_empty (c ∷ cs) = false

-- What `name_index_register` leaves: the row and the index, or the error and the index.
pub data Registered (W : Type 0) : Type 0 where
  registered : ℕ → NameIndex → W → Registered W
  refused : Error → NameIndex → W → Registered W

module _ {W : Type 0} where
  -- A hook that may be NULL.
  abbrev pub run_hook : Option (ℕ → W → W) → ℕ → W → W
  run_hook none value w = w
  run_hook (some f) value w = f value w

-- The calls of `name_index_ht_insert`. Each one but the first follows a rehash into twice the
-- buckets, and a table has less than 2^61 of them.
abbrev pub insert_calls : ℕ
insert_calls = 61

-- The row is taken off the free list.
abbrev pub taken : NameIndex → ℕ → ℕ → Row → NameIndex
taken idx row_idx value r = record idx {
  free_head = r.storage;
  rows = set (idx.rows) row_idx (record r { storage = value; used = 1 });
  live = u64 (idx.live + 1);
}

-- The row goes back after an error. `NULL` is written to the union first.
abbrev pub put_back : NameIndex → ℕ → Row → NameIndex
put_back idx row_idx r = record idx {
  rows = set (idx.rows) row_idx (record r { used = 0; storage = idx.free_head });
  free_head = row_idx;
  live = dec_live (idx.live);
}

-- The row goes back, and its generation ends.
abbrev pub cleared : NameIndex → ℕ → Row → NameIndex
cleared idx row_idx r = record idx {
  rows =
      set (idx.rows) row_idx (record { gen = u64 (r.gen + 1); used = 0; storage = idx.free_head });
  free_head = row_idx;
  live = dec_live (idx.live);
}

module _ {W : Type 0} (hooks : Hooks W) (answers : Answers) where
  abbrev pub inserted : ℕ → ℕ → W → Status × NameIndex → Result (Registered W)
  inserted row_idx value w (success, idx) =
      ok (registered row_idx idx (run_hook (hooks.on_register) value w))
  inserted row_idx value w (failed code, idx) = do
    r ← access (get_elem? (idx.rows) row_idx)
    ok (refused code (put_back idx row_idx r) w)

  -- The free row is tested again, and the value goes into it and into the table.
  unfoldable pub register_in : NameIndex → ℕ → List ℕ → W → Row → Result (Registered W)
  register_in idx value name w r =
      if r.used == 0
      then ht_insert (hooks.get_name) answers insert_calls (taken idx (idx.free_head) value r)
          (idx.free_head) name
        >>= inserted (idx.free_head) value w
      else ok (refused e_rendezvos idx w)

  -- From the reading of `free_head` on.
  unfoldable pub register_row : NameIndex → ℕ → List ℕ → W → Result (Registered W)
  unfolding register_in
  register_row idx value name w =
      if ltb (idx.free_head) (idx.row_cap)
      then (access (get_elem? (idx.rows) (idx.free_head)) >>= λ (r : Row).
          register_in idx value name w r)
      else ok (refused e_rendezvos idx w)

  -- The growth of the row array where the free list is empty.
  abbrev pub with_free_row : NameIndex → Result (Status × NameIndex)
  with_free_row idx =
      if idx.free_head == free_head_invalid
      then grow_row_array (hooks.get_name) answers idx
      else ok (success, idx)

  abbrev pub prepared : ℕ → List ℕ → W → Status × NameIndex → Result (Registered W)
  prepared value name w (success, idx) = register_row idx value name w
  prepared value name w (failed code, idx) = ok (refused code idx w)

  unfoldable pub register : NameIndex → ℕ → W → Result (Registered W)
  register idx value w = elim (name_of (hooks.get_name) value) [
    | none ↦ ok (refused e_in_param idx w)
    | some name ↦
        if value == 0 || is_empty name
        then ok (refused e_in_param idx w)
        else and_then (bootstrap (hooks.get_name) answers idx) with_free_row
          >>= prepared value name w
  ]

  -- The common end of `register_abort` and `unregister`.
  unfoldable pub release : NameIndex → ℕ → ℕ → Row → W → Result (NameIndex × W)
  release idx value row_idx r w =
      maybe_shrink_ht (hooks.get_name) answers (cleared idx row_idx r) >>= λ shrunk.
      ok (shrunk, run_hook (hooks.on_unregister) value w)

  abbrev pub remove_name : NameIndex → ℕ → Option (List ℕ) → Result NameIndex
  remove_name idx row_idx none = ok idx
  remove_name idx row_idx (some name) = ht_remove idx row_idx name

  unfoldable pub unregister : NameIndex → ℕ → ℕ → Option (List ℕ) → W → Result (NameIndex × W)
  unfolding release
  unregister idx value row_idx name w =
      if leb (idx.row_cap) row_idx
      then ok (idx, w)
      else (access (get_elem? (idx.rows) row_idx) >>= λ (r : Row).
          if r.used == 1 && (r.storage == value)
          then (remove_name idx row_idx name >>= λ removed. release removed value row_idx r w)
          else ok (idx, w))

  -- The name is the value's.
  unfoldable pub register_abort : NameIndex → ℕ → ℕ → W → Result (NameIndex × W)
  register_abort idx row_idx value w =
      unregister idx value row_idx (name_of (hooks.get_name) value) w

  -- `name_index_init`; the error of the bootstrap is dropped.
  unfoldable pub init : ℕ → Kalloc → Result NameIndex
  init name_len_max heap =
      bootstrap (hooks.get_name) answers (record {
        rows = [];
        row_cap = 0;
        free_head = free_head_invalid;
        live = 0;
        ht = [];
        ht_cap = 0;
        ht_mask = 0;
        ht_tombs = 0;
        name_len_max = name_len_max;
        heap = heap;
      })
      >>= λ (p : Status × NameIndex). ok (p.1)

  -- The loop of `name_index_fini` over the rows from one on, with the drop hook.
  unfoldable pub drop_rows : (ℕ → W → W) → ℕ → ℕ → NameIndex → W → Result (NameIndex × W)
  drop_rows drop_value zero i idx w = ok (idx, w)
  drop_rows drop_value (suc n) i idx w = access (get_elem? (idx.rows) i) >>= λ (r : Row).
      elim (in_use r) [
        | false ↦ drop_rows drop_value n (i + 1) idx w
        | true ↦
            drop_rows drop_value n (i + 1) (cleared idx i r)
              (drop_value (r.storage) (run_hook (hooks.on_unregister) (r.storage) w))
      ]

  abbrev free_arrays : NameIndex → NameIndex
  free_arrays idx = record {
    rows = [];
    row_cap = 0;
    free_head = free_head_invalid;
    live = 0;
    ht = [];
    ht_cap = 0;
    ht_mask = 0;
    ht_tombs = 0;
    name_len_max = idx.name_len_max;
    heap = free_if_any (idx.ht) (free_if_any (idx.rows) (idx.heap));
  }

  unfoldable pub fini : NameIndex → W → Result (NameIndex × W)
  fini idx w = elim (hooks.drop) [
    | none ↦ ok (free_arrays idx, w)
    | some f ↦
        drop_rows f (idx.row_cap) 0 idx w >>= λ (p : NameIndex × W). ok (free_arrays (p.0), p.1)
  ]
