-- ===== src/Mm/PageSlice/Api.antt =====
-- kernel/mm/page_slice.c: the functions of the interface, each under the slice's lock.
use rendezv_os.Base.{
  ℕ, zero, suc, ◌+◌, ◌-◌, ◌%◌, ◌^◌, Bool, true, false, ◌||◌, ◌==◌, leb, ltb, Option, none, some,
  if◌then◌else◌,
}
use rendezv_os.Base.{
  Result, ok, ◌>>=◌, access, Error, e_in_param, e_rend_again, e_rend_nofound, e_rend_overflow,
}
use Prim.Native.Nat.{bit_or}
use rendezv_os.Kalloc.{Answers, m_alloc}
use rendezv_os.Mm.PageSlice.{
  Entry, is_bound, flag_valid, max_byte_size, Slot, empty, to_leaf, to_index, at, is_empty,
  live_inc, leaf_idx, PageSlice, Store, root_get_index, root_get_leaf, root_is_leaf, page_count,
  required_height, free_page, answered,
}
use rendezv_os.Mm.PageSlice.Path.{
  bound_only, find_entry, Made, raise_height, make_from_root, edit_root,
}
use rendezv_os.Mm.PageSlice.Shrink.{
  absent, gone, remove_page_locked, shrink, free_leaf_page, free_index_page,
}

-- What a call leaves: its error code, if any, the slice and the heap.
pub record Outcome : Type 0 where
  pub failure : Option Error
  pub slice : PageSlice
  pub store : Store

abbrev pub done : PageSlice → Store → Outcome
done ps st = record { failure = none; slice = ps; store = st }

abbrev pub fails : Error → PageSlice → Store → Outcome
fails code ps st = record { failure = some code; slice = ps; store = st }

-- `page_slice_lookup`: the entry, if it is bound.
unfoldable pub page_slice_lookup : ℕ → PageSlice → Result (Option Entry)
page_slice_lookup pgoff ps =
    if leb (page_count (ps.size)) pgoff
    then ok none
    else find_entry pgoff (ps.root) >>= λ found. ok (bound_only found)

-- The write of the entry, and the count of its leaf page.
unfoldable pub bind_entry : Bool → ℕ → Entry → Slot → Slot
bind_entry is_root pgoff e empty = empty
bind_entry is_root pgoff e (to_index h l ss) = to_index h l ss
bind_entry is_root pgoff e (to_leaf h l es) =
    live_inc is_root (to_leaf h l (at (leaf_idx pgoff) e es))

-- `page_slice_insert_page` with the entry of the page in hand.
unfoldable pub bind_page : ℕ → ℕ → ℕ → Entry → PageSlice → Store → Result Outcome
bind_page pgoff page_address flags e ps st =
    if is_bound e
    then ok
        (if e.kernel_virtual_address == page_address then done ps st else fails e_rend_again ps st)
    else (edit_root pgoff
          (bind_entry (root_is_leaf (ps.root)) pgoff
            (record { kernel_virtual_address = page_address; flags = bit_or flags flag_valid }))
          (ps.root)
        >>= λ root. ok (
            done (record ps { root = root; mapped_entries = (ps.mapped_entries + 1) % 2 ^ 64 }) st))

abbrev pub with_root : PageSlice → Slot → PageSlice
with_root ps root = record ps { root = root }

-- The rest of `page_slice_insert_page` after `ps_get_entry`.
abbrev pub bind_made : ℕ → ℕ → ℕ → PageSlice → Made → Result Outcome
bind_made pgoff page_address flags ps m = elim (m.failure) [
  | some code ↦ ok (fails code (with_root ps (m.slot)) (m.store))
  | none ↦ find_entry pgoff (m.slot) >>= access >>= λ e.
      bind_page pgoff page_address flags e (with_root ps (m.slot)) (m.store)
]

abbrev pub make_raised : Answers → ℕ → Made → Result Made
make_raised answers pgoff m = elim (m.failure) [
  | some code ↦ ok m
  | none ↦ make_from_root answers pgoff (m.slot) (m.store)
]

unfoldable pub page_slice_insert_page : Answers → ℕ → ℕ → ℕ → PageSlice → Store → Result Outcome
page_slice_insert_page answers pgoff page_address flags ps st =
    if page_address == 0
    then ok (fails e_in_param ps st)
    else if leb (page_count (ps.size)) pgoff
    then ok (fails e_in_param ps st)
    else raise_height answers (required_height pgoff) (ps.root) st
      >>= make_raised answers pgoff
      >>= bind_made pgoff page_address flags ps

-- The calls of `ps_shrink`, `n` of them.
unfoldable pub shrink_passes : ℕ → Slot → Store → Result (Slot × Store)
shrink_passes zero root st = ok (root, st)
shrink_passes (suc n) root st = shrink root st >>= λ r. shrink_passes n (r.0) (r.1)

unfoldable pub page_slice_remove_page : ℕ → PageSlice → Store → Result Outcome
page_slice_remove_page pgoff ps st =
    if leb (page_count (ps.size)) pgoff
    then ok (fails e_in_param ps st)
    else remove_page_locked pgoff ps st >>= λ r. elim r [
      | absent ↦ ok (fails e_rend_nofound ps st)
      | gone ps' st' ↦
          shrink_passes 4 (ps'.root) st' >>= λ r'. ok (done (with_root ps' (r'.0)) (r'.1))
    ]

-- The loop of `page_slice_set_size` over the pages past the new end, `n` of them, from the last down.
unfoldable pub remove_tail : ℕ → ℕ → PageSlice → Store → Result (PageSlice × Store)
remove_tail zero new_pages ps st = ok (ps, st)
remove_tail (suc n) new_pages ps st = remove_page_locked (new_pages + n) ps st >>= λ r. elim r [
  | absent ↦ remove_tail n new_pages ps st
  | gone ps' st' ↦ remove_tail n new_pages ps' st'
]

abbrev pub resized : ℕ → PageSlice × Store → Result Outcome
resized new_size (ps, st) =
    shrink (ps.root) st >>= λ r. ok (done (record ps { root = r.0; size = new_size }) (r.1))

-- `page_slice_get_size`, of no slice or of one.
abbrev pub page_slice_get_size : Option PageSlice → ℕ
page_slice_get_size none = 0
page_slice_get_size (some ps) = ps.size

-- What follows the `m_alloc` of the header of a slice.
abbrev pub created : ℕ → Bool × Store → Option PageSlice × Store
created slice_size (true, st) =
    (some (record { root = empty; size = slice_size; mapped_entries = 0 }), st)
created slice_size (false, st) = (none, st)

-- `page_slice_create`, with the size of the header.
unfoldable pub page_slice_create : Answers → ℕ → ℕ → Store → Option PageSlice × Store
page_slice_create answers header_size slice_size st =
    if (slice_size == 0) || ltb max_byte_size slice_size
    then (none, st)
    else created slice_size (answered (m_alloc answers header_size (st.kalloc)) st)

-- `page_slice_destroy`: the heap without the tree, the kernel pages that it owns, and the header.
unfoldable pub page_slice_destroy : PageSlice → Store → Result Store
page_slice_destroy ps st =
    (if is_empty (ps.root)
      then ok st
      else if root_is_leaf (ps.root)
      then (root_get_leaf (ps.root) >>= λ leaf. elim leaf [
        | none ↦ ok st
        | some es ↦ free_leaf_page es st
      ])
      else root_get_index (ps.root) >>= λ top. elim top [
        | none ↦ ok st
        | some ss ↦ free_index_page ss st
      ])
    >>= λ st'. ok (free_page st')

-- What `page_slice_set_size` leaves: the slice is destroyed, or what another call leaves.
pub data SizeOutcome : Type 0 where
  destroyed : Store → SizeOutcome
  kept : Outcome → SizeOutcome

-- `page_slice_set_size`
unfoldable pub page_slice_set_size : ℕ → PageSlice → Store → Result SizeOutcome
page_slice_set_size new_size ps st =
    if new_size == 0
    then (page_slice_destroy ps st >>= λ st'. ok (destroyed st'))
    else if ltb max_byte_size new_size
    then ok (kept (fails e_rend_overflow ps st))
    else if new_size == ps.size
    then ok (kept (done ps st))
    else (if ltb new_size (ps.size)
        then remove_tail (page_count (ps.size) - page_count new_size) (page_count new_size) ps st
        else ok (ps, st))
      >>= resized new_size
      >>= λ o. ok (kept o)
