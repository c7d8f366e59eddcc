-- ===== src/Mm/PageSlice/Shrink.antt =====
-- kernel/mm/page_slice.c: freeing of pages, the removal of an entry, and the lowering of the root.
use rendezv_os.Base.{
  ℕ, zero, suc, ◌+◌, ◌-◌, Bool, true, false, ◌&&◌, ◌||◌, ◌==◌, leb, Option, none, some,
  if◌then◌else◌,
}
use rendezv_os.Base.{Result, ok, fault, ◌>>=◌}
use rendezv_os.Mm.PageSlice.{
  Entry, no_entry, is_bound, Slot, empty, to_leaf, to_index, at, is_empty, entry_height, entry_live,
  entry_new, live_dec, as_leaf_page, leaf_idx, index_idx, leaf_capacity, index_capacity, PageSlice,
  Store, root_get_index, root_get_leaf, root_is_index, root_is_leaf, free_page, clear_leaf_entry,
}
use rendezv_os.Mm.PageSlice.Path.{find_entry}

-- A loop over the entries of a page.
unfoldable pub each : ℕ → ℕ → (ℕ → Store → Result Store) → Store → Result Store
each zero i body st = ok st
each (suc n) i body st = body i st >>= each n (i + 1) body

-- `ps_free_leaf_page`
unfoldable pub free_leaf_page : (ℕ → Entry) → Store → Result Store
free_leaf_page es st =
    each leaf_capacity 0 (λ i st'. ok (clear_leaf_entry (es i) st')) st >>= λ st'.
    ok (free_page st')

-- The body of the loop of `ps_free_index_page_recursive`, on an entry: a page of the kind that the height
-- does not say is a fault, and an entry whose height names no page is passed over.
unfoldable pub free_slot : Slot → Store → Result Store
free_slot empty st = ok st
free_slot (to_leaf h l es) st =
    if h == 2 then free_leaf_page es st else if (h == 3) || (h == 4) then fault else ok st
free_slot (to_index h l ss) st =
    if (h == 3) || (h == 4)
    then (each index_capacity 0 (λ i st'. free_slot (ss i) st') st >>= λ st'. ok (free_page st'))
    else if h == 2
    then fault
    else ok st

-- `ps_free_index_page_recursive`
unfoldable pub free_index_page : (ℕ → Slot) → Store → Result Store
free_index_page ss st =
    each index_capacity 0 (λ i st'. free_slot (ss i) st') st >>= λ st'. ok (free_page st')

-- The slot of an index page after a change of one of its entries: the loop of `ps_cascade_up_empty_index`
-- at this level, if an entry of the page became empty.
unfoldable pub cascade : Bool → Slot → Store → Slot × Store
cascade false s st = (s, st)
cascade true s st =
    let s' = live_dec s in if entry_live s' == 0 then (empty, free_page st) else (s', st)

-- `ps_remove_page_locked` after its tests, on the slot of a leaf page.
unfoldable pub clear_in_leaf : ℕ → Slot → Store → Result (Slot × Store)
clear_in_leaf pgoff empty st = fault
clear_in_leaf pgoff (to_index h l ss) st = fault
clear_in_leaf pgoff (to_leaf h l es) st =
    let st' = clear_leaf_entry (es (leaf_idx pgoff)) st in
    let s' = live_dec (to_leaf h l (at (leaf_idx pgoff) no_entry es)) in
    if entry_live s' == 0 then ok (empty, free_page st') else ok (s', st')

abbrev pub put_child : ℕ → ℕ → ℕ → (ℕ → Slot) → Slot × Store → Slot × Store
put_child i h l ss (c, st) = cascade (is_empty c) (to_index h l (at i c ss)) st

-- The same on the slot of an index page, whose entries point to leaf pages at level 0.
unfoldable pub clear_below : ℕ → ℕ → Slot → Store → Result (Slot × Store)
clear_below level pgoff empty st = fault
clear_below level pgoff (to_leaf h l es) st = fault
clear_below zero pgoff (to_index h l ss) st =
    let i = index_idx pgoff 0 in clear_in_leaf pgoff (ss i) st >>= λ r. ok (put_child i h l ss r)
clear_below (suc level) pgoff (to_index h l ss) st =
    let i = index_idx pgoff (suc level) in
    clear_below level pgoff (ss i) st >>= λ r. ok (put_child i h l ss r)

unfoldable pub clear_entry : ℕ → Slot → Store → Result (Slot × Store)
clear_entry pgoff root st =
    if leb 2 (entry_height root)
    then clear_below (entry_height root - 2) pgoff root st
    else clear_in_leaf pgoff root st

-- What `ps_remove_page_locked` does: nothing, as there is no such entry, or the entry is gone.
pub data Removal : Type 0 where
  absent : Removal
  gone : PageSlice → Store → Removal

abbrev pub removed : PageSlice → Slot × Store → Removal
removed ps (root, st) = gone (record ps { root = root; mapped_entries = ps.mapped_entries - 1 }) st

unfoldable pub remove_page_locked : ℕ → PageSlice → Store → Result Removal
remove_page_locked pgoff ps st = find_entry pgoff (ps.root) >>= λ found. elim found [
  | none ↦ ok absent
  | some e ↦
      if is_bound e then (clear_entry pgoff (ps.root) st >>= λ r. ok (removed ps r)) else ok absent
]

-- The loop of `ps_shrink`, with the rounds that are left (a fault if none is left and the loop goes on): whether the function returns in the loop, the
-- root and the heap.
pub data Lowered : Type 0 where
  lowered : (returns : Bool) → Slot → Store → Lowered

unfoldable pub lower_once : Slot → Slot → Slot
lower_once root child = entry_new (entry_height root - 1) (entry_live child) child

unfoldable pub returns_at : Slot → Option (ℕ → Entry) → Bool
returns_at root none = false
returns_at root (some es) = entry_height root == 2

unfoldable pub lower_root : ℕ → Slot → Store → Result Lowered
lower_root zero root st =
    if root_is_index root && (entry_live root == 1) then fault else ok (lowered false root st)
lower_root (suc n) root st =
    if root_is_index root && (entry_live root == 1)
    then (root_get_index root >>= λ top. elim top [
      | none ↦ ok (lowered false root st)
      | some ss ↦
          if is_empty (ss 0)
          then ok (lowered false root st)
          else (if entry_height root == 2 then as_leaf_page (ss 0) else ok none) >>= λ leaf.
              elim (returns_at root leaf) [
                | true ↦ ok (lowered true (lower_once root (ss 0)) (free_page st))
                | false ↦ lower_root n (lower_once root (ss 0)) (free_page st)
              ]
    ])
    else ok (lowered false root st)

-- The end of `ps_shrink`: a root without live entries is freed.
unfoldable pub drop_root : Slot → Store → Result (Slot × Store)
drop_root root st =
    if root_is_leaf root && (entry_live root == 0)
    then (root_get_leaf root >>= λ leaf. elim leaf [
      | none ↦ ok (empty, st)
      | some es ↦ free_leaf_page es st >>= λ st'. ok (empty, st')
    ])
    else if root_is_index root && (entry_live root == 0)
    then (root_get_index root >>= λ top. elim top [
      | none ↦ ok (empty, st)
      | some ss ↦ free_index_page ss st >>= λ st'. ok (empty, st')
    ])
    else ok (root, st)

abbrev pub after_lowering : Lowered → Result (Slot × Store)
after_lowering (lowered true root st) = ok (root, st)
after_lowering (lowered false root st) = drop_root root st

-- `ps_shrink`; a round lowers the height by one, and a height is below 8.
unfoldable pub shrink : Slot → Store → Result (Slot × Store)
shrink root st = lower_root 8 root st >>= after_lowering
