-- ===== src/Mm/PageSlice/Path.antt =====
-- kernel/mm/page_slice.c: the ways from the root to a leaf entry. Where the source holds a pointer into
-- the tree, the function goes to the same place again.
use rendezv_os.Base.{
  ℕ, zero, suc, ◌+◌, ◌-◌, Bool, true, false, ◌==◌, leb, ltb, Option, none, some, if◌then◌else◌,
}
use rendezv_os.Base.{
  Result, ok, fault, ◌>>=◌, Error, e_rendezvos, e_rend_nofound, e_rend_no_mem, e_rend_overflow,
}
use rendezv_os.Kalloc.{Answers}
use rendezv_os.Mm.PageSlice.{
  Entry, is_bound, Slot, empty, to_leaf, to_index, at, zero_leaf, zero_index, is_empty,
  entry_height, entry_live, entry_new, live_inc, as_index_page, as_leaf_page, leaf_idx, index_idx,
  Store, root_get_index, root_get_leaf, root_is_leaf, root_is_index, required_height, alloc_page,
}

-- `ps_descend_pgoff` without `create`: the leaf page, below an index page.
unfoldable pub find_leaf : ℕ → ℕ → (ℕ → Slot) → Result (Option (ℕ → Entry))
find_leaf zero pgoff ss = as_leaf_page (ss (index_idx pgoff 0))
find_leaf (suc level) pgoff ss = as_index_page (ss (index_idx pgoff (suc level))) >>= λ child.
    elim child [ none ↦ ok none | some ss' ↦ find_leaf level pgoff ss' ]

abbrev pub in_leaf : ℕ → Option (ℕ → Entry) → Option Entry
in_leaf pgoff none = none
in_leaf pgoff (some es) = some (es (leaf_idx pgoff))

abbrev pub bound_only : Option Entry → Option Entry
bound_only none = none
bound_only (some e) = if is_bound e then some e else none

-- The leaf entry, or -E_REND_NOFOUND.
unfoldable pub find_entry : ℕ → Slot → Result (Option Entry)
find_entry pgoff root =
    if ltb (entry_height root) (required_height pgoff)
    then ok none
    else if leb 2 (entry_height root)
    then (root_get_index root >>= λ top. elim top [
      | none ↦ ok none
      | some ss ↦ find_leaf (entry_height root - 2) pgoff ss >>= λ leaf. ok (in_leaf pgoff leaf)
    ])
    else root_get_leaf root >>= λ leaf. ok (in_leaf pgoff leaf)

-- What a way that is made ends with: an error code, if any, the slot, and the heap.
pub record Made : Type 0 where
  pub failure : Option Error
  pub slot : Slot
  pub store : Store

-- The live count of the slot of the page in which an entry was made.
abbrev pub counted : Bool → Bool → Slot → Slot
counted true is_root s = live_inc is_root s
counted false is_root s = s

abbrev pub with_slot : (Slot → Slot) → Made → Made
with_slot f m = record m { slot = f (m.slot) }

-- What follows an `m_alloc` of a page, if there is one and if there is none.
abbrev pub allocated : {A : Type 0} → Bool × Store → (Store → A) → (Store → A) → A
allocated (true, st) granted refused = granted st
allocated (false, st) granted refused = refused st

-- The child of an index page: there is one, or it is new, or there is no memory for it.
pub data Child : Type 0 where
  child : (is_new : Bool) → Slot → Store → Child
  no_child : Store → Child

-- A round of `ps_raise_height` with the new page.
abbrev pub raised_once : Slot → Slot
raised_once root =
    let height = if entry_height root == 0 then 2 else entry_height root + 1 in
    to_index height (if is_empty root then 0 else 1)
      (at 0 (entry_new height (entry_live root) root) zero_index)

module _ (answers : Answers) where
  -- `ps_descend_pgoff` with `create`, below the index page of a slot: at level 0 its entries point to
  -- leaf pages.
  unfoldable pub make_leaf : Bool → ℕ → Slot → Store → Result Made
  make_leaf is_root pgoff empty st = fault
  make_leaf is_root pgoff (to_leaf h l es) st = fault
  make_leaf is_root pgoff (to_index h l ss) st =
      let i = index_idx pgoff 0 in
      if is_empty (ss i)
      then allocated (alloc_page answers st)
          (λ st'. ok (record {
            failure = none;
            slot = live_inc is_root (to_index h l (at i (to_leaf 2 0 zero_leaf) ss));
            store = st';
          }))
          (λ st'. ok (record { failure = some e_rend_no_mem; slot = to_index h l ss; store = st' }))
      else as_leaf_page (ss i) >>= λ leaf. elim leaf [
        | none ↦ ok (record { failure = some e_rendezvos; slot = to_index h l ss; store = st })
        | some es ↦ ok (record { failure = none; slot = to_index h l ss; store = st })
      ]

  -- The child of an index page whose entries have the height `page_h`.
  abbrev pub child_slot : ℕ → Slot → Store → Child
  child_slot page_h s st =
      if is_empty s
      then allocated (alloc_page answers st) (λ st'. child true (to_index page_h 0 zero_index) st')
          (λ st'. no_child st')
      else child false s st

  unfoldable pub make_path : ℕ → Bool → ℕ → Slot → Store → Result Made
  make_path zero is_root pgoff s st = make_leaf is_root pgoff s st
  make_path (suc level) is_root pgoff empty st = fault
  make_path (suc level) is_root pgoff (to_leaf h l es) st = fault
  make_path (suc level) is_root pgoff (to_index h l ss) st =
      let i = index_idx pgoff (suc level) in
      elim (child_slot (suc level + 2) (ss i) st) [
        | no_child st' ↦
            ok (record { failure = some e_rend_no_mem; slot = to_index h l ss; store = st' })
        | child is_new c st' ↦ as_index_page c >>= λ page. elim page [
          | none ↦ ok (record { failure = some e_rendezvos; slot = to_index h l ss; store = st' })
          | some ss' ↦ make_path level false pgoff c st' >>= λ m.
              ok (with_slot (λ c'. counted is_new is_root (to_index h l (at i c' ss))) m)
        ]
      ]

  -- `ps_raise_height`, with the rounds that are left.
  unfoldable pub raise_rounds : ℕ → ℕ → Slot → Store → Result Made
  raise_rounds zero target root st =
      if ltb (entry_height root) target
      then fault
      else ok (record { failure = none; slot = root; store = st })
  raise_rounds (suc n) target root st =
      if ltb (entry_height root) target
      then allocated (alloc_page answers st) (λ st'. raise_rounds n target (raised_once root) st')
          (λ st'. ok (record { failure = some e_rend_no_mem; slot = root; store = st' }))
      else ok (record { failure = none; slot = root; store = st })

  unfoldable pub raise_height : ℕ → Slot → Store → Result Made
  raise_height target root st =
      if ltb target 2
      then ok (record { failure = none; slot = root; store = st })
      else if ltb 4 target
      then ok (record { failure = some e_rend_overflow; slot = root; store = st })
      else raise_rounds 4 target root st

  -- `ps_descend_pgoff` with `create`, from the root.
  unfoldable pub make_from_root : ℕ → Slot → Store → Result Made
  make_from_root pgoff root st =
      if leb 2 (entry_height root)
      then (root_get_index root >>= λ top. elim top [
        | none ↦ ok (record { failure = some e_rend_nofound; slot = root; store = st })
        | some ss ↦ make_path (entry_height root - 2) true pgoff root st
      ])
      else if root_is_leaf root
      then (root_get_leaf root >>= λ leaf. elim leaf [
        | none ↦ ok (record { failure = some e_rendezvos; slot = root; store = st })
        | some es ↦ ok (record { failure = none; slot = root; store = st })
      ])
      else allocated (alloc_page answers st)
          (λ st'. ok (record { failure = none; slot = to_leaf 1 0 zero_leaf; store = st' }))
          (λ st'. ok (record { failure = some e_rend_no_mem; slot = root; store = st' }))

-- A change of the entry that points to the leaf page of `pgoff`, found by `ps_leaf_index_entry`.
unfoldable pub edit_leaf : ℕ → ℕ → (Slot → Slot) → Slot → Result Slot
edit_leaf level pgoff f empty = fault
edit_leaf level pgoff f (to_leaf h l es) = fault
edit_leaf zero pgoff f (to_index h l ss) =
    let i = index_idx pgoff 0 in ok (to_index h l (at i (f (ss i)) ss))
edit_leaf (suc level) pgoff f (to_index h l ss) =
    let i = index_idx pgoff (suc level) in
    as_index_page (ss i) >>= λ page. elim page [
      | none ↦ ok (to_index h l ss)
      | some ss' ↦ edit_leaf level pgoff f (ss i) >>= λ c. ok (to_index h l (at i c ss))
    ]

unfoldable pub edit_root : ℕ → (Slot → Slot) → Slot → Result Slot
edit_root pgoff f root =
    if root_is_leaf root
    then ok (f root)
    else if root_is_index root
    then edit_leaf (entry_height root - 2) pgoff f root
    else ok root
