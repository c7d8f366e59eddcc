-- ===== src/Mm/PageSlice.antt =====
-- include/rendezvos/mm/page_slice.h and kernel/mm/page_slice.c: a radix tree from page offsets to kernel
-- pages. An index entry is a slot: nothing, or a pointer to a leaf or an index page, with the height and
-- the live count of its tag. A page belongs to the one slot that points to it, so it stands in the slot.
-- An array is a function of the index. The list node of a leaf entry is for other layers.
pub mod Path
pub mod Count
pub mod Tree
pub mod Slots
pub mod Grow
pub mod Heights
pub mod Raise
pub mod Way
pub mod Bind
pub mod Insert
pub mod InsertPage
pub mod Clear
pub mod Lower
pub mod Drop
pub mod Outcomes
pub mod RemovePage
pub mod Calls
pub mod Destroy
pub mod SetSize
pub mod Runs
pub mod Copy
pub mod Contents
mod Tests
pub mod Shrink
pub mod Api
use rendezv_os.Base.{
  ℕ, zero, suc, ◌+◌, ◌-◌, ◌*◌, ◌/◌, ◌%◌, ◌^◌, Bool, true, false, ◌&&◌, ◌||◌, not, ◌==◌, leb, ltb,
  Option, none, some, List, [], ◌∷◌, if◌then◌else◌,
}
use rendezv_os.Base.{Result, ok, fault, ◌>>=◌}
use Prim.Native.Nat.{bit_and, bit_or}
use rendezv_os.Kalloc.{Kalloc, Answers, m_alloc, m_free}

abbrev pub leaf_capacity : ℕ
leaf_capacity = 128

abbrev pub index_capacity : ℕ
index_capacity = 512

-- `PAGE_SLICE_MAX_BYTE_SIZE`, 2^34 pages
abbrev pub max_byte_size : ℕ
max_byte_size = 2 ^ 34 * 4096

abbrev pub flag_valid : ℕ
flag_valid = 1

abbrev pub flag_pin : ℕ
flag_pin = 2

-- `struct page_slice_entry`
pub record Entry : Type 0 where
  pub kernel_virtual_address : ℕ
  pub flags : ℕ

abbrev pub no_entry : Entry
no_entry = record { kernel_virtual_address = 0; flags = 0 }

abbrev pub has_flag : ℕ → ℕ → Bool
has_flag flag flags = not (bit_and flags flag == 0)

-- The test of a bound entry.
abbrev pub is_bound : Entry → Bool
is_bound e = has_flag flag_valid (e.flags) && not (e.kernel_virtual_address == 0)

-- `page_slice_index_entry_t`
pub data Slot : Type 0 where
  empty : Slot
  to_leaf : (height live : ℕ) → (ℕ → Entry) → Slot
  to_index : (height live : ℕ) → (ℕ → Slot) → Slot

abbrev pub at : {A : Type 0} → ℕ → A → (ℕ → A) → ℕ → A
at i a f j = if j == i then a else f j

abbrev pub zero_leaf : ℕ → Entry
zero_leaf i = no_entry

abbrev pub zero_index : ℕ → Slot
zero_index i = empty

abbrev pub is_empty : Slot → Bool
is_empty empty = true
is_empty (to_leaf h l es) = false
is_empty (to_index h l ss) = false

abbrev pub entry_height : Slot → ℕ
entry_height empty = 0
entry_height (to_leaf h l es) = h
entry_height (to_index h l ss) = h

abbrev pub entry_live : Slot → ℕ
entry_live empty = 0
entry_live (to_leaf h l es) = l
entry_live (to_index h l ss) = l

abbrev pub entry_new : ℕ → ℕ → Slot → Slot
entry_new height live empty = empty
entry_new height live (to_leaf h l es) = to_leaf height live es
entry_new height live (to_index h l ss) = to_index height live ss

-- `ps_entry_live_max_table`
abbrev pub live_max : Bool → ℕ → ℕ
live_max is_root zero = 0
live_max is_root (suc zero) = leaf_capacity
live_max is_root (suc (suc zero)) = if is_root then index_capacity else leaf_capacity
live_max is_root (suc (suc (suc h))) = index_capacity

unfoldable pub live_inc : Bool → Slot → Slot
live_inc is_root s =
    if ltb (entry_live s) (live_max is_root (entry_height s))
    then entry_new (entry_height s) (entry_live s + 1) s
    else s

unfoldable pub live_dec : Slot → Slot
live_dec s = if entry_live s == 0 then s else entry_new (entry_height s) (entry_live s - 1) s

-- `ps_entry_as_index_page` and `ps_entry_as_leaf_page`, by the height; a page of the other kind is a fault.
unfoldable pub as_index_page : Slot → Result (Option (ℕ → Slot))
as_index_page empty = ok none
as_index_page (to_leaf h l es) = if (h == 3) || (h == 4) then fault else ok none
as_index_page (to_index h l ss) = if (h == 3) || (h == 4) then ok (some ss) else ok none

unfoldable pub as_leaf_page : Slot → Result (Option (ℕ → Entry))
as_leaf_page empty = ok none
as_leaf_page (to_leaf h l es) = if h == 2 then ok (some es) else ok none
as_leaf_page (to_index h l ss) = if h == 2 then fault else ok none

-- `PAGE_SLICE_LEAF_IDX` and `PAGE_SLICE_INDEX_ENTRY`
unfoldable pub leaf_idx : ℕ → ℕ
leaf_idx pgoff = pgoff % leaf_capacity

unfoldable pub index_idx : ℕ → ℕ → ℕ
index_idx pgoff level = pgoff / 2 ^ (7 + 9 * level) % index_capacity

pub record PageSlice : Type 0 where
  pub root : Slot
  pub size : ℕ
  pub mapped_entries : ℕ

-- The heap, and the addresses of the kernel pages that were given back, the last first.
pub record Store : Type 0 where
  pub kalloc : Kalloc
  pub released : List ℕ

-- `page_slice_root_get_index` and `page_slice_root_get_leaf`
unfoldable pub root_get_index : Slot → Result (Option (ℕ → Slot))
root_get_index empty = ok none
root_get_index (to_leaf h l es) = if leb 2 h && leb h 4 then fault else ok none
root_get_index (to_index h l ss) = if leb 2 h && leb h 4 then ok (some ss) else ok none

unfoldable pub root_get_leaf : Slot → Result (Option (ℕ → Entry))
root_get_leaf empty = ok none
root_get_leaf (to_leaf h l es) = if h == 1 then ok (some es) else ok none
root_get_leaf (to_index h l ss) = if h == 1 then fault else ok none

abbrev pub root_is_index : Slot → Bool
root_is_index s = leb 2 (entry_height s) && leb (entry_height s) 4

abbrev pub root_is_leaf : Slot → Bool
root_is_leaf s = entry_height s == 1

-- `PAGE_SLICE_SIZE_TO_PAGE_COUNT`
unfoldable pub page_count : ℕ → ℕ
page_count size = if size == 0 then 0 else (size + 4095) % 2 ^ 64 / 4096

unfoldable pub required_height : ℕ → ℕ
required_height pgoff =
    if ltb pgoff leaf_capacity
    then 1
    else if not (index_idx pgoff 2 == 0)
    then 4
    else if not (index_idx pgoff 1 == 0)
    then 3
    else 2

-- An `m_alloc` of a page: whether there is one, and it is zero-filled.
abbrev pub answered : Option (List ℕ) × Kalloc → Store → Bool × Store
answered (none, k) st = (false, record st { kalloc = k })
answered (some mem, k) st = (true, record st { kalloc = k })

abbrev pub alloc_page : Answers → Store → Bool × Store
alloc_page answers st = answered (m_alloc answers 4096 (st.kalloc)) st

abbrev pub free_page : Store → Store
free_page st = record st { kalloc = m_free (st.kalloc) }

-- `ps_clear_leaf_entry`: the entry is zero afterwards, and its kernel page is given back.
unfoldable pub clear_leaf_entry : Entry → Store → Store
clear_leaf_entry e st =
    if not (e.kernel_virtual_address == 0) && not (has_flag flag_pin (e.flags))
    then record { kalloc = m_free (st.kalloc); released = e.kernel_virtual_address ∷ st.released }
    else st
