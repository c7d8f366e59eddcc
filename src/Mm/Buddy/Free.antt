-- ===== src/Mm/Buddy/Free.antt =====
-- kernel/mm/buddy_pmm.c: `pmm_free_one_index` and `pmm_free`, under the zone's lock.
use Prim.Native.Nat.{bit_xor}
use rendezv_os.Base.{
  ℕ, zero, suc, ◌+◌, ◌-◌, ◌%◌, ◌^◌, Bool, true, false, ◌&&◌, ◌||◌, not, ◌==◌, leb, ltb, Option,
  none, some, if◌then◌else◌, get_elem?, min,
}
use rendezv_os.Base.{Result, ok, ◌>>=◌, access, Error, e_rendezvos}
use rendezv_os.Mm.Pmm.{
  MemZone, Cursor, ppn_in_zone, cursor_init, cursor_page, cursor_index, cursor_next, ref_put, refed,
  sub_u64,
}
use rendezv_os.Mm.Buddy.{
  BuddyPage, Buddy, max_order, unlink, with_bucket, push_head, more_pages, less_pages, set_order,
}

abbrev pub order_is : ℕ → Option ℕ → Bool
order_is k none = false
order_is k (some o) = o == k

-- The tests on the buddy of the page at `index`: it exists, its frame is next to the page's, and it
-- is a free block of the order.
abbrev pub frames_apart : ℕ → ℕ → ℕ → BuddyPage → BuddyPage → Bool
frames_apart order index buddy_index p q =
    if ltb index buddy_index
    then sub_u64 (q.ppn) (p.ppn) == 2 ^ order
    else sub_u64 (p.ppn) (q.ppn) == 2 ^ order

unfoldable pub can_merge : ℕ → ℕ → ℕ → Buddy → Result Bool
can_merge order index buddy_index b = if leb (b.buddy_page_number) buddy_index then ok false else do
  p ← access (get_elem? (b.pages) index)
  q ← access (get_elem? (b.pages) buddy_index)
  ok (frames_apart order index buddy_index p q && order_is order (q.order))

-- `free_one`
unfoldable pub insert_block : ℕ → ℕ → Buddy → Result Buddy
insert_block order index b = do
  pages ← set_order index (some order) (b.pages)
  buckets ← with_bucket order (more_pages 1) (b.buckets)
  buckets ← with_bucket order (push_head index) buckets
  ok (record b {
    pages = pages;
    buckets = buckets;
    total_avaliable_pages = (b.total_avaliable_pages + 1) % 2 ^ 64;
  })

-- The loop, with the orders that are left above `order`.
unfoldable pub merge_up : ℕ → ℕ → ℕ → Buddy → Result Buddy
merge_up zero order index b = insert_block order index b
merge_up (suc n) order index b = do
  let buddy_index = bit_xor index (2 ^ order)
  merges ← can_merge order index buddy_index b
  elim merges [
    | false ↦ insert_block order index b
    | true ↦ do
      buckets ← with_bucket order (less_pages 1) (unlink buddy_index (unlink index (b.buckets)))
      merge_up n (order + 1) (min index buddy_index) (record b { buckets = buckets })
  ]

-- What a free leaves: its error code, if any, and the state.
pub data Freed : Type 0 where
  freed : Buddy → Freed
  refused : Error → Buddy → Freed

abbrev pub free_page : ℕ → Buddy → BuddyPage → Result Freed
free_page index b p = elim (p.order) [
  | some o ↦ ok (refused e_rendezvos b)
  | none ↦ merge_up max_order 0 index b >>= λ b'. ok (freed b')
]

unfoldable pub pmm_free_one_index : ℕ → Buddy → Result Freed
pmm_free_one_index index b =
    if leb (2 ^ 63) index || leb (b.buddy_page_number) index
    then ok (refused e_rendezvos b)
    else access (get_elem? (b.pages) index) >>= free_page index b

-- One page of `pmm_free`: its count drops, and at 0 the page is inserted.
abbrev pub put_one : Option ℕ → ℕ → Buddy → Result Freed
put_one none index b = ok (freed b)
put_one (some page) index b = do
  refs ← ref_put (b.refs) page
  held ← refed refs page
  elim held [
    | true ↦ ok (freed (record b { refs = refs }))
    | false ↦ pmm_free_one_index index (record b { refs = refs })
  ]

abbrev pub after_one : Freed → (Buddy → Result Freed) → Result Freed
after_one (refused code b) next = ok (refused code b)
after_one (freed b) next = next b

-- The loop over the pages.
unfoldable pub free_pages : ℕ → Cursor → Buddy → Result Freed
free_pages zero cur b = ok (freed b)
free_pages (suc rest) cur b = put_one (cursor_page cur) (cursor_index cur) b >>= λ r.
    after_one r (λ b'. elim rest [
      | zero ↦ ok (freed b')
      | suc more ↦ elim (cursor_next cur) [
        | none ↦ ok (refused e_rendezvos b')
        | some cur' ↦ free_pages rest cur' b'
      ]
    ])

-- A `ppn` that is an error code is refused; so is a range whose ends are not in the zone.
unfoldable pub pmm_free : MemZone → ℕ → ℕ → Buddy → Result Freed
pmm_free zone ppn page_number b =
    if not (ppn_in_zone zone ppn)
      || (ltb 1 page_number && not (ppn_in_zone zone ((ppn + page_number - 1) % 2 ^ 64)))
    then ok (refused e_rendezvos b)
    else elim (cursor_init zone ppn) [
      | none ↦ ok (refused e_rendezvos b)
      | some cur ↦ free_pages page_number cur b
    ]
