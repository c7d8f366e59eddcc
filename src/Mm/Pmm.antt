-- ===== src/Mm/Pmm.antt =====
-- include/rendezvos/mm/pmm.h: zones, their sections, the cursor over the pages of a zone, and the
-- counts of references to page frames.
-- A `Page` is named by its number in the zone, the pages of earlier sections first; a pointer to a
-- section is the list of the sections from it on, `[]` for the end or NULL. A `ppn_t` or another i64
-- is its 64 bits. Zone and sections do not change.
pub mod Walk
pub mod Marks
pub mod Lowered
pub mod Change
use rendezv_os.Base.{
  ℕ, suc, ◌+◌, ◌-◌, ◌*◌, ◌/◌, ◌%◌, ◌^◌, Bool, true, false, ◌&&◌, ◌||◌, not, ◌==◌, leb, ltb, Option,
  none, some, List, [], ◌∷◌, if◌then◌else◌, get_elem?, set,
}
use rendezv_os.Base.{Result, ok, ◌>>=◌, access}

pub record MemSection : Type 0 where
  pub page_count : ℕ
  pub upper_addr : ℕ
  pub lower_addr : ℕ

pub record MemZone : Type 0 where
  pub sections : List MemSection
  pub zone_upper : ℕ
  pub zone_lower : ℕ
  pub zone_total_pages : ℕ

abbrev pub page_size : ℕ
page_size = 4096

abbrev pub invalid_ppn : ℕ → Bool
invalid_ppn ppn = leb (2 ^ 63) ppn

-- `PADDR(ppn)` and `PPN(addr)`
abbrev pub paddr_of : ℕ → ℕ
paddr_of ppn = ppn * page_size % 2 ^ 64

abbrev pub ppn_of : ℕ → ℕ
ppn_of addr = addr / page_size

-- `a - b` in 64 bits
abbrev pub sub_u64 : ℕ → ℕ → ℕ
sub_u64 a b = (a + (2 ^ 64 - b % 2 ^ 64)) % 2 ^ 64

abbrev pub ppn_in_sec : MemSection → ℕ → Bool
ppn_in_sec sec ppn =
    not (invalid_ppn ppn)
    && (leb (sec.lower_addr) (paddr_of ppn) && ltb (paddr_of ppn) (sec.upper_addr))

unfoldable pub ppn_in_zone : MemZone → ℕ → Bool
ppn_in_zone zone ppn =
    not (invalid_ppn ppn)
    && (leb (zone.zone_lower) (paddr_of ppn) && ltb (paddr_of ppn) (zone.zone_upper))

-- `ZonePageCursor`; `secs` is the current section and those behind it.
pub record Cursor : Type 0 where
  pub secs : List MemSection
  pub sec_index : ℕ
  pub sec_base_index : ℕ

abbrev cursor_in : List MemSection → ℕ → ℕ → Option ℕ
cursor_in [] i base = none
cursor_in (sec ∷ rest) i base = if leb (sec.page_count) i then none else some (base + i)

-- `zone_page_cursor_page` and `zone_page_cursor_index`, which agree on a page.
unfoldable pub cursor_page : Cursor → Option ℕ
cursor_page cur = cursor_in (cur.secs) (cur.sec_index) (cur.sec_base_index)

unfoldable pub cursor_index : Cursor → ℕ
cursor_index cur = elim (cur.secs) [
  | [] ↦ 2 ^ 64 - 1
  | sec ∷ rest ↦ cur.sec_base_index + cur.sec_index
]

unfoldable pub cursor_from : List MemSection → ℕ → ℕ → Option Cursor
cursor_from [] base ppn = none
cursor_from (sec ∷ rest) base ppn =
    let i = sub_u64 ppn (ppn_of (sec.lower_addr)) in
    let later = cursor_from rest (base + sec.page_count) ppn in
    if ppn_in_sec sec ppn
    then (if leb (sec.page_count) i
        then none
        else some (record { secs = sec ∷ rest; sec_index = i; sec_base_index = base }))
    else later

-- `zone_page_cursor_init`
unfoldable pub cursor_init : MemZone → ℕ → Option Cursor
cursor_init zone ppn = if ppn_in_zone zone ppn then cursor_from (zone.sections) 0 ppn else none

abbrev next_in : List MemSection → ℕ → ℕ → Option Cursor
next_in [] i base = none
next_in (sec ∷ rest) i base =
    if ltb (i + 1) (sec.page_count)
    then some (record { secs = sec ∷ rest; sec_index = i + 1; sec_base_index = base })
    else elim rest [
      | [] ↦ none
      | next ∷ others ↦
          some
            (record { secs = next ∷ others; sec_index = 0; sec_base_index = base + sec.page_count })
    ]

-- `zone_page_cursor_next`; where it returns false, no caller looks at the cursor again.
unfoldable pub cursor_next : Cursor → Option Cursor
cursor_next cur = next_in (cur.secs) (cur.sec_index) (cur.sec_base_index)

-- The counts of a zone's pages. A page past the end is a fault.
abbrev pub Refs : Type 0
Refs = List ℕ

-- `phy_Page_ref_claim`: the counts, if the count was 0.
unfoldable pub ref_claim : Refs → ℕ → Result (Option Refs)
ref_claim refs page = do
  count ← access (get_elem? refs page)
  ok (if count == 0 then some (set refs page 1) else none)

-- `phy_Page_ref_put`
unfoldable pub ref_put : Refs → ℕ → Result Refs
ref_put refs page = do count ← access (get_elem? refs page); ok (set refs page (sub_u64 count 1))

abbrev pub positive : ℕ → Bool
positive count = not (count == 0) && ltb count (2 ^ 63)

-- `phy_Page_ref_get`: the counts, if the count was positive.
unfoldable pub ref_get : Refs → ℕ → Result (Option Refs)
ref_get refs page = do
  count ← access (get_elem? refs page)
  ok (if positive count then some (set refs page (count + 1)) else none)

-- `phy_Page_refed`
unfoldable pub refed : Refs → ℕ → Result Bool
refed refs page = do count ← access (get_elem? refs page); ok (positive count)
