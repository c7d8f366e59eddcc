-- ===== src/Mm/Buddy/Init.antt =====
-- kernel/mm/buddy_pmm.c: `pmm_init`.
use Prim.Native.Nat.{bit_and}
use rendezv_os.Base.{
  ℕ, zero, suc, ◌+◌, ◌-◌, ◌*◌, ◌%◌, ◌^◌, Bool, true, false, ◌&&◌, not, ◌==◌, ltb, Option, none,
  some, List, [], ◌∷◌, ◌++◌, if◌then◌else◌, get_elem?, length, replicate,
}
use rendezv_os.Base.{Result, ok, fault, ◌>>=◌, access}
use rendezv_os.Mm.Pmm.{MemSection, MemZone, page_size, ppn_of, sub_u64, Refs}
use rendezv_os.Mm.Buddy.{
  BuddyPage, Buddy, max_order, unlink, with_bucket, push_tail, more_pages, less_pages, set_order,
  page_record_size,
}

-- The frames of a section, from page `j` on. Their order is not written yet.
abbrev section_pages : ℕ → ℕ → MemSection → List BuddyPage
section_pages zero j sec = []
section_pages (suc n) j sec =
    (record { ppn = ppn_of ((sec.lower_addr + j * page_size) % 2 ^ 64); order = none })
    ∷ section_pages n (j + 1) sec

abbrev zone_pages : List MemSection → List BuddyPage
zone_pages [] = []
zone_pages (sec ∷ rest) = section_pages (sec.page_count) 0 sec ++ zone_pages rest

-- The first pass, which puts each page on the list of order 0.
unfoldable pub single_pages : ℕ → ℕ → Buddy → Result Buddy
single_pages zero index b = ok b
single_pages (suc n) index b = do
  buckets ← with_bucket 0 (push_tail index) (b.buckets)
  pages ← set_order index (some 0) (b.pages)
  buckets ← with_bucket 0 (more_pages 1) buckets
  single_pages n (index + 1) (record b {
    pages = pages;
    buckets = buckets;
    total_avaliable_pages = (b.total_avaliable_pages + 1) % 2 ^ 64;
  })

abbrev next_order : Option ℕ → Option ℕ
next_order none = some 0
next_order (some o) = some (o + 1)

-- The test of the later passes: the page is aligned, and the page `half` behind it follows it.
unfoldable pub pairs_up : ℕ → ℕ → ℕ → Buddy → Result Bool
pairs_up order half index b = do
  p ← access (get_elem? (b.pages) index)
  if (bit_and (p.ppn) (2 ^ order - 1) == 0) && ltb (index + half) (b.buddy_page_number)
      then (access (get_elem? (b.pages) (index + half)) >>= λ (q : BuddyPage).
          ok (q.ppn == (p.ppn + half) % 2 ^ 64))
      else ok false

-- A pass for order `suc k`, over `n` pages.
unfoldable pub paired_pages : ℕ → ℕ → ℕ → Buddy → Result Buddy
paired_pages k zero index b = ok b
paired_pages k (suc n) index b = do
  pairs ← pairs_up (suc k) (2 ^ k) index b
  elim pairs [
    | false ↦ paired_pages k n (index + 1) b
    | true ↦ do
      pages ← set_order (index + 2 ^ k) none (b.pages)
      p ← access (get_elem? pages index)
      pages ← set_order index (next_order (p.order)) pages
      buckets ← with_bucket k (less_pages 2) (unlink (index + 2 ^ k) (unlink index (b.buckets)))
      buckets ← with_bucket (suc k) (push_tail index) buckets
      buckets ← with_bucket (suc k) (more_pages 1) buckets
      paired_pages k n (index + 1) (record b { pages = pages; buckets = buckets })
  ]

-- The passes for the orders from `suc k` on.
unfoldable pub passes : ℕ → ℕ → Buddy → Result Buddy
passes zero k b = ok b
passes (suc n) k b = paired_pages k (b.buddy_page_number) 0 b >>= passes n (k + 1)

-- The memory for the pages begins at `start` and ends at `end`.
unfoldable pub pmm_init : MemZone → Refs → ℕ → ℕ → Result Buddy
pmm_init zone refs start end =
    let pages = zone_pages (zone.sections) in
    let number = zone.zone_total_pages in
    let b : Buddy = record {
      pages = pages;
      buddy_page_number = number;
      total_avaliable_pages = 0;
      buckets = replicate (max_order + 1) (record { aval_pages = 0; frames = [] });
      refs = refs;
    } in
    if ltb (sub_u64 end start) (number * page_record_size % 2 ^ 64)
    then ok (record b { pages = [] })
    else if ltb (sub_u64 end start) (length pages * page_record_size)
    then fault
    else if not (length pages == number)
    then ok b
    else single_pages number 0 b >>= passes max_order 0
