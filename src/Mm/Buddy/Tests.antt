-- ===== src/Mm/Buddy/Tests.antt =====
-- Runs of kernel/mm/buddy_pmm.c.
use rendezv_os.Base.{
  ℕ, ◌+◌, ◌-◌, ◌*◌, ◌^◌, ◌≡◌, refl, Option, none, some, List, [], ◌∷◌, map, replicate,
}
use rendezv_os.Base.{Result, ok, fault, ◌>>=◌}
use rendezv_os.Mm.Pmm.{
  MemZone, Refs, ppn_in_zone, cursor_from, cursor_init, cursor_page, cursor_next, ref_claim,
}
use rendezv_os.Mm.Buddy.{
  Bucket, Buddy, with_bucket, set_order, log2_of_next_power_of_two, log_sum, log_step,
}
use rendezv_os.Base.{Bool, false, ◌≤◌, arith}
use rendezv_os.Base.Returns.{Gives}
use rendezv_os.Mm.Buddy.Log.{log2_of_next_power_of_two-least}
use rendezv_os.Mm.Buddy.Check.{is_sound-Sound}
use rendezv_os.Mm.Buddy.Free.{pmm_free}
use rendezv_os.Mm.Buddy.Zone
use rendezv_os.Mm.Buddy.Zone.{pmm_alloc_zone-Outcome}
use rendezv_os.Mm.Buddy.Release
use rendezv_os.Mm.Buddy.Release.{pmm_free-Outcome}
use rendezv_os.Mm.Buddy.Request.{Served, pmm_alloc-Served}
use rendezv_os.Mm.Buddy.Init.{pmm_init, single_pages, passes, paired_pages, pairs_up}
use rendezv_os.Mm.Buddy.Alloc.{
  Alloced, alloced, refused, find_order, claim_pages, split, mark_pages, take_block, pmm_alloc_zone,
  retry, pmm_alloc,
}

-- A zone of one section: `n` pages from frame 0x400 on.
abbrev zone : ℕ → MemZone
zone n = record {
  sections =
      (record { page_count = n; lower_addr = 0x400000; upper_addr = 0x400000 + n * 4096 }) ∷ [];
  zone_lower = 0x400000;
  zone_upper = 0x400000 + n * 4096;
  zone_total_pages = n;
}

abbrev started : ℕ → Result Buddy
started n = pmm_init (zone n) (replicate n 0) 0 4096

abbrev lists : Result Buddy → Result (List (ℕ × List ℕ))
lists r = r >>= λ b. ok (map (λ (k : Bucket). (k.aval_pages, k.frames)) (b.buckets))

-- Four pages become one block.
four : lists (started 4) ≡ ok ((0, []) ∷ (0, []) ∷ (1, 0 ∷ []) ∷ replicate 8 (0, []))
unfolding pmm_init single_pages passes paired_pages pairs_up with_bucket set_order
four = refl

-- With three pages the last pass pairs page 0 with a single page: the block has a fourth page, which does
-- not exist, and the count of order 1 wraps.
three : lists (started 3) ≡ ok ((1, []) ∷ (2 ^ 64 - 1, []) ∷ (1, 0 ∷ []) ∷ replicate 8 (0, []))
unfolding pmm_init single_pages passes paired_pages pairs_up with_bucket set_order
three = refl

abbrev after_alloc : ℕ → Alloced → Option (ℕ × ℕ × Refs)
after_alloc n (alloced ppn k b) = some (ppn, k, b.refs)
after_alloc n (refused code b) = none

-- Two of the four pages, from the front.
alloc_run :
    (started 4 >>= λ b. pmm_alloc (zone 4) none 2 b >>= λ r. ok (after_alloc 4 r))
    ≡ ok (some (0x400, 2, 1 ∷ 1 ∷ 0 ∷ 0 ∷ []))
unfolding pmm_init single_pages passes paired_pages pairs_up with_bucket set_order pmm_alloc retry
    log2_of_next_power_of_two pmm_alloc_zone find_order cursor_init cursor_from ppn_in_zone
    claim_pages cursor_page cursor_next ref_claim take_block split mark_pages log_sum log_step
alloc_run = refl

abbrev one_more : Alloced → Result Alloced
one_more (alloced ppn k b) = pmm_alloc (zone 3) none 1 b
one_more (refused code b) = ok (refused code b)

-- The third single page of the zone of three is in the block of pages 2 and 3, and its split writes to
-- page 3.
third_page :
    (started 3 >>= λ b. pmm_alloc (zone 3) none 1 b >>= λ r. one_more r >>= λ r'. one_more r')
    ≡ fault
unfolding pmm_init single_pages passes paired_pages pairs_up with_bucket set_order pmm_alloc retry
    log2_of_next_power_of_two pmm_alloc_zone find_order cursor_init cursor_from ppn_in_zone
    claim_pages cursor_page cursor_next ref_claim take_block split mark_pages log_sum log_step
third_page = refl

abbrev empty_lists : List Bucket
empty_lists = replicate 8 (record { aval_pages = 0; frames = [] })

-- The state after the start with four pages.
abbrev four_pages : Buddy
four_pages = record {
  pages =
      record { ppn = 0x400; order = some 2 }
      ∷ record { ppn = 0x401; order = none }
      ∷ record { ppn = 0x402; order = none }
      ∷ record { ppn = 0x403; order = none }
      ∷ [];
  buddy_page_number = 4;
  total_avaliable_pages = 4;
  buckets =
      record { aval_pages = 0; frames = [] }
      ∷ record { aval_pages = 0; frames = [] }
      ∷ record { aval_pages = 1; frames = 0 ∷ [] }
      ∷ empty_lists;
  refs = 0 ∷ 0 ∷ 0 ∷ 0 ∷ [];
}

started_four : started 4 ≡ ok four_pages
unfolding pmm_init single_pages passes paired_pages pairs_up with_bucket set_order
started_four = refl

-- Two pages are allocated, the other two are a block.
abbrev two_held : Buddy
two_held = record {
  pages =
      record { ppn = 0x400; order = none }
      ∷ record { ppn = 0x401; order = none }
      ∷ record { ppn = 0x402; order = some 1 }
      ∷ record { ppn = 0x403; order = none }
      ∷ [];
  buddy_page_number = 4;
  total_avaliable_pages = 2;
  buckets =
      record { aval_pages = 0; frames = [] }
      ∷ record { aval_pages = 1; frames = 2 ∷ [] }
      ∷ record { aval_pages = 0; frames = [] }
      ∷ empty_lists;
  refs = 1 ∷ 1 ∷ 0 ∷ 0 ∷ [];
}

alloc_two : pmm_alloc_zone (zone 4) 1 four_pages ≡ ok (alloced 0x400 2 two_held)
unfolding pmm_alloc_zone find_order cursor_init cursor_from ppn_in_zone claim_pages cursor_page
    cursor_next ref_claim take_block split mark_pages with_bucket set_order
alloc_two = refl

log2_of_next_power_of_two-least_example :
    (5 ≤ 2 ^ log2_of_next_power_of_two 5) × ((k : ℕ) → 5 ≤ 2 ^ k → log2_of_next_power_of_two 5 ≤ k)
log2_of_next_power_of_two-least_example =
    log2_of_next_power_of_two-least 5 (omega arith) (omega arith)

pmm_alloc_zone-Outcome_example :
    Gives (Zone.Outcome (zone 4) 1 four_pages) (pmm_alloc_zone (zone 4) 1 four_pages)
pmm_alloc_zone-Outcome_example =
    pmm_alloc_zone-Outcome (zone 4) 1 four_pages (is_sound-Sound 4 four_pages refl)
      (omega arith, tt) refl (omega arith)

-- A hook that reclaims nothing.
abbrev give_up : ℕ → ℕ → Buddy → Bool × Buddy
give_up n tried b = (false, b)

pmm_alloc-Served_example :
    Gives (Served (zone 4) 3) (pmm_alloc (zone 4) (some give_up) 3 four_pages)
pmm_alloc-Served_example =
    pmm_alloc-Served (zone 4) (some give_up) 3 four_pages (omega arith, tt) (λ n tried b fits. fits)
      (record { sound = is_sound-Sound 4 four_pages refl; all_counted = refl })

pmm_free-Outcome_example :
    Gives (Release.Outcome (zone 4) 0x400 2 two_held) (pmm_free (zone 4) 0x400 2 two_held)
pmm_free-Outcome_example =
    pmm_free-Outcome (zone 4) 0x400 2 two_held (is_sound-Sound 4 two_held refl) (omega arith, tt)
      refl
