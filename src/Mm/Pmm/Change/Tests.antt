-- ===== src/Mm/Pmm/Change/Tests.antt =====
-- Runs of `pmm_change_pages_ref`.
use rendezv_os.Base.{◌≡◌, refl, true, false, [], ◌∷◌, arith}
use rendezv_os.Base.{ok, e_rendezvos}
use rendezv_os.Base.Returns.{Gives}
use rendezv_os.Mm.Pmm.{
  MemZone, Refs, ppn_in_zone, cursor_from, cursor_init, cursor_page, cursor_next, ref_get, ref_put,
  refed,
}
use rendezv_os.Mm.Pmm.Change.{changed, failed, change_pages, unroll, pmm_change_pages_ref}
use rendezv_os.Mm.Pmm.Change.Outcome.{
  InRange, Raised, Lowered, pmm_change_pages_ref-Raised, pmm_change_pages_ref-Lowered,
}

-- Four pages from frame 0x400 on, in two sections.
abbrev zone : MemZone
zone = record {
  sections =
      record { page_count = 2; lower_addr = 0x400000; upper_addr = 0x402000 }
      ∷ record { page_count = 2; lower_addr = 0x402000; upper_addr = 0x404000 }
      ∷ [];
  zone_lower = 0x400000;
  zone_upper = 0x404000;
  zone_total_pages = 4;
}

abbrev counts : Refs
counts = 1 ∷ 2 ∷ 1 ∷ 0 ∷ []

raise_three : pmm_change_pages_ref zone 0x400 3 true counts ≡ ok (changed (2 ∷ 3 ∷ 2 ∷ 0 ∷ []))
unfolding pmm_change_pages_ref change_pages unroll ppn_in_zone cursor_from cursor_init cursor_page
    cursor_next ref_get ref_put refed
raise_three = refl

raise_four : pmm_change_pages_ref zone 0x400 4 true counts ≡ ok (failed e_rendezvos counts)
unfolding pmm_change_pages_ref change_pages unroll ppn_in_zone cursor_from cursor_init cursor_page
    cursor_next ref_get ref_put refed
raise_four = refl

-- The pages that had one reference stay without one.
lower_four :
    pmm_change_pages_ref zone 0x400 4 false counts ≡ ok (failed e_rendezvos (0 ∷ 2 ∷ 0 ∷ 0 ∷ []))
unfolding pmm_change_pages_ref change_pages unroll ppn_in_zone cursor_from cursor_init cursor_page
    cursor_next ref_get ref_put refed
lower_four = refl

-- A range that leaves the zone: the call fails, and the last page keeps its new reference.
raise_past_end :
    pmm_change_pages_ref zone 0x402 3 true (1 ∷ 1 ∷ 1 ∷ 1 ∷ [])
    ≡ ok (failed e_rendezvos (1 ∷ 1 ∷ 1 ∷ 2 ∷ []))
unfolding pmm_change_pages_ref change_pages unroll ppn_in_zone cursor_from cursor_init cursor_page
    cursor_next ref_get ref_put refed
raise_past_end = refl

all_four : InRange zone 0x400 0 4 counts
unfolding ppn_in_zone cursor_from cursor_init cursor_page
all_four = record {
  populated = (omega arith, (omega arith, tt));
  all_counted = refl;
  starts = (record { secs = zone.sections; sec_index = 0; sec_base_index = 0 }, refl, refl);
  some_pages = omega arith;
  fits = omega arith;
}

pmm_change_pages_ref-Raised_example :
    Gives (Raised 0 4 counts) (pmm_change_pages_ref zone 0x400 4 true counts)
pmm_change_pages_ref-Raised_example = pmm_change_pages_ref-Raised zone 0x400 0 4 counts all_four

pmm_change_pages_ref-Lowered_example :
    Gives (Lowered 0 4 counts) (pmm_change_pages_ref zone 0x400 4 false counts)
pmm_change_pages_ref-Lowered_example = pmm_change_pages_ref-Lowered zone 0x400 0 4 counts all_four
