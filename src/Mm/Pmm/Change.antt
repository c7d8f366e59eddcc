-- ===== src/Mm/Pmm/Change.antt =====
-- include/rendezvos/mm/pmm.h: `pmm_change_pages_ref`, under the zone's lock.
pub mod Moves
pub mod Range
pub mod Outcome
mod Tests
use rendezv_os.Base.{
  ℕ, zero, suc, ◌+◌, ◌≤◌, ◌≡◌, Bool, true, false, ◌==◌, not, ◌||◌, Option, none, some,
  if◌then◌else◌,
}
use rendezv_os.Base.{Result, ok, ◌>>=◌, Error, e_rendezvos, e_in_param}
use rendezv_os.Mm.Pmm.{
  MemZone, Cursor, ppn_in_zone, cursor_init, cursor_page, cursor_next, Refs, ref_put, ref_get,
  refed,
}

-- The change of one page: the counts, if it is made.
abbrev pub change_one : Bool → Option ℕ → Refs → Result (Option Refs)
change_one increment none refs = ok none
change_one true (some page) refs = ref_get refs page
change_one false (some page) refs = refed refs page >>= λ held. elim held [
  | false ↦ ok none
  | true ↦ ref_put refs page >>= λ refs'. ok (some refs')
]

-- What the loop ends with: all changes are made, or it stops at the number of a page.
pub data Changes : Type 0 where
  all_made : Refs → Changes
  stopped_at : ℕ → Refs → Changes

abbrev pub after_change : Option Refs → ℕ → Refs → (Refs → Result Changes) → Result Changes
after_change none i refs next = ok (stopped_at i refs)
after_change (some refs') i refs next = next refs'

-- The loop, with the pages that remain. Where the cursor cannot go on, `i` still counts the page that has
-- just been changed.
unfoldable pub change_pages : Bool → ℕ → ℕ → Cursor → Refs → Result Changes
change_pages increment zero i cur refs = ok (all_made refs)
change_pages increment (suc remaining) i cur refs =
    change_one increment (cursor_page cur) refs >>= λ r. after_change r i refs (λ refs'.
      elim remaining [
        | zero ↦ ok (all_made refs')
        | suc rest ↦ elim (cursor_next cur) [
          | none ↦ ok (stopped_at i refs')
          | some cur' ↦ change_pages increment remaining (i + 1) cur' refs'
        ]
      ])

abbrev pub kept : Refs → Option Refs → Refs
kept refs none = refs
kept refs (some refs') = refs'

-- The change back of one page.
abbrev pub change_back : Bool → Option ℕ → Refs → Result Refs
change_back increment none refs = ok refs
change_back true (some page) refs = ref_put refs page
change_back false (some page) refs = ref_get refs page >>= λ r. ok (kept refs r)

-- The loop of `fail_unroll`. A cursor that could not go on has no page from then on.
unfoldable pub unroll : Bool → ℕ → Cursor → Refs → Result Refs
unroll increment zero cur refs = ok refs
unroll increment (suc rest) cur refs = change_back increment (cursor_page cur) refs >>= λ refs'.
    elim rest [
      | zero ↦ ok refs'
      | suc more ↦ elim (cursor_next cur) [
        | none ↦ ok refs'
        | some cur' ↦ unroll increment rest cur' refs'
      ]
    ]

-- What the function leaves: the counts, and the error code, if any.
pub data RefChange : Type 0 where
  changed : Refs → RefChange
  failed : Error → Refs → RefChange

abbrev pub after_changes : MemZone → ℕ → Bool → Changes → Result RefChange
after_changes zone start_ppn increment (all_made refs) = ok (changed refs)
after_changes zone start_ppn increment (stopped_at i refs) = elim (cursor_init zone start_ppn) [
  | none ↦ ok (failed e_rendezvos refs)
  | some cur ↦ unroll increment i cur refs >>= λ refs'. ok (failed e_rendezvos refs')
]

unfoldable pub pmm_change_pages_ref : MemZone → ℕ → ℕ → Bool → Refs → Result RefChange
pmm_change_pages_ref zone start_ppn page_number increment refs =
    if page_number == 0 || not (ppn_in_zone zone start_ppn)
    then ok (failed e_in_param refs)
    else elim (cursor_init zone start_ppn) [
      | none ↦ ok (failed e_in_param refs)
      | some cur ↦
          change_pages increment page_number 0 cur refs >>= after_changes zone start_ppn increment
    ]
