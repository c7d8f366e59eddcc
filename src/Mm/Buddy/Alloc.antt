-- ===== src/Mm/Buddy/Alloc.antt =====
-- kernel/mm/buddy_pmm.c: `pmm_alloc_zone` and `pmm_alloc`. The functions run under the zone's lock; the
-- hook that reclaims pages, which runs without it, is a parameter.
use rendezv_os.Base.{
  ℕ, zero, suc, ◌+◌, ◌-◌, ◌^◌, Bool, true, false, ◌==◌, ltb, Option, none, some, List, [], ◌∷◌,
  if◌then◌else◌, get_elem?,
}
use rendezv_os.Base.{
  Result, ok, ◌>>=◌, access, Error, e_rendezvos, e_in_param, e_rend_no_mem, e_rend_again,
}
use rendezv_os.Mm.Pmm.{
  MemZone, Cursor, cursor_init, cursor_page, cursor_next, Refs, ref_claim, ref_put, sub_u64,
  invalid_ppn,
}
use rendezv_os.Mm.Buddy.{
  BuddyPage, Bucket, Buddy, max_order, unlink, with_bucket, push_head, more_pages, less_pages,
  set_order, log2_of_next_power_of_two,
}

abbrev pub reclaim_max_attempts : ℕ
reclaim_max_attempts = 64

-- The loop over the orders: the order and the first page of the first list that is not empty.
unfoldable pub find_order : ℕ → ℕ → List Bucket → Result (Option (ℕ × ℕ))
find_order zero order buckets = ok none
find_order (suc n) order buckets = do
  k ← access (get_elem? buckets order)
  elim (k.frames) [ [] ↦ find_order n (order + 1) buckets | page ∷ pages ↦ ok (some (order, page)) ]

-- What the claims end with: all are made, or one was refused after `done` of them.
pub data Claims : Type 0 where
  claimed : Refs → Claims
  stopped : ℕ → Refs → Claims

-- The counts after a claim, and the claims that follow it.
abbrev after_claim : Option Refs → ℕ → Refs → (Refs → Result Claims) → Result Claims
after_claim none done refs next = ok (stopped done refs)
after_claim (some refs') done refs next = next refs'

abbrev claim_page : Option ℕ → Refs → Result (Option Refs)
claim_page none refs = ok none
claim_page (some page) refs = ref_claim refs page

-- The loop of the claims, with the pages that remain.
unfoldable pub claim_pages : ℕ → ℕ → Cursor → Refs → Result Claims
claim_pages zero done cur refs = ok (claimed refs)
claim_pages (suc remaining) done cur refs = claim_page (cursor_page cur) refs >>= λ r.
    after_claim r done refs (λ refs'. elim remaining [
      | zero ↦ ok (claimed refs')
      | suc rest ↦ elim (cursor_next cur) [
        | none ↦ ok (stopped (done + 1) refs')
        | some cur' ↦ claim_pages remaining (done + 1) cur' refs'
      ]
    ])

abbrev put_page : Option ℕ → Refs → Result Refs
put_page none refs = ok refs
put_page (some page) refs = ref_put refs page

-- The loop of `fail_undo_refs`.
unfoldable pub undo_pages : ℕ → Cursor → Refs → Result Refs
undo_pages zero cur refs = ok refs
undo_pages (suc rest) cur refs = put_page (cursor_page cur) refs >>= λ refs'. elim rest [
  | zero ↦ ok refs'
  | suc more ↦ elim (cursor_next cur) [ none ↦ ok refs' | some cur' ↦ undo_pages rest cur' refs' ]
]

unfoldable pub fail_undo_refs : MemZone → ℕ → ℕ → Refs → Result Refs
fail_undo_refs zone ppn zero refs = ok refs
fail_undo_refs zone ppn (suc n) refs = elim (cursor_init zone ppn) [
  | none ↦ ok refs
  | some cur ↦ undo_pages (suc n) cur refs
]

-- `while (tmp_order > alloc_order)`: the halves of the block at `node`, of order `base + k`.
unfoldable pub split : ℕ → ℕ → ℕ → Buddy → Result Buddy
split zero base node b = ok b
split (suc k) base node b = do
  pages ← set_order node (some (base + k)) (b.pages)
  pages ← set_order (node + 2 ^ (base + k)) (some (base + k)) pages
  buckets ← with_bucket (base + suc k) (less_pages 1) (b.buckets)
  buckets ← with_bucket (base + k) (more_pages 2) buckets
  buckets ← with_bucket (base + k) (push_head node) (unlink node buckets)
  buckets ← with_bucket (base + k) (push_head (node + 2 ^ (base + k))) buckets
  split k base node (record b { pages = pages; buckets = buckets })

-- `(del_node + i)->order = -1` for `n` pages.
unfoldable pub mark_pages : ℕ → ℕ → List BuddyPage → Result (List BuddyPage)
mark_pages zero node pages = ok pages
mark_pages (suc n) node pages = set_order node none pages >>= mark_pages n (node + 1)

-- Phase 2, on a block of order `base + k`.
unfoldable pub take_block : ℕ → ℕ → ℕ → Buddy → Result Buddy
take_block k base node b = do
  s ← split k base node b
  pages ← mark_pages (2 ^ base) node (s.pages)
  buckets ← with_bucket base (less_pages 1) (unlink node (s.buckets))
  ok (record s {
    pages = pages;
    buckets = buckets;
    total_avaliable_pages = sub_u64 (s.total_avaliable_pages) (2 ^ base);
  })

-- What an allocation leaves: the first page and their number, or the error, with no page.
pub data Alloced : Type 0 where
  alloced : ℕ → ℕ → Buddy → Alloced
  refused : Error → Buddy → Alloced

module _ (zone : MemZone) where
  abbrev pub after_claims : ℕ → ℕ → ℕ → ℕ → Buddy → Claims → Result Alloced
  after_claims k order node ppn b (claimed refs) = do
    b' ← take_block k order node (record b { refs = refs })
    ok (alloced ppn (2 ^ order) b')
  after_claims k order node ppn b (stopped done refs) = do
    refs' ← fail_undo_refs zone ppn done refs
    ok (refused e_rendezvos (record b { refs = refs' }))

  -- The block at `node`, which is the head of the list of order `order + k`.
  abbrev pub alloc_block : ℕ → ℕ → ℕ → BuddyPage → Buddy → Result Alloced
  alloc_block k order node p b = elim (p.order) [
    | none ↦ ok (refused e_rendezvos b)
    | some o ↦ elim (cursor_init zone (p.ppn)) [
      | none ↦ ok (refused e_rendezvos b)
      | some cur ↦ claim_pages (2 ^ order) 0 cur (b.refs) >>= after_claims k order node (p.ppn) b
    ]
  ]

  unfoldable pub pmm_alloc_zone : ℕ → Buddy → Result Alloced
  pmm_alloc_zone order b = do
    found ← find_order (max_order + 1 - order) order (b.buckets)
    elim found [
      | none ↦ ok (refused e_rend_no_mem b)
      | some q ↦
          access (get_elem? (b.pages) (q.1)) >>= λ p. alloc_block (q.0 - order) order (q.1) p b
    ]

  -- A `ppn` that is not negative and the error of broken data are returned; the rest goes to
  -- `try_reclaim`.
  abbrev pub settled : Alloced → Option Alloced × Buddy
  settled (alloced ppn n b) = (if invalid_ppn ppn then none else some (alloced ppn n b), b)
  settled (refused e_rendezvos b) = (some (refused e_rendezvos b), b)
  settled (refused code b) = (none, b)

  -- One pass of `retry`.
  abbrev pub attempt : ℕ → Buddy → Result (Option Alloced × Buddy)
  attempt page_number b =
      if ltb (b.total_avaliable_pages) page_number
      then ok (none, b)
      else if ltb (2 ^ max_order) page_number
      then ok (some (refused e_rendezvos b), b)
      else pmm_alloc_zone (log2_of_next_power_of_two page_number) b >>= λ r. ok (settled r)

  -- `reclaim_fn`: asked for a number of pages, in its n-th attempt, it tells whether to go on.
  module _ (reclaim_fn : Option (ℕ → ℕ → Buddy → Bool × Buddy)) where
    -- `try_reclaim`, where the passes that are left follow.
    abbrev pub reclaimed : ℕ → (Buddy → Result Alloced) → Bool × Buddy → Result Alloced
    reclaimed page_number again (true, b) = again b
    reclaimed page_number again (false, b) = ok (refused e_rend_no_mem b)

    abbrev pub after_attempt :
        ℕ → ℕ → Option (Buddy → Result Alloced) → Option Alloced × Buddy → Result Alloced
    after_attempt page_number tried again (some r, b) = ok r
    after_attempt page_number tried again (none, b) = elim reclaim_fn [
      | none ↦ ok (refused e_rend_again b)
      | some f ↦ elim again [
        | none ↦ ok (refused e_rend_again b)
        | some next ↦ reclaimed page_number next (f page_number tried b)
      ]
    ]

    -- The passes, with the attempts to reclaim that are left.
    unfoldable pub retry : ℕ → ℕ → ℕ → Buddy → Result Alloced
    retry zero tried page_number b = attempt page_number b >>= after_attempt page_number tried none
    retry (suc n) tried page_number b =
        attempt page_number b
        >>= after_attempt page_number tried (some (λ b'. retry n (tried + 1) page_number b'))

    unfoldable pub pmm_alloc : ℕ → Buddy → Result Alloced
    pmm_alloc page_number b =
        if page_number == 0
        then ok (refused e_in_param b)
        else retry reclaim_max_attempts 0 page_number b
