-- ===== src/Mm/Pmm/Change/Outcome.antt =====
-- What `pmm_change_pages_ref` of include/rendezvos/mm/pmm.h leaves.
use rendezv_os.Base.{
  ℕ, ◌+◌, ◌≤◌, ◌<◌, ◌≡◌, Bool, Bool-cases, true, false, ◌==◌, some, inl, inr, get_elem?, length,
  if◌then◌else◌, arith,
}
use rendezv_os.Base.Returns.{Gives, Gives-bind, Gives-map}
use rendezv_os.Mm.Pmm.{
  MemZone, Cursor, ppn_in_zone, cursor_page, cursor_init, Refs, positive, sub_u64,
}
use rendezv_os.Mm.Pmm.Walk.{InZone, Populated, total_pages, cursor_init-Starts}
use rendezv_os.Mm.Pmm.Change.{
  Changes, all_made, stopped_at, change_pages, unroll, RefChange, changed, failed, after_changes,
  pmm_change_pages_ref,
}
use rendezv_os.Mm.Pmm.Change.Moves.{Moved, Moved-same}
use rendezv_os.Mm.Pmm.Change.Range.{step, back, Made, change_pages-Made, unroll-Moved}

-- One of the pages has no positive count.
abbrev pub Unheld : ℕ → ℕ → Refs → Type 0
Unheld p k refs =
    (q : ℕ) × (p ≤ q) × (q < p + k) × ((c : ℕ) × (get_elem? refs q ≡ some c) × (positive c ≡ false))

-- A range of `k` pages that starts at the page of `ppn`, page `p`, and lies inside the zone.
pub record InRange (zone : MemZone) (ppn p k : ℕ) (refs : Refs) : Type 0 where
  pub populated : Populated (zone.sections)
  pub all_counted : total_pages (zone.sections) ≡ length refs
  pub starts : (cur : Cursor) × (cursor_init zone ppn ≡ some cur) × (cursor_page cur ≡ some p)
  pub some_pages : 1 ≤ k
  pub fits : p + k ≤ length refs

abbrev Left : Bool → ℕ → ℕ → Refs → RefChange → Type 0
Left inc p k refs (changed refs') = Moved (step inc) p k refs refs'
Left inc p k refs (failed code refs') =
    (j : ℕ) × (j < k)
    × Moved (back inc) p j refs refs'
    × ((c : ℕ) × (get_elem? refs (p + j) ≡ some c) × (positive c ≡ false))

in_zone :
    (zone : MemZone) (ppn : ℕ) (cur : Cursor)
    → cursor_init zone ppn ≡ some cur
    → ppn_in_zone zone ppn ≡ true
unfolding cursor_init
in_zone zone ppn cur start = elim (Bool-cases (ppn_in_zone zone ppn)) [
  | inl inside ↦ inside
  | inr out ↦ absurd (ground (arith, start, out))
]

pmm_change_pages_ref-Left :
    (zone : MemZone) (ppn p k : ℕ) (inc : Bool) (refs : Refs)
    → InRange zone ppn p k refs
    → Gives (Left inc p k refs) (pmm_change_pages_ref zone ppn k inc refs)
unfolding pmm_change_pages_ref
pmm_change_pages_ref-Left zone ppn p k inc refs r =
    let (cur, start, at) = r.starts in
    let (is, _) = cursor_init-Starts zone ppn (r.populated) (r.all_counted) start in
    let some_pages : (k == 0) ≡ false = ground (arith, r.some_pages) in
    rw (some_pages, in_zone zone ppn cur start, start)
      (Gives-bind (Made inc 0 p k refs) (Left inc p k refs) (change_pages inc k 0 cur refs) _
        (change_pages-Made inc k 0 p cur refs is at (r.fits))
        (λ c made. after cur start is at c made))
  where
    after :
        (cur : Cursor)
        → cursor_init zone ppn ≡ some cur
        → InZone (length refs) cur
        → cursor_page cur ≡ some p
        → (c : Changes) → Made inc 0 p k refs c
        → Gives (Left inc p k refs) (after_changes zone ppn inc c)
    after cur start is at (all_made refs') m = m
    after cur start is at (stopped_at d refs') (j, e, short, m, unheld) =
        let plain : d ≡ j = omega (arith, e) in
        rw (after_changes, start, plain)
          (Gives-bind (Moved (back inc) p j refs) (Left inc p k refs) (unroll inc j cur refs') _
            (unroll-Moved inc j p cur refs refs' is at (omega (arith, r.fits)) m)
            (λ out m'. (j, short, m', unheld)))

abbrev pub Raised : ℕ → ℕ → Refs → RefChange → Type 0
Raised p k refs (changed refs') = Moved (λ c. c + 1) p k refs refs'
Raised p k refs (failed code refs') = (refs' ≡ refs) × Unheld p k refs

-- On a range inside the zone, an increment adds a reference to each page, all of which had one; or it
-- fails, as a page has none, and leaves all counts as they were.
pub pmm_change_pages_ref-Raised :
    (zone : MemZone) (ppn p k : ℕ) (refs : Refs)
    → InRange zone ppn p k refs
    → Gives (Raised p k refs) (pmm_change_pages_ref zone ppn k true refs)
pmm_change_pages_ref-Raised zone ppn p k refs r =
    Gives-map (Left true p k refs) (Raised p k refs) (pmm_change_pages_ref zone ppn k true refs)
      undone (pmm_change_pages_ref-Left zone ppn p k true refs r)
  where
    undone : (c : RefChange) → Left true p k refs c → Raised p k refs c
    undone (changed refs') m = m
    undone (failed code refs') (j, short, m, unheld) = (
      Moved-same p j refs refs' (omega (arith, r.fits)) m,
      (p + j, omega arith, omega arith, unheld),
    )

abbrev pub Lowered : ℕ → ℕ → Refs → RefChange → Type 0
Lowered p k refs (changed refs') = Moved (λ c. sub_u64 c 1) p k refs refs'
Lowered p k refs (failed code refs') =
    (j : ℕ) × (j < k)
    × Moved (λ c. if c == 1 then 0 else c) p j refs refs'
    × ((c : ℕ) × (get_elem? refs (p + j) ≡ some c) × (positive c ≡ false))

-- On a range inside the zone, a decrement takes a reference from each page, all of which had one; or it
-- fails at a page that has none. Then the pages before it that had one reference have none, and the
-- others have theirs back.
pub pmm_change_pages_ref-Lowered :
    (zone : MemZone) (ppn p k : ℕ) (refs : Refs)
    → InRange zone ppn p k refs
    → Gives (Lowered p k refs) (pmm_change_pages_ref zone ppn k false refs)
pmm_change_pages_ref-Lowered zone ppn p k refs r =
    Gives-map (Left false p k refs) (Lowered p k refs) (pmm_change_pages_ref zone ppn k false refs)
      same (pmm_change_pages_ref-Left zone ppn p k false refs r)
  where
    same : (c : RefChange) → Left false p k refs c → Lowered p k refs c
    same (changed refs') m = m
    same (failed code refs') left = left
