-- ===== src/Mm/Pmm/Walk.antt =====
-- The cursor of include/rendezvos/mm/pmm.h goes through the pages of a zone one by one.
use rendezv_os.Base.{
  ℕ, ◌+◌, ◌≤◌, ◌<◌, ◌≡◌, ap, Bool, Bool-cases, Option-cases, true, false, leb, ltb, Option, none,
  some, List, [], ◌∷◌, if◌then◌else◌, inl, inr, arith, subst,
}
use rendezv_os.Mm.Pmm.{
  MemSection, MemZone, Cursor, cursor_page, cursor_next, cursor_in, next_in, cursor_from,
  cursor_init, ppn_in_sec, ppn_in_zone, sub_u64, ppn_of,
}

abbrev pub total_pages : List MemSection → ℕ
total_pages [] = 0
total_pages (sec ∷ rest) = sec.page_count + total_pages rest

-- No section is empty.
abbrev pub Populated : List MemSection → Type 0
Populated [] = Unit
Populated (sec ∷ rest) = (1 ≤ sec.page_count) × Populated rest

-- The sections from a cursor on end at the zone's last page.
pub record InZone (n : ℕ) (cur : Cursor) : Type 0 where
  pub populated : Populated (cur.secs)
  pub ends : cur.sec_base_index + total_pages (cur.secs) ≡ n

page-lt_in :
    (n : ℕ) (secs : List MemSection) (i base : ℕ) {p : ℕ}
    → base + total_pages secs ≡ n
    → cursor_in secs i base ≡ some p
    → p < n
page-lt_in n [] i base ends at = absurd (ground (arith, at))
page-lt_in n (sec ∷ rest) i base ends at = ground (arith, at, ends)

pub page-lt : {n p : ℕ} (cur : Cursor) → InZone n cur → cursor_page cur ≡ some p → p < n
unfolding cursor_page
page-lt {n} cur is at = page-lt_in n (cur.secs) (cur.sec_index) (cur.sec_base_index) (is.ends) at

abbrev Follows : ℕ → ℕ → Option Cursor → Type 0
Follows n p none = Unit
Follows n p (some cur) = InZone n cur × (cursor_page cur ≡ some (p + 1))

next_in-Follows :
    (n : ℕ) (secs : List MemSection) (i base p : ℕ)
    → InZone n (record { secs = secs; sec_index = i; sec_base_index = base })
    → cursor_in secs i base ≡ some p
    → Follows n p (next_in secs i base)
unfolding cursor_page
next_in-Follows n [] i base p is at = tt
next_in-Follows n (sec ∷ rest) i base p is at = elim (Bool-cases (ltb (i + 1) (sec.page_count))) [
  | inl more ↦
      let later : leb (sec.page_count) (i + 1) ≡ false = ground (arith, more) in
      rw more
        (record { populated = is.populated; ends = is.ends }, rw later (ground (arith, at, more)))
  | inr last ↦ rw last (other rest (is.populated) (is.ends) (ground (arith, at, last)))
]
  where
    other :
        (rest : List MemSection)
        → Populated (sec ∷ rest)
        → base + total_pages (sec ∷ rest) ≡ n
        → base + sec.page_count ≡ p + 1
        → Follows n p (elim rest [
          | [] ↦ none
          | next ∷ others ↦ some (record {
            secs = next ∷ others;
            sec_index = 0;
            sec_base_index = base + sec.page_count;
          })
        ])
    other [] pop ends at' = tt
    other (next ∷ others) (pos, (pos', pop)) ends at' =
        let first : leb (next.page_count) 0 ≡ false = ground (arith, pos') in
        (
          record { populated = (pos', pop); ends = omega (arith, ends) },
          rw first (ap some (omega (arith, at'))),
        )

pub cursor_next-Follows :
    {n p : ℕ} {cur cur' : Cursor}
    → InZone n cur
    → cursor_page cur ≡ some p
    → cursor_next cur ≡ some cur'
    → InZone n cur' × (cursor_page cur' ≡ some (p + 1))
unfolding cursor_page cursor_next
cursor_next-Follows {n} {p} {cur} is at next =
    subst (Follows n p) next
      (next_in-Follows n (cur.secs) (cur.sec_index) (cur.sec_base_index) p is at)

-- Only the last page has no successor.
abbrev Ends : ℕ → ℕ → Option Cursor → Type 0
Ends n p none = p + 1 ≡ n
Ends n p (some cur) = Unit

next_in-Ends :
    (n : ℕ) (secs : List MemSection) (i base p : ℕ)
    → base + total_pages secs ≡ n
    → cursor_in secs i base ≡ some p
    → Ends n p (next_in secs i base)
next_in-Ends n [] i base p ends at = absurd (ground (arith, at))
next_in-Ends n (sec ∷ []) i base p ends at = elim (Bool-cases (ltb (i + 1) (sec.page_count))) [
  | inl more ↦ rw more tt
  | inr last ↦ rw last (ground (arith, at, last, ends))
]
next_in-Ends n (sec ∷ (next ∷ others)) i base p ends at =
    elim (Bool-cases (ltb (i + 1) (sec.page_count))) [
      | inl more ↦ rw more tt
      | inr last ↦ rw last tt
    ]

pub cursor_next-some :
    {n p : ℕ} (cur : Cursor)
    → InZone n cur
    → cursor_page cur ≡ some p
    → p + 1 < n
    → (cur' : Cursor) × (cursor_next cur ≡ some cur')
unfolding cursor_page cursor_next
cursor_next-some {n} {p} cur is at lt = elim (Option-cases (cursor_next cur)) [
  | inr (cur', next) ↦ (cur', next)
  | inl none_left ↦
      let last : p + 1 ≡ n =
        subst (Ends n p) none_left
          (next_in-Ends n (cur.secs) (cur.sec_index) (cur.sec_base_index) p (is.ends) at) in
      absurd (omega (arith, last))
]

-- `cursor_init` starts at a page of the zone.
abbrev Starts : ℕ → Option Cursor → Type 0
Starts n none = Unit
Starts n (some cur) = InZone n cur × ((p : ℕ) × (cursor_page cur ≡ some p))

cursor_from-Starts :
    (n : ℕ) (secs : List MemSection) (base ppn : ℕ)
    → Populated secs
    → base + total_pages secs ≡ n
    → Starts n (cursor_from secs base ppn)
unfolding cursor_from cursor_page
cursor_from-Starts n [] base ppn pop ends = tt
cursor_from-Starts n (sec ∷ rest) base ppn (pos, pop) ends =
    elim (Bool-cases (ppn_in_sec sec ppn)) [
      | inr out ↦
          rw out (cursor_from-Starts n rest (base + sec.page_count) ppn pop (omega (arith, ends)))
      | inl here' ↦
          let i = sub_u64 ppn (ppn_of (sec.lower_addr)) in
          rw here' (elim (Bool-cases (leb (sec.page_count) i)) [
            | inl past ↦ rw past tt
            | inr inside ↦
                rw inside (record { populated = (pos, pop); ends = ends }, (base + i, rw inside))
          ])
    ]

pub cursor_init-Starts :
    {n : ℕ} {cur : Cursor} (zone : MemZone) (ppn : ℕ)
    → Populated (zone.sections)
    → total_pages (zone.sections) ≡ n
    → cursor_init zone ppn ≡ some cur
    → InZone n cur × ((p : ℕ) × (cursor_page cur ≡ some p))
unfolding cursor_init
cursor_init-Starts {n} zone ppn pop ends run = subst (Starts n) run (started (ppn_in_zone zone ppn))
  where
    started : (t : Bool) → Starts n (if t then cursor_from (zone.sections) 0 ppn else none)
    started true = cursor_from-Starts n (zone.sections) 0 ppn pop (omega (arith, ends))
    started false = tt
