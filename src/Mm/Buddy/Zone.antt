-- ===== src/Mm/Buddy/Zone.antt =====
-- `pmm_alloc_zone` of kernel/mm/buddy_pmm.c, on lists whose blocks lie inside the zone.
use rendezv_os.Mm.Buddy.Lists.{mem, Sound, IsBuddy}
use native.Mathlib.Nat.{one-le-pow}
use rendezv_os.Base.{
  ℕ, zero, suc, ◌+◌, ◌-◌, ◌^◌, ◌≤◌, ◌≡◌, refl, ap, sym, ◌∙◌, subst, Option-cases, true, Option,
  none, some, List, [], ◌∷◌, inl, inr, get_elem?, length, get_elem?-some, arith,
}
use rendezv_os.Base.{ok, ◌>>=◌, access, e_rend_no_mem}
use rendezv_os.Base.Returns.{Gives, Gives-bind, Gives-map}
use rendezv_os.Mm.Pmm.{MemZone, Cursor, cursor_page, cursor_init, Refs}
use rendezv_os.Mm.Pmm.Walk.{InZone, Populated, total_pages, cursor_init-Starts}
use rendezv_os.Mm.Pmm.Marks.{AllAre, Marked, Marked-none, Marked-back}
use rendezv_os.Mm.Buddy.{BuddyPage, Bucket, Buddy, max_order}
use rendezv_os.Mm.Buddy.Alloc.{
  Claims, claimed, stopped, Alloced, alloced, refused, find_order, claim_pages, undo_pages,
  fail_undo_refs, take_block, after_claims, alloc_block, pmm_alloc_zone,
}
use rendezv_os.Mm.Buddy.Claims.{Claimed, Steps, claim_pages-Claimed, undo_pages-Marked}
use rendezv_os.Mm.Buddy.Split.{take_block-Sound}

mem-head : (x : ℕ) (xs : List ℕ) → mem x (x ∷ xs) ≡ true
mem-head x xs = ground arith

abbrev First : ℕ → List Bucket → Option (ℕ × ℕ) → Type 0
First order buckets none = Unit
First order buckets (some q) =
    (order ≤ q.0)
    × (q.0 ≤ max_order)
    × ((k : Bucket) × (rest : List ℕ) × (get_elem? buckets (q.0) ≡ some k)
        × (k.frames ≡ q.1 ∷ rest))

find_order-First :
    (n order lowest : ℕ) (buckets : List Bucket)
    → length buckets ≡ max_order + 1
    → n + order ≤ max_order + 1
    → lowest ≤ order
    → Gives (First lowest buckets) (find_order n order buckets)
unfolding find_order
find_order-First zero order lowest buckets len le from = tt
find_order-First (suc n) order lowest buckets len le from =
    let (k, got) = get_elem?-some buckets order (omega (arith, len)) in
    rw got (
      go k got (find_order-First n (order + 1) lowest buckets len (omega arith) (omega arith))
        (k.frames) refl)
  where
    go :
        (k : Bucket)
        → get_elem? buckets order ≡ some k
        → Gives (First lowest buckets) (find_order n (order + 1) buckets)
        → (fr : List ℕ) → k.frames ≡ fr
        → Gives (First lowest buckets) (elim fr [
          | [] ↦ find_order n (order + 1) buckets
          | page ∷ pages ↦ ok (some (order, page))
        ])
    go k got on [] e = on
    go k got on (page ∷ rest) e = (from, omega arith, (k, rest, got, e))

module _ (zone : MemZone) where
  -- What an allocation of a block of an order does: the block's pages, which are consecutive in the
  -- zone, had the count 0 and have 1, and no other count changes; or the state is as it was.
  abbrev pub Outcome : ℕ → Buddy → Alloced → Type 0
  Outcome order b (alloced ppn n b') =
      (n ≡ 2 ^ order)
      × ((p : ℕ) × (cur : Cursor) × (cursor_init zone ppn ≡ some cur)
          × (cursor_page cur ≡ some p)
          × AllAre p n 0 (b.refs)
          × Marked p n 1 (b.refs) (b'.refs))
      × IsBuddy b'
  Outcome order b (refused code b') = b' ≡ b

  undone :
      (p ppn k : ℕ) (cur : Cursor) (refs refs' : Refs)
      → cursor_init zone ppn ≡ some cur
      → InZone (length refs) cur
      → cursor_page cur ≡ some p
      → AllAre p k 0 refs
      → Marked p k 1 refs refs'
      → Steps k cur
      → Gives (λ refs''. refs'' ≡ refs) (fail_undo_refs zone ppn k refs')
  unfolding fail_undo_refs
  undone p ppn zero cur refs refs' start is at zeros m steps =
      Marked-back zeros m (Marked-none p 0 refs')
  undone p ppn (suc k) cur refs refs' start is at zeros m steps =
      rw (fail_undo_refs, start)
        (Gives-map _ _ (undo_pages (suc k) cur refs') (λ refs'' m'. Marked-back zeros m m')
          (undo_pages-Marked (suc k) p cur refs'
            (subst (λ l. InZone l cur) (sym (m.same_length)) is) at steps (m.inside)))

  alloc_block-Outcome :
      (k order node : ℕ) (page : BuddyPage) (b : Buddy)
      → Populated (zone.sections)
      → total_pages (zone.sections) ≡ length (b.refs)
      → IsBuddy b
      → order + k ≤ max_order
      → node + 2 ^ (order + k) ≤ length (b.refs)
      → Gives (Outcome order b) (alloc_block zone k order node page b)
  alloc_block-Outcome k order node page b pop total sound le fits =
      elim (Option-cases (page.order)) [
        | inl off ↦ rw off refl
        | inr (o, on) ↦ elim (Option-cases (cursor_init zone (page.ppn))) [
          | inl out ↦ rw (on, alloc_block, out) refl
          | inr (cur, start) ↦
              let (is, (p, at)) = cursor_init-Starts zone (page.ppn) pop total start in
              rw (on, alloc_block, start)
                (Gives-bind (Claimed (2 ^ order) p 0 (b.refs) cur) (Outcome order b)
                  (claim_pages (2 ^ order) 0 cur (b.refs))
                  (after_claims zone k order node (page.ppn) b)
                  (claim_pages-Claimed (2 ^ order) 0 p cur (b.refs) is at)
                  (λ c. after p cur c start is at))
        ]
      ]
    where
      after :
          (p : ℕ) (cur : Cursor) (c : Claims)
          → cursor_init zone (page.ppn) ≡ some cur
          → InZone (length (b.refs)) cur
          → cursor_page cur ≡ some p
          → Claimed (2 ^ order) p 0 (b.refs) cur c
          → Gives (Outcome order b) (after_claims zone k order node (page.ppn) b c)
      after p cur (claimed refs') start is at (zeros, m) =
          let same_length : length refs' ≡ length (b.refs) = m.same_length in
          Gives-bind (λ s. Sound (length (b.refs)) s × (s.refs ≡ refs')) (Outcome order b)
            (take_block k order node (record b { refs = refs' })) _
            (take_block-Sound (length (b.refs)) k order node (record b { refs = refs' })
              (record {
                in_pages = sound.in_pages;
                in_lists = sound.in_lists;
                numbered = sound.numbered;
              })
              le fits)
            (λ s t. (
              refl,
              (p, cur, start, at, zeros, subst (Marked p (2 ^ order) 1 (b.refs)) (sym (t.1)) m),
              subst (λ l. Sound l s) (sym (ap length (t.1) ∙ same_length)) (t.0),
            ))
      after p cur (stopped d refs') start is at (j, e, short, zeros, m, steps) =
          Gives-bind (λ refs''. refs'' ≡ b.refs) (Outcome order b)
            (fail_undo_refs zone (page.ppn) d refs') _
            (subst (λ z. Gives (λ refs''. refs'' ≡ b.refs) (fail_undo_refs zone (page.ppn) z refs'))
              (sym (plain e)) (undone p (page.ppn) j cur (b.refs) refs' start is at zeros m steps))
            (λ refs'' same. ap (λ r. record b { refs = r }) same)
        where
          plain : d ≡ 0 + j → d ≡ j
          plain h = omega (arith, h)

-- In a zone without empty sections, whose pages have counts, and in a sound state, `pmm_alloc_zone` returns
-- for every order up to the largest: it claims 2^order consecutive pages that had no reference, and no
-- other, and the state stays sound; or it refuses, and the state is as it was.
pub pmm_alloc_zone-Outcome :
    (zone : MemZone) (order : ℕ) (b : Buddy)
    → IsBuddy b
    → Populated (zone.sections)
    → total_pages (zone.sections) ≡ length (b.refs)
    → order ≤ max_order
    → Gives (Outcome zone order b) (pmm_alloc_zone zone order b)
unfolding pmm_alloc_zone
pmm_alloc_zone-Outcome zone order b is pop total le =
    Gives-bind (First order (b.buckets)) (Outcome zone order b)
      (find_order (max_order + 1 - order) order (b.buckets)) _
      (find_order-First (max_order + 1 - order) order order (b.buckets) (is.in_lists.all_orders)
        (omega arith) (omega arith))
      found
  where
    found :
        (q : Option (ℕ × ℕ))
        → First order (b.buckets) q
        → Gives (Outcome zone order b) (elim q [
          | none ↦ ok (refused e_rend_no_mem b)
          | some q ↦ access (get_elem? (b.pages) (q.1)) >>= λ p.
              alloc_block zone (q.0 - order) order (q.1) p b
        ])
    found none _ = refl
    found (some q) (from, to, (k, rest, got, head)) =
        let whole : order + (q.0 - order) ≡ q.0 = omega arith in
        let fits = is.in_lists.blocks (q.0) (q.1) k got (rw head (mem-head (q.1) rest)) in
        let (page, there) =
          get_elem?-some (b.pages) (q.1)
            (omega (arith, fits, is.in_pages.all_pages, one-le-pow (q.0) 2 (omega arith))) in
        rw there (
          alloc_block-Outcome zone (q.0 - order) order (q.1) page b pop total is (omega arith)
            (subst (λ z. q.1 + 2 ^ z ≤ length (b.refs)) (sym whole) fits))
