-- ===== src/Mm/Buddy/Request.antt =====
-- `pmm_alloc` of kernel/mm/buddy_pmm.c: every request is served or refused, in a sound state, for every
-- hook that reclaims pages and keeps the state sound.
use native.Mathlib.Nat.{pow-le-pow_right}
use rendezv_os.Base.{
  ℕ, zero, suc, ◌+◌, ◌^◌, ◌≤◌, ◌≡◌, sym, ◌∙◌, subst, Bool-cases, true, false, Bool, ◌==◌, ltb,
  Option, none, some, inl, inr, length, arith,
}
use rendezv_os.Base.{Result, e_rendezvos}
use rendezv_os.Base.Returns.{Gives, Gives-bind, Gives-if}
use rendezv_os.Mm.Pmm.{MemZone, Cursor, cursor_page, cursor_init, invalid_ppn}
use rendezv_os.Mm.Pmm.Walk.{Populated, total_pages}
use rendezv_os.Mm.Pmm.Marks.{AllAre}
use rendezv_os.Mm.Buddy.{Buddy, max_order, log2_of_next_power_of_two}
use rendezv_os.Mm.Buddy.Log.{log2_of_next_power_of_two-least}
use rendezv_os.Mm.Buddy.Lists.{IsBuddy}
use rendezv_os.Mm.Buddy.Zone.{Outcome, pmm_alloc_zone-Outcome}
use rendezv_os.Mm.Buddy.Alloc.{
  Alloced, alloced, refused, reclaim_max_attempts, pmm_alloc_zone, settled, attempt, reclaimed,
  after_attempt, retry, pmm_alloc,
}

-- A sound state whose pages are those of the zone.
pub record Fits (zone : MemZone) (b : Buddy) : Type 0 where
  pub sound : IsBuddy b
  pub all_counted : total_pages (zone.sections) ≡ length (b.refs)

-- The least block that is large enough, with a valid frame, whose pages have one reference each; or an
-- error code. The state stays sound.
abbrev pub Served : MemZone → ℕ → Alloced → Type 0
Served zone page_number (alloced ppn n b) =
    Fits zone b
    × (invalid_ppn ppn ≡ false)
    × (page_number ≤ n)
    × ((k : ℕ) → page_number ≤ 2 ^ k → n ≤ 2 ^ k)
    × ((p : ℕ) × (cur : Cursor) × (cursor_init zone ppn ≡ some cur)
        × (cursor_page cur ≡ some p)
        × AllAre p n 1 (b.refs))
Served zone page_number (refused code b) = Fits zone b

-- The hook keeps the state sound.
abbrev pub Reclaims : MemZone → Option (ℕ → ℕ → Buddy → Bool × Buddy) → Type 0
Reclaims zone none = Unit
Reclaims zone (some f) = (n tried : ℕ) (b : Buddy) → Fits zone b → Fits zone ((f n tried b).1)

module _ (zone : MemZone) (page_number : ℕ) where
  -- After one pass.
  abbrev Passed : Option Alloced × Buddy → Type 0
  Passed (none, b) = Fits zone b
  Passed (some r, b) = Served zone page_number r

  settled-Passed :
      (order : ℕ) (b : Buddy) (r : Alloced)
      → Fits zone b
      → page_number ≤ 2 ^ order
      → ((k : ℕ) → page_number ≤ 2 ^ k → 2 ^ order ≤ 2 ^ k)
      → Outcome zone order b r
      → Passed (settled zone r)
  settled-Passed order b (alloced ppn n b') fits large least out =
      let (e, (p, cur, start, at, zeros, m), sound') = out in
      let fits' : Fits zone b' = record {
        sound = sound';
        all_counted = fits.all_counted ∙ sym (m.same_length);
      } in
      elim (Bool-cases (invalid_ppn ppn)) [
        | inl bad ↦ rw bad fits'
        | inr good ↦ rw good (
          fits',
          good,
          subst (λ z. page_number ≤ z) (sym e) large,
          (λ k le. subst (λ z. z ≤ 2 ^ k) (sym e) (least k le)),
          (p, cur, start, at, m.inside),
        )
      ]
  settled-Passed order b (refused e_rendezvos b') fits large least same =
      subst (Fits zone) (sym same) fits
  settled-Passed order b (refused code b') fits large least same = subst (Fits zone) (sym same) fits

  attempt-Passed :
      (b : Buddy)
      → Populated (zone.sections)
      → 1 ≤ page_number
      → Fits zone b
      → Gives Passed (attempt zone page_number b)
  attempt-Passed b pop pos fits =
      Gives-if Passed (ltb (b.total_avaliable_pages) page_number) _ _ (λ few. fits)
        (λ enough.
          Gives-if Passed (ltb (2 ^ max_order) page_number) _ _ (λ many. fits)
            (λ fitting.
              let order = log2_of_next_power_of_two page_number in
              let small : page_number ≤ 2 ^ max_order = ground (arith, fitting) in
              let (large, least) =
                log2_of_next_power_of_two-least page_number pos (omega (arith, small)) in
              Gives-bind (Outcome zone order b) Passed (pmm_alloc_zone zone order b) _
                (pmm_alloc_zone-Outcome zone order b (fits.sound) pop (fits.all_counted)
                  (least max_order small))
                (λ r out.
                  settled-Passed order b r fits large
                    (λ k le. pow-le-pow_right (omega arith) (least k le)) out)))

  abbrev Goes : Option (Buddy → Result Alloced) → Type 0
  Goes none = Unit
  Goes (some next) = (b : Buddy) → Fits zone b → Gives (Served zone page_number) (next b)

  reclaimed-Served :
      (f : ℕ → ℕ → Buddy → Bool × Buddy) (next : Buddy → Result Alloced) (r : Bool × Buddy)
      → Goes (some next)
      → Fits zone (r.1)
      → Gives (Served zone page_number) (reclaimed zone (some f) page_number next r)
  reclaimed-Served f next (true, b) goes fits = goes b fits
  reclaimed-Served f next (false, b) goes fits = fits

  after_attempt-Served :
      (reclaim_fn : Option (ℕ → ℕ → Buddy → Bool × Buddy)) (tried : ℕ)
      (again : Option (Buddy → Result Alloced)) (q : Option Alloced × Buddy)
      → Reclaims zone reclaim_fn
      → Goes again
      → Passed q
      → Gives (Served zone page_number) (after_attempt zone reclaim_fn page_number tried again q)
  after_attempt-Served reclaim_fn tried again (some r, b) ok_hook goes passed = passed
  after_attempt-Served none tried again (none, b) ok_hook goes passed = passed
  after_attempt-Served (some f) tried none (none, b) ok_hook goes passed = passed
  after_attempt-Served (some f) tried (some next) (none, b) ok_hook goes passed =
      reclaimed-Served f next (f page_number tried b) goes (ok_hook page_number tried b passed)

  retry-Served :
      (reclaim_fn : Option (ℕ → ℕ → Buddy → Bool × Buddy)) (n tried : ℕ) (b : Buddy)
      → Reclaims zone reclaim_fn
      → Populated (zone.sections)
      → 1 ≤ page_number
      → Fits zone b
      → Gives (Served zone page_number) (retry zone reclaim_fn n tried page_number b)
  unfolding retry
  retry-Served reclaim_fn zero tried b hook pop pos fits =
      Gives-bind Passed (Served zone page_number) (attempt zone page_number b) _
        (attempt-Passed b pop pos fits)
        (λ q passed. after_attempt-Served reclaim_fn tried none q hook tt passed)
  retry-Served reclaim_fn (suc n) tried b hook pop pos fits =
      Gives-bind Passed (Served zone page_number) (attempt zone page_number b) _
        (attempt-Passed b pop pos fits)
        (λ q passed.
          after_attempt-Served reclaim_fn tried
            (some (λ b'. retry zone reclaim_fn n (tried + 1) page_number b')) q hook
            (λ b' fits'. retry-Served reclaim_fn n (tried + 1) b' hook pop pos fits') passed)

-- In a zone without empty sections, in a sound state, and with a hook that keeps the state sound,
-- `pmm_alloc` returns for every number of pages. The state stays sound, and a block that it returns is the
-- least that is large enough, has a valid frame, and one reference on each of its pages.
pub pmm_alloc-Served :
    (zone : MemZone) (reclaim_fn : Option (ℕ → ℕ → Buddy → Bool × Buddy)) (page_number : ℕ)
    (b : Buddy)
    → Populated (zone.sections)
    → Reclaims zone reclaim_fn
    → Fits zone b
    → Gives (Served zone page_number) (pmm_alloc zone reclaim_fn page_number b)
unfolding pmm_alloc
pmm_alloc-Served zone reclaim_fn page_number b pop hook fits =
    Gives-if (Served zone page_number) (page_number == 0) _ _ (λ none_wanted. fits)
      (λ wanted.
        retry-Served zone page_number reclaim_fn reclaim_max_attempts 0 b hook pop
          (ground (arith, wanted)) fits)
