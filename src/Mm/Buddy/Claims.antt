-- ===== src/Mm/Buddy/Claims.antt =====
-- Phase 1 of `pmm_alloc_zone`: the claims on a range of pages, and their undoing.
use native.Mathlib.Decide.{ℕ_discrete}
use rendezv_os.Base.{
  ℕ, zero, suc, ◌+◌, ◌<◌, ◌≡◌, ap, sym, ◌∙◌, subst, Bool-cases, Option-cases, ◌==◌, some, inl, inr,
  get_elem?, set, length, length-set, get_elem?-some, get_elem?-set_ne, arith,
}
use rendezv_os.Base.Returns.{Gives, Gives-map}
use rendezv_os.Mm.Pmm.{Cursor, cursor_page, cursor_next, Refs, ref_claim, ref_put}
use rendezv_os.Mm.Pmm.Walk.{InZone, page-lt, cursor_next-Follows}
use rendezv_os.Mm.Pmm.Marks.{AllAre, Marked, Marked-none, Marked-cons}
use rendezv_os.Mm.Buddy.Alloc.{Claims, claimed, stopped, claim_pages, undo_pages}

-- The cursor can go on to `k` pages, the first of which is its own.
abbrev pub Steps : ℕ → Cursor → Type 0
Steps zero cur = Unit
Steps (suc zero) cur = Unit
Steps (suc (suc k)) cur = (cur' : Cursor) × (cursor_next cur ≡ some cur') × Steps (suc k) cur'

-- All `n` pages from `p` on had the count 0 and have 1; or so did only the first `k`.
abbrev pub Claimed : ℕ → ℕ → ℕ → Refs → Cursor → Claims → Type 0
Claimed n p done refs cur (claimed refs') = AllAre p n 0 refs × Marked p n 1 refs refs'
Claimed n p done refs cur (stopped d refs') =
    (k : ℕ) × (d ≡ done + k) × (k < n) × AllAre p k 0 refs × Marked p k 1 refs refs' × Steps k cur

Steps-cons :
    (k : ℕ) (cur cur' : Cursor) → cursor_next cur ≡ some cur' → Steps k cur' → Steps (suc k) cur
Steps-cons zero cur cur' next steps = tt
Steps-cons (suc k) cur cur' next steps = (cur', next, steps)

-- One page, and the range behind it.
AllAre-cons :
    (p k v : ℕ) (refs : Refs)
    → get_elem? refs p ≡ some v
    → AllAre (p + 1) k v (set refs p 1)
    → AllAre p (suc k) v refs
AllAre-cons p k v refs first rest q lo hi = elim (ℕ_discrete q p) [
  | yes e ↦ subst (λ z. get_elem? refs z ≡ some v) (sym e) first
  | no ne ↦ sym (get_elem?-set_ne refs p q 1 (λ e. ne (sym e))) ∙ rest q (omega arith) (omega arith)
]

AllAre-none : (p v : ℕ) (refs : Refs) → AllAre p 0 v refs
AllAre-none p v refs q lo hi = absurd (omega arith)

later :
    (n p done : ℕ) (refs : Refs) (cur cur' : Cursor) (c : Claims)
    → p < length refs
    → get_elem? refs p ≡ some 0
    → cursor_next cur ≡ some cur'
    → Claimed n (p + 1) (done + 1) (set refs p 1) cur' c
    → Claimed (suc n) p done refs cur c
later n p done refs cur cur' (claimed refs') lt free next (zeros, m) =
    (AllAre-cons p n 0 refs free zeros, Marked-cons lt m)
later n p done refs cur cur' (stopped d refs') lt free next (k, e, short, zeros, m, steps) = (
  suc k,
  omega (arith, e),
  omega arith,
  AllAre-cons p k 0 refs free zeros,
  Marked-cons lt m,
  Steps-cons k cur cur' next steps,
)

-- The claim on one page.
one_claimed :
    (p : ℕ) (refs : Refs)
    → p < length refs
    → get_elem? refs p ≡ some 0
    → (AllAre p 1 0 refs) × Marked p 1 1 refs (set refs p 1)
one_claimed p refs lt free = (
  AllAre-cons p 0 0 refs free (AllAre-none (p + 1) 0 (set refs p 1)),
  Marked-cons lt (Marked-none (p + 1) 1 (set refs p 1)),
)

-- The first page is held.
held_first :
    (n p done : ℕ) (cur : Cursor) (refs : Refs)
    → Claimed (suc n) p done refs cur (stopped done refs)
held_first n p done cur refs =
    (0, omega arith, omega arith, AllAre-none p 0 refs, Marked-none p 1 refs, tt)

pub claim_pages-Claimed :
    (n done p : ℕ) (cur : Cursor) (refs : Refs)
    → InZone (length refs) cur
    → cursor_page cur ≡ some p
    → Gives (Claimed n p done refs cur) (claim_pages n done cur refs)
unfolding claim_pages ref_claim
claim_pages-Claimed zero done p cur refs is at = (AllAre-none p 0 refs, Marked-none p 1 refs)
claim_pages-Claimed (suc zero) done p cur refs is at =
    let lt : p < length refs = page-lt cur is at in
    let (count, got) = get_elem?-some refs p lt in
    elim (Bool-cases (count == 0)) [
      | inr held ↦ rw (at, got, held) (held_first 0 p done cur refs)
      | inl free ↦ rw (at, got, free) (one_claimed p refs lt (got ∙ ap some (ground (arith, free))))
    ]
claim_pages-Claimed (suc (suc n)) done p cur refs is at =
    let lt : p < length refs = page-lt cur is at in
    let (count, got) = get_elem?-some refs p lt in
    elim (Bool-cases (count == 0)) [
      | inr held ↦ rw (at, got, held) (held_first (suc n) p done cur refs)
      | inl free ↦
          let zero_there : get_elem? refs p ≡ some 0 = got ∙ ap some (ground (arith, free)) in
          let (zeros, mark) = one_claimed p refs lt zero_there in
          elim (Option-cases (cursor_next cur)) [
            | inl end ↦ rw (at, got, free, end) (1, omega arith, omega arith, zeros, mark, tt)
            | inr (cur', next) ↦
                let (is', at') = cursor_next-Follows is at next in
                rw (at, got, free, next)
                  (Gives-map (Claimed (suc n) (p + 1) (done + 1) (set refs p 1) cur')
                    (Claimed (suc (suc n)) p done refs cur)
                    (claim_pages (suc n) (done + 1) cur' (set refs p 1))
                    (λ c. later (suc n) p done refs cur cur' c lt zero_there next)
                    (claim_pages-Claimed (suc n) (done + 1) (p + 1) cur' (set refs p 1)
                      (subst (λ l. InZone l cur') (sym (length-set refs p 1)) is') at'))
          ]
    ]

-- The undoing of claims on `k` pages that all have the count 1.
pub undo_pages-Marked :
    (k p : ℕ) (cur : Cursor) (refs : Refs)
    → InZone (length refs) cur
    → cursor_page cur ≡ some p
    → Steps k cur
    → AllAre p k 1 refs
    → Gives (Marked p k 0 refs) (undo_pages k cur refs)
unfolding undo_pages ref_put
undo_pages-Marked zero p cur refs is at steps ones = Marked-none p 0 refs
undo_pages-Marked (suc zero) p cur refs is at steps ones =
    rw (at, ones p (omega arith) (omega arith))
      (Marked-cons (page-lt cur is at) (Marked-none (p + 1) 0 (set refs p 0)))
undo_pages-Marked (suc (suc k)) p cur refs is at (cur', next, steps) ones =
    let (is', at') = cursor_next-Follows is at next in
    rw (at, ones p (omega arith) (omega arith), next)
      (Gives-map (Marked (p + 1) (suc k) 0 (set refs p 0)) (Marked p (suc (suc k)) 0 refs)
        (undo_pages (suc k) cur' (set refs p 0)) (λ refs' m. Marked-cons (page-lt cur is at) m)
        (undo_pages-Marked (suc k) (p + 1) cur' (set refs p 0)
          (subst (λ l. InZone l cur') (sym (length-set refs p 0)) is') at' steps
          (λ q lo hi.
            get_elem?-set_ne refs p q 0 (λ e. absurd (omega (arith, e)))
            ∙ ones q (omega arith) (omega arith))))
