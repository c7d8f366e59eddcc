-- ===== src/Mm/Buddy/Release.antt =====
-- `pmm_free` of kernel/mm/buddy_pmm.c, on a sound state.
use rendezv_os.Base.{
  ℕ, zero, suc, ◌+◌, ◌-◌, ◌^◌, ◌%◌, ◌<◌, ◌≡◌, refl, ap, sym, ◌∙◌, subst, Bool-cases, Option-cases,
  ◌||◌, ◌&&◌, not, ltb, none, some, inl, inr, get_elem?, set, length, length-set, get_elem?-some,
  get_elem?-set_self, arith,
}
use rendezv_os.Base.{ok, e_rendezvos}
use rendezv_os.Base.Returns.{Gives, Gives-bind, Gives-map, Gives-if}
use rendezv_os.Mm.Pmm.{
  MemZone, Cursor, ppn_in_zone, cursor_page, cursor_index, cursor_next, cursor_init, Refs, ref_put,
  refed, positive, sub_u64,
}
use rendezv_os.Mm.Pmm.Walk.{
  InZone, Populated, total_pages, page-lt, cursor_next-Follows, cursor_init-Starts,
}
use rendezv_os.Mm.Pmm.Lowered.{Lowered, Lowered-none, Lowered-cons}
use rendezv_os.Mm.Buddy.{Buddy}
use rendezv_os.Mm.Buddy.Lists.{Sound, IsBuddy}
use rendezv_os.Mm.Buddy.Merge.{Left, pmm_free_one_index-Gives}
use rendezv_os.Mm.Buddy.Free.{Freed, freed, refused, put_one, after_one, free_pages, pmm_free}

put_one-Left :
    (n p c index : ℕ) (b : Buddy)
    → Sound n b
    → get_elem? (b.refs) p ≡ some c
    → p < length (b.refs)
    → Gives (Left n (record b { refs = set (b.refs) p (sub_u64 c 1) })) (put_one (some p) index b)
unfolding ref_put refed
put_one-Left n p c index b is got lt =
    let b' : Buddy = record b { refs = set (b.refs) p (sub_u64 c 1) } in
    let is' : Sound n b' = record {
      in_pages = is.in_pages;
      in_lists = is.in_lists;
      numbered = is.numbered;
    } in
    rw (got, get_elem?-set_self (b.refs) p (sub_u64 c 1) lt)
      (elim (Bool-cases (positive (sub_u64 c 1))) [
        | inl held ↦ rw held (is', refl)
        | inr unheld ↦ rw unheld (pmm_free_one_index-Gives n index b' is')
      ])

abbrev Released : ℕ → ℕ → ℕ → Refs → Freed → Type 0
Released n p k refs (freed s) = Sound n s × Lowered p k refs (s.refs)
Released n p k refs (refused code s) = Sound n s × (length (s.refs) ≡ n)

Lowered-one :
    (p c : ℕ) (refs refs' : Refs)
    → get_elem? refs p ≡ some c
    → p < length refs
    → refs' ≡ set refs p (sub_u64 c 1)
    → Lowered p 1 refs refs'
Lowered-one p c refs refs' got lt same = Lowered-cons p 0 c refs refs' got lt (
    subst (Lowered (p + 1) 0 (set refs p (sub_u64 c 1))) (sym same)
      (Lowered-none (p + 1) (set refs p (sub_u64 c 1))))

one_more :
    (n p k c : ℕ) (refs refs' : Refs) (r : Freed)
    → get_elem? refs p ≡ some c
    → p < length refs
    → refs' ≡ set refs p (sub_u64 c 1)
    → length refs ≡ n
    → Released n (p + 1) (suc k) refs' r
    → Released n p (suc (suc k)) refs r
one_more n p k c refs refs' (freed s) got lt same len (sound, l) = (
  sound,
  Lowered-cons p (suc k) c refs (s.refs) got lt
      (subst (λ z. Lowered (p + 1) (suc k) z (s.refs)) same l),
)
one_more n p k c refs refs' (refused code s) got lt same len left = left

free_pages-Released :
    (k n p : ℕ) (cur : Cursor) (b : Buddy)
    → InZone n cur
    → cursor_page cur ≡ some p
    → Sound n b
    → length (b.refs) ≡ n
    → Gives (Released n p k (b.refs)) (free_pages k cur b)
unfolding free_pages
free_pages-Released zero n p cur b is at sound len = (sound, Lowered-none p (b.refs))
free_pages-Released (suc zero) n p cur b is at sound len =
    let lt : p < length (b.refs) = omega (arith, page-lt cur is at, len) in
    let (c, got) = get_elem?-some (b.refs) p lt in
    rw at (
      Gives-bind (Left n (record b { refs = set (b.refs) p (sub_u64 c 1) }))
        (Released n p 1 (b.refs)) (put_one (some p) (cursor_index cur) b) _
        (put_one-Left n p c (cursor_index cur) b sound got lt) (λ r. last c got lt r))
  where
    last :
        (c : ℕ)
        → get_elem? (b.refs) p ≡ some c
        → p < length (b.refs)
        → (r : Freed) → Left n (record b { refs = set (b.refs) p (sub_u64 c 1) }) r
        → Gives (Released n p 1 (b.refs)) (after_one r (λ b'. ok (freed b')))
    last c got lt (refused code s) (sound', same) =
        (sound', ap length same ∙ length-set (b.refs) p (sub_u64 c 1) ∙ len)
    last c got lt (freed s) (sound', same) = (sound', Lowered-one p c (b.refs) (s.refs) got lt same)
free_pages-Released (suc (suc k)) n p cur b is at sound len =
    let lt : p < length (b.refs) = omega (arith, page-lt cur is at, len) in
    let (c, got) = get_elem?-some (b.refs) p lt in
    rw at (
      Gives-bind (Left n (record b { refs = set (b.refs) p (sub_u64 c 1) }))
        (Released n p (suc (suc k)) (b.refs)) (put_one (some p) (cursor_index cur) b) _
        (put_one-Left n p c (cursor_index cur) b sound got lt)
        (λ r.
          others c got lt
            (λ cur' s next sound' len'.
              let (is', at') = cursor_next-Follows is at next in
              free_pages-Released (suc k) n (p + 1) cur' s is' at' sound' len')
            r))
  where
    others :
        (c : ℕ)
        → get_elem? (b.refs) p ≡ some c
        → p < length (b.refs)
        → ((cur' : Cursor) (s : Buddy)
            → cursor_next cur ≡ some cur'
            → Sound n s
            → length (s.refs) ≡ n
            → Gives (Released n (p + 1) (suc k) (s.refs)) (free_pages (suc k) cur' s))
        → (r : Freed) → Left n (record b { refs = set (b.refs) p (sub_u64 c 1) }) r
        → Gives (Released n p (suc (suc k)) (b.refs)) (
            after_one r (λ b'. elim (cursor_next cur) [
              | none ↦ ok (refused e_rendezvos b')
              | some cur' ↦ free_pages (suc k) cur' b'
            ]))
    others c got lt rest (refused code s) (sound', same) =
        (sound', ap length same ∙ length-set (b.refs) p (sub_u64 c 1) ∙ len)
    others c got lt rest (freed s) (sound', same) =
        let len' : length (s.refs) ≡ n =
          ap length same ∙ length-set (b.refs) p (sub_u64 c 1) ∙ len in
        elim (Option-cases (cursor_next cur)) [
          | inl end ↦ rw end (sound', len')
          | inr (cur', next) ↦ rw next (
              Gives-map (Released n (p + 1) (suc k) (s.refs)) (Released n p (suc (suc k)) (b.refs))
                (free_pages (suc k) cur' s)
                (λ r. one_more n p k c (b.refs) (s.refs) r got lt same len)
                (rest cur' s next sound' len'))
        ]

-- `pmm_free` releases the pages from that of `ppn` on, or stops with an error.
abbrev pub Outcome : MemZone → ℕ → ℕ → Buddy → Freed → Type 0
Outcome zone ppn k b (freed s) =
    IsBuddy s
    × ((p : ℕ) × (cur : Cursor) × (cursor_init zone ppn ≡ some cur)
        × (cursor_page cur ≡ some p)
        × Lowered p k (b.refs) (s.refs))
Outcome zone ppn k b (refused code s) = IsBuddy s × (length (s.refs) ≡ length (b.refs))

-- In a zone without empty sections, whose pages have counts, and in a sound state, `pmm_free` returns for
-- every range, and the state stays sound. Where it succeeds, each page of the range, from that of `ppn`
-- on, has one reference less, and no other count changes.
pub pmm_free-Outcome :
    (zone : MemZone) (ppn page_number : ℕ) (b : Buddy)
    → IsBuddy b
    → Populated (zone.sections)
    → total_pages (zone.sections) ≡ length (b.refs)
    → Gives (Outcome zone ppn page_number b) (pmm_free zone ppn page_number b)
unfolding pmm_free
pmm_free-Outcome zone ppn k b sound pop total =
    Gives-if (Outcome zone ppn k b)
      (not (ppn_in_zone zone ppn) || (ltb 1 k && not (ppn_in_zone zone ((ppn + k - 1) % 2 ^ 64))))
      (ok (refused e_rendezvos b)) _ (λ out. (sound, refl))
      (λ inside. elim (Option-cases (cursor_init zone ppn)) [
        | inl none_there ↦ rw none_there (sound, refl)
        | inr (cur, start) ↦
            let (is, (p, at)) = cursor_init-Starts zone ppn pop total start in
            rw start (
              Gives-map (Released (length (b.refs)) p k (b.refs)) (Outcome zone ppn k b)
                (free_pages k cur b) (λ r. whole cur p start at r)
                (free_pages-Released k (length (b.refs)) p cur b is at sound refl))
      ])
  where
    whole :
        (cur : Cursor) (p : ℕ)
        → cursor_init zone ppn ≡ some cur
        → cursor_page cur ≡ some p
        → (r : Freed) → Released (length (b.refs)) p k (b.refs) r
        → Outcome zone ppn k b r
    whole cur p start at (freed s) (sound', l) =
        (subst (λ m. Sound m s) (sym (l.same_length)) sound', (p, cur, start, at, l))
    whole cur p start at (refused code s) (sound', len) =
        (subst (λ m. Sound m s) (sym len) sound', len)
