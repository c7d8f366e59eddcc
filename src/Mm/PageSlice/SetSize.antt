-- ===== src/Mm/PageSlice/SetSize.antt =====
-- `page_slice_set_size` of kernel/mm/page_slice.c against a cut of the map.
use rendezv_os.Base.{
  ℕ, zero, suc, ◌+◌, ◌-◌, ◌≤◌, ◌<◌, ◌≡◌, ◌≢◌, ◌⊎◌, refl, ap, sym, ◌∙◌, true, false, Bool-cases, ltb,
  none, some, inl, inr, arith, ◌==◌, if◌then◌else◌,
}
use rendezv_os.Base.{ok, ◌>>=◌, e_rend_overflow}
use rendezv_os.Base.Returns.{Gives, Gives-bind, Gives-if, Gives-map}
use rendezv_os.Mm.PageSlice.{PageSlice, Store, page_count, max_byte_size}
use rendezv_os.Mm.PageSlice.Shrink.{Removal, absent, gone, remove_page_locked, shrink}
use rendezv_os.Mm.PageSlice.Api.{
  kept, page_slice_destroy, done, fails, remove_tail, resized, page_slice_set_size,
}
use rendezv_os.Mm.PageSlice.Tree.{WfRoot, view}
use rendezv_os.Mm.PageSlice.Heights.{max_pages}
use rendezv_os.Mm.PageSlice.Outcomes.{
  AllReleased, ends, unchanged_Same, WfSlice, Trimmed, Resized, too_large, trimmed,
}
use rendezv_os.Mm.PageSlice.InsertPage.{pages_fit}
use rendezv_os.Mm.PageSlice.Drop.{shrink-Kept}
use rendezv_os.Mm.PageSlice.Lower.{KeptRoot}
use rendezv_os.Mm.PageSlice.RemovePage.{Locked, remove_page_locked-Locked}
use rendezv_os.Mm.PageSlice.Destroy.{page_slice_destroy-AllReleased}
use native.Mathlib.Decide.{ℕ_discrete}

-- The pages from `new` on, `n` of them, are gone.
record Tail (n new : ℕ) (ps : PageSlice) (r : PageSlice × Store) : Type 0 where
  wf : WfSlice (r.0)
  cut_off : (q : ℕ) → new ≤ q → q < new + n → view q (r.0.root) ≡ none
  others :
      (q : ℕ) → q < max_pages → (q < new) ⊎ (new + n ≤ q) → view q (r.0.root) ≡ view q (ps.root)

-- One page more, above the others, was gone before.
Tail-suc :
    (n new : ℕ) (ps ps' : PageSlice) (r : PageSlice × Store)
    → view (new + n) (ps'.root) ≡ none
    → ((q : ℕ) → q < max_pages → q ≢ new + n → view q (ps'.root) ≡ view q (ps.root))
    → new + suc n ≤ max_pages
    → Tail n new ps' r
    → Tail (suc n) new ps r
Tail-suc n new ps ps' r nothing same room t = record {
  wf = t.wf;
  cut_off = λ q ge lt. elim (ℕ_discrete q (new + n)) [
    | yes e ↦
        t.others q (omega (arith, lt, room)) (inr (omega (arith, e)))
        ∙ ap (λ z. view z (ps'.root)) e
        ∙ nothing
    | no ne ↦ t.cut_off q ge (omega (arith, lt, ne))
  ];
  others = λ q lt out. t.others q lt (wider q out) ∙ same q lt (above q out);
}
  where
    wider : (q : ℕ) → (q < new) ⊎ (new + suc n ≤ q) → (q < new) ⊎ (new + n ≤ q)
    wider q (inl low) = inl low
    wider q (inr high) = inr (omega (arith, high))

    above : (q : ℕ) → (q < new) ⊎ (new + suc n ≤ q) → q ≢ new + n
    above q (inl low) = λ e. omega (arith, low, e)
    above q (inr high) = λ e. omega (arith, high, e)

remove_tail-Tail :
    (n new : ℕ) (ps : PageSlice) (st : Store)
    → new + n ≤ max_pages
    → WfSlice ps
    → Gives (Tail n new ps) (remove_tail n new ps st)
unfolding remove_tail
remove_tail-Tail zero new ps st room wf = record {
  wf = wf;
  cut_off = λ q ge lt. absurd (omega (arith, ge, lt));
  others = λ q lt out. refl;
}
remove_tail-Tail (suc n) new ps st room wf =
    Gives-bind (Locked (new + n) ps st) (Tail (suc n) new ps) (remove_page_locked (new + n) ps st) _
      (remove_page_locked-Locked (new + n) ps st (omega (arith, room)) wf)
      (next (λ ps' st' wf'. remove_tail-Tail n new ps' st' (omega (arith, room)) wf'))
  where
    next :
        ((ps' : PageSlice) (st' : Store)
          → WfSlice ps'
          → Gives (Tail n new ps') (remove_tail n new ps' st'))
        → (r : Removal) → Locked (new + n) ps st r
        → Gives
            (Tail (suc n) new ps)
            (elim r [ absent ↦ remove_tail n new ps st | gone ps' st' ↦ remove_tail n new ps' st' ])
    next rest absent nothing =
        Gives-map (Tail n new ps) (Tail (suc n) new ps) (remove_tail n new ps st)
          (λ r t. Tail-suc n new ps ps r nothing (λ q lt ne. refl) room t) (rest ps st wf)
    next rest (gone ps' st') (e, there, d) =
        Gives-map (Tail n new ps') (Tail (suc n) new ps) (remove_tail n new ps' st')
          (λ r t. Tail-suc n new ps ps' r (d.gone) (d.others) room t) (rest ps' st' (d.wf))

page_count-le : (a b : ℕ) → a ≤ b → b ≤ max_byte_size → page_count a ≤ page_count b
unfolding page_count
page_count-le a b le small = ground (arith, le, small)

-- The view after the loop and the lowering, if the pages from the new end on are gone.
resized-Trimmed :
    (size : ℕ) (ps : PageSlice) (r : PageSlice × Store)
    → size ≤ max_byte_size
    → WfRoot (r.0.root)
    → ((q : ℕ)
        → q < max_pages
        → view q (r.0.root) ≡ (if ltb q (page_count size) then view q (ps.root) else none))
    → Gives (λ o. (o.failure ≡ none) × Trimmed size ps o) (resized size r)
resized-Trimmed size ps (ps', st') small wf same =
    Gives-bind (KeptRoot (ps'.root) st') (λ o. (o.failure ≡ none) × Trimmed size ps o)
      (shrink (ps'.root) st') _ (shrink-Kept (ps'.root) st' wf)
      (λ r k. (
        refl,
        record {
          wf = record {
            wf_root = k.wf;
            size_fits = small;
            none_past = λ q lt out. k.same_view q lt ∙ same q lt ∙ past_end q out;
          };
          new_size = refl;
          cut_view = λ q lt. k.same_view q lt ∙ same q lt;
        },
      ))
  where
    past_end :
        (q : ℕ)
        → page_count size ≤ q
        → (if ltb q (page_count size) then view q (ps.root) else none) ≡ none
    past_end q out = let off : ltb q (page_count size) ≡ false = ground (arith, out) in rw off refl

-- The entries of a slice below an end that is not before its own.
whole :
    (pages q : ℕ) (ps : PageSlice)
    → WfSlice ps
    → page_count (ps.size) ≤ pages
    → q < max_pages
    → view q (ps.root) ≡ (if ltb q pages then view q (ps.root) else none)
whole pages q ps wf le lt = elim (Bool-cases (ltb q pages)) [
  | inl inside ↦ ap (λ t. if t then view q (ps.root) else none) (sym inside)
  | inr out ↦
      wf.none_past q lt (ground (arith, out, le))
      ∙ ap (λ t. if t then view q (ps.root) else none) (sym out)
]

ltb-false : (a b : ℕ) → ltb b a ≡ false → a ≤ b
ltb-false a b e = ground (arith, e)

Tail-view :
    (n new q : ℕ) (ps : PageSlice) (r : PageSlice × Store)
    → WfSlice ps
    → page_count (ps.size) ≤ new + n
    → Tail n new ps r
    → q < max_pages
    → view q (r.0.root) ≡ (if ltb q new then view q (ps.root) else none)
Tail-view n new q ps r wf le t lt = go (Bool-cases (ltb q new)) (Bool-cases (ltb q (new + n)))
  where
    go :
        (ltb q new ≡ true) ⊎ (ltb q new ≡ false)
        → (ltb q (new + n) ≡ true) ⊎ (ltb q (new + n) ≡ false)
        → view q (r.0.root) ≡ (if ltb q new then view q (ps.root) else none)
    go (inl low) other = rw low (t.others q lt (inl (ground (arith, low))))
    go (inr high) (inl under) = rw high (t.cut_off q (ground (arith, high)) (ground (arith, under)))
    go (inr high) (inr over) = rw high (
        t.others q lt (inr (ground (arith, over)))
        ∙ wf.none_past q lt (omega (arith, le, ltb-false (new + n) q over)))

-- The slice has the map of another below an end.
abbrev Trims : ℕ → PageSlice → PageSlice × Store → Type 0
Trims pages ps r =
    WfRoot (r.0.root)
    × ((q : ℕ)
        → q < max_pages
        → view q (r.0.root) ≡ (if ltb q pages then view q (ps.root) else none))

tail_Trims :
    (size : ℕ) (ps : PageSlice) (st : Store)
    → size ≤ max_byte_size
    → WfSlice ps
    → Gives (Trims (page_count size) ps) (
        if ltb size (ps.size)
        then remove_tail (page_count (ps.size) - page_count size) (page_count size) ps st
        else ok (ps, st))
tail_Trims size ps st small wf =
    Gives-if (Trims (page_count size) ps) (ltb size (ps.size)) _ _
      (λ less.
        let le : page_count size ≤ page_count (ps.size) =
          page_count-le size (ps.size) (ground (arith, less)) (wf.size_fits) in
        let n = page_count (ps.size) - page_count size in
        Gives-map (Tail n (page_count size) ps) (Trims (page_count size) ps)
          (remove_tail n (page_count size) ps st)
          (λ r t. (
            t.wf.wf_root,
            λ q lt. Tail-view n (page_count size) q ps r wf (omega (arith, le)) t lt,
          ))
          (remove_tail-Tail n (page_count size) ps st
            (omega (arith, le, pages_fit (ps.size) (wf.size_fits))) wf))
      (λ more. (
        wf.wf_root,
        λ q lt.
            whole (page_count size) q ps wf
              (page_count-le (ps.size) size (ltb-false (ps.size) size more) small) lt,
      ))

-- On a well-formed slice a change of the size returns without a fault: size 0 destroys the slice and gives
-- back its kernel pages that are not pinned; a size above the limit gives -E_REND_OVERFLOW and keeps the map;
-- any other is the new size of a well-formed slice, whose map is the old one below the new end and has
-- nothing past it.
pub page_slice_set_size-Resized :
    (size : ℕ) (ps : PageSlice) (st : Store)
    → WfSlice ps
    → Gives (Resized size ps st) (page_slice_set_size size ps st)
unfolding page_slice_set_size
page_slice_set_size-Resized size ps st wf =
    Gives-if (Resized size ps st) (size == 0) _ _
      (λ null.
        Gives-bind (AllReleased ps) (Resized size ps st) (page_slice_destroy ps st) _
          (page_slice_destroy-AllReleased ps st wf)
          (λ st' all. ends st' (ground (arith, null)) all))
      (λ some_size.
        Gives-if (Resized size ps st) (ltb max_byte_size size) _ _
          (λ large.
            too_large (fails e_rend_overflow ps st) (ground (arith, large)) refl
              (unchanged_Same ps st (some e_rend_overflow) wf))
          (λ fits. resize (ground (arith, some_size)) (ltb-false size max_byte_size fits)))
  where
    resize :
        size ≢ 0
        → size ≤ max_byte_size
        → Gives (Resized size ps st) (
            if size == ps.size
            then ok (kept (done ps st))
            else (if ltb size (ps.size)
                then remove_tail (page_count (ps.size) - page_count size) (page_count size) ps st
                else ok (ps, st))
              >>= resized size
              >>= λ o. ok (kept o))
    resize ne small =
        Gives-if (Resized size ps st) (size == ps.size) _ _
          (λ same. trimmed (done ps st) ne refl (record {
            wf = wf;
            new_size = ground (arith, same);
            cut_view = λ q lt.
                whole (page_count size) q ps wf
                  (page_count-le (ps.size) size (ground (arith, same)) small) lt;
          }))
          (λ other.
            Gives-bind (λ o. (o.failure ≡ none) × Trimmed size ps o) (Resized size ps st) _ _
              (Gives-bind (Trims (page_count size) ps) (λ o. (o.failure ≡ none) × Trimmed size ps o)
                _ (resized size) (tail_Trims size ps st small wf)
                (λ r v. resized-Trimmed size ps r small (v.0) (v.1)))
              (λ o c. trimmed o ne (c.0) (c.1)))
