-- ===== src/Mm/PageSlice/Calls.antt =====
-- `page_slice_lookup` and `page_slice_remove_page` of kernel/mm/page_slice.c against a map.
use rendezv_os.Base.{
  ℕ, zero, suc, ◌<◌, ◌≡◌, refl, ap, sym, ◌∙◌, Bool-cases, leb, Option, some, inl, inr, arith,
}
use rendezv_os.Base.{Result, ok, err, fault, ◌>>=◌, e_in_param, e_rend_nofound}
use rendezv_os.Base.Returns.{Gives, Gives-bind, Gives-if, Gives-map}
use rendezv_os.Mm.PageSlice.{Slot, Entry, PageSlice, Store, page_count}
use rendezv_os.Mm.PageSlice.Path.{bound_only, find_entry}
use rendezv_os.Mm.PageSlice.Shrink.{Removal, absent, gone, remove_page_locked, shrink}
use rendezv_os.Mm.PageSlice.Api.{
  done, fails, with_root, page_slice_lookup, shrink_passes, page_slice_remove_page,
}
use rendezv_os.Mm.PageSlice.Tree.{WfRoot, view, find_entry-look}
use rendezv_os.Mm.PageSlice.Heights.{leb-true, leb-false, max_pages}
use rendezv_os.Mm.PageSlice.Outcomes.{unchanged_Same, WfSlice, Removed, past, not_there, taken_out}
use rendezv_os.Mm.PageSlice.InsertPage.{pages_fit}
use rendezv_os.Mm.PageSlice.Drop.{shrink-Kept}
use rendezv_os.Mm.PageSlice.Lower.{KeptRoot, KeptRoot-refl, KeptRoot-trans}
use rendezv_os.Mm.PageSlice.RemovePage.{Locked, remove_page_locked-Locked}

-- On a well-formed slice and a page below 2^34 the lookup returns the entry that the map has for the page, and
-- none if it has none.
pub page_slice_lookup-view :
    (q : ℕ) (ps : PageSlice)
    → q < max_pages
    → WfSlice ps
    → page_slice_lookup q ps ≡ ok (view q (ps.root))
unfolding page_slice_lookup
page_slice_lookup-view q ps lt wf = elim (Bool-cases (leb (page_count (ps.size)) q)) [
  | inl out ↦ rw out (ap ok (sym (wf.none_past q lt (leb-true (page_count (ps.size)) q out))))
  | inr inside ↦
      rw inside (found (find_entry q (ps.root)) (find_entry-look q (ps.root) (wf.wf_root)))
]
  where
    found :
        (m : Result (Option Entry))
        → Gives (λ o. bound_only o ≡ view q (ps.root)) m
        → (m >>= λ o. ok (bound_only o)) ≡ ok (view q (ps.root))
    found (ok o) same = ap ok same
    found (err code) same = absurd same
    found fault same = absurd same

shrink_passes-Kept :
    (n : ℕ) (root : Slot) (st : Store)
    → WfRoot root
    → Gives (KeptRoot root st) (shrink_passes n root st)
unfolding shrink_passes
shrink_passes-Kept zero root st wf = KeptRoot-refl root st wf
shrink_passes-Kept (suc n) root st wf =
    Gives-bind (KeptRoot root st) (KeptRoot root st) (shrink root st) _ (shrink-Kept root st wf)
      (λ r k.
        Gives-map (KeptRoot (r.0) (r.1)) (KeptRoot root st) (shrink_passes n (r.0) (r.1))
          (λ r' k'. KeptRoot-trans root (r.0) st (r.1) r' k k')
          (shrink_passes-Kept n (r.0) (r.1) (k.wf)))

-- On a well-formed slice the removal at `q` returns without a fault and does one of three things: -E_IN_PARAM if
-- `q` is past the end, -E_REND_NOFOUND if the map has no entry at `q`, both without a change of the map; or
-- success, with no entry at `q`, every other page as before, one mapped entry less, and the entry's
-- kernel page given back unless it is pinned. The slice left is well-formed.
pub page_slice_remove_page-Removed :
    (q : ℕ) (ps : PageSlice) (st : Store)
    → WfSlice ps
    → Gives (Removed q ps st) (page_slice_remove_page q ps st)
unfolding page_slice_remove_page
page_slice_remove_page-Removed q ps st wf =
    Gives-if (Removed q ps st) (leb (page_count (ps.size)) q) _ _
      (λ out.
        past (fails e_in_param ps st) (leb-true (page_count (ps.size)) q out) refl
          (unchanged_Same ps st (some e_in_param) wf))
      (λ inside.
        let lt : q < max_pages =
          omega (
            arith,
            leb-false (page_count (ps.size)) q inside,
            pages_fit (ps.size) (wf.size_fits),
          ) in
        Gives-bind (Locked q ps st) (Removed q ps st) (remove_page_locked q ps st) _
          (remove_page_locked-Locked q ps st lt wf) (after lt))
  where
    after :
        q < max_pages
        → (r : Removal) → Locked q ps st r
        → Gives (Removed q ps st) (elim r [
          | absent ↦ ok (fails e_rend_nofound ps st)
          | gone ps' st' ↦
              shrink_passes 4 (ps'.root) st' >>= λ r'. ok (done (with_root ps' (r'.0)) (r'.1))
        ])
    after lt' absent nothing =
        not_there (fails e_rend_nofound ps st) nothing refl
          (unchanged_Same ps st (some e_rend_nofound) wf)
    after lt' (gone ps' st') (e, there, d) =
        Gives-bind (KeptRoot (ps'.root) st') (Removed q ps st) (shrink_passes 4 (ps'.root) st') _
          (shrink_passes-Kept 4 (ps'.root) st' (d.wf.wf_root))
          (λ r k. taken_out (done (with_root ps' (r.0)) (r.1)) e there refl (record {
            wf = record {
              wf_root = k.wf;
              size_fits = d.wf.size_fits;
              none_past = λ q' lt out. k.same_view q' lt ∙ d.wf.none_past q' lt out;
            };
            same_size = d.same_size;
            one_less_mapped = d.one_less_mapped;
            gone = k.same_view q lt' ∙ d.gone;
            others = λ q' lt ne. k.same_view q' lt ∙ d.others q' lt ne;
            now_released = k.same_released ∙ d.now_released;
          }))
