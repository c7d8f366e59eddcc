-- ===== src/Mm/PageSlice/Drop.antt =====
-- `ps_shrink` of kernel/mm/page_slice.c: a root without entries is freed, and the map stays.
use rendezv_os.Base.{
  ℕ, zero, suc, ◌+◌, ◌≤◌, ◌<◌, ◌≡◌, refl, ap, sym, ◌∙◌, subst, Bool, true, false, leb, not, none,
  arith, ◌==◌, if◌then◌else◌, ◌&&◌,
}
use rendezv_os.Base.{Result, ok}
use rendezv_os.Base.Returns.{Gives, Gives-bind, Gives-if, Gives-map}
use rendezv_os.Mm.PageSlice.{
  Entry, is_bound, Slot, empty, to_leaf, to_index, is_empty, leaf_idx, index_idx, leaf_capacity,
  index_capacity, Store, clear_leaf_entry, root_get_index, root_get_leaf,
}
use rendezv_os.Mm.PageSlice.Shrink.{
  each, free_leaf_page, free_slot, free_index_page, Lowered, lowered, lower_root, drop_root,
  after_lowering, shrink,
}
use rendezv_os.Mm.PageSlice.Count.{count, count-zero}
use rendezv_os.Mm.PageSlice.Slots.{is_empty_lem, look-empty, index_idx-lt}
use rendezv_os.Mm.PageSlice.Tree.{WfLeaf, Wf, WfRoot, look}
use rendezv_os.Mm.PageSlice.Clear.{off_on, eq_zero, unbound}
use rendezv_os.Mm.PageSlice.Heights.{room, leaf_idx-lt, view-empty, view-look}
use rendezv_os.Mm.PageSlice.Lower.{
  KeptRoot, KeptRoot-refl, KeptRoot-trans, Lowers, lower_root-Lowers,
}

each-released :
    (n i : ℕ) (body : ℕ → Store → Result Store) (st : Store)
    → ((j : ℕ) (st' : Store)
        → j < i + n
        → Gives (λ st''. st''.released ≡ st'.released) (body j st'))
    → Gives (λ st'. st'.released ≡ st.released) (each n i body st)
unfolding each
each-released zero i body st keeps = refl
each-released (suc n) i body st keeps =
    Gives-bind (λ st'. st'.released ≡ st.released) (λ st'. st'.released ≡ st.released) (body i st) _
      (keeps i st (omega arith))
      (λ st' same.
        Gives-map (λ st''. st''.released ≡ st'.released) (λ st''. st''.released ≡ st.released)
          (each n (i + 1) body st') (λ st'' same'. same' ∙ same)
          (each-released n (i + 1) body st' (λ j st'' lt. keeps j st'' (omega (arith, lt)))))

-- The freeing of a page without entries gives back no kernel page.
free_leaf_page-unused :
    (es : ℕ → Entry) (st : Store)
    → WfLeaf 0 es
    → Gives (λ st'. st'.released ≡ st.released) (free_leaf_page es st)
unfolding free_leaf_page clear_leaf_entry
free_leaf_page-unused es st wf =
    Gives-bind (λ st'. st'.released ≡ st.released) (λ st'. st'.released ≡ st.released)
      (each leaf_capacity 0 (λ i st'. ok (clear_leaf_entry (es i) st')) st) _
      (each-released leaf_capacity 0 (λ i st'. ok (clear_leaf_entry (es i) st')) st
        (λ j st' lt.
          subst (λ e. (clear_leaf_entry e st').released ≡ st'.released)
            (sym
              (wf.clean j (count-zero (λ i. is_bound (es i)) leaf_capacity j (sym (wf.live)) lt)))
            refl))
      (λ st' same. same)

free_index_page-unused :
    (ss : ℕ → Slot) (st : Store)
    → 0 ≡ count (λ i. not (is_empty (ss i))) index_capacity
    → Gives (λ st'. st'.released ≡ st.released) (free_index_page ss st)
unfolding free_index_page free_slot
free_index_page-unused ss st live =
    Gives-bind (λ st'. st'.released ≡ st.released) (λ st'. st'.released ≡ st.released)
      (each index_capacity 0 (λ i st'. free_slot (ss i) st') st) _
      (each-released index_capacity 0 (λ i st'. free_slot (ss i) st') st
        (λ j st' lt.
          subst (λ s. Gives (λ st''. st''.released ≡ st'.released) (free_slot s st'))
            (sym (
              is_empty_lem (ss j) (
                off_on (is_empty (ss j))
                  (count-zero (λ i. not (is_empty (ss i))) index_capacity j (sym live) lt))))
            refl))
      (λ st' same. same)

freed :
    (k : ℕ) (root : Slot) (st st' : Store)
    → k ≤ 3
    → Wf 1 k root
    → ((q : ℕ) → look k q root ≡ none)
    → st'.released ≡ st.released
    → KeptRoot root st (empty, st')
freed k root st st' le wf nothing same = record {
  wf = (0, omega arith, tt);
  same_view = λ q lt. view-empty q ∙ sym (view-look k q root le lt wf ∙ either q (leb (room k) q));
  same_released = same;
}
  where
    either : (q : ℕ) (t : Bool) → (if t then none else look k q root) ≡ none
    either q true = refl
    either q false = nothing q

drop_root-Kept :
    (root : Slot) (st : Store) → WfRoot root → Gives (KeptRoot root st) (drop_root root st)
unfolding drop_root root_get_index root_get_leaf
drop_root-Kept empty st wf = KeptRoot-refl empty st wf
drop_root-Kept (to_leaf h l es) st (suc n, le, wf) = absurd wf
drop_root-Kept (to_index h l ss) st (zero, le, wf) = absurd wf
drop_root-Kept (to_leaf h l es) st (zero, le, (e, wf)) =
    let one : (h == 1) ≡ true = ground (arith, e) in
    let low : leb 2 h ≡ false = ground (arith, e) in
    rw (one, low)
      (Gives-if (KeptRoot (to_leaf h l es) st) (l == 0) _ _
        (λ unused.
          let wf' : WfLeaf 0 es = subst (λ z. WfLeaf z es) (eq_zero l unused) wf in
          Gives-bind (λ st'. st'.released ≡ st.released) (KeptRoot (to_leaf h l es) st)
            (free_leaf_page es st) _ (free_leaf_page-unused es st wf')
            (λ st' same.
              freed 0 (to_leaf h l es) st st' le (e, wf)
                (λ q. unbound (es (leaf_idx q)) (
                  count-zero (λ i. is_bound (es i)) leaf_capacity (leaf_idx q) (sym (wf'.live))
                    (leaf_idx-lt q)))
                same))
        (λ used. KeptRoot-refl (to_leaf h l es) st (0, le, (e, wf))))
drop_root-Kept (to_index h l ss) st (suc n, le, (e, live, wf)) =
    let one : (h == 1) ≡ false = ground (arith, e) in
    let four : (leb 2 h && leb h 4) ≡ true = ground (arith, e, le) in
    rw (one, four)
      (Gives-if (KeptRoot (to_index h l ss) st) (l == 0) _ _
        (λ unused.
          let live' : 0 ≡ count (λ i. not (is_empty (ss i))) index_capacity =
            sym (eq_zero l unused) ∙ live in
          Gives-bind (λ st'. st'.released ≡ st.released) (KeptRoot (to_index h l ss) st)
            (free_index_page ss st) _ (free_index_page-unused ss st live')
            (λ st' same.
              freed (suc n) (to_index h l ss) st st' le (e, live, wf)
                (λ q.
                  ap (look n q) (
                    is_empty_lem (ss (index_idx q n)) (
                      off_on (is_empty (ss (index_idx q n))) (
                        count-zero (λ i. not (is_empty (ss i))) index_capacity (index_idx q n)
                          (sym live') (index_idx-lt q n))))
                  ∙ look-empty n q)
                same))
        (λ used. KeptRoot-refl (to_index h l ss) st (suc n, le, (e, live, wf))))

-- On a well-formed tree `ps_shrink` returns without a fault, and leaves a well-formed tree of the same map; it
-- gives back no kernel page.
pub shrink-Kept :
    (root : Slot) (st : Store) → WfRoot root → Gives (KeptRoot root st) (shrink root st)
unfolding shrink
shrink-Kept root st (k, le, wf) =
    Gives-bind (Lowers root st) (KeptRoot root st) (lower_root 8 root st) after_lowering
      (lower_root-Lowers 8 k root st le (omega (arith, le)) wf) after
  where
    after : (r : Lowered) → Lowers root st r → Gives (KeptRoot root st) (after_lowering r)
    after (lowered true root' st') k' = k'
    after (lowered false root' st') k' =
        Gives-map (KeptRoot root' st') (KeptRoot root st) (drop_root root' st')
          (λ r k''. KeptRoot-trans root root' st st' r k' k'') (drop_root-Kept root' st' (k'.wf))
