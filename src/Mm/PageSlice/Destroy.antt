-- ===== src/Mm/PageSlice/Destroy.antt =====
-- `page_slice_destroy` of kernel/mm/page_slice.c: the kernel pages that it gives back.
use mathlib.Core.List.{Mem, mem-cons_self, mem-cons_of_mem}
use rendezv_os.Base.{
  ℕ, zero, suc, ◌+◌, ◌≤◌, ◌<◌, ◌≡◌, not, ap, sym, ◌∙◌, subst, Bool, true, false, leb, none, some,
  arith, ◌==◌, if◌then◌else◌, ◌&&◌, ◌||◌, ◌∷◌,
}
use rendezv_os.Base.{Result, ok, ◌>>=◌}
use rendezv_os.Base.Returns.{Gives, Gives-bind, Gives-map}
use native.Mathlib.Decide.{ℕ_discrete}
use rendezv_os.Kalloc.{m_free}
use rendezv_os.Mm.PageSlice.{
  Entry, is_bound, has_flag, flag_pin, Slot, empty, to_leaf, to_index, leaf_idx, index_idx,
  leaf_capacity, index_capacity, PageSlice, Store, free_page, clear_leaf_entry, root_get_index,
  root_get_leaf, root_is_leaf, is_empty,
}
use rendezv_os.Mm.PageSlice.Shrink.{each, free_leaf_page, free_slot, free_index_page}
use rendezv_os.Mm.PageSlice.Api.{page_slice_destroy}
use rendezv_os.Mm.PageSlice.Slots.{index_idx-lt, look-empty}
use rendezv_os.Mm.PageSlice.Tree.{Wf, look, view}
use rendezv_os.Mm.PageSlice.Outcomes.{WfSlice, Given, AllReleased}
use rendezv_os.Mm.PageSlice.Heights.{max_pages, leaf_idx-lt}
use rendezv_os.Mm.PageSlice.Clear.{clear_leaf_entry-released, bound_only-some}
use rendezv_os.Mm.PageSlice.RemovePage.{in_room}

-- Nothing that was given back is lost.
abbrev Grows : Store → Store → Type 0
Grows st st' = (a : ℕ) → Mem a (st.released) → Mem a (st'.released)

-- A loop whose body does something at each index that later rounds keep.
each-all :
    (n i : ℕ) (body : ℕ → Store → Result Store) (P : ℕ → Store → Type 0) (st : Store)
    → ((j : ℕ) (st' st'' : Store) → Grows st' st'' → P j st' → P j st'')
    → ((j : ℕ) (st' : Store) → j < i + n → Gives (λ st''. Grows st' st'' × P j st'') (body j st'))
    → Gives (λ st'. Grows st st' × ((j : ℕ) → i ≤ j → j < i + n → P j st')) (each n i body st)
unfolding each
each-all zero i body P st keeps does = (λ a m. m, λ j ge lt. absurd (omega (arith, ge, lt)))
each-all (suc n) i body P st keeps does =
    Gives-bind (λ st'. Grows st st' × P i st')
      (λ st'. Grows st st' × ((j : ℕ) → i ≤ j → j < i + suc n → P j st')) (body i st) _
      (does i st (omega arith))
      (λ st' first.
        Gives-map (λ st''. Grows st' st'' × ((j : ℕ) → i + 1 ≤ j → j < i + 1 + n → P j st'')) _
          (each n (i + 1) body st')
          (λ st'' rest. (
            λ a m. rest.0 a (first.0 a m),
            λ j ge lt. elim (ℕ_discrete j i) [
              | yes e ↦ subst (λ z. P z st'') (sym e) (keeps i st' st'' (rest.0) (first.1))
              | no ne ↦ rest.1 j (omega (arith, ge, ne)) (omega (arith, lt))
            ],
          ))
          (each-all n (i + 1) body P st' keeps (λ j st'' lt. does j st'' (omega (arith, lt)))))

Given-Grows : (e : Entry) (st st' : Store) → Grows st st' → Given e st → Given e st'
Given-Grows e st st' grows given = λ off. grows (e.kernel_virtual_address) (given off)

clear_leaf_entry-Grows : (e : Entry) (st : Store) → Grows st (clear_leaf_entry e st)
unfolding clear_leaf_entry
clear_leaf_entry-Grows e st a m =
    go (not (e.kernel_virtual_address == 0) && not (has_flag flag_pin (e.flags)))
  where
    go :
        (t : Bool)
        → Mem a (
            (if t
              then record {
                kalloc = m_free (st.kalloc);
                released = e.kernel_virtual_address ∷ st.released;
              }
              else st).released)
    go true = mem-cons_of_mem _ m
    go false = m

clear_leaf_entry-Given :
    (e : Entry) (st : Store) → is_bound e ≡ true → Given e (clear_leaf_entry e st)
clear_leaf_entry-Given e st on off =
    subst (λ l. Mem (e.kernel_virtual_address) l)
      (sym (
        clear_leaf_entry-released e st on
        ∙ ap (λ t. if t then st.released else e.kernel_virtual_address ∷ st.released) off))
      mem-cons_self

free_leaf_page-Given :
    (es : ℕ → Entry) (st : Store)
    → Gives
        (λ st'.
          Grows st st' × ((j : ℕ) → j < leaf_capacity → is_bound (es j) ≡ true → Given (es j) st'))
        (free_leaf_page es st)
unfolding free_leaf_page
free_leaf_page-Given es st =
    Gives-bind
      (λ st'.
        Grows st st'
        × ((j : ℕ) → 0 ≤ j → j < 0 + leaf_capacity → is_bound (es j) ≡ true → Given (es j) st'))
      (λ st'.
        Grows st st' × ((j : ℕ) → j < leaf_capacity → is_bound (es j) ≡ true → Given (es j) st'))
      (each leaf_capacity 0 (λ i st'. ok (clear_leaf_entry (es i) st')) st) _
      (each-all leaf_capacity 0 (λ i st'. ok (clear_leaf_entry (es i) st'))
        (λ j st'. is_bound (es j) ≡ true → Given (es j) st') st
        (λ j st' st'' grows given on. Given-Grows (es j) st' st'' grows (given on))
        (λ j st' lt.
          (clear_leaf_entry-Grows (es j) st', λ on. clear_leaf_entry-Given (es j) st' on)))
      (λ st' all. (all.0, λ j lt on. all.1 j (omega arith) (omega (arith, lt)) on))

-- The pages that a slot has are given back.
abbrev AllGiven : ℕ → Slot → Store → Store → Type 0
AllGiven n s st st' = Grows st st' × ((q : ℕ) (e : Entry) → look n q s ≡ some e → Given e st')

leaf-AllGiven :
    (h l : ℕ) (es : ℕ → Entry) (st : Store)
    → Gives (AllGiven 0 (to_leaf h l es) st) (free_leaf_page es st)
leaf-AllGiven h l es st =
    Gives-map
      (λ st'.
        Grows st st' × ((j : ℕ) → j < leaf_capacity → is_bound (es j) ≡ true → Given (es j) st'))
      (AllGiven 0 (to_leaf h l es) st) (free_leaf_page es st)
      (λ st' all. (
        all.0,
        λ q e found.
            let (on, same) = bound_only-some (es (leaf_idx q)) e found in
            subst (λ z. Given z st') same (all.1 (leaf_idx q) (leaf_idx-lt q) on),
      ))
      (free_leaf_page-Given es st)

index-AllGiven :
    (n h l : ℕ) (ss : ℕ → Slot) (st : Store)
    → ((j : ℕ) (st' : Store) → Gives (AllGiven n (ss j) st') (free_slot (ss j) st'))
    → Gives (AllGiven (suc n) (to_index h l ss) st) (free_index_page ss st)
unfolding free_index_page
index-AllGiven n h l ss st below =
    Gives-bind
      (λ st'.
        Grows st st'
        × ((j : ℕ)
            → 0 ≤ j
            → j < 0 + index_capacity
            → (q : ℕ) (e : Entry) → look n q (ss j) ≡ some e
            → Given e st'))
      (AllGiven (suc n) (to_index h l ss) st)
      (each index_capacity 0 (λ i st'. free_slot (ss i) st') st) _
      (each-all index_capacity 0 (λ i st'. free_slot (ss i) st')
        (λ j st'. (q : ℕ) (e : Entry) → look n q (ss j) ≡ some e → Given e st') st
        (λ j st' st'' grows given q e found. Given-Grows e st' st'' grows (given q e found))
        (λ j st' lt. below j st'))
      (λ st' all. (
        all.0,
        λ q e found.
            all.1 (index_idx q n) (omega arith) (omega (arith, index_idx-lt q n)) q e found,
      ))

free_slot-AllGiven :
    (n : ℕ) (s : Slot) (st : Store) → n ≤ 2 → Wf 2 n s → Gives (AllGiven n s st) (free_slot s st)
unfolding free_slot free_index_page
free_slot-AllGiven n empty st le wf =
    (λ a m. m, λ q e found. absurd (ground (arith, sym (look-empty n q) ∙ found)))
free_slot-AllGiven zero (to_leaf h l es) st le wf =
    let low : (h == 2) ≡ true = ground (arith, wf.0) in rw low (leaf-AllGiven h l es st)
free_slot-AllGiven zero (to_index h l ss) st le wf = absurd wf
free_slot-AllGiven (suc n) (to_leaf h l es) st le wf = absurd wf
free_slot-AllGiven (suc n) (to_index h l ss) st le wf =
    let tall : ((h == 3) || (h == 4)) ≡ true = ground (arith, wf.0, le) in
    rw tall
      (index-AllGiven n h l ss st (λ j st'. free_slot-AllGiven n (ss j) st' (omega arith) (wf.2 j)))

-- The tree under a root, with the test of the code for its kind.
root-AllGiven :
    (k : ℕ) (root : Slot) (st : Store)
    → k ≤ 3
    → Wf 1 k root
    → Gives (AllGiven k root st) (
        if is_empty root
        then ok st
        else if root_is_leaf root
        then (root_get_leaf root >>= λ leaf. elim leaf [
          | none ↦ ok st
          | some es ↦ free_leaf_page es st
        ])
        else root_get_index root >>= λ top. elim top [
          | none ↦ ok st
          | some ss ↦ free_index_page ss st
        ])
unfolding root_get_index root_get_leaf
root-AllGiven k empty st le wf =
    (λ a m. m, λ q e found. absurd (ground (arith, sym (look-empty k q) ∙ found)))
root-AllGiven zero (to_leaf h l es) st le wf =
    let one : (h == 1) ≡ true = ground (arith, wf.0) in rw one (leaf-AllGiven h l es st)
root-AllGiven zero (to_index h l ss) st le wf = absurd wf
root-AllGiven (suc n) (to_leaf h l es) st le wf = absurd wf
root-AllGiven (suc n) (to_index h l ss) st le wf =
    let one : (h == 1) ≡ false = ground (arith, wf.0) in
    let four : (leb 2 h && leb h 4) ≡ true = ground (arith, wf.0, le) in
    rw (one, four)
      (index-AllGiven n h l ss st
        (λ j st'. free_slot-AllGiven n (ss j) st' (omega (arith, le)) (wf.2 j)))

pub page_slice_destroy-AllReleased :
    (ps : PageSlice) (st : Store) → WfSlice ps → Gives (AllReleased ps) (page_slice_destroy ps st)
unfolding page_slice_destroy
page_slice_destroy-AllReleased ps st wf =
    let (k, le, wf') = wf.wf_root in
    Gives-bind (AllGiven k (ps.root) st) (AllReleased ps) _ (λ st'. ok (free_page st'))
      (root-AllGiven k (ps.root) st le wf')
      (λ st' all q e lt found. all.1 q e (in_room k q e (ps.root) le lt wf' found).1)

-- The destruction of a well-formed slice returns without a fault, and the kernel page of each of its entries
-- that is not pinned is among those given back.
pub page_slice_destroy-Mem :
    (ps : PageSlice) (st : Store) (q : ℕ) (e : Entry)
    → WfSlice ps
    → q < max_pages
    → view q (ps.root) ≡ some e
    → has_flag flag_pin (e.flags) ≡ false
    → Gives (λ st'. Mem (e.kernel_virtual_address) (st'.released)) (page_slice_destroy ps st)
page_slice_destroy-Mem ps st q e wf lt found off =
    Gives-map (AllReleased ps) (λ st'. Mem (e.kernel_virtual_address) (st'.released))
      (page_slice_destroy ps st) (λ st' all. all q e lt found off)
      (page_slice_destroy-AllReleased ps st wf)
