-- ===== src/Mm/PageSlice/Clear.antt =====
-- kernel/mm/page_slice.c: an entry is cleared, and the pages that become empty are freed on the way up.
use mathlib.Core.Option.{some-injective}
use rendezv_os.Base.{
  ℕ, zero, suc, ◌+◌, ◌-◌, ◌%◌, ◌≤◌, ◌<◌, ◌≡◌, ◌≢◌, ◌⊎◌, refl, ap, sym, ◌∙◌, subst, Bool, true,
  false, Bool-cases, not, none, some, inl, inr, arith, ◌==◌, if◌then◌else◌, ◌&&◌, ◌∷◌,
}
use rendezv_os.Base.Returns.{Gives, Gives-bind, Gives-if}
use rendezv_os.Mm.PageSlice.{
  Entry, no_entry, is_bound, has_flag, flag_pin, flag_valid, Slot, empty, to_leaf, to_index, at,
  is_empty, live_dec, leaf_idx, index_idx, leaf_capacity, index_capacity, Store, free_page,
  clear_leaf_entry,
}
use rendezv_os.Kalloc.{m_free}
use rendezv_os.Mm.PageSlice.Path.{bound_only}
use rendezv_os.Mm.PageSlice.Shrink.{cascade, put_child, clear_in_leaf, clear_below}
use rendezv_os.Mm.PageSlice.Count.{count, at-same, at-other, count-loses, count-keeps, count-zero}
use rendezv_os.Mm.PageSlice.Slots.{at-all, index_idx-lt, is_empty_lem, look-empty}
use rendezv_os.Mm.PageSlice.Tree.{Wf, look}
use rendezv_os.Mm.PageSlice.Heights.{room, apart-below}
use rendezv_os.Mm.PageSlice.Outcomes.{give_back}
use native.Mathlib.Decide.{ℕ_discrete}

pub clear_leaf_entry-released :
    (e : Entry) (st : Store)
    → is_bound e ≡ true
    → (clear_leaf_entry e st).released ≡ give_back e (st.released)
unfolding clear_leaf_entry
clear_leaf_entry-released e st on =
    go (has_flag flag_valid (e.flags)) (e.kernel_virtual_address == 0) (has_flag flag_pin (e.flags))
      on
  where
    go :
        (v z p : Bool)
        → (v && not z) ≡ true
        → (if not z && not p
            then record {
              kalloc = m_free (st.kalloc);
              released = e.kernel_virtual_address ∷ st.released;
            }
            else st).released
          ≡ (if p then st.released else e.kernel_virtual_address ∷ st.released)
    go v true p on' = absurd (ground (arith, on'))
    go v false true on' = refl
    go v false false on' = refl

-- The slot and the heap after the entry of a page is gone.
pub record Cleared (d k q : ℕ) (e : Entry) (s : Slot) (st : Store) (r : Slot × Store) : Type 0 where
  pub wf : Wf d k (r.0)
  pub gone : look k q (r.0) ≡ none
  pub others : (q' : ℕ) → q % room k ≢ q' % room k → look k q' (r.0) ≡ look k q' s
  pub now_released : r.1.released ≡ give_back e (st.released)

pub bound_only-some : (x e : Entry) → bound_only (some x) ≡ some e → (is_bound x ≡ true) × (x ≡ e)
bound_only-some x e there = go (is_bound x) refl there
  where
    go :
        (t : Bool)
        → is_bound x ≡ t
        → (if t then some x else none) ≡ some e
        → (is_bound x ≡ true) × (x ≡ e)
    go true on same = (on, some-injective x e same)
    go false off same = absurd (ground (arith, same))

one_more_pos : (n : ℕ) → (n + 1 == 0) ≡ false
one_more_pos n = ground arith

pub off_on : (t : Bool) → not t ≡ false → t ≡ true
off_on true e = refl
off_on false e = absurd (ground (arith, e))

pub eq_zero : (n : ℕ) → (n == 0) ≡ true → n ≡ 0
eq_zero n e = ground (arith, e)

one_less : (n : ℕ) → n + 1 - 1 ≡ n
one_less n = omega arith

pub unbound : (e : Entry) → is_bound e ≡ false → bound_only (some e) ≡ none
unbound e off = ap (λ t. if t then some e else none) off

pub clear_in_leaf-Cleared :
    (d q : ℕ) (e : Entry) (s : Slot) (st : Store)
    → Wf d 0 s
    → look 0 q s ≡ some e
    → Gives (Cleared d 0 q e s st) (clear_in_leaf q s st)
unfolding clear_in_leaf live_dec leaf_idx
clear_in_leaf-Cleared d q e empty st wf there = absurd (ground (arith, there))
clear_in_leaf-Cleared d q e (to_index h l ss) st wf there = absurd wf
clear_in_leaf-Cleared d q e (to_leaf h l es) st (hd, wf) there =
    let on : is_bound (es i) ≡ true = (bound_only-some (es i) e there).0 in
    let same : es i ≡ e = (bound_only-some (es i) e there).1 in
    let fewer : count (λ j. is_bound (es j)) leaf_capacity
        ≡ count (λ j. is_bound (es' j)) leaf_capacity + 1 =
      count-loses is_bound es leaf_capacity i no_entry (omega arith) on refl in
    let pos : (l == 0) ≡ false =
      subst (λ z. (z == 0) ≡ false) (sym (wf.live ∙ fewer))
        (one_more_pos (count (λ j. is_bound (es' j)) leaf_capacity)) in
    let left : l - 1 ≡ count (λ j. is_bound (es' j)) leaf_capacity =
      ap (λ z. z - 1) (wf.live ∙ fewer) ∙ one_less (count (λ j. is_bound (es' j)) leaf_capacity) in
    let back : (clear_leaf_entry (es i) st).released ≡ give_back e (st.released) =
      clear_leaf_entry-released (es i) st on ∙ ap (λ z. give_back z (st.released)) same in
    rw pos (
      Gives-if (Cleared d 0 q e (to_leaf h l es) st) (l - 1 == 0) _ _
        (λ last. record {
          wf = tt;
          gone = refl;
          others = λ q' ne. sym (
              unbound (es (q' % 128)) (
                ap is_bound (sym (at-other i (q' % 128) no_entry es (λ h'. ne (sym h'))))
                ∙ count-zero (λ j. is_bound (es' j)) leaf_capacity (q' % 128)
                    (sym left ∙ eq_zero (l - 1) last) (omega arith)));
          now_released = back;
        })
        (λ more. record {
          wf = (
            hd,
            record {
              live = left;
              clean =
                  at-all (λ x. is_bound x ≡ false → x ≡ no_entry) i no_entry es (λ off. refl)
                    (wf.clean);
            },
          );
          gone = ap (λ z. bound_only (some z)) (at-same i no_entry es);
          others = λ q' ne.
              ap (λ z. bound_only (some z)) (at-other i (q' % 128) no_entry es (λ h'. ne (sym h')));
          now_released = back;
        }))
  where
    i : ℕ
    i = q % 128

    es' : ℕ → Entry
    es' = at i no_entry es

-- The slot has the map of an index page with the entries `ss`.
abbrev Stands : ℕ → ℕ → (ℕ → Slot) → Store → Slot × Store → Type 0
Stands d n ss st r =
    Wf d (suc n) (r.0)
    × ((q : ℕ) → look (suc n) q (r.0) ≡ look n q (ss (index_idx q n)))
    × (r.1.released ≡ st.released)

put_child-look :
    (d n h l i : ℕ) (ss : ℕ → Slot) (c : Slot) (st : Store)
    → i < index_capacity
    → Wf d (suc n) (to_index h l ss)
    → is_empty (ss i) ≡ false
    → Wf 2 n c
    → Stands d n (at i c ss) st (put_child i h l ss (c, st))
unfolding cascade live_dec
put_child-look d n h l i ss c st lt (hd, live, wf) filled new = go (is_empty c) refl
  where
    after : ℕ
    after = count (λ j. not (is_empty (at i c ss j))) index_capacity

    new_wf : (j : ℕ) → Wf 2 n (at i c ss j)
    new_wf = at-all (Wf 2 n) i c ss new wf

    go :
        (t : Bool)
        → is_empty c ≡ t
        → Stands d n (at i c ss) st (cascade t (to_index h l (at i c ss)) st)
    go false still = (
      (
        hd,
        live
            ∙ sym (
                count-keeps (λ s. not (is_empty s)) ss index_capacity i c
                  (ap not (still ∙ sym filled))),
        new_wf,
      ),
      λ q'. refl,
      refl,
    )
    go true none_there =
        let fewer : l ≡ after + 1 =
          live
          ∙ count-loses (λ s. not (is_empty s)) ss index_capacity i c lt (ap not filled)
              (ap not none_there) in
        let pos : (l == 0) ≡ false =
          subst (λ z. (z == 0) ≡ false) (sym fewer) (one_more_pos after) in
        let left : l - 1 ≡ after = ap (λ z. z - 1) fewer ∙ one_less after in
        rw pos (last left (Bool-cases (l - 1 == 0)))
      where
        last :
            l - 1 ≡ after
            → ((l - 1 == 0) ≡ true) ⊎ ((l - 1 == 0) ≡ false)
            → Stands d n
                (at i c ss)
                st
                (if l - 1 == 0 then (empty, free_page st) else (to_index h (l - 1) (at i c ss), st))
        last left (inr more) = rw more ((hd, left, new_wf), (λ q'. refl), refl)
        last left (inl zero_left) = rw zero_left (tt, (λ q'. sym (nothing q')), refl)
          where
            nothing : (q' : ℕ) → look n q' (at i c ss (index_idx q' n)) ≡ none
            nothing q' =
                ap (look n q') (
                  is_empty_lem (at i c ss (index_idx q' n)) (
                    off_on (is_empty (at i c ss (index_idx q' n))) (
                      count-zero (λ j. not (is_empty (at i c ss j))) index_capacity (index_idx q' n)
                        (sym left ∙ eq_zero (l - 1) zero_left) (index_idx-lt q' n))))
                ∙ look-empty n q'

-- What holds for an entry of an index page holds for the page.
clear_above :
    (d n q h l : ℕ) (e : Entry) (ss : ℕ → Slot) (st : Store) (r : Slot × Store)
    → n ≤ 2
    → Wf d (suc n) (to_index h l ss)
    → is_empty (ss (index_idx q n)) ≡ false
    → Cleared 2 n q e (ss (index_idx q n)) st r
    → Cleared d (suc n) q e (to_index h l ss) st (put_child (index_idx q n) h l ss r)
clear_above d n q h l e ss st (c, st') le wf filled cl =
    let i = index_idx q n in
    let (wf', look', released') =
      put_child-look d n h l i ss c st' (index_idx-lt q n) wf filled (cl.wf) in
    record {
      wf = wf';
      gone = look' q ∙ ap (look n q) (at-same i c ss) ∙ cl.gone;
      others = λ q' ne. look' q' ∙ elim (ℕ_discrete (index_idx q' n) i) [
        | yes same ↦
            ap (λ z. look n q' (at i c ss z)) same
            ∙ ap (look n q') (at-same i c ss)
            ∙ cl.others q' (apart-below n q q' le ne same)
            ∙ sym (ap (λ z. look n q' (ss z)) same)
        | no other ↦ ap (look n q') (at-other i (index_idx q' n) c ss other)
      ];
      now_released = released' ∙ cl.now_released;
    }

look-filled : (n q : ℕ) (e : Entry) (s : Slot) → look n q s ≡ some e → is_empty s ≡ false
look-filled n q e empty there = absurd (ground (arith, sym (look-empty n q) ∙ there))
look-filled n q e (to_leaf h l es) there = refl
look-filled n q e (to_index h l ss) there = refl

pub clear_below-Cleared :
    (n d q : ℕ) (e : Entry) (s : Slot) (st : Store)
    → n ≤ 2
    → Wf d (suc n) s
    → look (suc n) q s ≡ some e
    → Gives (Cleared d (suc n) q e s st) (clear_below n q s st)
unfolding clear_below
clear_below-Cleared n d q e empty st le wf there = absurd (ground (arith, there))
clear_below-Cleared n d q e (to_leaf h l es) st le wf there = absurd wf
clear_below-Cleared zero d q e (to_index h l ss) st le wf there =
    Gives-bind (Cleared 2 0 q e (ss (index_idx q 0)) st) (Cleared d 1 q e (to_index h l ss) st)
      (clear_in_leaf q (ss (index_idx q 0)) st) _
      (clear_in_leaf-Cleared 2 q e (ss (index_idx q 0)) st (wf.2 (index_idx q 0)) there)
      (λ r cl.
        clear_above d 0 q h l e ss st r le wf (look-filled 0 q e (ss (index_idx q 0)) there) cl)
clear_below-Cleared (suc n) d q e (to_index h l ss) st le wf there =
    let i = index_idx q (suc n) in
    Gives-bind (Cleared 2 (suc n) q e (ss i) st) (Cleared d (suc (suc n)) q e (to_index h l ss) st)
      (clear_below n q (ss i) st) _
      (clear_below-Cleared n 2 q e (ss i) st (omega arith) (wf.2 i) there)
      (λ r cl.
        clear_above d (suc n) q h l e ss st r le wf (look-filled (suc n) q e (ss i) there) cl)
