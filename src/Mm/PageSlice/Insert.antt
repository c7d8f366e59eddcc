-- ===== src/Mm/PageSlice/Insert.antt =====
-- kernel/mm/page_slice.c: a page is bound in the tree that has the way to it.
use rendezv_os.Base.{
  ℕ, zero, suc, ◌-◌, ◌≤◌, ◌<◌, ◌≡◌, ◌≢◌, ◌⊎◌, refl, ap, sym, ◌∙◌, subst, true, false, Bool-cases,
  ltb, leb, none, some, inl, inr, arith, ◌==◌, if◌then◌else◌, ◌&&◌,
}
use rendezv_os.Base.{ok, ◌>>=◌}
use rendezv_os.Base.Returns.{Gives, Gives-bind, Gives-map, Gives-both}
use rendezv_os.Mm.PageSlice.{
  Entry, is_bound, Slot, empty, to_leaf, to_index, leaf_idx, index_idx, root_is_leaf,
  required_height, as_index_page, root_get_index, root_get_leaf,
}
use rendezv_os.Mm.PageSlice.Path.{bound_only, edit_root, edit_leaf, find_leaf, find_entry, in_leaf}
use rendezv_os.Mm.PageSlice.Api.{bind_entry}
use rendezv_os.Mm.PageSlice.Slots.{Reaches}
use rendezv_os.Mm.PageSlice.Tree.{Wf, WfRoot, look, view, as_index_page-index, find_entry-look}
use rendezv_os.Mm.PageSlice.Grow.{leaf_there}
use rendezv_os.Mm.PageSlice.Heights.{room, max_pages, view-look, mod-room, fits-room}
use rendezv_os.Mm.PageSlice.Way.{RootReaches}
use rendezv_os.Mm.PageSlice.Bind.{Bound, bind_leaf, edit_leaf-Bound, Reaches-filled}

-- The tree stands for the map with one more page.
pub record Written (q : ℕ) (e : Entry) (root : Slot) (root' : Slot) : Type 0 where
  pub wf : WfRoot root'
  pub found : view q root' ≡ some e
  pub others : (q' : ℕ) → q' < max_pages → q' ≢ q → view q' root' ≡ view q' root

Bound-Written :
    (k q : ℕ) (e : Entry) (root root' : Slot)
    → k ≤ 3
    → q < room k
    → q < max_pages
    → Wf 1 k root
    → Bound 1 k q e root root'
    → Written q e root root'
Bound-Written k q e root root' le lt small wf b = record {
  wf = (k, le, b.wf);
  found =
      let low : leb (room k) q ≡ false = ground (arith, lt) in
      view-look k q root' le small (b.wf)
      ∙ ap (λ t. if t then none else look k q root') low
      ∙ b.found;
  others = λ q' small' ne.
      view-look k q' root' le small' (b.wf)
      ∙ other q' ne (Bool-cases (leb (room k) q'))
      ∙ sym (view-look k q' root le small' wf);
}
  where
    other :
        (q' : ℕ)
        → q' ≢ q
        → (leb (room k) q' ≡ true) ⊎ (leb (room k) q' ≡ false)
        → (if leb (room k) q' then none else look k q' root')
          ≡ (if leb (room k) q' then none else look k q' root)
    other q' ne (inl high) = rw high refl
    other q' ne (inr low) =
        let lt' : q' < room k = ground (arith, low) in
        rw low (b.others q' (λ h. ne (sym (sym (mod-room k q le lt) ∙ h ∙ mod-room k q' le lt'))))

pub edit_root-Written :
    (q : ℕ) (e : Entry) (root : Slot)
    → q < max_pages
    → WfRoot root
    → RootReaches q root
    → view q root ≡ none
    → is_bound e ≡ true
    → Gives (Written q e root) (edit_root q (bind_entry (root_is_leaf root) q e) root)
unfolding edit_root
edit_root-Written q e empty small wf (tall, reach) nothing on = absurd reach
edit_root-Written q e (to_leaf h l es) small (zero, le, (hd, wf)) reach nothing on =
    at_leaf (subst (λ z. RootReaches q (to_leaf z l es)) hd reach)
      (subst (λ z. view q (to_leaf z l es) ≡ none) hd nothing)
  where
    s : Slot
    s = to_leaf 1 l es

    at_leaf :
        RootReaches q s
        → view q s ≡ none
        → Gives (Written q e (to_leaf h l es)) (
            if h == 1
            then ok (bind_entry (h == 1) q e (to_leaf h l es))
            else if leb 2 h && leb h 4
            then edit_leaf (h - 2) q (bind_entry (h == 1) q e) (to_leaf h l es)
            else ok (to_leaf h l es))
    at_leaf (tall, reach') nothing' =
        let fits = fits-room 0 q s le small (refl, wf) refl tall in
        let low : leb (room 0) q ≡ false = ground (arith, fits) in
        rw hd (
          Bound-Written 0 q e s (bind_entry true q e s) le fits small (refl, wf)
            (bind_leaf 1 q true e s refl (refl, wf) reach'
              (sym (ap (λ t. if t then none else look 0 q s) low)
                ∙ sym (view-look 0 q s le small (refl, wf))
                ∙ nothing')
              on))
edit_root-Written q e (to_leaf h l es) small (suc n, le, wf) reach nothing on = absurd wf
edit_root-Written q e (to_index h l ss) small (zero, le, wf) reach nothing on = absurd wf
edit_root-Written q e (to_index h l ss) small (suc n, le, wf) (tall, reach) nothing on =
    let fits = fits-room (suc n) q (to_index h l ss) le small wf refl tall in
    let low : leb (room (suc n)) q ≡ false = ground (arith, fits) in
    let not_leaf : (h == 1) ≡ false = ground (arith, wf.0) in
    let four : (leb 2 h && leb h 4) ≡ true = ground (arith, wf.0, le) in
    let below : h - 2 ≡ n = omega (arith, wf.0) in
    let level : h - 1 ≡ suc n = omega (arith, wf.0) in
    rw (not_leaf, four, below)
      (Gives-map (Bound 1 (suc n) q e (to_index h l ss)) (Written q e (to_index h l ss))
        (edit_leaf n q (bind_entry false q e) (to_index h l ss))
        (λ s' b. Bound-Written (suc n) q e (to_index h l ss) s' le fits small wf b)
        (edit_leaf-Bound n 1 q h l e ss (omega (arith, le)) wf
          (subst (λ z. Reaches z q (to_index h l ss)) level reach)
          (sym (ap (λ t. if t then none else look (suc n) q (to_index h l ss)) low)
            ∙ sym (view-look (suc n) q (to_index h l ss) le small wf)
            ∙ nothing)
          on))

find_leaf-there :
    (n q : ℕ) (ss : ℕ → Slot)
    → n ≤ 2
    → ((i : ℕ) → Wf 2 n (ss i))
    → Reaches n q (ss (index_idx q n))
    → Gives (λ o. (es : ℕ → Entry) × (o ≡ some es)) (find_leaf n q ss)
unfolding find_leaf
find_leaf-there zero q ss le wf reach =
    let (es, found, reach') =
      leaf_there q (ss (index_idx q 0)) (wf (index_idx q 0))
        (Reaches-filled 0 q (ss (index_idx q 0)) reach) in
    rw found (es, refl)
find_leaf-there (suc n) q ss le wf reach =
    below (ss (index_idx q (suc n))) (wf (index_idx q (suc n))) reach
      (λ ss' wf' reach'. find_leaf-there n q ss' (omega arith) wf' reach')
  where
    below :
        (s : Slot)
        → Wf 2 (suc n) s
        → Reaches (suc n) q s
        → ((ss' : ℕ → Slot)
            → ((i : ℕ) → Wf 2 n (ss' i))
            → Reaches n q (ss' (index_idx q n))
            → Gives (λ o. (es : ℕ → Entry) × (o ≡ some es)) (find_leaf n q ss'))
        → Gives
            (λ o. (es : ℕ → Entry) × (o ≡ some es))
            (as_index_page s >>= λ child. elim child [
              | none ↦ ok none
              | some ss' ↦ find_leaf n q ss'
            ])
    below empty wf' reach' rest = absurd reach'
    below (to_leaf h l es) wf' reach' rest = absurd wf'
    below (to_index h l ss') (e, c, wf') reach' rest =
        rw (as_index_page-index n h l ss' (omega arith) e) (rest ss' wf' reach')

find_entry-there :
    (q : ℕ) (root : Slot)
    → WfRoot root
    → RootReaches q root
    → Gives (λ o. (e : Entry) × (o ≡ some e)) (find_entry q root)
unfolding find_entry root_get_index root_get_leaf
find_entry-there q empty wf (tall, reach) = absurd reach
find_entry-there q (to_leaf h l es) (zero, le, (e, wf)) (tall, reach) =
    let high : ltb h (required_height q) ≡ false = ground (arith, tall) in
    let one : leb 2 h ≡ false = ground (arith, e) in
    let leaf : (h == 1) ≡ true = ground (arith, e) in rw (high, one, leaf) (es (leaf_idx q), refl)
find_entry-there q (to_leaf h l es) (suc n, le, wf) reach = absurd wf
find_entry-there q (to_index h l ss) (zero, le, wf) reach = absurd wf
find_entry-there q (to_index h l ss) (suc n, le, (e, c, wf)) (tall, reach) =
    let high : ltb h (required_height q) ≡ false = ground (arith, tall) in
    let two : leb 2 h ≡ true = ground (arith, e) in
    let four : (leb 2 h && leb h 4) ≡ true = ground (arith, e, le) in
    let below : h - 2 ≡ n = omega (arith, e) in
    let level : h - 1 ≡ suc n = omega (arith, e) in
    rw (high, four, two, below)
      (Gives-bind (λ o. (es : ℕ → Entry) × (o ≡ some es)) (λ o. (x : Entry) × (o ≡ some x))
        (find_leaf n q ss) _
        (find_leaf-there n q ss (omega (arith, le)) wf
          (subst (λ z. Reaches z q (to_index h l ss)) level reach))
        (λ o there. (there.0 (leaf_idx q), ap (in_leaf q) (there.1))))

-- The entry that the way ends at.
pub find_entry-entry :
    (q : ℕ) (root : Slot)
    → WfRoot root
    → RootReaches q root
    → Gives
        (λ o. (e : Entry) × (o ≡ some e) × (bound_only (some e) ≡ view q root))
        (find_entry q root)
find_entry-entry q root wf reach =
    Gives-map (λ o. ((e : Entry) × (o ≡ some e)) × (bound_only o ≡ view q root)) _
      (find_entry q root)
      (λ o both. (both.0.0, both.0.1, subst (λ z. bound_only z ≡ view q root) (both.0.1) (both.1)))
      (Gives-both (λ o. (e : Entry) × (o ≡ some e)) (λ o. bound_only o ≡ view q root)
        (find_entry q root) (find_entry-there q root wf reach) (find_entry-look q root wf))
