-- ===== src/Mm/PageSlice/Lower.antt =====
-- The loop of `ps_shrink` of kernel/mm/page_slice.c: the root is lowered without a change of the map.
use rendezv_os.Base.{
  ℕ, zero, suc, ◌+◌, ◌-◌, ◌≤◌, ◌<◌, ◌≡◌, ◌≢◌, ◌⊎◌, refl, ap, sym, ◌∙◌, subst, Bool, true, false,
  Bool-cases, leb, not, none, some, inl, inr, arith, ◌==◌, if◌then◌else◌, ◌&&◌,
}
use rendezv_os.Base.{ok, ◌>>=◌}
use rendezv_os.Base.Returns.{Gives, Gives-if, Gives-map}
use rendezv_os.Mm.PageSlice.{
  Entry, Slot, empty, to_leaf, to_index, is_empty, entry_live, entry_new, index_idx, index_capacity,
  Store, free_page, as_leaf_page, root_get_index,
}
use rendezv_os.Mm.PageSlice.Shrink.{Lowered, lowered, lower_once, returns_at, lower_root}
use rendezv_os.Mm.PageSlice.Count.{count-one}
use rendezv_os.Mm.PageSlice.Slots.{is_empty_lem, look-empty, look-entry_new, index_idx-lt}
use rendezv_os.Mm.PageSlice.Tree.{WfLeaf, Wf, WfRoot, look, view}
use rendezv_os.Mm.PageSlice.Grow.{leaf_there}
use rendezv_os.Mm.PageSlice.Clear.{off_on}
use rendezv_os.Mm.PageSlice.Heights.{max_pages}
use rendezv_os.Mm.PageSlice.Raise.{view-step}

-- The root stands for the map of before, and no kernel page is given back.
pub record KeptRoot (root : Slot) (st : Store) (r : Slot × Store) : Type 0 where
  pub wf : WfRoot (r.0)
  pub same_view : (q : ℕ) → q < max_pages → view q (r.0) ≡ view q root
  pub same_released : r.1.released ≡ st.released

abbrev pub Lowers : Slot → Store → Lowered → Type 0
Lowers root st (lowered returns root' st') = KeptRoot root st (root', st')

-- The child of the root as the new root.
Wf-lower :
    (n h l : ℕ) (s : Slot) → h ≡ n + 1 → l ≡ entry_live s → Wf 2 n s → Wf 1 n (entry_new h l s)
Wf-lower n h l empty e e' wf = tt
Wf-lower zero h l (to_leaf h' l' es) e e' (f, wf) =
    (omega (arith, e), subst (λ z. WfLeaf z es) (sym e') wf)
Wf-lower zero h l (to_index h' l' ss) e e' wf = absurd wf
Wf-lower (suc n) h l (to_leaf h' l' es) e e' wf = absurd wf
Wf-lower (suc n) h l (to_index h' l' ss) e e' (f, c, wf) = (e, e' ∙ c, wf)

look-only :
    (n h q : ℕ) (ss : ℕ → Slot)
    → Wf 1 (suc n) (to_index h 1 ss)
    → is_empty (ss 0) ≡ false
    → index_idx q n ≢ 0
    → look (suc n) q (to_index h 1 ss) ≡ none
look-only n h q ss (hd, live, wf) filled ne =
    ap (look n q) (
      is_empty_lem (ss (index_idx q n)) (
        off_on (is_empty (ss (index_idx q n))) (
          count-one (λ j. not (is_empty (ss j))) index_capacity (index_idx q n) (sym live)
            (ap not filled) (index_idx-lt q n) (omega (arith, ne)))))
    ∙ look-empty n q

lower_once-Kept :
    (n h : ℕ) (ss : ℕ → Slot) (st : Store)
    → n ≤ 2
    → Wf 1 (suc n) (to_index h 1 ss)
    → is_empty (ss 0) ≡ false
    → Wf 1 n (lower_once (to_index h 1 ss) (ss 0))
      × KeptRoot (to_index h 1 ss) st (lower_once (to_index h 1 ss) (ss 0), free_page st)
unfolding lower_once
lower_once-Kept n h ss st le wf filled =
    let c = ss 0 in
    let wf' : Wf 1 n (entry_new (h - 1) (entry_live c) c) =
      Wf-lower n (h - 1) (entry_live c) c (omega (arith, wf.0)) refl (wf.2 0) in
    (
      wf',
      record {
        wf = (n, omega (arith, le), wf');
        same_view = λ q lt. sym (
            view-step n q (to_index h 1 ss) (entry_new (h - 1) (entry_live c) c) le lt wf' wf
              (λ e. ap (λ z. look n q (ss z)) e ∙ sym (look-entry_new (h - 1) (entry_live c) n q c))
              (look-only n h q ss wf filled));
        same_released = refl;
      },
    )

-- Lowering by one, on a root with the live count 1.
lower_one :
    (n h l : ℕ) (ss : ℕ → Slot) (st : Store)
    → n ≤ 2
    → l ≡ 1
    → Wf 1 (suc n) (to_index h l ss)
    → is_empty (ss 0) ≡ false
    → Wf 1 n (lower_once (to_index h l ss) (ss 0))
      × KeptRoot (to_index h l ss) st (lower_once (to_index h l ss) (ss 0), free_page st)
lower_one n h l ss st le one wf filled =
    subst
      (λ z.
        Wf 1 n (lower_once (to_index h z ss) (ss 0))
        × KeptRoot (to_index h z ss) st (lower_once (to_index h z ss) (ss 0), free_page st))
      (sym one)
      (lower_once-Kept n h ss st le (subst (λ z. Wf 1 (suc n) (to_index h z ss)) one wf) filled)

pub KeptRoot-refl : (root : Slot) (st : Store) → WfRoot root → KeptRoot root st (root, st)
KeptRoot-refl root st wf = record { wf = wf; same_view = λ q lt. refl; same_released = refl }

pub KeptRoot-trans :
    (root root' : Slot) (st st' : Store) (r : Slot × Store)
    → KeptRoot root st (root', st')
    → KeptRoot root' st' r
    → KeptRoot root st r
KeptRoot-trans root root' st st' r k k' = record {
  wf = k'.wf;
  same_view = λ q lt. k'.same_view q lt ∙ k.same_view q lt;
  same_released = k'.same_released ∙ k.same_released;
}

Lowers-trans :
    (root root' : Slot) (st : Store) (r : Lowered)
    → KeptRoot root st (root', free_page st)
    → Lowers root' (free_page st) r
    → Lowers root st r
Lowers-trans root root' st (lowered returns root'' st'') k k' =
    KeptRoot-trans root root' st (free_page st) (root'', st'') k k'

returns_at-leaf :
    (h l : ℕ) (ss : ℕ → Slot) (es : ℕ → Entry)
    → (h == 2) ≡ true
    → returns_at (to_index h l ss) (some es) ≡ true
unfolding returns_at
returns_at-leaf h l ss es low = low

returns_at-none : (root : Slot) → returns_at root none ≡ false
unfolding returns_at
returns_at-none root = refl

pub lower_root-Lowers :
    (rounds k : ℕ) (root : Slot) (st : Store)
    → k ≤ 3
    → k ≤ rounds
    → Wf 1 k root
    → Gives (Lowers root st) (lower_root rounds root st)
unfolding lower_root root_get_index
lower_root-Lowers zero k empty st le fuel wf = KeptRoot-refl empty st (k, le, wf)
lower_root-Lowers zero zero (to_leaf h l es) st le fuel wf =
    let low : leb 2 h ≡ false = ground (arith, wf.0) in
    rw low (KeptRoot-refl (to_leaf h l es) st (0, le, wf))
lower_root-Lowers zero zero (to_index h l ss) st le fuel wf = absurd wf
lower_root-Lowers zero (suc n) (to_leaf h l es) st le fuel wf = absurd wf
lower_root-Lowers zero (suc n) (to_index h l ss) st le fuel wf = absurd (omega (arith, fuel))
lower_root-Lowers (suc rounds) k empty st le fuel wf = KeptRoot-refl empty st (k, le, wf)
lower_root-Lowers (suc rounds) zero (to_leaf h l es) st le fuel wf =
    let low : leb 2 h ≡ false = ground (arith, wf.0) in
    rw low (KeptRoot-refl (to_leaf h l es) st (0, le, wf))
lower_root-Lowers (suc rounds) zero (to_index h l ss) st le fuel wf = absurd wf
lower_root-Lowers (suc rounds) (suc n) (to_leaf h l es) st le fuel wf = absurd wf
lower_root-Lowers (suc rounds) (suc n) (to_index h l ss) st le fuel wf =
    let two : (leb 2 h && leb h 4) ≡ true = ground (arith, wf.0, le) in
    rw two (
      Gives-if (Lowers (to_index h l ss) st) (l == 1) _ _
        (λ one.
          only n le (ground (arith, one)) wf
            (λ root' st' le' wf'.
              lower_root-Lowers rounds n root' st' le' (omega (arith, fuel)) wf')
            (Bool-cases (is_empty (ss 0))))
        (λ other. KeptRoot-refl (to_index h l ss) st (suc n, le, wf)))
  where
    Next : Bool → Type 0
    Next t = Gives (Lowers (to_index h l ss) st) (elim t [
      | true ↦ ok (lowered true (lower_once (to_index h l ss) (ss 0)) (free_page st))
      | false ↦ lower_root rounds (lower_once (to_index h l ss) (ss 0)) (free_page st)
    ])

    only :
        (n' : ℕ)
        → suc n' ≤ 3
        → l ≡ 1
        → Wf 1 (suc n') (to_index h l ss)
        → ((root' : Slot) (st' : Store)
            → n' ≤ 3
            → Wf 1 n' root'
            → Gives (Lowers root' st') (lower_root rounds root' st'))
        → (is_empty (ss 0) ≡ true) ⊎ (is_empty (ss 0) ≡ false)
        → Gives (Lowers (to_index h l ss) st) (
            if is_empty (ss 0)
            then ok (lowered false (to_index h l ss) st)
            else (if h == 2 then as_leaf_page (ss 0) else ok none) >>= λ leaf.
                elim (returns_at (to_index h l ss) leaf) [
                  | true ↦ ok (lowered true (lower_once (to_index h l ss) (ss 0)) (free_page st))
                  | false ↦ lower_root rounds (lower_once (to_index h l ss) (ss 0)) (free_page st)
                ])
    only n' le' one wf' rest (inl none_there) =
        rw none_there (KeptRoot-refl (to_index h l ss) st (suc n', le', wf'))
    only zero le' one wf' rest (inr filled) =
        let (es, found, reach) = leaf_there 0 (ss 0) (wf'.2 0) filled in
        let low : (h == 2) ≡ true = ground (arith, wf'.0) in
        rw (filled, low, found)
          (subst Next (sym (returns_at-leaf h l ss es low))
            (lower_one 0 h l ss st (omega arith) one wf' filled).1)
    only (suc m) le' one wf' rest (inr filled) =
        let high : (h == 2) ≡ false = ground (arith, wf'.0) in
        let (wf'', k) = lower_one (suc m) h l ss st (omega (arith, le')) one wf' filled in
        let next = lower_once (to_index h l ss) (ss 0) in
        rw (filled, high)
          (subst Next (sym (returns_at-none (to_index h l ss))) (
            Gives-map (Lowers next (free_page st)) (Lowers (to_index h l ss) st)
              (lower_root rounds next (free_page st))
              (λ r k'. Lowers-trans (to_index h l ss) next st r k k')
              (rest next (free_page st) (omega (arith, le')) wf'')))
