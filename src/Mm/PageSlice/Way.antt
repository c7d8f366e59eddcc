-- ===== src/Mm/PageSlice/Way.antt =====
-- kernel/mm/page_slice.c: the tree is raised and the way to an entry is made, without a change of the map.
use rendezv_os.Base.{
  ℕ, zero, suc, ◌+◌, ◌-◌, ◌≤◌, ◌<◌, ◌&&◌, ◌≡◌, ◌⊎◌, refl, ap, sym, ◌∙◌, subst, Bool, true, false,
  Bool-cases, ltb, leb, Option, none, some, inl, inr, arith, ◌==◌, if◌then◌else◌,
}
use rendezv_os.Base.{ok, Error, e_rend_no_mem}
use rendezv_os.Base.Returns.{Gives, Gives-if, Gives-map}
use rendezv_os.Kalloc.{Answers}
use rendezv_os.Mm.PageSlice.{
  Slot, empty, to_leaf, to_index, is_empty, entry_height, index_capacity, live_max, zero_leaf,
  required_height, Store, alloc_page, root_get_index, root_get_leaf,
}
use rendezv_os.Mm.PageSlice.Path.{
  Made, raised_once, raise_rounds, raise_height, make_from_root, allocated, make_path,
}
use rendezv_os.Mm.PageSlice.Slots.{Reaches, is_empty_lem, zero_leaf-WfLeaf}
use rendezv_os.Mm.PageSlice.Tree.{Wf, WfRoot, view}
use rendezv_os.Mm.PageSlice.Grow.{Grown, make_path-Grown, GrantedPage, alloc_page-released}
use rendezv_os.Mm.PageSlice.Heights.{
  leb-true, leb-false, room, max_pages, height-Wf, view-empty, view-look,
}
use rendezv_os.Mm.PageSlice.Raise.{Raised, raised_once-Raised}

-- The slot stands for the map of the root before.
pub record Kept (root : Slot) (st : Store) (m : Made) : Type 0 where
  pub wf : WfRoot (m.slot)
  pub same_view : (q : ℕ) → q < max_pages → view q (m.slot) ≡ view q root
  pub same_released : m.store.released ≡ st.released
  pub codes : (m.failure ≡ none) ⊎ (m.failure ≡ some e_rend_no_mem)

-- The loop of `ps_raise_height` ends with the height or without memory.
abbrev pub Tall : ℕ → Slot → Store → Made → Type 0
Tall target root st m = Kept root st m × (m.failure ≡ none → target ≤ entry_height (m.slot))

kept :
    (root : Slot) (st st' : Store) (failure : Option Error)
    → (failure ≡ none) ⊎ (failure ≡ some e_rend_no_mem)
    → WfRoot root
    → st'.released ≡ st.released
    → Kept root st (record { failure = failure; slot = root; store = st' })
kept root st st' failure codes wf same = record {
  wf = wf;
  same_view = λ q lt. refl;
  same_released = same;
  codes = codes;
}

Kept-trans :
    (root root' : Slot) (st st' : Store) (m : Made)
    → Raised root root'
    → st'.released ≡ st.released
    → Kept root' st' m
    → Kept root st m
Kept-trans root root' st st' m r same k = record {
  wf = k.wf;
  same_view = λ q lt. k.same_view q lt ∙ r.same_view q lt;
  same_released = k.same_released ∙ same;
  codes = k.codes;
}

-- A root below the height 4 has room for a round.
low_root : (root : Slot) → WfRoot root → entry_height root < 4 → (k : ℕ) × (k ≤ 2) × Wf 1 k root
low_root root (k, le, wf) lt = go (Bool-cases (is_empty root))
  where
    go : (is_empty root ≡ true) ⊎ (is_empty root ≡ false) → (k : ℕ) × (k ≤ 2) × Wf 1 k root
    go (inl e) = (0, omega arith, subst (Wf 1 0) (sym (is_empty_lem root e)) tt)
    go (inr filled) = (k, omega (arith, le, lt, height-Wf 1 k root wf filled), wf)

raise_rounds-Tall :
    (answers : Answers) (n target : ℕ) (root : Slot) (st : Store)
    → WfRoot root
    → target ≤ 4
    → target ≤ entry_height root + n
    → Gives (Tall target root st) (raise_rounds answers n target root st)
unfolding raise_rounds
raise_rounds-Tall answers zero target root st wf small fuel =
    let enough : ltb (entry_height root) target ≡ false = ground (arith, fuel) in
    rw enough (kept root st st none (inl refl) wf refl, λ e. omega (arith, fuel))
raise_rounds-Tall answers (suc n) target root st wf small fuel =
    Gives-if (Tall target root st) (ltb (entry_height root) target) _ _
      (λ low.
        round (alloc_page answers st) (alloc_page-released answers st)
          (low_root root wf (ground (arith, low, small)))
          (λ st' r.
            raise_rounds-Tall answers n target (raised_once root) st' (r.wf) small
              (omega (arith, fuel, r.taller))))
      (λ high. (kept root st st none (inl refl) wf refl, λ e. ground (arith, high)))
  where
    round :
        (r : Bool × Store)
        → GrantedPage r st
        → (k : ℕ) × (k ≤ 2) × Wf 1 k root
        → ((st' : Store)
            → Raised root (raised_once root)
            → Gives
                (Tall target (raised_once root) st')
                (raise_rounds answers n target (raised_once root) st'))
        → Gives (Tall target root st) (
            allocated r
              (λ st'. raise_rounds answers n target (raised_once root) st')
              (λ st'. ok (record { failure = some e_rend_no_mem; slot = root; store = st' })))
    round (false, st') same low rest =
        (kept root st st' (some e_rend_no_mem) (inr refl) wf same, λ e. absurd (ground (arith, e)))
    round (true, st') same (k, le, wf') rest =
        let r = raised_once-Raised k root le wf' in
        Gives-map (Tall target (raised_once root) st') (Tall target root st)
          (raise_rounds answers n target (raised_once root) st')
          (λ m t. (Kept-trans root (raised_once root) st st' m r same (t.0), t.1)) (rest st' r)

-- A target below 2 is no target.
pub raise_height-Tall :
    (answers : Answers) (target : ℕ) (root : Slot) (st : Store)
    → WfRoot root
    → target ≤ 4
    → Gives
        (λ m. Kept root st m × (m.failure ≡ none → 2 ≤ target → target ≤ entry_height (m.slot)))
        (raise_height answers target root st)
unfolding raise_height
raise_height-Tall answers target root st wf small =
    let fits : ltb 4 target ≡ false = ground (arith, small) in
    elim (Bool-cases (ltb target 2)) [
      | inl low ↦
          rw low
            (kept root st st none (inl refl) wf refl, λ e two. absurd (ground (arith, low, two)))
      | inr high ↦
          rw (high, fits)
            (Gives-map (Tall target root st) _ (raise_rounds answers 4 target root st)
              (λ m t. (t.0, λ e two. t.1 e))
              (raise_rounds-Tall answers 4 target root st wf small (omega (arith, small))))
    ]

-- The root has a leaf page for the page.
abbrev pub RootReaches : ℕ → Slot → Type 0
RootReaches q s = (required_height q ≤ entry_height s) × Reaches (entry_height s - 1) q s

-- The way to a page is there, unless there is an error code; the map is the one of before.
abbrev pub Way : ℕ → Slot → Store → Made → Type 0
Way q root st m = Kept root st m × (m.failure ≡ none → RootReaches q (m.slot))

live_max-root : (n h : ℕ) → h ≡ suc n + 1 → live_max true h ≡ index_capacity
live_max-root zero h e = rw e refl
live_max-root (suc n) h e = let tall : h ≡ suc (suc (suc n)) = omega (arith, e) in rw tall refl

-- The outcome below the root.
Grown-Way :
    (n q h l : ℕ) (ss : ℕ → Slot) (st : Store) (m : Made)
    → n ≤ 2
    → Wf 1 (suc n) (to_index h l ss)
    → required_height q ≤ h
    → Grown 1 (suc n) q (to_index h l ss) st m
    → Way q (to_index h l ss) st m
Grown-Way n q h l ss st m le wf tall g = (
  record {
    wf = (suc n, omega (arith, le), g.wf);
    same_view = λ q' lt.
        view-look (suc n) q' (m.slot) (omega (arith, le)) lt (g.wf)
        ∙ ap (λ z. if leb (room (suc n)) q' then none else z) (g.same_look q')
        ∙ sym (view-look (suc n) q' (to_index h l ss) (omega (arith, le)) lt wf);
    same_released = g.same_released;
    codes = g.codes;
  },
  λ e. (
    omega (arith, tall, g.same_height),
    subst (λ z. Reaches z q (m.slot)) (omega (arith, wf.0, g.same_height)) (g.reached e),
  ),
)

fresh-view : (q : ℕ) → view q (to_leaf 1 0 zero_leaf) ≡ none
fresh-view q = elim (Bool-cases (ltb 1 (required_height q))) [
  | inl low ↦ rw low refl
  | inr high ↦ rw high refl
]

-- A height that is there if the page needs one of two or more.
high_enough : (r h : ℕ) → (2 ≤ r → r ≤ h) → 1 ≤ h → r ≤ h
high_enough r h tall pos = elim (Bool-cases (leb 2 r)) [
  | inl two ↦ tall (ground (arith, two))
  | inr one ↦ omega (arith, pos, leb-false 2 r one)
]

low_enough : (r : ℕ) → (2 ≤ r → r ≤ 0) → r ≤ 1
low_enough r tall = elim (Bool-cases (leb 2 r)) [
  | inl two ↦ absurd (omega (arith, tall (leb-true 2 r two), leb-true 2 r two))
  | inr one ↦ omega (arith, leb-false 2 r one)
]

pub make_from_root-Way :
    (answers : Answers) (q : ℕ) (root : Slot) (st : Store)
    → WfRoot root
    → (2 ≤ required_height q → required_height q ≤ entry_height root)
    → Gives (Way q root st) (make_from_root answers q root st)
unfolding make_from_root root_get_index root_get_leaf
make_from_root-Way answers q empty st wf tall =
    new_leaf (alloc_page answers st) (alloc_page-released answers st)
  where
    new_leaf :
        (r : Bool × Store)
        → GrantedPage r st
        → Gives (Way q empty st) (
            allocated r
              (λ st'. ok (record { failure = none; slot = to_leaf 1 0 zero_leaf; store = st' }))
              (λ st'. ok (record { failure = some e_rend_no_mem; slot = empty; store = st' })))
    new_leaf (false, st') same =
        (kept empty st st' (some e_rend_no_mem) (inr refl) wf same, λ e. absurd (ground (arith, e)))
    new_leaf (true, st') same = (
      record {
        wf = (0, omega arith, (refl, zero_leaf-WfLeaf));
        same_view = λ q' lt. fresh-view q' ∙ sym (view-empty q');
        same_released = same;
        codes = inl refl;
      },
      λ e. (low_enough (required_height q) tall, tt),
    )
make_from_root-Way answers q (to_leaf h l es) st (zero, le, (e, wf)) tall =
    let leaf_root : (h == 1) ≡ true = ground (arith, e) in
    let low : leb 2 h ≡ false = ground (arith, e) in
    let level : h - 1 ≡ 0 = omega (arith, e) in
    let there : RootReaches q (to_leaf h l es) = (
      high_enough (required_height q) h tall (omega (arith, e)),
      subst (λ z. Reaches z q (to_leaf h l es)) (sym level) tt,
    ) in
    rw (low, leaf_root)
      (kept (to_leaf h l es) st st none (inl refl) (0, le, (e, wf)) refl, λ none_there. there)
make_from_root-Way answers q (to_leaf h l es) st (suc n, le, wf) tall = absurd wf
make_from_root-Way answers q (to_index h l ss) st (zero, le, wf) tall = absurd wf
make_from_root-Way answers q (to_index h l ss) st (suc n, le, (e, c, wf)) tall =
    let two : leb 2 h ≡ true = ground (arith, e) in
    let four : (leb 2 h && leb h 4) ≡ true = ground (arith, e, le) in
    let below : h - 2 ≡ n = omega (arith, e) in
    rw (four, two, below)
      (Gives-map (Grown 1 (suc n) q (to_index h l ss) st) (Way q (to_index h l ss) st)
        (make_path answers n true q (to_index h l ss) st)
        (λ m g.
          Grown-Way n q h l ss st m (omega (arith, le)) (e, c, wf)
            (high_enough (required_height q) h tall (omega (arith, e))) g)
        (make_path-Grown answers n true 1 q h l ss st (omega (arith, le)) (live_max-root n h e)
          (e, c, wf)))
