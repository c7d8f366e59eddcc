-- ===== src/Mm/PageSlice/Grow.antt =====
-- kernel/mm/page_slice.c: the way to a leaf entry is made without a change of the map.
use rendezv_os.Base.{
  ℕ, zero, suc, ◌+◌, ◌≤◌, ◌≡◌, ◌⊎◌, refl, ap, sym, ◌∙◌, subst, Bool, true, false, Bool-cases, inl,
  inr, arith, Option, none, some, List,
}
use rendezv_os.Base.{ok, ◌>>=◌, e_rendezvos, e_rend_no_mem}
use rendezv_os.Base.Returns.{Gives, Gives-bind}
use rendezv_os.Kalloc.{Kalloc, Answers, m_alloc}
use rendezv_os.Mm.PageSlice.{
  Entry, Slot, empty, to_leaf, to_index, at, zero_leaf, zero_index, is_empty, entry_height,
  live_inc, live_max, as_index_page, as_leaf_page, index_idx, index_capacity, Store, answered,
  alloc_page,
}
use rendezv_os.Mm.PageSlice.Path.{
  Made, allocated, Child, child, no_child, child_slot, counted, with_slot, make_leaf, make_path,
}
use rendezv_os.Mm.PageSlice.Count.{at-same}
use rendezv_os.Mm.PageSlice.Tree.{Wf, look, as_index_page-index}
use rendezv_os.Mm.PageSlice.Slots.{
  look-empty, is_empty_lem, index_idx-lt, Reaches, zero_leaf-WfLeaf, no_pages, index_with,
  Reaches-counted,
}

-- The slot may have more pages, but it stands for the same map.
pub record Grown (d k q : ℕ) (s : Slot) (st : Store) (m : Made) : Type 0 where
  pub wf : Wf d k (m.slot)
  pub same_look : (q' : ℕ) → look k q' (m.slot) ≡ look k q' s
  pub same_height : entry_height (m.slot) ≡ entry_height s
  pub filled : is_empty (m.slot) ≡ false
  pub reached : m.failure ≡ none → Reaches k q (m.slot)
  pub codes : (m.failure ≡ none) ⊎ (m.failure ≡ some e_rend_no_mem)
  pub same_released : m.store.released ≡ st.released

abbrev pub GrantedPage : Bool × Store → Store → Type 0
GrantedPage (t, st') st = st'.released ≡ st.released

pub alloc_page-released : (answers : Answers) (st : Store) → GrantedPage (alloc_page answers st) st
alloc_page-released answers st = go (m_alloc answers 4096 (st.kalloc))
  where
    go : (r : Option (List ℕ) × Kalloc) → GrantedPage (answered r st) st
    go (none, k) = refl
    go (some mem, k) = refl

unchanged :
    (d k q : ℕ) (s : Slot) (st st' : Store)
    → Wf d k s
    → is_empty s ≡ false
    → st'.released ≡ st.released
    → Grown d k q s st (record { failure = some e_rend_no_mem; slot = s; store = st' })
unchanged d k q s st st' wf filled same = record {
  wf = wf;
  same_look = λ q'. refl;
  same_height = refl;
  filled = filled;
  reached = λ e. absurd (ground (arith, e));
  codes = inr refl;
  same_released = same;
}

pub leaf_there :
    (q : ℕ) (s : Slot)
    → Wf 2 0 s
    → is_empty s ≡ false
    → (es : ℕ → Entry) × (as_leaf_page s ≡ ok (some es)) × Reaches 0 q s
unfolding as_leaf_page
leaf_there q empty wf filled = absurd (ground (arith, filled))
leaf_there q (to_leaf h l es) (e, wf) filled = (es, rw e refl, tt)
leaf_there q (to_index h l ss) wf filled = absurd wf

make_leaf-Grown :
    (answers : Answers) (r : Bool) (d q h l : ℕ) (ss : ℕ → Slot) (st : Store)
    → live_max r h ≡ index_capacity
    → Wf d 1 (to_index h l ss)
    → Gives (Grown d 1 q (to_index h l ss) st) (make_leaf answers r q (to_index h l ss) st)
unfolding make_leaf
make_leaf-Grown answers r d q h l ss st max wf = elim (Bool-cases (is_empty (ss i))) [
  | inl new ↦ rw new (with_page (alloc_page answers st) new (alloc_page-released answers st))
  | inr old ↦ rw old (with_leaf (leaf_there q (ss i) (wf.2 i) old))
]
  where
    i : ℕ
    i = index_idx q 0

    with_page :
        (r' : Bool × Store)
        → is_empty (ss i) ≡ true
        → GrantedPage r' st
        → Gives (Grown d 1 q (to_index h l ss) st) (
            allocated r'
              (λ st'. ok (record {
                failure = none;
                slot = live_inc r (to_index h l (at i (to_leaf 2 0 zero_leaf) ss));
                store = st';
              }))
              (λ st'.
                ok (record { failure = some e_rend_no_mem; slot = to_index h l ss; store = st' })))
    with_page (false, st') new same = unchanged d 1 q (to_index h l ss) st st' wf refl same
    with_page (true, st') new same =
        let (wf', look', height', filled') =
          index_with d 0 q h l i true r ss (to_leaf 2 0 zero_leaf) max (index_idx-lt q 0) wf
            (refl, zero_leaf-WfLeaf) new refl
            (λ q'. sym (ap (look 0 q') (is_empty_lem (ss i) new))) in
        record {
          wf = wf';
          same_look = look';
          same_height = height';
          filled = filled';
          codes = inl refl;
          reached = λ e.
              Reaches-counted true r 1 q (to_index h l (at i (to_leaf 2 0 zero_leaf) ss))
                (subst (Reaches 0 q) (sym (at-same i (to_leaf 2 0 zero_leaf) ss)) tt);
          same_released = same;
        }

    with_leaf :
        (es : ℕ → Entry) × (as_leaf_page (ss i) ≡ ok (some es)) × Reaches 0 q (ss i)
        → Gives (Grown d 1 q (to_index h l ss) st) (
            as_leaf_page (ss i) >>= λ leaf. elim leaf [
              | none ↦
                  ok (record { failure = some e_rendezvos; slot = to_index h l ss; store = st })
              | some es ↦ ok (record { failure = none; slot = to_index h l ss; store = st })
            ])
    with_leaf (es, found, reach) = rw found (record {
      wf = wf;
      same_look = λ q'. refl;
      same_height = refl;
      filled = refl;
      reached = λ e. reach;
      codes = inl refl;
      same_released = refl;
    })

pub index_there :
    (n : ℕ) (s : Slot)
    → n ≤ 1
    → Wf 2 (suc n) s
    → is_empty s ≡ false
    → (h : ℕ) × (l : ℕ) × (ss : ℕ → Slot) × (s ≡ to_index h l ss)
      × (h ≡ suc n + 2)
      × (as_index_page s ≡ ok (some ss))
index_there n empty le wf filled = absurd (ground (arith, filled))
index_there n (to_leaf h l es) le wf filled = absurd wf
index_there n (to_index h l ss) le (e, c, wf) filled =
    (h, l, ss, refl, e, as_index_page-index n h l ss le e)

-- The outcome below an entry gives that of the page.
above :
    (d n q h l : ℕ) (is_new r : Bool) (ss : ℕ → Slot) (c : Slot) (st st' : Store) (m : Made)
    → live_max r h ≡ index_capacity
    → Wf d (suc n) (to_index h l ss)
    → is_empty (ss (index_idx q n)) ≡ is_new
    → ((q' : ℕ) → look n q' c ≡ look n q' (ss (index_idx q n)))
    → st'.released ≡ st.released
    → Grown 2 n q c st' m
    → Grown d
        (suc n)
        q
        (to_index h l ss)
        st
        (with_slot (λ c'. counted is_new r (to_index h l (at (index_idx q n) c' ss))) m)
above d n q h l is_new r ss c st st' m max wf new same released g =
    let (wf', look', height', filled') =
      index_with d n q h l (index_idx q n) is_new r ss (m.slot) max (index_idx-lt q n) wf (g.wf) new
        (g.filled) (λ q'. g.same_look q' ∙ same q') in
    record {
      wf = wf';
      same_look = look';
      same_height = height';
      filled = filled';
      codes = g.codes;
      reached = λ e.
          Reaches-counted is_new r (suc n) q (to_index h l (at (index_idx q n) (m.slot) ss))
            (subst (Reaches n q) (sym (at-same (index_idx q n) (m.slot) ss)) (g.reached e));
      same_released = g.same_released ∙ released;
    }

-- The child that the loop goes on with.
abbrev Fit : ℕ → Slot → Store → Child → Type 0
Fit n s st (no_child st') = st'.released ≡ st.released
Fit n s st (child is_new c st') =
    (is_empty s ≡ is_new)
    × Wf 2 (suc n) c
    × (is_empty c ≡ false)
    × ((q' : ℕ) → look (suc n) q' c ≡ look (suc n) q' s)
    × (st'.released ≡ st.released)

child_slot-Fit :
    (answers : Answers) (n : ℕ) (s : Slot) (st : Store)
    → Wf 2 (suc n) s
    → Fit n s st (child_slot answers (suc n + 2) s st)
child_slot-Fit answers n s st wf = elim (Bool-cases (is_empty s)) [
  | inr old ↦ rw old (old, wf, old, (λ q'. refl), refl)
  | inl new ↦ rw new (page (alloc_page answers st) new (alloc_page-released answers st))
]
  where
    page :
        (r : Bool × Store)
        → is_empty s ≡ true
        → GrantedPage r st
        → Fit n s st (
            allocated r
              (λ st'. child true (to_index (suc n + 2) 0 zero_index) st')
              (λ st'. no_child st'))
    page (false, st') new same = same
    page (true, st') new same = (
      new,
      (refl, no_pages, λ i. tt),
      refl,
      λ q'. look-empty n q' ∙ sym (ap (look (suc n) q') (is_empty_lem s new)),
      same,
    )

live_max-index : (n h : ℕ) → h ≡ suc n + 2 → live_max false h ≡ index_capacity
live_max-index n h e = let tall : h ≡ suc (suc (suc n)) = omega (arith, e) in rw tall refl

pub make_path-Grown :
    (answers : Answers) (n : ℕ) (r : Bool) (d q h l : ℕ) (ss : ℕ → Slot) (st : Store)
    → n ≤ 2
    → live_max r h ≡ index_capacity
    → Wf d (suc n) (to_index h l ss)
    → Gives (Grown d (suc n) q (to_index h l ss) st) (make_path answers n r q (to_index h l ss) st)
unfolding make_path
make_path-Grown answers zero r d q h l ss st le max wf =
    make_leaf-Grown answers r d q h l ss st max wf
make_path-Grown answers (suc n) r d q h l ss st le max wf =
    go (child_slot answers (suc n + 2) (ss (index_idx q (suc n))) st)
      (child_slot-Fit answers n (ss (index_idx q (suc n))) st (wf.2 (index_idx q (suc n))))
      (λ h' l' ss' st' e wf'.
        make_path-Grown answers n false 2 q h' l' ss' st' (omega arith) (live_max-index n h' e) wf')
  where
    go :
        (r' : Child)
        → Fit n (ss (index_idx q (suc n))) st r'
        → ((h' l' : ℕ) (ss' : ℕ → Slot) (st' : Store)
            → h' ≡ suc n + 2
            → Wf 2 (suc n) (to_index h' l' ss')
            → Gives
                (Grown 2 (suc n) q (to_index h' l' ss') st')
                (make_path answers n false q (to_index h' l' ss') st'))
        → Gives (Grown d (suc (suc n)) q (to_index h l ss) st) (elim r' [
          | no_child st' ↦
              ok (record { failure = some e_rend_no_mem; slot = to_index h l ss; store = st' })
          | child is_new c st' ↦ as_index_page c >>= λ page. elim page [
            | none ↦ ok (record { failure = some e_rendezvos; slot = to_index h l ss; store = st' })
            | some ss' ↦ make_path answers n false q c st' >>= λ m. ok (
                with_slot
                  (λ c'. counted is_new r (to_index h l (at (index_idx q (suc n)) c' ss)))
                  m)
          ]
        ])
    go (no_child st') same rest = unchanged d (suc (suc n)) q (to_index h l ss) st st' wf refl same
    go (child is_new c st') (new, wf', filled, same_look, same) rest =
        let (h', l', ss', form, e, found) = index_there n c (omega arith) wf' filled in
        rw found (
          Gives-bind (Grown 2 (suc n) q c st') (Grown d (suc (suc n)) q (to_index h l ss) st)
            (make_path answers n false q c st') _
            (subst (λ z. Gives (Grown 2 (suc n) q z st') (make_path answers n false q z st'))
              (sym form) (rest h' l' ss' st' e (subst (Wf 2 (suc n)) form wf')))
            (λ m g. above d (suc n) q h l is_new r ss c st st' m max wf new same_look same g))
