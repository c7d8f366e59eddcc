-- ===== src/Mm/PageSlice/Tree.antt =====
-- The trees of kernel/mm/page_slice.c that the code builds, and the map that a tree stands for.
use rendezv_os.Base.{
  ℕ, zero, suc, ◌+◌, ◌-◌, ◌≤◌, ◌≡◌, refl, true, false, Bool-cases, if◌then◌else◌, ◌==◌, ltb, leb,
  not, inl, inr, arith, Option, none, some, ◌&&◌, ◌||◌,
}
use rendezv_os.Base.{ok, ◌>>=◌}
use rendezv_os.Base.Returns.{Gives, Gives-bind}
use rendezv_os.Mm.PageSlice.{
  Entry, no_entry, is_bound, Slot, empty, to_leaf, to_index, is_empty, entry_height, as_index_page,
  as_leaf_page, leaf_idx, index_idx, leaf_capacity, index_capacity, root_get_index, root_get_leaf,
  required_height,
}
use rendezv_os.Mm.PageSlice.Path.{bound_only, find_leaf, in_leaf, find_entry}
use rendezv_os.Mm.PageSlice.Count.{count}

-- A leaf page: the live count, and the entries that are not bound are zero.
pub record WfLeaf (l : ℕ) (es : ℕ → Entry) : Type 0 where
  pub live : l ≡ count (λ i. is_bound (es i)) leaf_capacity
  pub clean : (i : ℕ) → is_bound (es i) ≡ false → es i ≡ no_entry

-- A slot over `k` levels of index pages; the heights start at `d`.
abbrev pub Wf : ℕ → ℕ → Slot → Type 0
Wf d k empty = Unit
Wf d zero (to_leaf h l es) = (h ≡ d) × WfLeaf l es
Wf d zero (to_index h l ss) = ⊥
Wf d (suc n) (to_leaf h l es) = ⊥
Wf d (suc n) (to_index h l ss) =
    (h ≡ suc n + d)
    × (l ≡ count (λ i. not (is_empty (ss i))) index_capacity)
    × ((i : ℕ) → Wf 2 n (ss i))

-- The entry that a slot over `k` levels has for a page.
abbrev pub look : ℕ → ℕ → Slot → Option Entry
look k q empty = none
look zero q (to_leaf h l es) = bound_only (some (es (leaf_idx q)))
look zero q (to_index h l ss) = none
look (suc n) q (to_leaf h l es) = none
look (suc n) q (to_index h l ss) = look n q (ss (index_idx q n))

abbrev pub WfRoot : Slot → Type 0
WfRoot root = (k : ℕ) × (k ≤ 3) × Wf 1 k root

abbrev pub view : ℕ → Slot → Option Entry
view q root =
    if ltb (entry_height root) (required_height q)
    then none
    else look (entry_height root - 1) q root

leaf-look :
    (q : ℕ) (s : Slot)
    → Wf 2 0 s
    → Gives (λ o. bound_only (in_leaf q o) ≡ look 0 q s) (as_leaf_page s)
unfolding as_leaf_page
leaf-look q empty wf = refl
leaf-look q (to_leaf h l es) (e, wf) = rw e refl
leaf-look q (to_index h l ss) wf = absurd wf

-- The height of an index page below another one.
pub as_index_page-index :
    (n h l : ℕ) (ss : ℕ → Slot)
    → n ≤ 1
    → h ≡ suc n + 2
    → as_index_page (to_index h l ss) ≡ ok (some ss)
unfolding as_index_page
as_index_page-index n h l ss le e =
    let tall : ((h == 3) || (h == 4)) ≡ true = ground (arith, e) in rw tall refl

pub as_index_page-empty : as_index_page empty ≡ ok none
unfolding as_index_page
as_index_page-empty = refl

pub find_leaf-look :
    (n q : ℕ) (ss : ℕ → Slot)
    → n ≤ 2
    → ((i : ℕ) → Wf 2 n (ss i))
    → Gives (λ o. bound_only (in_leaf q o) ≡ look n q (ss (index_idx q n))) (find_leaf n q ss)
unfolding find_leaf
find_leaf-look zero q ss le wf = leaf-look q (ss (index_idx q 0)) (wf (index_idx q 0))
find_leaf-look (suc n) q ss le wf =
    below (ss (index_idx q (suc n))) (wf (index_idx q (suc n)))
      (λ ss' wf'. find_leaf-look n q ss' (omega arith) wf')
  where
    below :
        (s : Slot)
        → Wf 2 (suc n) s
        → ((ss' : ℕ → Slot)
            → ((i : ℕ) → Wf 2 n (ss' i))
            → Gives
                (λ o. bound_only (in_leaf q o) ≡ look n q (ss' (index_idx q n)))
                (find_leaf n q ss'))
        → Gives
            (λ o. bound_only (in_leaf q o) ≡ look (suc n) q s)
            (as_index_page s >>= λ child. elim child [
              | none ↦ ok none
              | some ss' ↦ find_leaf n q ss'
            ])
    below empty wf rest = rw as_index_page-empty refl
    below (to_leaf h l es) wf rest = absurd wf
    below (to_index h l ss') (e, c, wf) rest =
        rw (as_index_page-index n h l ss' (omega arith) e) (rest ss' wf)

pub find_entry-look :
    (q : ℕ) (root : Slot)
    → WfRoot root
    → Gives (λ o. bound_only o ≡ view q root) (find_entry q root)
unfolding find_entry root_get_index root_get_leaf
find_entry-look q empty wf = elim (Bool-cases (ltb 0 (required_height q))) [
  | inl low ↦ rw low refl
  | inr high ↦ rw high refl
]
find_entry-look q (to_leaf h l es) (zero, le, (e, wf)) =
    elim (Bool-cases (ltb 1 (required_height q))) [
      | inl low ↦ rw (e, low) refl
      | inr high ↦ rw (e, high) refl
    ]
find_entry-look q (to_leaf h l es) (suc n, le, wf) = absurd wf
find_entry-look q (to_index h l ss) (zero, le, wf) = absurd wf
find_entry-look q (to_index h l ss) (suc n, le, (e, c, wf)) =
    let two : leb 2 h ≡ true = ground (arith, e) in
    let four : (leb 2 h && leb h 4) ≡ true = ground (arith, e, le) in
    let below : h - 2 ≡ n = omega (arith, e) in
    let level : h - 1 ≡ suc n = omega (arith, e) in
    elim (Bool-cases (ltb h (required_height q))) [
      | inl low ↦ rw low refl
      | inr high ↦
          rw (high, level, four, two, below)
            (Gives-bind (λ o. bound_only (in_leaf q o) ≡ look n q (ss (index_idx q n))) _
              (find_leaf n q ss) _ (find_leaf-look n q ss (omega (arith, le)) wf) (λ o same. same))
    ]
