-- ===== src/Mm/PageSlice/Slots.antt =====
-- Slots of kernel/mm/page_slice.c: what a change of an entry or of a tag does to them.
use rendezv_os.Base.{
  ℕ, zero, suc, ◌+◌, ◌<◌, ◌≡◌, refl, ap, sym, ◌∙◌, subst, Bool, true, false, Bool-cases, ltb, not,
  inl, inr, arith, none,
}
use rendezv_os.Mm.PageSlice.{
  Slot, empty, to_leaf, to_index, at, zero_leaf, zero_index, is_empty, entry_height, entry_live,
  entry_new, live_inc, live_max, index_idx, index_capacity,
}
use rendezv_os.Mm.PageSlice.Path.{counted}
use rendezv_os.Mm.PageSlice.Count.{count, at-same, at-other, count-gains, count-keeps, count-room}
use rendezv_os.Mm.PageSlice.Tree.{WfLeaf, Wf, look}
use native.Mathlib.Decide.{ℕ_discrete}

pub at-all :
    {A : Type 0} (P : A → Type 0) (i : ℕ) (a : A) (f : ℕ → A)
    → P a
    → ((j : ℕ) → P (f j))
    → (j : ℕ) → P (at i a f j)
at-all P i a f new old j = elim (ℕ_discrete j i) [
  | yes e ↦ subst (λ z. P (at i a f z)) (sym e) (subst P (sym (at-same i a f)) new)
  | no ne ↦ subst P (sym (at-other i j a f ne)) (old j)
]

-- An update that a function does not see.
pub at-unseen :
    {A B : Type 0} (g : A → B) (i : ℕ) (a : A) (f : ℕ → A) (j : ℕ)
    → g a ≡ g (f i)
    → g (at i a f j) ≡ g (f j)
at-unseen g i a f j same = elim (ℕ_discrete j i) [
  | yes e ↦ subst (λ z. g (at i a f z) ≡ g (f z)) (sym e) (ap g (at-same i a f) ∙ same)
  | no ne ↦ ap g (at-other i j a f ne)
]

pub look-empty : (k q : ℕ) → look k q empty ≡ none
look-empty zero q = refl
look-empty (suc k) q = refl

pub is_empty_lem : (s : Slot) → is_empty s ≡ true → s ≡ empty
is_empty_lem empty e = refl
is_empty_lem (to_leaf h l es) e = absurd (ground (arith, e))
is_empty_lem (to_index h l ss) e = absurd (ground (arith, e))

pub index_idx-lt : (q n : ℕ) → index_idx q n < index_capacity
unfolding index_idx
index_idx-lt q n = omega arith

pub live_inc-index :
    (r : Bool) (h l : ℕ) (ss : ℕ → Slot)
    → l < live_max r h
    → live_inc r (to_index h l ss) ≡ to_index h (l + 1) ss
unfolding live_inc
live_inc-index r h l ss lt =
    let room : ltb l (live_max r h) ≡ true = ground (arith, lt) in rw room refl

-- A way of `k` levels to a leaf page.
abbrev pub Reaches : ℕ → ℕ → Slot → Type 0
Reaches k q empty = ⊥
Reaches zero q (to_leaf h l es) = Unit
Reaches zero q (to_index h l ss) = ⊥
Reaches (suc n) q (to_leaf h l es) = ⊥
Reaches (suc n) q (to_index h l ss) = Reaches n q (ss (index_idx q n))

pub zero_leaf-WfLeaf : WfLeaf 0 zero_leaf
zero_leaf-WfLeaf = record { live = refl; clean = λ i off. refl }

pub no_pages : 0 ≡ count (λ i. not (is_empty (zero_index i))) index_capacity
no_pages = refl

-- One more entry in an index page.
pub one_more :
    (d n h l i : ℕ) (r : Bool) (ss : ℕ → Slot) (c : Slot)
    → live_max r h ≡ index_capacity
    → i < index_capacity
    → Wf d (suc n) (to_index h l ss)
    → Wf 2 n c
    → is_empty (ss i) ≡ true
    → is_empty c ≡ false
    → Wf d (suc n) (live_inc r (to_index h l (at i c ss)))
one_more d n h l i r ss c max lt (e, live, wf) new was is =
    let off : not (is_empty (ss i)) ≡ false = rw was refl in
    let on : not (is_empty c) ≡ true = rw is refl in
    let room : l < live_max r h =
      subst (λ z. z < live_max r h) (sym live)
        (subst (λ z. count (λ j. not (is_empty (ss j))) index_capacity < z) (sym max)
          (count-room (λ j. not (is_empty (ss j))) index_capacity i lt off)) in
    rw (live_inc-index r h l (at i c ss) room) (
      e,
      ap (λ z. z + 1) live
          ∙ sym (count-gains (λ s. not (is_empty s)) ss index_capacity i c lt off on),
      at-all (Wf 2 n) i c ss new wf,
    )

-- A new tag on a pointer.
pub entry_new_self : (s : Slot) → entry_new (entry_height s) (entry_live s) s ≡ s
entry_new_self empty = refl
entry_new_self (to_leaf h l es) = refl
entry_new_self (to_index h l ss) = refl

pub look-entry_new : (h l k q : ℕ) (s : Slot) → look k q (entry_new h l s) ≡ look k q s
look-entry_new h l k q empty = refl
look-entry_new h l zero q (to_leaf h' l' es) = refl
look-entry_new h l (suc k) q (to_leaf h' l' es) = refl
look-entry_new h l zero q (to_index h' l' ss) = refl
look-entry_new h l (suc k) q (to_index h' l' ss) = refl

pub height-entry_new :
    (l : ℕ) (s : Slot) → entry_height (entry_new (entry_height s) l s) ≡ entry_height s
height-entry_new l empty = refl
height-entry_new l (to_leaf h l' es) = refl
height-entry_new l (to_index h l' ss) = refl

pub is_empty-entry_new : (h l : ℕ) (s : Slot) → is_empty (entry_new h l s) ≡ is_empty s
is_empty-entry_new h l empty = refl
is_empty-entry_new h l (to_leaf h' l' es) = refl
is_empty-entry_new h l (to_index h' l' ss) = refl

pub Reaches-entry_new : (h l k q : ℕ) (s : Slot) → Reaches k q s → Reaches k q (entry_new h l s)
Reaches-entry_new h l k q empty reach = reach
Reaches-entry_new h l zero q (to_leaf h' l' es) reach = reach
Reaches-entry_new h l (suc k) q (to_leaf h' l' es) reach = reach
Reaches-entry_new h l zero q (to_index h' l' ss) reach = reach
Reaches-entry_new h l (suc k) q (to_index h' l' ss) reach = reach

pub live_inc-tag : (r : Bool) (s : Slot) → (l : ℕ) × (live_inc r s ≡ entry_new (entry_height s) l s)
unfolding live_inc
live_inc-tag r s = elim (Bool-cases (ltb (entry_live s) (live_max r (entry_height s)))) [
  | inl room ↦ (entry_live s + 1, rw room refl)
  | inr full ↦ (entry_live s, rw full (sym (entry_new_self s)))
]

-- A new way below an index page, on the slot of that page; `is_new` if the page got an entry for it.
abbrev pub Parent : ℕ → ℕ → ℕ → Slot → Slot → Type 0
Parent d k q s s' =
    Wf d k s'
    × ((q' : ℕ) → look k q' s' ≡ look k q' s)
    × (entry_height s' ≡ entry_height s)
    × (is_empty s' ≡ false)

pub index_with :
    (d n q h l i : ℕ) (is_new r : Bool) (ss : ℕ → Slot) (c : Slot)
    → live_max r h ≡ index_capacity
    → i < index_capacity
    → Wf d (suc n) (to_index h l ss)
    → Wf 2 n c
    → is_empty (ss i) ≡ is_new
    → is_empty c ≡ false
    → ((q' : ℕ) → look n q' c ≡ look n q' (ss i))
    → Parent d (suc n) q (to_index h l ss) (counted is_new r (to_index h l (at i c ss)))
index_with d n q h l i true r ss c max lt wf new was is same =
    let (t, tag) = live_inc-tag r (to_index h l (at i c ss)) in
    (
      one_more d n h l i r ss c max lt wf new was is,
      λ q'. ap (look (suc n) q') tag ∙ at-unseen (look n q') i c ss (index_idx q' n) (same q'),
      ap entry_height tag,
      ap is_empty tag,
    )
index_with d n q h l i false r ss c max lt (e, live, wf) new was is same = (
  (
    e,
    live ∙ sym (count-keeps (λ s. not (is_empty s)) ss index_capacity i c (ap not (is ∙ sym was))),
    at-all (Wf 2 n) i c ss new wf,
  ),
  λ q'. at-unseen (look n q') i c ss (index_idx q' n) (same q'),
  refl,
  refl,
)

pub Reaches-counted :
    (b r : Bool) (k q : ℕ) (s : Slot) → Reaches k q s → Reaches k q (counted b r s)
Reaches-counted true r k q s reach =
    let (t, tag) = live_inc-tag r s in
    subst (Reaches k q) (sym tag) (Reaches-entry_new (entry_height s) t k q s reach)
Reaches-counted false r k q s reach = reach
