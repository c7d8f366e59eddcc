-- ===== src/Mm/PageSlice/Heights.antt =====
-- Heights of the trees of kernel/mm/page_slice.c, and the pages they have room for.
use rendezv_os.Base.{
  ℕ, zero, suc, ◌+◌, ◌-◌, ◌%◌, ◌^◌, ◌≤◌, ◌<◌, ◌≡◌, ◌≢◌, refl, sym, ◌∙◌, Bool, true, false,
  Bool-cases, ltb, leb, inl, inr, arith, none, if◌then◌else◌,
}
use rendezv_os.Mm.PageSlice.{
  Slot, empty, to_leaf, to_index, is_empty, entry_height, leaf_idx, leaf_capacity, index_idx,
  required_height,
}
use rendezv_os.Mm.PageSlice.Tree.{Wf, look, view}
use rendezv_os.Mm.PageSlice.Slots.{is_empty_lem, look-empty}

pub leb-true : (a b : ℕ) → leb a b ≡ true → a ≤ b
leb-true a b e = ground (arith, e)

pub leb-false : (a b : ℕ) → leb a b ≡ false → b < a
leb-false a b e = ground (arith, e)

-- The pages of `k` levels of index pages.
abbrev pub room : ℕ → ℕ
room zero = 2 ^ 7
room (suc zero) = 2 ^ 16
room (suc (suc zero)) = 2 ^ 25
room (suc (suc (suc k))) = 2 ^ 34

abbrev pub max_pages : ℕ
max_pages = 2 ^ 34

-- For a page below 2^34, the required height is more than `k + 1` if and only if `k` levels of index pages, 3 at
-- most, have no room for the page.
pub required_height_lem :
    (k q : ℕ) → k ≤ 3 → q < max_pages → ltb (k + 1) (required_height q) ≡ leb (room k) q
unfolding required_height index_idx
required_height_lem zero q le lt = ground arith
required_height_lem (suc zero) q le lt = ground arith
required_height_lem (suc (suc zero)) q le lt = ground arith
required_height_lem (suc (suc (suc zero))) q le lt = ground arith
required_height_lem (suc (suc (suc (suc k)))) q le lt = absurd (omega arith)

pub index_idx-low : (k q : ℕ) → k ≤ 2 → q < room k → index_idx q k ≡ 0
unfolding index_idx
index_idx-low zero q le lt = omega arith
index_idx-low (suc zero) q le lt = omega arith
index_idx-low (suc (suc zero)) q le lt = omega arith
index_idx-low (suc (suc (suc k))) q le lt = absurd (omega arith)

pub index_idx-high : (k q : ℕ) → k ≤ 2 → room k ≤ q → q < room (suc k) → index_idx q k ≢ 0
unfolding index_idx
index_idx-high zero q le ge lt = λ h. omega arith
index_idx-high (suc zero) q le ge lt = λ h. omega arith
index_idx-high (suc (suc zero)) q le ge lt = λ h. omega arith
index_idx-high (suc (suc (suc k))) q le ge lt = absurd (omega arith)

pub required_height-pos : (q : ℕ) → 1 ≤ required_height q
unfolding required_height
required_height-pos q = ground arith

pub required_height-le : (q : ℕ) → required_height q ≤ 4
unfolding required_height
required_height-le q = ground arith

pub height-Wf : (d k : ℕ) (s : Slot) → Wf d k s → is_empty s ≡ false → entry_height s ≡ k + d
height-Wf d k empty wf filled = absurd (ground (arith, filled))
height-Wf d zero (to_leaf h l es) (e, wf) filled = omega (arith, e)
height-Wf d zero (to_index h l ss) wf filled = absurd wf
height-Wf d (suc n) (to_leaf h l es) wf filled = absurd wf
height-Wf d (suc n) (to_index h l ss) (e, c, wf) filled = e

pub view-empty : (q : ℕ) → view q empty ≡ none
view-empty q = elim (Bool-cases (ltb 0 (required_height q))) [
  | inl low ↦ rw low refl
  | inr high ↦ rw high refl
]

-- What a tree with `k` levels has for a page.
pub view-look :
    (k q : ℕ) (s : Slot)
    → k ≤ 3
    → q < max_pages
    → Wf 1 k s
    → view q s ≡ (if leb (room k) q then none else look k q s)
view-look k q s le lt wf = elim (Bool-cases (is_empty s)) [
  | inl e ↦ nothing s (is_empty_lem s e)
  | inr filled ↦
      let h : entry_height s ≡ k + 1 = height-Wf 1 k s wf filled in
      let level : k + 1 - 1 ≡ k = omega arith in rw (h, level, required_height_lem k q le lt) refl
]
  where
    no_entry_left : (t : Bool) → (if t then none else look k q empty) ≡ none
    no_entry_left true = refl
    no_entry_left false = look-empty k q

    nothing : (s' : Slot) → s' ≡ empty → view q s' ≡ (if leb (room k) q then none else look k q s')
    nothing s' e = rw e (view-empty q ∙ sym (no_entry_left (leb (room k) q)))

-- Pages that differ, and have the same entry in an index page, differ below it.
pub apart-below :
    (n q q' : ℕ)
    → n ≤ 2
    → q % room (suc n) ≢ q' % room (suc n)
    → index_idx q' n ≡ index_idx q n
    → q % room n ≢ q' % room n
unfolding index_idx
apart-below zero q q' le ne e = λ h. omega (arith, ne, e, h)
apart-below (suc zero) q q' le ne e = λ h. omega (arith, ne, e, h)
apart-below (suc (suc zero)) q q' le ne e = λ h. omega (arith, ne, e, h)
apart-below (suc (suc (suc n))) q q' le ne e = absurd (omega arith)

pub mod-room : (k q : ℕ) → k ≤ 3 → q < room k → q % room k ≡ q
mod-room zero q le lt = omega arith
mod-room (suc zero) q le lt = omega arith
mod-room (suc (suc zero)) q le lt = omega arith
mod-room (suc (suc (suc zero))) q le lt = omega arith
mod-room (suc (suc (suc (suc k)))) q le lt = absurd (omega arith)

-- A height that the page does not exceed has room for it.
pub fits-room :
    (k q : ℕ) (s : Slot)
    → k ≤ 3
    → q < max_pages
    → Wf 1 k s
    → is_empty s ≡ false
    → required_height q ≤ entry_height s
    → q < room k
fits-room k q s le lt wf filled tall =
    let low : ltb (k + 1) (required_height q) ≡ false =
      ground (arith, tall, height-Wf 1 k s wf filled) in
    let low' : leb (room k) q ≡ false = sym (required_height_lem k q le lt) ∙ low in
    ground (arith, low')

pub leaf_idx-lt : (q : ℕ) → leaf_idx q < leaf_capacity
unfolding leaf_idx
leaf_idx-lt q = omega arith
