-- ===== src/Mm/PageSlice/Raise.antt =====
-- kernel/mm/page_slice.c: a tree is raised, and the way to an entry is made from its root, without a
-- change of the map.
use rendezv_os.Base.{
  ℕ, zero, suc, ◌+◌, ◌≤◌, ◌<◌, ◌≡◌, ◌≢◌, ◌⊎◌, refl, ap, sym, ◌∙◌, subst, true, false, Bool-cases,
  leb, not, none, inl, inr, arith, ◌==◌, if◌then◌else◌,
}
use rendezv_os.Mm.PageSlice.{
  Slot, empty, to_leaf, to_index, at, zero_index, is_empty, entry_height, entry_live, entry_new,
  index_idx, index_capacity,
}
use rendezv_os.Mm.PageSlice.Path.{raised_once}
use rendezv_os.Mm.PageSlice.Count.{count, count-keeps, count-gains, at-same, at-other}
use rendezv_os.Mm.PageSlice.Slots.{at-all, look-empty, look-entry_new, is_empty-entry_new}
use rendezv_os.Mm.PageSlice.Tree.{WfLeaf, Wf, WfRoot, look, view}
use rendezv_os.Mm.PageSlice.Heights.{
  leb-true, leb-false, room, max_pages, index_idx-low, index_idx-high, height-Wf, view-look,
}

-- The root of a tree as the child of the new one.
Wf-retag : (k l : ℕ) (s : Slot) → l ≡ entry_live s → Wf 1 k s → Wf 2 k (entry_new (k + 2) l s)
Wf-retag k l empty e wf = tt
Wf-retag zero l (to_leaf h l' es) e (e', wf) = (omega arith, subst (λ z. WfLeaf z es) (sym e) wf)
Wf-retag zero l (to_index h l' ss) e wf = absurd wf
Wf-retag (suc n) l (to_leaf h l' es) e wf = absurd wf
Wf-retag (suc n) l (to_index h l' ss) e (e', c, wf) = (refl, e ∙ c, wf)

-- The new root over a child.
abbrev over : ℕ → ℕ → Slot → Slot
over h l c = to_index h l (at 0 c zero_index)

unused : (n : ℕ) → count (λ i. not (is_empty (zero_index i))) n ≡ 0
unused zero = refl
unused (suc n) = omega (arith, unused n)

count-over :
    (n : ℕ) (c : Slot)
    → 0 < n
    → (if is_empty c then 0 else 1) ≡ count (λ i. not (is_empty (at 0 c zero_index i))) n
count-over n c lt = elim (Bool-cases (is_empty c)) [
  | inl none_there ↦
      ap (λ t. if t then 0 else 1) none_there
      ∙ sym (count-keeps (λ s. not (is_empty s)) zero_index n 0 c (ap not none_there) ∙ unused n)
  | inr filled ↦
      ap (λ t. if t then 0 else 1) filled
      ∙ sym (
          count-gains (λ s. not (is_empty s)) zero_index n 0 c lt refl (ap not filled)
          ∙ ap (λ z. z + 1) (unused n))
]

over-Wf :
    (k h : ℕ) (c : Slot)
    → h ≡ suc k + 1
    → Wf 2 k c
    → Wf 1 (suc k) (over h (if is_empty c then 0 else 1) c)
over-Wf k h c e wf =
    (e, count-over index_capacity c (omega arith), at-all (Wf 2 k) 0 c zero_index wf (λ j. tt))

look-over : (k h l q : ℕ) (c : Slot) → index_idx q k ≡ 0 → look (suc k) q (over h l c) ≡ look k q c
look-over k h l q c e = ap (look k q) (ap (at 0 c zero_index) e ∙ at-same 0 c zero_index)

look-beside : (k h l q : ℕ) (c : Slot) → index_idx q k ≢ 0 → look (suc k) q (over h l c) ≡ none
look-beside k h l q c ne =
    ap (look k q) (at-other 0 (index_idx q k) c zero_index ne) ∙ look-empty k q

room-le : (k q : ℕ) → k ≤ 2 → q < room k → room (suc k) ≤ q → ⊥
room-le zero q le lt ge = omega arith
room-le (suc zero) q le lt ge = omega arith
room-le (suc (suc zero)) q le lt ge = omega arith
room-le (suc (suc (suc k))) q le lt ge = omega arith

-- A root over a tree stands for the same map if it has that tree at 0 and nothing else.
pub view-step :
    (k q : ℕ) (p s : Slot)
    → k ≤ 2
    → q < max_pages
    → Wf 1 k s
    → Wf 1 (suc k) p
    → (index_idx q k ≡ 0 → look (suc k) q p ≡ look k q s)
    → (index_idx q k ≢ 0 → look (suc k) q p ≡ none)
    → view q p ≡ view q s
view-step k q p s le lt wf wf' first rest =
    view-look (suc k) q p (omega (arith, le)) lt wf'
    ∙ place (Bool-cases (leb (room k) q)) (Bool-cases (leb (room (suc k)) q))
    ∙ sym (view-look k q s (omega (arith, le)) lt wf)
  where
    place :
        (leb (room k) q ≡ true) ⊎ (leb (room k) q ≡ false)
        → (leb (room (suc k)) q ≡ true) ⊎ (leb (room (suc k)) q ≡ false)
        → (if leb (room (suc k)) q then none else look (suc k) q p)
          ≡ (if leb (room k) q then none else look k q s)
    place (inl high) (inl higher) = rw (high, higher) refl
    place (inl high) (inr low) =
        rw (high, low)
          (rest (index_idx-high k q le (leb-true (room k) q high) (leb-false (room (suc k)) q low)))
    place (inr low) (inl higher) =
        absurd (room-le k q le (leb-false (room k) q low) (leb-true (room (suc k)) q higher))
    place (inr low) (inr lower) =
        rw (low, lower) (first (index_idx-low k q le (leb-false (room k) q low)))

-- The new root stands for the same map.
view-over :
    (k h l q : ℕ) (c s : Slot)
    → k ≤ 2
    → q < max_pages
    → Wf 1 k s
    → Wf 1 (suc k) (over h l c)
    → look k q c ≡ look k q s
    → view q (over h l c) ≡ view q s
view-over k h l q c s le lt wf wf' same =
    view-step k q (over h l c) s le lt wf wf' (λ e. look-over k h l q c e ∙ same)
      (look-beside k h l q c)

-- A round of the loop keeps the map, and the tree is higher.
pub record Raised (root : Slot) (root' : Slot) : Type 0 where
  pub wf : WfRoot root'
  pub same_view : (q : ℕ) → q < max_pages → view q root' ≡ view q root
  pub taller : entry_height root < entry_height root'

raised :
    (k : ℕ) (s : Slot)
    → k ≤ 2
    → Wf 1 k s
    → is_empty s ≡ false
    → Raised s (over (k + 2) 1 (entry_new (k + 2) (entry_live s) s))
raised k s le wf filled =
    let top = entry_new (k + 2) (entry_live s) s in
    let top_filled : is_empty top ≡ false = is_empty-entry_new (k + 2) (entry_live s) s ∙ filled in
    let wf' : Wf 1 (suc k) (over (k + 2) 1 top) =
      subst (λ t. Wf 1 (suc k) (over (k + 2) (if t then 0 else 1) top)) top_filled
        (over-Wf k (k + 2) top (omega arith) (Wf-retag k (entry_live s) s refl wf)) in
    record {
      wf = (suc k, omega (arith, le), wf');
      same_view = λ q lt.
          view-over k (k + 2) 1 q top s le lt wf wf' (look-entry_new (k + 2) (entry_live s) k q s);
      taller = omega (arith, height-Wf 1 k s wf filled);
    }

pub raised_once-Raised :
    (k : ℕ) (root : Slot) → k ≤ 2 → Wf 1 k root → Raised root (raised_once root)
raised_once-Raised k empty le wf = record {
  wf = (1, omega arith, over-Wf 0 2 empty refl tt);
  same_view =
      λ q lt. view-over 0 2 0 q empty empty (omega arith) lt tt (over-Wf 0 2 empty refl tt) refl;
  taller = omega arith;
}
raised_once-Raised zero (to_leaf h l es) le (e, wf) =
    subst (λ z. Raised (to_leaf z l es) (raised_once (to_leaf z l es))) (sym e)
      (raised 0 (to_leaf 1 l es) le (refl, wf) refl)
raised_once-Raised zero (to_index h l ss) le wf = absurd wf
raised_once-Raised (suc n) (to_leaf h l es) le wf = absurd wf
raised_once-Raised (suc n) (to_index h l ss) le wf =
    let tall : (h == 0) ≡ false = ground (arith, wf.0) in
    let same : h + 1 ≡ suc n + 2 = omega (arith, wf.0) in
    rw (tall, same) (raised (suc n) (to_index h l ss) le wf refl)
