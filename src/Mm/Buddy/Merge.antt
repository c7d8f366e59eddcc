-- ===== src/Mm/Buddy/Merge.antt =====
-- `pmm_free_one_index` of kernel/mm/buddy_pmm.c: the merge of buddies stays inside the zone.
use Prim.Native.Nat.{bit_xor}
use native.Mathlib.Nat.{one-le-pow}
use mathlib.Core.Option.{some-injective}
use rendezv_os.Base.{
  ℕ, zero, suc, ◌+◌, ◌*◌, ◌^◌, ◌≤◌, ◌<◌, ◌≡◌, refl, ap, ◌∙◌, subst, Bool-cases, Option-cases, true,
  false, Bool, ◌||◌, ◌&&◌, leb, Option, none, some, inl, inr, get_elem?-some, arith, min,
}
use rendezv_os.Base.Returns.{Gives, Gives-bind, Gives-if}
use rendezv_os.Base.Xor.{Apart, bit_xor-Apart}
use rendezv_os.Mm.Buddy.{BuddyPage, Buddy, max_order, unlink, push_head, more_pages, less_pages}
use rendezv_os.Mm.Buddy.Lists.{
  Sound, less_pages-Keeps, more_pages-Keeps, push_head-Keeps, with_bucket-then, set_order-then,
  unlink-InLists,
}
use rendezv_os.Mm.Buddy.Free.{
  order_is, frames_apart, can_merge, insert_block, merge_up, Freed, freed, refused, free_page,
  pmm_free_one_index,
}

-- The lists stay sound, and no count changes.
abbrev pub Inserted : ℕ → Buddy → Buddy → Type 0
Inserted n b s = Sound n s × (s.refs ≡ b.refs)

abbrev pub Left : ℕ → Buddy → Freed → Type 0
Left n b (freed s) = Inserted n b s
Left n b (refused code s) = Inserted n b s

insert_block-Inserted :
    (n order index : ℕ) (b : Buddy)
    → Sound n b
    → order ≤ max_order
    → index + 2 ^ order ≤ n
    → Gives (Inserted n b) (insert_block order index b)
unfolding insert_block
insert_block-Inserted n order index b is le fits =
    let some_pages : 1 ≤ 2 ^ order = one-le-pow order 2 (omega arith) in
    set_order-then (Inserted n b) n index (some order) (b.pages) _ (is.in_pages) (omega arith)
      (λ o e. subst (λ z. index + 2 ^ z ≤ n) (some-injective order o e) fits)
      (λ ps p.
        with_bucket-then (Inserted n b) n order (more_pages 1) (b.buckets) _ (is.in_lists) le
          (more_pages-Keeps n order 1)
          (λ bs l.
            with_bucket-then (Inserted n b) n order (push_head index) bs _ l le
              (push_head-Keeps n order index fits)
              (λ bs' l'. (record { in_pages = p; in_lists = l'; numbered = is.numbered }, refl))))

order_is-some : (k : ℕ) (o : Option ℕ) → order_is k o ≡ true → o ≡ some k
order_is-some k none e = absurd (ground (arith, e))
order_is-some k (some o) e = ap some (ground (arith, e))

and_right : (a t : Bool) → (a && t) ≡ true → t ≡ true
and_right true t e = e
and_right false t e = absurd (ground (arith, e))

-- A buddy that merges lies inside the zone.
can_merge-Gives :
    (n order index buddy_index : ℕ) (b : Buddy)
    → Sound n b
    → index < n
    → Gives (λ t. t ≡ true → buddy_index + 2 ^ order ≤ n) (can_merge order index buddy_index b)
unfolding can_merge
can_merge-Gives n order index buddy_index b is lt =
    Gives-if (λ t. t ≡ true → buddy_index + 2 ^ order ≤ n) (leb (b.buddy_page_number) buddy_index) _
      _ (λ out e. absurd (ground (arith, e)))
      (λ inside.
        let (p, got) = get_elem?-some (b.pages) index (omega (arith, is.in_pages.all_pages)) in
        let (q, got') =
          get_elem?-some (b.pages) buddy_index
            (ground (arith, inside, is.in_pages.all_pages, is.numbered)) in
        rw (got, got')
          (λ e. is.in_pages.orders buddy_index order q got' (
            order_is-some order (q.order)
              (and_right (frames_apart order index buddy_index p q) (order_is order (q.order)) e))))

double : (k : ℕ) → 2 ^ (k + 1) ≡ 2 * 2 ^ k
double k = ap (λ z. 2 ^ z) (next k) ∙ twice k
  where
    next : (k : ℕ) → k + 1 ≡ suc k
    next k = omega arith

    twice : (k : ℕ) → 2 ^ suc k ≡ 2 * 2 ^ k
    twice k = omega arith

joined :
    (n d d' index x : ℕ)
    → d' ≡ 2 * d
    → Apart d index x
    → index + d ≤ n
    → x + d ≤ n
    → min index x + d' ≤ n
joined n d d' index x e (inl up) le le' = omega arith
joined n d d' index x e (inr down) le le' = omega arith

merge_up-Inserted :
    (n m order index : ℕ) (b : Buddy)
    → Sound n b
    → order + m ≤ max_order
    → index + 2 ^ order ≤ n
    → Gives (Inserted n b) (merge_up m order index b)
unfolding merge_up
merge_up-Inserted n zero order index b is le fits =
    insert_block-Inserted n order index b is (omega arith) fits
merge_up-Inserted n (suc m) order index b is le fits =
    let x = bit_xor index (2 ^ order) in
    let some_pages : 1 ≤ 2 ^ order = one-le-pow order 2 (omega arith) in
    Gives-bind (λ t. t ≡ true → x + 2 ^ order ≤ n) (Inserted n b) (can_merge order index x b) _
      (can_merge-Gives n order index x b is (omega arith))
      (λ t there. elim (Bool-cases t) [
        | inr e ↦ rw e (insert_block-Inserted n order index b is (omega arith) fits)
        | inl e ↦
            let far : min index x + 2 ^ (order + 1) ≤ n =
              joined n (2 ^ order) (2 ^ (order + 1)) index x (double order)
                (bit_xor-Apart index order) fits (there e) in
            rw e (
              with_bucket-then (Inserted n b) n order (less_pages 1)
                (unlink x (unlink index (b.buckets))) _
                (unlink-InLists n x (unlink index (b.buckets))
                  (unlink-InLists n index (b.buckets) (is.in_lists)))
                (omega arith) (less_pages-Keeps n order 1)
                (λ bs l.
                  merge_up-Inserted n m (order + 1) (min index x) (record b { buckets = bs })
                    (record { in_pages = is.in_pages; in_lists = l; numbered = is.numbered })
                    (omega arith) far))
      ])

free_page-Left :
    (n index : ℕ) (b : Buddy) (p : BuddyPage)
    → Sound n b
    → index < n
    → Gives (Left n b) (free_page index b p)
free_page-Left n index b p is lt = elim (Option-cases (p.order)) [
  | inr (o, on) ↦ rw on (is, refl)
  | inl off ↦ rw off (
      Gives-bind (Inserted n b) (Left n b) (merge_up max_order 0 index b) _
        (merge_up-Inserted n max_order 0 index b is (omega arith) (omega arith)) (λ s t. t))
]

pub pmm_free_one_index-Gives :
    (n index : ℕ) (b : Buddy) → Sound n b → Gives (Left n b) (pmm_free_one_index index b)
unfolding pmm_free_one_index
pmm_free_one_index-Gives n index b is =
    Gives-if (Left n b) (leb (2 ^ 63) index || leb (b.buddy_page_number) index) _ _
      (λ out. (is, refl))
      (λ inside.
        let lt : index < n = ground (arith, inside, is.numbered) in
        let (p, got) = get_elem?-some (b.pages) index (omega (arith, is.in_pages.all_pages)) in
        rw got (free_page-Left n index b p is lt))
