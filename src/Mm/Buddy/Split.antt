-- ===== src/Mm/Buddy/Split.antt =====
-- Phase 2 of `pmm_alloc_zone` of kernel/mm/buddy_pmm.c, the split of a block, keeps the state sound.
use mathlib.Core.Option.{some-injective}
use rendezv_os.Mm.Buddy.Lists.{
  InPages, Sound, less_pages-Keeps, more_pages-Keeps, push_head-Keeps, with_bucket-then,
  set_order-then, unlink-InLists,
}
use native.Mathlib.Nat.{one-le-pow, pow-le-pow_right}
use rendezv_os.Base.{
  ℕ, zero, suc, ◌+◌, ◌^◌, ◌≤◌, ◌≡◌, refl, ap, ◌∙◌, subst, none, some, List, arith,
}
use rendezv_os.Base.Returns.{Gives, Gives-bind}
use rendezv_os.Mm.Buddy.{BuddyPage, Buddy, max_order, unlink}
use rendezv_os.Mm.Buddy.Alloc.{split, mark_pages, take_block}

mark_pages-InPages :
    (n m node : ℕ) (pages : List BuddyPage)
    → InPages n pages
    → node + m ≤ n
    → Gives (InPages n) (mark_pages m node pages)
unfolding mark_pages
mark_pages-InPages n zero node pages is le = is
mark_pages-InPages n (suc m) node pages is le =
    set_order-then (InPages n) n node none pages (mark_pages m (node + 1)) is (omega arith)
      (λ k e. absurd (ground (arith, e)))
      (λ ps is'. mark_pages-InPages n m (node + 1) ps is' (omega arith))

double : (base k : ℕ) → 2 ^ (base + suc k) ≡ 2 ^ (base + k) + 2 ^ (base + k)
double base k = ap (λ z. 2 ^ z) (more base k) ∙ twice (base + k)
  where
    more : (a c : ℕ) → a + suc c ≡ suc (a + c)
    more a c = omega arith

    twice : (m : ℕ) → 2 ^ suc m ≡ 2 ^ m + 2 ^ m
    twice m = omega arith

at_order : (n i k o : ℕ) → i + 2 ^ k ≤ n → some k ≡ some o → i + 2 ^ o ≤ n
at_order n i k o fits e = subst (λ z. i + 2 ^ z ≤ n) (some-injective k o e) fits

split-Sound :
    (n k base node : ℕ) (b : Buddy)
    → Sound n b
    → base + k ≤ max_order
    → node + 2 ^ (base + k) ≤ n
    → Gives (λ s. Sound n s × (s.refs ≡ b.refs)) (split k base node b)
unfolding split
split-Sound n zero base node b is le fits = (is, refl)
split-Sound n (suc k) base node b is le fits =
    let half = double base k in
    let some_pages : 1 ≤ 2 ^ (base + k) = one-le-pow (base + k) 2 (omega arith) in
    let left : node + 2 ^ (base + k) ≤ n = omega (arith, half) in
    let right : node + 2 ^ (base + k) + 2 ^ (base + k) ≤ n = omega (arith, half) in
    let Q = λ (s : Buddy). Sound n s × (s.refs ≡ b.refs) in
    set_order-then Q n node _ (b.pages) _ (is.in_pages) (omega arith)
      (λ o e. at_order n node (base + k) o left e)
      (λ ps1 p1.
        set_order-then Q n (node + 2 ^ (base + k)) _ ps1 _ p1 (omega arith)
          (λ o e. at_order n (node + 2 ^ (base + k)) (base + k) o right e)
          (λ ps2 p2.
            with_bucket-then Q n (base + suc k) _ (b.buckets) _ (is.in_lists) (omega arith)
              (less_pages-Keeps n (base + suc k) 1)
              (λ bs1 l1.
                with_bucket-then Q n (base + k) _ bs1 _ l1 (omega arith)
                  (more_pages-Keeps n (base + k) 2)
                  (λ bs2 l2.
                    with_bucket-then Q n (base + k) _ (unlink node bs2) _
                      (unlink-InLists n node bs2 l2) (omega arith)
                      (push_head-Keeps n (base + k) node left)
                      (λ bs3 l3.
                        with_bucket-then Q n (base + k) _ bs3 _ l3 (omega arith)
                          (push_head-Keeps n (base + k) (node + 2 ^ (base + k)) right)
                          (λ bs4 l4.
                            split-Sound n k base node (record b { pages = ps2; buckets = bs4 })
                              (record { in_pages = p2; in_lists = l4; numbered = is.numbered })
                              (omega arith) left))))))

pub take_block-Sound :
    (n k base node : ℕ) (b : Buddy)
    → Sound n b
    → base + k ≤ max_order
    → node + 2 ^ (base + k) ≤ n
    → Gives (λ s. Sound n s × (s.refs ≡ b.refs)) (take_block k base node b)
unfolding take_block
take_block-Sound n k base node b is le fits =
    let part : 2 ^ base ≤ 2 ^ (base + k) = pow-le-pow_right (omega arith) (omega arith) in
    let Q = λ (s : Buddy). Sound n s × (s.refs ≡ b.refs) in
    Gives-bind Q Q (split k base node b) _ (split-Sound n k base node b is le fits) (λ s t.
      let (is', same) = t in
      Gives-bind (InPages n) Q (mark_pages (2 ^ base) node (s.pages)) _
        (mark_pages-InPages n (2 ^ base) node (s.pages) (is'.in_pages) (omega (arith, part)))
        (λ ps p.
          with_bucket-then Q n base _ (unlink node (s.buckets)) _
            (unlink-InLists n node (s.buckets) (is'.in_lists)) (omega arith)
            (less_pages-Keeps n base 1)
            (λ bs l. (record { in_pages = p; in_lists = l; numbered = is'.numbered }, same))))
