-- ===== src/Mm/Buddy/Check.antt =====
-- A test of a sound state of kernel/mm/buddy_pmm.c.
use mathlib.Core.Option.{some-injective}
use rendezv_os.Base.{
  ℕ, zero, suc, ◌+◌, ◌^◌, ◌≤◌, ◌≡◌, refl, ap, ◌∙◌, subst, Bool, true, false, ◌&&◌, ◌||◌, ◌==◌, leb,
  Bool-cases, inl, inr, Option, none, some, List, [], ◌∷◌, get_elem?, length, arith,
}
use rendezv_os.Mm.Buddy.{BuddyPage, Bucket, Buddy, max_order}
use rendezv_os.Mm.Buddy.Lists.{mem, Sound}

abbrev frames_inside : ℕ → ℕ → List ℕ → Bool
frames_inside n o [] = true
frames_inside n o (i ∷ is) = leb (i + 2 ^ o) n && frames_inside n o is

abbrev lists_inside : ℕ → ℕ → List Bucket → Bool
lists_inside n o [] = true
lists_inside n o (k ∷ ks) = frames_inside n o (k.frames) && lists_inside n (suc o) ks

abbrev order_inside : ℕ → ℕ → Option ℕ → Bool
order_inside n i none = true
order_inside n i (some o) = leb (i + 2 ^ o) n

abbrev pages_inside : ℕ → ℕ → List BuddyPage → Bool
pages_inside n i [] = true
pages_inside n i (p ∷ ps) = order_inside n i (p.order) && pages_inside n (suc i) ps

abbrev pub is_sound : ℕ → Buddy → Bool
is_sound n b =
    (length (b.buckets) == max_order + 1)
    && ((length (b.pages) == n)
        && ((b.buddy_page_number == n)
            && (lists_inside n 0 (b.buckets) && pages_inside n 0 (b.pages))))

both : (a c : Bool) → (a && c) ≡ true → (a ≡ true) × (c ≡ true)
both true c e = (refl, e)
both false c e = absurd (ground (arith, e))

frames_inside_lem :
    (n o i : ℕ) (is : List ℕ) → frames_inside n o is ≡ true → mem i is ≡ true → i + 2 ^ o ≤ n
frames_inside_lem n o i [] all h = absurd (ground (arith, h))
frames_inside_lem n o i (x ∷ xs) all h =
    let (first, rest) = both (leb (x + 2 ^ o) n) (frames_inside n o xs) all in
    elim (Bool-cases (x == i)) [
      | inl e ↦ ground (arith, e, first)
      | inr ne ↦ frames_inside_lem n o i xs rest (subst (λ t. (t || mem i xs) ≡ true) ne h)
    ]

lists_inside_lem :
    (n o j i : ℕ) (ks : List Bucket) (k : Bucket)
    → lists_inside n o ks ≡ true
    → get_elem? ks j ≡ some k
    → mem i (k.frames) ≡ true
    → i + 2 ^ (o + j) ≤ n
lists_inside_lem n o j i [] k all got h = absurd (ground (arith, got))
lists_inside_lem n o zero i (k' ∷ ks) k all got h =
    let (first, rest) = both (frames_inside n o (k'.frames)) (lists_inside n (suc o) ks) all in
    let same : o ≡ o + 0 = omega arith in
    subst (λ z. i + 2 ^ z ≤ n) same
      (frames_inside_lem n o i (k'.frames) first
        (ap (λ (z : Bucket). mem i (z.frames)) (some-injective k' k got) ∙ h))
lists_inside_lem n o (suc j) i (k' ∷ ks) k all got h =
    let (first, rest) = both (frames_inside n o (k'.frames)) (lists_inside n (suc o) ks) all in
    let same : suc o + j ≡ o + suc j = omega arith in
    subst (λ z. i + 2 ^ z ≤ n) same (lists_inside_lem n (suc o) j i ks k rest got h)

order_inside_lem :
    (n i o : ℕ) (q : Option ℕ) → order_inside n i q ≡ true → q ≡ some o → i + 2 ^ o ≤ n
order_inside_lem n i o none all e = absurd (ground (arith, e))
order_inside_lem n i o (some o') all e =
    subst (λ z. i + 2 ^ z ≤ n) (some-injective o' o e) (ground (arith, all))

pages_inside_lem :
    (n i j o : ℕ) (ps : List BuddyPage) (p : BuddyPage)
    → pages_inside n i ps ≡ true
    → get_elem? ps j ≡ some p
    → p.order ≡ some o
    → i + j + 2 ^ o ≤ n
pages_inside_lem n i j o [] p all got e = absurd (ground (arith, got))
pages_inside_lem n i zero o (q ∷ ps) p all got e =
    let (first, rest) = both (order_inside n i (q.order)) (pages_inside n (suc i) ps) all in
    let same : i ≡ i + 0 = omega arith in
    subst (λ z. z + 2 ^ o ≤ n) same
      (order_inside_lem n i o (q.order) first
        (ap (λ (z : BuddyPage). z.order) (some-injective q p got) ∙ e))
pages_inside_lem n i (suc j) o (q ∷ ps) p all got e =
    let (first, rest) = both (order_inside n i (q.order)) (pages_inside n (suc i) ps) all in
    let same : suc i + j ≡ i + suc j = omega arith in
    subst (λ z. z + 2 ^ o ≤ n) same (pages_inside_lem n (suc i) j o ps p rest got e)

pub is_sound-Sound : (n : ℕ) (b : Buddy) → is_sound n b ≡ true → Sound n b
is_sound-Sound n b all =
    let (orders, r1) = both (length (b.buckets) == max_order + 1) _ all in
    let (pages, r2) = both (length (b.pages) == n) _ r1 in
    let (number, r3) = both (b.buddy_page_number == n) _ r2 in
    let (lists, starts) = both (lists_inside n 0 (b.buckets)) (pages_inside n 0 (b.pages)) r3 in
    record {
      in_pages = record {
        all_pages = ground (arith, pages);
        orders = λ i o p got e.
            subst (λ z. z + 2 ^ o ≤ n) (plain i)
              (pages_inside_lem n 0 i o (b.pages) p starts got e);
      };
      in_lists = record {
        all_orders = ground (arith, orders);
        blocks = λ o i k got h.
            subst (λ z. i + 2 ^ z ≤ n) (plain o)
              (lists_inside_lem n 0 o i (b.buckets) k lists got h);
      };
      numbered = ground (arith, number);
    }
  where
    plain : (j : ℕ) → 0 + j ≡ j
    plain j = omega arith
