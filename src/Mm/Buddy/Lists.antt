-- ===== src/Mm/Buddy/Lists.antt =====
-- The lists and the page orders of kernel/mm/buddy_pmm.c stay inside the zone under each change that
-- the allocator makes of them.
use native.Mathlib.Decide.{ℕ_discrete}
use mathlib.Core.Option.{some-injective}
use rendezv_os.Base.{
  ℕ, zero, suc, ◌+◌, ◌^◌, ◌≤◌, ◌<◌, ◌≡◌, refl, ap, sym, ◌∙◌, subst, true, false, Bool, ◌==◌, ◌||◌,
  ◌⊎◌, Option, some, List, [], ◌∷◌, inl, inr, get_elem?, set, length, length-set, get_elem?-some,
  get_elem?-set_self, get_elem?-set_ne, if◌then◌else◌, arith,
}
use rendezv_os.Base.{Result, ◌>>=◌}
use rendezv_os.Base.Returns.{Gives}
use rendezv_os.Mm.Buddy.{
  BuddyPage, Bucket, Buddy, max_order, unlink, without, with_bucket, push_head, more_pages,
  less_pages, set_order,
}

abbrev pub mem : ℕ → List ℕ → Bool
mem i [] = false
mem i (x ∷ xs) = x == i || mem i xs

-- Lists of all orders, and every block on them inside `n` pages.
pub record InLists (n : ℕ) (buckets : List Bucket) : Type 0 where
  pub all_orders : length buckets ≡ max_order + 1
  pub blocks :
      (o i : ℕ) (k : Bucket)
      → get_elem? buckets o ≡ some k
      → mem i (k.frames) ≡ true
      → i + 2 ^ o ≤ n

-- `n` pages, where a page that has an order starts as many pages.
pub record InPages (n : ℕ) (pages : List BuddyPage) : Type 0 where
  pub all_pages : length pages ≡ n
  pub orders :
      (i o : ℕ) (p : BuddyPage) → get_elem? pages i ≡ some p → p.order ≡ some o → i + 2 ^ o ≤ n

-- A change of a list keeps no block but the list's own and those that lie inside.
abbrev pub Keeps : ℕ → ℕ → (Bucket → Bucket) → Type 0
Keeps n o f =
    (k : Bucket) (i : ℕ) → mem i ((f k).frames) ≡ true → (mem i (k.frames) ≡ true) ⊎ (i + 2 ^ o ≤ n)

pub less_pages-Keeps : (n o m : ℕ) → Keeps n o (less_pages m)
less_pages-Keeps n o m k i h = inl h

pub more_pages-Keeps : (n o m : ℕ) → Keeps n o (more_pages m)
more_pages-Keeps n o m k i h = inl h

pub push_head-Keeps : (n o x : ℕ) → x + 2 ^ o ≤ n → Keeps n o (push_head x)
push_head-Keeps n o x fits k i h = elim (ℕ_discrete x i) [
  | yes same ↦ inr (subst (λ z. z + 2 ^ o ≤ n) same fits)
  | no other ↦ inl (ground (arith, h, other))
]

pub with_bucket-then :
    {B : Type 0} (Q : B → Type 0) (n o : ℕ) (f : Bucket → Bucket) (buckets : List Bucket)
    (next : List Bucket → Result B)
    → InLists n buckets
    → o ≤ max_order
    → Keeps n o f
    → ((bs : List Bucket) → InLists n bs → Gives Q (next bs))
    → Gives Q (with_bucket o f buckets >>= next)
unfolding with_bucket
with_bucket-then Q n o f buckets next is le keeps all =
    let lt : o < length buckets = omega (arith, is.all_orders) in
    let (k, got) = get_elem?-some buckets o lt in
    rw got (
      all (set buckets o (f k)) (record {
        all_orders = length-set buckets o (f k) ∙ is.all_orders;
        blocks = λ o' i k' there here'. elim (ℕ_discrete o' o) [
          | no other ↦
              is.blocks o' i k'
                (sym (get_elem?-set_ne buckets o o' (f k) (λ e. other (sym e))) ∙ there) here'
          | yes same ↦
              let e : f k ≡ k' = some-injective (f k) k' (
                sym (get_elem?-set_self buckets o (f k) lt)
                ∙ ap (get_elem? (set buckets o (f k))) (sym same)
                ∙ there) in
              subst (λ z. i + 2 ^ z ≤ n) (sym same)
                (old i k got (ap (λ (z : Bucket). mem i (z.frames)) e ∙ here'))
        ];
      }))
  where
    old :
        (i : ℕ) (k : Bucket)
        → get_elem? buckets o ≡ some k
        → mem i ((f k).frames) ≡ true
        → i + 2 ^ o ≤ n
    old i k got h = elim (keeps k i h) [ inl was ↦ is.blocks o i k got was | inr fits ↦ fits ]

pub set_order-then :
    {B : Type 0} (Q : B → Type 0) (n i : ℕ) (o : Option ℕ) (pages : List BuddyPage)
    (next : List BuddyPage → Result B)
    → InPages n pages
    → i < n
    → ((k : ℕ) → o ≡ some k → i + 2 ^ k ≤ n)
    → ((ps : List BuddyPage) → InPages n ps → Gives Q (next ps))
    → Gives Q (set_order i o pages >>= next)
unfolding set_order
set_order-then Q n i o pages next is lt fits all =
    let lt' : i < length pages = omega (arith, is.all_pages) in
    let (p, got) = get_elem?-some pages i lt' in
    let p' : BuddyPage = record p { order = o } in
    rw got (
      all (set pages i p') (record {
        all_pages = length-set pages i p' ∙ is.all_pages;
        orders = λ j k q there has. elim (ℕ_discrete j i) [
          | no other ↦
              is.orders j k q (sym (get_elem?-set_ne pages i j p' (λ e. other (sym e))) ∙ there) has
          | yes same ↦
              let e : p' ≡ q = some-injective p' q (
                sym (get_elem?-set_self pages i p' lt')
                ∙ ap (get_elem? (set pages i p')) (sym same)
                ∙ there) in
              subst (λ z. z + 2 ^ k ≤ n) (sym same)
                (fits k (ap (λ (z : BuddyPage). z.order) e ∙ has))
        ];
      }))

or_mono : (a b c : Bool) → (b ≡ true → c ≡ true) → (a || b) ≡ true → (a || c) ≡ true
or_mono true b c f h = refl
or_mono false b c f h = f h

or_right : (a b : Bool) → b ≡ true → (a || b) ≡ true
or_right true b h = refl
or_right false b h = h

mem-without : (x i : ℕ) (xs : List ℕ) → mem i (without x xs) ≡ true → mem i xs ≡ true
mem-without x i [] h = h
mem-without x i (y ∷ ys) h = go (y == x) (mem-without x i ys) h
  where
    go :
        (t : Bool)
        → (mem i (without x ys) ≡ true → mem i ys ≡ true)
        → mem i (if t then without x ys else y ∷ without x ys) ≡ true
        → (y == i || mem i ys) ≡ true
    go true rest h = or_right (y == i) (mem i ys) (rest h)
    go false rest h = or_mono (y == i) (mem i (without x ys)) (mem i ys) rest h

get_elem?-unlink :
    (x : ℕ) (buckets : List Bucket) (o : ℕ) (k' : Bucket)
    → get_elem? (unlink x buckets) o ≡ some k'
    → (k : Bucket) × (get_elem? buckets o ≡ some k) × (k'.frames ≡ without x (k.frames))
get_elem?-unlink x [] o k' got = absurd (ground (arith, got))
get_elem?-unlink x (k ∷ ks) zero k' got = (
  k,
  refl,
  sym (
      ap (λ (z : Bucket). z.frames)
        (some-injective (record k { frames = without x (k.frames) }) k' got)),
)
get_elem?-unlink x (k ∷ ks) (suc o) k' got = get_elem?-unlink x ks o k' got

length-unlink : (x : ℕ) (buckets : List Bucket) → length (unlink x buckets) ≡ length buckets
length-unlink x [] = refl
length-unlink x (k ∷ ks) = ap suc (length-unlink x ks)

pub unlink-InLists :
    (n x : ℕ) (buckets : List Bucket) → InLists n buckets → InLists n (unlink x buckets)
unlink-InLists n x buckets is = record {
  all_orders = length-unlink x buckets ∙ is.all_orders;
  blocks = λ o i k' got here'.
      let (k, was, e) = get_elem?-unlink x buckets o k' got in
      is.blocks o i k was (mem-without x i (k.frames) (ap (mem i) (sym e) ∙ here'));
}

-- The allocator's state in a zone of `n` pages.
pub record Sound (n : ℕ) (b : Buddy) : Type 0 where
  pub in_pages : InPages n (b.pages)
  pub in_lists : InLists n (b.buckets)
  pub numbered : b.buddy_page_number ≡ n

abbrev pub IsBuddy : Buddy → Type 0
IsBuddy b = Sound (length (b.refs)) b
