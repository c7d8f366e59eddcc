-- ===== src/Mm/Buddy.antt =====
-- kernel/mm/buddy_pmm.c and include/rendezvos/mm/buddy_pmm.h: the state of the buddy allocator, and its start.
-- A `struct buddy_page *` is the page's number. A bucket's list is the numbers of its pages, in order.
-- An order of -1 is `none`.
pub mod Alloc
pub mod Free
pub mod Init
pub mod Log
pub mod Claims
pub mod Lists
pub mod Split
pub mod Zone
pub mod Merge
pub mod Release
pub mod Request
pub mod Check
mod Tests
use rendezv_os.Base.{
  ℕ, zero, suc, ◌+◌, ◌-◌, ◌*◌, ◌/◌, ◌%◌, ◌^◌, Bool, true, false, ◌&&◌, ◌||◌, not, ◌==◌, leb, ltb,
  Option, none, some, List, [], ◌∷◌, ◌++◌, map, if◌then◌else◌, get_elem?, set, length, replicate,
}
use rendezv_os.Base.{Result, ok, fault, ◌>>=◌, access}
use rendezv_os.Mm.Pmm.{MemSection, MemZone, page_size, ppn_of, sub_u64, Refs}

abbrev pub max_order : ℕ
max_order = 10

pub record BuddyPage : Type 0 where
  pub ppn : ℕ
  pub order : Option ℕ

pub record Bucket : Type 0 where
  pub aval_pages : ℕ
  pub frames : List ℕ

-- `refs` are the counts in the zone's pages.
pub record Buddy : Type 0 where
  pub pages : List BuddyPage
  pub buddy_page_number : ℕ
  pub total_avaliable_pages : ℕ
  pub buckets : List Bucket
  pub refs : Refs

abbrev pub without : ℕ → List ℕ → List ℕ
without i [] = []
without i (x ∷ xs) = if x == i then without i xs else x ∷ without i xs

-- `list_del`, which is `list_del_init`: the page leaves the list that it is in, if any.
abbrev pub unlink : ℕ → List Bucket → List Bucket
unlink i buckets = map (λ (k : Bucket). record k { frames = without i (k.frames) }) buckets

-- An update of the bucket of an order; an order past the last is a fault.
unfoldable pub with_bucket : ℕ → (Bucket → Bucket) → List Bucket → Result (List Bucket)
with_bucket order f buckets = do k ← access (get_elem? buckets order); ok (set buckets order (f k))

abbrev pub push_head : ℕ → Bucket → Bucket
push_head i k = record k { frames = i ∷ k.frames }

abbrev pub push_tail : ℕ → Bucket → Bucket
push_tail i k = record k { frames = k.frames ++ (i ∷ []) }

abbrev pub more_pages : ℕ → Bucket → Bucket
more_pages n k = record k { aval_pages = (k.aval_pages + n) % 2 ^ 64 }

abbrev pub less_pages : ℕ → Bucket → Bucket
less_pages n k = record k { aval_pages = sub_u64 (k.aval_pages) n }

unfoldable pub set_order : ℕ → Option ℕ → List BuddyPage → Result (List BuddyPage)
set_order i order pages = do
  p ← access (get_elem? pages i)
  ok (set pages i (record p { order = order }))

-- `sizeof(struct buddy_page)`
abbrev pub page_record_size : ℕ
page_record_size = 32

-- `calculate_manage_space`
unfoldable pub calculate_manage_space : ℕ → ℕ
calculate_manage_space n =
    (n * page_record_size + (page_size - 1)) % 2 ^ 64 / page_size * page_size / page_size

-- `log2_of_next_power_of_two`: one of the tests `if (n >> s) { exponent += s; n >>= s; }`.
unfoldable pub log_step : ℕ → ℕ × ℕ → ℕ × ℕ
log_step s (exponent, n) = if n / 2 ^ s == 0 then (exponent, n) else (exponent + s, n / 2 ^ s)

unfoldable pub log_sum : ℕ × ℕ → ℕ
log_sum (exponent, n) = exponent + n

unfoldable pub log2_of_next_power_of_two : ℕ → ℕ
log2_of_next_power_of_two n =
    if n == 0
    then 0
    else log_sum (log_step 1 (log_step 2 (log_step 4 (log_step 8 (log_step 16 (0, n - 1))))))
