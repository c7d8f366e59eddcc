-- ===== src/Registry/NameIndex/RowSpec.antt =====
-- What registration and unregistration do to the rows of kernel/registry/name_index.c, field by field.
use rendezv_os.Base.{
  ℕ, ◌+◌, ◌-◌, ◌%◌, ◌^◌, ◌<◌, ◌≡◌, ◌≢◌, refl, ap, sym, ◌∙◌, Option, none, some, get_elem?, set,
  length, get_elem?-set_ne, get_elem?-set_self, arith,
}
use rendezv_os.Registry.NameIndex.{u64, Row, NameIndex}
use rendezv_os.Registry.NameIndex.Calls.{taken, cleared, dec_live, run_hook}
use rendezv_os.Registry.NameIndex.Keep.{SameRows}

-- One row is another, and the rest of the row array stays.
pub record OneRow (idx : NameIndex) (i : ℕ) (r : Row) (idx' : NameIndex) : Type 0 where
  pub there : get_elem? (idx'.rows) i ≡ some r
  pub others : (j : ℕ) → j ≢ i → get_elem? (idx'.rows) j ≡ get_elem? (idx.rows) j
  pub same_cap : idx'.row_cap ≡ idx.row_cap
  pub same_len : idx'.name_len_max ≡ idx.name_len_max

-- The first free row has the value, and the next one is the head of the free list.
pub record RowTaken (idx : NameIndex) (value : ℕ) (r : Row) (idx' : NameIndex) : Type 0 where
  pub one_row : OneRow idx (idx.free_head) (record { gen = r.gen; used = 1; storage = value }) idx'
  pub next_head : idx'.free_head ≡ r.storage
  pub one_more : idx'.live ≡ idx.live + 1

-- The row is free, one generation older, and the head of the free list.
pub record RowFreed (idx : NameIndex) (i : ℕ) (r : Row) (idx' : NameIndex) : Type 0 where
  pub one_row :
      OneRow idx i (record { gen = (r.gen + 1) % 2 ^ 64; used = 0; storage = idx.free_head }) idx'
  pub new_head : idx'.free_head ≡ i
  pub one_less : idx'.live ≡ idx.live - 1

-- What is left of the world when a hook of the owner, which may be NULL, is called once.
abbrev pub Called : {W : Type 0} → Option (ℕ → W → W) → ℕ → W → W → Type 0
Called none value w w' = w' ≡ w
Called (some f) value w w' = w' ≡ f value w

pub run_hook-Called :
    {W : Type 0} (hook : Option (ℕ → W → W)) (value : ℕ) (w : W)
    → Called hook value w (run_hook hook value w)
run_hook-Called none value w = refl
run_hook-Called (some f) value w = refl

-- A write to a row array.
set-OneRow :
    (idx idx' : NameIndex) (i : ℕ) (r : Row)
    → i < length (idx.rows)
    → idx'.rows ≡ set (idx.rows) i r
    → idx'.row_cap ≡ idx.row_cap
    → idx'.name_len_max ≡ idx.name_len_max
    → OneRow idx i r idx'
set-OneRow idx idx' i r lt rows cap len = record {
  there = ap (λ rs. get_elem? rs i) rows ∙ get_elem?-set_self (idx.rows) i r lt;
  others =
      λ j ne. ap (λ rs. get_elem? rs j) rows ∙ get_elem?-set_ne (idx.rows) i j r (λ e. ne (sym e));
  same_cap = cap;
  same_len = len;
}

pub taken-RowTaken :
    (idx : NameIndex) (value : ℕ) (r : Row) {idx' : NameIndex}
    → idx.free_head < length (idx.rows)
    → idx.live < 2 ^ 64 - 1
    → SameRows (taken idx (idx.free_head) value r) idx'
    → RowTaken idx value r idx'
taken-RowTaken idx value r {idx'} lt small same = record {
  one_row =
      set-OneRow idx idx' (idx.free_head) (record { gen = r.gen; used = 1; storage = value }) lt
        (same.same_rows) (same.same_cap) (same.same_len);
  next_head = same.same_head;
  one_more = same.same_live ∙ live_more (idx.live) small;
}
  where
    live_more : (n : ℕ) → n < 2 ^ 64 - 1 → u64 (n + 1) ≡ n + 1
    live_more n lt' = omega (arith, lt')

pub cleared-RowFreed :
    (idx : NameIndex) (i : ℕ) (r : Row) {idx' : NameIndex}
    → i < length (idx.rows)
    → SameRows (cleared idx i r) idx'
    → RowFreed idx i r idx'
cleared-RowFreed idx i r {idx'} lt same = record {
  one_row =
      set-OneRow idx idx' i
        (record { gen = (r.gen + 1) % 2 ^ 64; used = 0; storage = idx.free_head }) lt
        (same.same_rows) (same.same_cap) (same.same_len);
  new_head = same.same_head;
  one_less = same.same_live ∙ live_less (idx.live);
}
  where
    live_less : (n : ℕ) → dec_live n ≡ n - 1
    live_less n = ground arith
