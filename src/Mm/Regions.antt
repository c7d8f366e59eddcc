-- ===== src/Mm/Regions.antt =====
-- kernel/mm/pmm.c: the table of memory regions, from which memory is reserved before the page allocator
-- starts.
pub mod Pieces
pub mod Reserve
mod Tests
use Prim.Native.Nat.{bit_and}
use rendezv_os.Base.{
  ℕ, zero, suc, ◌+◌, ◌-◌, ◌%◌, ◌^◌, Bool, true, false, ◌&&◌, ◌==◌, leb, ltb, Option, none, some,
  List, if◌then◌else◌, get_elem?, set, replicate,
}
use rendezv_os.Base.{Result, ok, ◌>>=◌, access}
use rendezv_os.Mm.Pmm.{sub_u64}

abbrev pub max_memory_regions : ℕ
max_memory_regions = 128

pub record Region : Type 0 where
  pub addr : ℕ
  pub len : ℕ

-- All entries of the table, of which the first `region_count` are in use.
pub record MemoryRegions : Type 0 where
  pub region_count : ℕ
  pub regions : List Region

abbrev pub no_region : Region
no_region = record { addr = 0; len = 0 }

abbrev pub region_end : Region → ℕ
region_end r = (r.addr + r.len) % 2 ^ 64

unfoldable pub memory_regions_init : MemoryRegions
memory_regions_init = record { region_count = 0; regions = replicate max_memory_regions no_region }

-- `memory_regions_insert`: the table, if it is not full.
unfoldable pub memory_regions_insert : Region → MemoryRegions → Option MemoryRegions
memory_regions_insert r m =
    if leb max_memory_regions (m.region_count)
    then none
    else some
        (record { region_count = m.region_count + 1; regions = set (m.regions) (m.region_count) r })

abbrev pub memory_regions_entry_empty : Region → Bool
memory_regions_entry_empty r = (r.addr == 0) && (r.len == 0)

abbrev pub put_region : ℕ → Region → MemoryRegions → MemoryRegions
put_region i r m = record m { regions = set (m.regions) i r }

-- The part of the range that a region can give, if the region needs a change.
unfoldable pub adjusted : ℕ → ℕ → Region → Option (ℕ × ℕ)
adjusted start end r =
    if leb (r.addr) start && leb end (region_end r)
    then some (start, end)
    else if leb (r.addr) start && leb start (region_end r)
    then some (start, region_end r)
    else if leb (r.addr) end && leb end (region_end r)
    then some (r.addr, end)
    else none

-- What is left of a region: one piece, perhaps an empty one, or two, the second of which is inserted.
pub data Cut : Type 0 where
  one : Region → Cut
  two : Region → Region → Cut

unfoldable pub cut : Region → ℕ → ℕ → Cut
cut r start end =
    if (start == r.addr) && (end == region_end r)
    then one no_region
    else if start == r.addr
    then one (record { addr = end; len = (sub_u64 (r.len) end + r.addr) % 2 ^ 64 })
    else if end == region_end r
    then one (record { addr = r.addr; len = sub_u64 start (r.addr) })
    else two (record { addr = end; len = sub_u64 (region_end r) end })
        (record { addr = r.addr; len = sub_u64 start (r.addr) })

-- The loop of `memory_regions_reserve_region`, with the entries that remain.
unfoldable pub reserve_at : ℕ → ℕ → ℕ → ℕ → MemoryRegions → Result (Option ℕ × MemoryRegions)
reserve_at zero i start end m = ok (none, m)
reserve_at (suc n) i start end m = access (get_elem? (m.regions) i) >>= λ r.
    elim (memory_regions_entry_empty r) [
      | true ↦ reserve_at n (i + 1) start end m
      | false ↦ elim (adjusted start end r) [
        | none ↦ reserve_at n (i + 1) start end m
        | some q ↦ elim (cut r (q.0) (q.1)) [
          | one r' ↦ ok (some i, put_region i r' m)
          | two r' other ↦ elim (memory_regions_insert other m) [
            | none ↦ reserve_at n (i + 1) (q.0) (q.1) m
            | some m' ↦ ok (some i, put_region i r' m')
          ]
        ]
      ]
    ]

unfoldable pub memory_regions_reserve_region :
    ℕ → ℕ → MemoryRegions → Result (Option ℕ × MemoryRegions)
memory_regions_reserve_region start end m = reserve_at (m.region_count) 0 start end m

-- `ROUND_UP`
unfoldable pub round_up : ℕ → ℕ → ℕ
round_up x align = bit_and ((x + sub_u64 align 1) % 2 ^ 64) (2 ^ 64 - 1 - sub_u64 align 1)

-- The loop of `memory_regions_reserve_region_with_length`, which gives the start of the range. Where an
-- insertion fails, the entry is still reported if no other serves.
unfoldable pub reserve_length_at :
    ℕ → ℕ → Option (ℕ × ℕ) → ℕ → ℕ → MemoryRegions → Result (Option (ℕ × ℕ) × MemoryRegions)
reserve_length_at zero i used length align m = ok (used, m)
reserve_length_at (suc n) i used length align m = access (get_elem? (m.regions) i) >>= λ r.
    let start = round_up (r.addr) align in
    let end = (start + length) % 2 ^ 64 in
    let piece : Region = record { addr = end; len = sub_u64 (r.len) (sub_u64 end (r.addr)) } in
    elim (memory_regions_entry_empty r) [
      | true ↦ reserve_length_at n (i + 1) used length align m
      | false ↦ elim (ltb length (sub_u64 (region_end r) start)) [
        | false ↦ reserve_length_at n (i + 1) used length align m
        | true ↦ elim (r.addr == start) [
          | true ↦ ok (some (i, start), put_region i piece m)
          | false ↦
              elim (memory_regions_insert (record { addr = r.addr; len = sub_u64 start (r.addr) })
                m) [
                  | none ↦ reserve_length_at n (i + 1) (some (i, start)) length align m
                  | some m' ↦ ok (some (i, start), put_region i piece m')
                ]
        ]
      ]
    ]

unfoldable pub memory_regions_reserve_region_with_length :
    ℕ → ℕ → MemoryRegions → Result (Option (ℕ × ℕ) × MemoryRegions)
memory_regions_reserve_region_with_length length align m =
    reserve_length_at (m.region_count) 0 none length align m
