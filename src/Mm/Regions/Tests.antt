-- ===== src/Mm/Regions/Tests.antt =====
-- Runs on the table of memory regions.
use rendezv_os.Base.{ℕ, ◌+◌, ◌≡◌, refl, none, some, ◌∷◌, replicate}
use rendezv_os.Base.{ok, ◌>>=◌}
use mathlib.Core.Option.{some-injective}
use rendezv_os.Base.{suc, zero, ◌<◌, ◌^◌, get_elem?, arith, subst}
use rendezv_os.Base.Returns.{Gives}
use rendezv_os.Mm.Regions.Reserve.{Reserved, memory_regions_reserve_region-Reserved}
use rendezv_os.Mm.Regions.{
  Region, MemoryRegions, no_region, memory_regions_insert, adjusted, cut, reserve_at,
  memory_regions_reserve_region, round_up, reserve_length_at,
  memory_regions_reserve_region_with_length,
}

abbrev region : ℕ → ℕ → Region
region a n = record { addr = a; len = n }

-- Two regions, the second behind the first.
abbrev two_regions : MemoryRegions
two_regions = record {
  region_count = 2;
  regions = region 0x1000 0x1000 ∷ region 0x2000 0x3000 ∷ replicate 126 no_region;
}

middle_reserved :
    memory_regions_reserve_region 0x3000 0x4000 two_regions
    ≡ ok (
      some 1,
      record {
        region_count = 3;
        regions =
            region 0x1000 0x1000
            ∷ region 0x4000 0x1000
            ∷ region 0x2000 0x1000
            ∷ replicate 125 no_region;
      },
    )
unfolding memory_regions_reserve_region reserve_at adjusted cut memory_regions_insert
middle_reserved = refl

-- A range that starts where the first region ends: the first region is reported, and nothing is taken
-- from the second, which has the range.
nothing_reserved :
    memory_regions_reserve_region 0x2000 0x3000 two_regions ≡ ok (some 0, two_regions)
unfolding memory_regions_reserve_region reserve_at adjusted cut memory_regions_insert
nothing_reserved = refl

-- A region that ends before its first aligned address: the difference wraps, and the range that is
-- reserved lies outside it.
outside_reserved :
    (memory_regions_reserve_region_with_length 0x1000 0x1000
        (record { region_count = 1; regions = region 0x1400 0x800 ∷ replicate 127 no_region })
      >>= λ r. ok (r.0))
    ≡ ok (some (0, 0x2000))
unfolding memory_regions_reserve_region_with_length reserve_length_at round_up memory_regions_insert
outside_reserved = refl

-- A range with a whole region inside: the region stays.
enclosed_kept :
    memory_regions_reserve_region 0x1000 0x9000
      (record { region_count = 1; regions = region 0x2000 0x1000 ∷ replicate 127 no_region })
    ≡ ok (
      none,
      record { region_count = 1; regions = region 0x2000 0x1000 ∷ replicate 127 no_region },
    )
unfolding memory_regions_reserve_region reserve_at adjusted
enclosed_kept = refl

abbrev Small : Region → Type 0
Small r = r.addr + r.len < 2 ^ 64

no_region-Small : (n i : ℕ) (r : Region) → get_elem? (replicate n no_region) i ≡ some r → Small r
no_region-Small zero i r got = absurd (ground (arith, got))
no_region-Small (suc n) zero r got = subst Small (some-injective no_region r got) (omega arith)
no_region-Small (suc n) (suc i) r got = no_region-Small n i r got

two_regions-Small : (i : ℕ) (r : Region) → get_elem? (two_regions.regions) i ≡ some r → Small r
two_regions-Small zero r got =
    subst Small (some-injective (region 0x1000 0x1000) r got) (omega arith)
two_regions-Small (suc zero) r got =
    subst Small (some-injective (region 0x2000 0x3000) r got) (omega arith)
two_regions-Small (suc (suc i)) r got = no_region-Small 126 i r got

memory_regions_reserve_region-Reserved_example :
    Gives
      (Reserved 0x3000 0x4000 two_regions)
      (memory_regions_reserve_region 0x3000 0x4000 two_regions)
memory_regions_reserve_region-Reserved_example =
    memory_regions_reserve_region-Reserved 0x3000 0x4000 two_regions
      (record { all_entries = refl; room = omega arith; no_wrap = two_regions-Small }) (omega arith)
