-- ===== src/Mm/Regions/Reserve.antt =====
-- `memory_regions_reserve_region` of kernel/mm/pmm.c takes a range out of one region.
use rendezv_os.Base.{
  ℕ, zero, suc, ◌+◌, ◌^◌, ◌≤◌, ◌<◌, ◌≡◌, ◌≢◌, refl, sym, ◌∙◌, subst, Bool-cases, Option-cases, true,
  false, leb, ◌↔◌, inl, inr, Option, none, some, get_elem?, set, length, length-set, get_elem?-some,
  get_elem?-set_self, get_elem?-set_ne, arith, max, min,
}
use rendezv_os.Base.{Result, ok}
use rendezv_os.Base.Returns.{Gives}
use rendezv_os.Mm.Regions.Pieces.{Remains, Outside, Common, cut-Outside, adjusted-Common}
use rendezv_os.Mm.Regions.{
  Region, MemoryRegions, max_memory_regions, put_region, Cut, one, two, cut, adjusted,
  memory_regions_insert, memory_regions_entry_empty, reserve_at, memory_regions_reserve_region,
}

-- All entries are there, one of them is free, and no region wraps.
pub record Fine (m : MemoryRegions) : Type 0 where
  pub all_entries : length (m.regions) ≡ max_memory_regions
  pub room : m.region_count < max_memory_regions
  pub no_wrap : (i : ℕ) (r : Region) → get_elem? (m.regions) i ≡ some r → r.addr + r.len < 2 ^ 64

-- The pieces stand at the region's index and, if there are two, at the first free one.
abbrev pub Placed : ℕ → Cut → MemoryRegions → MemoryRegions → Type 0
Placed i (one r) m m' = (m'.region_count ≡ m.region_count) × (get_elem? (m'.regions) i ≡ some r)
Placed i (two r r') m m' =
    (m'.region_count ≡ m.region_count + 1)
    × (get_elem? (m'.regions) i ≡ some r)
    × (get_elem? (m'.regions) (m.region_count) ≡ some r')

-- Region `i` lost what it had in common with the range; or nothing changed.
abbrev pub Reserved : ℕ → ℕ → MemoryRegions → Option ℕ × MemoryRegions → Type 0
Reserved start end m (none, m') = m' ≡ m
Reserved start end m (some i, m') =
    (i < m.region_count)
    × ((r : Region) × (get_elem? (m.regions) i ≡ some r)
        × ((c : Cut) × Placed i c m m'
            × ((a : ℕ)
                → Remains a c ↔ Outside a r (max start (r.addr)) (min end (r.addr + r.len)))))
    × ((j : ℕ) → j < m.region_count → j ≢ i → get_elem? (m'.regions) j ≡ get_elem? (m.regions) j)

-- The writing of the pieces.
put_pieces :
    (i start end : ℕ) (m : MemoryRegions) (r : Region) (c : Cut)
    (full : Result (Option ℕ × MemoryRegions))
    → Fine m
    → i < m.region_count
    → get_elem? (m.regions) i ≡ some r
    → ((a : ℕ) → Remains a c ↔ Outside a r (max start (r.addr)) (min end (r.addr + r.len)))
    → Gives (Reserved start end m) (elim c [
      | one r' ↦ ok (some i, put_region i r' m)
      | two r' other ↦ elim (memory_regions_insert other m) [
        | none ↦ full
        | some m' ↦ ok (some i, put_region i r' m')
      ]
    ])
unfolding memory_regions_insert
put_pieces i start end m r (one r') full fine lt got left =
    let here' : i < length (m.regions) = omega (arith, fine.all_entries, fine.room) in
    (
      lt,
      (r, got, (one r', (refl, get_elem?-set_self (m.regions) i r' here'), left)),
      λ j lt' ne. get_elem?-set_ne (m.regions) i j r' (λ e. ne (sym e)),
    )
put_pieces i start end m r (two r' other) full fine lt got left =
    let free : leb max_memory_regions (m.region_count) ≡ false = ground (arith, fine.room) in
    let n = m.region_count in
    let more = set (m.regions) n other in
    let here' : i < length more =
      omega (arith, fine.all_entries, fine.room, length-set (m.regions) n other) in
    let there : n < length (m.regions) = omega (arith, fine.all_entries, fine.room) in
    rw free (
      lt,
      (
        r,
        got,
        (
          two r' other,
          (
            refl,
            get_elem?-set_self more i r' here',
            get_elem?-set_ne more i n r' (λ e. absurd (omega (arith, e)))
                ∙ get_elem?-set_self (m.regions) n other there,
          ),
          left,
        ),
      ),
      λ j lt' ne.
          get_elem?-set_ne more i j r' (λ e. ne (sym e))
          ∙ get_elem?-set_ne (m.regions) n j other (λ e. absurd (omega (arith, e))),
    )

reserve_at-Reserved :
    (n i start end : ℕ) (m : MemoryRegions)
    → Fine m
    → start ≤ end
    → i + n ≤ m.region_count
    → Gives (Reserved start end m) (reserve_at n i start end m)
unfolding reserve_at
reserve_at-Reserved zero i start end m fine mid le = refl
reserve_at-Reserved (suc n) i start end m fine mid le =
    let (r, got) = get_elem?-some (m.regions) i (omega (arith, fine.all_entries, fine.room)) in
    rw got (at_region r got (reserve_at-Reserved n (i + 1) start end m fine mid (omega arith)))
  where
    placed :
        (r : Region) (q : ℕ × ℕ)
        → get_elem? (m.regions) i ≡ some r
        → Common start end r (some q)
        → Gives (Reserved start end m) (elim (cut r (q.0) (q.1)) [
          | one r' ↦ ok (some i, put_region i r' m)
          | two r' other ↦ elim (memory_regions_insert other m) [
            | none ↦ reserve_at n (i + 1) (q.0) (q.1) m
            | some m' ↦ ok (some i, put_region i r' m')
          ]
        ])
    placed r q got (lower, upper, ordered) =
        put_pieces i start end m r (cut r (q.0) (q.1)) (reserve_at n (i + 1) (q.0) (q.1) m) fine
          (omega arith) got
          (λ a.
            subst (λ s. Remains a (cut r (q.0) (q.1)) ↔ Outside a r s (min end (r.addr + r.len)))
              lower
              (subst (λ e. Remains a (cut r (q.0) (q.1)) ↔ Outside a r (q.0) e) upper
                (cut-Outside r (q.0) (q.1) a (fine.no_wrap i r got) (omega (arith, lower)) ordered
                  (omega (arith, upper)))))

    at_region :
        (r : Region)
        → get_elem? (m.regions) i ≡ some r
        → Gives (Reserved start end m) (reserve_at n (i + 1) start end m)
        → Gives (Reserved start end m) (elim (memory_regions_entry_empty r) [
          | true ↦ reserve_at n (i + 1) start end m
          | false ↦ elim (adjusted start end r) [
            | none ↦ reserve_at n (i + 1) start end m
            | some q ↦ elim (cut r (q.0) (q.1)) [
              | one r' ↦ ok (some i, put_region i r' m)
              | two r' other ↦ elim (memory_regions_insert other m) [
                | none ↦ reserve_at n (i + 1) (q.0) (q.1) m
                | some m' ↦ ok (some i, put_region i r' m')
              ]
            ]
          ]
        ])
    at_region r got rest = elim (Bool-cases (memory_regions_entry_empty r)) [
      | inl empty ↦ rw empty rest
      | inr filled ↦ elim (Option-cases (adjusted start end r)) [
        | inl apart ↦ rw (filled, apart) rest
        | inr (q, common) ↦
            rw (filled, common)
              (placed r q got (
                subst (Common start end r) common
                  (adjusted-Common start end r (fine.no_wrap i r got) mid)))
      ]
    ]

-- In a table with all its entries, one of them free, in which no region wraps, the call returns for every
-- range. It reports a region, which loses exactly what it has in common with the range, while no other
-- entry in use changes; or it reports none, and the table is as it was.
pub memory_regions_reserve_region-Reserved :
    (start end : ℕ) (m : MemoryRegions)
    → Fine m
    → start ≤ end
    → Gives (Reserved start end m) (memory_regions_reserve_region start end m)
unfolding memory_regions_reserve_region
memory_regions_reserve_region-Reserved start end m fine mid =
    reserve_at-Reserved (m.region_count) 0 start end m fine mid (omega arith)
