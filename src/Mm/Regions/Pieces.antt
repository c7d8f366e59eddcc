-- ===== src/Mm/Regions/Pieces.antt =====
-- What `memory_regions_reserve_region` of kernel/mm/pmm.c takes from one region.
use rendezv_os.Base.{
  ℕ, ◌+◌, ◌-◌, ◌^◌, ◌≤◌, ◌<◌, ◌≡◌, Bool-cases, ◌&&◌, ◌==◌, leb, ◌⊎◌, ◌↔◌, inl, inr, Option, none,
  some, arith, max, min,
}
use rendezv_os.Mm.Regions.{Region, region_end, Cut, one, two, cut, adjusted}

-- The address lies in the region.
abbrev pub In : ℕ → Region → Type 0
In a r = (r.addr ≤ a) × (a < r.addr + r.len)

-- It lies in what a cut leaves.
abbrev pub Remains : ℕ → Cut → Type 0
Remains a (one r) = In a r
Remains a (two r r') = In a r ⊎ In a r'

-- It lies in the region and outside the range.
abbrev pub Outside : ℕ → Region → ℕ → ℕ → Type 0
Outside a r start end = In a r × ((a < start) ⊎ (end ≤ a))

-- What each branch of `cut` leaves of the addresses from `lo` on, `n` of them.
after_start :
    (lo n end len a : ℕ)
    → lo ≤ end
    → end ≤ lo + n
    → len ≡ lo + n - end
    → ((end ≤ a) × (a < end + len)) ↔ (((lo ≤ a) × (a < lo + n)) × ((a < lo) ⊎ (end ≤ a)))
after_start lo n end len a le le' e = (
  λ h. ((omega (arith, h), omega (arith, h)), inr (h.0)),
  λ h. elim (h.1) [
    | inl below ↦ absurd (omega (arith, below, h.0))
    | inr above ↦ (above, omega (arith, h.0))
  ],
)

before_end :
    (lo n start len a : ℕ)
    → lo ≤ start
    → start ≤ lo + n
    → len ≡ start - lo
    → ((lo ≤ a) × (a < lo + len)) ↔ (((lo ≤ a) × (a < lo + n)) × ((a < start) ⊎ (lo + n ≤ a)))
before_end lo n start len a le le' e = (
  λ h. ((h.0, omega (arith, h)), inl (omega (arith, h))),
  λ h. elim (h.1) [
    | inl below ↦ (h.0.0, omega (arith, below))
    | inr above ↦ absurd (omega (arith, above, h.0))
  ],
)

both_sides :
    (lo n start end len len' a : ℕ)
    → lo ≤ start
    → start ≤ end
    → end ≤ lo + n
    → len ≡ lo + n - end
    → len' ≡ start - lo
    → (((end ≤ a) × (a < end + len)) ⊎ ((lo ≤ a) × (a < lo + len')))
      ↔ (((lo ≤ a) × (a < lo + n)) × ((a < start) ⊎ (end ≤ a)))
both_sides lo n start end len len' a le mid le' e e' = (
  λ h. elim h [
    | inl above ↦ ((omega (arith, above), omega (arith, above)), inr (above.0))
    | inr below ↦ ((below.0, omega (arith, below)), inl (omega (arith, below)))
  ],
  λ h. elim (h.1) [
    | inl below ↦ inr (h.0.0, omega (arith, below))
    | inr above ↦ inl (above, omega (arith, h.0))
  ],
)

nothing :
    (lo n a : ℕ) → ((0 ≤ a) × (a < 0 + 0)) ↔ (((lo ≤ a) × (a < lo + n)) × ((a < lo) ⊎ (lo + n ≤ a)))
nothing lo n a = (
  λ h. absurd (omega (arith, h)),
  λ h. elim (h.1) [
    | inl below ↦ absurd (omega (arith, below, h.0))
    | inr above ↦ absurd (omega (arith, above, h.0))
  ],
)

pub cut-Outside :
    (r : Region) (start end a : ℕ)
    → r.addr + r.len < 2 ^ 64
    → r.addr ≤ start
    → start ≤ end
    → end ≤ r.addr + r.len
    → Remains a (cut r start end) ↔ Outside a r start end
unfolding cut
cut-Outside r start end a small lo mid hi =
    let whole : region_end r ≡ r.addr + r.len = omega arith in
    elim (Bool-cases (start == r.addr)) [
      | inl first ↦
          let same : start ≡ r.addr = ground (arith, first) in
          elim (Bool-cases (end == region_end r)) [
            | inl last ↦
                let same' : end ≡ r.addr + r.len = ground (arith, last, whole) in
                rw (first, last) (rw (same, same') (nothing (r.addr) (r.len) a))
            | inr before ↦
                rw (first, before)
                  (rw same (after_start (r.addr) (r.len) end _ a (omega arith) hi (omega arith)))
          ]
      | inr inner ↦ elim (Bool-cases (end == region_end r)) [
        | inl last ↦
            let same' : end ≡ r.addr + r.len = ground (arith, last, whole) in
            rw (inner, last)
              (rw same' (before_end (r.addr) (r.len) start _ a lo (omega arith) (omega arith)))
        | inr before ↦
            rw (inner, before)
              (both_sides (r.addr) (r.len) start end _ _ a lo mid hi (omega arith) (omega arith))
      ]
    ]

-- The part of the range that a region gives is what they have in common.
abbrev pub Common : ℕ → ℕ → Region → Option (ℕ × ℕ) → Type 0
Common start end r none = Unit
Common start end r (some q) =
    (q.0 ≡ max start (r.addr)) × (q.1 ≡ min end (r.addr + r.len)) × (q.0 ≤ q.1)

pub adjusted-Common :
    (start end : ℕ) (r : Region)
    → r.addr + r.len < 2 ^ 64
    → start ≤ end
    → Common start end r (adjusted start end r)
unfolding adjusted
adjusted-Common start end r small mid =
    let whole : region_end r ≡ r.addr + r.len = omega arith in
    elim (Bool-cases (leb (r.addr) start && leb end (region_end r))) [
      | inl inside ↦ rw inside (ground (arith, inside, whole), ground (arith, inside, whole), mid)
      | inr over ↦ elim (Bool-cases (leb (r.addr) start && leb start (region_end r))) [
        | inl front ↦
            rw (over, front)
              (
                ground (arith, front, over, whole),
                ground (arith, front, over, whole),
                ground (arith, front, whole),
              )
        | inr apart ↦ elim (Bool-cases (leb (r.addr) end && leb end (region_end r))) [
          | inl behind ↦
              rw (over, apart, behind)
                (
                  ground (arith, apart, behind, over, whole),
                  ground (arith, behind, whole),
                  ground (arith, behind),
                )
          | inr out ↦ rw (over, apart, out) tt
        ]
      ]
    ]
