-- ===== src/Mm/Asid/Reach.antt =====
-- kernel/mm/asid.c over any sequence of calls after `asid_init`: no id is handed out twice.
use native.Mathlib.Nat.{one-le-pow}
use rendezv_os.Base.{
  subst, ℕ, suc, ◌-◌, ◌^◌, ◌≤◌, ◌<◌, ◌≡◌, refl, sym, ◌∙◌, ◌⊎◌, inl, inr, Bool, true, false, ◌||◌,
  ◌&&◌, ◌==◌, leb, ltb, if◌then◌else◌, arith, List, [], ◌∷◌,
}
use rendezv_os.Base.{ok, ok_injective}
use rendezv_os.Mm.Asid.{Asid, asid_init, asid_alloc, asid_free}
use rendezv_os.Mm.Asid.Laws.{
  IsAsid, in_use, Allocated, exhausted, least, asid_alloc-Allocated, asid_free-frees,
  asid_init-IsAsid,
}

abbrev pub mem : ℕ → List ℕ → Bool
mem i [] = false
mem i (x ∷ xs) = i == x || mem i xs

abbrev pub remove : ℕ → List ℕ → List ℕ
remove i [] = []
remove i (x ∷ xs) = if x == i then remove i xs else x ∷ remove i xs

-- The calls since `asid_init`, and the ids that were returned and not freed since.
pub data Run (width : ℕ) : List ℕ → Asid → Type 0 where
  start : {s : Asid} → asid_init width ≡ ok s → Run width [] s
  allocated :
      {live : List ℕ} {s s' : Asid} {id : ℕ}
      → Run width live s
      → asid_alloc s ≡ ok (suc id, s')
      → Run width (suc id ∷ live) s'
  failed :
      {live : List ℕ} {s s' : Asid}
      → Run width live s
      → asid_alloc s ≡ ok (0, s')
      → Run width live s'
  freed :
      {live : List ℕ} {s s' : Asid} (id : ℕ)
      → Run width live s
      → asid_free id s ≡ ok s'
      → Run width (remove id live) s'

record Tracked (width : ℕ) (live : List ℕ) (s : Asid) : Type 0 where
  valid : IsAsid s
  max : s.asid_max ≡ 2 ^ width - 1
  tracks : (i : ℕ) → in_use s i ≡ (i == 0 || mem i live)
  legal : (i : ℕ) → mem i live ≡ true → (1 ≤ i) × (i ≤ s.asid_max)

mem-remove : (i j : ℕ) (xs : List ℕ) → mem i (remove j xs) ≡ (if i == j then false else mem i xs)
mem-remove i j [] = ground arith
mem-remove i j (x ∷ xs) = ground (arith, mem-remove i j xs)

alloc_outcome :
    {s s' : Asid} {id : ℕ} → IsAsid s → asid_alloc s ≡ ok (id, s') → IsAsid s' × Allocated 1 s id s'
alloc_outcome {s} is run =
    let (id0, s0, run0, is0, all0) = asid_alloc-Allocated is in
    subst (λ (p : ℕ × Asid). IsAsid (p.1) × Allocated 1 s (p.0) (p.1))
      (ok_injective (sym run0 ∙ run)) (is0, all0)

-- The state that a free leaves, as `asid_free-frees` describes it.
abbrev Freed : ℕ → Asid → Asid → Type 0
Freed id s s' =
    IsAsid s'
    × (s'.asid_max ≡ s.asid_max)
    × ((i : ℕ)
        → in_use s' i
          ≡ (if ltb 0 id && leb id (s.asid_max) && (i == id) then false else in_use s i))

free_outcome : {s s' : Asid} (id : ℕ) → IsAsid s → asid_free id s ≡ ok s' → Freed id s s'
free_outcome {s} id is run =
    let (s0, run0, is0, max0, after0) = asid_free-frees id is in
    subst (Freed id s) (ok_injective (sym run0 ∙ run)) (is0, max0, after0)

or_swap : (a b c : Bool) → (if a then true else b || c) ≡ (b || (a || c))
or_swap true true c = refl
or_swap true false c = refl
or_swap false b c = refl

-- The effect of each call on the ids in use and the ids handed out.
module _ {width : ℕ} {live : List ℕ} {s s' : Asid} (t : Tracked width live s) where
  after_alloc : (id : ℕ) → IsAsid s' → Allocated 1 s (suc id) s' → Tracked width (suc id ∷ live) s'
  after_alloc id is (least lo hi free below max after) = record {
    valid = is;
    max = max ∙ t.max;
    tracks = λ i. after i ∙ rw (t.tracks i) (or_swap (i == suc id) (i == 0) (mem i live));
    legal = λ i m. ground (arith, t.legal i, m, max);
  }

  after_free : (id : ℕ) → Freed id s s' → Tracked width (remove id live) s'
  after_free id (is, max, after) = record {
    valid = is;
    max = max ∙ t.max;
    tracks = λ i. after i ∙ rw (t.tracks i, mem-remove i id live) (ground (arith, t.legal i));
    legal = λ i m. ground (arith, mem-remove i id live, t.legal i, m, max);
  }

after_failure :
    {width : ℕ} {live : List ℕ} {s s' : Asid}
    → Tracked width live s
    → Allocated 1 s 0 s'
    → Tracked width live s'
after_failure t (exhausted all) = t
after_failure t (least lo hi free below max after) = absurd (omega arith)

or_false : (a : Bool) → a ≡ (a || false)
or_false true = refl
or_false false = refl

Run-Tracked :
    {width : ℕ} → width ≤ 16 → {live : List ℕ} {s : Asid} → Run width live s → Tracked width live s
Run-Tracked {width} narrow (start {s} run) =
    let (s0, run0, is0, max0, only) = asid_init-IsAsid width narrow in
    subst (Tracked width []) (ok_injective (sym run0 ∙ run)) (record {
      valid = is0;
      max = max0;
      tracks = λ i. only i ∙ or_false (i == 0);
      legal = λ i m. absurd (ground arith);
    })
Run-Tracked narrow (allocated {id = id} r run) =
    let t = Run-Tracked narrow r in
    let (is, all) = alloc_outcome (t.valid) run in after_alloc t id is all
Run-Tracked narrow (failed r run) =
    let t = Run-Tracked narrow r in
    let (is, all) = alloc_outcome (t.valid) run in after_failure t all
Run-Tracked narrow (freed id r run) =
    let t = Run-Tracked narrow r in after_free t id (free_outcome id (t.valid) run)

fresh :
    {width : ℕ} {live : List ℕ} {s s' : Asid} {id : ℕ}
    → Tracked width live s
    → Allocated 1 s id s'
    → ((1 ≤ id) × (id < 2 ^ width) × (mem id live ≡ false))
      ⊎ ((id ≡ 0) × ((i : ℕ) → 1 ≤ i → i < 2 ^ width → mem i live ≡ true))
fresh t (exhausted all) = inr (refl, λ i lo hi. ground (arith, t.tracks i, all i, t.max))
fresh {width} {id = id} t (least lo hi free below max after) =
    inl (
      lo,
      omega (arith, t.max, one-le-pow width 2 (omega arith)),
      ground (arith, t.tracks id, free),
    )

-- On a CPU whose ids have at most 16 bits, in any state that calls of `asid_alloc` and `asid_free`
-- reach from `asid_init`, `asid_alloc` returns: an id that is not 0, fits the CPU's width and is not
-- handed out at that time, or 0 if every id of the width but 0 is handed out.
pub asid_alloc-fresh :
    {width : ℕ} {live : List ℕ} {s : Asid}
    → width ≤ 16
    → Run width live s
    → (id : ℕ) × (s' : Asid) × (asid_alloc s ≡ ok (id, s'))
      × (((1 ≤ id) × (id < 2 ^ width) × (mem id live ≡ false))
          ⊎ ((id ≡ 0) × ((i : ℕ) → 1 ≤ i → i < 2 ^ width → mem i live ≡ true)))
asid_alloc-fresh {width} {live} {s} narrow r =
    let t = Run-Tracked narrow r in
    let (id, s', run, is, all) = asid_alloc-Allocated (t.valid) in (id, s', run, fresh t all)
