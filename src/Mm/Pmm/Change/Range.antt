-- ===== src/Mm/Pmm/Change/Range.antt =====
-- `pmm_change_pages_ref` of include/rendezvos/mm/pmm.h on a range that lies inside the zone.
use rendezv_os.Base.{
  ℕ, zero, suc, ◌+◌, ◌-◌, ◌≤◌, ◌<◌, ◌≡◌, refl, ap, sym, ◌∙◌, subst, Bool, Bool-cases, true, false,
  ◌==◌, none, some, List, [], ◌∷◌, inl, inr, get_elem?, set, length, length-set, get_elem?-some,
  get_elem?-set_ne, if◌then◌else◌, arith,
}
use mathlib.Core.Option.{some-injective}
use rendezv_os.Base.{ok}
use rendezv_os.Base.Returns.{Gives, Gives-map}
use rendezv_os.Mm.Pmm.{Cursor, cursor_page, Refs, positive, sub_u64, ref_get, ref_put, refed}
use rendezv_os.Mm.Pmm.Walk.{InZone, cursor_next-Follows, cursor_next-some}
use rendezv_os.Mm.Pmm.Change.{
  change_one, Changes, all_made, stopped_at, change_pages, change_back, unroll,
}
use rendezv_os.Mm.Pmm.Change.Moves.{Moved, Moved-none, Moved-cons, Moved-rest}

-- What a change makes of a positive count, and what its undoing leaves.
abbrev pub step : Bool → ℕ → ℕ
step true c = c + 1
step false c = sub_u64 c 1

abbrev pub back : Bool → ℕ → ℕ
back true c = c
back false c = if c == 1 then 0 else c

lowered : (c : ℕ) → positive c ≡ true → sub_u64 c 1 ≡ c - 1
lowered c pos = ground (arith, pos)

raised : (c : ℕ) → positive c ≡ true → sub_u64 (c + 1) 1 ≡ c
raised c pos = ground (arith, pos)

change_one-made :
    (inc : Bool) (p c : ℕ) (refs : Refs)
    → get_elem? refs p ≡ some c
    → positive c ≡ true
    → change_one inc (some p) refs ≡ ok (some (set refs p (step inc c)))
unfolding ref_get refed ref_put
change_one-made true p c refs got pos = rw (got, pos) refl
change_one-made false p c refs got pos = rw (got, pos) (rw (ref_put, got) refl)

change_one-none :
    (inc : Bool) (p c : ℕ) (refs : Refs)
    → get_elem? refs p ≡ some c
    → positive c ≡ false
    → change_one inc (some p) refs ≡ ok none
unfolding ref_get refed ref_put
change_one-none true p c refs got neg = rw (got, neg) refl
change_one-none false p c refs got neg = rw (got, neg) refl

set-same : (xs : List ℕ) (i x : ℕ) → get_elem? xs i ≡ some x → set xs i x ≡ xs
set-same [] i x got = refl
set-same (y ∷ ys) zero x got = ap (λ z. z ∷ ys) (sym (some-injective y x got))
set-same (y ∷ ys) (suc i) x got = ap (λ zs. y ∷ zs) (set-same ys i x got)

change_back-undoes :
    (inc : Bool) (p c : ℕ) (refs : Refs)
    → get_elem? refs p ≡ some (step inc c)
    → positive c ≡ true
    → change_back inc (some p) refs ≡ ok (set refs p (back inc c))
unfolding ref_get ref_put
change_back-undoes true p c refs got pos = rw got (ap (λ z. ok (set refs p z)) (raised c pos))
change_back-undoes false p c refs got pos = elim (Bool-cases (c == 1)) [
  | inl one ↦
      let low : sub_u64 c 1 ≡ 0 = ground (arith, one) in
      rw (got, low, one) (ap ok (sym (set-same refs p 0 (got ∙ ap some low))))
  | inr more ↦
      let still : positive (sub_u64 c 1) ≡ true = ground (arith, lowered c pos, pos, more) in
      rw (got, still, more) (ap (λ z. ok (set refs p z)) (ground (arith, lowered c pos, pos)))
]

-- What the loop does on `k` pages from `p` on; `i` pages went before.
abbrev pub Made : Bool → ℕ → ℕ → ℕ → Refs → Changes → Type 0
Made inc i p k refs (all_made refs') = Moved (step inc) p k refs refs'
Made inc i p k refs (stopped_at d refs') =
    (j : ℕ) × (d ≡ i + j)
    × (j < k)
    × Moved (step inc) p j refs refs'
    × ((c : ℕ) × (get_elem? refs (p + j) ≡ some c) × (positive c ≡ false))

Made-none :
    (inc : Bool) (i p k c : ℕ) (refs : Refs)
    → get_elem? refs p ≡ some c
    → positive c ≡ false
    → Made inc i p (suc k) refs (stopped_at i refs)
Made-none inc i p k c refs got neg =
    let here' : p ≡ p + 0 = omega arith in
    (
      0,
      omega arith,
      omega arith,
      Moved-none (step inc) p refs,
      (c, ap (get_elem? refs) (sym here') ∙ got, neg),
    )

Made-cons :
    (inc : Bool) (i p k c : ℕ) (refs : Refs) (r : Changes)
    → get_elem? refs p ≡ some c
    → p < length refs
    → positive c ≡ true
    → Made inc (i + 1) (p + 1) k (set refs p (step inc c)) r
    → Made inc i p (suc k) refs r
Made-cons inc i p k c refs (all_made refs') got lt pos m =
    Moved-cons (step inc) p k c refs refs' got lt pos m
Made-cons inc i p k c refs (stopped_at d refs') got lt pos (j, e, short, m, (c', got', neg)) =
    let there : p + 1 + j ≡ p + suc j = omega arith in
    (
      suc j,
      omega (arith, e),
      omega arith,
      Moved-cons (step inc) p j c refs refs' got lt pos m,
      (
        c',
        ap (get_elem? refs) (sym there)
            ∙ sym
                (get_elem?-set_ne refs p (p + 1 + j) (step inc c) (λ h. absurd (omega (arith, h))))
            ∙ got',
        neg,
      ),
    )

pub change_pages-Made :
    (inc : Bool) (k i p : ℕ) (cur : Cursor) (refs : Refs)
    → InZone (length refs) cur
    → cursor_page cur ≡ some p
    → p + k ≤ length refs
    → Gives (Made inc i p k refs) (change_pages inc k i cur refs)
unfolding change_pages
change_pages-Made inc zero i p cur refs is at le = Moved-none (step inc) p refs
change_pages-Made inc (suc zero) i p cur refs is at le =
    let (c, got) = get_elem?-some refs p (omega arith) in
    elim (Bool-cases (positive c)) [
      | inr neg ↦ rw (at, change_one-none inc p c refs got neg) (Made-none inc i p 0 c refs got neg)
      | inl pos ↦
          rw (at, change_one-made inc p c refs got pos)
            (Moved-cons (step inc) p 0 c refs (set refs p (step inc c)) got (omega arith) pos
              (Moved-none (step inc) (p + 1) (set refs p (step inc c))))
    ]
change_pages-Made inc (suc (suc k)) i p cur refs is at le =
    let (c, got) = get_elem?-some refs p (omega arith) in
    let (cur', next) = cursor_next-some cur is at (omega arith) in
    let (is', at') = cursor_next-Follows is at next in
    let refs' : Refs = set refs p (step inc c) in
    elim (Bool-cases (positive c)) [
      | inr neg ↦
          rw (at, change_one-none inc p c refs got neg) (Made-none inc i p (suc k) c refs got neg)
      | inl pos ↦
          rw (at, change_one-made inc p c refs got pos, next)
            (Gives-map (Made inc (i + 1) (p + 1) (suc k) refs') (Made inc i p (suc (suc k)) refs)
              (change_pages inc (suc k) (i + 1) cur' refs')
              (λ r m. Made-cons inc i p (suc k) c refs r got (omega arith) pos m)
              (change_pages-Made inc (suc k) (i + 1) (p + 1) cur' refs'
                (subst (λ l. InZone l cur') (sym (length-set refs p (step inc c))) is') at'
                (omega (arith, length-set refs p (step inc c)))))
    ]

pub unroll-Moved :
    (inc : Bool) (k p : ℕ) (cur : Cursor) (refs refs' : Refs)
    → InZone (length refs) cur
    → cursor_page cur ≡ some p
    → p + k ≤ length refs
    → Moved (step inc) p k refs refs'
    → Gives (Moved (back inc) p k refs) (unroll inc k cur refs')
unfolding unroll
unroll-Moved inc zero p cur refs refs' is at le m = record {
  inside = λ q c lo hi got. absurd (omega arith);
  outside = m.outside;
  same_length = m.same_length;
}
unroll-Moved inc (suc zero) p cur refs refs' is at le m =
    let (c, got) = get_elem?-some refs p (omega arith) in
    let (pos, here') = m.inside p c (omega arith) (omega arith) got in
    let r = Moved-rest (step inc) p 0 (back inc c) refs refs' (omega arith) m in
    rw (at, change_back-undoes inc p c refs' here' pos)
      (Moved-cons (back inc) p 0 c refs (set refs' p (back inc c)) got (omega arith) pos (record {
        inside = λ q c' lo hi got'. absurd (omega arith);
        outside = r.outside;
        same_length = r.same_length;
      }))
unroll-Moved inc (suc (suc k)) p cur refs refs' is at le m =
    let (c, got) = get_elem?-some refs p (omega arith) in
    let (pos, here') = m.inside p c (omega arith) (omega arith) got in
    let (cur', next) = cursor_next-some cur is at (omega arith) in
    let (is', at') = cursor_next-Follows is at next in
    let len = length-set refs p (back inc c) in
    rw (at, change_back-undoes inc p c refs' here' pos, next)
      (Gives-map (Moved (back inc) (p + 1) (suc k) (set refs p (back inc c)))
        (Moved (back inc) p (suc (suc k)) refs) (unroll inc (suc k) cur' (set refs' p (back inc c)))
        (λ out m'. Moved-cons (back inc) p (suc k) c refs out got (omega arith) pos m')
        (unroll-Moved inc (suc k) (p + 1) cur' (set refs p (back inc c)) (set refs' p (back inc c))
          (subst (λ l. InZone l cur') (sym len) is') at' (omega (arith, len))
          (Moved-rest (step inc) p (suc k) (back inc c) refs refs' (omega arith) m)))
