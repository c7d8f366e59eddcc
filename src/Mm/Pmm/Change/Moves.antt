-- ===== src/Mm/Pmm/Change/Moves.antt =====
-- Ranges of counts that a function of the count replaces.
use native.Mathlib.Decide.{ℕ_discrete, dec_le}
use mathlib.Core.Option.{some-injective}
use rendezv_os.Base.{
  ℕ, suc, ◌+◌, ◌≤◌, ◌<◌, ◌≡◌, ◌≢◌, refl, ap, sym, ◌∙◌, subst, true, some, ◌⊎◌, inl, inr, get_elem?,
  set, length, length-set, get_elem?-some, get_elem?-set_self, get_elem?-set_ne, arith,
}
use rendezv_os.Mm.Pmm.{Refs, positive}
use rendezv_os.Mm.Pmm.Marks.{apart, distinct, refs_ext}

-- The `k` pages from `p` on had positive counts, which `f` replaces; the others keep theirs.
pub record Moved (f : ℕ → ℕ) (p k : ℕ) (refs refs' : Refs) : Type 0 where
  pub inside :
      (q c : ℕ)
      → p ≤ q
      → q < p + k
      → get_elem? refs q ≡ some c
      → (positive c ≡ true) × (get_elem? refs' q ≡ some (f c))
  pub outside : (q : ℕ) → (q < p) ⊎ (p + k ≤ q) → get_elem? refs' q ≡ get_elem? refs q
  pub same_length : length refs' ≡ length refs

pub Moved-none : (f : ℕ → ℕ) (p : ℕ) (refs : Refs) → Moved f p 0 refs refs
Moved-none f p refs = record {
  inside = λ q c lo hi got. absurd (omega arith);
  outside = λ q out. refl;
  same_length = refl;
}

pub Moved-cons :
    (f : ℕ → ℕ) (p k c : ℕ) (refs refs' : Refs)
    → get_elem? refs p ≡ some c
    → p < length refs
    → positive c ≡ true
    → Moved f (p + 1) k (set refs p (f c)) refs'
    → Moved f p (suc k) refs refs'
Moved-cons f p k c refs refs' got lt pos m = record {
  inside = λ q c' lo hi got'. elim (ℕ_discrete q p) [
    | yes e ↦
        let same : c ≡ c' = some-injective c c' (sym got ∙ ap (get_elem? refs) (sym e) ∙ got') in
        (
          subst (λ z. positive z ≡ true) same pos,
          ap (get_elem? refs') e
              ∙ m.outside p (inl (omega arith))
              ∙ get_elem?-set_self refs p (f c) lt
              ∙ ap (λ z. some (f z)) same,
        )
    | no ne ↦
        m.inside q c' (omega arith) (omega arith)
          (get_elem?-set_ne refs p q (f c) (λ e. ne (sym e)) ∙ got')
  ];
  outside =
      λ q out. m.outside q (apart p k q out) ∙ get_elem?-set_ne refs p q (f c) (distinct p k q out);
  same_length = m.same_length ∙ length-set refs p (f c);
}

-- The first page may be changed in the old and in the new counts.
pub Moved-rest :
    (f : ℕ → ℕ) (p k x : ℕ) (refs refs' : Refs)
    → p < length refs
    → Moved f p (suc k) refs refs'
    → Moved f (p + 1) k (set refs p x) (set refs' p x)
Moved-rest f p k x refs refs' lt m = record {
  inside = λ q c lo hi got.
      let ne : p ≢ q = λ e. absurd (omega (arith, e)) in
      let (pos, here') =
        m.inside q c (omega arith) (omega arith) (sym (get_elem?-set_ne refs p q x ne) ∙ got) in
      (pos, get_elem?-set_ne refs' p q x ne ∙ here');
  outside = λ q out. elim (ℕ_discrete q p) [
    | yes e ↦
        ap (get_elem? (set refs' p x)) e
        ∙ get_elem?-set_self refs' p x (omega (arith, m.same_length))
        ∙ sym (get_elem?-set_self refs p x lt)
        ∙ ap (get_elem? (set refs p x)) (sym e)
    | no ne ↦
        get_elem?-set_ne refs' p q x (λ e. ne (sym e))
        ∙ m.outside q (beyond q out ne)
        ∙ sym (get_elem?-set_ne refs p q x (λ e. ne (sym e)))
  ];
  same_length = length-set refs' p x ∙ m.same_length ∙ sym (length-set refs p x);
}
  where
    beyond : (q : ℕ) → (q < p + 1) ⊎ (p + 1 + k ≤ q) → q ≢ p → (q < p) ⊎ (p + suc k ≤ q)
    beyond q (inl below) ne = inl (omega (arith, ne))
    beyond q (inr above) ne = inr (omega arith)

-- Counts that are replaced by themselves.
pub Moved-same :
    (p k : ℕ) (refs refs' : Refs)
    → p + k ≤ length refs
    → Moved (λ c. c) p k refs refs'
    → refs' ≡ refs
Moved-same p k refs refs' le m = refs_ext refs' refs (m.same_length) (λ q. elim (dec_le p q) [
  | no below ↦ m.outside q (inl (omega arith))
  | yes from ↦ elim (dec_le (p + k) q) [
    | yes above ↦ m.outside q (inr above)
    | no under ↦
        let (c, got) = get_elem?-some refs q (omega arith) in
        (m.inside q c from (omega arith) got).1 ∙ sym got
  ]
])
