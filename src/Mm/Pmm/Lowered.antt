-- ===== src/Mm/Pmm/Lowered.antt =====
-- Ranges of a zone's counts of references, each lowered by one.
use native.Mathlib.Decide.{ℕ_discrete}
use mathlib.Core.Option.{some-injective}
use rendezv_os.Base.{
  ℕ, suc, ◌+◌, ◌≤◌, ◌<◌, ◌≡◌, refl, ap, sym, ◌∙◌, some, ◌⊎◌, inl, get_elem?, set, length,
  length-set, get_elem?-set_self, get_elem?-set_ne, arith,
}
use rendezv_os.Mm.Pmm.{Refs, sub_u64}
use rendezv_os.Mm.Pmm.Marks.{apart, distinct}

-- Each of the `k` pages from `p` on has one reference less.
pub record Lowered (p k : ℕ) (refs refs' : Refs) : Type 0 where
  pub inside :
      (q c : ℕ)
      → p ≤ q
      → q < p + k
      → get_elem? refs q ≡ some c
      → get_elem? refs' q ≡ some (sub_u64 c 1)
  pub outside : (q : ℕ) → (q < p) ⊎ (p + k ≤ q) → get_elem? refs' q ≡ get_elem? refs q
  pub same_length : length refs' ≡ length refs

pub Lowered-none : (p : ℕ) (refs : Refs) → Lowered p 0 refs refs
Lowered-none p refs = record {
  inside = λ q c lo hi. absurd (omega arith);
  outside = λ q out. refl;
  same_length = refl;
}

pub Lowered-cons :
    (p k c : ℕ) (refs refs' : Refs)
    → get_elem? refs p ≡ some c
    → p < length refs
    → Lowered (p + 1) k (set refs p (sub_u64 c 1)) refs'
    → Lowered p (suc k) refs refs'
Lowered-cons p k c refs refs' got lt l = record {
  inside = λ q c' lo hi got'. elim (ℕ_discrete q p) [
    | yes e ↦
        let here' : sub_u64 c 1 ≡ sub_u64 c' 1 =
          ap (λ z. sub_u64 z 1)
            (some-injective c c' (sym got ∙ ap (get_elem? refs) (sym e) ∙ got')) in
        ap (get_elem? refs') e
        ∙ l.outside p (inl (omega arith))
        ∙ get_elem?-set_self refs p (sub_u64 c 1) lt
        ∙ ap some here'
    | no ne ↦
        l.inside q c' (omega arith) (omega arith)
          (get_elem?-set_ne refs p q (sub_u64 c 1) (λ e. ne (sym e)) ∙ got')
  ];
  outside = λ q out.
      l.outside q (apart p k q out) ∙ get_elem?-set_ne refs p q (sub_u64 c 1) (distinct p k q out);
  same_length = l.same_length ∙ length-set refs p (sub_u64 c 1);
}
