-- ===== src/Mm/Pmm/Marks.antt =====
-- Ranges of a zone's counts of references.
use mathlib.Core.Option.{some-injective}
use native.Mathlib.Decide.{ℕ_discrete, dec_le}
use rendezv_os.Base.{
  subst, ℕ, suc, ◌+◌, ◌≤◌, ◌<◌, ◌≡◌, ◌≢◌, refl, ap, sym, ◌∙◌, some, List, [], ◌∷◌, ◌⊎◌, inl, inr,
  get_elem?, set, length, length-set, get_elem?-set_self, get_elem?-set_ne, arith,
}
use rendezv_os.Mm.Pmm.{Refs}

-- The pages from `p` on, `k` of them, have the count `v`.
abbrev pub AllAre : ℕ → ℕ → ℕ → Refs → Type 0
AllAre p k v refs = (q : ℕ) → p ≤ q → q < p + k → get_elem? refs q ≡ some v

-- They have it after a change of these pages only.
pub record Marked (p k v : ℕ) (refs refs' : Refs) : Type 0 where
  pub inside : AllAre p k v refs'
  pub outside : (q : ℕ) → (q < p) ⊎ (p + k ≤ q) → get_elem? refs' q ≡ get_elem? refs q
  pub same_length : length refs' ≡ length refs

-- Outside a range is apart from its first page.
pub apart : (p k q : ℕ) → (q < p) ⊎ (p + suc k ≤ q) → (q < p + 1) ⊎ (p + 1 + k ≤ q)
apart p k q (inl below) = inl (omega arith)
apart p k q (inr above) = inr (omega arith)

pub distinct : (p k q : ℕ) → (q < p) ⊎ (p + suc k ≤ q) → p ≢ q
distinct p k q (inl below) e = absurd (omega arith)
distinct p k q (inr above) e = absurd (omega arith)

pub Marked-none : (p v : ℕ) (refs : Refs) → Marked p 0 v refs refs
Marked-none p v refs = record {
  inside = λ q lo hi. absurd (omega arith);
  outside = λ q out. refl;
  same_length = refl;
}

-- One more page, before the others.
pub Marked-cons :
    {p k v : ℕ} {refs refs' : Refs}
    → p < length refs
    → Marked (p + 1) k v (set refs p v) refs'
    → Marked p (suc k) v refs refs'
Marked-cons {p} {k} {v} {refs} {refs'} lt m = record {
  inside = λ q lo hi. elim (ℕ_discrete q p) [
    | yes e ↦
        subst (λ z. get_elem? refs' z ≡ some v) (sym e)
          (m.outside p (inl (omega arith)) ∙ get_elem?-set_self refs p v lt)
    | no ne ↦ m.inside q (omega arith) (omega arith)
  ];
  outside =
      λ q out. m.outside q (apart p k q out) ∙ get_elem?-set_ne refs p q v (distinct p k q out);
  same_length = m.same_length ∙ length-set refs p v;
}

-- Lists with the same elements.
pub refs_ext :
    (xs ys : List ℕ) → length xs ≡ length ys → ((q : ℕ) → get_elem? xs q ≡ get_elem? ys q) → xs ≡ ys
refs_ext [] [] len same = refl
refs_ext [] (y ∷ ys) len same = absurd (omega (arith, len))
refs_ext (x ∷ xs) [] len same = absurd (omega (arith, len))
refs_ext (x ∷ xs) (y ∷ ys) len same =
    ap (λ z. z ∷ xs) (some-injective x y (same 0))
    ∙ ap (λ zs. y ∷ zs) (refs_ext xs ys (omega (arith, len)) (λ q. same (suc q)))

-- Marking and marking back.
pub Marked-back :
    {p k v w : ℕ} {refs refs' refs'' : Refs}
    → AllAre p k w refs
    → Marked p k v refs refs'
    → Marked p k w refs' refs''
    → refs'' ≡ refs
Marked-back {p} {k} {refs = refs} {refs'' = refs''} before m m' =
    refs_ext refs'' refs (m'.same_length ∙ m.same_length) (λ q. elim (dec_le p q) [
      | no below ↦ m'.outside q (inl (omega arith)) ∙ m.outside q (inl (omega arith))
      | yes from ↦ elim (dec_le (p + k) q) [
        | yes above ↦ m'.outside q (inr above) ∙ m.outside q (inr above)
        | no under ↦ m'.inside q from (omega arith) ∙ sym (before q from (omega arith))
      ]
    ])
