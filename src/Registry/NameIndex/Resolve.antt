-- ===== src/Registry/NameIndex/Resolve.antt =====
-- The token of a lookup in kernel/registry/name_index.c, and what it resolves to.
use mathlib.Core.Option.{some-injective}
use rendezv_os.Base.{
  ◌⊎◌, ℕ, ◌%◌, ◌^◌, ◌<◌, ◌≡◌, ◌≢◌, refl, ap, sym, ◌∙◌, Bool, Bool-cases, true, false, ◌&&◌, ◌||◌,
  ==-refl, ◌==◌, leb, Option, none, some, List, if◌then◌else◌, get_elem?, inl, inr, arith, subst,
}
use rendezv_os.Base.{ok, access}
use rendezv_os.Base.Returns.{Returns, Returns-bind, Returns-ok, access-some}
use rendezv_os.Registry.NameIndex.{Row, NameIndex, Token, Hooks, row_index_invalid}
use rendezv_os.Registry.NameIndex.Table.{in_use}
use rendezv_os.Registry.NameIndex.Search.{has_name, search, held, lookup, resolve}
use rendezv_os.Registry.NameIndex.Sound.{and_left, Names, Searched, search-Searched}

and_three : (a b c : Bool) → a ≡ true → b ≡ true → c ≡ true → (a && b && c) ≡ true
and_three a b c p q r = rw (p, q, r)

held-value :
    {W : Type 0} (hold : Option (ℕ → W → Bool × W)) (v : ℕ) (w : W)
    → (held hold v w).0 ≢ 0
    → (held hold v w).0 ≡ v
held-value none v w ne = refl
held-value (some f) v w ne = elim (Bool-cases ((f v w).0)) [
  | inl e ↦ rw e
  | inr e ↦ absurd (ne (rw e))
]

-- What `hold` answers about a value: it is held, or there is none. Without a hook it is just the value.
abbrev pub Asked : {W : Type 0} → Option (ℕ → W → Bool × W) → ℕ → W → ℕ × W → Type 0
Asked none v w p = (p.0 ≡ v) × (p.1 ≡ w)
Asked (some f) v w p = ((f v w ≡ (true, p.1)) × (p.0 ≡ v)) ⊎ ((f v w ≡ (false, p.1)) × (p.0 ≡ 0))

held-Asked :
    {W : Type 0} (hold : Option (ℕ → W → Bool × W)) (v : ℕ) (w : W) → Asked hold v w (held hold v w)
held-Asked none v w = (refl, refl)
held-Asked {W = W} (some f) v w = go (f v w) refl
  where
    go :
        (r : Bool × W)
        → f v w ≡ r
        → ((f v w ≡ (true, r.1)) × ((if r.0 then v else 0) ≡ v))
          ⊎ ((f v w ≡ (false, r.1)) × ((if r.0 then v else 0) ≡ 0))
    go (true, w') e = inl (e, refl)
    go (false, w') e = inr (e, refl)

module _ {W : Type 0} (hooks : Hooks W) (idx : NameIndex) (name : List ℕ)
    (narrow : idx.row_cap < 2 ^ 32) where
  abbrev token_of : ℕ → Row → Token
  token_of i r = record { row_index = i % 2 ^ 32; row_gen = r.gen % 2 ^ 16 }

  resolves :
      (i : ℕ) (r : Row) (w : W)
      → Names (hooks.get_name) idx name i r
      → resolve hooks idx (some (token_of i r)) (some name) w ≡ ok (held (hooks.hold) (r.storage) w)
  unfolding resolve
  resolves i r w (below, at, named) =
      let small : i < idx.row_cap = ground (arith, below) in
      let same : i % 2 ^ 32 ≡ i = omega arith in
      let valid : (i == row_index_invalid || leb (idx.row_cap) i) ≡ false = ground arith in
      rw (
        same,
        valid,
        at,
        and_three (in_use r) (r.gen % 2 ^ 16 == r.gen % 2 ^ 16)
            (has_name (hooks.get_name) idx name r) (and_left (in_use r) _ named)
            (==-refl (r.gen % 2 ^ 16)) named,
      )

  abbrev Looked : ℕ × Option Token × W → Type 0
  Looked (v, none, w') = Unit
  Looked (v, some tok, w') =
      v ≢ 0 → (w : W) → resolve hooks idx (some tok) (some name) w ≡ ok (held (hooks.hold) v w)

  looked :
      (p : ℕ × ℕ) (r : Row) (w : W)
      → ((q : Row) × Names (hooks.get_name) idx name (p.1) q × (q.storage ≡ p.0))
      → get_elem? (idx.rows) (p.1) ≡ some r
      → Looked
          ((held (hooks.hold) (p.0) w).0, some (token_of (p.1) r), (held (hooks.hold) (p.0) w).1)
  looked p r w (q, (below, at, named), is) got ne w' =
      let e : q ≡ r = some-injective q r (sym at ∙ got) in
      rw (held-value (hooks.hold) (p.0) w ne) (
        subst
          (λ v.
            resolve hooks idx (some (token_of (p.1) r)) (some name) w'
            ≡ ok (held (hooks.hold) v w'))
          (sym (ap (λ (z : Row). z.storage) e) ∙ is)
          (resolves (p.1) r w'
            (below, got, subst (λ z. has_name (hooks.get_name) idx name z ≡ true) e named)))

  lookup-Looked : (w : W) → Returns Looked (lookup hooks idx (some name) w)
  unfolding lookup
  lookup-Looked w = Returns-bind Looked (search (hooks.get_name) idx (some name)) _ (λ p run.
      elim (Bool-cases (p.0 == 0)) [
        | inl e ↦ rw e tt
        | inr e ↦ rw e (
            Returns-bind Looked (access (get_elem? (idx.rows) (p.1))) _ (λ r got.
              elim (Bool-cases (r.used == 1)) [
                | inl u ↦ rw u (
                    looked p r w
                      (Returns-ok (Searched (hooks.get_name) idx name)
                        (search-Searched (hooks.get_name) idx name) run
                        (λ z. absurd (ground (arith, e, z))))
                      (access-some _ got))
                | inr u ↦ rw u tt
              ]))
      ])

  -- If a lookup returns a value that is not NULL and its token, then in the same index, of fewer than 2^32
  -- rows, the token resolves under the same name: `hold` is asked once about that value, and the result is
  -- the value if it agrees and NULL if it refuses. Without the hook it is the value.
  pub resolve-lookup :
      {v : ℕ} {tok : Token} (w : W) {w' : W} (w'' : W)
      → lookup hooks idx (some name) w ≡ ok (v, some tok, w')
      → v ≢ 0
      → (p : ℕ × W) × (resolve hooks idx (some tok) (some name) w'' ≡ ok p)
        × Asked (hooks.hold) v w'' p
  resolve-lookup {v} w w'' run ne = (
    held (hooks.hold) v w'',
    Returns-ok Looked (lookup-Looked w) run ne w'',
    held-Asked (hooks.hold) v w'',
  )
