-- ===== src/Registry/NameIndex/Sound.antt =====
-- What `name_index_search` of kernel/registry/name_index.c finds.
use mathlib.Core.Option.{some-injective}
use rendezv_os.Base.{
  ==_iff, take, [], ◌∷◌, ℕ, zero, suc, ◌+◌, ◌≡◌, ◌≢◌, refl, ap, sym, ◌∙◌, Bool, Bool-cases, true,
  false, ◌&&◌, ◌==◌, ltb, Option, none, some, List, if◌then◌else◌, get_elem?, inl, inr, arith,
  subst,
}
use rendezv_os.Base.{ok, ◌>>=◌, access, ok_injective}
use rendezv_os.Base.Returns.{Returns, Returns-bind, Returns-ok, access-some}
use rendezv_os.Registry.NameIndex.{
  Row, Bucket, empty, tomb, row, NameIndex, hash_name, same_name, bucket_at,
}
use rendezv_os.Registry.NameIndex.Table.{in_use, name_of}
use rendezv_os.Registry.NameIndex.Search.{has_name, row_matches, find_from, ht_find_bucket, search}

matched :
    (t : Bool) (found : Option Row) (f : Row → Bool)
    → (if t then (access found >>= λ (r : Row). ok (f r)) else ok false) ≡ ok true
    → (r : Row) × (t ≡ true) × (found ≡ some r) × (f r ≡ true)
matched true (some r) f e = (r, refl, refl, ok_injective e)
matched true none f e = absurd (ground (arith, e))
matched false found f e = absurd (ground (arith, e))

pub and_left : (a b : Bool) → (a && b) ≡ true → a ≡ true
and_left true b e = refl
and_left false b e = e

and_right : (a b : Bool) → (a && b) ≡ true → b ≡ true
and_right true b e = e
and_right false b e = absurd (ground (arith, e))

in_use-used : (r : Row) → in_use r ≡ true → r.used ≡ 1
in_use-used r e = ground (arith, e)

same_name-take-suc :
    (cs bs : List ℕ) (n : ℕ) → same_name cs bs n ≡ true → take (suc n) cs ≡ take (suc n) bs
unfolding same_name
same_name-take-suc [] [] n e = refl
same_name-take-suc [] (b ∷ bs) n e = absurd (ground (arith, e))
same_name-take-suc (a ∷ cs) [] n e = absurd (ground (arith, e))
same_name-take-suc (a ∷ cs) (b ∷ bs) zero e = rw ((==_iff a b).0 e) refl
same_name-take-suc (a ∷ cs) (b ∷ bs) (suc n) e =
    next (a == b) refl e (λ rest. same_name-take-suc cs bs n rest)
  where
    next :
        (t : Bool)
        → (a == b) ≡ t
        → (if t then same_name cs bs n else false) ≡ true
        → (same_name cs bs n ≡ true → take (suc n) cs ≡ take (suc n) bs)
        → take (suc (suc n)) (a ∷ cs) ≡ take (suc (suc n)) (b ∷ bs)
    next true same e' rest = rw ((==_iff a b).0 same) (ap (λ l. b ∷ l) (rest e'))
    next false other e' rest = absurd (ground (arith, e'))

-- Names that compare as equal agree in the bytes that are compared.
same_name-take :
    (xs ys : List ℕ) (n : ℕ) → same_name xs ys n ≡ true → take (n + 1) xs ≡ take (n + 1) ys
same_name-take xs ys n e =
    let next : suc n ≡ n + 1 = omega arith in
    subst (λ z. take z xs ≡ take z ys) next (same_name-take-suc xs ys n e)

module _ (get_name : Option (ℕ → Option (List ℕ))) (idx : NameIndex) (name : List ℕ) where
  -- A row that is in use under the name.
  abbrev pub Names : ℕ → Row → Type 0
  Names i r =
      (ltb i (idx.row_cap) ≡ true)
      × (get_elem? (idx.rows) i ≡ some r)
      × (has_name get_name idx name r ≡ true)

  abbrev Found : Option (ℕ × ℕ) → Type 0
  Found none = Unit
  Found (some p) = (get_elem? (idx.ht) (p.0) ≡ some (row (p.1))) × ((r : Row) × Names (p.1) r)

  match_found : (r : ℕ) → row_matches get_name idx name (row r) ≡ ok true → (q : Row) × Names r q
  match_found r m =
      let (q, below, at, named) =
        matched (ltb r (idx.row_cap)) (get_elem? (idx.rows) r) (has_name get_name idx name) m in
      (q, (below, at, named))

  find_from-Found : (n probe h : ℕ) → Returns Found (find_from get_name n probe idx h name)
  unfolding find_from
  find_from-Found zero probe h = tt
  find_from-Found (suc n) probe h =
      Returns-bind Found (access (get_elem? (idx.ht) (bucket_at h probe (idx.ht_mask)))) _
        (λ cur got.
          Returns-bind Found (row_matches get_name idx name cur) _
            (λ found m. decide cur found (access-some _ got) m (find_from-Found n (probe + 1) h)))
    where
      decide :
          (cur : Bucket) (found : Bool)
          → get_elem? (idx.ht) (bucket_at h probe (idx.ht_mask)) ≡ some cur
          → row_matches get_name idx name cur ≡ ok found
          → Returns Found (find_from get_name n (probe + 1) idx h name)
          → Returns Found (elim cur [
            | empty ↦ ok none
            | tomb ↦ find_from get_name n (probe + 1) idx h name
            | row r ↦ elim found [
              | true ↦ ok (some (bucket_at h probe (idx.ht_mask), r))
              | false ↦ find_from get_name n (probe + 1) idx h name
            ]
          ])
      decide empty found got m rest = tt
      decide tomb found got m rest = rest
      decide (row r) false got m rest = rest
      decide (row r) true got m rest = (got, match_found r m)

  ht_find_bucket-Found : Returns Found (ht_find_bucket get_name idx name)
  unfolding ht_find_bucket
  ht_find_bucket-Found = elim (Bool-cases (idx.ht_cap == 0)) [
    | inl e ↦ rw e tt
    | inr e ↦ rw e (find_from-Found (idx.ht_cap) 0 (hash_name (idx.name_len_max) (some name)))
  ]

  -- What `search` leaves: no value, or one that is in use under the name.
  abbrev pub Searched : ℕ × ℕ → Type 0
  Searched p = p.0 ≢ 0 → (r : Row) × Names (p.1) r × (r.storage ≡ p.0)

  in_row :
      (i : ℕ) (r q : Row) → Names i r → get_elem? (idx.rows) i ≡ some q → Searched (q.storage, i)
  in_row i r q (below, at, named) got found = (
    q,
    (
      below,
      got,
      subst (λ z. has_name get_name idx name z ≡ true) (some-injective r q (sym at ∙ got)) named,
    ),
    refl,
  )

  pub search-Searched : Returns Searched (search get_name idx (some name))
  unfolding search ht_find_bucket
  search-Searched =
      Returns-bind Searched (ht_find_bucket get_name idx name) _
        (λ found run. after found (Returns-ok Found ht_find_bucket-Found run))
    where
      after :
          (found : Option (ℕ × ℕ))
          → Found found
          → Returns Searched (elim found [
            | none ↦ ok (0, 0)
            | some p ↦ access (get_elem? (idx.rows) (p.1)) >>= λ (r : Row). ok (r.storage, p.1)
          ])
      after none all = λ ne. absurd (ne refl)
      after (some p) (there, (r, names)) =
          Returns-bind Searched (access (get_elem? (idx.rows) (p.1))) _
            (λ q got ne. in_row (p.1) r q names (access-some _ got) ne)

  -- A row that is in use under the name: its value's name, cut after one byte more than the greatest length,
  -- is the name cut there.
  abbrev pub Named : ℕ → Row → Type 0
  Named v r =
      (r.used ≡ 1)
      × (r.storage ≡ v)
      × ((f : ℕ → Option (List ℕ)) × (row_name : List ℕ) × (get_name ≡ some f)
          × (f v ≡ some row_name)
          × (take (idx.name_len_max + 1) row_name ≡ take (idx.name_len_max + 1) name))

  has_name-Named : (r : Row) → has_name get_name idx name r ≡ true → Named (r.storage) r
  has_name-Named r named = (
    in_use-used r (and_left (in_use r) _ named),
    refl,
    by_name get_name refl (and_right (in_use r) _ named),
  )
    where
      by_name :
          (g : Option (ℕ → Option (List ℕ)))
          → get_name ≡ g
          → (elim (name_of g (r.storage)) [
            | none ↦ false
            | some row_name ↦ same_name row_name name (idx.name_len_max)
          ])
            ≡ true
          → (f : ℕ → Option (List ℕ)) × (row_name : List ℕ) × (get_name ≡ some f)
            × (f (r.storage) ≡ some row_name)
            × (take (idx.name_len_max + 1) row_name ≡ take (idx.name_len_max + 1) name)
      by_name none e same = absurd (ground (arith, same))
      by_name (some f) e same = with_name (f (r.storage)) refl same
        where
          with_name :
              (o : Option (List ℕ))
              → f (r.storage) ≡ o
              → (elim o [
                | none ↦ false
                | some row_name ↦ same_name row_name name (idx.name_len_max)
              ])
                ≡ true
              → (f' : ℕ → Option (List ℕ)) × (row_name : List ℕ) × (get_name ≡ some f')
                × (f' (r.storage) ≡ some row_name)
                × (take (idx.name_len_max + 1) row_name ≡ take (idx.name_len_max + 1) name)
          with_name none e' same' = absurd (ground (arith, same'))
          with_name (some row_name) e' same' =
              (f, row_name, e, e', same_name-take row_name name (idx.name_len_max) same')

  -- A value that is not NULL and that `name_index_search` returns is that of a row in use, at the index that
  -- it returns, and the value has a name that agrees with the one searched for in every byte up to one past the
  -- greatest length: both are equal, or both are longer than that.
  pub search-Named :
      {v i : ℕ}
      → search get_name idx (some name) ≡ ok (v, i)
      → v ≢ 0
      → (r : Row) × (get_elem? (idx.rows) i ≡ some r) × Named v r
  search-Named run ne =
      let (r, (below, at, named), is) = Returns-ok Searched search-Searched run ne in
      (r, at, subst (λ v. Named v r) is (has_name-Named r named))
