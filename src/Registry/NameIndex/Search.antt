-- ===== src/Registry/NameIndex/Search.antt =====
-- kernel/registry/name_index.c: finding a value by its name or by a token.
use rendezv_os.Base.{
  ℕ, zero, suc, ◌+◌, ◌%◌, ◌^◌, Bool, true, false, ◌&&◌, ◌||◌, ◌==◌, leb, ltb, Option, none, some,
  List, if◌then◌else◌, get_elem?,
}
use rendezv_os.Base.{Result, ok, ◌>>=◌, access}
use rendezv_os.Registry.NameIndex.{
  row_index_invalid, Row, Bucket, empty, tomb, row, NameIndex, Token, Hooks, hash_name, same_name,
  bucket_at,
}
use rendezv_os.Registry.NameIndex.Table.{in_use, name_of}

-- The probe of `name_index_ht_find_bucket`: the bucket and its row. A row counts if it is in use and
-- its value has the name.
module _ (get_name : Option (ℕ → Option (List ℕ))) where
  abbrev pub has_name : NameIndex → List ℕ → Row → Bool
  has_name idx name r = in_use r && elim (name_of get_name (r.storage)) [
    | none ↦ false
    | some row_name ↦ same_name row_name name (idx.name_len_max)
  ]

  abbrev pub row_matches : NameIndex → List ℕ → Bucket → Result Bool
  row_matches idx name (row r) =
      if ltb r (idx.row_cap)
      then (access (get_elem? (idx.rows) r) >>= λ (found : Row). ok (has_name idx name found))
      else ok false
  row_matches idx name b = ok false

  unfoldable pub find_from : ℕ → ℕ → NameIndex → ℕ → List ℕ → Result (Option (ℕ × ℕ))
  find_from zero probe idx h name = ok none
  find_from (suc n) probe idx h name = do
    cur ← access (get_elem? (idx.ht) (bucket_at h probe (idx.ht_mask)))
    found ← row_matches idx name cur
    elim cur [
      | empty ↦ ok none
      | tomb ↦ find_from n (probe + 1) idx h name
      | row r ↦ elim found [
        | true ↦ ok (some (bucket_at h probe (idx.ht_mask), r))
        | false ↦ find_from n (probe + 1) idx h name
      ]
    ]

  unfoldable pub ht_find_bucket : NameIndex → List ℕ → Result (Option (ℕ × ℕ))
  ht_find_bucket idx name =
      if idx.ht_cap == 0
      then ok none
      else find_from (idx.ht_cap) 0 idx (hash_name (idx.name_len_max) (some name)) name

  -- The value, which is 0 if nothing is found, and its row.
  unfoldable pub search : NameIndex → Option (List ℕ) → Result (ℕ × ℕ)
  search idx none = ok (0, 0)
  search idx (some name) = do
    found ← ht_find_bucket idx name
    elim found [
      | none ↦ ok (0, 0)
      | some p ↦ access (get_elem? (idx.rows) (p.1)) >>= λ (r : Row). ok (r.storage, p.1)
    ]

module _ {W : Type 0} where
  -- `if (idx->hold && !idx->hold(v)) return NULL; return v;`
  abbrev pub held : Option (ℕ → W → Bool × W) → ℕ → W → ℕ × W
  held none v w = (v, w)
  held (some f) v w = (if (f v w).0 then v else 0, (f v w).1)

module _ {W : Type 0} (hooks : Hooks W) where
  -- The value with its token. The token is written before `hold` is asked.
  unfoldable pub lookup : NameIndex → Option (List ℕ) → W → Result (ℕ × Option Token × W)
  lookup idx name w = search (hooks.get_name) idx name >>= λ (p : ℕ × ℕ).
      if p.0 == 0
      then ok (0, none, w)
      else access (get_elem? (idx.rows) (p.1)) >>= λ (r : Row).
          if r.used == 1
          then (let (v, w') = held (hooks.hold) (p.0) w in
              ok (v, some (record { row_index = p.1 % 2 ^ 32; row_gen = r.gen % 2 ^ 16 }), w'))
          else ok (0, none, w)

  unfoldable pub resolve : NameIndex → Option Token → Option (List ℕ) → W → Result (ℕ × W)
  resolve idx none name w = ok (0, w)
  resolve idx (some tok) none w = ok (0, w)
  resolve idx (some tok) (some name) w =
      if tok.row_index == row_index_invalid || leb (idx.row_cap) (tok.row_index)
      then ok (0, w)
      else access (get_elem? (idx.rows) (tok.row_index)) >>= λ (r : Row).
          if in_use r && (r.gen % 2 ^ 16 == tok.row_gen) && has_name (hooks.get_name) idx name r
          then ok (held (hooks.hold) (r.storage) w)
          else ok (0, w)
