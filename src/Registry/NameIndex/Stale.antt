-- ===== src/Registry/NameIndex/Stale.antt =====
-- Tokens of kernel/registry/name_index.c after the row they name was given back.
use rendezv_os.Base.{
  ℕ, ◌%◌, ◌^◌, ◌<◌, ◌≡◌, ◌≢◌, refl, ap, ◌∙◌, Bool, Bool-cases, true, false, leb, ◌==◌, ◌&&◌, ◌||◌,
  Option, none, some, List, get_elem?, length-set, get_elem?-set_self, inl, inr, arith,
}
use rendezv_os.Base.{ok, access}
use rendezv_os.Base.Memory.{gt→leb}
use rendezv_os.Base.Returns.{
  Returns, Returns-bind, Returns-ok, Gives, Gives-bind, Gives-ok, Gives-if,
}
use rendezv_os.Kalloc.{Answers}
use rendezv_os.Registry.NameIndex.{Row, NameIndex, Hooks, Token, row_index_invalid}
use rendezv_os.Registry.NameIndex.Table.{in_use, maybe_shrink_ht}
use rendezv_os.Registry.NameIndex.Search.{has_name, resolve}
use rendezv_os.Registry.NameIndex.Calls.{cleared, release, remove_name, unregister}
use rendezv_os.Registry.NameIndex.Keep.{
  SameRows, SameRows-refl, SameRows-trans, ht_remove-SameRows, maybe_shrink_ht-SameRows,
}
use rendezv_os.Registry.NameIndex.RowSpec.{RowFreed, cleared-RowFreed, Called, run_hook-Called}
use rendezv_os.Registry.NameIndex.Total.{IsIndex, Any, access-Gives, ht_remove-IsIndex}
use rendezv_os.Registry.NameIndex.Resize.{maybe_shrink_ht-IsIndex}
use rendezv_os.Registry.NameIndex.Lifecycle.{get_elem?-lt}

module _ {W : Type 0} (hooks : Hooks W) (answers : Answers) where
  remove_name-SameRows :
      (idx : NameIndex) (i : ℕ) (name : Option (List ℕ))
      → Returns (SameRows idx) (remove_name hooks answers idx i name)
  remove_name-SameRows idx i none = SameRows-refl idx
  remove_name-SameRows idx i (some name) = ht_remove-SameRows (hooks.get_name) answers idx i name

  module _ (idx : NameIndex) (i : ℕ) (r : Row) (w : W) where
    abbrev Cleared : NameIndex × W → Type 0
    Cleared p = SameRows (cleared idx i r) (p.0) × Called (hooks.on_unregister) (r.storage) w (p.1)

    cleared-SameRows :
        {mid : NameIndex} → SameRows idx mid → SameRows (cleared idx i r) (cleared mid i r)
    cleared-SameRows same = record {
      same_rows = rw (same.same_rows, same.same_head);
      same_cap = same.same_cap;
      same_head = refl;
      same_live = rw (same.same_live);
      same_len = same.same_len;
    }

    release-Cleared :
        {mid : NameIndex}
        → SameRows idx mid
        → Returns Cleared (release hooks answers mid (r.storage) i r w)
    unfolding release
    release-Cleared {mid} same =
        Returns-bind Cleared (maybe_shrink_ht (hooks.get_name) answers (cleared mid i r)) _
          (λ shrunk run. (
            SameRows-trans (cleared-SameRows same) (
                Returns-ok (SameRows (cleared mid i r))
                  (maybe_shrink_ht-SameRows (hooks.get_name) answers (cleared mid i r)) run),
            run_hook-Called (hooks.on_unregister) (r.storage) w,
          ))

    unregister-Cleared :
        (name : Option (List ℕ))
        → get_elem? (idx.rows) i ≡ some r
        → i < idx.row_cap
        → r.used ≡ 1
        → Returns Cleared (unregister hooks answers idx (r.storage) i name w)
    unfolding unregister
    unregister-Cleared name at below used =
        let mine : (r.used == 1 && (r.storage == r.storage)) ≡ true = ground (arith, used) in
        rw (gt→leb (idx.row_cap) i below, at, mine)
          (Returns-bind Cleared (remove_name hooks answers idx i name) _ (λ mid run.
            release-Cleared (Returns-ok (SameRows idx) (remove_name-SameRows idx i name) run)))

  and_false : (a b c : Bool) → b ≡ false → (a && b && c) ≡ false
  and_false true b c e = rw e
  and_false false b c e = refl

  resolve_other :
      (idx : NameIndex) (tok : Token) (name : Option (List ℕ)) (w : W) {r : Row}
      → get_elem? (idx.rows) (tok.row_index) ≡ some r
      → r.gen % 2 ^ 16 ≢ tok.row_gen
      → resolve hooks idx (some tok) name w ≡ ok (0, w)
  unfolding resolve
  resolve_other idx tok none w at ne = refl
  resolve_other idx tok (some name) w {r} at ne =
      elim (Bool-cases (tok.row_index == row_index_invalid || leb (idx.row_cap) (tok.row_index))) [
        | inl e ↦ rw e
        | inr e ↦ rw (
          e,
          at,
          and_false (in_use r) (r.gen % 2 ^ 16 == tok.row_gen)
              (has_name (hooks.get_name) idx name r) (ground (arith, ne)),
        )
      ]

  dead_token :
      (idx : NameIndex) {idx' : NameIndex} (r : Row) (tok : Token) (name : Option (List ℕ)) (w : W)
      → get_elem? (idx.rows) (tok.row_index) ≡ some r
      → tok.row_gen ≡ r.gen % 2 ^ 16
      → SameRows (cleared idx (tok.row_index) r) idx'
      → resolve hooks idx' (some tok) name w ≡ ok (0, w)
  dead_token idx {idx'} r tok name w at gen same =
      resolve_other idx' tok name w
        (ap (λ rs. get_elem? rs (tok.row_index)) (same.same_rows)
          ∙ get_elem?-set_self (idx.rows) (tok.row_index) _
              (get_elem?-lt (idx.rows) (tok.row_index) at))
        (λ e. absurd (omega (arith, e, gen)))

  cleared-IsIndex : (idx : NameIndex) (i : ℕ) (r : Row) → IsIndex idx → IsIndex (cleared idx i r)
  cleared-IsIndex idx i r is = record {
    rows_sized = length-set (idx.rows) i _ ∙ is.rows_sized;
    table_sized = is.table_sized;
    mask_below = is.mask_below;
    table_small = is.table_small;
  }

  remove_name-IsIndex :
      (idx : NameIndex) (i : ℕ) (name : Option (List ℕ))
      → IsIndex idx
      → Gives IsIndex (remove_name hooks answers idx i name)
  remove_name-IsIndex idx i none is = is
  remove_name-IsIndex idx i (some name) is = ht_remove-IsIndex idx i name is

  abbrev Whole : NameIndex × W → Type 0
  Whole p = IsIndex (p.0)

  release-IsIndex :
      (idx : NameIndex) (value i : ℕ) (r : Row) (w : W)
      → IsIndex idx
      → Gives Whole (release hooks answers idx value i r w)
  unfolding release
  release-IsIndex idx value i r w is =
      Gives-bind IsIndex Whole (maybe_shrink_ht (hooks.get_name) answers (cleared idx i r)) _
        (maybe_shrink_ht-IsIndex (hooks.get_name) answers (cleared idx i r)
          (cleared-IsIndex idx i r is))
        (λ shrunk left. left)

  pub unregister-IsIndex :
      (idx : NameIndex) (value i : ℕ) (name : Option (List ℕ)) (w : W)
      → IsIndex idx
      → Gives Whole (unregister hooks answers idx value i name w)
  unfolding unregister
  unregister-IsIndex idx value i name w is =
      Gives-if Whole (leb (idx.row_cap) i) _ _ (λ e. is)
        (λ e.
          Gives-bind Any Whole (access (get_elem? (idx.rows) i)) _
            (access-Gives (idx.rows) i (ground (arith, e, is.rows_sized)))
            (λ r any.
              Gives-if Whole (r.used == 1 && (r.storage == value)) _ _
                (λ mine.
                  Gives-bind IsIndex Whole (remove_name hooks answers idx i name) _
                    (remove_name-IsIndex idx i name is)
                    (λ mid left. release-IsIndex mid value i r w left))
                (λ other. is)))

  -- In an index whose arrays have their sizes, `name_index_unregister` of the value of a row in use always
  -- returns, and the arrays still have their sizes. The row is then not in use, has the next generation
  -- (modulo 2^64) and is the head of the free list before the old head; every other row stays, the count of
  -- live rows is one less, and the hook, unless it is NULL, was called once. A token with the index and the
  -- generation (modulo 2^16) that the row had resolves to nothing under any name, and `hold` is not called
  -- for it.
  pub resolve-unregister :
      (idx : NameIndex) (r : Row) (tok : Token) (name : Option (List ℕ)) (w : W)
      → IsIndex idx
      → get_elem? (idx.rows) (tok.row_index) ≡ some r
      → r.used ≡ 1
      → tok.row_gen ≡ r.gen % 2 ^ 16
      → (p : NameIndex × W) × (unregister hooks answers idx (r.storage) (tok.row_index) name w
          ≡ ok p)
        × IsIndex (p.0)
        × RowFreed idx (tok.row_index) r (p.0)
        × Called (hooks.on_unregister) (r.storage) w (p.1)
        × ((name' : Option (List ℕ)) (w' : W)
            → resolve hooks (p.0) (some tok) name' w' ≡ ok (0, w'))
  resolve-unregister idx r tok name w is at used gen =
      let lt = get_elem?-lt (idx.rows) (tok.row_index) at in
      let below : tok.row_index < idx.row_cap = omega (arith, is.rows_sized, lt) in
      let (p, run, whole) =
        Gives-ok Whole (unregister hooks answers idx (r.storage) (tok.row_index) name w)
          (unregister-IsIndex idx (r.storage) (tok.row_index) name w is) in
      let (same, called) =
        Returns-ok (Cleared idx (tok.row_index) r w)
          (unregister-Cleared idx (tok.row_index) r w name at below used) run in
      (
        p,
        run,
        whole,
        cleared-RowFreed idx (tok.row_index) r lt same,
        called,
        λ name' w'. dead_token idx r tok name' w' at gen same,
      )
