-- ===== src/Mm/PageSlice/InsertPage.antt =====
-- `page_slice_insert_page` of kernel/mm/page_slice.c against an insertion into a map.
use rendezv_os.Base.{
  ℕ, ◌+◌, ◌%◌, ◌^◌, ◌≤◌, ◌<◌, ◌≡◌, ◌≢◌, ◌⊎◌, refl, ap, sym, ◌∙◌, subst, Bool, true, false,
  Bool-cases, leb, Option, none, some, inl, inr, arith, ◌==◌, if◌then◌else◌,
}
use rendezv_os.Base.{ok, ◌>>=◌, access, Error, e_in_param, e_rend_again, e_rend_no_mem}
use rendezv_os.Base.Returns.{Gives, Gives-bind, Gives-map, Gives-if}
use rendezv_os.Base.Bits.{bit_or-pow, bit_and-pow}
use Prim.Native.Nat.{bit_or, bit_and}
use rendezv_os.Kalloc.{Answers}
use rendezv_os.Mm.PageSlice.{
  Entry, is_bound, Slot, entry_height, PageSlice, Store, page_count, required_height, max_byte_size,
  root_is_leaf,
}
use rendezv_os.Mm.PageSlice.Path.{
  bound_only, find_entry, edit_root, Made, raise_height, make_from_root,
}
use rendezv_os.Mm.PageSlice.Api.{
  done, fails, bind_entry, bind_page, with_root, bind_made, make_raised, page_slice_insert_page,
}
use rendezv_os.Mm.PageSlice.Tree.{view}
use rendezv_os.Mm.PageSlice.Heights.{leb-false, max_pages, required_height-le}
use rendezv_os.Mm.PageSlice.Way.{Kept, Way, RootReaches, raise_height-Tall, make_from_root-Way}
use rendezv_os.Mm.PageSlice.Outcomes.{
  unchanged_Same, WfSlice, Same, Put, new_entry, Inserted, refused, no_memory, taken, bound,
}
use rendezv_os.Mm.PageSlice.Insert.{Written, edit_root-Written, find_entry-entry}

-- The entry that is written is bound.
new_entry-bound : (a flags : ℕ) → a ≢ 0 → is_bound (new_entry a flags) ≡ true
new_entry-bound a flags ne =
    let filled : (a == 0) ≡ false = ground (arith, ne) in
    let valid : (bit_and (bit_or flags 1) 1 == 0) ≡ false =
      bit_and-pow (bit_or flags 1) 0 ∙ ap (λ z. z == 0) (bit_or-pow flags 0 0) in
    rw (valid, filled) refl

-- The way that is made does not change what a call leaves.
Kept-Same :
    (ps : PageSlice) (st : Store) (m : Made) (failure : Option Error)
    → WfSlice ps
    → Kept (ps.root) st m
    → Same ps st (record { failure = failure; slice = with_root ps (m.slot); store = m.store })
Kept-Same ps st m failure wf k = record {
  wf = record {
    wf_root = k.wf;
    size_fits = wf.size_fits;
    none_past = λ q lt out. k.same_view q lt ∙ wf.none_past q lt out;
  };
  same_size = refl;
  same_mapped = refl;
  same_view = k.same_view;
  same_released = k.same_released;
}

-- A way that ends at another entry than a bound one: the map has no such page.
Kept-view :
    (q : ℕ) (ps : PageSlice) (st : Store) (m : Made) (e : Entry) (t : Bool)
    → q < max_pages
    → Kept (ps.root) st m
    → bound_only (some e) ≡ view q (m.slot)
    → is_bound e ≡ t
    → view q (ps.root) ≡ (if t then some e else none)
Kept-view q ps st m e t lt k same is =
    sym (k.same_view q lt) ∙ sym same ∙ ap (λ z. if z then some e else none) is

module _ (q a flags : ℕ) (ps : PageSlice) (st : Store) (wf : WfSlice ps) (ne : a ≢ 0)
    (inside : q < page_count (ps.size)) (lt : q < max_pages) where
  Written-Put :
      (m : Made) (root : Slot)
      → Kept (ps.root) st m
      → Written q (new_entry a flags) (m.slot) root
      → Put q (new_entry a flags) ps st (
          done
            (record {
              root = root;
              size = ps.size;
              mapped_entries = (ps.mapped_entries + 1) % 2 ^ 64;
            })
            (m.store))
  Written-Put m root k w = record {
    wf = record {
      wf_root = w.wf;
      size_fits = wf.size_fits;
      none_past = λ q' small out.
          w.others q' small (λ e. absurd (omega (arith, inside, out, e)))
          ∙ k.same_view q' small
          ∙ wf.none_past q' small out;
    };
    same_size = refl;
    one_more_mapped = refl;
    found = w.found;
    others = λ q' small other. w.others q' small other ∙ k.same_view q' small;
    same_released = k.same_released;
  }

  already :
      (m : Made) (e : Entry)
      → Kept (ps.root) st m
      → view q (ps.root) ≡ some e
      → Inserted q a flags ps st (
          if e.kernel_virtual_address == a
          then done (with_root ps (m.slot)) (m.store)
          else fails e_rend_again (with_root ps (m.slot)) (m.store))
  already m e k there = elim (Bool-cases (e.kernel_virtual_address == a)) [
    | inl same ↦ rw same (
        taken (done (with_root ps (m.slot)) (m.store)) e there
          (ap (λ t. if t then none else some e_rend_again) (sym same))
          (Kept-Same ps st m none wf k))
    | inr other ↦ rw other (
        taken (fails e_rend_again (with_root ps (m.slot)) (m.store)) e there
          (ap (λ t. if t then none else some e_rend_again) (sym other))
          (Kept-Same ps st m (some e_rend_again) wf k))
  ]

  -- The rest of the call with the entry that the way ends at.
  bind_page-Inserted :
      (m : Made) (e : Entry)
      → Kept (ps.root) st m
      → RootReaches q (m.slot)
      → bound_only (some e) ≡ view q (m.slot)
      → Gives (Inserted q a flags ps st) (bind_page q a flags e (with_root ps (m.slot)) (m.store))
  unfolding bind_page
  bind_page-Inserted m e k reach same =
      Gives-if (Inserted q a flags ps st) (is_bound e) _ _
        (λ on. already m e k (Kept-view q ps st m e true lt k same on))
        (λ off.
          let nothing : view q (ps.root) ≡ none = Kept-view q ps st m e false lt k same off in
          Gives-bind (Written q (new_entry a flags) (m.slot)) (Inserted q a flags ps st)
            (edit_root q (bind_entry (root_is_leaf (m.slot)) q (new_entry a flags)) (m.slot)) _
            (edit_root-Written q (new_entry a flags) (m.slot) lt (k.wf) reach
              (k.same_view q lt ∙ nothing) (new_entry-bound a flags ne))
            (λ root w.
              bound
                (done
                  (record {
                    root = root;
                    size = ps.size;
                    mapped_entries = (ps.mapped_entries + 1) % 2 ^ 64;
                  })
                  (m.store))
                nothing refl (Written-Put m root k w)))

  bind_made-Inserted :
      (m : Made)
      → Way q (ps.root) st m
      → Gives (Inserted q a flags ps st) (bind_made q a flags ps m)
  bind_made-Inserted m (k, reach) = go (m.failure) refl (k.codes)
    where
      go :
          (failure : Option Error)
          → m.failure ≡ failure
          → (m.failure ≡ none) ⊎ (m.failure ≡ some e_rend_no_mem)
          → Gives (Inserted q a flags ps st) (elim failure [
            | some code ↦ ok (fails code (with_root ps (m.slot)) (m.store))
            | none ↦ find_entry q (m.slot) >>= access >>= λ e.
                bind_page q a flags e (with_root ps (m.slot)) (m.store)
          ])
      go none e codes =
          Gives-bind (λ x. bound_only (some x) ≡ view q (m.slot)) (Inserted q a flags ps st)
            (find_entry q (m.slot) >>= access) _
            (Gives-bind (λ o. (x : Entry) × (o ≡ some x) × (bound_only (some x) ≡ view q (m.slot)))
              (λ x. bound_only (some x) ≡ view q (m.slot)) (find_entry q (m.slot)) access
              (find_entry-entry q (m.slot) (k.wf) (reach e))
              (λ o there.
                subst (λ z. Gives (λ x. bound_only (some x) ≡ view q (m.slot)) (access z))
                  (sym (there.1)) (there.2)))
            (λ x same. bind_page-Inserted m x k (reach e) same)
      go (some code) e (inl f) = absurd (ground (arith, sym e ∙ f))
      go (some code) e (inr f) =
          no_memory (fails code (with_root ps (m.slot)) (m.store)) (sym e ∙ f)
            (Kept-Same ps st m (some code) wf k)

  make_raised-Way :
      (answers : Answers) (m : Made)
      → Kept (ps.root) st m
      → (m.failure ≡ none → 2 ≤ required_height q → required_height q ≤ entry_height (m.slot))
      → Gives (Way q (ps.root) st) (make_raised answers q m)
  make_raised-Way answers m k tall = go (m.failure) refl
    where
      go :
          (failure : Option Error)
          → m.failure ≡ failure
          → Gives (Way q (ps.root) st) (elim failure [
            | some code ↦ ok m
            | none ↦ make_from_root answers q (m.slot) (m.store)
          ])
      go none e =
          Gives-map (Way q (m.slot) (m.store)) (Way q (ps.root) st)
            (make_from_root answers q (m.slot) (m.store))
            (λ m' w. (
              record {
                wf = w.0.wf;
                same_view = λ q' small. w.0.same_view q' small ∙ k.same_view q' small;
                same_released = w.0.same_released ∙ k.same_released;
                codes = w.0.codes;
              },
              w.1,
            ))
            (make_from_root-Way answers q (m.slot) (m.store) (k.wf) (tall e))
      go (some code) e = (k, λ f. absurd (ground (arith, sym e ∙ f)))

pub pages_fit : (size : ℕ) → size ≤ max_byte_size → page_count size ≤ max_pages
unfolding page_count
pages_fit size le = ground (arith, le)

-- On a well-formed slice, whatever the allocator answers, the insertion of the page `a` at `q` returns without
-- a fault and does one of four things: -E_IN_PARAM if `a` is 0 or `q` is past the end; -E_REND_NO_MEM;
-- success or -E_REND_AGAIN if the map has an entry at `q`, by whether it is the same page; or success, with
-- the new entry at `q`, every other page as before and one more mapped entry. Without the last, the map and the
-- count stay. The slice left is well-formed, keeps its size, and no kernel page is given back.
pub page_slice_insert_page-Inserted :
    (answers : Answers) (q a flags : ℕ) (ps : PageSlice) (st : Store)
    → WfSlice ps
    → Gives (Inserted q a flags ps st) (page_slice_insert_page answers q a flags ps st)
unfolding page_slice_insert_page
page_slice_insert_page-Inserted answers q a flags ps st wf =
    Gives-if (Inserted q a flags ps st) (a == 0) _ _
      (λ null.
        refused (fails e_in_param ps st) (inl (ground (arith, null))) refl
          (unchanged_Same ps st (some e_in_param) wf))
      (λ filled.
        Gives-if (Inserted q a flags ps st) (leb (page_count (ps.size)) q) _ _
          (λ past.
            refused (fails e_in_param ps st) (inr (ground (arith, past))) refl
              (unchanged_Same ps st (some e_in_param) wf))
          (λ inside.
            inserts (ground (arith, filled)) (leb-false (page_count (ps.size)) q inside)
              (below inside)))
  where
    below : leb (page_count (ps.size)) q ≡ false → q < max_pages
    below inside =
        omega (arith, leb-false (page_count (ps.size)) q inside, pages_fit (ps.size) (wf.size_fits))

    inserts :
        a ≢ 0
        → q < page_count (ps.size)
        → q < max_pages
        → Gives (Inserted q a flags ps st) (
            raise_height answers (required_height q) (ps.root) st
            >>= make_raised answers q
            >>= bind_made q a flags ps)
    inserts ne inside lt =
        Gives-bind (Way q (ps.root) st) (Inserted q a flags ps st)
          (raise_height answers (required_height q) (ps.root) st >>= make_raised answers q)
          (bind_made q a flags ps)
          (Gives-bind
            (λ m.
              Kept (ps.root) st m
              × (m.failure ≡ none
                  → 2 ≤ required_height q
                  → required_height q ≤ entry_height (m.slot)))
            (Way q (ps.root) st) (raise_height answers (required_height q) (ps.root) st)
            (make_raised answers q)
            (raise_height-Tall answers (required_height q) (ps.root) st (wf.wf_root)
              (required_height-le q))
            (λ m t. make_raised-Way q a flags ps st wf ne inside lt answers m (t.0) (t.1)))
          (bind_made-Inserted q a flags ps st wf ne inside lt)
