-- ===== src/Mm/PageSlice/Tests.antt =====
-- Examples and witnesses for kernel/mm/page_slice.c.
use mathlib.Core.List.{Mem}
use rendezv_os.Base.{true, ◌%◌, ℕ, ◌+◌, ◌≤◌, ◌≡◌, refl, arith, some, List, [], ◌∷◌, false, ltb, leb}
use rendezv_os.Base.{none, Result, ok, ◌>>=◌}
use rendezv_os.Base.Returns.{Gives}
use rendezv_os.Kalloc.{Answers}
use rendezv_os.Mm.PageSlice.{
  Entry, no_entry, is_bound, empty, to_leaf, at, zero_leaf, PageSlice, Store, max_byte_size,
  entry_height, live_inc, live_dec, as_index_page, as_leaf_page, index_idx, root_get_index,
  clear_leaf_entry, root_get_leaf, required_height, page_count, leaf_idx,
}
use rendezv_os.Mm.PageSlice.Shrink.{
  shrink, remove_page_locked, clear_entry, clear_below, clear_in_leaf, cascade, lower_root,
  lower_once, returns_at, drop_root,
}
use rendezv_os.Mm.PageSlice.Api.{
  page_slice_lookup, page_slice_create, page_slice_insert_page, page_slice_remove_page,
  page_slice_set_size, page_slice_destroy, bind_page, bind_entry, shrink_passes,
}
use rendezv_os.Mm.PageSlice.Slots.{at-all}
use rendezv_os.Mm.PageSlice.Tree.{view}
use rendezv_os.Mm.PageSlice.Heights.{room, max_pages, required_height_lem}
use rendezv_os.Mm.PageSlice.Outcomes.{WfSlice, Inserted, Removed, Resized}
use rendezv_os.Mm.PageSlice.InsertPage.{page_slice_insert_page-Inserted}
use rendezv_os.Mm.PageSlice.Lower.{KeptRoot}
use rendezv_os.Mm.PageSlice.Drop.{shrink-Kept}
use rendezv_os.Mm.PageSlice.Calls.{page_slice_lookup-view, page_slice_remove_page-Removed}
use rendezv_os.Mm.PageSlice.Destroy.{page_slice_destroy-Mem}
use rendezv_os.Mm.PageSlice.Copy.{copy_from_mapped, copy_loop, page_slice_copy_to_buffer}
use rendezv_os.Mm.PageSlice.Contents.{Copies, page_slice_copy_to_buffer-Copies}
use rendezv_os.Mm.PageSlice.Path.{
  find_entry, find_leaf, raise_height, raise_rounds, make_from_root, make_path, make_leaf,
  edit_root, edit_leaf,
}
use rendezv_os.Mm.PageSlice.SetSize.{page_slice_set_size-Resized}
use rendezv_os.Mm.PageSlice.Runs.{
  Call, insert_page, remove_page, set_size, run, LeftWf, run-created,
}

abbrev grants : Answers
grants i n = some []

abbrev heap : Store
heap = record { kalloc = record { calls = 0; live = 0 }; released = [] }

abbrev entry : Entry
entry = record { kernel_virtual_address = 8192; flags = 1 }

-- One leaf page with one entry, at page 3.
abbrev one_page : PageSlice
one_page = record {
  root = to_leaf 1 1 (at 3 entry zero_leaf);
  size = max_byte_size;
  mapped_entries = 1;
}

whole : (q : ℕ) → page_count max_byte_size ≤ q → max_pages ≤ q
unfolding page_count
whole q out = out

one_page-WfSlice : WfSlice one_page
one_page-WfSlice = record {
  wf_root = (
    0,
    omega arith,
    (
      refl,
      record {
        live = refl;
        clean =
            at-all (λ e. is_bound e ≡ false → e ≡ no_entry) 3 entry zero_leaf
              (λ off. absurd (ground (arith, off))) (λ j off. refl);
      },
    ),
  );
  size_fits = omega arith;
  none_past = λ q lt out. absurd (omega (arith, lt, whole q out));
}

page_slice_insert_page-Inserted_example :
    Gives
      (Inserted 70000 4096 0 one_page heap)
      (page_slice_insert_page grants 70000 4096 0 one_page heap)
page_slice_insert_page-Inserted_example =
    page_slice_insert_page-Inserted grants 70000 4096 0 one_page heap one_page-WfSlice

page_slice_remove_page-Removed_example :
    Gives (Removed 3 one_page heap) (page_slice_remove_page 3 one_page heap)
page_slice_remove_page-Removed_example =
    page_slice_remove_page-Removed 3 one_page heap one_page-WfSlice

page_slice_set_size-Resized_example :
    Gives (Resized 8192 one_page heap) (page_slice_set_size 8192 one_page heap)
page_slice_set_size-Resized_example =
    page_slice_set_size-Resized 8192 one_page heap one_page-WfSlice

page_slice_lookup-view_example : page_slice_lookup 3 one_page ≡ ok (view 3 (one_page.root))
page_slice_lookup-view_example = page_slice_lookup-view 3 one_page (omega arith) one_page-WfSlice

page_slice_destroy-Mem_example :
    Gives (λ st'. Mem 8192 (st'.released)) (page_slice_destroy one_page heap)
unfolding required_height leaf_idx
page_slice_destroy-Mem_example =
    page_slice_destroy-Mem one_page heap 3 entry one_page-WfSlice (omega arith) refl refl

shrink-Kept_example : Gives (KeptRoot (one_page.root) heap) (shrink (one_page.root) heap)
shrink-Kept_example = shrink-Kept (one_page.root) heap (one_page-WfSlice.wf_root)

required_height_lem_example : ltb (1 + 1) (required_height 70000) ≡ leb (room 1) 70000
required_height_lem_example = required_height_lem 1 70000 (omega arith) (omega arith)

abbrev calls : List Call
calls = insert_page 3 8192 0 ∷ insert_page 70000 4096 2 ∷ remove_page 3 ∷ set_size 4096 ∷ []

run-created_example : Gives LeftWf (
    run grants calls
      (record { root = empty; size = max_byte_size; mapped_entries = 0 })
      (record { kalloc = record { calls = 1; live = 1 }; released = [] }))
unfolding page_slice_create
run-created_example =
    run-created grants calls 32 max_byte_size heap
      (record { kalloc = record { calls = 1; live = 1 }; released = [] })
      (record { root = empty; size = max_byte_size; mapped_entries = 0 }) refl

page_slice_copy_to_buffer-Copies_example :
    Gives
      (Copies (λ a. a % 256) one_page 12290 4)
      (page_slice_copy_to_buffer true (λ a. a % 256) one_page 12290 4)
page_slice_copy_to_buffer-Copies_example =
    page_slice_copy_to_buffer-Copies (λ a. a % 256) one_page 12290 4 one_page-WfSlice

-- Four bytes of page 3, from its third byte on.
four_bytes :
    page_slice_copy_to_buffer true (λ a. a % 256) one_page 12290 4
    ≡ ok (record { failure = none; world = 2 ∷ 3 ∷ 4 ∷ 5 ∷ [] })
unfolding page_slice_copy_to_buffer copy_from_mapped copy_loop page_slice_lookup find_entry
    page_count required_height root_get_leaf leaf_idx
four_bytes = refl

-- The heights of the root after the insertion of page 70000 and after its removal, and what is given back.
abbrev there_and_back : Result (ℕ × ℕ × List ℕ)
there_and_back = page_slice_insert_page grants 70000 4096 0 one_page heap >>= λ o.
    page_slice_remove_page 70000 (o.slice) (o.store) >>= λ o'.
    ok (entry_height (o.slice.root), entry_height (o'.slice.root), o'.store.released)

leaf_again : there_and_back ≡ ok (3, 1, 4096 ∷ [])
unfolding page_slice_insert_page page_slice_remove_page raise_height raise_rounds make_from_root
    make_path make_leaf bind_page bind_entry edit_root edit_leaf remove_page_locked clear_entry
    clear_below clear_in_leaf cascade shrink_passes shrink lower_root lower_once returns_at
    drop_root live_inc live_dec as_index_page as_leaf_page index_idx leaf_idx root_get_index
    root_get_leaf page_count required_height find_entry find_leaf clear_leaf_entry
leaf_again = refl
