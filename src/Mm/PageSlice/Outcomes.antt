-- ===== src/Mm/PageSlice/Outcomes.antt =====
-- What the calls of kernel/mm/page_slice.c do to the map from page offsets to entries.
use rendezv_os.Base.{
  ℕ, ◌+◌, ◌-◌, ◌%◌, ◌^◌, ◌≤◌, ◌<◌, false, ◌≡◌, refl, ◌≢◌, ◌⊎◌, Option, none, some, ◌==◌,
  if◌then◌else◌, List, ◌∷◌, ltb,
}
use rendezv_os.Base.{
  Error, e_in_param, e_rend_again, e_rend_no_mem, e_rend_nofound, e_rend_overflow,
}
use mathlib.Core.List.{Mem}
use Prim.Native.Nat.{bit_or}
use rendezv_os.Mm.PageSlice.{
  Entry, flag_valid, flag_pin, has_flag, PageSlice, Store, page_count, max_byte_size,
}
use rendezv_os.Mm.PageSlice.Api.{Outcome, SizeOutcome, destroyed, kept}
use rendezv_os.Mm.PageSlice.Tree.{WfRoot, view}
use rendezv_os.Mm.PageSlice.Heights.{max_pages}

pub record WfSlice (ps : PageSlice) : Type 0 where
  pub wf_root : WfRoot (ps.root)
  pub size_fits : ps.size ≤ max_byte_size
  pub none_past : (q : ℕ) → q < max_pages → page_count (ps.size) ≤ q → view q (ps.root) ≡ none

-- The call changes at most the shape of the tree.
pub record Same (ps : PageSlice) (st : Store) (o : Outcome) : Type 0 where
  pub wf : WfSlice (o.slice)
  pub same_size : o.slice.size ≡ ps.size
  pub same_mapped : o.slice.mapped_entries ≡ ps.mapped_entries
  pub same_view : (q : ℕ) → q < max_pages → view q (o.slice.root) ≡ view q (ps.root)
  pub same_released : o.store.released ≡ st.released

-- The map has one more page.
pub record Put (q : ℕ) (e : Entry) (ps : PageSlice) (st : Store) (o : Outcome) : Type 0 where
  pub wf : WfSlice (o.slice)
  pub same_size : o.slice.size ≡ ps.size
  pub one_more_mapped : o.slice.mapped_entries ≡ (ps.mapped_entries + 1) % 2 ^ 64
  pub found : view q (o.slice.root) ≡ some e
  pub others : (q' : ℕ) → q' < max_pages → q' ≢ q → view q' (o.slice.root) ≡ view q' (ps.root)
  pub same_released : o.store.released ≡ st.released

abbrev pub new_entry : ℕ → ℕ → Entry
new_entry a flags = record { kernel_virtual_address = a; flags = bit_or flags flag_valid }

-- An insertion of the page `a` at `q` into the map of a slice.
pub data Inserted (q a flags : ℕ) (ps : PageSlice) (st : Store) : Outcome → Type 0 where
  refused :
      (o : Outcome)
      → (a ≡ 0) ⊎ (page_count (ps.size) ≤ q)
      → o.failure ≡ some e_in_param
      → Same ps st o
      → Inserted q a flags ps st o
  no_memory :
      (o : Outcome) → o.failure ≡ some e_rend_no_mem → Same ps st o → Inserted q a flags ps st o
  taken :
      (o : Outcome) (e : Entry)
      → view q (ps.root) ≡ some e
      → o.failure ≡ (if e.kernel_virtual_address == a then none else some e_rend_again)
      → Same ps st o
      → Inserted q a flags ps st o
  bound :
      (o : Outcome)
      → view q (ps.root) ≡ none
      → o.failure ≡ none
      → Put q (new_entry a flags) ps st o
      → Inserted q a flags ps st o

-- The kernel pages given back when an entry goes: its own, unless it is pinned.
abbrev pub give_back : Entry → List ℕ → List ℕ
give_back e pages = if has_flag flag_pin (e.flags) then pages else e.kernel_virtual_address ∷ pages

-- The map has one page less.
pub record Dropped (q : ℕ) (e : Entry) (ps : PageSlice) (st : Store) (ps' : PageSlice) (st' : Store)
    : Type 0 where
  pub wf : WfSlice ps'
  pub same_size : ps'.size ≡ ps.size
  pub one_less_mapped : ps'.mapped_entries ≡ ps.mapped_entries - 1
  pub gone : view q (ps'.root) ≡ none
  pub others : (q' : ℕ) → q' < max_pages → q' ≢ q → view q' (ps'.root) ≡ view q' (ps.root)
  pub now_released : st'.released ≡ give_back e (st.released)

-- A removal of the page at `q` from the map of a slice.
pub data Removed (q : ℕ) (ps : PageSlice) (st : Store) : Outcome → Type 0 where
  past :
      (o : Outcome)
      → page_count (ps.size) ≤ q
      → o.failure ≡ some e_in_param
      → Same ps st o
      → Removed q ps st o
  not_there :
      (o : Outcome)
      → view q (ps.root) ≡ none
      → o.failure ≡ some e_rend_nofound
      → Same ps st o
      → Removed q ps st o
  taken_out :
      (o : Outcome) (e : Entry)
      → view q (ps.root) ≡ some e
      → o.failure ≡ none
      → Dropped q e ps st (o.slice) (o.store)
      → Removed q ps st o

-- The map has the pages below the new end.
pub record Trimmed (size : ℕ) (ps : PageSlice) (o : Outcome) : Type 0 where
  pub wf : WfSlice (o.slice)
  pub new_size : o.slice.size ≡ size
  pub cut_view :
      (q : ℕ)
      → q < max_pages
      → view q (o.slice.root) ≡ (if ltb q (page_count size) then view q (ps.root) else none)

-- The page of an entry that is not pinned is given back.
abbrev pub Given : Entry → Store → Type 0
Given e st = has_flag flag_pin (e.flags) ≡ false → Mem (e.kernel_virtual_address) (st.released)

-- The kernel pages of a slice that are not pinned are given back.
abbrev pub AllReleased : PageSlice → Store → Type 0
AllReleased ps st = (q : ℕ) (e : Entry) → q < max_pages → view q (ps.root) ≡ some e → Given e st

-- A change of the size of a slice to 0 destroys it.
pub data Resized (size : ℕ) (ps : PageSlice) (st : Store) : SizeOutcome → Type 0 where
  ends : (st' : Store) → size ≡ 0 → AllReleased ps st' → Resized size ps st (destroyed st')
  too_large :
      (o : Outcome)
      → max_byte_size < size
      → o.failure ≡ some e_rend_overflow
      → Same ps st o
      → Resized size ps st (kept o)
  trimmed :
      (o : Outcome) → size ≢ 0 → o.failure ≡ none → Trimmed size ps o → Resized size ps st (kept o)

pub unchanged_Same :
    (ps : PageSlice) (st : Store) (failure : Option Error)
    → WfSlice ps
    → Same ps st (record { failure = failure; slice = ps; store = st })
unchanged_Same ps st failure wf = record {
  wf = wf;
  same_size = refl;
  same_mapped = refl;
  same_view = λ q lt. refl;
  same_released = refl;
}
