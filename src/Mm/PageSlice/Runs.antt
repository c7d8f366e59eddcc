-- ===== src/Mm/PageSlice/Runs.antt =====
-- Sequences of the calls of kernel/mm/page_slice.c on a slice that `page_slice_create` made.
use rendezv_os.Base.{
  ℕ, ◌≡◌, refl, subst, Option, none, some, List, [], ◌∷◌, if◌then◌else◌, ◌||◌, ◌==◌, ltb, arith,
  ◌≤◌, Bool, true, false,
}
use rendezv_os.Base.{Result, ok, ◌>>=◌}
use rendezv_os.Base.Returns.{Gives, Gives-bind, Gives-map}
use rendezv_os.Kalloc.{Answers, m_alloc}
use rendezv_os.Mm.PageSlice.{PageSlice, Store, max_byte_size, answered}
use rendezv_os.Mm.PageSlice.Api.{
  Outcome, SizeOutcome, destroyed, kept, created, page_slice_create, page_slice_insert_page,
  page_slice_remove_page, page_slice_set_size,
}
use rendezv_os.Mm.PageSlice.Heights.{view-empty}
use rendezv_os.Mm.PageSlice.Outcomes.{
  WfSlice, Inserted, refused, no_memory, taken, bound, Removed, past, not_there, taken_out, Resized,
  ends, too_large, trimmed,
}
use rendezv_os.Mm.PageSlice.InsertPage.{page_slice_insert_page-Inserted}
use rendezv_os.Mm.PageSlice.Calls.{page_slice_remove_page-Removed}
use rendezv_os.Mm.PageSlice.SetSize.{page_slice_set_size-Resized}

pub data Call : Type 0 where
  insert_page : (pgoff page_address flags : ℕ) → Call
  remove_page : (pgoff : ℕ) → Call
  set_size : (new_size : ℕ) → Call

abbrev pub call : Answers → Call → PageSlice → Store → Result SizeOutcome
call answers (insert_page q a flags) ps st =
    page_slice_insert_page answers q a flags ps st >>= λ o. ok (kept o)
call answers (remove_page q) ps st = page_slice_remove_page q ps st >>= λ o. ok (kept o)
call answers (set_size n) ps st = page_slice_set_size n ps st

-- The slice and the heap after the calls, or none if one of them destroyed the slice.
unfoldable pub run : Answers → List Call → PageSlice → Store → Result (Option (PageSlice × Store))
run answers [] ps st = ok (some (ps, st))
run answers (c ∷ cs) ps st = call answers c ps st >>= λ o. elim o [
  | destroyed st' ↦ ok none
  | kept o' ↦ run answers cs (o'.slice) (o'.store)
]

Inserted-WfSlice :
    (q a flags : ℕ) (ps : PageSlice) (st : Store) (o : Outcome)
    → Inserted q a flags ps st o
    → WfSlice (o.slice)
Inserted-WfSlice q a flags ps st o (refused o' why e same) = same.wf
Inserted-WfSlice q a flags ps st o (no_memory o' e same) = same.wf
Inserted-WfSlice q a flags ps st o (taken o' x found e same) = same.wf
Inserted-WfSlice q a flags ps st o (bound o' nothing e p) = p.wf

Removed-WfSlice :
    (q : ℕ) (ps : PageSlice) (st : Store) (o : Outcome) → Removed q ps st o → WfSlice (o.slice)
Removed-WfSlice q ps st o (past o' out e same) = same.wf
Removed-WfSlice q ps st o (not_there o' nothing e same) = same.wf
Removed-WfSlice q ps st o (taken_out o' x found e d) = d.wf

abbrev KeptWf : SizeOutcome → Type 0
KeptWf (destroyed st) = Unit
KeptWf (kept o) = WfSlice (o.slice)

Resized-KeptWf :
    (size : ℕ) (ps : PageSlice) (st : Store) (o : SizeOutcome) → Resized size ps st o → KeptWf o
Resized-KeptWf size ps st o (ends st' e all) = tt
Resized-KeptWf size ps st o (too_large o' large e same) = same.wf
Resized-KeptWf size ps st o (trimmed o' ne e c) = c.wf

call-KeptWf :
    (answers : Answers) (c : Call) (ps : PageSlice) (st : Store)
    → WfSlice ps
    → Gives KeptWf (call answers c ps st)
call-KeptWf answers (insert_page q a flags) ps st wf =
    Gives-bind (Inserted q a flags ps st) KeptWf (page_slice_insert_page answers q a flags ps st) _
      (page_slice_insert_page-Inserted answers q a flags ps st wf)
      (λ o i. Inserted-WfSlice q a flags ps st o i)
call-KeptWf answers (remove_page q) ps st wf =
    Gives-bind (Removed q ps st) KeptWf (page_slice_remove_page q ps st) _
      (page_slice_remove_page-Removed q ps st wf) (λ o r. Removed-WfSlice q ps st o r)
call-KeptWf answers (set_size n) ps st wf =
    Gives-map (Resized n ps st) KeptWf (page_slice_set_size n ps st)
      (λ o r. Resized-KeptWf n ps st o r) (page_slice_set_size-Resized n ps st wf)

-- What a run leaves.
abbrev pub LeftWf : Option (PageSlice × Store) → Type 0
LeftWf none = Unit
LeftWf (some (ps, st)) = WfSlice ps

run-LeftWf :
    (answers : Answers) (cs : List Call) (ps : PageSlice) (st : Store)
    → WfSlice ps
    → Gives LeftWf (run answers cs ps st)
unfolding run
run-LeftWf answers [] ps st wf = wf
run-LeftWf answers (c ∷ cs) ps st wf =
    Gives-bind KeptWf LeftWf (call answers c ps st) _ (call-KeptWf answers c ps st wf)
      (next (λ ps' st' wf'. run-LeftWf answers cs ps' st' wf'))
  where
    next :
        ((ps' : PageSlice) (st' : Store) → WfSlice ps' → Gives LeftWf (run answers cs ps' st'))
        → (o : SizeOutcome) → KeptWf o
        → Gives LeftWf
            (elim o [ destroyed st' ↦ ok none | kept o' ↦ run answers cs (o'.slice) (o'.store) ])
    next rest (destroyed st') wf' = tt
    next rest (kept o) wf' = rest (o.slice) (o.store) wf'

abbrev MadeWf : Option PageSlice × Store → Type 0
MadeWf (none, st) = Unit
MadeWf (some ps, st) = WfSlice ps

created-MadeWf : (size : ℕ) (r : Bool × Store) → size ≤ max_byte_size → MadeWf (created size r)
created-MadeWf size (false, st) small = tt
created-MadeWf size (true, st) small = record {
  wf_root = (0, omega arith, tt);
  size_fits = small;
  none_past = λ q lt out. view-empty q;
}

-- A slice that `page_slice_create` made stands for the map without pages.
page_slice_create-MadeWf :
    (answers : Answers) (header size : ℕ) (st : Store)
    → MadeWf (page_slice_create answers header size st)
unfolding page_slice_create
page_slice_create-MadeWf answers header size st = go ((size == 0) || ltb max_byte_size size) refl
  where
    go :
        (t : Bool)
        → ((size == 0) || ltb max_byte_size size) ≡ t
        → MadeWf (
            if t
            then (none, st)
            else created size (answered (m_alloc answers header (st.kalloc)) st))
    go true e = tt
    go false e =
        created-MadeWf size (answered (m_alloc answers header (st.kalloc)) st) (ground (arith, e))

-- Any sequence of insertions, removals and changes of the size, on a slice that `page_slice_create` made,
-- returns without a fault, whatever the allocator answers, and leaves a well-formed slice unless a change to
-- size 0 destroyed it.
pub run-created :
    (answers : Answers) (cs : List Call) (header size : ℕ) (st st' : Store) (ps : PageSlice)
    → page_slice_create answers header size st ≡ (some ps, st')
    → Gives LeftWf (run answers cs ps st')
run-created answers cs header size st st' ps made =
    run-LeftWf answers cs ps st'
      (subst MadeWf made (page_slice_create-MadeWf answers header size st))
