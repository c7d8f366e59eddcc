-- ===== src/Mm/PageSlice/RemovePage.antt =====
-- `page_slice_remove_page` and `page_slice_set_size` of kernel/mm/page_slice.c against a removal from a
-- map and a cut of it.
use rendezv_os.Base.{
  ℕ, zero, suc, ◌-◌, ◌≤◌, ◌<◌, ◌≡◌, ◌≢◌, ◌⊎◌, refl, ap, sym, ◌∙◌, Bool, true, false, Bool-cases,
  leb, Option, none, some, inl, inr, arith, if◌then◌else◌,
}
use rendezv_os.Base.{ok, ◌>>=◌}
use rendezv_os.Base.Returns.{Gives, Gives-bind, Gives-if, Gives-map}
use rendezv_os.Mm.PageSlice.{Entry, is_bound, Slot, empty, to_leaf, to_index, PageSlice, Store}
use rendezv_os.Mm.PageSlice.Path.{bound_only, find_entry}
use rendezv_os.Mm.PageSlice.Shrink.{
  clear_entry, clear_below, clear_in_leaf, Removal, absent, gone, removed, remove_page_locked,
}
use rendezv_os.Mm.PageSlice.Tree.{Wf, WfRoot, look, view, find_entry-look}
use rendezv_os.Mm.PageSlice.Slots.{look-empty}
use native.Mathlib.Decide.{ℕ_discrete}
use rendezv_os.Mm.PageSlice.Heights.{leb-false, room, max_pages, view-look, mod-room}
use rendezv_os.Mm.PageSlice.Outcomes.{WfSlice, give_back, Dropped}
use rendezv_os.Mm.PageSlice.Clear.{Cleared, clear_in_leaf-Cleared, clear_below-Cleared}

-- The tree stands for the map with one page less.
record Without (q : ℕ) (e : Entry) (root : Slot) (st : Store) (r : Slot × Store) : Type 0 where
  wf : WfRoot (r.0)
  nothing : view q (r.0) ≡ none
  others : (q' : ℕ) → q' < max_pages → q' ≢ q → view q' (r.0) ≡ view q' root
  now_released : r.1.released ≡ give_back e (st.released)

-- A page that the map has is in the room of the tree.
pub in_room :
    (k q : ℕ) (e : Entry) (root : Slot)
    → k ≤ 3
    → q < max_pages
    → Wf 1 k root
    → view q root ≡ some e
    → (q < room k) × (look k q root ≡ some e)
in_room k q e root le small wf there =
    go (leb (room k) q) refl (sym (view-look k q root le small wf) ∙ there)
  where
    go :
        (t : Bool)
        → leb (room k) q ≡ t
        → (if t then none else look k q root) ≡ some e
        → (q < room k) × (look k q root ≡ some e)
    go true high there' = absurd (ground (arith, there'))
    go false low there' = (leb-false (room k) q low, there')

Cleared-Without :
    (k q : ℕ) (e : Entry) (root : Slot) (st : Store) (r : Slot × Store)
    → k ≤ 3
    → q < room k
    → q < max_pages
    → Wf 1 k root
    → Cleared 1 k q e root st r
    → Without q e root st r
Cleared-Without k q e root st r le lt small wf cl = record {
  wf = (k, le, cl.wf);
  nothing = view-look k q (r.0) le small (cl.wf) ∙ either (leb (room k) q);
  others = λ q' small' ne.
      view-look k q' (r.0) le small' (cl.wf)
      ∙ other q' ne (Bool-cases (leb (room k) q'))
      ∙ sym (view-look k q' root le small' wf);
  now_released = cl.now_released;
}
  where
    either : (t : Bool) → (if t then none else look k q (r.0)) ≡ none
    either true = refl
    either false = cl.gone

    other :
        (q' : ℕ)
        → q' ≢ q
        → (leb (room k) q' ≡ true) ⊎ (leb (room k) q' ≡ false)
        → (if leb (room k) q' then none else look k q' (r.0))
          ≡ (if leb (room k) q' then none else look k q' root)
    other q' ne (inl high) = rw high refl
    other q' ne (inr low) = rw low (
        cl.others q' (λ h.
          ne (sym (sym (mod-room k q le lt) ∙ h ∙ mod-room k q' le (leb-false (room k) q' low)))))

clear_entry-Without :
    (q : ℕ) (e : Entry) (root : Slot) (st : Store)
    → q < max_pages
    → WfRoot root
    → view q root ≡ some e
    → Gives (Without q e root st) (clear_entry q root st)
unfolding clear_entry
clear_entry-Without q e empty st small (k, le, wf) there =
    absurd (ground (arith, sym (look-empty k q) ∙ (in_room k q e empty le small wf there).1))
clear_entry-Without q e (to_leaf h l es) st small (suc n, le, wf) there = absurd wf
clear_entry-Without q e (to_index h l ss) st small (zero, le, wf) there = absurd wf
clear_entry-Without q e (to_leaf h l es) st small (zero, le, wf) there =
    let low : leb 2 h ≡ false = ground (arith, wf.0) in
    let (lt, found) = in_room 0 q e (to_leaf h l es) le small wf there in
    rw low (
      Gives-map (Cleared 1 0 q e (to_leaf h l es) st) (Without q e (to_leaf h l es) st)
        (clear_in_leaf q (to_leaf h l es) st)
        (λ r cl. Cleared-Without 0 q e (to_leaf h l es) st r le lt small wf cl)
        (clear_in_leaf-Cleared 1 q e (to_leaf h l es) st wf found))
clear_entry-Without q e (to_index h l ss) st small (suc n, le, wf) there =
    let two : leb 2 h ≡ true = ground (arith, wf.0) in
    let below : h - 2 ≡ n = omega (arith, wf.0) in
    let (lt, found) = in_room (suc n) q e (to_index h l ss) le small wf there in
    rw (two, below)
      (Gives-map (Cleared 1 (suc n) q e (to_index h l ss) st) (Without q e (to_index h l ss) st)
        (clear_below n q (to_index h l ss) st)
        (λ r cl. Cleared-Without (suc n) q e (to_index h l ss) st r le lt small wf cl)
        (clear_below-Cleared n 1 q e (to_index h l ss) st (omega (arith, le)) wf found))

-- `ps_remove_page_locked` on a page below the greatest size.
abbrev pub Locked : ℕ → PageSlice → Store → Removal → Type 0
Locked q ps st absent = view q (ps.root) ≡ none
Locked q ps st (gone ps' st') =
    (e : Entry) × (view q (ps.root) ≡ some e) × Dropped q e ps st ps' st'

pub remove_page_locked-Locked :
    (q : ℕ) (ps : PageSlice) (st : Store)
    → q < max_pages
    → WfSlice ps
    → Gives (Locked q ps st) (remove_page_locked q ps st)
unfolding remove_page_locked
remove_page_locked-Locked q ps st small wf =
    Gives-bind (λ o. bound_only o ≡ view q (ps.root)) (Locked q ps st) (find_entry q (ps.root)) _
      (find_entry-look q (ps.root) (wf.wf_root)) found
  where
    dropped :
        (e : Entry) (r : Slot × Store)
        → view q (ps.root) ≡ some e
        → Without q e (ps.root) st r
        → Locked q ps st (removed ps r)
    dropped e (root, st') there w = (
      e,
      there,
      record {
        wf = record {
          wf_root = w.wf;
          size_fits = wf.size_fits;
          none_past = λ q' small' out. elim (ℕ_discrete q' q) [
            | yes same ↦ ap (λ z. view z root) same ∙ w.nothing
            | no other ↦ w.others q' small' other ∙ wf.none_past q' small' out
          ];
        };
        same_size = refl;
        one_less_mapped = refl;
        gone = w.nothing;
        others = w.others;
        now_released = w.now_released;
      },
    )

    found :
        (o : Option Entry)
        → bound_only o ≡ view q (ps.root)
        → Gives (Locked q ps st) (elim o [
          | none ↦ ok absent
          | some e ↦
              if is_bound e
              then (clear_entry q (ps.root) st >>= λ r. ok (removed ps r))
              else ok absent
        ])
    found none same = sym same
    found (some e) same =
        Gives-if (Locked q ps st) (is_bound e) _ _
          (λ on.
            let there : view q (ps.root) ≡ some e =
              sym same ∙ ap (λ t. if t then some e else none) on in
            Gives-bind (Without q e (ps.root) st) (Locked q ps st) (clear_entry q (ps.root) st) _
              (clear_entry-Without q e (ps.root) st small (wf.wf_root) there)
              (λ r w. dropped e r there w))
          (λ off. sym same ∙ ap (λ t. if t then some e else none) off)
