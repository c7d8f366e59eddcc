-- ===== src/Mm/PageSlice/Bind.antt =====
-- kernel/mm/page_slice.c: an entry is written where the way to it ends.
use rendezv_os.Base.{
  ℕ, zero, suc, ◌+◌, ◌%◌, ◌≤◌, ◌<◌, ◌≡◌, ◌≢◌, refl, ap, sym, ◌∙◌, subst, Bool, true, false,
  Bool-cases, ltb, not, none, some, inl, inr, arith, if◌then◌else◌,
}
use rendezv_os.Base.{ok, ◌>>=◌}
use rendezv_os.Base.Returns.{Gives, Gives-bind}
use rendezv_os.Mm.PageSlice.{
  Entry, no_entry, is_bound, Slot, empty, to_leaf, to_index, at, is_empty, entry_height, live_inc,
  live_max, leaf_idx, index_idx, leaf_capacity, index_capacity, as_index_page,
}
use rendezv_os.Mm.PageSlice.Path.{bound_only, edit_leaf}
use rendezv_os.Mm.PageSlice.Api.{bind_entry}
use rendezv_os.Mm.PageSlice.Count.{at-same, at-other, count-gains, count-keeps, count-room}
use rendezv_os.Mm.PageSlice.Slots.{Reaches, at-all}
use rendezv_os.Mm.PageSlice.Tree.{Wf, look}
use rendezv_os.Mm.PageSlice.Grow.{index_there}
use rendezv_os.Mm.PageSlice.Heights.{room, apart-below}
use native.Mathlib.Decide.{ℕ_discrete}

-- The slot has the entry for the page, and what it had for the others.
pub record Bound (d k q : ℕ) (e : Entry) (s : Slot) (s' : Slot) : Type 0 where
  pub wf : Wf d k s'
  pub found : look k q s' ≡ some e
  pub others : (q' : ℕ) → q % room k ≢ q' % room k → look k q' s' ≡ look k q' s
  pub same_height : entry_height s' ≡ entry_height s
  pub filled : is_empty s' ≡ false

bound_only-none : (e : Entry) → bound_only (some e) ≡ none → is_bound e ≡ false
bound_only-none e nothing = elim (Bool-cases (is_bound e)) [
  | inr off ↦ off
  | inl on ↦ absurd (some-none (subst (λ t. (if t then some e else none) ≡ none) on nothing))
]
  where
    some-none : some e ≡ none → ⊥
    some-none h = ground (arith, h)

pub bind_leaf :
    (d q : ℕ) (r : Bool) (e : Entry) (s : Slot)
    → live_max r d ≡ leaf_capacity
    → Wf d 0 s
    → Reaches 0 q s
    → look 0 q s ≡ none
    → is_bound e ≡ true
    → Bound d 0 q e s (bind_entry r q e s)
unfolding bind_entry live_inc leaf_idx
bind_leaf d q r e empty max wf reach nothing on = absurd reach
bind_leaf d q r e (to_index h l ss) max wf reach nothing on = absurd reach
bind_leaf d q r e (to_leaf h l es) max (hd, wf) reach nothing on =
    let i = q % leaf_capacity in
    let off : is_bound (es i) ≡ false = bound_only-none (es i) nothing in
    let lt : i < leaf_capacity = omega arith in
    let few : l < leaf_capacity =
      subst (λ z. z < leaf_capacity) (sym (wf.live))
        (count-room (λ j. is_bound (es j)) leaf_capacity i lt off) in
    let less : ltb l (live_max r h) ≡ true =
      subst (λ z. ltb l (live_max r z) ≡ true) (sym hd)
        (subst (λ z. ltb l z ≡ true) (sym max) (ground (arith, few))) in
    let here : look 0 q (to_leaf h (l + 1) (at i e es)) ≡ some e =
      ap (λ z. bound_only (some z)) (at-same i e es) ∙ ap (λ t. if t then some e else none) on in
    rw less (record {
      wf = (
        hd,
        record {
          live =
              ap (λ z. z + 1) (wf.live) ∙ sym (count-gains is_bound es leaf_capacity i e lt off on);
          clean =
              at-all (λ x. is_bound x ≡ false → x ≡ no_entry) i e es
                (λ off'. absurd (ground (arith, on, off'))) (wf.clean);
        },
      );
      found = here;
      others = λ q' ne.
          ap (λ z. bound_only (some z)) (at-other i (q' % leaf_capacity) e es (λ h. ne (sym h)));
      same_height = refl;
      filled = refl;
    })

-- What holds for an entry of an index page holds for the page.
Bound-above :
    (d n q h l : ℕ) (e : Entry) (ss : ℕ → Slot) (c : Slot)
    → n ≤ 2
    → Wf d (suc n) (to_index h l ss)
    → is_empty (ss (index_idx q n)) ≡ false
    → Bound 2 n q e (ss (index_idx q n)) c
    → Bound d (suc n) q e (to_index h l ss) (to_index h l (at (index_idx q n) c ss))
Bound-above d n q h l e ss c le (hd, live, wf) filled b =
    let i = index_idx q n in
    record {
      wf = (
        hd,
        live
            ∙ sym (
                count-keeps (λ s. not (is_empty s)) ss index_capacity i c
                  (ap not (b.filled ∙ sym filled))),
        at-all (Wf 2 n) i c ss (b.wf) wf,
      );
      found = ap (look n q) (at-same i c ss) ∙ b.found;
      others = λ q' ne. elim (ℕ_discrete (index_idx q' n) i) [
        | yes same ↦
            ap (λ z. look n q' (at i c ss z)) same
            ∙ ap (look n q') (at-same i c ss)
            ∙ b.others q' (apart-below n q q' le ne same)
            ∙ sym (ap (λ z. look n q' (ss z)) same)
        | no other ↦ ap (look n q') (at-other i (index_idx q' n) c ss other)
      ];
      same_height = refl;
      filled = refl;
    }

pub Reaches-filled : (k q : ℕ) (s : Slot) → Reaches k q s → is_empty s ≡ false
Reaches-filled k q empty reach = absurd reach
Reaches-filled k q (to_leaf h l es) reach = refl
Reaches-filled k q (to_index h l ss) reach = refl

pub edit_leaf-Bound :
    (n d q h l : ℕ) (e : Entry) (ss : ℕ → Slot)
    → n ≤ 2
    → Wf d (suc n) (to_index h l ss)
    → Reaches (suc n) q (to_index h l ss)
    → look (suc n) q (to_index h l ss) ≡ none
    → is_bound e ≡ true
    → Gives
        (Bound d (suc n) q e (to_index h l ss))
        (edit_leaf n q (bind_entry false q e) (to_index h l ss))
unfolding edit_leaf
edit_leaf-Bound zero d q h l e ss le wf reach nothing on =
    let c = ss (index_idx q 0) in
    Bound-above d 0 q h l e ss (bind_entry false q e c) le wf (Reaches-filled 0 q c reach)
      (bind_leaf 2 q false e c refl (wf.2 (index_idx q 0)) reach nothing on)
edit_leaf-Bound (suc n) d q h l e ss le wf reach nothing on =
    below (ss (index_idx q (suc n))) (wf.2 (index_idx q (suc n))) reach nothing refl
      (λ h' l' ss' wf' reach' nothing'.
        edit_leaf-Bound n 2 q h' l' e ss' (omega arith) wf' reach' nothing' on)
  where
    below :
        (c : Slot)
        → Wf 2 (suc n) c
        → Reaches (suc n) q c
        → look (suc n) q c ≡ none
        → ss (index_idx q (suc n)) ≡ c
        → ((h' l' : ℕ) (ss' : ℕ → Slot)
            → Wf 2 (suc n) (to_index h' l' ss')
            → Reaches (suc n) q (to_index h' l' ss')
            → look (suc n) q (to_index h' l' ss') ≡ none
            → Gives
                (Bound 2 (suc n) q e (to_index h' l' ss'))
                (edit_leaf n q (bind_entry false q e) (to_index h' l' ss')))
        → Gives (Bound d (suc (suc n)) q e (to_index h l ss)) (
            as_index_page c >>= λ page. elim page [
              | none ↦ ok (to_index h l ss)
              | some ss' ↦ edit_leaf n q (bind_entry false q e) c >>= λ c'.
                  ok (to_index h l (at (index_idx q (suc n)) c' ss))
            ])
    below empty wf' reach' nothing' same rest = absurd reach'
    below (to_leaf h' l' es) wf' reach' nothing' same rest = absurd wf'
    below (to_index h' l' ss') wf' reach' nothing' same rest =
        let (h'', l'', ss'', form, e', found) =
          index_there n (to_index h' l' ss') (omega arith) wf' refl in
        rw found (
          Gives-bind (Bound 2 (suc n) q e (to_index h' l' ss'))
            (Bound d (suc (suc n)) q e (to_index h l ss))
            (edit_leaf n q (bind_entry false q e) (to_index h' l' ss')) _
            (rest h' l' ss' wf' reach' nothing')
            (λ c' b.
              Bound-above d (suc n) q h l e ss c' le wf (ap is_empty same)
                (subst (λ z. Bound 2 (suc n) q e z c') (sym same) b)))
