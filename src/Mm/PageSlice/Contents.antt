-- ===== src/Mm/PageSlice/Contents.antt =====
-- `page_slice_copy_to_buffer` of kernel/mm/page_slice_copy.c against the bytes of a slice.
use mathlib.Core.List.{append-nil}
use rendezv_os.Base.{
  true, ℕ, zero, suc, ◌+◌, ◌-◌, ◌/◌, ◌%◌, ◌^◌, ◌≤◌, ◌<◌, ◌≡◌, ◌≢◌, ◌⊎◌, refl, ap, sym, ◌∙◌, subst,
  false, ◌||◌, ◌==◌, ltb, arith, Option, none, some, List, [], ◌∷◌, ◌++◌, append_assoc, Bool-cases,
  inl, inr,
}
use rendezv_os.Base.{◌>>=◌, e_in_param, e_rendezvos}
use rendezv_os.Base.Returns.{Gives, Gives-if, Gives-map}
use rendezv_os.Mm.PageSlice.{Entry, PageSlice, max_byte_size}
use rendezv_os.Mm.PageSlice.Api.{page_slice_lookup}
use rendezv_os.Mm.PageSlice.Copy.{
  Copied, min_chunk, copy_chunk, copy_loop, copy_from_mapped, memory_read, emit_to_buffer,
  page_slice_copy_to_buffer,
}
use rendezv_os.Mm.PageSlice.Tree.{view}
use rendezv_os.Mm.PageSlice.Outcomes.{WfSlice}
use rendezv_os.Mm.PageSlice.Calls.{page_slice_lookup-view}

abbrev prepend : Option ℕ → Option (List ℕ) → Option (List ℕ)
prepend none bs = none
prepend (some b) none = none
prepend (some b) (some bs) = some (b ∷ bs)

abbrev byte_in : (ℕ → ℕ) → ℕ → Option Entry → Option ℕ
byte_in memory off none = none
byte_in memory off (some e) = some (memory (e.kernel_virtual_address + off % 4096))

-- The `n` bytes of a slice from an offset on, if each of them has a page.
abbrev pub contents : (ℕ → ℕ) → PageSlice → ℕ → ℕ → Option (List ℕ)
contents memory ps off zero = some []
contents memory ps off (suc n) =
    prepend (byte_in memory off (view (off / 4096) (ps.root))) (contents memory ps (off + 1) n)

abbrev put_before : List ℕ → Option (List ℕ) → Option (List ℕ)
put_before bs none = none
put_before bs (some cs) = some (bs ++ cs)

put_before-nil : (o : Option (List ℕ)) → put_before [] o ≡ o
put_before-nil none = refl
put_before-nil (some cs) = refl

put_before-cons :
    (b : ℕ) (bs : List ℕ) (o : Option (List ℕ))
    → prepend (some b) (put_before bs o) ≡ put_before (b ∷ bs) o
put_before-cons b bs none = refl
put_before-cons b bs (some cs) = refl

-- The bytes at `n` offsets that lie in one page, one after the other.
abbrev InPage : ℕ → ℕ → ℕ → ℕ → Type 0
InPage q n off b = (i : ℕ) → i < n → ((off + i) / 4096 ≡ q) × ((off + i) % 4096 ≡ b + i)

-- A chunk of one page.
contents-chunk :
    (memory : ℕ → ℕ) (ps : PageSlice) (q : ℕ) (e : Entry) (n rest off b : ℕ)
    → view q (ps.root) ≡ some e
    → InPage q n off b
    → contents memory ps off (n + rest)
      ≡ put_before
          (memory_read memory (e.kernel_virtual_address + b) n)
          (contents memory ps (off + n) rest)
contents-chunk memory ps q e zero rest off b found page =
    let none_more : zero + rest ≡ rest = omega arith in
    let here : off + zero ≡ off = omega arith in
    rw (none_more, here) (sym (put_before-nil (contents memory ps off rest)))
contents-chunk memory ps q e (suc n) rest off b found page =
    let a = e.kernel_virtual_address in
    let size : suc n + rest ≡ suc (n + rest) = omega arith in
    let start : (off / 4096 ≡ q) × (off % 4096 ≡ b) = at_start (page 0 (omega arith)) in
    let next : off + 1 + n ≡ off + suc n = omega arith in
    let address : a + (b + 1) ≡ a + b + 1 = omega arith in
    let byte : byte_in memory off (view (off / 4096) (ps.root)) ≡ some (memory (a + b)) =
      ap (λ z. byte_in memory off (view z (ps.root))) (start.0)
      ∙ ap (byte_in memory off) found
      ∙ ap (λ z. some (memory (a + z))) (start.1) in
    ap (contents memory ps off) size
    ∙ ap (λ z. prepend z (contents memory ps (off + 1) (n + rest))) byte
    ∙ ap (prepend (some (memory (a + b)))) (
        contents-chunk memory ps q e n rest (off + 1) (b + 1) found (shift page)
        ∙ ap (λ z. put_before (memory_read memory z n) (contents memory ps (off + 1 + n) rest))
            address
        ∙ ap (λ z. put_before (memory_read memory (a + b + 1) n) (contents memory ps z rest)) next)
    ∙ put_before-cons (memory (a + b)) (memory_read memory (a + b + 1) n)
        (contents memory ps (off + suc n) rest)
  where
    at_start :
        ((off + 0) / 4096 ≡ q) × ((off + 0) % 4096 ≡ b + 0) → (off / 4096 ≡ q) × (off % 4096 ≡ b)
    at_start (e0, e1) = (omega (arith, e0), omega (arith, e1))

    shift : InPage q (suc n) off b → InPage q n (off + 1) (b + 1)
    shift page' i lt =
        let (e0, e1) = page' (i + 1) (omega (arith, lt)) in (omega (arith, e0), omega (arith, e1))

-- The copy has put the bytes after those of before, or failed as one has no page.
abbrev pub Reads : Option (List ℕ) → List ℕ → Copied (List ℕ) → Type 0
Reads none acc m = m.failure ≡ some e_rendezvos
Reads (some bs) acc m = (m.failure ≡ none) × (m.world ≡ acc ++ bs)

Reads-put_before :
    (o : Option (List ℕ)) (acc bs : List ℕ) (m : Copied (List ℕ))
    → Reads o (acc ++ bs) m
    → Reads (put_before bs o) acc m
Reads-put_before none acc bs m reads = reads
Reads-put_before (some cs) acc bs m (e, same) = (e, same ∙ append_assoc acc bs cs)

chunk-InPage : (off n : ℕ) → off % 4096 + n ≤ 4096 → InPage (off / 4096) n off (off % 4096)
chunk-InPage off n fits i lt = (omega (arith, fits, lt), omega (arith, fits, lt))

-- A chunk has a byte, is not longer than the rest and ends in its page.
min_chunk_lem :
    (p rest : ℕ)
    → p < 4096
    → 0 < rest
    → (1 ≤ min_chunk (4096 - p) rest)
      × (min_chunk (4096 - p) rest ≤ rest)
      × (p + min_chunk (4096 - p) rest ≤ 4096)
min_chunk_lem p rest lt pos = elim (Bool-cases (ltb rest (4096 - p))) [
  | inl less ↦ rw less (omega (arith, pos), omega arith, ground (arith, less))
  | inr more ↦ rw more (omega (arith, lt), ground (arith, more), omega (arith, lt))
]

Reads-done :
    (memory : ℕ → ℕ) (ps : PageSlice) (off rest : ℕ) (acc : List ℕ)
    → rest ≡ 0
    → Reads (contents memory ps off rest) acc (record { failure = none; world = acc })
Reads-done memory ps off rest acc e = rw e (refl, sym (append-nil acc))

-- A round with the offset `off` of the chunk, if its page has an entry.
abbrev chunk : ℕ → ℕ → ℕ
chunk off rest = min_chunk (4096 - off % 4096) rest

chunk-Reads :
    (memory : ℕ → ℕ) (ps : PageSlice) (off rest : ℕ) (acc : List ℕ) (e : Entry)
    (m : Copied (List ℕ))
    → 0 < rest
    → view (off / 4096) (ps.root) ≡ some e
    → Reads
        (contents memory ps (off + chunk off rest) (rest - chunk off rest))
        (acc ++ memory_read memory (e.kernel_virtual_address + off % 4096) (chunk off rest))
        m
    → Reads (contents memory ps off rest) acc m
chunk-Reads memory ps off rest acc e m pos found reads =
    let (one, le, fits) = min_chunk_lem (off % 4096) rest (omega arith) pos in
    let whole : chunk off rest + (rest - chunk off rest) ≡ rest = omega (arith, le) in
    subst (λ o. Reads o acc m)
      (sym (
          contents-chunk memory ps (off / 4096) e (chunk off rest) (rest - chunk off rest) off
            (off % 4096) found (chunk-InPage off (chunk off rest) fits))
        ∙ ap (contents memory ps off) whole)
      (Reads-put_before (contents memory ps (off + chunk off rest) (rest - chunk off rest)) acc
        (memory_read memory (e.kernel_virtual_address + off % 4096) (chunk off rest)) m reads)

Reads-missing :
    (memory : ℕ → ℕ) (ps : PageSlice) (off rest : ℕ) (acc : List ℕ)
    → 0 < rest
    → view (off / 4096) (ps.root) ≡ none
    → Reads (contents memory ps off rest) acc (record { failure = some e_rendezvos; world = acc })
Reads-missing memory ps off zero acc pos nothing = absurd (omega arith)
Reads-missing memory ps off (suc n) acc pos nothing =
    subst
      (λ o.
        Reads (prepend (byte_in memory off o) (contents memory ps (off + 1) n)) acc
          (record { failure = some e_rendezvos; world = acc }))
      (sym nothing) refl

copy_loop-Reads :
    (memory : ℕ → ℕ) (ps : PageSlice) (byte_off len n done : ℕ) (acc : List ℕ)
    → WfSlice ps
    → byte_off + len ≤ max_byte_size
    → len ≤ done + n
    → Gives
        (Reads (contents memory ps (byte_off + done) (len - done)) acc)
        (copy_loop (emit_to_buffer memory) ps byte_off len n done acc)
unfolding copy_loop
copy_loop-Reads memory ps byte_off len zero done acc wf small fuel =
    let end : ltb done len ≡ false = ground (arith, fuel) in
    rw end (Reads-done memory ps (byte_off + done) (len - done) acc (omega (arith, fuel)))
copy_loop-Reads memory ps byte_off len (suc n) done acc wf small fuel =
    Gives-if (Reads (contents memory ps off (len - done)) acc) (ltb done len) _ _
      (λ more.
        let lt : done < len = ground (arith, more) in
        let word : off % 2 ^ 64 ≡ off = omega (arith, lt, small) in
        subst
          (λ z. Gives (Reads (contents memory ps off (len - done)) acc) (
            page_slice_lookup (z / 4096) ps
            >>= copy_chunk (emit_to_buffer memory) z (len - done) acc
                (λ c w'. copy_loop (emit_to_buffer memory) ps byte_off len n (done + c) w')))
          (sym word)
          (rw (page_slice_lookup-view (off / 4096) ps (omega (arith, lt, small)) wf) (
            round lt (view (off / 4096) (ps.root)) refl (λ c acc' one.
              copy_loop-Reads memory ps byte_off len n (done + c) acc' wf small
                (omega (arith, one, fuel))))))
      (λ end. Reads-done memory ps off (len - done) acc (ground (arith, end)))
  where
    off : ℕ
    off = byte_off + done

    round :
        done < len
        → (o : Option Entry) → view (off / 4096) (ps.root) ≡ o
        → ((c : ℕ) (acc' : List ℕ)
            → 1 ≤ c
            → Gives
                (Reads (contents memory ps (byte_off + (done + c)) (len - (done + c))) acc')
                (copy_loop (emit_to_buffer memory) ps byte_off len n (done + c) acc'))
        → Gives (Reads (contents memory ps off (len - done)) acc) (
            copy_chunk
              (emit_to_buffer memory)
              off
              (len - done)
              acc
              (λ c w'. copy_loop (emit_to_buffer memory) ps byte_off len n (done + c) w')
              o)
    round lt none found rest =
        Reads-missing memory ps off (len - done) acc (omega (arith, lt)) found
    round lt (some e) found rest =
        let pos : 0 < len - done = omega (arith, lt) in
        let c = chunk off (len - done) in
        let acc' = acc ++ memory_read memory (e.kernel_virtual_address + off % 4096) c in
        let place : byte_off + (done + c) ≡ off + c = omega arith in
        let left : len - (done + c) ≡ len - done - c = omega arith in
        Gives-map (Reads (contents memory ps (byte_off + (done + c)) (len - (done + c))) acc')
          (Reads (contents memory ps off (len - done)) acc)
          (copy_loop (emit_to_buffer memory) ps byte_off len n (done + c) acc')
          (λ m r. chunk-Reads memory ps off (len - done) acc e m pos found (
            subst (λ z. Reads (contents memory ps z (len - done - c)) acc' m) place
              (subst (λ z. Reads (contents memory ps (byte_off + (done + c)) z) acc' m) left r)))
          (rest c acc' (min_chunk_lem (off % 4096) (len - done) (omega arith) pos).0)

-- What a copy of `len` bytes from `byte_off` on leaves.
pub data Copies (memory : ℕ → ℕ) (ps : PageSlice) (byte_off len : ℕ)
    : Copied (List ℕ) → Type 0 where
  in_range :
      (m : Copied (List ℕ))
      → (len ≡ 0) ⊎ (byte_off + len ≤ ps.size)
      → Reads (contents memory ps byte_off len) [] m
      → Copies memory ps byte_off len m
  out_of_range :
      (m : Copied (List ℕ))
      → len ≢ 0
      → ps.size < byte_off + len
      → m.failure ≡ some e_in_param
      → m.world ≡ []
      → Copies memory ps byte_off len m

-- On a well-formed slice a copy to a non-NULL buffer returns without a fault. A range that is not empty and not inside the
-- slice gives -E_IN_PARAM and writes nothing. Otherwise, if each byte of the range has a page, the buffer gets
-- those bytes in order; and if one has none, the call gives -E_RENDEZVOS.
pub page_slice_copy_to_buffer-Copies :
    (memory : ℕ → ℕ) (ps : PageSlice) (byte_off len : ℕ)
    → WfSlice ps
    → Gives (Copies memory ps byte_off len) (page_slice_copy_to_buffer true memory ps byte_off len)
unfolding page_slice_copy_to_buffer copy_from_mapped
page_slice_copy_to_buffer-Copies memory ps byte_off len wf =
    Gives-if (Copies memory ps byte_off len) (len == 0) _ _
      (λ null.
        in_range (record { failure = none; world = [] }) (inl (ground (arith, null)))
          (Reads-done memory ps byte_off len [] (ground (arith, null))))
      (λ some_bytes.
        Gives-if (Copies memory ps byte_off len)
          (ltb (ps.size) byte_off || ltb (ps.size - byte_off) len) _ _
          (λ out.
            out_of_range (record { failure = some e_in_param; world = [] })
              (ground (arith, some_bytes)) (ground (arith, out)) refl refl)
          (λ inside. whole (ground (arith, inside))))
  where
    whole :
        byte_off + len ≤ ps.size
        → Gives
            (Copies memory ps byte_off len)
            (copy_loop (emit_to_buffer memory) ps byte_off len len 0 [])
    whole le =
        let start : byte_off + 0 ≡ byte_off = omega arith in
        let all : len - 0 ≡ len = omega arith in
        Gives-map (Reads (contents memory ps (byte_off + 0) (len - 0)) [])
          (Copies memory ps byte_off len)
          (copy_loop (emit_to_buffer memory) ps byte_off len len 0 [])
          (λ m r. in_range m (inr le) (
            subst (λ z. Reads (contents memory ps z len) [] m) start
              (subst (λ z. Reads (contents memory ps (byte_off + 0) z) [] m) all r)))
          (copy_loop-Reads memory ps byte_off len len 0 [] wf (omega (arith, le, wf.size_fits))
            (omega arith))
