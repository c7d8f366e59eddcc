-- ===== src/Mm/PageSlice/Copy.antt =====
-- kernel/mm/page_slice_copy.c: the copy of bytes of a slice, chunk by chunk. The memory is a function of the
-- address, and a kernel page ends below 2^64.
use rendezv_os.Base.{
  Bool, true, false, ℕ, zero, suc, ◌+◌, ◌-◌, ◌/◌, ◌%◌, ◌^◌, ◌||◌, ◌==◌, ltb, Option, none, some,
  List, [], ◌∷◌, ◌++◌, if◌then◌else◌,
}
use rendezv_os.Base.{Result, ok, fault, ◌>>=◌, Error, e_in_param, e_rendezvos}
use rendezv_os.Mm.PageSlice.{Entry, PageSlice}
use rendezv_os.Mm.PageSlice.Api.{page_slice_lookup, page_slice_get_size}

-- The error code of a call, if any, and what it leaves.
pub record Copied (W : Type 0) : Type 0 where
  pub failure : Option Error
  pub world : W

-- `page_slice_copy_emit_fn`: the address of the chunk, its length and its offset in the slice.
abbrev pub Emit : Type 0 → Type 0
Emit W = ℕ → ℕ → ℕ → W → Copied W

abbrev pub min_chunk : ℕ → ℕ → ℕ
min_chunk chunk rest = if ltb rest chunk then rest else chunk

-- A round of the loop at the offset `off`, with the entry that the lookup finds and `rest` bytes to go.
abbrev pub copy_chunk :
    {W : Type 0}
    → Emit W
    → ℕ
    → ℕ
    → W
    → (ℕ → W → Result (Copied W))
    → Option Entry
    → Result (Copied W)
copy_chunk emit off rest w next none = ok (record { failure = some e_rendezvos; world = w })
copy_chunk emit off rest w next (some e) =
    let in_page = off % 4096 in
    let chunk = min_chunk (4096 - in_page) rest in
    let m = emit (e.kernel_virtual_address + in_page) chunk off w in
    elim (m.failure) [ some code ↦ ok m | none ↦ next chunk (m.world) ]

-- The loop of `page_slice_copy_from_mapped`, with the rounds that are left.
unfoldable pub copy_loop : {W : Type 0} → Emit W → PageSlice → ℕ → ℕ → ℕ → ℕ → W → Result (Copied W)
copy_loop emit slice byte_off len zero done w =
    if ltb done len then fault else ok (record { failure = none; world = w })
copy_loop emit slice byte_off len (suc n) done w =
    if ltb done len
    then (let off = (byte_off + done) % 2 ^ 64 in
        page_slice_lookup (off / 4096) slice
        >>= copy_chunk emit off (len - done) w
            (λ chunk w'. copy_loop emit slice byte_off len n (done + chunk) w'))
    else ok (record { failure = none; world = w })

-- `page_slice_copy_from_mapped` of a slice; a chunk has a byte at least.
unfoldable pub copy_from_mapped : {W : Type 0} → Emit W → PageSlice → ℕ → ℕ → W → Result (Copied W)
copy_from_mapped emit slice byte_off len w =
    if len == 0
    then ok (record { failure = none; world = w })
    else if ltb (page_slice_get_size (some slice)) byte_off
        || ltb (page_slice_get_size (some slice) - byte_off) len
    then ok (record { failure = some e_in_param; world = w })
    else copy_loop emit slice byte_off len len 0 w

abbrev pub memory_read : (ℕ → ℕ) → ℕ → ℕ → List ℕ
memory_read memory a zero = []
memory_read memory a (suc n) = memory a ∷ memory_read memory (a + 1) n

-- `page_slice_emit_to_buffer`; the buffer is what is written of it so far, `done` bytes.
abbrev pub emit_to_buffer : (ℕ → ℕ) → Emit (List ℕ)
emit_to_buffer memory src_kva chunk_len src_byte_off dst = record {
  failure = none;
  world = dst ++ memory_read memory src_kva chunk_len;
}

-- What is written to the buffer; the first argument is whether `dst` is non-NULL. The lock of the slice is
-- taken again for each chunk; the slice is taken not to change between them.
unfoldable pub page_slice_copy_to_buffer :
    Bool → (ℕ → ℕ) → PageSlice → ℕ → ℕ → Result (Copied (List ℕ))
page_slice_copy_to_buffer false memory slice byte_off len =
    ok (record { failure = some e_in_param; world = [] })
page_slice_copy_to_buffer true memory slice byte_off len =
    copy_from_mapped (emit_to_buffer memory) slice byte_off len []
