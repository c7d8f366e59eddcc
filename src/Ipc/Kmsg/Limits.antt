-- ===== src/Ipc/Kmsg/Limits.antt =====
-- The paths on which `kmsg_create` and `ipc_serial_encode_va` give up, and what stays allocated.
use rendezv_os.Base.{
  ℕ, ◌+◌, ◌%◌, ◌^◌, ◌≤◌, refl, ◌<◌, leb, ltb, false, Option, if◌then◌else◌, arith, ◌≡◌, ◌∙◌, ap,
  true, none, some, List, length, Option-cases, ◌⊎◌, inl, inr, Bool, lt→ltb,
}
use rendezv_os.Base.{ok, err, e_in_param}
use rendezv_os.Base.Bytes.{u32}
use rendezv_os.Kalloc.{Kalloc, Answers, ZeroFilled}
use rendezv_os.Ipc.Serial.{VaArg, encode_into_va}
use rendezv_os.Ipc.Serial.Wire.{Fields, Typed, wire}
use rendezv_os.Ipc.Serial.Measure.{measure_va-u32, measure_va-wire}
use rendezv_os.Ipc.Serial.Encode.{encode_into_va-wire}
use rendezv_os.Ipc.Serial.Reject.{Unknown, measure_va-Unknown}
use rendezv_os.Ipc.Kmsg.{kmsg_max_payload, kmsg_create, encode_va}
use rendezv_os.Ipc.Kmsg.Create.{length-zeros}

-- With a payload whose length modulo 2^32, which is what is measured, is above a page, and with a format
-- that has an unknown label, `kmsg_create` returns NULL and asks for no memory, whatever the allocator
-- would answer.
pub kmsg_create-refuses :
    (answers : Answers) (present : Bool) (module' opcode : ℕ) (h : Kalloc) {f : List ℕ}
    {args : List VaArg}
    → ((fs : Fields) × Typed f args fs × (kmsg_max_payload < length (wire fs) % 2 ^ 32))
      ⊎ Unknown f args
    → kmsg_create answers present module' opcode (some f) args h ≡ ok (none, h)
unfolding kmsg_create
kmsg_create-refuses answers present module' opcode h (inl (fs, t, large)) =
    rw (measure_va-u32 t, lt→ltb kmsg_max_payload (u32 (length (wire fs))) large)
kmsg_create-refuses answers present module' opcode h (inr u) = rw (measure_va-Unknown u)

-- What `ipc_serial_encode_va` leaves of an encoding: the bytes and their length in a new block, or NULL
-- with no block more than before.
abbrev pub wire_in : Option (List ℕ) → List ℕ → Kalloc → Option (List ℕ × ℕ) × Kalloc
wire_in none bytes h = (none, record h { calls = h.calls + 1 })
wire_in (some mem) bytes h =
    (some (bytes, length bytes), record { calls = h.calls + 1; live = h.live + 1 })

-- A buffer below four bytes has no room for the count.
encode_into_va-short :
    (mem : List ℕ) (total : ℕ) (f : List ℕ) (args : List VaArg)
    → leb 4 total ≡ false
    → encode_into_va (some mem) total (some f) args ≡ err e_in_param
unfolding encode_into_va
encode_into_va-short mem total f args short = rw short refl

-- With typed arguments and an allocator of zero-filled memory, `ipc_serial_encode_va` returns in two cases.
-- If the encoding is shorter than 2^32 bytes, it gives the encoding and its length in a new block, or NULL
-- and no new block if the allocator has none. If the encoding is not shorter, and its length modulo 2^32
-- is below 4, it gives NULL, and a block that it got is given back.
pub encode_va-wire :
    (answers : Answers) (h : Kalloc) {f : List ℕ} {args : List VaArg} {fs : Fields}
    → Typed f args fs
    → (length (wire fs) < 2 ^ 32) ⊎ ((2 ^ 32 ≤ length (wire fs)) × (length (wire fs) % 2 ^ 32 < 4))
    → ZeroFilled answers
    → encode_va answers true true (some f) args h
      ≡ ok (
          if ltb (length (wire fs)) (2 ^ 32)
          then wire_in (answers h.calls (length (wire fs))) (wire fs) h
          else (none, record h { calls = h.calls + 1 }))
unfolding encode_va
encode_va-wire answers h {fs} t (inl small) zeroed =
    rw (lt→ltb (length (wire fs)) (2 ^ 32) small)
      (elim (Option-cases (answers h.calls (length (wire fs)))) [
        | inl empty ↦ rw (measure_va-wire t small, empty)
        | inr (mem, got) ↦ rw (
          measure_va-wire t small,
          got,
          encode_into_va-wire mem t small
              (ap length (zeroed _ _ mem got) ∙ length-zeros (length (wire fs))),
        )
      ])
encode_va-wire answers h {f} {args} {fs} t (inr (large, short)) zeroed =
    let long : ltb (length (wire fs)) (2 ^ 32) ≡ false = ground (arith, large) in
    let refuses : leb 4 (u32 (length (wire fs))) ≡ false = ground (arith, short) in
    rw long (elim (Option-cases (answers h.calls (u32 (length (wire fs))))) [
      | inl empty ↦ rw (measure_va-u32 t, empty)
      | inr (mem, got) ↦
          rw
            (
              measure_va-u32 t,
              got,
              encode_into_va-short mem (u32 (length (wire fs))) f args refuses,
            )
            (ap (λ n. ok (none, record { calls = h.calls + 1; live = n })) (omega arith))
    ])
