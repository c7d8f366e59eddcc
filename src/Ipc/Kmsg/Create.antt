-- ===== src/Ipc/Kmsg/Create.antt =====
-- What `kmsg_create` builds, and what it leaves allocated on each path.
use rendezv_os.Base.{
  ℕ, ◌+◌, ◌-◌, ◌^◌, ◌≤◌, ◌<◌, ◌≡◌, refl, ◌∙◌, ap, true, false, none, some, List, [], ◌++◌, length,
  length-append, arith, drop, replicate, length-replicate, length-drop, ltb,
}
use rendezv_os.Base.{ok}
use rendezv_os.Base.Bytes.{u32}
use rendezv_os.Base.Memory.{store-append}
use rendezv_os.Kalloc.{Kalloc, Answers, ZeroFilled}
use rendezv_os.Ipc.Serial.{VaArg}
use rendezv_os.Ipc.Serial.Wire.{Fields, Typed, wire}
use rendezv_os.Ipc.Serial.Measure.{measure_va-wire}
use rendezv_os.Ipc.Serial.Encode.{encode_into_va-wire}
use rendezv_os.Ipc.Kmsg.{
  header, header_size, msg_data_size, msg_data_tag_kmsg, kmsg_max_payload, create_message_data,
  kmsg_allocated, kmsg_create,
}

abbrev pub zeros : ℕ → List ℕ
zeros n = replicate n 0

pub length-zeros : (n : ℕ) → length (zeros n) ≡ n
length-zeros n = length-replicate n 0

pub le→ltb : (a b : ℕ) → b ≤ a → ltb a b ≡ false
le→ltb a b h = ground arith

module _ (answers : Answers) {f : List ℕ} {args : List VaArg} {fs : Fields}
    (t : Typed f args fs) where
  -- The memory is cleared, the header written, and the payload encoded behind it.
  kmsg_allocated-Typed :
      (module' opcode : ℕ) (mem : List ℕ) (h : Kalloc)
      → length (wire fs) < 2 ^ 32
      → length mem ≡ header_size + length (wire fs)
      → kmsg_allocated answers module' opcode (length (wire fs)) (some f) args (some mem, h)
        ≡ ok (
            create_message_data answers msg_data_tag_kmsg
              (header_size + length (wire fs))
              (some (header module' opcode (length (wire fs)) ++ wire fs))
              h)
  unfolding kmsg_allocated
  kmsg_allocated-Typed module' opcode mem h small size = rw (
    store-append [] mem (zeros (header_size + length (wire fs))) 0 refl
        (omega (arith, length-zeros (header_size + length (wire fs)))),
    store-append [] cleared (header module' opcode (length (wire fs))) 0 refl
        (omega (arith, length-cleared)),
    encode_into_va-wire (drop header_size cleared) t small
        (omega (arith, length-drop {0} header_size cleared, length-cleared)),
  )
    where
      cleared : List ℕ
      cleared =
          zeros (header_size + length (wire fs))
          ++ drop (length (zeros (header_size + length (wire fs)))) mem

      length-cleared : length cleared ≡ header_size + length (wire fs)
      length-cleared =
          let n : ℕ = header_size + length (wire fs) in
          omega (
            arith,
            length-append {0} (zeros n) (drop (length (zeros n)) mem),
            length-zeros n,
            length-drop {0} (length (zeros n)) mem,
          )

  module _ (module' opcode : ℕ) (h : Kalloc) (zeroed : ZeroFilled answers)
      (small : length (wire fs) ≤ kmsg_max_payload) where
    measured : length (wire fs) < 2 ^ 32
    measured = omega arith

    -- The tests on the length pass.
    kmsg_create-measured :
        (mem : List ℕ)
        → answers h.calls (header_size + length (wire fs)) ≡ some mem
        → kmsg_create answers true module' opcode (some f) args h
          ≡ ok (
              create_message_data answers msg_data_tag_kmsg
                (header_size + length (wire fs))
                (some (header module' opcode (length (wire fs)) ++ wire fs))
                (record { calls = h.calls + 1; live = h.live + 1 }))
    unfolding kmsg_create
    kmsg_create-measured mem got =
        rw
          (
            measure_va-wire t measured,
            le→ltb kmsg_max_payload (length (wire fs)) small,
            le→ltb (u32 (2 ^ 64 - 1 - header_size)) (length (wire fs)) (omega arith),
            got,
          )
          (kmsg_allocated-Typed module' opcode mem _ measured
            (ap length (zeroed _ _ mem got) ∙ length-zeros (header_size + length (wire fs))))

    -- With memory for both blocks the message holds one reference, the tag, the header and the
    -- payload that the format describes.
    pub kmsg_create-wire :
        (mem mem' : List ℕ)
        → answers h.calls (header_size + length (wire fs)) ≡ some mem
        → answers (h.calls + 1) msg_data_size ≡ some mem'
        → kmsg_create answers true module' opcode (some f) args h
          ≡ ok (
            some (record {
              refcount = 1;
              msg_type = msg_data_tag_kmsg;
              data_len = header_size + length (wire fs);
              bytes = some (header module' opcode (length (wire fs)) ++ wire fs);
            }),
            record { calls = h.calls + 1 + 1; live = h.live + 1 + 1 },
          )
    unfolding create_message_data
    kmsg_create-wire mem mem' got got' = rw (kmsg_create-measured mem got, got', nonempty)
      where
        nonempty : ltb 0 (header_size + length (wire fs)) ≡ true
        nonempty = ground arith

    -- If only the second allocation fails, the caller gets NULL and the first block stays live.
    pub kmsg_create-leak :
        (mem : List ℕ)
        → answers h.calls (header_size + length (wire fs)) ≡ some mem
        → answers (h.calls + 1) msg_data_size ≡ none
        → kmsg_create answers true module' opcode (some f) args h
          ≡ ok (none, record { calls = h.calls + 1 + 1; live = h.live + 1 })
    unfolding create_message_data
    kmsg_create-leak mem got got' = rw (kmsg_create-measured mem got, got')
