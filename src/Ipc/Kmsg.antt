-- ===== src/Ipc/Kmsg.antt =====
-- kernel/ipc/kmsg.c, `ipc_serial_encode_va` of kernel/ipc/ipc_serial.c, and the payload side of
-- kernel/ipc/message.c: kernel messages in allocated memory.
-- A `kmsg_t` is its bytes: the header (magic u32, module u16, opcode u16, payload_len u32) and the
-- payload behind it. The size of a `Msg_Data_t`, which nothing depends on, is a constant.
pub mod Create
pub mod Receive
pub mod Limits
pub mod Overflow
use rendezv_os.Base.{
  ℕ, ◌+◌, ◌-◌, ◌%◌, ◌^◌, Bool, true, false, ◌&&◌, Option, none, some, List, [], ◌∷◌, ◌++◌, ltb, leb,
  ◌==◌, if◌then◌else◌, length, take, drop, replicate,
}
use rendezv_os.Base.{Result, ok, err, fault, ◌>>=◌, access}
use rendezv_os.Base.Bytes.{u32, bytes_of, of_bytes, load, store}
use rendezv_os.Kalloc.{Kalloc, Answers, m_alloc, m_free}
use rendezv_os.Ipc.Serial.{VaArg, measure_va, encode_into_va}

-- `struct Msg_Data`. `free_data` is always `free_msgdata_ref_default` here, and is left out.
pub record MsgData : Type 0 where
  pub refcount : ℕ
  pub msg_type : ℕ
  pub data_len : ℕ
  pub bytes : Option (List ℕ)

abbrev pub msg_data_tag_kmsg : ℕ
msg_data_tag_kmsg = 1

abbrev pub kmsg_magic : ℕ
kmsg_magic = 0x47534d4c

abbrev pub kmsg_max_payload : ℕ
kmsg_max_payload = 0x1000

-- `offsetof(kmsg_t, payload)`
abbrev pub header_size : ℕ
header_size = 12

abbrev pub header : ℕ → ℕ → ℕ → List ℕ
header module' opcode len =
    bytes_of 4 kmsg_magic ++ (bytes_of 2 module' ++ (bytes_of 2 opcode ++ bytes_of 4 len))

abbrev pub msg_data_size : ℕ
msg_data_size = 40

module _ (answers : Answers) where
  -- The tests behind the allocation of the structure. Where they fail, `ref_put` drops the only
  -- reference, and `free_msgdata_ref_default` frees the structure, whose `data` is still NULL.
  fill_data : ℕ → ℕ → Option (List ℕ) → Option (List ℕ) × Kalloc → Option MsgData × Kalloc
  fill_data msg_type data_len bytes (none, h) = (none, h)
  fill_data msg_type data_len none (some mem, h) = (none, m_free h)
  fill_data msg_type data_len (some bytes) (some mem, h) =
      if ltb 0 data_len
      then (
        some
            (record { refcount = 1; msg_type = msg_type; data_len = data_len; bytes = some bytes }),
        h,
      )
      else (none, m_free h)

  unfoldable pub create_message_data : ℕ → ℕ → Option (List ℕ) → Kalloc → Option MsgData × Kalloc
  unfolding fill_data
  create_message_data msg_type data_len bytes h =
      fill_data msg_type data_len bytes (m_alloc answers msg_data_size h)

  -- What `ipc_serial_encode_va` does with the memory, and with the result of the encoding.
  encoded : ℕ → Result (List ℕ) → Kalloc → Result (Option (List ℕ × ℕ) × Kalloc)
  encoded total fault h = fault
  encoded total (err e) h = ok (none, m_free h)
  encoded total (ok buf) h = ok (some (buf, total), h)

  encode_allocated :
      ℕ
      → Option (List ℕ)
      → List VaArg
      → Option (List ℕ) × Kalloc
      → Result (Option (List ℕ × ℕ) × Kalloc)
  unfolding encoded
  encode_allocated total fmt ap (none, h) = ok (none, h)
  encode_allocated total fmt ap (some mem, h) =
      encoded total (encode_into_va (some mem) total fmt ap) h

  encode_measured :
      Result ℕ
      → Bool
      → Option (List ℕ)
      → List VaArg
      → Kalloc
      → Result (Option (List ℕ × ℕ) × Kalloc)
  unfolding encode_allocated
  encode_measured fault present fmt ap h = fault
  encode_measured (err e) present fmt ap h = ok (none, h)
  encode_measured (ok total) false fmt ap h = ok (none, h)
  encode_measured (ok total) true fmt ap h = encode_allocated total fmt ap (m_alloc answers total h)

  -- The buffer and `*out_len`; `present` is whether this CPU has an allocator, `out` whether
  -- `out_len` is non-NULL.
  unfoldable pub encode_va :
      Bool → Bool → Option (List ℕ) → List VaArg → Kalloc → Result (Option (List ℕ × ℕ) × Kalloc)
  unfolding encode_measured
  encode_va false present fmt ap h = ok (none, h)
  encode_va true present fmt ap h = encode_measured (measure_va true fmt ap) present fmt ap h

  -- `kmsg_create` once the payload is encoded.
  kmsg_encoded : ℕ → List ℕ → Result (List ℕ) → Kalloc → Result (Option MsgData × Kalloc)
  unfolding create_message_data
  kmsg_encoded len head fault h = fault
  kmsg_encoded len head (err e) h = ok (none, m_free h)
  kmsg_encoded len head (ok payload) h =
      ok (create_message_data msg_data_tag_kmsg (header_size + len) (some (head ++ payload)) h)

  -- With the memory: clear it, write the header, encode into the payload.
  kmsg_allocated :
      ℕ
      → ℕ
      → ℕ
      → Option (List ℕ)
      → List VaArg
      → Option (List ℕ) × Kalloc
      → Result (Option MsgData × Kalloc)
  unfolding kmsg_encoded
  kmsg_allocated module' opcode len fmt ap (none, h) = ok (none, h)
  kmsg_allocated module' opcode len fmt ap (some mem, h) = do
    cleared ← access (store mem 0 (replicate (header_size + len) 0))
    km ← access (store cleared 0 (header module' opcode len))
    kmsg_encoded len (take header_size km) (encode_into_va (some (drop header_size km)) len fmt ap)
        h

  kmsg_measured :
      Result ℕ
      → Bool
      → ℕ
      → ℕ
      → Option (List ℕ)
      → List VaArg
      → Kalloc
      → Result (Option MsgData × Kalloc)
  unfolding kmsg_allocated
  kmsg_measured fault present module' opcode fmt ap h = fault
  kmsg_measured (err e) present module' opcode fmt ap h = ok (none, h)
  kmsg_measured (ok len) present module' opcode fmt ap h =
      if ltb kmsg_max_payload len
      then ok (none, h)
      else if ltb (u32 (2 ^ 64 - 1 - header_size)) len
      then ok (none, h)
      else if present
      then kmsg_allocated module' opcode len fmt ap (m_alloc answers (header_size + len) h)
      else ok (none, h)

  unfoldable pub kmsg_create :
      Bool → ℕ → ℕ → Option (List ℕ) → List VaArg → Kalloc → Result (Option MsgData × Kalloc)
  unfolding kmsg_measured
  kmsg_create present module' opcode fmt ap h =
      kmsg_measured (measure_va true fmt ap) present module' opcode fmt ap h

-- The tests on the bytes of the carrier. The view that it returns is the bytes themselves.
kmsg_view : ℕ → List ℕ → Result (Option (List ℕ))
kmsg_view data_len km = do
  magic ← access (load km 0 4)
  if of_bytes magic == kmsg_magic
      then (do
        len ← access (load km 8 4)
        if of_bytes len == u32 (data_len - header_size) then ok (some km) else ok none)
      else ok none

kmsg_data : MsgData → Option (List ℕ) → Result (Option (List ℕ))
unfolding kmsg_view
kmsg_data d none = ok none
kmsg_data d (some km) =
    if d.msg_type == msg_data_tag_kmsg && leb header_size d.data_len
    then kmsg_view d.data_len km
    else ok none

-- `none` is a NULL message, `some none` one with no data.
unfoldable pub kmsg_from_msg : Option (Option MsgData) → Result (Option (List ℕ))
unfolding kmsg_data
kmsg_from_msg none = ok none
kmsg_from_msg (some none) = ok none
kmsg_from_msg (some (some d)) = kmsg_data d d.bytes
