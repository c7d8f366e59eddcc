-- ===== src/Ipc/Kmsg/Receive.antt =====
-- What `kmsg_from_msg` accepts, and a message from its creation to its decoded arguments.
use native.Mathlib.Decide.{dec_le}
use rendezv_os.Base.{
  ℕ, ◌+◌, ◌-◌, ◌^◌, ◌≤◌, ◌<◌, ◌≡◌, refl, ap, ◌∙◌, ◌%◌, true, Option, none, some, List, ◌++◌, length,
  arith, take, drop, replicate, map, Bool, ◌==◌, ==_iff, Bool-cases, inl, inr,
}
use rendezv_os.Base.{e_in_param, Result, ok, err, fault, ◌>>=◌}
use rendezv_os.Base.Bytes.{u32, of_bytes, of_bytes-bytes_of}
use rendezv_os.Base.Memory.{le→leb, gt→leb}
use rendezv_os.Kalloc.{Kalloc, Answers, ZeroFilled}
use rendezv_os.Ipc.Serial.{VaArg, decode}
use rendezv_os.Ipc.Serial.Wire.{Fields, Typed, wire, seen}
use rendezv_os.Ipc.Serial.Decode.{decode-wire}
use rendezv_os.Ipc.Serial.RoundTrip.{seen-wire}
use rendezv_os.Ipc.Kmsg.{
  MsgData, header, header_size, msg_data_size, msg_data_tag_kmsg, kmsg_magic, kmsg_max_payload,
  kmsg_create, kmsg_from_msg,
}
use rendezv_os.Ipc.Kmsg.Create.{kmsg_create-wire}

-- The fields of the header, as the receiver reads them.
abbrev pub magic_of : List ℕ → ℕ
magic_of km = of_bytes (take 4 km)

abbrev pub module_of : List ℕ → ℕ
module_of km = of_bytes (take 2 (drop 4 km))

abbrev pub opcode_of : List ℕ → ℕ
opcode_of km = of_bytes (take 2 (drop 6 km))

abbrev pub payload_len_of : List ℕ → ℕ
payload_len_of km = of_bytes (take 4 (drop 8 km))

-- No fault; and an accepted carrier is a message with a whole header, whose payload length is the number of
-- bytes behind the header, modulo 2^32.
abbrev pub Validated : MsgData → Result (Option (List ℕ)) → Type 0
Validated d (ok none) = Unit
Validated d (ok (some km)) =
    (d.bytes ≡ some km)
    × (d.msg_type ≡ msg_data_tag_kmsg)
    × (magic_of km ≡ kmsg_magic)
    × (header_size ≤ length km)
    × (payload_len_of km ≡ (length km - header_size) % 2 ^ 32)
Validated d (err e) = ⊥
Validated d fault = ⊥

-- Whatever a carrier of the length that it claims holds, `kmsg_from_msg` returns, does not read outside it, and
-- accepts it only if the tag and the magic agree, the header is inside, and the length in the header is that of
-- the bytes behind it modulo 2^32.
pub kmsg_from_msg-Validated :
    (d : MsgData) (km : List ℕ)
    → d.bytes ≡ some km
    → d.data_len ≡ length km
    → Validated d (kmsg_from_msg (some (some d)))
unfolding kmsg_from_msg
kmsg_from_msg-Validated d km held size = elim (Bool-cases (d.msg_type == msg_data_tag_kmsg)) [
  | inr other ↦ rw (held, other) tt
  | inl tagged ↦ elim (dec_le header_size d.data_len) [
    | no short ↦ rw (held, tagged, gt→leb header_size d.data_len (omega arith)) tt
    | yes room ↦
        rw
          (
            held,
            tagged,
            le→leb header_size d.data_len room,
            le→leb 4 (length km) (omega arith),
            le→leb (8 + 4) (length km) (omega arith),
          )
          (elim (Bool-cases (magic_of km == kmsg_magic)) [
            | inr junk ↦ rw junk tt
            | inl good ↦
                rw good (elim (Bool-cases (payload_len_of km == u32 (d.data_len - header_size))) [
                  | inr differs ↦ rw differs tt
                  | inl agrees ↦ rw agrees (
                    refl,
                    (==_iff _ _).0 tagged,
                    (==_iff _ _).0 good,
                    omega (arith, size, room),
                    (==_iff (payload_len_of km) (u32 (d.data_len - header_size))).0 agrees
                        ∙ ap (λ n. u32 (n - header_size)) size,
                  )
                ])
          ])
  ]
]

-- A receiver: the module, the opcode and the decoded arguments, strings read through their pointers.
abbrev pub open_kmsg : List ℕ → List Bool → Option (List ℕ) → Result (ℕ × ℕ × List VaArg)
open_kmsg f outs none = err e_in_param
open_kmsg f outs (some km) = do
  vs ← decode (some (drop header_size km)) (payload_len_of km) (some f) outs
  ok (module_of km, opcode_of km, map (seen (drop header_size km)) vs)

module _ {f : List ℕ} {args : List VaArg} {fs : Fields} (t : Typed f args fs) (module' opcode : ℕ)
    (small : length (wire fs) ≤ kmsg_max_payload) (module_fits : module' < 2 ^ 16)
    (opcode_fits : opcode < 2 ^ 16) where
  kmsg : List ℕ
  kmsg = header module' opcode (length (wire fs)) ++ wire fs

  made : MsgData
  made = record {
    refcount = 1;
    msg_type = msg_data_tag_kmsg;
    data_len = header_size + length (wire fs);
    bytes = some kmsg;
  }

  kmsg_from_msg-made : kmsg_from_msg (some (some made)) ≡ ok (some kmsg)
  unfolding kmsg_from_msg made kmsg
  kmsg_from_msg-made = rw (
    le→leb header_size (header_size + length (wire fs)) (omega arith),
    le→leb 4 (length (header module' opcode (length (wire fs)) ++ wire fs)) (omega arith),
    le→leb (8 + 4) (length (header module' opcode (length (wire fs)) ++ wire fs)) (omega arith),
    of_bytes-bytes_of 4 (length (wire fs)) (omega arith),
    agree,
  )
    where
      agree : (length (wire fs) == u32 (header_size + length (wire fs) - header_size)) ≡ true
      agree = (==_iff _ _).1 (omega arith)

  open_kmsg-made :
      (outs : List Bool)
      → open_kmsg f (replicate (length fs) true ++ outs) (some kmsg)
        ≡ ok (module', opcode, take (length fs) args)
  unfolding kmsg
  open_kmsg-made outs = rw (
    of_bytes-bytes_of 4 (length (wire fs)) (omega arith),
    decode-wire outs t (omega arith),
    of_bytes-bytes_of 2 module' module_fits,
    of_bytes-bytes_of 2 opcode opcode_fits,
    seen-wire t,
  )

  -- A kernel message arrives: created with enough memory, taken out of its carrier and decoded
  -- under the same format, it gives the receiver the sender's module, opcode and arguments.
  pub kmsg_create-open :
      (answers : Answers) (h : Kalloc) (mem mem' : List ℕ) (outs : List Bool)
      → ZeroFilled answers
      → answers h.calls (header_size + length (wire fs)) ≡ some mem
      → answers (h.calls + 1) msg_data_size ≡ some mem'
      → (do
        r ← kmsg_create answers true module' opcode (some f) args h
        km ← kmsg_from_msg (some r.0)
        open_kmsg f (replicate (length fs) true ++ outs) km)
        ≡ ok (module', opcode, take (length fs) args)
  unfolding made kmsg
  kmsg_create-open answers h mem mem' outs zeroed got got' = rw (
    kmsg_create-wire answers t module' opcode h zeroed small mem mem' got got',
    kmsg_from_msg-made,
    open_kmsg-made outs,
  )
