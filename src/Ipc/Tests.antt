-- ===== src/Ipc/Tests.antt =====
-- Runs of ipc_serial.c and kmsg.c on concrete messages, and their theorems there.
use rendezv_os.Base.{
  ◌≤◌, length-replicate, sym, ◌%◌, ◌==◌, if◌then◌else◌, ◌-◌, ℕ, zero, suc, ◌+◌, ◌^◌, ◌<◌, ◌≡◌, ◌≢◌,
  refl, true, false, Option, none, some, List, [], ◌∷◌, ◌++◌, arith, length, take, replicate, map,
  inl, inr, Bool, ap, get_elem?,
}
use rendezv_os.Base.{e_in_param, Result, ok, err, fault, ◌>>=◌}
use rendezv_os.Kalloc.{Kalloc, Answers, ZeroFilled}
use rendezv_os.Ipc.Serial.{
  Case, case_of, VaArg, is_fmt_space, measure_va, one_write, encode_into_va, one_read, decode,
  Value,
}
use rendezv_os.Ipc.Serial.Wire.{Fits, Fields, Typed, end, space, field, wire, seen}
use rendezv_os.Ipc.Serial.RoundTrip.{decode-encode}
use rendezv_os.Ipc.Serial.Reject.{at_label, measure_va-Unknown}
use rendezv_os.Ipc.Serial.Wrap.{one_read-fault, huge_string, decode-fault}
use rendezv_os.Ipc.Kmsg.{MsgData, kmsg_create, kmsg_from_msg, encode_va}
use rendezv_os.Ipc.Kmsg.Create.{kmsg_create-leak}
use rendezv_os.Ipc.Kmsg.Receive.{Validated, kmsg_from_msg-Validated, open_kmsg, kmsg_create-open}
use rendezv_os.Ipc.Kmsg.Overflow.{encode_va-overflow}
use rendezv_os.Ipc.Kmsg.Limits.{kmsg_create-refuses, encode_va-wire}

-- The format "u s" with 7 and "AB".
abbrev format : List ℕ
format = b'u' ∷ 0x20 ∷ b's' ∷ []

abbrev arguments : List VaArg
arguments = VaArg.unsigned 7 ∷ VaArg.string (some (0x41 ∷ 0x42 ∷ [])) ∷ []

abbrev fields : Fields
fields = (b'u', VaArg.unsigned 7) ∷ (b's', VaArg.string (some (0x41 ∷ 0x42 ∷ []))) ∷ []

typed : Typed format arguments fields
unfolding is_fmt_space case_of
typed =
    field refl refl (Fits.uint (omega arith))
      (space refl (field refl refl (Fits.text (omega arith)) end))

wire_bytes :
    wire fields
    ≡ 2 ∷ 0 ∷ 0 ∷ 0 ∷ b'u' ∷ 4 ∷ 0 ∷ 0 ∷ 0 ∷ 7 ∷ 0 ∷ 0 ∷ 0 ∷ b's' ∷ 3 ∷ 0 ∷ 0 ∷ 0 ∷ 0x41 ∷ 0x42 ∷ 0
      ∷ []
wire_bytes = refl

-- A buffer of the measured size, encoded.
encode_run : encode_into_va (some (replicate 21 0xee)) 21 (some format) arguments ≡ ok (wire fields)
unfolding encode_into_va measure_va one_write is_fmt_space case_of
    rendezv_os.Ipc.Serial.fmt_param_count
encode_run = refl

decode-encode_example :
    (do
      n ← measure_va true (some format) arguments
      w ← encode_into_va (some (replicate n 0xee)) n (some format) arguments
      vs ← decode (some w) n (some format) (true ∷ true ∷ [])
      ok (map (seen w) vs))
    ≡ ok arguments
decode-encode_example =
    decode-encode (λ n. replicate n 0xee) [] typed (omega arith)
      (λ n. rendezv_os.Base.length-replicate n 0xee)

measure_va-Unknown_example : measure_va true (some (b'x' ∷ [])) [] ≡ err e_in_param
unfolding is_fmt_space case_of
measure_va-Unknown_example = measure_va-Unknown (at_label refl refl)

one_read-fault_example : one_read huge_string 9 4 b's' (true ∷ []) ≡ fault
unfolding case_of
one_read-fault_example =
    one_read-fault huge_string 9 4 b's' (0xf7 ∷ 0xff ∷ 0xff ∷ 0xff ∷ []) [] refl (omega arith)
      (omega arith) refl refl refl refl

decode-fault_example : decode (some huge_string) 9 (some (b's' ∷ [])) (true ∷ []) ≡ fault
decode-fault_example = decode-fault [] [] (omega arith)

-- An allocator with memory for every call, and one that fails from call `k` on.
abbrev plenty : Answers
plenty i n = some (replicate n 0)

plenty-ZeroFilled : ZeroFilled plenty
plenty-ZeroFilled i n mem e = ground arith

abbrev one_block : Answers
one_block zero n = some (replicate n 0)
one_block (suc i) n = none

one_block-ZeroFilled : ZeroFilled one_block
one_block-ZeroFilled zero n mem e = ground arith
one_block-ZeroFilled (suc i) n mem e = cc

abbrev fresh : Kalloc
fresh = record { calls = 0; live = 0 }

kmsg_create-open_example :
    (do
      r ← kmsg_create plenty true 3 9 (some format) arguments fresh
      km ← kmsg_from_msg (some r.0)
      open_kmsg format (true ∷ true ∷ []) km)
    ≡ ok (3, 9, arguments)
kmsg_create-open_example =
    kmsg_create-open typed 3 9 (omega arith) (omega arith) (omega arith) plenty fresh
      (replicate 33 0) (replicate 40 0) [] plenty-ZeroFilled refl refl

kmsg_create-leak_example :
    kmsg_create one_block true 3 9 (some format) arguments fresh
    ≡ ok (none, record { calls = 2; live = 1 })
kmsg_create-leak_example =
    kmsg_create-leak one_block typed 3 9 fresh one_block-ZeroFilled (omega arith) (replicate 33 0)
      refl refl

kmsg_create-refuses_example :
    kmsg_create plenty true 3 9 (some (b'x' ∷ [])) [] fresh ≡ ok (none, fresh)
unfolding is_fmt_space case_of
kmsg_create-refuses_example = kmsg_create-refuses plenty true 3 9 fresh (inr (at_label refl refl))

encode_va-wire_example :
    encode_va plenty true true (some format) arguments fresh
    ≡ ok (some (wire fields, 21), record { calls = 1; live = 1 })
encode_va-wire_example = encode_va-wire plenty fresh typed (inl (omega arith)) plenty-ZeroFilled

-- A carrier of twelve zero bytes: it is not accepted, and nothing is read outside it.
abbrev blank : MsgData
blank = record { refcount = 1; msg_type = 1; data_len = 12; bytes = some (replicate 12 0) }

kmsg_from_msg-Validated_example : Validated blank (kmsg_from_msg (some (some blank)))
kmsg_from_msg-Validated_example = kmsg_from_msg-Validated blank (replicate 12 0) refl refl

-- A string of `n` bytes; it is not computed.
string_of : (n : ℕ) → (s : List ℕ) × (length s ≡ n)
string_of n = (replicate n 1, length-replicate n 1)

-- An allocator that has a block of eight bytes.
abbrev eight_bytes : Answers
eight_bytes i n = if n == 8 then some (replicate 8 0) else none

wraps_to_eight : (n : ℕ) → n ≡ 2 ^ 32 - 2 → (10 + n) % 2 ^ 32 ≡ 8
wraps_to_eight n e = omega (arith, e)

below_the_wrap : (n : ℕ) → n ≡ 2 ^ 32 - 2 → 2 ^ 32 - 5 ≤ (n + 1) % 2 ^ 32
below_the_wrap n e = omega (arith, e)

eight_bytes_of : (n : ℕ) → n ≡ 8 → eight_bytes 0 n ≡ some (replicate 8 0)
eight_bytes_of n e = rw e refl

encode_va-overflow_example :
    encode_va eight_bytes true true
      (some (b's' ∷ []))
      (VaArg.string (some ((string_of (2 ^ 32 - 2)).0)) ∷ [])
      fresh
    ≡ fault
encode_va-overflow_example =
    encode_va-overflow eight_bytes fresh ((string_of (2 ^ 32 - 2)).0) (replicate 8 0)
      (below_the_wrap _ ((string_of (2 ^ 32 - 2)).1))
      (eight_bytes_of _ (wraps_to_eight _ ((string_of (2 ^ 32 - 2)).1)))
      (sym (wraps_to_eight _ ((string_of (2 ^ 32 - 2)).1)))
