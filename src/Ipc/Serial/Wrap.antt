-- ===== src/Ipc/Serial/Wrap.antt =====
-- `one_read` adds the length field of a message to the offset in 32 bits.
use rendezv_os.Base.{
  ℕ, ◌+◌, ◌-◌, ◌^◌, ◌≤◌, ◌<◌, ◌≡◌, refl, true, false, some, List, [], ◌∷◌, ◌++◌, length, arith,
  ◌==◌, ==-refl, get_elem?, Bool,
}
use rendezv_os.Base.{fault}
use rendezv_os.Base.Bytes.{u32, of_bytes, load}
use rendezv_os.Base.Memory.{le→leb, get_elem?-none}
use rendezv_os.Ipc.Serial.{
  Case, case_of, one_read, read_loop, decode, is_fmt_space, fmt_param_count,
}

-- A string field whose length runs to 2 ^ 32 passes both length checks, and the test of its last
-- byte reads at 2 ^ 32 - 1, outside the buffer.
pub one_read-fault :
    (base : List ℕ) (buf_len off c : ℕ) (bytes : List ℕ) (outs : List Bool)
    → length base ≡ buf_len
    → buf_len < 2 ^ 32
    → off + 5 ≤ buf_len
    → case_of c ≡ Case.text
    → get_elem? base off ≡ some c
    → load base (off + 1) 4 ≡ some bytes
    → off + 5 + of_bytes bytes ≡ 2 ^ 32
    → one_read base buf_len off c (true ∷ outs) ≡ fault
unfolding one_read
one_read-fault base buf_len off c bytes outs size small room e tag len wraps = rw (
  le→leb (u32 (off + 1 + 4)) buf_len (omega arith),
  tag,
  len_read,
  le→leb (u32 (u32 (u32 (off + 1) + 4) + of_bytes bytes)) buf_len (omega arith),
  ==-refl c,
  e,
  nonempty,
  get_elem?-none base (u32 (u32 (u32 (off + 1) + 4) + of_bytes bytes + 2 ^ 32 - 1)) (omega arith),
)
  where
    first : u32 (off + 1) ≡ off + 1
    first = omega arith

    len_read : load base (u32 (off + 1)) 4 ≡ some bytes
    len_read = rw first len

    nonempty : (of_bytes bytes == 0) ≡ false
    nonempty = ground arith

-- The head of a message with one string, of length 2 ^ 32 - 9.
abbrev pub huge_string : List ℕ
huge_string = 1 ∷ 0 ∷ 0 ∷ 0 ∷ b's' ∷ 0xf7 ∷ 0xff ∷ 0xff ∷ 0xff ∷ []

-- Whatever follows that head, decoding the message under the format "s" reads outside the buffer.
pub decode-fault :
    (rest : List ℕ) (outs : List Bool)
    → length (huge_string ++ rest) < 2 ^ 32
    → decode
        (some (huge_string ++ rest))
        (length (huge_string ++ rest))
        (some (b's' ∷ []))
        (true ∷ outs)
      ≡ fault
unfolding decode read_loop is_fmt_space fmt_param_count case_of
decode-fault rest outs small = rw (
  le→leb 4 (length (huge_string ++ rest)) (omega arith),
  one_read-fault (huge_string ++ rest) (length (huge_string ++ rest)) 4 b's'
      (0xf7 ∷ 0xff ∷ 0xff ∷ 0xff ∷ []) outs refl small (omega arith) refl refl
      (rw (le→leb 9 (length (huge_string ++ rest)) (omega arith))) refl,
)
