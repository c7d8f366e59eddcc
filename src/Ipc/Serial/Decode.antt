-- ===== src/Ipc/Serial/Decode.antt =====
-- What `ipc_serial_decode` reads from an encoded payload.
use native.Mathlib.Omega.{arith}
use rendezv_os.Base.{
  ℕ, ◌+◌, ◌-◌, ◌^◌, ◌<◌, ◌≡◌, refl, ◌∙◌, ap, true, some, List, [], ◌∷◌, ◌++◌, length, length-append,
  leb, ==-refl, append_assoc, get_elem?, get_elem?-append, replicate, Bool,
}
use rendezv_os.Base.{ok, ◌>>=◌}
use rendezv_os.Base.Bytes.{u32, bytes_of, of_bytes, load, of_bytes-bytes_of}
use rendezv_os.Base.Memory.{le→leb, load-append}
use rendezv_os.Ipc.Serial.{
  Case, case_of, VaArg, one_read, read_value, read_loop, decode, fmt_param_count,
}
use rendezv_os.Ipc.Serial.Wire.{
  Fits, pointer, quad, int, uint, null, text, Fields, Typed, end, space, field, payload,
  field_bytes, fields_bytes, wire, length-fields_bytes, length-le, value_at, values_at,
}
use rendezv_os.Ipc.Serial.Encode.{fmt_param_count-Typed, string_nonempty}

-- A memory with one field behind `pre`, and the bytes `rest` behind it.
abbrev pub memory : List ℕ → ℕ → List ℕ → List ℕ → List ℕ
memory pre c p rest = pre ++ (c ∷ (bytes_of 4 (length p) ++ p) ++ rest)

record At (pre p rest : List ℕ) (buf_len off : ℕ) : Type 0 where
  here : off ≡ length pre
  whole : length pre + (5 + length p) + length rest ≡ buf_len
  small : buf_len < 2 ^ 32

module _ {pre p rest : List ℕ} {buf_len off : ℕ} (c : ℕ) (at : At pre p rest buf_len off) where
  open at use {here, whole, small}

  header_fits : leb (u32 (off + 1 + 4)) buf_len ≡ true
  header_fits = le→leb _ _ (omega arith)

  value_fits : leb (u32 (u32 (u32 (off + 1) + 4) + length p)) buf_len ≡ true
  value_fits = le→leb _ _ (omega arith)

  tag_read : get_elem? (memory pre c p rest) off ≡ some c
  tag_read = get_elem?-append off pre _ c here

  len_read : load (memory pre c p rest) (u32 (off + 1)) 4 ≡ some (bytes_of 4 (length p))
  len_read =
      ap (λ m. load m (u32 (off + 1)) 4) (simp append_assoc)
      ∙ load-append (pre ++ c ∷ []) (bytes_of 4 (length p)) (p ++ rest) (u32 (off + 1)) 4
          (omega (arith, length-append {0} pre (c ∷ []))) refl

  len_value : of_bytes (bytes_of 4 (length p)) ≡ length p
  len_value = of_bytes-bytes_of 4 (length p) (omega arith)

  value_read : load (memory pre c p rest) (u32 (u32 (off + 1) + 4)) (length p) ≡ some p
  value_read =
      ap (λ m. load m (u32 (u32 (off + 1) + 4)) (length p)) (simp append_assoc)
      ∙ load-append ((pre ++ c ∷ []) ++ bytes_of 4 (length p)) p rest _ (length p)
          (omega (
            arith,
            length-append {0} pre (c ∷ []),
            length-append {0} (pre ++ c ∷ []) (bytes_of 4 (length p)),
          ))
          refl

  start_of : u32 (u32 (off + 1) + 4) ≡ off + 5
  start_of = omega arith

  next_of : u32 (u32 (u32 (off + 1) + 4) + length p) ≡ off + (5 + length p)
  next_of = omega arith

  read_string_nul :
      (s : List ℕ)
      → p ≡ s ++ 0 ∷ []
      → get_elem? (memory pre c p rest) (u32 (u32 (u32 (off + 1) + 4) + length p + 2 ^ 32 - 1))
        ≡ some 0
  read_string_nul s e =
      ap (λ m. get_elem? m (u32 (u32 (u32 (off + 1) + 4) + length p + 2 ^ 32 - 1)))
        (ap (λ q. pre ++ (c ∷ (bytes_of 4 (length p) ++ q) ++ rest)) e ∙ simp append_assoc)
      ∙ get_elem?-append _ (pre ++ (c ∷ (bytes_of 4 (length p) ++ s))) rest 0 (
          omega (
            arith,
            ap length e,
            length-append {0} s (0 ∷ []),
            length-append {0} pre (c ∷ (bytes_of 4 (length p) ++ s)),
            length-append {0} (bytes_of 4 (length p)) s,
          ))

  -- The checks of a field's header pass, and what is left is to read the value.
  one_read-header :
      (outs : List Bool)
      → one_read (memory pre c p rest) buf_len off c outs ≡ (
          read_value (memory pre c p rest) (u32 (u32 (off + 1) + 4)) (length p) (case_of c) outs
          >>= λ r. ok (r.0, off + (5 + length p), r.1))
  unfolding one_read
  one_read-header outs =
      rw (header_fits, tag_read, len_read, len_value, value_fits, ==-refl c, next_of)

one_read-Fits :
    (pre rest : List ℕ) (buf_len off c : ℕ) {k : Case} {a : VaArg} (outs : List Bool)
    → case_of c ≡ k
    → Fits k a
    → At pre (payload a) rest buf_len off
    → one_read (memory pre c (payload a) rest) buf_len off c (true ∷ outs)
      ≡ ok (value_at (off + 5) a, off + (5 + length (payload a)), outs)
unfolding read_value
one_read-Fits pre rest buf_len off c outs e (pointer {v} h) at =
    rw (one_read-header c at, e, value_read c at, of_bytes-bytes_of 8 v h)
one_read-Fits pre rest buf_len off c outs e (quad {v} h) at =
    rw (one_read-header c at, e, value_read c at, of_bytes-bytes_of 8 v h)
one_read-Fits pre rest buf_len off c outs e (int {v} h) at =
    rw (one_read-header c at, e, value_read c at, of_bytes-bytes_of 4 v h)
one_read-Fits pre rest buf_len off c outs e (uint {v} h) at =
    rw (one_read-header c at, e, value_read c at, of_bytes-bytes_of 4 v h)
one_read-Fits pre rest buf_len off c outs e null at = rw (one_read-header c at, e)
one_read-Fits pre rest buf_len off c outs e (text {s} h) at =
    rw (one_read-header c at, e, string_nonempty s, read_string_nul c at s refl, start_of c at)

-- Fields that stand behind `pre`, to the end of the buffer, are read in order.
read_loop-Typed :
    (pre : List ℕ) (buf_len off : ℕ) (outs : List Bool) {f : List ℕ} {ap' : List VaArg}
    {fs : Fields}
    → Typed f ap' fs
    → off ≡ length pre
    → length pre + length (fields_bytes fs) ≡ buf_len
    → buf_len < 2 ^ 32
    → read_loop f (pre ++ fields_bytes fs) buf_len off (replicate (length fs) true ++ outs)
      ≡ ok (values_at off fs, buf_len)
unfolding read_loop
read_loop-Typed pre buf_len off outs end here whole small = ap (λ n. ok ([], n)) (omega arith)
read_loop-Typed pre buf_len off outs (space e t) here whole small =
    rw (e, read_loop) (read_loop-Typed pre buf_len off outs t here whole small)
read_loop-Typed pre buf_len off outs (field {c} {a} {f} {fs} e k fit t) here whole small = rw (
  e,
  read_loop,
  one_read-Fits pre (fields_bytes fs) buf_len off c (replicate (length fs) true ++ outs) k fit at,
  joined,
  read_loop-Typed begun buf_len (off + (5 + length (payload a))) outs t
      (omega (arith, length-begun)) (omega (arith, length-begun, length-fields_bytes c a fs)) small,
)
  where
    at : At pre (payload a) (fields_bytes fs) buf_len off
    at = record { here = here; whole = omega (arith, length-fields_bytes c a fs); small = small }

    begun : List ℕ
    begun = pre ++ field_bytes c a

    length-begun : length begun ≡ length pre + (5 + length (payload a))
    length-begun = omega (
      arith,
      length-append {0} pre (field_bytes c a),
      length-append {0} (bytes_of 4 (length (payload a))) (payload a),
    )

    joined : memory pre c (payload a) (fields_bytes fs) ≡ begun ++ fields_bytes fs
    joined = simp append_assoc

-- The encoded payload decodes to its fields' values, if no out-pointer is NULL.
pub decode-wire :
    {f : List ℕ} {ap' : List VaArg} {fs : Fields} (outs : List Bool)
    → Typed f ap' fs
    → length (wire fs) < 2 ^ 32
    → decode (some (wire fs)) (length (wire fs)) (some f) (replicate (length fs) true ++ outs)
      ≡ ok (values_at 4 fs)
unfolding decode
decode-wire {f} {fs} outs t small = rw (
  le→leb 4 (length (wire fs)) (omega arith),
  of_bytes-bytes_of 4 (length fs) (omega (arith, length-le fs)),
  count,
  ==-refl (length fs),
  read_loop-Typed (bytes_of 4 (length fs)) (length (wire fs)) 4 outs t refl (omega arith) small,
  ==-refl (length (wire fs)),
)
  where
    count : u32 (fmt_param_count f) ≡ length fs
    count = omega (arith, fmt_param_count-Typed t, length-le fs)
