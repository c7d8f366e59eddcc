-- ===== src/Ipc/Serial/RoundTrip.antt =====
-- The receiver sees what the sender passed: measure, encode and decode together.
use rendezv_os.Base.{
  ℕ, ◌+◌, ◌^◌, ◌<◌, ◌≡◌, refl, ◌∙◌, ap, true, some, List, [], ◌∷◌, ◌++◌, length, length-append,
  arith, append_assoc, replicate, Bool, map, drop, take, drop-append,
}
use mathlib.Core.Path.{ap₂}
use rendezv_os.Base.{ok, ◌>>=◌}
use rendezv_os.Base.Bytes.{bytes_of}
use rendezv_os.Ipc.Serial.{Case, VaArg, measure_va, encode_into_va, decode}
use rendezv_os.Ipc.Serial.Wire.{
  IsText, Fits, pointer, quad, int, uint, null, text, Fields, Typed, end, space, field, payload,
  field_bytes, fields_bytes, wire, value_at, values_at, c_string, seen,
}
use rendezv_os.Ipc.Serial.Measure.{measure_va-wire}
use rendezv_os.Ipc.Serial.Encode.{encode_into_va-wire}
use rendezv_os.Ipc.Serial.Decode.{memory, decode-wire}

c_string-append : (s rest : List ℕ) → IsText s → c_string (s ++ 0 ∷ rest) ≡ s
c_string-append [] rest h = refl
c_string-append (b ∷ s) rest (pos, small, h) = ground (arith, c_string-append s rest h)

seen-value_at :
    (pre rest : List ℕ) (c : ℕ) {k : Case} {a : VaArg} (off : ℕ)
    → Fits k a
    → off ≡ length pre
    → seen (memory pre c (payload a) rest) (value_at (off + 5) a) ≡ a
seen-value_at pre rest c off (pointer h) here = refl
seen-value_at pre rest c off (quad h) here = refl
seen-value_at pre rest c off (int h) here = refl
seen-value_at pre rest c off (uint h) here = refl
seen-value_at pre rest c off null here = refl
seen-value_at pre rest c off (text {s} h) here =
    ap (λ (t : List ℕ). VaArg.string (some t))
      (ap c_string (
          ap (drop (off + 5)) (simp append_assoc)
          ∙ drop-append (off + 5) (pre ++ c ∷ bytes_of 4 (length (s ++ 0 ∷ []))) (s ++ 0 ∷ rest)
              (omega (arith, length-append {0} pre (c ∷ bytes_of 4 (length (s ++ 0 ∷ []))))))
        ∙ c_string-append s rest h)

seen-values_at :
    (pre : List ℕ) (off : ℕ) {f : List ℕ} {ap' : List VaArg} {fs : Fields}
    → Typed f ap' fs
    → off ≡ length pre
    → map (seen (pre ++ fields_bytes fs)) (values_at off fs) ≡ take (length fs) ap'
seen-values_at pre off end here = refl
seen-values_at pre off (space e t) here = seen-values_at pre off t here
seen-values_at pre off (field {c} {a} {ap = others} {fs} e k fit t) here =
    ap₂ ◌∷◌
      (ap (λ m. seen m (value_at (off + 5) a)) (simp append_assoc)
        ∙ seen-value_at pre (fields_bytes fs) c off fit here)
      (ap (λ m. map (seen m) (values_at (off + (5 + length (payload a))) fs)) (simp append_assoc)
        ∙ seen-values_at (pre ++ field_bytes c a) (off + (5 + length (payload a))) t (
            omega (
              arith,
              length-append {0} pre (field_bytes c a),
              length-append {0} (bytes_of 4 (length (payload a))) (payload a),
            )))

pub seen-wire :
    {f : List ℕ} {args : List VaArg} {fs : Fields}
    → Typed f args fs
    → map (seen (wire fs)) (values_at 4 fs) ≡ take (length fs) args
seen-wire {fs} t = seen-values_at (bytes_of 4 (length fs)) 4 t refl

-- A message that is measured, encoded into a buffer of that size and decoded under the same format
-- gives the receiver the sender's arguments, in order; strings are read through the pointers into
-- the buffer. The arguments fit the format, the payload is below 4 GiB, and no out-pointer is NULL.
pub decode-encode :
    {f : List ℕ} {args : List VaArg} {fs : Fields} (m_alloc : ℕ → List ℕ) (outs : List Bool)
    → Typed f args fs
    → length (wire fs) < 2 ^ 32
    → ((n : ℕ) → length (m_alloc n) ≡ n)
    → (do
      n ← measure_va true (some f) args
      w ← encode_into_va (some (m_alloc n)) n (some f) args
      vs ← decode (some w) n (some f) (replicate (length fs) true ++ outs)
      ok (map (seen w) vs))
      ≡ ok (take (length fs) args)
decode-encode {f} {args} {fs} m_alloc outs t small sized =
    rw
      (
        measure_va-wire t small,
        encode_into_va-wire (m_alloc (length (wire fs))) t small (sized (length (wire fs))),
        decode-wire outs t small,
      )
      (ap ok (seen-wire t))
