-- ===== src/Ipc/Serial/Measure.antt =====
-- What `ipc_serial_measure_va` returns.
use rendezv_os.Base.{
  true, ℕ, ◌+◌, ◌^◌, ◌<◌, ◌≡◌, refl, ◌∙◌, ap, some, List, [], ◌∷◌, ◌++◌, length, arith,
  length-append,
}
use rendezv_os.Base.{ok}
use rendezv_os.Base.Bytes.{u32}
use rendezv_os.Ipc.Serial.{Case, case_of, VaArg, one_measure, measure_loop, measure_va, string_len}
use rendezv_os.Ipc.Serial.Wire.{
  Fits, pointer, quad, int, uint, null, text, Fields, Typed, end, space, field, payload,
  fields_bytes, wire, length-fields_bytes,
}

-- A string that fits has its length, with the NUL, as a u32.
pub string_len-lt :
    (s : List ℕ) → length s + 1 < 2 ^ 32 → string_len (some s) ≡ length (s ++ 0 ∷ [])
string_len-lt s h = omega (arith, length-append {0} s (0 ∷ []))

string_len-u32 : (s : List ℕ) → string_len (some s) ≡ u32 (length (s ++ 0 ∷ []))
string_len-u32 s = omega (arith, length-append {0} s (0 ∷ []))

pub one_measure-Fits :
    (c : ℕ) {k : Case} {a : VaArg} (rest : List VaArg)
    → case_of c ≡ k
    → Fits k a
    → one_measure c (a ∷ rest) ≡ ok (u32 (length (payload a)), rest)
unfolding one_measure
one_measure-Fits c rest e (pointer h) = rw e refl
one_measure-Fits c rest e (quad h) = rw e refl
one_measure-Fits c rest e (int h) = rw e refl
one_measure-Fits c rest e (uint h) = rw e refl
one_measure-Fits c rest e null = rw e refl
one_measure-Fits c rest e (text {s} h) = rw (e, string_len-u32 s) refl

-- The loop counts in 32 bits.
measure_loop-Typed :
    {f : List ℕ} {ap : List VaArg} {fs : Fields} (total : ℕ)
    → Typed f ap fs
    → total < 2 ^ 32
    → measure_loop f ap total ≡ ok (u32 (total + length (fields_bytes fs)))
unfolding measure_loop
measure_loop-Typed total end small = ap ok (omega (arith, small))
measure_loop-Typed total (space e t) small = rw (e, measure_loop) (measure_loop-Typed total t small)
measure_loop-Typed total (field {c} {a} {ap = rest} {fs} e k fit t) small =
    rw (e, measure_loop, one_measure-Fits c rest k fit)
      (measure_loop-Typed (u32 (total + (1 + 4 + u32 (length (payload a))))) t (omega arith)
        ∙ ap ok (omega (arith, length-fields_bytes c a fs)))

-- What is measured is the length of the encoding modulo 2^32, whatever the lengths of the strings.
pub measure_va-u32 :
    {f : List ℕ} {ap : List VaArg} {fs : Fields}
    → Typed f ap fs
    → measure_va true (some f) ap ≡ ok (u32 (length (wire fs)))
unfolding measure_va
measure_va-u32 t = measure_loop-Typed 4 t (omega arith) ∙ ap ok (omega arith)

-- The number of bytes that the encoding takes.
pub measure_va-wire :
    {f : List ℕ} {ap : List VaArg} {fs : Fields}
    → Typed f ap fs
    → length (wire fs) < 2 ^ 32
    → measure_va true (some f) ap ≡ ok (length (wire fs))
measure_va-wire t small = measure_va-u32 t ∙ ap ok (omega (arith, small))
