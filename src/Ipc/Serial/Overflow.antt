-- ===== src/Ipc/Serial/Overflow.antt =====
-- A string whose length makes the 32-bit arithmetic of kernel/ipc/ipc_serial.c wrap.
use native.Mathlib.Decide.{dec_le}
use rendezv_os.Base.{
  ℕ, ◌+◌, ◌-◌, ◌%◌, ◌^◌, ◌≤◌, ◌<◌, ◌≡◌, refl, ap, true, none, some, List, [], ◌∷◌, ◌++◌, length,
  length-append, length-drop, length-take, arith, take, drop,
}
use rendezv_os.Base.{ok, fault}
use rendezv_os.Base.Bytes.{u32, store}
use rendezv_os.Base.Memory.{le→leb, gt→leb}
use rendezv_os.Ipc.Serial.{
  Case, case_of, VaArg, string, string_len, is_fmt_space, measure_va, measure_loop, one_measure,
  one_write, write_loop, encode_into_va, fmt_param_count,
}

-- A store that ends behind a block is outside it.
store-outside :
    (base src : List ℕ) (off : ℕ) → length base < off + length src → store base off src ≡ none
store-outside base src off h = rw (gt→leb (off + length src) (length base) h) refl

-- The label is written, if there is room for it, and then the length behind it is not inside.
one_write-overflow :
    (base s : List ℕ) (cap c : ℕ) (rest : List VaArg)
    → case_of c ≡ Case.text
    → length base < 9
    → u32 (9 + string_len (some s)) ≤ cap
    → one_write base cap 4 c (string (some s) ∷ rest) ≡ fault
unfolding one_write
one_write-overflow base s cap c rest e small fits =
    rw (e, le→leb (u32 (4 + 1 + 4 + string_len (some s))) cap fits)
      (elim (dec_le 5 (length base)) [
        | no short ↦ rw (gt→leb 5 (length base) (omega arith)) refl
        | yes room ↦
            rw
              (
                le→leb 5 (length base) room,
                gt→leb 9 (length (take 4 base ++ (c ∷ drop 5 base))) (
                    omega (
                      arith,
                      length-append {0} (take 4 base) (c ∷ drop 5 base),
                      length-take {0} 4 base,
                      length-drop {0} 5 base,
                    )),
              )
              refl
      ])

-- A buffer of less than nine bytes, of the length that is measured for the format "s" and a string.
pub encode_into_va-overflow :
    (base s : List ℕ)
    → 2 ^ 32 - 5 ≤ (length s + 1) % 2 ^ 32
    → length base ≡ (10 + length s) % 2 ^ 32
    → encode_into_va (some base) (length base) (some (b's' ∷ [])) (string (some s) ∷ []) ≡ fault
unfolding encode_into_va write_loop is_fmt_space case_of fmt_param_count
encode_into_va-overflow base s long sized =
    rw
      (
        le→leb 4 (length base) (omega arith),
        one_write-overflow (1 ∷ 0 ∷ 0 ∷ 0 ∷ drop 4 base) s (length base) b's' [] refl
            (omega (arith, length-drop {0} 4 base)) (omega arith),
      )
      refl

-- What is measured for that format and a string.
pub measure_va-string :
    (s : List ℕ)
    → measure_va true (some (b's' ∷ [])) (string (some s) ∷ []) ≡ ok ((10 + length s) % 2 ^ 32)
unfolding measure_va measure_loop one_measure is_fmt_space case_of
measure_va-string s = ap ok (omega arith)
