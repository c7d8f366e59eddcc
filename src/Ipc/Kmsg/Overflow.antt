-- ===== src/Ipc/Kmsg/Overflow.antt =====
-- `ipc_serial_encode_va` of kernel/ipc/ipc_serial.c with a string whose measured length wraps.
use rendezv_os.Base.{
  ℕ, ◌+◌, ◌-◌, ◌%◌, ◌^◌, ◌≤◌, ◌≡◌, refl, ◌∙◌, ap, sym, true, some, List, [], ◌∷◌, length,
}
use rendezv_os.Base.{fault}
use rendezv_os.Kalloc.{Kalloc, Answers}
use rendezv_os.Ipc.Serial.{string, encode_into_va}
use rendezv_os.Ipc.Serial.Overflow.{measure_va-string, encode_into_va-overflow}
use rendezv_os.Ipc.Kmsg.{encode_va}

-- Under the format "s" and with a string whose length is two to six below a multiple of 2^32, if the allocator
-- has a block of the size that is measured, `ipc_serial_encode_va` writes outside that block.
pub encode_va-overflow :
    (answers : Answers) (h : Kalloc) (s mem : List ℕ)
    → 2 ^ 32 - 5 ≤ (length s + 1) % 2 ^ 32
    → answers h.calls ((10 + length s) % 2 ^ 32) ≡ some mem
    → length mem ≡ (10 + length s) % 2 ^ 32
    → encode_va answers true true (some (b's' ∷ [])) (string (some s) ∷ []) h ≡ fault
unfolding encode_va
encode_va-overflow answers h s mem long got sized =
    rw
      (
        measure_va-string s,
        got,
        ap (λ n. encode_into_va (some mem) n (some (b's' ∷ [])) (string (some s) ∷ [])) (sym sized)
            ∙ encode_into_va-overflow mem s long sized,
      )
      refl
