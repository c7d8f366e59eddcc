-- ===== src/Ipc/Serial/Reject.antt =====
-- Calls that `ipc_serial` refuses: an unknown label, and a buffer that is not of the measured size.
use rendezv_os.Base.{ℕ, ◌≡◌, true, false, some, List, ◌∷◌, ◌==◌}
use rendezv_os.Base.{e_in_param, Result, ok, err, ◌>>=◌, ◌>>◌, guard}
use rendezv_os.Ipc.Serial.{
  Case, case_of, VaArg, is_fmt_space, one_measure, measure_loop, measure_va,
}
use rendezv_os.Ipc.Serial.Wire.{Fits}
use rendezv_os.Ipc.Serial.Measure.{one_measure-Fits}

-- The format reaches a character that is no label, behind arguments that fit.
pub data Unknown : List ℕ → List VaArg → Type 0 where
  at_label :
      {c : ℕ} {f : List ℕ} {ap : List VaArg}
      → is_fmt_space c ≡ false
      → case_of c ≡ Case.other
      → Unknown (c ∷ f) ap
  past_space :
      {c : ℕ} {f : List ℕ} {ap : List VaArg}
      → is_fmt_space c ≡ true
      → Unknown f ap
      → Unknown (c ∷ f) ap
  past_field :
      {c : ℕ} {k : Case} {a : VaArg} {f : List ℕ} {ap : List VaArg}
      → is_fmt_space c ≡ false
      → case_of c ≡ k
      → Fits k a
      → Unknown f ap
      → Unknown (c ∷ f) (a ∷ ap)

measure_loop-Unknown :
    {f : List ℕ} {ap : List VaArg} (total : ℕ)
    → Unknown f ap
    → measure_loop f ap total ≡ err e_in_param
unfolding measure_loop one_measure
measure_loop-Unknown total (at_label {c} e k) = rw (e, measure_loop, one_measure, k)
measure_loop-Unknown total (past_space e u) = rw (e, measure_loop) (measure_loop-Unknown total u)
measure_loop-Unknown total (past_field {c} {ap = rest} e k fit u) =
    rw (e, measure_loop, one_measure-Fits c rest k fit) (measure_loop-Unknown _ u)

-- A format with an unknown label is refused before anything is allocated.
pub measure_va-Unknown :
    {f : List ℕ} {ap : List VaArg} → Unknown f ap → measure_va true (some f) ap ≡ err e_in_param
unfolding measure_va
measure_va-Unknown u = measure_loop-Unknown 4 u

-- The loop and the test behind it.
abbrev finish : ℕ → Result (List ℕ × ℕ) → Result (List ℕ)
finish total r = r >>= λ w. (guard (w.1 == total) e_in_param >> ok w.0)
