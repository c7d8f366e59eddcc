-- ===== src/Ipc/Serial/Bounds.antt =====
-- `one_read` stays inside the buffer where the length field does not wrap the offset.
use rendezv_os.Base.{ℕ, ◌+◌, ◌-◌, ◌≤◌, ◌<◌, ◌≡◌, some, List, get_elem?, Bool}
use rendezv_os.Base.{Result, ok, err, fault}
use rendezv_os.Ipc.Serial.{text, Value}

module _ (base : List ℕ) (off : ℕ) where
  -- A string lies between `off + 5` and the end of its field, and ends with a NUL there.
  abbrev pub Inside : Value → ℕ → Type 0
  Inside (Value.text (some p)) end = (p ≡ off + 5) × (p < end) × (get_elem? base (end - 1) ≡ some 0)
  Inside _ end = Unit

  -- No fault; and where the field is accepted, it ends inside the buffer.
  abbrev pub Safe : ℕ → Result (Value × ℕ × List Bool) → Type 0
  Safe buf_len (ok (v, end, outs)) = (off + 5 ≤ end) × (end ≤ buf_len) × Inside v end
  Safe buf_len (err e) = Unit
  Safe buf_len fault = ⊥
