-- ===== src/Ipc/Serial.antt =====
-- kernel/ipc/ipc_serial.c: the type-length-value encoding of message payloads.
-- A C string is the list of its bytes before the NUL, a buffer the list of its bytes. A `va_list` is
-- the list of the arguments left; to take one at another type than it was passed at is a fault. The
-- bytes that a failing call leaves in the buffer are not kept.
pub mod Wire
pub mod Measure
pub mod Encode
pub mod Decode
pub mod RoundTrip
pub mod Reject
pub mod Bounds
pub mod Wrap
pub mod Overflow
use rendezv_os.Base.{
  ℕ, ◌+◌, ◌-◌, ◌^◌, Bool, true, false, ◌||◌, Option, none, some, List, [], ◌∷◌, ◌++◌, leb, ◌==◌,
  if◌then◌else◌, length, get_elem?, take,
}
use rendezv_os.Base.{e_in_param, Result, ok, err, fault, ◌>>=◌, ◌>>◌, guard, access}
use rendezv_os.Base.Bytes.{u32, bytes_of, of_bytes, load, store}

-- The labels of the `switch` statements on a format character.
pub data Case : Type 0 where
  pointer quad int uint text other : Case

unfoldable pub case_of : ℕ → Case
case_of c =
    if c == b'p'
    then pointer
    else if c == b'q'
    then quad
    else if c == b'i'
    then int
    else if c == b'u'
    then uint
    else if c == b's' || c == b't'
    then text
    else other

-- An argument: `void *`, `i64`, `int` and `u32` as bit patterns, or `char *`, which may be NULL.
pub data VaArg : Type 0 where
  word : ℕ → VaArg
  long : ℕ → VaArg
  signed : ℕ → VaArg
  unsigned : ℕ → VaArg
  string : Option (List ℕ) → VaArg

abbrev pub va_scalar : Case → List VaArg → Result (ℕ × List VaArg)
va_scalar pointer (word v ∷ ap) = ok (v, ap)
va_scalar quad (long v ∷ ap) = ok (v, ap)
va_scalar int (signed v ∷ ap) = ok (v, ap)
va_scalar uint (unsigned v ∷ ap) = ok (v, ap)
va_scalar _ _ = fault

abbrev pub va_string : List VaArg → Result (Option (List ℕ) × List VaArg)
va_string (string s ∷ ap) = ok (s, ap)
va_string _ = fault

unfoldable pub is_fmt_space : ℕ → Bool
is_fmt_space c = c == 0x20 || c == 0x09 || c == 0x0a || c == 0x0d

unfoldable pub fmt_param_count : List ℕ → ℕ
fmt_param_count [] = 0
fmt_param_count (c ∷ fmt) = fmt_param_count fmt + (if is_fmt_space c then 0 else 1)

-- `s ? (u32)strlen(s) + 1u : 0u`
abbrev pub string_len : Option (List ℕ) → ℕ
string_len none = 0
string_len (some s) = u32 (u32 (length s) + 1)

-- `sizeof` of the type that a label stands for.
abbrev pub size_of : Case → ℕ
size_of pointer = 8
size_of quad = 8
size_of int = 4
size_of uint = 4
size_of text = 0
size_of other = 0

measure_case : Case → List VaArg → Result (ℕ × List VaArg)
measure_case other ap = err e_in_param
measure_case text ap = do (s, ap') ← va_string ap; ok (string_len s, ap')
measure_case c ap = do (_, ap') ← va_scalar c ap; ok (size_of c, ap')

unfoldable pub one_measure : ℕ → List VaArg → Result (ℕ × List VaArg)
unfolding measure_case
one_measure fc ap = measure_case (case_of fc) ap

measure_loop : List ℕ → List VaArg → ℕ → Result ℕ
measure_loop [] ap total = ok total
measure_loop (c ∷ f) ap total = elim (is_fmt_space c) [
  | true ↦ measure_loop f ap total
  | false ↦ (do (l, ap') ← one_measure c ap; measure_loop f ap' (u32 (total + (1 + 4 + l))))
]

-- The first argument is whether `total_out` is non-NULL; `none` is a NULL format.
unfoldable pub measure_va : Bool → Option (List ℕ) → List VaArg → Result ℕ
unfolding measure_loop
measure_va false fmt ap = err e_in_param
measure_va true none ap = err e_in_param
measure_va true (some fmt) ap = measure_loop fmt ap 4

-- The first `switch` of `one_write`: the length, the string, the arguments left.
write_len : Case → List VaArg → Result (ℕ × Option (List ℕ) × List VaArg)
write_len other ap = err e_in_param
write_len text ap = do (s, ap') ← va_string ap; ok (string_len s, s, ap')
write_len c ap = ok (size_of c, none, ap)

-- The second `switch`: the value itself.
write_value : List ℕ → ℕ → ℕ → Option (List ℕ) → Case → List VaArg → Result (List ℕ × List VaArg)
write_value base off len s other ap = err e_in_param
write_value base off len none text ap = ok (base, ap)
write_value base off len (some s) text ap =
    if len == 0
    then ok (base, ap)
    else (do base' ← access (store base off (take len (s ++ 0 ∷ []))); ok (base', ap))
write_value base off len s c ap = do
  (v, ap') ← va_scalar c ap
  base' ← access (store base off (bytes_of len v))
  ok (base', ap')

unfoldable pub one_write : List ℕ → ℕ → ℕ → ℕ → List VaArg → Result (List ℕ × ℕ × List VaArg)
unfolding write_len write_value
one_write base cap off fc ap = do
  (len, s, ap') ← write_len (case_of fc) ap
  guard (leb (u32 (off + 1 + 4 + len)) cap) e_in_param
  base₁ ← access (store base off (fc ∷ []))
  base₂ ← access (store base₁ (u32 (off + 1)) (bytes_of 4 len))
  let start = u32 (u32 (off + 1) + 4)
  (base₃, ap'') ← write_value base₂ start len s (case_of fc) ap'
  ok (base₃, u32 (start + len), ap'')

write_loop : List ℕ → List ℕ → ℕ → ℕ → List VaArg → Result (List ℕ × ℕ)
write_loop [] base cap off ap = ok (base, off)
write_loop (c ∷ f) base cap off ap = elim (is_fmt_space c) [
  | true ↦ write_loop f base cap off ap
  | false ↦ (do (base', off', ap') ← one_write base cap off c ap; write_loop f base' cap off' ap')
]

-- The buffer after the call. `none` is a NULL buffer or format.
unfoldable pub encode_into_va : Option (List ℕ) → ℕ → Option (List ℕ) → List VaArg → Result (List ℕ)
unfolding write_loop
encode_into_va none total fmt ap = err e_in_param
encode_into_va (some buf) total none ap = err e_in_param
encode_into_va (some buf) total (some fmt) ap = do
  guard (leb 4 total) e_in_param
  base ← access (store buf 0 (bytes_of 4 (u32 (fmt_param_count fmt))))
  (base', off) ← write_loop fmt base total 4 ap
  guard (off == total) e_in_param
  ok base'

-- What a decoded parameter is; a text is a position in the buffer, or NULL.
pub data Value : Type 0 where
  word : ℕ → Value
  long : ℕ → Value
  signed : ℕ → Value
  unsigned : ℕ → Value
  text : Option ℕ → Value

abbrev pub scalar_value : Case → ℕ → Value
scalar_value pointer v = Value.word v
scalar_value quad v = Value.long v
scalar_value int v = Value.signed v
scalar_value _ v = Value.unsigned v

-- The out-pointers of `ipc_serial_decode`, each by whether it is non-NULL. Too few are a fault.
abbrev pub va_out : List Bool → Result (Bool × List Bool)
va_out [] = fault
va_out (o ∷ outs) = ok (o, outs)

read_value : List ℕ → ℕ → ℕ → Case → List Bool → Result (Value × List Bool)
read_value base off len other outs = err e_in_param
read_value base off len text outs = do
  (out, outs') ← va_out outs
  guard out e_in_param
  if len == 0 then ok (Value.text none, outs') else (do
    b ← access (get_elem? base (u32 (off + len + 2 ^ 32 - 1)))
    guard (b == 0) e_in_param
    ok (Value.text (some off), outs'))
read_value base off len c outs = do
  guard (len == size_of c) e_in_param
  (out, outs') ← va_out outs
  guard out e_in_param
  v ← access (load base off len)
  ok (scalar_value c (of_bytes v), outs')

unfoldable pub one_read : List ℕ → ℕ → ℕ → ℕ → List Bool → Result (Value × ℕ × List Bool)
unfolding read_value
one_read base buf_len off expect outs = do
  guard (leb (u32 (off + 1 + 4)) buf_len) e_in_param
  tag ← access (get_elem? base off)
  bytes ← access (load base (u32 (off + 1)) 4)
  let len = of_bytes bytes
  let start = u32 (u32 (off + 1) + 4)
  guard (leb (u32 (start + len)) buf_len) e_in_param
  guard (tag == expect) e_in_param
  (v, outs') ← read_value base start len (case_of expect) outs
  ok (v, u32 (start + len), outs')

read_loop : List ℕ → List ℕ → ℕ → ℕ → List Bool → Result (List Value × ℕ)
read_loop [] base buf_len off outs = ok ([], off)
read_loop (c ∷ f) base buf_len off outs = elim (is_fmt_space c) [
  | true ↦ read_loop f base buf_len off outs
  | false ↦ (do
    (v, off', outs') ← one_read base buf_len off c outs
    (vs, end) ← read_loop f base buf_len off' outs'
    ok (v ∷ vs, end))
]

-- The values stored through the out-pointers, in order.
unfoldable pub decode : Option (List ℕ) → ℕ → Option (List ℕ) → List Bool → Result (List Value)
unfolding read_loop
decode none buf_len fmt outs = err e_in_param
decode (some buf) buf_len none outs = err e_in_param
decode (some buf) buf_len (some fmt) outs = do
  guard (leb 4 buf_len) e_in_param
  n ← access (load buf 0 4)
  guard (of_bytes n == u32 (fmt_param_count fmt)) e_in_param
  (vs, off) ← read_loop fmt buf buf_len 4 outs
  guard (off == buf_len) e_in_param
  ok vs
