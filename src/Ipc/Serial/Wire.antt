-- ===== src/Ipc/Serial/Wire.antt =====
-- What the payload format of include/rendezvos/ipc/ipc_serial.h says: the bytes that stand for a
-- sequence of tagged arguments, and the values that are read back from them.
use rendezv_os.Base.{
  ℕ, ◌+◌, ◌^◌, ◌≤◌, ◌<◌, ◌≡◌, true, false, none, some, List, [], ◌∷◌, ◌++◌, ◌==◌, if◌then◌else◌,
  length, drop, arith, length-append,
}
use rendezv_os.Base.Bytes.{bytes_of}
use rendezv_os.Ipc.Serial.{Case, case_of, VaArg, is_fmt_space, Value}

-- A byte of a C string.
abbrev pub IsText : List ℕ → Type 0
IsText [] = Unit
IsText (b ∷ s) = (0 < b) × (b < 256) × IsText s

-- The argument is one that the caller may pass under this label.
pub data Fits : Case → VaArg → Type 0 where
  pointer : {v : ℕ} → v < 256 ^ 8 → Fits Case.pointer (VaArg.word v)
  quad : {v : ℕ} → v < 256 ^ 8 → Fits Case.quad (VaArg.long v)
  int : {v : ℕ} → v < 256 ^ 4 → Fits Case.int (VaArg.signed v)
  uint : {v : ℕ} → v < 256 ^ 4 → Fits Case.uint (VaArg.unsigned v)
  null : Fits Case.text (VaArg.string none)
  text : {s : List ℕ} → IsText s → Fits Case.text (VaArg.string (some s))

abbrev pub Fields : Type 0
Fields = List (ℕ × VaArg)

-- The format takes the first arguments of `ap`, each under a label that it fits.
pub data Typed : List ℕ → List VaArg → Fields → Type 0 where
  end : {ap : List VaArg} → Typed [] ap []
  space :
      {c : ℕ} {f : List ℕ} {ap : List VaArg} {fs : Fields}
      → is_fmt_space c ≡ true
      → Typed f ap fs
      → Typed (c ∷ f) ap fs
  field :
      {c : ℕ} {k : Case} {a : VaArg} {f : List ℕ} {ap : List VaArg} {fs : Fields}
      → is_fmt_space c ≡ false
      → case_of c ≡ k
      → Fits k a
      → Typed f ap fs
      → Typed (c ∷ f) (a ∷ ap) ((c, a) ∷ fs)

abbrev pub payload : VaArg → List ℕ
payload (VaArg.word v) = bytes_of 8 v
payload (VaArg.long v) = bytes_of 8 v
payload (VaArg.signed v) = bytes_of 4 v
payload (VaArg.unsigned v) = bytes_of 4 v
payload (VaArg.string none) = []
payload (VaArg.string (some s)) = s ++ 0 ∷ []

abbrev pub field_bytes : ℕ → VaArg → List ℕ
field_bytes c a = c ∷ (bytes_of 4 (length (payload a)) ++ payload a)

abbrev pub fields_bytes : Fields → List ℕ
fields_bytes [] = []
fields_bytes ((c, a) ∷ fs) = field_bytes c a ++ fields_bytes fs

-- The whole payload.
abbrev pub wire : Fields → List ℕ
wire fs = bytes_of 4 (length fs) ++ fields_bytes fs

-- The value of an argument whose bytes stand at `off`.
abbrev pub value_at : ℕ → VaArg → Value
value_at off (VaArg.word v) = Value.word v
value_at off (VaArg.long v) = Value.long v
value_at off (VaArg.signed v) = Value.signed v
value_at off (VaArg.unsigned v) = Value.unsigned v
value_at off (VaArg.string none) = Value.text none
value_at off (VaArg.string (some s)) = Value.text (some off)

-- The values of fields that begin at `off`.
abbrev pub values_at : ℕ → Fields → List Value
values_at off [] = []
values_at off ((c, a) ∷ fs) = value_at (off + 5) a ∷ values_at (off + (5 + length (payload a))) fs

-- The string that a reader finds at the head of a memory: its bytes up to the NUL.
abbrev pub c_string : List ℕ → List ℕ
c_string [] = []
c_string (b ∷ bs) = if b == 0 then [] else b ∷ c_string bs

-- What the receiver holds after the decoding, with the strings read through their pointers.
abbrev pub seen : List ℕ → Value → VaArg
seen buf (Value.word v) = VaArg.word v
seen buf (Value.long v) = VaArg.long v
seen buf (Value.signed v) = VaArg.signed v
seen buf (Value.unsigned v) = VaArg.unsigned v
seen buf (Value.text none) = VaArg.string none
seen buf (Value.text (some p)) = VaArg.string (some (c_string (drop p buf)))

-- A field takes five bytes and its value.
pub length-fields_bytes :
    (c : ℕ) (a : VaArg) (fs : Fields)
    → length (fields_bytes ((c, a) ∷ fs)) ≡ 5 + length (payload a) + length (fields_bytes fs)
length-fields_bytes c a fs = omega (
  arith,
  length-append {0} (field_bytes c a) (fields_bytes fs),
  length-append {0} (bytes_of 4 (length (payload a))) (payload a),
)

pub length-le : (fs : Fields) → length fs ≤ length (fields_bytes fs)
length-le [] = omega arith
length-le ((c, a) ∷ fs) = omega (arith, length-fields_bytes c a fs, length-le fs)
