-- ===== src/Ipc/Serial/Encode.antt =====
-- What `ipc_serial_encode_into_va` leaves in a buffer of the measured size.
use rendezv_os.Base.{
  ℕ, zero, suc, ◌+◌, ◌-◌, ◌^◌, ◌≤◌, ◌<◌, ◌≡◌, refl, ◌∙◌, ap, true, false, some, List, [], ◌∷◌, ◌++◌,
  length, drop, take, arith, length-append, leb, ◌==◌, ==-refl, append_assoc, length-drop,
}
use mathlib.Core.List.{append-nil}
use rendezv_os.Base.{ok}
use rendezv_os.Base.Bytes.{u32, bytes_of, store}
use rendezv_os.Base.Memory.{le→leb, store-append}
use rendezv_os.Ipc.Serial.{
  Case, case_of, VaArg, one_write, write_loop, encode_into_va, fmt_param_count,
}
use rendezv_os.Ipc.Serial.Wire.{
  Fits, pointer, quad, int, uint, null, text, Fields, Typed, end, space, field, payload,
  fields_bytes, wire, length-fields_bytes, length-le,
}
use rendezv_os.Ipc.Serial.Measure.{string_len-lt}

take_all : (n : ℕ) (xs : List ℕ) → n ≡ length xs → take n xs ≡ xs
take_all zero [] h = refl
take_all zero (x ∷ xs) h = absurd (omega arith)
take_all (suc n) [] h = absurd (omega arith)
take_all (suc n) (x ∷ xs) h = ap (λ t. x ∷ t) (take_all n xs (omega arith))

-- What is behind a field once it is written.
abbrev pub behind : VaArg → List ℕ → List ℕ
behind a rest = drop (length (payload a)) (drop 4 (drop 1 rest))

abbrev pub written : List ℕ → ℕ → VaArg → List ℕ → List ℕ
written pre c a rest =
    (((pre ++ c ∷ []) ++ bytes_of 4 (length (payload a))) ++ payload a) ++ behind a rest

-- There is room for `n` bytes behind the field's header, within the capacity.
pub record Room (pre rest : List ℕ) (capacity off n : ℕ) : Type 0 where
  pub here : off ≡ length pre
  pub fits : 5 + n ≤ length rest
  pub whole : length pre + length rest ≡ capacity
  pub small : capacity < 2 ^ 32

module _ {pre rest : List ℕ} {capacity off n : ℕ} (room : Room pre rest capacity off n) where
  open room use {here, fits, whole, small}

  allowed : leb (u32 (off + 1 + 4 + n)) capacity ≡ true
  allowed = le→leb _ _ (omega arith)

  tag_stored : (c : ℕ) → store (pre ++ rest) off (c ∷ []) ≡ some ((pre ++ c ∷ []) ++ drop 1 rest)
  tag_stored c = store-append pre rest (c ∷ []) off here (omega arith)

  len_stored :
      (c : ℕ)
      → store ((pre ++ c ∷ []) ++ drop 1 rest) (u32 (off + 1)) (bytes_of 4 n)
        ≡ some (((pre ++ c ∷ []) ++ bytes_of 4 n) ++ drop 4 (drop 1 rest))
  len_stored c =
      store-append (pre ++ c ∷ []) (drop 1 rest) (bytes_of 4 n) (u32 (off + 1))
        (omega (arith, length-append {0} pre (c ∷ []))) (omega (arith, length-drop {0} 1 rest))

  value_stored :
      (c : ℕ) (src : List ℕ)
      → length src ≡ n
      → store
          (((pre ++ c ∷ []) ++ bytes_of 4 n) ++ drop 4 (drop 1 rest))
          (u32 (u32 (off + 1) + 4))
          src
        ≡ some
            ((((pre ++ c ∷ []) ++ bytes_of 4 n) ++ src) ++ drop (length src) (drop 4 (drop 1 rest)))
  value_stored c src e =
      store-append ((pre ++ c ∷ []) ++ bytes_of 4 n) (drop 4 (drop 1 rest)) src _
        (omega
          (arith, length-append {0} pre (c ∷ []), length-append {0} (pre ++ c ∷ []) (bytes_of 4 n)))
        (omega (arith, length-drop {0} 1 rest, length-drop {0} 4 (drop 1 rest)))

  end_of : u32 (u32 (u32 (off + 1) + 4) + n) ≡ off + (5 + n)
  end_of = omega arith

-- A string's length with its NUL is not 0, and all of it is copied.
pub string_nonempty : (s : List ℕ) → (length (s ++ 0 ∷ []) == 0) ≡ false
string_nonempty [] = refl
string_nonempty (b ∷ s) = ground arith

pub one_write-Fits :
    (pre rest : List ℕ) (capacity off c : ℕ) {k : Case} {a : VaArg} (ap' : List VaArg)
    → case_of c ≡ k
    → Fits k a
    → Room pre rest capacity off (length (payload a))
    → one_write (pre ++ rest) capacity off c (a ∷ ap')
      ≡ ok (written pre c a rest, off + (5 + length (payload a)), ap')
unfolding one_write
one_write-Fits pre rest capacity off c ap' e (pointer {v} h) r =
    rw
      (e, allowed r, tag_stored r c, len_stored r c, value_stored r c (bytes_of 8 v) refl, end_of r)
one_write-Fits pre rest capacity off c ap' e (quad {v} h) r =
    rw
      (e, allowed r, tag_stored r c, len_stored r c, value_stored r c (bytes_of 8 v) refl, end_of r)
one_write-Fits pre rest capacity off c ap' e (int {v} h) r =
    rw
      (e, allowed r, tag_stored r c, len_stored r c, value_stored r c (bytes_of 4 v) refl, end_of r)
one_write-Fits pre rest capacity off c ap' e (uint {v} h) r =
    rw
      (e, allowed r, tag_stored r c, len_stored r c, value_stored r c (bytes_of 4 v) refl, end_of r)
one_write-Fits pre rest capacity off c ap' e null r =
    rw (e, allowed r, tag_stored r c, len_stored r c, append-nil)
      (ap (λ m. ok (((pre ++ c ∷ []) ++ bytes_of 4 0) ++ drop 4 (drop 1 rest), m, ap')) (end_of r))
one_write-Fits pre rest capacity off c ap' e (text {s} h) r = rw (
  e,
  string_len-lt s (omega (arith, length-append {0} s (0 ∷ []))),
  allowed r,
  tag_stored r c,
  len_stored r c,
  string_nonempty s,
  take_all _ (s ++ 0 ∷ []) refl,
  value_stored r c (s ++ 0 ∷ []) refl,
  end_of r,
)

pub length-written :
    (pre : List ℕ) (c : ℕ) (a : VaArg)
    → length (((pre ++ c ∷ []) ++ bytes_of 4 (length (payload a))) ++ payload a)
      ≡ length pre + 5 + length (payload a)
length-written pre c a = omega (
  arith,
  length-append {0} pre (c ∷ []),
  length-append {0} (pre ++ c ∷ []) (bytes_of 4 (length (payload a))),
  length-append {0} ((pre ++ c ∷ []) ++ bytes_of 4 (length (payload a))) (payload a),
)

pub length-behind_lem :
    (a : VaArg) (rest : List ℕ) → length (behind a rest) ≡ length rest - (5 + length (payload a))
length-behind_lem a rest = omega (
  arith,
  length-drop {0} 1 rest,
  length-drop {0} 4 (drop 1 rest),
  length-drop {0} (length (payload a)) (drop 4 (drop 1 rest)),
)

write_loop-Typed :
    (pre rest : List ℕ) (capacity off : ℕ) {f : List ℕ} {ap' : List VaArg} {fs : Fields}
    → Typed f ap' fs
    → off ≡ length pre
    → length (fields_bytes fs) ≡ length rest
    → length pre + length rest ≡ capacity
    → capacity < 2 ^ 32
    → write_loop f (pre ++ rest) capacity off ap' ≡ ok (pre ++ fields_bytes fs, capacity)
unfolding write_loop
write_loop-Typed pre [] capacity off end here fits whole small =
    ap (λ n. ok (pre ++ [], n)) (omega arith)
write_loop-Typed pre (x ∷ rest) capacity off end here fits whole small = absurd (omega arith)
write_loop-Typed pre rest capacity off (space e t) here fits whole small =
    rw (e, write_loop) (write_loop-Typed pre rest capacity off t here fits whole small)
write_loop-Typed pre rest capacity off (field {c} {a} {ap = others} {fs} e k fit t) here fits whole
      small =
    rw (e, write_loop, one_write-Fits pre rest capacity off c others k fit room)
      (write_loop-Typed begun (behind a rest) capacity (off + (5 + length (payload a))) t
          (omega (arith, length-begun)) (omega (arith, length-behind, length-fields_bytes c a fs))
          (omega (arith, length-begun, length-behind, length-fields_bytes c a fs)) small
        ∙ ap (λ l. ok (l, capacity)) (simp append_assoc))
  where
    begun : List ℕ
    begun = ((pre ++ c ∷ []) ++ bytes_of 4 (length (payload a))) ++ payload a

    room : Room pre rest capacity off (length (payload a))
    room = record {
      here = here;
      fits = omega (arith, length-fields_bytes c a fs);
      whole = whole;
      small = small;
    }

    length-begun : length begun ≡ length pre + 5 + length (payload a)
    length-begun = length-written pre c a

    length-behind : length (behind a rest) ≡ length rest - (5 + length (payload a))
    length-behind = length-behind_lem a rest

pub fmt_param_count-Typed :
    {f : List ℕ} {ap' : List VaArg} {fs : Fields} → Typed f ap' fs → fmt_param_count f ≡ length fs
unfolding fmt_param_count
fmt_param_count-Typed end = refl
fmt_param_count-Typed (space e t) = rw e (omega (arith, fmt_param_count-Typed t))
fmt_param_count-Typed (field e k fit t) = rw e (omega (arith, fmt_param_count-Typed t))

-- In a buffer of the measured size the encoding is the payload that the format describes.
pub encode_into_va-wire :
    {f : List ℕ} {ap' : List VaArg} {fs : Fields} (buf : List ℕ)
    → Typed f ap' fs
    → length (wire fs) < 2 ^ 32
    → length buf ≡ length (wire fs)
    → encode_into_va (some buf) (length (wire fs)) (some f) ap' ≡ ok (wire fs)
unfolding encode_into_va
encode_into_va-wire {f} {ap'} {fs} buf t small size = rw (
  count,
  le→leb 4 (length (wire fs)) (omega arith),
  store-append [] buf (bytes_of 4 (length fs)) 0 refl (omega arith),
  write_loop-Typed (bytes_of 4 (length fs)) (drop 4 buf) (length (wire fs)) 4 t refl
      (omega (arith, length-drop {0} 4 buf)) (omega (arith, length-drop {0} 4 buf)) small,
  ==-refl (length (wire fs)),
)
  where
    count : u32 (fmt_param_count f) ≡ length fs
    count = omega (arith, fmt_param_count-Typed t, length-le fs)
