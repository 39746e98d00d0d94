-- ===== src/Msg/Bytes/Back.antt =====
-- What is decoded as a target is the bytes of that target (crates/franka-node/src/msg.rs).
use franka_rs.Common.{
  ℕ, zero, suc, ◌+◌, ◌*◌, ◌/◌, ◌^◌, ◌≤◌, ◌<◌, ◌==◌, ◌≡◌, Bool, true, false, if◌then◌else◌, refl,
  sym, ap, ◌∙◌, arith, Option, none, some, not, List, [], ◌∷◌, ◌++◌, length, take, drop, Result, ok,
  err, All, length-take, length-drop, take-append-drop, take_all, drop_add,
}
use franka_rs.Msg.{Kind, TargetMsg, kind_from_u8}
use franka_rs.Msg.Bytes.{
  DecodeError, field, decode_target, read_target, target_bytes, with_known_kind, msg_version,
  target_size, wrong_length, wrong_version,
}
use franka_rs.Wire.{to_le_bytes, from_le_bytes}
use franka_rs.Robot.TargetControl.Slot.{Bits}

-- Numbers that are bytes
abbrev pub Bytes : List ℕ → Type 0
Bytes = All (λ b. b < 2 ^ 8)

take-Bytes : (n : ℕ) (xs : List ℕ) → Bytes xs → Bytes (take n xs)
take-Bytes zero xs h = tt
take-Bytes (suc n) [] h = tt
take-Bytes (suc n) (x ∷ xs) (h, hs) = (h, take-Bytes n xs hs)

drop-Bytes : (n : ℕ) (xs : List ℕ) → Bytes xs → Bytes (drop n xs)
drop-Bytes zero xs h = h
drop-Bytes (suc n) [] h = tt
drop-Bytes (suc n) (x ∷ xs) (h, hs) = drop-Bytes n xs hs

two : {A : Type 0} {x y : A} {xs ys : List A} → x ≡ y → xs ≡ ys → x ∷ xs ≡ y ∷ ys
two p q = cc

-- The bytes of the number that bytes are
to_le_bytes-from_le_bytes :
    (xs : List ℕ) → Bytes xs → to_le_bytes (length xs) (from_le_bytes xs) ≡ xs
unfolding to_le_bytes from_le_bytes
to_le_bytes-from_le_bytes [] h = refl
to_le_bytes-from_le_bytes (x ∷ xs) (h, hs) =
    let rest : (x + 256 * from_le_bytes xs) / 256 ≡ from_le_bytes xs = omega (arith, h) in
    two (omega (arith, h)) (ap (to_le_bytes (length xs)) rest ∙ to_le_bytes-from_le_bytes xs hs)

-- What so many bytes count up to
abbrev room : ℕ → ℕ
room zero = 1
room (suc n) = 256 * room n

from_le_bytes-bounded : (xs : List ℕ) → Bytes xs → from_le_bytes xs < room (length xs)
unfolding from_le_bytes
from_le_bytes-bounded [] h = omega arith
from_le_bytes-bounded (x ∷ xs) (h, hs) = omega (arith, h, from_le_bytes-bounded xs hs)

module _ (bytes : List ℕ) (whole : Bytes bytes) (size : length bytes ≡ 80) where
  length-field : (o k : ℕ) → o + k ≤ 80 → length (take k (drop o bytes)) ≡ k
  length-field o k h = omega (arith, length-take k (drop o bytes), length-drop o bytes, size, h)

  field-Bytes : (o k : ℕ) → Bytes (take k (drop o bytes))
  field-Bytes o k = take-Bytes k (drop o bytes) (drop-Bytes o bytes whole)

  to_le_bytes-field :
      (o k : ℕ) → o + k ≤ 80 → to_le_bytes k (field o k bytes) ≡ take k (drop o bytes)
  to_le_bytes-field o k h =
      ap (λ n. to_le_bytes n (field o k bytes)) (sym (length-field o k h))
      ∙ to_le_bytes-from_le_bytes (take k (drop o bytes)) (field-Bytes o k)

  field-bounded : (o : ℕ) → o + 8 ≤ 80 → field o 8 bytes < 2 ^ 64
  field-bounded o h =
      let known = ap room (length-field o 8 h) in
      omega (arith, known, from_le_bytes-bounded (take 8 (drop o bytes)) (field-Bytes o 8))

  -- The bytes from an offset on are a field and the bytes behind it.
  from_offset :
      (o k n : ℕ) (rest : List ℕ)
      → o + k ≡ n
      → n ≤ 80
      → rest ≡ drop n bytes
      → to_le_bytes k (field o k bytes) ++ rest ≡ drop o bytes
  from_offset o k n rest e h r =
      ap (λ t. t ++ rest) (to_le_bytes-field o k (omega (arith, e, h)))
      ∙ ap (λ t. take k (drop o bytes) ++ t)
          (r ∙ ap (λ t. drop t bytes) (sym e) ∙ drop_add o k bytes)
      ∙ take-append-drop k (drop o bytes)

  last_field : to_le_bytes 8 (field 72 8 bytes) ≡ drop 72 bytes
  last_field =
      to_le_bytes-field 72 8 (omega arith)
      ∙ take_all 8 (drop 72 bytes) (omega (arith, length-drop 72 bytes, size))

module _ {F : Type 0} (b : Bits F) where
  with_known_kind-ok :
      (found : Option Kind) (m n : TargetMsg F) → with_known_kind b found m ≡ ok n → m ≡ n
  unfolding with_known_kind
  with_known_kind-ok none m n h = absurd (ground arith)
  with_known_kind-ok (some k) m n h = ground arith

  passed :
      (s t : Bool) (a c : DecodeError) (r : Result DecodeError (TargetMsg F)) (m : TargetMsg F)
      → (if not s then err a else if not t then err c else r) ≡ ok m
      → (s ≡ true) × (t ≡ true) × (r ≡ ok m)
  passed false t a c r m h = absurd (ground (arith, h))
  passed true false a c r m h = absurd (ground (arith, h))
  passed true true a c r m h = (refl, refl, h)

  decode_target-passed :
      (bytes : List ℕ) (m : TargetMsg F)
      → decode_target b bytes ≡ ok m
      → ((length bytes == 80) ≡ true)
        × ((field 0 1 bytes == 1) ≡ true)
        × (with_known_kind b (kind_from_u8 (read_target b bytes).kind_byte) (read_target b bytes)
            ≡ ok m)
  unfolding decode_target target_size msg_version
  decode_target-passed bytes m h =
      passed (length bytes == 80) (field 0 1 bytes == 1) (wrong_length (length bytes) 80)
        (wrong_version (field 0 1 bytes))
        (with_known_kind b (kind_from_u8 (read_target b bytes).kind_byte) (read_target b bytes)) m h

  same : (x y : ℕ) → (x == y) ≡ true → x ≡ y
  same x y h = ground arith

  module _ (exact : (n : ℕ) → n < 2 ^ 64 → b.to_bits (b.from_bits n) ≡ n) (bytes : List ℕ)
      (whole : Bytes bytes) (size : length bytes ≡ 80) where
    number : ℕ → List ℕ
    number o = to_le_bytes 8 (b.to_bits (b.from_bits (field o 8 bytes)))

    number-field : (o : ℕ) → o + 8 ≤ 80 → number o ≡ to_le_bytes 8 (field o 8 bytes)
    unfolding number
    number-field o h =
        ap (to_le_bytes 8) (exact (field o 8 bytes) (field-bounded bytes whole size o h))

    number_offset :
        (o n : ℕ) (rest : List ℕ)
        → o + 8 ≡ n
        → n ≤ 80
        → rest ≡ drop n bytes
        → number o ++ rest ≡ drop o bytes
    number_offset o n rest e h r =
        ap (λ t. t ++ rest) (number-field o (omega (arith, e, h)))
        ∙ from_offset bytes whole size o 8 n rest e h r

    first_offset :
        field 0 1 bytes ≡ 1
        → (rest : List ℕ) → rest ≡ drop 1 bytes
        → to_le_bytes 1 1 ++ rest ≡ bytes
    first_offset version rest r =
        ap (λ v. to_le_bytes 1 v ++ rest) (sym version)
        ∙ from_offset bytes whole size 0 1 1 rest refl (omega arith) r

    target_bytes-read_target : field 0 1 bytes ≡ 1 → target_bytes b (read_target b bytes) ≡ bytes
    unfolding target_bytes read_target msg_version number
    target_bytes-read_target version =
        let front = λ (o k n : ℕ) (rest : List ℕ). from_offset bytes whole size o k n rest in
        let numbers = number_offset 24 32 _ refl (omega arith) (
          number_offset 32 40 _ refl (omega arith) (
            number_offset 40 48 _ refl (omega arith) (
              number_offset 48 56 _ refl (omega arith) (
                number_offset 56 64 _ refl (omega arith) (
                  number_offset 64 72 _ refl (omega arith)
                    (number-field 72 (omega arith) ∙ last_field bytes whole size)))))) in
        first_offset version _ (
          front 1 1 2 _ refl (omega arith) (
            front 2 2 4 _ refl (omega arith) (
              front 4 4 8 _ refl (omega arith)
                (front 8 8 16 _ refl (omega arith) (front 16 8 24 _ refl (omega arith) numbers)))))

  -- Bytes that decode to a target are the bytes of that target, so that no two decode to the same one: every byte of the
  -- eighty is in a field. This is of numbers that keep the pattern of 64 bits they are read from.
  pub target_bytes-decode_target :
      (bytes : List ℕ) (m : TargetMsg F)
      → ((n : ℕ) → n < 2 ^ 64 → b.to_bits (b.from_bits n) ≡ n)
      → Bytes bytes
      → decode_target b bytes ≡ ok m
      → target_bytes b m ≡ bytes
  target_bytes-decode_target bytes m exact whole h =
      let (size, version, known) = decode_target-passed bytes m h in
      let found = read_target b bytes in
      ap (target_bytes b) (sym (with_known_kind-ok (kind_from_u8 found.kind_byte) found m known))
      ∙ target_bytes-read_target exact bytes whole (same (length bytes) 80 size)
          (same (field 0 1 bytes) 1 version)
