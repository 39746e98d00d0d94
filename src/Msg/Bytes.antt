-- ===== src/Msg/Bytes.antt =====
-- Targets as bytes (crates/franka-node/src/msg.rs).
use franka_rs.Common.{
  ℕ, ◌^◌, ◌<◌, ◌==◌, ◌≡◌, ◌≢◌, refl, ap, ◌∙◌, arith, Option, none, some, not, List, ◌++◌, length,
  take, drop, Result, ok, err, if◌then◌else◌,
}
use franka_rs.Float.{Arr7}
use franka_rs.Msg.{Kind, TargetMsg, kind_from_u8}
use franka_rs.Wire.{to_le_bytes, from_le_bytes}
use franka_rs.Robot.TargetControl.Slot.{Bits}
pub mod Back

-- `VERSION` and `TARGET_SIZE`
unfoldable pub msg_version : ℕ
msg_version = 1

unfoldable pub target_size : ℕ
target_size = 80

-- `DecodeError`, as a target's decoding gives it
pub data DecodeError : Type 0 where
  wrong_length : (got expected : ℕ) → DecodeError
  wrong_version : ℕ → DecodeError
  wrong_kind : ℕ → DecodeError

-- The field of `count` bytes at an offset, little-endian
abbrev pub field : ℕ → ℕ → List ℕ → ℕ
field offset count bytes = from_le_bytes (take count (drop offset bytes))

module _ {F : Type 0} (b : Bits F) where
  -- `TargetMsg::read_from_bytes`, of as many bytes as it has
  unfoldable pub read_target : List ℕ → TargetMsg F
  read_target bytes = record {
    kind_byte = field 1 1 bytes;
    flags = field 2 2 bytes;
    client_id = field 4 4 bytes;
    seq = field 8 8 bytes;
    t_send_ns = field 16 8 bytes;
    payload = record {
      a0 = b.from_bits (field 24 8 bytes);
      a1 = b.from_bits (field 32 8 bytes);
      a2 = b.from_bits (field 40 8 bytes);
      a3 = b.from_bits (field 48 8 bytes);
      a4 = b.from_bits (field 56 8 bytes);
      a5 = b.from_bits (field 64 8 bytes);
      a6 = b.from_bits (field 72 8 bytes);
    };
  }

  unfoldable pub with_known_kind : Option Kind → TargetMsg F → Result DecodeError (TargetMsg F)
  with_known_kind none m = err (wrong_kind m.kind_byte)
  with_known_kind (some k) m = ok m

  -- `TargetMsg::try_from`
  unfoldable pub decode_target : List ℕ → Result DecodeError (TargetMsg F)
  unfolding msg_version target_size read_target with_known_kind
  decode_target bytes =
      let m = read_target bytes in
      let version = field 0 1 bytes in
      if not (length bytes == target_size)
      then err (wrong_length (length bytes) target_size)
      else if not (version == msg_version)
      then err (wrong_version version)
      else with_known_kind (kind_from_u8 m.kind_byte) m

  -- `TargetMsg::as_bytes`, of a message of the current version
  unfoldable pub target_bytes : TargetMsg F → List ℕ
  unfolding msg_version
  target_bytes m =
      to_le_bytes 1 msg_version
      ++ (to_le_bytes 1 m.kind_byte
          ++ (to_le_bytes 2 m.flags
              ++ (to_le_bytes 4 m.client_id
                  ++ (to_le_bytes 8 m.seq
                      ++ (to_le_bytes 8 m.t_send_ns
                          ++ (to_le_bytes 8 (b.to_bits m.payload.a0)
                              ++ (to_le_bytes 8 (b.to_bits m.payload.a1)
                                  ++ (to_le_bytes 8 (b.to_bits m.payload.a2)
                                      ++ (to_le_bytes 8 (b.to_bits m.payload.a3)
                                          ++ (to_le_bytes 8 (b.to_bits m.payload.a4)
                                              ++ (to_le_bytes 8 (b.to_bits m.payload.a5)
                                                  ++ to_le_bytes 8
                                                      (b.to_bits m.payload.a6))))))))))))

  le8 : (n : ℕ) → n < 2 ^ 64 → from_le_bytes (to_le_bytes 8 n) ≡ n
  unfolding to_le_bytes from_le_bytes
  le8 n h = omega arith

  le4 : (n : ℕ) → n < 2 ^ 32 → from_le_bytes (to_le_bytes 4 n) ≡ n
  unfolding to_le_bytes from_le_bytes
  le4 n h = omega arith

  le2 : (n : ℕ) → n < 2 ^ 16 → from_le_bytes (to_le_bytes 2 n) ≡ n
  unfolding to_le_bytes from_le_bytes
  le2 n h = omega arith

  le1 : (n : ℕ) → n < 2 ^ 8 → from_le_bytes (to_le_bytes 1 n) ≡ n
  unfolding to_le_bytes from_le_bytes
  le1 n h = omega arith

  double :
      ((v : F) → b.from_bits (b.to_bits v) ≡ v)
      → ((v : F) → b.to_bits v < 2 ^ 64)
      → (v : F) → b.from_bits (from_le_bytes (to_le_bytes 8 (b.to_bits v))) ≡ v
  double round small v = ap b.from_bits (le8 (b.to_bits v) (small v)) ∙ round v

  seven :
      {a0 a1 a2 a3 a4 a5 a6 c0 c1 c2 c3 c4 c5 c6 : F}
      → a0 ≡ c0
      → a1 ≡ c1
      → a2 ≡ c2
      → a3 ≡ c3
      → a4 ≡ c4
      → a5 ≡ c5
      → a6 ≡ c6
      → ◌≡◌ {A = Arr7 F}
          (record { a0 = a0; a1 = a1; a2 = a2; a3 = a3; a4 = a4; a5 = a5; a6 = a6 })
          (record { a0 = c0; a1 = c1; a2 = c2; a3 = c3; a4 = c4; a5 = c5; a6 = c6 })
  seven e0 e1 e2 e3 e4 e5 e6 = cc

  six :
      {k f c s t k' f' c' s' t' : ℕ} {d d' : Arr7 F}
      → k ≡ k'
      → f ≡ f'
      → c ≡ c'
      → s ≡ s'
      → t ≡ t'
      → d ≡ d'
      → ◌≡◌ {A = TargetMsg F}
          (record { kind_byte = k; flags = f; client_id = c; seq = s; t_send_ns = t; payload = d })
          (record {
            kind_byte = k';
            flags = f';
            client_id = c';
            seq = s';
            t_send_ns = t';
            payload = d';
          })
  six e0 e1 e2 e3 e4 e5 = cc

  read_target-target_bytes :
      (m : TargetMsg F)
      → ((v : F) → b.from_bits (b.to_bits v) ≡ v)
      → ((v : F) → b.to_bits v < 2 ^ 64)
      → m.kind_byte < 2 ^ 8
      → m.flags < 2 ^ 16
      → m.client_id < 2 ^ 32
      → m.seq < 2 ^ 64
      → m.t_send_ns < 2 ^ 64
      → read_target (target_bytes m) ≡ m
  unfolding read_target target_bytes to_le_bytes from_le_bytes msg_version
  read_target-target_bytes m round small hk hf hc hs ht =
      six (le1 m.kind_byte hk) (le2 m.flags hf) (le4 m.client_id hc) (le8 m.seq hs)
        (le8 m.t_send_ns ht)
        (seven (double round small m.payload.a0) (double round small m.payload.a1)
          (double round small m.payload.a2) (double round small m.payload.a3)
          (double round small m.payload.a4) (double round small m.payload.a5)
          (double round small m.payload.a6))

  length-target_bytes : (m : TargetMsg F) → length (target_bytes m) ≡ 80
  unfolding target_bytes to_le_bytes
  length-target_bytes m = omega arith

  version-target_bytes : (m : TargetMsg F) → field 0 1 (target_bytes m) ≡ 1
  unfolding target_bytes to_le_bytes from_le_bytes msg_version
  version-target_bytes m = omega arith

  with_known_kind-known :
      (m : TargetMsg F) (k : Kind) (found : Option Kind)
      → found ≡ some k
      → with_known_kind found m ≡ ok m
  unfolding with_known_kind
  with_known_kind-known m k none e = absurd (ground arith)
  with_known_kind-known m k (some j) e = refl

  -- Seventy-nine bytes, eighty-one, or any other count but eighty decode to the error that names the count, whatever
  -- they hold.
  decode_target-wrong_length :
      (bytes : List ℕ)
      → length bytes ≢ 80
      → decode_target bytes ≡ err (wrong_length (length bytes) 80)
  unfolding decode_target target_size
  decode_target-wrong_length bytes h = ground arith

  decode_target-read :
      (bytes : List ℕ)
      → length bytes ≡ 80
      → field 0 1 bytes ≡ 1
      → decode_target bytes
        ≡ with_known_kind (kind_from_u8 (read_target bytes).kind_byte) (read_target bytes)
  unfolding decode_target target_size msg_version
  decode_target-read bytes size version = ground arith

  -- A target of a known kind, whose fields are in the ranges of their types, is written to exactly 80 bytes, and these
  -- bytes decode to the same target, provided that each number has a pattern of 64 bits and is the number of its pattern.
  pub decode_target-target_bytes :
      (m : TargetMsg F) (k : Kind)
      → ((v : F) → b.from_bits (b.to_bits v) ≡ v)
      → ((v : F) → b.to_bits v < 2 ^ 64)
      → kind_from_u8 m.kind_byte ≡ some k
      → m.kind_byte < 2 ^ 8
      → m.flags < 2 ^ 16
      → m.client_id < 2 ^ 32
      → m.seq < 2 ^ 64
      → m.t_send_ns < 2 ^ 64
      → (length (target_bytes m) ≡ 80) × (decode_target (target_bytes m) ≡ ok m)
  decode_target-target_bytes m k round small known hk hf hc hs ht =
      let bytes = target_bytes m in
      let back = read_target-target_bytes m round small hk hf hc hs ht in
      (
        length-target_bytes m,
        decode_target-read bytes (length-target_bytes m) (version-target_bytes m)
            ∙ ap (λ t. with_known_kind (kind_from_u8 t.kind_byte) t) back
            ∙ with_known_kind-known m k (kind_from_u8 m.kind_byte) known,
      )
