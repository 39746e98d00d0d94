-- ===== src/Wire/RoundTrip.antt =====
-- What `encode_header` writes, `decode_header` reads (crates/franka-rs/src/wire/mod.rs).
use franka_rs.Common.{
  ℕ, zero, suc, ◌+◌, ◌/◌, ◌%◌, ◌^◌, ◌≤◌, ◌<◌, ◌≡◌, refl, ap, ◌∙◌, Option, some, List, ◌++◌, length,
  take, drop, arith,
}
use franka_rs.Wire.{
  to_le_bytes, from_le_bytes, HeaderLayout, robot, gripper, header_len, command_bytes,
  encode_header, split_command, decode_header,
}

length-to_le_bytes : (count n : ℕ) → length (to_le_bytes count n) ≡ count
unfolding to_le_bytes
length-to_le_bytes zero n = refl
length-to_le_bytes (suc count) n = ap suc (length-to_le_bytes count (n / 256))

-- Reading back `count` bytes of a number that fits them.
from_le-to_le4 : (n : ℕ) → n < 2 ^ 32 → from_le_bytes (to_le_bytes 4 n) ≡ n
unfolding to_le_bytes from_le_bytes
from_le-to_le4 n h = omega arith

from_le-to_le2 : (n : ℕ) → n < 2 ^ 16 → from_le_bytes (to_le_bytes 2 n) ≡ n
unfolding to_le_bytes from_le_bytes
from_le-to_le2 n h = omega arith

-- What a header keeps of a command: the gripper's are 16 bits wide.
abbrev pub kept_command : HeaderLayout → ℕ → ℕ
kept_command robot command = command
kept_command gripper command = command % 2 ^ 16

-- Where the header is there, it decodes to its fields.
pub decode_enough :
    (layout : HeaderLayout) (buf : List ℕ)
    → header_len layout ≤ length buf
    → decode_header layout buf
      ≡ some (
        (split_command layout buf).0,
        from_le_bytes (take 4 (split_command layout buf).1),
        from_le_bytes (take 4 (drop 4 (split_command layout buf).1)),
      )
unfolding decode_header
decode_enough layout buf h = ground arith

three :
    {A : Type 0} {a a' b b' c c' : A}
    → a ≡ a'
    → b ≡ b'
    → c ≡ c'
    → ◌≡◌ {A = Option (A × A × A)} (some (a, b, c)) (some (a', b', c'))
three p q r = cc

-- A header of 32-bit numbers, with any bytes behind it, is read back: the command as far as the
-- layout keeps it, the id, and a size that counts the header, as long as the size fits 32 bits.
pub decode_header-encode_header :
    (layout : HeaderLayout) (command command_id payload_len : ℕ) (payload : List ℕ)
    → command < 2 ^ 32
    → command_id < 2 ^ 32
    → header_len layout + payload_len < 2 ^ 32
    → decode_header layout (encode_header layout command command_id payload_len ++ payload)
      ≡ some (kept_command layout command, command_id, header_len layout + payload_len)
unfolding encode_header split_command command_bytes header_len to_le_bytes from_le_bytes
decode_header-encode_header robot c i p payload hc hi hs =
    decode_enough robot (encode_header robot c i p ++ payload) (ground arith)
    ∙ three (from_le-to_le4 c hc) (from_le-to_le4 i hi)
        (from_le-to_le4 ((12 + p) % 2 ^ 32) (ground arith) ∙ ground arith)
decode_header-encode_header gripper c i p payload hc hi hs =
    decode_enough gripper (encode_header gripper c i p ++ payload) (ground arith)
    ∙ three (from_le-to_le2 (c % 2 ^ 16) (ground arith)) (from_le-to_le4 i hi)
        (from_le-to_le4 ((10 + p) % 2 ^ 32) (ground arith) ∙ ground arith)
