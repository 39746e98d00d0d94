-- ===== src/Wire.antt =====
-- The command headers of the Franka Control Interface (crates/franka-rs/src/wire/mod.rs). A byte
-- is a number below 256; the integers are unsigned and little-endian.
pub mod RoundTrip
use franka_rs.Common.{
  ℕ, zero, suc, ◌+◌, ◌*◌, ◌/◌, ◌%◌, ◌^◌, Option, none, some, List, [], ◌∷◌, ◌++◌, length, take,
  drop, ltb, if◌then◌else◌,
}

-- `to_le_bytes`, of an integer of `count` bytes
unfoldable pub to_le_bytes : ℕ → ℕ → List ℕ
to_le_bytes zero n = []
to_le_bytes (suc count) n = n % 256 ∷ to_le_bytes count (n / 256)

-- `from_le_bytes`
unfoldable pub from_le_bytes : List ℕ → ℕ
from_le_bytes [] = 0
from_le_bytes (b ∷ bytes) = b + 256 * from_le_bytes bytes

-- `HeaderLayout`
pub data HeaderLayout : Type 0 where
  robot gripper : HeaderLayout

-- `header_len`
unfoldable pub header_len : HeaderLayout → ℕ
header_len robot = 12
header_len gripper = 10

-- `command_width`
unfoldable pub command_width : HeaderLayout → ℕ
command_width robot = 4
command_width gripper = 2

unfoldable pub command_bytes : HeaderLayout → ℕ → List ℕ
command_bytes robot command = to_le_bytes 4 command
command_bytes gripper command = to_le_bytes 2 (command % 2 ^ 16)

-- `encode_header`
unfoldable pub encode_header : HeaderLayout → ℕ → ℕ → ℕ → List ℕ
encode_header layout command command_id payload_len =
    let size = (header_len layout + payload_len) % 2 ^ 32 in
    command_bytes layout command ++ (to_le_bytes 4 command_id ++ to_le_bytes 4 size)

-- The leading `command` and the bytes behind it.
unfoldable pub split_command : HeaderLayout → List ℕ → ℕ × List ℕ
split_command robot buf = (from_le_bytes (take 4 buf), drop 4 buf)
split_command gripper buf = (from_le_bytes (take 2 buf), drop 2 buf)

-- `decode_header`: the command, its id and the size
unfoldable pub decode_header : HeaderLayout → List ℕ → Option (ℕ × ℕ × ℕ)
decode_header layout buf =
    if ltb (length buf) (header_len layout)
    then none
    else let (command, rest) = split_command layout buf in
      some (command, from_le_bytes (take 4 rest), from_le_bytes (take 4 (drop 4 rest)))
