-- ===== src/Tcp/Framing.antt =====
-- What `encode_header` writes before a payload is a message for the other end's reassembly
-- (crates/franka-rs/src/network/tcp.rs, `send_request`).
use franka_rs.Common.{
  ℕ, ◌+◌, ◌<◌, ◌≤◌, ◌^◌, ◌≡◌, ◌≢◌, ◌∙◌, ◌%◌, Option, some, List, [], length, arith,
}
use franka_rs.Wire.{HeaderLayout, header_len, encode_header, to_le_bytes, command_bytes}
use franka_rs.Wire.RoundTrip.{decode_header-encode_header}
use franka_rs.Tcp.{max_tcp_message_size, send_request}
use franka_rs.Tcp.Reassembly.{Framed}

fits :
    (layout : HeaderLayout) (n : ℕ)
    → header_len layout + n ≤ max_tcp_message_size
    → header_len layout + n < 2 ^ 32
fits layout n h = omega (arith, h)

same_size :
    (c i : ℕ) {n m : ℕ} → n ≡ m → ◌≡◌ {A = Option (ℕ × ℕ × ℕ)} (some (c, i, n)) (some (c, i, m))
same_size c i e = cc

-- With a command and an id of 32 bits and a message within the bound, what `send_request` writes
-- is framed: the bytes announce the id and their own number; the next id is another one, of 32
-- bits.
pub send_request-Framed :
    (layout : HeaderLayout) (command : ℕ) (payload : List ℕ) (written : _) (command_id : ℕ)
    → command < 2 ^ 32
    → command_id < 2 ^ 32
    → header_len layout + length payload ≤ max_tcp_message_size
    → let r = send_request layout command payload written command_id in
      Framed layout (command_id, r.1) × (r.2 ≢ command_id) × (r.2 < 2 ^ 32)
unfolding send_request encode_header command_bytes to_le_bytes header_len
send_request-Framed HeaderLayout.robot c p w i hc hi hs =
    let d =
      decode_header-encode_header HeaderLayout.robot c i (length p) [] hc hi
        (fits HeaderLayout.robot (length p) hs) in
    (
      (c, d ∙ same_size c i (omega arith), omega arith, omega (arith, hs)),
      omega (arith, hi),
      omega arith,
    )
send_request-Framed HeaderLayout.gripper c p w i hc hi hs =
    let d =
      decode_header-encode_header HeaderLayout.gripper c i (length p) [] hc hi
        (fits HeaderLayout.gripper (length p) hs) in
    (
      (c % 2 ^ 16, d ∙ same_size (c % 2 ^ 16) i (omega arith), omega arith, omega (arith, hs)),
      omega (arith, hi),
      omega arith,
    )
