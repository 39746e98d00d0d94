-- ===== src/Examples/Hand.antt =====
-- The hand's client at concrete inputs (crates/franka-rs/src/gripper/mod.rs).
use franka_rs.Common.{
  ℕ, ◌≡◌, ◌≢◌, ◌<◌, refl, arith, none, true, List, [], ◌∷◌, ◌++◌, map, length, All, ok, err,
}
use franka_rs.Wire.{gripper, header_len, decode_header, split_command, from_le_bytes}
use franka_rs.Tcp.{Reading, arrived, would_block, blocking_receive_response, map_get}
use franka_rs.Tcp.Reassembly.{Framed, Follows}
use franka_rs.Tcp.Replies.{Replied, receive-Replied}
use franka_rs.Gripper.{Link, call_hand, call_grasp, read_once, object_size}
use franka_rs.Gripper.Answers.{Answered, Asks, call_hand-Answered}
use franka_rs.Gripper.States.{state_bytes, read_once-fresh}

-- A success under the id 4 and an abortion under the id 5
abbrev succeeded : List ℕ
succeeded = 2 ∷ 0 ∷ 4 ∷ 0 ∷ 0 ∷ 0 ∷ 12 ∷ 0 ∷ 0 ∷ 0 ∷ 0 ∷ 0 ∷ []

abbrev aborted_reply : List ℕ
aborted_reply = 2 ∷ 0 ∷ 5 ∷ 0 ∷ 0 ∷ 0 ∷ 12 ∷ 0 ∷ 0 ∷ 0 ∷ 3 ∷ 0 ∷ []

abbrev replies : List (ℕ × List ℕ)
replies = (4, succeeded) ∷ (5, aborted_reply) ∷ []

abbrev fresh_link : Link
fresh_link = record {
  stream = succeeded ++ aborted_reply;
  demux = record { received = []; pending = []; pending_len = none; pending_id = 0 };
  next_id = 5;
}

-- The bytes come in pieces, with a pause.
abbrev pieces : List Reading
pieces = arrived 7 ∷ would_block ∷ arrived 9 ∷ arrived 5 ∷ arrived 30 ∷ arrived 10 ∷ arrived 2 ∷ []

replies-Framed : All (Framed gripper) replies
unfolding header_len decode_header split_command from_le_bytes
replies-Framed = ((2, refl, omega arith, omega arith), ((2, refl, omega arith, omega arith), tt))

replies-Follows : Follows gripper fresh_link.demux fresh_link.stream replies
unfolding header_len
replies-Follows = (0, refl, refl, omega arith, omega arith)

receive-Replied_example :
    Replied 5 replies
      (blocking_receive_response gripper 5 pieces fresh_link.stream fresh_link.demux).0
unfolding map_get
receive-Replied_example =
    receive-Replied gripper 5 pieces fresh_link.stream fresh_link.demux replies (ground arith)
      replies-Framed replies-Follows refl

call_hand-Answered_example :
    let (result, bytes, l') = call_hand (call_grasp 1 2 3 4 5) (ok tt) pieces fresh_link in
    Answered 5 replies result
    × Framed gripper (5, bytes)
    × Asks (call_grasp 1 2 3 4 5) bytes
    × (l'.next_id ≢ 5)
unfolding map_get
call_hand-Answered_example =
    call_hand-Answered (call_grasp 1 2 3 4 5) pieces fresh_link replies (ground arith) (omega arith)
      (ground arith) replies-Framed replies-Follows refl

read_once-fresh_example :
    (read_once {E = ℕ} (map ok ((1 ∷ []) ∷ [])) (ok (state_bytes 70 8 9 1 30 ++ 5 ∷ 6 ∷ []))
      ≡ ok (record { width = 8; max_width = 9; is_grasped = true; temperature = 30; time = 70 }))
    × ((datagram : List ℕ)
        → length datagram < 23
        → read_once {E = ℕ} (map ok ((1 ∷ []) ∷ [])) (ok datagram) ≡ err object_size)
read_once-fresh_example =
    read_once-fresh {E = ℕ} ((1 ∷ []) ∷ []) 70 8 9 1 30 (5 ∷ 6 ∷ []) (omega arith) (omega arith)
      (omega arith) (omega arith) (omega arith)
