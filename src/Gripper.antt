-- ===== src/Gripper.antt =====
-- The client of the hand (crates/franka-rs/src/gripper/mod.rs, with the wire types of
-- wire/gripper.rs). Doubles are their 64 bits, as a number.
pub mod Answers
pub mod States
use Prim.Native.String.{String}
use franka_rs.Common.{
  ℕ, ◌+◌, ◌%◌, ◌^◌, min, ltb, ◌==◌, Bool, true, false, not, Option, none, some, List, [], ◌∷◌, ◌++◌,
  length, take, drop, Result, ok, err, map_err, ◌>>=◌, if◌then◌else◌,
}
use franka_rs.Wire.{HeaderLayout, gripper, header_len, to_le_bytes, from_le_bytes}
use franka_rs.Tcp.{Demux, TcpError, Reading, send_request, blocking_receive_response}

pub data GripperCommand : Type 0 where
  connect homing grasp move_fingers stop_fingers : GripperCommand

-- `to_u16`
unfoldable pub gripper_command_code : GripperCommand → ℕ
gripper_command_code connect = 0
gripper_command_code homing = 1
gripper_command_code grasp = 2
gripper_command_code move_fingers = 3
gripper_command_code stop_fingers = 4

pub data GripperStatus : Type 0 where
  success fail unsuccessful aborted : GripperStatus

-- `from_u16`
unfoldable pub gripper_status : ℕ → Option GripperStatus
gripper_status v =
    if v == 0
    then some success
    else if v == 1
    then some fail
    else if v == 2
    then some unsuccessful
    else if v == 3
    then some aborted
    else none

pub data GripperError : Type 0 where
  tcp : TcpError → GripperError
  wrong_size : GripperError  -- "libfranka: Incorrect TCP message size."
  command_failed : GripperError
  command_aborted : GripperError
  unexpected : GripperError

-- `message_payload`
unfoldable pub message_payload : HeaderLayout → List ℕ → List ℕ
message_payload layout message = drop (min (header_len layout) (length message)) message

-- `parse_response`, of the `u16` that a gripper answers with
unfoldable pub parse_status : List ℕ → Result GripperError ℕ
unfolding message_payload
parse_status message =
    let payload = message_payload gripper message in
    if ltb (length payload) 2 then err wrong_size else ok (from_le_bytes (take 2 payload))

-- The match of `execute_command`
unfoldable pub told : Option GripperStatus → Result GripperError Bool
told (some success) = ok true
told (some fail) = err command_failed
told (some unsuccessful) = ok false
told (some aborted) = err command_aborted
told none = err unexpected

-- What the reply comes to
unfoldable pub judge_reply : List ℕ → Result GripperError Bool
unfolding parse_status told gripper_status
judge_reply message = parse_status message >>= λ status. told (gripper_status status)

-- The TCP session: what the peer has still to say, what was received, and the next id
pub record Link : Type 0 where
  pub stream : List ℕ
  pub demux : Demux
  pub next_id : ℕ

abbrev pub heard : Option (Result TcpError (List ℕ)) → Option (Result GripperError Bool)
heard none = none
heard (some (err e)) = some (err (tcp e))
heard (some (ok message)) = some (judge_reply message)

-- `execute_command`, where the socket takes the request as `written` says and says `readings` after
-- it: the result, unless it still waits, the bytes that go out, and the session behind it
unfoldable pub execute_command :
    GripperCommand
    → List ℕ
    → Result String (Unit {0})
    → List Reading
    → Link
    → Option (Result GripperError Bool) × List ℕ × Link
unfolding judge_reply
execute_command command payload written readings l =
    let (sent, message, id') =
      send_request gripper (gripper_command_code command) payload written l.next_id in
    elim sent [
      | err e ↦ (some (err (tcp e)), message, record l { next_id = id' })
      | ok id ↦
          let (reply, stream', demux') =
            blocking_receive_response gripper id readings l.stream l.demux in
          (heard reply, message, record { stream = stream'; demux = demux'; next_id = id' })
    ]

-- `GripperMoveRequest`
unfoldable pub gripper_move_request : ℕ → ℕ → List ℕ
gripper_move_request width speed = to_le_bytes 8 width ++ to_le_bytes 8 speed

-- `GraspRequest`
unfoldable pub grasp_request : ℕ → ℕ → ℕ → ℕ → ℕ → List ℕ
grasp_request width epsilon_inner epsilon_outer speed force =
    to_le_bytes 8 width
    ++ (to_le_bytes 8 epsilon_inner
        ++ (to_le_bytes 8 epsilon_outer ++ (to_le_bytes 8 speed ++ to_le_bytes 8 force)))

-- What `homing`, `grasp`, `move_gripper` and `stop` ask for
pub data HandCall : Type 0 where
  call_homing : HandCall
  call_grasp : (width speed force epsilon_inner epsilon_outer : ℕ) → HandCall
  call_move : (width speed : ℕ) → HandCall
  call_stop : HandCall

unfoldable pub command_of : HandCall → GripperCommand
command_of call_homing = homing
command_of (call_grasp w s f i o) = grasp
command_of (call_move w s) = move_fingers
command_of call_stop = stop_fingers

unfoldable pub payload_of : HandCall → List ℕ
unfolding gripper_move_request grasp_request
payload_of call_homing = []
payload_of (call_grasp w s f i o) = grasp_request w i o s f
payload_of (call_move w s) = gripper_move_request w s
payload_of call_stop = []

unfoldable pub call_hand :
    HandCall
    → Result String (Unit {0})
    → List Reading
    → Link
    → Option (Result GripperError Bool) × List ℕ × Link
unfolding command_of payload_of execute_command
call_hand call = execute_command (command_of call) (payload_of call)

-- `GripperState`, with the time in milliseconds
pub record GripperState : Type 0 where
  pub width : ℕ
  pub max_width : ℕ
  pub is_grasped : Bool
  pub temperature : ℕ
  pub time : ℕ

-- `read_from_bytes` and `GripperState::from`, of the 23 bytes of the wire's state
unfoldable pub gripper_state_of : List ℕ → GripperState
gripper_state_of buf = record {
  width = from_le_bytes (take 8 (drop 4 buf));
  max_width = from_le_bytes (take 8 (drop 12 buf));
  is_grasped = not (from_le_bytes (take 1 (drop 20 buf)) == 0);
  temperature = from_le_bytes (take 2 (drop 21 buf));
  time = from_le_bytes (take 4 buf);
}

-- What `try_receive` says before it says that nothing is queued
unfoldable pub drain_udp : {E : Type 0} → List (Result E (List ℕ)) → Result E (Unit {0})
drain_udp [] = ok tt
drain_udp (err e ∷ queued) = err e
drain_udp (ok old ∷ queued) = drain_udp queued

pub data ReadError (E : Type 0) : Type 0 where
  network : E → ReadError E
  object_size : ReadError E  -- "libfranka: incorrect object size"

-- What `recvfrom` puts into the buffer of 23 bytes: a longer datagram is cut off.
unfoldable pub receive_buffer : List ℕ → List ℕ
receive_buffer datagram = take 23 datagram

-- `read_once` behind its loop
unfoldable pub after_drain :
    {E : Type 0} → Result E (Unit {0}) → Result E (List ℕ) → Result (ReadError E) GripperState
unfolding gripper_state_of receive_buffer
after_drain drained fresh = map_err network drained >>= λ u. map_err network fresh >>= λ datagram.
    let buf = receive_buffer datagram in
    if length buf == 23 then ok (gripper_state_of buf) else err object_size

-- `read_once`: `queued` is what the socket holds, `fresh` the datagram that it waits for then.
unfoldable pub read_once :
    {E : Type 0} → List (Result E (List ℕ)) → Result E (List ℕ) → Result (ReadError E) GripperState
unfolding drain_udp after_drain
read_once queued fresh = after_drain (drain_udp queued) fresh
