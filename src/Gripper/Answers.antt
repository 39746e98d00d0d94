-- ===== src/Gripper/Answers.antt =====
-- What the calls of the hand's client come to (crates/franka-rs/src/gripper/mod.rs).
use franka_rs.Common.{
  ℕ, ◌^◌, ◌≤◌, ◌<◌, ◌≡◌, ◌≢◌, ◌⊎◌, inl, inr, ap, arith, All, Bool, Option, none, some, List, ◌∷◌,
  ◌++◌, length, Result, ok, err, true, false, ◌∙◌, drop, min, length-drop,
}
use franka_rs.Wire.{gripper, header_len, to_le_bytes, from_le_bytes, encode_header, command_bytes}
use franka_rs.Msg.Bytes.{field}
use franka_rs.Tcp.{
  TcpError, Reading, server_closed, map_get, send_request, blocking_receive_response,
}
use franka_rs.Tcp.Reassembly.{Framed, Follows}
use franka_rs.Tcp.Passes.{Healthy}
use franka_rs.Tcp.Claims.{Without}
use franka_rs.Tcp.Framing.{send_request-Framed}
use franka_rs.Tcp.Replies.{Replied, receive-Replied}
use franka_rs.Gripper.{
  HandCall, GripperError, Link, tcp, wrong_size, command_failed, command_aborted, unexpected,
  parse_status, message_payload, told, gripper_status, heard, judge_reply, call_hand,
  execute_command, command_of, payload_of, gripper_command_code, grasp_request,
  gripper_move_request, call_homing, call_grasp, call_move, call_stop,
}

-- What a reply says by its length and its status: a header of 10 bytes, then the status in 2
abbrev pub Says : List ℕ → Result GripperError Bool → Type 0
Says bytes r =
    (length bytes < 12 → r ≡ err wrong_size)
    × (12 ≤ length bytes → field 10 2 bytes ≡ 0 → r ≡ ok true)
    × (12 ≤ length bytes → field 10 2 bytes ≡ 1 → r ≡ err command_failed)
    × (12 ≤ length bytes → field 10 2 bytes ≡ 2 → r ≡ ok false)
    × (12 ≤ length bytes → field 10 2 bytes ≡ 3 → r ≡ err command_aborted)
    × (12 ≤ length bytes → 4 ≤ field 10 2 bytes → r ≡ err unexpected)

told-status :
    (n : ℕ)
    → (n ≡ 0 → told (gripper_status n) ≡ ok true)
      × (n ≡ 1 → told (gripper_status n) ≡ err command_failed)
      × (n ≡ 2 → told (gripper_status n) ≡ ok false)
      × (n ≡ 3 → told (gripper_status n) ≡ err command_aborted)
      × (4 ≤ n → told (gripper_status n) ≡ err unexpected)
unfolding told gripper_status
told-status n =
    (λ h. ground arith, λ h. ground arith, λ h. ground arith, λ h. ground arith, λ h. ground arith)

short_reply : (bytes : List ℕ) → length bytes < 12 → judge_reply bytes ≡ err wrong_size
unfolding judge_reply parse_status message_payload header_len
short_reply bytes h =
    let cut : min 10 (length bytes) ≤ 10 = omega arith in
    ground (arith, h, length-drop (min 10 (length bytes)) bytes)

long_reply :
    (bytes : List ℕ)
    → 12 ≤ length bytes
    → judge_reply bytes ≡ told (gripper_status (field 10 2 bytes))
unfolding judge_reply parse_status message_payload header_len
long_reply bytes h =
    let all : min 10 (length bytes) ≡ 10 = omega (arith, h) in
    ground (arith, h, all, length-drop 10 bytes, ap (λ n. drop n bytes) all)

judge_reply-Says : (bytes : List ℕ) → Says bytes (judge_reply bytes)
judge_reply-Says bytes =
    let (a, b, c, d, e) = told-status (field 10 2 bytes) in
    let long = long_reply bytes in
    (
      short_reply bytes,
      λ h n. long h ∙ a n,
      λ h n. long h ∙ b n,
      λ h n. long h ∙ c n,
      λ h n. long h ∙ d n,
      λ h n. long h ∙ e n,
    )

-- The arguments of a call are 64 bits each.
abbrev pub Fits : HandCall → Type 0
Fits call_homing = Unit {0}
Fits (call_grasp w s f i o) =
    (w < 2 ^ 64) × (s < 2 ^ 64) × (f < 2 ^ 64) × (i < 2 ^ 64) × (o < 2 ^ 64)
Fits (call_move w s) = (w < 2 ^ 64) × (s < 2 ^ 64)
Fits call_stop = Unit {0}

-- What goes out for a call: the number of its command, the length, and the arguments in their places
abbrev pub Asks : HandCall → List ℕ → Type 0
Asks call_homing bytes = (field 0 2 bytes ≡ 1) × (length bytes ≡ 10)
Asks (call_grasp w s f i o) bytes =
    (field 0 2 bytes ≡ 2)
    × (length bytes ≡ 50)
    × (field 10 8 bytes ≡ w)
    × (field 18 8 bytes ≡ i)
    × (field 26 8 bytes ≡ o)
    × (field 34 8 bytes ≡ s)
    × (field 42 8 bytes ≡ f)
Asks (call_move w s) bytes =
    (field 0 2 bytes ≡ 3) × (length bytes ≡ 26) × (field 10 8 bytes ≡ w) × (field 18 8 bytes ≡ s)
Asks call_stop bytes = (field 0 2 bytes ≡ 4) × (length bytes ≡ 10)

call_hand-Asks :
    (call : HandCall) (readings : List Reading) (l : Link)
    → Fits call
    → Asks call (call_hand call (ok tt) readings l).1
unfolding call_hand execute_command send_request encode_header command_bytes to_le_bytes
    from_le_bytes header_len command_of payload_of gripper_command_code grasp_request
    gripper_move_request
call_hand-Asks call_homing readings l f = (omega arith, omega arith)
call_hand-Asks (call_grasp w s f i o) readings l (hw, hs, hf, hi, ho) = (
  omega arith,
  omega arith,
  omega (arith, hw),
  omega (arith, hi),
  omega (arith, ho),
  omega (arith, hs),
  omega (arith, hf),
)
call_hand-Asks (call_move w s) readings l (hw, hs) =
    (omega arith, omega arith, omega (arith, hw), omega (arith, hs))
call_hand-Asks call_stop readings l f = (omega arith, omega arith)

-- What a call with the request `id` comes to, with the messages `ms` to come
abbrev pub Answered : ℕ → List (ℕ × List ℕ) → Option (Result GripperError Bool) → Type 0
Answered id ms none = Unit {0}
Answered id ms (some r) =
    ((bytes : List ℕ) × (before : List (ℕ × List ℕ)) × (later : List (ℕ × List ℕ)) × (ms
        ≡ before ++ (id, bytes) ∷ later)
      × Without id before
      × Says bytes r)
    ⊎ (r ≡ err (tcp server_closed)) × Without id ms

heard-Answered :
    (id : ℕ) (ms : List (ℕ × List ℕ)) (r : Option (Result TcpError (List ℕ)))
    → Replied id ms r
    → Answered id ms (heard r)
heard-Answered id ms none h = tt
heard-Answered id ms (some (ok bytes)) (before, later, e, w) =
    inl (bytes, before, later, e, w, judge_reply-Says bytes)
heard-Answered id ms (some (err e)) (c, w) = inr (ap (λ x. err (tcp x)) c, w)

-- A request has 0, 16 or 40 bytes.
length-payload_of : (call : HandCall) → length (payload_of call) ≤ 40
unfolding payload_of grasp_request gripper_move_request to_le_bytes
length-payload_of call_homing = omega arith
length-payload_of (call_grasp w s f i o) = omega arith
length-payload_of (call_move w s) = omega arith
length-payload_of call_stop = omega arith

code_bound : (call : HandCall) → gripper_command_code (command_of call) < 2 ^ 32
unfolding gripper_command_code command_of
code_bound call_homing = omega arith
code_bound (call_grasp w s f i o) = omega arith
code_bound (call_move w s) = omega arith
code_bound call_stop = omega arith

-- A call of the hand whose request the socket takes, with arguments of 64 bits: one well-framed
-- request goes out under the session's id, with the command's number and the arguments in their
-- places, and the next id is another one. Where the session holds no message of that id and stands
-- at the front of, or within, the first of some well-framed messages, then whatever the sizes in
-- which the socket hands out the stream, the call comes to what the status in the first message of
-- its id says (0 true, 2 false, 1 a failure, 3 an abortion, anything else or no status an error), or
-- still waits, or reports that the peer has closed the connection, and that only when no message of
-- its id was to come.
pub call_hand-Answered :
    (call : HandCall) (readings : List Reading) (l : Link) (ms : List (ℕ × List ℕ))
    → Fits call
    → l.next_id < 2 ^ 32
    → All Healthy readings
    → All (Framed gripper) ms
    → Follows gripper l.demux l.stream ms
    → map_get l.next_id l.demux.received ≡ none
    → let (result, bytes, l') = call_hand call (ok tt) readings l in
      Answered l.next_id ms result
      × Framed gripper (l.next_id, bytes)
      × Asks call bytes
      × (l'.next_id ≢ l.next_id)
unfolding call_hand execute_command send_request header_len
call_hand-Answered call readings l ms fits small h f w n =
    let p = length-payload_of call in
    let (framed, other, bound) =
      send_request-Framed gripper (gripper_command_code (command_of call)) (payload_of call) (ok tt)
        l.next_id (code_bound call) small (omega (arith, p)) in
    (
      heard-Answered l.next_id ms
          (blocking_receive_response gripper l.next_id readings l.stream l.demux).0
          (receive-Replied gripper l.next_id readings l.stream l.demux ms h f w n),
      framed,
      call_hand-Asks call readings l fits,
      other,
    )
