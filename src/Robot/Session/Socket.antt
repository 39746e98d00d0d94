-- ===== src/Robot/Session/Socket.antt =====
-- The calls of the sockets (crates/franka-rs/src/network/tcp.rs and mod.rs), as the session makes them.
use franka_rs.Common.{ℕ, ◌+◌, ◌%◌, ◌^◌, Option, List, [], ◌∷◌, Result, ok, err}
use franka_rs.Robot.Session.{
  RobotError, protocol, requested, awaited, polled, commanded, done, failed, stalled, M,
  RobotCommand, of_result,
}

-- `send_request`: the id is taken even where the socket refuses.
unfoldable pub send_request : ℕ → List ℕ → M ℕ
send_request command payload s =
    let id = s.next_command_id in
    let s1 = record s { next_command_id = (id + 1) % 2 ^ 32 } in
    elim s.sends [
      | [] ↦ (stalled, s1)
      | err e ∷ sends ↦ (failed e, record s1 { sends = sends })
      | ok _ ∷ sends ↦
          (done id, record s1 { sends = sends; sent = requested command id payload ∷ s.sent })
    ]

-- `blocking_receive_response`
unfoldable pub blocking_receive_response : ℕ → M (List ℕ)
blocking_receive_response id s = elim s.claims [
  | [] ↦ (stalled, record s { sent = awaited id ∷ s.sent })
  | r ∷ claims ↦ of_result r (record s { claims = claims; sent = awaited id ∷ s.sent })
]

-- `try_receive_response`
unfoldable pub try_receive_response : ℕ → M (Option (List ℕ))
try_receive_response id s = elim s.polls [
  | [] ↦ (stalled, record s { sent = polled id ∷ s.sent })
  | r ∷ polls ↦ of_result r (record s { polls = polls; sent = polled id ∷ s.sent })
]

-- `throw_if_connection_closed`
unfoldable pub throw_if_connection_closed : M (Unit {0})
throw_if_connection_closed s = elim s.probes [
  | [] ↦ (stalled, s)
  | r ∷ probes ↦ of_result r (record s { probes = probes })
]

-- `send_udp`
unfoldable pub send_udp : RobotCommand → M (Unit {0})
send_udp c s = elim s.sends [
  | [] ↦ (stalled, s)
  | err e ∷ sends ↦ (failed e, record s { sends = sends })
  | ok _ ∷ sends ↦ (done tt, record s { sends = sends; sent = commanded c ∷ s.sent })
]

-- `status_byte`, of a response's payload
unfoldable pub status_byte : List ℕ → Result RobotError ℕ
status_byte [] = err (protocol "libfranka: Incorrect TCP message size.")
status_byte (byte ∷ _) = ok byte
