-- ===== src/Examples/Bytes.antt =====
-- The theorems about the TCP stream, at a short stream, and about a target's bytes, at one target.
use franka_rs.Common.{
  length, ok, ◌^◌, ◌<◌, ℕ, ◌≡◌, refl, none, List, [], ◌∷◌, ◌++◌, arith, All, Bool, true, false,
  ◌==◌,
}
use franka_rs.Wire.{split_command, from_le_bytes, gripper, header_len, decode_header}
use franka_rs.Tcp.{Demux, arrived, would_block, passes, Reading}
use franka_rs.Tcp.Reassembly.{Framed, Follows}
use franka_rs.Tcp.Passes.{InOrder, passes-InOrder, file_all}
use franka_rs.Msg.{TargetMsg, joints, kind_from_u8}
use franka_rs.Msg.Bytes.{
  target_bytes, read_target, with_known_kind, target_size, msg_version, decode_target,
  decode_target-target_bytes,
}
use franka_rs.Msg.Bytes.Back.{Bytes, target_bytes-decode_target}
use franka_rs.Robot.TargetControl.Slot.{Bits}

-- A response to the request 5 with two bytes of payload, and one to the request 6 with none.
abbrev first : List ℕ
first = 1 ∷ 0 ∷ 5 ∷ 0 ∷ 0 ∷ 0 ∷ 12 ∷ 0 ∷ 0 ∷ 0 ∷ 77 ∷ 78 ∷ []

abbrev second : List ℕ
second = 2 ∷ 0 ∷ 6 ∷ 0 ∷ 0 ∷ 0 ∷ 10 ∷ 0 ∷ 0 ∷ 0 ∷ []

abbrev both : List (ℕ × List ℕ)
both = (5, first) ∷ (6, second) ∷ []

abbrev nothing : Demux
nothing = record { received = []; pending = []; pending_len = none; pending_id = 0 }

-- The bytes come in threes at most, with a pause.
abbrev pauses : List Reading
pauses =
    arrived 3
    ∷ would_block
    ∷ arrived 20
    ∷ arrived 1
    ∷ arrived 50
    ∷ arrived 4
    ∷ arrived 9
    ∷ arrived 1
    ∷ []

both-Framed : All (Framed gripper) both
unfolding header_len decode_header split_command from_le_bytes
both-Framed = ((1, refl, omega arith, omega arith), ((2, refl, omega arith, omega arith), tt))

nothing-Follows : Follows gripper nothing (first ++ second) both
unfolding header_len
nothing-Follows = (0, refl, refl, omega arith, omega arith)

passes-InOrder_example : InOrder gripper [] both (passes gripper pauses (first ++ second) nothing)
passes-InOrder_example =
    passes-InOrder gripper pauses (first ++ second) nothing both (ground arith) both-Framed
      nothing-Follows

abbrev filed : Demux
filed = record nothing { received = file_all both [] }

-- Two values, of the patterns 0 and 1
abbrev to_pattern : Bool → ℕ
to_pattern false = 0
to_pattern true = 1

abbrev patterns : Bits Bool
patterns = record { to_bits = to_pattern; from_bits = λ n. n == 1 }

patterns_round : (v : Bool) → patterns.from_bits (patterns.to_bits v) ≡ v
patterns_round false = refl
patterns_round true = refl

patterns_small : (v : Bool) → patterns.to_bits v < 2 ^ 64
patterns_small false = omega arith
patterns_small true = omega arith

abbrev to_joints : TargetMsg Bool
to_joints = record {
  kind_byte = 2;
  flags = 256;
  client_id = 4294967295;
  seq = 65536;
  t_send_ns = 99;
  payload = record {
    a0 = true;
    a1 = false;
    a2 = true;
    a3 = true;
    a4 = false;
    a5 = false;
    a6 = true;
  };
}

decode_target-target_bytes_example :
    (length (target_bytes patterns to_joints) ≡ 80)
    × (decode_target patterns (target_bytes patterns to_joints) ≡ ok to_joints)
unfolding kind_from_u8
decode_target-target_bytes_example =
    decode_target-target_bytes patterns to_joints joints patterns_round patterns_small refl
      (omega arith) (omega arith) (omega arith) (omega arith) (omega arith)

-- The numbers are the patterns themselves.
abbrev raw : Bits ℕ
raw = record { to_bits = λ v. v; from_bits = λ n. n }

abbrev received_bytes : List ℕ
received_bytes =
    1 ∷ 1 ∷ 1 ∷ 0 ∷ 7 ∷ 0 ∷ 0 ∷ 0 ∷ 5 ∷ 1 ∷ 0 ∷ 0 ∷ 0 ∷ 0 ∷ 0 ∷ 0 ∷ 255 ∷ 255 ∷ 0 ∷ 0 ∷ 0 ∷ 0 ∷ 0
    ∷ 0 ∷ 0 ∷ 0 ∷ 0 ∷ 0 ∷ 0 ∷ 0 ∷ 240 ∷ 63 ∷ 1 ∷ 0 ∷ 0 ∷ 0 ∷ 0 ∷ 0 ∷ 240 ∷ 63 ∷ 2 ∷ 0 ∷ 0 ∷ 0 ∷ 0
    ∷ 0 ∷ 240 ∷ 63 ∷ 3 ∷ 0 ∷ 0 ∷ 0 ∷ 0 ∷ 0 ∷ 240 ∷ 63 ∷ 4 ∷ 0 ∷ 0 ∷ 0 ∷ 0 ∷ 0 ∷ 240 ∷ 63 ∷ 5 ∷ 0 ∷ 0
    ∷ 0 ∷ 0 ∷ 0 ∷ 240 ∷ 63 ∷ 6 ∷ 0 ∷ 0 ∷ 0 ∷ 0 ∷ 0 ∷ 240 ∷ 63 ∷ []

abbrev received_target : TargetMsg ℕ
received_target = record {
  kind_byte = 1;
  flags = 1;
  client_id = 7;
  seq = 261;
  t_send_ns = 65535;
  payload = record {
    a0 = 4607182418800017408;
    a1 = 4607182418800017409;
    a2 = 4607182418800017410;
    a3 = 4607182418800017411;
    a4 = 4607182418800017412;
    a5 = 4607182418800017413;
    a6 = 4607182418800017414;
  };
}

received_bytes-decoded : decode_target raw received_bytes ≡ ok received_target
unfolding decode_target read_target with_known_kind kind_from_u8 from_le_bytes target_size
    msg_version
received_bytes-decoded = refl

received_bytes-Bytes : Bytes received_bytes
received_bytes-Bytes = ground arith

target_bytes-decode_target_example : target_bytes raw received_target ≡ received_bytes
target_bytes-decode_target_example =
    target_bytes-decode_target raw received_bytes received_target (λ n h. refl) received_bytes-Bytes
      received_bytes-decoded
