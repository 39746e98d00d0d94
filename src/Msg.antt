-- ===== src/Msg.antt =====
-- The messages of crates/franka-node/src/msg.rs that the gate and the arm thread read, decoded:
-- kinds, phases, targets and command requests.
pub mod Bytes
use Prim.Native.Nat.{bit_and}
use Prim.Native.String.{String}
use franka_rs.Common.{ℕ, Bool, true, false, not, Option, none, some, if◌then◌else◌, ◌==◌}
use franka_rs.Float.{Arr7}

pub data Kind : Type 0 where
  cartesian : Kind
  joints : Kind

-- `Kind::from_u8`
unfoldable pub kind_from_u8 : ℕ → Option Kind
kind_from_u8 v = if v == 1 then some cartesian else if v == 2 then some joints else none

unfoldable pub kind_code : Kind → ℕ
kind_code cartesian = 1
kind_code joints = 2

-- `got != mode` on kinds
abbrev pub same_kind : Kind → Kind → Bool
same_kind cartesian cartesian = true
same_kind joints joints = true
same_kind _ _ = false

pub data Phase : Type 0 where
  idle acquired active stopping faulted homing : Phase

-- `Phase::from_u8`
unfoldable pub phase_from_u8 : ℕ → Option Phase
phase_from_u8 v =
    if v == 0
    then some idle
    else if v == 1
    then some acquired
    else if v == 2
    then some active
    else if v == 3
    then some stopping
    else if v == 4
    then some faulted
    else if v == 5
    then some homing
    else none

unfoldable pub phase_code : Phase → ℕ
phase_code idle = 0
phase_code acquired = 1
phase_code active = 2
phase_code stopping = 3
phase_code faulted = 4
phase_code homing = 5

-- `TargetMsg`, its little-endian fields read; `version` is checked when the message is decoded.
pub record TargetMsg (F : Type 0) : Type 0 where
  pub kind_byte : ℕ
  pub flags : ℕ
  pub client_id : ℕ
  pub seq : ℕ
  pub t_send_ns : ℕ
  pub payload : Arr7 F

-- `TARGET_ANCHOR`
abbrev pub target_anchor : ℕ
target_anchor = 1

-- `TargetMsg::kind`
unfoldable pub msg_kind : {F : Type 0} → TargetMsg F → Option Kind
unfolding kind_from_u8
msg_kind m = kind_from_u8 m.kind_byte

-- `TargetMsg::anchor`
unfoldable pub anchor : {F : Type 0} → TargetMsg F → Bool
anchor m = not (bit_and m.flags target_anchor == 0)

-- `CmdRequest`
pub record CmdRequest (F : Type 0) : Type 0 where
  pub client : ℕ
  pub mode : Option Kind
  pub speed : Option F
  pub episode : Option String
