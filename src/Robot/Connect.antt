-- ===== src/Robot/Connect.antt =====
-- The handshake and the choice of the version (crates/franka-rs/src/network/mod.rs,
-- `connect_handshake` of the robot, and robot/robot_impl/mod.rs, `connect_as` and the version policy).
-- What a server answers to a fresh connection under each version is given.
pub mod Choice
use franka_rs.Common.{
  ℕ, ◌≡◌, ◌≢◌, ◌⊎◌, inl, inr, Bool, true, false, List, [], ◌∷◌, Result, ok, err, ◌==◌,
  if◌then◌else◌, if_intro, refl, ap, ◌∙◌, sym, arith, ==_iff,
}
use franka_rs.Robot.Codec.Versions.{FciVersion, v5, v10, connect_version}
use franka_rs.Robot.Session.{RobotError, protocol, incompatible_version}

-- `ConnectStatus::from_u8`, as a `HandshakeStatus`
pub data HandshakeStatus : Type 0 where
  success incompatible_library_version other : HandshakeStatus

unfoldable pub handshake_status : ℕ → HandshakeStatus
handshake_status byte =
    if byte == 0 then success else if byte == 1 then incompatible_library_version else other

-- `connect_handshake`, of a response's status byte and version
unfoldable pub shake : ℕ → HandshakeStatus → ℕ → Result RobotError ℕ
shake library_version success server_version = ok server_version
shake library_version incompatible_library_version server_version =
    err (incompatible_version server_version library_version)
shake library_version other server_version =
    err (protocol "libfranka: Protocol error during connection attempt")

-- What the server answers: the connection fails, or a status byte and a version.
abbrev pub Server : Type 0
Server = FciVersion → Result RobotError (ℕ × ℕ)

abbrev pub agreed : ℕ → Result RobotError ℕ → Result RobotError ℕ
agreed library_version (ok ri_version) =
    if ri_version == library_version
    then ok ri_version
    else err (incompatible_version ri_version library_version)
agreed library_version (err e) = err e

abbrev pub answered : ℕ → Result RobotError (ℕ × ℕ) → Result RobotError ℕ
answered library_version (ok (byte, version)) =
    agreed library_version (shake library_version (handshake_status byte) version)
answered library_version (err e) = err e

-- `connect_as`
unfoldable pub connect_as : Server → FciVersion → Result RobotError ℕ
unfolding shake handshake_status connect_version
connect_as server version = answered (connect_version version) (server version)

-- `VersionPolicy`
pub data VersionPolicy : Type 0 where
  auto : VersionPolicy
  exact : FciVersion → VersionPolicy

abbrev pub as_version : FciVersion → Result RobotError ℕ → Result RobotError (ℕ × FciVersion)
as_version version (ok ri_version) = ok (ri_version, version)
as_version version (err e) = err e

-- The error under version 10 that is tried again under version 5
abbrev pub tries_v5 : RobotError → Bool
tries_v5 (incompatible_version server_version _) = server_version == 5
tries_v5 _ = false

abbrev pub or_v5 : Server → Result RobotError ℕ → Result RobotError (ℕ × FciVersion)
or_v5 server (ok ri_version) = ok (ri_version, v10)
or_v5 server (err e) = if tries_v5 e then as_version v5 (connect_as server v5) else err e

-- The negotiation of `new_with_policy`
unfoldable pub negotiate : Server → VersionPolicy → Result RobotError (ℕ × FciVersion)
unfolding connect_as
negotiate server (exact version) = as_version version (connect_as server version)
negotiate server auto = or_v5 server (connect_as server v10)
