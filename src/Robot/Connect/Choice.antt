-- ===== src/Robot/Connect/Choice.antt =====
-- Which version a session gets (crates/franka-rs/src/robot/robot_impl/mod.rs).
use franka_rs.Common.{ℕ, ◌≡◌, ◌⊎◌, true, Result, ok, err, if_intro, refl, ap, ◌∙◌, arith}
use franka_rs.Robot.Codec.Versions.{FciVersion, v5, v10, connect_version}
use franka_rs.Robot.Session.{RobotError}
use franka_rs.Robot.Connect.{
  shake, handshake_status, Server, agreed, answered, connect_as, VersionPolicy, auto, exact,
  as_version, tries_v5, or_v5, negotiate,
}

agreed_same : (library n : ℕ) (r : Result RobotError ℕ) → agreed library r ≡ ok n → n ≡ library
agreed_same library n (ok m) h = ground arith
agreed_same library n (err e) h = absurd (ground arith)

answered_same :
    (library n : ℕ) (r : Result RobotError (ℕ × ℕ)) → answered library r ≡ ok n → n ≡ library
answered_same library n (ok (byte, version)) h =
    agreed_same library n (shake library (handshake_status byte) version) h
answered_same library n (err e) h = absurd (ground arith)

connect_as-agrees :
    (server : Server) (v : FciVersion) (n : ℕ) → connect_as server v ≡ ok n → n ≡ connect_version v
unfolding connect_as
connect_as-agrees server v n h = answered_same (connect_version v) n (server v) h

-- What a policy allows: version 5 after version 10 only where the server says that it speaks 5.
abbrev pub Allowed : Server → VersionPolicy → FciVersion → Type 0
Allowed server (exact w) v = w ≡ v
Allowed server auto v10 = Unit {0}
Allowed server auto v5 = (e : RobotError) × (connect_as server v10 ≡ err e) × (tries_v5 e ≡ true)

as_version_ok :
    (w v : FciVersion) (n : ℕ) (r : Result RobotError ℕ)
    → as_version w r ≡ ok (n, v)
    → (w ≡ v) × (r ≡ ok n)
as_version_ok w v n (ok m) h = ground arith
as_version_ok w v n (err e) h = absurd (ground arith)

auto_agrees :
    (server : Server) (v : FciVersion) (n : ℕ) (r : Result RobotError ℕ)
    → connect_as server v10 ≡ r
    → or_v5 server r ≡ ok (n, v)
    → (n ≡ connect_version v) × Allowed server auto v
auto_agrees server v5 n (ok m) e = λ h. absurd (ground arith)
auto_agrees server v10 n (ok m) e = λ h. (connect_as-agrees server v10 n (e ∙ ground arith), tt)
auto_agrees server v5 n (err x) e =
    if_intro (λ r. r ≡ ok (n, v5) → (n ≡ connect_version v5) × Allowed server auto v5) (tries_v5 x)
      (λ t h. (
        connect_as-agrees server v5 n (as_version_ok v5 v5 n (connect_as server v5) h).1,
        (x, e, t),
      ))
      (λ t h. absurd (ground arith))
auto_agrees server v10 n (err x) e =
    if_intro (λ r. r ≡ ok (n, v10) → (n ≡ connect_version v10) × Allowed server auto v10)
      (tries_v5 x)
      (λ t h.
        let wrong = (as_version_ok v5 v10 n (connect_as server v5) h).0 in absurd (ground arith))
      (λ t h. absurd (ground arith))

-- A session that is opened has the version that the server reported, and a version that the policy
-- allows: under `Auto`, version 5 only after the server refused version 10 and reported 5.
pub negotiate-agrees :
    (server : Server) (policy : VersionPolicy) (n : ℕ) (v : FciVersion)
    → negotiate server policy ≡ ok (n, v)
    → (n ≡ connect_version v) × Allowed server policy v
unfolding negotiate
negotiate-agrees server (exact w) n v h =
    let (same, e) = as_version_ok w v n (connect_as server w) h in
    (connect_as-agrees server w n e ∙ ap connect_version same, same)
negotiate-agrees server auto n v h = auto_agrees server v n (connect_as server v10) refl h

-- A robot that speaks version 5, and says so to version 10 by refusing it or by accepting it as
-- version 5, gets a session of version 5 under `Auto`.
pub negotiate_v5 :
    (server : Server) (byte : ℕ)
    → (byte ≡ 0) ⊎ (byte ≡ 1)
    → server v10 ≡ ok (byte, 5)
    → server v5 ≡ ok (0, 5)
    → negotiate server auto ≡ ok (5, v5)
unfolding negotiate connect_as shake handshake_status connect_version
negotiate_v5 server byte b ten five = ground arith
