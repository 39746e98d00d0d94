-- ===== src/Arm/Commands.antt =====
-- The verbs of an arm (crates/franka-node/src/arm/commands.rs).
use Prim.Native.Char.{code}
use Prim.Native.String.{String}
use franka_rs.Common.{
  ℕ, Bool, true, false, not, ◌&&◌, ◌||◌, Option, none, some, List, [], ◌∷◌, length, Result, ok, err,
  ltb, leb, ◌==◌, if◌then◌else◌,
}
use franka_rs.Float.{Float, Arr7}
use franka_rs.Guard.{Guard, clamp}
use franka_rs.Guard.Rules.{not_holder}
use franka_rs.Msg.{Kind, joints, Phase, idle, acquired, active, homing, CmdRequest}
use franka_rs.Arm.Platform.{Platform}
use franka_rs.Arm.Machine.{
  Machine, Why, text, not_allowed, held_by, reason, failed, bad_episode, Outcome, replied,
  gripper_stopped, recording_discarded, emit, contains, remove,
}
use franka_rs.Arm.Gripper.{gripper_home}
use franka_rs.Arm.Publish.{transition, unwrap_or}
use franka_rs.Arm.Session.{Session, cartesian_session, joints_loop, end_session}
use franka_rs.Arm.Start.{start_session, begin}

-- `Verb`
pub data Verb : Type 0 where
  acquire_verb release_verb enable_verb stop_verb recover_verb home_verb : Verb
  gripper_home_verb gripper_stop_verb : Verb

-- `READY`, in rad
unfoldable pub ready : (fl : Float) → Arr7 fl.F
ready fl =
    let zero_rad = fl.decimal 0 0 in
    record {
      a0 = zero_rad;
      a1 = fl.neg fl.frac_pi_4;
      a2 = zero_rad;
      a3 = fl.mul (fl.neg (fl.decimal 3 0)) fl.frac_pi_4;
      a4 = zero_rad;
      a5 = fl.frac_pi_2;
      a6 = fl.frac_pi_4;
    }

codes : String → List ℕ
codes String.[] = []
codes (String.◌∷◌ c s) = code c ∷ codes s

in_range : ℕ → ℕ → ℕ → Bool
in_range low high c = leb low c && leb c high

-- `c.is_ascii_alphanumeric() || c == '_' || c == '-'`
token_char : ℕ → Bool
unfolding in_range
token_char c =
    in_range b'0' b'9' c || in_range b'A' b'Z' c || in_range b'a' b'z' c || c == b'_' || c == b'-'

all_token_chars : List ℕ → Bool
unfolding token_char
all_token_chars [] = true
all_token_chars (c ∷ cs) = token_char c && all_token_chars cs

-- `check_episode_token` (crates/franka-node/src/msg/episode.rs); EPISODE_TOKEN_MAX is 128. A token
-- with a character of more than one byte is refused by the second test.
unfoldable pub check_episode_token : String → Bool
unfolding codes all_token_chars
check_episode_token token =
    let cs = codes token in not (length cs == 0 || ltb 128 (length cs)) && all_token_chars cs

-- `CmdRequest::episode`
unfoldable pub episode_of : {pf : Platform} → Option String → Result (Why pf) (Option String)
episode_of none = ok none
episode_of (some token) =
    if check_episode_token token then ok (some token) else err (bad_episode token)

-- `matches!(phase, Active | Homing)`
abbrev pub runs_session : Phase → Bool
runs_session active = true
runs_session homing = true
runs_session _ = false

abbrev pub may_enable : Phase → Bool
may_enable idle = true
may_enable acquired = true
may_enable _ = false

abbrev pub is_acquired : Phase → Bool
is_acquired acquired = true
is_acquired _ = false

-- The speed asked for (HOME_SPEED is 0.2), and within HOME_SPEED_RANGE (0.05..=0.5)
abbrev pub home_speed : (fl : Float) → CmdRequest fl.F → fl.F
home_speed fl request = unwrap_or request.speed (fl.decimal 2 1)

abbrev pub home_fraction : (fl : Float) → CmdRequest fl.F → fl.F
home_fraction fl request = clamp fl (home_speed fl request) (fl.decimal 5 2) (fl.decimal 5 1)

module _ {pf : Platform} where
  open pf use {
    float,
    float.{F, is_finite, decimal},
    World,
    Handle,
    Fault,
    set_target,
    stop_handle,
    automatic_error_recovery,
  }

  -- `holds`
  unfoldable pub holds : ℕ → Machine pf → Bool
  holds client m = not (client == 0) && m.holder == client

  abbrev pub acquire_in : Phase → ℕ → Machine pf → Outcome pf × Machine pf
  acquire_in idle client m = (ok tt, transition acquired (record m { holder = client }))
  acquire_in acquired client m = (ok tt, m)
  acquire_in other client m = (err (not_allowed other), m)

  -- `acquire`
  unfoldable pub acquire : ℕ → Machine pf → Outcome pf × Machine pf
  unfolding contains
  acquire client m =
      if not (contains client m.alive)
      then (err (text "no lease"), m)
      else if not (m.holder == 0) && not (m.holder == client)
      then (err (held_by m.holder), m)
      else acquire_in m.phase client m

  -- `if self.phase == Phase::Acquired { self.transition(Phase::Idle, ..) }`
  abbrev pub leave_acquired : Phase → Machine pf → Machine pf
  leave_acquired acquired m = transition idle m
  leave_acquired _ m = m

  -- `release`
  unfoldable pub release : ℕ → Machine pf → Outcome pf × Machine pf
  release client m =
      if not (holds client m)
      then (err (reason (not_holder client)), m)
      else if runs_session m.phase
      then (err (not_allowed m.phase), m)
      else (ok tt, leave_acquired m.phase (record m { holder = 0 }))

  abbrev pub session_of : Option Kind → Machine pf → Session F
  session_of (some joints) m = joints_loop m.config.joint_budget_fraction none
  session_of _ m = cartesian_session

  -- `enable`, once its checks have passed
  unfoldable pub enable_session :
      CmdRequest F → Option String → Machine pf → Outcome pf × Machine pf
  enable_session request episode m =
      let (started, m') = start_session (session_of request.mode m) episode m in
      elim started [
        | err why ↦ (err why, m')
        | ok (control, guard) ↦
            (ok tt, transition active (begin control guard request.client episode m'))
      ]

  -- Behind the check of the episode's token
  unfoldable pub enable_named :
      CmdRequest F → Result (Why pf) (Option String) → Machine pf → Outcome pf × Machine pf
  enable_named request (ok episode) m = enable_session request episode m
  enable_named request (err why) m = (err why, m)

  -- `enable`
  unfoldable pub enable : CmdRequest F → Machine pf → Outcome pf × Machine pf
  enable request m =
      if not (holds request.client m)
      then (err (reason (not_holder request.client)), m)
      else if not (may_enable m.phase)
      then (err (not_allowed m.phase), m)
      else enable_named request (episode_of request.episode) m

  -- `stopped.map_or_else(|s| s.to_string(), |()| e.to_string())`
  abbrev pub start_failure : Result Fault (Unit {0}) → Fault → Why pf
  start_failure (ok _) e = failed e
  start_failure (err s) e = failed s

  -- The started home loop is sent to READY; if it refuses, it is stopped again.
  unfoldable pub send_home :
      CmdRequest F → Option String → Handle → Guard F → Machine pf → Outcome pf × Machine pf
  send_home request episode control guard m =
      let (targeted, w) = set_target control (ready float) m.world in
      let m' = record m { world = w } in
      elim targeted [
        | ok _ ↦ (ok tt, transition homing (begin control guard request.client episode m'))
        | err e ↦
            let (stopped, w') = stop_handle control w in
            (err (start_failure stopped e), emit recording_discarded (record m' { world = w' }))
      ]

  unfoldable pub home_from :
      CmdRequest F
      → Option String
      → Result (Why pf) (Handle × Guard F) × Machine pf
      → Outcome pf × Machine pf
  home_from request episode (ok (control, guard), m) = send_home request episode control guard m
  home_from request episode (err why, m) = (err why, m)

  -- `start_home` behind its checks
  unfoldable pub home_session : CmdRequest F → Option String → Machine pf → Outcome pf × Machine pf
  home_session request episode m =
      if not (is_finite (home_speed float request))
      then (err (text "speed must be finite"), m)
      else let session = joints_loop (home_fraction float request) (some (ready float)) in
        home_from request episode (start_session session episode m)

  unfoldable pub home_named :
      CmdRequest F → Result (Why pf) (Option String) → Machine pf → Outcome pf × Machine pf
  home_named request (ok episode) m = home_session request episode m
  home_named request (err why) m = (err why, m)

  -- `start_home`
  unfoldable pub start_home : CmdRequest F → Machine pf → Outcome pf × Machine pf
  start_home request m =
      if not (holds request.client m)
      then (err (reason (not_holder request.client)), m)
      else if not (is_acquired m.phase)
      then (err (not_allowed m.phase), m)
      else home_named request (episode_of request.episode) m

  -- `stop_command`
  unfoldable pub stop_command : Machine pf → Outcome pf × Machine pf
  stop_command m =
      if runs_session m.phase
      then end_session (err (text "home stopped")) m
      else (err (not_allowed m.phase), m)

  -- `recover`
  unfoldable pub recover : Machine pf → Outcome pf × Machine pf
  recover m =
      if runs_session m.phase
      then (err (not_allowed m.phase), m)
      else let (recovered, w) = automatic_error_recovery m.world in
        let m' = record m { world = w } in
        elim recovered [ err e ↦ (err (failed e), m') | ok _ ↦ (ok tt, transition idle m') ]

  -- `lease_lost`
  unfoldable pub lease_lost : ℕ → Machine pf → Machine pf
  unfolding remove
  lease_lost client m =
      let m1 = record m { alive = remove client m.alive } in
      if not (client == m.holder)
      then m1
      else let (_, m2) = end_session (err (text "lease lost")) m1 in
        leave_acquired m2.phase (record m2 { holder = 0 })

  -- The reply to a verb that is answered at once.
  abbrev pub answer : ℕ → Outcome pf × Machine pf → Machine pf
  answer reply (outcome, m) = emit (replied reply outcome) m

  -- The end of `command` on `home`: the query of a started home waits for `finish_home`; the clock
  -- is read for `started`.
  unfoldable pub home_stored : ℕ → Outcome pf × Machine pf → Machine pf
  home_stored reply (started, m) = elim started [
    | err why ↦ emit (replied reply (err why)) m
    | ok _ ↦
        let (t, w) = pf.now m.world in
        record m { world = w; homing = some (record { reply = reply; started = t; within = 0 }) }
  ]

  unfoldable pub home_command : CmdRequest F → ℕ → Machine pf → Machine pf
  home_command request reply m = home_stored reply (start_home request m)

  unfoldable pub gripper_home_command : ℕ → ℕ → Machine pf → Machine pf
  gripper_home_command client reply m =
      if not (holds client m)
      then emit (replied reply (err (reason (not_holder client)))) m
      else elim m.gripper [
        | none ↦ emit (replied reply (err (text "no gripper"))) m
        | some g ↦ gripper_home g reply m
      ]

  unfoldable pub gripper_stop_command : ℕ → Machine pf → Machine pf
  gripper_stop_command reply m = elim m.gripper [
    | none ↦ emit (replied reply (err (text "no gripper"))) m
    | some g ↦ emit (replied reply (ok tt)) (emit gripper_stopped m)
  ]

  -- `command`
  unfoldable pub command : Verb → CmdRequest F → ℕ → Machine pf → Machine pf
  command acquire_verb request reply m = answer reply (acquire request.client m)
  command release_verb request reply m = answer reply (release request.client m)
  command enable_verb request reply m = answer reply (enable request m)
  command stop_verb request reply m = answer reply (stop_command m)
  command recover_verb request reply m = answer reply (recover m)
  command home_verb request reply m = home_command request reply m
  command gripper_home_verb request reply m = gripper_home_command request.client reply m
  command gripper_stop_verb request reply m = gripper_stop_command reply m
