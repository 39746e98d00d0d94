-- ===== src/Lib.antt =====
-- franka-rs: a node that lets remote clients stream targets to a robot arm, and the client library
-- of the arm's control interface under it.
--
-- The parts and the files that model them:
-- * Guard (crates/franka-node/src/guard.rs): the gate that judges each target. `Guard.check` is
--   `Guard::check`; Guard.Rules has the rules and their helpers. Guard.Admission says what is
--   admissible apart from the order of the tests; Guard.Stream is about sequences of messages.
-- * Arm (crates/franka-node/src/arm): the thread of one arm. Arm.Machine is the state of `Machine`,
--   with the replies, the publications and the recorder's calls as a list of outputs, newest first.
--   Arm.Publish, Arm.Params, Arm.Session, Arm.Start, Arm.Gripper, Arm.Commands, Arm.Loop and
--   Arm.Thread have its methods, a function for each, from `transition` up to `run`; a method of
--   several parts has helpers named for those parts. Arm.Pose is `pose_target` of arm/state.rs.
-- * Arm.Platform is the interface of what the thread calls: `Control` and `RobotSide` of arm/mod.rs,
--   the clocks, the gripper's driver, and the tuning type of the library. The state of all that is
--   one type `World`, which each call takes and returns.
-- * Msg (crates/franka-node/src/msg.rs): the messages, decoded, and in Msg.Bytes a target as bytes.
--   Float: the operations on doubles, with no law assumed.
-- * Wire (crates/franka-rs/src/wire/mod.rs): the command headers as bytes. Tcp
--   (crates/franka-rs/src/network/tcp.rs): the reassembly of responses; a byte is a number below 256.
-- * Gripper (crates/franka-rs/src/gripper/mod.rs): the client of the hand, over the TCP session of
--   Tcp; a double is its 64 bits, and the UDP socket is the datagram that it has for each read.
-- * Arm.Safety is about the arm thread: Invariant states what holds between two events; Ending,
--   Starting, Keeping, Running and Reachable show that the operations keep it; Runs, Leases,
--   Watchdog, Targets, Batches, Tuning and Grip are about whole runs and about single operations.
-- * Arm.Backlog (crates/franka-node/src/arm/mod.rs): the backlog of an arm's channel, as atomic steps
--   of the senders and of the arm thread; the thread's own model has its two effects in `World`.
-- * Robot is about a session with the robot (crates/franka-rs/src/robot). Robot.Session is `RobotImpl`
--   with its `State`, as explicit state; what the sockets will say is a list for each kind of call, in
--   the order of the calls, and what the client does on them is recorded. A call ends with a result,
--   an error, a panic, or `stalled` where such a list runs out. Robot.Session.Socket has the calls of
--   network/tcp.rs and network/mod.rs as a session makes them; Robot.Responses is commands.rs;
--   Robot.Motion is robot_impl/motion.rs: its children Cycle, Start, Finish and Abort have the
--   operations, and the others are about them. Robot.ControlLoop is control_loop/runner.rs, over the
--   user's callbacks and the conversion of their outputs; Robot.Connect is the handshake and the
--   choice of the version; Robot.Logger is logger.rs, the ring buffer of the cycles; Robot.Modes and
--   Robot.Codec are the enums and the encodings of wire/robot.
-- * Robot.TargetControl is about target control (crates/franka-rs/src/robot/target_control).
--   TargetControl.Slot is slot.rs: the writer and the reader as atomic accesses, which Slot.Threads
--   interleaves; an array is a function of the index, of which only the indices below its length are
--   used. TargetControl.Runner is runner.rs over a generator that is a parameter (`MultiOtg`): a cycle
--   takes what it sees of the shared state (`Glimpse`) and returns what it does to it (`Effects`).
--   TargetControl.Tuning is tuning/mod.rs with the table of tuning/bounds.rs, Tuning.Slew is
--   tuning/slew.rs with the loop's part of it in torque/tuning.rs, and TargetControl.Handle the commander's side, the handle of mod.rs and the joint interface's check.
-- * Examples has test data and the theorems at that data.
--
-- How they interact: the transport sends events to the thread's channel. A round of the thread is
-- a tick, a call of the watchdog, or a batch of the events that are queued; within a session a
-- target goes from the batch through the gate to the control loop's handle. Durations and clock
-- readings are natural numbers of nanoseconds, and each reading of a clock returns a new world.
--
-- Bounds: the arm thread and the TCP session need no fuel. The `rounds` of the thread go over the list
-- of what the channel gives in each round, and end as on a closed channel where the list ends;
-- `collect` and `drain` go over a queue; the passes of the TCP session go over the list of what the
-- socket says. The counters are natural numbers: 64-bit counters that are increased once per message
-- do not reach their bound. The header fields are bounded, and `encode_header` has its wrap-around
-- written out.
--
-- The loops of a motion and of the control loop run on fuel, two more than the reads of the state's
-- socket to come: a round that does not end its loop uses up a read.
--
-- A slot's sequence number is a u64 with its wrap-around; a load is at most three tries, for which
-- three times N + 2 accesses are shown to be enough. The loop of a cycle over `load` runs on fuel; one
-- round is enough where the first load succeeds, and a load of a slot that stands still does.
--
-- Not modelled: logging and gauges; JSON and the byte layout of the node's messages but the target's; the recorder;
-- the transport and its threads; the real-time side and the numerics of the
-- client library, also those of its target control (the impedance law, the inverse kinematics, the
-- envelopes) and the start of its thread; the connection of its gripper client; the camera node, the viewer, the bindings and the tests.
pub mod Common
pub mod Float
pub mod Msg
pub mod Gripper
pub mod Guard
pub mod Arm
pub mod Wire
pub mod Tcp
pub mod Robot
pub mod Examples
