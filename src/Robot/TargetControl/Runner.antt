-- ===== src/Robot/TargetControl/Runner.antt =====
-- One cycle of the realtime side of target control
-- (crates/franka-rs/src/robot/target_control/runner.rs).
use franka_rs.Common.{
  ℕ, zero, suc, ◌+◌, ◌-◌, ◌%◌, ◌^◌, min, ltb, leb, Bool, true, false, ◌&&◌, ◌||◌, not, Option, none,
  some, Result, ok, err, if◌then◌else◌,
}
use franka_rs.Float.{Float}
use franka_rs.Robot.TargetControl.Slot.{Array}
pub mod Runs
pub mod Onward
pub mod Stops
pub mod Deviates
pub mod Freezes

-- `STOP_TIMEOUT_CYCLES` of crates/franka-rs/src/robot/target_control/mod.rs
unfoldable pub stop_timeout_cycles : ℕ
stop_timeout_cycles = 5000

-- What `finish` tells of an end
pub data ControlError (E : Type 0) : Type 0 where
  deviation : ControlError E  -- DEVIATION_MESSAGE
  other : (e : E) → ControlError E

module _ (fl : Float) where
  -- What the code calls of the generator (`MultiOtg`, crates/franka-rs/src/otg): its axes by index,
  -- `set_position` and `set_target` with their error ignored, and a step of one nominal cycle.
  pub record MultiOtg : Type 1 where
    pub Otg : Type 0
    pub reset : Otg → Array fl.F → Otg
    pub set_position : Otg → Array fl.F → Otg
    pub set_target : Otg → Array fl.F → Otg
    pub set_state : Otg → Array fl.F → Array fl.F → Array fl.F → Otg
    pub step : Otg → Array fl.F × Otg
    pub position : Otg → Array fl.F
    pub target : Otg → Array fl.F
    pub velocity : Otg → Array fl.F
    pub acceleration : Otg → Array fl.F

  pub record Settle : Type 0 where
    pub tolerance : fl.F
    pub cycles : ℕ

  pub record Hold : Type 0 where
    pub held : Array fl.F
    pub sent : ℕ

  -- Where the generator is re-anchored and where it is to go
  abbrev pub Chart : Type 0
  Chart = Array fl.F → Array fl.F → Array fl.F × Array fl.F

  pub record Runner (o : MultiOtg) : Type 0 where
    pub started : Bool  -- `started` is still there
    pub otg : o.Otg
    pub settle : Settle
    pub chart : Chart
    pub aim : Array fl.F  -- `target`
    pub anchored : Bool
    pub deviated : Bool
    pub stop_cycles : ℕ
    pub hold : Option Hold

  pub record CycleStep : Type 0 where
    pub sent_position : Array fl.F
    pub sent_velocity : Array fl.F
    pub sent_acceleration : Array fl.F
    pub planned : Array fl.F  -- `target`
    pub is_hold : Bool
    pub finished : Bool

  -- What a cycle is given, and what it sees of what it shares with the commander: whether
  -- `try_lock` succeeds, the stop flag when it is loaded, and what its calls of `load` give.
  pub record Glimpse (S : Type 0) : Type 0 where
    pub state : S
    pub commanded : Array fl.F
    pub strayed : Bool
    pub blocked : Bool
    pub unlocked : Bool
    pub stop : Bool
    pub loads : ℕ → Option (Array fl.F)

  -- What a cycle does to what is shared: the state stored, the target published, the signal sent
  pub record Effects (S : Type 0) : Type 0 where
    pub stored : Option S
    pub published : Option (Array fl.F)
    pub signalled : Bool

  unfoldable pub zeros : Array fl.F
  zeros i = fl.of_ℕ 0

  unfoldable pub identity : Chart
  identity target commanded = (commanded, target)

  unfoldable pub rest_velocity : fl.F
  rest_velocity = fl.decimal 1 4

  unfoldable pub rest_acceleration : fl.F
  rest_acceleration = fl.decimal 5 2

  -- `iter().all` over the indices below `n`
  unfoldable pub all_below : ℕ → (ℕ → Bool) → Bool
  all_below zero test = true
  all_below (suc n) test = all_below n test && test n

  -- `==` on arrays of `n` doubles; `a == b` is `a <= b && b <= a`, also of a NaN and of two zeros
  unfoldable pub same_array : ℕ → Array fl.F → Array fl.F → Bool
  unfolding all_below
  same_array n a b = all_below n (λ i. fl.fle (a i) (b i) && fl.fle (b i) (a i))

  -- `self.target` after `while !self.shared.slot.load(&mut self.target) && stopping {}`
  unfoldable pub poll : ℕ → Bool → (ℕ → Option (Array fl.F)) → Array fl.F → Option (Array fl.F)
  poll zero stopping loads target = none
  poll (suc fuel) stopping loads target =
      let again = poll fuel stopping (λ k. loads (suc k)) target in
      elim (loads 0) [ some t ↦ some t | none ↦ if stopping then again else some target ]

  -- `finish`
  unfoldable pub finish :
      {o : MultiOtg} {E : Type 0}
      → Runner o
      → Result E (Unit {0})
      → Result (ControlError E) (Unit {0})
  finish r (ok u) = if r.deviated then err deviation else ok u
  finish r (err e) = err (other e)

  module _ (o : MultiOtg) (S : Type 0) (n s : ℕ) where
    abbrev pub Cycle : Type 0
    Cycle = CycleStep × Runner o × Effects S

    abbrev pub shown : Glimpse S → Effects S
    shown g = record {
      stored = if g.unlocked then some g.state else none;
      published = none;
      signalled = false;
    }

    -- The very same command again
    unfoldable pub held_cycle : Runner o → Glimpse S → Hold → Cycle
    unfolding zeros
    held_cycle r g h =
        let again = record h { sent = (h.sent + 1) % 2 ^ 32 } in
        (
          record {
            sent_position = h.held;
            sent_velocity = zeros;
            sent_acceleration = zeros;
            planned = r.aim;
            is_hold = true;
            finished = ltb r.settle.cycles again.sent;
          },
          record r { hold = some again },
          shown g,
        )

    -- The first cycle: anchor on the command, publish it and signal the start.
    unfoldable pub anchor_cycle : Runner o → Glimpse S → Runner o × Effects S
    anchor_cycle r g =
        let (at, goal) = r.chart g.commanded g.commanded in
        (
          record r { anchored = true; aim = g.commanded; otg = o.reset r.otg at; started = false },
          record (shown g) { published = some g.commanded; signalled = r.started },
        )

    unfoldable pub adopt :
        Runner o → Glimpse S → Option (Array fl.F) → Option (Runner o × Effects S)
    adopt r g none = none
    adopt r g (some t) = some (record r { aim = t }, shown g)

    -- Where the target comes from in this cycle
    unfoldable pub aim_cycle : ℕ → Bool → Runner o → Glimpse S → Option (Runner o × Effects S)
    unfolding poll anchor_cycle adopt
    aim_cycle fuel stopping r g =
        if not r.anchored
        then some (anchor_cycle r g)
        else if not r.deviated && g.strayed
        then some (record r { deviated = true; aim = g.commanded }, shown g)
        else if not r.deviated
        then adopt r g (poll fuel stopping g.loads r.aim)
        else some (r, shown g)

    -- Every axis within the tolerance of its target and at rest
    unfoldable pub axes_landed : Settle → o.Otg → Bool
    unfolding all_below rest_velocity rest_acceleration
    axes_landed settle axes = all_below n (λ i.
        fl.flt (fl.abs (fl.sub (o.position axes i) (o.target axes i))) settle.tolerance
        && fl.flt (fl.abs (o.velocity axes i)) rest_velocity
        && fl.flt (fl.abs (o.acceleration axes i)) rest_acceleration)

    -- The generator's step towards the target
    unfoldable pub plan : Runner o → Array fl.F → Array fl.F × Runner o
    plan r commanded =
        let (anchor, goal) = r.chart r.aim commanded in
        let (position, otg') = o.step (o.set_target (o.set_position r.otg anchor) goal) in
        (position, record r { otg = otg' })

    unfoldable pub moving_step : Runner o → Array fl.F → CycleStep
    moving_step r position = record {
      sent_position = position;
      sent_velocity = o.velocity r.otg;
      sent_acceleration = o.acceleration r.otg;
      planned = r.aim;
      is_hold = false;
      finished = false;
    }

    -- Hold the echo of the last command; this is the first of the identical ones.
    unfoldable pub begin_hold : Runner o → Array fl.F → CycleStep × Runner o
    unfolding zeros
    begin_hold r commanded =
        let (at, goal) = r.chart commanded commanded in
        (
          record {
            sent_position = at;
            sent_velocity = zeros;
            sent_acceleration = zeros;
            planned = r.aim;
            is_hold = true;
            finished = false;
          },
          record r { hold = some (record { held = at; sent = 1 }) },
        )

    -- The stop path, after the generator's step: `r` counts the present cycle.
    unfoldable pub stopping_step :
        Array fl.F → Glimpse S → Array fl.F × Runner o → CycleStep × Runner o
    unfolding stop_timeout_cycles same_array axes_landed moving_step begin_hold
    stopping_step previous g (position, r) =
        let landed = (g.blocked && same_array s r.aim previous) || axes_landed r.settle r.otg in
        if landed || leb stop_timeout_cycles r.stop_cycles
        then begin_hold r g.commanded
        else (moving_step r position, r)

    unfoldable pub settle_cycle :
        Bool → Array fl.F → Glimpse S → Array fl.F × Runner o → CycleStep × Runner o
    unfolding stopping_step moving_step
    settle_cycle stopping previous g (position, r) =
        if stopping || r.deviated
        then stopping_step previous g
            (position, record r { stop_cycles = min (2 ^ 32 - 1) (r.stop_cycles + 1) })
        else (moving_step r position, r)

    -- The generator's step and the stop path, with the target of this cycle
    unfoldable pub follow :
        Bool → Array fl.F → Glimpse S → Option (Runner o × Effects S) → Option Cycle
    unfolding plan settle_cycle
    follow stopping previous g none = none
    follow stopping previous g (some (r, effects)) =
        let (step, r') = settle_cycle stopping previous g (plan r g.commanded) in
        some (step, r', effects)

    unfoldable pub moving_cycle : ℕ → Runner o → Glimpse S → Option Cycle
    unfolding aim_cycle follow
    moving_cycle fuel r g =
        let stopping = r.deviated || g.stop in follow stopping r.aim g (aim_cycle fuel stopping r g)

    -- `cycle`; `none` is a loop that has not left its `while` in `fuel` rounds.
    unfoldable pub cycle : ℕ → Runner o → Glimpse S → Option Cycle
    unfolding held_cycle moving_cycle
    cycle fuel r g = elim r.hold [ some h ↦ some (held_cycle r g h) | none ↦ moving_cycle fuel r g ]
