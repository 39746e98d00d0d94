-- ===== src/Examples/Tunings.antt =====
-- Live tuning and the commander's operations at concrete inputs
-- (crates/franka-rs/src/robot/target_control).
use franka_rs.Common.{
  ℕ, ◌+◌, ◌*◌, ◌<◌, ◌==◌, ◌||◌, ltb, max, ◌≡◌, true, false, none, some, [], ◌∷◌, ok, refl, arith,
  if_intro, subst, ◌-◌, ◌⊎◌, ◌≢◌,
}
use franka_rs.Robot.TargetControl.Slot.{
  TargetSlot, Array, Bits, update, load, read_steps, read_step, begin_read, result_of, next_try,
}
use franka_rs.Robot.TargetControl.Tuning.{
  LiveTuning, TuningUpdate, FieldBound, apply_update, bounds, bound, non_zero, carried, overlay,
  to_words, from_words, clamp, over_ceiling, ceiling_or, snap, snap_all, damping_low, damping_high,
  row_low, row_high, clamp_words, check_words, words_count, joint_damping_floor,
}
use franka_rs.Robot.TargetControl.Tuning.Accepts.{apply_update-bounded}
use franka_rs.Robot.TargetControl.Tuning.Finite.{Finite, Sound}
use franka_rs.Robot.TargetControl.Tuning.Partial.{apply_update-partial}
use franka_rs.Robot.TargetControl.Handle.{
  Shared, JointTargetControl, modify_target, tune, set_joints,
}
use franka_rs.Robot.TargetControl.Handle.Commands.{
  Modified, Tuned, modify_target-Modified, tune-Tuned,
}
use franka_rs.Robot.TargetControl.Handle.Joints.{Accepted, set_joints-Accepted}
use franka_rs.Robot.TargetControl.Tuning.Slew.{
  LoopTuning, tuning_cycle, take_targets, adopt_targets, slew_toward, slew_words, slewed, goal_of,
  rate_word, policy,
}
use franka_rs.Robot.TargetControl.Tuning.Settling.{tuning_cycle-settled}
use franka_rs.Robot.TargetControl.Tuning.Gate.{to_words-from_words}
use franka_rs.Examples.{whole}

abbrev same : Bits ℕ
same = record { to_bits = λ v. v; from_bits = λ v. v }

abbrev calm : LiveTuning whole
calm = record {
  joint_stiffness = λ i. 100;
  joint_damping = λ i. 10;
  cartesian_stiffness = 750;
  ik_damping = 1;
  ik_nullspace_gain = 1;
  velocity_feedforward_gain = 0;
  velocity_feedforward_cutoff = 1000;
  budget = λ i. 1;
  rotation_budget = λ i. 1;
}

-- Far more Cartesian stiffness, and nothing else
abbrev stiffer : TuningUpdate whole
stiffer = record {
  new_joint_stiffness = none;
  new_joint_damping = none;
  new_cartesian_stiffness = some 9000;
  new_ik_damping = none;
  new_ik_nullspace_gain = none;
  new_velocity_feedforward_gain = none;
  new_velocity_feedforward_cutoff = none;
  new_budget = none;
  new_rotation_budget = none;
}

-- The words of `calm`, the one that was clamped last
abbrev clamped_words : Array ℕ
clamped_words = update (to_words whole (overlay whole stiffer calm)) 14 3000

stiffer-accepted :
    apply_update whole same calm stiffer ≡ ok (from_words whole clamped_words, 14 ∷ [])
unfolding apply_update check_words clamp_words snap_all snap clamp over_ceiling ceiling_or bounds
    bound non_zero carried overlay to_words from_words words_count damping_low damping_high row_low
    row_high joint_damping_floor update
stiffer-accepted = refl

no_less : (v : ℕ) → ltb v v ≡ false
no_less v = ground arith

left_of_max : (v x y : ℕ) → ltb v x ≡ true → ltb v (max x y) ≡ true
left_of_max v x y h = ground arith

right_of_max : (v x y : ℕ) → ltb v y ≡ true → ltb v (max x y) ≡ true
right_of_max v x y h = ground arith

-- What holds of every row of the table
every_row :
    (P : FieldBound whole → Type 0) (w : ℕ)
    → P (bound whole 0 1200)
    → P (bound whole 0 60)
    → P (bound whole 0 40)
    → P (non_zero whole (bound whole 50 3000))
    → P (non_zero whole (bound whole 0 1))
    → P (bound whole 0 20)
    → P (bound whole 0 1)
    → P (bound whole 1 1000)
    → P (bound whole 1 800)
    → P (bound whole 0 2)
    → P (bound whole 0 30)
    → P (bounds whole w)
unfolding bounds
every_row P w a b c d e f g h i j k =
    if_intro P (ltb w 7) (λ x. a)
      (λ x.
        if_intro P (ltb w 11) (λ x. b)
          (λ x.
            if_intro P (ltb w 14) (λ x. c)
              (λ x.
                if_intro P (w == 14) (λ x. d)
                  (λ x.
                    if_intro P (w == 15) (λ x. e)
                      (λ x.
                        if_intro P (w == 16) (λ x. f)
                          (λ x.
                            if_intro P (w == 17) (λ x. g)
                              (λ x.
                                if_intro P (w == 18) (λ x. h)
                                  (λ x.
                                    if_intro P (w == 19) (λ x. g)
                                      (λ x.
                                        if_intro P (w == 20) (λ x. f)
                                          (λ x.
                                            if_intro P (w == 21) (λ x. i)
                                              (λ x.
                                                if_intro P (w == 22) (λ x. j)
                                                  (λ x.
                                                    if_intro P (w == 23) (λ x. k)
                                                      (λ x. i)))))))))))))

rows_in_order : (w : ℕ) → ltb (bounds whole w).max (bounds whole w).min ≡ false
unfolding bound non_zero
rows_in_order w =
    every_row (λ b. ltb b.max b.min ≡ false) w refl refl refl refl refl refl refl refl refl refl
      refl

floors_in_order :
    (words : Array ℕ) (j : ℕ) → ltb (bounds whole (7 + j)).max (damping_low whole words j) ≡ false
unfolding damping_low joint_damping_floor bound non_zero
floors_in_order words j =
    let x : ℕ = clamp whole (bounds whole j).min (some (bounds whole j).max) (words j) in
    let z : 0 ≡ 0 * x = omega arith in
    subst (λ y. ltb (bounds whole (7 + j)).max (max y (bounds whole (7 + j)).min) ≡ false) z
      (every_row (λ b. ltb b.max (max 0 b.min) ≡ false) (7 + j) refl refl refl refl refl refl refl
        refl refl refl refl)

abbrev calmed : LiveTuning whole
calmed = from_words whole clamped_words

-- A word within its row, and the damping that a stiffness asks for
abbrev Row : ℕ → Type 0
Row w =
    (ltb (to_words whole calmed w) (bounds whole w).min ≡ false)
    × (ltb (bounds whole w).max (to_words whole calmed w) ≡ false)

abbrev floor_of : ℕ → ℕ → ℕ
floor_of j x =
    joint_damping_floor whole (clamp whole (bounds whole j).min (some (bounds whole j).max) x)

apply_update-bounded_example :
    ((w : ℕ)
      → w < 25
      → carried whole stiffer w ≡ true
      → Sound whole w (to_words whole (overlay whole stiffer calm) w)
        × Finite whole (to_words whole calmed w)
        × Row w)
    × ((w : ℕ)
        → w < 25
        → Finite whole (to_words whole calm w)
        → Finite whole (to_words whole calmed w))
    × ((j : ℕ)
        → j < 7
        → (carried whole stiffer j || carried whole stiffer (7 + j)) ≡ true
        → ltb (to_words whole calmed (7 + j)) (floor_of j (to_words whole calmed j)) ≡ false)
apply_update-bounded_example =
    apply_update-bounded whole same (λ v. refl) stiffer no_less left_of_max right_of_max
      (λ w l. rows_in_order w) (λ words j l. floors_in_order words j) (λ w l. (refl, refl))
      (λ words j l. refl) calm calmed (14 ∷ []) stiffer-accepted

apply_update-partial_example : to_words whole calmed 3 ≡ to_words whole calm 3
unfolding carried
apply_update-partial_example =
    apply_update-partial whole same (λ v. refl) stiffer calm calmed (14 ∷ []) 3 stiffer-accepted
      (omega arith) refl (λ j l e. absurd (omega (arith, e)))

-- A running loop with a target and a tuning published
abbrev under_way : Shared ℕ
under_way = record {
  slot = record { sequence = 2; values = λ i. 40 };
  tuning = record { sequence = 2; values = to_words whole calm };
  stop = false;
  running = true;
  state = 0;
}

abbrev one_up : Array ℕ → Array ℕ
one_up t i = t i + 1

modify_target-Modified_example :
    Modified whole same 3 ℕ one_up under_way (modify_target whole same 3 one_up under_way)
modify_target-Modified_example =
    modify_target-Modified whole same 3 ℕ one_up under_way refl (omega arith) (λ v. refl)

tune-Tuned_example : Tuned whole same 3 ℕ stiffer under_way (tune whole same 3 stiffer under_way)
tune-Tuned_example = tune-Tuned whole same 3 ℕ stiffer under_way refl (omega arith) (λ v. refl)

abbrev arm_limits : JointTargetControl whole
arm_limits = record { lower = λ i. 0; upper = λ i. 100; inset = 2 }

set_joints-Accepted_example :
    Accepted whole arm_limits
      (λ i. 50)
      under_way
      (set_joints whole same arm_limits (λ i. 50) under_way)
set_joints-Accepted_example = set_joints-Accepted whole same arm_limits (λ i. 50) under_way

-- Every word of a tuning the same, and published so
abbrev level : LoopTuning whole same
level = record {
  sequence = 2;
  target = from_words whole (λ w. 9);
  current = from_words whole (λ w. 5);
  gains = record { gain = λ w. 1; dt = 1 };
}

abbrev level_slot : TargetSlot
level_slot = record { sequence = 4; values = λ w. 5 }

one_of_two : (x y : ℕ) → (max x y ≡ x) ⊎ (max x y ≡ y)
one_of_two x y = ground arith

level_descends :
    (w rate : ℕ)
    → to_words whole level.current w - to_words whole level.current rate * 1
      ≢ to_words whole level.current w
level_descends w rate e =
    let a : to_words whole level.current w ≡ 5 = to_words-from_words whole (λ w. 5) w in
    let c : to_words whole level.current rate ≡ 5 = to_words-from_words whole (λ w. 5) rate in
    omega (arith, a, c, e)

nothing_moves : (tuning_cycle whole same (λ k. level_slot) level).1 ≡ false
unfolding tuning_cycle take_targets adopt_targets slew_toward slew_words slewed goal_of rate_word
    policy load read_steps read_step begin_read result_of next_try update words_count to_words
    from_words
nothing_moves = refl

tuning_cycle-settled_example :
    ((tuning_cycle whole same (λ k. level_slot) level).0.current ≡ level.current)
    × ((w : ℕ)
        → w < 25
        → to_words whole level.current w
          ≡ to_words whole (tuning_cycle whole same (λ k. level_slot) level).0.target w)
tuning_cycle-settled_example =
    tuning_cycle-settled whole same (λ v. refl) (λ k. level_slot) level one_of_two
      (λ w rate h. level_descends w rate) nothing_moves
