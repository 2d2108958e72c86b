-- ===== src/Control/Servo/Tests.antt =====
-- The servo mode on concrete commands, in thousandths.
use spcd_actuator.Prelude.{◌≡◌, inr, refl, false, ◌&&◌, List, [], ◌∷◌}
use spcd_actuator.Floats.Milli.{milli, nan, thousandths, lt_milli_irreflexive}
use spcd_actuator.Link.Commands.{ServoCommand, default_servo}
use spcd_actuator.Control.Pid
use spcd_actuator.Control.Pid.{clear}
use spcd_actuator.Control.Servo.{
  Options, Servo, start, set_torque_constant, set_velocity, normalize,
}
use spcd_actuator.Control.Servo.Trajectory.{is_armed, is_past}
use spcd_actuator.Control.Servo.Step.{step, max_torque}
use spcd_actuator.Control.Servo.Stop.{step-past}
use spcd_actuator.Control.Servo.Limits.{
  Operation, run, operate, IsStepped, run-IsLimited, do_start, do_set_velocity,
  do_set_torque_constant,
}

abbrev gains : spcd_actuator.Control.Pid.Config milli
gains = record {
  kp = thousandths 8000;
  ki = thousandths 0;
  kd = thousandths 500;
  iratelimit = thousandths 0;
  ilimit = thousandths 0;
  max_desired_rate = thousandths 0;
  sign = thousandths 1000;
}

abbrev options : Options milli
options = record {
  pid = gains;
  max_torque_Nm = thousandths 1000;
  torque_constant_Nm_A = thousandths 100;
  max_iq_A = thousandths 2000;
  default_velocity_limit_rad_s = nan;
  default_accel_limit_rad_s2 = nan;
  max_velocity_cmd_rad_s = thousandths 100000;
  velocity_threshold = thousandths 0;
  max_position_slip_rad = thousandths 0;
  max_velocity_error_rad_s = thousandths 0;
  velocity_zero_capture_threshold = thousandths 10;
}

abbrev pub rest : Servo milli
rest = record {
  options = options;
  command = default_servo milli;
  pid = clear milli;
  active = false;
  faulted = false;
  done = false;
  velocity_hz = nan;
  position_turns = nan;
  accel_hz_s = thousandths 0;
  iq_ref = thousandths 0;
  torque_Nm = thousandths 0;
}

-- Forward at 20 rad/s with 50 rad/s², to a stop at 3 rad.
abbrev forward : ServoCommand milli
forward = record (default_servo milli) {
  velocity_rad_s = thousandths 20000;
  accel_limit_rad_s2 = thousandths 50000;
  stop_position_rad = thousandths 3000;
}

-- The control reaches the stop position within the step.
abbrev moving : Servo milli
moving = record (start milli forward rest) {
  position_turns = thousandths 450;
  velocity_hz = thousandths 3000;
}

abbrev stepped : Servo milli
stepped = (step milli (thousandths 100) (thousandths 2800) (thousandths 20000) moving).0

step-past_example : (is_armed milli stepped && is_past milli stepped) ≡ false
unfolding start
step-past_example =
    step-past milli lt_milli_irreflexive (thousandths 100) (thousandths 2800) (thousandths 20000)
      moving refl refl

abbrev session : List (Operation milli)
session =
    do_start forward
    ∷ do_set_torque_constant (thousandths 200)
    ∷ do_set_velocity (thousandths 5000)
    ∷ []

run-IsLimited_example :
    ((run milli session rest).faulted ≡ false)
    × IsStepped milli lt_milli_irreflexive
        (step milli
          (thousandths 100)
          (thousandths 2800)
          (thousandths 20000)
          (run milli session rest)).0
unfolding run operate start set_torque_constant set_velocity max_torque normalize
run-IsLimited_example =
    run-IsLimited milli lt_milli_irreflexive session rest (thousandths 100) (thousandths 2800)
      (thousandths 20000) (record { sound = refl; still = inr (refl, refl, refl) }) refl refl
