-- ===== src/Runtime/Tests.antt =====
-- The configuration service on the board's defaults, in thousandths.
use spcd_actuator.Prelude.{true, false, none, List, [], ◌∷◌, replicate}
use spcd_actuator.Floats.Milli.{milli, thousandths, lt_milli_irreflexive}
use spcd_actuator.Calibration.Encoder.{raw_angle}
use spcd_actuator.Control.Servo.Tests.{rest as servo_rest}
use spcd_actuator.Control.Foc.Tests.{rest as foc_rest}
use spcd_actuator.Encoder.Tests.{answers, built as encoder_built}
use spcd_actuator.Runtime.Apply.{Controllers, defaults}
use spcd_actuator.Runtime.Service.{Readings, State, initialize}
use spcd_actuator.Runtime.Agreement.{IsCoherent}
use spcd_actuator.Runtime.Coherence.{
  Operation, do_put, do_save, do_bemf, do_bus, run, run-IsCoherent,
}

abbrev controllers : Controllers milli
controllers = record {
  encoder = encoder_built;
  modulator = record {
    options = record {
      bus_V = thousandths 24000;
      min_duty = thousandths 50;
      max_duty = thousandths 950;
    };
    active = false;
    theta = thousandths 0;
    voltage = thousandths 0;
    q_voltage = thousandths 0;
    theta_rate = thousandths 0;
  };
  protection = record {
    overcurrent_A = thousandths 0;
    overcurrent_count = 5;
    i2t_rated_A = thousandths 0;
    i2t_tau_s = thousandths 2000;
    bus_min_V = thousandths 8000;
    bus_max_V = thousandths 54000;
    fet_fault_C = thousandths 100000;
  };
  foc = foc_rest;
  servo = servo_rest;
  mit = record {
    options = record {
      max_torque_Nm = thousandths 1000;
      torque_constant_Nm_A = thousandths 100;
      max_iq_A = thousandths 3000;
    };
    command = record {
      position_rad = thousandths 0;
      velocity_rad_s = thousandths 0;
      kp_nm_per_rad = thousandths 0;
      kd_nm_s_per_rad = thousandths 0;
      feedforward_Nm = thousandths 0;
      max_torque_Nm = thousandths 0;
    };
    iq_ref = thousandths 0;
    torque_Nm = thousandths 0;
    active = false;
  };
}

abbrev built : State milli
built = record {
  config = defaults milli;
  flash_valid = false;
  controllers = controllers;
  calls = [];
}

-- A flash without a record, and a measured back-EMF.
abbrev readings : Readings milli
readings = record {
  stored = none;
  saved = true;
  calibration = none;
  results = record {
    encoder_ok = false;
    angle = raw_angle milli;
    residual_rad_rms = thousandths 0;
    bemf_ok = true;
    ke_v_s_per_rad = thousandths 60;
    resistance_ok = false;
    resistance_ohm = thousandths 0;
    inductance_ok = false;
    inductance_d_H = thousandths 0;
    inductance_q_H = thousandths 0;
    cogging_ok = false;
    cogging_table = replicate 1024 0;
    cogging_scale = thousandths 0;
  };
  sensor = answers;
}

abbrev session : List (Operation milli)
session =
    do_bemf readings
    ∷ do_bus (thousandths 23500)
    ∷ do_put (defaults milli) readings
    ∷ do_save readings
    ∷ []

run-IsCoherent_example :
    IsCoherent milli
      (run milli session (initialize milli readings built)).config.motor
      (run milli session (initialize milli readings built)).controllers
run-IsCoherent_example = run-IsCoherent milli lt_milli_irreflexive readings session built
