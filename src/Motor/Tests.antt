-- ===== src/Motor/Tests.antt =====
-- The theorems on the motor control service at concrete states.
use spcd_actuator.Prelude.{◌≡◌, refl, true, false, List, [], ◌∷◌, arith}
use spcd_actuator.Floats.{whole}
use spcd_actuator.Snapshot.{Service, idle}
use spcd_actuator.Link.Commands.{default_servo, default_calibration, resistance}
use spcd_actuator.Protection.Monitor.{
  Config, Monitor, nothing, evaluate, is_over, largest, magnitude,
}
use spcd_actuator.Motor.Parts.{
  servo, power_off, pwm_stop, restore_calibration, disable_isr, set_bus_voltage, Motor, Readings,
}
use spcd_actuator.Motor.Isr.{step_isr, control_active, control_dt, protection_input}
use spcd_actuator.Motor.Moves.{off, driving}
use spcd_actuator.Motor.IsrMoves.{is_off, is_servo}
use spcd_actuator.Motor.Runs.{
  Operation, start_servo, start_session, interrupt, run, Consistent, run-Consistent,
}
use spcd_actuator.Motor.Guard.{trip_stops, interrupts, overcurrent_stops}

abbrev limits : Config whole
limits = record {
  overcurrent_A = 20;
  overcurrent_count = 3;
  i2t_rated_A = 10;
  i2t_tau_s = 2;
  bus_min_V = 8;
  bus_max_V = 54;
  fet_fault_C = 100;
}

abbrev fresh : Monitor whole
fresh = record { overcurrent_count = 0; i2t_energy_A2s = 0; last_trip = nothing }

abbrev quiet : Service
quiet = record {
  state = idle;
  sequence = 0;
  target = 0;
  count = 0;
  send_index = 0;
  decimate = 1;
  decimation_count = 0;
  nominal_sample_hz = 0;
  dt_total_us = 0;
  duration_us = 0;
  samples = [];
}

-- A motor whose snapshot is empty and whose switches are off.
abbrev motor : Motor whole
motor = record {
  on = off;
  dq_valid = false;
  id_A = 0;
  iq_A = 0;
  last_current = record { ok = false; i1_A = 0; i2_A = 0; i3_A = 0 };
  last_control_us = 0;
  safety = fresh;
  protection = limits;
  measured_bus_V = 0;
  fet_temp_C = 0;
  fet_temp_ok = false;
  snapshot = quiet;
  calls = [];
}

abbrev running : Motor whole
running = record motor { on = record (driving servo) { servo_active = true } }

-- All parts answer that they work, with the current of the second phase over its limit.
abbrev answers : Readings whole
answers = record {
  pwm_init_ok = true;
  period_s = 25;
  now_us = 40;
  sample = record { ok = true; i1_A = 0; i2_A = 30; i3_A = 0 };
  bus_ok = true;
  bus_V = 24;
  fet_ok = true;
  fet_temp_C = 40;
  encoder_valid = true;
  theta_valid = true;
  position_before_rad = 0;
  position_rad = 0;
  mechanical_rad = 0;
  electrical_rad = 0;
  electrical_theta = 0;
  velocity_mech = 0;
  omega_elec = 0;
  cogging_A = 0;
  foc_ok = true;
  foc_id_A = 0;
  foc_iq_A = 1;
  foc_iq_ref_A = 1;
  foc_resistance_ohm = 1;
  modulator_ok = true;
  observed_d_A = 0;
  observed_q_A = 0;
  duty_a = 500;
  duty_b = 400;
  duty_c = 600;
  servo_iq_A = 1;
  servo_id_ref_A = 0;
  servo_faulted = false;
  mit_iq_A = 0;
  session_velocity = 0;
  session_current_A = 0;
  session_d_V = 0;
  session_q_V = 0;
  session_finished = false;
  session_done = false;
}

-- A servo is started, a resistance is measured in its place, and the interrupt comes.
abbrev operations : List (Operation whole × Readings whole)
operations =
    (start_servo (default_servo whole), answers)
    ∷ (interrupt, answers)
    ∷ (start_session (record (default_calibration whole) { kind = resistance }), answers)
    ∷ (interrupt, answers)
    ∷ []

run-Consistent_example : Consistent (run operations motor).on
run-Consistent_example = run-Consistent operations motor is_off

overcurrent_stops_example :
    (run (interrupts (answers ∷ answers ∷ answers ∷ [])) running).on.powered ≡ false
unfolding is_over largest magnitude protection_input
overcurrent_stops_example =
    overcurrent_stops answers (answers ∷ answers ∷ []) running is_servo
      ((refl, refl), ((refl, refl), ((refl, refl), tt))) (omega arith) (omega arith)

-- The count of currents over the limit is one below the configured number.
abbrev strained : Motor whole
strained = record running { safety = record fresh { overcurrent_count = 2 } }

trip_stops_example :
    ((step_isr answers strained).on ≡ off)
    × ((step_isr answers strained).calls
        ≡ power_off ∷ pwm_stop ∷ restore_calibration ∷ disable_isr ∷ set_bus_voltage 24 ∷ [])
unfolding control_active control_dt protection_input evaluate is_over largest magnitude
trip_stops_example = trip_stops answers strained refl cc
