-- ===== src/Control/Foc/Tests.antt =====
-- The current controller at concrete currents, in thousandths.
use spcd_actuator.Prelude.{refl, false, List, [], ◌∷◌, some, none}
use spcd_actuator.Floats.Milli.{milli, thousandths, lt_milli_irreflexive}
use spcd_actuator.Control.Pid.{clear}
use spcd_actuator.Control.Foc.Controller.{Options, Foc, max_voltage}
use spcd_actuator.Control.Foc.Bounds.{
  Operation, do_start, do_set_refs, do_step, run, IsBounded, run-IsBounded,
}

abbrev options : Options milli
options = record {
  bus_V = thousandths 48000;
  min_duty = thousandths 50;
  max_duty = thousandths 950;
  kp_d = thousandths 350;
  ki_d = thousandths 225000;
  kp_q = thousandths 350;
  ki_q = thousandths 225000;
  max_current_A = thousandths 4900;
  max_current_desired_rate_A_s = thousandths 0;
  resistance_ohm = thousandths 650;
  inductance_d_H = thousandths 1;
  inductance_q_H = thousandths 1;
  v_per_hz = thousandths 0;
  current_feedforward = thousandths 1000;
  cross_coupling_feedforward = thousandths 1000;
  bemf_feedforward = thousandths 1000;
  phase_lead_s = thousandths 0;
}

abbrev pub rest : Foc milli
rest = record {
  options = options;
  config_d = record {
    kp = thousandths 350;
    ki = thousandths 225000;
    max_desired_rate = thousandths 0;
  };
  config_q = record {
    kp = thousandths 350;
    ki = thousandths 225000;
    max_desired_rate = thousandths 0;
  };
  pi_d = clear milli;
  pi_q = clear milli;
  active = false;
  theta = thousandths 0;
  theta_rate = thousandths 0;
  omega_elec = thousandths 0;
  omega_rotor = thousandths 0;
  id_ref = thousandths 0;
  iq_ref = thousandths 0;
  id_A = thousandths 0;
  iq_A = thousandths 0;
  vd_V = thousandths 0;
  vq_V = thousandths 0;
}

-- A reference above the greatest current, and currents far from it.
abbrev session : List (Operation milli)
session =
    do_start (record {
      theta_rad = thousandths 0;
      id_A = thousandths 0;
      iq_A = thousandths 20000;
      theta_rate_rad_s = thousandths 0;
    })
    ∷ do_step (thousandths 1000) (some (thousandths 1000)) (thousandths 0) (thousandths 100)
        (thousandths 200)
    ∷ do_set_refs (thousandths 3000) (thousandths 50000)
    ∷ do_step (thousandths 1000) none (thousandths 0) (thousandths 100) (thousandths 200)
    ∷ []

run-IsBounded_example : IsBounded milli options (run milli session rest)
unfolding max_voltage clear
run-IsBounded_example =
    run-IsBounded milli lt_milli_irreflexive options refl refl (refl, refl) session rest
      (record {
        same = refl;
        id_bound = (refl, refl);
        iq_bound = (refl, refl);
        d_bound = (refl, refl);
        q_bound = (refl, refl);
      })
