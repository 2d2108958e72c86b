-- ===== src/Runtime/Agreement.antt =====
-- What the controllers agree on, and that the ends of the calibration sessions and the measured bus
-- voltage keep it.
use spcd_actuator.Prelude.{◌≡◌, refl, ◌∙◌, ℕ, Bool, true, false, if_cases, List, ◌∷◌}
use spcd_actuator.Floats.{Floats}
use spcd_actuator.Control.Foc.Controller
use spcd_actuator.Control.Foc.Controller.{Foc, set_resistance_inductance}
use spcd_actuator.Encoder.Service.{SensorCall, set_filter_us}
use spcd_actuator.Runtime.{Motor, Config, accept_resistance, accept_inductance}
use spcd_actuator.Runtime.Defaults.{capped_current}
use spcd_actuator.Runtime.Apply.{
  Controllers, limited, filter_window, phase_lead, protection_config, apply_foc, servo_options,
  mit_options, hand_out,
}
use spcd_actuator.Runtime.Service.{
  State, apply_resistance, apply_inductance, apply_bemf, sample_bus,
}

module _ (fl : Floats) where
  -- The sensor's filter was last set to the window that the phase lead of the current controller is for.
  pub record IsLed (k : Controllers fl) : Type 0 where
    pub window : ℕ
    pub before : List SensorCall
    pub last_set : k.encoder.calls ≡ set_filter_us window ∷ before
    pub lead : k.foc.options.phase_lead_s ≡ phase_lead fl window

  -- The controllers agree with the settings of the motor: the current controller and the protection
  -- have its greatest current, both modes one current that is not above it and each the torque of
  -- that current by its own torque constant, both modulators one bus voltage, the PLL the pole pairs of
  -- the motor, and the servo mode its speed.
  pub record IsCoherent (m : Motor fl) (k : Controllers fl) : Type 0 where
    pub foc_current : k.foc.options.max_current_A ≡ m.max_phase_current_A
    pub rated : k.protection.i2t_rated_A ≡ m.max_phase_current_A
    pub trip : k.protection.overcurrent_A ≡ fl.mul m.max_phase_current_A (fl.lit 12 1)
    pub mode_current : k.servo.options.max_iq_A ≡ k.mit.options.max_iq_A
    pub capped : fl.lt m.max_phase_current_A k.servo.options.max_iq_A ≡ false
    pub servo_torque :
        k.servo.options.max_torque_Nm
        ≡ fl.mul k.servo.options.torque_constant_Nm_A k.servo.options.max_iq_A
    pub mit_torque :
        k.mit.options.max_torque_Nm
        ≡ fl.mul k.mit.options.torque_constant_Nm_A k.mit.options.max_iq_A
    pub one_bus : k.foc.options.bus_V ≡ k.modulator.options.bus_V
    pub poles : k.encoder.pll.options.pole_pairs ≡ m.pole_pairs
    pub speed : k.servo.options.max_velocity_cmd_rad_s ≡ m.fw_speed_rad_s
    pub led : IsLed k

  -- What the windings of the current controller leave.
  abbrev pub Keeps : Foc fl → Foc fl → Type 0
  Keeps f g =
      (g.options.max_current_A ≡ f.options.max_current_A)
      × (g.options.bus_V ≡ f.options.bus_V)
      × (g.options.phase_lead_s ≡ f.options.phase_lead_s)

  pub keep_bandwidth_if-Keeps :
      (b : Bool) (w r ld lq : fl.F) (f : Foc fl)
      → Keeps f (spcd_actuator.Control.Foc.Controller.keep_bandwidth_if fl b w r ld lq f)
  unfolding spcd_actuator.Control.Foc.Controller.keep_bandwidth_if
      spcd_actuator.Control.Foc.Controller.sync_pi_config
  keep_bandwidth_if-Keeps true w r ld lq f = (refl, refl, refl)
  keep_bandwidth_if-Keeps false w r ld lq f = (refl, refl, refl)

  pub apply_foc-limits :
      (c : Config fl) (f : Foc fl)
      → ((apply_foc fl c f).options.max_current_A ≡ c.motor.max_phase_current_A)
        × ((apply_foc fl c f).options.bus_V ≡ c.motor.bus_V)
        × ((apply_foc fl c f).options.phase_lead_s ≡ phase_lead fl (filter_window fl c))
  unfolding apply_foc spcd_actuator.Control.Foc.Controller.set_bandwidth_hz
      spcd_actuator.Control.Foc.Controller.sync_pi_config
      spcd_actuator.Control.Foc.Controller.set_v_per_hz
      spcd_actuator.Control.Foc.Controller.set_resistance_inductance
      spcd_actuator.Control.Foc.Controller.set_phase_lead
      spcd_actuator.Control.Foc.Controller.set_max_current_desired_rate
      spcd_actuator.Control.Foc.Controller.set_feedforwards
      spcd_actuator.Control.Foc.Controller.set_max_current
      spcd_actuator.Control.Foc.Controller.set_bus_voltage
  apply_foc-limits c f = keep_bandwidth_if-Keeps _ _ _ _ _ _

module _ (fl : Floats) where
  -- The windings and the back-EMF of the settings are none of the limits.
  pub refit-IsCoherent :
      (m : Motor fl) (r l e : fl.F) (k : Controllers fl)
      → IsCoherent fl m k
      → IsCoherent fl (record m { resistance_ohm = r; inductance_H = l; bemf_Vpeak_per_krpm = e }) k
  refit-IsCoherent m r l e k h = record {
    foc_current = h.foc_current;
    rated = h.rated;
    trip = h.trip;
    mode_current = h.mode_current;
    capped = h.capped;
    servo_torque = h.servo_torque;
    mit_torque = h.mit_torque;
    one_bus = h.one_bus;
    poles = h.poles;
    speed = h.speed;
    led = h.led;
  }

  -- A current controller that keeps its limits in place of the one before.
  exchange-IsCoherent :
      (m : Motor fl) (f : Foc fl) (k : Controllers fl)
      → Keeps fl k.foc f
      → IsCoherent fl m k
      → IsCoherent fl m (record k { foc = f })
  exchange-IsCoherent m f k (c, b, l) h = record {
    foc_current = c ∙ h.foc_current;
    rated = h.rated;
    trip = h.trip;
    mode_current = h.mode_current;
    capped = h.capped;
    servo_torque = h.servo_torque;
    mit_torque = h.mit_torque;
    one_bus = b ∙ h.one_bus;
    poles = h.poles;
    speed = h.speed;
    led =
        let g = h.led in
        record { window = g.window; before = g.before; last_set = g.last_set; lead = l ∙ g.lead };
  }

  set_resistance_inductance-Keeps :
      (r ld lq : fl.F) (f : Foc fl) → Keeps fl f (set_resistance_inductance fl r ld lq f)
  unfolding spcd_actuator.Control.Foc.Controller.set_resistance_inductance
  set_resistance_inductance-Keeps r ld lq f = keep_bandwidth_if-Keeps fl _ _ r ld lq _

  pub apply_resistance-IsCoherent :
      (b : Bool) (x : fl.F) (m : Motor fl) (k : Controllers fl)
      → IsCoherent fl m k
      → IsCoherent fl m (apply_resistance fl b x k)
  unfolding apply_resistance
  apply_resistance-IsCoherent true x m k h =
      exchange-IsCoherent m _ k (set_resistance_inductance-Keeps x _ _ k.foc) h
  apply_resistance-IsCoherent false x m k h = h

  pub apply_inductance-IsCoherent :
      (b : Bool) (x y : fl.F) (m : Motor fl) (k : Controllers fl)
      → IsCoherent fl m k
      → IsCoherent fl m (apply_inductance fl b x y k)
  unfolding apply_inductance
  apply_inductance-IsCoherent true x y m k h =
      exchange-IsCoherent m _ k (set_resistance_inductance-Keeps _ x y k.foc) h
  apply_inductance-IsCoherent false x y m k h = h

  pub apply_bemf-IsCoherent :
      (b : Bool) (ke : fl.F) (m : Motor fl) (k : Controllers fl)
      → IsCoherent fl m k
      → IsCoherent fl m (apply_bemf fl b ke k)
  unfolding apply_bemf spcd_actuator.Control.Foc.Controller.set_v_per_hz
      spcd_actuator.Control.Servo.set_torque_constant
  apply_bemf-IsCoherent true ke m k h = record {
    foc_current = h.foc_current;
    rated = h.rated;
    trip = h.trip;
    mode_current = h.mode_current;
    capped = h.capped;
    servo_torque = refl;
    mit_torque = h.mit_torque;
    one_bus = h.one_bus;
    poles = h.poles;
    speed = h.speed;
    led =
        let g = h.led in
        record { window = g.window; before = g.before; last_set = g.last_set; lead = g.lead };
  }
  apply_bemf-IsCoherent false ke m k h = h

  pub sample_bus-IsCoherent :
      (v : fl.F) (s : State fl)
      → IsCoherent fl s.config.motor s.controllers
      → IsCoherent fl (sample_bus fl v s).config.motor (sample_bus fl v s).controllers
  unfolding sample_bus spcd_actuator.Control.Foc.Controller.set_bus_voltage
      spcd_actuator.Control.Foc.Modulator.set_bus_voltage
  sample_bus-IsCoherent v s h = record {
    foc_current = h.foc_current;
    rated = h.rated;
    trip = h.trip;
    mode_current = h.mode_current;
    capped = h.capped;
    servo_torque = h.servo_torque;
    mit_torque = h.mit_torque;
    one_bus = refl;
    poles = h.poles;
    speed = h.speed;
    led =
        let g = h.led in
        record { window = g.window; before = g.before; last_set = g.last_set; lead = g.lead };
  }

module _ (fl : Floats) (irreflexive : (x : fl.F) → fl.lt x x ≡ false) where
  capped : (top x : fl.F) → fl.lt top (capped_current fl top x) ≡ false
  unfolding capped_current
  capped top x =
      if_cases (λ i. fl.lt top i ≡ false) (fl.lt top x) top x (λ e. irreflexive top) (λ e. e)

  pub hand_out-IsCoherent :
      (c : Config fl) (r : spcd_actuator.Encoder.Service.Answers) (k : Controllers fl)
      → IsCoherent fl c.motor (hand_out fl c r k)
  unfolding hand_out protection_config servo_options mit_options
      spcd_actuator.Runtime.Apply.pll_options spcd_actuator.Encoder.Service.set_pll_options
      spcd_actuator.Encoder.Service.set_sensor_filter_us spcd_actuator.Encoder.Pll.set_options
      spcd_actuator.Encoder.Pll.recompute_gains spcd_actuator.Control.Servo.set_options
      spcd_actuator.Control.Mit.set_options spcd_actuator.Control.Foc.Modulator.set_bus_voltage
  hand_out-IsCoherent c r k =
      let f = apply_foc-limits fl c k.foc in
      record {
        foc_current = f.0;
        rated = refl;
        trip = refl;
        mode_current = refl;
        capped = capped c.motor.max_phase_current_A c.servo.max_iq_A;
        servo_torque = refl;
        mit_torque = refl;
        one_bus = f.1;
        poles = refl;
        speed = refl;
        led = record {
          window = filter_window fl c;
          before = k.encoder.calls;
          last_set = refl;
          lead = f.2;
        };
      }
