-- ===== src/Runtime/Coherence.antt =====
-- Whole runs of the configuration service: the controllers agree on the limits of the settings.
use spcd_actuator.Prelude.{◌≡◌, false, Option, none, some, List, [], ◌∷◌}
use spcd_actuator.Floats.{Floats}
use spcd_actuator.Runtime.{Config, accept_resistance, accept_inductance}
use spcd_actuator.Runtime.Apply.{limited}
use spcd_actuator.Runtime.Service.{
  Readings, State, apply, reload, take_ke, fill_defaults, initialize, save, load_if, load,
  restore_defaults, accept_resistance_calibration, accept_inductance_calibration,
  accept_bemf_calibration, put_config, end_resistance, end_inductance, end_bemf, sample_bus,
}
use spcd_actuator.Runtime.Agreement.{
  IsCoherent, hand_out-IsCoherent, refit-IsCoherent, apply_resistance-IsCoherent,
  apply_inductance-IsCoherent, apply_bemf-IsCoherent, sample_bus-IsCoherent,
}

-- The operations after `Initialize`: those of the service, the ends of the calibration sessions that it
-- accepts, and the bus voltage of the telemetry.
pub data Operation (fl : Floats) : Type 0 where
  do_save do_load do_restore do_resistance do_inductance do_bemf : Readings fl → Operation fl
  do_put : Config fl → Readings fl → Operation fl
  do_bus : fl.F → Operation fl

unfoldable pub operate : (fl : Floats) → Operation fl → State fl → State fl
operate fl (do_save r) s = (save fl r s).0
operate fl (do_load r) s = (load fl r s).0
operate fl (do_restore r) s = restore_defaults fl r s
operate fl (do_resistance r) s = end_resistance fl r s
operate fl (do_inductance r) s = end_inductance fl r s
operate fl (do_bemf r) s = end_bemf fl r s
operate fl (do_put c r) s = put_config fl c r s
operate fl (do_bus v) s = sample_bus fl v s

unfoldable pub run : (fl : Floats) → List (Operation fl) → State fl → State fl
run fl [] s = s
run fl (o ∷ os) s = run fl os (operate fl o s)

module _ (fl : Floats) (irreflexive : (x : fl.F) → fl.lt x x ≡ false) where
  apply-IsCoherent :
      (r : Readings fl) (s : State fl)
      → IsCoherent fl (apply fl r s).config.motor (apply fl r s).controllers
  unfolding apply
  apply-IsCoherent r s =
      hand_out-IsCoherent fl irreflexive (limited fl s.config) r.sensor s.controllers

  load_if-IsCoherent :
      (o : Option (Config fl)) (r : Readings fl) (s : State fl)
      → IsCoherent fl s.config.motor s.controllers
      → IsCoherent fl (load_if fl o r s).0.config.motor (load_if fl o r s).0.controllers
  unfolding load_if reload
  load_if-IsCoherent none r s h = h
  load_if-IsCoherent (some c) r s h = apply-IsCoherent r _

  operate-IsCoherent :
      (o : Operation fl) (s : State fl)
      → IsCoherent fl s.config.motor s.controllers
      → IsCoherent fl (operate fl o s).config.motor (operate fl o s).controllers
  unfolding operate save load restore_defaults reload fill_defaults put_config
      accept_resistance_calibration accept_inductance_calibration accept_bemf_calibration
      accept_resistance accept_inductance take_ke end_resistance end_inductance end_bemf
  operate-IsCoherent (do_save r) s h = h
  operate-IsCoherent (do_load r) s h = load_if-IsCoherent r.stored r s h
  operate-IsCoherent (do_restore r) s h = apply-IsCoherent r _
  operate-IsCoherent (do_resistance r) s h =
      refit-IsCoherent fl s.config.motor _ _ _ _ (apply_resistance-IsCoherent fl _ _ _ _ h)
  operate-IsCoherent (do_inductance r) s h =
      refit-IsCoherent fl s.config.motor _ _ _ _ (apply_inductance-IsCoherent fl _ _ _ _ _ h)
  operate-IsCoherent (do_bemf r) s h =
      refit-IsCoherent fl s.config.motor _ _ _ _ (apply_bemf-IsCoherent fl _ _ _ _ h)
  operate-IsCoherent (do_put c r) s h = apply-IsCoherent r _
  operate-IsCoherent (do_bus v) s h = sample_bus-IsCoherent fl v s h

  run_keeps :
      (os : List (Operation fl)) (s : State fl)
      → IsCoherent fl s.config.motor s.controllers
      → IsCoherent fl (run fl os s).config.motor (run fl os s).controllers
  unfolding run
  run_keeps [] s h = h
  run_keeps (o ∷ os) s h = run_keeps os (operate fl o s) (operate-IsCoherent o s h)

  -- From `Initialize` on, where a float is not less than itself, in every run of saves, loads, restored
  -- defaults, new settings, ends of the resistance, inductance and back-EMF sessions (each applied to
  -- the controllers and then accepted into the settings) and measured bus voltages, whatever is
  -- stored, set or measured: the current controller and the protection have the motor's greatest
  -- current, both modes one current that is not above it, each mode the torque of that current by its
  -- own torque constant, both modulators one bus voltage, the PLL the motor's pole pairs, the servo
  -- mode its speed, and the phase lead is for the filter that the sensor was set to.
  pub run-IsCoherent :
      (r : Readings fl) (os : List (Operation fl)) (s : State fl)
      → IsCoherent fl
          (run fl os (initialize fl r s)).config.motor
          (run fl os (initialize fl r s)).controllers
  unfolding initialize reload
  run-IsCoherent r os s = run_keeps os _ (apply-IsCoherent r _)
