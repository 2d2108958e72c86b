-- ===== src/Protection/Monitor.antt =====
-- fw/math/inc/math/protection/safety_monitor.h: `SafetyMonitor`.
use spcd_actuator.Prelude.{ℕ, ◌+◌, Bool, ◌&&◌, if◌then◌else◌, leb, not, u8}
use spcd_actuator.Floats.{Floats}

-- `Trip`
pub data Trip : Type 0 where
  nothing current_sense_invalid peak_overcurrent i2t bus_undervoltage bus_overvoltage : Trip
  fet_overtemperature : Trip

-- `SafetyMonitor::Config`
pub record Config (fl : Floats) : Type 0 where
  pub overcurrent_A : fl.F
  pub overcurrent_count : ℕ
  pub i2t_rated_A : fl.F
  pub i2t_tau_s : fl.F
  pub bus_min_V : fl.F
  pub bus_max_V : fl.F
  pub fet_fault_C : fl.F

-- `SafetyMonitor::Input`
pub record Input (fl : Floats) : Type 0 where
  pub current_ok : Bool
  pub i1_A : fl.F
  pub i2_A : fl.F
  pub i3_A : fl.F
  pub bus_ok : Bool
  pub bus_V : fl.F
  pub fet_ok : Bool
  pub fet_temp_C : fl.F
  pub dt_s : fl.F

-- The members that `Evaluate` changes.
pub record Monitor (fl : Floats) : Type 0 where
  pub overcurrent_count : ℕ
  pub i2t_energy_A2s : fl.F
  pub last_trip : Trip

-- `Reset`
unfoldable pub reset : (fl : Floats) → Monitor fl → Monitor fl
reset fl m = record { overcurrent_count = 0; i2t_energy_A2s = fl.lit 0 0; last_trip = nothing }

module _ (fl : Floats) where
  -- `x >= 0.0f ? x : -x`
  unfoldable pub magnitude : fl.F → fl.F
  magnitude x = if fl.le (fl.lit 0 0) x then x else fl.neg x

  -- The largest of the three magnitudes.
  unfoldable pub largest : Input fl → fl.F
  largest in' =
      let ia = magnitude in'.i1_A in
      let ib = magnitude in'.i2_A in
      let ic = magnitude in'.i3_A in
      let ab = if fl.lt ia ib then ib else ia in if fl.lt ab ic then ic else ab

  -- `config_.overcurrent_A > 0.0f && i_abs > config_.overcurrent_A`
  unfoldable pub is_over : Config fl → Input fl → Bool
  is_over c in' = fl.lt (fl.lit 0 0) c.overcurrent_A && fl.lt c.overcurrent_A (largest in')

  -- Is the I²t model on?
  unfoldable pub has_i2t : Config fl → Input fl → Bool
  has_i2t c in' =
      fl.lt (fl.lit 0 0) c.i2t_rated_A
      && (fl.lt (fl.lit 0 0) c.i2t_tau_s && fl.lt (fl.lit 0 0) in'.dt_s)

  -- The energy after a sample, not below 0, and its limit.
  unfoldable pub energy_after : Config fl → Input fl → fl.F → fl.F
  energy_after c in' energy =
      let rated2 = fl.mul c.i2t_rated_A c.i2t_rated_A in
      let i_abs = largest in' in
      let next = fl.add energy (fl.mul (fl.sub (fl.mul i_abs i_abs) rated2) in'.dt_s) in
      if fl.lt next (fl.lit 0 0) then fl.lit 0 0 else next

  unfoldable pub energy_limit : Config fl → fl.F
  energy_limit c = fl.mul (fl.mul c.i2t_rated_A c.i2t_rated_A) c.i2t_tau_s

  abbrev tripped : Trip → Monitor fl → Monitor fl
  tripped t m = record m { last_trip = t }

  -- The tests of `Evaluate` on the FETs' temperature, and before it on the bus.
  unfoldable pub check_fet : Config fl → Input fl → Monitor fl → Monitor fl
  check_fet c in' m =
      if in'.fet_ok && fl.lt c.fet_fault_C in'.fet_temp_C
      then tripped fet_overtemperature m
      else tripped nothing m

  unfoldable pub check_bus : Config fl → Input fl → Monitor fl → Monitor fl
  check_bus c in' m =
      if not in'.bus_ok
      then check_fet c in' m
      else if fl.lt in'.bus_V c.bus_min_V
      then tripped bus_undervoltage m
      else if fl.lt c.bus_max_V in'.bus_V
      then tripped bus_overvoltage m
      else check_fet c in' m

  -- The I²t model, and the tests after it.
  unfoldable pub check_i2t : Config fl → Input fl → Monitor fl → Monitor fl
  check_i2t c in' m =
      let charged = record m { i2t_energy_A2s = energy_after c in' m.i2t_energy_A2s } in
      if not (has_i2t c in')
      then check_bus c in' m
      else if fl.lt (energy_limit c) charged.i2t_energy_A2s
      then tripped i2t charged
      else check_bus c in' charged

  -- `Evaluate`; the returned trip is `last_trip`.
  unfoldable pub evaluate : Config fl → Input fl → Monitor fl → Monitor fl
  evaluate c in' m =
      let counted = record m { overcurrent_count = u8 (m.overcurrent_count + 1) } in
      if not in'.current_ok
      then tripped current_sense_invalid m
      else if not (is_over c in')
      then check_i2t c in' (record m { overcurrent_count = 0 })
      else if leb c.overcurrent_count counted.overcurrent_count
      then tripped peak_overcurrent counted
      else check_i2t c in' counted
