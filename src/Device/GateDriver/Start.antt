-- ===== src/Device/GateDriver/Start.antt =====
-- The start of the gate driver, whatever the chip answers.
use spcd_actuator.Prelude.{◌≡◌, refl, Bool, true, false}
use spcd_actuator.Device.GateDriver.{
  Config, Chip, Driver, power_off, enable, disable, check_status, check_calibration,
  check_configuration, init,
}

module _ (h : Chip) where
  -- The power stage is off, and the driver is ready and enabled exactly where the start succeeded.
  pub record IsSafe (r : Driver h × Bool) : Type 0 where
    pub high_impedance : r.0.hiz_pin ≡ false
    pub off : r.0.power_on ≡ false
    pub ready : r.0.init_ok ≡ r.1
    pub is_enabled : r.0.enabled ≡ r.1
    pub pin : r.0.enable_pin ≡ r.1

  -- What a step of the start is given: enabled, with the power stage off.
  abbrev IsArmed : Driver h → Type 0
  IsArmed d =
      (d.hiz_pin ≡ false) × (d.power_on ≡ false) × (d.enabled ≡ true) × (d.enable_pin ≡ true)

  disabled-IsSafe : (d : Driver h) → IsSafe (disable h d, false)
  unfolding disable power_off
  disabled-IsSafe d = record {
    high_impedance = refl;
    off = refl;
    ready = refl;
    is_enabled = refl;
    pin = refl;
  }

  check_status-IsSafe : (b : Bool) (d : Driver h) → IsArmed d → IsSafe (check_status h b d)
  unfolding check_status
  check_status-IsSafe true d a = disabled-IsSafe d
  check_status-IsSafe false d (z, p, e, n) = record {
    high_impedance = z;
    off = p;
    ready = refl;
    is_enabled = e;
    pin = n;
  }

  check_calibration-IsSafe :
      (b : Bool) (d : Driver h) → IsArmed d → IsSafe (check_calibration h b d)
  unfolding check_calibration
  check_calibration-IsSafe false d a = disabled-IsSafe d
  check_calibration-IsSafe true d a = check_status-IsSafe _ _ a

  check_configuration-IsSafe :
      (b : Bool) (d : Driver h) → IsArmed d → IsSafe (check_configuration h b d)
  unfolding check_configuration
  check_configuration-IsSafe false d a = disabled-IsSafe d
  check_configuration-IsSafe true d a = check_calibration-IsSafe _ _ a

  -- Whatever the chip answers and whatever state the driver was in, after `Init` the power stage is in
  -- high impedance, and the driver is enabled and ready exactly where `Init` returns true.
  pub init-IsSafe : (g : Config) (d : Driver h) → IsSafe (init h g d)
  unfolding init enable disable power_off
  init-IsSafe g d = check_configuration-IsSafe _ _ (refl, refl, refl, refl)
