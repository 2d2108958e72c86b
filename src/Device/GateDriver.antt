-- ===== src/Device/GateDriver.antt =====
-- fw/device/src/drv8353s.cc and inc/device/drv8353s.h: the gate driver chip, its registers and its
-- start. The chip is a parameter: what it answers to a 16-bit frame and to its enable pin, and its
-- fault line. Fields of a register do not overlap, so `|` adds them, and a mask of contiguous bits is a
-- quotient and a remainder.
pub mod Registers
pub mod Start
pub mod Success
mod Tests
use spcd_actuator.Prelude.{
  ℕ, ◌+◌, ◌-◌, ◌*◌, ◌/◌, ◌%◌, ◌^◌, Bool, true, false, ◌&&◌, ◌||◌, not, if◌then◌else◌, leb, ltb,
  ◌==◌, List, [], ◌∷◌,
}

-- `PwmMode`, `OcpMode`
pub data PwmMode : Type 0 where
  pwm_6x pwm_3x pwm_1x independent : PwmMode

pub data OcpMode : Type 0 where
  latched_fault automatic_retry report_only disabled : OcpMode

abbrev pub pwm_code : PwmMode → ℕ
pwm_code pwm_6x = 0
pwm_code pwm_3x = 1
pwm_code pwm_1x = 2
pwm_code independent = 3

abbrev pub ocp_code : OcpMode → ℕ
ocp_code latched_fault = 0
ocp_code automatic_retry = 1
ocp_code report_only = 2
ocp_code disabled = 3

-- `Config`
pub record Config : Type 0 where
  pub disable_charge_pump_uvlo : Bool
  pub disable_gate_drive_fault : Bool
  pub report_overtemperature_warning : Bool
  pub pwm_mode : PwmMode
  pub pwm_1x_asynchronous : Bool
  pub pwm_1x_direction : Bool
  pub source_current_hs_ma : ℕ
  pub sink_current_hs_ma : ℕ
  pub source_current_ls_ma : ℕ
  pub sink_current_ls_ma : ℕ
  pub cycle_by_cycle : Bool
  pub peak_drive_time_ns : ℕ
  pub retry_time_50us : Bool
  pub dead_time_ns : ℕ
  pub ocp_mode : OcpMode
  pub ocp_deglitch_us : ℕ
  pub vds_threshold_mv : ℕ
  pub csa_fet : Bool
  pub vref_divide_by_2 : Bool
  pub low_side_reference : Bool
  pub csa_gain : ℕ
  pub disable_sense_ocp : Bool
  pub sense_threshold_mv : ℕ

-- The chip at its pins.
pub record Chip : Type 1 where
  pub C : Type 0
  -- the word that a frame brings, and the chip after it
  pub exchange : ℕ → C → ℕ × C
  pub set_enable : Bool → C → C
  pub fault_low : C → Bool

-- `Status`, where the start reads it, and the members of `Drv8353s` with the pins EN_GATE and HIZ
pub record Driver (h : Chip) : Type 0 where
  pub chip : h.C
  pub enable_pin : Bool
  pub hiz_pin : Bool
  pub enabled : Bool
  pub power_on : Bool
  pub init_ok : Bool

-- `MapChoice`: the first entry that is not below the value, or the last
unfoldable pub map_choice : List ℕ → ℕ → ℕ
map_choice [] value = 0
map_choice (t ∷ []) value = 0
map_choice (t ∷ u ∷ ts) value =
    let rest = map_choice (u ∷ ts) value in if leb value t then 0 else rest + 1

-- `Bit`
abbrev pub bit : Bool → ℕ → ℕ
bit value position = if value then 2 ^ position else 0

-- `IDRIVEP_MA`, `IDRIVEN_MA`, `TDRIVE_NS`, `DEAD_TIME_NS`, `OCP_DEG_US`, `VDS_LVL_MV`, `CSA_GAIN`,
-- `SEN_LVL_MV`
abbrev pub source_ma : List ℕ
source_ma =
    50 ∷ 50 ∷ 100 ∷ 150 ∷ 300 ∷ 350 ∷ 400 ∷ 450 ∷ 550 ∷ 600 ∷ 650 ∷ 700 ∷ 850 ∷ 900 ∷ 950 ∷ 1000
    ∷ []

abbrev pub sink_ma : List ℕ
sink_ma =
    100 ∷ 100 ∷ 200 ∷ 300 ∷ 600 ∷ 700 ∷ 800 ∷ 900 ∷ 1100 ∷ 1200 ∷ 1300 ∷ 1400 ∷ 1700 ∷ 1800 ∷ 1900
    ∷ 2000 ∷ []

abbrev pub drive_ns : List ℕ
drive_ns = 500 ∷ 1000 ∷ 2000 ∷ 4000 ∷ []

abbrev pub dead_ns : List ℕ
dead_ns = 50 ∷ 100 ∷ 200 ∷ 400 ∷ []

abbrev pub deglitch_us : List ℕ
deglitch_us = 1 ∷ 2 ∷ 4 ∷ 8 ∷ []

abbrev pub vds_mv : List ℕ
vds_mv =
    60 ∷ 70 ∷ 80 ∷ 90 ∷ 100 ∷ 200 ∷ 300 ∷ 400 ∷ 500 ∷ 600 ∷ 700 ∷ 800 ∷ 900 ∷ 1000 ∷ 1500 ∷ 2000
    ∷ []

abbrev pub gains : List ℕ
gains = 5 ∷ 10 ∷ 20 ∷ 40 ∷ []

abbrev pub sense_mv : List ℕ
sense_mv = 250 ∷ 500 ∷ 750 ∷ 1000 ∷ []

-- The registers of `Configure`, from address 2 on.
unfoldable pub driver_control : Config → ℕ
driver_control c =
    1024
    + bit c.disable_charge_pump_uvlo 9
    + bit c.disable_gate_drive_fault 8
    + bit c.report_overtemperature_warning 7
    + pwm_code c.pwm_mode * 32
    + bit c.pwm_1x_asynchronous 4
    + bit c.pwm_1x_direction 3

unfoldable pub gate_drive_hs : Config → ℕ
gate_drive_hs c =
    768 + map_choice source_ma c.source_current_hs_ma * 16 + map_choice sink_ma c.sink_current_hs_ma

unfoldable pub gate_drive_ls : Config → ℕ
gate_drive_ls c =
    bit c.cycle_by_cycle 10
    + map_choice drive_ns c.peak_drive_time_ns * 256
    + map_choice source_ma c.source_current_ls_ma * 16
    + map_choice sink_ma c.sink_current_ls_ma

unfoldable pub ocp_control : Config → ℕ
ocp_control c =
    bit c.retry_time_50us 10
    + map_choice dead_ns c.dead_time_ns * 256
    + ocp_code c.ocp_mode * 64
    + map_choice deglitch_us c.ocp_deglitch_us * 16
    + map_choice vds_mv c.vds_threshold_mv

unfoldable pub csa_control : Config → ℕ
csa_control c =
    bit c.csa_fet 10
    + bit c.vref_divide_by_2 9
    + bit c.low_side_reference 8
    + map_choice gains c.csa_gain * 64
    + bit c.disable_sense_ocp 5
    + map_choice sense_mv c.sense_threshold_mv

unfoldable pub registers : Config → List (ℕ × ℕ)
registers c =
    (2, driver_control c)
    ∷ (3, gate_drive_hs c)
    ∷ (4, gate_drive_ls c)
    ∷ (5, ocp_control c)
    ∷ (6, csa_control c)
    ∷ (7, 1)
    ∷ []

-- The frames of `ReadRegister` and `WriteRegister`
abbrev pub read_frame : ℕ → ℕ
read_frame address = 32768 + address % 16 * 2048

abbrev pub write_frame : ℕ → ℕ → ℕ
write_frame address value = address % 16 * 2048 + value % 2048

module _ (h : Chip) where
  unfoldable pub read_register : ℕ → h.C → ℕ × h.C
  read_register address c = let (word, c') = h.exchange (read_frame address) c in (word % 2048, c')

  unfoldable pub write_register : ℕ → ℕ → h.C → h.C
  write_register address value c = (h.exchange (write_frame address value) c).1

  -- The loops of `Configure`: the writes, and the bits of the registers that do not read back
  unfoldable pub write_all : List (ℕ × ℕ) → h.C → h.C
  write_all [] c = c
  write_all ((a, v) ∷ rs) c = write_all rs (write_register a v c)

  unfoldable pub verify_all : List (ℕ × ℕ) → h.C → ℕ × h.C
  verify_all [] c = (0, c)
  verify_all ((a, v) ∷ rs) c =
      let (word, c') = read_register a c in
      let (failures, c'') = verify_all rs c' in ((if word == v then 0 else 2 ^ a) + failures, c'')

  -- `Configure`
  unfoldable pub configure : Config → h.C → ℕ × h.C
  configure g c = verify_all (registers g) (write_all (registers g) c)

  -- `CALIBRATION_MASK` of a register, and `CalibrateCurrentSense`
  abbrev pub calibration_bits : ℕ → ℕ
  calibration_bits x = x / 4 % 8 * 4

  unfoldable pub calibrate_current_sense : h.C → Bool × h.C
  calibrate_current_sense c =
      let (reg6, c1) = read_register 6 c in
      let c2 = write_register 6 (reg6 - calibration_bits reg6 + 28) c1 in
      let c3 = write_register 6 (reg6 - calibration_bits reg6) c2 in
      let (after, c4) = read_register 6 c3 in (calibration_bits after == 0, c4)

  -- `ReadStatus`, where `Init` uses it: a fault in the first status register, or at the line
  unfoldable pub read_fault : h.C → Bool × h.C
  read_fault c =
      let (fs1, c1) = read_register 0 c in
      let (fs2, c2) = read_register 1 c1 in (fs1 / 1024 % 2 == 1 || h.fault_low c2, c2)

  -- `PowerOn`, `PowerOff`, `Enable`, `Disable`
  unfoldable pub power_on : Driver h → Driver h
  power_on d = record d { hiz_pin = true; power_on = true }

  unfoldable pub power_off : Driver h → Driver h
  power_off d = record d { hiz_pin = false; power_on = false }

  unfoldable pub enable : Driver h → Driver h
  enable d = record d { chip = h.set_enable true d.chip; enable_pin = true; enabled = true }

  unfoldable pub disable : Driver h → Driver h
  disable d = record (power_off d) {
    chip = h.set_enable false d.chip;
    enable_pin = false;
    enabled = false;
    init_ok = false;
  }

  -- `Init`, by whether the last step failed
  unfoldable pub check_status : Bool → Driver h → Driver h × Bool
  check_status true d = (disable d, false)
  check_status false d = (record d { init_ok = true }, true)

  unfoldable pub check_calibration : Bool → Driver h → Driver h × Bool
  check_calibration false d = (disable d, false)
  check_calibration true d =
      let (fault, c) = read_fault d.chip in check_status fault (record d { chip = c })

  unfoldable pub check_configuration : Bool → Driver h → Driver h × Bool
  check_configuration false d = (disable d, false)
  check_configuration true d =
      let (calibrated, c) = calibrate_current_sense d.chip in
      check_calibration calibrated (record d { chip = c })

  unfoldable pub init : Config → Driver h → Driver h × Bool
  init g d =
      let e = record (enable (disable (power_off d))) { init_ok = false } in
      let (failures, c) = configure g e.chip in
      check_configuration (failures == 0) (record e { chip = c })
