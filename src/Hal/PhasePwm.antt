-- ===== src/Hal/PhasePwm.antt =====
-- fw/HAL/src/phase_pwm.cc and inc/HAL/phase_pwm.h: the three-phase PWM of timer TIM5 and the control
-- interrupt at its valley. The registers that the driver reads or writes later are the record `Timer`.
pub mod Runs
mod Tests
use spcd_actuator.Prelude.{
  ℕ, Bool, true, false, ◌&&◌, not, if◌then◌else◌, ◌*◌, ◌/◌, ltb, ◌==◌, u16, u32,
}

-- TIM5: the reload and compare registers, and the enables of the DMA request at CC4 and of the update
-- interrupt.
pub record Timer : Type 0 where
  pub arr : ℕ
  pub ccr1 : ℕ
  pub ccr2 : ℕ
  pub ccr3 : ℕ
  pub ccr4 : ℕ
  pub cc4_dma : Bool
  pub update_interrupt : Bool

-- The members of `PhasePwm`, the timer, and whether `g_control_isr_fn` is set.
pub record Pwm : Type 0 where
  pub rate_hz : ℕ
  pub arr : ℕ
  pub duty_a : ℕ
  pub duty_b : ℕ
  pub duty_c : ℕ
  pub init_ok : Bool
  pub adc_trigger_on : Bool
  pub control_isr_on : Bool
  pub timer : Timer
  pub has_handler : Bool

-- `kDutyMax`, `kDutyMinMilli`, `kDutyMaxMilli`
abbrev pub duty_max : ℕ
duty_max = 1000

abbrev pub duty_min_milli : ℕ
duty_min_milli = 50

abbrev pub duty_max_milli : ℕ
duty_max_milli = 950

-- `ClampDuty`
unfoldable pub clamp_duty : ℕ → ℕ
clamp_duty milli =
    if milli == 0
    then 0
    else if ltb milli duty_min_milli
    then duty_min_milli
    else if ltb duty_max_milli milli
    then duty_max_milli
    else milli

-- A duty as `SetDuty` keeps it.
unfoldable pub kept_duty : ℕ → ℕ
kept_duty milli = clamp_duty (if ltb duty_max milli then duty_max else milli)

-- `DutyToCcr`: the product is a `uint32_t`, the result a `uint16_t`.
unfoldable pub duty_to_ccr : ℕ → ℕ → ℕ
duty_to_ccr arr milli = u16 (u32 (milli * arr) / duty_max)

-- `SetDuty`, `Stop`
unfoldable pub set_duty : ℕ → ℕ → ℕ → Pwm → Pwm
set_duty a_milli b_milli c_milli p = record p {
  duty_a = kept_duty a_milli;
  duty_b = kept_duty b_milli;
  duty_c = kept_duty c_milli;
  timer = record p.timer {
    ccr1 = duty_to_ccr p.arr (kept_duty a_milli);
    ccr2 = duty_to_ccr p.arr (kept_duty b_milli);
    ccr3 = duty_to_ccr p.arr (kept_duty c_milli);
  };
}

unfoldable pub stop : Pwm → Pwm
stop p = set_duty 0 0 0 p

-- The reload value of `ConfigureTimer`, for the clocks of the bus APB1 and of the core.
unfoldable pub timer_clock : ℕ → ℕ → ℕ
timer_clock pclk1 core_clock = if pclk1 == core_clock then pclk1 else u32 (2 * pclk1)

unfoldable pub reload : ℕ → ℕ → ℕ → ℕ
reload pclk1 core_clock rate_hz =
    let arr = timer_clock pclk1 core_clock / u32 (2 * rate_hz) in if ltb arr 2 then 2 else arr

-- `ConfigureTimer`, which clears DIER
unfoldable pub configure_timer : ℕ → ℕ → Pwm → Pwm
configure_timer pclk1 core_clock p =
    let arr = reload pclk1 core_clock p.rate_hz in
    record p {
      arr = arr;
      timer = record {
        arr = arr;
        ccr1 = 0;
        ccr2 = 0;
        ccr3 = 0;
        ccr4 = arr;
        cc4_dma = false;
        update_interrupt = false;
      };
    }

-- `Init`, false for a rate of 0
unfoldable pub init_if : Bool → ℕ → ℕ → Pwm → Pwm × Bool
init_if true pclk1 core_clock p = (p, false)
init_if false pclk1 core_clock p =
    (record (set_duty 0 0 0 (configure_timer pclk1 core_clock p)) { init_ok = true }, true)

unfoldable pub init : ℕ → ℕ → Pwm → Pwm × Bool
init pclk1 core_clock p =
    init_if (p.rate_hz == 0) pclk1 core_clock
      (record p { init_ok = false; adc_trigger_on = false; control_isr_on = false })

-- `EnableAdcTrigger`, `DisableAdcTrigger`
unfoldable pub enable_adc_trigger : Pwm → Pwm
enable_adc_trigger p = record p { timer = record p.timer { cc4_dma = true }; adc_trigger_on = true }

unfoldable pub disable_adc_trigger : Pwm → Pwm
disable_adc_trigger p = record p {
  timer = record p.timer { cc4_dma = false };
  adc_trigger_on = false;
}

-- `EnableControlIsr` with a handler, `DisableControlIsr`
unfoldable pub enable_control_isr : Pwm → Pwm
enable_control_isr p = record p {
  has_handler = true;
  timer = record p.timer { update_interrupt = true };
  control_isr_on = true;
}

unfoldable pub disable_control_isr : Pwm → Pwm
disable_control_isr p = record p {
  timer = record p.timer { update_interrupt = false };
  has_handler = false;
  control_isr_on = false;
}

-- `Tim5ControlIrq`: is the handler called, by the update flag of SR and the direction bit of CR1?
unfoldable pub control_irq : Bool → Bool → Pwm → Bool
control_irq update_flag counts_down p =
    if not update_flag then false else if counts_down then false else p.has_handler
