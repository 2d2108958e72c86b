-- ===== src/Hal/PhasePwm/Tests.antt =====
-- The PWM at a clock of 170 MHz and 15 kHz.
use spcd_actuator.Prelude.{◌≡◌, refl, false, List, [], ◌∷◌, inl, arith}
use spcd_actuator.Hal.PhasePwm.{Pwm, duty_to_ccr, reload, timer_clock}
use spcd_actuator.Hal.PhasePwm.Runs.{
  Operation, do_init, do_set_duty, enable_isr, run, IsSound, run-IsSound,
}

abbrev built : Pwm
built = record {
  rate_hz = 15000;
  arr = 0;
  duty_a = 0;
  duty_b = 0;
  duty_c = 0;
  init_ok = false;
  adc_trigger_on = false;
  control_isr_on = false;
  timer = record {
    arr = 0;
    ccr1 = 0;
    ccr2 = 0;
    ccr3 = 0;
    ccr4 = 0;
    cc4_dma = false;
    update_interrupt = false;
  };
  has_handler = false;
}

abbrev session : List Operation
session = do_init ∷ enable_isr ∷ do_set_duty 20 500 2000 ∷ []

ccr_500 : duty_to_ccr 5666 500 ≡ 2833
unfolding duty_to_ccr
ccr_500 = refl

run-IsSound_example : IsSound 15000 (run 170000000 170000000 session built)
unfolding reload timer_clock
run-IsSound_example =
    run-IsSound 170000000 170000000 15000 refl (omega arith) session built (record {
      same = refl;
      fits = omega arith;
      a_share = (inl refl, refl);
      b_share = (inl refl, refl);
      c_share = (inl refl, refl);
      trigger = refl;
      interrupt = refl;
      handled = λ h. h;
    })
